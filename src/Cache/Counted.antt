-- ===== src/Cache/Counted.antt =====
-- How long the machine integers of the store of internal/cache/memory.go last: after `n` calls no counter
-- of a shard and no count of an entry is above `n`.
use semblance.Cache.Abstract.{Lru, lru_of, Change, Event, miss, hit, unknown, learn, enter}
use semblance.Cache.Refined.{Call, at}
use semblance.Cache.Shard.{Entry}
use semblance.Cache.Steps.{HasRoom}
use semblance.Cache.Store.{MemoryStore, new_shards}
use semblance.Cache.Touch.{All-remove_key, All-In}
use semblance.Cache.Valid.{All, view, key_of}
use semblance.Double.{Double, Single}
use semblance.Prelude.{
  ℕ, zero, suc, ◌+◌, ◌^◌, ◌≤◌, ◌<◌, ◌≡◌, subst, map, List, [], ◌∷◌, some, arith, get_elem?, set,
  take,
}

All-mono :
    {A : Type 0} {P Q : A → Type 0} → ((x : A) → P x → Q x) → (xs : List A) → All P xs → All Q xs
All-mono h [] p = tt
All-mono h (x ∷ xs) (p, ps) = (h x p, All-mono h xs ps)

All-take : {A : Type 0} (P : A → Type 0) (n : ℕ) (xs : List A) → All P xs → All P (take n xs)
All-take P zero xs p = tt
All-take P (suc n) [] p = tt
All-take P (suc n) (x ∷ xs) (p, ps) = (p, All-take P n xs ps)

All-set :
    {A : Type 0} (P : A → Type 0) (xs : List A) (i : ℕ) (x : A)
    → All P xs
    → P x
    → All P (set xs i x)
All-set P [] i x ps p = tt
All-set P (y ∷ xs) zero x (q, ps) p = (p, ps)
All-set P (y ∷ xs) (suc i) x (q, ps) p = (q, All-set P xs i x ps p)

All-at :
    {A : Type 0} (P : A → Type 0) (xs : List A) (i : ℕ) {x : A}
    → All P xs
    → get_elem? xs i ≡ some x
    → P x
All-at P [] i ps h = absurd (cc)
All-at P (y ∷ xs) zero (p, ps) h = subst P (cc) p
All-at P (y ∷ xs) (suc i) (p, ps) h = All-at P xs i ps h

module _ {F S : Type 0} where
  abbrev IsSeen : ℕ → Entry F S → Type 0
  IsSeen n e = e.seen ≤ n

  abbrev IsWithin : ℕ → Lru F S → Type 0
  IsWithin n l = (l.counter ≤ n) × All (IsSeen n) l.entries

  abbrev pub IsCounted : ℕ → MemoryStore F S → Type 0
  IsCounted n m = All (IsWithin n) (map lru_of m)

  IsWithin-suc : (n : ℕ) (l : Lru F S) → IsWithin n l → IsWithin (suc n) l
  IsWithin-suc n l (c, es) = (omega arith, All-mono (λ e h. omega arith) l.entries es)

  pub IsCounted-suc : (n : ℕ) (m : MemoryStore F S) → IsCounted n m → IsCounted (suc n) m
  IsCounted-suc n m c = All-mono (IsWithin-suc n) (map lru_of m) c

  -- The counters have room for one more call.
  pub IsCounted-HasRoom :
      (n : ℕ) (m : MemoryStore F S) → n + 1 < 2 ^ 63 → IsCounted n m → All HasRoom m
  IsCounted-HasRoom n [] h c = tt
  IsCounted-HasRoom n (sh ∷ m) h ((counter, es), c) = (
    (omega arith, All-mono (λ e seen. omega arith) (view sh.heap sh.lru) es),
    IsCounted-HasRoom n m h c,
  )

pub new_shards-IsCounted :
    (F S : Type 0) (left i capacity max_obs : ℕ)
    → IsCounted 0 (new_shards {F = F} {S = S} left i capacity max_obs)
unfolding new_shards view
new_shards-IsCounted F S zero i capacity max_obs = tt
new_shards-IsCounted F S (suc left) i capacity max_obs =
    ((omega arith, tt), new_shards-IsCounted F S left (i + 1) capacity max_obs)

module _ {F S : Type 0} ⦃d : Double F⦄ ⦃f : Single F S⦄ where
  Change-IsWithin :
      (n : ℕ) {l l' : Lru F S} {ev : Event F S}
      → Change l ev l'
      → IsWithin n l
      → IsWithin (suc n) l'
  Change-IsWithin n {l} (miss b vec top) c = IsWithin-suc n l c
  Change-IsWithin n {l} (hit b vec e member like top) c =
      let (counter, es) = IsWithin-suc n l c in
      (
        counter,
        (
          All-In (IsSeen (suc n)) l.entries e es member,
          All-remove_key (IsSeen (suc n)) (key_of e) l.entries es,
        ),
      )
  Change-IsWithin n {l} (unknown b i s c' absent) c = IsWithin-suc n l c
  Change-IsWithin n {l} (learn draw e b i s c' obs member named taken) c =
      let (counter, es) = IsWithin-suc n l c in
      let seen : e.seen ≤ n = All-In (IsSeen n) l.entries e c.1 member in
      (counter, (omega arith, All-remove_key (IsSeen (suc n)) (key_of e) l.entries es))
  Change-IsWithin n {l} (enter b vec resp) c =
      let (counter, es) = IsWithin-suc n l c in
      (omega (arith, c.0), All-take (IsSeen (suc n)) l.capacity (_ ∷ l.entries) (omega arith, es))

  pub Call-IsCounted :
      (n : ℕ) {ls : List (Lru F S)} {ev : Event F S} {ls' : List (Lru F S)}
      → Call ls ev ls'
      → All (IsWithin n) ls
      → All (IsWithin (suc n)) ls'
  Call-IsCounted n {ls} (at ev l l' there change) c =
      All-set (IsWithin (suc n)) ls _ l' (All-mono (IsWithin-suc n) ls c)
        (Change-IsWithin n change (All-at (IsWithin n) ls _ c there))
