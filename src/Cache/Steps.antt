-- ===== src/Cache/Steps.antt =====
-- The store of internal/cache under any sequence of calls. Each call holds one shard's lock, so the
-- calls of concurrent goroutines are a sequence of steps.
use native.Mathlib.Nat.{div-add-mod}
use semblance.Cache.Insert.{insert-IsValid, insert-entries}
use semblance.Cache.Nearest.{Visits, nearest-IsValid, nearest-capacity}
use semblance.Cache.Observe.{observe-IsValid, observe-capacity}
use semblance.Cache.Shard
use semblance.Cache.Shard.{Entry, Entries, Match, StoredResponse, insert_entry}
use semblance.Cache.Store
use semblance.Cache.Store.{
  MemoryStore, at_least_one, new_shard, new_shards, new_memory_store, shard_for, len,
}
use semblance.Cache.Valid.{All, entries, IsValid, new_shard-IsValid}
use semblance.Double.{Double, Single, IsOrdered}
use semblance.Prelude.{
  ℕ, zero, suc, ◌+◌, ◌*◌, ◌/◌, ◌^◌, ◌≤◌, ◌<◌, ◌≡◌, refl, ◌∙◌, subst, ◌⊎◌, inl, inr, Bool, List, [],
  ◌∷◌, Option, some, arith, length, get_elem?, set, foldl, Option-cases, Bool-cases, ltb,
}
use semblance.Text.{Text}

-- What the shards hold together.
capacity_bound :
    (total n : ℕ)
    → 0 < n
    → (n * at_least_one (total / n) ≤ total) ⊎ (n * at_least_one (total / n) ≤ n)
capacity_bound total n h = elim (Bool-cases (ltb (total / n) 1)) [
  | inl low ↦ inr (rw low (omega arith))
  | inr high ↦ inl (rw high (omega (arith, div-add-mod total n)))
]

module _ {F S : Type 0} where
  -- No counter of the shard is about to leave its machine integer.
  abbrev pub HasRoom : Shard.Shard F S → Type 0
  HasRoom sh = (sh.counter + 1 < 2 ^ 64) × All (λ e. e.seen + 1 < 2 ^ 63) (entries sh)

  abbrev pub total_capacity : MemoryStore F S → ℕ
  total_capacity [] = 0
  total_capacity (sh ∷ m) = sh.capacity + total_capacity m

  -- Every shard is valid, and `total` is what they may hold together.
  pub record IsStore (total : ℕ) (m : MemoryStore F S) : Type 0 where
    pub shards : All IsValid m
    pub capacity_eq : total_capacity m ≡ total

  len_from :
      (m : MemoryStore F S) (n : ℕ)
      → All IsValid m
      → foldl (λ k sh. k + length sh.lru) n m ≤ n + total_capacity m
  len_from [] n v = omega arith
  len_from (sh ∷ m) n (v, vs) = omega (arith, len_from m (n + length sh.lru) vs, v.bounded)

  pub len-le : (total : ℕ) (m : MemoryStore F S) → IsStore total m → len m ≤ total
  unfolding len
  len-le total m v = omega (arith, len_from m 0 v.shards, v.capacity_eq)

  pub All-get {κ} :
      (P : Shard.Shard F S → Type κ) (m : MemoryStore F S) (i : ℕ) {sh : Shard.Shard F S}
      → All P m
      → get_elem? m i ≡ some sh
      → P sh
  All-get P [] i v h = absurd (cc)
  All-get P (x ∷ m) zero v h = subst P (cc) v.0
  All-get P (x ∷ m) (suc i) v h = All-get P m i v.1 h

  All-set :
      (m : MemoryStore F S) (i : ℕ) (sh : Shard.Shard F S)
      → All IsValid m
      → IsValid sh
      → All IsValid (set m i sh)
  All-set [] i sh v h = tt
  All-set (x ∷ m) zero sh v h = (h, v.1)
  All-set (x ∷ m) (suc i) sh v h = (v.0, All-set m i sh v.1 h)

  total-set :
      (m : MemoryStore F S) (i : ℕ) (sh sh' : Shard.Shard F S)
      → get_elem? m i ≡ some sh
      → sh'.capacity ≡ sh.capacity
      → total_capacity (set m i sh') ≡ total_capacity m
  total-set [] i sh sh' h e = refl
  total-set (x ∷ m) zero sh sh' h e = ground arith
  total-set (x ∷ m) (suc i) sh sh' h e = omega (arith, total-set m i sh sh' h e)

  -- A shard that is replaced by a valid one of its capacity.
  set-IsStore :
      (total : ℕ) (m : MemoryStore F S) (i : ℕ) (sh sh' : Shard.Shard F S)
      → IsStore total m
      → get_elem? m i ≡ some sh
      → IsValid sh'
      → sh'.capacity ≡ sh.capacity
      → IsStore total (set m i sh')
  set-IsStore total m i sh sh' v h valid e = record {
    shards = All-set m i sh' v.shards valid;
    capacity_eq = total-set m i sh sh' h e ∙ v.capacity_eq;
  }

  pub new_shards-IsStore :
      (left i total max_obs : ℕ)
      → 0 < total
      → IsStore (left * total) (new_shards {F = F} {S = S} left i total max_obs)
  unfolding new_shards
  new_shards-IsStore zero i total max_obs h = record { shards = tt; capacity_eq = omega arith }
  new_shards-IsStore (suc left) i total max_obs h =
      let rest = new_shards-IsStore left (i + 1) total max_obs h in
      record {
        shards = (new_shard-IsValid total max_obs i h, rest.shards);
        capacity_eq = grind (arith, rest.capacity_eq);
      }

  observe-IsStore :
      (draw : ℕ → ℕ) (total : ℕ) (m : MemoryStore F S) (b i : Text) (s : F) (c : Bool)
      {m' : MemoryStore F S} {done : Bool}
      → IsStore total m
      → All HasRoom m
      → Store.observe draw m b i s c ≡ some (m', done)
      → IsStore total m'
  unfolding Store.observe
  observe-IsStore draw total m b i s c {m'} v room h =
      elim (Option-cases (get_elem? m (shard_for m b))) [
        | inl gone ↦ absurd (ground arith)
        | inr (sh, here) ↦
            let valid = All-get IsValid m (shard_for m b) v.shards here in
            let (sh', done', did, valid') =
              observe-IsValid draw sh (b, i) s c valid
                (All-get HasRoom m (shard_for m b) room here).1 in
            let eq : m' ≡ set m (shard_for m b) sh' = ground arith in
            rw eq (
              set-IsStore total m (shard_for m b) sh sh' v here valid'
                (observe-capacity draw sh (b, i) s c did))
      ]

module _ {F S : Type 0} ⦃d : Double F⦄ ⦃f : Single F S⦄ where
  insert-IsStore :
      (total : ℕ) (m : MemoryStore F S) (b : Text) (vec : List S) (resp : StoredResponse)
      {m' : MemoryStore F S} {id : Text}
      → IsStore total m
      → All HasRoom m
      → Store.insert m b vec resp ≡ some (m', id)
      → IsStore total m'
  unfolding Store.insert
  insert-IsStore total m b vec resp {m'} v room h =
      elim (Option-cases (get_elem? m (shard_for m b))) [
        | inl gone ↦ absurd (ground arith)
        | inr (sh, here) ↦
            let valid = All-get IsValid m (shard_for m b) v.shards here in
            let small = (All-get HasRoom m (shard_for m b) room here).0 in
            let eq : m' ≡ set m (shard_for m b) (insert_entry sh b vec resp).0 = ground arith in
            rw eq (
              set-IsStore total m (shard_for m b) sh (insert_entry sh b vec resp).0 v here
                (insert-IsValid sh b vec resp valid small)
                (insert-entries sh b vec resp valid small).2)
      ]

  nearest-IsStore :
      (laws : IsOrdered F) (range : Entries → Entries) (total : ℕ) (m : MemoryStore F S) (b : Text)
      (vec : List S) {m' : MemoryStore F S} {found : Option (Match F)}
      → Visits range
      → IsStore total m
      → Store.nearest range m b vec ≡ some (m', found)
      → IsStore total m'
  unfolding Store.nearest
  nearest-IsStore laws range total m b vec {m'} visits v h =
      elim (Option-cases (get_elem? m (shard_for m b))) [
        | inl gone ↦ absurd (ground arith)
        | inr (sh, here) ↦
            let valid = All-get IsValid m (shard_for m b) v.shards here in
            let eq : m' ≡ set m (shard_for m b) (Shard.nearest range sh b vec).0 = ground arith in
            rw eq (
              set-IsStore total m (shard_for m b) sh (Shard.nearest range sh b vec).0 v here
                (nearest-IsValid laws range sh b vec visits valid)
                (nearest-capacity laws range sh b vec))
      ]

  -- A call on the store, by any goroutine. A call whose counters have no room left is no step.
  pub data Step : MemoryStore F S → MemoryStore F S → Type 0 where
    nearest :
        (range : Entries → Entries) (m m' : MemoryStore F S) (b : Text) (vec : List S)
        (found : Option (Match F))
        → Visits range
        → Store.nearest range m b vec ≡ some (m', found)
        → Step m m'
    observe :
        (draw : ℕ → ℕ) (m m' : MemoryStore F S) (b i : Text) (s : F) (c done : Bool)
        → All HasRoom m
        → Store.observe draw m b i s c ≡ some (m', done)
        → Step m m'
    insert :
        (m m' : MemoryStore F S) (b : Text) (vec : List S) (resp : StoredResponse) (id : Text)
        → All HasRoom m
        → Store.insert m b vec resp ≡ some (m', id)
        → Step m m'

  pub data Reach (m : MemoryStore F S) : MemoryStore F S → Type 0 where
    here : Reach m m
    next : {m' m'' : MemoryStore F S} → Reach m m' → Step m' m'' → Reach m m''

  pub Step-IsStore :
      (laws : IsOrdered F) (total : ℕ) {m m' : MemoryStore F S}
      → Step m m'
      → IsStore total m
      → IsStore total m'
  Step-IsStore laws total (nearest range m m' b vec found visits h) v =
      nearest-IsStore laws range total m b vec visits v h
  Step-IsStore laws total (observe draw m m' b i s c done room h) v =
      observe-IsStore draw total m b i s c v room h
  Step-IsStore laws total (insert m m' b vec resp id room h) v =
      insert-IsStore total m b vec resp v room h

  Reach-IsStore :
      (laws : IsOrdered F) (total : ℕ) {m m' : MemoryStore F S}
      → IsStore total m
      → Reach m m'
      → IsStore total m'
  Reach-IsStore laws total v here = v
  Reach-IsStore laws total v (next r st) = Step-IsStore laws total st (Reach-IsStore laws total v r)

  -- After any sequence of calls on a new store, in which before every observation and every insertion
  -- each shard's counter is below 2 ^ 64 - 1 and each entry's count of observations seen is below
  -- 2 ^ 63 - 1: every shard is valid, and the store holds no more
  -- entries than its total capacity, or than it has shards if that is more.
  pub Reach-len :
      (laws : IsOrdered F) (total max_obs shards : ℕ) {m : MemoryStore F S}
      → Reach (new_memory_store total max_obs shards) m
      → All IsValid m × ((len m ≤ total) ⊎ (len m ≤ at_least_one shards))
  unfolding new_memory_store
  Reach-len laws total max_obs shards {m} r =
      let n = at_least_one shards in
      let each = at_least_one (total / n) in
      let v =
        Reach-IsStore laws (n * each)
          (new_shards-IsStore n 0 each (at_least_one max_obs) (ground arith)) r in
      (v.shards, ground (arith, capacity_bound total n (ground arith), len-le (n * each) m v))
