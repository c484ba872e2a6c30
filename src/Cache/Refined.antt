-- ===== src/Cache/Refined.antt =====
-- The store of internal/cache/memory.go does what its abstract view says, call by call.
use semblance.Cache.Abstract.{
  Lru, lru_of, Change, looked_up, observed, inserted, Event, nearest-Change, observe-Change,
  insert-Change,
}
use semblance.Cache.Shard
use semblance.Cache.Shard.{Entries, Entry, Match, StoredResponse, insert_entry}
use semblance.Cache.Steps.{
  HasRoom, IsStore, All-get, Step, Reach, Step-IsStore, nearest, observe, insert, here, next,
}
use semblance.Cache.Store
use semblance.Cache.Store.{MemoryStore, shard_for, fnv32a}
use semblance.Cache.Valid.{IsValid}
use semblance.Double.{Double, Single, IsOrdered}
use semblance.Prelude.{
  ℕ, zero, suc, ◌%◌, ◌≡◌, refl, sym, ap, subst, subst₂, Bool, ◌∙◌, inl, inr, List, [], ◌∷◌, map,
  Option, some, arith, length, get_elem?, set, Option-cases,
}
use semblance.Text.{Text}

module _ {A B : Type 0} (g : A → B) where
  length-map : (xs : List A) → length (map g xs) ≡ length xs
  length-map [] = refl
  length-map (x ∷ xs) = ap suc (length-map xs)

  get_elem?-map :
      (xs : List A) (i : ℕ) {x : A} → get_elem? xs i ≡ some x → get_elem? (map g xs) i ≡ some (g x)
  get_elem?-map [] i h = absurd (cc)
  get_elem?-map (x ∷ xs) zero h = cc
  get_elem?-map (x ∷ xs) (suc i) h = get_elem?-map xs i h

  map-set : (xs : List A) (i : ℕ) (x : A) → map g (set xs i x) ≡ set (map g xs) i (g x)
  map-set [] i x = refl
  map-set (y ∷ xs) zero x = refl
  map-set (y ∷ xs) (suc i) x = ap (◌∷◌ (g y)) (map-set xs i x)

module _ {F S : Type 0} ⦃d : Double F⦄ ⦃f : Single F S⦄ where
  abbrev pub bucket_of : Event F S → Text
  bucket_of (looked_up b vec found) = b
  bucket_of (observed b i sim c done) = b
  bucket_of (inserted b vec resp id) = b

  -- A call changes the shard of its bucket, and no other.
  pub data Call (ls : List (Lru F S)) : Event F S → List (Lru F S) → Type 0 where
    at :
        (ev : Event F S) (l l' : Lru F S)
        → get_elem? ls (fnv32a (bucket_of ev) % length ls) ≡ some l
        → Change l ev l'
        → Call ls ev (set ls (fnv32a (bucket_of ev) % length ls) l')

  -- A sequence of calls, the last one first.
  pub data Calls (ls : List (Lru F S)) : List (Event F S) → List (Lru F S) → Type 0 where
    idle : Calls ls [] ls
    then_call :
        {evs : List (Event F S)} {ev : Event F S} {ls' ls'' : List (Lru F S)}
        → Calls ls evs ls'
        → Call ls' ev ls''
        → Calls ls (ev ∷ evs) ls''

  -- A call of the store and its answer.
  pub event_of : {m m' : MemoryStore F S} → Step m m' → Event F S
  event_of (nearest range m m' b vec found visits h) = looked_up b vec found
  event_of (observe draw m m' b i s c done room h) = observed b i s c done
  event_of (insert m m' b vec resp id room h) = inserted b vec resp id

  pub events : {m m' : MemoryStore F S} → Reach m m' → List (Event F S)
  events here = []
  events (next r st) = event_of st ∷ events r

  abbrev pub view_of : MemoryStore F S → List (Lru F S)
  view_of m = map lru_of m

  shard-Call :
      (m : MemoryStore F S) (ev : Event F S) (sh sh' : Shard.Shard F S)
      → get_elem? m (shard_for m (bucket_of ev)) ≡ some sh
      → Change (lru_of sh) ev (lru_of sh')
      → Call (view_of m) ev (view_of (set m (shard_for m (bucket_of ev)) sh'))
  unfolding shard_for
  shard-Call m ev sh sh' found change =
      let i = fnv32a (bucket_of ev) % length m in
      let same : fnv32a (bucket_of ev) % length (view_of m) ≡ i =
        ap (λ (n : ℕ). fnv32a (bucket_of ev) % n) (length-map lru_of m) in
      let there : get_elem? (view_of m) (fnv32a (bucket_of ev) % length (view_of m))
          ≡ some (lru_of sh) =
        ap (get_elem? (view_of m)) same ∙ get_elem?-map lru_of m i found in
      subst (Call (view_of m) ev)
        (ap (λ (n : ℕ). set (view_of m) n (lru_of sh')) same ∙ sym (map-set lru_of m i sh'))
        (at ev (lru_of sh) (lru_of sh') there change)

  pub Step-Call :
      (laws : IsOrdered F) (total : ℕ) {m m' : MemoryStore F S}
      → IsStore total m
      → (st : Step m m') → Call (view_of m) (event_of st) (view_of m')
  unfolding Store.nearest Store.observe Store.insert event_of
  Step-Call laws total v (nearest range m m' b vec found visits h) =
      elim (Option-cases (get_elem? m (shard_for m b))) [
        | inl gone ↦ absurd (ground arith)
        | inr (sh, there) ↦
            let (sh', found') = Shard.nearest range sh b vec in
            subst₂
              (λ (x : MemoryStore F S) (y : Option (Match F)).
                Call (view_of m) (looked_up b vec y) (view_of x))
              (ground arith) (ground arith)
              (shard-Call m (looked_up b vec found') sh sh' there (
                nearest-Change laws range sh b vec visits
                  (All-get IsValid m (shard_for m b) v.shards there)))
      ]
  Step-Call laws total v (observe draw m m' b i s c done room h) =
      elim (Option-cases (get_elem? m (shard_for m b))) [
        | inl gone ↦ absurd (ground arith)
        | inr (sh, there) ↦ (elim (Option-cases (Shard.observe draw sh b i s c)) [
          | inl panic ↦ absurd (ground arith)
          | inr ((sh', done'), did) ↦
              subst₂
                (λ (x : MemoryStore F S) (y : Bool).
                  Call (view_of m) (observed b i s c y) (view_of x))
                (ground arith) (ground arith)
                (shard-Call m (observed b i s c done') sh sh' there (
                  observe-Change draw sh b i s c (All-get IsValid m (shard_for m b) v.shards there)
                    (All-get HasRoom m (shard_for m b) room there).1 did))
        ])
      ]
  Step-Call laws total v (insert m m' b vec resp id room h) =
      elim (Option-cases (get_elem? m (shard_for m b))) [
        | inl gone ↦ absurd (ground arith)
        | inr (sh, there) ↦
            let (sh', id') = insert_entry sh b vec resp in
            subst₂
              (λ (x : MemoryStore F S) (y : Text).
                Call (view_of m) (inserted b vec resp y) (view_of x))
              (ground arith) (ground arith)
              (shard-Call m (inserted b vec resp id') sh sh' there (
                insert-Change sh b vec resp (All-get IsValid m (shard_for m b) v.shards there)
                  (All-get HasRoom m (shard_for m b) room there).0))
      ]

  -- A valid store under any sequence of calls, while its counters have room, is the list of shards as
  -- lists of entries, with the same calls and the same answers. Each call changes only the shard of
  -- its bucket. A lookup returns an entry of the bucket as long as the query, to which none is
  -- preferable, and moves it to the front, or changes nothing if none is above negative infinity. An
  -- observation on an entry adds to it by the reservoir and moves it to the front; on no entry it
  -- changes nothing and answers false. An insert puts a new entry with the next ID in front and keeps
  -- the first `capacity` ones.
  pub Reach-Calls :
      (laws : IsOrdered F) (total : ℕ) {m m' : MemoryStore F S}
      → IsStore total m
      → (r : Reach m m') → Calls (view_of m) (events r) (view_of m') × IsStore total m'
  unfolding events
  Reach-Calls laws total v here = (idle, v)
  Reach-Calls laws total v (next r st) =
      let (calls, v') = Reach-Calls laws total v r in
      (then_call calls (Step-Call laws total v' st), Step-IsStore laws total st v')
