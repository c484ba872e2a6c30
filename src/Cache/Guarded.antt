-- ===== src/Cache/Guarded.antt =====
-- internal/cache/guarded.go: `GuardedInsert` on a store.
use semblance.Cache.Insert.{insert-IsValid, insert-entries}
use semblance.Cache.Shard.{Shard, StoredResponse, new_entry, insert_entry}
use semblance.Cache.Store.{MemoryStore, shard_for, insert, guarded_insert}
use semblance.Cache.Valid.{entries, IsValid}
use semblance.Double.{Double, Single}
use semblance.Prelude.{
  ℕ, zero, suc, ◌+◌, ◌^◌, ◌<◌, ◌≡◌, refl, sym, ap, Bool, true, false, List, [], ◌∷◌, none, some,
  if◌then◌else◌, get_elem?, set, take,
}
use semblance.Text.{Text}

set-get_elem? :
    {A : Type 0} (xs : List A) (i : ℕ) (v : A) → get_elem? xs i ≡ some v → set xs i v ≡ xs
set-get_elem? [] i v h = refl
set-get_elem? (x ∷ xs) zero v h = let same : v ≡ x = cc in ap (λ y. y ∷ xs) same
set-get_elem? (x ∷ xs) (suc i) v h = ap (◌∷◌ x) (set-get_elem? xs i v h)

module _ {F S : Type 0} ⦃d : Double F⦄ ⦃f : Single F S⦄ where
  -- A guarded insert into a store whose shard for the bucket is valid, with room in its counter,
  -- returns and keeps that shard valid. If the neighbour was right the store is unchanged and no ID
  -- is given; otherwise the bucket's shard gets the new entry in front, keeps the first `capacity`
  -- entries, and the entry's ID is given. No other shard changes.
  pub guarded_insert-entries :
      (m : MemoryStore F S) (b : Text) (vec : List S) (resp : StoredResponse) (correct : Bool)
      (sh : Shard F S)
      → get_elem? m (shard_for m b) ≡ some sh
      → IsValid sh
      → sh.counter + 1 < 2 ^ 64
      → let e = new_entry sh b vec resp in
        (sh' : Shard F S) × (guarded_insert m b vec resp correct
          ≡ some (set m (shard_for m b) sh', if correct then none else some e.id))
        × (entries sh' ≡ (if correct then entries sh else take sh.capacity (e ∷ entries sh)))
        × IsValid sh'
  unfolding guarded_insert insert
  guarded_insert-entries m b vec resp true sh here v h = (
    sh,
    ap (λ (n : MemoryStore F S). some (n, none)) (sym (set-get_elem? m (shard_for m b) sh here)),
    refl,
    v,
  )
  guarded_insert-entries m b vec resp false sh here v h =
      let (kept, id, _) = insert-entries sh b vec resp v h in
      (
        (insert_entry sh b vec resp).0,
        rw (here, guarded_insert, insert)
            (ap (λ (i : Text). some (set m (shard_for m b) (insert_entry sh b vec resp).0, some i))
              id),
        kept,
        insert-IsValid sh b vec resp v h,
      )
