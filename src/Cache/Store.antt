-- ===== src/Cache/Store.antt =====
-- internal/cache/memory.go and guarded.go: the sharded store. Each operation locks one shard, so a
-- call is one step on that shard.
use Prim.Native.Nat.{bit_xor}
use semblance.Cache.Shard
use semblance.Cache.Shard.{Shard, StoredResponse, Match, Entries, insert_entry}
use semblance.Double.{Double, Single}
use semblance.Prelude.{
  ℕ, zero, suc, ◌+◌, ◌*◌, ◌/◌, ◌%◌, ◌^◌, Bool, true, false, List, [], ◌∷◌, foldl, Option, none,
  some, if◌then◌else◌, ltb, length, get_elem?, set,
}
use semblance.Text.{Text}

abbrev pub MemoryStore : Type 0 → Type 0 → Type 0
MemoryStore F S = List (Shard F S)

-- `fnv.New32a`.
unfoldable pub fnv32a : Text → ℕ
fnv32a bytes = foldl (λ h b. bit_xor h b * 16777619 % 2 ^ 32) 2166136261 bytes

abbrev pub at_least_one : ℕ → ℕ
at_least_one n = if ltb n 1 then 1 else n

module _ {F S : Type 0} where
  abbrev pub new_shard : ℕ → ℕ → ℕ → Shard F S
  new_shard capacity max_obs i = record {
    heap = [];
    buckets = [];
    lru = [];
    capacity = capacity;
    max_obs = max_obs;
    counter = 0;
    index = i;
  }

  -- The shards from the index `i` on, `left` of them.
  unfoldable pub new_shards : ℕ → ℕ → ℕ → ℕ → MemoryStore F S
  new_shards zero i capacity max_obs = []
  new_shards (suc left) i capacity max_obs =
      new_shard capacity max_obs i ∷ new_shards left (i + 1) capacity max_obs

  -- A negative argument acts as 0 does: each is raised to 1.
  unfoldable pub new_memory_store : ℕ → ℕ → ℕ → MemoryStore F S
  unfolding new_shards
  new_memory_store total_capacity max_obs shard_count =
      let shards = at_least_one shard_count in
      new_shards shards 0 (at_least_one (total_capacity / shards)) (at_least_one max_obs)

  unfoldable pub shard_for : MemoryStore F S → Text → ℕ
  unfolding fnv32a
  shard_for m bucket = fnv32a bucket % length m

  unfoldable pub len : MemoryStore F S → ℕ
  len m = foldl (λ n sh. n + length sh.lru) 0 m

  -- A store with no shard has none to lock: the code would panic there.
  unfoldable pub observe :
      (ℕ → ℕ) → MemoryStore F S → Text → Text → F → Bool → Option (MemoryStore F S × Bool)
  observe draw m bucket id s c = elim (get_elem? m (shard_for m bucket)) [
    | none ↦ none
    | some sh ↦ elim (Shard.observe draw sh bucket id s c) [
      | none ↦ none
      | some (sh', done) ↦ some (set m (shard_for m bucket) sh', done)
    ]
  ]

module _ {F S : Type 0} ⦃d : Double F⦄ ⦃f : Single F S⦄ where
  unfoldable pub nearest :
      (Entries → Entries)
      → MemoryStore F S
      → Text
      → List S
      → Option (MemoryStore F S × Option (Match F))
  nearest range m bucket vec = elim (get_elem? m (shard_for m bucket)) [
    | none ↦ none
    | some sh ↦
        let (sh', found) = Shard.nearest range sh bucket vec in
        some (set m (shard_for m bucket) sh', found)
  ]

  unfoldable pub insert :
      MemoryStore F S → Text → List S → StoredResponse → Option (MemoryStore F S × Text)
  insert m bucket vec resp = elim (get_elem? m (shard_for m bucket)) [
    | none ↦ none
    | some sh ↦
        let (sh', id) = insert_entry sh bucket vec resp in some (set m (shard_for m bucket) sh', id)
  ]

  -- The new entry's ID, if the neighbour was wrong and the entry is added.
  unfoldable pub guarded_insert :
      MemoryStore F S
      → Text
      → List S
      → StoredResponse
      → Bool
      → Option (MemoryStore F S × Option Text)
  guarded_insert m bucket vec resp true = some (m, none)
  guarded_insert m bucket vec resp false = elim (insert m bucket vec resp) [
    | none ↦ none
    | some (m', id) ↦ some (m', some id)
  ]
