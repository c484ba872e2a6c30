-- ===== src/Examples/Stores.antt =====
-- A store of internal/cache after some calls, and bucket keys.
use semblance.Cache.Key.{bucket_key, bucket_key-injective}
use semblance.Cache.Shard
use semblance.Cache.Shard.{Entry, StoredResponse, add, evict_loop, insert_entry}
use semblance.Cache.Refined.{Calls, events, view_of, Reach-Calls}
use semblance.Cache.Steps.{HasRoom, Step, Reach, Reach-len, IsStore, new_shards-IsStore}
use semblance.Cache.Store.{
  new_shard, guarded_insert, MemoryStore, at_least_one, fnv32a, insert, len, new_memory_store,
  new_shards, shard_for,
}
use semblance.Cache.Guarded.{guarded_insert-entries}
use semblance.Cache.Valid.{new_shard-IsValid, entries, All, IsValid, view}
use semblance.Examples.Fixed.{Fixed, num, fixed, single_fixed, fixed-IsOrdered}
use semblance.Prelude.{
  false, if◌then◌else◌, get_elem?, set, take, ℕ, ◌≤◌, ◌≡◌, refl, ◌⊎◌, ◌↔◌, List, [], ◌∷◌, Option,
  none, some, arith,
}
use semblance.Text.{Text, codes, format_uint}

abbrev start : MemoryStore Fixed Fixed
start = new_memory_store 1 10 2

abbrev response : StoredResponse
response = record {
  body = codes "{}";
  content_type = codes "application/json";
  content = codes "hi";
}

abbrev inserted : Option (MemoryStore Fixed Fixed × Text)
inserted = insert start (codes "k") (num 1000001000 ∷ []) response

-- The store after the insert.
after : MemoryStore Fixed Fixed
after = elim inserted [ none ↦ start | some (m, id) ↦ m ]

insert_returns : inserted ≡ some (after, codes "0-1")
unfolding insert new_memory_store new_shards shard_for fnv32a after insert_entry Shard.entry_id
    format_uint
insert_returns = refl

start-HasRoom : All HasRoom start
unfolding new_memory_store new_shards view
start-HasRoom = ((omega arith, tt), ((omega arith, tt), tt))

one_call : Reach start after
one_call = Reach.next Reach.here (
    Step.insert start after (codes "k") (num 1000001000 ∷ []) response (codes "0-1") start-HasRoom
      insert_returns)

Reach-len_example : All IsValid after × ((len after ≤ 1) ⊎ (len after ≤ at_least_one 2))
Reach-len_example = Reach-len fixed-IsOrdered 1 10 2 one_call

-- Two shards hold two entries together, though a total of one is asked for.
both : Option ℕ
both = elim (insert after (codes "l") (num 1000001000 ∷ []) response) [
  | none ↦ none
  | some (m, id) ↦ some (len m)
]

len_test : both ≡ some 2
unfolding both len insert new_memory_store new_shards shard_for fnv32a after insert_entry add
    evict_loop
len_test = refl

abbrev first_shard : Shard.Shard Fixed Fixed
first_shard = new_shard 1 10 0

shard_of_key : get_elem? start (shard_for start (codes "k")) ≡ some first_shard
unfolding new_memory_store new_shards shard_for fnv32a
shard_of_key = refl

guarded_insert-entries_test :
    let e = Shard.new_entry first_shard (codes "k") (num 1000001000 ∷ []) response in
    (sh' : Shard.Shard Fixed Fixed) × (guarded_insert start
        (codes "k")
        (num 1000001000 ∷ [])
        response
        false
      ≡ some (set start (shard_for start (codes "k")) sh', if false then none else some e.id))
    × (entries sh' ≡ (if false then entries first_shard else take 1 (e ∷ entries first_shard)))
    × IsValid sh'
guarded_insert-entries_test =
    guarded_insert-entries start (codes "k") (num 1000001000 ∷ []) response false first_shard
      shard_of_key (new_shard-IsValid 1 10 0 (omega arith)) (omega arith)

abbrev parts : List Text
parts = codes "gpt" ∷ codes "" ∷ codes "v1" ∷ []

abbrev other_parts : List Text
other_parts = codes "gp" ∷ codes "t" ∷ codes "v1" ∷ []

-- A digest that does not collide on these.
bucket_key-injective_example :
    (bucket_key (λ s. s) parts ≡ bucket_key (λ s. s) other_parts) ↔ (parts ≡ other_parts)
bucket_key-injective_example =
    bucket_key-injective (λ s. s) parts other_parts (omega arith, (omega arith, (omega arith, tt)))
      (omega arith, (omega arith, (omega arith, tt))) (λ h. h)

start-IsStore : IsStore 2 start
unfolding new_memory_store
start-IsStore = new_shards-IsStore 2 0 1 10 (omega arith)

Reach-Calls_example : Calls (view_of start) (events one_call) (view_of after) × IsStore 2 after
Reach-Calls_example = Reach-Calls fixed-IsOrdered 2 start-IsStore one_call
