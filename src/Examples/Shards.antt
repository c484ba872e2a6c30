-- ===== src/Examples/Shards.antt =====
-- A shard of internal/cache/memory.go with two entries, and the theorems on it.
use semblance.Cache.Abstract.{IsCandidate, similarity}
use semblance.Cache.RoundTrip.{insert-observe-nearest}
use semblance.Cache.Evict.{Evicted, evict_loop-Evicted}
use semblance.Cache.Insert.{entry_id-injective, insert-IsValid, insert-entries}
use semblance.Cache.Nearest.{Visits, sim, IsUpper, IsComparable, match_of, nearest_lem}
use semblance.Cache.Observe.{reservoir_cases, observe_hit}
use semblance.Cache.Shard.{
  Entry, Entries, Shard, StoredResponse, entry_id, reservoir, add, evict_loop, observe, nearest,
  new_entry, insert_entry, evict_lru, add_entry, bucket_entries, better,
}
use semblance.Cache.Store.{new_shard}
use semblance.Cache.Touch.{remove_key}
use semblance.Cache.Valid.{All, In, key_of, entries, IsLinked, IsValid, view, new_shard-IsValid}
use semblance.Cache.Vector.{normalize, dot}
use semblance.Examples.Fixed.{Fixed, num, fixed, single_fixed, fixed-IsOrdered}
use semblance.Policy.Logistic.{Observation}
use semblance.Prelude.{
  ℕ, ◌+◌, ◌/◌, ◌^◌, ◌<◌, ◌≤◌, ◌≡◌, ◌≢◌, refl, ◌⊎◌, inl, true, false, List, [], ◌∷◌, Option, none,
  some, arith, length, set, take,
}
use semblance.Text.{Text, codes, format_uint}

abbrev pub key : Text
key = codes "b1"

abbrev pub response : StoredResponse
response = record {
  body = codes "{}";
  content_type = codes "application/json";
  content = codes "hi";
}

abbrev pub one_zero : List Fixed
one_zero = num 1000001000 ∷ num 1000000000 ∷ []

abbrev pub zero_one : List Fixed
zero_one = num 1000000000 ∷ num 1000001000 ∷ []

-- Room for two entries of two observations.
abbrev pub empty_shard : Shard Fixed Fixed
empty_shard = new_shard 2 2 7

empty_shard-IsValid : IsValid empty_shard
empty_shard-IsValid = new_shard-IsValid 2 2 7 (omega arith)

abbrev pub one_entry : Shard Fixed Fixed
one_entry = (insert_entry empty_shard key one_zero response).0

abbrev pub two_entries : Shard Fixed Fixed
two_entries = (insert_entry one_entry key zero_one response).0

one_entry-counter : one_entry.counter ≡ 1
unfolding insert_entry add evict_loop
one_entry-counter = refl

pub two_entries-counter : two_entries.counter ≡ 2
unfolding insert_entry add evict_loop
two_entries-counter = refl

pub one_entry-IsValid : IsValid one_entry
one_entry-IsValid =
    insert-IsValid empty_shard key one_zero response empty_shard-IsValid (omega arith)

pub two_entries-IsValid : IsValid two_entries
two_entries-IsValid =
    insert-IsValid one_entry key zero_one response one_entry-IsValid
      (omega (arith, one_entry-counter))

insert-IsValid_test : IsValid (insert_entry two_entries key one_zero response).0
insert-IsValid_test =
    insert-IsValid two_entries key one_zero response two_entries-IsValid
      (omega (arith, two_entries-counter))

insert-entries_example :
    let (sh', id) = insert_entry two_entries key one_zero response in
    let e = new_entry two_entries key one_zero response in
    (entries sh' ≡ take two_entries.capacity (e ∷ entries two_entries))
    × (id ≡ e.id)
    × (sh'.capacity ≡ two_entries.capacity)
insert-entries_example =
    insert-entries two_entries key one_zero response two_entries-IsValid
      (omega (arith, two_entries-counter))

abbrev pub in_order : Entries → Entries
in_order es = es

pub in_order-Visits : Visits in_order
in_order-Visits es x = (λ h. h, λ h. h)

nearest_lem_example :
    ((nearest in_order two_entries key zero_one ≡ (two_entries, none))
      × IsUpper fixed-IsOrdered in_order two_entries key zero_one fixed.neg_inf)
    ⊎ ((e : Entry Fixed Fixed) × (sh' : Shard Fixed Fixed) × (nearest in_order two_entries key
            zero_one
          ≡ (
            sh',
            some (
                match_of fixed-IsOrdered e
                  (sim fixed-IsOrdered in_order two_entries key zero_one e)),
          ))
        × In e (entries two_entries)
        × IsComparable fixed-IsOrdered key zero_one e
        × IsUpper fixed-IsOrdered in_order two_entries key zero_one
            (sim fixed-IsOrdered in_order two_entries key zero_one e)
        × (entries sh' ≡ e ∷ remove_key (key_of e) (entries two_entries))
        × IsValid sh')
nearest_lem_example =
    nearest_lem fixed-IsOrdered in_order two_entries key zero_one in_order-Visits
      two_entries-IsValid

-- The entry that is equal to the query is found, with a similarity of 1.
found : Option (Text × Fixed)
found = elim (nearest in_order two_entries key zero_one).1 [
  | none ↦ none
  | some m ↦ some (m.entry_id, m.similarity)
]

nearest_test : found ≡ some (codes "7-2", num 1000001000)
unfolding found insert_entry add evict_loop evict_lru add_entry bucket_entries normalize dot nearest
    better entry_id format_uint
nearest_test = refl

abbrev pub last_entry : Entry Fixed Fixed
last_entry = new_entry one_entry key zero_one response

pub last_entry-In : In last_entry (entries two_entries)
unfolding insert_entry add evict_loop view
last_entry-In = inl refl

-- A slot below the bound, as `Int63n` draws it.
abbrev pub slot : ℕ → ℕ
slot n = n / 2

observe_hit_example :
    (sh' : Shard Fixed Fixed) × (obs : List (Observation Fixed)) × (observe slot two_entries
        last_entry.bucket last_entry.id
        (num 1000000900)
        true
      ≡ some (sh', true))
    × (reservoir slot two_entries.max_obs
          (last_entry.seen + 1)
          last_entry.obs
          (record { s = num 1000000900; c = true })
        ≡ some obs)
    × (entries sh'
        ≡ record last_entry { obs = obs; seen = last_entry.seen + 1 }
          ∷ remove_key (key_of last_entry) (entries two_entries))
    × IsValid sh'
observe_hit_example =
    observe_hit slot two_entries last_entry (num 1000000900) true two_entries-IsValid last_entry-In
      (omega arith)

entries-fresh : All (λ (e : Entry Fixed Fixed). e.seen + 1 < 2 ^ 63) (entries two_entries)
unfolding insert_entry add evict_loop view
entries-fresh = (omega arith, (omega arith, tt))

no_entry : (e : Entry Fixed Fixed) → In e (entries empty_shard) → key_of e ≢ (key, codes "7-9")
unfolding view
no_entry e h same = h

abbrev two : ℕ
two = 2

abbrev twelve : ℕ
twelve = 12

abbrev seen_one : Observation Fixed
seen_one = record { s = num 1000000900; c = true }

abbrev seen_two : Observation Fixed
seen_two = record { s = num 1000000700; c = false }

-- A full reservoir, at the fourth observation.
reservoir_cases_test :
    (obs' : List (Observation Fixed)) × (reservoir slot 2 4 (seen_one ∷ seen_one ∷ []) seen_two
      ≡ some obs')
    × (((two < two) × (obs' ≡ seen_one ∷ seen_one ∷ seen_two ∷ []))
        ⊎ ((two ≡ two) × (slot 4 < two) × (obs' ≡ set (seen_one ∷ seen_one ∷ []) (slot 4) seen_two))
        ⊎ ((two ≡ two) × (two ≤ slot 4) × (obs' ≡ seen_one ∷ seen_one ∷ [])))
    × (length obs' ≤ 2)
    × (length obs' ≤ 4)
reservoir_cases_test =
    reservoir_cases slot 2 4 (seen_one ∷ seen_one ∷ []) seen_two (omega arith) (omega arith)
      (omega arith) (omega arith)

-- The two entries where there is room for one.
abbrev overfull : Shard Fixed Fixed
overfull = record two_entries { capacity = 1 }

overfull-IsLinked : IsLinked overfull
overfull-IsLinked =
    let v = two_entries-IsValid in
    record { distinct = v.distinct; indexed = v.indexed; tidy = v.tidy; sound = v.sound }

overfull-length : length overfull.lru ≤ 2
unfolding insert_entry add evict_loop
overfull-length = omega arith

evict_loop-Evicted_example : Evicted overfull (evict_loop 2 overfull) overfull.capacity
evict_loop-Evicted_example = evict_loop-Evicted 2 overfull overfull-IsLinked overfull-length

entry_id-injective_test : twelve ≡ twelve
entry_id-injective_test = entry_id-injective 7 12 12 (omega arith) (omega arith) refl

alone : (e : Entry Fixed Fixed) → In e (entries empty_shard) → ¬ IsCandidate key one_zero e
unfolding view
alone e member like = member

above :
    fixed.lt fixed.neg_inf (similarity one_zero (new_entry empty_shard key one_zero response))
    ≡ true
unfolding normalize dot
above = refl

insert-observe-nearest_example :
    let e = new_entry empty_shard key one_zero response in
    let (sh', id) = insert_entry empty_shard key one_zero response in
    ((sh'' : Shard Fixed Fixed) × (observe slot sh' key id (num 1000000900) true
        ≡ some (sh'', true))
      × (entries sh''
          ≡ record e { obs = record { s = num 1000000900; c = true } ∷ []; seen = 1 }
            ∷ remove_key (key_of e) (entries sh')))
    × ((nearest in_order sh' key one_zero).1
        ≡ some (record {
          entry_id = id;
          similarity = similarity one_zero e;
          observations = [];
          response = response;
        }))
insert-observe-nearest_example =
    insert-observe-nearest fixed-IsOrdered slot in_order empty_shard key one_zero one_zero response
      (num 1000000900) true in_order-Visits empty_shard-IsValid (omega arith) (omega arith) refl
      alone above
