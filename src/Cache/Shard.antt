-- ===== src/Cache/Shard.antt =====
-- internal/cache/memory.go: one shard. A pointer to an entry is its address, the place of the entry
-- in `heap`; the LRU list and the bucket maps hold addresses, so both see the one entry that
-- `observe` changes. An entry's LRU element is the node that holds its address.
use semblance.Assoc.{lookup, insert, delete}
use semblance.Cache.Vector.{normalize, dot}
use semblance.Double.{Double, Single}
use semblance.Policy.Logistic.{Observation}
use semblance.Prelude.{
  ℕ, zero, suc, ◌+◌, ◌%◌, ◌^◌, Bool, true, false, ◌&&◌, List, [], ◌∷◌, ◌++◌, foldl, Option, none,
  some, if◌then◌else◌, ltb, ◌==◌, length, get_elem?, set, init, last?,
}
use semblance.Text.{Text, text_Eq, codes, format_uint}

pub record StoredResponse : Type 0 where
  pub body : Text
  pub content_type : Text
  pub content : Text

pub record Match (F : Type 0) : Type 0 where
  pub entry_id : Text
  pub similarity : F
  pub observations : List (Observation F)
  pub response : StoredResponse

pub record Entry (F S : Type 0) : Type 0 where
  pub id : Text
  pub bucket : Text
  pub vec : List S
  pub resp : StoredResponse
  pub obs : List (Observation F)
  pub seen : ℕ

abbrev pub Entries : Type 0
Entries = List (Text × ℕ)

pub record Shard (F S : Type 0) : Type 0 where
  pub heap : List (Entry F S)
  pub buckets : List (Text × Entries)
  pub lru : List ℕ
  pub capacity : ℕ
  pub max_obs : ℕ
  pub counter : ℕ
  pub index : ℕ

unfoldable pub remove : ℕ → List ℕ → List ℕ
remove a [] = []
remove a (x ∷ xs) = if x == a then xs else x ∷ remove a xs

-- `lru.MoveToFront`.
abbrev pub move_to_front : ℕ → List ℕ → List ℕ
move_to_front a xs = a ∷ remove a xs

-- `sh.buckets[bucket]`: a missing map reads as the empty one.
unfoldable pub bucket_entries : Text → List (Text × Entries) → Entries
bucket_entries b m = elim (lookup b m) [ none ↦ [] | some es ↦ es ]

unfoldable pub add_entry : Text → Text → ℕ → List (Text × Entries) → List (Text × Entries)
add_entry b i a m = insert b (insert i a (bucket_entries b m)) m

-- A map that is left empty is deleted.
unfoldable pub put_back : Text → Entries → List (Text × Entries) → List (Text × Entries)
put_back b [] m = delete b m
put_back b (x ∷ xs) m = insert b (x ∷ xs) m

unfoldable pub drop_entry : Text → Text → List (Text × Entries) → List (Text × Entries)
drop_entry b i m = elim (lookup b m) [ none ↦ m | some es ↦ put_back b (delete i es) m ]

-- `strconv.Itoa(index) + "-" + strconv.FormatUint(counter, 10)`.
unfoldable pub entry_id : ℕ → ℕ → Text
entry_id index counter = format_uint index ++ (codes "-" ++ format_uint counter)

module _ {F : Type 0} where
  -- The observations of an entry after one more, the `seen`-th. A full reservoir draws a slot below
  -- `seen`; `none` is the panic of `Int63n` at a bound that is not positive as an int64.
  unfoldable pub reservoir :
      (ℕ → ℕ) → ℕ → ℕ → List (Observation F) → Observation F → Option (List (Observation F))
  reservoir draw max_obs seen obs ob =
      if ltb (length obs) max_obs
      then some (obs ++ (ob ∷ []))
      else if ltb 0 seen && ltb seen (2 ^ 63)
      then some (if ltb (draw seen) max_obs then set obs (draw seen) ob else obs)
      else none

module _ {F S : Type 0} where
  unfoldable pub evict_lru : Shard F S → Shard F S
  evict_lru sh = elim (last? sh.lru) [
    | none ↦ sh
    | some a ↦ elim (get_elem? sh.heap a) [
      | none ↦ sh
      | some victim ↦ record sh {
        lru = init sh.lru;
        buckets = drop_entry victim.bucket victim.id sh.buckets;
      }
    ]
  ]

  -- `for sh.lru.Len() > sh.capacity`, with fuel.
  unfoldable pub evict_loop : ℕ → Shard F S → Shard F S
  evict_loop zero sh = sh
  evict_loop (suc fuel) sh = elim (ltb sh.capacity (length sh.lru)) [
    | true ↦ evict_loop fuel (evict_lru sh)
    | false ↦ sh
  ]

  -- A new entry is linked at the front of the list and into its bucket.
  unfoldable pub add : Shard F S → Entry F S → Shard F S
  add sh e =
      let a = length sh.heap in
      record sh {
        heap = sh.heap ++ (e ∷ []);
        counter = (sh.counter + 1) % 2 ^ 64;
        lru = a ∷ sh.lru;
        buckets = add_entry e.bucket e.id a sh.buckets;
      }

  -- `draw n` is what `rng.Int63n(n)` returns in this call; `none` is a panic.
  unfoldable pub observe : (ℕ → ℕ) → Shard F S → Text → Text → F → Bool → Option (Shard F S × Bool)
  observe draw sh bucket id s c = elim (lookup id (bucket_entries bucket sh.buckets)) [
    | none ↦ some (sh, false)
    | some a ↦ elim (get_elem? sh.heap a) [
      | none ↦ some (sh, false)
      | some e ↦
          let seen = (e.seen + 1) % 2 ^ 64 in
          elim (reservoir draw sh.max_obs seen e.obs (record { s = s; c = c })) [
            | none ↦ none
            | some obs ↦ some (
              record sh {
                heap = set sh.heap a (record e { obs = obs; seen = seen });
                lru = move_to_front a sh.lru;
              },
              true,
            )
          ]
    ]
  ]

module _ {F S : Type 0} ⦃d : Double F⦄ ⦃f : Single F S⦄ where
  -- One round of the scan, at an entry: the best address so far and its similarity.
  unfoldable pub closer : List S → ℕ → Entry F S → Option ℕ × F → Option ℕ × F
  closer q a e (best, sim) =
      let s = dot q e.vec in
      if length e.vec == length q
      then (if d.lt sim s then (some a, s) else (best, sim))
      else (best, sim)

  unfoldable pub better : List S → List (Entry F S) → Option ℕ × F → Text × ℕ → Option ℕ × F
  unfolding closer
  better q heap best (id, a) = elim (get_elem? heap a) [ none ↦ best | some e ↦ closer q a e best ]

  abbrev pub scan : List S → List (Entry F S) → Entries → Option ℕ × F
  scan q heap es = foldl (better q heap) (none, d.neg_inf) es

  -- `range` is the order in which Go ranges over the map in this call.
  unfoldable pub nearest :
      (Entries → Entries) → Shard F S → Text → List S → Shard F S × Option (Match F)
  nearest range sh bucket vec =
      let es = bucket_entries bucket sh.buckets in
      let (best, sim) = scan (normalize F vec) sh.heap (range es) in
      if length es == 0 then (sh, none) else elim best [
        | none ↦ (sh, none)
        | some a ↦ elim (get_elem? sh.heap a) [
          | none ↦ (sh, none)
          | some e ↦ (
            record sh { lru = move_to_front a sh.lru },
            some (record {
              entry_id = e.id;
              similarity = sim;
              observations = e.obs;
              response = e.resp;
            }),
          )
        ]
      ]

  -- The entry that `insert_entry` makes.
  abbrev pub new_entry : Shard F S → Text → List S → StoredResponse → Entry F S
  new_entry sh bucket vec resp = record {
    id = entry_id sh.index ((sh.counter + 1) % 2 ^ 64);
    bucket = bucket;
    vec = normalize F vec;
    resp = resp;
    obs = [];
    seen = 0;
  }

  unfoldable pub insert_entry : Shard F S → Text → List S → StoredResponse → Shard F S × Text
  insert_entry sh bucket vec resp =
      let e = new_entry sh bucket vec resp in
      let sh' = add sh e in (evict_loop (length sh'.lru) sh', e.id)
