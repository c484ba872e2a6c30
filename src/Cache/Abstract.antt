-- ===== src/Cache/Abstract.antt =====
-- The store of internal/cache/memory.go as its callers may see it: for each shard a list of entries, the
-- most recently used one first, with no heap, no bucket maps and no addresses.
use semblance.Cache.Index.{EntryKey, key_Eq, get_entry}
use semblance.Cache.Insert.{insert-Evicted, insert-entries}
use semblance.Cache.Nearest.{Visits, nearest_lem}
use semblance.Cache.Observe.{observe_hit}
use semblance.Cache.Recency.{find, find-key}
use semblance.Cache.Shard
use semblance.Cache.Shard.{Entry, Entries, Match, StoredResponse, entry_id, reservoir, insert_entry}
use semblance.Cache.Touch.{remove_key, All-In}
use semblance.Cache.Valid.{
  All, In, key_of, key_at, entries, IsValid, find-In, In-find, key_at-entry,
}
use semblance.Cache.Vector.{normalize, dot}
use semblance.Double.{Double, Single, IsOrdered}
use semblance.Policy.Logistic.{Observation}
use semblance.Prelude.{
  ℕ, ◌+◌, ◌%◌, ◌^◌, ◌<◌, ◌≡◌, refl, sym, ap, subst, subst₂, ◌≢◌, ◌∙◌, inl, inr, Bool, true, false,
  List, [], ◌∷◌, Option, none, some, arith, length, take, Option-cases,
}
use semblance.Text.{Text}

-- A shard as a list of entries.
pub record Lru (F S : Type 0) : Type 0 where
  pub capacity : ℕ
  pub max_obs : ℕ
  pub counter : ℕ
  pub index : ℕ
  pub entries : List (Entry F S)

abbrev pub lru_of : {F S : Type 0} → Shard.Shard F S → Lru F S
lru_of sh = record {
  capacity = sh.capacity;
  max_obs = sh.max_obs;
  counter = sh.counter;
  index = sh.index;
  entries = entries sh;
}

-- A call on the store, with what it returned.
pub data Event (F S : Type 0) : Type 0 where
  looked_up : Text → List S → Option (Match F) → Event F S
  observed : Text → Text → F → Bool → Bool → Event F S
  inserted : Text → List S → StoredResponse → Text → Event F S

module _ {F S : Type 0} ⦃d : Double F⦄ ⦃f : Single F S⦄ where
  abbrev pub entered : Lru F S → Text → List S → StoredResponse → Entry F S
  entered l b vec resp = record {
    id = entry_id l.index (l.counter + 1);
    bucket = b;
    vec = normalize F vec;
    resp = resp;
    obs = [];
    seen = 0;
  }

  abbrev pub similarity : List S → Entry F S → F
  similarity vec e = dot (normalize F vec) e.vec

  -- An entry of the bucket that is as long as the query.
  abbrev pub IsCandidate : Text → List S → Entry F S → Type 0
  IsCandidate b vec e = (e.bucket ≡ b) × (length e.vec ≡ length vec)

  -- The snapshot of an entry that a lookup returns.
  abbrev pub match_of : Entry F S → F → Match F
  match_of e sim = record {
    entry_id = e.id;
    similarity = sim;
    observations = e.obs;
    response = e.resp;
  }

  -- No entry of the bucket that is as long as the query is more similar than `best`.
  abbrev pub IsBest : Lru F S → Text → List S → F → Type 0
  IsBest l b vec best =
      (e : Entry F S) → In e l.entries → IsCandidate b vec e → d.lt best (similarity vec e) ≡ false

  -- What a call with its answer does to a shard. A lookup and an observation move an entry to the
  -- front; an entry that is inserted stands in front, and the last ones are evicted.
  pub data Change (l : Lru F S) : Event F S → Lru F S → Type 0 where
    miss : (b : Text) (vec : List S) → IsBest l b vec d.neg_inf → Change l (looked_up b vec none) l
    hit :
        (b : Text) (vec : List S) (e : Entry F S)
        → In e l.entries
        → IsCandidate b vec e
        → IsBest l b vec (similarity vec e)
        → Change l
            (looked_up b vec (some (match_of e (similarity vec e))))
            (record l { entries = e ∷ remove_key (key_of e) l.entries })
    unknown :
        (b i : Text) (s : F) (c : Bool)
        → ((e : Entry F S) → In e l.entries → key_of e ≢ (b, i))
        → Change l (observed b i s c false) l
    learn :
        (draw : ℕ → ℕ) (e : Entry F S) (b i : Text) (s : F) (c : Bool) (obs : List (Observation F))
        → In e l.entries
        → key_of e ≡ (b, i)
        → reservoir draw l.max_obs (e.seen + 1) e.obs (record { s = s; c = c }) ≡ some obs
        → Change l (observed b i s c true) (record l {
          entries = record e { obs = obs; seen = e.seen + 1 } ∷ remove_key (key_of e) l.entries;
        })
    enter :
        (b : Text) (vec : List S) (resp : StoredResponse)
        → Change l (inserted b vec resp (entry_id l.index (l.counter + 1))) (record l {
          counter = l.counter + 1;
          entries = take l.capacity (entered l b vec resp ∷ l.entries);
        })

  Lru-eq :
      {l l' : Lru F S}
      → l.capacity ≡ l'.capacity
      → l.max_obs ≡ l'.max_obs
      → l.counter ≡ l'.counter
      → l.index ≡ l'.index
      → l.entries ≡ l'.entries
      → l ≡ l'
  Lru-eq p q r s t = ground arith

  nearest-frame :
      (range : Entries → Entries) (sh : Shard.Shard F S) (b : Text) (vec : List S)
      → let sh' = (Shard.nearest range sh b vec).0 in
        (sh'.capacity ≡ sh.capacity)
        × (sh'.max_obs ≡ sh.max_obs)
        × (sh'.counter ≡ sh.counter)
        × (sh'.index ≡ sh.index)
  unfolding Shard.nearest
  nearest-frame range sh b vec = ground arith

  pub nearest-Change :
      (laws : IsOrdered F) (range : Entries → Entries) (sh : Shard.Shard F S) (b : Text)
      (vec : List S)
      → Visits range
      → IsValid sh
      → let (sh', found) = Shard.nearest range sh b vec in
        Change (lru_of sh) (looked_up b vec found) (lru_of sh')
  nearest-Change laws range sh b vec visits v = elim (nearest_lem laws range sh b vec visits v) [
    | inl (same, top) ↦
        subst
          (λ (q : Shard.Shard F S × Option (Match F)).
            Change (lru_of sh) (looked_up b vec q.1) (lru_of q.0))
          (sym same) (miss b vec top)
    | inr (e, sh', same, member, comparable, top, seen, _) ↦
        let (capacity, max_obs, counter, index) = nearest-frame range sh b vec in
        subst₂
          (λ (found : Option (Match F)) (l : Lru F S). Change (lru_of sh) (looked_up b vec found) l)
          (sym (ap (λ (q : Shard.Shard F S × Option (Match F)). q.1) same))
          (Lru-eq (sym capacity) (sym max_obs) (sym counter) (sym index)
            (sym (ap (λ (q : Shard.Shard F S × Option (Match F)). entries q.0) same ∙ seen)))
          (hit b vec e member comparable top)
  ]

  observe-frame :
      (draw : ℕ → ℕ) (sh : Shard.Shard F S) (b i : Text) (s : F) (c : Bool) {sh' : Shard.Shard F S}
      {done : Bool}
      → Shard.observe draw sh b i s c ≡ some (sh', done)
      → (sh'.capacity ≡ sh.capacity)
        × (sh'.max_obs ≡ sh.max_obs)
        × (sh'.counter ≡ sh.counter)
        × (sh'.index ≡ sh.index)
  unfolding Shard.observe
  observe-frame draw sh b i s c h = (ground arith, ground arith, ground arith, ground arith)

  observe_miss :
      (draw : ℕ → ℕ) (sh : Shard.Shard F S) (b i : Text) (s : F) (c : Bool)
      → get_entry (b, i) sh.buckets ≡ none
      → Shard.observe draw sh b i s c ≡ some (sh, false)
  unfolding Shard.observe
  observe_miss draw sh b i s c gone = rw (gone, Shard.observe) refl

  pub observe-Change :
      (draw : ℕ → ℕ) (sh : Shard.Shard F S) (b i : Text) (s : F) (c : Bool) {sh' : Shard.Shard F S}
      {done : Bool}
      → IsValid sh
      → All (λ e. e.seen + 1 < 2 ^ 63) (entries sh)
      → Shard.observe draw sh b i s c ≡ some (sh', done)
      → Change (lru_of sh) (observed b i s c done) (lru_of sh')
  observe-Change draw sh b i s c {sh'} {done} v small h =
      elim (Option-cases (find (key_at sh.heap) (b, i) sh.lru)) [
        | inl free ↦
            let stays = observe_miss draw sh b i s c (v.indexed (b, i) ∙ free) in
            let same : sh ≡ sh' = cc in
            let answer : false ≡ done = cc in
            let absent : (e : Entry F S) → In e (entries sh) → key_of e ≢ (b, i) = λ e member named.
              let (a, found, _) = In-find sh.heap sh.lru e v.distinct member in
              let here : find (key_at sh.heap) (b, i) sh.lru ≡ some a = rw (← named) found in cc in
            subst₂
              (λ (x : Shard.Shard F S) (y : Bool).
                Change (lru_of sh) (observed b i s c y) (lru_of x))
              same answer (unknown b i s c absent)
        | inr (a, found) ↦
            let (e, at_a, named) =
              key_at-entry sh.heap a (find-key (key_at sh.heap) (b, i) sh.lru found) in
            let member = find-In sh.heap (b, i) sh.lru a e found at_a in
            let (sh'', obs, did, taken, seen, _) =
              observe_hit draw sh e s c v member
                (All-In (λ e. e.seen + 1 < 2 ^ 63) (entries sh) e small member) in
            let did' : Shard.observe draw sh b i s c ≡ some (sh'', true) =
              subst (λ (k : EntryKey). Shard.observe draw sh k.0 k.1 s c ≡ some (sh'', true)) named
                did in
            let same : sh'' ≡ sh' = cc in
            let answer : true ≡ done = cc in
            let (capacity, max_obs, counter, index) = observe-frame draw sh b i s c h in
            subst₂ (λ (y : Bool) (l : Lru F S). Change (lru_of sh) (observed b i s c y) l) answer
              (Lru-eq (sym capacity) (sym max_obs) (sym counter) (sym index)
                (sym (ap (λ (x : Shard.Shard F S). entries x) (sym same) ∙ seen)))
              (learn draw e b i s c obs member named taken)
      ]

  pub insert-Change :
      (sh : Shard.Shard F S) (b : Text) (vec : List S) (resp : StoredResponse)
      → IsValid sh
      → sh.counter + 1 < 2 ^ 64
      → let (sh', id) = insert_entry sh b vec resp in
        Change (lru_of sh) (inserted b vec resp id) (lru_of sh')
  unfolding Shard.add
  insert-Change sh b vec resp v h =
      let (r, seen) = insert-Evicted sh b vec resp v h in
      let (_, id, _) = insert-entries sh b vec resp v h in
      let wrap : (sh.counter + 1) % 2 ^ 64 ≡ sh.counter + 1 = omega arith in
      let first : Shard.new_entry sh b vec resp ≡ entered (lru_of sh) b vec resp =
        ap (λ (n : ℕ). record (entered (lru_of sh) b vec resp) { id = entry_id sh.index n }) wrap in
      subst₂ (λ (i : Text) (l : Lru F S). Change (lru_of sh) (inserted b vec resp i) l)
        (sym (id ∙ ap (entry_id sh.index) wrap))
        (Lru-eq (sym r.capacity_eq) (sym r.max_obs_eq) (sym (r.counter_eq ∙ wrap)) (sym r.index_eq)
          (sym
            (r.kept ∙ ap (take sh.capacity) (seen ∙ ap (λ (e : Entry F S). e ∷ entries sh) first))))
        (enter b vec resp)
