-- ===== src/Cache/Evict.antt =====
-- Eviction in a shard of internal/cache/memory.go.
use semblance.Cache.Index.{key_eq, key_Eq, get_entry-drop, drop-IsTidy}
use semblance.Cache.Recency.{DistinctKeys, last-key, find-init, init-DistinctKeys}
use semblance.Cache.Shard.{Entry, Shard, evict_lru, evict_loop}
use semblance.Cache.Valid.{
  All-init, key_of, key_at, view, entries, IsLinked, key_at-entry, length-view,
}
use semblance.Prelude.{
  ℕ, zero, suc, ◌≤◌, ◌<◌, ◌≡◌, refl, sym, ap, ◌∙◌, inl, inr, List, [], ◌∷◌, Option, none, some,
  arith, if◌then◌else◌, ltb, length, init, take, take-init, take_of_length-le, last?-some,
  length-init, Bool-cases,
}

module _ {F S : Type 0} where
  view-init :
      (heap : List (Entry F S)) (xs : List ℕ)
      → DistinctKeys (key_at heap) xs
      → view heap (init xs) ≡ init (view heap xs)
  unfolding view
  view-init heap [] d = refl
  view-init heap (x ∷ []) (k, named, _, _) =
      let (e, here, _) = key_at-entry heap x named in rw (here, view) refl
  view-init heap (x ∷ y ∷ xs) (k, named, _, d) =
      let (e, here, _) = key_at-entry heap x named in
      let (k', named', _, _) = d in
      let (e', here', _) = key_at-entry heap y named' in
      let tail : view heap (y ∷ xs) ≡ e' ∷ view heap xs = rw (here', view) refl in
      let ih : view heap (init (y ∷ xs)) ≡ init (e' ∷ view heap xs) =
        view-init heap (y ∷ xs) d ∙ ap (λ (o : List (Entry F S)). init o) tail in
      rw (here, here', view) (ap (◌∷◌ e) ih)

  -- What eviction does to a shard of which `n` entries stay: the first `n`.
  pub record Evicted (sh sh' : Shard F S) (n : ℕ) : Type 0 where
    pub linked : IsLinked sh'
    pub kept : entries sh' ≡ take n (entries sh)
    pub heap_eq : sh'.heap ≡ sh.heap
    pub capacity_eq : sh'.capacity ≡ sh.capacity
    pub max_obs_eq : sh'.max_obs ≡ sh.max_obs
    pub counter_eq : sh'.counter ≡ sh.counter
    pub index_eq : sh'.index ≡ sh.index

  -- Evicting removes the last entry of the list, from the list and from its bucket.
  pub evict_lru-IsLinked :
      (sh : Shard F S)
      → IsLinked sh
      → 0 < length sh.lru
      → IsLinked (evict_lru sh)
        × ((evict_lru sh).lru ≡ init sh.lru)
        × (entries (evict_lru sh) ≡ init (entries sh))
  unfolding evict_lru
  evict_lru-IsLinked sh v h =
      let (a, final) = last?-some sh.lru h in
      let (j, named, there) = last-key (key_at sh.heap) sh.lru a v.distinct final in
      let (victim, at_a, same) = key_at-entry sh.heap a named in
      let seen_init = view-init sh.heap sh.lru v.distinct in
      rw (final, at_a, evict_lru)
        (
          record {
            distinct = init-DistinctKeys (key_at sh.heap) sh.lru v.distinct;
            indexed = λ k.
                get_entry-drop k (key_of victim) sh.buckets
                ∙ ap (λ (o : Option ℕ). if key_eq k (key_of victim) then none else o) (v.indexed k)
                ∙ sym (
                    find-init (key_at sh.heap) k (key_of victim) sh.lru a v.distinct final
                      (named ∙ ap some (sym same)));
            tidy = drop-IsTidy victim.bucket victim.id sh.buckets v.tidy;
            sound = rw seen_init (All-init _ (entries sh) v.sound);
          },
          refl,
          seen_init,
        )

  evict_lru-fields :
      (sh : Shard F S)
      → let sh' = evict_lru sh in
        (sh'.heap ≡ sh.heap)
        × (sh'.capacity ≡ sh.capacity)
        × (sh'.max_obs ≡ sh.max_obs)
        × (sh'.counter ≡ sh.counter)
        × (sh'.index ≡ sh.index)
  unfolding evict_lru
  evict_lru-fields sh = ground arith

  pub length-entries : (sh : Shard F S) → IsLinked sh → length (entries sh) ≡ length sh.lru
  length-entries sh v = length-view sh.heap sh.lru v.distinct

  -- In a linked shard, with fuel for every entry, the loop ends by its test: at most `capacity` entries stay, and they
  -- are the most recently used ones.
  pub evict_loop-Evicted :
      (fuel : ℕ) (sh : Shard F S)
      → IsLinked sh
      → length sh.lru ≤ fuel
      → Evicted sh (evict_loop fuel sh) sh.capacity
  unfolding evict_loop
  evict_loop-Evicted zero sh v h = record {
    linked = v;
    kept = sym (take_of_length-le sh.capacity (entries sh) (omega (arith, length-entries sh v)));
    heap_eq = refl;
    capacity_eq = refl;
    max_obs_eq = refl;
    counter_eq = refl;
    index_eq = refl;
  }
  evict_loop-Evicted (suc fuel) sh v h = elim (Bool-cases (ltb sh.capacity (length sh.lru))) [
    | inl over ↦
        let more : sh.capacity < length sh.lru = ground arith in
        let (linked, shorter, rest) = evict_lru-IsLinked sh v (omega arith) in
        let (heap, capacity, max_obs, counter, index) = evict_lru-fields sh in
        let small : length (evict_lru sh).lru ≤ fuel =
          omega (arith, ap length shorter, length-init sh.lru) in
        let r = evict_loop-Evicted fuel (evict_lru sh) linked small in
        rw (over, evict_loop)
          (record {
            linked = r.linked;
            kept =
                r.kept
                ∙ ap (λ (n : ℕ). take n (entries (evict_lru sh))) capacity
                ∙ ap (take sh.capacity) rest
                ∙ take-init sh.capacity (entries sh) (omega (arith, length-entries sh v));
            heap_eq = r.heap_eq ∙ heap;
            capacity_eq = r.capacity_eq ∙ capacity;
            max_obs_eq = r.max_obs_eq ∙ max_obs;
            counter_eq = r.counter_eq ∙ counter;
            index_eq = r.index_eq ∙ index;
          })
    | inr fits ↦
        rw (fits, evict_loop)
          (record {
            linked = v;
            kept =
                sym (
                  take_of_length-le sh.capacity (entries sh) (ground (arith, length-entries sh v)));
            heap_eq = refl;
            capacity_eq = refl;
            max_obs_eq = refl;
            counter_eq = refl;
            index_eq = refl;
          })
  ]
