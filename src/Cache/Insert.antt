-- ===== src/Cache/Insert.antt =====
-- `Insert` of internal/cache/memory.go.
use semblance.Cache.Evict.{Evicted, evict_loop-Evicted, length-entries}
use semblance.Cache.Index.{EntryKey, key_Eq, get_entry-add, add-IsTidy}
use semblance.Cache.Recency.{has_key, find, DistinctKeys, find-keep, DistinctKeys-keep, find-key}
use semblance.Cache.Shard.{Entry, Shard, StoredResponse, entry_id, new_entry, add, insert_entry}
use semblance.Cache.Valid.{
  All, In, key_of, key_at, view, entries, IsSound, IsLinked, IsValid, key_at-entry, find-In,
}
use semblance.Double.{Double, Single}
use semblance.Prelude.{
  ℕ, ◌+◌, ◌%◌, ◌^◌, ◌≤◌, ◌<◌, ◌≡◌, ◌≢◌, refl, sym, ap, ◌∙◌, inl, inr, List, [], ◌∷◌, ◌++◌, Option,
  none, some, arith, if◌then◌else◌, length, take, length-take-le, subst₂, ap₂, get_elem?-lt,
  get_elem?-append_left, get_elem?-append_length, Option-cases,
}
use semblance.Text.{Text, codes, format_uint, format_uint-injective}

append_cancel : {A : Type 0} (p s t : List A) → p ++ s ≡ p ++ t → s ≡ t
append_cancel [] s t h = h
append_cancel (x ∷ p) s t h = append_cancel p s t (ground arith)

-- A shard gives no ID twice while its counter does not wrap.
pub entry_id-injective :
    (index m n : ℕ) → m < 2 ^ 64 → n < 2 ^ 64 → entry_id index m ≡ entry_id index n → m ≡ n
unfolding entry_id
entry_id-injective index m n hm hn h =
    let tail = append_cancel (format_uint index) _ _ h in
    format_uint-injective m n (omega arith) (omega arith) (append_cancel (codes "-") _ _ tail)

module _ {F S : Type 0} where
  key_at-append :
      (heap : List (Entry F S)) (e : Entry F S) (x : ℕ) (k : EntryKey)
      → key_at heap x ≡ some k
      → key_at (heap ++ (e ∷ [])) x ≡ some k
  key_at-append heap e x k h =
      let (e', there, _) = key_at-entry heap x h in
      rw (get_elem?-append_left heap (e ∷ []) x (get_elem?-lt heap x there), key_at) h

  view-append :
      (heap : List (Entry F S)) (e : Entry F S) (xs : List ℕ)
      → DistinctKeys (key_at heap) xs
      → view (heap ++ (e ∷ [])) xs ≡ view heap xs
  unfolding view
  view-append heap e [] d = refl
  view-append heap e (x ∷ xs) (k, named, _, d) =
      let (e', there, _) = key_at-entry heap x named in
      let still = get_elem?-append_left heap (e ∷ []) x (get_elem?-lt heap x there) in
      rw (still, there, view) (ap (◌∷◌ e') (view-append heap e xs d))

  IsSound-mono :
      (index c c' max_obs : ℕ) (es : List (Entry F S))
      → c ≤ c'
      → All (IsSound index c max_obs) es
      → All (IsSound index c' max_obs) es
  IsSound-mono index c c' max_obs [] le h = tt
  IsSound-mono index c c' max_obs (e ∷ es) le (s, h) = (
    record {
      number = (s.number.0, omega arith, s.number.2);
      sampled = s.sampled;
      offered = s.offered;
    },
    IsSound-mono index c c' max_obs es le h,
  )

  -- A key whose ID is the next one is not in use.
  fresh_key :
      (sh : Shard F S) (b : Text)
      → IsLinked sh
      → sh.counter + 1 < 2 ^ 64
      → find (key_at sh.heap) (b, entry_id sh.index (sh.counter + 1)) sh.lru ≡ none
  fresh_key sh b v h = elim (Option-cases (find (key_at sh.heap) k sh.lru)) [
    | inl free ↦ free
    | inr (a, taken) ↦
        let (e, at_a, same) = key_at-entry sh.heap a (find-key (key_at sh.heap) k sh.lru taken) in
        absurd (
          old e (entries sh) v.sound (find-In sh.heap k sh.lru a e taken at_a)
            (ap (λ (j : EntryKey). j.1) same))
  ]
    where
      k : EntryKey
      k = (b, entry_id sh.index (sh.counter + 1))

      old :
          (e : Entry F S) (es : List (Entry F S))
          → All (IsSound sh.index sh.counter sh.max_obs) es
          → In e es
          → e.id ≢ entry_id sh.index (sh.counter + 1)
      old e [] s m p = m
      old e (e' ∷ es) (s, rest) (inl here) p =
          let (n, le, id) = s.number in
          absurd (
            omega (
              arith,
              entry_id-injective sh.index n (sh.counter + 1) (omega arith) h
                  (sym id ∙ sym (ap (λ (o : Entry F S). o.id) here) ∙ p),
            ))
      old e (e' ∷ es) (s, rest) (inr later) p = old e es rest later p

  -- Adding an entry with the next ID links it at the front.
  add-IsLinked :
      (sh : Shard F S) (e : Entry F S)
      → IsLinked sh
      → sh.counter + 1 < 2 ^ 64
      → e.id ≡ entry_id sh.index (sh.counter + 1)
      → e.obs ≡ []
      → IsLinked (add sh e) × (entries (add sh e) ≡ e ∷ entries sh)
  unfolding add view
  add-IsLinked sh e v h id no_obs =
      let heap' = sh.heap ++ (e ∷ []) in
      let a = length sh.heap in
      let at_a = get_elem?-append_length sh.heap e in
      let key_a : key_at heap' a ≡ some (key_of e) = rw (at_a, key_at) refl in
      let keep = key_at-append sh.heap e in
      let same_view = view-append sh.heap e sh.lru v.distinct in
      let same_find =
        λ (k : EntryKey). find-keep (key_at sh.heap) (key_at heap') keep k sh.lru v.distinct in
      let count : sh.counter + 1 ≡ (sh.counter + 1) % 2 ^ 64 = omega arith in
      let seen : view heap' (a ∷ sh.lru) ≡ e ∷ entries sh =
        rw (at_a, view) (ap (◌∷◌ e) same_view) in
      let fresh : find (key_at sh.heap) (key_of e) sh.lru ≡ none =
        rw id (fresh_key sh e.bucket v h) in
      let sound_next : All (IsSound sh.index (sh.counter + 1) sh.max_obs) (e ∷ entries sh) = (
        record {
          number = (sh.counter + 1, omega arith, id);
          sampled = rw no_obs (omega arith);
          offered = rw no_obs (omega arith);
        },
        IsSound-mono sh.index sh.counter (sh.counter + 1) sh.max_obs (entries sh) (omega arith)
            v.sound,
      ) in
      (
        record {
          distinct = (
            key_of e,
            key_a,
            same_find (key_of e) ∙ fresh,
            DistinctKeys-keep (key_at sh.heap) (key_at heap') keep sh.lru v.distinct,
          );
          indexed = λ k.
              get_entry-add k (key_of e) a sh.buckets
              ∙ ap₂ (λ (o : Option EntryKey) (r : Option ℕ). if has_key k o then some a else r)
                  (sym key_a) (v.indexed k ∙ sym (same_find k));
          tidy = add-IsTidy e.bucket e.id a sh.buckets v.tidy;
          sound =
              subst₂ (λ (c : ℕ) (es : List (Entry F S)). All (IsSound sh.index c sh.max_obs) es)
                count (sym seen) sound_next;
        },
        seen,
      )

module _ {F S : Type 0} ⦃d : Double F⦄ ⦃f : Single F S⦄ where
  pub insert-Evicted :
      (sh : Shard F S) (b : Text) (vec : List S) (resp : StoredResponse)
      → IsValid sh
      → sh.counter + 1 < 2 ^ 64
      → let e = new_entry sh b vec resp in
        Evicted (add sh e) (insert_entry sh b vec resp).0 sh.capacity
        × (entries (add sh e) ≡ e ∷ entries sh)
  unfolding insert_entry add
  insert-Evicted sh b vec resp v h =
      let e = new_entry sh b vec resp in
      let next : e.id ≡ entry_id sh.index (sh.counter + 1) = ap (entry_id sh.index) (omega arith) in
      let (linked, seen) = add-IsLinked sh e v.linked h next refl in
      (evict_loop-Evicted (length (add sh e).lru) (add sh e) linked (omega arith), seen)

  -- While the counter does not wrap, an insert keeps a shard valid.
  pub insert-IsValid :
      (sh : Shard F S) (b : Text) (vec : List S) (resp : StoredResponse)
      → IsValid sh
      → sh.counter + 1 < 2 ^ 64
      → IsValid (insert_entry sh b vec resp).0
  unfolding add
  insert-IsValid sh b vec resp v h =
      let (r, seen) = insert-Evicted sh b vec resp v h in
      let sh' = (insert_entry sh b vec resp).0 in
      record {
        linked = r.linked;
        bounded = omega (
          arith,
          length-entries sh' r.linked,
          ap length r.kept,
          length-take-le sh.capacity (entries (add sh (new_entry sh b vec resp))),
          r.capacity_eq,
        );
        room = omega (arith, r.capacity_eq, v.room);
        numbered = omega (arith, r.counter_eq);
      }

  -- In a valid shard, while its counter does not wrap, an insert puts the new entry in front of the
  -- others and keeps the first `capacity` entries: what it evicts is what was used least recently.
  -- It returns the new entry's ID and leaves the capacity as it is.
  pub insert-entries :
      (sh : Shard F S) (b : Text) (vec : List S) (resp : StoredResponse)
      → IsValid sh
      → sh.counter + 1 < 2 ^ 64
      → let (sh', id) = insert_entry sh b vec resp in
        let e = new_entry sh b vec resp in
        (entries sh' ≡ take sh.capacity (e ∷ entries sh))
        × (id ≡ e.id)
        × (sh'.capacity ≡ sh.capacity)
  unfolding insert_entry add
  insert-entries sh b vec resp v h =
      let (r, seen) = insert-Evicted sh b vec resp v h in
      (r.kept ∙ ap (take sh.capacity) seen, refl, r.capacity_eq)
