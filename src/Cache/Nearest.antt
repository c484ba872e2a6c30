-- ===== src/Cache/Nearest.antt =====
-- `Nearest` of internal/cache/memory.go. Go leaves the order of a `range` over a map open: it is an
-- argument that visits each entry and no other, and the results hold for every such order.
use semblance.Assoc.{lookup, Distinct}
use semblance.Cache.Index.{EntryKey, key_Eq, get_entry}
use semblance.Cache.Recency.{find, find-key}
use semblance.Cache.Shard.{Entry, Entries, Shard, Match, bucket_entries, better, scan, nearest}
use semblance.Cache.Touch.{remove_key, All-In, touch, touch-IsValid, touch_unchanged}
use semblance.Cache.Valid.{In, key_of, key_at, entries, IsSound, IsValid, In-find, find-In}
use semblance.Cache.Vector.{normalize, dot, length-normalize}
use semblance.Double.{Double, Single, IsOrdered}
use semblance.Prelude.{
  ℕ, ◌≡◌, ◌↔◌, refl, sym, ap, ◌∙◌, subst, ◌⊎◌, inl, inr, true, false, List, [], ◌∷◌, Option, none,
  some, arith, ◌==◌, length, get_elem?, foldl, Bool-cases, Option-cases,
}
use semblance.Text.{Text, text_eq, text_eq_iff, text_Eq}

abbrev pub Visits : (Entries → Entries) → Type 0
Visits range = (es : Entries) (x : Text × ℕ) → In x (range es) ↔ In x es

In-lookup : (es : Entries) (i : Text) (a : ℕ) → Distinct es → In (i, a) es → lookup i es ≡ some a
In-lookup [] i a d h = absurd h
In-lookup ((j, b) ∷ es) i a (fresh, d) (inl here) = ground (arith, text_eq_iff i j)
In-lookup ((j, b) ∷ es) i a (fresh, d) (inr later) =
    ground (arith, text_eq_iff i j, In-lookup es i a d later)

lookup-In : (es : Entries) (i : Text) (a : ℕ) → lookup i es ≡ some a → In (i, a) es
lookup-In [] i a h = absurd (cc)
lookup-In ((j, b) ∷ es) i a h = elim (Bool-cases (text_eq i j)) [
  | inl same ↦ inl (ground (arith, text_eq_iff i j))
  | inr other ↦ inr (lookup-In es i a (ground arith))
]

In-nonempty : (es : Entries) (x : Text × ℕ) → In x es → (length es == 0) ≡ false
In-nonempty [] x h = absurd h
In-nonempty (y ∷ es) x h = ground arith

module _ {F S : Type 0} ⦃d : Double F⦄ ⦃f : Single F S⦄ (laws : IsOrdered F) where
  open d use {lt, neg_inf}
  open laws use {lt_irrefl, lt_trans}

  module _ (q : List S) (heap : List (Entry F S)) where
    -- A round keeps the best so far, or takes a comparable entry that is more similar.
    better_cases :
        (acc : Option ℕ × F) (i : Text) (a : ℕ)
        → (better q heap acc (i, a) ≡ acc)
          ⊎ ((e : Entry F S) × (get_elem? heap a ≡ some e)
              × (length e.vec ≡ length q)
              × (lt acc.1 (dot q e.vec) ≡ true)
              × (better q heap acc (i, a) ≡ (some a, dot q e.vec)))
    unfolding better
    better_cases (best, sim) i a = elim (Option-cases (get_elem? heap a)) [
      | inl gone ↦ inl (rw (gone, better) refl)
      | inr (e, there) ↦ (elim (Bool-cases (length e.vec == length q)) [
        | inl fits ↦ (elim (Bool-cases (lt sim (dot q e.vec))) [
          | inl more ↦ inr (e, there, ground arith, more, rw (there, better, fits, more) refl)
          | inr less ↦ inl (rw (there, better, fits, less) refl)
        ])
        | inr unfit ↦ inl (rw (there, better, unfit) refl)
      ])
    ]

    better_grows :
        (acc : Option ℕ × F) (x : Text × ℕ) (y : F)
        → lt (better q heap acc x).1 y ≡ true
        → lt acc.1 y ≡ true
    better_grows acc (i, a) y h = elim (better_cases acc i a) [
      | inl same ↦ rw same at h
      | inr (e, there, len, more, new) ↦ lt_trans acc.1 (dot q e.vec) y more (rw new at h)
    ]

    scan_grows :
        (acc : Option ℕ × F) (es : Entries) (y : F)
        → lt (foldl (better q heap) acc es).1 y ≡ true
        → lt acc.1 y ≡ true
    scan_grows acc [] y h = h
    scan_grows acc (x ∷ es) y h = better_grows acc x y (scan_grows (better q heap acc x) es y h)

    better_covers :
        (acc : Option ℕ × F) (i : Text) (a : ℕ) (e : Entry F S)
        → get_elem? heap a ≡ some e
        → length e.vec ≡ length q
        → lt (better q heap acc (i, a)).1 (dot q e.vec) ≡ false
    unfolding better
    better_covers (best, sim) i a e at_a len =
        rw (at_a, better) (ground (arith, lt_irrefl (dot q e.vec)))

    -- No comparable entry that is visited is more similar than the result.
    scan_covers :
        (acc : Option ℕ × F) (es : Entries) (i : Text) (a : ℕ) (e : Entry F S)
        → In (i, a) es
        → get_elem? heap a ≡ some e
        → length e.vec ≡ length q
        → lt (foldl (better q heap) acc es).1 (dot q e.vec) ≡ false
    scan_covers acc [] i a e h at_a len = absurd h
    scan_covers acc (x ∷ es) i a e (inl here) at_a len = ground (
      arith,
      scan_grows (better q heap acc x) es (dot q e.vec),
      rw here at (better_covers acc i a e at_a len),
    )
    scan_covers acc (x ∷ es) i a e (inr later) at_a len =
        scan_covers (better q heap acc x) es i a e later at_a len

    -- The address found is the start's or that of a visited comparable entry, with its similarity.
    scan_origin :
        (acc : Option ℕ × F) (es : Entries) (a : ℕ)
        → (foldl (better q heap) acc es).0 ≡ some a
        → ((acc.0 ≡ some a) × ((foldl (better q heap) acc es).1 ≡ acc.1))
          ⊎ ((i : Text) × (e : Entry F S) × In (i, a) es
              × (get_elem? heap a ≡ some e)
              × (length e.vec ≡ length q)
              × ((foldl (better q heap) acc es).1 ≡ dot q e.vec))
    scan_origin acc [] a h = inl (h, refl)
    scan_origin acc ((j, b) ∷ es) a h = elim (scan_origin (better q heap acc (j, b)) es a h) [
      | inl (here, same) ↦ (elim (better_cases acc j b) [
        | inl kept ↦ inl (
          ap (λ (r : Option ℕ × F). r.0) (sym kept) ∙ here,
          same ∙ ap (λ (r : Option ℕ × F). r.1) kept,
        )
        | inr (e, there, len, more, new) ↦
            let eq : b ≡ a = cc (ap (λ (r : Option ℕ × F). r.0) new) in
            inr (
              j,
              e,
              inl (ap (λ (n : ℕ). (j, n)) (sym eq)),
              ap (get_elem? heap) (sym eq) ∙ there,
              len,
              same ∙ ap (λ (r : Option ℕ × F). r.1) new,
            )
      ])
      | inr (i, e, visited, there, len, sim) ↦ inr (i, e, inr visited, there, len, sim)
    ]

    scan_none :
        (acc : Option ℕ × F) (es : Entries)
        → (foldl (better q heap) acc es).0 ≡ none
        → (acc.0 ≡ none) × ((foldl (better q heap) acc es).1 ≡ acc.1)
    scan_none acc [] h = (h, refl)
    scan_none acc ((j, b) ∷ es) h =
        let (gone, same) = scan_none (better q heap acc (j, b)) es h in
        elim (better_cases acc j b) [
          | inl kept ↦ (
            ap (λ (r : Option ℕ × F). r.0) (sym kept) ∙ gone,
            same ∙ ap (λ (r : Option ℕ × F). r.1) kept,
          )
          | inr (e, there, len, more, new) ↦ absurd (cc (ap (λ (r : Option ℕ × F). r.0) new))
        ]

  -- An entry of the bucket that is as long as the query.
  abbrev pub IsComparable : Text → List S → Entry F S → Type 0
  IsComparable b vec e = (e.bucket ≡ b) × (length e.vec ≡ length vec)

  abbrev pub match_of : Entry F S → F → Match F
  match_of e sim = record {
    entry_id = e.id;
    similarity = sim;
    observations = e.obs;
    response = e.resp;
  }

  module _ (range : Entries → Entries) (sh : Shard F S) (b : Text) (vec : List S) where
    -- The similarity of the query to an entry.
    abbrev pub sim : Entry F S → F
    sim e = dot (normalize F vec) e.vec

    -- No comparable entry of the shard is more similar than `best`.
    abbrev pub IsUpper : F → Type 0
    IsUpper best =
        (e : Entry F S) → In e (entries sh) → IsComparable b vec e → lt best (sim e) ≡ false

    abbrev found : Option ℕ × F
    found = scan (normalize F vec) sh.heap (range (bucket_entries b sh.buckets))

    scan-IsUpper : Visits range → IsValid sh → IsUpper found.1
    scan-IsUpper visits v e member (same, len) =
        let (a, hit, at_a) = In-find sh.heap sh.lru e v.distinct member in
        let entry : get_entry (b, e.id) sh.buckets ≡ some a =
          v.indexed (b, e.id) ∙ rw (← same) hit in
        let listed = lookup-In (bucket_entries b sh.buckets) e.id a entry in
        scan_covers (normalize F vec) sh.heap (none, neg_inf) (range (bucket_entries b sh.buckets))
          e.id a e ((visits (bucket_entries b sh.buckets) (e.id, a)).1 listed) at_a
          (len ∙ sym (length-normalize F vec))

    nearest-none :
        Visits range
        → IsValid sh
        → found.0 ≡ none
        → (nearest range sh b vec ≡ (sh, none)) × IsUpper neg_inf
    unfolding nearest
    nearest-none visits v h =
        let bottom =
          scan_none (normalize F vec) sh.heap (none, neg_inf) (range (bucket_entries b sh.buckets))
            h in
        (
          rw (h, nearest) (ground arith),
          subst (λ (x : F). IsUpper x) bottom.1 (scan-IsUpper visits v),
        )

    nearest-some :
        Visits range
        → IsValid sh
        → (a : ℕ) → found.0 ≡ some a
        → (e : Entry F S) × (sh' : Shard F S) × (nearest range sh b vec
            ≡ (sh', some (match_of e (sim e))))
          × In e (entries sh)
          × IsComparable b vec e
          × IsUpper (sim e)
          × (entries sh' ≡ e ∷ remove_key (key_of e) (entries sh))
          × IsValid sh'
    unfolding nearest
    nearest-some visits v a h =
        let es = bucket_entries b sh.buckets in
        elim (scan_origin (normalize F vec) sh.heap (none, neg_inf) (range es) a h) [
          | inl (bad, _) ↦ absurd (cc)
          | inr (i, e, visited, at_a, len, top) ↦
              let listed : In (i, a) es = (visits es (i, a)).0 visited in
              let hit : find (key_at sh.heap) (b, i) sh.lru ≡ some a =
                sym (v.indexed (b, i)) ∙ In-lookup es i a (v.tidy.distinct b) listed in
              let named : key_of e ≡ (b, i) =
                ground (arith, find-key (key_at sh.heap) (b, i) sh.lru hit) in
              let place : find (key_at sh.heap) (key_of e) sh.lru ≡ some a = rw named hit in
              let member = find-In sh.heap (key_of e) sh.lru a e place at_a in
              let sound =
                All-In (IsSound sh.index sh.counter sh.max_obs) (entries sh) e v.sound member in
              let (valid, seen) = touch-IsValid sh a e e place at_a refl sound v in
              (
                e,
                touch sh a e,
                rw (h, nearest, at_a, top, In-nonempty es (i, a) listed)
                    (ap (λ (sh' : Shard F S). (sh', some (match_of e (sim e))))
                      (sym (touch_unchanged sh a e at_a))),
                member,
                (ap (λ (k : EntryKey). k.0) named, len ∙ length-normalize F vec),
                subst (λ (x : F). IsUpper x) top (scan-IsUpper visits v),
                seen,
                valid,
              )
        ]

    -- In a valid shard, in whatever order the map is visited: either the shard is unchanged, nothing is found, and no
    -- comparable entry of the bucket has a similarity above negative infinity; or an entry of the
    -- bucket that is as long as the query is returned as a snapshot with its similarity, no other
    -- comparable entry is more similar, it moves to the front, and the shard stays valid.
    pub nearest_lem :
        Visits range
        → IsValid sh
        → ((nearest range sh b vec ≡ (sh, none)) × IsUpper neg_inf)
          ⊎ ((e : Entry F S) × (sh' : Shard F S) × (nearest range sh b vec
                ≡ (sh', some (match_of e (sim e))))
              × In e (entries sh)
              × IsComparable b vec e
              × IsUpper (sim e)
              × (entries sh' ≡ e ∷ remove_key (key_of e) (entries sh))
              × IsValid sh')
    nearest_lem visits v = elim (Option-cases found.0) [
      | inl nothing ↦ inl (nearest-none visits v nothing)
      | inr (a, h) ↦ inr (nearest-some visits v a h)
    ]

    pub nearest-capacity : (nearest range sh b vec).0.capacity ≡ sh.capacity
    unfolding nearest
    nearest-capacity = ground arith

    pub nearest-IsValid : Visits range → IsValid sh → IsValid (nearest range sh b vec).0
    nearest-IsValid visits v = elim (nearest_lem visits v) [
      | inl (same, _) ↦ rw same v
      | inr (e, sh', same, _, _, _, _, valid) ↦ rw same valid
    ]
