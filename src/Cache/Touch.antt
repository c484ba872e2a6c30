-- ===== src/Cache/Touch.antt =====
-- Moving an entry to the front of the LRU list of internal/cache/memory.go, with or without a write
-- to the entry, as it shows in the list of entries.
use semblance.Assoc.{beq_refl}
use semblance.Cache.Index.{EntryKey, key_eq, key_Eq}
use semblance.Cache.Recency.{
  find, DistinctKeys, find-key, find-remove, move_to_front-DistinctKeys, find-move_to_front,
  find-keep, DistinctKeys-keep, length-remove,
}
use semblance.Cache.Shard.{Entry, Shard, remove, move_to_front}
use semblance.Cache.Valid.{
  All, In, key_of, key_at, view, entries, IsSound, IsLinked, IsValid, key_at-entry,
}
use semblance.Prelude.{
  ℕ, zero, suc, ◌≡◌, ◌≢◌, refl, sym, ap, ◌∙◌, inl, inr, true, false, List, [], ◌∷◌, none, some,
  arith, if◌then◌else◌, ◌==◌, get_elem?, set, get_elem?-lt, get_elem?-set_self, get_elem?-set_ne,
  Bool-cases, Option-cases,
}

module _ {F S : Type 0} where
  -- The list without its first entry that has the key.
  abbrev pub remove_key : EntryKey → List (Entry F S) → List (Entry F S)
  remove_key k [] = []
  remove_key k (e ∷ es) = if key_eq k (key_of e) then es else e ∷ remove_key k es

  pub All-remove_key {κ} :
      (P : Entry F S → Type κ) (k : EntryKey) (es : List (Entry F S))
      → All P es
      → All P (remove_key k es)
  All-remove_key P k [] h = tt
  All-remove_key P k (e ∷ es) (p, h) = elim (Bool-cases (key_eq k (key_of e))) [
    | inl hit ↦ rw hit h
    | inr miss ↦ rw miss (p, All-remove_key P k es h)
  ]

  pub All-In {κ} :
      (P : Entry F S → Type κ) (es : List (Entry F S)) (e : Entry F S) → All P es → In e es → P e
  All-In P [] e h m = absurd m
  All-In P (x ∷ es) e (p, h) (inl here) = rw here p
  All-In P (x ∷ es) e (p, h) (inr later) = All-In P es e h later

  view-remove :
      (heap : List (Entry F S)) (k : EntryKey) (xs : List ℕ) (a : ℕ)
      → DistinctKeys (key_at heap) xs
      → find (key_at heap) k xs ≡ some a
      → view heap (remove a xs) ≡ remove_key k (view heap xs)
  unfolding view remove
  view-remove heap k [] a d h = absurd (cc)
  view-remove heap k (x ∷ xs) a (j, named, fresh, d) h =
      let (e, there, same) = key_at-entry heap x named in
      elim (Bool-cases (x == a)) [
        | inl here ↦
            let hit : key_eq k (key_of e) ≡ true =
              ground (arith, find-key (key_at heap) k (x ∷ xs) h, key_Eq.beq_iff k j, beq_refl k) in
            rw (here, there, view) (rw hit refl)
        | inr other ↦
            let miss : key_eq k (key_of e) ≡ false = ground arith in
            let later : find (key_at heap) k xs ≡ some a = ground arith in
            rw (other, there, view) (rw (miss, view-remove heap k xs a d later) refl)
      ]

  -- A write at an address whose key does not occur is not seen.
  view-set :
      (heap : List (Entry F S)) (k : EntryKey) (xs : List ℕ) (a : ℕ) (e : Entry F S)
      → key_at heap a ≡ some k
      → find (key_at heap) k xs ≡ none
      → view (set heap a e) xs ≡ view heap xs
  unfolding view
  view-set heap k [] a e n h = refl
  view-set heap k (x ∷ xs) a e n h =
      let other : a ≢ x = λ p. absurd (ground (arith, ap (key_at heap) p, beq_refl k)) in
      let rest = view-set heap k xs a e n (ground arith) in
      elim (Option-cases (get_elem? heap x)) [
        | inl gone ↦ rw (get_elem?-set_ne heap a x e other, gone, view) rest
        | inr (e', there) ↦ rw (get_elem?-set_ne heap a x e other, there, view) (ap (◌∷◌ e') rest)
      ]

  keep_key :
      (heap : List (Entry F S)) (a : ℕ) (e e' : Entry F S)
      → get_elem? heap a ≡ some e
      → key_of e' ≡ key_of e
      → (x : ℕ) (k : EntryKey) → key_at heap x ≡ some k
      → key_at (set heap a e') x ≡ some k
  keep_key heap a e e' at_a same x k h = elim (Bool-cases (a == x)) [
    | inl here ↦
        let eq : a ≡ x = ground arith in
        let read : get_elem? (set heap a e') x ≡ some e' =
          rw (← eq) (get_elem?-set_self heap a e' (get_elem?-lt heap a at_a)) in
        rw (read, key_at) (ground (arith, ap (get_elem? heap) eq))
    | inr there ↦ rw (get_elem?-set_ne heap a x e' (λ p. absurd (ground arith)), key_at) h
  ]

  -- Writing to an entry, without changing its key, and moving it to the front.
  abbrev pub touch : Shard F S → ℕ → Entry F S → Shard F S
  touch sh a e = record sh { heap = set sh.heap a e; lru = move_to_front a sh.lru }

  module _ (sh : Shard F S) (a : ℕ) (e e' : Entry F S)
      (found : find (key_at sh.heap) (key_of e) sh.lru ≡ some a)
      (at_a : get_elem? sh.heap a ≡ some e) (same : key_of e' ≡ key_of e)
      (sound : IsSound sh.index sh.counter sh.max_obs e') where
    touch-entries : IsLinked sh → entries (touch sh a e') ≡ e' ∷ remove_key (key_of e) (entries sh)
    unfolding view
    touch-entries v =
        let k = key_of e in
        let key_a : key_at sh.heap a ≡ some k = rw (at_a, key_at) refl in
        let gone : find (key_at sh.heap) k (remove a sh.lru) ≡ none =
          rw (find-remove (key_at sh.heap) k k sh.lru a v.distinct found, beq_refl k) in
        rw (get_elem?-set_self sh.heap a e' (get_elem?-lt sh.heap a at_a), view)
          (ap (◌∷◌ e') (
            view-set sh.heap k (remove a sh.lru) a e' key_a gone
            ∙ view-remove sh.heap k sh.lru a v.distinct found))

    pub touch-IsLinked : IsLinked sh → IsLinked (touch sh a e')
    touch-IsLinked v =
        let keep = keep_key sh.heap a e e' at_a same in
        let front =
          move_to_front-DistinctKeys (key_at sh.heap) (key_of e) sh.lru a v.distinct found in
        record {
          distinct =
              DistinctKeys-keep (key_at sh.heap) (key_at (set sh.heap a e')) keep
                (move_to_front a sh.lru) front;
          indexed = λ k.
              v.indexed k
              ∙ sym (find-move_to_front (key_at sh.heap) k (key_of e) sh.lru a v.distinct found)
              ∙ sym (
                  find-keep (key_at sh.heap) (key_at (set sh.heap a e')) keep k
                    (move_to_front a sh.lru) front);
          tidy = v.tidy;
          sound = rw (touch-entries v) (sound, All-remove_key _ (key_of e) (entries sh) v.sound);
        }

    -- The shard stays valid, and the entry stands in front of the others.
    pub touch-IsValid :
        IsValid sh
        → IsValid (touch sh a e')
          × (entries (touch sh a e') ≡ e' ∷ remove_key (key_of e) (entries sh))
    touch-IsValid v = (
      record {
        linked = touch-IsLinked v.linked;
        bounded =
            omega (arith, v.bounded, length-remove (key_at sh.heap) (key_of e) sh.lru a found);
        room = v.room;
        numbered = v.numbered;
      },
      touch-entries v.linked,
    )

  set-get_elem? :
      (heap : List (Entry F S)) (a : ℕ) (e : Entry F S)
      → get_elem? heap a ≡ some e
      → set heap a e ≡ heap
  set-get_elem? [] a e h = refl
  set-get_elem? (x ∷ heap) zero e h = ground arith
  set-get_elem? (x ∷ heap) (suc a) e h = ap (◌∷◌ x) (set-get_elem? heap a e h)

  -- Moving an entry to the front with no write.
  pub touch_unchanged :
      (sh : Shard F S) (a : ℕ) (e : Entry F S)
      → get_elem? sh.heap a ≡ some e
      → touch sh a e ≡ record sh { lru = move_to_front a sh.lru }
  touch_unchanged sh a e h =
      ap (λ (heap : List (Entry F S)). record sh { heap = heap; lru = move_to_front a sh.lru })
        (set-get_elem? sh.heap a e h)
