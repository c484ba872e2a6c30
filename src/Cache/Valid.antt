-- ===== src/Cache/Valid.antt =====
-- The well-formedness of a shard (internal/cache/memory.go), and the shard seen as the list of its
-- entries, most recently used first.
use semblance.Cache.Index.{EntryKey, key_Eq, get_entry, IsTidy, nil-IsTidy}
use semblance.Cache.Recency.{has_key, find, DistinctKeys}
use semblance.Cache.Shard.{Entry, Shard, entry_id, bucket_entries}
use semblance.Cache.Store.{new_shard}
use semblance.Prelude.{
  ℕ, suc, ◌^◌, ◌≤◌, ◌<◌, ◌≡◌, refl, ap, ◌⊎◌, inl, inr, List, [], ◌∷◌, Option, none, some, arith,
  length, get_elem?, init, Bool-cases, Option-cases,
}
use semblance.Text.{text_Eq}

-- Membership, with the place kept.
abbrev pub In : {A : Type 0} → A → List A → Type 0
In x [] = ⊥
In x (y ∷ ys) = (x ≡ y) ⊎ In x ys

abbrev pub All {ℓ κ} : {A : Type ℓ} → (A → Type κ) → List A → Type κ
All P [] = Unit
All P (x ∷ xs) = P x × All P xs

module _ {F S : Type 0} where
  abbrev pub key_of : Entry F S → EntryKey
  key_of e = (e.bucket, e.id)

  abbrev pub key_at : List (Entry F S) → ℕ → Option EntryKey
  key_at heap a = elim (get_elem? heap a) [ none ↦ none | some e ↦ some (key_of e) ]

  unfoldable pub view : List (Entry F S) → List ℕ → List (Entry F S)
  view heap [] = []
  view heap (a ∷ xs) = elim (get_elem? heap a) [ none ↦ view heap xs | some e ↦ e ∷ view heap xs ]

  -- The entries of a shard, most recently used first.
  abbrev pub entries : Shard F S → List (Entry F S)
  entries sh = view sh.heap sh.lru

  -- The ID was given out by the shard's counter, and the sample is within the cap and within what
  -- was offered.
  pub record IsSound (index counter max_obs : ℕ) (e : Entry F S) : Type 0 where
    pub number : (n : ℕ) × (n ≤ counter) × (e.id ≡ entry_id index n)
    pub sampled : length e.obs ≤ max_obs
    pub offered : length e.obs ≤ e.seen

  -- The LRU list holds each entry once, the bucket maps hold the same entries, no bucket's map is
  -- empty, and every entry is sound.
  pub record IsLinked (sh : Shard F S) : Type 0 where
    pub distinct : DistinctKeys (key_at sh.heap) sh.lru
    pub indexed : (k : EntryKey) → get_entry k sh.buckets ≡ find (key_at sh.heap) k sh.lru
    pub tidy : IsTidy sh.buckets
    pub sound : All (IsSound sh.index sh.counter sh.max_obs) (entries sh)

  -- Beside that, there is room and it is kept to, and the counter is a uint64.
  pub record IsValid (sh : Shard F S) : Type 0 where
    pub linked : IsLinked sh
    pub open linked use *
    pub bounded : length sh.lru ≤ sh.capacity
    pub room : 0 < sh.capacity
    pub numbered : sh.counter < 2 ^ 64

  new_shard-IsLinked : (capacity max_obs i : ℕ) → IsLinked (new_shard capacity max_obs i)
  unfolding bucket_entries view
  new_shard-IsLinked capacity max_obs i = record {
    distinct = tt;
    indexed = λ k. refl;
    tidy = nil-IsTidy;
    sound = tt;
  }

  -- A new shard is valid.
  pub new_shard-IsValid :
      (capacity max_obs i : ℕ) → 0 < capacity → IsValid (new_shard capacity max_obs i)
  new_shard-IsValid capacity max_obs i h = record {
    linked = new_shard-IsLinked capacity max_obs i;
    bounded = omega arith;
    room = h;
    numbered = omega arith;
  }

  pub key_at-entry :
      (heap : List (Entry F S)) (a : ℕ) {k : EntryKey}
      → key_at heap a ≡ some k
      → (e : Entry F S) × (get_elem? heap a ≡ some e) × (key_of e ≡ k)
  key_at-entry heap a {k} h = go (get_elem? heap a) refl
    where
      go :
          (o : Option (Entry F S))
          → get_elem? heap a ≡ o
          → (e : Entry F S) × (get_elem? heap a ≡ some e) × (key_of e ≡ k)
      go none p = absurd (ground arith)
      go (some e) p = (e, p, ground arith)

  -- With distinct keys the LRU list and the entries are of one length.
  pub length-view :
      (heap : List (Entry F S)) (xs : List ℕ)
      → DistinctKeys (key_at heap) xs
      → length (view heap xs) ≡ length xs
  unfolding view
  length-view heap [] d = refl
  length-view heap (a ∷ xs) (k, named, fresh, d) =
      let (e, here, _) = key_at-entry heap a named in
      rw (here, view) (ap suc (length-view heap xs d))

  -- The entry at an address of the LRU list is among the entries.
  pub find-In :
      (heap : List (Entry F S)) (k : EntryKey) (xs : List ℕ) (a : ℕ) (e : Entry F S)
      → find (key_at heap) k xs ≡ some a
      → get_elem? heap a ≡ some e
      → In e (view heap xs)
  unfolding view
  find-In heap k [] a e h g = absurd (cc)
  find-In heap k (x ∷ xs) a e h g = elim (Bool-cases (has_key k (key_at heap x))) [
    | inl here ↦ let at_x : get_elem? heap x ≡ some e = ground arith in rw (at_x, view) (inl refl)
    | inr later ↦
        let rest : In e (view heap xs) = find-In heap k xs a e (rw later at h) g in
        (elim (Option-cases (get_elem? heap x)) [
          | inl gone ↦ rw (gone, view) rest
          | inr (e', there) ↦ rw (there, view) (inr rest)
        ])
  ]

  -- An entry of the shard is found under its key.
  pub In-find :
      (heap : List (Entry F S)) (xs : List ℕ) (e : Entry F S)
      → DistinctKeys (key_at heap) xs
      → In e (view heap xs)
      → (a : ℕ) × (find (key_at heap) (key_of e) xs ≡ some a) × (get_elem? heap a ≡ some e)
  unfolding view
  In-find heap [] e d h = absurd h
  In-find heap (x ∷ xs) e (j, named, fresh, d) h =
      let (e', there, same) = key_at-entry heap x named in
      let member : (e ≡ e') ⊎ In e (view heap xs) = rw (there, view) at h in
      (elim member [
        | inl here ↦ (x, ground (arith, key_Eq.beq_iff (key_of e) (key_of e)), ground arith)
        | inr later ↦
            let (a, found, at_a) = In-find heap xs e d later in
            (a, ground (arith, key_Eq.beq_iff (key_of e) j), at_a)
      ])

pub All-init {κ} : {A : Type 0} (P : A → Type κ) (xs : List A) → All P xs → All P (init xs)
All-init P [] h = tt
All-init P (x ∷ []) h = tt
All-init P (x ∷ y ∷ xs) (p, h) = (p, All-init P (y ∷ xs) h)
