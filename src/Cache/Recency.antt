-- ===== src/Cache/Recency.antt =====
-- Lists of addresses, most recent first, seen through a function that gives each address its key.
use semblance.Assoc.{Eq, beq_refl}
use semblance.Cache.Shard.{remove, move_to_front}
use semblance.Prelude.{
  ℕ, suc, ◌≡◌, refl, ap, ◌∙◌, inl, inr, Bool, true, false, List, [], ◌∷◌, Option, none, some, arith,
  if◌then◌else◌, ◌==◌, length, init, last?, Bool-cases,
}

module _ {ℓ} {K : Type ℓ} ⦃e : Eq K⦄ where
  abbrev pub has_key : K → Option K → Bool
  has_key k none = false
  has_key k (some j) = e.beq k j

  module _ (key : ℕ → Option K) where
    -- The first address with the key.
    abbrev pub find : K → List ℕ → Option ℕ
    find k [] = none
    find k (x ∷ xs) = if has_key k (key x) then some x else find k xs

    -- Each address has a key, and no key stands twice.
    abbrev pub DistinctKeys : List ℕ → Type ℓ
    DistinctKeys [] = Unit
    DistinctKeys (x ∷ xs) = (k : K) × (key x ≡ some k) × (find k xs ≡ none) × DistinctKeys xs

    pub find-key : (k : K) (xs : List ℕ) {a : ℕ} → find k xs ≡ some a → key a ≡ some k
    find-key k [] h = cc
    find-key k (x ∷ xs) {a} h = elim (Bool-cases (has_key k (key x))) [
      | inl t ↦ hit (key x) refl t (rw t at h)
      | inr f ↦ find-key k xs (rw f at h)
    ]
      where
        hit :
            (o : Option K) → key x ≡ o → has_key k (key x) ≡ true → some x ≡ some a → key a ≡ some k
        hit none p t q = ground arith
        hit (some j) p t q = ground (arith, e.beq_iff k j)

    pub find-remove :
        (k j : K) (xs : List ℕ) (a : ℕ)
        → DistinctKeys xs
        → find j xs ≡ some a
        → find k (remove a xs) ≡ (if e.beq k j then none else find k xs)
    unfolding remove
    find-remove k j [] a d h = cc
    find-remove k j (x ∷ xs) a (i, named, fresh, d) h = elim (Bool-cases (e.beq j i)) [
      | inl same ↦ ground (arith, e.beq_iff j i, e.beq_iff k i, e.beq_iff k j)
      | inr other ↦ ground (
        arith,
        find-remove k j xs a d,
        find-key j xs {a = a},
        beq_refl j,
        e.beq_iff k j,
        e.beq_iff k i,
      )
    ]

    pub remove-DistinctKeys :
        (j : K) (xs : List ℕ) (a : ℕ)
        → DistinctKeys xs
        → find j xs ≡ some a
        → DistinctKeys (remove a xs)
    unfolding remove
    remove-DistinctKeys j [] a d h = tt
    remove-DistinctKeys j (x ∷ xs) a (i, named, fresh, d) h = elim (Bool-cases (x == a)) [
      | inl same ↦ rw same d
      | inr other ↦
          let later : find j xs ≡ some a = ground arith in
          rw other (
            i,
            named,
            rw (find-remove i j xs a d later) (ground (arith, e.beq_iff i j)),
            remove-DistinctKeys j xs a d later,
          )
    ]

    pub move_to_front-DistinctKeys :
        (j : K) (xs : List ℕ) (a : ℕ)
        → DistinctKeys xs
        → find j xs ≡ some a
        → DistinctKeys (move_to_front a xs)
    move_to_front-DistinctKeys j xs a d h = (
      j,
      find-key j xs h,
      rw (find-remove j j xs a d h, beq_refl j),
      remove-DistinctKeys j xs a d h,
    )

    -- Moving an address to the front changes no lookup.
    pub find-move_to_front :
        (k j : K) (xs : List ℕ) (a : ℕ)
        → DistinctKeys xs
        → find j xs ≡ some a
        → find k (move_to_front a xs) ≡ find k xs
    find-move_to_front k j xs a d h =
        ground (arith, find-key j xs h, find-remove k j xs a d h, e.beq_iff k j)

    pub length-remove :
        (j : K) (xs : List ℕ) (a : ℕ) → find j xs ≡ some a → suc (length (remove a xs)) ≡ length xs
    unfolding remove
    length-remove j [] a h = cc
    length-remove j (x ∷ xs) a h = elim (Bool-cases (x == a)) [
      | inl same ↦ rw same
      | inr other ↦ rw other (ap suc (length-remove j xs a (ground arith)))
    ]

    pub last-key :
        (xs : List ℕ) (a : ℕ)
        → DistinctKeys xs
        → last? xs ≡ some a
        → (j : K) × (key a ≡ some j) × (find j xs ≡ some a)
    last-key [] a d h = cc
    last-key (x ∷ []) a (i, named, fresh, d) h = (i, ground arith, ground (arith, beq_refl i))
    last-key (x ∷ y ∷ xs) a (i, named, fresh, d) h =
        let (j, k, f) = last-key (y ∷ xs) a d h in (j, k, ground (arith, e.beq_iff j i))

    -- Without the last address its key is not found, and nothing else changes.
    pub find-init :
        (k j : K) (xs : List ℕ) (a : ℕ)
        → DistinctKeys xs
        → last? xs ≡ some a
        → key a ≡ some j
        → find k (init xs) ≡ (if e.beq k j then none else find k xs)
    find-init k j [] a d h m = cc
    find-init k j (x ∷ []) a (i, named, fresh, d) h m = ground arith
    find-init k j (x ∷ y ∷ xs) a (i, named, fresh, d) h m =
        let (j', k', f) = last-key (y ∷ xs) a d h in
        let same : j' ≡ j = ground arith in
        elim (Bool-cases (e.beq k i)) [
          | inl t ↦ ground (arith, e.beq_iff k i, e.beq_iff k j)
          | inr g ↦ ground (arith, find-init k j (y ∷ xs) a d h m)
        ]

    pub init-DistinctKeys : (xs : List ℕ) → DistinctKeys xs → DistinctKeys (init xs)
    init-DistinctKeys [] d = tt
    init-DistinctKeys (x ∷ []) d = tt
    init-DistinctKeys (x ∷ y ∷ xs) (i, named, fresh, d) =
        (i, named, init_fresh i (y ∷ xs) fresh, init-DistinctKeys (y ∷ xs) d)
      where
        init_fresh : (k : K) (ys : List ℕ) → find k ys ≡ none → find k (init ys) ≡ none
        init_fresh k [] h = refl
        init_fresh k (z ∷ []) h = refl
        init_fresh k (z ∷ z' ∷ ys) h = ground (arith, init_fresh k (z' ∷ ys))

  -- A key function that agrees where keys were given.
  module _ (key key' : ℕ → Option K)
      (keep : (x : ℕ) (k : K) → key x ≡ some k → key' x ≡ some k) where
    pub find-keep : (k : K) (xs : List ℕ) → DistinctKeys key xs → find key' k xs ≡ find key k xs
    find-keep k [] d = refl
    find-keep k (x ∷ xs) (i, named, fresh, d) = rw (keep x i named, named, find-keep k xs d)

    pub DistinctKeys-keep : (xs : List ℕ) → DistinctKeys key xs → DistinctKeys key' xs
    DistinctKeys-keep [] d = tt
    DistinctKeys-keep (x ∷ xs) (i, named, fresh, d) =
        (i, keep x i named, find-keep i xs d ∙ fresh, DistinctKeys-keep xs d)
