-- ===== src/Gateway/Admitted.antt =====
-- internal/gateway/middleware.go: whom the gateway serves, and under which key it bills.
use semblance.Budget.{Tracker, over_budget}
use semblance.Cache.Valid.{In}
use semblance.Double.{Double}
use semblance.Gateway.Access.{
  served, anonymous_key, bearer_token, key_allowed, authenticate, within_budget, admit,
}
use semblance.Prelude.{
  ◌≡◌, ◌↔◌, ◌⊎◌, inl, inr, refl, Bool, true, false, List, [], ◌∷◌, foldl, some, if◌then◌else◌,
  arith, Bool-cases, Option-cases, not, sym, ap,
}
use semblance.Text.{Text, text_eq, text_eq_iff}

abbrev same_key : Text → Bool → Text → Bool
same_key presented found k = if text_eq k presented then true else found

fold-true : (keys : List Text) (presented : Text) → foldl (same_key presented) true keys ≡ true
fold-true [] presented = refl
fold-true (k ∷ keys) presented = ground (arith, fold-true keys presented)

fold-In :
    (keys : List Text) (presented : Text)
    → foldl (same_key presented) false keys ≡ true
    → In presented keys
fold-In [] presented h = absurd (cc)
fold-In (k ∷ keys) presented h = elim (Bool-cases (text_eq k presented)) [
  | inl same ↦ inl (sym ((text_eq_iff k presented).0 same))
  | inr other ↦ inr (fold-In keys presented (rw other at h))
]

In-fold :
    (keys : List Text) (presented : Text)
    → In presented keys
    → foldl (same_key presented) false keys ≡ true
In-fold [] presented h = absurd h
In-fold (k ∷ keys) presented (inl same) =
    ground (arith, text_eq_iff k presented, fold-true keys presented)
In-fold (k ∷ keys) presented (inr later) =
    ground (arith, fold-true keys presented, In-fold keys presented later)

key_allowed_iff :
    (keys : List Text) (presented : Text) → (key_allowed keys presented ≡ true) ↔ In presented keys
unfolding key_allowed
key_allowed_iff keys presented = (fold-In keys presented, In-fold keys presented)

-- The header's token is a configured key, or no keys are configured.
abbrev pub IsKnown : (Text → Text → Bool) → (Text → Text) → List Text → Text → Text → Type 0
IsKnown equal_fold trim keys header key =
    ((keys ≡ []) × (key ≡ anonymous_key))
    ⊎ (In key keys × (bearer_token equal_fold trim header ≡ some key))

authenticate_iff :
    (equal_fold : Text → Text → Bool) (trim : Text → Text) (keys : List Text) (header key : Text)
    → (authenticate equal_fold trim keys header ≡ some key)
      ↔ IsKnown equal_fold trim keys header key
unfolding authenticate
authenticate_iff equal_fold trim [] header key = (
  λ h. inl (refl, cc),
  λ h. elim h [ inl (_, same) ↦ ap some (sym same) | inr (bad, _) ↦ absurd bad ],
)
authenticate_iff equal_fold trim (k ∷ keys) header key =
    elim (Option-cases (bearer_token equal_fold trim header)) [
      | inl missing ↦ (
        λ h. absurd (ground arith),
        λ h. elim h [ inl (bad, _) ↦ absurd (cc) | inr (_, found) ↦ absurd (cc) ],
      )
      | inr (token, found) ↦ (
        λ h.
            let allowed : key_allowed (k ∷ keys) key ≡ true = ground arith in
            let token_eq : bearer_token equal_fold trim header ≡ some key = ground arith in
            inr ((key_allowed_iff (k ∷ keys) key).0 allowed, token_eq),
        λ h. elim h [
          | inl (bad, _) ↦ absurd (cc)
          | inr (member, same) ↦
              let allowed : key_allowed (k ∷ keys) key ≡ true =
                (key_allowed_iff (k ∷ keys) key).1 member in
              ground arith
        ],
      )
    ]

module _ {F : Type 0} ⦃d : Double F⦄ where
  within_budget-eq : (t : Tracker F) (key : Text) → within_budget t key ≡ not (over_budget t key)
  unfolding within_budget over_budget
  within_budget-eq t key = ground arith

  -- A request is served under a key exactly when the key is not over budget and either no keys are
  -- configured and it is the anonymous one, or it is a configured key and the header's bearer token.
  pub admit-served :
      (equal_fold : Text → Text → Bool) (trim : Text → Text) (keys : List Text) (t : Tracker F)
      (header key : Text)
      → (admit equal_fold trim keys t header ≡ served key)
        ↔ ((over_budget t key ≡ false) × IsKnown equal_fold trim keys header key)
  unfolding admit
  admit-served equal_fold trim keys t header key =
      let auth = authenticate_iff equal_fold trim keys header key in
      (
        λ h.
            let known : authenticate equal_fold trim keys header ≡ some key = ground arith in
            (ground (arith, within_budget-eq t key), auth.0 known),
        λ (under, known). let named = auth.1 known in ground (arith, named, within_budget-eq t key),
      )
