-- ===== src/Embed/Fake.antt =====
-- internal/embed/fake.go: the hashed bag of words. `strings.ToLower` and `strings.Fields` are arguments.
use semblance.Cache.Store.{fnv32a}
use semblance.Prelude.{
  ℤ, pos, negsuc, ℕ, zero, suc, ◌%◌, ◌^◌, ◌<◌, ◌≡◌, refl, ◌∙◌, false, List, [], ◌∷◌, foldl, Option,
  none, some, arith, if◌then◌else◌, leb, ◌==◌, length,
}
use semblance.Text.{Text}

-- `NewFake` and `Dimensions`: 256 for a dimension that is not positive.
unfoldable pub new_fake : ℤ → ℕ
new_fake (pos zero) = 256
new_fake (pos (suc n)) = suc n
new_fake (negsuc n) = 256

unfoldable pub replicate : {S : Type 0} → ℕ → S → List S
replicate zero x = []
replicate (suc n) x = x ∷ replicate n x

-- An update of one component; there is none past the end.
unfoldable pub modify : {S : Type 0} → ℕ → (S → S) → List S → List S
modify i g [] = []
modify zero g (x ∷ xs) = g x ∷ xs
modify (suc i) g (x ∷ xs) = x ∷ modify i g xs

module _ {S : Type 0} (inc dec : S → S) where
  -- The token's hash picks the component, and its top bit the sign.
  unfoldable pub add_token : ℕ → List S → Text → List S
  add_token dim v token =
      let sum = fnv32a token in
      modify (sum % (dim % 2 ^ 32)) (if leb (2 ^ 31) sum then dec else inc) v

  -- The loop over the tokens.
  abbrev pub tokenized : S → ℕ → List Text → Option (List S × ℤ)
  tokenized zero_32 dim [] = some (replicate dim zero_32, pos 0)
  tokenized zero_32 dim (token ∷ tokens) =
      if dim % 2 ^ 32 == 0
      then none
      else some (foldl (add_token dim) (replicate dim zero_32) (token ∷ tokens), pos 0)

  -- The vector and no tokens. `none` is the panic of a division by a dimension that is 0 in 32 bits.
  unfoldable pub embed : (Text → Text) → (Text → List Text) → S → ℕ → Text → Option (List S × ℤ)
  embed to_lower fields zero_32 dim text = tokenized zero_32 dim (fields (to_lower text))

length-replicate : {S : Type 0} (n : ℕ) (x : S) → length (replicate n x) ≡ n
unfolding replicate
length-replicate zero x = refl
length-replicate (suc n) x = omega (arith, length-replicate n x)

length-modify : {S : Type 0} (i : ℕ) (g : S → S) (xs : List S) → length (modify i g xs) ≡ length xs
unfolding modify
length-modify i g [] = refl
length-modify zero g (x ∷ xs) = refl
length-modify (suc i) g (x ∷ xs) = omega (arith, length-modify i g xs)

module _ {S : Type 0} (inc dec : S → S) (to_lower : Text → Text) (fields : Text → List Text)
    (zero_32 : S) where
  length-add_token :
      (dim : ℕ) (v : List S) (token : Text) → length (add_token inc dec dim v token) ≡ length v
  unfolding add_token
  length-add_token dim v token = length-modify _ _ v

  length-tokens :
      (dim : ℕ) (tokens : List Text) (v : List S)
      → length (foldl (add_token inc dec dim) v tokens) ≡ length v
  length-tokens dim [] v = refl
  length-tokens dim (t ∷ ts) v =
      length-tokens dim ts (add_token inc dec dim v t) ∙ length-add_token dim v t

  -- For a dimension from 1 up to 2 ^ 32 - 1 the fake embeds every text, into as many components as
  -- its dimension says, and reports no tokens.
  pub embed-length :
      (dim : ℕ) (text : Text)
      → 0 < dim
      → dim < 2 ^ 32
      → (v : List S) × (embed inc dec to_lower fields zero_32 dim text ≡ some (v, pos 0))
        × (length v ≡ dim)
  unfolding embed
  embed-length dim text h small = cases (fields (to_lower text))
    where
      cases :
          (tokens : List Text)
          → (v : List S) × (tokenized inc dec zero_32 dim tokens ≡ some (v, pos 0))
            × (length v ≡ dim)
      cases [] = (replicate dim zero_32, refl, length-replicate dim zero_32)
      cases (t ∷ ts) =
          let fits : (dim % 2 ^ 32 == 0) ≡ false = ground arith in
          (
            foldl (add_token inc dec dim) (replicate dim zero_32) (t ∷ ts),
            rw fits refl,
            length-tokens dim (t ∷ ts) _ ∙ length-replicate dim zero_32,
          )
