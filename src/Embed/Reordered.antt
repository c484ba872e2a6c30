-- ===== src/Embed/Reordered.antt =====
-- The vector of internal/embed/fake.go for the same tokens in another order. `of` is the conversion of
-- an integer to a component.
use mathlib.Core.List.{Permᴰ}
use semblance.Cache.Valid.{All}
use semblance.Embed.Fake.{modify, replicate, add_token, tokenized, embed}
use semblance.Prelude.{
  ℤ, pos, negsuc, ℕ, zero, suc, ◌+◌, ◌%◌, ◌^◌, ◌<◌, ◌≤◌, ◌≡◌, refl, sym, ap, ap₂, ◌∙◌, Bool, true,
  false, List, [], ◌∷◌, foldl, map, Option, none, some, arith, if◌then◌else◌, ◌==◌, length,
}
use semblance.Text.{Text}

-- Updates that commute at one place commute.
modify-modify :
    {S : Type 0} (i j : ℕ) (g h : S → S) (xs : List S)
    → ((x : S) → g (h x) ≡ h (g x))
    → modify i g (modify j h xs) ≡ modify j h (modify i g xs)
unfolding modify
modify-modify i j g h [] c = refl
modify-modify zero zero g h (x ∷ xs) c = ap (λ y. y ∷ xs) (c x)
modify-modify zero (suc j) g h (x ∷ xs) c = refl
modify-modify (suc i) zero g h (x ∷ xs) c = refl
modify-modify (suc i) (suc j) g h (x ∷ xs) c = ap (◌∷◌ x) (modify-modify i j g h xs c)

foldl-Permᴰ :
    {S : Type 0} (g : List S → Text → List S)
    → ((v : List S) (a b : Text) → g (g v a) b ≡ g (g v b) a)
    → {xs ys : List Text} → Permᴰ xs ys
    → (v : List S) → foldl g v xs ≡ foldl g v ys
foldl-Permᴰ g c Permᴰ.nil v = refl
foldl-Permᴰ g c (Permᴰ.cons {b = b} {l₁ = l} e p) v =
    ap (λ a. foldl g (g v a) l) e ∙ foldl-Permᴰ g c p (g v b)
foldl-Permᴰ g c (Permᴰ.swap {a = a} {b = b} {l = l} e e') v =
    ap (λ (w : List _). foldl g w l) (c v a b) ∙ ap₂ (λ x y. foldl g (g (g v x) y) l) e' e
foldl-Permᴰ g c (Permᴰ.trans p q) v = foldl-Permᴰ g c p v ∙ foldl-Permᴰ g c q v

module _ {S : Type 0} (inc dec : S → S) (zero_32 : S)
    (c : (x : S) → inc (dec x) ≡ dec (inc x)) where
  sign_comm :
      (t u : Bool) (x : S)
      → (if t then dec else inc) ((if u then dec else inc) x)
        ≡ (if u then dec else inc) ((if t then dec else inc) x)
  sign_comm true true x = refl
  sign_comm true false x = sym (c x)
  sign_comm false true x = c x
  sign_comm false false x = refl

  add_token_comm :
      (dim : ℕ) (v : List S) (a b : Text)
      → add_token inc dec dim (add_token inc dec dim v a) b
        ≡ add_token inc dec dim (add_token inc dec dim v b) a
  unfolding add_token
  add_token_comm dim v a b = modify-modify _ _ _ _ v (sign_comm _ _)

  tokenized-Permᴰ :
      (dim : ℕ) {xs ys : List Text}
      → Permᴰ xs ys
      → tokenized inc dec zero_32 dim xs ≡ tokenized inc dec zero_32 dim ys
  tokenized-Permᴰ dim Permᴰ.nil = refl
  tokenized-Permᴰ dim (Permᴰ.cons e p) =
      ap (λ (w : List S). if dim % 2 ^ 32 == 0 then none else some (w, pos 0))
        (foldl-Permᴰ (add_token inc dec dim) (add_token_comm dim) (Permᴰ.cons e p)
          (replicate dim zero_32))
  tokenized-Permᴰ dim (Permᴰ.swap {l = l} e e') =
      ap (λ (w : List S). if dim % 2 ^ 32 == 0 then none else some (w, pos 0))
        (foldl-Permᴰ (add_token inc dec dim) (add_token_comm dim) (Permᴰ.swap {l = l} e e')
          (replicate dim zero_32))
  tokenized-Permᴰ dim (Permᴰ.trans p q) = tokenized-Permᴰ dim p ∙ tokenized-Permᴰ dim q

length-Permᴰ : {xs ys : List Text} → Permᴰ xs ys → length xs ≡ length ys
length-Permᴰ Permᴰ.nil = refl
length-Permᴰ (Permᴰ.cons e p) = omega (arith, length-Permᴰ p)
length-Permᴰ (Permᴰ.swap e e') = refl
length-Permᴰ (Permᴰ.trans p q) = length-Permᴰ p ∙ length-Permᴰ q

-- One more and one less, and the distance from 0.
abbrev pub succ : ℤ → ℤ
succ (pos n) = pos (suc n)
succ (negsuc zero) = pos 0
succ (negsuc (suc n)) = negsuc n

abbrev pub pred : ℤ → ℤ
pred (pos zero) = negsuc 0
pred (pos (suc n)) = pos n
pred (negsuc n) = negsuc (suc n)

abbrev pub size : ℤ → ℕ
size (pos n) = n
size (negsuc n) = suc n

succ-pred : (z : ℤ) → succ (pred z) ≡ pred (succ z)
succ-pred (pos zero) = refl
succ-pred (pos (suc n)) = refl
succ-pred (negsuc zero) = refl
succ-pred (negsuc (suc n)) = refl

size-step : (t : Bool) (z : ℤ) → size ((if t then pred else succ) z) ≤ size z + 1
size-step true (pos zero) = omega arith
size-step true (pos (suc n)) = omega arith
size-step true (negsuc n) = omega arith
size-step false (pos n) = omega arith
size-step false (negsuc zero) = omega arith
size-step false (negsuc (suc n)) = omega arith

abbrev converted : {S : Type 0} → (ℤ → S) → Option (List ℤ × ℤ) → Option (List S × ℤ)
converted of none = none
converted of (some (v, n)) = some (map of v, n)

AreSmall : ℕ → List ℤ → Type 0
AreSmall k = All (λ z. size z ≤ k)

-- Components grow by one at most.
AreSmall-suc : (k : ℕ) (zs : List ℤ) → AreSmall k zs → AreSmall (k + 1) zs
unfolding AreSmall
AreSmall-suc k [] h = tt
AreSmall-suc k (z ∷ zs) (h, hs) = (omega (arith, h), AreSmall-suc k zs hs)

modify-AreSmall :
    (i : ℕ) (t : Bool) (k : ℕ) (zs : List ℤ)
    → AreSmall k zs
    → AreSmall (k + 1) (modify i (if t then pred else succ) zs)
unfolding modify AreSmall
modify-AreSmall i t k [] h = tt
modify-AreSmall zero t k (z ∷ zs) (h, hs) = (omega (arith, h, size-step t z), AreSmall-suc k zs hs)
modify-AreSmall (suc i) t k (z ∷ zs) (h, hs) = (omega (arith, h), modify-AreSmall i t k zs hs)

replicate-AreSmall : (n : ℕ) → AreSmall 0 (replicate n (pos 0))
unfolding replicate AreSmall
replicate-AreSmall zero = tt
replicate-AreSmall (suc n) = (omega arith, replicate-AreSmall n)

module _ {S : Type 0} (inc dec : S → S) (of : ℤ → S)
    (up : (z : ℤ) → size z < 2 ^ 24 → inc (of z) ≡ of (succ z))
    (down : (z : ℤ) → size z < 2 ^ 24 → dec (of z) ≡ of (pred z)) where
  replicate-of : (n : ℕ) → replicate n (of (pos 0)) ≡ map of (replicate n (pos 0))
  unfolding replicate
  replicate-of zero = refl
  replicate-of (suc n) = ap (◌∷◌ (of (pos 0))) (replicate-of n)

  step-of :
      (t : Bool) (z : ℤ)
      → size z < 2 ^ 24
      → (if t then dec else inc) (of z) ≡ of ((if t then pred else succ) z)
  step-of true z h = down z h
  step-of false z h = up z h

  modify-of :
      (i : ℕ) (t : Bool) (k : ℕ) (zs : List ℤ)
      → AreSmall k zs
      → k < 2 ^ 24
      → modify i (if t then dec else inc) (map of zs)
        ≡ map of (modify i (if t then pred else succ) zs)
  unfolding modify AreSmall
  modify-of i t k [] h room = refl
  modify-of zero t k (z ∷ zs) (h, hs) room = ap (λ x. x ∷ map of zs) (step-of t z (omega arith))
  modify-of (suc i) t k (z ∷ zs) (h, hs) room = ap (◌∷◌ (of z)) (modify-of i t k zs hs room)

  tokens-of :
      (dim : ℕ) (tokens : List Text) (k : ℕ) (zs : List ℤ)
      → AreSmall k zs
      → k + length tokens ≤ 2 ^ 24
      → foldl (add_token inc dec dim) (map of zs) tokens
        ≡ map of (foldl (add_token succ pred dim) zs tokens)
  unfolding add_token
  tokens-of dim [] k zs h room = refl
  tokens-of dim (t ∷ ts) k zs h room =
      ap (λ v. foldl (add_token inc dec dim) v ts) (modify-of _ _ k zs h (omega arith))
      ∙ tokens-of dim ts (k + 1) (add_token succ pred dim zs t) (modify-AreSmall _ _ k zs h)
          (omega arith)

  -- The components are the images of integers, which need no rounding.
  tokenized-of :
      (dim : ℕ) (tokens : List Text)
      → length tokens ≤ 2 ^ 24
      → tokenized inc dec (of (pos 0)) dim tokens
        ≡ converted of (tokenized succ pred (pos 0) dim tokens)
  tokenized-of dim [] room = ap (λ v. some (v, pos 0)) (replicate-of dim)
  tokenized-of dim (t ∷ ts) room = go (dim % 2 ^ 32 == 0) _ (
      ap (λ v. foldl (add_token inc dec dim) v (t ∷ ts)) (replicate-of dim)
      ∙ tokens-of dim (t ∷ ts) 0 (replicate dim (pos 0)) (replicate-AreSmall dim) (omega arith))
    where
      go :
          (b : Bool) {v : List S} (zs : List ℤ)
          → v ≡ map of zs
          → (if b then none else some (v, pos 0))
            ≡ converted of (if b then none else some (zs, pos 0))
      go true zs e = refl
      go false zs e = ap (λ x. some (x, pos 0)) e

  module _ (to_lower : Text → Text) (fields : Text → List Text) where
    -- Let the components be converted integers, with steps by one that are exact below 2 ^ 24, as they
    -- are in a float32. Two texts with the same tokens, in any order and at most 2 ^ 24 of them, get
    -- the same result, for every dimension.
    pub embed-reordered :
        (dim : ℕ) (text text' : Text)
        → length (fields (to_lower text)) ≤ 2 ^ 24
        → Permᴰ (fields (to_lower text)) (fields (to_lower text'))
        → embed inc dec to_lower fields (of (pos 0)) dim text
          ≡ embed inc dec to_lower fields (of (pos 0)) dim text'
    unfolding embed
    embed-reordered dim text text' room p =
        let same = length-Permᴰ p in
        tokenized-of dim (fields (to_lower text)) room
        ∙ ap (converted of) (tokenized-Permᴰ succ pred (pos 0) succ-pred dim p)
        ∙ sym (tokenized-of dim (fields (to_lower text')) (omega arith))
