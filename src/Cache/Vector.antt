-- ===== src/Cache/Vector.antt =====
-- internal/cache/memory.go: vectors. bench/replay.go has the same two functions.
use semblance.Double.{Double, Single}
use semblance.Prelude.{suc, ◌≡◌, refl, ap, arith, length, List, [], ◌∷◌, map, foldl, if◌then◌else◌}

module _ (F : Type 0) {S : Type 0} ⦃d : Double F⦄ ⦃f : Single F S⦄ where
  unfoldable pub normalize : List S → List S
  normalize vec =
      let norm = foldl (λ acc x. d.add acc (d.mul (f.to_64 x) (f.to_64 x))) (d.of_ℕ 0) vec in
      let inv = f.to_32 (d.div (d.of_ℕ 1) (d.sqrt norm)) in
      if d.feq norm (d.of_ℕ 0) then map (λ _. f.zero_32) vec else map (λ x. f.mul_32 x inv) vec

module _ {F S : Type 0} ⦃d : Double F⦄ ⦃f : Single F S⦄ where
  -- The loop of `dot`. It stops at the end of either vector, where the code would panic at the end
  -- of the second; the shard compares vectors of one length only.
  dot_from : F → List S → List S → F
  dot_from acc (x ∷ a) (y ∷ b) = dot_from (d.add acc (d.mul (f.to_64 x) (f.to_64 y))) a b
  dot_from acc _ _ = acc

  unfoldable pub dot : List S → List S → F
  unfolding dot_from
  dot a b = dot_from (d.of_ℕ 0) a b

length-map : {A B : Type 0} (g : A → B) (xs : List A) → length (map g xs) ≡ length xs
length-map g [] = refl
length-map g (x ∷ xs) = ap suc (length-map g xs)

module _ (F : Type 0) {S : Type 0} ⦃d : Double F⦄ ⦃f : Single F S⦄ where
  pub length-normalize : (vec : List S) → length (normalize F vec) ≡ length vec
  unfolding normalize
  length-normalize vec =
      let norm = foldl (λ acc x. d.add acc (d.mul (f.to_64 x) (f.to_64 x))) (d.of_ℕ 0) vec in
      let inv = f.to_32 (d.div (d.of_ℕ 1) (d.sqrt norm)) in
      ground
        (arith, length-map (λ (_ : S). f.zero_32) vec, length-map (λ (x : S). f.mul_32 x inv) vec)
