-- ===== src/Text.antt =====
-- Go strings: lists of bytes, with the parts of strconv and encoding/binary that the program uses.
use Prim.Native.Char.{code}
use Prim.Native.String.{String}
use native.Mathlib.Nat.{pow-suc}
use semblance.Assoc.{Eq}
use semblance.Prelude.{
  ℕ, zero, suc, ◌+◌, ◌-◌, ◌*◌, ◌/◌, ◌%◌, ◌^◌, ◌<◌, ◌≡◌, refl, sym, ap, ◌∙◌, ◌↔◌, Bool, true, false,
  ◌&&◌, List, [], ◌∷◌, arith, ◌==◌, if◌then◌else◌, Bool-cases, inl, inr,
}

abbrev pub Text : Type 0
Text = List ℕ

-- The bytes of an ASCII literal.
abbrev pub codes : String → Text
codes String.[] = []
codes (String.◌∷◌ c s) = code c ∷ codes s

abbrev pub text_eq : Text → Text → Bool
text_eq [] [] = true
text_eq (a ∷ s) (b ∷ t) = (a == b) && text_eq s t
text_eq _ _ = false

pub text_eq_iff : (s t : Text) → (text_eq s t ≡ true) ↔ (s ≡ t)
text_eq_iff [] [] = (λ _. refl, λ _. refl)
text_eq_iff [] (b ∷ t) = (λ h. cc, λ h. cc)
text_eq_iff (a ∷ s) [] = (λ h. cc, λ h. cc)
text_eq_iff (a ∷ s) (b ∷ t) =
    (λ h. ground (arith, text_eq_iff s t), λ h. ground (arith, text_eq_iff s t))

instance abbrev pub text_Eq : Eq Text
text_Eq = record { beq = text_eq; beq_iff = text_eq_iff }

-- The loop of strconv.FormatUint in base ten; a uint64 has at most twenty digits.
abbrev format_loop : ℕ → ℕ → Text → Text
format_loop zero n out = out
format_loop (suc f) n out =
    let shown = (b'0' + n % 10) ∷ out in
    let rest = format_loop f (n / 10) shown in if n / 10 == 0 then shown else rest

unfoldable pub format_uint : ℕ → Text
format_uint n = format_loop 20 n []

value_from : ℕ → Text → ℕ
value_from v [] = v
value_from v (c ∷ s) = value_from (v * 10 + (c - b'0')) s

value_from-format_loop :
    (f n : ℕ) (out : Text) → n < 10 ^ f → value_from 0 (format_loop f n out) ≡ value_from n out
unfolding value_from
value_from-format_loop zero n out h = ap (λ (v : ℕ). value_from v out) (omega arith)
value_from-format_loop (suc f) n out h =
    let small : n < 10 ^ f * 10 = rw pow-suc at h in
    let shown : Text = (b'0' + n % 10) ∷ out in
    let whole : n / 10 * 10 + (b'0' + n % 10 - b'0') ≡ n = omega arith in
    elim (Bool-cases (n / 10 == 0)) [
      | inl done ↦ rw done (ap (λ (v : ℕ). value_from v out) (ground arith))
      | inr more ↦ rw more (
          value_from-format_loop f (n / 10) shown (omega arith)
          ∙ ap (λ (v : ℕ). value_from v out) whole)
    ]

-- Two numbers of at most twenty digits with the same decimal are the same.
pub format_uint-injective :
    (m n : ℕ) → m < 10 ^ 20 → n < 10 ^ 20 → format_uint m ≡ format_uint n → m ≡ n
unfolding format_uint value_from
format_uint-injective m n hm hn h =
    sym (value_from-format_loop 20 m [] hm)
    ∙ ap (value_from 0) h
    ∙ value_from-format_loop 20 n [] hn
