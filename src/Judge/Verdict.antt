-- ===== src/Judge/Verdict.antt =====
-- internal/judge/judge.go. `strings.TrimSpace` is an argument; so is the judge for long answers, which
-- has no implementation. `none` is an error.
use semblance.Prelude.{
  ℕ, ◌≤◌, ◌≡◌, ◌↔◌, ◌⊎◌, Bool, true, false, Option, none, some, arith, if◌then◌else◌, ltb, leb,
  length,
}
use semblance.Text.{Text, text_eq, text_eq_iff}

abbrev pub Judge : Type 0
Judge = Text → Text → Option Bool

unfoldable pub exact_judge : (Text → Text) → Judge
exact_judge trim reference candidate = some (text_eq (trim reference) (trim candidate))

pub record DefaultJudge : Type 0 where
  pub short_len : ℕ
  pub llm : Option Judge

abbrev pub new_default_judge : Option Judge → DefaultJudge
new_default_judge llm = record { short_len = 256; llm = llm }

unfoldable pub equivalent : (Text → Text) → DefaultJudge → Judge
unfolding exact_judge
equivalent trim d reference candidate =
    let longer =
      if ltb (length reference) (length candidate) then length candidate else length reference in
    elim d.llm [
      | none ↦ exact_judge trim reference candidate
      | some llm ↦
          if leb longer d.short_len
          then exact_judge trim reference candidate
          else llm reference candidate
    ]

-- The worker's label: an error counts as not equivalent.
unfoldable pub label : Judge → Text → Text → Bool
label judge reference candidate = elim (judge reference candidate) [ none ↦ false | some eq ↦ eq ]

-- With no judge for long answers, or where both answers are short, the label is equality after
-- trimming.
pub label-exact :
    (trim : Text → Text) (d : DefaultJudge) (reference candidate : Text)
    → (d.llm ≡ none) ⊎ ((length reference ≤ d.short_len) × (length candidate ≤ d.short_len))
    → (label (equivalent trim d) reference candidate ≡ true) ↔ (trim reference ≡ trim candidate)
unfolding label equivalent
label-exact trim d reference candidate h =
    let exact = text_eq_iff (trim reference) (trim candidate) in
    (ground (arith, exact), ground (arith, exact))
