-- ===== src/Bench/Loaded.antt =====
-- What `loadJSONL` of bench/main.go loads.
use semblance.Bench.Main.{at_limit, load_lines, load_jsonl}
use semblance.Bench.Scan.{Record}
use semblance.Prelude.{
  ℤ, pos, negsuc, ℕ, zero, suc, ◌+◌, ◌-◌, ◌≡◌, ◌↔◌, inl, inr, refl, Bool, true, false, List, [],
  ◌∷◌, map, Option, none, some, arith, if◌then◌else◌, length, take, Bool-cases, Option-cases,
}
use semblance.Text.{Text}

-- A file's lines up to a limit; a limit that is not positive is none.
abbrev pub limited : ℤ → List Text → List Text
limited (pos zero) lines = lines
limited (pos (suc m)) lines = take (suc m) lines
limited (negsuc m) lines = lines

take-nil : (n : ℕ) → take {A = Text} n [] ≡ []
take-nil zero = refl
take-nil (suc n) = refl

-- The lines that the limit leaves after `n` records: every limit that is not positive leaves all.
abbrev within : ℤ → ℕ → List Text → List Text
within (pos zero) n lines = lines
within (pos (suc m)) n lines = take (suc m - n) lines
within (negsuc m) n lines = lines

within-zero : (limit : ℤ) (lines : List Text) → within limit 0 lines ≡ limited limit lines
within-zero (pos zero) lines = refl
within-zero (pos (suc m)) lines = let all : suc m - 0 ≡ suc m = omega arith in rw all refl
within-zero (negsuc m) lines = refl

within-nil : (limit : ℤ) (n : ℕ) → within limit n [] ≡ []
within-nil (pos zero) n = refl
within-nil (pos (suc m)) n = take-nil (suc m - n)
within-nil (negsuc m) n = refl

within-last :
    (limit : ℤ) (n : ℕ) (line : Text) (lines : List Text)
    → at_limit limit n ≡ false
    → at_limit limit (n + 1) ≡ true
    → within limit n (line ∷ lines) ≡ line ∷ []
within-last (pos zero) n line lines under full = absurd (cc)
within-last (pos (suc m)) n line lines under full =
    let one : suc m - n ≡ 1 = ground (arith, under, full) in rw one refl
within-last (negsuc m) n line lines under full = absurd (cc)

within-next :
    (limit : ℤ) (n : ℕ) (line : Text) (lines : List Text)
    → at_limit limit (n + 1) ≡ false
    → within limit n (line ∷ lines) ≡ line ∷ within limit (n + 1) lines
within-next (pos zero) n line lines more = refl
within-next (pos (suc m)) n line lines more =
    let next : suc m - n ≡ suc (suc m - (n + 1)) = ground (arith, more) in rw next refl
within-next (negsuc m) n line lines more = refl

module _ {S : Type 0} (unmarshal : Text → Option (Record S)) (failed : ℕ → Bool) (limit : ℤ) where
  -- The lines that are read, after `n` records, give the records, and the scanner has no error.
  abbrev AreRead : ℕ → List Text → List (Record S) → Type 0
  AreRead n lines recs =
      (map unmarshal (within limit n lines) ≡ map (λ r. some r) recs)
      × (failed (n + length recs) ≡ false)

  ended :
      (n : ℕ) (recs : List (Record S))
      → (load_lines unmarshal failed limit n [] ≡ some recs)
        ↔ (([] ≡ map (λ r. some r) recs) × (failed (n + length recs) ≡ false))
  unfolding load_lines
  ended n [] =
      let sum : n + 0 ≡ n = omega arith in
      rw sum (λ h. (refl, ground (arith, h)), λ (e, h). ground (arith, h))
  ended n (r ∷ rs) = (λ h. absurd (ground (arith, h)), λ (e, h). absurd (ground (arith, e)))

  abbrev joined : Option (Record S) → Option (List (Record S)) → Option (List (Record S))
  joined q loaded = elim q [
    | none ↦ none
    | some rec ↦ elim loaded [ none ↦ none | some rest ↦ some (rec ∷ rest) ]
  ]

  load_lines-cons :
      (n : ℕ) (line : Text) (lines : List Text) (b : Bool)
      → at_limit limit (n + 1) ≡ b
      → load_lines unmarshal failed limit n (line ∷ lines)
        ≡ joined (unmarshal line) (
            if b
            then load_lines unmarshal failed limit (n + 1) []
            else load_lines unmarshal failed limit (n + 1) lines)
  unfolding load_lines
  load_lines-cons n line lines b h = elim (Option-cases (unmarshal line)) [
    | inl bad ↦ rw (load_lines, bad) refl
    | inr (rec, good) ↦ rw (load_lines, good) (rw h refl)
  ]

  cons :
      (n : ℕ) (q : Option (Record S)) (parsed : List (Option (Record S)))
      (loaded : Option (List (Record S))) (recs : List (Record S))
      → ((rs : List (Record S))
          → (loaded ≡ some rs)
            ↔ ((parsed ≡ map (λ r. some r) rs) × (failed (n + 1 + length rs) ≡ false)))
      → (joined q loaded ≡ some recs)
        ↔ ((q ∷ parsed ≡ map (λ r. some r) recs) × (failed (n + length recs) ≡ false))
  cons n none parsed loaded [] x =
      (λ h. absurd (ground (arith, h)), λ (e, h). absurd (ground (arith, e)))
  cons n none parsed loaded (r ∷ rs) x =
      (λ h. absurd (ground (arith, h)), λ (e, h). absurd (ground (arith, e)))
  cons n (some q) parsed none [] x =
      (λ h. absurd (ground (arith, h)), λ (e, h). absurd (ground (arith, e)))
  cons n (some q) parsed (some rest) [] x =
      (λ h. absurd (ground (arith, h)), λ (e, h). absurd (ground (arith, e)))
  cons n (some q) parsed loaded (r ∷ rs) x =
      let sum : n + length (r ∷ rs) ≡ n + 1 + length rs = omega arith in
      let (to, from) = x rs in
      rw sum (
        λ h. let e : loaded ≡ some rs = ground (arith, h) in ground (arith, h, to e),
        λ (e, h). let l : loaded ≡ some rs = from (ground (arith, e), h) in ground (arith, e, l),
      )

  load_lines-AreRead :
      (n : ℕ) (lines : List Text) (recs : List (Record S))
      → at_limit limit n ≡ false
      → (load_lines unmarshal failed limit n lines ≡ some recs) ↔ AreRead n lines recs
  load_lines-AreRead n [] recs under = rw (within-nil limit n) (ended n recs)
  load_lines-AreRead n (line ∷ lines) recs under = elim (Bool-cases (at_limit limit (n + 1))) [
    | inl full ↦
        rw (within-last limit n line lines under full, load_lines-cons n line lines true full)
          (cons n (unmarshal line) [] _ recs (ended (n + 1)))
    | inr more ↦
        rw (within-next limit n line lines more, load_lines-cons n line lines false more)
          (cons n (unmarshal line) _ _ recs (λ rs. load_lines-AreRead (n + 1) lines rs more))
  ]

module _ {S : Type 0} where
  -- A file that opens is loaded without an error, as some records, exactly when the lines that are
  -- read give just these records, in order, and the scanner has met no error after as many. The lines
  -- that are read are the first of the file, as many as the limit says, when it is positive, and all
  -- of them otherwise.
  pub load_jsonl-AreRead :
      (open_lines : Text → Option (List Text)) (unmarshal : Text → Option (Record S))
      (failed : ℕ → Bool) (path : Text) (limit : ℤ) (lines : List Text) (recs : List (Record S))
      → open_lines path ≡ some lines
      → (load_jsonl open_lines unmarshal failed path limit ≡ some recs) ↔ (
          (map unmarshal (limited limit lines) ≡ map (λ r. some r) recs)
          × (failed (length recs) ≡ false))
  unfolding load_jsonl
  load_jsonl-AreRead open_lines unmarshal failed path limit lines recs opened =
      let sum : 0 + length recs ≡ length recs = omega arith in
      rw (load_jsonl, opened, ← within-zero limit lines, ← sum)
        (load_lines-AreRead unmarshal failed limit 0 lines recs (none_yet limit))
    where
      none_yet : (l : ℤ) → at_limit l 0 ≡ false
      none_yet (pos zero) = refl
      none_yet (pos (suc m)) = ground arith
      none_yet (negsuc m) = refl
