-- ===== src/Bench/Verdict.antt =====
-- The verdict of bench/main.go.
use semblance.Bench.Main.{
  Flags, ResultsFile, thresholds, deltas, less, place, sort_stable, breached, exit_code, run_each,
  run_all, main, summary,
}
use semblance.Bench.Replay.{static, verified, is_verified, RunResult, run_arm, score}
use semblance.Bench.Scan.{Record}
use semblance.Cache.Valid.{All}
use semblance.Double.{Double, Single}
use semblance.Prelude.{
  ℤ, ◌≡◌, ◌↔◌, ◌⊎◌, inl, inr, refl, Bool, true, false, not, ◌&&◌, ◌||◌, List, [], ◌∷◌, ◌++◌, foldl,
  some, arith, if◌then◌else◌, Bool-cases,
}
use semblance.Text.{codes, text_eq}

module _ {F : Type 0} ⦃d : Double F⦄ where
  -- A verified run that exceeds its bound.
  abbrev IsWithin : RunResult F → Type 0
  IsWithin r = (is_verified r.arm && not r.within_delta) ≡ false

  place-All :
      (r : RunResult F) (rs : List (RunResult F))
      → All IsWithin (place r rs) ↔ (IsWithin r × All IsWithin rs)
  unfolding place
  place-All r [] = (λ x. x, λ x. x)
  place-All r (q ∷ qs) = elim (Bool-cases (less r q)) [
    | inl before ↦ rw (place, before) (λ x. x, λ x. x)
    | inr after ↦
        let (to, from) = place-All r qs in
        simp after (λ (p, ps). let (a, b) = to ps in (a, (p, b)), λ (a, (p, b)). (p, from (a, b)))
  ]

  breached-All : (rs : List (RunResult F)) → (breached rs ≡ []) ↔ All IsWithin rs
  unfolding breached
  breached-All [] = (λ h. tt, λ h. refl)
  breached-All (r ∷ rs) = elim (Bool-cases (is_verified r.arm && not r.within_delta)) [
    | inl bad ↦ (λ h. absurd (ground (arith, bad, h)), λ (p, ps). absurd (ground (arith, bad, p)))
    | inr fine ↦
        let (to, from) = breached-All rs in
        (λ h. (fine, to (ground (arith, fine, h))), λ (p, ps). ground (arith, fine, from ps))
  ]

  if_All :
      (b : Bool) (rs : List (RunResult F)) → All IsWithin rs → All IsWithin (if b then rs else [])
  if_All true rs x = x
  if_All false rs x = tt

  exit_code-cases :
      (bad : List (RunResult F)) (A : Type 0)
      → (bad ≡ [] → A)
      → (A → bad ≡ [])
      → ((exit_code bad ≡ 0) ⊎ (exit_code bad ≡ 2)) × ((exit_code bad ≡ 0) ↔ A)
  exit_code-cases [] A to from = (inl refl, (λ h. to refl, λ x. refl))
  exit_code-cases (r ∷ rs) A to from =
      (inr refl, (λ h. absurd (ground (arith, h)), λ x. absurd (cc (from x))))

  sort-All :
      (rs acc : List (RunResult F))
      → All IsWithin (foldl (λ sorted r. place r sorted) acc rs)
        ↔ (All IsWithin acc × All IsWithin rs)
  sort-All [] acc = (λ x. (x, tt), λ (x, _). x)
  sort-All (r ∷ rs) acc =
      let (to, from) = sort-All rs (place r acc) in
      let (there, back) = place-All r acc in
      (
        λ x. let (a, b) = to x in let (p, q) = there a in (q, (p, b)),
        λ (q, (p, b)). from (back (p, q), b),
      )

  append-All :
      (rs qs : List (RunResult F)) → All IsWithin (rs ++ qs) ↔ (All IsWithin rs × All IsWithin qs)
  append-All [] qs = (λ x. (tt, x), λ (_, x). x)
  append-All (r ∷ rs) qs =
      let (to, from) = append-All rs qs in
      (λ (p, x). let (a, b) = to x in ((p, a), b), λ ((p, a), b). (p, from (a, b)))

  sort_stable-All : (rs : List (RunResult F)) → All IsWithin (sort_stable rs) ↔ All IsWithin rs
  unfolding sort_stable
  sort_stable-All rs = let (to, from) = sort-All rs [] in (λ x. (to x).1, λ x. from (tt, x))

module _ {F S R : Type 0} ⦃d : Double F⦄ ⦃f : Single F S⦄ (float64 : R → F × R)
    (new_source : ℤ → R) where
  -- The run of the verified arm for the error bound `p`.
  abbrev pub verified_run : Flags → List (Record S) → F → RunResult F
  verified_run o records p =
      run_arm float64
        (record {
          arm = verified;
          param = p;
          capacity = o.capacity;
          workers = o.workers;
          n_min = o.n_min;
        })
        (new_source o.seed) records

  -- Static runs have no bound.
  static-All :
      (o : Flags) (records : List (Record S)) (params : List F)
      → All IsWithin (run_each float64 new_source o static records params)
  unfolding run_each run_arm score
  static-All o records [] = tt
  static-All o records (p ∷ ps) = (refl, static-All o records ps)

  verified-All :
      (o : Flags) (records : List (Record S)) (params : List F)
      → All IsWithin (run_each float64 new_source o verified records params)
        ↔ All (λ p. (verified_run o records p).within_delta ≡ true) params
  unfolding run_each run_arm score
  verified-All o records [] = (λ x. x, λ x. x)
  verified-All o records (p ∷ ps) =
      let (to, from) = verified-All o records ps in
      (λ (a, x). (ground (arith, a), to x), λ (a, x). (ground (arith, a), from x))

  run_all-All :
      (o : Flags) (records : List (Record S))
      → (text_eq o.arm (codes "both") || text_eq o.arm (codes "verified")) ≡ true
      → All IsWithin (run_all float64 new_source o records)
        ↔ All (λ p. (verified_run o records p).within_delta ≡ true) deltas
  unfolding run_all
  run_all-All o records chosen =
      let b = text_eq o.arm (codes "both") || text_eq o.arm (codes "static") in
      let first = if b then run_each float64 new_source o static records thresholds else [] in
      let (to, from) = verified-All o records deltas in
      let (split, join) =
        append-All first (run_each float64 new_source o verified records deltas) in
      let firsts : All IsWithin first = if_All b _ (static-All o records thresholds) in
      rw (chosen) (λ x. to (split x).1, λ x. join (firsts, from x))

  -- With records, with both files written, and with the verified arm among the runs, the exit status
  -- is 0 exactly when for each of the four bounds the verified arm's run is within it, and otherwise
  -- it is 2.
  pub main-verdict :
      (o : Flags) (rec : Record S) (recs : List (Record S)) (write_json : ResultsFile F → Bool)
      (write_csv : List (RunResult F) → Bool)
      → (text_eq o.arm (codes "both") || text_eq o.arm (codes "verified")) ≡ true
      → ((x : ResultsFile F) → write_json x ≡ true)
      → ((x : List (RunResult F)) → write_csv x ≡ true)
      → let status = main float64 new_source o (some (rec ∷ recs)) write_json write_csv in
        ((status ≡ 0) ⊎ (status ≡ 2))
        × ((status ≡ 0) ↔ All (λ p. (verified_run o (rec ∷ recs) p).within_delta ≡ true) deltas)
  unfolding main
  main-verdict o rec recs write_json write_csv chosen json csv =
      let runs = run_all float64 new_source o (rec ∷ recs) in
      let (b_to, b_from) = breached-All (sort_stable runs) in
      let (s_to, s_from) = sort_stable-All runs in
      let (to, from) = run_all-All o (rec ∷ recs) chosen in
      rw (json (summary float64 new_source o (rec ∷ recs)), csv (sort_stable runs))
        (exit_code-cases (breached (sort_stable runs)) _ (λ e. to (s_to (b_to e)))
          (λ x. b_from (s_from (from x))))
