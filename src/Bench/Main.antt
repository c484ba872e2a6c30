-- ===== src/Bench/Main.antt =====
-- bench/main.go: the runs of the two arms, their tables and the verdict. Files, JSON and the format of
-- floats are arguments; the lines printed on the way and the times are not modelled. A flag that the
-- code takes as an int and compares with 0 is a ℤ.
use semblance.Bench.Replay.{Arm, static, verified, is_verified, RunResult, run_arm}
use semblance.Bench.Scan.{Record}
use semblance.Double.{Double, Single}
use semblance.Prelude.{
  ℤ, pos, negsuc, ℕ, zero, suc, ◌+◌, Bool, false, not, ◌&&◌, ◌||◌, List, [], ◌∷◌, ◌++◌, map, foldl,
  Option, none, some, if◌then◌else◌, leb, ◌==◌, length,
}
use semblance.Text.{Text, codes, text_eq, format_uint}

pub record ResultsFile (F : Type 0) : Type 0 where
  pub dataset : Text
  pub n : ℕ
  pub capacity : ℕ
  pub seed : ℤ
  pub workers : ℕ
  pub n_min : ℕ
  pub runs : List (RunResult F)

-- `limit > 0 && n >= limit`.
abbrev pub at_limit : ℤ → ℕ → Bool
at_limit (pos zero) n = false
at_limit (pos (suc m)) n = leb (suc m) n
at_limit (negsuc m) n = false

-- The loop of `loadJSONL` on the scanner's lines, with `n` records read; `failed k` says that the
-- scanner has met an error when its loop ends after `k` records. `none` is an error.
unfoldable pub load_lines :
    {S : Type 0}
    → (Text → Option (Record S))
    → (ℕ → Bool)
    → ℤ
    → ℕ
    → List Text
    → Option (List (Record S))
load_lines unmarshal failed limit n [] = if failed n then none else some []
load_lines unmarshal failed limit n (line ∷ lines) =
    let rest = load_lines unmarshal failed limit (n + 1) lines in
    elim (unmarshal line) [
      | none ↦ none
      | some rec ↦
          elim (if at_limit limit (n + 1)
            then (if failed (n + 1) then none else some [])
            else rest) [ none ↦ none | some recs ↦ some (rec ∷ recs) ]
    ]

-- `open path` is the file's lines.
unfoldable pub load_jsonl :
    {S : Type 0}
    → (Text → Option (List Text))
    → (Text → Option (Record S))
    → (ℕ → Bool)
    → Text
    → ℤ
    → Option (List (Record S))
load_jsonl open_lines unmarshal failed path limit = elim (open_lines path) [
  | none ↦ none
  | some lines ↦ load_lines unmarshal failed limit 0 lines
]

unfoldable pub capacity_label : ℕ → Text
capacity_label capacity = if capacity == 0 then codes "unbounded" else format_uint capacity

module _ {F : Type 0} ⦃d : Double F⦄ where
  open d use {lt, lit}

  abbrev pub thresholds : List F
  thresholds =
      lit 80 2
      ∷ lit 83 2
      ∷ lit 86 2
      ∷ lit 89 2
      ∷ lit 92 2
      ∷ lit 95 2
      ∷ lit 97 2
      ∷ lit 98 2
      ∷ lit 99 2
      ∷ []

  abbrev pub deltas : List F
  deltas = lit 1 2 ∷ lit 2 2 ∷ lit 3 2 ∷ lit 5 2 ∷ []

  -- "static" comes before "verified".
  unfoldable pub less : RunResult F → RunResult F → Bool
  less r q =
      if is_verified r.arm && is_verified q.arm || not (is_verified r.arm || is_verified q.arm)
      then lt r.param q.param
      else is_verified q.arm

  -- Behind every element that it is not less than.
  unfoldable pub place : RunResult F → List (RunResult F) → List (RunResult F)
  place r [] = r ∷ []
  place r (q ∷ qs) = let rest = place r qs in if less r q then r ∷ q ∷ qs else q ∷ rest

  -- A stable sort.
  unfoldable pub sort_stable : List (RunResult F) → List (RunResult F)
  unfolding place
  sort_stable runs = foldl (λ sorted r. place r sorted) [] runs

  -- The fields of a line of the table, which commas separate; `fixed p` prints `p` decimals.
  unfoldable pub csv_fields : (ℕ → F → Text) → RunResult F → List Text
  csv_fields fixed r =
      let v = is_verified r.arm in
      (if v then codes "verified" else codes "static")
      ∷ fixed 4 r.param
      ∷ (if v then fixed 4 r.delta else [])
      ∷ (if v then format_uint r.n_min else [])
      ∷ format_uint r.n
      ∷ format_uint r.tp
      ∷ format_uint r.fp
      ∷ format_uint r.exploits
      ∷ format_uint r.explores
      ∷ fixed 6 r.hit_rate
      ∷ fixed 6 r.hit_lo
      ∷ fixed 6 r.hit_hi
      ∷ fixed 6 r.error_rate
      ∷ fixed 6 r.error_lo
      ∷ fixed 6 r.error_hi
      ∷ format_uint r.entries_final
      ∷ (if v then (if r.within_delta then codes "true" else codes "false") else [])
      ∷ []

  unfoldable pub csv_table : (ℕ → F → Text) → List (RunResult F) → List (List Text)
  unfolding csv_fields
  csv_table fixed runs = map (csv_fields fixed) (sort_stable runs)

  unfoldable pub breached : List (RunResult F) → List (RunResult F)
  breached [] = []
  breached (r ∷ rs) =
      let rest = breached rs in if is_verified r.arm && not r.within_delta then r ∷ rest else rest

-- The last lines of `main`.
abbrev pub exit_code : {F : Type 0} → List (RunResult F) → ℕ
exit_code [] = 0
exit_code (r ∷ rs) = 2

pub record Flags : Type 0 where
  pub input : Text
  pub limit : ℤ
  pub capacity : ℕ
  pub seed : ℤ
  pub workers : ℕ
  pub n_min : ℕ
  pub arm : Text

module _ {F S R : Type 0} ⦃d : Double F⦄ ⦃f : Single F S⦄ (float64 : R → F × R)
    (new_source : ℤ → R) where
  -- One run for each parameter, each with a source of its own.
  unfoldable pub run_each : Flags → Arm → List (Record S) → List F → List (RunResult F)
  run_each o arm records params =
      map
        (λ p.
          run_arm float64
            (record {
              arm = arm;
              param = p;
              capacity = o.capacity;
              workers = o.workers;
              n_min = o.n_min;
            })
            (new_source o.seed) records)
        params

  unfoldable pub run_all : Flags → List (Record S) → List (RunResult F)
  unfolding run_each
  run_all o records =
      let both = text_eq o.arm (codes "both") in
      (if both || text_eq o.arm (codes "static") then run_each o static records thresholds else [])
      ++ (if both || text_eq o.arm (codes "verified")
          then run_each o verified records deltas
          else [])

  abbrev pub summary : Flags → List (Record S) → ResultsFile F
  summary o records = record {
    dataset = o.input;
    n = length records;
    capacity = o.capacity;
    seed = o.seed;
    workers = o.workers;
    n_min = o.n_min;
    runs = run_all o records;
  }

  -- The exit status. The writes say whether they succeeded; the sort of `write_csv` is in place, so
  -- the verdict goes over the sorted runs.
  unfoldable pub main :
      Flags → Option (List (Record S)) → (ResultsFile F → Bool) → (List (RunResult F) → Bool) → ℕ
  unfolding run_all
  main o none write_json write_csv = 1
  main o (some []) write_json write_csv = 1
  main o (some (rec ∷ recs)) write_json write_csv =
      let runs = run_all o (rec ∷ recs) in
      if not (write_json (summary o (rec ∷ recs)))
      then 1
      else if not (write_csv (sort_stable runs))
      then 1
      else exit_code (breached (sort_stable runs))
