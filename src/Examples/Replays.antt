-- ===== src/Examples/Replays.antt =====
-- Replays of bench/replay.go on a few records.
use semblance.Bench.Bounds.{IsBounded, run_arm-entries_final, replay_all-IsBounded}
use semblance.Bench.Counts.{run_arm-counts}
use semblance.Bench.Parallel.{nearest_of-serial}
use semblance.Bench.Replay.{Arm, Settings, start, replay_all, run_arm}
use semblance.Bench.Scan.{Record, nearest_range, nearest_of, range_loop}
use semblance.Bench.Serial.{IsNearest, nearest_range-IsNearest}
use semblance.Examples.Fixed.{Fixed, num, fixed, single_fixed, fixed-IsOrdered}
use semblance.Policy.Logistic.{nought}
use semblance.Prelude.{
  ℕ, ◌+◌, ◌≤◌, ◌≡◌, refl, List, [], ◌∷◌, none, some, arith, length, if◌then◌else◌, ◌==◌,
}

abbrev pub half : ℕ → Fixed × ℕ
half n = (num 1000000500, n + 1)

abbrev settings : Settings Fixed
settings = record {
  arm = Arm.verified;
  param = num 1000000100;
  capacity = 2;
  workers = 4;
  n_min = 5;
}

abbrev pub records : List (Record Fixed)
records =
    record { id_set = 1; embedding = num 1000001000 ∷ num 1000000000 ∷ [] }
    ∷ record { id_set = 2; embedding = num 1000000000 ∷ num 1000001000 ∷ [] }
    ∷ record { id_set = 1; embedding = num 1000001000 ∷ num 1000000000 ∷ [] }
    ∷ record { id_set = 3; embedding = num 1000001000 ∷ num 1000001000 ∷ [] }
    ∷ []

run_arm-counts_example :
    let res = run_arm half settings 0 records in
    (res.exploits ≡ res.tp + res.fp)
    × (res.exploits + res.explores ≡ length records)
    × (res.n ≡ length records)
run_arm-counts_example = run_arm-counts half settings 0 records

run_arm-entries_final_example : (run_arm half settings 0 records).entries_final ≤ 2
run_arm-entries_final_example = run_arm-entries_final half settings 0 records (omega arith)

replay_all-IsBounded_example :
    IsBounded (replay_all half settings (start half settings 0) records).entries
replay_all-IsBounded_example = replay_all-IsBounded half settings 0 records

-- Similarities 0, 0.001, ..., with the largest at 4999.
abbrev ramp : ℕ → Fixed
ramp k = num (1000000000 + k)

nearest_of-serial_example :
    nearest_of ramp 5000 3 ≡ (if 5000 == 0 then (none, nought) else nearest_range ramp 0 5000)
nearest_of-serial_example = nearest_of-serial fixed-IsOrdered ramp 5000 3

nearest_range-IsNearest_example : IsNearest ramp 4 (nearest_range ramp 0 4)
nearest_range-IsNearest_example = nearest_range-IsNearest fixed-IsOrdered ramp 4

nearest_range_test : nearest_range ramp 0 4 ≡ (some 3, num 1000000003)
unfolding nearest_range range_loop
nearest_range_test = refl
