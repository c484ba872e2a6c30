-- ===== src/Bench/Replay.antt =====
-- bench/replay.go: one arm of the replay, and its score.
use semblance.Bench.Scan.{Record, Entry, append_obs, insert_entry, nearest}
use semblance.Cache.Vector.{normalize}
use semblance.Double.{Double, Single}
use semblance.Policy.Decide.{Policy, new_policy, decide}
use semblance.Policy.Logistic.{nought, one}
use semblance.Prelude.{
  ℕ, ◌+◌, Bool, true, false, not, List, [], ◌∷◌, none, some, if◌then◌else◌, ◌==◌, length, get_elem?,
  set, ◌&&◌,
}

pub data Arm : Type 0 where
  static verified : Arm

pub record State (F S R : Type 0) : Type 0 where
  pub entries : List (Entry F S)
  pub tp : ℕ
  pub fp : ℕ
  pub explores : ℕ
  pub pol : Policy F R

-- The parameters of a run.
pub record Settings (F : Type 0) : Type 0 where
  pub arm : Arm
  pub param : F
  pub capacity : ℕ
  pub workers : ℕ
  pub n_min : ℕ

module _ {F S R : Type 0} ⦃d : Double F⦄ (float64 : R → F × R) where
  -- Whether to serve the entry, and the policy afterwards; the static arm draws nothing.
  unfoldable pub choose : Arm → F → Policy F R → Entry F S → F → Bool × Policy F R
  choose static param pol e sim = (d.le param sim, pol)
  choose verified param pol e sim =
      let (r, pol') = decide float64 pol e.obs sim in (not r.explore, pol')

module _ {F S R : Type 0} ⦃d : Double F⦄ where
  -- EXPLOIT: the served entry is right exactly if the labels agree.
  unfoldable pub exploit : State F S R → Entry F S → ℕ → State F S R
  exploit st e qid =
      if e.id_set == qid then record st { tp = st.tp + 1 } else record st { fp = st.fp + 1 }

  -- EXPLORE with the neighbour `e` at the index `i`.
  unfoldable pub learn : Settings F → State F S R → ℕ → Entry F S → F → List S → ℕ → State F S R
  learn c st i e sim q qid =
      let correct = e.id_set == qid in
      let observed =
        set st.entries i (record e { obs = append_obs e.obs (record { s = sim; c = correct }) }) in
      record st {
        explores = st.explores + 1;
        entries = elim c.arm [
          | static ↦ insert_entry st.entries q qid c.capacity
          | verified ↦ if correct then observed else insert_entry observed q qid c.capacity
        ];
      }

  -- A miss with no neighbour.
  unfoldable pub cold_miss : Settings F → State F S R → List S → ℕ → State F S R
  cold_miss c st q qid = record st {
    explores = st.explores + 1;
    entries = insert_entry st.entries q qid c.capacity;
  }

module _ {F S R : Type 0} ⦃d : Double F⦄ ⦃f : Single F S⦄ (float64 : R → F × R)
    (c : Settings F) where
  -- The body of the loop over the records.
  unfoldable pub replay : State F S R → Record S → State F S R
  replay st r =
      let q = normalize F r.embedding in
      let (bi, sim) = nearest q st.entries c.workers in
      elim bi [
        | none ↦ cold_miss c st q r.id_set
        | some i ↦ elim (get_elem? st.entries i) [
          | none ↦ cold_miss c st q r.id_set
          | some e ↦
              let (hit, pol) = choose float64 c.arm c.param st.pol e sim in
              let st' = record st { pol = pol } in
              if hit then exploit st' e r.id_set else learn c st' i e sim q r.id_set
        ]
      ]

  unfoldable pub replay_all : State F S R → List (Record S) → State F S R
  replay_all st [] = st
  replay_all st (r ∷ rs) = replay_all (replay st r) rs

  -- The state before the first record. The static arm never uses its policy.
  unfoldable pub start : R → State F S R
  start rand = record {
    entries = [];
    tp = 0;
    fp = 0;
    explores = 0;
    pol = record (new_policy c.param rand) { n_min = c.n_min };
  }

module _ {F : Type 0} ⦃d : Double F⦄ where
  open d use {add, sub, mul, div, sqrt, le, of_ℕ, lit}

  -- (lo, hi, p).
  unfoldable pub wilson : ℕ → ℕ → F → F × F × F
  wilson x n z =
      let nn = of_ℕ n in
      let p = div (of_ℕ x) nn in
      let denom = add one (div (mul z z) nn) in
      let center = div (add p (div (mul z z) (mul (of_ℕ 2) nn))) denom in
      let half =
        div
          (mul z
            (sqrt (add (div (mul p (sub one p)) nn) (div (mul z z) (mul (mul (of_ℕ 4) nn) nn)))))
          denom in
      if n == 0 then (nought, nought, nought) else (sub center half, add center half, p)

pub record RunResult (F : Type 0) : Type 0 where
  pub arm : Arm
  pub param : F
  pub delta : F
  pub n : ℕ
  pub tp : ℕ
  pub fp : ℕ
  pub exploits : ℕ
  pub explores : ℕ
  pub hit_rate : F
  pub hit_lo : F
  pub hit_hi : F
  pub error_rate : F
  pub error_lo : F
  pub error_hi : F
  pub entries_final : ℕ
  pub n_min : ℕ
  pub within_delta : Bool

abbrev pub is_verified : Arm → Bool
is_verified static = false
is_verified verified = true

module _ {F S R : Type 0} ⦃d : Double F⦄ where
  open d use {le, lit}

  -- The scored outcome of a run over `n` records that ended in the state `st`.
  unfoldable pub score : Settings F → ℕ → State F S R → RunResult F
  unfolding wilson
  score c n st =
      let z = lit 1959963985 9 in
      let (hit_lo, hit_hi, hit_rate) = wilson (st.tp + st.fp) n z in
      let (error_lo, error_hi, error_rate) = wilson st.fp n z in
      let v = is_verified c.arm in
      record {
        arm = c.arm;
        param = c.param;
        delta = if v then c.param else nought;
        n = n;
        tp = st.tp;
        fp = st.fp;
        exploits = st.tp + st.fp;
        explores = st.explores;
        hit_rate = hit_rate;
        hit_lo = hit_lo;
        hit_hi = hit_hi;
        error_rate = error_rate;
        error_lo = error_lo;
        error_hi = error_hi;
        entries_final = length st.entries;
        n_min = if v then c.n_min else 0;
        within_delta = v && le error_rate c.param;
      }

module _ {F S R : Type 0} ⦃d : Double F⦄ ⦃f : Single F S⦄ (float64 : R → F × R) where
  unfoldable pub run_arm : Settings F → R → List (Record S) → RunResult F
  unfolding replay_all start
  run_arm c rand records =
      score c (length records) (replay_all float64 c (start float64 c rand) records)
