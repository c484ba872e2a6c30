-- ===== src/Bench/Counts.antt =====
-- bench/replay.go: the counters of `runArm`.
use semblance.Bench.Replay.{
  State, Settings, choose, exploit, learn, cold_miss, replay, replay_all, start, score, run_arm,
}
use semblance.Bench.Scan.{Record, Entry, nearest}
use semblance.Cache.Vector.{normalize}
use semblance.Double.{Double, Single}
use semblance.Policy.Decide.{Policy}
use semblance.Prelude.{
  ℕ, ◌+◌, ◌≡◌, refl, inl, inr, List, [], ◌∷◌, some, arith, length, get_elem?, Bool-cases,
  Option-cases,
}

abbrev handled : {F S R : Type 0} → State F S R → ℕ
handled st = st.tp + st.fp + st.explores

module _ {F S R : Type 0} ⦃d : Double F⦄ where
  exploit-handled :
      (st : State F S R) (e : Entry F S) (qid : ℕ) → handled (exploit st e qid) ≡ handled st + 1
  unfolding exploit
  exploit-handled st e qid = ground arith

  learn-handled :
      (c : Settings F) (st : State F S R) (i : ℕ) (e : Entry F S) (sim : F) (q : List S) (qid : ℕ)
      → handled (learn c st i e sim q qid) ≡ handled st + 1
  unfolding learn
  learn-handled c st i e sim q qid = omega arith

  cold_miss-handled :
      (c : Settings F) (st : State F S R) (q : List S) (qid : ℕ)
      → handled (cold_miss c st q qid) ≡ handled st + 1
  unfolding cold_miss
  cold_miss-handled c st q qid = omega arith

module _ {F S R : Type 0} ⦃d : Double F⦄ ⦃f : Single F S⦄ (float64 : R → F × R)
    (c : Settings F) where
  -- What holds after each of the three ends of the loop's body holds after it.
  pub replay_induction :
      (P : State F S R → Type 0) (st : State F S R) (r : Record S)
      → P (cold_miss c st (normalize F r.embedding) r.id_set)
      → ((i : ℕ) (e : Entry F S) (pol : Policy F R)
          → get_elem? st.entries i ≡ some e
          → P (exploit (record st { pol = pol }) e r.id_set))
      → ((i : ℕ) (e : Entry F S) (pol : Policy F R) (sim : F)
          → get_elem? st.entries i ≡ some e
          → P (learn c (record st { pol = pol }) i e sim (normalize F r.embedding) r.id_set))
      → P (replay float64 c st r)
  unfolding replay
  replay_induction P st r cold hit miss =
      let q = normalize F r.embedding in
      let sim = (nearest q st.entries c.workers).1 in
      elim (Option-cases (nearest q st.entries c.workers).0) [
        | inl lost ↦ rw (lost, replay) cold
        | inr (i, found) ↦ (elim (Option-cases (get_elem? st.entries i)) [
          | inl gone ↦ rw (found, replay, gone) cold
          | inr (e, there) ↦
              let pol = (choose float64 c.arm c.param st.pol e sim).1 in
              (elim (Bool-cases (choose float64 c.arm c.param st.pol e sim).0) [
                | inl serve ↦ rw (found, replay, there, serve) (hit i e pol there)
                | inr skip ↦ rw (found, replay, there, skip) (miss i e pol sim there)
              ])
        ])
      ]

  replay-handled :
      (st : State F S R) (r : Record S) → handled (replay float64 c st r) ≡ handled st + 1
  replay-handled st r =
      let q = normalize F r.embedding in
      replay_induction (λ st'. handled st' ≡ handled st + 1) st r
        (cold_miss-handled c st q r.id_set)
        (λ i e pol there. exploit-handled (record st { pol = pol }) e r.id_set)
        (λ i e pol sim there. learn-handled c (record st { pol = pol }) i e sim q r.id_set)

  replay_all-handled :
      (st : State F S R) (rs : List (Record S))
      → handled (replay_all float64 c st rs) ≡ handled st + length rs
  unfolding replay_all
  replay_all-handled st [] = omega arith
  replay_all-handled st (r ∷ rs) =
      omega (arith, replay_all-handled (replay float64 c st r) rs, replay-handled st r)

  -- Each record is either served or explored: the exploits are the right and the wrong ones
  -- together, and with the explores they are the number of records.
  pub run_arm-counts :
      (rand : R) (records : List (Record S))
      → let res = run_arm float64 c rand records in
        (res.exploits ≡ res.tp + res.fp)
        × (res.exploits + res.explores ≡ length records)
        × (res.n ≡ length records)
  unfolding run_arm score start
  run_arm-counts rand records =
      (refl, omega (arith, replay_all-handled (start float64 c rand) records), refl)
