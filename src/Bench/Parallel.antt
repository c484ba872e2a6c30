-- ===== src/Bench/Parallel.antt =====
-- bench/replay.go: `nearest`, which gives parts of the scan to workers and combines their results.
use native.Mathlib.Nat.{lt-div-mul-add}
use semblance.Bench.Scan.{
  Best, no_best, range_loop, nearest_range, worker_result, combine, nearest_of, par_threshold,
}
use semblance.Policy.Logistic.{nought}
use semblance.Double.{Double, IsOrdered}
use semblance.Prelude.{
  ℕ, zero, suc, ◌+◌, ◌-◌, ◌*◌, ◌/◌, ◌<◌, ◌≤◌, ◌≡◌, refl, sym, ap, ap₂, ◌∙◌, inl, inr, false, none,
  some, arith, if◌then◌else◌, ◌==◌, ltb, leb, ◌||◌, Bool-cases,
}

module _ {F : Type 0} ⦃d : Double F⦄ where
  open d use {lt, neg_inf, is_nan}

  merge : Best F → Best F → Best F
  merge best r = elim r.0 [ none ↦ best | some i ↦ if lt best.1 r.1 then r else best ]

  -- Nothing found yet, or a similarity that is a number.
  IsBest : Best F → Type 0
  IsBest (none, s) = s ≡ neg_inf
  IsBest (some i, s) = is_nan s ≡ false

  round : Best F → F → ℕ → Best F
  round best s k = if lt best.1 s then (some k, s) else best

module _ {F : Type 0} ⦃d : Double F⦄ (laws : IsOrdered F) (sim_at : ℕ → F) where
  open d use {lt, neg_inf, is_nan}
  open laws use {lt_num, lt_irrefl, lt_trans, lt_cotrans, neg_inf_lt}

  range_loop-eq :
      (a b k l : ℕ) (best : Best F)
      → a ≡ b
      → k ≡ l
      → range_loop sim_at a k best ≡ range_loop sim_at b l best
  range_loop-eq a b k l best h h' = ap₂ (λ (c x : ℕ). range_loop sim_at c x best) h h'

  range_loop-add :
      (a b k : ℕ) (best : Best F)
      → range_loop sim_at (a + b) k best ≡ range_loop sim_at b (k + a) (range_loop sim_at a k best)
  unfolding range_loop round
  range_loop-add zero b k best = range_loop-eq (0 + b) b k (k + 0) best (omega arith) (omega arith)
  range_loop-add (suc a) b k best =
      let best' = round best (sim_at k) k in
      let shift : suc a + b ≡ suc (a + b) = omega arith in
      ap (λ (c : ℕ). range_loop sim_at c k best) shift
      ∙ range_loop-add a b (k + 1) best'
      ∙ ap (λ (x : ℕ). range_loop sim_at b x (range_loop sim_at a (k + 1) best')) (omega arith)

  round-IsBest : (r : Best F) (s : F) (k : ℕ) → IsBest r → IsBest (round r s k)
  unfolding IsBest round
  round-IsBest (o, v) s k h = elim (Bool-cases (lt v s)) [
    | inl more ↦ rw more (lt_num v s more).1
    | inr less ↦ rw less h
  ]

  merge-round :
      (best r : Best F) (s : F) (k : ℕ)
      → IsBest r
      → merge best (round r s k) ≡ round (merge best r) s k
  unfolding merge IsBest round
  merge-round (b, u) (none, v) s k h = ground (arith, neg_inf_lt u s)
  merge-round (b, u) (some i, v) s k h = ground (arith, lt_trans u v s, lt_cotrans u v s h)

  merge-range_loop :
      (n k : ℕ) (best r : Best F)
      → IsBest r
      → merge best (range_loop sim_at n k r) ≡ range_loop sim_at n k (merge best r)
  unfolding range_loop round
  merge-range_loop zero k best r h = refl
  merge-range_loop (suc n) k best r h =
      merge-range_loop n (k + 1) best (round r (sim_at k) k) (round-IsBest r (sim_at k) k h)
      ∙ ap (λ (x : Best F). range_loop sim_at n (k + 1) x) (merge-round best r (sim_at k) k h)

  merge-no_best :
      (n k : ℕ) (best : Best F)
      → merge best (range_loop sim_at n k no_best) ≡ range_loop sim_at n k best
  unfolding IsBest merge
  merge-no_best n k best = merge-range_loop n k best no_best refl

  module _ (n chunk : ℕ) where
    merge-share :
        (lo : ℕ) (best : Best F)
        → range_loop sim_at (n - lo) lo best
          ≡ range_loop sim_at (n - (lo + chunk)) (lo + chunk) (
              merge best (
                if leb n lo
                then no_best
                else nearest_range sim_at lo (if ltb n (lo + chunk) then n else lo + chunk)))
    unfolding nearest_range range_loop merge
    merge-share lo best = elim (Bool-cases (leb n lo)) [
      | inl past ↦ rw past (
          range_loop-eq (n - lo) 0 lo lo best (ground arith) refl
          ∙ sym (
              range_loop-eq (n - (lo + chunk)) 0 (lo + chunk) (lo + chunk) best (ground arith)
                refl))
      | inr before ↦ (elim (Bool-cases (ltb n (lo + chunk))) [
        | inl last ↦
            rw (before, last)
              (sym (merge-no_best (n - lo) lo best)
                ∙ sym (
                    range_loop-eq (n - (lo + chunk)) 0 (lo + chunk) (lo + chunk)
                      (merge best (range_loop sim_at (n - lo) lo no_best)) (ground arith) refl))
        | inr inner ↦
            rw (before, inner)
              (range_loop-eq (n - lo) (chunk + (n - (lo + chunk))) lo lo best (ground arith) refl
                ∙ range_loop-add chunk (n - (lo + chunk)) lo best
                ∙ ap (λ (x : Best F). range_loop sim_at (n - (lo + chunk)) (lo + chunk) x)
                    (sym (merge-no_best chunk lo best)
                      ∙ ap (λ (r : Best F). merge best r)
                          (range_loop-eq chunk ((if false then n else lo + chunk) - lo) lo lo
                            no_best (omega arith) refl)))
      ])
    ]

    -- To merge a worker's result is to scan its share.
    merge-worker_result :
        (w : ℕ) (best : Best F)
        → range_loop sim_at (n - w * chunk) (w * chunk) best
          ≡ range_loop sim_at
              (n - (w + 1) * chunk)
              ((w + 1) * chunk)
              (merge best (worker_result sim_at n chunk w))
    unfolding worker_result
    merge-worker_result w best =
        merge-share (w * chunk) best
        ∙ range_loop-eq (n - (w * chunk + chunk)) (n - (w + 1) * chunk) (w * chunk + chunk)
            ((w + 1) * chunk) (merge best (worker_result sim_at n chunk w)) (omega arith)
            (omega arith)

    -- The results of `left` workers from `w` on, combined, are the scan of what they share.
    combine-range_loop :
        (left w : ℕ) (best : Best F)
        → n ≤ (w + left) * chunk
        → combine (worker_result sim_at n chunk) left w best
          ≡ range_loop sim_at (n - w * chunk) (w * chunk) best
    unfolding combine merge range_loop
    combine-range_loop zero w best enough =
        sym (range_loop-eq (n - w * chunk) 0 (w * chunk) (w * chunk) best (omega arith) refl)
    combine-range_loop (suc left) w best enough =
        combine-range_loop left (w + 1) (merge best (worker_result sim_at n chunk w)) (omega arith)
        ∙ sym (merge-worker_result w best)

  -- The workers' shares cover the entries.
  shares-cover : (n workers : ℕ) → 1 < workers → n ≤ (0 + workers) * ((n + workers - 1) / workers)
  shares-cover n workers h =
      let a = n + workers - 1 in
      let room : a < a / workers * workers + workers = lt-div-mul-add (omega arith) in omega arith

  -- Whatever the number of workers, the index and the similarity found are those of the serial scan.
  pub nearest_of-serial :
      (n workers : ℕ)
      → nearest_of sim_at n workers ≡ (if n == 0 then (none, nought) else nearest_range sim_at 0 n)
  unfolding nearest_of nearest_range
  nearest_of-serial n workers = elim (Bool-cases (ltb n par_threshold || leb workers 1)) [
    | inl serial ↦ rw serial refl
    | inr parallel ↦
        rw
          (
            parallel,
            combine-range_loop n ((n + workers - 1) / workers) workers 0 no_best
                (shares-cover n workers (ground arith)),
          )
          (ap (λ (r : Best F). if n == 0 then (none, nought) else r)
            (range_loop-eq (n - 0 * ((n + workers - 1) / workers)) (n - 0)
              (0 * ((n + workers - 1) / workers)) 0 no_best (omega arith) (omega arith)))
  ]
