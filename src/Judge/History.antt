-- ===== src/Judge/History.antt =====
-- The labeler of internal/judge/labeler.go with its history, under any interleaving of submitters,
-- workers and one `Close`.
use mathlib.Core.List.Perm
use mathlib.Core.List.{Perm, perm_middle, append-nil, append_assoc}
use semblance.Judge.Labeler.{
  Job, Labeler, at_least_one, new_labeler, submit, receive, finish, close,
}
use semblance.Judge.Verdict.{Judge, label}
use semblance.Prelude.{
  ℕ, suc, ◌+◌, ◌≤◌, ◌≡◌, refl, ap, subst, Bool, false, List, [], ◌∷◌, ◌++◌, map, some, arith,
  if◌then◌else◌, length, length-append,
}

-- The jobs in the order in which they were accepted and started, and the verdicts.
pub record Run (A : Type 0) : Type 0 where
  pub labeler : Labeler A
  pub offered : ℕ
  pub accepted : List (Job A)
  pub started : List (Job A)
  pub finished : List (Job A × Bool)

module _ {A : Type 0} where
  abbrev pub first_run : Labeler A → Run A
  first_run l = record { labeler = l; offered = 0; accepted = []; started = []; finished = [] }

  abbrev pub verdict : Judge → Job A → Job A × Bool
  verdict judge job = (job, label judge job.reference job.candidate)

  pub data Step (judge : Judge) : Run A → Run A → Type 0 where
    offer :
        (r : Run A) (job : Job A) (l : Labeler A) (taken : Bool)
        → submit r.labeler job ≡ some (l, taken)
        → Step judge r (record r {
          labeler = l;
          offered = suc r.offered;
          accepted = if taken then r.accepted ++ (job ∷ []) else r.accepted;
        })
    start :
        (r : Run A) (job : Job A) (l : Labeler A)
        → receive r.labeler ≡ some (l, job)
        → Step judge r (record r { labeler = l; started = r.started ++ (job ∷ []) })
    end :
        (r : Run A) (job : Job A) (before after : List (Job A))
        → r.labeler.running ≡ before ++ (job ∷ after)
        → Step judge r (record r {
          labeler = finish r.labeler before after;
          finished = verdict judge job ∷ r.finished;
        })
    shut :
        (r : Run A)
        → r.labeler.closed ≡ false
        → Step judge r (record r { labeler = close r.labeler })

  pub data Reach (judge : Judge) (r : Run A) : Run A → Type 0 where
    here : Reach judge r r
    next : {r' r'' : Run A} → Reach judge r r' → Step judge r' r'' → Reach judge r r''

  -- The jobs that have a verdict.
  abbrev pub jobs : List (Job A × Bool) → List (Job A)
  jobs = map (λ v. v.0)

  abbrev pub AreVerdicts : Judge → List (Job A × Bool) → Type 0
  AreVerdicts judge [] = Unit
  AreVerdicts judge (v ∷ vs) = (v ≡ verdict judge v.0) × AreVerdicts judge vs

  -- The queue is within its size and is what was accepted and not started, in order; each worker is
  -- idle or has one job; the jobs started are those running and those with a verdict; each verdict is
  -- the judge's; each job offered was accepted or counted as dropped.
  pub record IsRun (judge : Judge) (queue_size workers : ℕ) (r : Run A) : Type 0 where
    pub size_eq : r.labeler.queue_size ≡ queue_size
    pub within : length r.labeler.queue ≤ queue_size
    pub staffed : r.labeler.idle + length r.labeler.running ≡ workers
    pub in_order : r.started ++ r.labeler.queue ≡ r.accepted
    pub once : Perm r.started (r.labeler.running ++ jobs r.finished)
    pub judged : AreVerdicts judge r.finished
    pub counted : r.offered ≡ length r.accepted + r.labeler.dropped

  first_run-IsRun :
      (judge : Judge) (queue_size workers : ℕ)
      → IsRun judge
          (at_least_one queue_size)
          (at_least_one workers)
          (first_run (new_labeler queue_size workers))
  unfolding new_labeler
  first_run-IsRun judge queue_size workers = record {
    size_eq = refl;
    within = omega arith;
    staffed = omega arith;
    in_order = refl;
    once = Perm.nil;
    judged = tt;
    counted = omega arith;
  }

  offer-IsRun :
      (judge : Judge) (size workers : ℕ) (r : Run A) (job : Job A) (l : Labeler A) (taken : Bool)
      → IsRun judge size workers r
      → submit r.labeler job ≡ some (l, taken)
      → IsRun judge size workers (record r {
        labeler = l;
        offered = suc r.offered;
        accepted = if taken then r.accepted ++ (job ∷ []) else r.accepted;
      })
  unfolding submit
  offer-IsRun judge size workers r job l taken v h = record {
    size_eq = ground (arith, v.size_eq);
    within = ground (arith, v.within, v.size_eq, length-append r.labeler.queue (job ∷ []));
    staffed = ground (arith, v.staffed);
    in_order = ground (arith, v.in_order, append_assoc r.started r.labeler.queue (job ∷ []));
    once = subst (λ xs. Perm r.started (xs ++ jobs r.finished)) (ground arith) v.once;
    judged = v.judged;
    counted = ground (arith, v.counted, length-append r.accepted (job ∷ []));
  }

  perm_end : (job : Job A) (xs : List (Job A)) → Perm (xs ++ (job ∷ [])) (job ∷ xs)
  perm_end job xs =
      subst (λ ys. Perm (xs ++ (job ∷ [])) (job ∷ ys)) (append-nil xs) (perm_middle xs [])

  start-IsRun :
      (judge : Judge) (size workers : ℕ) (r : Run A) (job : Job A) (rest : List (Job A))
      (l : Labeler A)
      → IsRun judge size workers r
      → r.labeler.queue ≡ job ∷ rest
      → receive r.labeler ≡ some (l, job)
      → IsRun judge size workers (record r { labeler = l; started = r.started ++ (job ∷ []) })
  unfolding receive
  start-IsRun judge size workers r job rest l v q h =
      let busy : job ∷ r.labeler.running ≡ l.running = ground arith in
      record {
        size_eq = ground (arith, v.size_eq);
        within = ground (arith, v.within);
        staffed = ground (arith, v.staffed);
        in_order = ground (arith, v.in_order, append_assoc r.started (job ∷ []) rest);
        once =
            subst (λ xs. Perm (r.started ++ (job ∷ [])) (xs ++ jobs r.finished)) busy
              (Perm.trans (perm_end job r.started) (Perm.cons job v.once));
        judged = v.judged;
        counted = ground (arith, v.counted);
      }

  receive_queue :
      (l l' : Labeler A) (job : Job A)
      → receive l ≡ some (l', job)
      → (rest : List (Job A)) × (l.queue ≡ job ∷ rest)
  unfolding receive
  receive_queue l l' job h = ground arith

  perm_end_middle :
      (before after : List (Job A)) (job : Job A) (ended : List (Job A))
      → Perm ((before ++ (job ∷ after)) ++ ended) ((before ++ after) ++ (job ∷ ended))
  perm_end_middle before after job ended = rw (append_assoc before (job ∷ after) ended) (
      Perm.trans (perm_middle before (after ++ ended))
        (rw (← append_assoc before after ended) (Perm.symm (perm_middle (before ++ after) ended))))

  end-IsRun :
      (judge : Judge) (size workers : ℕ) (r : Run A) (job : Job A) (before after : List (Job A))
      → IsRun judge size workers r
      → r.labeler.running ≡ before ++ (job ∷ after)
      → IsRun judge size workers (record r {
        labeler = finish r.labeler before after;
        finished = verdict judge job ∷ r.finished;
      })
  end-IsRun judge size workers r job before after v h = record {
    size_eq = v.size_eq;
    within = v.within;
    staffed = omega (
      arith,
      v.staffed,
      ap length h,
      length-append before (job ∷ after),
      length-append before after,
    );
    in_order = v.in_order;
    once =
        Perm.trans (subst (λ xs. Perm r.started (xs ++ jobs r.finished)) h v.once)
          (perm_end_middle before after job (jobs r.finished));
    judged = (refl, v.judged);
    counted = v.counted;
  }

  pub Step-IsRun :
      (judge : Judge) (size workers : ℕ) {r r' : Run A}
      → Step judge r r'
      → IsRun judge size workers r
      → IsRun judge size workers r'
  unfolding close
  Step-IsRun judge size workers (offer r job l taken h) v =
      offer-IsRun judge size workers r job l taken v h
  Step-IsRun judge size workers (start r job l h) v =
      let (rest, q) = receive_queue r.labeler l job h in
      start-IsRun judge size workers r job rest l v q h
  Step-IsRun judge size workers (end r job before after h) v =
      end-IsRun judge size workers r job before after v h
  Step-IsRun judge size workers (shut r h) v = record {
    size_eq = v.size_eq;
    within = v.within;
    staffed = v.staffed;
    in_order = v.in_order;
    once = v.once;
    judged = v.judged;
    counted = v.counted;
  }

  -- Whatever the submitters and the workers do: the queue stays within its size, jobs are started in
  -- the order in which they were accepted, no more workers are busy than there are, each job that was
  -- started is running or has one verdict, the verdict is the judge's with an error as not
  -- equivalent, and each job offered was accepted or is counted as dropped.
  pub Reach-IsRun :
      (judge : Judge) (queue_size workers : ℕ) {r : Run A}
      → Reach judge (first_run (new_labeler queue_size workers)) r
      → IsRun judge (at_least_one queue_size) (at_least_one workers) r
  Reach-IsRun judge queue_size workers here = first_run-IsRun judge queue_size workers
  Reach-IsRun judge queue_size workers (next r st) =
      Step-IsRun judge (at_least_one queue_size) (at_least_one workers) st
        (Reach-IsRun judge queue_size workers r)
