-- ===== src/Command/Exits.antt =====
-- A process of cmd/semblance/main.go that is told to stop can end cleanly.
use semblance.Command.{
  Main, selecting, draining, closing, returned, Process, is_returned, running, run, done, work,
  stop, drained, exit, Reach, here, next, receive_signal, shut_down,
}
use semblance.Command.Lifecycle.{IsProper, IsStaffed, Reach-IsProper, Move-IsStaffed}
use semblance.Config.Load.{Config}
use semblance.Config.Parse.{ok}
use semblance.Double.{Double, Single}
use semblance.Gateway.Moves.{Move}
use semblance.Gateway.Server.{close}
use semblance.Gateway.World.{Server}
use semblance.Judge.Labeler
use semblance.Judge.Labeler.{Labeler, Job, receive, finish}
use semblance.Prelude.{
  ℕ, zero, suc, ◌+◌, ◌-◌, ◌*◌, ◌≤◌, ◌<◌, ◌≡◌, refl, ap, ◌⊎◌, inl, inr, true, false, List, [], ◌∷◌,
  none, some, arith, length,
}

List-cases : {A : Type 0} (xs : List A) → (xs ≡ []) ⊎ ((x : A) × (ys : List A) × (xs ≡ x ∷ ys))
List-cases [] = inl refl
List-cases (x ∷ xs) = inr (x, xs, refl)

eq_nil : {A : Type 0} (xs : List A) → length xs ≤ 0 → xs ≡ []
eq_nil [] h = refl
eq_nil (x ∷ xs) h = absurd (omega arith)

-- What the workers have to do: two steps for a job that waits, one for a job that runs.
abbrev left : {A : Type 0} → Labeler A → ℕ
left l = 2 * length l.queue + length l.running

receive-left :
    {A : Type 0} (l : Labeler A) (job : Job A) (jobs : List (Job A))
    → l.queue ≡ job ∷ jobs
    → 0 < l.idle
    → (l' : Labeler A) × (receive l ≡ some (l', job)) × (left l' + 1 ≡ left l)
unfolding receive
receive-left l job jobs waiting idle = (
  record l { queue = jobs; idle = l.idle - 1; running = job ∷ l.running },
  ground arith,
  omega (arith, ap length waiting),
)

Reach-trans :
    {F S R : Type 0} ⦃d : Double F⦄ ⦃f : Single F S⦄ {float64 : R → F × R} {p q r : Process F S R}
    → Reach float64 p q
    → Reach float64 q r
    → Reach float64 p r
Reach-trans x here = x
Reach-trans x (next y st) = next (Reach-trans x y) st

module _ {F S R : Type 0} ⦃d : Double F⦄ ⦃f : Single F S⦄ (float64 : R → F × R) where
  -- The same process, but for what the workers do.
  record Drained (p : Process F S R) (m : Main) (q : Process F S R) : Type 0 where
    pub path : Reach float64 p q
    pub main_eq : q.main ≡ m
    pub queue_empty : q.server.labeler.queue ≡ []
    pub running_empty : q.server.labeler.running ≡ []

  drain_jobs :
      (n : ℕ) (p q : Process F S R) (m : Main)
      → Reach float64 p q
      → q.main ≡ m
      → is_returned m ≡ false
      → IsStaffed q.server.labeler
      → left q.server.labeler ≤ n
      → (q' : Process F S R) × Drained p m q'
  drain_jobs zero p q m path at alive staffed few = (
    q,
    record {
      path = path;
      main_eq = at;
      queue_empty = eq_nil q.server.labeler.queue (omega arith);
      running_empty = eq_nil q.server.labeler.running (omega arith);
    },
  )
  drain_jobs (suc n) p q m path at alive staffed few = elim (List-cases q.server.labeler.running) [
    | inr (job, jobs, busy) ↦
        let s : Server F S R = record q.server { labeler = finish q.server.labeler [] jobs } in
        let move : Move float64 q.server s = Move.end q.server job [] jobs busy in
        drain_jobs n p (record q { server = s }) m (next path (work q s move (rw at alive))) at
          alive (Move-IsStaffed move staffed) (omega (arith, ap length busy))
    | inl idle ↦ (elim (List-cases q.server.labeler.queue) [
      | inl empty ↦
          (q, record { path = path; main_eq = at; queue_empty = empty; running_empty = idle })
      | inr (job, jobs, waiting) ↦
          let (l, took, fewer) =
            receive-left q.server.labeler job jobs waiting (omega (arith, ap length idle)) in
          let s : Server F S R = record q.server { labeler = l } in
          let move : Move float64 q.server s = Move.start q.server job l took in
          drain_jobs n p (record q { server = s }) m (next path (work q s move (rw at alive))) at
            alive (Move-IsStaffed move staffed) (omega (arith, fewer))
    ])
  ]

  -- The handlers end one after the other.
  record Idle (p q : Process F S R) : Type 0 where
    pub path : Reach float64 p q
    pub main_eq : q.main ≡ draining
    pub active_zero : q.active ≡ 0
    pub staffed : IsStaffed q.server.labeler

  let_go :
      (n : ℕ) (p q : Process F S R)
      → Reach float64 p q
      → q.main ≡ draining
      → q.active ≡ n
      → IsStaffed q.server.labeler
      → (q' : Process F S R) × Idle p q'
  let_go zero p q path at none_left staffed =
      (q, record { path = path; main_eq = at; active_zero = none_left; staffed = staffed })
  let_go (suc n) p q path at busy staffed =
      let_go n p (record q { active = n }) (next path (done q n busy (rw at refl))) at refl staffed

module _ {F S R : Type 0} ⦃d : Double F⦄ ⦃f : Single F S⦄ where
  -- A process that started with a configuration, was told to stop and is still at its select,
  -- wherever its handlers and workers are: there is a way on to an exit without an error, where no
  -- handler is left, the queue is closed, and no labeling job waits or runs.
  pub exits :
      {float64 : R → F × R} (rand : R) (cfg : Config F) {p q : Process F S R}
      → run rand (ok cfg) ≡ running p
      → Reach float64 p q
      → q.cancelled ≡ true
      → q.main ≡ selecting
      → (q' : Process F S R) × Reach float64 q q' × (q'.main ≡ returned none) × IsProper q'
  unfolding receive_signal shut_down close Labeler.close
  exits {float64} rand cfg {p} {q} h r told at =
      let v = Reach-IsProper rand cfg h r in
      let (q1, idle) =
        let_go float64 q.active q (receive_signal q) (next here (stop q at told)) refl refl
          v.staffed in
      let q2 = shut_down none q1 in
      let (q3, end) =
        drain_jobs float64 (left q2.server.labeler) q q2 (closing none)
          (next idle.path (drained q1 idle.main_eq idle.active_zero)) refl refl idle.staffed
          (omega arith) in
      let path = next end.path (exit q3 none end.main_eq end.queue_empty end.running_empty) in
      (
        record q3 { main = returned none },
        path,
        refl,
        Reach-IsProper rand cfg h (Reach-trans r path),
      )
