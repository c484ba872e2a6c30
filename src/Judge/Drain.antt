-- ===== src/Judge/Drain.antt =====
-- The workers of internal/judge/labeler.go empty the queue: what `Close` waits for comes about.
use mathlib.Core.List.{Perm, append-nil}
use semblance.Judge.History.{Run, Step, Reach, IsRun, Step-IsRun, AreVerdicts, jobs, verdict}
use semblance.Judge.Labeler.{Job, Labeler, receive, finish}
use semblance.Judge.Verdict.{Judge}
use semblance.Prelude.{
  ℕ, zero, suc, ◌+◌, ◌-◌, ◌*◌, ◌≤◌, ◌<◌, ◌≡◌, refl, sym, ap, ◌∙◌, subst, List, [], ◌∷◌, ◌++◌, some,
  arith, length,
}

module _ {A : Type 0} (judge : Judge) where
  Reach-step : {r r' r'' : Run A} → Step judge r r' → Reach judge r' r'' → Reach judge r r''
  Reach-step st Reach.here = Reach.next Reach.here st
  Reach-step st (Reach.next path last) = Reach.next (Reach-step st path) last

  -- No job waits and none is running; nothing was accepted in between.
  pub record Drained (r r' : Run A) : Type 0 where
    pub path : Reach judge r r'
    pub no_queue : r'.labeler.queue ≡ []
    pub no_running : r'.labeler.running ≡ []
    pub accepted_eq : r'.accepted ≡ r.accepted

  start_first :
      (l : Labeler A) (job : Job A) (rest : List (Job A))
      → l.queue ≡ job ∷ rest
      → 0 < l.idle
      → receive l
        ≡ some (record l { queue = rest; idle = l.idle - 1; running = job ∷ l.running }, job)
  unfolding receive
  start_first l job rest q idle = ground arith

  drain_from :
      (size workers fuel : ℕ) (r : Run A) (queue running : List (Job A))
      → r.labeler.queue ≡ queue
      → r.labeler.running ≡ running
      → 2 * length queue + length running ≤ fuel
      → IsRun judge size (suc workers) r
      → (r' : Run A) × Drained r r' × IsRun judge size (suc workers) r'
  drain_from size workers fuel r [] [] q b h v =
      (r, record { path = Reach.here; no_queue = q; no_running = b; accepted_eq = refl }, v)
  drain_from size workers (suc fuel) r queue (job ∷ after) q b h v =
      let r₁ : Run A = record r {
        labeler = finish r.labeler [] after;
        finished = verdict judge job ∷ r.finished;
      } in
      let st : Step judge r r₁ = Step.end r job [] after b in
      let (r', d, v') =
        drain_from size workers fuel r₁ queue after q refl (omega arith)
          (Step-IsRun judge size (suc workers) st v) in
      (
        r',
        record {
          path = Reach-step st d.path;
          no_queue = d.no_queue;
          no_running = d.no_running;
          accepted_eq = d.accepted_eq;
        },
        v',
      )
  drain_from size workers (suc fuel) r (job ∷ rest) [] q b h v =
      let l = r.labeler in
      let l₁ : Labeler A = record l {
        queue = rest;
        idle = l.idle - 1;
        running = job ∷ l.running;
      } in
      let r₁ : Run A = record r { labeler = l₁; started = r.started ++ (job ∷ []) } in
      let st : Step judge r r₁ =
        Step.start r job l₁ (start_first l job rest q (omega (arith, v.staffed, ap length b))) in
      let (r', d, v') =
        drain_from size workers fuel r₁ rest (job ∷ []) refl (ap (◌∷◌ job) b) (omega arith)
          (Step-IsRun judge size (suc workers) st v) in
      (
        r',
        record {
          path = Reach-step st d.path;
          no_queue = d.no_queue;
          no_running = d.no_running;
          accepted_eq = d.accepted_eq;
        },
        v',
      )
  drain_from size workers zero r (job ∷ rest) running q b h v = absurd (omega arith)
  drain_from size workers zero r [] (job ∷ after) q b h v = absurd (omega arith)

  -- With a worker, from every state that can come about there is a way on, with no further job
  -- accepted, to a state with no job waiting or running. There each accepted job has exactly one
  -- verdict, the judge's, and each job offered was accepted or is counted as dropped.
  pub drain :
      (size workers : ℕ) (r : Run A)
      → IsRun judge size (suc workers) r
      → (r' : Run A) × Drained r r'
        × Perm r.accepted (jobs r'.finished)
        × AreVerdicts judge r'.finished
        × (r'.offered ≡ length r.accepted + r'.labeler.dropped)
  drain size workers r v =
      let queue = r.labeler.queue in
      let running = r.labeler.running in
      let (r', d, v') =
        drain_from size workers (2 * length queue + length running) r queue running refl refl
          (omega arith) v in
      let all_started : r'.started ≡ r.accepted =
        sym (append-nil r'.started)
        ∙ ap (◌++◌ r'.started) (sym d.no_queue)
        ∙ v'.in_order
        ∙ d.accepted_eq in
      let all_finished : Perm r'.started (jobs r'.finished) =
        subst (λ xs. Perm r'.started (xs ++ jobs r'.finished)) d.no_running v'.once in
      (
        r',
        d,
        subst (λ xs. Perm xs (jobs r'.finished)) all_started all_finished,
        v'.judged,
        v'.counted ∙ ap (λ xs. length xs + r'.labeler.dropped) d.accepted_eq,
      )
