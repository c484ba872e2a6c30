-- ===== src/Command/Lifecycle.antt =====
-- How the process of cmd/semblance/main.go ends.
use semblance.Command.{
  draining, closing, returned, server_closed, failed, Process, start, production, is_open,
  is_returned, listener_returns, receive_error, receive_signal, shut_down, running, run, Step,
  accept, done, work, listened, signal, fail, stop, drained, timed_out, exit, Reach, here, next,
}
use semblance.Config.Load.{Config}
use semblance.Config.Parse.{ok}
use semblance.Double.{Double, Single}
use semblance.Gateway.Moves.{Move, Move-IsReady, receive-closed}
use semblance.Gateway.Ready.{IsReady}
use semblance.Gateway.Server.{new_server, new_server-IsReady, close}
use semblance.Gateway.World.{Server}
use semblance.Judge.Labeler
use semblance.Judge.Labeler.{Labeler, Job, new_labeler, submit, receive}
use semblance.Prelude.{
  length, ◌<◌, ◌+◌, ◌≡◌, refl, subst, ◌∙◌, Bool, true, false, [], none, some, arith, ◌⊎◌,
}

submit-shut :
    {A : Type 0} (l : Labeler A) (job : Job A) {l' : Labeler A} {taken : Bool}
    → submit l job ≡ some (l', taken)
    → l.closed ≡ false
unfolding submit
submit-shut l job h = ground arith

-- Each worker is idle or has one job, and there is a worker.
abbrev pub IsStaffed : {A : Type 0} → Labeler A → Type 0
IsStaffed l = 0 < l.idle + length l.running

-- What holds of the process at any time.
pub record IsProper {F S R : Type 0} (p : Process F S R) : Type 0 where
  -- Until its `Close` the gateway can serve, and from then on its queue is closed.
  pub opened : is_open p.main ≡ true → IsReady p.server
  pub shut : is_open p.main ≡ false → p.server.labeler.closed ≡ true
  -- The listening goroutine finds the channel empty.
  pub unsent : p.serving ≡ true → p.server_err ≡ none
  -- `run` stops only for a signal, and returns no error only if no handler is left.
  pub stopped : p.main ≡ draining → p.cancelled ≡ true
  pub clean :
      (p.main ≡ closing none) ⊎ (p.main ≡ returned none) → (p.cancelled ≡ true) × (p.active ≡ 0)
  pub staffed : IsStaffed p.server.labeler
  -- The labeler has no job left in the end.
  pub ended :
      is_returned p.main ≡ true → (p.server.labeler.queue ≡ []) × (p.server.labeler.running ≡ [])

submit-IsStaffed :
    {A : Type 0} (l : Labeler A) (job : Job A) {l' : Labeler A} {taken : Bool}
    → submit l job ≡ some (l', taken)
    → IsStaffed l
    → IsStaffed l'
unfolding submit
submit-IsStaffed l job h x = ground arith

receive-IsStaffed :
    {A : Type 0} (l : Labeler A) {l' : Labeler A} {job : Job A}
    → receive l ≡ some (l', job)
    → IsStaffed l'
unfolding receive
receive-IsStaffed l h = ground arith

module _ {F S R : Type 0} ⦃d : Double F⦄ ⦃f : Single F S⦄ {float64 : R → F × R} where
  -- No access opens a closed queue again.
  Move-shut :
      {s t : Server F S R} → Move float64 s t → s.labeler.closed ≡ true → t.labeler.closed ≡ true
  Move-shut (Move.find s range b vec m found visits h) x = x
  Move-shut (Move.observe s draw b i sim c did m h) x = x
  Move-shut (Move.insert s b vec resp id m h) x = x
  Move-shut (Move.choose s obs sim) x = x
  Move-shut (Move.pay s key cost h) x = x
  Move-shut (Move.bypass s) x = x
  Move-shut (Move.offer s job l taken h) x = cc (submit-shut s.labeler job h)
  Move-shut (Move.start s job l h) x = receive-closed float64 s.labeler h ∙ x
  Move-shut (Move.end s job before after h) x = x

  pub Move-IsStaffed :
      {s t : Server F S R} → Move float64 s t → IsStaffed s.labeler → IsStaffed t.labeler
  Move-IsStaffed (Move.find s range b vec m found visits h) x = x
  Move-IsStaffed (Move.observe s draw b i sim c did m h) x = x
  Move-IsStaffed (Move.insert s b vec resp id m h) x = x
  Move-IsStaffed (Move.choose s obs sim) x = x
  Move-IsStaffed (Move.pay s key cost h) x = x
  Move-IsStaffed (Move.bypass s) x = x
  Move-IsStaffed (Move.offer s job l taken h) x = submit-IsStaffed s.labeler job h x
  Move-IsStaffed (Move.start s job l h) x = receive-IsStaffed s.labeler h
  Move-IsStaffed (Move.end s job before after h) x = omega arith

  pub Step-IsProper : {p q : Process F S R} → Step float64 p q → IsProper p → IsProper q
  unfolding listener_returns receive_error receive_signal shut_down close Labeler.close
  Step-IsProper (accept p on at) v = record {
    opened = v.opened;
    shut = v.shut;
    unsent = v.unsent;
    stopped = v.stopped;
    clean = λ h. ground arith;
    staffed = v.staffed;
    ended = v.ended;
  }
  Step-IsProper (done p n busy there) v = record {
    opened = v.opened;
    shut = v.shut;
    unsent = v.unsent;
    stopped = v.stopped;
    clean = λ h. absurd (omega (arith, (v.clean h).1));
    staffed = v.staffed;
    ended = v.ended;
  }
  Step-IsProper (work p s move there) v = record {
    opened = λ h. Move-IsReady float64 move (v.opened h);
    shut = λ h. Move-shut move (v.shut h);
    unsent = v.unsent;
    stopped = v.stopped;
    clean = v.clean;
    staffed = Move-IsStaffed move v.staffed;
    ended = λ h. cc;
  }
  Step-IsProper (listened p server_closed on down) v = record {
    opened = v.opened;
    shut = v.shut;
    unsent = λ h. cc;
    stopped = v.stopped;
    clean = v.clean;
    staffed = v.staffed;
    ended = v.ended;
  }
  Step-IsProper (listened p (failed e) on down) v = record {
    opened = v.opened;
    shut = v.shut;
    unsent = λ h. cc;
    stopped = v.stopped;
    clean = v.clean;
    staffed = v.staffed;
    ended = v.ended;
  }
  Step-IsProper (signal p) v = record {
    opened = v.opened;
    shut = v.shut;
    unsent = v.unsent;
    stopped = λ h. refl;
    clean = λ h. (refl, (v.clean h).1);
    staffed = v.staffed;
    ended = v.ended;
  }
  Step-IsProper (fail p e at sent) v = record {
    opened = λ h. cc;
    shut = λ h. refl;
    unsent = λ h. refl;
    stopped = λ h. cc;
    clean = λ h. ground arith;
    staffed = v.staffed;
    ended = λ h. cc;
  }
  Step-IsProper (stop p at told) v = record {
    opened = λ h. v.opened (rw at refl);
    shut = λ h. cc;
    unsent = v.unsent;
    stopped = λ h. told;
    clean = λ h. ground arith;
    staffed = v.staffed;
    ended = λ h. cc;
  }
  Step-IsProper (drained p at idle) v = record {
    opened = λ h. cc;
    shut = λ h. refl;
    unsent = v.unsent;
    stopped = λ h. cc;
    clean = λ h. (v.stopped at, idle);
    staffed = v.staffed;
    ended = λ h. cc;
  }
  Step-IsProper (timed_out p e at) v = record {
    opened = λ h. cc;
    shut = λ h. refl;
    unsent = v.unsent;
    stopped = λ h. cc;
    clean = λ h. ground arith;
    staffed = v.staffed;
    ended = λ h. cc;
  }
  Step-IsProper (exit p r at empty idle) v = record {
    opened = λ h. cc;
    shut = λ h. v.shut (rw at refl);
    unsent = v.unsent;
    stopped = λ h. cc;
    clean = λ h. v.clean (ground arith);
    staffed = v.staffed;
    ended = λ h. (empty, idle);
  }

module _ {F S R : Type 0} ⦃d : Double F⦄ ⦃f : Single F S⦄ where
  run-IsProper :
      (rand : R) (cfg : Config F) → IsProper (start (new_server {S = S} rand cfg production))
  unfolding new_server new_labeler
  run-IsProper rand cfg = record {
    opened = λ h. (new_server-IsReady rand cfg production refl refl).0;
    shut = λ h. cc;
    unsent = λ h. refl;
    stopped = λ h. cc;
    clean = λ h. ground arith;
    staffed = ground arith;
    ended = λ h. cc;
  }

  -- Whatever the main goroutine, the listening one, the handlers and the workers interleave, in a
  -- process that started with a configuration: until its `Close` the gateway can serve, and from then
  -- on its queue is closed; the labeler has a worker; the listening goroutine never waits to report its error; `run` drains only
  -- after a signal, it returns no error only after a signal with no handler left, and when it has
  -- returned no labeling job is waiting or running.
  pub Reach-IsProper :
      {float64 : R → F × R} (rand : R) (cfg : Config F) {p q : Process F S R}
      → run rand (ok cfg) ≡ running p
      → Reach float64 p q
      → IsProper q
  unfolding run
  Reach-IsProper rand cfg {p} h here = subst IsProper (cc) (run-IsProper rand cfg)
  Reach-IsProper rand cfg h (next r st) = Step-IsProper st (Reach-IsProper rand cfg h r)
