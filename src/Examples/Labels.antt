-- ===== src/Examples/Labels.antt =====
-- The judge and the labeler of internal/judge on some jobs.
use mathlib.Core.List.{Perm}
use semblance.Judge.Drain.{Drained, drain}
use semblance.Judge.History.{Run, Step, Reach, IsRun, AreVerdicts, first_run, jobs, Reach-IsRun}
use semblance.Judge.Labeler.{Job, Labeler, at_least_one, new_labeler, submit}
use semblance.Judge.Verdict.{Judge, new_default_judge, equivalent, label, label-exact}
use semblance.Prelude.{inl, ℕ, ◌+◌, ◌≡◌, ◌↔◌, refl, true, false, [], ◌∷◌, none, some, length}
use semblance.Text.{Text, codes}

-- Trimming for texts that have no space around them.
abbrev trim : Text → Text
trim s = s

-- A judge that fails.
abbrev failing : Judge
failing reference candidate = none

abbrev judge : Judge
judge = equivalent trim (new_default_judge none)

label-exact_example :
    (label judge (codes "yes") (codes "no") ≡ true) ↔ (trim (codes "yes") ≡ trim (codes "no"))
label-exact_example =
    label-exact trim (new_default_judge none) (codes "yes") (codes "no") (inl refl)

label_test : label failing (codes "yes") (codes "yes") ≡ false
unfolding label
label_test = refl

abbrev same : Job ℕ
same = record { reference = codes "yes"; candidate = codes "yes"; on_result = 1 }

abbrev different : Job ℕ
different = record { reference = codes "yes"; candidate = codes "no"; on_result = 2 }

-- One worker and a queue of one.
abbrev idle : Labeler ℕ
idle = new_labeler 1 1

abbrev waiting : Labeler ℕ
waiting = record {
  queue = same ∷ [];
  queue_size = 1;
  idle = 1;
  running = [];
  dropped = 0;
  closed = false;
}

submit_taken : submit idle same ≡ some (waiting, true)
unfolding submit new_labeler
submit_taken = refl

submit_dropped : submit waiting different ≡ some (record waiting { dropped = 1 }, false)
unfolding submit
submit_dropped = refl

-- A job waits, and one was dropped.
abbrev busy : Run ℕ
busy = record {
  labeler = record waiting { dropped = 1 };
  offered = 2;
  accepted = same ∷ [];
  started = [];
  finished = [];
}

two_offers : Reach judge (first_run idle) busy
two_offers =
    Reach.next (Reach.next Reach.here (Step.offer (first_run idle) same waiting true submit_taken))
      (Step.offer
        (record {
          labeler = waiting;
          offered = 1;
          accepted = same ∷ [];
          started = [];
          finished = [];
        })
        different (record waiting { dropped = 1 }) false submit_dropped)

Reach-IsRun_example : IsRun judge (at_least_one 1) (at_least_one 1) busy
Reach-IsRun_example = Reach-IsRun judge 1 1 two_offers

drain_example :
    (r' : Run ℕ) × Drained judge busy r'
    × Perm busy.accepted (jobs r'.finished)
    × AreVerdicts judge r'.finished
    × (r'.offered ≡ length busy.accepted + r'.labeler.dropped)
drain_example = drain judge 1 0 busy (Reach-IsRun judge 1 1 two_offers)
