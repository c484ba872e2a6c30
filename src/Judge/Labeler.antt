-- ===== src/Judge/Labeler.antt =====
-- internal/judge/labeler.go: a bounded queue and a fixed number of workers. Each
-- function is what one goroutine does at once.
use semblance.Prelude.{
  ℕ, ◌+◌, ◌-◌, Bool, true, false, List, [], ◌∷◌, ◌++◌, Option, none, some, if◌then◌else◌, ltb,
  length,
}
use semblance.Text.{Text}

-- `on_result` is the closure's captured data: what a verdict is applied to.
pub record Job (A : Type 0) : Type 0 where
  pub reference : Text
  pub candidate : Text
  pub on_result : A

-- `idle` workers wait at the queue; `running` holds the job of each other worker.
pub record Labeler (A : Type 0) : Type 0 where
  pub queue : List (Job A)
  pub queue_size : ℕ
  pub idle : ℕ
  pub running : List (Job A)
  pub dropped : ℕ
  pub closed : Bool

abbrev pub at_least_one : ℕ → ℕ
at_least_one n = if ltb n 1 then 1 else n

module _ {A : Type 0} where
  unfoldable pub new_labeler : ℕ → ℕ → Labeler A
  new_labeler queue_size workers = record {
    queue = [];
    queue_size = at_least_one queue_size;
    idle = at_least_one workers;
    running = [];
    dropped = 0;
    closed = false;
  }

  -- The answer is false if the queue is full; `none` is the panic on a closed queue.
  unfoldable pub submit : Labeler A → Job A → Option (Labeler A × Bool)
  submit l job =
      if l.closed
      then none
      else if ltb (length l.queue) l.queue_size
      then some (record l { queue = l.queue ++ (job ∷ []) }, true)
      else some (record l { dropped = l.dropped + 1 }, false)

  -- `job := <-queue` by an idle worker.
  unfoldable pub receive : Labeler A → Option (Labeler A × Job A)
  receive l = elim l.queue [
    | [] ↦ none
    | job ∷ rest ↦
        if ltb 0 l.idle
        then some (record l { queue = rest; idle = l.idle - 1; running = job ∷ l.running }, job)
        else none
  ]

  -- The worker with `job`, between `before` and `after`, labels it and comes back to the queue.
  abbrev pub finish : Labeler A → List (Job A) → List (Job A) → Labeler A
  finish l before after = record l { idle = l.idle + 1; running = before ++ after }

  unfoldable pub queue_depth : Labeler A → ℕ
  queue_depth l = length l.queue

  unfoldable pub close : Labeler A → Labeler A
  close l = record l { closed = true }
