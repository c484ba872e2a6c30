-- ===== src/Gateway/Live.antt =====
-- A server of internal/gateway from its start on, under any interleaving of handlers, callbacks and
-- workers: the invariants of the store and the labeler hold together.
use semblance.Cache.Counted.{
  IsCounted, IsCounted-suc, IsCounted-HasRoom, Call-IsCounted, new_shards-IsCounted,
}
use semblance.Cache.Refined.{Step-Call}
use semblance.Cache.Steps
use semblance.Cache.Steps.{IsStore, Step, Step-IsStore, new_shards-IsStore, Reach-len}
use semblance.Cache.Store.{MemoryStore, new_memory_store, at_least_one, len}
use semblance.Cache.Valid.{All, IsValid}
use semblance.Config.Load.{Config}
use semblance.Double.{Double, Single, IsOrdered}
use semblance.Gateway.Moves.{
  Move, Moves, here, next, find, observe, insert, choose, pay, bypass, offer, start, end, accesses,
  Moves-IsReady,
}
use semblance.Gateway.Ready.{IsReady}
use semblance.Gateway.Server.{Options, new_server, new_server-IsReady}
use semblance.Gateway.World.{Server, Update}
use semblance.Judge.History
use semblance.Judge.History.{Run, first_run, Reach-IsRun}
use semblance.Judge.Labeler
use semblance.Judge.Labeler.{Labeler, new_labeler}
use semblance.Judge.Verdict.{Judge}
use semblance.Prelude.{
  ℕ, suc, ◌+◌, ◌*◌, ◌/◌, ◌^◌, ◌≤◌, ◌<◌, ◌≡◌, refl, sym, ap, subst, ◌∙◌, ◌⊎◌, none, arith, length,
}

module _ {F S : Type 0} ⦃d : Double F⦄ ⦃f : Single F S⦄ (laws : IsOrdered F) (total : ℕ) where
  -- The store that `m` has become after at most `n` calls.
  record Grown (m : MemoryStore F S) (n : ℕ) (m' : MemoryStore F S) : Type 0 where
    pub reached : Steps.Reach m m'
    pub valid : IsStore total m'
    pub counted : IsCounted n m'

  stays : {m m' : MemoryStore F S} (n : ℕ) → Grown m n m' → Grown m (suc n) m'
  stays {m' = m'} n g = record {
    reached = g.reached;
    valid = g.valid;
    counted = IsCounted-suc n m' g.counted;
  }

  grows : {m m' m'' : MemoryStore F S} (n : ℕ) → Grown m n m' → Step m' m'' → Grown m (suc n) m''
  grows n g st = record {
    reached = Steps.next g.reached st;
    valid = Step-IsStore laws total st g.valid;
    counted = Call-IsCounted n (Step-Call laws total g.valid st) g.counted;
  }

  Move-Grown :
      (m : MemoryStore F S) (n : ℕ) {R : Type 0} {float64 : R → F × R} {s t : Server F S R}
      → n + 1 < 2 ^ 63
      → Move float64 s t
      → Grown m n s.store
      → Grown m (suc n) t.store
  Move-Grown m n small (find s range b vec m' found visits h) g =
      grows n g (Steps.nearest range s.store m' b vec found visits h)
  Move-Grown m n small (observe s draw b i sim c done m' h) g =
      grows n g (
        Steps.observe draw s.store m' b i sim c done (IsCounted-HasRoom n s.store small g.counted)
          h)
  Move-Grown m n small (insert s b vec resp id m' h) g =
      grows n g
        (Steps.insert s.store m' b vec resp id (IsCounted-HasRoom n s.store small g.counted) h)
  Move-Grown m n small (choose s obs sim) g = stays n g
  Move-Grown m n small (pay s key cost h) g = stays n g
  Move-Grown m n small (bypass s) g = stays n g
  Move-Grown m n small (offer s job l taken h) g = stays n g
  Move-Grown m n small (start s job l h) g = stays n g
  Move-Grown m n small (end s job before after h) g = stays n g

  Moves-Grown :
      {R : Type 0} {float64 : R → F × R} {s t : Server F S R}
      → IsStore total s.store
      → IsCounted 0 s.store
      → (ms : Moves float64 s t) → accesses float64 ms < 2 ^ 63
      → Grown s.store (accesses float64 ms) t.store
  unfolding accesses
  Moves-Grown v c here small = record { reached = Steps.here; valid = v; counted = c }
  Moves-Grown {R} {float64} {s} v c (next ms m) small =
      Move-Grown s.store (accesses float64 ms) (omega arith) m (Moves-Grown v c ms (omega arith))

module _ {F S : Type 0} ⦃d : Double F⦄ ⦃f : Single F S⦄ (judge : Judge) where
  -- A history of the judge that ends in this labeler.
  abbrev Ran : Labeler (Update F S) → Labeler (Update F S) → Type 0
  Ran l l' = (r : Run (Update F S)) × History.Reach judge (first_run l) r × (r.labeler ≡ l')

  Move-Ran :
      (l : Labeler (Update F S)) {R : Type 0} {float64 : R → F × R} {s t : Server F S R}
      → Move float64 s t
      → Ran l s.labeler
      → Ran l t.labeler
  Move-Ran l (find s range b vec m' found visits h) x = x
  Move-Ran l (observe s draw b i sim c done m' h) x = x
  Move-Ran l (insert s b vec resp id m' h) x = x
  Move-Ran l (choose s obs sim) x = x
  Move-Ran l (pay s key cost h) x = x
  Move-Ran l (bypass s) x = x
  Move-Ran l (offer s job l' taken h) (r, reach, e) =
      (_, History.next reach (History.offer r job l' taken (rw e h)), refl)
  Move-Ran l (start s job l' h) (r, reach, e) =
      (_, History.next reach (History.start r job l' (rw e h)), refl)
  Move-Ran l (end s job before after h) (r, reach, e) = (
    _,
    History.next reach
        (History.end r job before after (ap (λ (x : Labeler (Update F S)). x.running) e ∙ h)),
    ap (λ (x : Labeler (Update F S)). Labeler.finish x before after) e,
  )

  Moves-Ran :
      {R : Type 0} {float64 : R → F × R} {s t : Server F S R}
      → Moves float64 s t
      → Ran s.labeler t.labeler
  Moves-Ran {s} here = (first_run s.labeler, History.here, refl)
  Moves-Ran {s} (next ms m) = Move-Ran s.labeler m (Moves-Ran ms)

module _ {F S : Type 0} ⦃d : Double F⦄ ⦃f : Single F S⦄ where
  new_memory_store-IsStore :
      (total max_obs shards : ℕ)
      → let m = new_memory_store {F = F} {S = S} total max_obs shards in
        IsStore (at_least_one shards * at_least_one (total / at_least_one shards)) m × IsCounted 0 m
  unfolding new_memory_store
  new_memory_store-IsStore total max_obs shards =
      let n = at_least_one shards in
      let each = at_least_one (total / n) in
      (
        new_shards-IsStore n 0 each (at_least_one max_obs) (ground arith),
        new_shards-IsCounted F S n 0 each (at_least_one max_obs),
      )

module _ {F S R : Type 0} ⦃d : Double F⦄ ⦃f : Single F S⦄ where
  -- What holds of a server with the configuration `cfg` at any time.
  pub record IsLive (cfg : Config F) (s : Server F S R) : Type 0 where
    pub ready : IsReady s
    pub valid : All IsValid s.store
    pub small : (len s.store ≤ cfg.cache_capacity) ⊎ (len s.store ≤ at_least_one cfg.cache_shards)
    pub within : length s.labeler.queue ≤ at_least_one cfg.judge_queue_size
    pub staffed : s.labeler.idle + length s.labeler.running ≡ at_least_one cfg.judge_workers

  -- A server that is built without a store and a labeler of its own, after any interleaving of
  -- fewer than 2 ^ 63 accesses by handlers, callbacks and workers: it can serve, every shard is
  -- valid, the store holds no more entries than its capacity, or than it has shards if that is more,
  -- the queue is within its size, and each worker is idle or has one job.
  pub Moves-IsLive :
      (laws : IsOrdered F) (rand : R) (cfg : Config F) (opts : Options F S R) {float64 : R → F × R}
      {s : Server F S R}
      → opts.store ≡ none
      → opts.labeler ≡ none
      → (ms : Moves float64 (new_server rand cfg opts) s) → accesses float64 ms < 2 ^ 63
      → IsLive cfg s
  unfolding new_server
  Moves-IsLive laws rand cfg opts {float64} {s} store labeler ms few =
      let first = new_server rand cfg opts in
      let fresh =
        new_memory_store {F = F} {S = S} cfg.cache_capacity cfg.max_observations cfg.cache_shards in
      let is_fresh : first.store ≡ fresh = rw store refl in
      let is_new : first.labeler ≡ new_labeler cfg.judge_queue_size cfg.judge_workers =
        rw labeler refl in
      let (v, c) =
        new_memory_store-IsStore cfg.cache_capacity cfg.max_observations cfg.cache_shards in
      let grown =
        Moves-Grown laws _ (subst (IsStore _) (sym is_fresh) v)
          (subst (IsCounted 0) (sym is_fresh) c) ms few in
      let (valid, small) =
        Reach-len laws cfg.cache_capacity cfg.max_observations cfg.cache_shards
          (subst (λ (m : MemoryStore F S). Steps.Reach m s.store) is_fresh grown.reached) in
      let judge : Judge = λ x y. none in
      let (r, reach, same) = Moves-Ran judge ms in
      let run =
        Reach-IsRun judge cfg.judge_queue_size cfg.judge_workers (
          subst (λ (l : Labeler (Update F S)). History.Reach judge (first_run l) r) is_new reach) in
      record {
        ready = Moves-IsReady float64 ms (new_server-IsReady rand cfg opts store labeler).0;
        valid = valid;
        small = small;
        within =
            subst (λ (l : Labeler (Update F S)). length l.queue ≤ at_least_one cfg.judge_queue_size)
              same run.within;
        staffed =
            subst
              (λ (l : Labeler (Update F S)).
                l.idle + length l.running ≡ at_least_one cfg.judge_workers)
              same run.staffed;
      }
