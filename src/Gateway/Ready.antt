-- ===== src/Gateway/Ready.antt =====
-- A server of internal/gateway that can serve: its store has a shard, and its labeler is open.
use semblance.Cache.Shard.{Entries, Shard, StoredResponse}
use semblance.Cache.Store.{MemoryStore, fnv32a, shard_for, nearest, insert}
use semblance.Double.{Double, Single}
use semblance.Gateway.Answers.{handle-Does, once, is_valid}
use semblance.Gateway.Branches.{IsHost}
use semblance.Gateway.Chat.{handle_chat_completions}
use semblance.Gateway.Run.{Held, Ran, Ends}
use semblance.Gateway.World.{Env, World, Server, Update}
use semblance.Judge.Labeler.{Job, submit}
use semblance.Prelude.{
  ℕ, ◌%◌, ◌<◌, ◌≡◌, refl, inl, inr, Bool, true, false, List, Option, none, some, arith, length,
  get_elem?, get_elem?_lt, set, length-set, Bool-cases, ltb,
}
use semblance.Text.{Text}

pub record IsReady {F S R : Type 0} (s : Server F S R) : Type 0 where
  pub stored : 0 < length s.store
  pub opened : s.labeler.closed ≡ false

shard_for-get :
    {F S : Type 0} (m : MemoryStore F S) (b : Text)
    → 0 < length m
    → (sh : Shard F S) × (get_elem? m (shard_for m b) ≡ some sh)
unfolding shard_for
shard_for-get m b h = get_elem?_lt m (fnv32a b % length m) (omega arith)

module _ {F S R : Type 0} where
  pub submit-Held :
      (s : Server F S R) (job : Job (Update F S))
      → IsReady s
      → Held ⊥ (λ q. IsReady (record s { labeler = q.0 })) (submit s.labeler job)
  unfolding submit
  submit-Held s job r = elim (Bool-cases (ltb (length s.labeler.queue) s.labeler.queue_size)) [
    | inl room ↦ rw (r.opened, room) (record { stored = r.stored; opened = refl })
    | inr full ↦ rw (r.opened, full) (record { stored = r.stored; opened = refl })
  ]

  set-IsReady :
      (s : Server F S R) (i : ℕ) (sh : Shard F S)
      → IsReady s
      → IsReady (record s { store = set s.store i sh })
  set-IsReady s i sh r = record {
    stored = omega (arith, length-set s.store i sh, r.stored);
    opened = r.opened;
  }

module _ {F S R : Type 0} ⦃d : Double F⦄ ⦃f : Single F S⦄ where
  pub nearest-Held :
      (range : Entries → Entries) (s : Server F S R) (b : Text) (vec : List S)
      → IsReady s
      → Held ⊥ (λ q. IsReady (record s { store = q.0 })) (nearest range s.store b vec)
  unfolding nearest
  nearest-Held range s b vec r =
      let (sh, here) = shard_for-get s.store b r.stored in
      rw (Held, nearest, here) (set-IsReady s _ _ r)

  pub insert-Held :
      (s : Server F S R) (b : Text) (vec : List S) (resp : StoredResponse)
      → IsReady s
      → Held ⊥ (λ q. IsReady (record s { store = q.0 })) (insert s.store b vec resp)
  unfolding insert
  insert-Held s b vec resp r =
      let (sh, here) = shard_for-get s.store b r.stored in
      rw (Held, insert, here) (set-IsReady s _ _ r)

  IsReady-IsHost :
      (env : Env F S R)
      → ((n : ℕ) (s : Server F S R) → IsReady s → IsReady (env.others n s))
      → IsHost ⊥ IsReady env
  IsReady-IsHost env others = record {
    calm = record {
      others = others;
      budget = λ s key cost h r. record { stored = r.stored; opened = r.opened };
      bypass_total = λ s r. record { stored = r.stored; opened = r.opened };
      policy = λ s obs sim r. record { stored = r.stored; opened = r.opened };
    };
    nearest = λ n s b vec r. nearest-Held (env.range n) s b vec r;
    insert = insert-Held;
    submit = submit-Held;
  }

  -- While the other goroutines keep the server ready, the handler returns and leaves it ready, and
  -- the client has an answer. A request whose body can be read, is short enough and is JSON is counted
  -- exactly once in `requests_total`, and at most one body is sent to the backend: the client's own
  -- bytes. Another request is not counted, and nothing is sent for it.
  pub handle-Ran :
      (env : Env F S R) (readable : Bool) (body key : Text) (w : World F S R)
      → ((n : ℕ) (s : Server F S R) → IsReady s → IsReady (env.others n s))
      → IsReady w.server
      → let n = once (is_valid env body readable) in
        (w' : World F S R) × (handle_chat_completions env readable body key w ≡ (some tt, w'))
        × Ran ⊥ IsReady body n n true w w'
  handle-Ran env readable body key w others r =
      returned _ ((handle-Does (IsReady-IsHost env others) body readable key).ends w r)
    where
      returned :
          (r : Option (Unit {0}) × World F S R) {n : ℕ}
          → Ends ⊥ IsReady body n n true w r
          → (w' : World F S R) × (r ≡ (some tt, w')) × Ran ⊥ IsReady body n n true w w'
      returned (none, w') h = elim h [ ]
      returned (some a, w') h = (w', refl, h)
