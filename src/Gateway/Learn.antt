-- ===== src/Gateway/Learn.antt =====
-- The callback of a labeling job (`OnResult` in internal/gateway/chat.go): what the store learns.
use semblance.Cache.Guarded.{guarded_insert-entries}
use semblance.Cache.Observe.{observe_hit}
use semblance.Cache.Shard
use semblance.Cache.Shard.{Entry, Shard, StoredResponse, new_entry, reservoir}
use semblance.Cache.Store
use semblance.Cache.Store.{MemoryStore, fnv32a, shard_for}
use semblance.Cache.Touch.{remove_key}
use semblance.Cache.Valid.{In, key_of, entries, IsValid}
use semblance.Double.{Double, Single}
use semblance.Gateway.Chat.{learn, on_result}
use semblance.Gateway.World.{
  Env, World, Server, Update, pure, ◌>>=◌, continue, count, shared, give_back, explores_label,
  explores_c0,
}
use semblance.Policy.Logistic.{Observation}
use semblance.Prelude.{
  ℕ, ◌+◌, ◌^◌, ◌<◌, ◌≡◌, refl, sym, ap, ap₂, subst, ◌∙◌, Bool, true, false, List, ◌∷◌, Option, none,
  some, arith, if◌then◌else◌, length-set, ◌%◌, get_elem?, set, take, get_elem?-set_self,
  get_elem?-lt,
}
use semblance.Text.{Text}

observe-frame :
    {F S : Type 0} (draw : ℕ → ℕ) (sh : Shard F S) (b i : Text) (s : F) (c : Bool) {sh' : Shard F S}
    {done : Bool}
    → Shard.observe draw sh b i s c ≡ some (sh', done)
    → (sh'.capacity ≡ sh.capacity) × (sh'.counter ≡ sh.counter) × (sh'.index ≡ sh.index)
unfolding Shard.observe
observe-frame draw sh b i s c h = (ground arith, ground arith, ground arith)

-- An access that does not panic.
shared-some :
    {F S R A : Type 0} (env : Env F S R) (op : ℕ → Server F S R → Option (A × Server F S R))
    (w : World F S R) {a : A} {s : Server F S R}
    → op w.clock (env.others w.clock w.server) ≡ some (a, s)
    → shared env op w ≡ (some a, record w { server = s; clock = w.clock + 1 })
unfolding shared
shared-some env op w h = rw (shared, h) refl

shard_for-set :
    {F S : Type 0} (m : MemoryStore F S) (i : ℕ) (sh : Shard F S) (b : Text)
    → shard_for (set m i sh) b ≡ shard_for m b
unfolding shard_for
shard_for-set m i sh b = ap (λ n. fnv32a b % n) (length-set m i sh)

module _ {F S : Type 0} ⦃d : Double F⦄ ⦃f : Single F S⦄ where
  -- The shard after the observation and the insertion.
  pub record IsLearned (draw : ℕ → ℕ) (s : F) (c : Bool) (b : Text) (vec : List S)
      (resp : StoredResponse) (sh : Shard F S) (e : Entry F S) (sh' : Shard F S) : Type 0 where
    pub obs : List (Observation F)
    pub sampled : reservoir draw sh.max_obs (e.seen + 1) e.obs (record { s = s; c = c }) ≡ some obs
    pub learned :
        let old = record e { obs = obs; seen = e.seen + 1 } ∷ remove_key (key_of e) (entries sh) in
        entries sh' ≡ (if c then old else take sh.capacity (new_entry sh b vec resp ∷ old))
    pub valid : IsValid sh'

  store_learns :
      (draw : ℕ → ℕ) (m : MemoryStore F S) (s : F) (c : Bool) (vec : List S) (resp : StoredResponse)
      (sh : Shard F S) (e : Entry F S)
      → get_elem? m (shard_for m e.bucket) ≡ some sh
      → IsValid sh
      → In e (entries sh)
      → e.seen + 1 < 2 ^ 63
      → sh.counter + 1 < 2 ^ 64
      → (m1 m2 : MemoryStore F S) × (id : Option Text) × (sh' : Shard F S) × (Store.observe draw m
            e.bucket e.id s c
          ≡ some (m1, true))
        × (Store.guarded_insert m1 e.bucket vec resp c ≡ some (m2, id))
        × (get_elem? m2 (shard_for m e.bucket) ≡ some sh')
        × IsLearned draw s c e.bucket vec resp sh e sh'
  unfolding Store.observe
  store_learns draw m s c vec resp sh e here v member seen room =
      let i = shard_for m e.bucket in
      let (sh1, obs, did, taken, ents, v1) = observe_hit draw sh e s c v member seen in
      let (cap, counter, index) = observe-frame draw sh e.bucket e.id s c did in
      let m1 : MemoryStore F S = set m i sh1 in
      let place : shard_for m1 e.bucket ≡ i = shard_for-set m i sh1 e.bucket in
      let at_i : get_elem? m1 i ≡ some sh1 = get_elem?-set_self m i sh1 (get_elem?-lt m i here) in
      let fresh : new_entry sh1 e.bucket vec resp ≡ new_entry sh e.bucket vec resp =
        simp (counter, index) refl in
      let small : sh1.counter + 1 < 2 ^ 64 = omega (arith, counter, room) in
      let (sh2, inserted, ents2, v2) =
        guarded_insert-entries m1 e.bucket vec resp c sh1 (rw place at_i) v1 small in
      (
        m1,
        set m1 (shard_for m1 e.bucket) sh2,
        (if c then none else some (new_entry sh1 e.bucket vec resp).id),
        sh2,
        rw (Store.observe, here, did) refl,
        inserted,
        rw place (get_elem?-set_self m1 i sh2 (get_elem?-lt m1 i at_i)),
        record {
          obs = obs;
          sampled = taken;
          learned =
              ents2
              ∙ ap₂
                  (λ (es : List (Entry F S)) (n : Entry F S × ℕ).
                    if c then es else take n.1 (n.0 ∷ es))
                  ents (ap₂ (λ (x : Entry F S) (n : ℕ). (x, n)) fresh cap);
          valid = v2;
        },
      )

module _ {F S R : Type 0} ⦃d : Double F⦄ ⦃f : Single F S⦄ where
  -- The job's entry, which has room, in the store of a server.
  pub record IsTarget (u : Update F S) (s : Server F S R) (sh : Shard F S) (e : Entry F S)
      : Type 0 where
    pub here : get_elem? s.store (shard_for s.store u.bucket) ≡ some sh
    pub valid : IsValid sh
    pub member : In e (entries sh)
    pub bucket : e.bucket ≡ u.bucket
    pub id : e.id ≡ u.entry_id
    pub seen : e.seen + 1 < 2 ^ 63
    pub room : sh.counter + 1 < 2 ^ 64

  -- The run returns, and has learned from the verdict.
  pub record HasLearned (env : Env F S R) (u : Update F S) (c : Bool) (w : World F S R)
      (sh : Shard F S) (e : Entry F S) (r : Option (Unit {0}) × World F S R) : Type 0 where
    pub shard : Shard F S
    pub returned : r.0 ≡ some tt
    pub there : get_elem? r.1.server.store (shard_for w.server.store u.bucket) ≡ some shard
    pub learned : IsLearned (env.draw w.clock) u.sim c u.bucket u.qvec u.new_resp sh e shard

  learn-HasLearned :
      (env : Env F S R) (u : Update F S) (c : Bool) (w : World F S R) (sh : Shard F S)
      (e : Entry F S)
      → ((n : ℕ) (s : Server F S R) → env.others n s ≡ s)
      → IsTarget u w.server sh e
      → HasLearned env u c w sh e (learn env u c w)
  unfolding learn ◌>>=◌
  learn-HasLearned env u c w sh e alone t =
      let place : get_elem? w.server.store (shard_for w.server.store e.bucket) ≡ some sh =
        rw t.bucket t.here in
      let (m1, m2, new_id, sh', observed, inserted, there, learned) =
        store_learns (env.draw w.clock) w.server.store u.sim c u.qvec u.new_resp sh e place t.valid
          t.member t.seen t.room in
      let observed' : Store.observe (env.draw w.clock) w.server.store u.bucket u.entry_id u.sim c
          ≡ some (m1, true) =
        rw (← t.bucket, ← t.id) observed in
      let inserted' : Store.guarded_insert m1 u.bucket u.qvec u.new_resp c ≡ some (m2, new_id) =
        rw (← t.bucket) inserted in
      let there' : get_elem? m2 (shard_for w.server.store u.bucket) ≡ some sh' =
        rw (← t.bucket) there in
      let learned' : IsLearned (env.draw w.clock) u.sim c u.bucket u.qvec u.new_resp sh e sh' =
        rw (← t.bucket) learned in
      let s1 : Server F S R = record w.server { store = m1 } in
      let s2 : Server F S R = record w.server { store = m2 } in
      let w1 : World F S R = record w { server = s1; clock = w.clock + 1 } in
      let first : shared env
            (λ n s.
              give_back {A = Unit {0}} (λ m. record s { store = m }) (λ done. tt)
                (Store.observe (env.draw n) s.store u.bucket u.entry_id u.sim c))
            w
          ≡ (some tt, w1) =
        shared-some env _ w (rw (alone w.clock w.server, observed') refl) in
      let then_insert : ℕ → Server F S R → Option (Unit {0} × Server F S R) = λ n s.
        give_back (λ m. record s { store = m }) (λ id. tt)
          (Store.guarded_insert s.store u.bucket u.qvec u.new_resp c) in
      let second : shared env then_insert w1
          ≡ (some tt, record w1 { server = s2; clock = w1.clock + 1 }) =
        shared-some env _ w1 (rw (alone w1.clock s1, inserted') refl) in
      subst (λ (r : Option (Unit {0}) × World F S R). HasLearned env u c w sh e r)
        (sym (
          ap (λ (r : Option (Unit {0}) × World F S R). continue r (λ _. shared env then_insert))
            first
          ∙ second))
        (record { shard = sh'; returned = refl; there = there'; learned = learned' })

  -- While no other goroutine touches the server, the callback of a job on an entry of its bucket's
  -- valid shard, with room in the counters, returns. The entry then has one more observation, of the
  -- job's similarity and the verdict, taken by the reservoir, and stands in front. If the verdict was
  -- that the neighbour was wrong, the backend's answer stands in front of it as a new entry, and the
  -- entries are cut to the capacity; otherwise nothing is added. The shard stays valid.
  pub on_result-HasLearned :
      (env : Env F S R) (u : Update F S) (c : Bool) (w : World F S R) (sh : Shard F S)
      (e : Entry F S)
      → ((n : ℕ) (s : Server F S R) → env.others n s ≡ s)
      → IsTarget u w.server sh e
      → HasLearned env u c w sh e (on_result env u c w)
  unfolding on_result ◌>>=◌ count pure
  on_result-HasLearned env u true w sh e alone t =
      let h =
        learn-HasLearned env u true (record w { calls = explores_label ∷ w.calls }) sh e alone
          (record {
            here = t.here;
            valid = t.valid;
            member = t.member;
            bucket = t.bucket;
            id = t.id;
            seen = t.seen;
            room = t.room;
          }) in
      record { shard = h.shard; returned = h.returned; there = h.there; learned = h.learned }
  on_result-HasLearned env u false w sh e alone t =
      let h =
        learn-HasLearned env u false (record w { calls = explores_c0 ∷ explores_label ∷ w.calls })
          sh e alone
          (record {
            here = t.here;
            valid = t.valid;
            member = t.member;
            bucket = t.bucket;
            id = t.id;
            seen = t.seen;
            room = t.room;
          }) in
      record { shard = h.shard; returned = h.returned; there = h.there; learned = h.learned }
