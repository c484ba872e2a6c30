-- ===== src/Metrics/Startup.antt =====
-- The start of the metrics (internal/metrics/metrics.go, and `New` of internal/gateway/gateway.go).
use semblance.Cache.Store.{len}
use semblance.Double.{Double}
use semblance.Judge.Labeler.{queue_depth}
use semblance.Metrics.{
  Collector, Registry, Metrics, full_name, is_taken, is_consistent, without, collectors,
  register_all, register_cache_entries_func, register_judge_queue_func, new, observe_server, gauge,
  gauge_func, requests_total, bypass_total, cache_entries, judge_queue, backend_tokens,
  embed_tokens, cost_usd, budget_cents, delta_target, explores_label, explores_c0, entry_obs, tau,
  similarity, refit_seconds,
}
use semblance.Policy.Logistic.{nought}
use semblance.Prelude.{
  ◌≡◌, refl, ap, ◌∙◌, Bool, true, false, not, ◌&&◌, arith, List, [], ◌∷◌, some, Bool-cases, inl,
  inr,
}
use semblance.Text.{Text, text_eq}

module _ {F S R : Type 0} where
  -- Each name is free when its turn comes, and it has no other help or labels yet.
  abbrev fits : List (Collector F S R) → List (Collector F S R) → Bool
  fits [] before = true
  fits (c ∷ cs) before =
      not (is_taken (full_name c) before) && (is_consistent c before && fits cs (c ∷ before))

  abbrev onto : List (Collector F S R) → List (Collector F S R) → List (Collector F S R)
  onto [] before = before
  onto (c ∷ cs) before = onto cs (c ∷ before)

  -- No two collectors have one name.
  abbrev pub AreDistinct : List (Collector F S R) → Type 0
  AreDistinct [] = Unit
  AreDistinct (c ∷ cs) = (is_taken (full_name c) cs ≡ false) × AreDistinct cs

  abbrev distinct : List (Collector F S R) → Bool
  distinct [] = true
  distinct (c ∷ cs) = not (is_taken (full_name c) cs) && distinct cs

  distinct_lem : (cs : List (Collector F S R)) → distinct cs ≡ true → AreDistinct cs
  distinct_lem [] h = tt
  distinct_lem (c ∷ cs) h = (ground (arith, h), distinct_lem cs (ground (arith, h)))

  is_taken-without : (n : Text) (cs : List (Collector F S R)) → is_taken n (without n cs) ≡ false
  is_taken-without n [] = refl
  is_taken-without n (c ∷ cs) = elim (Bool-cases (text_eq n (full_name c))) [
    | inl same ↦ rw same (is_taken-without n cs)
    | inr other ↦ rw other (rw other (is_taken-without n cs))
  ]

module _ {F S R : Type 0} (prom : Registry F S R) where
  open prom use {
    Reg, must_register, unregister, registered, described, register_free, registered-unregister,
    described-unregister,
  }

  -- What is registered, and what ever was.
  record Holds (r : Reg) (cs ds : List (Collector F S R)) : Type 0 where
    pub now : registered r ≡ cs
    pub ever : described r ≡ ds

  register_all-onto :
      (cs : List (Collector F S R)) (r : Reg) (before : List (Collector F S R))
      → Holds r before before
      → fits cs before ≡ true
      → (r' : Reg) × (register_all prom cs r ≡ some r') × Holds r' (onto cs before) (onto cs before)
  unfolding register_all
  register_all-onto [] r before e fit = (r, refl, e)
  register_all-onto (c ∷ cs) r before e fit =
      let free : is_taken (full_name c) before ≡ false = ground (arith, fit) in
      let consistent : is_consistent c before ≡ true = ground (arith, fit) in
      let (r1, did, now, ever) =
        register_free c r (ap (is_taken (full_name c)) e.now ∙ free)
          (ap (is_consistent c) e.ever ∙ consistent) in
      let (r', all, holds) =
        register_all-onto cs r1 (c ∷ before)
          (record { now = now ∙ ap (◌∷◌ c) e.now; ever = ever ∙ ap (◌∷◌ c) e.ever })
          (ground (arith, fit)) in
      (r', rw (did, register_all) all, holds)

  -- A collector takes the place of what has its name.
  replaced :
      (c old : Collector F S R) (r : Reg) (now ever : List (Collector F S R))
      → Holds r now ever
      → full_name c ≡ full_name old
      → is_consistent c ever ≡ true
      → (r' : Reg) × (must_register c (unregister old r) ≡ some r')
        × Holds r' (c ∷ without (full_name old) now) (c ∷ ever)
  replaced c old r now ever e same consistent =
      let left = registered-unregister old r in
      let kept = described-unregister old r ∙ e.ever in
      let free : is_taken (full_name c) (registered (unregister old r)) ≡ false =
        rw (left, same) (is_taken-without (full_name old) (registered r)) in
      let (r', did, here, all) =
        register_free c (unregister old r) free (ap (is_consistent c) kept ∙ consistent) in
      (
        r',
        did,
        record {
          now = here ∙ ap (◌∷◌ c) (left ∙ ap (without (full_name old)) e.now);
          ever = all ∙ ap (◌∷◌ c) kept;
        },
      )

module _ {F S R : Type 0} ⦃d : Double F⦄ where
  abbrev pub entries_func : Collector F S R
  entries_func = cache_entries (gauge_func (λ s. d.of_ℕ (len s.store)))

  abbrev pub queue_func : Collector F S R
  queue_func = judge_queue (gauge_func (λ s. d.of_ℕ (queue_depth s.labeler)))

  -- What is registered in the end.
  abbrev pub at_start : List (Collector F S R)
  at_start =
      queue_func ∷ entries_func ∷ explores_c0 ∷ explores_label ∷ delta_target ∷ budget_cents
      ∷ cost_usd ∷ embed_tokens ∷ backend_tokens ∷ refit_seconds ∷ similarity ∷ tau ∷ entry_obs
      ∷ bypass_total ∷ requests_total ∷ []

  new_lem :
      (prom : Registry F S R) {r : Registry.Reg prom}
      → register_all prom collectors prom.fresh ≡ some r
      → new prom ≡ some (record { reg = r; delta = nought })
  unfolding new
  new_lem prom h = rw (h, new) refl

  observe_server_lem :
      (prom : Registry F S R) (delta : F) (m : Metrics prom) {r r' : Registry.Reg prom}
      → prom.must_register entries_func (prom.unregister (cache_entries (gauge [])) m.reg) ≡ some r
      → prom.must_register queue_func (prom.unregister (judge_queue (gauge [])) r) ≡ some r'
      → observe_server prom delta m ≡ some (record { reg = r'; delta = delta })
  unfolding observe_server register_cache_entries_func register_judge_queue_func
  observe_server_lem prom delta m h k = rw (h, observe_server) (rw (k, observe_server) refl)

  -- In a registry that refuses a name which is registered, and one that ever was with another help or
  -- other labels, the start of a server registers the metrics without a panic, each name once. The number of
  -- entries and the length of the queue are functions, which read the server at each scrape, in
  -- place of the gauges of the same names, and the gauge of the target has the configured delta.
  pub observe_server-registered :
      (prom : Registry F S R) (delta : F)
      → (m m' : Metrics prom) × (new prom ≡ some m)
        × (observe_server prom delta m ≡ some m')
        × (prom.registered m'.reg ≡ at_start)
        × AreDistinct at_start
        × (m'.delta ≡ delta)
  observe_server-registered prom delta =
      let (r0, made, has0) =
        register_all-onto prom collectors prom.fresh []
          (record { now = prom.registered-fresh; ever = prom.described-fresh }) refl in
      let (r1, did1, has1) =
        replaced prom entries_func (cache_entries (gauge [])) r0 _ _ has0 refl refl in
      let (r2, did2, has2) =
        replaced prom queue_func (judge_queue (gauge [])) r1 _ _ has1 refl refl in
      (
        record { reg = r0; delta = nought },
        record { reg = r2; delta = delta },
        new_lem prom made,
        observe_server_lem prom delta (record { reg = r0; delta = nought }) did1 did2,
        has2.now,
        distinct_lem at_start refl,
        refl,
      )
