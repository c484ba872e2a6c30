-- ===== src/Examples/Systems.antt =====
-- Whole servers: requests among other goroutines, the metrics, and the process of the command.
use semblance.Budget.{enabled, over_budget, spent_by}
use semblance.Command.{
  Process, returned, start, production, running, run, Reach, signal, accept, here, next,
}
use semblance.Command.Exits.{exits}
use semblance.Command.Lifecycle.{IsProper, Reach-IsProper}
use semblance.Config.Parse.{ok}
use semblance.Examples.Chats.{
  env, server, server-IsReady, to_world, world, muxes, http_request, written,
}
use semblance.Examples.Decisions.{half}
use semblance.Examples.Fixed.{
  Fixed, num, nan, fixed, single_fixed, fixed-IsOrdered, fixed-IsAdditive,
}
use semblance.Examples.Settings.{config}
use semblance.Examples.Shards.{in_order-Visits}
use semblance.Gateway.Access.{authenticate, bearer_token, key_allowed}
use semblance.Gateway.Handler.{HttpRequest, serve}
use semblance.Gateway.Live.{IsLive, Moves-IsLive}
use semblance.Gateway.Moves.{Move, Moves, accesses}
use semblance.Gateway.Ready.{IsReady}
use semblance.Gateway.Served.{serve-Moves}
use semblance.Gateway.Server.{new_server}
use semblance.Gateway.Spent.{IsPriced, IsSpent, serve-over_budget}
use semblance.Gateway.World.{Env, Server}
use semblance.Metrics
use semblance.Metrics.{
  Registry, Metrics, Collector, full_name, is_taken, is_consistent, without, observe_server,
}
use semblance.Metrics.Startup.{AreDistinct, at_start, observe_server-registered}
use semblance.Prelude.{
  ℕ, ◌+◌, ◌<◌, ◌≡◌, refl, true, false, not, ◌||◌, List, [], ◌∷◌, Option, none, some, arith,
  if◌then◌else◌, ◌^◌,
}
use semblance.Text.{codes}

-- Before each access of the handler another one counts a bypass.
abbrev busy : Env Fixed Fixed ℕ
busy = record env { others = λ n s. record s { bypass_total = s.bypass_total + 1 } }

busy-Moves : (n : ℕ) (s : Server Fixed Fixed ℕ) → Moves busy.float64 s (busy.others n s)
busy-Moves n s = Moves.next Moves.here (Move.bypass s)

serve-Moves_example :
    let w' = serve busy muxes http_request world in
    Moves busy.float64 world.server w'.server × IsReady w'.server × (w'.writer.wrote_header ≡ true)
serve-Moves_example =
    serve-Moves busy muxes http_request world (λ n. in_order-Visits) busy-Moves (written 404)
      (written 200) server-IsReady

abbrev first : Server Fixed Fixed ℕ
first = new_server 0 config production

two_moves : Moves half first (busy.others 1 (busy.others 0 first))
two_moves =
    Moves.next (Moves.next Moves.here (Move.bypass first)) (Move.bypass (busy.others 0 first))

two_moves-few : accesses half two_moves < 2 ^ 63
unfolding accesses two_moves
two_moves-few = omega arith

Moves-IsLive_example : IsLive config (busy.others 1 (busy.others 0 first))
Moves-IsLive_example =
    Moves-IsLive fixed-IsOrdered 0 config production refl refl two_moves two_moves-few

cents_nonneg :
    (c : Fixed)
    → fixed.lt (fixed.of_ℕ 0) c ≡ true
    → fixed.le (fixed.of_ℕ 0) (fixed.mul c (fixed.of_ℕ 100)) ≡ true
cents_nonneg nan h = absurd (cc)
cents_nonneg (num a) h = ground arith

fixed-IsPriced : IsPriced Fixed
fixed-IsPriced = record { cents_nonneg = cents_nonneg }

-- The key "k" has spent 2 of 1 cents.
abbrev poor_server : Server Fixed Fixed ℕ
poor_server = record server {
  budget = record { ceiling_cents = num 1000001000; spent = (codes "k", num 1000002000) ∷ [] };
}

poor_server-IsSpent : IsSpent poor_server.budget (codes "k")
unfolding over_budget spent_by enabled
poor_server-IsSpent = record { charged = λ key. ground arith; over = refl }

abbrev with_key : Env Fixed Fixed ℕ
with_key = record busy { cfg = record config { api_keys = codes "k" ∷ [] } }

abbrev authorized : HttpRequest
authorized = record http_request { authorization = codes "Bearer k" }

authorized-valid :
    authenticate with_key.equal_fold with_key.trim with_key.cfg.api_keys authorized.authorization
    ≡ some (codes "k")
unfolding authenticate bearer_token key_allowed
authorized-valid = refl

serve-over_budget_example :
    let w' = serve with_key muxes authorized (to_world poor_server) in
    (w'.writer.status ≡ 429)
    × (w'.fetched ≡ [])
    × (w'.calls ≡ [])
    × (w'.log
        ≡ record {
          method = codes "POST";
          path = codes "/v1/chat/completions";
          status = 429;
          outcome = codes "client_error";
        }
          ∷ [])
    × IsSpent w'.server.budget (codes "k")
serve-over_budget_example =
    serve-over_budget fixed-IsOrdered fixed-IsAdditive fixed-IsPriced with_key muxes authorized true
      (codes "k") (to_world poor_server) busy-Moves refl authorized-valid refl poor_server-IsSpent

-- The process accepts a request, and is told to stop.
launched : run 0 (ok config) ≡ running (start first)
unfolding run
launched = refl

abbrev told : Process Fixed Fixed ℕ
told = record (start first) { active = 1; cancelled = true }

to_told : Reach half (start first) told
to_told =
    next (next here (accept (start first) refl refl)) (signal (record (start first) { active = 1 }))

Reach-IsProper_example : IsProper told
Reach-IsProper_example = Reach-IsProper 0 config launched to_told

exits_example :
    (q : Process Fixed Fixed ℕ) × Reach half told q × (q.main ≡ returned none) × IsProper q
exits_example = exits 0 config launched to_told refl refl

-- A registry that is the list of what is registered, and the list of what ever was.
record Listed : Type 0 where
  pub now : List (Collector Fixed Fixed ℕ)
  pub ever : List (Collector Fixed Fixed ℕ)

abbrev add_collector : Collector Fixed Fixed ℕ → Listed → Option Listed
add_collector c r =
    if is_taken (full_name c) r.now || not (is_consistent c r.ever)
    then none
    else some (record { now = c ∷ r.now; ever = c ∷ r.ever })

add_free :
    (c : Collector Fixed Fixed ℕ) (r : Listed)
    → is_taken (full_name c) r.now ≡ false
    → is_consistent c r.ever ≡ true
    → (r' : Listed) × (add_collector c r ≡ some r') × (r'.now ≡ c ∷ r.now) × (r'.ever ≡ c ∷ r.ever)
add_free c r free consistent = (_, rw (free, consistent) refl, refl, refl)

add_taken :
    (c : Collector Fixed Fixed ℕ) (r : Listed)
    → is_taken (full_name c) r.now ≡ true
    → add_collector c r ≡ none
add_taken c r taken = rw taken refl

add_inconsistent :
    (c : Collector Fixed Fixed ℕ) (r : Listed)
    → is_consistent c r.ever ≡ false
    → add_collector c r ≡ none
add_inconsistent c r other = ground (arith, other)

abbrev listed : Registry Fixed Fixed ℕ
listed = record {
  Reg = Listed;
  fresh = record { now = []; ever = [] };
  must_register = add_collector;
  unregister = λ c r. record r { now = without (full_name c) r.now };
  registered = λ r. r.now;
  described = λ r. r.ever;
  registered-fresh = refl;
  described-fresh = refl;
  register_free = add_free;
  register_taken = add_taken;
  register_inconsistent = add_inconsistent;
  registered-unregister = λ c r. refl;
  described-unregister = λ c r. refl;
}

observe_server-registered_example :
    (m m' : Metrics listed) × (Metrics.new listed ≡ some m)
    × (observe_server listed (num 1000000050) m ≡ some m')
    × (m'.reg.now ≡ at_start)
    × AreDistinct {F = Fixed} {S = Fixed} {R = ℕ} at_start
    × (m'.delta ≡ num 1000000050)
observe_server-registered_example = observe_server-registered listed (num 1000000050)
