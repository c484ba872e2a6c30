-- ===== src/Command.antt =====
-- cmd/semblance/main.go: the life of the process. The main goroutine, the one that listens, the handlers
-- of open connections and the workers of the labeler interleave; `http.Server` decides when a call of
-- it returns. Errors are their texts.
pub mod Lifecycle
pub mod Exits
use semblance.Config.Load.{Config}
use semblance.Config.Parse.{Result, ok, err, ConfigError}
use semblance.Double.{Double, Single}
use semblance.Gateway.Moves.{Move}
use semblance.Gateway.Server.{Options, new_server, close}
use semblance.Gateway.World.{Server}
use semblance.Prelude.{ℕ, suc, ◌+◌, ◌≡◌, ◌≢◌, Bool, true, false, List, [], Option, none, some}
use semblance.Text.{Text}

-- Where `run` is: at its select, in `Shutdown`, in the deferred `Close` with its result, or back in
-- `main`.
pub data Main : Type 0 where
  selecting draining : Main
  closing returned : Option Text → Main

-- What `ListenAndServe` returns: `http.ErrServerClosed`, or another error.
pub data Served : Type 0 where
  server_closed : Served
  failed : Text → Served

-- `serving` says that the listening goroutine has not returned, `active` counts the handlers, and
-- `server_err` is the channel, which holds one error.
pub record Process (F S R : Type 0) : Type 0 where
  pub server : Server F S R
  pub serving : Bool
  pub active : ℕ
  pub server_err : Option Text
  pub cancelled : Bool
  pub main : Main

-- How the program starts: it fails with its configuration, or runs.
pub data Launch (F S R : Type 0) : Type 0 where
  refused : ConfigError → Launch F S R
  running : Process F S R → Launch F S R

-- `run` injects an embedder only.
abbrev pub production : {F S R : Type 0} → Options F S R
production = record { store = none; policy = none; labeler = none; prices = none }

-- `os.Exit(1)` on an error.
abbrev pub exit_status : Option Text → ℕ
exit_status none = 0
exit_status (some e) = 1

abbrev pub is_open : Main → Bool
is_open selecting = true
is_open draining = true
is_open (closing r) = false
is_open (returned r) = false

abbrev pub is_returned : Main → Bool
is_returned (returned r) = true
is_returned _ = false

module _ {F S R : Type 0} where
  abbrev pub start : Server F S R → Process F S R
  start s = record {
    server = s;
    serving = true;
    active = 0;
    server_err = none;
    cancelled = false;
    main = selecting;
  }

  -- The listening goroutine: only an error that is no clean shutdown is reported.
  unfoldable pub listener_returns : Served → Process F S R → Process F S R
  listener_returns server_closed p = record p { serving = false }
  listener_returns (failed e) p = record p { serving = false; server_err = some e }

  -- `case err := <-serverErr`, and the deferred `gw.Close()`.
  unfoldable pub receive_error : Text → Process F S R → Process F S R
  receive_error e p = record p {
    server_err = none;
    server = close p.server;
    main = closing (some e);
  }

  -- `case <-ctx.Done()`.
  unfoldable pub receive_signal : Process F S R → Process F S R
  receive_signal p = record p { main = draining }

  -- `Shutdown` returns, and the deferred `gw.Close()`.
  unfoldable pub shut_down : Option Text → Process F S R → Process F S R
  shut_down r p = record p { server = close p.server; main = closing r }

module _ {F S R : Type 0} ⦃d : Double F⦄ where
  unfoldable pub run : R → Result (Config F) → Launch F S R
  run rand (err e) = refused e
  run rand (ok cfg) = running (start (new_server rand cfg production))

module _ {F S R : Type 0} ⦃d : Double F⦄ ⦃f : Single F S⦄ (float64 : R → F × R) where
  -- Requests are accepted until `Shutdown` is called, which returns without an error when no handler
  -- is left. The labeler's `Close` waits for its workers.
  pub data Step : Process F S R → Process F S R → Type 0 where
    accept :
        (p : Process F S R)
        → p.serving ≡ true
        → p.main ≡ selecting
        → Step p (record p { active = p.active + 1 })
    done :
        (p : Process F S R) (n : ℕ)
        → p.active ≡ suc n
        → is_returned p.main ≡ false
        → Step p (record p { active = n })
    work :
        (p : Process F S R) (s : Server F S R)
        → Move float64 p.server s
        → is_returned p.main ≡ false
        → Step p (record p { server = s })
    listened :
        (p : Process F S R) (r : Served)
        → p.serving ≡ true
        → (p.main ≡ selecting → r ≢ server_closed)
        → Step p (listener_returns r p)
    signal : (p : Process F S R) → Step p (record p { cancelled = true })
    fail :
        (p : Process F S R) (e : Text)
        → p.main ≡ selecting
        → p.server_err ≡ some e
        → Step p (receive_error e p)
    stop : (p : Process F S R) → p.main ≡ selecting → p.cancelled ≡ true → Step p (receive_signal p)
    drained : (p : Process F S R) → p.main ≡ draining → p.active ≡ 0 → Step p (shut_down none p)
    timed_out : (p : Process F S R) (e : Text) → p.main ≡ draining → Step p (shut_down (some e) p)
    exit :
        (p : Process F S R) (r : Option Text)
        → p.main ≡ closing r
        → p.server.labeler.queue ≡ []
        → p.server.labeler.running ≡ []
        → Step p (record p { main = returned r })

  pub data Reach (p : Process F S R) : Process F S R → Type 0 where
    here : Reach p p
    next : {q r : Process F S R} → Reach p q → Step q r → Reach p r
