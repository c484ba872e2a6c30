-- ===== src/Gateway/World.antt =====
-- internal/gateway/gateway.go: the components that all requests share, and the run of one handler
-- among others. Between two accesses to a shared component other goroutines may do anything to all of
-- them: `others n` is what they do before the `n`-th access of this handler.
use semblance.Budget.{Tracker}
use semblance.Cache.Shard.{StoredResponse, Entries}
use semblance.Cache.Store.{MemoryStore}
use semblance.Config.Load.{Config}
use semblance.Gateway.Request.{Bypass}
use semblance.Gateway.Writer.{Writer, ErrorBody}
use semblance.Judge.Labeler.{Labeler}
use semblance.OpenAi.{ChatCompletionRequest, ChatCompletionResponse}
use semblance.Policy.Decide.{Policy}
use semblance.Prelude.{ℤ, ℕ, ◌+◌, Bool, List, ◌∷◌, Option, none, some}
use semblance.Pricing.{Table}
use semblance.Text.{Text}

-- What the callback of a labeling job captures.
pub record Update (F S : Type 0) : Type 0 where
  pub bucket : Text
  pub entry_id : Text
  pub sim : F
  pub qvec : List S
  pub new_resp : StoredResponse

-- `Server`, as far as it changes.
pub record Server (F S R : Type 0) : Type 0 where
  pub store : MemoryStore F S
  pub policy : Policy F R
  pub labeler : Labeler (Update F S)
  pub budget : Tracker F
  pub bypass_total : ℕ

-- A response of the backend; `complete` says that its body ends and does not break off.
pub record Response : Type 0 where
  pub status : ℕ
  pub content_type : Text
  pub chunks : List Text
  pub complete : Bool

-- The configuration, the prices, and what the handler calls outside the program.
pub record Env (F S R : Type 0) : Type 0 where
  pub cfg : Config F
  pub prices : Table F
  pub embedder : Option (Text → Option (List S × ℤ))
  pub can_build : Text → Bool
  pub respond : Text → Option Response
  pub accepts : ℕ → Bool
  pub valid : Text → Bool
  pub decode_request : Text → ChatCompletionRequest F
  pub decode_string : Text → Option Text
  pub decode_response : Text → ChatCompletionResponse × Bool
  pub encode_error : ErrorBody → Text
  pub format_float : F → Text
  pub digest : Text → Text
  pub to_lower : Text → Text
  pub contains : Text → Text → Bool
  pub trim : Text → Text
  pub equal_fold : Text → Text → Bool
  pub random_bytes : Option Text
  pub encode_hex : Text → Text
  pub draw : ℕ → ℕ → ℕ
  pub range : ℕ → Entries → Entries
  pub float64 : R → F × R
  pub others : ℕ → Server F S R → Server F S R

pub data Outcome : Type 0 where
  exploit explore bypass : Outcome

pub data Direction : Type 0 where
  prompt completion : Direction

pub data Cost : Type 0 where
  spent embedding saved : Cost

-- A call on a collector of internal/metrics.
pub data Call (F : Type 0) : Type 0 where
  requests_total : Outcome → Call F
  bypass_reason_count : Bypass → Call F
  similarity : F → Call F
  entry_obs : ℕ → Call F
  tau : F → Call F
  backend_tokens : Direction → ℤ → Call F
  embed_tokens : ℤ → Call F
  cost_usd : Cost → F → Call F
  budget_cents : Text → F → Call F
  explores_label : Call F
  explores_c0 : Call F

-- A line of the access log; the time that the request took is not modelled.
pub record LogLine : Type 0 where
  pub method : Text
  pub path : Text
  pub status : ℕ
  pub outcome : Text

-- One handler's run: the bodies that it has sent to the backend, its calls on the metrics and its
-- lines in the access log, the last one first.
pub record World (F S R : Type 0) : Type 0 where
  pub server : Server F S R
  pub writer : Writer
  pub fetched : List Text
  pub calls : List (Call F)
  pub log : List LogLine
  pub clock : ℕ

-- `none` is a panic. It keeps what was done before.
abbrev pub Action : Type 0 → Type 0 → Type 0 → Type 0 → Type 0
Action F S R A = World F S R → Option A × World F S R

module _ {F S R : Type 0} where
  unfoldable pub pure : {A : Type 0} → A → Action F S R A
  pure a w = (some a, w)

  -- After a panic nothing more is done.
  abbrev pub continue :
      {A B : Type 0} → Option A × World F S R → (A → Action F S R B) → Option B × World F S R
  continue (none, w) f = (none, w)
  continue (some a, w) f = f a w

  infixl 5 ◌>>=◌ ◌>>◌
  unfoldable pub ◌>>=◌ : {A B : Type 0} → Action F S R A → (A → Action F S R B) → Action F S R B
  ◌>>=◌ m f w = continue (m w) f

  abbrev pub ◌>>◌ : {B : Type 0} → Action F S R (Unit {0}) → Action F S R B → Action F S R B
  m >> k = m >>= λ _. k

  -- A write to the response, which is this handler's own.
  unfoldable pub respond_by : (Writer → Writer) → Action F S R (Unit {0})
  respond_by f w = (some tt, record w { writer = f w.writer })

  unfoldable pub count : Call F → Action F S R (Unit {0})
  count c w = (some tt, record w { calls = c ∷ w.calls })

  -- An access to the shared components, after what the others did.
  unfoldable pub shared :
      {A : Type 0} → Env F S R → (ℕ → Server F S R → Option (A × Server F S R)) → Action F S R A
  shared env op w =
      let s = env.others w.clock w.server in
      elim (op w.clock s) [
        | none ↦ (none, record w { server = s; clock = w.clock + 1 })
        | some (a, s') ↦ (some a, record w { server = s'; clock = w.clock + 1 })
      ]

  abbrev pub look : {A : Type 0} → Env F S R → (Server F S R → A) → Action F S R A
  look env f = shared env (λ _ s. some (f s, s))

  abbrev pub change : Env F S R → (Server F S R → Server F S R) → Action F S R (Unit {0})
  change env f = shared env (λ _ s. some (tt, f s))

  -- The result of an operation on a part of the server, with the part put back.
  abbrev pub give_back :
      {X Y A : Type 0} → (X → Server F S R) → (Y → A) → Option (X × Y) → Option (A × Server F S R)
  give_back put result none = none
  give_back put result (some (x, y)) = some (result y, put x)
