-- ===== src/Examples/Chats.antt =====
-- Requests to the gateway of internal/gateway/chat.go, with a backend that answers "{}".
use semblance.Budget.{new}
use semblance.Cache.Store.{shard_for, fnv32a}
use semblance.Examples.Decisions.{half, policy}
use semblance.Examples.Fixed.{Fixed, num, fixed, single_fixed}
use semblance.Examples.Settings.{config}
use semblance.Examples.Shards.{
  in_order, one_zero, zero_one, two_entries, two_entries-IsValid, two_entries-counter, last_entry,
  last_entry-In, response, slot, key,
}
use semblance.Gateway.Access.{authenticate, bearer_token}
use semblance.Gateway.Chat.{handle_chat_completions}
use semblance.Gateway.Handler.{HttpRequest, Muxes, v1, serve}
use semblance.Gateway.Learn.{IsTarget, HasLearned, on_result-HasLearned}
use semblance.Gateway.Ready.{IsReady, handle-Ran}
use semblance.Gateway.Recovered.{serve-answers, serve-unauthorized}
use semblance.Gateway.Run.{Ran}
use semblance.Gateway.Chat.{on_result}
use semblance.Gateway.World.{Env, World, Server, Update}
use semblance.Gateway.Writer.{Writer, new_writer, write_header}
use semblance.Judge.Labeler.{new_labeler}
use semblance.OpenAi.{ChatCompletionRequest, ChatCompletionResponse}
use semblance.Prelude.{pos, ℕ, ◌≡◌, refl, true, false, [], ◌∷◌, none, some, arith}
use semblance.Pricing.{empty}
use semblance.Text.{codes, text_eq}

abbrev pub request : ChatCompletionRequest Fixed
request = record {
  model = codes "m";
  messages = record { role = codes "user"; content = codes "hi" } ∷ [];
  stream = false;
  temperature = none;
  top_p = none;
  n = none;
  tools = [];
  functions = [];
}

abbrev no_answer : ChatCompletionResponse
no_answer = record {
  id = [];
  object = [];
  created = pos 0;
  model = [];
  choices = [];
  usage = record { prompt_tokens = pos 1; completion_tokens = pos 1; total_tokens = pos 2 };
}

-- One bucket, and one vector for every text. No other goroutine runs.
abbrev pub env : Env Fixed Fixed ℕ
env = record {
  cfg = config;
  prices = empty;
  embedder = some (λ text. some (zero_one, pos 1));
  can_build = λ url. true;
  respond = λ body. some (record {
    status = 200;
    content_type = codes "application/json";
    chunks = codes "{}" ∷ [];
    complete = true;
  });
  accepts = λ n. true;
  valid = λ body. true;
  decode_request = λ body. request;
  decode_string = λ raw. some raw;
  decode_response = λ body. (no_answer, true);
  encode_error = λ e. e.message;
  format_float = λ x. codes "x";
  digest = λ bytes. key;
  to_lower = λ s. s;
  contains = λ s part. false;
  trim = λ s. s;
  equal_fold = text_eq;
  random_bytes = some (codes "id");
  encode_hex = λ bytes. bytes;
  draw = λ n. slot;
  range = λ n. in_order;
  float64 = half;
  others = λ n s. s;
}

abbrev pub server : Server Fixed Fixed ℕ
server = record {
  store = two_entries ∷ [];
  policy = policy;
  labeler = new_labeler 4 1;
  budget = new (num 1000000000);
  bypass_total = 0;
}

abbrev pub to_world : Server Fixed Fixed ℕ → World Fixed Fixed ℕ
to_world s = record {
  server = s;
  writer = new_writer;
  fetched = [];
  calls = [];
  log = [];
  clock = 0;
}

abbrev pub world : World Fixed Fixed ℕ
world = to_world server

pub server-IsReady : IsReady server
unfolding new_labeler
server-IsReady = record { stored = omega arith; opened = refl }

handle-Ran_example :
    (w' : World Fixed Fixed ℕ) × (handle_chat_completions env true (codes "{}") (codes "k") world
      ≡ (some tt, w'))
    × Ran ⊥ IsReady (codes "{}") 1 1 true world w'
handle-Ran_example = handle-Ran env true (codes "{}") (codes "k") world (λ n s r. r) server-IsReady

abbrev pub muxes : Muxes
muxes = record {
  route = λ method path. v1 true;
  reject = λ r w. write_header 404 w;
  scrape = λ w. write_header 200 w;
}

abbrev pub http_request : HttpRequest
http_request = record {
  method = codes "POST";
  path = codes "/v1/chat/completions";
  authorization = [];
  request_id = [];
  body = codes "{}";
  readable = true;
}

pub written : (code : ℕ) (w : Writer) → (write_header code w).wrote_header ≡ true
unfolding write_header
written code w = ground arith

serve-answers_example : (serve env muxes http_request world).writer.wrote_header ≡ true
serve-answers_example = serve-answers env muxes http_request world (written 404) (written 200)

-- The same gateway with one API key.
abbrev pub keyed : Env Fixed Fixed ℕ
keyed = record env { cfg = record config { api_keys = codes "secret" ∷ [] } }

keyed-denied :
    authenticate keyed.equal_fold keyed.trim keyed.cfg.api_keys http_request.authorization ≡ none
unfolding authenticate bearer_token
keyed-denied = refl

serve-unauthorized_example :
    let w' = serve keyed muxes http_request world in
    (w'.writer.status ≡ 401)
    × (w'.server ≡ world.server)
    × (w'.fetched ≡ world.fetched)
    × (w'.calls ≡ world.calls)
    × (w'.log
        ≡ record {
          method = codes "POST";
          path = codes "/v1/chat/completions";
          status = 401;
          outcome = codes "client_error";
        }
          ∷ world.log)
serve-unauthorized_example =
    serve-unauthorized keyed muxes http_request true world refl keyed-denied refl

-- The neighbour `last_entry` was wrong.
abbrev update : Update Fixed Fixed
update = record {
  bucket = key;
  entry_id = last_entry.id;
  sim = num 1000000900;
  qvec = one_zero;
  new_resp = response;
}

update-IsTarget : IsTarget update server two_entries last_entry
unfolding shard_for fnv32a
update-IsTarget = record {
  here = refl;
  valid = two_entries-IsValid;
  member = last_entry-In;
  bucket = refl;
  id = refl;
  seen = omega arith;
  room = omega (arith, two_entries-counter);
}

on_result-HasLearned_example :
    HasLearned env update false world two_entries last_entry (on_result env update false world)
on_result-HasLearned_example =
    on_result-HasLearned env update false world two_entries last_entry (λ n s. refl) update-IsTarget
