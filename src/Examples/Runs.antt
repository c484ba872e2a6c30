-- ===== src/Examples/Runs.antt =====
-- The run of bench/main.go, the embedders of internal/embed, and parts of internal/gateway.
use mathlib.Core.List.{Permᴰ}
use semblance.Bench.Main.{Flags, deltas, load_jsonl, load_lines, main}
use semblance.Bench.Scan.{Record}
use semblance.Bench.Loaded.{limited, load_jsonl-AreRead}
use semblance.Bench.Verdict.{verified_run, main-verdict}
use semblance.Cache.Key.{AreShort}
use semblance.Cache.Valid.{All, IsValid}
use semblance.Embed.Fake
use semblance.Embed.Reordered.{succ, pred, size, embed-reordered}
use semblance.Embed.OpenAi
use semblance.Embed.OpenAi.{OpenAi, EmbeddingRequest, EmbeddingResponse, Embedded, new_open_ai}
use semblance.Examples.Chats.{request}
use semblance.Examples.Fixed.{Fixed, num, fixed, single_fixed}
use semblance.Examples.Replays.{half}
use semblance.Examples.Settings.{config}
use semblance.Gateway.Buckets.{IsAlike, bucket_key_for_request-IsAlike}
use semblance.Gateway.Ready.{IsReady}
use semblance.Gateway.Request.{
  bucket_key_for_request, key_parts, system_prompt, system_texts, turns, float_ptr_string,
}
use semblance.Gateway.Server.{Options, new_server, close, new_server-IsReady}
use semblance.Gateway.Writer.{Writer, new_writer}
use semblance.Prelude.{
  ℤ, pos, ℕ, ◌^◌, ◌<◌, ◌≡◌, ◌↔◌, if◌then◌else◌, leb, ◌⊎◌, refl, Bool, true, false, List, [], ◌∷◌,
  Option, none, some, arith, map,
}
use semblance.Text.{Text, codes}

abbrev flags : Flags
flags = record {
  input = codes "in.jsonl";
  limit = pos 2;
  capacity = 0;
  seed = pos 42;
  workers = 1;
  n_min = 5;
  arm = codes "both";
}

abbrev source : ℤ → ℕ
source seed = 0

abbrev one_record : Record Fixed
one_record = record { id_set = 1; embedding = num 1000001000 ∷ [] }

main-verdict_example :
    let status = main half source flags (some (one_record ∷ [])) (λ x. true) (λ x. true) in
    ((status ≡ 0) ⊎ (status ≡ 2))
    × ((status ≡ 0)
        ↔ All
            (λ p. (verified_run half source flags (one_record ∷ []) p).within_delta ≡ true)
            deltas)
main-verdict_example =
    main-verdict half source flags one_record [] (λ x. true) (λ x. true) refl (λ x. refl)
      (λ x. refl)

abbrev lines : List Text
lines = codes "a" ∷ codes "b" ∷ codes "c" ∷ []

abbrev open_lines : Text → Option (List Text)
open_lines path = some lines

abbrev unmarshal : Text → Option (Record Fixed)
unmarshal line = some one_record

abbrev never : ℕ → Bool
never n = false

-- Two of three lines, by the limit.
loaded :
    load_jsonl open_lines unmarshal never (codes "in.jsonl") (pos 2)
    ≡ some (one_record ∷ one_record ∷ [])
unfolding load_jsonl load_lines
loaded = refl

load_jsonl-AreRead_example :
    (load_jsonl open_lines unmarshal never (codes "in.jsonl") (pos 2)
      ≡ some (one_record ∷ one_record ∷ []))
    ↔ ((map unmarshal (limited (pos 2) lines) ≡ map (λ r. some r) (one_record ∷ one_record ∷ []))
        × (never 2 ≡ false))
load_jsonl-AreRead_example =
    load_jsonl-AreRead open_lines unmarshal never (codes "in.jsonl") (pos 2) lines
      (one_record ∷ one_record ∷ []) refl

-- A text's tokens are its characters.
abbrev letters : Text → List Text
letters = map (λ c. c ∷ [])

-- Components that stay at 2 ^ 24 when one is added, like those of a float32.
abbrev inc : ℤ → ℤ
inc z = if leb (2 ^ 24) (size z) then z else succ z

abbrev dec : ℤ → ℤ
dec z = if leb (2 ^ 24) (size z) then z else pred z

inc_exact : (z : ℤ) → size z < 2 ^ 24 → inc z ≡ succ z
inc_exact z h = let below : leb (2 ^ 24) (size z) ≡ false = ground (arith, h) in rw below refl

dec_exact : (z : ℤ) → size z < 2 ^ 24 → dec z ≡ pred z
dec_exact z h = let below : leb (2 ^ 24) (size z) ≡ false = ground (arith, h) in rw below refl

embed-reordered_example :
    Fake.embed inc dec (λ s. s) letters (pos 0) 256 (codes "ab")
    ≡ Fake.embed inc dec (λ s. s) letters (pos 0) 256 (codes "ba")
embed-reordered_example =
    embed-reordered inc dec (λ z. z) inc_exact dec_exact (λ s. s) letters 256 (codes "ab")
      (codes "ba") (omega arith) (Permᴰ.swap refl refl)

abbrev answer : EmbeddingResponse Fixed
answer = record {
  data_embeddings = (num 1000001000 ∷ []) ∷ [];
  prompt_tokens = pos 0;
  total_tokens = pos 3;
}

abbrev marshal : EmbeddingRequest → Option Text
marshal r = some r.input

abbrev call : Text → Text → Text → Option (ℕ × Text)
call url authorization body = some (200, body)

abbrev embedder : OpenAi
embedder = new_open_ai (codes "u") (codes "k") (codes "m") (pos 1)

abbrev same : Text → Text
same bytes = bytes

abbrev format_float : Fixed → Text
format_float x = codes "x"

parts-AreShort : AreShort (key_parts some format_float request)
unfolding key_parts system_prompt system_texts turns float_ptr_string
parts-AreShort = (omega arith, (omega arith, (omega arith, (omega arith, tt))))

bucket_key_for_request-IsAlike_example :
    (bucket_key_for_request same some format_float request
      ≡ bucket_key_for_request same some format_float request)
    ↔ IsAlike some format_float request request
bucket_key_for_request-IsAlike_example =
    bucket_key_for_request-IsAlike same some format_float request request parts-AreShort
      parts-AreShort (λ e. e)

abbrev begun : Writer
begun = record new_writer { status = 200; wrote_header = true }

abbrev options : Options Fixed Fixed ℕ
options = record { store = none; policy = none; labeler = none; prices = none }

new_server-IsReady_test :
    IsReady (new_server 0 config options)
    × All IsValid (new_server 0 config options).store
    × ((new_server 0 config options).labeler.queue ≡ [])
    × (¬ IsReady (close (new_server 0 config options)))
new_server-IsReady_test = new_server-IsReady 0 config options refl refl
