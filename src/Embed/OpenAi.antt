-- ===== src/Embed/OpenAi.antt =====
-- internal/embed/openai.go: the embeddings API over HTTP. The JSON of a request and of a response, and
-- the call, are arguments; a call's result is its status and the bytes that could be read.
use semblance.Prelude.{
  ℤ, pos, negsuc, ℕ, zero, suc, ◌*◌, ◌^◌, ◌≡◌, ◌≢◌, Bool, true, false, not, List, [], ◌∷◌, ◌++◌,
  Option, none, some, if◌then◌else◌, ltb, ◌==◌, length, take,
}
use semblance.Text.{Text, codes}

pub record OpenAi : Type 0 where
  pub base_url : Text
  pub api_key : Text
  pub model : Text
  pub dim : ℤ

abbrev pub new_open_ai : Text → Text → Text → ℤ → OpenAi
new_open_ai base_url api_key model dim = record {
  base_url = base_url;
  api_key = api_key;
  model = model;
  dim = dim;
}

pub record EmbeddingRequest : Type 0 where
  pub model : Text
  pub input : Text

-- The embeddings of `data`, and the usage.
pub record EmbeddingResponse (S : Type 0) : Type 0 where
  pub data_embeddings : List (List S)
  pub prompt_tokens : ℤ
  pub total_tokens : ℤ

pub data EmbedError : Type 0 where
  marshal_error url_error call_error decode_error no_embedding : EmbedError
  status_error : ℕ → Text → EmbedError

pub data Embedded (S : Type 0) : Type 0 where
  ok : List S → ℤ → Embedded S
  err : EmbedError → Embedded S

abbrev is_zero : ℤ → Bool
is_zero (pos zero) = true
is_zero (pos (suc n)) = false
is_zero (negsuc n) = false

-- The bytes of "…" follow a text that is cut.
unfoldable pub trim : Text → ℕ → Text
trim b n = if ltb n (length b) then take n b ++ (226 ∷ 128 ∷ 166 ∷ []) else b

-- The billed tokens: the prompt's, or the total if they are zero.
unfoldable pub billed : {S : Type 0} → EmbeddingResponse S → ℤ
billed out = if is_zero out.prompt_tokens then out.total_tokens else out.prompt_tokens

-- The first embedding, which must not be empty.
abbrev pub from_data : {S : Type 0} → EmbeddingResponse S → List (List S) → Embedded S
from_data out [] = err no_embedding
from_data out ([] ∷ _) = err no_embedding
from_data out ((x ∷ v) ∷ _) = ok (x ∷ v) (billed out)

abbrev pub max_response_bytes : ℕ
max_response_bytes = 8 * 2 ^ 20

-- `call url authorization body` is what `client.Do` and the reading give.
module _ {S : Type 0} (marshal : EmbeddingRequest → Option Text) (can_build : Text → Bool)
    (call : Text → Text → Text → Option (ℕ × Text))
    (unmarshal : Text → Option (EmbeddingResponse S)) where
  -- The lines after the status is found to be 200.
  unfoldable pub decode : Text → Embedded S
  decode raw = elim (unmarshal raw) [
    | none ↦ err decode_error
    | some out ↦ from_data out out.data_embeddings
  ]

  unfoldable pub embed : OpenAi → Text → Embedded S
  embed o text = elim (marshal (record { model = o.model; input = text })) [
    | none ↦ err marshal_error
    | some body ↦
        if not (can_build (o.base_url ++ codes "/embeddings"))
        then err url_error
        else elim (call (o.base_url ++ codes "/embeddings") (codes "Bearer " ++ o.api_key) body) [
          | none ↦ err call_error
          | some (status, bytes) ↦
              let raw = take max_response_bytes bytes in
              if not (status == 200) then err (status_error status (trim raw 256)) else decode raw
        ]
  ]

module _ {S : Type 0} (marshal : EmbeddingRequest → Option Text) (can_build : Text → Bool)
    (call : Text → Text → Text → Option (ℕ × Text))
    (unmarshal : Text → Option (EmbeddingResponse S)) where
  -- What an answer of the API must be for `v` and `tokens` to come of it.
  pub record IsAnswer (o : OpenAi) (text : Text) (v : List S) (tokens : ℤ) : Type 0 where
    pub body : Text
    pub bytes : Text
    pub out : EmbeddingResponse S
    pub rest : List (List S)
    pub marshaled : marshal (record { model = o.model; input = text }) ≡ some body
    pub called :
        call (o.base_url ++ codes "/embeddings") (codes "Bearer " ++ o.api_key) body
        ≡ some (200, bytes)
    pub unmarshaled : unmarshal (take max_response_bytes bytes) ≡ some out
    pub first : out.data_embeddings ≡ v ∷ rest
    pub nonempty : v ≢ []
    pub tokens_eq : tokens ≡ billed out
