-- ===== src/Gateway/Request.antt =====
-- internal/gateway/chat.go: what the gateway reads of a request and of a response. Decoding a JSON
-- string, formatting a float with four decimals and the digest are arguments.
use semblance.Cache.Key.{bucket_key}
use semblance.Double.{Double}
use semblance.OpenAi.{Message, ChatCompletionRequest, ChatCompletionResponse}
use semblance.Prelude.{
  ℤ, pos, negsuc, Bool, true, false, not, ◌&&◌, List, [], ◌∷◌, ◌++◌, Option, none, some,
  if◌then◌else◌, ltb, init, last?,
}
use semblance.Text.{Text, text_eq, codes}

abbrev pub is_empty : Text → Bool
is_empty [] = true
is_empty (b ∷ bs) = false

-- The text and whether it was a JSON string.
unfoldable pub message_text : (Text → Option Text) → Text → Text × Bool
message_text decode_string raw =
    if is_empty raw
    then ([], false)
    else elim (decode_string raw) [ some s ↦ (s, true) | none ↦ (raw, false) ]

-- The texts of the system messages, each behind its line feed.
unfoldable pub system_texts : (Text → Option Text) → List Message → Text
system_texts decode_string [] = []
system_texts decode_string (m ∷ ms) =
    let (txt, ok) = message_text decode_string m.content in
    let rest = system_texts decode_string ms in
    if text_eq m.role (codes "system") && ok then txt ++ (10 ∷ rest) else rest

-- The role and the text of each turn.
unfoldable pub turns : (Text → Option Text) → List Message → List Text
turns decode_string [] = []
turns decode_string (m ∷ ms) =
    m.role ∷ (message_text decode_string m.content).0 ∷ turns decode_string ms

module _ {F : Type 0} where
  unfoldable pub final_user_text : (Text → Option Text) → ChatCompletionRequest F → Text × Bool
  final_user_text decode_string req = elim (last? req.messages) [
    | none ↦ ([], false)
    | some m ↦
        if not (text_eq m.role (codes "user"))
        then ([], false)
        else message_text decode_string m.content
  ]

  unfoldable pub system_prompt : (Text → Option Text) → ChatCompletionRequest F → Text
  unfolding system_texts
  system_prompt decode_string req = system_texts decode_string req.messages

  unfoldable pub float_ptr_string : (F → Text) → Option F → Text
  float_ptr_string format_float none = []
  float_ptr_string format_float (some f) = format_float f

  unfoldable pub key_parts : (Text → Option Text) → (F → Text) → ChatCompletionRequest F → List Text
  key_parts decode_string format_float req =
      req.model
      ∷ system_prompt decode_string req
      ∷ float_ptr_string format_float req.temperature
      ∷ float_ptr_string format_float req.top_p
      ∷ turns decode_string (init req.messages)

  unfoldable pub bucket_key_for_request :
      (Text → Text) → (Text → Option Text) → (F → Text) → ChatCompletionRequest F → Text
  unfolding key_parts
  bucket_key_for_request digest decode_string format_float req =
      bucket_key digest (key_parts decode_string format_float req)

pub data Bypass : Type 0 where
  stream tools functions many_choices temperature no_user_turn no_embedder embed_error : Bypass

abbrev pub more_than_one : ℤ → Bool
more_than_one (pos n) = ltb 1 n
more_than_one (negsuc n) = false

module _ {F : Type 0} ⦃d : Double F⦄ where
  -- `none` is a request that can be cached.
  unfoldable pub bypass_reason : (Text → Option Text) → F → ChatCompletionRequest F → Option Bypass
  bypass_reason decode_string ceiling req =
      let many : Bool = elim req.n [ none ↦ false | some n ↦ more_than_one n ] in
      let hot : Bool = elim req.temperature [ none ↦ false | some t ↦ d.lt ceiling t ] in
      if req.stream
      then some stream
      else if not (is_empty req.tools)
      then some tools
      else if not (is_empty req.functions)
      then some functions
      else if many
      then some many_choices
      else if hot
      then some temperature
      else if (final_user_text decode_string req).1
      then none
      else some no_user_turn

-- `unmarshal` gives the response, and whether it decoded without an error.
unfoldable pub extract_content :
    (Text → Option Text) → (Text → ChatCompletionResponse × Bool) → Text → Text
extract_content decode_string unmarshal body =
    let (resp, ok) = unmarshal body in
    if not ok then [] else elim resp.choices [
      | [] ↦ []
      | c ∷ _ ↦
          let (txt, plain) = message_text decode_string c.message.content in
          if plain then txt else c.message.content
    ]
