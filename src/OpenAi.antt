-- ===== src/OpenAi.antt =====
-- internal/openai/types.go: the part of the chat-completions API that the gateway reads. Raw JSON is
-- its bytes; a pointer is an option.
use semblance.Prelude.{ℤ, Bool, List, Option}
use semblance.Text.{Text}

pub record Message : Type 0 where
  pub role : Text
  pub content : Text

pub record ChatCompletionRequest (F : Type 0) : Type 0 where
  pub model : Text
  pub messages : List Message
  pub stream : Bool
  pub temperature : Option F
  pub top_p : Option F
  pub n : Option ℤ
  pub tools : Text
  pub functions : Text

pub record Usage : Type 0 where
  pub prompt_tokens : ℤ
  pub completion_tokens : ℤ
  pub total_tokens : ℤ

pub record Choice : Type 0 where
  pub index : ℤ
  pub message : Message
  pub finish_reason : Text

pub record ChatCompletionResponse : Type 0 where
  pub id : Text
  pub object : Text
  pub created : ℤ
  pub model : Text
  pub choices : List Choice
  pub usage : Usage
