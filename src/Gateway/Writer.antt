-- ===== src/Gateway/Writer.antt =====
-- internal/gateway/middleware.go and errors.go: what a handler writes to the client.
use semblance.Assoc.{insert}
use semblance.Prelude.{
  Option, none, some, ℕ, Bool, true, false, List, [], ◌++◌, if◌then◌else◌, ltb, leb, ◌==◌, length,
  take,
}
use semblance.Text.{Text, codes, text_Eq}

-- `responseRecorder` over the response that the client gets.
pub record Writer : Type 0 where
  pub header : List (Text × Text)
  pub status : ℕ
  pub wrote_header : Bool
  pub body : Text

abbrev pub new_writer : Writer
new_writer = record { header = []; status = 0; wrote_header = false; body = [] }

-- A header that is set after the first write does not reach the client; the handlers set theirs before.
abbrev pub set_header : Text → Text → Writer → Writer
set_header key value w = record w { header = insert key value w.header }

-- The status of the first call stands. The HTTP library panics on a code below 100 or above 999: this
-- is the code for all others.
unfoldable pub write_header : ℕ → Writer → Writer
write_header code w = if w.wrote_header then w else record w { status = code; wrote_header = true }

unfoldable pub write : Text → Writer → Writer
unfolding write_header
write bytes w = let w' = write_header 200 w in record w' { body = w'.body ++ bytes }

pub record ErrorBody : Type 0 where
  pub message : Text
  pub type : Text

abbrev pub content_type : Text
content_type = codes "Content-Type"

abbrev pub json_type : Text
json_type = codes "application/json"

-- `encode` is the JSON of the error envelope.
unfoldable pub write_error : (ErrorBody → Text) → ℕ → Text → Text → Writer → Writer
write_error encode status type message w =
    write (encode (record { message = message; type = type }))
      (write_header status (set_header content_type json_type w))

-- The outcome class of the access log.
unfoldable pub outcome_for_status : ℕ → Text
outcome_for_status status =
    if leb 500 status
    then codes "server_error"
    else if leb 400 status
    then codes "client_error"
    else codes "ok"

-- The hexadecimal form of 16 random bytes, if they can be read.
unfoldable pub new_request_id : (Text → Text) → Option Text → Text
new_request_id encode none = codes "req-unknown"
new_request_id encode (some bytes) = encode bytes

-- The correlation ID: the client's, trimmed and cut at 200 bytes, or a new one.
unfoldable pub request_id : (Text → Text) → Text → Text → Text
request_id trim fresh given =
    let id = if length (trim given) == 0 then fresh else trim given in
    if ltb 200 (length id) then take 200 id else id
