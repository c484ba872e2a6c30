-- ===== src/Gateway/Buckets.antt =====
-- The bucket of a request: `bucketKeyForRequest` of internal/gateway/chat.go.
use semblance.Cache.Key.{AreShort, encode_parts, bucket_key-injective}
use semblance.Gateway.Request.{
  message_text, turns, system_prompt, float_ptr_string, key_parts, bucket_key_for_request,
}
use semblance.OpenAi.{Message, ChatCompletionRequest}
use semblance.Prelude.{◌≡◌, ◌↔◌, refl, sym, ap, ap₂, ◌∙◌, List, [], ◌∷◌, Option, init, map}
use semblance.Text.{Text}

-- A turn as the bucket sees it: the role, and the text or else the raw JSON of the content.
abbrev pub turn_of : (Text → Option Text) → Message → Text × Text
turn_of decode_string m = (m.role, (message_text decode_string m.content).0)

turns-injective :
    (decode_string : Text → Option Text) (ms ns : List Message)
    → turns decode_string ms ≡ turns decode_string ns
    → map (turn_of decode_string) ms ≡ map (turn_of decode_string) ns
unfolding turns
turns-injective decode_string [] [] h = refl
turns-injective decode_string [] (n ∷ ns) h = absurd (cc)
turns-injective decode_string (m ∷ ms) [] h = absurd (cc)
turns-injective decode_string (m ∷ ms) (n ∷ ns) h =
    let role : m.role ≡ n.role = cc in
    let text : (message_text decode_string m.content).0 ≡ (message_text decode_string n.content).0 =
      cc in
    let rest : turns decode_string ms ≡ turns decode_string ns = cc in
    ap₂ (λ (x : Text × Text) (xs : List (Text × Text)). x ∷ xs)
      (ap₂ (λ (a b : Text). (a, b)) role text) (turns-injective decode_string ms ns rest)

abbrev flatten : List (Text × Text) → List Text
flatten [] = []
flatten ((role, text) ∷ ts) = role ∷ text ∷ flatten ts

turns-flatten :
    (decode_string : Text → Option Text) (ms : List Message)
    → turns decode_string ms ≡ flatten (map (turn_of decode_string) ms)
unfolding turns
turns-flatten decode_string [] = refl
turns-flatten decode_string (m ∷ ms) =
    ap (λ (ts : List Text). m.role ∷ (message_text decode_string m.content).0 ∷ ts)
      (turns-flatten decode_string ms)

-- What two requests of one bucket share: all but the last turn and what no part of the key holds.
pub record IsAlike {F : Type 0} (decode_string : Text → Option Text) (format_float : F → Text)
    (r q : ChatCompletionRequest F) : Type 0 where
  pub model : r.model ≡ q.model
  pub system : system_prompt decode_string r ≡ system_prompt decode_string q
  pub temperature :
      float_ptr_string format_float r.temperature ≡ float_ptr_string format_float q.temperature
  pub top_p : float_ptr_string format_float r.top_p ≡ float_ptr_string format_float q.top_p
  pub prior :
      map (turn_of decode_string) (init r.messages) ≡ map (turn_of decode_string) (init q.messages)

-- Where the parts are shorter than 2 ^ 64 bytes and the digest does not collide on the two encodings,
-- two requests have the same bucket key exactly when they have the same model, system prompt,
-- temperature and top_p (as formatted, or both absent or empty), and the same roles and texts of all turns before
-- the last.
pub bucket_key_for_request-IsAlike :
    {F : Type 0} (digest : Text → Text) (decode_string : Text → Option Text)
    (format_float : F → Text) (r q : ChatCompletionRequest F)
    → let parts = key_parts decode_string format_float in
      AreShort (parts r)
      → AreShort (parts q)
      → (digest (encode_parts (parts r)) ≡ digest (encode_parts (parts q))
          → encode_parts (parts r) ≡ encode_parts (parts q))
      → (bucket_key_for_request digest decode_string format_float r
          ≡ bucket_key_for_request digest decode_string format_float q)
        ↔ IsAlike decode_string format_float r q
unfolding bucket_key_for_request key_parts
bucket_key_for_request-IsAlike digest decode_string format_float r q hr hq free =
    let (to, from) =
      bucket_key-injective digest (key_parts decode_string format_float r)
        (key_parts decode_string format_float q) hr hq free in
    (
      λ h.
          let same = to h in
          record {
            model = cc same;
            system = cc same;
            temperature = cc same;
            top_p = cc same;
            prior = turns-injective decode_string (init r.messages) (init q.messages) (cc same);
          },
      λ a.
          let prior : turns decode_string (init r.messages)
              ≡ turns decode_string (init q.messages) =
            turns-flatten decode_string (init r.messages)
            ∙ ap flatten a.prior
            ∙ sym (turns-flatten decode_string (init q.messages)) in
          from (cc (a.model, a.system, a.temperature, a.top_p, prior)),
    )
