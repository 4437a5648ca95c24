-- ===== src/Sanitize.antt =====
-- crates/api-gateway/src/sanitize.rs: the check that every chat request passes first, and the filter
-- that every answer passes last.
pub mod Accepted
mod Examples
use infer_platform.Base.{
  ℕ, Bool, true, false, not, ◌||◌, List, [], ◌∷◌, Text, codes, text_eq, contains, contains_char,
  byte_len, is_control, is_empty, any, filter, length, ltb, ◌==◌, if◌then◌else◌, Result, ok, err,
}
use infer_platform.Messages.{ChatMessage, ChatCompletionRequest}

unfoldable pub allowed_roles : List Text
allowed_roles =
    codes "system" ∷ codes "user" ∷ codes "assistant" ∷ codes "tool" ∷ codes "function" ∷ []

abbrev pub max_messages : ℕ
max_messages = 100

abbrev pub max_content_chars : ℕ
max_content_chars = 32768

abbrev pub max_model_len : ℕ
max_model_len = 256

pub data SanitizeError : Type 0 where
  invalid_model empty_messages too_many_messages content_too_long : SanitizeError
  invalid_role : Text → SanitizeError

unfoldable pub model_is_invalid : Text → Bool
model_is_invalid model =
    is_empty model
    || ltb max_model_len (byte_len model)
    || contains_char model 0
    || contains model (codes "..")
    || contains_char model b'/'
    || contains_char model 92

unfoldable pub role_is_allowed : Text → Bool
role_is_allowed role = any (text_eq role) allowed_roles

-- Tab, newline, carriage return and all that is no control character.
unfoldable pub keep_char : ℕ → Bool
unfolding is_control
keep_char c = (c == 9) || (c == 10) || (c == 13) || not (is_control c)

unfoldable pub cleaned : ChatMessage → ChatMessage
cleaned msg = record msg { content = filter keep_char msg.content }

-- The `for` over the messages. They are changed in place, so those before an error are clean already.
unfoldable pub sanitize_messages :
    List ChatMessage → Result SanitizeError (Unit {0}) × List ChatMessage
unfolding cleaned
sanitize_messages [] = (ok tt, [])
sanitize_messages (msg ∷ rest) =
    let (result, later) = sanitize_messages rest in
    if not (role_is_allowed msg.role)
    then (err (invalid_role msg.role), msg ∷ rest)
    else if ltb max_content_chars (byte_len (cleaned msg).content)
    then (err content_too_long, cleaned msg ∷ rest)
    else (result, cleaned msg ∷ later)

abbrev pub with_messages :
    ChatCompletionRequest
    → Result SanitizeError (Unit {0}) × List ChatMessage
    → Result SanitizeError (Unit {0}) × ChatCompletionRequest
with_messages req (result, messages) = (result, record req { messages = messages })

unfoldable pub sanitize_request :
    ChatCompletionRequest → Result SanitizeError (Unit {0}) × ChatCompletionRequest
sanitize_request req =
    if model_is_invalid req.model
    then (err invalid_model, req)
    else if is_empty req.messages
    then (err empty_messages, req)
    else if ltb max_messages (length req.messages)
    then (err too_many_messages, req)
    else with_messages req (sanitize_messages req.messages)

-- `Regex::replace_all` with each of the four patterns and its label: the regex crate's part.
pub record PiiPatterns : Type 0 where
  pub ssn : Text → Text
  pub credit_card : Text → Text
  pub email : Text → Text
  pub phone : Text → Text

unfoldable pub filter_pii : PiiPatterns → Text → Text
filter_pii p text = p.phone (p.email (p.credit_card (p.ssn text)))
