-- ===== src/Sanitize/Examples.antt =====
-- The request check on concrete requests.
use infer_platform.Base.{
  ◌≡◌, refl, ap, List, [], ◌∷◌, none, false, Text, codes, ok, err, text_eq, contains, byte_len,
  len_utf8, starts_with, strip_prefix, is_control,
}
use infer_platform.Messages.{ChatMessage, ChatCompletionRequest}
use infer_platform.Sanitize.{
  sanitize_request, sanitize_messages, model_is_invalid, role_is_allowed, allowed_roles, cleaned,
  keep_char, invalid_role, empty_messages,
}
use infer_platform.Sanitize.Accepted.{
  IsAcceptedFrom, IsSanitized, sanitize_request_accepted, sanitize_request_kept,
}

sanitizer : Unit {0}
unfolding sanitize_request sanitize_messages model_is_invalid role_is_allowed allowed_roles cleaned
    keep_char text_eq contains byte_len len_utf8 starts_with strip_prefix is_control
sanitizer = tt

abbrev request : List ChatMessage → ChatCompletionRequest
request messages = record {
  model = codes "llama3";
  messages = messages;
  stream = false;
  max_tokens = none;
  temperature = none;
  top_p = none;
}

abbrev message : Text → Text → ChatMessage
message role content = record { role = role; content = content }

-- "a", NUL, "b" and a newline.
abbrev with_nul : ChatCompletionRequest
with_nul = request (message (codes "user") (97 ∷ 0 ∷ 98 ∷ 10 ∷ []) ∷ [])

abbrev without_nul : ChatCompletionRequest
without_nul = request (message (codes "user") (97 ∷ 98 ∷ 10 ∷ []) ∷ [])

nul_is_dropped : sanitize_request with_nul ≡ (ok tt, without_nul)
unfolding sanitizer
nul_is_dropped = refl

unknown_role :
    (sanitize_request (request (message (codes "root") [] ∷ []))).0
    ≡ err (invalid_role (codes "root"))
unfolding sanitizer
unknown_role = refl

no_messages : (sanitize_request (request [])).0 ≡ err empty_messages
unfolding sanitizer
no_messages = refl

sanitize_request_accepted_example : IsAcceptedFrom with_nul (sanitize_request with_nul).1
sanitize_request_accepted_example =
    sanitize_request_accepted with_nul (ap (λ r. r.0) nul_is_dropped)

kept_message : IsSanitized without_nul
unfolding sanitizer
kept_message = (sanitize_request_accepted without_nul refl).sanitized

sanitize_request_kept_example : sanitize_request without_nul ≡ (ok tt, without_nul)
sanitize_request_kept_example = sanitize_request_kept without_nul kept_message
