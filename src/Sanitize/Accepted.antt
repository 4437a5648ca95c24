-- ===== src/Sanitize/Accepted.antt =====
-- Which requests `sanitize_request` accepts, and that it leaves an accepted result alone.
use mathlib.Core.Path.{subst}
use infer_platform.Base.{
  ℕ, suc, ◌≤◌, ◌<◌, ◌≡◌, ◌≢◌, ◌⊎◌, inl, inr, refl, sym, ap, ◌∙◌, true, false, List, [], ◌∷◌, Text,
  codes, contains, contains_char, byte_len, is_empty-eq_false, nonempty_of_length, filter,
  filter-All, length, length_pos, ltb, Result, ok, arith, All, All-mono, All-filter_self,
}
use infer_platform.Messages.{ChatMessage, ChatCompletionRequest}
use infer_platform.Sanitize.{
  max_messages, max_content_chars, max_model_len, SanitizeError, model_is_invalid, role_is_allowed,
  keep_char, cleaned, sanitize_messages, sanitize_request, with_messages,
}

-- A tab, newline or carriage return, or outside both control blocks of Unicode.
abbrev pub IsSafeChar : ℕ → Type 0
IsSafeChar c = (c ≡ 9) ⊎ (c ≡ 10) ⊎ (c ≡ 13) ⊎ (32 ≤ c) × ((c < 127) ⊎ (160 ≤ c))

pub record IsCleanMessage (msg : ChatMessage) : Type 0 where
  pub role_allowed : role_is_allowed msg.role ≡ true
  pub safe : All IsSafeChar msg.content
  pub short : byte_len msg.content ≤ max_content_chars

abbrev pub IsPathChar : ℕ → Type 0
IsPathChar c = (c ≡ 0) ⊎ (c ≡ b'/') ⊎ (c ≡ 92)

pub record IsSanitized (req : ChatCompletionRequest) : Type 0 where
  pub named : req.model ≢ []
  pub short_name : byte_len req.model ≤ max_model_len
  pub no_path : All (λ c. ¬ IsPathChar c) req.model
  pub no_parent : contains req.model (codes "..") ≡ false
  pub some_message : 0 < length req.messages
  pub few_messages : length req.messages ≤ max_messages
  pub clean : All IsCleanMessage req.messages

keep_char_safe : (c : ℕ) → keep_char c ≡ true → IsSafeChar c
unfolding keep_char
keep_char_safe c h = ground arith

safe_kept : (c : ℕ) → IsSafeChar c → keep_char c ≡ true
unfolding keep_char
safe_kept c h = ground arith

no_path_chars :
    (model : Text)
    → contains_char model 0 ≡ false
    → contains_char model b'/' ≡ false
    → contains_char model 92 ≡ false
    → All (λ c. ¬ IsPathChar c) model
no_path_chars [] a b c = tt
no_path_chars (x ∷ model) a b c =
    (ground arith, no_path_chars model (ground arith) (ground arith) (ground arith))

has_no_char : (c : ℕ) (model : Text) → All (λ x. x ≢ c) model → contains_char model c ≡ false
has_no_char c [] a = refl
has_no_char c (x ∷ model) a = ground (arith, has_no_char c model a.1)

safe_content : (content : Text) → All IsSafeChar (filter keep_char content)
safe_content content =
    All-mono _ IsSafeChar (filter keep_char content) keep_char_safe
      (All-filter_self keep_char content)

clean_kept : (msg : ChatMessage) → IsCleanMessage msg → cleaned msg ≡ msg
unfolding cleaned
clean_kept msg c =
    let same : filter keep_char msg.content ≡ msg.content =
      filter-All keep_char msg.content (All-mono IsSafeChar _ msg.content safe_kept c.safe) in
    ap (λ content. record msg { content = content }) same

sanitize_messages-cons :
    (msg : ChatMessage) (rest : List ChatMessage)
    → role_is_allowed msg.role ≡ true
    → ltb max_content_chars (byte_len (cleaned msg).content) ≡ false
    → sanitize_messages (msg ∷ rest)
      ≡ ((sanitize_messages rest).0, cleaned msg ∷ (sanitize_messages rest).1)
unfolding sanitize_messages
sanitize_messages-cons msg rest allowed short = ground arith

sanitize_messages_errs :
    (msg : ChatMessage) (rest : List ChatMessage)
    → (sanitize_messages (msg ∷ rest)).0 ≡ ok tt
    → (role_is_allowed msg.role ≡ true)
      × (ltb max_content_chars (byte_len (cleaned msg).content) ≡ false)
unfolding sanitize_messages
sanitize_messages_errs msg rest h = (ground arith, ground arith)

cleaned-IsCleanMessage :
    (msg : ChatMessage)
    → role_is_allowed msg.role ≡ true
    → ltb max_content_chars (byte_len (cleaned msg).content) ≡ false
    → IsCleanMessage (cleaned msg)
unfolding cleaned
cleaned-IsCleanMessage msg allowed short = record {
  role_allowed = allowed;
  safe = safe_content msg.content;
  short = ground arith;
}

messages_clean :
    (messages : List ChatMessage)
    → (sanitize_messages messages).0 ≡ ok tt
    → All IsCleanMessage (sanitize_messages messages).1
      × (length (sanitize_messages messages).1 ≡ length messages)
unfolding sanitize_messages
messages_clean [] h = (tt, refl)
messages_clean (msg ∷ rest) h =
    let (allowed, short) = sanitize_messages_errs msg rest h in
    let step = sanitize_messages-cons msg rest allowed short in
    let ih = messages_clean rest (sym (ap (λ r. r.0) step) ∙ h) in
    subst
      (λ (r : Result SanitizeError (Unit {0}) × List ChatMessage).
        All IsCleanMessage r.1 × (length r.1 ≡ suc (length rest)))
      (sym step) ((cleaned-IsCleanMessage msg allowed short, ih.0), ap suc ih.1)

clean_messages_kept :
    (messages : List ChatMessage)
    → All IsCleanMessage messages
    → sanitize_messages messages ≡ (ok tt, messages)
unfolding sanitize_messages
clean_messages_kept [] a = refl
clean_messages_kept (msg ∷ rest) a =
    ground (arith, a.0.role_allowed, a.0.short, clean_kept msg a.0, clean_messages_kept rest a.1)

-- An accepted request, as it is left, is sanitized, and keeps every field but the messages.
pub record IsAcceptedFrom (before after : ChatCompletionRequest) : Type 0 where
  pub sanitized : IsSanitized after
  pub same_model : after.model ≡ before.model
  pub same_count : length after.messages ≡ length before.messages
  pub same_stream : after.stream ≡ before.stream
  pub same_max_tokens : after.max_tokens ≡ before.max_tokens
  pub same_temperature : after.temperature ≡ before.temperature
  pub same_top_p : after.top_p ≡ before.top_p

passes :
    (req : ChatCompletionRequest)
    → (sanitize_request req).0 ≡ ok tt
    → (model_is_invalid req.model ≡ false)
      × (0 < length req.messages)
      × (length req.messages ≤ max_messages)
      × (sanitize_request req ≡ with_messages req (sanitize_messages req.messages))
unfolding sanitize_request
passes req h =
    (ground arith, length_pos req.messages (λ e. ground arith), ground arith, ground arith)

model_ok :
    (model : Text)
    → model_is_invalid model ≡ false
    → (model ≢ [])
      × (byte_len model ≤ max_model_len)
      × All (λ c. ¬ IsPathChar c) model
      × (contains model (codes "..") ≡ false)
unfolding model_is_invalid
model_ok model h = (
  (λ e. ground arith),
  ground arith,
  no_path_chars model (ground arith) (ground arith) (ground arith),
  ground arith,
)

-- A request that `sanitize_request` accepts is left with a model name of 1 to 256 bytes without
-- NUL, slash, backslash or `..`, and with 1 to 100 messages, each of an allowed role and of at
-- most 32768 bytes without control characters other than tab, newline and carriage return; the
-- other fields and the number of messages stay.
pub sanitize_request_accepted :
    (req : ChatCompletionRequest)
    → (sanitize_request req).0 ≡ ok tt
    → IsAcceptedFrom req (sanitize_request req).1
sanitize_request_accepted req h =
    let (valid, some_message, few, same) = passes req h in
    let (named, short, no_path, no_parent) = model_ok req.model valid in
    let (clean, count) = messages_clean req.messages (sym (ap (λ r. r.0) same) ∙ h) in
    subst (λ (r : Result SanitizeError (Unit {0}) × ChatCompletionRequest). IsAcceptedFrom req r.1)
      (sym same)
      (record {
        sanitized = record {
          named = named;
          short_name = short;
          no_path = no_path;
          no_parent = no_parent;
          some_message = omega (arith, count);
          few_messages = omega (arith, count);
          clean = clean;
        };
        same_model = refl;
        same_count = count;
        same_stream = refl;
        same_max_tokens = refl;
        same_temperature = refl;
        same_top_p = refl;
      })

model_fine : (req : ChatCompletionRequest) → IsSanitized req → model_is_invalid req.model ≡ false
unfolding model_is_invalid
model_fine req s =
    let named = is_empty-eq_false req.model s.named in
    let nul = has_no_char 0 req.model (All-mono _ _ req.model (λ c h e. h (inl e)) s.no_path) in
    let slash =
      has_no_char b'/' req.model (All-mono _ _ req.model (λ c h e. h (inr (inl e))) s.no_path) in
    let back =
      has_no_char 92 req.model (All-mono _ _ req.model (λ c h e. h (inr (inr e))) s.no_path) in
    ground (arith, named, nul, slash, back, s.short_name, s.no_parent)

-- A sanitized request passes and is left as it is; so checking twice is checking once.
pub sanitize_request_kept :
    (req : ChatCompletionRequest) → IsSanitized req → sanitize_request req ≡ (ok tt, req)
unfolding sanitize_request
sanitize_request_kept req s =
    let valid = model_fine req s in
    let some_message =
      is_empty-eq_false req.messages (nonempty_of_length req.messages s.some_message) in
    let few : ltb max_messages (length req.messages) ≡ false = ground (arith, s.few_messages) in
    rw (valid, some_message, few, clean_messages_kept req.messages s.clean) refl
