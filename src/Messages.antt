-- ===== src/Messages.antt =====
-- The chat request of crates/api-gateway/src/routes/chat.rs and the body that is sent to Ollama.
-- An f32 is its bit pattern: the gateway passes it on and never computes with it.
mod Examples
use infer_platform.Base.{
  ℕ, ◌≡◌, Bool, true, false, ◌&&◌, List, Option, none, some, Text, arith, if◌then◌else◌,
}

pub record ChatMessage : Type 0 where
  pub role : Text
  pub content : Text

pub record ChatCompletionRequest : Type 0 where
  pub model : Text
  pub messages : List ChatMessage
  pub stream : Bool
  pub max_tokens : Option ℕ
  pub temperature : Option ℕ
  pub top_p : Option ℕ

pub record OllamaOptions : Type 0 where
  pub num_predict : Option ℕ
  pub temperature : Option ℕ
  pub top_p : Option ℕ

pub record OllamaChatRequest : Type 0 where
  pub model : Text
  pub messages : List ChatMessage
  pub stream : Bool
  pub options : Option OllamaOptions

abbrev is_none {ℓ} : {A : Type ℓ} → Option A → Bool
is_none none = true
is_none (some a) = false

-- chat.rs: no options object when no option is set.
unfoldable pub build_options : ChatCompletionRequest → Option OllamaOptions
build_options req =
    if is_none req.max_tokens && is_none req.temperature && is_none req.top_p
    then none
    else some
        (record { num_predict = req.max_tokens; temperature = req.temperature; top_p = req.top_p })

-- A JSON object under construction: the members set so far.
abbrev pub empty_object : OllamaOptions
empty_object = record { num_predict = none; temperature = none; top_p = none }

abbrev pub set_temperature : Option ℕ → OllamaOptions → OllamaOptions
set_temperature none opts = opts
set_temperature (some t) opts = record opts { temperature = some t }

abbrev pub set_top_p : Option ℕ → OllamaOptions → OllamaOptions
set_top_p none opts = opts
set_top_p (some p) opts = record opts { top_p = some p }

abbrev pub set_num_predict : Option ℕ → OllamaOptions → OllamaOptions
set_num_predict none opts = opts
set_num_predict (some m) opts = record opts { num_predict = some m }

abbrev pub object_is_empty : OllamaOptions → Bool
object_is_empty opts = is_none opts.num_predict && is_none opts.temperature && is_none opts.top_p

-- shard_coordinator.rs: `Null`, here `none`, when the object stays empty.
unfoldable pub build_ollama_options : ChatCompletionRequest → Option OllamaOptions
build_ollama_options req =
    let opts =
      set_num_predict req.max_tokens
        (set_top_p req.top_p (set_temperature req.temperature empty_object)) in
    if object_is_empty opts then none else some opts

unfoldable pub build_ollama_request : ChatCompletionRequest → OllamaChatRequest
unfolding build_ollama_options
build_ollama_request req = record {
  model = req.model;
  messages = req.messages;
  stream = false;
  options = build_ollama_options req;
}

-- The non-streaming body of chat.rs, built where no node is registered.
unfoldable pub fallback_request : Bool → ChatCompletionRequest → OllamaChatRequest
unfolding build_options
fallback_request stream req = record {
  model = req.model;
  messages = req.messages;
  stream = stream;
  options = build_options req;
}

-- The coordinator posts the same body for a request as the handler posts without any node.
pub build_ollama_request-eq-fallback_request :
    (req : ChatCompletionRequest) → build_ollama_request req ≡ fallback_request false req
unfolding build_ollama_request fallback_request
build_ollama_request-eq-fallback_request req = ground arith
