-- ===== src/Chat.antt =====
-- crates/api-gateway/src/routes/chat.rs: the handler of chat completions. `Reader` is how serde_json
-- reads the members of a reply that the handler uses; the clock and the new id are arguments. The
-- streamed answer is in Chat.Stream.
pub mod Stream
pub mod Lines
pub mod Refinement
pub mod Answers
pub mod Routing
mod Examples
use infer_platform.Base.{
  ℕ, suc, ◌+◌, ◌≡◌, Bool, true, false, List, [], ◌∷◌, ◌++◌, Option, none, some, Text, Casing, codes,
  Result, ok, err, Run, returns, panics, ℤ, as_i32, wrap32, wrap64, ltb, is_empty, if◌then◌else◌,
}
use infer_platform.Messages.{
  ChatMessage, ChatCompletionRequest, OllamaChatRequest, fallback_request,
}
use infer_platform.Nodes.{NodeInfo}
use infer_platform.Planner.{ShardPlan, ShardAssignment, controller, ollama_base_url}
use infer_platform.Coordinator.{Stats, build_candidates}
use infer_platform.Coordinator.Execution.{
  Body, Reply, unreachable, replied, is_success, ExecError, execute, execute_with_failover,
}
use infer_platform.Sanitize.{SanitizeError, sanitize_request, PiiPatterns, filter_pii}
use infer_platform.Usage.{UsageLog}

-- `/message/content` as a text, and the two counts as u64.
pub record Reader (Json : Type 0) : Type 0 where
  pub content : Json → Option Text
  pub prompt_eval_count : Json → Option ℕ
  pub eval_count : Json → Option ℕ

pub record CompletionChoice : Type 0 where
  pub index : ℕ
  pub message : ChatMessage
  pub finish_reason : Text

pub record TokenUsage : Type 0 where
  pub prompt_tokens : ℕ
  pub completion_tokens : ℕ
  pub total_tokens : ℕ

pub record ChatCompletionResponse : Type 0 where
  pub id : Text
  pub object : Text
  pub created : ℕ
  pub model : Text
  pub choices : List CompletionChoice
  pub usage : TokenUsage

abbrev pub or_zero : Option ℕ → ℕ
or_zero none = 0
or_zero (some n) = n

abbrev pub or_empty : Option Text → Text
or_empty none = []
or_empty (some t) = t

-- `as u32` keeps the low 32 bits, and so does the sum of a release build.
unfoldable pub usage_of : (prompt eval : Option ℕ) → TokenUsage
unfolding wrap32
usage_of prompt eval =
    let prompt_tokens = wrap32 (or_zero prompt) in
    let completion_tokens = wrap32 (or_zero eval) in
    record {
      prompt_tokens = prompt_tokens;
      completion_tokens = completion_tokens;
      total_tokens = wrap32 (prompt_tokens + completion_tokens);
    }

abbrev pub completion_id : Text → Text
completion_id request_id = codes "chatcmpl-" ++ request_id

unfoldable pub build_openai_response :
    {Json : Type 0}
    → PiiPatterns
    → Reader Json
    → (now : ℕ) (ollama_body : Json) (model request_id : Text) → ChatCompletionResponse
unfolding filter_pii usage_of
build_openai_response pii reader now ollama_body model request_id = record {
  id = completion_id request_id;
  object = codes "chat.completion";
  created = now;
  model = model;
  choices =
      record {
        index = 0;
        message = record {
          role = codes "assistant";
          content = filter_pii pii (or_empty (reader.content ollama_body));
        };
        finish_reason = codes "stop";
      }
      ∷ [];
  usage = usage_of (reader.prompt_eval_count ollama_body) (reader.eval_count ollama_body);
}

-- The answers of `error_json`, with the status each is sent with.
pub data ErrorBody : Type 0 where
  unprocessable : SanitizeError → ErrorBody
  backend_unavailable invalid_response : ErrorBody
  backend_returned : (status : ℕ) → ErrorBody
  candidates_failed : ExecError → ErrorBody

unfoldable pub status_of : ErrorBody → ℕ
status_of (unprocessable e) = 422
status_of backend_unavailable = 502
status_of invalid_response = 502
status_of (backend_returned status) = 502
status_of (candidates_failed e) = 502

-- The row that `record_usage` inserts in the background; a failure is only logged.
unfoldable pub usage_row :
    (key_id model : Text) (prompt_tokens completion_tokens now : ℕ) → UsageLog
unfolding as_i32
usage_row key_id model prompt_tokens completion_tokens now = record {
  key_id = some key_id;
  model = model;
  tokens_in = as_i32 prompt_tokens;
  tokens_out = as_i32 completion_tokens;
  timestamp = now;
}

abbrev pub record_usage :
    (fails : Bool) → UsageLog → Option (List UsageLog) → Option (List UsageLog)
record_usage fails row none = none
record_usage fails row (some log) = if fails then some log else some (log ++ (row ∷ []))

-- What a handler knows besides the request: the key, the ids and clock, and whether an insert fails.
pub record Call : Type 0 where
  pub key_id : Text
  pub request_id : Text
  pub now : ℕ
  pub insert_fails : Bool

module _ {Json : Type 0} (pii : PiiPatterns) (reader : Reader Json) where
  abbrev pub Answer : Type 0
  Answer = Result ErrorBody ChatCompletionResponse × Option (List UsageLog)

  -- The answer to a body, and the row in the log where there is a database.
  unfoldable pub complete : Call → ChatCompletionRequest → Option (List UsageLog) → Json → Answer
  unfolding build_openai_response usage_row
  complete call req log body =
      let resp = build_openai_response pii reader call.now body req.model call.request_id in
      (
        ok resp,
        record_usage call.insert_fails
            (usage_row call.key_id req.model resp.usage.prompt_tokens resp.usage.completion_tokens
              call.now)
            log,
      )

  abbrev pub read_body : Call → ChatCompletionRequest → Option (List UsageLog) → Reply Json → Answer
  read_body call req log unreachable = (err backend_unavailable, log)
  read_body call req log (replied status none) =
      (if is_success status then err invalid_response else err (backend_returned status), log)
  read_body call req log (replied status (some body)) =
      if is_success status then complete call req log body else (err (backend_returned status), log)

  -- `post` is the POST to a local Ollama.
  unfoldable pub non_stream_response :
      (post : (url : Text) → OllamaChatRequest → Reply Json)
      → Call
      → (ollama_base : Text) → ChatCompletionRequest
      → Option (List UsageLog)
      → Answer
  unfolding complete fallback_request
  non_stream_response post call ollama_base req log =
      read_body call req log (post (ollama_base ++ codes "/api/chat") (fallback_request false req))

  abbrev pub read_execution :
      Call
      → ChatCompletionRequest
      → Option (List UsageLog)
      → Run (Result ExecError Json)
      → Run Answer
  read_execution call req log panics = panics
  read_execution call req log (returns (ok body)) = returns (complete call req log body)
  read_execution call req log (returns (err e)) = returns (err (candidates_failed e), log)

  -- The branch without streaming. `attempt` is the `execute` of each candidate by its number.
  unfoldable pub answer_once :
      (post : (url : Text) → OllamaChatRequest → Reply Json)
      → (attempt : ℕ → ShardPlan → Run (Result ExecError Json)) → Call
      → (ollama_url : Text) → ChatCompletionRequest
      → Option (List UsageLog)
      → (candidates : List ShardPlan) → Run Answer
  unfolding non_stream_response complete
  answer_once post attempt call ollama_url req log candidates =
      if is_empty candidates
      then returns (non_stream_response post call ollama_url req log)
      else read_execution call req log (execute_with_failover attempt candidates)

-- The base address for a streamed answer: the first candidate's controller, or the default.
unfoldable pub stream_base : (ollama_url : Text) → List ShardPlan → Run Text
stream_base ollama_url [] = returns ollama_url
stream_base ollama_url (plan ∷ rest) = elim (controller plan) [
  | none ↦ panics
  | some node ↦ returns (ollama_base_url node)
]

-- What the handler reads of the gateway's state.
pub record Gateway : Type 0 where
  pub ollama_url : Text
  pub nodes : List NodeInfo
  pub node_stats : Stats
  pub rr_counter : ℕ
  pub usage_logs : Option (List UsageLog)

-- What `completions` does with a request: an error, or one of the two kinds of answer for the
-- cleaned request and its candidates, with the counter that the coordinator keeps.
pub data Dispatch : Type 0 where
  refused : ErrorBody → Dispatch
  streams : (base : Text) → ChatCompletionRequest → Dispatch
  answers : (candidates : List ShardPlan) → ChatCompletionRequest → Dispatch

abbrev pub by_kind :
    (ollama_url : Text) → ChatCompletionRequest → List ShardPlan × ℕ → Run (Dispatch × ℕ)
by_kind ollama_url req (candidates, counter) =
    if req.stream
    then elim (stream_base ollama_url candidates) [
      | panics ↦ panics
      | returns base ↦ returns (streams base req, counter)
    ]
    else returns (answers candidates req, counter)

abbrev pub then_by_kind :
    (ollama_url : Text) → ChatCompletionRequest → Run (List ShardPlan × ℕ) → Run (Dispatch × ℕ)
then_by_kind ollama_url req panics = panics
then_by_kind ollama_url req (returns built) = by_kind ollama_url req built

abbrev pub dispatch_checked :
    Casing → Gateway → Result SanitizeError (Unit {0}) × ChatCompletionRequest → Run (Dispatch × ℕ)
dispatch_checked u g (err e, req) = returns (refused (unprocessable e), g.rr_counter)
dispatch_checked u g (ok _, req) =
    then_by_kind g.ollama_url req (build_candidates u req.model g.nodes g.node_stats g.rr_counter)

unfoldable pub dispatch : Casing → Gateway → ChatCompletionRequest → Run (Dispatch × ℕ)
unfolding stream_base
dispatch u g req = dispatch_checked u g (sanitize_request req)
