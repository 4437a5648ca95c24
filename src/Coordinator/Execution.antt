-- ===== src/Coordinator/Execution.antt =====
-- Execution of a request on the candidate plans. The HTTP client is the parameter `post`; `none` as
-- the body of a reply stands for one that does not parse as JSON.
use infer_platform.Base.{
  ℕ, suc, ◌≡◌, ◌≢◌, Bool, false, ◌&&◌, List, [], ◌∷◌, ◌++◌, Option, none, some, Text, codes, Result,
  ok, err, Run, returns, panics, leb, if◌then◌else◌,
}
use infer_platform.Planner.{ShardPlan, controller, is_single_node, ollama_base_url, agent_base_url}
use infer_platform.Messages.{
  ChatMessage, ChatCompletionRequest, OllamaChatRequest, build_ollama_request,
}

pub record ShardExecutionRequest : Type 0 where
  pub request_id : Text
  pub model : Text
  pub messages : List ChatMessage
  pub stream : Bool
  pub max_tokens : Option ℕ
  pub temperature : Option ℕ
  pub top_p : Option ℕ
  pub plan : ShardPlan

pub data Body : Type 0 where
  chat : OllamaChatRequest → Body
  shard : ShardExecutionRequest → Body

pub data Reply (Json : Type 0) : Type 0 where
  unreachable : Reply Json
  replied : (status : ℕ) → (body : Option Json) → Reply Json

-- The errors of `execute` and of `execute_with_failover`.
pub data ExecError : Type 0 where
  no_candidates : ExecError
  all_candidates_failed : ExecError
  not_reached : (node_id : Text) → ExecError
  bad_status : (node_id : Text) → (status : ℕ) → ExecError
  bad_body : ExecError

abbrev pub is_success : ℕ → Bool
is_success status = leb 200 status && leb status 299

unfoldable pub read_reply : {Json : Type 0} → Text → Reply Json → Result ExecError Json
read_reply node_id unreachable = err (not_reached node_id)
read_reply node_id (replied status none) =
    if is_success status then err bad_body else err (bad_status node_id status)
read_reply node_id (replied status (some body)) =
    if is_success status then ok body else err (bad_status node_id status)

unfoldable pub shard_request : ChatCompletionRequest → ShardPlan → Text → ShardExecutionRequest
shard_request req plan request_id = record {
  request_id = request_id;
  model = req.model;
  messages = req.messages;
  stream = false;
  max_tokens = req.max_tokens;
  temperature = req.temperature;
  top_p = req.top_p;
  plan = plan;
}

module _ {Json : Type 0} (post : (url : Text) → Body → Reply Json) where
  unfoldable pub single_node_execute :
      ChatCompletionRequest → ShardPlan → Run (Result ExecError Json)
  unfolding read_reply
  single_node_execute req plan = elim (controller plan) [
    | none ↦ panics
    | some node ↦ returns (
        read_reply node.node_id
          (post (ollama_base_url node ++ codes "/api/chat") (chat (build_ollama_request req))))
  ]

  unfoldable pub pipeline_execute :
      ChatCompletionRequest → ShardPlan → Text → Run (Result ExecError Json)
  unfolding read_reply
  pipeline_execute req plan request_id = elim (controller plan) [
    | none ↦ panics
    | some first ↦ returns (
        read_reply first.node_id (
          post (agent_base_url first ++ codes "/infer/shard")
            (shard (shard_request req plan request_id))))
  ]

  unfoldable pub execute : ChatCompletionRequest → ShardPlan → Text → Run (Result ExecError Json)
  unfolding single_node_execute pipeline_execute is_single_node
  execute req plan request_id =
      if is_single_node plan
      then single_node_execute req plan
      else pipeline_execute req plan request_id

-- The `for` of `execute_with_failover`, over `attempt`, which is `execute` at the attempt's number:
-- the network may answer otherwise each time.
module _ {Json : Type 0} (attempt : ℕ → ShardPlan → Run (Result ExecError Json)) where
  unfoldable pub try_candidates : ℕ → ExecError → List ShardPlan → Run (Result ExecError Json)
  try_candidates i last_err [] = returns (err last_err)
  try_candidates i last_err (plan ∷ rest) = elim (controller plan) [
    | none ↦ panics
    | some node ↦ elim (attempt i plan) [
      | panics ↦ panics
      | returns (ok result) ↦ returns (ok result)
      | returns (err e) ↦ try_candidates (suc i) e rest
    ]
  ]

  unfoldable pub execute_with_failover : List ShardPlan → Run (Result ExecError Json)
  unfolding try_candidates
  execute_with_failover [] = returns (err no_candidates)
  execute_with_failover (plan ∷ rest) = try_candidates 0 all_candidates_failed (plan ∷ rest)

  abbrev pub HasController : ShardPlan → Type 0
  HasController plan = controller plan ≢ none

  -- The attempts on these candidates, numbered from `i`, all fail, the last with `e`.
  abbrev pub AllFail : ℕ → ExecError → List ShardPlan → ExecError → Type 0
  AllFail i before [] e = before ≡ e
  AllFail i before (plan ∷ rest) e =
      HasController plan
      × ((own : ExecError) × (attempt i plan ≡ returns (err own)) × AllFail (suc i) own rest e)
