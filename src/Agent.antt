-- ===== src/Agent.antt =====
-- crates/node-agent/src/shard.rs: the endpoint `/infer/shard` of a node, which runs the model and
-- hands the request to the next node of the plan. The node's own Ollama is the parameter `infer`,
-- which stands for the POST to `/api/chat`, and `content` reads `/message/content` of a reply as a
-- text. `AgentState` has the fields that the handler reads, and NODE_HOST of the environment.
pub mod Pipeline
pub mod Loops
pub mod Registration
mod Examples
use infer_platform.Base.{
  ℕ, zero, suc, ◌+◌, Bool, true, false, ◌||◌, List, [], ◌∷◌, ◌++◌, Option, none, some, Text, codes,
  text_eq, decimal, find, position, length, get_elem?, ltb, ◌==◌, Result, ok, err, if◌then◌else◌,
}
use infer_platform.Planner.{ShardPlan, ShardAssignment, agent_base_url}
use infer_platform.Messages.{
  ChatMessage, OllamaOptions, OllamaChatRequest, empty_object, set_temperature, set_top_p,
  set_num_predict, object_is_empty,
}
use infer_platform.Coordinator.Execution.{Reply, unreachable, replied, is_success}

pub record AgentState : Type 0 where
  pub node_host : Option Text
  pub node_port : ℕ
  pub agent_port : ℕ

pub record ShardForwardRequest : Type 0 where
  pub request_id : Text
  pub model : Text
  pub messages : List ChatMessage
  pub stream : Bool
  pub max_tokens : Option ℕ
  pub temperature : Option ℕ
  pub top_p : Option ℕ
  pub plan : ShardPlan

pub record ShardForwardResponse (Json : Type 0) : Type 0 where
  pub request_id : Text
  pub model : Text
  pub ollama_body : Json

-- All are answered with 502.
pub data ForwardError : Type 0 where
  inference_failed : ForwardError
  next_unreachable : ForwardError
  next_returned : (status : ℕ) → ForwardError
  next_unparsed : ForwardError

abbrev pub local_host : AgentState → Text
local_host state = elim state.node_host [ none ↦ codes "127.0.0.1" | some host ↦ host ]

abbrev pub is_mine : AgentState → ShardAssignment → Bool
is_mine state a = text_eq a.host (local_host state) || (a.agent_port == state.agent_port)

abbrev or_zero : Option ℕ → ℕ
or_zero none = 0
or_zero (some i) = i

abbrev index_of : List ShardAssignment → Option ShardAssignment → ℕ
index_of assignments none = 0
index_of assignments (some a) = or_zero (position (λ x. text_eq x.node_id a.node_id) assignments)

unfoldable pub shard_index : AgentState → ShardPlan → ℕ
shard_index state plan = index_of plan.assignments (find (is_mine state) plan.assignments)

-- The body for the local Ollama.
unfoldable pub inference_body : ShardForwardRequest → OllamaChatRequest
inference_body req =
    let opts =
      set_num_predict req.max_tokens
        (set_top_p req.top_p (set_temperature req.temperature empty_object)) in
    record {
      model = req.model;
      messages = req.messages;
      stream = false;
      options = if object_is_empty opts then none else some opts;
    }

abbrev pub infer_shard_url : ShardAssignment → Text
infer_shard_url next = agent_base_url next ++ codes "/infer/shard"

module _ {Json : Type 0} (content : Json → Option Text) where
  abbrev pub read_inference : Reply Json → Option Json
  read_inference unreachable = none
  read_inference (replied status none) = none
  read_inference (replied status (some body)) = if is_success status then some body else none

  -- What the call ends in, error texts aside.
  unfoldable pub run_ollama_inference :
      (infer : (url : Text) → OllamaChatRequest → Reply Json)
      → AgentState
      → ShardForwardRequest
      → Option Json
  unfolding inference_body
  run_ollama_inference infer state req = read_inference (
      infer (codes "http://localhost:" ++ (decimal state.node_port ++ codes "/api/chat"))
        (inference_body req))

  abbrev pub assistant_turn : Json → ChatMessage
  assistant_turn body = record {
    role = codes "assistant";
    content = elim (content body) [ none ↦ [] | some text ↦ text ];
  }

  unfoldable pub next_request : ShardForwardRequest → Json → ShardForwardRequest
  next_request req body = record req {
    messages = req.messages ++ (assistant_turn body ∷ []);
    stream = false;
  }

  unfoldable pub own_response : ShardForwardRequest → Json → ShardForwardResponse Json
  own_response req body = record {
    request_id = req.request_id;
    model = req.model;
    ollama_body = body;
  }

  abbrev pub read_next :
      Reply (ShardForwardResponse Json) → Result ForwardError (ShardForwardResponse Json)
  read_next unreachable = err next_unreachable
  read_next (replied status none) =
      if is_success status then err next_unparsed else err (next_returned status)
  read_next (replied status (some body)) =
      if is_success status then ok body else err (next_returned status)

  module _ (infer : (url : Text) → OllamaChatRequest → Reply Json)
      (post : (url : Text) → ShardForwardRequest → Reply (ShardForwardResponse Json)) where
    -- The indexing at `shard_index + 1` is in range under the test; `none` is not reached.
    abbrev pub forward_next :
        ShardForwardRequest
        → Json
        → Option ShardAssignment
        → Result ForwardError (ShardForwardResponse Json)
    forward_next req body none = ok (own_response req body)
    forward_next req body (some next) =
        read_next (post (infer_shard_url next) (next_request req body))

    abbrev pub after_inference :
        ℕ → ShardForwardRequest → Option Json → Result ForwardError (ShardForwardResponse Json)
    after_inference index req none = err inference_failed
    after_inference index req (some body) =
        if ltb (index + 1) (length req.plan.assignments)
        then forward_next req body (get_elem? req.plan.assignments (index + 1))
        else ok (own_response req body)

    unfoldable pub forward :
        AgentState → ShardForwardRequest → Result ForwardError (ShardForwardResponse Json)
    unfolding shard_index run_ollama_inference next_request own_response
    forward state req =
        after_inference (shard_index state req.plan) req (run_ollama_inference infer state req)
