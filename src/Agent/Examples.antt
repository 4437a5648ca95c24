-- ===== src/Agent/Examples.antt =====
-- Two nodes that pass a request along, and two that share their agent port.
use infer_platform.Base.{
  ℕ, ◌+◌, ◌≡◌, refl, false, [], ◌∷◌, Option, none, some, Text, codes, text_eq, decimal,
  if◌then◌else◌,
}
use infer_platform.Planner.{ShardPlan, ShardAssignment, base_url, agent_base_url}
use infer_platform.Messages.{OllamaChatRequest}
use infer_platform.Coordinator.Execution.{Reply, replied}
use infer_platform.Agent.{
  AgentState, ShardForwardRequest, shard_index, infer_shard_url, forward, run_ollama_inference,
  next_request, own_response, inference_body,
}
use infer_platform.Agent.Pipeline.{deliver}
use infer_platform.Agent.Loops.{IsFailure, deliver-IsFailure}
use infer_platform.Agent.Registration.{rejected, failed, started, rounds, round}

agent : Unit {0}
unfolding text_eq decimal base_url agent_base_url shard_index inference_body run_ollama_inference
    next_request own_response forward deliver round rounds
agent = tt

abbrev shard : Text → ℕ → ℕ → ShardAssignment
shard host agent_port layer_start = record {
  node_id = host;
  host = host;
  ollama_port = 11434;
  agent_port = agent_port;
  layer_start = layer_start;
  layer_end = layer_start + 4;
  vram_required_mb = 100;
}

abbrev a : ShardAssignment
a = shard (codes "a") 8181 0

abbrev b : ShardAssignment
b = shard (codes "b") 8182 4

-- As `b`, but with the agent port of `a`.
abbrev c : ShardAssignment
c = shard (codes "c") 8181 4

abbrev plan : ShardAssignment → ShardPlan
plan second = record { model = codes "m"; total_layers = 8; assignments = a ∷ second ∷ [] }

abbrev request : ShardAssignment → ShardForwardRequest
request second = record {
  request_id = codes "r";
  model = codes "m";
  messages = [];
  stream = false;
  max_tokens = none;
  temperature = none;
  top_p = none;
  plan = plan second;
}

abbrev node : ShardAssignment → AgentState
node s = record { node_host = some s.host; node_port = s.ollama_port; agent_port = s.agent_port }

abbrev agents : Text → Option AgentState
agents url =
    if text_eq url (infer_shard_url a)
    then some (node a)
    else if text_eq url (infer_shard_url b)
    then some (node b)
    else if text_eq url (infer_shard_url c)
    then some (node c)
    else none

abbrev infer : AgentState → Text → OllamaChatRequest → Reply ℕ
infer state url body = replied 200 (some state.agent_port)

abbrev content : ℕ → Option Text
content json = some (json ∷ [])

deliver-IsFailure_example :
    IsFailure content agents infer (deliver content agents infer 7 (infer_shard_url a) (request c))
unfolding agent
deliver-IsFailure_example =
    deliver-IsFailure content agents infer 7 (infer_shard_url a) (request c) a c [] (node a)
      (node c) refl refl refl refl refl

waits_of_three : (rounds started (failed ∷ rejected ∷ failed ∷ [])).backoff_secs ≡ 16
unfolding agent
waits_of_three = refl
