-- ===== src/Agent/Loops.antt =====
-- A plan whose nodes share one agent port, as the default of 8181 makes them.
use infer_platform.Base.{
  ℕ, zero, suc, ◌<◌, ==_iff, ◌≡◌, ◌⊎◌, inl, inr, refl, ap, true, List, ◌∷◌, Option, none, some,
  Text, text_eq_refl, length, get_elem?, lt→ltb, arith,
}
use infer_platform.Planner.{ShardPlan, ShardAssignment}
use infer_platform.Messages.{OllamaChatRequest}
use infer_platform.Coordinator.Execution.{Reply, unreachable, replied}
use infer_platform.Agent.{
  AgentState, ShardForwardRequest, ShardForwardResponse, is_mine, shard_index, infer_shard_url,
  forward, run_ollama_inference, next_request, after_inference, read_next,
}
use infer_platform.Agent.Pipeline.{deliver, to_reply}

-- The first assignment has the port, so every node takes itself for the first shard.
shard_index_same_port :
    (state : AgentState) (plan : ShardPlan) (a : ShardAssignment) (rest : List ShardAssignment)
    → plan.assignments ≡ a ∷ rest
    → a.agent_port ≡ state.agent_port
    → shard_index state plan ≡ 0
unfolding shard_index
shard_index_same_port state plan a rest e port =
    let mine : is_mine state a ≡ true =
      ground (arith, (==_iff a.agent_port state.agent_port).1 port) in
    rw (e, mine, text_eq_refl a.node_id) refl

module _ {Json : Type 0} (content : Json → Option Text) (agents : (url : Text) → Option AgentState)
    (infer : AgentState → (url : Text) → OllamaChatRequest → Reply Json) where
  -- A caller sees no answer or a 502.
  abbrev pub IsFailure : Reply (ShardForwardResponse Json) → Type 0
  IsFailure reply = (reply ≡ unreachable) ⊎ (reply ≡ replied 502 none)

  failed_read :
      (reply : Reply (ShardForwardResponse Json))
      → IsFailure reply
      → to_reply content agents infer (read_next content reply) ≡ replied 502 none
  failed_read reply (inl e) = rw e refl
  failed_read reply (inr e) = rw e refl

  failed_after :
      (post : (url : Text) → ShardForwardRequest → Reply (ShardForwardResponse Json))
      (req : ShardForwardRequest) (state : AgentState) (a b : ShardAssignment)
      (rest : List ShardAssignment) (ran : Option Json)
      → req.plan.assignments ≡ a ∷ b ∷ rest
      → ((body : Json) → IsFailure (post (infer_shard_url b) (next_request content req body)))
      → to_reply content agents infer (after_inference content (infer state) post 0 req ran)
        ≡ replied 502 none
  failed_after post req state a b rest none e fails = refl
  failed_after post req state a b rest (some body) e fails =
      let long : 1 < length req.plan.assignments = omega (arith, ap length e) in
      let at_second : get_elem? req.plan.assignments 1 ≡ some b = ap (λ l. get_elem? l 1) e in
      rw (lt→ltb 1 (length req.plan.assignments) long, at_second)
        (failed_read (post (infer_shard_url b) (next_request content req body)) (fails body))

  failed_forward :
      (post : (url : Text) → ShardForwardRequest → Reply (ShardForwardResponse Json))
      (req : ShardForwardRequest) (state : AgentState) (a b : ShardAssignment)
      (rest : List ShardAssignment)
      → req.plan.assignments ≡ a ∷ b ∷ rest
      → a.agent_port ≡ state.agent_port
      → ((body : Json) → IsFailure (post (infer_shard_url b) (next_request content req body)))
      → to_reply content agents infer (forward content (infer state) post state req)
        ≡ replied 502 none
  unfolding forward
  failed_forward post req state a b rest e port fails =
      rw (shard_index_same_port state req.plan a (b ∷ rest) e port) (
        failed_after post req state a b rest (run_ollama_inference content (infer state) state req)
          e fails)

  fails_at_second :
      (fuel : ℕ) (req : ShardForwardRequest) (a b : ShardAssignment) (rest : List ShardAssignment)
      (second : AgentState)
      → req.plan.assignments ≡ a ∷ b ∷ rest
      → agents (infer_shard_url b) ≡ some second
      → a.agent_port ≡ second.agent_port
      → IsFailure (deliver content agents infer fuel (infer_shard_url b) req)
  unfolding deliver next_request
  fails_at_second zero req a b rest second e found port = inl refl
  fails_at_second (suc fuel) req a b rest second e found port = inr (
      rw found (
        failed_forward (deliver content agents infer fuel) req second a b rest e port (λ body.
          fails_at_second fuel (next_request content req body) a b rest second e found port)))

  -- When a plan has two or more shards and the nodes reached at its start and at its second address
  -- have the agent port of its first assignment, no number of hops gives an answer: each node takes
  -- itself for the first shard, and the second hands the request to itself again.
  pub deliver-IsFailure :
      (fuel : ℕ) (url : Text) (req : ShardForwardRequest) (a b : ShardAssignment)
      (rest : List ShardAssignment) (first second : AgentState)
      → req.plan.assignments ≡ a ∷ b ∷ rest
      → agents url ≡ some first
      → a.agent_port ≡ first.agent_port
      → agents (infer_shard_url b) ≡ some second
      → a.agent_port ≡ second.agent_port
      → IsFailure (deliver content agents infer fuel url req)
  unfolding deliver next_request
  deliver-IsFailure zero url req a b rest first second e at_url port1 found port2 = inl refl
  deliver-IsFailure (suc fuel) url req a b rest first second e at_url port1 found port2 = inr (
      rw at_url (
        failed_forward (deliver content agents infer fuel) req first a b rest e port1 (λ body.
          fails_at_second fuel (next_request content req body) a b rest second e found port2)))
