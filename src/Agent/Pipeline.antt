-- ===== src/Agent/Pipeline.antt =====
-- A plan over several nodes: which place a node takes itself for, and how a request passes along.
use infer_platform.Base.{
  ℕ, zero, suc, ◌+◌, ◌≡◌, ◌≢◌, inl, inr, refl, sym, ap, ◌∙◌, Bool, true, false, List, [], ◌∷◌, ◌++◌,
  codes, take, Option, none, some, Text, text_eq, text_eq_iff, text_eq_refl, find, position, length,
  get_elem?, Result, ok, err, All, Distinct, Bool-cases,
}
use infer_platform.Planner.{ShardPlan, ShardAssignment}
use infer_platform.Messages.{OllamaChatRequest}
use infer_platform.Coordinator.Execution.{Reply, unreachable, replied}
use infer_platform.Agent.{
  AgentState, ShardForwardRequest, ShardForwardResponse, ForwardError, is_mine, shard_index,
  infer_shard_url, forward, run_ollama_inference,
}

find_at :
    (p : ShardAssignment → Bool) (xs : List ShardAssignment) (i : ℕ) (a : ShardAssignment)
    → get_elem? xs i ≡ some a
    → p a ≡ true
    → All (λ x. p x ≡ false) (take i xs)
    → find p xs ≡ some a
find_at p [] i a e h before = absurd cc
find_at p (x ∷ xs) zero a e h before =
    let same : x ≡ a = cc in let hit : p x ≡ true = ap p same ∙ h in rw hit (ap some same)
find_at p (x ∷ xs) (suc i) a e h before = rw before.0 (find_at p xs i a e h before.1)

Distinct-apart :
    (xs : List ShardAssignment) (i : ℕ) (a x : ShardAssignment)
    → All (λ y. x.node_id ≢ y.node_id) xs
    → get_elem? xs i ≡ some a
    → x.node_id ≢ a.node_id
Distinct-apart [] i a x h e = absurd cc
Distinct-apart (y ∷ xs) zero a x h e =
    let same : y ≡ a = cc in λ s. h.0 (s ∙ ap (λ (z : ShardAssignment). z.node_id) (sym same))
Distinct-apart (y ∷ xs) (suc i) a x h e = Distinct-apart xs i a x h.1 e

position_at :
    (xs : List ShardAssignment) (i : ℕ) (a : ShardAssignment)
    → Distinct (λ x. x.node_id) xs
    → get_elem? xs i ≡ some a
    → position (λ x. text_eq x.node_id a.node_id) xs ≡ some i
position_at [] i a d e = absurd cc
position_at (x ∷ xs) zero a d e =
    let same : x ≡ a = cc in
    let hit : text_eq x.node_id a.node_id ≡ true =
      ap (λ (z : ShardAssignment). text_eq z.node_id a.node_id) same ∙ text_eq_refl a.node_id in
    rw hit refl
position_at (x ∷ xs) (suc i) a d e = elim (Bool-cases (text_eq x.node_id a.node_id)) [
  | inl same ↦ absurd (Distinct-apart xs i a x d.0 e ((text_eq_iff x.node_id a.node_id).0 same))
  | inr differs ↦ rw (differs, position_at xs i a d.1 e) refl
]

-- A node takes itself for the shard at the first assignment with its host or its agent port, when
-- the nodes of the plan have different ids.
pub shard_index_own :
    (state : AgentState) (plan : ShardPlan) (i : ℕ) (a : ShardAssignment)
    → Distinct (λ x. x.node_id) plan.assignments
    → get_elem? plan.assignments i ≡ some a
    → is_mine state a ≡ true
    → All (λ x. is_mine state x ≡ false) (take i plan.assignments)
    → shard_index state plan ≡ i
unfolding shard_index
shard_index_own state plan i a d e mine before =
    rw
      (
        find_at (is_mine state) plan.assignments i a e mine before,
        position_at plan.assignments i a d e,
      )
      refl

-- The nodes behind their addresses. A call that is not answered within `fuel` hops times out.
module _ {Json : Type 0} (content : Json → Option Text) (agents : (url : Text) → Option AgentState)
    (infer : AgentState → (url : Text) → OllamaChatRequest → Reply Json) where
  abbrev pub to_reply :
      Result ForwardError (ShardForwardResponse Json) → Reply (ShardForwardResponse Json)
  to_reply (ok response) = replied 200 (some response)
  to_reply (err e) = replied 502 none

  abbrev pub visit :
      (post : (url : Text) → ShardForwardRequest → Reply (ShardForwardResponse Json))
      → ShardForwardRequest
      → Option AgentState
      → Reply (ShardForwardResponse Json)
  visit post req none = unreachable
  visit post req (some state) = to_reply (forward content (infer state) post state req)

  unfoldable pub deliver :
      (fuel : ℕ) (url : Text) → ShardForwardRequest → Reply (ShardForwardResponse Json)
  unfolding forward
  deliver zero url req = unreachable
  deliver (suc fuel) url req = visit (deliver fuel) req (agents url)

  -- A node that answers at its assignment's address, knows its place and can run the model.
  pub record IsPlaced (plan : ShardPlan) (i : ℕ) (a : ShardAssignment) : Type 0 where
    pub state : AgentState
    pub reached : agents (infer_shard_url a) ≡ some state
    pub at_place : shard_index state plan ≡ i
    pub runs :
        (req : ShardForwardRequest)
        → (body : Json) × (run_ollama_inference content (infer state) state req ≡ some body)

  abbrev pub AllPlaced : ShardPlan → Type 0
  AllPlaced plan =
      (i : ℕ) (a : ShardAssignment) → get_elem? plan.assignments i ≡ some a → IsPlaced plan i a

  -- The inference of the shard at place `i`, by the node behind its assignment's address.
  pub record Inference (i : ℕ) (req : ShardForwardRequest) : Type 0 where
    pub shard : ShardAssignment
    pub listed : get_elem? req.plan.assignments i ≡ some shard
    pub state : AgentState
    pub reached : agents (infer_shard_url shard) ≡ some state
    pub body : Json
    pub ran : run_ollama_inference content (infer state) state req ≡ some body

  -- What the last message of a request says, after an inference.
  abbrev pub text_or_empty : Option Text → Text
  text_or_empty none = []
  text_or_empty (some text) = text

  -- From the request at place `i` to the one at place `j`: each shard's inference is on the request
  -- as it stands, and its text is added to the messages as the assistant's.
  pub data Passed : ℕ → ShardForwardRequest → ℕ → ShardForwardRequest → Type 0 where
    arrived_at : (i : ℕ) (req : ShardForwardRequest) → Passed i req i req
    passed_on :
        (i j : ℕ) (req asked : ShardForwardRequest) (inference : Inference i req)
        → Passed
            (i + 1)
            (record req {
              messages =
                  req.messages
                  ++ (record {
                    role = codes "assistant";
                    content = text_or_empty (content inference.body);
                  }
                      ∷ []);
              stream = false;
            })
            j
            asked
        → Passed i req j asked

  -- The answer is the last shard's inference on the request that all shards before it passed on.
  pub record IsAnswered (req : ShardForwardRequest) (i : ℕ)
      (reply : Reply (ShardForwardResponse Json)) : Type 0 where
    pub response : ShardForwardResponse Json
    pub arrived : reply ≡ replied 200 (some response)
    pub same_id : response.request_id ≡ req.request_id
    pub same_model : response.model ≡ req.model
    pub last : ℕ
    pub is_last : last + 1 ≡ length req.plan.assignments
    pub asked : ShardForwardRequest
    pub passed : Passed i req last asked
    pub inference : Inference last asked
    pub is_body : response.ollama_body ≡ inference.body
