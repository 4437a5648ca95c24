-- ===== src/Chat/Answers.antt =====
-- What an answer reports of tokens, and what it leaves in the usage log.
use infer_platform.Base.{
  ℕ, ◌+◌, ◌<◌, ◌^◌, ◌≡◌, refl, sym, ap, ◌∙◌, false, List, [], ◌∷◌, ◌++◌, Option, some, Text, ok,
  pos, as_i32-pos, wrap32-eq_of_lt, arith,
}
use infer_platform.Messages.{ChatCompletionRequest}
use infer_platform.Sanitize.{PiiPatterns}
use infer_platform.Usage.{UsageLog}
use infer_platform.Chat.{
  Reader, TokenUsage, ChatCompletionResponse, usage_of, usage_row, build_openai_response, Call,
  complete,
}

abbrev pub counts : ℕ → ℕ → TokenUsage
counts prompt eval = record {
  prompt_tokens = prompt;
  completion_tokens = eval;
  total_tokens = prompt + eval;
}

usage_of-counts :
    (prompt eval : ℕ)
    → prompt < 2 ^ 31
    → eval < 2 ^ 31
    → usage_of (some prompt) (some eval) ≡ counts prompt eval
unfolding usage_of
usage_of-counts prompt eval hp he =
    rw
      (
        wrap32-eq_of_lt prompt (omega (arith, hp)),
        wrap32-eq_of_lt eval (omega (arith, he)),
        wrap32-eq_of_lt (prompt + eval) (omega (arith, hp, he)),
      )
      refl

abbrev pub log_row : Text → Text → ℕ → ℕ → ℕ → UsageLog
log_row key_id model prompt eval now = record {
  key_id = some key_id;
  model = model;
  tokens_in = pos prompt;
  tokens_out = pos eval;
  timestamp = now;
}

-- The answer reports the counts, and the log has one more row with them.
pub record IsAccounted (call : Call) (req : ChatCompletionRequest) (log : List UsageLog)
    (prompt eval : ℕ) (answer : ChatCompletionResponse) (after : Option (List UsageLog))
    : Type 0 where
  pub reported : answer.usage ≡ counts prompt eval
  pub logged : after ≡ some (log ++ (log_row call.key_id req.model prompt eval call.now ∷ []))

usage_row-log_row :
    (key_id model : Text) (prompt eval now : ℕ)
    → prompt < 2 ^ 31
    → eval < 2 ^ 31
    → usage_row key_id model prompt eval now ≡ log_row key_id model prompt eval now
unfolding usage_row
usage_row-log_row key_id model prompt eval now hp he =
    rw (as_i32-pos prompt hp, as_i32-pos eval he) refl

-- A reply whose counts are below 2^31 is answered with these counts and their sum, and when the
-- insert succeeds the log gets one row for the caller's key with the same counts.
pub complete-IsAccounted :
    {Json : Type 0} (pii : PiiPatterns) (reader : Reader Json) (call : Call)
    (req : ChatCompletionRequest) (log : List UsageLog) (body : Json) (prompt eval : ℕ)
    (answer : ChatCompletionResponse)
    → reader.prompt_eval_count body ≡ some prompt
    → reader.eval_count body ≡ some eval
    → prompt < 2 ^ 31
    → eval < 2 ^ 31
    → call.insert_fails ≡ false
    → (complete pii reader call req (some log) body).0 ≡ ok answer
    → IsAccounted call req log prompt eval answer (complete pii reader call req (some log) body).1
unfolding complete build_openai_response
complete-IsAccounted pii reader call req log body prompt eval answer ep ee hp he fine e =
    let usage : usage_of (reader.prompt_eval_count body) (reader.eval_count body)
        ≡ counts prompt eval =
      rw (ep, ee) (usage_of-counts prompt eval hp he) in
    let same : (build_openai_response pii reader call.now body req.model call.request_id) ≡ answer =
      cc in
    record {
      reported = ap (λ (a : ChatCompletionResponse). a.usage) (sym same) ∙ usage;
      logged =
          rw
            (
              fine,
              ep,
              ee,
              wrap32-eq_of_lt prompt (omega (arith, hp)),
              wrap32-eq_of_lt eval (omega (arith, he)),
              usage_row-log_row call.key_id req.model prompt eval call.now hp he,
            )
            refl;
    }
