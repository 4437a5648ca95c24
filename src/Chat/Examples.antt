-- ===== src/Chat/Examples.antt =====
-- Chat answers: a stream in pieces, an accounted answer, and where a request goes.
use infer_platform.Base.{
  ℕ, ◌≡◌, refl, Bool, false, List, [], ◌∷◌, Option, none, some, Text, codes, all-IsAscii, text_eq,
  starts_with, trim, trim_start, is_whitespace, err, returns, as_i32, wrap32, ascii_casing,
  ascii_lower, arith, contains, byte_len, len_utf8, is_control, strip_prefix,
}
use infer_platform.Messages.{ChatMessage, ChatCompletionRequest, build_options, fallback_request}
use infer_platform.Nodes.{RegisterNodeRequest}
use infer_platform.License.{approved_licenses, normalize, is_approved, find_violations}
use infer_platform.Register.{
  Store, as_i64, as_u64, as_u16, from_db, inserted_row, updated, upsert_node, upsert_model,
  upsert_node_models, node_of, register_memory, register,
}
use infer_platform.Sanitize.{
  PiiPatterns, filter_pii, sanitize_request, sanitize_messages, model_is_invalid, role_is_allowed,
  allowed_roles, cleaned, keep_char,
}
use infer_platform.Chat.{
  Reader, usage_of, usage_row, build_openai_response, Call, complete, non_stream_response, Gateway,
  answers, dispatch, backend_returned,
}
use infer_platform.Coordinator.Execution.{replied}
use infer_platform.Chat.Stream.{
  OllamaChunk, all_done, Decoding, Session, role_chunk, content_chunk, final_chunk, chunk_of,
  cut_line, handle_line, drain_lines, read_pieces, stream_events,
}
use infer_platform.Chat.Lines.{split_lines, IsDrained, drain_lines-IsDrained}
use infer_platform.Chat.Refinement.{respond, events_of, stream_events_refines, stream_events_uncut}
use infer_platform.Chat.Answers.{IsAccounted, complete-IsAccounted}
use infer_platform.Chat.Routing.{Registered, start, taken, Registered-unused}

chat : Unit {0}
unfolding text_eq starts_with trim trim_start is_whitespace as_i32 wrap32 filter_pii usage_of
    usage_row build_openai_response complete chunk_of cut_line handle_line drain_lines read_pieces
    stream_events split_lines respond build_options fallback_request non_stream_response
chat = tt

-- Nothing is redacted, and ASCII is read as it is.
abbrev pii : PiiPatterns
pii = record { ssn = λ t. t; credit_card = λ t. t; email = λ t. t; phone = λ t. t }

-- A line that starts with "d" ends the answer, every other is its own content.
abbrev parse : Text → Option OllamaChunk
parse line = some (record {
  message = some line;
  is_done = starts_with line (codes "d");
  prompt_eval_count = 3;
  eval_count = 4;
})

abbrev decoding : Decoding
decoding = record { lossy = λ bytes. bytes; ascii_lem = λ bytes h. refl; parse = parse }

abbrev session : Session
session = record { id = codes "i"; created = 5; model = codes "m" }

-- "a", newline and "b" in one piece, newline, "d" and newline in the other.
abbrev pieces : List (Option (List ℕ))
pieces = some (97 ∷ 10 ∷ 98 ∷ []) ∷ some (10 ∷ 100 ∷ 10 ∷ []) ∷ []

streamed : stream_events pii decoding session pieces ≡ (
  role_chunk session
      ∷ content_chunk session (97 ∷ [])
      ∷ content_chunk session (98 ∷ [])
      ∷ final_chunk session
      ∷ all_done
      ∷ [],
  some (3, 4),
)
unfolding chat
streamed = refl

-- What a last line without a newline says is lost.
unfinished_line :
    stream_events pii decoding session (some (100 ∷ []) ∷ [])
    ≡ (role_chunk session ∷ all_done ∷ [], none)
unfolding chat
unfinished_line = refl

stream_events_refines_example :
    stream_events pii decoding session pieces
    ≡ events_of pii decoding session (97 ∷ 10 ∷ 98 ∷ 10 ∷ 100 ∷ 10 ∷ [])
stream_events_refines_example = stream_events_refines pii decoding session pieces

stream_events_uncut_example :
    stream_events pii decoding session pieces
    ≡ stream_events pii decoding session (some (97 ∷ 10 ∷ 98 ∷ 10 ∷ 100 ∷ 10 ∷ []) ∷ [])
stream_events_uncut_example =
    stream_events_uncut pii decoding session pieces
      (all-IsAscii (97 ∷ 10 ∷ 98 ∷ []) refl, (all-IsAscii (10 ∷ 100 ∷ 10 ∷ []) refl, tt))

drain_lines-IsDrained_example :
    IsDrained pii decoding session (drain_lines pii decoding session 3 (97 ∷ 10 ∷ 98 ∷ []))
drain_lines-IsDrained_example =
    drain_lines-IsDrained pii decoding session 3 (97 ∷ 10 ∷ 98 ∷ []) (omega arith)

abbrev message : ChatMessage
message = record { role = codes "user"; content = codes "hi" }

abbrev request : ChatCompletionRequest
request = record {
  model = codes "m";
  messages = message ∷ [];
  stream = false;
  max_tokens = none;
  temperature = none;
  top_p = none;
}

-- A body is its content and its two counts.
abbrev Body : Type 0
Body = Text × ℕ × ℕ

abbrev reader : Reader Body
reader = record {
  content = λ b. some b.0;
  prompt_eval_count = λ b. some b.1;
  eval_count = λ b. some b.2;
}

abbrev call : Call
call = record { key_id = codes "k"; request_id = codes "r"; now = 9; insert_fails = false }

bad_status :
    (non_stream_response pii reader (λ url body. replied 500 none) call (codes "u") request none).0
    ≡ err (backend_returned 500)
unfolding chat
bad_status = refl

complete-IsAccounted_example :
    IsAccounted call request [] 7 8
      (build_openai_response pii reader 9 (codes "ok", 7, 8) (codes "m") (codes "r"))
      (complete pii reader call request (some []) (codes "ok", 7, 8)).1
unfolding chat
complete-IsAccounted_example =
    complete-IsAccounted pii reader call request [] (codes "ok", 7, 8) 7 8
      (build_openai_response pii reader 9 (codes "ok", 7, 8) (codes "m") (codes "r")) refl refl
      (omega arith) (omega arith) refl refl

gateway : Unit {0}
unfolding text_eq trim trim_start is_whitespace ascii_lower contains byte_len len_utf8 starts_with
    strip_prefix is_control sanitize_request sanitize_messages model_is_invalid role_is_allowed
    allowed_roles cleaned keep_char approved_licenses normalize is_approved find_violations as_i64
    as_u64 as_u16 from_db inserted_row updated upsert_node upsert_model upsert_node_models node_of
    register_memory register
gateway = tt

abbrev node : RegisterNodeRequest
node = record {
  name = codes "n";
  host = codes "h";
  port = 11434;
  agent_port = 8181;
  gpu_name = codes "g";
  vram_mb = 65536;
  models = [];
}

abbrev no_failure : ℕ → Bool
no_failure i = false

abbrev empty : Store
empty = record { db = some []; node_models = []; nodes = [] }

abbrev one_node : Store
one_node = (register ascii_casing false no_failure (codes "1") 5 node empty).1

one_node-Registered : Registered ascii_casing one_node
unfolding gateway
one_node-Registered =
    taken no_failure (codes "1") 5 node empty (start [])
      ([], (node_of (codes "1") 5 node, inserted_row (node_of (codes "1") 5 node) ∷ []), refl, refl)

abbrev of_store : Store → Gateway
of_store store = record {
  ollama_url = codes "http://localhost:11434";
  nodes = store.nodes;
  node_stats = λ id. none;
  rr_counter = 0;
  usage_logs = some [];
}

Registered-unused_example :
    dispatch ascii_casing (of_store one_node) request ≡ returns (answers [] request, 0)
unfolding gateway
Registered-unused_example =
    Registered-unused ascii_casing one_node (of_store one_node) request one_node-Registered refl
      refl
