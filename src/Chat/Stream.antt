-- ===== src/Chat/Stream.antt =====
-- The streamed answer of chat.rs: the reply of Ollama is read in pieces, cut into lines, and each
-- line becomes an event. `lossy` is `String::from_utf8_lossy`; what is used of it is that it keeps
-- ASCII. `parse` is serde_json on a line. A piece that cannot be read is `none`.
use infer_platform.Base.{
  ℕ, zero, suc, ◌==◌, ◌≡◌, Bool, true, List, [], ◌∷◌, ◌++◌, Option, none, some, Text, codes,
  IsAscii, is_empty, length, trim, Result, ok, err, if◌then◌else◌,
}
use infer_platform.Messages.{ChatCompletionRequest, OllamaChatRequest, fallback_request}
use infer_platform.Sanitize.{PiiPatterns, filter_pii}
use infer_platform.Usage.{UsageLog}
use infer_platform.Chat.{
  Call, ErrorBody, backend_unavailable, backend_returned, usage_row, record_usage, completion_id,
}
use infer_platform.Coordinator.Execution.{is_success}

pub record OllamaChunk : Type 0 where
  pub message : Option Text
  pub is_done : Bool
  pub prompt_eval_count : ℕ
  pub eval_count : ℕ

pub record Delta : Type 0 where
  pub role : Option Text
  pub content : Option Text

pub record ChunkChoice : Type 0 where
  pub index : ℕ
  pub delta : Delta
  pub finish_reason : Option Text

pub record ChatCompletionChunk : Type 0 where
  pub id : Text
  pub object : Text
  pub created : ℕ
  pub model : Text
  pub choices : List ChunkChoice

-- A chunk as JSON, or the marker of the end.
pub data Event : Type 0 where
  chunk : ChatCompletionChunk → Event
  all_done : Event

pub record Decoding : Type 0 where
  pub lossy : List ℕ → Text
  pub ascii_lem : (bytes : List ℕ) → IsAscii bytes → lossy bytes ≡ bytes
  pub parse : Text → Option OllamaChunk

-- What one answer keeps throughout.
pub record Session : Type 0 where
  pub id : Text
  pub created : ℕ
  pub model : Text

unfoldable pub chunk_of : Session → Delta → (finish_reason : Option Text) → Event
chunk_of s delta finish_reason = chunk (record {
  id = s.id;
  object = codes "chat.completion.chunk";
  created = s.created;
  model = s.model;
  choices = record { index = 0; delta = delta; finish_reason = finish_reason } ∷ [];
})

abbrev pub role_chunk : Session → Event
role_chunk s = chunk_of s (record { role = some (codes "assistant"); content = none }) none

abbrev pub content_chunk : Session → Text → Event
content_chunk s text = chunk_of s (record { role = none; content = some text }) none

abbrev pub final_chunk : Session → Event
final_chunk s = chunk_of s (record { role = none; content = none }) (some (codes "stop"))

abbrev pub push_cut : ℕ → Option (Text × Text) → Option (Text × Text)
push_cut c none = none
push_cut c (some (line, rest)) = some (c ∷ line, rest)

-- `find('\n')`, with what is before and after it.
unfoldable pub cut_line : Text → Option (Text × Text)
cut_line [] = none
cut_line (c ∷ buf) =
    let later = cut_line buf in if c == 10 then some ([], buf) else push_cut c later

-- One line: nothing, an event, or the end with the counts for the usage log.
pub data LineResult : Type 0 where
  silent : LineResult
  says : Event → LineResult
  ends : (prompt_eval_count eval_count : ℕ) → LineResult

-- What the pieces so far came to: still reading with a rest of the buffer, or ended.
pub data Progress : Type 0 where
  reading : (events : List Event) (buf : Text) → Progress
  ended : (events : List Event) (prompt_eval_count eval_count : ℕ) → Progress

abbrev pub after_event : Event → Progress → Progress
after_event e (reading events buf) = reading (e ∷ events) buf
after_event e (ended events p n) = ended (e ∷ events) p n

module _ (pii : PiiPatterns) (dec : Decoding) (s : Session) where
  abbrev pub say : Text → LineResult
  say filtered = if is_empty filtered then silent else says (content_chunk s filtered)

  abbrev pub handle_message : Option Text → LineResult
  handle_message none = silent
  handle_message (some content) = say (filter_pii pii content)

  abbrev pub handle_chunk : Option OllamaChunk → LineResult
  handle_chunk none = silent
  handle_chunk (some c) =
      if c.is_done then ends c.prompt_eval_count c.eval_count else handle_message c.message

  unfoldable pub handle_line : Text → LineResult
  unfolding trim
  handle_line raw =
      let line = trim raw in if is_empty line then silent else handle_chunk (dec.parse line)

  -- The result of a line before what follows.
  abbrev pub before : LineResult → Progress → Progress
  before silent later = later
  before (says e) later = after_event e later
  before (ends p n) later = ended (final_chunk s ∷ all_done ∷ []) p n

  abbrev pub take_line : (next : Text → Progress) → Text → Option (Text × Text) → Progress
  take_line next buf none = reading [] buf
  take_line next buf (some (line, rest)) = before (handle_line line) (next rest)

  -- `while let Some(nl_pos) = buf.find('\n')`; each round takes a newline off the buffer.
  unfoldable pub drain_lines : (fuel : ℕ) (buf : Text) → Progress
  unfolding handle_line cut_line
  drain_lines zero buf = reading [] buf
  drain_lines (suc fuel) buf = take_line (drain_lines fuel) buf (cut_line buf)

  -- The events of a progress followed by what the rest of the loop does with the buffer.
  abbrev pub and_then :
      Progress → (Text → List Event × Option (ℕ × ℕ)) → List Event × Option (ℕ × ℕ)
  and_then (ended events p n) next = (events, some (p, n))
  and_then (reading events buf) next = let (more, usage) = next buf in (events ++ more, usage)

  -- `while let Some(chunk_result) = byte_stream.next()`, with the events and the counts to record.
  unfoldable pub read_pieces : (buf : Text) → List (Option (List ℕ)) → List Event × Option (ℕ × ℕ)
  unfolding drain_lines
  read_pieces buf [] = (all_done ∷ [], none)
  read_pieces buf (none ∷ pieces) = (all_done ∷ [], none)
  read_pieces buf (some bytes ∷ pieces) =
      let full = buf ++ dec.lossy bytes in
      and_then (drain_lines (length full) full) (λ rest. read_pieces rest pieces)

  unfoldable pub stream_events : List (Option (List ℕ)) → List Event × Option (ℕ × ℕ)
  unfolding read_pieces
  stream_events pieces =
      let (events, usage) = read_pieces [] pieces in (role_chunk s ∷ events, usage)

pub data StreamReply : Type 0 where
  no_answer : StreamReply
  stream_of : (status : ℕ) → (pieces : List (Option (List ℕ))) → StreamReply

abbrev pub record_counts :
    Call → (model : Text) → Option (ℕ × ℕ) → Option (List UsageLog) → Option (List UsageLog)
record_counts call model none log = log
record_counts call model (some (p, n)) log =
    record_usage call.insert_fails (usage_row call.key_id model p n call.now) log

module _ (pii : PiiPatterns) (dec : Decoding) where
  abbrev pub open_stream :
      Call
      → (model : Text) → Option (List UsageLog)
      → StreamReply
      → Result ErrorBody (List Event) × Option (List UsageLog)
  open_stream call model log no_answer = (err backend_unavailable, log)
  open_stream call model log (stream_of status pieces) =
      let s : Session = record {
        id = completion_id call.request_id;
        created = call.now;
        model = model;
      } in
      let (events, usage) = stream_events pii dec s pieces in
      if is_success status
      then (ok events, record_counts call model usage log)
      else (err (backend_returned status), log)

  -- `request_id` of the call is here the new id of the completion.
  unfoldable pub stream_response :
      (post : (url : Text) → OllamaChatRequest → StreamReply)
      → Call
      → (ollama_base : Text) → ChatCompletionRequest
      → Option (List UsageLog)
      → Result ErrorBody (List Event) × Option (List UsageLog)
  unfolding stream_events usage_row fallback_request
  stream_response post call ollama_base req log =
      open_stream call req.model log
        (post (ollama_base ++ codes "/api/chat") (fallback_request true req))
