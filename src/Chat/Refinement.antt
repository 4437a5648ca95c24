-- ===== src/Chat/Refinement.antt =====
-- The streamed answer against its specification: the whole reply, cut at its newlines.
use infer_platform.Base.{
  ℕ, ◌≡◌, refl, sym, ap, ◌∙◌, List, [], ◌∷◌, ◌++◌, Option, none, some, Text, IsAscii, length, arith,
  All, All-append, ◌<◌,
}
use mathlib.Core.List.{append_assoc, append-nil}
use infer_platform.Sanitize.{PiiPatterns}
use infer_platform.Chat.Stream.{
  Event, all_done, Decoding, Session, role_chunk, final_chunk, LineResult, silent, says, ends,
  Progress, reading, ended, handle_line, before, and_then, read_pieces, stream_events,
}
use infer_platform.Chat.Lines.{
  Split, split_lines, split_lines-append, split_last, progress_of, drain_lines-progress_of,
}

-- The specification: the events of a list of lines, in order and up to the line that ends the
-- answer; `after` is what follows when none does.
module _ (pii : PiiPatterns) (dec : Decoding) (s : Session) where
  abbrev pub after_line : LineResult → List Event × Option (ℕ × ℕ) → List Event × Option (ℕ × ℕ)
  after_line silent after = after
  after_line (says e) (events, usage) = (e ∷ events, usage)
  after_line (ends p n) after = (final_chunk s ∷ all_done ∷ [], some (p, n))

  unfoldable pub respond : List Text → List Event × Option (ℕ × ℕ) → List Event × Option (ℕ × ℕ)
  unfolding handle_line
  respond [] after = after
  respond (line ∷ lines) after = after_line (handle_line pii dec s line) (respond lines after)

  respond-append :
      (a b : List Text) (after : List Event × Option (ℕ × ℕ))
      → respond (a ++ b) after ≡ respond a (respond b after)
  unfolding respond
  respond-append [] b after = refl
  respond-append (line ∷ a) b after =
      ap (after_line (handle_line pii dec s line)) (respond-append a b after)

  before-after_line :
      (result : LineResult) (later : Progress) (next : Text → List Event × Option (ℕ × ℕ))
      → and_then pii dec s (before pii dec s result later) next
        ≡ after_line result (and_then pii dec s later next)
  before-after_line silent later next = refl
  before-after_line (says e) (reading events buf) next = refl
  before-after_line (says e) (ended events p n) next = refl
  before-after_line (ends p n) later next = refl

  and_then-respond :
      (lines : List Text) (rest : Text) (next : Text → List Event × Option (ℕ × ℕ))
      → and_then pii dec s (progress_of pii dec s lines rest) next ≡ respond lines (next rest)
  unfolding respond progress_of
  and_then-respond [] rest next = refl
  and_then-respond (line ∷ lines) rest next =
      before-after_line (handle_line pii dec s line) (progress_of pii dec s lines rest) next
      ∙ ap (after_line (handle_line pii dec s line)) (and_then-respond lines rest next)

  abbrev pub closed : List Event × Option (ℕ × ℕ)
  closed = (all_done ∷ [], none)

  -- The bytes up to the first piece that cannot be read.
  abbrev pub arrived : List (Option (List ℕ)) → List ℕ
  arrived [] = []
  arrived (none ∷ pieces) = []
  arrived (some bytes ∷ pieces) = bytes ++ arrived pieces

  -- Their text, each piece decoded by itself.
  abbrev pub received : List (Option (List ℕ)) → Text
  received [] = []
  received (none ∷ pieces) = []
  received (some bytes ∷ pieces) = dec.lossy bytes ++ received pieces

  abbrev pub IsAsciiPiece : Option (List ℕ) → Type 0
  IsAsciiPiece none = Unit
  IsAsciiPiece (some bytes) = IsAscii bytes

  read_one :
      (buf bytes later : Text)
      → respond (split_lines ((buf ++ bytes) ++ later)).0 closed
        ≡ respond
            (split_lines (buf ++ bytes)).0
            (respond (split_lines ((split_lines (buf ++ bytes)).1 ++ later)).0 closed)
  read_one buf bytes later =
      ap (λ (p : Split). respond p.0 closed) (split_lines-append (buf ++ bytes) later)
      ∙ respond-append (split_lines (buf ++ bytes)).0
          (split_lines ((split_lines (buf ++ bytes)).1 ++ later)).0 closed

  nothing_left :
      (buf : Text)
      → split_lines buf ≡ ([], buf)
      → respond (split_lines (buf ++ [])).0 closed ≡ closed
  unfolding respond
  nothing_left buf whole =
      ap (λ t. respond (split_lines t).0 closed) (append-nil buf)
      ∙ ap (λ (p : Split). respond p.0 closed) whole

  read_pieces-respond :
      (buf : Text) (pieces : List (Option (List ℕ)))
      → split_lines buf ≡ ([], buf)
      → read_pieces pii dec s buf pieces ≡ respond (split_lines (buf ++ received pieces)).0 closed
  unfolding read_pieces
  read_pieces-respond buf [] whole = sym (nothing_left buf whole)
  read_pieces-respond buf (none ∷ pieces) whole = sym (nothing_left buf whole)
  read_pieces-respond buf (some bytes ∷ pieces) whole =
      let piece = dec.lossy bytes in
      let full = buf ++ piece in
      let rest = (split_lines full).1 in
      ap (λ p. and_then pii dec s p (λ r. read_pieces pii dec s r pieces))
        (drain_lines-progress_of pii dec s (length full) full (omega arith))
      ∙ and_then-respond (split_lines full).0 rest (λ r. read_pieces pii dec s r pieces)
      ∙ ap (respond (split_lines full).0) (read_pieces-respond rest pieces (split_last full))
      ∙ sym (read_one buf piece (received pieces))
      ∙ ap (λ t. respond (split_lines t).0 closed) (append_assoc buf piece (received pieces))

  -- The role, and the events of the lines of a text.
  abbrev pub events_of : Text → List Event × Option (ℕ × ℕ)
  events_of text = (
    role_chunk s ∷ (respond (split_lines text).0 closed).0,
    (respond (split_lines text).0 closed).1,
  )

  -- However the reply is cut into pieces, the events are the role, then those of the lines that a
  -- newline ends, up to the line that is marked as done, or the end marker when there is none. The
  -- lines are those of the texts, one after the other, as which the pieces before the first one
  -- that cannot be read are decoded, each by itself.
  pub stream_events_refines :
      (pieces : List (Option (List ℕ)))
      → stream_events pii dec s pieces ≡ events_of (received pieces)
  unfolding stream_events split_lines
  stream_events_refines pieces =
      ap (λ (r : List Event × Option (ℕ × ℕ)). (role_chunk s ∷ r.0, r.1))
        (read_pieces-respond [] pieces refl)

  IsAscii-arrived :
      (pieces : List (Option (List ℕ))) → All IsAsciiPiece pieces → IsAscii (arrived pieces)
  IsAscii-arrived [] ascii = tt
  IsAscii-arrived (none ∷ pieces) ascii = tt
  IsAscii-arrived (some bytes ∷ pieces) ascii =
      All-append (λ c. c < 128) bytes (arrived pieces) ascii.0 (IsAscii-arrived pieces ascii.1)

  ascii_received :
      (pieces : List (Option (List ℕ))) → All IsAsciiPiece pieces → received pieces ≡ arrived pieces
  ascii_received [] ascii = refl
  ascii_received (none ∷ pieces) ascii = refl
  ascii_received (some bytes ∷ pieces) ascii =
      rw (dec.ascii_lem bytes ascii.0) (ap (λ t. bytes ++ t) (ascii_received pieces ascii.1))

  received-arrived :
      (pieces : List (Option (List ℕ)))
      → All IsAsciiPiece pieces
      → received pieces ≡ received (some (arrived pieces) ∷ [])
  received-arrived pieces ascii =
      ascii_received pieces ascii
      ∙ sym (append-nil (arrived pieces))
      ∙ ap (λ t. t ++ []) (sym (dec.ascii_lem (arrived pieces) (IsAscii-arrived pieces ascii)))

  -- Suppose that the pieces are ASCII. Then the events are those of one piece with all the bytes that arrive
  -- before the first piece that cannot be read.
  pub stream_events_uncut :
      (pieces : List (Option (List ℕ)))
      → All IsAsciiPiece pieces
      → stream_events pii dec s pieces ≡ stream_events pii dec s (some (arrived pieces) ∷ [])
  stream_events_uncut pieces ascii =
      stream_events_refines pieces
      ∙ ap events_of (received-arrived pieces ascii)
      ∙ sym (stream_events_refines (some (arrived pieces) ∷ []))
