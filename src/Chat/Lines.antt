-- ===== src/Chat/Lines.antt =====
-- Cutting a text at its newlines, and the loop that takes lines off the buffer.
use infer_platform.Base.{
  ℕ, zero, suc, ◌≤◌, ◌<◌, ◌==◌, ◌≡◌, refl, sym, ap, ◌∙◌, false, List, [], ◌∷◌, ◌++◌, Option, none,
  some, Text, length, if◌then◌else◌, arith, Bool-cases, inl, inr,
}
use mathlib.Core.Path.{subst}
use infer_platform.Sanitize.{PiiPatterns}
use infer_platform.Chat.Stream.{
  Decoding, Session, push_cut, cut_line, LineResult, silent, says, ends, Progress, reading, ended,
  handle_line, before, drain_lines,
}

-- The lines that a newline ends, and what is after the last newline.
abbrev pub Split : Type 0
Split = List Text × Text

abbrev pub push : ℕ → Split → Split
push c ([], last) = ([], c ∷ last)
push c (line ∷ lines, last) = ((c ∷ line) ∷ lines, last)

abbrev pub add_line : Split → Split
add_line (lines, last) = ([] ∷ lines, last)

unfoldable pub split_lines : Text → Split
split_lines [] = ([], [])
split_lines (c ∷ t) = let later = split_lines t in if c == 10 then add_line later else push c later

-- The split of a longer text: the lines so far, and the rest with what follows.
abbrev pub join_split : List Text → Split → Split
join_split lines (more, last) = (lines ++ more, last)

push-join_split :
    (c : ℕ) (t b : Text) (s : Split)
    → split_lines t ≡ s
    → split_lines (t ++ b) ≡ join_split s.0 (split_lines (s.1 ++ b))
    → (c == 10) ≡ false
    → push c (split_lines (t ++ b)) ≡ join_split (push c s).0 (split_lines ((push c s).1 ++ b))
unfolding split_lines
push-join_split c t b ([], last) e ih no_line = rw (ih, no_line) refl
push-join_split c t b (line ∷ lines, last) e ih no_line = rw ih refl

pub split_lines-append :
    (a b : Text)
    → split_lines (a ++ b) ≡ join_split (split_lines a).0 (split_lines ((split_lines a).1 ++ b))
unfolding split_lines
split_lines-append [] b = refl
split_lines-append (c ∷ a) b = elim (Bool-cases (c == 10)) [
  | inl line ↦ rw line (ap add_line (split_lines-append a b))
  | inr more ↦ rw more (push-join_split c a b (split_lines a) refl (split_lines-append a b) more)
]

push_last :
    (c : ℕ) (s : Split)
    → (c == 10) ≡ false
    → split_lines s.1 ≡ ([], s.1)
    → split_lines (push c s).1 ≡ ([], (push c s).1)
unfolding split_lines
push_last c ([], last) more h = rw (more, h) refl
push_last c (line ∷ lines, last) more h = h

pub split_last : (t : Text) → split_lines (split_lines t).1 ≡ ([], (split_lines t).1)
unfolding split_lines
split_last [] = refl
split_last (c ∷ t) = elim (Bool-cases (c == 10)) [
  | inl line ↦ rw line (split_last t)
  | inr more ↦ rw more (push_last c (split_lines t) more (split_last t))
]

-- What a cut line is of the split.
abbrev pub IsCut : Text → Option (Text × Text) → Type 0
IsCut buf none = split_lines buf ≡ ([], buf)
IsCut buf (some (line, rest)) =
    (split_lines buf ≡ join_split (line ∷ []) (split_lines rest)) × (length rest < length buf)

push_cut-IsCut :
    (c : ℕ) (buf : Text) (found : Option (Text × Text))
    → (c == 10) ≡ false
    → IsCut buf found
    → IsCut (c ∷ buf) (push_cut c found)
unfolding split_lines
push_cut-IsCut c buf none more h = rw (more, h) refl
push_cut-IsCut c buf (some (line, rest)) more (h, shorter) =
    (rw (more, h) refl, omega (arith, shorter))

cut_line-IsCut : (buf : Text) → IsCut buf (cut_line buf)
unfolding cut_line split_lines
cut_line-IsCut [] = refl
cut_line-IsCut (c ∷ buf) = elim (Bool-cases (c == 10)) [
  | inl line ↦
      let split : split_lines (c ∷ buf) ≡ add_line (split_lines buf) = rw line refl in
      rw line (split, omega arith)
  | inr more ↦ rw more (push_cut-IsCut c buf (cut_line buf) more (cut_line-IsCut buf))
]

module _ (pii : PiiPatterns) (dec : Decoding) (s : Session) where
  unfoldable pub progress_of : List Text → Text → Progress
  progress_of [] rest = reading [] rest
  progress_of (line ∷ lines) rest =
      before pii dec s (handle_line pii dec s line) (progress_of lines rest)

  drained :
      (fuel : ℕ) (buf : Text) (found : Option (Text × Text))
      → ((rest : Text)
          → length rest ≤ fuel
          → drain_lines pii dec s fuel rest ≡ progress_of (split_lines rest).0 (split_lines rest).1)
      → length buf ≤ suc fuel
      → cut_line buf ≡ found
      → IsCut buf found
      → drain_lines pii dec s (suc fuel) buf ≡ progress_of (split_lines buf).0 (split_lines buf).1
  unfolding drain_lines progress_of
  drained fuel buf none ih enough e cut = rw (e, cut) refl
  drained fuel buf (some (line, rest)) ih enough e (cut, shorter) =
      rw (e, cut)
        (ap (before pii dec s (handle_line pii dec s line))
          (ih rest (omega (arith, enough, shorter))))

  pub drain_lines-progress_of :
      (fuel : ℕ) (buf : Text)
      → length buf ≤ fuel
      → drain_lines pii dec s fuel buf ≡ progress_of (split_lines buf).0 (split_lines buf).1
  unfolding drain_lines progress_of split_lines
  drain_lines-progress_of zero [] enough = refl
  drain_lines-progress_of zero (c ∷ buf) enough = absurd (omega arith)
  drain_lines-progress_of (suc fuel) buf enough =
      drained fuel buf (cut_line buf) (drain_lines-progress_of fuel) enough refl
        (cut_line-IsCut buf)

  -- The reader has seen the end, or no complete line is waiting in the buffer.
  abbrev pub IsDrained : Progress → Type 0
  IsDrained (reading events buf) = cut_line buf ≡ none
  IsDrained (ended events p n) = Unit

  uncut :
      (buf : Text) (found : Option (Text × Text))
      → cut_line buf ≡ found
      → IsCut buf found
      → split_lines buf ≡ ([], buf)
      → cut_line buf ≡ none
  uncut buf none e cut whole = e
  uncut buf (some (line, rest)) e (cut, shorter) whole =
      let clash : line ∷ (split_lines rest).0 ≡ [] = ap (λ (p : Split). p.0) (sym cut ∙ whole) in
      absurd (ground (arith, ap length clash))

  before-IsDrained :
      (result : LineResult) (later : Progress)
      → IsDrained later
      → IsDrained (before pii dec s result later)
  before-IsDrained silent later h = h
  before-IsDrained (says e) (reading events buf) h = h
  before-IsDrained (says e) (ended events p n) h = tt
  before-IsDrained (ends p n) later h = tt

  progress_of-IsDrained :
      (lines : List Text) (rest : Text) → cut_line rest ≡ none → IsDrained (progress_of lines rest)
  unfolding progress_of
  progress_of-IsDrained [] rest h = h
  progress_of-IsDrained (line ∷ lines) rest h =
      before-IsDrained (handle_line pii dec s line) (progress_of lines rest)
        (progress_of-IsDrained lines rest h)

  -- The loop over the lines ends of itself: with as many rounds as the buffer has characters, or
  -- more, it stops at a line that ends the answer or when the buffer has no newline left.
  pub drain_lines-IsDrained :
      (fuel : ℕ) (buf : Text) → length buf ≤ fuel → IsDrained (drain_lines pii dec s fuel buf)
  drain_lines-IsDrained fuel buf enough =
      let rest = (split_lines buf).1 in
      subst IsDrained (sym (drain_lines-progress_of fuel buf enough)) (
        progress_of-IsDrained (split_lines buf).0 rest
          (uncut rest (cut_line rest) refl (cut_line-IsCut rest) (split_last buf)))
