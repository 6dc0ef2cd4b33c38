-- ===== src/Execution/Lines.antt =====
-- The lines of the corpus: buildCorpus (internal/execution/prompt.go).
use muesli.Base.{
  ℕ, zero, suc, ◌+◌, ◌≡◌, refl, sym, ap, subst, ◌∙◌, inl, inr, Bool-cases, some, List, [], ◌∷◌,
  ◌++◌, append-nil, append_assoc, get_elem?, if◌then◌else◌, arith,
}
use muesli.Base.Text.{Text, codes, decimal, is_empty, trim_space}
use muesli.Execution.{
  Segment, Document, SourceRef, ExecutionInput, citation_key, number_of, number_at, newline,
  system_directive, citations_notice, segment_line, segment_lines, meeting_block, meeting_blocks,
  build_corpus,
}

-- A text has a line of its own, between line feeds.
pub record HasLine (line text : Text) : Type 0 where
  pub before : Text
  pub after : Text
  pub split : text ≡ before ++ newline ++ line ++ newline ++ after

-- The line of a segment: its number in brackets, the speaker if there is one, and the text.
abbrev pub cited_line : ℕ → Segment → Text
cited_line n seg =
    codes "["
    ++ decimal n
    ++ codes "] "
    ++ (if is_empty seg.speaker then [] else seg.speaker ++ codes ": ")
    ++ seg.text

HasLine-append_right : (line t u : Text) → HasLine line t → HasLine line (t ++ u)
HasLine-append_right line t u h = record {
  before = h.before;
  after = h.after ++ u;
  split =
      ap (λ x. x ++ u) h.split ∙ append_assoc (h.before ++ newline ++ line ++ newline) h.after u;
}

HasLine-append_left : (line u t : Text) → HasLine line t → HasLine line (u ++ t)
HasLine-append_left line u t h = record {
  before = u ++ h.before;
  after = h.after;
  split = ap (λ x. u ++ x) h.split ∙ simp append_assoc;
}

segment_lines-HasLine :
    (m : List (Text × ℕ)) (note_id : Text) (k i : ℕ) (segs : List Segment) (seg : Segment)
    → get_elem? segs i ≡ some seg
    → HasLine
        (cited_line (number_at m (citation_key note_id (i + k))) seg)
        (newline ++ segment_lines m note_id k segs)
unfolding segment_lines segment_line
segment_lines-HasLine m note_id k i [] seg e = absurd cc
segment_lines-HasLine m note_id k zero (s ∷ segs) seg e =
    let same : s ≡ seg = cc e in
    let index : 0 + k ≡ k = omega arith in
    let text = newline ++ segment_lines m note_id k (s ∷ segs) in
    subst (λ x. HasLine (cited_line (number_at m (citation_key note_id (0 + k))) x) text) same
      (subst (λ n. HasLine (cited_line (number_at m (citation_key note_id n)) s) text) (sym index)
        (record { before = []; after = segment_lines m note_id (suc k) segs; split = refl }))
segment_lines-HasLine m note_id k (suc i) (s ∷ segs) seg e =
    let index : i + suc k ≡ suc i + k = omega arith in
    let line = cited_line (number_at m (citation_key note_id k)) s in
    let rest = segment_lines m note_id (suc k) segs in
    let later = segment_lines-HasLine m note_id (suc k) i segs seg e in
    let wanted = cited_line (number_at m (citation_key note_id (i + suc k))) seg in
    let text = newline ++ segment_lines m note_id k (s ∷ segs) in
    subst (λ n. HasLine (cited_line (number_at m (citation_key note_id n)) seg) text) index
      (subst (HasLine wanted) (sym (ap (λ x. newline ++ x) (append_assoc line newline rest)))
        (HasLine-append_left wanted (newline ++ line) (newline ++ rest) later))

-- What follows a line feed still does behind more text.
behind : (line h s : Text) → HasLine line (newline ++ s) → HasLine line (h ++ newline ++ s)
behind line h s k =
    subst (HasLine line) (sym (append_assoc h newline s))
      (HasLine-append_left line h (newline ++ s) k)

notes_between :
    (line h notes s : Text)
    → HasLine line (newline ++ s)
    → HasLine line (h ++ newline ++ (if is_empty notes then [] else notes ++ newline) ++ s)
notes_between line h notes s k = elim (Bool-cases (is_empty notes)) [
  | inl e ↦ rw (e, append-nil (h ++ newline)) (behind line h s k)
  | inr e ↦ rw e (
      subst (λ x. HasLine line (x ++ s)) (append_assoc (h ++ newline) notes newline)
        (behind line (h ++ newline ++ notes) s k))
]

meeting_block-HasLine :
    (m : List (Text × ℕ)) (k i : ℕ) (doc : Document) (seg : Segment)
    → get_elem? doc.segments i ≡ some seg
    → HasLine (cited_line (number_at m (citation_key doc.note_id i)) seg) (meeting_block m k doc)
unfolding meeting_block
meeting_block-HasLine m k i doc seg e =
    let index : i + 0 ≡ i = omega arith in
    let header =
      codes "--- MEETING "
      ++ decimal (k + 1)
      ++ codes ": "
      ++ doc.title
      ++ codes " | "
      ++ (if is_empty doc.occurred_at then codes "date unknown" else doc.occurred_at)
      ++ codes " | note_id="
      ++ doc.note_id
      ++ codes " ---" in
    notes_between (cited_line (number_at m (citation_key doc.note_id i)) seg) header
      doc.notes_markdown (segment_lines m doc.note_id 0 doc.segments)
      (subst
        (λ n.
          HasLine (cited_line (number_at m (citation_key doc.note_id n)) seg)
            (newline ++ segment_lines m doc.note_id 0 doc.segments))
        index (segment_lines-HasLine m doc.note_id 0 i doc.segments seg e))

pub meeting_blocks-HasLine :
    (m : List (Text × ℕ)) (k j i : ℕ) (docs : List Document) (doc : Document) (seg : Segment)
    → get_elem? docs j ≡ some doc
    → get_elem? doc.segments i ≡ some seg
    → HasLine (cited_line (number_at m (citation_key doc.note_id i)) seg) (meeting_blocks m k docs)
unfolding meeting_blocks
meeting_blocks-HasLine m k j i [] doc seg d e = absurd cc
meeting_blocks-HasLine m k zero i (x ∷ docs) doc seg d e =
    let same : x ≡ doc = cc d in
    let block = meeting_block-HasLine m k i doc seg e in
    let line = cited_line (number_at m (citation_key doc.note_id i)) seg in
    HasLine-append_right line (meeting_block m k x) (meeting_blocks m (suc k) docs)
      (subst (λ y. HasLine line (meeting_block m k y)) (sym same) block)
meeting_blocks-HasLine m k (suc j) i (x ∷ docs) doc seg d e =
    HasLine-append_left _ (meeting_block m k x) _
      (meeting_blocks-HasLine m (suc k) j i docs doc seg d e)

pub build_corpus-HasLine :
    (input : ExecutionInput) (sources : List SourceRef) (line : Text)
    → HasLine line (meeting_blocks (number_of sources []) 0 input.documents)
    → HasLine line (build_corpus input sources)
unfolding build_corpus
build_corpus-HasLine input sources line h =
    let focus = trim_space input.run_instruction in
    let begun = system_directive ++ newline ++ newline ++ codes "MEETINGS:" ++ newline in
    let meetings = begun ++ meeting_blocks (number_of sources []) 0 input.documents in
    let ended = meetings ++ newline ++ codes "FOCUS: " in
    let focused = ended ++ (if is_empty focus then codes "(none)" else focus) in
    let at_meetings =
      HasLine-append_left line begun (meeting_blocks (number_of sources []) 0 input.documents) h in
    let at_end =
      HasLine-append_right line (meetings ++ newline) (codes "FOCUS: ")
        (HasLine-append_right line meetings newline at_meetings) in
    let at_focus =
      HasLine-append_right line ended (if is_empty focus then codes "(none)" else focus) at_end in
    HasLine-append_right line (focused ++ newline ++ newline) citations_notice (
      HasLine-append_right line (focused ++ newline) newline
        (HasLine-append_right line focused newline at_focus))
