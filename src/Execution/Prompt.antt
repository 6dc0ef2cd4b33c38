-- ===== src/Execution/Prompt.antt =====
-- The corpus and the section prompts: internal/execution/prompt.go, with the key of a segment that
-- internal/execution/executor.go numbers by. A map is the list of its writes, latest first.
use muesli.Base.{
  ℕ, suc, ◌+◌, Bool, true, false, Option, none, some, List, [], ◌∷◌, ◌++◌, if◌then◌else◌,
}
use muesli.Base.Text.{Text, decimal, codes, is_empty, text_eq, trim_space}
use muesli.Execution.Documents.{Segment, Document, TemplateSection, ExecutionInput, SourceRef}

-- fmt.Sprintf("%s\x00%d", note_id, index).
unfoldable pub citation_key : Text → ℕ → Text
citation_key note_id index = note_id ++ 0 ∷ decimal index

-- A map read at a key.
unfoldable pub lookup : {A : Type 0} → Text → List (Text × A) → Option A
lookup key [] = none
lookup key ((k, v) ∷ m) = if text_eq k key then some v else lookup key m

unfoldable pub is_some : {A : Type 0} → Option A → Bool
is_some none = false
is_some (some a) = true

abbrev pub newline : Text
newline = 10 ∷ []

abbrev pub system_directive : Text
system_directive =
    codes "You are analyzing multiple distinct meetings together. "
    ++ codes
        "Base every claim strictly on the meetings below; do not use outside knowledge or speculate beyond what they say. "
    ++ codes
        "Treat each meeting as a separate, distinct source; never merge, conflate, or assume continuity between them unless the text itself says so. "
    ++ codes
        "Cite the source(s) supporting each claim inline with bracketed markers matching the numbers shown, e.g. [1] or [2][3]. "
    ++ codes
        "Use speaker names exactly as given verbatim; do not infer, abbreviate, or merge names."

-- The map `numberOf` of buildCorpus, the latest write first.
unfoldable pub number_of : List SourceRef → List (Text × ℕ) → List (Text × ℕ)
number_of [] m = m
number_of (s ∷ sources) m =
    number_of sources ((citation_key s.note_id s.segment_index, s.number) ∷ m)

-- A missing key reads as 0.
unfoldable pub number_at : List (Text × ℕ) → Text → ℕ
number_at m key = elim (lookup key m) [ none ↦ 0 | some n ↦ n ]

unfoldable pub segment_line : List (Text × ℕ) → Text → ℕ → Segment → Text
segment_line m note_id index seg =
    codes "["
    ++ decimal (number_at m (citation_key note_id index))
    ++ codes "] "
    ++ (if is_empty seg.speaker then [] else seg.speaker ++ codes ": ")
    ++ seg.text
    ++ newline

unfoldable pub segment_lines : List (Text × ℕ) → Text → ℕ → List Segment → Text
segment_lines m note_id index [] = []
segment_lines m note_id index (seg ∷ segs) =
    segment_line m note_id index seg ++ segment_lines m note_id (suc index) segs

unfoldable pub meeting_block : List (Text × ℕ) → ℕ → Document → Text
meeting_block m i doc =
    codes "--- MEETING "
    ++ decimal (i + 1)
    ++ codes ": "
    ++ doc.title
    ++ codes " | "
    ++ (if is_empty doc.occurred_at then codes "date unknown" else doc.occurred_at)
    ++ codes " | note_id="
    ++ doc.note_id
    ++ codes " ---"
    ++ newline
    ++ (if is_empty doc.notes_markdown then [] else doc.notes_markdown ++ newline)
    ++ segment_lines m doc.note_id 0 doc.segments

unfoldable pub meeting_blocks : List (Text × ℕ) → ℕ → List Document → Text
meeting_blocks m i [] = []
meeting_blocks m i (doc ∷ docs) = meeting_block m i doc ++ meeting_blocks m (suc i) docs

abbrev pub citations_notice : Text
citations_notice =
    codes "CITATIONS: Cite claims using the bracketed numbers shown above, e.g. [1], [2]. "
    ++ codes "Only use numbers that appear above; do not invent new ones."

unfoldable pub build_corpus : ExecutionInput → List SourceRef → Text
build_corpus input sources =
    let focus = trim_space input.run_instruction in
    system_directive
    ++ newline
    ++ newline
    ++ codes "MEETINGS:"
    ++ newline
    ++ meeting_blocks (number_of sources []) 0 input.documents
    ++ newline
    ++ codes "FOCUS: "
    ++ (if is_empty focus then codes "(none)" else focus)
    ++ newline
    ++ newline
    ++ citations_notice

abbrev pub documents_output_instruction : Text
documents_output_instruction =
    codes "Return a JSON object with \"content_markdown\" (the content for this section, "
    ++ codes "citing sources with the bracketed numbers given in the corpus above, e.g. "
    ++ codes "[1] or [2][3]) and optional \"refs\" (always omit or leave empty for a "
    ++ codes
        "cross-meeting analysis run -- citations live inline in content_markdown, not in refs)."

pub build_section_prompt : Text → TemplateSection → Text
build_section_prompt corpus section =
    corpus
    ++ newline
    ++ newline
    ++ codes "## The section to write"
    ++ newline
    ++ section.heading
    ++ codes " — "
    ++ section.instruction
    ++ newline
    ++ newline
    ++ codes "## Output"
    ++ newline
    ++ documents_output_instruction
