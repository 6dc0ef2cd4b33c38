-- ===== src/Execution.antt =====
-- Running a template over documents: internal/execution/executor.go. The types are in
-- Execution.Documents, and prompt.go is in Execution.Prompt.
--
-- A float64 is its bits, since the code only forwards it; a segment's words and confidence pass
-- through unread and are left out. The agent plugin is the argument `generate`. A map is the list
-- of its writes, latest first.
mod Documents
mod Prompt
pub mod Admission
pub mod Cited
pub mod Gathering
pub mod Citations
pub mod Lines
pub mod Shown
pub mod Sections
pub mod Runs
mod Tests
use muesli.Base.{
  ℕ, zero, suc, ◌+◌, ◌/◌, ◌%◌, Bool, true, false, not, ◌&&◌, Option, none, some, List, [], ◌∷◌,
  ◌++◌, map, length, ltb, ◌==◌, if◌then◌else◌,
}
use muesli.Base.Int.{ℤ}
use muesli.Base.Text.{Text, decimal, codes, is_empty, text_eq, trim_space}
pub use Documents.*
unfoldable pub use Prompt.*

-- What the loops of PrepareDocuments have gathered.
pub record Gathered : Type 0 where
  pub sources : List SourceRef
  pub seen : List (Text × ℕ)
  pub generations : List (Text × ℤ)

pub nothing_gathered : Gathered
nothing_gathered = record { sources = []; seen = []; generations = [] }

-- One pass of the loop on segments.
pub gather_segment : Document → ℕ → Segment → Gathered → Gathered
gather_segment doc index seg g =
    let key = citation_key doc.note_id index in
    let n = length g.sources + 1 in
    let source : SourceRef = record {
      number = n;
      note_id = doc.note_id;
      transcript_generation = doc.transcript_generation;
      segment_index = index;
      timestamp = seg.start_ms;
      snippet = seg.text;
    } in
    if is_some (lookup key g.seen)
    then g
    else record g { sources = g.sources ++ source ∷ []; seen = (key, n) ∷ g.seen }

pub gather_segments : Document → ℕ → List Segment → Gathered → Gathered
gather_segments doc index [] g = g
gather_segments doc index (seg ∷ segs) g =
    gather_segments doc (suc index) segs (gather_segment doc index seg g)

-- One pass of the loop on documents.
pub gather_document : Document → Gathered → Gathered
gather_document doc g =
    gather_segments doc 0 doc.segments
      (record g { generations = (doc.note_id, doc.transcript_generation) ∷ g.generations })

pub gather_documents : List Document → Gathered → Gathered
gather_documents [] g = g
gather_documents (doc ∷ docs) g = gather_documents docs (gather_document doc g)

abbrev pub is_single_note : Mode → Bool
is_single_note cross_analysis = false
is_single_note single_note_summary = true

-- input.Documents[0]; without a document, which no caller reaches, nothing.
pub first_notes : List Document → Text
first_notes [] = []
first_notes (doc ∷ docs) = doc.notes_markdown

pub prepared : ExecutionInput → PreparedExecution
prepared input =
    let g = gather_documents input.documents nothing_gathered in
    let corpus =
      if is_single_note input.mode
      then first_notes input.documents
      else build_corpus input g.sources in
    record {
      input = input;
      corpus = corpus;
      section_prompts =
          if is_single_note input.mode
          then []
          else map
              (λ (s : TemplateSection). record {
                heading = s.heading;
                prompt = build_section_prompt corpus s;
              })
              input.sections;
      sources = g.sources;
      generations = g.generations;
    }

pub prepare_documents : ExecutionInput → Outcome PreparedExecution
prepare_documents input =
    if length input.documents == 0
    then fails empty_documents
    else if length input.sections == 0
    then fails empty_template
    else if is_single_note input.mode && not (length input.documents == 1)
    then fails single_note_mode_requires_one_document
    else returns (prepared input)

-- The segments of input.Documents[0].
pub first_segments : List Document → List Segment
first_segments [] = []
first_segments (doc ∷ docs) = doc.segments

pub request : PreparedExecution → GenerateRequest
request p = record {
  transcript = if is_single_note p.input.mode then first_segments p.input.documents else [];
  notes_markdown = p.corpus;
  template = p.input.sections;
  config = p.input.config;
  system_prompt = p.input.system_prompt;
  model = p.input.model;
  temperature = p.input.temperature;
  documents = if is_single_note p.input.mode then [] else p.input.documents;
}

pub has_text : Text → List Text → Bool
has_text t [] = false
has_text t (s ∷ seen) = if text_eq s t then true else has_text t seen

-- The loop of validateSections, after its check of the lengths; nothing is its success.
pub validate_each : List Text → List TemplateSection → List SummarySection → Option ExecutionError
validate_each seen (w ∷ want) (g ∷ got) =
    let rest = validate_each (g.heading ∷ seen) want got in
    if not (text_eq g.heading w.heading)
    then some section_mismatch
    else if has_text g.heading seen
    then some section_mismatch
    else if is_empty (trim_space g.content_markdown)
    then some empty_output
    else rest
validate_each seen _ _ = none

pub validate_sections : List TemplateSection → List SummarySection → Outcome (List SummarySection)
validate_sections want got =
    if not (length got == length want)
    then fails section_mismatch
    else elim (validate_each [] want got) [ none ↦ returns got | some e ↦ fails e ]

pub tokens_of : Option GenerateUsage → Option ℤ
tokens_of none = none
tokens_of (some u) = some u.tokens_used

pub result_of : PreparedExecution → GenerateResponse → List SummarySection → Result
result_of p resp sections = record {
  sections = sections;
  sources = p.sources;
  model = resp.model;
  tokens_used = tokens_of resp.usage;
  usage = resp.usage;
}

-- A failed call of the plugin is `none`.
pub run : (GenerateRequest → Option GenerateResponse) → PreparedExecution → Outcome Result
run generate p = elim (generate (request p)) [
  | none ↦ fails generate_failed
  | some resp ↦
      if is_single_note p.input.mode
      then returns (result_of p resp resp.sections)
      else elim (validate_sections p.input.sections resp.sections) [
        | fails e ↦ fails e
        | returns sections ↦ returns (result_of p resp sections)
      ]
]
