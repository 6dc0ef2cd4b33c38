-- ===== src/Execution/Tests.antt =====
-- A run over two meetings, a single note, and the theorems at them.
use muesli.Base.{◌≡◌, ◌↔◌, ◌⊎◌, inl, refl, false, Option, none, some, List, [], ◌∷◌}
use muesli.Base.Int.{pos}
use muesli.Base.Text.{Text, codes, trim_left, trim_right, trim_space, is_space}
use muesli.Execution.{
  Segment, Document, Mode, cross_analysis, single_note_summary, ExecutionInput, PreparedExecution,
  returns, fails, section_mismatch, empty_output, prepared, prepare_documents, SummarySection,
  GenerateRequest, GenerateResponse, validate_each, validate_sections, has_text, run,
}
use muesli.Execution.Shown.{Cites, prepare_documents-Cites}
use muesli.Execution.Sections.{Answers}
use muesli.Execution.Runs.{answered_with, run-returns_iff}

abbrev segment : Text → Segment
segment t = record {
  id = [];
  start_ms = pos 0;
  end_ms = pos 10;
  text = t;
  source = codes "mic";
  speaker = [];
  boundary = [];
  provisional = false;
}

abbrev meeting : Text → List Segment → Document
meeting id segments = record {
  note_id = id;
  title = codes "T";
  occurred_at = [];
  transcript_generation = pos 1;
  segments = segments;
  notes_markdown = codes "notes";
}

abbrev input : Mode → List Document → ExecutionInput
input mode docs = record {
  sections =
      record { heading = codes "A"; instruction = codes "a" }
      ∷ record { heading = codes "B"; instruction = codes "b" }
      ∷ [];
  mode = mode;
  documents = docs;
  run_instruction = [];
  config = [];
  system_prompt = [];
  model = codes "m";
  temperature = none;
}

abbrev two_meetings : ExecutionInput
two_meetings = input cross_analysis (
    meeting (codes "x") (segment (codes "p") ∷ segment (codes "q") ∷ [])
    ∷ meeting (codes "y") (segment (codes "r") ∷ [])
    ∷ [])

prepare_documents-Cites_example :
    Cites two_meetings.documents (prepared two_meetings).sources (prepared two_meetings).corpus
unfolding prepare_documents
prepare_documents-Cites_example =
    prepare_documents-Cites two_meetings (prepared two_meetings) refl refl

abbrev section : Text → Text → SummarySection
section h t = record { heading = h; content_markdown = t; refs = [] }

abbrev answer : List SummarySection
answer = section (codes "A") (codes "x") ∷ section (codes "B") (codes "y") ∷ []

accepts : validate_sections two_meetings.sections answer ≡ returns answer
unfolding validate_sections validate_each has_text trim_space trim_right trim_left is_space
accepts = refl

rejects_swapped :
    validate_sections two_meetings.sections
      (section (codes "B") (codes "x") ∷ section (codes "A") (codes "y") ∷ [])
    ≡ fails section_mismatch
unfolding validate_sections validate_each has_text trim_space trim_right trim_left is_space
rejects_swapped = refl

rejects_blank :
    validate_sections two_meetings.sections
      (section (codes "A") (codes " ") ∷ section (codes "B") (codes "y") ∷ [])
    ≡ fails empty_output
unfolding validate_sections validate_each has_text trim_space trim_right trim_left is_space
rejects_blank = refl

abbrev response : GenerateResponse
response = record { sections = answer; model = codes "m"; usage = none }

abbrev generate : GenerateRequest → Option GenerateResponse
generate r = some response

abbrev prepared_two : PreparedExecution
prepared_two = prepared two_meetings

run-returns_iff_example :
    (run generate prepared_two ≡ returns (answered_with prepared_two response)) ↔ (
      (answered_with prepared_two response ≡ answered_with prepared_two response)
      × ((prepared_two.input.mode ≡ single_note_summary)
          ⊎ Answers prepared_two.input.sections answer))
unfolding prepared
run-returns_iff_example =
    run-returns_iff generate prepared_two [] two_meetings.documents response
      (answered_with prepared_two response) (inl (refl, refl, refl)) refl

abbrev one_note : ExecutionInput
one_note = input single_note_summary (meeting (codes "x") (segment (codes "p") ∷ []) ∷ [])
