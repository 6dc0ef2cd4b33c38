-- ===== src/Execution/Documents.antt =====
-- What a run takes and hands over: the types of internal/execution/executor.go, internal/model/model.go
-- and internal/plugin/client.go.
use muesli.Base.{ℕ, Bool, Option, List}
use muesli.Base.Int.{ℤ}
use muesli.Base.Text.{Text}

pub record Segment : Type 0 where
  pub id : Text
  pub start_ms : ℤ
  pub end_ms : ℤ
  pub text : Text
  pub source : Text
  pub speaker : Text
  pub boundary : Text
  pub provisional : Bool

pub record Document : Type 0 where
  pub note_id : Text
  pub title : Text
  pub occurred_at : Text
  pub transcript_generation : ℤ
  pub segments : List Segment
  pub notes_markdown : Text

pub data Mode : Type 0 where
  cross_analysis : Mode
  single_note_summary : Mode

pub record TemplateSection : Type 0 where
  pub heading : Text
  pub instruction : Text

pub record ExecutionInput : Type 0 where
  pub sections : List TemplateSection
  pub mode : Mode
  pub documents : List Document
  pub run_instruction : Text
  pub config : List ℕ
  pub system_prompt : Text
  pub model : Text
  pub temperature : Option ℕ

pub record SourceRef : Type 0 where
  pub number : ℕ
  pub note_id : Text
  pub transcript_generation : ℤ
  pub segment_index : ℕ
  pub timestamp : ℤ
  pub snippet : Text

pub record SectionPrompt : Type 0 where
  pub heading : Text
  pub prompt : Text

pub record PreparedExecution : Type 0 where
  pub input : ExecutionInput
  pub corpus : Text
  pub section_prompts : List SectionPrompt
  pub sources : List SourceRef
  pub generations : List (Text × ℤ)

pub data ExecutionError : Type 0 where
  empty_documents : ExecutionError
  empty_template : ExecutionError
  single_note_mode_requires_one_document : ExecutionError
  section_mismatch : ExecutionError
  empty_output : ExecutionError
  generate_failed : ExecutionError

pub data Outcome (A : Type 0) : Type 0 where
  returns : A → Outcome A
  fails : ExecutionError → Outcome A

pub record SummarySection : Type 0 where
  pub heading : Text
  pub content_markdown : Text
  pub refs : List ℤ

pub record GenerateUsage : Type 0 where
  pub tokens_used : ℤ
  pub max_tokens : ℤ

-- The plugin's Document has the fields of this package's. The fields `Options` and `Source`, which
-- Run leaves nil, are left out.
pub record GenerateRequest : Type 0 where
  pub transcript : List Segment
  pub notes_markdown : Text
  pub template : List TemplateSection
  pub config : List ℕ
  pub system_prompt : Text
  pub model : Text
  pub temperature : Option ℕ
  pub documents : List Document

pub record GenerateResponse : Type 0 where
  pub sections : List SummarySection
  pub model : Text
  pub usage : Option GenerateUsage

pub record Result : Type 0 where
  pub sections : List SummarySection
  pub sources : List SourceRef
  pub model : Text
  pub tokens_used : Option ℤ
  pub usage : Option GenerateUsage
