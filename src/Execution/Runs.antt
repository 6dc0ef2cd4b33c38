-- ===== src/Execution/Runs.antt =====
-- A run of a prepared execution: Executor.Run (internal/execution/executor.go).
use muesli.Base.{
  ◌≡◌, ◌⊎◌, ◌↔◌, refl, sym, ap, ◌∙◌, subst, true, false, Option, none, some, List, [], ◌∷◌, inl,
  inr, length, Bool-cases, Option-cases, ◌==◌, arith,
}
use muesli.Execution.{
  Segment, Mode, cross_analysis, Result, GenerateUsage, tokens_of, Document, TemplateSection,
  SummarySection, ExecutionError, ExecutionInput, PreparedExecution, GenerateRequest,
  GenerateResponse, returns, fails, section_mismatch, single_note_summary, is_single_note,
  first_notes, first_segments, request, prepared, prepare_documents, validate_each,
  validate_sections, result_of, run,
}
use muesli.Execution.Sections.{Answers, validate_sections-returns_iff}

validate_sections-cases :
    (want : List TemplateSection) (got : List SummarySection)
    → (validate_sections want got ≡ returns got)
      ⊎ ((e : ExecutionError) × (validate_sections want got ≡ fails e))
unfolding validate_sections
validate_sections-cases want got = elim (Bool-cases (length got == length want)) [
  | inl l ↦ elim (Option-cases (validate_each [] want got)) [
    | inl n ↦ inl (rw (l, n, validate_sections) refl)
    | inr (e, s) ↦ inr (e, rw (l, s, validate_sections) refl)
  ]
  | inr l ↦ inr (section_mismatch, rw (l, validate_sections) refl)
]

module _ (generate : GenerateRequest → Option GenerateResponse) (p : PreparedExecution)
    (resp : GenerateResponse) (answered : generate (request p) ≡ some resp) where
  run-single :
      is_single_note p.input.mode ≡ true → run generate p ≡ returns (result_of p resp resp.sections)
  unfolding run
  run-single m = rw (answered, m, run) refl

  run-returns :
      is_single_note p.input.mode ≡ false
      → validate_sections p.input.sections resp.sections ≡ returns resp.sections
      → run generate p ≡ returns (result_of p resp resp.sections)
  unfolding run
  run-returns m v = rw (answered, m, v, run) refl

  run-fails :
      (e : ExecutionError)
      → is_single_note p.input.mode ≡ false
      → validate_sections p.input.sections resp.sections ≡ fails e
      → run generate p ≡ fails e
  unfolding run
  run-fails e m v = rw (answered, m, v, run) refl

single_mode : (m : Mode) → is_single_note m ≡ true → m ≡ single_note_summary
single_mode cross_analysis h = absurd cc
single_mode single_note_summary h = refl

-- What the plugin is asked: the corpus and the template with its settings, and either several
-- documents or the transcript of one.
abbrev pub asked : PreparedExecution → List Segment → List Document → GenerateRequest
asked p transcript documents = record {
  transcript = transcript;
  notes_markdown = p.corpus;
  template = p.input.sections;
  config = p.input.config;
  system_prompt = p.input.system_prompt;
  model = p.input.model;
  temperature = p.input.temperature;
  documents = documents;
}

-- On several meetings all documents and no transcript, on a single note its segments and no
-- documents.
abbrev pub IsAsked : PreparedExecution → List Segment → List Document → Type 0
IsAsked p transcript documents =
    ((p.input.mode ≡ cross_analysis) × (transcript ≡ []) × (documents ≡ p.input.documents))
    ⊎ ((p.input.mode ≡ single_note_summary)
        × ((doc : Document) × (p.input.documents ≡ doc ∷ []) × (transcript ≡ doc.segments))
        × (documents ≡ []))

-- The plugin's sections, model and usage, with the sources that were prepared.
abbrev pub answered_with : PreparedExecution → GenerateResponse → Result
answered_with p resp = record {
  sections = resp.sections;
  sources = p.sources;
  model = resp.model;
  tokens_used = elim resp.usage [ none ↦ none | some u ↦ some u.tokens_used ];
  usage = resp.usage;
}

tokens_of-map :
    (u : Option GenerateUsage) → tokens_of u ≡ elim u [ none ↦ none | some v ↦ some v.tokens_used ]
unfolding tokens_of
tokens_of-map none = refl
tokens_of-map (some u) = refl

result_of-answered_with :
    (p : PreparedExecution) (resp : GenerateResponse)
    → result_of p resp resp.sections ≡ answered_with p resp
unfolding result_of
result_of-answered_with p resp =
    ap
      (λ t. record {
        sections = resp.sections;
        sources = p.sources;
        model = resp.model;
        tokens_used = t;
        usage = resp.usage;
      })
      (tokens_of-map resp.usage)

request-asked :
    (p : PreparedExecution) (transcript : List Segment) (documents : List Document)
    → IsAsked p transcript documents
    → request p ≡ asked p transcript documents
unfolding request first_segments
request-asked p transcript documents (inl (mode, none_said, all)) = rw (mode, none_said, all) refl
request-asked p transcript documents (inr (mode, (doc, only, said), no_documents)) =
    rw (mode, only, said, no_documents) refl

run-Answers :
    (generate : GenerateRequest → Option GenerateResponse) (p : PreparedExecution)
    (resp : GenerateResponse) (r : Result)
    → generate (request p) ≡ some resp
    → run generate p ≡ returns r
    → (r ≡ answered_with p resp)
      × ((p.input.mode ≡ single_note_summary) ⊎ Answers p.input.sections resp.sections)
run-Answers generate p resp r answered h = elim (Bool-cases (is_single_note p.input.mode)) [
  | inl m ↦ (
    cc (h, run-single generate p resp answered m, result_of-answered_with p resp),
    inl (single_mode p.input.mode m),
  )
  | inr m ↦ elim (validate_sections-cases p.input.sections resp.sections) [
    | inl v ↦ (
      cc (h, run-returns generate p resp answered m v, result_of-answered_with p resp),
      inr ((validate_sections-returns_iff p.input.sections resp.sections).0 v),
    )
    | inr (e, v) ↦ absurd (cc (h, run-fails generate p resp answered e m v))
  ]
]

run-Answered :
    (generate : GenerateRequest → Option GenerateResponse) (p : PreparedExecution)
    (resp : GenerateResponse)
    → generate (request p) ≡ some resp
    → ((p.input.mode ≡ single_note_summary) ⊎ Answers p.input.sections resp.sections)
    → run generate p ≡ returns (answered_with p resp)
run-Answered generate p resp answered h =
    (elim (Bool-cases (is_single_note p.input.mode)) [
      | inl m ↦ run-single generate p resp answered m
      | inr m ↦ elim h [
        | inl single ↦ absurd (ground (arith, m, single))
        | inr fits ↦
            run-returns generate p resp answered m
              ((validate_sections-returns_iff p.input.sections resp.sections).1 fits)
      ]
    ])
    ∙ ap (λ r. returns r) (result_of-answered_with p resp)

-- Run asks the plugin with the corpus, the template and its settings, and with the documents of
-- several meetings or the transcript of a single note. When the plugin answers that, Run returns a
-- result just when it is the answer's sections, model and usage with the prepared sources and,
-- unless the run is on a single note, the sections answer the template.
pub run-returns_iff :
    (generate : GenerateRequest → Option GenerateResponse) (p : PreparedExecution)
    (transcript : List Segment) (documents : List Document) (resp : GenerateResponse) (r : Result)
    → IsAsked p transcript documents
    → generate (asked p transcript documents) ≡ some resp
    → (run generate p ≡ returns r) ↔ (
        (r ≡ answered_with p resp)
        × ((p.input.mode ≡ single_note_summary) ⊎ Answers p.input.sections resp.sections))
run-returns_iff generate p transcript documents resp r asks e =
    let answered = ap generate (request-asked p transcript documents asks) ∙ e in
    (
      run-Answers generate p resp r answered,
      λ h. run-Answered generate p resp answered h.1 ∙ ap (λ q. returns q) (sym h.0),
    )

one_document :
    (docs : List Document) → (length docs == 1) ≡ true → (doc : Document) × (docs ≡ doc ∷ [])
one_document [] h = absurd (ground arith)
one_document (d ∷ []) h = (d, refl)
one_document (d ∷ e ∷ docs) h = absurd (ground arith)

-- What a single note asks of the plugin: its own segments and notes, and no documents.
pub record AsksOneNote (input : ExecutionInput) (p : PreparedExecution) : Type 0 where
  pub doc : Document
  pub only : input.documents ≡ doc ∷ []
  pub transcript : (request p).transcript ≡ doc.segments
  pub notes : (request p).notes_markdown ≡ doc.notes_markdown
  pub no_documents : (request p).documents ≡ []
  pub template : (request p).template ≡ input.sections
  pub unweighed : p.section_prompts ≡ []

prepared-AsksOneNote :
    (input : ExecutionInput)
    → is_single_note input.mode ≡ true
    → (doc : Document) → input.documents ≡ doc ∷ []
    → AsksOneNote input (prepared input)
unfolding request prepared first_notes first_segments
prepared-AsksOneNote input single doc only = record {
  doc = doc;
  only = only;
  transcript = rw (single, only, first_segments) refl;
  notes = rw (single, only, first_notes) refl;
  no_documents = rw single refl;
  template = refl;
  unweighed = rw single refl;
}

-- A prepared single note asks the plugin as the direct call did: its own segments and its own
-- notes, no documents, the template's sections, and nothing for admission to weigh.
pub single_note_request :
    (input : ExecutionInput) (p : PreparedExecution)
    → input.mode ≡ single_note_summary
    → prepare_documents input ≡ returns p
    → AsksOneNote input p
unfolding prepare_documents
single_note_request input p mode e =
    let single : is_single_note input.mode ≡ true = rw mode refl in
    let same : prepared input ≡ p = ground arith in
    let one = one_document input.documents (ground arith) in
    subst (AsksOneNote input) same (prepared-AsksOneNote input single one.0 one.1)
