-- ===== src/Execution/Admission/Tests.antt =====
-- A budget, and the theorems at it.
use muesli.Base.{◌≡◌, ◌≢◌, ◌↔◌, refl, true, Option, none, some, [], ◌∷◌, All}
use muesli.Base.Int.{pos, ◌≤ℤ◌, int64}
use muesli.Base.Text.{Text, codes}
use muesli.Execution.{SectionPrompt, PreparedExecution, cross_analysis}
use muesli.Execution.Admission.{
  AdmissionConfig, AdmissionConfigJson, invalid_admission_config, context_budget, byte_length,
  code_bytes, effective_ceiling, admit, admit_prompts, check_parsed, config_of_fields,
  parse_admission_config,
}
use muesli.Execution.Admission.Budget.{config, parsed-admits}

-- Two section prompts, one of which has a character of two bytes.
abbrev weighed : PreparedExecution
weighed = record {
  input = record {
    sections = [];
    mode = cross_analysis;
    documents = [];
    run_instruction = [];
    config = [];
    system_prompt = [];
    model = [];
    temperature = none;
  };
  corpus = [];
  section_prompts =
      record { heading = []; prompt = codes "abc" }
      ∷ record { heading = []; prompt = codes "dé" }
      ∷ [];
  sources = [];
  generations = [];
}

-- Admits at the ceiling and refuses one byte over it.
at_ceiling : admit weighed (config 33 20 10 true) ≡ none
unfolding admit admit_prompts effective_ceiling int64 byte_length code_bytes
at_ceiling = refl

over_ceiling : admit weighed (config 32 20 10 true) ≡ some context_budget
unfolding admit admit_prompts effective_ceiling int64 byte_length code_bytes
over_ceiling = refl

abbrev unmarshal : Text → Option AdmissionConfigJson
unmarshal raw = some (record {
  context_tokens = some (pos 100);
  output_reserve_tokens = some (pos 20);
  provider_framing_tokens = some (pos 10);
  byte_fallback_tokenizer = some true;
})

abbrev budget : AdmissionConfig
budget = config 100 20 10 true

parses : parse_admission_config unmarshal (codes "{}") ≡ some budget
unfolding parse_admission_config config_of_fields check_parsed effective_ceiling int64
parses = refl

parsed-admits_example :
    (admit weighed budget ≢ some invalid_admission_config)
    × ((admit weighed budget ≡ none)
        ↔ All
            (λ (sp : SectionPrompt). pos (byte_length sp.prompt) ≤ℤ effective_ceiling budget)
            weighed.section_prompts)
parsed-admits_example = parsed-admits unmarshal (codes "{}") budget weighed parses

-- Reserves whose sum an `int` does not hold leave a positive ceiling of a context of one token.
wraps : effective_ceiling (config 1 9223372036854775807 9223372036854775807 true) ≡ pos 3
unfolding effective_ceiling int64
wraps = refl
