-- ===== src/Execution/Admission.antt =====
-- The context budget: internal/execution/admission.go.
pub mod Budget
mod Tests
use muesli.Base.{
  ℕ, suc, ◌+◌, Bool, true, false, not, ◌||◌, Option, none, some, List, [], ◌∷◌, ltb, if◌then◌else◌,
}
use muesli.Base.Int.{ℤ, pos, ◌-ℤ◌, leb_ℤ, ltb_ℤ, int64}
use muesli.Base.Text.{Text, is_empty}
use muesli.Execution.{PreparedExecution, SectionPrompt}

pub record AdmissionConfig : Type 0 where
  pub context_tokens : ℤ
  pub output_reserve_tokens : ℤ
  pub provider_framing_tokens : ℤ
  pub byte_fallback_tokenizer : Bool

pub data AdmissionError : Type 0 where
  invalid_admission_config : AdmissionError
  context_budget : AdmissionError

-- The bytes of a code point, and of a text, in UTF-8.
unfoldable pub code_bytes : ℕ → ℕ
code_bytes c = if ltb c 0x80 then 1 else if ltb c 0x800 then 2 else if ltb c 0x10000 then 3 else 4

unfoldable pub byte_length : Text → ℕ
byte_length [] = 0
byte_length (c ∷ s) = code_bytes c + byte_length s

-- Both subtractions wrap around as an `int` does.
pub effective_ceiling : AdmissionConfig → ℤ
effective_ceiling c =
    int64 (int64 (c.context_tokens -ℤ c.output_reserve_tokens) -ℤ c.provider_framing_tokens)

-- The loop of Admit: nothing is its success.
pub admit_prompts : List SectionPrompt → ℤ → Option AdmissionError
admit_prompts [] effective = none
admit_prompts (sp ∷ prompts) effective =
    let rest = admit_prompts prompts effective in
    if ltb_ℤ effective (pos (byte_length sp.prompt)) then some context_budget else rest

pub admit : PreparedExecution → AdmissionConfig → Option AdmissionError
admit prepared c =
    if leb_ℤ c.context_tokens (pos 0)
    then some invalid_admission_config
    else if ltb_ℤ c.output_reserve_tokens (pos 0) || ltb_ℤ c.provider_framing_tokens (pos 0)
    then some invalid_admission_config
    else if not c.byte_fallback_tokenizer
    then some invalid_admission_config
    else if leb_ℤ (effective_ceiling c) (pos 0)
    then some invalid_admission_config
    else admit_prompts prepared.section_prompts (effective_ceiling c)

pub record AdmissionConfigJson : Type 0 where
  pub context_tokens : Option ℤ
  pub output_reserve_tokens : Option ℤ
  pub provider_framing_tokens : Option ℤ
  pub byte_fallback_tokenizer : Option Bool

-- The checks of ParseAdmissionConfig on a config whose fields are all there.
pub check_parsed : AdmissionConfig → Option AdmissionConfig
check_parsed c =
    if leb_ℤ c.context_tokens (pos 0)
      || ltb_ℤ c.output_reserve_tokens (pos 0)
      || ltb_ℤ c.provider_framing_tokens (pos 0)
      || not c.byte_fallback_tokenizer
    then none
    else if leb_ℤ (effective_ceiling c) (pos 0)
    then none
    else some c

pub config_of_fields : AdmissionConfigJson → Option AdmissionConfig
config_of_fields fields = elim fields.context_tokens [
  | none ↦ none
  | some context ↦ elim fields.output_reserve_tokens [
    | none ↦ none
    | some output ↦ elim fields.provider_framing_tokens [
      | none ↦ none
      | some framing ↦ elim fields.byte_fallback_tokenizer [
        | none ↦ none
        | some fallback ↦ some (record {
          context_tokens = context;
          output_reserve_tokens = output;
          provider_framing_tokens = framing;
          byte_fallback_tokenizer = fallback;
        })
      ]
    ]
  ]
]

-- Every failure is ErrInvalidAdmissionConfig, here `none`. `unmarshal` is json.Unmarshal.
pub parse_admission_config : (Text → Option AdmissionConfigJson) → Text → Option AdmissionConfig
parse_admission_config unmarshal raw = if is_empty raw then none else elim (unmarshal raw) [
  | none ↦ none
  | some fields ↦ elim (config_of_fields fields) [ none ↦ none | some c ↦ check_parsed c ]
]
