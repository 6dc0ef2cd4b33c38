-- ===== src/Execution/Admission/Budget.antt =====
-- What Admit and ParseAdmissionConfig let through (internal/execution/admission.go).
use muesli.Base.{
  ℕ, ◌+◌, ◌^◌, ◌≤◌, ◌<◌, ◌≡◌, ◌≢◌, ◌↔◌, refl, sym, subst, ◌∙◌, Bool, true, false, Option, none,
  some, List, [], ◌∷◌, inl, inr, All, Bool-cases, Option-cases, arith,
}
use muesli.Base.Int.{ℤ, pos, ◌-ℤ◌, sub_ℕ, leb_ℤ, ltb_ℤ, ◌≤ℤ◌, int64}
use muesli.Base.Text.{Text, is_empty}
use muesli.Execution.{PreparedExecution, SectionPrompt}
use muesli.Execution.Admission.{
  AdmissionConfig, AdmissionConfigJson, invalid_admission_config, byte_length, effective_ceiling,
  admit_prompts, admit, check_parsed, config_of_fields, parse_admission_config,
}

admit_prompts_iff :
    (prompts : List SectionPrompt) (effective : ℤ)
    → (admit_prompts prompts effective ≡ none)
      ↔ All (λ (sp : SectionPrompt). pos (byte_length sp.prompt) ≤ℤ effective) prompts
unfolding admit_prompts
admit_prompts_iff [] effective = (λ _. tt, λ _. refl)
admit_prompts_iff (sp ∷ prompts) effective =
    let rest = admit_prompts_iff prompts effective in
    (
      λ e. (ground arith, rest.0 (ground arith)),
      λ h. let tail = rest.1 h.1 in let fits = h.0 in ground arith,
    )

admit_prompts-budget :
    (prompts : List SectionPrompt) (effective : ℤ)
    → admit_prompts prompts effective ≢ some invalid_admission_config
unfolding admit_prompts
admit_prompts-budget [] effective e = cc
admit_prompts-budget (sp ∷ prompts) effective e =
    let rest = admit_prompts-budget prompts effective in ground arith

-- The checks that both functions make of a config.
record IsSound (c : AdmissionConfig) : Type 0 where
  context : leb_ℤ c.context_tokens (pos 0) ≡ false
  output : ltb_ℤ c.output_reserve_tokens (pos 0) ≡ false
  framing : ltb_ℤ c.provider_framing_tokens (pos 0) ≡ false
  fallback : c.byte_fallback_tokenizer ≡ true
  ceiling : leb_ℤ (effective_ceiling c) (pos 0) ≡ false

check_parsed-IsSound : (c d : AdmissionConfig) → check_parsed c ≡ some d → IsSound d
unfolding check_parsed
check_parsed-IsSound c d e =
    let tests : IsSound c = record {
      context = ground arith;
      output = ground arith;
      framing = ground arith;
      fallback = ground arith;
      ceiling = ground arith;
    } in
    let same : c ≡ d = ground arith in subst IsSound same tests

parsed-IsSound :
    (unmarshal : Text → Option AdmissionConfigJson) (raw : Text) (c : AdmissionConfig)
    → parse_admission_config unmarshal raw ≡ some c
    → IsSound c
unfolding parse_admission_config
parsed-IsSound unmarshal raw c e = elim (Bool-cases (is_empty raw)) [
  | inl b ↦ absurd (ground arith)
  | inr b ↦ elim (Option-cases (unmarshal raw)) [
    | inl n ↦ absurd (ground arith)
    | inr (fields, s) ↦ elim (Option-cases (config_of_fields fields)) [
      | inl n ↦ absurd (ground arith)
      | inr (d, t) ↦ check_parsed-IsSound d c (ground arith)
    ]
  ]
]

sound_admit :
    (p : PreparedExecution) (c : AdmissionConfig)
    → IsSound c
    → admit p c ≡ admit_prompts p.section_prompts (effective_ceiling c)
unfolding admit effective_ceiling admit_prompts
sound_admit p c h = rw (h.context, h.output, h.framing, h.fallback, h.ceiling, admit) refl

admitted-IsSound : (p : PreparedExecution) (c : AdmissionConfig) → admit p c ≡ none → IsSound c
unfolding admit
admitted-IsSound p c e = record {
  context = ground arith;
  output = ground arith;
  framing = ground arith;
  fallback = ground arith;
  ceiling = ground arith;
}

-- A config that ParseAdmissionConfig returns passes the checks of Admit, which then refuses only
-- for a prompt over the ceiling: it admits just when every section prompt's bytes fit.
pub parsed-admits :
    (unmarshal : Text → Option AdmissionConfigJson) (raw : Text) (c : AdmissionConfig)
    (p : PreparedExecution)
    → parse_admission_config unmarshal raw ≡ some c
    → (admit p c ≢ some invalid_admission_config)
      × ((admit p c ≡ none)
          ↔ All
              (λ (sp : SectionPrompt). pos (byte_length sp.prompt) ≤ℤ effective_ceiling c)
              p.section_prompts)
parsed-admits unmarshal raw c p e =
    let same = sound_admit p c (parsed-IsSound unmarshal raw c e) in
    rw same (
      admit_prompts-budget p.section_prompts (effective_ceiling c),
      admit_prompts_iff p.section_prompts (effective_ceiling c),
    )

int64-sub : (a b : ℕ) → a < 2 ^ 63 → b < 2 ^ 63 → int64 (sub_ℕ a b) ≡ sub_ℕ a b
unfolding int64
int64-sub a b h k = ground arith

sub_ℕ-sub : (a b c : ℕ) → sub_ℕ a b -ℤ pos c ≡ sub_ℕ a (b + c)
sub_ℕ-sub a b c = ground arith

abbrev pub config : ℕ → ℕ → ℕ → Bool → AdmissionConfig
config context output framing fallback = record {
  context_tokens = pos context;
  output_reserve_tokens = pos output;
  provider_framing_tokens = pos framing;
  byte_fallback_tokenizer = fallback;
}

effective_ceiling-exact :
    (context output framing : ℕ) (fallback : Bool)
    → context < 2 ^ 63
    → output + framing < 2 ^ 63
    → effective_ceiling (config context output framing fallback) ≡ sub_ℕ context (output + framing)
unfolding effective_ceiling
effective_ceiling-exact context output framing fallback h k =
    let outer : pos context -ℤ pos output ≡ sub_ℕ context output = ground arith in
    rw (outer, int64-sub context output h (omega arith), sub_ℕ-sub context output framing)
      (int64-sub context (output + framing) h k)

Fits_iff :
    (context output framing : ℕ) (prompts : List SectionPrompt)
    → output + framing < context
    → All
        (λ (sp : SectionPrompt). pos (byte_length sp.prompt) ≤ℤ sub_ℕ context (output + framing))
        prompts
      ↔ All (λ (sp : SectionPrompt). byte_length sp.prompt + output + framing ≤ context) prompts
Fits_iff context output framing [] h = (λ _. tt, λ _. tt)
Fits_iff context output framing (sp ∷ prompts) h =
    let rest = Fits_iff context output framing prompts h in
    (λ f. let x = f.0 in (ground arith, rest.0 f.1), λ f. let x = f.0 in (ground arith, rest.1 f.1))

-- With reserves that an `int` can hold together, Admit admits just when the config is well-formed,
-- the reserves leave some of the context, and each section prompt's bytes fit in what they leave.
pub admit-none_iff :
    (p : PreparedExecution) (context output framing : ℕ) (fallback : Bool)
    → context < 2 ^ 63
    → output + framing < 2 ^ 63
    → (admit p (config context output framing fallback) ≡ none)
      ↔ (fallback ≡ true)
        × (output + framing < context)
        × All
            (λ (sp : SectionPrompt). byte_length sp.prompt + output + framing ≤ context)
            p.section_prompts
admit-none_iff p context output framing fallback h k =
    let c = config context output framing fallback in
    let exact = effective_ceiling-exact context output framing fallback h k in
    (
      λ e.
          let sound = admitted-IsSound p c e in
          let ceiling = rw exact at sound.ceiling in
          let room : output + framing < context = ground arith in
          let fits =
            (admit_prompts_iff p.section_prompts (effective_ceiling c)).0
              (sym (sound_admit p c sound) ∙ e) in
          (
            sound.fallback,
            room,
            (Fits_iff context output framing p.section_prompts room).0 (rw exact at fits),
          ),
      λ r.
          let sound : IsSound c = record {
            context = ground arith;
            output = ground arith;
            framing = ground arith;
            fallback = r.0;
            ceiling = rw exact (ground (arith, r.1));
          } in
          sound_admit p c sound
          ∙ (admit_prompts_iff p.section_prompts (effective_ceiling c)).1
              (rw exact ((Fits_iff context output framing p.section_prompts r.1).1 r.2)),
    )
