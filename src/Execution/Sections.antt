-- ===== src/Execution/Sections.antt =====
-- The checks on a plugin's answer: validateSections (internal/execution/executor.go).
use muesli.Base.{
  suc, ◌≡◌, ◌↔◌, refl, ap, true, false, none, List, [], ◌∷◌, inl, inr, length, All, Option-cases,
  ==_iff, arith,
}
use muesli.Base.Text.{Text, text_eq, text_eq_iff, is_empty, trim_space}
use muesli.Execution.{
  TemplateSection, SummarySection, returns, has_text, validate_each, validate_sections,
}

-- Each section has the heading at its place in the template, which no later one repeats, and some
-- content.
abbrev pub Answers : List TemplateSection → List SummarySection → Type 0
Answers [] [] = Unit {0}
Answers (w ∷ want) (g ∷ got) =
    (g.heading ≡ w.heading)
    × All (λ (h : SummarySection). text_eq g.heading h.heading ≡ false) got
    × (is_empty (trim_space g.content_markdown) ≡ false)
    × Answers want got
Answers _ _ = ⊥

abbrev Unseen : List Text → List SummarySection → Type 0
Unseen seen got = All (λ (h : SummarySection). has_text h.heading seen ≡ false) got

Unseen-head :
    (t : Text) (seen : List Text) (got : List SummarySection)
    → Unseen (t ∷ seen) got
    → All (λ (h : SummarySection). text_eq t h.heading ≡ false) got
unfolding has_text
Unseen-head t seen [] h = tt
Unseen-head t seen (g ∷ got) h = (ground (arith, h.0), Unseen-head t seen got h.1)

Unseen-tail :
    (t : Text) (seen : List Text) (got : List SummarySection)
    → Unseen (t ∷ seen) got
    → Unseen seen got
unfolding has_text
Unseen-tail t seen [] h = tt
Unseen-tail t seen (g ∷ got) h = (ground (arith, h.0), Unseen-tail t seen got h.1)

Unseen-cons :
    (t : Text) (seen : List Text) (got : List SummarySection)
    → All (λ (h : SummarySection). text_eq t h.heading ≡ false) got
    → Unseen seen got
    → Unseen (t ∷ seen) got
unfolding has_text
Unseen-cons t seen [] h k = tt
Unseen-cons t seen (g ∷ got) h k = (ground (arith, h.0, k.0), Unseen-cons t seen got h.1 k.1)

Unseen-nil : (got : List SummarySection) → Unseen [] got
unfolding has_text
Unseen-nil [] = tt
Unseen-nil (g ∷ got) = (refl, Unseen-nil got)

validate_each-Answers :
    (seen : List Text) (want : List TemplateSection) (got : List SummarySection)
    → length got ≡ length want
    → validate_each seen want got ≡ none
    → Answers want got × Unseen seen got
unfolding validate_each
validate_each-Answers seen [] [] l e = (tt, tt)
validate_each-Answers seen [] (g ∷ got) l e = absurd (omega (arith, l))
validate_each-Answers seen (w ∷ want) [] l e = absurd (omega (arith, l))
validate_each-Answers seen (w ∷ want) (g ∷ got) l e =
    let rest : validate_each (g.heading ∷ seen) want got ≡ none = ground arith in
    let h = validate_each-Answers (g.heading ∷ seen) want got (omega (arith, l)) rest in
    let heading : text_eq g.heading w.heading ≡ true = ground arith in
    let content : is_empty (trim_space g.content_markdown) ≡ false = ground arith in
    let fresh : has_text g.heading seen ≡ false = ground arith in
    (
      (
        (text_eq_iff g.heading w.heading).0 heading,
        Unseen-head g.heading seen got h.1,
        content,
        h.0,
      ),
      (fresh, Unseen-tail g.heading seen got h.1),
    )

Answers-validate_each :
    (seen : List Text) (want : List TemplateSection) (got : List SummarySection)
    → Answers want got
    → Unseen seen got
    → validate_each seen want got ≡ none
unfolding validate_each
Answers-validate_each seen [] [] h k = refl
Answers-validate_each seen [] (g ∷ got) h k = absurd h
Answers-validate_each seen (w ∷ want) [] h k = absurd h
Answers-validate_each seen (w ∷ want) (g ∷ got) h k =
    let heading = (text_eq_iff g.heading w.heading).1 h.0 in
    let rest =
      Answers-validate_each (g.heading ∷ seen) want got h.3
        (Unseen-cons g.heading seen got h.1 k.1) in
    rw (heading, k.0, h.2) rest

Answers-length :
    (want : List TemplateSection) (got : List SummarySection)
    → Answers want got
    → length got ≡ length want
Answers-length [] [] h = refl
Answers-length [] (g ∷ got) h = absurd h
Answers-length (w ∷ want) [] h = absurd h
Answers-length (w ∷ want) (g ∷ got) h = ap suc (Answers-length want got h.3)

validate_sections_lem :
    (want : List TemplateSection) (got : List SummarySection)
    → length got ≡ length want
    → validate_each [] want got ≡ none
    → validate_sections want got ≡ returns got
unfolding validate_sections
validate_sections_lem want got l e =
    let test = (==_iff (length got) (length want)).1 l in rw (test, e, validate_sections) refl

-- validateSections returns the answer just when it answers the template: as many sections, each
-- with the heading at its place, none repeated, and none blank.
pub validate_sections-returns_iff :
    (want : List TemplateSection) (got : List SummarySection)
    → (validate_sections want got ≡ returns got) ↔ Answers want got
unfolding validate_sections
validate_sections-returns_iff want got = (
  λ e.
      let l : length got ≡ length want = ground arith in
      elim (Option-cases (validate_each [] want got)) [
        | inl n ↦ (validate_each-Answers [] want got l n).0
        | inr (x, s) ↦ absurd (ground arith)
      ],
  λ h.
      validate_sections_lem want got (Answers-length want got h)
        (Answers-validate_each [] want got h (Unseen-nil got)),
)
