-- ===== src/People/Unique.antt =====
-- The person whom a name stands for: MatchPersonByName (internal/people/match.go).
use muesli.Base.{
  ◌≡◌, ◌≢◌, ◌↔◌, ◌⊎◌, inl, inr, refl, sym, ap, ◌∙◌, true, false, Bool-cases, Option, none, some,
  List, [], ◌∷◌, All,
}
use muesli.Base.Text.{Text, is_empty, text_eq_iff}
use muesli.People.{Unicode, Person, normalize_name, is_match, find_match, match_person_by_name}

nothing : {x : Text} → ◌≡◌ {A = Option Text} none (some x) → ⊥
nothing e = cc

module _ (u : Unicode) (normalized : Text) where
  abbrev Differs : Person → Type 0
  Differs p = normalize_name u p.display_name ≢ normalized

  -- The first of these and no other has the name, or only one after it.
  abbrev pub IsOnly : Text → List Person → Type 0
  IsOnly id [] = ⊥
  IsOnly id (p ∷ people) =
      ((normalize_name u p.display_name ≡ normalized) × (p.id ≡ id) × All Differs people)
      ⊎ (Differs p × IsOnly id people)

  matches :
      (p : Person) → is_match u normalized p ≡ true → normalize_name u p.display_name ≡ normalized
  matches p e = (text_eq_iff (normalize_name u p.display_name) normalized).0 e

  differs : (p : Person) → is_match u normalized p ≡ false → Differs p
  differs p e same = cc (e, (text_eq_iff (normalize_name u p.display_name) normalized).1 same)

  module _ (p : Person) (people : List Person) where
    skips :
        (m : Option Text)
        → is_match u normalized p ≡ false
        → find_match u normalized m (p ∷ people) ≡ find_match u normalized m people
    unfolding find_match
    skips m e = rw (find_match, e) refl

    starts :
        is_match u normalized p ≡ true
        → find_match u normalized none (p ∷ people) ≡ find_match u normalized (some p.id) people
    unfolding find_match
    starts e = rw (find_match, e) refl

    stops :
        (m : Text)
        → is_match u normalized p ≡ true
        → find_match u normalized (some m) (p ∷ people) ≡ none
    unfolding find_match
    stops m e = rw (find_match, e) refl

  held_iff :
      (m id : Text) (people : List Person)
      → (find_match u normalized (some m) people ≡ some id) ↔ ((m ≡ id) × All Differs people)
  unfolding find_match
  held_iff m id [] = (λ e. (cc e, tt), λ h. ap (λ x. some x) h.0)
  held_iff m id (p ∷ people) = elim (Bool-cases (is_match u normalized p)) [
    | inl e ↦
        (λ h. absurd (nothing (sym (stops p people m e) ∙ h)), λ h. absurd (h.1.0 (matches p e)))
    | inr e ↦ (
      λ h.
          let (same, rest) = (held_iff m id people).0 (sym (skips p people (some m) e) ∙ h) in
          (same, (differs p e, rest)),
      λ h. skips p people (some m) e ∙ (held_iff m id people).1 (h.0, h.1.1),
    )
  ]

  found_iff :
      (id : Text) (people : List Person)
      → (find_match u normalized none people ≡ some id) ↔ IsOnly id people
  unfolding find_match
  found_iff id [] = (λ e. nothing e, λ h. absurd h)
  found_iff id (p ∷ people) = elim (Bool-cases (is_match u normalized p)) [
    | inl e ↦ (
      λ h.
          let (same, rest) = (held_iff p.id id people).0 (sym (starts p people e) ∙ h) in
          inl (matches p e, same, rest),
      λ h. elim h [
        | inl (now, same, rest) ↦ starts p people e ∙ (held_iff p.id id people).1 (same, rest)
        | inr (apart, rest) ↦ absurd (apart (matches p e))
      ],
    )
    | inr e ↦ (
      λ h. inr (differs p e, (found_iff id people).0 (sym (skips p people none e) ∙ h)),
      λ h. elim h [
        | inl (now, same, rest) ↦ absurd (differs p e now)
        | inr (apart, rest) ↦ skips p people none e ∙ (found_iff id people).1 rest
      ],
    )
  ]

unnamed :
    (u : Unicode) (name : Text) (people : List Person)
    → is_empty (normalize_name u name) ≡ true
    → match_person_by_name u name people ≡ none
unfolding match_person_by_name
unnamed u name people e = rw (match_person_by_name, e) refl

named :
    (u : Unicode) (name : Text) (people : List Person)
    → is_empty (normalize_name u name) ≡ false
    → match_person_by_name u name people ≡ find_match u (normalize_name u name) none people
unfolding match_person_by_name
named u name people e = rw (match_person_by_name, e) refl

-- A name is matched to a person exactly when it is not empty after normalization and the person is
-- the only one in the list whose display name has the same normalization: no match and two matches
-- are both refused, wherever they stand.
pub match_person_by_name_iff :
    (u : Unicode) (name id : Text) (people : List Person)
    → (match_person_by_name u name people ≡ some id)
      ↔ ((is_empty (normalize_name u name) ≡ false) × IsOnly u (normalize_name u name) id people)
match_person_by_name_iff u name id people = elim (Bool-cases (is_empty (normalize_name u name))) [
  | inl e ↦ (λ h. absurd (nothing (sym (unnamed u name people e) ∙ h)), λ h. absurd (cc (e, h.0)))
  | inr e ↦ (
    λ h. (e, (found_iff u (normalize_name u name) id people).0 (sym (named u name people e) ∙ h)),
    λ h. named u name people e ∙ (found_iff u (normalize_name u name) id people).1 h.1,
  )
]
