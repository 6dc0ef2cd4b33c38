-- ===== src/People/Tests.antt =====
-- Runs of the matching of names: internal/people/match.go.
use muesli.Base.{
  ◌+◌, ◌≡◌, ◌↔◌, refl, false, ◌&&◌, none, some, List, [], ◌∷◌, leb, ◌==◌, if◌then◌else◌,
}
use muesli.Base.Text.{Text, codes, is_empty, is_space, trim_left, trim_right, trim_space}
use muesli.People.{
  Unicode, Person, lower_text, trim_blank, without_title, strip_titles, strip_leading_title,
  cut_comma, reorder_comma_name, drop_marks, fold_diacritics, fields_from, fields, join_fields,
  apply_nickname_fold, normalize_lowered, normalize_name, find_match, match_person_by_name,
}
use muesli.People.Unique.{IsOnly, match_person_by_name_iff}

-- Lower case and marks of a few letters: é is e and the acute accent.
abbrev decompose : Text → Text
decompose [] = []
decompose (c ∷ s) = if c == 233 then 101 ∷ 769 ∷ decompose s else c ∷ decompose s

abbrev latin : Unicode
latin = record {
  to_lower = λ c. if leb 65 c && leb c 90 then c + 32 else c;
  is_mark = λ c. c == 769;
  nfd = decompose;
}

abbrev person : Text → Text → Person
person id name = record { id = id; display_name = name }

normalize_title : normalize_name latin (codes " Dr. Smith,  Bob") ≡ codes "robert smith"
unfolding normalize_name lower_text trim_space trim_right trim_left is_space normalize_lowered
    strip_leading_title strip_titles without_title trim_blank reorder_comma_name cut_comma
    fold_diacritics drop_marks apply_nickname_fold fields fields_from join_fields
normalize_title = refl

normalize_accent : normalize_name latin (codes "Mrs José") ≡ codes "jose"
unfolding normalize_name lower_text trim_space trim_right trim_left is_space normalize_lowered
    strip_leading_title strip_titles without_title trim_blank reorder_comma_name cut_comma
    fold_diacritics drop_marks apply_nickname_fold fields fields_from join_fields
normalize_accent = refl

abbrev people : List Person
people = person (codes "1") (codes "Ann") ∷ person (codes "2") (codes "Robert Smith") ∷ []

match_smith : match_person_by_name latin (codes " Dr. Smith,  Bob") people ≡ some (codes "2")
unfolding match_person_by_name find_match normalize_name lower_text trim_space trim_right trim_left
    is_space normalize_lowered strip_leading_title strip_titles without_title trim_blank
    reorder_comma_name cut_comma fold_diacritics drop_marks apply_nickname_fold fields fields_from
    join_fields
match_smith = refl

match_two :
    match_person_by_name latin (codes "ann") (person (codes "3") (codes "ANN") ∷ people) ≡ none
unfolding match_person_by_name find_match normalize_name lower_text trim_space trim_right trim_left
    is_space normalize_lowered strip_leading_title strip_titles without_title trim_blank
    reorder_comma_name cut_comma fold_diacritics drop_marks apply_nickname_fold fields fields_from
    join_fields
match_two = refl

match_person_by_name_iff_example :
    (match_person_by_name latin (codes " Dr. Smith,  Bob") people ≡ some (codes "2")) ↔ (
      (is_empty (normalize_name latin (codes " Dr. Smith,  Bob")) ≡ false)
      × IsOnly latin (normalize_name latin (codes " Dr. Smith,  Bob")) (codes "2") people)
match_person_by_name_iff_example =
    match_person_by_name_iff latin (codes " Dr. Smith,  Bob") (codes "2") people
