-- ===== src/People.antt =====
-- Matching a speaker's name to a person: internal/people/match.go.
--
-- Go's Unicode tables and golang.org/x/text/unicode/norm are parameters.
pub mod Unique
mod Tests
use muesli.Base.{
  ℕ, ◌+◌, Bool, true, false, ◌&&◌, ◌||◌, not, Option, none, some, List, [], ◌∷◌, ◌++◌, length, drop,
  ltb, ◌==◌, if◌then◌else◌,
}
use muesli.Base.Text.{Text, codes, is_space, is_empty, text_eq, trim_space}

-- unicode.ToLower, the table Mn, and norm.NFD.
pub record Unicode : Type 0 where
  pub to_lower : ℕ → ℕ
  pub is_mark : ℕ → Bool
  pub nfd : Text → Text

-- What the matching reads of a model.Person.
pub record Person : Type 0 where
  pub id : Text
  pub display_name : Text

abbrev pub nickname_fold : List (Text × Text)
nickname_fold =
    (codes "bob", codes "robert")
    ∷ (codes "bill", codes "william")
    ∷ (codes "mike", codes "michael")
    ∷ (codes "liz", codes "elizabeth")
    ∷ (codes "jim", codes "james")
    ∷ []

abbrev pub titles : List Text
titles = codes "dr" ∷ codes "mr" ∷ codes "mrs" ∷ codes "ms" ∷ codes "prof" ∷ []

pub lower_text : Unicode → Text → Text
lower_text u [] = []
lower_text u (c ∷ s) = u.to_lower c ∷ lower_text u s

-- Space, tab, carriage return and line feed.
abbrev pub is_blank : ℕ → Bool
is_blank c = (c == 32) || ((c == 9) || ((c == 13) || (c == 10)))

pub trim_blank : Text → Text
trim_blank [] = []
trim_blank (c ∷ s) = let rest = trim_blank s in if is_blank c then rest else c ∷ s

-- strings.CutPrefix.
abbrev pub after_prefix : Text → Text → Option Text
after_prefix [] s = some s
after_prefix (p ∷ ps) [] = none
after_prefix (p ∷ ps) (c ∷ s) = let rest = after_prefix ps s in if p == c then rest else none

-- One case of the switch: what is left, if the text has this title.
pub without_title : Text → Text → Option Text
without_title title s = elim (after_prefix title s) [
  | none ↦ none
  | some [] ↦ some []
  | some (c ∷ rest) ↦
      if c == 46
      then some (trim_blank rest)
      else if is_blank c
      then some (trim_blank (c ∷ rest))
      else none
]

pub strip_titles : List Text → Text → Text
strip_titles [] s = s
strip_titles (title ∷ titles) s =
    let rest = strip_titles titles s in
    elim (without_title title s) [ none ↦ rest | some stripped ↦ stripped ]

pub strip_leading_title : Text → Text
strip_leading_title s = strip_titles titles s

-- strings.Cut at a comma (44).
pub cut_comma : Text → Option (Text × Text)
cut_comma [] = none
cut_comma (c ∷ s) =
    let rest = cut_comma s in
    if c == 44
    then some ([], s)
    else elim rest [ none ↦ none | some (first, second) ↦ some (c ∷ first, second) ]

pub reorder_comma_name : Text → Text
reorder_comma_name s = elim (cut_comma s) [
  | none ↦ s
  | some (first, second) ↦
      if is_empty (trim_space first) || is_empty (trim_space second)
      then s
      else trim_space second ++ codes " " ++ trim_space first
]

pub drop_marks : Unicode → Text → Text
drop_marks u [] = []
drop_marks u (c ∷ s) = if u.is_mark c then drop_marks u s else c ∷ drop_marks u s

pub fold_diacritics : Unicode → Text → Text
fold_diacritics u s = drop_marks u (u.nfd s)

-- The fields of a text, where `word` is what was read of the first one.
pub fields_from : Text → Text → List Text
fields_from word [] = if is_empty word then [] else word ∷ []
fields_from word (c ∷ s) =
    let next = fields_from [] s in
    let same = fields_from (word ++ c ∷ []) s in
    if is_space c then (if is_empty word then next else word ∷ next) else same

-- strings.Fields.
pub fields : Text → List Text
fields s = fields_from [] s

-- strings.Join with a space.
pub join_fields : List Text → Text
join_fields [] = []
join_fields (f ∷ []) = f
join_fields (f ∷ g ∷ fs) = f ++ codes " " ++ join_fields (g ∷ fs)

abbrev pub look_up : Text → List (Text × Text) → Text
look_up name [] = name
look_up name ((k, v) ∷ pairs) = let rest = look_up name pairs in if text_eq name k then v else rest

pub apply_nickname_fold : Text → Text
apply_nickname_fold s = elim (fields s) [
  | [] ↦ []
  | f ∷ fs ↦ join_fields (look_up f nickname_fold ∷ fs)
]

pub normalize_lowered : Unicode → Text → Text
normalize_lowered u s =
    let folded =
      apply_nickname_fold
        (fold_diacritics u (strip_leading_title (reorder_comma_name (strip_leading_title s)))) in
    trim_space (join_fields (fields folded))

pub normalize_name : Unicode → Text → Text
normalize_name u name =
    let s = lower_text u (trim_space name) in if is_empty s then [] else normalize_lowered u s

abbrev pub is_match : Unicode → Text → Person → Bool
is_match u normalized p = text_eq (normalize_name u p.display_name) normalized

-- The loop: `matched` is the one match so far.
pub find_match : Unicode → Text → Option Text → List Person → Option Text
find_match u normalized matched [] = matched
find_match u normalized matched (p ∷ people) =
    let skip = find_match u normalized matched people in
    let first = find_match u normalized (some p.id) people in
    if is_match u normalized p then elim matched [ none ↦ first | some id ↦ none ] else skip

pub match_person_by_name : Unicode → Text → List Person → Option Text
match_person_by_name u name people =
    let normalized = normalize_name u name in
    if is_empty normalized then none else find_match u normalized none people
