-- ===== src/AmiEval/Utterance.antt =====
-- Utterance scores: the counts of internal/score/utterance.go of ami-eval.
pub mod Balanced
mod Tests
use muesli.Base.{
  ℕ, zero, suc, ◌+◌, ◌-◌, Bool, true, false, ◌&&◌, Option, none, some, List, [], ◌∷◌, ◌++◌, map,
  length, get_elem?, ltb, leb, ◌==◌, if◌then◌else◌,
}
use muesli.AmiEval.{Interval, overlaps}

-- An entry of predDegree and predPartner, or of refDegree and refPartner: -1 is `none`.
pub record Mark : Type 0 where
  pub degree : ℕ
  pub partner : Option ℕ

abbrev pub unmarked : Mark
unmarked = record { degree = 0; partner = none }

abbrev pub mark : ℕ → Mark → Mark
mark i m = record { degree = m.degree + 1; partner = some i }

-- The inner loop: prediction `i`, whose entry is `own`, against the references from the `j`-th on.
pub mark_references : Interval → ℕ → ℕ → List Interval → Mark → List Mark → Mark × List Mark
mark_references p i j (r ∷ rs) own (m ∷ ms) =
    let hit = overlaps p r in
    let (own', rest) = mark_references p i (j + 1) rs (if hit then mark j own else own) ms in
    (own', (if hit then mark i m else m) ∷ rest)
mark_references p i j rs own ms = (own, ms)

-- The outer loop, from prediction `i` on: the predictions' entries and the references'.
pub mark_predictions : ℕ → List Interval → List Interval → List Mark → List Mark × List Mark
mark_predictions i [] refs ms = ([], ms)
mark_predictions i (p ∷ ps) refs ms =
    let (own, ms') = mark_references p i 0 refs unmarked ms in
    let (rest, ms'') = mark_predictions (i + 1) ps refs ms' in (own ∷ rest, ms'')

pub record UtteranceCounts : Type 0 where
  pub reference_count : ℕ
  pub prediction_count : ℕ
  pub misses : ℕ
  pub split_extras : ℕ
  pub merge_extras : ℕ
  pub spurious : ℕ
  pub one_to_one_pairs : ℕ

-- Entries of degree zero: misses, or spurious predictions.
pub unmatched : List Mark → ℕ
unmatched [] = 0
unmatched (m ∷ ms) = (if m.degree == 0 then 1 else 0) + unmatched ms

-- Degrees beyond the first: splits, or merges.
pub extras : List Mark → ℕ
extras [] = 0
extras (m ∷ ms) = (if m.degree == 0 then 0 else m.degree - 1) + extras ms

-- refDegree[j] == 1 and refPartner[j] == i.
pub is_partner : ℕ → Option Mark → Bool
is_partner i none = false
is_partner i (some m) = (m.degree == 1) && (elim m.partner [ none ↦ false | some k ↦ k == i ])

-- Prediction `i` and its partner overlap each other and nothing else.
pub is_pair : ℕ → Mark → List Mark → Bool
is_pair i own refs =
    (own.degree == 1)
    && (elim own.partner [ none ↦ false | some j ↦ is_partner i (get_elem? refs j) ])

pub pairs : ℕ → List Mark → List Mark → ℕ
pairs i [] refs = 0
pairs i (own ∷ ms) refs = (if is_pair i own refs then 1 else 0) + pairs (i + 1) ms refs

-- sort.Slice by Start alone: of equal starts the order is not fixed, here that of the input.
insert_by_start : Interval → List Interval → List Interval
insert_by_start x [] = x ∷ []
insert_by_start x (y ∷ ys) =
    let rest = insert_by_start x ys in if ltb y.start x.start then y ∷ rest else x ∷ y ∷ ys

pub sort_by_start : List Interval → List Interval
sort_by_start [] = []
sort_by_start (x ∷ xs) = insert_by_start x (sort_by_start xs)

pub score_utterances : List Interval → List Interval → UtteranceCounts
score_utterances predictions references =
    let preds = sort_by_start predictions in
    let refs = sort_by_start references in
    let (own, marks) = mark_predictions 0 preds refs (map (λ r. unmarked) refs) in
    record {
      reference_count = length refs;
      prediction_count = length preds;
      misses = unmatched marks;
      split_extras = extras marks;
      merge_extras = extras own;
      spurious = unmatched own;
      one_to_one_pairs = pairs 0 own marks;
    }
