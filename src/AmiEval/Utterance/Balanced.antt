-- ===== src/AmiEval/Utterance/Balanced.antt =====
-- The counts of ScoreUtterances balance (internal/score/utterance.go of ami-eval).
use muesli.Base.{
  ℕ, suc, ◌+◌, ◌≤◌, ◌≡◌, refl, sym, Bool, List, [], ◌∷◌, map, length, arith, if◌then◌else◌,
  count_rows,
}
use muesli.AmiEval.{Interval, overlaps}
use muesli.AmiEval.Utterance.{
  Mark, unmarked, mark, mark_references, mark_predictions, unmatched, extras, is_pair, pairs,
  insert_by_start, sort_by_start, score_utterances,
}

-- The pairs of a prediction and a reference that overlap.
pub edges : List Interval → List Interval → ℕ
edges [] refs = 0
edges (p ∷ ps) refs = count_rows (overlaps p) refs + edges ps refs

total : List Mark → ℕ
total [] = 0
total (m ∷ ms) = m.degree + total ms

-- One prediction: its entry and the references' gain one for each overlap.
mark_references_lem :
    (p : Interval) (i j : ℕ) (refs : List Interval) (own : Mark) (ms : List Mark)
    → length refs ≡ length ms
    → let (own', ms') = mark_references p i j refs own ms in
      (own'.degree ≡ own.degree + count_rows (overlaps p) refs)
      × (total ms' ≡ total ms + count_rows (overlaps p) refs)
      × (length ms' ≡ length ms)
unfolding mark_references total count_rows
mark_references_lem p i j [] own [] n = omega arith
mark_references_lem p i j [] own (m ∷ ms) n = absurd (omega arith)
mark_references_lem p i j (r ∷ rs) own [] n = absurd (omega arith)
mark_references_lem p i j (r ∷ rs) own (m ∷ ms) n =
    let rest =
      mark_references_lem p i (j + 1) rs (if overlaps p r then mark j own else own) ms
        (omega (arith, n)) in
    ground (arith, rest)

mark_predictions_lem :
    (i : ℕ) (ps refs : List Interval) (ms : List Mark)
    → length refs ≡ length ms
    → let (own, ms') = mark_predictions i ps refs ms in
      (total own ≡ edges ps refs)
      × (total ms' ≡ total ms + edges ps refs)
      × (length own ≡ length ps)
      × (length ms' ≡ length ms)
unfolding mark_predictions total edges
mark_predictions_lem i [] refs ms n = omega arith
mark_predictions_lem i (p ∷ ps) refs ms n =
    let one = mark_references_lem p i 0 refs unmarked ms n in
    let rest =
      mark_predictions_lem (i + 1) ps refs (mark_references p i 0 refs unmarked ms).1
        (omega (arith, n, one)) in
    omega (arith, one, rest)

extras-unmatched : (ms : List Mark) → length ms + extras ms ≡ total ms + unmatched ms
unfolding extras unmatched total
extras-unmatched [] = refl
extras-unmatched (m ∷ ms) = ground (arith, extras-unmatched ms)

pairs-unmatched : (i : ℕ) (own refs : List Mark) → pairs i own refs + unmatched own ≤ length own
unfolding pairs unmatched is_pair
pairs-unmatched i [] refs = omega arith
pairs-unmatched i (m ∷ ms) refs = ground (arith, pairs-unmatched (i + 1) ms refs)

total-unmarked :
    (refs : List Interval)
    → (total (map (λ r. unmarked) refs) ≡ 0) × (length (map (λ r. unmarked) refs) ≡ length refs)
unfolding total
total-unmarked [] = (refl, refl)
total-unmarked (r ∷ rs) = let rest = total-unmarked rs in omega (arith, rest)

module _ (fits : Interval → Bool) where
  count_rows-insert_by_start :
      (x : Interval) (xs : List Interval)
      → count_rows fits (insert_by_start x xs) ≡ count_rows fits (x ∷ xs)
  unfolding count_rows insert_by_start
  count_rows-insert_by_start x [] = refl
  count_rows-insert_by_start x (y ∷ ys) = ground (arith, count_rows-insert_by_start x ys)

  count_rows-sort_by_start :
      (xs : List Interval) → count_rows fits (sort_by_start xs) ≡ count_rows fits xs
  unfolding count_rows sort_by_start
  count_rows-sort_by_start [] = refl
  count_rows-sort_by_start (x ∷ xs) =
      ground (arith, count_rows-insert_by_start x (sort_by_start xs), count_rows-sort_by_start xs)

length-insert_by_start :
    (x : Interval) (xs : List Interval) → length (insert_by_start x xs) ≡ suc (length xs)
unfolding insert_by_start
length-insert_by_start x [] = refl
length-insert_by_start x (y ∷ ys) = ground (arith, length-insert_by_start x ys)

length-sort_by_start : (xs : List Interval) → length (sort_by_start xs) ≡ length xs
unfolding sort_by_start
length-sort_by_start [] = refl
length-sort_by_start (x ∷ xs) =
    omega (arith, length-insert_by_start x (sort_by_start xs), length-sort_by_start xs)

module _ (refs : List Interval) where
  edges-insert_by_start :
      (x : Interval) (xs : List Interval)
      → edges (insert_by_start x xs) refs ≡ count_rows (overlaps x) refs + edges xs refs
  unfolding edges insert_by_start
  edges-insert_by_start x [] = refl
  edges-insert_by_start x (y ∷ ys) = ground (arith, edges-insert_by_start x ys)

  edges-sort_by_start : (xs : List Interval) → edges (sort_by_start xs) refs ≡ edges xs refs
  unfolding edges sort_by_start
  edges-sort_by_start [] = refl
  edges-sort_by_start (x ∷ xs) =
      omega (arith, edges-insert_by_start x (sort_by_start xs), edges-sort_by_start xs)

edges_sorted_refs : (ps refs : List Interval) → edges ps (sort_by_start refs) ≡ edges ps refs
unfolding edges
edges_sorted_refs [] refs = refl
edges_sorted_refs (p ∷ ps) refs =
    omega (arith, count_rows-sort_by_start (overlaps p) refs, edges_sorted_refs ps refs)

-- The counts of ScoreUtterances against the overlapping pairs of a prediction and a reference, in
-- whatever order the two are given: the references and the split extras are the pairs and the
-- misses, the predictions and the merge extras are the pairs and the spurious ones, and no more
-- predictions are paired one to one than are not spurious.
pub score_utterances-balanced :
    (predictions references : List Interval)
    → let c = score_utterances predictions references in
      (c.reference_count + c.split_extras ≡ edges predictions references + c.misses)
      × (c.prediction_count + c.merge_extras ≡ edges predictions references + c.spurious)
      × (c.one_to_one_pairs + c.spurious ≤ c.prediction_count)
      × (c.reference_count ≡ length references)
      × (c.prediction_count ≡ length predictions)
unfolding score_utterances
score_utterances-balanced predictions references =
    let preds = sort_by_start predictions in
    let refs = sort_by_start references in
    let start = map (λ r. unmarked) refs in
    let blank = total-unmarked refs in
    let marked = mark_predictions 0 preds refs start in
    let counted = mark_predictions_lem 0 preds refs start (sym blank.1) in
    let pairs_all = edges_sorted_refs preds references in
    let pairs_given = edges-sort_by_start references predictions in
    let own = extras-unmatched marked.0 in
    let theirs = extras-unmatched marked.1 in
    let paired = pairs-unmatched 0 marked.0 marked.1 in
    omega (
      arith,
      counted,
      blank,
      pairs_all,
      pairs_given,
      own,
      theirs,
      paired,
      length-sort_by_start predictions,
      length-sort_by_start references,
    )
