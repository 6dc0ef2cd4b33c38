-- ===== src/AmiEval/Utterance/Tests.antt =====
-- Runs of ScoreUtterances: internal/score/utterance.go of ami-eval.
use muesli.Base.{ℕ, ◌+◌, ◌≤◌, ◌≡◌, List, [], ◌∷◌, length}
use muesli.AmiEval.{Interval}
use muesli.AmiEval.Utterance.{score_utterances}
use muesli.AmiEval.Utterance.Balanced.{edges, score_utterances-balanced}

abbrev span : ℕ → ℕ → Interval
span a b = record { start = a; stop = b }

-- One prediction splits a reference, another merges two, and one pair is left.
abbrev predictions : List Interval
predictions = span 0 10 ∷ span 20 30 ∷ span 100 200 ∷ span 500 600 ∷ []

abbrev references : List Interval
references = span 5 25 ∷ span 110 120 ∷ span 150 160 ∷ span 550 650 ∷ span 900 910 ∷ []

score_utterances-balanced_example :
    let c = score_utterances predictions references in
    (c.reference_count + c.split_extras ≡ edges predictions references + c.misses)
    × (c.prediction_count + c.merge_extras ≡ edges predictions references + c.spurious)
    × (c.one_to_one_pairs + c.spurious ≤ c.prediction_count)
    × (c.reference_count ≡ length references)
    × (c.prediction_count ≡ length predictions)
score_utterances-balanced_example = score_utterances-balanced predictions references
