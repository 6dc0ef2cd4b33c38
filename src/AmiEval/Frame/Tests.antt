-- ===== src/AmiEval/Frame/Tests.antt =====
-- Runs of ScoreFrames: internal/score/frame.go of ami-eval.
use muesli.Base.{ℕ, ◌+◌, ◌≡◌, refl, Bool, true, false, not, ◌&&◌, List, [], ◌∷◌, inr, arith}
use muesli.AmiEval.{Interval, overlaps, before, insert, sort_slice}
use muesli.AmiEval.Frame.{
  Frame, score_frames, count_frames, count_frame, valid_span, add_weight, reference_positive, scan,
  sort_search, search_loop, ends_after,
}
use muesli.AmiEval.Frame.Exact.{touches, weight, score_frames-exact}

abbrev span : ℕ → ℕ → Interval
span a b = record { start = a; stop = b }

-- The later interval first.
abbrev intervals : List Interval
intervals = span 1_900 2_000 ∷ span 100 1_200 ∷ []

abbrev frame : ℕ → ℕ → Bool → Frame
frame start valid predicted = record { start = start; valid_samples = valid; predicted = predicted }

abbrev frames : List Frame
frames =
    frame 0 100 true
    ∷ frame 100 100 true
    ∷ frame 1_150 100 false
    ∷ frame 1_300 100 false
    ∷ frame 2_000 0 true
    ∷ []

scores : score_frames frames intervals ≡ record { tp = 100; fp = 100; tn = 100; fn = 100 }
unfolding score_frames count_frames count_frame valid_span add_weight reference_positive scan
    sort_search search_loop ends_after overlaps sort_slice insert before
scores = refl

score_frames-exact_example :
    let c = score_frames frames intervals in
    let refs = intervals in
    (c.tp ≡ weight (λ f. f.predicted && touches refs f) frames)
    × (c.fp ≡ weight (λ f. f.predicted && not (touches refs f)) frames)
    × (c.fn ≡ weight (λ f. not f.predicted && touches refs f) frames)
    × (c.tn ≡ weight (λ f. not f.predicted && not (touches refs f)) frames)
    × (c.tp + c.fp + c.fn + c.tn ≡ weight (λ f. true) frames)
score_frames-exact_example =
    score_frames-exact 300 frames intervals
      (omega arith, (inr (omega arith), tt), (omega arith, tt, tt))
