-- ===== src/AmiEval/Frame/Exact.antt =====
-- The four counts are the weights of four kinds of frames: ScoreFrames
-- (internal/score/frame.go of ami-eval).
use muesli.Base.{
  ℕ, ◌+◌, ◌<◌, ◌∙◌, ◌≡◌, refl, sym, subst, Bool, true, false, not, ◌&&◌, List, [], ◌∷◌, inl, inr,
  Bool-cases, arith, ◌==◌, if◌then◌else◌,
}
use muesli.AmiEval.{Interval, sort_slice}
use muesli.AmiEval.Frame.{
  Frame, FrameCounts, valid_span, add_weight, reference_positive, count_frame, count_frames,
  score_frames, no_counts,
}
use muesli.AmiEval.Frame.Searched.{reference_positive-any_overlap}
use muesli.AmiEval.Frame.Sorted.{
  any_meets, IsApart, sort_slice-IsSeparated, sort_slice-any_meets, any_overlap-any_meets,
}

-- A frame whose own samples meet some reference interval.
abbrev pub touches : List Interval → Frame → Bool
touches refs f =
    (if f.valid_samples == 0
      then false
      else any_meets (record { start = f.start; stop = f.start + f.valid_samples }) refs)

-- The samples of the frames that a test chooses.
pub weight : (Frame → Bool) → List Frame → ℕ
weight test [] = 0
weight test (f ∷ fs) = (if test f then f.valid_samples else 0) + weight test fs

-- The four kinds of frames, counted on top of `c`.
abbrev Counted : (Frame → Bool) → List Frame → FrameCounts → FrameCounts → Type 0
Counted touch frames c d =
    (d.tp ≡ c.tp + weight (λ f. f.predicted && touch f) frames)
    × (d.fp ≡ c.fp + weight (λ f. f.predicted && not (touch f)) frames)
    × (d.fn ≡ c.fn + weight (λ f. not f.predicted && touch f) frames)
    × (d.tn ≡ c.tn + weight (λ f. not f.predicted && not (touch f)) frames)

-- The four kinds of frames are all frames.
weights_sum :
    (touch : Frame → Bool) (frames : List Frame)
    → weight (λ f. f.predicted && touch f) frames
        + weight (λ f. f.predicted && not (touch f)) frames
        + weight (λ f. not f.predicted && touch f) frames
        + weight (λ f. not f.predicted && not (touch f)) frames
      ≡ weight (λ f. true) frames
unfolding weight
weights_sum touch [] = refl
weights_sum touch (f ∷ fs) = ground (arith, weights_sum touch fs)

module _ (gap : ℕ) (refs : List Interval) (h : IsApart gap refs) where
  abbrev sorted : List Interval
  sorted = sort_slice refs

  found :
      (span : Interval)
      → span.start < span.stop
      → reference_positive span sorted ≡ any_meets span refs
  found span real =
      let sep = sort_slice-IsSeparated gap refs h in
      reference_positive-any_overlap gap span real sorted sep
      ∙ any_overlap-any_meets gap span sorted real sep
      ∙ sort_slice-any_meets span refs

  count_frame_empty :
      (f : Frame) (c : FrameCounts) → (f.valid_samples == 0) ≡ true → count_frame sorted f c ≡ c
  unfolding count_frame valid_span
  count_frame_empty f c e = rw (count_frame, valid_span, e) refl

  count_frame_full :
      (f : Frame) (c : FrameCounts)
      → (f.valid_samples == 0) ≡ false
      → count_frame sorted f c ≡ add_weight f.predicted (touches refs f) f.valid_samples c
  unfolding count_frame valid_span
  count_frame_full f c e =
      let span : Interval = record { start = f.start; stop = f.start + f.valid_samples } in
      let same = found span (ground (arith, e)) in
      rw (count_frame, valid_span, touches, e, same) refl

  count_frame-Counted :
      (f : Frame) (c : FrameCounts) → Counted (touches refs) (f ∷ []) c (count_frame sorted f c)
  unfolding weight add_weight
  count_frame-Counted f c = elim (Bool-cases (f.valid_samples == 0)) [
    | inl e ↦
        subst (Counted (touches refs) (f ∷ []) c) (sym (count_frame_empty f c e))
          (ground (arith, e))
    | inr e ↦
        subst (Counted (touches refs) (f ∷ []) c) (sym (count_frame_full f c e)) (ground arith)
  ]

  count_frames-Counted :
      (frames : List Frame) (c : FrameCounts)
      → Counted (touches refs) frames c (count_frames sorted frames c)
  unfolding count_frames weight
  count_frames-Counted [] c = omega arith
  count_frames-Counted (f ∷ fs) c =
      let one = count_frame-Counted f c in
      let rest = count_frames-Counted fs (count_frame sorted f c) in omega (arith, one, rest)

-- Against a reference whose intervals are apart, in whatever order they are given, the four counts
-- of ScoreFrames are the samples of four kinds of frames: predicted or not, and sharing a sample
-- with some reference interval or not. So the sort and the binary search miss no interval, and
-- together the counts are all samples.
pub score_frames-exact :
    (gap : ℕ) (frames : List Frame) (refs : List Interval)
    → IsApart gap refs
    → let c = score_frames frames refs in
      (c.tp ≡ weight (λ f. f.predicted && touches refs f) frames)
      × (c.fp ≡ weight (λ f. f.predicted && not (touches refs f)) frames)
      × (c.fn ≡ weight (λ f. not f.predicted && touches refs f) frames)
      × (c.tn ≡ weight (λ f. not f.predicted && not (touches refs f)) frames)
      × (c.tp + c.fp + c.fn + c.tn ≡ weight (λ f. true) frames)
unfolding score_frames
score_frames-exact gap frames refs h =
    let counted = count_frames-Counted gap refs h frames no_counts in
    let all = weights_sum (touches refs) frames in omega (arith, counted, all)
