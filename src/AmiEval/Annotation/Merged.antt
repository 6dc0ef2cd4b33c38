-- ===== src/AmiEval/Annotation/Merged.antt =====
-- The reference of a meeting: BuildReference, internal/annotation/annotation.go of ami-eval.
use muesli.Base.{
  ℕ, ◌+◌, ◌-◌, ◌*◌, ◌/◌, ◌≡◌, refl, sym, ap, subst, ◌∙◌, true, false, Option, none, some, List, [],
  ◌∷◌, inl, inr, Bool-cases, Option-cases, arith, All, All-append, ltb, if_cases,
}
use muesli.Base.Int.{ℤ, pos, negsuc, ltb_ℤ, pos_part, ◌≤ℤ◌}
use muesli.AmiEval.{sort_slice, IsSeparated}
use muesli.AmiEval.Annotation.{
  merge_intervals, clamp_start, keep, flatten, flatten_all, build_reference, Word, Flat, Reference,
  merge_gap_millis, end_overrun_fatal_millis,
}
use muesli.AmiEval.Annotation.Apart.{
  IsInside, sort_slice-All, sort_slice-IsAscending, merge_intervals-IsSeparated,
}
use muesli.AmiEval.Annotation.Covered.{IsCovered, merge_intervals-covers, sort_slice-parts}

some-injective : {A : Type 0} {x y : A} → ◌≡◌ {A = Option A} (some x) (some y) → x ≡ y
some-injective e = cc

flatten_all_stops :
    (samples fatal : ℕ) (w : Word) (ws : List Word) (f : Flat)
    → flatten samples fatal w f ≡ none
    → flatten_all samples fatal (w ∷ ws) f ≡ none
unfolding flatten_all
flatten_all_stops samples fatal w ws f n = rw (flatten_all, n) refl

flatten_all_goes :
    (samples fatal : ℕ) (w : Word) (ws : List Word) (f : Flat) {g : Flat}
    → flatten samples fatal w f ≡ some g
    → flatten_all samples fatal (w ∷ ws) f ≡ flatten_all samples fatal ws g
unfolding flatten_all
flatten_all_goes samples fatal w ws f n = rw (flatten_all, n) refl

not_beyond : (samples : ℕ) (z : ℤ) → ltb_ℤ (pos samples) z ≡ false → z ≤ℤ pos samples
not_beyond samples (pos n) e = ground arith
not_beyond samples (negsuc n) e = omega arith

module _ (samples : ℕ) where
  inside :
      (start : ℕ) (last : ℤ)
      → last ≤ℤ pos samples
      → ltb_ℤ (pos start) last ≡ true
      → IsInside samples (record { start = start; stop = pos_part last })
  inside start (pos n) b e = ground arith
  inside start (negsuc n) b e = ground arith

  keep-IsInside :
      (first last : ℤ) (f : Flat)
      → last ≤ℤ pos samples
      → All (IsInside samples) f.spans
      → All (IsInside samples) (keep samples first last f).spans
  unfolding keep
  keep-IsInside first last f bound h =
      let start = (clamp_start samples first f.counts).0 in
      if_cases (λ (g : Flat). All (IsInside samples) g.spans) (ltb_ℤ (pos start) last)
        (λ e.
          All-append (IsInside samples) f.spans
            (record { start = start; stop = pos_part last } ∷ []) h (inside start last bound e, tt))
        (λ _. h)

  module _ (fatal : ℕ) (w : Word) (f : Flat) where
    flatten_fatal :
        ltb_ℤ (pos samples) w.last ≡ true
        → ltb fatal (pos_part w.last - samples) ≡ true
        → flatten samples fatal w f ≡ none
    unfolding flatten
    flatten_fatal e b = rw (flatten, e, b) refl

    flatten_clamped :
        ltb_ℤ (pos samples) w.last ≡ true
        → ltb fatal (pos_part w.last - samples) ≡ false
        → flatten samples fatal w f
          ≡ some (
              keep samples w.first (pos samples) (record f {
                counts = record (f.counts) { clamped_end = f.counts.clamped_end + 1 };
              }))
    unfolding flatten
    flatten_clamped e b = rw (flatten, e, b) refl

    flatten_whole :
        ltb_ℤ (pos samples) w.last ≡ false
        → flatten samples fatal w f ≡ some (keep samples w.first w.last f)
    unfolding flatten
    flatten_whole e = rw (flatten, e) refl

    flatten-IsInside :
        {g : Flat}
        → flatten samples fatal w f ≡ some g
        → All (IsInside samples) f.spans
        → All (IsInside samples) g.spans
    flatten-IsInside {g} e h = elim (Bool-cases (ltb_ℤ (pos samples) w.last)) [
      | inr b ↦
          let same : keep samples w.first w.last f ≡ g =
            some-injective (sym (flatten_whole b) ∙ e) in
          subst (λ k. All (IsInside samples) k.spans) same
            (keep-IsInside w.first w.last f (not_beyond samples w.last b) h)
      | inl b ↦ elim (Bool-cases (ltb fatal (pos_part w.last - samples))) [
        | inl c ↦ absurd (let no = sym (flatten_fatal b c) ∙ e in cc)
        | inr c ↦
            subst (λ k. All (IsInside samples) k.spans)
              (some-injective (sym (flatten_clamped b c) ∙ e))
              (keep-IsInside w.first (pos samples) _ (omega arith) h)
      ]
    ]

  flatten_all-IsInside :
      (fatal : ℕ) (ws : List Word) (f : Flat) {g : Flat}
      → flatten_all samples fatal ws f ≡ some g
      → All (IsInside samples) f.spans
      → All (IsInside samples) g.spans
  unfolding flatten_all
  flatten_all-IsInside fatal [] f {g} e h =
      subst (λ (k : Flat). All (IsInside samples) k.spans) (some-injective e) h
  flatten_all-IsInside fatal (w ∷ ws) f e h = elim (Option-cases (flatten samples fatal w f)) [
    | inl n ↦ absurd (let no = sym (flatten_all_stops samples fatal w ws f n) ∙ e in cc)
    | inr (f', n) ↦
        flatten_all-IsInside fatal ws f' (sym (flatten_all_goes samples fatal w ws f n) ∙ e)
          (flatten-IsInside fatal w f n h)
  ]

-- The spans that the words leave after clamping.
abbrev pub clamped_words : List Word → ℕ → ℕ → Option Flat
clamped_words words samples sample_rate =
    flatten_all samples (sample_rate * end_overrun_fatal_millis / 1000) words (record {
      counts = record { clamped_start = 0; clamped_end = 0; clamped_empty = 0 };
      spans = [];
    })

module _ (words : List Word) (samples sample_rate : ℕ) where
  refused :
      clamped_words words samples sample_rate ≡ none
      → build_reference words samples sample_rate ≡ none
  unfolding build_reference
  refused n = rw (build_reference, n) refl

  built :
      {f : Flat}
      → clamped_words words samples sample_rate ≡ some f
      → build_reference words samples sample_rate
        ≡ some (record {
          counters = f.counts;
          duration_samples = samples;
          merge_gap_samples = sample_rate * merge_gap_millis / 1000;
          intervals = merge_intervals (sample_rate * merge_gap_millis / 1000) (sort_slice f.spans);
        })
  unfolding build_reference
  built n = rw (build_reference, n) refl

-- A reference that is built has intervals of positive duration inside the audio, ordered and more
-- than the merge gap of 300 ms apart, and every clamped word lies in one of them.
pub build_reference-IsSeparated :
    (words : List Word) (samples sample_rate : ℕ) {ref : Reference}
    → build_reference words samples sample_rate ≡ some ref
    → IsSeparated (sample_rate * merge_gap_millis / 1000) ref.intervals
      × All (IsInside samples) ref.intervals
      × ((f : Flat) × (clamped_words words samples sample_rate ≡ some f)
          × All (IsCovered ref.intervals) f.spans)
unfolding build_reference
build_reference-IsSeparated words samples sample_rate {ref} e =
    elim (Option-cases (clamped_words words samples sample_rate)) [
      | inl n ↦ absurd (let no = sym (refused words samples sample_rate n) ∙ e in cc)
      | inr (f, n) ↦
          let gap = sample_rate * merge_gap_millis / 1000 in
          let same = some-injective (sym (built words samples sample_rate n) ∙ e) in
          let inside_all = flatten_all-IsInside samples _ words _ n tt in
          let sorted = sort_slice-IsAscending f.spans in
          let (apart, inside) =
            merge_intervals-IsSeparated gap samples (sort_slice f.spans)
              (sort_slice-All (IsInside samples) f.spans inside_all) sorted in
          let out = ap (λ (r : Reference). r.intervals) same in
          (
            subst (IsSeparated gap) out apart,
            subst (All (IsInside samples)) out inside,
            (
              f,
              n,
              subst (λ o. All (IsCovered o) f.spans) out
                  (sort_slice-parts (IsCovered (merge_intervals gap (sort_slice f.spans))) f.spans
                    (merge_intervals-covers gap (sort_slice f.spans) sorted)),
            ),
          )
    ]
