-- ===== src/Multitrack/Stable.antt =====
-- The merged segments: orchestrateChannels (internal/pluginkit/multitrack.go).
use muesli.Base.{
  ℕ, ◌+◌, ◌≡◌, refl, sym, ap, subst, ◌∙◌, Bool, true, false, Option, none, some, List, [], ◌∷◌,
  ◌++◌, inl, inr, ◌⊎◌, ◌↔◌, Bool-cases, Option-cases, append_assoc, append-nil, if◌then◌else◌,
}
use muesli.Base.Int.{ℤ}
use muesli.Execution.{Segment}
use muesli.Multitrack.{
  TranscribeResult, label_all, join, sort_segments, no_result, transcribe_channels,
  orchestrate_channels,
}
use muesli.Multitrack.Sorted.{IsOrdered, starting_at, sort_segments-IsOrdered, sort_segments_stable}

some_inj : {B : Type 0} {x y : B} → ◌≡◌ {A = Option B} (some x) (some y) → x ≡ y
some_inj e = cc

never_none : {B : Type 0} {x : B} → ◌≡◌ {A = Option B} none (some x) → ⊥
never_none e = cc

never_both : {b : Bool} → b ≡ true → b ≡ false → ⊥
never_both t f = cc (t, f)

module _ {A : Type 0} (is_near_silent : List A → Bool)
    (transcribe : List A → Option TranscribeResult) where
  -- The segments of one channel: none if it is silent.
  pub channel_segments : ℕ → List A → List Segment
  channel_segments i pcm =
      if is_near_silent pcm
      then []
      else elim (transcribe pcm) [ none ↦ [] | some res ↦ label_all i res.segments ]

  -- Those of all channels, one channel after the other.
  pub all_segments : ℕ → List (List A) → List Segment
  all_segments i [] = []
  all_segments i (pcm ∷ channels) = channel_segments i pcm ++ all_segments (i + 1) channels

  -- A channel that is not silent and cannot be transcribed.
  pub fails : List A → Bool
  fails pcm =
      if is_near_silent pcm then false else elim (transcribe pcm) [ none ↦ true | some r ↦ false ]

  abbrev pub Fails : List (List A) → Type 0
  Fails [] = ⊥
  Fails (pcm ∷ channels) = (fails pcm ≡ true) ⊎ Fails channels

  module _ (i : ℕ) (pcm : List A) (channels : List (List A)) (acc : TranscribeResult) where
    silent_channel :
        is_near_silent pcm ≡ true
        → transcribe_channels is_near_silent transcribe i (pcm ∷ channels) acc
          ≡ transcribe_channels is_near_silent transcribe (i + 1) channels acc
    unfolding transcribe_channels
    silent_channel e = rw (transcribe_channels, e) refl

    failed_channel :
        is_near_silent pcm ≡ false
        → transcribe pcm ≡ none
        → transcribe_channels is_near_silent transcribe i (pcm ∷ channels) acc ≡ none
    unfolding transcribe_channels
    failed_channel e f = rw (transcribe_channels, e, f) refl

    joined_channel :
        {res : TranscribeResult}
        → is_near_silent pcm ≡ false
        → transcribe pcm ≡ some res
        → transcribe_channels is_near_silent transcribe i (pcm ∷ channels) acc
          ≡ transcribe_channels is_near_silent transcribe (i + 1) channels (join i res acc)
    unfolding transcribe_channels
    joined_channel e f = rw (transcribe_channels, e, f) refl

    fails_silent : is_near_silent pcm ≡ true → fails pcm ≡ false
    unfolding fails
    fails_silent e = rw (fails, e) refl

    fails_error : is_near_silent pcm ≡ false → transcribe pcm ≡ none → fails pcm ≡ true
    unfolding fails
    fails_error e t = rw (fails, e, t) refl

    fails_heard :
        {res : TranscribeResult}
        → is_near_silent pcm ≡ false
        → transcribe pcm ≡ some res
        → fails pcm ≡ false
    unfolding fails
    fails_heard e t = rw (fails, e, t) refl

    all_segments_silent :
        is_near_silent pcm ≡ true → all_segments i (pcm ∷ channels) ≡ all_segments (i + 1) channels
    unfolding all_segments channel_segments
    all_segments_silent e = rw (all_segments, channel_segments, e) refl

    all_segments_heard :
        {res : TranscribeResult}
        → is_near_silent pcm ≡ false
        → transcribe pcm ≡ some res
        → all_segments i (pcm ∷ channels)
          ≡ label_all i res.segments ++ all_segments (i + 1) channels
    unfolding all_segments channel_segments
    all_segments_heard e t = rw (all_segments, channel_segments, e, t) refl

  -- Either some channel fails and there is no result, or the segments are those of all channels.
  abbrev Transcribed : ℕ → List (List A) → TranscribeResult → Type 0
  Transcribed i channels acc =
      (Fails channels × (transcribe_channels is_near_silent transcribe i channels acc ≡ none))
      ⊎ (¬ Fails channels
          × ((r : TranscribeResult) × (transcribe_channels is_near_silent transcribe i channels acc
                ≡ some r)
              × (r.segments ≡ acc.segments ++ all_segments i channels)))

  transcribe_channels-Transcribed :
      (i : ℕ) (channels : List (List A)) (acc : TranscribeResult) → Transcribed i channels acc
  unfolding transcribe_channels all_segments channel_segments fails join
  transcribe_channels-Transcribed i [] acc =
      inr ((λ no. no), (acc, refl, sym (append-nil acc.segments)))
  transcribe_channels-Transcribed i (pcm ∷ channels) acc = elim (Bool-cases (is_near_silent pcm)) [
    | inl e ↦ elim (transcribe_channels-Transcribed (i + 1) channels acc) [
      | inl (f, none_of) ↦ inl (inr f, silent_channel i pcm channels acc e ∙ none_of)
      | inr (ok, (r, some_of, all)) ↦ inr (
        (λ f. elim f [
          | inl now ↦ never_both now (fails_silent i pcm channels acc e)
          | inr later ↦ ok later
        ]),
        (
          r,
          silent_channel i pcm channels acc e ∙ some_of,
          all ∙ ap (λ ss. acc.segments ++ ss) (sym (all_segments_silent i pcm channels acc e)),
        ),
      )
    ]
    | inr e ↦ elim (Option-cases (transcribe pcm)) [
      | inl t ↦
          inl (inl (fails_error i pcm channels acc e t), failed_channel i pcm channels acc e t)
      | inr (res, t) ↦ elim (transcribe_channels-Transcribed (i + 1) channels (join i res acc)) [
        | inl (f, none_of) ↦ inl (inr f, joined_channel i pcm channels acc e t ∙ none_of)
        | inr (ok, (r, some_of, all)) ↦ inr (
          (λ f. elim f [
            | inl now ↦ never_both now (fails_heard i pcm channels acc e t)
            | inr later ↦ ok later
          ]),
          (
            r,
            joined_channel i pcm channels acc e t ∙ some_of,
            all
                ∙ append_assoc acc.segments (label_all i res.segments)
                    (all_segments (i + 1) channels)
                ∙ ap (λ ss. acc.segments ++ ss) (sym (all_segments_heard i pcm channels acc e t)),
          ),
        )
      ]
    ]
  ]

  unmerged :
      (channels : List (List A))
      → transcribe_channels is_near_silent transcribe 0 channels no_result ≡ none
      → orchestrate_channels is_near_silent transcribe channels ≡ none
  unfolding orchestrate_channels
  unmerged channels e = rw (orchestrate_channels, e) refl

  merged :
      (channels : List (List A)) {r : TranscribeResult}
      → transcribe_channels is_near_silent transcribe 0 channels no_result ≡ some r
      → orchestrate_channels is_near_silent transcribe channels
        ≡ some (record r { segments = sort_segments r.segments })
  unfolding orchestrate_channels
  merged channels e = rw (orchestrate_channels, e) refl

  -- When the orchestration of the channels has a result, its segments are ordered by start, and those
  -- that share a start are, in this order, the ones of the channels: each channel that is not silent
  -- contributes its transcript under the speaker and source of its index, a lower channel first.
  pub orchestrate_channels-merges :
      (channels : List (List A)) (r : TranscribeResult)
      → orchestrate_channels is_near_silent transcribe channels ≡ some r
      → IsOrdered r.segments
        × ((t : ℤ) → starting_at t r.segments ≡ starting_at t (all_segments 0 channels))
  unfolding orchestrate_channels
  orchestrate_channels-merges channels r h =
      elim (transcribe_channels-Transcribed 0 channels no_result) [
        | inl (f, none_of) ↦ absurd (never_none (sym (unmerged channels none_of) ∙ h))
        | inr (ok, (q, some_of, all)) ↦
            let same = ap (λ u. u.segments) (some_inj (sym (merged channels some_of) ∙ h)) in
            subst
              (λ ss.
                IsOrdered ss
                × ((t : ℤ) → starting_at t ss ≡ starting_at t (all_segments 0 channels)))
              same
              (
                sort_segments-IsOrdered q.segments,
                λ t. sort_segments_stable t q.segments ∙ ap (starting_at t) all,
              )
      ]

  -- The orchestration ends in an error exactly when some channel that is not silent cannot be
  -- transcribed: a silent one is never sent, and no partial transcript is returned.
  pub orchestrate_channels-none_iff :
      (channels : List (List A))
      → (orchestrate_channels is_near_silent transcribe channels ≡ none) ↔ Fails channels
  unfolding orchestrate_channels
  orchestrate_channels-none_iff channels =
      elim (transcribe_channels-Transcribed 0 channels no_result) [
        | inl (f, none_of) ↦ ((λ h. f), (λ h. unmerged channels none_of))
        | inr (ok, (q, some_of, all)) ↦
            ((λ h. absurd (never_none (sym h ∙ merged channels some_of))), (λ f. absurd (ok f)))
      ]
