-- ===== src/Streaming/Finish.antt =====
-- What a final commit and Finish do to the audio that is still open
-- (internal/pluginkit/streaming.go).
use muesli.Base.{
  ◌+◌, ◌≡◌, refl, ap, ◌∙◌, Bool, true, false, not, ◌&&◌, Option, List, [], ◌∷◌, ◌++◌, inl, inr,
  length, leb, if◌then◌else◌, append-nil, append_assoc, Bool-cases, if_cases, arith,
}
use muesli.Base.Int.{pos, leb_ℤ}
use muesli.Base.Text.{Text}
use muesli.Streaming.Config.{StreamingConfig, max_samples}
use muesli.Streaming.Serial.{IsSerial, classify-IsSerial}
use muesli.Streaming.Window.{IsWindow, classify-IsWindow}
use muesli.Streaming.Counted.{classify-total, commit_open-total}
use muesli.Streaming.Drain.{in_flight, queued, owed}
use muesli.Streaming.{
  StreamingSession, Utterance, PendingCommit, Emission, is_nil, tail, max_pending_commits, snapshot,
  queue_commit, launch_transcription, start_transcription, reset_utterance, emission, classify,
  finish_remainder, commit_open, finish,
}

module _ {F A : Type 0} (cfg : StreamingConfig F) (transcribe : List A → Option Text) where
  queued-append :
      (cs ds : List (PendingCommit A))
      → queued cfg transcribe (cs ++ ds) ≡ queued cfg transcribe cs ++ queued cfg transcribe ds
  queued-append [] ds = refl
  queued-append (c ∷ cs) ds = simp (queued-append cs ds, append_assoc)

module _ {F A V : Type 0} (cfg : StreamingConfig F) (transcribe : List A → Option Text) where
  -- The commits that survive the arrival of another one.
  abbrev pub surviving : Utterance A V → List (PendingCommit A)
  surviving s =
      if leb max_pending_commits (length s.pending_commits)
      then tail s.pending_commits
      else s.pending_commits

  -- A final commit of a window with audio is owed from then on, behind all that was owed before;
  -- nothing is lost but the oldest queued commit, and that only where two were queued already.
  pub start_transcription-owed :
      (s : Utterance A V)
      → IsSerial s
      → is_nil s.window ≡ false
      → owed cfg transcribe (start_transcription true s)
        ≡ (in_flight cfg transcribe s.goroutines ++ queued cfg transcribe (surviving s))
          ++ emission cfg transcribe true (snapshot s)
  unfolding start_transcription queue_commit launch_transcription
  start_transcription-owed s h w = elim (Bool-cases s.transcription_in_flight) [
    | inl e ↦ rw (w, e) (simp (queued-append cfg transcribe, append-nil, append_assoc))
    | inr e ↦
        let none_left : s.goroutines ≡ [] = grind (arith, h.one_flight) in
        let none_queued = h.idle e in rw (w, e) (simp (none_left, none_queued, append-nil))
  ]

module _ {F A V : Type 0} (cfg : StreamingConfig F) (is_speech : V → List A → Bool × V) where
  commit_open-window :
      (s : Utterance A V)
      → (s.active ≡ false → s.window ≡ [])
      → (commit_open cfg is_speech s).window ≡ []
  unfolding commit_open reset_utterance
  commit_open-window s h = grind arith

  finish_remainder-pending :
      (s : StreamingSession A V) → (finish_remainder cfg is_speech s).pending ≡ []
  unfolding finish_remainder
  finish_remainder-pending s = ground arith

  finish_remainder-IsWindow :
      (room : leb_ℤ (pos 0) (max_samples cfg) ≡ true) (s : StreamingSession A V)
      → IsWindow cfg room s.utterance
      → IsWindow cfg room (finish_remainder cfg is_speech s).utterance
  unfolding finish_remainder
  finish_remainder-IsWindow room s h =
      if_cases (λ (r : StreamingSession A V). IsWindow cfg room r.utterance) (is_nil s.pending)
        (λ _. h) (λ _. classify-IsWindow cfg room is_speech s.pending s.utterance h)

  finish_remainder-IsSerial :
      (s : StreamingSession A V)
      → IsSerial s.utterance
      → IsSerial (finish_remainder cfg is_speech s).utterance
  unfolding finish_remainder
  finish_remainder-IsSerial s h =
      if_cases (λ (r : StreamingSession A V). IsSerial r.utterance) (is_nil s.pending) (λ _. h)
        (λ _. classify-IsSerial cfg is_speech s.pending s.utterance h)

  -- Audio that is left in the buffer is heard as one more frame.
  abbrev pub hear : List A → Utterance A V → Utterance A V
  hear [] u = u
  hear (x ∷ xs) u = classify cfg is_speech (x ∷ xs) u

  abbrev pub heard : StreamingSession A V → Utterance A V
  heard s = hear s.pending s.utterance

  finish_remainder-hear :
      (pending : List A) (u : Utterance A V) (s : StreamingSession A V)
      → s.pending ≡ pending
      → s.utterance ≡ u
      → (finish_remainder cfg is_speech s).utterance ≡ hear pending u
  unfolding finish_remainder
  finish_remainder-hear [] u s e f = rw (finish_remainder, e) f
  finish_remainder-hear (x ∷ xs) u s e f =
      rw (finish_remainder, e) (ap (classify cfg is_speech (x ∷ xs)) f)

  finish_remainder-heard :
      (s : StreamingSession A V) → (finish_remainder cfg is_speech s).utterance ≡ heard s
  finish_remainder-heard s = finish_remainder-hear s.pending s.utterance s refl refl

  hear-total :
      (pending : List A) (u : Utterance A V)
      → (hear pending u).total_samples ≡ u.total_samples + length pending
  hear-total [] u = omega arith
  hear-total (x ∷ xs) u = classify-total cfg is_speech (x ∷ xs) u

  module _ (transcribe : List A → Option Text) where
    -- What is owed once the open window is committed as a final behind what was owed before.
    abbrev pub committed : Utterance A V → List Emission
    committed s =
        if is_nil s.window
        then owed cfg transcribe s
        else (in_flight cfg transcribe s.goroutines
            ++ queued cfg transcribe (surviving cfg transcribe s))
          ++ emission cfg transcribe true (record {
            samples = s.window;
            start = s.window_start_sample;
            end = s.last_speech_end_sample;
          })

    commit_open-owed :
        (s : Utterance A V)
        → (s.active ≡ false → s.window ≡ [])
        → IsSerial s
        → owed cfg transcribe (commit_open cfg is_speech s) ≡ committed s
    unfolding commit_open reset_utterance snapshot
    commit_open-owed s h serial = elim (Bool-cases (is_nil s.window)) [
      | inl e ↦
          let closed : (s.active && not (is_nil s.window)) ≡ false = ground arith in
          rw (closed, e) refl
      | inr e ↦
          let open_window : (s.active && not (is_nil s.window)) ≡ true = grind arith in
          rw (open_window, e) (start_transcription-owed cfg transcribe s serial e)
    ]

    -- With a window bound that is not negative, on a session in a lawful state: Finish leaves no
    -- audio behind, neither in the buffer nor in the window, and counts every buffered sample. The
    -- buffered remainder is classified as one more frame; the window that is then open is owed as a
    -- final segment behind all that was owed, of which only the oldest queued commit can be
    -- dropped, where two were queued; with no open window, what is owed stays.
    pub finish_flushes :
        (room : leb_ℤ (pos 0) (max_samples cfg) ≡ true) (s : StreamingSession A V)
        → IsWindow cfg room s.utterance
        → IsSerial s.utterance
        → ((finish cfg is_speech s).pending ≡ [])
          × ((finish cfg is_speech s).window ≡ [])
          × ((finish cfg is_speech s).total_samples ≡ s.total_samples + length s.pending)
          × (owed cfg transcribe (finish cfg is_speech s).utterance ≡ committed (heard s))
    unfolding finish
    finish_flushes room s h serial =
        let idle_empty = (finish_remainder-IsWindow room s h).idle_empty in
        let rest = finish_remainder-heard s in
        let u = (finish_remainder cfg is_speech s).utterance in
        (
          finish_remainder-pending s,
          commit_open-window u idle_empty,
          commit_open-total cfg is_speech u
              ∙ ap (λ (r : Utterance A V). r.total_samples) rest
              ∙ hear-total s.pending s.utterance,
          commit_open-owed u idle_empty (finish_remainder-IsSerial s serial) ∙ ap committed rest,
        )
