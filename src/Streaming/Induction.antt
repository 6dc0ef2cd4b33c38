-- ===== src/Streaming/Induction.antt =====
-- What the steps on an utterance keep, the events of a session keep
-- (internal/pluginkit/streaming.go).
use muesli.Base.{
  ℕ, zero, suc, Bool, Option, List, [], ◌∷◌, ◌++◌, length, if_cases, leb, ◌==◌, take, drop,
}
use muesli.Base.Text.{Text}
use muesli.Streaming.Config.{StreamingConfig, subframe}
use muesli.Streaming.{
  StreamingSession, Utterance, Event, feeds, finishes, runs, is_nil, classify, classify_subframes,
  feed_subframes, feed, finish_remainder, commit_open, finish, run_goroutine, step, run,
}

module _ {F A V : Type 0} (cfg : StreamingConfig F) (is_speech : V → List A → Bool × V)
    (transcribe : List A → Option Text) (P : Utterance A V → Type 0)
    (on_classify : (frame : List A) (s : Utterance A V) → P s → P (classify cfg is_speech frame s))
    (on_commit : (s : Utterance A V) → P s → P (commit_open cfg is_speech s))
    (on_run : (i : ℕ) (s : Utterance A V) → P s → P (run_goroutine cfg transcribe i s)) where
  classify_subframes_keeps :
      (fuel k : ℕ) (b : List A) (s : Utterance A V)
      → P s
      → P (classify_subframes cfg is_speech fuel k b s).1
  unfolding classify_subframes
  classify_subframes_keeps zero k b s h = h
  classify_subframes_keeps (suc fuel) k b s h =
      if_cases (λ (r : List A × Utterance A V). P r.1) (leb k (length b))
        (λ _.
          classify_subframes_keeps fuel k (drop k b) (classify cfg is_speech (take k b) s)
            (on_classify (take k b) s h))
        (λ _. h)

  feed_keeps :
      (frame : List A) (s : StreamingSession A V)
      → P s.utterance
      → P (feed cfg is_speech frame s).utterance
  unfolding feed feed_subframes
  feed_keeps [] s h = h
  feed_keeps (x ∷ xs) s h =
      if_cases (λ (r : StreamingSession A V). P r.utterance) (subframe cfg == 0)
        (λ _. on_classify (x ∷ xs) s.utterance h)
        (λ _.
          classify_subframes_keeps (length (s.pending ++ x ∷ xs)) (subframe cfg)
            (s.pending ++ x ∷ xs) s.utterance h)

  finish_keeps : (s : StreamingSession A V) → P s.utterance → P (finish cfg is_speech s).utterance
  unfolding finish finish_remainder
  finish_keeps s h = on_commit _ (
      if_cases (λ (r : StreamingSession A V). P r.utterance) (is_nil s.pending) (λ _. h)
        (λ _. on_classify s.pending s.utterance h))

  step_keeps :
      (e : Event A) (s : StreamingSession A V)
      → P s.utterance
      → P (step cfg is_speech transcribe e s).utterance
  unfolding step
  step_keeps (feeds frame) s h = feed_keeps frame s h
  step_keeps finishes s h = finish_keeps s h
  step_keeps (runs i) s h = on_run i s.utterance h

  pub run_keeps :
      (es : List (Event A)) (s : StreamingSession A V)
      → P s.utterance
      → P (run cfg is_speech transcribe es s).utterance
  unfolding run
  run_keeps [] s h = h
  run_keeps (e ∷ es) s h = run_keeps es (step cfg is_speech transcribe e s) (step_keeps e s h)
