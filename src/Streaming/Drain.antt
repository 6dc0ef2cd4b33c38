-- ===== src/Streaming/Drain.antt =====
-- The wait of Finish: what is in flight and what is queued is emitted, in order
-- (internal/pluginkit/streaming.go).
use muesli.Base.{
  ℕ, zero, suc, ◌+◌, ◌*◌, ◌-◌, ◌≤◌, ◌≡◌, refl, ◌∙◌, Bool, true, false, Option, List, [], ◌∷◌, ◌++◌,
  inl, inr, length, append-nil, append_assoc, Bool-cases, arith,
}
use muesli.Base.Text.{Text}
use muesli.Streaming.Config.{StreamingConfig}
use muesli.Streaming.Serial.{IsSerial, run_goroutine-IsSerial}
use muesli.Streaming.{
  Utterance, Goroutine, PendingCommit, Emission, transcribing, handing_over, launch_transcription,
  emission, hand_over, advance, run_goroutine, wait,
}

-- The steps that a goroutine has left, and those of the queue behind it.
abbrev pub steps_left : {A : Type 0} → List (Goroutine A) → ℕ
steps_left [] = 0
steps_left (transcribing final c ∷ gs) = 2 + steps_left gs
steps_left (handing_over ∷ gs) = 1 + steps_left gs

length-le-steps_left : {A : Type 0} (gs : List (Goroutine A)) → length gs ≤ steps_left gs
length-le-steps_left [] = omega arith
length-le-steps_left (transcribing final c ∷ gs) = omega (arith, length-le-steps_left gs)
length-le-steps_left (handing_over ∷ gs) = omega (arith, length-le-steps_left gs)

module _ {A V : Type 0} where
  abbrev pub work : Utterance A V → ℕ
  work s = steps_left s.goroutines + 2 * length s.pending_commits

module _ {F A : Type 0} (cfg : StreamingConfig F) (transcribe : List A → Option Text) where
  abbrev pub in_flight : List (Goroutine A) → List Emission
  in_flight [] = []
  in_flight (transcribing final c ∷ gs) = emission cfg transcribe final c ++ in_flight gs
  in_flight (handing_over ∷ gs) = in_flight gs

  abbrev pub queued : List (PendingCommit A) → List Emission
  queued [] = []
  queued (c ∷ cs) = emission cfg transcribe true c ++ queued cs

module _ {F A V : Type 0} (cfg : StreamingConfig F) (transcribe : List A → Option Text) where
  -- The emissions that the session still owes.
  abbrev pub owed : Utterance A V → List Emission
  owed s = in_flight cfg transcribe s.goroutines ++ queued cfg transcribe s.pending_commits

  run_transcribing :
      (s : Utterance A V) (final : Bool) (c : PendingCommit A)
      → s.goroutines ≡ transcribing final c ∷ []
      → run_goroutine cfg transcribe 0 s ≡ record s {
        goroutines = handing_over ∷ [];
        emitted = s.emitted ++ emission cfg transcribe final c;
      }
  unfolding run_goroutine advance
  run_transcribing s final c e = ground arith

  run_last :
      (s : Utterance A V)
      → s.goroutines ≡ handing_over ∷ []
      → s.pending_commits ≡ []
      → run_goroutine cfg transcribe 0 s
        ≡ record s { goroutines = []; transcription_in_flight = false }
  unfolding run_goroutine advance hand_over
  run_last s e f = ground arith

  run_next :
      (s : Utterance A V) (c : PendingCommit A) (cs : List (PendingCommit A))
      → s.goroutines ≡ handing_over ∷ []
      → s.pending_commits ≡ c ∷ cs
      → run_goroutine cfg transcribe 0 s ≡ record s {
        goroutines = transcribing true c ∷ [];
        transcription_in_flight = true;
        pending_commits = cs;
      }
  unfolding run_goroutine advance hand_over launch_transcription
  run_next s c cs e f = ground arith

  -- Each step of the goroutine in flight pays for what it takes off the debt.
  abbrev Pays : Utterance A V → Utterance A V → Type 0
  Pays s t = (t.emitted ++ owed t ≡ s.emitted ++ owed s) × (work t ≡ work s - 1)

  run_goroutine-Pays :
      (gs : List (Goroutine A)) (cs : List (PendingCommit A)) (s : Utterance A V)
      → s.goroutines ≡ gs
      → s.pending_commits ≡ cs
      → length gs ≡ 1
      → Pays s (run_goroutine cfg transcribe 0 s)
  run_goroutine-Pays [] cs s e f l = absurd (omega arith)
  run_goroutine-Pays (transcribing final c ∷ []) cs s e f l =
      rw (run_transcribing s final c e) (simp (e, append_assoc, append-nil), ground arith)
  run_goroutine-Pays (handing_over ∷ []) [] s e f l =
      rw (run_last s e f) (simp (e, f), ground arith)
  run_goroutine-Pays (handing_over ∷ []) (c ∷ cs) s e f l =
      rw (run_next s c cs e f) (simp (e, f, append-nil), ground arith)
  run_goroutine-Pays (g ∷ g' ∷ gs) cs s e f l = absurd (omega arith)

  run_quiet : (s : Utterance A V) → s.goroutines ≡ [] → run_goroutine cfg transcribe 0 s ≡ s
  unfolding run_goroutine
  run_quiet s e = ground arith

  wait_quiet : (fuel : ℕ) (s : Utterance A V) → s.goroutines ≡ [] → wait cfg transcribe fuel s ≡ s
  unfolding wait
  wait_quiet zero s e = refl
  wait_quiet (suc fuel) s e = rw (run_quiet s e) (wait_quiet fuel s e)

  abbrev pub Delivers : Utterance A V → Utterance A V → Type 0
  Delivers s t = (t.emitted ≡ s.emitted ++ owed s) × (t.goroutines ≡ []) × (t.pending_commits ≡ [])

  idle-Delivers :
      (fuel : ℕ) (s : Utterance A V)
      → IsSerial s
      → s.transcription_in_flight ≡ false
      → Delivers s (wait cfg transcribe fuel s)
  idle-Delivers fuel s h e =
      let none_left : s.goroutines ≡ [] = grind (arith, h.one_flight) in
      let none_queued = h.idle e in
      rw (wait_quiet fuel s none_left)
        (simp (none_left, none_queued, append-nil), none_left, none_queued)

  -- With fuel for the work left, the wait of Finish ends with no goroutine and no queued commit,
  -- and has emitted exactly the commit in flight and then the queued ones, oldest first.
  pub wait-Delivers :
      (fuel : ℕ) (s : Utterance A V)
      → IsSerial s
      → work s ≤ fuel
      → Delivers s (wait cfg transcribe fuel s)
  unfolding wait
  wait-Delivers zero s h f = elim (Bool-cases s.transcription_in_flight) [
    | inl e ↦ absurd (ground (arith, length-le-steps_left s.goroutines, h.one_flight))
    | inr e ↦ idle-Delivers zero s h e
  ]
  wait-Delivers (suc fuel) s h f = elim (Bool-cases s.transcription_in_flight) [
    | inl e ↦
        let (paid, less) =
          run_goroutine-Pays s.goroutines s.pending_commits s refl refl
            (ground (arith, h.one_flight)) in
        let rest =
          wait-Delivers fuel (run_goroutine cfg transcribe 0 s)
            (run_goroutine-IsSerial cfg transcribe 0 s h) (omega arith) in
        (rest.0 ∙ paid, rest.1, rest.2)
    | inr e ↦ idle-Delivers (suc fuel) s h e
  ]
