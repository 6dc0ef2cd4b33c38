-- ===== src/Streaming/Framing.antt =====
-- The subframe loop of Feed (internal/pluginkit/streaming.go): how audio is chunked does not matter.
use mathlib.Core.List.{flatten}
use muesli.Base.{
  ℕ, zero, suc, ◌≤◌, ◌<◌, ◌≡◌, refl, sym, ap, subst, ◌∙◌, Bool, false, inl, inr, List, [], ◌∷◌,
  ◌++◌, length, take, drop, leb, ◌==◌, length-append, length-drop, take-append, drop-append,
  append-nil, append_assoc, leb→le, le→leb, gt→leb, Bool-cases, arith,
}
use muesli.Streaming.Config.{StreamingConfig, subframe}
use muesli.Streaming.{
  StreamingSession, Utterance, classify, classify_subframes, feed_subframes, feed,
}

subframe-ne-zero : (k : ℕ) → 0 < k → (k == 0) ≡ false
subframe-ne-zero k h = ground arith

module _ {F A V : Type 0} (cfg : StreamingConfig F) (is_speech : V → List A → Bool × V) where
  abbrev loop : ℕ → ℕ → List A → Utterance A V → List A × Utterance A V
  loop = classify_subframes cfg is_speech

  loop_step :
      (fuel k : ℕ) (b : List A) (s : Utterance A V)
      → k ≤ length b
      → loop (suc fuel) k b s ≡ loop fuel k (drop k b) (classify cfg is_speech (take k b) s)
  unfolding classify_subframes
  loop_step fuel k b s h = rw (le→leb k (length b) h)

  loop_done :
      (fuel k : ℕ) (b : List A) (s : Utterance A V) → length b < k → loop fuel k b s ≡ (b, s)
  unfolding classify_subframes
  loop_done zero k b s h = refl
  loop_done (suc fuel) k b s h = rw (gt→leb k (length b) h)

  -- Any fuel that covers the buffer gives the same result.
  loop_fuel :
      (f g k : ℕ) (b : List A) (s : Utterance A V)
      → 0 < k
      → length b ≤ f
      → length b ≤ g
      → loop f k b s ≡ loop g k b s
  loop_fuel zero g k b s p hf hg =
      loop_done zero k b s (omega arith) ∙ sym (loop_done g k b s (omega arith))
  loop_fuel (suc f) zero k b s p hf hg =
      loop_done (suc f) k b s (omega arith) ∙ sym (loop_done zero k b s (omega arith))
  loop_fuel (suc f) (suc g) k b s p hf hg = elim (Bool-cases (leb k (length b))) [
    | inl e ↦
        let h = leb→le k (length b) e in
        loop_step f k b s h
        ∙ loop_fuel f g k (drop k b) (classify cfg is_speech (take k b) s) p
            (omega (arith, length-drop k b)) (omega (arith, length-drop k b))
        ∙ sym (loop_step g k b s h)
    | inr e ↦
        let h : length b < k = ground arith in
        loop_done (suc f) k b s h ∙ sym (loop_done (suc g) k b s h)
  ]

  loop_resume_done :
      (f g h k : ℕ) (b c : List A) (s : Utterance A V)
      → 0 < k
      → length b < k
      → length (b ++ c) ≤ g
      → length ((loop f k b s).0 ++ c) ≤ h
      → loop g k (b ++ c) s ≡ loop h k ((loop f k b s).0 ++ c) (loop f k b s).1
  loop_resume_done f g h k b c s p few hg hh =
      let d = loop_done f k b s few in
      rw d (loop_fuel g h k (b ++ c) s p hg (subst (λ r. length (r.0 ++ c) ≤ h) d hh))

  -- More audio at the end of the buffer continues where the loop had stopped.
  loop_resume :
      (f g h k : ℕ) (b c : List A) (s : Utterance A V)
      → 0 < k
      → length b ≤ f
      → length (b ++ c) ≤ g
      → length ((loop f k b s).0 ++ c) ≤ h
      → loop g k (b ++ c) s ≡ loop h k ((loop f k b s).0 ++ c) (loop f k b s).1
  loop_resume zero g h k b c s p hf hg hh = loop_resume_done zero g h k b c s p (omega arith) hg hh
  loop_resume (suc f) zero h k b c s p hf hg hh =
      loop_resume_done (suc f) zero h k b c s p (omega (arith, length-append b c)) hg hh
  loop_resume (suc f) (suc g) h k b c s p hf hg hh = elim (Bool-cases (leb k (length b))) [
    | inl e ↦
        let enough = leb→le k (length b) e in
        let longer : k ≤ length (b ++ c) = omega (arith, length-append b c) in
        let d = loop_step f k b s enough in
        loop_step g k (b ++ c) s longer
        ∙ rw (d, take-append k b c enough, drop-append k b c enough)
            (loop_resume f g h k (drop k b) c (classify cfg is_speech (take k b) s) p
              (omega (arith, length-drop k b))
              (omega (arith, length-append (drop k b) c, length-append b c, length-drop k b))
              (subst (λ r. length (r.0 ++ c) ≤ h) d hh))
    | inr e ↦ loop_resume_done (suc f) (suc g) h k b c s p (ground arith) hg hh
  ]

  -- Two calls in subframe mode are one call with the audio of both.
  feed_subframes-append :
      (k : ℕ) (xs ys : List A) (s : StreamingSession A V)
      → 0 < k
      → feed_subframes cfg is_speech k ys (feed_subframes cfg is_speech k xs s)
        ≡ feed_subframes cfg is_speech k (xs ++ ys) s
  unfolding feed_subframes
  feed_subframes-append k xs ys s p =
      let mk : List A × Utterance A V → StreamingSession A V =
        λ r. record { pending = r.0; utterance = r.1 } in
      let b = s.pending ++ xs in
      let r = loop (length b) k b s.utterance in
      let resumed : loop (length (b ++ ys)) k (b ++ ys) s.utterance
          ≡ loop (length (r.0 ++ ys)) k (r.0 ++ ys) r.1 =
        loop_resume (length b) (length (b ++ ys)) (length (r.0 ++ ys)) k b ys s.utterance p
          (omega arith) (omega arith) (omega arith) in
      ap mk (rw (append_assoc s.pending xs ys) at (sym resumed))

  -- In subframe mode, feeding two chunks is feeding their concatenation.
  feed-append :
      (xs ys : List A) (s : StreamingSession A V)
      → 0 < subframe cfg
      → feed cfg is_speech ys (feed cfg is_speech xs s) ≡ feed cfg is_speech (xs ++ ys) s
  unfolding feed
  feed-append [] ys s p = refl
  feed-append (x ∷ xs) [] s p = rw (append-nil xs)
  feed-append (x ∷ xs) (y ∷ ys) s p =
      let framed = subframe-ne-zero (subframe cfg) p in
      rw framed (feed_subframes-append (subframe cfg) (x ∷ xs) (y ∷ ys) s p)

  pub feed_all : List (List A) → StreamingSession A V → StreamingSession A V
  feed_all [] s = s
  feed_all (c ∷ cs) s = feed_all cs (feed cfg is_speech c s)

  feed_all-eq-feed :
      (cs : List (List A)) (s : StreamingSession A V)
      → 0 < subframe cfg
      → feed_all cs s ≡ feed cfg is_speech (flatten cs) s
  unfolding feed_all flatten
  feed_all-eq-feed [] s p = unfold feed in refl
  feed_all-eq-feed (c ∷ cs) s p =
      feed_all-eq-feed cs (feed cfg is_speech c s) p ∙ feed-append c (flatten cs) s p

  -- With a subframe of at least one sample, two ways to cut the same audio into calls of Feed
  -- leave the session in the same state, buffered remainder, detector and commits included.
  pub feed_all-chunking :
      (cs ds : List (List A)) (s : StreamingSession A V)
      → 0 < subframe cfg
      → flatten cs ≡ flatten ds
      → feed_all cs s ≡ feed_all ds s
  feed_all-chunking cs ds s p e =
      feed_all-eq-feed cs s p
      ∙ ap (λ audio. feed cfg is_speech audio s) e
      ∙ sym (feed_all-eq-feed ds s p)
