-- ===== src/Streaming/Config.antt =====
-- The configuration of a session and its unit conversions: internal/pluginkit/streaming.go.
use muesli.Base.{
  ℕ, ◌*◌, ◌/◌, ◌^◌, ◌<◌, ◌≡◌, Bool, true, false, not, ◌&&◌, ◌||◌, Option, none, some, ◌≢◌, ◌↔◌,
  ◌==◌, if◌then◌else◌, inl, inr, Bool-cases, arith,
}
use muesli.Base.Int.{ℤ, pos, negsuc, pos_part, leb_ℤ, ltb_ℤ, ◌*ℤ◌, int64, int64-pos, quot}

-- Durations are nanoseconds. `F` is float64.
pub record StreamingConfig (F : Type 0) : Type 0 where
  pub sample_rate : ℤ
  pub max_window : ℤ
  pub partial_interval : ℤ
  pub silence_duration : ℤ
  pub energy_threshold : F
  pub silence_hysteresis : ℤ
  pub vad_frame : ℤ

-- int64(d) * int64(sampleRate) / int64(time.Second).
unfoldable pub duration_samples : ℤ → ℤ → ℤ
unfolding int64 quot ◌*ℤ◌
duration_samples d sample_rate = quot (int64 (d *ℤ sample_rate)) 1_000_000_000

-- A product below 2 ^ 63 does not wrap: the result is the number of whole samples.
pub duration_samples_exact :
    (d rate : ℕ)
    → d * rate < 2 ^ 63
    → duration_samples (pos d) (pos rate) ≡ pos (d * rate / 1_000_000_000)
unfolding duration_samples
duration_samples_exact d rate h = ground (arith, int64-pos (d * rate) h)

module _ {F : Type 0} (cfg : StreamingConfig F) where
  abbrev pub max_samples : ℤ
  max_samples = duration_samples cfg.max_window cfg.sample_rate

  abbrev pub partial_samples : ℤ
  partial_samples = duration_samples cfg.partial_interval cfg.sample_rate

  abbrev pub silence_samples : ℤ
  silence_samples = duration_samples cfg.silence_duration cfg.sample_rate

  abbrev pub hysteresis_samples : ℤ
  hysteresis_samples = duration_samples cfg.silence_hysteresis cfg.sample_rate

  -- The samples of one subframe, 0 where the code finds `subframe <= 0`.
  abbrev pub subframe : ℕ
  subframe = pos_part (duration_samples cfg.vad_frame cfg.sample_rate)

  -- The sample rate is positive in every session that the constructor returns.
  unfoldable pub samples_to_ms : ℕ → ℕ
  samples_to_ms samples = samples * 1000 / pos_part cfg.sample_rate

pub data ConfigError : Type 0 where
  sample_rate_not_positive : ConfigError
  max_window_not_positive : ConfigError
  partial_interval_not_positive : ConfigError
  silence_duration_not_positive : ConfigError
  energy_threshold_negative : ConfigError
  silence_hysteresis_negative : ConfigError
  vad_frame_negative : ConfigError
  vad_frame_below_sample : ConfigError
  durations_below_sample : ConfigError
  callbacks_required : ConfigError

abbrev is_zero : ℤ → Bool
is_zero (pos n) = n == 0
is_zero (negsuc n) = false

positive_not-le : (z : ℤ) → ltb_ℤ (pos 0) z ≡ true → leb_ℤ z (pos 0) ≡ false
positive_not-le z h = ground arith

nonnegative_not-lt : (z : ℤ) → leb_ℤ (pos 0) z ≡ true → ltb_ℤ z (pos 0) ≡ false
nonnegative_not-lt z h = ground arith

is_zero-ne : (z : ℤ) → z ≢ pos 0 → is_zero z ≡ false
is_zero-ne z h = ground arith

frame_check :
    (frame samples : ℤ)
    → (ltb_ℤ (pos 0) frame ≡ true → samples ≢ pos 0)
    → (ltb_ℤ (pos 0) frame && is_zero samples) ≡ false
frame_check frame samples h = elim (Bool-cases (ltb_ℤ (pos 0) frame)) [
  | inl e ↦ rw e (is_zero-ne samples (h e))
  | inr e ↦ rw e
]

module _ {F : Type 0} (is_negative : F → Bool) where
  -- The checks of NewStreamingSession, in its order: the first that fails is the error.
  -- `callbacks` says that both the transcriber and the handler were given.
  unfoldable pub check_config : StreamingConfig F → Bool → Option ConfigError
  check_config cfg callbacks =
      if leb_ℤ cfg.sample_rate (pos 0)
      then some sample_rate_not_positive
      else if leb_ℤ cfg.max_window (pos 0)
      then some max_window_not_positive
      else if leb_ℤ cfg.partial_interval (pos 0)
      then some partial_interval_not_positive
      else if leb_ℤ cfg.silence_duration (pos 0)
      then some silence_duration_not_positive
      else if is_negative cfg.energy_threshold
      then some energy_threshold_negative
      else if ltb_ℤ cfg.silence_hysteresis (pos 0)
      then some silence_hysteresis_negative
      else if ltb_ℤ cfg.vad_frame (pos 0)
      then some vad_frame_negative
      else if ltb_ℤ (pos 0) cfg.vad_frame
          && is_zero (duration_samples cfg.vad_frame cfg.sample_rate)
      then some vad_frame_below_sample
      else if is_zero (max_samples cfg)
          || is_zero (partial_samples cfg)
          || is_zero (silence_samples cfg)
      then some durations_below_sample
      else if not callbacks
      then some callbacks_required
      else none

  -- A configuration that the constructor accepts.
  pub record IsAccepted (cfg : StreamingConfig F) (callbacks : Bool) : Type 0 where
    pub rate : ltb_ℤ (pos 0) cfg.sample_rate ≡ true
    pub window : ltb_ℤ (pos 0) cfg.max_window ≡ true
    pub interval : ltb_ℤ (pos 0) cfg.partial_interval ≡ true
    pub silence : ltb_ℤ (pos 0) cfg.silence_duration ≡ true
    pub threshold : is_negative cfg.energy_threshold ≡ false
    pub hysteresis : leb_ℤ (pos 0) cfg.silence_hysteresis ≡ true
    pub frame : leb_ℤ (pos 0) cfg.vad_frame ≡ true
    pub frame_spans :
        ltb_ℤ (pos 0) cfg.vad_frame ≡ true → duration_samples cfg.vad_frame cfg.sample_rate ≢ pos 0
    pub window_spans : max_samples cfg ≢ pos 0
    pub interval_spans : partial_samples cfg ≢ pos 0
    pub silence_spans : silence_samples cfg ≢ pos 0
    pub called_back : callbacks ≡ true

  -- The constructor reports no error exactly when the rate, the window bound, the partial
  -- interval and the silence are positive, the threshold, the hysteresis and the detector's frame
  -- are not negative, each duration that must hold a sample does, and both callbacks are given.
  pub check_config-none_iff :
      (cfg : StreamingConfig F) (callbacks : Bool)
      → (check_config cfg callbacks ≡ none) ↔ IsAccepted cfg callbacks
  unfolding check_config
  check_config-none_iff cfg callbacks = (λ h. ground arith, accepted)
    where
      accepted : IsAccepted cfg callbacks → check_config cfg callbacks ≡ none
      accepted h = rw (
        positive_not-le cfg.sample_rate h.rate,
        positive_not-le cfg.max_window h.window,
        positive_not-le cfg.partial_interval h.interval,
        positive_not-le cfg.silence_duration h.silence,
        h.threshold,
        nonnegative_not-lt cfg.silence_hysteresis h.hysteresis,
        nonnegative_not-lt cfg.vad_frame h.frame,
        frame_check _ _ h.frame_spans,
        is_zero-ne _ h.window_spans,
        is_zero-ne _ h.interval_spans,
        is_zero-ne _ h.silence_spans,
        h.called_back,
      )
