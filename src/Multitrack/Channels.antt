-- ===== src/Multitrack/Channels.antt =====
-- Decoding and splitting the samples: decodeFFmpegF32LE and deinterleave
-- (internal/pluginkit/multitrack.go).
use muesli.Base.{
  ℕ, zero, suc, ◌+◌, ◌*◌, ◌/◌, ◌%◌, ◌<◌, ◌≡◌, refl, sym, ap, ◌∙◌, none, some, List, [], ◌∷◌, ◌++◌,
  map, arith, All, length, length-append,
}
use native.Mathlib.Nat.{add_comm, add-mul-div_right, div-eq_of_lt}
use muesli.Multitrack.{decode_f32le, uint32, get_or, channel_samples, channels_from, deinterleave}

-- A 32-bit word as its four bytes, the lowest first.
pub bytes_of : ℕ → List ℕ
bytes_of w = w % 256 ∷ w / 256 % 256 ∷ w / 65_536 % 256 ∷ w / 16_777_216 % 256 ∷ []

pub encode : List ℕ → List ℕ
encode [] = []
encode (w ∷ ws) = bytes_of w ++ encode ws

uint32-bytes_of :
    (w : ℕ)
    → w < 4_294_967_296
    → uint32 (w % 256) (w / 256 % 256) (w / 65_536 % 256) (w / 16_777_216 % 256) ≡ w
uint32-bytes_of w h = omega (arith, h)

decode_word :
    {A : Type 0} (from_bits : ℕ → A) (w : ℕ) (out : List ℕ) {pcm : List A}
    → w < 4_294_967_296
    → decode_f32le from_bits out ≡ some pcm
    → decode_f32le from_bits (bytes_of w ++ out) ≡ some (from_bits w ∷ pcm)
unfolding decode_f32le bytes_of
decode_word from_bits w out {pcm} h e =
    let word = uint32-bytes_of w h in rw (decode_f32le, e) (ap (λ v. some (from_bits v ∷ pcm)) word)

decode_stray :
    {A : Type 0} (from_bits : ℕ → A) (w : ℕ) (out : List ℕ)
    → decode_f32le from_bits out ≡ none
    → decode_f32le from_bits (bytes_of w ++ out) ≡ none
unfolding decode_f32le bytes_of
decode_stray from_bits w out e = rw (decode_f32le, e) refl

-- Decoding the little-endian bytes of any 32-bit words gives back the samples of these words, and
-- up to three stray bytes after them make it an error.
decode_f32le-encode :
    {A : Type 0} (from_bits : ℕ → A) (ws : List ℕ) (a b c : ℕ)
    → All (λ w. w < 4_294_967_296) ws
    → (decode_f32le from_bits (encode ws) ≡ some (map from_bits ws))
      × (decode_f32le from_bits (encode ws ++ a ∷ []) ≡ none)
      × (decode_f32le from_bits (encode ws ++ a ∷ b ∷ []) ≡ none)
      × (decode_f32le from_bits (encode ws ++ a ∷ b ∷ c ∷ []) ≡ none)
unfolding decode_f32le encode bytes_of
decode_f32le-encode from_bits [] a b c h = (refl, refl, refl, refl)
decode_f32le-encode from_bits (w ∷ ws) a b c h =
    let (whole, one, two, three) = decode_f32le-encode from_bits ws a b c h.1 in
    (
      decode_word from_bits w (encode ws) h.0 whole,
      decode_stray from_bits w (encode ws ++ a ∷ []) one,
      decode_stray from_bits w (encode ws ++ a ∷ b ∷ []) two,
      decode_stray from_bits w (encode ws ++ a ∷ b ∷ c ∷ []) three,
    )

module _ {A : Type 0} (silence : A) where
  -- The samples of frames, with a rest after them, and one channel of them.
  pub interleave : List (List A) → List A → List A
  interleave [] rest = rest
  interleave (f ∷ fs) rest = f ++ interleave fs rest

  pub column : List (List A) → ℕ → List A
  column [] c = []
  column (f ∷ fs) c = get_or f c silence ∷ column fs c

  pub columns : List (List A) → ℕ → ℕ → List (List A)
  columns fs c zero = []
  columns fs c (suc k) = column fs c ∷ columns fs (c + 1) k

  get_or-front :
      (f xs : List A) (c : ℕ) → c < length f → get_or (f ++ xs) c silence ≡ get_or f c silence
  get_or-front [] xs c h = absurd (omega arith)
  get_or-front (x ∷ f) xs zero h = refl
  get_or-front (x ∷ f) xs (suc c) h = get_or-front f xs c (omega (arith, h))

  get_or-back :
      (f xs : List A) (i j : ℕ)
      → j ≡ length f + i
      → get_or (f ++ xs) j silence ≡ get_or xs i silence
  get_or-back [] xs i j e = ap (λ k. get_or xs k silence) (omega (arith, e))
  get_or-back (x ∷ f) xs i zero e = absurd (omega (arith, e))
  get_or-back (x ∷ f) xs i (suc j) e = get_or-back f xs i j (omega (arith, e))

  module _ (n c : ℕ) (in_frame : c < n) where
    next : (k : ℕ) → (f : ℕ) → f ≡ n → suc k * n + c ≡ f + (k * n + c)
    next k f e = omega (arith, e)

    move : (i k : ℕ) → (i + suc k) * n + c ≡ (i + 1 + k) * n + c
    move i k = omega arith

    -- Sample `c` of frame `k` of frames of length `n`.
    get_or-interleave :
        (fs : List (List A)) (rest : List A) (k : ℕ)
        → All (λ f. length f ≡ n) fs
        → k < length fs
        → get_or (interleave fs rest) (k * n + c) silence ≡ get_or (get_or fs k []) c silence
    unfolding interleave
    get_or-interleave [] rest k h le = absurd (omega (arith, le))
    get_or-interleave (f ∷ fs) rest zero h le =
        let short = h.0 in
        ap (λ j. get_or (f ++ interleave fs rest) j silence) (omega arith)
        ∙ get_or-front f (interleave fs rest) c (omega (arith, in_frame, short))
    get_or-interleave (f ∷ fs) rest (suc k) h le =
        let short = h.0 in
        get_or-back f (interleave fs rest) (k * n + c) (suc k * n + c) (next k (length f) short)
        ∙ get_or-interleave fs rest k h.1 (omega (arith, le))

    channel_samples-column :
        (xs : List A) (fs : List (List A)) (i : ℕ)
        → ((k : ℕ)
            → k < length fs
            → get_or xs ((i + k) * n + c) silence ≡ get_or (get_or fs k []) c silence)
        → channel_samples silence xs n c i (length fs) ≡ column fs c
    unfolding channel_samples column
    channel_samples-column xs [] i h = refl
    channel_samples-column xs (f ∷ fs) i h =
        let rest = channel_samples silence xs n c (i + 1) (length fs) in
        ap (λ y. y ∷ rest)
          (ap (λ j. get_or xs (j * n + c) silence) (omega arith) ∙ h 0 (omega arith))
        ∙ ap (λ ys. get_or f c silence ∷ ys)
            (channel_samples-column xs fs (i + 1) (λ k le.
              ap (λ j. get_or xs j silence) (sym (move i k)) ∙ h (suc k) (omega (arith, le))))

  length-interleave :
      (n : ℕ) (fs : List (List A)) (rest : List A)
      → All (λ f. length f ≡ n) fs
      → length (interleave fs rest) ≡ length fs * n + length rest
  unfolding interleave
  length-interleave n [] rest h = omega arith
  length-interleave n (f ∷ fs) rest h =
      let short = h.0 in
      let rest_of = length-interleave n fs rest h.1 in
      let both = length-append f (interleave fs rest) in omega (arith, short, rest_of, both)

  channels_from-columns :
      (n : ℕ) (xs : List A) (fs : List (List A)) (c k : ℕ)
      → c + k ≡ n
      → length xs / n ≡ length fs
      → ((d j : ℕ)
          → d < n
          → j < length fs
          → get_or xs (j * n + d) silence ≡ get_or (get_or fs j []) d silence)
      → channels_from silence xs n c k ≡ columns fs c k
  unfolding channels_from columns
  channels_from-columns n xs fs c zero e q h = refl
  channels_from-columns n xs fs c (suc k) e q h =
      let rest = channels_from silence xs n (c + 1) k in
      ap (λ m. channel_samples silence xs n c 0 m ∷ rest) q
      ∙ ap (λ ys. ys ∷ rest)
          (channel_samples-column n c (omega (arith, e)) xs fs 0 (λ j le.
            ap (λ i. get_or xs (i * n + c) silence) (omega arith) ∙ h c j (omega (arith, e)) le))
      ∙ ap (λ cs. column fs c ∷ cs) (channels_from-columns n xs fs (c + 1) k (omega (arith, e)) q h)

  -- Splitting frames of one sample for each channel gives the columns of the frames, one list for
  -- each channel in order; fewer samples than a frame at the end are dropped.
  deinterleave-columns :
      (n : ℕ) (fs : List (List A)) (rest : List A)
      → All (λ f. length f ≡ n) fs
      → length rest < n
      → deinterleave silence (interleave fs rest) n ≡ columns fs 0 n
  unfolding deinterleave
  deinterleave-columns n fs rest h short =
      let whole = length-interleave n fs rest h in
      channels_from-columns n (interleave fs rest) fs 0 n (omega arith)
        (ap (λ m. m / n) (whole ∙ add_comm (length fs * n) (length rest))
          ∙ add-mul-div_right (length rest) (length fs) (omega (arith, short))
          ∙ ap (λ m. m + length fs) (div-eq_of_lt short)
          ∙ omega arith)
        (λ d j in_frame le. get_or-interleave n d in_frame fs rest j h le)
