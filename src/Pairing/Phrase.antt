-- ===== src/Pairing/Phrase.antt =====
-- What the phrase tells of a fingerprint: VerificationPhrase (internal/iosaccess/pairing.go).
use muesli.Base.{
  ℕ, ◌+◌, ◌*◌, ◌/◌, ◌%◌, ◌<◌, ◌≡◌, refl, sym, ap, ◌∙◌, ◌↔◌, List, [], ◌∷◌, length, take, arith, All,
}
use muesli.Pairing.{base32_groups, base32_char, upper, to_upper, grouped, verification_phrase}

-- A SHA-256 digest: thirty-two bytes.
abbrev pub IsFingerprint : List ℕ → Type 0
IsFingerprint f = (length f ≡ 32) × All (λ b. b < 256) f

heads : {x y : ℕ} {xs ys : List ℕ} → x ∷ xs ≡ y ∷ ys → (x ≡ y) × (xs ≡ ys)
heads e = (cc e, cc e)

letter : (v w : ℕ) → v < 32 → w < 32 → upper (base32_char v) ≡ upper (base32_char w) → v ≡ w
letter v w p q e = ground (arith, p, q, e)

letter_bound :
    (b : ℕ) → b < 256 → (b / 8 < 32) × (b / 64 < 4) × (b / 16 < 16) × (b / 128 < 2) × (b / 32 < 8)
letter_bound b h =
    (omega (arith, h), omega (arith, h), omega (arith, h), omega (arith, h), omega (arith, h))

same_1 :
    (a a' b b' : ℕ)
    → b < 256
    → b' < 256
    → a / 8 ≡ a' / 8
    → a % 8 * 4 + b / 64 ≡ a' % 8 * 4 + b' / 64
    → (a ≡ a') × (b / 64 ≡ b' / 64)
same_1 a a' b b' p q e f = (omega (arith, p, q, e, f), omega (arith, p, q, e, f))

same_2 :
    (b b' c c' : ℕ)
    → c < 256
    → c' < 256
    → b / 64 ≡ b' / 64
    → b / 2 % 32 ≡ b' / 2 % 32
    → b % 2 * 16 + c / 16 ≡ b' % 2 * 16 + c' / 16
    → (b ≡ b') × (c / 16 ≡ c' / 16)
same_2 b b' c c' p q e f g = (omega (arith, p, q, e, f, g), omega (arith, p, q, e, f, g))

same_3 :
    (c c' d d' : ℕ)
    → d < 256
    → d' < 256
    → c / 16 ≡ c' / 16
    → c % 16 * 2 + d / 128 ≡ c' % 16 * 2 + d' / 128
    → (c ≡ c') × (d / 128 ≡ d' / 128)
same_3 c c' d d' p q e f = (omega (arith, p, q, e, f), omega (arith, p, q, e, f))

same_4 :
    (d d' e e' : ℕ)
    → e < 256
    → e' < 256
    → d / 128 ≡ d' / 128
    → d / 4 % 32 ≡ d' / 4 % 32
    → d % 4 * 8 + e / 32 ≡ d' % 4 * 8 + e' / 32
    → (d ≡ d') × (e / 32 ≡ e' / 32)
same_4 d d' e e' p q h i j = (omega (arith, p, q, h, i, j), omega (arith, p, q, h, i, j))

same_5 : (e e' : ℕ) → e / 32 ≡ e' / 32 → e % 32 ≡ e' % 32 → e ≡ e'
same_5 e e' h i = omega (arith, h, i)

abbrev pub IsByte : ℕ → Type 0
IsByte b = b < 256

-- Each letter of the phrase stands for five bits.
phrase_bytes :
    (a b c d e a' b' c' d' e' : ℕ) (rest rest' : List ℕ)
    → All IsByte (a ∷ b ∷ c ∷ d ∷ e ∷ [])
    → All IsByte (a' ∷ b' ∷ c' ∷ d' ∷ e' ∷ [])
    → verification_phrase (a ∷ b ∷ c ∷ d ∷ e ∷ rest)
      ≡ verification_phrase (a' ∷ b' ∷ c' ∷ d' ∷ e' ∷ rest')
    → take 5 (a ∷ b ∷ c ∷ d ∷ e ∷ rest) ≡ take 5 (a' ∷ b' ∷ c' ∷ d' ∷ e' ∷ rest')
unfolding verification_phrase grouped base32_groups
phrase_bytes a b c d e a' b' c' d' e' rest rest' (pa, (pb, (pc, (pd, (pe, _)))))
      (qa, (qb, (qc, (qd, (qe, _))))) h =
    let (h1, t1) = heads h in
    let (h2, t2) = heads t1 in
    let (h3, t3) = heads t2 in
    let (h4, t4) = heads t3 in
    let (h5, t5) = heads (heads t4).1 in
    let (h6, t6) = heads t5 in
    let (h7, t7) = heads t6 in
    let (h8, t8) = heads t7 in
    let l1 = letter (a / 8) (a' / 8) (omega (arith, pa)) (omega (arith, qa)) h1 in
    let l2 =
      letter (a % 8 * 4 + b / 64) (a' % 8 * 4 + b' / 64) (omega (arith, pb)) (omega (arith, qb))
        h2 in
    let l3 = letter (b / 2 % 32) (b' / 2 % 32) (omega arith) (omega arith) h3 in
    let l4 =
      letter (b % 2 * 16 + c / 16) (b' % 2 * 16 + c' / 16) (omega (arith, pc)) (omega (arith, qc))
        h4 in
    let l5 =
      letter (c % 16 * 2 + d / 128) (c' % 16 * 2 + d' / 128) (omega (arith, pd)) (omega (arith, qd))
        h5 in
    let l6 = letter (d / 4 % 32) (d' / 4 % 32) (omega arith) (omega arith) h6 in
    let l7 =
      letter (d % 4 * 8 + e / 32) (d' % 4 * 8 + e' / 32) (omega (arith, pe)) (omega (arith, qe))
        h7 in
    let l8 = letter (e % 32) (e' % 32) (omega arith) (omega arith) h8 in
    let (ea, b64) = same_1 a a' b b' pb qb l1 l2 in
    let (eb, c16) = same_2 b b' c c' pc qc b64 l3 l4 in
    let (ec, d128) = same_3 c c' d d' pd qd c16 l5 in
    let (ed, e32) = same_4 d d' e e' pe qe d128 l6 l7 in
    let ee = same_5 e e' e32 l8 in cc (ea, eb, ec, ed, ee)

pub first_five :
    (f : List ℕ)
    → IsFingerprint f
    → (a : ℕ) × (b : ℕ) × (c : ℕ) × (d : ℕ) × (e : ℕ) × (rest : List ℕ) × (f
        ≡ a ∷ b ∷ c ∷ d ∷ e ∷ rest)
      × All IsByte (a ∷ b ∷ c ∷ d ∷ e ∷ [])
first_five [] h = absurd (omega (arith, h.0))
first_five (a ∷ []) h = absurd (omega (arith, h.0))
first_five (a ∷ b ∷ []) h = absurd (omega (arith, h.0))
first_five (a ∷ b ∷ c ∷ []) h = absurd (omega (arith, h.0))
first_five (a ∷ b ∷ c ∷ d ∷ []) h = absurd (omega (arith, h.0))
first_five (a ∷ b ∷ c ∷ d ∷ e ∷ rest) (n, (pa, (pb, (pc, (pd, (pe, more)))))) =
    (a, b, c, d, e, rest, refl, (pa, (pb, (pc, (pd, (pe, tt))))))

-- Two fingerprints have the same phrase exactly when their first five bytes are the same: the phrase
-- that two people compare shows these forty bits and nothing else.
pub verification_phrase_bits :
    (f g : List ℕ)
    → IsFingerprint f
    → IsFingerprint g
    → (verification_phrase f ≡ verification_phrase g) ↔ (take 5 f ≡ take 5 g)
unfolding verification_phrase
verification_phrase_bits f g p q =
    let (a, b, c, d, e, rest, at_f, bytes) = first_five f p in
    let (a', b', c', d', e', rest', at_g, bytes') = first_five g q in
    (
      λ h.
          ap (take 5) at_f
          ∙ phrase_bytes a b c d e a' b' c' d' e' rest rest' bytes bytes'
              (ap verification_phrase (sym at_f) ∙ h ∙ ap verification_phrase at_g)
          ∙ ap (take 5) (sym at_g),
      λ h. ap (λ five. grouped (to_upper (base32_groups five))) h,
    )
