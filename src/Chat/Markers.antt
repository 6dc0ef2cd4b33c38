-- ===== src/Chat/Markers.antt =====
-- Printing a marker and reading it back (internal/chat/citations.go).
use muesli.Base.{
  ℕ, zero, suc, ◌+◌, ◌-◌, ◌*◌, ◌/◌, ◌%◌, ◌^◌, ◌≤◌, ◌<◌, ◌≡◌, refl, sym, ap, ◌∙◌, true, false,
  Option, none, some, List, [], ◌∷◌, ◌++◌, inl, inr, All, All-append, append-nil, append_assoc,
  Bool-cases, Option-cases, ltb, if◌then◌else◌, arith,
}
use mathlib.Core.List.{Memᴰ}
use muesli.Base.Text.{Text, digits, decimal}
use muesli.Chat.{
  is_digit, is_nil, Scan, outside, inside, scan_next, closed_by, find_markers, read_digits,
  parse_marker_number,
}

-- A digit read after a number.
read_digit : Option ℕ → ℕ → Option ℕ
read_digit none c = none
read_digit (some n) c = if ltb (2 ^ 30) (n * 10 + (c - 48)) then none else some (n * 10 + (c - 48))

read_digits-append :
    (n : ℕ) (ds : Text) (c : ℕ) → read_digits n (ds ++ c ∷ []) ≡ read_digit (read_digits n ds) c
unfolding read_digits read_digit
read_digits-append n [] c = refl
read_digits-append n (d ∷ ds) c =
    let rest = read_digits-append (n * 10 + (d - 48)) ds c in
    elim (Bool-cases (ltb (2 ^ 30) (n * 10 + (d - 48)))) [
      | inl t ↦ rw (t, read_digit) refl
      | inr t ↦ rw t rest
    ]

digits-read : (f n : ℕ) → n < f → n ≤ 2 ^ 30 → read_digits 0 (digits f n) ≡ some n
unfolding digits
digits-read zero n h k = absurd (omega arith)
digits-read (suc f) n h k = elim (Bool-cases (ltb n 10)) [
  | inl t ↦
      let small : n < 10 = ground arith in rw (t, digits) (unfold read_digits in (ground arith))
  | inr t ↦
      let big : 10 ≤ n = ground arith in
      let rest = digits-read f (n / 10) (omega arith) (omega arith) in
      rw (t, digits, read_digits-append 0 (digits f (n / 10)) (48 + n % 10), rest)
        (unfold read_digit in (ground arith))
]

digits-IsDigit : (f n : ℕ) → All (λ c. is_digit c ≡ true) (digits f n)
unfolding digits is_digit
digits-IsDigit zero n = tt
digits-IsDigit (suc f) n = elim (Bool-cases (ltb n 10)) [
  | inl t ↦ rw (t, digits) (ground arith, tt)
  | inr t ↦
      rw (t, digits)
        (All-append (λ c. is_digit c ≡ true) (digits f (n / 10)) _ (digits-IsDigit f (n / 10))
          (ground arith, tt))
]

is_nil-append_last : (ds : Text) (c : ℕ) → is_nil (ds ++ c ∷ []) ≡ false
unfolding is_nil
is_nil-append_last [] c = refl
is_nil-append_last (d ∷ ds) c = refl

digits-is_nil : (f n : ℕ) → is_nil (digits (suc f) n) ≡ false
unfolding digits
digits-is_nil f n = elim (Bool-cases (ltb n 10)) [
  | inl t ↦ rw (t, digits) (unfold is_nil in refl)
  | inr t ↦ rw (t, digits) (is_nil-append_last (digits f (n / 10)) (48 + n % 10))
]

-- A number up to 2^30 is read back from its digits.
pub decimal-parse : (n : ℕ) → n ≤ 2 ^ 30 → parse_marker_number (decimal n) ≡ some n
unfolding parse_marker_number
decimal-parse n h = digits-read (suc n) n (omega arith) h

find_markers_cons : (st : Scan) (c : ℕ) (s : Text) → Scan → Option Text → List Text
find_markers_cons st c s next none = find_markers next s
find_markers_cons st c s next (some ds) = ds ∷ find_markers next s

find_markers_lem :
    (st : Scan) (c : ℕ) (s : Text)
    → find_markers st (c ∷ s) ≡ find_markers_cons st c s (scan_next st c) (closed_by st c)
unfolding find_markers find_markers_cons
find_markers_lem st c s = elim (Option-cases (closed_by st c)) [
  | inl n ↦ rw (n, find_markers, find_markers_cons) refl
  | inr (ds, e) ↦ rw (e, find_markers, find_markers_cons) refl
]

scan_digit :
    (acc : Text) (c : ℕ) (s : Text)
    → is_digit c ≡ true
    → find_markers (inside acc) (c ∷ s) ≡ find_markers (inside (acc ++ c ∷ [])) s
unfolding find_markers_cons
scan_digit acc c s h =
    let next : scan_next (inside acc) c ≡ inside (acc ++ c ∷ []) =
      unfold scan_next is_digit in ground arith in
    let closed : closed_by (inside acc) c ≡ none = unfold closed_by is_digit in ground arith in
    find_markers_lem (inside acc) c s
    ∙ ap (λ x. find_markers_cons (inside acc) c s x (closed_by (inside acc) c)) next
    ∙ ap (λ o. find_markers_cons (inside acc) c s (inside (acc ++ c ∷ [])) o) closed

scan_digits :
    (acc ds s : Text)
    → All (λ c. is_digit c ≡ true) ds
    → find_markers (inside acc) (ds ++ s) ≡ find_markers (inside (acc ++ ds)) s
scan_digits acc [] s h = ap (λ x. find_markers (inside x) s) (sym (append-nil acc))
scan_digits acc (d ∷ ds) s h =
    scan_digit acc d (ds ++ s) h.0
    ∙ scan_digits (acc ++ d ∷ []) ds s h.1
    ∙ ap (λ x. find_markers (inside x) s) (append_assoc acc (d ∷ []) ds)

scan_close : (ds s : Text) → is_nil ds ≡ false → Memᴰ ds (find_markers (inside ds) (93 ∷ s))
unfolding find_markers_cons scan_next closed_by
scan_close ds s h =
    rw (find_markers_lem (inside ds) 93 s) (rw (h, find_markers_cons) (Memᴰ.head refl))

scan_open : (st : Scan) (s : Text) → find_markers st (91 ∷ s) ≡ find_markers (inside []) s
unfolding find_markers_cons scan_next closed_by
scan_open outside s = find_markers_lem outside 91 s
scan_open (inside ds) s = find_markers_lem (inside ds) 91 s

abbrev pub marker : ℕ → Text
marker n = 91 ∷ (decimal n ++ 93 ∷ [])

-- What is found after a character is found.
cons-Memᴰ :
    (st : Scan) (c : ℕ) (s ds : Text)
    → Memᴰ ds (find_markers (scan_next st c) s)
    → Memᴰ ds (find_markers st (c ∷ s))
unfolding find_markers_cons
cons-Memᴰ st c s ds h = elim (Option-cases (closed_by st c)) [
  | inl n ↦ rw (find_markers_lem st c s) (rw (n, find_markers_cons) h)
  | inr (x, e) ↦ rw (find_markers_lem st c s) (rw (e, find_markers_cons) (Memᴰ.tail h))
]

-- A marker anywhere in a text is found.
pub marker-found :
    (st : Scan) (before after : Text) (n : ℕ)
    → Memᴰ (decimal n) (find_markers st (before ++ marker n ++ after))
marker-found st [] after n =
    let shape : marker n ++ after ≡ 91 ∷ (decimal n ++ 93 ∷ after) =
      ap (λ s. 91 ∷ s) (append_assoc (decimal n) (93 ∷ []) after) in
    rw
      (
        shape,
        scan_open st (decimal n ++ 93 ∷ after),
        scan_digits [] (decimal n) (93 ∷ after) (digits-IsDigit (suc n) n),
      )
      (scan_close (decimal n) after (digits-is_nil n n))
marker-found st (c ∷ before) after n =
    cons-Memᴰ st c (before ++ marker n ++ after) (decimal n)
      (marker-found (scan_next st c) before after n)
