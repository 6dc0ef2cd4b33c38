-- ===== src/Chat/Resolved.antt =====
-- One citation: the hit it stands for, and its line in the block that the model was shown (internal/chat).
use muesli.Base.{
  ℕ, zero, suc, ◌+◌, ◌-◌, ◌≤◌, ◌<◌, ◌≡◌, ◌⊎◌, refl, ap, false, ◌||◌, some, List, [], ◌∷◌, inl, inr,
  All, length, get_elem?, Bool-cases, Option-cases, ltb, ◌==◌, arith, ◌*◌, ◌/◌, ◌%◌, ◌++◌, sym, ◌∙◌,
  append-nil, append_assoc,
}
use muesli.Base.Int.{ℤ, pos_part}
use muesli.Base.Text.{Text, codes, decimal, digits}
use muesli.Chat.{
  newline, join_lines, two_digits, format_timestamp, render_retrieval_block, TranscriptRef, Source,
  source_of, cited_source, retrieval_line, retrieval_lines,
}

-- `%02d` of a number, and minutes and seconds of a time in milliseconds, negative ones being zero.
abbrev pub IsPadded : ℕ → Text → Type 0
IsPadded n t = ((n < 10) × (t ≡ 48 ∷ (48 + n) ∷ [])) ⊎ ((10 ≤ n) × (t ≡ decimal n))

pub record IsClock (start_ms : ℤ) (t : Text) : Type 0 where
  pub minutes : ℕ
  pub seconds : ℕ
  pub rest : ℕ
  pub within_minute : seconds < 60
  pub within_second : rest < 1000
  pub split : pos_part start_ms ≡ (minutes * 60 + seconds) * 1000 + rest
  pub minutes_text : Text
  pub seconds_text : Text
  pub minutes_shown : IsPadded minutes minutes_text
  pub seconds_shown : IsPadded seconds seconds_text
  pub written : t ≡ minutes_text ++ codes ":" ++ seconds_text

-- A line of a text: what stands between line feeds, or the ends.
pub record HasLine (line block : Text) : Type 0 where
  pub before : Text
  pub after : Text
  pub split : block ≡ before ++ line ++ after
  pub begins : (before ≡ []) ⊎ ((b : Text) × (before ≡ b ++ newline))
  pub ends : (after ≡ []) ⊎ ((a : Text) × (after ≡ newline ++ a))

-- A source has the note, the segment, the time and the snippet of the hit at its number, which the
-- block of sources shows on a line of its own after that number.
pub record IsResolved (sources : List TranscriptRef) (s : Source) : Type 0 where
  pub index : ℕ
  pub ref : TranscriptRef
  pub numbered : s.number ≡ index + 1
  pub found : get_elem? sources index ≡ some ref
  pub note : s.note_id ≡ ref.note_id
  pub segment : s.segment_index ≡ ref.segment_index
  pub time : s.timestamp ≡ ref.start_ms
  pub said : s.snippet ≡ ref.snippet
  pub clock : Text
  pub timed : IsClock ref.start_ms clock
  pub shown :
      HasLine
        (codes "["
          ++ decimal s.number
          ++ codes "] "
          ++ ref.note_title
          ++ codes " ("
          ++ clock
          ++ codes "): "
          ++ ref.snippet)
        (render_retrieval_block sources)

-- No number twice.
abbrev pub Distinct : List Source → Type 0
Distinct [] = Unit {0}
Distinct (s ∷ out) = All (λ (t : Source). (s.number == t.number) ≡ false) out × Distinct out

retrieval_lines-get :
    (k i : ℕ) (sources : List TranscriptRef) (ref : TranscriptRef)
    → get_elem? sources i ≡ some ref
    → get_elem? (retrieval_lines k sources) i ≡ some (retrieval_line (k + i + 1) ref)
unfolding retrieval_lines
retrieval_lines-get k i [] ref e = cc
retrieval_lines-get k zero (s ∷ sources) ref e =
    let same : s ≡ ref = cc in
    let index : k + 0 + 1 ≡ k + 1 = omega arith in
    rw index (ap (λ x. some (retrieval_line (k + 1) x)) same)
retrieval_lines-get k (suc i) (s ∷ sources) ref e =
    let index : k + suc i + 1 ≡ k + 1 + i + 1 = omega arith in
    rw index (retrieval_lines-get (k + 1) i sources ref e)

pub cited_source-cases :
    (sources : List TranscriptRef) (n : ℕ)
    → (cited_source sources n ≡ [])
      ⊎ ((ref : TranscriptRef) × (1 ≤ n)
          × (get_elem? sources (n - 1) ≡ some ref)
          × (cited_source sources n ≡ source_of n ref ∷ []))
unfolding cited_source
cited_source-cases sources n = elim (Bool-cases (ltb n 1 || ltb (length sources) n)) [
  | inl t ↦ inl (rw (t, cited_source) refl)
  | inr t ↦ elim (Option-cases (get_elem? sources (n - 1))) [
    | inl e ↦ inl (rw (t, e, cited_source) refl)
    | inr (ref, e) ↦ inr (ref, ground arith, e, rw (t, e, cited_source) refl)
  ]
]

two_digits-IsPadded : (n : ℕ) → IsPadded n (two_digits n)
unfolding two_digits digits
two_digits-IsPadded n = elim (Bool-cases (ltb n 10)) [
  | inl e ↦ inl (ground (arith, e), rw (two_digits, e) refl)
  | inr e ↦ inr (ground (arith, e), rw (two_digits, e) refl)
]

format_timestamp-IsClock : (start_ms : ℤ) → IsClock start_ms (format_timestamp start_ms)
unfolding format_timestamp
format_timestamp-IsClock start_ms =
    let total = pos_part start_ms / 1000 in
    record {
      minutes = total / 60;
      seconds = total % 60;
      rest = pos_part start_ms % 1000;
      within_minute = omega arith;
      within_second = omega arith;
      split = omega arith;
      minutes_text = two_digits (total / 60);
      seconds_text = two_digits (total % 60);
      minutes_shown = two_digits-IsPadded (total / 60);
      seconds_shown = two_digits-IsPadded (total % 60);
      written = refl;
    }

join_lines-HasLine :
    (i : ℕ) (ls : List Text) (line : Text)
    → get_elem? ls i ≡ some line
    → HasLine line (join_lines ls)
unfolding join_lines
join_lines-HasLine i [] line e = absurd cc
join_lines-HasLine zero (l ∷ []) line e = record {
  before = [];
  after = [];
  split = cc (e, append-nil line);
  begins = inl refl;
  ends = inl refl;
}
join_lines-HasLine zero (l ∷ m ∷ ls) line e = record {
  before = [];
  after = newline ++ join_lines (m ∷ ls);
  split =
      let same : l ≡ line = cc e in
      ap (λ x. x ++ newline ++ join_lines (m ∷ ls)) same
      ∙ append_assoc line newline (join_lines (m ∷ ls));
  begins = inl refl;
  ends = inr (join_lines (m ∷ ls), refl);
}
join_lines-HasLine (suc i) (l ∷ []) line e = absurd cc
join_lines-HasLine (suc i) (l ∷ m ∷ ls) line e =
    let h = join_lines-HasLine i (m ∷ ls) line e in
    record {
      before = (l ++ newline) ++ h.before;
      after = h.after;
      split =
          ap (λ x. (l ++ newline) ++ x) h.split
          ∙ sym (append_assoc (l ++ newline) (h.before ++ line) h.after)
          ∙ ap (λ x. x ++ h.after) (sym (append_assoc (l ++ newline) h.before line));
      begins = inr (elim h.begins [
        | inl none_before ↦
            (l, ap (λ x. (l ++ newline) ++ x) none_before ∙ append-nil (l ++ newline))
        | inr (b, at) ↦ (
          (l ++ newline) ++ b,
          ap (λ x. (l ++ newline) ++ x) at ∙ sym (append_assoc (l ++ newline) b newline),
        )
      ]);
      ends = h.ends;
    }

rendered :
    (sources : List TranscriptRef) (i : ℕ) (line : Text)
    → get_elem? (retrieval_lines 0 sources) i ≡ some line
    → HasLine line (render_retrieval_block sources)
unfolding render_retrieval_block retrieval_lines
rendered [] i line e = absurd cc
rendered (s ∷ sources) i line e = join_lines-HasLine i (retrieval_lines 0 (s ∷ sources)) line e

pub source_of-IsResolved :
    (sources : List TranscriptRef) (n : ℕ) (ref : TranscriptRef)
    → 1 ≤ n
    → get_elem? sources (n - 1) ≡ some ref
    → IsResolved sources (source_of n ref)
unfolding source_of retrieval_line
source_of-IsResolved sources n ref h e =
    let index : 0 + (n - 1) + 1 ≡ n = omega arith in
    record {
      index = n - 1;
      ref = ref;
      numbered = omega arith;
      found = e;
      note = refl;
      segment = refl;
      time = refl;
      said = refl;
      clock = format_timestamp ref.start_ms;
      timed = format_timestamp-IsClock ref.start_ms;
      shown =
          rendered sources (n - 1) (retrieval_line n ref)
            (rw index at (retrieval_lines-get 0 (n - 1) sources ref e));
    }

pub get-in_range :
    (sources : List TranscriptRef) (i : ℕ)
    → i < length sources
    → (ref : TranscriptRef) × (get_elem? sources i ≡ some ref)
get-in_range [] i h = absurd (omega arith)
get-in_range (s ∷ sources) zero h = (s, refl)
get-in_range (s ∷ sources) (suc i) h = get-in_range sources i (omega arith)
