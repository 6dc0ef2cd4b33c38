-- ===== src/Execution/Gathering.antt =====
-- One segment of PrepareDocuments' loops (internal/execution/executor.go).
use mathlib.Core.List.{Memᴰ}
use muesli.Base.{
  ℕ, ◌+◌, ◌≡◌, refl, true, false, Option, none, some, List, [], ◌∷◌, ◌++◌, inl, inr, length,
  get_elem?, All, All-append, Bool-cases, if_cases, if◌then◌else◌, arith,
}
use muesli.Base.Text.{Text, text_eq, text_eq_iff}
use muesli.Execution.{
  Segment, Document, SourceRef, citation_key, lookup, is_some, Gathered, gather_segment,
}
use muesli.Execution.Cited.{
  source_key, IsOf, Numbered-append, number_of-append, lookup-head, Gathers,
}

-- The source that the loop makes from a segment.
pub made : Document → ℕ → Segment → ℕ → SourceRef
made doc i seg n = record {
  number = n;
  note_id = doc.note_id;
  transcript_generation = doc.transcript_generation;
  segment_index = i;
  timestamp = seg.start_ms;
  snippet = seg.text;
}

appended : Document → ℕ → Segment → Gathered → Gathered
appended doc i seg g =
    let n = length g.sources + 1 in
    record g {
      sources = g.sources ++ made doc i seg n ∷ [];
      seen = (citation_key doc.note_id i, n) ∷ g.seen;
    }

gather_segment_lem :
    (doc : Document) (i : ℕ) (seg : Segment) (g : Gathered)
    → gather_segment doc i seg g
      ≡ (if is_some (lookup (citation_key doc.note_id i) g.seen) then g else appended doc i seg g)
unfolding gather_segment appended made
gather_segment_lem doc i seg g = refl

is_some-false : (o : Option ℕ) (n : ℕ) → is_some o ≡ false → o ≡ some n → ⊥
unfolding is_some
is_some-false none n h e = cc
is_some-false (some a) n h e = cc

-- A key that was there reads the same after a write at a key that was not.
lookup-kept :
    (k key : Text) (v n : ℕ) (m : List (Text × ℕ))
    → is_some (lookup k m) ≡ false
    → lookup key m ≡ some n
    → lookup key ((k, v) ∷ m) ≡ some n
lookup-kept k key v n m absent e = elim (Bool-cases (text_eq k key)) [
  | inl same ↦
      let keys : k ≡ key = (text_eq_iff k key).0 same in
      absurd (is_some-false (lookup k m) n absent (rw keys e))
  | inr other ↦ rw (lookup-head k key v m, other) e
]

agreed-kept :
    (k : Text) (v : ℕ) (m : List (Text × ℕ)) (xs : List SourceRef)
    → is_some (lookup k m) ≡ false
    → All (λ s. lookup (source_key s) m ≡ some s.number) xs
    → All (λ s. lookup (source_key s) ((k, v) ∷ m) ≡ some s.number) xs
agreed-kept k v m [] absent h = tt
agreed-kept k v m (x ∷ xs) absent h =
    (lookup-kept k (source_key x) v x.number m absent h.0, agreed-kept k v m xs absent h.1)

appended-Gathers :
    (docs : List Document) (doc : Document) (i : ℕ) (seg : Segment) (g : Gathered)
    → Memᴰ doc docs
    → get_elem? doc.segments i ≡ some seg
    → is_some (lookup (citation_key doc.note_id i) g.seen) ≡ false
    → Gathers docs g
    → Gathers docs (appended doc i seg g)
unfolding appended made
appended-Gathers docs doc i seg g member found absent h =
    let n = length g.sources + 1 in
    let key = citation_key doc.note_id i in
    let s = made doc i seg n in
    record {
      numbered = Numbered-append 0 g.sources s h.numbered (omega arith);
      written = rw (number_of-append g.sources s []) (rw h.written refl);
      agreed =
          All-append _ g.sources (s ∷ []) (agreed-kept key n g.seen g.sources absent h.agreed)
            (rw (lookup-head key key n g.seen, (text_eq_iff key key).1 refl) refl, tt);
      resolved = All-append (IsOf docs) g.sources (s ∷ []) h.resolved (
        record {
          doc = doc;
          member = member;
          note = refl;
          generation = refl;
          segment = seg;
          found = found;
          snippet = refl;
          timestamp = refl;
        },
        tt,
      );
    }

pub gather_segment-Gathers :
    (docs : List Document) (doc : Document) (i : ℕ) (seg : Segment) (g : Gathered)
    → Memᴰ doc docs
    → get_elem? doc.segments i ≡ some seg
    → Gathers docs g
    → Gathers docs (gather_segment doc i seg g)
gather_segment-Gathers docs doc i seg g member found h = rw (gather_segment_lem doc i seg g) (
    if_cases (Gathers docs) (is_some (lookup (citation_key doc.note_id i) g.seen)) (λ _. h)
      (λ absent. appended-Gathers docs doc i seg g member found absent h))

abbrev pub Has : Text → Gathered → Type 0
Has key g = is_some (lookup key g.seen) ≡ true

is_some_intro : (o : Option ℕ) (n : ℕ) → o ≡ some n → is_some o ≡ true
unfolding is_some
is_some_intro none n e = cc
is_some_intro (some a) n e = refl

appended-Has :
    (doc : Document) (i : ℕ) (seg : Segment) (g : Gathered)
    → Has (citation_key doc.note_id i) (appended doc i seg g)
unfolding appended
appended-Has doc i seg g =
    let key = citation_key doc.note_id i in
    let n = length g.sources + 1 in
    is_some_intro (lookup key ((key, n) ∷ g.seen)) n
      (rw (lookup-head key key n g.seen, (text_eq_iff key key).1 refl) refl)

appended-kept :
    (key : Text) (doc : Document) (i : ℕ) (seg : Segment) (g : Gathered)
    → Has key g
    → Has key (appended doc i seg g)
unfolding appended is_some
appended-kept key doc i seg g h = elim (Bool-cases (text_eq (citation_key doc.note_id i) key)) [
  | inl same ↦
      rw (lookup-head (citation_key doc.note_id i) key (length g.sources + 1) g.seen, same) refl
  | inr other ↦
      rw (lookup-head (citation_key doc.note_id i) key (length g.sources + 1) g.seen, other) h
]

pub gather_segment-Has :
    (doc : Document) (i : ℕ) (seg : Segment) (g : Gathered)
    → Has (citation_key doc.note_id i) (gather_segment doc i seg g)
gather_segment-Has doc i seg g =
    let key = citation_key doc.note_id i in
    rw (gather_segment_lem doc i seg g)
      (if_cases (Has key) (is_some (lookup key g.seen)) (λ h. h) (λ _. appended-Has doc i seg g))

pub gather_segment-kept :
    (key : Text) (doc : Document) (i : ℕ) (seg : Segment) (g : Gathered)
    → Has key g
    → Has key (gather_segment doc i seg g)
gather_segment-kept key doc i seg g h = rw (gather_segment_lem doc i seg g) (
    if_cases (Has key) (is_some (lookup (citation_key doc.note_id i) g.seen)) (λ _. h)
      (λ _. appended-kept key doc i seg g h))
