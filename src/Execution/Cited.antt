-- ===== src/Execution/Cited.antt =====
-- What it is for a citation to be right, and the map that buildCorpus looks numbers up in (internal/execution).
use mathlib.Core.List.{Memᴰ}
use muesli.Base.{
  ℕ, suc, ◌+◌, ◌≡◌, ◌⊎◌, refl, some, List, [], ◌∷◌, ◌++◌, inl, inr, length, get_elem?, All,
  Bool-cases, if◌then◌else◌, arith,
}
use muesli.Base.Text.{Text, text_eq, text_eq_iff}
use muesli.Execution.{
  Segment, Document, SourceRef, citation_key, lookup, Gathered, number_of, number_at,
}

abbrev pub source_key : SourceRef → Text
source_key s = citation_key s.note_id s.segment_index

-- The sources carry the numbers after `n`, one by one.
abbrev pub Numbered : ℕ → List SourceRef → Type 0
Numbered n [] = Unit {0}
Numbered n (s ∷ sources) = (s.number ≡ suc n) × Numbered (suc n) sources

-- The segment that a source was made from.
pub record IsOf (docs : List Document) (s : SourceRef) : Type 0 where
  pub doc : Document
  pub member : Memᴰ doc docs
  pub note : s.note_id ≡ doc.note_id
  pub generation : s.transcript_generation ≡ doc.transcript_generation
  pub segment : Segment
  pub found : get_elem? doc.segments s.segment_index ≡ some segment
  pub snippet : s.snippet ≡ segment.text
  pub timestamp : s.timestamp ≡ segment.start_ms

-- A source with a key, and the number that the corpus shows for the key.
pub record IsCited (sources : List SourceRef) (key : Text) : Type 0 where
  pub source : SourceRef
  pub member : Memᴰ source sources
  pub keyed : source_key source ≡ key
  pub shown : number_at (number_of sources []) key ≡ source.number

-- The citations of documents: numbered from 1 in order, each made from a segment, and no segment left
-- without one.
pub record IsCitable (docs : List Document) (sources : List SourceRef) : Type 0 where
  pub numbered : Numbered 0 sources
  pub resolved : All (IsOf docs) sources
  pub complete :
      (doc : Document) (i : ℕ) (seg : Segment)
      → Memᴰ doc docs
      → get_elem? doc.segments i ≡ some seg
      → IsCited sources (citation_key doc.note_id i)

pub Numbered-append :
    (n : ℕ) (xs : List SourceRef) (s : SourceRef)
    → Numbered n xs
    → s.number ≡ n + length xs + 1
    → Numbered n (xs ++ s ∷ [])
Numbered-append n [] s h e = (omega (arith, e), tt)
Numbered-append n (x ∷ xs) s h e = (h.0, Numbered-append (suc n) xs s h.1 (omega (arith, e)))

pub number_of-append :
    (xs : List SourceRef) (s : SourceRef) (m : List (Text × ℕ))
    → number_of (xs ++ s ∷ []) m ≡ (source_key s, s.number) ∷ number_of xs m
unfolding number_of
number_of-append [] s m = refl
number_of-append (x ∷ xs) s m = number_of-append xs s ((source_key x, x.number) ∷ m)

-- A lookup in the map of the sources finds one of them, or what was there.
pub record IsFound (xs : List SourceRef) (key : Text) (n : ℕ) : Type 0 where
  pub source : SourceRef
  pub member : Memᴰ source xs
  pub keyed : source_key source ≡ key
  pub number : source.number ≡ n

pub lookup-head :
    (k key : Text) (v : ℕ) (m : List (Text × ℕ))
    → lookup key ((k, v) ∷ m) ≡ (if text_eq k key then some v else lookup key m)
unfolding lookup
lookup-head k key v m = refl

pub lookup-number_of :
    (xs : List SourceRef) (key : Text) (n : ℕ) (m : List (Text × ℕ))
    → lookup key (number_of xs m) ≡ some n
    → IsFound xs key n ⊎ (lookup key m ≡ some n)
unfolding number_of
lookup-number_of [] key n m e = inr e
lookup-number_of (x ∷ xs) key n m e =
    elim (lookup-number_of xs key n ((source_key x, x.number) ∷ m) e) [
      | inl f ↦ inl (record {
        source = f.source;
        member = Memᴰ.tail f.member;
        keyed = f.keyed;
        number = f.number;
      })
      | inr h ↦ elim (Bool-cases (text_eq (source_key x) key)) [
        | inl same ↦ inl (record {
          source = x;
          member = Memᴰ.head refl;
          keyed = (text_eq_iff (source_key x) key).0 same;
          number = ground (arith, lookup-head (source_key x) key x.number m);
        })
        | inr other ↦ inr (ground (arith, lookup-head (source_key x) key x.number m))
      ]
    ]

-- What holds of the loops' state.
pub record Gathers (docs : List Document) (g : Gathered) : Type 0 where
  pub numbered : Numbered 0 g.sources
  pub written : g.seen ≡ number_of g.sources []
  pub agreed : All (λ s. lookup (source_key s) g.seen ≡ some s.number) g.sources
  pub resolved : All (IsOf docs) g.sources
