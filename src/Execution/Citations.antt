-- ===== src/Execution/Citations.antt =====
-- The citation numbers of PrepareDocuments (internal/execution/executor.go) and of buildCorpus.
use mathlib.Core.List.{Memᴰ}
use muesli.Base.{
  ℕ, zero, suc, ◌+◌, ◌≡◌, refl, sym, ap, subst, ◌∙◌, true, some, List, [], ◌∷◌, inl, inr, get_elem?,
  Option-cases, arith,
}
use muesli.Base.Text.{Text}
use muesli.Execution.{
  Segment, Document, SourceRef, ExecutionInput, citation_key, lookup, is_some, Gathered,
  nothing_gathered, gather_segment, gather_segments, gather_document, gather_documents, number_of,
  number_at, prepared,
}
use muesli.Execution.Cited.{IsCited, IsCitable, lookup-number_of, Gathers}
use muesli.Execution.Gathering.{
  gather_segment-Gathers, Has, gather_segment-Has, gather_segment-kept,
}

gather_segments-kept :
    (key : Text) (doc : Document) (i : ℕ) (segs : List Segment) (g : Gathered)
    → Has key g
    → Has key (gather_segments doc i segs g)
unfolding gather_segments
gather_segments-kept key doc i [] g h = h
gather_segments-kept key doc i (seg ∷ segs) g h =
    gather_segments-kept key doc (suc i) segs (gather_segment doc i seg g)
      (gather_segment-kept key doc i seg g h)

gather_segments-Has :
    (doc : Document) (i j : ℕ) (segs : List Segment) (g : Gathered) {seg : Segment}
    → get_elem? segs j ≡ some seg
    → Has (citation_key doc.note_id (j + i)) (gather_segments doc i segs g)
unfolding gather_segments
gather_segments-Has doc i j [] g e = cc
gather_segments-Has doc i zero (s ∷ segs) g e =
    let index : 0 + i ≡ i = omega arith in
    rw index (
      gather_segments-kept (citation_key doc.note_id i) doc (suc i) segs (gather_segment doc i s g)
        (gather_segment-Has doc i s g))
gather_segments-Has doc i (suc j) (s ∷ segs) g e =
    let index : suc j + i ≡ j + suc i = omega arith in
    rw index (gather_segments-Has doc (suc i) j segs (gather_segment doc i s g) e)

gather_segments-Gathers :
    (docs : List Document) (doc : Document) (i : ℕ) (segs : List Segment) (g : Gathered)
    → Memᴰ doc docs
    → ((j : ℕ) (s : Segment) → get_elem? segs j ≡ some s → get_elem? doc.segments (j + i) ≡ some s)
    → Gathers docs g
    → Gathers docs (gather_segments doc i segs g)
unfolding gather_segments
gather_segments-Gathers docs doc i [] g member at h = h
gather_segments-Gathers docs doc i (seg ∷ segs) g member at h =
    gather_segments-Gathers docs doc (suc i) segs (gather_segment doc i seg g) member
      (λ j s e. let index : j + suc i ≡ suc j + i = omega arith in rw index (at (suc j) s e))
      (gather_segment-Gathers docs doc i seg g member
        (let index : 0 + i ≡ i = omega arith in rw index at (at 0 seg refl)) h)

started : Document → Gathered → Gathered
started doc g = record g { generations = (doc.note_id, doc.transcript_generation) ∷ g.generations }

gather_document_lem :
    (doc : Document) (g : Gathered)
    → gather_document doc g ≡ gather_segments doc 0 doc.segments (started doc g)
unfolding gather_document started
gather_document_lem doc g = refl

started-Gathers :
    (docs : List Document) (doc : Document) (g : Gathered)
    → Gathers docs g
    → Gathers docs (started doc g)
unfolding started
started-Gathers docs doc g h = record {
  numbered = h.numbered;
  written = h.written;
  agreed = h.agreed;
  resolved = h.resolved;
}

gather_document-Gathers :
    (docs : List Document) (doc : Document) (g : Gathered)
    → Memᴰ doc docs
    → Gathers docs g
    → Gathers docs (gather_document doc g)
gather_document-Gathers docs doc g member h = rw (gather_document_lem doc g) (
    gather_segments-Gathers docs doc 0 doc.segments (started doc g) member
      (λ j s e. let index : j + 0 ≡ j = omega arith in rw index e) (started-Gathers docs doc g h))

gather_documents-Gathers :
    (docs ds : List Document) (g : Gathered)
    → ((d : Document) → Memᴰ d ds → Memᴰ d docs)
    → Gathers docs g
    → Gathers docs (gather_documents ds g)
unfolding gather_documents
gather_documents-Gathers docs [] g sub h = h
gather_documents-Gathers docs (d ∷ ds) g sub h =
    gather_documents-Gathers docs ds (gather_document d g) (λ x m. sub x (Memᴰ.tail m))
      (gather_document-Gathers docs d g (sub d (Memᴰ.head refl)) h)

gather_document-kept :
    (key : Text) (doc : Document) (g : Gathered) → Has key g → Has key (gather_document doc g)
unfolding started
gather_document-kept key doc g h =
    rw (gather_document_lem doc g) (gather_segments-kept key doc 0 doc.segments (started doc g) h)

gather_documents-kept :
    (key : Text) (ds : List Document) (g : Gathered) → Has key g → Has key (gather_documents ds g)
unfolding gather_documents
gather_documents-kept key [] g h = h
gather_documents-kept key (d ∷ ds) g h =
    gather_documents-kept key ds (gather_document d g) (gather_document-kept key d g h)

gather_documents-Has :
    (ds : List Document) (g : Gathered) (doc : Document) (i : ℕ) {seg : Segment}
    → Memᴰ doc ds
    → get_elem? doc.segments i ≡ some seg
    → Has (citation_key doc.note_id i) (gather_documents ds g)
unfolding gather_documents
gather_documents-Has [] g doc i m e = elim m [ ]
gather_documents-Has (d ∷ ds) g doc i (Memᴰ.head same) e =
    let index : i + 0 ≡ i = omega arith in
    let first : Has (citation_key doc.note_id i) (gather_document doc g) =
      rw (gather_document_lem doc g)
        (rw index at (gather_segments-Has doc 0 i doc.segments (started doc g) e)) in
    gather_documents-kept (citation_key doc.note_id i) ds (gather_document d g)
      (subst (λ x. Has (citation_key doc.note_id i) (gather_document x g)) same first)
gather_documents-Has (d ∷ ds) g doc i (Memᴰ.tail m) e =
    gather_documents-Has ds (gather_document d g) doc i m e

nothing_gathered-Gathers : (docs : List Document) → Gathers docs nothing_gathered
unfolding nothing_gathered number_of
nothing_gathered-Gathers docs = record { numbered = tt; written = refl; agreed = tt; resolved = tt }

number_at-some :
    (m : List (Text × ℕ)) (key : Text) (n : ℕ) → lookup key m ≡ some n → number_at m key ≡ n
unfolding number_at
number_at-some m key n e = rw (e, number_at) refl

cited :
    (xs : List SourceRef) (key : Text)
    → is_some (lookup key (number_of xs [])) ≡ true
    → IsCited xs key
unfolding is_some
cited xs key h = elim (Option-cases (lookup key (number_of xs []))) [
  | inl n ↦ absurd (cc (ap is_some n))
  | inr (n, e) ↦ elim (lookup-number_of xs key n [] e) [
    | inl f ↦ record {
      source = f.source;
      member = f.member;
      keyed = f.keyed;
      shown = number_at-some (number_of xs []) key n e ∙ sym f.number;
    }
    | inr h ↦ absurd (unfold lookup in cc)
  ]
]

pub prepared-IsCitable :
    (input : ExecutionInput) → IsCitable input.documents (prepared input).sources
unfolding prepared
prepared-IsCitable input =
    let docs = input.documents in
    let g = gather_documents docs nothing_gathered in
    let h : Gathers docs g =
      gather_documents-Gathers docs docs nothing_gathered (λ d m. m)
        (nothing_gathered-Gathers docs) in
    record {
      numbered = h.numbered;
      resolved = h.resolved;
      complete = λ doc i seg m e.
          cited g.sources (citation_key doc.note_id i)
            (rw h.written at (gather_documents-Has docs nothing_gathered doc i m e));
    }
