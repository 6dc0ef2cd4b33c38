-- ===== src/Execution/Shown.antt =====
-- The numbers that the corpus shows: PrepareDocuments (internal/execution/executor.go) with
-- buildCorpus (internal/execution/prompt.go).
use mathlib.Core.List.{Memᴰ}
use muesli.Base.{ℕ, zero, suc, ◌≡◌, refl, sym, subst, some, List, [], ◌∷◌, get_elem?, All, arith}
use muesli.Base.Text.{Text}
use muesli.Base.Decimal.{keyed_by_number}
use muesli.Execution.{
  Segment, Document, SourceRef, ExecutionInput, PreparedExecution, returns, cross_analysis,
  citation_key, number_of, number_at, build_corpus, prepared, prepare_documents,
}
use muesli.Execution.Cited.{source_key, Numbered, IsOf, IsCitable}
use muesli.Execution.Citations.{prepared-IsCitable}
use muesli.Execution.Lines.{HasLine, cited_line, meeting_blocks-HasLine, build_corpus-HasLine}

-- A segment of a document as a citation: one of the sources is of this note and index, and its
-- number stands on the segment's line of the corpus.
pub record IsShown (sources : List SourceRef) (corpus : Text) (doc : Document) (i : ℕ)
    (seg : Segment) : Type 0 where
  pub source : SourceRef
  pub member : Memᴰ source sources
  pub note : source.note_id ≡ doc.note_id
  pub index : source.segment_index ≡ i
  pub line : HasLine (cited_line source.number seg) corpus

-- The citations of documents in a corpus.
pub record Cites (docs : List Document) (sources : List SourceRef) (corpus : Text) : Type 0 where
  pub numbered : Numbered 0 sources
  pub resolved : All (IsOf docs) sources
  pub shown :
      (j i : ℕ) (doc : Document) (seg : Segment)
      → get_elem? docs j ≡ some doc
      → get_elem? doc.segments i ≡ some seg
      → IsShown sources corpus doc i seg

get_elem?-Mem :
    (docs : List Document) (j : ℕ) (doc : Document) → get_elem? docs j ≡ some doc → Memᴰ doc docs
get_elem?-Mem [] j doc e = absurd cc
get_elem?-Mem (d ∷ docs) zero doc e = Memᴰ.head (cc e)
get_elem?-Mem (d ∷ docs) (suc j) doc e = Memᴰ.tail (get_elem?-Mem docs j doc e)

same_key :
    (s : SourceRef) (note_id : Text) (i : ℕ)
    → source_key s ≡ citation_key note_id i
    → (s.note_id ≡ note_id) × (s.segment_index ≡ i)
unfolding citation_key
same_key s note_id i e = keyed_by_number s.note_id note_id s.segment_index i e

corpus-Cites :
    (input : ExecutionInput) (sources : List SourceRef)
    → IsCitable input.documents sources
    → Cites input.documents sources (build_corpus input sources)
corpus-Cites input sources h = record {
  numbered = h.numbered;
  resolved = h.resolved;
  shown = λ j i doc seg d e.
      let cited = h.complete doc i seg (get_elem?-Mem input.documents j doc d) e in
      let (note, index) = same_key cited.source doc.note_id i cited.keyed in
      let m = number_of sources [] in
      record {
        source = cited.source;
        member = cited.member;
        note = note;
        index = index;
        line =
            subst (λ n. HasLine (cited_line n seg) (build_corpus input sources)) cited.shown
              (build_corpus-HasLine input sources
                (cited_line (number_at m (citation_key doc.note_id i)) seg)
                (meeting_blocks-HasLine m 0 j i input.documents doc seg d e));
      };
}

prepared-corpus :
    (input : ExecutionInput)
    → input.mode ≡ cross_analysis
    → (prepared input).corpus ≡ build_corpus input (prepared input).sources
unfolding prepared
prepared-corpus input mode = rw mode refl

-- What PrepareDocuments returns for several meetings cites its documents completely: the sources
-- are numbered 1, 2, … in order, and each was made from a segment of a document and keeps its note,
-- its index, its text, its time and the document's generation. For each segment of each document
-- the corpus has a line of its own with the segment's speaker and text behind a number in brackets,
-- and a source of this note and index has this number.
pub prepare_documents-Cites :
    (input : ExecutionInput) (p : PreparedExecution)
    → input.mode ≡ cross_analysis
    → prepare_documents input ≡ returns p
    → Cites input.documents p.sources p.corpus
unfolding prepare_documents
prepare_documents-Cites input p mode e =
    let same : prepared input ≡ p = ground arith in
    subst (λ q. Cites input.documents q.sources q.corpus) same
      (subst (Cites input.documents (prepared input).sources) (sym (prepared-corpus input mode))
        (corpus-Cites input (prepared input).sources (prepared-IsCitable input)))
