-- ===== src/Chat/Citations.antt =====
-- The sources that an answer cites: ParseCitations (internal/chat/citations.go).
use mathlib.Core.List.{Memᴰ}
use muesli.Base.{
  ℕ, ◌-◌, ◌^◌, ◌≤◌, ◌≡◌, refl, sym, ap, ◌∙◌, true, false, ◌||◌, none, some, List, [], ◌∷◌, ◌++◌,
  inl, inr, All, length, Bool-cases, Option-cases, ltb, ◌==◌, ==_iff, arith,
}
use muesli.Base.Text.{Text, decimal}
use muesli.Chat.{
  TranscriptRef, Source, outside, find_markers, parse_marker_number, is_seen, source_of,
  cited_source, cite, parse_citations,
}
use muesli.Chat.Markers.{marker, marker-found, decimal-parse}
use muesli.Chat.Resolved.{
  IsResolved, Distinct, cited_source-cases, source_of-IsResolved, get-in_range,
}

module _ (sources : List TranscriptRef) (seen : List ℕ) (ds : Text) (matches : List Text) where
  cite-none :
      parse_marker_number ds ≡ none → cite sources seen (ds ∷ matches) ≡ cite sources seen matches
  unfolding cite
  cite-none e = rw (e, cite) refl

  cite-seen :
      (n : ℕ)
      → parse_marker_number ds ≡ some n
      → is_seen n seen ≡ true
      → cite sources seen (ds ∷ matches) ≡ cite sources seen matches
  unfolding cite
  cite-seen n e t = rw (e, t, cite) refl

  cite-new :
      (n : ℕ)
      → parse_marker_number ds ≡ some n
      → is_seen n seen ≡ false
      → cite sources seen (ds ∷ matches) ≡ cited_source sources n ++ cite sources (n ∷ seen) matches
  unfolding cite
  cite-new n e t = rw (e, t, cite) refl

record IsCites (sources : List TranscriptRef) (seen : List ℕ) (out : List Source) : Type 0 where
  resolved : All (IsResolved sources) out
  distinct : Distinct out
  fresh : All (λ (s : Source). is_seen s.number seen ≡ false) out

-- What is fresh against one more number.
Fresh-split :
    (n : ℕ) (seen : List ℕ) (out : List Source)
    → All (λ (s : Source). is_seen s.number (n ∷ seen) ≡ false) out
    → All (λ (s : Source). (n == s.number) ≡ false) out
      × All (λ (s : Source). is_seen s.number seen ≡ false) out
unfolding is_seen
Fresh-split n seen [] h = (tt, tt)
Fresh-split n seen (s ∷ out) h =
    let rest = Fresh-split n seen out h.1 in
    let x = h.0 in ((ground arith, rest.0), (ground arith, rest.1))

cited_source-IsCites :
    (sources : List TranscriptRef) (seen : List ℕ) (n : ℕ) (out : List Source)
    → is_seen n seen ≡ false
    → IsCites sources (n ∷ seen) out
    → IsCites sources seen (cited_source sources n ++ out)
cited_source-IsCites sources seen n out t h =
    let parts = Fresh-split n seen out h.fresh in
    elim (cited_source-cases sources n) [
      | inl e ↦ rw e (record { resolved = h.resolved; distinct = h.distinct; fresh = parts.1 })
      | inr (ref, low, found, e) ↦ rw e (record {
        resolved = (source_of-IsResolved sources n ref low found, h.resolved);
        distinct = unfold source_of in (parts.0, h.distinct);
        fresh = unfold source_of in (t, parts.1);
      })
    ]

cite-IsCites :
    (sources : List TranscriptRef) (seen : List ℕ) (matches : List Text)
    → IsCites sources seen (cite sources seen matches)
cite-IsCites sources seen [] = unfold cite in record { resolved = tt; distinct = tt; fresh = tt }
cite-IsCites sources seen (ds ∷ matches) = elim (Option-cases (parse_marker_number ds)) [
  | inl e ↦ rw (cite-none sources seen ds matches e) (cite-IsCites sources seen matches)
  | inr (n, e) ↦ elim (Bool-cases (is_seen n seen)) [
    | inl t ↦ rw (cite-seen sources seen ds matches n e t) (cite-IsCites sources seen matches)
    | inr t ↦ rw (cite-new sources seen ds matches n e t) (
        cited_source-IsCites sources seen n (cite sources (n ∷ seen) matches) t
          (cite-IsCites sources (n ∷ seen) matches))
  ]
]

-- What ParseCitations returns has no number twice, and each source stands for the hit at its
-- number: with that hit's note, segment, time and snippet, which the block of sources shows on the
-- line of the same number.
pub parse_citations-IsResolved :
    (text : Text) (sources : List TranscriptRef)
    → All (IsResolved sources) (parse_citations text sources)
      × Distinct (parse_citations text sources)
unfolding parse_citations
parse_citations-IsResolved text sources =
    let h = cite-IsCites sources [] (find_markers outside text) in (h.resolved, h.distinct)

-- A source with a number, among those returned.
pub record Cites (n : ℕ) (out : List Source) : Type 0 where
  pub source : Source
  pub member : Memᴰ source out
  pub number : source.number ≡ n

Cites-append : (n : ℕ) (xs ys : List Source) → Cites n ys → Cites n (xs ++ ys)
Cites-append n [] ys h = h
Cites-append n (x ∷ xs) ys h =
    let rest = Cites-append n xs ys h in
    record { source = rest.source; member = Memᴰ.tail rest.member; number = rest.number }

cited_source-Cites :
    (sources : List TranscriptRef) (n : ℕ) (out : List Source)
    → 1 ≤ n
    → n ≤ length sources
    → Cites n (cited_source sources n ++ out)
unfolding cited_source source_of
cited_source-Cites sources n out low high =
    let in_range : (ltb n 1 || ltb (length sources) n) ≡ false = ground arith in
    let hit = get-in_range sources (n - 1) (omega arith) in
    rw (in_range, hit.1, cited_source)
      (record { source = source_of n hit.0; member = Memᴰ.head refl; number = refl })

cite-Cites :
    (sources : List TranscriptRef) (n : ℕ) (ds : Text)
    → parse_marker_number ds ≡ some n
    → 1 ≤ n
    → n ≤ length sources
    → (seen : List ℕ) (matches : List Text) → is_seen n seen ≡ false
    → Memᴰ ds matches
    → Cites n (cite sources seen matches)
cite-Cites sources n ds read low high seen [] new found = elim found [ ]
cite-Cites sources n ds read low high seen (d ∷ matches) new (Memᴰ.head same) =
    let here : parse_marker_number d ≡ some n = sym (ap parse_marker_number same) ∙ read in
    rw (cite-new sources seen d matches n here new)
      (cited_source-Cites sources n (cite sources (n ∷ seen) matches) low high)
cite-Cites sources n ds read low high seen (d ∷ matches) new (Memᴰ.tail found) =
    elim (Option-cases (parse_marker_number d)) [
      | inl e ↦
          rw (cite-none sources seen d matches e)
            (cite-Cites sources n ds read low high seen matches new found)
      | inr (k, e) ↦ elim (Bool-cases (is_seen k seen)) [
        | inl t ↦
            rw (cite-seen sources seen d matches k e t)
              (cite-Cites sources n ds read low high seen matches new found)
        | inr t ↦ rw (cite-new sources seen d matches k e t) (elim (Bool-cases (n == k)) [
          | inl s ↦
              let number : n ≡ k = (==_iff n k).0 s in
              rw⁻¹ number (cited_source-Cites sources n (cite sources (n ∷ seen) matches) low high)
          | inr o ↦ Cites-append n (cited_source sources k) (cite sources (k ∷ seen) matches) (
              cite-Cites sources n ds read low high (k ∷ seen) matches
                (unfold is_seen in ground arith) found)
        ])
      ]
    ]

-- A marker with the number of a hit, up to 2^30, anywhere in the answer, whatever stands before
-- and after it, is cited: ParseCitations returns a source of that number.
pub parse_citations-Cites :
    (sources : List TranscriptRef) (before after : Text) (n : ℕ)
    → 1 ≤ n
    → n ≤ length sources
    → n ≤ 2 ^ 30
    → Cites n (parse_citations (before ++ marker n ++ after) sources)
unfolding parse_citations
parse_citations-Cites sources before after n low high small =
    cite-Cites sources n (decimal n) (decimal-parse n small) low high []
      (find_markers outside (before ++ marker n ++ after)) (unfold is_seen in refl)
      (marker-found outside before after n)
