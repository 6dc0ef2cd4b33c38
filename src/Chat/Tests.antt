-- ===== src/Chat/Tests.antt =====
-- An answer that cites two sources, and the theorems at it.
use muesli.Base.{◌≡◌, refl, List, [], ◌∷◌, ◌++◌, All, map, arith}
use muesli.Base.Int.{pos, negsuc}
use muesli.Base.Text.{Text, codes, digits}
use muesli.Chat.{
  TranscriptRef, Source, is_digit, is_nil, scan_next, closed_by, find_markers, read_digits,
  parse_marker_number, is_seen, source_of, cited_source, cite, parse_citations, two_digits,
  format_timestamp,
}
use muesli.Chat.Markers.{marker}
use muesli.Chat.Resolved.{IsResolved, Distinct}
use muesli.Chat.Citations.{parse_citations-IsResolved, Cites, parse_citations-Cites}

abbrev hit : Text → TranscriptRef
hit id = record {
  note_id = id;
  note_title = codes "T";
  segment_id = codes "s";
  segment_index = pos 0;
  start_ms = pos 65000;
  snippet = codes "said";
  score = 0;
}

abbrev hits : List TranscriptRef
hits = hit (codes "x") ∷ hit (codes "y") ∷ []

-- Once each, in the order of first appearance; out of range and malformed ones are dropped.
cites_twice :
    map
      (λ (s : Source). s.number)
      (parse_citations (codes "a [2][1] b [2] c [7] [x] [0] [[1]") hits)
    ≡ 2 ∷ 1 ∷ []
unfolding parse_citations cite find_markers scan_next closed_by is_digit is_nil parse_marker_number
    read_digits is_seen cited_source source_of
cites_twice = refl

prints_time : format_timestamp (pos 65000) ≡ codes "01:05"
unfolding format_timestamp two_digits digits
prints_time = refl

clamps_time : format_timestamp (negsuc 4) ≡ codes "00:00"
unfolding format_timestamp two_digits digits
clamps_time = refl

parse_citations-IsResolved_example :
    All (IsResolved hits) (parse_citations (codes "a [2][1]") hits)
    × Distinct (parse_citations (codes "a [2][1]") hits)
parse_citations-IsResolved_example = parse_citations-IsResolved (codes "a [2][1]") hits

parse_citations-Cites_example :
    Cites 2 (parse_citations (codes "as [said " ++ marker 2 ++ codes " there") hits)
parse_citations-Cites_example =
    parse_citations-Cites hits (codes "as [said ") (codes " there") 2 (omega arith) (omega arith)
      (omega arith)
