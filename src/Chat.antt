-- ===== src/Chat.antt =====
-- Chat over notes: internal/chat/citations.go and internal/chat/context.go, with the hit of
-- internal/chat/retrieval.go.
--
-- A hit's score, a float64, is its bits. The regular expression of the markers is the scan it
-- stands for: brackets around one or more ASCII digits, leftmost first and without overlap.
pub mod Markers
pub mod Resolved
pub mod Citations
mod Tests
use muesli.Base.{
  ℕ, zero, suc, ◌+◌, ◌-◌, ◌*◌, ◌/◌, ◌%◌, ◌^◌, Bool, true, false, not, ◌&&◌, ◌||◌, Option, none,
  some, List, [], ◌∷◌, ◌++◌, map, length, get_elem?, ltb, leb, ◌==◌, if◌then◌else◌,
}
use muesli.Base.Int.{ℤ, pos, negsuc, pos_part}
use muesli.Base.Text.{Text, codes, digits, decimal}

pub record TranscriptRef : Type 0 where
  pub note_id : Text
  pub note_title : Text
  pub segment_id : Text
  pub segment_index : ℤ
  pub start_ms : ℤ
  pub snippet : Text
  pub score : ℕ

pub record Source : Type 0 where
  pub number : ℕ
  pub note_id : Text
  pub segment_index : ℤ
  pub timestamp : ℤ
  pub snippet : Text

pub is_digit : ℕ → Bool
is_digit c = leb 48 c && leb c 57

pub is_nil : Text → Bool
is_nil [] = true
is_nil (c ∷ s) = false

-- What has been read since a bracket that may open a marker.
pub data Scan : Type 0 where
  outside : Scan
  inside : Text → Scan

pub scan_next : Scan → ℕ → Scan
scan_next outside c = if c == 91 then inside [] else outside
scan_next (inside ds) c =
    if c == 91 then inside [] else if is_digit c then inside (ds ++ c ∷ []) else outside

-- The marker that a character closes, if any.
pub closed_by : Scan → ℕ → Option Text
closed_by outside c = none
closed_by (inside ds) c = if c == 93 && not (is_nil ds) then some ds else none

-- citationMarkerRE.FindAllStringSubmatch(text, -1): the digits of each match.
pub find_markers : Scan → Text → List Text
find_markers st [] = []
find_markers st (c ∷ s) =
    let rest = find_markers (scan_next st c) s in
    elim (closed_by st c) [ none ↦ rest | some ds ↦ ds ∷ rest ]

-- The loop of parseMarkerNumber.
pub read_digits : ℕ → Text → Option ℕ
read_digits n [] = some n
read_digits n (c ∷ ds) =
    let m = n * 10 + (c - 48) in
    let rest = read_digits m ds in if ltb (2 ^ 30) m then none else rest

pub parse_marker_number : Text → Option ℕ
parse_marker_number ds = read_digits 0 ds

pub is_seen : ℕ → List ℕ → Bool
is_seen n [] = false
is_seen n (m ∷ seen) = if n == m then true else is_seen n seen

pub source_of : ℕ → TranscriptRef → Source
source_of n ref = record {
  number = n;
  note_id = ref.note_id;
  segment_index = ref.segment_index;
  timestamp = ref.start_ms;
  snippet = ref.snippet;
}

-- The source that a number cites: nothing out of range.
pub cited_source : List TranscriptRef → ℕ → List Source
cited_source sources n =
    if ltb n 1 || ltb (length sources) n
    then []
    else elim (get_elem? sources (n - 1)) [ none ↦ [] | some ref ↦ source_of n ref ∷ [] ]

-- The loop of ParseCitations.
pub cite : List TranscriptRef → List ℕ → List Text → List Source
cite sources seen [] = []
cite sources seen (ds ∷ matches) = elim (parse_marker_number ds) [
  | none ↦ cite sources seen matches
  | some n ↦
      let rest = cite sources (if is_seen n seen then seen else n ∷ seen) matches in
      if is_seen n seen then rest else cited_source sources n ++ rest
]

pub parse_citations : Text → List TranscriptRef → List Source
parse_citations text sources = cite sources [] (find_markers outside text)

abbrev pub newline : Text
newline = 10 ∷ []

-- `%02d`.
pub two_digits : ℕ → Text
two_digits n = if ltb n 10 then codes "0" ++ decimal n else decimal n

pub format_timestamp : ℤ → Text
format_timestamp start_ms =
    let total_seconds = pos_part start_ms / 1000 in
    two_digits (total_seconds / 60) ++ codes ":" ++ two_digits (total_seconds % 60)

pub retrieval_line : ℕ → TranscriptRef → Text
retrieval_line n src =
    codes "["
    ++ decimal n
    ++ codes "] "
    ++ src.note_title
    ++ codes " ("
    ++ format_timestamp src.start_ms
    ++ codes "): "
    ++ src.snippet

-- The lines from the number after `n` on.
pub retrieval_lines : ℕ → List TranscriptRef → List Text
retrieval_lines n [] = []
retrieval_lines n (src ∷ sources) = retrieval_line (n + 1) src ∷ retrieval_lines (n + 1) sources

-- strings.Join(lines, "\n").
pub join_lines : List Text → Text
join_lines [] = []
join_lines (l ∷ []) = l
join_lines (l ∷ m ∷ ls) = l ++ newline ++ join_lines (m ∷ ls)

pub render_retrieval_block : List TranscriptRef → Text
render_retrieval_block [] = codes "No sources are available for this query."
render_retrieval_block (src ∷ sources) = join_lines (retrieval_lines 0 (src ∷ sources))

pub record PromptMessage : Type 0 where
  pub role : Text
  pub content : Text

abbrev pub chat_directive : Text
chat_directive =
    codes
      "You are a note-taking assistant answering questions using only the numbered sources provided below. "
    ++ codes
        "Base every claim strictly on those sources; do not use outside knowledge or speculate beyond what they say. "
    ++ codes
        "Cite the source(s) supporting each claim inline with bracketed markers matching the source numbers, e.g. [1] or [2][3]. "
    ++ codes
        "Use speaker names exactly as they appear in the sources verbatim; do not infer, abbreviate, or merge names."

-- A message of the history is its role and content; the other fields are not read.
pub build_prompt : List TranscriptRef → List PromptMessage → Text → List PromptMessage
build_prompt sources history user_message =
    record { role = codes "system"; content = chat_directive }
    ∷ record { role = codes "system"; content = render_retrieval_block sources }
    ∷ (history ++ record { role = codes "user"; content = user_message } ∷ [])
