-- ===== src/Multitrack/Sorted.antt =====
-- The stable sort of the segments by start: orchestrateChannels (internal/pluginkit/multitrack.go).
use muesli.Base.{
  ◌≡◌, refl, ap, ◌∙◌, Bool, true, false, ◌&&◌, List, [], ◌∷◌, inl, inr, Bool-cases, arith, All,
  All-map, if◌then◌else◌,
}
use muesli.Base.Int.{ℤ, leb_ℤ, ltb_ℤ, ◌≤ℤ◌}
use muesli.Execution.{Segment}
use muesli.Multitrack.{insert_segment, sort_segments}

-- Ordered by start.
abbrev pub IsOrdered : List Segment → Type 0
IsOrdered [] = Unit
IsOrdered (s ∷ ss) = All (λ t. s.start_ms ≤ℤ t.start_ms) ss × IsOrdered ss

insert_segment-All :
    (P : Segment → Type 0) (s : Segment) (ss : List Segment)
    → P s
    → All P ss
    → All P (insert_segment s ss)
unfolding insert_segment
insert_segment-All P s [] p h = (p, tt)
insert_segment-All P s (t ∷ ts) p h = ground (arith, insert_segment-All P s ts p h.1)

le_lt : (a b : ℤ) → ltb_ℤ a b ≡ true → a ≤ℤ b
le_lt a b e = ground arith

le_not_lt : (a b : ℤ) → ltb_ℤ a b ≡ false → b ≤ℤ a
le_not_lt a b e = ground arith

le_trans : (a b c : ℤ) → a ≤ℤ b → b ≤ℤ c → a ≤ℤ c
le_trans a b c p q = omega (arith, p, q)

insert_segment-IsOrdered :
    (s : Segment) (ss : List Segment) → IsOrdered ss → IsOrdered (insert_segment s ss)
unfolding insert_segment
insert_segment-IsOrdered s [] h = (tt, tt)
insert_segment-IsOrdered s (t ∷ ts) h = elim (Bool-cases (ltb_ℤ t.start_ms s.start_ms)) [
  | inl e ↦
      rw (insert_segment, e)
        (
          insert_segment-All (λ u. t.start_ms ≤ℤ u.start_ms) s ts (le_lt t.start_ms s.start_ms e)
              h.0,
          insert_segment-IsOrdered s ts h.1,
        )
  | inr e ↦
      let first = le_not_lt t.start_ms s.start_ms e in
      rw (insert_segment, e)
        (
          (
            first,
            All-map (λ u. t.start_ms ≤ℤ u.start_ms) (λ u. s.start_ms ≤ℤ u.start_ms)
                (λ u le. le_trans s.start_ms t.start_ms u.start_ms first le) ts h.0,
          ),
          h,
        )
]

pub sort_segments-IsOrdered : (ss : List Segment) → IsOrdered (sort_segments ss)
unfolding sort_segments
sort_segments-IsOrdered [] = tt
sort_segments-IsOrdered (s ∷ ss) =
    insert_segment-IsOrdered s (sort_segments ss) (sort_segments-IsOrdered ss)

abbrev pub eq_ℤ : ℤ → ℤ → Bool
eq_ℤ a b = leb_ℤ a b && leb_ℤ b a

-- The segments that start at `t`, in order.
pub starting_at : ℤ → List Segment → List Segment
starting_at t [] = []
starting_at t (s ∷ ss) = if eq_ℤ s.start_ms t then s ∷ starting_at t ss else starting_at t ss

not_both : (t a b : ℤ) → ltb_ℤ a b ≡ true → eq_ℤ a t ≡ true → eq_ℤ b t ≡ false
not_both t a b e h = ground arith

insert_segment_stable :
    (t : ℤ) (s : Segment) (ss : List Segment)
    → starting_at t (insert_segment s ss) ≡ starting_at t (s ∷ ss)
unfolding insert_segment starting_at
insert_segment_stable t s [] = refl
insert_segment_stable t s (u ∷ us) = elim (Bool-cases (ltb_ℤ u.start_ms s.start_ms)) [
  | inr e ↦ rw (insert_segment, e) refl
  | inl e ↦
      let rest = insert_segment_stable t s us in
      let apart = not_both t u.start_ms s.start_ms e in
      rw (insert_segment, e) (ground (arith, rest, apart))
]

pub sort_segments_stable :
    (t : ℤ) (ss : List Segment) → starting_at t (sort_segments ss) ≡ starting_at t ss
unfolding sort_segments starting_at
sort_segments_stable t [] = refl
sort_segments_stable t (s ∷ ss) =
    insert_segment_stable t s (sort_segments ss)
    ∙ ap (λ r. if eq_ℤ s.start_ms t then s ∷ r else r) (sort_segments_stable t ss)
