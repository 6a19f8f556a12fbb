-- ===== src/Store/Regions/Tiling.antt =====
-- The regions of src/store/regions.rs cover a file without gaps.
use trufflepig.Prelude.{
  ℕ, zero, suc, ◌+◌, ◌-◌, ◌≤◌, ◌<◌, ◌≡◌, refl, Option, none, some, List, [], ◌∷◌, ltb, length, take,
  drop, arith, length-take, Bool-cases, Option-cases, inl, inr, ltb→lt, max_usize,
}
use trufflepig.Prelude.Sort.{sort_by}
use trufflepig.Store.RegionSpans.{
  Definition, DefinitionSpan, RegionSpan, valid_definition_spans, definition_forest, collect_forest,
  region_bytes,
}
use trufflepig.Store.Regions.{
  last_newline, back_to_boundary, split_boundary, line_end, reach_end, close_region, forward,
  limit_of, region_end, skip_ended, cut, partition_source, by_place, containing_definition,
}

last_newline-lt :
    (bytes : List ℕ) (offset : ℕ) → last_newline bytes ≡ some offset → offset < length bytes
unfolding last_newline
last_newline-lt [] offset h = absurd (cc)
last_newline-lt (byte ∷ bytes) offset h = elim (Option-cases (last_newline bytes)) [
  | inl e ↦ ground (arith, e)
  | inr (o, e) ↦ let below = last_newline-lt bytes o e in ground (arith, e, below)
]

back_to_boundary_le :
    (source : List ℕ) (start candidate : ℕ) → back_to_boundary source start candidate ≤ candidate
unfolding back_to_boundary
back_to_boundary_le source start zero = omega arith
back_to_boundary_le source start (suc candidate) =
    ground (arith, back_to_boundary_le source start candidate)

newline_le :
    (start limit : ℕ) (o : Option ℕ)
    → start ≤ limit
    → ((k : ℕ) → o ≡ some k → k < limit - start)
    → elim o [ none ↦ limit | some offset ↦ start + offset + 1 ] ≤ limit
newline_le start limit none h k = omega arith
newline_le start limit (some offset) h k = omega (arith, k offset refl)

line_end_le :
    (source : List ℕ) (start limit : ℕ) → start ≤ limit → line_end source start limit ≤ limit
line_end_le source start limit h =
    let slice = take (limit - start) (drop start source) in
    newline_le start limit (last_newline slice) h (λ k e.
      omega (arith, last_newline-lt slice k e, length-take (limit - start) (drop start source)))

pub split_boundary_le :
    (source : List ℕ) (start limit : ℕ) → start ≤ limit → split_boundary source start limit ≤ limit
unfolding split_boundary
split_boundary_le source start limit h = ground (
  arith,
  line_end_le source start limit h,
  back_to_boundary_le source start (line_end source start limit),
)

reach_end_le :
    (source : List ℕ) (cursor limit end : ℕ) (preferred : List RegionSpan)
    → end ≤ limit
    → (reach_end source cursor limit end preferred).0 ≤ limit
unfolding reach_end
reach_end_le source cursor limit end [] h = h
reach_end_le source cursor limit end (span ∷ preferred) h = ground (
  arith,
  split_boundary_le source end limit h,
  reach_end_le source cursor limit end preferred,
  reach_end_le source cursor limit span.end preferred,
)

-- One region: it is not empty, and as long as the source allows at most.
forward_bounds :
    (len cursor limit end : ℕ)
    → cursor < len
    → limit ≤ len
    → limit ≤ cursor + region_bytes
    → end ≤ limit
    → let e = forward len cursor limit end in
      (cursor < e) × ((e ≤ len) × (e ≤ cursor + region_bytes))
unfolding forward
forward_bounds len cursor limit end a b c d = ground arith

close_region_le :
    (source : List ℕ) (cursor limit : ℕ) (r : ℕ × List RegionSpan)
    → cursor ≤ limit
    → r.0 ≤ limit
    → close_region source cursor limit r ≤ limit
unfolding close_region
close_region_le source cursor limit (end, preferred) h k =
    ground (arith, split_boundary_le source cursor limit h, split_boundary_le source end limit k)

region_end_bounds :
    (source : List ℕ) (cursor : ℕ) (preferred : List RegionSpan)
    → length source ≤ max_usize
    → cursor < length source
    → (cursor < region_end source cursor preferred)
      × ((region_end source cursor preferred ≤ length source)
          × (region_end source cursor preferred ≤ cursor + region_bytes))
unfolding region_end
region_end_bounds source cursor preferred fits h =
    let limit = limit_of source cursor in
    let ahead : cursor ≤ limit = omega arith in
    let reached = reach_end source cursor limit cursor preferred in
    let end = close_region source cursor limit reached in
    let end_le =
      close_region_le source cursor limit reached ahead
        (reach_end_le source cursor limit cursor preferred ahead) in
    forward_bounds (length source) cursor limit end h (omega arith) (omega arith) end_le

-- From `cursor` to `len` without gaps, in regions of 1 to 4,096 bytes.
abbrev pub Tiles : ℕ → ℕ → List RegionSpan → Type 0
Tiles cursor len [] = cursor ≡ len
Tiles cursor len (r ∷ regions) =
    (r.start ≡ cursor)
    × ((cursor < r.end) × ((r.end ≤ cursor + region_bytes) × Tiles r.end len regions))

cut-Tiles :
    (source : List ℕ) (spans : List DefinitionSpan) (fuel cursor : ℕ) (preferred : List RegionSpan)
    → length source ≤ max_usize
    → cursor ≤ length source
    → length source ≤ cursor + fuel
    → (regions : List RegionSpan) × ((cut source spans fuel cursor preferred ≡ some regions)
        × Tiles cursor (length source) regions)
unfolding cut
cut-Tiles source spans zero cursor preferred fits h k = ([], (ground arith, omega arith))
cut-Tiles source spans (suc fuel) cursor preferred fits h k =
    elim (Bool-cases (ltb cursor (length source))) [
      | inl e ↦
          let left = skip_ended cursor preferred in
          let end = region_end source cursor left in
          let inside = ltb→lt cursor (length source) e in
          let (more, (within, small)) = region_end_bounds source cursor left fits inside in
          let (rest, (run, tiles)) =
            cut-Tiles source spans fuel end left fits within (omega arith) in
          let region : RegionSpan = record {
            start = cursor;
            end = end;
            definition = containing_definition cursor end spans;
          } in
          (region ∷ rest, (rw (e, run) refl, (refl, (more, (small, tiles)))))
      | inr e ↦ ([], (rw e refl, ground arith))
    ]

-- Any file, whatever its definitions, is cut into regions that follow one another from its first
-- byte to its last, each of 1 to 4,096 bytes; the loop ends.
pub partition_source-Tiles :
    (source : List ℕ) (definitions : List Definition)
    → length source ≤ max_usize
    → (regions : List RegionSpan) × ((partition_source source definitions ≡ some regions)
        × Tiles 0 (length source) regions)
unfolding partition_source
partition_source-Tiles [] definitions fits = ([], (refl, refl))
partition_source-Tiles (byte ∷ bytes) definitions fits =
    let source = byte ∷ bytes in
    let spans = valid_definition_spans source definitions in
    cut-Tiles source spans (length source) 0
      (sort_by by_place (collect_forest (definition_forest spans))) fits (omega arith) (omega arith)
