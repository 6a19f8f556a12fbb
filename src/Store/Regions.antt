-- ===== src/Store/Regions.antt =====
-- src/store/regions.rs: a file cut into the regions that are searched.
-- `insert` is the list of rows that it writes, the texts of bytes and of Unicode being parameters.
pub mod Tiling
use trufflepig.Prelude.{
  ℕ, zero, suc, ◌+◌, ◌-◌, compare, Bool, true, false, ◌&&◌, ◌||◌, not, Option, none, some, List, [],
  ◌∷◌, ◌++◌, if◌then◌else◌, ltb, leb, nat_eq, length, get_elem?, take, drop, min, max, Ordering,
  saturating_add,
}
use trufflepig.Prelude.Texts.{Text, Unicode, is_empty, chars}
use trufflepig.Prelude.Sort.{then_with, sort_by, is_lt}
use trufflepig.Store.RegionSpans.{
  region_bytes, Definition, DefinitionSpan, RegionSpan, DefinitionForest, is_utf8_boundary,
  valid_definition_spans, definition_forest, collect_forest,
}

-- `rposition(|&byte| byte == b'\n')`
unfoldable pub last_newline : List ℕ → Option ℕ
last_newline [] = none
last_newline (byte ∷ bytes) = elim (last_newline bytes) [
  | some offset ↦ some (suc offset)
  | none ↦ if nat_eq byte 10 then some 0 else none
]

-- The `while` loop of `split_boundary`.
unfoldable pub back_to_boundary : List ℕ → ℕ → ℕ → ℕ
unfolding is_utf8_boundary
back_to_boundary source start zero = zero
back_to_boundary source start (suc candidate) =
    let earlier = back_to_boundary source start candidate in
    if ltb start (suc candidate) && not (is_utf8_boundary source (suc candidate))
    then earlier
    else suc candidate

abbrev pub line_end : List ℕ → ℕ → ℕ → ℕ
line_end source start limit = elim (last_newline (take (limit - start) (drop start source))) [
  | none ↦ limit
  | some offset ↦ start + offset + 1
]

unfoldable pub split_boundary : List ℕ → ℕ → ℕ → ℕ
unfolding last_newline back_to_boundary is_utf8_boundary
split_boundary source start limit =
    let boundary = line_end source start limit in
    if nat_eq boundary (length source) || is_utf8_boundary source boundary
    then boundary
    else back_to_boundary source start boundary

-- `min_by_key`: of equal keys the first.
abbrev pub by_size : DefinitionSpan → DefinitionSpan → Ordering
by_size a b =
    then_with (compare (a.end - a.start) (b.end - b.start)) (compare a.definition b.definition)

unfoldable pub smallest_containing :
    ℕ → ℕ → Option DefinitionSpan → List DefinitionSpan → Option DefinitionSpan
smallest_containing start end best [] = best
smallest_containing start end best (span ∷ spans) =
    let better : Option DefinitionSpan = elim best [
      | none ↦ some span
      | some old ↦ if is_lt (by_size span old) then some span else some old
    ] in
    smallest_containing start end
      (if leb span.start start && leb end span.end then better else best) spans

unfoldable pub containing_definition : ℕ → ℕ → List DefinitionSpan → Option ℕ
unfolding smallest_containing
containing_definition start end spans = elim (smallest_containing start end none spans) [
  | none ↦ none
  | some span ↦ some span.definition
]

-- The loop that moves `preferred_index`.
unfoldable pub skip_ended : ℕ → List RegionSpan → List RegionSpan
skip_ended cursor [] = []
skip_ended cursor (span ∷ preferred) =
    let rest = skip_ended cursor preferred in if leb span.end cursor then rest else span ∷ preferred

-- The loop over `preferred[next_preferred..]`: the `end` that it reaches, and what is left of the
-- spans when it stops.
unfoldable pub reach_end : List ℕ → ℕ → ℕ → ℕ → List RegionSpan → ℕ × List RegionSpan
unfolding split_boundary
reach_end source cursor limit end [] = (end, [])
reach_end source cursor limit end (span ∷ preferred) =
    let skipped = reach_end source cursor limit end preferred in
    let packed = reach_end source cursor limit span.end preferred in
    if ltb span.start cursor
    then skipped
    else if leb limit span.start
    then (split_boundary source end limit, span ∷ preferred)
    else if ltb limit span.end
    then (span.start, span ∷ preferred)
    else if nat_eq span.end limit
    then (span.end, preferred)
    else packed

-- What follows that loop.
unfoldable pub close_region : List ℕ → ℕ → ℕ → ℕ × List RegionSpan → ℕ
unfolding split_boundary
close_region source cursor limit (end, preferred) =
    if nat_eq end cursor
    then split_boundary source cursor limit
    else if ltb end limit && is_empty preferred
    then split_boundary source end limit
    else end

-- The guard that keeps the loop going forward.
unfoldable pub forward : ℕ → ℕ → ℕ → ℕ → ℕ
forward len cursor limit end =
    if ltb len end || leb end cursor then min (max limit (cursor + 1)) len else end

abbrev pub limit_of : List ℕ → ℕ → ℕ
limit_of source cursor = min (saturating_add cursor region_bytes) (length source)

unfoldable pub region_end : List ℕ → ℕ → List RegionSpan → ℕ
unfolding reach_end close_region forward
region_end source cursor preferred =
    let limit = limit_of source cursor in
    forward (length source) cursor limit
      (close_region source cursor limit (reach_end source cursor limit cursor preferred))

-- The main loop, on fuel; `none` is that it runs out, which Tiling excludes.
unfoldable pub cut :
    List ℕ → List DefinitionSpan → ℕ → ℕ → List RegionSpan → Option (List RegionSpan)
unfolding skip_ended region_end containing_definition
cut source spans zero cursor preferred = if ltb cursor (length source) then none else some []
cut source spans (suc fuel) cursor preferred =
    let left = skip_ended cursor preferred in
    let end = region_end source cursor left in
    let rest = cut source spans fuel end left in
    if ltb cursor (length source)
    then elim rest [
      | none ↦ none
      | some regions ↦ some (
          record { start = cursor; end = end; definition = containing_definition cursor end spans }
          ∷ regions)
    ]
    else some []

abbrev pub by_place : RegionSpan → RegionSpan → Ordering
by_place a b = then_with (compare a.start b.start) (compare a.end b.end)

-- The sort is unstable in the source; spans of one place differ in the definition alone, which the
-- loop does not read.
unfoldable pub partition_source : List ℕ → List Definition → Option (List RegionSpan)
unfolding valid_definition_spans definition_forest collect_forest sort_by cut
partition_source source definitions =
    let spans = valid_definition_spans source definitions in
    let preferred = sort_by by_place (collect_forest (definition_forest spans)) in
    if is_empty source then some [] else cut source spans (length source) 0 preferred

abbrev is_ascii_digit : ℕ → Bool
is_ascii_digit c = leb b'0' c && leb c b'9'

abbrev next_is_lowercase : Unicode → Text → Bool
next_is_lowercase u [] = false
next_is_lowercase u (c ∷ cs) = u.is_lowercase c

-- A space before the upper case letter that starts a word.
abbrev pub starts_word : Unicode → ℕ → ℕ → Text → Bool
starts_word u previous current next =
    u.is_uppercase current
    && (u.is_lowercase previous
        || (is_ascii_digit previous || (u.is_uppercase previous && next_is_lowercase u next)))

unfoldable pub expand_from : Unicode → ℕ → Text → Text
expand_from u previous [] = []
expand_from u previous (current ∷ next) =
    let rest = expand_from u current next in
    if nat_eq current b'_' || not (u.is_alphanumeric current)
    then b' ' ∷ rest
    else (if starts_word u previous current next then b' ' ∷ [] else [])
      ++ (u.to_lowercase (current ∷ []) ++ rest)

unfoldable pub expand_identifiers : Unicode → Text → Text
unfolding expand_from
expand_identifiers u source = expand_from u b' ' source

-- A row of `regions` with its row of `documents`.
pub record RegionRow : Type 0 where
  pub start : ℕ
  pub end : ℕ
  pub name : Text
  pub kind : Text
  pub body : Text
  pub expanded : Text

abbrev name_and_kind : Text → List Definition → Option ℕ → Text × Text
name_and_kind path definitions none = (path, chars "file")
name_and_kind path definitions (some index) = elim (get_elem? definitions index) [
  | none ↦ (path, chars "file")
  | some definition ↦ (definition.name, definition.kind)
]

-- The body of the loop of `insert`; `decode` is `String::from_utf8_lossy`.
unfoldable pub row_of :
    Unicode → (List ℕ → Text) → Text → List ℕ → List Definition → RegionSpan → RegionRow
unfolding expand_identifiers
row_of u decode path source definitions region =
    let (name, kind) = name_and_kind path definitions region.definition in
    let body = decode (take (region.end - region.start) (drop region.start source)) in
    record {
      start = region.start;
      end = region.end;
      name = name;
      kind = kind;
      body = body;
      expanded = expand_identifiers u (name ++ b' ' ∷ body);
    }
