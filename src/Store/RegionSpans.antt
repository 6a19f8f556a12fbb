-- ===== src/Store/RegionSpans.antt =====
-- src/store/regions.rs: the definitions of a file as spans, and their nesting as a forest.
-- The definitions come from src/extract.rs with a name, a kind and a span. Bytes are numbers.
use trufflepig.Prelude.{
  ℕ, ◌+◌, ◌-◌, ◌/◌, ◌%◌, compare, Ordering, Bool, true, ◌&&◌, ◌||◌, not, Option, none, some, List,
  [], ◌∷◌, ◌++◌, if◌then◌else◌, ltb, leb, nat_eq, length, get_elem?,
}
use trufflepig.Prelude.Texts.{Text}
use trufflepig.Prelude.Sort.{then_with, sort_by}

abbrev pub region_bytes : ℕ
region_bytes = 4096

pub record Definition : Type 0 where
  pub name : Text
  pub kind : Text
  pub start : ℕ
  pub end : ℕ

pub record DefinitionSpan : Type 0 where
  pub definition : ℕ
  pub start : ℕ
  pub end : ℕ

pub record RegionSpan : Type 0 where
  pub start : ℕ
  pub end : ℕ
  pub definition : Option ℕ

-- DefinitionNode and its `children`.
mutual
  pub data DefinitionNode : Type 0 where
    node : DefinitionSpan → DefinitionForest → DefinitionNode

  pub data DefinitionForest : Type 0 where
    empty : DefinitionForest
    plant : DefinitionNode → DefinitionForest → DefinitionForest

-- `source[offset] & 0xc0 != 0x80`; behind the end there is no byte to look at.
abbrev pub starts_character : Option ℕ → Bool
starts_character none = true
starts_character (some byte) = not (nat_eq (byte / 64 % 4) 2)

unfoldable pub is_utf8_boundary : List ℕ → ℕ → Bool
is_utf8_boundary source offset =
    nat_eq offset 0 || (nat_eq offset (length source) || starts_character (get_elem? source offset))

abbrev pub is_valid_span : List ℕ → Definition → Bool
is_valid_span source value =
    ltb value.start value.end
    && (leb value.end (length source)
        && (is_utf8_boundary source value.start && is_utf8_boundary source value.end))

-- `enumerate` and `filter_map`
unfoldable pub keep_valid : List ℕ → ℕ → List Definition → List DefinitionSpan
unfolding is_utf8_boundary
keep_valid source index [] = []
keep_valid source index (value ∷ values) =
    let rest = keep_valid source (index + 1) values in
    if is_valid_span source value
    then record { definition = index; start = value.start; end = value.end } ∷ rest
    else rest

-- The key is (start, Reverse(end), definition).
abbrev pub outer_first : DefinitionSpan → DefinitionSpan → Ordering
outer_first a b =
    then_with (compare a.start b.start)
      (then_with (compare b.end a.end) (compare a.definition b.definition))

-- `dedup_by_key`: the first of each stretch of equal spans stays.
unfoldable pub dedup_from : DefinitionSpan → List DefinitionSpan → List DefinitionSpan
dedup_from kept [] = kept ∷ []
dedup_from kept (span ∷ spans) =
    let same = nat_eq span.start kept.start && nat_eq span.end kept.end in
    let rest = dedup_from (if same then kept else span) spans in if same then rest else kept ∷ rest

unfoldable pub dedup : List DefinitionSpan → List DefinitionSpan
unfolding dedup_from
dedup [] = []
dedup (span ∷ spans) = dedup_from span spans

unfoldable pub valid_definition_spans : List ℕ → List Definition → List DefinitionSpan
unfolding keep_valid sort_by dedup
valid_definition_spans source definitions =
    dedup (sort_by outer_first (keep_valid source 0 definitions))

abbrev pub span_of : DefinitionNode → DefinitionSpan
span_of (node span children) = span

-- `children.push` and `roots.push`
unfoldable pub push_node : DefinitionForest → DefinitionNode → DefinitionForest
push_node empty child = plant child empty
push_node (plant first rest) child = plant first (push_node rest child)

unfoldable pub add_child : DefinitionNode → DefinitionNode → DefinitionNode
unfolding push_node
add_child (node span children) child = node span (push_node children child)

-- `roots`, and `stack` with its last element first.
pub record Growing : Type 0 where
  pub roots : DefinitionForest
  pub stack : List DefinitionNode

-- The `while` loop that pops the nodes which end before `start`, `top` being the last of the stack:
-- attach_definition_node gives each to the node below it, or to the roots.
unfoldable pub close_ended : ℕ → DefinitionForest → DefinitionNode → List DefinitionNode → Growing
unfolding add_child push_node
close_ended start roots top [] =
    if leb (span_of top).end start
    then record { roots = push_node roots top; stack = [] }
    else record { roots = roots; stack = top ∷ [] }
close_ended start roots top (parent ∷ stack) =
    let closed = close_ended start roots (add_child parent top) stack in
    if leb (span_of top).end start
    then closed
    else record { roots = roots; stack = top ∷ parent ∷ stack }

unfoldable pub close_stack : ℕ → Growing → Growing
unfolding close_ended
close_stack start g = elim g.stack [ [] ↦ g | top ∷ stack ↦ close_ended start g.roots top stack ]

-- A span that crosses the one on top is dropped.
unfoldable pub open_span : DefinitionSpan → Growing → Growing
open_span span g = elim g.stack [
  | [] ↦ record g { stack = node span empty ∷ [] }
  | top ∷ stack ↦
      if ltb (span_of top).end span.end
      then g
      else record g { stack = node span empty ∷ top ∷ stack }
]

unfoldable pub grow_forest : List DefinitionSpan → Growing → Growing
unfolding close_stack open_span
grow_forest [] g = g
grow_forest (span ∷ spans) g = grow_forest spans (open_span span (close_stack span.start g))

-- The last loop, which pops the whole stack.
unfoldable pub close_all :
    DefinitionForest → DefinitionNode → List DefinitionNode → DefinitionForest
unfolding add_child push_node
close_all roots top [] = push_node roots top
close_all roots top (parent ∷ stack) = close_all roots (add_child parent top) stack

unfoldable pub definition_forest : List DefinitionSpan → DefinitionForest
unfolding grow_forest close_all
definition_forest spans =
    let g = grow_forest spans (record { roots = empty; stack = [] }) in
    elim g.stack [ [] ↦ g.roots | top ∷ stack ↦ close_all g.roots top stack ]

abbrev pub region_of : DefinitionSpan → RegionSpan
region_of span = record { start = span.start; end = span.end; definition = some span.definition }

-- The largest definitions that fit into a region.
unfoldable mutual
  pub collect_preferred_spans : DefinitionNode → List RegionSpan
  collect_preferred_spans (node span children) =
      let inner = collect_forest children in
      if leb (span.end - span.start) region_bytes then region_of span ∷ [] else inner

  pub collect_forest : DefinitionForest → List RegionSpan
  collect_forest empty = []
  collect_forest (plant first rest) = collect_preferred_spans first ++ collect_forest rest
