-- ===== src/Store/RegionTests.antt =====
-- Runs of src/store/regions.rs.
use trufflepig.Prelude.{ℕ, ◌≡◌, refl, none, some, List, [], ◌∷◌, arith}
use trufflepig.Prelude.Sort.{sort_by, insert_by}
use trufflepig.Prelude.Texts.{Text, ascii, chars}
use trufflepig.Store.RegionSpans.{
  Definition, RegionSpan, is_utf8_boundary, keep_valid, dedup_from, dedup, valid_definition_spans,
  push_node, add_child, close_ended, close_stack, open_span, grow_forest, close_all,
  definition_forest, collect_preferred_spans,
}
use trufflepig.Store.Regions.{
  last_newline, back_to_boundary, split_boundary, smallest_containing, containing_definition,
  skip_ended, reach_end, close_region, forward, region_end, cut, partition_source, expand_from,
  expand_identifiers,
}
use trufflepig.Store.Regions.Tiling.{Tiles, partition_source-Tiles}

-- Two lines, a function on each.
abbrev two_lines : List ℕ
two_lines = chars "fn a\nfn b\n"

abbrev definition : Text → ℕ → ℕ → Definition
definition name start end = record {
  name = name;
  kind = chars "function";
  start = start;
  end = end;
}

abbrev two_functions : List Definition
two_functions = definition (chars "a") 0 4 ∷ definition (chars "b") 5 9 ∷ []

-- Both fit into one region, which belongs to neither.
one_region :
    partition_source two_lines two_functions
    ≡ some (record { start = 0; end = 10; definition = none } ∷ [])
unfolding partition_source valid_definition_spans keep_valid is_utf8_boundary dedup dedup_from
    sort_by insert_by definition_forest grow_forest close_stack close_ended open_span close_all
    add_child push_node collect_preferred_spans cut skip_ended region_end reach_end split_boundary
    last_newline back_to_boundary close_region forward containing_definition smallest_containing
one_region = refl

words_apart : expand_identifiers ascii (chars "parseURLPath_v2") ≡ chars "parse url path v2"
unfolding expand_identifiers expand_from
words_apart = refl

partition_source-Tiles_example :
    (regions : List RegionSpan) × ((partition_source two_lines two_functions ≡ some regions)
      × Tiles 0 10 regions)
partition_source-Tiles_example = partition_source-Tiles two_lines two_functions (omega arith)
