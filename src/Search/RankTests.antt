-- ===== src/Search/RankTests.antt =====
-- Runs of the ranking and of the search, src/search.
use trufflepig.Prelude.{
  map, ℕ, zero, suc, ◌+◌, ◌*◌, ◌/◌, ◌%◌, ◌<◌, ◌≡◌, refl, true, false, Option, none, some, List, [],
  ◌∷◌, get_elem?, compare, arith, length,
}
use trufflepig.Prelude.Texts.{Text, ascii, chars, split_at, split_inclusive}
use trufflepig.Prelude.Sort.{insert_by, sort_by}
use trufflepig.Search.Hits.{Hit, LaneHits}
use trufflepig.Search.PathClass.{is_test_path, has_test_directory}
use trufflepig.Search.PathFilter.{add_include, add_exclude}
use trufflepig.Search.Query.{
  Query, parsed, refused, empty_query, empty_prefixed_query, read_chunk, read_chunks, read_exact,
  read_regex, finish, parse, canonical_language, filename_score, query_terms,
}
use trufflepig.Search.PathPrior.{demoted, full}
use trufflepig.Search.Ranking.{Floats}
use trufflepig.Search.Permute.{permute_in_place, settle_from, settle, swap_both, swap}
use trufflepig.Search.Permute.Cycles.{Valid, permute_in_place-moves}
use trufflepig.Search.Filenames.{file_hits, read_files, push_candidate}
use trufflepig.Search.Rerank.{missing}
use trufflepig.Search.Retrieval as Retrieval
use trufflepig.Search.Retrieval.Unique.{Listed, search_prepared-Listed}

-- The paths of the source's own tests.
test_directory : is_test_path (chars "crates/core/tests/motion.rs") ≡ true
unfolding is_test_path has_test_directory split_at
test_directory = refl

crate_named_test : is_test_path (chars "test/src/lib.rs") ≡ false
unfolding is_test_path has_test_directory split_at
crate_named_test = refl

exact_name : filename_score ascii (chars "core/tick_rate.rs") (chars "tick" ∷ chars "rate" ∷ []) ≡ 3
unfolding filename_score query_terms split_at
exact_name = refl

symbol_query :
    parse ascii (chars "sym:run lang:rs kind:function")
    ≡ parsed (record empty_query {
      text = chars "run";
      exact = true;
      language = chars "rust";
      kind = chars "function";
    })
unfolding parse read_chunks read_chunk finish read_exact read_regex split_inclusive
    canonical_language add_include add_exclude
symbol_query = refl

no_symbol : parse ascii (chars "sym:") ≡ refused empty_prefixed_query
unfolding parse read_chunks read_chunk finish read_exact read_regex split_inclusive
no_symbol = refl

abbrev rotation : List ℕ
rotation = 1 ∷ 2 ∷ 0 ∷ []

abbrev letters : List Text
letters = chars "a" ∷ chars "b" ∷ chars "c" ∷ []

rotated : permute_in_place letters rotation ≡ (chars "c" ∷ chars "a" ∷ chars "b" ∷ [])
unfolding permute_in_place settle_from settle swap_both swap
rotated = refl

rotation_at : (k d : ℕ) → get_elem? rotation k ≡ some d → (k ≡ (d + 2) % 3) × (d < 3)
rotation_at zero d h = ground arith
rotation_at (suc zero) d h = ground arith
rotation_at (suc (suc zero)) d h = ground arith
rotation_at (suc (suc (suc k))) d h = absurd (cc)

rotation-Valid : Valid (record { elements = letters; destinations = rotation })
rotation-Valid = record {
  same_length = refl;
  in_range = λ k d h. (rotation_at k d h).1;
  injective = λ k l d h g. omega (arith, (rotation_at k d h).0, (rotation_at l d g).0);
}

permute_in_place-moves_example :
    (get_elem? (permute_in_place letters rotation) 2 ≡ some (chars "b"))
    × (length (permute_in_place letters rotation) ≡ 3)
permute_in_place-moves_example =
    permute_in_place-moves letters rotation rotation-Valid 1 2 (chars "b") refl refl

-- Scores in thousandths, rounded down.
abbrev thousands : Floats ℕ
thousands = record {
  zero_score = 0;
  triple = 3000;
  double = 2000;
  half = 500;
  unit = 1000;
  of_class = λ c. elim c [ demoted ↦ 700 | full ↦ 1000 ];
  plus = λ a b. a + b;
  times = λ a b. a * b;
  over_rank = λ a rank. a / (61 + rank);
  total_cmp = λ a b. compare a b;
  is_finite = λ a. true;
}

abbrev line_hit : ℕ → Hit
line_hit start = record {
  path = chars "a.rs";
  revision = none;
  start = start;
  end = start + 1;
  name = chars "a";
  kind = chars "region";
  container = none;
  provenance = none;
}

abbrev no_lane : Option LaneHits
no_lane = none

abbrev live : Retrieval.Services ℕ
live = record {
  snapshot = true;
  binds = λ q. true;
  lanes = record {
    exact_hits = λ q. no_lane;
    qualified_hits = λ n q. no_lane;
    occurrence_hits = λ q i. no_lane;
    lexical_hits = λ q t. no_lane;
    file_hits = λ q. no_lane;
  };
  live_regex =
      λ q. some (record { hits = line_hit 4 ∷ line_hit 9 ∷ line_hit 4 ∷ []; truncated = false });
  semantic_query = false;
  retrieve = λ q. no_lane;
  scorer = none;
  limits = record { window = 50; clamp_bytes = 100 };
  bodies = record {
    prepares = true;
    read = λ p s e. missing;
    valid_up_to = length;
    decode = λ b. b;
  };
  attaches = λ hits. true;
  diagnoses = λ q. true;
  commits = true;
}

abbrev pattern_query : Query
pattern_query = record empty_query { text = chars "a+"; regex = true }

abbrev live_result : LaneHits
live_result = record { hits = line_hit 4 ∷ line_hit 9 ∷ []; truncated = false }

live_search : Retrieval.search_prepared thousands ascii live pattern_query ≡ some live_result
unfolding Retrieval.search_prepared Retrieval.first_pass Retrieval.second_pass Retrieval.rerank_pass
    Retrieval.finish Retrieval.limit_hits Retrieval.retain_new
live_search = refl

search_prepared-Listed_example : Listed live_result
search_prepared-Listed_example =
    search_prepared-Listed thousands ascii live pattern_query live_result live_search

abbrev file_query : Query
file_query = record empty_query { text = chars "rate" }

abbrev file_rows : List (Text × Option Text)
file_rows =
    (chars "a/rate.rs", none) ∷ (chars "b/none.rs", none) ∷ (chars "c/tick_rate.rs", none) ∷ []

-- The name that is the query comes before the one that has it among others.
file_hits_run :
    map (λ hit. hit.path) (file_hits ascii file_query file_rows).hits
    ≡ chars "a/rate.rs" ∷ chars "c/tick_rate.rs" ∷ []
unfolding file_hits read_files push_candidate filename_score query_terms split_at insert_by sort_by
file_hits_run = refl
