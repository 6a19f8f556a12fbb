-- ===== src/Search/FuseTests.antt =====
-- Runs of the fusion of lanes and of concept queries, src/search/file_ranking.rs and
-- src/search/concept_query.rs.
use trufflepig.Prelude.{
  ℕ, ◌+◌, ◌*◌, ◌/◌, ◌≡◌, refl, true, false, none, some, List, [], ◌∷◌, compare, map,
}
use trufflepig.Prelude.Sort.{sort_by, insert_by}
use trufflepig.Prelude.Texts.{Text, ascii, chars, some_of, split_at, split_colons}
use trufflepig.Prelude.SameText.{has_text, DistinctTexts}
use trufflepig.Search.Ranking.FirstFiles.{path_of, is_among_first}
use trufflepig.Search.Ranking.Files.{fuse_search_file_lanes-files}
use trufflepig.Search.Hits.{Hit}
use trufflepig.Search.PathClass.{is_test_path, is_doc_pointer_path, has_test_directory}
use trufflepig.Search.Query.{word_terms, fts_terms, filename_score, query_terms}
use trufflepig.Search.ConceptQuery.{is_literal, is_camel, parse_identifier}
use trufflepig.Search.ConceptQuery as Concept
use trufflepig.Search.PathPrior.{demoted, full, names, names_exactly, weight}
use trufflepig.Search.Ranking.{
  Floats, FusionPolicy, evidence_of, identifier_evidence, tier, is_local_kind, first_hits,
  representatives, lane_weight, contribution, update_score, add_hit, add_hits, add_lanes,
  compare_files, fuse_search_file_lanes,
}

abbrev thousandths : Floats ℕ
thousandths = record {
  zero_score = 0;
  triple = 3000;
  double = 2000;
  half = 500;
  unit = 1000;
  of_class = λ c. elim c [ demoted ↦ 700 | full ↦ 1000 ];
  plus = λ a b. a + b;
  times = λ a b. a * b;
  over_rank = λ a rank. a / (61 + rank);
  total_cmp = λ a b. compare a b;
  is_finite = λ a. true;
}

abbrev weighted : FusionPolicy
weighted = record {
  lane_weights = true;
  identifier_tier = false;
  prior = record { demote_tests = false; demote_docs = false; exempt_named = false; terms = [] };
  prior_from_lane = 0;
}

abbrev lane_hit : Text → Text → Hit
lane_hit path provenance = record {
  path = path;
  revision = none;
  start = 0;
  end = 1;
  name = path;
  kind = chars "region";
  container = none;
  provenance = some provenance;
}

-- The phrase lane outweighs the first rank of the lexical lane.
phrase_first :
    map
      (λ hit. hit.path)
      (fuse_search_file_lanes thousandths ascii weighted (
        (lane_hit (chars "b") (chars "phrase") ∷ [])
        ∷ (lane_hit (chars "a") (chars "lexical") ∷ lane_hit (chars "b") (chars "lexical") ∷ [])
        ∷ []))
    ≡ (chars "b" ∷ chars "a" ∷ [])
unfolding fuse_search_file_lanes add_lanes add_hits add_hit update_score contribution lane_weight
    evidence_of identifier_evidence tier is_local_kind first_hits representatives compare_files
    names_exactly names weight is_test_path is_doc_pointer_path has_test_directory filename_score
    query_terms split_at sort_by insert_by
phrase_first = refl

qualified_concept :
    (Concept.parse ascii (chars "Store::open")).identifier
    ≡ some (record { name = chars "open"; qualifier = some (chars "Store") })
unfolding Concept.parse is_literal parse_identifier is_camel word_terms fts_terms split_at
    split_colons
qualified_concept = refl

literal_concept :
    (Concept.parse ascii (b'"' ∷ b'a' ∷ b' ' ∷ b'b' ∷ b'"' ∷ [])).phrase
    ≡ some (b'"' ∷ b'a' ∷ b' ' ∷ b'b' ∷ b'"' ∷ [])
unfolding Concept.parse is_literal word_terms split_at
literal_concept = refl

abbrev two_lanes : List (List Hit)
two_lanes =
    (lane_hit (chars "b") (chars "phrase") ∷ [])
    ∷ (lane_hit (chars "a") (chars "lexical") ∷ lane_hit (chars "b") (chars "lexical") ∷ [])
    ∷ []

fuse_search_file_lanes-files_example :
    DistinctTexts (map path_of (fuse_search_file_lanes thousandths ascii weighted two_lanes))
    × ((t : Text)
        → has_text t (map path_of (fuse_search_file_lanes thousandths ascii weighted two_lanes))
          ≡ some_of (is_among_first 1_000 t) two_lanes)
fuse_search_file_lanes-files_example =
    fuse_search_file_lanes-files thousandths ascii weighted two_lanes
