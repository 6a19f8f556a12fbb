-- ===== src/Search/Retrieval.antt =====
-- src/search.rs, search_prepared, and append of src/search/semantic_lane.rs: one search from the lanes
-- to the hits that are stored.
-- What reads the index, the work tree and the vectors is the record Services, an error as none.
-- Coverage and telemetry are left out, and so are the previews that the snippets add to the hits.
pub mod Unique
use trufflepig.Prelude.{
  ℕ, zero, suc, Bool, true, false, ◌&&◌, ◌||◌, not, Option, none, some, List, [], ◌∷◌, ◌++◌,
  if◌then◌else◌, ltb, nat_eq, length, take,
}
use trufflepig.Prelude.Texts.{Text, Unicode, is_empty, same_text}
use trufflepig.Search.Hits.{Hit, LaneHits, max_hits}
use trufflepig.Search.Query.{Query}
use trufflepig.Search.ConceptQuery.{
  ConceptQuery, Lanes, Collected, concept_lanes, is_file_kind, present_identifier,
}
use trufflepig.Search.ConceptQuery as Concept
use trufflepig.Search.PathPrior.{for_query}
use trufflepig.Search.Ranking.{Floats, FusionPolicy, fuse_search_file_lanes}
use trufflepig.Search.Declarations.{rank_definitions}
use trufflepig.Search.Rerank.{Limits, Bodies, apply}

-- `semantic_lane` gives what `retrieve` finds for the vector of the query, if one was prepared;
-- the scorer is there if the caller asks to rerank.
pub record Services (F : Type 0) : Type 0 where
  pub snapshot : Bool
  pub binds : Query → Bool
  pub lanes : Lanes
  pub live_regex : Query → Option LaneHits
  pub semantic_query : Bool
  pub retrieve : Query → Option LaneHits
  pub scorer : Option (Text → List Text → Option (List F))
  pub limits : Limits
  pub bodies : Bodies
  pub attaches : List Hit → Bool
  pub diagnoses : Query → Bool
  pub commits : Bool

abbrev pub same_site : Hit → Hit → Bool
same_site a b =
    same_text a.path b.path
    && (nat_eq a.start b.start && (nat_eq a.end b.end && same_text a.kind b.kind))

abbrev pub seen_site : Hit → List Hit → Bool
seen_site hit [] = false
seen_site hit (s ∷ seen) = same_site hit s || seen_site hit seen

-- `hits.retain(|hit| seen.insert(…))`
unfoldable pub retain_new : List Hit → List Hit → List Hit
retain_new seen [] = []
retain_new seen (hit ∷ hits) =
    let rest = retain_new (hit ∷ seen) hits in if seen_site hit seen then rest else hit ∷ rest

-- The tail of `search_prepared`, up to the snippets.
unfoldable pub limit_hits : List Hit → Bool → LaneHits
unfolding retain_new
limit_hits hits truncated =
    let kept = retain_new [] hits in
    record { hits = take max_hits kept; truncated = truncated || ltb max_hits (length kept) }

module _ {F : Type 0} (f : Floats F) (u : Unicode) (s : Services F) where
  abbrev pub policy_of : Query → FusionPolicy
  policy_of query = record {
    lane_weights = true;
    identifier_tier = present_identifier (Concept.parse u query.text);
    prior = for_query u query;
    prior_from_lane = 0;
  }

  abbrev pub refusion_of : Query → FusionPolicy
  refusion_of query = record (policy_of query) { lane_weights = false; prior_from_lane = 1 }

  abbrev pub fused : Query → List (List Hit) → Bool → LaneHits
  fused query lanes truncated = record {
    hits = fuse_search_file_lanes f u (policy_of query) lanes;
    truncated = truncated;
  }

  -- The branches of `search_prepared` that follow the exact lane.
  unfoldable pub lexical : Query → LaneHits → Option LaneHits
  unfolding concept_lanes fuse_search_file_lanes rank_definitions Concept.parse
  lexical query exact =
      let by_concept : Option LaneHits =
        elim (concept_lanes u s.lanes query (Concept.parse u query.text) exact) [
          | none ↦ none
          | some c ↦ some (fused query c.lanes c.truncated)
        ] in
      let by_file : Option LaneHits = elim (s.lanes.file_hits query) [
        | none ↦ none
        | some files ↦
            some (fused query (exact.hits ∷ files.hits ∷ []) (exact.truncated || files.truncated))
      ] in
      if not query.exact && not (is_empty query.text)
      then by_concept
      else if not query.exact && is_file_kind query
      then by_file
      else if query.exact
      then some (record exact { hits = rank_definitions [] exact.hits })
      else some exact

  unfoldable pub first_pass : Query → Option LaneHits
  unfolding lexical
  first_pass query =
      if query.regex
      then s.live_regex query
      else elim (s.lanes.exact_hits query) [ none ↦ none | some exact ↦ lexical query exact ]

  -- `append`, which keeps the lexical hits when the vectors cannot be read.
  unfoldable pub append : Query → LaneHits → LaneHits
  unfolding fuse_search_file_lanes
  append query found = elim (s.retrieve query) [
    | none ↦ found
    | some semantic ↦ record {
      hits = fuse_search_file_lanes f u (refusion_of query) (found.hits ∷ semantic.hits ∷ []);
      truncated = found.truncated || semantic.truncated;
    }
  ]

  unfoldable pub second_pass : Query → LaneHits → LaneHits
  unfolding append Concept.parse
  second_pass query found =
      let literal = (Concept.parse u query.text).literal in
      if not query.exact && (not query.regex && (not literal && s.semantic_query))
      then append query found
      else found

  unfoldable pub rerank_pass : Query → LaneHits → LaneHits
  unfolding apply
  rerank_pass query found = elim s.scorer [
    | none ↦ found
    | some scorer ↦ record found {
      hits = (apply f s.limits s.bodies scorer u (policy_of query) query.text found.hits).0;
    }
  ]

  unfoldable pub finish : Query → LaneHits → Option LaneHits
  unfolding limit_hits
  finish query found =
      let limited = limit_hits found.hits found.truncated in
      if s.attaches limited.hits
        && ((not (is_empty limited.hits) || s.diagnoses query) && s.commits)
      then some limited
      else none

  unfoldable pub search_prepared : Query → Option LaneHits
  unfolding first_pass second_pass rerank_pass finish
  search_prepared query = elim (s.snapshot && s.binds query) [
    | false ↦ none
    | true ↦ elim (first_pass query) [
      | none ↦ none
      | some found ↦ finish query (rerank_pass query (second_pass query found))
    ]
  ]
