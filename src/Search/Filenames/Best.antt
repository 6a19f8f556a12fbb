-- ===== src/Search/Filenames/Best.antt =====
-- Which files file_hits of src/search.rs returns, and in which order.
use trufflepig.Prelude.{
  ℕ, ◌≡◌, min, Option, none, some, List, [], ◌∷◌, ◌++◌, map, if◌then◌else◌, ltb, nat_eq, length,
}
use mathlib.Core.List.{Permᴰ}
use trufflepig.Prelude.Texts.{Text, Unicode, chars}
use trufflepig.Search.Query.{Query, filename_score}
use trufflepig.Search.Hits.{LaneHits}
use trufflepig.Search.Filenames.{FilenameCandidate}
use trufflepig.Search.Filenames.Ordered.{InOrder}

-- The hit of a file whose name scores.
abbrev pub found : ℕ → Text → Option Text → FilenameCandidate
found score path revision = record {
  score = score;
  hit = record {
    path = path;
    revision = revision;
    start = 0;
    end = 0;
    name = path;
    kind = chars "file";
    container = none;
    provenance = some (
        if nat_eq score 3
        then chars "filename_exact"
        else if nat_eq score 2
        then chars "filename_tokens"
        else chars "filename_partial");
  };
}

-- The rows whose names score at all.
abbrev pub matching : Unicode → List Text → List (Text × Option Text) → List FilenameCandidate
matching u terms [] = []
matching u terms ((path, revision) ∷ rows) =
    let rest = matching u terms rows in
    let score = filename_score u path terms in
    if nat_eq score 0 then rest else found score path revision ∷ rest

-- The lane has the first `limit` of these, or all, in the order of score and path, and tells whether
-- there were more.
pub record IsBest (limit : ℕ) (all : List FilenameCandidate) (lane : LaneHits) : Type 0 where
  pub kept : List FilenameCandidate
  pub evicted : List FilenameCandidate
  pub hits_are : lane.hits ≡ map (λ c. c.hit) kept
  pub parts : Permᴰ (kept ++ evicted) all
  pub in_order : InOrder (kept ++ evicted)
  pub size : length kept ≡ min limit (length all)
  pub truncation : lane.truncated ≡ ltb limit (length all)
