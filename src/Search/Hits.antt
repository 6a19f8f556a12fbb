-- ===== src/Search/Hits.antt =====
-- src/results.rs and src/search.rs: a hit, and the hits of one lane. Left out of Hit are the fields
-- that the search itself sets to nothing or for display alone (handle, resolution, candidates, target,
-- snippet, repeats) and the lines of its span.
use trufflepig.Prelude.{ℕ, Bool, Option, List, ltb, length, take}
use trufflepig.Prelude.Texts.{Text}

pub record Hit : Type 0 where
  pub path : Text
  pub revision : Option Text
  pub start : ℕ
  pub end : ℕ
  pub name : Text
  pub kind : Text
  pub container : Option Text
  pub provenance : Option Text

pub record LaneHits : Type 0 where
  pub hits : List Hit
  pub truncated : Bool

abbrev pub max_hits : ℕ
max_hits = 10000

abbrev pub file_candidate_limit : ℕ
file_candidate_limit = 1000

unfoldable pub cap_hits : List Hit → ℕ → LaneHits
cap_hits hits limit = record { hits = take limit hits; truncated = ltb limit (length hits) }

unfoldable pub cap_lane : List Hit → LaneHits
unfolding cap_hits
cap_lane hits = cap_hits hits file_candidate_limit
