-- ===== src/Search/Ranking.antt =====
-- src/search/file_ranking.rs: ranked lanes fused to one hit for each file.
-- A score is a value of a type F with the operations that the source makes of f64 (Floats). The map
-- of files is a list of entries in the order in which they were made: the sort that follows decides
-- by the path last, so that the order of the map does not show.
pub mod FirstFiles
pub mod Files
use trufflepig.Prelude.{
  ℕ, ◌+◌, Bool, false, ◌&&◌, ◌||◌, not, none, some, List, [], ◌∷◌, map, if◌then◌else◌, ltb, leb,
  nat_eq, take, compare, Ordering,
}
use trufflepig.Prelude.Sort.{then_with, compare_text, sort_by}
use trufflepig.Prelude.Texts.{Text, Unicode, chars, same_text, is_one_of}
use trufflepig.Search.Hits.{Hit, file_candidate_limit}
use trufflepig.Search.PathPrior.{PathPrior, WeightClass, names_exactly, weight}

pub record Floats (F : Type 0) : Type 0 where
  pub zero_score : F
  pub triple : F
  pub double : F
  pub half : F
  pub unit : F
  pub of_class : WeightClass → F
  pub plus : F → F → F
  pub times : F → F → F
  -- Divided by `RRF_K + file_rank as f64 + 1.0`.
  pub over_rank : F → ℕ → F
  pub total_cmp : F → F → Ordering
  pub is_finite : F → Bool

pub record FusionPolicy : Type 0 where
  pub lane_weights : Bool
  pub identifier_tier : Bool
  pub prior : PathPrior
  pub prior_from_lane : ℕ

pub data IdentifierEvidence : Type 0 where
  absent used defined named : IdentifierEvidence

pub data FileEvidence : Type 0 where
  absent used defined named phrase : FileEvidence

-- The derived order of IdentifierEvidence.
abbrev pub strength : IdentifierEvidence → ℕ
strength absent = 0
strength used = 1
strength defined = 2
strength named = 3

abbrev pub stronger : IdentifierEvidence → IdentifierEvidence → IdentifierEvidence
stronger a b = if ltb (strength b) (strength a) then a else b

unfoldable pub is_local_kind : Text → Bool
is_local_kind kind = is_one_of kind ("variable" ∷ "parameter" ∷ "import" ∷ [])

abbrev pub has_provenance : Hit → List Text → Bool
has_provenance hit [] = false
has_provenance hit (word ∷ rest) =
    elim hit.provenance [ none ↦ false | some provenance ↦ same_text provenance word ]
    || has_provenance hit rest

unfoldable pub evidence_of : Unicode → FusionPolicy → Hit → FileEvidence
unfolding names_exactly is_local_kind
evidence_of u policy hit =
    let exact = has_provenance hit (chars "exact_identifier" ∷ []) in
    if policy.identifier_tier && names_exactly u policy.prior hit.path
    then FileEvidence.named
    else if has_provenance hit (chars "phrase" ∷ [])
    then phrase
    else if not policy.identifier_tier
    then FileEvidence.absent
    else if exact && not (is_local_kind hit.kind)
    then FileEvidence.defined
    else if exact || has_provenance hit (chars "identifier_occurrence" ∷ [])
    then FileEvidence.used
    else FileEvidence.absent

unfoldable pub identifier_evidence : FileEvidence → IdentifierEvidence
identifier_evidence FileEvidence.absent = IdentifierEvidence.absent
identifier_evidence FileEvidence.used = IdentifierEvidence.used
identifier_evidence FileEvidence.defined = IdentifierEvidence.defined
identifier_evidence FileEvidence.named = IdentifierEvidence.named
identifier_evidence phrase = IdentifierEvidence.absent

unfoldable pub tier : FileEvidence → ℕ
tier FileEvidence.absent = 2
tier FileEvidence.used = 1
tier FileEvidence.defined = 0
tier FileEvidence.named = 0
tier phrase = 0

pub record FileScore (F : Type 0) : Type 0 where
  pub score : F
  pub evidence : IdentifierEvidence
  pub representative_evidence : FileEvidence
  pub representative : Hit
  pub representative_lane : ℕ
  pub representative_rank : ℕ

-- `(a, b) < (c, d)`
abbrev pub pair_below : ℕ → ℕ → ℕ → ℕ → Bool
pair_below a b c d = ltb a c || (nat_eq a c && ltb b d)

abbrev pub has_path : Text → List Hit → Bool
has_path path [] = false
has_path path (hit ∷ hits) = same_text path hit.path || has_path path hits

-- The first hit of each path, in the order of the lane: the map of `representatives`, and its sort
-- by rank. The ranks differ, so that the further keys of that sort decide nothing.
unfoldable pub first_hits : List Hit → List Hit → List Hit
first_hits seen [] = []
first_hits seen (hit ∷ hits) =
    let rest = first_hits (hit ∷ seen) hits in if has_path hit.path seen then rest else hit ∷ rest

unfoldable pub representatives : List Hit → List Hit
unfolding first_hits
representatives lane = take file_candidate_limit (first_hits [] lane)

module _ {F : Type 0} (f : Floats F) (u : Unicode) (policy : FusionPolicy) where
  unfoldable pub lane_weight : Hit → F
  unfolding is_local_kind
  lane_weight hit =
      if has_provenance hit (chars "exact_identifier" ∷ [])
        && (policy.identifier_tier && not (is_local_kind hit.kind))
      then f.triple
      else if has_provenance hit (chars "phrase" ∷ chars "filename_exact" ∷ [])
      then f.double
      else if has_provenance hit (chars "filename_partial" ∷ [])
      then f.half
      else f.unit

  -- What `or_insert_with` makes.
  abbrev pub new_score : ℕ → ℕ → Hit → FileScore F
  new_score lane_index file_rank hit = record {
    score = f.zero_score;
    evidence = IdentifierEvidence.absent;
    representative_evidence = evidence_of u policy hit;
    representative = hit;
    representative_lane = lane_index;
    representative_rank = file_rank;
  }

  unfoldable pub contribution : ℕ → ℕ → Hit → F
  unfolding lane_weight weight
  contribution lane_index file_rank hit =
      let lane_factor = if policy.lane_weights then lane_weight hit else f.unit in
      let prior =
        if leb policy.prior_from_lane lane_index
        then f.of_class (weight u policy.prior hit.path)
        else f.unit in
      f.over_rank (f.times lane_factor prior) file_rank

  -- What the body of the inner loop does to the entry of the file.
  unfoldable pub update_score : ℕ → ℕ → Hit → FileScore F → FileScore F
  unfolding contribution evidence_of identifier_evidence tier
  update_score lane_index file_rank hit s =
      let evidence = evidence_of u policy hit in
      let better = ltb (tier evidence) (tier s.representative_evidence) in
      let tied = nat_eq (tier evidence) (tier s.representative_evidence) in
      let earlier = pair_below lane_index file_rank s.representative_lane s.representative_rank in
      let replaced = better || (tied && earlier) in
      record {
        score = f.plus s.score (contribution lane_index file_rank hit);
        evidence = stronger s.evidence (identifier_evidence evidence);
        representative_evidence = if replaced then evidence else s.representative_evidence;
        representative = if replaced then hit else s.representative;
        representative_lane = if replaced then lane_index else s.representative_lane;
        representative_rank = if replaced then file_rank else s.representative_rank;
      }

  -- `files.entry(hit.path)`, the new entry last.
  unfoldable pub add_hit : ℕ → ℕ → Hit → List (Text × FileScore F) → List (Text × FileScore F)
  unfolding update_score
  add_hit lane_index file_rank hit [] =
      (hit.path, update_score lane_index file_rank hit (new_score lane_index file_rank hit)) ∷ []
  add_hit lane_index file_rank hit ((path, s) ∷ files) =
      let rest = add_hit lane_index file_rank hit files in
      if same_text hit.path path
      then (path, update_score lane_index file_rank hit s) ∷ files
      else (path, s) ∷ rest

  unfoldable pub add_hits : ℕ → ℕ → List Hit → List (Text × FileScore F) → List (Text × FileScore F)
  unfolding add_hit
  add_hits lane_index file_rank [] files = files
  add_hits lane_index file_rank (hit ∷ hits) files =
      add_hits lane_index (file_rank + 1) hits (add_hit lane_index file_rank hit files)

  unfoldable pub add_lanes :
      ℕ → List (List Hit) → List (Text × FileScore F) → List (Text × FileScore F)
  unfolding add_hits representatives
  add_lanes lane_index [] files = files
  add_lanes lane_index (lane ∷ lanes) files =
      add_lanes (lane_index + 1) lanes (add_hits lane_index 0 (representatives lane) files)

  unfoldable pub compare_files : FileScore F → FileScore F → Ordering
  compare_files a b =
      let x = a.representative in
      let y = b.representative in
      then_with (compare (strength b.evidence) (strength a.evidence)) (
        then_with (f.total_cmp b.score a.score) (
          then_with (compare_text x.path y.path) (
            then_with (compare x.start y.start)
              (then_with (compare x.end y.end) (compare_text x.kind y.kind)))))

  unfoldable pub fuse_search_file_lanes : List (List Hit) → List Hit
  unfolding add_lanes sort_by compare_files
  fuse_search_file_lanes lanes =
      map (λ s. s.representative)
        (sort_by compare_files (map (λ entry. entry.1) (add_lanes 0 lanes [])))
