-- ===== src/Search/Rerank.antt =====
-- src/search/rerank_window.rs: the first hits of a result reordered by a scorer.
-- The scorer, the bodies of the index and the check of UTF-8 are parameters. `coverage` is kept as the
-- status that `apply` writes to it; the trace is left out.
use trufflepig.Prelude.{
  ℕ, zero, suc, ◌+◌, Bool, true, false, ◌||◌, Option, none, some, List, [], ◌∷◌, ◌++◌,
  if◌then◌else◌, nat_eq, length, take, drop, get_elem?, set, count_from, compare, Ordering, min,
}
use trufflepig.Prelude.Sort.{then_with, compare_bool, sort_by}
use trufflepig.Prelude.Texts.{Text, Unicode, is_empty}
use trufflepig.Search.Hits.{Hit}
use trufflepig.Search.Ranking.{Floats, FusionPolicy, evidence_of, tier}
use trufflepig.Search.Permute.{permute_in_place}

-- RERANK_WINDOW and BODY_CLAMP_BYTES, limits of src/semantic.
pub record Limits : Type 0 where
  pub window : ℕ
  pub clamp_bytes : ℕ

-- The row of one statement.
pub data Read : Type 0 where
  unreadable missing : Read
  body : List ℕ → Read

-- `valid_up_to` is the length of the longest prefix that is UTF-8, and `decode` its text.
pub record Bodies : Type 0 where
  pub prepares : Bool
  pub read : Text → ℕ → ℕ → Read
  pub valid_up_to : List ℕ → ℕ
  pub decode : List ℕ → Text

pub data RerankStatus : Type 0 where
  skipped unavailable : RerankStatus
  ready : ℕ → RerankStatus

pub record Fetched : Type 0 where
  pub documents : List Text
  pub scored_positions : List ℕ

unfoldable pub clamp_document : Limits → Bodies → List ℕ → Option Text
clamp_document limits bodies bytes =
    let clamped = take limits.clamp_bytes bytes in
    let end = bodies.valid_up_to clamped in
    if nat_eq end 0 then none else some (bodies.decode (take end clamped))

unfoldable pub read_body : Limits → Bodies → Hit → Read
read_body limits bodies hit =
    if nat_eq hit.start hit.end
    then bodies.read hit.path 0 limits.clamp_bytes
    else bodies.read hit.path hit.start hit.end

-- The loop of `fetch_window_bodies`; `none` is a read error.
unfoldable pub fetch_bodies : Limits → Bodies → ℕ → List Hit → Option Fetched
unfolding read_body clamp_document
fetch_bodies limits bodies position [] = some (record { documents = []; scored_positions = [] })
fetch_bodies limits bodies position (hit ∷ hits) =
    let rest = fetch_bodies limits bodies (position + 1) hits in
    elim (read_body limits bodies hit) [
      | unreadable ↦ none
      | missing ↦ rest
      | body bytes ↦ elim (clamp_document limits bodies bytes) [
        | none ↦ rest
        | some text ↦ elim rest [
          | none ↦ none
          | some f ↦ some (record {
            documents = text ∷ f.documents;
            scored_positions = position ∷ f.scored_positions;
          })
        ]
      ]
    ]

unfoldable pub fetch_window_bodies : Limits → Bodies → List Hit → ℕ → Option Fetched
unfolding fetch_bodies
fetch_window_bodies limits bodies hits window =
    if bodies.prepares then fetch_bodies limits bodies 0 (take window hits) else none

abbrev pub nones : {A : Type 0} → ℕ → List (Option A)
nones zero = []
nones (suc n) = none ∷ nones n

abbrev pub zeros : ℕ → List ℕ
zeros zero = []
zeros (suc n) = 0 ∷ zeros n

-- `destinations[source] = target` for the sources in turn.
unfoldable pub invert : ℕ → List ℕ → List ℕ → List ℕ
invert target [] destinations = destinations
invert target (source ∷ sources) destinations =
    invert (target + 1) sources (set destinations source target)

abbrev pub flat : {A : Type 0} → Option (Option A) → Option A
flat none = none
flat (some o) = o

abbrev pub present : {A : Type 0} → Option A → Bool
present none = false
present (some a) = true

-- `iter().flatten().count()`
abbrev pub count_present : {A : Type 0} → List (Option A) → ℕ
count_present [] = 0
count_present (none ∷ os) = count_present os
count_present (some a ∷ os) = suc (count_present os)

module _ {F : Type 0} (f : Floats F) where
  -- `zip` of the positions and the scores.
  unfoldable pub write_scores : List ℕ → List F → List (Option F) → List (Option F)
  write_scores [] scores window_scores = window_scores
  write_scores (position ∷ positions) [] window_scores = window_scores
  write_scores (position ∷ positions) (score ∷ scores) window_scores =
      write_scores positions scores
        (set window_scores position (if f.is_finite score then some score else none))

  abbrev pub compare_scores : Option F → Option F → Ordering
  compare_scores (some left) (some right) = f.total_cmp right left
  compare_scores (some left) none = compare_bool false true
  compare_scores none (some right) = compare_bool true false
  compare_scores none none = compare_bool false false

  abbrev pub tier_at : Unicode → FusionPolicy → List Hit → ℕ → ℕ
  tier_at u policy hits i = elim (get_elem? hits i) [
    | none ↦ 0
    | some hit ↦ tier (evidence_of u policy hit)
  ]

  unfoldable pub compare_sources :
      Unicode → FusionPolicy → List Hit → List (Option F) → ℕ → ℕ → Ordering
  unfolding tier evidence_of
  compare_sources u policy hits window_scores left right =
      then_with (compare (tier_at u policy hits left) (tier_at u policy hits right)) (
        then_with
          (compare_scores (flat (get_elem? window_scores left))
            (flat (get_elem? window_scores right)))
          (compare left right))

  unfoldable pub sorted_sources : Unicode → FusionPolicy → List Hit → List (Option F) → ℕ → List ℕ
  unfolding compare_sources sort_by
  sorted_sources u policy hits window_scores window =
      sort_by (compare_sources u policy hits window_scores) (count_from 0 window)

  -- `hits[..window]` moved, the others left in place.
  unfoldable pub reorder : List ℕ → List Hit → ℕ → List Hit
  unfolding invert permute_in_place
  reorder sources hits window =
      permute_in_place (take window hits) (invert 0 sources (zeros window)) ++ drop window hits

  unfoldable pub apply_scores :
      Unicode → FusionPolicy → List Hit → ℕ → Fetched → List F → List Hit × RerankStatus
  unfolding write_scores sorted_sources reorder
  apply_scores u policy hits window fetched scores =
      let window_scores = write_scores fetched.scored_positions scores (nones window) in
      let sources = sorted_sources u policy hits window_scores window in
      if nat_eq (length scores) (length fetched.documents)
      then (reorder sources hits window, ready (count_present window_scores))
      else (hits, unavailable)

  unfoldable pub apply :
      Limits
      → Bodies
      → (Text → List Text → Option (List F))
      → Unicode
      → FusionPolicy
      → Text
      → List Hit
      → List Hit × RerankStatus
  unfolding fetch_window_bodies apply_scores
  apply limits bodies scorer u policy query_text hits =
      let window = min (length hits) limits.window in
      if is_empty query_text || is_empty hits
      then (hits, skipped)
      else elim (fetch_window_bodies limits bodies hits window) [
        | none ↦ (hits, unavailable)
        | some fetched ↦
            if is_empty fetched.documents
            then (hits, skipped)
            else elim (scorer query_text fetched.documents) [
              | none ↦ (hits, unavailable)
              | some scores ↦ apply_scores u policy hits window fetched scores
            ]
      ]
