-- ===== src/Search/Ranking/Files.antt =====
-- The files that src/search/file_ranking.rs fuses lanes to: one hit for each.
use trufflepig.Prelude.{
  ℕ, ◌+◌, ◌≡◌, refl, sym, ap, subst, ◌∙◌, Bool, true, false, ◌||◌, List, [], ◌∷◌, ◌++◌, map,
  if◌then◌else◌, arith, Bool-cases, inl, inr,
}
use trufflepig.Prelude.Sort.{sort_by, sort_by-perm}
use trufflepig.Prelude.Texts.{Text, Unicode, same_text, some_of}
use trufflepig.Prelude.SameText.{
  same_text-eq, same_text-sym, has_text, DistinctTexts, has_text-append, has_text-Permᴰ,
  DistinctTexts-Permᴰ,
}
use trufflepig.Search.Hits.{Hit}
use trufflepig.Search.Ranking.FirstFiles.{path_of, is_among_first, has_text-representatives}
use trufflepig.Search.Ranking.{
  Floats, FusionPolicy, FileScore, update_score, new_score, add_hit, add_hits, add_lanes,
  compare_files, fuse_search_file_lanes, representatives,
}
use mathlib.Core.List.{Permᴰ}

map-Permᴰ : {A B : Type 0} (g : A → B) {xs ys : List A} → Permᴰ xs ys → Permᴰ (map g xs) (map g ys)
map-Permᴰ g Permᴰ.nil = Permᴰ.nil
map-Permᴰ g (Permᴰ.cons e p) = Permᴰ.cons (ap g e) (map-Permᴰ g p)
map-Permᴰ g (Permᴰ.swap e f) = Permᴰ.swap (ap g e) (ap g f)
map-Permᴰ g (Permᴰ.trans p q) = Permᴰ.trans (map-Permᴰ g p) (map-Permᴰ g q)

Permᴰ-sym : {A : Type 0} {xs ys : List A} → Permᴰ xs ys → Permᴰ ys xs
Permᴰ-sym Permᴰ.nil = Permᴰ.nil
Permᴰ-sym (Permᴰ.cons e p) = Permᴰ.cons (sym e) (Permᴰ-sym p)
Permᴰ-sym (Permᴰ.swap e f) = Permᴰ.swap (sym f) (sym e)
Permᴰ-sym (Permᴰ.trans p q) = Permᴰ.trans (Permᴰ-sym q) (Permᴰ-sym p)

module _ {F : Type 0} where
  abbrev keys_of : List (Text × FileScore F) → List Text
  keys_of [] = []
  keys_of ((path, s) ∷ files) = path ∷ keys_of files

  -- The representative of a file is a hit in it.
  abbrev Keyed : List (Text × FileScore F) → Type 0
  Keyed [] = Unit
  Keyed ((path, s) ∷ files) = (s.representative.path ≡ path) × Keyed files

  abbrev file_of : FileScore F → Text
  file_of s = s.representative.path

  Keyed-keys_of :
      (files : List (Text × FileScore F))
      → Keyed files
      → map file_of (map (λ entry. entry.1) files) ≡ keys_of files
  Keyed-keys_of [] k = refl
  Keyed-keys_of ((path, s) ∷ files) (e, k) = λ i. e i ∷ Keyed-keys_of files k i

-- The files of what the lanes are cut to.
abbrev files_of : List (List Hit) → List Text
files_of [] = []
files_of (lane ∷ lanes) = map path_of (representatives lane) ++ files_of lanes

has_text-files_of :
    (t : Text) (lanes : List (List Hit))
    → has_text t (files_of lanes) ≡ some_of (is_among_first 1_000 t) lanes
has_text-files_of t [] = refl
has_text-files_of t (lane ∷ lanes) =
    has_text-append t (map path_of (representatives lane)) (files_of lanes)
    ∙ ap (λ b. b || has_text t (files_of lanes)) (has_text-representatives t lane)
    ∙ ap (λ b. is_among_first 1_000 t lane || b) (has_text-files_of t lanes)

if_file :
    (b : Bool) (x y : Hit) (t : Text) → x.path ≡ t → y.path ≡ t → (if b then x else y).path ≡ t
if_file true x y t p q = p
if_file false x y t p q = q

module _ {F : Type 0} (f : Floats F) (u : Unicode) (policy : FusionPolicy) where
  update_score-file :
      (lane_index file_rank : ℕ) (hit : Hit) (s : FileScore F)
      → s.representative.path ≡ hit.path
      → (update_score f u policy lane_index file_rank hit s).representative.path ≡ hit.path
  unfolding update_score
  update_score-file lane_index file_rank hit s e = if_file _ hit s.representative hit.path refl e

  module _ (lane_index file_rank : ℕ) (hit : Hit) where
    add_hit-Keyed :
        (files : List (Text × FileScore F))
        → Keyed files
        → Keyed (add_hit f u policy lane_index file_rank hit files)
    unfolding add_hit
    add_hit-Keyed [] k = (
      update_score-file lane_index file_rank hit (new_score f u policy lane_index file_rank hit)
          refl,
      tt,
    )
    add_hit-Keyed ((path, s) ∷ files) (e, k) = elim (Bool-cases (same_text hit.path path)) [
      | inl same ↦
          let at_file : hit.path ≡ path = same_text-eq hit.path path same in
          rw same (update_score-file lane_index file_rank hit s (e ∙ sym at_file) ∙ at_file, k)
      | inr other ↦ rw other (e, add_hit-Keyed files k)
    ]

    has_text-add_hit :
        (t : Text) (files : List (Text × FileScore F))
        → has_text t (keys_of (add_hit f u policy lane_index file_rank hit files))
          ≡ (has_text t (keys_of files) || same_text t hit.path)
    unfolding add_hit
    has_text-add_hit t [] = ground arith
    has_text-add_hit t ((path, s) ∷ files) = elim (Bool-cases (same_text hit.path path)) [
      | inl same ↦
          let at_file : hit.path ≡ path = same_text-eq hit.path path same in
          rw (same, at_file) (ground arith)
      | inr other ↦ rw (other, has_text-add_hit t files) (ground arith)
    ]

    add_hit-Distinct :
        (files : List (Text × FileScore F))
        → DistinctTexts (keys_of files)
        → DistinctTexts (keys_of (add_hit f u policy lane_index file_rank hit files))
    unfolding add_hit
    add_hit-Distinct [] d = (refl, tt)
    add_hit-Distinct ((path, s) ∷ files) (fresh, d) = elim (Bool-cases (same_text hit.path path)) [
      | inl same ↦ rw same (fresh, d)
      | inr other ↦
          let apart : same_text path hit.path ≡ false = same_text-sym path hit.path ∙ other in
          let kept = has_text-add_hit path files in
          rw other (kept ∙ ground (arith, fresh, apart), add_hit-Distinct files d)
    ]

  -- What every state of the map of files has.
  abbrev Good : List (Text × FileScore F) → Type 0
  Good files = Keyed files × DistinctTexts (keys_of files)

  add_hits-Good :
      (lane_index file_rank : ℕ) (hits : List Hit) (files : List (Text × FileScore F))
      → Good files
      → Good (add_hits f u policy lane_index file_rank hits files)
  unfolding add_hits
  add_hits-Good lane_index file_rank [] files g = g
  add_hits-Good lane_index file_rank (hit ∷ hits) files (k, d) =
      add_hits-Good lane_index (file_rank + 1) hits
        (add_hit f u policy lane_index file_rank hit files)
        (
          add_hit-Keyed lane_index file_rank hit files k,
          add_hit-Distinct lane_index file_rank hit files d,
        )

  has_text-add_hits :
      (t : Text) (lane_index file_rank : ℕ) (hits : List Hit) (files : List (Text × FileScore F))
      → has_text t (keys_of (add_hits f u policy lane_index file_rank hits files))
        ≡ (has_text t (keys_of files) || has_text t (map path_of hits))
  unfolding add_hits
  has_text-add_hits t lane_index file_rank [] files = ground arith
  has_text-add_hits t lane_index file_rank (hit ∷ hits) files =
      has_text-add_hits t lane_index (file_rank + 1) hits
        (add_hit f u policy lane_index file_rank hit files)
      ∙ rw (has_text-add_hit lane_index file_rank hit t files) (ground arith)

  add_lanes-Good :
      (lane_index : ℕ) (lanes : List (List Hit)) (files : List (Text × FileScore F))
      → Good files
      → Good (add_lanes f u policy lane_index lanes files)
  unfolding add_lanes
  add_lanes-Good lane_index [] files g = g
  add_lanes-Good lane_index (lane ∷ lanes) files g =
      add_lanes-Good (lane_index + 1) lanes
        (add_hits f u policy lane_index 0 (representatives lane) files)
        (add_hits-Good lane_index 0 (representatives lane) files g)

  has_text-add_lanes :
      (t : Text) (lane_index : ℕ) (lanes : List (List Hit)) (files : List (Text × FileScore F))
      → has_text t (keys_of (add_lanes f u policy lane_index lanes files))
        ≡ (has_text t (keys_of files) || has_text t (files_of lanes))
  unfolding add_lanes
  has_text-add_lanes t lane_index [] files = ground arith
  has_text-add_lanes t lane_index (lane ∷ lanes) files =
      let first = map path_of (representatives lane) in
      has_text-add_lanes t (lane_index + 1) lanes
        (add_hits f u policy lane_index 0 (representatives lane) files)
      ∙ rw
          (
            has_text-add_hits t lane_index 0 (representatives lane) files,
            has_text-append t first (files_of lanes),
          )
          (ground arith)

  map_path-representative :
      (scores : List (FileScore F))
      → map path_of (map (λ s. s.representative) scores) ≡ map file_of scores
  map_path-representative [] = refl
  map_path-representative (s ∷ scores) =
      ap (λ ts. s.representative.path ∷ ts) (map_path-representative scores)

  -- Fused lanes hold one hit for each file: no two of the hits are in one file, and a file has a hit
  -- exactly when some lane has one in it, behind hits in fewer than 1,000 other files, however many
  -- hits those are.
  pub fuse_search_file_lanes-files :
      (lanes : List (List Hit))
      → DistinctTexts (map path_of (fuse_search_file_lanes f u policy lanes))
        × ((t : Text)
            → has_text t (map path_of (fuse_search_file_lanes f u policy lanes))
              ≡ some_of (is_among_first 1_000 t) lanes)
  unfolding fuse_search_file_lanes
  fuse_search_file_lanes-files lanes =
      let entries = add_lanes f u policy 0 lanes [] in
      let scores = map (λ entry. entry.1) entries in
      let (keyed, distinct) = add_lanes-Good 0 lanes [] (tt, tt) in
      let keys = Keyed-keys_of entries keyed in
      let perm = map-Permᴰ file_of (sort_by-perm (compare_files f u policy) scores) in
      let paths = map_path-representative (sort_by (compare_files f u policy) scores) in
      (
        subst DistinctTexts (sym paths)
            (DistinctTexts-Permᴰ (Permᴰ-sym perm) (subst DistinctTexts (sym keys) distinct)),
        λ t.
            ap (has_text t) paths
            ∙ has_text-Permᴰ t perm
            ∙ ap (has_text t) keys
            ∙ has_text-add_lanes t 0 lanes []
            ∙ has_text-files_of t lanes,
      )
