-- ===== src/Search/Filenames.antt =====
-- src/search.rs, file_hits: the files whose names answer a query, the best 1,000 of them.
-- The rows of the statement (path and revision, in path order) are a parameter. The heap is the list
-- of its candidates from the most useful to the root, which holds the greatest.
pub mod Evicting
pub mod Ordered
pub mod Best
use trufflepig.Prelude.{
  ℕ, Bool, true, false, ◌&&◌, not, Option, none, some, List, [], ◌∷◌, map, if◌then◌else◌, ltb,
  nat_eq, length, compare, Ordering,
}
use trufflepig.Prelude.Sort.{then_with, compare_text, insert_by, sort_by}
use trufflepig.Prelude.Texts.{Text, Unicode, chars, is_word}
use trufflepig.Search.Hits.{Hit, LaneHits, file_candidate_limit}
use trufflepig.Search.Query.{Query, query_terms, filename_score, not_empty}

pub record FilenameCandidate : Type 0 where
  pub score : ℕ
  pub hit : Hit

-- `cmp` of the candidates: the least useful is the greatest.
abbrev pub usefulness : FilenameCandidate → FilenameCandidate → Ordering
usefulness a b = then_with (compare b.score a.score) (
    then_with (compare_text a.hit.path b.hit.path)
      (then_with (compare a.hit.start b.hit.start) (compare a.hit.end b.hit.end)))

abbrev pub provenance_of : ℕ → Text
provenance_of score =
    if nat_eq score 3
    then chars "filename_exact"
    else if nat_eq score 2
    then chars "filename_tokens"
    else chars "filename_partial"

abbrev pub candidate : ℕ → Text → Option Text → FilenameCandidate
candidate score path revision = record {
  score = score;
  hit = record {
    path = path;
    revision = revision;
    start = 0;
    end = 0;
    name = path;
    kind = chars "file";
    container = none;
    provenance = some (provenance_of score);
  };
}

-- `BinaryHeap::pop`, which takes the root.
abbrev pub drop_root {ℓ} : {A : Type ℓ} → List A → List A
drop_root [] = []
drop_root (x ∷ []) = []
drop_root (x ∷ y ∷ xs) = x ∷ drop_root (y ∷ xs)

pub record Heap : Type 0 where
  pub candidates : List FilenameCandidate
  pub truncated : Bool

-- `limit` is FILE_CANDIDATE_LIMIT.
unfoldable pub push_candidate : ℕ → FilenameCandidate → Heap → Heap
unfolding insert_by
push_candidate limit c heap =
    let candidates = insert_by usefulness c heap.candidates in
    if ltb limit (length candidates)
    then record { candidates = drop_root candidates; truncated = true }
    else record { candidates = candidates; truncated = heap.truncated }

unfoldable pub read_files : Unicode → ℕ → List Text → List (Text × Option Text) → Heap → Heap
unfolding push_candidate filename_score
read_files u limit terms [] heap = heap
read_files u limit terms ((path, revision) ∷ rows) heap =
    let score = filename_score u path terms in
    read_files u limit terms rows
      (if nat_eq score 0 then heap else push_candidate limit (candidate score path revision) heap)

abbrev pub by_score : FilenameCandidate → FilenameCandidate → Ordering
by_score a b = then_with (compare b.score a.score) (compare_text a.hit.path b.hit.path)

unfoldable pub file_hits : Unicode → Query → List (Text × Option Text) → LaneHits
unfolding read_files sort_by query_terms
file_hits u query rows =
    let heap =
      read_files u file_candidate_limit (query_terms u query.text) rows
        (record { candidates = []; truncated = false }) in
    if not_empty query.kind && not (is_word query.kind "file")
    then record { hits = []; truncated = false }
    else record {
      hits = map (λ c. c.hit) (sort_by by_score heap.candidates);
      truncated = heap.truncated;
    }
