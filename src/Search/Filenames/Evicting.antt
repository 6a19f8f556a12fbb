-- ===== src/Search/Filenames/Evicting.antt =====
-- The heap of file_hits of src/search.rs, which evicts, against a full sort.
use trufflepig.Prelude.{
  ℕ, zero, suc, ◌≤◌, ◌≡◌, refl, ap, true, false, ◌&&◌, not, map, Option, List, [], ◌∷◌,
  if◌then◌else◌, ltb, ltb→lt, nat_eq, length, take, arith, Bool-cases, inl, inr, length-take,
  Ordering,
}
use trufflepig.Prelude.Sort.{insert_by, is_gt, sort_by}
use trufflepig.Prelude.Texts.{Text, Unicode, is_word}
use trufflepig.Search.Query.{Query, filename_score, query_terms, not_empty}
use trufflepig.Search.Hits.{LaneHits, file_candidate_limit}
use trufflepig.Search.Filenames.{
  FilenameCandidate, Heap, usefulness, candidate, drop_root, push_candidate, read_files, file_hits,
  by_score,
}

-- Every candidate, the most useful first, with no limit.
unfoldable pub rank_all :
    Unicode
    → List Text
    → List (Text × Option Text)
    → List FilenameCandidate
    → List FilenameCandidate
unfolding insert_by filename_score
rank_all u terms [] ranked = ranked
rank_all u terms ((path, revision) ∷ rows) ranked =
    let score = filename_score u path terms in
    rank_all u terms rows (
      if nat_eq score 0
      then ranked
      else insert_by usefulness (candidate score path revision) ranked)

-- What the heap should hold when these have been ranked.
abbrev pub heap_of : ℕ → List FilenameCandidate → Heap
heap_of limit ranked = record {
  candidates = take limit ranked;
  truncated = ltb limit (length ranked);
}

module _ {ℓ} {A : Type ℓ} where
  pub length-insert_by :
      (order : A → A → Ordering) (x : A) (ys : List A)
      → length (insert_by order x ys) ≡ suc (length ys)
  unfolding insert_by
  length-insert_by order x [] = refl
  length-insert_by order x (y ∷ ys) = elim (Bool-cases (is_gt (order x y))) [
    | inl e ↦ rw e (ap suc (length-insert_by order x ys))
    | inr e ↦ rw e refl
  ]

  pub take_all : (n : ℕ) (xs : List A) → length xs ≤ n → take n xs ≡ xs
  take_all zero [] h = refl
  take_all zero (x ∷ xs) h = absurd (omega arith)
  take_all (suc n) [] h = refl
  take_all (suc n) (x ∷ xs) h = ap (◌∷◌ x) (take_all n xs (omega arith))

  take_shorter : (n : ℕ) (ys : List A) → take n (take (suc n) ys) ≡ take n ys
  take_shorter zero ys = refl
  take_shorter (suc n) [] = refl
  take_shorter (suc n) (y ∷ ys) = ap (◌∷◌ y) (take_shorter n ys)

  take_again : (n : ℕ) (y : A) (ys : List A) → take n (y ∷ take n ys) ≡ take n (y ∷ ys)
  take_again zero y ys = refl
  take_again (suc n) y ys = ap (◌∷◌ y) (take_shorter n ys)

  -- An element that is put in among the first so many decides as it does among all.
  take-insert_by :
      (order : A → A → Ordering) (n : ℕ) (x : A) (ys : List A)
      → take n (insert_by order x (take n ys)) ≡ take n (insert_by order x ys)
  unfolding insert_by
  take-insert_by order zero x ys = refl
  take-insert_by order (suc n) x [] = refl
  take-insert_by order (suc n) x (y ∷ ys) = elim (Bool-cases (is_gt (order x y))) [
    | inl e ↦ rw e (ap (◌∷◌ y) (take-insert_by order n x ys))
    | inr e ↦ rw e (ap (◌∷◌ x) (take_again n y ys))
  ]

  drop_root-take : (n : ℕ) (xs : List A) → length xs ≡ suc n → drop_root xs ≡ take n xs
  drop_root-take n [] h = absurd (omega arith)
  drop_root-take zero (x ∷ []) h = refl
  drop_root-take (suc n) (x ∷ []) h = absurd (omega arith)
  drop_root-take zero (x ∷ y ∷ xs) h = absurd (omega arith)
  drop_root-take (suc n) (x ∷ y ∷ xs) h = ap (◌∷◌ x) (drop_root-take n (y ∷ xs) (omega arith))

push_candidate-heap_of :
    (limit : ℕ) (c : FilenameCandidate) (ranked : List FilenameCandidate)
    → push_candidate limit c (heap_of limit ranked) ≡ heap_of limit (insert_by usefulness c ranked)
unfolding push_candidate
push_candidate-heap_of limit c ranked =
    let after = insert_by usefulness c (take limit ranked) in
    let n = length-insert_by usefulness c (take limit ranked) in
    let m = length-insert_by usefulness c ranked in
    let k = length-take limit ranked in
    elim (Bool-cases (ltb (length ranked) limit)) [
      | inl e ↦
          let below = ltb→lt (length ranked) limit e in
          let kept : take limit ranked ≡ ranked = take_all limit ranked (omega arith) in
          let all_kept : take limit (insert_by usefulness c ranked)
              ≡ insert_by usefulness c ranked =
            take_all limit (insert_by usefulness c ranked) (omega arith) in
          let small : ltb limit (length (insert_by usefulness c ranked)) ≡ false = ground arith in
          let was_small : ltb limit (length ranked) ≡ false = ground arith in
          rw (kept, all_kept, small, was_small) refl
      | inr e ↦
          let over : ltb limit (length after) ≡ true = ground arith in
          let over_all : ltb limit (length (insert_by usefulness c ranked)) ≡ true = ground arith in
          let exact : length after ≡ suc limit = ground arith in
          let root = drop_root-take limit after exact in
          rw (over, over_all, root, take-insert_by usefulness limit c ranked) refl
    ]

read_files-rank_all :
    (u : Unicode) (limit : ℕ) (terms : List Text) (rows : List (Text × Option Text))
    (ranked : List FilenameCandidate)
    → read_files u limit terms rows (heap_of limit ranked)
      ≡ heap_of limit (rank_all u terms rows ranked)
unfolding read_files rank_all
read_files-rank_all u limit terms [] ranked = refl
read_files-rank_all u limit terms ((path, revision) ∷ rows) ranked =
    let score = filename_score u path terms in
    let c = candidate score path revision in
    elim (Bool-cases (nat_eq score 0)) [
      | inl e ↦ rw e (read_files-rank_all u limit terms rows ranked)
      | inr e ↦
          rw (e, push_candidate-heap_of limit c ranked)
            (read_files-rank_all u limit terms rows (insert_by usefulness c ranked))
    ]

abbrev pub lane_of : Heap → LaneHits
lane_of heap = record {
  hits = map (λ c. c.hit) (sort_by by_score heap.candidates);
  truncated = heap.truncated;
}

-- The file lane, which reads its rows through a heap that evicts beyond 1,000, holds what a full
-- ranking of all rows, cut at 1,000, leaves, and `truncated` tells whether the cut took any away. A
-- query for another kind than files has an empty lane.
pub file_hits-rank_all :
    (u : Unicode) (query : Query) (rows : List (Text × Option Text))
    → file_hits u query rows ≡ (
        if not_empty query.kind && not (is_word query.kind "file")
        then record { hits = []; truncated = false }
        else lane_of (heap_of file_candidate_limit (rank_all u (query_terms u query.text) rows [])))
unfolding file_hits
file_hits-rank_all u query rows =
    ap
      (λ heap.
        if not_empty query.kind && not (is_word query.kind "file")
        then record { hits = []; truncated = false }
        else lane_of heap)
      (read_files-rank_all u file_candidate_limit (query_terms u query.text) rows [])
