-- ===== src/History/Correspondence.antt =====
-- src/history/source_diff/correspondence.rs: which declaration of one revision is which of the other.
-- A HashMap visits its entries in an order of its own: `Visits` is that order, for the maps that the
-- source iterates over.
pub mod Claims
pub mod Rows
pub mod Definite
use trufflepig.Prelude.{
  ℕ, zero, suc, ◌+◌, ◌-◌, min, Bool, true, false, not, ◌&&◌, Option, none, some, List, [], ◌∷◌,
  ◌++◌, if◌then◌else◌, ltb, leb, nat_eq, Key, ◌==◌, ℕ_key, get_elem?, set, take, length,
  partition_point,
}
use trufflepig.Prelude.Maps.{Map, get}
use trufflepig.Prelude.Entries.{upsert, pair_key}
use trufflepig.History.SourceDiff.{SourceDiff, map_before_line, shares_change, offset_at}

pub data DeclarationRelation : Type 0 where
  unchanged modified moved added deleted uncertain : DeclarationRelation

pub record DeclarationCorrespondence : Type 0 where
  pub before : Option ℕ
  pub after : Option ℕ
  pub candidates : List ℕ
  pub candidates_truncated : Bool
  pub relation : DeclarationRelation

pub record MatchFact (K C : Type 0) : Type 0 where
  pub key : K
  pub start : ℕ
  pub content : Option C

-- `position` is applied to offsets that begin with 0.
unfoldable pub position : List ℕ → ℕ → ℕ × ℕ
position offsets start =
    let line = partition_point (λ offset. leb offset start) offsets - 1 in
    (line, start - offset_at offsets line)

-- `matches` and `used_after`
pub record Matching : Type 0 where
  pub matches : List (Option (ℕ × DeclarationRelation))
  pub used_after : List Bool

-- `[candidate]` of a slice pattern.
abbrev pub only : List ℕ → Option ℕ
only [] = none
only (x ∷ []) = some x
only (x ∷ y ∷ xs) = none

-- `matches[index].is_none()`, in bounds.
abbrev pub unmatched : Matching → ℕ → Bool
unmatched st index = elim (get_elem? st.matches index) [
  | none ↦ false
  | some found ↦ elim found [ none ↦ true | some claimed ↦ false ]
]

-- `!used_after[index]`, in bounds.
abbrev pub unused : Matching → ℕ → Bool
unused st index = elim (get_elem? st.used_after index) [ none ↦ false | some used ↦ not used ]

abbrev pub claim : ℕ → ℕ → DeclarationRelation → Matching → Matching
claim left right relation st = record {
  matches = set st.matches left (some (right, relation));
  used_after = set st.used_after right true;
}

abbrev pub claim_if : Bool → ℕ → ℕ → DeclarationRelation → Matching → Matching
claim_if guard left right relation st = if guard then claim left right relation st else st

-- A pair of lone indexes, where both are free and the guard holds.
abbrev pub match_pair :
    (ℕ → ℕ → Bool) → DeclarationRelation → Option ℕ → Option ℕ → Matching → Matching
match_pair guard relation none right st = st
match_pair guard relation (some left) none st = st
match_pair guard relation (some left) (some right) st =
    claim_if (unmatched st left && unused st right && guard left right) left right relation st

-- A content and its indexes on each side.
abbrev pub match_content : List ℕ → Option (List ℕ) → Matching → Matching
match_content lefts none st = st
match_content lefts (some rights) st = match_pair (λ l r. true) moved (only lefts) (only rights) st

abbrev pub repeat {ℓ} : {A : Type ℓ} → A → ℕ → List A
repeat x zero = []
repeat x (suc n) = x ∷ repeat x n

abbrev pub some_unmatched : Matching → List ℕ → Bool
some_unmatched st [] = false
some_unmatched st (index ∷ indexes) = if unmatched st index then true else some_unmatched st indexes

-- The order in which a map's entries are visited.
pub record Visits (K C : Type 0) : Type 0 where
  pub groups : Map K (List ℕ) → Map K (List ℕ)
  pub contents : Map C (List ℕ) → Map C (List ℕ)

-- `matches[index]`, `uncertain_after[index]` and a group's remainder or `(&[], 0)`.
abbrev pub match_at : Matching → ℕ → Option (ℕ × DeclarationRelation)
match_at st index = elim (get_elem? st.matches index) [ none ↦ none | some found ↦ found ]

abbrev pub flag_at : List Bool → ℕ → Bool
flag_at flags index = elim (get_elem? flags index) [ none ↦ false | some flag ↦ flag ]

abbrev pub remainder : Option (List ℕ × ℕ) → List ℕ × ℕ
remainder none = ([], 0)
remainder (some left) = left

unfoldable pub after_rows : Bool → List Bool → ℕ → List Bool → List DeclarationCorrespondence
after_rows complete flags index [] = []
after_rows complete flags index (used ∷ used_after) =
    let rest = after_rows complete flags (index + 1) used_after in
    let flag = flag_at flags index in
    if used
    then rest
    else record {
      before = none;
      after = some index;
      candidates = [];
      candidates_truncated = false;
      relation = if complete && not flag then added else uncertain;
    }
      ∷ rest

module _ {C : Type 0} ⦃c : Key C⦄ where
  -- `zip` and `is_some_and`
  abbrev pub same_content : Option C → Option C → Bool
  same_content none right = false
  same_content (some left) none = false
  same_content (some left) (some right) = left == right

  unfoldable pub match_moved : Map C (List ℕ) → Map C (List ℕ) → Matching → Matching
  unfolding get
  match_moved after_content [] st = st
  match_moved after_content ((bytes, lefts) ∷ before_content) st =
      match_moved after_content before_content (match_content lefts (get bytes after_content) st)

-- The after-side indexes of a group that are left: at most 64 as candidates, all of them counted.
unfoldable pub leftover : Matching → Bool → List ℕ → List Bool × List ℕ × ℕ → List Bool × List ℕ × ℕ
leftover st is_uncertain [] acc = acc
leftover st is_uncertain (index ∷ indexes) (flags, candidates, count) =
    leftover st is_uncertain indexes (
      if unused st index
      then (
        set flags index is_uncertain,
        if ltb (length candidates) 64 then candidates ++ index ∷ [] else candidates,
        count + 1,
      )
      else (flags, candidates, count))

module _ {K : Type 0} ⦃e : Key K⦄ where
  unfoldable pub remaining_groups :
      Matching
      → Map K (List ℕ)
      → Map K (List ℕ)
      → List Bool
      → Map K (List ℕ × ℕ)
      → List Bool × Map K (List ℕ × ℕ)
  unfolding leftover upsert get
  remaining_groups st before_groups [] flags remaining = (flags, remaining)
  remaining_groups st before_groups ((key, after_indexes) ∷ after_groups) flags remaining =
      let is_uncertain : Bool = elim (get key before_groups) [
        | none ↦ false
        | some indexes ↦ some_unmatched st indexes
      ] in
      let (flags', candidates, count) = leftover st is_uncertain after_indexes (flags, [], 0) in
      remaining_groups st before_groups after_groups flags'
        (upsert key (candidates, count) (λ _. (candidates, count)) remaining)

module _ {K C : Type 0} ⦃e : Key K⦄ ⦃c : Key C⦄ where
  unfoldable pub group_definitions : ℕ → List (MatchFact K C) → Map K (List ℕ) → Map K (List ℕ)
  unfolding upsert
  group_definitions index [] groups = groups
  group_definitions index (fact ∷ facts) groups =
      group_definitions (index + 1) facts (upsert fact.key [] (λ found. found ++ index ∷ []) groups)

  abbrev pub place : List ℕ → MatchFact K C → K × (ℕ × ℕ)
  place offsets fact = (fact.key, position offsets fact.start)

  unfoldable pub count_positions :
      List ℕ → List (MatchFact K C) → Map (K × (ℕ × ℕ)) ℕ → Map (K × (ℕ × ℕ)) ℕ
  unfolding upsert
  count_positions offsets [] counts = counts
  count_positions offsets (fact ∷ facts) counts =
      count_positions offsets facts (upsert (place offsets fact) 0 (λ count. count + 1) counts)

  unfoldable pub index_positions :
      List ℕ → ℕ → List (MatchFact K C) → Map (K × (ℕ × ℕ)) (List ℕ) → Map (K × (ℕ × ℕ)) (List ℕ)
  unfolding upsert
  index_positions offsets index [] found = found
  index_positions offsets index (fact ∷ facts) found =
      index_positions offsets (index + 1) facts
        (upsert (place offsets fact) [] (λ indexes. indexes ++ index ∷ []) found)

  abbrev pub content_at : List (MatchFact K C) → ℕ → Option C
  content_at facts index = elim (get_elem? facts index) [ none ↦ none | some fact ↦ fact.content ]

  abbrev pub start_at : List (MatchFact K C) → ℕ → ℕ
  start_at facts index = elim (get_elem? facts index) [ none ↦ 0 | some fact ↦ fact.start ]

  -- The only declaration of the other side at the position that this one's line maps to.
  unfoldable pub mapped_candidate :
      Map (K × (ℕ × ℕ)) ℕ
      → Map (K × (ℕ × ℕ)) (List ℕ)
      → List ℕ
      → SourceDiff
      → MatchFact K C
      → Option ℕ
  unfolding get map_before_line position
  mapped_candidate before_positions after_positions before_offsets diff fact =
      let (line, column) = position before_offsets fact.start in
      elim (get (fact.key, (line, column)) before_positions) [
        | none ↦ none
        | some count ↦
            if nat_eq count 1
            then elim (map_before_line diff line) [
              | none ↦ none
              | some mapped ↦ elim (get (fact.key, (mapped, column)) after_positions) [
                | none ↦ none
                | some candidates ↦ only candidates
              ]
            ]
            else none
      ]

  abbrev pub match_position :
      List (MatchFact K C) → ℕ → MatchFact K C → Option ℕ → Matching → Matching
  match_position after index fact none st = st
  match_position after index fact (some candidate) st =
      claim_if (unused st candidate) index candidate
        (if same_content fact.content (content_at after candidate) then unchanged else modified) st

  unfoldable pub match_positions :
      (MatchFact K C → Option ℕ)
      → List (MatchFact K C)
      → ℕ
      → List (MatchFact K C)
      → Matching
      → Matching
  match_positions candidate_of after index [] st = st
  match_positions candidate_of after index (fact ∷ facts) st =
      match_positions candidate_of after (index + 1) facts
        (match_position after index fact (candidate_of fact) st)

  -- Names that stand once on each side, in lines of one change.
  unfoldable pub match_lone :
      List (MatchFact K C)
      → List (MatchFact K C)
      → List ℕ
      → List ℕ
      → SourceDiff
      → List ℕ
      → List ℕ
      → Matching
      → Matching
  unfolding shares_change position
  match_lone before after before_offsets after_offsets diff before_indexes after_indexes st =
      match_pair
        (λ left right.
          shares_change diff (position before_offsets (start_at before left)).0
            (position after_offsets (start_at after right)).0)
        modified (only before_indexes) (only after_indexes) st

  unfoldable pub group_contents : List (MatchFact K C) → List ℕ → Map C (List ℕ) → Map C (List ℕ)
  unfolding upsert
  group_contents facts [] groups = groups
  group_contents facts (index ∷ indexes) groups =
      group_contents facts indexes (elim (content_at facts index) [
        | none ↦ groups
        | some bytes ↦ upsert bytes [] (λ found. found ++ index ∷ []) groups
      ])

  -- One round of the loop over the groups, with the other side's group of the key.
  unfoldable pub match_group :
      Visits K C
      → List (MatchFact K C)
      → List (MatchFact K C)
      → List ℕ
      → List ℕ
      → SourceDiff
      → List ℕ
      → Option (List ℕ)
      → Matching
      → Matching
  unfolding match_lone match_moved group_contents
  match_group visits before after before_offsets after_offsets diff before_indexes none st = st
  match_group visits before after before_offsets after_offsets diff before_indexes
        (some after_indexes) st =
      match_moved (group_contents after after_indexes [])
        (visits.contents (group_contents before before_indexes []))
        (match_lone before after before_offsets after_offsets diff before_indexes after_indexes st)

  unfoldable pub match_groups :
      Visits K C
      → List (MatchFact K C)
      → List (MatchFact K C)
      → List ℕ
      → List ℕ
      → SourceDiff
      → Map K (List ℕ)
      → Map K (List ℕ)
      → Matching
      → Matching
  unfolding match_group get
  match_groups visits before after before_offsets after_offsets diff after_groups [] st = st
  match_groups visits before after before_offsets after_offsets diff after_groups
        ((key, before_indexes) ∷ before_groups) st =
      match_groups visits before after before_offsets after_offsets diff after_groups before_groups
        (match_group visits before after before_offsets after_offsets diff before_indexes
          (get key after_groups) st)

  unfoldable pub before_rows :
      Map K (List ℕ × ℕ)
      → Bool
      → Matching
      → ℕ
      → ℕ
      → List (MatchFact K C)
      → List DeclarationCorrespondence
  unfolding get
  before_rows remaining complete st links index [] = []
  before_rows remaining complete st links index (fact ∷ facts) =
      let found = match_at st index in
      let left = remainder (get fact.key remaining) in
      let candidates = take (min (length left.0) links) left.0 in
      let matched_rest = before_rows remaining complete st links (index + 1) facts in
      let rest = before_rows remaining complete st (links - length candidates) (index + 1) facts in
      elim found [
        | some (after, relation) ↦
            record {
              before = some index;
              after = some after;
              candidates = [];
              candidates_truncated = false;
              relation = relation;
            }
            ∷ matched_rest
        | none ↦
            record {
              before = some index;
              after = none;
              candidates = candidates;
              candidates_truncated = ltb (length candidates) left.1;
              relation = if nat_eq left.1 0 && complete then deleted else uncertain;
            }
            ∷ rest
      ]

  unfoldable pub candidate_of :
      List (MatchFact K C)
      → List (MatchFact K C)
      → List ℕ
      → List ℕ
      → SourceDiff
      → MatchFact K C
      → Option ℕ
  unfolding count_positions index_positions mapped_candidate
  candidate_of before after before_offsets after_offsets diff =
      mapped_candidate (count_positions before_offsets before [])
        (index_positions after_offsets 0 after []) before_offsets diff

  -- Everything up to the rows.
  unfoldable pub matching_of :
      Visits K C
      → List (MatchFact K C)
      → List (MatchFact K C)
      → List ℕ
      → List ℕ
      → SourceDiff
      → Matching
  unfolding group_definitions match_positions match_groups candidate_of
  matching_of visits before after before_offsets after_offsets diff =
      let created : Matching = record {
        matches = repeat none (length before);
        used_after = repeat false (length after);
      } in
      match_groups visits before after before_offsets after_offsets diff
        (group_definitions 0 after []) (visits.groups (group_definitions 0 before []))
        (match_positions (candidate_of before after before_offsets after_offsets diff) after 0
          before created)

  unfoldable pub match_facts :
      Visits K C
      → List (MatchFact K C)
      → List (MatchFact K C)
      → List ℕ
      → List ℕ
      → Bool
      → SourceDiff
      → List DeclarationCorrespondence
  unfolding matching_of remaining_groups before_rows after_rows group_definitions
  match_facts visits before after before_offsets after_offsets complete diff =
      let st = matching_of visits before after before_offsets after_offsets diff in
      let (flags, remaining) =
        remaining_groups st (group_definitions 0 before [])
          (visits.groups (group_definitions 0 after [])) (repeat false (length after)) [] in
      before_rows remaining complete st 4096 0 before ++ after_rows complete flags 0 st.used_after
