-- ===== src/History/Correspondence/Definite.antt =====
-- When `match_facts` of src/history/source_diff/correspondence.rs may call a declaration added or
-- deleted.
use trufflepig.Prelude.{
  ℕ, zero, suc, ◌+◌, ◌≡◌, refl, arith, Bool, true, false, ◌&&◌, Option, none, some, List, [], ◌∷◌,
  ◌++◌, if◌then◌else◌, Key, get_elem?, set, length,
}
use trufflepig.Prelude.Maps.{Map, get}
use trufflepig.History.SourceDiff.{SourceDiff, shares_change}
use trufflepig.History.Correspondence.{
  DeclarationRelation, unchanged, modified, moved, added, deleted, Matching, MatchFact, Visits,
  only, unmatched, unused, claim_if, match_pair, match_content, match_position, match_positions,
  match_lone, match_moved, match_group, match_groups, matching_of, match_at, repeat, candidate_of,
  group_definitions, group_contents, before_rows, after_rows, match_facts, position, start_at,
  same_content, content_at, remaining_groups,
}
use trufflepig.History.Correspondence.Claims.{Matches}
use trufflepig.History.Correspondence.Rows.{Rows}

abbrev pub is_definite : DeclarationRelation → Bool
is_definite added = true
is_definite deleted = true
is_definite other = false

-- The matches never say added or deleted.
abbrev AllPairs : Matches → Type 0
AllPairs [] = Unit
AllPairs (none ∷ ms) = AllPairs ms
AllPairs (some (a, r) ∷ ms) = (is_definite r ≡ false) × AllPairs ms

abbrev pub NoneDefinite : Rows → Type 0
NoneDefinite [] = Unit
NoneDefinite (row ∷ rows) = (is_definite row.relation ≡ false) × NoneDefinite rows

set-AllPairs :
    (ms : Matches) (i a : ℕ) (r : DeclarationRelation)
    → is_definite r ≡ false
    → AllPairs ms
    → AllPairs (set ms i (some (a, r)))
set-AllPairs [] i a r h p = tt
set-AllPairs (none ∷ ms) zero a r h p = (h, p)
set-AllPairs (some x ∷ ms) zero a r h p = (h, p.1)
set-AllPairs (none ∷ ms) (suc i) a r h p = set-AllPairs ms i a r h p
set-AllPairs (some x ∷ ms) (suc i) a r h p = (p.0, set-AllPairs ms i a r h p.1)

claim_if-AllPairs :
    (guard : Bool) (left right : ℕ) (r : DeclarationRelation) (st : Matching)
    → is_definite r ≡ false
    → AllPairs st.matches
    → AllPairs (claim_if guard left right r st).matches
claim_if-AllPairs true left right r st h p = set-AllPairs st.matches left right r h p
claim_if-AllPairs false left right r st h p = p

match_pair-AllPairs :
    (guard : ℕ → ℕ → Bool) (r : DeclarationRelation) (left right : Option ℕ) (st : Matching)
    → is_definite r ≡ false
    → AllPairs st.matches
    → AllPairs (match_pair guard r left right st).matches
match_pair-AllPairs guard r none right st h p = p
match_pair-AllPairs guard r (some left) none st h p = p
match_pair-AllPairs guard r (some left) (some right) st h p =
    claim_if-AllPairs (unmatched st left && unused st right && guard left right) left right r st h p

match_content-AllPairs :
    (lefts : List ℕ) (rights : Option (List ℕ)) (st : Matching)
    → AllPairs st.matches
    → AllPairs (match_content lefts rights st).matches
match_content-AllPairs lefts none st p = p
match_content-AllPairs lefts (some rights) st p =
    match_pair-AllPairs (λ l r. true) moved (only lefts) (only rights) st refl p

match_moved-AllPairs :
    {C : Type 0} ⦃c : Key C⦄ (after_content before_content : Map C (List ℕ)) (st : Matching)
    → AllPairs st.matches
    → AllPairs (match_moved after_content before_content st).matches
unfolding match_moved
match_moved-AllPairs after_content [] st p = p
match_moved-AllPairs after_content ((bytes, lefts) ∷ before_content) st p =
    match_moved-AllPairs after_content before_content
      (match_content lefts (get bytes after_content) st)
      (match_content-AllPairs lefts (get bytes after_content) st p)

repeat-AllPairs : (n : ℕ) → AllPairs (repeat none n)
repeat-AllPairs zero = tt
repeat-AllPairs (suc n) = repeat-AllPairs n

AllPairs-match_at :
    (ms : Matches) (i a : ℕ) (r : DeclarationRelation)
    → AllPairs ms
    → get_elem? ms i ≡ some (some (a, r))
    → is_definite r ≡ false
AllPairs-match_at [] i a r p h = absurd (ground arith)
AllPairs-match_at (none ∷ ms) zero a r p h = absurd (ground arith)
AllPairs-match_at (some (b, q) ∷ ms) zero a r p h = ground arith
AllPairs-match_at (none ∷ ms) (suc i) a r p h = AllPairs-match_at ms i a r p h
AllPairs-match_at (some x ∷ ms) (suc i) a r p h = AllPairs-match_at ms i a r p.1 h

get_elem?-some :
    (ms : Matches) (i : ℕ) (m : ℕ × DeclarationRelation)
    → (elim (get_elem? ms i) [ none ↦ none | some found ↦ found ]) ≡ some m
    → get_elem? ms i ≡ some (some m)
get_elem?-some ms i m h = ground arith

module _ {K C : Type 0} ⦃e : Key K⦄ ⦃c : Key C⦄ where
  match_position-AllPairs :
      (after : List (MatchFact K C)) (index : ℕ) (fact : MatchFact K C) (candidate : Option ℕ)
      (st : Matching)
      → AllPairs st.matches
      → AllPairs (match_position after index fact candidate st).matches
  match_position-AllPairs after index fact none st p = p
  match_position-AllPairs after index fact (some candidate) st p =
      claim_if-AllPairs (unused st candidate) index candidate
        (if same_content fact.content (content_at after candidate) then unchanged else modified) st
        (ground arith) p

  match_positions-AllPairs :
      (choose : MatchFact K C → Option ℕ) (after : List (MatchFact K C)) (index : ℕ)
      (facts : List (MatchFact K C)) (st : Matching)
      → AllPairs st.matches
      → AllPairs (match_positions choose after index facts st).matches
  unfolding match_positions
  match_positions-AllPairs choose after index [] st p = p
  match_positions-AllPairs choose after index (fact ∷ facts) st p =
      match_positions-AllPairs choose after (index + 1) facts
        (match_position after index fact (choose fact) st)
        (match_position-AllPairs after index fact (choose fact) st p)

  match_group-AllPairs :
      (visits : Visits K C) (before after : List (MatchFact K C))
      (before_offsets after_offsets : List ℕ) (diff : SourceDiff) (ids : List ℕ)
      (others : Option (List ℕ)) (st : Matching)
      → AllPairs st.matches
      → AllPairs
          (match_group visits before after before_offsets after_offsets diff ids others st).matches
  unfolding match_group match_lone
  match_group-AllPairs visits before after bo ao diff ids none st p = p
  match_group-AllPairs visits before after bo ao diff ids (some others) st p =
      match_moved-AllPairs (group_contents after others [])
        (visits.contents (group_contents before ids []))
        (match_lone before after bo ao diff ids others st)
        (match_pair-AllPairs
          (λ l r.
            shares_change diff (position bo (start_at before l)).0
              (position ao (start_at after r)).0)
          modified (only ids) (only others) st refl p)

  match_groups-AllPairs :
      (visits : Visits K C) (before after : List (MatchFact K C))
      (before_offsets after_offsets : List ℕ) (diff : SourceDiff)
      (after_groups before_groups : Map K (List ℕ)) (st : Matching)
      → AllPairs st.matches
      → AllPairs
          (match_groups visits before after before_offsets after_offsets diff after_groups
            before_groups st).matches
  unfolding match_groups
  match_groups-AllPairs visits before after bo ao diff after_groups [] st p = p
  match_groups-AllPairs visits before after bo ao diff after_groups ((key, ids) ∷ groups) st p =
      match_groups-AllPairs visits before after bo ao diff after_groups groups
        (match_group visits before after bo ao diff ids (get key after_groups) st)
        (match_group-AllPairs visits before after bo ao diff ids (get key after_groups) st p)

  before_rows-NoneDefinite :
      (remaining : Map K (List ℕ × ℕ)) (st : Matching) (links index : ℕ)
      (facts : List (MatchFact K C))
      → AllPairs st.matches
      → NoneDefinite (before_rows remaining false st links index facts)
  unfolding before_rows
  before_rows-NoneDefinite remaining st links index [] p = tt
  before_rows-NoneDefinite remaining st links index (fact ∷ facts) p =
      by_match (match_at st index) refl
        (λ k. before_rows-NoneDefinite remaining st k (index + 1) facts p)
    where
      by_match :
          (m : Option (ℕ × DeclarationRelation))
          → match_at st index ≡ m
          → ((k : ℕ) → NoneDefinite (before_rows remaining false st k (index + 1) facts))
          → NoneDefinite (before_rows remaining false st links index (fact ∷ facts))
      by_match none h ih = rw (h, before_rows) (ground arith, ih _)
      by_match (some (a, r)) h ih =
          rw (h, before_rows)
            (
              AllPairs-match_at st.matches index a r p (get_elem?-some st.matches index (a, r) h),
              ih _,
            )

after_rows-NoneDefinite :
    (flags : List Bool) (index : ℕ) (us : List Bool)
    → NoneDefinite (after_rows false flags index us)
unfolding after_rows
after_rows-NoneDefinite flags index [] = tt
after_rows-NoneDefinite flags index (true ∷ us) = after_rows-NoneDefinite flags (index + 1) us
after_rows-NoneDefinite flags index (false ∷ us) =
    (refl, after_rows-NoneDefinite flags (index + 1) us)

append-NoneDefinite : (r s : Rows) → NoneDefinite r → NoneDefinite s → NoneDefinite (r ++ s)
append-NoneDefinite [] s h k = k
append-NoneDefinite (row ∷ r) s h k = (h.0, append-NoneDefinite r s h.1 k)

module _ {K C : Type 0} ⦃e : Key K⦄ ⦃c : Key C⦄ where
  matching_of-AllPairs :
      (visits : Visits K C) (before after : List (MatchFact K C))
      (before_offsets after_offsets : List ℕ) (diff : SourceDiff)
      → AllPairs (matching_of visits before after before_offsets after_offsets diff).matches
  unfolding matching_of
  matching_of-AllPairs visits before after bo ao diff =
      match_groups-AllPairs visits before after bo ao diff (group_definitions 0 after [])
        (visits.groups (group_definitions 0 before [])) _
        (match_positions-AllPairs (candidate_of before after bo ao diff) after 0 before _
          (repeat-AllPairs (length before)))

  -- Where an extraction is incomplete, no row calls a declaration added or deleted.
  pub match_facts-NoneDefinite :
      (visits : Visits K C) (before after : List (MatchFact K C))
      (before_offsets after_offsets : List ℕ) (diff : SourceDiff)
      → NoneDefinite (match_facts visits before after before_offsets after_offsets false diff)
  unfolding match_facts
  match_facts-NoneDefinite visits before after bo ao diff =
      let st = matching_of visits before after bo ao diff in
      let left =
        remaining_groups st (group_definitions 0 before [])
          (visits.groups (group_definitions 0 after [])) (repeat false (length after)) [] in
      append-NoneDefinite (before_rows left.1 false st 4096 0 before)
        (after_rows false left.0 0 st.used_after)
        (before_rows-NoneDefinite left.1 st 4096 0 before
          (matching_of-AllPairs visits before after bo ao diff))
        (after_rows-NoneDefinite left.0 0 st.used_after)
