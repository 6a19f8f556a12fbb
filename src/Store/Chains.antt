-- ===== src/Store/Chains.antt =====
-- src/store/inheritance/ordered_chains.rs: candidate predecessors of the classes that are registered
-- on one base, from their priorities.
-- A RegistrationIndex is a position in the slice of registrations. Member is such a position with the
-- registration that stands there; a position out of range is the panic of the source, none here.
pub mod Runs
mod Tests
use trufflepig.Prelude.{
  ℕ, zero, suc, ◌+◌, ◌-◌, compare, Ordering, Bool, true, false, Option, none, some, List, [], ◌∷◌,
  ◌++◌, map, if◌then◌else◌, ltb, nat_eq, not, Range, length, get_elem?, take, drop, saturating_add,
}
use trufflepig.Prelude.Texts.{Text}
use trufflepig.Prelude.Sort.{sort_by}

-- The numbers of i64 are a part of these.
pub data ℤ : Type 0 where
  pos negsuc : ℕ → ℤ

abbrev pub compare_int : ℤ → ℤ → Ordering
compare_int (pos a) (pos b) = compare a b
compare_int (pos a) (negsuc b) = Ordering.gt
compare_int (negsuc a) (pos b) = Ordering.lt
compare_int (negsuc a) (negsuc b) = compare b a

abbrev pub int_eq : ℤ → ℤ → Bool
int_eq a b = elim (compare_int a b) [
  | Ordering.eq ↦ true
  | Ordering.lt ↦ false
  | Ordering.gt ↦ false
]

abbrev pub max_chain_classes : ℕ
max_chain_classes = 64

abbrev pub max_candidates_per_registration : ℕ
max_candidates_per_registration = 64

pub record Registration (E : Type 0) : Type 0 where
  pub id : Text
  pub base : Text
  pub implementation : Text
  pub numeric_priority : ℤ
  pub evidence : E

pub record Member (E : Type 0) : Type 0 where
  pub index : ℕ
  pub registration : Registration E

pub data PredecessorCandidate : Type 0 where
  registration : ℕ → PredecessorCandidate
  base : PredecessorCandidate

pub record EdgeEvidence (E : Type 0) : Type 0 where
  pub child : E
  pub predecessor : Option E

pub record CandidateEdge (E : Type 0) : Type 0 where
  pub base : Text
  pub child : ℕ
  pub predecessor : PredecessorCandidate
  pub evidence : EdgeEvidence E

-- The fields in the source's order; `priority_tie base numeric_priority registrations`.
pub data ChainIssue : Type 0 where
  priority_tie : Text → ℤ → List ℕ → ChainIssue
  class_limit_exceeded : Text → ℕ → ℕ → ChainIssue
  candidate_limit_exceeded : Text → ℕ → ℕ → ℕ → ChainIssue

pub record ChainGraph (E : Type 0) : Type 0 where
  pub edges : List (CandidateEdge E)
  pub issues : List ChainIssue

-- `range.len()` and `slice[range]`
abbrev pub range_len : Range → ℕ
range_len r = r.end - r.start

abbrev pub slice {ℓ} : {A : Type ℓ} → List A → Range → List A
slice xs r = take (range_len r) (drop r.start xs)

-- `group_len.saturating_sub(1) + if previous_len == 0 { 1 } else { previous_len }`
unfoldable pub candidate_count : ℕ → ℕ → ℕ
candidate_count previous_len group_len =
    (group_len - 1) + (if nat_eq previous_len 0 then 1 else previous_len)

-- The loop for `candidate_overflow`; `previous_len` is the length of the group before, 0 at first.
unfoldable pub candidate_overflow : ℕ → List Range → Option (ℕ × ℕ)
unfolding candidate_count
candidate_overflow previous_len [] = none
candidate_overflow previous_len (group ∷ groups) =
    let count = candidate_count previous_len (range_len group) in
    let rest = candidate_overflow (range_len group) groups in
    if ltb max_candidates_per_registration count then some (group.start, count) else rest

module _ {E : Type 0} where
  abbrev pub priority_of : Member E → ℤ
  priority_of m = m.registration.numeric_priority

  -- Every read of `registrations[index.0]`, made once.
  unfoldable pub members : List (Registration E) → List ℕ → Option (List (Member E))
  members registrations [] = some []
  members registrations (index ∷ indices) = elim (get_elem? registrations index) [
    | none ↦ none
    | some r ↦ elim (members registrations indices) [
      | none ↦ none
      | some ms ↦ some (record { index = index; registration = r } ∷ ms)
    ]
  ]

  -- The two loops of `priority_groups` in one: `open_group` is `start..end` of the group begun, of
  -- this priority.
  unfoldable pub groups_from : Range → ℤ → List (Member E) → List Range
  groups_from open_group priority [] = open_group ∷ []
  groups_from open_group priority (m ∷ ms) =
      let same = int_eq (priority_of m) priority in
      let next : Range = record {
        start = if same then open_group.start else open_group.end;
        end = open_group.end + 1;
      } in
      let rest = groups_from next (priority_of m) ms in if same then rest else open_group ∷ rest

  unfoldable pub priority_groups : List (Member E) → List Range
  unfolding groups_from
  priority_groups [] = []
  priority_groups (m ∷ ms) = groups_from (record { start = 0; end = 1 }) (priority_of m) ms

  unfoldable pub edge : Text → Member E → PredecessorCandidate → Option (Member E) → CandidateEdge E
  edge class_base child predecessor predecessor_member = record {
    base = class_base;
    child = child.index;
    predecessor = predecessor;
    evidence = record {
      child = child.registration.evidence;
      predecessor = elim predecessor_member [ none ↦ none | some m ↦ some m.registration.evidence ];
    };
  }

  -- `for &peer in &indices[group]`
  unfoldable pub peer_edges : Text → Member E → List (Member E) → List (CandidateEdge E)
  unfolding edge
  peer_edges class_base child [] = []
  peer_edges class_base child (peer ∷ peers) =
      let rest = peer_edges class_base child peers in
      if nat_eq child.index peer.index
      then rest
      else edge class_base child (registration peer.index) (some peer) ∷ rest

  -- `for &predecessor in previous_group`
  unfoldable pub previous_edges : Text → Member E → List (Member E) → List (CandidateEdge E)
  unfolding edge
  previous_edges class_base child [] = []
  previous_edges class_base child (p ∷ ps) =
      edge class_base child (registration p.index) (some p) ∷ previous_edges class_base child ps

  unfoldable pub child_edges :
      Text → Option (List (Member E)) → List (Member E) → Member E → List (CandidateEdge E)
  unfolding peer_edges previous_edges edge
  child_edges class_base previous group child = peer_edges class_base child group ++ elim previous [
    | some ps ↦ previous_edges class_base child ps
    | none ↦ edge class_base child PredecessorCandidate.base none ∷ []
  ]

  -- `for &child in &indices[group]`
  unfoldable pub group_edges :
      Text → Option (List (Member E)) → List (Member E) → List (Member E) → List (CandidateEdge E)
  unfolding child_edges
  group_edges class_base previous group [] = []
  group_edges class_base previous group (child ∷ children) =
      child_edges class_base previous group child ++ group_edges class_base previous group children

  unfoldable pub tie : Text → List (Member E) → List ChainIssue
  tie class_base [] = []
  tie class_base (m ∷ ms) =
      if ltb 1 (length (m ∷ ms))
      then priority_tie class_base (priority_of m) (map (λ x. x.index) (m ∷ ms)) ∷ []
      else []

  -- The last loop; `previous` is the group before.
  unfoldable pub add_groups :
      Text → List (Member E) → Option (List (Member E)) → List Range → ChainGraph E → ChainGraph E
  unfolding group_edges tie
  add_groups class_base ms previous [] graph = graph
  add_groups class_base ms previous (range ∷ groups) graph =
      let group = slice ms range in
      add_groups class_base ms (some group) groups (record {
        edges = graph.edges ++ group_edges class_base previous group group;
        issues = graph.issues ++ tie class_base group;
      })

  abbrev pub empty_graph : ChainGraph E
  empty_graph = record { edges = []; issues = [] }

  abbrev pub issue_only : ChainIssue → ChainGraph E
  issue_only issue = record { edges = []; issues = issue ∷ [] }

  abbrev pub by_priority : Member E → Member E → Ordering
  by_priority a b = compare_int (priority_of a) (priority_of b)

  -- The body of `build_base_chain` behind the sort and the test on the number of classes.
  unfoldable pub graph_of : Text → List (Member E) → ChainGraph E
  unfolding priority_groups candidate_overflow add_groups
  graph_of class_base ms = elim (candidate_overflow 0 (priority_groups ms)) [
    | none ↦ add_groups class_base ms none (priority_groups ms) empty_graph
    | some (group_start, count) ↦ elim (get_elem? ms group_start) [
      | none ↦ empty_graph
      | some m ↦
          issue_only
            (candidate_limit_exceeded class_base m.index count max_candidates_per_registration)
    ]
  ]

  unfoldable pub build_base_chain : Text → List (Member E) → ChainGraph E
  unfolding graph_of sort_by
  build_base_chain class_base indices =
      let class_count = saturating_add (length indices) 1 in
      if ltb max_chain_classes class_count
      then issue_only (class_limit_exceeded class_base class_count max_chain_classes)
      else graph_of class_base (sort_by by_priority indices)

  unfoldable pub build_chain_for_base :
      Text → List ℕ → List (Registration E) → Option (ChainGraph E)
  unfolding members build_base_chain
  build_chain_for_base class_base indices registrations = elim (members registrations indices) [
    | none ↦ none
    | some ms ↦ some (build_base_chain class_base ms)
  ]
