-- ===== src/Store/Chains/Tests.antt =====
-- Runs of src/store/inheritance/ordered_chains.rs.
use trufflepig.Prelude.{ℕ, ◌≡◌, refl, Option, none, some, List, [], ◌∷◌, map}
use trufflepig.Prelude.Texts.{chars}
use trufflepig.Prelude.Sort.{sort_by, insert_by}
use trufflepig.Store.Chains.{
  ℤ, pos, negsuc, Registration, Member, PredecessorCandidate, ChainGraph, members, groups_from,
  priority_groups, candidate_count, candidate_overflow, edge, peer_edges, previous_edges,
  child_edges, group_edges, tie, add_groups, empty_graph, by_priority, graph_of, build_base_chain,
  build_chain_for_base,
}
use trufflepig.Store.Chains.Runs.{runs, add_runs, build_base_chain-runs}

abbrev class : ℤ → ℕ → Registration ℕ
class priority evidence = record {
  id = [];
  base = chars "Base";
  implementation = [];
  numeric_priority = priority;
  evidence = evidence;
}

abbrev classes : List (Registration ℕ)
classes = class (pos 10) 70 ∷ class (negsuc 4) 71 ∷ class (pos 10) 72 ∷ []

abbrev member : ℕ → Registration ℕ → Member ℕ
member index r = record { index = index; registration = r }

abbrev three : List (Member ℕ)
three =
    member 0 (class (pos 10) 70)
    ∷ member 1 (class (negsuc 4) 71)
    ∷ member 2 (class (pos 10) 72)
    ∷ []

abbrev predecessors : Option (ChainGraph ℕ) → List (ℕ × PredecessorCandidate)
predecessors none = []
predecessors (some graph) = map (λ e. (e.child, e.predecessor)) graph.edges

-- The lowest priority precedes the two that tie, which are alternatives to each other.
three_classes : predecessors (build_chain_for_base (chars "Base") (0 ∷ 1 ∷ 2 ∷ []) classes) ≡ (
    (1, PredecessorCandidate.base)
    ∷ (0, PredecessorCandidate.registration 2)
    ∷ (0, PredecessorCandidate.registration 1)
    ∷ (2, PredecessorCandidate.registration 0)
    ∷ (2, PredecessorCandidate.registration 1)
    ∷ [])
unfolding build_chain_for_base members build_base_chain graph_of priority_groups groups_from
    candidate_overflow candidate_count add_groups group_edges child_edges peer_edges previous_edges
    edge tie sort_by insert_by
three_classes = refl

build_base_chain-runs_example :
    build_base_chain (chars "Base") three
    ≡ add_runs (chars "Base") none (runs (sort_by by_priority three)) empty_graph
build_base_chain-runs_example = build_base_chain-runs (chars "Base") three
