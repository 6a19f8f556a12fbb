-- ===== src/Store/Chains/Runs.antt =====
-- The graph of src/store/inheritance/ordered_chains.rs by runs: lists of members in place of ranges
-- of positions, with no test of the candidate count.
use trufflepig.Prelude.{
  ℕ, suc, ◌+◌, ◌-◌, ◌≤◌, ◌<◌, ◌≡◌, refl, ap, ◌∙◌, true, false, Option, none, some, List, [], ◌∷◌,
  ◌++◌, map, if◌then◌else◌, Range, length, take, drop, arith, append_assoc, length-append,
  Bool-cases, inl, inr, max_usize, min, ltb, ltb→lt, saturating_add,
}
use trufflepig.Prelude.Texts.{Text}
use trufflepig.Prelude.Sort.{sort_by, sort_by-perm}
use trufflepig.Store.Chains.{
  ℤ, int_eq, Member, ChainGraph, priority_of, slice, range_len, groups_from, priority_groups,
  candidate_count, candidate_overflow, group_edges, tie, add_groups, empty_graph, issue_only,
  by_priority, graph_of, build_base_chain, class_limit_exceeded,
}
use mathlib.Core.List.{Permᴰ}

module _ {ℓ} {A : Type ℓ} where
  drop-append : (xs ys : List A) → drop (length xs) (xs ++ ys) ≡ ys
  drop-append [] ys = refl
  drop-append (x ∷ xs) ys = drop-append xs ys

  take-append : (xs ys : List A) → take (length xs) (xs ++ ys) ≡ xs
  take-append [] ys = refl
  take-append (x ∷ xs) ys = ap (◌∷◌ x) (take-append xs ys)

  length-Permᴰ : {xs ys : List A} → Permᴰ xs ys → length xs ≡ length ys
  length-Permᴰ Permᴰ.nil = refl
  length-Permᴰ (Permᴰ.cons e p) = ap suc (length-Permᴰ p)
  length-Permᴰ (Permᴰ.swap e f) = refl
  length-Permᴰ (Permᴰ.trans p q) = length-Permᴰ p ∙ length-Permᴰ q

module _ {E : Type 0} where
  -- The longest stretches of neighbours of one priority; `current` is the one begun.
  unfoldable pub runs_from : List (Member E) → ℤ → List (Member E) → List (List (Member E))
  runs_from current priority [] = current ∷ []
  runs_from current priority (m ∷ ms) =
      let same = int_eq (priority_of m) priority in
      let rest = runs_from (if same then current ++ m ∷ [] else m ∷ []) (priority_of m) ms in
      if same then rest else current ∷ rest

  unfoldable pub runs : List (Member E) → List (List (Member E))
  unfolding runs_from
  runs [] = []
  runs (m ∷ ms) = runs_from (m ∷ []) (priority_of m) ms

  unfoldable pub add_runs :
      Text → Option (List (Member E)) → List (List (Member E)) → ChainGraph E → ChainGraph E
  unfolding group_edges tie
  add_runs class_base previous [] graph = graph
  add_runs class_base previous (run ∷ rest) graph = add_runs class_base (some run) rest (record {
    edges = graph.edges ++ group_edges class_base previous run run;
    issues = graph.issues ++ tie class_base run;
  })

  abbrev open_range : List (Member E) → List (Member E) → Range
  open_range before current = record { start = length before; end = length before + length current }

  slice-open :
      (before current ms : List (Member E))
      → slice (before ++ (current ++ ms)) (open_range before current) ≡ current
  slice-open before current ms =
      let e : (length before + length current) - length before ≡ length current = omega arith in
      rw (e, drop-append before (current ++ ms)) (take-append current ms)

  groups-runs :
      (before current ms : List (Member E)) (priority : ℤ)
      → map
          (slice (before ++ (current ++ ms)))
          (groups_from (open_range before current) priority ms)
        ≡ runs_from current priority ms
  unfolding groups_from runs_from
  groups-runs before current [] priority = ap (λ g. g ∷ []) (slice-open before current [])
  groups-runs before current (m ∷ ms) priority =
      let p = priority_of m in
      elim (Bool-cases (int_eq p priority)) [
        | inl e ↦
            let n : length before + length (current ++ m ∷ [])
                ≡ (length before + length current) + 1 =
              omega (arith, length-append current (m ∷ [])) in
            let step = groups-runs before (current ++ m ∷ []) ms p in
            let a : (current ++ m ∷ []) ++ ms ≡ current ++ m ∷ ms =
              append_assoc current (m ∷ []) ms in
            rw e (rw a at (rw n at step))
        | inr e ↦
            let n : length (before ++ current) ≡ length before + length current =
              length-append before current in
            let step = groups-runs (before ++ current) (m ∷ []) ms p in
            let a : (before ++ current) ++ (m ∷ ms) ≡ before ++ (current ++ m ∷ ms) =
              append_assoc before current (m ∷ ms) in
            let rest = rw a at (rw n at step) in
            rw (e, slice-open before current (m ∷ ms)) (ap (◌∷◌ current) rest)
      ]

  priority_groups-runs : (ms : List (Member E)) → map (slice ms) (priority_groups ms) ≡ runs ms
  unfolding priority_groups runs
  priority_groups-runs [] = refl
  priority_groups-runs (m ∷ ms) = groups-runs [] (m ∷ []) ms (priority_of m)

  add_groups-runs :
      (class_base : Text) (ms : List (Member E)) (previous : Option (List (Member E)))
      (groups : List Range) (graph : ChainGraph E)
      → add_groups class_base ms previous groups graph
        ≡ add_runs class_base previous (map (slice ms) groups) graph
  unfolding add_groups add_runs
  add_groups-runs class_base ms previous [] graph = refl
  add_groups-runs class_base ms previous (range ∷ groups) graph =
      add_groups-runs class_base ms (some (slice ms range)) groups _

  -- A group and the one before it are disjoint parts of the list.
  groups_fit :
      (before : ℕ) (open_group : Range) (priority : ℤ) (ms : List (Member E))
      → open_group.start < open_group.end
      → (before + range_len open_group) + length ms ≤ 63
      → candidate_overflow before (groups_from open_group priority ms) ≡ none
  unfolding candidate_overflow groups_from candidate_count
  groups_fit before open_group priority [] h k = ground arith
  groups_fit before open_group priority (m ∷ ms) h k =
      elim (Bool-cases (int_eq (priority_of m) priority)) [
        | inl e ↦ rw e (
            groups_fit before (record { start = open_group.start; end = open_group.end + 1 })
              (priority_of m) ms (omega arith) (omega arith))
        | inr e ↦
            let rest =
              groups_fit (range_len open_group)
                (record { start = open_group.end; end = open_group.end + 1 }) (priority_of m) ms
                (omega arith) (omega arith) in
            rw e (ground (arith, rest))
      ]

  priority_groups_fit :
      (ms : List (Member E)) → length ms ≤ 63 → candidate_overflow 0 (priority_groups ms) ≡ none
  unfolding priority_groups candidate_overflow
  priority_groups_fit [] h = refl
  priority_groups_fit (m ∷ ms) h =
      groups_fit 0 (record { start = 0; end = 1 }) (priority_of m) ms (omega arith) (omega arith)

  graph_of-runs :
      (class_base : Text) (ms : List (Member E))
      → length ms ≤ 63
      → graph_of class_base ms ≡ add_runs class_base none (runs ms) empty_graph
  unfolding graph_of
  graph_of-runs class_base ms h =
      let all_groups = add_groups-runs class_base ms none (priority_groups ms) empty_graph in
      rw (priority_groups_fit ms h, graph_of) (rw (priority_groups-runs ms) at all_groups)

  -- A base with fewer than 64 registrations gets the edges and the ties of the runs of its
  -- registrations, sorted by priority: the limit on candidates never stops one. With 64 or more, it
  -- gets no edges and the one issue that gives the number of its classes.
  pub build_base_chain-runs :
      (class_base : Text) (ms : List (Member E))
      → build_base_chain class_base ms ≡ (
          if ltb (length ms) 64
          then add_runs class_base none (runs (sort_by by_priority ms)) empty_graph
          else issue_only (class_limit_exceeded class_base (saturating_add (length ms) 1) 64))
  unfolding build_base_chain
  build_base_chain-runs class_base ms =
      let sorted = sort_by by_priority ms in
      let same_length = length-Permᴰ (sort_by-perm by_priority ms) in
      elim (Bool-cases (ltb (length ms) 64)) [
        | inl e ↦
            let small = ltb→lt (length ms) 64 e in
            let kept : ltb 64 (min (length ms + 1) max_usize) ≡ false = ground arith in
            rw (e, kept) (graph_of-runs class_base sorted (omega arith))
        | inr e ↦
            let over : ltb 64 (min (length ms + 1) max_usize) ≡ true = ground arith in
            rw (e, over) refl
      ]
