-- ===== src/Worker/Scheduler.antt =====
-- src/semantic/worker/scheduler.rs: queries and background work of many roots, in turn.
-- A root identifier is a key with equality and an order; an item is any value.
pub mod Views
pub mod Enqueue
pub mod Select
pub mod Drain
pub mod Pop
pub mod Reach
pub mod Fairness
pub mod Pending
use trufflepig.Prelude.{
  ℕ, zero, suc, ◌+◌, ◌-◌, ◌%◌, min, Bool, true, false, Option, none, some, List, [], ◌∷◌, ◌++◌,
  if◌then◌else◌, ltb, nat_eq, length, get_elem?, remove_at, Key, ◌==◌,
}
use trufflepig.Prelude.Maps.{Ord, Map, get, modify, remove, or_insert, total}

pub data RequestClass : Type 0 where
  query background : RequestClass

pub record RootQueue (T : Type 0) : Type 0 where
  pub query : List T
  pub background : List T

-- The head of a list is the front of the `VecDeque`.
pub record FairScheduler (K T : Type 0) : Type 0 where
  pub roots : Map K (RootQueue T)
  pub order : List K
  pub cursor : ℕ
  pub query_turns : ℕ

module _ {T : Type 0} where
  abbrev pub queue_of : RequestClass → RootQueue T → List T
  queue_of query q = q.query
  queue_of background q = q.background

  abbrev pub with_queue : RequestClass → List T → RootQueue T → RootQueue T
  with_queue query items q = record q { query = items }
  with_queue background items q = record q { background = items }

  abbrev pub empty_queue : RootQueue T
  empty_queue = record { query = []; background = [] }

  abbrev pub is_empty : List T → Bool
  is_empty [] = true
  is_empty (x ∷ xs) = false

  abbrev pub is_drained : RootQueue T → Bool
  is_drained q = elim (is_empty q.query) [ true ↦ is_empty q.background | false ↦ false ]

  abbrev pub queue_len : RootQueue T → ℕ
  queue_len q = length q.query + length q.background

unfoldable pub preferred : ℕ → RequestClass
preferred query_turns = if ltb query_turns 3 then query else background

unfoldable pub fallback : RequestClass → RequestClass
fallback query = background
fallback background = query

unfoldable pub turns_after : RequestClass → ℕ → ℕ
turns_after query turns = min (turns + 1) 255
turns_after background turns = 0

-- What the loops of `pop` find: an item, its class, the position of its root in `order`, and the
-- roots without the item.
pub record Selection (K T : Type 0) : Type 0 where
  pub item : T
  pub class : RequestClass
  pub index : ℕ
  pub roots : Map K (RootQueue T)

module _ {K : Type 0} ⦃e : Key K⦄ where
  unfoldable pub position : K → List K → Option ℕ
  position k [] = none
  position k (j ∷ ks) =
      if j == k then some 0 else elim (position k ks) [ none ↦ none | some i ↦ some (suc i) ]

module _ {K T : Type 0} ⦃e : Key K⦄ where
  -- The round for one root: its queue's front, if it has one.
  unfoldable pub take_from : RequestClass → K → ℕ → Map K (RootQueue T) → Option (Selection K T)
  take_from class root index roots = elim (get root roots) [
    | none ↦ none
    | some queue ↦ elim (queue_of class queue) [
      | [] ↦ none
      | item ∷ rest ↦ some (record {
        item = item;
        class = class;
        index = index;
        roots = modify root (with_queue class rest) roots;
      })
    ]
  ]

  -- The body of `for offset in 0..order.len()`. The index is below `order.len()`.
  unfoldable pub take_at : RequestClass → FairScheduler K T → ℕ → Option (Selection K T)
  unfolding take_from
  take_at class s offset =
      let index = (s.cursor + offset) % length s.order in
      elim (get_elem? s.order index) [
        | none ↦ none
        | some root ↦ take_from class root index s.roots
      ]

  -- The loop, for the offsets from `offset` up to `offset + rounds`.
  unfoldable pub find_from : RequestClass → FairScheduler K T → ℕ → ℕ → Option (Selection K T)
  unfolding take_at
  find_from class s zero offset = none
  find_from class s (suc rounds) offset =
      let rest = find_from class s rounds (offset + 1) in
      elim (take_at class s offset) [ none ↦ rest | some selection ↦ some selection ]

  -- `for class in [preferred, fallback]`
  unfoldable pub select : FairScheduler K T → Option (Selection K T)
  unfolding find_from preferred fallback
  select s =
      let second = find_from (fallback (preferred s.query_turns)) s (length s.order) 0 in
      elim (find_from (preferred s.query_turns) s (length s.order) 0) [
        | none ↦ second
        | some selection ↦ some selection
      ]

  unfoldable pub empty_roots : Map K (RootQueue T) → List K
  empty_roots [] = []
  empty_roots ((root, queue) ∷ m) = if is_drained queue then root ∷ empty_roots m else empty_roots m

  -- One round of the loop of `remove_empty_roots`.
  unfoldable pub remove_root : FairScheduler K T → K → FairScheduler K T
  unfolding position remove
  remove_root s root =
      let roots = remove root s.roots in
      elim (position root s.order) [
        | none ↦ record s { roots = roots }
        | some index ↦
            let order = remove_at index s.order in
            record s {
              roots = roots;
              order = order;
              cursor =
                  if nat_eq (length order) 0
                  then 0
                  else if ltb index s.cursor
                  then s.cursor - 1
                  else s.cursor % length order;
            }
      ]

  unfoldable pub remove_all : FairScheduler K T → List K → FairScheduler K T
  unfolding remove_root
  remove_all s [] = s
  remove_all s (root ∷ rest) = remove_all (remove_root s root) rest

  unfoldable pub remove_empty_roots : FairScheduler K T → FairScheduler K T
  unfolding remove_all empty_roots
  remove_empty_roots s = remove_all s (empty_roots s.roots)

  -- The state that `pop` has when it calls `remove_empty_roots`.
  unfoldable pub taken : FairScheduler K T → Selection K T → FairScheduler K T
  unfolding turns_after
  taken s selection = record s {
    roots = selection.roots;
    query_turns = turns_after selection.class s.query_turns;
    cursor = (selection.index + 1) % length s.order;
  }

  -- `select` finds nothing where `order` is empty, which `pop` tests first.
  unfoldable pub pop : FairScheduler K T → FairScheduler K T × Option T
  unfolding select taken remove_empty_roots
  pop s = if nat_eq (length s.order) 0 then (s, none) else elim (select s) [
    | none ↦ (s, none)
    | some selection ↦ (remove_empty_roots (taken s selection), some selection.item)
  ]

  unfoldable pub pending : FairScheduler K T → ℕ
  pending s = total queue_len s.roots

module _ {K T : Type 0} ⦃e : Key K⦄ ⦃o : Ord K⦄ where
  -- `FairScheduler::default()`
  unfoldable pub default : FairScheduler K T
  default = record { roots = []; order = []; cursor = 0; query_turns = 0 }

  unfoldable pub enqueue : FairScheduler K T → K → RequestClass → T → FairScheduler K T
  unfolding or_insert get modify
  enqueue s root class item = record s {
    roots =
        modify root (λ queue. with_queue class (queue_of class queue ++ (item ∷ [])) queue)
          (or_insert root empty_queue s.roots);
    order = elim (get root s.roots) [ none ↦ s.order ++ (root ∷ []) | some queue ↦ s.order ];
  }

  -- `push`, which asks the item for its root.
  unfoldable pub push : (T → K) → FairScheduler K T → RequestClass → T → FairScheduler K T
  unfolding enqueue
  push root_id s class item = enqueue s (root_id item) class item
