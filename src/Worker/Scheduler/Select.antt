-- ===== src/Worker/Scheduler/Select.antt =====
-- The search of `FairScheduler::pop` in src/semantic/worker/scheduler.rs: which item it finds.
use trufflepig.Prelude.{
  ℕ, zero, suc, ◌+◌, ◌%◌, ◌<◌, ◌≡◌, refl, sym, ◌∙◌, ap, subst, arith, none, some, List, [], ◌∷◌,
  length, get_elem?, Key, Option-cases, inl, inr,
}
use trufflepig.Prelude.Maps.{Map, get, modify}
use trufflepig.Worker.Scheduler.{
  RequestClass, RootQueue, FairScheduler, Selection, queue_of, with_queue, take_from, take_at,
  find_from,
}
use trufflepig.Worker.Scheduler.Views.{queued, waiting}

module _ {K T : Type 0} ⦃e : Key K⦄ where
  -- The items of a class that wait at a position of `order`.
  abbrev pub slot : FairScheduler K T → RequestClass → ℕ → List T
  slot s class index = elim (get_elem? s.order index) [
    | none ↦ []
    | some root ↦ waiting s root class
  ]

  -- An item taken from the front of its queue.
  pub record IsTaken (roots : Map K (RootQueue T)) (class : RequestClass) (root : K) (index : ℕ)
      (selection : Selection K T) : Type 0 where
    pub queue : RootQueue T
    pub rest : List T
    pub found : get root roots ≡ some queue
    pub front : queue_of class queue ≡ selection.item ∷ rest
    pub roots_after : selection.roots ≡ modify root (with_queue class rest) roots
    pub class_is : selection.class ≡ class
    pub index_is : selection.index ≡ index

  take_from-none :
      (class : RequestClass) (root : K) (index : ℕ) (roots : Map K (RootQueue T))
      → take_from class root index roots ≡ none
      → queued roots root class ≡ []
  unfolding take_from
  take_from-none class root index roots h = ground arith

  take_from-IsTaken :
      (class : RequestClass) (root : K) (index : ℕ) (roots : Map K (RootQueue T))
      (selection : Selection K T)
      → take_from class root index roots ≡ some selection
      → IsTaken roots class root index selection
  unfolding take_from
  take_from-IsTaken class root index roots selection h = elim (Option-cases (get root roots)) [
    | inl e ↦ absurd (ground arith)
    | inr (q, e) ↦ by_queue q (queue_of class q) e refl
  ]
    where
      by_queue :
          (q : RootQueue T) (items : List T)
          → get root roots ≡ some q
          → queue_of class q ≡ items
          → IsTaken roots class root index selection
      by_queue q [] e f = absurd (ground arith)
      by_queue q (item ∷ rest) e f = record {
        queue = q;
        rest = rest;
        found = e;
        front = ground arith;
        roots_after = ground arith;
        class_is = ground arith;
        index_is = ground arith;
      }

  take_at-none :
      (class : RequestClass) (s : FairScheduler K T) (offset : ℕ)
      → take_at class s offset ≡ none
      → slot s class ((s.cursor + offset) % length s.order) ≡ []
  unfolding take_at
  take_at-none class s offset h =
      elim (Option-cases (get_elem? s.order ((s.cursor + offset) % length s.order))) [
        | inl e ↦ ground arith
        | inr (root, e) ↦
            rw (e, slot)
              (take_from-none class root ((s.cursor + offset) % length s.order) s.roots
                (ground arith))
      ]

  -- The search stops at the first slot, going round from the cursor, that holds an item.
  pub record IsFound (class : RequestClass) (s : FairScheduler K T) (offset rounds : ℕ)
      (selection : Selection K T) : Type 0 where
    pub root : K
    pub at_root : get_elem? s.order selection.index ≡ some root
    pub taken : IsTaken s.roots class root selection.index selection
    pub distance : ℕ
    pub near : distance < rounds
    pub index_at : selection.index ≡ (s.cursor + (offset + distance)) % length s.order
    pub skipped :
        (d : ℕ) → d < distance → slot s class ((s.cursor + (offset + d)) % length s.order) ≡ []

  take_at-IsFound :
      (class : RequestClass) (s : FairScheduler K T) (offset rounds : ℕ) (selection : Selection K T)
      → take_at class s offset ≡ some selection
      → IsFound class s offset (suc rounds) selection
  unfolding take_at
  take_at-IsFound class s offset rounds selection h =
      elim (Option-cases (get_elem? s.order ((s.cursor + offset) % length s.order))) [
        | inl e ↦ absurd (ground arith)
        | inr (root, e) ↦
            let t =
              take_from-IsTaken class root ((s.cursor + offset) % length s.order) s.roots selection
                (ground arith) in
            record {
              root = root;
              at_root = rw t.index_is e;
              taken = subst (λ i. IsTaken s.roots class root i selection) (sym t.index_is) t;
              distance = 0;
              near = omega arith;
              index_at = t.index_is ∙ ap (λ k. (s.cursor + k) % length s.order) (omega arith);
              skipped = λ d lt. absurd (omega arith);
            }
      ]

  -- What a slot nearer than the found one holds, when the search goes on from the next offset.
  extend_skipped :
      (class : RequestClass) (s : FairScheduler K T) (offset n : ℕ)
      → slot s class ((s.cursor + offset) % length s.order) ≡ []
      → ((d : ℕ) → d < n → slot s class ((s.cursor + (offset + 1 + d)) % length s.order) ≡ [])
      → (d : ℕ) → d < suc n
      → slot s class ((s.cursor + (offset + d)) % length s.order) ≡ []
  extend_skipped class s offset n first later zero lt =
      subst (λ k. slot s class ((s.cursor + k) % length s.order) ≡ []) (omega arith) first
  extend_skipped class s offset n first later (suc d) lt =
      subst (λ k. slot s class ((s.cursor + k) % length s.order) ≡ []) (omega arith)
        (later d (omega arith))

  -- A search that fails has seen only empty slots.
  pub find_from-none :
      (class : RequestClass) (s : FairScheduler K T) (rounds offset : ℕ)
      → find_from class s rounds offset ≡ none
      → (d : ℕ) → d < rounds
      → slot s class ((s.cursor + (offset + d)) % length s.order) ≡ []
  unfolding find_from
  find_from-none class s zero offset h = λ d lt. absurd (omega arith)
  find_from-none class s (suc rounds) offset h = elim (Option-cases (take_at class s offset)) [
    | inl e ↦
        extend_skipped class s offset rounds (take_at-none class s offset e)
          (find_from-none class s rounds (offset + 1) (ground arith))
    | inr (x, e) ↦ absurd (ground arith)
  ]

  pub find_from-IsFound :
      (class : RequestClass) (s : FairScheduler K T) (rounds offset : ℕ) (selection : Selection K T)
      → find_from class s rounds offset ≡ some selection
      → IsFound class s offset rounds selection
  unfolding find_from
  find_from-IsFound class s zero offset selection h = absurd (ground arith)
  find_from-IsFound class s (suc rounds) offset selection h =
      elim (Option-cases (take_at class s offset)) [
        | inl e ↦
            let f = find_from-IsFound class s rounds (offset + 1) selection (ground arith) in
            record {
              root = f.root;
              at_root = f.at_root;
              taken = f.taken;
              distance = suc f.distance;
              near = omega (arith, f.near);
              index_at = f.index_at ∙ ap (λ k. (s.cursor + k) % length s.order) (omega arith);
              skipped =
                  extend_skipped class s offset f.distance (take_at-none class s offset e)
                    f.skipped;
            }
        | inr (x, e) ↦ take_at-IsFound class s offset rounds selection (ground arith)
      ]
