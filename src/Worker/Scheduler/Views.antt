-- ===== src/Worker/Scheduler/Views.antt =====
-- What a client of src/semantic/worker/scheduler.rs sees: for each root and class a queue of items.
use trufflepig.Prelude.{◌-◌, ◌≤◌, ◌≡◌, none, some, List, [], false, length, Key}
use trufflepig.Prelude.Maps.{Map, get, has, contains, Distinct, DistinctKeys}
use trufflepig.Worker.Scheduler.{RequestClass, RootQueue, FairScheduler, queue_of, is_drained}

module _ {K T : Type 0} ⦃e : Key K⦄ where
  abbrev pub queued : Map K (RootQueue T) → K → RequestClass → List T
  queued roots root class = elim (get root roots) [ none ↦ [] | some q ↦ queue_of class q ]

  -- The abstract state: the items of a root and class, oldest first.
  abbrev pub waiting : FairScheduler K T → K → RequestClass → List T
  waiting s = queued s.roots

  -- `order` and `roots` hold the same roots, once each, and `cursor` is a position in `order`.
  pub record IsLinked (s : FairScheduler K T) : Type 0 where
    pub order_distinct : Distinct s.order
    pub roots_distinct : DistinctKeys s.roots
    pub same : (k : K) → contains s.order k ≡ has k s.roots
    pub cursor_in : s.cursor ≤ length s.order - 1

  -- Between calls no root is left with nothing to do.
  pub record IsValid (s : FairScheduler K T) : Type 0 where
    pub linked : IsLinked s
    pub live : (k : K) (q : RootQueue T) → get k s.roots ≡ some q → is_drained q ≡ false
