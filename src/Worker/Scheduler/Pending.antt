-- ===== src/Worker/Scheduler/Pending.antt =====
-- `pending` of src/semantic/worker/scheduler.rs counts what `pop` has still to return.
use trufflepig.Prelude.{
  suc, ◌≡◌, refl, sym, ◌∙◌, ap, arith, some, List, [], ◌∷◌, true, length, Key, ◌==◌, Bool-cases,
  inl, inr,
}
use trufflepig.Prelude.Maps.{Map, get, remove, contains, total, total-modify, get-remove}
use trufflepig.Worker.Scheduler.{
  RequestClass, query, background, RootQueue, FairScheduler, queue_of, with_queue, is_drained,
  queue_len, empty_roots, remove_root, remove_all, remove_empty_roots, pending, pop, taken,
}
use trufflepig.Worker.Scheduler.Views.{IsLinked, IsValid}
use trufflepig.Worker.Scheduler.Drain.{
  roots-remove_root, remove_root-IsLinked, contains-empty_roots, drained-queue_of,
}
use trufflepig.Worker.Scheduler.Pop.{IsPopped, pop_cases, taken-IsLinked}

module _ {T : Type 0} where
  queue_len-drained : (q : RootQueue T) → is_drained q ≡ true → queue_len q ≡ 0
  queue_len-drained q h =
      ground (arith, drained-queue_of q query h, drained-queue_of q background h)

  queue_len-with_queue :
      (class : RequestClass) (item : T) (rest : List T) (q : RootQueue T)
      → queue_of class q ≡ item ∷ rest
      → queue_len q ≡ suc (queue_len (with_queue class rest q))
  queue_len-with_queue query item rest q h = omega (arith, ap length h)
  queue_len-with_queue background item rest q h = omega (arith, ap length h)

module _ {K T : Type 0} ⦃e : Key K⦄ where
  total-remove_empty :
      (k : K) (m : Map K (RootQueue T))
      → ((q : RootQueue T) → get k m ≡ some q → queue_len q ≡ 0)
      → total queue_len (remove k m) ≡ total queue_len m
  unfolding remove get
  total-remove_empty k [] h = refl
  total-remove_empty k ((j, u) ∷ m) h = elim (Bool-cases (j == k)) [
    | inl same ↦ ground (arith, h u)
    | inr other ↦ ground (arith, total-remove_empty k m (λ q g. h q (rw (other, get) g)))
  ]

  total-remove_all :
      (s : FairScheduler K T) (ks : List K)
      → IsLinked s
      → ((k : K) (q : RootQueue T)
          → contains ks k ≡ true
          → get k s.roots ≡ some q
          → queue_len q ≡ 0)
      → total queue_len (remove_all s ks).roots ≡ total queue_len s.roots
  unfolding remove_all
  total-remove_all s [] v h = refl
  total-remove_all s (k ∷ ks) v h =
      total-remove_all (remove_root s k) ks (remove_root-IsLinked s k v) later
      ∙ ap (total queue_len) (roots-remove_root s k)
      ∙ total-remove_empty k s.roots (λ q g. h k q (ground (arith, e.same_iff k k)) g)
    where
      later :
          (j : K) (q : RootQueue T)
          → contains ks j ≡ true
          → get j (remove_root s k).roots ≡ some q
          → queue_len q ≡ 0
      later j q c g =
          h j q (ground arith)
            (ground (arith, roots-remove_root s k, get-remove j k s.roots v.roots_distinct))

  pending-remove_empty_roots :
      (s : FairScheduler K T) → IsLinked s → pending (remove_empty_roots s) ≡ pending s
  unfolding pending remove_empty_roots
  pending-remove_empty_roots s v = total-remove_all s (empty_roots s.roots) v (λ k q c g.
      queue_len-drained q (sym (contains-empty_roots s.roots k q v.roots_distinct g) ∙ c))

  pending-taken :
      (s : FairScheduler K T) (p : IsPopped s) → pending s ≡ suc (pending (taken s p.selection))
  unfolding pending taken
  pending-taken s p = rw t.roots_after (
      ground (
        arith,
        total-modify queue_len p.found.root (with_queue p.class t.rest) s.roots t.queue t.found,
        queue_len-with_queue p.class p.selection.item t.rest t.queue t.front,
      ))
    where
      open p use {found}
      open found use {taken as t}

  -- A `pop` that returns an item takes one from `pending`.
  pub pending-pop :
      (s after : FairScheduler K T) (item : T)
      → IsValid s
      → pop s ≡ (after, some item)
      → pending s ≡ suc (pending after)
  pending-pop s after item v h = elim (pop_cases s) [
    | inl (same, n) ↦ absurd (ground arith)
    | inr p ↦ ground (
      arith,
      p.result,
      pending-taken s p,
      pending-remove_empty_roots (taken s p.selection) (taken-IsLinked s p v.linked),
    )
  ]
