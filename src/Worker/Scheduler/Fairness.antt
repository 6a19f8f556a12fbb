-- ===== src/Worker/Scheduler/Fairness.antt =====
-- Which class `FairScheduler::pop` of src/semantic/worker/scheduler.rs serves, and for how long the
-- other one waits.
use trufflepig.Prelude.{
  ℕ, suc, ◌+◌, ◌-◌, ◌≤◌, ◌<◌, ◌≡◌, refl, ◌∙◌, ap, arith, List, ◌∷◌, Key, inl, inr, ◌⊎◌,
}
use trufflepig.Prelude.Maps.{Ord}
use trufflepig.Worker.Scheduler.{
  RequestClass, query, background, FairScheduler, preferred, fallback, enqueue, pop, turns_after,
  taken,
}
use trufflepig.Worker.Scheduler.Views.{waiting, IsValid}
use trufflepig.Worker.Scheduler.Enqueue.{enqueue-IsValid}
use trufflepig.Worker.Scheduler.Drain.{turns-remove_empty_roots}
use trufflepig.Worker.Scheduler.Pop.{IsPopped, pop_cases, pop-IsValid, waiting-NoneFound}

module _ {K T : Type 0} ⦃e : Key K⦄ where
  -- While work of the preferred class waits, `pop` serves that class.
  pub pop_serves_preferred :
      (s : FairScheduler K T) (root : K) (item : T) (rest : List T)
      → IsValid s
      → waiting s root (preferred s.query_turns) ≡ item ∷ rest
      → (p : IsPopped s) × (p.class ≡ preferred s.query_turns)
  pop_serves_preferred s root item rest v w = elim (pop_cases s) [
    | inl (same, n) ↦ absurd (
        ground (
          arith,
          waiting-NoneFound s (preferred s.query_turns) root v.linked (n (preferred s.query_turns)),
        ))
    | inr p ↦ elim p.choice [
      | inl is ↦ (p, is)
      | inr (is, n) ↦
          absurd (ground (arith, waiting-NoneFound s (preferred s.query_turns) root v.linked n))
    ]
  ]

  -- A query is served ahead of waiting background work only in the first three turns.
  overtake :
      (s : FairScheduler K T) (p : IsPopped s) (root : K) (item : T) (rest : List T)
      → IsValid s
      → waiting s root background ≡ item ∷ rest
      → p.class ≡ query
      → s.query_turns < 3
  unfolding preferred fallback
  overtake s p root item rest v w c = elim p.choice [
    | inl is ↦ ground arith
    | inr (is, n) ↦ ground (arith, waiting-NoneFound s (preferred s.query_turns) root v.linked n)
  ]

  turns-pop :
      (s : FairScheduler K T) (p : IsPopped s)
      → (pop s).0.query_turns ≡ turns_after p.class s.query_turns
  unfolding taken
  turns-pop s p =
      ap (λ r. r.0.query_turns) p.result
      ∙ turns-remove_empty_roots (taken s p.selection)
      ∙ ap (λ c. turns_after c s.query_turns) p.found.taken.class_is

module _ {K T : Type 0} ⦃e : Key K⦄ ⦃o : Ord K⦄ where
  -- A stretch of calls in which every `pop` serves a query although background work waits; the
  -- number is that of its pops, and new work may come in at any time.
  pub data QueryRun (s : FairScheduler K T) : FairScheduler K T → ℕ → Type 0 where
    start : QueryRun s s 0
    arrives :
        {t : FairScheduler K T} {n : ℕ} (root : K) (class : RequestClass) (item : T)
        → QueryRun s t n
        → QueryRun s (enqueue t root class item) n
    serves :
        {t : FairScheduler K T} {n : ℕ} (root : K) (item : T) (rest : List T) (p : IsPopped t)
        → QueryRun s t n
        → waiting t root background ≡ item ∷ rest
        → p.class ≡ query
        → QueryRun s (pop t).0 (suc n)

  turns-enqueue :
      (s : FairScheduler K T) (root : K) (class : RequestClass) (item : T)
      → (enqueue s root class item).query_turns ≡ s.query_turns
  unfolding enqueue
  turns-enqueue s root class item = refl

  QueryRun-bound :
      {s t : FairScheduler K T} {n : ℕ}
      → IsValid s
      → QueryRun s t n
      → IsValid t × ((n ≡ 0) ⊎ (s.query_turns + n ≤ 3)) × (t.query_turns ≡ s.query_turns + n)
  unfolding turns_after
  QueryRun-bound v start = (v, inl refl, omega arith)
  QueryRun-bound v (arrives {t = t} root class item r) =
      let (u, b, q) = QueryRun-bound v r in
      (enqueue-IsValid t root class item u, b, turns-enqueue t root class item ∙ q)
  QueryRun-bound v (serves {t = t} root item rest p r w c) =
      let (u, b, q) = QueryRun-bound v r in
      let early = overtake t p root item rest u w c in
      (pop-IsValid t u, inr (omega arith), ground (arith, turns-pop t p))

  -- Background work is never starved: from any valid state, at most three queries in a row, less
  -- the turns that queries have already had, are served while background work waits.
  pub background_not_starved :
      {s t : FairScheduler K T} {n : ℕ} → IsValid s → QueryRun s t n → n ≤ 3 - s.query_turns
  background_not_starved v r = let (u, b, q) = QueryRun-bound v r in omega arith
