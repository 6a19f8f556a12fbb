-- ===== src/Worker/Scheduler/Drain.antt =====
-- `remove_empty_roots` of src/semantic/worker/scheduler.rs.
use native.Mathlib.Nat.{mod-lt}
use trufflepig.Prelude.{
  ℕ, zero, suc, ◌<◌, ◌≡◌, refl, ◌∙◌, arith, none, some, List, [], ◌∷◌, true, false, length,
  remove_at, length-remove_at, Key, ◌==◌, if◌then◌else◌, Bool-cases, Option-cases, inl, inr,
}
use trufflepig.Prelude.Maps.{
  Map, get, has, remove, contains, Distinct, DistinctKeys, has-remove, get-remove, remove-Distinct,
}
use trufflepig.Worker.Scheduler.{
  RequestClass, query, background, RootQueue, FairScheduler, queue_of, is_drained, position,
  empty_roots, remove_root, remove_all, remove_empty_roots,
}
use trufflepig.Worker.Scheduler.Views.{waiting, IsLinked, IsValid}

module _ {K : Type 0} ⦃e : Key K⦄ where
  position-lt : (k : K) (xs : List K) (i : ℕ) → position k xs ≡ some i → i < length xs
  unfolding position
  position-lt k [] i h = absurd (ground arith)
  position-lt k (x ∷ xs) zero h = omega arith
  position-lt k (x ∷ xs) (suc i) h = ground (arith, position-lt k xs i)

  position-none : (k : K) (xs : List K) → position k xs ≡ none → contains xs k ≡ false
  unfolding position
  position-none k [] h = refl
  position-none k (x ∷ xs) h = ground (arith, position-none k xs)

  contains-remove_at :
      (j k : K) (xs : List K) (i : ℕ)
      → Distinct xs
      → position k xs ≡ some i
      → contains (remove_at i xs) j ≡ (if k == j then false else contains xs j)
  unfolding position
  contains-remove_at j k [] i d h = absurd (ground arith)
  contains-remove_at j k (x ∷ xs) zero d h =
      ground (arith, e.same_iff x k, e.same_iff x j, e.same_iff k j)
  contains-remove_at j k (x ∷ xs) (suc i) d h =
      ground
        (arith, contains-remove_at j k xs i d.1, e.same_iff x k, e.same_iff x j, e.same_iff k j)

  remove_at-Distinct :
      (k : K) (xs : List K) (i : ℕ)
      → Distinct xs
      → position k xs ≡ some i
      → Distinct (remove_at i xs)
  unfolding position
  remove_at-Distinct k [] i d h = tt
  remove_at-Distinct k (x ∷ xs) zero d h = d.1
  remove_at-Distinct k (x ∷ xs) (suc i) d h =
      ground (arith, remove_at-Distinct k xs i d.1, contains-remove_at x k xs i d.1)

module _ {T : Type 0} where
  pub drained-queue_of :
      (q : RootQueue T) (class : RequestClass) → is_drained q ≡ true → queue_of class q ≡ []
  drained-queue_of q query h = ground arith
  drained-queue_of q background h = ground arith

module _ {K T : Type 0} ⦃e : Key K⦄ where
  pub remove_root-IsLinked :
      (s : FairScheduler K T) (root : K) → IsLinked s → IsLinked (remove_root s root)
  unfolding remove_root
  remove_root-IsLinked s root v = elim (Option-cases (position root s.order)) [
    | inl p ↦
        rw (p, remove_root)
          (record {
            order_distinct = v.order_distinct;
            roots_distinct = remove-Distinct root s.roots v.roots_distinct;
            same = λ k. ground (
              arith,
              position-none root s.order p,
              v.same k,
              has-remove k root s.roots v.roots_distinct,
              e.same_iff root k,
            );
            cursor_in = v.cursor_in;
          })
    | inr (i, p) ↦
        rw (p, remove_root)
          (record {
            order_distinct = remove_at-Distinct root s.order i v.order_distinct p;
            roots_distinct = remove-Distinct root s.roots v.roots_distinct;
            same = λ k. ground (
              arith,
              contains-remove_at k root s.order i v.order_distinct p,
              v.same k,
              has-remove k root s.roots v.roots_distinct,
            );
            cursor_in = ground (
              arith,
              v.cursor_in,
              length-remove_at i s.order (position-lt root s.order i p),
              mod-lt s.cursor {m = length (remove_at i s.order)},
            );
          })
  ]

  pub roots-remove_root :
      (s : FairScheduler K T) (root : K) → (remove_root s root).roots ≡ remove root s.roots
  unfolding remove_root
  roots-remove_root s root = ground arith

  turns-remove_root :
      (s : FairScheduler K T) (root : K) → (remove_root s root).query_turns ≡ s.query_turns
  unfolding remove_root
  turns-remove_root s root = ground arith

  pub remove_all-IsLinked :
      (s : FairScheduler K T) (ks : List K) → IsLinked s → IsLinked (remove_all s ks)
  unfolding remove_all
  remove_all-IsLinked s [] v = v
  remove_all-IsLinked s (k ∷ ks) v =
      remove_all-IsLinked (remove_root s k) ks (remove_root-IsLinked s k v)

  pub turns-remove_all :
      (s : FairScheduler K T) (ks : List K) → (remove_all s ks).query_turns ≡ s.query_turns
  unfolding remove_all
  turns-remove_all s [] = refl
  turns-remove_all s (k ∷ ks) = turns-remove_all (remove_root s k) ks ∙ turns-remove_root s k

  pub get-remove_all :
      (s : FairScheduler K T) (ks : List K) (j : K)
      → IsLinked s
      → get j (remove_all s ks).roots ≡ (if contains ks j then none else get j s.roots)
  unfolding remove_all
  get-remove_all s [] j v = refl
  get-remove_all s (k ∷ ks) j v = ground (
    arith,
    get-remove_all (remove_root s k) ks j (remove_root-IsLinked s k v),
    roots-remove_root s k,
    get-remove j k s.roots v.roots_distinct,
  )

  empty_roots-absent :
      (m : Map K (RootQueue T)) (j : K) → has j m ≡ false → contains (empty_roots m) j ≡ false
  unfolding empty_roots has
  empty_roots-absent [] j h = refl
  empty_roots-absent ((i, q) ∷ m) j h = ground (arith, empty_roots-absent m j)

  -- The roots that the loop of `remove_empty_roots` is given are those with nothing to do.
  pub contains-empty_roots :
      (m : Map K (RootQueue T)) (j : K) (q : RootQueue T)
      → DistinctKeys m
      → get j m ≡ some q
      → contains (empty_roots m) j ≡ is_drained q
  unfolding empty_roots get
  contains-empty_roots [] j q d h = absurd (ground arith)
  contains-empty_roots ((i, u) ∷ m) j q d h = elim (Bool-cases (i == j)) [
    | inl same ↦
        let p : i ≡ j = (e.same_iff i j).0 same in
        ground (arith, empty_roots-absent m i d.0, e.same_iff j j)
    | inr other ↦ ground (arith, contains-empty_roots m j q d.1)
  ]

  -- No waiting item is touched when roots with nothing to do are removed.
  pub waiting-remove_empty_roots :
      (s : FairScheduler K T) (j : K) (class : RequestClass)
      → IsLinked s
      → waiting (remove_empty_roots s) j class ≡ waiting s j class
  unfolding remove_empty_roots
  waiting-remove_empty_roots s j class v = elim (Option-cases (get j s.roots)) [
    | inl absent ↦ ground (arith, get-remove_all s (empty_roots s.roots) j v)
    | inr (q, present) ↦ ground (
      arith,
      get-remove_all s (empty_roots s.roots) j v,
      contains-empty_roots s.roots j q v.roots_distinct present,
      drained-queue_of q class,
    )
  ]

  live-remove_empty_roots :
      (s : FairScheduler K T)
      → IsLinked s
      → (j : K) (q : RootQueue T) → get j (remove_empty_roots s).roots ≡ some q
      → is_drained q ≡ false
  unfolding remove_empty_roots
  live-remove_empty_roots s v j q h = elim (Option-cases (get j s.roots)) [
    | inl absent ↦ absurd (ground (arith, get-remove_all s (empty_roots s.roots) j v))
    | inr (u, present) ↦ ground (
      arith,
      get-remove_all s (empty_roots s.roots) j v,
      contains-empty_roots s.roots j u v.roots_distinct present,
    )
  ]

  pub remove_empty_roots-IsValid :
      (s : FairScheduler K T) → IsLinked s → IsValid (remove_empty_roots s)
  unfolding remove_empty_roots
  remove_empty_roots-IsValid s v = record {
    linked = remove_all-IsLinked s (empty_roots s.roots) v;
    live = live-remove_empty_roots s v;
  }

  pub turns-remove_empty_roots :
      (s : FairScheduler K T) → (remove_empty_roots s).query_turns ≡ s.query_turns
  unfolding remove_empty_roots
  turns-remove_empty_roots s = turns-remove_all s (empty_roots s.roots)
