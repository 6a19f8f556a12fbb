-- ===== src/Worker/Scheduler/Enqueue.antt =====
-- `push` and `enqueue` of src/semantic/worker/scheduler.rs.
use trufflepig.Prelude.{
  ◌+◌, ◌≡◌, refl, arith, Option, none, some, List, [], ◌∷◌, ◌++◌, Bool, true, false, ◌||◌,
  length-append, Key, ◌==◌, if◌then◌else◌, Bool-cases, Option-cases, inl, inr,
}
use trufflepig.Prelude.Maps.{
  Ord, Map, get, has, contains, Distinct, DistinctKeys, or_insert, put_sorted, get-modify,
  has-modify, modify-Distinct, total-modify, has-get, get-has, has-put_sorted, get-put_sorted,
  put_sorted-Distinct, total-put_sorted, ==-comm,
}
use trufflepig.Worker.Scheduler.{
  RequestClass, query, background, RootQueue, FairScheduler, queue_of, with_queue, empty_queue,
  is_drained, queue_len, enqueue, pending, is_empty,
}
use trufflepig.Worker.Scheduler.Views.{waiting, IsLinked, IsValid}

abbrev pub same_class : RequestClass → RequestClass → Bool
same_class query query = true
same_class background background = true
same_class _ _ = false

module _ {K : Type 0} ⦃e : Key K⦄ where
  pub contains-append :
      (xs ys : List K) (k : K) → contains (xs ++ ys) k ≡ (contains xs k || contains ys k)
  contains-append [] ys k = refl
  contains-append (x ∷ xs) ys k = ground (arith, contains-append xs ys k)

  Distinct-snoc :
      (xs : List K) (k : K) → contains xs k ≡ false → Distinct xs → Distinct (xs ++ (k ∷ []))
  Distinct-snoc [] k h d = (refl, tt)
  Distinct-snoc (x ∷ xs) k h d =
      ground (arith, Distinct-snoc xs k, contains-append xs (k ∷ []) x, ==-comm k x)

module _ {T : Type 0} where
  abbrev pub append_item : RequestClass → T → RootQueue T → RootQueue T
  append_item class item q = with_queue class (queue_of class q ++ (item ∷ [])) q

  is_empty-snoc : (xs : List T) (x : T) → is_empty (xs ++ (x ∷ [])) ≡ false
  is_empty-snoc [] x = refl
  is_empty-snoc (y ∷ xs) x = refl

  append_item-live :
      (class : RequestClass) (item : T) (q : RootQueue T)
      → is_drained (append_item class item q) ≡ false
  append_item-live query item q = ground (arith, is_empty-snoc q.query item)
  append_item-live background item q = ground (arith, is_empty-snoc q.background item)

  queue_len-append_item :
      (class : RequestClass) (item : T) (q : RootQueue T)
      → queue_len (append_item class item q) ≡ queue_len q + 1
  queue_len-append_item query item q = omega (arith, length-append q.query (item ∷ []))
  queue_len-append_item background item q = omega (arith, length-append q.background (item ∷ []))

  queue_of-append_item :
      (class c : RequestClass) (item : T) (q : RootQueue T)
      → queue_of c (append_item class item q)
        ≡ (if same_class class c then queue_of c q ++ (item ∷ []) else queue_of c q)
  queue_of-append_item query query item q = refl
  queue_of-append_item query background item q = refl
  queue_of-append_item background query item q = refl
  queue_of-append_item background background item q = refl

  append_item-found :
      (class : RequestClass) (item : T) (q : RootQueue T) (found : Option (RootQueue T))
      → elim found [ none ↦ none | some u ↦ some (append_item class item u) ] ≡ some q
      → is_drained q ≡ false
  append_item-found class item q none h = cc
  append_item-found class item q (some u) h = ground (arith, append_item-live class item u)

module _ {K T : Type 0} ⦃e : Key K⦄ ⦃o : Ord K⦄ where
  get-or_insert :
      (j k : K) (v : RootQueue T) (m : Map K (RootQueue T))
      → get j (or_insert k v m)
        ≡ (if k == j then elim (get k m) [ none ↦ some v | some u ↦ some u ] else get j m)
  unfolding or_insert
  get-or_insert j k v m =
      ground (arith, get-put_sorted j k v m, has-get k m, get-has k m, e.same_iff k j)

  -- A new item goes to the end of its own queue, and no other queue changes.
  pub waiting-enqueue :
      (s : FairScheduler K T) (root j : K) (class c : RequestClass) (item : T)
      → waiting (enqueue s root class item) j c ≡ (
          if root == j
          then if same_class class c then waiting s j c ++ (item ∷ []) else waiting s j c
          else waiting s j c)
  unfolding enqueue
  waiting-enqueue s root j query query item = ground (
    arith,
    get-modify j root (append_item query item) (or_insert root empty_queue s.roots),
    get-or_insert j root empty_queue s.roots,
    e.same_iff root j,
  )
  waiting-enqueue s root j query background item = ground (
    arith,
    get-modify j root (append_item query item) (or_insert root empty_queue s.roots),
    get-or_insert j root empty_queue s.roots,
    e.same_iff root j,
  )
  waiting-enqueue s root j background query item = ground (
    arith,
    get-modify j root (append_item background item) (or_insert root empty_queue s.roots),
    get-or_insert j root empty_queue s.roots,
    e.same_iff root j,
  )
  waiting-enqueue s root j background background item = ground (
    arith,
    get-modify j root (append_item background item) (or_insert root empty_queue s.roots),
    get-or_insert j root empty_queue s.roots,
    e.same_iff root j,
  )

  or_insert-Distinct :
      (k : K) (v : RootQueue T) (m : Map K (RootQueue T))
      → DistinctKeys m
      → DistinctKeys (or_insert k v m)
  unfolding or_insert
  or_insert-Distinct k v m d = ground (arith, put_sorted-Distinct k v m)

  has-or_insert :
      (j k : K) (v : RootQueue T) (m : Map K (RootQueue T))
      → has j (or_insert k v m) ≡ (k == j || has j m)
  unfolding or_insert
  has-or_insert j k v m = ground (arith, has-put_sorted j k v m, e.same_iff k j)

  enqueue-IsLinked :
      (s : FairScheduler K T) (root : K) (class : RequestClass) (item : T)
      → IsLinked s
      → IsLinked (enqueue s root class item)
  unfolding enqueue
  enqueue-IsLinked s root class item v = record {
    order_distinct = ground (arith, Distinct-snoc s.order root, v.same root, get-has root s.roots);
    roots_distinct =
        modify-Distinct root (append_item class item) (or_insert root empty_queue s.roots)
          (or_insert-Distinct root empty_queue s.roots v.roots_distinct);
    same = λ k. ground (
      arith,
      v.same k,
      contains-append s.order (root ∷ []) k,
      has-modify k root (append_item class item) (or_insert root empty_queue s.roots),
      has-or_insert k root empty_queue s.roots,
      has-get root s.roots,
      get-has root s.roots,
      e.same_iff root k,
    );
    cursor_in = ground (arith, length-append s.order (root ∷ []), v.cursor_in);
  }

  enqueue-live :
      (s : FairScheduler K T) (root : K) (class : RequestClass) (item : T)
      → IsValid s
      → (k : K) (q : RootQueue T) → get k (enqueue s root class item).roots ≡ some q
      → is_drained q ≡ false
  unfolding enqueue
  enqueue-live s root class item v k q h = elim (Bool-cases (root == k)) [
    | inl same ↦ append_item-found class item q (get k (or_insert root empty_queue s.roots)) (
        ground
          (arith, get-modify k root (append_item class item) (or_insert root empty_queue s.roots)))
    | inr other ↦ v.live k q (
        ground (
          arith,
          get-modify k root (append_item class item) (or_insert root empty_queue s.roots),
          get-or_insert k root empty_queue s.roots,
        ))
  ]

  pub enqueue-IsValid :
      (s : FairScheduler K T) (root : K) (class : RequestClass) (item : T)
      → IsValid s
      → IsValid (enqueue s root class item)
  enqueue-IsValid s root class item v = record {
    linked = enqueue-IsLinked s root class item v.linked;
    live = enqueue-live s root class item v;
  }

  -- Every call adds one to `pending`.
  pub pending-enqueue :
      (s : FairScheduler K T) (root : K) (class : RequestClass) (item : T)
      → pending (enqueue s root class item) ≡ pending s + 1
  unfolding pending enqueue or_insert
  pending-enqueue s root class item = elim (Option-cases (get root s.roots)) [
    | inl absent ↦ ground (
      arith,
      get-has root s.roots absent,
      total-put_sorted queue_len root empty_queue s.roots,
      get-put_sorted root root empty_queue s.roots,
      e.same_iff root root,
      total-modify queue_len root (append_item class item) (put_sorted root empty_queue s.roots)
          empty_queue,
      queue_len-append_item class item empty_queue,
    )
    | inr (q, present) ↦ ground (
      arith,
      has-get root s.roots,
      total-modify queue_len root (append_item class item) s.roots q present,
      queue_len-append_item class item q,
    )
  ]
