-- ===== src/Worker/Scheduler/Pop.antt =====
-- `FairScheduler::pop` of src/semantic/worker/scheduler.rs: what it returns and what it leaves.
use native.Mathlib.Nat.{mod-eq_of_lt, mod-eq-sub-mod}
use native.Mathlib.Decide.{dec_lt}
use trufflepig.Prelude.{
  ℕ, suc, ◌+◌, ◌-◌, ◌%◌, ◌≤◌, ◌<◌, ◌≡◌, refl, sym, ◌∙◌, ap, subst, arith, none, some, List, [], ◌∷◌,
  true, false, length, get_elem?, Key, ◌==◌, if◌then◌else◌, Bool-cases, Option-cases, inl, inr, ◌⊎◌,
  nat_eq,
}
use trufflepig.Prelude.Maps.{
  Map, get, contains, modify, has-get, get-modify, has-modify, modify-Distinct,
}
use trufflepig.Worker.Scheduler.{
  RequestClass, query, background, RootQueue, FairScheduler, Selection, with_queue, preferred,
  fallback, find_from, select, taken, remove_empty_roots, pop, turns_after,
}
use trufflepig.Worker.Scheduler.Views.{queued, waiting, IsLinked, IsValid}
use trufflepig.Worker.Scheduler.Enqueue.{same_class}
use trufflepig.Worker.Scheduler.Select.{slot, IsFound, find_from-none, find_from-IsFound}
use trufflepig.Worker.Scheduler.Drain.{
  waiting-remove_empty_roots, remove_empty_roots-IsValid, turns-remove_empty_roots,
}

module _ {K : Type 0} ⦃e : Key K⦄ where
  index_of :
      (k : K) (xs : List K)
      → contains xs k ≡ true
      → (i : ℕ) × (i < length xs) × (get_elem? xs i ≡ some k)
  index_of k [] h = absurd (ground arith)
  index_of k (x ∷ xs) h = elim (Bool-cases (x == k)) [
    | inl same ↦ (0, omega arith, ap some ((e.same_iff x k).0 same))
    | inr other ↦ let (i, lt, at) = index_of k xs (ground arith) in (suc i, omega arith, at)
  ]

class_cases :
    (turns : ℕ) (class : RequestClass)
    → (class ≡ preferred turns) ⊎ (class ≡ fallback (preferred turns))
unfolding preferred fallback
class_cases turns query = ground arith
class_cases turns background = ground arith

-- Every position is some number of steps round from the cursor.
steps_to :
    (cursor len i : ℕ)
    → cursor ≤ len - 1
    → i < len
    → (d : ℕ) × (d < len) × ((cursor + (0 + d)) % len ≡ i)
steps_to cursor len i c h = elim (dec_lt i cursor) [
  | yes p ↦ (
    i + len - cursor,
    omega arith,
    omega (
      arith,
      ap (λ k. k % len) {x = cursor + (0 + (i + len - cursor))} {y = i + len} (omega arith),
      mod-eq-sub-mod {n = i + len} {m = len} (omega arith),
      mod-eq_of_lt {n = i + len - len} {m = len} (omega arith),
    ),
  )
  | no p ↦ (
    i - cursor,
    omega arith,
    omega (
      arith,
      ap (λ k. k % len) {x = cursor + (0 + (i - cursor))} {y = i} (omega arith),
      mod-eq_of_lt {n = i} {m = len} (omega arith),
    ),
  )
]

module _ {K T : Type 0} ⦃e : Key K⦄ where
  -- No item of the class waits at any position of `order`.
  abbrev pub NoneFound : FairScheduler K T → RequestClass → Type 0
  NoneFound s class =
      (d : ℕ) → d < length s.order → slot s class ((s.cursor + (0 + d)) % length s.order) ≡ []

  pub waiting-NoneFound :
      (s : FairScheduler K T) (class : RequestClass) (root : K)
      → IsLinked s
      → NoneFound s class
      → waiting s root class ≡ []
  waiting-NoneFound s class root v n = elim (Bool-cases (contains s.order root)) [
    | inl member ↦
        let (i, lt, at) = index_of root s.order member in
        let (d, near, here) = steps_to s.cursor (length s.order) i v.cursor_in lt in
        let empty : slot s class i ≡ [] = subst (λ k. slot s class k ≡ []) here (n d near) in
        rw (at, slot) at empty
    | inr stranger ↦ ground (arith, has-get root s.roots (sym (v.same root) ∙ stranger))
  ]

  -- What `pop` did, when it returned an item.
  pub record IsPopped (s : FairScheduler K T) : Type 0 where
    pub selection : Selection K T
    pub class : RequestClass
    pub found : IsFound class s 0 (length s.order) selection
    pub choice :
        (class ≡ preferred s.query_turns)
        ⊎ ((class ≡ fallback (preferred s.query_turns)) × NoneFound s (preferred s.query_turns))
    pub result : pop s ≡ (remove_empty_roots (taken s selection), some selection.item)

  pop_empty : (s : FairScheduler K T) → nat_eq (length s.order) 0 ≡ true → pop s ≡ (s, none)
  unfolding pop
  pop_empty s h = rw h

  no_rounds :
      (s : FairScheduler K T) (class : RequestClass)
      → nat_eq (length s.order) 0 ≡ true
      → NoneFound s class
  no_rounds s class h = λ d lt. absurd (ground arith)

  pop_found :
      (s : FairScheduler K T) (selection : Selection K T)
      → nat_eq (length s.order) 0 ≡ false
      → select s ≡ some selection
      → pop s ≡ (remove_empty_roots (taken s selection), some selection.item)
  unfolding pop
  pop_found s selection h f = rw (h, f)

  pop_not_found :
      (s : FairScheduler K T)
      → nat_eq (length s.order) 0 ≡ false
      → select s ≡ none
      → pop s ≡ (s, none)
  unfolding pop
  pop_not_found s h f = rw (h, f)

  select_first :
      (s : FairScheduler K T) (selection : Selection K T)
      → find_from (preferred s.query_turns) s (length s.order) 0 ≡ some selection
      → select s ≡ some selection
  unfolding select
  select_first s selection h = ground arith

  select_second :
      (s : FairScheduler K T)
      → find_from (preferred s.query_turns) s (length s.order) 0 ≡ none
      → select s ≡ find_from (fallback (preferred s.query_turns)) s (length s.order) 0
  unfolding select
  select_second s h = ground arith

  abbrev pub PopCases : FairScheduler K T → Type 0
  PopCases s = ((pop s ≡ (s, none)) × ((class : RequestClass) → NoneFound s class)) ⊎ IsPopped s

  by_second :
      (s : FairScheduler K T)
      → nat_eq (length s.order) 0 ≡ false
      → find_from (preferred s.query_turns) s (length s.order) 0 ≡ none
      → PopCases s
  by_second s h f =
      let other = fallback (preferred s.query_turns) in
      let n : NoneFound s (preferred s.query_turns) =
        find_from-none (preferred s.query_turns) s (length s.order) 0 f in
      elim (Option-cases (find_from other s (length s.order) 0)) [
        | inl g ↦ inl (
          pop_not_found s h (select_second s f ∙ g),
          λ class. elim (class_cases s.query_turns class) [
            | inl is ↦ subst (NoneFound s) (sym is) n
            | inr is ↦ subst (NoneFound s) (sym is) (find_from-none other s (length s.order) 0 g)
          ],
        )
        | inr (selection, g) ↦ inr (record {
          selection = selection;
          class = other;
          found = find_from-IsFound other s (length s.order) 0 selection g;
          choice = inr (refl, n);
          result = pop_found s selection h (select_second s f ∙ g);
        })
      ]

  -- Either nothing waits in any slot and nothing changes, or the first slot round from the cursor
  -- that holds an item of the preferred class, or else of the other one, loses its oldest item.
  pub pop_cases : (s : FairScheduler K T) → PopCases s
  pop_cases s = elim (Bool-cases (nat_eq (length s.order) 0)) [
    | inl h ↦ inl (pop_empty s h, λ class. no_rounds s class h)
    | inr h ↦ elim (Option-cases (find_from (preferred s.query_turns) s (length s.order) 0)) [
      | inl f ↦ by_second s h f
      | inr (selection, f) ↦ inr (record {
        selection = selection;
        class = preferred s.query_turns;
        found = find_from-IsFound (preferred s.query_turns) s (length s.order) 0 selection f;
        choice = inl refl;
        result = pop_found s selection h (select_first s selection f);
      })
    ]
  ]

  queued-modify :
      (m : Map K (RootQueue T)) (class c : RequestClass) (root j : K) (queue : RootQueue T)
      (rest : List T)
      → get root m ≡ some queue
      → queued (modify root (with_queue class rest) m) j c
        ≡ (if root == j then if same_class class c then rest else queued m j c else queued m j c)
  queued-modify m query query root j queue rest h =
      ground (arith, get-modify j root (with_queue query rest) m, e.same_iff root j)
  queued-modify m query background root j queue rest h =
      ground (arith, get-modify j root (with_queue query rest) m, e.same_iff root j)
  queued-modify m background query root j queue rest h =
      ground (arith, get-modify j root (with_queue background rest) m, e.same_iff root j)
  queued-modify m background background root j queue rest h =
      ground (arith, get-modify j root (with_queue background rest) m, e.same_iff root j)

  pub taken-IsLinked :
      (s : FairScheduler K T) (p : IsPopped s) → IsLinked s → IsLinked (taken s p.selection)
  unfolding taken
  taken-IsLinked s p v = record {
    order_distinct = v.order_distinct;
    roots_distinct = rw t.roots_after (modify-Distinct root _ s.roots v.roots_distinct);
    same = λ k. rw t.roots_after (v.same k ∙ sym (has-modify k root _ s.roots));
    cursor_in = omega arith;
  }
    where
      open p use {found}
      open found use {root, taken as t}

  waiting-taken :
      (s : FairScheduler K T) (p : IsPopped s) (j : K) (class : RequestClass)
      → waiting (taken s p.selection) j class ≡ (
          if p.found.root == j
          then if same_class p.class class then p.found.taken.rest else waiting s j class
          else waiting s j class)
  unfolding taken
  waiting-taken s p j class =
      rw t.roots_after (queued-modify s.roots p.class class p.found.root j t.queue t.rest t.found)
    where
      open p use {found}
      open found use {taken as t}

  -- An item that `pop` returns was the oldest of its root and class, and is the only one removed.
  pub record IsServed (s : FairScheduler K T) (after : FairScheduler K T) (item : T) : Type 0 where
    pub root : K
    pub class : RequestClass
    pub rest : List T
    pub oldest : waiting s root class ≡ item ∷ rest
    pub others :
        (j : K) (c : RequestClass)
        → waiting after j c ≡ (
            if root == j then if same_class class c then rest else waiting s j c else waiting s j c)
    pub turns : after.query_turns ≡ turns_after class s.query_turns

  IsPopped-IsServed :
      (s : FairScheduler K T) (p : IsPopped s)
      → IsLinked s
      → IsServed s (remove_empty_roots (taken s p.selection)) p.selection.item
  unfolding taken
  IsPopped-IsServed s p v = record {
    root = p.found.root;
    class = p.class;
    rest = t.rest;
    oldest = ground (arith, t.found, t.front);
    others = λ j c.
        waiting-remove_empty_roots (taken s p.selection) j c (taken-IsLinked s p v)
        ∙ waiting-taken s p j c;
    turns =
        turns-remove_empty_roots (taken s p.selection)
        ∙ ap (λ c. turns_after c s.query_turns) t.class_is;
  }
    where
      open p use {found}
      open found use {taken as t}

  -- `pop` refines the queues: what it returns is the oldest item of some root and class, which alone
  -- is removed; it returns nothing, and changes nothing, exactly when nothing waits anywhere.
  pub pop_refines :
      (s : FairScheduler K T)
      → IsValid s
      → ((pop s ≡ (s, none)) × ((root : K) (class : RequestClass) → waiting s root class ≡ []))
        ⊎ ((after : FairScheduler K T) × (item : T) × (pop s ≡ (after, some item))
            × IsServed s after item)
  pop_refines s v = elim (pop_cases s) [
    | inl (same, n) ↦ inl (same, λ root class. waiting-NoneFound s class root v.linked (n class))
    | inr p ↦ inr (
      remove_empty_roots (taken s p.selection),
      p.selection.item,
      p.result,
      IsPopped-IsServed s p v.linked,
    )
  ]

  -- `pop` keeps the scheduler valid.
  pub pop-IsValid : (s : FairScheduler K T) → IsValid s → IsValid (pop s).0
  pop-IsValid s v = elim (pop_cases s) [
    | inl (same, n) ↦ rw same v
    | inr p ↦
        rw p.result (remove_empty_roots-IsValid (taken s p.selection) (taken-IsLinked s p v.linked))
  ]
