-- ===== src/Search/Permute/Cycles.antt =====
-- permute_in_place of src/search/rerank_window.rs: its loops end, and every element gets where it is
-- bound for.
use trufflepig.Prelude.{
  ℕ, zero, suc, ◌+◌, ◌≤◌, ◌<◌, ◌≡◌, ◌≢◌, refl, sym, ap, subst, ◌∙◌, true, false, Option, some, List,
  nat_eq, nat_eq_iff, length, get_elem?, arith, get_elem?-lt, Bool-cases, inl, inr,
}
use trufflepig.Search.Permute.{put, swap, Scratch, swap_both, settle, settle_from, permute_in_place}
use trufflepig.Search.Permute.Swaps.{
  lt_of_get_elem?, length-swap, Moved, moved, Moved-injective, Moved-sym, get_elem?-swap,
}
use trufflepig.Search.Permute.Unfixed.{
  off, off-cases, unfixed, unfixed_le, unfixed_zero, unfixed-lt, KeepsFixed,
}
use mathlib.Core.Option.{some-injective}

module _ {A : Type 0} where
  abbrev dest : Scratch A → ℕ → Option ℕ
  dest s k = get_elem? s.destinations k

  -- The destinations are those of a permutation of the positions.
  pub record Valid (s : Scratch A) : Type 0 where
    pub same_length : length s.elements ≡ length s.destinations
    pub in_range : (k d : ℕ) → get_elem? s.destinations k ≡ some d → d < length s.destinations
    pub injective :
        (k l d : ℕ)
        → get_elem? s.destinations k ≡ some d
        → get_elem? s.destinations l ≡ some d
        → k ≡ l

  -- `a` is bound for `d`.
  abbrev pub Bound : Scratch A → ℕ → A → Type 0
  Bound s d a =
      (k : ℕ) × ((get_elem? s.destinations k ≡ some d) × (get_elem? s.elements k ≡ some a))

  record Progress (s t : Scratch A) : Type 0 where
    valid : Valid t
    bound : (d : ℕ) (a : A) → Bound s d a → Bound t d a
    fixed : KeepsFixed (dest s) (dest t)
    lengths : length t.destinations ≡ length s.destinations

  none_yet : (s : Scratch A) → Valid s → Progress s s
  none_yet s v = record { valid = v; bound = λ d a b. b; fixed = λ k e. e; lengths = refl }

  chain : (s t r : Scratch A) → Progress s t → Progress t r → Progress s r
  chain s t r p q = record {
    valid = q.valid;
    bound = λ d a b. q.bound d a (p.bound d a b);
    fixed = λ k e. q.fixed k (p.fixed k e);
    lengths = q.lengths ∙ p.lengths;
  }

  module _ (s : Scratch A) (i j m : ℕ) (x y : A) (d : i ≢ j) (v : Valid s) where
    swapped_dest :
        (k o : ℕ)
        → Moved i j k o
        → dest s i ≡ some j
        → dest s j ≡ some m
        → dest (swap_both i j s) k ≡ dest s o
    unfolding swap_both
    swapped_dest k o at_o p q = get_elem?-swap s.destinations i j k o j m d at_o p q

    swapped_element :
        (k o : ℕ)
        → Moved i j k o
        → get_elem? s.elements i ≡ some x
        → get_elem? s.elements j ≡ some y
        → get_elem? ((swap_both i j s).elements) k ≡ get_elem? s.elements o
    unfolding swap_both
    swapped_element k o at_o p q = get_elem?-swap s.elements i j k o x y d at_o p q

    swap_both-lengths :
        (length ((swap_both i j s).destinations) ≡ length s.destinations)
        × (length ((swap_both i j s).elements) ≡ length s.elements)
    unfolding swap_both
    swap_both-lengths = (length-swap i j s.destinations, length-swap i j s.elements)

    swap_both-Valid : dest s i ≡ some j → dest s j ≡ some m → Valid (swap_both i j s)
    swap_both-Valid p q = record {
      same_length = omega (arith, swap_both-lengths.0, swap_both-lengths.1, v.same_length);
      in_range = λ k e h.
          let (o, at_o) = moved i j k in
          let range = v.in_range o e (sym (swapped_dest k o at_o p q) ∙ h) in
          omega (arith, swap_both-lengths.0);
      injective = λ k l e h g.
          let (o, at_o) = moved i j k in
          let (n, at_n) = moved i j l in
          let same : o ≡ n =
            v.injective o n e (sym (swapped_dest k o at_o p q) ∙ h)
              (sym (swapped_dest l n at_n p q) ∙ g) in
          Moved-injective i j k l n d (subst (Moved i j k) same at_o) at_n;
    }

    swap_fixed :
        (k o : ℕ) → Moved i j k o → dest s k ≡ some k → dest s i ≡ some j → dest s o ≡ some k
    swap_fixed k o (inl (e, g)) h p =
        let at_i : dest s i ≡ some i = subst (λ l. dest s l ≡ some l) e h in
        absurd (d (some-injective i j (sym at_i ∙ p)))
    swap_fixed k o (inr (inl (e, g))) h p = rw (e, g) p
    swap_fixed k o (inr (inr (e, (f, g)))) h p = rw g h

    swap_both-Progress :
        dest s i ≡ some j
        → dest s j ≡ some m
        → get_elem? s.elements i ≡ some x
        → get_elem? s.elements j ≡ some y
        → Progress s (swap_both i j s)
    swap_both-Progress p q a b = record {
      valid = swap_both-Valid p q;
      bound = λ e c (k, (h, g)).
          let (o, at_o) = moved i j k in
          let back = Moved-sym i j k o d at_o in
          (o, (swapped_dest o k back p q ∙ h, swapped_element o k back a b ∙ g));
      fixed =
          λ k e. let (o, at_o) = moved i j k in swapped_dest k o at_o p q ∙ swap_fixed k o at_o e p;
      lengths = swap_both-lengths.0;
    }

  -- The destination of a position is not that position's own.
  swapped_off :
      (s : Scratch A) (i j m : ℕ)
      → i ≢ j
      → Valid s
      → dest s i ≡ some j
      → dest s j ≡ some m
      → off (dest s j) j ≡ 1
  swapped_off s i j m d v p q = elim (off-cases (dest s j) j) [
    | inl e ↦ absurd (d (v.injective i j j p e))
    | inr e ↦ e
  ]

  settle-done :
      (fuel i j : ℕ) (s : Scratch A)
      → dest s i ≡ some j
      → nat_eq j i ≡ true
      → settle (suc fuel) i s ≡ s
  unfolding settle
  settle-done fuel i j s p e = rw (p, settle, e) refl

  settle-next :
      (fuel i j : ℕ) (s : Scratch A)
      → dest s i ≡ some j
      → nat_eq j i ≡ false
      → settle (suc fuel) i s ≡ settle fuel i (swap_both i j s)
  unfolding settle swap_both swap
  settle-next fuel i j s p e =
      let given : Option ℕ → Scratch A = λ o. record {
        elements = swap i j s.elements;
        destinations = put (put s.destinations i (get_elem? s.destinations j)) j o;
      } in
      rw (p, settle, e) (ap (λ o. settle fuel i (given o)) p)

  -- With as much fuel as there are positions that are not fixed, the loop fixes its position.
  settle-Progress :
      (fuel i : ℕ) (s : Scratch A)
      → Valid s
      → i < length s.destinations
      → unfixed (length s.destinations) (dest s) ≤ fuel
      → Progress s (settle fuel i s) × (dest (settle fuel i s) i ≡ some i)
  settle-Progress zero i s v l h =
      unfold settle in
      (none_yet s v, unfixed_zero (length s.destinations) (dest s) i (omega arith) l)
  settle-Progress (suc fuel) i s v l h =
      let (j, p) = get_elem?-lt s.destinations i l in
      elim (Bool-cases (nat_eq j i)) [
        | inl e ↦
            let at_i : dest s i ≡ some i = p ∙ ap some ((nat_eq_iff j i).0 e) in
            let stop = settle-done fuel i j s p e in rw stop (none_yet s v, at_i)
        | inr e ↦
            let d : i ≢ j = (λ h. absurd (ground (arith, nat_eq_iff j i))) in
            let in_j = v.in_range i j p in
            let (m, q) = get_elem?-lt s.destinations j in_j in
            let (x, a) = get_elem?-lt s.elements i (omega (arith, v.same_length)) in
            let (y, b) = get_elem?-lt s.elements j (omega (arith, v.same_length)) in
            let next = swap_both i j s in
            let step = swap_both-Progress s i j m x y d v p q a b in
            let back : Moved i j j i = inr (inl (refl, refl)) in
            let at_j = swapped_dest s i j m x y d v j i back p q ∙ p in
            let wrong = swapped_off s i j m d v p q in
            let less =
              unfixed-lt (length s.destinations) (dest s) (dest next) j step.fixed in_j wrong
                at_j in
            let fewer : unfixed (length next.destinations) (dest next) ≤ fuel =
              subst (λ n. unfixed n (dest next) ≤ fuel) (sym step.lengths) (omega (arith, less)) in
            let rest = settle-Progress fuel i next step.valid (omega (arith, step.lengths)) fewer in
            let go_on = settle-next fuel i j s p e in
            rw go_on (chain s next (settle fuel i next) step rest.0, rest.1)
      ]

  settle_from-Progress :
      (count i : ℕ) (s : Scratch A)
      → Valid s
      → i + count ≡ length s.destinations
      → ((k : ℕ) → k < i → dest s k ≡ some k)
      → Progress s (settle_from count i s)
        × ((k : ℕ) → k < length s.destinations → dest (settle_from count i s) k ≡ some k)
  unfolding settle_from
  settle_from-Progress zero i s v l h = (none_yet s v, λ k b. h k (omega arith))
  settle_from-Progress (suc count) i s v l h =
      let n = length s.destinations in
      let next = settle n i s in
      let (step, at_i) = settle-Progress n i s v (omega arith) (unfixed_le n (dest s)) in
      let below : (k : ℕ) → k < i + 1 → dest next k ≡ some k = λ k b.
        elim (Bool-cases (nat_eq k i)) [
          | inl e ↦
              let same : k ≡ i = (nat_eq_iff k i).0 e in
              subst (λ m. dest next m ≡ some m) (sym same) at_i
          | inr e ↦ step.fixed k (h k (ground (arith, nat_eq_iff k i)))
        ] in
      let (rest, all_fixed) =
        settle_from-Progress count (i + 1) next step.valid (omega (arith, step.lengths)) below in
      (
        chain s next (settle_from count (i + 1) next) step rest,
        λ k b. all_fixed k (omega (arith, step.lengths)),
      )

  -- If the destinations are one for each position, in range and all different, then the loops end,
  -- no element is lost, and the element at a position is moved to its destination.
  pub permute_in_place-moves :
      (slice : List A) (destinations : List ℕ)
      → Valid (record { elements = slice; destinations = destinations })
      → (k d : ℕ) (a : A) → get_elem? destinations k ≡ some d
      → get_elem? slice k ≡ some a
      → (get_elem? (permute_in_place slice destinations) d ≡ some a)
        × (length (permute_in_place slice destinations) ≡ length slice)
  unfolding permute_in_place
  permute_in_place-moves slice destinations v k d a p q =
      let s : Scratch A = record { elements = slice; destinations = destinations } in
      let n = length destinations in
      let t = settle_from n 0 s in
      let (done, fixed) =
        settle_from-Progress n 0 s v (omega arith) (λ l b. absurd (omega arith)) in
      let (l, (e, g)) = done.bound d a (k, (p, q)) in
      let in_t : l < length t.destinations = lt_of_get_elem? t.destinations l d e in
      let at_l : some l ≡ some d = sym (fixed l (omega (arith, done.lengths))) ∙ e in
      let same : l ≡ d = some-injective l d at_l in
      (
        subst (λ m. get_elem? t.elements m ≡ some a) same g,
        omega (arith, done.valid.same_length, done.lengths, v.same_length),
      )
