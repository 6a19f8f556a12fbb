-- ===== src/Search/Permute/Swaps.antt =====
-- The swaps of permute_in_place of src/search/rerank_window.rs: what stands where after one.
use trufflepig.Prelude.{
  ℕ, zero, suc, ◌<◌, ◌≡◌, ◌≢◌, refl, sym, ap, ◌∙◌, Option, none, some, List, [], ◌∷◌, nat_eq,
  nat_eq_iff, length, get_elem?, set, arith, length-set, Bool-cases, inl, inr, ◌⊎◌,
}
use trufflepig.Search.Permute.{put, swap}

module _ {ℓ} {A : Type ℓ} where
  get_elem?-set : (xs : List A) (i : ℕ) (v : A) → i < length xs → get_elem? (set xs i v) i ≡ some v
  get_elem?-set [] i v h = absurd (omega arith)
  get_elem?-set (x ∷ xs) zero v h = refl
  get_elem?-set (x ∷ xs) (suc i) v h = get_elem?-set xs i v (omega arith)

  get_elem?-set_other :
      (xs : List A) (i k : ℕ) (v : A) → k ≢ i → get_elem? (set xs i v) k ≡ get_elem? xs k
  get_elem?-set_other [] i k v h = refl
  get_elem?-set_other (x ∷ xs) zero zero v h = absurd (h refl)
  get_elem?-set_other (x ∷ xs) zero (suc k) v h = refl
  get_elem?-set_other (x ∷ xs) (suc i) zero v h = refl
  get_elem?-set_other (x ∷ xs) (suc i) (suc k) v h =
      get_elem?-set_other xs i k v (λ e. h (ap suc e))

  pub lt_of_get_elem? : (xs : List A) (i : ℕ) (a : A) → get_elem? xs i ≡ some a → i < length xs
  lt_of_get_elem? [] i a h = absurd (cc)
  lt_of_get_elem? (x ∷ xs) zero a h = omega arith
  lt_of_get_elem? (x ∷ xs) (suc i) a h = omega (arith, lt_of_get_elem? xs i a h)

  length-put : (xs : List A) (i : ℕ) (o : Option A) → length (put xs i o) ≡ length xs
  length-put xs i none = refl
  length-put xs i (some a) = length-set xs i a

  pub length-swap : (i j : ℕ) (xs : List A) → length (swap i j xs) ≡ length xs
  unfolding swap
  length-swap i j xs =
      length-put (put xs i (get_elem? xs j)) j (get_elem? xs i) ∙ length-put xs i (get_elem? xs j)

  -- A swap of two positions that hold `a` and `b`.
  module _ (xs : List A) (i j : ℕ) (a b : A) where
    swap-set :
        get_elem? xs i ≡ some a → get_elem? xs j ≡ some b → swap i j xs ≡ set (set xs i b) j a
    unfolding swap
    swap-set p q = rw (p, q) refl

    get_elem?-swap_first :
        i ≢ j
        → get_elem? xs i ≡ some a
        → get_elem? xs j ≡ some b
        → get_elem? (swap i j xs) i ≡ some b
    get_elem?-swap_first d p q =
        ap (λ l. get_elem? l i) (swap-set p q)
        ∙ get_elem?-set_other (set xs i b) j i a d
        ∙ get_elem?-set xs i b (lt_of_get_elem? xs i a p)

    get_elem?-swap_second :
        get_elem? xs i ≡ some a → get_elem? xs j ≡ some b → get_elem? (swap i j xs) j ≡ some a
    get_elem?-swap_second p q =
        ap (λ l. get_elem? l j) (swap-set p q)
        ∙ get_elem?-set (set xs i b) j a
            (omega (arith, length-set xs i b, lt_of_get_elem? xs j b q))

    get_elem?-swap_other :
        (k : ℕ)
        → k ≢ i
        → k ≢ j
        → get_elem? xs i ≡ some a
        → get_elem? xs j ≡ some b
        → get_elem? (swap i j xs) k ≡ get_elem? xs k
    get_elem?-swap_other k d e p q =
        ap (λ l. get_elem? l k) (swap-set p q)
        ∙ get_elem?-set_other (set xs i b) j k a e
        ∙ get_elem?-set_other xs i k b d

-- Where the position that holds what stood at `o` is, when `i` and `j` change places.
abbrev pub Moved : ℕ → ℕ → ℕ → ℕ → Type 0
Moved i j k o = ((k ≡ i) × (o ≡ j)) ⊎ (((k ≡ j) × (o ≡ i)) ⊎ ((k ≢ i) × ((k ≢ j) × (o ≡ k))))

pub moved : (i j k : ℕ) → (o : ℕ) × Moved i j k o
moved i j k = elim (Bool-cases (nat_eq k i)) [
  | inl e ↦ (j, inl ((nat_eq_iff k i).0 e, refl))
  | inr e ↦ elim (Bool-cases (nat_eq k j)) [
    | inl g ↦ (i, inr (inl ((nat_eq_iff k j).0 g, refl)))
    | inr g ↦ (
      k,
      inr (
          inr (
            (λ h. absurd (ground (arith, nat_eq_iff k i))),
            ((λ h. absurd (ground (arith, nat_eq_iff k j))), refl),
          )),
    )
  ]
]

pub Moved-injective : (i j k l o : ℕ) → i ≢ j → Moved i j k o → Moved i j l o → k ≡ l
Moved-injective i j k l o d p q = ground arith

pub Moved-sym : (i j k o : ℕ) → i ≢ j → Moved i j k o → Moved i j o k
Moved-sym i j k o d p = ground arith

pub get_elem?-swap {ℓ} :
    {B : Type ℓ} (xs : List B) (i j k o : ℕ) (a b : B)
    → i ≢ j
    → Moved i j k o
    → get_elem? xs i ≡ some a
    → get_elem? xs j ≡ some b
    → get_elem? (swap i j xs) k ≡ get_elem? xs o
get_elem?-swap xs i j k o a b d m p q = elim m [
  | inl (e, g) ↦ rw (e, g) (get_elem?-swap_first xs i j a b d p q ∙ sym q)
  | inr (inl (e, g)) ↦ rw (e, g) (get_elem?-swap_second xs i j a b p q ∙ sym p)
  | inr (inr (e, (g, h))) ↦ rw h (get_elem?-swap_other xs i j a b k e g p q)
]
