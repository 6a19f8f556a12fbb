-- ===== src/Search/Permute/Unfixed.antt =====
-- How many positions permute_in_place of src/search/rerank_window.rs has yet to settle.
use trufflepig.Prelude.{
  ℕ, zero, suc, ◌+◌, ◌≤◌, ◌<◌, ◌≡◌, refl, sym, ap, subst, Option, none, some, if◌then◌else◌, nat_eq,
  nat_eq_iff, arith, Bool-cases, inl, inr, ◌⊎◌,
}

-- The positions that are not their own destinations.
abbrev pub off : Option ℕ → ℕ → ℕ
off none k = 1
off (some d) k = if nat_eq d k then 0 else 1

abbrev pub unfixed : ℕ → (ℕ → Option ℕ) → ℕ
unfixed zero f = 0
unfixed (suc n) f = off (f n) n + unfixed n f

pub off-cases : (o : Option ℕ) (k : ℕ) → (o ≡ some k) ⊎ (off o k ≡ 1)
off-cases none k = inr refl
off-cases (some d) k = elim (Bool-cases (nat_eq d k)) [
  | inl e ↦ inl (ap some ((nat_eq_iff d k).0 e))
  | inr e ↦ inr (rw e refl)
]

off-fixed : (o : Option ℕ) (k : ℕ) → o ≡ some k → off o k ≡ 0
off-fixed o k h = rw (h, (nat_eq_iff k k).1 refl) refl

off_le : (o : Option ℕ) (k : ℕ) → off o k ≤ 1
off_le o k = elim (off-cases o k) [ inl e ↦ omega (arith, off-fixed o k e) | inr e ↦ omega arith ]

pub unfixed_le : (n : ℕ) (f : ℕ → Option ℕ) → unfixed n f ≤ n
unfixed_le zero f = omega arith
unfixed_le (suc n) f = omega (arith, off_le (f n) n, unfixed_le n f)

pub unfixed_zero : (n : ℕ) (f : ℕ → Option ℕ) (k : ℕ) → unfixed n f ≡ 0 → k < n → f k ≡ some k
unfixed_zero zero f k h l = absurd (omega arith)
unfixed_zero (suc n) f k h l = elim (off-cases (f n) n) [
  | inr e ↦ absurd (omega arith)
  | inl e ↦ elim (Bool-cases (nat_eq k n)) [
    | inl same ↦
        let at_n : k ≡ n = (nat_eq_iff k n).0 same in subst (λ m. f m ≡ some m) (sym at_n) e
    | inr other ↦ unfixed_zero n f k (omega arith) (ground (arith, nat_eq_iff k n))
  ]
]

-- `g` keeps what `f` has fixed.
abbrev pub KeepsFixed : (ℕ → Option ℕ) → (ℕ → Option ℕ) → Type 0
KeepsFixed f g = (k : ℕ) → f k ≡ some k → g k ≡ some k

off_mono : (f g : ℕ → Option ℕ) (k : ℕ) → KeepsFixed f g → off (g k) k ≤ off (f k) k
off_mono f g k h = elim (off-cases (f k) k) [
  | inl e ↦ omega (arith, off-fixed (g k) k (h k e))
  | inr e ↦ omega (arith, off_le (g k) k)
]

unfixed_mono : (n : ℕ) (f g : ℕ → Option ℕ) → KeepsFixed f g → unfixed n g ≤ unfixed n f
unfixed_mono zero f g h = omega arith
unfixed_mono (suc n) f g h = omega (arith, off_mono f g n h, unfixed_mono n f g h)

pub unfixed-lt :
    (n : ℕ) (f g : ℕ → Option ℕ) (j : ℕ)
    → KeepsFixed f g
    → j < n
    → off (f j) j ≡ 1
    → g j ≡ some j
    → unfixed n g < unfixed n f
unfixed-lt zero f g j h l p q = absurd (omega arith)
unfixed-lt (suc n) f g j h l p q = elim (Bool-cases (nat_eq j n)) [
  | inl same ↦
      let at_n : j ≡ n = (nat_eq_iff j n).0 same in
      let p_n = subst (λ m. off (f m) m ≡ 1) at_n p in
      let q_n = off-fixed (g n) n (subst (λ m. g m ≡ some m) at_n q) in
      omega (arith, unfixed_mono n f g h)
  | inr other ↦
      let below : j < n = ground (arith, nat_eq_iff j n) in
      omega (arith, off_mono f g n h, unfixed-lt n f g j h below p q)
]
