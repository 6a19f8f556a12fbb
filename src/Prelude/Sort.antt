-- ===== src/Prelude/Sort.antt =====
-- `Ordering` of the source with the comparisons that the program chains, and `sort_by`, which is
-- stable, as an insertion sort.
use Prim.Native.Nat.{ℕ, compare, Ordering}
use mathlib.Core.Path.{refl}
use mathlib.Core.Logic.{inl, inr}
use mathlib.Core.Bool.{Bool, true, false}
use mathlib.Core.List.{List, [], ◌∷◌, Permᴰ}
use trufflepig.Prelude.Tests.{if◌then◌else◌, Bool-cases}

-- `then_with`; both comparisons are without effects.
abbrev pub then_with : Ordering → Ordering → Ordering
then_with first second = elim first [
  | Ordering.eq ↦ second
  | Ordering.lt ↦ Ordering.lt
  | Ordering.gt ↦ Ordering.gt
]

abbrev pub reverse : Ordering → Ordering
reverse Ordering.lt = Ordering.gt
reverse Ordering.eq = Ordering.eq
reverse Ordering.gt = Ordering.lt

-- `false` is below `true`.
abbrev pub compare_bool : Bool → Bool → Ordering
compare_bool false true = Ordering.lt
compare_bool true false = Ordering.gt
compare_bool false false = Ordering.eq
compare_bool true true = Ordering.eq

-- The order of `str`: the bytes of UTF-8 stand in the order of the characters.
abbrev pub compare_text : List ℕ → List ℕ → Ordering
compare_text [] [] = Ordering.eq
compare_text [] (y ∷ ys) = Ordering.lt
compare_text (x ∷ xs) [] = Ordering.gt
compare_text (x ∷ xs) (y ∷ ys) = then_with (compare x y) (compare_text xs ys)

abbrev pub is_lt : Ordering → Bool
is_lt Ordering.lt = true
is_lt Ordering.eq = false
is_lt Ordering.gt = false

abbrev pub is_gt : Ordering → Bool
is_gt Ordering.gt = true
is_gt Ordering.eq = false
is_gt Ordering.lt = false

module _ {ℓ} {A : Type ℓ} where
  pub same-perm : (xs : List A) → Permᴰ xs xs
  same-perm [] = Permᴰ.nil
  same-perm (x ∷ xs) = Permᴰ.cons refl (same-perm xs)

  -- Before the first element that is not below `x`.
  unfoldable pub insert_by : (A → A → Ordering) → A → List A → List A
  insert_by order x [] = x ∷ []
  insert_by order x (y ∷ ys) =
      let rest = insert_by order x ys in if is_gt (order x y) then y ∷ rest else x ∷ y ∷ ys

  -- An element that stood before an equal one is inserted after it, hence before it.
  unfoldable pub sort_by : (A → A → Ordering) → List A → List A
  unfolding insert_by
  sort_by order [] = []
  sort_by order (x ∷ xs) = insert_by order x (sort_by order xs)

  pub insert_by-perm :
      (order : A → A → Ordering) (x : A) (ys : List A) → Permᴰ (insert_by order x ys) (x ∷ ys)
  unfolding insert_by
  insert_by-perm order x [] = same-perm (x ∷ [])
  insert_by-perm order x (y ∷ ys) = elim (Bool-cases (is_gt (order x y))) [
    | inl e ↦
        rw e (Permᴰ.trans (Permᴰ.cons refl (insert_by-perm order x ys)) (Permᴰ.swap refl refl))
    | inr e ↦ rw e (same-perm (x ∷ y ∷ ys))
  ]

  pub sort_by-perm : (order : A → A → Ordering) (xs : List A) → Permᴰ (sort_by order xs) xs
  unfolding sort_by
  sort_by-perm order [] = Permᴰ.nil
  sort_by-perm order (x ∷ xs) =
      Permᴰ.trans (insert_by-perm order x (sort_by order xs))
        (Permᴰ.cons refl (sort_by-perm order xs))
