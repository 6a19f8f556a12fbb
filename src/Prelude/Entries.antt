-- ===== src/Prelude/Entries.antt =====
-- `HashMap` of the source, filled by `entry(..).or_insert(..)`: entries in the order in which their
-- keys came first. Where the source iterates, the order is a parameter of the model.
use mathlib.Core.Path.{◌≡◌, refl}
use mathlib.Core.Bool.{Bool, true, false, ◌&&◌, ◌||◌}
use mathlib.Core.Logic.{◌↔◌}
use mathlib.Core.Option.{Option, none, some}
use mathlib.Core.List.{List, [], ◌∷◌}
use native.Mathlib.Omega.{arith}
use trufflepig.Prelude.Tests.{Key, ◌==◌, if◌then◌else◌}
use trufflepig.Prelude.Maps.{Map, get, has, DistinctKeys, ==-comm}

-- A pair as a key.
module _ {J K : Type 0} ⦃d : Key J⦄ ⦃e : Key K⦄ where
  abbrev pub both_same : J × K → J × K → Bool
  both_same (a, b) (c, f) = d.same_key a c && e.same_key b f

  pub both_same_iff : (p q : J × K) → (both_same p q ≡ true) ↔ (p ≡ q)
  both_same_iff (a, b) (c, f) = ground (arith, d.same_iff a c, e.same_iff b f)

  instance abbrev pub pair_key : Key (J × K)
  pair_key = record { same_key = both_same; same_iff = both_same_iff }

-- A list as a key.
module _ {K : Type 0} ⦃e : Key K⦄ where
  abbrev pub all_same : List K → List K → Bool
  all_same [] [] = true
  all_same [] (y ∷ ys) = false
  all_same (x ∷ xs) [] = false
  all_same (x ∷ xs) (y ∷ ys) = e.same_key x y && all_same xs ys

  pub all_same_iff : (xs ys : List K) → (all_same xs ys ≡ true) ↔ (xs ≡ ys)
  all_same_iff [] [] = ground arith
  all_same_iff [] (y ∷ ys) = ground arith
  all_same_iff (x ∷ xs) [] = ground arith
  all_same_iff (x ∷ xs) (y ∷ ys) = ground (arith, e.same_iff x y, all_same_iff xs ys)

  instance abbrev pub list_key : Key (List K)
  list_key = record { same_key = all_same; same_iff = all_same_iff }

-- An optional key.
module _ {K : Type 0} ⦃e : Key K⦄ where
  abbrev pub option_same : Option K → Option K → Bool
  option_same none none = true
  option_same none (some y) = false
  option_same (some x) none = false
  option_same (some x) (some y) = e.same_key x y

  pub option_same_iff : (x y : Option K) → (option_same x y ≡ true) ↔ (x ≡ y)
  option_same_iff none none = ground arith
  option_same_iff none (some y) = ground arith
  option_same_iff (some x) none = ground arith
  option_same_iff (some x) (some y) = ground (arith, e.same_iff x y)

  instance abbrev pub option_key : Key (Option K)
  option_key = record { same_key = option_same; same_iff = option_same_iff }

module _ {K V : Type 0} ⦃e : Key K⦄ where
  -- `*entry(k).or_insert(v) = f(..)`
  unfoldable pub upsert : K → V → (V → V) → Map K V → Map K V
  upsert k v f [] = (k, f v) ∷ []
  upsert k v f ((j, u) ∷ m) = if j == k then (j, f u) ∷ m else (j, u) ∷ upsert k v f m

  -- What the entry held, or the value inserted.
  abbrev pub get_or : K → V → Map K V → V
  get_or k v m = elim (get k m) [ none ↦ v | some u ↦ u ]

  pub get-upsert :
      (j k : K) (v : V) (f : V → V) (m : Map K V)
      → get j (upsert k v f m) ≡ (if k == j then some (f (get_or k v m)) else get j m)
  unfolding get upsert
  get-upsert j k v f [] = refl
  get-upsert j k v f ((i, u) ∷ m) =
      ground (arith, get-upsert j k v f m, e.same_iff i k, e.same_iff i j, e.same_iff k j)

  pub has-upsert :
      (j k : K) (v : V) (f : V → V) (m : Map K V) → has j (upsert k v f m) ≡ (k == j || has j m)
  unfolding has upsert
  has-upsert j k v f [] = refl
  has-upsert j k v f ((i, u) ∷ m) =
      ground (arith, has-upsert j k v f m, e.same_iff i k, e.same_iff i j, e.same_iff k j)

  pub upsert-Distinct :
      (k : K) (v : V) (f : V → V) (m : Map K V) → DistinctKeys m → DistinctKeys (upsert k v f m)
  unfolding upsert has
  upsert-Distinct k v f [] d = (refl, tt)
  upsert-Distinct k v f ((i, u) ∷ m) d =
      ground (arith, upsert-Distinct k v f m d.1, has-upsert i k v f m, ==-comm i k)
