-- ===== src/Prelude/Maps.antt =====
-- `BTreeMap` of the source: entries in key order, read by equality of keys.
use Prim.Native.Nat.{ℕ, ◌+◌}
use mathlib.Core.Path.{◌≡◌, refl, sym, ◌∙◌}
use mathlib.Core.Logic.{inl, inr}
use mathlib.Core.Bool.{Bool, true, false, ◌||◌}
use mathlib.Core.Option.{Option, none, some}
use mathlib.Core.List.{List, [], ◌∷◌}
use native.Mathlib.Omega.{arith}
use trufflepig.Prelude.Tests.{Key, ◌==◌, if◌then◌else◌, Bool-cases, ltb}

-- The order of the keys, which decides only where a new entry stands.
pub record Ord {ℓ} (K : Type ℓ) : Type ℓ where
  pub below : K → K → Bool

instance abbrev pub ℕ_ord : Ord ℕ
ℕ_ord = record { below = ltb }

abbrev pub Map : Type 0 → Type 0 → Type 0
Map K V = List (K × V)

module _ {K : Type 0} ⦃e : Key K⦄ where
  pub ==-false : (a b c : K) → (a == b) ≡ true → (b == c) ≡ (a == c)
  ==-false a b c h = let p : a ≡ b = (e.same_iff a b).0 h in rw p refl

  pub ==-comm : (a b : K) → (a == b) ≡ (b == a)
  ==-comm a b = elim (Bool-cases (a == b)) [
    | inl t ↦ let p : a ≡ b = (e.same_iff a b).0 t in rw p refl
    | inr f ↦ elim (Bool-cases (b == a)) [
      | inl t ↦ let p : b ≡ a = (e.same_iff b a).0 t in rw p refl
      | inr g ↦ f ∙ sym g
    ]
  ]

  abbrev pub contains : List K → K → Bool
  contains [] k = false
  contains (j ∷ ks) k = j == k || contains ks k

  abbrev pub Distinct : List K → Type 0
  Distinct [] = Unit
  Distinct (k ∷ ks) = (contains ks k ≡ false) × Distinct ks

module _ {K V : Type 0} ⦃e : Key K⦄ where
  unfoldable pub get : K → Map K V → Option V
  get k [] = none
  get k ((j, v) ∷ m) = if j == k then some v else get k m

  unfoldable pub has : K → Map K V → Bool
  has k [] = false
  has k ((j, v) ∷ m) = j == k || has k m

  -- `get_mut`, with what is done to the entry.
  unfoldable pub modify : K → (V → V) → Map K V → Map K V
  modify k f [] = []
  modify k f ((j, v) ∷ m) = if j == k then (j, f v) ∷ m else (j, v) ∷ modify k f m

  unfoldable pub remove : K → Map K V → Map K V
  remove k [] = []
  remove k ((j, v) ∷ m) = if j == k then m else (j, v) ∷ remove k m

  abbrev pub DistinctKeys : Map K V → Type 0
  DistinctKeys [] = Unit
  DistinctKeys ((j, v) ∷ m) = (has j m ≡ false) × DistinctKeys m

  abbrev pub total : (V → ℕ) → Map K V → ℕ
  total w [] = 0
  total w ((j, v) ∷ m) = w v + total w m

  pub has-get : (k : K) (m : Map K V) → has k m ≡ false → get k m ≡ none
  unfolding has get
  has-get k [] h = refl
  has-get k ((j, v) ∷ m) h = ground (arith, has-get k m)

  pub get-has : (k : K) (m : Map K V) → get k m ≡ none → has k m ≡ false
  unfolding has get
  get-has k [] h = refl
  get-has k ((j, v) ∷ m) h = ground (arith, get-has k m)

  pub get-modify :
      (j k : K) (f : V → V) (m : Map K V)
      → get j (modify k f m)
        ≡ (if k == j then elim (get j m) [ none ↦ none | some v ↦ some (f v) ] else get j m)
  unfolding get modify
  get-modify j k f [] = ground arith
  get-modify j k f ((i, v) ∷ m) =
      ground (arith, get-modify j k f m, ==-false i k j, ==-false i j k, ==-comm j k, ==-comm i k)

  pub has-modify : (j k : K) (f : V → V) (m : Map K V) → has j (modify k f m) ≡ has j m
  unfolding has modify
  has-modify j k f [] = refl
  has-modify j k f ((i, v) ∷ m) = ground (arith, has-modify j k f m)

  pub modify-Distinct :
      (k : K) (f : V → V) (m : Map K V) → DistinctKeys m → DistinctKeys (modify k f m)
  unfolding modify
  modify-Distinct k f [] d = tt
  modify-Distinct k f ((i, v) ∷ m) d = ground (arith, modify-Distinct k f m d.1, has-modify i k f m)

  pub total-modify :
      (w : V → ℕ) (k : K) (f : V → V) (m : Map K V) (v : V)
      → get k m ≡ some v
      → total w (modify k f m) + w v ≡ total w m + w (f v)
  unfolding get modify
  total-modify w k f [] v h = ground arith
  total-modify w k f ((i, u) ∷ m) v h = ground (arith, total-modify w k f m v)

  pub has-remove :
      (j k : K) (m : Map K V)
      → DistinctKeys m
      → has j (remove k m) ≡ (if k == j then false else has j m)
  unfolding has remove
  has-remove j k [] d = ground arith
  has-remove j k ((i, v) ∷ m) d =
      ground (arith, has-remove j k m d.1, e.same_iff i k, e.same_iff i j, e.same_iff k j)

  pub get-remove :
      (j k : K) (m : Map K V)
      → DistinctKeys m
      → get j (remove k m) ≡ (if k == j then none else get j m)
  unfolding get remove
  get-remove j k [] d = ground arith
  get-remove j k ((i, v) ∷ m) d =
      ground (
        arith,
        get-remove j k m d.1,
        has-get i m d.0,
        e.same_iff i k,
        e.same_iff i j,
        e.same_iff k j,
      )

  pub remove-Distinct : (k : K) (m : Map K V) → DistinctKeys m → DistinctKeys (remove k m)
  unfolding remove
  remove-Distinct k [] d = tt
  remove-Distinct k ((i, v) ∷ m) d = ground (arith, remove-Distinct k m d.1, has-remove i k m d.1)

  pub total-remove :
      (w : V → ℕ) (k : K) (m : Map K V) (v : V)
      → get k m ≡ some v
      → total w m ≡ w v + total w (remove k m)
  unfolding get remove
  total-remove w k [] v h = ground arith
  total-remove w k ((i, u) ∷ m) v h = ground (arith, total-remove w k m v)

module _ {K V : Type 0} ⦃e : Key K⦄ ⦃o : Ord K⦄ where
  -- A vacant entry's place: before the first key that is not below it.
  unfoldable pub put_sorted : K → V → Map K V → Map K V
  put_sorted k v [] = (k, v) ∷ []
  put_sorted k v ((j, u) ∷ m) =
      if o.below j k then (j, u) ∷ put_sorted k v m else (k, v) ∷ (j, u) ∷ m

  -- `entry(k).or_insert(v)`
  unfoldable pub or_insert : K → V → Map K V → Map K V
  unfolding put_sorted has
  or_insert k v m = if has k m then m else put_sorted k v m

  pub has-put_sorted :
      (j k : K) (v : V) (m : Map K V) → has j (put_sorted k v m) ≡ (k == j || has j m)
  unfolding has put_sorted
  has-put_sorted j k v [] = refl
  has-put_sorted j k v ((i, u) ∷ m) = ground (arith, has-put_sorted j k v m)

  pub get-put_sorted :
      (j k : K) (v : V) (m : Map K V)
      → has k m ≡ false
      → get j (put_sorted k v m) ≡ (if k == j then some v else get j m)
  unfolding get has put_sorted
  get-put_sorted j k v [] h = refl
  get-put_sorted j k v ((i, u) ∷ m) h =
      ground (arith, get-put_sorted j k v m, e.same_iff i k, e.same_iff i j, e.same_iff k j)

  pub put_sorted-Distinct :
      (k : K) (v : V) (m : Map K V)
      → has k m ≡ false
      → DistinctKeys m
      → DistinctKeys (put_sorted k v m)
  unfolding has put_sorted
  put_sorted-Distinct k v [] h d = (refl, tt)
  put_sorted-Distinct k v ((i, u) ∷ m) h d =
      ground (arith, put_sorted-Distinct k v m, has-put_sorted i k v m, ==-comm i k)

  pub total-put_sorted :
      (w : V → ℕ) (k : K) (v : V) (m : Map K V) → total w (put_sorted k v m) ≡ w v + total w m
  unfolding put_sorted
  total-put_sorted w k v [] = refl
  total-put_sorted w k v ((i, u) ∷ m) = ground (arith, total-put_sorted w k v m)
