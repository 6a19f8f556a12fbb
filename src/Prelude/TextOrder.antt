-- ===== src/Prelude/TextOrder.antt =====
-- The order of texts that `compare_text` decides.
use Prim.Native.Nat.{ℕ}
use mathlib.Core.Path.{◌≡◌, refl}
use mathlib.Core.Bool.{false}
use mathlib.Core.List.{List, [], ◌∷◌}
use native.Mathlib.Omega.{arith}
use trufflepig.Prelude.Sort.{compare_text, reverse, is_gt}

pub compare_text-reverse : (s t : List ℕ) → compare_text t s ≡ reverse (compare_text s t)
compare_text-reverse [] [] = refl
compare_text-reverse [] (y ∷ t) = refl
compare_text-reverse (x ∷ s) [] = refl
compare_text-reverse (x ∷ s) (y ∷ t) = ground (arith, compare_text-reverse s t)

-- The first text is not behind the second.
abbrev pub NotBehind : List ℕ → List ℕ → Type 0
NotBehind s t = is_gt (compare_text s t) ≡ false

pub NotBehind-trans : (r s t : List ℕ) → NotBehind r s → NotBehind s t → NotBehind r t
NotBehind-trans [] s [] h k = refl
NotBehind-trans [] s (z ∷ t) h k = refl
NotBehind-trans (x ∷ r) [] t h k = absurd (ground arith)
NotBehind-trans (x ∷ r) (y ∷ s) [] h k = absurd (ground arith)
NotBehind-trans (x ∷ r) (y ∷ s) (z ∷ t) h k = ground (arith, NotBehind-trans r s t)
