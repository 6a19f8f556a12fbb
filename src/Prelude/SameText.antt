-- ===== src/Prelude/SameText.antt =====
-- What the comparison of texts decides, and lists of texts in which none comes twice.
use mathlib.Core.Path.{◌≡◌, refl, sym, ap, ◌∙◌}
use mathlib.Core.Bool.{Bool, true, false, ◌||◌}
use mathlib.Core.List.{List, [], ◌∷◌, ◌++◌, Permᴰ}
use native.Mathlib.Omega.{arith}
use trufflepig.Prelude.Tests.{nat_eq_iff}
use trufflepig.Prelude.Texts.{Text, same_text}

pub same_text-eq : (s t : Text) → same_text s t ≡ true → s ≡ t
same_text-eq [] [] h = refl
same_text-eq [] (y ∷ t) h = absurd (ground arith)
same_text-eq (x ∷ s) [] h = absurd (ground arith)
same_text-eq (x ∷ s) (y ∷ t) h = ground (arith, same_text-eq s t, nat_eq_iff x y)

pub same_text_self : (t : Text) → same_text t t ≡ true
same_text_self [] = refl
same_text_self (x ∷ t) = ground (arith, same_text_self t)

pub same_text-sym : (s t : Text) → same_text s t ≡ same_text t s
same_text-sym [] [] = refl
same_text-sym [] (y ∷ t) = refl
same_text-sym (x ∷ s) [] = refl
same_text-sym (x ∷ s) (y ∷ t) = ground (arith, same_text-sym s t)

abbrev pub has_text : Text → List Text → Bool
has_text t [] = false
has_text t (x ∷ xs) = same_text t x || has_text t xs

abbrev pub DistinctTexts : List Text → Type 0
DistinctTexts [] = Unit
DistinctTexts (x ∷ xs) = (has_text x xs ≡ false) × DistinctTexts xs

pub has_text-append :
    (t : Text) (xs ys : List Text) → has_text t (xs ++ ys) ≡ (has_text t xs || has_text t ys)
has_text-append t [] ys = refl
has_text-append t (x ∷ xs) ys = ground (arith, has_text-append t xs ys)

pub has_text-Permᴰ : {xs ys : List Text} (t : Text) → Permᴰ xs ys → has_text t xs ≡ has_text t ys
has_text-Permᴰ t Permᴰ.nil = refl
has_text-Permᴰ t (Permᴰ.cons e p) = ground (arith, ap (same_text t) e, has_text-Permᴰ t p)
has_text-Permᴰ t (Permᴰ.swap e f) = ground (arith, ap (same_text t) e, ap (same_text t) f)
has_text-Permᴰ t (Permᴰ.trans p q) = has_text-Permᴰ t p ∙ has_text-Permᴰ t q

pub DistinctTexts-Permᴰ : {xs ys : List Text} → Permᴰ xs ys → DistinctTexts xs → DistinctTexts ys
DistinctTexts-Permᴰ Permᴰ.nil d = d
DistinctTexts-Permᴰ (Permᴰ.cons {b = b} {l₁ = l₁} e p) (fresh, d) =
    (sym (has_text-Permᴰ b p) ∙ ap (λ t. has_text t l₁) (sym e) ∙ fresh, DistinctTexts-Permᴰ p d)
DistinctTexts-Permᴰ (Permᴰ.swap {a = a} {b = b} {b' = b'} {l = l} e f) (fresh, (other, d)) =
    let first : has_text b (a ∷ l) ≡ false = ground (arith, same_text-sym a b) in
    let second : has_text a l ≡ false = ground arith in
    (
      ap (λ t. has_text t (b' ∷ l)) (sym f) ∙ ap (λ t. has_text b (t ∷ l)) (sym e) ∙ first,
      (ap (λ t. has_text t l) (sym e) ∙ second, d),
    )
DistinctTexts-Permᴰ (Permᴰ.trans p q) d = DistinctTexts-Permᴰ q (DistinctTexts-Permᴰ p d)
