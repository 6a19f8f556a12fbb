-- ===== src/Search/QualifiedName/Matches.antt =====
-- What `QualifiedName::matches` of src/search/qualified_name.rs finds.
use trufflepig.Prelude.{
  ◌≡◌, refl, ap, ◌∙◌, arith, true, false, Option, none, some, List, [], ◌∷◌, ◌++◌, Bool-cases, inl,
  inr, ◌⊎◌, ◌==◌, ℕ_key,
}
use trufflepig.Prelude.Entries.{list_key, all_same_iff}
use trufflepig.Prelude.Texts.{Text, Unicode, is_empty}
use trufflepig.Search.QualifiedName.{
  QualifiedName, QualifierMatch, suffix, subsequence, ends_with, is_subsequence, module_segments,
  container_scopes, found_in, better, best_match, matches,
}

-- The segments occur in the other list, in order.
pub data Embeds : List Text → List Text → Type 0 where
  nothing : (ys : List Text) → Embeds [] ys
  take : {x y : Text} {xs ys : List Text} → y ≡ x → Embeds xs ys → Embeds (x ∷ xs) (y ∷ ys)
  skip : {y : Text} {xs ys : List Text} → Embeds xs ys → Embeds xs (y ∷ ys)

-- The segments are the last of the other list.
abbrev pub Trails : List Text → List Text → Type 0
Trails needle owner = (front : List Text) × (owner ≡ front ++ needle)

is_subsequence-tail :
    (x : Text) (needle haystack : List Text)
    → is_subsequence (x ∷ needle) haystack ≡ true
    → is_subsequence needle haystack ≡ true
unfolding is_subsequence
is_subsequence-tail x [] haystack h = refl
is_subsequence-tail x (z ∷ needle) [] h = absurd (ground arith)
is_subsequence-tail x (z ∷ needle) (y ∷ haystack) h =
    ground
      (arith, is_subsequence-tail x (z ∷ needle) haystack, is_subsequence-tail z needle haystack)

is_subsequence-skip :
    (y : Text) (needle haystack : List Text)
    → is_subsequence needle haystack ≡ true
    → is_subsequence needle (y ∷ haystack) ≡ true
unfolding is_subsequence
is_subsequence-skip y [] haystack h = refl
is_subsequence-skip y (z ∷ needle) haystack h =
    ground (arith, is_subsequence-tail z needle haystack)

is_subsequence-Embeds :
    (needle haystack : List Text) → is_subsequence needle haystack ≡ true → Embeds needle haystack
unfolding is_subsequence
is_subsequence-Embeds [] haystack h = nothing haystack
is_subsequence-Embeds (x ∷ needle) [] h = absurd (ground arith)
is_subsequence-Embeds (x ∷ needle) (y ∷ haystack) h = elim (Bool-cases (y == x)) [
  | inl same ↦
      take ((all_same_iff y x).0 same) (is_subsequence-Embeds needle haystack (ground arith))
  | inr other ↦ skip (is_subsequence-Embeds (x ∷ needle) haystack (ground arith))
]

Embeds-is_subsequence :
    {needle haystack : List Text} → Embeds needle haystack → is_subsequence needle haystack ≡ true
unfolding is_subsequence
Embeds-is_subsequence (nothing ys) = refl
Embeds-is_subsequence (take {x = x} {y = y} {xs = xs} {ys = ys} e r) =
    rw ((all_same_iff y x).1 e, is_subsequence) (Embeds-is_subsequence r)
Embeds-is_subsequence (skip {y = y} {xs = xs} {ys = ys} r) =
    is_subsequence-skip y xs ys (Embeds-is_subsequence r)

ends_with-Trails : (owner needle : List Text) → ends_with owner needle ≡ true → Trails needle owner
unfolding ends_with
ends_with-Trails [] [] h = ([], refl)
ends_with-Trails [] (x ∷ needle) h = absurd (ground arith)
ends_with-Trails (y ∷ owner) needle h = elim (Bool-cases ((y ∷ owner) == needle)) [
  | inl same ↦ ([], (all_same_iff (y ∷ owner) needle).0 same)
  | inr other ↦
      let (front, e) = ends_with-Trails owner needle (ground arith) in (y ∷ front, ap (◌∷◌ y) e)
]

ends_with_self : (needle : List Text) → ends_with needle needle ≡ true
unfolding ends_with
ends_with_self [] = refl
ends_with_self (x ∷ needle) = rw ((all_same_iff (x ∷ needle) (x ∷ needle)).1 refl) refl

Trails-ends_with : (front needle : List Text) → ends_with (front ++ needle) needle ≡ true
unfolding ends_with
Trails-ends_with [] needle = ends_with_self needle
Trails-ends_with (x ∷ front) needle = ground (arith, Trails-ends_with front needle)

-- The three answers and what each means.
pub data Verdict (Exact Loose : Type 0) (answer : Option QualifierMatch) : Type 0 where
  exact : answer ≡ some suffix → Exact → Verdict Exact Loose answer
  loose : answer ≡ some subsequence → Loose → ¬ Exact → Verdict Exact Loose answer
  reject : answer ≡ none → ¬ Loose → ¬ Exact → Verdict Exact Loose answer

found_in-Verdict :
    (qualifier owner : List Text)
    → Verdict (Trails qualifier owner) (Embeds qualifier owner) (found_in qualifier owner)
unfolding found_in
found_in-Verdict qualifier owner = elim (Bool-cases (ends_with owner qualifier)) [
  | inl ends ↦ exact (rw ends refl) (ends_with-Trails owner qualifier ends)
  | inr open_end ↦
      let no_trail : ¬ (Trails qualifier owner) = λ (front, e).
        let t : ends_with owner qualifier ≡ true =
          ap (λ o. ends_with o qualifier) e ∙ Trails-ends_with front qualifier in
        cc in
      elim (Bool-cases (is_subsequence qualifier owner)) [
        | inl inside ↦
            loose (rw (open_end, inside) refl) (is_subsequence-Embeds qualifier owner inside)
              no_trail
        | inr outside ↦
            reject (rw (open_end, outside) refl) (λ r. let t = Embeds-is_subsequence r in cc)
              no_trail
      ]
]

neither : {A B : Type 0} → ¬ A → ¬ B → ¬ (A ⊎ B)
neither f g (inl a) = f a
neither f g (inr b) = g b

better-Verdict :
    {S L S' L' : Type 0} {old new : Option QualifierMatch}
    → Verdict S L old
    → Verdict S' L' new
    → Verdict (S ⊎ S') (L ⊎ L') (better old new)
better-Verdict (exact e s) (exact f t) = exact (rw (e, f) refl) (inl s)
better-Verdict (exact e s) (loose f l n) = exact (rw (e, f) refl) (inl s)
better-Verdict (exact e s) (reject f l n) = exact (rw (e, f) refl) (inl s)
better-Verdict (loose e k m) (exact f t) = exact (rw (e, f) refl) (inr t)
better-Verdict (loose e k m) (loose f l n) = loose (rw (e, f) refl) (inl k) (neither m n)
better-Verdict (loose e k m) (reject f l n) = loose (rw (e, f) refl) (inl k) (neither m n)
better-Verdict (reject e k m) (exact f t) = exact (rw (e, f) refl) (inr t)
better-Verdict (reject e k m) (loose f l n) = loose (rw (e, f) refl) (inr l) (neither m n)
better-Verdict (reject e k m) (reject f l n) = reject (rw (e, f) refl) (neither k l) (neither m n)

-- Some owner, the module with one of the scopes, has the property.
abbrev pub AnyOwner : (List Text → Type 0) → List Text → List (List Text) → Type 0
AnyOwner P here [] = ⊥
AnyOwner P here (scope ∷ scopes) = P (here ++ scope) ⊎ AnyOwner P here scopes

Verdict-map :
    {S L S' L' : Type 0} {answer : Option QualifierMatch}
    → (S → S')
    → (S' → S)
    → (L → L')
    → (L' → L)
    → Verdict S L answer
    → Verdict S' L' answer
Verdict-map f f' g g' (exact e s) = exact e (f s)
Verdict-map f f' g g' (loose e l n) = loose e (g l) (λ s. n (f' s))
Verdict-map f f' g g' (reject e l n) = reject e (λ r. l (g' r)) (λ s. n (f' s))

regroup : {A B C : Type 0} → (A ⊎ B) ⊎ C → A ⊎ (B ⊎ C)
regroup (inl (inl a)) = inl a
regroup (inl (inr b)) = inr (inl b)
regroup (inr c) = inr (inr c)

ungroup : {A B C : Type 0} → A ⊎ (B ⊎ C) → (A ⊎ B) ⊎ C
ungroup (inl a) = inl (inl a)
ungroup (inr (inl b)) = inl (inr b)
ungroup (inr (inr c)) = inr c

first : {A : Type 0} → A ⊎ ⊥ → A
first (inl a) = a
first (inr f) = absurd f

best_match-Verdict :
    (qualifier here : List Text) (scopes : List (List Text)) (best : Option QualifierMatch)
    (S L : Type 0)
    → Verdict S L best
    → Verdict
        (S ⊎ AnyOwner (Trails qualifier) here scopes)
        (L ⊎ AnyOwner (Embeds qualifier) here scopes)
        (best_match qualifier here best scopes)
unfolding best_match
best_match-Verdict qualifier here [] best S L v = Verdict-map inl first inl first v
best_match-Verdict qualifier here (scope ∷ scopes) best S L v =
    Verdict-map regroup ungroup regroup ungroup (
      best_match-Verdict qualifier here scopes (better best (found_in qualifier (here ++ scope)))
        (S ⊎ Trails qualifier (here ++ scope)) (L ⊎ Embeds qualifier (here ++ scope))
        (better-Verdict v (found_in-Verdict qualifier (here ++ scope))))

only_right : {A : Type 0} → ⊥ ⊎ A → A
only_right (inl f) = absurd f
only_right (inr a) = a

-- A qualified name matches a row exactly when the qualifier is the end of the module path with one of
-- the container's scopes, or failing that for every scope, loosely when its segments occur in one of
-- them in order; it rejects the row exactly when neither holds.
pub matches_lem :
    (u : Unicode) (q : QualifiedName) (path : Text) (container : Option Text)
    → is_empty q.qualifier ≡ false
    → Verdict
        (AnyOwner (Trails q.qualifier) (module_segments path) (container_scopes u container))
        (AnyOwner (Embeds q.qualifier) (module_segments path) (container_scopes u container))
        (matches u q path container)
unfolding matches
matches_lem u q path container h =
    rw (h, matches)
      (Verdict-map only_right inr only_right inr (
        best_match-Verdict q.qualifier (module_segments path) (container_scopes u container) none ⊥
          ⊥ (reject refl (λ f. f) (λ f. f))))
