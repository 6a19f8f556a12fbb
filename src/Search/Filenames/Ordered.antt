-- ===== src/Search/Filenames/Ordered.antt =====
-- The order in which file_hits of src/search.rs keeps its candidates.
use trufflepig.Prelude.{
  ℕ, zero, suc, ◌<◌, ◌≡◌, ◌⊎◌, refl, ap, ◌∙◌, true, false, List, [], ◌∷◌, take, arith, ltb,
  Bool-cases, inl, inr,
}
use trufflepig.Prelude.Sort.{compare_text, insert_by, sort_by, is_gt}
use trufflepig.Prelude.TextOrder.{NotBehind, NotBehind-trans, compare_text-reverse}
use trufflepig.Search.Filenames.{FilenameCandidate, usefulness, by_score}

-- A higher score comes first, and among equal scores the path that is not behind the other.
abbrev pub Leads : FilenameCandidate → FilenameCandidate → Type 0
Leads a b = (b.score < a.score) ⊎ ((a.score ≡ b.score) × NotBehind a.hit.path b.hit.path)

abbrev pub LeadsAll : FilenameCandidate → List FilenameCandidate → Type 0
LeadsAll a [] = Unit
LeadsAll a (b ∷ bs) = Leads a b × LeadsAll a bs

-- Each leads all that follow it.
abbrev pub InOrder : List FilenameCandidate → Type 0
InOrder [] = Unit
InOrder (a ∷ candidates) = LeadsAll a candidates × InOrder candidates

Leads-trans : (a b c : FilenameCandidate) → Leads a b → Leads b c → Leads a c
Leads-trans a b c (inl h) (inl k) = inl (omega arith)
Leads-trans a b c (inl h) (inr k) = inl (omega (arith, k.0))
Leads-trans a b c (inr h) (inl k) = inl (omega (arith, h.0))
Leads-trans a b c (inr h) (inr k) =
    inr (h.0 ∙ k.0, NotBehind-trans a.hit.path b.hit.path c.hit.path h.1 k.1)

LeadsAll-trans :
    (a b : FilenameCandidate) (cs : List FilenameCandidate)
    → Leads a b
    → LeadsAll b cs
    → LeadsAll a cs
LeadsAll-trans a b [] h k = tt
LeadsAll-trans a b (c ∷ cs) h k = (Leads-trans a b c h k.0, LeadsAll-trans a b cs h k.1)

usefulness-Leads : (a b : FilenameCandidate) → is_gt (usefulness a b) ≡ false → Leads a b
usefulness-Leads a b h = elim (Bool-cases (is_gt (compare_text a.hit.path b.hit.path))) [
  | inl behind ↦ inl (ground arith)
  | inr before ↦ elim (Bool-cases (ltb b.score a.score)) [
    | inl more ↦ inl (ground arith)
    | inr other ↦ inr (ground arith, before)
  ]
]

usefulness-Leads_other : (a b : FilenameCandidate) → is_gt (usefulness a b) ≡ true → Leads b a
usefulness-Leads_other a b h = elim (Bool-cases (ltb a.score b.score)) [
  | inl more ↦ inl (ground arith)
  | inr other ↦ inr (ground arith, ground (arith, compare_text-reverse a.hit.path b.hit.path))
]

LeadsAll-insert_by :
    (a c : FilenameCandidate) (bs : List FilenameCandidate)
    → Leads a c
    → LeadsAll a bs
    → LeadsAll a (insert_by usefulness c bs)
unfolding insert_by
LeadsAll-insert_by a c [] h k = (h, tt)
LeadsAll-insert_by a c (b ∷ bs) h k = elim (Bool-cases (is_gt (usefulness c b))) [
  | inl e ↦ rw e (k.0, LeadsAll-insert_by a c bs h k.1)
  | inr e ↦ rw e (h, k)
]

pub insert_by-InOrder :
    (c : FilenameCandidate) (bs : List FilenameCandidate)
    → InOrder bs
    → InOrder (insert_by usefulness c bs)
unfolding insert_by
insert_by-InOrder c [] h = (tt, tt)
insert_by-InOrder c (b ∷ bs) h = elim (Bool-cases (is_gt (usefulness c b))) [
  | inl e ↦
      rw e
        (LeadsAll-insert_by b c bs (usefulness-Leads_other c b e) h.0, insert_by-InOrder c bs h.1)
  | inr e ↦ let leads = usefulness-Leads c b e in rw e ((leads, LeadsAll-trans c b bs leads h.0), h)
]

Leads-by_score : (a b : FilenameCandidate) → Leads a b → is_gt (by_score a b) ≡ false
Leads-by_score a b (inl h) = ground arith
Leads-by_score a b (inr h) = ground (arith, h.0, h.1)

insert_by-LeadsAll :
    (a : FilenameCandidate) (bs : List FilenameCandidate)
    → LeadsAll a bs
    → insert_by by_score a bs ≡ a ∷ bs
unfolding insert_by
insert_by-LeadsAll a [] h = refl
insert_by-LeadsAll a (b ∷ bs) h = rw (Leads-by_score a b h.0) refl

-- The last sort finds the candidates in order.
pub sort_by-InOrder :
    (candidates : List FilenameCandidate)
    → InOrder candidates
    → sort_by by_score candidates ≡ candidates
unfolding sort_by
sort_by-InOrder [] h = refl
sort_by-InOrder (a ∷ candidates) h =
    ap (insert_by by_score a) (sort_by-InOrder candidates h.1) ∙ insert_by-LeadsAll a candidates h.0

take-LeadsAll :
    (n : ℕ) (a : FilenameCandidate) (bs : List FilenameCandidate)
    → LeadsAll a bs
    → LeadsAll a (take n bs)
take-LeadsAll zero a bs h = tt
take-LeadsAll (suc n) a [] h = tt
take-LeadsAll (suc n) a (b ∷ bs) h = (h.0, take-LeadsAll n a bs h.1)

pub take-InOrder :
    (n : ℕ) (candidates : List FilenameCandidate) → InOrder candidates → InOrder (take n candidates)
take-InOrder zero candidates h = tt
take-InOrder (suc n) [] h = tt
take-InOrder (suc n) (a ∷ candidates) h =
    (take-LeadsAll n a candidates h.0, take-InOrder n candidates h.1)
