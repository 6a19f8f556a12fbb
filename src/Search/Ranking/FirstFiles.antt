-- ===== src/Search/Ranking/FirstFiles.antt =====
-- The first files of a lane, src/search/file_ranking.rs: `representatives` against a count of the
-- different files before a file's first hit.
use trufflepig.Prelude.{
  ℕ, zero, suc, ◌≡◌, refl, sym, ap, ◌∙◌, Bool, true, false, ◌||◌, Option, none, some, List, [], ◌∷◌,
  map, if◌then◌else◌, ltb, take, arith, Bool-cases, inl, inr,
}
use trufflepig.Prelude.Texts.{Text, same_text}
use trufflepig.Prelude.SameText.{same_text-eq, has_text}
use trufflepig.Search.Hits.{Hit}
use trufflepig.Search.Ranking.{first_hits, has_path, representatives}

abbrev pub path_of : Hit → Text
path_of hit = hit.path

-- The number of different texts, those already seen not counted.
abbrev pub count_new : List Text → List Text → ℕ
count_new seen [] = 0
count_new seen (t ∷ ts) =
    let rest = count_new (t ∷ seen) ts in if has_text t seen then rest else suc rest

-- The texts before the first that is `t`, if one is.
abbrev pub before : Text → List Text → Option (List Text)
before t [] = none
before t (x ∷ xs) =
    if same_text t x
    then some []
    else elim (before t xs) [ none ↦ none | some earlier ↦ some (x ∷ earlier) ]

abbrev counts_below : ℕ → List Text → Option (List Text) → Bool
counts_below limit seen none = false
counts_below limit seen (some earlier) = ltb (count_new seen earlier) limit

-- The lane has a hit in the file, and hits in fewer than `limit` other files before it.
abbrev pub is_among_first : ℕ → Text → List Hit → Bool
is_among_first limit t lane = elim (before t (map path_of lane)) [
  | none ↦ false
  | some earlier ↦ ltb (count_new [] earlier) limit
]

has_path-eq : (t : Text) (seen : List Hit) → has_path t seen ≡ has_text t (map path_of seen)
has_path-eq t [] = refl
has_path-eq t (hit ∷ seen) = ap (λ b. same_text t hit.path || b) (has_path-eq t seen)

counts_below-again :
    (limit : ℕ) (t : Text) (seen : List Text) (x : Text) (xs : List Text)
    → same_text t x ≡ false
    → has_text x seen ≡ true
    → counts_below limit seen (before t (x ∷ xs)) ≡ counts_below limit (x ∷ seen) (before t xs)
counts_below-again limit t seen x xs other old = rw other (by_rest (before t xs))
  where
    by_rest :
        (o : Option (List Text))
        → counts_below limit seen (elim o [ none ↦ none | some earlier ↦ some (x ∷ earlier) ])
          ≡ counts_below limit (x ∷ seen) o
    by_rest none = refl
    by_rest (some earlier) = rw old refl

counts_below-none : (seen : List Text) (o : Option (List Text)) → counts_below 0 seen o ≡ false
counts_below-none seen none = refl
counts_below-none seen (some earlier) = ground arith

counts_below-first :
    (limit : ℕ) (t : Text) (seen : List Text) (x : Text) (xs : List Text)
    → same_text t x ≡ false
    → has_text x seen ≡ false
    → counts_below (suc limit) seen (before t (x ∷ xs))
      ≡ counts_below limit (x ∷ seen) (before t xs)
counts_below-first limit t seen x xs other fresh = rw other (by_rest (before t xs))
  where
    by_rest :
        (o : Option (List Text))
        → counts_below (suc limit) seen (elim o [ none ↦ none | some earlier ↦ some (x ∷ earlier) ])
          ≡ counts_below limit (x ∷ seen) o
    by_rest none = refl
    by_rest (some earlier) = rw fresh (ground arith)

has_text-take-first_hits :
    (limit : ℕ) (t : Text) (seen lane : List Hit)
    → has_text t (map path_of seen) ≡ false
    → has_text t (map path_of (take limit (first_hits seen lane)))
      ≡ counts_below limit (map path_of seen) (before t (map path_of lane))
unfolding first_hits
has_text-take-first_hits zero t seen lane h =
    sym (counts_below-none (map path_of seen) (before t (map path_of lane)))
has_text-take-first_hits (suc limit) t seen [] h = refl
has_text-take-first_hits (suc limit) t seen (hit ∷ lane) h =
    elim (Bool-cases (same_text t hit.path)) [
      | inl same ↦
          let here : hit.path ≡ t = sym (same_text-eq t hit.path same) in
          let fresh : has_path hit.path seen ≡ false = has_path-eq hit.path seen ∙ rw here h in
          rw (fresh, same) (ground arith)
      | inr other ↦
          let apart : has_text t (hit.path ∷ map path_of seen) ≡ false = ground (arith, other, h) in
          elim (Bool-cases (has_path hit.path seen)) [
            | inl old ↦
                let was = sym (has_path-eq hit.path seen) ∙ old in
                let ih = has_text-take-first_hits (suc limit) t (hit ∷ seen) lane apart in
                rw old (
                  ih
                  ∙ sym (
                      counts_below-again (suc limit) t (map path_of seen) hit.path
                        (map path_of lane) other was))
            | inr new ↦
                let was = sym (has_path-eq hit.path seen) ∙ new in
                let ih = has_text-take-first_hits limit t (hit ∷ seen) lane apart in
                rw new (
                  ap
                    (λ b. b || has_text t (map path_of (take limit (first_hits (hit ∷ seen) lane))))
                    other
                  ∙ ih
                  ∙ sym (
                      counts_below-first limit t (map path_of seen) hit.path (map path_of lane)
                        other was))
          ]
    ]

pub has_text-representatives :
    (t : Text) (lane : List Hit)
    → has_text t (map path_of (representatives lane)) ≡ is_among_first 1_000 t lane
unfolding representatives
has_text-representatives t lane =
    has_text-take-first_hits 1_000 t [] lane refl ∙ by_cases (before t (map path_of lane))
  where
    by_cases :
        (o : Option (List Text))
        → counts_below 1_000 [] o
          ≡ elim o [ none ↦ false | some earlier ↦ ltb (count_new [] earlier) 1_000 ]
    by_cases none = refl
    by_cases (some earlier) = refl
