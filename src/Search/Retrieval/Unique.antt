-- ===== src/Search/Retrieval/Unique.antt =====
-- The hits that a search returns, of src/search.rs.
use trufflepig.Prelude.{
  ℕ, zero, suc, ◌≤◌, ◌≡◌, refl, subst, Bool, true, false, ◌&&◌, Option, none, some, List, [], ◌∷◌,
  if◌then◌else◌, nat_eq_iff, length, take, arith, Bool-cases, inl, inr, length-take,
}
use trufflepig.Prelude.Texts.{Unicode}
use trufflepig.Prelude.SameText.{same_text-eq, same_text_self}
use trufflepig.Search.Hits.{Hit, LaneHits, max_hits}
use trufflepig.Search.Query.{Query}
use trufflepig.Search.Ranking.{Floats}
use trufflepig.Search.Retrieval.{
  Services, same_site, seen_site, retain_new, limit_hits, finish, search_prepared, first_pass,
  second_pass, rerank_pass,
}

-- No two hits are at one site: path, span and kind.
abbrev pub Unique : List Hit → Type 0
Unique [] = Unit
Unique (hit ∷ hits) = (seen_site hit hits ≡ false) × Unique hits

same_site-same : (a b c : Hit) → same_site a b ≡ true → same_site a c ≡ same_site b c
same_site-same a b c h = ground (
  arith,
  same_text-eq a.path b.path,
  same_text-eq a.kind b.kind,
  nat_eq_iff a.start b.start,
  nat_eq_iff a.end b.end,
)

seen_site-first : (hit : Hit) (seen : List Hit) → seen_site hit (hit ∷ seen) ≡ true
seen_site-first hit seen = ground (arith, same_text_self hit.path, same_text_self hit.kind)

seen_site-same :
    (a b : Hit) (seen : List Hit) → same_site a b ≡ true → seen_site a seen ≡ seen_site b seen
seen_site-same a b [] h = refl
seen_site-same a b (c ∷ seen) h = rw (same_site-same a b c h, seen_site-same a b seen h) refl

-- A site that was seen is not kept again.
retain_new-fresh :
    (site : Hit) (seen hits : List Hit)
    → seen_site site seen ≡ true
    → seen_site site (retain_new seen hits) ≡ false
unfolding retain_new
retain_new-fresh site seen [] h = refl
retain_new-fresh site seen (hit ∷ hits) h =
    ground (arith, retain_new-fresh site (hit ∷ seen) hits, seen_site-same site hit seen)

retain_new-Unique : (seen hits : List Hit) → Unique (retain_new seen hits)
unfolding retain_new
retain_new-Unique seen [] = tt
retain_new-Unique seen (hit ∷ hits) = elim (Bool-cases (seen_site hit seen)) [
  | inl e ↦ rw e (retain_new-Unique (hit ∷ seen) hits)
  | inr e ↦
      let first = seen_site-first hit seen in
      rw e (retain_new-fresh hit (hit ∷ seen) hits first, retain_new-Unique (hit ∷ seen) hits)
]

seen_site-take :
    (site : Hit) (n : ℕ) (hits : List Hit)
    → seen_site site hits ≡ false
    → seen_site site (take n hits) ≡ false
seen_site-take site zero hits h = refl
seen_site-take site (suc n) [] h = refl
seen_site-take site (suc n) (hit ∷ hits) h = ground (arith, seen_site-take site n hits)

take-Unique : (n : ℕ) (hits : List Hit) → Unique hits → Unique (take n hits)
take-Unique zero hits h = tt
take-Unique (suc n) [] h = tt
take-Unique (suc n) (hit ∷ hits) (fresh, rest) =
    (seen_site-take hit n hits fresh, take-Unique n hits rest)

-- What may be returned: at most so many hits, no two of them at one site.
abbrev pub Listed : LaneHits → Type 0
Listed r = Unique r.hits × (length r.hits ≤ max_hits)

limit_hits-Listed : (hits : List Hit) (truncated : Bool) → Listed (limit_hits hits truncated)
unfolding limit_hits
limit_hits-Listed hits truncated = (
  take-Unique max_hits (retain_new [] hits) (retain_new-Unique [] hits),
  omega (arith, length-take max_hits (retain_new [] hits)),
)

abbrev ListedOption : Option LaneHits → Type 0
ListedOption none = Unit
ListedOption (some r) = Listed r

guarded-Listed : (b : Bool) (r : LaneHits) → Listed r → ListedOption (if b then some r else none)
guarded-Listed true r h = h
guarded-Listed false r h = tt

module _ {F : Type 0} (f : Floats F) (u : Unicode) (s : Services F) where
  finish-Listed : (query : Query) (found : LaneHits) → ListedOption (finish f u s query found)
  unfolding finish
  finish-Listed query found =
      guarded-Listed _ (limit_hits found.hits found.truncated)
        (limit_hits-Listed found.hits found.truncated)

  search_prepared-ListedOption : (query : Query) → ListedOption (search_prepared f u s query)
  unfolding search_prepared
  search_prepared-ListedOption query =
      elim (s.snapshot && s.binds query)
        as (λ b. ListedOption (elim b [
          | false ↦ none
          | true ↦ elim (first_pass f u s query) [
            | none ↦ none
            | some found ↦
                finish f u s query (rerank_pass f u s query (second_pass f u s query found))
          ]
        ])) [
          | false ↦ tt
          | true ↦
              elim (first_pass f u s query)
                as (λ o. ListedOption (elim o [
                  | none ↦ none
                  | some found ↦
                      finish f u s query (rerank_pass f u s query (second_pass f u s query found))
                ])) [
                  | none ↦ tt
                  | some found ↦
                      finish-Listed query (rerank_pass f u s query (second_pass f u s query found))
                ]
        ]

  -- Whatever the lanes, the vectors and the scorer return, a search that succeeds gives at most
  -- 10,000 hits, no two of which agree in path, span and kind.
  pub search_prepared-Listed :
      (query : Query) (r : LaneHits) → search_prepared f u s query ≡ some r → Listed r
  search_prepared-Listed query r h = subst ListedOption h (search_prepared-ListedOption query)
