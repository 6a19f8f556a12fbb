-- ===== src/History/Correspondence/Rows.antt =====
-- The rows of `match_facts` of src/history/source_diff/correspondence.rs.
use trufflepig.Prelude.{
  ℕ, zero, suc, ◌+◌, ◌-◌, ◌≤◌, ◌<◌, ◌≡◌, refl, ap, subst, ◌∙◌, arith, Bool, true, false, Option,
  none, some, List, [], ◌∷◌, ◌++◌, nat_eq, min, Key, get_elem?, length, take, drop, length-take,
  count_from, get_elem?-lt,
}
use trufflepig.Prelude.Maps.{Map, get}
use trufflepig.History.SourceDiff.{SourceDiff}
use trufflepig.History.Correspondence.{
  DeclarationRelation, DeclarationCorrespondence, Matching, MatchFact, Visits, match_at, remainder,
  repeat, before_rows, after_rows, remaining_groups, group_definitions, matching_of, match_facts,
}
use trufflepig.History.Correspondence.Claims.{
  Matches, one_if, claimed, taken, matching_of-IsConsistent,
}

abbrev pub Rows : Type 0
Rows = List DeclarationCorrespondence

abbrev of_option : Option ℕ → List ℕ → List ℕ
of_option none ids = ids
of_option (some i) ids = i ∷ ids

abbrev is_at : ℕ → Option ℕ → Bool
is_at a none = false
is_at a (some b) = nat_eq a b

-- The declarations that the rows name on the first side, in order.
abbrev pub befores : Rows → List ℕ
befores [] = []
befores (row ∷ rows) = of_option row.before (befores rows)

-- How many rows name the declaration `a` on the second side.
abbrev pub afters : ℕ → Rows → ℕ
afters a [] = 0
afters a (row ∷ rows) = one_if (is_at a row.after) + afters a rows

-- The candidates of all rows together.
abbrev pub candidate_links : Rows → ℕ
candidate_links [] = 0
candidate_links (row ∷ rows) = length row.candidates + candidate_links rows

befores-append : (r s : Rows) → befores s ≡ [] → befores (r ++ s) ≡ befores r
befores-append [] s h = h
befores-append (row ∷ r) s h = ap (of_option row.before) (befores-append r s h)

afters-append : (a : ℕ) (r s : Rows) → afters a (r ++ s) ≡ afters a r + afters a s
afters-append a [] s = omega arith
afters-append a (row ∷ r) s = omega (arith, afters-append a r s)

candidate_links-append :
    (r s : Rows) → candidate_links (r ++ s) ≡ candidate_links r + candidate_links s
candidate_links-append [] s = omega arith
candidate_links-append (row ∷ r) s = omega (arith, candidate_links-append r s)

abbrev claims_at : ℕ → Option (ℕ × DeclarationRelation) → ℕ
claims_at a none = 0
claims_at a (some (b, r)) = one_if (nat_eq a b)

claimed-cons :
    (a : ℕ) (m : Option (ℕ × DeclarationRelation)) (ms : Matches)
    → claimed a (m ∷ ms) ≡ claims_at a m + claimed a ms
claimed-cons a none ms = omega arith
claimed-cons a (some (b, r)) ms = refl

claimed-drop :
    (a : ℕ) (ms : Matches) (i : ℕ) (m : Option (ℕ × DeclarationRelation))
    → get_elem? ms i ≡ some m
    → claimed a (drop i ms) ≡ claims_at a m + claimed a (drop (suc i) ms)
claimed-drop a [] i m h = absurd (ground arith)
claimed-drop a (x ∷ ms) zero m h =
    let e : x ≡ m = cc in claimed-cons a x ms ∙ ap (λ y. claims_at a y + claimed a ms) e
claimed-drop a (x ∷ ms) (suc i) m h = claimed-drop a ms i m h

drop-length {ℓ} : {A : Type ℓ} (xs : List A) (i : ℕ) → length xs ≤ i → drop i xs ≡ []
drop-length [] zero h = refl
drop-length [] (suc i) h = refl
drop-length (x ∷ xs) zero h = absurd (omega arith)
drop-length (x ∷ xs) (suc i) h = drop-length xs i (omega arith)

get_elem?-match_at :
    (st : Matching) (i : ℕ) → i < length st.matches → get_elem? st.matches i ≡ some (match_at st i)
get_elem?-match_at st i h = let (m, e) = get_elem?-lt st.matches i h in ground (arith, e)

suc-eq : (n : ℕ) → suc n ≡ n + 1
suc-eq n = omega arith

zero-add : (n : ℕ) → 0 + n ≡ n
zero-add n = omega arith

-- What the rows of the first side say, from `index` on.
record Covers (st : Matching) (links index n : ℕ) (rows : Rows) : Type 0 where
  named : befores rows ≡ count_from index n
  claims : (a : ℕ) → afters a rows ≡ claimed a (drop index st.matches)
  bounded : candidate_links rows ≤ links

module _ {K C : Type 0} ⦃e : Key K⦄ ⦃c : Key C⦄ where
  before_rows-Covers :
      (remaining : Map K (List ℕ × ℕ)) (complete : Bool) (st : Matching) (links index : ℕ)
      (facts : List (MatchFact K C))
      → index + length facts ≡ length st.matches
      → Covers st links index (length facts) (before_rows remaining complete st links index facts)
  unfolding before_rows
  before_rows-Covers remaining complete st links index [] l = record {
    named = refl;
    claims = λ a. rw (drop-length st.matches index (omega arith)) refl;
    bounded = omega arith;
  }
  before_rows-Covers remaining complete st links index (fact ∷ facts) l =
      by_match (match_at st index) refl
        (λ links'. before_rows-Covers remaining complete st links' (index + 1) facts (omega arith))
    where
      candidates : List ℕ
      candidates =
          let left = remainder (get fact.key remaining) in take (min (length left.0) links) left.0

      few : length candidates ≤ links
      few =
          let left = remainder (get fact.key remaining) in
          omega (arith, length-take (min (length left.0) links) left.0)

      claims_next :
          (a : ℕ) (m : Option (ℕ × DeclarationRelation))
          → match_at st index ≡ m
          → claimed a (drop index st.matches)
            ≡ claims_at a m + claimed a (drop (index + 1) st.matches)
      claims_next a m h =
          claimed-drop a st.matches index m (get_elem?-match_at st index (omega arith) ∙ ap some h)
          ∙ ap (λ i. claims_at a m + claimed a (drop i st.matches)) (suc-eq index)

      by_match :
          (m : Option (ℕ × DeclarationRelation))
          → match_at st index ≡ m
          → ((links' : ℕ)
              → Covers st links'
                  (index + 1)
                  (length facts)
                  (before_rows remaining complete st links' (index + 1) facts))
          → Covers st links index
              (suc (length facts))
              (before_rows remaining complete st links index (fact ∷ facts))
      by_match none h ih =
          let g = ih (links - length candidates) in
          rw (h, before_rows)
            (record {
              named = ap (◌∷◌ index) g.named;
              claims = λ a. omega (arith, g.claims a, claims_next a none h);
              bounded = omega (arith, g.bounded, few);
            })
      by_match (some (after, r)) h ih =
          let g = ih links in
          rw (h, before_rows)
            (record {
              named = ap (◌∷◌ index) g.named;
              claims = λ a. omega (arith, g.claims a, claims_next a (some (after, r)) h);
              bounded = omega (arith, g.bounded);
            })

-- The rows of the other side, from `index` on.
afters-after_rows_below :
    (a : ℕ) (complete : Bool) (flags : List Bool) (index : ℕ) (us : List Bool)
    → a < index
    → afters a (after_rows complete flags index us) ≡ 0
unfolding after_rows
afters-after_rows_below a complete flags index [] h = refl
afters-after_rows_below a complete flags index (true ∷ us) h =
    afters-after_rows_below a complete flags (index + 1) us (omega arith)
afters-after_rows_below a complete flags index (false ∷ us) h =
    ground (arith, afters-after_rows_below a complete flags (index + 1) us)

afters-after_rows :
    (a : ℕ) (complete : Bool) (flags : List Bool) (index : ℕ) (us : List Bool)
    → a < length us
    → afters (index + a) (after_rows complete flags index us) + taken us a ≡ 1
unfolding after_rows
afters-after_rows a complete flags index [] h = absurd (omega arith)
afters-after_rows zero complete flags index (true ∷ us) h =
    omega (arith, afters-after_rows_below (index + 0) complete flags (index + 1) us (omega arith))
afters-after_rows zero complete flags index (false ∷ us) h =
    ground (arith, afters-after_rows_below (index + 0) complete flags (index + 1) us)
afters-after_rows (suc a) complete flags index (true ∷ us) h =
    subst (λ k. afters k (after_rows complete flags (index + 1) us) + taken us a ≡ 1) (omega arith)
      (afters-after_rows a complete flags (index + 1) us (omega arith))
afters-after_rows (suc a) complete flags index (false ∷ us) h = ground (
  arith,
  subst (λ k. afters k (after_rows complete flags (index + 1) us) + taken us a ≡ 1)
      {x = index + 1 + a} {y = index + suc a} (omega arith)
      (afters-after_rows a complete flags (index + 1) us (omega arith)),
)

befores-after_rows :
    (complete : Bool) (flags : List Bool) (index : ℕ) (us : List Bool)
    → befores (after_rows complete flags index us) ≡ []
unfolding after_rows
befores-after_rows complete flags index [] = refl
befores-after_rows complete flags index (true ∷ us) =
    befores-after_rows complete flags (index + 1) us
befores-after_rows complete flags index (false ∷ us) =
    befores-after_rows complete flags (index + 1) us

candidate_links-after_rows :
    (complete : Bool) (flags : List Bool) (index : ℕ) (us : List Bool)
    → candidate_links (after_rows complete flags index us) ≡ 0
unfolding after_rows
candidate_links-after_rows complete flags index [] = refl
candidate_links-after_rows complete flags index (true ∷ us) =
    candidate_links-after_rows complete flags (index + 1) us
candidate_links-after_rows complete flags index (false ∷ us) =
    omega (arith, candidate_links-after_rows complete flags (index + 1) us)

module _ {K C : Type 0} ⦃e : Key K⦄ ⦃c : Key C⦄ where
  -- Whatever the order of the hash maps, the rows name each declaration of the first revision exactly
  -- once, in order, and each declaration of the second revision exactly once; all rows together hold
  -- at most 4096 candidates.
  pub match_facts_lem :
      (visits : Visits K C) (before after : List (MatchFact K C))
      (before_offsets after_offsets : List ℕ) (complete : Bool) (diff : SourceDiff)
      → (befores (match_facts visits before after before_offsets after_offsets complete diff)
          ≡ count_from 0 (length before))
        × ((a : ℕ)
            → a < length after
            → afters a (match_facts visits before after before_offsets after_offsets complete diff)
              ≡ 1)
        × (candidate_links
              (match_facts visits before after before_offsets after_offsets complete diff)
            ≤ 4096)
  unfolding match_facts
  match_facts_lem visits before after bo ao complete diff =
      let st = matching_of visits before after bo ao diff in
      let i = matching_of-IsConsistent visits before after bo ao diff in
      let (flags, remaining) =
        remaining_groups st (group_definitions 0 before [])
          (visits.groups (group_definitions 0 after [])) (repeat false (length after)) [] in
      let g = before_rows-Covers remaining complete st 4096 0 before (omega (arith, i.lefts)) in
      let firsts = before_rows remaining complete st 4096 0 before in
      let seconds = after_rows complete flags 0 st.used_after in
      let once : (a : ℕ) → a < length after → afters a (firsts ++ seconds) ≡ 1 = λ a h. omega (
        arith,
        afters-append a firsts seconds,
        g.claims a,
        i.counted a,
        afters-after_rows a complete flags 0 st.used_after (omega (arith, i.rights, h)),
        ap (λ k. afters k seconds) (zero-add a),
      ) in
      let few : candidate_links (firsts ++ seconds) ≤ 4096 = omega (
        arith,
        candidate_links-append firsts seconds,
        g.bounded,
        candidate_links-after_rows complete flags 0 st.used_after,
      ) in
      (
        befores-append firsts seconds (befores-after_rows complete flags 0 st.used_after) ∙ g.named,
        once,
        few,
      )
