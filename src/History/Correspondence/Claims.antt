-- ===== src/History/Correspondence/Claims.antt =====
-- The matching of src/history/source_diff/correspondence.rs claims no declaration twice.
use trufflepig.Prelude.{
  ℕ, zero, suc, ◌+◌, ◌≤◌, ◌<◌, ◌≡◌, refl, sym, ap, ◌∙◌, arith, Bool, true, false, ◌&&◌, Option,
  none, some, List, [], ◌∷◌, if◌then◌else◌, nat_eq, Key, Option-cases, inl, inr, get_elem?, set,
  length, length-set,
}
use trufflepig.Prelude.Maps.{Map, get}
use trufflepig.History.SourceDiff.{SourceDiff, shares_change}
use trufflepig.History.Correspondence.{
  DeclarationRelation, modified, moved, Matching, MatchFact, Visits, only, unmatched, unused, claim,
  claim_if, match_pair, match_content, match_group, repeat, match_positions, match_lone,
  match_moved, match_groups, matching_of, group_contents, group_definitions, candidate_of, position,
  start_at,
}

abbrev pub Matches : Type 0
Matches = List (Option (ℕ × DeclarationRelation))

abbrev pub one_if : Bool → ℕ
one_if b = if b then 1 else 0

-- How many matches claim the declaration `a`.
abbrev pub claimed : ℕ → Matches → ℕ
claimed a [] = 0
claimed a (none ∷ ms) = claimed a ms
claimed a (some (b, r) ∷ ms) = one_if (nat_eq a b) + claimed a ms

abbrev pub taken : List Bool → ℕ → ℕ
taken [] a = 0
taken (used ∷ us) zero = one_if used
taken (used ∷ us) (suc a) = taken us a

-- Each declaration of the other side is claimed as often as it is marked: never, or once.
pub record IsConsistent (n k : ℕ) (st : Matching) : Type 0 where
  pub counted : (a : ℕ) → claimed a st.matches ≡ taken st.used_after a
  pub lefts : length st.matches ≡ n
  pub rights : length st.used_after ≡ k

claimed-set :
    (a : ℕ) (ms : Matches) (i b : ℕ) (r : DeclarationRelation)
    → get_elem? ms i ≡ some none
    → claimed a (set ms i (some (b, r))) ≡ one_if (nat_eq a b) + claimed a ms
claimed-set a [] i b r h = absurd (ground arith)
claimed-set a (none ∷ ms) zero b r h = refl
claimed-set a (some x ∷ ms) zero b r h = absurd (ground arith)
claimed-set a (none ∷ ms) (suc i) b r h = claimed-set a ms i b r h
claimed-set a (some (c, q) ∷ ms) (suc i) b r h = omega (arith, claimed-set a ms i b r h)

taken-set :
    (us : List Bool) (b a : ℕ)
    → get_elem? us b ≡ some false
    → taken (set us b true) a ≡ one_if (nat_eq a b) + taken us a
taken-set [] b a h = absurd (ground arith)
taken-set (u ∷ us) zero zero h = ground arith
taken-set (u ∷ us) zero (suc a) h = ground arith
taken-set (u ∷ us) (suc b) zero h = ground arith
taken-set (u ∷ us) (suc b) (suc a) h = ground (arith, taken-set us b a h)

unmatched-none :
    (st : Matching) (i : ℕ) → unmatched st i ≡ true → get_elem? st.matches i ≡ some none
unmatched-none st i h = ground arith

unused-false : (st : Matching) (i : ℕ) → unused st i ≡ true → get_elem? st.used_after i ≡ some false
unused-false st i h = ground arith

three_true : (a b c : Bool) → (a && b && c) ≡ true → (a ≡ true) × (b ≡ true)
three_true a b c h = ground arith

module _ {n k : ℕ} where
  claim-IsConsistent :
      (left right : ℕ) (r : DeclarationRelation) (st : Matching)
      → unmatched st left ≡ true
      → unused st right ≡ true
      → IsConsistent n k st
      → IsConsistent n k (claim left right r st)
  claim-IsConsistent left right r st u f c = record {
    counted = λ a. omega (
      arith,
      c.counted a,
      claimed-set a st.matches left right r (unmatched-none st left u),
      taken-set st.used_after right a (unused-false st right f),
    );
    lefts = length-set st.matches left (some (right, r)) ∙ c.lefts;
    rights = length-set st.used_after right true ∙ c.rights;
  }

  claim_if-IsConsistent :
      (guard : Bool) (left right : ℕ) (r : DeclarationRelation) (st : Matching)
      → (guard ≡ true → (unmatched st left ≡ true) × (unused st right ≡ true))
      → IsConsistent n k st
      → IsConsistent n k (claim_if guard left right r st)
  claim_if-IsConsistent true left right r st g c =
      claim-IsConsistent left right r st (g refl).0 (g refl).1 c
  claim_if-IsConsistent false left right r st g c = c

-- Every index from `index` on is still to be matched.
abbrev IsOpen : ℕ → Matching → Type 0
IsOpen index st = (i : ℕ) → index ≤ i → i < length st.matches → unmatched st i ≡ true

get_elem?-set_other {ℓ} :
    {A : Type ℓ} (xs : List A) (i j : ℕ) (x : A) → i < j → get_elem? (set xs i x) j ≡ get_elem? xs j
get_elem?-set_other [] i j x h = refl
get_elem?-set_other (y ∷ xs) zero zero x h = absurd (omega arith)
get_elem?-set_other (y ∷ xs) zero (suc j) x h = refl
get_elem?-set_other (y ∷ xs) (suc i) zero x h = absurd (omega arith)
get_elem?-set_other (y ∷ xs) (suc i) (suc j) x h = get_elem?-set_other xs i j x (omega arith)

claim_if-IsOpen :
    (guard : Bool) (index right : ℕ) (r : DeclarationRelation) (st : Matching)
    → IsOpen index st
    → IsOpen (index + 1) (claim_if guard index right r st)
claim_if-IsOpen false index right r st o i h l = o i (omega arith) l
claim_if-IsOpen true index right r st o i h l =
    rw (get_elem?-set_other st.matches index i (some (right, r)) (omega arith), unmatched)
      (o i (omega arith) (omega (arith, length-set st.matches index (some (right, r)))))

module _ {n k : ℕ} where
  match_pair-IsConsistent :
      (guard : ℕ → ℕ → Bool) (r : DeclarationRelation) (left right : Option ℕ) (st : Matching)
      → IsConsistent n k st
      → IsConsistent n k (match_pair guard r left right st)
  match_pair-IsConsistent guard r none right st i = i
  match_pair-IsConsistent guard r (some left) none st i = i
  match_pair-IsConsistent guard r (some left) (some right) st i =
      claim_if-IsConsistent (unmatched st left && unused st right && guard left right) left right r
        st (three_true (unmatched st left) (unused st right) (guard left right)) i

  match_content-IsConsistent :
      (lefts : List ℕ) (rights : Option (List ℕ)) (st : Matching)
      → IsConsistent n k st
      → IsConsistent n k (match_content lefts rights st)
  match_content-IsConsistent lefts none st i = i
  match_content-IsConsistent lefts (some rights) st i =
      match_pair-IsConsistent (λ l r. true) moved (only lefts) (only rights) st i

  match_moved-IsConsistent :
      {C : Type 0} ⦃c : Key C⦄ (after_content before_content : Map C (List ℕ)) (st : Matching)
      → IsConsistent n k st
      → IsConsistent n k (match_moved after_content before_content st)
  unfolding match_moved
  match_moved-IsConsistent after_content [] st i = i
  match_moved-IsConsistent after_content ((bytes, lefts) ∷ before_content) st i =
      match_moved-IsConsistent after_content before_content _
        (match_content-IsConsistent lefts (get bytes after_content) st i)

module _ {K C : Type 0} ⦃e : Key K⦄ ⦃c : Key C⦄ {n k : ℕ} where
  match_positions-IsConsistent :
      (candidate_of : MatchFact K C → Option ℕ) (after : List (MatchFact K C)) (index : ℕ)
      (facts : List (MatchFact K C)) (st : Matching)
      → index + length facts ≡ n
      → IsOpen index st
      → IsConsistent n k st
      → IsConsistent n k (match_positions candidate_of after index facts st)
  unfolding match_positions
  match_positions-IsConsistent candidate_of after index [] st l o i = i
  match_positions-IsConsistent candidate_of after index (fact ∷ facts) st l o i =
      elim (Option-cases (candidate_of fact)) [
        | inl e ↦ rw e (
            match_positions-IsConsistent candidate_of after (index + 1) facts st (omega arith)
              (λ j h. o j (omega arith)) i)
        | inr (candidate, e) ↦ rw e (
            match_positions-IsConsistent candidate_of after (index + 1) facts _ (omega arith)
              (claim_if-IsOpen (unused st candidate) index candidate _ st o)
              (claim_if-IsConsistent (unused st candidate) index candidate _ st
                (λ g. (o index (omega arith) (omega (arith, i.lefts)), g)) i))
      ]

  match_lone-IsConsistent :
      (before after : List (MatchFact K C)) (before_offsets after_offsets : List ℕ)
      (diff : SourceDiff) (before_indexes after_indexes : List ℕ) (st : Matching)
      → IsConsistent n k st
      → IsConsistent n k (
          match_lone before after before_offsets after_offsets diff before_indexes after_indexes st)
  unfolding match_lone
  match_lone-IsConsistent before after bo ao diff ids others st i =
      match_pair-IsConsistent
        (λ l r.
          shares_change diff (position bo (start_at before l)).0 (position ao (start_at after r)).0)
        modified (only ids) (only others) st i

  match_groups-IsConsistent :
      (visits : Visits K C) (before after : List (MatchFact K C))
      (before_offsets after_offsets : List ℕ) (diff : SourceDiff)
      (after_groups before_groups : Map K (List ℕ)) (st : Matching)
      → IsConsistent n k st
      → IsConsistent n k (
          match_groups visits before after before_offsets after_offsets diff after_groups
            before_groups st)
  unfolding match_groups match_group
  match_groups-IsConsistent visits before after bo ao diff after_groups [] st i = i
  match_groups-IsConsistent visits before after bo ao diff after_groups ((key, ids) ∷ groups) st i =
      match_groups-IsConsistent visits before after bo ao diff after_groups groups _
        (match_group-IsConsistent (get key after_groups))
    where
      match_group-IsConsistent :
          (others : Option (List ℕ))
          → IsConsistent n k (match_group visits before after bo ao diff ids others st)
      match_group-IsConsistent none = i
      match_group-IsConsistent (some others) =
          match_moved-IsConsistent (group_contents after others [])
            (visits.contents (group_contents before ids []))
            (match_lone before after bo ao diff ids others st)
            (match_lone-IsConsistent before after bo ao diff ids others st i)

claimed-repeat : (a n : ℕ) → claimed a (repeat none n) ≡ 0
claimed-repeat a zero = refl
claimed-repeat a (suc n) = claimed-repeat a n

taken-repeat : (a n : ℕ) → taken (repeat false n) a ≡ 0
taken-repeat a zero = refl
taken-repeat zero (suc n) = refl
taken-repeat (suc a) (suc n) = taken-repeat a n

length-repeat {ℓ} : {A : Type ℓ} (x : A) (n : ℕ) → length (repeat x n) ≡ n
length-repeat x zero = refl
length-repeat x (suc n) = ap suc (length-repeat x n)

unmatched-repeat :
    (n i : ℕ) (us : List Bool)
    → i < length (repeat {A = Option (ℕ × DeclarationRelation)} none n)
    → unmatched (record { matches = repeat none n; used_after = us }) i ≡ true
unmatched-repeat zero i us h = absurd (omega arith)
unmatched-repeat (suc n) zero us h = refl
unmatched-repeat (suc n) (suc i) us h = unmatched-repeat n i us (omega arith)

module _ {K C : Type 0} ⦃e : Key K⦄ ⦃c : Key C⦄ where
  pub matching_of-IsConsistent :
      (visits : Visits K C) (before after : List (MatchFact K C))
      (before_offsets after_offsets : List ℕ) (diff : SourceDiff)
      → IsConsistent
          (length before)
          (length after)
          (matching_of visits before after before_offsets after_offsets diff)
  unfolding matching_of
  matching_of-IsConsistent visits before after bo ao diff =
      match_groups-IsConsistent visits before after bo ao diff (group_definitions 0 after [])
        (visits.groups (group_definitions 0 before [])) _
        (match_positions-IsConsistent (candidate_of before after bo ao diff) after 0 before _
          (omega arith)
          (λ i h l. unmatched-repeat (length before) i (repeat false (length after)) l)
          (record {
            counted = λ a. claimed-repeat a (length before) ∙ sym (taken-repeat a (length after));
            lefts = length-repeat none (length before);
            rights = length-repeat false (length after);
          }))
