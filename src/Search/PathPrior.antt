-- ===== src/Search/PathPrior.antt =====
-- src/search/path_prior.rs: which paths a query demotes. A weight is one of the two constants of the
-- source, WeightClass.
use trufflepig.Prelude.{
  Bool, true, false, ◌&&◌, ◌||◌, not, Option, none, some, List, [], ◌∷◌, ◌++◌, map, if◌then◌else◌,
  leb, nat_eq,
}
use trufflepig.Prelude.Texts.{
  Text, Unicode, chars, is_empty, split_at, is_word, is_one_of, some_of, lower_ascii,
}
use trufflepig.Search.PathClass.{is_test_path, is_doc_pointer_path, is_slash}
use trufflepig.Search.Query.{Query, query_terms, filename_score, not_empty}
use trufflepig.Search.ConceptQuery as Concept
use Prim.Native.String.{String}

abbrev pub test_terms : List String
test_terms = "test" ∷ "tests" ∷ "testing" ∷ "spec" ∷ "fixture" ∷ "fixtures" ∷ []

abbrev pub doc_terms : List String
doc_terms =
    "doc" ∷ "docs" ∷ "documentation" ∷ "readme" ∷ "markdown" ∷ "md" ∷ "agents" ∷ "claude" ∷ "guide"
    ∷ []

-- DEMOTED_PATH_WEIGHT and 1.0
pub data WeightClass : Type 0 where
  demoted full : WeightClass

pub record PathPrior : Type 0 where
  pub demote_tests : Bool
  pub demote_docs : Bool
  pub exempt_named : Bool
  pub terms : List Text

unfoldable pub selects_tests : Text → Bool
unfolding is_test_path split_at
selects_tests value =
    is_test_path value
    || some_of (λ part. not_empty part && is_test_path (part ++ chars "/x"))
        (split_at is_slash [] value)

unfoldable pub selects_docs : Text → Bool
unfolding is_doc_pointer_path split_at
selects_docs value =
    is_doc_pointer_path value
    || some_of (λ part. is_one_of part ("doc" ∷ "docs" ∷ [])) (split_at is_slash [] value)

abbrev is_absent {ℓ} : {A : Type ℓ} → Option A → Bool
is_absent none = true
is_absent (some a) = false

unfoldable pub for_query : Unicode → Query → PathPrior
unfolding selects_tests selects_docs query_terms Concept.parse
for_query u query =
    let terms = query_terms u query.text in
    let filters = map lower_ascii query.path.include in
    let listing = is_word query.kind "file" in
    let concept = Concept.parse u query.text in
    record {
      demote_tests =
          not listing
          && (not (some_of (λ term. is_one_of term test_terms) terms)
              && not (some_of selects_tests filters));
      demote_docs =
          not listing
          && (not (some_of (λ term. is_one_of term doc_terms) terms)
              && (not (is_word query.language "text") && not (some_of selects_docs filters)));
      exempt_named = is_absent concept.identifier;
      terms = terms;
    }

module _ (u : Unicode) (prior : PathPrior) where
  unfoldable pub names : Text → Bool
  unfolding filename_score
  names path = not (is_empty prior.terms) && leb 2 (filename_score u path prior.terms)

  unfoldable pub names_exactly : Text → Bool
  unfolding filename_score
  names_exactly path = not (is_empty prior.terms) && nat_eq (filename_score u path prior.terms) 3

  unfoldable pub weight : Text → WeightClass
  unfolding names is_test_path is_doc_pointer_path
  weight path =
      if ((prior.demote_tests && is_test_path path)
          || (prior.demote_docs && is_doc_pointer_path path))
        && not (prior.exempt_named && names path)
      then demoted
      else full
