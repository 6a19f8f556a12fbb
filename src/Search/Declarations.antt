-- ===== src/Search/Declarations.antt =====
-- src/search/declarations.rs and rank_definitions of src/search.rs: declarations of a name, ranked.
-- The rows that the index returns for a name are a parameter, in the order of the statement.
use trufflepig.Prelude.{
  ℕ, suc, Bool, true, false, ◌||◌, not, Option, none, some, List, [], ◌∷◌, ◌++◌, if◌then◌else◌, ltb,
  nat_eq, length, take, compare, Ordering,
}
use trufflepig.Prelude.Words.{saturating_add}
use trufflepig.Prelude.Sort.{then_with, compare_bool, compare_text, sort_by}
use trufflepig.Prelude.Texts.{
  Text, Unicode, chars, is_empty, split_at, split_colons, rsplit_once, same_text, is_one_of,
  is_word, some_of,
}
use trufflepig.Search.Hits.{Hit, LaneHits}
use trufflepig.Search.PathClass.{is_test_path, is_slash}
use trufflepig.Search.QualifiedName.{
  QualifiedName, QualifierMatch, suffix, subsequence, matches, is_qualified,
}

abbrev pub InvocationDirectory : Type 0
InvocationDirectory = Text

-- `zip`, `take_while` and `count`
abbrev pub shared_parts : List Text → List Text → ℕ
shared_parts [] right = 0
shared_parts (l ∷ left) [] = 0
shared_parts (l ∷ left) (r ∷ right) = if same_text l r then suc (shared_parts left right) else 0

abbrev pub directory_of : Text → Text
directory_of path = elim (rsplit_once (chars "/") path) [
  | none ↦ []
  | some (directory, file) ↦ directory
]

unfoldable pub shared_depth : InvocationDirectory → Text → ℕ
unfolding split_at
shared_depth origin path =
    if is_empty origin
    then 0
    else shared_parts (split_at is_slash [] origin) (split_at is_slash [] (directory_of path))

unfoldable pub declaration_rank : Text → ℕ
declaration_rank kind =
    if is_word kind "module"
    then 1
    else if is_one_of kind ("variant" ∷ "field" ∷ "constructor" ∷ [])
    then 2
    else if is_one_of kind ("variable" ∷ "parameter" ∷ "import" ∷ [])
    then 3
    else 0

unfoldable pub is_test_site : Hit → Bool
unfolding is_test_path split_colons
is_test_site hit = is_test_path hit.path || elim hit.container [
  | none ↦ false
  | some container ↦
      some_of (λ segment. is_one_of segment ("tests" ∷ "test" ∷ [])) (split_colons [] container)
]

-- The order of `rank_key`: the depth that is shared is reversed.
unfoldable pub compare_rank : InvocationDirectory → Hit → Hit → Ordering
unfolding declaration_rank is_test_site shared_depth
compare_rank origin a b = then_with (compare (declaration_rank a.kind) (declaration_rank b.kind)) (
    then_with (compare_bool (is_test_site a) (is_test_site b))
      (compare (shared_depth origin b.path) (shared_depth origin a.path)))

unfoldable pub rank_declarations : InvocationDirectory → List Hit → List Hit
unfolding sort_by compare_rank
rank_declarations origin hits = sort_by (compare_rank origin) hits

abbrev pub by_span : Hit → Hit → Ordering
by_span a b =
    then_with (compare_text a.path b.path)
      (then_with (compare a.start b.start) (compare a.end b.end))

unfoldable pub rank_definitions : InvocationDirectory → List Hit → List Hit
unfolding rank_declarations sort_by
rank_definitions origin hits = rank_declarations origin (sort_by by_span hits)

abbrev pub tier_number : QualifierMatch → ℕ
tier_number suffix = 0
tier_number subsequence = 1

-- The variables of the loop over the rows.
pub record Kept : Type 0 where
  pub hits : List Hit
  pub best : Option ℕ
  pub truncated : Bool

-- The test on the length of `hits`: the new state, and whether the loop breaks.
unfoldable pub keep_hit : Bool → ℕ → ℕ → Hit → Kept → Kept × Bool
keep_hit qualified result_cap tier hit k =
    if nat_eq (length k.hits) result_cap
    then (record k { truncated = true }, not qualified || nat_eq tier 0)
    else (record k { hits = k.hits ++ hit ∷ [] }, false)

-- The body of the loop for a row that matches at `tier`.
unfoldable pub read_row : Bool → ℕ → ℕ → Hit → Kept → Kept × Bool
unfolding keep_hit
read_row qualified result_cap tier hit k =
    let fresh : Kept = record { hits = []; best = some tier; truncated = false } in
    elim k.best [
      | none ↦ keep_hit qualified result_cap tier hit (record k { best = some tier })
      | some previous ↦
          if ltb previous tier
          then (k, false)
          else if ltb tier previous
          then keep_hit qualified result_cap tier hit fresh
          else keep_hit qualified result_cap tier hit k
    ]

unfoldable pub read_rows : Unicode → QualifiedName → ℕ → List Hit → Kept → Kept
unfolding read_row matches is_qualified
read_rows u name result_cap [] k = k
read_rows u name result_cap (row ∷ rows) k = elim (matches u name row.path row.container) [
  | none ↦ read_rows u name result_cap rows k
  | some tier ↦
      let (next, stop) = read_row (is_qualified name) result_cap (tier_number tier) row k in
      let rest = read_rows u name result_cap rows next in if stop then next else rest
]

-- `rows` are what the statement gives without its LIMIT.
unfoldable pub qualified_hits_with_limit : Unicode → QualifiedName → ℕ → List Hit → LaneHits
unfolding read_rows is_qualified
qualified_hits_with_limit u name max_hits rows =
    let result_cap = saturating_add max_hits 1 in
    let seen = if is_qualified name then rows else take result_cap rows in
    let k =
      read_rows u name result_cap seen (record { hits = []; best = none; truncated = false }) in
    record { hits = take max_hits k.hits; truncated = k.truncated || ltb max_hits (length k.hits) }
