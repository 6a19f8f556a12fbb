-- ===== src/Search/PathFilter/SingleFile.antt =====
-- src/search/path_filter.rs: the one file that a filter names. The `files` table is the list of its
-- paths in path order.
pub mod Filtered
pub mod Resolved
use trufflepig.Prelude.{
  Bool, true, false, not, ◌&&◌, ◌||◌, Option, none, some, List, [], ◌∷◌, ◌==◌, ℕ_key, if◌then◌else◌,
  take, nat_eq,
}
use trufflepig.Prelude.Entries.{list_key}
use trufflepig.Prelude.Texts.{keep}
use trufflepig.Search.PathFilter.{
  Bytes, PathFilter, strip_prefix, starts_with, any, is_empty, bind, sql_clause,
}

-- What stands behind the first occurrence, as `find` and a slice give it.
unfoldable pub behind_first : Bytes → Bytes → Option Bytes
unfolding strip_prefix
behind_first needle [] = strip_prefix needle []
behind_first needle (x ∷ text) =
    let further = behind_first needle text in
    elim (strip_prefix needle (x ∷ text)) [ some rest ↦ some rest | none ↦ further ]

-- `&path[end..]` of one value, where it occurs.
unfoldable pub rest_behind : Bytes → Bytes → Option Bytes
unfolding behind_first strip_prefix
rest_behind path value = elim (strip_prefix value path) [
  | some rest ↦ some rest
  | none ↦ behind_first (b'/' ∷ value) path
]

unfoldable pub names_file : Bytes → List Bytes → Bool
unfolding rest_behind starts_with
names_file path values =
    any
      (λ value. elim (rest_behind path value) [
        | none ↦ false
        | some rest ↦
            (is_empty rest || starts_with rest (b'.' ∷ [])) && not (any (λ c. nat_eq c b'/') rest)
      ])
      values

-- The query for the value itself, of a filter with this value alone.
unfoldable pub exact_path : List Bytes → PathFilter → Option Bytes
exact_path files f = elim f.include [
  | [] ↦ none
  | value ∷ values ↦
      if is_empty values && is_empty f.exclude && any (λ path. path == value) files
      then some value
      else none
]

abbrev pub lone : List Bytes → List Bytes → Option Bytes
lone values [] = none
lone values (path ∷ []) = if names_file path values then some path else none
lone values (path ∷ other ∷ paths) = none

unfoldable pub resolve_single_file : List Bytes → PathFilter → Option Bytes
unfolding exact_path names_file bind sql_clause
resolve_single_file files f =
    let matched = lone f.include (take 2 (keep (sql_clause (bind files f)) files)) in
    elim (exact_path files f) [
      | some path ↦ some path
      | none ↦ if is_empty f.include then none else matched
    ]
