-- ===== src/Search/Query.antt =====
-- src/search.rs and src/search/language_filter.rs: the query that a line of input stands for, and how
-- well a path answers its terms.
use trufflepig.Prelude.{
  ℕ, Bool, true, false, ◌&&◌, ◌||◌, not, Option, none, some, List, [], ◌∷◌, ◌++◌, map,
  if◌then◌else◌, nat_eq,
}
use trufflepig.Prelude.Texts.{
  Text, Unicode, chars, keep, all, is_empty, strip, trim, trim_end, split_at, split_inclusive, join,
  behind_last, rsplit_once, lower_ascii, same_texts, is_word, is_one_of, some_of, contains_text,
  utf8,
}
use trufflepig.Search.PathFilter.{PathFilter, add_include, add_exclude}
use Prim.Native.String.{String}

abbrev pub indexed_languages : List String
indexed_languages =
    "rust" ∷ "typescript" ∷ "javascript" ∷ "csharp" ∷ "php" ∷ "luau" ∷ "dreammaker" ∷ "text" ∷ []

-- The aliases of each language.
abbrev alias : Text → Option Text
alias lower =
    if is_word lower "rs"
    then some (chars "rust")
    else if is_one_of lower ("ts" ∷ "tsx" ∷ [])
    then some (chars "typescript")
    else if is_one_of lower ("js" ∷ "jsx" ∷ [])
    then some (chars "javascript")
    else if is_one_of lower ("cs" ∷ "c#" ∷ [])
    then some (chars "csharp")
    else if is_word lower "phtml"
    then some (chars "php")
    else if is_word lower "lua"
    then some (chars "luau")
    else if is_word lower "dm"
    then some (chars "dreammaker")
    else if is_one_of lower ("md" ∷ "markdown" ∷ "toml" ∷ "json" ∷ "txt" ∷ [])
    then some (chars "text")
    else none

-- `none` is the error `unknown_language`.
unfoldable pub canonical_language : Text → Option Text
canonical_language value =
    let lower = lower_ascii value in
    if is_empty value
    then some []
    else if is_one_of lower indexed_languages
    then some lower
    else alias lower

pub record Query : Type 0 where
  pub text : Text
  pub path : PathFilter
  pub language : Text
  pub kind : Text
  pub exact : Bool
  pub regex : Bool

pub data QueryError : Type 0 where
  unknown_language empty_prefixed_query : QueryError

pub data Parsed (A : Type 0) : Type 0 where
  parsed : A → Parsed A
  refused : QueryError → Parsed A

abbrev pub empty_query : Query
empty_query = record {
  text = [];
  path = record { include = []; exclude = [] };
  language = [];
  kind = [];
  exact = false;
  regex = false;
}

-- The body of the loop over the chunks. The text of the query is built in its own field.
unfoldable pub read_chunk : Unicode → Query → Text → Parsed Query
unfolding add_include add_exclude canonical_language
read_chunk u query chunk =
    let word = trim_end u.is_whitespace chunk in
    elim (strip (chars "file:") word) [
      | some value ↦ parsed (record query { path = add_include query.path (utf8 value) })
      | none ↦ elim (strip (chars "-file:") word) [
        | some value ↦ parsed (record query { path = add_exclude query.path (utf8 value) })
        | none ↦ elim (strip (chars "lang:") word) [
          | some value ↦ elim (canonical_language value) [
            | some language ↦ parsed (record query { language = language })
            | none ↦ refused unknown_language
          ]
          | none ↦ elim (strip (chars "kind:") word) [
            | some value ↦ parsed (record query { kind = value })
            | none ↦ parsed (record query { text = query.text ++ chunk })
          ]
        ]
      ]
    ]

unfoldable pub read_chunks : Unicode → Query → List Text → Parsed Query
unfolding read_chunk
read_chunks u query [] = parsed query
read_chunks u query (chunk ∷ chunks) = elim (read_chunk u query chunk) [
  | parsed next ↦ read_chunks u next chunks
  | refused e ↦ refused e
]

unfoldable pub read_exact : Query → Query
read_exact query = elim (strip (chars "sym:") query.text) [
  | some text ↦ record query { exact = true; text = text }
  | none ↦ query
]

unfoldable pub read_regex : Query → Query
read_regex query = elim (strip (chars "re:") query.text) [
  | some text ↦ record query { regex = true; text = text }
  | none ↦ query
]

-- What follows the loop.
unfoldable pub finish : Unicode → Query → Parsed Query
unfolding read_exact read_regex
finish u read =
    let query = read_regex (read_exact (record read { text = trim u read.text })) in
    if is_empty query.text && (query.exact || query.regex)
    then refused empty_prefixed_query
    else parsed query

unfoldable pub parse : Unicode → Text → Parsed Query
unfolding read_chunks finish split_inclusive
parse u input = elim (read_chunks u empty_query (split_inclusive u.is_whitespace [] input)) [
  | parsed query ↦ finish u query
  | refused e ↦ refused e
]

abbrev pub not_empty : Text → Bool
not_empty term = not (is_empty term)

abbrev pub quote : Text → Text
quote term = b'"' ∷ (term ++ b'"' ∷ [])

-- `term.replace('"', "\"\"")`
abbrev pub double_quotes : Text → Text
double_quotes [] = []
double_quotes (c ∷ cs) =
    let rest = double_quotes cs in if nat_eq c b'"' then c ∷ c ∷ rest else c ∷ rest

-- `split` at what is neither alphanumeric nor `_`, less the empty parts.
unfoldable pub word_terms : Unicode → Text → List Text
unfolding split_at
word_terms u text =
    keep not_empty (split_at (λ c. not (u.is_alphanumeric c) && not (nat_eq c b'_')) [] text)

unfoldable pub fts_terms : Unicode → Text → Text
unfolding word_terms
fts_terms u text =
    join (chars " OR ") (map (λ term. quote (double_quotes term)) (word_terms u text))

unfoldable pub query_terms : Unicode → Text → List Text
unfolding split_at
query_terms u text =
    map u.to_lowercase (keep not_empty (split_at (λ c. not (u.is_alphanumeric c)) [] text))

abbrev stem_of : Text → Text
stem_of basename = elim (rsplit_once (chars ".") basename) [
  | none ↦ basename
  | some (stem, extension) ↦ stem
]

unfoldable pub filename_score : Unicode → Text → List Text → ℕ
unfolding query_terms
filename_score u path terms =
    let basename = behind_last (chars "/") path in
    if is_empty terms
    then 1
    else if same_texts (query_terms u (stem_of basename)) terms
    then 3
    else if all (contains_text (u.to_lowercase basename)) terms
    then 2
    else if some_of (contains_text (u.to_lowercase path)) terms
    then 1
    else 0
