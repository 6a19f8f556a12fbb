-- ===== src/Search/QualifiedName.antt =====
-- src/search/qualified_name.rs: `A::b` lookups. Texts are lists of characters, so that an offset
-- into a text is the rest of the text behind it; `i32` nesting depths, which fit, are two counts.
pub mod Matches
pub mod Split
pub mod Parse
use trufflepig.Prelude.{
  ℕ, zero, suc, ◌+◌, ◌-◌, Bool, true, false, not, ◌&&◌, ◌||◌, Option, none, some, List, [], ◌∷◌,
  ◌++◌, map, if◌then◌else◌, nat_eq, ◌==◌, ℕ_key, length, drop,
}
use trufflepig.Prelude.Entries.{list_key}
use trufflepig.Prelude.Texts.{
  Text, Unicode, chars, is_empty, keep, all, strip, begins, trim_start, trim_end, trim,
  trim_start_word, split_at, split_colons, split_once, rsplit_once, before_first, behind_last,
  words, join, flatten,
}

pub record QualifiedName : Type 0 where
  pub qualifier : List Text
  pub name : Text

pub data QualifierMatch : Type 0 where
  suffix subsequence : QualifierMatch

-- `segments.pop()`
abbrev pub pop_last {ℓ} : {A : Type ℓ} → List A → List A
pop_last [] = []
pop_last (x ∷ []) = []
pop_last (x ∷ y ∷ xs) = x ∷ pop_last (y ∷ xs)

abbrev pub last_or {ℓ} : {A : Type ℓ} → A → List A → A
last_or d [] = d
last_or d (x ∷ xs) = last_or x xs

abbrev pub is_special : Text → Bool
is_special part = part == chars "crate" || part == chars "self" || part == chars "super"

-- `while let Some(tail) = rest.strip_prefix(&["super"])`
unfoldable pub climb : List Text → List Text → List Text × List Text
climb qualifier [] = (qualifier, [])
climb qualifier (part ∷ rest) =
    let up = climb (pop_last qualifier) rest in
    if part == chars "super" then up else (qualifier, part ∷ rest)

-- `rest.strip_prefix(&["self"]).unwrap_or(rest)`
abbrev pub skip_self : List Text → List Text
skip_self [] = []
skip_self (part ∷ rest) = if part == chars "self" then rest else part ∷ rest

-- The `match rest.first()`.
unfoldable pub resolve : List Text → List Text → List Text → List Text × List Text
unfolding climb
resolve here crate_root [] = ([], [])
resolve here crate_root (part ∷ rest) =
    if part == chars "crate"
    then (crate_root, rest)
    else if part == chars "self" || part == chars "super"
    then climb here (skip_self (part ∷ rest))
    else ([], part ∷ rest)

unfoldable pub parse_in : Unicode → Text → List Text → List Text → QualifiedName
unfolding resolve split_colons
parse_in u text here crate_root =
    let segments = keep (λ part. not (is_empty part)) (map (trim u) (split_colons [] text)) in
    let (qualifier, rest) = resolve here crate_root (pop_last segments) in
    record {
      qualifier = qualifier ++ keep (λ part. not (is_special part)) rest;
      name = last_or [] segments;
    }

unfoldable pub parse : Unicode → Text → QualifiedName
unfolding parse_in
parse u text = parse_in u text [] []

unfoldable pub owner_hint : QualifiedName → Text
owner_hint q = last_or [] q.qualifier

unfoldable pub is_qualified : QualifiedName → Bool
is_qualified q = not (is_empty q.qualifier)

-- `owner.ends_with(&self.qualifier)`
unfoldable pub ends_with : List Text → List Text → Bool
ends_with [] needle = is_empty needle
ends_with (x ∷ xs) needle = (x ∷ xs) == needle || ends_with xs needle

unfoldable pub is_subsequence : List Text → List Text → Bool
is_subsequence [] haystack = true
is_subsequence (x ∷ needle) [] = false
is_subsequence (x ∷ needle) (y ∷ haystack) =
    let found = is_subsequence needle haystack in
    let further = is_subsequence (x ∷ needle) haystack in if y == x then found else further

unfoldable pub module_segments : Text → List Text
unfolding split_at
module_segments path =
    let stem : Text = elim (rsplit_once (chars ".") path) [
      | none ↦ path
      | some (stem, extension) ↦ if all (λ c. not (nat_eq c b'/')) extension then stem else path
    ] in
    map (map (λ c. if nat_eq c b'-' then b'_' else c)) (
      keep
        (λ part. not (
          is_empty part
          || part == chars "src"
          || part == chars "mod"
          || part == chars "lib"
          || part == chars "main"
          || part == chars "index"))
        (split_at (λ c. nat_eq c b'/') [] stem))

unfoldable pub crate_root_segments : Text → List Text
unfolding module_segments
crate_root_segments path = elim (rsplit_once (chars "src/") path) [
  | none ↦ []
  | some (head, tail) ↦
      if is_empty head || nat_eq (last_or 0 head) b'/'
      then module_segments (trim_end (λ c. nat_eq c b'/') head)
      else []
]

-- What stands behind the `>` that closes an opened `<`.
unfoldable pub closing_angle : ℕ → Text → Text
closing_angle depth [] = []
closing_angle depth (c ∷ text) =
    let opened = closing_angle (depth + 1) text in
    let closed = if nat_eq (depth - 1) 0 then text else closing_angle (depth - 1) text in
    let plain = closing_angle depth text in
    if nat_eq c b'<' then opened else if nat_eq c b'>' then closed else plain

-- With the numbers of brackets opened and closed, and what has been passed.
unfoldable pub split_top_level_for : ℕ → ℕ → Text → Text → Option (Text × Text)
split_top_level_for opened closed head [] = none
split_top_level_for opened closed head (c ∷ text) =
    let open_one = split_top_level_for (opened + 1) closed (head ++ c ∷ []) text in
    let close_one = split_top_level_for opened (closed + 1) (head ++ c ∷ []) text in
    let plain = split_top_level_for opened closed (head ++ c ∷ []) text in
    if nat_eq c b'<' || nat_eq c b'(' || nat_eq c b'['
    then open_one
    else if nat_eq c b'>' || nat_eq c b')' || nat_eq c b']'
    then close_one
    else if nat_eq opened closed && begins (c ∷ text) (chars " for ")
    then some (head, drop 5 (c ∷ text))
    else plain

unfoldable pub type_name : Unicode → Text → Option Text
type_name u text =
    let plain = trim u (before_first (chars "<") (before_first (chars " where") text)) in
    let bare =
      trim_start (λ c. nat_eq c b'!')
        (trim_start_word (chars "dyn ")
          (trim_start_word (chars "mut ") (trim_start (λ c. nat_eq c b'&') plain))) in
    let name = trim u (behind_last (chars "::") bare) in
    if not (is_empty name) && all (λ c. u.is_alphanumeric c || nat_eq c b'_') name
    then some name
    else none

unfoldable pub behind_generics : Unicode → Text → Text
unfolding closing_angle
behind_generics u rest = elim (strip (chars "<") rest) [
  | none ↦ rest
  | some generics ↦ trim_start u.is_whitespace (closing_angle 1 generics)
]

unfoldable pub impl_header : Unicode → Text → Option Text
unfolding behind_generics
impl_header u container =
    let safe : Text = elim (strip (chars "unsafe ") container) [
      | none ↦ container
      | some rest ↦ rest
    ] in
    elim (strip (chars "impl") safe) [
      | none ↦ none
      | some [] ↦ none
      | some (c ∷ text) ↦
          if nat_eq c b'<' || nat_eq c b' ' || nat_eq c b'\n' || nat_eq c 9
          then some (behind_generics u (trim_start u.is_whitespace (c ∷ text)))
          else none
    ]

abbrev pub scope_of : Option Text → List (List Text)
scope_of none = []
scope_of (some name) = (name ∷ []) ∷ []

abbrev pub or_unscoped : List (List Text) → List (List Text)
or_unscoped [] = [] ∷ []
or_unscoped (scope ∷ scopes) = scope ∷ scopes

unfoldable pub container_scopes : Unicode → Option Text → List (List Text)
unfolding impl_header split_top_level_for type_name split_colons split_at
container_scopes u none = [] ∷ []
container_scopes u (some text) =
    let container = trim u text in
    let nested =
      keep (λ part. not (is_empty part))
        (flatten (
          map (split_at (λ c. nat_eq c b'\\' || nat_eq c b'.' || nat_eq c b'/') [])
            (split_colons [] container)))
      ∷ [] in
    if is_empty container then [] ∷ [] else elim (impl_header u container) [
      | none ↦ nested
      | some header ↦ elim (split_top_level_for 0 0 [] header) [
        | none ↦ or_unscoped (scope_of (type_name u header))
        | some (trait_part, type_part) ↦
            or_unscoped (scope_of (type_name u type_part) ++ scope_of (type_name u trait_part))
      ]
    ]

-- `found` for one owner.
unfoldable pub found_in : List Text → List Text → Option QualifierMatch
unfolding ends_with is_subsequence
found_in qualifier owner =
    if ends_with owner qualifier
    then some suffix
    else if is_subsequence qualifier owner
    then some subsequence
    else none

-- `Some(old.min(new))`, `old.or(new)`
abbrev pub better : Option QualifierMatch → Option QualifierMatch → Option QualifierMatch
better none new = new
better (some old) none = some old
better (some suffix) (some new) = some suffix
better (some subsequence) (some new) = some new

unfoldable pub best_match :
    List Text → List Text → Option QualifierMatch → List (List Text) → Option QualifierMatch
unfolding found_in
best_match qualifier here best [] = best
best_match qualifier here best (scope ∷ scopes) =
    best_match qualifier here (better best (found_in qualifier (here ++ scope))) scopes

unfoldable pub matches : Unicode → QualifiedName → Text → Option Text → Option QualifierMatch
unfolding best_match module_segments container_scopes
matches u q path container =
    if is_empty q.qualifier
    then some suffix
    else best_match q.qualifier (module_segments path) none (container_scopes u container)

abbrev pub is_spelling : Unicode → Text → Bool
is_spelling u part =
    not (is_empty part)
    && all (λ c. u.is_alphanumeric c || nat_eq c b'_' || nat_eq c b':' || nat_eq c b'$') part

unfoldable pub import_spelling : Unicode → Text → Option (Text × Text)
unfolding split_at
import_spelling u source =
    let text = join (chars " ") (words u source) in
    let pair : Text × Text = elim (split_once (chars " as ") text) [
      | none ↦ (text, behind_last (chars "::") text)
      | some (path, alias) ↦ (trim u path, trim u alias)
    ] in
    if is_spelling u pair.0 && is_spelling u pair.1 then some pair else none
