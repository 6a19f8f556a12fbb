-- ===== src/Search/PathFilter/SingleFile/Filtered.antt =====
-- Which paths a filter of src/search/path_filter.rs lets through, and which it names, described by the
-- components of the paths.
use trufflepig.Prelude.{
  ◌≡◌, ◌≢◌, refl, ap, ◌∙◌, arith, Bool, true, false, not, ◌&&◌, ◌||◌, Option, none, some, List, [],
  ◌∷◌, map, Bool-cases, inl, inr, if◌then◌else◌, nat_eq,
}
use trufflepig.Prelude.Texts.{keep}
use trufflepig.Search.PathFilter.{
  Bytes, PathFilter, PathNeedle, strip_prefix, starts_with, any, is_empty, anchors_at_root,
  needle_sql, bind, sql_clause,
}
use trufflepig.Search.PathFilter.Ranges.{
  AllPrintable, continues, anchors_at_root_lem, needle_sql-eq,
}
use trufflepig.Search.PathFilter.Components.{after_slashes, component_starts, needle_matches_lem}
use trufflepig.Search.PathFilter.SingleFile.{behind_first, rest_behind, names_file}

abbrev pub NoneEmpty : List Bytes → Type 0
NoneEmpty [] = Unit
NoneEmpty (value ∷ values) = (value ≢ []) × NoneEmpty values

-- Some component of the path starts with the value.
abbrev pub in_component : Bytes → Bytes → Bool
in_component path value = any (λ start. starts_with start value) (component_starts path)

-- A value at which some indexed path goes on from the root picks from the root, any other one at every
-- component.
abbrev pub picks : List Bytes → Bytes → Bytes → Bool
picks files path value =
    if any (continues value) files then starts_with path value else in_component path value

-- Some include value, where there is one, picks the path, and no exclude value is in it.
abbrev pub passes : List Bytes → PathFilter → Bytes → Bool
passes files f path =
    (is_empty f.include || any (picks files path) f.include)
    && not (any (in_component path) f.exclude)

-- What stands behind the value at the first component that starts with it.
abbrev pub behind_component : Bytes → List Bytes → Option Bytes
behind_component value [] = none
behind_component value (start ∷ starts) = elim (strip_prefix value start) [
  | some rest ↦ some rest
  | none ↦ behind_component value starts
]

abbrev has_slash : Bytes → Bool
has_slash [] = false
has_slash (c ∷ rest) = nat_eq c b'/' || has_slash rest

-- Nothing, or an extension.
abbrev pub is_name_end : Bytes → Bool
is_name_end [] = true
is_name_end (c ∷ rest) = nat_eq c b'.' && not (has_slash rest)

-- At the first component that starts with the value, nothing or an extension follows it.
abbrev pub is_named_by : Bytes → Bytes → Bool
is_named_by path value = elim (behind_component value (component_starts path)) [
  | none ↦ false
  | some rest ↦ is_name_end rest
]

behind_first-slash :
    (value path : Bytes)
    → behind_first (b'/' ∷ value) path ≡ behind_component value (after_slashes path)
unfolding behind_first strip_prefix
behind_first-slash value [] = refl
behind_first-slash value (x ∷ path) = ground (arith, behind_first-slash value path)

rest_behind-component :
    (path value : Bytes) → rest_behind path value ≡ behind_component value (component_starts path)
unfolding rest_behind
rest_behind-component path value = ground (arith, behind_first-slash value path)

has_slash-any : (rest : Bytes) → any (λ c. nat_eq c b'/') rest ≡ has_slash rest
has_slash-any [] = refl
has_slash-any (c ∷ rest) = ap (λ b. nat_eq c b'/' || b) (has_slash-any rest)

name_end :
    (rest : Bytes)
    → ((is_empty rest || starts_with rest (b'.' ∷ [])) && not (any (λ c. nat_eq c b'/') rest))
      ≡ is_name_end rest
unfolding starts_with strip_prefix
name_end [] = refl
name_end (c ∷ rest) = ground (arith, has_slash-any rest)

named_behind :
    (o : Option Bytes)
    → elim o as (λ x. Bool) [
      | none ↦ false
      | some rest ↦
          (is_empty rest || starts_with rest (b'.' ∷ [])) && not (any (λ c. nat_eq c b'/') rest)
    ]
      ≡ elim o as (λ x. Bool) [ none ↦ false | some rest ↦ is_name_end rest ]
named_behind none = refl
named_behind (some rest) = name_end rest

pub names_file-eq :
    (path : Bytes) (values : List Bytes) → names_file path values ≡ any (is_named_by path) values
unfolding names_file
names_file-eq path [] = refl
names_file-eq path (value ∷ values) = rw (rest_behind-component path value) (
    ap (λ b. b || names_file path values)
      (named_behind (behind_component value (component_starts path)))
    ∙ ap (λ b. is_named_by path value || b) (names_file-eq path values))

included :
    (files : List Bytes) (path : Bytes) (values : List Bytes)
    → NoneEmpty values
    → AllPrintable files
    → any
        (λ needle. needle_sql needle path)
        (map (λ value. record { value = value; anchored = anchors_at_root files value }) values)
      ≡ any (picks files path) values
included files path [] h p = refl
included files path (value ∷ values) h p =
    let anchor = anchors_at_root_lem files value h.0 p in
    let matched =
      needle_sql-eq (record { value = value; anchored = anchors_at_root files value }) path h.0 in
    let rest = included files path values h.1 p in
    elim (Bool-cases (any (continues value) files)) [
      | inl root ↦ rw (matched, anchor, root, (needle_matches_lem value path).1, rest) refl
      | inr inner ↦ rw (matched, anchor, inner, (needle_matches_lem value path).0, rest) refl
    ]

excluded :
    (path : Bytes) (values : List Bytes)
    → NoneEmpty values
    → any
        (λ needle. needle_sql needle path)
        (map (λ value. record { value = value; anchored = false }) values)
      ≡ any (in_component path) values
excluded path [] h = refl
excluded path (value ∷ values) h =
    let matched = needle_sql-eq (record { value = value; anchored = false }) path h.0 in
    rw (matched, (needle_matches_lem value path).0, excluded path values h.1) refl

pub sql_clause-bind :
    (files : List Bytes) (f : PathFilter) (path : Bytes)
    → NoneEmpty f.include
    → NoneEmpty f.exclude
    → AllPrintable files
    → sql_clause (bind files f) path ≡ passes files f path
unfolding sql_clause bind
sql_clause-bind files f path i x p =
    rw (included files path f.include i p, excluded path f.exclude x) (by_values f.include)
  where
    by_values :
        (values : List Bytes)
        → ((if is_empty (
                map {B = PathNeedle}
                  (λ value. record { value = value; anchored = anchors_at_root files value })
                  values)
              then true
              else any (picks files path) values)
            && not (any (in_component path) f.exclude))
          ≡ ((is_empty values || any (picks files path) values)
              && not (any (in_component path) f.exclude))
    by_values [] = refl
    by_values (value ∷ values) = refl

pub keep_same :
    (p q : Bytes → Bool) (xs : List Bytes) → ((x : Bytes) → p x ≡ q x) → keep p xs ≡ keep q xs
keep_same p q [] h = refl
keep_same p q (x ∷ xs) h = rw (h x, keep_same p q xs h) refl
