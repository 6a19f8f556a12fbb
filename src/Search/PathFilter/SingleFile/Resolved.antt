-- ===== src/Search/PathFilter/SingleFile/Resolved.antt =====
-- Which file `resolve_single_file` of src/search/path_filter.rs returns.
use trufflepig.Prelude.{
  ◌≡◌, ◌∙◌, ◌↔◌, refl, ap, subst, arith, true, List, [], ◌∷◌, Bool-cases, Option-cases, some, inl,
  inr, ◌⊎◌, ◌==◌, ℕ_key, take,
}
use trufflepig.Prelude.Entries.{list_key}
use trufflepig.Prelude.Texts.{keep}
use trufflepig.Search.PathFilter.{Bytes, PathFilter, any, is_empty, bind, sql_clause}
use trufflepig.Search.PathFilter.Ranges.{AllPrintable}
use trufflepig.Search.PathFilter.SingleFile.{names_file, exact_path, lone, resolve_single_file}
use trufflepig.Search.PathFilter.SingleFile.Filtered.{
  NoneEmpty, passes, is_named_by, names_file-eq, sql_clause-bind, keep_same,
}

-- The path is the filter's only value, nothing is excluded, and it is indexed.
pub record IsExact (files : List Bytes) (f : PathFilter) (path : Bytes) : Type 0 where
  pub value : f.include ≡ path ∷ []
  pub nothing_excluded : f.exclude ≡ []
  pub indexed : any (λ file. file == path) files ≡ true

-- The filter's values are not the exact path of a file, the path is the only one that the filter lets
-- through, and a value names it as a file.
pub record IsLone (files : List Bytes) (f : PathFilter) (path : Bytes) : Type 0 where
  pub none_exact : (other : Bytes) → ¬ (IsExact files f other)
  pub only_match : keep (passes files f) files ≡ path ∷ []
  pub named : any (is_named_by path) f.include ≡ true

exact_path-IsExact :
    (files : List Bytes) (f : PathFilter) (path : Bytes)
    → exact_path files f ≡ some path
    → IsExact files f path
unfolding exact_path
exact_path-IsExact files f path h = by_values f.include f.exclude refl refl
  where
    by_values :
        (values excluded : List Bytes)
        → f.include ≡ values
        → f.exclude ≡ excluded
        → IsExact files f path
    by_values [] excluded e x = absurd (ground arith)
    by_values (value ∷ more ∷ values) excluded e x = absurd (ground arith)
    by_values (value ∷ []) (y ∷ ys) e x = absurd (ground arith)
    by_values (value ∷ []) [] e x = elim (Bool-cases (any (λ file. file == value) files)) [
      | inl indexed ↦
          let same : value ≡ path = ground arith in
          record {
            value = rw e (ap (λ v. v ∷ []) same);
            nothing_excluded = x;
            indexed = subst (λ v. any (λ file. file == v) files ≡ true) same indexed;
          }
      | inr absent ↦ absurd (ground arith)
    ]

IsExact-exact_path :
    (files : List Bytes) (f : PathFilter) (path : Bytes)
    → IsExact files f path
    → exact_path files f ≡ some path
unfolding exact_path
IsExact-exact_path files f path h = rw (h.value, h.nothing_excluded, h.indexed) refl

lone-eq :
    (values paths : List Bytes) (path : Bytes)
    → lone values (take 2 paths) ≡ some path
    → (paths ≡ path ∷ []) × (names_file path values ≡ true)
lone-eq values [] path h = absurd (ground arith)
lone-eq values (p ∷ q ∷ paths) path h = absurd (ground arith)
lone-eq values (p ∷ []) path h = elim (Bool-cases (names_file p values)) [
  | inl named ↦ let e : p ≡ path = ground arith in (ap (λ r. r ∷ []) e, rw e at named)
  | inr other ↦ absurd (ground arith)
]

module _ (files : List Bytes) (f : PathFilter) (included : NoneEmpty f.include)
    (excluded : NoneEmpty f.exclude) (printed : AllPrintable files) where
  kept : keep (sql_clause (bind files f)) files ≡ keep (passes files f) files
  kept =
      keep_same (sql_clause (bind files f)) (passes files f) files
        (λ path. sql_clause-bind files f path included excluded printed)

  returned :
      (path : Bytes)
      → resolve_single_file files f ≡ some path
      → IsExact files f path ⊎ IsLone files f path
  unfolding resolve_single_file
  returned path h = elim (Option-cases (exact_path files f)) [
    | inr (found, e) ↦ inl (exact_path-IsExact files f path (ground arith))
    | inl e ↦ elim (Bool-cases (is_empty f.include)) [
      | inl bare ↦ absurd (ground arith)
      | inr some_value ↦
          let (paths, named) =
            lone-eq f.include (keep (sql_clause (bind files f)) files) path (ground arith) in
          inr (record {
            none_exact = λ other x. cc (IsExact-exact_path files f other x);
            only_match = rw (← kept) paths;
            named = rw (← names_file-eq path f.include) named;
          })
    ]
  ]

  returns_lone : (path : Bytes) → IsLone files f path → resolve_single_file files f ≡ some path
  unfolding resolve_single_file
  returns_lone path h = elim (Option-cases (exact_path files f)) [
    | inr (found, e) ↦ absurd (h.none_exact found (exact_path-IsExact files f found e))
    | inl e ↦
        let only : keep (sql_clause (bind files f)) files ≡ path ∷ [] = kept ∙ h.only_match in
        let named : names_file path f.include ≡ true = names_file-eq path f.include ∙ h.named in
        elim (Bool-cases (is_empty f.include)) [
          | inl bare ↦ absurd (ground arith)
          | inr some_value ↦ rw (resolve_single_file, e, some_value, only, named) refl
        ]
  ]

-- Over an index of printable paths, for a filter with no empty value: `resolve_single_file` returns a
-- file exactly when it is the filter's only value, with nothing excluded, and indexed; or there is no
-- such file, it is the only indexed path that the filter lets through, and some value, at the first of
-- its components that starts with the value, is followed by nothing or by an extension. An include
-- value with which an indexed path goes on from the root lets through what starts with it, any other
-- what has it at the start of a component, and so do exclude values.
pub resolve_single_file_iff :
    (files : List Bytes) (f : PathFilter) (path : Bytes)
    → NoneEmpty f.include
    → NoneEmpty f.exclude
    → AllPrintable files
    → (resolve_single_file files f ≡ some path) ↔ (IsExact files f path ⊎ IsLone files f path)
unfolding resolve_single_file
resolve_single_file_iff files f path i x p = (
  returned files f i x p path,
  λ h. elim h [
    | inl exact ↦ rw (resolve_single_file, IsExact-exact_path files f path exact) refl
    | inr only ↦ returns_lone files f i x p path only
  ],
)
