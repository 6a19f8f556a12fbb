-- ===== src/Search/PathFilter/Ranges.antt =====
-- The index ranges of src/search/path_filter.rs against prefixes.
use mathlib.Core.Option.{some-injective}
use trufflepig.Prelude.{
  ℕ, ◌+◌, ◌≤◌, ◌≡◌, ◌≢◌, refl, arith, Bool, true, false, ◌||◌, none, some, List, [], ◌∷◌, ◌++◌,
  nat_eq, Bool-cases, inl, inr, subst, Option-cases, append-nil,
}
use trufflepig.Search.PathFilter.{
  Bytes, strip_prefix, starts_with, below, in_range, upper_bound, any, ends_with_slash,
  anchors_at_root, PathNeedle, needle_matches, needle_sql, BoundPathFilter, filter_matches,
  sql_clause,
}

-- A range between two continuations of a text holds that text's continuations between the two.
in_range-append :
    (value low high path : Bytes)
    → in_range (value ++ low) (value ++ high) path
      ≡ elim (strip_prefix value path) [ none ↦ false | some rest ↦ in_range low high rest ]
unfolding in_range below strip_prefix
in_range-append [] low high path = refl
in_range-append (c ∷ value) low high [] = refl
in_range-append (c ∷ value) low high (x ∷ path) =
    ground (arith, in_range-append value low high path)

in_range-byte :
    (c : ℕ) (rest : Bytes) → in_range (c ∷ []) ((c + 1) ∷ []) rest ≡ starts_with rest (c ∷ [])
unfolding in_range below starts_with
in_range-byte c [] = refl
in_range-byte c (x ∷ []) = ground arith
in_range-byte c (x ∷ y ∷ rest) = ground arith

-- The range from a text up to its upper bound holds exactly what starts with that text.
pub in_range-upper_bound :
    (value path : Bytes)
    → value ≢ []
    → in_range value (upper_bound value) path ≡ starts_with path value
unfolding upper_bound in_range below starts_with
in_range-upper_bound [] path h = absurd (h refl)
in_range-upper_bound (c ∷ []) path h = in_range-byte c path
in_range-upper_bound (c ∷ d ∷ value) [] h = ground arith
in_range-upper_bound (c ∷ d ∷ value) (x ∷ path) h =
    ground (arith, in_range-upper_bound (d ∷ value) path)

abbrev pub Printable : Bytes → Type 0
Printable [] = Unit
Printable (x ∷ path) = (0x21 ≤ x) × (x ≤ 0x7e) × Printable path

strip_prefix-Printable :
    (value path rest : Bytes)
    → Printable path
    → strip_prefix value path ≡ some rest
    → Printable rest
unfolding strip_prefix
strip_prefix-Printable [] path rest p h = subst Printable (some-injective path rest h) p
strip_prefix-Printable (c ∷ value) [] rest p h = absurd (ground arith)
strip_prefix-Printable (c ∷ value) (x ∷ path) rest p h =
    strip_prefix-Printable value path rest p.2 (ground arith)

-- A path goes on from a value at its end or where a component or a stem ends.
abbrev pub at_boundary : Bytes → Bool
at_boundary [] = true
at_boundary (x ∷ rest) = nat_eq x b'.' || nat_eq x b'/'

abbrev pub continues : Bytes → Bytes → Bool
continues value path = elim (strip_prefix value path) [
  | none ↦ false
  | some rest ↦ ends_with_slash value || at_boundary rest
]

any-or :
    {A : Type 0} (p q : A → Bool) (xs : List A) → (any p xs || any q xs) ≡ any (λ x. p x || q x) xs
any-or p q [] = refl
any-or p q (x ∷ xs) = ground (arith, any-or p q xs)

abbrev pub AllPrintable : List Bytes → Type 0
AllPrintable [] = Unit
AllPrintable (path ∷ files) = Printable path × AllPrintable files

-- `.` and `/` are the two bytes from `.` up to `0`, and no byte of a path is below 1.
boundary_rest :
    (rest : Bytes)
    → Printable rest
    → (in_range (b'.' ∷ []) (b'0' ∷ []) rest || in_range [] (1 ∷ []) rest) ≡ at_boundary rest
unfolding in_range below
boundary_rest [] p = refl
boundary_rest (x ∷ []) p = ground arith
boundary_rest (x ∷ y ∷ rest) p = ground arith

boundary_ranges :
    (value path : Bytes)
    → Printable path
    → ends_with_slash value ≡ false
    → (in_range (value ++ (b'.' ∷ [])) (value ++ (b'0' ∷ [])) path
        || in_range value (value ++ (1 ∷ [])) path)
      ≡ continues value path
boundary_ranges value path p e = elim (Option-cases (strip_prefix value path)) [
  | inl absent ↦ ground (
    arith,
    in_range-append value (b'.' ∷ []) (b'0' ∷ []) path,
    in_range-append value [] (1 ∷ []) path,
    append-nil value,
  )
  | inr (rest, found) ↦ ground (
    arith,
    in_range-append value (b'.' ∷ []) (b'0' ∷ []) path,
    in_range-append value [] (1 ∷ []) path,
    append-nil value,
    boundary_rest rest (strip_prefix-Printable value path rest p found),
  )
]

any-slash :
    (value : Bytes) (files : List Bytes)
    → value ≢ []
    → ends_with_slash value ≡ true
    → any (in_range value (upper_bound value)) files ≡ any (continues value) files
unfolding starts_with
any-slash value [] h e = refl
any-slash value (path ∷ files) h e =
    ground (arith, any-slash value files h e, in_range-upper_bound value path h)

any-boundary :
    (value : Bytes) (files : List Bytes)
    → AllPrintable files
    → ends_with_slash value ≡ false
    → (any (in_range (value ++ (b'.' ∷ [])) (value ++ (b'0' ∷ []))) files
        || any (in_range value (value ++ (1 ∷ []))) files)
      ≡ any (continues value) files
any-boundary value [] p e = refl
any-boundary value (path ∷ files) p e =
    ground (arith, any-boundary value files p.1 e, boundary_ranges value path p.0 e)

-- Over an index of printable paths, a value is anchored exactly when some indexed path starts with
-- it and goes on at the value's end, at `.` or at `/`, or anyhow if the value ends in a slash.
pub anchors_at_root_lem :
    (files : List Bytes) (value : Bytes)
    → value ≢ []
    → AllPrintable files
    → anchors_at_root files value ≡ any (continues value) files
unfolding anchors_at_root
anchors_at_root_lem files value h p = elim (Bool-cases (ends_with_slash value)) [
  | inl slash ↦ rw (slash, anchors_at_root) (any-slash value files h slash)
  | inr plain ↦ rw (plain, anchors_at_root) (any-boundary value files p plain)
]

pub needle_sql-eq :
    (needle : PathNeedle) (path : Bytes)
    → needle.value ≢ []
    → needle_sql needle path ≡ needle_matches needle path
unfolding needle_sql needle_matches
needle_sql-eq needle path h = ground (arith, in_range-upper_bound needle.value path h)

abbrev pub AllNonempty : List PathNeedle → Type 0
AllNonempty [] = Unit
AllNonempty (needle ∷ needles) = (needle.value ≢ []) × AllNonempty needles

any-needle :
    (needles : List PathNeedle) (path : Bytes)
    → AllNonempty needles
    → any (λ needle. needle_sql needle path) needles
      ≡ any (λ needle. needle_matches needle path) needles
any-needle [] path h = refl
any-needle (needle ∷ needles) path h =
    ground (arith, any-needle needles path h.1, needle_sql-eq needle path h.0)

-- The predicate that a filter sends to the index and the matcher that live walks use agree on every
-- path, for a filter with no empty value.
pub sql_clause-eq-filter_matches :
    (f : BoundPathFilter) (path : Bytes)
    → AllNonempty f.include
    → AllNonempty f.exclude
    → sql_clause f path ≡ filter_matches f path
unfolding sql_clause filter_matches
sql_clause-eq-filter_matches f path i x =
    ground (arith, any-needle f.include path i, any-needle f.exclude path x)
