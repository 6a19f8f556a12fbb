-- ===== src/Search/PathFilter/Components.antt =====
-- What an include value of src/search/path_filter.rs that is not anchored, and every exclude value,
-- matches.
use trufflepig.Prelude.{◌≡◌, refl, arith, true, false, List, [], ◌∷◌, if◌then◌else◌, nat_eq}
use trufflepig.Search.PathFilter.{
  Bytes, strip_prefix, starts_with, has_substring, any, needle_matches,
}

-- What follows each slash of a path.
abbrev pub after_slashes : Bytes → List Bytes
after_slashes [] = []
after_slashes (x ∷ path) = if nat_eq x b'/' then path ∷ after_slashes path else after_slashes path

-- A path from each of its components on.
abbrev pub component_starts : Bytes → List Bytes
component_starts path = path ∷ after_slashes path

has_substring-slash :
    (path value : Bytes)
    → has_substring path (b'/' ∷ value) ≡ any (λ rest. starts_with rest value) (after_slashes path)
unfolding has_substring starts_with strip_prefix
has_substring-slash [] value = refl
has_substring-slash (x ∷ path) value = ground (arith, has_substring-slash path value)

-- A needle that is not anchored matches a path exactly when some component on the path starts with
-- it; an anchored one, when the path itself does.
pub needle_matches_lem :
    (value path : Bytes)
    → (needle_matches (record { value = value; anchored = false }) path
        ≡ any (λ rest. starts_with rest value) (component_starts path))
      × (needle_matches (record { value = value; anchored = true }) path ≡ starts_with path value)
unfolding needle_matches
needle_matches_lem value path = (ground (arith, has_substring-slash path value), ground arith)
