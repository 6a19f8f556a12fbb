-- ===== src/Search/Tests.antt =====
-- Runs of the models of src/search, and its theorems at concrete inputs.
use Prim.Native.String.{String}
use Prim.Native.Char.{code}
use trufflepig.Prelude.{◌≡◌, ◌≢◌, refl, arith, true, false, some, [], ◌∷◌}
use trufflepig.Prelude.{none, ◌⊎◌, ◌↔◌, List}
use trufflepig.Search.PathFilter.SingleFile.{resolve_single_file}
use trufflepig.Search.PathFilter.SingleFile.Resolved.{IsExact, IsLone, resolve_single_file_iff}
use trufflepig.Search.PathFilter.{
  Bytes, PathFilter, bind, starts_with, any, PathNeedle, BoundPathFilter, needle_matches,
  filter_matches, sql_clause, anchors_at_root, encoded_value,
}
use trufflepig.Search.PathFilter.Ranges.{
  continues, anchors_at_root_lem, sql_clause-eq-filter_matches,
}
use trufflepig.Search.PathFilter.Components.{component_starts, needle_matches_lem}
use trufflepig.Search.PathFilter.Encoding.{AllSafe, encoded_value_lem}

abbrev codes : String → Bytes
codes String.[] = []
codes (String.◌∷◌ c s) = code c ∷ codes s

abbrev script_host : PathNeedle
script_host = record { value = codes "script/host"; anchored = false }

abbrev sources : BoundPathFilter
sources = record { include = script_host ∷ []; exclude = [] }

filter_runs : filter_matches sources (codes "crates/a/src/script/host.rs") ≡ true
unfolding filter_matches
filter_runs = refl

encoding_runs : encoded_value (codes "././a b%2f:") ≡ some (codes "a%20b%2F%3A")
unfolding encoded_value
encoding_runs = refl

sql_clause-eq-filter_matches_example :
    sql_clause sources (codes "src/script/host.rs")
    ≡ filter_matches sources (codes "src/script/host.rs")
sql_clause-eq-filter_matches_example =
    sql_clause-eq-filter_matches sources (codes "src/script/host.rs") ((λ e. ground arith), tt) tt

anchors_at_root_lem_example :
    anchors_at_root (codes "src/a.rs" ∷ []) (codes "src")
    ≡ any (continues (codes "src")) (codes "src/a.rs" ∷ [])
anchors_at_root_lem_example =
    anchors_at_root_lem (codes "src/a.rs" ∷ []) (codes "src") (λ e. ground arith) (omega arith)

needle_matches_lem_example :
    (needle_matches script_host (codes "src/script/host.rs")
      ≡ any
          (λ rest. starts_with rest (codes "script/host"))
          (component_starts (codes "src/script/host.rs")))
    × (needle_matches
          (record { value = codes "script/host"; anchored = true })
          (codes "src/script/host.rs")
        ≡ starts_with (codes "src/script/host.rs") (codes "script/host"))
needle_matches_lem_example = needle_matches_lem (codes "script/host") (codes "src/script/host.rs")

encoded_value_lem_example :
    AllSafe (codes "a%20b")
    × (codes "a%20b" ≢ [])
    × (encoded_value (codes "a%20b") ≡ some (codes "a%20b"))
unfolding encoded_value
encoded_value_lem_example = encoded_value_lem (codes "./a b") (codes "a%20b") (omega arith) refl

-- One of two files starts with the value.
abbrev two_files : List Bytes
two_files = codes "src/host.rs" ∷ codes "src/main.rs" ∷ []

abbrev host_filter : PathFilter
host_filter = record { include = codes "src/host" ∷ []; exclude = [] }

resolve_runs : resolve_single_file two_files host_filter ≡ some (codes "src/host.rs")
unfolding resolve_single_file
resolve_runs = refl

resolve_none :
    resolve_single_file two_files (record { include = codes "src/" ∷ []; exclude = [] }) ≡ none
unfolding resolve_single_file
resolve_none = refl

resolve_single_file_iff_example :
    (resolve_single_file two_files host_filter ≡ some (codes "src/host.rs")) ↔ (
      IsExact two_files host_filter (codes "src/host.rs")
      ⊎ IsLone two_files host_filter (codes "src/host.rs"))
resolve_single_file_iff_example =
    resolve_single_file_iff two_files host_filter (codes "src/host.rs") (ground arith) tt
      (omega arith)

-- The value is the exact path of one file, and another file starts with it.
abbrev two_starting : List Bytes
two_starting = codes "a" ∷ codes "a.rs" ∷ []

abbrev exact_filter : PathFilter
exact_filter = record { include = codes "a" ∷ []; exclude = [] }

resolve_exact : resolve_single_file two_starting exact_filter ≡ some (codes "a")
unfolding resolve_single_file
resolve_exact = refl

both_pass :
    (filter_matches (bind two_starting exact_filter) (codes "a") ≡ true)
    × (filter_matches (bind two_starting exact_filter) (codes "a.rs") ≡ true)
unfolding bind filter_matches
both_pass = (refl, refl)
