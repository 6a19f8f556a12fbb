-- ===== src/Search/NameTests.antt =====
-- Runs of the model of src/search/qualified_name.rs, and its theorems at concrete inputs.
use trufflepig.Prelude.{◌≡◌, refl, inl, inr, arith, ◌++◌, none, some, List, [], ◌∷◌, ℕ_key}
use trufflepig.Prelude.Texts.{Text, ascii, chars}
use trufflepig.Search.QualifiedName.{
  QualifiedName, suffix, subsequence, parse, parse_in, matches, module_segments,
  crate_root_segments, container_scopes, import_spelling,
}
use trufflepig.Search.QualifiedName.Matches.{Verdict, AnyOwner, Trails, Embeds, matches_lem}
use trufflepig.Search.QualifiedName.Split.{written}
use trufflepig.Search.QualifiedName.Parse.{
  from_self, spelled, start_module, plain, special, nothing, parse_in_lem,
}

abbrev store_open : QualifiedName
store_open = record { qualifier = chars "Store" ∷ []; name = chars "open" }

abbrev harvest : QualifiedName
harvest = record { qualifier = chars "harvest" ∷ []; name = chars "record" }

parse_runs : parse ascii (chars "crate::Store::open") ≡ store_open
unfolding parse
parse_runs = refl

matches_impl :
    matches ascii store_open
      (chars "src/a.rs")
      (some (chars "impl<'a, T: Into<u8>> fmt::Display for Store<'a, T> where T: Copy"))
    ≡ some suffix
unfolding matches
matches_impl = refl

matches_other : matches ascii store_open (chars "src/a.rs") (some (chars "impl Other")) ≡ none
unfolding matches
matches_other = refl

matches_module :
    matches ascii harvest (chars "src/harvest/mod.rs") (some (chars "impl Ledger"))
    ≡ some subsequence
unfolding matches
matches_module = refl

abbrev move_path : Text
move_path = chars "crates/core/src/sim/move.rs"

abbrev sim_move : List Text
sim_move = chars "crates" ∷ chars "core" ∷ chars "sim" ∷ chars "move" ∷ []

module_segments_run : module_segments move_path ≡ sim_move
unfolding module_segments
module_segments_run = refl

crate_root_segments_run : crate_root_segments move_path ≡ chars "crates" ∷ chars "core" ∷ []
unfolding crate_root_segments
crate_root_segments_run = refl

crate_root_segments_none : crate_root_segments (chars "resrc/x.rs") ≡ []
unfolding crate_root_segments
crate_root_segments_none = refl

parse_in_super :
    (parse_in ascii (chars "super::super::Ledger") sim_move []).qualifier
    ≡ chars "crates" ∷ chars "core" ∷ []
unfolding parse_in
parse_in_super = refl

import_spelling_run : import_spelling ascii (chars "a::b  as c") ≡ some (chars "a::b", chars "c")
unfolding import_spelling
import_spelling_run = refl

matches_lem_example :
    Verdict
      (AnyOwner
        (Trails (chars "harvest" ∷ []))
        (module_segments (chars "src/harvest/mod.rs"))
        (container_scopes ascii (some (chars "impl Ledger"))))
      (AnyOwner
        (Embeds (chars "harvest" ∷ []))
        (module_segments (chars "src/harvest/mod.rs"))
        (container_scopes ascii (some (chars "impl Ledger"))))
      (matches ascii harvest (chars "src/harvest/mod.rs") (some (chars "impl Ledger")))
matches_lem_example =
    matches_lem ascii harvest (chars "src/harvest/mod.rs") (some (chars "impl Ledger")) refl

-- `self::super::super::ledger::self::Store::open`
parse_in_lem_example :
    parse_in ascii
      (written (
        (spelled (from_self 2) ++ chars "ledger" ∷ chars "self" ∷ chars "Store" ∷ [])
        ++ chars "open" ∷ []))
      sim_move
      []
    ≡ record {
      qualifier = start_module sim_move [] (from_self 2) ++ chars "ledger" ∷ chars "Store" ∷ [];
      name = chars "open";
    }
parse_in_lem_example =
    parse_in_lem ascii sim_move [] (from_self 2) (chars "open") (λ e. ground arith)
      (plain (λ e. ground arith, λ e. ground arith, λ e. ground arith)
        (special (inr (inl refl))
          (plain (λ e. ground arith, λ e. ground arith, λ e. ground arith) nothing)))
      (ground arith)

start_module_run : start_module sim_move [] (from_self 2) ≡ chars "crates" ∷ chars "core" ∷ []
start_module_run = refl
