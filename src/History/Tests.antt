-- ===== src/History/Tests.antt =====
-- Runs of the model of src/history/source_diff, and its theorems at concrete inputs.
use trufflepig.Prelude.{
  ◌-◌, none, length, ℕ, ◌≤◌, ◌<◌, ◌≡◌, refl, arith, true, some, List, [], ◌∷◌, map, count_from,
  ℕ_key,
}
use trufflepig.History.SourceDiff.{SourceDiff, Hunk, map_before_line, diff_interned, line_offsets}
use trufflepig.History.SourceDiff.Lines.{line_after, map_before_line-diff_interned}
use trufflepig.History.Correspondence.{
  MatchFact, Visits, unchanged, modified, moved, deleted, added, match_facts,
}
use trufflepig.Prelude.Texts.{Text, chars}
use trufflepig.History.Declarations.{Definition, Extraction, correspond_declarations}
use trufflepig.Prelude.{inr}
use trufflepig.History.Correspondence.Definite.{NoneDefinite}
use trufflepig.History.Declarations.Incomplete.{correspond_declarations-NoneDefinite}
use trufflepig.History.Fingerprints.{
  ok, FingerprintFact, fingerprint_lines, validate, correspond_fingerprints,
}
use trufflepig.History.Fingerprints.Valid.{validate-fingerprint_lines}
use trufflepig.History.Fingerprints.Whole.{correspond_fingerprints-ok}
use trufflepig.History.Correspondence.Rows.{Rows, befores, afters, candidate_links, match_facts_lem}

line_offsets_run : line_offsets (b'a' ∷ b'\n' ∷ b'\n' ∷ b'b' ∷ []) ≡ 0 ∷ 2 ∷ 3 ∷ 4 ∷ []
unfolding line_offsets
line_offsets_run = refl

line_offsets_empty : line_offsets [] ≡ 0 ∷ []
unfolding line_offsets
line_offsets_empty = refl

-- One line inserted in front of two, and the last of three replaced.
abbrev hunks : List Hunk
hunks =
    record { before = record { start = 0; end = 0 }; after = record { start = 0; end = 1 } }
    ∷ record { before = record { start = 2; end = 3 }; after = record { start = 3; end = 4 } }
    ∷ []

abbrev inserted : SourceDiff
inserted = diff_interned hunks 3 4 (0 ∷ 10 ∷ 20 ∷ 30 ∷ []) (0 ∷ 10 ∷ 20 ∷ 30 ∷ 40 ∷ [])

map_before_line-diff_interned_example : map_before_line inserted 1 ≡ line_after 3 0 0 hunks 1
map_before_line-diff_interned_example =
    map_before_line-diff_interned hunks 3 4 (0 ∷ 10 ∷ 20 ∷ 30 ∷ []) (0 ∷ 10 ∷ 20 ∷ 30 ∷ 40 ∷ []) 1
      (omega arith)

abbrev in_order : Visits ℕ ℕ
in_order = record { groups = λ m. m; contents = λ m. m }

abbrev fact : ℕ → ℕ → ℕ → MatchFact ℕ ℕ
fact key start content = record { key = key; start = start; content = some content }

abbrev old : List (MatchFact ℕ ℕ)
old = fact 7 0 1 ∷ fact 7 10 2 ∷ fact 8 20 5 ∷ fact 9 25 6 ∷ []

abbrev current : List (MatchFact ℕ ℕ)
current = fact 7 10 1 ∷ fact 7 20 3 ∷ fact 8 30 4 ∷ fact 5 35 6 ∷ []

abbrev compared : Rows
compared =
    match_facts in_order old current (0 ∷ 10 ∷ 20 ∷ 30 ∷ []) (0 ∷ 10 ∷ 20 ∷ 30 ∷ 40 ∷ []) true
      inserted

match_facts_runs :
    map (λ row. row.relation) compared ≡ unchanged ∷ modified ∷ modified ∷ deleted ∷ added ∷ []
unfolding match_facts diff_interned
match_facts_runs = refl

match_facts_lem_example :
    (befores compared ≡ count_from 0 4)
    × ((a : ℕ) → a < 4 → afters a compared ≡ 1)
    × (candidate_links compared ≤ 4096)
match_facts_lem_example =
    match_facts_lem in_order old current (0 ∷ 10 ∷ 20 ∷ 30 ∷ []) (0 ∷ 10 ∷ 20 ∷ 30 ∷ 40 ∷ []) true
      inserted

-- Two sources as fingerprints, hashed by their length.
abbrev before_source : List ℕ
before_source = b'a' ∷ b'\n' ∷ b'b' ∷ b'\n' ∷ []

abbrev after_source : List ℕ
after_source = b'b' ∷ b'\n' ∷ b'c' ∷ []

abbrev print_of : ℕ → ℕ → ℕ → FingerprintFact ℕ
print_of key start end = record {
  key = key;
  span = record { start = start; end = end };
  fingerprint = end - start;
}

validate-fingerprint_lines_example :
    validate (fingerprint_lines (λ line. length line) after_source) ≡ ok 3
validate-fingerprint_lines_example = validate-fingerprint_lines (λ line. length line) after_source

correspond_fingerprints-ok_example :
    (rows : Rows) × (correspond_fingerprints in_order
        (λ b a. [])
        (print_of 1 0 2 ∷ [])
        (print_of 1 0 2 ∷ print_of 2 2 3 ∷ [])
        true
        true
        (some (fingerprint_lines (λ line. length line) before_source))
        (some (fingerprint_lines (λ line. length line) after_source))
      ≡ ok rows)
    × (befores rows ≡ count_from 0 1)
    × ((a : ℕ) → a < 2 → afters a rows ≡ 1)
correspond_fingerprints-ok_example =
    correspond_fingerprints-ok in_order (λ b a. []) (λ line. length line) before_source after_source
      (print_of 1 0 2 ∷ []) (print_of 1 0 2 ∷ print_of 2 2 3 ∷ []) true true (omega arith)
      (omega arith)

abbrev extraction : Text → Definition → Extraction
extraction status definition = record { definitions = definition ∷ []; status = status }

abbrev definition_at : ℕ → ℕ → Definition
definition_at start end = record {
  name = chars "f";
  kind = chars "function";
  container = none;
  start = start;
  end = end;
}

abbrev declared : Text → Rows
declared status =
    correspond_declarations (record { groups = λ m. m; contents = λ m. m }) before_source
      after_source (extraction (chars "complete") (definition_at 2 4))
      (extraction status (definition_at 0 2)) (record { changes = []; unchanged_lines = [] })

-- `b` and its newline have moved to the front.
declared_runs : map (λ row. row.relation) (declared (chars "recovered")) ≡ moved ∷ []
unfolding correspond_declarations
declared_runs = refl

correspond_declarations-NoneDefinite_example : NoneDefinite (declared (chars "recovered"))
correspond_declarations-NoneDefinite_example =
    correspond_declarations-NoneDefinite (record { groups = λ m. m; contents = λ m. m })
      before_source after_source (extraction (chars "complete") (definition_at 2 4))
      (extraction (chars "recovered") (definition_at 0 2))
      (record { changes = []; unchanged_lines = [] }) (inr refl)
