-- ===== src/History/Declarations.antt =====
-- `correspond_declarations` of src/history/source_diff/correspondence.rs, over the definitions that
-- the extraction of src/extract.rs has found in two sources.
pub mod Incomplete
use trufflepig.Prelude.{
  ℕ, ◌&&◌, Option, none, some, List, map, if◌then◌else◌, leb, ◌==◌, ℕ_key, length,
}
use trufflepig.Prelude.Entries.{pair_key, list_key, option_key}
use trufflepig.Prelude.Texts.{Text, chars, is_empty}
use trufflepig.History.SourceDiff.{SourceDiff, line_offsets, range_of}
use trufflepig.History.Correspondence.{DeclarationCorrespondence, MatchFact, Visits, match_facts}

-- The fields of `Definition` that are read.
pub record Definition : Type 0 where
  pub name : Text
  pub kind : Text
  pub container : Option Text
  pub start : ℕ
  pub end : ℕ

pub record Extraction : Type 0 where
  pub definitions : List Definition
  pub status : Text

abbrev pub DeclarationKey : Type 0
DeclarationKey = Text × (Text × Option Text)

unfoldable pub key : Definition → DeclarationKey
key definition = (definition.name, (definition.kind, definition.container))

-- `source.get(start..end)`, unless it is empty.
unfoldable pub content : List ℕ → Definition → Option (List ℕ)
content source definition =
    if leb definition.start definition.end && leb definition.end (length source)
    then if is_empty (range_of source definition.start definition.end)
      then none
      else some (range_of source definition.start definition.end)
    else none

unfoldable pub facts_of : List ℕ → List Definition → List (MatchFact DeclarationKey (List ℕ))
unfolding key content
facts_of source definitions =
    map
      (λ definition. record {
        key = key definition;
        start = definition.start;
        content = content source definition;
      })
      definitions

unfoldable pub correspond_declarations :
    Visits DeclarationKey (List ℕ)
    → List ℕ
    → List ℕ
    → Extraction
    → Extraction
    → SourceDiff
    → List DeclarationCorrespondence
unfolding facts_of match_facts line_offsets
correspond_declarations visits before after before_extraction after_extraction diff =
    match_facts visits (facts_of before before_extraction.definitions)
      (facts_of after after_extraction.definitions) (line_offsets before) (line_offsets after)
      (before_extraction.status == chars "complete" && after_extraction.status == chars "complete")
      diff
