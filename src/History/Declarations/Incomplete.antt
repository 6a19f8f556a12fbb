-- ===== src/History/Declarations/Incomplete.antt =====
-- Incomplete extractions in src/history/source_diff/correspondence.rs.
use trufflepig.Prelude.{ℕ, ◌≡◌, ◌⊎◌, inl, inr, Bool, false, ◌&&◌, List, ◌==◌, ℕ_key, arith}
use trufflepig.Prelude.Entries.{pair_key, list_key, option_key}
use trufflepig.Prelude.Texts.{chars}
use trufflepig.History.SourceDiff.{SourceDiff, line_offsets}
use trufflepig.History.Correspondence.{Visits}
use trufflepig.History.Correspondence.Definite.{NoneDefinite, match_facts-NoneDefinite}
use trufflepig.History.Declarations.{DeclarationKey, Extraction, facts_of, correspond_declarations}

either_false : (a b : Bool) → (a ≡ false) ⊎ (b ≡ false) → (a && b) ≡ false
either_false a b (inl e) = ground arith
either_false a b (inr e) = ground arith

-- Where the extraction of either revision is not complete, no row calls a declaration added or
-- deleted, whatever the sources, the diff and the order of the hash maps.
pub correspond_declarations-NoneDefinite :
    (visits : Visits DeclarationKey (List ℕ)) (before after : List ℕ)
    (before_extraction after_extraction : Extraction) (diff : SourceDiff)
    → ((before_extraction.status == chars "complete") ≡ false)
      ⊎ ((after_extraction.status == chars "complete") ≡ false)
    → NoneDefinite
        (correspond_declarations visits before after before_extraction after_extraction diff)
unfolding correspond_declarations
correspond_declarations-NoneDefinite visits before after bx ax diff h =
    rw (either_false (bx.status == chars "complete") (ax.status == chars "complete") h) (
      match_facts-NoneDefinite visits (facts_of before bx.definitions)
        (facts_of after ax.definitions) (line_offsets before) (line_offsets after) diff)
