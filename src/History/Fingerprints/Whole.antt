-- ===== src/History/Fingerprints/Whole.antt =====
-- `correspond_fingerprints` of src/history/source_diff/fingerprints.rs on evidence made from sources.
use trufflepig.Prelude.{
  ℕ, ◌≤◌, ◌<◌, ◌≡◌, refl, ◌∙◌, ap, arith, Bool, some, List, [], ◌∷◌, ◌&&◌, map, Key, length,
  length-map, count_from,
}
use trufflepig.History.SourceDiff.{Hunk, diff_interned}
use trufflepig.History.Correspondence.{Visits, match_facts}
use trufflepig.History.Correspondence.Rows.{Rows, befores, afters, match_facts_lem}
use trufflepig.History.Fingerprints.{
  ok, FingerprintFact, to_fact, fingerprint_lines, validate_span, validate_facts, validate_lines,
  diff_fingerprints, diff_of, correspond_fingerprints,
}
use trufflepig.History.Fingerprints.Valid.{validate-fingerprint_lines}

-- Every span lies in a source of this length.
abbrev pub AllWithin : {R : Type 0} → ℕ → List (FingerprintFact R) → Type 0
AllWithin len [] = Unit
AllWithin len (fact ∷ facts) =
    (fact.span.start ≤ fact.span.end) × (fact.span.end ≤ len) × AllWithin len facts

validate_facts-ok :
    {R : Type 0} (facts : List (FingerprintFact R)) (len : ℕ)
    → AllWithin len facts
    → validate_facts facts len ≡ ok tt
unfolding validate_facts validate_span
validate_facts-ok [] len h = refl
validate_facts-ok (fact ∷ facts) len h = ground (arith, validate_facts-ok facts len h.2)

module _ {R : Type 0} ⦃e : Key R⦄ where
  -- Fingerprints taken from two sources, of declarations whose spans lie in them, are never refused,
  -- and the rows name each declaration of either side exactly once.
  pub correspond_fingerprints-ok :
      (visits : Visits R R) (hunks : List R → List R → List Hunk) (hash : List ℕ → R)
      (before_source after_source : List ℕ) (before after : List (FingerprintFact R))
      (before_complete after_complete : Bool)
      → AllWithin (length before_source) before
      → AllWithin (length after_source) after
      → (rows : Rows) × (correspond_fingerprints visits hunks before after before_complete
            after_complete
            (some (fingerprint_lines hash before_source))
            (some (fingerprint_lines hash after_source))
          ≡ ok rows)
        × (befores rows ≡ count_from 0 (length before))
        × ((a : ℕ) → a < length after → afters a rows ≡ 1)
  unfolding correspond_fingerprints diff_of diff_fingerprints validate_lines
  correspond_fingerprints-ok visits hunks hash old_source new_source before after bc ac h k =
      let old = fingerprint_lines hash old_source in
      let current = fingerprint_lines hash new_source in
      let diff =
        diff_interned (hunks old.fingerprints current.fingerprints) (length old.fingerprints)
          (length current.fingerprints) old.offsets current.offsets in
      let whole =
        match_facts_lem visits (map to_fact before) (map to_fact after) old.offsets current.offsets
          (bc && ac) diff in
      (
        match_facts visits (map to_fact before) (map to_fact after) old.offsets current.offsets
            (bc && ac) diff,
        rw
            (
              validate-fingerprint_lines hash old_source,
              validate-fingerprint_lines hash new_source,
              validate_facts-ok before (length old_source) h,
              validate_facts-ok after (length new_source) k,
            )
            refl,
        whole.0 ∙ ap (count_from 0) (length-map to_fact before),
        λ a l. whole.1 a (omega (arith, l, length-map to_fact after)),
      )
