-- ===== src/History/Fingerprints.antt =====
-- src/history/source_diff/fingerprints.rs: comparisons that keep line and declaration fingerprints in
-- place of source text. The hash and the hunks of the imara-diff library are parameters.
pub mod Valid
pub mod Whole
use trufflepig.Prelude.{
  ℕ, zero, suc, ◌+◌, ◌-◌, Bool, true, false, ◌&&◌, Option, none, some, List, [], ◌∷◌, map,
  if◌then◌else◌, ltb, leb, nat_eq, Key, length, take, drop, max_usize,
}
use trufflepig.History.SourceDiff.{
  ByteSpan, SourceDiff, Hunk, diff_interned, line_offsets, last_offset, range_of,
}
use trufflepig.History.Correspondence.{DeclarationCorrespondence, MatchFact, Visits, match_facts}

pub data FingerprintError : Type 0 where
  invalid_coordinates invalid_span : FingerprintError

pub data Outcome {ℓ} (A : Type ℓ) : Type ℓ where
  ok : A → Outcome A
  err : FingerprintError → Outcome A

infixl 5 ◌>>=◌ ◌>>◌
abbrev pub ◌>>=◌ {ℓ κ} : {A : Type ℓ} {B : Type κ} → Outcome A → (A → Outcome B) → Outcome B
ok a >>= f = f a
err e >>= f = err e

abbrev pub ◌>>◌ {ℓ κ} : {A : Type ℓ} {B : Type κ} → Outcome A → Outcome B → Outcome B
m >> k = m >>= λ _. k

pub record FingerprintLines (R : Type 0) : Type 0 where
  pub offsets : List ℕ
  pub fingerprints : List R

pub record FingerprintFact (R : Type 0) : Type 0 where
  pub key : R
  pub span : ByteSpan
  pub fingerprint : R

-- `ByteSpan::new` and `ByteSpan::validate` of src/identity.rs.
unfoldable pub new_span : ℕ → ℕ → Outcome ByteSpan
new_span start end =
    if ltb end start then err invalid_span else ok (record { start = start; end = end })

unfoldable pub validate_span : ByteSpan → ℕ → Outcome ByteSpan
validate_span span len =
    if ltb span.end span.start
    then err invalid_span
    else if ltb len span.end
    then err invalid_span
    else ok span

-- `windows(2).all(|pair| pair[0] < pair[1])`
abbrev pub increasing : List ℕ → Bool
increasing [] = true
increasing (x ∷ []) = true
increasing (x ∷ y ∷ xs) = ltb x y && increasing (y ∷ xs)

abbrev pub first_is_zero : List ℕ → Bool
first_is_zero [] = false
first_is_zero (x ∷ xs) = nat_eq x 0

-- The content of a fact: none for an empty span.
abbrev pub to_fact : {R : Type 0} → FingerprintFact R → MatchFact R R
to_fact fact = record {
  key = fact.key;
  start = fact.span.start;
  content = if ltb fact.span.start fact.span.end then some fact.fingerprint else none;
}

-- `windows(2)` with the hash of each line.
unfoldable pub hash_lines : {R : Type 0} → (List ℕ → R) → List ℕ → List ℕ → List R
hash_lines hash source [] = []
hash_lines hash source (start ∷ []) = []
hash_lines hash source (start ∷ end ∷ offsets) =
    hash (range_of source start end) ∷ hash_lines hash source (end ∷ offsets)

unfoldable pub fingerprint_lines : {R : Type 0} → (List ℕ → R) → List ℕ → FingerprintLines R
unfolding hash_lines line_offsets
fingerprint_lines hash source = record {
  offsets = line_offsets source;
  fingerprints = hash_lines hash source (line_offsets source);
}

abbrev pub length_or_max : Option ℕ → ℕ
length_or_max none = max_usize
length_or_max (some len) = len

module _ {R : Type 0} where
  unfoldable pub validate : FingerprintLines R → Outcome ℕ
  validate lines =
      if nat_eq (length lines.offsets) (length lines.fingerprints + 1)
        && first_is_zero lines.offsets
        && increasing lines.offsets
      then ok (last_offset 0 lines.offsets)
      else err invalid_coordinates

  -- `Diff::compute` and its post-processing, over the fingerprints of both sides.
  unfoldable pub diff_fingerprints :
      (List R → List R → List Hunk) → FingerprintLines R → FingerprintLines R → Outcome SourceDiff
  unfolding validate diff_interned
  diff_fingerprints hunks before after = do
    validate before
    validate after
    ok (
        diff_interned (hunks before.fingerprints after.fingerprints) (length before.fingerprints)
          (length after.fingerprints) before.offsets after.offsets)

  -- `map(validate).transpose()`
  unfoldable pub validate_lines : Option (FingerprintLines R) → Outcome (Option ℕ)
  unfolding validate
  validate_lines none = ok none
  validate_lines (some lines) = validate lines >>= λ len. ok (some len)

  -- `convert`
  unfoldable pub validate_facts : List (FingerprintFact R) → ℕ → Outcome (Unit {0})
  unfolding validate_span
  validate_facts [] len = ok tt
  validate_facts (fact ∷ facts) len =
      validate_span fact.span len >>= λ span. validate_facts facts len

  abbrev pub offsets_or_zero : Option (FingerprintLines R) → List ℕ
  offsets_or_zero none = 0 ∷ []
  offsets_or_zero (some lines) = lines.offsets

  unfoldable pub diff_of :
      (List R → List R → List Hunk)
      → Option (FingerprintLines R)
      → Option (FingerprintLines R)
      → Outcome SourceDiff
  unfolding diff_fingerprints
  diff_of hunks none after = ok (record { changes = []; unchanged_lines = [] })
  diff_of hunks (some before) none = ok (record { changes = []; unchanged_lines = [] })
  diff_of hunks (some before) (some after) = diff_fingerprints hunks before after

module _ {R : Type 0} ⦃e : Key R⦄ where
  unfoldable pub correspond_fingerprints :
      Visits R R
      → (List R → List R → List Hunk)
      → List (FingerprintFact R)
      → List (FingerprintFact R)
      → Bool
      → Bool
      → Option (FingerprintLines R)
      → Option (FingerprintLines R)
      → Outcome (List DeclarationCorrespondence)
  unfolding diff_of validate_lines validate_facts match_facts
  correspond_fingerprints visits hunks before after before_complete after_complete before_lines
        after_lines =
      do
        diff ← diff_of hunks before_lines after_lines
        before_length ← validate_lines before_lines
        after_length ← validate_lines after_lines
        validate_facts before (length_or_max before_length)
        validate_facts after (length_or_max after_length)
        ok (
            match_facts visits (map to_fact before) (map to_fact after)
              (offsets_or_zero before_lines) (offsets_or_zero after_lines)
              (before_complete && after_complete) diff)
