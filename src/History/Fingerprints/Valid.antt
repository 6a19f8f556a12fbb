-- ===== src/History/Fingerprints/Valid.antt =====
-- Line evidence that src/history/source_diff/fingerprints.rs makes passes its own validation.
use trufflepig.Prelude.{
  ℕ, suc, ◌+◌, ◌≤◌, ◌<◌, ◌≡◌, ◌≢◌, refl, ap, subst, ◌⊎◌, arith, true, false, List, [], ◌∷◌, ◌++◌,
  lt→ltb, nat_eq, nat_eq_iff, Bool-cases, inl, inr, length,
}
use trufflepig.History.SourceDiff.{newline_offsets, line_offsets, last_offset}
use trufflepig.History.Fingerprints.{
  ok, increasing, first_is_zero, hash_lines, fingerprint_lines, validate,
}

-- The numbers rise, from above `low` and up to `high` at most.
abbrev Climbs : ℕ → ℕ → List ℕ → Type 0
Climbs low high [] = low ≤ high
Climbs low high (x ∷ xs) = (low < x) × Climbs x high xs

Climbs-below : (k low high : ℕ) (xs : List ℕ) → k ≤ low → Climbs low high xs → Climbs k high xs
Climbs-below k low high [] h c = omega arith
Climbs-below k low high (x ∷ xs) h c = (omega arith, c.1)

newline_offsets-Climbs :
    (index : ℕ) (source : List ℕ)
    → Climbs index (index + length source) (newline_offsets index source)
unfolding newline_offsets
newline_offsets-Climbs index [] = omega arith
newline_offsets-Climbs index (byte ∷ source) =
    let rest =
      subst (λ high. Climbs (index + 1) high (newline_offsets (index + 1) source))
        {x = index + 1 + length source} {y = index + suc (length source)} (omega arith)
        (newline_offsets-Climbs (index + 1) source) in
    elim (Bool-cases (nat_eq byte b'\n')) [
      | inl newline ↦ rw newline (omega arith, rest)
      | inr other ↦ rw other (
          Climbs-below index (index + 1) (index + suc (length source))
            (newline_offsets (index + 1) source) (omega arith) rest)
    ]

Climbs-increasing : (low high : ℕ) (xs : List ℕ) → Climbs low high xs → increasing (low ∷ xs) ≡ true
Climbs-increasing low high [] c = refl
Climbs-increasing low high (x ∷ xs) c = rw (lt→ltb low x c.0) (Climbs-increasing x high xs c.1)

Climbs-append :
    (low high : ℕ) (xs : List ℕ)
    → Climbs low high xs
    → last_offset low xs ≢ high
    → Climbs low high (xs ++ high ∷ [])
Climbs-append low high [] c h = (omega (arith, h), omega arith)
Climbs-append low high (x ∷ xs) c h = (c.0, Climbs-append x high xs c.1 h)

last_offset-append : (d k : ℕ) (xs : List ℕ) → last_offset d (xs ++ k ∷ []) ≡ k
last_offset-append d k [] = refl
last_offset-append d k (x ∷ xs) = last_offset-append x k xs

-- What `validate` asks of the offsets of a text of so many bytes.
record Offsets (len : ℕ) (offsets : List ℕ) : Type 0 where
  some_offset : 0 < length offsets
  from_zero : first_is_zero offsets ≡ true
  rising : increasing offsets ≡ true
  ends : last_offset 0 offsets ≡ len

line_offsets-Offsets : (source : List ℕ) → Offsets (length source) (line_offsets source)
unfolding line_offsets
line_offsets-Offsets source = by_test (Bool-cases (nat_eq (last_offset 0 (0 ∷ xs)) len))
  where
    len : ℕ
    len = length source

    xs : List ℕ
    xs = newline_offsets 0 source

    climbs : Climbs 0 len xs
    climbs =
        subst (λ high. Climbs 0 high xs) {x = 0 + length source} {y = length source} (omega arith)
          (newline_offsets-Climbs 0 source)

    by_test :
        (nat_eq (last_offset 0 (0 ∷ xs)) len ≡ true) ⊎ (nat_eq (last_offset 0 (0 ∷ xs)) len ≡ false)
        → Offsets (length source) (line_offsets source)
    by_test (inl done) =
        rw (done, line_offsets)
          (record {
            some_offset = omega arith;
            from_zero = refl;
            rising = Climbs-increasing 0 len xs climbs;
            ends = (nat_eq_iff (last_offset 0 xs) len).0 done;
          })
    by_test (inr short) =
        rw (short, line_offsets)
          (record {
            some_offset = omega arith;
            from_zero = refl;
            rising =
                Climbs-increasing 0 len (xs ++ len ∷ [])
                  (Climbs-append 0 len xs climbs (ground arith));
            ends = last_offset-append 0 len xs;
          })

length-hash_lines :
    {R : Type 0} (hash : List ℕ → R) (source : List ℕ) (offsets : List ℕ)
    → 0 < length offsets
    → length offsets ≡ length (hash_lines hash source offsets) + 1
unfolding hash_lines
length-hash_lines hash source [] h = absurd (omega arith)
length-hash_lines hash source (x ∷ []) h = omega arith
length-hash_lines hash source (x ∷ y ∷ offsets) h =
    omega (arith, length-hash_lines hash source (y ∷ offsets))

-- Whatever the source, the empty one and one without a final newline included, its fingerprinted
-- lines pass `validate`, which returns the length of the source.
pub validate-fingerprint_lines :
    {R : Type 0} (hash : List ℕ → R) (source : List ℕ)
    → validate (fingerprint_lines hash source) ≡ ok (length source)
unfolding validate fingerprint_lines
validate-fingerprint_lines hash source =
    let o = line_offsets-Offsets source in
    let counted =
      (nat_eq_iff _ _).1 (length-hash_lines hash source (line_offsets source) o.some_offset) in
    rw (counted, o.from_zero, o.rising) (ap ok o.ends)
