-- ===== src/Identity/RoundTrip.antt =====
-- Git object identifiers of src/identity.rs, printed and parsed.
use trufflepig.Prelude.{
  ℕ, ◌-◌, ◌≡◌, refl, sym, ap, ◌∙◌, arith, Bool, true, false, subst, ◌&&◌, ◌||◌, some, List, [], ◌∷◌,
  ◌++◌, map, nat_eq, length, length-map, take, Bool-cases, inl, inr,
}
use trufflepig.Prelude.Texts.{all}
use trufflepig.Identity.{GitOid, is_ascii_hexdigit, to_ascii_lowercase, zeros, parse_oid, as_str}

take-append {ℓ} : {A : Type ℓ} (xs ys : List A) → take (length xs) (xs ++ ys) ≡ xs
take-append [] ys = refl
take-append (x ∷ xs) ys = ap (◌∷◌ x) (take-append xs ys)

lowercase_lem :
    (c : ℕ)
    → (to_ascii_lowercase (to_ascii_lowercase c) ≡ to_ascii_lowercase c)
      × (is_ascii_hexdigit c ≡ true → is_ascii_hexdigit (to_ascii_lowercase c) ≡ true)
unfolding to_ascii_lowercase is_ascii_hexdigit
lowercase_lem c = ground arith

lowercase_twice :
    (v : List ℕ) → map to_ascii_lowercase (map to_ascii_lowercase v) ≡ map to_ascii_lowercase v
lowercase_twice [] = refl
lowercase_twice (c ∷ v) = cc ((lowercase_lem c).0, lowercase_twice v)

all-lowercase :
    (v : List ℕ)
    → all is_ascii_hexdigit v ≡ true
    → all is_ascii_hexdigit (map to_ascii_lowercase v) ≡ true
all-lowercase [] h = refl
all-lowercase (c ∷ v) h = ground (arith, (lowercase_lem c).1, all-lowercase v)

abbrev is_full : List ℕ → Bool
is_full value =
    (nat_eq (length value) 40 || nat_eq (length value) 64) && all is_ascii_hexdigit value

abbrev made : List ℕ → GitOid
made value = record {
  hex = map to_ascii_lowercase value ++ zeros (64 - length value);
  len = length value;
}

parse_oid-made : (value : List ℕ) → is_full value ≡ true → parse_oid value ≡ some (made value)
unfolding parse_oid
parse_oid-made value good = rw good refl

as_str-made : (value : List ℕ) → as_str (made value) ≡ map to_ascii_lowercase value
unfolding as_str
as_str-made value =
    ap (λ n. take n (map to_ascii_lowercase value ++ zeros (64 - length value)))
      (sym (length-map to_ascii_lowercase value))
    ∙ take-append (map to_ascii_lowercase value) (zeros (64 - length value))

made-lowercase : (value : List ℕ) → made (map to_ascii_lowercase value) ≡ made value
made-lowercase value = rw (lowercase_twice value, length-map to_ascii_lowercase value) refl

is_full-lowercase :
    (value : List ℕ) → is_full value ≡ true → is_full (map to_ascii_lowercase value) ≡ true
is_full-lowercase value h =
    rw (length-map to_ascii_lowercase value) (ground (arith, all-lowercase value))

not_full : (value : List ℕ) (oid : GitOid) → is_full value ≡ false → parse_oid value ≡ some oid → ⊥
unfolding parse_oid
not_full value oid bad h = ground arith

-- What is parsed prints as the text in lower case, and that text parses to the same identifier.
pub parse_oid-as_str :
    (value : List ℕ) (oid : GitOid)
    → parse_oid value ≡ some oid
    → (as_str oid ≡ map to_ascii_lowercase value) × (parse_oid (as_str oid) ≡ some oid)
parse_oid-as_str value oid h = elim (Bool-cases (is_full value)) [
  | inr bad ↦ absurd (not_full value oid bad h)
  | inl good ↦
      let same : made value ≡ oid = cc (parse_oid-made value good) in
      subst (λ o. (as_str o ≡ map to_ascii_lowercase value) × (parse_oid (as_str o) ≡ some o)) same
        (
          as_str-made value,
          rw (as_str-made value) (
              parse_oid-made (map to_ascii_lowercase value) (is_full-lowercase value good)
              ∙ ap some (made-lowercase value)),
        )
]
