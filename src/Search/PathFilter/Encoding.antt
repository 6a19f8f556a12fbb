-- ===== src/Search/PathFilter/Encoding.antt =====
-- The encoding of filter values in src/search/path_filter.rs.
use trufflepig.Prelude.{
  ℕ, ◌/◌, ◌%◌, ◌≤◌, ◌<◌, ◌≡◌, ◌≢◌, ◌⊎◌, refl, sym, ◌∙◌, ap, subst, arith, Bool, true, false, not,
  ◌&&◌, ◌||◌, some, [], ◌∷◌, leb, nat_eq, Bool-cases, inl, inr,
}
use trufflepig.Search.PathFilter.{
  Bytes, is_hex, to_ascii_uppercase, hex_digit, percent, encode_byte, is_escape, encode_bytes,
  strip_dots, encoded_value,
}

abbrev pub AllBytes : Bytes → Type 0
AllBytes [] = Unit
AllBytes (x ∷ xs) = (x < 256) × AllBytes xs

-- Printable ASCII but for `:` and `@`.
abbrev pub AllSafe : Bytes → Type 0
AllSafe [] = Unit
AllSafe (x ∷ xs) = (0x21 ≤ x) × (x ≤ 0x7e) × (x ≢ b':') × (x ≢ b'@') × AllSafe xs

hex_digit_safe :
    (n : ℕ)
    → n < 16
    → (0x21 ≤ hex_digit n) × (hex_digit n ≤ 0x7e) × (hex_digit n ≢ b':') × (hex_digit n ≢ b'@')
unfolding hex_digit
hex_digit_safe n h = ground arith

encode_byte-AllSafe : (b : ℕ) (rest : Bytes) → b < 256 → AllSafe rest → AllSafe (encode_byte b rest)
unfolding encode_byte
encode_byte-AllSafe b rest h s = ground (arith, hex_digit_safe (b / 16), hex_digit_safe (b % 16))

uppercase_safe :
    (c : ℕ)
    → is_hex c ≡ true
    → (0x21 ≤ to_ascii_uppercase c)
      × (to_ascii_uppercase c ≤ 0x7e)
      × (to_ascii_uppercase c ≢ b':')
      × (to_ascii_uppercase c ≢ b'@')
unfolding is_hex to_ascii_uppercase
uppercase_safe c h = ground arith

-- What is encoded is printable and cannot be read as a separator of a locator.
encode_bytes-AllSafe : (value : Bytes) → AllBytes value → AllSafe (encode_bytes value)
unfolding encode_bytes is_escape
encode_bytes-AllSafe [] h = tt
encode_bytes-AllSafe (b ∷ []) h = encode_byte-AllSafe b [] h.0 tt
encode_bytes-AllSafe (b ∷ x ∷ []) h =
    encode_byte-AllSafe b _ h.0 (encode_bytes-AllSafe (x ∷ []) h.1)
encode_bytes-AllSafe (b ∷ x ∷ y ∷ rest) h = elim (Bool-cases (is_escape b x y)) [
  | inl kept ↦
      rw (kept, encode_bytes)
        (ground (arith, uppercase_safe x, uppercase_safe y, encode_bytes-AllSafe rest h.1.1.1))
  | inr plain ↦
      rw (plain, encode_bytes)
        (encode_byte-AllSafe b _ h.0 (encode_bytes-AllSafe (x ∷ y ∷ rest) h.1))
]

hex_digit-is_hex :
    (n : ℕ)
    → n < 16
    → (is_hex (hex_digit n) ≡ true) × (to_ascii_uppercase (hex_digit n) ≡ hex_digit n)
unfolding is_hex to_ascii_uppercase hex_digit
hex_digit-is_hex n h = ground arith

uppercase-is_hex :
    (c : ℕ)
    → is_hex c ≡ true
    → (is_hex (to_ascii_uppercase c) ≡ true)
      × (to_ascii_uppercase (to_ascii_uppercase c) ≡ to_ascii_uppercase c)
unfolding is_hex to_ascii_uppercase
uppercase-is_hex c h = ground arith

-- An escape in upper case is kept.
encode_bytes-escape :
    (x y : ℕ) (rest : Bytes)
    → is_hex x ≡ true
    → is_hex y ≡ true
    → encode_bytes (b'%' ∷ x ∷ y ∷ rest)
      ≡ b'%' ∷ to_ascii_uppercase x ∷ to_ascii_uppercase y ∷ encode_bytes rest
unfolding encode_bytes is_escape
encode_bytes-escape x y rest h k = ground arith

encode_bytes-plain :
    (b : ℕ) (rest : Bytes)
    → nat_eq b b'%' ≡ false
    → (leb 0x21 b && leb b 0x7e && not (nat_eq b b':' || nat_eq b b'@')) ≡ true
    → encode_bytes (b ∷ rest) ≡ b ∷ encode_bytes rest
unfolding encode_bytes encode_byte is_escape
encode_bytes-plain b [] n s = ground arith
encode_bytes-plain b (x ∷ []) n s = ground arith
encode_bytes-plain b (x ∷ y ∷ rest) n s = ground arith

encode_bytes-percent :
    (b : ℕ) (rest : Bytes) → b < 256 → encode_bytes (percent b rest) ≡ percent b (encode_bytes rest)
unfolding percent
encode_bytes-percent b rest h = ground (
  arith,
  encode_bytes-escape (hex_digit (b / 16)) (hex_digit (b % 16)) rest,
  hex_digit-is_hex (b / 16),
  hex_digit-is_hex (b % 16),
)

encode_bytes-encode_byte :
    (b : ℕ) (rest : Bytes)
    → b < 256
    → encode_bytes (encode_byte b rest) ≡ encode_byte b (encode_bytes rest)
unfolding encode_byte
encode_bytes-encode_byte b rest h =
    ground (arith, encode_bytes-percent b rest h, encode_bytes-plain b rest)

-- Encoding what is encoded already changes nothing.
encode_bytes-encode_bytes :
    (value : Bytes) → AllBytes value → encode_bytes (encode_bytes value) ≡ encode_bytes value
unfolding encode_bytes is_escape
encode_bytes-encode_bytes [] h = refl
encode_bytes-encode_bytes (b ∷ []) h = encode_bytes-encode_byte b [] h.0
encode_bytes-encode_bytes (b ∷ x ∷ []) h =
    encode_bytes-encode_byte b _ h.0 ∙ ap (encode_byte b) (encode_bytes-encode_bytes (x ∷ []) h.1)
encode_bytes-encode_bytes (b ∷ x ∷ y ∷ rest) h = elim (Bool-cases (is_escape b x y)) [
  | inl kept ↦
      rw (kept, encode_bytes)
        (ground (
          arith,
          encode_bytes-escape (to_ascii_uppercase x) (to_ascii_uppercase y) (encode_bytes rest),
          uppercase-is_hex x,
          uppercase-is_hex y,
          encode_bytes-encode_bytes rest h.1.1.1,
        ))
  | inr plain ↦
      rw (plain, encode_bytes)
        (encode_bytes-encode_byte b _ h.0
          ∙ ap (encode_byte b) (encode_bytes-encode_bytes (x ∷ y ∷ rest) h.1))
]

AllBytes-strip_dots : (value : Bytes) → AllBytes value → AllBytes (strip_dots value)
unfolding strip_dots
AllBytes-strip_dots [] h = h
AllBytes-strip_dots (a ∷ []) h = h
AllBytes-strip_dots (a ∷ b ∷ rest) h = elim (Bool-cases (nat_eq a b'.' && nat_eq b b'/')) [
  | inl dots ↦ rw (dots, strip_dots) (AllBytes-strip_dots rest h.1.1)
  | inr plain ↦ rw (plain, strip_dots) h
]

abbrev begins : ℕ → Bytes → Bool
begins c [] = false
begins c (x ∷ xs) = nat_eq c x

abbrev begins_dots : Bytes → Bool
begins_dots [] = false
begins_dots (x ∷ xs) = nat_eq x b'.' && begins b'/' xs

strip_dots-begins_dots : (value : Bytes) → begins_dots (strip_dots value) ≡ false
unfolding strip_dots
strip_dots-begins_dots [] = refl
strip_dots-begins_dots (a ∷ []) = ground arith
strip_dots-begins_dots (a ∷ b ∷ rest) = ground (arith, strip_dots-begins_dots rest)

strip_dots_stays : (value : Bytes) → begins_dots value ≡ false → strip_dots value ≡ value
unfolding strip_dots
strip_dots_stays [] h = refl
strip_dots_stays (a ∷ []) h = refl
strip_dots_stays (a ∷ b ∷ rest) h = ground arith

begins-encode_byte :
    (c b : ℕ) (rest : Bytes) → (c ≡ b'.') ⊎ (c ≡ b'/') → begins c (encode_byte b rest) ≡ nat_eq c b
unfolding encode_byte percent
begins-encode_byte c b rest h = ground arith

begins-encode_bytes :
    (c : ℕ) (value : Bytes)
    → (c ≡ b'.') ⊎ (c ≡ b'/')
    → begins c (encode_bytes value) ≡ begins c value
unfolding encode_bytes is_escape
begins-encode_bytes c [] h = refl
begins-encode_bytes c (b ∷ []) h = begins-encode_byte c b [] h
begins-encode_bytes c (b ∷ x ∷ []) h = begins-encode_byte c b (encode_bytes (x ∷ [])) h
begins-encode_bytes c (b ∷ x ∷ y ∷ rest) h =
    ground (arith, begins-encode_byte c b (encode_bytes (x ∷ y ∷ rest)) h)

begins_dots-encode_byte :
    (b : ℕ) (rest : Bytes) → begins_dots (encode_byte b rest) ≡ (nat_eq b b'.' && begins b'/' rest)
unfolding encode_byte percent
begins_dots-encode_byte b rest = ground arith

begins_dots-encode_bytes : (value : Bytes) → begins_dots (encode_bytes value) ≡ begins_dots value
unfolding encode_bytes is_escape
begins_dots-encode_bytes [] = refl
begins_dots-encode_bytes (b ∷ []) = begins_dots-encode_byte b []
begins_dots-encode_bytes (b ∷ x ∷ []) = ground (
  arith,
  begins_dots-encode_byte b (encode_bytes (x ∷ [])),
  begins-encode_bytes b'/' (x ∷ []) (inr refl),
)
begins_dots-encode_bytes (b ∷ x ∷ y ∷ rest) = ground (
  arith,
  begins_dots-encode_byte b (encode_bytes (x ∷ y ∷ rest)),
  begins-encode_bytes b'/' (x ∷ y ∷ rest) (inr refl),
)

encode_bytes-nonempty : (b : ℕ) (rest : Bytes) → encode_bytes (b ∷ rest) ≢ []
unfolding encode_bytes encode_byte percent
encode_bytes-nonempty b [] h = ground arith
encode_bytes-nonempty b (x ∷ []) h = ground arith
encode_bytes-nonempty b (x ∷ y ∷ rest) h = ground arith

encoded_value_fixed :
    (value : Bytes)
    → value ≢ []
    → begins_dots value ≡ false
    → encode_bytes value ≡ value
    → encoded_value value ≡ some value
unfolding encoded_value
encoded_value_fixed [] n d e = absurd (n refl)
encoded_value_fixed (b ∷ rest) n d e = ground (arith, strip_dots_stays (b ∷ rest) d)

encoded_stripped :
    (stripped value encoded : Bytes)
    → strip_dots value ≡ stripped
    → AllBytes stripped
    → encoded_value value ≡ some encoded
    → AllSafe encoded × (encoded ≢ []) × (encoded_value encoded ≡ some encoded)
unfolding encoded_value
encoded_stripped [] value encoded e h f = absurd (ground arith)
encoded_stripped (b ∷ rest) value encoded e h f =
    subst (λ out. AllSafe out × (out ≢ []) × (encoded_value out ≡ some out)) same
      (
        encode_bytes-AllSafe (b ∷ rest) h,
        encode_bytes-nonempty b rest,
        encoded_value_fixed (encode_bytes (b ∷ rest)) (encode_bytes-nonempty b rest)
            (begins_dots-encode_bytes (b ∷ rest)
              ∙ ap begins_dots (sym e)
              ∙ strip_dots-begins_dots value)
            (encode_bytes-encode_bytes (b ∷ rest) h),
      )
  where
    same : encode_bytes (b ∷ rest) ≡ encoded
    same = ground arith

-- An encoded filter value is not empty, holds only printable bytes other than `:` and `@`, and is
-- its own encoding: a value read back from a filter selects what it did.
pub encoded_value_lem :
    (value encoded : Bytes)
    → AllBytes value
    → encoded_value value ≡ some encoded
    → AllSafe encoded × (encoded ≢ []) × (encoded_value encoded ≡ some encoded)
encoded_value_lem value encoded h f =
    encoded_stripped (strip_dots value) value encoded refl (AllBytes-strip_dots value h) f
