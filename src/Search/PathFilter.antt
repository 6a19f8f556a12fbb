-- ===== src/Search/PathFilter.antt =====
-- src/search/path_filter.rs: `file:` and `-file:` filters, in memory and as ranges of the index.
-- Text is its list of bytes. The `files` table is the list of its paths, which the two queries that
-- `anchors_at_root` sends compare byte by byte.
pub mod Ranges
pub mod Components
pub mod Encoding
pub mod SingleFile
use trufflepig.Prelude.{
  ℕ, zero, suc, ◌+◌, ◌-◌, ◌/◌, ◌%◌, Bool, true, false, not, ◌&&◌, ◌||◌, Option, none, some, List,
  [], ◌∷◌, ◌++◌, map, if◌then◌else◌, ltb, leb, nat_eq,
}

abbrev pub Bytes : Type 0
Bytes = List ℕ

-- `strip_prefix`
unfoldable pub strip_prefix : Bytes → Bytes → Option Bytes
strip_prefix [] text = some text
strip_prefix (c ∷ cs) [] = none
strip_prefix (c ∷ cs) (x ∷ text) = if nat_eq c x then strip_prefix cs text else none

unfoldable pub starts_with : Bytes → Bytes → Bool
unfolding strip_prefix
starts_with text value = elim (strip_prefix value text) [ none ↦ false | some rest ↦ true ]

-- `str::contains`
unfoldable pub has_substring : Bytes → Bytes → Bool
unfolding starts_with
has_substring [] value = starts_with [] value
has_substring (x ∷ text) value = starts_with (x ∷ text) value || has_substring text value

-- `a < b` of byte strings.
unfoldable pub below : Bytes → Bytes → Bool
below [] [] = false
below [] (y ∷ b) = true
below (x ∷ a) [] = false
below (x ∷ a) (y ∷ b) = if nat_eq x y then below a b else ltb x y

abbrev pub any {ℓ} : {A : Type ℓ} → (A → Bool) → List A → Bool
any p [] = false
any p (x ∷ xs) = p x || any p xs

-- `PathFilter`, its values encoded.
pub record PathFilter : Type 0 where
  pub include : List Bytes
  pub exclude : List Bytes

-- `high.is_ascii_hexdigit()`
unfoldable pub is_hex : ℕ → Bool
is_hex c = (leb b'0' c && leb c b'9') || (leb b'A' c && leb c b'F') || (leb b'a' c && leb c b'f')

unfoldable pub to_ascii_uppercase : ℕ → ℕ
to_ascii_uppercase c = if leb b'a' c && leb c b'z' then c - 32 else c

-- A digit of `{byte:02X}`.
unfoldable pub hex_digit : ℕ → ℕ
hex_digit n = if ltb n 10 then 48 + n else 55 + n

unfoldable pub percent : ℕ → Bytes → Bytes
unfolding hex_digit
percent byte rest = b'%' ∷ hex_digit (byte / 16) ∷ hex_digit (byte % 16) ∷ rest

-- The branches of the loop for a byte that starts no escape.
unfoldable pub encode_byte : ℕ → Bytes → Bytes
unfolding percent
encode_byte byte rest =
    if nat_eq byte b'%'
    then percent byte rest
    else if leb 0x21 byte && leb byte 0x7e && not (nat_eq byte b':' || nat_eq byte b'@')
    then byte ∷ rest
    else percent byte rest

unfoldable pub is_escape : ℕ → ℕ → ℕ → Bool
unfolding is_hex
is_escape byte high low = nat_eq byte b'%' && is_hex high && is_hex low

-- The loop, by what is left to read.
unfoldable pub encode_bytes : Bytes → Bytes
unfolding encode_byte is_escape to_ascii_uppercase
encode_bytes [] = []
encode_bytes (byte ∷ []) = encode_byte byte []
encode_bytes (byte ∷ high ∷ []) = encode_byte byte (encode_bytes (high ∷ []))
encode_bytes (byte ∷ high ∷ low ∷ rest) =
    let kept = encode_bytes rest in
    let encoded = encode_bytes (high ∷ low ∷ rest) in
    if is_escape byte high low
    then b'%' ∷ to_ascii_uppercase high ∷ to_ascii_uppercase low ∷ kept
    else encode_byte byte encoded

-- `while let Some(rest) = value.strip_prefix("./")`
unfoldable pub strip_dots : Bytes → Bytes
strip_dots [] = []
strip_dots (a ∷ []) = a ∷ []
strip_dots (a ∷ b ∷ rest) =
    let stripped = strip_dots rest in
    if nat_eq a b'.' && nat_eq b b'/' then stripped else a ∷ b ∷ rest

unfoldable pub encoded_value : Bytes → Option Bytes
unfolding strip_dots encode_bytes
encoded_value value = elim (strip_dots value) [
  | [] ↦ none
  | byte ∷ rest ↦ some (encode_bytes (byte ∷ rest))
]

unfoldable pub add_include : PathFilter → Bytes → PathFilter
unfolding encoded_value
add_include f value = elim (encoded_value value) [
  | none ↦ f
  | some encoded ↦ record f { include = f.include ++ (encoded ∷ []) }
]

unfoldable pub add_exclude : PathFilter → Bytes → PathFilter
unfolding encoded_value
add_exclude f value = elim (encoded_value value) [
  | none ↦ f
  | some encoded ↦ record f { exclude = f.exclude ++ (encoded ∷ []) }
]

-- The last byte, one higher; an ASCII byte does not wrap.
unfoldable pub upper_bound : Bytes → Bytes
upper_bound [] = []
upper_bound (c ∷ []) = (c + 1) ∷ []
upper_bound (c ∷ d ∷ rest) = c ∷ upper_bound (d ∷ rest)

unfoldable pub ends_with_slash : Bytes → Bool
ends_with_slash [] = false
ends_with_slash (c ∷ []) = nat_eq c b'/'
ends_with_slash (c ∷ d ∷ rest) = ends_with_slash (d ∷ rest)

-- `path>=low AND path<high`
unfoldable pub in_range : Bytes → Bytes → Bytes → Bool
unfolding below
in_range low high path = not (below path low) && below path high

unfoldable pub anchors_at_root : List Bytes → Bytes → Bool
unfolding ends_with_slash in_range upper_bound
anchors_at_root files value =
    if ends_with_slash value
    then any (in_range value (upper_bound value)) files
    else any (in_range (value ++ (b'.' ∷ [])) (value ++ (b'0' ∷ []))) files
      || any (in_range value (value ++ (1 ∷ []))) files

-- `PathNeedle`: its `slashed` is a slash before this value.
pub record PathNeedle : Type 0 where
  pub value : Bytes
  pub anchored : Bool

unfoldable pub needle_matches : PathNeedle → Bytes → Bool
unfolding starts_with has_substring
needle_matches needle path =
    starts_with path needle.value
    || (not needle.anchored && has_substring path (b'/' ∷ needle.value))

-- What the SQL of a needle says of a path; `instr(path, slashed) > 0` is the substring test.
unfoldable pub needle_sql : PathNeedle → Bytes → Bool
unfolding in_range upper_bound has_substring
needle_sql needle path =
    if needle.anchored
    then in_range needle.value (upper_bound needle.value) path
    else in_range needle.value (upper_bound needle.value) path
      || has_substring path (b'/' ∷ needle.value)

pub record BoundPathFilter : Type 0 where
  pub include : List PathNeedle
  pub exclude : List PathNeedle

unfoldable pub bind : List Bytes → PathFilter → BoundPathFilter
unfolding anchors_at_root
bind files f = record {
  include =
      map (λ value. record { value = value; anchored = anchors_at_root files value }) f.include;
  exclude = map (λ value. record { value = value; anchored = false }) f.exclude;
}

abbrev pub is_empty {ℓ} : {A : Type ℓ} → List A → Bool
is_empty [] = true
is_empty (x ∷ xs) = false

unfoldable pub filter_matches : BoundPathFilter → Bytes → Bool
unfolding needle_matches
filter_matches f path =
    (is_empty f.include || any (λ needle. needle_matches needle path) f.include)
    && not (any (λ needle. needle_matches needle path) f.exclude)

-- What the text of `sql_clause` says of a path: the alternatives, then each exclusion.
unfoldable pub sql_clause : BoundPathFilter → Bytes → Bool
unfolding needle_sql
sql_clause f path =
    (if is_empty f.include then true else any (λ needle. needle_sql needle path) f.include)
    && not (any (λ needle. needle_sql needle path) f.exclude)
