-- ===== src/Identity.antt =====
-- Git object identifiers of src/identity.rs, as bytes. The array of 64 bytes is a list.
pub mod RoundTrip
mod Tests
use trufflepig.Prelude.{
  ℕ, ◌+◌, ◌-◌, Bool, ◌&&◌, ◌||◌, Option, none, some, List, [], ◌∷◌, ◌++◌, map, if◌then◌else◌, leb,
  nat_eq, length, take,
}
use trufflepig.Prelude.Texts.{all}

pub record GitOid : Type 0 where
  pub hex : List ℕ
  pub len : ℕ

unfoldable pub is_ascii_hexdigit : ℕ → Bool
is_ascii_hexdigit c =
    (leb b'0' c && leb c b'9') || (leb b'A' c && leb c b'F') || (leb b'a' c && leb c b'f')

unfoldable pub to_ascii_lowercase : ℕ → ℕ
to_ascii_lowercase c = if leb b'A' c && leb c b'Z' then c + 32 else c

abbrev pub zeros : ℕ → List ℕ
zeros ℕ.zero = []
zeros (ℕ.suc n) = 0 ∷ zeros n

unfoldable pub parse_oid : List ℕ → Option GitOid
unfolding is_ascii_hexdigit to_ascii_lowercase
parse_oid value =
    if (nat_eq (length value) 40 || nat_eq (length value) 64) && all is_ascii_hexdigit value
    then some (record {
      hex = map to_ascii_lowercase value ++ zeros (64 - length value);
      len = length value;
    })
    else none

unfoldable pub as_str : GitOid → List ℕ
as_str oid = take oid.len oid.hex
