-- ===== src/Identity/Tests.antt =====
-- A run of the model of src/identity.rs, and its theorem at a concrete input.
use trufflepig.Prelude.{◌≡◌, refl, some, none, map}
use trufflepig.Prelude.Texts.{Text, chars}
use trufflepig.Identity.{GitOid, to_ascii_lowercase, parse_oid, as_str}
use trufflepig.Identity.RoundTrip.{parse_oid-as_str}

abbrev sha1 : Text
sha1 = chars "ABCDEF0123456789abcdef0123456789abcdef01"

abbrev parsed : GitOid
parsed = record {
  hex =
      chars
        "abcdef0123456789abcdef0123456789abcdef01\0\0\0\0\0\0\0\0\0\0\0\0\0\0\0\0\0\0\0\0\0\0\0\0";
  len = 40;
}

parse_runs : parse_oid sha1 ≡ some parsed
unfolding parse_oid
parse_runs = refl

parse_short : parse_oid (chars "abc") ≡ none
unfolding parse_oid
parse_short = refl

parse_oid-as_str_example :
    (as_str parsed ≡ map to_ascii_lowercase sha1) × (parse_oid (as_str parsed) ≡ some parsed)
parse_oid-as_str_example = parse_oid-as_str sha1 parsed parse_runs
