-- ===== src/Search/QualifiedName/Parse.antt =====
-- Which module `QualifiedName::parse_in` of src/search/qualified_name.rs resolves a name in.
use trufflepig.Prelude.{
  ℕ, zero, suc, ◌+◌, ◌-◌, ◌≤◌, ◌≡◌, ◌≢◌, ◌⊎◌, refl, sym, ap, ◌∙◌, true, false, not, List, [], ◌∷◌,
  ◌++◌, Bool-cases, inl, inr, ◌==◌, ℕ_key, nat_eq, length, take, arith,
}
use trufflepig.Prelude.Entries.{list_key, all_same_iff}
use trufflepig.Prelude.Texts.{Text, Unicode, chars, keep}
use trufflepig.Search.QualifiedName.{is_special, pop_last, last_or, climb, resolve, parse_in}
use trufflepig.Search.QualifiedName.Split.{AllSegments, written, segments-written_append}

-- How a path begins: with `crate`, with `self` and as many times `super`, with `super` once and as many
-- times more, or with neither.
pub data Start : Type 0 where
  from_crate : Start
  from_self from_super : ℕ → Start
  unprefixed : Start

abbrev pub supers : ℕ → List Text
supers zero = []
supers (suc n) = chars "super" ∷ supers n

abbrev pub spelled : Start → List Text
spelled from_crate = chars "crate" ∷ []
spelled (from_self n) = chars "self" ∷ supers n
spelled (from_super n) = chars "super" ∷ supers n
spelled unprefixed = []

-- The module that stands so many levels above one.
abbrev pub above : ℕ → List Text → List Text
above n here = take (length here - n) here

abbrev pub start_module : List Text → List Text → Start → List Text
start_module here crate_root from_crate = crate_root
start_module here crate_root (from_self n) = above n here
start_module here crate_root (from_super n) = above (suc n) here
start_module here crate_root unprefixed = []

abbrev pub IsPlain : Text → Type 0
IsPlain part = (part ≢ chars "crate") × (part ≢ chars "self") × (part ≢ chars "super")

-- What follows is not part of the start.
abbrev pub Continues : Start → List Text → Type 0
Continues start [] = Unit
Continues from_crate (part ∷ rest) = Unit
Continues (from_self n) (part ∷ rest) = part ≢ chars "super"
Continues (from_super n) (part ∷ rest) = part ≢ chars "super"
Continues unprefixed (part ∷ rest) = IsPlain part

-- The second list is what is left of the first when each `crate`, `self` and `super` is dropped.
pub data Dropped : List Text → List Text → Type 0 where
  nothing : Dropped [] []
  plain :
      {part : Text} {parts kept : List Text}
      → IsPlain part
      → Dropped parts kept
      → Dropped (part ∷ parts) (part ∷ kept)
  special :
      {part : Text} {parts kept : List Text}
      → (part ≡ chars "crate") ⊎ (part ≡ chars "self") ⊎ (part ≡ chars "super")
      → Dropped parts kept
      → Dropped (part ∷ parts) kept

is_special-IsPlain : (part : Text) → IsPlain part → is_special part ≡ false
is_special-IsPlain part h = ground (
  arith,
  all_same_iff part (chars "crate"),
  all_same_iff part (chars "self"),
  all_same_iff part (chars "super"),
)

is_special-word :
    (part : Text)
    → (part ≡ chars "crate") ⊎ (part ≡ chars "self") ⊎ (part ≡ chars "super")
    → is_special part ≡ true
is_special-word part (inl e) = rw e refl
is_special-word part (inr (inl e)) = rw e refl
is_special-word part (inr (inr e)) = rw e refl

keep-Dropped :
    {parts kept : List Text}
    → Dropped parts kept
    → keep (λ part. not (is_special part)) parts ≡ kept
keep-Dropped nothing = refl
keep-Dropped (plain {part = part} h d) =
    rw (is_special-IsPlain part h) (ap (λ rest. part ∷ rest) (keep-Dropped d))
keep-Dropped (special {part = part} h d) = rw (is_special-word part h) (keep-Dropped d)

length-pop_last : (xs : List Text) → length (pop_last xs) ≡ length xs - 1
length-pop_last [] = refl
length-pop_last (x ∷ []) = refl
length-pop_last (x ∷ y ∷ xs) = omega (arith, length-pop_last (y ∷ xs))

take-pop_last : (n : ℕ) (xs : List Text) → n + 1 ≤ length xs → take n (pop_last xs) ≡ take n xs
take-pop_last zero xs h = refl
take-pop_last (suc n) [] h = absurd (omega arith)
take-pop_last (suc n) (x ∷ []) h = absurd (omega arith)
take-pop_last (suc n) (x ∷ y ∷ xs) h =
    ap (λ rest. x ∷ rest) (take-pop_last n (y ∷ xs) (omega arith))

take-length : (xs : List Text) → take (length xs) xs ≡ xs
take-length [] = refl
take-length (x ∷ xs) = ap (λ rest. x ∷ rest) (take-length xs)

take_nil : (n : ℕ) → take {A = Text} n [] ≡ []
take_nil zero = refl
take_nil (suc n) = refl

above_zero : (xs : List Text) → above 0 xs ≡ xs
above_zero xs =
    let whole : length xs - 0 ≡ length xs = omega arith in
    ap (λ n. take n xs) whole ∙ take-length xs

above-pop_last : (n : ℕ) (here : List Text) → above n (pop_last here) ≡ above (suc n) here
above-pop_last n [] = take_nil (0 - n) ∙ sym (take_nil (0 - suc n))
above-pop_last n (x ∷ xs) =
    let shorter : length (pop_last (x ∷ xs)) - n ≡ suc (length xs) - suc n =
      omega (arith, length-pop_last (x ∷ xs)) in
    elim (Bool-cases (nat_eq (suc (length xs) - suc n) 0)) [
      | inl e ↦
          let none_left : suc (length xs) - suc n ≡ 0 = ground arith in rw (shorter, none_left) refl
      | inr e ↦ rw shorter (take-pop_last (suc (length xs) - suc n) (x ∷ xs) (omega arith))
    ]

climb-supers :
    (n : ℕ) (here rest : List Text)
    → Continues (from_super n) rest
    → climb here (supers n ++ rest) ≡ (above n here, rest)
unfolding climb
climb-supers zero here [] h = ap (λ q. (q, [])) (sym (above_zero here))
climb-supers zero here (part ∷ rest) h =
    let other : (part == chars "super") ≡ false =
      ground (arith, all_same_iff part (chars "super")) in
    rw other (ap (λ q. (q, part ∷ rest)) (sym (above_zero here)))
climb-supers (suc n) here [] h =
    climb-supers n (pop_last here) [] tt ∙ ap (λ q. (q, [])) (above-pop_last n here)
climb-supers (suc n) here (part ∷ rest) h =
    climb-supers n (pop_last here) (part ∷ rest) h
    ∙ ap (λ q. (q, part ∷ rest)) (above-pop_last n here)

resolve-spelled :
    (here crate_root : List Text) (start : Start) (rest : List Text)
    → Continues start rest
    → resolve here crate_root (spelled start ++ rest) ≡ (start_module here crate_root start, rest)
unfolding resolve
resolve-spelled here crate_root from_crate rest h = refl
resolve-spelled here crate_root (from_self n) rest h = climb-supers n here rest h
resolve-spelled here crate_root (from_super n) rest h = climb-supers (suc n) here rest h
resolve-spelled here crate_root unprefixed [] h = refl
resolve-spelled here crate_root unprefixed (part ∷ rest) h =
    let crate = all_same_iff part (chars "crate") in
    let own = all_same_iff part (chars "self") in
    let up = all_same_iff part (chars "super") in
    let not_crate : (part == chars "crate") ≡ false = ground arith in
    let not_own : (part == chars "self") ≡ false = ground arith in
    let not_up : (part == chars "super") ≡ false = ground arith in
    rw (not_crate, not_own, not_up) refl

pop_last-append : (xs : List Text) (x : Text) → pop_last (xs ++ x ∷ []) ≡ xs
pop_last-append [] x = refl
pop_last-append (y ∷ []) x = refl
pop_last-append (y ∷ z ∷ xs) x = ap (λ rest. y ∷ rest) (pop_last-append (z ∷ xs) x)

last_or-append : (d : Text) (xs : List Text) (x : Text) → last_or d (xs ++ x ∷ []) ≡ x
last_or-append d [] x = refl
last_or-append d (y ∷ xs) x = last_or-append y xs x

-- A path that is written with `::` from segments is parsed to its last segment as the name, in the
-- module that its start names, followed by the other segments but each `crate`, `self` and `super`
-- among them: the crate's root for `crate`, the module so many levels above the importing one for
-- `self` and `super`, and none for a path with neither.
pub parse_in_lem :
    (u : Unicode) (here crate_root : List Text) (start : Start) {rest kept : List Text}
    (name : Text)
    → Continues start rest
    → Dropped rest kept
    → AllSegments u ((spelled start ++ rest) ++ name ∷ [])
    → parse_in u (written ((spelled start ++ rest) ++ name ∷ [])) here crate_root
      ≡ record { qualifier = start_module here crate_root start ++ kept; name = name }
unfolding parse_in
parse_in_lem u here crate_root start {rest} {kept} name follows dropped segments =
    let front = spelled start ++ rest in
    rw
      (
        segments-written_append u front name segments,
        pop_last-append front name,
        last_or-append [] front name,
        resolve-spelled here crate_root start rest follows,
        keep-Dropped dropped,
      )
      refl
