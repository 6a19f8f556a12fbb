-- ===== src/Prelude/Texts.antt =====
-- `str` of the source as the list of its characters, with the methods that the program calls. What
-- the standard library knows of Unicode is the record Unicode.
use Prim.Native.Nat.{ℕ, zero, suc, ◌+◌, ◌/◌, ◌%◌}
use Prim.Native.Char.{code}
use Prim.Native.String.{String}
use mathlib.Core.Bool.{Bool, true, false, ◌&&◌, ◌||◌, not}
use mathlib.Core.Option.{Option, none, some}
use mathlib.Core.List.{List, [], ◌∷◌, ◌++◌}
use trufflepig.Prelude.Tests.{if◌then◌else◌, nat_eq, leb, ltb}
use trufflepig.Prelude.Lists.{length}

abbrev pub Text : Type 0
Text = List ℕ

-- A literal.
abbrev pub chars : String → Text
chars String.[] = []
chars (String.◌∷◌ c s) = code c ∷ chars s

pub record Unicode : Type 0 where
  pub is_whitespace : ℕ → Bool
  pub is_alphanumeric : ℕ → Bool
  pub is_alphabetic : ℕ → Bool
  pub is_lowercase : ℕ → Bool
  pub is_uppercase : ℕ → Bool
  pub to_lowercase : List ℕ → List ℕ

abbrev pub ascii_upper : ℕ → Bool
ascii_upper c = leb 65 c && leb c 90

abbrev pub ascii_lower : ℕ → Bool
ascii_lower c = leb 97 c && leb c 122

-- `to_ascii_lowercase`
abbrev pub lower_ascii : Text → Text
lower_ascii [] = []
lower_ascii (c ∷ cs) = (if ascii_upper c then c + 32 else c) ∷ lower_ascii cs

-- The ASCII part of the tables, for runs.
abbrev pub ascii : Unicode
ascii = record {
  is_whitespace = λ c. if nat_eq c 32 then true else leb 9 c && leb c 13;
  is_alphanumeric =
      λ c. if leb 48 c && leb c 57 then true else if ascii_upper c then true else ascii_lower c;
  is_alphabetic = λ c. if ascii_upper c then true else ascii_lower c;
  is_lowercase = ascii_lower;
  is_uppercase = ascii_upper;
  to_lowercase = lower_ascii;
}

abbrev pub is_empty {ℓ} : {A : Type ℓ} → List A → Bool
is_empty [] = true
is_empty (x ∷ xs) = false

abbrev pub keep {ℓ} : {A : Type ℓ} → (A → Bool) → List A → List A
keep p [] = []
keep p (x ∷ xs) = if p x then x ∷ keep p xs else keep p xs

abbrev pub all {ℓ} : {A : Type ℓ} → (A → Bool) → List A → Bool
all p [] = true
all p (x ∷ xs) = p x && all p xs

-- `strip_prefix`
abbrev pub strip : Text → Text → Option Text
strip [] text = some text
strip (c ∷ cs) [] = none
strip (c ∷ cs) (x ∷ text) = if nat_eq c x then strip cs text else none

-- `starts_with`
abbrev pub begins : Text → Text → Bool
begins text word = elim (strip word text) [ none ↦ false | some rest ↦ true ]

-- `trim_start_matches` of a character test, `trim_end_matches` and `trim`.
abbrev pub trim_start : (ℕ → Bool) → Text → Text
trim_start p [] = []
trim_start p (x ∷ text) = if p x then trim_start p text else x ∷ text

abbrev pub trim_end : (ℕ → Bool) → Text → Text
trim_end p [] = []
trim_end p (x ∷ text) = let rest = trim_end p text in if p x && is_empty rest then [] else x ∷ rest

abbrev pub trim : Unicode → Text → Text
trim u text = trim_end u.is_whitespace (trim_start u.is_whitespace text)

-- `trim_start_matches` of a word that is not empty; each round takes one of the characters of fuel.
abbrev pub trim_words : ℕ → Text → Text → Text
trim_words zero word text = text
trim_words (suc fuel) word text = elim (strip word text) [
  | none ↦ text
  | some rest ↦ trim_words fuel word rest
]

abbrev pub trim_start_word : Text → Text → Text
trim_start_word word text = trim_words (length text) word text

-- `split` at the characters that pass the test; `current` is the part begun.
unfoldable pub split_at : (ℕ → Bool) → Text → Text → List Text
split_at p current [] = current ∷ []
split_at p current (x ∷ text) =
    let next = current ∷ split_at p [] text in
    let same = split_at p (current ++ x ∷ []) text in if p x then next else same

-- `split("::")`
unfoldable pub split_colons : Text → Text → List Text
split_colons current [] = current ∷ []
split_colons current (x ∷ []) = (current ++ x ∷ []) ∷ []
split_colons current (x ∷ y ∷ text) =
    let next = current ∷ split_colons [] text in
    let same = split_colons (current ++ x ∷ []) (y ∷ text) in
    if nat_eq x b':' && nat_eq y b':' then next else same

-- `split_once(word)`: what stands before and behind the first occurrence.
abbrev pub split_once : Text → Text → Option (Text × Text)
split_once word [] = elim (strip word []) [ none ↦ none | some rest ↦ some ([], rest) ]
split_once word (x ∷ text) =
    let further = elim (split_once word text) as (λ _. Option (Text × Text)) [
      | none ↦ none
      | some (head, tail) ↦ some (x ∷ head, tail)
    ] in
    elim (strip word (x ∷ text)) [ none ↦ further | some rest ↦ some ([], rest) ]

-- `rsplit_once(word)`, at the last occurrence.
abbrev pub rsplit_once : Text → Text → Option (Text × Text)
rsplit_once word [] = elim (strip word []) [ none ↦ none | some rest ↦ some ([], rest) ]
rsplit_once word (x ∷ text) = elim (rsplit_once word text) [
  | some (head, tail) ↦ some (x ∷ head, tail)
  | none ↦ elim (strip word (x ∷ text)) [ none ↦ none | some rest ↦ some ([], rest) ]
]

-- `split(word).next()` and `rsplit(word).next()`
abbrev pub before_first : Text → Text → Text
before_first word text = elim (split_once word text) [ none ↦ text | some (head, tail) ↦ head ]

abbrev pub behind_last : Text → Text → Text
behind_last word text = elim (rsplit_once word text) [ none ↦ text | some (head, tail) ↦ tail ]

abbrev pub flatten {ℓ} : {A : Type ℓ} → List (List A) → List A
flatten [] = []
flatten (xs ∷ rest) = xs ++ flatten rest

-- `split_whitespace` and `join`
abbrev pub words : Unicode → Text → List Text
words u text = keep (λ word. not (is_empty word)) (split_at u.is_whitespace [] text)

abbrev pub join : Text → List Text → Text
join sep [] = []
join sep (word ∷ []) = word
join sep (word ∷ next ∷ rest) = word ++ sep ++ join sep (next ∷ rest)

-- `==` of texts, and with a literal.
abbrev pub same_text : Text → Text → Bool
same_text [] [] = true
same_text [] (y ∷ ys) = false
same_text (x ∷ xs) [] = false
same_text (x ∷ xs) (y ∷ ys) = nat_eq x y && same_text xs ys

abbrev pub is_word : Text → String → Bool
is_word text word = same_text text (chars word)

abbrev pub same_texts : List Text → List Text → Bool
same_texts [] [] = true
same_texts [] (y ∷ ys) = false
same_texts (x ∷ xs) [] = false
same_texts (x ∷ xs) (y ∷ ys) = same_text x y && same_texts xs ys

abbrev pub some_of {ℓ} : {A : Type ℓ} → (A → Bool) → List A → Bool
some_of p [] = false
some_of p (x ∷ xs) = p x || some_of p xs

abbrev pub is_one_of : Text → List String → Bool
is_one_of text names = some_of (is_word text) names

-- `ends_with` and `contains` of a text.
abbrev pub ends : Text → Text → Bool
ends [] word = same_text [] word
ends (x ∷ text) word = same_text (x ∷ text) word || ends text word

abbrev pub contains_text : Text → Text → Bool
contains_text [] word = begins [] word
contains_text (x ∷ text) word = begins (x ∷ text) word || contains_text text word

-- `split_inclusive`: each part but the last ends at a character that passes the test.
unfoldable pub split_inclusive : (ℕ → Bool) → Text → Text → List Text
split_inclusive p current [] = if is_empty current then [] else current ∷ []
split_inclusive p current (x ∷ text) =
    let part = current ++ x ∷ [] in
    let rest = split_inclusive p (if p x then [] else part) text in
    if p x then part ∷ rest else rest

-- The bytes of the text.
abbrev pub utf8_char : ℕ → List ℕ
utf8_char c =
    if ltb c 128
    then c ∷ []
    else if ltb c 2048
    then (192 + c / 64) ∷ (128 + c % 64) ∷ []
    else if ltb c 65536
    then (224 + c / 4096) ∷ (128 + c / 64 % 64) ∷ (128 + c % 64) ∷ []
    else (240 + c / 262144) ∷ (128 + c / 4096 % 64) ∷ (128 + c / 64 % 64) ∷ (128 + c % 64) ∷ []

abbrev pub utf8 : Text → List ℕ
utf8 [] = []
utf8 (c ∷ cs) = utf8_char c ++ utf8 cs
