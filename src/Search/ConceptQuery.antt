-- ===== src/Search/ConceptQuery.antt =====
-- src/search/concept_query.rs: the shape of a free text, and the lanes that it runs.
use trufflepig.Prelude.{
  ℕ, ◌-◌, Bool, true, false, ◌&&◌, ◌||◌, not, Option, none, some, List, [], ◌∷◌, ◌++◌, map,
  if◌then◌else◌, ltb, leb, nat_eq, length, take, drop,
}
use trufflepig.Prelude.Texts.{
  Text, Unicode, chars, all, is_empty, trim, split_colons, join, begins, ends, some_of,
  contains_text, is_word,
}
use trufflepig.Search.Query.{Query, word_terms, fts_terms, quote, not_empty}
use trufflepig.Search.QualifiedName.{QualifiedName}
use trufflepig.Search.QualifiedName as Qualified
use trufflepig.Search.Hits.{Hit, LaneHits}

pub record IdentifierToken : Type 0 where
  pub name : Text
  pub qualifier : Option Text

pub record ConceptQuery : Type 0 where
  pub any_terms : Option Text
  pub phrase : Option Text
  pub all_terms : Option Text
  pub identifier : Option IdentifierToken
  pub literal : Bool

abbrev pub when {ℓ} : {A : Type ℓ} → Bool → A → Option A
when true a = some a
when false a = none

-- The last part, and the one before it.
abbrev pub last_part : List Text → Text
last_part [] = []
last_part (x ∷ []) = x
last_part (x ∷ y ∷ xs) = last_part (y ∷ xs)

abbrev pub part_before_last : List Text → Option Text
part_before_last [] = none
part_before_last (x ∷ []) = none
part_before_last (x ∷ y ∷ []) = some x
part_before_last (x ∷ y ∷ z ∷ xs) = part_before_last (y ∷ z ∷ xs)

-- `windows(2)`
unfoldable pub is_camel : Unicode → Text → Bool
is_camel u [] = false
is_camel u (a ∷ []) = false
is_camel u (a ∷ b ∷ cs) = (u.is_lowercase a && u.is_uppercase b) || is_camel u (b ∷ cs)

abbrev is_ascii_digit : ℕ → Bool
is_ascii_digit c = leb b'0' c && leb c b'9'

abbrev pub identifier_segment : Unicode → Text → Bool
identifier_segment u segment =
    not_empty segment && all (λ c. u.is_alphanumeric c || nat_eq c b'_') segment

unfoldable pub parse_identifier : Unicode → Text → Option IdentifierToken
unfolding split_colons is_camel
parse_identifier u text =
    let segments = split_colons [] text in
    if not (all (identifier_segment u) segments) || not (some_of u.is_alphabetic text)
    then none
    else if nat_eq (length segments) 1
        && (not (contains_text text (chars "_"))
            && (not (is_camel u text) && not (some_of is_ascii_digit text)))
    then none
    else some (record { name = last_part segments; qualifier = part_before_last segments })

-- `&text[1..text.len() - 1]`
abbrev pub inner : Text → Text
inner text = take (length text - 2) (drop 1 text)

unfoldable pub is_literal : Text → Bool
is_literal text =
    leb 2 (length text)
    && (begins text (b'"' ∷ [])
        && (ends text (b'"' ∷ []) && not (contains_text (inner text) (b'"' ∷ []))))

abbrev pub no_terms : Bool → ConceptQuery
no_terms literal = record {
  any_terms = none;
  phrase = none;
  all_terms = none;
  identifier = none;
  literal = literal;
}

unfoldable pub parse : Unicode → Text → ConceptQuery
unfolding is_literal parse_identifier word_terms fts_terms
parse u given =
    let text = trim u given in
    let literal = is_literal text in
    let body = if literal then inner text else text in
    let terms = word_terms u body in
    let phrase = when (literal || ltb 1 (length terms)) (quote (join (chars " ") terms)) in
    if is_empty terms
    then no_terms literal
    else if literal
    then record (no_terms literal) { phrase = phrase }
    else record {
      any_terms = some (fts_terms u body);
      phrase = phrase;
      all_terms = when (ltb 1 (length terms)) (join (chars " AND ") (map quote terms));
      identifier = parse_identifier u text;
      literal = literal;
    }

-- `identifier.is_some()`
abbrev pub present_identifier : ConceptQuery → Bool
present_identifier concept = elim concept.identifier [ none ↦ false | some token ↦ true ]

-- The queries of the index. An error of the database is `none`; what `recorded` writes to the
-- trace is left out.
pub record Lanes : Type 0 where
  pub exact_hits : Query → Option LaneHits
  pub qualified_hits : QualifiedName → Query → Option LaneHits
  pub occurrence_hits : Query → IdentifierToken → Option LaneHits
  pub lexical_hits : Query → Text → Option LaneHits
  pub file_hits : Query → Option LaneHits

abbrev pub with_provenance : Text → Hit → Hit
with_provenance provenance hit = record hit { provenance = some provenance }

unfoldable pub relabeled : Option LaneHits → Text → Option LaneHits
relabeled none provenance = none
relabeled (some lane) provenance =
    some (record lane { hits = map (with_provenance provenance) lane.hits })

-- The lanes so far, and whether one of them reached its cap.
pub record Collected : Type 0 where
  pub lanes : List (List Hit)
  pub truncated : Bool

-- The closure `add`.
unfoldable pub add : Collected → Option LaneHits → Option Collected
add c none = none
add c (some lane) =
    some (record { lanes = c.lanes ++ lane.hits ∷ []; truncated = c.truncated || lane.truncated })

-- `?`
abbrev pub and_then {ℓ} : {A : Type ℓ} → Option A → (A → Option A) → Option A
and_then none f = none
and_then (some a) f = f a

abbrev pub is_file_kind : Query → Bool
is_file_kind query = is_empty query.kind || is_word query.kind "file"

module _ (u : Unicode) (lanes : Lanes) (query : Query) where
  -- One function for each `if let` of `concept_lanes`.
  unfoldable pub add_identifier : Option IdentifierToken → Collected → Option Collected
  unfolding add Qualified.parse
  add_identifier none c = some c
  add_identifier (some token) c =
      let qualified : Option Collected = elim token.qualifier [
        | none ↦ some c
        | some q ↦ add c (lanes.qualified_hits (Qualified.parse u query.text) query)
      ] in
      and_then qualified (λ d. add d (lanes.occurrence_hits query token))

  unfoldable pub add_phrase : Option Text → Collected → Option Collected
  unfolding add relabeled
  add_phrase none c = some c
  add_phrase (some phrase) c = add c (relabeled (lanes.lexical_hits query phrase) (chars "phrase"))

  unfoldable pub add_all_terms : Option Text → Collected → Option Collected
  unfolding add relabeled
  add_all_terms none c = some c
  add_all_terms (some all_terms) c =
      add c (relabeled (lanes.lexical_hits query all_terms) (chars "all_terms"))

  unfoldable pub add_any_terms : Option Text → Collected → Option Collected
  unfolding add
  add_any_terms none c = some c
  add_any_terms (some any_terms) c =
      and_then (add c (lanes.lexical_hits query any_terms))
        (λ d. if is_file_kind query then add d (lanes.file_hits query) else some d)

  unfoldable pub concept_lanes : ConceptQuery → LaneHits → Option Collected
  unfolding add_identifier add_phrase add_all_terms add_any_terms
  concept_lanes concept exact =
      and_then
        (and_then
          (and_then
            (add_identifier concept.identifier
              (record { lanes = exact.hits ∷ []; truncated = exact.truncated }))
            (add_phrase concept.phrase))
          (add_all_terms concept.all_terms))
        (add_any_terms concept.any_terms)
