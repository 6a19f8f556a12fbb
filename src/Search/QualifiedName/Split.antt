-- ===== src/Search/QualifiedName/Split.antt =====
-- A qualified name that is written with `::`, and the segments that `parse_in` of
-- src/search/qualified_name.rs splits it into.
use trufflepig.Prelude.{
  ◌≡◌, ◌≢◌, refl, sym, ap, ◌∙◌, false, not, List, [], ◌∷◌, ◌++◌, map, append-nil, append_assoc,
  nat_eq,
}
use trufflepig.Prelude.Texts.{Text, Unicode, chars, is_empty, keep, trim, split_colons, join}

abbrev pub NoColon : Text → Type 0
NoColon [] = Unit
NoColon (c ∷ text) = (nat_eq c b':' ≡ false) × NoColon text

-- A segment: not empty, with no colon in it and no space at either end.
abbrev pub IsSegment : Unicode → Text → Type 0
IsSegment u text = (text ≢ []) × NoColon text × (trim u text ≡ text)

abbrev pub AllSegments : Unicode → List Text → Type 0
AllSegments u [] = Unit
AllSegments u (segment ∷ segments) = IsSegment u segment × AllSegments u segments

-- The segments as the source writes them.
abbrev pub written : List Text → Text
written segments = join (chars "::") segments

split_colons-last :
    (current text : Text) → NoColon text → split_colons current text ≡ (current ++ text) ∷ []
unfolding split_colons
split_colons-last current [] h = ap (λ t. t ∷ []) (sym (append-nil current))
split_colons-last current (x ∷ []) h = refl
split_colons-last current (x ∷ y ∷ text) h = rw (h.0) (
    split_colons-last (current ++ x ∷ []) (y ∷ text) h.1
    ∙ ap (λ t. t ∷ []) (append_assoc current (x ∷ []) (y ∷ text)))

split_colons-first :
    (current text rest : Text)
    → NoColon text
    → split_colons current (text ++ b':' ∷ b':' ∷ rest) ≡ (current ++ text) ∷ split_colons [] rest
unfolding split_colons
split_colons-first current [] rest h = ap (λ t. t ∷ split_colons [] rest) (sym (append-nil current))
split_colons-first current (x ∷ []) rest h = rw (h.0) (
    split_colons-first (current ++ x ∷ []) [] rest tt
    ∙ ap (λ t. t ∷ split_colons [] rest) (append-nil (current ++ x ∷ [])))
split_colons-first current (x ∷ y ∷ text) rest h = rw (h.0) (
    split_colons-first (current ++ x ∷ []) (y ∷ text) rest h.1
    ∙ ap (λ t. t ∷ split_colons [] rest) (append_assoc current (x ∷ []) (y ∷ text)))

split_colons-written :
    (u : Unicode) (segment : Text) (segments : List Text)
    → AllSegments u (segment ∷ segments)
    → split_colons [] (written (segment ∷ segments)) ≡ segment ∷ segments
split_colons-written u segment [] h = split_colons-last [] segment h.0.1
split_colons-written u segment (next ∷ segments) h =
    ap (split_colons []) (append_assoc segment (chars "::") (written (next ∷ segments)))
    ∙ split_colons-first [] segment (written (next ∷ segments)) h.0.1
    ∙ ap (λ rest. segment ∷ rest) (split_colons-written u next segments h.1)

keep-segments :
    (u : Unicode) (segments : List Text)
    → AllSegments u segments
    → keep (λ part. not (is_empty part)) (map (trim u) segments) ≡ segments
keep-segments u [] h = refl
keep-segments u ([] ∷ segments) h = absurd (h.0.0 refl)
keep-segments u ((c ∷ text) ∷ segments) h =
    rw (h.0.2) (ap (λ rest. (c ∷ text) ∷ rest) (keep-segments u segments h.1))

segments-written :
    (u : Unicode) (segment : Text) (segments : List Text)
    → AllSegments u (segment ∷ segments)
    → keep
        (λ part. not (is_empty part))
        (map (trim u) (split_colons [] (written (segment ∷ segments))))
      ≡ segment ∷ segments
segments-written u segment segments h =
    ap (λ parts. keep (λ part. not (is_empty part)) (map (trim u) parts))
      (split_colons-written u segment segments h)
    ∙ keep-segments u (segment ∷ segments) h

-- The segments of what is written, one at least, are those that it was written from.
pub segments-written_append :
    (u : Unicode) (front : List Text) (name : Text)
    → AllSegments u (front ++ name ∷ [])
    → keep
        (λ part. not (is_empty part))
        (map (trim u) (split_colons [] (written (front ++ name ∷ []))))
      ≡ front ++ name ∷ []
segments-written_append u [] name h = segments-written u name [] h
segments-written_append u (part ∷ front) name h = segments-written u part (front ++ name ∷ []) h
