-- ===== src/History/SourceDiff/Lines.antt =====
-- How src/history/source_diff.rs maps a line of the first revision to the second.
use trufflepig.Prelude.{
  ℕ, ◌+◌, ◌-◌, ◌≤◌, ◌<◌, ◌≡◌, refl, ◌∙◌, arith, false, Option, none, some, List, [], ◌∷◌, ◌++◌,
  if◌then◌else◌, ltb, leb, append-nil, ltb→lt, Bool-cases, inl, inr, get_elem?, partition_point,
}
use trufflepig.History.SourceDiff.{
  LineCorrespondence, SourceDiff, Hunk, in_range, map_before_line, unchanged_until, unchanged_runs,
  diff_interned,
}

-- The hunks follow one another on both sides, and the runs of lines between them are equally long.
abbrev pub Aligned : ℕ → ℕ → ℕ → ℕ → List Hunk → Type 0
Aligned before_lines after_lines b a [] =
    (b ≤ before_lines) × (a ≤ after_lines) × (before_lines + a ≡ after_lines + b)
Aligned before_lines after_lines b a (hunk ∷ hunks) =
    (b ≤ hunk.before.start)
    × (hunk.before.start ≤ hunk.before.end)
    × (a ≤ hunk.after.start)
    × (hunk.after.start ≤ hunk.after.end)
    × (hunk.before.start + a ≡ hunk.after.start + b)
    × Aligned before_lines after_lines hunk.before.end hunk.after.end hunks

-- The line that `line` has become: read off the hunks in order, from the ends of the last one.
abbrev pub line_after : ℕ → ℕ → ℕ → List Hunk → ℕ → Option ℕ
line_after before_lines b a [] line = if ltb line before_lines then some (line - b + a) else none
line_after before_lines b a (hunk ∷ hunks) line =
    if ltb line hunk.before.start
    then some (line - b + a)
    else if ltb line hunk.before.end
    then none
    else line_after before_lines hunk.before.end hunk.after.end hunks line

abbrev shifted : LineCorrespondence → ℕ → Option ℕ
shifted run line =
    if in_range run.before line then some (run.after.start + line - run.before.start) else none

find_run : List LineCorrespondence → ℕ → Option ℕ
find_run [] line = none
find_run (run ∷ runs) line =
    if leb run.before.end line then find_run runs line else shifted run line

map_before_line-eq :
    (diff : SourceDiff) (line : ℕ) → map_before_line diff line ≡ find_run diff.unchanged_lines line
unfolding map_before_line find_run
map_before_line-eq diff line = by_runs diff.unchanged_lines
  where
    by_runs :
        (runs : List LineCorrespondence)
        → (elim (get_elem? runs (partition_point (λ run. leb run.before.end line) runs)) [
          | none ↦ none
          | some run ↦ shifted run line
        ])
          ≡ find_run runs line
    by_runs [] = refl
    by_runs (run ∷ runs) = ground (arith, by_runs runs)

-- A run that ends at or before the line is passed over.
find_run-unchanged :
    (b a start after_start line : ℕ) (rest : List LineCorrespondence)
    → b ≤ line
    → find_run (unchanged_until b a start after_start ++ rest) line
      ≡ (if ltb line start then some (line - b + a) else find_run rest line)
unfolding find_run
find_run-unchanged b a start after_start line rest h = ground arith

-- No line before the ends of the last hunk is found behind it.
find_run-below :
    (b a start after_start line : ℕ) (rest : List LineCorrespondence)
    → line < b
    → b ≤ start
    → find_run rest line ≡ none
    → find_run (unchanged_until b a start after_start ++ rest) line ≡ none
unfolding find_run
find_run-below b a start after_start line rest h l e = ground arith

find_run-none :
    (before_lines after_lines b a line : ℕ) (hunks : List Hunk)
    → Aligned before_lines after_lines b a hunks
    → line < b
    → find_run (unchanged_runs before_lines after_lines b a hunks) line ≡ none
unfolding unchanged_runs find_run
find_run-none before_lines after_lines b a line [] w h =
    rw append-nil at (find_run-below b a before_lines after_lines line [] h w.0 refl)
find_run-none before_lines after_lines b a line (hunk ∷ hunks) w h =
    find_run-below b a hunk.before.start hunk.after.start line
      (unchanged_runs before_lines after_lines hunk.before.end hunk.after.end hunks) h w.0
      (find_run-none before_lines after_lines hunk.before.end hunk.after.end line hunks w.5
        (omega arith))

find_run-line_after :
    (before_lines after_lines b a line : ℕ) (hunks : List Hunk)
    → Aligned before_lines after_lines b a hunks
    → b ≤ line
    → find_run (unchanged_runs before_lines after_lines b a hunks) line
      ≡ line_after before_lines b a hunks line
unfolding unchanged_runs find_run
find_run-line_after before_lines after_lines b a line [] w h =
    rw append-nil at (find_run-unchanged b a before_lines after_lines line [] h)
find_run-line_after before_lines after_lines b a line (hunk ∷ hunks) w h =
    let rest = unchanged_runs before_lines after_lines hunk.before.end hunk.after.end hunks in
    let head = find_run-unchanged b a hunk.before.start hunk.after.start line rest h in
    elim (Bool-cases (ltb line hunk.before.end)) [
      | inl inside ↦
          let gone =
            find_run-none before_lines after_lines hunk.before.end hunk.after.end line hunks w.5
              (ltb→lt line hunk.before.end inside) in
          head ∙ rw (gone, inside) refl
      | inr behind ↦
          let later =
            find_run-line_after before_lines after_lines hunk.before.end hunk.after.end line hunks
              w.5 (not_below behind) in
          head ∙ rw (later, behind) refl
    ]
  where
    not_below : {n : ℕ} → ltb line n ≡ false → n ≤ line
    not_below {n} e = ground arith

-- For hunks in order, with equally many lines between them on both sides, the binary search over the
-- unchanged runs of the diff maps a line to where it has moved, and maps no line that a hunk has
-- replaced and none behind the end.
pub map_before_line-diff_interned :
    (hunks : List Hunk) (before_lines after_lines : ℕ) (before_offsets after_offsets : List ℕ)
    (line : ℕ)
    → Aligned before_lines after_lines 0 0 hunks
    → map_before_line
        (diff_interned hunks before_lines after_lines before_offsets after_offsets)
        line
      ≡ line_after before_lines 0 0 hunks line
unfolding diff_interned
map_before_line-diff_interned hunks before_lines after_lines bo ao line w =
    map_before_line-eq (diff_interned hunks before_lines after_lines bo ao) line
    ∙ find_run-line_after before_lines after_lines 0 0 line hunks w (omega arith)
