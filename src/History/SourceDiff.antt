-- ===== src/History/SourceDiff.antt =====
-- src/history/source_diff.rs: line offsets, the runs of changed and unchanged lines, and how a line
-- is found in them. The hunks of the imara-diff library are an argument, and so is the number of
-- lines of each side, which that library counts.
pub mod Lines
use trufflepig.Prelude.{
  take, drop, ℕ, zero, suc, ◌+◌, ◌-◌, Bool, false, ◌&&◌, Option, none, some, List, [], ◌∷◌, ◌++◌,
  if◌then◌else◌, ltb, leb, nat_eq, get_elem?, length, Range, partition_point,
}

pub record ByteSpan : Type 0 where
  pub start : ℕ
  pub end : ℕ

pub record SourceChange : Type 0 where
  pub before : ByteSpan
  pub after : ByteSpan
  pub before_lines : Range
  pub after_lines : Range

pub record LineCorrespondence : Type 0 where
  pub before : Range
  pub after : Range

pub record SourceDiff : Type 0 where
  pub changes : List SourceChange
  pub unchanged_lines : List LineCorrespondence

-- `Range::contains`
abbrev pub in_range : Range → ℕ → Bool
in_range range line = leb range.start line && ltb line range.end

unfoldable pub map_before_line : SourceDiff → ℕ → Option ℕ
map_before_line diff line =
    let index = partition_point (λ run. leb run.before.end line) diff.unchanged_lines in
    elim (get_elem? diff.unchanged_lines index) [
      | none ↦ none
      | some run ↦
          if in_range run.before line
          then some (run.after.start + line - run.before.start)
          else none
    ]

unfoldable pub shares_change : SourceDiff → ℕ → ℕ → Bool
shares_change diff before_line after_line =
    let index = partition_point (λ change. leb change.before_lines.end before_line) diff.changes in
    elim (get_elem? diff.changes index) [
      | none ↦ false
      | some change ↦
          in_range change.before_lines before_line && in_range change.after_lines after_line
    ]

-- A hunk of the library: the lines of each side that it replaces.
pub record Hunk : Type 0 where
  pub before : Range
  pub after : Range

-- `offsets[line]`, in bounds.
abbrev pub offset_at : List ℕ → ℕ → ℕ
offset_at offsets line = elim (get_elem? offsets line) [ none ↦ 0 | some offset ↦ offset ]

abbrev pub unchanged_until : ℕ → ℕ → ℕ → ℕ → List LineCorrespondence
unchanged_until before_end after_end before_start after_start =
    if ltb before_end before_start
    then record {
      before = record { start = before_end; end = before_start };
      after = record { start = after_end; end = after_start };
    }
      ∷ []
    else []

abbrev pub change_of : List ℕ → List ℕ → Hunk → SourceChange
change_of before_offsets after_offsets hunk = record {
  before = record {
    start = offset_at before_offsets hunk.before.start;
    end = offset_at before_offsets hunk.before.end;
  };
  after = record {
    start = offset_at after_offsets hunk.after.start;
    end = offset_at after_offsets hunk.after.end;
  };
  before_lines = hunk.before;
  after_lines = hunk.after;
}

-- The loop over the hunks and the push behind it.
unfoldable pub unchanged_runs : ℕ → ℕ → ℕ → ℕ → List Hunk → List LineCorrespondence
unchanged_runs before_lines after_lines before_end after_end [] =
    unchanged_until before_end after_end before_lines after_lines
unchanged_runs before_lines after_lines before_end after_end (hunk ∷ hunks) =
    unchanged_until before_end after_end hunk.before.start hunk.after.start
    ++ unchanged_runs before_lines after_lines hunk.before.end hunk.after.end hunks

unfoldable pub changes_of : List ℕ → List ℕ → List Hunk → List SourceChange
changes_of before_offsets after_offsets [] = []
changes_of before_offsets after_offsets (hunk ∷ hunks) =
    change_of before_offsets after_offsets hunk ∷ changes_of before_offsets after_offsets hunks

unfoldable pub diff_interned : List Hunk → ℕ → ℕ → List ℕ → List ℕ → SourceDiff
unfolding unchanged_runs changes_of
diff_interned hunks before_lines after_lines before_offsets after_offsets = record {
  changes = changes_of before_offsets after_offsets hunks;
  unchanged_lines = unchanged_runs before_lines after_lines 0 0 hunks;
}

-- The offsets behind the newlines.
unfoldable pub newline_offsets : ℕ → List ℕ → List ℕ
newline_offsets index [] = []
newline_offsets index (byte ∷ source) =
    let rest = newline_offsets (index + 1) source in
    if nat_eq byte b'\n' then (index + 1) ∷ rest else rest

abbrev pub last_offset : ℕ → List ℕ → ℕ
last_offset offset [] = offset
last_offset offset (x ∷ xs) = last_offset x xs

unfoldable pub line_offsets : List ℕ → List ℕ
unfolding newline_offsets
line_offsets source =
    let offsets = 0 ∷ newline_offsets 0 source in
    if nat_eq (last_offset 0 offsets) (length source)
    then offsets
    else offsets ++ length source ∷ []

-- `source[start..end]`, in bounds.
abbrev pub range_of : List ℕ → ℕ → ℕ → List ℕ
range_of source start end = take (end - start) (drop start source)
