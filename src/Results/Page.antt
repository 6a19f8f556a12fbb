-- ===== src/Results/Page.antt =====
-- src/results/page.rs: how many hits a page holds, and in what detail.
-- Rendering a page (`render_detail`) and counting its tokens (`OutputBudget::fits`, on the external
-- tokenizer) are parameters, as `Renderer`. Rendering does not fail here: the `Result` that it
-- returns in the source carries serialisation errors alone.
pub mod Search
pub mod Choice
use trufflepig.Prelude.{
  ℕ, zero, suc, ◌+◌, ◌-◌, ◌/◌, min, Bool, true, false, ◌&&◌, Option, none, some, if◌then◌else◌, ltb,
  leb, nat_eq,
}

abbrev pub snippet_page_floor : ℕ
snippet_page_floor = 8

-- `div_ceil(2)`
abbrev pub half_up : ℕ → ℕ
half_up n = (n + 1) / 2

-- The loop of `largest_fitting`, on fuel. `Search.search-Between` shows that the width is enough.
unfoldable pub search : ℕ → (ℕ → Bool) → ℕ → ℕ → ℕ
search zero fits low high = low
search (suc fuel) fits low high =
    let count = low + half_up (high - low) in
    let upper = search fuel fits count high in
    let lower = search fuel fits low (count - 1) in
    if ltb low high then if fits count then upper else lower else low

unfoldable pub largest_fitting : ℕ → (ℕ → Bool) → ℕ
unfolding search
largest_fitting max_count fits = search max_count fits 0 max_count

pub record HitDetail : Type 0 where
  pub names : Bool
  pub snippets : Bool

pub data OutputFormat : Type 0 where
  json lines : OutputFormat

-- `render count detail candidate_limit` is the text of a page; `candidates` is the length of the
-- candidate list of the first hit, which `page_value` gives in JSON for the one-hit page.
pub record Renderer (Text : Type 0) : Type 0 where
  pub render : ℕ → HitDetail → Option ℕ → Text
  pub fits : Text → Bool
  pub candidates : Bool → ℕ
  pub format : OutputFormat

abbrev pub full_detail : HitDetail
full_detail = record { names = true; snippets = true }

abbrev pub locators : Bool → HitDetail
locators names = record { names = names; snippets = false }

pub data PageError : Type 0 where
  invalid_cursor budget_too_small : PageError

pub data PageResult (Text : Type 0) : Type 0 where
  rendered : Text → PageResult Text
  failed : PageError → PageResult Text

abbrev is_json : OutputFormat → Bool
is_json json = true
is_json lines = false

module _ {Text : Type 0} (r : Renderer Text) where
  open r use {render, fits, candidates, format}

  unfoldable pub snippet_page : ℕ → Option Text
  unfolding largest_fitting
  snippet_page max_count =
      let floor = min max_count snippet_page_floor in
      let count = largest_fitting max_count (λ n. fits (render n full_detail none)) in
      if nat_eq floor 0
      then none
      else if leb floor count
      then some (render count full_detail none)
      else none

  -- The candidate list of a lone hit, trimmed by the same search.
  unfoldable pub trimmed : Bool → Option Text
  unfolding largest_fitting
  trimmed names =
      let total = candidates names in
      let low = largest_fitting total (λ n. fits (render 1 (locators names) (some n))) in
      let text = render 1 (locators names) (some low) in
      if ltb 0 total && fits text then some text else none

  -- The body of `for names in [false, true]`.
  unfoldable pub locator_page : ℕ → Bool → Option Text
  unfolding largest_fitting trimmed
  locator_page max_count names =
      let low = largest_fitting max_count (λ n. fits (render n (locators names) none)) in
      let named = render low (locators true) none in
      if ltb 0 low
      then if fits named then some named else some (render low (locators names) none)
      else if ltb 0 max_count && is_json format
      then trimmed names
      else none

  -- The tail of `page`: an empty result set still has its envelope.
  unfoldable pub envelope : ℕ → PageResult Text
  envelope available =
      let text = render 0 (locators false) none in
      if nat_eq available 0 && fits text then rendered text else failed budget_too_small

  -- `page`, for a result set of `hits` entries. `render 0` and its like take the hits from `offset`.
  unfoldable pub page : ℕ → ℕ → ℕ → ℕ → PageResult Text
  unfolding snippet_page locator_page envelope
  page hits offset limit budget_limit =
      let available = hits - offset in
      let max_count = min (min available limit) budget_limit in
      if ltb hits offset then failed invalid_cursor else elim (snippet_page max_count) [
        | some text ↦ rendered text
        | none ↦ elim (locator_page max_count false) [
          | some text ↦ rendered text
          | none ↦ elim (locator_page max_count true) [
            | some text ↦ rendered text
            | none ↦ envelope available
          ]
        ]
      ]
