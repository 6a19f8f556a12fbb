-- ===== src/Results/Tests.antt =====
-- Runs of the model of src/results, and its theorems at concrete inputs.
use trufflepig.Prelude.{ℕ, ◌+◌, ◌*◌, ◌≤◌, ◌<◌, ◌≡◌, ◌⊎◌, refl, true, false, leb, if◌then◌else◌}
use trufflepig.Results.Page.{
  Renderer, json, rendered, failed, invalid_cursor, largest_fitting, page,
}
use trufflepig.Results.Page.Search.{largest_fitting_lem}
use trufflepig.Results.Page.Choice.{IsPage, Envelopes, page_lem}

-- A text is its size: ten tokens for a hit, thirty with its snippet, and ten for the rest.
abbrev sized : Renderer ℕ
sized = record {
  render = λ count detail candidate_limit. 10 + count * (if detail.snippets then 30 else 10);
  fits = λ size. leb size 75;
  candidates = λ names. 0;
  format = json;
}

-- Two hits fit with snippets, which is too few of twenty; six fit without.
page_runs : page sized 20 0 20 600 ≡ rendered 70
unfolding page
page_runs = refl

largest_fitting_lem_example :
    (largest_fitting 9 (λ n. leb n 4) ≤ 9)
    × ((largest_fitting 9 (λ n. leb n 4) ≡ 0) ⊎ (leb (largest_fitting 9 (λ n. leb n 4)) 4 ≡ true))
    × ((largest_fitting 9 (λ n. leb n 4) ≡ 9)
        ⊎ (leb (largest_fitting 9 (λ n. leb n 4) + 1) 4 ≡ false))
    × (((n : ℕ) → leb (n + 1) 4 ≡ true → leb n 4 ≡ true)
        → (k : ℕ) → largest_fitting 9 (λ n. leb n 4) < k
        → k ≤ 9
        → leb k 4 ≡ false)
largest_fitting_lem_example = largest_fitting_lem 9 (λ n. leb n 4)

page_lem_example :
    ((20 < 3) × (page sized 20 3 20 600 ≡ failed invalid_cursor))
    ⊎ ((3 ≤ 20)
        × (((text : ℕ) × (page sized 20 3 20 600 ≡ rendered text) × IsPage sized 17 text)
            ⊎ Envelopes sized 17 17 (page sized 20 3 20 600)))
page_lem_example = page_lem sized 20 3 20 600
