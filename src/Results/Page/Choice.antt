-- ===== src/Results/Page/Choice.antt =====
-- Which page src/results/page.rs renders.
use trufflepig.Prelude.{
  ℕ, ◌+◌, ◌-◌, ◌≤◌, ◌<◌, ◌≡◌, refl, ◌⊎◌, inl, inr, arith, min, Bool, true, false, Bool-cases,
  Option, none, some, Option-cases, ltb, nat_eq, ltb→lt, ◌&&◌, subst,
}
use trufflepig.Results.Page.{
  largest_fitting, Renderer, HitDetail, full_detail, locators, snippet_page, trimmed, locator_page,
  envelope, page, PageResult, rendered, failed, invalid_cursor, budget_too_small,
}
use trufflepig.Results.Page.Search.{largest_fitting_lem}

module _ {Text : Type 0} (r : Renderer Text) where
  open r use {render, fits}

  -- A page that may be sent: it fits the budget, and of at most `max_count` hits it holds one or
  -- more.
  pub record IsPage (max_count : ℕ) (text : Text) : Type 0 where
    pub count : ℕ
    pub detail : HitDetail
    pub candidate_limit : Option ℕ
    pub text_is : text ≡ render count detail candidate_limit
    pub fits_budget : fits text ≡ true
    pub some_hit : 0 < count
    pub in_range : count ≤ max_count

  -- A search for the largest page with some detail that found one.
  found :
      (max_count : ℕ) (detail : HitDetail)
      → let count = largest_fitting max_count (λ n. fits (render n detail none)) in
        0 < count → (fits (render count detail none) ≡ true) × (count ≤ max_count)
  found max_count detail h =
      let l = largest_fitting_lem max_count (λ n. fits (render n detail none)) in
      (elim l.1 [ inl e ↦ absurd (omega arith) | inr f ↦ f ], l.0)

  snippet_page-IsPage :
      (max_count : ℕ) (text : Text) → snippet_page r max_count ≡ some text → IsPage max_count text
  unfolding snippet_page
  snippet_page-IsPage max_count text h = record {
    count = largest_fitting max_count (λ n. fits (render n full_detail none));
    detail = full_detail;
    candidate_limit = none;
    text_is = ground arith;
    fits_budget = ground (arith, (found max_count full_detail some_hit).0);
    some_hit = some_hit;
    in_range = (found max_count full_detail some_hit).1;
  }
    where
      some_hit : 0 < largest_fitting max_count (λ n. fits (render n full_detail none))
      some_hit = ground arith

  trimmed-IsPage :
      (max_count : ℕ) (names : Bool) (text : Text)
      → 0 < max_count
      → trimmed r names ≡ some text
      → IsPage max_count text
  unfolding trimmed
  trimmed-IsPage max_count names text positive h = record {
    count = 1;
    detail = locators names;
    candidate_limit =
        some
          (largest_fitting (r.candidates names) (λ n. fits (render 1 (locators names) (some n))));
    text_is = ground arith;
    fits_budget = ground arith;
    some_hit = omega arith;
    in_range = positive;
  }

  locator_page-IsPage :
      (max_count : ℕ) (names : Bool) (text : Text)
      → locator_page r max_count names ≡ some text
      → IsPage max_count text
  unfolding locator_page
  locator_page-IsPage max_count names text h = elim (Bool-cases (ltb 0 low)) [
    | inl some_hit ↦ elim (Bool-cases (fits (render low (locators true) none))) [
      | inl named ↦ record {
        count = low;
        detail = locators true;
        candidate_limit = none;
        text_is = ground arith;
        fits_budget = ground arith;
        some_hit = ltb→lt 0 low some_hit;
        in_range = (found max_count (locators names) (ltb→lt 0 low some_hit)).1;
      }
      | inr unnamed ↦ record {
        count = low;
        detail = locators names;
        candidate_limit = none;
        text_is = ground arith;
        fits_budget = ground (arith, (found max_count (locators names) (ltb→lt 0 low some_hit)).0);
        some_hit = ltb→lt 0 low some_hit;
        in_range = (found max_count (locators names) (ltb→lt 0 low some_hit)).1;
      }
    ]
    | inr no_hit ↦ trimmed-IsPage max_count names text (ground arith) (ground arith)
  ]
    where
      low : ℕ
      low = largest_fitting max_count (λ n. fits (render n (locators names) none))

  -- Where neither hits nor a trimmed hit make a page, a single hit does not fit either.
  locator_page-none :
      (max_count : ℕ) (names : Bool)
      → locator_page r max_count names ≡ none
      → 0 < max_count
      → fits (render 1 (locators names) none) ≡ false
  unfolding locator_page
  locator_page-none max_count names h positive = elim l.2 [
    | inl e ↦ absurd (ground arith)
    | inr f ↦ subst (λ n. fits (render n (locators names) none) ≡ false) no_hit f
  ]
    where
      low : ℕ
      low = largest_fitting max_count (λ n. fits (render n (locators names) none))

      l :
          (low ≤ max_count)
          × ((low ≡ 0) ⊎ (fits (render low (locators names) none) ≡ true))
          × ((low ≡ max_count) ⊎ (fits (render (low + 1) (locators names) none) ≡ false))
          × (((n : ℕ)
                → fits (render (n + 1) (locators names) none) ≡ true
                → fits (render n (locators names) none) ≡ true)
              → (k : ℕ) → low < k
              → k ≤ max_count
              → fits (render k (locators names) none) ≡ false)
      l = largest_fitting_lem max_count (λ n. fits (render n (locators names) none))

      no_hit : low + 1 ≡ 1
      no_hit = ground arith

  -- The page of an exhausted result set: the envelope alone.
  pub record IsEnvelope (available : ℕ) (text : Text) : Type 0 where
    pub exhausted : available ≡ 0
    pub text_is : text ≡ render 0 (locators false) none
    pub fits_budget : fits text ≡ true

  -- Where a page may hold a hit, none of one hit fits, named or not; nor does the envelope, where
  -- nothing is left.
  pub record IsTooSmall (available max_count : ℕ) : Type 0 where
    pub plain : 0 < max_count → fits (render 1 (locators false) none) ≡ false
    pub named : 0 < max_count → fits (render 1 (locators true) none) ≡ false
    pub empty : available ≡ 0 → fits (render 0 (locators false) none) ≡ false

  abbrev pub Envelopes : ℕ → ℕ → PageResult Text → Type 0
  Envelopes available max_count result =
      ((text : Text) × (result ≡ rendered text) × IsEnvelope available text)
      ⊎ ((result ≡ failed budget_too_small) × IsTooSmall available max_count)

  envelope-cases :
      (available max_count : ℕ)
      → locator_page r max_count false ≡ none
      → locator_page r max_count true ≡ none
      → Envelopes available max_count (envelope r available)
  unfolding envelope
  envelope-cases available max_count f t =
      elim (Bool-cases (nat_eq available 0 && fits (render 0 (locators false) none))) [
        | inl fitting ↦
            rw (fitting, envelope)
              (inl (
                render 0 (locators false) none,
                refl,
                record { exhausted = ground arith; text_is = refl; fits_budget = ground arith },
              ))
        | inr unfit ↦
            rw (unfit, envelope)
              (inr (
                refl,
                record {
                  plain = locator_page-none max_count false f;
                  named = locator_page-none max_count true t;
                  empty = λ e. ground arith;
                },
              ))
      ]

  -- `page` on every branch. An offset past the end is an invalid cursor. Otherwise the page fits
  -- the budget and holds between one hit and the least of what is left, the limit and the budget;
  -- or nothing is left and the envelope fits; or the answer is that the budget is too small. Then, if
  -- that least is not zero, not even one hit without its snippet fits, named or not; and if nothing is
  -- left, the envelope does not fit either.
  pub page_lem :
      (hits offset limit budget_limit : ℕ)
      → let result = page r hits offset limit budget_limit in
        let max_count = min (min (hits - offset) limit) budget_limit in
        ((hits < offset) × (result ≡ failed invalid_cursor))
        ⊎ ((offset ≤ hits)
            × (((text : Text) × (result ≡ rendered text) × IsPage max_count text)
                ⊎ Envelopes (hits - offset) max_count result))
  unfolding page
  page_lem hits offset limit budget_limit = elim (Bool-cases (ltb hits offset)) [
    | inl past ↦ rw (past, page) (inl (ltb→lt hits offset past, refl))
    | inr inside ↦ elim (Option-cases (snippet_page r m)) [
      | inr (text, e) ↦
          rw (inside, page, e) (inr (ground arith, inl (text, refl, snippet_page-IsPage m text e)))
      | inl s ↦ elim (Option-cases (locator_page r m false)) [
        | inr (text, e) ↦
            rw (inside, page, s, e)
              (inr (ground arith, inl (text, refl, locator_page-IsPage m false text e)))
        | inl f ↦ elim (Option-cases (locator_page r m true)) [
          | inr (text, e) ↦
              rw (inside, page, s, f, e)
                (inr (ground arith, inl (text, refl, locator_page-IsPage m true text e)))
          | inl t ↦
              rw (inside, page, s, f, t)
                (inr (ground arith, inr (envelope-cases (hits - offset) m f t)))
        ]
      ]
    ]
  ]
    where
      m : ℕ
      m = min (min (hits - offset) limit) budget_limit
