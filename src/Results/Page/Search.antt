-- ===== src/Results/Page/Search.antt =====
-- `largest_fitting` of src/results/page.rs.
use trufflepig.Prelude.{
  ℕ, zero, suc, ◌+◌, ◌-◌, ◌≤◌, ◌<◌, ◌≡◌, refl, ◌⊎◌, inl, inr, arith, Bool, true, false, Bool-cases,
  ltb, ltb→lt, subst,
}
use trufflepig.Results.Page.{search, largest_fitting, half_up}

-- Where the search ends, started between `low`, which fits or is zero, and `high`, above which
-- something does not fit or is out of range.
record Stops (fits : ℕ → Bool) (low high out : ℕ) : Type 0 where
  least : low ≤ out
  most : out ≤ high
  below : (out ≡ low) ⊎ (fits out ≡ true)
  above : (out ≡ high) ⊎ (fits (out + 1) ≡ false)

after_fit :
    (fits : ℕ → Bool) (low high : ℕ) {out : ℕ}
    → low < high
    → fits (low + half_up (high - low)) ≡ true
    → Stops fits (low + half_up (high - low)) high out
    → Stops fits low high out
after_fit fits low high h ok s = record {
  least = omega (arith, s.least);
  most = s.most;
  below = elim s.below [ inl e ↦ inr (rw e ok) | inr f ↦ inr f ];
  above = s.above;
}

after_miss :
    (fits : ℕ → Bool) (low high : ℕ) {out : ℕ}
    → low < high
    → fits (low + half_up (high - low)) ≡ false
    → Stops fits low (low + half_up (high - low) - 1) out
    → Stops fits low high out
after_miss fits low high {out} h miss s = record {
  least = s.least;
  most = omega (arith, s.most);
  below = s.below;
  above = elim s.above [
    | inl e ↦ inr (subst (λ k. fits k ≡ false) {x = low + half_up (high - low)} (omega arith) miss)
    | inr f ↦ inr f
  ];
}

search-Stops :
    (fuel : ℕ) (fits : ℕ → Bool) (low high : ℕ)
    → low ≤ high
    → high - low ≤ fuel
    → Stops fits low high (search fuel fits low high)
unfolding search
search-Stops zero fits low high h enough = record {
  least = omega arith;
  most = h;
  below = inl refl;
  above = inl (omega arith);
}
search-Stops (suc fuel) fits low high h enough = elim (Bool-cases (ltb low high)) [
  | inl open_range ↦ elim (Bool-cases (fits (low + half_up (high - low)))) [
    | inl ok ↦
        rw (open_range, ok)
          (after_fit fits low high (ltb→lt low high open_range) ok (
            search-Stops fuel fits (low + half_up (high - low)) high (ground arith) (ground arith)))
    | inr no_fit ↦
        rw (open_range, no_fit)
          (after_miss fits low high (ltb→lt low high open_range) no_fit (
            search-Stops fuel fits low (low + half_up (high - low) - 1) (ground arith)
              (ground arith)))
  ]
  | inr closed ↦
      rw closed
        (record { least = omega arith; most = h; below = inl refl; above = inl (ground arith) })
]

next_false :
    (fits : ℕ → Bool)
    → ((n : ℕ) → fits (n + 1) ≡ true → fits n ≡ true)
    → (n : ℕ) → fits n ≡ false
    → fits (n + 1) ≡ false
next_false fits down n h = elim (Bool-cases (fits (n + 1))) [
  | inl t ↦ let p = down n t in cc
  | inr f ↦ f
]

stays_false :
    (fits : ℕ → Bool)
    → ((n : ℕ) → fits (n + 1) ≡ true → fits n ≡ true)
    → (n d : ℕ) → fits n ≡ false
    → fits (n + d) ≡ false
stays_false fits down n zero h = subst (λ k. fits k ≡ false) (omega arith) h
stays_false fits down n (suc d) h =
    subst (λ k. fits k ≡ false) {x = n + d + 1} (omega arith)
      (next_false fits down (n + d) (stays_false fits down n d h))

-- Whatever `fits` answers, `largest_fitting` returns a count in range that fits, or zero, and the
-- next count is out of range or does not fit. Where fitting passes down to smaller counts, no
-- larger count in range fits.
pub largest_fitting_lem :
    (max_count : ℕ) (fits : ℕ → Bool)
    → let out = largest_fitting max_count fits in
      (out ≤ max_count)
      × ((out ≡ 0) ⊎ (fits out ≡ true))
      × ((out ≡ max_count) ⊎ (fits (out + 1) ≡ false))
      × (((n : ℕ) → fits (n + 1) ≡ true → fits n ≡ true)
          → (k : ℕ) → out < k
          → k ≤ max_count
          → fits k ≡ false)
unfolding largest_fitting
largest_fitting_lem max_count fits =
    let s = search-Stops max_count fits 0 max_count (omega arith) (omega arith) in
    (
      s.most,
      s.below,
      s.above,
      λ down k lt le. elim s.above [
        | inl e ↦ absurd (omega arith)
        | inr f ↦
            subst (λ n. fits n ≡ false)
              {x = search max_count fits 0 max_count
                + 1
                + (k - (search max_count fits 0 max_count + 1))}
              (omega arith)
              (stays_false fits down (search max_count fits 0 max_count + 1)
                (k - (search max_count fits 0 max_count + 1)) f)
      ],
    )
