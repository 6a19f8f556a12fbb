-- ===== src/Inference/Isolation/Total.antt =====
-- Every input of `infer_batch_isolated` of src/semantic/inference/batch.rs gets a result.
use trufflepig.Prelude.{
  length-map, ℕ, zero, suc, ◌+◌, ◌-◌, ◌≤◌, ◌<◌, ◌≡◌, refl, sym, ◌∙◌, ap, subst, arith, none, some,
  List, [], ◌∷◌, ◌++◌, map, ltb, Bool-cases, inl, inr, ◌⊎◌, length, set, length-set, length-append,
  take, drop, length-drop,
}
use trufflepig.Inference.Batch.{Range}
use trufflepig.Inference.Batch.Cuts.{Cuts, plan_batch_ranges_lem}
use trufflepig.Inference.Isolation.{
  Model, Outcome, ok, err, Entry, Results, empty_results, token_length, fail_all, plan_failed,
  isolate_batch, isolate_ranges, measure, expect_all, isolated_results, infer_batch_isolated,
}
use trufflepig.Inference.Isolation.Halving.{
  IsFilled, IsKept, Fills, IsKept-refl, IsKept-trans, set-IsKept, set-IsFilled, AllBelow,
  AllBelow-take, AllBelow-drop, AllFilled, both-Fills, no_batch, isolate_batch-Fills,
  fail_all-Fills,
}

abbrev no_items : (A : Type 0) → List A
no_items A = []

drop_nil : {A : Type 0} (k : ℕ) → drop k (no_items A) ≡ []
drop_nil zero = refl
drop_nil (suc k) = refl

shift : (n k : ℕ) → suc (n + k) ≡ suc n + k
shift n k = omega arith

drop-drop : {A : Type 0} (k n : ℕ) (xs : List A) → drop k (drop n xs) ≡ drop (n + k) xs
drop-drop k zero xs = ap (λ i. drop i xs) (omega arith)
drop-drop k (suc n) [] = drop_nil k ∙ sym (drop_nil (suc n + k))
drop-drop k (suc n) (x ∷ xs) = drop-drop k n xs ∙ ap (λ i. drop i (x ∷ xs)) (shift n k)

-- The batch of a range is the first of what is left from `start`.
pub batch_at :
    {A : Type 0} (start count : ℕ) (range : Range) (xs : List A)
    → range.start ≡ start
    → range.end ≡ start + count
    → take (range.end - range.start) (drop range.start xs) ≡ take count (drop start xs)
batch_at start count range xs s e =
    ap (λ i. take (range.end - i) (drop i xs)) s ∙ ap (λ n. take n (drop start xs)) (omega arith)

pub left_length :
    {A : Type 0} {tokens : List ℕ} (batch left : List ℕ) (start end : ℕ) (valid : List A)
    → tokens ≡ batch ++ left
    → length tokens ≡ length (drop start valid)
    → end ≡ start + length batch
    → length left ≡ length (drop end valid)
left_length batch left start end valid split l e = omega (
  arith,
  l,
  e,
  ap length split,
  length-append batch left,
  length-drop start valid,
  length-drop end valid,
)

at_or_after : {index j : ℕ} → index ≤ j → (index ≡ j) ⊎ (index + 1 ≤ j)
at_or_after {index = index} {j = j} h = elim (Bool-cases (ltb index j)) [
  | inl after ↦ inr (ground arith)
  | inr at ↦ inl (ground arith)
]

-- What the loop over `texts` leaves, for the inputs from `index` on: each has a result or is valid.
record Measured {Text Embedding : Type 0} (index count : ℕ) (r : Results Embedding)
    (out : List (Entry Text) × Results Embedding) : Type 0 where
  kept : IsKept r out.1
  below : AllBelow (length r) out.0
  covers :
      (t : Results Embedding)
      → IsKept out.1 t
      → AllFilled out.0 t
      → (j : ℕ) → index ≤ j
      → j < index + count
      → IsFilled t j

module _ {Text Vector Embedding : Type 0} (m : Model Text Vector Embedding) where
  isolate_ranges-Fills :
      (valid : List (Entry Text)) (start : ℕ) (tokens : List ℕ) (ranges : List Range)
      (r : Results Embedding)
      → length tokens ≡ length (drop start valid)
      → Cuts start tokens ranges
      → AllBelow (length r) valid
      → Fills (drop start valid) r (isolate_ranges m valid ranges r)
  unfolding isolate_ranges
  isolate_ranges-Fills valid start tokens [] r l c b =
      no_batch m (drop start valid) r (omega (arith, l, ap length c))
  isolate_ranges-Fills valid start tokens (range ∷ ranges) r l
        (batch, left, split, fits, full, s, e, c) b =
      let part = take (range.end - range.start) (drop range.start valid) in
      let below =
        AllBelow-take (range.end - range.start) (length r) (drop range.start valid)
          (AllBelow-drop range.start (length r) valid b) in
      let f = isolate_batch-Fills m (length part) part r (omega arith) below in
      let t = isolate_batch m (length part) part r in
      let g =
        isolate_ranges-Fills valid range.end left ranges t
          (left_length batch left start range.end valid split l e) c
          (subst (λ n. AllBelow n valid) (sym f.kept.same_length) b) in
      both-Fills m (length batch) (drop start valid)
        (subst (λ p. Fills p r t) (batch_at start (length batch) range valid s e) f)
        (subst (λ p. Fills p t (isolate_ranges m valid ranges t))
          (sym (drop-drop (length batch) start valid ∙ ap (λ i. drop i valid) (sym e))) g)

  measure-Measured :
      (index : ℕ) (texts : List Text) (r : Results Embedding)
      → index + length texts ≤ length r
      → Measured index (length texts) r (measure m index texts r)
  unfolding measure
  measure-Measured index [] r h = record {
    kept = IsKept-refl r;
    below = tt;
    covers = λ t k f j from to. absurd (omega arith);
  }
  measure-Measured index (text ∷ texts) r h =
      by_outcome (token_length m text index) refl (measure-Measured (index + 1) texts)
    where
      by_outcome :
          (o : Outcome ℕ)
          → token_length m text index ≡ o
          → ((s : Results Embedding)
              → index + 1 + length texts ≤ length s
              → Measured (index + 1) (length texts) s (measure m (index + 1) texts s))
          → Measured index (suc (length texts)) r (measure m index (text ∷ texts) r)
      by_outcome (ok count) e ih =
          let g = ih r (omega arith) in
          rw (e, measure)
            (record {
              kept = g.kept;
              below = (omega arith, g.below);
              covers = λ t k f j from to. elim (at_or_after from) [
                | inl same ↦ subst (IsFilled t) same f.0
                | inr after ↦ g.covers t k f.1 j after (omega arith)
              ];
            })
      by_outcome (err error) e ih =
          let s = set r index (some (err error)) in
          let g = ih s (rw length-set (omega arith)) in
          rw (e, measure)
            (record {
              kept = IsKept-trans (set-IsKept r index (err error)) g.kept;
              below =
                  subst (λ n. AllBelow n (measure m (index + 1) texts s).0)
                    (length-set r index (some (err error))) g.below;
              covers = λ t k f j from to. elim (at_or_after from) [
                | inl same ↦ subst (IsFilled t) same (
                    k.keeps index
                      (g.kept.keeps index (set-IsFilled r index (err error) (omega arith))))
                | inr after ↦ g.covers t k f j after (omega arith)
              ];
            })

  length-empty_results : (texts : List Text) → length (empty_results Embedding texts) ≡ length texts
  length-empty_results [] = refl
  length-empty_results (text ∷ texts) = ap suc (length-empty_results texts)

  -- The batches of the plan, or its error, give each valid input a result.
  isolated_results-IsFilled :
      (texts : List Text)
      → (length (isolated_results m texts) ≡ length texts)
        × ((i : ℕ) → i < length texts → IsFilled (isolated_results m texts) i)
  unfolding isolated_results
  isolated_results-IsFilled texts =
      let start = empty_results Embedding texts in
      let (valid, r) = measure m 0 texts start in
      let g = measure-Measured 0 texts start (rw length-empty_results (omega arith)) in
      let below = subst (λ n. AllBelow n valid) (sym g.kept.same_length) g.below in
      let counts = map (λ entry. entry.token_count) valid in
      elim (plan_batch_ranges_lem counts) [
        | inl (short, (ranges, e, c)) ↦
            let f =
              isolate_ranges-Fills valid 0 counts ranges r
                (length-map (λ entry. entry.token_count) valid) c below in
            rw (e, isolated_results)
              (
                f.kept.same_length ∙ g.kept.same_length ∙ length-empty_results texts,
                λ i h.
                    g.covers (isolate_ranges m valid ranges r) f.kept f.filled i (omega arith)
                      (omega (arith, h)),
              )
        | inr (error, e, first) ↦
            let f = fail_all-Fills m (plan_failed error) valid r below in
            rw (e, isolated_results)
              (
                f.kept.same_length ∙ g.kept.same_length ∙ length-empty_results texts,
                λ i h.
                    g.covers (fail_all m (plan_failed error) valid r) f.kept f.filled i
                      (omega arith) (omega (arith, h)),
              )
      ]

  expect_all-some :
      (results : Results Embedding)
      → ((i : ℕ) → i < length results → IsFilled results i)
      → (outcomes : List (Outcome Embedding)) × (expect_all m results ≡ some outcomes)
        × (length outcomes ≡ length results)
  unfolding expect_all
  expect_all-some [] h = ([], refl, refl)
  expect_all-some (none ∷ results) h = absurd (ground (arith, (h 0 (omega arith)).1))
  expect_all-some (some outcome ∷ results) h =
      let (outcomes, e, l) = expect_all-some results (λ i b. h (suc i) (omega arith)) in
      (outcome ∷ outcomes, rw e refl, ap suc l)

  -- `infer_batch_isolated` returns on every list of texts, whatever the tokenizer and the model return,
  -- with one outcome for each text: no slot is left empty, so that `expect` does not panic, and the
  -- halving of failed batches ends.
  pub every_input_has_outcome :
      (texts : List Text)
      → (outcomes : List (Outcome Embedding)) × (infer_batch_isolated m texts ≡ some outcomes)
        × (length outcomes ≡ length texts)
  unfolding infer_batch_isolated
  every_input_has_outcome texts =
      let (l, filled) = isolated_results-IsFilled texts in
      let (outcomes, e, same) =
        expect_all-some (isolated_results m texts) (λ i h. filled i (omega (arith, l, h))) in
      (outcomes, e, same ∙ l)
