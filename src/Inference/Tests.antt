-- ===== src/Inference/Tests.antt =====
-- Runs of the model of src/semantic/inference, and its theorem at a concrete input.
use trufflepig.Prelude.{
  ℕ, ◌+◌, ◌≡◌, ◌⊎◌, refl, Bool, true, false, some, none, List, [], ◌∷◌, length, nat_eq,
  if◌then◌else◌,
}
use trufflepig.Inference.Batch.{Range, PlanError, planned, failed, too_long, plan_batch_ranges}
use trufflepig.Inference.Batch.Cuts.{AllShort, Cuts, FirstLong, plan_batch_ranges_lem}
use trufflepig.Inference.Isolation.{
  Model, InferError, Outcome, ok, err, embed_failed, tokenizer_failed, infer_batch_isolated,
}
use trufflepig.Inference.Isolation.Total.{every_input_has_outcome}
use trufflepig.Inference.Whole.{infer_batch, infer, infer_lem}

abbrev holds : ℕ → List ℕ → Bool
holds x [] = false
holds x (y ∷ ys) = if nat_eq x y then true else holds x ys

-- The third input would pad the batch past its limit.
plan_runs :
    plan_batch_ranges (4000 ∷ 10 ∷ 4096 ∷ 7 ∷ [])
    ≡ planned (record { start = 0; end = 2 } ∷ record { start = 2; end = 4 } ∷ [])
unfolding plan_batch_ranges
plan_runs = refl

plan_refuses : plan_batch_ranges (1 ∷ 5000 ∷ []) ≡ failed (too_long 1 5000)
unfolding plan_batch_ranges
plan_refuses = refl

plan_batch_ranges_lem_example :
    (AllShort (4000 ∷ 4096 ∷ [])
      × ((ranges : List Range) × (plan_batch_ranges (4000 ∷ 4096 ∷ []) ≡ planned ranges)
          × Cuts 0 (4000 ∷ 4096 ∷ []) ranges))
    ⊎ ((error : PlanError) × (plan_batch_ranges (4000 ∷ 4096 ∷ []) ≡ failed error)
        × FirstLong 0 (4000 ∷ 4096 ∷ []) error)
plan_batch_ranges_lem_example = plan_batch_ranges_lem (4000 ∷ 4096 ∷ [])

-- A tokenizer that fails on 9, and a model that fails on any batch that holds 5.
abbrev flaky : Model ℕ ℕ ℕ
flaky = record {
  encode_len = λ text. if nat_eq text 9 then none else some text;
  embed = λ batch. if holds 5 batch then none else some batch;
  from_values = λ vector. some (vector + 100);
}

isolation_runs :
    infer_batch_isolated flaky (1 ∷ 5 ∷ 9 ∷ 2 ∷ [])
    ≡ some (ok 101 ∷ err embed_failed ∷ err tokenizer_failed ∷ ok 102 ∷ [])
unfolding infer_batch_isolated plan_batch_ranges
isolation_runs = refl

every_input_has_outcome_example :
    (outcomes : List (Outcome ℕ)) × (infer_batch_isolated flaky (1 ∷ 5 ∷ 9 ∷ 2 ∷ [])
      ≡ some outcomes)
    × (length outcomes ≡ 4)
every_input_has_outcome_example = every_input_has_outcome flaky (1 ∷ 5 ∷ 9 ∷ 2 ∷ [])

abbrev two_embeddings : List ℕ
two_embeddings = 101 ∷ 102 ∷ []

whole_runs : infer_batch flaky (1 ∷ 2 ∷ []) ≡ ok two_embeddings
unfolding infer_batch plan_batch_ranges
whole_runs = refl

infer_lem_example :
    ((error : InferError) × (infer_batch flaky (7 ∷ []) ≡ err error) × (infer flaky 7 ≡ err error))
    ⊎ ((e : ℕ) × (infer_batch flaky (7 ∷ []) ≡ ok (e ∷ [])) × (infer flaky 7 ≡ ok e))
infer_lem_example = infer_lem flaky 7
