-- ===== src/Inference/Isolation.antt =====
-- The isolating path of src/semantic/inference/batch.rs: each input gets a result of its own, and a
-- batch that fails is halved until the failure is one input's.
-- The tokenizer, the model's `embed` and `Embedding::from_values`, which works on floats, are
-- parameters, as `Model`; `none` is their failure.
pub mod Halving
pub mod Total
use trufflepig.Prelude.{
  ℕ, zero, suc, ◌+◌, ◌-◌, ◌/◌, Bool, Option, none, some, List, [], ◌∷◌, map, if◌then◌else◌, ltb,
  nat_eq, length, set, take, drop,
}
use trufflepig.Inference.Batch.{
  Range, PlanError, planned, failed, plan_batch_ranges, max_input_tokens,
}

pub record Model (Text Vector Embedding : Type 0) : Type 0 where
  pub encode_len : Text → Option ℕ
  pub embed : List Text → Option (List Vector)
  pub from_values : Vector → Option Embedding

pub data InferError : Type 0 where
  tokenizer_failed embed_failed count_mismatch missing_output : InferError
  input_too_long invalid_output : ℕ → InferError
  plan_failed : PlanError → InferError

pub data Outcome {ℓ} (A : Type ℓ) : Type ℓ where
  ok : A → Outcome A
  err : InferError → Outcome A

-- An entry of `valid`, with the text that its index stands for.
pub record Entry (Text : Type 0) : Type 0 where
  pub index : ℕ
  pub token_count : ℕ
  pub text : Text

abbrev pub Results : Type 0 → Type 0
Results Embedding = List (Option (Outcome Embedding))

abbrev pub empty_results {ℓ} : {A : Type ℓ} (Embedding : Type 0) → List A → Results Embedding
empty_results Embedding [] = []
empty_results Embedding (x ∷ xs) = none ∷ empty_results Embedding xs

module _ {Text Vector Embedding : Type 0} (m : Model Text Vector Embedding) where
  unfoldable pub token_length : Text → ℕ → Outcome ℕ
  token_length text index = elim (m.encode_len text) [
    | none ↦ err tokenizer_failed
    | some count ↦ if ltb max_input_tokens count then err (input_too_long index) else ok count
  ]

  -- `collect` of the checked embeddings: the first that is not valid fails the batch.
  unfoldable pub checked : List Vector → List (Entry Text) → Outcome (List Embedding)
  checked [] batch = ok []
  checked (v ∷ vs) [] = ok []
  checked (v ∷ vs) (entry ∷ batch) =
      let rest = checked vs batch in
      elim (m.from_values v) [
        | none ↦ err (invalid_output entry.index)
        | some e ↦ elim rest [ ok es ↦ ok (e ∷ es) | err error ↦ err error ]
      ]

  unfoldable pub infer_one_planned_batch : List (Entry Text) → Outcome (List Embedding)
  unfolding checked
  infer_one_planned_batch batch = elim (m.embed (map (λ entry. entry.text) batch)) [
    | none ↦ err embed_failed
    | some vectors ↦
        if nat_eq (length vectors) (length batch) then checked vectors batch else err count_mismatch
  ]

  unfoldable pub write_all :
      List (Entry Text) → List Embedding → Results Embedding → Results Embedding
  write_all [] embeddings results = results
  write_all (entry ∷ batch) [] results = results
  write_all (entry ∷ batch) (e ∷ es) results =
      write_all batch es (set results entry.index (some (ok e)))

  unfoldable pub fail_all : InferError → List (Entry Text) → Results Embedding → Results Embedding
  fail_all error [] results = results
  fail_all error (entry ∷ batch) results =
      fail_all error batch (set results entry.index (some (err error)))

  -- `valid[range]` is the batch; the fuel is its length, which each half falls short of.
  unfoldable pub isolate_batch : ℕ → List (Entry Text) → Results Embedding → Results Embedding
  unfolding infer_one_planned_batch write_all fail_all
  isolate_batch zero batch results = results
  isolate_batch (suc fuel) batch results =
      let middle = length batch / 2 in
      let halves =
        isolate_batch fuel (drop middle batch) (isolate_batch fuel (take middle batch) results) in
      elim (infer_one_planned_batch batch) [
        | ok embeddings ↦ write_all batch embeddings results
        | err error ↦ if nat_eq (length batch) 1 then fail_all error batch results else halves
      ]

  unfoldable pub isolate_ranges :
      List (Entry Text) → List Range → Results Embedding → Results Embedding
  unfolding isolate_batch
  isolate_ranges valid [] results = results
  isolate_ranges valid (range ∷ ranges) results =
      let batch = take (range.end - range.start) (drop range.start valid) in
      isolate_ranges valid ranges (isolate_batch (length batch) batch results)

  -- The loop that sorts the inputs into valid ones and those with an error of their own.
  unfoldable pub measure : ℕ → List Text → Results Embedding → List (Entry Text) × Results Embedding
  unfolding token_length
  measure index [] results = ([], results)
  measure index (text ∷ texts) results = elim (token_length text index) [
    | ok count ↦
        let (valid, rest) = measure (index + 1) texts results in
        (record { index = index; token_count = count; text = text } ∷ valid, rest)
    | err error ↦ measure (index + 1) texts (set results index (some (err error)))
  ]

  -- `expect("every batch input has a result")`; `none` is its panic.
  unfoldable pub expect_all : Results Embedding → Option (List (Outcome Embedding))
  expect_all [] = some []
  expect_all (none ∷ results) = none
  expect_all (some outcome ∷ results) =
      let rest = expect_all results in
      elim rest [ none ↦ none | some outcomes ↦ some (outcome ∷ outcomes) ]

  unfoldable pub isolated_results : List Text → Results Embedding
  unfolding measure isolate_ranges fail_all
  isolated_results texts =
      let (valid, results) = measure 0 texts (empty_results Embedding texts) in
      elim (plan_batch_ranges (map (λ entry. entry.token_count) valid)) [
        | failed error ↦ fail_all (plan_failed error) valid results
        | planned ranges ↦ isolate_ranges valid ranges results
      ]

  unfoldable pub infer_batch_isolated : List Text → Option (List (Outcome Embedding))
  unfolding isolated_results expect_all
  infer_batch_isolated texts = expect_all (isolated_results texts)
