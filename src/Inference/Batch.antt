-- ===== src/Inference/Batch.antt =====
-- src/semantic/inference/batch.rs: how inputs are cut into batches for the model.
-- A loop over `token_lengths[start..]` recurs on that rest of the list.
pub mod Cuts
pub use trufflepig.Prelude.Lists.{Range}
use trufflepig.Prelude.{
  ℕ, zero, suc, ◌+◌, ◌-◌, ◌*◌, min, max, Bool, true, false, Option, none, some, List, [], ◌∷◌,
  if◌then◌else◌, ltb, length, max_usize, saturating_mul, map, get_elem?,
}

abbrev pub max_batch_inputs : ℕ
max_batch_inputs = 8

abbrev pub max_batch_padded_tokens : ℕ
max_batch_padded_tokens = 8192

abbrev pub max_input_tokens : ℕ
max_input_tokens = 4096

pub data PlanError : Type 0 where
  too_long : ℕ → ℕ → PlanError
  cannot_fit : ℕ → PlanError
  out_of_fuel : PlanError

pub data Plan : Type 0 where
  planned : List Range → Plan
  failed : PlanError → Plan

-- The first loop: the first input over the limit, with its index and length.
unfoldable pub find_too_long : ℕ → List ℕ → Option PlanError
find_too_long index [] = none
find_too_long index (token_count ∷ rest) =
    if ltb max_input_tokens token_count
    then some (too_long index token_count)
    else find_too_long (index + 1) rest

-- The inner loop, from `end` with the lengths that are left. It returns the last `end` and what is
-- left behind it.
unfoldable pub grow : ℕ → ℕ → ℕ → List ℕ → ℕ × List ℕ
grow start end padded_tokens [] = (end, [])
grow start end padded_tokens (token_count ∷ rest) =
    let candidate_max = max padded_tokens token_count in
    let candidate_count = end - start + 1 in
    let grown = grow start (end + 1) candidate_max rest in
    if ltb (end - start) max_batch_inputs
    then if ltb max_batch_padded_tokens (saturating_mul candidate_max candidate_count)
      then (end, token_count ∷ rest)
      else grown
    else (end, token_count ∷ rest)

abbrev pub prepend : Range → Plan → Plan
prepend range (planned ranges) = planned (range ∷ ranges)
prepend range (failed error) = failed error

-- The outer loop. `Cuts.plan_batch_ranges_lem` shows that the fuel is enough.
unfoldable pub plan_from : ℕ → ℕ → List ℕ → Plan
unfolding grow
plan_from fuel start [] = planned []
plan_from zero start (token_count ∷ rest) = failed out_of_fuel
plan_from (suc fuel) start (token_count ∷ rest) =
    let (end, left) = grow start start 0 (token_count ∷ rest) in
    let planned_rest = plan_from fuel end left in
    if ltb start end
    then prepend (record { start = start; end = end }) planned_rest
    else failed (cannot_fit start)

unfoldable pub plan_batch_ranges : List ℕ → Plan
unfolding find_too_long plan_from
plan_batch_ranges token_lengths = elim (find_too_long 0 token_lengths) [
  | some error ↦ failed error
  | none ↦ plan_from (length token_lengths) 0 token_lengths
]
