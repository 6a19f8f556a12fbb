-- ===== src/Worker/Requests/Validation.antt =====
-- Which requests src/semantic/worker/protocol.rs and check_rerank_bounds of src/semantic.rs accept.
use trufflepig.Prelude.{
  ℕ, suc, ◌+◌, ◌≤◌, ◌<◌, ◌≡◌, refl, List, [], ◌∷◌, none, length, arith, ◌↔◌, saturating_add,
}
use trufflepig.Worker.Requests.{
  WorkerCommand, status, stop, embed, rerank, check_documents, check_rerank_bounds, add_lengths,
  raw_input_bytes, validate_inputs, validate_command,
}

-- The bytes of all texts, in numbers without a bound.
abbrev pub total_length : List (List ℕ) → ℕ
total_length [] = 0
total_length (text ∷ texts) = length text + total_length texts

abbrev pub AllShort : List (List ℕ) → Type 0
AllShort [] = Unit
AllShort (document ∷ documents) = (length document ≤ 4096) × AllShort documents

-- A root, a deadline, and inputs within the limits.
abbrev pub Acceptable : WorkerCommand → Type 0
Acceptable status = Unit
Acceptable stop = Unit
Acceptable (embed class root_id texts deadline_ms) =
    (0 < length root_id)
    × ((0 < deadline_ms) × ((length texts ≤ 8) × (total_length texts ≤ 8_388_608)))
Acceptable (rerank root_id query documents deadline_ms) =
    (0 < length root_id)
    × ((0 < deadline_ms) × ((length documents ≤ 32) × ((length query ≤ 4096) × AllShort documents)))

-- The sum saturates far above the limit, so that it is within the limit when the true sum is.
add_lengths-within :
    (total : ℕ) (texts : List (List ℕ))
    → (add_lengths total texts ≤ 8_388_608) ↔ (total + total_length texts ≤ 8_388_608)
unfolding add_lengths
add_lengths-within total [] = (λ h. omega arith, λ h. omega arith)
add_lengths-within total (text ∷ texts) =
    let (to, from) = add_lengths-within (saturating_add total (length text)) texts in
    (λ h. let within = to h in ground arith, λ h. from (ground arith))

check_documents_iff :
    (index : ℕ) (documents : List (List ℕ))
    → (check_documents index documents ≡ none) ↔ AllShort documents
unfolding check_documents
check_documents_iff index [] = (λ e. tt, λ h. refl)
check_documents_iff index (document ∷ documents) =
    let (to, from) = check_documents_iff (suc index) documents in
    (λ e. (ground arith, to (ground arith)), λ (short, all). let rest = from all in ground arith)

-- A status or stop command is always valid. An embedding command is valid exactly when it names a
-- root and a deadline and has at most 8 texts of at most 8 MiB together; a rerank command, when it
-- names a root and a deadline, has at most 32 documents, and neither the query nor any document is
-- longer than 4,096 bytes.
pub validate_command_iff :
    (command : WorkerCommand) → (validate_command command ≡ none) ↔ Acceptable command
unfolding validate_command validate_inputs raw_input_bytes check_rerank_bounds
validate_command_iff status = (λ e. tt, λ h. refl)
validate_command_iff stop = (λ e. tt, λ h. refl)
validate_command_iff (embed class root_id texts deadline_ms) =
    let (to, from) = add_lengths-within 0 texts in
    let total_within : 0 + total_length texts ≤ 8_388_608 → total_length texts ≤ 8_388_608 =
      λ h. omega arith in
    (
      λ e. (ground arith, (ground arith, (ground arith, total_within (to (ground arith))))),
      λ (root, (deadline, (few, small))). let within = from (omega arith) in ground arith,
    )
validate_command_iff (rerank root_id query documents deadline_ms) =
    let (to, from) = check_documents_iff 0 documents in
    (
      λ e. (ground arith, (ground arith, (ground arith, (ground arith, to (ground arith))))),
      λ (root, (deadline, (few, (short, all)))). let documents_pass = from all in ground arith,
    )
