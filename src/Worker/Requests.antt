-- ===== src/Worker/Requests.antt =====
-- src/semantic/worker/protocol.rs and check_rerank_bounds of src/semantic.rs: the requests of a client,
-- validated on both sides of the socket, and the replies. JSON is an external library: its writer and
-- its reader are arguments. A text is the list of its bytes.
pub mod Delivery
pub mod Validation
use trufflepig.Prelude.{
  ℕ, suc, Bool, List, [], ◌∷◌, Option, none, some, if◌then◌else◌, ltb, leb, nat_eq, length,
  saturating_add,
}
use trufflepig.Worker.Frames.{
  Event, WriteRun, FrameError, done, refused, pending, frame_limit, written, rejected, waiting,
  read_frame_with_deadline, write_frame_with_deadline, write_frame,
}
use trufflepig.Worker.Scheduler.{RequestClass}

abbrev pub max_inputs : ℕ
max_inputs = 8

abbrev pub max_raw_input_bytes : ℕ
max_raw_input_bytes = 8_388_608

abbrev pub rerank_max_documents : ℕ
rerank_max_documents = 32

abbrev pub rerank_max_document_bytes : ℕ
rerank_max_document_bytes = 4096

pub record Handshake : Type 0 where
  pub protocol : ℕ
  pub build : List ℕ
  pub config : List ℕ
  pub model : List ℕ

pub data WorkerCommand : Type 0 where
  status stop : WorkerCommand
  embed :
      RequestClass
      → (root_id : List ℕ) → (texts : List (List ℕ)) → (deadline_ms : ℕ) → WorkerCommand
  rerank :
      (root_id query : List ℕ) → (documents : List (List ℕ)) → (deadline_ms : ℕ) → WorkerCommand

pub record WorkerRequest : Type 0 where
  pub handshake : Handshake
  pub command : WorkerCommand

-- `S` is `WorkerStatus`, and `F` is `f32`.
pub data WorkerReply (S F : Type 0) : Type 0 where
  worker_status : S → WorkerReply S F
  embeddings : List (List F) → WorkerReply S F
  scores : List F → WorkerReply S F
  error : List ℕ → WorkerReply S F

-- One constructor for each `ensure!` and `bail!`, in order.
pub data Refusal : Type 0 where
  no_root no_deadline too_many_inputs too_many_bytes : Refusal
  rerank_no_root rerank_no_deadline : Refusal
  too_many_documents query_too_long : ℕ → Refusal
  document_too_long : (index bytes : ℕ) → Refusal

-- The loop of `check_rerank_bounds`; `index` counts the documents before.
unfoldable pub check_documents : ℕ → List (List ℕ) → Option Refusal
check_documents index [] = none
check_documents index (document ∷ documents) =
    let rest = check_documents (suc index) documents in
    if ltb rerank_max_document_bytes (length document)
    then some (document_too_long index (length document))
    else rest

-- `none` is `Ok(())`.
unfoldable pub check_rerank_bounds : List ℕ → List (List ℕ) → Option Refusal
unfolding check_documents
check_rerank_bounds query documents =
    if ltb rerank_max_documents (length documents)
    then some (too_many_documents (length documents))
    else if ltb rerank_max_document_bytes (length query)
    then some (query_too_long (length query))
    else check_documents 0 documents

unfoldable pub add_lengths : ℕ → List (List ℕ) → ℕ
add_lengths total [] = total
add_lengths total (text ∷ texts) = add_lengths (saturating_add total (length text)) texts

unfoldable pub raw_input_bytes : List (List ℕ) → ℕ
unfolding add_lengths
raw_input_bytes texts = add_lengths 0 texts

unfoldable pub validate_inputs : List (List ℕ) → Option Refusal
unfolding raw_input_bytes
validate_inputs texts =
    if leb (length texts) max_inputs
    then if leb (raw_input_bytes texts) max_raw_input_bytes then none else some too_many_bytes
    else some too_many_inputs

unfoldable pub validate_command : WorkerCommand → Option Refusal
unfolding validate_inputs check_rerank_bounds
validate_command status = none
validate_command stop = none
validate_command (embed class root_id texts deadline_ms) =
    if nat_eq (length root_id) 0
    then some no_root
    else if nat_eq deadline_ms 0
    then some no_deadline
    else validate_inputs texts
validate_command (rerank root_id query documents deadline_ms) =
    if nat_eq (length root_id) 0
    then some rerank_no_root
    else if nat_eq deadline_ms 0
    then some rerank_no_deadline
    else check_rerank_bounds query documents

pub data RequestError : Type 0 where
  invalid : Refusal → RequestError
  not_encoded not_decoded : RequestError
  frame : FrameError → RequestError

-- `unsent` is a call that is still waiting for the socket.
pub data SendRun : Type 0 where
  sent : List ℕ → List Event → SendRun
  not_sent : RequestError → SendRun
  unsent : SendRun

pub data ReceiveRun (A : Type 0) : Type 0 where
  received : A → List ℕ → List Event → ReceiveRun A
  not_received : RequestError → ReceiveRun A
  awaited : ReceiveRun A

abbrev sending : WriteRun → SendRun
sending (written out left) = sent out left
sending (rejected e) = not_sent (frame e)
sending waiting = unsent

-- `to_vec` is `serde_json::to_vec`, at the instant `now` of the flush.
unfoldable pub write_request_with_deadline :
    (WorkerRequest → Option (List ℕ)) → ℕ → WorkerRequest → List Event → ℕ → Bool → SendRun
unfolding validate_command write_frame_with_deadline
write_request_with_deadline to_vec deadline request events now flushes =
    elim (validate_command request.command) [
      | some refusal ↦ not_sent (invalid refusal)
      | none ↦ elim (to_vec request) [
        | none ↦ not_sent not_encoded
        | some bytes ↦ sending (write_frame_with_deadline deadline bytes [] events now flushes)
      ]
    ]

-- What `read_request_with_deadline` does with the bytes of a frame.
abbrev pub accept : WorkerRequest → List ℕ → List Event → ReceiveRun WorkerRequest
accept request rest left = elim (validate_command request.command) [
  | some refusal ↦ not_received (invalid refusal)
  | none ↦ received request rest left
]

-- `from_slice` is `serde_json::from_slice`.
unfoldable pub read_request_with_deadline :
    (List ℕ → Option WorkerRequest) → ℕ → List ℕ → List Event → ReceiveRun WorkerRequest
unfolding validate_command read_frame_with_deadline
read_request_with_deadline from_slice deadline stream events =
    elim (read_frame_with_deadline deadline stream events) [
      | done bytes rest left ↦ elim (from_slice bytes) [
        | none ↦ not_received not_decoded
        | some request ↦ accept request rest left
      ]
      | refused e ↦ not_received (frame e)
      | pending ↦ awaited
    ]

unfoldable pub read_reply_with_deadline :
    {S F : Type 0}
    → (List ℕ → Option (WorkerReply S F))
    → ℕ
    → List ℕ
    → List Event
    → ReceiveRun (WorkerReply S F)
unfolding read_frame_with_deadline
read_reply_with_deadline from_slice deadline stream events =
    elim (read_frame_with_deadline deadline stream events) [
      | done bytes rest left ↦ elim (from_slice bytes) [
        | none ↦ not_received not_decoded
        | some reply ↦ received reply rest left
      ]
      | refused e ↦ not_received (frame e)
      | pending ↦ awaited
    ]

-- `too_large` is the text "worker reply exceeds 1 MiB".
unfoldable pub write_reply :
    {S F : Type 0}
    → (WorkerReply S F → Option (List ℕ))
    → List ℕ
    → WorkerReply S F
    → List ℕ
    → SendRun
unfolding write_frame
write_reply to_vec too_large reply out =
    let instead : SendRun = elim (to_vec (error too_large)) [
      | none ↦ not_sent not_encoded
      | some bytes ↦ sending (write_frame bytes out)
    ] in
    elim (to_vec reply) [
      | none ↦ not_sent not_encoded
      | some bytes ↦
          if leb (length bytes) frame_limit then sending (write_frame bytes out) else instead
    ]
