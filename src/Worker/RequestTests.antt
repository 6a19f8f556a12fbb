-- ===== src/Worker/RequestTests.antt =====
-- Runs of the requests of src/semantic/worker/protocol.rs.
use trufflepig.Prelude.{
  ℕ, zero, suc, ◌≡◌, ◌↔◌, refl, true, List, [], ◌∷◌, ◌++◌, Option, none, some, arith,
}
use trufflepig.Worker.Frames.{Event, moves, blocks}
use trufflepig.Worker.Frames.RoundTrip.{Prompt}
use trufflepig.Worker.Scheduler.{background}
use trufflepig.Worker.Requests.{
  WorkerCommand, WorkerRequest, status, stop, embed, rerank, no_deadline, too_many_inputs,
  document_too_long, too_many_documents, rerank_no_root, sent, received, not_sent, invalid,
  validate_command, validate_inputs, raw_input_bytes, add_lengths, check_rerank_bounds,
  check_documents, write_request_with_deadline, read_request_with_deadline,
}
use trufflepig.Worker.Requests.Delivery.{read_request-write_request}
use trufflepig.Worker.Requests.Validation.{Acceptable, validate_command_iff}

abbrev repeated : ℕ → List ℕ
repeated zero = []
repeated (suc n) = 7 ∷ repeated n

abbrev short_texts : ℕ → List (List ℕ)
short_texts zero = []
short_texts (suc n) = (1 ∷ []) ∷ short_texts n

eight_inputs : validate_command (embed background (5 ∷ []) (short_texts 8) 900) ≡ none
unfolding validate_command validate_inputs raw_input_bytes add_lengths
eight_inputs = refl

nine_inputs :
    validate_command (embed background (5 ∷ []) (short_texts 9) 900) ≡ some too_many_inputs
unfolding validate_command validate_inputs
nine_inputs = refl

deadline_missing : validate_command (embed background (5 ∷ []) (short_texts 9) 0) ≡ some no_deadline
unfolding validate_command
deadline_missing = refl

root_missing : validate_command (rerank [] (1 ∷ []) [] 0) ≡ some rerank_no_root
unfolding validate_command
root_missing = refl

too_many : check_rerank_bounds [] (short_texts 33) ≡ some (too_many_documents 33)
unfolding check_rerank_bounds
too_many = refl

long_document : check_documents 0 ((1 ∷ []) ∷ repeated 4097 ∷ []) ≡ some (document_too_long 1 4097)
unfolding check_documents
long_document = refl

-- A codec for the requests of one text that is the root.
abbrev encode : WorkerRequest → Option (List ℕ)
encode request = elim request.command [
  | status ↦ some (0 ∷ [])
  | stop ↦ some (1 ∷ [])
  | embed class root_id texts deadline_ms ↦ some (2 ∷ deadline_ms ∷ root_id)
  | rerank root_id query documents deadline_ms ↦ none
]

abbrev command_of : List ℕ → Option WorkerCommand
command_of (zero ∷ []) = some status
command_of (suc zero ∷ []) = some stop
command_of (suc (suc zero) ∷ deadline_ms ∷ root_id) =
    some (embed background root_id (root_id ∷ []) deadline_ms)
command_of other = none

abbrev with_command : WorkerCommand → WorkerRequest
with_command command = record {
  handshake = record { protocol = 1; build = []; config = []; model = [] };
  command = command;
}

abbrev decode : List ℕ → Option WorkerRequest
decode bytes = elim (command_of bytes) [ none ↦ none | some command ↦ some (with_command command) ]

abbrev embed_one : WorkerRequest
embed_one = with_command (embed background (6 ∷ 7 ∷ []) ((6 ∷ 7 ∷ []) ∷ []) 90)

-- Calls at instant 5 that move three bytes at most, a call that blocks before each.
abbrev triples : ℕ → List Event
triples zero = []
triples (suc n) =
    record { now = 5; outcome = blocks } ∷ record { now = 5; outcome = moves 3 } ∷ triples n

triples-Prompt : (n : ℕ) → Prompt 9 (triples n)
triples-Prompt zero = tt
triples-Prompt (suc n) = (omega arith, (tt, (omega arith, (omega arith, triples-Prompt n))))

embed_one_valid : validate_command embed_one.command ≡ none
unfolding validate_command validate_inputs raw_input_bytes add_lengths
embed_one_valid = refl

read_request-write_request_example :
    (frame : List ℕ) × (((unwritten : List Event) × (write_request_with_deadline encode 9 embed_one
            (triples 8)
            6
            true
          ≡ sent frame unwritten))
      × ((unread : List Event) × (read_request_with_deadline decode 9 (frame ++ 8 ∷ []) (triples 8)
            ≡ received embed_one (8 ∷ []) unread)))
read_request-write_request_example =
    read_request-write_request encode decode embed_one (2 ∷ 90 ∷ 6 ∷ 7 ∷ []) refl refl
      embed_one_valid (omega arith) 9 (triples 8) (triples 8) (8 ∷ []) 6 (triples-Prompt 8)
      (triples-Prompt 8) (omega arith) (omega arith) (omega arith)

validate_command_iff_example :
    (validate_command (rerank (5 ∷ []) (1 ∷ []) (short_texts 32) 900) ≡ none)
    ↔ Acceptable (rerank (5 ∷ []) (1 ∷ []) (short_texts 32) 900)
validate_command_iff_example = validate_command_iff (rerank (5 ∷ []) (1 ∷ []) (short_texts 32) 900)

-- Neither end lets an invalid command through.
not_written :
    write_request_with_deadline encode 9
      (with_command (embed background (5 ∷ []) (short_texts 9) 900))
      []
      6
      true
    ≡ not_sent (invalid too_many_inputs)
unfolding write_request_with_deadline validate_command validate_inputs
not_written = refl
