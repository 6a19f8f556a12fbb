-- ===== src/Worker/Requests/Delivery.antt =====
-- A valid request of src/semantic/worker/protocol.rs that a client writes is the one that the worker
-- reads.
use trufflepig.Prelude.{ℕ, ◌+◌, ◌≤◌, ◌<◌, ◌≡◌, refl, true, List, ◌++◌, Option, none, some, length}
use trufflepig.Worker.Frames.{Event, frame_limit}
use trufflepig.Worker.Frames.RoundTrip.{Prompt, moves_in, read_frame-write_frame}
use trufflepig.Worker.Requests.{
  WorkerRequest, accept, sent, received, validate_command, write_request_with_deadline,
  read_request_with_deadline,
}

module _ (to_vec : WorkerRequest → Option (List ℕ)) (from_slice : List ℕ → Option WorkerRequest)
    (request : WorkerRequest) (bytes : List ℕ) (encoded : to_vec request ≡ some bytes)
    (decoded : from_slice bytes ≡ some request) (valid : validate_command request.command ≡ none)
    (small : length bytes ≤ frame_limit) (deadline : ℕ) where
  -- A valid request whose JSON fits a frame and is read back by the JSON reader, written to an empty stream and read from
  -- it by calls that move the frame in any pieces before the deadline, is received: with enough
  -- calls both ends finish, the worker has the client's request, and what follows is left.
  pub read_request-write_request :
      (writes reads : List Event) (rest : List ℕ) (now : ℕ)
      → Prompt deadline writes
      → Prompt deadline reads
      → 4 + length bytes ≤ moves_in writes
      → 4 + length bytes ≤ moves_in reads
      → now < deadline
      → (frame : List ℕ) × (((unwritten : List Event) × (write_request_with_deadline to_vec deadline
                request writes now true
              ≡ sent frame unwritten))
          × ((unread : List Event) × (read_request_with_deadline from_slice deadline
                  (frame ++ rest)
                  reads
                ≡ received request rest unread)))
  unfolding write_request_with_deadline read_request_with_deadline
  read_request-write_request writes reads rest now p q enough_writes enough_reads in_time =
      let (frame, ((unwritten, wrote), (unread, got))) =
        read_frame-write_frame deadline bytes small writes reads rest now p q enough_writes
          enough_reads in_time in
      (
        frame,
        (
          (unwritten, rw (write_request_with_deadline, valid, encoded, wrote) refl),
          (unread, rw (read_request_with_deadline, got, decoded, accept, valid) refl),
        ),
      )
