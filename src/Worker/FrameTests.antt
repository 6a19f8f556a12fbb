-- ===== src/Worker/FrameTests.antt =====
-- Runs of the frames of src/semantic/worker/protocol.rs.
use trufflepig.Prelude.{ℕ, zero, suc, ◌≡◌, refl, true, List, [], ◌∷◌, ◌++◌, arith}
use trufflepig.Worker.Frames.{
  moves, blocks, Event, done, refused, deadline_exceeded, written, from_be_bytes, read_exact_until,
  read_body, read_frame_with_deadline, write_frame_with_deadline,
}
use trufflepig.Worker.Frames.RoundTrip.{Prompt, read_frame-write_frame}

-- Calls at instant 5 that move two bytes at most, a call that blocks before each.
abbrev pieces : ℕ → List Event
pieces zero = []
pieces (suc n) =
    record { now = 5; outcome = blocks } ∷ record { now = 5; outcome = moves 2 } ∷ pieces n

pieces-Prompt : (n : ℕ) → Prompt 9 (pieces n)
pieces-Prompt zero = tt
pieces-Prompt (suc n) = (omega arith, (tt, (omega arith, (omega arith, pieces-Prompt n))))

abbrev three_bytes : List ℕ
three_bytes = 1 ∷ 2 ∷ 3 ∷ []

in_pieces :
    read_frame_with_deadline 9 (0 ∷ 0 ∷ 0 ∷ 3 ∷ 1 ∷ 2 ∷ 3 ∷ 8 ∷ []) (pieces 4)
    ≡ done three_bytes (8 ∷ []) []
unfolding read_frame_with_deadline read_exact_until read_body from_be_bytes
in_pieces = refl

-- The deadline is absolute: bytes that trickle in do not move it.
too_late :
    read_frame_with_deadline 5 (0 ∷ 0 ∷ 0 ∷ 3 ∷ 1 ∷ 2 ∷ 3 ∷ []) (pieces 4)
    ≡ refused deadline_exceeded
unfolding read_frame_with_deadline read_exact_until
too_late = refl

read_frame-write_frame_example :
    (frame : List ℕ) × (((unwritten : List Event) × (write_frame_with_deadline 9 three_bytes []
            (pieces 7)
            6
            true
          ≡ written frame unwritten))
      × ((unread : List Event) × (read_frame_with_deadline 9 (frame ++ 8 ∷ []) (pieces 7)
            ≡ done three_bytes (8 ∷ []) unread)))
read_frame-write_frame_example =
    read_frame-write_frame 9 three_bytes (omega arith) (pieces 7) (pieces 7) (8 ∷ []) 6
      (pieces-Prompt 7) (pieces-Prompt 7) (omega arith) (omega arith) (omega arith)
