-- ===== src/Worker/Frames.antt =====
-- src/semantic/worker/protocol.rs: frames, a length of four bytes and as many bytes, over a socket.
-- A stream is the bytes that are still to come. What the socket does at each call of `read` or `write`
-- is a list of events, each with the instant of the test before it: the call moves so many bytes at
-- most, or it blocks, or it fails. A run that is out of events is pending.
pub mod RoundTrip
use trufflepig.Prelude.{
  ℕ, zero, suc, ◌+◌, ◌-◌, ◌*◌, ◌/◌, ◌%◌, Bool, true, false, List, [], ◌∷◌, ◌++◌, if◌then◌else◌, ltb,
  leb, nat_eq, length, take, drop, min,
}

abbrev pub frame_limit : ℕ
frame_limit = 1_048_576

pub data Outcome : Type 0 where
  moves : ℕ → Outcome
  blocks fails : Outcome

pub record Event : Type 0 where
  pub now : ℕ
  pub outcome : Outcome

pub data FrameError : Type 0 where
  frame_too_large deadline_exceeded unexpected_end unable_to_write io_failed : FrameError

-- `done` holds the bytes that are read, the stream behind them and the events that are left.
pub data ReadRun : Type 0 where
  done : List ℕ → List ℕ → List Event → ReadRun
  refused : FrameError → ReadRun
  pending : ReadRun

-- `written` holds the whole output and the events that are left.
pub data WriteRun : Type 0 where
  written : List ℕ → List Event → WriteRun
  rejected : FrameError → WriteRun
  waiting : WriteRun

-- `u32::to_be_bytes` and `u32::from_be_bytes`
unfoldable pub to_be_bytes : ℕ → List ℕ
to_be_bytes n = n / 16777216 % 256 ∷ n / 65536 % 256 ∷ n / 256 % 256 ∷ n % 256 ∷ []

unfoldable pub from_be_bytes : List ℕ → ℕ
from_be_bytes (a ∷ b ∷ c ∷ d ∷ rest) = a * 16777216 + b * 65536 + c * 256 + d
from_be_bytes short = 0

-- The loop of `read_exact_until`: `wanted` bytes are still to come, `bytes` are there.
unfoldable pub read_exact_until : ℕ → ℕ → List ℕ → List ℕ → List Event → ReadRun
read_exact_until deadline zero bytes stream events = done bytes stream events
read_exact_until deadline (suc more) bytes stream [] = pending
read_exact_until deadline (suc more) bytes stream (event ∷ events) =
    let again = read_exact_until deadline (suc more) bytes stream events in
    elim event.outcome [
      | moves most ↦
          let count = min most (min (suc more) (length stream)) in
          let further =
            read_exact_until deadline (suc more - count) (bytes ++ take count stream)
              (drop count stream) events in
          if leb deadline event.now
          then refused deadline_exceeded
          else if nat_eq count 0
          then refused unexpected_end
          else further
      | blocks ↦ if leb deadline event.now then refused deadline_exceeded else again
      | fails ↦ if leb deadline event.now then refused deadline_exceeded else refused io_failed
    ]

-- What follows the header.
unfoldable pub read_body : ℕ → List ℕ → List ℕ → List Event → ReadRun
unfolding read_exact_until from_be_bytes
read_body deadline header stream events =
    let frame_length = from_be_bytes header in
    if leb frame_length frame_limit
    then read_exact_until deadline frame_length [] stream events
    else refused frame_too_large

unfoldable pub read_frame_with_deadline : ℕ → List ℕ → List Event → ReadRun
unfolding read_exact_until read_body
read_frame_with_deadline deadline stream events =
    elim (read_exact_until deadline 4 [] stream events) [
      | done header rest left ↦ read_body deadline header rest left
      | refused e ↦ refused e
      | pending ↦ pending
    ]

-- The loop of `write_all_until`: `bytes` are still to be written behind `out`.
unfoldable pub write_all_until : ℕ → List ℕ → List ℕ → List Event → WriteRun
write_all_until deadline [] out events = written out events
write_all_until deadline (byte ∷ bytes) out [] = waiting
write_all_until deadline (byte ∷ bytes) out (event ∷ events) =
    let again = write_all_until deadline (byte ∷ bytes) out events in
    elim event.outcome [
      | moves most ↦
          let count = min most (length (byte ∷ bytes)) in
          let further =
            write_all_until deadline (drop count (byte ∷ bytes)) (out ++ take count (byte ∷ bytes))
              events in
          if leb deadline event.now
          then rejected deadline_exceeded
          else if nat_eq count 0
          then rejected unable_to_write
          else further
      | blocks ↦ if leb deadline event.now then rejected deadline_exceeded else again
      | fails ↦ if leb deadline event.now then rejected deadline_exceeded else rejected io_failed
    ]

-- The test behind the last write, and `flush`; both happen at `now`.
abbrev pub flushed : ℕ → ℕ → Bool → WriteRun → WriteRun
flushed deadline now flushes (written out events) =
    if leb deadline now
    then rejected deadline_exceeded
    else if flushes
    then written out events
    else rejected io_failed
flushed deadline now flushes (rejected e) = rejected e
flushed deadline now flushes waiting = waiting

unfoldable pub write_frame_with_deadline : ℕ → List ℕ → List ℕ → List Event → ℕ → Bool → WriteRun
unfolding write_all_until to_be_bytes
write_frame_with_deadline deadline bytes out events now flushes =
    let body : WriteRun = elim (write_all_until deadline (to_be_bytes (length bytes)) out events) [
      | written header left ↦ write_all_until deadline bytes header left
      | rejected e ↦ rejected e
      | waiting ↦ waiting
    ] in
    if leb (length bytes) frame_limit
    then flushed deadline now flushes body
    else rejected frame_too_large

-- Without a deadline: the `read_exact` and `write_all` of the library.
abbrev read_exact : ℕ → List ℕ → ReadRun
read_exact wanted stream =
    if leb wanted (length stream)
    then done (take wanted stream) (drop wanted stream) []
    else refused unexpected_end

unfoldable pub read_frame : List ℕ → ReadRun
unfolding from_be_bytes
read_frame stream = elim (read_exact 4 stream) [
  | done header rest left ↦
      let frame_length = from_be_bytes header in
      if leb frame_length frame_limit then read_exact frame_length rest else refused frame_too_large
  | refused e ↦ refused e
  | pending ↦ pending
]

unfoldable pub write_frame : List ℕ → List ℕ → WriteRun
unfolding to_be_bytes
write_frame bytes out =
    if leb (length bytes) frame_limit
    then written (out ++ (to_be_bytes (length bytes) ++ bytes)) []
    else rejected frame_too_large
