-- ===== src/Worker/Frames/RoundTrip.antt =====
-- A frame of src/semantic/worker/protocol.rs that is written can be read, in whatever pieces the
-- socket moves it.
use trufflepig.Prelude.{
  ℕ, zero, suc, ◌+◌, ◌-◌, ◌≤◌, ◌<◌, ◌≡◌, refl, ap, ◌∙◌, true, false, List, [], ◌∷◌, ◌++◌, leb,
  nat_eq, length, take, drop, min, arith, inl, inr, ◌⊎◌, append_assoc, append-nil, length-append,
  length-drop,
}
use trufflepig.Worker.Frames.{
  frame_limit, Outcome, moves, blocks, fails, Event, done, written, to_be_bytes, from_be_bytes,
  read_exact_until, read_body, read_frame_with_deadline, write_all_until, write_frame_with_deadline,
}

-- An outcome that does not fail; a move is of one byte at least.
abbrev pub Works : Outcome → Type 0
Works (moves most) = 0 < most
Works blocks = Unit
Works fails = ⊥

-- Every call works, and is made before the deadline.
abbrev pub Prompt : ℕ → List Event → Type 0
Prompt deadline [] = Unit
Prompt deadline (event ∷ events) =
    (event.now < deadline) × (Works event.outcome × Prompt deadline events)

abbrev one_move : Outcome → ℕ
one_move (moves most) = 1
one_move blocks = 0
one_move fails = 0

-- How many calls move bytes.
abbrev pub moves_in : List Event → ℕ
moves_in [] = 0
moves_in (event ∷ events) = one_move event.outcome + moves_in events

Works-cases :
    (o : Outcome) → Works o → (o ≡ blocks) ⊎ ((most : ℕ) × ((o ≡ moves most) × (0 < most)))
Works-cases (moves most) w = inr (most, (refl, w))
Works-cases blocks w = inl refl
Works-cases fails w = absurd w

module _ {A : Type 0} where
  take-nil : (n : ℕ) → take {A = A} n [] ≡ []
  take-nil zero = refl
  take-nil (suc n) = refl

  drop-nil : (n : ℕ) → drop {A = A} n [] ≡ []
  drop-nil zero = refl
  drop-nil (suc n) = refl

  -- So many, and so many more.
  take_more : (a b c : ℕ) (xs : List A) → a + b ≡ c → take a xs ++ take b (drop a xs) ≡ take c xs
  take_more zero b c xs h = let e : b ≡ c = omega arith in ap (λ n. take n xs) e
  take_more (suc a) b zero xs h = absurd (omega arith)
  take_more (suc a) b (suc c) [] h = take-nil b
  take_more (suc a) b (suc c) (x ∷ xs) h = ap (◌∷◌ x) (take_more a b c xs (omega arith))

  drop_more : (a b c : ℕ) (xs : List A) → a + b ≡ c → drop b (drop a xs) ≡ drop c xs
  drop_more zero b c xs h = let e : b ≡ c = omega arith in ap (λ n. drop n xs) e
  drop_more (suc a) b zero xs h = absurd (omega arith)
  drop_more (suc a) b (suc c) [] h = drop-nil b
  drop_more (suc a) b (suc c) (x ∷ xs) h = drop_more a b c xs (omega arith)

  take-length-append : (xs ys : List A) → take (length xs) (xs ++ ys) ≡ xs
  take-length-append [] ys = refl
  take-length-append (x ∷ xs) ys = ap (◌∷◌ x) (take-length-append xs ys)

  drop-length-append : (xs ys : List A) → drop (length xs) (xs ++ ys) ≡ ys
  drop-length-append [] ys = refl
  drop-length-append (x ∷ xs) ys = drop-length-append xs ys

  take_append-drop : (n : ℕ) (xs : List A) → take n xs ++ drop n xs ≡ xs
  take_append-drop zero xs = refl
  take_append-drop (suc n) [] = refl
  take_append-drop (suc n) (x ∷ xs) = ap (◌∷◌ x) (take_append-drop n xs)

-- One call of `read`.
module _ (deadline more : ℕ) (bytes stream : List ℕ) (event : Event) (events : List Event) where
  read-moves :
      (most : ℕ)
      → event.outcome ≡ moves most
      → event.now < deadline
      → 0 < min most (min (suc more) (length stream))
      → let count = min most (min (suc more) (length stream)) in
        read_exact_until deadline (suc more) bytes stream (event ∷ events)
        ≡ read_exact_until deadline
            (suc more - count)
            (bytes ++ take count stream)
            (drop count stream)
            events
  unfolding read_exact_until
  read-moves most e h k =
      let count = min most (min (suc more) (length stream)) in
      let in_time : leb deadline event.now ≡ false = ground arith in
      let some_moved : nat_eq count 0 ≡ false = ground arith in rw (e, in_time, some_moved) refl

  read-blocks :
      event.outcome ≡ blocks
      → event.now < deadline
      → read_exact_until deadline (suc more) bytes stream (event ∷ events)
        ≡ read_exact_until deadline (suc more) bytes stream events
  unfolding read_exact_until
  read-blocks e h =
      let in_time : leb deadline event.now ≡ false = ground arith in rw (e, in_time) refl

-- One call of `write`.
module _ (deadline byte : ℕ) (bytes out : List ℕ) (event : Event) (events : List Event) where
  write-moves :
      (most : ℕ)
      → event.outcome ≡ moves most
      → event.now < deadline
      → 0 < most
      → let count = min most (length (byte ∷ bytes)) in
        write_all_until deadline (byte ∷ bytes) out (event ∷ events)
        ≡ write_all_until deadline
            (drop count (byte ∷ bytes))
            (out ++ take count (byte ∷ bytes))
            events
  unfolding write_all_until
  write-moves most e h k =
      let count = min most (length (byte ∷ bytes)) in
      let in_time : leb deadline event.now ≡ false = ground arith in
      let some_moved : nat_eq count 0 ≡ false = ground arith in rw (e, in_time, some_moved) refl

  write-blocks :
      event.outcome ≡ blocks
      → event.now < deadline
      → write_all_until deadline (byte ∷ bytes) out (event ∷ events)
        ≡ write_all_until deadline (byte ∷ bytes) out events
  unfolding write_all_until
  write-blocks e h =
      let in_time : leb deadline event.now ≡ false = ground arith in rw (e, in_time) refl

-- What is left of the events when so many bytes have moved.
abbrev Left : ℕ → List Event → ℕ → List Event → Type 0
Left deadline events bytes left = Prompt deadline left × (moves_in events ≤ moves_in left + bytes)

read_exact_until_lem :
    (deadline wanted : ℕ) (bytes stream : List ℕ) (events : List Event)
    → Prompt deadline events
    → wanted ≤ length stream
    → wanted ≤ moves_in events
    → (left : List Event) × ((read_exact_until deadline wanted bytes stream events
          ≡ done (bytes ++ take wanted stream) (drop wanted stream) left)
        × Left deadline events wanted left)
unfolding read_exact_until
read_exact_until_lem deadline zero bytes stream events p h k =
    (events, (rw (append-nil bytes) refl, (p, omega arith)))
read_exact_until_lem deadline (suc more) bytes stream [] p h k = absurd (omega arith)
read_exact_until_lem deadline (suc more) bytes stream (event ∷ events) (in_time, (works, p)) h k =
    elim (Works-cases event.outcome works) [
      | inl e ↦
          let none_moved : one_move event.outcome ≡ 0 = rw e refl in
          let (left, (run, (prompt, enough))) =
            read_exact_until_lem deadline (suc more) bytes stream events p h (omega arith) in
          (
            left,
            (
              read-blocks deadline more bytes stream event events e in_time ∙ run,
              (prompt, omega arith),
            ),
          )
      | inr (most, (e, some_most)) ↦
          let count = min most (min (suc more) (length stream)) in
          let moved : one_move event.outcome ≡ 1 = rw e refl in
          let fits : suc more - count ≤ length (drop count stream) =
            omega (arith, length-drop count stream) in
          let (left, (run, (prompt, enough))) =
            read_exact_until_lem deadline (suc more - count) (bytes ++ take count stream)
              (drop count stream) events p fits (omega arith) in
          let whole : count + (suc more - count) ≡ suc more = omega arith in
          let bytes_eq : (bytes ++ take count stream) ++ take (suc more - count) (drop count stream)
              ≡ bytes ++ take (suc more) stream =
            append_assoc bytes (take count stream) (take (suc more - count) (drop count stream))
            ∙ ap (λ r. bytes ++ r) (take_more count (suc more - count) (suc more) stream whole) in
          let rest_eq = drop_more count (suc more - count) (suc more) stream whole in
          (
            left,
            (
              read-moves deadline more bytes stream event events most e in_time (omega arith)
                  ∙ run
                  ∙ (λ i. done (bytes_eq i) (rest_eq i) left),
              (prompt, omega arith),
            ),
          )
    ]

write_all_until_lem :
    (deadline : ℕ) (bytes out : List ℕ) (events : List Event)
    → Prompt deadline events
    → length bytes ≤ moves_in events
    → (left : List Event) × ((write_all_until deadline bytes out events
          ≡ written (out ++ bytes) left)
        × Left deadline events (length bytes) left)
unfolding write_all_until
write_all_until_lem deadline [] out events p k =
    (events, (rw (append-nil out) refl, (p, omega arith)))
write_all_until_lem deadline (byte ∷ bytes) out [] p k = absurd (omega arith)
write_all_until_lem deadline (byte ∷ bytes) out (event ∷ events) (in_time, (works, p)) k =
    elim (Works-cases event.outcome works) [
      | inl e ↦
          let none_moved : one_move event.outcome ≡ 0 = rw e refl in
          let (left, (run, (prompt, enough))) =
            write_all_until_lem deadline (byte ∷ bytes) out events p (omega arith) in
          (
            left,
            (
              write-blocks deadline byte bytes out event events e in_time ∙ run,
              (prompt, omega arith),
            ),
          )
      | inr (most, (e, some_most)) ↦
          let all_bytes = byte ∷ bytes in
          let count = min most (length all_bytes) in
          let moved : one_move event.outcome ≡ 1 = rw e refl in
          let shorter = length-drop count all_bytes in
          let (left, (run, (prompt, enough))) =
            write_all_until_lem deadline (drop count all_bytes) (out ++ take count all_bytes) events
              p (omega arith) in
          let out_eq : (out ++ take count all_bytes) ++ drop count all_bytes ≡ out ++ all_bytes =
            append_assoc out (take count all_bytes) (drop count all_bytes)
            ∙ ap (λ r. out ++ r) (take_append-drop count all_bytes) in
          (
            left,
            (
              write-moves deadline byte bytes out event events most e in_time some_most
                  ∙ run
                  ∙ (λ i. written (out_eq i) left),
              (prompt, omega arith),
            ),
          )
    ]

from_be_bytes-to_be_bytes : (n : ℕ) → n ≤ frame_limit → from_be_bytes (to_be_bytes n) ≡ n
unfolding from_be_bytes to_be_bytes
from_be_bytes-to_be_bytes n h = omega arith

module _ (deadline : ℕ) (bytes : List ℕ) (small : length bytes ≤ frame_limit) where
  abbrev frame_of : List ℕ
  frame_of = to_be_bytes (length bytes) ++ bytes

  in_limit : leb (length bytes) frame_limit ≡ true
  in_limit = ground arith

  write_frame_lem :
      (events : List Event) (now : ℕ)
      → Prompt deadline events
      → 4 + length bytes ≤ moves_in events
      → now < deadline
      → (left : List Event) × (write_frame_with_deadline deadline bytes [] events now true
          ≡ written frame_of left)
  unfolding write_frame_with_deadline to_be_bytes
  write_frame_lem events now p enough in_time =
      let header = to_be_bytes (length bytes) in
      let (left, (run, (prompt, more))) =
        write_all_until_lem deadline header [] events p (omega arith) in
      let (last, (body, further)) =
        write_all_until_lem deadline bytes header left prompt (omega arith) in
      let on_time : leb deadline now ≡ false = ground arith in
      (last, rw (in_limit, run, body, on_time) refl)

  read_body_lem :
      (rest : List ℕ) (events : List Event)
      → Prompt deadline events
      → length bytes ≤ moves_in events
      → (left : List Event) × (read_body deadline
            (to_be_bytes (length bytes))
            (bytes ++ rest)
            events
          ≡ done bytes rest left)
  unfolding read_body
  read_body_lem rest events p enough =
      let fits : length bytes ≤ length (bytes ++ rest) = omega (arith, length-append bytes rest) in
      let (left, (run, prompt)) =
        read_exact_until_lem deadline (length bytes) [] (bytes ++ rest) events p fits enough in
      let exact : read_exact_until deadline (length bytes) [] (bytes ++ rest) events
          ≡ done bytes rest left =
        run
        ∙ (λ i. done (take-length-append bytes rest i) (drop-length-append bytes rest i) left) in
      (left, rw (from_be_bytes-to_be_bytes (length bytes) small, in_limit) exact)

  read_frame_lem :
      (rest : List ℕ) (events : List Event)
      → Prompt deadline events
      → 4 + length bytes ≤ moves_in events
      → (left : List Event) × (read_frame_with_deadline deadline (frame_of ++ rest) events
          ≡ done bytes rest left)
  unfolding read_frame_with_deadline to_be_bytes
  read_frame_lem rest events p enough =
      let stream = frame_of ++ rest in
      let (left, (run, (prompt, more))) =
        read_exact_until_lem deadline 4 [] stream events p (omega arith) (omega arith) in
      let (last, body) = read_body_lem rest left prompt (omega arith) in
      (last, rw (run, read_frame_with_deadline) body)

  -- A frame within the limit, written to an empty stream by calls that move its bytes in any pieces
  -- before the deadline, is read back from that stream by calls that do the same: with enough calls
  -- both ends finish, the reader has the bytes that were written, and what follows the frame is
  -- left.
  pub read_frame-write_frame :
      (writes reads : List Event) (rest : List ℕ) (now : ℕ)
      → Prompt deadline writes
      → Prompt deadline reads
      → 4 + length bytes ≤ moves_in writes
      → 4 + length bytes ≤ moves_in reads
      → now < deadline
      → (frame : List ℕ) × (((unwritten : List Event) × (write_frame_with_deadline deadline bytes []
                writes now true
              ≡ written frame unwritten))
          × ((unread : List Event) × (read_frame_with_deadline deadline (frame ++ rest) reads
                ≡ done bytes rest unread)))
  read_frame-write_frame writes reads rest now p q enough_writes enough_reads in_time = (
    frame_of,
    (write_frame_lem writes now p enough_writes in_time, read_frame_lem rest reads q enough_reads),
  )
