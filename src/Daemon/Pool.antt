-- ===== src/Daemon/Pool.antt =====
-- src/daemon/pool.rs: worker threads that take requests from a bounded queue.
-- A thread moves from one access of the shared state to the next, and any thread may be the next to
-- move: Moves.Step lists the moves. A job is a value, and what it does while it runs, a panic
-- included, does not touch the pool. The queue is the channel's buffer, of the size that the channel
-- was made with, which is 1 at least (the constants give 64).
pub mod Moves
pub mod Counting
use trufflepig.Prelude.{
  ℕ, zero, suc, ◌+◌, ◌-◌, Bool, true, false, ◌&&◌, not, Option, none, some, List, [], ◌∷◌, ◌++◌,
  if◌then◌else◌, ltb, leb, nat_eq, length, get_elem?, set, max,
}

pub record PoolSize : Type 0 where
  pub workers : ℕ
  pub queue : ℕ

abbrev pub router_pool : PoolSize
router_pool = record { workers = 16; queue = 64 }

abbrev pub coordinator_pool : PoolSize
coordinator_pool = record { workers = 8; queue = 64 }

abbrev pub root_pool : PoolSize
root_pool = record { workers = 4; queue = 64 }

-- Where a worker is in its loop: at its first test, at `recv`, at the second test with the job that it
-- received, in the job, behind the job, before and behind the `drop` of a job that it does not run, or
-- gone.
pub data Worker (Job : Type 0) : Type 0 where
  starting receiving exited : Worker Job
  received running rejecting : Job → Worker Job
  finished rejected : Worker Job

-- `submit` holds the lock of the sender: `sending` is that it has counted its job, and not sent it;
-- `refused`, that `try_send` has handed the job back, which is still counted.
pub data Submitter (Job : Type 0) : Type 0 where
  idle : Submitter Job
  sending refused : Job → Submitter Job

-- Where the loop of `shutdown` is: without the lock of the receiver, at `try_recv`, before and behind
-- the `drop` of the job that it received.
pub data Emptier (Job : Type 0) : Type 0 where
  outside emptying discarded : Emptier Job
  discarding : Job → Emptier Job

pub record RequestPool (Job : Type 0) : Type 0 where
  pub capacity : ℕ
  pub queue : List Job
  pub sender_open : Bool
  pub pending : ℕ
  pub shutting_down : Bool
  pub workers : List (Worker Job)
  pub submitter : Submitter Job
  pub emptier : Emptier Job

abbrev pub Result : Type 0 → Type 0
Result Job = Option Job

module _ {Job : Type 0} where
  abbrev pub starting_workers : ℕ → List (Worker Job)
  starting_workers zero = []
  starting_workers (suc n) = starting ∷ starting_workers n

  unfoldable pub new : PoolSize → RequestPool Job
  new size = record {
    capacity = size.queue;
    queue = [];
    sender_open = true;
    pending = 0;
    shutting_down = false;
    workers = starting_workers (max size.workers 1);
    submitter = idle;
    emptier = outside;
  }

  abbrev pub move_to : ℕ → Worker Job → RequestPool Job → RequestPool Job
  move_to i w p = record p { workers = set p.workers i w }

  -- `pending.fetch_sub(1)`
  abbrev pub uncount : RequestPool Job → RequestPool Job
  uncount p = record p { pending = p.pending - 1 }

  abbrev pub is_outside : Emptier Job → Bool
  is_outside outside = true
  is_outside emptying = false
  is_outside discarded = false
  is_outside (discarding job) = false

  -- `queue.recv()` under the lock of the receiver: it waits while `shutdown` has the lock, and while
  -- the channel is empty and open.
  unfoldable pub receive : ℕ → RequestPool Job → RequestPool Job
  receive i p =
      let got : RequestPool Job = elim p.queue [
        | job ∷ jobs ↦ move_to i (received job) (record p { queue = jobs })
        | [] ↦ if p.sender_open then p else move_to i exited p
      ] in
      if is_outside p.emptier then got else p

  -- The next move of worker `i`, which is at `w`.
  unfoldable pub worker_move : ℕ → Worker Job → RequestPool Job → RequestPool Job
  unfolding receive
  worker_move i starting p = if p.shutting_down then move_to i exited p else move_to i receiving p
  worker_move i receiving p = receive i p
  worker_move i (received job) p =
      if p.shutting_down then move_to i (rejecting job) p else move_to i (running job) p
  worker_move i (rejecting job) p = move_to i rejected p
  worker_move i rejected p = uncount (move_to i exited p)
  worker_move i (running job) p = move_to i finished p
  worker_move i finished p = uncount (move_to i starting p)
  worker_move i exited p = p

  unfoldable pub work : ℕ → RequestPool Job → RequestPool Job
  unfolding worker_move
  work i p = elim (get_elem? p.workers i) [ none ↦ p | some w ↦ worker_move i w p ]

  -- `submit` up to `fetch_add`; the job is handed back where the source returns it. While another
  -- call holds the lock, it waits.
  -- These accesses are one move: to raise the flag between its test and `fetch_add` comes to the same
  -- as to raise it behind both, and nobody can take the sender while the lock is held.
  unfoldable pub begin_at : Job → RequestPool Job → Submitter Job → RequestPool Job × Result Job
  begin_at job p (sending other) = (p, none)
  begin_at job p (refused other) = (p, none)
  begin_at job p idle =
      if p.shutting_down
      then (p, some job)
      else if p.sender_open
      then (record p { pending = p.pending + 1; submitter = sending job }, none)
      else (p, some job)

  unfoldable pub submit_begin : Job → RequestPool Job → RequestPool Job × Result Job
  unfolding begin_at
  submit_begin job p = begin_at job p p.submitter

  -- `try_send`, and then `fetch_sub` where it has handed the job back: a move each.
  unfoldable pub send_at : RequestPool Job → Submitter Job → RequestPool Job × Result Job
  send_at p idle = (p, none)
  send_at p (sending job) =
      if p.sender_open && ltb (length p.queue) p.capacity
      then (record p { queue = p.queue ++ job ∷ []; submitter = idle }, none)
      else (record p { submitter = refused job }, none)
  send_at p (refused job) = (record p { pending = p.pending - 1; submitter = idle }, some job)

  unfoldable pub submit_send : RequestPool Job → RequestPool Job × Result Job
  unfolding send_at
  submit_send p = send_at p p.submitter

  -- The whole of `submit`, if the lock is free and no thread moves between its parts. The last part
  -- does nothing where the job was sent.
  unfoldable pub submit : Job → RequestPool Job → RequestPool Job × Result Job
  unfolding submit_begin submit_send
  submit job p =
      let (begun, answer) = submit_begin job p in
      elim answer [
        | some returned ↦ (begun, some returned)
        | none ↦ submit_send (submit_send begun).0
      ]

  -- The parts of `shutdown`: the flag, the sender (whose lock must be free), and the moves of the
  -- loop that empties the channel: `receiver.lock()`, `try_recv`, `drop` and `fetch_sub`. At the end
  -- the lock is given back. Calls of `shutdown` may overlap; one of them at a time has the lock.
  unfoldable pub raise_flag : RequestPool Job → RequestPool Job
  raise_flag p = record p { shutting_down = true }

  unfoldable pub close_at : RequestPool Job → Submitter Job → RequestPool Job
  close_at p idle = record p { sender_open = false }
  close_at p (sending job) = p
  close_at p (refused job) = p

  unfoldable pub close_sender : RequestPool Job → RequestPool Job
  unfolding close_at
  close_sender p = close_at p p.submitter

  -- `try_recv`
  unfoldable pub take_queued : RequestPool Job → RequestPool Job
  take_queued p = elim p.queue [
    | [] ↦ record p { emptier = outside }
    | job ∷ jobs ↦ record p { queue = jobs; emptier = discarding job }
  ]

  unfoldable pub discard_at : RequestPool Job → Emptier Job → RequestPool Job
  unfolding take_queued
  discard_at p outside = record p { emptier = emptying }
  discard_at p emptying = take_queued p
  discard_at p (discarding job) = record p { emptier = discarded }
  discard_at p discarded = uncount (record p { emptier = emptying })

  unfoldable pub discard : RequestPool Job → RequestPool Job
  unfolding discard_at
  discard p = discard_at p p.emptier

-- The loop of `drain`, on what it reads in each round: `pending`, and the time since it started.
-- The list ends where the caller stops to look.
unfoldable pub drain : ℕ → List (ℕ × ℕ) → Option Bool
drain limit [] = none
drain limit ((pending, elapsed) ∷ rounds) =
    let rest = drain limit rounds in
    if nat_eq pending 0 then some true else if leb limit elapsed then some false else rest
