-- ===== src/Daemon/Pool/Counting.antt =====
-- What `pending` of src/daemon/pool.rs counts, over every interleaving.
use trufflepig.Prelude.{
  ℕ, zero, suc, ◌+◌, ◌≤◌, ◌≡◌, refl, ap, subst, Bool, true, false, ◌&&◌, Option, none, some, List,
  [], ◌∷◌, if◌then◌else◌, ltb, length, get_elem?, max, arith, length-append, Bool-cases, inl, inr,
}
use trufflepig.Daemon.Pool.{
  PoolSize, Worker, starting, receiving, exited, received, running, finished, rejecting, rejected,
  Submitter, idle, sending, refused, Emptier, outside, emptying, discarded, discarding, is_outside,
  RequestPool, take_queued, discard_at, new, work, worker_move, receive, submit_begin, submit_send,
  raise_flag, close_sender, discard, move_to, uncount, begin_at, send_at, close_at,
}
use trufflepig.Daemon.Pool.Moves.{
  Step, works, begins, sends, flags, closes, discards, Reach, made, moved, holds, held, unsent,
  dropping, held-set, held-starting,
}

module _ {Job : Type 0} (size : PoolSize) where
  -- `pending` is the number of jobs that are queued, that a worker, `submit` or the loop of `shutdown`
  -- has and has not uncounted, and the queue is within the size that the pool was made with.
  pub record Counts (p : RequestPool Job) : Type 0 where
    pub exact :
        p.pending ≡ length p.queue + (held p.workers + (unsent p.submitter + dropping p.emptier))
    pub bounded : length p.queue ≤ p.capacity
    pub sized : p.capacity ≡ size.queue

  if-Counts : (b : Bool) (x y : RequestPool Job) → Counts x → Counts y → Counts (if b then x else y)
  if-Counts true x y c d = c
  if-Counts false x y c d = d

  -- A worker that holds as much after its move as before.
  keep-Counts :
      (i : ℕ) (v w : Worker Job) (p : RequestPool Job)
      → get_elem? p.workers i ≡ some v
      → holds w ≡ holds v
      → Counts p
      → Counts (move_to i w p)
  keep-Counts i v w p at_i same c = record {
    exact = omega (arith, c.exact, held-set p.workers i v w at_i);
    bounded = c.bounded;
    sized = c.sized;
  }

  -- A worker that gives up its job, and uncounts it.
  release-Counts :
      (i : ℕ) (v w : Worker Job) (p : RequestPool Job)
      → get_elem? p.workers i ≡ some v
      → holds v ≡ 1
      → holds w ≡ 0
      → Counts p
      → Counts (uncount (move_to i w p))
  release-Counts i v w p at_i one none_held c = record {
    exact = omega (arith, c.exact, held-set p.workers i v w at_i);
    bounded = c.bounded;
    sized = c.sized;
  }

  receive_from :
      (i : ℕ) (p : RequestPool Job) (q : List Job)
      → p.queue ≡ q
      → get_elem? p.workers i ≡ some receiving
      → Counts p
      → Counts (elim q [
        | job ∷ jobs ↦ move_to i (received job) (record p { queue = jobs })
        | [] ↦ if p.sender_open then p else move_to i exited p
      ])
  receive_from i p [] e at_i c =
      if-Counts p.sender_open p (move_to i exited p) c
        (keep-Counts i receiving exited p at_i refl c)
  receive_from i p (job ∷ jobs) e at_i c =
      let taken : length p.queue ≡ suc (length jobs) = ap length e in
      record {
        exact = omega (arith, c.exact, held-set p.workers i receiving (received job) at_i);
        bounded = omega (arith, c.bounded);
        sized = c.sized;
      }

  worker_move-Counts :
      (i : ℕ) (w : Worker Job) (p : RequestPool Job)
      → get_elem? p.workers i ≡ some w
      → Counts p
      → Counts (worker_move i w p)
  unfolding worker_move receive
  worker_move-Counts i starting p at_i c =
      if-Counts p.shutting_down (move_to i exited p) (move_to i receiving p)
        (keep-Counts i starting exited p at_i refl c)
        (keep-Counts i starting receiving p at_i refl c)
  worker_move-Counts i receiving p at_i c =
      if-Counts (is_outside p.emptier) _ p (receive_from i p p.queue refl at_i c) c
  worker_move-Counts i (received job) p at_i c =
      if-Counts p.shutting_down (move_to i (rejecting job) p) (move_to i (running job) p)
        (keep-Counts i (received job) (rejecting job) p at_i refl c)
        (keep-Counts i (received job) (running job) p at_i refl c)
  worker_move-Counts i (rejecting job) p at_i c =
      keep-Counts i (rejecting job) rejected p at_i refl c
  worker_move-Counts i rejected p at_i c = release-Counts i rejected exited p at_i refl refl c
  worker_move-Counts i (running job) p at_i c = keep-Counts i (running job) finished p at_i refl c
  worker_move-Counts i finished p at_i c = release-Counts i finished starting p at_i refl refl c
  worker_move-Counts i exited p at_i c = c

  work_from :
      (i : ℕ) (p : RequestPool Job) (o : Option (Worker Job))
      → get_elem? p.workers i ≡ o
      → Counts p
      → Counts (elim o [ none ↦ p | some w ↦ worker_move i w p ])
  work_from i p none e c = c
  work_from i p (some w) e c = worker_move-Counts i w p e c

  if_first-Counts :
      {B : Type 0} (b : Bool) (x y : RequestPool Job × B)
      → Counts x.0
      → Counts y.0
      → Counts (if b then x else y).0
  if_first-Counts true x y c d = c
  if_first-Counts false x y c d = d

  begin_at-Counts :
      (job : Job) (p : RequestPool Job) (s : Submitter Job)
      → p.submitter ≡ s
      → Counts p
      → Counts (begin_at job p s).0
  unfolding begin_at
  begin_at-Counts job p (sending other) e c = c
  begin_at-Counts job p (refused other) e c = c
  begin_at-Counts job p idle e c =
      let before : unsent p.submitter ≡ 0 = ap unsent e in
      let counted : RequestPool Job = record p {
        pending = p.pending + 1;
        submitter = sending job;
      } in
      let counts : Counts counted = record {
        exact = omega (arith, c.exact);
        bounded = c.bounded;
        sized = c.sized;
      } in
      if_first-Counts p.shutting_down (p, some job) _ c
        (if_first-Counts p.sender_open (counted, none) (p, some job) counts c)

  send_at-Counts :
      (p : RequestPool Job) (s : Submitter Job)
      → p.submitter ≡ s
      → Counts p
      → Counts (send_at p s).0
  unfolding send_at
  send_at-Counts p idle e c = c
  send_at-Counts p (refused job) e c =
      let before : unsent p.submitter ≡ 1 = ap unsent e in
      record { exact = omega (arith, c.exact); bounded = c.bounded; sized = c.sized }
  send_at-Counts p (sending job) e c =
      let before : unsent p.submitter ≡ 1 = ap unsent e in
      elim (Bool-cases (p.sender_open && ltb (length p.queue) p.capacity)) [
        | inl room ↦
            let longer = length-append p.queue (job ∷ []) in
            rw room (record {
              exact = omega (arith, c.exact);
              bounded = ground (arith, c.bounded);
              sized = c.sized;
            })
        | inr full ↦
            rw full
              (record { exact = omega (arith, c.exact); bounded = c.bounded; sized = c.sized })
      ]

  close_at-Counts : (p : RequestPool Job) (s : Submitter Job) → Counts p → Counts (close_at p s)
  unfolding close_at
  close_at-Counts p idle c = record { exact = c.exact; bounded = c.bounded; sized = c.sized }
  close_at-Counts p (sending job) c = c
  close_at-Counts p (refused job) c = c

  take_from :
      (p : RequestPool Job) (q : List Job)
      → p.queue ≡ q
      → p.emptier ≡ emptying
      → Counts p
      → Counts (elim q [
        | [] ↦ record p { emptier = outside }
        | job ∷ jobs ↦ record p { queue = jobs; emptier = discarding job }
      ])
  take_from p [] e at_loop c =
      let before : dropping p.emptier ≡ 0 = ap dropping at_loop in
      record { exact = omega (arith, c.exact); bounded = c.bounded; sized = c.sized }
  take_from p (job ∷ jobs) e at_loop c =
      let before : dropping p.emptier ≡ 0 = ap dropping at_loop in
      let taken : length p.queue ≡ suc (length jobs) = ap length e in
      record { exact = omega (arith, c.exact); bounded = omega (arith, c.bounded); sized = c.sized }

  discard_at-Counts :
      (p : RequestPool Job) (s : Emptier Job) → p.emptier ≡ s → Counts p → Counts (discard_at p s)
  unfolding discard_at take_queued
  discard_at-Counts p emptying e c = take_from p p.queue refl e c
  discard_at-Counts p outside e c =
      let before : dropping p.emptier ≡ 0 = ap dropping e in
      record { exact = omega (arith, c.exact); bounded = c.bounded; sized = c.sized }
  discard_at-Counts p (discarding job) e c =
      let before : dropping p.emptier ≡ 1 = ap dropping e in
      record { exact = omega (arith, c.exact); bounded = c.bounded; sized = c.sized }
  discard_at-Counts p discarded e c =
      let before : dropping p.emptier ≡ 1 = ap dropping e in
      record { exact = omega (arith, c.exact); bounded = c.bounded; sized = c.sized }

  Step-Counts : {p q : RequestPool Job} → Step p q → Counts p → Counts q
  unfolding work submit_begin submit_send raise_flag close_sender discard
  Step-Counts (works {p = p} i) c = work_from i p (get_elem? p.workers i) refl c
  Step-Counts (begins {p = p} job) c = begin_at-Counts job p p.submitter refl c
  Step-Counts (sends {p = p}) c = send_at-Counts p p.submitter refl c
  Step-Counts flags c = record { exact = c.exact; bounded = c.bounded; sized = c.sized }
  Step-Counts (closes {p = p}) c = close_at-Counts p p.submitter c
  Step-Counts (discards {p = p}) c = discard_at-Counts p p.emptier refl c

  new-Counts : Counts (new {Job = Job} size)
  unfolding new
  new-Counts = record {
    exact = omega (arith, held-starting Job (max size.workers 1));
    bounded = omega arith;
    sized = refl;
  }

none_held :
    {Job : Type 0} (ws : List (Worker Job))
    → held ws ≡ 0
    → (i : ℕ) (w : Worker Job) → get_elem? ws i ≡ some w
    → holds w ≡ 0
none_held [] h i w e = absurd (cc)
none_held (x ∷ ws) h zero w e = let same : x ≡ w = cc in subst (λ v. holds v ≡ 0) same (omega arith)
none_held (x ∷ ws) h (suc i) w e = none_held ws (omega arith) i w e

module _ {Job : Type 0} where
  -- Whatever threads move in whatever order, `pending` is the number of jobs that are queued, that a
  -- worker has received, that `submit` has counted and not sent, and that the loop of `shutdown` has
  -- taken, each but the queued ones until the thread that has it counts it down; and the queue is never
  -- longer than it was made to be.
  pub Reach-Counts : {size : PoolSize} {p : RequestPool Job} → Reach size p → Counts size p
  Reach-Counts (made size) = new-Counts size
  Reach-Counts (moved {size = size} r step) = Step-Counts size step (Reach-Counts r)

  -- When `pending` is 0, as `drain` waits for, no job is queued and no worker has one.
  pub drained :
      {size : PoolSize} {p : RequestPool Job}
      → Reach size p
      → p.pending ≡ 0
      → (length p.queue ≡ 0)
        × ((i : ℕ) (w : Worker Job) → get_elem? p.workers i ≡ some w → holds w ≡ 0)
  drained {p = p} r h =
      let c = Reach-Counts r in
      (omega (arith, c.exact), none_held p.workers (omega (arith, c.exact)))
