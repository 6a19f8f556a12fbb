-- ===== src/Daemon/Pool/Moves.antt =====
-- The moves of the threads of src/daemon/pool.rs, and how many jobs each of them has.
use trufflepig.Prelude.{ℕ, zero, suc, ◌+◌, ◌≡◌, refl, some, List, [], ◌∷◌, get_elem?, set, arith}
use trufflepig.Daemon.Pool.{
  PoolSize, Worker, starting, receiving, exited, received, running, finished, rejecting, rejected,
  Submitter, idle, sending, refused, Emptier, outside, emptying, discarded, discarding, RequestPool,
  new, starting_workers, work, submit_begin, submit_send, raise_flag, close_sender, discard,
}

module _ {Job : Type 0} where
  -- Any thread may move next, and clients may come at any time.
  pub data Step : RequestPool Job → RequestPool Job → Type 0 where
    works : {p : RequestPool Job} (i : ℕ) → Step p (work i p)
    begins : {p : RequestPool Job} (job : Job) → Step p (submit_begin job p).0
    sends : {p : RequestPool Job} → Step p (submit_send p).0
    flags : {p : RequestPool Job} → Step p (raise_flag p)
    closes : {p : RequestPool Job} → Step p (close_sender p)
    discards : {p : RequestPool Job} → Step p (discard p)

  pub data Reach : PoolSize → RequestPool Job → Type 0 where
    made : (size : PoolSize) → Reach size (new size)
    moved : {size : PoolSize} {p q : RequestPool Job} → Reach size p → Step p q → Reach size q

  abbrev pub holds : Worker Job → ℕ
  holds starting = 0
  holds receiving = 0
  holds exited = 0
  holds (received job) = 1
  holds (running job) = 1
  holds finished = 1
  holds (rejecting job) = 1
  holds rejected = 1

  abbrev pub held : List (Worker Job) → ℕ
  held [] = 0
  held (w ∷ ws) = holds w + held ws

  abbrev pub unsent : Submitter Job → ℕ
  unsent idle = 0
  unsent (sending job) = 1
  unsent (refused job) = 1

  abbrev pub dropping : Emptier Job → ℕ
  dropping outside = 0
  dropping emptying = 0
  dropping (discarding job) = 1
  dropping discarded = 1

  pub held-set :
      (ws : List (Worker Job)) (i : ℕ) (v w : Worker Job)
      → get_elem? ws i ≡ some v
      → held (set ws i w) + holds v ≡ held ws + holds w
  held-set [] i v w h = absurd (cc)
  held-set (x ∷ ws) zero v w h = let e : x ≡ v = cc in rw e (omega arith)
  held-set (x ∷ ws) (suc i) v w h = omega (arith, held-set ws i v w h)

pub held-starting : (Job : Type 0) (n : ℕ) → held {Job = Job} (starting_workers n) ≡ 0
held-starting Job zero = refl
held-starting Job (suc n) = omega (arith, held-starting Job n)
