-- ===== src/Daemon/PoolTests.antt =====
-- Runs of src/daemon/pool.rs.
use trufflepig.Prelude.{ℕ, ◌≡◌, refl, true, some, length, [], ◌∷◌}
use trufflepig.Daemon.Pool.{
  PoolSize, RequestPool, new, submit, submit_begin, submit_send, begin_at, send_at, work,
  worker_move, receive, drain, raise_flag, close_sender, close_at, discard, discard_at, take_queued,
}
use trufflepig.Daemon.Pool.Moves.{Reach, made, moved, begins, sends, works, flags, closes, discards}
use trufflepig.Daemon.Pool.Counting.{Counts, Reach-Counts}

abbrev one_worker : PoolSize
one_worker = record { workers = 1; queue = 1 }

-- The worker has the first job, the queue the second, and the third is handed back.
third_refused :
    (submit {Job = ℕ} 9 (submit 8 (work 0 (work 0 (submit 7 (new one_worker)).0))).0).1 ≡ some 9
unfolding submit submit_begin begin_at submit_send send_at work worker_move receive new
third_refused = refl

patient : drain 10 ((2, 0) ∷ (1, 5) ∷ (0, 10) ∷ []) ≡ some true
unfolding drain
patient = refl

abbrev begun : RequestPool ℕ
begun = (submit_begin 7 (new one_worker)).0

abbrev sent : RequestPool ℕ
sent = (submit_send begun).0

begun_and_sent : Reach one_worker sent
begun_and_sent = moved (moved (made one_worker) (begins 7)) sends

-- The worker has the first job, and the loop of `shutdown` the second.
abbrev taken_over : RequestPool ℕ
taken_over = work 0 (work 0 sent)

abbrev queued : RequestPool ℕ
queued = (submit_send (submit_begin 8 taken_over).0).0

abbrev shut : RequestPool ℕ
shut = discard (discard (close_sender (raise_flag queued)))

queued_again : Reach one_worker queued
queued_again = moved (moved (moved (moved begun_and_sent (works 0)) (works 0)) (begins 8)) sends

being_shut : Reach one_worker shut
being_shut = moved (moved (moved (moved queued_again flags) closes) discards) discards

shut_pending : (shut.pending ≡ 2) × (length shut.queue ≡ 0)
unfolding submit_begin begin_at submit_send send_at work worker_move receive new discard discard_at
    take_queued close_sender close_at raise_flag
shut_pending = (refl, refl)

Reach-Counts_example : Counts one_worker shut
Reach-Counts_example = Reach-Counts being_shut
