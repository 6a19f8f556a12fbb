-- ===== src/Worker/Scheduler/Reach.antt =====
-- Every state that calls of src/semantic/worker/scheduler.rs can lead to.
use trufflepig.Prelude.{refl, arith, Key}
use trufflepig.Prelude.Maps.{Ord, get, has}
use trufflepig.Worker.Scheduler.{RequestClass, FairScheduler, default, enqueue, pop}
use trufflepig.Worker.Scheduler.Views.{IsValid}
use trufflepig.Worker.Scheduler.Enqueue.{enqueue-IsValid}
use trufflepig.Worker.Scheduler.Pop.{pop-IsValid}

module _ {K T : Type 0} ⦃e : Key K⦄ ⦃o : Ord K⦄ where
  pub data Reach : FairScheduler K T → Type 0 where
    created : Reach default
    enqueued :
        {s : FairScheduler K T} (root : K) (class : RequestClass) (item : T)
        → Reach s
        → Reach (enqueue s root class item)
    popped : {s : FairScheduler K T} → Reach s → Reach (pop s).0

  default-IsValid : IsValid {K = K} {T = T} default
  unfolding default get has
  default-IsValid = record {
    linked = record {
      order_distinct = tt;
      roots_distinct = tt;
      same = λ k. refl;
      cursor_in = omega arith;
    };
    live = λ k q h. absurd (ground arith);
  }

  -- After any history of calls, `order` and `roots` name the same roots, once each, the cursor is
  -- inside `order`, and every root that is kept has work.
  pub Reach-IsValid : {s : FairScheduler K T} → Reach s → IsValid s
  Reach-IsValid created = default-IsValid
  Reach-IsValid (enqueued {s = s} root class item r) =
      enqueue-IsValid s root class item (Reach-IsValid r)
  Reach-IsValid (popped {s = s} r) = pop-IsValid s (Reach-IsValid r)
