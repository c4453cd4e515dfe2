-- ===== src/Program/Safety.antt =====
-- What holds in every state that the program reaches.
use liquidator.Base.{ℕ}
use liquidator.BigNumber.{BigNumber}
use liquidator.BigNumber.Bigint.{Bigint}
use liquidator.Orm.{Orm}
use liquidator.State.{App}
use liquidator.Services.{Services}
use liquidator.Liquidator.Effects.{WritesKeep}
use liquidator.Enqueue.Rows.{WorksOn}
use liquidator.Enqueue.InWork.{kept_WorksOn}
use liquidator.Enqueue.Settled.{Mark, IsClosed, kept_IsClosed}
use liquidator.Worker.InWork.{liquidate_check_queue-WorksOn}
use liquidator.Worker.Ends.{liquidate_check_queue-IsClosed, liquidate-IsClosed, liquidate-WorksOn}
use liquidator.Listeners.{BlockReads}
use liquidator.Listeners.Keeps.{ListenersFree}
use liquidator.Program.{Reach}
use liquidator.Program.Invariant.{OutsideFree, Reach-keeps}

module _ {Num World : Type 0} where
  pub WorksOn-ListenersFree : (k : ℕ) → ListenersFree {Num = Num} {World = World} (WorksOn k)
  WorksOn-ListenersFree k = record {
    free = λ s ls h. record {
      ids = record { unique = h.ids.unique; below = h.ids.below };
      few = h.few;
    };
  }

  pub WorksOn-OutsideFree : (k : ℕ) → OutsideFree {Num = Num} {World = World} (WorksOn k)
  WorksOn-OutsideFree k = record {
    clock = λ s now h. record {
      ids = record { unique = h.ids.unique; below = h.ids.below };
      few = h.few;
    };
    world = λ s world h. record {
      ids = record { unique = h.ids.unique; below = h.ids.below };
      few = h.few;
    };
  }

  pub IsClosed-ListenersFree :
      (i : Mark Num) → ListenersFree {Num = Num} {World = World} (IsClosed i)
  IsClosed-ListenersFree i = record {
    free = λ s ls h. record {
      ids = record { unique = h.ids.unique; below = h.ids.below };
      closed = h.closed;
    };
  }

  pub IsClosed-OutsideFree : (i : Mark Num) → OutsideFree {Num = Num} {World = World} (IsClosed i)
  IsClosed-OutsideFree i = record {
    clock = λ s now h. record {
      ids = record { unique = h.ids.unique; below = h.ids.below };
      closed = h.closed;
    };
    world = λ s world h. record {
      ids = record { unique = h.ids.unique; below = h.ids.below };
      closed = h.closed;
    };
  }

module _ (bn : BigNumber) (orm : Orm) {World : Type 0} (services : Services bn.Num World)
    (sortable : Bigint bn) (reads : BlockReads bn.Num World) where
  -- In no order of events, blocks, monitorings, checks of the queue and jobs are two positions in
  -- work at once, if there is no more than one at the start and the writes to the contracts leave
  -- that as it is; and no two positions share an id.
  pub Reach-WorksOn :
      {s t : App bn.Num World}
      → WritesKeep services (WorksOn 1)
      → Reach bn orm services sortable reads s t
      → WorksOn 1 s
      → WorksOn 1 t
  Reach-WorksOn keep =
      Reach-keeps bn orm services sortable reads (WorksOn 1) (kept_WorksOn orm 1)
        (WorksOn-ListenersFree 1) (WorksOn-OutsideFree 1)
        (record { apply = liquidate_check_queue-WorksOn bn orm services sortable })
        (λ user_id. liquidate-WorksOn bn orm services sortable 1 user_id keep)

  -- A position that has come to its end stays as it is: in every state that is reached from there its
  -- row is still in the table, neither queued nor in work, and passes the test that it passed.
  pub Reach-IsClosed :
      (i : Mark bn.Num) {s t : App bn.Num World}
      → WritesKeep services (IsClosed i)
      → Reach bn orm services sortable reads s t
      → IsClosed i s
      → IsClosed i t
  Reach-IsClosed i keep =
      Reach-keeps bn orm services sortable reads (IsClosed i) (kept_IsClosed orm i)
        (IsClosed-ListenersFree i) (IsClosed-OutsideFree i)
        (liquidate_check_queue-IsClosed bn orm services sortable i)
        (λ user_id. liquidate-IsClosed bn orm services sortable i user_id keep)
