-- ===== src/Backend/Safety.antt =====
-- The backend as a whole never works on two positions, and never reopens one.
use liquidator.Base.{ℕ, String, List}
use liquidator.BigNumber.{BigNumber}
use liquidator.BigNumber.Bigint.{Bigint}
use liquidator.Orm.{Orm}
use liquidator.State.{App}
use liquidator.Enqueue.Rows.{WorksOn}
use liquidator.Enqueue.Settled.{Mark, IsClosed}
use liquidator.Listeners.{BlockReads}
use liquidator.Program.Safety.{
  WorksOn-ListenersFree, IsClosed-ListenersFree, WorksOn-OutsideFree, IsClosed-OutsideFree,
  Reach-WorksOn, Reach-IsClosed,
}
use liquidator.Networks.{Seed, NetworkReads}
use liquidator.Enqueue.InWork.{kept_WorksOn}
use liquidator.Enqueue.Settled.{kept_IsClosed}
use liquidator.Backend.Start.{Life, Life-keeps}
use liquidator.Backend.{Chain, services_of}
use liquidator.Backend.Writes.{OnChain, BalancesFree, services_of-WritesKeep}

module _ {Num World : Type 0} where
  WorksOn-BalancesFree : (k : ℕ) → BalancesFree {Num = Num} {World = World} (WorksOn k)
  WorksOn-BalancesFree k = record {
    networks_free = λ s networks h. record {
      ids = record { unique = h.ids.unique; below = h.ids.below };
      few = h.few;
    };
    tokens_free = λ s tokens h. record {
      ids = record { unique = h.ids.unique; below = h.ids.below };
      few = h.few;
    };
  }

  IsClosed-BalancesFree : (i : Mark Num) → BalancesFree {Num = Num} {World = World} (IsClosed i)
  IsClosed-BalancesFree i = record {
    networks_free = λ s networks h. record {
      ids = record { unique = h.ids.unique; below = h.ids.below };
      closed = h.closed;
    };
    tokens_free = λ s tokens h. record {
      ids = record { unique = h.ids.unique; below = h.ids.below };
      closed = h.closed;
    };
  }

module _ (bn : BigNumber) (orm : Orm) {World : Type 0} (chain : Chain bn.Num World)
    (account : String) (sortable : Bigint bn) (reads : BlockReads bn.Num World)
    (network_reads : NetworkReads bn.Num World) (seeds : List (Seed bn.Num)) where
  -- Whatever happens, and in whichever order the blocks, the monitorings, the checks of the queue,
  -- the jobs and new starts of the backend come, each to its end: if no two positions are in work at
  -- the beginning, no two are at any later time, and no two rows of the queue share an id. A
  -- transaction is taken to change nothing but the chain; what the contracts answer, and which calls
  -- throw, is left open.
  pub one_in_work :
      {s t : App bn.Num World}
      → OnChain chain.node
      → Life bn orm chain account sortable reads network_reads seeds s t
      → WorksOn 1 s
      → WorksOn 1 t
  one_in_work on =
      Life-keeps bn orm chain account sortable reads network_reads seeds (WorksOn 1)
        (kept_WorksOn orm 1) (WorksOn-ListenersFree 1) (WorksOn-BalancesFree 1)
        (λ u v. Reach-WorksOn bn orm (services_of bn orm chain account) sortable reads (
          services_of-WritesKeep bn orm chain account (WorksOn 1) on (WorksOn-OutsideFree 1)
            (WorksOn-BalancesFree 1)))

  -- Whatever happens, new starts of the backend included: a position that is liquidated, cancelled or
  -- in error stays as it is. At every later time its row is still in the table, neither queued nor in
  -- work, and whatever test the row passed, of its status, its profits or its dates, it still passes.
  -- A transaction is taken to change nothing but the chain.
  pub ends_stay :
      (i : Mark bn.Num) {s t : App bn.Num World}
      → OnChain chain.node
      → Life bn orm chain account sortable reads network_reads seeds s t
      → IsClosed i s
      → IsClosed i t
  ends_stay i on =
      Life-keeps bn orm chain account sortable reads network_reads seeds (IsClosed i)
        (kept_IsClosed orm i) (IsClosed-ListenersFree i) (IsClosed-BalancesFree i)
        (λ u v. Reach-IsClosed bn orm (services_of bn orm chain account) sortable reads i (
          services_of-WritesKeep bn orm chain account (IsClosed i) on (IsClosed-OutsideFree i)
            (IsClosed-BalancesFree i)))
