-- ===== src/Backend/Start.antt =====
-- src/server/index.ts, `createServer`: what it does to the state before the backend runs; and the life
-- of the backend, runs with starts between them.
use liquidator.Base.{String, ◌≡◌, sym, subst, List, []}
use liquidator.BigNumber.{BigNumber}
use liquidator.BigNumber.Bigint.{Bigint}
use liquidator.Orm.{Orm}
use liquidator.State.{App}
use liquidator.State.Monad.{Action, modify, ◌>>◌}
use liquidator.State.Preserves.{Preserves, bind-Preserves}
use liquidator.Enqueue.Kept.{IsKept}
use liquidator.Worker.{update_liquidate_queue}
use liquidator.Worker.Refresh.{update_liquidate_queue-Preserves}
use liquidator.Listeners.{BlockReads, init_lending_pool_listeners}
use liquidator.Listeners.Keeps.{ListenersFree, init_lending_pool_listeners-Preserves}
use liquidator.Networks.{Seed, NetworkReads, init_networks}
use liquidator.Networks.Keeps.{init_networks-keeps}
use liquidator.Tokens.{fill_tokens}
use liquidator.Tokens.Keeps.{fill_tokens-Preserves, write_token-keeps}
use liquidator.Program.{Reach}
use liquidator.Backend.{Chain, services_of}
use liquidator.Backend.Writes.{BalancesFree}

module _ (bn : BigNumber) (orm : Orm) {World : Type 0} (chain : Chain bn.Num World)
    (account : String) (sortable : Bigint bn) (reads : BlockReads bn.Num World)
    (network_reads : NetworkReads bn.Num World) (seeds : List (Seed bn.Num)) where
  -- `deleteAllSchdulers`, which empties the table of the jobs.
  unfoldable pub delete_all_schedulers : Action (App bn.Num World) (Unit {0})
  delete_all_schedulers = modify (λ (s : App bn.Num World). record s { jobs = [] })

  -- `createServer`, from the refresh of the queue to the start of the listeners.
  unfoldable pub create_server : Action (App bn.Num World) (Unit {0})
  create_server =
      update_liquidate_queue bn orm (services_of bn orm chain account) sortable
      >> (delete_all_schedulers
          >> (modify (init_networks orm network_reads seeds)
              >> (fill_tokens bn orm chain.tokens account
                  >> init_lending_pool_listeners bn orm (services_of bn orm chain account) reads)))

  -- The states of the backend: it runs, it stops between two steps, and it starts again.
  pub data Life (s : App bn.Num World) : App bn.Num World → Type 0 where
    begin : Life s s
    run :
        {t u : App bn.Num World}
        → Life s t
        → Reach bn orm (services_of bn orm chain account) sortable reads t u
        → Life s u
    restart : {t u : App bn.Num World} → Life s t → u ≡ (create_server t).1 → Life s u

  module _ (P : App bn.Num World → Type 0) (kept : IsKept orm P) (free : ListenersFree P)
      (balances : BalancesFree P) where
    create_server-Preserves : Preserves P create_server
    unfolding create_server delete_all_schedulers
    create_server-Preserves =
        let services = services_of bn orm chain account in
        bind-Preserves P (update_liquidate_queue bn orm services sortable) _
          (update_liquidate_queue-Preserves bn orm services sortable P kept)
          (λ _.
            bind-Preserves P delete_all_schedulers _
              (record { apply = λ s h. kept.jobs_free s [] h })
              (λ _.
                bind-Preserves P (modify (init_networks orm network_reads seeds)) _
                  (record {
                    apply = init_networks-keeps orm network_reads P balances.networks_free seeds;
                  })
                  (λ _.
                    bind-Preserves P (fill_tokens bn orm chain.tokens account) _
                      (fill_tokens-Preserves bn orm chain.tokens account P
                        (write_token-keeps bn orm chain.tokens account P balances.tokens_free))
                      (λ _.
                        init_lending_pool_listeners-Preserves bn orm services P kept free reads))))

    pub Life-keeps :
        {s t : App bn.Num World}
        → ((u v : App bn.Num World)
            → Reach bn orm (services_of bn orm chain account) sortable reads u v
            → P u
            → P v)
        → Life s t
        → P s
        → P t
    Life-keeps runs begin h = h
    Life-keeps runs (run {t} {u} life reach) h = runs t u reach (Life-keeps runs life h)
    Life-keeps runs (restart {t} life e) h =
        subst P (sym e) (create_server-Preserves.apply t (Life-keeps runs life h))
