-- ===== src/Backend/Tests.antt =====
-- Two steps of the backend and a new start, on one user with one position.
use liquidator.Base.{◌&&◌, str_eq, Bool, true, false, ℕ, refl, [], ◌∷◌, arith}
use liquidator.Base.Results.{ok}
use liquidator.BigNumber.Exact.{exact, Decimal}
use liquidator.Config.{bsc}
use liquidator.Orm.Memory.{memory}
use liquidator.State.{App, Status, liquidated, processing, pending, deferred, cancelled, error}
use liquidator.Services.Sample.{sortable, app, position, account_data}
use liquidator.Enqueue.Rows.{WorksOn}
use liquidator.Enqueue.Settled.{Mark, IsClosed}
use liquidator.Enqueue.Tests.{app-WorksOn}
use liquidator.Worker.{liquidate_check_queue}
use liquidator.Listeners.{BlockReads, confirmed_block}
use liquidator.Contracts.Tests.{node}
use liquidator.Reserves.Tests.{reads}
use liquidator.Tokens.Tests.{token_reads}
use liquidator.Program.{Reach, check, block, start, later}
use liquidator.Backend.{Chain, services_of}
use liquidator.Networks.Tests.{network_reads}
use liquidator.Backend.Start.{create_server, Life, begin, run, restart}
use liquidator.Backend.Writes.{OnChain}
use liquidator.Backend.Safety.{one_in_work, ends_stay}

abbrev chain : Chain Decimal ℕ
chain = record {
  node = node;
  tokens = token_reads;
  reserves = reads;
  get_user_account_data = λ user pool network s. ok account_data;
  deletes_jobs = λ user_address s. true;
  adds_job = λ job s. true;
  can_update_listeners = λ block network s. ok tt;
}

abbrev block_reads : BlockReads Decimal ℕ
block_reads = record {
  get_lending_pool_address = λ network s. ok "0xp";
  get_block_number = λ network s. ok 8;
  get_past_events = λ address range network s. ok [];
}

node-OnChain : OnChain node
node-OnChain = record { only_world = λ call gas price network s. refl }

-- The check of the queue, and then a block without events.
abbrev checked : App Decimal ℕ → App Decimal ℕ
checked s =
    (liquidate_check_queue exact memory (services_of exact memory chain "0xme") sortable s).1

abbrev two_steps : App Decimal ℕ → App Decimal ℕ
two_steps s =
    (confirmed_block exact memory (services_of exact memory chain "0xme") bsc 8 [] (checked s)).1

both :
    (s : App Decimal ℕ)
    → Reach exact memory
        (services_of exact memory chain "0xme")
        sortable
        block_reads
        s
        (two_steps s)
both s = later (later start (check refl)) (block bsc 8 [] refl)

abbrev restarted : App Decimal ℕ → App Decimal ℕ
restarted s =
    (create_server exact memory chain "0xme" sortable block_reads network_reads [] (two_steps s)).1

whole :
    (s : App Decimal ℕ)
    → Life exact memory chain "0xme" sortable block_reads network_reads [] s (restarted s)
whole s = restart (run begin (both s)) refl

one_in_work_example : WorksOn 1 (restarted app)
one_in_work_example =
    one_in_work exact memory chain "0xme" sortable block_reads network_reads [] node-OnChain
      (whole app) (record { ids = app-WorksOn.ids; few = omega (arith, app-WorksOn.few) })

abbrev is_liquidated : Status → Bool
is_liquidated liquidated = true
is_liquidated processing = false
is_liquidated pending = false
is_liquidated deferred = false
is_liquidated cancelled = false
is_liquidated error = false

abbrev over : App Decimal ℕ
over = record app { liquidations = record position { status = liquidated } ∷ [] }

-- The row is liquidated, of user u0.
abbrev ended : Mark Decimal
ended = record { id = 1; test = λ r. is_liquidated r.status && str_eq r.user_id "u0" }

over-IsClosed : IsClosed ended over
over-IsClosed = record {
  ids = record { unique = app-WorksOn.ids.unique; below = app-WorksOn.ids.below };
  closed = omega arith;
}

ends_stay_example : IsClosed ended (restarted over)
ends_stay_example =
    ends_stay exact memory chain "0xme" sortable block_reads network_reads [] ended node-OnChain
      (whole over) over-IsClosed
