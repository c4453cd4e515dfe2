-- ===== src/Listeners/Tests.antt =====
-- A block with one event.
use liquidator.Base.{◌⊎◌, ◌≡◌, true, false, none, some, [], ◌∷◌}
use liquidator.Base.Results.{Error, ok, err}
use liquidator.BigNumber.Exact.{exact}
use liquidator.Config.{bsc}
use liquidator.Orm.Memory.{memory}
use liquidator.Services.Sample.{services, app}
use liquidator.Events.{Event, get_users_from_events}
use liquidator.Listeners.{confirmed_block, refresh_users}
use liquidator.Listeners.Blocks.{behind, confirmed_block_lem}

abbrev borrow : Event
borrow = record { values_user = some "0xa"; return_values_user = none; args_user = none }

confirmed_block_lem_example :
    let t = (refresh_users exact memory services bsc (get_users_from_events (borrow ∷ [])) app).1 in
    let end = confirmed_block exact memory services bsc 8 (borrow ∷ []) app in
    ((services.can_update_listeners 8 bsc t ≡ ok tt)
      × (end.0 ≡ ok true)
      × (behind exact memory services bsc 8 end.1 ≡ 0))
    ⊎ ((e : Error) × (services.can_update_listeners 8 bsc t ≡ err e) × (end ≡ (ok false, t)))
confirmed_block_lem_example = confirmed_block_lem exact memory services bsc 8 (borrow ∷ []) app
