-- ===== src/Monitoring.antt =====
-- src/utils/monitoring.ts, the refresh of the users of a zone, with `getUsers` of
-- src/database/UserAccount.ts, and src/monitoring/index.ts, which starts three of them.
pub mod Fetched
pub mod Keeps
pub mod Tests
use liquidator.Base.{String, Bool, ◌&&◌, Option, none, some, List, [], ◌∷◌, filter}
use liquidator.BigNumber.{BigNumber}
use liquidator.Config.{Network, network_eq}
use liquidator.Orm.{Orm}
use liquidator.Zone.{Zone, yellow, orange, red, MonitoringOptions, monitorings, matches_zone}
use liquidator.State.{App, UserAccount}
use liquidator.State.Monad.{Action, pure, gets, ◌>>=◌, ◌>>◌}
use liquidator.Services.{Services, Listener}
use liquidator.Enqueue.{update_user_account_data}
use liquidator.Listeners.{on_network, get_listeners}

-- `start` of a monitoring: the zone, and the period of its schedule.
unfoldable pub start_monitoring : Zone → Option (Zone × String)
start_monitoring zone = elim (monitorings zone) [
  | none ↦ none
  | some options ↦ some (zone, options.update_period)
]

-- The zones of src/monitoring/index.ts.
abbrev pub monitored_zones : List Zone
monitored_zones = yellow ∷ orange ∷ red ∷ []

-- The whole `where` clause of `getUsers`.
abbrev pub wanted : {Num : Type 0} → Option Zone → Option Network → UserAccount Num → Bool
wanted zone network u = matches_zone zone u.health_factor && on_network network u.network_id

module _ (orm : Orm) {Num World : Type 0} where
  open orm use {find_all, order_by}

  -- `getUsers`
  unfoldable pub get_users : Option Zone → Option Network → App Num World → List (UserAccount Num)
  get_users zone network s =
      order_by (λ (u : UserAccount Num). u.health_factor) (find_all (wanted zone network) s.users)

module _ (bn : BigNumber) (orm : Orm) {World : Type 0} (services : Services bn.Num World) where
  open bn use {Num}

  -- A refresh for each user, by the listener.
  unfoldable pub refresh_accounts :
      Listener → List (UserAccount Num) → Action (App Num World) (Unit {0})
  refresh_accounts listener [] = pure tt
  refresh_accounts listener (u ∷ users) =
      update_user_account_data bn orm services
        (record { user_address = u.address; network = some listener.network_id }) (some listener)
      >> refresh_accounts listener users

  -- The loop over the listeners, each with the users of its network.
  unfoldable pub refresh_by_listeners :
      List (UserAccount Num) → List Listener → Action (App Num World) (Unit {0})
  refresh_by_listeners users [] = pure tt
  refresh_by_listeners users (l ∷ ls) =
      refresh_accounts l
        (filter (λ (u : UserAccount Num). network_eq u.network_id l.network_id) users)
      >> refresh_by_listeners users ls

  -- `callback`
  unfoldable pub monitoring_callback : Zone → Action (App Num World) (Unit {0})
  monitoring_callback zone = gets (get_users orm (some zone) none) >>= λ users.
      gets (get_listeners orm none) >>= refresh_by_listeners users
