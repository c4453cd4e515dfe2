-- ===== src/Monitoring/Keeps.antt =====
-- What a monitoring keeps: whatever a refresh of a user keeps.
use liquidator.Base.{List, [], ◌∷◌, none, some, filter}
use liquidator.BigNumber.{BigNumber}
use liquidator.Config.{network_eq}
use liquidator.Orm.{Orm}
use liquidator.Zone.{Zone}
use liquidator.State.{App, UserAccount}
use liquidator.State.Monad.{gets}
use liquidator.State.Preserves.{Preserves, gets-Preserves, pure-Preserves, bind-Preserves}
use liquidator.Services.{Services, Listener}
use liquidator.Queue.{UpdateRequest}
use liquidator.Enqueue.{update_user_account_data}
use liquidator.Enqueue.Kept.{IsKept, update_user_account_data-Preserves}
use liquidator.Listeners.{get_listeners}
use liquidator.Monitoring.{get_users, refresh_accounts, refresh_by_listeners, monitoring_callback}

module _ (bn : BigNumber) (orm : Orm) {World : Type 0} (services : Services bn.Num World)
    (P : App bn.Num World → Type 0) (kept : IsKept orm P) where
  refresh_accounts-Preserves :
      (listener : Listener) (users : List (UserAccount bn.Num))
      → Preserves P (refresh_accounts bn orm services listener users)
  unfolding refresh_accounts
  refresh_accounts-Preserves listener [] = pure-Preserves P tt
  refresh_accounts-Preserves listener (u ∷ users) =
      let request : UpdateRequest = record {
        user_address = u.address;
        network = some listener.network_id;
      } in
      bind-Preserves P (update_user_account_data bn orm services request (some listener))
        (λ _. refresh_accounts bn orm services listener users)
        (update_user_account_data-Preserves bn orm services P kept request (some listener))
        (λ _. refresh_accounts-Preserves listener users)

  refresh_by_listeners-Preserves :
      (users : List (UserAccount bn.Num)) (ls : List Listener)
      → Preserves P (refresh_by_listeners bn orm services users ls)
  unfolding refresh_by_listeners
  refresh_by_listeners-Preserves users [] = pure-Preserves P tt
  refresh_by_listeners-Preserves users (l ∷ ls) =
      let mine = filter (λ (u : UserAccount bn.Num). network_eq u.network_id l.network_id) users in
      bind-Preserves P (refresh_accounts bn orm services l mine)
        (λ _. refresh_by_listeners bn orm services users ls) (refresh_accounts-Preserves l mine)
        (λ _. refresh_by_listeners-Preserves users ls)

  pub monitoring_callback-Preserves :
      (zone : Zone) → Preserves P (monitoring_callback bn orm services zone)
  unfolding monitoring_callback
  monitoring_callback-Preserves zone =
      bind-Preserves P (gets (get_users orm (some zone) none)) _
        (gets-Preserves P (get_users orm (some zone) none))
        (λ users.
          bind-Preserves P (gets (get_listeners orm none))
            (refresh_by_listeners bn orm services users) (gets-Preserves P (get_listeners orm none))
            (refresh_by_listeners-Preserves users))
