-- ===== src/Listeners.antt =====
-- The listeners: `getListeners` of src/database/Listener.ts, `confirmedBlock` of
-- src/listener/handle/collect-users.ts, which is called with the events of a block, and
-- `initLendingPoolListeners` of src/listener/index.ts, which takes up the events of the past.
pub mod Blocks
pub mod Keeps
pub mod Tests
use liquidator.Base.{
  ℕ, String, Bool, true, false, ◌&&◌, Option, none, some, List, [], ◌∷◌, ◌++◌, map, str_eq, ◌==◌,
  if◌then◌else◌,
}
use liquidator.Base.Results.{Error, Result, ok, err, type_error}
use liquidator.BigNumber.{BigNumber}
use liquidator.Config.{Network, network_eq, deploy_blocks}
use liquidator.Orm.{Orm}
use liquidator.State.{App, ListenerRow, NetworkRow}
use liquidator.State.Monad.{Action, pure, read, gets, catch, ◌>>=◌, ◌>>◌}
use liquidator.Services.{Services, Listener}
use liquidator.Enqueue.{update_user_account_data}
use liquidator.Events.{BlockRange, block_ranges, Event, get_users_from_events}

-- What the node answers about blocks, and where the pool is.
pub record BlockReads (Num World : Type 0) : Type 0 where
  pub get_lending_pool_address : Network → App Num World → Result String
  pub get_block_number : Network → App Num World → Result ℕ
  pub get_past_events : String → BlockRange → Network → App Num World → Result (List Event)

-- `if (network) where.networkId = network`
unfoldable pub on_network : Option Network → Network → Bool
on_network none network = true
on_network (some wanted) network = network_eq network wanted

unfoldable pub listener_of : ListenerRow → Listener
listener_of l = record {
  contract_address = l.contract_address;
  network_id = l.network_id;
  last_block = l.last_block;
}

module _ (orm : Orm) {Num World : Type 0} where
  open orm use {find_one, find_all, create, update}

  -- `include` of the network, `where: { isActive: true }`
  unfoldable pub has_active_network : App Num World → ListenerRow → Bool
  has_active_network s l =
      elim (find_one (λ (n : NetworkRow Num). network_eq n.id l.network_id) s.networks) [
        | none ↦ false
        | some n ↦ n.is_active
      ]

  -- `getListeners` for the one name there is; each ABI is a file of the repository.
  unfoldable pub get_listeners : Option Network → App Num World → List Listener
  get_listeners network s =
      map listener_of
        (find_all (λ l. on_network network l.network_id && has_active_network s l) s.listeners)

  -- `ListenerModel.update({ lastBlock }, …)` for the network.
  unfoldable pub set_last_block : ℕ → Network → App Num World → App Num World
  set_last_block block network s = record s {
    listeners =
        update (λ (l : ListenerRow). network_eq l.network_id network)
          (λ l. record l { last_block = some block }) s.listeners;
  }

  -- `bulkCreate`, where a row with the address stays as it is.
  unfoldable pub add_listener : String → Network → App Num World → App Num World
  add_listener address network s =
      elim (find_one (λ (l : ListenerRow). str_eq l.contract_address address) s.listeners) [
        | some l ↦ s
        | none ↦ record s {
          listeners =
              create
                (record {
                  contract_address = address;
                  network_id = network;
                  last_block = some (deploy_blocks network);
                })
                s.listeners;
        }
      ]

  module _ (reads : BlockReads Num World) where
    open reads use {get_lending_pool_address, get_block_number, get_past_events}

    -- The loop over the networks that are active.
    unfoldable pub add_listeners : List (NetworkRow Num) → Action (App Num World) (Unit {0})
    add_listeners [] s = (ok tt, s)
    add_listeners (n ∷ rest) s = elim (get_lending_pool_address n.id s) [
      | err e ↦ (err e, s)
      | ok address ↦ add_listeners rest (add_listener address n.id s)
    ]

    -- The events of all ranges, in their order.
    unfoldable pub fetch_ranges :
        String → Network → List BlockRange → App Num World → Result (List Event)
    fetch_ranges address network [] s = ok []
    fetch_ranges address network (r ∷ rest) s = elim (get_past_events address r network s) [
      | err e ↦ err e
      | ok events ↦ elim (fetch_ranges address network rest s) [
        | err e ↦ err e
        | ok later ↦ ok (events ++ later)
      ]
    ]

    -- `lpGetPastEvents`, and the field of its value that is read: it returns nothing after an error.
    unfoldable pub lp_get_past_events : String → ℕ → Network → App Num World → Result (List Event)
    lp_get_past_events address from_block network s = elim (get_block_number network s) [
      | err e ↦ err type_error
      | ok current_block ↦
          elim (fetch_ranges address network (block_ranges from_block current_block) s) [
            | err e ↦ err type_error
            | ok events ↦ ok events
          ]
    ]

module _ (bn : BigNumber) (orm : Orm) {World : Type 0} (services : Services bn.Num World) where
  open bn use {Num}
  open orm use {find_all}
  open services use {can_update_listeners}

  -- `lpUpdateBlock`, which throws where the database does not take the update.
  unfoldable pub lp_update_block : ℕ → Network → Action (App Num World) (Unit {0})
  lp_update_block block network s = elim (can_update_listeners block network s) [
    | err e ↦ (err e, s)
    | ok _ ↦ (ok tt, set_last_block orm block network s)
  ]

  -- A refresh for each user; a user that is `null` is not in the list.
  unfoldable pub refresh_users : Network → List (Option String) → Action (App Num World) (Unit {0})
  refresh_users network [] = pure tt
  refresh_users network (none ∷ users) = refresh_users network users
  refresh_users network (some user ∷ users) =
      update_user_account_data bn orm services
        (record { user_address = user; network = some network }) none
      >> refresh_users network users

  -- `confirmedBlock`: the value is whether `done` was called. Its `catch` only logs.
  unfoldable pub confirmed_block : Network → ℕ → List Event → Action (App Num World) Bool
  confirmed_block network block_number [] =
      catch (lp_update_block block_number network >> pure true) (λ e. pure false)
  confirmed_block network block_number (e ∷ events) =
      catch
        (refresh_users network (get_users_from_events (e ∷ events))
          >> (lp_update_block block_number network >> pure true))
        (λ e. pure false)

  -- A refresh for each user of past events, by the listener itself.
  unfoldable pub refresh_past_users :
      Listener → List (Option String) → Action (App Num World) (Unit {0})
  refresh_past_users listener [] = pure tt
  refresh_past_users listener (none ∷ users) = refresh_past_users listener users
  refresh_past_users listener (some user ∷ users) =
      update_user_account_data bn orm services (record { user_address = user; network = none })
        (some listener)
      >> refresh_past_users listener users

  module _ (reads : BlockReads Num World) where
    open reads use {get_block_number}

    -- The events of the past from a block on: their users are refreshed, and the block up to which
    -- they were taken is read and stored.
    unfoldable pub catch_up_from : Listener → ℕ → Action (App Num World) (Unit {0})
    catch_up_from l from_block =
        read (lp_get_past_events orm reads l.contract_address from_block l.network_id) >>= λ events.
        refresh_past_users l (get_users_from_events events)
        >> (read (get_block_number l.network_id) >>= λ last_block.
            lp_update_block last_block l.network_id)

    -- `if (listener.lastBlock)`
    unfoldable pub catch_up : Listener → Action (App Num World) (Unit {0})
    catch_up l = elim l.last_block [
      | none ↦ pure tt
      | some from_block ↦ if from_block == 0 then pure tt else catch_up_from l from_block
    ]

    unfoldable pub catch_up_all : List Listener → Action (App Num World) (Unit {0})
    catch_up_all [] = pure tt
    catch_up_all (l ∷ ls) = catch_up l >> catch_up_all ls

    -- `initLendingPoolListeners`, whose `catch` only logs.
    unfoldable pub init_lending_pool_listeners : Action (App Num World) (Unit {0})
    init_lending_pool_listeners =
        catch
          ((λ s.
              add_listeners orm reads (find_all (λ (n : NetworkRow Num). n.is_active) s.networks) s)
            >> (gets (get_listeners orm none) >>= catch_up_all))
          (λ e. pure tt)
