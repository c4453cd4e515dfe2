-- ===== src/Listeners/Keeps.antt =====
-- What the listeners keep: whatever a refresh of a user keeps, if the listeners do not bear on it.
use liquidator.Base.{
  ℕ, String, Bool, true, false, Option, none, some, List, [], ◌∷◌, ◌==◌, str_eq, if◌then◌else◌,
}
use liquidator.Base.Results.{Result, ok, err}
use liquidator.BigNumber.{BigNumber}
use liquidator.Config.{Network, deploy_blocks}
use liquidator.Orm.{Orm}
use liquidator.State.{App, ListenerRow, NetworkRow}
use liquidator.State.Monad.{pure, read, gets, ◌>>◌}
use liquidator.State.Preserves.{
  Preserves, read-Preserves, gets-Preserves, pure-Preserves, catch-Preserves, bind-Preserves,
}
use liquidator.Services.{Services, Listener}
use liquidator.Queue.{UpdateRequest}
use liquidator.Enqueue.{update_user_account_data}
use liquidator.Enqueue.Kept.{IsKept, update_user_account_data-Preserves}
use liquidator.Events.{Event, get_users_from_events}
use liquidator.Listeners.{
  BlockReads, get_listeners, set_last_block, lp_update_block, add_listener, add_listeners,
  lp_get_past_events, refresh_users, confirmed_block, refresh_past_users, catch_up_from, catch_up,
  catch_up_all, init_lending_pool_listeners,
}

-- The table of the listeners does not bear on the property.
pub record ListenersFree {Num World : Type 0} (P : App Num World → Type 0) : Type 0 where
  pub free : (s : App Num World) (ls : List ListenerRow) → P s → P (record s { listeners = ls })

module _ (orm : Orm) {Num World : Type 0} (P : App Num World → Type 0)
    (free : ListenersFree P) where
  add_listener-keeps :
      (address : String) (network : Network) (s : App Num World)
      → P s
      → P (add_listener orm address network s)
  unfolding add_listener
  add_listener-keeps address network s h =
      by_row (orm.find_one (λ (l : ListenerRow). str_eq l.contract_address address) s.listeners)
    where
      by_row :
          (o : Option ListenerRow)
          → let end : App Num World = elim o [
            | some l ↦ s
            | none ↦ record s {
              listeners =
                  orm.create
                    (record {
                      contract_address = address;
                      network_id = network;
                      last_block = some (deploy_blocks network);
                    })
                    s.listeners;
            }
          ] in
            P end
      by_row none = free.free s _ h
      by_row (some l) = h

  add_listeners-Preserves :
      (reads : BlockReads Num World) (networks : List (NetworkRow Num))
      → Preserves P (add_listeners orm reads networks)
  unfolding add_listeners
  add_listeners-Preserves reads [] = record { apply = λ s h. h }
  add_listeners-Preserves reads (n ∷ rest) = record {
    apply = λ s h.
        by_address (add_listeners-Preserves reads rest) s h (reads.get_lending_pool_address n.id s);
  }
    where
      by_address :
          Preserves P (add_listeners orm reads rest)
          → (s : App Num World) → P s
          → (r : Result String)
          → let end : Result (Unit {0}) × App Num World = elim r [
            | err e ↦ (err e, s)
            | ok address ↦ add_listeners orm reads rest (add_listener orm address n.id s)
          ] in
            P end.1
      by_address later s h (err e) = h
      by_address later s h (ok address) =
          later.apply (add_listener orm address n.id s) (add_listener-keeps address n.id s h)

module _ (bn : BigNumber) (orm : Orm) {World : Type 0} (services : Services bn.Num World)
    (P : App bn.Num World → Type 0) (kept : IsKept orm P) (free : ListenersFree P) where
  lp_update_block-Preserves :
      (block : ℕ) (network : Network) → Preserves P (lp_update_block bn orm services block network)
  unfolding lp_update_block set_last_block
  lp_update_block-Preserves block network = record {
    apply = λ s h. go s h (services.can_update_listeners block network s);
  }
    where
      go :
          (s : App bn.Num World)
          → P s
          → (r : Result (Unit {0}))
          → let end : Result (Unit {0}) × App bn.Num World = elim r [
            | err e ↦ (err e, s)
            | ok _ ↦ (ok tt, set_last_block orm block network s)
          ] in
            P end.1
      go s h (err e) = h
      go s h (ok u) = free.free s _ h

  refresh_users-Preserves :
      (network : Network) (users : List (Option String))
      → Preserves P (refresh_users bn orm services network users)
  unfolding refresh_users
  refresh_users-Preserves network [] = pure-Preserves P tt
  refresh_users-Preserves network (none ∷ users) = refresh_users-Preserves network users
  refresh_users-Preserves network (some user ∷ users) =
      let request : UpdateRequest = record { user_address = user; network = some network } in
      bind-Preserves P (update_user_account_data bn orm services request none)
        (λ _. refresh_users bn orm services network users)
        (update_user_account_data-Preserves bn orm services P kept request none)
        (λ _. refresh_users-Preserves network users)

  recorded-Preserves :
      (network : Network) (block : ℕ)
      → Preserves P (lp_update_block bn orm services block network >> pure true)
  recorded-Preserves network block =
      bind-Preserves P (lp_update_block bn orm services block network) (λ _. pure true)
        (lp_update_block-Preserves block network) (λ _. pure-Preserves P true)

  -- A confirmed block.
  pub confirmed_block-Preserves :
      (network : Network) (block : ℕ) (events : List Event)
      → Preserves P (confirmed_block bn orm services network block events)
  unfolding confirmed_block
  confirmed_block-Preserves network block [] =
      catch-Preserves P (lp_update_block bn orm services block network >> pure true)
        (λ e. pure false) (recorded-Preserves network block) (λ e. pure-Preserves P false)
  confirmed_block-Preserves network block (e ∷ events) =
      catch-Preserves P
        (refresh_users bn orm services network (get_users_from_events (e ∷ events))
          >> (lp_update_block bn orm services block network >> pure true))
        (λ e. pure false)
        (bind-Preserves P
          (refresh_users bn orm services network (get_users_from_events (e ∷ events)))
          (λ _. lp_update_block bn orm services block network >> pure true)
          (refresh_users-Preserves network (get_users_from_events (e ∷ events)))
          (λ _. recorded-Preserves network block))
        (λ e. pure-Preserves P false)

  refresh_past_users-Preserves :
      (listener : Listener) (users : List (Option String))
      → Preserves P (refresh_past_users bn orm services listener users)
  unfolding refresh_past_users
  refresh_past_users-Preserves listener [] = pure-Preserves P tt
  refresh_past_users-Preserves listener (none ∷ users) = refresh_past_users-Preserves listener users
  refresh_past_users-Preserves listener (some user ∷ users) =
      let request : UpdateRequest = record { user_address = user; network = none } in
      bind-Preserves P (update_user_account_data bn orm services request (some listener))
        (λ _. refresh_past_users bn orm services listener users)
        (update_user_account_data-Preserves bn orm services P kept request (some listener))
        (λ _. refresh_past_users-Preserves listener users)

  module _ (reads : BlockReads bn.Num World) where
    catch_up_from-Preserves :
        (l : Listener) (from_block : ℕ)
        → Preserves P (catch_up_from bn orm services reads l from_block)
    unfolding catch_up_from
    catch_up_from-Preserves l from_block =
        bind-Preserves P
          (read (lp_get_past_events orm reads l.contract_address from_block l.network_id)) _
          (read-Preserves P
            (lp_get_past_events orm reads l.contract_address from_block l.network_id))
          (λ events.
            bind-Preserves P (refresh_past_users bn orm services l (get_users_from_events events)) _
              (refresh_past_users-Preserves l (get_users_from_events events))
              (λ _.
                bind-Preserves P (read (reads.get_block_number l.network_id))
                  (λ last_block. lp_update_block bn orm services last_block l.network_id)
                  (read-Preserves P (reads.get_block_number l.network_id))
                  (λ last_block. lp_update_block-Preserves last_block l.network_id)))

    catch_up-Preserves : (l : Listener) → Preserves P (catch_up bn orm services reads l)
    unfolding catch_up
    catch_up-Preserves l = by_block l.last_block
      where
        by_test :
            (from_block : ℕ) (b : Bool)
            → Preserves P (if b then pure tt else catch_up_from bn orm services reads l from_block)
        by_test from_block true = pure-Preserves P tt
        by_test from_block false = catch_up_from-Preserves l from_block

        by_block :
            (o : Option ℕ)
            → Preserves P (elim o [
              | none ↦ pure tt
              | some from_block ↦
                  if from_block == 0
                  then pure tt
                  else catch_up_from bn orm services reads l from_block
            ])
        by_block none = pure-Preserves P tt
        by_block (some from_block) = by_test from_block (from_block == 0)

    catch_up_all-Preserves :
        (ls : List Listener) → Preserves P (catch_up_all bn orm services reads ls)
    unfolding catch_up_all
    catch_up_all-Preserves [] = pure-Preserves P tt
    catch_up_all-Preserves (l ∷ ls) =
        bind-Preserves P (catch_up bn orm services reads l)
          (λ _. catch_up_all bn orm services reads ls) (catch_up-Preserves l)
          (λ _. catch_up_all-Preserves ls)

    -- The start of the listeners, with the events of the past.
    pub init_lending_pool_listeners-Preserves :
        Preserves P (init_lending_pool_listeners bn orm services reads)
    unfolding init_lending_pool_listeners
    init_lending_pool_listeners-Preserves =
        catch-Preserves P _ (λ e. pure tt)
          (bind-Preserves P
            (λ (s : App bn.Num World).
              add_listeners orm reads
                (orm.find_all (λ (n : NetworkRow bn.Num). n.is_active) s.networks) s)
            _ (record { apply = λ s. (add_listeners-Preserves orm P free reads _).apply s })
            (λ _.
              bind-Preserves P (gets (get_listeners orm none)) (catch_up_all bn orm services reads)
                (gets-Preserves P (get_listeners orm none)) catch_up_all-Preserves))
          (λ e. pure-Preserves P tt)
