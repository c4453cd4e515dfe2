-- ===== src/Listeners/Blocks.antt =====
-- A confirmed block is finished and recorded, or neither.
use liquidator.Base.{
  subst, sym, ◌⊎◌, inl, inr, ℕ, String, ◌≡◌, refl, ap, ◌∙◌, Bool, true, false, not, ◌&&◌, Option,
  none, some, List, [], ◌∷◌, count, count-never, ◌==◌, arith,
}
use liquidator.Base.Results.{Error, Result, ok, err}
use liquidator.BigNumber.{BigNumber}
use liquidator.Config.{Network, network_eq}
use liquidator.Orm.{Orm}
use liquidator.State.{App, ListenerRow}
use liquidator.State.Monad.{Action, pure, catch, read, caught, bind_ok, ◌>>=◌, ◌>>◌}
use liquidator.Services.{Services}
use liquidator.Queue.{UpdateRequest, delete_job_update_liquidation_data}
use liquidator.Queue.Counts.{count-update}
use liquidator.Enqueue.{update_user_account_data, first_listener, update_by_listener}
use liquidator.Events.{Event, get_users_from_events, keep_first}
use liquidator.Listeners.{lp_update_block, set_last_block, refresh_users, confirmed_block}

abbrev pub stands_at : ℕ → Option ℕ → Bool
stands_at block none = false
stands_at block (some b) = b == block

module _ {S : Type 0} where
  followed :
      {A : Type 0} (m : Action S (Unit {0})) (k : Action S A) (s : S)
      → (m s).0 ≡ ok tt
      → (m >> k) s ≡ k (m s).1
  followed m k s h = bind_ok m (λ _. k) s tt (m s).1 (ap (λ r. (r, (m s).1)) h)

module _ (bn : BigNumber) (orm : Orm) {World : Type 0} (services : Services bn.Num World) where
  update_returns :
      (request : UpdateRequest) (s : App bn.Num World)
      → (update_user_account_data bn orm services request none s).0 ≡ ok tt
  unfolding update_user_account_data
  update_returns request s =
      caught
        (delete_job_update_liquidation_data services.deletes_jobs request.user_address
          >> (read (first_listener bn orm services request.network)
              >>= update_by_listener bn orm services request.user_address))
        s

  refresh_returns :
      (network : Network) (users : List (Option String)) (s : App bn.Num World)
      → (refresh_users bn orm services network users s).0 ≡ ok tt
  unfolding refresh_users
  refresh_returns network [] s = refl
  refresh_returns network (none ∷ users) s = refresh_returns network users s
  refresh_returns network (some user ∷ users) s =
      let request : UpdateRequest = record { user_address = user; network = some network } in
      ap (λ z. z.0)
        (followed (update_user_account_data bn orm services request none)
          (refresh_users bn orm services network users) s (update_returns request s))
      ∙ refresh_returns network users (update_user_account_data bn orm services request none s).1

  -- How many listeners of the network stand at another block.
  abbrev pub behind : Network → ℕ → App bn.Num World → ℕ
  behind network block s =
      count
        (λ (l : ListenerRow). network_eq l.network_id network && not (stands_at block l.last_block))
        s.listeners

  recorded :
      (network : Network) (block : ℕ) (s : App bn.Num World)
      → behind network block (set_last_block orm block network s) ≡ 0
  unfolding set_last_block
  recorded network block s =
      let same = λ (l : ListenerRow). network_eq l.network_id network in
      let late = λ (l : ListenerRow).
        network_eq l.network_id network && not (stands_at block l.last_block) in
      omega (
        arith,
        count-update orm late same (λ (l : ListenerRow). record l { last_block = some block })
            s.listeners,
        count-never
            (λ (l : ListenerRow).
              network_eq l.network_id network
              && (network_eq l.network_id network && not (stands_at block (some block))))
            s.listeners (λ l. at_block (network_eq l.network_id network) block),
        count-never
            (λ (l : ListenerRow).
              (network_eq l.network_id network && not (stands_at block l.last_block))
              && not (network_eq l.network_id network))
            s.listeners
            (λ l. elsewhere (network_eq l.network_id network) (not (stands_at block l.last_block))),
      )
    where
      at_block : (b : Bool) (n : ℕ) → (b && (b && not (stands_at n (some n)))) ≡ false
      at_block b n = ground arith

      elsewhere : (b c : Bool) → ((b && c) && not b) ≡ false
      elsewhere b c = ground arith

  -- The end of the block, in the state after the refreshes.
  Ends : Network → ℕ → App bn.Num World → Result Bool × App bn.Num World → Type 0
  Ends network block t end =
      ((services.can_update_listeners block network t ≡ ok tt)
        × (end.0 ≡ ok true)
        × (behind network block end.1 ≡ 0))
      ⊎ ((e : Error) × (services.can_update_listeners block network t ≡ err e)
          × (end ≡ (ok false, t)))

  record_end :
      (network : Network) (block : ℕ) (t : App bn.Num World)
      → Ends network block t
          (catch (lp_update_block bn orm services block network >> pure true) (λ e. pure false) t)
  unfolding Ends lp_update_block
  record_end network block t = go (services.can_update_listeners block network t) refl
    where
      go :
          (r : Result (Unit {0}))
          → services.can_update_listeners block network t ≡ r
          → let written : Action (App bn.Num World) (Unit {0}) = λ s. elim r [
            | err e ↦ (err e, t)
            | ok _ ↦ (ok tt, set_last_block orm block network t)
          ] in
            Ends network block t (catch (written >> pure true) (λ e. pure false) t)
      go (ok u) q = inl (q, refl, recorded network block t)
      go (err e) q = inr (e, q, refl)

  none_refreshed :
      (network : Network) (s : App bn.Num World)
      → (refresh_users bn orm services network (get_users_from_events []) s).1 ≡ s
  unfolding refresh_users get_users_from_events keep_first
  none_refreshed network s = refl

  -- The end of a confirmed block, after the refreshes of the users of its events, which all return
  -- whatever the services answer: if the database takes the update of the listeners, `done` is called
  -- and every listener of the network stands at the block; if it does not, `done` is not called, and
  -- the state is the one after the refreshes.
  pub confirmed_block_lem :
      (network : Network) (block : ℕ) (events : List Event) (s : App bn.Num World)
      → let t = (refresh_users bn orm services network (get_users_from_events events) s).1 in
        let end = confirmed_block bn orm services network block events s in
        ((services.can_update_listeners block network t ≡ ok tt)
          × (end.0 ≡ ok true)
          × (behind network block end.1 ≡ 0))
        ⊎ ((e : Error) × (services.can_update_listeners block network t ≡ err e)
            × (end ≡ (ok false, t)))
  unfolding confirmed_block Ends
  confirmed_block_lem network block [] s =
      subst
        (λ t.
          Ends network block t (
            catch (lp_update_block bn orm services block network >> pure true) (λ e. pure false) s))
        (sym (none_refreshed network s)) (record_end network block s)
  confirmed_block_lem network block (e ∷ events) s =
      let refreshing = refresh_users bn orm services network (get_users_from_events (e ∷ events)) in
      let last = lp_update_block bn orm services block network >> pure true in
      let after = followed refreshing last s (refresh_returns network _ s) in
      subst (Ends network block (refreshing s).1)
        (ap
          (λ (z : Result Bool × App bn.Num World).
            let end : Result Bool × App bn.Num World = elim (z.0) [
              | ok a ↦ (ok a, z.1)
              | err x ↦ (ok false, z.1)
            ] in
            end)
          (sym after))
        (record_end network block (refreshing s).1)
