-- ===== src/Enqueue/Unique.antt =====
-- Refreshing a user keeps the queue in order: each user has one queued position at most.
use liquidator.Base.{
  ℕ, String, ◌+◌, ◌≤◌, ◌≡◌, refl, inl, inr, Bool, true, false, ◌&&◌, Option, none, some, count,
  if◌then◌else◌, Bool-cases, arith, ==_iff, str_eq, str_eq_iff,
}
use liquidator.Base.Results.{Result, ok}
use liquidator.BigNumber.{BigNumber}
use liquidator.Orm.{Orm}
use liquidator.Orm.Rows.{In}
use liquidator.State.{App, Liquidation, cancelled}
use liquidator.State.Preserves.{Preserves}
use liquidator.Services.{Services, Listener}
use liquidator.Queue.{
  stamp, new_row, has_id, queued_for, update_row, write_entry, set_status, create_row, save_entry,
  cancel_queued, QueueEntry, UpdateRequest,
}
use liquidator.Queue.Counts.{
  count-update_le, count-update_at, count-create, count-none, count-without,
}
use liquidator.Enqueue.{update_user_account_data}
use liquidator.Enqueue.Kept.{IsKept, update_user_account_data-Preserves}
use liquidator.Enqueue.Rows.{OneQueued, update_row-HasIds, create_row-HasIds, update_row-OneQueued}

off_user : (a b : Bool) → a ≡ false → (a && b) ≡ true → ⊥
off_user a b f t = ground arith

module _ (orm : Orm) {Num World : Type 0} where
  overwrite-OneQueued :
      (e : QueueEntry Num) (r : Liquidation Num) (s : App Num World)
      → In r s.liquidations
      → queued_for e.user_id r ≡ true
      → OneQueued s
      → OneQueued (update_row orm (write_entry e) r.id s).1
  unfolding update_row write_entry
  overwrite-OneQueued e r s member queued h = record {
    ids =
        unfold update_row write_entry in
        update_row-HasIds orm (write_entry e) r.id s (λ x. refl) h.ids;
    one = λ u. elim (Bool-cases (str_eq e.user_id u)) [
      | inl same ↦
          let mine : queued_for u r ≡ true = rw ((str_eq_iff e.user_id u).0 same) at queued in
          omega (
            arith,
            h.one u,
            h.ids.unique r.id,
            count-update_at orm (queued_for u) (has_id r.id) (stamp s.now (write_entry e))
                s.liquidations,
            count-without (queued_for u) (has_id r.id) r s.liquidations member mine
                ((==_iff r.id r.id).1 refl),
          )
      | inr other ↦ omega (
        arith,
        h.one u,
        count-update_le orm (queued_for u) (has_id r.id) (stamp s.now (write_entry e))
            s.liquidations
            (λ (x : Liquidation Num) (t : queued_for u (write_entry e x) ≡ true).
              absurd (off_user (str_eq e.user_id u) _ other t)),
      )
    ];
  }

  create-OneQueued :
      (e : QueueEntry Num) (s : App Num World)
      → count (queued_for e.user_id) s.liquidations ≡ 0
      → OneQueued s
      → OneQueued (create_row orm e s).1
  unfolding create_row
  create-OneQueued e s free h = record {
    ids = create_row-HasIds orm e s h.ids;
    one = λ u.
        rw (count-create orm (queued_for u) (new_row e s.next_id s.now) s.liquidations)
          (elim (Bool-cases (str_eq e.user_id u)) [
            | inl same ↦
                let none_yet : count (queued_for u) s.liquidations ≡ 0 =
                  rw ((str_eq_iff e.user_id u).0 same) at free in
                bound none_yet (queued_for u (new_row e s.next_id s.now))
            | inr other ↦ rw other (omega (arith, h.one u))
          ]);
  }
    where
      bound : {n : ℕ} → n ≡ 0 → (b : Bool) → n + (if b then 1 else 0) ≤ 1
      bound z true = omega arith
      bound z false = omega arith

  pub save_entry-OneQueued :
      (e : QueueEntry Num) → Preserves {S = App Num World} OneQueued (save_entry orm e)
  unfolding save_entry
  save_entry-OneQueued e = record {
    apply = λ s h. go s h (orm.find_one (queued_for e.user_id) s.liquidations) refl;
  }
    where
      go :
          (s : App Num World)
          → OneQueued s
          → (o : Option (Liquidation Num)) → orm.find_one (queued_for e.user_id) s.liquidations ≡ o
          → let end : Result (Unit {0}) × App Num World = elim o [
            | some r ↦ update_row orm (write_entry e) r.id s
            | none ↦ create_row orm e s
          ] in
            OneQueued end.1
      go s h none q = create-OneQueued e s (count-none _ s.liquidations (orm.find_one_none _ _ q)) h
      go s h (some r) q =
          let found = orm.find_one_some _ s.liquidations r q in
          overwrite-OneQueued e r s found.0 found.1 h

  pub cancel_queued-OneQueued :
      (u : String) → Preserves {S = App Num World} OneQueued (cancel_queued orm u)
  unfolding cancel_queued
  cancel_queued-OneQueued u = record {
    apply = λ s h. go s h (orm.find_one (queued_for u) s.liquidations);
  }
    where
      go :
          (s : App Num World)
          → OneQueued s
          → (o : Option (Liquidation Num))
          → let end : Result (Unit {0}) × App Num World = elim o [
            | some r ↦ update_row orm (set_status cancelled) r.id s
            | none ↦ (ok tt, s)
          ] in
            OneQueued end.1
      go s h none = h
      go s h (some r) =
          unfold set_status in
          update_row-OneQueued orm (set_status cancelled) r.id s (λ x. refl) (λ x. refl) h

pub kept_OneQueued :
    (orm : Orm) {Num World : Type 0} → IsKept orm {Num = Num} {World = World} OneQueued
kept_OneQueued orm = record {
  saves = λ e idle. save_entry-OneQueued orm e;
  cancels = λ u. cancel_queued-OneQueued orm u;
  users_free = λ s users uuids h. record {
    ids = record { unique = h.ids.unique; below = h.ids.below };
    one = h.one;
  };
  jobs_free = λ s jobs h. record {
    ids = record { unique = h.ids.unique; below = h.ids.below };
    one = h.one;
  };
}

-- Whatever is answered by the services and the package that does the arithmetic, and whether or not
-- the call throws on the way: `updateUserAccountData` leaves each user with one queued (pending or
-- deferred) position at most, and no two positions with one id, where that held before it.
pub update_user_account_data-OneQueued :
    (bn : BigNumber) (orm : Orm) {World : Type 0} (services : Services bn.Num World)
    (request : UpdateRequest) (listener : Option Listener) (s : App bn.Num World)
    → OneQueued s
    → OneQueued (update_user_account_data bn orm services request listener s).1
update_user_account_data-OneQueued bn orm services request listener =
    (update_user_account_data-Preserves bn orm services OneQueued (kept_OneQueued orm) request
      listener).apply
