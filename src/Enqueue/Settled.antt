-- ===== src/Enqueue/Settled.antt =====
-- A position that is liquidated, cancelled or in error is at its end: src/database/Liquidate.ts and
-- src/database/UserAccount.ts write only to queued positions.
use liquidator.Base.{
  ℕ, String, ◌+◌, ◌≤◌, ◌≡◌, ◌≢◌, refl, Bool, true, false, not, ◌&&◌, Option, none, some, List, [],
  ◌∷◌, count, arith, ◌==◌, ==_iff,
}
use liquidator.Base.Results.{Result, ok}
use liquidator.Orm.{Orm}
use liquidator.Orm.Rows.{In}
use liquidator.State.{
  App, Liquidation, Status, liquidated, processing, pending, deferred, cancelled, error,
}
use liquidator.State.Preserves.{Preserves}
use liquidator.Queue.{
  QueueEntry, stamp, new_row, has_id, queued_for, is_queued, update_row, create_row, write_entry,
  set_status, save_entry, cancel_queued,
}
use liquidator.Queue.Counts.{count-update, count-le, count-create, count-without}
use liquidator.Enqueue.Kept.{IsKept}
use liquidator.Enqueue.Rows.{HasIds, update_row-HasIds, create_row-HasIds}

-- Neither waiting nor in work.
abbrev pub is_open : Status → Bool
is_open liquidated = false
is_open processing = true
is_open pending = true
is_open deferred = true
is_open cancelled = false
is_open error = false

abbrev pub open_at : {Num : Type 0} → ℕ → Liquidation Num → Bool
open_at i r = has_id i r && is_open r.status

-- A position by its id, with a test that its row passes.
pub record Mark (Num : Type 0) : Type 0 where
  pub id : ℕ
  pub test : Liquidation Num → Bool

abbrev pub closed_at : {Num : Type 0} → Mark Num → Liquidation Num → Bool
closed_at i r = has_id i.id r && (not (is_open r.status) && i.test r)

-- The position has come to its end, and its row passes the test.
pub record IsClosed {Num : Type 0} (i : Mark Num) {World : Type 0} (s : App Num World)
    : Type 0 where
  pub ids : HasIds s
  pub closed : 1 ≤ count (closed_at i) s.liquidations

queued-is_open : (x : Status) → is_queued x ≡ true → is_open x ≡ true
queued-is_open pending h = refl
queued-is_open deferred h = refl
queued-is_open liquidated h = h
queued-is_open processing h = refl
queued-is_open cancelled h = h
queued-is_open error h = h

module _ {Num : Type 0} where
  count-split :
      (p q : Liquidation Num → Bool) (t : List (Liquidation Num))
      → count p t ≡ count (λ r. p r && q r) t + count (λ r. p r && not (q r)) t
  count-split p q [] = refl
  count-split p q (x ∷ xs) = ground (arith, count-split p q xs)

  -- A row that was found in the table, and is open.
  pub found_open :
      (r : Liquidation Num) (t : List (Liquidation Num))
      → In r t
      → is_open r.status ≡ true
      → 1 ≤ count (open_at r.id) t
  found_open r t member o =
      let here : open_at r.id r ≡ true = rw ((==_iff r.id r.id).1 refl, o) refl in
      let one = count-without (open_at r.id) (λ _. true) r t member here refl in omega (arith, one)

-- An open position is another one.
pub open-IsClosed :
    {Num World : Type 0} (i : Mark Num) (j : ℕ) (s : App Num World)
    → IsClosed i s
    → 1 ≤ count (open_at j) s.liquidations
    → j ≢ i.id
open-IsClosed {Num} i j s h is_there same =
    let both =
      count-split (has_id i.id) (λ (r : Liquidation Num). is_open r.status) s.liquidations in
    let ended =
      count-le (closed_at i) (λ r. has_id i.id r && not (is_open r.status)) s.liquidations
        (λ r t. weaker (has_id i.id r) (not (is_open r.status)) (i.test r) t) in
    omega (arith, both, ended, h.closed, h.ids.unique i.id, (rw same at is_there))
  where
    weaker : (a b c : Bool) → (a && (b && c)) ≡ true → (a && b) ≡ true
    weaker a b c t = ground arith

module _ (orm : Orm) {Num World : Type 0} (i : Mark Num) where
  -- A write to another row leaves the position as it is.
  pub update_row-IsClosed :
      (change : Liquidation Num → Liquidation Num) (id : ℕ) (s : App Num World)
      → ((r : Liquidation Num) → (change r).id ≡ r.id)
      → id ≢ i.id
      → IsClosed i s
      → IsClosed i (update_row orm change id s).1
  unfolding update_row
  update_row-IsClosed change id s keep other h = record {
    ids = unfold update_row in update_row-HasIds orm change id s keep h.ids;
    closed = omega (
      arith,
      h.closed,
      count-update orm (closed_at i) (has_id id) (stamp s.now change) s.liquidations,
      apart,
    );
  }
    where
      elsewhere :
          (a : ℕ) (b : Bool)
          → ((a == i.id) && b) ≡ true
          → (((a == i.id) && b) && not (a == id)) ≡ true
      elsewhere a b t = ground (arith, other)

      apart :
          count (closed_at i) s.liquidations
          ≤ count (λ r. closed_at i r && not (has_id id r)) s.liquidations
      apart =
          count-le (closed_at i) (λ r. closed_at i r && not (has_id id r)) s.liquidations
            (λ r t. elsewhere r.id (not (is_open r.status) && i.test r) t)

  pub create_row-IsClosed :
      (e : QueueEntry Num) (s : App Num World) → IsClosed i s → IsClosed i (create_row orm e s).1
  unfolding create_row
  create_row-IsClosed e s h = record {
    ids = unfold create_row in create_row-HasIds orm e s h.ids;
    closed = omega (
      arith,
      h.closed,
      count-create orm (closed_at i) (new_row e s.next_id s.now) s.liquidations,
    );
  }

  -- The row that was found is queued, and so another one.
  queued_other :
      (u : String) (r : Liquidation Num) (s : App Num World)
      → orm.find_one (queued_for u) s.liquidations ≡ some r
      → IsClosed i s
      → r.id ≢ i.id
  queued_other u r s e h =
      let found = orm.find_one_some (queued_for u) s.liquidations r e in
      let queued : is_queued r.status ≡ true = ground (arith, found.1) in
      open-IsClosed i r.id s h
        (found_open r s.liquidations (found.0) (queued-is_open r.status queued))

  save_entry-IsClosed :
      (e : QueueEntry Num) → Preserves {S = App Num World} (IsClosed i) (save_entry orm e)
  unfolding save_entry
  save_entry-IsClosed e = record {
    apply = λ s h. go s h (orm.find_one (queued_for e.user_id) s.liquidations) refl;
  }
    where
      go :
          (s : App Num World)
          → IsClosed i s
          → (o : Option (Liquidation Num)) → orm.find_one (queued_for e.user_id) s.liquidations ≡ o
          → let end : Result (Unit {0}) × App Num World = elim o [
            | some r ↦ update_row orm (write_entry e) r.id s
            | none ↦ create_row orm e s
          ] in
            IsClosed i end.1
      go s h none q = create_row-IsClosed e s h
      go s h (some r) q =
          unfold write_entry in
          update_row-IsClosed (write_entry e) r.id s (λ x. refl) (queued_other e.user_id r s q h) h

  cancel_queued-IsClosed :
      (u : String) → Preserves {S = App Num World} (IsClosed i) (cancel_queued orm u)
  unfolding cancel_queued
  cancel_queued-IsClosed u = record {
    apply = λ s h. go s h (orm.find_one (queued_for u) s.liquidations) refl;
  }
    where
      go :
          (s : App Num World)
          → IsClosed i s
          → (o : Option (Liquidation Num)) → orm.find_one (queued_for u) s.liquidations ≡ o
          → let end : Result (Unit {0}) × App Num World = elim o [
            | some r ↦ update_row orm (set_status cancelled) r.id s
            | none ↦ (ok tt, s)
          ] in
            IsClosed i end.1
      go s h none q = h
      go s h (some r) q =
          unfold set_status in
          update_row-IsClosed (set_status cancelled) r.id s (λ x. refl) (queued_other u r s q h) h

  pub kept_IsClosed : IsKept orm {Num = Num} {World = World} (IsClosed i)
  kept_IsClosed = record {
    saves = λ e idle. save_entry-IsClosed e;
    cancels = cancel_queued-IsClosed;
    users_free = λ s users uuids h. record {
      ids = record { unique = h.ids.unique; below = h.ids.below };
      closed = h.closed;
    };
    jobs_free = λ s jobs h. record {
      ids = record { unique = h.ids.unique; below = h.ids.below };
      closed = h.closed;
    };
  }
