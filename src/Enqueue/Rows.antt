-- ===== src/Enqueue/Rows.antt =====
-- The rows of the queue under each write: ids stay apart, and what is in work stays as much.
use liquidator.Base.{
  ℕ, String, ◌+◌, ◌≤◌, ◌≡◌, inl, inr, Bool, true, false, ◌&&◌, count, Bool-cases, arith, leb, ◌==◌,
  str_eq, ==_iff,
}
use liquidator.Orm.{Orm}
use liquidator.State.{App, Liquidation}
use liquidator.Queue.{
  stamp, new_row, has_id, queued_for, is_queued, is_processing, update_row, create_row, QueueEntry,
}
use liquidator.Queue.Counts.{count-update_le, count-create, count-le}

-- The id of a row is not yet given out.
abbrev pub is_ahead : {Num : Type 0} → ℕ → Liquidation Num → Bool
is_ahead next r = leb next r.id

abbrev pub in_work : {Num : Type 0} → Liquidation Num → Bool
in_work r = is_processing r.status

-- No two rows share an id, and the counter is ahead of them all.
pub record HasIds {Num World : Type 0} (s : App Num World) : Type 0 where
  pub unique : (i : ℕ) → count (has_id i) s.liquidations ≤ 1
  pub below : count (is_ahead s.next_id) s.liquidations ≡ 0

-- At most k positions are in work.
pub record WorksOn (k : ℕ) {Num World : Type 0} (s : App Num World) : Type 0 where
  pub ids : HasIds s
  pub few : count in_work s.liquidations ≤ k

-- No user has two queued positions.
pub record OneQueued {Num World : Type 0} (s : App Num World) : Type 0 where
  pub ids : HasIds s
  pub one : (u : String) → count (queued_for u) s.liquidations ≤ 1

module _ (orm : Orm) {Num World : Type 0} where
  -- A change that keeps the ids.
  pub update_row-HasIds :
      (change : Liquidation Num → Liquidation Num) (id : ℕ) (s : App Num World)
      → ((r : Liquidation Num) → (change r).id ≡ r.id)
      → HasIds s
      → HasIds (update_row orm change id s).1
  unfolding update_row
  update_row-HasIds change id s keep h = record {
    unique = λ i. omega (
      arith,
      h.unique i,
      count-update_le orm (has_id i) (has_id id) (stamp s.now change) s.liquidations
          (λ (r : Liquidation Num) (e : has_id i (change r) ≡ true). rw (keep r) at e),
    );
    below = omega (
      arith,
      h.below,
      count-update_le orm (is_ahead s.next_id) (has_id id) (stamp s.now change) s.liquidations
          (λ (r : Liquidation Num) (e : is_ahead s.next_id (change r) ≡ true). rw (keep r) at e),
    );
  }

  unused_id : (s : App Num World) → HasIds s → count (has_id s.next_id) s.liquidations ≡ 0
  unused_id s h = omega (
    arith,
    h.below,
    count-le (has_id s.next_id) (is_ahead s.next_id) s.liquidations
        (λ (r : Liquidation Num) (e : has_id s.next_id r ≡ true). ahead r.id s.next_id e),
  )
    where
      ahead : (a b : ℕ) → (a == b) ≡ true → leb b a ≡ true
      ahead a b e = ground arith

  pub create_row-HasIds :
      (e : QueueEntry Num) (s : App Num World) → HasIds s → HasIds (create_row orm e s).1
  unfolding create_row
  create_row-HasIds e s h =
      let row = new_row e s.next_id s.now in
      record {
        unique = λ i.
            rw (count-create orm (has_id i) row s.liquidations)
              (elim (Bool-cases (s.next_id == i)) [
                | inl same ↦ rw same (
                    let e : s.next_id ≡ i = (==_iff s.next_id i).0 same in
                    let none_yet = unused_id s h in omega (arith, rw e at none_yet))
                | inr other ↦ rw other (omega (arith, h.unique i))
              ]);
        below =
            let fewer =
              count-le (is_ahead (s.next_id + 1)) (is_ahead s.next_id) s.liquidations
                (λ (r : Liquidation Num) (e : is_ahead (s.next_id + 1) r ≡ true).
                  next_ahead r.id s.next_id e) in
            rw (count-create orm (is_ahead (s.next_id + 1)) row s.liquidations)
              (rw (not_ahead s.next_id) (omega (arith, h.below, fewer)));
      }
    where
      next_ahead : (a b : ℕ) → leb (b + 1) a ≡ true → leb b a ≡ true
      next_ahead a b e = ground arith

      not_ahead : (a : ℕ) → leb (a + 1) a ≡ false
      not_ahead a = ground arith

  -- A change after which no row is in work that was not before.
  pub update_row-WorksOn :
      (k : ℕ) (change : Liquidation Num → Liquidation Num) (id : ℕ) (s : App Num World)
      → ((r : Liquidation Num) → (change r).id ≡ r.id)
      → ((r : Liquidation Num) → in_work (change r) ≡ true → in_work r ≡ true)
      → WorksOn k s
      → WorksOn k (update_row orm change id s).1
  unfolding update_row
  update_row-WorksOn k change id s keep idle h = record {
    ids = unfold update_row in update_row-HasIds change id s keep h.ids;
    few = omega (
      arith,
      h.few,
      count-update_le orm in_work (has_id id) (stamp s.now change) s.liquidations
          (λ (r : Liquidation Num) (e : in_work (change r) ≡ true). idle r e),
    );
  }

  -- A change that takes its rows off the queue.
  pub update_row-OneQueued :
      (change : Liquidation Num → Liquidation Num) (id : ℕ) (s : App Num World)
      → ((r : Liquidation Num) → (change r).id ≡ r.id)
      → ((r : Liquidation Num) → is_queued (change r).status ≡ false)
      → OneQueued s
      → OneQueued (update_row orm change id s).1
  unfolding update_row
  update_row-OneQueued change id s keep off h = record {
    ids = update_row-HasIds change id s keep h.ids;
    one = λ u. omega (
      arith,
      h.one u,
      count-update_le orm (queued_for u) (has_id id) (stamp s.now change) s.liquidations
          (λ (r : Liquidation Num) (e : queued_for u (change r) ≡ true).
            absurd (clash (str_eq (change r).user_id u) _ (off r) e)),
    );
  }
    where
      clash : (a b : Bool) → b ≡ false → (a && b) ≡ true → ⊥
      clash a b f t = ground arith
