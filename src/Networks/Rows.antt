-- ===== src/Networks/Rows.antt =====
-- The rows of the networks after one of them is written.
use liquidator.Base.{
  ℕ, ◌+◌, ◌≤◌, ◌≡◌, refl, ◌∙◌, inl, inr, Bool, true, false, not, ◌&&◌, Option, none, some, List, [],
  ◌∷◌, count, count-never, All, Bool-cases, arith, if◌then◌else◌, ◌==◌,
}
use liquidator.Config.{Network, network_eq, network_code}
use liquidator.Orm.{Orm}
use liquidator.State.{App, NetworkRow}
use liquidator.Queue.Counts.{count-update, count-create, count-le, count-without}
use liquidator.Networks.{put_network, put_networks}

-- The rows of the network that pass the test.
abbrev pub of_network : {Num : Type 0} → Network → (NetworkRow Num → Bool) → NetworkRow Num → Bool
of_network n p r = network_eq r.id n && p r

module _ (orm : Orm) {Num World : Type 0} where
  -- A write to another network.
  pub put_network_other :
      (n : Network) (p : NetworkRow Num → Bool) (row : NetworkRow Num) (s : App Num World)
      → network_eq row.id n ≡ false
      → count (of_network n p) (put_network orm row s).networks ≡ count (of_network n p) s.networks
  unfolding put_network
  put_network_other n p row s other =
      go (orm.find_one (λ (r : NetworkRow Num). network_eq r.id row.id) s.networks) refl
    where
      here : NetworkRow Num → Bool
      here r = network_eq r.id row.id

      never : (b c : Bool) → (b && (network_eq row.id n && c)) ≡ false
      never b c = rw other (by_bool b)
        where
          by_bool : (b : Bool) → (b && false) ≡ false
          by_bool true = refl
          by_bool false = refl

      apart :
          (a : ℕ) (c : Bool)
          → ((a == network_code n) && c) ≡ true
          → (((a == network_code n) && c) && not (a == network_code row.id)) ≡ true
      apart a c t = ground (arith, other)

      back :
          (a : ℕ) (c : Bool)
          → (((a == network_code n) && c) && not (a == network_code row.id)) ≡ true
          → ((a == network_code n) && c) ≡ true
      back a c t = ground arith

      go :
          (o : Option (NetworkRow Num))
          → orm.find_one here s.networks ≡ o
          → count (of_network n p) (orm.upsert here row s.networks)
            ≡ count (of_network n p) s.networks
      go none e =
          rw (orm.upsert_new here row s.networks e)
            (omega (arith, count-create orm (of_network n p) row s.networks, added))
        where
          added : ◌≡◌ {A = ℕ} (if network_eq row.id n && p row then 1 else 0) 0
          added = rw other refl
      go (some m) e = rw (orm.upsert_known here row s.networks m e) (
          omega (
            arith,
            count-update orm (of_network n p) here (λ _. row) s.networks,
            count-never (λ r. here r && of_network n p row) s.networks
                (λ r. never (here r) (p row)),
            count-le (of_network n p) (λ r. of_network n p r && not (here r)) s.networks
                (λ r. apart (network_code r.id) (p r)),
            count-le (λ r. of_network n p r && not (here r)) (of_network n p) s.networks
                (λ r. back (network_code r.id) (p r)),
          ))

  pub put_networks_other :
      (n : Network) (p : NetworkRow Num → Bool) (rows : List (NetworkRow Num)) (s : App Num World)
      → All (λ r. network_eq r.id n ≡ false) rows
      → count (of_network n p) (put_networks orm rows s).networks
        ≡ count (of_network n p) s.networks
  unfolding put_networks
  put_networks_other n p [] s h = refl
  put_networks_other n p (row ∷ rows) s h =
      put_networks_other n p rows (put_network orm row s) h.1 ∙ put_network_other n p row s h.0

  -- A row that is active is there afterwards.
  put_network_here :
      (n : Network) (row : NetworkRow Num) (s : App Num World)
      → network_eq row.id n ≡ true
      → row.is_active ≡ true
      → 1 ≤ count (of_network n (λ r. r.is_active)) (put_network orm row s).networks
  unfolding put_network
  put_network_here n row s same active = go (orm.find_one here s.networks) refl
    where
      here : NetworkRow Num → Bool
      here r = network_eq r.id row.id

      passes : (network_eq row.id n && row.is_active) ≡ true
      passes = rw (same, active) refl

      go :
          (o : Option (NetworkRow Num))
          → orm.find_one here s.networks ≡ o
          → 1 ≤ count (of_network n (λ r. r.is_active)) (orm.upsert here row s.networks)
      go none e =
          let new = count-create orm (of_network n (λ r. r.is_active)) row s.networks in
          let one : ◌≡◌ {A = ℕ} (if network_eq row.id n && row.is_active then 1 else 0) 1 =
            rw passes refl in
          rw (orm.upsert_new here row s.networks e) (omega (arith, new, one))
      go (some m) e =
          let found = orm.find_one_some here s.networks m e in
          let changed =
            count-update orm (of_network n (λ r. r.is_active)) here (λ _. row) s.networks in
          let all =
            count-le here (λ r. here r && (network_eq row.id n && row.is_active)) s.networks
              (λ r t. rw (t, passes) refl) in
          let there = count-without here (λ _. true) m s.networks (found.0) (found.1) refl in
          rw (orm.upsert_known here row s.networks m e) (omega (arith, changed, all, there))

  pub put_network_active :
      (n : Network) (row : NetworkRow Num) (s : App Num World)
      → row.is_active ≡ true
      → 1 ≤ count (of_network n (λ r. r.is_active)) s.networks
      → 1 ≤ count (of_network n (λ r. r.is_active)) (put_network orm row s).networks
  put_network_active n row s active h = elim (Bool-cases (network_eq row.id n)) [
    | inl same ↦ put_network_here n row s same active
    | inr other ↦ omega (arith, h, put_network_other n (λ r. r.is_active) row s other)
  ]

  -- Rows that are all active leave a network active, and make it so if it is among them.
  pub put_networks_active :
      (n : Network) (rows : List (NetworkRow Num)) (s : App Num World)
      → All (λ r. r.is_active ≡ true) rows
      → 1
        ≤ count (of_network n (λ r. r.is_active)) s.networks
          + count (λ (r : NetworkRow Num). network_eq r.id n) rows
      → 1 ≤ count (of_network n (λ r. r.is_active)) (put_networks orm rows s).networks
  unfolding put_networks
  put_networks_active n [] s h some_row = omega (arith, some_row)
  put_networks_active n (row ∷ rows) s h some_row =
      put_networks_active n rows (put_network orm row s) h.1
        (elim (Bool-cases (network_eq row.id n)) [
          | inl same ↦ omega (arith, put_network_here n row s same h.0)
          | inr other ↦
              let rest : 1
                  ≤ count (of_network n (λ r. r.is_active)) s.networks
                    + count (λ (r : NetworkRow Num). network_eq r.id n) rows =
                rw other at some_row in
              omega (arith, rest, put_network_other n (λ r. r.is_active) row s other)
        ])
