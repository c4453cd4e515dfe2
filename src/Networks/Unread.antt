-- ===== src/Networks/Unread.antt =====
-- What `initNetworks` makes of a network whose balance was not read.
use liquidator.Base.{
  ◌≡◌, refl, ◌∙◌, inl, inr, Bool, true, false, Option, none, some, List, [], ◌∷◌, count, All,
  Bool-cases,
}
use liquidator.Config.{Network, network_eq}
use liquidator.Orm.{Orm}
use liquidator.State.{App, NetworkRow}
use liquidator.Networks.{
  Seed, NetworkReads, inactive, put_network, valid_row, check_seeds, init_networks,
}
use liquidator.Networks.Init.{HasClient, with_client, check_elim, All-append}
use liquidator.Networks.Rows.{of_network, put_network_other, put_networks_other}

module _ {Num World : Type 0} (reads : NetworkReads Num World) where
  -- Where the seed is one of the network, its node does not answer.
  pub record IsUnread (n : Network) (seed : Seed Num) : Type 0 where
    pub has_client : network_eq seed.id n ≡ true → HasClient reads seed
    pub unread :
        network_eq seed.id n ≡ true → (t : App Num World) → reads.get_balance seed.provider t ≡ none

module _ (orm : Orm) {Num World : Type 0} (reads : NetworkReads Num World) where
  valid_row_other :
      (n : Network) (seed : Seed Num) (s : App Num World)
      → network_eq seed.id n ≡ false
      → All (λ r. network_eq r.id n ≡ false) (valid_row orm reads seed s)
  unfolding valid_row
  valid_row_other n seed s other = go (reads.get_balance seed.provider s)
    where
      go :
          (o : Option Num)
          → All
              (λ (r : NetworkRow Num). network_eq r.id n ≡ false)
              (elim o [
                | none ↦ []
                | some balance ↦ record { id = seed.id; balance = balance; is_active = true } ∷ []
              ])
      go none = tt
      go (some balance) = (other, tt)

  valid_row_unread :
      (seed : Seed Num) (s : App Num World)
      → reads.get_balance seed.provider s ≡ none
      → valid_row orm reads seed s ≡ []
  unfolding valid_row
  valid_row_unread seed s h = rw (h, valid_row) refl

  check_unread :
      (n : Network) (p : NetworkRow Num → Bool) (seeds : List (Seed Num)) (s : App Num World)
      → All (IsUnread reads n) seeds
      → All (λ r. network_eq r.id n ≡ false) (check_seeds orm reads seeds s).0
        × (count (of_network n p) (check_seeds orm reads seeds s).1.networks
            ≡ count (of_network n p) s.networks)
  unfolding check_seeds
  check_unread n p [] s h = (tt, refl)
  check_unread n p (seed ∷ rest) s h = elim (Bool-cases (network_eq seed.id n)) [
    | inl same ↦
        let later = check_unread n p rest s h.1 in
        (
          (unfold check_seeds in
              rw
                (
                  with_client orm reads seed rest s (h.0.has_client same),
                  valid_row_unread seed s (h.0.unread same s),
                )
                (later.0)),
          (unfold check_seeds in
              rw (with_client orm reads seed rest s (h.0.has_client same)) (later.1)),
        )
    | inr other ↦
        let put = check_unread n p rest (put_network orm (inactive seed) s) h.1 in
        let later = check_unread n p rest s h.1 in
        check_elim orm reads
          (λ r.
            All (λ x. network_eq x.id n ≡ false) (r.0)
            × (count (of_network n p) (r.1).networks ≡ count (of_network n p) s.networks))
          seed rest s (put.0, put.1 ∙ put_network_other orm n p (inactive seed) s other)
          (
            All-append (λ (x : NetworkRow Num). network_eq x.id n ≡ false)
                (valid_row orm reads seed s) (check_seeds orm reads rest s).0
                (valid_row_other n seed s other) (later.0),
            later.1,
          )
  ]

  -- A network with a provider whose node does not answer keeps its rows: it stays active if it was,
  -- and whatever else its rows are tested for.
  pub unread_kept :
      (n : Network) (p : NetworkRow Num → Bool) (seeds : List (Seed Num)) (s : App Num World)
      → All (IsUnread reads n) seeds
      → count (of_network n p) (init_networks orm reads seeds s).networks
        ≡ count (of_network n p) s.networks
  unfolding init_networks
  unread_kept n p seeds s h =
      let loop = check_unread n p seeds s h in
      put_networks_other orm n p (check_seeds orm reads seeds s).0 (check_seeds orm reads seeds s).1
        (loop.0)
      ∙ loop.1
