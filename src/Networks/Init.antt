-- ===== src/Networks/Init.antt =====
-- What `initNetworks` makes of a network whose balance was read.
use liquidator.Base.{
  ◌≤◌, ◌≡◌, refl, inl, inr, Bool, true, false, not, Option, none, some, List, [], ◌∷◌, ◌++◌, count,
  count-append, All, arith, str_eq, if◌then◌else◌, subst,
}
use liquidator.Base.Results.{Result, ok, err}
use liquidator.Config.{Network, network_eq}
use liquidator.Orm.{Orm}
use liquidator.Orm.Rows.{In}
use liquidator.State.{App, NetworkRow}
use liquidator.Networks.{
  Seed, NetworkReads, inactive, put_network, valid_row, check_seeds, init_networks,
}
use liquidator.Networks.Rows.{of_network, put_networks_active}

pub All-append :
    {A : Type 0} (P : A → Type 0) (xs ys : List A) → All P xs → All P ys → All P (xs ++ ys)
All-append P [] ys hx hy = hy
All-append P (x ∷ xs) ys hx hy = (hx.0, All-append P xs ys hx.1 hy)

module _ {Num World : Type 0} (reads : NetworkReads Num World) where
  -- The seed has a provider that a client can be made for.
  pub record HasClient (seed : Seed Num) : Type 0 where
    pub provided : str_eq seed.provider "" ≡ false
    pub client : reads.new_web3 seed.provider ≡ ok tt

module _ (orm : Orm) {Num World : Type 0} (reads : NetworkReads Num World) where
  -- The loop on a seed that has a client.
  pub with_client :
      (seed : Seed Num) (rest : List (Seed Num)) (s : App Num World)
      → HasClient reads seed
      → check_seeds orm reads (seed ∷ rest) s ≡ (
        valid_row orm reads seed s ++ (check_seeds orm reads rest s).0,
        (check_seeds orm reads rest s).1,
      )
  unfolding check_seeds
  with_client seed rest s h = rw (h.provided, h.client) refl

  -- To prove something of the loop on a seed: the network is put down as inactive, or it gets a row
  -- if its balance was read.
  pub check_elim :
      (Q : List (NetworkRow Num) × App Num World → Type 0) (seed : Seed Num)
      (rest : List (Seed Num)) (s : App Num World)
      → Q (check_seeds orm reads rest (put_network orm (inactive seed) s))
      → Q (
        valid_row orm reads seed s ++ (check_seeds orm reads rest s).0,
        (check_seeds orm reads rest s).1,
      )
      → Q (check_seeds orm reads (seed ∷ rest) s)
  unfolding check_seeds
  check_elim Q seed rest s bad good =
      by_provider (str_eq seed.provider "") (reads.new_web3 seed.provider)
    where
      by_provider :
          (b : Bool) (r : Result (Unit {0}))
          → Q (
              if not b
              then elim r [
                | err e ↦ check_seeds orm reads rest (put_network orm (inactive seed) s)
                | ok _ ↦ (
                  valid_row orm reads seed s ++ (check_seeds orm reads rest s).0,
                  (check_seeds orm reads rest s).1,
                )
              ]
              else check_seeds orm reads rest (put_network orm (inactive seed) s))
      by_provider true r = bad
      by_provider false (err e) = bad
      by_provider false (ok _) = good

  valid_row_active :
      (seed : Seed Num) (s : App Num World)
      → All (λ r. r.is_active ≡ true) (valid_row orm reads seed s)
  unfolding valid_row
  valid_row_active seed s = go (reads.get_balance seed.provider s)
    where
      go :
          (o : Option Num)
          → All
              (λ (r : NetworkRow Num). r.is_active ≡ true)
              (elim o [
                | none ↦ []
                | some balance ↦ record { id = seed.id; balance = balance; is_active = true } ∷ []
              ])
      go none = tt
      go (some balance) = (refl, tt)

  check_active :
      (seeds : List (Seed Num)) (s : App Num World)
      → All (λ r. r.is_active ≡ true) (check_seeds orm reads seeds s).0
  unfolding check_seeds
  check_active [] s = tt
  check_active (seed ∷ rest) s =
      check_elim (λ r. All (λ x. x.is_active ≡ true) (r.0)) seed rest s
        (check_active rest (put_network orm (inactive seed) s))
        (All-append (λ (x : NetworkRow Num). x.is_active ≡ true) (valid_row orm reads seed s)
          (check_seeds orm reads rest s).0 (valid_row_active seed s) (check_active rest s))

  valid_row_read :
      (seed : Seed Num) (b : Num) (s : App Num World)
      → reads.get_balance seed.provider s ≡ some b
      → valid_row orm reads seed s ≡ record { id = seed.id; balance = b; is_active = true } ∷ []
  unfolding valid_row
  valid_row_read seed b s h = rw (h, valid_row) refl

  -- The row of a seed that was read is among those that are written.
  check_read :
      (n : Network) (seed : Seed Num) (seeds : List (Seed Num)) (s : App Num World)
      → network_eq seed.id n ≡ true
      → HasClient reads seed
      → ((t : App Num World) → (b : Num) × (reads.get_balance seed.provider t ≡ some b))
      → In seed seeds
      → 1 ≤ count (λ r. network_eq r.id n) (check_seeds orm reads seeds s).0
  unfolding check_seeds
  check_read n seed [] s same has_client read member = elim member [ ]
  check_read n seed (x ∷ rest) s same has_client read (inl e) =
      let client : HasClient reads x = subst (HasClient reads) e has_client in
      let id : network_eq x.id n ≡ true = subst (λ y. network_eq y.id n ≡ true) e same in
      let balance : (b : Num) × (reads.get_balance x.provider s ≡ some b) =
        subst (λ y. (b : Num) × (reads.get_balance y.provider s ≡ some b)) e (read s) in
      unfold check_seeds in
      rw (with_client x rest s client, valid_row_read x (balance.0) s (balance.1), id) (omega arith)
  check_read n seed (x ∷ rest) s same has_client read (inr member) =
      check_elim (λ r. 1 ≤ count (λ y. network_eq y.id n) (r.0)) x rest s
        (check_read n seed rest (put_network orm (inactive x) s) same has_client read member)
        (rw
          (count-append (λ (y : NetworkRow Num). network_eq y.id n) (valid_row orm reads x s)
            (check_seeds orm reads rest s).0)
          (omega (arith, check_read n seed rest s same has_client read member)))

  -- A network whose provider answers with a balance has a row that is active afterwards.
  pub init_networks_active :
      (seed : Seed Num) (seeds : List (Seed Num)) (s : App Num World)
      → HasClient reads seed
      → ((t : App Num World) → (b : Num) × (reads.get_balance seed.provider t ≡ some b))
      → In seed seeds
      → 1 ≤ count (of_network seed.id (λ r. r.is_active)) (init_networks orm reads seeds s).networks
  unfolding init_networks
  init_networks_active seed seeds s has_client read member =
      put_networks_active orm seed.id (check_seeds orm reads seeds s).0
        (check_seeds orm reads seeds s).1 (check_active seeds s)
        (omega (arith, check_read seed.id seed seeds s (itself seed.id) has_client read member))
    where
      itself : (n : Network) → network_eq n n ≡ true
      itself n = ground arith
