-- ===== src/Networks/Keeps.antt =====
-- What the start of the networks keeps: every property that their rows do not bear on.
use liquidator.Base.{List, [], ◌∷◌}
use liquidator.Orm.{Orm}
use liquidator.State.{App, NetworkRow}
use liquidator.Networks.{
  Seed, NetworkReads, inactive, put_network, put_networks, check_seeds, init_networks,
}
use liquidator.Networks.Init.{check_elim}

module _ (orm : Orm) {Num World : Type 0} (reads : NetworkReads Num World)
    (P : App Num World → Type 0)
    (free : (s : App Num World) (networks : List (NetworkRow Num))
      → P s
      → P (record s { networks = networks })) where
  put_network-keeps : (row : NetworkRow Num) (s : App Num World) → P s → P (put_network orm row s)
  unfolding put_network
  put_network-keeps row s h = free s _ h

  put_networks-keeps :
      (rows : List (NetworkRow Num)) (s : App Num World) → P s → P (put_networks orm rows s)
  unfolding put_networks
  put_networks-keeps [] s h = h
  put_networks-keeps (row ∷ rows) s h =
      put_networks-keeps rows (put_network orm row s) (put_network-keeps row s h)

  check_seeds-keeps :
      (seeds : List (Seed Num)) (s : App Num World) → P s → P (check_seeds orm reads seeds s).1
  unfolding check_seeds
  check_seeds-keeps [] s h = h
  check_seeds-keeps (seed ∷ rest) s h =
      check_elim orm reads (λ r. P (r.1)) seed rest s
        (check_seeds-keeps rest (put_network orm (inactive seed) s)
          (put_network-keeps (inactive seed) s h))
        (check_seeds-keeps rest s h)

  pub init_networks-keeps :
      (seeds : List (Seed Num)) (s : App Num World) → P s → P (init_networks orm reads seeds s)
  unfolding init_networks
  init_networks-keeps seeds s h =
      put_networks-keeps (check_seeds orm reads seeds s).0 (check_seeds orm reads seeds s).1
        (check_seeds-keeps seeds s h)
