-- ===== src/Monitoring/Fetched.antt =====
-- Whom the monitorings fetch.
use liquidator.Base.{
  ℕ, ◌+◌, ◌≡◌, refl, ◌∙◌, ap, Bool, true, ◌&&◌, Option, none, some, List, [], ◌∷◌, filter, count,
  arith,
}
use liquidator.Base.Int.{leb_ℤ}
use liquidator.Orm.{Orm}
use liquidator.Zone.{Zone, yellow, orange, red, one, matches_zone}
use liquidator.State.{App, UserAccount}
use liquidator.Listeners.{on_network}
use liquidator.Monitoring.{monitored_zones, wanted, get_users}

module _ {A : Type 0} where
  count-filter : (p q : A → Bool) (t : List A) → count p (filter q t) ≡ count (λ x. q x && p x) t
  count-filter p q [] = refl
  count-filter p q (x ∷ xs) = ground (arith, count-filter p q xs)

  count-same : (p q : A → Bool) → ((x : A) → p x ≡ q x) → (t : List A) → count p t ≡ count q t
  count-same p q h [] = refl
  count-same p q h (x ∷ xs) = ground (arith, h x, count-same p q h xs)

in_one_zone :
    {Num : Type 0} (p : UserAccount Num → Bool) (t : List (UserAccount Num))
    → count (λ u. matches_zone (some yellow) u.health_factor && p u) t
        + count (λ u. matches_zone (some orange) u.health_factor && p u) t
        + count (λ u. matches_zone (some red) u.health_factor && p u) t
      ≡ count (λ u. leb_ℤ one u.health_factor && p u) t
unfolding matches_zone
in_one_zone p [] = refl
in_one_zone p (u ∷ us) = ground (arith, in_one_zone p us)

module _ (orm : Orm) {Num World : Type 0} where
  count-get_users :
      (p : UserAccount Num → Bool) (zone : Option Zone) (s : App Num World)
      → count p (get_users orm zone none s)
        ≡ count (λ u. matches_zone zone u.health_factor && p u) s.users
  unfolding get_users on_network
  count-get_users p zone s =
      orm.order_by-count (λ u. u.health_factor) p (orm.find_all (wanted zone none) s.users)
      ∙ (ap (count p) (orm.find_all_lem (wanted zone none) s.users)
          ∙ (count-filter p (wanted zone none) s.users
              ∙ count-same (λ u. wanted zone none u && p u)
                  (λ u. matches_zone zone u.health_factor && p u)
                  (λ u. everywhere (matches_zone zone u.health_factor) (p u)) s.users))
    where
      everywhere : (b c : Bool) → ((b && true) && c) ≡ (b && c)
      everywhere b c = ground arith

  -- How many users that pass the test are fetched for the zones, one query after the other.
  abbrev pub fetched : (UserAccount Num → Bool) → App Num World → List Zone → ℕ
  fetched p s [] = 0
  fetched p s (z ∷ zs) = count p (get_users orm (some z) none s) + fetched p s zs

  -- Whichever users are looked at: the monitorings that are started fetch, taken together, each of
  -- them whose stored health factor is at least 1 exactly once, and none of the others.
  pub monitored_once :
      (p : UserAccount Num → Bool) (s : App Num World)
      → fetched p s monitored_zones ≡ count (λ u. leb_ℤ one u.health_factor && p u) s.users
  monitored_once p s = omega (
    arith,
    count-get_users p (some yellow) s,
    count-get_users p (some orange) s,
    count-get_users p (some red) s,
    in_one_zone p s.users,
  )
