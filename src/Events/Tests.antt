-- ===== src/Events/Tests.antt =====
-- Ranges and users on small inputs.
use liquidator.Base.{
  ◌≡◌, refl, none, some, [], ◌∷◌, ◌&&◌, map, if◌then◌else◌, ltb, leb, count, arith,
}
use liquidator.Events.{
  Event, block, latest, block_ranges, more_ranges, end_of, truthy, event_user, user_eq, index_of,
  is_at, keep_first, get_users_from_events, or_else,
}
use liquidator.Events.Ranges.{fetches, count-block_ranges, block_ranges_terminates}
use liquidator.Events.Users.{occurs, occurs-get_users_from_events}

three_ranges :
    block_ranges 10 2500
    ≡ record { from = 10; to = block 1010 }
      ∷ record { from = 1011; to = block 2010 }
      ∷ record { from = 2011; to = latest }
      ∷ []
unfolding block_ranges more_ranges end_of
three_ranges = refl

count-block_ranges_example :
    count (fetches 2011) (block_ranges 10 2500) ≡ (if leb 10 2011 then 1 else 0)
count-block_ranges_example = count-block_ranges 10 2500 2011

block_ranges_terminates_example :
    block_ranges 10 2500 ≡ record { from = 10; to = end_of 1010 2500 } ∷ more_ranges 5000 1010 2500
block_ranges_terminates_example = block_ranges_terminates 5000 10 2500 (omega arith)

abbrev by_values : Event
by_values = record { values_user = some "0xa"; return_values_user = none; args_user = none }

abbrev by_args : Event
by_args = record { values_user = none; return_values_user = some ""; args_user = some "0xa" }

abbrev of_nobody : Event
of_nobody = record { values_user = none; return_values_user = none; args_user = none }

one_user : get_users_from_events (of_nobody ∷ by_values ∷ by_args ∷ []) ≡ some "0xa" ∷ []
unfolding get_users_from_events keep_first event_user or_else truthy index_of is_at user_eq
one_user = refl

occurs-get_users_from_events_example :
    let events = of_nobody ∷ by_values ∷ by_args ∷ [] in
    occurs (some "0xa") (get_users_from_events events)
    ≡ (if truthy (some "0xa") && ltb 0 (occurs (some "0xa") (map event_user events)) then 1 else 0)
occurs-get_users_from_events_example =
    occurs-get_users_from_events (of_nobody ∷ by_values ∷ by_args ∷ []) (some "0xa")
