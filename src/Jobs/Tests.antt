-- ===== src/Jobs/Tests.antt =====
-- The job that liquidates, and one with a time.
use liquidator.Base.{◌≡◌, refl, some, [], ◌∷◌, ◌++◌, length}
use liquidator.Jobs.{
  text, number, Options, add_job, add_options, add_option, given, option, is_truthy, with_defaults,
  call_text, option_names,
}
use liquidator.Jobs.Query.{placeholders, up_to, given_values, payload_values, add_job_lem}

abbrev timed : Options
timed = ("run_at", text "2021-11-01") ∷ ("queue_name", text "") ∷ []

-- The empty name is left out, and the attempts are 3.
timed_values :
    (add_job "update-liquidation-data" (some "{}") timed).values
    ≡ text "update-liquidation-data" ∷ text "{}" ∷ number 3 ∷ text "2021-11-01" ∷ []
unfolding add_job add_options add_option given option is_truthy with_defaults call_text
timed_values = refl

add_job_lem_example :
    let q = add_job "update-liquidation-data" (some "{}") timed in
    (placeholders q.pieces ≡ up_to (length q.values))
    × (q.values
        ≡ text "update-liquidation-data"
          ∷ (payload_values (some "{}") ++ given_values (with_defaults timed) option_names))
add_job_lem_example = add_job_lem "update-liquidation-data" (some "{}") timed
