-- ===== src/Examples/Counters.antt =====
-- The statistics at concrete values.
use push_component.Base.{◌+◌, ◌-◌, ◌%◌, ◌≡◌, refl, List, [], ◌∷◌, lit, string_Eq, str_eq}
use push_component.Statistics.{
  modulus32, div32, new_stats_value, report, new_statistics, StatsCall, increases_devices,
  decreases_devices, prints_stats, increases_unicasts, stats_run,
}
use push_component.Statistics.Windows.{accumulated, report-accumulated}
use push_component.Statistics.Counts.{value_of, stats_run-balance}

-- Two values in the last hour, and one since.
report-accumulated_example :
    report (record (accumulated (30 ∷ 6 ∷ []) new_stats_value) { val5min = 4 }) ≡ (4, 3, 0, 0)
report-accumulated_example = report-accumulated (30 ∷ 6 ∷ []) 4

negative_test : div32 (modulus32 - 25) 12 ≡ modulus32 - 2
negative_test = refl

abbrev some_calls : List StatsCall
some_calls =
    increases_devices (lit "bacon") (lit "rc")
    ∷ increases_devices (lit "turbo") (lit "rc")
    ∷ prints_stats
    ∷ decreases_devices (lit "bacon") (lit "rc")
    ∷ increases_unicasts
    ∷ []

stats_run-balance_example :
    ((((stats_run some_calls new_statistics).devices_online.val5min + 1) % modulus32) ≡ 2)
    × (((value_of (lit "bacon") (stats_run some_calls new_statistics).devices_specific + 1)
          % modulus32)
        ≡ 1)
    × (((value_of (lit "rc") (stats_run some_calls new_statistics).channel_specific + 1)
          % modulus32)
        ≡ 2)
unfolding str_eq
stats_run-balance_example = stats_run-balance (lit "bacon") (lit "rc") some_calls
