-- ===== src/Statistics.antt =====
-- server/statistics/statistics.go: counters of devices and messages, and their sums over the last
-- hour, day and week. An int32 is its 32-bit pattern, a number below 2 ^ 32. A ring of
-- container/ring is the list of its values from the current element on. The mutex makes each method
-- one step.
pub mod Windows
pub mod Counts
use push_component.Base.{
  ℕ, ◌+◌, ◌-◌, ◌/◌, ◌%◌, ◌^◌, Bool, true, false, List, [], ◌∷◌, ◌++◌, map, Option, none, some,
  GoString, string_Eq, replicate, ltb, get_or, if◌then◌else◌, Map, lookup, insert,
}

abbrev pub modulus32 : ℕ
modulus32 = 2 ^ 32

abbrev pub add32 : ℕ → ℕ → ℕ
add32 a b = (a + b) % modulus32

abbrev pub sub32 : ℕ → ℕ → ℕ
sub32 a b = (a + modulus32 - b) % modulus32

-- Go's division by a positive number goes towards zero.
abbrev pub div32 : ℕ → ℕ → ℕ
div32 a n = if ltb a (2 ^ 31) then a / n else (modulus32 - (modulus32 - a) / n) % modulus32

abbrev pub Ring : Type 0
Ring = List (Option ℕ)

-- `r.Value = v`, and then `r.Next()`.
unfoldable pub put_next : ℕ → Ring → Ring
put_next v [] = []
put_next v (x ∷ r) = r ++ some v ∷ []

-- The sum that `Do` makes of the values that are set, from the current element on.
unfoldable pub sum_from : ℕ → Ring → ℕ
sum_from sum [] = sum
sum_from sum (none ∷ r) = sum_from sum r
sum_from sum (some v ∷ r) = sum_from (add32 sum v) r

pub record StatsValue : Type 0 where
  pub val5min : ℕ  -- int32
  pub val60min : Ring
  pub val1day : Ring
  pub val7day : Ring

abbrev pub new_stats_value : StatsValue
new_stats_value = record {
  val5min = 0;
  val60min = replicate 12 none;
  val1day = replicate 288 none;
  val7day = replicate 2016 none;
}

-- StatsValue.Accumulate
unfoldable pub accumulate_value : StatsValue → StatsValue
accumulate_value s = record s {
  val60min = put_next s.val5min s.val60min;
  val1day = put_next s.val5min s.val1day;
  val7day = put_next s.val5min s.val7day;
}

-- StatsValue.Reset5min
abbrev pub reset_value : StatsValue → StatsValue
reset_value s = record s { val5min = 0 }

-- StatsValue.Report
unfoldable pub report : StatsValue → ℕ × ℕ × ℕ × ℕ
report s = (
  s.val5min,
  div32 (sum_from 0 s.val60min) 12,
  div32 (sum_from 0 s.val1day) 288,
  div32 (sum_from 0 s.val7day) 2016,
)

abbrev pub increase_value : StatsValue → StatsValue
increase_value s = record s { val5min = add32 s.val5min 1 }

abbrev pub decrease_value : StatsValue → StatsValue
decrease_value s = record s { val5min = sub32 s.val5min 1 }

pub record Statistics : Type 0 where
  pub devices_online : StatsValue
  pub unicasts_total : StatsValue
  pub broadcasts_total : StatsValue
  pub devices_specific : Map GoString StatsValue
  pub channel_specific : Map GoString StatsValue

abbrev pub new_statistics : Statistics
new_statistics = record {
  devices_online = new_stats_value;
  unicasts_total = new_stats_value;
  broadcasts_total = new_stats_value;
  devices_specific = [];
  channel_specific = [];
}

unfoldable pub accumulate_values : Map GoString StatsValue → Map GoString StatsValue
accumulate_values [] = []
accumulate_values ((key, value) ∷ values) = (key, accumulate_value value) ∷ accumulate_values values

-- Statistics.Accumulate
unfoldable pub accumulate : Statistics → Statistics
unfolding accumulate_values
accumulate stats = record {
  devices_online = accumulate_value stats.devices_online;
  unicasts_total = accumulate_value stats.unicasts_total;
  broadcasts_total = accumulate_value stats.broadcasts_total;
  devices_specific = accumulate_values stats.devices_specific;
  channel_specific = accumulate_values stats.channel_specific;
}

-- Statistics.Reset5min
abbrev pub reset_5min : Statistics → Statistics
reset_5min stats = record stats {
  unicasts_total = reset_value stats.unicasts_total;
  broadcasts_total = reset_value stats.broadcasts_total;
}

-- A change of the value with a name, which is made where the map has none.
unfoldable pub change_value :
    (StatsValue → StatsValue) → GoString → Map GoString StatsValue → Map GoString StatsValue
change_value change name values =
    insert name (change (get_or (lookup name values) new_stats_value)) values

unfoldable pub decrease_devices : GoString → GoString → Statistics → Statistics
unfolding change_value
decrease_devices device_name channel_name stats = record stats {
  devices_online = decrease_value stats.devices_online;
  devices_specific = change_value decrease_value device_name stats.devices_specific;
  channel_specific = change_value decrease_value channel_name stats.channel_specific;
}

unfoldable pub increase_devices : GoString → GoString → Statistics → Statistics
unfolding change_value
increase_devices device_name channel_name stats = record stats {
  devices_online = increase_value stats.devices_online;
  devices_specific = change_value increase_value device_name stats.devices_specific;
  channel_specific = change_value increase_value channel_name stats.channel_specific;
}

abbrev pub increase_unicasts : Statistics → Statistics
increase_unicasts stats = record stats { unicasts_total = increase_value stats.unicasts_total }

abbrev pub increase_broadcasts : Statistics → Statistics
increase_broadcasts stats = record stats {
  broadcasts_total = increase_value stats.broadcasts_total;
}

-- A round of PrintStats, less what it logs.
unfoldable pub print_stats : Statistics → Statistics
unfolding accumulate
print_stats stats = reset_5min (accumulate stats)

pub data StatsCall : Type 0 where
  increases_devices decreases_devices : GoString → GoString → StatsCall
  increases_unicasts increases_broadcasts prints_stats : StatsCall

unfoldable pub stats_step : StatsCall → Statistics → Statistics
unfolding increase_devices decrease_devices print_stats
stats_step (increases_devices device channel) stats = increase_devices device channel stats
stats_step (decreases_devices device channel) stats = decrease_devices device channel stats
stats_step increases_unicasts stats = increase_unicasts stats
stats_step increases_broadcasts stats = increase_broadcasts stats
stats_step prints_stats stats = print_stats stats

unfoldable pub stats_run : List StatsCall → Statistics → Statistics
stats_run [] stats = stats
stats_run (call ∷ calls) stats = stats_run calls (stats_step call stats)
