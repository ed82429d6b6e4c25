-- ===== src/Statistics/Counts.antt =====
-- What the counters count.
use push_component.Base.{
  ℕ, ◌+◌, ◌%◌, ◌<◌, ◌≡◌, refl, ◌∙◌, inl, inr, Bool, true, false, List, [], ◌∷◌, GoString, string_Eq,
  str_eq, str_eq_iff, ◌&&◌, if◌then◌else◌, Map, lookup, lookup-insert, get_or, arith, Bool-cases,
}
use push_component.Statistics.{
  modulus32, add32, sub32, StatsValue, new_stats_value, accumulate_value, increase_value,
  decrease_value, Statistics, new_statistics, change_value, accumulate_values, StatsCall,
  increases_devices, decreases_devices, increases_unicasts, increases_broadcasts, prints_stats,
  increase_devices, decrease_devices, print_stats, accumulate, stats_step, stats_run,
}

abbrev pub count : (StatsCall → Bool) → List StatsCall → ℕ
count p [] = 0
count p (c ∷ calls) = let rest = count p calls in if p c then rest + 1 else rest

-- A counter that the calls `up` increase, the calls `down` decrease, and no other call changes.
module _ (view : Statistics → ℕ) (up down : StatsCall → Bool)
    (changes : (c : StatsCall) (s : Statistics)
      → view (stats_step c s)
        ≡ (if up c then add32 (view s) 1 else if down c then sub32 (view s) 1 else view s))
    (exclusive : (c : StatsCall) → up c ≡ true → down c ≡ false) where
  balance :
      (calls : List StatsCall) (s : Statistics)
      → view s < modulus32
      → (view (stats_run calls s) + count down calls) % modulus32
        ≡ (view s + count up calls) % modulus32
  unfolding stats_run
  balance [] s h = refl
  balance (c ∷ calls) s h = elim (Bool-cases (up c)) [
    | inl e ↦
        let next : view (stats_step c s) ≡ add32 (view s) 1 = rw e at (changes c s) in
        rw (e, exclusive c e)
          (omega (arith, next, balance calls (stats_step c s) (omega (arith, next))))
    | inr e ↦ elim (Bool-cases (down c)) [
      | inl f ↦
          let next : view (stats_step c s) ≡ sub32 (view s) 1 = rw (e, f) at (changes c s) in
          rw (e, f) (omega (arith, next, balance calls (stats_step c s) (omega (arith, next))))
      | inr f ↦
          let next : view (stats_step c s) ≡ view s = rw (e, f) at (changes c s) in
          rw (e, f) (omega (arith, next, balance calls (stats_step c s) (omega (arith, next, h))))
    ]
  ]

-- The five-minute value of a name.
abbrev pub value_of : GoString → Map GoString StatsValue → ℕ
value_of name values = (get_or (lookup name values) new_stats_value).val5min

value_of-accumulate_values :
    (name : GoString) (values : Map GoString StatsValue)
    → value_of name (accumulate_values values) ≡ value_of name values
unfolding accumulate_values lookup accumulate_value
value_of-accumulate_values name [] = refl
value_of-accumulate_values name ((key, value) ∷ values) = elim (Bool-cases (str_eq key name)) [
  | inl e ↦ rw (value_of, e) refl
  | inr e ↦ rw (value_of, e) (value_of-accumulate_values name values)
]

value_of-change_value :
    (change : StatsValue → StatsValue) (f : ℕ → ℕ)
    → ((v : StatsValue) → (change v).val5min ≡ f v.val5min)
    → (name key : GoString) (values : Map GoString StatsValue)
    → value_of name (change_value change key values)
      ≡ (if str_eq key name then f (value_of name values) else value_of name values)
unfolding change_value
value_of-change_value change f law name key values = elim (Bool-cases (str_eq key name)) [
  | inl e ↦
      let same : key ≡ name = (str_eq_iff key name).0 e in
      rw
        (
          value_of,
          change_value,
          lookup-insert key name (change (get_or (lookup key values) new_stats_value)) values,
          e,
          same,
        )
        (law (get_or (lookup name values) new_stats_value))
  | inr e ↦
      rw
        (
          value_of,
          change_value,
          lookup-insert key name (change (get_or (lookup key values) new_stats_value)) values,
          e,
        )
        refl
]

-- The calls of a kind, and those of them for a device or for a channel.
abbrev pub is_increase : StatsCall → Bool
is_increase (increases_devices device channel) = true
is_increase (decreases_devices device channel) = false
is_increase increases_unicasts = false
is_increase increases_broadcasts = false
is_increase prints_stats = false

abbrev pub is_decrease : StatsCall → Bool
is_decrease (increases_devices device channel) = false
is_decrease (decreases_devices device channel) = true
is_decrease increases_unicasts = false
is_decrease increases_broadcasts = false
is_decrease prints_stats = false

abbrev pub device_of : StatsCall → GoString
device_of (increases_devices device channel) = device
device_of (decreases_devices device channel) = device
device_of increases_unicasts = []
device_of increases_broadcasts = []
device_of prints_stats = []

abbrev pub channel_of : StatsCall → GoString
channel_of (increases_devices device channel) = channel
channel_of (decreases_devices device channel) = channel
channel_of increases_unicasts = []
channel_of increases_broadcasts = []
channel_of prints_stats = []

never_both : (c : StatsCall) → is_increase c ≡ true → is_decrease c ≡ false
never_both (increases_devices device channel) h = refl
never_both (decreases_devices device channel) h = cc
never_both increases_unicasts h = refl
never_both increases_broadcasts h = refl
never_both prints_stats h = refl

never_both_of :
    (b : Bool) (c : StatsCall) → (is_increase c && b) ≡ true → (is_decrease c && b) ≡ false
never_both_of b c h = ground (arith, never_both c)

online_changes :
    (c : StatsCall) (s : Statistics)
    → (stats_step c s).devices_online.val5min ≡ (
        if is_increase c
        then add32 s.devices_online.val5min 1
        else if is_decrease c
        then sub32 s.devices_online.val5min 1
        else s.devices_online.val5min)
unfolding stats_step increase_devices decrease_devices print_stats accumulate accumulate_value
online_changes (increases_devices device channel) s = refl
online_changes (decreases_devices device channel) s = refl
online_changes increases_unicasts s = refl
online_changes increases_broadcasts s = refl
online_changes prints_stats s = refl

device_changes :
    (name : GoString) (c : StatsCall) (s : Statistics)
    → value_of name (stats_step c s).devices_specific ≡ (
        if is_increase c && str_eq (device_of c) name
        then add32 (value_of name s.devices_specific) 1
        else if is_decrease c && str_eq (device_of c) name
        then sub32 (value_of name s.devices_specific) 1
        else value_of name s.devices_specific)
unfolding stats_step increase_devices decrease_devices print_stats accumulate
device_changes name (increases_devices device channel) s =
    value_of-change_value increase_value (λ v. add32 v 1) (λ v. refl) name device s.devices_specific
device_changes name (decreases_devices device channel) s =
    value_of-change_value decrease_value (λ v. sub32 v 1) (λ v. refl) name device s.devices_specific
device_changes name increases_unicasts s = refl
device_changes name increases_broadcasts s = refl
device_changes name prints_stats s = value_of-accumulate_values name s.devices_specific

channel_changes :
    (name : GoString) (c : StatsCall) (s : Statistics)
    → value_of name (stats_step c s).channel_specific ≡ (
        if is_increase c && str_eq (channel_of c) name
        then add32 (value_of name s.channel_specific) 1
        else if is_decrease c && str_eq (channel_of c) name
        then sub32 (value_of name s.channel_specific) 1
        else value_of name s.channel_specific)
unfolding stats_step increase_devices decrease_devices print_stats accumulate
channel_changes name (increases_devices device channel) s =
    value_of-change_value increase_value (λ v. add32 v 1) (λ v. refl) name channel
      s.channel_specific
channel_changes name (decreases_devices device channel) s =
    value_of-change_value decrease_value (λ v. sub32 v 1) (λ v. refl) name channel
      s.channel_specific
channel_changes name increases_unicasts s = refl
channel_changes name increases_broadcasts s = refl
channel_changes name prints_stats s = value_of-accumulate_values name s.channel_specific

-- After any calls on new statistics, the rounds of the printing among them: the number of devices
-- online and the calls that decrease it add up to the calls that increase it, and so do those of each
-- name of a device and those of each name of a channel, in 32-bit arithmetic.
pub stats_run-balance :
    (device channel : GoString) (calls : List StatsCall)
    → ((((stats_run calls new_statistics).devices_online.val5min + count is_decrease calls)
          % modulus32)
        ≡ count is_increase calls % modulus32)
      × (((value_of device (stats_run calls new_statistics).devices_specific
              + count (λ c. is_decrease c && str_eq (device_of c) device) calls)
            % modulus32)
          ≡ count (λ c. is_increase c && str_eq (device_of c) device) calls % modulus32)
      × (((value_of channel (stats_run calls new_statistics).channel_specific
              + count (λ c. is_decrease c && str_eq (channel_of c) channel) calls)
            % modulus32)
          ≡ count (λ c. is_increase c && str_eq (channel_of c) channel) calls % modulus32)
unfolding lookup
stats_run-balance device channel calls = (
  balance (λ s. s.devices_online.val5min) is_increase is_decrease online_changes never_both calls
        new_statistics (omega arith)
      ∙ omega arith,
  balance (λ s. value_of device s.devices_specific)
        (λ c. is_increase c && str_eq (device_of c) device)
        (λ c. is_decrease c && str_eq (device_of c) device) (device_changes device)
        (λ c. never_both_of (str_eq (device_of c) device) c) calls new_statistics (omega arith)
      ∙ omega arith,
  balance (λ s. value_of channel s.channel_specific)
        (λ c. is_increase c && str_eq (channel_of c) channel)
        (λ c. is_decrease c && str_eq (channel_of c) channel) (channel_changes channel)
        (λ c. never_both_of (str_eq (channel_of c) channel) c) calls new_statistics (omega arith)
      ∙ omega arith,
)
