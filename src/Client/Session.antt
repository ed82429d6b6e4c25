-- ===== src/Client/Session.antt =====
-- client/session/session.go: what a session keeps, and how it chooses the host to connect to. Time
-- is a number of nanoseconds, and `time.Since(t) < d` is written as `now < t + d`.
use push_component.Base.{
  ℕ, zero, suc, ◌+◌, ◌-◌, ◌%◌, Bool, true, false, not, List, [], ◌∷◌, Option, none, some, ◌>>=◌,
  GoString, str_eq, length, get_elem?, get_or, ltb, nat_eq, if◌then◌else◌,
}

pub data ClientSessionState : Type 0 where
  error pristine disconnected connected started_state running shut_down unknown : ClientSessionState

-- The fields of clientSession and of its configuration that choose hosts and delays. A nil slice of
-- hosts is `none`; `has_getter` is whether getHost is not nil.
pub record ClientSession : Type 0 where
  pub has_getter : Bool
  pub hosts_caching_expiry_time : ℕ
  pub expect_all_repaired_time : ℕ
  pub fallback_hosts : List GoString
  pub delivery_hosts_timestamp : ℕ
  pub delivery_hosts : Option (List GoString)
  pub server_name : GoString
  pub last_attempt_timestamp : ℕ
  pub left_to_try : ℕ
  pub try_host : ℕ
  pub state : ClientSessionState
  pub should_delay : Bool
  pub last_auto_redial : ℕ
  pub redial_delays : List ℕ
  pub redial_delays_idx : ℕ
  pub cookie : GoString
  pub has_connection : Bool
  pub last_conn : Bool
  pub has_retrier : Bool

abbrev pub hosts_of : ClientSession → List GoString
hosts_of sess = get_or sess.delivery_hosts []

is_cached : ℕ → ClientSession → Bool
is_cached now sess = elim sess.delivery_hosts [
  | none ↦ false
  | some hosts ↦ ltb now (sess.delivery_hosts_timestamp + sess.hosts_caching_expiry_time)
]

-- getHosts; `fetched` is what getHost.Get() answers, the hosts and the domain. The Boolean is
-- whether it succeeds.
unfoldable pub get_hosts :
    ℕ → Option (Option (List GoString) × GoString) → ClientSession → ClientSession × Bool
unfolding is_cached
get_hosts now fetched sess =
    if not sess.has_getter
    then (record sess { delivery_hosts = some sess.fallback_hosts }, true)
    else if is_cached now sess
    then (sess, true)
    else elim fetched [
      | none ↦ (record sess { state = error }, false)
      | some (hosts, domain) ↦ (
        record sess {
          delivery_hosts_timestamp = now;
          delivery_hosts = hosts;
          server_name = domain;
        },
        true,
      )
    ]

unfoldable pub reset_hosts : ClientSession → ClientSession
reset_hosts sess = record sess { delivery_hosts = none }

-- startConnectionAttempt, which panics without hosts.
unfoldable pub start_connection_attempt : ℕ → ClientSession → Option ClientSession
start_connection_attempt now sess =
    if nat_eq (length (hosts_of sess)) 0
    then none
    else some (record sess {
      try_host =
          if ltb (sess.last_attempt_timestamp + sess.expect_all_repaired_time) now
          then 0
          else sess.try_host;
      left_to_try = length (hosts_of sess);
      last_attempt_timestamp = now;
    })

-- nextHostToTry: the empty string once none is left; it panics out of range.
unfoldable pub next_host_to_try : ClientSession → Option (GoString × ClientSession)
next_host_to_try sess =
    if nat_eq sess.left_to_try 0
    then some ([], sess)
    else elim (get_elem? (hosts_of sess) sess.try_host) [
      | none ↦ none
      | some res ↦ some (
        res,
        record sess {
          try_host = (sess.try_host + 1) % length (hosts_of sess);
          left_to_try = sess.left_to_try - 1;
        },
      )
    ]

-- started; without hosts the source leaves -1 here, but connect has panicked before.
unfoldable pub started : ClientSession → ClientSession
started sess = record sess {
  try_host = if nat_eq sess.try_host 0 then length (hosts_of sess) - 1 else sess.try_host - 1;
  state = started_state;
}

-- The loop of connect: `dial i` is whether the attempt with number `i` succeeds. The result has the
-- hosts that were tried and whether the last one answered; `none` is a panic or the end of the fuel.
unfoldable pub connect_loop :
    (ℕ → Bool) → ℕ → ℕ → ClientSession → Option (ClientSession × List GoString × Bool)
connect_loop dial zero i sess = none
connect_loop dial (suc fuel) i sess = elim (next_host_to_try sess) [
  | none ↦ none
  | some (host, next) ↦
      if str_eq host [] then some (record next { state = error }, [], false) else elim (dial i) [
        | true ↦ some (record next { has_connection = true; state = connected }, host ∷ [], true)
        | false ↦ elim (connect_loop dial fuel (suc i) next) [
          | none ↦ none
          | some (last, hosts, answered) ↦ some (last, host ∷ hosts, answered)
        ]
      ]
]

-- connect; each round uses up one of the hosts, and the last one finds that none is left.
unfoldable pub connect :
    (ℕ → Bool) → ℕ → ClientSession → Option (ClientSession × List GoString × Bool)
unfolding start_connection_attempt connect_loop
connect dial now sess = do
  attempt ← start_connection_attempt now (record sess { should_delay = true })
  connect_loop dial (suc attempt.left_to_try) 0 attempt

-- redialDelay, with the jitter as a function (its result is in the duration's range, so the sum is a
-- plain one); `none` is an index out of range.
unfoldable pub redial_delay : (ℕ → ℕ) → ClientSession → Option (ℕ × ClientSession)
redial_delay jittered sess =
    if sess.should_delay
    then elim (get_elem? sess.redial_delays sess.redial_delays_idx) [
      | none ↦ none
      | some t ↦ some (
        jittered t,
        record sess {
          redial_delays_idx =
              if ltb (sess.redial_delays_idx + 1) (length sess.redial_delays)
              then sess.redial_delays_idx + 1
              else sess.redial_delays_idx;
        },
      )
    ]
    else some (0, record sess { redial_delays_idx = 0 })
