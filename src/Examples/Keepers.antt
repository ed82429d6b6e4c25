-- ===== src/Examples/Keepers.antt =====
-- The keeper of a session's connection at concrete values.
use push_component.Base.{
  ◌≡◌, refl, true, false, List, [], ◌∷◌, Option, none, some, lit, str_eq, nat_eq,
}
use push_component.Client.Session.{
  ClientSession, disconnected, get_hosts, connect, started, redial_delay, start_connection_attempt,
  next_host_to_try, connect_loop,
}
use push_component.Client.Keeper.{
  Keeper, KeeperEvent, DialAnswers, has_connectivity, receives_error, dials, loop_does, loop_ends,
  begins, is_error, auto_redial, do_close, handle_conn, handle_err, reset_cookie, dial, start,
  connecting, looping, acknowledged, loop_effect, keeper_step, keeper_run,
}
use push_component.Client.Keeper.Progress.{keeps_trying, keeper_run_tries}
use push_component.Client.Keeper.Stalled.{reset_cookie_stalls}

abbrev fresh_session : ClientSession
fresh_session = record {
  has_getter = false;
  hosts_caching_expiry_time = 100;
  expect_all_repaired_time = 50;
  fallback_hosts = lit "h1" ∷ lit "h2" ∷ [];
  delivery_hosts_timestamp = 0;
  delivery_hosts = none;
  server_name = [];
  last_attempt_timestamp = 0;
  left_to_try = 0;
  try_host = 0;
  state = disconnected;
  should_delay = false;
  last_auto_redial = 0;
  redial_delays = 1 ∷ 2 ∷ [];
  redial_delays_idx = 0;
  cookie = lit "c";
  has_connection = false;
  last_conn = false;
  has_retrier = false;
}

abbrev new_keeper : Keeper
new_keeper = record {
  session = fresh_session;
  ping_interval = 0;
  sent = [];
  is_redialing = false;
  loops = 0;
  errors = 0;
  stop_closed = false;
  has_returned = false;
}

abbrev keeper_of : Option Keeper → Keeper
keeper_of none = new_keeper
keeper_of (some k) = k

-- The second host answers, and starts the session.
abbrev second_answers : DialAnswers
second_answers = record {
  now = 20;
  fetched = none;
  answers = λ i. nat_eq i 1;
  starting = record {
    sets_deadline = true;
    writes_version = true;
    levels = some [];
    writes_connect = true;
    conn_ack = some (lit "connack", some 30);
  };
}

abbrev none_answers : DialAnswers
none_answers = record second_answers { now = 10; answers = λ i. false }

-- A connection after one attempt that fails, and its end.
abbrev connection : List KeeperEvent
connection =
    has_connectivity true 5
    ∷ dials none_answers
    ∷ dials second_answers
    ∷ loop_does begins
    ∷ loop_ends
    ∷ []

keeper_run_tries_example :
    keeps_trying (keeper_of (keeper_run (λ t. t) connection new_keeper)) ≡ true
unfolding keeper_run keeper_step handle_conn auto_redial redial_delay dial do_close get_hosts
    connect start_connection_attempt connect_loop next_host_to_try connecting start acknowledged
    looping started loop_effect str_eq
keeper_run_tries_example =
    keeper_run_tries (λ t. t) connection new_keeper
      (keeper_of (keeper_run (λ t. t) connection new_keeper))
      (refl, (refl, (refl, (refl, (refl, tt))))) refl refl

-- A cookie that is reset after an attempt that failed.
abbrev between_attempts : Keeper
between_attempts =
    keeper_of (keeper_run (λ t. t) (has_connectivity true 5 ∷ dials none_answers ∷ []) new_keeper)

abbrev later_events : List KeeperEvent
later_events = dials second_answers ∷ receives_error 30 ∷ []

abbrev reset_last : Keeper
reset_last = keeper_of (keeper_run (λ t. t) later_events (reset_cookie between_attempts))

reset_cookie_stalls_example :
    ((reset_cookie between_attempts).session.last_conn ≡ between_attempts.session.last_conn)
    × (reset_last.is_redialing ≡ false)
    × (reset_last.loops ≡ 0)
    × (reset_last.session.has_connection ≡ false)
    × (is_error reset_last.session.state ≡ false)
unfolding keeper_run keeper_step handle_conn auto_redial redial_delay dial do_close get_hosts
    connect start_connection_attempt connect_loop next_host_to_try connecting str_eq reset_cookie
    handle_err
reset_cookie_stalls_example =
    reset_cookie_stalls (λ t. t) later_events between_attempts reset_last refl (refl, (refl, tt))
      refl
