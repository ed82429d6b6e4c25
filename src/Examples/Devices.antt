-- ===== src/Examples/Devices.antt =====
-- The session of a device at concrete values.
use push_component.Base.{
  ℕ, ◌+◌, ◌<◌, ◌≤◌, ◌≡◌, refl, suc, Bool, true, false, List, [], ◌∷◌, ◌++◌, none, some, GoString,
  lit, length, take, get_elem?, arith, nat_eq, string_Eq,
}
use push_component.Client.Session.{
  ClientSession, pristine, error, connected, hosts_of, start_connection_attempt, started, connect,
  redial_delay,
}
use push_component.Client.Hosts.{from_host, IsReady}
use push_component.Client.Connect.{
  connect_answered, connect_refused, connect_fewer_hosts, redial_delay_lem,
}
use push_component.Client.SeenState.{MemSeenState, mem_seen_state}
use push_component.Client.Messages.{ServerMsg, Receiver, loop}
use push_component.Client.Once.{IsOnce, loop-IsOnce}

abbrev session_at : ℕ → List GoString → ClientSession
session_at host hosts = record {
  has_getter = true;
  hosts_caching_expiry_time = 10;
  expect_all_repaired_time = 10;
  fallback_hosts = [];
  delivery_hosts_timestamp = 0;
  delivery_hosts = some hosts;
  server_name = [];
  last_attempt_timestamp = 50;
  left_to_try = 0;
  try_host = host;
  state = pristine;
  should_delay = true;
  last_auto_redial = 0;
  redial_delays = 1 ∷ 2 ∷ [];
  redial_delays_idx = 1;
  cookie = [];
  has_connection = false;
  last_conn = false;
  has_retrier = false;
}

abbrev three_hosts : List GoString
three_hosts = lit "a" ∷ lit "b" ∷ lit "c" ∷ []

three_hosts-IsReady : IsReady (session_at 2 three_hosts)
three_hosts-IsReady = record {
  some_named = (λ h. cc, (λ h. cc, (λ h. cc, tt)));
  in_range = omega arith;
}

-- The attempts fail but for the one with the number 1.
abbrev second_answers : ℕ → Bool
second_answers i = nat_eq i 1

connect_answered_example :
    (last : ClientSession) × (h : GoString) × (front : List GoString) × (connect second_answers 55
        (session_at 2 three_hosts)
      ≡ some (last, front ++ h ∷ [], true))
    × (front ++ h ∷ [] ≡ take 2 (from_host 2 three_hosts))
    × (last.state ≡ connected)
    × (get_elem? three_hosts (started last).try_host ≡ some h)
    × (next : ClientSession) × (start_connection_attempt 56 (started last) ≡ some next)
    × (get_elem? (hosts_of next) next.try_host ≡ some h)
    × (next.left_to_try ≡ 3)
connect_answered_example =
    connect_answered second_answers 1 55 56 (session_at 2 three_hosts) three_hosts-IsReady
      (omega arith) refl (λ j b. ground (arith, b)) (omega arith)

connect_refused_example :
    (last : ClientSession) × (connect (λ i. false) 55 (session_at 2 three_hosts)
      ≡ some (last, take 3 (from_host 2 three_hosts), false))
    × (last.state ≡ error)
connect_refused_example =
    connect_refused (λ i. false) 55 (session_at 2 three_hosts) three_hosts-IsReady (λ j. refl)

connect_fewer_hosts_example : connect second_answers 55 (session_at 2 (lit "a" ∷ [])) ≡ none
connect_fewer_hosts_example =
    connect_fewer_hosts second_answers 55 (session_at 2 (lit "a" ∷ [])) (omega arith) (omega arith)

redial_delay_lem_example :
    (t : ℕ) × (next : ClientSession) × (redial_delay (λ t. t + 1) (session_at 0 [])
      ≡ some (t, next))
    × (next.redial_delays_idx < length next.redial_delays)
    × (true ≡ false → (t ≡ 0) × (next.redial_delays_idx ≡ 0))
    × (true ≡ true
        → ((d : ℕ) × (get_elem? (1 ∷ 2 ∷ []) 1 ≡ some d) × (t ≡ d + 1))
          × (1 ≤ next.redial_delays_idx)
          × (next.redial_delays_idx ≤ 2)
          × (suc next.redial_delays_idx < 2 → next.redial_delays_idx ≡ 2))
redial_delay_lem_example = redial_delay_lem (λ t. t + 1) (session_at 0 []) (omega arith)

abbrev quiet : Receiver MemSeenState GoString GoString
quiet = record {
  session = session_at 0 three_hosts;
  seen = record { levels = []; seen_msgs = [] };
  written = [];
  broadcast_ch = [];
  notifications_ch = [];
}

abbrev sent_again : ServerMsg
sent_again = record {
  msg_type = lit "notifications";
  chan_id = [];
  top_level = 0;
  payloads = [];
  notifications = record { app_id = lit "app"; msg_id = lit "m1"; payload = lit "{}" } ∷ [];
  reason = [];
  set_cookie = [];
}

loop-IsOnce_example :
    IsOnce
      (λ p. some p)
      (λ n. some n.app_id)
      (loop mem_seen_state
        (λ p. some p)
        (λ n. some n.app_id)
        ((some sent_again, true) ∷ (some sent_again, true) ∷ [])
        quiet).0
unfolding IsOnce
loop-IsOnce_example =
    loop-IsOnce (λ p. some p) (λ n. some n.app_id)
      ((some sent_again, true) ∷ (some sent_again, true) ∷ []) quiet (tt, tt)
