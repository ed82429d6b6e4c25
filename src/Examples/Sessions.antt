-- ===== src/Examples/Sessions.antt =====
-- The server's session at concrete values.
mod Deliveries
use push_component.Base.{
  Bool-cases, subst, inl, inr, str_eq_iff, ℕ, ◌≡◌, ◌≤◌, refl, true, false, List, [], ◌∷◌, map,
  Option, none, some, GoString, lit, string_Eq, nat_Eq, arith, str_eq, length, lookup, insert, All,
}
use push_component.Base.Slice.{of_list}
use push_component.Protocol.Messages.{
  Notification, BroadcastMsg, NotificationsMsg, max_payload_size, notification_size,
  broadcast_split, broadcast_reset, overflow_at,
}
use push_component.Protocol.Split.{all_parts, total}
use push_component.Protocol.Split.Broadcast.{parts}
use push_component.Protocol.Split.Notifications.{carried}
use push_component.Store.ChannelId.{
  broadcast_channel, unicast_user_and_device, unicast_channel, split_first,
  internal_channel_id_to_hex,
}
use push_component.Store.Filter.{Metadata}
use push_component.Store.Filter.Obsolete.{is_obsolete}
use push_component.Store.InMemory.{
  Channel, Store, get_channel_snapshot, append_to_channel, append_to_unicast_channel,
}
use push_component.Store.InMemory.Invariant.{IsConsistent}
use push_component.Store.InMemory.Views.{IsWellFormed}
use push_component.Broker.Session.{
  BroadcastExchange, UnicastExchange, Exchange, broadcast, unicast, BrokerSession,
}
use push_component.Broker.Exchanges.{
  client_level, channel_filter, filter_by_level, tagged_payloads, prepare_broadcast,
  acked_broadcast,
}
use push_component.Broker.Pending.{IsPending, Waits}
use push_component.Broker.Simple.{Broker, deliver, unicast_delivery, broadcast_delivery, step}
use push_component.Broker.Simple.Registry.{IsSound, Holds}
use push_component.Session.{
  broadcast_message, notifications_message, reads, is_over, Loop, goes_on, SessionEvent,
  timer_fires, exchange_comes, session_round, session_run, Round, waits, do_ping, exchange,
  ping_timer_reset, perform, send_loop,
}
use push_component.Session.Delivery.{ack, session_round-broadcast}
use push_component.Session.Notified.{session_round-unicast}
use push_component.Session.Forwarded.{stored_notification_delivered}
use push_component.Session.Announced.{Announces, announced, stored_broadcast_delivered}
use push_component.Session.Timer.{IsTimed}
use push_component.Session.Rounds.{session_run-IsTimed}

abbrev note : GoString → Notification
note id = record { app_id = lit "a"; msg_id = id; payload = lit "{}" }

abbrev until : ℕ → Metadata
until t = record { expiration = t; replace_tag = []; obsolete = false }

abbrev two_notes : Channel
two_notes = record {
  top_level = 0;
  notifications = note (lit "1") ∷ note (lit "2") ∷ [];
  meta = until 50 ∷ until 60 ∷ [];
}

abbrev note_store : Store
note_store = (lit "Ud1:d1", two_notes) ∷ []

abbrev system_broadcast : BroadcastExchange
system_broadcast = record {
  chan_id = lit "0";
  top_level = 5;
  notifications = note (lit "1") ∷ note (lit "2") ∷ [];
  decoded = (lit "stable/phone" ∷ []) ∷ [] ∷ [];
}

abbrev own_channel : UnicastExchange
own_channel = record { chan_id = lit "Ud1:d1"; cached_ok = false }

-- A loop whose session's channel has the exchanges; its timer fires at 30.
abbrev session_loop : List (Option Exchange) → Loop
session_loop exchanges = record {
  sess = record {
    registered = true;
    device_id = lit "d1";
    model = lit "phone";
    image_channel = lit "stable";
    exchanges = exchanges;
    levels = (lit "0", 3) ∷ (lit "Bx", 2) ∷ [];
    scratch = record {
      broadcast_msg = record {
        msg_type = [];
        app_id = [];
        chan_id = [];
        top_level = 0;
        payloads = of_list [];
        splitting = 0;
      };
      notifications_msg = record { msg_type = []; notifications = of_list []; splitting = 0 };
      ack_type = [];
    };
  };
  pending = note_store;
  written = [];
  ping_interval = 20;
  interval_start = 10;
  ping_timer = some 30;
}

abbrev with_broadcast : Loop
with_broadcast = session_loop (some (broadcast system_broadcast) ∷ none ∷ [])

abbrev with_unicast : Loop
with_unicast = session_loop (some (unicast own_channel) ∷ none ∷ [])

session_round-broadcast_example :
    (next : Loop) × (ms : List BroadcastMsg) × (session_round 70
        (exchange_comes 15 (ack ∷ ack ∷ []))
        with_broadcast
      ≡ goes_on next)
    × (next.written ≡ map broadcast_message ms)
    × (all_parts parts ms ≡ lit "{}" ∷ [])
    × All (λ m. total (λ p. length p) (parts m) ≤ max_payload_size) ms
    × (client_level (lit "0") next.sess ≡ 5)
    × ((c : GoString)
        → str_eq c (lit "0") ≡ false
        → client_level c next.sess ≡ client_level c with_broadcast.sess)
    × (next.sess.exchanges ≡ none ∷ [])
    × (next.pending ≡ note_store)
unfolding channel_filter filter_by_level tagged_payloads lookup str_eq internal_channel_id_to_hex
session_round-broadcast_example =
    session_round-broadcast 70 15 2 system_broadcast (none ∷ []) (lit "0") with_broadcast refl refl
      (omega arith) (omega arith) (omega arith, tt) (omega arith)

note_store-IsConsistent : IsConsistent note_store
unfolding lookup
note_store-IsConsistent k ch e = ground (arith, two_notes-IsWellFormed)
  where
    two_notes-IsWellFormed : IsWellFormed two_notes
    two_notes-IsWellFormed = record { paired = refl; unmarked = (refl, (refl, tt)) }

note_store-IsPending : IsPending 15 0 (lit "Ud1:d1") two_notes.notifications note_store
unfolding lookup is_obsolete str_eq
note_store-IsPending = record {
  channel = two_notes;
  consistent = note_store-IsConsistent;
  found = refl;
  level_is = refl;
  holds = refl;
  distinct = (refl, (refl, tt));
  none_obsolete = (refl, (refl, tt));
}

session_round-unicast_example :
    (next : Loop) × (ms : List NotificationsMsg) × (session_round 70
        (exchange_comes 15 (ack ∷ ack ∷ ack ∷ []))
        with_unicast
      ≡ goes_on next)
    × (next.written ≡ map notifications_message ms)
    × (all_parts carried ms ≡ two_notes.notifications)
    × All (λ m. total (notification_size 70) (carried m) ≤ max_payload_size) ms
    × (get_channel_snapshot 15 (lit "Ud1:d1") next.pending ≡ (0, []))
    × ((k : GoString)
        → str_eq (lit "Ud1:d1") k ≡ false
        → lookup k next.pending ≡ lookup k note_store)
    × (next.sess.levels ≡ with_unicast.sess.levels)
    × (next.sess.exchanges ≡ none ∷ [])
session_round-unicast_example =
    session_round-unicast 70 15 0 3 own_channel (none ∷ []) (note (lit "1")) (note (lit "2") ∷ [])
      with_unicast refl note_store-IsPending (omega arith, (omega arith, tt)) (omega arith)

-- A ping that is late, a delivery, and a ping.
abbrev events : List SessionEvent
events =
    timer_fires 30 (reads (lit "pong") ∷ [])
    ∷ exchange_comes 41 (ack ∷ ack ∷ [])
    ∷ timer_fires 61 (reads (lit "pong") ∷ [])
    ∷ []

abbrev loop_of : Round → Loop
loop_of (goes_on l) = l
loop_of (waits l) = l
loop_of (is_over e l) = l

session_run-IsTimed_example : IsTimed 61 20 (loop_of (session_run 70 events with_broadcast))
unfolding session_run session_round do_ping exchange ping_timer_reset perform prepare_broadcast
    channel_filter filter_by_level tagged_payloads lookup insert str_eq internal_channel_id_to_hex
    send_loop acked_broadcast broadcast_split broadcast_reset overflow_at
session_run-IsTimed_example =
    session_run-IsTimed 70 10 20 events with_broadcast
      (loop_of (session_run 70 events with_broadcast))
      (record { begun = omega arith; fires = refl; same_interval = refl })
      (omega arith, (omega arith, (omega arith, tt))) refl
