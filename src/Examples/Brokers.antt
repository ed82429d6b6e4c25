-- ===== src/Examples/Brokers.antt =====
-- The broker at concrete values: two devices, one of which connects again.
use mathlib.Core.Option
use push_component.Base.{
  ℕ, ◌≡◌, ◌≢◌, refl, Bool, true, false, List, [], ◌∷◌, Option, none, some, GoString, lit, string_Eq,
  nat_Eq, elem, arith, str_eq, lookup, insert, IsDistinct, if◌then◌else◌, keys,
}
use push_component.Base.Results.{err}
use push_component.Base.Slice.{of_list}
use push_component.Protocol.Messages.{Notification}
use push_component.Store.Filter.{Metadata}
use push_component.Store.InMemory.{Channel, Store, get_channel_snapshot, drop_by_msg_id}
use push_component.Store.InMemory.Invariant.{IsConsistent}
use push_component.Broker.Session.{
  BroadcastExchange, UnicastExchange, broadcast, BrokerSession, ScratchArea, nop, feed,
}
use push_component.Broker.Exchanges.{
  filter_by_level, client_level, prepare_broadcast, acked_broadcast,
}
use push_component.Broker.Levels.{filter_by_level-append, acked_broadcast-prepare}
use push_component.Broker.Unicasts.{replaced_notification_revived}
use push_component.Broker.Simple.{
  Broker, session_in, deliver, broadcast_delivery, mark_registered, step, broadcast_exchange,
}
use push_component.Broker.Simple.Registry.{IsSound}
use push_component.Broker.Simple.Run.{run, run-IsSound}
use push_component.Broker.Simple.Casts.{is_at, step-register, step-broadcast}
use push_component.Broker.Simple.Replaced.{replaced_session_unregisters}

abbrev note : GoString → Notification
note id = record { app_id = lit "a"; msg_id = id; payload = lit "{}" }

abbrev until : ℕ → GoString → Metadata
until t tag = record { expiration = t; replace_tag = tag; obsolete = false }

filter_by_level-append_example :
    filter_by_level 3 5 (note (lit "1") ∷ note (lit "2") ∷ note (lit "3") ∷ note (lit "4") ∷ [])
    ≡ note (lit "3") ∷ note (lit "4") ∷ []
filter_by_level-append_example =
    filter_by_level-append 3 5 (note (lit "1") ∷ note (lit "2") ∷ note (lit "3") ∷ [])
      (note (lit "4") ∷ []) (omega arith) (omega arith) (omega arith)

abbrev scratch : ScratchArea
scratch = record {
  broadcast_msg = record {
    msg_type = [];
    app_id = [];
    chan_id = [];
    top_level = 0;
    payloads = of_list [];
    splitting = 0;
  };
  notifications_msg = record {
    msg_type = [];
    notifications = of_list (note (lit "1") ∷ []);
    splitting = 0;
  };
  ack_type = lit "ack";
}

abbrev pub session : GoString → Bool → BrokerSession
session device marked = record {
  registered = marked;
  device_id = device;
  model = lit "phone";
  image_channel = lit "stable";
  exchanges = [];
  levels = [];
  scratch = scratch;
}

abbrev system_broadcast : BroadcastExchange
system_broadcast = record {
  chan_id = lit "0";
  top_level = 5;
  notifications = note (lit "1") ∷ [];
  decoded = (lit "stable/phone" ∷ []) ∷ [];
}

abbrev at_five : BrokerSession
at_five = record (session (lit "d1") true) { levels = (lit "0", 5) ∷ [] }

acked_broadcast-prepare_example :
    (lit "ack" ≡ lit "ack")
    × (client_level (lit "0") at_five ≡ 5)
    × ((chan : GoString)
        → chan ≢ lit "0"
        → client_level chan at_five ≡ client_level chan (session (lit "d1") true))
    × (prepare_broadcast system_broadcast at_five ≡ err nop)
unfolding acked_broadcast insert str_eq
acked_broadcast-prepare_example =
    acked_broadcast-prepare system_broadcast (session (lit "d1") true) at_five (omega arith) refl

abbrev two_notes : Channel
two_notes = record {
  top_level = 0;
  notifications = note (lit "1") ∷ note (lit "2") ∷ [];
  meta = until 50 [] ∷ until 60 [] ∷ [];
}

abbrev note_store : Store
note_store = (lit "Ud1:d1", two_notes) ∷ []

note_store-IsConsistent : IsConsistent note_store
unfolding lookup
note_store-IsConsistent k ch e = ground (arith, two_notes-IsWellFormed)
  where
    two_notes-IsWellFormed : push_component.Store.InMemory.Views.IsWellFormed two_notes
    two_notes-IsWellFormed = record { paired = refl; unmarked = (refl, (refl, tt)) }

abbrev own_channel : UnicastExchange
own_channel = record { chan_id = lit "Ud1:d1"; cached_ok = false }

abbrev replaced : Channel
replaced = record {
  top_level = 0;
  notifications = note (lit "1") ∷ note (lit "2") ∷ [];
  meta = until 50 (lit "t") ∷ until 60 (lit "t") ∷ [];
}

abbrev replaced_store : Store
replaced_store = (lit "Ud1:d1", replaced) ∷ []

replaced_store-IsConsistent : IsConsistent replaced_store
unfolding lookup
replaced_store-IsConsistent k ch e = ground (arith, replaced-IsWellFormed)
  where
    replaced-IsWellFormed : push_component.Store.InMemory.Views.IsWellFormed replaced
    replaced-IsWellFormed = record { paired = refl; unmarked = (refl, (refl, tt)) }

replaced_notification_revived_example :
    (get_channel_snapshot 10 (lit "Ud1:d1") replaced_store ≡ (0, note (lit "2") ∷ []))
    × (get_channel_snapshot 10
          (lit "Ud1:d1")
          (drop_by_msg_id (lit "Ud1:d1") (note (lit "2") ∷ []) replaced_store)
        ≡ (0, note (lit "1") ∷ []))
unfolding lookup str_eq
replaced_notification_revived_example =
    replaced_notification_revived 10 (lit "Ud1:d1") (note (lit "1")) (note (lit "2"))
      (until 50 (lit "t")) (until 60 (lit "t")) 0 replaced_store replaced_store-IsConsistent refl
      refl refl (λ e. cc) refl refl (λ e. ground arith)

-- Sessions 1 and 3 are of one device, session 2 of another; session 3 has not registered yet.
abbrev pub busy : Broker
busy = record {
  store = note_store;
  sessions =
      (1, session (lit "d1") true)
      ∷ (2, session (lit "d2") true)
      ∷ (3, session (lit "d1") false)
      ∷ [];
  registry = (lit "d1", 1) ∷ (lit "d2", 2) ∷ [];
  broadcasts = 0;
  unicasts = 0;
}

abbrev pub no_json : GoString → Option (List GoString)
no_json s = none

step-register_example :
    (b' : Broker) × (step no_json 10 busy (session_in 3) ≡ some b')
    × ((d : GoString)
        → lookup d b'.registry ≡ (if str_eq (lit "d1") d then some 3 else lookup d busy.registry))
    × (lookup 3 b'.sessions ≡ some (mark_registered (session (lit "d1") false)))
    × ((q : ℕ)
        → q ≢ 3
        → lookup q b'.sessions ≡ (
            if is_at (lookup (lit "d1") busy.registry) q
            then Option.map (feed none) (lookup q busy.sessions)
            else lookup q busy.sessions))
unfolding lookup str_eq
step-register_example =
    step-register no_json 10 busy 3 (session (lit "d1") false) refl refl (λ e. ground arith)

replaced_session_unregisters_example :
    (b' : Broker) × (b'' : Broker) × (step no_json 10 busy (session_in 3) ≡ some b')
    × (lookup 1 b'.sessions ≡ some (feed none (session (lit "d1") true)))
    × (lookup (lit "d1") b'.registry ≡ some 3)
    × (step no_json 20 b' (session_in 1) ≡ some b')
    × (step no_json 30 b' (session_in 3) ≡ some b'')
    × (b''.sessions ≡ b'.sessions)
    × (b''.store ≡ b'.store)
    × ((d : GoString)
        → lookup d b''.registry ≡ (if str_eq (lit "d1") d then none else lookup d busy.registry))
unfolding lookup str_eq
replaced_session_unregisters_example =
    replaced_session_unregisters no_json 10 20 30 busy 1 3 (session (lit "d1") true)
      (session (lit "d1") false) refl refl refl refl refl refl

-- Before the two devices registered.
abbrev quiet : Broker
quiet = record busy {
  sessions =
      (1, session (lit "d1") false)
      ∷ (2, session (lit "d2") false)
      ∷ (3, session (lit "d1") false)
      ∷ [];
  registry = [];
}

quiet-IsSound : IsSound quiet
unfolding lookup
quiet-IsSound d p e = cc

run-IsSound_example : IsSound busy × IsDistinct (keys busy.registry)
unfolding run step lookup insert str_eq
run-IsSound_example =
    run-IsSound no_json quiet busy ((0, session_in 1) ∷ (0, session_in 2) ∷ []) refl quiet-IsSound
      tt

pub busy-IsSound : IsSound busy
unfolding run step lookup insert str_eq
busy-IsSound =
    (run-IsSound no_json quiet busy ((0, session_in 1) ∷ (0, session_in 2) ∷ []) refl quiet-IsSound
      tt).0

pub busy_keys : IsDistinct (keys busy.registry)
unfolding str_eq
busy_keys = (refl, (refl, tt))

step-broadcast_example :
    (b' : Broker) × (step no_json 10 busy (deliver (broadcast_delivery (lit "0"))) ≡ some b')
    × (b'.registry ≡ busy.registry)
    × ((q : ℕ)
        → lookup q b'.sessions ≡ (
            if elem q (1 ∷ 2 ∷ [])
            then Option.map
                (feed (some (broadcast (broadcast_exchange no_json 10 (lit "0") note_store))))
                (lookup q busy.sessions)
            else lookup q busy.sessions))
step-broadcast_example = step-broadcast no_json 10 busy (lit "0") busy-IsSound busy_keys
