-- ===== src/Examples/Broadcasts.antt =====
-- A request to broadcast at concrete values, with two devices connected.
use push_component.Base.{
  ℕ, ◌≡◌, ◌≢◌, refl, true, false, [], ◌∷◌, none, some, GoString, lit, nat_Eq, string_Eq, lookup,
  str_eq, elem, values, arith,
}
use push_component.Base.Results.{ok}
use push_component.Store.ChannelId.{system_internal_channel_id}
use push_component.Store.Filter.Obsolete.{is_obsolete}
use push_component.Store.InMemory.{Channel, Store}
use push_component.Store.InMemory.Views.{IsWellFormed}
use push_component.Store.InMemory.Invariant.{IsConsistent}
use push_component.Broker.Session.{BroadcastExchange, BrokerSession, broadcast, feed}
use push_component.Broker.Simple.{Broker, deliver, broadcast_delivery, step}
use push_component.Session.Announced.{Announces, announced}
use push_component.Api.Requests.{Broadcast, check_broadcast, check_cast_common}
use push_component.Api.PendingStore.{in_memory}
use push_component.Api.Handlers.{Server, do_broadcast}
use push_component.Api.Broadcasts.{broadcast_reaches_sessions}
use push_component.Examples.Api.{plain, context}
use push_component.Examples.Brokers.{busy, busy-IsSound, busy_keys, no_json}

abbrev system_message : Broadcast
system_message = record { channel = lit "system"; expire_on = lit "later"; raw_data = lit "{}" }

abbrev system_channel : Channel
system_channel = record {
  top_level = 4;
  notifications = announced (lit "[]") ∷ [];
  meta = record { expiration = 80; replace_tag = []; obsolete = false } ∷ [];
}

abbrev one_pending : Server Store
one_pending = record { pending = (lit "0", system_channel) ∷ []; asked = [] }

system_channel-IsWellFormed : IsWellFormed system_channel
system_channel-IsWellFormed = record { paired = refl; unmarked = (refl, tt) }

one_pending-IsConsistent : IsConsistent one_pending.pending
unfolding lookup
one_pending-IsConsistent k ch e = ground (arith, system_channel-IsWellFormed)

one_pending-Announces :
    Announces 60 4 system_internal_channel_id (announced (lit "[]") ∷ []) one_pending.pending
unfolding lookup str_eq is_obsolete
one_pending-Announces = record {
  consistent = one_pending-IsConsistent;
  level_is = refl;
  holds = refl;
  none_obsolete = (refl, tt);
}

broadcast_reaches_sessions_example :
    (srv' : Server Store) × (b' : Broker) × (x : BroadcastExchange) × (do_broadcast
        (in_memory plain)
        (context 2)
        system_message
        one_pending
      ≡ some (srv', ok none))
    × ((k : GoString)
        → system_internal_channel_id ≢ k
        → lookup k srv'.pending ≡ lookup k one_pending.pending)
    × (srv'.asked ≡ broadcast_delivery system_internal_channel_id ∷ [])
    × (step no_json 60
          (record busy { store = srv'.pending })
          (deliver (broadcast_delivery system_internal_channel_id))
        ≡ some b')
    × (x.chan_id ≡ system_internal_channel_id)
    × (x.top_level ≡ 5)
    × (x.notifications ≡ announced (lit "[]") ∷ announced (lit "{}") ∷ [])
    × ((q : ℕ) (sess : BrokerSession)
        → elem q (values busy.registry) ≡ true
        → lookup q busy.sessions ≡ some sess
        → lookup q b'.sessions ≡ some (feed (some (broadcast x)) sess))
unfolding check_broadcast check_cast_common
broadcast_reaches_sessions_example =
    broadcast_reaches_sessions plain (context 2) one_pending no_json 60 90 4 system_message
      (announced (lit "[]") ∷ []) busy refl refl one_pending-Announces (omega arith) (omega arith)
      busy-IsSound busy_keys
