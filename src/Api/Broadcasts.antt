-- ===== src/Api/Broadcasts.antt =====
-- A request to broadcast, from the handler through the store to the sessions of the broker.
use push_component.Base.{
  ℕ, ◌+◌, ◌≤◌, ◌<◌, ◌≡◌, ◌≢◌, ap, refl, true, List, [], ◌∷◌, ◌++◌, Option, none, some, GoString,
  lit, nat_Eq, string_Eq, lookup, elem, keys, values, IsDistinct,
}
use push_component.Base.Int64.{modulus}
use push_component.Base.Results.{ok}
use push_component.Protocol.Messages.{Notification}
use push_component.Store.ChannelId.{system_internal_channel_id}
use push_component.Store.InMemory.{Store, append_to_channel, append_to}
use push_component.Store.InMemory.Token.{Base64}
use push_component.Store.InMemory.Levels.{lookup-insert_ne, apart}
use push_component.Broker.Session.{BroadcastExchange, BrokerSession, broadcast, feed}
use push_component.Broker.Exchanges.{init_broadcast}
use push_component.Broker.Simple.{Broker, deliver, broadcast_delivery, broadcast_exchange, step}
use push_component.Broker.Simple.Registry.{IsSound}
use push_component.Broker.Simple.Casts.{step-broadcast}
use push_component.Session.Announced.{Announces, announced, append_to_channel-snapshot}
use push_component.Api.Requests.{Broadcast, check_broadcast}
use push_component.Api.PendingStore.{in_memory}
use push_component.Api.Handlers.{Context, Server, do_broadcast}
use push_component.Api.Laws.{do_broadcast_lem}

lookup-append_to_channel_ne :
    (k j payload : GoString) (expiration : ℕ) (sto : Store)
    → k ≢ j
    → lookup j (append_to_channel k payload expiration sto) ≡ lookup j sto
unfolding append_to_channel append_to
lookup-append_to_channel_ne k j payload expiration sto other =
    lookup-insert_ne k j _ sto (apart k j other)

-- A request to broadcast to the channel "system" passes the checks. The store is the one in memory,
-- and consistent; no notification of the channel has expired or been replaced at the time `later`,
-- and its level plus one is below 2 ^ 64. Then the request is answered without an error, it leaves every
-- other channel as it is, and it asks the broker once, for the system channel. Where the broker,
-- sound and with one session for each device, gets to that at the time `later`, which is not after
-- the expiration of the request, every session in its registry is fed one exchange for the channel,
-- with the next level, and with the data of the request as the last of the pending notifications.
pub broadcast_reaches_sessions :
    (base64 : Base64) (ctx : Context) (srv : Server Store)
    (unmarshal : GoString → Option (List GoString)) (later expire level : ℕ) (bcast : Broadcast)
    (ns : List Notification) (b : Broker)
    → check_broadcast ctx.parse_time ctx.now bcast ≡ ok expire
    → bcast.channel ≡ lit "system"
    → Announces later level system_internal_channel_id ns srv.pending
    → level + 1 < modulus
    → later ≤ expire
    → IsSound b
    → IsDistinct (keys b.registry)
    → (srv' : Server Store) × (b' : Broker) × (x : BroadcastExchange) × (do_broadcast
          (in_memory base64)
          ctx
          bcast
          srv
        ≡ some (srv', ok none))
      × ((k : GoString)
          → system_internal_channel_id ≢ k
          → lookup k srv'.pending ≡ lookup k srv.pending)
      × (srv'.asked ≡ srv.asked ++ broadcast_delivery system_internal_channel_id ∷ [])
      × (step unmarshal later
            (record b { store = srv'.pending })
            (deliver (broadcast_delivery system_internal_channel_id))
          ≡ some b')
      × (x.chan_id ≡ system_internal_channel_id)
      × (x.top_level ≡ level + 1)
      × (x.notifications ≡ ns ++ announced bcast.raw_data ∷ [])
      × ((q : ℕ) (sess : BrokerSession)
          → elem q (values b.registry) ≡ true
          → lookup q b.sessions ≡ some sess
          → lookup q b'.sessions ≡ some (feed (some (broadcast x)) sess))
unfolding init_broadcast
broadcast_reaches_sessions base64 ctx srv unmarshal later expire level bcast ns b checked system w
      bound soon sound one_each =
    let k : GoString = system_internal_channel_id in
    let stored : Store = append_to_channel k bcast.raw_data expire srv.pending in
    let snap =
      append_to_channel-snapshot later level k bcast.raw_data expire ns srv.pending w bound soon in
    let (b', steps, same, sessions) =
      step-broadcast unmarshal later (record b { store = stored }) k sound one_each in
    (
      record { pending = stored; asked = srv.asked ++ broadcast_delivery k ∷ [] },
      b',
      broadcast_exchange unmarshal later k stored,
      (do_broadcast_lem base64 ctx srv bcast expire checked).0 system,
      λ j other. lookup-append_to_channel_ne k j bcast.raw_data expire srv.pending other,
      refl,
      steps,
      refl,
      ap (λ s. s.0) snap,
      ap (λ s. s.1) snap,
      λ q sess current found. rw (current, found) at (sessions q),
    )
