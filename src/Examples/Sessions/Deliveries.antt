-- ===== src/Examples/Sessions/Deliveries.antt =====
-- Notifications that are stored and delivered, at concrete values.
use push_component.Base.{
  Bool-cases, subst, inl, inr, str_eq_iff, ◌≡◌, refl, false, List, [], ◌∷◌, map, none, some,
  GoString, lit, string_Eq, nat_Eq, arith, str_eq, lookup,
}
use push_component.Protocol.Messages.{Notification, BroadcastMsg, NotificationsMsg}
use push_component.Protocol.Split.{all_parts}
use push_component.Protocol.Split.Broadcast.{parts}
use push_component.Protocol.Split.Notifications.{carried}
use push_component.Store.ChannelId.{
  broadcast_channel, unicast_user_and_device, unicast_channel, split_first,
  internal_channel_id_to_hex,
}
use push_component.Store.Filter.Obsolete.{is_obsolete}
use push_component.Store.InMemory.{
  Channel, Store, get_channel_snapshot, append_to_channel, append_to_unicast_channel,
}
use push_component.Store.InMemory.Views.{IsWellFormed}
use push_component.Broker.Session.{BrokerSession}
use push_component.Broker.Exchanges.{client_level}
use push_component.Broker.Pending.{Waits}
use push_component.Broker.Simple.{Broker, deliver, unicast_delivery, broadcast_delivery, step}
use push_component.Broker.Simple.Registry.{IsSound, Holds}
use push_component.Session.{
  broadcast_message, notifications_message, Loop, goes_on, exchange_comes, session_round,
}
use push_component.Session.Delivery.{ack}
use push_component.Session.Forwarded.{stored_notification_delivered}
use push_component.Session.Announced.{Announces, announced, stored_broadcast_delivered}
use push_component.Examples.Sessions.{
  note, until, two_notes, note_store, session_loop, note_store-IsConsistent,
}

abbrev third : Notification
third = record { app_id = lit "a"; msg_id = lit "3"; payload = lit "{}" }

abbrev connected_broker : Broker
connected_broker = record {
  store = note_store;
  sessions = (1, (session_loop []).sess) ∷ [];
  registry = (lit "d1", 1) ∷ [];
  broadcasts = 0;
  unicasts = 0;
}

abbrev with_third : Broker
with_third = record connected_broker {
  store =
      append_to_unicast_channel (lit "Ud1:d1") (lit "a") (lit "{}") (lit "3") (until 70) note_store;
}

note_store-Waits : Waits 15 0 (lit "Ud1:d1") two_notes.notifications note_store
unfolding lookup is_obsolete str_eq
note_store-Waits = record {
  consistent = note_store-IsConsistent;
  level_is = refl;
  holds = refl;
  distinct = (refl, (refl, tt));
  none_obsolete = (refl, (refl, tt));
}

stored_notification_delivered_example :
    (b' : Broker) × (sess' : BrokerSession) × (next : Loop) × (ms : List NotificationsMsg) × (step
        (λ s. none)
        15
        with_third
        (deliver (unicast_delivery (lit "Ud1:d1")))
      ≡ some b')
    × (lookup 1 b'.sessions ≡ some sess')
    × (session_round 70
          (exchange_comes 15 (ack ∷ ack ∷ ack ∷ ack ∷ []))
          (record (session_loop []) { sess = sess'; pending = b'.store })
        ≡ goes_on next)
    × (next.written ≡ map notifications_message ms)
    × (all_parts carried ms ≡ note (lit "1") ∷ note (lit "2") ∷ third ∷ [])
    × (get_channel_snapshot 15 (lit "Ud1:d1") next.pending ≡ (0, []))
unfolding unicast_user_and_device unicast_channel split_first lookup str_eq
stored_notification_delivered_example =
    stored_notification_delivered (λ s. none) 70 15 0 4 (lit "Ud1:d1") (lit "d1") (lit "d1")
      (lit "a") (lit "{}") (lit "3") (until 70) two_notes.notifications connected_broker 1
      (session_loop []).sess (session_loop []) refl refl refl refl note_store-Waits (omega arith)
      refl refl refl refl (omega arith, (omega arith, (omega arith, tt))) (omega arith)

-- A channel at the level of the client, with an older broadcast.
abbrev news : Channel
news = record { top_level = 2; notifications = announced (lit "old") ∷ []; meta = until 50 ∷ [] }

abbrev news_store : Store
news_store = (lit "Bx", news) ∷ []

abbrev news_broker : Broker
news_broker = record connected_broker { store = news_store }

first-Holds : Holds (lit "d1") 1 news_broker.sessions
unfolding lookup
first-Holds = record { sess = (session_loop []).sess; found = refl; marked = refl; named = refl }

news_broker-IsSound : IsSound news_broker
unfolding lookup
news_broker-IsSound d p e = elim (Bool-cases (str_eq (lit "d1") d)) [
  | inl same ↦
      let one : some 1 ≡ some p = rw same at e in
      let is : 1 ≡ p = cc in
      let named : lit "d1" ≡ d = (str_eq_iff (lit "d1") d).0 same in
      subst (λ p. Holds d p news_broker.sessions) is
        (subst (λ d. Holds d 1 news_broker.sessions) named first-Holds)
  | inr other ↦ absurd (cc (rw other at e))
]

news_store-Announces : Announces 15 2 (lit "Bx") news.notifications news_store
unfolding lookup is_obsolete str_eq
news_store-Announces = record {
  consistent = λ k ch e. ground (arith, news-IsWellFormed);
  level_is = refl;
  holds = refl;
  none_obsolete = (refl, tt);
}
  where
    news-IsWellFormed : IsWellFormed news
    news-IsWellFormed = record { paired = refl; unmarked = (refl, tt) }

stored_broadcast_delivered_example :
    (b' : Broker) × (sess' : BrokerSession) × (next : Loop) × (ms : List BroadcastMsg) × (step
        (λ s. none)
        15
        (record news_broker { store = append_to_channel (lit "Bx") (lit "new") 70 news_store })
        (deliver (broadcast_delivery (lit "Bx")))
      ≡ some b')
    × (lookup 1 b'.sessions ≡ some sess')
    × (session_round 70
          (exchange_comes 15 (ack ∷ ack ∷ []))
          (record (session_loop []) { sess = sess' })
        ≡ goes_on next)
    × (next.written ≡ map broadcast_message ms)
    × (all_parts parts ms ≡ lit "new" ∷ [])
    × (client_level (lit "Bx") next.sess ≡ 3)
    × ((c : GoString)
        → str_eq c (lit "Bx") ≡ false
        → client_level c next.sess ≡ client_level c (session_loop []).sess)
unfolding lookup str_eq internal_channel_id_to_hex broadcast_channel
stored_broadcast_delivered_example =
    stored_broadcast_delivered (λ s. none) 70 15 2 0 70 (lit "Bx") (lit "x") (lit "new")
      news.notifications news_broker 1 (session_loop []).sess (session_loop []) refl refl
      news_broker-IsSound (refl, tt) refl refl refl refl news_store-Announces (omega arith)
      (omega arith) (omega arith)
