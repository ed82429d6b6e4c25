-- ===== src/Session/Forwarded.antt =====
-- A notification's way from the pending store through the broker to a device that is connected.
use push_component.Base.{
  ℕ, ◌<◌, ◌≤◌, ◌≡◌, refl, ap, sym, ◌∙◌, subst, true, false, List, [], ◌∷◌, ◌++◌, map, Option, some,
  GoString, string_Eq, nat_Eq, lookup, length, replicate, elem, All, arith, nat_eq,
}
use push_component.Base.Int64.{modulus}
use push_component.Protocol.Messages.{
  Notification, NotificationsMsg, notification_size, max_payload_size,
}
use push_component.Protocol.Split.{all_parts}
use push_component.Protocol.Split.Notifications.{carried}
use push_component.Store.ChannelId.{unicast_user_and_device}
use push_component.Store.Filter.{Metadata, before}
use push_component.Store.Filter.Drop.{msg_ids}
use push_component.Store.InMemory.{get_channel_snapshot, append_to_unicast_channel}
use push_component.Broker.Session.{BrokerSession, UnicastExchange, unicast, feed}
use push_component.Broker.Pending.{IsPending, Waits, append_to_unicast_channel-IsPending}
use push_component.Broker.Simple.{Broker, deliver, unicast_delivery, step}
use push_component.Broker.Simple.Casts.{step-unicast}
use push_component.Session.{notifications_message, Loop, goes_on, exchange_comes, session_round}
use push_component.Session.Delivery.{ack}
use push_component.Session.Notified.{session_round-unicast}

-- A list that ends in an element has a first one.
first_of :
    (ns : List Notification) (n : Notification)
    → (h : Notification) × (t : List Notification) × (ns ++ n ∷ [] ≡ h ∷ t)
first_of [] n = (n, [], refl)
first_of (n' ∷ ns) n = (n', ns ++ n ∷ [], refl)

-- The round of a session whose channel has nothing but the exchange, for any notifications that end
-- in one.
round_forwards :
    (overhead now level fuel : ℕ) (x : UnicastExchange) (ns : List Notification) (n : Notification)
    (l : Loop)
    → l.sess.exchanges ≡ some (unicast x) ∷ []
    → IsPending now level x.chan_id (ns ++ n ∷ []) l.pending
    → All (λ n. notification_size overhead n ≤ max_payload_size) (ns ++ n ∷ [])
    → length (ns ++ n ∷ []) < fuel
    → (next : Loop) × (ms : List NotificationsMsg) × (session_round overhead
          (exchange_comes now (replicate fuel ack))
          l
        ≡ goes_on next)
      × (next.written ≡ l.written ++ map notifications_message ms)
      × (all_parts carried ms ≡ ns ++ n ∷ [])
      × (get_channel_snapshot now x.chan_id next.pending ≡ (level, []))
round_forwards overhead now level fuel x ns n l comes p fit more =
    let (h, t, is) = first_of ns n in
    let (next, ms, goes, sent, holds, fits, drained, others, levels, off) =
      session_round-unicast overhead now level fuel x [] h t l comes
        (subst (λ ns. IsPending now level x.chan_id ns l.pending) is p)
        (subst (λ ns. All (λ n. notification_size overhead n ≤ max_payload_size) ns) is fit)
        (subst (λ ns. length ns < fuel) is more) in
    (next, ms, goes, sent, holds ∙ sym is, drained)

-- A notification with a new message id and no replace tag, which has not expired, is stored for a
-- device's channel with a 64-bit level, in which no two notifications share a message id and nothing
-- has expired or been replaced, while the device's current session has nothing to do. Then the
-- delivery that the broker is asked for feeds that session, and the next round of the session's
-- loop, where the device acknowledges every message, sends the notifications that waited and behind
-- them the new one, in order, and goes on; the next snapshot of the channel, at the same time, is
-- empty, at the same level. Each notification is within the limit, and there are more
-- acknowledgements than notifications.
pub stored_notification_delivered :
    (unmarshal : GoString → Option (List GoString)) (overhead now level fuel : ℕ)
    (chan_id user device app_id payload msg_id : GoString) (meta : Metadata)
    (ns : List Notification) (b : Broker) (p : ℕ) (sess : BrokerSession) (l : Loop)
    → unicast_user_and_device chan_id ≡ some (user, device)
    → lookup device b.registry ≡ some p
    → lookup p b.sessions ≡ some sess
    → sess.exchanges ≡ []
    → Waits now level chan_id ns b.store
    → level < modulus
    → elem msg_id (msg_ids ns) ≡ false
    → before meta now ≡ false
    → meta.replace_tag ≡ []
    → meta.obsolete ≡ false
    → All
        (λ n. notification_size overhead n ≤ max_payload_size)
        (ns ++ record { app_id = app_id; msg_id = msg_id; payload = payload } ∷ [])
    → length (ns ++ record { app_id = app_id; msg_id = msg_id; payload = payload } ∷ []) < fuel
    → let stored : Broker = record b {
      store = append_to_unicast_channel chan_id app_id payload msg_id meta b.store;
    } in
      (b' : Broker) × (sess' : BrokerSession) × (next : Loop) × (ms : List NotificationsMsg) × (step
          unmarshal now stored
          (deliver (unicast_delivery chan_id))
        ≡ some b')
      × (lookup p b'.sessions ≡ some sess')
      × (session_round overhead
            (exchange_comes now (replicate fuel ack))
            (record l { sess = sess'; pending = b'.store })
          ≡ goes_on next)
      × (next.written ≡ l.written ++ map notifications_message ms)
      × (all_parts carried ms
          ≡ ns ++ record { app_id = app_id; msg_id = msg_id; payload = payload } ∷ [])
      × (get_channel_snapshot now chan_id next.pending ≡ (level, []))
stored_notification_delivered unmarshal overhead now level fuel chan_id user device app_id payload
      msg_id meta ns b p sess l read current found idle w bound new fresh untagged unmarked fit
      more =
    let n : Notification = record { app_id = app_id; msg_id = msg_id; payload = payload } in
    let x : UnicastExchange = record { chan_id = chan_id; cached_ok = false } in
    let stored : Broker = record b {
      store = append_to_unicast_channel chan_id app_id payload msg_id meta b.store;
    } in
    let sess' : BrokerSession = feed (some (unicast x)) sess in
    let (b', steps, same, kept, sessions) =
      step-unicast unmarshal now stored chan_id user device read in
    let self : nat_eq p p ≡ true = ground arith in
    let fed : lookup p b'.sessions ≡ some sess' = rw (current, found, self) at (sessions p) in
    let pending : IsPending now level chan_id (ns ++ n ∷ []) b'.store =
      subst (λ sto. IsPending now level chan_id (ns ++ n ∷ []) sto) (sym kept)
        (append_to_unicast_channel-IsPending now level chan_id app_id payload msg_id meta ns b.store
          w bound new fresh untagged unmarked) in
    let (next, ms, goes, sent, holds, drained) =
      round_forwards overhead now level fuel x ns n (record l { sess = sess'; pending = b'.store })
        (ap (λ es. es ++ some (unicast x) ∷ []) idle) pending fit more in
    (b', sess', next, ms, steps, fed, goes, sent, holds, drained)
