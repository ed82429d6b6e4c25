-- ===== src/Session/Announced.antt =====
-- A broadcast's way from the pending store through the broker to a device that is connected.
use push_component.Base.{
  ℕ, ◌+◌, ◌-◌, ◌<◌, ◌≤◌, ◌≡◌, refl, ap, ◌∙◌, true, false, List, [], ◌∷◌, ◌++◌, map, Option, some,
  GoString, string_Eq, nat_Eq, lookup, length, drop, length-append, drop_all, replicate, elem,
  arith, str_eq, keys, values, IsDistinct,
}
use push_component.Base.Int64.{modulus, sign_bit, add64}
use push_component.Protocol.Messages.{
  Notification, BroadcastMsg, max_payload_size, extract_payloads,
}
use push_component.Protocol.Split.{all_parts}
use push_component.Protocol.Split.Broadcast.{parts}
use push_component.Store.ChannelId.{system_internal_channel_id, internal_channel_id_to_hex}
use push_component.Store.Filter.{Metadata}
use push_component.Store.Filter.Obsolete.{notifications_of}
use push_component.Store.InMemory.{
  Channel, Store, get_channel_snapshot, append_to, append_to_channel,
}
use push_component.Store.InMemory.Views.{entries, notifications_of-zip}
use push_component.Store.InMemory.Invariant.{
  IsConsistent, channel_at, channel_at-IsWellFormed, append_to-IsConsistent,
}
use push_component.Store.InMemory.Levels.{lookup-insert_self}
use push_component.Store.InMemory.Pending.{zip-append}
use push_component.Broker.Session.{BroadcastExchange, BrokerSession, broadcast, feed}
use push_component.Broker.Exchanges.{
  client_level, image_tag, pending_payloads, channel_filter, filter_by_level, init_broadcast,
}
use push_component.Broker.Levels.{filter_by_level-append}
use push_component.Broker.Unicasts.{NoneObsolete, snapshot_of, live_entries_all}
use push_component.Broker.Pending.{append-NoneObsolete}
use push_component.Broker.Simple.{Broker, deliver, broadcast_delivery, broadcast_exchange, step}
use push_component.Broker.Simple.Registry.{IsSound}
use push_component.Broker.Simple.Casts.{step-broadcast}
use push_component.Session.{broadcast_message, Loop, goes_on, exchange_comes, session_round}
use push_component.Session.Delivery.{ack, session_round-broadcast}

-- A broadcast channel at a level, with notifications of which none has expired.
pub record Announces (now level : ℕ) (k : GoString) (ns : List Notification) (sto : Store)
    : Type 0 where
  pub consistent : IsConsistent sto
  pub level_is : (channel_at k sto).top_level ≡ level
  pub holds : (channel_at k sto).notifications ≡ ns
  pub none_obsolete : NoneObsolete now (entries (channel_at k sto))

abbrev pub announced : GoString → Notification
announced payload = record { app_id = []; msg_id = []; payload = payload }

-- The snapshot once one more is stored.
pub append_to_channel-snapshot :
    (now level : ℕ) (k payload : GoString) (expiration : ℕ) (ns : List Notification) (sto : Store)
    → Announces now level k ns sto
    → level + 1 < modulus
    → now ≤ expiration
    → get_channel_snapshot now k (append_to_channel k payload expiration sto)
      ≡ (level + 1, ns ++ announced payload ∷ [])
unfolding append_to_channel append_to
append_to_channel-snapshot now level k payload expiration ns sto w bound fresh =
    snapshot_of now k (append_to k n 1 meta sto) next
      (append_to-IsConsistent k n 1 meta sto refl w.consistent) (lookup-insert_self k next sto)
    ∙ ap (λ es. (next.top_level, notifications_of es)) (live_entries_all now (entries next) live)
    ∙ ap (λ ns. (next.top_level, ns)) names
    ∙ ap (λ l. (l, ns ++ n ∷ [])) level_is
  where
    n : Notification
    n = announced payload

    meta : Metadata
    meta = record { expiration = expiration; replace_tag = []; obsolete = false }

    prev : Channel
    prev = channel_at k sto

    next : Channel
    next = record {
      top_level = add64 prev.top_level 1;
      notifications = prev.notifications ++ n ∷ [];
      meta = prev.meta ++ meta ∷ [];
    }

    level_is : next.top_level ≡ level + 1
    level_is = omega (arith, w.level_is, bound)

    prev-paired : length prev.notifications ≡ length prev.meta
    prev-paired = (channel_at-IsWellFormed k sto w.consistent).paired

    added : entries next ≡ entries prev ++ (n, meta) ∷ []
    added = zip-append prev.notifications prev.meta n meta prev-paired

    live : NoneObsolete now (entries next)
    live =
        rw added (
          append-NoneObsolete now (entries prev) n meta (ground (arith, fresh)) refl
            w.none_obsolete)

    names : notifications_of (entries next) ≡ ns ++ n ∷ []
    names =
        notifications_of-zip next.notifications next.meta (
          omega (
            arith,
            prev-paired,
            length-append prev.notifications (n ∷ []),
            length-append prev.meta (meta ∷ []),
          ))
        ∙ ap (λ ns. ns ++ n ∷ []) w.holds

channel_filter_other :
    (tag k : GoString) (ns : List Notification) (decoded : List (List GoString))
    → str_eq k system_internal_channel_id ≡ false
    → channel_filter tag k ns decoded ≡ extract_payloads ns
unfolding channel_filter
channel_filter_other tag k ns decoded h = ground (arith, h)

-- A client that had every level before the last is sent the last notification.
filter_by_level_last :
    (level : ℕ) (ns : List Notification) (n : Notification)
    → level + 1 < sign_bit
    → filter_by_level level (level + 1) (ns ++ n ∷ []) ≡ n ∷ []
filter_by_level_last level ns n h =
    let width : length ns + 1 - (level + 1 - level) ≡ length ns = omega arith in
    filter_by_level-append level (level + 1) ns (n ∷ []) (omega arith) h (omega arith)
    ∙ ap (λ k. drop k ns ++ n ∷ []) width
    ∙ ap (λ ns. ns ++ n ∷ []) (drop_all (length ns) ns (omega arith))

-- In a broker that is sound and has one session for each device, a broadcast is stored for a channel
-- that is not the system's, in which no notification has expired or been replaced, and which has a
-- hex form and a new level below 2 ^ 63; a session in the broker's registry has nothing to do, and
-- its client has the level that the channel had. Then the delivery that the broker is asked for feeds
-- that session, and the next round of the session's loop, where the device acknowledges the messages
-- and two acknowledgements or more can come, sends the new broadcast alone, whatever else is pending,
-- and goes on; the client's level is then the channel's new level, and its other levels stay. The
-- broadcast has not expired and is within the limit.
pub stored_broadcast_delivered :
    (unmarshal : GoString → Option (List GoString)) (overhead now level more expiration : ℕ)
    (chan_id hex payload : GoString) (ns : List Notification) (b : Broker) (p : ℕ)
    (sess : BrokerSession) (l : Loop)
    → str_eq chan_id system_internal_channel_id ≡ false
    → internal_channel_id_to_hex chan_id ≡ some hex
    → IsSound b
    → IsDistinct (keys b.registry)
    → elem p (values b.registry) ≡ true
    → lookup p b.sessions ≡ some sess
    → sess.exchanges ≡ []
    → client_level chan_id sess ≡ level
    → Announces now level chan_id ns b.store
    → level + 1 < sign_bit
    → now ≤ expiration
    → length payload ≤ max_payload_size
    → let stored : Broker = record b {
      store = append_to_channel chan_id payload expiration b.store;
    } in
      (b' : Broker) × (sess' : BrokerSession) × (next : Loop) × (ms : List BroadcastMsg) × (step
          unmarshal now stored
          (deliver (broadcast_delivery chan_id))
        ≡ some b')
      × (lookup p b'.sessions ≡ some sess')
      × (session_round overhead
            (exchange_comes now (replicate (2 + more) ack))
            (record l { sess = sess' })
          ≡ goes_on next)
      × (next.written ≡ l.written ++ map broadcast_message ms)
      × (all_parts parts ms ≡ payload ∷ [])
      × (client_level chan_id next.sess ≡ level + 1)
      × ((c : GoString) → str_eq c chan_id ≡ false → client_level c next.sess ≡ client_level c sess)
unfolding init_broadcast extract_payloads
stored_broadcast_delivered unmarshal overhead now level more expiration chan_id hex payload ns b p
      sess l other hexed sound one_each current found idle behind w bound fresh small =
    let stored : Broker = record b {
      store = append_to_channel chan_id payload expiration b.store;
    } in
    let snap =
      append_to_channel-snapshot now level chan_id payload expiration ns b.store w (omega arith)
        fresh in
    let x : BroadcastExchange = broadcast_exchange unmarshal now chan_id stored.store in
    let top : x.top_level ≡ level + 1 = ap (λ s. s.0) snap in
    let notifs : x.notifications ≡ ns ++ announced payload ∷ [] = ap (λ s. s.1) snap in
    let sess' : BrokerSession = feed (some (broadcast x)) sess in
    let (b', steps, same, sessions) = step-broadcast unmarshal now stored chan_id sound one_each in
    let fed : lookup p b'.sessions ≡ some sess' = rw (current, found) at (sessions p) in
    let due : pending_payloads x sess' ≡ payload ∷ [] =
      channel_filter_other (image_tag sess') chan_id _ x.decoded other
      ∙ ap extract_payloads (
          ap (λ c. filter_by_level c x.top_level x.notifications) behind
          ∙ ap (λ t. filter_by_level level t x.notifications) top
          ∙ ap (λ ns. filter_by_level level (level + 1) ns) notifs
          ∙ filter_by_level_last level ns (announced payload) bound) in
    let (next, ms, goes, sent, holds, fits, raised, others, off, same_store) =
      session_round-broadcast overhead now (2 + more) x [] hex (record l { sess = sess' })
        (ap (λ es. es ++ some (broadcast x) ∷ []) idle) hexed (omega (arith, top))
        (rw due (omega arith)) (rw due (small, tt)) (rw due (omega arith)) in
    (b', sess', next, ms, steps, fed, goes, sent, holds ∙ due, raised ∙ top, others)
