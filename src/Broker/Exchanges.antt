-- ===== src/Broker/Exchanges.antt =====
-- server/broker/exchanges.go: what an exchange sends, and what an acknowledgement does. The store is
-- the in-memory one, which reports no errors; `unmarshal` is encoding/json on a payload, as the keys
-- of the object that it holds.
use push_component.Base.{
  ℕ, ◌-◌, true, not, ◌&&◌, List, [], ◌∷◌, ◌++◌, map, Option, none, some, GoString, lit, string_Eq,
  str_eq, length, drop, elem, get_or, ltb, nat_eq, if◌then◌else◌, lookup, insert,
}
use push_component.Base.Int64.{sub64, is_negative, le64}
use push_component.Base.Slice.{of_list}
use push_component.Base.Results.{Result, ok, err}
use push_component.Protocol.Messages.{
  Notification, broadcast_reset, notifications_reset, extract_payloads,
}
use push_component.Store.ChannelId.{system_internal_channel_id, internal_channel_id_to_hex}
use push_component.Store.InMemory.{Store, get_channel_snapshot, drop_by_msg_id}
use push_component.Broker.Session.{
  BroadcastExchange, UnicastExchange, Exchange, broadcast, unicast, BrokerSession, ExchangeError,
  nop, abort, panicked, feed, session_channel_id,
}

-- BroadcastExchange.Init
unfoldable pub init_broadcast :
    (GoString → Option (List GoString)) → BroadcastExchange → BroadcastExchange
init_broadcast unmarshal x = record x {
  decoded = map (λ n. get_or (unmarshal n.payload) []) x.notifications;
}

-- filterByLevel
unfoldable pub filter_by_level : ℕ → ℕ → List Notification → List Notification
filter_by_level client_level top_level notifs =
    let c = length notifs in
    let ahead = sub64 top_level client_level in
    let delta = if is_negative ahead then 1 else ahead in
    if nat_eq c 0 then [] else if ltb delta c then drop (c - delta) notifs else notifs

-- The payloads of the notifications whose decoded form has the tag as a key.
unfoldable pub tagged_payloads : GoString → List Notification → List (List GoString) → List GoString
tagged_payloads tag ns [] = []
tagged_payloads tag [] (keys ∷ ds) = []
tagged_payloads tag (n ∷ ns) (keys ∷ ds) =
    let rest = tagged_payloads tag ns ds in if elem tag keys then n.payload ∷ rest else rest

-- channelFilter; there are at least as many decoded forms as notifications.
unfoldable pub channel_filter :
    GoString → GoString → List Notification → List (List GoString) → List GoString
channel_filter tag chan_id notifs decoded =
    if not (nat_eq (length notifs) 0) && str_eq chan_id system_internal_channel_id
    then tagged_payloads tag notifs (drop (length decoded - length notifs) decoded)
    else extract_payloads notifs

-- The level that the session's client has for a channel; Go's maps give 0 where they have no entry.
abbrev pub client_level : GoString → BrokerSession → ℕ
client_level chan_id sess = get_or (lookup chan_id sess.levels) 0

-- fmt.Sprintf("%s/%s", channel, model)
abbrev pub image_tag : BrokerSession → GoString
image_tag sess = sess.image_channel ++ (lit "/" ++ sess.model)

abbrev pub pending_payloads : BroadcastExchange → BrokerSession → List GoString
pending_payloads x sess =
    channel_filter (image_tag sess) x.chan_id
      (filter_by_level (client_level x.chan_id sess) x.top_level x.notifications) x.decoded

-- The scratch message of a broadcast, filled in.
fill_broadcast :
    BroadcastExchange
    → List GoString
    → BrokerSession
    → Option GoString
    → Result ExchangeError BrokerSession
fill_broadcast x payloads sess none = err panicked
fill_broadcast x payloads sess (some hex) =
    let fresh = broadcast_reset sess.scratch.broadcast_msg in
    ok (record sess {
      scratch = record sess.scratch {
        broadcast_msg = record fresh {
          chan_id = hex;
          top_level = x.top_level;
          payloads = of_list payloads;
        };
      };
    })

-- BroadcastExchange.Prepare: the message to send is in the scratch area of the session returned.
unfoldable pub prepare_broadcast :
    BroadcastExchange → BrokerSession → Result ExchangeError BrokerSession
unfolding fill_broadcast
prepare_broadcast x sess =
    let payloads = pending_payloads x sess in
    if nat_eq (length payloads) 0 && le64 (client_level x.chan_id sess) x.top_level
    then err nop
    else fill_broadcast x payloads sess (internal_channel_id_to_hex x.chan_id)

-- BroadcastExchange.Acked
unfoldable pub acked_broadcast :
    BroadcastExchange → BrokerSession → Result ExchangeError BrokerSession
acked_broadcast x sess =
    if not (str_eq sess.scratch.ack_type (lit "ack"))
    then err (abort (lit "expected ACK message"))
    else ok (record sess { levels = insert x.chan_id x.top_level sess.levels })

-- UnicastExchange.Prepare, at the time `now`.
unfoldable pub prepare_unicast :
    ℕ → UnicastExchange → Store → BrokerSession → Result ExchangeError BrokerSession
prepare_unicast now x sto sess =
    let (level, notifs) = get_channel_snapshot now x.chan_id sto in
    if nat_eq (length notifs) 0
    then err nop
    else let fresh = notifications_reset sess.scratch.notifications_msg in
      ok (record sess {
        scratch = record sess.scratch {
          notifications_msg = record fresh { notifications = of_list notifs };
        };
      })

-- UnicastExchange.Acked: the store without the notifications of the last message sent.
unfoldable pub acked_unicast : UnicastExchange → Store → BrokerSession → Result ExchangeError Store
acked_unicast x sto sess =
    if not (str_eq sess.scratch.ack_type (lit "ack"))
    then err (abort (lit "expected ACK message"))
    else ok (drop_by_msg_id x.chan_id sess.scratch.notifications_msg.notifications.elems sto)

-- FeedPending, at the time `now`: the system channel if its level is not the client's, and then the
-- session's own channel.
unfoldable pub feed_pending :
    (GoString → Option (List GoString)) → ℕ → Store → BrokerSession → BrokerSession
unfolding init_broadcast
feed_pending unmarshal now sto sess =
    let (level, notifs) = get_channel_snapshot now system_internal_channel_id sto in
    let exchg : BroadcastExchange = init_broadcast unmarshal (record {
      chan_id = system_internal_channel_id;
      top_level = level;
      notifications = notifs;
      decoded = [];
    }) in
    let own : Exchange = unicast (record { chan_id = session_channel_id sess; cached_ok = true }) in
    feed (some own) (
      if nat_eq (client_level system_internal_channel_id sess) level
      then sess
      else feed (some (broadcast exchg)) sess)
