-- ===== src/Session/Notified.antt =====
-- server/session/session.go: a unicast exchange, from the pending store to the device and out of the
-- store.
use mathlib.Core.List.{append_assoc}
use push_component.Base.{
  ℕ, zero, suc, ◌+◌, ◌≤◌, ◌<◌, ◌≡◌, refl, sym, ap, ◌∙◌, subst, inl, inr, true, false, List, [], ◌∷◌,
  ◌++◌, map, Option, none, some, ◌>>=◌, GoString, lit, string_Eq, str_eq, length, replicate, nat_eq,
  All, arith, lookup, Option-cases,
}
use push_component.Base.Slice.{of_list}
use push_component.Base.Results.{ok}
use push_component.Protocol.Messages.{
  Notification, NotificationsMsg, notifications_split, notifications_reset, notification_size,
  max_payload_size,
}
use push_component.Protocol.Split.{send_all, all_parts, total}
use push_component.Protocol.Split.Notifications.{carried, send_all-notifications}
use push_component.Store.InMemory.{Store, get_channel_snapshot, drop_by_msg_id}
use push_component.Broker.Session.{UnicastExchange, Exchange, unicast, BrokerSession}
use push_component.Broker.Exchanges.{prepare_unicast, acked_unicast}
use push_component.Broker.Pending.{
  IsPending, IsPending-snapshot, drop_by_msg_id-IsPending, lookup-drop_by_msg_id,
}
use push_component.Session.{
  notifications_message, Reply, Loop, goes_on, exchange, ping_timer_reset, send_loop, notifying,
  perform, exchange_comes, session_round,
}
use push_component.Session.Delivery.{ack}

-- The loop after a part that is acknowledged.
abbrev acknowledged : UnicastExchange → NotificationsMsg → Loop → Loop
acknowledged x m l = record l {
  written = l.written ++ notifications_message m ∷ [];
  pending = drop_by_msg_id x.chan_id (carried m) l.pending;
  sess = record l.sess {
    scratch = record l.sess.scratch { notifications_msg = m; ack_type = lit "ack" };
  };
}

module _ (overhead : ℕ) (x : UnicastExchange) (now : ℕ) where
  last_part :
      (replies : List Reply) (m : NotificationsMsg) (l : Loop)
      → notifications_split overhead l.sess.scratch.notifications_msg ≡ some (m, true)
      → send_loop (notifying overhead x) now (ack ∷ replies) l
        ≡ goes_on (record (acknowledged x m l) {
          ping_timer = some (now + l.ping_interval);
          interval_start = now;
        })
  unfolding send_loop acked_unicast exchange ping_timer_reset str_eq
  last_part replies m l e = rw (send_loop, e)

  other_part :
      (replies : List Reply) (m : NotificationsMsg) (l : Loop)
      → notifications_split overhead l.sess.scratch.notifications_msg ≡ some (m, false)
      → send_loop (notifying overhead x) now (ack ∷ replies) l
        ≡ send_loop (notifying overhead x) now replies (acknowledged x m l)
  unfolding send_loop acked_unicast exchange ping_timer_reset str_eq
  other_part replies m l e = rw (send_loop, e)

-- `next` is what a delivery of the messages `ms` to the device makes of the loop `l`.
record Drained (now level : ℕ) (x : UnicastExchange) (ms : List NotificationsMsg) (l next : Loop)
    : Type 0 where
  sent : next.written ≡ l.written ++ map notifications_message ms
  drained : IsPending now level x.chan_id [] next.pending
  others : (k : GoString) → str_eq x.chan_id k ≡ false → lookup k next.pending ≡ lookup k l.pending
  same_exchanges : next.sess.exchanges ≡ l.sess.exchanges
  same_levels : next.sess.levels ≡ l.sess.levels

-- The loop that sends, where every part is acknowledged, and the messages carry what is pending.
send_loop_acked :
    (overhead now level : ℕ) (x : UnicastExchange) (fuel : ℕ) (l : Loop)
    (ms : List NotificationsMsg)
    → send_all (notifications_split overhead) fuel l.sess.scratch.notifications_msg ≡ some ms
    → IsPending now level x.chan_id (all_parts carried ms) l.pending
    → (next : Loop) × (send_loop (notifying overhead x) now (replicate fuel ack) l ≡ goes_on next)
      × Drained now level x ms l next
unfolding send_all all_parts
send_loop_acked overhead now level x zero l ms h p = cc
send_loop_acked overhead now level x (suc fuel) l ms h p =
    elim (Option-cases (notifications_split overhead l.sess.scratch.notifications_msg)) [
      | inl e ↦ absurd (cc (rw (send_all, e) at h))
      | inr ((m, true), e) ↦
          let only : ms ≡ m ∷ [] = sym (cc (rw (send_all, e) at h)) in
          let p' : IsPending now level x.chan_id (carried m ++ []) l.pending = rw only at p in
          (
            _,
            last_part overhead x now (replicate fuel ack) m l e,
            record {
              sent = ap (λ ms. l.written ++ map notifications_message ms) (sym only);
              drained = drop_by_msg_id-IsPending now level x.chan_id (carried m) [] l.pending p';
              others = λ k apart. lookup-drop_by_msg_id x.chan_id k (carried m) l.pending apart;
              same_exchanges = refl;
              same_levels = refl;
            },
          )
      | inr ((m, false), e) ↦ elim (Option-cases (send_all (notifications_split overhead) fuel m)) [
        | inl ended ↦ absurd (cc (rw (send_all, e, ended, ◌>>=◌) at h))
        | inr (rest, f) ↦
            let both : ms ≡ m ∷ rest = sym (cc (rw (send_all, e, f, ◌>>=◌) at h)) in
            let p' : IsPending now level x.chan_id (carried m ++ all_parts carried rest) l.pending =
              subst (λ ms. IsPending now level x.chan_id (all_parts carried ms) l.pending) both p in
            let (next, goes, d) =
              send_loop_acked overhead now level x fuel (acknowledged x m l) rest f
                (drop_by_msg_id-IsPending now level x.chan_id (carried m) _ l.pending p') in
            (
              next,
              other_part overhead x now (replicate fuel ack) m l e ∙ goes,
              record {
                sent =
                    d.sent
                    ∙ append_assoc l.written _ _
                    ∙ ap (λ ms. l.written ++ map notifications_message ms) (sym both);
                drained = d.drained;
                others = λ k apart.
                    d.others k apart
                    ∙ lookup-drop_by_msg_id x.chan_id k (carried m) l.pending apart;
                same_exchanges = d.same_exchanges;
                same_levels = d.same_levels;
              },
            )
      ]
    ]

prepare_unicast-ok :
    (now level : ℕ) (x : UnicastExchange) (n : Notification) (ns : List Notification) (sto : Store)
    (sess : BrokerSession)
    → get_channel_snapshot now x.chan_id sto ≡ (level, n ∷ ns)
    → prepare_unicast now x sto sess
      ≡ ok (record sess {
        scratch = record sess.scratch {
          notifications_msg = record (notifications_reset sess.scratch.notifications_msg) {
            notifications = of_list (n ∷ ns);
          };
        };
      })
unfolding prepare_unicast
prepare_unicast-ok now level x n ns sto sess h =
    let busy : nat_eq (length (n ∷ ns)) 0 ≡ false = ground arith in rw (h, busy)

-- A unicast exchange that the session's channel gives, for a channel of the pending store that has
-- notifications, no two with one message id and none expired or replaced, each within the limit:
-- where the device acknowledges every message and there are more acknowledgements than
-- notifications, the round ends and the loop goes on; the messages written carry all the
-- notifications in order, each message within the limit; the next snapshot of the channel, at the
-- same time, is empty at the same level; every other channel of the store is as it was, and so are
-- the client's levels; and the exchange is off the session's channel.
pub session_round-unicast :
    (overhead now level fuel : ℕ) (x : UnicastExchange) (later : List (Option Exchange))
    (n : Notification) (ns : List Notification) (l : Loop)
    → l.sess.exchanges ≡ some (unicast x) ∷ later
    → IsPending now level x.chan_id (n ∷ ns) l.pending
    → All (λ n. notification_size overhead n ≤ max_payload_size) (n ∷ ns)
    → length (n ∷ ns) < fuel
    → (next : Loop) × (ms : List NotificationsMsg) × (session_round overhead
          (exchange_comes now (replicate fuel ack))
          l
        ≡ goes_on next)
      × (next.written ≡ l.written ++ map notifications_message ms)
      × (all_parts carried ms ≡ n ∷ ns)
      × All (λ m. total (notification_size overhead) (carried m) ≤ max_payload_size) ms
      × (get_channel_snapshot now x.chan_id next.pending ≡ (level, []))
      × ((k : GoString) → str_eq x.chan_id k ≡ false → lookup k next.pending ≡ lookup k l.pending)
      × (next.sess.levels ≡ l.sess.levels)
      × (next.sess.exchanges ≡ later)
unfolding session_round perform notifications_reset
session_round-unicast overhead now level fuel x later n ns l comes p fit more =
    let msg : NotificationsMsg = record (notifications_reset l.sess.scratch.notifications_msg) {
      notifications = of_list (n ∷ ns);
    } in
    let start : Loop = record l {
      ping_timer = none;
      sess = record l.sess {
        exchanges = later;
        scratch = record l.sess.scratch { notifications_msg = msg };
      };
    } in
    let (ms, sent, holds, fits) = send_all-notifications overhead msg fuel refl fit more in
    let (next, goes, d) =
      send_loop_acked overhead now level x fuel start ms sent
        (subst (λ ns. IsPending now level x.chan_id ns l.pending) (sym holds) p) in
    let prepared =
      prepare_unicast-ok now level x n ns l.pending (record l.sess { exchanges = later })
        (IsPending-snapshot now level x.chan_id (n ∷ ns) l.pending p) in
    let runs : session_round overhead (exchange_comes now (replicate fuel ack)) l ≡ goes_on next =
      rw (session_round, comes, perform, prepared) goes in
    let empty = IsPending-snapshot now level x.chan_id [] next.pending d.drained in
    (next, ms, runs, d.sent, holds, fits, empty, d.others, d.same_levels, d.same_exchanges)
