-- ===== src/Session/Delivery.antt =====
-- server/session/session.go: a broadcast exchange of the broker, from the session's channel to the
-- device and back.
use mathlib.Core.List.{append_assoc}
use push_component.Base.{
  ℕ, zero, suc, ◌+◌, ◌≤◌, ◌<◌, ◌≡◌, refl, ap, ◌∙◌, inl, inr, true, false, List, [], ◌∷◌, ◌++◌, map,
  Option, none, some, GoString, lit, string_Eq, str_eq, str_eq_iff, length, replicate, nat_eq, All,
  lookup, insert, lookup-insert, get_or, arith, Option-cases, ◌>>=◌,
}
use push_component.Base.Int64.{modulus}
use push_component.Base.Slice.{of_list}
use push_component.Base.Results.{ok}
use push_component.Protocol.Messages.{
  BroadcastMsg, broadcast_split, broadcast_reset, max_payload_size,
}
use push_component.Protocol.Split.{send_all, all_parts, total}
use push_component.Protocol.Split.Broadcast.{parts, send_all-broadcast}
use push_component.Store.ChannelId.{internal_channel_id_to_hex}
use push_component.Broker.Session.{BroadcastExchange, Exchange, broadcast, BrokerSession}
use push_component.Broker.Exchanges.{
  client_level, pending_payloads, prepare_broadcast, acked_broadcast,
}
use push_component.Session.{
  broadcast_message, Reply, reads, Loop, goes_on, exchange, ping_timer_reset, send_loop,
  broadcasting, perform, exchange_comes, session_round,
}

abbrev pub ack : Reply
ack = reads (lit "ack")

-- The loop after a part that is acknowledged.
abbrev acknowledged : BroadcastExchange → BroadcastMsg → Loop → Loop
acknowledged x m l = record l {
  written = l.written ++ broadcast_message m ∷ [];
  sess = record l.sess {
    levels = insert x.chan_id x.top_level l.sess.levels;
    scratch = record l.sess.scratch { broadcast_msg = m; ack_type = lit "ack" };
  };
}

module _ (x : BroadcastExchange) (now : ℕ) where
  last_part :
      (replies : List Reply) (m : BroadcastMsg) (l : Loop)
      → broadcast_split l.sess.scratch.broadcast_msg ≡ some (m, true)
      → send_loop (broadcasting x) now (ack ∷ replies) l
        ≡ goes_on (record (acknowledged x m l) {
          ping_timer = some (now + l.ping_interval);
          interval_start = now;
        })
  unfolding send_loop acked_broadcast exchange ping_timer_reset str_eq
  last_part replies m l e = rw (send_loop, e)

  other_part :
      (replies : List Reply) (m : BroadcastMsg) (l : Loop)
      → broadcast_split l.sess.scratch.broadcast_msg ≡ some (m, false)
      → send_loop (broadcasting x) now (ack ∷ replies) l
        ≡ send_loop (broadcasting x) now replies (acknowledged x m l)
  unfolding send_loop acked_broadcast exchange ping_timer_reset str_eq
  other_part replies m l e = rw (send_loop, e)

-- `next` is what a delivery of the messages `ms` to the device makes of the loop `l`.
pub record Delivered (x : BroadcastExchange) (ms : List BroadcastMsg) (l next : Loop) : Type 0 where
  pub sent : next.written ≡ l.written ++ map broadcast_message ms
  pub level_is : client_level x.chan_id next.sess ≡ x.top_level
  pub others :
      (c : GoString) → str_eq c x.chan_id ≡ false → client_level c next.sess ≡ client_level c l.sess
  pub same_exchanges : next.sess.exchanges ≡ l.sess.exchanges
  pub same_pending : next.pending ≡ l.pending

module _ (x : BroadcastExchange) where
  -- The levels after an acknowledgement.
  other_level :
      (c : GoString) (sess : BrokerSession)
      → str_eq c x.chan_id ≡ false
      → get_or (lookup c (insert x.chan_id x.top_level sess.levels)) 0 ≡ client_level c sess
  other_level c sess other =
      let differs : str_eq x.chan_id c ≡ false =
        ground (arith, str_eq_iff x.chan_id c, str_eq_iff c x.chan_id) in
      rw (lookup-insert x.chan_id c x.top_level sess.levels, differs) refl

  own_level :
      (sess : BrokerSession)
      → get_or (lookup x.chan_id (insert x.chan_id x.top_level sess.levels)) 0 ≡ x.top_level
  own_level sess =
      let same : str_eq x.chan_id x.chan_id ≡ true = (str_eq_iff x.chan_id x.chan_id).1 refl in
      rw (lookup-insert x.chan_id x.chan_id x.top_level sess.levels, same) refl

-- The loop that sends, where every part is acknowledged: it writes the parts that `Split` gives, and
-- raises the client's level.
send_loop_acked :
    (x : BroadcastExchange) (now fuel : ℕ) (l : Loop) (ms : List BroadcastMsg)
    → send_all broadcast_split fuel l.sess.scratch.broadcast_msg ≡ some ms
    → (next : Loop) × (send_loop (broadcasting x) now (replicate fuel ack) l ≡ goes_on next)
      × Delivered x ms l next
unfolding send_all
send_loop_acked x now zero l ms h = cc
send_loop_acked x now (suc fuel) l ms h =
    elim (Option-cases (broadcast_split l.sess.scratch.broadcast_msg)) [
      | inl e ↦ absurd (cc (rw (send_all, e) at h))
      | inr ((m, true), e) ↦
          let only : m ∷ [] ≡ ms = cc (rw (send_all, e) at h) in
          (
            _,
            last_part x now (replicate fuel ack) m l e,
            record {
              sent = ap (λ ms. l.written ++ map broadcast_message ms) only;
              level_is = own_level x l.sess;
              others = λ c other. other_level x c l.sess other;
              same_exchanges = refl;
              same_pending = refl;
            },
          )
      | inr ((m, false), e) ↦ elim (Option-cases (send_all broadcast_split fuel m)) [
        | inl ended ↦ absurd (cc (rw (send_all, e, ended, ◌>>=◌) at h))
        | inr (rest, f) ↦
            let (next, goes, d) = send_loop_acked x now fuel (acknowledged x m l) rest f in
            let both : m ∷ rest ≡ ms = cc (rw (send_all, e, f, ◌>>=◌) at h) in
            (
              next,
              other_part x now (replicate fuel ack) m l e ∙ goes,
              record {
                sent =
                    d.sent
                    ∙ append_assoc l.written _ _
                    ∙ ap (λ ms. l.written ++ map broadcast_message ms) both;
                level_is = d.level_is;
                others = λ c other. d.others c other ∙ other_level x c l.sess other;
                same_exchanges = d.same_exchanges;
                same_pending = d.same_pending;
              },
            )
      ]
    ]

-- The scratch message that is prepared.
abbrev prepared_message : BroadcastExchange → GoString → BrokerSession → BroadcastMsg
prepared_message x hex sess = record (broadcast_reset sess.scratch.broadcast_msg) {
  chan_id = hex;
  top_level = x.top_level;
  payloads = of_list (pending_payloads x sess);
}

prepare_broadcast-ok :
    (x : BroadcastExchange) (hex : GoString) (sess : BrokerSession)
    → internal_channel_id_to_hex x.chan_id ≡ some hex
    → 0 < length (pending_payloads x sess)
    → prepare_broadcast x sess
      ≡ ok (record sess {
        scratch = record sess.scratch { broadcast_msg = prepared_message x hex sess };
      })
unfolding prepare_broadcast
prepare_broadcast-ok x hex sess h more =
    let busy : nat_eq (length (pending_payloads x sess)) 0 ≡ false = ground (arith, more) in
    rw (busy, h)

-- A broadcast exchange that the session's channel gives, with payloads for the client, each within
-- the limit, a level within 64 bits and a channel with a hex form, is delivered where the device
-- acknowledges every message and there are more acknowledgements than payloads: the round ends and
-- the loop goes on, the messages written carry the client's payloads in order, each message within
-- the limit, the client's level of the channel is the broadcast's and its other levels stay, the
-- exchange is off the channel, and the pending store is as it was.
pub session_round-broadcast :
    (overhead now fuel : ℕ) (x : BroadcastExchange) (later : List (Option Exchange))
    (hex : GoString)
    → (l : Loop) → l.sess.exchanges ≡ some (broadcast x) ∷ later
    → internal_channel_id_to_hex x.chan_id ≡ some hex
    → x.top_level < modulus
    → 0 < length (pending_payloads x l.sess)
    → All (λ p. length p ≤ max_payload_size) (pending_payloads x l.sess)
    → length (pending_payloads x l.sess) < fuel
    → (next : Loop) × (ms : List BroadcastMsg) × (session_round overhead
          (exchange_comes now (replicate fuel ack))
          l
        ≡ goes_on next)
      × (next.written ≡ l.written ++ map broadcast_message ms)
      × (all_parts parts ms ≡ pending_payloads x l.sess)
      × All (λ m. total (λ p. length p) (parts m) ≤ max_payload_size) ms
      × (client_level x.chan_id next.sess ≡ x.top_level)
      × ((c : GoString)
          → str_eq c x.chan_id ≡ false
          → client_level c next.sess ≡ client_level c l.sess)
      × (next.sess.exchanges ≡ later)
      × (next.pending ≡ l.pending)
unfolding session_round perform broadcast_reset
session_round-broadcast overhead now fuel x later hex l comes h level some_payload fit more =
    let stopped : Loop = record l {
      ping_timer = none;
      sess = record l.sess { exchanges = later };
    } in
    let start : Loop = record stopped {
      sess = record stopped.sess {
        scratch = record l.sess.scratch { broadcast_msg = prepared_message x hex l.sess };
      };
    } in
    let (ms, sent, holds, fits, levels, last) =
      send_all-broadcast (prepared_message x hex l.sess) fuel refl level fit more in
    let (next, goes, d) = send_loop_acked x now fuel start ms sent in
    let runs : session_round overhead (exchange_comes now (replicate fuel ack)) l ≡ goes_on next =
      rw (session_round, comes, perform, prepare_broadcast-ok x hex stopped.sess h some_payload)
        goes in
    (next, ms, runs, d.sent, holds, fits, d.level_is, d.others, d.same_exchanges, d.same_pending)
