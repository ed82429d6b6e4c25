-- ===== src/Broker/Levels.antt =====
-- Broadcasts by level: what a client that has seen the channel up to some level is sent.
use push_component.Base.{
  ℕ, ◌+◌, ◌-◌, ◌≤◌, ◌<◌, ◌≡◌, ◌≢◌, refl, ap, inl, inr, true, false, List, [], ◌∷◌, ◌++◌, GoString,
  lit, string_Eq, str_eq, str_eq_iff, length, drop, ltb, nat_eq, if◌then◌else◌, insert,
  lookup-insert, arith, Bool-cases, length-append, drop-append, drop_all, drop-append_left,
}
use push_component.Base.Int64.{sub64, is_negative, le64, modulus, sign_bit}
use push_component.Base.Results.{Result, ok, err}
use push_component.Protocol.Messages.{Notification, extract_payloads}
use push_component.Broker.Session.{BroadcastExchange, BrokerSession, ExchangeError, nop, abort}
use push_component.Broker.Exchanges.{
  filter_by_level, channel_filter, client_level, prepare_broadcast, acked_broadcast,
}

-- How many of the last notifications a client is sent.
abbrev levels_behind : ℕ → ℕ → ℕ
levels_behind client top = let ahead = sub64 top client in if is_negative ahead then 1 else ahead

some_left : (n : Notification) (ns : List Notification) → nat_eq (length (n ∷ ns)) 0 ≡ false
some_left n ns = ground arith

filter_by_level_lem :
    (client top : ℕ) (notifs : List Notification)
    → filter_by_level client top notifs ≡ drop (length notifs - levels_behind client top) notifs
unfolding filter_by_level
filter_by_level_lem client top [] = ap (λ n. drop n []) {x = 0} (omega arith)
filter_by_level_lem client top (n ∷ ns) =
    let d = levels_behind client top in
    let whole = n ∷ ns in
    elim (Bool-cases (ltb d (length whole))) [
      | inl fewer ↦ rw (some_left n ns, fewer)
      | inr all ↦
          let no_drop : length whole - d ≡ 0 = ground arith in rw (some_left n ns, all, no_drop)
    ]

-- The pending notifications of a broadcast channel are those that the client had the chance to see,
-- followed by those stored since: at most one for each level from the client's to the channel's.
-- Then filterByLevel returns all of the latter, and of the former only as many, from the end, as
-- there are fewer of the latter than levels.
pub filter_by_level-append :
    (client_level top_level : ℕ) (seen unseen : List Notification)
    → client_level ≤ top_level
    → top_level < sign_bit
    → length unseen ≤ top_level - client_level
    → filter_by_level client_level top_level (seen ++ unseen)
      ≡ drop (length seen + length unseen - (top_level - client_level)) seen ++ unseen
filter_by_level-append client top seen unseen le bound few =
    let behind : levels_behind client top ≡ top - client = ground arith in
    rw (filter_by_level_lem client top (seen ++ unseen), behind, length-append seen unseen)
      (drop-append_left (length seen + length unseen - (top - client)) seen unseen (omega arith))

-- A client ahead of the channel is sent the last pending notification alone.
filter_by_level-ahead :
    (client_level top_level : ℕ) (older : List Notification) (last : Notification)
    → top_level < client_level
    → client_level < sign_bit
    → filter_by_level client_level top_level (older ++ last ∷ []) ≡ last ∷ []
filter_by_level-ahead client top older last lt bound =
    let behind : levels_behind client top ≡ 1 = ground arith in
    let width : length older + 1 - 1 ≡ length older = omega arith in
    rw
      (
        filter_by_level_lem client top (older ++ last ∷ []),
        behind,
        length-append older (last ∷ []),
        width,
      )
      (drop-append older (last ∷ []))

-- The session after an acknowledgement that is accepted.
abbrev at_level : BroadcastExchange → BrokerSession → BrokerSession
at_level x sess = record sess { levels = insert x.chan_id x.top_level sess.levels }

client_level-at_level :
    (x : BroadcastExchange) (sess : BrokerSession) (chan : GoString)
    → client_level chan (at_level x sess)
      ≡ (if str_eq x.chan_id chan then x.top_level else client_level chan sess)
client_level-at_level x sess chan =
    ground (arith, lookup-insert x.chan_id chan x.top_level sess.levels)

-- A client at the channel's level is sent nothing.
pub up_to_date :
    (x : BroadcastExchange) (sess : BrokerSession)
    → x.top_level < modulus
    → client_level x.chan_id sess ≡ x.top_level
    → prepare_broadcast x sess ≡ err nop
unfolding prepare_broadcast channel_filter extract_payloads
up_to_date x sess bound same =
    let behind : length x.notifications - levels_behind x.top_level x.top_level
        ≡ length x.notifications =
      ground arith in
    let nothing : filter_by_level x.top_level x.top_level x.notifications ≡ [] =
      rw (filter_by_level_lem x.top_level x.top_level x.notifications, behind)
        (drop_all (length x.notifications) x.notifications (omega arith)) in
    let level : le64 x.top_level x.top_level ≡ true = ground arith in rw (same, nothing, level)

-- A broadcast exchange is over for a client that has acknowledged it: the acknowledgement is
-- accepted only if it is of type "ack", it moves the client's level of that channel to the
-- exchange's and no other, and then the exchange has nothing to send.
pub acked_broadcast-prepare :
    (x : BroadcastExchange) (sess sess' : BrokerSession)
    → x.top_level < modulus
    → acked_broadcast x sess ≡ ok sess'
    → (sess.scratch.ack_type ≡ lit "ack")
      × (client_level x.chan_id sess' ≡ x.top_level)
      × ((chan : GoString) → chan ≢ x.chan_id → client_level chan sess' ≡ client_level chan sess)
      × (prepare_broadcast x sess' ≡ err nop)
unfolding acked_broadcast
acked_broadcast-prepare x sess sess' bound h =
    elim (Bool-cases (str_eq sess.scratch.ack_type (lit "ack"))) [
      | inr e ↦
          let refusal : Result ExchangeError BrokerSession =
            err (abort (lit "expected ACK message")) in
          let refused : refusal ≡ ok sess' = rw e at h in cc
      | inl e ↦
          let next : Result ExchangeError BrokerSession = ok (at_level x sess) in
          let accepted : next ≡ ok sess' = rw e at h in
          let is : at_level x sess ≡ sess' = cc in
          let self : str_eq x.chan_id x.chan_id ≡ true = (str_eq_iff _ _).1 refl in
          let level : client_level x.chan_id (at_level x sess) ≡ x.top_level =
            rw (client_level-at_level x sess x.chan_id, self) in
          (
            (str_eq_iff _ _).0 e,
            rw (← is) level,
            λ chan other. rw (← is) (
                rw (client_level-at_level x sess chan) (ground (arith, str_eq_iff x.chan_id chan))),
            rw (← is) (up_to_date x (at_level x sess) bound level),
          )
    ]
