-- ===== src/Session.antt =====
-- server/session/session.go: the loop of a device's session on the server. An answer of the network
-- belongs to each message that is written: that the write or the read fails, or the type of the
-- message that is read. The loop stops for an answer that has not come.
pub mod Delivery
pub mod Notified
pub mod Forwarded
pub mod Announced
pub mod Timer
pub mod Rounds
pub mod Opening
use push_component.Base.{
  ℕ, ◌+◌, ◌-◌, Bool, true, false, not, List, [], ◌∷◌, ◌++◌, Option, none, some, GoString, lit,
  str_eq, leb, if◌then◌else◌,
}
use push_component.Base.Results.{Result, ok, err}
use push_component.Protocol.Messages.{
  BroadcastMsg, NotificationsMsg, OnewayMsg, oneway_continue, broadcast_split, notifications_split,
}
use push_component.Store.InMemory.{Store}
use push_component.Broker.Session.{
  BroadcastExchange, UnicastExchange, Exchange, broadcast, unicast, conn_meta, BrokerSession,
  ExchangeError, nop, abort, panicked,
}
use push_component.Broker.Exchanges.{
  prepare_broadcast, acked_broadcast, prepare_unicast, acked_unicast,
}

-- What the server writes to the device.
pub data ServerMessage : Type 0 where
  broadcast_message : BroadcastMsg → ServerMessage
  notifications_message : NotificationsMsg → ServerMessage
  oneway_message : OnewayMsg → ServerMessage
  ping : ServerMessage

pub data Reply : Type 0 where
  write_fails read_fails : Reply
  reads : GoString → Reply

pub data SessionError : Type 0 where
  io_error : SessionError
  exchange_error : ExchangeError → SessionError

-- The fields of `loop`, with the pending store that the broker's session reads and changes, what was
-- written, in order, and the time at which the ping timer fires, unless it is stopped or has fired.
pub record Loop : Type 0 where
  pub sess : BrokerSession
  pub pending : Store
  pub written : List ServerMessage
  pub ping_interval : ℕ
  pub interval_start : ℕ
  pub ping_timer : Option ℕ

-- How a round of the loop ends: it goes on, it waits for an answer, or the session is over.
pub data Round : Type 0 where
  goes_on : Loop → Round
  waits : Loop → Round
  is_over : SessionError → Loop → Round

abbrev pub write_message : ServerMessage → Loop → Loop
write_message m l = record l { written = l.written ++ m ∷ [] }

-- exchange, for a message that is answered: the type of the answer.
unfoldable pub exchange : Reply → Result SessionError GoString
exchange write_fails = err io_error
exchange read_fails = err io_error
exchange (reads msg_type) = ok msg_type

-- exchange, for a message that is not answered; `none` is errOneway.
unfoldable pub exchange_oneway : OnewayMsg → Reply → Option SessionError
exchange_oneway msg write_fails = some io_error
exchange_oneway msg reply =
    if oneway_continue msg
    then none
    else some (exchange_error (abort (lit "session broken for reason")))

-- pingTimerReset at the time `now`; the Boolean is false where the ping is late already.
unfoldable pub ping_timer_reset : Bool → ℕ → Loop → Loop × Bool
ping_timer_reset total_reset now l =
    let since = now - l.interval_start in
    if total_reset
    then (record l { ping_timer = some (now + l.ping_interval); interval_start = now }, true)
    else if leb l.ping_interval since
    then (l, false)
    else (record l { ping_timer = some (now + (l.ping_interval - since)) }, true)

abbrev pub reset_timer : ℕ → Loop → Loop
reset_timer now l = (ping_timer_reset true now l).0

-- doPing
unfoldable pub do_ping : ℕ → List Reply → Loop → Round
unfolding exchange ping_timer_reset
do_ping now [] l = waits (write_message ping l)
do_ping now (reply ∷ replies) l = elim (exchange reply) [
  | err e ↦ is_over e (write_message ping l)
  | ok msg_type ↦
      if not (str_eq msg_type (lit "pong"))
      then is_over (exchange_error (abort (lit "expected PONG message"))) (write_message ping l)
      else goes_on (reset_timer now (write_message ping l))
]

-- A kind of exchange for the loop that sends: its message in the scratch area, with its Split, and
-- its Acked.
pub record Sending (M : Type 0) : Type 0 where
  pub message_of : Loop → M
  pub with_message : M → Loop → Loop
  pub split : M → Option (M × Bool)
  pub on_wire : M → ServerMessage
  pub acked : Loop → Result ExchangeError Loop

abbrev pub with_ack : GoString → Loop → Loop
with_ack msg_type l = record l {
  sess = record l.sess { scratch = record l.sess.scratch { ack_type = msg_type } };
}

-- A part that is written: the loop with it and, after a last one, with its timer reset.
abbrev pub write_part : {M : Type 0} → Sending M → M → Loop → Loop
write_part s m l = write_message (s.on_wire m) (s.with_message m l)

module _ {M : Type 0} (s : Sending M) (now : ℕ) where
  abbrev pub note_ack : Bool → GoString → Loop → Loop
  note_ack done msg_type l =
      if done then reset_timer now (with_ack msg_type l) else with_ack msg_type l

  -- The inner loop of `run`.
  unfoldable pub send_loop : List Reply → Loop → Round
  unfolding exchange
  send_loop [] l = elim (s.split (s.message_of l)) [
    | none ↦ is_over (exchange_error panicked) l
    | some (m, done) ↦ waits (write_part s m l)
  ]
  send_loop (reply ∷ replies) l = elim (s.split (s.message_of l)) [
    | none ↦ is_over (exchange_error panicked) l
    | some (m, done) ↦ elim (exchange reply) [
      | err e ↦ is_over e (write_part s m l)
      | ok msg_type ↦ elim (s.acked (note_ack done msg_type (write_part s m l))) [
        | err e ↦ is_over (exchange_error e) (note_ack done msg_type (write_part s m l))
        | ok next ↦ elim done [ true ↦ goes_on next | false ↦ send_loop replies next ]
      ]
    ]
  ]

-- BroadcastExchange in the loop.
abbrev pub broadcasting : BroadcastExchange → Sending BroadcastMsg
broadcasting x = record {
  message_of = λ l. l.sess.scratch.broadcast_msg;
  with_message = λ m l. record l {
    sess = record l.sess { scratch = record l.sess.scratch { broadcast_msg = m } };
  };
  split = broadcast_split;
  on_wire = broadcast_message;
  acked = λ l. elim (acked_broadcast x l.sess) [
    | err e ↦ err e
    | ok sess ↦ ok (record l { sess = sess })
  ];
}

-- UnicastExchange in the loop.
abbrev pub notifying : ℕ → UnicastExchange → Sending NotificationsMsg
notifying overhead x = record {
  message_of = λ l. l.sess.scratch.notifications_msg;
  with_message = λ m l. record l {
    sess = record l.sess { scratch = record l.sess.scratch { notifications_msg = m } };
  };
  split = notifications_split overhead;
  on_wire = notifications_message;
  acked = λ l. elim (acked_unicast x l.pending l.sess) [
    | err e ↦ err e
    | ok pending ↦ ok (record l { pending = pending })
  ];
}

-- An exchange that cannot be prepared: where there is nothing to do, the timer goes on as it was, or
-- a ping that is late is done at once.
unfoldable pub not_prepared : ℕ → List Reply → ExchangeError → Loop → Round
unfolding ping_timer_reset do_ping
not_prepared now replies nop l =
    let (resumed, in_time) = ping_timer_reset false now l in
    if in_time then goes_on resumed else do_ping now replies l
not_prepared now replies e l = is_over (exchange_error e) l

-- The case of `run` for an exchange, once the timer is stopped.
unfoldable pub perform : ℕ → ℕ → List Reply → Exchange → Loop → Round
unfolding not_prepared send_loop exchange_oneway
perform overhead now replies (broadcast x) l = elim (prepare_broadcast x l.sess) [
  | err e ↦ not_prepared now replies e l
  | ok sess ↦ send_loop (broadcasting x) now replies (record l { sess = sess })
]
perform overhead now replies (unicast x) l = elim (prepare_unicast now x l.pending l.sess) [
  | err e ↦ not_prepared now replies e l
  | ok sess ↦ send_loop (notifying overhead x) now replies (record l { sess = sess })
]
perform overhead now [] (conn_meta msg) l = waits (write_message (oneway_message msg) l)
perform overhead now (reply ∷ replies) (conn_meta msg) l = elim (exchange_oneway msg reply) [
  | none ↦ goes_on (reset_timer now (write_message (oneway_message msg) l))
  | some e ↦ is_over e (write_message (oneway_message msg) l)
]

-- What the select of `run` receives, with the time, one for the whole round, and the answers of the
-- network.
pub data SessionEvent : Type 0 where
  timer_fires : ℕ → List Reply → SessionEvent
  exchange_comes : ℕ → List Reply → SessionEvent

abbrev pub event_time : SessionEvent → ℕ
event_time (timer_fires now replies) = now
event_time (exchange_comes now replies) = now

-- One round of `run`; the timer and the session's channel block while they have nothing to give.
unfoldable pub session_round : ℕ → SessionEvent → Loop → Round
unfolding do_ping perform
session_round overhead (timer_fires now replies) l =
    do_ping now replies (record l { ping_timer = none })
session_round overhead (exchange_comes now replies) l = elim l.sess.exchanges [
  | [] ↦ goes_on l
  | exchg ∷ later ↦
      let stopped = record l { ping_timer = none; sess = record l.sess { exchanges = later } } in
      elim exchg [
        | none ↦ is_over (exchange_error (abort (lit "terminated"))) stopped
        | some x ↦ perform overhead now replies x stopped
      ]
]

-- `run`, over the events that come: it goes on after the last one, or a round stops it.
unfoldable pub session_run : ℕ → List SessionEvent → Loop → Round
session_run overhead [] l = goes_on l
session_run overhead (event ∷ events) l = elim (session_round overhead event l) [
  | goes_on next ↦ session_run overhead events next
  | waits next ↦ waits next
  | is_over e next ↦ is_over e next
]
