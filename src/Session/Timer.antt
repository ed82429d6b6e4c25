-- ===== src/Session/Timer.antt =====
-- server/session/session.go: the timer of the pings, over the rounds of the loop.
use push_component.Base.{
  ℕ, ◌+◌, ◌-◌, ◌≤◌, ◌≡◌, refl, ap, sym, ◌∙◌, subst, inl, inr, Bool, true, false, List, [], ◌∷◌,
  Option, some, str_eq, arith, leb, Bool-cases, Option-cases, GoString, lit,
}
use push_component.Base.Results.{ok, Result-cases}
use push_component.Broker.Session.{
  BroadcastExchange, UnicastExchange, ExchangeError, nop, abort, panicked, Exchange, broadcast,
  unicast, conn_meta,
}
use push_component.Broker.Exchanges.{
  prepare_broadcast, prepare_unicast, acked_broadcast, acked_unicast,
}
use push_component.Session.{
  Reply, Loop, goes_on, exchange, exchange_oneway, ping_timer_reset, do_ping, Sending, note_ack,
  write_part, send_loop, broadcasting, notifying, not_prepared, perform,
}

-- The fields that the timer is about.
abbrev pub timing : Loop → ℕ × ℕ × Option ℕ
timing l = (l.ping_interval, l.interval_start, l.ping_timer)

-- The fields after a total reset.
abbrev pub restarted : ℕ → ℕ × ℕ × Option ℕ → ℕ × ℕ × Option ℕ
restarted now (interval, start, timer) = (interval, now, some (now + interval))

timing-goes_on : (l next : Loop) → goes_on l ≡ goes_on next → timing next ≡ timing l
timing-goes_on l next h = let same : l ≡ next = cc in ap (λ l. timing l) (sym same)

pub do_ping-goes_on :
    (now : ℕ) (replies : List Reply) (l next : Loop)
    → do_ping now replies l ≡ goes_on next
    → timing next ≡ restarted now (timing l)
unfolding do_ping ping_timer_reset
do_ping-goes_on now [] l next h = cc
do_ping-goes_on now (reply ∷ replies) l next h = elim (Result-cases (exchange reply)) [
  | inl (e, f) ↦ absurd (cc (rw (do_ping, f) at h))
  | inr (msg_type, f) ↦ elim (Bool-cases (str_eq msg_type (lit "pong"))) [
    | inl pong ↦ timing-goes_on _ next (rw (do_ping, f, pong) at h)
    | inr other ↦ absurd (cc (rw (do_ping, f, other) at h))
  ]
]

-- A kind of exchange that leaves the timer alone.
record KeepsTimer {M : Type 0} (s : Sending M) : Type 0 where
  with_message : (m : M) (l : Loop) → timing (s.with_message m l) ≡ timing l
  acked : (l next : Loop) → s.acked l ≡ ok next → timing next ≡ timing l

module _ {M : Type 0} (s : Sending M) (now : ℕ) (keeps : KeepsTimer s) (l next : Loop) where
  -- A part that is acknowledged: after the last one the timer has been reset.
  send_loop_ack :
      (replies : List Reply) (done : Bool) (t : GoString) (m : M) (l' : Loop)
      → s.acked (note_ack s now done t (write_part s m l)) ≡ ok l'
      → (send_loop s now replies l' ≡ goes_on next → timing next ≡ restarted now (timing l'))
      → (elim done [ true ↦ goes_on l' | false ↦ send_loop s now replies l' ]) ≡ goes_on next
      → timing next ≡ restarted now (timing l)
  unfolding ping_timer_reset
  send_loop_ack replies true t m l' g rest h =
      timing-goes_on l' next h
      ∙ keeps.acked _ l' g
      ∙ ap (λ t. restarted now t) (keeps.with_message m l)
  send_loop_ack replies false t m l' g rest h =
      rest h ∙ ap (λ t. restarted now t) (keeps.acked _ l' g ∙ keeps.with_message m l)

-- Where the loop that sends comes to its end, the timer has been reset, and counts from then.
send_loop-goes_on :
    {M : Type 0} (s : Sending M) (now : ℕ) (replies : List Reply) (l next : Loop)
    → KeepsTimer s
    → send_loop s now replies l ≡ goes_on next
    → timing next ≡ restarted now (timing l)
unfolding send_loop
send_loop-goes_on s now [] l next keeps h = elim (Option-cases (s.split (s.message_of l))) [
  | inl e ↦ absurd (cc (rw (send_loop, e) at h))
  | inr ((m, done), e) ↦ absurd (cc (rw (send_loop, e) at h))
]
send_loop-goes_on s now (reply ∷ replies) l next keeps h =
    elim (Option-cases (s.split (s.message_of l))) [
      | inl e ↦ absurd (cc (rw (send_loop, e) at h))
      | inr ((m, done), e) ↦ elim (Result-cases (exchange reply)) [
        | inl (x, f) ↦ absurd (cc (rw (send_loop, e, f) at h))
        | inr (t, f) ↦ elim (Result-cases (s.acked (note_ack s now done t (write_part s m l)))) [
          | inl (x, g) ↦ absurd (cc (rw (send_loop, e, f, g) at h))
          | inr (l', g) ↦
              send_loop_ack s now keeps l next replies done t m l' g
                (send_loop-goes_on s now replies l' next keeps) (rw (send_loop, e, f, g) at h)
        ]
      ]
    ]

broadcasting_keeps : (x : BroadcastExchange) → KeepsTimer (broadcasting x)
broadcasting_keeps x = record {
  with_message = λ m l. refl;
  acked = λ l next h. elim (Result-cases (acked_broadcast x l.sess)) [
    | inl (e, f) ↦ absurd (cc (rw (broadcasting, f) at h))
    | inr (sess, f) ↦
        let same : record l { sess = sess } ≡ next = cc (rw (broadcasting, f) at h) in
        ap (λ l. timing l) (sym same)
  ];
}

notifying_keeps : (overhead : ℕ) (x : UnicastExchange) → KeepsTimer (notifying overhead x)
notifying_keeps overhead x = record {
  with_message = λ m l. refl;
  acked = λ l next h. elim (Result-cases (acked_unicast x l.pending l.sess)) [
    | inl (e, f) ↦ absurd (cc (rw (notifying, f) at h))
    | inr (pending, f) ↦
        let same : record l { pending = pending } ≡ next = cc (rw (notifying, f) at h) in
        ap (λ l. timing l) (sym same)
  ];
}

-- The timer fires one interval after the interval's start, which is not later than `now`; the
-- interval is `interval`.
pub record IsTimed (now interval : ℕ) (l : Loop) : Type 0 where
  pub begun : l.interval_start ≤ now
  pub fires : l.ping_timer ≡ some (l.interval_start + l.ping_interval)
  pub same_interval : l.ping_interval ≡ interval

pub restarted-IsTimed :
    (now : ℕ) (l next : Loop)
    → timing next ≡ restarted now (timing l)
    → IsTimed now l.ping_interval next
restarted-IsTimed now l next h =
    let interval : next.ping_interval ≡ l.ping_interval = ap (λ (i, s, t). i) h in
    let start : next.interval_start ≡ now = ap (λ (i, s, t). s) h in
    let timer : next.ping_timer ≡ some (now + l.ping_interval) = ap (λ (i, s, t). t) h in
    record { begun = omega arith; fires = cc; same_interval = interval }

pub IsTimed-goes_on :
    (now interval : ℕ) (l next : Loop)
    → goes_on l ≡ goes_on next
    → IsTimed now interval l
    → IsTimed now interval next
IsTimed-goes_on now interval l next h t =
    let same : l ≡ next = cc in subst (λ l. IsTimed now interval l) same t

-- The timer that an exchange with nothing to do has stopped fires when it would have.
resumed-IsTimed :
    (now : ℕ) (l : Loop)
    → l.interval_start ≤ now
    → leb l.ping_interval (now - l.interval_start) ≡ false
    → IsTimed now l.ping_interval
        (record l { ping_timer = some (now + (l.ping_interval - (now - l.interval_start))) })
resumed-IsTimed now l begun in_time = record {
  begun = begun;
  fires = ap some (ground arith);
  same_interval = refl;
}

not_prepared-IsTimed :
    (now : ℕ) (replies : List Reply) (e : ExchangeError) (l next : Loop)
    → l.interval_start ≤ now
    → not_prepared now replies e l ≡ goes_on next
    → IsTimed now l.ping_interval next
unfolding not_prepared ping_timer_reset
not_prepared-IsTimed now replies nop l next begun h =
    elim (Bool-cases (leb l.ping_interval (now - l.interval_start))) [
      | inl late ↦
          restarted-IsTimed now l next
            (do_ping-goes_on now replies l next (rw (not_prepared, ping_timer_reset, late) at h))
      | inr in_time ↦
          IsTimed-goes_on now l.ping_interval _ next
            (rw (not_prepared, ping_timer_reset, in_time) at h)
            (resumed-IsTimed now l begun in_time)
    ]
not_prepared-IsTimed now replies (abort s) l next begun h = cc
not_prepared-IsTimed now replies panicked l next begun h = cc

pub perform-IsTimed :
    (overhead now : ℕ) (replies : List Reply) (x : Exchange) (l next : Loop)
    → l.interval_start ≤ now
    → perform overhead now replies x l ≡ goes_on next
    → IsTimed now l.ping_interval next
unfolding perform ping_timer_reset
perform-IsTimed overhead now replies (broadcast x) l next begun h =
    elim (Result-cases (prepare_broadcast x l.sess)) [
      | inl (e, f) ↦ not_prepared-IsTimed now replies e l next begun (rw (perform, f) at h)
      | inr (sess, f) ↦ restarted-IsTimed now l next (
          send_loop-goes_on (broadcasting x) now replies (record l { sess = sess }) next
            (broadcasting_keeps x) (rw (perform, f) at h))
    ]
perform-IsTimed overhead now replies (unicast x) l next begun h =
    elim (Result-cases (prepare_unicast now x l.pending l.sess)) [
      | inl (e, f) ↦ not_prepared-IsTimed now replies e l next begun (rw (perform, f) at h)
      | inr (sess, f) ↦ restarted-IsTimed now l next (
          send_loop-goes_on (notifying overhead x) now replies (record l { sess = sess }) next
            (notifying_keeps overhead x) (rw (perform, f) at h))
    ]
perform-IsTimed overhead now [] (conn_meta msg) l next begun h = cc
perform-IsTimed overhead now (reply ∷ replies) (conn_meta msg) l next begun h =
    elim (Option-cases (exchange_oneway msg reply)) [
      | inl f ↦ restarted-IsTimed now l next (timing-goes_on _ next (rw (perform, f) at h))
      | inr (e, f) ↦ absurd (cc (rw (perform, f) at h))
    ]
