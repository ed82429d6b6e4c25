-- ===== src/Session/Opening.antt =====
-- server/session/session.go: how a session with a client opens, and how it ends. What the broker's
-- Register answers is a parameter, and so is what the connection answers.
use push_component.Base.{
  ℕ, ◌+◌, ◌≡◌, refl, subst, inl, inr, Bool, not, List, [], ◌∷◌, ◌++◌, Option, none, some, GoString,
  lit, str_eq, nat_eq, if◌then◌else◌, arith,
}
use push_component.Base.Results.{Result, ok, err}
use push_component.Store.InMemory.{Store}
use push_component.Broker.Session.{BrokerSession, abort}
use push_component.Session.{
  SessionError, io_error, exchange_error, Loop, Round, goes_on, waits, is_over, SessionEvent,
  session_run,
}
use push_component.Session.Timer.{IsTimed}
use push_component.Session.Rounds.{Round-cases, Chronological, last_time, session_run-IsTimed}

-- The byte of the wire version that is read, the type of the first message, whether the CONNACK
-- message is written, and the broker's answer.
pub record OpeningAnswers : Type 0 where
  version : Option ℕ
  connect_type : Option GoString
  writes_conn_ack : Bool
  registers : Result SessionError BrokerSession

-- The calls of the tracker, of the broker and of the connection.
pub data SessionAction : Type 0 where
  tracks_start tracks_registered unregisters closes_connection : SessionAction
  tracks_end : SessionError → SessionAction

abbrev protocol_wire_version : ℕ
protocol_wire_version = 0

-- sessionStart
session_start : OpeningAnswers → Result SessionError BrokerSession
session_start answers = elim answers.connect_type [
  | none ↦ err io_error
  | some msg_type ↦
      if not (str_eq msg_type (lit "connect"))
      then err (exchange_error (abort (lit "expected CONNECT message")))
      else if not answers.writes_conn_ack
      then err io_error
      else answers.registers
]

-- The loop that sessionLoop makes, at the time `now`.
abbrev new_loop : ℕ → ℕ → Store → BrokerSession → Loop
new_loop ping_interval now pending sess = record {
  sess = sess;
  pending = pending;
  written = [];
  ping_interval = ping_interval;
  interval_start = now;
  ping_timer = some (now + ping_interval);
}

-- The opening of Session, up to what the broker answers.
opening : OpeningAnswers → Result SessionError BrokerSession
unfolding session_start
opening answers = elim answers.version [
  | none ↦ err io_error
  | some v ↦
      if not (nat_eq v protocol_wire_version)
      then err (exchange_error (abort (lit "unexpected wire format version")))
      else session_start answers
]

-- What a session has done, and how it stands: it is over with an error, it is in its loop, or it
-- waits for an answer there.
pub data Standing : Type 0 where
  over : SessionError → List SessionAction → Standing
  in_loop in_exchange : List SessionAction → Loop → Standing

-- Once the session is in its loop; the deferred calls come last.
after_rounds : List SessionAction → Round → Standing
after_rounds actions (goes_on l) = in_loop actions l
after_rounds actions (waits l) = in_exchange actions l
after_rounds actions (is_over e l) =
    over e (actions ++ tracks_end e ∷ unregisters ∷ closes_connection ∷ [])

-- All the calls of a session that is over: one that the broker has registered is unregistered behind
-- the end of its loop, and the connection is closed last.
abbrev closing : Result SessionError BrokerSession → SessionError → List SessionAction
closing (err _) e = tracks_start ∷ tracks_end e ∷ closes_connection ∷ []
closing (ok sess) e =
    tracks_start ∷ tracks_registered ∷ tracks_end e ∷ unregisters ∷ closes_connection ∷ []

module _ (overhead ping_interval now : ℕ) (pending : Store) (events : List SessionEvent) where
  opened : Result SessionError BrokerSession → Standing
  unfolding after_rounds
  opened (err e) = over e (tracks_start ∷ tracks_end e ∷ closes_connection ∷ [])
  opened (ok sess) =
      after_rounds (tracks_start ∷ tracks_registered ∷ [])
        (session_run overhead events (new_loop ping_interval now pending sess))

  -- Session
  unfoldable pub session : OpeningAnswers → Standing
  unfolding opening opened
  session answers = opened (opening answers)

  opened-over :
      (r : Result SessionError BrokerSession) (e : SessionError) (actions : List SessionAction)
      → opened r ≡ over e actions
      → actions ≡ closing r e
  unfolding opened after_rounds
  opened-over (err e') e actions h = cc
  opened-over (ok sess) e actions h =
      elim (Round-cases (session_run overhead events (new_loop ping_interval now pending sess))) [
        | inl (l, f) ↦ absurd (cc (rw (opened, f) at h))
        | inr (inl (l, f)) ↦ absurd (cc (rw (opened, f) at h))
        | inr (inr (e', l, f)) ↦ let same = rw (opened, f) at h in cc
      ]

  opened-in_loop :
      (r : Result SessionError BrokerSession) (l : Loop) (actions : List SessionAction)
      → Chronological now events
      → opened r ≡ in_loop actions l
      → (actions ≡ tracks_start ∷ tracks_registered ∷ [])
        × IsTimed (last_time now events) ping_interval l
  unfolding opened after_rounds
  opened-in_loop (err e) l actions order h = cc
  opened-in_loop (ok sess) l actions order h =
      elim (Round-cases (session_run overhead events (new_loop ping_interval now pending sess))) [
        | inl (last, f) ↦
            let both : in_loop (tracks_start ∷ tracks_registered ∷ []) last ≡ in_loop actions l =
              rw (opened, f) at h in
            let same : last ≡ l = cc in
            (
              cc,
              subst (λ l. IsTimed (last_time now events) ping_interval l) same
                  (session_run-IsTimed overhead now ping_interval events
                    (new_loop ping_interval now pending sess) last
                    (record { begun = omega arith; fires = refl; same_interval = refl }) order f),
            )
        | inr (inl (between, f)) ↦ absurd (cc (rw (opened, f) at h))
        | inr (inr (e, between, f)) ↦ absurd (cc (rw (opened, f) at h))
      ]

  -- However a session opens and whatever comes then: if it is over, the tracker was told its start
  -- and its end, and the connection was closed last; and it was registered with the broker just when
  -- it was unregistered, behind its end.
  session-over :
      (answers : OpeningAnswers) (e : SessionError) (actions : List SessionAction)
      → session answers ≡ over e actions
      → actions ≡ closing (opening answers) e
  unfolding session
  session-over answers e actions h = opened-over (opening answers) e actions h

  -- A session in its loop is registered and not unregistered, its connection is open, and its timer
  -- fires one ping interval after the interval's start.
  session-in_loop :
      (answers : OpeningAnswers) (l : Loop) (actions : List SessionAction)
      → Chronological now events
      → session answers ≡ in_loop actions l
      → (actions ≡ tracks_start ∷ tracks_registered ∷ [])
        × IsTimed (last_time now events) ping_interval l
  unfolding session
  session-in_loop answers l actions order h = opened-in_loop (opening answers) l actions order h
