-- ===== src/Session/Rounds.antt =====
-- server/session/session.go: the rounds of the loop, one after the other.
use push_component.Base.{
  ℕ, ◌≤◌, ◌≡◌, refl, subst, ◌⊎◌, inl, inr, List, [], ◌∷◌, Option, none, some, arith,
}
use push_component.Broker.Session.{Exchange}
use push_component.Session.{
  Loop, Round, goes_on, waits, is_over, SessionEvent, timer_fires, exchange_comes, event_time,
  session_round, session_run,
}
use push_component.Session.Timer.{
  IsTimed, do_ping-goes_on, restarted-IsTimed, IsTimed-goes_on, perform-IsTimed,
}

Channel-cases :
    (exchanges : List (Option Exchange))
    → (exchanges ≡ [])
      ⊎ (((later : List (Option Exchange)) × (exchanges ≡ none ∷ later))
          ⊎ ((x : Exchange) × (later : List (Option Exchange)) × (exchanges ≡ some x ∷ later)))
Channel-cases [] = inl refl
Channel-cases (none ∷ later) = inr (inl (later, refl))
Channel-cases (some x ∷ later) = inr (inr (x, later, refl))

session_round-IsTimed :
    (overhead before interval : ℕ) (event : SessionEvent) (l next : Loop)
    → IsTimed before interval l
    → before ≤ event_time event
    → session_round overhead event l ≡ goes_on next
    → IsTimed (event_time event) interval next
unfolding session_round
session_round-IsTimed overhead before interval (timer_fires now replies) l next timed later h =
    subst (λ i. IsTimed now i next) timed.same_interval
      (restarted-IsTimed now l next
        (do_ping-goes_on now replies (record l { ping_timer = none }) next h))
session_round-IsTimed overhead before interval (exchange_comes now replies) l next timed later h =
    elim (Channel-cases l.sess.exchanges) [
      | inl e ↦ IsTimed-goes_on now interval l next (rw (session_round, e) at h) (record {
        begun = omega (arith, timed.begun, later);
        fires = timed.fires;
        same_interval = timed.same_interval;
      })
      | inr (inl (rest, e)) ↦ absurd (cc (rw (session_round, e) at h))
      | inr (inr (x, rest, e)) ↦
          subst (λ i. IsTimed now i next) timed.same_interval
            (perform-IsTimed overhead now replies x _ next (omega (arith, timed.begun, later))
              (rw (session_round, e) at h))
    ]

pub Round-cases :
    (r : Round)
    → ((l : Loop) × (r ≡ goes_on l))
      ⊎ (((l : Loop) × (r ≡ waits l)) ⊎ ((e : _) × (l : Loop) × (r ≡ is_over e l)))
Round-cases (goes_on l) = inl (l, refl)
Round-cases (waits l) = inr (inl (l, refl))
Round-cases (is_over e l) = inr (inr (e, l, refl))

-- The events come in the order of their times, from the time `now` on.
abbrev pub Chronological : ℕ → List SessionEvent → Type 0
Chronological now [] = Unit
Chronological now (event ∷ events) =
    (now ≤ event_time event) × Chronological (event_time event) events

-- The time of the last event.
abbrev pub last_time : ℕ → List SessionEvent → ℕ
last_time now [] = now
last_time now (event ∷ events) = last_time (event_time event) events

-- While the loop goes on, whatever exchanges come and however the device answers, as long as the
-- clock does not go back: after every round the timer runs, and fires one ping interval after the
-- interval's start, which is not in the future; and the ping interval stays. So a session that is
-- not over always has a next ping.
pub session_run-IsTimed :
    (overhead now interval : ℕ) (events : List SessionEvent) (l next : Loop)
    → IsTimed now interval l
    → Chronological now events
    → session_run overhead events l ≡ goes_on next
    → IsTimed (last_time now events) interval next
unfolding session_run
session_run-IsTimed overhead now interval [] l next timed order h =
    IsTimed-goes_on now interval l next h timed
session_run-IsTimed overhead now interval (event ∷ events) l next timed order h =
    elim (Round-cases (session_round overhead event l)) [
      | inl (between, e) ↦
          session_run-IsTimed overhead (event_time event) interval events between next
            (session_round-IsTimed overhead now interval event l between timed order.0 e) order.1
            (rw (session_run, e) at h)
      | inr (inl (between, e)) ↦ absurd (cc (rw (session_run, e) at h))
      | inr (inr (error, between, e)) ↦ absurd (cc (rw (session_run, e) at h))
    ]
