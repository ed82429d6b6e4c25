-- ===== src/Broker/Simple/Run.antt =====
-- The broker under any run of events.
use push_component.Base.{
  ℕ, arith, ◌≡◌, sym, inl, inr, List, [], ◌∷◌, Option, none, some, ◌>>=◌, GoString, nat_Eq,
  string_Eq, if◌then◌else◌, lookup, Bool-cases, Option-cases, subst, keys, IsDistinct,
  keys-insert-IsDistinct, keys-delete-IsDistinct, nat_eq,
}
use push_component.Store.ChannelId.{unicast_user_and_device}
use push_component.Broker.Session.{BrokerSession}
use push_component.Broker.Simple.{
  Broker, Event, session_in, deliver, broadcast_delivery, unicast_delivery, unregister, register,
  feed_device, deliver_broadcast, deliver_unicast, session_event, step,
}
use push_component.Broker.Simple.Registry.{
  IsSound, unregister-IsSound, register-IsSound, feed_registered-Holds, feed_device-IsSound,
}

-- A session that comes in.
received :
    (p : ℕ) (sess : BrokerSession) (b : Broker)
    → lookup p b.sessions ≡ some sess
    → IsSound b
    → IsSound (if sess.registered then unregister p sess b else register p sess b)
received p sess b found h = elim (Bool-cases sess.registered) [
  | inl old ↦
      subst (λ t. IsSound (if t then unregister p sess b else register p sess b)) (sym old)
        (unregister-IsSound p sess b h)
  | inr new ↦
      subst (λ t. IsSound (if t then unregister p sess b else register p sess b)) (sym new)
        (register-IsSound p sess b found h)
]

session_event-IsSound :
    (p : ℕ) (b : Broker) → IsSound b → IsSound (session_event p (lookup p b.sessions) b)
unfolding session_event
session_event-IsSound p b h = elim (Option-cases (lookup p b.sessions)) [
  | inl missing ↦ subst (λ o. IsSound (session_event p o b)) (sym missing) h
  | inr (sess, found) ↦
      subst (λ o. IsSound (session_event p o b)) (sym found) (received p sess b found h)
]

deliver_unicast-IsSound :
    (chan_id : GoString) (b b' : Broker)
    → deliver_unicast chan_id b ≡ some b'
    → IsSound b
    → IsSound b'
unfolding deliver_unicast
deliver_unicast-IsSound chan_id b b' e h = elim (Option-cases (unicast_user_and_device chan_id)) [
  | inl broken ↦
      let no_broker : Option Broker = none in let stop : no_broker ≡ some b' = rw broken at e in cc
  | inr (read, found) ↦
      let next : Option Broker = some (feed_device chan_id read.1 b) in
      let is : next ≡ some b' = rw found at e in
      let same : feed_device chan_id read.1 b ≡ b' = cc in
      rw (← same) (feed_device-IsSound chan_id read.1 b h)
]

unregister-keys :
    (p : ℕ) (sess : BrokerSession) (b : Broker)
    → IsDistinct (keys b.registry)
    → IsDistinct (keys (unregister p sess b).registry)
unfolding unregister
unregister-keys p sess b d = elim (Option-cases (lookup sess.device_id b.registry)) [
  | inl missing ↦ rw (unregister, missing) d
  | inr (q, found) ↦ elim (Bool-cases (nat_eq q p)) [
    | inl current ↦
        rw (unregister, found, current) (keys-delete-IsDistinct sess.device_id b.registry d)
    | inr stale ↦ rw (unregister, found, stale) d
  ]
]

session_event-keys :
    (p : ℕ) (o : Option BrokerSession) (b : Broker)
    → IsDistinct (keys b.registry)
    → IsDistinct (keys (session_event p o b).registry)
unfolding session_event register
session_event-keys p none b d = d
session_event-keys p (some sess) b d = elim (Bool-cases sess.registered) [
  | inl old ↦
      subst (λ t. IsDistinct (keys (if t then unregister p sess b else register p sess b).registry))
        (sym old) (unregister-keys p sess b d)
  | inr new ↦
      subst (λ t. IsDistinct (keys (if t then unregister p sess b else register p sess b).registry))
        (sym new) (keys-insert-IsDistinct sess.device_id p b.registry d)
]

module _ (unmarshal : GoString → Option (List GoString)) where
  -- The loop over events, each at its time; `none` where one panics.
  unfoldable pub run : Broker → List (ℕ × Event) → Option Broker
  run b [] = some b
  run b ((now, e) ∷ es) = step unmarshal now b e >>= λ b'. run b' es

  step-IsSound :
      (now : ℕ) (b : Broker) (e : Event) (b' : Broker)
      → step unmarshal now b e ≡ some b'
      → IsSound b
      → IsSound b'
  unfolding step deliver_broadcast
  step-IsSound now b (session_in p) b' h s =
      let is : session_event p (lookup p b.sessions) b ≡ b' = cc in
      subst (λ x. IsSound x) is (session_event-IsSound p b s)
  step-IsSound now b (deliver (broadcast_delivery chan_id)) b' h s =
      let is : deliver_broadcast unmarshal now chan_id b ≡ b' = cc in
      subst (λ x. IsSound x) is
        (λ d p e. feed_registered-Holds _ d p b.registry b.sessions (s d p e))
  step-IsSound now b (deliver (unicast_delivery chan_id)) b' h s =
      deliver_unicast-IsSound chan_id b b' h s

  step-keys :
      (now : ℕ) (b : Broker) (e : Event) (b' : Broker)
      → step unmarshal now b e ≡ some b'
      → IsDistinct (keys b.registry)
      → IsDistinct (keys b'.registry)
  unfolding step deliver_broadcast deliver_unicast feed_device
  step-keys now b (session_in p) b' h d =
      let is : session_event p (lookup p b.sessions) b ≡ b' = cc in
      subst (λ x. IsDistinct (keys x.registry)) is (session_event-keys p (lookup p b.sessions) b d)
  step-keys now b (deliver (broadcast_delivery chan_id)) b' h d =
      let is : deliver_broadcast unmarshal now chan_id b ≡ b' = cc in
      subst (λ x. IsDistinct (keys x.registry)) is d
  step-keys now b (deliver (unicast_delivery chan_id)) b' h d =
      let same : b'.registry ≡ b.registry = ground arith in
      subst (λ r. IsDistinct (keys r)) (sym same) d

  -- Whatever events the broker's goroutine receives, in whatever order: no device is in the registry
  -- twice, and each has there a session that is marked as registered and has that device's id.
  pub run-IsSound :
      (b b' : Broker) (es : List (ℕ × Event))
      → run b es ≡ some b'
      → IsSound b
      → IsDistinct (keys b.registry)
      → IsSound b' × IsDistinct (keys b'.registry)
  unfolding run
  run-IsSound b b' [] h s d =
      let is : b ≡ b' = cc in subst (λ x. IsSound x × IsDistinct (keys x.registry)) is (s, d)
  run-IsSound b b' ((now, e) ∷ es) h s d = elim (Option-cases (step unmarshal now b e)) [
    | inl stop ↦
        let no_broker : Option Broker = none in let fails : no_broker ≡ some b' = rw stop at h in cc
    | inr (next, ok) ↦
        run-IsSound next b' es (rw ok at h) (step-IsSound now b e next ok s)
          (step-keys now b e next ok d)
  ]
