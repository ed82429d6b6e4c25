-- ===== src/Broker/Simple/Casts.antt =====
-- What the broker's events do to the sessions: a registration kicks, and a delivery reaches the
-- registered sessions that it is for, and no others.
use mathlib.Core.Option
use push_component.Base.{
  ℕ, ◌≡◌, ◌≢◌, refl, sym, ap, ◌∙◌, inl, inr, Bool, false, List, [], ◌∷◌, Option, none, some, ◌>>=◌,
  GoString, nat_Eq, string_Eq, str_eq, str_eq_iff, nat_eq, if◌then◌else◌, Map, lookup,
  lookup-insert, arith, Option-cases, elem, IsDistinct, keys, values, All, All-lookup,
}
use push_component.Store.ChannelId.{unicast_user_and_device}
use push_component.Broker.Session.{Exchange, BrokerSession, feed, broadcast, unicast}
use push_component.Broker.Simple.{
  Broker, session_in, deliver, broadcast_delivery, unicast_delivery, modify, mark_registered,
  unregister, kick, register, feed_registered, feed_device, deliver_broadcast, deliver_unicast,
  session_event, step, broadcast_exchange,
}
use push_component.Broker.Simple.Registry.{lookup-modify, Holds, IsSound}

-- Whether a session is the one at an address.
abbrev pub is_at : Option ℕ → ℕ → Bool
is_at none q = false
is_at (some p) q = nat_eq p q

lookup-kick :
    (prev : Option ℕ) (q : ℕ) (sessions : Map ℕ BrokerSession)
    → lookup q (kick prev sessions)
      ≡ (if is_at prev q then Option.map (feed none) (lookup q sessions) else lookup q sessions)
unfolding kick
lookup-kick none q sessions = refl
lookup-kick (some prev) q sessions = lookup-modify (feed none) prev q sessions

by_mark_new :
    (p : ℕ) (sess : BrokerSession) (b : Broker)
    → sess.registered ≡ false
    → (if sess.registered then unregister p sess b else register p sess b) ≡ register p sess b
by_mark_new p sess b new = ap (λ t. if t then unregister p sess b else register p sess b) new

-- A session that registers becomes the current one of its device, and no other device's changes.
-- Its predecessor, if that is another session, is sent the nil that ends it, and the session
-- itself is marked as registered; all other sessions stay as they are.
pub step-register :
    (unmarshal : GoString → Option (List GoString)) (now : ℕ) (b : Broker) (p : ℕ)
    (sess : BrokerSession)
    → lookup p b.sessions ≡ some sess
    → sess.registered ≡ false
    → lookup sess.device_id b.registry ≢ some p
    → (b' : Broker) × (step unmarshal now b (session_in p) ≡ some b')
      × ((d : GoString)
          → lookup d b'.registry
            ≡ (if str_eq sess.device_id d then some p else lookup d b.registry))
      × (lookup p b'.sessions ≡ some (mark_registered sess))
      × ((q : ℕ)
          → q ≢ p
          → lookup q b'.sessions ≡ (
              if is_at (lookup sess.device_id b.registry) q
              then Option.map (feed none) (lookup q b.sessions)
              else lookup q b.sessions))
unfolding step session_event register
step-register unmarshal now b p sess found new fresh = (
  register p sess b,
  ap (λ o. some (session_event p o b)) found ∙ ap some (by_mark_new p sess b new),
  λ d. lookup-insert sess.device_id d p b.registry,
  rw (lookup-modify mark_registered p p (kick prev b.sessions), lookup-kick prev p b.sessions)
      (ground (arith, found, fresh)),
  λ q other.
      rw (lookup-modify mark_registered p q (kick prev b.sessions), lookup-kick prev q b.sessions)
        (ground (arith, other)),
)
  where
    prev : Option ℕ
    prev = lookup sess.device_id b.registry

lookup-feed_device :
    (chan_id device : GoString) (b : Broker) (q : ℕ)
    → lookup q (feed_device chan_id device b).sessions ≡ (
        if is_at (lookup device b.registry) q
        then Option.map
            (feed (some (unicast (record { chan_id = chan_id; cached_ok = false }))))
            (lookup q b.sessions)
        else lookup q b.sessions)
unfolding feed_device
lookup-feed_device chan_id device b q = elim (Option-cases (lookup device b.registry)) [
  | inl e ↦ rw (feed_device, e)
  | inr (p, e) ↦ rw (feed_device, e) (lookup-modify _ p q b.sessions)
]

-- A unicast delivery for a channel feeds the current session of the channel's device, if there is
-- one, with one exchange for that channel, and changes no other session, and not the store.
pub step-unicast :
    (unmarshal : GoString → Option (List GoString)) (now : ℕ) (b : Broker)
    (chan_id user device : GoString)
    → unicast_user_and_device chan_id ≡ some (user, device)
    → (b' : Broker) × (step unmarshal now b (deliver (unicast_delivery chan_id)) ≡ some b')
      × (b'.registry ≡ b.registry)
      × (b'.store ≡ b.store)
      × ((q : ℕ)
          → lookup q b'.sessions ≡ (
              if is_at (lookup device b.registry) q
              then Option.map
                  (feed (some (unicast (record { chan_id = chan_id; cached_ok = false }))))
                  (lookup q b.sessions)
              else lookup q b.sessions))
unfolding step deliver_unicast feed_device
step-unicast unmarshal now b chan_id user device read = (
  feed_device chan_id device b,
  rw (read, ◌>>=◌),
  refl,
  refl,
  lookup-feed_device chan_id device b,
)

lookup-feed_registered :
    (exchg : Option Exchange) (q : ℕ) (reg : Map GoString ℕ) (sessions : Map ℕ BrokerSession)
    → IsDistinct (values reg)
    → lookup q (feed_registered exchg reg sessions) ≡ (
        if elem q (values reg)
        then Option.map (feed exchg) (lookup q sessions)
        else lookup q sessions)
unfolding feed_registered
lookup-feed_registered exchg q [] sessions d = refl
lookup-feed_registered exchg q ((device, p) ∷ reg) sessions d = ground (
  arith,
  lookup-feed_registered exchg q reg (modify (feed exchg) p sessions) d.1,
  lookup-modify (feed exchg) p q sessions,
  d.0,
)

same_device :
    (sessions : Map ℕ BrokerSession) (d d' : GoString) (p p' : ℕ)
    → Holds d p sessions
    → Holds d' p' sessions
    → p' ≡ p
    → d' ≡ d
same_device sessions d d' p p' h h' e =
    let found' : lookup p sessions ≡ some h'.sess = rw e at h'.found in
    let same : some h.sess ≡ some h'.sess = sym h.found ∙ found' in
    let is : h.sess ≡ h'.sess = cc in sym h'.named ∙ ap (λ s. s.device_id) (sym is) ∙ h.named

-- A session that the registry has under one device is not there under another.
other_values :
    (sessions : Map ℕ BrokerSession) (d : GoString) (p : ℕ) (reg : Map GoString ℕ)
    → Holds d p sessions
    → All (λ e. Holds e.0 e.1 sessions) reg
    → elem d (keys reg) ≡ false
    → elem p (values reg) ≡ false
other_values sessions d p [] h all fresh = refl
other_values sessions d p ((d', p') ∷ reg) h all fresh = ground (
  arith,
  other_values sessions d p reg h all.1,
  same_device sessions d d' p p' h all.0,
  str_eq_iff d' d,
)

values-IsDistinct :
    (sessions : Map ℕ BrokerSession) (reg : Map GoString ℕ)
    → All (λ e. Holds e.0 e.1 sessions) reg
    → IsDistinct (keys reg)
    → IsDistinct (values reg)
values-IsDistinct sessions [] all d = tt
values-IsDistinct sessions ((k, p) ∷ reg) all d =
    (other_values sessions k p reg all.0 all.1 d.0, values-IsDistinct sessions reg all.1 d.1)

-- A broadcast delivery feeds every session in the registry with one exchange, which holds the
-- channel's snapshot, and changes no other session and no registration.
pub step-broadcast :
    (unmarshal : GoString → Option (List GoString)) (now : ℕ) (b : Broker) (chan_id : GoString)
    → IsSound b
    → IsDistinct (keys b.registry)
    → (b' : Broker) × (step unmarshal now b (deliver (broadcast_delivery chan_id)) ≡ some b')
      × (b'.registry ≡ b.registry)
      × ((q : ℕ)
          → lookup q b'.sessions ≡ (
              if elem q (values b.registry)
              then Option.map
                  (feed (some (broadcast (broadcast_exchange unmarshal now chan_id b.store))))
                  (lookup q b.sessions)
              else lookup q b.sessions))
unfolding step deliver_broadcast
step-broadcast unmarshal now b chan_id sound one_each =
    let all = All-lookup (λ e. Holds e.0 e.1 b.sessions) b.registry one_each sound in
    (
      deliver_broadcast unmarshal now chan_id b,
      refl,
      refl,
      λ q.
          lookup-feed_registered _ q b.registry b.sessions
            (values-IsDistinct b.sessions b.registry all one_each),
    )
