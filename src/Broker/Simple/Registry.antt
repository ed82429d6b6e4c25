-- ===== src/Broker/Simple/Registry.antt =====
-- The registry names, for each device, one registered session of that device.
use push_component.Base.{
  ℕ, ◌≡◌, refl, inl, inr, Bool, true, false, ◌&&◌, [], ◌∷◌, Option, none, some, GoString, nat_Eq,
  string_Eq, str_eq, str_eq_iff, nat_eq, if◌then◌else◌, Map, lookup, lookup-insert, lookup-delete,
  arith, Bool-cases, Option-cases,
}
use mathlib.Core.Option
use push_component.Broker.Session.{Exchange, unicast, BrokerSession, feed}
use push_component.Broker.Simple.{
  Broker, modify, mark_registered, unregister, kick, register, feed_registered, feed_device,
}

-- A session with a device id and a mark, whatever it has been sent.
pub record Holds (device : GoString) (p : ℕ) (sessions : Map ℕ BrokerSession) : Type 0 where
  pub sess : BrokerSession
  pub found : lookup p sessions ≡ some sess
  pub marked : sess.registered ≡ true
  pub named : sess.device_id ≡ device

-- Every device of the registry has a session there which is marked and has the device's id.
abbrev pub IsSound : Broker → Type 0
IsSound b = (d : GoString) (p : ℕ) → lookup d b.registry ≡ some p → Holds d p b.sessions

pub lookup-modify :
    (f : BrokerSession → BrokerSession) (p q : ℕ) (sessions : Map ℕ BrokerSession)
    → lookup q (modify f p sessions)
      ≡ (if nat_eq p q then Option.map f (lookup q sessions) else lookup q sessions)
unfolding modify
lookup-modify f p q sessions = elim (Option-cases (lookup p sessions)) [
  | inl e ↦ rw (e, modify) (ground (arith, e))
  | inr (sess, e) ↦ rw (e, modify) (rw (lookup-insert p q (f sess) sessions) (ground (arith, e)))
]

-- A change that keeps device and mark.
abbrev Keeps : (BrokerSession → BrokerSession) → Type 0
Keeps f =
    (sess : BrokerSession)
    → ((f sess).device_id ≡ sess.device_id) × (sess.registered ≡ true → (f sess).registered ≡ true)

modify-Holds :
    (f : BrokerSession → BrokerSession) (d : GoString) (p q : ℕ) (sessions : Map ℕ BrokerSession)
    → Keeps f
    → Holds d q sessions
    → Holds d q (modify f p sessions)
modify-Holds f d p q sessions k h = record {
  sess = if nat_eq p q then f h.sess else h.sess;
  found = rw (lookup-modify f p q sessions, h.found) (ground arith);
  marked = ground (arith, (k h.sess).1 h.marked, h.marked);
  named = ground (arith, (k h.sess).0, h.named);
}

feed-Keeps : (exchg : Option Exchange) → Keeps (feed exchg)
feed-Keeps exchg sess = (refl, λ h. h)

pub feed_registered-Holds :
    (exchg : Option Exchange) (d : GoString) (q : ℕ) (reg : Map GoString ℕ)
    (sessions : Map ℕ BrokerSession)
    → Holds d q sessions
    → Holds d q (feed_registered exchg reg sessions)
unfolding feed_registered
feed_registered-Holds exchg d q [] sessions h = h
feed_registered-Holds exchg d q ((e, p) ∷ reg) sessions h =
    feed_registered-Holds exchg d q reg (modify (feed exchg) p sessions)
      (modify-Holds (feed exchg) d p q sessions (feed-Keeps exchg) h)

kick-Holds :
    (prev : Option ℕ) (d : GoString) (q : ℕ) (sessions : Map ℕ BrokerSession)
    → Holds d q sessions
    → Holds d q (kick prev sessions)
unfolding kick
kick-Holds none d q sessions h = h
kick-Holds (some prev) d q sessions h =
    modify-Holds (feed none) d prev q sessions (feed-Keeps none) h

-- The session that registers, whether or not it is the one that is kicked.
registering-Holds :
    (prev : Option ℕ) (p : ℕ) (sess : BrokerSession) (sessions : Map ℕ BrokerSession)
    → lookup p sessions ≡ some sess
    → Holds sess.device_id p (modify mark_registered p (kick prev sessions))
unfolding kick
registering-Holds none p sess sessions h = record {
  sess = mark_registered sess;
  found = rw (lookup-modify mark_registered p p sessions, h) (ground arith);
  marked = refl;
  named = refl;
}
registering-Holds (some prev) p sess sessions h =
    let kicked = if nat_eq prev p then feed none sess else sess in
    let found : lookup p (modify (feed none) prev sessions) ≡ some kicked =
      rw (lookup-modify (feed none) prev p sessions, h) (ground arith) in
    record {
      sess = mark_registered kicked;
      found =
          rw (lookup-modify mark_registered p p (modify (feed none) prev sessions), found)
            (ground arith);
      marked = refl;
      named = ground arith;
    }

pub register-IsSound :
    (p : ℕ) (sess : BrokerSession) (b : Broker)
    → lookup p b.sessions ≡ some sess
    → IsSound b
    → IsSound (register p sess b)
unfolding register
register-IsSound p sess b found h d q e =
    let prev = lookup sess.device_id b.registry in
    let e' = rw (lookup-insert sess.device_id d p b.registry) at e in
    elim (Bool-cases (str_eq sess.device_id d)) [
      | inl same ↦
          let e'' : some p ≡ some q = rw same at e' in
          let is : p ≡ q = cc in
          let name : sess.device_id ≡ d = (str_eq_iff _ _).0 same in
          rw (← name, ← is) (registering-Holds prev p sess b.sessions found)
      | inr other ↦
          let e'' : lookup d b.registry ≡ some q = rw other at e' in
          modify-Holds mark_registered d p q _ (λ s. (refl, λ _. refl))
            (kick-Holds prev d q b.sessions (h d q e''))
    ]

-- Whether a session is the current one of its device.
abbrev is_current : ℕ → BrokerSession → Broker → Bool
is_current p sess b = elim (lookup sess.device_id b.registry) [ none ↦ false | some q ↦ nat_eq q p ]

unregister-sessions :
    (p : ℕ) (sess : BrokerSession) (b : Broker) → (unregister p sess b).sessions ≡ b.sessions
unfolding unregister
unregister-sessions p sess b = ground arith

unregister-registry :
    (p : ℕ) (sess : BrokerSession) (b : Broker) (d : GoString)
    → lookup d (unregister p sess b).registry
      ≡ (if is_current p sess b && str_eq sess.device_id d then none else lookup d b.registry)
unfolding unregister
unregister-registry p sess b d = ground (arith, lookup-delete sess.device_id d b.registry)

pub unregister-IsSound :
    (p : ℕ) (sess : BrokerSession) (b : Broker) → IsSound b → IsSound (unregister p sess b)
unregister-IsSound p sess b h d q e =
    let e' = rw (unregister-registry p sess b d) at e in
    let kept : lookup d b.registry ≡ some q = ground (arith, e') in
    rw (unregister-sessions p sess b) (h d q kept)

pub feed_device-IsSound :
    (chan_id device : GoString) (b : Broker) → IsSound b → IsSound (feed_device chan_id device b)
unfolding feed_device
feed_device-IsSound chan_id device b h d q e = elim (Option-cases (lookup device b.registry)) [
  | inl missing ↦ rw (feed_device, missing) (h d q e)
  | inr (p, found) ↦
      rw (feed_device, found) (modify-Holds (feed own) d p q b.sessions (feed-Keeps own) (h d q e))
]
  where
    own : Option Exchange
    own = some (unicast (record { chan_id = chan_id; cached_ok = false }))
