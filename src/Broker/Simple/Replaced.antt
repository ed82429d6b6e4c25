-- ===== src/Broker/Simple/Replaced.antt =====
-- A device that connects again: its old session unregisters late.
use push_component.Base.{
  ℕ, ◌≡◌, ◌≢◌, refl, sym, ap, subst, ◌∙◌, true, false, List, Option, none, some, GoString, nat_Eq,
  string_Eq, str_eq, str_eq_iff, if◌then◌else◌, lookup, delete, lookup-delete, arith,
}
use push_component.Broker.Session.{BrokerSession, feed}
use push_component.Broker.Simple.{
  Broker, session_in, mark_registered, step, session_event, unregister, register,
}
use push_component.Broker.Simple.Casts.{is_at, step-register}

by_mark_old :
    (p : ℕ) (sess : BrokerSession) (b : Broker)
    → sess.registered ≡ true
    → (if sess.registered then unregister p sess b else register p sess b) ≡ unregister p sess b
by_mark_old p sess b old = ap (λ t. if t then unregister p sess b else register p sess b) old

-- Only the current session of a device takes the device out of the registry.
step-unregister :
    (unmarshal : GoString → Option (List GoString)) (now : ℕ) (b : Broker) (p : ℕ)
    (sess : BrokerSession)
    → lookup p b.sessions ≡ some sess
    → sess.registered ≡ true
    → step unmarshal now b (session_in p)
      ≡ some (
          if is_at (lookup sess.device_id b.registry) p
          then record b { registry = delete sess.device_id b.registry }
          else b)
unfolding step session_event unregister
step-unregister unmarshal now b p sess found old =
    ap (λ o. some (session_event p o b)) found ∙ ap some (by_mark_old p sess b old) ∙ ground arith

-- A registered session is not one that is not.
other_session :
    (b : Broker) (p q : ℕ) (old new : BrokerSession)
    → lookup p b.sessions ≡ some old
    → old.registered ≡ true
    → lookup q b.sessions ≡ some new
    → new.registered ≡ false
    → q ≢ p
other_session b p q old new found was other fresh e =
    let again : lookup p b.sessions ≡ some new = rw e at other in
    let two : some old ≡ some new = sym found ∙ again in
    let is : old ≡ new = cc in
    let both : true ≡ false = sym was ∙ ap (λ s. s.registered) is ∙ fresh in cc

not_at :
    (d : GoString) (q p : ℕ) (b : Broker)
    → lookup d b.registry ≡ some q
    → q ≢ p
    → (if is_at (lookup d b.registry) p then record b { registry = delete d b.registry } else b) ≡ b
not_at d q p b h apart = rw h (ground (arith, apart))

is_now :
    (d : GoString) (q : ℕ) (b : Broker)
    → lookup d b.registry ≡ some q
    → (if is_at (lookup d b.registry) q then record b { registry = delete d b.registry } else b)
      ≡ record b { registry = delete d b.registry }
is_now d q b h = ground (arith, h)

-- A device has a current session `p`, and another session `q` of the device registers: `p` is sent
-- the nil that ends it, and nothing else. When `p` then unregisters, at any time, the broker
-- stays as it is, with `q` as the device's current session. When `q` unregisters after that, the
-- device is gone from the registry, every other device has the session it had at first, and no
-- session and nothing in the store is changed by that.
pub replaced_session_unregisters :
    (unmarshal : GoString → Option (List GoString)) (now later last : ℕ) (b : Broker) (p q : ℕ)
    (old new : BrokerSession)
    → lookup p b.sessions ≡ some old
    → old.registered ≡ true
    → lookup q b.sessions ≡ some new
    → new.registered ≡ false
    → new.device_id ≡ old.device_id
    → lookup old.device_id b.registry ≡ some p
    → (b' : Broker) × (b'' : Broker) × (step unmarshal now b (session_in q) ≡ some b')
      × (lookup p b'.sessions ≡ some (feed none old))
      × (lookup old.device_id b'.registry ≡ some q)
      × (step unmarshal later b' (session_in p) ≡ some b')
      × (step unmarshal last b' (session_in q) ≡ some b'')
      × (b''.sessions ≡ b'.sessions)
      × (b''.store ≡ b'.store)
      × ((d : GoString)
          → lookup d b''.registry ≡ (if str_eq old.device_id d then none else lookup d b.registry))
replaced_session_unregisters unmarshal now later last b p q old new found was other fresh same
      current =
    let apart : q ≢ p = other_session b p q old new found was other fresh in
    let held : lookup new.device_id b.registry ≡ some p = rw same current in
    let (b', steps, registry, marked, others) =
      step-register unmarshal now b q new other fresh
        (λ e. let two : some p ≡ some q = sym held ∙ e in apart (cc)) in
    let kicked : lookup p b'.sessions ≡ some (feed none old) =
      ground (arith, others p (λ e. apart (sym e)), held, found) in
    let now_q : lookup old.device_id b'.registry ≡ some q =
      ground (arith, registry old.device_id, same, str_eq_iff old.device_id old.device_id) in
    let gone : Broker = record b' { registry = delete old.device_id b'.registry } in
    (
      b',
      gone,
      steps,
      kicked,
      now_q,
      step-unregister unmarshal later b' p (feed none old) kicked was
          ∙ ap some (not_at old.device_id q p b' now_q apart),
      step-unregister unmarshal last b' q (mark_registered new) marked refl
          ∙ ap some (
              subst
                (λ d.
                  (if is_at (lookup d b'.registry) q
                    then record b' { registry = delete d b'.registry }
                    else b')
                  ≡ gone)
                (sym same) (is_now old.device_id q b' now_q)),
      refl,
      refl,
      λ d. rw (lookup-delete old.device_id d b'.registry) (ground (arith, registry d, same)),
    )
