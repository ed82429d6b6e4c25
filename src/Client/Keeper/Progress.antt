-- ===== src/Client/Keeper/Progress.antt =====
-- That the keeper goes on trying, and where it does not.
use push_component.Base.{
  ℕ, ◌-◌, ◌≡◌, refl, subst, inl, inr, Bool, true, false, not, ◌&&◌, ◌||◌, List, [], ◌∷◌, Option,
  none, some, ◌>>=◌, nat_eq, if◌then◌else◌, All, GoString, arith, Bool-cases, Option-cases,
}
use push_component.Client.Session.{ClientSession, redial_delay, get_hosts, connect}
use push_component.Client.Keeper.{
  Keeper, KeeperEvent, has_connectivity, resets_cookie, receives_error, stops, dials, loop_does,
  loop_ends, stop_is_called, loop_effect, is_error, auto_redial, do_close, handle_conn, handle_err,
  stop_keep_connection, dial, looping, connecting, start, StartAnswers, DialAnswers, keeper_step,
  keeper_run,
}

-- While the device is connected and the keeper has not been stopped: the redialer is at work, or a
-- loop runs, or an error waits that will start the redialer again.
abbrev pub keeps_trying : Keeper → Bool
keeps_trying k =
    not k.session.last_conn
    || (k.stop_closed
        || (k.is_redialing
            || (not (nat_eq k.loops 0) || (is_error k.session.state && not (nat_eq k.errors 0)))))

-- A panic ends the program.
abbrev pub still_trying : Option Keeper → Bool
still_trying none = true
still_trying (some k) = keeps_trying k

redialing_tries : (k : Keeper) → k.is_redialing ≡ true → keeps_trying k ≡ true
redialing_tries k h = ground (arith, h)

bind_tries :
    {A : Type 0} (o : Option A) (f : A → Keeper)
    → ((a : A) → (f a).is_redialing ≡ true)
    → still_trying (o >>= λ a. some (f a)) ≡ true
bind_tries none f h = refl
bind_tries (some a) f h = redialing_tries (f a) (h a)

auto_redial_tries :
    (jittered : ℕ → ℕ) (now : ℕ) (k : Keeper) → still_trying (auto_redial jittered now k) ≡ true
unfolding auto_redial
auto_redial_tries jittered now k = bind_tries (redial_delay jittered _) _ (λ p. refl)

-- A call of Dial that succeeds leaves a goroutine in `loop`.
looping_loops :
    (p : Keeper × Bool) → (not (looping p).1 || not (nat_eq (looping p).0.loops 0)) ≡ true
unfolding looping
looping_loops (k, true) = ground arith
looping_loops (k, false) = refl

connecting_loops :
    (answers : StartAnswers) (k : Keeper) (result : ClientSession × List GoString × Bool)
    → (not (connecting answers k result).1 || not (nat_eq (connecting answers k result).0.loops 0))
      ≡ true
unfolding connecting
connecting_loops answers k (session, tried, true) =
    looping_loops (start answers (record k { session = session }))
connecting_loops answers k (session, tried, false) = refl

connected_loops :
    {p q : Keeper × Bool}
    → some p ≡ some q
    → (not p.1 || not (nat_eq p.0.loops 0)) ≡ true
    → (not q.1 || not (nat_eq q.0.loops 0)) ≡ true
connected_loops {p} {q} e h =
    let same : p ≡ q = cc in subst (λ r. (not r.1 || not (nat_eq r.0.loops 0)) ≡ true) same h

-- The session with its hosts, and whether it has them.
abbrev hosted : DialAnswers → Keeper → ClientSession × Bool
hosted env k = get_hosts env.now env.fetched (do_close false k).session

dial_loops :
    (env : DialAnswers) (k : Keeper) (result : Keeper × Bool)
    → dial env k ≡ some result
    → (not result.1 || not (nat_eq result.0.loops 0)) ≡ true
unfolding dial
dial_loops env k result h = elim (Bool-cases (hosted env k).1) [
  | inl found ↦ elim (Option-cases (connect env.answers env.now (hosted env k).0)) [
    | inl e ↦ absurd (cc (rw (dial, found, e, ◌>>=◌) at h))
    | inr (c, e) ↦
        let ready : Keeper = record (do_close false k) { session = (hosted env k).0 } in
        connected_loops (rw (dial, found, e, ◌>>=◌) at h) (connecting_loops env.starting ready c)
  ]
  | inr e ↦ connected_loops (rw (dial, e) at h) refl
]

-- Every step but the reset of the cookie.
abbrev pub is_reset : KeeperEvent → Bool
is_reset (has_connectivity b now) = false
is_reset resets_cookie = true
is_reset (receives_error now) = false
is_reset stops = false
is_reset (dials env) = false
is_reset (loop_does effect) = false
is_reset loop_ends = false
is_reset stop_is_called = false

handle_conn_tries :
    (jittered : ℕ → ℕ) (now : ℕ) (b : Bool) (k : Keeper)
    → still_trying (handle_conn jittered now b k) ≡ true
unfolding handle_conn do_close
handle_conn_tries jittered now true k =
    auto_redial_tries jittered now (record k { session = record k.session { last_conn = true } })
handle_conn_tries jittered now false k = refl

handle_err_tries :
    (jittered : ℕ → ℕ) (now : ℕ) (k : Keeper)
    → nat_eq k.errors 0 ≡ false
    → keeps_trying k ≡ true
    → still_trying (handle_err jittered now (record k { errors = k.errors - 1 })) ≡ true
unfolding handle_err
handle_err_tries jittered now k more h =
    elim (Bool-cases (is_error k.session.state && k.session.last_conn)) [
      | inl e ↦
          rw (handle_err, e) (auto_redial_tries jittered now (record k { errors = k.errors - 1 }))
      | inr e ↦ rw (handle_err, e) (ground (arith, h, e))
    ]

if_tries :
    (c : Bool) (a b : Option Keeper)
    → (c ≡ true → still_trying a ≡ true)
    → (c ≡ false → still_trying b ≡ true)
    → still_trying (if c then a else b) ≡ true
if_tries true a b h k = h refl
if_tries false a b h k = k refl

attempt_tries :
    (is_redialing : Bool) (k : Keeper) (o : Option (Keeper × Bool))
    → still_trying (some k) ≡ true
    → ((r : Keeper × Bool) → o ≡ some r → (not r.1 || not (nat_eq r.0.loops 0)) ≡ true)
    → still_trying (elim is_redialing [
      | false ↦ some k
      | true ↦ do (next, up) ← o; some (record next { is_redialing = not up })
    ])
      ≡ true
attempt_tries false k o h loops = h
attempt_tries true k none h loops = refl
attempt_tries true k (some (next, up)) h loops = ground (arith, loops (next, up) refl)

keeper_step_tries :
    (jittered : ℕ → ℕ) (event : KeeperEvent) (k : Keeper)
    → is_reset event ≡ false
    → keeps_trying k ≡ true
    → still_trying (keeper_step jittered event k) ≡ true
unfolding keeper_step stop_keep_connection loop_effect
keeper_step_tries jittered (has_connectivity b now) k kept h =
    if_tries k.has_returned _ _ (λ e. h) (λ e. handle_conn_tries jittered now b k)
keeper_step_tries jittered resets_cookie k kept h = cc
keeper_step_tries jittered (receives_error now) k kept h =
    if_tries (k.has_returned || nat_eq k.errors 0) _ _ (λ e. h)
      (λ e. handle_err_tries jittered now k (ground (arith, e)) h)
keeper_step_tries jittered stops k kept h =
    if_tries (k.has_returned || not k.stop_closed) _ _ (λ e. h) (λ e. ground (arith, e))
keeper_step_tries jittered (dials env) k kept h =
    attempt_tries k.is_redialing k (dial env k) h (dial_loops env k)
keeper_step_tries jittered (loop_does effect) k kept h =
    if_tries (nat_eq k.loops 0) _ _ (λ e. h) (λ e. ground (arith, e))
keeper_step_tries jittered loop_ends k kept h =
    if_tries (nat_eq k.loops 0) _ _ (λ e. h) (λ e. ground (arith, e))
keeper_step_tries jittered stop_is_called k kept h =
    if_tries k.stop_closed _ _ (λ e. refl) (λ e. ground arith)

-- While the device is connected, its session keeps trying: whatever connectivity changes, calls of
-- Dial, ends of loops, errors and stops follow one another, but with no reset of the cookie among
-- them, then unless a call panics the keeper always is stopped or told that there is no connection,
-- or the redialer is at work, or a loop runs, or the session's state is Error and an error waits that
-- will start the redialer.
pub keeper_run_tries :
    (jittered : ℕ → ℕ) (events : List KeeperEvent) (k last : Keeper)
    → All (λ e. is_reset e ≡ false) events
    → keeps_trying k ≡ true
    → keeper_run jittered events k ≡ some last
    → keeps_trying last ≡ true
unfolding keeper_run
keeper_run_tries jittered [] k last kept h e = let same : k ≡ last = cc in rw (← same) h
keeper_run_tries jittered (event ∷ events) k last kept h e =
    elim (Option-cases (keeper_step jittered event k)) [
      | inl f ↦ absurd (cc (rw (keeper_run, f, ◌>>=◌) at e))
      | inr (next, f) ↦
          keeper_run_tries jittered events next last kept.1
            (rw f at (keeper_step_tries jittered event k kept.0 h)) (rw (keeper_run, f, ◌>>=◌) at e)
    ]
