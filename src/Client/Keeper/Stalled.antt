-- ===== src/Client/Keeper/Stalled.antt =====
-- A session that nothing but a change of connectivity starts again.
use push_component.Base.{
  ℕ, ◌-◌, ◌≡◌, refl, inl, inr, Bool, true, false, not, ◌&&◌, ◌||◌, List, [], ◌∷◌, Option, none,
  some, ◌>>=◌, nat_eq, if◌then◌else◌, All, arith, Option-cases,
}
use push_component.Client.Keeper.{
  Keeper, KeeperEvent, has_connectivity, resets_cookie, receives_error, stops, dials, loop_does,
  loop_ends, stop_is_called, is_error, do_close, handle_conn, handle_err, reset_cookie,
  stop_keep_connection, dial, keeper_step, keeper_run,
}

-- No redialer at work, no loop, no connection, and no state that an error would start again.
abbrev pub is_stalled : Keeper → Bool
is_stalled k =
    not k.is_redialing
    && (nat_eq k.loops 0 && (not k.session.has_connection && not (is_error k.session.state)))

abbrev still_stalled : Option Keeper → Bool
still_stalled none = true
still_stalled (some k) = is_stalled k

-- Every event but news that there is a connection.
abbrev pub is_connect : KeeperEvent → Bool
is_connect (has_connectivity b now) = b
is_connect resets_cookie = false
is_connect (receives_error now) = false
is_connect stops = false
is_connect (dials env) = false
is_connect (loop_does effect) = false
is_connect loop_ends = false
is_connect stop_is_called = false

if_stalls :
    (c : Bool) (a b : Option Keeper)
    → (c ≡ true → still_stalled a ≡ true)
    → (c ≡ false → still_stalled b ≡ true)
    → still_stalled (if c then a else b) ≡ true
if_stalls true a b h k = h refl
if_stalls false a b h k = k refl

disconnect_stalls :
    (jittered : ℕ → ℕ) (now : ℕ) (b : Bool) (k : Keeper)
    → b ≡ false
    → is_stalled k ≡ true
    → still_stalled (handle_conn jittered now b k) ≡ true
unfolding handle_conn do_close
disconnect_stalls jittered now true k other h = cc
disconnect_stalls jittered now false k other h = ground (arith, h)

handle_err_stalls :
    (jittered : ℕ → ℕ) (now : ℕ) (k : Keeper)
    → is_stalled k ≡ true
    → still_stalled (handle_err jittered now (record k { errors = k.errors - 1 })) ≡ true
unfolding handle_err
handle_err_stalls jittered now k h =
    if_stalls (is_error k.session.state && k.session.last_conn) _ _
      (λ e. absurd (ground (arith, h, e))) (λ e. h)

attempt_stalls :
    (is_redialing : Bool) (k : Keeper) (o : Option (Keeper × Bool))
    → is_redialing ≡ false
    → is_stalled k ≡ true
    → still_stalled (elim is_redialing [
      | false ↦ some k
      | true ↦ do (next, up) ← o; some (record next { is_redialing = not up })
    ])
      ≡ true
attempt_stalls true k o idle h = cc
attempt_stalls false k o idle h = h

keeper_step_stalls :
    (jittered : ℕ → ℕ) (event : KeeperEvent) (k : Keeper)
    → is_connect event ≡ false
    → is_stalled k ≡ true
    → still_stalled (keeper_step jittered event k) ≡ true
unfolding keeper_step stop_keep_connection reset_cookie do_close
keeper_step_stalls jittered (has_connectivity b now) k other h =
    if_stalls k.has_returned _ _ (λ e. h) (λ e. disconnect_stalls jittered now b k other h)
keeper_step_stalls jittered resets_cookie k other h =
    if_stalls k.has_returned _ _ (λ e. h) (λ e. ground (arith, h))
keeper_step_stalls jittered (receives_error now) k other h =
    if_stalls (k.has_returned || nat_eq k.errors 0) _ _ (λ e. h)
      (λ e. handle_err_stalls jittered now k h)
keeper_step_stalls jittered stops k other h =
    if_stalls (k.has_returned || not k.stop_closed) _ _ (λ e. h) (λ e. ground (arith, h))
keeper_step_stalls jittered (dials env) k other h =
    attempt_stalls k.is_redialing k (dial env k) (ground (arith, h)) h
keeper_step_stalls jittered (loop_does effect) k other h =
    if_stalls (nat_eq k.loops 0) _ _ (λ e. h) (λ e. absurd (ground (arith, h, e)))
keeper_step_stalls jittered loop_ends k other h =
    if_stalls (nat_eq k.loops 0) _ _ (λ e. h) (λ e. absurd (ground (arith, h, e)))
keeper_step_stalls jittered stop_is_called k other h =
    if_stalls k.stop_closed _ _ (λ e. refl) (λ e. ground (arith, h))

keeper_run_stalls :
    (jittered : ℕ → ℕ) (events : List KeeperEvent) (k last : Keeper)
    → All (λ e. is_connect e ≡ false) events
    → is_stalled k ≡ true
    → keeper_run jittered events k ≡ some last
    → is_stalled last ≡ true
unfolding keeper_run
keeper_run_stalls jittered [] k last others h e = let same : k ≡ last = cc in rw (← same) h
keeper_run_stalls jittered (event ∷ events) k last others h e =
    elim (Option-cases (keeper_step jittered event k)) [
      | inl f ↦ absurd (cc (rw (keeper_run, f, ◌>>=◌) at e))
      | inr (next, f) ↦
          keeper_run_stalls jittered events next last others.1
            (rw f at (keeper_step_stalls jittered event k others.0 h))
            (rw (keeper_run, f, ◌>>=◌) at e)
    ]

-- A reset of the cookie while no loop runs, such as during the redialer's attempts, ends the attempts
-- for good: the session still knows that the device is connected, if it was, but whatever events
-- follow, as long as none tells that there is a connection, there is no redialer at work, no loop,
-- and no connection, and the session's state is not Error, so that no error starts the redialer.
pub reset_cookie_stalls :
    (jittered : ℕ → ℕ) (events : List KeeperEvent) (k last : Keeper)
    → k.loops ≡ 0
    → All (λ e. is_connect e ≡ false) events
    → keeper_run jittered events (reset_cookie k) ≡ some last
    → ((reset_cookie k).session.last_conn ≡ k.session.last_conn)
      × (last.is_redialing ≡ false)
      × (last.loops ≡ 0)
      × (last.session.has_connection ≡ false)
      × (is_error last.session.state ≡ false)
unfolding reset_cookie do_close
reset_cookie_stalls jittered events k last idle others e =
    let stalled =
      keeper_run_stalls jittered events (reset_cookie k) last others (ground (arith, idle)) e in
    (
      refl,
      ground (arith, stalled),
      ground (arith, stalled),
      ground (arith, stalled),
      ground (arith, stalled),
    )
