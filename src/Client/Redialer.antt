-- ===== src/Client/Redialer.antt =====
-- util/redialer.go: the state of an auto redialer and its two channels, which are only ever closed.
-- The methods lock the state, so that calls of Stop and the start and the end of calls of Redial are
-- steps in some order. `none` is a panic: closing a channel that is closed.
mod Attempts
use push_component.Base.{
  ◌≡◌, refl, Bool, true, false, not, List, [], ◌∷◌, Option, none, some, ◌>>=◌, if◌then◌else◌, arith,
}

pub data RedialerState : Type 0 where
  unconfigured redialing stopped : RedialerState

-- `in_redial` is whether a call of Redial is past its first test and has not returned.
pub record Redialer : Type 0 where
  pub state : RedialerState
  pub stopping_closed : Bool
  pub really_stopped_closed : Bool
  pub in_redial : Bool

abbrev pub new_auto_redialer : Redialer
new_auto_redialer = record {
  state = unconfigured;
  stopping_closed = false;
  really_stopped_closed = false;
  in_redial = false;
}

close_stopping : Redialer → Option Redialer
close_stopping ar = if ar.stopping_closed then none else some (record ar { stopping_closed = true })

close_really_stopped : Redialer → Option Redialer
close_really_stopped ar =
    if ar.really_stopped_closed then none else some (record ar { really_stopped_closed = true })

-- setStateStopped
unfoldable pub set_state_stopped : Redialer → Option Redialer
unfolding close_stopping close_really_stopped
set_state_stopped ar = elim ar.state [
  | stopped ↦ some ar
  | unconfigured ↦ do
    closed ← close_really_stopped ar
    close_stopping (record closed { state = stopped })
  | redialing ↦ close_stopping (record ar { state = stopped })
]

-- The beginning of Redial, which returns at once unless the redialer is unconfigured.
unfoldable pub begin_redial : Redialer → Redialer
begin_redial ar = elim ar.state [
  | unconfigured ↦ record ar { state = redialing; in_redial = true }
  | redialing ↦ ar
  | stopped ↦ ar
]

-- The deferred end of a call of Redial.
unfoldable pub end_redial : Redialer → Option Redialer
unfolding close_really_stopped
end_redial ar =
    if ar.in_redial then close_really_stopped (record ar { in_redial = false }) else some ar

pub data RedialerStep : Type 0 where
  stops begins ends : RedialerStep

unfoldable pub redialer_step : RedialerStep → Redialer → Option Redialer
unfolding set_state_stopped begin_redial end_redial
redialer_step stops ar = set_state_stopped ar
redialer_step begins ar = some (begin_redial ar)
redialer_step ends ar = end_redial ar

unfoldable pub redialer_run : List RedialerStep → Redialer → Option Redialer
redialer_run [] ar = some ar
redialer_run (s ∷ steps) ar = redialer_step s ar >>= redialer_run steps

-- Before its first step a redialer has both channels open and no call of Redial. Afterwards the
-- channel that Stop waits for is open just as long as a call of Redial goes on, and the other one is
-- closed just when the redialer is stopped.
abbrev pub IsSettled : Redialer → Type 0
IsSettled ar = elim ar.state [
  | unconfigured ↦
      (ar.stopping_closed ≡ false) × (ar.really_stopped_closed ≡ false) × (ar.in_redial ≡ false)
  | redialing ↦ (ar.stopping_closed ≡ false) × (ar.in_redial ≡ not ar.really_stopped_closed)
  | stopped ↦ (ar.stopping_closed ≡ true) × (ar.in_redial ≡ not ar.really_stopped_closed)
]

abbrev at_state : RedialerState → Bool → Bool → Bool → Redialer
at_state state stopping really inside = record {
  state = state;
  stopping_closed = stopping;
  really_stopped_closed = really;
  in_redial = inside;
}

step_settles :
    (s : RedialerStep) (state : RedialerState) (a b c : Bool)
    → IsSettled (at_state state a b c)
    → (next : Redialer) × (redialer_step s (at_state state a b c) ≡ some next) × IsSettled next
unfolding redialer_step set_state_stopped begin_redial end_redial
step_settles stops unconfigured a b c h =
    (at_state stopped true true c, ground (arith, h), ground (arith, h))
step_settles stops redialing a b c h =
    (at_state stopped true b c, ground (arith, h), ground (arith, h))
step_settles stops stopped a b c h = (at_state stopped a b c, refl, h)
step_settles begins unconfigured a b c h = (at_state redialing a b true, refl, ground (arith, h))
step_settles begins redialing a b c h = (at_state redialing a b c, refl, h)
step_settles begins stopped a b c h = (at_state stopped a b c, refl, h)
step_settles ends unconfigured a b c h = (at_state unconfigured a b c, ground (arith, h), h)
step_settles ends redialing a b c h =
    (at_state redialing a true false, ground (arith, h), ground (arith, h))
step_settles ends stopped a b c h =
    (at_state stopped a true false, ground (arith, h), ground (arith, h))

run_settles :
    (steps : List RedialerStep) (ar : Redialer)
    → IsSettled ar
    → (last : Redialer) × (redialer_run steps ar ≡ some last) × IsSettled last
unfolding redialer_run
run_settles [] ar h = (ar, refl, h)
run_settles (s ∷ steps) ar h =
    let (next, e, k) =
      step_settles s ar.state ar.stopping_closed ar.really_stopped_closed ar.in_redial h in
    let (last, run, settled) = run_settles steps next k in
    (last, rw (redialer_run, e, ◌>>=◌, run), settled)

-- Any calls of Stop and any calls of Redial on a new redialer, in any order of their steps, close no
-- channel twice. After them, a redialer that is still unconfigured has both channels open and no
-- call of Redial in it; otherwise the channel that Stop waits for is closed just when no call of
-- Redial goes on, and the other channel is closed just when the redialer is stopped.
pub redialer_run-IsSettled :
    (steps : List RedialerStep)
    → (last : Redialer) × (redialer_run steps new_auto_redialer ≡ some last) × IsSettled last
redialer_run-IsSettled steps = run_settles steps new_auto_redialer (refl, refl, refl)
