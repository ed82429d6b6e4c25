-- ===== src/Client/Keeper.antt =====
-- client/session/session.go: how a session starts, and the goroutine that keeps its connection. The
-- redialer's goroutine calls Dial until it succeeds or the redialer is stopped; Stop waits for it, so
-- that a call of Dial is one step between those of the keeper. `none` is a panic.
pub mod Progress
pub mod Stalled
use push_component.Base.{
  ℕ, zero, suc, ◌+◌, ◌-◌, Bool, true, false, not, ◌&&◌, List, [], ◌∷◌, ◌++◌, Option, none, some,
  ◌>>=◌, GoString, lit, str_eq, ltb, nat_eq, ◌||◌, if◌then◌else◌, Map,
}
use push_component.Client.Session.{
  ClientSession, ClientSessionState, error, pristine, disconnected, connected, started_state,
  running, shut_down, unknown, reset_hosts, get_hosts, connect, started, redial_delay,
}

-- The ConnectMsg that `start` writes; the device's id and its info are those of the configuration.
pub record ConnectMsg : Type 0 where
  pub cookie : GoString
  pub levels : Map GoString ℕ

-- What the network and the seen state answer to `start`: of the message that is read its type, and
-- the ping interval that time.ParseDuration gives.
pub record StartAnswers : Type 0 where
  pub sets_deadline : Bool
  pub writes_version : Bool
  pub levels : Option (Map GoString ℕ)
  pub writes_connect : Bool
  pub conn_ack : Option (GoString × Option ℕ)

-- The session, the connect messages it has written, whether the redialer's goroutine is in Redial,
-- the goroutines in `loop`, the errors of such that wait to be received, and the keeper itself.
pub record Keeper : Type 0 where
  pub session : ClientSession
  pub ping_interval : ℕ
  pub sent : List ConnectMsg
  pub is_redialing : Bool
  pub loops : ℕ
  pub errors : ℕ
  pub stop_closed : Bool
  pub has_returned : Bool

abbrev pub set_state : ClientSessionState → Keeper → Keeper
set_state state k = record k { session = record k.session { state = state } }

-- closeConnection
abbrev pub close_connection : Keeper → Keeper
close_connection k = record k { session = record k.session { has_connection = false } }

-- doClose
unfoldable pub do_close : Bool → Keeper → Keeper
do_close reset_cookie k =
    let cookie = if reset_cookie then [] else k.session.cookie in
    set_state disconnected
      (close_connection (record k { session = record k.session { cookie = cookie } }))

abbrev failed : Keeper → Keeper × Bool
failed k = (set_state error k, false)

-- start, behind the reading of the CONNACK message.
unfoldable pub acknowledged : GoString → Option ℕ → Keeper → Keeper × Bool
acknowledged msg_type interval k =
    if not (str_eq msg_type (lit "connack")) then failed k else elim interval [
      | none ↦ failed k
      | some d ↦ (record k { ping_interval = d; session = started k.session }, true)
    ]

-- start; the Boolean is whether it returns no error.
unfoldable pub start : StartAnswers → Keeper → Keeper × Bool
unfolding acknowledged
start answers k =
    if not (answers.sets_deadline && answers.writes_version)
    then failed k
    else elim answers.levels [
      | none ↦ failed k
      | some levels ↦
          let msg : ConnectMsg = record { cookie = k.session.cookie; levels = levels } in
          let asked = record k { sent = k.sent ++ msg ∷ [] } in
          if not answers.writes_connect then failed asked else elim answers.conn_ack [
            | none ↦ failed asked
            | some (msg_type, interval) ↦ acknowledged msg_type interval asked
          ]
    ]

-- What a call of Dial finds: the time, what getHost.Get() answers, which hosts can be dialed, and the
-- answers to `start`.
pub record DialAnswers : Type 0 where
  pub now : ℕ
  pub fetched : Option (Option (List GoString) × GoString)
  pub answers : ℕ → Bool
  pub starting : StartAnswers

-- The end of `run`: a session that has started gets a goroutine in `loop`.
unfoldable pub looping : Keeper × Bool → Keeper × Bool
looping (k, true) = (record k { loops = suc k.loops }, true)
looping (k, false) = (k, false)

unfoldable pub connecting :
    StartAnswers → Keeper → ClientSession × List GoString × Bool → Keeper × Bool
unfolding start looping
connecting answers k (session, tried, true) =
    looping (start answers (record k { session = session }))
connecting answers k (session, tried, false) = (record k { session = session }, false)

-- Dial, which is `run` on the session's own methods.
unfoldable pub dial : DialAnswers → Keeper → Option (Keeper × Bool)
unfolding do_close connecting
dial env k =
    let closed = do_close false k in
    let (session, found) = get_hosts env.now env.fetched closed.session in
    let ready = record closed { session = session } in
    if not found then some (ready, false) else do
      result ← connect env.answers env.now session
      some (connecting env.starting ready result)

-- stopRedial
abbrev pub stop_redial : Keeper → Keeper
stop_redial k = record k {
  is_redialing = false;
  session = record k.session { has_retrier = false };
}

abbrev two_seconds : ℕ
two_seconds = 2_000_000_000

-- autoRedial at the time `now`, with the jitter as a function.
unfoldable pub auto_redial : (ℕ → ℕ) → ℕ → Keeper → Option Keeper
auto_redial jittered now k =
    let stopped = stop_redial k in
    let recent = ltb now (k.session.last_auto_redial + two_seconds) in
    let session : ClientSession = record stopped.session {
      should_delay = if recent then true else stopped.session.should_delay;
    } in
    do
      (delay, waited) ← redial_delay jittered session
      some (record stopped {
        is_redialing = true;
        session = record waited { has_retrier = true; last_auto_redial = now + delay };
      })

-- handleConn
unfoldable pub handle_conn : (ℕ → ℕ) → ℕ → Bool → Keeper → Option Keeper
unfolding auto_redial do_close
handle_conn jittered now has_conn k =
    let noted = record k { session = record k.session { last_conn = has_conn } } in
    if has_conn then auto_redial jittered now noted else some (do_close false (stop_redial noted))

abbrev pub is_error : ClientSessionState → Bool
is_error error = true
is_error pristine = false
is_error disconnected = false
is_error connected = false
is_error started_state = false
is_error running = false
is_error shut_down = false
is_error unknown = false

-- handleErr
unfoldable pub handle_err : (ℕ → ℕ) → ℕ → Keeper → Option Keeper
unfolding auto_redial
handle_err jittered now k =
    if is_error k.session.state && k.session.last_conn then auto_redial jittered now k else some k

-- resetCookie
unfoldable pub reset_cookie : Keeper → Keeper
unfolding do_close
reset_cookie k = do_close true (stop_redial k)

-- shutdown
abbrev pub shutdown : Keeper → Keeper
shutdown k = close_connection (stop_redial k)

-- StopKeepConnection, which panics where it was called before.
unfoldable pub stop_keep_connection : Keeper → Option Keeper
stop_keep_connection k =
    if k.stop_closed then none else some (record (set_state shut_down k) { stop_closed = true })

-- What a goroutine in `loop` does to the session in between: Client/Messages has its handlers.
pub data LoopEffect : Type 0 where
  begins clears_delay resets_hosts : LoopEffect
  sets_cookie : GoString → LoopEffect

-- What the keeper receives on its channels, the calls of Dial, what the goroutines in `loop` do, and
-- a call of StopKeepConnection.
pub data KeeperEvent : Type 0 where
  has_connectivity : Bool → ℕ → KeeperEvent
  resets_cookie : KeeperEvent
  receives_error : ℕ → KeeperEvent
  stops : KeeperEvent
  dials : DialAnswers → KeeperEvent
  loop_does : LoopEffect → KeeperEvent
  loop_ends : KeeperEvent
  stop_is_called : KeeperEvent

unfoldable pub loop_effect : LoopEffect → ClientSession → ClientSession
loop_effect begins sess = record sess { state = running }
loop_effect clears_delay sess = record sess { should_delay = false }
loop_effect resets_hosts sess = reset_hosts sess
loop_effect (sets_cookie cookie) sess = record sess { cookie = cookie }

-- The rounds of doKeepConnection and what goes on beside it. A case whose channel has nothing to
-- receive, or that nobody receives once the keeper has returned, changes nothing.
unfoldable pub keeper_step : (ℕ → ℕ) → KeeperEvent → Keeper → Option Keeper
unfolding handle_conn handle_err reset_cookie stop_keep_connection dial loop_effect
keeper_step jittered (has_connectivity has_conn now) k =
    if k.has_returned then some k else handle_conn jittered now has_conn k
keeper_step jittered resets_cookie k = if k.has_returned then some k else some (reset_cookie k)
keeper_step jittered (receives_error now) k =
    if k.has_returned || nat_eq k.errors 0
    then some k
    else handle_err jittered now (record k { errors = k.errors - 1 })
keeper_step jittered stops k =
    if k.has_returned || not k.stop_closed
    then some k
    else some (record (shutdown k) { has_returned = true })
keeper_step jittered (dials env) k = elim k.is_redialing [
  | false ↦ some k
  | true ↦ do
    (next, is_connected) ← dial env k
    some (record next { is_redialing = not is_connected })
]
keeper_step jittered (loop_does effect) k =
    if nat_eq k.loops 0 then some k else some (record k { session = loop_effect effect k.session })
keeper_step jittered loop_ends k =
    if nat_eq k.loops 0
    then some k
    else some (record (set_state error k) { loops = k.loops - 1; errors = suc k.errors })
keeper_step jittered stop_is_called k = stop_keep_connection k

unfoldable pub keeper_run : (ℕ → ℕ) → List KeeperEvent → Keeper → Option Keeper
keeper_run jittered [] k = some k
keeper_run jittered (event ∷ events) k =
    keeper_step jittered event k >>= λ next. keeper_run jittered events next
