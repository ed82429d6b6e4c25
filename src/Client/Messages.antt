-- ===== src/Client/Messages.antt =====
-- client/session/session.go: the handling of the server's messages. What json.Unmarshal and the
-- checker of addressees answer are parameters, and so is whether the write of an answer succeeds.
use push_component.Base.{
  ℕ, Bool, true, false, not, List, [], ◌∷◌, ◌++◌, Option, none, some, GoString, lit, str_eq,
  if◌then◌else◌,
}
use push_component.Protocol.Messages.{Notification}
use push_component.Client.Session.{ClientSession, error, running, reset_hosts}
use push_component.Client.SeenState.{SeenState}

-- serverMsg, after a message is read into it.
pub record ServerMsg : Type 0 where
  pub msg_type : GoString
  pub chan_id : GoString
  pub top_level : ℕ  -- int64
  pub payloads : List GoString
  pub notifications : List Notification
  pub reason : GoString
  pub set_cookie : GoString

pub record BroadcastNotification (V : Type 0) : Type 0 where
  pub top_level : ℕ  -- int64
  pub decoded : List V

pub record AddressedNotification (App : Type 0) : Type 0 where
  pub to : App
  pub notification : Notification

-- The session with its seen state, the types of the messages it has written, and what it has sent
-- over its two channels, each in order.
pub record Receiver (S V App : Type 0) : Type 0 where
  pub session : ClientSession
  pub seen : S
  pub written : List GoString
  pub broadcast_ch : List (BroadcastNotification V)
  pub notifications_ch : List (AddressedNotification App)

module _ {S V App : Type 0} (seen_state : SeenState S) (unmarshal : GoString → Option V)
    (check_for_addressee : Notification → Option App) where
  abbrev set_error : Receiver S V App → Receiver S V App
  set_error r = record r { session = record r.session { state = error } }

  abbrev clear_should_delay : Receiver S V App → Receiver S V App
  clear_should_delay r = record r { session = record r.session { should_delay = false } }

  abbrev write : GoString → Receiver S V App → Receiver S V App
  write answer r = record r { written = r.written ++ answer ∷ [] }

  -- handlePing. The Boolean of a handler is whether it returns no error.
  unfoldable pub handle_ping : Bool → Receiver S V App → Receiver S V App × Bool
  handle_ping writes r =
      if writes
      then (clear_should_delay (write (lit "pong") r), true)
      else (set_error (write (lit "pong") r), false)

  unfoldable pub decode_broadcast : List GoString → List V
  decode_broadcast [] = []
  decode_broadcast (p ∷ ps) =
      let rest = decode_broadcast ps in elim (unmarshal p) [ none ↦ rest | some v ↦ v ∷ rest ]

  unfoldable pub handle_broadcast : ServerMsg → Bool → Receiver S V App → Receiver S V App × Bool
  unfolding decode_broadcast
  handle_broadcast bcast writes r =
      let (seen, recorded) = seen_state.set_level bcast.chan_id bcast.top_level r.seen in
      let after : Receiver S V App = record r { seen = seen } in
      if not recorded
      then (write (lit "nak") (set_error after), false)
      else if not writes
      then (set_error (write (lit "ack") after), false)
      else let acked = clear_should_delay (write (lit "ack") after) in
        let shown : BroadcastNotification V = record {
          top_level = bcast.top_level;
          decoded = decode_broadcast bcast.payloads;
        } in
        if str_eq bcast.chan_id (lit "0")
        then (record acked { broadcast_ch = acked.broadcast_ch ++ shown ∷ [] }, true)
        else (acked, true)

  -- The loop of handleNotifications over what was not seen before.
  unfoldable pub addressed : List Notification → List (AddressedNotification App)
  addressed [] = []
  addressed (n ∷ ns) =
      let rest = addressed ns in
      elim (check_for_addressee n) [
        | none ↦ rest
        | some app ↦ record { to = app; notification = n } ∷ rest
      ]

  unfoldable pub handle_notifications :
      ServerMsg → Bool → Receiver S V App → Receiver S V App × Bool
  unfolding addressed
  handle_notifications ucast writes r =
      let (seen, filtered) = seen_state.filter_by_seen ucast.notifications r.seen in
      let after : Receiver S V App = record r { seen = seen } in
      elim filtered [
        | none ↦ (write (lit "nak") (set_error after), false)
        | some notifs ↦
            if not writes
            then (set_error (write (lit "ack") after), false)
            else let acked = clear_should_delay (write (lit "ack") after) in
              (record acked { notifications_ch = acked.notifications_ch ++ addressed notifs }, true)
      ]

  unfoldable pub handle_conn_broken : ServerMsg → Receiver S V App → Receiver S V App × Bool
  unfolding reset_hosts
  handle_conn_broken conn_broken r =
      let broken = set_error r in
      if str_eq conn_broken.reason (lit "host-mismatch")
      then (record broken { session = reset_hosts broken.session }, false)
      else (broken, false)

  unfoldable pub handle_set_params : ServerMsg → Receiver S V App → Receiver S V App × Bool
  handle_set_params set_params r =
      if str_eq set_params.set_cookie []
      then (r, true)
      else (record r { session = record r.session { cookie = set_params.set_cookie } }, true)

  -- The switch of `loop`; a message of another type is ignored, a warning only logged.
  unfoldable pub dispatch : ServerMsg → Bool → Receiver S V App → Receiver S V App × Bool
  dispatch recv writes r =
      if str_eq recv.msg_type (lit "ping")
      then handle_ping writes r
      else if str_eq recv.msg_type (lit "broadcast")
      then handle_broadcast recv writes r
      else if str_eq recv.msg_type (lit "notifications")
      then handle_notifications recv writes r
      else if str_eq recv.msg_type (lit "connbroken")
      then handle_conn_broken recv r
      else if str_eq recv.msg_type (lit "setparams")
      then handle_set_params recv r
      else (r, true)

  -- The rounds of `loop`: a message that is read, with whether the write of its answer succeeds, or
  -- a read that fails. The Boolean is whether the loop still runs after the rounds.
  unfoldable pub rounds :
      List (Option ServerMsg × Bool) → Receiver S V App → Receiver S V App × Bool
  rounds [] r = (r, true)
  rounds ((none, writes) ∷ incoming) r = (set_error r, false)
  rounds ((some recv, writes) ∷ incoming) r =
      let (next, goes_on) = dispatch recv writes r in
      let rest = rounds incoming next in if goes_on then rest else (next, false)

  unfoldable pub loop : List (Option ServerMsg × Bool) → Receiver S V App → Receiver S V App × Bool
  loop incoming r = rounds incoming (record r { session = record r.session { state = running } })
