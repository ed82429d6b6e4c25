-- ===== src/Broker/Session.antt =====
-- server/broker/broker.go and the session of server/broker/simple/simple.go: what a connected
-- device's session keeps in the broker, and the exchanges that it is fed.
use push_component.Base.{
  ℕ, Bool, List, [], ◌∷◌, ◌++◌, Option, none, some, GoString, lit, string_Eq, Map, lookup,
}
use push_component.Base.Results.{Result, ok, err}
use push_component.Protocol.Messages.{Notification, BroadcastMsg, NotificationsMsg, OnewayMsg}
use push_component.Store.ChannelId.{unicast_internal_channel_id}

-- BroadcastExchange; of each decoded payload its keys, none for one that is no JSON object.
pub record BroadcastExchange : Type 0 where
  pub chan_id : GoString
  pub top_level : ℕ  -- int64
  pub notifications : List Notification
  pub decoded : List (List GoString)

-- UnicastExchange
pub record UnicastExchange : Type 0 where
  pub chan_id : GoString
  pub cached_ok : Bool

pub data Exchange : Type 0 where
  broadcast : BroadcastExchange → Exchange
  unicast : UnicastExchange → Exchange
  conn_meta : OnewayMsg → Exchange

-- ExchangesScratchArea; of the ACK message its type.
pub record ScratchArea : Type 0 where
  pub broadcast_msg : BroadcastMsg
  pub notifications_msg : NotificationsMsg
  pub ack_type : GoString

-- simpleBrokerSession. `exchanges` is what was sent on its channel, oldest first; nil ends the
-- session. A full channel makes the sender wait and loses nothing.
pub record BrokerSession : Type 0 where
  pub registered : Bool
  pub device_id : GoString
  pub model : GoString
  pub image_channel : GoString
  pub exchanges : List (Option Exchange)
  pub levels : Map GoString ℕ
  pub scratch : ScratchArea

-- Feed, and the sends of the broker's loop.
abbrev pub feed : Option Exchange → BrokerSession → BrokerSession
feed exchg sess = record sess { exchanges = sess.exchanges ++ exchg ∷ [] }

-- simpleBrokerSession.InternalChannelId
unfoldable pub session_channel_id : BrokerSession → GoString
session_channel_id sess = unicast_internal_channel_id sess.device_id sess.device_id

-- Why an exchange is not performed: nothing to send, an aborted session, or a run-time panic.
pub data ExchangeError : Type 0 where
  nop : ExchangeError
  abort : GoString → ExchangeError
  panicked : ExchangeError

-- A value of ConnectMsg.Info.
pub data InfoValue : Type 0 where
  text : GoString → InfoValue
  other : InfoValue

abbrev pub unexpected_value : ExchangeError
unexpected_value = abort (lit "unexpected value in message")

-- GetInfoString
unfoldable pub get_info_string :
    Map GoString InfoValue → GoString → GoString → Result ExchangeError GoString
get_info_string info name default_val = elim (lookup name info) [
  | none ↦ ok default_val
  | some v ↦ elim v [ text s ↦ ok s | other ↦ err unexpected_value ]
]
