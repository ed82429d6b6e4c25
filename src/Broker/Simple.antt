-- ===== src/Broker/Simple.antt =====
-- server/broker/simple/simple.go: the broker's goroutine, which alone touches the registry, one
-- event of its `select` at a time. Sessions are known by their address; the two channels that lead
-- to the goroutine deliver their events in some order, which is the list of events.
pub mod Registry
pub mod Run
pub mod Casts
pub mod Replaced
pub mod Connect
use push_component.Base.{
  ℕ, ◌+◌, Bool, true, false, List, [], ◌∷◌, ◌++◌, Option, none, some, ◌>>=◌, GoString, lit, nat_Eq,
  string_Eq, nat_eq, if◌then◌else◌, get_or, Map, lookup, insert, delete,
}
use push_component.Store.ChannelId.{StoreError, unicast_user_and_device, hex_to_internal_channel_id}
use push_component.Store.InMemory.{Store, get_channel_snapshot}
use push_component.Broker.Session.{
  BroadcastExchange, UnicastExchange, Exchange, broadcast, unicast, BrokerSession, ScratchArea,
  InfoValue, ExchangeError, abort, feed, get_info_string,
}
use push_component.Broker.Exchanges.{init_broadcast}

pub data Delivery : Type 0 where
  broadcast_delivery : GoString → Delivery
  unicast_delivery : GoString → Delivery

-- What the select of `run` receives.
pub data Event : Type 0 where
  session_in : ℕ → Event
  deliver : Delivery → Event

-- SimpleBroker, with the sessions that its clients hold. The counts are what the goroutine adds to
-- the statistics.
pub record Broker : Type 0 where
  pub store : Store
  pub sessions : Map ℕ BrokerSession
  pub registry : Map GoString ℕ
  pub broadcasts : ℕ
  pub unicasts : ℕ

-- A change to the session at an address.
unfoldable pub modify :
    (BrokerSession → BrokerSession) → ℕ → Map ℕ BrokerSession → Map ℕ BrokerSession
modify f p sessions = elim (lookup p sessions) [
  | none ↦ sessions
  | some sess ↦ insert p (f sess) sessions
]

abbrev pub mark_registered : BrokerSession → BrokerSession
mark_registered sess = record sess { registered = true }

-- Unregister only the current session of the device.
pub unregister : ℕ → BrokerSession → Broker → Broker
unregister p sess b = elim (lookup sess.device_id b.registry) [
  | none ↦ b
  | some q ↦ if nat_eq q p then record b { registry = delete sess.device_id b.registry } else b
]

-- Kick the previous session of the device, if there is one.
pub kick : Option ℕ → Map ℕ BrokerSession → Map ℕ BrokerSession
unfolding modify
kick none sessions = sessions
kick (some prev) sessions = modify (feed none) prev sessions

pub register : ℕ → BrokerSession → Broker → Broker
unfolding kick modify
register p sess b = record b {
  sessions = modify mark_registered p (kick (lookup sess.device_id b.registry) b.sessions);
  registry = insert sess.device_id p b.registry;
}

-- The sessions of the registry, one after the other.
pub feed_registered : Option Exchange → Map GoString ℕ → Map ℕ BrokerSession → Map ℕ BrokerSession
unfolding modify
feed_registered exchg [] sessions = sessions
feed_registered exchg ((d, p) ∷ rest) sessions =
    feed_registered exchg rest (modify (feed exchg) p sessions)

module _ (unmarshal : GoString → Option (List GoString)) (now : ℕ) where
  -- The exchange that a broadcast delivery feeds.
  abbrev pub broadcast_exchange : GoString → Store → BroadcastExchange
  broadcast_exchange chan_id sto =
      let (level, notifs) = get_channel_snapshot now chan_id sto in
      init_broadcast unmarshal
        (record { chan_id = chan_id; top_level = level; notifications = notifs; decoded = [] })

  pub deliver_broadcast : GoString → Broker → Broker
  unfolding feed_registered
  deliver_broadcast chan_id b = record b {
    sessions =
        feed_registered (some (broadcast (broadcast_exchange chan_id b.store))) b.registry
          b.sessions;
    broadcasts = b.broadcasts + 1;
  }

-- A unicast delivery to the device of its channel, if that has a session.
pub feed_device : GoString → GoString → Broker → Broker
unfolding modify
feed_device chan_id device b = record b {
  sessions = elim (lookup device b.registry) [
    | none ↦ b.sessions
    | some p ↦
        modify (feed (some (unicast (record { chan_id = chan_id; cached_ok = false })))) p
          b.sessions
  ];
  unicasts = b.unicasts + 1;
}

-- `none` is the panic on a channel id that is no unicast one.
pub deliver_unicast : GoString → Broker → Option Broker
unfolding feed_device
deliver_unicast chan_id b = do
  (user, device) ← unicast_user_and_device chan_id
  some (feed_device chan_id device b)

pub session_event : ℕ → Option BrokerSession → Broker → Broker
unfolding unregister register
session_event p none b = b
session_event p (some sess) b = if sess.registered then unregister p sess b else register p sess b

module _ (unmarshal : GoString → Option (List GoString)) (now : ℕ) where
  -- One round of the loop of `run`, at the time `now`.
  unfoldable pub step : Broker → Event → Option Broker
  unfolding session_event deliver_broadcast deliver_unicast
  step b (session_in p) = some (session_event p (lookup p b.sessions) b)
  step b (deliver (broadcast_delivery chan_id)) = some (deliver_broadcast unmarshal now chan_id b)
  step b (deliver (unicast_delivery chan_id)) = deliver_unicast chan_id b
