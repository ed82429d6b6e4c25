-- ===== src/Broker/Simple/Connect.antt =====
-- SimpleBroker.Register: the session that it makes of a CONNECT message.
use push_component.Base.{ℕ, false, List, [], ◌∷◌, GoString, lit, string_Eq, Map, insert}
use push_component.Base.Results.{Result, ok, err, ◌>>=◌}
use push_component.Store.ChannelId.{hex_to_internal_channel_id}
use push_component.Broker.Session.{
  BrokerSession, ScratchArea, InfoValue, ExchangeError, abort, get_info_string,
}

-- The loop of Register over the levels that the client reports.
unfoldable pub read_levels :
    Map GoString ℕ → List (GoString × ℕ) → Result ExchangeError (Map GoString ℕ)
read_levels levels [] = ok levels
read_levels levels ((hex, v) ∷ rest) = elim (hex_to_internal_channel_id hex) [
  | ok id ↦ read_levels (insert id v levels) rest
  | err e ↦ err (abort (lit "expected 128 bits hex repr"))
]

-- The session that Register makes of a CONNECT message, before it reaches the goroutine.
unfoldable pub new_session :
    GoString
    → Map GoString InfoValue
    → List (GoString × ℕ)
    → ScratchArea
    → Result ExchangeError BrokerSession
new_session device_id info levels scratch = do
  model ← get_info_string info (lit "device") (lit "?")
  image_channel ← get_info_string info (lit "channel") (lit "?")
  read ← read_levels [] levels
  ok (record {
    registered = false;
    device_id = device_id;
    model = model;
    image_channel = image_channel;
    exchanges = [];
    levels = read;
    scratch = scratch;
  })
