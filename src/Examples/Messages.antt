-- ===== src/Examples/Messages.antt =====
-- Messages that are sent in parts, and channel ids, at concrete values.
use push_component.Base.{
  ◌≤◌, ◌≡◌, refl, false, List, [], ◌∷◌, some, GoString, lit, length, replicate, arith, str_eq, All,
}
use push_component.Base.Slice.{of_list}
use push_component.Base.Results.{ok}
use push_component.Protocol.Messages.{
  Notification, BroadcastMsg, NotificationsMsg, broadcast_split, max_payload_size,
}
use push_component.Protocol.Split.{send_all, all_parts, total, Levels}
use push_component.Protocol.Split.Broadcast.{
  parts, advance, last_level, send_all-broadcast, split-oversized,
}
use push_component.Store.ChannelId.{hex_to_internal_channel_id, hex_decode, all_zero}

abbrev large : GoString
large = replicate 40_000 b'x'

abbrev two_large : BroadcastMsg
two_large = record {
  msg_type = lit "broadcast";
  app_id = [];
  chan_id = lit "0";
  top_level = 10;
  payloads = of_list (lit "{}" ∷ lit "[]" ∷ []);
  splitting = 0;
}

send_all-broadcast_example :
    (ms : List BroadcastMsg) × (send_all broadcast_split 3 two_large ≡ some ms)
    × (all_parts parts ms ≡ lit "{}" ∷ lit "[]" ∷ [])
    × All (λ m. total (λ p. length p) (parts m) ≤ max_payload_size) ms
    × Levels parts (λ m. m.top_level) advance 8 ms
    × (last_level 8 ms ≡ 10)
send_all-broadcast_example =
    send_all-broadcast two_large 3 refl (omega arith) (omega arith) (omega arith)

split-oversized_example :
    (m' : BroadcastMsg) × (broadcast_split
        (record two_large { payloads = of_list (replicate 63_489 b'x' ∷ []) })
      ≡ some (m', false))
    × (m'.payloads.elems ≡ [])
    × (broadcast_split m' ≡ some (m', false))
split-oversized_example =
    split-oversized (record two_large { payloads = of_list (replicate 63_489 b'x' ∷ []) })
      (replicate 63_489 b'x') [] refl refl (omega arith)

abbrev greeting : Notification
greeting = record { app_id = lit "com.example"; msg_id = lit "m1"; payload = lit "{}" }

abbrev greetings : NotificationsMsg
greetings = record {
  msg_type = lit "notifications";
  notifications = of_list (greeting ∷ greeting ∷ []);
  splitting = 0;
}

abbrev some_hex : GoString
some_hex = lit "00aF0000000000000000000000000001"

zero_hex : hex_to_internal_channel_id (replicate 32 b'0') ≡ ok (lit "0")
unfolding hex_to_internal_channel_id hex_decode all_zero str_eq
zero_hex = refl
