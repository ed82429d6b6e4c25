-- ===== src/Protocol/Messages.antt =====
-- protocol/messages.go: the messages with state of their own, and how a message too large for the
-- wire is sent in parts. Lengths and sums of lengths of Go's int stay natural numbers: they count
-- bytes held in memory.
use push_component.Base.{
  ℕ, ◌+◌, ◌*◌, Bool, true, false, List, [], ◌∷◌, Option, none, some, ◌>>=◌, GoString, lit, length,
  ltb, nat_eq, if◌then◌else◌,
}
use push_component.Base.Int64.{add64, sub64, of_int}
use push_component.Base.Slice.{Slice, slice}

-- A single unicast notification.
pub record Notification : Type 0 where
  pub app_id : GoString
  pub msg_id : GoString
  pub payload : GoString

abbrev pub zero_notification : Notification
zero_notification = record { app_id = []; msg_id = []; payload = [] }

abbrev pub max_payload_size : ℕ
max_payload_size = 62 * 1024

pub record BroadcastMsg : Type 0 where
  pub msg_type : GoString
  pub app_id : GoString
  pub chan_id : GoString
  pub top_level : ℕ  -- int64
  pub payloads : Slice GoString
  pub splitting : ℕ

-- The loop over the elements that stops where their sizes first pass the limit: its index there.
unfoldable pub overflow_at {ℓ} : {A : Type ℓ} → (A → ℕ) → ℕ → ℕ → List A → Option ℕ
overflow_at weight size i [] = none
overflow_at weight size i (x ∷ xs) =
    let rest = overflow_at weight (size + weight x) (i + 1) xs in
    if ltb max_payload_size (size + weight x) then some i else rest

-- `m` with the payloads, and the level before them, of the part to send now.
unfoldable pub broadcast_next : BroadcastMsg → Option (BroadcastMsg × ℕ)
broadcast_next m =
    if nat_eq m.splitting 0
    then some (m, sub64 m.top_level (of_int (length m.payloads.elems)))
    else do
      rest ← slice (length m.payloads.elems) m.splitting m.payloads
      some (
        record m { payloads = rest; top_level = add64 m.top_level (of_int (length rest.elems)) },
        m.top_level,
      )

unfoldable pub broadcast_cut : BroadcastMsg → ℕ → Option ℕ → Option (BroadcastMsg × Bool)
broadcast_cut m prev_top none = some (m, true)
broadcast_cut m prev_top (some i) = do
  first ← slice 0 i m.payloads
  some (
    record m {
      top_level = add64 prev_top (of_int i);
      splitting = length m.payloads.elems;
      payloads = first;
    },
    false,
  )

-- BroadcastMsg.Split; `none` where a slice expression panics.
unfoldable pub broadcast_split : BroadcastMsg → Option (BroadcastMsg × Bool)
unfolding broadcast_next broadcast_cut
broadcast_split m = do
  (m', prev_top) ← broadcast_next m
  broadcast_cut m' prev_top (overflow_at (λ p. length p) 0 0 m'.payloads.elems)

-- BroadcastMsg.Reset
unfoldable pub broadcast_reset : BroadcastMsg → BroadcastMsg
broadcast_reset m = record m { msg_type = lit "broadcast"; splitting = 0 }

pub record NotificationsMsg : Type 0 where
  pub msg_type : GoString
  pub notifications : Slice Notification
  pub splitting : ℕ

-- NotificationsMsg.Reset
unfoldable pub notifications_reset : NotificationsMsg → NotificationsMsg
notifications_reset m = record m { msg_type = lit "notifications"; splitting = 0 }

-- The overhead is that of the JSON form of an empty notification, found when the program starts.
module _ (notification_overhead : ℕ) where
  abbrev pub notification_size : Notification → ℕ
  notification_size n = length n.payload + length n.app_id + length n.msg_id + notification_overhead

  unfoldable pub notifications_cut : NotificationsMsg → Option ℕ → Option (NotificationsMsg × Bool)
  notifications_cut m none = some (m, true)
  notifications_cut m (some i) = do
    first ← slice 0 i m.notifications
    some (record m { splitting = length m.notifications.elems; notifications = first }, false)

  unfoldable pub notifications_next : NotificationsMsg → Option NotificationsMsg
  notifications_next m = if nat_eq m.splitting 0 then some m else do
    rest ← slice (length m.notifications.elems) m.splitting m.notifications
    some (record m { notifications = rest })

  -- NotificationsMsg.Split
  unfoldable pub notifications_split : NotificationsMsg → Option (NotificationsMsg × Bool)
  unfolding notifications_next notifications_cut
  notifications_split m = do
    m' ← notifications_next m
    notifications_cut m' (overflow_at notification_size 0 0 m'.notifications.elems)

-- ExtractPayloads; nil and the empty slice are one list.
unfoldable pub extract_payloads : List Notification → List GoString
extract_payloads [] = []
extract_payloads (n ∷ ns) = n.payload ∷ extract_payloads ns

-- The messages that are not followed by a response, and whether the session goes on after them.
pub data OnewayMsg : Type 0 where
  conn_broken : GoString → OnewayMsg
  conn_warn : GoString → OnewayMsg
  set_params : GoString → OnewayMsg

unfoldable pub oneway_continue : OnewayMsg → Bool
oneway_continue (conn_broken reason) = false
oneway_continue (conn_warn reason) = true
oneway_continue (set_params cookie) = true
