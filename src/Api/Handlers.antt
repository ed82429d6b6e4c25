-- ===== src/Api/Handlers.antt =====
-- server/api/handlers.go: the handlers of the requests, over any pending store. A handler answers
-- with the server after it; `none` is a run-time panic. The time.Now() of one request are one time.
use push_component.Base.{
  ℕ, ◌+◌, Bool, true, false, not, ◌&&◌, ◌||◌, List, [], ◌∷◌, ◌++◌, Option, none, some, ◌>>=◌,
  GoString, str_eq, ltb, leb, if◌then◌else◌,
}
use push_component.Base.Results.{Result, ok, err}
use push_component.Protocol.Messages.{Notification, zero_notification}
use push_component.Store.ChannelId.{
  StoreError, unknown_channel, unknown_token, unauthorized, split_first,
}
use push_component.Store.Filter.{Metadata, before}
use push_component.Broker.Simple.{Delivery, broadcast_delivery, unicast_delivery}
use push_component.Api.Errors.{
  ApiError, err_could_not_make_token, err_could_not_remove_token, err_could_not_resolve_token,
  err_could_not_store_notification, err_too_many_pending_notifications, err_unauthorized,
  err_unknown, err_unknown_channel, err_unknown_token,
}
use push_component.Api.Requests.{
  Registration, Unicast, Broadcast, check_broadcast, check_unicast, check_register,
}
use push_component.Api.PendingStore.{PendingStore}

-- What the handlers call of Go's libraries, and what a request is served with: the time, the limit
-- of the storage and the next message id. json.Marshal fails as `none`.
pub record Context : Type 0 where
  pub decode_base64 : GoString → Option GoString
  pub parse_time : GoString → Option ℕ
  pub parse_media_type : GoString → Option GoString
  pub marshal_raw : GoString → Option GoString
  pub marshal_error : ApiError → Option GoString
  pub marshal_token : GoString → Option GoString
  pub now : ℕ
  pub max_notifications : ℕ
  pub generated_msg_id : GoString

-- The pending store, and the deliveries asked of the broker, in order.
pub record Server (S : Type 0) : Type 0 where
  pub pending : S
  pub asked : List Delivery

-- A result map of a handler holds at most a token.
abbrev pub Answer : Type 0 → Type 0
Answer S = Server S × Result ApiError (Option GoString)

abbrev is_empty : GoString → Bool
is_empty s = str_eq s []

-- The counts of doUnicast over what is pending. `last` is a pointer to the loop's variable `notif`.
pub record Peek : Type 0 where
  pub expired : ℕ
  pub replaceable : ℕ
  pub for_app : ℕ
  pub last_is_set : Bool
  pub notif : Notification

abbrev pub no_peek : Peek
no_peek = record {
  expired = 0;
  replaceable = 0;
  for_app = 0;
  last_is_set = false;
  notif = zero_notification;
}

unfoldable pub peek_step : ℕ → GoString → GoString → Notification → Metadata → Peek → Peek
peek_step now app_id replace_tag n m p =
    if before m now
    then record p { expired = p.expired + 1; notif = n }
    else if not (str_eq n.app_id app_id)
    then record p { last_is_set = true; notif = n }
    else if not (is_empty replace_tag) && str_eq replace_tag m.replace_tag
    then record p { replaceable = p.replaceable + 1; notif = n }
    else record p { for_app = p.for_app + 1; last_is_set = true; notif = n }

-- meta[i] is out of range where the metadata are fewer.
unfoldable pub peek :
    ℕ → GoString → GoString → List Notification → List Metadata → Peek → Option Peek
unfolding peek_step
peek now app_id replace_tag [] ms p = some p
peek now app_id replace_tag (n ∷ ns) [] p = none
peek now app_id replace_tag (n ∷ ns) (m ∷ ms) p =
    peek now app_id replace_tag ns ms (peek_step now app_id replace_tag n m p)

unfoldable pub api_error_with_extra :
    (GoString → Option GoString) → ApiError → GoString → Option ApiError
api_error_with_extra marshal e extra = marshal extra >>= λ b. some (record e { extra = b })

refused : Option ApiError → Option (Result ApiError (List GoString))
refused none = none
refused (some e) = some (err e)

-- The criteria of the scrubbing, or the refusal; a nil `last` is a panic.
unfoldable pub scrub_criteria_for :
    Context → Unicast → GoString → Peek → Option (Result ApiError (List GoString))
unfolding api_error_with_extra refused
scrub_criteria_for ctx ucast app_id p =
    if ucast.clear_pending
    then some (ok (app_id ∷ []))
    else if leb ctx.max_notifications p.for_app
    then if not p.last_is_set
      then none
      else refused
          (api_error_with_extra ctx.marshal_raw err_too_many_pending_notifications p.notif.payload)
    else if ltb 0 p.replaceable
    then some (ok (app_id ∷ ucast.replace_tag ∷ []))
    else some (ok [])

is_nil : List GoString → Bool
is_nil [] = true
is_nil (c ∷ cs) = false

token_error : StoreError → ApiError
token_error unknown_token = err_unknown_token
token_error unauthorized = err_unauthorized
token_error e = err_could_not_resolve_token

channel_error : StoreError → ApiError
channel_error unknown_channel = err_unknown_channel
channel_error e = err_unknown

module _ {S : Type 0} (sto : PendingStore S) (ctx : Context) where
  -- The end of doUnicast: the notification is stored, and its delivery asked for by a goroutine.
  store_unicast :
      Unicast → ℕ → GoString → GoString → S × Option StoreError → List Delivery → Answer S
  store_unicast ucast expire app_id chan_id (s, some e) asked =
      (record { pending = s; asked = asked }, err err_could_not_store_notification)
  store_unicast ucast expire app_id chan_id (s, none) asked =
      let meta : Metadata = record {
        expiration = expire;
        replace_tag = ucast.replace_tag;
        obsolete = false;
      } in
      let (s', failure) =
        sto.append_unicast chan_id app_id ucast.raw_data ctx.generated_msg_id meta s in
      elim failure [
        | some e ↦ (record { pending = s'; asked = asked }, err err_could_not_store_notification)
        | none ↦ (record { pending = s'; asked = asked ++ unicast_delivery chan_id ∷ [] }, ok none)
      ]

  -- doUnicast once the channel is known.
  unfoldable pub notify_channel : Unicast → ℕ → GoString → GoString → Server S → Option (Answer S)
  unfolding peek scrub_criteria_for is_nil store_unicast
  notify_channel ucast expire app_id chan_id srv = elim (sto.unfiltered chan_id srv.pending) [
    | err e ↦ some (srv, err err_could_not_store_notification)
    | ok (notifs, meta) ↦ do
      p ← peek ctx.now app_id ucast.replace_tag notifs meta no_peek
      decided ← scrub_criteria_for ctx ucast app_id p
      elim decided [
        | err e ↦ some (srv, err e)
        | ok criteria ↦ do
          scrubbed ←
              if ltb 0 p.expired || not (is_nil criteria)
              then sto.scrub_pending ctx.now chan_id criteria srv.pending
              else some (srv.pending, none)
          some (store_unicast ucast expire app_id chan_id scrubbed srv.asked)
      ]
  ]

  -- The application that the token names: its text before the first colon.
  unfoldable pub do_unicast : Unicast → Server S → Option (Answer S)
  unfolding check_unicast token_error notify_channel
  do_unicast ucast srv = elim (check_unicast ctx.parse_time ctx.now ucast) [
    | err e ↦ some (srv, err e)
    | ok expire ↦ elim (ctx.decode_base64 ucast.token) [
      | none ↦ some (srv, err err_unknown_token)
      | some token ↦
          let app_id = (split_first b':' token).0 in
          elim (sto.channel_of_token ucast.token app_id ucast.user_id ucast.device_id srv.pending) [
            | err e ↦ some (srv, err (token_error e))
            | ok chan_id ↦ notify_channel ucast expire app_id chan_id srv
          ]
    ]
  ]

  unfoldable pub do_broadcast : Broadcast → Server S → Option (Answer S)
  unfolding check_broadcast channel_error
  do_broadcast bcast srv = elim (check_broadcast ctx.parse_time ctx.now bcast) [
    | err e ↦ some (srv, err e)
    | ok expire ↦ elim (sto.channel_of_name bcast.channel srv.pending) [
      | err e ↦ some (srv, err (channel_error e))
      | ok chan_id ↦
          let (s, failure) = sto.append_broadcast chan_id bcast.raw_data expire srv.pending in
          elim failure [
            | some e ↦ some (record srv { pending = s }, err err_could_not_store_notification)
            | none ↦ some (
              record { pending = s; asked = srv.asked ++ broadcast_delivery chan_id ∷ [] },
              ok none,
            )
          ]
    ]
  ]

  unfoldable pub do_register : Registration → Server S → Option (Answer S)
  unfolding check_register
  do_register reg srv = elim (check_register reg) [
    | some e ↦ some (srv, err e)
    | none ↦
        let (s, made) = sto.register reg.device_id reg.app_id srv.pending in
        elim made [
          | err e ↦ some (record srv { pending = s }, err err_could_not_make_token)
          | ok token ↦ some (record srv { pending = s }, ok (some token))
        ]
  ]

  unfoldable pub do_unregister : Registration → Server S → Option (Answer S)
  unfolding check_register
  do_unregister reg srv = elim (check_register reg) [
    | some e ↦ some (srv, err e)
    | none ↦
        let (s, failure) = sto.unregister reg.device_id reg.app_id srv.pending in
        elim failure [
          | some e ↦ some (record srv { pending = s }, err err_could_not_remove_token)
          | none ↦ some (record srv { pending = s }, ok none)
        ]
  ]
