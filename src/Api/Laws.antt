-- ===== src/Api/Laws.antt =====
-- What the checks of server/api/handlers.go let pass, and what the handlers of broadcasts and of
-- tokens do over the in-memory store.
use push_component.Base.{
  ℕ, ◌≤◌, ◌<◌, ◌≡◌, ◌≢◌, ap, false, [], ◌∷◌, ◌++◌, Option, some, none, GoString, lit, nat_Eq, elem,
  length, take, arith, str_eq, str_eq_iff, Bool-cases, length-take, inl, inr,
}
use push_component.Base.Int64.{modulus, is_negative}
use push_component.Base.Results.{ok, err}
use push_component.Store.ChannelId.{
  split_first, unicast_internal_channel_id, system_internal_channel_id,
}
use push_component.Store.ChannelId.Laws.{split_first_lem}
use push_component.Store.InMemory.{Store, append_to_channel}
use push_component.Store.InMemory.Token
use push_component.Store.InMemory.Token.{
  Base64, get_internal_channel_id, get_internal_channel_id_from_token-register,
}
use push_component.Broker.Simple.{broadcast_delivery}
use push_component.Api.Errors.{err_unknown_channel}
use push_component.Api.Requests.{
  Request, Registration, Unicast, Broadcast, check_request_as_post, check_content_length, read_body,
  check_unicast, check_broadcast, check_register,
}
use push_component.Api.PendingStore.{in_memory}
use push_component.Api.Handlers.{
  Context, Server, do_register, do_unicast, do_broadcast, notify_channel,
}

-- A body that is read has the announced length, which is at least 1 and at most the limit, and it
-- is the beginning of what arrives. The limit is a positive int64.
read_body_lem :
    (parse : GoString → Option GoString) (limit : ℕ) (request : Request) (body : GoString)
    → limit < modulus
    → is_negative limit ≡ false
    → read_body parse limit request ≡ some (ok body)
    → (length body ≡ request.content_length)
      × (0 < length body)
      × (length body ≤ limit)
      × (body ≡ take request.content_length request.body)
unfolding read_body check_request_as_post check_content_length
read_body_lem parse limit request body h positive e =
    ground (arith, length-take request.content_length request.body)

apart : (j k : GoString) → j ≢ k → str_eq j k ≡ false
apart j k h = elim (Bool-cases (str_eq j k)) [
  | inl e ↦ absurd (h ((str_eq_iff j k).0 e))
  | inr e ↦ e
]

not_empty : (s : GoString) → s ≢ [] → str_eq s [] ≡ false
not_empty s h = apart s [] h

module _ (base64 : Base64) (ctx : Context) (srv : Server Store) where
  -- A device registers an application and is given a token. A request to notify with that token that
  -- passes the checks goes to the device's own channel and under the application of the token,
  -- whichever application the request itself names. The device id is not empty, the application id neither empty nor with a colon, and
  -- the decoding is the one that undoes the store's encoding.
  pub do_unicast-do_register :
      (reg : Registration) (ucast : Unicast) (expire : ℕ)
      → ctx.decode_base64 ≡ base64.decode
      → reg.device_id ≢ []
      → reg.app_id ≢ []
      → elem b':' reg.app_id ≡ false
      → check_unicast ctx.parse_time ctx.now ucast ≡ ok expire
      → ucast.token ≡ Token.register base64 reg.device_id reg.app_id
      → (do_register (in_memory base64) ctx reg srv ≡ some (srv, ok (some ucast.token)))
        × (do_unicast (in_memory base64) ctx ucast srv
            ≡ notify_channel
                (in_memory base64)
                ctx
                ucast
                expire
                reg.app_id
                (unicast_internal_channel_id reg.device_id reg.device_id)
                srv)
  unfolding do_register do_unicast Token.register check_register
  do_unicast-do_register reg ucast expire same device app plain checked made =
      let text : GoString = reg.app_id ++ (lit "::" ++ reg.device_id) in
      let decoded : ctx.decode_base64 ucast.token ≡ some text =
        rw (same, made) (base64.decode_encode text) in
      let named : split_first b':' text ≡ (reg.app_id, some (b':' ∷ reg.device_id)) =
        split_first_lem b':' reg.app_id (b':' ∷ reg.device_id) plain in
      (
        rw (do_register, not_empty reg.device_id device, not_empty reg.app_id app, made),
        rw
            (
              do_unicast,
              checked,
              decoded,
              named,
              made,
              get_internal_channel_id_from_token-register base64 reg.device_id reg.app_id
                  ucast.user_id ucast.device_id app,
            )
            (ap
              (λ a.
                notify_channel (in_memory base64) ctx ucast expire a
                  (unicast_internal_channel_id reg.device_id reg.device_id) srv)
              (ap (λ (p : GoString × Option GoString). p.0) named)),
      )

  -- A request to broadcast that passes the checks stores its data in the channel "system", and asks
  -- the broker once to deliver that channel; for any other name it is refused as an unknown channel,
  -- and nothing changes.
  pub do_broadcast_lem :
      (bcast : Broadcast) (expire : ℕ)
      → check_broadcast ctx.parse_time ctx.now bcast ≡ ok expire
      → (bcast.channel ≡ lit "system"
          → do_broadcast (in_memory base64) ctx bcast srv
            ≡ some (
              record {
                pending =
                    append_to_channel system_internal_channel_id bcast.raw_data expire srv.pending;
                asked = srv.asked ++ broadcast_delivery system_internal_channel_id ∷ [];
              },
              ok none,
            ))
        × (bcast.channel ≢ lit "system"
            → do_broadcast (in_memory base64) ctx bcast srv ≡ some (srv, err err_unknown_channel))
  unfolding do_broadcast get_internal_channel_id str_eq append_to_channel
  do_broadcast_lem bcast expire checked = (
    λ system. rw (do_broadcast, checked, system),
    λ other. rw (do_broadcast, checked, apart bcast.channel (lit "system") other),
  )
