-- ===== src/Examples/Api.antt =====
-- The handlers of requests at concrete values.
use push_component.Base.{
  ℕ, ◌≡◌, refl, inr, false, List, [], ◌∷◌, ◌++◌, none, some, GoString, lit, str_eq, string_Eq,
  lookup, arith,
}
use push_component.Base.Results.{ok, err}
use push_component.Protocol.Messages.{Notification}
use push_component.Store.ChannelId.{unicast_internal_channel_id}
use push_component.Store.InMemory.{Channel, Store, get_channel_snapshot}
use push_component.Store.InMemory.Token.{Base64, register}
use push_component.Store.InMemory.Views.{IsWellFormed}
use push_component.Store.InMemory.Invariant.{IsConsistent, empty-IsConsistent}
use push_component.Broker.Simple.{unicast_delivery}
use push_component.Api.Errors.{ApiError, too_many_pending_label}
use push_component.Api.Requests.{Request, Registration, Unicast, check_unicast, check_cast_common}
use push_component.Api.PendingStore.{in_memory}
use push_component.Api.Handlers.{Context, Server, do_register, do_unicast, notify_channel}
use push_component.Api.Quota.{notify_channel-accepts, notify_channel-refuses}
use push_component.Api.Laws.{do_unicast-do_register}

-- Base64 and the times of requests at their simplest.
abbrev pub plain : Base64
plain = record {
  encode = λ s. s;
  decode = λ s. some s;
  decode_encode = λ s. refl;
  encode_nonempty = λ s h. h;
}

abbrev pub context : ℕ → Context
context limit = record {
  decode_base64 = plain.decode;
  parse_time = λ s. some 90;
  parse_media_type = λ s. some s;
  marshal_raw = λ s. some s;
  marshal_error = λ e. some e.message;
  marshal_token = λ s. some s;
  now = 50;
  max_notifications = limit;
  generated_msg_id = lit "m9";
}

abbrev request_for : GoString → Unicast
request_for token = record {
  token = token;
  user_id = [];
  device_id = [];
  app_id = lit "app";
  expire_on = lit "later";
  raw_data = lit "{}";
  clear_pending = false;
  replace_tag = [];
}

abbrev quiet : Server Store
quiet = record { pending = []; asked = [] }

notify_channel-accepts_example :
    (srv' : Server Store) × (notify_channel
        (in_memory plain)
        (context 2)
        (request_for (lit "t"))
        90
        (lit "app")
        (lit "Ud:d")
        quiet
      ≡ some (srv', ok none))
    × (srv'.asked ≡ unicast_delivery (lit "Ud:d") ∷ [])
    × ((front : List Notification) × (get_channel_snapshot 50 (lit "Ud:d") srv'.pending ≡ (
      0,
      front ++ (record { app_id = lit "app"; msg_id = lit "m9"; payload = lit "{}" }) ∷ [],
    )))
unfolding lookup
notify_channel-accepts_example =
    notify_channel-accepts plain (context 2) (request_for (lit "t")) 90 (lit "app") (lit "Ud:d")
      quiet empty-IsConsistent (inr (omega arith)) (omega arith) (omega arith)

abbrev busy_channel : Channel
busy_channel = record {
  top_level = 0;
  notifications = record { app_id = lit "app"; msg_id = lit "m1"; payload = lit "1" } ∷ [];
  meta = record { expiration = 70; replace_tag = []; obsolete = false } ∷ [];
}

abbrev busy : Server Store
busy = record { pending = (lit "Ud:d", busy_channel) ∷ []; asked = [] }

busy_channel-IsWellFormed : IsWellFormed busy_channel
busy_channel-IsWellFormed = record { paired = refl; unmarked = (refl, tt) }

busy-IsConsistent : IsConsistent busy.pending
unfolding lookup
busy-IsConsistent k ch e = ground (arith, busy_channel-IsWellFormed)

notify_channel-refuses_example :
    (e : ApiError) × (notify_channel
        (in_memory plain)
        (context 1)
        (request_for (lit "t"))
        90
        (lit "app")
        (lit "Ud:d")
        busy
      ≡ some (busy, err e))
    × (e.status_code ≡ 413)
    × (e.error_label ≡ too_many_pending_label)
unfolding lookup str_eq
notify_channel-refuses_example =
    notify_channel-refuses plain (context 1) (request_for (lit "t")) 90 (lit "app") (lit "Ud:d")
      busy busy-IsConsistent (omega arith) (λ s. (s, refl)) refl (omega arith)

abbrev phone : Registration
phone = record { device_id = lit "d"; app_id = lit "app" }

do_unicast-do_register_example :
    (do_register (in_memory plain) (context 2) phone quiet ≡ some (quiet, ok (some (lit "app::d"))))
    × (do_unicast (in_memory plain) (context 2) (request_for (lit "app::d")) quiet
        ≡ notify_channel
            (in_memory plain)
            (context 2)
            (request_for (lit "app::d"))
            90
            (lit "app")
            (unicast_internal_channel_id (lit "d") (lit "d"))
            quiet)
unfolding check_unicast check_cast_common register str_eq
do_unicast-do_register_example =
    do_unicast-do_register plain (context 2) quiet phone (request_for (lit "app::d")) 90 refl
      (λ h. cc) (λ h. cc) refl refl refl

abbrev small_post : Request
small_post = record {
  method = lit "POST";
  content_length = 2;
  content_type = lit "application/json";
  body = lit "{} ";
}
