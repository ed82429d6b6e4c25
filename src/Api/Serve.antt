-- ===== src/Api/Serve.antt =====
-- server/api/handlers.go: the handlers behind HTTP, from a request to its response.
use push_component.Base.{ℕ, Option, none, some, ◌>>=◌, GoString, lit}
use push_component.Base.Results.{Result, ok, err}
use push_component.Api.Errors.{ApiError, err_unknown, err_malformed_json_object}
use push_component.Api.Requests.{Request, read_body, max_request_body_bytes, json_media_type}
use push_component.Api.Handlers.{Context, Server, Answer}

pub record HttpResponse : Type 0 where
  pub status : ℕ
  pub media_type : GoString
  pub body : GoString

-- RespondError
unfoldable pub respond_error : Context → ApiError → Option HttpResponse
respond_error ctx e = do
  wire_error ← ctx.marshal_error e
  some (record { status = e.status_code; media_type = json_media_type; body = wire_error })

-- The response to a handler's result; a status that is not written is 200.
respond : Context → Result ApiError (Option GoString) → Option HttpResponse
unfolding respond_error
respond ctx (err e) = respond_error ctx e
respond ctx (ok none) =
    some (record { status = 200; media_type = json_media_type; body = lit "{\"ok\":true}" })
respond ctx (ok (some token)) = do
  resp ← ctx.marshal_token token
  some (record { status = 200; media_type = json_media_type; body = resp })

-- What StoreForRequest fails with.
pub data AccessError : Type 0 where
  api_error : ApiError → AccessError
  other_error : AccessError

unfoldable pub get_store : Option AccessError → Option ApiError
get_store none = none
get_store (some (api_error e)) = some e
get_store (some other_error) = some err_unknown

-- JSONPostHandler: how its body is parsed, and what handles it.
module _ {S B : Type 0} (ctx : Context) (unmarshal : GoString → Option B)
    (do_handle : B → Server S → Option (Answer S)) where
  unfoldable pub prepare : Request → Option AccessError → Option (Result ApiError B)
  unfolding read_body get_store
  prepare request access = do
    read ← read_body ctx.parse_media_type max_request_body_bytes request
    elim read [
      | err e ↦ some (err e)
      | ok body ↦ elim (unmarshal body) [
        | none ↦ some (err err_malformed_json_object)
        | some parsed ↦ elim (get_store access) [ some e ↦ some (err e) | none ↦ some (ok parsed) ]
      ]
    ]

  -- ServeHTTP
  unfoldable pub serve_http :
      Request → Option AccessError → Server S → Option (Server S × HttpResponse)
  unfolding prepare respond
  serve_http request access srv = do
    prepared ← prepare request access
    elim prepared [
      | err e ↦ respond_error ctx e >>= λ r. some (srv, r)
      | ok parsed ↦ do (srv', result) ← do_handle parsed srv; r ← respond ctx result; some (srv', r)
    ]
