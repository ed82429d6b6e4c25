-- ===== src/Api/Requests.antt =====
-- server/api/handlers.go: the requests, and the checks that come before a handler. An int64 is its
-- 64-bit pattern. `none` is a run-time panic.
use push_component.Base.{
  ℕ, ◌*◌, ◌-◌, Bool, false, not, ◌&&◌, ◌||◌, [], Option, none, some, GoString, lit, str_eq, length,
  take, ltb, leb, nat_eq, if◌then◌else◌,
}
use push_component.Base.Int64.{of_int, lt64, is_negative, modulus}
use push_component.Base.Results.{Result, ok, err}
use push_component.Api.Errors.{
  ApiError, err_could_not_read_body, err_data_too_large, err_invalid_expiration, err_missing_data,
  err_missing_id_field, err_no_content_length_provided, err_past_expiration, err_request_body_empty,
  err_request_body_too_large, err_wrong_content_type, err_wrong_request_method,
}

abbrev pub max_request_body_bytes : ℕ
max_request_body_bytes = 4 * 1024

abbrev pub json_media_type : GoString
json_media_type = lit "application/json"

abbrev pub max_unicast_payload : ℕ
max_unicast_payload = 2 * 1024

-- What the handlers read of an http.Request: `body` is what arrives before its end or an error.
pub record Request : Type 0 where
  pub method : GoString
  pub content_length : ℕ  -- int64
  pub content_type : GoString
  pub body : GoString

pub record Registration : Type 0 where
  pub device_id : GoString
  pub app_id : GoString

pub record Unicast : Type 0 where
  pub token : GoString
  pub user_id : GoString
  pub device_id : GoString
  pub app_id : GoString
  pub expire_on : GoString
  pub raw_data : GoString
  pub clear_pending : Bool
  pub replace_tag : GoString

pub record Broadcast : Type 0 where
  pub channel : GoString
  pub expire_on : GoString
  pub raw_data : GoString

abbrev is_empty : GoString → Bool
is_empty s = str_eq s []

-- A check answers with an error, or with nothing.
unfoldable pub check_content_length : ℕ → Request → Option ApiError
check_content_length max_body_size request =
    if nat_eq request.content_length (modulus - 1)
    then some err_no_content_length_provided
    else if nat_eq request.content_length 0
    then some err_request_body_empty
    else if lt64 (of_int max_body_size) request.content_length
    then some err_request_body_too_large
    else none

-- mime.ParseMediaType is a parameter; `none` is its error.
module _ (parse_media_type : GoString → Option GoString) where
  is_json : Option GoString → Bool
  is_json none = false
  is_json (some media_type) = str_eq media_type json_media_type

  unfoldable pub check_request_as_post : ℕ → Request → Option ApiError
  unfolding check_content_length is_json
  check_request_as_post max_body_size request =
      if not (str_eq request.method (lit "POST"))
      then some err_wrong_request_method
      else elim (check_content_length max_body_size request) [
        | some e ↦ some e
        | none ↦
            if is_json (parse_media_type request.content_type)
            then none
            else some err_wrong_content_type
      ]

  -- ReadBody: a slice cannot be made with a negative length, and the body must fill it.
  unfoldable pub read_body : ℕ → Request → Option (Result ApiError GoString)
  unfolding check_request_as_post
  read_body max_body_size request = elim (check_request_as_post max_body_size request) [
    | some e ↦ some (err e)
    | none ↦
        if is_negative request.content_length
        then none
        else if leb request.content_length (length request.body)
        then some (ok (take request.content_length request.body))
        else some (err err_could_not_read_body)
  ]

-- time.Parse of the layout RFC3339 is a parameter; the result is the time of expiration.
module _ (parse_time : GoString → Option ℕ) (now : ℕ) where
  unfoldable pub check_cast_common : GoString → GoString → Result ApiError ℕ
  check_cast_common raw_data expire_on =
      if nat_eq (length raw_data) 0 then err err_missing_data else elim (parse_time expire_on) [
        | none ↦ err err_invalid_expiration
        | some expire ↦ if ltb expire now then err err_past_expiration else ok expire
      ]

  unfoldable pub check_broadcast : Broadcast → Result ApiError ℕ
  unfolding check_cast_common
  check_broadcast bcast = check_cast_common bcast.raw_data bcast.expire_on

  unfoldable pub check_unicast : Unicast → Result ApiError ℕ
  unfolding check_cast_common
  check_unicast ucast =
      if is_empty ucast.app_id
      then err err_missing_id_field
      else if is_empty ucast.token && (is_empty ucast.user_id || is_empty ucast.device_id)
      then err err_missing_id_field
      else if ltb max_unicast_payload (length ucast.raw_data)
      then err err_data_too_large
      else check_cast_common ucast.raw_data ucast.expire_on

unfoldable pub check_register : Registration → Option ApiError
check_register reg =
    if is_empty reg.device_id || is_empty reg.app_id then some err_missing_id_field else none
