-- ===== src/Api/Errors.antt =====
-- server/api/handlers.go: the errors of the API.
use push_component.Base.{ℕ, [], GoString, lit}

-- APIError; a missing extra is the empty message.
pub record ApiError : Type 0 where
  pub status_code : ℕ
  pub error_label : GoString
  pub message : GoString
  pub extra : GoString

abbrev pub io_error_label : GoString
io_error_label = lit "io-error"

abbrev pub invalid_request_label : GoString
invalid_request_label = lit "invalid-request"

abbrev pub unknown_channel_label : GoString
unknown_channel_label = lit "unknown-channel"

abbrev pub unknown_token_label : GoString
unknown_token_label = lit "unknown-token"

abbrev pub unauthorized_label : GoString
unauthorized_label = lit "unauthorized"

abbrev pub unavailable_label : GoString
unavailable_label = lit "unavailable"

abbrev pub internal_error_label : GoString
internal_error_label = lit "internal"

abbrev pub too_many_pending_label : GoString
too_many_pending_label = lit "too-many-pending"

abbrev pub err_no_content_length_provided : ApiError
err_no_content_length_provided = record {
  status_code = 411;
  error_label = invalid_request_label;
  message = lit "A Content-Length must be provided";
  extra = [];
}

abbrev pub err_request_body_empty : ApiError
err_request_body_empty = record {
  status_code = 400;
  error_label = invalid_request_label;
  message = lit "Request body empty";
  extra = [];
}

abbrev pub err_request_body_too_large : ApiError
err_request_body_too_large = record {
  status_code = 413;
  error_label = invalid_request_label;
  message = lit "Request body too large";
  extra = [];
}

abbrev pub err_wrong_content_type : ApiError
err_wrong_content_type = record {
  status_code = 415;
  error_label = invalid_request_label;
  message = lit "Wrong content type, should be application/json";
  extra = [];
}

abbrev pub err_wrong_request_method : ApiError
err_wrong_request_method = record {
  status_code = 405;
  error_label = invalid_request_label;
  message = lit "Wrong request method, should be POST";
  extra = [];
}

abbrev pub err_wrong_request_method_get : ApiError
err_wrong_request_method_get = record {
  status_code = 405;
  error_label = invalid_request_label;
  message = lit "Wrong request method, should be GET";
  extra = [];
}

abbrev pub err_malformed_json_object : ApiError
err_malformed_json_object = record {
  status_code = 400;
  error_label = invalid_request_label;
  message = lit "Malformed JSON Object";
  extra = [];
}

abbrev pub err_could_not_read_body : ApiError
err_could_not_read_body = record {
  status_code = 400;
  error_label = io_error_label;
  message = lit "Could not read request body";
  extra = [];
}

abbrev pub err_missing_id_field : ApiError
err_missing_id_field = record {
  status_code = 400;
  error_label = invalid_request_label;
  message = lit "Missing id field";
  extra = [];
}

abbrev pub err_missing_data : ApiError
err_missing_data = record {
  status_code = 400;
  error_label = invalid_request_label;
  message = lit "Missing data field";
  extra = [];
}

abbrev pub err_data_too_large : ApiError
err_data_too_large = record {
  status_code = 400;
  error_label = invalid_request_label;
  message = lit "Data too large";
  extra = [];
}

abbrev pub err_invalid_expiration : ApiError
err_invalid_expiration = record {
  status_code = 400;
  error_label = invalid_request_label;
  message = lit "Invalid expiration date";
  extra = [];
}

abbrev pub err_past_expiration : ApiError
err_past_expiration = record {
  status_code = 400;
  error_label = invalid_request_label;
  message = lit "Past expiration date";
  extra = [];
}

abbrev pub err_unknown_channel : ApiError
err_unknown_channel = record {
  status_code = 400;
  error_label = unknown_channel_label;
  message = lit "Unknown channel";
  extra = [];
}

abbrev pub err_unknown_token : ApiError
err_unknown_token = record {
  status_code = 400;
  error_label = unknown_token_label;
  message = lit "Unknown token";
  extra = [];
}

abbrev pub err_unknown : ApiError
err_unknown = record {
  status_code = 500;
  error_label = internal_error_label;
  message = lit "Unknown error";
  extra = [];
}

abbrev pub err_store_unavailable : ApiError
err_store_unavailable = record {
  status_code = 503;
  error_label = unavailable_label;
  message = lit "Message store unavailable";
  extra = [];
}

abbrev pub err_could_not_store_notification : ApiError
err_could_not_store_notification = record {
  status_code = 503;
  error_label = unavailable_label;
  message = lit "Could not store notification";
  extra = [];
}

abbrev pub err_could_not_make_token : ApiError
err_could_not_make_token = record {
  status_code = 503;
  error_label = unavailable_label;
  message = lit "Could not make token";
  extra = [];
}

abbrev pub err_could_not_remove_token : ApiError
err_could_not_remove_token = record {
  status_code = 503;
  error_label = unavailable_label;
  message = lit "Could not remove token";
  extra = [];
}

abbrev pub err_could_not_resolve_token : ApiError
err_could_not_resolve_token = record {
  status_code = 503;
  error_label = unavailable_label;
  message = lit "Could not resolve token";
  extra = [];
}

abbrev pub err_unauthorized : ApiError
err_unauthorized = record {
  status_code = 401;
  error_label = unauthorized_label;
  message = lit "Unauthorized";
  extra = [];
}

abbrev pub err_too_many_pending_notifications : ApiError
err_too_many_pending_notifications = record {
  status_code = 413;
  error_label = too_many_pending_label;
  message = lit "Too many pending notifications for this application";
  extra = [];
}
