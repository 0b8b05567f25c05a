-- ===== src/Core/Errors.antt =====
-- app/core/errors.py: the errors that leave the API, and their envelope.
use insatomcat_webui.Base.{ℕ, String, [], ◌∷◌, Value, dict_of, Dict, ◌=?◌, if◌then◌else◌}

-- `ApiError`: the code is stable, the message is for the operator.
pub record ApiError : Type 0 where
  pub code : String
  pub message : String
  pub status : ℕ
  pub detail : Dict Value

abbrev pub authentication_required : ApiError
authentication_required = record {
  code = "authentication_required";
  message = "Authentication required.";
  status = 401;
  detail = [];
}

abbrev pub permission_denied : String → Dict Value → ApiError
permission_denied message detail = record {
  code = "permission_denied";
  message = message;
  status = 403;
  detail = detail;
}

unfoldable pub envelope : String → String → Dict Value → Value
envelope code message detail = dict_of (
    (
      "error",
      dict_of (
          ("code", Value.str code)
          ∷ ("message", Value.str message)
          ∷ ("detail", dict_of detail)
          ∷ []),
    )
    ∷ [])

-- `_STATUS_CODES.get(status, "error")`
unfoldable pub status_code : ℕ → String
status_code s =
    if s =? 400
    then "bad_request"
    else if s =? 401
    then "authentication_required"
    else if s =? 403
    then "permission_denied"
    else if s =? 404
    then "not_found"
    else if s =? 405
    then "method_not_allowed"
    else if s =? 409
    then "precondition_failed"
    else if s =? 503
    then "unavailable"
    else "error"

pub record JsonResponse : Type 0 where
  pub status : ℕ
  pub content : Value

-- The handlers that `install_error_handlers` registers.
unfoldable pub api_error : ApiError → JsonResponse
unfolding envelope
api_error e = record { status = e.status; content = envelope e.code e.message e.detail }

unfoldable pub http_error : ℕ → String → JsonResponse
unfolding envelope status_code
http_error status detail = record {
  status = status;
  content = envelope (status_code status) detail [];
}

unfoldable pub validation_error : Value → JsonResponse
unfolding envelope
validation_error errors = record {
  status = 422;
  content =
      envelope "invalid_request" "The request body or parameters are not valid."
        (("errors", errors) ∷ []);
}
