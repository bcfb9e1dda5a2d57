-- ===== src/Errors/Handler.antt =====
-- backend/src/utils/errors.ts: `ErrorHandler.handleError` and `ErrorResponse.toJSON`. Stack traces
-- are left out, and the log is not modelled.
use image_app.Common.{ℕ, String, Bool, not, Option, none, some, ◌==◌, if◌then◌else◌}
use image_app.Errors.{
  ErrorCode, ErrorContext, Thrown, app, native, AppError, Cause, caused_by, name, message, status,
  context, error_code, cause, unknown_error, wrap_error, no_options,
}

-- The JSON body; `debug` says whether the stack is included, and `cause_message` is the message of
-- a cause that is an instance of `Error`.
pub record Body : Type 0 where
  pub kind : String
  pub message : String
  pub code : ℕ
  pub error_code : Option ErrorCode
  pub context : Option ErrorContext
  pub debug : Bool
  pub cause_message : Option String

-- What the metrics callback is given.
pub record Metric : Type 0 where
  pub error_type : String
  pub status_code : ℕ
  pub endpoint : String

pub record Response : Type 0 where
  pub status : ℕ
  pub body : Body
  pub tracked : Option Metric

abbrev error_message : Cause → Option String
error_message (caused_by (app e)) = some (message e)
error_message (caused_by (native n m p)) = some m
error_message _ = none

-- `appError.statusCode || 500`
abbrev or_500 : ℕ → ℕ
or_500 s = if s == 0 then 500 else s

-- An `AppError` goes on as it is; anything else is wrapped as an `UnknownError`.
abbrev as_app_error : Thrown → AppError
unfolding wrap_error
as_app_error e = wrap_error e unknown_error no_options

abbrev body : AppError → ℕ → Bool → Body
body e code debug = record {
  kind = name e;
  message = message e;
  code = code;
  error_code = error_code e;
  context = context e;
  debug = debug;
  cause_message = if debug then error_message (cause e) else none;
}

-- A callback that throws changes nothing in the response.
abbrev metric : AppError → String → Metric
metric e path = record { error_type = name e; status_code = or_500 (status e); endpoint = path }

-- `production` is `NODE_ENV === "production"`, `tracks` whether a metrics callback is registered.
unfoldable pub handle_error : Bool → Bool → String → Thrown → Response
unfolding as_app_error wrap_error
handle_error production tracks path err = record {
  status = or_500 (status (as_app_error err));
  body = body (as_app_error err) (or_500 (status (as_app_error err))) (not production);
  tracked = if tracks then some (metric (as_app_error err) path) else none;
}

-- `ErrorResponse.toJSON`: the value under the key `error`.
unfoldable pub to_json : AppError → Bool → Body
to_json e include_debug_info = body e (status e) include_debug_info
