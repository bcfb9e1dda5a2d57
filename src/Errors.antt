-- ===== src/Errors.antt =====
-- backend/src/utils/errors.ts: the application's errors, what a `catch` may receive, and how an
-- unknown error becomes an `AppError`.
pub mod Factory
pub mod Handler
pub mod Laws
mod Tests
use mathlib.Core.Option
use image_app.Common.{
  ◌≡◌, refl, ◌⊎◌, inl, inr, ℕ, String, Bool, true, false, ◌||◌, ◌&&◌, Option, none, some, List,
  ◌==◌, if◌then◌else◌, str_eq,
}

-- The enumeration `ErrorCode`; `code_text` has the strings.
pub data ErrorCode : Type 0 where
  invalid_credentials token_expired token_invalid unauthorized forbidden : ErrorCode
  email_not_verified validation_failed invalid_input required_field_missing : ErrorCode
  invalid_format user_not_found post_not_found comment_not_found : ErrorCode
  community_not_found image_not_found duplicate_email duplicate_handle : ErrorCode
  duplicate_resource already_exists internal_error database_error storage_error : ErrorCode
  transaction_error service_unavailable upload_failed email_send_failed : ErrorCode
  external_api_error : ErrorCode

abbrev pub code_text : ErrorCode → String
code_text invalid_credentials = "AUTH_1001"
code_text token_expired = "AUTH_1002"
code_text token_invalid = "AUTH_1003"
code_text unauthorized = "AUTH_1004"
code_text forbidden = "AUTH_1005"
code_text email_not_verified = "AUTH_1006"
code_text validation_failed = "VAL_2001"
code_text invalid_input = "VAL_2002"
code_text required_field_missing = "VAL_2003"
code_text invalid_format = "VAL_2004"
code_text user_not_found = "RES_3001"
code_text post_not_found = "RES_3002"
code_text comment_not_found = "RES_3003"
code_text community_not_found = "RES_3004"
code_text image_not_found = "RES_3005"
code_text duplicate_email = "CONF_4001"
code_text duplicate_handle = "CONF_4002"
code_text duplicate_resource = "CONF_4003"
code_text already_exists = "CONF_4004"
code_text internal_error = "SRV_5001"
code_text database_error = "SRV_5002"
code_text storage_error = "SRV_5003"
code_text transaction_error = "SRV_5004"
code_text service_unavailable = "SRV_5005"
code_text upload_failed = "EXT_6001"
code_text email_send_failed = "EXT_6002"
code_text external_api_error = "EXT_6003"

-- The keys of `errorMap`.
pub data ErrorType : Type 0 where
  validation_error unauthorized_error authentication_error path_error : ErrorType
  not_found_error forbidden_error duplicate_error internal_server_error : ErrorType
  error_internal error_storage upload_error feed_error unknown_error : ErrorType
  error_transaction uow_error error_database security_error config_error : ErrorType
  conflict_error : ErrorType

-- The `name` and the `statusCode` that the class of each key passes to `super`.
abbrev pub type_name : ErrorType → String
type_name validation_error = "ValidationError"
type_name unauthorized_error = "UnauthorizedError"
type_name authentication_error = "AuthenticationError"
type_name path_error = "PathError"
type_name not_found_error = "NotFoundError"
type_name forbidden_error = "ForbiddenError"
type_name duplicate_error = "DuplicateError"
type_name internal_server_error = "InternalServerError"
type_name error_internal = "InternalError"
type_name error_storage = "StorageError"
type_name upload_error = "UploadError"
type_name feed_error = "FeedError"
type_name unknown_error = "UnknownError"
type_name error_transaction = "TransactionError"
type_name uow_error = "UoWError"
type_name error_database = "DatabaseError"
type_name security_error = "SecurityError"
type_name config_error = "ConfigError"
type_name conflict_error = "ConflictError"

abbrev pub status_code : ErrorType → ℕ
status_code validation_error = 400
status_code unauthorized_error = 401
status_code authentication_error = 401
status_code path_error = 404
status_code not_found_error = 404
status_code forbidden_error = 403
status_code security_error = 403
status_code duplicate_error = 409
status_code conflict_error = 409
status_code _ = 500

-- `ErrorContext`: its keys, with the values as they print.
abbrev pub ErrorContext : Type 0
ErrorContext = List (String × String)

-- A `code` property of a thrown value.
pub data Code : Type 0 where
  number : ℕ → Code
  text : String → Code
  other : Code

-- What the functions below read of a thrown object: its own properties, where it has them.
-- `printed` is `String(error)`, and `message` is `String(error.message)`; `name` is there
-- if the property holds a string.
pub record Props : Type 0 where
  pub printed : String
  pub message : Option String
  pub name : Option String
  pub code : Option Code
  pub labels : Option (List String)
  pub has_key_value : Bool

-- A thrown value (`unknown`): an `AppError`, another instance of `Error`, another object, a string,
-- or any other primitive value with its print. An `AppError` holds its cause.
mutual
  pub data Thrown : Type 0 where
    app : AppError → Thrown
    native : String → String → Props → Thrown
    object : Props → Thrown
    string : String → Thrown
    primitive : String → Thrown

  pub data AppError : Type 0 where
    app_error : String → String → ℕ → Option ErrorContext → Option ErrorCode → Cause → AppError

  pub data Cause : Type 0 where
    no_cause : Cause
    caused_by : Thrown → Cause

-- What a call returns or throws.
pub data Result {ℓ} (A : Type ℓ) : Type ℓ where
  ok : A → Result A
  err : Thrown → Result A

pub Result-cases {ℓ} :
    {A : Type ℓ} (r : Result A) → ((a : A) × (r ≡ ok a)) ⊎ ((e : Thrown) × (r ≡ err e))
Result-cases (ok a) = inl (a, refl)
Result-cases (err e) = inr (e, refl)

abbrev pub name : AppError → String
name (app_error n m s c e k) = n

abbrev pub message : AppError → String
message (app_error n m s c e k) = m

abbrev pub status : AppError → ℕ
status (app_error n m s c e k) = s

abbrev pub context : AppError → Option ErrorContext
context (app_error n m s c e k) = c

abbrev pub error_code : AppError → Option ErrorCode
error_code (app_error n m s c e k) = e

abbrev pub cause : AppError → Cause
cause (app_error n m s c e k) = k

-- `ErrorOptions`
pub record ErrorOptions : Type 0 where
  pub context : Option ErrorContext
  pub cause : Cause
  pub error_code : Option ErrorCode

abbrev pub no_options : ErrorOptions
no_options = record { context = none; cause = no_cause; error_code = none }

-- Every key has its class, so the fallback of `errorMap[type] || UnknownError` is not reached.
unfoldable pub create_error : ErrorType → String → ErrorOptions → AppError
create_error t m o = app_error (type_name t) m (status_code t) o.context o.error_code o.cause

unfoldable pub get_error_message : Thrown → String
get_error_message (app e) = message e
get_error_message (native n m p) = m
get_error_message (string s) = s
get_error_message (object p) = Option.get_or p.message p.printed
get_error_message (primitive s) = s

-- A code that is no number and no string reads as undefined.
abbrev readable : Code → Option Code
readable (number n) = some (number n)
readable (text s) = some (text s)
readable other = none

abbrev readable_code : Option Code → Option Code
readable_code none = none
readable_code (some c) = readable c

-- An `AppError` has no property `code`, `errorLabels` or `keyValue`.
unfoldable pub get_error_code : Thrown → Option Code
get_error_code (native n m p) = readable_code p.code
get_error_code (object p) = readable_code p.code
get_error_code _ = none

unfoldable pub get_error_labels : Thrown → Option (List String)
get_error_labels (native n m p) = p.labels
get_error_labels (object p) = p.labels
get_error_labels _ = none

unfoldable pub get_error_name : Thrown → Option String
get_error_name (app e) = some (name e)
get_error_name (native n m p) = some n
get_error_name (object p) = p.name
get_error_name _ = none

unfoldable pub is_app_error : Thrown → Bool
is_app_error (app e) = true
is_app_error _ = false

abbrev is_11000 : Option Code → Bool
is_11000 (some (number n)) = n == 11000
is_11000 _ = false

unfoldable pub is_mongo_duplicate_key : Thrown → Bool
is_mongo_duplicate_key (native n m p) = is_11000 p.code && p.has_key_value
is_mongo_duplicate_key (object p) = is_11000 p.code && p.has_key_value
is_mongo_duplicate_key _ = false

abbrev pub with_cause : ErrorOptions → Thrown → ErrorOptions
with_cause o e = record o { cause = caused_by e }

-- An `AppError` is returned unchanged; anything else becomes the cause of the fallback.
unfoldable pub wrap_error : Thrown → ErrorType → ErrorOptions → AppError
unfolding create_error get_error_message
wrap_error (app e) t o = e
wrap_error e t o = create_error t (get_error_message e) (with_cause o e)

-- The tests of `handleMongoError` on an object's name, and its fallback; `m` is the message of an
-- instance of `Error`, and `fallback` is what the last line puts in its place.
by_name : Option String → String → String → Thrown → AppError
by_name none m fallback e = create_error error_database fallback (with_cause no_options e)
by_name (some n) m fallback e =
    if str_eq n "ValidationError"
    then create_error validation_error m (with_cause no_options e)
    else if str_eq n "CastError"
    then create_error validation_error "Invalid ID or data format provided."
        (with_cause no_options e)
    else create_error error_database fallback (with_cause no_options e)

duplicate_key : Thrown → AppError
duplicate_key e =
    create_error duplicate_error "Resource already exists (duplicate key)."
      (with_cause no_options e)

-- The error that `handleMongoError` throws. An object with no `message` would give the validation
-- error the message `undefined`.
unfoldable pub handle_mongo_error : Thrown → AppError
unfolding create_error is_mongo_duplicate_key by_name duplicate_key
handle_mongo_error (app e) = e
handle_mongo_error (native n m p) =
    if is_mongo_duplicate_key (native n m p)
    then duplicate_key (native n m p)
    else by_name (some n) m m (native n m p)
handle_mongo_error (object p) =
    if is_mongo_duplicate_key (object p)
    then duplicate_key (object p)
    else by_name p.name (Option.get_or p.message "undefined") p.printed (object p)
handle_mongo_error (string s) = create_error error_database s (with_cause no_options (string s))
handle_mongo_error (primitive s) =
    create_error error_database s (with_cause no_options (primitive s))
