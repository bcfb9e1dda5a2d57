-- ===== src/Errors/Factory.antt =====
-- backend/src/utils/errors.ts: the factory `Errors`. An omitted argument is `none`.
use mathlib.Core.Option
use text.Mathlib.Text.{◌==◌}
use Prim.Native.String.{◌++◌}
use image_app.Common.{String, Option, none, some, [], ◌∷◌, if◌then◌else◌}
use image_app.Errors.{
  ErrorCode, validation_failed, unauthorized, already_exists, duplicate_resource, database_error,
  storage_error, upload_failed, internal_error, transaction_error, validation_error,
  authentication_error, unauthorized_error, forbidden_error, not_found_error, conflict_error,
  duplicate_error, error_database, error_storage, upload_error, internal_server_error,
  error_transaction, security_error, config_error, ErrorContext, Thrown, AppError, Cause, no_cause,
  caused_by, create_error,
}

-- `errorCode || fallback`: an error code is a non-empty string.
abbrev code_or : Option ErrorCode → ErrorCode → Option ErrorCode
code_or c d = some (Option.get_or c d)

abbrev cause_of : Option Thrown → Cause
cause_of none = no_cause
cause_of (some e) = caused_by e

unfoldable pub validation : String → Option ErrorContext → Option ErrorCode → AppError
unfolding create_error
validation m c code =
    create_error validation_error m
      (record { context = c; cause = no_cause; error_code = code_or code validation_failed })

unfoldable pub authentication : Option String → Option ErrorCode → Option ErrorContext → AppError
unfolding create_error
authentication m code c =
    create_error authentication_error (Option.get_or m "Authentication required")
      (record { context = c; cause = no_cause; error_code = code_or code unauthorized })

unfoldable pub unauthorized_access :
    Option String → Option ErrorCode → Option ErrorContext → AppError
unfolding create_error
unauthorized_access m code c =
    create_error unauthorized_error (Option.get_or m "Unauthorized access")
      (record { context = c; cause = no_cause; error_code = code_or code unauthorized })

unfoldable pub forbidden : Option String → Option ErrorContext → Option ErrorCode → AppError
unfolding create_error
forbidden m c code =
    create_error forbidden_error (Option.get_or m "Access forbidden")
      (record { context = c; cause = no_cause; error_code = code_or code ErrorCode.forbidden })

abbrev not_found_message : String → Option String → String
not_found_message kind none = kind ++ " not found"
not_found_message kind (some id) =
    if id == "" then kind ++ " not found" else kind ++ (" with ID '" ++ (id ++ "' not found"))

-- The keys of the context; `resourceId` holds `undefined` without an identifier.
abbrev not_found_context : String → Option String → ErrorContext
not_found_context kind none = ("resourceType", kind) ∷ []
not_found_context kind (some id) = ("resourceType", kind) ∷ ("resourceId", id) ∷ []

unfoldable pub not_found : String → Option String → Option ErrorCode → AppError
unfolding create_error
not_found kind id code =
    create_error not_found_error (not_found_message kind id)
      (record { context = some (not_found_context kind id); cause = no_cause; error_code = code })

unfoldable pub conflict : String → Option ErrorContext → Option ErrorCode → AppError
unfolding create_error
conflict m c code =
    create_error conflict_error m
      (record { context = c; cause = no_cause; error_code = code_or code already_exists })

unfoldable pub duplicate : String → Option ErrorContext → Option ErrorCode → AppError
unfolding create_error
duplicate m c code =
    create_error duplicate_error m
      (record { context = c; cause = no_cause; error_code = code_or code duplicate_resource })

unfoldable pub database : String → Option ErrorContext → Option Thrown → AppError
unfolding create_error
database m c k =
    create_error error_database m
      (record { context = c; cause = cause_of k; error_code = some database_error })

unfoldable pub storage : String → Option ErrorContext → Option Thrown → AppError
unfolding create_error
storage m c k =
    create_error error_storage m
      (record { context = c; cause = cause_of k; error_code = some storage_error })

unfoldable pub upload : String → Option ErrorContext → Option Thrown → AppError
unfolding create_error
upload m c k =
    create_error upload_error m
      (record { context = c; cause = cause_of k; error_code = some upload_failed })

unfoldable pub internal : Option String → Option ErrorContext → Option Thrown → AppError
unfolding create_error
internal m c k =
    create_error internal_server_error (Option.get_or m "Internal server error")
      (record { context = c; cause = cause_of k; error_code = some internal_error })

unfoldable pub transaction : String → Option ErrorContext → Option Thrown → AppError
unfolding create_error
transaction m c k =
    create_error error_transaction m
      (record { context = c; cause = cause_of k; error_code = some transaction_error })

unfoldable pub security : String → Option ErrorContext → AppError
unfolding create_error
security m c =
    create_error security_error m
      (record { context = c; cause = no_cause; error_code = some ErrorCode.forbidden })

unfoldable pub config : String → Option ErrorContext → AppError
unfolding create_error
config m c =
    create_error config_error m
      (record { context = c; cause = no_cause; error_code = some internal_error })
