-- ===== src/Errors/Laws.antt =====
-- What callers rely on in the error helpers.
use image_app.Common.{◌≤◌, ◌<◌, ◌≡◌, ◌⊎◌, String, Bool, false, arith}
use image_app.Errors.{
  ErrorType, Thrown, app, string, caused_by, ErrorOptions, status, cause, create_error,
  is_app_error, handle_mongo_error, type_name, status_code,
}
use image_app.Errors.Handler.{handle_error}

status_code_range : (t : ErrorType) → (400 ≤ status_code t) × (status_code t < 600)
status_code_range t = grind arith

-- An error made by `createError`, thrown to the handler, is answered with its type's name and
-- status, a status between 400 and 599.
handle_error-create_error :
    (production tracks : Bool) (path m : String) (t : ErrorType) (o : ErrorOptions)
    → ((handle_error production tracks path (app (create_error t m o))).status ≡ status_code t)
      × ((handle_error production tracks path (app (create_error t m o))).body.kind ≡ type_name t)
      × (400 ≤ (handle_error production tracks path (app (create_error t m o))).status)
      × ((handle_error production tracks path (app (create_error t m o))).status < 600)
unfolding handle_error create_error
handle_error-create_error production tracks path m t o = ground (arith, status_code_range t)

-- `handleMongoError` throws an `AppError` with status 400, 409 or 500 for anything that is none
-- already, and keeps the original as its cause.
handle_mongo_error_cases :
    (e : Thrown)
    → is_app_error e ≡ false
    → (cause (handle_mongo_error e) ≡ caused_by e)
      × ((status (handle_mongo_error e) ≡ 400)
          ⊎ (status (handle_mongo_error e) ≡ 409)
          ⊎ (status (handle_mongo_error e) ≡ 500))
unfolding handle_mongo_error is_app_error
handle_mongo_error_cases (app e) h = cc
handle_mongo_error_cases (string s) h = ground arith
handle_mongo_error_cases _ h = ground arith
