-- ===== src/Errors/Tests.antt =====
-- The helpers of backend/src/utils/errors.ts at concrete values.
use image_app.Common.{◌≡◌, refl, true, none, some}
use image_app.Errors.{
  Thrown, app, native, number, status, message, handle_mongo_error, create_error, no_options,
  not_found_error,
}
use image_app.Errors.Factory

-- A duplicate key error of the database driver.
abbrev duplicate : Thrown
duplicate = native "MongoServerError" "E11000 duplicate key" (record {
  printed = "MongoServerError: E11000 duplicate key";
  message = some "E11000 duplicate key";
  name = some "MongoServerError";
  code = some (number 11000);
  labels = none;
  has_key_value = true;
})

duplicate_is_409 : status (handle_mongo_error duplicate) ≡ 409
unfolding handle_mongo_error
duplicate_is_409 = refl

missing_user : message (Factory.not_found "User" (some "42") none) ≡ "User with ID '42' not found"
unfolding Factory.not_found
missing_user = refl

abbrev missing : Thrown
missing = app (create_error not_found_error "no post" no_options)
