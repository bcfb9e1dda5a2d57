-- ===== src/Sanitizers/Tests.antt =====
-- A body with a NoSQL injection.
use image_app.Common.{◌≡◌, refl, true}
use image_app.Sanitizers.{
  Json, null, scalar, array, object, no_items, item, no_entries, entry, is_dangerous,
  sanitize_for_mongo, sanitize_items, sanitize_entries,
}
use image_app.Sanitizers.Laws.{is_clean, sanitize_for_mongo-is_clean}

abbrev body : Json
body = object (
    entry "name" (scalar "ann") (
      entry "password" (object (entry "$ne" null no_entries))
        (entry "tags" (array (item (object (entry "a.b" null no_entries)) no_items)) no_entries)))

abbrev safe : Json
safe = object (
    entry "name" (scalar "ann")
      (entry "tags" (array (item (object no_entries) no_items)) no_entries))

body_sanitized : sanitize_for_mongo body ≡ safe
unfolding sanitize_for_mongo sanitize_items sanitize_entries is_dangerous
body_sanitized = refl

sanitize_for_mongo-is_clean_example :
    (is_clean (sanitize_for_mongo body) ≡ true)
    × (sanitize_for_mongo (sanitize_for_mongo body) ≡ sanitize_for_mongo body)
sanitize_for_mongo-is_clean_example = sanitize_for_mongo-is_clean body

safe_clean : is_clean safe ≡ true
unfolding is_clean is_dangerous
safe_clean = refl
