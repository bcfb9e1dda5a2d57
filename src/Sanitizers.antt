-- ===== src/Sanitizers.antt =====
-- `sanitizeForMongo` of backend/src/utils/sanitizers.ts, on values as they come from JSON bodies,
-- with object ids among them.
pub mod Laws
mod Tests
use image_app.Common.{ℕ, String, Bool, true, false, ◌&&◌, ◌||◌, not, str_eq, if◌then◌else◌}
use image_app.Common.Text.{codes, begins, includes}

-- `scalar` is a string, a number or a boolean, by its text. The entries of an object are its own
-- keys, in the order of `Object.keys`.
mutual
  pub data Json : Type 0 where
    null undefined : Json
    scalar : String → Json
    object_id : String → Json
    array : Items → Json
    object : Entries → Json

  pub data Items : Type 0 where
    no_items : Items
    item : Json → Items → Items

  pub data Entries : Type 0 where
    no_entries : Entries
    entry : String → Json → Entries → Entries

-- An operator, a path, or a key that reaches a prototype.
unfoldable pub is_dangerous : String → Bool
is_dangerous key =
    (begins (codes "$") (codes key) || includes (codes key) (codes "."))
    || (str_eq key "__proto__" || (str_eq key "constructor" || str_eq key "prototype"))

-- An object without keys, which is no object id and no array.
abbrev pub is_empty_object : Json → Bool
is_empty_object (object no_entries) = true
is_empty_object _ = false

unfoldable mutual
  pub sanitize_for_mongo : Json → Json
  sanitize_for_mongo null = null
  sanitize_for_mongo undefined = undefined
  sanitize_for_mongo (scalar s) = scalar s
  sanitize_for_mongo (object_id s) = object_id s
  sanitize_for_mongo (array is) = array (sanitize_items is)
  sanitize_for_mongo (object es) = object (sanitize_entries es)

  pub sanitize_items : Items → Items
  sanitize_items no_items = no_items
  sanitize_items (item v is) = item (sanitize_for_mongo v) (sanitize_items is)

  pub sanitize_entries : Entries → Entries
  sanitize_entries no_entries = no_entries
  sanitize_entries (entry key v es) =
      let rest = sanitize_entries es in
      let sanitized = sanitize_for_mongo v in
      if is_dangerous key
      then rest
      else if is_empty_object sanitized
      then rest
      else entry key sanitized rest
