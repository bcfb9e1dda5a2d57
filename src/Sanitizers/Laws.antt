-- ===== src/Sanitizers/Laws.antt =====
-- What is left is safe, and what is safe is left alone.
use native.Mathlib.Omega.{arith}
use image_app.Common.{◌≡◌, refl, ap, Bool, true, false, not, ◌&&◌}
use image_app.Sanitizers.{
  Json, null, undefined, scalar, object_id, array, object, Items, no_items, item, Entries,
  no_entries, entry, is_dangerous, is_empty_object, sanitize_for_mongo, sanitize_items,
  sanitize_entries,
}

-- No dangerous key at any depth, and no key with an empty object.
unfoldable mutual
  pub is_clean : Json → Bool
  is_clean (array is) = clean_items is
  is_clean (object es) = clean_entries es
  is_clean _ = true

  clean_items : Items → Bool
  clean_items no_items = true
  clean_items (item v is) = is_clean v && clean_items is

  clean_entries : Entries → Bool
  clean_entries no_entries = true
  clean_entries (entry key v es) =
      not (is_dangerous key) && (not (is_empty_object v) && (is_clean v && clean_entries es))

mutual
  unfolding is_clean clean_items clean_entries sanitize_for_mongo sanitize_items sanitize_entries

  sanitized_clean : (v : Json) → is_clean (sanitize_for_mongo v) ≡ true
  sanitized_clean null = refl
  sanitized_clean undefined = refl
  sanitized_clean (scalar s) = refl
  sanitized_clean (object_id s) = refl
  sanitized_clean (array is) = sanitized_items is
  sanitized_clean (object es) = sanitized_entries es

  sanitized_items : (is : Items) → clean_items (sanitize_items is) ≡ true
  sanitized_items no_items = refl
  sanitized_items (item v is) = rw (sanitized_clean v, sanitized_items is) refl

  sanitized_entries : (es : Entries) → clean_entries (sanitize_entries es) ≡ true
  sanitized_entries no_entries = refl
  sanitized_entries (entry key v es) = ground (arith, sanitized_clean v, sanitized_entries es)

both : {a b : Bool} → (a && b) ≡ true → (a ≡ true) × (b ≡ true)
both h = ground arith

negated : {a : Bool} → not a ≡ true → a ≡ false
negated h = ground arith

mutual
  unfolding is_clean clean_items clean_entries sanitize_for_mongo sanitize_items sanitize_entries

  clean_same : (v : Json) → is_clean v ≡ true → sanitize_for_mongo v ≡ v
  clean_same null h = refl
  clean_same undefined h = refl
  clean_same (scalar s) h = refl
  clean_same (object_id s) h = refl
  clean_same (array is) h = ap array (clean_items_same is h)
  clean_same (object es) h = ap object (clean_entries_same es h)

  clean_items_same : (is : Items) → clean_items is ≡ true → sanitize_items is ≡ is
  clean_items_same no_items h = refl
  clean_items_same (item v is) h =
      let (here, rest) = both h in rw (clean_same v here, clean_items_same is rest) refl

  clean_entries_same : (es : Entries) → clean_entries es ≡ true → sanitize_entries es ≡ es
  clean_entries_same no_entries h = refl
  clean_entries_same (entry key v es) h =
      let (safe, h1) = both h in
      let (full, h2) = both h1 in
      let (here, rest) = both h2 in
      rw (clean_same v here, clean_entries_same es rest, negated safe, negated full) refl

-- What `sanitizeForMongo` returns has no key, at any depth, that is an operator, a path or a way to
-- a prototype, and no key whose value is an empty object; and to sanitize it again changes nothing.
pub sanitize_for_mongo-is_clean :
    (v : Json)
    → (is_clean (sanitize_for_mongo v) ≡ true)
      × (sanitize_for_mongo (sanitize_for_mongo v) ≡ sanitize_for_mongo v)
sanitize_for_mongo-is_clean v =
    (sanitized_clean v, clean_same (sanitize_for_mongo v) (sanitized_clean v))

-- A value without such keys at any depth is left as it is.
sanitize_for_mongo_same : (v : Json) → is_clean v ≡ true → sanitize_for_mongo v ≡ v
sanitize_for_mongo_same v h = clean_same v h
