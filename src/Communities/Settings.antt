-- ===== src/Communities/Settings.antt =====
-- The creation of a community, and an update of its settings: createCommunity.handler.ts and
-- updateCommunity.handler.ts of backend/src/application/commands/community. What the image storage
-- answers is an argument; what it is asked to do is part of the result.

use image_app.Common.{
  ℕ, String, Bool, false, not, ◌&&◌, Option, none, some, List, [], ◌∷◌, ◌++◌, any, str_eq,
  if◌then◌else◌,
}
use image_app.Common.Counters.{pos}
use image_app.Errors.{
  Thrown, app, native, validation_error, not_found_error, error_storage, message,
  handle_mongo_error, Result, ok, err,
}
use image_app.Exec.{Exec, pure, gets, modify, throw_if, ◌>>=◌, ◌>>◌}
use image_app.Communities.{
  admin, User, Community, Db, find_by_slug, push_joined, same_text, update_community, update_user,
  add_member, add_community, has_slug,
}
use image_app.Common.Text.{codes, trim}
use image_app.Communities.Slug.{generate_slug}
use image_app.Communities.Handlers.{refused, entry_of, finish, user_or, prepare_admin}

-- An image that the storage has taken.
pub record Image : Type 0 where
  pub url : String
  pub public_id : String

pub data StorageCall : Type 0 where
  upload_image : List ℕ → StorageCall
  delete_image : String → StorageCall

-- `error instanceof Error ? error.message : fallback`
abbrev pub message_or : String → Thrown → String
message_or fallback (app e) = message e
message_or fallback (native n m p) = m
message_or fallback _ = fallback

-- The ids that the document model gives to a new document.
pub record NewIds : Type 0 where
  pub id : String
  pub public_id : String

abbrev pub new_community : NewIds → List ℕ → String → String → String → Community
new_community new name description avatar creator = record {
  id = new.id;
  public_id = new.public_id;
  name = trim name;
  slug = generate_slug name none;
  description = description;
  avatar = avatar;
  cover_photo = "";
  creator = creator;
  member_count = pos 1;
  post_count = pos 0;
}

-- The work of the transaction of a creation.
unfoldable pub create_work : Thrown → Thrown → Community → User → Exec Db Community
create_work invalid duplicate c u = do
  add_community invalid duplicate c
  add_member duplicate (record { community = c.id; user = u.id; role = admin })
  modify (update_user u.id (push_joined (entry_of c)))
  pure c

unfoldable pub prepare_create : List ℕ → String → Exec Db User
prepare_create name creator = do
  u ← user_or creator "User not found"
  db ← gets (λ db. db)
  throw_if (has_slug (generate_slug name none) db.communities)
      (refused validation_error "Community with this name already exists")
  pure u

-- The `catch` around the transaction: an image that was uploaded is deleted, with the outcome
-- `deleted`.
unfoldable pub roll_back :
    Option Image → Result (Unit {0}) → Thrown → Result Community × List StorageCall
roll_back none deleted e = (err e, [])
roll_back (some i) deleted e = if str_eq i.public_id "" then (err e, []) else (
  elim deleted [
    | ok u ↦ err e
    | err d ↦
        err (refused error_storage (message_or "Failed to rollback community avatar upload" d))
  ],
  delete_image i.public_id ∷ [],
)

abbrev pub avatar_url : Option Image → String
avatar_url none = ""
avatar_url (some i) = i.url

abbrev pub ending :
    Option Image
    → Result (Unit {0})
    → Result Community × Db
    → Result Community × List StorageCall × Db
unfolding roll_back
ending image deleted (ok c, db) = (ok c, [], db)
ending image deleted (err e, db) =
    ((roll_back image deleted e).0, (roll_back image deleted e).1, db)

unfoldable pub create_with :
    Thrown
    → Thrown
    → NewIds
    → List ℕ
    → String
    → Option Image
    → Result (Unit {0})
    → User
    → Db
    → Result Community × List StorageCall × Db
unfolding ending create_work
create_with invalid duplicate new name description image deleted u db = ending image deleted (
    finish db (
      create_work invalid duplicate (new_community new name description (avatar_url image) u.id) u
        db))

-- The upload, if a file was sent along: what the storage answered.
unfoldable pub create_from :
    Thrown
    → Thrown
    → NewIds
    → List ℕ
    → String
    → Option (Result Image)
    → Result (Unit {0})
    → Result User
    → Db
    → Result Community × List StorageCall × Db
unfolding create_with
create_from invalid duplicate new name description upload deleted (err e) db = (err e, [], db)
create_from invalid duplicate new name description none deleted (ok u) db =
    create_with invalid duplicate new name description none deleted u db
create_from invalid duplicate new name description (some (err e)) deleted (ok u) db = (
  err (refused error_storage (message_or "Failed to upload community avatar" e)),
  upload_image (generate_slug name none) ∷ [],
  db,
)
create_from invalid duplicate new name description (some (ok i)) deleted (ok u) db =
    let (result, calls, after) =
      create_with invalid duplicate new name description (some i) deleted u db in
    (result, upload_image (generate_slug name none) ∷ calls, after)

unfoldable pub create :
    Thrown
    → Thrown
    → NewIds
    → List ℕ
    → String
    → String
    → Option (Result Image)
    → Result (Unit {0})
    → Db
    → Db
    → Result Community × List StorageCall × Db
unfolding create_from prepare_create
create invalid duplicate new name description creator upload deleted before db =
    create_from invalid duplicate new name description upload deleted
      (prepare_create name creator before).0 db

-- `updates`; for an image, what the storage answers.
pub record Updates : Type 0 where
  pub name : Option (List ℕ)
  pub description : Option String
  pub avatar : Option (Result Image)
  pub cover_photo : Option (Result Image)

-- `if (updates.name)`
abbrev pub new_name : Option (List ℕ) → Option (List ℕ)
new_name none = none
new_name (some []) = none
new_name (some (c ∷ cs)) = some (c ∷ cs)

abbrev taken_by_other : String → Option Community → Bool
taken_by_other id none = false
taken_by_other id (some c) = not (str_eq c.id id)

slug_is_taken : String → Option (List ℕ) → Db → Bool
slug_is_taken id none db = false
slug_is_taken id (some n) db =
    taken_by_other id (find_by_slug (generate_slug n none) db.communities)

unfoldable pub prepare_update : String → String → Updates → Exec Db Community
unfolding slug_is_taken prepare_admin
prepare_update community user updates = do
  c ← prepare_admin community user "Only community admins can update settings"
  db ← gets (λ db. db)
  throw_if (slug_is_taken c.id (new_name updates.name) db)
      (refused validation_error "Community name is already taken")
  pure c

-- What `$set` does to the document. An upload that failed leaves the old image.
abbrev image_url : Option (Result Image) → String → String
image_url none old = old
image_url (some (err e)) old = old
image_url (some (ok i)) old = i.url

abbrev or_old {ℓ} : {A : Type ℓ} → Option A → A → A
or_old none old = old
or_old (some x) old = x

unfoldable pub set_name : Option (List ℕ) → Community → Community
set_name none c = c
set_name (some n) c = record c { name = trim n; slug = generate_slug n none }

unfoldable pub set_fields : Updates → Community → Community
unfolding set_name
set_fields updates c = set_name (new_name updates.name) (record c {
  description = or_old updates.description c.description;
  avatar = image_url updates.avatar c.avatar;
  cover_photo = image_url updates.cover_photo c.cover_photo;
})

abbrev upload_call : String → Option (Result Image) → Community → List ℕ → List StorageCall
upload_call kind none c prefix = []
upload_call kind (some r) c prefix = upload_image (prefix ++ c.slug ++ codes kind) ∷ []

abbrev pub find_by_id : String → List Community → Option Community
find_by_id i [] = none
find_by_id i (c ∷ cs) = if str_eq c.id i then some c else find_by_id i cs

-- The slug of another document of the unique index.
abbrev pub slug_of_other : String → Option (List ℕ) → List Community → Bool
slug_of_other id none cs = false
slug_of_other id (some n) cs =
    any (λ c. not (str_eq c.id id) && same_text c.slug (generate_slug n none)) cs

-- `update` of the base repository, and the reply.
unfoldable pub update_at : Thrown → Updates → String → Option Community → Db → Result Community × Db
unfolding set_fields
update_at duplicate updates id none db = (err (refused not_found_error "Community not found"), db)
update_at duplicate updates id (some old) db =
    if slug_of_other id (new_name updates.name) db.communities
    then (err (app (handle_mongo_error duplicate)), db)
    else (ok (set_fields updates old), update_community id (set_fields updates) db)

unfoldable pub update_from :
    Thrown → Updates → Result Community → Db → Result Community × List StorageCall × Db
unfolding update_at
update_from duplicate updates (err e) db = (err e, [], db)
update_from duplicate updates (ok c) db =
    let (result, after) = update_at duplicate updates c.id (find_by_id c.id db.communities) db in
    (
      result,
      upload_call "-avatar" updates.avatar c (codes "community-")
          ++ upload_call "-cover" updates.cover_photo c (codes "community-"),
      after,
    )

-- `execute` of the update, which is not a transaction.
unfoldable pub update :
    Thrown → String → String → Updates → Db → Db → Result Community × List StorageCall × Db
unfolding update_from prepare_update
update duplicate community user updates before db =
    update_from duplicate updates (prepare_update community user updates before).0 db
