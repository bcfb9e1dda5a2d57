-- ===== src/Communities.antt =====
-- Communities and their members: the collections that backend/src/repositories/community.repository.ts,
-- communityMember.repository.ts and user.repository.ts write for the commands of
-- backend/src/application/commands/community. Slug has the slugs, Handlers the commands.
pub mod Slug
pub mod Handlers
pub mod Settings
pub mod Laws
pub mod Commands
pub mod Creation
pub mod Roles
pub mod Kicks
pub mod Runs
mod Tests
use image_app.Common.{
  ℕ, String, Bool, true, false, not, ◌&&◌, ◌||◌, Option, none, some, List, [], ◌∷◌, map, any, take,
  str_eq, ◌==◌, if◌then◌else◌,
}
use image_app.Common.Counters.{ℤ, pos}
use image_app.Common.Pairs.{has_pair}
use image_app.Errors.{Thrown, app, handle_mongo_error, ok}
use image_app.Exec.{Exec, throw}

pub data Role : Type 0 where
  admin moderator member : Role

-- An entry of `joinedCommunities`. Names and slugs are texts, as their code points.
pub record Entry : Type 0 where
  pub community : String
  pub name : List ℕ
  pub slug : List ℕ

pub record User : Type 0 where
  pub id : String
  pub public_id : String
  pub joined : List Entry

pub record Community : Type 0 where
  pub id : String
  pub public_id : String
  pub name : List ℕ
  pub slug : List ℕ
  pub description : String
  pub avatar : String
  pub cover_photo : String
  pub creator : String
  pub member_count : ℤ
  pub post_count : ℤ

pub record Member : Type 0 where
  pub community : String
  pub user : String
  pub role : Role

pub record Db : Type 0 where
  pub users : List User
  pub communities : List Community
  pub members : List Member

abbrev pub same_text : List ℕ → List ℕ → Bool
same_text [] [] = true
same_text (x ∷ xs) (y ∷ ys) = (x == y) && same_text xs ys
same_text _ _ = false

abbrev pub find_user : String → List User → Option User
find_user p [] = none
find_user p (u ∷ us) = if str_eq u.public_id p then some u else find_user p us

abbrev pub find_by_public_id : String → List Community → Option Community
find_by_public_id p [] = none
find_by_public_id p (c ∷ cs) = if str_eq c.public_id p then some c else find_by_public_id p cs

abbrev pub find_by_slug : List ℕ → List Community → Option Community
find_by_slug s [] = none
find_by_slug s (c ∷ cs) = if same_text c.slug s then some c else find_by_slug s cs

-- `findByCommunityAndUser`
abbrev pub is_member : String → String → Member → Bool
is_member c u m = str_eq m.community c && str_eq m.user u

abbrev pub find_member : String → String → List Member → Option Member
find_member c u [] = none
find_member c u (m ∷ ms) = if is_member c u m then some m else find_member c u ms

-- `deleteByCommunityAndUser`, which says nothing of whether it found a document, and
-- `deleteByCommunityId`.
abbrev pub delete_member : String → String → List Member → List Member
delete_member c u [] = []
delete_member c u (m ∷ ms) = if is_member c u m then ms else m ∷ delete_member c u ms

abbrev pub delete_members : String → List Member → List Member
delete_members c [] = []
delete_members c (m ∷ ms) =
    if str_eq m.community c then delete_members c ms else m ∷ delete_members c ms

-- `delete` of a community. No two have one `_id`.
abbrev pub delete_community : String → List Community → List Community
delete_community c [] = []
delete_community c (x ∷ xs) =
    if str_eq x.id c then delete_community c xs else x ∷ delete_community c xs

-- An update of the community, or of the user, with this id, if there is one.
abbrev pub at_community : String → (Community → Community) → Community → Community
at_community c f x = if str_eq x.id c then f x else x

abbrev pub at_user : String → (User → User) → User → User
at_user u f x = if str_eq x.id u then f x else x

-- `$inc` of `stats.memberCount`
abbrev pub count_member : (ℤ → ℤ) → Community → Community
count_member step x = record x { member_count = step x.member_count }

-- `$push` at position 0 with `$slice: 10`, and `$pull`, of `joinedCommunities`.
abbrev pub push_joined : Entry → User → User
push_joined e u = record u { joined = take 10 (e ∷ u.joined) }

abbrev pub without : String → List Entry → List Entry
without c [] = []
without c (e ∷ es) = if str_eq e.community c then without c es else e ∷ without c es

abbrev pub pull_joined : String → User → User
pull_joined c u = record u { joined = without c u.joined }

abbrev pub update_community : String → (Community → Community) → Db → Db
update_community c f db = record db { communities = map (at_community c f) db.communities }

abbrev pub update_user : String → (User → User) → Db → Db
update_user u f db = record db { users = map (at_user u f) db.users }

-- The community and the user of each document.
abbrev pub ids : List Member → List (String × String)
ids [] = []
ids (m ∷ ms) = (m.community, m.user) ∷ ids ms

-- `create` of a member, under the unique index on community and user, whose violation the driver
-- reports by `duplicate`.
unfoldable pub add_member : Thrown → Member → Exec Db (Unit {0})
add_member duplicate m db =
    if has_pair m.community m.user (ids db.members)
    then throw (app (handle_mongo_error duplicate)) db
    else (ok tt, record db { members = m ∷ db.members })

-- `create` of a community: its slug is required, and has a unique index. What the document model and
-- the driver then throw are `invalid` and `duplicate`.
abbrev pub has_slug : List ℕ → List Community → Bool
has_slug s cs = any (λ c. same_text c.slug s) cs

unfoldable pub add_community : Thrown → Thrown → Community → Exec Db (Unit {0})
add_community invalid duplicate c db =
    if same_text c.slug []
    then throw (app (handle_mongo_error invalid)) db
    else if has_slug c.slug db.communities
    then throw (app (handle_mongo_error duplicate)) db
    else (ok tt, record db { communities = c ∷ db.communities })
