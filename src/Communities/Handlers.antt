-- ===== src/Communities/Handlers.antt =====
-- The handlers of backend/src/application/commands/community. Each reads documents before its
-- transaction, which may be older than those that the transaction works on. The temporary file of an
-- upload, and the log, are left out.
use image_app.Common.{String, Bool, true, false, not, Option, none, some}
use image_app.Common.Counters.{add_one, minus_one}
use image_app.Errors.{
  Thrown, app, ErrorType, validation_error, not_found_error, forbidden_error, message, create_error,
  no_options, Result, ok, err,
}
use image_app.Exec.{Exec, pure, throw, gets, modify, throw_if, ◌>>=◌, ◌>>◌}
use image_app.Communities.{
  Role, admin, member, Entry, User, Community, Member, Db, find_user, find_by_public_id,
  find_member, delete_member, delete_members, delete_community, count_member, push_joined,
  pull_joined, update_community, update_user, add_member,
}

abbrev pub refused : ErrorType → String → Thrown
refused t m = app (create_error t m no_options)

-- `if (!x) throw createError(t, m);` after a read.
abbrev found : {A : Type 0} → Option A → Thrown → Exec Db A
found (some x) e = pure x
found none e = throw e

abbrev look : {A : Type 0} → (Db → Option A) → ErrorType → String → Exec Db A
look f t m db = found (f db) (refused t m) db

abbrev pub user_or : String → String → Exec Db User
user_or p m = look (λ db. find_user p db.users) not_found_error m

abbrev pub community_or_404 : String → Exec Db Community
community_or_404 p =
    look (λ db. find_by_public_id p db.communities) not_found_error "Community not found"

-- `executeInTransaction`: work that throws changes nothing. `perform` runs it on what was read before.
abbrev pub finish : {A : Type 0} → Db → Result A × Db → Result A × Db
finish before (ok x, db) = (ok x, db)
finish before (err e, db) = (err e, before)

abbrev pub perform : {A B : Type 0} → Result A → (A → Exec Db B) → Db → Result B × Db
perform (err e) work db = (err e, db)
perform (ok p) work db = finish db (work p db)

abbrev pub entry_of : Community → Entry
entry_of c = record { community = c.id; name = c.name; slug = c.slug }

abbrev is_there : Option Member → Bool
is_there none = false
is_there (some m) = true

unfoldable pub prepare_join : String → String → Exec Db (User × Community)
prepare_join community user = do
  u ← user_or user "User not found"
  c ← community_or_404 community
  db ← gets (λ db. db)
  throw_if (is_there (find_member c.id u.id db.members))
      (refused validation_error "User is already a member of this community")
  pure (u, c)

unfoldable pub join_work : Thrown → User × Community → Exec Db (Unit {0})
join_work duplicate (u, c) = do
  add_member duplicate (record { community = c.id; user = u.id; role = member })
  modify (update_user u.id (push_joined (entry_of c)))
  modify (update_community c.id (count_member add_one))

-- `execute` of each handler, from what it has read in `before`.
unfoldable pub join : Thrown → String → String → Db → Db → Result (Unit {0}) × Db
unfolding prepare_join
join duplicate community user before db =
    perform (prepare_join community user before).0 (join_work duplicate) db

unfoldable pub prepare_leave : String → String → Exec Db (User × Community)
prepare_leave community user = do
  u ← user_or user "User not found"
  c ← community_or_404 community
  m ←
      look (λ db. find_member c.id u.id db.members) validation_error
        "User is not a member of this community"
  pure (u, c)

-- The work of `leave` and of `kick`.
unfoldable pub leave_work : User × Community → Exec Db (Unit {0})
leave_work (u, c) = do
  modify (λ db. record db { members = delete_member c.id u.id db.members })
  modify (update_user u.id (pull_joined c.id))
  modify (update_community c.id (count_member minus_one))

unfoldable pub leave : String → String → Db → Db → Result (Unit {0}) × Db
unfolding prepare_leave leave_work
leave community user before db = perform (prepare_leave community user before).0 leave_work db

abbrev pub is_admin : Role → Bool
is_admin admin = true
is_admin _ = false

abbrev pub is_staff : Role → Bool
is_staff member = false
is_staff _ = true

-- `member?.role` passes the test.
abbrev pub has_role : (Role → Bool) → Option Member → Bool
has_role test none = false
has_role test (some m) = test m.role

unfoldable pub prepare_kick : String → String → String → Exec Db (User × Community)
prepare_kick community actor target = do
  c ← community_or_404 community
  a ← user_or actor "Admin user not found"
  t ← user_or target "Target user not found"
  db ← gets (λ db. db)
  throw_if (not (has_role is_staff (find_member c.id a.id db.members)))
      (refused forbidden_error "Only admins or moderators can kick members")
  m ←
      look (λ db. find_member c.id t.id db.members) not_found_error
        "User is not a member of this community"
  throw_if (is_admin m.role) (refused forbidden_error "Cannot kick an admin")
  pure (t, c)

unfoldable pub kick : String → String → String → Db → Db → Result (Unit {0}) × Db
unfolding prepare_kick leave_work
kick community actor target before db =
    perform (prepare_kick community actor target before).0 leave_work db

-- The admin test of `delete` and `update`.
unfoldable pub prepare_admin : String → String → String → Exec Db Community
prepare_admin community user message = do
  c ← community_or_404 community
  u ← user_or user "User not found"
  db ← gets (λ db. db)
  throw_if (not (has_role is_admin (find_member c.id u.id db.members)))
      (refused forbidden_error message)
  pure c

unfoldable pub delete_work : Community → Exec Db (Unit {0})
delete_work c = do
  modify (λ db. record db { members = delete_members c.id db.members })
  modify (λ db. record db { communities = delete_community c.id db.communities })

unfoldable pub delete : String → String → Db → Db → Result (Unit {0}) × Db
unfolding prepare_admin delete_work
delete community user before db =
    perform (prepare_admin community user "Only community admins can delete the community" before).0
      delete_work db
