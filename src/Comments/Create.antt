-- ===== src/Comments/Create.antt =====
-- `CreateCommentCommandHandler` of
-- backend/src/application/commands/comments/createComment/create-comment.handler.ts. The names and the
-- pictures of the actor in a notification, the log, and the context of errors are left out.
use Prim.Native.String.{◌++◌ as append}
use image_app.Common.{
  ℕ, suc, String, Bool, true, false, not, ◌&&◌, ◌||◌, Option, none, some, List, [], ◌∷◌, ◌++◌, any,
  length, str_eq, leb, ltb, ◌==◌, if◌then◌else◌,
}
use image_app.Common.Counters.{pos, add_one}
use image_app.Common.Text.{codes, lower, trim}
use image_app.Errors.{
  Thrown, app, validation_error, not_found_error, internal_server_error, error_internal, wrap_error,
  handle_mongo_error, no_options, Result, ok, err,
}
use image_app.Exec.{Exec, pure, throw, gets, modify, throw_if, ◌>>=◌, ◌>>◌}
use image_app.Comments.{
  User, Owner, populated, reference, missing, Post, Comment, commented, replied, mentioned, comment,
  Event, notification, interacted, Db, Work, find_user, find_user_by_id, find_post, find_comment,
  count_replies, count_comments, set_comments, update_comment, update_post, queue, queue_all,
  shorten, refused, finish,
}

-- `parent_id` is empty for a comment that answers none.
pub record Command : Type 0 where
  pub user : String
  pub post : String
  pub content : List ℕ
  pub parent_id : String

-- `@([a-zA-Z0-9._]+)`: the names that follow an @, with the part of one that was read so far.
abbrev pub is_handle_char : ℕ → Bool
is_handle_char c =
    (leb b'a' c && leb c b'z')
    || (leb b'A' c && leb c b'Z')
    || (leb b'0' c && leb c b'9')
    || c == b'.'
    || c == b'_'

abbrev emit : Option (List ℕ) → List (List ℕ)
emit none = []
emit (some []) = []
emit (some (c ∷ cs)) = (c ∷ cs) ∷ []

abbrev begin : ℕ → Option (List ℕ)
begin c = if c == b'@' then some [] else none

abbrev pub mentions_from : Option (List ℕ) → List ℕ → List (List ℕ)
mentions_from part [] = emit part
mentions_from none (c ∷ cs) = mentions_from (begin c) cs
mentions_from (some name) (c ∷ cs) =
    if is_handle_char c
    then mentions_from (some (name ++ c ∷ [])) cs
    else emit (some name) ++ mentions_from (begin c) cs

abbrev same_text : List ℕ → List ℕ → Bool
same_text [] [] = true
same_text (x ∷ xs) (y ∷ ys) = (x == y) && same_text xs ys
same_text _ _ = false

-- `findUsersByHandles`
abbrev pub find_users_by_handles : List (List ℕ) → List User → List User
find_users_by_handles handles [] = []
find_users_by_handles handles (u ∷ us) =
    if any (λ h. same_text (lower (trim h)) u.handle_normalized) handles
    then u ∷ find_users_by_handles handles us
    else find_users_by_handles handles us

-- `postOwnerId`: of an owner that is not populated, the handler takes the reference itself.
abbrev pub post_owner_id : Owner → String
post_owner_id (populated id public_id) = public_id
post_owner_id (reference id) = id
post_owner_id missing = ""

abbrev post_preview : Post → List ℕ
post_preview p = elim p.body [
  | [] ↦ if p.has_image then codes "[Image post]" else codes "[Post]"
  | c ∷ cs ↦ shorten (c ∷ cs)
]

abbrev public_id_of : Option User → String
public_id_of none = ""
public_id_of (some u) = u.public_id

-- The owner of the comment that is answered.
abbrev pub parent_owner : Option Comment → List User → String
parent_owner none users = ""
parent_owner (some c) users = elim c.user [
  | none ↦ ""
  | some i ↦ if str_eq i "" then "" else public_id_of (find_user_by_id i users)
]

-- The notifications, in order: the post's owner, the owner of the comment that is answered, and the
-- users who are mentioned.
abbrev pub owner_notice : Command → String → Post → List Event
owner_notice cmd owner post =
    if not (str_eq owner "") && not (str_eq owner cmd.user)
    then notification owner commented cmd.user cmd.post (post_preview post) ∷ []
    else []

abbrev pub reply_notice : Command → String → String → List ℕ → List Event
reply_notice cmd owner parent content =
    if not (str_eq parent "") && (not (str_eq parent cmd.user) && not (str_eq parent owner))
    then notification parent replied cmd.user cmd.post (shorten content) ∷ []
    else []

abbrev pub mention_notices : Command → String → List ℕ → List User → List Event
mention_notices cmd owner content [] = []
mention_notices cmd owner content (u ∷ us) =
    if str_eq u.public_id cmd.user || str_eq u.public_id owner
    then mention_notices cmd owner content us
    else notification u.public_id mentioned cmd.user cmd.post (shorten content)
      ∷ mention_notices cmd owner content us

unfoldable pub notices : Command → String → Post → Option Comment → List ℕ → List User → List Event
notices cmd owner post parent content users =
    owner_notice cmd owner post
    ++ (reply_notice cmd owner (parent_owner parent users) content
        ++ mention_notices cmd owner content
            (find_users_by_handles (mentions_from none content) users))

-- What the handler has when its transaction starts.
pub record Prepared : Type 0 where
  pub content : List ℕ
  pub user : User
  pub post : Post
  pub parent : Option Comment

abbrev pub parent_id : Option Comment → Option String
parent_id none = none
parent_id (some c) = some c.id

abbrev pub depth_under : Option Comment → ℕ
depth_under none = 0
depth_under (some c) = suc c.depth

abbrev pub new_comment : String → Prepared → Comment
new_comment id p = record {
  id = id;
  content = trim p.content;
  post = p.post.id;
  parent = parent_id p.parent;
  user = some p.user.id;
  reply_count = pos 0;
  depth = depth_under p.parent;
  likes_count = pos 0;
  deleted = none;
}

-- `create`: the schema trims the content, and requires it. `invalid` is what it throws.
abbrev pub add_with : Thrown → Comment → List ℕ → Exec Work (Unit {0})
add_with invalid c [] w = throw (app (handle_mongo_error invalid)) w
add_with invalid c (x ∷ xs) w = (ok tt, set_comments (λ cs. c ∷ cs) w)

unfoldable pub add_comment : Thrown → Comment → Exec Work (Unit {0})
add_comment invalid c w = add_with invalid c c.content w

abbrev pub count_parent : Option Comment → Work → Work
count_parent none w = w
count_parent (some c) w = update_comment c.id (count_replies add_one) w

-- The work of the transaction.
unfoldable pub create_work : Thrown → String → Command → Prepared → Exec Work (Unit {0})
unfolding add_comment
create_work invalid id cmd p = do
  add_comment invalid (new_comment id p)
  modify (update_post p.post.id (count_comments add_one))
  modify (count_parent p.parent)
  users ← gets (λ w. w.db.users)
  modify (queue_all (notices cmd (post_owner_id p.post.owner) p.post p.parent p.content users))
  modify (
      queue (interacted cmd.user comment p.post.public_id p.post.tags (post_owner_id p.post.owner)))

abbrev pub no_user : Command → Thrown
no_user cmd = refused not_found_error (append "User with publicId " (append cmd.user " not found"))

abbrev pub no_post : Command → Thrown
no_post cmd = refused not_found_error (append "Post with publicId " (append cmd.post " not found"))

abbrev found : {A : Type 0} → Option A → Thrown → Exec Db A
found (some x) e = pure x
found none e = throw e

-- The comment that is answered, which must be one of the post.
unfoldable pub read_parent : String → Post → Exec Db (Option Comment)
read_parent id post db =
    if str_eq id ""
    then (ok none, db)
    else (do
      c ← found (find_comment id db.comments) (refused not_found_error "Parent comment not found")
      throw_if (not (str_eq c.post post.id))
          (refused validation_error "Parent comment does not belong to the same post")
      pure (some c))
        db

unfoldable pub prepare : Command → List ℕ → Exec Db Prepared
unfolding read_parent
prepare cmd safe = do
  db ← gets (λ db. db)
  user ← found (find_user cmd.user db.users) (no_user cmd)
  post ← found (find_post cmd.post db.posts) (no_post cmd)
  parent ← read_parent cmd.parent_id post
  pure (record { content = safe; user = user; post = post; parent = parent })

unfoldable pub transact :
    Thrown → String → Command → Prepared → Db → Result (Unit {0}) × List Event × Db
unfolding create_work
transact invalid id cmd p db =
    finish db (create_work invalid id cmd p (record { db = db; queued = [] }))

abbrev pub wrapped : {A : Type 0} → Thrown → Result A
wrapped e = err (app (wrap_error e internal_server_error no_options))

-- The comment that is returned is read again.
abbrev pub reply : Result (Unit {0}) → Option Comment → Result Comment
reply (err e) c = wrapped e
reply (ok u) none = wrapped (refused error_internal "Failed to retrieve created comment")
reply (ok u) (some c) = ok c

unfoldable pub perform :
    Thrown → String → Command → Result Prepared → Db → Result Comment × List Event × Db
unfolding transact
perform invalid id cmd (err e) db = (wrapped e, [], db)
perform invalid id cmd (ok p) db =
    let (result, events, after) = transact invalid id cmd p db in
    (reply result (find_comment id after.comments), events, after)

unfoldable pub execute_checked :
    Thrown → String → Command → Result (List ℕ) → Db → Db → Result Comment × List Event × Db
unfolding perform prepare
execute_checked invalid id cmd (err e) before db = (err e, [], db)
execute_checked invalid id cmd (ok safe) before db =
    perform invalid id cmd (prepare cmd safe before).0 db

-- `valid_id` is `isValidPublicId`, `sanitize_html` strips a text of its markup.
module _ (valid_id : String → Bool) (sanitize_html : List ℕ → List ℕ) where
  -- The tests before anything is read: the content that is safe.
  unfoldable pub check_command : Command → Result (List ℕ)
  check_command cmd =
      let safe = sanitize_html (trim cmd.content) in
      if not (valid_id cmd.post)
      then err (refused validation_error "Invalid postPublicId format")
      else if length (trim cmd.content) == 0
      then err (refused validation_error "Comment content cannot be empty")
      else if length safe == 0
      then err (refused validation_error "Comment content empty after sanitization")
      else if ltb 280 (length safe)
      then err (refused validation_error "Comment cannot exceed 280 characters")
      else ok safe

  -- `execute`, with the id that the new document gets, from reads that may be out of date.
  unfoldable pub execute : Thrown → String → Command → Db → Db → Result Comment × List Event × Db
  unfolding execute_checked check_command
  execute invalid id cmd before db = execute_checked invalid id cmd (check_command cmd) before db
