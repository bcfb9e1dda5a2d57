-- ===== src/Comments/Likes.antt =====
-- `LikeCommentCommandHandler` of
-- backend/src/application/commands/comments/likeComment/like-comment.handler.ts, with the methods that it
-- calls of backend/src/repositories/commentLike.repository.ts.
pub mod Laws
use Prim.Native.String.{◌++◌ as append}
use image_app.Common.{
  ℕ, String, Bool, true, false, not, ◌&&◌, Option, none, some, List, [], ◌∷◌, ◌++◌, str_eq,
  if◌then◌else◌,
}
use image_app.Common.Counters.{ℤ, add_one, minus_one}
use image_app.Common.Pairs.{has_pair, remove_pair}
use image_app.Errors.{validation_error, not_found_error, conflict_error, Result, ok, err}
use image_app.Exec.{Exec, pure, throw, gets, modify, throw_if, ◌>>=◌, ◌>>◌}
use image_app.Comments.{
  User, Comment, liked_comment, Event, notification, Db, Work, find_user, find_user_by_id,
  find_comment, count_likes, update_comment, queue, shorten, refused, finish,
}

abbrev set_likes : List (String × String) → Work → Work
set_likes ls w = record w { db = record w.db { likes = ls } }

-- `logAction`, of a like or of an unlike.
abbrev log_action : String → Bool → String → Work → Work
log_action user liked id w = record w {
  db = record w.db { actions = w.db.actions ++ (user, liked, id) ∷ [] };
}

-- `addLike` under the unique index, and `removeLike`: whether they changed anything.
unfoldable pub add_like : String → String → Exec Work Bool
add_like id user w =
    if has_pair id user w.db.likes
    then (ok false, w)
    else (ok true, set_likes ((id, user) ∷ w.db.likes) w)

unfoldable pub remove_like : String → String → Exec Work Bool
remove_like id user w =
    let (removed, rest) = remove_pair id user w.db.likes in (ok removed, set_likes rest w)

unfoldable pub handle_like : String → String → Exec Work (Unit {0})
unfolding add_like
handle_like id user = do
  added ← add_like id user
  throw_if (not added) (refused conflict_error "like already exists for user and comment")
  modify (update_comment id (count_likes add_one))
  modify (log_action user true id)

unfoldable pub handle_unlike : String → String → Exec Work (Unit {0})
unfolding remove_like
handle_unlike id user = do
  removed ← remove_like id user
  throw_if (not removed) (refused not_found_error "like does not exist for user and comment")
  modify (update_comment id (count_likes minus_one))
  modify (log_action user false id)

-- `resolveCommentOwnerPublicId`
abbrev public_id_of : Option User → String
public_id_of none = ""
public_id_of (some u) = u.public_id

abbrev pub comment_owner : Option String → List User → String
comment_owner none users = ""
comment_owner (some i) users = if str_eq i "" then "" else public_id_of (find_user_by_id i users)

-- The comment, the user and the public id of the owner of the comment, as they were read.
pub record Prepared : Type 0 where
  pub user : User
  pub subject : Comment
  pub owner : String

abbrev found : {A : Type 0} → Option A → String → Exec Db A
found (some x) m = pure x
found none m = throw (refused not_found_error m)

unfoldable pub prepare : String → String → Exec Db Prepared
prepare id user_public_id = do
  db ← gets (λ db. db)
  user ←
      found (find_user user_public_id db.users)
        (append "User with publicId " (append user_public_id " not found"))
  c ← found (find_comment id db.comments) "Comment not found"
  pure (record { user = user; subject = c; owner = comment_owner c.user db.users })

abbrev notify : String → Prepared → Work → Work
notify id p w =
    if not (str_eq p.owner "") && not (str_eq p.owner p.user.public_id)
    then queue (notification p.owner liked_comment p.user.public_id id (shorten p.subject.content))
        w
    else w

-- The work of the transaction: whether the comment is liked after it.
unfoldable pub like_work : String → Prepared → Exec Work Bool
unfolding handle_like handle_unlike
like_work id p = do
  throw_if (str_eq p.user.id "") (refused validation_error "User internal id missing")
  already_liked ← gets (λ w. has_pair id p.user.id w.db.likes)
  (if already_liked
      then (do handle_unlike id p.user.id; pure false)
      else (do handle_like id p.user.id; modify (notify id p); pure true))

-- Whether the comment is liked, and the number of likes, read after the transaction.
abbrev pub reply : Result Bool → Option Comment → Result (Bool × ℤ)
reply (err e) c = err e
reply (ok liked) none = err (refused not_found_error "Comment not found after like update")
reply (ok liked) (some c) = ok (liked, c.likes_count)

unfoldable pub perform : String → Result Prepared → Db → Result (Bool × ℤ) × List Event × Db
unfolding like_work
perform id (err e) db = (err e, [], db)
perform id (ok p) db =
    let (result, events, after) = finish db (like_work id p (record { db = db; queued = [] })) in
    (reply result (find_comment id after.comments), events, after)

unfoldable pub execute : String → String → Db → Db → Result (Bool × ℤ) × List Event × Db
unfolding perform prepare
execute id user before db = perform id (prepare id user before).0 db
