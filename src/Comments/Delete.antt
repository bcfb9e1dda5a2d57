-- ===== src/Comments/Delete.antt =====
-- `DeleteCommentCommandHandler` of
-- backend/src/application/commands/comments/createComment/delete-comment.handler.ts.
use Prim.Native.String.{◌++◌ as append}
use image_app.Common.{
  ℕ, String, Bool, true, false, not, ◌&&◌, ◌||◌, Option, none, some, List, [], str_eq,
  if◌then◌else◌,
}
use image_app.Common.Counters.{pos, minus_one}
use image_app.Common.Text.{codes}
use image_app.Errors.{
  Thrown, app, validation_error, not_found_error, forbidden_error, internal_server_error,
  wrap_error, no_options, Result, ok, err,
}
use image_app.Exec.{Exec, pure, throw, gets, modify, throw_if, ◌>>=◌, ◌>>◌}
use image_app.Comments.{
  User, Owner, populated, reference, missing, Post, DeletedBy, by_user, by_admin, Comment,
  comment_deleted, Event, interacted, Db, Work, find_user, find_user_by_id, find_post,
  find_post_by_id, find_comment, remove_comment, has_replies, count_replies, count_comments,
  set_comments, update_comment, update_post, queue, refused, finish,
}

abbrev found : {A : Type 0} → Option A → Thrown → Exec Db A
found (some x) e = pure x
found none e = throw e

-- `hydratedPost ?? post`
abbrev pub hydrated : Option Post → Post → Post
hydrated none p = p
hydrated (some q) p = q

abbrev pub owner_internal_id : Owner → String
owner_internal_id (populated id public_id) = id
owner_internal_id (reference id) = id
owner_internal_id missing = ""

abbrev owner_public_id : Owner → String
owner_public_id (populated id public_id) = public_id
owner_public_id _ = ""

abbrev public_id_of : Option User → String
public_id_of none = ""
public_id_of (some u) = u.public_id

-- `postOwnerId`
abbrev pub owner_of : Owner → List User → String
owner_of o users =
    if str_eq (owner_public_id o) "" && not (str_eq (owner_internal_id o) "")
    then public_id_of (find_user_by_id (owner_internal_id o) users)
    else owner_public_id o

-- `comment.userId?.toString() === user.id`
abbrev pub is_by : Option String → String → Bool
is_by none u = false
is_by (some i) u = str_eq i u

abbrev pub may_delete : Comment → Post → User → Bool
may_delete c p u = is_by c.user u.id || (str_eq (owner_internal_id p.owner) u.id || u.is_admin)

abbrev pub deleted_by : Comment → User → DeletedBy
deleted_by c u = if is_by c.user u.id && not u.is_admin then by_user else by_admin

abbrev pub is_deleted : Comment → Bool
is_deleted c = elim c.deleted [ none ↦ false | some d ↦ true ]

abbrev pub no_user : String → Thrown
no_user p = refused not_found_error (append "User with publicId " (append p " not found"))

-- What the handler has when its transaction starts.
pub record Prepared : Type 0 where
  pub subject : Comment
  pub by : DeletedBy
  pub answered : Bool
  pub post : Post
  pub owner : String

unfoldable pub prepare : String → String → Exec Db Prepared
prepare id user_public_id = do
  db ← gets (λ db. db)
  user ← found (find_user user_public_id db.users) (no_user user_public_id)
  c ← found (find_comment id db.comments) (refused not_found_error "Comment not found")
  throw_if (is_deleted c) (refused validation_error "Comment has already been deleted")
  p ← found (find_post_by_id c.post db.posts) (refused not_found_error "Associated post not found")
  throw_if (not (may_delete c (hydrated (find_post p.public_id db.posts) p) user))
      (refused forbidden_error "You can only delete your own comments or comments on your posts")
  pure (record {
    subject = c;
    by = deleted_by c user;
    answered = has_replies id db.comments;
    post = hydrated (find_post p.public_id db.posts) p;
    owner = owner_of (hydrated (find_post p.public_id db.posts) p).owner db.users;
  })

abbrev pub notice_of : DeletedBy → List ℕ
notice_of by_user = codes "[deleted by user]"
notice_of by_admin = codes "[removed by moderator]"

-- `softDeleteComment`
abbrev pub blank : DeletedBy → Comment → Comment
blank by c = record c {
  deleted = some by;
  user = none;
  content = notice_of by;
  likes_count = pos 0;
}

abbrev pub uncount_parent : Option String → Work → Work
uncount_parent none w = w
uncount_parent (some i) w = update_comment i (count_replies minus_one) w

unfoldable pub soft_delete : String → Prepared → Exec Work (Unit {0})
soft_delete id p = modify (update_comment id (blank p.by))

unfoldable pub hard_delete : String → Prepared → Exec Work (Unit {0})
hard_delete id p = do
  modify (set_comments (remove_comment id))
  modify (update_post p.subject.post (count_comments minus_one))
  modify (uncount_parent p.subject.parent)

-- The work of the transaction.
unfoldable pub delete_work : String → String → Prepared → Exec Work (Unit {0})
unfolding soft_delete hard_delete
delete_work id user p = do
  (if p.answered then soft_delete id p else hard_delete id p)
  modify (queue (interacted user comment_deleted p.post.public_id p.post.tags p.owner))

abbrev pub wrapped : Result (Unit {0}) → Result (Unit {0})
wrapped (ok u) = ok u
wrapped (err e) = err (app (wrap_error e internal_server_error no_options))

unfoldable pub perform :
    String → String → Result Prepared → Db → Result (Unit {0}) × List Event × Db
unfolding delete_work
perform id user (err e) db = (wrapped (err e), [], db)
perform id user (ok p) db =
    let (result, events, after) =
      finish db (delete_work id user p (record { db = db; queued = [] })) in
    (wrapped result, events, after)

-- `execute`, from reads that may be out of date.
unfoldable pub execute : String → String → Db → Db → Result (Unit {0}) × List Event × Db
unfolding perform prepare
execute id user before db = perform id user (prepare id user before).0 db
