-- ===== src/Likes.antt =====
-- Likes of posts: `LikeActionByPublicIdCommandHandler` of
-- backend/src/application/commands/users/likeActionByPublicId, on the collections that
-- backend/src/repositories/postLike.repository.ts and its neighbours write. A transaction takes
-- place at once or not at all; the log, and the preview in a notification, are left out.
pub mod Laws
mod Tests
use Prim.Native.String.{◌++◌ as append}
use image_app.Common.{
  ℕ, zero, suc, ◌+◌, String, Bool, true, false, not, ◌&&◌, Option, none, some, List, [], ◌∷◌, ◌++◌,
  map, any, str_eq, if◌then◌else◌,
}
use image_app.Common.Counters.{ℤ, pos, negsuc, add_one, minus_one}
use image_app.Common.Pairs.{has_pair, remove_pair}
use image_app.Errors.{
  Thrown, app, create_error, path_error, conflict_error, not_found_error, internal_server_error,
  wrap_error, no_options, ErrorOptions, Result, ok, err,
}
use image_app.Exec.{Exec, pure, throw, gets, modify, ◌>>=◌, ◌>>◌}

pub record User : Type 0 where
  pub id : String
  pub public_id : String

-- The owner of a post, as the query returns it: populated, a reference, or missing (undefined; of a
-- null, at which the handler throws, nothing is modelled).
pub data Owner : Type 0 where
  populated : String → Owner
  reference : String → Owner
  missing : Owner

pub record Post : Type 0 where
  pub id : String
  pub public_id : String
  pub owner : Owner
  pub tags : List String
  pub likes_count : ℤ

pub data Action : Type 0 where
  like unlike : Action

pub data Event : Type 0 where
  interacted : String → Action → String → List String → String → Event
  notification : String → String → String → Event

-- `likes` has the post and the user of each document of the collection.
pub record Db : Type 0 where
  pub users : List User
  pub posts : List Post
  pub likes : List (String × String)
  pub actions : List (String × Action × String)

-- A transaction at work: the documents as it sees them, and the events that it has queued.
pub record Work : Type 0 where
  pub db : Db
  pub queued : List Event

abbrev find_user : String → List User → Option User
find_user p [] = none
find_user p (u ∷ us) = if str_eq u.public_id p then some u else find_user p us

abbrev find_user_by_id : String → List User → Option User
find_user_by_id i [] = none
find_user_by_id i (u ∷ us) = if str_eq u.id i then some u else find_user_by_id i us

abbrev pub find_post : String → List Post → Option Post
find_post p [] = none
find_post p (x ∷ xs) = if str_eq x.public_id p then some x else find_post p xs

abbrev pub has_user_liked : String → String → List (String × String) → Bool
has_user_liked post user likes = has_pair post user likes

-- `create` under the unique index on post and user, and `deleteOne`: whether they changed anything.
unfoldable pub add_like : String → String → List (String × String) → Bool × List (String × String)
add_like post user likes =
    if has_user_liked post user likes then (false, likes) else (true, (post, user) ∷ likes)

abbrev pub remove_like : String → String → List (String × String) → Bool × List (String × String)
remove_like post user likes = remove_pair post user likes

-- `$inc` of the counter of a post, if the post is there.
abbrev count_at : String → (ℤ → ℤ) → Post → Post
count_at post step p = if str_eq p.id post then record p { likes_count = step p.likes_count } else p

unfoldable pub update_like_count : String → (ℤ → ℤ) → List Post → List Post
update_like_count post step posts = map (count_at post step) posts

abbrev pub set_likes : List (String × String) → Work → Work
set_likes ls w = record w { db = record w.db { likes = ls } }

abbrev pub queue : Event → Work → Work
queue e w = record w { queued = w.queued ++ e ∷ [] }

-- `updateLikeCount`, `logAction` and `queueTransactional`, in a transaction.
abbrev pub count : String → (ℤ → ℤ) → Work → Work
count post step w = record w { db = record w.db { posts = update_like_count post step w.db.posts } }

abbrev pub log_action : String → Action → String → Work → Work
log_action user a post w = record w {
  db = record w.db { actions = w.db.actions ++ (user, a, post) ∷ [] };
}

-- What `handleLike` and `handleUnlike` do once they know whether the like changed.
liked : Bool → String → String → Post → String → Exec Work (Unit {0})
liked false actor user post owner =
    throw (app (create_error conflict_error "like already exists for user and post" no_options))
liked true actor user post owner = do
  modify (count post.id add_one)
  modify (log_action user like post.id)
  (if not (str_eq owner "") && not (str_eq owner actor)
      then modify (queue (notification owner actor post.public_id))
      else pure tt)

unliked : Bool → String → String → Exec Work (Unit {0})
unliked false user post =
    throw (app (create_error not_found_error "like does not exist for user and post" no_options))
unliked true user post = do modify (log_action user unlike post); modify (count post minus_one)

unfoldable pub handle_like : String → String → Post → String → Exec Work (Unit {0})
unfolding add_like liked
handle_like actor user post owner w =
    let (added, ls) = add_like post.id user w.db.likes in
    liked added actor user post owner (set_likes ls w)

unfoldable pub handle_unlike : String → String → Exec Work (Unit {0})
unfolding unliked
handle_unlike user post w =
    let (removed, ls) = remove_like post user w.db.likes in
    unliked removed user post (set_likes ls w)

-- The work of the transaction.
unfoldable pub toggle : String → String → Post → String → Exec Work (Unit {0})
unfolding handle_like handle_unlike
toggle actor user post owner = do
  existing ← gets (λ w. has_user_liked post.id user w.db.likes)
  (if existing then handle_unlike user post.id else handle_like actor user post owner)
  modify
      (queue (interacted actor (if existing then unlike else like) post.public_id post.tags owner))

-- The end of a transaction: its result, the events whose handlers run, and the documents. One that
-- throws changes nothing, and its events are dropped.
abbrev pub finish : Db → Result (Unit {0}) × Work → Result (Unit {0}) × List Event × Db
finish before (ok u, w) = (ok u, w.queued, w.db)
finish before (err e, w) = (err e, [], before)

unfoldable pub transact : String → String → Post → String → Db → Result (Unit {0}) × List Event × Db
unfolding toggle
transact actor user post owner db =
    finish db (toggle actor user post owner (record { db = db; queued = [] }))

-- `postOwnerPublicId`
abbrev owner_public_id : Owner → List User → String
owner_public_id (populated p) users = p
owner_public_id (reference i) users = elim (find_user_by_id i users) [
  | some u ↦ u.public_id
  | none ↦ ""
]
owner_public_id missing users = ""

-- What the handler reads before the transaction: the id of the user, the post, and its owner.
pub record Prepared : Type 0 where
  pub user_id : String
  pub post : Post
  pub owner : String

abbrev path_refused : String → Result Prepared
path_refused m = err (app (create_error path_error m no_options))

abbrev not_found : String → String → String
not_found what p = append what (append p " not found")

prepare_post : String → Option Post → String → List User → Result Prepared
prepare_post wanted none user_id users = path_refused (not_found "Post with public ID " wanted)
prepare_post wanted (some post) user_id users =
    if str_eq post.id ""
    then path_refused (append "Post internal ID not found for public ID " wanted)
    else ok (record { user_id = user_id; post = post; owner = owner_public_id post.owner users })

prepare_user : String → String → Option User → Db → Result Prepared
unfolding prepare_post
prepare_user actor wanted none db = path_refused (not_found "User with public ID " actor)
prepare_user actor wanted (some user) db =
    if str_eq user.id ""
    then path_refused (append "User internal ID not found for public ID " actor)
    else prepare_post wanted (find_post wanted db.posts) user.id db.users

unfoldable pub prepare : String → String → Db → Result Prepared
unfolding prepare_user
prepare actor wanted db = prepare_user actor wanted (find_user actor db.users) db

-- The post that the handler returns is read again, after the commit.
unfoldable pub reply : String → Option Post → Result (Unit {0}) → Result Post
reply wanted updated (err e) = err (app (wrap_error e internal_server_error no_options))
reply wanted none (ok u) = err (
    app (
      create_error path_error (append (not_found "Post with public ID " wanted) " after update")
        no_options))
reply wanted (some post) (ok u) = ok post

-- `execute`, with nothing run between its reads and its transaction: the post that it returns or the
-- error, without its context; the events whose handlers run; and the documents.
perform : String → String → Result Prepared → Db → Result Post × List Event × Db
unfolding transact reply
perform actor wanted (err e) db =
    (err (app (wrap_error e internal_server_error no_options)), [], db)
perform actor wanted (ok p) db =
    let (result, events, after) = transact actor p.user_id p.post p.owner db in
    (reply wanted (find_post wanted after.posts) result, events, after)

unfoldable pub execute : String → String → Db → Result Post × List Event × Db
unfolding prepare perform
execute actor wanted db = perform actor wanted (prepare actor wanted db) db
