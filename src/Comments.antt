-- ===== src/Comments.antt =====
-- Comments of posts: the collections that backend/src/repositories/comment.repository.ts,
-- commentLike.repository.ts, post.repository.ts and userAction.repository.ts write for the commands of
-- backend/src/application/commands/comments. Texts are lists of UTF-16 code units.
pub mod Create
pub mod Delete
pub mod Likes
pub mod Threads
pub mod Notices
pub mod Laws
pub mod Commands
pub mod Asked
pub mod Creation
pub mod Cleared
pub mod Deletion
pub mod Runs
mod Tests
use image_app.Common.{
  ℕ, ◌+◌, String, Bool, true, false, Option, none, some, List, [], ◌∷◌, ◌++◌, map, take, length,
  str_eq, ltb, if◌then◌else◌,
}
use image_app.Common.Counters.{ℤ, pos}
use image_app.Common.Pairs.{one_if}
use image_app.Common.Text.{codes}
use image_app.Errors.{Thrown, ErrorType, app, create_error, no_options, Result, ok, err}
use image_app.Exec.{Exec}

pub record User : Type 0 where
  pub id : String
  pub public_id : String
  pub handle_normalized : List ℕ
  pub is_admin : Bool

-- The owner of a post, as a query returns it: populated, with its id and its public id, a
-- reference, or missing.
pub data Owner : Type 0 where
  populated : String → String → Owner
  reference : String → Owner
  missing : Owner

pub record Post : Type 0 where
  pub id : String
  pub public_id : String
  pub owner : Owner
  pub tags : List String
  pub body : List ℕ
  pub has_image : Bool
  pub comments_count : ℤ

pub data DeletedBy : Type 0 where
  by_user by_admin : DeletedBy

pub record Comment : Type 0 where
  pub id : String
  pub content : List ℕ
  pub post : String
  pub parent : Option String
  pub user : Option String
  pub reply_count : ℤ
  pub depth : ℕ
  pub likes_count : ℤ
  pub deleted : Option DeletedBy

pub data Notice : Type 0 where
  commented replied mentioned liked_comment : Notice

pub data Interaction : Type 0 where
  comment comment_deleted : Interaction

-- A notification has its receiver, its kind, its actor, its target and a preview.
pub data Event : Type 0 where
  notification : String → Notice → String → String → List ℕ → Event
  interacted : String → Interaction → String → List String → String → Event

-- `likes` has the comment and the user of each document of the collection.
pub record Db : Type 0 where
  pub users : List User
  pub posts : List Post
  pub comments : List Comment
  pub likes : List (String × String)
  pub actions : List (String × Bool × String)

-- A transaction at work: the documents as it sees them, and the events that it has queued.
pub record Work : Type 0 where
  pub db : Db
  pub queued : List Event

abbrev pub find_user : String → List User → Option User
find_user p [] = none
find_user p (u ∷ us) = if str_eq u.public_id p then some u else find_user p us

abbrev pub find_user_by_id : String → List User → Option User
find_user_by_id i [] = none
find_user_by_id i (u ∷ us) = if str_eq u.id i then some u else find_user_by_id i us

abbrev pub find_post : String → List Post → Option Post
find_post p [] = none
find_post p (x ∷ xs) = if str_eq x.public_id p then some x else find_post p xs

abbrev pub find_post_by_id : String → List Post → Option Post
find_post_by_id i [] = none
find_post_by_id i (x ∷ xs) = if str_eq x.id i then some x else find_post_by_id i xs

abbrev pub find_comment : String → List Comment → Option Comment
find_comment i [] = none
find_comment i (c ∷ cs) = if str_eq c.id i then some c else find_comment i cs

-- `findByIdAndDelete`
abbrev pub remove_comment : String → List Comment → List Comment
remove_comment i [] = []
remove_comment i (c ∷ cs) = if str_eq c.id i then cs else c ∷ remove_comment i cs

abbrev pub answers : Option String → String → Bool
answers none i = false
answers (some p) i = str_eq p i

-- How many comments answer a comment, and how many a post has.
abbrev pub replies : String → List Comment → ℕ
replies i [] = 0
replies i (c ∷ cs) = one_if (answers c.parent i) + replies i cs

abbrev pub on_post : String → List Comment → ℕ
on_post p [] = 0
on_post p (c ∷ cs) = one_if (str_eq c.post p) + on_post p cs

abbrev pub has_replies : String → List Comment → Bool
has_replies i cs = ltb 0 (replies i cs)

-- Updates of the documents with an id: `updateReplyCount`, `updateLikesCount`, `updateCommentCount`.
abbrev pub count_replies : (ℤ → ℤ) → Comment → Comment
count_replies step c = record c { reply_count = step c.reply_count }

abbrev pub count_likes : (ℤ → ℤ) → Comment → Comment
count_likes step c = record c { likes_count = step c.likes_count }

abbrev pub count_comments : (ℤ → ℤ) → Post → Post
count_comments step p = record p { comments_count = step p.comments_count }

abbrev pub set_comments : (List Comment → List Comment) → Work → Work
set_comments f w = record w { db = record w.db { comments = f w.db.comments } }

abbrev pub update_comment : String → (Comment → Comment) → Work → Work
update_comment i f = set_comments (map (λ c. if str_eq c.id i then f c else c))

abbrev pub update_post : String → (Post → Post) → Work → Work
update_post i f w = record w {
  db = record w.db { posts = map (λ p. if str_eq p.id i then f p else p) w.db.posts };
}

abbrev pub queue : Event → Work → Work
queue e w = record w { queued = w.queued ++ e ∷ [] }

abbrev pub queue_all : List Event → Work → Work
queue_all es w = record w { queued = w.queued ++ es }

-- `text.substring(0, 50) + (text.length > 50 ? "..." : "")`
abbrev pub shorten : List ℕ → List ℕ
shorten text = take 50 text ++ (if ltb 50 (length text) then codes "..." else [])

abbrev pub refused : ErrorType → String → Thrown
refused t m = app (create_error t m no_options)

-- The end of a transaction: one that throws changes nothing, and its events are dropped.
abbrev pub finish : {A : Type 0} → Db → Result A × Work → Result A × List Event × Db
finish before (ok x, w) = (ok x, w.queued, w.db)
finish before (err e, w) = (err e, [], before)
