-- ===== src/Comments/Runs.antt =====
-- The documents that commands reach, one after the other.
use image_app.Common.{ℕ, ◌≡◌, String, Bool, List, [], All}
use image_app.Common.Counters.{pos}
use image_app.Errors.{Thrown}
use image_app.Comments.{User, Post, Db}
use image_app.Comments.Create
use image_app.Comments.Create.{Command}
use image_app.Comments.Delete
use image_app.Comments.Laws.{IsThreaded}
use image_app.Comments.Commands.{IsFresh}
use image_app.Comments.Creation.{Creates, execute-Creates, created}
use image_app.Comments.Deletion.{Deletes, execute-Deletes, deleted}

module _ (valid_id : String → Bool) (sanitize_html : List ℕ → List ℕ) where
  -- The documents that commands reach from posts without comments. A new comment gets an id that no
  -- comment has.
  pub data Reach : Db → Type 0 where
    start :
        (users : List User) (posts : List Post)
        → All (λ (p : Post). p.comments_count ≡ pos 0) posts
        → Reach (record { users = users; posts = posts; comments = []; likes = []; actions = [] })
    creates :
        (invalid : Thrown) (id : String) (cmd : Command) (db : Db)
        → IsFresh id db.comments
        → Reach db
        → Reach (Create.execute valid_id sanitize_html invalid id cmd db db).2
    deletes : (id user : String) (db : Db) → Reach db → Reach (Delete.execute id user db db).2

  -- In all documents that the commands to comment and to delete a comment reach, without anything
  -- between the reads and the transaction of one, the counter of every post is the number of its
  -- comments, the counter of every comment is the number of its replies, and every comment stands at
  -- depth 0, or right below a comment that is there, on the same post.
  pub Reach-IsThreaded : (db : Db) → Reach db → IsThreaded db
  Reach-IsThreaded db (start users posts h) = record { counted = h; answered = tt; placed = tt }
  Reach-IsThreaded db (creates invalid id cmd before f r) =
      let v = Reach-IsThreaded before r in
      elim (execute-Creates cmd before valid_id sanitize_html invalid id f v) [
        | created p content short result asked sound ↦ rw result sound
        | Creates.rejected e result ↦ rw result v
      ]
  Reach-IsThreaded db (deletes id user before r) =
      let v = Reach-IsThreaded before r in
      elim (execute-Deletes id user before v) [
        | deleted p read result cleared sound ↦ sound
        | Deletes.rejected e result ↦ rw result v
      ]
