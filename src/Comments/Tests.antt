-- ===== src/Comments/Tests.antt =====
-- A post with a comment and a reply.
use image_app.Common.{
  ℕ, ◌≡◌, refl, String, Bool, true, false, not, none, some, List, [], ◌∷◌, str_eq,
}
use image_app.Common.Counters.{pos, negsuc}
use image_app.Common.Pairs.{has_pair}
use image_app.Common.Text.{codes}
use image_app.Errors.{Thrown, string, ok}
use image_app.Comments.{
  User, reference, Post, Comment, Db, find_user, find_comment, has_replies, commented, mentioned,
  notification, comment, interacted,
}
use image_app.Comments.Create
use image_app.Comments.Create.{Command, notices}
use image_app.Comments.Delete
use image_app.Comments.Likes
use image_app.Comments.Laws.{IsThreaded}
use image_app.Comments.Commands.{IsFresh}
use image_app.Comments.Creation.{Creates, execute-Creates}
use image_app.Comments.Deletion.{Deletes, execute-Deletes}
use image_app.Comments.Threads.{
  get_comment_with_ancestors, IsAncestry, get_comment_with_ancestors_ends,
}
use image_app.Comments.Likes.Laws.{unlike_of_deleted}
use image_app.Comments.Runs.{Reach, start, creates, deletes, Reach-IsThreaded}

abbrev ann : User
ann = record { id = "u1"; public_id = "ann"; handle_normalized = codes "ann"; is_admin = false }

abbrev bob : User
bob = record { id = "u2"; public_id = "bob"; handle_normalized = codes "bob"; is_admin = false }

abbrev picture : Post
picture = record {
  id = "p1";
  public_id = "picture";
  owner = reference "u1";
  tags = "sea" ∷ [];
  body = codes "Low tide";
  has_image = true;
  comments_count = pos 0;
}

abbrev empty : Db
empty = record {
  users = ann ∷ bob ∷ [];
  posts = picture ∷ [];
  comments = [];
  likes = [];
  actions = [];
}

abbrev valid_id : String → Bool
valid_id s = not (str_eq s "")

abbrev plain : List ℕ → List ℕ
plain text = text

abbrev invalid : Thrown
invalid = string "ValidationError"

abbrev hello : Command
hello = record { user = "bob"; post = "picture"; content = codes " Hi @ann"; parent_id = "" }

abbrev answer : Command
answer = record { user = "ann"; post = "picture"; content = codes "Hi @bob"; parent_id = "c1" }

abbrev one : Db
one = (Create.execute valid_id plain invalid "c1" hello empty empty).2

abbrev two : Db
two = (Create.execute valid_id plain invalid "c2" answer one one).2

-- The owner is told twice: under their internal id, and as ann.
hello_events :
    (Create.execute valid_id plain invalid "c1" hello empty empty).1
    ≡ notification "u1" commented "bob" "picture" (codes "Low tide")
      ∷ notification "ann" mentioned "bob" "picture" (codes "Hi @ann")
      ∷ interacted "bob" comment "picture" ("sea" ∷ []) "u1"
      ∷ []
unfolding Create.execute notices
hello_events = refl

empty-IsFresh : IsFresh "c1" empty.comments
empty-IsFresh = record { absent = refl; unanswered = refl }

one-IsFresh : IsFresh "c2" one.comments
unfolding Create.execute
one-IsFresh = record { absent = refl; unanswered = refl }

one-Reach : Reach valid_id plain one
one-Reach =
    creates invalid "c1" hello empty empty-IsFresh
      (start (ann ∷ bob ∷ []) (picture ∷ []) (refl, tt))

two-Reach : Reach valid_id plain two
two-Reach = creates invalid "c2" answer one one-IsFresh one-Reach

Reach-IsThreaded_example : IsThreaded (Delete.execute "c1" "bob" two two).2
Reach-IsThreaded_example =
    Reach-IsThreaded valid_id plain (Delete.execute "c1" "bob" two two).2
      (deletes "c1" "bob" two two-Reach)

execute-Creates_example : Creates answer one valid_id plain invalid "c2"
execute-Creates_example =
    execute-Creates answer one valid_id plain invalid "c2" one-IsFresh
      (Reach-IsThreaded valid_id plain one one-Reach)

execute-Deletes_example : Deletes "c1" "bob" two
execute-Deletes_example =
    execute-Deletes "c1" "bob" two (Reach-IsThreaded valid_id plain two two-Reach)

abbrev reply : Comment
reply = record {
  id = "c2";
  content = codes "Hi @bob";
  post = "p1";
  parent = some "c1";
  user = some "u1";
  reply_count = pos 0;
  depth = 1;
  likes_count = pos 0;
  deleted = none;
}

reply_found : find_comment "c2" two.comments ≡ some reply
unfolding Create.execute
reply_found = refl

get_comment_with_ancestors_ends_example :
    (rest : List Comment) × (get_comment_with_ancestors 2 two.comments "c2"
      ≡ some (some reply, rest))
    × IsAncestry reply rest
get_comment_with_ancestors_ends_example =
    get_comment_with_ancestors_ends two "c2" reply (Reach-IsThreaded valid_id plain two two-Reach)
      reply_found

-- The same documents, when ann likes the first comment.
abbrev liked : Db
liked = (Likes.execute "c1" "ann" two two).2

abbrev first_comment : Comment
first_comment = record {
  id = "c1";
  content = codes "Hi @ann";
  post = "p1";
  parent = none;
  user = some "u2";
  reply_count = pos 1;
  depth = 0;
  likes_count = pos 1;
  deleted = none;
}

ann_likes : has_pair "c1" "u1" liked.likes ≡ true
unfolding has_pair Likes.execute Create.execute
ann_likes = refl

first_replied : has_replies "c1" liked.comments ≡ true
unfolding Likes.execute Create.execute has_pair
first_replied = refl

first_deleted : (Delete.execute "c1" "bob" liked liked).0 ≡ ok tt
unfolding Delete.execute Likes.execute Create.execute has_pair
first_deleted = refl

first_found : find_comment "c1" liked.comments ≡ some first_comment
unfolding Likes.execute Create.execute has_pair
first_found = refl

ann_found : find_user "ann" liked.users ≡ some ann
unfolding Likes.execute Create.execute has_pair
ann_found = refl

unlike_of_deleted_example :
    (Likes.execute "c1" "ann"
      (Delete.execute "c1" "bob" liked liked).2
      (Delete.execute "c1" "bob" liked liked).2).0
    ≡ ok (false, negsuc 0)
unlike_of_deleted_example =
    unlike_of_deleted "c1" "ann" "bob" liked ann first_comment ann_found first_found refl ann_likes
      first_replied first_deleted
