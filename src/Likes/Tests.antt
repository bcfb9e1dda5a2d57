-- ===== src/Likes/Tests.antt =====
-- Two users and a post.
use image_app.Common.{
  ◌≡◌, refl, String, not, ◌&&◌, ◌||◌, some, [], ◌∷◌, ◌++◌, str_eq, if◌then◌else◌, arith,
}
use image_app.Common.Counters.{pos}
use image_app.Common.Pairs.{has_pair}
use image_app.Errors.{Thrown, ok, err}
use image_app.Likes.{
  pos, reference, Post, like, unlike, interacted, notification, Db, has_user_liked, transact,
  execute, find_post, add_like, handle_like, toggle, prepare, reply, update_like_count,
}
use image_app.Likes.Laws.{IsCounted, transact_toggles, execute-IsCounted}

abbrev picture : Post
picture = record {
  id = "p1";
  public_id = "picture";
  owner = reference "u2";
  tags = "sea" ∷ [];
  likes_count = pos 0;
}

abbrev start : Db
start = record {
  users = record { id = "u1"; public_id = "ann" } ∷ record { id = "u2"; public_id = "bob" } ∷ [];
  posts = picture ∷ [];
  likes = [];
  actions = [];
}

start-IsCounted : IsCounted start
start-IsCounted = record { counted = (refl, tt); once = λ p u. omega arith }

once_liked : (execute "ann" "picture" start).0 ≡ ok (record picture { likes_count = pos 1 })
unfolding execute prepare transact toggle handle_like add_like has_pair update_like_count reply
once_liked = refl

transact_toggles_example :
    (transact "ann" "u1" picture "bob" start ≡ (
      ok tt,
      (if has_user_liked "p1" "u1" [] || str_eq "bob" "" || str_eq "bob" "ann"
            then []
            else notification "bob" "ann" "picture" ∷ [])
          ++ interacted "ann"
              (if has_user_liked "p1" "u1" [] then unlike else like)
              "picture"
              ("sea" ∷ [])
              "bob"
            ∷ [],
      (transact "ann" "u1" picture "bob" start).2,
    ))
    × IsCounted (transact "ann" "u1" picture "bob" start).2
    × ((q v : String)
        → has_user_liked q v (transact "ann" "u1" picture "bob" start).2.likes ≡ (
            if str_eq "p1" q && str_eq "u1" v
            then not (has_user_liked "p1" "u1" [])
            else has_user_liked q v []))
transact_toggles_example = transact_toggles "ann" "u1" picture "bob" start start-IsCounted

execute-IsCounted_example :
    IsCounted (execute "ann" "picture" start).2
    × ((e : Thrown)
        → (execute "ann" "picture" start).0 ≡ err e
        → ((execute "ann" "picture" start).1 ≡ []) × ((execute "ann" "picture" start).2 ≡ start))
    × ((post : Post)
        → (execute "ann" "picture" start).0 ≡ ok post
        → find_post "picture" (execute "ann" "picture" start).2.posts ≡ some post)
execute-IsCounted_example = execute-IsCounted "ann" "picture" start start-IsCounted
