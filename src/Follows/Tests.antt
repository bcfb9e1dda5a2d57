-- ===== src/Follows/Tests.antt =====
-- Two users, the second of whom follows the first.
use image_app.Common.{◌≡◌, refl, true, [], ◌∷◌, arith}
use image_app.Common.Counters.{pos}
use image_app.Common.Pairs.{has_pair}
use image_app.Errors.{Thrown, string, ok, err}
use image_app.Follows.{User, followed, Db, transact, work, add_follow, prepare, perform}
use image_app.Follows.Laws.{IsGraph}
use image_app.Follows.Commands.{Ends, transact-Ends, perform-IsGraph}

abbrev ann : User
ann = record {
  id = "1";
  public_id = "ann";
  following = [];
  followers = "2" ∷ [];
  following_count = pos 0;
  follower_count = pos 1;
}

abbrev bob : User
bob = record {
  id = "2";
  public_id = "bob";
  following = "1" ∷ [];
  followers = [];
  following_count = pos 1;
  follower_count = pos 0;
}

abbrev start : Db
start = record { users = ann ∷ bob ∷ []; follows = ("2", "1") ∷ []; actions = [] }

start-IsGraph : IsGraph start
unfolding has_pair
start-IsGraph = record {
  users = (
    record {
      following_counted = refl;
      followers_counted = refl;
      following_listed = λ x. refl;
      followers_listed = λ x. ground arith;
    },
    (
      record {
        following_counted = refl;
        followers_counted = refl;
        following_listed = λ x. ground arith;
        followers_listed = λ x. ground arith;
      },
      tt,
    ),
  );
  once = λ i j. ground arith;
}

ann_follows : (perform (string "E11000") (prepare "ann" "bob" start) start).0 ≡ ok followed
unfolding perform prepare transact work add_follow has_pair
ann_follows = refl

transact-Ends_example : Ends (string "E11000") true bob ann start
transact-Ends_example = transact-Ends (string "E11000") true bob ann start refl start-IsGraph

perform-IsGraph_example :
    IsGraph (perform (string "E11000") (prepare "ann" "bob" start) start).2
    × ((e : Thrown)
        → (perform (string "E11000") (prepare "ann" "bob" start) start).0 ≡ err e
        → ((perform (string "E11000") (prepare "ann" "bob" start) start).1 ≡ [])
          × ((perform (string "E11000") (prepare "ann" "bob" start) start).2 ≡ start))
perform-IsGraph_example = perform-IsGraph (string "E11000") "ann" "bob" start start start-IsGraph
