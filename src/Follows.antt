-- ===== src/Follows.antt =====
-- Follows between users: `FollowUserCommandHandler` of backend/src/application/commands/users/followUser,
-- on the collections that backend/src/repositories/follow.repository.ts and user.repository.ts write. A
-- transaction takes place at once or not at all. The invalidation of caches after it is left out.
pub mod Laws
pub mod Commands
mod Tests
use image_app.Common.{
  String, Bool, true, false, not, ◌&&◌, ◌||◌, Option, none, some, List, [], ◌∷◌, ◌++◌, map, any,
  str_eq, if◌then◌else◌,
}
use image_app.Common.Counters.{ℤ, add_one, minus_one}
use image_app.Common.Pairs.{has_pair, remove_pair}
use image_app.Errors.{
  Thrown, app, native, object, string, primitive, AppError, message, create_error, not_found_error,
  validation_error, error_transaction, handle_mongo_error, caused_by, no_options, with_cause,
  Result, ok, err,
}
use image_app.Exec.{Exec, pure, throw, lift, modify, ◌>>=◌, ◌>>◌}

pub record User : Type 0 where
  pub id : String
  pub public_id : String
  pub following : List String
  pub followers : List String
  pub following_count : ℤ
  pub follower_count : ℤ

pub data Action : Type 0 where
  followed unfollowed : Action

-- A notification: its receiver and its actor.
pub record Event : Type 0 where
  pub receiver : String
  pub actor : String

-- `follows` has the follower and the followee of each document of the collection.
pub record Db : Type 0 where
  pub users : List User
  pub follows : List (String × String)
  pub actions : List (String × Action × String)

-- A transaction at work: the documents as it sees them, and the events that it has queued.
pub record Work : Type 0 where
  pub db : Db
  pub queued : List Event

abbrev find_user : String → List User → Option User
find_user p [] = none
find_user p (u ∷ us) = if str_eq u.public_id p then some u else find_user p us

-- `$addToSet` and `$pull`
abbrev pub contains : String → List String → Bool
contains x xs = any (λ y. str_eq y x) xs

abbrev pub add_to_set : String → List String → List String
add_to_set x xs = if contains x xs then xs else xs ++ x ∷ []

abbrev pub pull : String → List String → List String
pull x [] = []
pull x (y ∷ ys) = if str_eq y x then pull x ys else y ∷ pull x ys

-- An update of the document with this id, if there is one.
abbrev pub at_id : String → (User → User) → User → User
at_id i f u = if str_eq u.id i then f u else u

abbrev pub update : String → (User → User) → Work → Work
update i f w = record w { db = record w.db { users = map (at_id i f) w.db.users } }

abbrev pub set_follows : List (String × String) → Work → Work
set_follows ps w = record w { db = record w.db { follows = ps } }

abbrev pub log_action : String → Action → String → Work → Work
log_action i a j w = record w { db = record w.db { actions = w.db.actions ++ (i, a, j) ∷ [] } }

abbrev pub queue : Event → Work → Work
queue e w = record w { queued = w.queued ++ e ∷ [] }

-- `add_follow` under the unique index, whose violation the driver reports by `duplicate`.
unfoldable pub add_follow : Thrown → String → String → Exec Work (Unit {0})
add_follow duplicate i j w =
    if has_pair i j w.db.follows
    then throw (app (handle_mongo_error duplicate)) w
    else (ok tt, set_follows ((i, j) ∷ w.db.follows) w)

unfoldable pub remove_follow : String → String → Exec Work (Unit {0})
remove_follow i j w =
    let (removed, rest) = remove_pair i j w.db.follows in
    if removed
    then (ok tt, set_follows rest w)
    else throw
        (app (
          handle_mongo_error
            (app (create_error not_found_error "Not following this user" no_options))))
        w

-- The updates of the two users, after the document is added or removed.
abbrev pub link : String → String → Work → Work
link i j w =
    update j (λ u. record u { follower_count = add_one u.follower_count })
      (update i (λ u. record u { following_count = add_one u.following_count })
        (update j (λ u. record u { followers = add_to_set i u.followers })
          (update i (λ u. record u { following = add_to_set j u.following }) w)))

abbrev pub unlink : String → String → Work → Work
unlink i j w =
    update j (λ u. record u { follower_count = minus_one u.follower_count })
      (update i (λ u. record u { following_count = minus_one u.following_count })
        (update j (λ u. record u { followers = pull i u.followers })
          (update i (λ u. record u { following = pull j u.following }) w)))

-- The work of the transaction, on the two users and the earlier answer of `isFollowing`.
unfoldable pub work : Thrown → Bool → User → User → Exec Work (Unit {0})
work duplicate true follower followee = do
  remove_follow follower.id followee.id
  modify (unlink follower.id followee.id)
  modify (log_action follower.id unfollowed followee.id)
work duplicate false follower followee = do
  add_follow duplicate follower.id followee.id
  modify (link follower.id followee.id)
  modify (log_action follower.id followed followee.id)
  modify (queue (record { receiver = followee.public_id; actor = follower.public_id }))

-- A transaction that throws changes nothing, and its events are dropped.
abbrev pub finish : Db → Result (Unit {0}) × Work → Result (Unit {0}) × List Event × Db
finish before (ok u, w) = (ok u, w.queued, w.db)
finish before (err e, w) = (err e, [], before)

unfoldable pub transact : Thrown → Bool → User → User → Db → Result (Unit {0}) × List Event × Db
unfolding work
transact duplicate was_following follower followee db =
    finish db (work duplicate was_following follower followee (record { db = db; queued = [] }))

-- `error instanceof Error ? error.message : String(error)`
abbrev message_of : Thrown → String
message_of (app e) = message e
message_of (native n m p) = m
message_of (object p) = p.printed
message_of (string s) = s
message_of (primitive s) = s

-- What the handler reads before the transaction.
pub record Prepared : Type 0 where
  pub follower : User
  pub followee : User
  pub was_following : Bool

prepare_found : Option User → Option User → Db → Result Prepared
prepare_found (some follower) (some followee) db =
    if str_eq follower.id followee.id
    then err (app (create_error validation_error "Cannot follow yourself" no_options))
    else ok (record {
      follower = follower;
      followee = followee;
      was_following = has_pair follower.id followee.id db.follows;
    })
prepare_found _ _ db =
    err (app (create_error not_found_error "One or both users not found" no_options))

unfoldable pub prepare : String → String → Db → Result Prepared
unfolding prepare_found
prepare follower followee db =
    prepare_found (find_user follower db.users) (find_user followee db.users) db

-- The result of the command, but for the context of the error.
abbrev pub reply : Bool → Result (Unit {0}) → Result Action
reply was_following (ok u) = ok (if was_following then unfollowed else followed)
reply was_following (err e) =
    err (app (create_error error_transaction (message_of e) (with_cause no_options e)))

-- `execute` from its reads on, which may be older than the documents `db`.
unfoldable pub perform : Thrown → Result Prepared → Db → Result Action × List Event × Db
unfolding transact
perform duplicate (err e) db = (err e, [], db)
perform duplicate (ok p) db =
    let (result, events, after) = transact duplicate p.was_following p.follower p.followee db in
    (reply p.was_following result, events, after)
