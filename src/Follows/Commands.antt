-- ===== src/Follows/Commands.antt =====
-- What the transaction of a follow command, and the whole command, come to.
use image_app.Common.{
  ◌≡◌, refl, sym, ap, ◌∙◌, String, Bool, true, false, not, ◌&&◌, List, [], arith, str_eq, eq_iff,
  Bool-cases, Option-cases, inl, inr, if◌then◌else◌,
}
use image_app.Common.Counters.{add_one, minus_one}
use image_app.Common.Pairs.{
  has_pair, has-times, remove_pair-removes, remove_pair-keeps, times-remove_pair,
}
use image_app.Errors.{
  Thrown, app, handle_mongo_error, create_error, not_found_error, no_options, Result, ok, err,
  Result-cases,
}
use image_app.Follows.{
  User, Event, Db, add_to_set, pull, add_follow, remove_follow, work, transact, perform, prepare,
  Prepared, find_user,
}
use image_app.Follows.Laws.{IsGraph, updated-All, follow-IsChange, unfollow-IsChange}

module _ (duplicate : Thrown) (was_following : Bool) (follower followee : User) (db : Db) where
  abbrev outcome : Result (Unit {0}) × List Event × Db
  outcome = transact duplicate was_following follower followee db

  -- What the transaction comes to: it turns the follow over, or throws and changes nothing.
  pub data Ends : Type 0 where
    turned :
        was_following ≡ has_pair follower.id followee.id db.follows
        → outcome.0 ≡ ok tt
        → IsGraph outcome.2
        → ((a b : String)
            → has_pair a b outcome.2.follows ≡ (
                if str_eq follower.id a && str_eq followee.id b
                then not was_following
                else has_pair a b db.follows))
        → Ends
    thrown :
        not was_following ≡ has_pair follower.id followee.id db.follows
        → (e : Thrown) → outcome ≡ (err e, [], db)
        → Ends

module _ (duplicate : Thrown) (follower followee : User) (db : Db)
    (apart : str_eq follower.id followee.id ≡ false) (v : IsGraph db) where
  follows_anew :
      has_pair follower.id followee.id db.follows ≡ false
      → Ends duplicate false follower followee db
  unfolding transact work add_follow
  follows_anew new =
      let c = follow-IsChange follower.id followee.id db.follows apart new in
      turned (sym new) (rw new refl)
        (rw new (record {
          users =
              updated-All add_one add_to_set true follower.id followee.id db.follows _ db.users c
                v.users;
          once = λ a b. ground (
            arith,
            v.once a b,
            has-times follower.id followee.id db.follows new,
            eq_iff follower.id a,
            eq_iff followee.id b,
          );
        }))
        (λ a b. rw new (c.pairs a b))

  unfollows :
      has_pair follower.id followee.id db.follows ≡ true → Ends duplicate true follower followee db
  unfolding transact work remove_follow
  unfollows old =
      let c = unfollow-IsChange follower.id followee.id db.follows apart old v.once in
      let removed = remove_pair-removes follower.id followee.id db.follows old in
      turned (sym old) (rw removed refl)
        (rw removed (record {
          users =
              updated-All minus_one pull false follower.id followee.id db.follows _ db.users c
                v.users;
          once = λ a b.
              omega (
                arith,
                v.once a b,
                times-remove_pair follower.id followee.id a b db.follows removed,
              );
        }))
        (λ a b. rw removed (c.pairs a b))

-- The transaction of a follow command of two different users, on documents that may have changed
-- since the handler read whether the follow was there, and whose counters and lists are right. If
-- the answer still stands, the follow of the two users is turned over, and no other, and the counters
-- and lists of all users stay right. If it does not stand, the transaction throws, and changes
-- nothing.
pub transact-Ends :
    (duplicate : Thrown) (was_following : Bool) (follower followee : User) (db : Db)
    → str_eq follower.id followee.id ≡ false
    → IsGraph db
    → Ends duplicate was_following follower followee db
unfolding transact work add_follow remove_follow
transact-Ends duplicate true follower followee db apart v =
    elim (Bool-cases (has_pair follower.id followee.id db.follows)) [
      | inl old ↦ unfollows duplicate follower followee db apart v old
      | inr new ↦
          thrown (sym new)
            (app (
              handle_mongo_error
                (app (create_error not_found_error "Not following this user" no_options))))
            (rw (remove_pair-keeps follower.id followee.id db.follows new) refl)
    ]
transact-Ends duplicate false follower followee db apart v =
    elim (Bool-cases (has_pair follower.id followee.id db.follows)) [
      | inl old ↦ thrown (sym old) (app (handle_mongo_error duplicate)) (rw old refl)
      | inr new ↦ follows_anew duplicate follower followee db apart v new
    ]

apart_of : Result Prepared → Bool
apart_of (ok p) = str_eq p.follower.id p.followee.id
apart_of (err e) = false

prepare-apart :
    (follower followee : String) (db : Db) (p : Prepared)
    → prepare follower followee db ≡ ok p
    → str_eq p.follower.id p.followee.id ≡ false
unfolding prepare apart_of
prepare-apart follower followee db p h = elim (Option-cases (find_user follower db.users)) [
  | inl n ↦ cc (rw n at h)
  | inr (u, f) ↦ elim (Option-cases (find_user followee db.users)) [
    | inl n ↦ cc (rw (f, n) at h)
    | inr (w, g) ↦ elim (Bool-cases (str_eq u.id w.id)) [
      | inl same ↦ cc (rw (f, g, same) at h)
      | inr apart ↦ sym (ap (λ r. apart_of r) (rw (f, g, apart) at h)) ∙ apart
    ]
  ]
]

-- The whole follow command, from reads that may be out of date, keeps the counters and lists of all
-- users right, if they are. When it fails, no event is handed out and no document has changed.
pub perform-IsGraph :
    (duplicate : Thrown) (follower followee : String) (before db : Db)
    → IsGraph db
    → IsGraph (perform duplicate (prepare follower followee before) db).2
      × ((e : Thrown)
          → (perform duplicate (prepare follower followee before) db).0 ≡ err e
          → ((perform duplicate (prepare follower followee before) db).1 ≡ [])
            × ((perform duplicate (prepare follower followee before) db).2 ≡ db))
unfolding perform
perform-IsGraph duplicate follower followee before db v =
    elim (Result-cases (prepare follower followee before)) [
      | inr (e, h) ↦ rw h (v, λ x f. (refl, refl))
      | inl (p, h) ↦
          rw h
            (elim (transact-Ends duplicate p.was_following p.follower p.followee db
              (prepare-apart follower followee before p h) v) [
                | turned was good graph pairs ↦ (graph, λ e f. cc (rw good at f))
                | thrown was e same ↦ rw same (v, λ x f. (refl, refl))
              ])
    ]
