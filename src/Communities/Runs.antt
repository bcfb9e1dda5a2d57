-- ===== src/Communities/Runs.antt =====
-- Whole commands, and the documents that they reach.
use image_app.Common.{
  ℕ, ◌≡◌, refl, sym, ◌∙◌, String, false, ◌||◌, Option, none, some, List, [], ◌∷◌, map, All, arith,
  str_eq, Bool-cases, inl, inr,
}
use image_app.Common.Pairs.{is_pair, has_pair, has-cons}
use image_app.Errors.{Thrown, app, handle_mongo_error, Result, ok, err, Result-cases}
use image_app.Communities.{User, Community, Db, ids, at_community, update_community}
use image_app.Communities.Handlers.{join, prepare_join, leave, leave_work, kick, delete}
use image_app.Communities.Settings.{
  NewIds, Image, Updates, create, update, update_from, update_at, prepare_update, set_fields,
  set_name, new_name, slug_of_other, find_by_id,
}
use image_app.Communities.Laws.{known, IsListed, IsCounted, IsSound, kept-IsListed}
use image_app.Communities.Commands.{
  joined_db, joined_db-IsSound, join_work-joins, join_work-refuses, left_db-IsSound,
}
use image_app.Communities.Creation.{
  IsFresh, create-Creates, created, nothing_uploaded, upload_failed, undone,
}
use image_app.Communities.Roles.{prepare_leave-Reads}
use image_app.Communities.Kicks.{Kicks, kick-Kicks, Deletes, delete-Deletes}

module _ (duplicate : Thrown) (community user : String) (before db : Db) where
  -- How `join` ends.
  pub data Joins : Type 0 where
    joined :
        (u : User) (c : Community)
        → (prepare_join community user before).0 ≡ ok (u, c)
        → has_pair c.id u.id (ids db.members) ≡ false
        → join duplicate community user before db ≡ (ok tt, joined_db u c db)
        → IsSound (joined_db u c db)
        → ((q w : String)
            → has_pair q w (ids (joined_db u c db).members)
              ≡ (is_pair q w (c.id, u.id) || has_pair q w (ids db.members)))
        → Joins
    refused : (e : Thrown) → join duplicate community user before db ≡ (err e, db) → Joins

  -- A command to join a community, from reads that may be out of date, on documents with right counters
  -- and lists. It succeeds only for a user who is no member yet, adds this membership and no other, and
  -- keeps the counters and lists right. When it fails, no document has changed.
  pub join-Joins : IsSound db → Joins
  unfolding join
  join-Joins v = elim (Result-cases (prepare_join community user before).0) [
    | inr (e, h) ↦ refused e (rw h refl)
    | inl ((u, c), h) ↦ elim (Bool-cases (has_pair c.id u.id (ids db.members))) [
      | inl old ↦
          refused (app (handle_mongo_error duplicate))
            (rw (h, join_work-refuses u c db duplicate old) refl)
      | inr new ↦
          joined u c h new (rw (h, join_work-joins u c db duplicate new) refl)
            (joined_db-IsSound u c db new v) (λ q w. has-cons q w c.id u.id (ids db.members))
    ]
  ]

-- An update of the settings keeps the id and the counter.
module _ (i : String) (updates : Updates) where
  set_name-keeps :
      (n : Option (List ℕ)) (c : Community)
      → ((set_name n c).id ≡ c.id) × ((set_name n c).member_count ≡ c.member_count)
  unfolding set_name
  set_name-keeps none c = (refl, refl)
  set_name-keeps (some n) c = (refl, refl)

  set_fields-keeps :
      (c : Community)
      → ((set_fields updates c).id ≡ c.id) × ((set_fields updates c).member_count ≡ c.member_count)
  unfolding set_fields
  set_fields-keeps c = set_name-keeps (new_name updates.name) _

  updated-IsCounted :
      (ps : List (String × String)) (cs : List Community)
      → All (IsCounted ps) cs
      → All (IsCounted ps) (map (at_community i (set_fields updates)) cs)
  updated-IsCounted ps [] h = tt
  updated-IsCounted ps (c ∷ cs) h = (
    elim (Bool-cases (str_eq c.id i)) [
      | inl this ↦ rw this (rw ((set_fields-keeps c).0, (set_fields-keeps c).1) h.0)
      | inr other ↦ rw other h.0
    ],
    updated-IsCounted ps cs h.1,
  )

  known-updated :
      (q : String) (cs : List Community)
      → known q (map (at_community i (set_fields updates)) cs) ≡ known q cs
  known-updated q [] = refl
  known-updated q (c ∷ cs) = ground (arith, set_fields-keeps c, known-updated q cs)

  updated-users :
      (ps : List (String × String)) (cs : List Community) (us : List User)
      → All (IsListed cs ps) us
      → All (IsListed (map (at_community i (set_fields updates)) cs) ps) us
  updated-users ps cs [] h = tt
  updated-users ps cs (u ∷ us) h = (
    kept-IsListed cs (map (at_community i (set_fields updates)) cs) ps ps u
        (λ e k known. k (sym (known-updated e.community cs) ∙ known)) h.0,
    updated-users ps cs us h.1,
  )

  updated-IsSound : (db : Db) → IsSound db → IsSound (update_community i (set_fields updates) db)
  updated-IsSound db v = record {
    counted = updated-IsCounted (ids db.members) db.communities v.counted;
    once = v.once;
    listed = updated-users (ids db.members) db.communities db.users v.listed;
  }

  update_at-IsSound :
      (duplicate : Thrown) (o : Option Community) (db : Db)
      → IsSound db
      → IsSound (update_at duplicate updates i o db).1
  unfolding update_at
  update_at-IsSound duplicate none db v = v
  update_at-IsSound duplicate (some old) db v =
      elim (Bool-cases (slug_of_other i (new_name updates.name) db.communities)) [
        | inl taken ↦ rw taken v
        | inr free ↦ rw free (updated-IsSound db v)
      ]

update-IsSound :
    (duplicate : Thrown) (community user : String) (updates : Updates) (before db : Db)
    → IsSound db
    → IsSound (update duplicate community user updates before db).2
unfolding update update_from
update-IsSound duplicate community user updates before db v =
    elim (Result-cases (prepare_update community user updates before).0) [
      | inr (e, h) ↦ rw h v
      | inl (c, h) ↦
          rw h (update_at-IsSound c.id updates duplicate (find_by_id c.id db.communities) db v)
    ]

create-IsSound :
    (invalid duplicate : Thrown) (new : NewIds) (name : List ℕ) (description creator : String)
    (upload : Option (Result Image)) (removal : Result (Unit {0})) (before db : Db)
    → IsFresh new.id db
    → IsSound db
    → IsSound (create invalid duplicate new name description creator upload removal before db).2
create-IsSound invalid duplicate new name description creator upload removal before db f v =
    elim (create-Creates invalid duplicate new name description creator removal before db upload f
      v) [
        | created c result url calls sound ↦ sound
        | nothing_uploaded (e, result, same) calls ↦ rw same v
        | upload_failed e which (x, result, same) calls ↦ rw same v
        | undone i which (e, result, same) calls ↦ rw same v
      ]

join-IsSound :
    (duplicate : Thrown) (community user : String) (before db : Db)
    → IsSound db
    → IsSound (join duplicate community user before db).1
join-IsSound duplicate community user before db v =
    elim (join-Joins duplicate community user before db v) [
      | joined u c read new result sound members ↦ rw result sound
      | refused e same ↦ rw same v
    ]

leave-IsSound :
    (community user : String) (db : Db) → IsSound db → IsSound (leave community user db db).1
unfolding leave leave_work
leave-IsSound community user db v = elim (prepare_leave-Reads community user db) [
  | inl (p, h, old) ↦ rw h (left_db-IsSound p.0 p.1 db old v)
  | inr (e, h) ↦ rw h v
]

kick-IsSound :
    (community actor target : String) (db : Db)
    → IsSound db
    → IsSound (kick community actor target db db).1
kick-IsSound community actor target db v = elim (kick-Kicks community actor target db v) [
  | Kicks.kicked p k result sound members admins ↦ rw result sound
  | Kicks.refused e same ↦ rw same v
]

delete-IsSound :
    (community user : String) (db : Db) → IsSound db → IsSound (delete community user db db).1
delete-IsSound community user db v = elim (delete-Deletes community user db v) [
  | Deletes.deleted c k result sound gone none_left members communities ↦ rw result sound
  | Deletes.refused e same ↦ rw same v
]

-- The documents that commands reach, one after the other, from users without communities. A new
-- community gets an id that no document names.
pub data Reach : Db → Type 0 where
  start :
      (users : List User)
      → All (λ (u : User). u.joined ≡ []) users
      → Reach (record { users = users; communities = []; members = [] })
  creates :
      (invalid duplicate : Thrown) (new : NewIds) (name : List ℕ) (description creator : String)
      (upload : Option (Result Image)) (removal : Result (Unit {0})) (before db : Db)
      → IsFresh new.id db
      → Reach db
      → Reach (create invalid duplicate new name description creator upload removal before db).2
  joins :
      (duplicate : Thrown) (community user : String) (before db : Db)
      → Reach db
      → Reach (join duplicate community user before db).1
  leaves : (community user : String) (db : Db) → Reach db → Reach (leave community user db db).1
  kicks :
      (community actor target : String) (db : Db)
      → Reach db
      → Reach (kick community actor target db db).1
  updates :
      (duplicate : Thrown) (community user : String) (updates : Updates) (before db : Db)
      → Reach db
      → Reach (update duplicate community user updates before db).2
  deletes : (community user : String) (db : Db) → Reach db → Reach (delete community user db db).1

start-IsSound :
    (users : List User) → All (λ (u : User). u.joined ≡ []) users → All (IsListed [] []) users
start-IsSound [] h = tt
start-IsSound (u ∷ us) h =
    (record { entries = rw h.0 tt; short = rw h.0 (omega arith) }, start-IsSound us h.1)

-- In all documents that the commands reach, the counter of every community is the number of its
-- members, nobody is a member twice, and the cached list of every user has ten communities at most,
-- and, of those that exist, only ones that the user is a member of. The commands `leave`, `kick` and
-- `delete` run without anything between their reads and their transactions; the others may have read
-- older documents.
pub Reach-IsSound : (db : Db) → Reach db → IsSound db
Reach-IsSound db (start users h) = record {
  counted = tt;
  once = λ c u. omega arith;
  listed = start-IsSound users h;
}
Reach-IsSound db
      (creates invalid duplicate new name description creator upload removal old before f r) =
    create-IsSound invalid duplicate new name description creator upload removal old before f
      (Reach-IsSound before r)
Reach-IsSound db (joins duplicate community user old before r) =
    join-IsSound duplicate community user old before (Reach-IsSound before r)
Reach-IsSound db (leaves community user before r) =
    leave-IsSound community user before (Reach-IsSound before r)
Reach-IsSound db (kicks community actor target before r) =
    kick-IsSound community actor target before (Reach-IsSound before r)
Reach-IsSound db (updates duplicate community user u old before r) =
    update-IsSound duplicate community user u old before (Reach-IsSound before r)
Reach-IsSound db (deletes community user before r) =
    delete-IsSound community user before (Reach-IsSound before r)
