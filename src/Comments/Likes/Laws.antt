-- ===== src/Comments/Likes/Laws.antt =====
-- The numbers of likes of the comments, and what a like command does to them.
use image_app.Common.{
  ℕ, ◌≤◌, ◌≡◌, refl, sym, ap, ◌∙◌, String, Bool, true, false, not, Option, none, some, List, [],
  ◌∷◌, ◌++◌, map, All, arith, str_eq, eq_iff, Bool-cases, inl, inr, if◌then◌else◌,
}
use image_app.Common.Counters.{ℤ, pos, negsuc, add_one, minus_one}
use image_app.Common.Pairs.{
  is_pair, has_pair, remove_pair, firsts, times, has-times, has-cons, times-has,
  remove_pair-removes, firsts-remove_pair, times-remove_pair, has-remove_pair,
}
use image_app.Errors.{Result, ok}
use image_app.Comments.{
  User, Comment, DeletedBy, Event, Db, Work, find_user, find_comment, has_replies, count_likes,
  finish,
}
use image_app.Comments.Delete
use image_app.Comments.Delete.{blank}
use image_app.Comments.Laws.{Stays, find_comment-id, find_comment-map}
use image_app.Comments.Commands.{at, at-Stays, blank-Stays}
use image_app.Comments.Deletion.{deletion_empties}
use image_app.Comments.Likes.{
  Prepared, add_like, remove_like, handle_like, handle_unlike, like_work, prepare, perform, execute,
  comment_owner,
}

-- The counter of a comment that is not deleted is the number of its likes.
abbrev pub Counted : (String → ℕ) → Comment → Option DeletedBy → Type 0
Counted n c none = c.likes_count ≡ pos (n c.id)
Counted n c (some by) = Unit

pub record IsCounted (db : Db) : Type 0 where
  pub counted : All (λ (c : Comment). Counted (λ q. firsts q db.likes) c c.deleted) db.comments
  pub once : (c u : String) → times c u db.likes ≤ 1

module _ (i : String) (step : ℤ → ℤ) (n n' : String → ℕ)
    (agree : (q : String) → (if str_eq q i then step (pos (n q)) else pos (n q)) ≡ pos (n' q)) where
  Counted-at :
      (c : Comment) (o : Option DeletedBy)
      → c.deleted ≡ o
      → Counted n c o
      → Counted n' (at i (count_likes step) c) (at i (count_likes step) c).deleted
  Counted-at c none e h = elim (Bool-cases (str_eq c.id i)) [
    | inl this ↦
        rw (this, e, h)
          (sym (ap (λ b. if b then step (pos (n c.id)) else pos (n c.id)) this) ∙ agree c.id)
    | inr other ↦
        rw (other, e, h)
          (sym (ap (λ b. if b then step (pos (n c.id)) else pos (n c.id)) other) ∙ agree c.id)
  ]
  Counted-at c (some by) e h = elim (Bool-cases (str_eq c.id i)) [
    | inl this ↦ rw (this, e) tt
    | inr other ↦ rw (other, e) tt
  ]

  Counted-update :
      (cs : List Comment)
      → All (λ (c : Comment). Counted n c c.deleted) cs
      → All (λ (c : Comment). Counted n' c c.deleted) (map (at i (count_likes step)) cs)
  Counted-update [] h = tt
  Counted-update (c ∷ cs) h = (Counted-at c c.deleted refl h.0, Counted-update cs h.1)

module _ (id : String) (p : Prepared) (db : Db) where
  abbrev user_id : String
  user_id = p.user.id

  abbrev likes_after : Bool → List (String × String)
  likes_after true = (remove_pair id user_id db.likes).1
  likes_after false = (id, user_id) ∷ db.likes

  abbrev step_of : Bool → ℤ → ℤ
  step_of true = minus_one
  step_of false = add_one

  abbrev db_after : Bool → Db
  db_after existing = record db {
    likes = likes_after existing;
    comments = map (at id (count_likes (step_of existing))) db.comments;
    actions = db.actions ++ (user_id, not existing, id) ∷ [];
  }

  abbrev outcome : Result Bool × List Event × Db
  outcome = finish db (like_work id p (record { db = db; queued = [] }))

  abbrev start : Work
  start = record { db = db; queued = [] }

  handle_like-adds :
      has_pair id user_id db.likes ≡ false
      → handle_like id user_id start ≡ (ok tt, record { db = db_after false; queued = [] })
  unfolding handle_like add_like
  handle_like-adds new = rw new refl

  likes :
      str_eq user_id "" ≡ false
      → has_pair id user_id db.likes ≡ false
      → (outcome.0 ≡ ok true) × (outcome.2 ≡ db_after false)
  unfolding like_work
  likes known new = elim (Bool-cases (str_eq p.owner "")) [
    | inl none_known ↦ rw (known, new, handle_like-adds new, none_known) (refl, refl)
    | inr owned ↦ elim (Bool-cases (str_eq p.owner p.user.public_id)) [
      | inl own ↦ rw (known, new, handle_like-adds new, owned, own) (refl, refl)
      | inr other ↦ rw (known, new, handle_like-adds new, owned, other) (refl, refl)
    ]
  ]

  unlikes :
      str_eq user_id "" ≡ false
      → has_pair id user_id db.likes ≡ true
      → outcome ≡ (ok false, [], db_after true)
  unfolding like_work handle_unlike remove_like
  unlikes known old = rw (known, old, remove_pair-removes id user_id db.likes old) refl

  after-IsCounted :
      (existing : Bool)
      → has_pair id user_id db.likes ≡ existing
      → IsCounted db
      → IsCounted (db_after existing)
  after-IsCounted true e v =
      let removed = remove_pair-removes id user_id db.likes e in
      record {
        counted =
            Counted-update id minus_one (λ q. firsts q db.likes) (λ q. firsts q (likes_after true))
              (λ q.
                ground (
                  arith,
                  firsts-remove_pair id user_id q db.likes removed,
                  eq_iff q id,
                  eq_iff id q,
                ))
              db.comments v.counted;
        once = λ q w. omega (arith, times-remove_pair id user_id q w db.likes removed, v.once q w);
      }
  after-IsCounted false e v = record {
    counted =
        Counted-update id add_one (λ q. firsts q db.likes) (λ q. firsts q (likes_after false))
          (λ q. ground (arith, eq_iff q id, eq_iff id q)) db.comments v.counted;
    once = λ q w.
        ground (arith, v.once q w, has-times id user_id db.likes e, eq_iff id q, eq_iff user_id w);
  }

  has-after :
      (existing : Bool) (q w : String)
      → has_pair id user_id db.likes ≡ existing
      → IsCounted db
      → has_pair q w (likes_after existing)
        ≡ (if is_pair q w (id, user_id) then not existing else has_pair q w db.likes)
  has-after false q w e v = has-cons q w id user_id db.likes ∙ ground arith
  has-after true q w e v = elim (Bool-cases (is_pair q w (id, user_id))) [
    | inl this ↦
        let removed = remove_pair-removes id user_id db.likes e in
        rw this (
          times-has q w (likes_after true)
            (ground (arith, times-remove_pair id user_id q w db.likes removed, v.once q w, this)))
    | inr other ↦ rw other (has-remove_pair id user_id q w db.likes other)
  ]

  -- The transaction of a like of a comment, by a user with an id, on documents where the counter of
  -- every comment that is not deleted is the number of its likes, and nobody likes a comment twice. It
  -- always commits, turns the user's like of the comment over, and no other like, says whether the
  -- comment is liked then, and keeps the counters right.
  like_work_toggles :
      str_eq user_id "" ≡ false
      → IsCounted db
      → (outcome.0 ≡ ok (not (has_pair id user_id db.likes)))
        × IsCounted outcome.2
        × ((q w : String)
            → has_pair q w outcome.2.likes ≡ (
                if is_pair q w (id, user_id)
                then not (has_pair id user_id db.likes)
                else has_pair q w db.likes))
  like_work_toggles known v = elim (Bool-cases (has_pair id user_id db.likes)) [
    | inl e ↦
        rw (unlikes known e, e) (refl, after-IsCounted true e v, λ q w. has-after true q w e v)
    | inr e ↦
        let (result, after) = likes known e in
        rw (result, after, e) (refl, after-IsCounted false e v, λ q w. has-after false q w e v)
  ]

count_likes-Stays : (step : ℤ → ℤ) → Stays (count_likes step)
count_likes-Stays step = record {
  id = λ c. refl;
  post = λ c. refl;
  parent = λ c. refl;
  depth = λ c. refl;
}

module _ (id user : String) (by : DeletedBy) (db : Db) where
  -- The documents after the deletion of a comment that has replies.
  abbrev deleted_db : Db
  deleted_db = record db { comments = map (at id (blank by)) db.comments }

  counted_down :
      (c : Comment)
      → c.id ≡ id
      → (at id (count_likes minus_one) (at id (blank by) c)).likes_count ≡ negsuc 0
  counted_down c e = let here = (eq_iff c.id id).1 e in rw (here, here) refl

  unlike_of_blanked :
      (u : User) (c : Comment)
      → find_user user db.users ≡ some u
      → find_comment id db.comments ≡ some c
      → str_eq u.id "" ≡ false
      → has_pair id u.id db.likes ≡ true
      → (execute id user deleted_db deleted_db).0 ≡ ok (false, negsuc 0)
  unfolding execute perform prepare
  unlike_of_blanked u c named found known old =
      let same = find_comment-id id db.comments c found in
      let blanked =
        find_comment-map (at id (blank by)) (at-Stays id (blank by) (blank-Stays by)) id db.comments
          c found in
      let after =
        find_comment-map (at id (count_likes minus_one))
          (at-Stays id (count_likes minus_one) (count_likes-Stays minus_one)) id deleted_db.comments
          (at id (blank by) c) blanked in
      let p : Prepared = record {
        user = u;
        subject = at id (blank by) c;
        owner = comment_owner (at id (blank by) c).user db.users;
      } in
      rw (named, blanked, unlikes id p deleted_db known old, after, counted_down c same) refl

-- A user who likes a comment with replies takes the like back after the comment was deleted. The
-- deletion has set the counter of likes to 0, but left the documents of the likes, so that the unlike
-- succeeds, and reports a counter of -1.
pub unlike_of_deleted :
    (id user deleter : String) (db : Db) (u : User) (c : Comment)
    → find_user user db.users ≡ some u
    → find_comment id db.comments ≡ some c
    → str_eq u.id "" ≡ false
    → has_pair id u.id db.likes ≡ true
    → has_replies id db.comments ≡ true
    → (Delete.execute id deleter db db).0 ≡ ok tt
    → (execute id user (Delete.execute id deleter db db).2 (Delete.execute id deleter db db).2).0
      ≡ ok (false, negsuc 0)
unlike_of_deleted id user deleter db u c named found known old replied done =
    let (by, after) = deletion_empties id deleter db replied done in
    rw after (unlike_of_blanked id user by db u c named found known old)
