-- ===== src/Likes/Laws.antt =====
-- The like counts, and what a command does.
use image_app.Common.{
  ℕ, ◌≤◌, ◌≡◌, refl, ap, ◌∙◌, String, Bool, true, false, not, ◌&&◌, ◌||◌, List, [], ◌∷◌, ◌++◌, All,
  arith, str_eq, eq_iff, Bool-cases, Option-cases, inl, inr, if◌then◌else◌, some,
}
use image_app.Common.Counters
use image_app.Common.Counters.{ℤ, pos, add_one, minus_one}
use image_app.Common.Pairs.{
  is_pair, has_pair, firsts, times, has-times, times-has, remove_pair-removes, firsts-remove_pair,
  times-remove_pair, has-remove_pair,
}
use image_app.Errors.{Thrown, Result, ok, err, Result-cases}
use image_app.Likes.{
  Post, like, unlike, Event, interacted, notification, Db, has_user_liked, add_like, liked,
  remove_like, update_like_count, transact, handle_like, handle_unlike, toggle, execute, reply,
  prepare, perform, Prepared, find_post, find_user,
}

-- The counter of every post is the number of its likes, and nobody likes a post twice.
pub record IsCounted (db : Db) : Type 0 where
  pub counted : All (λ (p : Post). p.likes_count ≡ pos (firsts p.id db.likes)) db.posts
  pub once : (post user : String) → times post user db.likes ≤ 1

-- A step of the counter of one post, when the numbers of likes change in the same way.
counted-update :
    (post : String) (step : ℤ → ℤ) (n n' : String → ℕ) (posts : List Post)
    → ((q : String) → (if str_eq q post then step (pos (n q)) else pos (n q)) ≡ pos (n' q))
    → All (λ (p : Post). p.likes_count ≡ pos (n p.id)) posts
    → All (λ (p : Post). p.likes_count ≡ pos (n' p.id)) (update_like_count post step posts)
unfolding update_like_count
counted-update post step n n' posts agree h =
    Counters.counted-update (λ p. p.id) (λ p. p.likes_count) post step
      (λ p. record p { likes_count = step p.likes_count }) n n' posts (λ p. refl) (λ p. refl) agree
      h

module _ (actor user : String) (post : Post) (owner : String) (db : Db) where
  -- The events of a transaction: for a like of somebody else's post, its notification first.
  abbrev events_of : Bool → List Event
  events_of existing =
      (if existing || str_eq owner "" || str_eq owner actor
        then []
        else notification owner actor post.public_id ∷ [])
      ++ interacted actor (if existing then unlike else like) post.public_id post.tags owner ∷ []

  abbrev ids_after : Bool → List (String × String)
  ids_after existing =
      if existing then (remove_like post.id user db.likes).1 else (post.id, user) ∷ db.likes

  abbrev db_after : Bool → Db
  db_after existing = record db {
    likes = ids_after existing;
    posts = update_like_count post.id (if existing then minus_one else add_one) db.posts;
    actions = db.actions ++ (user, (if existing then unlike else like), post.id) ∷ [];
  }

  handle_like-adds :
      has_user_liked post.id user db.likes ≡ false
      → handle_like actor user post owner (record { db = db; queued = [] })
        ≡ liked true actor user post owner
            (record { db = record db { likes = (post.id, user) ∷ db.likes }; queued = [] })
  unfolding handle_like add_like
  handle_like-adds h = rw h refl

  transact-likes :
      has_user_liked post.id user db.likes ≡ false
      → transact actor user post owner db ≡ (ok tt, events_of false, db_after false)
  unfolding transact toggle liked
  transact-likes h = elim (Bool-cases (str_eq owner "")) [
    | inl none_known ↦ rw (h, handle_like-adds h, none_known) refl
    | inr known ↦ elim (Bool-cases (str_eq owner actor)) [
      | inl own ↦ rw (h, handle_like-adds h, known, own) refl
      | inr other ↦ rw (h, handle_like-adds h, known, other) refl
    ]
  ]

  transact-unlikes :
      has_user_liked post.id user db.likes ≡ true
      → transact actor user post owner db ≡ (ok tt, events_of true, db_after true)
  unfolding transact toggle handle_unlike
  transact-unlikes h = rw (h, remove_pair-removes post.id user db.likes h) refl

  after-IsCounted :
      (existing : Bool)
      → has_user_liked post.id user db.likes ≡ existing
      → IsCounted db
      → IsCounted (db_after existing)
  after-IsCounted true e v =
      let removed = remove_pair-removes post.id user db.likes e in
      record {
        counted =
            counted-update post.id minus_one (λ q. firsts q db.likes)
              (λ q. firsts q (remove_like post.id user db.likes).1) db.posts
              (λ q. ground (
                arith,
                firsts-remove_pair post.id user q db.likes removed,
                eq_iff q post.id,
                eq_iff post.id q,
              ))
              v.counted;
        once =
            λ q w. omega (arith, times-remove_pair post.id user q w db.likes removed, v.once q w);
      }
  after-IsCounted false e v = record {
    counted =
        counted-update post.id add_one (λ q. firsts q db.likes)
          (λ q. firsts q ((post.id, user) ∷ db.likes)) db.posts
          (λ q. ground (arith, eq_iff q post.id, eq_iff post.id q)) v.counted;
    once = λ q w.
        ground
          (arith, v.once q w, has-times post.id user db.likes e, eq_iff post.id q, eq_iff user w);
  }

  has-unliked :
      (q v : String)
      → IsCounted db
      → has_user_liked post.id user db.likes ≡ true
      → has_user_liked q v (remove_like post.id user db.likes).1
        ≡ (if str_eq post.id q && str_eq user v then false else has_user_liked q v db.likes)
  has-unliked q v c e = elim (Bool-cases (is_pair q v (post.id, user))) [
    | inl this ↦
        let removed = remove_pair-removes post.id user db.likes e in
        rw this (
          times-has q v (remove_like post.id user db.likes).1
            (ground (arith, times-remove_pair post.id user q v db.likes removed, c.once q v, this)))
    | inr other ↦ rw other (has-remove_pair post.id user q v db.likes other)
  ]

  has-liked :
      (q v : String)
      → has_user_liked q v ((post.id, user) ∷ db.likes)
        ≡ (if str_eq post.id q && str_eq user v then true else has_user_liked q v db.likes)
  unfolding has_pair
  has-liked q v = ground arith

  -- On documents with right counters, where nobody likes a post twice, the transaction of a like
  -- command always commits, and turns the user's like of the post over, and no other like. It queues
  -- the notification of the post's owner exactly for a like of somebody else's post, and then the
  -- interaction that took place; and the counters stay right.
  pub transact_toggles :
      IsCounted db
      → (transact actor user post owner db ≡ (
        ok tt,
        events_of (has_user_liked post.id user db.likes),
        (transact actor user post owner db).2,
      ))
        × IsCounted (transact actor user post owner db).2
        × ((q v : String)
            → has_user_liked q v (transact actor user post owner db).2.likes ≡ (
                if str_eq post.id q && str_eq user v
                then not (has_user_liked post.id user db.likes)
                else has_user_liked q v db.likes))
  transact_toggles v = elim (Bool-cases (has_user_liked post.id user db.likes)) [
    | inl e ↦
        rw (transact-unlikes e, e) (refl, after-IsCounted true e v, λ q w. has-unliked q w v e)
    | inr e ↦ rw (transact-likes e, e) (refl, after-IsCounted false e v, has-liked)
  ]

-- A post that is there before a counter changes is there after it.
find_post-update :
    (wanted post : String) (step : ℤ → ℤ) (posts : List Post) (x : Post)
    → find_post wanted posts ≡ some x
    → (y : Post) × (find_post wanted (update_like_count post step posts) ≡ some y)
unfolding update_like_count
find_post-update wanted post step [] x h = cc
find_post-update wanted post step (p ∷ ps) x h = elim (Bool-cases (str_eq p.public_id wanted)) [
  | inl here ↦ elim (Bool-cases (str_eq p.id post)) [
    | inl this ↦ (record p { likes_count = step p.likes_count }, rw (this, here) refl)
    | inr other ↦ (p, rw (other, here) refl)
  ]
  | inr there ↦
      let (y, found) = find_post-update wanted post step ps x (rw there at h) in
      elim (Bool-cases (str_eq p.id post)) [
        | inl this ↦ (y, rw (this, there) found)
        | inr other ↦ (y, rw (other, there) found)
      ]
]

of_post : Post → Result Prepared → Post
of_post x (ok p) = p.post
of_post x (err e) = x

prepare-found :
    (actor wanted : String) (db : Db) (p : Prepared)
    → prepare actor wanted db ≡ ok p
    → find_post wanted db.posts ≡ some p.post
unfolding prepare of_post
prepare-found actor wanted db p h = elim (Option-cases (find_user actor db.users)) [
  | inl n ↦ cc (rw n at h)
  | inr (u, f) ↦ elim (Bool-cases (str_eq u.id "")) [
    | inl e ↦ cc (rw (f, e) at h)
    | inr k ↦ elim (Option-cases (find_post wanted db.posts)) [
      | inl n ↦ cc (rw (f, k, n) at h)
      | inr (x, g) ↦ elim (Bool-cases (str_eq x.id "")) [
        | inl e ↦ cc (rw (f, k, g, e) at h)
        | inr m ↦ let same = rw (f, k, g, m) at h in g ∙ ap some (ap (λ r. of_post x r) same)
      ]
    ]
  ]
]

of_reply : Post → Result Post → Post
of_reply x (ok p) = p
of_reply x (err e) = x

-- On documents where the counter of every post is the number of its likes, and nobody likes a post
-- twice, the whole like command keeps it so. When it fails, no event is handed out and no document
-- has changed; when it succeeds, it returns the post as it is stored after the command.
pub execute-IsCounted :
    (actor wanted : String) (db : Db)
    → IsCounted db
    → IsCounted (execute actor wanted db).2
      × ((e : Thrown)
          → (execute actor wanted db).0 ≡ err e
          → ((execute actor wanted db).1 ≡ []) × ((execute actor wanted db).2 ≡ db))
      × ((post : Post)
          → (execute actor wanted db).0 ≡ ok post
          → find_post wanted (execute actor wanted db).2.posts ≡ some post)
unfolding execute perform reply of_reply
execute-IsCounted actor wanted db v = elim (Result-cases (prepare actor wanted db)) [
  | inr (e, h) ↦ rw h (v, λ x f. (refl, refl), λ x f. cc f)
  | inl (p, h) ↦
      let post = prepare-found actor wanted db p h in
      elim (Bool-cases (has_user_liked p.post.id p.user_id db.likes)) [
        | inl e ↦
            let (y, found) = find_post-update wanted p.post.id minus_one db.posts p.post post in
            rw (h, transact-unlikes actor p.user_id p.post p.owner db e, found)
              (
                after-IsCounted actor p.user_id p.post p.owner db true e v,
                λ x f. cc f,
                λ x f. ap some (ap (of_reply x) f),
              )
        | inr e ↦
            let (y, found) = find_post-update wanted p.post.id add_one db.posts p.post post in
            rw (h, transact-likes actor p.user_id p.post p.owner db e, found)
              (
                after-IsCounted actor p.user_id p.post p.owner db false e v,
                λ x f. cc f,
                λ x f. ap some (ap (of_reply x) f),
              )
      ]
]
