-- ===== src/Comments/Deletion.antt =====
-- A whole command to delete a comment, when nothing runs between its reads and its transaction.
use image_app.Common.{
  ◌≡◌, refl, sym, ◌⊎◌, String, Bool, true, false, Option, none, some, List, [], ◌∷◌, map, arith,
  Bool-cases, Option-cases, inl, inr, str_eq, eq_iff,
}
use image_app.Common.Counters.{minus_one}
use image_app.Errors.{
  Thrown, app, validation_error, not_found_error, forbidden_error, internal_server_error,
  wrap_error, no_options, Result, ok, err,
}
use image_app.Comments.{
  User, Post, DeletedBy, Comment, comment_deleted, remove_comment, Event, interacted, Db,
  find_comment, find_user, find_post, find_post_by_id, has_replies, refused, finish,
}
use image_app.Comments.Delete
use image_app.Comments.Delete.{blank}
use image_app.Comments.Cleared.{
  Cleared, emptied, removed, blank-IsEmptied, others_blank, with_id-remove, with_id-count,
}
use image_app.Comments.Laws.{IsThreaded, find_comment-id, find_comment-map}
use image_app.Comments.Commands.{
  removed_db, removed-IsThreaded, blanked-IsThreaded, at, at-Stays, blank-Stays,
}

-- Who may delete a comment of a post.
pub data Entitled (c : Comment) (p : Post) (u : User) : Type 0 where
  author : c.user ≡ some u.id → Entitled c p u
  post_owner : Delete.owner_internal_id p.owner ≡ u.id → Entitled c p u
  admin : u.is_admin ≡ true → Entitled c p u

is_by_lem : (o : Option String) (i : String) → Delete.is_by o i ≡ true → o ≡ some i
is_by_lem none i h = ground arith
is_by_lem (some j) i h = rw ((eq_iff j i).0 h) refl

may_delete-Entitled :
    (c : Comment) (p : Post) (u : User) → Delete.may_delete c p u ≡ true → Entitled c p u
may_delete-Entitled c p u h = elim (Bool-cases (Delete.is_by c.user u.id)) [
  | inl a ↦ author (is_by_lem c.user u.id a)
  | inr a ↦ elim (Bool-cases (str_eq (Delete.owner_internal_id p.owner) u.id)) [
    | inl b ↦ post_owner ((eq_iff (Delete.owner_internal_id p.owner) u.id).0 b)
    | inr b ↦ admin (ground (arith, h, a, b))
  ]
]

module _ (id user : String) (db : Db) where
  -- What the reads of a deletion come to.
  pub record IsRead (p : Delete.Prepared) : Type 0 where
    pub actor : User
    pub known : find_user user db.users ≡ some actor
    pub here : find_comment id db.comments ≡ some p.subject
    pub fresh : Delete.is_deleted p.subject ≡ false
    pub stored : Post
    pub of_post : find_post_by_id p.subject.post db.posts ≡ some stored
    pub read_again : p.post ≡ Delete.hydrated (find_post stored.public_id db.posts) stored
    pub may : Entitled p.subject p.post actor
    pub by : p.by ≡ Delete.deleted_by p.subject actor
    pub answered : p.answered ≡ has_replies id db.comments

  prepare-IsRead :
      ((p : Delete.Prepared) × ((Delete.prepare id user db).0 ≡ ok p) × IsRead p)
      ⊎ ((e : Thrown) × ((Delete.prepare id user db).0 ≡ err e))
  unfolding Delete.prepare
  prepare-IsRead = elim (Option-cases (find_user user db.users)) [
    | inl n ↦ inr (Delete.no_user user, rw n refl)
    | inr (u, f) ↦ elim (Option-cases (find_comment id db.comments)) [
      | inl n ↦ inr (refused not_found_error "Comment not found", rw (f, n) refl)
      | inr (c, g) ↦ elim (Bool-cases (Delete.is_deleted c)) [
        | inl old ↦
            inr (refused validation_error "Comment has already been deleted", rw (f, g, old) refl)
        | inr fresh ↦ elim (Option-cases (find_post_by_id c.post db.posts)) [
          | inl n ↦
              inr (refused not_found_error "Associated post not found", rw (f, g, fresh, n) refl)
          | inr (x, k) ↦ with_post u f c g fresh x k
        ]
      ]
    ]
  ]
    where
      with_post :
          (u : User)
          → find_user user db.users ≡ some u
          → (c : Comment) → find_comment id db.comments ≡ some c
          → Delete.is_deleted c ≡ false
          → (x : Post) → find_post_by_id c.post db.posts ≡ some x
          → ((p : Delete.Prepared) × ((Delete.prepare id user db).0 ≡ ok p) × IsRead p)
            ⊎ ((e : Thrown) × ((Delete.prepare id user db).0 ≡ err e))
      with_post u f c g fresh x k =
          let post = Delete.hydrated (find_post x.public_id db.posts) x in
          elim (Bool-cases (Delete.may_delete c post u)) [
            | inr bad ↦ inr (
              refused forbidden_error
                  "You can only delete your own comments or comments on your posts",
              rw (f, g, fresh, k, bad) refl,
            )
            | inl may ↦ inl (
              record {
                subject = c;
                by = Delete.deleted_by c u;
                answered = has_replies id db.comments;
                post = post;
                owner = Delete.owner_of post.owner db.users;
              },
              rw (f, g, fresh, k, may) refl,
              record {
                actor = u;
                known = f;
                here = g;
                fresh = fresh;
                stored = x;
                of_post = k;
                read_again = refl;
                may = may_delete-Entitled c post u may;
                by = refl;
                answered = refl;
              },
            )
          ]

  abbrev after_db : Delete.Prepared → Bool → Option String → Db
  after_db p true o = record db { comments = map (at id (blank p.by)) db.comments }
  after_db p false o = removed_db id p.subject db o

  abbrev event_of : Delete.Prepared → Event
  event_of p = interacted user comment_deleted p.post.public_id p.post.tags p.owner

  work-deletes :
      (p : Delete.Prepared) (b : Bool) (o : Option String)
      → finish db (
          Delete.delete_work id user
            (record p { answered = b; subject = record p.subject { parent = o } })
            (record { db = db; queued = [] }))
        ≡ (ok tt, event_of p ∷ [], after_db p b o)
  unfolding Delete.delete_work Delete.soft_delete Delete.hard_delete
  work-deletes p true o = refl
  work-deletes p false none = refl
  work-deletes p false (some i) = refl

  after-IsThreaded :
      (p : Delete.Prepared) (b : Bool)
      → IsThreaded db
      → IsRead p
      → p.answered ≡ b
      → IsThreaded (after_db p b p.subject.parent)
  after-IsThreaded p true v r e = blanked-IsThreaded id p.by db v
  after-IsThreaded p false v r e =
      removed-IsThreaded id p.subject db v r.here (ground (arith, e, r.answered)) p.subject.parent
        refl

  after-Cleared :
      (p : Delete.Prepared) (b : Bool) (o : Option String)
      → IsRead p
      → has_replies id db.comments ≡ b
      → Cleared id p.subject db.comments (after_db p b o).comments
  after-Cleared p true o r e =
      let here = (eq_iff p.subject.id id).1 (find_comment-id id db.comments p.subject r.here) in
      emptied e (at id (blank p.by) p.subject)
        (find_comment-map (at id (blank p.by)) (at-Stays id (blank p.by) (blank-Stays p.by)) id
          db.comments p.subject r.here)
        (blank-IsEmptied id p.by p.subject here) (λ j h. others_blank id j p.by db.comments h)
  after-Cleared p false none r e = removed e (λ j. with_id-remove id j db.comments p.subject r.here)
  after-Cleared p false (some i) r e = removed e (λ j. omega (
    arith,
    with_id-remove id j db.comments p.subject r.here,
    with_id-count j i minus_one (remove_comment id db.comments),
  ))

  abbrev deletion : Result (Unit {0}) × List Event × Db
  deletion = Delete.execute id user db db

  -- How a deletion ends.
  pub data Deletes : Type 0 where
    deleted :
        (p : Delete.Prepared)
        → IsRead p
        → deletion
          ≡ (ok tt, event_of p ∷ [], after_db p (has_replies id db.comments) p.subject.parent)
        → Cleared id p.subject db.comments deletion.2.comments
        → IsThreaded deletion.2
        → Deletes
    rejected : (e : Thrown) → deletion ≡ (err e, [], db) → Deletes

  -- A command to delete a comment, on documents with right counters and threads. It succeeds only for
  -- a comment that is not deleted yet, and for its owner, the owner of its post, or an administrator.
  -- A comment with replies stays where it is, without its user, and with a notice in place of its
  -- content; one without replies is removed. No other comment is emptied or removed. The counters of the posts and of all comments are right again, and every comment that is
  -- left stands where it should. When the command fails, no document has changed, and no event is
  -- handed out.
  pub execute-Deletes : IsThreaded db → Deletes
  unfolding Delete.execute Delete.perform
  execute-Deletes v = elim prepare-IsRead [
    | inr (e, h) ↦ rejected (app (wrap_error e internal_server_error no_options)) (rw h refl)
    | inl (p, h, r) ↦
        let runs = work-deletes p p.answered p.subject.parent in
        deleted p r (rw (h, runs, r.answered) refl)
          (rw (h, runs) (after-Cleared p p.answered p.subject.parent r (sym r.answered)))
          (rw (h, runs) (after-IsThreaded p p.answered v r refl))
  ]

  -- The documents after a deletion of a comment with replies.
  pub deletion_empties :
      has_replies id db.comments ≡ true
      → deletion.0 ≡ ok tt
      → (by : DeletedBy) × (deletion.2
          ≡ record db { comments = map (at id (blank by)) db.comments })
  unfolding Delete.execute Delete.perform
  deletion_empties replied done = elim prepare-IsRead [
    | inr (e, h) ↦ cc (rw h at done)
    | inl (p, h, r) ↦
        (p.by, rw (h, work-deletes p p.answered p.subject.parent, r.answered, replied) refl)
  ]
