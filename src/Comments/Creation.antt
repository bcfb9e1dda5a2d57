-- ===== src/Comments/Creation.antt =====
-- A whole command to comment, when nothing runs between its reads and its transaction.
use image_app.Common.{
  ℕ, ◌≤◌, ◌==◌, length, ◌≡◌, refl, ◌⊎◌, String, Bool, Option, none, some, List, [], ◌∷◌, ◌++◌,
  arith, ltb, eq_iff, eq_refl, Bool-cases, inl, inr,
}
use image_app.Common.Text.{trim}
use image_app.Errors.{
  Thrown, app, validation_error, internal_server_error, wrap_error, no_options, handle_mongo_error,
  Result, ok, err,
}
use image_app.Comments.{Comment, comment, Event, interacted, Db, find_comment, refused}
use image_app.Comments.Create
use image_app.Comments.Create.{
  create_work, notices, post_owner_id, read_parent, check_command, add_comment,
}
use image_app.Comments.Laws.{IsThreaded}
use image_app.Comments.Asked.{IsAsked, prepare-Prepares}
use image_app.Comments.Commands.{IsFresh, IsParent, new, created_db, created-IsThreaded}

List-cases : (xs : List ℕ) → (xs ≡ []) ⊎ ((x : ℕ) × (ys : List ℕ) × (xs ≡ x ∷ ys))
List-cases [] = inl refl
List-cases (x ∷ xs) = inr (x, xs, refl)

abbrev wrapped_error : Thrown → Thrown
wrapped_error e = app (wrap_error e internal_server_error no_options)

module _ (cmd : Create.Command) (db : Db) where
  abbrev events_of : Create.Prepared → List Event
  events_of p =
      notices cmd (post_owner_id p.post.owner) p.post p.parent p.content db.users
      ++ interacted cmd.user comment p.post.public_id p.post.tags (post_owner_id p.post.owner) ∷ []

  module _ (invalid : Thrown) (id : String) where
    transact-creates :
        (p : Create.Prepared) (o : Option Comment) (x : ℕ) (xs : List ℕ)
        → trim p.content ≡ x ∷ xs
        → Create.transact invalid id cmd (record p { parent = o }) db
          ≡ (ok tt, events_of (record p { parent = o }), created_db id p db o)
    unfolding Create.transact create_work add_comment
    transact-creates p none x xs h = rw h refl
    transact-creates p (some c) x xs h = rw h refl

    transact-refuses :
        (p : Create.Prepared)
        → trim p.content ≡ []
        → Create.transact invalid id cmd p db ≡ (err (app (handle_mongo_error invalid)), [], db)
    unfolding Create.transact create_work add_comment
    transact-refuses p h = rw h refl

  module _ (valid_id : String → Bool) (sanitize_html : List ℕ → List ℕ) where
    -- What the tests before the reads come to.
    check_command-cases :
        ((Create.check_command valid_id sanitize_html cmd ≡ ok (sanitize_html (trim cmd.content)))
          × (length (sanitize_html (trim cmd.content)) ≤ 280))
        ⊎ ((e : Thrown) × (Create.check_command valid_id sanitize_html cmd ≡ err e))
    unfolding Create.check_command
    check_command-cases = elim (Bool-cases (valid_id cmd.post)) [
      | inr bad ↦ inr (refused validation_error "Invalid postPublicId format", rw bad refl)
      | inl good ↦ elim (Bool-cases (length (trim cmd.content) == 0)) [
        | inl blank ↦
            inr (refused validation_error "Comment content cannot be empty", rw (good, blank) refl)
        | inr text ↦ elim (Bool-cases (length (sanitize_html (trim cmd.content)) == 0)) [
          | inl gone ↦ inr (
            refused validation_error "Comment content empty after sanitization",
            rw (good, text, gone) refl,
          )
          | inr left ↦ elim (Bool-cases (ltb 280 (length (sanitize_html (trim cmd.content))))) [
            | inl long ↦ inr (
              refused validation_error "Comment cannot exceed 280 characters",
              rw (good, text, left, long) refl,
            )
            | inr short ↦ inl (rw (good, text, left, short) refl, ground (arith, short))
          ]
        ]
      ]
    ]

  -- How a creation ends.
  module _ (valid_id : String → Bool) (sanitize_html : List ℕ → List ℕ) (invalid : Thrown)
      (id : String) where
    abbrev creation : Result Comment × List Event × Db
    creation = Create.execute valid_id sanitize_html invalid id cmd db db

    pub data Creates : Type 0 where
      created :
          (p : Create.Prepared)
          → p.content ≡ sanitize_html (trim cmd.content)
          → length p.content ≤ 280
          → creation ≡ (ok (new id p db p.parent), events_of p, created_db id p db p.parent)
          → IsAsked cmd db id p.content (new id p db p.parent)
          → IsThreaded (created_db id p db p.parent)
          → Creates
      rejected : (e : Thrown) → creation ≡ (err e, [], db) → Creates

    find_comment-created :
        (p : Create.Prepared) (o : Option Comment)
        → IsFresh id db.comments
        → IsParent db p.post.id o
        → find_comment id (created_db id p db o).comments ≡ some (new id p db o)
    find_comment-created p none f h = ground (arith, eq_refl id)
    find_comment-created p (some c) f h = ground (arith, h.0, f.absent, eq_refl id, eq_iff id c.id)

    perform-creates :
        (p : Create.Prepared)
        → IsFresh id db.comments
        → IsParent db p.post.id p.parent
        → Create.perform invalid id cmd (ok p) db
            ≡ (ok (new id p db p.parent), events_of p, created_db id p db p.parent)
          ⊎ ((e : Thrown) × (Create.perform invalid id cmd (ok p) db ≡ (err e, [], db)))
    unfolding Create.perform
    perform-creates p f h = elim (List-cases (trim p.content)) [
      | inl blank ↦ inr (
        wrapped_error (app (handle_mongo_error invalid)),
        rw (transact-refuses invalid id p blank) refl,
      )
      | inr (x, xs, some_text) ↦ inl (
          rw
            (
              transact-creates invalid id p p.parent x xs some_text,
              find_comment-created p p.parent f h,
            )
            refl)
    ]

    -- A command to comment on a post, under an id that no comment has, on documents with right counters
    -- and threads. It fails, and then no document changes and no event is handed out; or it returns the
    -- new comment as it is stored: by the user and on the post that the command names, from a sanitized
    -- content of at most 280 characters, and right below the comment that the command names, or at the
    -- root when it names none. The counters of the post and of that comment are right again, every comment stands where it should,
    -- and the events are the notifications and the interaction, in this order.
    pub execute-Creates : IsFresh id db.comments → IsThreaded db → Creates
    unfolding Create.execute Create.execute_checked Create.perform
    execute-Creates f v = elim (check_command-cases valid_id sanitize_html) [
      | inr (e, h) ↦ rejected e (rw h refl)
      | inl (h, short) ↦ elim (prepare-Prepares cmd db (sanitize_html (trim cmd.content))) [
        | inr (e, k) ↦ rejected (wrapped_error e) (rw (h, k) refl)
        | inl (p, k, parent, same, asked) ↦ elim (perform-creates p f parent) [
          | inr (e, bad) ↦ rejected e (rw (h, k) bad)
          | inl good ↦
              created p same (rw same short) (rw (h, k) good) (asked id)
                (created-IsThreaded id p db v f p.parent parent)
        ]
      ]
    ]
