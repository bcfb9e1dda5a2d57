-- ===== src/Comments/Asked.antt =====
-- What a command to comment asks for, and what its reads come to.
use mathlib.Core.Path.{subst}
use image_app.Common.{
  ℕ, suc, ap, ◌≢◌, ◌≡◌, refl, sym, ◌⊎◌, String, none, some, List, arith, str_eq, eq_iff, Bool-cases,
  Option-cases, inl, inr,
}
use image_app.Common.Counters.{pos}
use image_app.Common.Text.{trim}
use image_app.Errors.{Thrown, validation_error, not_found_error, ok, err}
use image_app.Comments.{User, Post, Comment, Db, find_comment, find_user, find_post, refused}
use image_app.Comments.Create
use image_app.Comments.Create.{read_parent}
use image_app.Comments.Laws.{find_comment-id}
use image_app.Comments.Commands.{IsParent, new}

find_comment_self :
    (i : String) (cs : List Comment) (c : Comment)
    → find_comment i cs ≡ some c
    → find_comment c.id cs ≡ some c
find_comment_self i cs c h =
    subst (λ j. find_comment j cs ≡ some c) (sym (find_comment-id i cs c h)) h

module _ (cmd : Create.Command) (db : Db) where
  -- Where a new comment stands: at the root of a thread, or right below the comment that the command
  -- names, which is on the same post.
  pub data Stands (c : Comment) : Type 0 where
    at_root : cmd.parent_id ≡ "" → c.parent ≡ none → c.depth ≡ 0 → Stands c
    below :
        cmd.parent_id ≢ ""
        → (q : Comment) → find_comment cmd.parent_id db.comments ≡ some q
        → c.parent ≡ some cmd.parent_id
        → c.depth ≡ suc q.depth
        → q.post ≡ c.post
        → Stands c

  -- A new comment, as the command asks for it: by its user, on its post.
  pub record IsAsked (id : String) (content : List ℕ) (c : Comment) : Type 0 where
    pub identity : c.id ≡ id
    pub text : c.content ≡ trim content
    pub author : User
    pub author_named : find_user cmd.user db.users ≡ some author
    pub by : c.user ≡ some author.id
    pub subject : Post
    pub subject_named : find_post cmd.post db.posts ≡ some subject
    pub on : c.post ≡ subject.id
    pub stands : Stands c
    pub untouched : (c.likes_count ≡ pos 0) × (c.reply_count ≡ pos 0) × (c.deleted ≡ none)

  -- What the reads of a creation come to.
  abbrev pub Prepares : List ℕ → Type 0
  Prepares safe =
      ((p : Create.Prepared) × ((Create.prepare cmd safe db).0 ≡ ok p)
        × IsParent db p.post.id p.parent
        × (p.content ≡ safe)
        × ((id : String) → IsAsked id p.content (new id p db p.parent)))
      ⊎ ((e : Thrown) × ((Create.prepare cmd safe db).0 ≡ err e))

  pub prepare-Prepares : (safe : List ℕ) → Prepares safe
  unfolding Create.prepare Create.read_parent
  prepare-Prepares safe = elim (Option-cases (find_user cmd.user db.users)) [
    | inl n ↦ inr (Create.no_user cmd, rw n refl)
    | inr (u, f) ↦ elim (Option-cases (find_post cmd.post db.posts)) [
      | inl n ↦ inr (Create.no_post cmd, rw (f, n) refl)
      | inr (x, g) ↦ elim (Bool-cases (str_eq cmd.parent_id "")) [
        | inl root ↦ inl (
          record { content = safe; user = u; post = x; parent = none },
          rw (f, g, root) refl,
          tt,
          refl,
          λ id. record {
            identity = refl;
            text = refl;
            author = u;
            author_named = f;
            by = refl;
            subject = x;
            subject_named = g;
            on = refl;
            stands = at_root ((eq_iff cmd.parent_id "").0 root) refl refl;
            untouched = (refl, refl, refl);
          },
        )
        | inr under ↦ elim (Option-cases (find_comment cmd.parent_id db.comments)) [
          | inl n ↦
              inr (refused not_found_error "Parent comment not found", rw (f, g, under, n) refl)
          | inr (c, k) ↦ elim (Bool-cases (str_eq c.post x.id)) [
            | inr apart ↦ inr (
              refused validation_error "Parent comment does not belong to the same post",
              rw (f, g, under, k, apart) refl,
            )
            | inl same ↦ inl (
              record { content = safe; user = u; post = x; parent = some c },
              rw (f, g, under, k, same) refl,
              (find_comment_self cmd.parent_id db.comments c k, (eq_iff c.post x.id).0 same),
              refl,
              λ id. record {
                identity = refl;
                text = refl;
                author = u;
                author_named = f;
                by = refl;
                subject = x;
                subject_named = g;
                on = refl;
                stands =
                    below (ground (arith, under, eq_iff cmd.parent_id "")) c k
                      (ap some (find_comment-id cmd.parent_id db.comments c k)) refl
                      ((eq_iff c.post x.id).0 same);
                untouched = (refl, refl, refl);
              },
            )
          ]
        ]
      ]
    ]
  ]
