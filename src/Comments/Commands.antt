-- ===== src/Comments/Commands.antt =====
-- What the transactions of the commands do to the counters and the threads.
use image_app.Common.{
  ℕ, ◌≡◌, refl, sym, ap, ◌∙◌, String, Option, none, some, List, ◌∷◌, map, All, All-imply, arith,
  str_eq, eq_iff, Bool-cases, inl, inr, if◌then◌else◌,
}
use image_app.Common.Counters.{ℤ, pos, add_one, minus_one, counted-update}
use image_app.Comments.{
  Post, Comment, DeletedBy, Db, find_comment, remove_comment, answers, replies, on_post,
  count_replies, count_comments,
}
use image_app.Comments.Create
use image_app.Comments.Create.{new_comment, parent_id, count_parent, depth_under}
use image_app.Comments.Delete.{blank}
use image_app.Comments.Laws.{
  IsUnder, IsPlaced, IsThreaded, Stays, replies-map, on_post-map, IsPlaced-map, IsPlaced-cons,
  All-remove, removed-IsPlaced, replies-remove, on_post-remove,
}

abbrev pub at : String → (Comment → Comment) → Comment → Comment
at i f c = if str_eq c.id i then f c else c

-- An update of the comments with one id.
module _ (i : String) (f : Comment → Comment) (k : Stays f) where
  pub at-Stays : Stays (at i f)
  at-Stays = record {
    id = λ c. elim (Bool-cases (str_eq c.id i)) [ inl e ↦ rw e (k.id c) | inr e ↦ rw e refl ];
    post = λ c. elim (Bool-cases (str_eq c.id i)) [ inl e ↦ rw e (k.post c) | inr e ↦ rw e refl ];
    parent =
        λ c. elim (Bool-cases (str_eq c.id i)) [ inl e ↦ rw e (k.parent c) | inr e ↦ rw e refl ];
    depth = λ c. elim (Bool-cases (str_eq c.id i)) [ inl e ↦ rw e (k.depth c) | inr e ↦ rw e refl ];
  }

  -- The counters of the posts and of the comments, when `step` is what `f` does to the counter of
  -- replies.
  updated-IsThreaded :
      (db : Db) (step : ℤ → ℤ) (n : String → ℕ)
      → ((c : Comment) → (f c).reply_count ≡ step c.reply_count)
      → ((q : String)
          → (if str_eq q i then step (pos (n q)) else pos (n q)) ≡ pos (replies q db.comments))
      → All (λ (p : Post). p.comments_count ≡ pos (on_post p.id db.comments)) db.posts
      → All (λ (c : Comment). c.reply_count ≡ pos (n c.id)) db.comments
      → All (IsPlaced db.comments) db.comments
      → IsThreaded (record db { comments = map (at i f) db.comments })
  updated-IsThreaded db step n steps agree counted answered placed = record {
    counted =
        All-imply (λ (p : Post). p.comments_count ≡ pos (on_post p.id db.comments))
          (λ (p : Post). p.comments_count ≡ pos (on_post p.id (map (at i f) db.comments))) db.posts
          (λ p h. h ∙ ap pos (sym (on_post-map (at i f) at-Stays p.id db.comments))) counted;
    answered =
        All-imply (λ (c : Comment). c.reply_count ≡ pos (replies c.id db.comments))
          (λ (c : Comment). c.reply_count ≡ pos (replies c.id (map (at i f) db.comments)))
          (map (at i f) db.comments)
          (λ c h. h ∙ ap pos (sym (replies-map (at i f) at-Stays c.id db.comments)))
          (counted-update (λ c. c.id) (λ c. c.reply_count) i step f n (λ q. replies q db.comments)
            db.comments k.id steps agree answered);
    placed = IsPlaced-map (at i f) at-Stays db.comments db.comments placed;
  }

count_replies-Stays : (step : ℤ → ℤ) → Stays (count_replies step)
count_replies-Stays step = record {
  id = λ c. refl;
  post = λ c. refl;
  parent = λ c. refl;
  depth = λ c. refl;
}

-- An id that no comment has or answers yet.
pub record IsFresh (i : String) (cs : List Comment) : Type 0 where
  pub absent : find_comment i cs ≡ none
  pub unanswered : replies i cs ≡ 0

-- The comment that is answered is there, on the same post.
abbrev pub IsParent : Db → String → Option Comment → Type 0
IsParent db post none = Unit
IsParent db post (some c) = (find_comment c.id db.comments ≡ some c) × (c.post ≡ post)

module _ (id : String) (p : Create.Prepared) (db : Db) where
  abbrev pub new : Option Comment → Comment
  new o = new_comment id (record p { parent = o })

  abbrev pub with_new : Option Comment → Db
  with_new o = record db {
    posts = map (λ x. if str_eq x.id p.post.id then count_comments add_one x else x) db.posts;
    comments = new o ∷ db.comments;
  }

  abbrev pub created_db : Option Comment → Db
  created_db none = with_new none
  created_db (some c) = record (with_new (some c)) {
    comments = map (at c.id (count_replies add_one)) (new (some c) ∷ db.comments);
  }

module _ (id : String) (p : Create.Prepared) (db : Db) (v : IsThreaded db)
    (f : IsFresh id db.comments) where
  with_new-counted :
      (o : Option Comment)
      → All
          (λ (x : Post). x.comments_count ≡ pos (on_post x.id (with_new id p db o).comments))
          (with_new id p db o).posts
  with_new-counted o =
      counted-update (λ x. x.id) (λ x. x.comments_count) p.post.id add_one (count_comments add_one)
        (λ q. on_post q db.comments) (λ q. on_post q (with_new id p db o).comments) db.posts
        (λ x. refl) (λ x. refl) (λ q. ground (arith, eq_iff q p.post.id, eq_iff p.post.id q))
        v.counted

  IsUnder-new :
      (o : Option Comment)
      → IsParent db p.post.id o
      → IsUnder (with_new id p db o).comments (new id p db o) (parent_id o)
  IsUnder-new none h = refl
  IsUnder-new (some c) h = (c, ground (arith, h.0, f.absent, eq_iff id c.id), h.1, refl)

  with_new-IsPlaced :
      (o : Option Comment)
      → IsParent db p.post.id o
      → All (IsPlaced (with_new id p db o).comments) (with_new id p db o).comments
  with_new-IsPlaced o h =
      (IsUnder-new o h, IsPlaced-cons (new id p db o) db.comments db.comments f.unanswered v.placed)

  pub created-IsThreaded :
      (o : Option Comment) → IsParent db p.post.id o → IsThreaded (created_db id p db o)
  created-IsThreaded none h = record {
    counted = with_new-counted none;
    answered = (
      ground (arith, f.unanswered),
      All-imply (λ (c : Comment). c.reply_count ≡ pos (replies c.id db.comments))
          (λ (c : Comment). c.reply_count ≡ pos (replies c.id (with_new id p db none).comments))
          db.comments (λ c h. ground (arith, h)) v.answered,
    );
    placed = with_new-IsPlaced none h;
  }
  created-IsThreaded (some c) h =
      updated-IsThreaded c.id (count_replies add_one) (count_replies-Stays add_one)
        (with_new id p db (some c)) add_one (λ q. replies q db.comments) (λ x. refl)
        (λ q. ground (arith, eq_iff q c.id, eq_iff c.id q)) (with_new-counted (some c))
        (rw f.unanswered refl, v.answered) (with_new-IsPlaced (some c) h)

-- The removal of a comment that none answers, with its parent `o`.
module _ (id : String) (c : Comment) (db : Db) where
  abbrev pub without : Db
  without = record db {
    posts = map (λ x. if str_eq x.id c.post then count_comments minus_one x else x) db.posts;
    comments = remove_comment id db.comments;
  }

  abbrev pub removed_db : Option String → Db
  removed_db none = without
  removed_db (some i) = record without {
    comments = map (at i (count_replies minus_one)) without.comments;
  }

module _ (id : String) (c : Comment) (db : Db) (v : IsThreaded db)
    (here : find_comment id db.comments ≡ some c) (unanswered : replies id db.comments ≡ 0) where
  without-counted :
      All
        (λ (x : Post). x.comments_count ≡ pos (on_post x.id (without id c db).comments))
        (without id c db).posts
  without-counted =
      counted-update (λ x. x.id) (λ x. x.comments_count) c.post minus_one (count_comments minus_one)
        (λ q. on_post q db.comments) (λ q. on_post q (without id c db).comments) db.posts
        (λ x. refl) (λ x. refl)
        (λ q.
          ground (arith, on_post-remove id q db.comments c here, eq_iff q c.post, eq_iff c.post q))
        v.counted

  pub removed-IsThreaded : (o : Option String) → c.parent ≡ o → IsThreaded (removed_db id c db o)
  removed-IsThreaded none e = record {
    counted = without-counted;
    answered =
        All-imply (λ (c : Comment). c.reply_count ≡ pos (replies c.id db.comments))
          (λ (c : Comment). c.reply_count ≡ pos (replies c.id (without id c db).comments))
          (without id c db).comments
          (λ x h.
            h
            ∙ ground (arith, replies-remove id x.id db.comments c here, ap (λ o. answers o x.id) e))
          (All-remove id (λ (c : Comment). c.reply_count ≡ pos (replies c.id db.comments))
            db.comments v.answered);
    placed = removed-IsPlaced id db.comments unanswered v.placed;
  }
  removed-IsThreaded (some i) e =
      updated-IsThreaded i (count_replies minus_one) (count_replies-Stays minus_one)
        (without id c db) minus_one (λ q. replies q db.comments) (λ x. refl)
        (λ q. ground (
          arith,
          replies-remove id q db.comments c here,
          ap (λ o. answers o q) e,
          eq_iff q i,
          eq_iff i q,
        ))
        without-counted
        (All-remove id (λ (c : Comment). c.reply_count ≡ pos (replies c.id db.comments)) db.comments
          v.answered)
        (removed-IsPlaced id db.comments unanswered v.placed)

pub blank-Stays : (by : DeletedBy) → Stays (blank by)
blank-Stays by = record { id = λ c. refl; post = λ c. refl; parent = λ c. refl; depth = λ c. refl }

pub blanked-IsThreaded :
    (id : String) (by : DeletedBy) (db : Db)
    → IsThreaded db
    → IsThreaded
        (record db { comments = map (λ c. if str_eq c.id id then blank by c else c) db.comments })
blanked-IsThreaded id by db v =
    updated-IsThreaded id (blank by) (blank-Stays by) db (λ z. z) (λ q. replies q db.comments)
      (λ c. refl) (λ q. ground arith) v.counted v.answered v.placed
