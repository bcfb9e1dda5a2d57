-- ===== src/Comments/Laws.antt =====
-- The counters and the threads of comments, and how a change of one comment keeps them right.
use image_app.Common.{
  suc, ◌+◌, ◌≡◌, refl, sym, ap, ◌∙◌, String, false, Option, none, some, List, [], ◌∷◌, map, All,
  arith, str_eq, eq_iff, Bool-cases, inl, inr,
}
use image_app.Common.Counters.{pos}
use image_app.Common.Pairs.{one_if}
use image_app.Comments.{Post, Comment, Db, find_comment, remove_comment, answers, replies, on_post}

-- A comment that answers none stands at depth 0; another one stands right below the comment that it
-- answers, which is there, and on the same post.
abbrev pub IsUnder : List Comment → Comment → Option String → Type 0
IsUnder cs c none = c.depth ≡ 0
IsUnder cs c (some p) =
    (q : Comment) × (find_comment p cs ≡ some q) × (q.post ≡ c.post) × (c.depth ≡ suc q.depth)

abbrev pub IsPlaced : List Comment → Comment → Type 0
IsPlaced cs c = IsUnder cs c c.parent

pub record IsThreaded (db : Db) : Type 0 where
  pub counted : All (λ (p : Post). p.comments_count ≡ pos (on_post p.id db.comments)) db.posts
  pub answered : All (λ (c : Comment). c.reply_count ≡ pos (replies c.id db.comments)) db.comments
  pub placed : All (IsPlaced db.comments) db.comments

-- A change of comments that leaves them where they stand.
pub record Stays (g : Comment → Comment) : Type 0 where
  pub id : (c : Comment) → (g c).id ≡ c.id
  pub post : (c : Comment) → (g c).post ≡ c.post
  pub parent : (c : Comment) → (g c).parent ≡ c.parent
  pub depth : (c : Comment) → (g c).depth ≡ c.depth

module _ (g : Comment → Comment) (k : Stays g) where
  pub replies-map : (i : String) (cs : List Comment) → replies i (map g cs) ≡ replies i cs
  replies-map i [] = refl
  replies-map i (c ∷ cs) = rw (k.parent c, replies-map i cs) refl

  pub on_post-map : (p : String) (cs : List Comment) → on_post p (map g cs) ≡ on_post p cs
  on_post-map p [] = refl
  on_post-map p (c ∷ cs) = rw (k.post c, on_post-map p cs) refl

  pub find_comment-map :
      (i : String) (cs : List Comment) (q : Comment)
      → find_comment i cs ≡ some q
      → find_comment i (map g cs) ≡ some (g q)
  find_comment-map i [] q h = cc
  find_comment-map i (c ∷ cs) q h = ground (arith, k.id c, find_comment-map i cs q)

  IsUnder-map :
      (cs : List Comment) (c : Comment) (p p' : Option String)
      → p' ≡ p
      → IsUnder cs c p
      → IsUnder (map g cs) (g c) p'
  IsUnder-map cs c none p' e h = rw e (k.depth c ∙ h)
  IsUnder-map cs c (some p) p' e (q, found, same, below) = rw e (
    g q,
    find_comment-map p cs q found,
    k.post q ∙ (same ∙ sym (k.post c)),
    k.depth c ∙ (below ∙ ap suc (sym (k.depth q))),
  )

  pub IsPlaced-map :
      (cs ds : List Comment) → All (IsPlaced cs) ds → All (IsPlaced (map g cs)) (map g ds)
  IsPlaced-map cs [] h = tt
  IsPlaced-map cs (d ∷ ds) h =
      (IsUnder-map cs d d.parent (g d).parent (k.parent d) h.0, IsPlaced-map cs ds h.1)

-- A comment with a new id, that no comment answers.
IsUnder-cons :
    (new : Comment) (cs : List Comment) (c : Comment) (p : Option String)
    → answers p new.id ≡ false
    → IsUnder cs c p
    → IsUnder (new ∷ cs) c p
IsUnder-cons new cs c none a h = h
IsUnder-cons new cs c (some p) a (q, found, same, below) =
    (q, ground (arith, found, eq_iff new.id p, eq_iff p new.id), same, below)

pub IsPlaced-cons :
    (new : Comment) (cs ds : List Comment)
    → replies new.id ds ≡ 0
    → All (IsPlaced cs) ds
    → All (IsPlaced (new ∷ cs)) ds
IsPlaced-cons new cs [] f h = tt
IsPlaced-cons new cs (d ∷ ds) f h =
    (IsUnder-cons new cs d d.parent (ground arith) h.0, IsPlaced-cons new cs ds (ground arith) h.1)

-- The removal of a comment that no comment answers.
module _ (i : String) where
  find_comment-remove :
      (p : String) (cs : List Comment)
      → str_eq p i ≡ false
      → find_comment p (remove_comment i cs) ≡ find_comment p cs
  find_comment-remove p [] h = refl
  find_comment-remove p (c ∷ cs) h =
      ground (arith, find_comment-remove p cs h, eq_iff c.id i, eq_iff c.id p)

  IsUnder-remove :
      (cs : List Comment) (c : Comment) (p : Option String)
      → answers p i ≡ false
      → IsUnder cs c p
      → IsUnder (remove_comment i cs) c p
  IsUnder-remove cs c none a h = h
  IsUnder-remove cs c (some p) a (q, found, same, below) =
      (q, find_comment-remove p cs a ∙ found, same, below)

  IsPlaced-remove :
      (cs ds : List Comment)
      → replies i ds ≡ 0
      → All (IsPlaced cs) ds
      → All (IsPlaced (remove_comment i cs)) ds
  IsPlaced-remove cs [] f h = tt
  IsPlaced-remove cs (d ∷ ds) f h =
      (IsUnder-remove cs d d.parent (ground arith) h.0, IsPlaced-remove cs ds (ground arith) h.1)

  pub All-remove :
      (P : Comment → Type 0) (cs : List Comment) → All P cs → All P (remove_comment i cs)
  All-remove P [] h = tt
  All-remove P (c ∷ cs) h = elim (Bool-cases (str_eq c.id i)) [
    | inl this ↦ rw this h.1
    | inr other ↦ rw other (h.0, All-remove P cs h.1)
  ]

  pub removed-IsPlaced :
      (cs : List Comment)
      → replies i cs ≡ 0
      → All (IsPlaced cs) cs
      → All (IsPlaced (remove_comment i cs)) (remove_comment i cs)
  removed-IsPlaced cs f h =
      All-remove (IsPlaced (remove_comment i cs)) cs (IsPlaced-remove cs cs f h)

  pub replies-remove :
      (q : String) (cs : List Comment) (c : Comment)
      → find_comment i cs ≡ some c
      → replies q (remove_comment i cs) + one_if (answers c.parent q) ≡ replies q cs
  replies-remove q [] c h = cc
  replies-remove q (d ∷ ds) c h = ground (arith, replies-remove q ds c)

  pub on_post-remove :
      (p : String) (cs : List Comment) (c : Comment)
      → find_comment i cs ≡ some c
      → on_post p (remove_comment i cs) + one_if (str_eq c.post p) ≡ on_post p cs
  on_post-remove p [] c h = cc
  on_post-remove p (d ∷ ds) c h = ground (arith, on_post-remove p ds c)

pub find_comment-id :
    (i : String) (cs : List Comment) (c : Comment) → find_comment i cs ≡ some c → c.id ≡ i
find_comment-id i [] c h = cc
find_comment-id i (d ∷ ds) c h = ground (arith, find_comment-id i ds c, eq_iff d.id i)
