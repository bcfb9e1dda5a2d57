-- ===== src/Comments/Cleared.antt =====
-- What a deletion does to the comments, written without the updates of its handler.
use image_app.Common.{
  ℕ, ◌+◌, ◌≡◌, refl, ◌⊎◌, String, true, false, none, some, List, [], ◌∷◌, map, arith, Bool-cases,
  inl, inr, str_eq, eq_iff,
}
use image_app.Common.Counters.{ℤ}
use image_app.Common.Pairs.{one_if}
use image_app.Common.Text.{codes}
use image_app.Comments.{
  DeletedBy, by_user, by_admin, Comment, find_comment, remove_comment, has_replies, count_replies,
}
use image_app.Comments.Delete.{blank}
use image_app.Comments.Commands.{at}

-- A comment that a deletion has emptied: `c` is what it was.
pub record IsEmptied (c e : Comment) : Type 0 where
  pub no_user : e.user ≡ none
  pub text :
      ((e.deleted ≡ some by_user) × (e.content ≡ codes "[deleted by user]"))
      ⊎ ((e.deleted ≡ some by_admin) × (e.content ≡ codes "[removed by moderator]"))
  pub same_place :
      (e.id ≡ c.id)
      × (e.post ≡ c.post)
      × (e.parent ≡ c.parent)
      × (e.depth ≡ c.depth)
      × (e.reply_count ≡ c.reply_count)

-- How many comments have an id.
abbrev pub with_id : String → List Comment → ℕ
with_id i [] = 0
with_id i (c ∷ cs) = one_if (str_eq c.id i) + with_id i cs

-- What a deletion of `c` does to the comments: it empties it, and no other, or removes it, and no other.
pub data Cleared (id : String) (c : Comment) (before after : List Comment) : Type 0 where
  emptied :
      has_replies id before ≡ true
      → (e : Comment) → find_comment id after ≡ some e
      → IsEmptied c e
      → ((j : String) → str_eq id j ≡ false → find_comment j after ≡ find_comment j before)
      → Cleared id c before after
  removed :
      has_replies id before ≡ false
      → ((j : String) → with_id j after + one_if (str_eq id j) ≡ with_id j before)
      → Cleared id c before after

pub blank-IsEmptied :
    (id : String) (by : DeletedBy) (c : Comment)
    → str_eq c.id id ≡ true
    → IsEmptied c (at id (blank by) c)
blank-IsEmptied id by_user c h = rw h (record {
  no_user = refl;
  text = inl (refl, refl);
  same_place = (refl, refl, refl, refl, refl);
})
blank-IsEmptied id by_admin c h = rw h (record {
  no_user = refl;
  text = inr (refl, refl);
  same_place = (refl, refl, refl, refl, refl);
})

pub others_blank :
    (id j : String) (by : DeletedBy) (cs : List Comment)
    → str_eq id j ≡ false
    → find_comment j (map (at id (blank by)) cs) ≡ find_comment j cs
others_blank id j by [] h = refl
others_blank id j by (c ∷ cs) h = elim (Bool-cases (str_eq c.id id)) [
  | inl this ↦ ground (arith, others_blank id j by cs h, eq_iff c.id id, eq_iff c.id j, eq_iff id j)
  | inr other ↦ rw other (ground (arith, others_blank id j by cs h))
]

pub with_id-remove :
    (id j : String) (cs : List Comment) (c : Comment)
    → find_comment id cs ≡ some c
    → with_id j (remove_comment id cs) + one_if (str_eq id j) ≡ with_id j cs
with_id-remove id j [] c h = cc
with_id-remove id j (d ∷ ds) c h =
    ground (arith, with_id-remove id j ds c, eq_iff d.id id, eq_iff d.id j, eq_iff id j)

pub with_id-count :
    (j i : String) (step : ℤ → ℤ) (cs : List Comment)
    → with_id j (map (at i (count_replies step)) cs) ≡ with_id j cs
with_id-count j i step [] = refl
with_id-count j i step (c ∷ cs) = ground (arith, with_id-count j i step cs)
