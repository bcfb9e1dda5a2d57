-- ===== src/Comments/Threads.antt =====
-- `getCommentWithAncestors` of backend/src/repositories/comment.repository.ts: its loop always ends.
use mathlib.Core.Path.{subst}
use mathlib.Core.Option.{some-injective}
use mathlib.Core.List.{map-append}
use image_app.Common.{
  ℕ, zero, suc, ◌≡◌, refl, sym, ap, ◌∙◌, String, Option, none, some, List, [], ◌∷◌, ◌++◌, map, All,
  All-append, All-imply, arith, str_eq, Bool-cases, inl, inr,
}
use image_app.Comments.{Comment, Db, find_comment}
use image_app.Comments.Laws.{IsUnder, IsPlaced, IsThreaded}

abbrev deeper : Comment → Option (List Comment) → Option (List Comment)
deeper q none = none
deeper q (some rest) = some (rest ++ q ∷ [])

abbrev from_parent : (Comment → Option (List Comment)) → Option Comment → Option (List Comment)
from_parent go none = some []
from_parent go (some q) = deeper q (go q)

-- The loop, with fuel, and the reversal at its end; `none` means that the fuel ran out.
unfoldable pub ancestors_from : ℕ → List Comment → Option String → Option (List Comment)
ancestors_from zero cs o = none
ancestors_from (suc fuel) cs none = some []
ancestors_from (suc fuel) cs (some p) =
    from_parent (λ q. ancestors_from fuel cs q.parent) (find_comment p cs)

abbrev with_comment : Comment → Option (List Comment) → Option (Option Comment × List Comment)
with_comment c none = none
with_comment c (some rest) = some (some c, rest)

abbrev of_found : ℕ → List Comment → Option Comment → Option (Option Comment × List Comment)
unfolding ancestors_from
of_found fuel cs none = some (none, [])
of_found fuel cs (some c) = with_comment c (ancestors_from fuel cs c.parent)

unfoldable pub get_comment_with_ancestors :
    ℕ → List Comment → String → Option (Option Comment × List Comment)
unfolding ancestors_from
get_comment_with_ancestors fuel cs i = of_found fuel cs (find_comment i cs)

-- 0, 1, and so on, up to a bound.
abbrev pub below : ℕ → List ℕ
below zero = []
below (suc n) = below n ++ n ∷ []

find_comment-All :
    (P : Comment → Type 0) (i : String) (cs : List Comment) (c : Comment)
    → find_comment i cs ≡ some c
    → All P cs
    → P c
find_comment-All P i [] c h k = cc
find_comment-All P i (d ∷ ds) c h k = elim (Bool-cases (str_eq d.id i)) [
  | inl here ↦ subst P (some-injective d c (rw here at h)) k.0
  | inr there ↦ find_comment-All P i ds c (rw there at h) k.1
]

-- The ancestors of a comment, from the root down: one at each depth, all on its post.
abbrev pub IsAncestry : Comment → List Comment → Type 0
IsAncestry c cs = (map (λ a. a.depth) cs ≡ below c.depth) × All (λ a. a.post ≡ c.post) cs

module _ (cs : List Comment) (placed : All (IsPlaced cs) cs) where
  abbrev Found : ℕ → Comment → Type 0
  Found fuel c =
      (rest : List Comment) × (ancestors_from fuel cs c.parent ≡ some rest) × IsAncestry c rest

  extended :
      (c q : Comment)
      → q.post ≡ c.post
      → c.depth ≡ suc q.depth
      → (rest : List Comment) → IsAncestry q rest
      → IsAncestry c (rest ++ q ∷ [])
  extended c q same deep rest h = (
    map-append (λ (a : Comment). a.depth) rest (q ∷ [])
        ∙ (ap (λ ds. ds ++ q.depth ∷ []) h.0 ∙ sym (ap below deep)),
    All-append (λ (a : Comment). a.post ≡ c.post) rest (q ∷ [])
        (All-imply (λ (a : Comment). a.post ≡ q.post) (λ (a : Comment). a.post ≡ c.post) rest
          (λ a k. k ∙ same) h.1)
        (same, tt),
  )

  ancestors-Found :
      (n : ℕ) (c : Comment) (o : Option String)
      → c.parent ≡ o
      → c.depth ≡ n
      → IsUnder cs c o
      → Found (suc n) c
  unfolding ancestors_from
  ancestors-Found n c none e d h = ([], rw e refl, (rw h refl, tt))
  ancestors-Found zero c (some p) e d (q, found, same, deep) = absurd (ground (arith, d, deep))
  ancestors-Found (suc n) c (some p) e d (q, found, same, deep) =
      let (rest, runs, ancestry) =
        ancestors-Found n q q.parent refl (ground (arith, d, deep))
          (find_comment-All (IsPlaced cs) p cs q found placed) in
      (rest ++ q ∷ [], rw (e, found, runs) refl, extended c q same deep rest ancestry)

-- The loop that collects the ancestors of a comment ends, when every comment stands right below the
-- one that it answers: after one round for each of them. It returns one ancestor at each depth, from
-- the root down to the comment that is answered, all on the comment's post.
pub get_comment_with_ancestors_ends :
    (db : Db) (i : String) (c : Comment)
    → IsThreaded db
    → find_comment i db.comments ≡ some c
    → (rest : List Comment) × (get_comment_with_ancestors (suc c.depth) db.comments i
        ≡ some (some c, rest))
      × IsAncestry c rest
unfolding get_comment_with_ancestors
get_comment_with_ancestors_ends db i c v found =
    let (rest, runs, ancestry) =
      ancestors-Found db.comments v.placed c.depth c c.parent refl refl
        (find_comment-All (IsPlaced db.comments) i db.comments c found v.placed) in
    (rest, rw (found, runs) refl, ancestry)
