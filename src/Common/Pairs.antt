-- ===== src/Common/Pairs.antt =====
-- Collections of documents that each join two ids, under a unique index on both: membership, the
-- removal of one document, and how many documents have a first or a second id.
use mathlib.Core.Path.{◌≡◌, refl}
use mathlib.Core.Bool.{Bool, true, false, ◌&&◌, ◌||◌}
use mathlib.Core.List.{List, [], ◌∷◌}
use Prim.Native.Nat.{ℕ, ◌+◌}
use Prim.Native.String.{String}
use native.Mathlib.Omega.{arith}
use text.Mathlib.Text.{◌==◌ as str_eq}
use text.Mathlib.TextEquality.{eq_iff}
use image_app.Common.Tests.{if◌then◌else◌}
use image_app.Common.Lists.{any}

abbrev pub is_pair : String → String → String × String → Bool
is_pair a b (p, u) = str_eq p a && str_eq u b

unfoldable pub has_pair : String → String → List (String × String) → Bool
has_pair a b ls = any (is_pair a b) ls

-- Takes out the first document that has both ids: whether there was one, and the rest.
unfoldable pub remove_pair :
    String → String → List (String × String) → Bool × List (String × String)
remove_pair a b [] = (false, [])
remove_pair a b (l ∷ ls) =
    let (removed, rest) = remove_pair a b ls in
    if is_pair a b l then (true, ls) else (removed, l ∷ rest)

abbrev pub one_if : Bool → ℕ
one_if b = if b then 1 else 0

-- The documents with a first id, with a second one, and with both.
abbrev pub firsts : String → List (String × String) → ℕ
firsts a [] = 0
firsts a ((p, u) ∷ ls) = one_if (str_eq p a) + firsts a ls

abbrev pub seconds : String → List (String × String) → ℕ
seconds b [] = 0
seconds b ((p, u) ∷ ls) = one_if (str_eq u b) + seconds b ls

abbrev pub times : String → String → List (String × String) → ℕ
times a b [] = 0
times a b (l ∷ ls) = one_if (is_pair a b l) + times a b ls

pub has-times :
    (a b : String) (ls : List (String × String)) → has_pair a b ls ≡ false → times a b ls ≡ 0
unfolding has_pair
has-times a b [] h = refl
has-times a b ((p, u) ∷ ls) h = ground (arith, has-times a b ls)

pub times-has :
    (a b : String) (ls : List (String × String)) → times a b ls ≡ 0 → has_pair a b ls ≡ false
unfolding has_pair
times-has a b [] h = refl
times-has a b ((p, u) ∷ ls) h = ground (arith, times-has a b ls)

pub has-cons :
    (a b p q : String) (ps : List (String × String))
    → has_pair a b ((p, q) ∷ ps) ≡ (is_pair a b (p, q) || has_pair a b ps)
unfolding has_pair
has-cons a b p q ps = refl

module _ (a b : String) where
  pub remove_pair-removes :
      (ls : List (String × String)) → has_pair a b ls ≡ true → (remove_pair a b ls).0 ≡ true
  unfolding has_pair remove_pair
  remove_pair-removes [] h = h
  remove_pair-removes ((p, u) ∷ ls) h = ground (arith, remove_pair-removes ls)

  pub remove_pair-keeps :
      (ls : List (String × String)) → has_pair a b ls ≡ false → (remove_pair a b ls).0 ≡ false
  unfolding has_pair remove_pair
  remove_pair-keeps [] h = refl
  remove_pair-keeps ((p, u) ∷ ls) h = ground (arith, remove_pair-keeps ls)

  pub firsts-remove_pair :
      (q : String) (ls : List (String × String))
      → (remove_pair a b ls).0 ≡ true
      → firsts q (remove_pair a b ls).1 + one_if (str_eq a q) ≡ firsts q ls
  unfolding remove_pair
  firsts-remove_pair q [] h = cc
  firsts-remove_pair q ((p, u) ∷ ls) h = ground (arith, firsts-remove_pair q ls, eq_iff p a)

  pub seconds-remove_pair :
      (q : String) (ls : List (String × String))
      → (remove_pair a b ls).0 ≡ true
      → seconds q (remove_pair a b ls).1 + one_if (str_eq b q) ≡ seconds q ls
  unfolding remove_pair
  seconds-remove_pair q [] h = cc
  seconds-remove_pair q ((p, u) ∷ ls) h = ground (arith, seconds-remove_pair q ls, eq_iff u b)

  pub times-remove_pair :
      (q v : String) (ls : List (String × String))
      → (remove_pair a b ls).0 ≡ true
      → times q v (remove_pair a b ls).1 + one_if (is_pair q v (a, b)) ≡ times q v ls
  unfolding remove_pair
  times-remove_pair q v [] h = cc
  times-remove_pair q v ((p, u) ∷ ls) h =
      ground (arith, times-remove_pair q v ls, eq_iff p a, eq_iff u b)

  -- Other documents stay.
  pub has-remove_pair :
      (q v : String) (ls : List (String × String))
      → is_pair q v (a, b) ≡ false
      → has_pair q v (remove_pair a b ls).1 ≡ has_pair q v ls
  unfolding remove_pair has_pair
  has-remove_pair q v [] other = refl
  has-remove_pair q v ((p, u) ∷ ls) other =
      ground (arith, has-remove_pair q v ls, eq_iff p a, eq_iff u b)
