-- ===== src/Common/Counters.antt =====
-- Stored counters.
use Prim.Native.Nat.{ℕ, zero, suc}
use Prim.Native.String.{String}
use mathlib.Core.Path.{◌≡◌, sym, ap, ◌∙◌}
use mathlib.Core.Logic.{inl, inr}
use mathlib.Core.List.{List, [], ◌∷◌, map}
use text.Mathlib.Text.{◌==◌ as str_eq}
use image_app.Common.Lists.{All}
use image_app.Common.Tests.{if◌then◌else◌, Bool-cases}

-- A stored counter, which `$inc` can take below zero.
pub data ℤ : Type 0 where
  pos negsuc : ℕ → ℤ

abbrev pub add_one : ℤ → ℤ
add_one (pos n) = pos (suc n)
add_one (negsuc zero) = pos 0
add_one (negsuc (suc n)) = negsuc n

abbrev pub minus_one : ℤ → ℤ
minus_one (pos zero) = negsuc 0
minus_one (pos (suc n)) = pos n
minus_one (negsuc n) = negsuc (suc n)

-- Documents of type `A` that each keep a counter, which is to be `n` of their id: the update of those
-- with the id `i` by `f`, which makes one `step` of the counter, when `n` becomes `n'`.
module _ {A : Type 0} (id : A → String) (count : A → ℤ) (i : String) (step : ℤ → ℤ) (f : A → A)
    (n n' : String → ℕ) where
  pub counted-update :
      (xs : List A)
      → ((x : A) → id (f x) ≡ id x)
      → ((x : A) → count (f x) ≡ step (count x))
      → ((q : String) → (if str_eq q i then step (pos (n q)) else pos (n q)) ≡ pos (n' q))
      → All (λ x. count x ≡ pos (n (id x))) xs
      → All (λ x. count x ≡ pos (n' (id x))) (map (λ x. if str_eq (id x) i then f x else x) xs)
  counted-update [] same steps agree h = tt
  counted-update (x ∷ xs) same steps agree h = (
    elim (Bool-cases (str_eq (id x) i)) [
      | inl this ↦
          rw (this, steps x, same x, h.0)
            (sym (ap (λ b. if b then step (pos (n (id x))) else pos (n (id x))) this)
              ∙ agree (id x))
      | inr other ↦
          rw (other, h.0)
            (sym (ap (λ b. if b then step (pos (n (id x))) else pos (n (id x))) other)
              ∙ agree (id x))
    ],
    counted-update xs same steps agree h.1,
  )
