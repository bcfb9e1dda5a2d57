-- ===== src/Communities/Slug.antt =====
-- `generateSlug` of backend/src/utils/helpers.ts, on code points.
pub mod Laws
use image_app.Common.{
  ℕ, zero, suc, Bool, true, false, ◌&&◌, ◌||◌, Option, none, some, List, [], ◌∷◌, take, leb, ◌==◌,
  if◌then◌else◌,
}
use image_app.Common.Text.{lower}

-- `[a-z0-9]`
abbrev pub is_plain : ℕ → Bool
is_plain c = (leb b'a' c && leb c b'z') || (leb b'0' c && leb c b'9')

-- `.replace(/[^a-z0-9]+/g, "-")`; the flag says that the code point before was replaced too.
abbrev pub dashes : Bool → List ℕ → List ℕ
dashes inside [] = []
dashes inside (c ∷ cs) =
    if is_plain c
    then c ∷ dashes false cs
    else if inside
    then dashes true cs
    else b'-' ∷ dashes true cs

-- `.replace(/(^-|-$)/g, "")`
abbrev pub drop_first : List ℕ → List ℕ
drop_first [] = []
drop_first (c ∷ cs) = if c == b'-' then cs else c ∷ cs

abbrev pub drop_last : List ℕ → List ℕ
drop_last [] = []
drop_last (c ∷ []) = if c == b'-' then [] else c ∷ []
drop_last (c ∷ d ∷ cs) = c ∷ drop_last (d ∷ cs)

-- `if (maxLength) slug = slug.slice(0, maxLength)`
abbrev pub cut : Option ℕ → List ℕ → List ℕ
cut none slug = slug
cut (some zero) slug = slug
cut (some (suc n)) slug = take (suc n) slug

unfoldable pub generate_slug : List ℕ → Option ℕ → List ℕ
generate_slug input max_length =
    cut max_length (drop_last (drop_first (dashes false (lower input))))
