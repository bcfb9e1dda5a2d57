-- ===== src/Communities/Slug/Laws.antt =====
-- The form of slugs.
use image_app.Common.{
  ℕ, ◌≡◌, refl, ap, ◌∙◌, Bool, true, false, not, ◌&&◌, List, [], ◌∷◌, arith, ◌==◌, none,
  if◌then◌else◌,
}
use image_app.Common.Text.{lower}
use image_app.Communities.Slug.{is_plain, dashes, drop_first, drop_last, generate_slug}

-- Letters, digits and single dashes, after a dash or not.
abbrev single_dashes : Bool → List ℕ → Bool
single_dashes after [] = true
single_dashes after (c ∷ cs) =
    if is_plain c then single_dashes false cs else (c == b'-') && not after && single_dashes true cs

-- The same, with a letter or a digit at the end.
abbrev ends_plain : Bool → List ℕ → Bool
ends_plain after [] = not after
ends_plain after (c ∷ cs) =
    if is_plain c then ends_plain false cs else (c == b'-') && not after && ends_plain true cs

-- Words of small letters and digits, joined by single dashes.
abbrev pub is_slug : List ℕ → Bool
is_slug [] = true
is_slug (c ∷ cs) = ends_plain true (c ∷ cs)

single_dashes-dashes :
    (inside : Bool) (cs : List ℕ) → single_dashes inside (dashes inside cs) ≡ true
single_dashes-dashes inside [] = refl
single_dashes-dashes true (c ∷ cs) =
    ground (arith, single_dashes-dashes true cs, single_dashes-dashes false cs)
single_dashes-dashes false (c ∷ cs) =
    ground (arith, single_dashes-dashes true cs, single_dashes-dashes false cs)

single_dashes-drop_first :
    (cs : List ℕ) → single_dashes false cs ≡ true → single_dashes true (drop_first cs) ≡ true
single_dashes-drop_first [] h = refl
single_dashes-drop_first (c ∷ cs) h = ground arith

ends_plain-drop_last :
    (after : Bool) (c : ℕ) (cs : List ℕ)
    → single_dashes after (c ∷ cs) ≡ true
    → ends_plain after (drop_last (c ∷ cs)) ≡ true
ends_plain-drop_last after c [] h = ground arith
ends_plain-drop_last after c (d ∷ cs) h =
    ground (arith, ends_plain-drop_last false d cs, ends_plain-drop_last true d cs)

is_slug_of_ends : (cs : List ℕ) → ends_plain true cs ≡ true → is_slug cs ≡ true
is_slug_of_ends [] h = refl
is_slug_of_ends (c ∷ cs) h = h

is_slug-drop_last : (cs : List ℕ) → single_dashes true cs ≡ true → is_slug (drop_last cs) ≡ true
is_slug-drop_last [] h = refl
is_slug-drop_last (c ∷ cs) h =
    is_slug_of_ends (drop_last (c ∷ cs)) (ends_plain-drop_last true c cs h)

lower_of_slug : (after : Bool) (cs : List ℕ) → ends_plain after cs ≡ true → lower cs ≡ cs
lower_of_slug after [] h = refl
lower_of_slug after (c ∷ cs) h = ground (arith, lower_of_slug false cs, lower_of_slug true cs)

dashes_of_slug : (after : Bool) (cs : List ℕ) → ends_plain after cs ≡ true → dashes after cs ≡ cs
dashes_of_slug after [] h = refl
dashes_of_slug after (c ∷ cs) h = ground (arith, dashes_of_slug false cs, dashes_of_slug true cs)

drop_last_of_slug : (after : Bool) (cs : List ℕ) → ends_plain after cs ≡ true → drop_last cs ≡ cs
drop_last_of_slug after [] h = refl
drop_last_of_slug after (c ∷ []) h = ground arith
drop_last_of_slug after (c ∷ d ∷ cs) h =
    ground (arith, drop_last_of_slug false (d ∷ cs), drop_last_of_slug true (d ∷ cs))

ends_weaker : (cs : List ℕ) → ends_plain true cs ≡ true → ends_plain false cs ≡ true
ends_weaker [] h = refl
ends_weaker (c ∷ cs) h = ground arith

drop_first_of_slug : (cs : List ℕ) → ends_plain true cs ≡ true → drop_first cs ≡ cs
drop_first_of_slug [] h = refl
drop_first_of_slug (c ∷ cs) h = ground arith

generate_slug_of_slug : (cs : List ℕ) → is_slug cs ≡ true → generate_slug cs none ≡ cs
unfolding generate_slug
generate_slug_of_slug [] h = refl
generate_slug_of_slug (c ∷ cs) h =
    ap (λ x. drop_last (drop_first (dashes false x))) (lower_of_slug true (c ∷ cs) h)
    ∙ (ap (λ x. drop_last (drop_first x)) (dashes_of_slug false (c ∷ cs) (ends_weaker (c ∷ cs) h))
        ∙ (ap drop_last (drop_first_of_slug (c ∷ cs) h) ∙ drop_last_of_slug true (c ∷ cs) h))

-- A slug without a bound on its length is empty, or words of small letters and digits that are joined
-- by single dashes; and every text of this form is its own slug.
pub generate_slug-is_slug :
    (input : List ℕ)
    → (is_slug (generate_slug input none) ≡ true)
      × ((s : List ℕ) → is_slug s ≡ true → generate_slug s none ≡ s)
unfolding generate_slug
generate_slug-is_slug input = (
  is_slug-drop_last (drop_first (dashes false (lower input))) (
      single_dashes-drop_first (dashes false (lower input))
        (single_dashes-dashes false (lower input))),
  generate_slug_of_slug,
)
