-- ===== src/Communities/Tests.antt =====
-- A community of three users.
use image_app.Common.{
  ℕ, ◌≡◌, refl, true, Option, none, some, List, [], ◌∷◌, arith, eq_iff, str_eq, Bool-cases, inl,
  inr, ap,
}
use image_app.Common.Counters.{pos}
use image_app.Common.Pairs.{has_pair}
use image_app.Common.Text.{codes}
use image_app.Errors.{Thrown, forbidden_error, string, ok, err, Result}
use image_app.Communities.{admin, member, User, Community, Db}
use image_app.Communities.Handlers.{refused, join, leave, kick}
use image_app.Communities.Slug.{generate_slug}
use image_app.Communities.Slug.Laws.{is_slug, generate_slug-is_slug}
use image_app.Communities.Settings.{Image, NewIds, create}
use image_app.Communities.Laws.{IsSound}
use image_app.Communities.Commands.{Leaves, leave_work-Leaves}
use image_app.Communities.Creation.{IsFresh, Creates, create-Creates}
use image_app.Communities.Kicks.{Kicks, kick-Kicks, Deletes, delete-Deletes}
use image_app.Communities.Runs.{Joins, join-Joins, Reach, start, creates, joins, Reach-IsSound}

slug_of_title : generate_slug (codes " Sea & Sky!") none ≡ codes "sea-sky"
unfolding generate_slug
slug_of_title = refl

abbrev sky : Community
sky = record {
  id = "c1";
  public_id = "sky";
  name = codes "Sky";
  slug = codes "sky";
  description = "";
  avatar = "";
  cover_photo = "";
  creator = "u1";
  member_count = pos 2;
  post_count = pos 0;
}

abbrev ann : User
ann = record {
  id = "u1";
  public_id = "ann";
  joined = record { community = "c1"; name = codes "Sky"; slug = codes "sky" } ∷ [];
}

abbrev bob : User
bob = record { id = "u2"; public_id = "bob"; joined = [] }

abbrev cid : User
cid = record { id = "u3"; public_id = "cid"; joined = [] }

abbrev db : Db
db = record {
  users = ann ∷ bob ∷ cid ∷ [];
  communities = sky ∷ [];
  members =
      record { community = "c1"; user = "u1"; role = admin }
      ∷ record { community = "c1"; user = "u2"; role = member }
      ∷ [];
}

db-IsSound : IsSound db
unfolding has_pair
db-IsSound = record {
  counted = (refl, tt);
  once = λ c u. elim (Bool-cases (str_eq "u1" u)) [
    | inl e ↦ ground (arith, ap (λ x. str_eq "u2" x) ((eq_iff "u1" u).0 e))
    | inr n ↦ ground arith
  ];
  listed = (
    record { entries = (λ k. refl, tt); short = omega arith },
    (
      record { entries = tt; short = omega arith },
      (record { entries = tt; short = omega arith }, tt),
    ),
  );
}

abbrev violation : Thrown
violation = string "E11000"

abbrev sea : NewIds
sea = record { id = "c2"; public_id = "sea" }

abbrev photo : Option (Result Image)
photo = some (ok (record { url = "https://img/1"; public_id = "img1" }))

sea-IsFresh : IsFresh "c2" db
sea-IsFresh = record { unknown = refl; no_member = refl; unlisted = ((refl, tt), (tt, (tt, tt))) }

bob_cannot_kick :
    kick "sky" "bob" "ann" db db
    ≡ (err (refused forbidden_error "Only admins or moderators can kick members"), db)
unfolding kick
bob_cannot_kick = refl

left_twice :
    (leave "sky" "bob" db (leave "sky" "bob" db db).1).1.communities
    ≡ record sky { member_count = pos 0 } ∷ []
unfolding leave
left_twice = refl

generate_slug-is_slug_example :
    (is_slug (generate_slug (codes " Sea & Sky!") none) ≡ true)
    × ((s : List ℕ) → is_slug s ≡ true → generate_slug s none ≡ s)
generate_slug-is_slug_example = generate_slug-is_slug (codes " Sea & Sky!")

join-Joins_example : Joins violation "sky" "cid" db db
join-Joins_example = join-Joins violation "sky" "cid" db db db-IsSound

leave_work-Leaves_example : Leaves bob sky db
leave_work-Leaves_example = leave_work-Leaves bob sky db db-IsSound

kick-Kicks_example : Kicks "sky" "ann" "bob" db db-IsSound
kick-Kicks_example = kick-Kicks "sky" "ann" "bob" db db-IsSound

delete-Deletes_example : Deletes "sky" "ann" db db-IsSound
delete-Deletes_example = delete-Deletes "sky" "ann" db db-IsSound

create-Creates_example : Creates violation violation sea (codes "Sea") "" "ann" (ok tt) db db photo
create-Creates_example =
    create-Creates violation violation sea (codes "Sea") "" "ann" (ok tt) db db photo sea-IsFresh
      db-IsSound

abbrev strangers : List User
strangers = bob ∷ cid ∷ []

abbrev empty : Db
empty = record { users = strangers; communities = []; members = [] }

abbrev first : Db
first = (create violation violation sea (codes "Sea") "" "bob" none (ok tt) empty empty).2

first-Reach : Reach first
first-Reach =
    creates violation violation sea (codes "Sea") "" "bob" none (ok tt) empty empty
      (record { unknown = refl; no_member = refl; unlisted = (tt, (tt, tt)) })
      (start strangers (refl, (refl, tt)))

Reach-IsSound_example : IsSound (join violation "sea" "cid" first first).1
Reach-IsSound_example =
    Reach-IsSound (join violation "sea" "cid" first first).1
      (joins violation "sea" "cid" first first first-Reach)
