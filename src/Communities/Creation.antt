-- ===== src/Communities/Creation.antt =====
-- What the creation of a community does to the counters and the lists, and to the image storage.
use image_app.Common.{
  ℕ, ◌≡◌, ◌⊎◌, refl, String, true, false, Option, none, some, List, [], ◌∷◌, map, All, arith,
  str_eq, eq_iff, Bool-cases, inl, inr, if◌then◌else◌,
}
use image_app.Common.Counters.{pos}
use image_app.Common.Pairs.{has_pair, firsts, has-cons, has-times}
use image_app.Errors.{Thrown, app, error_storage, handle_mongo_error, Result, ok, err, Result-cases}
use image_app.Communities.{
  admin, Entry, User, Community, Db, ids, add_member, add_community, at_user, push_joined,
  same_text, has_slug,
}
use image_app.Communities.Handlers.{entry_of, refused}
use image_app.Communities.Slug.{generate_slug}
use image_app.Communities.Settings.{
  create_work, create, create_with, create_from, prepare_create, roll_back, NewIds, Image,
  StorageCall, upload_image, delete_image, new_community, avatar_url, message_or,
}
use image_app.Communities.Laws.{
  known, IsListed, IsCounted, IsSound, kept-IsListed, pushed-IsListed, listed-update,
}

-- An id that no document names yet.
pub record IsFresh (i : String) (db : Db) : Type 0 where
  pub unknown : known i db.communities ≡ false
  pub no_member : firsts i (ids db.members) ≡ 0
  pub unlisted :
      All (λ (u : User). All (λ (e : Entry). str_eq i e.community ≡ false) u.joined) db.users

pub has-firsts :
    (c u : String) (ps : List (String × String)) → firsts c ps ≡ 0 → has_pair c u ps ≡ false
unfolding has_pair
has-firsts c u [] h = refl
has-firsts c u ((p, q) ∷ ps) h = ground (arith, has-firsts c u ps)

module _ (c : Community) (u : User) (db : Db) where
  abbrev created_db : Db
  created_db = record {
    users = map (at_user u.id (push_joined (entry_of c))) db.users;
    communities = c ∷ db.communities;
    members = record { community = c.id; user = u.id; role = admin } ∷ db.members;
  }

  fresh-entries :
      (w : String) (es : List Entry)
      → All (λ (e : Entry). str_eq c.id e.community ≡ false) es
      → All
          (λ (e : Entry).
            known e.community db.communities ≡ true
            → has_pair e.community w (ids db.members) ≡ true)
          es
      → All
          (λ (e : Entry).
            known e.community (c ∷ db.communities) ≡ true
            → has_pair e.community w (ids db.members) ≡ true)
          es
  fresh-entries w [] f h = tt
  fresh-entries w (e ∷ es) f h = (λ k. h.0 (ground arith), fresh-entries w es f.1 h.1)

  fresh-listed :
      (us : List User)
      → All (λ (w : User). All (λ (e : Entry). str_eq c.id e.community ≡ false) w.joined) us
      → All (IsListed db.communities (ids db.members)) us
      → All (IsListed (c ∷ db.communities) (ids db.members)) us
  fresh-listed [] f h = tt
  fresh-listed (w ∷ us) f h = (
    record { entries = fresh-entries w.id w.joined f.0 h.0.entries; short = h.0.short },
    fresh-listed us f.1 h.1,
  )

  others-IsCounted :
      (cs : List Community)
      → known c.id cs ≡ false
      → All (IsCounted (ids db.members)) cs
      → All (IsCounted (ids created_db.members)) cs
  others-IsCounted [] k h = tt
  others-IsCounted (x ∷ xs) k h = (
    ground (arith, h.0, eq_iff x.id c.id, eq_iff c.id x.id),
    others-IsCounted xs (ground arith) h.1,
  )

  created-Kept :
      (v : User) (e : Entry)
      → (known e.community created_db.communities ≡ true
          → has_pair e.community v.id (ids db.members) ≡ true)
      → known e.community created_db.communities ≡ true
      → has_pair e.community v.id (ids created_db.members) ≡ true
  created-Kept v e h k = ground (arith, has-cons e.community v.id c.id u.id (ids db.members))

  created_db-IsSound : c.member_count ≡ pos 1 → IsFresh c.id db → IsSound db → IsSound created_db
  created_db-IsSound one f v =
      let new = has-firsts c.id u.id (ids db.members) f.no_member in
      let cs = created_db.communities in
      record {
        counted = (
          ground (arith, one, f.no_member, eq_iff c.id c.id),
          others-IsCounted db.communities f.unknown v.counted,
        );
        once = λ q w. ground (
          arith,
          v.once q w,
          has-times c.id u.id (ids db.members) new,
          eq_iff c.id q,
          eq_iff u.id w,
        );
        listed =
            listed-update cs cs (ids db.members) (ids created_db.members) u.id
              (push_joined (entry_of c)) db.users
              (λ w same h.
                pushed-IsListed cs cs (ids db.members) (ids created_db.members) w (entry_of c)
                  (created-Kept w)
                  (ground (
                    arith,
                    has-cons c.id w.id c.id u.id (ids db.members),
                    eq_iff c.id c.id,
                    eq_iff u.id w.id,
                    eq_iff w.id u.id,
                  ))
                  h)
              (λ w apart h.
                kept-IsListed cs cs (ids db.members) (ids created_db.members) w (created-Kept w) h)
              (fresh-listed db.users f.unlisted v.listed);
      }

  create_work-cases :
      (invalid duplicate : Thrown)
      → IsFresh c.id db
      → (create_work invalid duplicate c u db ≡ (ok c, created_db))
        ⊎ ((e : Thrown) × (create_work invalid duplicate c u db ≡ (err e, db)))
  unfolding create_work add_community add_member
  create_work-cases invalid duplicate f =
      let new = has-firsts c.id u.id (ids db.members) f.no_member in
      elim (Bool-cases (same_text c.slug [])) [
        | inl no_slug ↦ inr (app (handle_mongo_error invalid), rw no_slug refl)
        | inr slug ↦ elim (Bool-cases (has_slug c.slug db.communities)) [
          | inl taken ↦ inr (app (handle_mongo_error duplicate), rw (slug, taken) refl)
          | inr free ↦ inl (rw (slug, free, new) refl)
        ]
      ]

module _ (invalid duplicate : Thrown) (new : NewIds) (name : List ℕ) (description : String)
    (creator : String) (deleted : Result (Unit {0})) (before db : Db) where
  abbrev outcome : Option (Result Image) → Result Community × List StorageCall × Db
  outcome upload = create invalid duplicate new name description creator upload deleted before db

  abbrev uploads : Option (Result Image) → List StorageCall
  uploads none = []
  uploads (some r) = upload_image (generate_slug name none) ∷ []

  abbrev url_of : Option (Result Image) → String
  url_of (some (ok i)) = i.url
  url_of _ = ""

  abbrev Fails : Option (Result Image) → Type 0
  Fails upload = (e : Thrown) × ((outcome upload).0 ≡ err e) × ((outcome upload).2 ≡ db)

  -- How a creation ends: with the community, before any upload, with a failed upload, or with the
  -- deletion of the image that was uploaded.
  pub data Creates (upload : Option (Result Image)) : Type 0 where
    created :
        (c : Community)
        → (outcome upload).0 ≡ ok c
        → c.avatar ≡ url_of upload
        → (outcome upload).1 ≡ uploads upload
        → IsSound (outcome upload).2
        → Creates upload
    nothing_uploaded : Fails upload → (outcome upload).1 ≡ [] → Creates upload
    upload_failed :
        (e : Thrown)
        → upload ≡ some (err e)
        → Fails upload
        → (outcome upload).1 ≡ uploads upload
        → Creates upload
    undone :
        (i : Image)
        → upload ≡ some (ok i)
        → Fails upload
        → (outcome upload).1
          ≡ upload_image (generate_slug name none)
            ∷ (if str_eq i.public_id "" then [] else delete_image i.public_id ∷ [])
        → Creates upload

  module _ (f : IsFresh new.id db) (v : IsSound db) (u : User)
      (h : (prepare_create name creator before).0 ≡ ok u) where
    abbrev made : Option Image → Community
    made image = new_community new name description (avatar_url image) u.id

    without_image : Creates none
    unfolding create create_from create_with roll_back
    without_image = elim (create_work-cases (made none) u db invalid duplicate f) [
      | inl good ↦
          created (made none) (rw (h, good) refl) refl (rw (h, good) refl)
            (rw (h, good) (created_db-IsSound (made none) u db refl f v))
      | inr (e, bad) ↦ nothing_uploaded (e, rw (h, bad) refl, rw (h, bad) refl) (rw (h, bad) refl)
    ]

    with_image : (i : Image) → Creates (some (ok i))
    unfolding create create_from create_with roll_back
    with_image i = elim (create_work-cases (made (some i)) u db invalid duplicate f) [
      | inl good ↦
          created (made (some i)) (rw (h, good) refl) refl (rw (h, good) refl)
            (rw (h, good) (created_db-IsSound (made (some i)) u db refl f v))
      | inr (e, bad) ↦ elim (Bool-cases (str_eq i.public_id "")) [
        | inl no_id ↦
            undone i refl (e, rw (h, bad, no_id) refl, rw (h, bad) refl) (rw (h, bad, no_id) refl)
        | inr id ↦ elim (Result-cases deleted) [
          | inl (x, gone) ↦
              undone i refl (e, rw (h, bad, id, gone) refl, rw (h, bad) refl) (rw (h, bad, id) refl)
          | inr (d, kept) ↦
              undone i refl
                (
                  refused error_storage (message_or "Failed to rollback community avatar upload" d),
                  rw (h, bad, id, kept) refl,
                  rw (h, bad) refl,
                )
                (rw (h, bad, id) refl)
        ]
      ]
    ]

  -- A creation under an id that no document names, from reads that may be out of date, on documents
  -- with right counters and lists. When it succeeds, the counters and the lists are right again, and
  -- the community has the image that was uploaded, if any. When it fails, no document has changed, and
  -- an image that was uploaded, and has an id, has been deleted or its deletion has failed.
  pub create-Creates :
      (upload : Option (Result Image)) → IsFresh new.id db → IsSound db → Creates upload
  unfolding create create_from
  create-Creates upload f v = elim (Result-cases (prepare_create name creator before).0) [
    | inr (e, h) ↦ nothing_uploaded (e, rw h refl, rw h refl) (rw h refl)
    | inl (u, h) ↦ from_user upload u h
  ]
    where
      from_user :
          (upload : Option (Result Image)) (u : User)
          → (prepare_create name creator before).0 ≡ ok u
          → Creates upload
      from_user none u h = without_image f v u h
      from_user (some (ok i)) u h = with_image f v u h i
      from_user (some (err e)) u h =
          upload_failed e refl
            (
              refused error_storage (message_or "Failed to upload community avatar" e),
              rw h refl,
              rw h refl,
            )
            (rw h refl)
