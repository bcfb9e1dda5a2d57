-- ===== src/Communities/Kicks.antt =====
-- What `kick` and `delete` come to as a whole, when nothing runs between their reads and their
-- transactions.
use image_app.Common.{
  ◌≡◌, refl, ap, ◌∙◌, String, true, false, not, ◌&&◌, none, List, [], ◌∷◌, arith, str_eq, eq_iff,
  Bool-cases, inl, inr, if◌then◌else◌,
}
use image_app.Common.Pairs.{is_pair, has_pair, firsts}
use image_app.Errors.{Thrown, ok, err}
use image_app.Communities.{User, Community, Member, Db, ids, find_member, delete_member}
use image_app.Communities.Handlers.{is_admin, has_role, kick, delete, leave_work, delete_work}
use image_app.Communities.Laws.{
  known, IsSound, firsts-delete_members, has-delete_members, known-delete_community,
}
use image_app.Communities.Commands.{
  left_db, left_db-IsSound, left-gone, left-has, deleted_db, deleted_db-IsSound,
}
use image_app.Communities.Creation.{has-firsts}
use image_app.Communities.Roles.{
  find_member-has, IsKick, prepare_kick-Reads, IsRun, prepare_admin-Reads,
}

find_member-none :
    (c u : String) (ms : List Member) → has_pair c u (ids ms) ≡ false → find_member c u ms ≡ none
unfolding has_pair
find_member-none c u [] h = refl
find_member-none c u (m ∷ ms) h = ground (arith, find_member-none c u ms)

find_member-delete_member :
    (c u q w : String) (ms : List Member)
    → is_pair q w (c, u) ≡ false
    → find_member q w (delete_member c u ms) ≡ find_member q w ms
find_member-delete_member c u q w [] h = refl
find_member-delete_member c u q w (m ∷ ms) h =
    ground (arith, find_member-delete_member c u q w ms, eq_iff m.community c, eq_iff m.user u)

module _ (community actor target : String) (db : Db) (v : IsSound db) where
  -- Who is an administrator of which community stays as it is.
  admins-kick :
      (p : User × Community)
      → IsKick community actor target db p
      → (q w : String)
      → has_role is_admin (find_member q w (left_db p.0 p.1 db).members)
        ≡ has_role is_admin (find_member q w db.members)
  admins-kick (t, c) k q w = elim (Bool-cases (is_pair q w (c.id, t.id))) [
    | inr other ↦ ap (has_role is_admin) (find_member-delete_member c.id t.id q w db.members other)
    | inl this ↦
        let gone =
          find_member-none c.id t.id (left_db t c db).members (
            left-gone t c db (find_member-has c.id t.id db.members k.target_member k.is_there) v) in
        ground (arith, gone, k.is_there, k.no_admin, eq_iff c.id q, eq_iff t.id w)
  ]

  -- How `kick` ends.
  pub data Kicks : Type 0 where
    kicked :
        (p : User × Community)
        → IsKick community actor target db p
        → kick community actor target db db ≡ (ok tt, left_db p.0 p.1 db)
        → IsSound (left_db p.0 p.1 db)
        → ((q w : String)
            → has_pair q w (ids (left_db p.0 p.1 db).members) ≡ (
                if str_eq p.1.id q && str_eq p.0.id w
                then false
                else has_pair q w (ids db.members)))
        → ((q w : String)
            → has_role is_admin (find_member q w (left_db p.0 p.1 db).members)
              ≡ has_role is_admin (find_member q w db.members))
        → Kicks
    refused : (e : Thrown) → kick community actor target db db ≡ (err e, db) → Kicks

  members-kick :
      (t : User) (c : Community)
      → has_pair c.id t.id (ids db.members) ≡ true
      → (q w : String)
      → has_pair q w (ids (left_db t c db).members)
        ≡ (if str_eq c.id q && str_eq t.id w then false else has_pair q w (ids db.members))
  members-kick t c old q w =
      ground (arith, left-has t c db q w, left-gone t c db old v, eq_iff c.id q, eq_iff t.id w)

  -- A kick, on documents with right counters and lists. It succeeds only when an administrator or a
  -- moderator removes a member who is no administrator: the membership of the target in the community
  -- that the command names ends, and no other; nobody loses or gains the role of an administrator anywhere; and the counters and lists stay right. When
  -- it fails, no document has changed.
  pub kick-Kicks : Kicks
  unfolding kick leave_work
  kick-Kicks = elim (prepare_kick-Reads community actor target db) [
    | inr (e, h) ↦ refused e (rw h refl)
    | inl (p, h, k) ↦
        let old = find_member-has p.1.id p.0.id db.members k.target_member k.is_there in
        kicked p k (rw h refl) (left_db-IsSound p.0 p.1 db old v) (members-kick p.0 p.1 old)
          (admins-kick p k)
  ]

module _ (community user : String) (db : Db) (v : IsSound db) where
  -- How `delete` ends.
  pub data Deletes : Type 0 where
    deleted :
        (c : Community)
        → IsRun community user db c
        → delete community user db db ≡ (ok tt, deleted_db c db)
        → IsSound (deleted_db c db)
        → known c.id (deleted_db c db).communities ≡ false
        → firsts c.id (ids (deleted_db c db).members) ≡ 0
        → ((q w : String)
            → has_pair q w (ids (deleted_db c db).members)
              ≡ (if str_eq c.id q then false else has_pair q w (ids db.members)))
        → ((q : String)
            → known q (deleted_db c db).communities
              ≡ (known q db.communities && not (str_eq c.id q)))
        → Deletes
    refused : (e : Thrown) → delete community user db db ≡ (err e, db) → Deletes

  members-delete :
      (c : Community) (q w : String)
      → has_pair q w (ids (deleted_db c db).members)
        ≡ (if str_eq c.id q then false else has_pair q w (ids db.members))
  members-delete c q w = elim (Bool-cases (str_eq c.id q)) [
    | inr other ↦ rw other (has-delete_members c.id q w db.members other)
    | inl this ↦ rw this (
        has-firsts q w (ids (deleted_db c db).members)
          (firsts-delete_members c.id q db.members ∙ ground (arith, this)))
  ]

  -- A deletion, on documents with right counters and lists. It succeeds only for an administrator of
  -- the community; the community is gone then, and all its memberships, and no other community and no
  -- other membership; and the counters and lists stay right. When it fails, no document has changed.
  pub delete-Deletes : Deletes
  unfolding delete delete_work
  delete-Deletes =
      elim (prepare_admin-Reads community user db
        "Only community admins can delete the community") [
          | inr (e, h) ↦ refused e (rw h refl)
          | inl (c, h, k) ↦
              deleted c k (rw h refl) (deleted_db-IsSound c db v)
                (known-delete_community c.id c.id db.communities ∙ ground (arith, eq_iff c.id c.id))
                (firsts-delete_members c.id c.id db.members ∙ ground (arith, eq_iff c.id c.id))
                (members-delete c) (λ q. known-delete_community c.id q db.communities)
        ]
