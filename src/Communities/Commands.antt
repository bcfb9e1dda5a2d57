-- ===== src/Communities/Commands.antt =====
-- What the transactions of the commands do to the counters and the lists.
use image_app.Common.{
  ◌≡◌, refl, sym, ap, ◌∙◌, String, true, false, List, [], ◌∷◌, map, All, arith, str_eq, eq_iff,
  Bool-cases, inl, inr,
}
use image_app.Common.Counters.{pos, add_one, minus_one}
use image_app.Common.Pairs.{
  is_pair, has_pair, firsts, remove_pair, has-cons, has-times, times-has, remove_pair-removes,
  firsts-remove_pair, times-remove_pair, has-remove_pair,
}
use image_app.Errors.{Thrown, app, handle_mongo_error, ok, err}
use image_app.Communities.{
  Entry, User, Community, Member, Db, ids, member, add_member, delete_member, delete_members,
  delete_community, at_community, at_user, count_member, push_joined, pull_joined,
}
use image_app.Communities.Handlers.{entry_of, join_work, leave_work}
use image_app.Communities.Laws.{
  known, IsListed, IsCounted, IsSound, ids-delete_member, times-delete_members, has-delete_members,
  known-delete_community, IsCounted-delete, IsCounted-update, known-count, kept-IsListed,
  pushed-IsListed, pulled-IsListed, listed-update,
}

module _ (u : User) (c : Community) (db : Db) where
  abbrev pub joined_db : Db
  joined_db = record db {
    users = map (at_user u.id (push_joined (entry_of c))) db.users;
    communities = map (at_community c.id (count_member add_one)) db.communities;
    members = record { community = c.id; user = u.id; role = member } ∷ db.members;
  }

  pub join_work-joins :
      (duplicate : Thrown)
      → has_pair c.id u.id (ids db.members) ≡ false
      → join_work duplicate (u, c) db ≡ (ok tt, joined_db)
  unfolding join_work add_member
  join_work-joins duplicate new = rw new refl

  pub join_work-refuses :
      (duplicate : Thrown)
      → has_pair c.id u.id (ids db.members) ≡ true
      → join_work duplicate (u, c) db ≡ (err (app (handle_mongo_error duplicate)), db)
  unfolding join_work add_member
  join_work-refuses duplicate old = rw old refl

  joined-Kept :
      (v : User) (e : Entry)
      → (known e.community db.communities ≡ true
          → has_pair e.community v.id (ids db.members) ≡ true)
      → known e.community joined_db.communities ≡ true
      → has_pair e.community v.id (ids joined_db.members) ≡ true
  joined-Kept v e h k = ground (
    arith,
    has-cons e.community v.id c.id u.id (ids db.members),
    known-count e.community c.id add_one db.communities,
  )

  pub joined_db-IsSound :
      has_pair c.id u.id (ids db.members) ≡ false → IsSound db → IsSound joined_db
  joined_db-IsSound new v = record {
    counted =
        IsCounted-update c.id add_one (ids db.members) (ids joined_db.members) db.communities
          (λ q. ground (arith, eq_iff q c.id, eq_iff c.id q)) v.counted;
    once = λ q w.
        ground (
          arith,
          v.once q w,
          has-times c.id u.id (ids db.members) new,
          eq_iff c.id q,
          eq_iff u.id w,
        );
    listed =
        listed-update db.communities joined_db.communities (ids db.members) (ids joined_db.members)
          u.id (push_joined (entry_of c)) db.users
          (λ w same h.
            pushed-IsListed db.communities joined_db.communities (ids db.members)
              (ids joined_db.members) w (entry_of c) (joined-Kept w)
              (ground (
                arith,
                has-cons c.id w.id c.id u.id (ids db.members),
                eq_iff c.id c.id,
                eq_iff u.id w.id,
                eq_iff w.id u.id,
              ))
              h)
          (λ w apart h.
            kept-IsListed db.communities joined_db.communities (ids db.members)
              (ids joined_db.members) w (joined-Kept w) h)
          v.listed;
  }

delete_member-absent :
    (c u : String) (ms : List Member) → has_pair c u (ids ms) ≡ false → delete_member c u ms ≡ ms
unfolding has_pair
delete_member-absent c u [] h = refl
delete_member-absent c u (m ∷ ms) h = ground (arith, delete_member-absent c u ms)

module _ (u : User) (c : Community) (db : Db) where
  abbrev pub left_db : Db
  left_db = record db {
    users = map (at_user u.id (pull_joined c.id)) db.users;
    communities = map (at_community c.id (count_member minus_one)) db.communities;
    members = delete_member c.id u.id db.members;
  }

  leave_work-leaves : leave_work (u, c) db ≡ (ok tt, left_db)
  unfolding leave_work
  leave_work-leaves = refl

  pub left-has :
      (q w : String)
      → is_pair q w (c.id, u.id) ≡ false
      → has_pair q w (ids left_db.members) ≡ has_pair q w (ids db.members)
  left-has q w other =
      rw (ids-delete_member c.id u.id db.members)
        (has-remove_pair c.id u.id q w (ids db.members) other)

  left-Kept :
      (v : User) (e : Entry)
      → is_pair e.community v.id (c.id, u.id) ≡ false
      → (known e.community db.communities ≡ true
          → has_pair e.community v.id (ids db.members) ≡ true)
      → known e.community left_db.communities ≡ true
      → has_pair e.community v.id (ids left_db.members) ≡ true
  left-Kept v e other h k =
      left-has e.community v.id other
      ∙ h (sym (known-count e.community c.id minus_one db.communities) ∙ k)

  pub left_db-IsSound : has_pair c.id u.id (ids db.members) ≡ true → IsSound db → IsSound left_db
  left_db-IsSound old v =
      let removed = remove_pair-removes c.id u.id (ids db.members) old in
      let same = ids-delete_member c.id u.id db.members in
      record {
        counted =
            IsCounted-update c.id minus_one (ids db.members) (ids left_db.members) db.communities
              (λ q. ground (
                arith,
                firsts-remove_pair c.id u.id q (ids db.members) removed,
                same,
                eq_iff q c.id,
                eq_iff c.id q,
              ))
              v.counted;
        once = λ q w.
            rw same
              (omega (arith, times-remove_pair c.id u.id q w (ids db.members) removed, v.once q w));
        listed =
            listed-update db.communities left_db.communities (ids db.members) (ids left_db.members)
              u.id (pull_joined c.id) db.users
              (λ w this h.
                pulled-IsListed db.communities left_db.communities (ids db.members)
                  (ids left_db.members) w c.id
                  (λ e apart.
                    left-Kept w e
                      (ground (arith, eq_iff c.id e.community, eq_iff e.community c.id)))
                  h)
              (λ w apart h.
                kept-IsListed db.communities left_db.communities (ids db.members)
                  (ids left_db.members) w
                  (λ e. left-Kept w e (ground (arith, eq_iff u.id w.id, eq_iff w.id u.id))) h)
              v.listed;
      }

  drifted :
      (ps : List (String × String)) (cs : List Community)
      → All (IsCounted ps) cs
      → All
          (λ (x : Community).
            str_eq x.id c.id ≡ true → x.member_count ≡ minus_one (pos (firsts x.id ps)))
          (map (at_community c.id (count_member minus_one)) cs)
  drifted ps [] h = tt
  drifted ps (x ∷ xs) h = (
    elim (Bool-cases (str_eq x.id c.id)) [
      | inl this ↦ rw this (λ k. ap minus_one h.0)
      | inr other ↦ rw other (λ k. cc k)
    ],
    drifted ps xs h.1,
  )

  -- What the work of `leave` and of `kick` comes to.
  pub data Leaves : Type 0 where
    left :
        has_pair c.id u.id (ids db.members) ≡ true
        → leave_work (u, c) db ≡ (ok tt, left_db)
        → IsSound left_db
        → has_pair c.id u.id (ids left_db.members) ≡ false
        → ((q w : String)
            → is_pair q w (c.id, u.id) ≡ false
            → has_pair q w (ids left_db.members) ≡ has_pair q w (ids db.members))
        → Leaves
    miscounted :
        has_pair c.id u.id (ids db.members) ≡ false
        → leave_work (u, c) db ≡ (ok tt, left_db)
        → left_db.members ≡ db.members
        → All
            (λ (x : Community).
              str_eq x.id c.id ≡ true
              → x.member_count ≡ minus_one (pos (firsts x.id (ids left_db.members))))
            left_db.communities
        → Leaves

  pub left-gone :
      has_pair c.id u.id (ids db.members) ≡ true
      → IsSound db
      → has_pair c.id u.id (ids left_db.members) ≡ false
  left-gone old v = rw (ids-delete_member c.id u.id db.members) (
      times-has c.id u.id (remove_pair c.id u.id (ids db.members)).1 (
        ground (
          arith,
          times-remove_pair c.id u.id c.id u.id (ids db.members)
              (remove_pair-removes c.id u.id (ids db.members) old),
          v.once c.id u.id,
          eq_iff c.id c.id,
          eq_iff u.id u.id,
        )))

  -- The transaction of a user who leaves a community, or is removed from it, on documents with right
  -- counters, which may have changed since the handler read that the user is a member. It always
  -- commits. If the user still is one, the membership ends, every other one stays, and the counters and
  -- the lists of all users stay right. If not, no membership changes, and the counter of the community
  -- is one less than the number of its members.
  pub leave_work-Leaves : IsSound db → Leaves
  unfolding leave_work
  leave_work-Leaves v = elim (Bool-cases (has_pair c.id u.id (ids db.members))) [
    | inl old ↦ left old refl (left_db-IsSound old v) (left-gone old v) left-has
    | inr gone ↦
        let same = delete_member-absent c.id u.id db.members gone in
        miscounted gone refl same (rw same (drifted (ids db.members) db.communities v.counted))
  ]

module _ (c : Community) (db : Db) where
  abbrev pub deleted_db : Db
  deleted_db = record db {
    members = delete_members c.id db.members;
    communities = delete_community c.id db.communities;
  }

  deleted-Kept :
      (v : User) (e : Entry)
      → (known e.community db.communities ≡ true
          → has_pair e.community v.id (ids db.members) ≡ true)
      → known e.community deleted_db.communities ≡ true
      → has_pair e.community v.id (ids deleted_db.members) ≡ true
  deleted-Kept v e h k = ground (
    arith,
    has-delete_members c.id e.community v.id db.members,
    known-delete_community c.id e.community db.communities,
  )

  deleted-users :
      (us : List User)
      → All (IsListed db.communities (ids db.members)) us
      → All (IsListed deleted_db.communities (ids deleted_db.members)) us
  deleted-users [] h = tt
  deleted-users (w ∷ us) h = (
    kept-IsListed db.communities deleted_db.communities (ids db.members) (ids deleted_db.members) w
        (deleted-Kept w) h.0,
    deleted-users us h.1,
  )

  pub deleted_db-IsSound : IsSound db → IsSound deleted_db
  deleted_db-IsSound v = record {
    counted = IsCounted-delete c.id db.members db.communities v.counted;
    once = λ q w. omega (arith, times-delete_members c.id q w db.members, v.once q w);
    listed = deleted-users db.users v.listed;
  }
