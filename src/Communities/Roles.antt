-- ===== src/Communities/Roles.antt =====
-- Who may do what: what the handlers have read when they go on to their transactions, and that no
-- kick ends the membership of an administrator.
use image_app.Common.{
  ◌≡◌, refl, ◌⊎◌, String, true, false, some, List, [], ◌∷◌, arith, Bool-cases, Option-cases, inl,
  inr,
}
use image_app.Common.Pairs.{has_pair}
use image_app.Errors.{Thrown, validation_error, not_found_error, forbidden_error, Result, ok, err}
use image_app.Communities.{
  User, Community, Member, Db, ids, find_user, find_by_public_id, find_member,
}
use image_app.Communities.Handlers.{
  refused, is_admin, is_staff, has_role, prepare_leave, prepare_kick, prepare_admin,
}

pub find_member-has :
    (c u : String) (ms : List Member) (m : Member)
    → find_member c u ms ≡ some m
    → has_pair c u (ids ms) ≡ true
unfolding has_pair
find_member-has c u [] m h = cc
find_member-has c u (x ∷ xs) m h = ground (arith, find_member-has c u xs m)

abbrev missing_user : Thrown
missing_user = refused not_found_error "User not found"

abbrev missing_community : Thrown
missing_community = refused not_found_error "Community not found"

-- What a read before a transaction comes to: it throws, or what it found is as `P` says.
abbrev pub Reads : {A : Type 0} → (A → Type 0) → Result A → Type 0
Reads {A} P r = ((x : A) × (r ≡ ok x) × P x) ⊎ ((e : Thrown) × (r ≡ err e))

module _ (community user : String) (db : Db) where
  pub prepare_leave-Reads :
      Reads
        (λ p. has_pair p.1.id p.0.id (ids db.members) ≡ true)
        (prepare_leave community user db).0
  unfolding prepare_leave
  prepare_leave-Reads = elim (Option-cases (find_user user db.users)) [
    | inl n ↦ inr (missing_user, rw n refl)
    | inr (u, f) ↦ elim (Option-cases (find_by_public_id community db.communities)) [
      | inl n ↦ inr (missing_community, rw (f, n) refl)
      | inr (c, g) ↦ elim (Option-cases (find_member c.id u.id db.members)) [
        | inl n ↦
            inr
              (refused validation_error "User is not a member of this community", rw (f, g, n) refl)
        | inr (m, k) ↦ inl ((u, c), rw (f, g, k) refl, find_member-has c.id u.id db.members m k)
      ]
    ]
  ]

  -- The community and its administrator.
  pub record IsRun (c : Community) : Type 0 where
    pub admin_user : User
    pub named : find_user user db.users ≡ some admin_user
    pub found : find_by_public_id community db.communities ≡ some c
    pub may : has_role is_admin (find_member c.id admin_user.id db.members) ≡ true

  pub prepare_admin-Reads :
      (message : String) → Reads IsRun (prepare_admin community user message db).0
  unfolding prepare_admin
  prepare_admin-Reads message = elim (Option-cases (find_by_public_id community db.communities)) [
    | inl n ↦ inr (missing_community, rw n refl)
    | inr (c, g) ↦ elim (Option-cases (find_user user db.users)) [
      | inl n ↦ inr (missing_user, rw (g, n) refl)
      | inr (u, f) ↦ elim (Bool-cases (has_role is_admin (find_member c.id u.id db.members))) [
        | inr low ↦ inr (refused forbidden_error message, rw (g, f, low) refl)
        | inl may ↦
            inl (c, rw (g, f, may) refl, record { admin_user = u; named = f; found = g; may = may })
      ]
    ]
  ]

module _ (community actor target : String) (db : Db) where
  -- Somebody of the staff, and the target, a member of the community who is no administrator.
  pub record IsKick (p : User × Community) : Type 0 where
    pub kicked_user : find_user target db.users ≡ some p.0
    pub kicked_from : find_by_public_id community db.communities ≡ some p.1
    pub actor_user : User
    pub named : find_user actor db.users ≡ some actor_user
    pub may : has_role is_staff (find_member p.1.id actor_user.id db.members) ≡ true
    pub target_member : Member
    pub is_there : find_member p.1.id p.0.id db.members ≡ some target_member
    pub no_admin : is_admin target_member.role ≡ false

  pub prepare_kick-Reads : Reads IsKick (prepare_kick community actor target db).0
  unfolding prepare_kick
  prepare_kick-Reads = elim (Option-cases (find_by_public_id community db.communities)) [
    | inl n ↦ inr (missing_community, rw n refl)
    | inr (c, g) ↦ elim (Option-cases (find_user actor db.users)) [
      | inl n ↦ inr (refused not_found_error "Admin user not found", rw (g, n) refl)
      | inr (a, f) ↦ elim (Option-cases (find_user target db.users)) [
        | inl n ↦ inr (refused not_found_error "Target user not found", rw (g, f, n) refl)
        | inr (t, k) ↦ found_all c g a f t k
      ]
    ]
  ]
    where
      found_all :
          (c : Community)
          → find_by_public_id community db.communities ≡ some c
          → (a : User) → find_user actor db.users ≡ some a
          → (t : User) → find_user target db.users ≡ some t
          → Reads IsKick (prepare_kick community actor target db).0
      found_all c g a f t k =
          elim (Bool-cases (has_role is_staff (find_member c.id a.id db.members))) [
            | inr low ↦ inr (
              refused forbidden_error "Only admins or moderators can kick members",
              rw (g, f, k, low) refl,
            )
            | inl may ↦ elim (Option-cases (find_member c.id t.id db.members)) [
              | inl n ↦ inr (
                refused not_found_error "User is not a member of this community",
                rw (g, f, k, may, n) refl,
              )
              | inr (m, here) ↦ elim (Bool-cases (is_admin m.role)) [
                | inl top ↦ inr (
                  refused forbidden_error "Cannot kick an admin",
                  rw (g, f, k, may, here, top) refl,
                )
                | inr low ↦ inl (
                  (t, c),
                  rw (g, f, k, may, here, low) refl,
                  record {
                    kicked_user = k;
                    kicked_from = g;
                    actor_user = a;
                    named = f;
                    may = may;
                    target_member = m;
                    is_there = here;
                    no_admin = low;
                  },
                )
              ]
            ]
          ]
