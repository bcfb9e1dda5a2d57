-- ===== src/Sessions/Index.antt =====
-- The users' indexes name every session that is stored, so a global sign-out misses none.
use image_app.Common.{
  ◌⊎◌, ℕ, ◌<◌, ◌≡◌, refl, String, true, false, Option, some, arith, str_eq, eq_iff, eq_refl,
  Bool-cases, Option-cases, inl, inr, ◌∙◌,
}
use image_app.Errors.{Result, ok, err, Thrown, Result-cases}
use image_app.Redis.{Redis}
use image_app.Common.Numbers.{Number}
use image_app.Sessions.Token.{
  AuthSessionRecord, extract_session_id, classify_refresh_token_match, MatchState, current,
  recently_rotated, unknown, normalize_ttl_seconds,
}
use image_app.Sessions.Service.{
  CreateSessionInput, SessionContext, new_session, rotated, store, get_session, revoke_session,
  create_session, check_token, validate_refresh_token, rotate_refresh_token, session_invalid,
  already_rotated, reuse_detected,
}
use image_app.Sessions.Effects.{
  listed, at_key-store, listed-store, get_session-revoke, listed-revoke,
}
use image_app.Sessions.Rotation.{
  check_missing, check_inactive, check_current, check_rotated, check_unknown, validate-eq,
  validate-none,
}

-- The lifetime is refused, or comes to at least one second.
abbrev pub IsLifetime : Number → Type 0
IsLifetime n = (t : ℕ) → normalize_ttl_seconds n ≡ ok t → 0 < t

module _ (redis : Redis AuthSessionRecord) where
  open redis use {
    Db, get, ttl, members, del, s_rem, set_ex, get-set_ex, get-s_rem, mem-set_ex, mem-del,
    mem-s_rem,
  }

  -- Every session that can be read is stored under its own id, and listed by its user's index.
  pub record IsIndexed (db : Db) : Type 0 where
    pub own :
        (sid : String) (s : AuthSessionRecord) → get_session redis sid db ≡ some s → s.sid ≡ sid
    pub listing :
        (sid : String) (s : AuthSessionRecord)
        → get_session redis sid db ≡ some s
        → listed redis s.public_id sid db ≡ true

  get_session-store :
      (sid j : String) (t : ℕ) (s r : AuthSessionRecord) (db : Db)
      → 0 < t
      → get_session redis j (store redis sid t s db) ≡ some r
      → ((j ≡ sid) × (r ≡ s)) ⊎ ((str_eq sid j ≡ false) × (get_session redis j db ≡ some r))
  unfolding get_session
  get_session-store sid j t s r db pos h =
      ground (arith, eq_iff sid j, at_key-store redis sid t s db pos j)

  store-IsIndexed :
      (sid : String) (t : ℕ) (s : AuthSessionRecord) (db : Db)
      → 0 < t
      → s.sid ≡ sid
      → IsIndexed db
      → IsIndexed (store redis sid t s db)
  store-IsIndexed sid t s db pos same v = record {
    own = λ j r h. elim (get_session-store sid j t s r db pos h) [
      | inl (here, new) ↦ rw new (rw here same)
      | inr (other, old) ↦ v.own j r old
    ];
    listing = λ j r h. elim (get_session-store sid j t s r db pos h) [
      | inl (here, new) ↦
          rw (listed-store redis sid t s db pos r.public_id j)
            (ground (arith, eq_refl s.public_id, eq_refl sid))
      | inr (other, old) ↦
          rw (listed-store redis sid t s db pos r.public_id j) (ground (arith, v.listing j r old))
    ];
  }

  pub revoke-IsIndexed :
      (sid : String) (db : Db) → IsIndexed db → IsIndexed (revoke_session redis sid db)
  revoke-IsIndexed sid db v = record {
    own = λ j r h. v.own j r (kept j r h).1;
    listing = λ j r h.
        listed-revoke redis sid j db r.public_id (kept j r h).0 ∙ v.listing j r (kept j r h).1;
  }
    where
      kept :
          (j : String) (r : AuthSessionRecord)
          → get_session redis j (revoke_session redis sid db) ≡ some r
          → (str_eq sid j ≡ false) × (get_session redis j db ≡ some r)
      kept j r h = ground (arith, get_session-revoke redis sid j db)

module _ (redis : Redis AuthSessionRecord) (hash : String → String) where
  open redis use {
    Db, get, ttl, members, del, s_rem, set_ex, get-s_rem, get-set_ex, mem-set_ex, mem-s_rem,
    mem-del, get-del,
  }

  -- What a checked token does to the store, and what is known when the check passes.
  data Checked (sid : String) (db : Db) (r : Result AuthSessionRecord × Db) : Type 0 where
    passes :
        (s : AuthSessionRecord)
        → get_session redis sid db ≡ some s
        → r ≡ (ok s, db)
        → Checked sid db r
    refuses : (e : Thrown) → r ≡ (err e, db) → Checked sid db r
    revokes : (e : Thrown) → r ≡ (err e, revoke_session redis sid db) → Checked sid db r

  check_token-Checked :
      (sid token : String) (now : ℕ) (db : Db)
      → Checked sid db (check_token redis hash sid token now db)
  check_token-Checked sid token now db = elim (Option-cases (get_session redis sid db)) [
    | inl h ↦ refuses session_invalid (check_missing redis hash sid token now db h)
    | inr (s, h) ↦ elim (Bool-cases s.is_active) [
      | inr off ↦ refuses session_invalid (check_inactive redis hash sid token now s db h off)
      | inl active ↦ class s h active (classify_refresh_token_match s (hash token) now) refl
    ]
  ]
    where
      class :
          (s : AuthSessionRecord)
          → get_session redis sid db ≡ some s
          → s.is_active ≡ true
          → (m : MatchState) → classify_refresh_token_match s (hash token) now ≡ m
          → Checked sid db (check_token redis hash sid token now db)
      class s h active current e =
          passes s h (check_current redis hash sid token now s db h active e)
      class s h active recently_rotated e =
          refuses already_rotated (check_rotated redis hash sid token now s db h active e)
      class s h active unknown e =
          revokes reuse_detected (check_unknown redis hash sid token now s db h active e)

  Checked-IsIndexed :
      {sid : String} {db : Db} {r : Result AuthSessionRecord × Db}
      → Checked sid db r
      → IsIndexed redis db
      → IsIndexed redis r.1
  Checked-IsIndexed (passes s h e) v = rw e v
  Checked-IsIndexed (refuses x e) v = rw e v
  Checked-IsIndexed {sid} {db} (revokes x e) v = rw e (revoke-IsIndexed redis sid db v)

  pub validate-IsIndexed :
      (token : String) (now : ℕ) (db : Db)
      → IsIndexed redis db
      → IsIndexed redis (validate_refresh_token redis hash token now db).1
  validate-IsIndexed token now db v = elim (Option-cases (extract_session_id token)) [
    | inl h ↦ rw (validate-none redis hash token now db h) v
    | inr (sid, h) ↦
        rw (validate-eq redis hash sid token now db h)
          (Checked-IsIndexed (check_token-Checked sid token now db) v)
  ]

  pub create-IsIndexed :
      (input : CreateSessionInput) (now : ℕ) (db : Db)
      → IsLifetime input.ttl_seconds
      → IsIndexed redis db
      → IsIndexed redis (create_session redis hash input now db).1
  unfolding create_session
  create-IsIndexed input now db pos v =
      elim (Result-cases (normalize_ttl_seconds input.ttl_seconds)) [
        | inl (t, h) ↦
            rw h
              (store-IsIndexed redis input.sid t (new_session hash input now) db (pos t h) refl v)
        | inr (e, h) ↦ rw h v
      ]

  pub rotate-IsIndexed :
      (grace_env : Option Number) (sid presented next_token : String) (ttl_seconds : Number)
      (context : SessionContext) (now : ℕ) (db : Db)
      → IsLifetime ttl_seconds
      → IsIndexed redis db
      → IsIndexed redis
          (rotate_refresh_token redis hash grace_env sid presented next_token ttl_seconds context
            now db).1
  unfolding rotate_refresh_token
  rotate-IsIndexed grace_env sid presented next_token ttl_seconds context now db pos v =
      by_check (check_token-Checked sid presented now db)
    where
      by_check :
          Checked sid db (check_token redis hash sid presented now db)
          → IsIndexed redis
              (rotate_refresh_token redis hash grace_env sid presented next_token ttl_seconds
                context now db).1
      by_check (refuses x e) = rw e v
      by_check (revokes x e) = rw e (revoke-IsIndexed redis sid db v)
      by_check (passes s h e) = elim (Result-cases (normalize_ttl_seconds ttl_seconds)) [
        | inl (t, n) ↦
            rw (e, n)
              (store-IsIndexed redis sid t (rotated hash grace_env s next_token now context) db
                (pos t n) (v.own sid s h) v)
        | inr (x, n) ↦ rw (e, n) v
      ]
