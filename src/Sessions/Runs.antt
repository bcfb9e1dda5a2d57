-- ===== src/Sessions/Runs.antt =====
-- What holds of the session store over whole runs of the service: global sign-out, and access.
use image_app.Common.{
  ◌⊎◌, ℕ, ◌<◌, ◌≡◌, ◌≢◌, ap, String, true, Option, none, some, arith, inl, inr, sym, ◌∙◌,
}
use image_app.Errors.{ok, err}
use image_app.Redis.{Redis}
use image_app.Common.Numbers.{Number}
use image_app.Sessions.Token.{AuthSessionRecord, extract_session_id}
use image_app.Sessions.Service.{
  CreateSessionInput, SessionContext, session_key, get_session, revoke_session,
  revoke_all_sessions_for_user, create_session, validate_refresh_token, rotate_refresh_token,
  assert_access_session, session_invalid,
}
use image_app.Sessions.Effects.{listed, get_session-revoke_all}
use image_app.Sessions.Rotation.{validate-eq, check_missing}
use image_app.Sessions.Index.{
  IsIndexed, revoke-IsIndexed, IsLifetime, create-IsIndexed, validate-IsIndexed, rotate-IsIndexed,
}
use image_app.Sessions.Revocation.{
  revoke_all-IsIndexed, get_session-touch, touch_keeps, touch-IsIndexed, s_rem-IsIndexed, Accessed,
  missing, refused, expired, recent, touched, assert_access_session-Accessed,
}

module _ (redis : Redis AuthSessionRecord) where
  open redis use {Db, get, ttl}

  -- `TTL` rounds to seconds: a session that can still be read may report none left.
  abbrev pub IsLive : Db → Type 0
  IsLive db =
      (sid : String) (s : AuthSessionRecord)
      → get_session redis sid db ≡ some s
      → 0 < ttl db (session_key sid)

  access-IsIndexed :
      (touch_env : Option Number) (sid p : String) (now : ℕ) (db : Db)
      → IsLive db
      → IsIndexed redis db
      → IsIndexed redis (assert_access_session redis touch_env sid p now db).1
  access-IsIndexed touch_env sid p now db live v =
      by_outcome (assert_access_session-Accessed redis touch_env sid p now db)
    where
      by_outcome :
          Accessed redis sid p now db (assert_access_session redis touch_env sid p now db)
          → IsIndexed redis (assert_access_session redis touch_env sid p now db).1
      by_outcome (missing h e) = rw e (s_rem-IsIndexed redis sid p db h v)
      by_outcome (refused e) = rw e v
      by_outcome (expired s h z e) =
          let l = live sid s h in let o = v.own sid s h in ground (arith, ap session_key o)
      by_outcome (recent s h a o e) = rw e v
      by_outcome (touched s h a o l e) =
          rw e (touch-IsIndexed redis s (ttl db (session_key s.sid)) now db l sid h v)

  -- An access check passes only with a stored, active session of the user who asks, which is what
  -- it answers. Every other session that could be read can be read as it was, and no other can be
  -- read; this one stays as it was, or has the time of the access.
  pub assert_access_session_ok :
      (touch_env : Option Number) (sid p : String) (now : ℕ) (s : AuthSessionRecord) (db : Db)
      → (assert_access_session redis touch_env sid p now db).0 ≡ ok s
      → (get_session redis sid db ≡ some s)
        × (s.is_active ≡ true)
        × (s.public_id ≡ p)
        × ((j : String) (r : AuthSessionRecord)
            → get_session redis j (assert_access_session redis touch_env sid p now db).1 ≡ some r
            → ((j ≡ s.sid) × (r ≡ record s { last_seen_at = now }))
              ⊎ (get_session redis j db ≡ some r))
        × ((j : String) (r : AuthSessionRecord)
            → get_session redis j db ≡ some r
            → (get_session redis j (assert_access_session redis touch_env sid p now db).1 ≡ some r)
              ⊎ ((j ≡ s.sid)
                  × (get_session redis j (assert_access_session redis touch_env sid p now db).1
                      ≡ some (record s { last_seen_at = now }))))
  assert_access_session_ok touch_env sid p now s db h =
      elim (assert_access_session-Accessed redis touch_env sid p now db) [
        | missing n e ↦ cc (sym (ap (λ x. x.0) e) ∙ h)
        | refused e ↦ cc (sym (ap (λ x. x.0) e) ∙ h)
        | expired u n z e ↦ cc (sym (ap (λ x. x.0) e) ∙ h)
        | recent u n a o e ↦
            let same : u ≡ s = ground (arith, sym (ap (λ x. x.0) e) ∙ h) in
            rw (sym same) (n, a, o, λ j r g. inr (rw e at g), λ j r g. inl (rw e g))
        | touched u n a o l e ↦
            let same : u ≡ s = ground (arith, sym (ap (λ x. x.0) e) ∙ h) in
            rw (sym same) (
              n,
              a,
              o,
              λ j r g. get_session-touch redis u _ now db l j r (rw e at g),
              λ j r g. rw e (touch_keeps redis u _ now db l j r g),
            )
      ]

module _ (redis : Redis AuthSessionRecord) (hash : String → String) where
  open redis use {Db, get, ttl}

  -- The stores that calls of the service reach from one where no session can be read, while no
  -- key expires.
  pub data Reach : Db → Type 0 where
    start : (db : Db) → ((sid : String) → get_session redis sid db ≡ none) → Reach db
    create :
        (input : CreateSessionInput) (now : ℕ) (db : Db)
        → IsLifetime input.ttl_seconds
        → Reach db
        → Reach (create_session redis hash input now db).1
    validate :
        (token : String) (now : ℕ) (db : Db)
        → Reach db
        → Reach (validate_refresh_token redis hash token now db).1
    rotate :
        (grace_env : Option Number) (sid presented next_token : String) (ttl_seconds : Number)
        (context : SessionContext) (now : ℕ) (db : Db)
        → IsLifetime ttl_seconds
        → Reach db
        → Reach
            (rotate_refresh_token redis hash grace_env sid presented next_token ttl_seconds context
              now db).1
    revoke : (sid : String) (db : Db) → Reach db → Reach (revoke_session redis sid db)
    revoke_all : (p : String) (db : Db) → Reach db → Reach (revoke_all_sessions_for_user redis p db)
    access :
        (touch_env : Option Number) (sid p : String) (now : ℕ) (db : Db)
        → IsLive redis db
        → Reach db
        → Reach (assert_access_session redis touch_env sid p now db).1

  -- In a store that the service reaches while no key expires, starting from one without sessions,
  -- each session that can be read carries the id it is read by, and the index of its user lists it.
  -- Lifetimes come to at least a second, and so does what TTL reports of a session at an access.
  pub Reach-IsIndexed : {db : Db} → Reach db → IsIndexed redis db
  Reach-IsIndexed (start db empty) = record {
    own = λ j r h. ground (arith, empty j);
    listing = λ j r h. ground (arith, empty j);
  }
  Reach-IsIndexed (create input now db pos r) =
      create-IsIndexed redis hash input now db pos (Reach-IsIndexed r)
  Reach-IsIndexed (validate token now db r) =
      validate-IsIndexed redis hash token now db (Reach-IsIndexed r)
  Reach-IsIndexed (rotate grace_env sid presented next_token ttl_seconds context now db pos r) =
      rotate-IsIndexed redis hash grace_env sid presented next_token ttl_seconds context now db pos
        (Reach-IsIndexed r)
  Reach-IsIndexed (revoke sid db r) = revoke-IsIndexed redis sid db (Reach-IsIndexed r)
  Reach-IsIndexed (revoke_all p db r) = revoke_all-IsIndexed redis p db (Reach-IsIndexed r)
  Reach-IsIndexed (access touch_env sid p now db live r) =
      access-IsIndexed redis touch_env sid p now db live (Reach-IsIndexed r)

  -- After a global sign-out of a user in a reached store, the access check refuses the user with
  -- every session id, and a refresh token whose session was the user's is refused, with the store
  -- left as the sign-out made it.
  pub revoke_all_signs_out :
      (p : String) (db : Db)
      → Reach db
      → ((touch_env : Option Number) (sid : String) (now : ℕ)
          → (assert_access_session redis touch_env sid p now
              (revoke_all_sessions_for_user redis p db)).0
            ≡ err session_invalid)
        × ((sid token : String) (s : AuthSessionRecord) (now : ℕ)
            → extract_session_id token ≡ some sid
            → get_session redis sid db ≡ some s
            → s.public_id ≡ p
            → validate_refresh_token redis hash token now (revoke_all_sessions_for_user redis p db)
              ≡ (err session_invalid, revoke_all_sessions_for_user redis p db))
  revoke_all_signs_out p db r = (no_access, no_refresh)
    where
      owner_gone :
          (sid : String) (s : AuthSessionRecord)
          → get_session redis sid (revoke_all_sessions_for_user redis p db) ≡ some s
          → s.public_id ≢ p
      owner_gone sid s h o = ground (
        arith,
        get_session-revoke_all redis p sid db,
        (Reach-IsIndexed r).listing sid s,
        ap (λ q. listed redis q sid db) o,
      )

      no_access :
          (touch_env : Option Number) (sid : String) (now : ℕ)
          → (assert_access_session redis touch_env sid p now
              (revoke_all_sessions_for_user redis p db)).0
            ≡ err session_invalid
      no_access touch_env sid now =
          elim (assert_access_session-Accessed redis touch_env sid p now
            (revoke_all_sessions_for_user redis p db)) [
              | missing h e ↦ ap (λ x. x.0) e
              | refused e ↦ ap (λ x. x.0) e
              | expired s h z e ↦ ap (λ x. x.0) e
              | recent s h a o e ↦ absurd (owner_gone sid s h o)
              | touched s h a o l e ↦ absurd (owner_gone sid s h o)
            ]

      no_refresh :
          (sid token : String) (s : AuthSessionRecord) (now : ℕ)
          → extract_session_id token ≡ some sid
          → get_session redis sid db ≡ some s
          → s.public_id ≡ p
          → validate_refresh_token redis hash token now (revoke_all_sessions_for_user redis p db)
            ≡ (err session_invalid, revoke_all_sessions_for_user redis p db)
      no_refresh sid token s now x h o =
          validate-eq redis hash sid token now (revoke_all_sessions_for_user redis p db) x
          ∙ check_missing redis hash sid token now (revoke_all_sessions_for_user redis p db) (
              ground (
                arith,
                get_session-revoke_all redis p sid db,
                (Reach-IsIndexed r).listing sid s h,
                ap (λ q. listed redis q sid db) o,
              ))
