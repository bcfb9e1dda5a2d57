-- ===== src/Sessions/Rotation.antt =====
-- The life of a refresh token: accepted after it is issued, replaced when it is used, refused after.
use mathlib.Core.Path.{subst}
use image_app.Common.{
  ap, ℕ, ◌+◌, ◌<◌, ◌≡◌, refl, String, true, false, Option, none, some, arith, str_eq, eq_iff,
  eq_refl, Bool-cases, Option-cases, sym, inl, inr, ◌∙◌, leb, if◌then◌else◌,
}
use image_app.Errors.{Result, ok, err, create_error}
use image_app.Redis.{Redis}
use image_app.Common.Numbers.{Number}
use image_app.Sessions.Token.{
  AuthSessionRecord, is_session_id, is_sha256_hex, extract_session_id, hashes_match, current,
  recently_rotated, unknown, classify_refresh_token_match, normalize_ttl_seconds,
  refresh_rotation_grace_ms,
}
use image_app.Sessions.Token.Laws.{
  extract_valid, hashes_match_refl, classify_current, classify_previous, current_matches,
}
use image_app.Sessions.Service.{
  CreateSessionInput, SessionContext, new_session, rotated, store, get_session, revoke_session,
  create_session, check_token, validate_refresh_token, rotate_refresh_token, session_invalid,
  already_rotated, reuse_detected, refused,
}
use image_app.Sessions.Effects.{at_key-store, get_session-revoke}

module _ (redis : Redis AuthSessionRecord) (hash : String → String) where
  open redis use {Db}

  pub get_session-store :
      (sid : String) (t : ℕ) (s : AuthSessionRecord) (db : Db)
      → 0 < t
      → is_session_id sid ≡ true
      → get_session redis sid (store redis sid t s db) ≡ some s
  unfolding get_session
  get_session-store sid t s db pos valid =
      rw valid (rw (at_key-store redis sid t s db pos sid) (rw (eq_refl sid) refl))

  -- The checks of a token, by the class of the token.
  module _ (sid token : String) (now : ℕ) (s : AuthSessionRecord) (db : Db)
      (found : get_session redis sid db ≡ some s) (active : s.is_active ≡ true) where
    pub check_current :
        classify_refresh_token_match s (hash token) now ≡ current
        → check_token redis hash sid token now db ≡ (ok s, db)
    unfolding check_token
    check_current c = ground arith

    pub check_rotated :
        classify_refresh_token_match s (hash token) now ≡ recently_rotated
        → check_token redis hash sid token now db ≡ (err already_rotated, db)
    unfolding check_token
    check_rotated c = ground arith

    pub check_unknown :
        classify_refresh_token_match s (hash token) now ≡ unknown
        → check_token redis hash sid token now db
          ≡ (err reuse_detected, revoke_session redis sid db)
    unfolding check_token
    check_unknown c = ground arith

  pub check_missing :
      (sid token : String) (now : ℕ) (db : Db)
      → get_session redis sid db ≡ none
      → check_token redis hash sid token now db ≡ (err session_invalid, db)
  unfolding check_token
  check_missing sid token now db h = ground arith

  pub check_inactive :
      (sid token : String) (now : ℕ) (s : AuthSessionRecord) (db : Db)
      → get_session redis sid db ≡ some s
      → s.is_active ≡ false
      → check_token redis hash sid token now db ≡ (err session_invalid, db)
  unfolding check_token
  check_inactive sid token now s db h off = ground arith

  pub validate-eq :
      (sid token : String) (now : ℕ) (db : Db)
      → extract_session_id token ≡ some sid
      → validate_refresh_token redis hash token now db ≡ check_token redis hash sid token now db
  unfolding validate_refresh_token
  validate-eq sid token now db e = ground arith

  -- A session that was just created accepts its refresh token, whatever the clock says then: the
  -- answer is the record that `createSession` returned, and the store is left alone. The token has
  -- to name the session, its hash to be well-formed, and the lifetime to come to a positive number of
  -- seconds.
  pub validate-create :
      (input : CreateSessionInput) (now later t : ℕ) (db : Db)
      → extract_session_id input.refresh_token ≡ some input.sid
      → is_sha256_hex (hash input.refresh_token) ≡ true
      → normalize_ttl_seconds input.ttl_seconds ≡ ok t
      → 0 < t
      → validate_refresh_token redis hash input.refresh_token later
          (create_session redis hash input now db).1
        ≡ create_session redis hash input now db
  unfolding create_session
  validate-create input now later t db names hex ttl pos =
      let found =
        get_session-store input.sid t (new_session hash input now) db pos
          (extract_valid input.refresh_token input.sid names) in
      rw ttl (
        validate-eq input.sid input.refresh_token later _ names
        ∙ check_current input.sid input.refresh_token later (new_session hash input now) _ found
            refl (classify_current _ _ later (hashes_match_refl _ hex)))

  module _ (grace_env : Option Number) (sid presented next_token : String) (ttl_seconds : Number)
      (context : SessionContext) (now later t : ℕ) (s : AuthSessionRecord) (db : Db)
      (found : get_session redis sid db ≡ some s) (active : s.is_active ≡ true)
      (matches : hashes_match s.refresh_token_hash (hash presented) ≡ true)
      (ttl : normalize_ttl_seconds ttl_seconds ≡ ok t) (pos : 0 < t) where
    abbrev pub next_session : AuthSessionRecord
    next_session = rotated hash grace_env s next_token now context

    pub rotate-eq :
        rotate_refresh_token redis hash grace_env sid presented next_token ttl_seconds context now
          db
        ≡ (ok next_session, store redis sid t next_session db)
    unfolding rotate_refresh_token
    rotate-eq =
        rw
          (check_current sid presented now s db found active
            (classify_current s (hash presented) now matches))
          (rw ttl refl)

    -- After a rotation of a stored and active session with its current token, for a lifetime of at
    -- least a second, the new token is accepted, if it names the session and its hash is well-formed:
    -- validation returns what the rotation returned, and leaves the store alone.
    pub validate-rotate :
        extract_session_id next_token ≡ some sid
        → is_sha256_hex (hash next_token) ≡ true
        → validate_refresh_token redis hash next_token later
            (rotate_refresh_token redis hash grace_env sid presented next_token ttl_seconds context
              now db).1
          ≡ rotate_refresh_token redis hash grace_env sid presented next_token ttl_seconds context
              now db
    validate-rotate names hex = rw rotate-eq (
        validate-eq sid next_token later _ names
        ∙ check_current sid next_token later next_session _
            (get_session-store sid t next_session db pos (extract_valid next_token sid names))
            active (classify_current _ _ later (hashes_match_refl _ hex)))

    previous_refused :
        extract_session_id presented ≡ some sid
        → hashes_match (hash next_token) (hash presented) ≡ false
        → (validate_refresh_token redis hash presented later (store redis sid t next_session db) ≡ (
            if leb later (now + refresh_rotation_grace_ms grace_env)
            then (err already_rotated, store redis sid t next_session db)
            else (
              err reuse_detected,
              revoke_session redis sid (store redis sid t next_session db),
            )))
          × (get_session redis sid (revoke_session redis sid (store redis sid t next_session db))
              ≡ none)
    previous_refused names differ = (validate-eq sid presented later _ names ∙ previous, gone)
      where
        stored : get_session redis sid (store redis sid t next_session db) ≡ some next_session
        stored = get_session-store sid t next_session db pos (extract_valid presented sid names)

        class : classify_refresh_token_match next_session (hash presented) later ≡ (
            if leb later (now + refresh_rotation_grace_ms grace_env)
            then recently_rotated
            else unknown)
        class =
            classify_previous next_session (hash presented) later s.refresh_token_hash _ refl refl
              differ matches

        gone :
            get_session redis sid (revoke_session redis sid (store redis sid t next_session db))
            ≡ none
        gone =
            rw (get_session-revoke redis sid sid (store redis sid t next_session db))
              (rw (eq_refl sid) refl)

        previous :
            check_token redis hash sid presented later (store redis sid t next_session db) ≡ (
              if leb later (now + refresh_rotation_grace_ms grace_env)
              then (err already_rotated, store redis sid t next_session db)
              else (
                err reuse_detected,
                revoke_session redis sid (store redis sid t next_session db),
              ))
        previous = elim (Bool-cases (leb later (now + refresh_rotation_grace_ms grace_env))) [
          | inl early ↦
              rw early
                (check_rotated sid presented later next_session _ stored active (rw early at class))
          | inr late ↦
              rw late
                (check_unknown sid presented later next_session _ stored active (rw late at class))
        ]

    -- The store after the rotation.
    abbrev pub after_rotation : Db
    after_rotation =
        (rotate_refresh_token redis hash grace_env sid presented next_token ttl_seconds context now
          db).1

    -- After a rotation of a stored and active session, for a lifetime of at least a second, to a token
    -- with another hash, the token that was exchanged is refused. Until the grace window ends the
    -- store stays as it is; after that the session is revoked, and no token of it is accepted. The
    -- exchanged token matched the session, and names it.
    pub validate-rotate_previous :
        extract_session_id presented ≡ some sid
        → hashes_match (hash next_token) (hash presented) ≡ false
        → (validate_refresh_token redis hash presented later after_rotation ≡ (
            if leb later (now + refresh_rotation_grace_ms grace_env)
            then (err already_rotated, after_rotation)
            else (err reuse_detected, revoke_session redis sid after_rotation)))
          × (get_session redis sid (revoke_session redis sid after_rotation) ≡ none)
    validate-rotate_previous names differ =
        subst
          (λ after.
            (validate_refresh_token redis hash presented later after ≡ (
              if leb later (now + refresh_rotation_grace_ms grace_env)
              then (err already_rotated, after)
              else (err reuse_detected, revoke_session redis sid after)))
            × (get_session redis sid (revoke_session redis sid after) ≡ none))
          (sym (ap (λ (x : Result AuthSessionRecord × Db). x.1) rotate-eq))
          (previous_refused names differ)

  check_ok :
      (sid token : String) (now : ℕ) (s : AuthSessionRecord) (db db' : Db)
      → check_token redis hash sid token now db ≡ (ok s, db')
      → (get_session redis sid db ≡ some s)
        × (s.is_active ≡ true)
        × (classify_refresh_token_match s (hash token) now ≡ current)
        × (db' ≡ db)
  unfolding check_token
  check_ok sid token now s db db' h = ground arith

  check_reused :
      (sid token : String) (now : ℕ) (db db' : Db)
      → check_token redis hash sid token now db ≡ (err reuse_detected, db')
      → db' ≡ revoke_session redis sid db
  unfolding check_token create_error
  check_reused sid token now db db' h = ground (
    arith,
    eq_iff "Session is invalid or expired" "Refresh token reuse detected",
    eq_iff "Refresh token already rotated" "Refresh token reuse detected",
  )

  pub validate-none :
      (token : String) (now : ℕ) (db : Db)
      → extract_session_id token ≡ none
      → validate_refresh_token redis hash token now db ≡ (err (refused "Invalid refresh token"), db)
  unfolding validate_refresh_token
  validate-none token now db e = ground arith

  -- A token is accepted only if the session that it names is stored, active, and holds its hash;
  -- the answer is that session, and the store is left alone.
  pub validate_ok :
      (token : String) (now : ℕ) (s : AuthSessionRecord) (db db' : Db)
      → validate_refresh_token redis hash token now db ≡ (ok s, db')
      → (sid : String) × (extract_session_id token ≡ some sid)
        × (get_session redis sid db ≡ some s)
        × (s.is_active ≡ true)
        × (hashes_match s.refresh_token_hash (hash token) ≡ true)
        × (db' ≡ db)
  validate_ok token now s db db' h = elim (Option-cases (extract_session_id token)) [
    | inl missing ↦ cc (sym (validate-none token now db missing) ∙ h)
    | inr (sid, names) ↦
        let (found, active, class, same) =
          check_ok sid token now s db db' (sym (validate-eq sid token now db names) ∙ h) in
        (sid, names, found, active, current_matches s (hash token) now class, same)
  ]

  -- When a token is refused as reused, its session is gone, and every other session is as before.
  validate_reused :
      (token sid j : String) (now : ℕ) (db db' : Db)
      → extract_session_id token ≡ some sid
      → validate_refresh_token redis hash token now db ≡ (err reuse_detected, db')
      → get_session redis j db' ≡ (if str_eq sid j then none else get_session redis j db)
  validate_reused token sid j now db db' names h =
      rw (check_reused sid token now db db' (sym (validate-eq sid token now db names) ∙ h))
        (get_session-revoke redis sid j db)
