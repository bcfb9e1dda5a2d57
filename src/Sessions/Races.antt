-- ===== src/Sessions/Races.antt =====
-- Access checks whose write comes late: `touchSessionOnAccess` stores the record that it read
-- before, whatever happened to the session in between.
use image_app.Common.{ℕ, ◌<◌, ◌≡◌, refl, String, true, false, Option, none, some, eq_refl, ◌∙◌, ap}
use image_app.Errors.{Result, ok, err}
use image_app.Redis.{Redis}
use image_app.Common.Numbers.{Number}
use image_app.Sessions.Token.{
  AuthSessionRecord, is_session_id, extract_session_id, hashes_match, normalize_ttl_seconds,
}
use image_app.Sessions.Token.Laws.{classify_unknown, extract_valid}
use image_app.Sessions.Service.{
  SessionContext, session_key, get_session, revoke_session, revoke_all_sessions_for_user,
  touch_write, validate_refresh_token, rotate_refresh_token, reuse_detected, rotated,
}
use image_app.Sessions.Effects.{
  listed, get_session-revoke, get_session-revoke_all, revoke-eq, listed-revoke_found,
}
use image_app.Sessions.Rotation.{rotate-eq, validate-eq, check_unknown}

module _ (redis : Redis AuthSessionRecord) where
  open redis use {Db, get-set_ex, mem-set_ex}

  get_session-touch :
      (s : AuthSessionRecord) (seconds now : ℕ) (db : Db)
      → 0 < seconds
      → is_session_id s.sid ≡ true
      → get_session redis s.sid (touch_write redis s seconds now db)
        ≡ some (record s { last_seen_at = now })
  unfolding touch_write get_session
  get_session-touch s seconds now db pos valid =
      rw valid (rw (get-set_ex, pos) (rw (eq_refl (session_key s.sid)) refl))

  listed-touch :
      (p j : String) (s : AuthSessionRecord) (seconds now : ℕ) (db : Db)
      → listed redis p j (touch_write redis s seconds now db) ≡ listed redis p j db
  unfolding touch_write
  listed-touch p j s seconds now db = mem-set_ex _ _ j seconds _ db

  -- A touch that was begun before a session was revoked, with time left, and that writes after it,
  -- brings the session back: it can be read again, it is in no index of its user, and a global
  -- sign-out does not end it. The session was stored under its own id, a well-formed one.
  pub late_touch_revives :
      (s : AuthSessionRecord) (seconds now : ℕ) (db : Db)
      → 0 < seconds
      → is_session_id s.sid ≡ true
      → get_session redis s.sid db ≡ some s
      → (get_session redis s.sid (touch_write redis s seconds now (revoke_session redis s.sid db))
          ≡ some (record s { last_seen_at = now }))
        × (listed redis s.public_id s.sid
              (touch_write redis s seconds now (revoke_session redis s.sid db))
            ≡ false)
        × (get_session redis s.sid (
              revoke_all_sessions_for_user redis s.public_id
                (touch_write redis s seconds now (revoke_session redis s.sid db)))
            ≡ some (record s { last_seen_at = now }))
  late_touch_revives s seconds now db pos valid found =
      (back, unlisted, rw get_session-revoke_all (rw (unlisted, back) refl))
    where
      back :
          get_session redis s.sid (touch_write redis s seconds now (revoke_session redis s.sid db))
          ≡ some (record s { last_seen_at = now })
      back = get_session-touch s seconds now (revoke_session redis s.sid db) pos valid

      unlisted :
          listed redis s.public_id s.sid
            (touch_write redis s seconds now (revoke_session redis s.sid db))
          ≡ false
      unlisted = rw listed-touch (
          rw revoke-eq
            (rw found (rw listed-revoke_found (rw (eq_refl s.public_id, eq_refl s.sid) refl))))

module _ (redis : Redis AuthSessionRecord) (hash : String → String) where
  open redis use {Db}

  -- A touch that was begun before a rotation, and writes after it, undoes the rotation. The rotation
  -- itself has answered with the new record, but the token that it gave out is refused as reused,
  -- and the session is revoked. This is for a session that was not rotated before, a presented token
  -- that matches it, lifetimes of at least one second, and a new token that names the session and
  -- whose hash is not the old one.
  pub late_touch_undoes_rotation :
      (grace_env : Option Number) (presented next_token : String) (ttl_seconds : Number)
      (context : SessionContext) (seconds now touched later t : ℕ) (s : AuthSessionRecord) (db : Db)
      → get_session redis s.sid db ≡ some s
      → hashes_match s.refresh_token_hash (hash presented) ≡ true
      → normalize_ttl_seconds ttl_seconds ≡ ok t
      → 0 < t
      → 0 < seconds
      → s.is_active ≡ true
      → s.previous_refresh_token_hash ≡ none
      → extract_session_id next_token ≡ some s.sid
      → hashes_match s.refresh_token_hash (hash next_token) ≡ false
      → (let late =
            touch_write redis s seconds touched
              (rotate_refresh_token redis hash grace_env s.sid presented next_token ttl_seconds
                context now db).1 in
          ((rotate_refresh_token redis hash grace_env s.sid presented next_token ttl_seconds context
              now db).0
            ≡ ok (rotated hash grace_env s next_token now context))
          × (validate_refresh_token redis hash next_token later late
              ≡ (err reuse_detected, revoke_session redis s.sid late))
          × (get_session redis s.sid (revoke_session redis s.sid late) ≡ none))
  late_touch_undoes_rotation grace_env presented next_token ttl_seconds context seconds now touched
        later t s db found matches ttl live pos active fresh names differ =
      let after =
        (rotate_refresh_token redis hash grace_env s.sid presented next_token ttl_seconds context
          now db).1 in
      let late = touch_write redis s seconds touched after in
      (
        ap (λ (x : Result AuthSessionRecord × Db). x.0)
            (rotate-eq redis hash grace_env s.sid presented next_token ttl_seconds context now later
              t s db found active matches ttl live),
        validate-eq redis hash s.sid next_token later late names
            ∙ check_unknown redis hash s.sid next_token later (record s { last_seen_at = touched })
                late
                (get_session-touch redis s seconds touched after pos
                  (extract_valid next_token s.sid names))
                active
                (classify_unknown (record s { last_seen_at = touched }) (hash next_token) later
                  differ fresh),
        rw get_session-revoke (rw (eq_refl s.sid) refl),
      )
