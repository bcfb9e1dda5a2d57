-- ===== src/Sessions/Service.antt =====
-- The methods of `AuthSessionService` (backend/src/services/auth-session.service.ts) over a Redis
-- server. `hash` is SHA-256 in hexadecimal digits, and `now` is `Date.now()`.
use text.Mathlib.Text.{◌==◌}
use Prim.Native.String.{◌++◌}
use image_app.Common.{
  ℕ, ◌+◌, true, not, ◌||◌, Option, none, some, List, [], ◌∷◌, map, ltb, leb, String, if◌then◌else◌,
}
use image_app.Errors.{Thrown, app, create_error, authentication_error, no_options}
use image_app.Exec.{Exec, pure, throw, lift, gets, modify, ◌>>=◌, ◌>>◌}
use image_app.Redis.{Redis}
use image_app.Common.Numbers.{Number}
use image_app.Sessions.Token.{
  AuthSessionRecord, is_session_id, extract_session_id, MatchState, current, recently_rotated,
  unknown, classify_refresh_token_match, normalize_ttl_seconds, refresh_rotation_grace_ms,
  access_touch_interval_ms,
}

abbrev pub session_key : String → String
session_key sid = "session:" ++ sid

abbrev pub user_sessions_key : String → String
user_sessions_key public_id = "user:sessions:" ++ public_id

-- `createError("AuthenticationError", message)`
abbrev pub refused : String → Thrown
refused m = app (create_error authentication_error m no_options)

abbrev pub session_invalid : Thrown
session_invalid = refused "Session is invalid or expired"

abbrev pub already_rotated : Thrown
already_rotated = refused "Refresh token already rotated"

abbrev pub reuse_detected : Thrown
reuse_detected = refused "Refresh token reuse detected"

-- `CreateSessionInput`
pub record CreateSessionInput : Type 0 where
  pub sid : String
  pub public_id : String
  pub refresh_token : String
  pub ttl_seconds : Number
  pub ip : Option String
  pub user_agent : Option String

-- `SessionContext`
pub record SessionContext : Type 0 where
  pub ip : Option String
  pub user_agent : Option String

-- `context?.ip ?? current.ip`
abbrev pub or_else : Option String → Option String → Option String
or_else none b = b
or_else (some a) b = some a

module _ (hash : String → String) where
  abbrev pub new_session : CreateSessionInput → ℕ → AuthSessionRecord
  new_session input now = record {
    sid = input.sid;
    public_id = input.public_id;
    refresh_token_hash = hash input.refresh_token;
    previous_refresh_token_hash = none;
    previous_refresh_token_grace_until = none;
    created_at = now;
    last_seen_at = now;
    ip = input.ip;
    user_agent = input.user_agent;
    is_active = true;
  }

  -- The record that a rotation stores.
  abbrev pub rotated :
      Option Number → AuthSessionRecord → String → ℕ → SessionContext → AuthSessionRecord
  rotated grace_env session next_token now context = record session {
    refresh_token_hash = hash next_token;
    previous_refresh_token_hash = some session.refresh_token_hash;
    previous_refresh_token_grace_until = some (now + refresh_rotation_grace_ms grace_env);
    last_seen_at = now;
    ip = or_else context.ip session.ip;
    user_agent = or_else context.user_agent session.user_agent;
  }

module _ (redis : Redis AuthSessionRecord) where
  open redis use {Db, get, members, ttl, set_ex, del, s_add, s_rem, expire}

  -- The `multi` block of `createSession` and `rotateRefreshToken`.
  abbrev pub store : String → ℕ → AuthSessionRecord → Db → Db
  store sid seconds session db =
      let key = user_sessions_key session.public_id in
      expire key seconds (s_add key sid (set_ex (session_key sid) seconds session db))

  unfoldable pub get_session : String → Db → Option AuthSessionRecord
  get_session sid db = if is_session_id sid then get db (session_key sid) else none

  unfoldable pub revoke_found : String → Option AuthSessionRecord → Db → Db
  revoke_found sid none db = db
  revoke_found sid (some session) db =
      s_rem (user_sessions_key session.public_id) sid (del (session_key sid) db)

  unfoldable pub revoke_session : String → Db → Db
  unfolding revoke_found get_session
  revoke_session sid db = revoke_found sid (get_session sid db) db

  -- `del` of several keys
  abbrev pub del_all : List String → Db → Db
  del_all [] db = db
  del_all (k ∷ ks) db = del_all ks (del k db)

  unfoldable pub revoke_all_sessions_for_user : String → Db → Db
  revoke_all_sessions_for_user public_id db =
      del (user_sessions_key public_id)
        (del_all (map session_key (members db (user_sessions_key public_id))) db)

  -- What the last lines of `validateRefreshToken` do, by the class of the token.
  check_match : String → MatchState → Exec Db (Unit {0})
  check_match sid current = pure tt
  check_match sid recently_rotated = throw already_rotated
  check_match sid unknown = do modify (revoke_session sid); throw reuse_detected

  -- A missing or inactive session is refused.
  require_active : Option AuthSessionRecord → Exec Db AuthSessionRecord
  require_active none = throw session_invalid
  require_active (some session) = if session.is_active then pure session else throw session_invalid

  require_sid : Option String → Exec Db String
  require_sid none = throw (refused "Invalid refresh token")
  require_sid (some sid) = pure sid

  -- `touchSessionOnAccess`: the last write, once the remaining time is known to be `seconds`.
  unfoldable pub touch_write : AuthSessionRecord → ℕ → ℕ → Db → Db
  touch_write session seconds now db =
      set_ex (session_key session.sid) seconds (record session { last_seen_at = now }) db

  touch_with : AuthSessionRecord → ℕ → ℕ → Exec Db (Unit {0})
  touch_with session seconds now =
      if leb seconds 0
      then modify (s_rem (user_sessions_key session.public_id) session.sid) >> throw session_invalid
      else modify (touch_write session seconds now)

  -- `now - lastSeenAt < interval`, over the integers
  unfoldable pub touch_session_on_access :
      Option Number → AuthSessionRecord → ℕ → Exec Db (Unit {0})
  unfolding touch_with
  touch_session_on_access touch_env session now =
      if ltb now (session.last_seen_at + access_touch_interval_ms touch_env) then pure tt else do
        seconds ← gets (λ db. ttl db (session_key session.sid))
        touch_with session seconds now

  -- A missing session is taken out of the user's index.
  found_for : String → String → Option AuthSessionRecord → Exec Db AuthSessionRecord
  found_for sid public_id none = do
    modify (s_rem (user_sessions_key public_id) sid)
    throw session_invalid
  found_for sid public_id (some session) =
      if not session.is_active || not (session.public_id == public_id)
      then throw session_invalid
      else pure session

  unfoldable pub assert_access_session :
      Option Number → String → String → ℕ → Exec Db AuthSessionRecord
  unfolding found_for
  assert_access_session touch_env sid public_id now = do
    found ← gets (get_session sid)
    session ← found_for sid public_id found
    touch_session_on_access touch_env session now
    pure session

module _ (redis : Redis AuthSessionRecord) (hash : String → String) where
  open redis use {Db}

  unfoldable pub create_session : CreateSessionInput → ℕ → Exec Db AuthSessionRecord
  create_session input now = do
    seconds ← lift (normalize_ttl_seconds input.ttl_seconds)
    modify (store redis input.sid seconds (new_session hash input now))
    pure (new_session hash input now)

  -- The part that `validateRefreshToken` and `rotateRefreshToken` share.
  unfoldable pub check_token : String → String → ℕ → Exec Db AuthSessionRecord
  unfolding check_match require_active
  check_token sid token now = do
    found ← gets (get_session redis sid)
    session ← require_active redis found
    check_match redis sid (classify_refresh_token_match session (hash token) now)
    pure session

  unfoldable pub validate_refresh_token : String → ℕ → Exec Db AuthSessionRecord
  unfolding require_sid
  validate_refresh_token token now = do
    sid ← require_sid redis (extract_session_id token)
    check_token sid token now

  unfoldable pub rotate_refresh_token :
      Option Number
      → String
      → String
      → String
      → Number
      → SessionContext
      → ℕ
      → Exec Db AuthSessionRecord
  rotate_refresh_token grace_env sid presented next_token ttl_seconds context now = do
    session ← check_token sid presented now
    seconds ← lift (normalize_ttl_seconds ttl_seconds)
    modify (store redis sid seconds (rotated hash grace_env session next_token now context))
    pure (rotated hash grace_env session next_token now context)
