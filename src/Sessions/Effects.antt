-- ===== src/Sessions/Effects.antt =====
-- What the writes of the session service change: the sessions that can be read, and the users'
-- indexes.
use image_app.Common.{
  ℕ, ◌<◌, ◌≡◌, refl, String, Bool, true, false, ◌&&◌, Option, none, some, List, [], ◌∷◌, map, arith,
  str_eq, eq_iff, if◌then◌else◌,
}
use image_app.Redis.{Redis, has}
use image_app.Sessions.Token.{AuthSessionRecord, is_session_id}
use image_app.Sessions.Service.{
  session_key, user_sessions_key, store, get_session, revoke_session, revoke_found, del_all,
  revoke_all_sessions_for_user,
}
use image_app.Sessions.Keys.{session_key_eq, user_sessions_key_eq, user-session, session-user}

module _ (redis : Redis AuthSessionRecord) where
  open redis use {
    Db, get, members, set_ex, del, s_add, s_rem, expire, get-set_ex, get-del, get-s_add, get-s_rem,
    get-expire, mem-set_ex, mem-del, mem-s_add, mem-s_rem, mem-expire,
  }

  -- Whether the index of the user `p` has the session `sid`.
  abbrev pub listed : String → String → Db → Bool
  listed p sid db = has sid (members db (user_sessions_key p))

  abbrev pub at_key : String → Db → Option AuthSessionRecord
  at_key sid db = get db (session_key sid)

  module _ (sid : String) (t : ℕ) (s : AuthSessionRecord) (db : Db) (pos : 0 < t) where
    pub at_key-store :
        (j : String)
        → at_key j (store redis sid t s db) ≡ (if str_eq sid j then some s else at_key j db)
    at_key-store j =
        rw (get-expire, pos) (rw get-s_add (rw (get-set_ex, pos) (rw session_key_eq refl)))

    pub listed-store :
        (p j : String)
        → listed p j (store redis sid t s db)
          ≡ (if str_eq s.public_id p && str_eq sid j then true else listed p j db)
    listed-store p j =
        rw (mem-expire, pos) (rw mem-s_add (rw user_sessions_key_eq (rw mem-set_ex refl)))

  pub at_key-del :
      (sid j : String) (db : Db)
      → at_key j (del (session_key sid) db) ≡ (if str_eq sid j then none else at_key j db)
  at_key-del sid j db = rw get-del (rw session_key_eq refl)

  pub listed-del :
      (sid p j : String) (db : Db) → listed p j (del (session_key sid) db) ≡ listed p j db
  listed-del sid p j db = rw mem-del (rw session-user refl)

  -- What GET finds is what `getSession` returns, for a well-formed id.
  get_session-eq :
      (j : String) (db : Db)
      → get_session redis j db ≡ (if is_session_id j then at_key j db else none)
  unfolding get_session
  get_session-eq j db = refl

  pub revoke-eq :
      (sid : String) (db : Db)
      → revoke_session redis sid db ≡ revoke_found redis sid (get_session redis sid db) db
  unfolding revoke_session
  revoke-eq sid db = refl

  at_key-revoke_found :
      (sid j : String) (s : AuthSessionRecord) (db : Db)
      → at_key j (revoke_found redis sid (some s) db) ≡ (if str_eq sid j then none else at_key j db)
  unfolding revoke_found
  at_key-revoke_found sid j s db = rw get-s_rem (at_key-del sid j db)

  pub listed-revoke_found :
      (sid p j : String) (s : AuthSessionRecord) (db : Db)
      → listed p j (revoke_found redis sid (some s) db)
        ≡ (if str_eq s.public_id p && str_eq sid j then false else listed p j db)
  unfolding revoke_found
  listed-revoke_found sid p j s db =
      rw mem-s_rem (rw user_sessions_key_eq (rw (listed-del sid p j db) refl))

  module _ (sid j : String) (db : Db) where
    revoked_session :
        (o : Option AuthSessionRecord)
        → get_session redis sid db ≡ o
        → get_session redis j (revoke_found redis sid o db)
          ≡ (if str_eq sid j then none else get_session redis j db)
    revoked_session none e = unfold revoke_found in ground (arith, eq_iff sid j)
    revoked_session (some s) e =
        rw get_session-eq (ground (arith, at_key-revoke_found sid j s db, get_session-eq j db))

    -- Revoking a session takes that one away, and leaves every other as it is.
    pub get_session-revoke :
        get_session redis j (revoke_session redis sid db)
        ≡ (if str_eq sid j then none else get_session redis j db)
    get_session-revoke = rw revoke-eq (revoked_session (get_session redis sid db) refl)

    revoked_listed :
        (p : String) (o : Option AuthSessionRecord)
        → str_eq sid j ≡ false
        → listed p j (revoke_found redis sid o db) ≡ listed p j db
    revoked_listed p none other = unfold revoke_found in refl
    revoked_listed p (some s) other = ground (arith, listed-revoke_found sid p j s db)

    pub listed-revoke :
        (p : String)
        → str_eq sid j ≡ false
        → listed p j (revoke_session redis sid db) ≡ listed p j db
    listed-revoke p other = rw revoke-eq (revoked_listed p (get_session redis sid db) other)

  at_key-del_all :
      (ids : List String) (j : String) (db : Db)
      → at_key j (del_all redis (map session_key ids) db)
        ≡ (if has j ids then none else at_key j db)
  at_key-del_all [] j db = refl
  at_key-del_all (i ∷ ids) j db =
      ground (arith, at_key-del_all ids j (del (session_key i) db), at_key-del i j db)

  -- Global sign-out takes every listed session away, and leaves every other as it is.
  pub get_session-revoke_all :
      (p j : String) (db : Db)
      → get_session redis j (revoke_all_sessions_for_user redis p db)
        ≡ (if listed p j db then none else get_session redis j db)
  unfolding revoke_all_sessions_for_user
  get_session-revoke_all p j db =
      rw get_session-eq
        (rw get-del (rw user-session (rw at_key-del_all (ground (arith, get_session-eq j db)))))
