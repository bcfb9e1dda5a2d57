-- ===== src/Sessions/Revocation.antt =====
-- Access checks, global sign-out, and the invariant of the index over whole runs.
use image_app.Common.{
  ℕ, ◌+◌, ◌<◌, ◌≡◌, refl, String, true, false, ◌⊎◌, Option, none, some, List, [], ◌∷◌, map, arith,
  str_eq, eq_iff, Bool-cases, inl, inr, sym, ◌∙◌, if◌then◌else◌, ltb, leb,
}
use image_app.Errors.{Result, ok, err}
use image_app.Redis.{Redis}
use image_app.Common.Numbers.{Number}
use image_app.Sessions.Token.{AuthSessionRecord, access_touch_interval_ms}
use image_app.Sessions.Service.{
  session_key, user_sessions_key, get_session, del_all, revoke_all_sessions_for_user, touch_write,
  touch_session_on_access, assert_access_session, session_invalid,
}
use image_app.Sessions.Effects.{listed, get_session-revoke_all, listed-del}
use image_app.Sessions.Keys.{user_sessions_key_eq, session_key_eq}
use image_app.Sessions.Index.{IsIndexed}

module _ (redis : Redis AuthSessionRecord) where
  open redis use {
    Db, get, ttl, members, del, s_rem, set_ex, get-set_ex, get-s_rem, mem-set_ex, mem-del,
    mem-s_rem,
  }

  listed-del_all :
      (ids : List String) (p j : String) (db : Db)
      → listed redis p j (del_all redis (map session_key ids) db) ≡ listed redis p j db
  listed-del_all [] p j db = refl
  listed-del_all (i ∷ ids) p j db =
      listed-del_all ids p j (del (session_key i) db) ∙ listed-del redis i p j db

  listed-revoke_all :
      (p q j : String) (db : Db)
      → listed redis q j (revoke_all_sessions_for_user redis p db)
        ≡ (if str_eq p q then false else listed redis q j db)
  unfolding revoke_all_sessions_for_user
  listed-revoke_all p q j db = rw mem-del (rw user_sessions_key_eq (rw listed-del_all refl))

  pub revoke_all-IsIndexed :
      (p : String) (db : Db)
      → IsIndexed redis db
      → IsIndexed redis (revoke_all_sessions_for_user redis p db)
  revoke_all-IsIndexed p db v = record {
    own = λ j r h. v.own j r (kept j r h).1;
    listing = λ j r h. ground (
      arith,
      listed-revoke_all p r.public_id j db,
      v.listing j r (kept j r h).1,
      (kept j r h).0,
      eq_iff p r.public_id,
    );
  }
    where
      kept :
          (j : String) (r : AuthSessionRecord)
          → get_session redis j (revoke_all_sessions_for_user redis p db) ≡ some r
          → (listed redis p j db ≡ false) × (get_session redis j db ≡ some r)
      kept j r h = ground (arith, get_session-revoke_all redis p j db)

  module _ (s : AuthSessionRecord) (seconds now : ℕ) (db : Db) (pos : 0 < seconds) where
    pub get_session-touch :
        (j : String) (r : AuthSessionRecord)
        → get_session redis j (touch_write redis s seconds now db) ≡ some r
        → ((j ≡ s.sid) × (r ≡ record s { last_seen_at = now })) ⊎ (get_session redis j db ≡ some r)
    unfolding touch_write get_session
    get_session-touch j r h = ground (
      arith,
      eq_iff s.sid j,
      session_key_eq s.sid j,
      get-set_ex (session_key s.sid) (session_key j) seconds (record s { last_seen_at = now }) db
          pos,
    )

    pub touch_keeps :
        (j : String) (r : AuthSessionRecord)
        → get_session redis j db ≡ some r
        → (get_session redis j (touch_write redis s seconds now db) ≡ some r)
          ⊎ ((j ≡ s.sid)
              × (get_session redis j (touch_write redis s seconds now db)
                  ≡ some (record s { last_seen_at = now })))
    unfolding touch_write get_session
    touch_keeps j r h = ground (
      arith,
      eq_iff s.sid j,
      session_key_eq s.sid j,
      get-set_ex (session_key s.sid) (session_key j) seconds (record s { last_seen_at = now }) db
          pos,
    )

    listed-touch :
        (p j : String) → listed redis p j (touch_write redis s seconds now db) ≡ listed redis p j db
    unfolding touch_write
    listed-touch p j = mem-set_ex _ _ j seconds _ db

    -- The touch of a session that was just read.
    pub touch-IsIndexed :
        (sid : String)
        → get_session redis sid db ≡ some s
        → IsIndexed redis db
        → IsIndexed redis (touch_write redis s seconds now db)
    touch-IsIndexed sid found v = record {
      own = λ j r h. elim (get_session-touch j r h) [
        | inl (here, new) ↦ rw new (sym here)
        | inr old ↦ v.own j r old
      ];
      listing = λ j r h. elim (get_session-touch j r h) [
        | inl (here, new) ↦
            rw (listed-touch r.public_id j, new, here, v.own sid s found) (v.listing sid s found)
        | inr old ↦ listed-touch r.public_id j ∙ v.listing j r old
      ];
    }

  -- Taking out of an index what is not stored.
  get_session-s_rem :
      (k x j : String) (db : Db) → get_session redis j (s_rem k x db) ≡ get_session redis j db
  unfolding get_session
  get_session-s_rem k x j db = rw get-s_rem refl

  pub s_rem-IsIndexed :
      (sid p : String) (db : Db)
      → get_session redis sid db ≡ none
      → IsIndexed redis db
      → IsIndexed redis (s_rem (user_sessions_key p) sid db)
  s_rem-IsIndexed sid p db gone v = record {
    own = λ j r h. v.own j r (kept j r h);
    listing = λ j r h.
        rw mem-s_rem (ground (arith, v.listing j r (kept j r h), kept j r h, eq_iff sid j));
  }
    where
      kept :
          (j : String) (r : AuthSessionRecord)
          → get_session redis j (s_rem (user_sessions_key p) sid db) ≡ some r
          → get_session redis j db ≡ some r
      kept j r h = sym (get_session-s_rem (user_sessions_key p) sid j db) ∙ h

  -- What an access check does to the store, and what is known when it passes.
  pub data Accessed (sid p : String) (now : ℕ) (db : Db) (r : Result AuthSessionRecord × Db)
      : Type 0 where
    missing :
        get_session redis sid db ≡ none
        → r ≡ (err session_invalid, s_rem (user_sessions_key p) sid db)
        → Accessed sid p now db r
    refused : r ≡ (err session_invalid, db) → Accessed sid p now db r
    expired :
        (s : AuthSessionRecord)
        → get_session redis sid db ≡ some s
        → ttl db (session_key s.sid) ≡ 0
        → r ≡ (err session_invalid, s_rem (user_sessions_key s.public_id) s.sid db)
        → Accessed sid p now db r
    recent :
        (s : AuthSessionRecord)
        → get_session redis sid db ≡ some s
        → s.is_active ≡ true
        → s.public_id ≡ p
        → r ≡ (ok s, db)
        → Accessed sid p now db r
    touched :
        (s : AuthSessionRecord)
        → get_session redis sid db ≡ some s
        → s.is_active ≡ true
        → s.public_id ≡ p
        → 0 < ttl db (session_key s.sid)
        → r ≡ (ok s, touch_write redis s (ttl db (session_key s.sid)) now db)
        → Accessed sid p now db r

  pub assert_access_session-Accessed :
      (touch_env : Option Number) (sid p : String) (now : ℕ) (db : Db)
      → Accessed sid p now db (assert_access_session redis touch_env sid p now db)
  unfolding assert_access_session touch_session_on_access
  assert_access_session-Accessed touch_env sid p now db = by_session (get_session redis sid db) refl
    where
      by_touch :
          (s : AuthSessionRecord)
          → get_session redis sid db ≡ some s
          → s.is_active ≡ true
          → s.public_id ≡ p
          → Accessed sid p now db (assert_access_session redis touch_env sid p now db)
      by_touch s h a o =
          elim (Bool-cases (ltb now (s.last_seen_at + access_touch_interval_ms touch_env))) [
            | inl soon ↦ recent s h a o (rw (h, a, (eq_iff s.public_id p).1 o, soon) refl)
            | inr late ↦ elim (Bool-cases (leb (ttl db (session_key s.sid)) 0)) [
              | inl gone ↦
                  expired s h (ground arith)
                    (rw (h, a, (eq_iff s.public_id p).1 o, late, gone) refl)
              | inr left ↦
                  touched s h a o (ground arith)
                    (rw (h, a, (eq_iff s.public_id p).1 o, late, left) refl)
            ]
          ]

      by_session :
          (o : Option AuthSessionRecord)
          → get_session redis sid db ≡ o
          → Accessed sid p now db (assert_access_session redis touch_env sid p now db)
      by_session none h = missing h (rw h refl)
      by_session (some s) h = elim (Bool-cases s.is_active) [
        | inr off ↦ refused (rw (h, off) refl)
        | inl a ↦ elim (Bool-cases (str_eq s.public_id p)) [
          | inr other ↦ refused (rw (h, a, other) refl)
          | inl same ↦ by_touch s h a ((eq_iff s.public_id p).0 same)
        ]
      ]
