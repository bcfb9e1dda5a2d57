-- ===== src/Sessions/Tests.antt =====
-- The session service at a concrete user, session and pair of tokens, over the server in memory.
use image_app.Common.{
  ◌⊎◌, ℕ, ◌+◌, ◌≡◌, refl, String, true, false, Option, none, some, arith, str_eq, if◌then◌else◌,
  leb,
}
use image_app.Errors.{ok, err}
use image_app.Redis.{Redis}
use image_app.Redis.Memory.{Memory, memory, empty_memory}
use image_app.Common.Numbers.{Number, ratio}
use image_app.Sessions.Token.{
  AuthSessionRecord, is_session_id, is_sha256_hex, extract_session_id, hashes_match,
  normalize_ttl_seconds, read_positive_integer_env, refresh_rotation_grace_ms,
}
use image_app.Sessions.Token.Laws.{extract_valid, classify_unknown}
use image_app.Sessions.Service.{
  CreateSessionInput, SessionContext, new_session, rotated, get_session, revoke_session,
  touch_session_on_access, revoke_all_sessions_for_user, touch_write, create_session,
  validate_refresh_token, rotate_refresh_token, assert_access_session, session_invalid,
  already_rotated, reuse_detected,
}
use image_app.Sessions.Effects.{listed}
use image_app.Sessions.Rotation.{
  validate-create, check_unknown, validate-rotate, validate-rotate_previous, validate_ok,
}
use image_app.Sessions.Index.{IsIndexed}
use image_app.Sessions.Runs.{
  assert_access_session_ok, Reach, start, create, Reach-IsIndexed, revoke_all_signs_out,
}
use image_app.Sessions.Races.{late_touch_revives, late_touch_undoes_rotation}

abbrev server : Redis AuthSessionRecord
server = memory AuthSessionRecord

abbrev db0 : Memory AuthSessionRecord
db0 = empty_memory

abbrev sid : String
sid = "00000000-0000-4000-8000-000000000001"

abbrev token_a : String
token_a = "00000000-0000-4000-8000-000000000001.a"

abbrev token_b : String
token_b = "00000000-0000-4000-8000-000000000001.b"

-- A function with different values on the two tokens.
abbrev hash : String → String
hash t =
    if str_eq t "00000000-0000-4000-8000-000000000001.a"
    then "aaaaaaaaaaaaaaaaaaaaaaaaaaaaaaaaaaaaaaaaaaaaaaaaaaaaaaaaaaaaaaaa"
    else "bbbbbbbbbbbbbbbbbbbbbbbbbbbbbbbbbbbbbbbbbbbbbbbbbbbbbbbbbbbbbbbb"

abbrev input : CreateSessionInput
input = record {
  sid = "00000000-0000-4000-8000-000000000001";
  public_id = "u1";
  refresh_token = "00000000-0000-4000-8000-000000000001.a";
  ttl_seconds = ratio 60 0;
  ip = none;
  user_agent = none;
}

abbrev context : SessionContext
context = record { ip = some "10.0.0.1"; user_agent = none }

abbrev first : AuthSessionRecord
first = new_session hash input 1000

abbrev db1 : Memory AuthSessionRecord
db1 = (create_session server hash input 1000 db0).1

names_a : extract_session_id token_a ≡ some sid
unfolding extract_session_id is_session_id
names_a = refl

names_b : extract_session_id token_b ≡ some sid
unfolding extract_session_id is_session_id
names_b = refl

hex_a : is_sha256_hex (hash token_a) ≡ true
unfolding is_sha256_hex
hex_a = refl

hex_b : is_sha256_hex (hash token_b) ≡ true
unfolding is_sha256_hex
hex_b = refl

lifetime : normalize_ttl_seconds (ratio 60 0) ≡ ok 60
unfolding normalize_ttl_seconds
lifetime = refl

found : get_session server sid db1 ≡ some first
unfolding get_session create_session normalize_ttl_seconds is_session_id
found = refl

matches_a : hashes_match (hash token_a) (hash token_a) ≡ true
unfolding hashes_match is_sha256_hex
matches_a = refl

differ : hashes_match (hash token_b) (hash token_a) ≡ false
unfolding hashes_match is_sha256_hex
differ = refl

differ' : hashes_match (hash token_a) (hash token_b) ≡ false
unfolding hashes_match is_sha256_hex
differ' = refl

validate-rotate_example :
    validate_refresh_token server hash token_b 3000
      (rotate_refresh_token server hash none sid token_a token_b (ratio 60 0) context 2000 db1).1
    ≡ rotate_refresh_token server hash none sid token_a token_b (ratio 60 0) context 2000 db1
validate-rotate_example =
    validate-rotate server hash none sid token_a token_b (ratio 60 0) context 2000 3000 60 first db1
      found refl matches_a lifetime (ground arith) names_b hex_b

abbrev db2 : Memory AuthSessionRecord
db2 = (rotate_refresh_token server hash none sid token_a token_b (ratio 60 0) context 2000 db1).1

validate-rotate_previous_example :
    (validate_refresh_token server hash token_a 3000 db2 ≡ (
      if leb 3000 (2000 + refresh_rotation_grace_ms none)
      then (err already_rotated, db2)
      else (err reuse_detected, revoke_session server sid db2)))
    × (get_session server sid (revoke_session server sid db2) ≡ none)
validate-rotate_previous_example =
    validate-rotate_previous server hash none sid token_a token_b (ratio 60 0) context 2000 3000 60
      first db1 found refl matches_a lifetime (ground arith) names_a differ

accepted : validate_refresh_token server hash token_a 2000 db1 ≡ (ok first, db1)
unfolding create_session normalize_ttl_seconds
accepted = validate-create server hash input 1000 2000 60 db0 names_a hex_a lifetime (ground arith)

validate_ok_example :
    (i : String) × (extract_session_id token_a ≡ some i)
    × (get_session server i db1 ≡ some first)
    × (first.is_active ≡ true)
    × (hashes_match first.refresh_token_hash (hash token_a) ≡ true)
    × (db1 ≡ db1)
validate_ok_example = validate_ok server hash token_a 2000 first db1 db1 accepted

-- The second token against the session that holds the first.
reused :
    validate_refresh_token server hash token_b 2000 db1
    ≡ (err reuse_detected, revoke_session server sid db1)
unfolding validate_refresh_token extract_session_id is_session_id
reused =
    check_unknown server hash sid token_b 2000 first db1 found refl
      (classify_unknown first (hash token_b) 2000 differ' refl)

reached : Reach server hash db1
reached = create input 1000 db0 (λ t h. ground (arith, lifetime)) (start db0 (λ j. nothing j))
  where
    nothing : (j : String) → get_session server j db0 ≡ none
    nothing j = unfold get_session in ground arith

Reach-IsIndexed_example : IsIndexed server db1
Reach-IsIndexed_example = Reach-IsIndexed server hash reached

revoke_all_signs_out_example :
    ((touch_env : Option Number) (i : String) (now : ℕ)
      → (assert_access_session server touch_env i "u1" now
          (revoke_all_sessions_for_user server "u1" db1)).0
        ≡ err session_invalid)
    × ((i token : String) (s : AuthSessionRecord) (now : ℕ)
        → extract_session_id token ≡ some i
        → get_session server i db1 ≡ some s
        → s.public_id ≡ "u1"
        → validate_refresh_token server hash token now
            (revoke_all_sessions_for_user server "u1" db1)
          ≡ (err session_invalid, revoke_all_sessions_for_user server "u1" db1))
revoke_all_signs_out_example = revoke_all_signs_out server hash "u1" db1 reached

late_touch_revives_example :
    (get_session server sid (touch_write server first 30 5000 (revoke_session server sid db1))
      ≡ some (record first { last_seen_at = 5000 }))
    × (listed server "u1" sid (touch_write server first 30 5000 (revoke_session server sid db1))
        ≡ false)
    × (get_session server sid (
          revoke_all_sessions_for_user server "u1"
            (touch_write server first 30 5000 (revoke_session server sid db1)))
        ≡ some (record first { last_seen_at = 5000 }))
late_touch_revives_example =
    late_touch_revives server first 30 5000 db1 (ground arith) (extract_valid token_a sid names_a)
      found

late_touch_undoes_rotation_example :
    (let late = touch_write server first 30 2001 db2 in
      ((rotate_refresh_token server hash none sid token_a token_b (ratio 60 0) context 2000 db1).0
        ≡ ok (rotated hash none first token_b 2000 context))
      × (validate_refresh_token server hash token_b 3000 late
          ≡ (err reuse_detected, revoke_session server sid late))
      × (get_session server sid (revoke_session server sid late) ≡ none))
late_touch_undoes_rotation_example =
    late_touch_undoes_rotation server hash none token_a token_b (ratio 60 0) context 30 2000 2001
      3000 60 first db1 found matches_a lifetime (ground arith) (ground arith) refl refl names_b
      differ'

asserted : (assert_access_session server none sid "u1" 70000 db1).0 ≡ ok first
unfolding assert_access_session touch_session_on_access get_session create_session
    normalize_ttl_seconds is_session_id read_positive_integer_env
asserted = refl

assert_access_session_ok_example :
    (get_session server sid db1 ≡ some first)
    × (first.is_active ≡ true)
    × (first.public_id ≡ "u1")
    × ((j : String) (r : AuthSessionRecord)
        → get_session server j (assert_access_session server none sid "u1" 70000 db1).1 ≡ some r
        → ((j ≡ first.sid) × (r ≡ record first { last_seen_at = 70000 }))
          ⊎ (get_session server j db1 ≡ some r))
    × ((j : String) (r : AuthSessionRecord)
        → get_session server j db1 ≡ some r
        → (get_session server j (assert_access_session server none sid "u1" 70000 db1).1 ≡ some r)
          ⊎ ((j ≡ first.sid)
              × (get_session server j (assert_access_session server none sid "u1" 70000 db1).1
                  ≡ some (record first { last_seen_at = 70000 }))))
assert_access_session_ok_example =
    assert_access_session_ok server none sid "u1" 70000 first db1 asserted
