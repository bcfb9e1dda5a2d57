-- ===== src/Sessions/Token/Laws.antt =====
-- Hash comparison, the classes of refresh tokens, and the numbers from the configuration.
use mathlib.Core.List.{[], ◌∷◌}
use image_app.Common.{
  ℕ, suc, ◌+◌, ◌*◌, ◌/◌, ◌≤◌, ◌<◌, ◌≡◌, refl, String, true, false, none, some, List, arith, leb,
  str_eq, eq_iff, Bool-cases, inl, inr, if◌then◌else◌,
}
use image_app.Common.Text.{codes}
use image_app.Errors.{ok}
use image_app.Common.Numbers.{ratio}
use image_app.Sessions.Token.{
  AuthSessionRecord, is_sha256_hex, bytes, same_bytes, hashes_match, current, recently_rotated,
  unknown, classify_refresh_token_match, is_session_id, split_dot, sid_of_parts, extract_session_id,
  normalize_ttl_seconds, read_positive_integer_env,
}

-- The session id of a refresh token is well-formed.
pub extract_valid :
    (token sid : String) → extract_session_id token ≡ some sid → is_session_id sid ≡ true
unfolding extract_session_id
extract_valid token sid h = parts (split_dot token) h
  where
    parts : (ps : List String) → sid_of_parts ps ≡ some sid → is_session_id sid ≡ true
    parts [] e = cc
    parts (a ∷ []) e = cc
    parts (a ∷ b ∷ []) e = ground arith
    parts (a ∷ b ∷ c ∷ r) e = cc

same_bytes_refl : (bs : List ℕ) → same_bytes bs bs ≡ true
same_bytes_refl [] = refl
same_bytes_refl (b ∷ bs) = ground (arith, same_bytes_refl bs)

-- A well-formed hash matches itself.
pub hashes_match_refl : (h : String) → is_sha256_hex h ≡ true → hashes_match h h ≡ true
unfolding hashes_match
hashes_match_refl h hex = ground (arith, same_bytes_refl (bytes (codes h)))

nonempty_of_match : (h p : String) → hashes_match h p ≡ true → str_eq h "" ≡ false
unfolding hashes_match is_sha256_hex
nonempty_of_match h p m = elim (Bool-cases (str_eq h "")) [
  | inl e ↦ cc (rw ((eq_iff h "").0 e) at m)
  | inr e ↦ e
]

module _ (s : AuthSessionRecord) (presented : String) (now : ℕ) where
  pub classify_current :
      hashes_match s.refresh_token_hash presented ≡ true
      → classify_refresh_token_match s presented now ≡ current
  unfolding classify_refresh_token_match
  classify_current h = ground arith

  -- The classes of a token that is not the current one, by the previous hash and the grace window.
  pub classify_previous :
      (h : String) (until : ℕ)
      → s.previous_refresh_token_hash ≡ some h
      → s.previous_refresh_token_grace_until ≡ some until
      → hashes_match s.refresh_token_hash presented ≡ false
      → hashes_match h presented ≡ true
      → classify_refresh_token_match s presented now
        ≡ (if leb now until then recently_rotated else unknown)
  unfolding classify_refresh_token_match
  classify_previous h until p u no_match m = ground (arith, nonempty_of_match h presented m)

  -- A token that matches neither the current hash nor a previous one is unknown.
  pub classify_unknown :
      hashes_match s.refresh_token_hash presented ≡ false
      → s.previous_refresh_token_hash ≡ none
      → classify_refresh_token_match s presented now ≡ unknown
  unfolding classify_refresh_token_match
  classify_unknown h p = ground arith

  -- A token that is "current" matches the stored hash.
  pub current_matches :
      classify_refresh_token_match s presented now ≡ current
      → hashes_match s.refresh_token_hash presented ≡ true
  unfolding classify_refresh_token_match
  current_matches h = ground arith

-- A lifetime of at least one second is accepted as a positive whole number of seconds, the largest
-- that is not above it.
pub normalize_ttl_seconds_lem :
    (p d : ℕ)
    → suc d ≤ p
    → (t : ℕ) × (normalize_ttl_seconds (ratio p d) ≡ ok t)
      × (0 < t)
      × (t * suc d ≤ p)
      × (p < t * suc d + suc d)
unfolding normalize_ttl_seconds
normalize_ttl_seconds_lem p d h = (p / suc d, ground arith, grind arith, grind arith, grind arith)

-- A lifetime between 0 and 1 second passes the test for positive numbers and becomes 0 seconds; so
-- does a setting.
normalize_ttl_seconds_zero :
    (p d fallback : ℕ)
    → 0 < p
    → p ≤ d
    → (normalize_ttl_seconds (ratio p d) ≡ ok 0)
      × (read_positive_integer_env (some (ratio p d)) fallback ≡ 0)
unfolding normalize_ttl_seconds read_positive_integer_env
normalize_ttl_seconds_zero p d fallback h k =
    let none_left : p / suc d ≡ 0 = grind arith in (ground arith, ground arith)
