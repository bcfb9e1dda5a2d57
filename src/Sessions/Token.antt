-- ===== src/Sessions/Token.antt =====
-- The parts of backend/src/services/auth-session.service.ts that read no store: the format of
-- session ids and refresh tokens, the comparison of hashes, and numbers from the configuration.
pub mod Laws
use Prim.Native.Char.{Char, code}
use Prim.Native.String.{String, [], ◌∷◌}
use mathlib.Core.List
use mathlib.Core.Option
use image_app.Common.{
  ℕ, zero, suc, ◌+◌, ◌-◌, ◌*◌, ◌/◌, Bool, true, false, not, ◌&&◌, ◌||◌, Option, none, some, List,
  map, all, length, leb, ltb, ◌==◌, str_eq, if◌then◌else◌,
}
use image_app.Common.Text.{codes}
use image_app.Common.Numbers.{Number, is_refused, floor}
use image_app.Errors.{Result, ok, err, app, create_error, config_error, no_options}

-- `AuthSessionRecord` of backend/src/types/customAuth/auth.types.ts. Its `status` can only be
-- "active", but the code tests it: `is_active` is that test on the stored text.
pub record AuthSessionRecord : Type 0 where
  pub sid : String
  pub public_id : String
  pub refresh_token_hash : String
  pub previous_refresh_token_hash : Option String
  pub previous_refresh_token_grace_until : Option ℕ
  pub created_at : ℕ
  pub last_seen_at : ℕ
  pub ip : Option String
  pub user_agent : Option String
  pub is_active : Bool

-- `[0-9a-f]` with the flag `i`
abbrev pub is_hex : ℕ → Bool
is_hex c = (leb b'0' c && leb c b'9') || (leb b'a' c && leb c b'f') || (leb b'A' c && leb c b'F')

-- `n` digits, then what `rest` accepts
abbrev hex_run : ℕ → (List ℕ → Bool) → List ℕ → Bool
hex_run zero rest cs = rest cs
hex_run (suc n) rest List.[] = false
hex_run (suc n) rest (List.◌∷◌ c cs) = is_hex c && hex_run n rest cs

abbrev dash : (List ℕ → Bool) → List ℕ → Bool
dash rest List.[] = false
dash rest (List.◌∷◌ c cs) = c == b'-' && rest cs

abbrev at_end : List ℕ → Bool
at_end List.[] = true
at_end (List.◌∷◌ c cs) = false

-- `SESSION_ID_REGEX.test`
unfoldable pub is_session_id : String → Bool
is_session_id s =
    hex_run 8 (dash (hex_run 4 (dash (hex_run 4 (dash (hex_run 4 (dash (hex_run 12 at_end))))))))
      (codes s)

-- `SHA256_HEX_REGEX.test`
unfoldable pub is_sha256_hex : String → Bool
is_sha256_hex s = length (codes s) == 64 && all is_hex (codes s)

-- `split(".")`
abbrev prefix_first : Char → List String → List String
prefix_first c List.[] = List.[]
prefix_first c (List.◌∷◌ s ss) = List.◌∷◌ (c ∷ s) ss

unfoldable pub split_dot : String → List String
split_dot [] = List.◌∷◌ "" List.[]
split_dot (c ∷ s) =
    let rest = split_dot s in if code c == b'.' then List.◌∷◌ "" rest else prefix_first c rest

-- A missing or an empty part, or a third one, is refused.
sid_of_parts : List String → Option String
sid_of_parts (List.◌∷◌ sid (List.◌∷◌ secret List.[])) =
    if str_eq sid "" || str_eq secret "" then none else if is_session_id sid then some sid else none
sid_of_parts _ = none

unfoldable pub extract_session_id : String → Option String
unfolding split_dot sid_of_parts
extract_session_id token = sid_of_parts (split_dot token)

-- The value of a hexadecimal digit.
abbrev hex_value : ℕ → ℕ
hex_value c = if leb c b'9' then c - b'0' else if leb c b'F' then c - 55 else c - 87

-- `Buffer.from(text, "hex")`, for a text of hexadecimal digits
abbrev bytes : List ℕ → List ℕ
bytes (List.◌∷◌ h (List.◌∷◌ l cs)) = List.◌∷◌ (hex_value h * 16 + hex_value l) (bytes cs)
bytes _ = List.[]

-- `crypto.timingSafeEqual` on buffers of one length
abbrev pub same_bytes : List ℕ → List ℕ → Bool
same_bytes List.[] List.[] = true
same_bytes (List.◌∷◌ a as_) (List.◌∷◌ b bs) = a == b && same_bytes as_ bs
same_bytes _ _ = false

unfoldable pub hashes_match : String → String → Bool
hashes_match stored presented =
    if not (is_sha256_hex stored) || not (is_sha256_hex presented)
    then false
    else if not (length (bytes (codes stored)) == length (bytes (codes presented)))
    then false
    else same_bytes (bytes (codes stored)) (bytes (codes presented))

pub data MatchState : Type 0 where
  current recently_rotated unknown : MatchState

-- `previousHash && this.hashesMatch(previousHash, presentedHash)`
abbrev previous_matches : Option String → String → Bool
previous_matches none presented = false
previous_matches (some h) presented = not (str_eq h "") && hashes_match h presented

unfoldable pub classify_refresh_token_match : AuthSessionRecord → String → ℕ → MatchState
classify_refresh_token_match session presented now =
    if hashes_match session.refresh_token_hash presented
    then current
    else if previous_matches session.previous_refresh_token_hash presented
        && leb now (Option.get_or session.previous_refresh_token_grace_until 0)
    then recently_rotated
    else unknown

unfoldable pub normalize_ttl_seconds : Number → Result ℕ
normalize_ttl_seconds ttl =
    if is_refused ttl
    then err (app (create_error config_error "Invalid session TTL configuration" no_options))
    else ok (floor ttl)

-- `parsed` is `Number(raw)` of the environment variable, if it is set.
unfoldable pub read_positive_integer_env : Option Number → ℕ → ℕ
read_positive_integer_env none fallback = fallback
read_positive_integer_env (some parsed) fallback =
    if is_refused parsed then fallback else floor parsed

-- The settings, in milliseconds.
abbrev pub refresh_rotation_grace_ms : Option Number → ℕ
refresh_rotation_grace_ms env = read_positive_integer_env env (15 * 60) * 1000

abbrev pub access_touch_interval_ms : Option Number → ℕ
access_touch_interval_ms env = read_positive_integer_env env 60 * 1000
