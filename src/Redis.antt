-- ===== src/Redis.antt =====
-- The Redis server as backend/src/services calls it: strings with a time to live, which hold
-- values as JSON, and sets of strings. It is no code of this repository, so it is a parameter: its
-- commands, and what its documentation says of them. A `multi` block is the sequence of its
-- commands. The services never use one key both for a string and for a set.
pub mod Memory
use image_app.Common.{
  ℕ, ◌+◌, ◌<◌, ◌≡◌, String, Bool, true, false, ◌&&◌, ◌||◌, Option, none, some, List, [], ◌∷◌, any,
  ltb, str_eq, if◌then◌else◌,
}

abbrev pub has : String → List String → Bool
has x [] = false
has x (y ∷ ys) = str_eq y x || has x ys

-- `value` is what the JSON texts stand for. `get` is GET and a parse, `members` is SMEMBERS, and
-- `ttl` is TTL, 0 where the server answers with a negative number. `wait n` lets n seconds pass.
pub record Redis (value : Type 0) : Type 1 where
  pub Db : Type 0
  pub get : Db → String → Option value
  pub members : Db → String → List String
  pub ttl : Db → String → ℕ
  pub set_ex : String → ℕ → value → Db → Db
  pub del : String → Db → Db
  pub s_add : String → String → Db → Db
  pub s_rem : String → String → Db → Db
  pub expire : String → ℕ → Db → Db
  pub wait : ℕ → Db → Db
  pub get-set_ex :
      (k j : String) (t : ℕ) (v : value) (db : Db)
      → 0 < t
      → get (set_ex k t v db) j ≡ (if str_eq k j then some v else get db j)
  pub get-del :
      (k j : String) (db : Db) → get (del k db) j ≡ (if str_eq k j then none else get db j)
  pub get-s_add : (k j x : String) (db : Db) → get (s_add k x db) j ≡ get db j
  pub get-s_rem : (k j x : String) (db : Db) → get (s_rem k x db) j ≡ get db j
  pub get-expire : (k j : String) (t : ℕ) (db : Db) → 0 < t → get (expire k t db) j ≡ get db j
  pub get-wait :
      (k : String) (t n : ℕ) (v : value) (db : Db)
      → 0 < t
      → get (wait n (set_ex k t v db)) k ≡ (if ltb n t then some v else none)
  pub get_of_wait :
      (k : String) (n : ℕ) (v : value) (db : Db) → get (wait n db) k ≡ some v → get db k ≡ some v
  pub mem-set_ex :
      (k j x : String) (t : ℕ) (v : value) (db : Db)
      → has x (members (set_ex k t v db) j) ≡ has x (members db j)
  pub mem-del :
      (k j x : String) (db : Db)
      → has x (members (del k db) j) ≡ (if str_eq k j then false else has x (members db j))
  pub mem-s_add :
      (k j x y : String) (db : Db)
      → has y (members (s_add k x db) j)
        ≡ (if str_eq k j && str_eq x y then true else has y (members db j))
  pub mem-s_rem :
      (k j x y : String) (db : Db)
      → has y (members (s_rem k x db) j)
        ≡ (if str_eq k j && str_eq x y then false else has y (members db j))
  pub mem-expire :
      (k j x : String) (t : ℕ) (db : Db)
      → 0 < t
      → has x (members (expire k t db) j) ≡ has x (members db j)
