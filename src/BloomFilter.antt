-- ===== src/BloomFilter.antt =====
-- backend/src/services/redis/bloom-filter.service.ts: a Bloom filter in a Redis bitmap.
pub mod Laws
mod Tests
use image_app.Common.{
  ℕ, zero, suc, ◌+◌, ◌*◌, ◌%◌, ◌<◌, ◌≡◌, max, String, Bool, true, false, ◌&&◌, ◌||◌, Option, none,
  some, List, [], ◌∷◌, all, leb, ◌==◌, str_eq, if◌then◌else◌,
}
use image_app.Errors.{
  Thrown, app, create_error, validation_error, error_database, no_options, Result, ok, err,
}
use image_app.Exec.{Exec, pure, throw, lift, gets, modify, ◌>>=◌, ◌>>◌}
use image_app.Common.Numbers.{Number, not_finite, negative, ratio, is_refused, floor}

-- GETBIT, SETBIT to 1, and EXPIRE: commands of the Redis server, as documented.
pub record Bitmaps : Type 1 where
  pub Db : Type 0
  pub get_bit : Db → String → ℕ → Bool
  pub set_bit : String → ℕ → Db → Db
  pub expire : String → ℕ → Db → Db
  pub get_bit-set_bit :
      (k j : String) (n i : ℕ) (db : Db)
      → get_bit (set_bit k n db) j i ≡ (if str_eq k j && (n == i) then true else get_bit db j i)
  pub get_bit-expire :
      (k j : String) (t i : ℕ) (db : Db) → 0 < t → get_bit (expire k t db) j i ≡ get_bit db j i

pub record BloomFilterOptions : Type 0 where
  pub expected_items : Number
  pub false_positive_rate : Number

pub record BloomFilterShape : Type 0 where
  pub bit_size : ℕ
  pub hash_count : ℕ

abbrev pub invalid : String → Thrown
invalid m = app (create_error validation_error m no_options)

abbrev pub no_answer : String → Thrown
no_answer m = app (create_error error_database m no_options)

-- `x >= 1`
abbrev at_least_one : Number → Bool
at_least_one (ratio p d) = leb (suc d) p
at_least_one _ = false

-- The ends of the float computations of `computeShape` are parameters: `ceil_bits` is the value of
-- `Math.ceil`, and `round_hashes` that of `Math.round` for a bit size.
module _ (ceil_bits : BloomFilterOptions → ℕ) (round_hashes : ℕ → BloomFilterOptions → ℕ) where
  unfoldable pub compute_shape : BloomFilterOptions → Result BloomFilterShape
  compute_shape options =
      if is_refused options.expected_items
      then err (invalid "Bloom filter expectedItems must be a positive number")
      else if is_refused options.false_positive_rate || at_least_one options.false_positive_rate
      then err (invalid "Bloom filter falsePositiveRate must be between 0 and 1")
      else (let bits = max 8 (ceil_bits options) in
          ok (record { bit_size = bits; hash_count = max 1 (round_hashes bits options) }))

-- The numbers (a + i * b) % mod, for `n` values of i that begin with `i`.
abbrev pub indexes_from : ℕ → ℕ → ℕ → ℕ → ℕ → List ℕ
indexes_from a b m i zero = []
indexes_from a b m i (suc n) = (a + i * b) % m ∷ indexes_from a b m (suc i) n

-- `word_a` and `word_b` are the first eight bytes of the SHA-256 and of the SHA-1 hash, as a number.
module _ (word_a word_b : String → ℕ) where
  unfoldable pub compute_indexes : String → BloomFilterShape → List ℕ
  compute_indexes item shape =
      let b = if word_b item == 0 then 1 else word_b item in
      indexes_from (word_a item) b shape.bit_size 0 shape.hash_count

-- A time to live that is given must be positive, and is rounded down to seconds.
unfoldable pub check_ttl : Option Number → Result (Option ℕ)
check_ttl none = ok none
check_ttl (some ttl) =
    if is_refused ttl
    then err (invalid "Bloom filter TTL must be a positive number")
    else ok (some (floor ttl))

module _ (redis : Bitmaps) where
  open redis use {Db, set_bit, expire}

  abbrev pub set_bits : String → List ℕ → Db → Db
  set_bits key [] db = db
  set_bits key (n ∷ ns) db = set_bits key ns (set_bit key n db)

  abbrev pub expire_with : String → Option ℕ → Db → Db
  expire_with key none db = db
  expire_with key (some seconds) db = expire key seconds db

module _ (redis : Bitmaps) (ceil_bits : BloomFilterOptions → ℕ)
    (round_hashes : ℕ → BloomFilterOptions → ℕ) (word_a word_b : String → ℕ) where
  open redis use {Db, get_bit}

  -- `answers` says whether `exec` returns a result.
  unfoldable pub might_contain : Bool → String → String → BloomFilterOptions → Exec Db Bool
  might_contain answers key item options = do
    shape ← lift (compute_shape ceil_bits round_hashes options)
    (if answers
        then gets (λ db. all (λ i. get_bit db key i) (compute_indexes word_a word_b item shape))
        else throw (no_answer "Bloom filter read pipeline returned empty result"))

  unfoldable pub add :
      Bool → String → String → BloomFilterOptions → Option Number → Exec Db (Unit {0})
  add answers key item options ttl_seconds = do
    shape ← lift (compute_shape ceil_bits round_hashes options)
    seconds ← lift (check_ttl ttl_seconds)
    (if answers
        then modify (λ db.
          expire_with redis key seconds
            (set_bits redis key (compute_indexes word_a word_b item shape) db))
        else throw (no_answer "Bloom filter write pipeline returned empty result"))
