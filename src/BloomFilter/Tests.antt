-- ===== src/BloomFilter/Tests.antt =====
-- A filter of two items, over bitmaps in memory. The words of an item are constants here.
use image_app.Common.{
  ℕ, zero, suc, ◌<◌, ◌≡◌, refl, String, Bool, true, false, ◌&&◌, none, some, List, [], ◌∷◌, arith,
  ◌==◌, str_eq, if◌then◌else◌,
}
use image_app.Errors.{ok}
use image_app.Common.Numbers.{ratio}
use image_app.BloomFilter.{
  Bitmaps, BloomFilterOptions, BloomFilterShape, compute_shape, compute_indexes, check_ttl,
  might_contain, add,
}
use image_app.BloomFilter.Laws.{Addition, add_each, might_contain-add}

abbrev Bits : Type 0
Bits = String → ℕ → Bool

abbrev set_at : String → ℕ → Bits → Bits
set_at k n db j i = if str_eq k j && (n == i) then true else db j i

-- EXPIRE with 0 deletes the key.
abbrev expire_at : String → ℕ → Bits → Bits
expire_at k zero db = λ j i. if str_eq k j then false else db j i
expire_at k (suc t) db = db

get_bit-expire_at : (k j : String) (t i : ℕ) (db : Bits) → 0 < t → expire_at k t db j i ≡ db j i
get_bit-expire_at k j zero i db pos = ground arith
get_bit-expire_at k j (suc t) i db pos = refl

abbrev bitmaps : Bitmaps
bitmaps = record {
  Db = Bits;
  get_bit = λ db k i. db k i;
  set_bit = set_at;
  expire = expire_at;
  get_bit-set_bit = λ k j n i db. refl;
  get_bit-expire = get_bit-expire_at;
}

abbrev no_bits : Bits
no_bits k i = false

abbrev options : BloomFilterOptions
options = record { expected_items = ratio 2 0; false_positive_rate = ratio 1 99 }

abbrev bits_of : BloomFilterOptions → ℕ
bits_of o = 20

abbrev hashes_of : ℕ → BloomFilterOptions → ℕ
hashes_of n o = 3

abbrev word : String → ℕ
word s = if str_eq s "ann" then 7 else 12

abbrev after : Bits
after =
    (add bitmaps bits_of hashes_of word word true "views" "ann" options (some (ratio 60 0))
      no_bits).1

accepted :
    add bitmaps bits_of hashes_of word word true "views" "ann" options (some (ratio 60 0)) no_bits
    ≡ (ok tt, after)
unfolding add compute_shape check_ttl
accepted = refl

abbrev more : List Addition
more =
    record { answers = true; key = "views"; item = "bob"; options = options; ttl_seconds = none }
    ∷ []

might_contain-add_example :
    might_contain bitmaps bits_of hashes_of word word true "views" "ann" options
      (add_each bitmaps bits_of hashes_of word word more after)
    ≡ (ok true, add_each bitmaps bits_of hashes_of word word more after)
might_contain-add_example =
    might_contain-add bitmaps bits_of hashes_of word word "views" "ann" options (some (ratio 60 0))
      more no_bits after minute (none_given, tt) accepted
  where
    minute : (n : ℕ) → check_ttl (some (ratio 60 0)) ≡ ok (some n) → 0 < n
    minute n h = unfold check_ttl in ground (arith, h)

    none_given : (n : ℕ) → check_ttl none ≡ ok (some n) → 0 < n
    none_given n h = unfold check_ttl in ground (arith, h)

-- An item that was not added, in a filter where its bits are clear.
bob_missing :
    (might_contain bitmaps bits_of hashes_of word word true "views" "bob" options after).0
    ≡ ok false
unfolding might_contain add compute_shape compute_indexes check_ttl
bob_missing = refl

abbrev shape : BloomFilterShape
shape = record { bit_size = 20; hash_count = 3 }

shape_ok : compute_shape bits_of hashes_of options ≡ ok shape
unfolding compute_shape
shape_ok = refl
