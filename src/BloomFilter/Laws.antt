-- ===== src/BloomFilter/Laws.antt =====
-- No false negatives, the bounds of the indexes, and the errors.
use native.Mathlib.Omega.{arith}
use image_app.Common.{
  ℕ, zero, suc, ◌<◌, ◌≤◌, ◌≡◌, refl, sym, ap, ◌∙◌, String, Bool, true, Option, none, some, List, [],
  ◌∷◌, all, All, length, eq_refl, Bool-cases, inl, inr,
}
use image_app.Errors.{Thrown, Result, ok, err, Result-cases}
use image_app.Common.Numbers.{Number}
use image_app.BloomFilter.{
  Bitmaps, BloomFilterOptions, BloomFilterShape, compute_shape, indexes_from, compute_indexes,
  check_ttl, set_bits, expire_with, might_contain, add,
}

module _ (ceil_bits : BloomFilterOptions → ℕ) (round_hashes : ℕ → BloomFilterOptions → ℕ)
    (word_a word_b : String → ℕ) where
  length-indexes_from : (a b m i n : ℕ) → length (indexes_from a b m i n) ≡ n
  length-indexes_from a b m i zero = refl
  length-indexes_from a b m i (suc n) = omega (arith, length-indexes_from a b m (suc i) n)

  indexes_from_bound : (a b m i n : ℕ) → 0 < m → All (λ x. x < m) (indexes_from a b m i n)
  indexes_from_bound a b m i zero pos = tt
  indexes_from_bound a b m i (suc n) pos = (grind arith, indexes_from_bound a b m (suc i) n pos)

  -- The options are refused, or every item has at least one index, as many as the shape has hashes,
  -- and each of them is below the size of the filter, which is at least eight bits.
  compute_indexes_bound :
      (options : BloomFilterOptions) (item : String) (shape : BloomFilterShape)
      → compute_shape ceil_bits round_hashes options ≡ ok shape
      → (8 ≤ shape.bit_size)
        × (1 ≤ shape.hash_count)
        × (length (compute_indexes word_a word_b item shape) ≡ shape.hash_count)
        × All (λ i. i < shape.bit_size) (compute_indexes word_a word_b item shape)
  unfolding compute_indexes
  compute_indexes_bound options item shape h =
      let (wide, some_hash) = sizes in
      (
        wide,
        some_hash,
        length-indexes_from _ _ _ 0 shape.hash_count,
        indexes_from_bound _ _ _ 0 shape.hash_count (omega (arith, wide)),
      )
    where
      sizes : (8 ≤ shape.bit_size) × (1 ≤ shape.hash_count)
      sizes = unfold compute_shape in ground arith

module _ (redis : Bitmaps) where
  open redis use {Db, get_bit, set_bit, expire, get_bit-set_bit, get_bit-expire}

  -- A bit that is set stays set.
  set_bits_keep :
      (k j : String) (ns : List ℕ) (i : ℕ) (db : Db)
      → get_bit db j i ≡ true
      → get_bit (set_bits redis k ns db) j i ≡ true
  set_bits_keep k j [] i db h = h
  set_bits_keep k j (n ∷ ns) i db h =
      set_bits_keep k j ns i (set_bit k n db) (rw get_bit-set_bit (ground arith))

  all_keep :
      (k j : String) (ns is : List ℕ) (db : Db)
      → all (λ i. get_bit db j i) is ≡ true
      → all (λ i. get_bit (set_bits redis k ns db) j i) is ≡ true
  all_keep k j ns [] db h = refl
  all_keep k j ns (i ∷ is) db h = ground (arith, set_bits_keep k j ns i db, all_keep k j ns is db)

  all-set_bits :
      (k : String) (ns : List ℕ) (db : Db)
      → all (λ i. get_bit (set_bits redis k ns db) k i) ns ≡ true
  all-set_bits k [] db = refl
  all-set_bits k (n ∷ ns) db =
      let here : get_bit (set_bit k n db) k n ≡ true =
        rw get_bit-set_bit (ground (arith, eq_refl k)) in
      rw (set_bits_keep k k ns n (set_bit k n db) here, all-set_bits k ns (set_bit k n db)) refl

  all_expire :
      (k j : String) (t : Option ℕ) (is : List ℕ) (db : Db)
      → ((n : ℕ) → t ≡ some n → 0 < n)
      → all (λ i. get_bit db j i) is ≡ true
      → all (λ i. get_bit (expire_with redis k t db) j i) is ≡ true
  all_expire k j none is db pos h = h
  all_expire k j (some t) [] db pos h = refl
  all_expire k j (some t) (i ∷ is) db pos h =
      ground (arith, get_bit-expire k j t i db (pos t refl), all_expire k j (some t) is db pos)

-- A time to live that is given comes to at least one second.
abbrev pub IsLasting : Option Number → Type 0
IsLasting ttl = (n : ℕ) → check_ttl ttl ≡ ok (some n) → 0 < n

-- A call of `add`.
pub record Addition : Type 0 where
  pub answers : Bool
  pub key : String
  pub item : String
  pub options : BloomFilterOptions
  pub ttl_seconds : Option Number

module _ (redis : Bitmaps) (ceil_bits : BloomFilterOptions → ℕ)
    (round_hashes : ℕ → BloomFilterOptions → ℕ) (word_a word_b : String → ℕ) where
  open redis use {Db, get_bit, set_bit, expire}

  -- Further calls of `add`, whatever they return.
  abbrev pub add_each : List Addition → Db → Db
  add_each [] db = db
  add_each (a ∷ as_) db =
      add_each as_
        (add redis ceil_bits round_hashes word_a word_b a.answers a.key a.item a.options
          a.ttl_seconds db).1

  -- All bits of these indexes are set.
  abbrev HasBits : String → List ℕ → Db → Type 0
  HasBits key is db = all (λ i. get_bit db key i) is ≡ true

  add_keeps :
      (key : String) (is : List ℕ) (a : Addition) (db : Db)
      → IsLasting a.ttl_seconds
      → HasBits key is db
      → HasBits key is
          (add redis ceil_bits round_hashes word_a word_b a.answers a.key a.item a.options
            a.ttl_seconds db).1
  unfolding add
  add_keeps key is a db lasts h =
      elim (Result-cases (compute_shape ceil_bits round_hashes a.options)) [
        | inr (e, s) ↦ rw s h
        | inl (shape, s) ↦ elim (Result-cases (check_ttl a.ttl_seconds)) [
          | inr (e, t) ↦ rw (s, t) h
          | inl (seconds, t) ↦ elim (Bool-cases a.answers) [
            | inr silent ↦ rw (s, t, silent) h
            | inl told ↦
                rw (s, t, told)
                  (all_expire redis a.key key seconds is _
                    (λ n e. lasts n (t ∙ ap (λ (x : Option ℕ). ok x) e))
                    (all_keep redis a.key key (compute_indexes word_a word_b a.item shape) is db h))
          ]
        ]
      ]

  add_each_keeps :
      (key : String) (is : List ℕ) (as_ : List Addition) (db : Db)
      → All (λ (a : Addition). IsLasting a.ttl_seconds) as_
      → HasBits key is db
      → HasBits key is (add_each as_ db)
  add_each_keeps key is [] db lasts h = h
  add_each_keeps key is (a ∷ as_) db lasts h =
      add_each_keeps key is as_ _ lasts.1 (add_keeps key is a db lasts.0 h)

  -- No false negatives. Once `add` has returned for an item, `mightContain` says yes to it, whatever
  -- was added to any key after it, as long as no key expires; the store is left alone. The options
  -- are the same, and each time to live is at least one second.
  pub might_contain-add :
      (key item : String) (options : BloomFilterOptions) (ttl_seconds : Option Number)
      (as_ : List Addition) (db db' : Db)
      → IsLasting ttl_seconds
      → All (λ (a : Addition). IsLasting a.ttl_seconds) as_
      → add redis ceil_bits round_hashes word_a word_b true key item options ttl_seconds db
        ≡ (ok tt, db')
      → might_contain redis ceil_bits round_hashes word_a word_b true key item options
          (add_each as_ db')
        ≡ (ok true, add_each as_ db')
  unfolding add might_contain
  might_contain-add key item options ttl_seconds as_ db db' lasts later added =
      elim (Result-cases (compute_shape ceil_bits round_hashes options)) [
        | inr (e, s) ↦ cc (rw s at added)
        | inl (shape, s) ↦ elim (Result-cases (check_ttl ttl_seconds)) [
          | inr (e, t) ↦ cc (rw (s, t) at added)
          | inl (seconds, t) ↦
              let is = compute_indexes word_a word_b item shape in
              let same = ap (λ (x : Result (Unit {0}) × Db). x.1) (rw (s, t) at added) in
              let set : HasBits key is db' = rw (sym same) (
                all_expire redis key key seconds is _
                  (λ n e. lasts n (t ∙ ap (λ (x : Option ℕ). ok x) e))
                  (all-set_bits redis key is db)) in
              rw (s, add_each_keeps key is as_ db' later set) refl
        ]
      ]

  -- A call of `add` that throws, for whatever reason, has not changed the store, and a call of
  -- `mightContain` never changes it.
  add_error :
      (answers : Bool) (key item : String) (options : BloomFilterOptions)
      (ttl_seconds : Option Number) (e : Thrown) (db : Db)
      → ((add redis ceil_bits round_hashes word_a word_b answers key item options ttl_seconds db).0
            ≡ err e
          → (add redis ceil_bits round_hashes word_a word_b answers key item options ttl_seconds
              db).1
            ≡ db)
        × ((might_contain redis ceil_bits round_hashes word_a word_b answers key item options db).1
            ≡ db)
  unfolding add might_contain
  add_error answers key item options ttl_seconds e db =
      elim (Result-cases (compute_shape ceil_bits round_hashes options)) [
        | inr (x, s) ↦ rw s (λ h. refl, refl)
        | inl (shape, s) ↦ (
          elim (Result-cases (check_ttl ttl_seconds)) [
            | inr (x, t) ↦ rw (s, t) (λ h. refl)
            | inl (seconds, t) ↦ elim (Bool-cases answers) [
              | inr silent ↦ rw (s, t, silent) (λ h. refl)
              | inl told ↦ rw (s, t, told) (λ h. cc h)
            ]
          ],
          elim (Bool-cases answers) [
            | inr silent ↦ rw (s, silent) refl
            | inl told ↦ rw (s, told) refl
          ],
        )
      ]
