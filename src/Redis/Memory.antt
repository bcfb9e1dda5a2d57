-- ===== src/Redis/Memory.antt =====
-- A server in memory, which shows that the commands of `Redis` can be as documented. The sets never
-- expire; a string is there until the clock passes its end.
use image_app.Common.{
  ℕ, ◌+◌, ◌-◌, ◌<◌, ◌≡◌, refl, String, true, false, ◌&&◌, Option, none, some, List, [], ◌∷◌, arith,
  ltb, str_eq, eq_iff, if◌then◌else◌,
}
use image_app.Redis.{Redis, has}

pub record Memory (value : Type 0) : Type 0 where
  pub strings : String → Option (value × ℕ)
  pub sets : String → List String
  pub now : ℕ

abbrev update {ℓ} : {A : Type ℓ} → String → A → (String → A) → String → A
update k a f j = if str_eq k j then a else f j

abbrev remove : String → List String → List String
remove x [] = []
remove x (y ∷ ys) = if str_eq y x then remove x ys else y ∷ remove x ys

has-remove :
    (x y : String) (ys : List String)
    → has y (remove x ys) ≡ (if str_eq x y then false else has y ys)
has-remove x y [] = ground arith
has-remove x y (z ∷ zs) = ground (arith, has-remove x y zs, eq_iff z x, eq_iff z y, eq_iff x y)

module _ {value : Type 0} where
  abbrev live : ℕ → Option (value × ℕ) → Option value
  live now none = none
  live now (some (v, end)) = if ltb now end then some v else none

  abbrev left : ℕ → Option (value × ℕ) → ℕ
  left now none = 0
  left now (some (v, end)) = end - now

  abbrev set_at : String → ℕ → value → Memory value → Memory value
  set_at k t v m = record m { strings = update k (some (v, m.now + t)) m.strings }

  abbrev del_at : String → Memory value → Memory value
  del_at k m = record m { strings = update k none m.strings; sets = update k [] m.sets }

  abbrev add_at : String → String → Memory value → Memory value
  add_at k x m = record m { sets = update k (x ∷ m.sets k) m.sets }

  abbrev rem_at : String → String → Memory value → Memory value
  rem_at k x m = record m { sets = update k (remove x (m.sets k)) m.sets }

  abbrev wait_at : ℕ → Memory value → Memory value
  wait_at n m = record m { now = m.now + n }

  abbrev get_at : Memory value → String → Option value
  get_at m k = live m.now (m.strings k)

  pub get-set_at :
      (k j : String) (t : ℕ) (v : value) (m : Memory value)
      → 0 < t
      → get_at (set_at k t v m) j ≡ (if str_eq k j then some v else get_at m j)
  get-set_at k j t v m h = ground arith

  pub get-del_at :
      (k j : String) (m : Memory value)
      → get_at (del_at k m) j ≡ (if str_eq k j then none else get_at m j)
  get-del_at k j m = ground arith

  pub get-wait_at :
      (k : String) (t n : ℕ) (v : value) (m : Memory value)
      → 0 < t
      → get_at (wait_at n (set_at k t v m)) k ≡ (if ltb n t then some v else none)
  get-wait_at k t n v m h = ground (arith, eq_iff k k)

  pub get_of_wait_at :
      (k : String) (n : ℕ) (v : value) (m : Memory value)
      → get_at (wait_at n m) k ≡ some v
      → get_at m k ≡ some v
  get_of_wait_at k n v m h = ground arith

  pub mem-del_at :
      (k j x : String) (m : Memory value)
      → has x ((del_at k m).sets j) ≡ (if str_eq k j then false else has x (m.sets j))
  mem-del_at k j x m = ground arith

  pub mem-add_at :
      (k j x y : String) (m : Memory value)
      → has y ((add_at k x m).sets j)
        ≡ (if str_eq k j && str_eq x y then true else has y (m.sets j))
  mem-add_at k j x y m = ground (arith, eq_iff k j)

  pub mem-rem_at :
      (k j x y : String) (m : Memory value)
      → has y ((rem_at k x m).sets j)
        ≡ (if str_eq k j && str_eq x y then false else has y (m.sets j))
  mem-rem_at k j x y m = ground (arith, eq_iff k j, has-remove x y (m.sets k))

abbrev pub memory : (value : Type 0) → Redis value
memory value = record {
  Db = Memory value;
  get = get_at;
  members = λ m k. m.sets k;
  ttl = λ m k. left m.now (m.strings k);
  set_ex = set_at;
  del = del_at;
  s_add = add_at;
  s_rem = rem_at;
  expire = λ k t m. m;
  wait = wait_at;
  get-set_ex = get-set_at;
  get-del = get-del_at;
  get-s_add = λ k j x m. refl;
  get-s_rem = λ k j x m. refl;
  get-expire = λ k j t m h. refl;
  get-wait = get-wait_at;
  get_of_wait = get_of_wait_at;
  mem-set_ex = λ k j x t v m. refl;
  mem-del = mem-del_at;
  mem-s_add = mem-add_at;
  mem-s_rem = mem-rem_at;
  mem-expire = λ k j x t m h. refl;
}

abbrev pub empty_memory : {value : Type 0} → Memory value
empty_memory = record { strings = λ k. none; sets = λ k. []; now = 0 }
