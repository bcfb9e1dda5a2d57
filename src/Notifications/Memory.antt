-- ===== src/Notifications/Memory.antt =====
-- A store that has the commands of Redis for the notifications of a user.
use image_app.Common.{
  suc, refl, String, Option, none, some, List, [], ◌∷◌, ◌++◌, take, str_eq, if◌then◌else◌,
}
use image_app.Notifications.{Hash}
use image_app.Notifications.Cache.{NotificationRedis, mark}

pub record Memory : Type 0 where
  pub ids : List String
  pub hash : String → Option Hash

abbrev put : String → Hash → (String → Option Hash) → String → Option Hash
put i h f j = if str_eq i j then some h else f j

abbrev pub empty : Memory
empty = record { ids = []; hash = λ i. none }

abbrev pub memory : NotificationRedis
memory = record {
  Db = Memory;
  ids = λ m. m.ids;
  hash = λ m. m.hash;
  h_set =
      λ i n m. record m { hash = put i (record { stored = some n; is_read = n.is_read }) m.hash };
  h_set_read =
      λ i m. record m { hash = λ j. if str_eq i j then some (mark (m.hash j)) else m.hash j };
  expire_hash = λ i t m. m;
  expire_list = λ t m. m;
  l_push = λ i m. record m { ids = i ∷ m.ids };
  r_push = λ i m. record m { ids = m.ids ++ i ∷ [] };
  l_trim = λ n m. record m { ids = take (suc n) m.ids };
  del_list = λ m. record m { ids = [] };
  ids-h_set = λ i n m. refl;
  ids-h_set_read = λ i m. refl;
  ids-expire_hash = λ i t m. refl;
  ids-expire_list = λ t m. refl;
  ids-l_push = λ i m. refl;
  ids-r_push = λ i m. refl;
  ids-l_trim = λ n m. refl;
  ids-del_list = λ m. refl;
  hash-h_set = λ i j n m. refl;
  hash-h_set_read = λ i j m. refl;
  hash-expire_hash = λ i j t m. refl;
  hash-expire_list = λ j t m. refl;
  hash-l_push = λ i j m. refl;
  hash-r_push = λ i j m. refl;
  hash-l_trim = λ n j m. refl;
  hash-del_list = λ j m. refl;
}
