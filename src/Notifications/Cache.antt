-- ===== src/Notifications/Cache.antt =====
-- `RedisNotificationModule` of backend/src/services/redis/redis-notification.module.ts, on the commands of
-- Redis that it sends for one user. Redis is no code of this repository, so it is a parameter: its
-- commands, and what its documentation says of them while no key expires.
use image_app.Common.{
  ℕ, zero, suc, ◌+◌, ◌≡◌, String, Bool, true, false, Option, none, some, List, [], ◌∷◌, ◌++◌, take,
  str_eq, if◌then◌else◌,
}
use image_app.Notifications.{Notification, Hash, Docs}

abbrev pub mark : Option Hash → Hash
mark none = record { stored = none; is_read = true }
mark (some h) = record h { is_read = true }

-- `ids` is LRANGE 0 -1 of the list of the user, `hash` is HGETALL of `notification:<id>`. `h_set` sets
-- all fields of a hash, `h_set_read` sets `isRead` to 1. `l_trim n` is LTRIM 0 n.
pub record NotificationRedis : Type 1 where
  pub Db : Type 0
  pub ids : Db → List String
  pub hash : Db → String → Option Hash
  pub h_set : String → Notification → Db → Db
  pub h_set_read : String → Db → Db
  pub expire_hash : String → ℕ → Db → Db
  pub expire_list : ℕ → Db → Db
  pub l_push : String → Db → Db
  pub r_push : String → Db → Db
  pub l_trim : ℕ → Db → Db
  pub del_list : Db → Db
  pub ids-h_set : (i : String) (n : Notification) (db : Db) → ids (h_set i n db) ≡ ids db
  pub ids-h_set_read : (i : String) (db : Db) → ids (h_set_read i db) ≡ ids db
  pub ids-expire_hash : (i : String) (t : ℕ) (db : Db) → ids (expire_hash i t db) ≡ ids db
  pub ids-expire_list : (t : ℕ) (db : Db) → ids (expire_list t db) ≡ ids db
  pub ids-l_push : (i : String) (db : Db) → ids (l_push i db) ≡ i ∷ ids db
  pub ids-r_push : (i : String) (db : Db) → ids (r_push i db) ≡ ids db ++ i ∷ []
  pub ids-l_trim : (n : ℕ) (db : Db) → ids (l_trim n db) ≡ take (suc n) (ids db)
  pub ids-del_list : (db : Db) → ids (del_list db) ≡ []
  pub hash-h_set :
      (i j : String) (n : Notification) (db : Db)
      → hash (h_set i n db) j
        ≡ (if str_eq i j then some (record { stored = some n; is_read = n.is_read }) else hash db j)
  pub hash-h_set_read :
      (i j : String) (db : Db)
      → hash (h_set_read i db) j ≡ (if str_eq i j then some (mark (hash db j)) else hash db j)
  pub hash-expire_hash : (i j : String) (t : ℕ) (db : Db) → hash (expire_hash i t db) j ≡ hash db j
  pub hash-expire_list : (j : String) (t : ℕ) (db : Db) → hash (expire_list t db) j ≡ hash db j
  pub hash-l_push : (i j : String) (db : Db) → hash (l_push i db) j ≡ hash db j
  pub hash-r_push : (i j : String) (db : Db) → hash (r_push i db) j ≡ hash db j
  pub hash-l_trim : (n : ℕ) (j : String) (db : Db) → hash (l_trim n db) j ≡ hash db j
  pub hash-del_list : (j : String) (db : Db) → hash (del_list db) j ≡ hash db j

-- 30 days.
abbrev pub cache_ttl : ℕ
cache_ttl = 2592000

-- What is left of a hash: nothing without data.
abbrev pub with_read : Option Notification → Bool → Option Notification
with_read none b = none
with_read (some n) b = some (record n { is_read = b })

abbrev pub parsed : Option Hash → Option Notification
parsed none = none
parsed (some h) = with_read h.stored h.is_read

abbrev pub keep : Option Notification → Docs → Docs
keep none ns = ns
keep (some n) ns = n ∷ ns

abbrev pub is_unread : Option Hash → Bool
is_unread none = false
is_unread (some h) = if h.is_read then false else true

module _ (redis : NotificationRedis) where
  open redis use {
    Db, ids, hash, h_set, h_set_read, expire_hash, expire_list, l_push, r_push, l_trim, del_list,
  }

  -- `maxCount` is `max + 1`.
  unfoldable pub push_notification : Notification → ℕ → Db → Db
  push_notification n max db =
      expire_list cache_ttl
        (l_trim max (l_push n.id (expire_hash n.id cache_ttl (h_set n.id n db))))

  unfoldable pub backfill_from : Docs → Db → Db
  backfill_from [] db = db
  backfill_from (n ∷ ns) db =
      backfill_from ns (r_push n.id (expire_hash n.id cache_ttl (h_set n.id n db)))

  unfoldable pub backfill_notifications : Docs → ℕ → Db → Db
  unfolding backfill_from
  backfill_notifications ns max db =
      expire_list cache_ttl (l_trim max (backfill_from ns (del_list db)))

  abbrev pub parsed_all : List String → Db → Docs
  parsed_all [] db = []
  parsed_all (i ∷ is) db = keep (parsed (hash db i)) (parsed_all is db)

  -- The first page, LRANGE 0 (limit - 1): all ids for a limit of 0.
  unfoldable pub get_user_notifications : ℕ → Db → Docs
  get_user_notifications zero db = parsed_all (ids db) db
  get_user_notifications (suc limit) db = parsed_all (take (suc limit) (ids db)) db

  abbrev pub mark_all : List String → Db → Db
  mark_all [] db = db
  mark_all (i ∷ is) db = mark_all is (h_set_read i db)

  abbrev pub unread_of : List String → Db → ℕ
  unread_of [] db = 0
  unread_of (i ∷ is) db = (if is_unread (hash db i) then 1 else 0) + unread_of is db

  unfoldable pub get_unread_notification_count : Db → ℕ
  get_unread_notification_count db = unread_of (ids db) db
