-- ===== src/Notifications.antt =====
-- Notifications of a user: backend/src/services/notification.service.ts on the collection of
-- backend/src/repositories/notification.respository.ts and the cache of
-- backend/src/services/redis/redis-notification.module.ts. Everything here is about one user; the
-- notifications of other users have other ids and other keys.
pub mod Cache
pub mod Service
pub mod Laws
pub mod Transparent
pub mod Answers
mod Memory
mod Tests
use image_app.Common.{
  ℕ, String, Bool, true, Option, none, some, List, [], ◌∷◌, str_eq, if◌then◌else◌,
}

-- `body` stands for the fields that no operation changes.
pub record Notification : Type 0 where
  pub id : String
  pub body : String
  pub timestamp : ℕ
  pub is_read : Bool

-- `stored` and `is_read` are the fields `data` and `isRead` of a hash. A hash that only `isRead` was written to has no data.
pub record Hash : Type 0 where
  pub stored : Option Notification
  pub is_read : Bool

-- The collection, newest first: `find`, `sort({ timestamp: -1 })`.
abbrev pub Docs : Type 0
Docs = List Notification

abbrev pub read : Notification → Notification
read n = record n { is_read = true }

abbrev pub find_doc : String → Docs → Option Notification
find_doc i [] = none
find_doc i (n ∷ ns) = if str_eq n.id i then some n else find_doc i ns
