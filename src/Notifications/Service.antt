-- ===== src/Notifications/Service.antt =====
-- `NotificationService` of backend/src/services/notification.service.ts, and
-- backend/src/repositories/notification.respository.ts, while neither the database nor Redis fails. The
-- names and pictures of an actor, the sockets, and the log are left out. The code does not wait for the
-- backfill that `getNotifications` starts: it is a step of its own.
use image_app.Common.{
  ℕ, ◌+◌, String, Bool, Option, none, some, [], ◌∷◌, map, take, length, leb, ltb, str_eq, ◌==◌,
  if◌then◌else◌,
}
use image_app.Errors.{app, create_error, path_error, no_options, Result, ok, err}
use image_app.Notifications.{Notification, Docs, read, find_doc}
use image_app.Notifications.Cache.{
  NotificationRedis, push_notification, backfill_notifications, get_user_notifications, mark_all,
  get_unread_notification_count,
}

-- The updates of the collection: `markAsRead` of one document, and `markAllAsRead`.
abbrev pub mark_doc : String → Docs → Docs
mark_doc i [] = []
mark_doc i (n ∷ ns) = if str_eq n.id i then read n ∷ ns else n ∷ mark_doc i ns

abbrev pub unread_count : Docs → ℕ
unread_count [] = 0
unread_count (n ∷ ns) = (if n.is_read then 0 else 1) + unread_count ns

-- `getNotificationsBeforeTimestamp`, without its limit.
abbrev pub before : ℕ → Docs → Docs
before t [] = []
before t (n ∷ ns) = if ltb n.timestamp t then n ∷ before t ns else before t ns

-- `MAX_NOTIFICATIONS_PER_USER` is 200.
abbrev pub max_per_user : ℕ
max_per_user = 200

-- `valid_id` tests for 24 hexadecimal digits, and `cast` is what Mongoose makes of them to look for a
-- document: the id as the database writes it, in lower case.
module _ (redis : NotificationRedis) (valid_id : String → Bool) (cast : String → String) where
  open redis use {Db, ids, h_set_read}

  pub record State : Type 0 where
    pub docs : Docs
    pub cache : Db

  -- `createNotification`, of a document that is newer than all others.
  unfoldable pub create_notification : Notification → State → State
  create_notification n s = record {
    docs = n ∷ s.docs;
    cache = push_notification redis n 199 s.cache;
  }

  -- The backfill of the documents that `getNotifications` has handed over, if any.
  unfoldable pub backfill : Docs → State → State
  backfill [] s = s
  backfill (n ∷ ns) s = record s { cache = backfill_notifications redis (n ∷ ns) 199 s.cache }

  -- The answer, and the documents that the cache is filled with again.
  unfoldable pub first_page : ℕ → Docs → State → Docs × Docs
  first_page limit cached s =
      if leb limit (length cached)
      then (cached, [])
      else (take limit (take max_per_user s.docs), take max_per_user s.docs)

  -- `getNotifications`, where a cursor of 0 is none.
  unfoldable pub get_notifications : ℕ → ℕ → State → Docs × Docs
  unfolding first_page
  get_notifications limit cursor s =
      if cursor == 0
      then first_page limit (get_user_notifications redis limit s.cache) s
      else (take limit (before cursor s.docs), [])

  -- The document is found by the id as it was cast, the hash by the id as it was given.
  unfoldable pub mark_found : String → Option Notification → State → Result Notification × State
  mark_found i none s = (err (app (create_error path_error "Notification not found" no_options)), s)
  mark_found i (some n) s =
      (ok (read n), record { docs = mark_doc (cast i) s.docs; cache = h_set_read i s.cache })

  unfoldable pub mark_as_read : String → State → Result Notification × State
  unfolding mark_found
  mark_as_read i s = mark_found i (if valid_id i then find_doc (cast i) s.docs else none) s

  unfoldable pub mark_all_as_read : State → ℕ × State
  mark_all_as_read s = (
    unread_count s.docs,
    (if unread_count s.docs == 0
        then s
        else record { docs = map read s.docs; cache = mark_all redis (ids s.cache) s.cache }),
  )

  -- `getUnreadCount`: the count of the cache, since it is never below 0.
  unfoldable pub get_unread_count : State → ℕ
  get_unread_count s = get_unread_notification_count redis s.cache
