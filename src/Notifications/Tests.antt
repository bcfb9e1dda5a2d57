-- ===== src/Notifications/Tests.antt =====
-- Two notifications, and a cache that is cold at first.
use image_app.Common.{
  min, ◌≤◌, ◌≡◌, refl, String, Bool, true, false, [], ◌∷◌, take, str_eq, if◌then◌else◌,
}
use image_app.Notifications.{Notification}
use image_app.Notifications.Service.{
  State, create_notification, backfill, get_notifications, mark_as_read, get_unread_count,
  unread_count,
}
use image_app.Notifications.Cache.{
  get_user_notifications, push_notification, backfill_notifications, get_unread_notification_count,
}
use image_app.Notifications.Memory.{memory, empty}
use image_app.Notifications.Answers.{
  Coherent, after_page, Reach, start, creates, marks, Reach-Coherent, get_notifications_transparent,
  get_unread_count_lem,
}

abbrev first : Notification
first = record { id = "n1"; body = "like"; timestamp = 5; is_read = false }

abbrev second : Notification
second = record { id = "n2"; body = "follow"; timestamp = 9; is_read = false }

abbrev any_id : String → Bool
any_id i = true

-- The ids of the two in lower case.
abbrev lower_id : String → String
lower_id i = if str_eq i "N2" then "n2" else i

abbrev cold : State memory any_id lower_id
cold = record { docs = first ∷ []; cache = empty }

abbrev pushed : State memory any_id lower_id
pushed = create_notification memory any_id lower_id second cold

-- The page is complete, though the cache has one notification of two; a read fills it.
cold_page : (get_notifications memory any_id lower_id 2 0 pushed).0 ≡ second ∷ first ∷ []
unfolding get_notifications create_notification get_user_notifications push_notification
cold_page = refl

-- The count of a cold cache is that of the cache.
cold_count : get_unread_count memory any_id lower_id cold ≡ 0
unfolding get_unread_count get_unread_notification_count
cold_count = refl

cold-Reach : Reach memory any_id lower_id cold
cold-Reach = start (first ∷ []) empty (tt, tt) refl

pushed-Reach : Reach memory any_id lower_id pushed
pushed-Reach = creates second cold (refl, tt) cold-Reach

Reach-Coherent_example :
    Coherent memory any_id lower_id (mark_as_read memory any_id lower_id "n2" pushed).1
Reach-Coherent_example =
    Reach-Coherent memory any_id lower_id (mark_as_read memory any_id lower_id "n2" pushed).1
      (marks "n2" pushed refl pushed-Reach)

get_notifications_transparent_example :
    ((get_notifications memory any_id lower_id 2 0 pushed).0 ≡ take (min 2 200) pushed.docs)
    × ((after_page memory any_id lower_id 2 pushed).docs ≡ pushed.docs)
    × Coherent memory any_id lower_id (after_page memory any_id lower_id 2 pushed)
get_notifications_transparent_example =
    get_notifications_transparent memory any_id lower_id 1 pushed
      (Reach-Coherent memory any_id lower_id pushed pushed-Reach)

abbrev warm : State memory any_id lower_id
warm = after_page memory any_id lower_id 2 pushed

-- A notification that is marked by its id in upper case is read in the collection, but not in the cache.
upper_case :
    (get_unread_count memory any_id lower_id (mark_as_read memory any_id lower_id "N2" warm).1 ≡ 2)
    × (unread_count (mark_as_read memory any_id lower_id "N2" warm).1.docs ≡ 1)
unfolding get_unread_count get_unread_notification_count mark_as_read create_notification
    push_notification get_notifications get_user_notifications backfill backfill_notifications
upper_case = (refl, refl)

-- A backfill that ends after a mark takes the mark back in the cache.
abbrev late : State memory any_id lower_id
late =
    backfill memory any_id lower_id (get_notifications memory any_id lower_id 2 0 pushed).1
      (mark_as_read memory any_id lower_id "n2" pushed).1

late_backfill : (get_unread_count memory any_id lower_id late ≡ 2) × (unread_count late.docs ≡ 1)
unfolding get_unread_count get_unread_notification_count mark_as_read create_notification
    push_notification get_notifications get_user_notifications backfill backfill_notifications
late_backfill = (refl, refl)

get_unread_count_lem_example :
    (get_unread_count memory any_id lower_id pushed
      ≡ unread_count
          (take (Reach-Coherent memory any_id lower_id pushed pushed-Reach).count pushed.docs))
    × (get_unread_count memory any_id lower_id pushed ≤ unread_count pushed.docs)
get_unread_count_lem_example =
    get_unread_count_lem memory any_id lower_id pushed
      (Reach-Coherent memory any_id lower_id pushed pushed-Reach)
