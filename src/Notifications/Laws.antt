-- ===== src/Notifications/Laws.antt =====
-- What the calls of the cache do to its list and its hashes.
use image_app.Common.{
  ℕ, zero, suc, ◌≡◌, refl, sym, ap, ◌∙◌, String, Bool, true, false, Option, none, some, List, [],
  ◌∷◌, ◌++◌, map, take, All, All-take, All-imply, arith, str_eq, eq_iff, eq_refl, Bool-cases, inl,
  inr, if◌then◌else◌,
}
use mathlib.Core.List.{append_assoc, append-nil}
use image_app.Notifications.{Notification, Hash, Docs, read}
use image_app.Notifications.Cache.{
  NotificationRedis, parsed, with_read, mark, keep, push_notification, backfill_from,
  backfill_notifications, parsed_all, mark_all,
}

-- No two notifications have one id.
abbrev pub Distinct : Docs → Type 0
Distinct [] = Unit
Distinct (n ∷ ns) = All (λ (m : Notification). str_eq n.id m.id ≡ false) ns × Distinct ns

abbrev pub ids_of : Docs → List String
ids_of ns = map (λ n. n.id) ns

pub Distinct-take : (k : ℕ) (ns : Docs) → Distinct ns → Distinct (take k ns)
Distinct-take zero ns h = tt
Distinct-take (suc k) [] h = tt
Distinct-take (suc k) (n ∷ ns) h =
    (All-take (λ (m : Notification). str_eq n.id m.id ≡ false) k ns h.0, Distinct-take k ns h.1)

with_read-true :
    (o : Option Notification) (b : Bool) (n : Notification)
    → with_read o b ≡ some n
    → with_read o true ≡ some (read n)
with_read-true none b n e = cc
with_read-true (some m) b n e = ap (λ o. with_read o true) e

module _ (redis : NotificationRedis) where
  open redis use {
    Db, ids, hash, h_set, h_set_read, expire_hash, expire_list, l_push, r_push, l_trim, del_list,
  }

  -- The hash of a notification says what the document says.
  abbrev pub IsCached : Db → Notification → Type 0
  IsCached db n = parsed (hash db n.id) ≡ some n

  -- `push_notification` and one round of a backfill.
  pub ids-push :
      (n : Notification) (max : ℕ) (db : Db)
      → ids (push_notification redis n max db) ≡ take (suc max) (n.id ∷ ids db)
  unfolding push_notification
  ids-push n max db =
      redis.ids-expire_list _ _
      ∙ (redis.ids-l_trim max _
          ∙ ap (take (suc max)) (
              redis.ids-l_push n.id _
              ∙ ap (λ is. n.id ∷ is) (redis.ids-expire_hash _ _ _ ∙ redis.ids-h_set n.id n db)))

  pub hash-push :
      (n : Notification) (max : ℕ) (db : Db) (j : String)
      → hash (push_notification redis n max db) j ≡ (
          if str_eq n.id j
          then some (record { stored = some n; is_read = n.is_read })
          else hash db j)
  unfolding push_notification
  hash-push n max db j =
      redis.hash-expire_list _ _ _
      ∙ (redis.hash-l_trim _ _ _
          ∙ (redis.hash-l_push _ _ _
              ∙ (redis.hash-expire_hash _ _ _ _ ∙ redis.hash-h_set n.id j n db)))

  abbrev round : Notification → Db → Db
  round n db = r_push n.id (expire_hash n.id 2592000 (h_set n.id n db))

  hash-round :
      (n : Notification) (db : Db) (j : String)
      → hash (round n db) j ≡ (
          if str_eq n.id j
          then some (record { stored = some n; is_read = n.is_read })
          else hash db j)
  hash-round n db j =
      redis.hash-r_push _ _ _ ∙ (redis.hash-expire_hash _ _ _ _ ∙ redis.hash-h_set n.id j n db)

  ids-backfill_from : (ns : Docs) (db : Db) → ids (backfill_from redis ns db) ≡ ids db ++ ids_of ns
  unfolding backfill_from
  ids-backfill_from [] db = sym (append-nil (ids db))
  ids-backfill_from (n ∷ ns) db =
      ids-backfill_from ns (round n db)
      ∙ (ap (λ is. is ++ ids_of ns)
            (redis.ids-r_push n.id _
              ∙ ap (λ is. is ++ n.id ∷ [])
                  (redis.ids-expire_hash _ _ _ ∙ redis.ids-h_set n.id n db))
          ∙ append_assoc (ids db) (n.id ∷ []) (ids_of ns))

  hash-backfill_other :
      (ns : Docs) (db : Db) (j : String)
      → All (λ (m : Notification). str_eq j m.id ≡ false) ns
      → hash (backfill_from redis ns db) j ≡ hash db j
  unfolding backfill_from
  hash-backfill_other [] db j h = refl
  hash-backfill_other (n ∷ ns) db j h =
      hash-backfill_other ns (round n db) j h.1
      ∙ (hash-round n db j ∙ ground (arith, h.0, eq_iff n.id j, eq_iff j n.id))

  IsCached-backfill_from :
      (ns : Docs) (db : Db) → Distinct ns → All (IsCached (backfill_from redis ns db)) ns
  unfolding backfill_from
  IsCached-backfill_from [] db d = tt
  IsCached-backfill_from (n ∷ ns) db d = (
    ap parsed (hash-backfill_other ns (round n db) n.id d.0 ∙ hash-round n db n.id)
        ∙ rw (eq_refl n.id) refl,
    IsCached-backfill_from ns (round n db) d.1,
  )

  pub ids-backfill :
      (ns : Docs) (max : ℕ) (db : Db)
      → ids (backfill_notifications redis ns max db) ≡ take (suc max) (ids_of ns)
  unfolding backfill_notifications
  ids-backfill ns max db =
      redis.ids-expire_list _ _
      ∙ (redis.ids-l_trim max _
          ∙ ap (take (suc max)) (
              ids-backfill_from ns (del_list db)
              ∙ ap (λ is. is ++ ids_of ns) (redis.ids-del_list db)))

  pub IsCached-backfill :
      (ns : Docs) (max : ℕ) (db : Db)
      → Distinct ns
      → All (IsCached (backfill_notifications redis ns max db)) ns
  unfolding backfill_notifications
  IsCached-backfill ns max db d =
      All-imply (IsCached (backfill_from redis ns (del_list db)))
        (IsCached (backfill_notifications redis ns max db)) ns
        (λ n h. ap parsed (redis.hash-expire_list _ _ _ ∙ redis.hash-l_trim _ _ _) ∙ h)
        (IsCached-backfill_from ns (del_list db) d)

  -- Marks.
  pub parsed-mark :
      (h : Option Hash) (n : Notification)
      → parsed h ≡ some n
      → parsed (some (mark h)) ≡ some (read n)
  parsed-mark none n e = cc
  parsed-mark (some h) n e = with_read-true h.stored h.is_read n e

  pub IsCached-h_set_read :
      (i : String) (n : Notification) (db : Db)
      → IsCached db n
      → str_eq i n.id ≡ false
      → IsCached (h_set_read i db) n
  IsCached-h_set_read i n db h other = ap parsed (redis.hash-h_set_read i n.id db) ∙ rw other h

  pub marked : (n : Notification) (db : Db) → IsCached db n → IsCached (h_set_read n.id db) (read n)
  marked n db h =
      ap parsed (redis.hash-h_set_read n.id n.id db)
      ∙ rw (eq_refl n.id) (parsed-mark (hash db n.id) n h)

  stays_marked :
      (is : List String) (n : Notification) (db : Db)
      → IsCached db (read n)
      → IsCached (mark_all redis is db) (read n)
  stays_marked [] n db h = h
  stays_marked (i ∷ is) n db h = elim (Bool-cases (str_eq i n.id)) [
    | inl this ↦ stays_marked is n (h_set_read i db) (
        ap parsed (redis.hash-h_set_read i n.id db)
        ∙ rw this (parsed-mark (hash db n.id) (read n) h))
    | inr other ↦ stays_marked is n (h_set_read i db) (IsCached-h_set_read i (read n) db h other)
  ]

  pub IsCached-mark_all :
      (ns : Docs) (db : Db)
      → Distinct ns
      → All (IsCached db) ns
      → All (λ n. IsCached (mark_all redis (ids_of ns) db) (read n)) ns
  IsCached-mark_all [] db d h = tt
  IsCached-mark_all (n ∷ ns) db d h = (
    stays_marked (ids_of ns) n (h_set_read n.id db) (marked n db h.0),
    IsCached-mark_all ns (h_set_read n.id db) d.1 (others ns d.0 h.1),
  )
    where
      others :
          (ms : Docs)
          → All (λ (m : Notification). str_eq n.id m.id ≡ false) ms
          → All (IsCached db) ms
          → All (IsCached (h_set_read n.id db)) ms
      others [] d h = tt
      others (m ∷ ms) d h = (IsCached-h_set_read n.id m db h.0 d.0, others ms d.1 h.1)

  -- Reads of hashes that say what the documents say.
  pub parsed_all_of :
      (ns : Docs) (db : Db) → All (IsCached db) ns → parsed_all redis (ids_of ns) db ≡ ns
  parsed_all_of [] db h = refl
  parsed_all_of (n ∷ ns) db h =
      ap (λ o. keep o (parsed_all redis (ids_of ns) db)) h.0
      ∙ ap (λ ms. n ∷ ms) (parsed_all_of ns db h.1)
