-- ===== src/Notifications/Answers.antt =====
-- What the calls of the service answer, and the states that they reach.
use image_app.Common.{
  ℕ, zero, suc, min, ◌≤◌, ◌≡◌, refl, sym, ap, ◌∙◌, String, Bool, true, false, Option, none, some,
  List, [], ◌∷◌, map, take, length, length-take, leb, leb→le, All, All-take, take-take, map-take,
  arith, str_eq, ◌==◌, Bool-cases, inl, inr, if◌then◌else◌,
}
use mathlib.Core.Path.{subst}
use image_app.Common.Pairs.{one_if}
use image_app.Notifications.{Notification, Hash, Docs, read, find_doc}
use image_app.Notifications.Cache.{
  NotificationRedis, backfill_notifications, parsed_all, get_user_notifications, mark_all, parsed,
  with_read, is_unread, unread_of, get_unread_notification_count,
}
use image_app.Notifications.Service.{
  State, create_notification, backfill, first_page, get_notifications, mark_found, mark_as_read,
  mark_all_as_read, unread_count, get_unread_count,
}
use image_app.Notifications.Laws.{
  Distinct, ids_of, Distinct-take, IsCached, IsCached-mark_all, parsed_all_of,
}
use image_app.Notifications.Transparent.{
  IsCoherent, push-IsCoherent, backfill-IsCoherent, mark_doc-IsCoherent,
}

abbrev zero_if : Option Notification → ℕ
zero_if none = 0
zero_if (some n) = if n.is_read then 0 else 1

-- All documents of the user are marked.
apart-read :
    (n : Notification) (ns : Docs)
    → All (λ (m : Notification). str_eq n.id m.id ≡ false) ns
    → All (λ (m : Notification). str_eq n.id m.id ≡ false) (map read ns)
apart-read n [] h = tt
apart-read n (m ∷ ms) h = (h.0, apart-read n ms h.1)

Distinct-read : (ns : Docs) → Distinct ns → Distinct (map read ns)
Distinct-read [] h = tt
Distinct-read (n ∷ ns) h = (apart-read n ns h.0, Distinct-read ns h.1)

ids-read : (ns : Docs) → ids_of (map read ns) ≡ ids_of ns
ids-read [] = refl
ids-read (n ∷ ns) = ap (λ is. n.id ∷ is) (ids-read ns)

All-map : (P : Notification → Type 0) (ns : Docs) → All (λ n. P (read n)) ns → All P (map read ns)
All-map P [] h = tt
All-map P (n ∷ ns) h = (h.0, All-map P ns h.1)

module _ (redis : NotificationRedis) where
  open redis use {Db, ids, hash}

  ids-mark_all : (is : List String) (db : Db) → ids (mark_all redis is db) ≡ ids db
  ids-mark_all [] db = refl
  ids-mark_all (i ∷ is) db = ids-mark_all is _ ∙ redis.ids-h_set_read i db

  mark_all-IsCoherent :
      (docs : Docs) (cache : Db)
      → IsCoherent redis docs cache
      → IsCoherent redis (map read docs) (mark_all redis (ids cache) cache)
  mark_all-IsCoherent docs cache v =
      let marked = map-take read v.count docs in
      record {
        count = v.count;
        bounded = v.bounded;
        window =
            ids-mark_all (ids cache) cache
            ∙ (v.window ∙ (sym (ids-read (take v.count docs)) ∙ ap ids_of marked));
        cached = subst (All (IsCached redis (mark_all redis (ids cache) cache))) marked (
            All-map (IsCached redis (mark_all redis (ids cache) cache)) (take v.count docs) (
              subst
                (λ is.
                  All (λ n. IsCached redis (mark_all redis is cache) (read n)) (take v.count docs))
                (sym v.window)
                (IsCached-mark_all redis (take v.count docs) cache
                  (Distinct-take v.count docs v.distinct) v.cached)));
        distinct = Distinct-read docs v.distinct;
      }

  -- The first page of the cache, for a limit of at least 1.
  page_of :
      (limit : ℕ) (docs : Docs) (cache : Db) (v : IsCoherent redis docs cache)
      → get_user_notifications redis (suc limit) cache ≡ take (min (suc limit) v.count) docs
  unfolding get_user_notifications
  page_of limit docs cache v =
      let shorter = take-take (suc limit) v.count docs in
      ap (λ is. parsed_all redis is cache)
        (ap (take (suc limit)) v.window
          ∙ (sym (map-take (λ (m : Notification). m.id) (suc limit) (take v.count docs))
              ∙ ap ids_of shorter))
      ∙ parsed_all_of redis (take (min (suc limit) v.count) docs) cache (
          subst (All (IsCached redis cache)) shorter
            (All-take (IsCached redis cache) (suc limit) (take v.count docs) v.cached))

  hit :
      (limit k : ℕ) (docs : Docs)
      → k ≤ 200
      → leb limit (length (take (min limit k) docs)) ≡ true
      → take (min limit k) docs ≡ take (min limit 200) docs
  hit limit k docs bound h =
      let e : min limit k ≡ min limit 200 = omega (
        arith,
        leb→le limit (length (take (min limit k) docs)) h,
        length-take (min limit k) docs,
      ) in
      ap (λ m. take m docs) e

  module _ (valid_id : String → Bool) (cast : String → String) where
    -- The cache of a state says what its documents say.
    abbrev pub Coherent : State redis valid_id cast → Type 0
    Coherent s = IsCoherent redis s.docs s.cache

    backfilled :
        (ns : Docs) (s : State redis valid_id cast)
        → take 200 s.docs ≡ ns
        → Coherent s
        → Coherent (backfill redis valid_id cast ns s)
          × ((backfill redis valid_id cast ns s).docs ≡ s.docs)
    unfolding backfill
    backfilled [] s e v = (v, refl)
    backfilled (n ∷ ns) s e v = (
      subst (λ ms. IsCoherent redis s.docs (backfill_notifications redis ms 199 s.cache)) e
          (backfill-IsCoherent redis s.docs s.cache v),
      refl,
    )

    -- The state after a first page and the backfill that it starts.
    abbrev pub after_page : ℕ → State redis valid_id cast → State redis valid_id cast
    after_page limit s =
        backfill redis valid_id cast (get_notifications redis valid_id cast limit 0 s).1 s

    -- The first page of the notifications of a user, for a limit of at least 1, in a state whose cache
    -- says what its documents say: whatever the cache has, it is the newest documents, as many as the
    -- limit, but no more than 200. The backfill that it starts leaves the documents as they are, and a
    -- cache that says what they say.
    pub get_notifications_transparent :
        (limit : ℕ) (s : State redis valid_id cast)
        → Coherent s
        → ((get_notifications redis valid_id cast (suc limit) 0 s).0
            ≡ take (min (suc limit) 200) s.docs)
          × ((after_page (suc limit) s).docs ≡ s.docs)
          × Coherent (after_page (suc limit) s)
    unfolding get_notifications first_page backfill
    get_notifications_transparent limit s v =
        let page = page_of limit s.docs s.cache v in
        let (sound, same) = backfilled (take 200 s.docs) s refl v in
        elim (Bool-cases (leb (suc limit) (length (take (min (suc limit) v.count) s.docs)))) [
          | inl full ↦ rw (page, full) (hit (suc limit) v.count s.docs v.bounded full, refl, v)
          | inr short ↦ rw (page, short) (take-take (suc limit) 200 s.docs, same, sound)
        ]

    mark_found-Coherent :
        (i : String) (o : Option Notification) (s : State redis valid_id cast)
        → cast i ≡ i
        → Coherent s
        → Coherent (mark_found redis valid_id cast i o s).1
    unfolding mark_found
    mark_found-Coherent i none s e v = v
    mark_found-Coherent i (some n) s e v = rw e (mark_doc-IsCoherent redis i s.docs s.cache v)

    mark_all_as_read-Coherent :
        (s : State redis valid_id cast)
        → Coherent s
        → Coherent (mark_all_as_read redis valid_id cast s).1
    unfolding mark_all_as_read
    mark_all_as_read-Coherent s v = elim (Bool-cases (unread_count s.docs == 0)) [
      | inl none_left ↦ rw none_left v
      | inr some_left ↦ rw some_left (mark_all-IsCoherent s.docs s.cache v)
    ]

    -- The states that the calls reach from an empty cache, whatever the collection has then, while no key
    -- expires. The calls run one after the other, and the backfill that one starts ends before the next.
    -- A new notification has an id of its own, and one is marked by its id as the database writes it.
    pub data Reach : State redis valid_id cast → Type 0 where
      start :
          (docs : Docs) (cache : Db)
          → Distinct docs
          → ids cache ≡ []
          → Reach (record { docs = docs; cache = cache })
      creates :
          (n : Notification) (s : State redis valid_id cast)
          → All (λ (m : Notification). str_eq n.id m.id ≡ false) s.docs
          → Reach s
          → Reach (create_notification redis valid_id cast n s)
      reads :
          (limit : ℕ) (s : State redis valid_id cast) → Reach s → Reach (after_page (suc limit) s)
      marks :
          (i : String) (s : State redis valid_id cast)
          → cast i ≡ i
          → Reach s
          → Reach (mark_as_read redis valid_id cast i s).1
      marks_all :
          (s : State redis valid_id cast)
          → Reach s
          → Reach (mark_all_as_read redis valid_id cast s).1

    -- In every state that the calls reach one after the other, each with the backfill that it starts, when
    -- notifications are marked by their ids as the database writes them, the cached list has the newest notifications of the
    -- collection, in order and 200 at most, the hash of each says what its document says, whether it is
    -- read included, and no two documents have one id.
    pub Reach-Coherent : (s : State redis valid_id cast) → Reach s → Coherent s
    unfolding create_notification mark_as_read
    Reach-Coherent s (start docs cache d e) = record {
      count = 0;
      bounded = omega arith;
      window = e;
      cached = tt;
      distinct = d;
    }
    Reach-Coherent s (creates n before fresh r) =
        push-IsCoherent redis before.docs before.cache (Reach-Coherent before r) n fresh
    Reach-Coherent s (reads limit before r) =
        (get_notifications_transparent limit before (Reach-Coherent before r)).2
    Reach-Coherent s (marks i before e r) =
        mark_found-Coherent i (if valid_id i then find_doc (cast i) before.docs else none) before e
          (Reach-Coherent before r)
    Reach-Coherent s (marks_all before r) =
        mark_all_as_read-Coherent before (Reach-Coherent before r)

    unread_flag :
        (o : Option Notification) (b : Bool) (n : Notification)
        → with_read o b ≡ some n
        → one_if (if b then false else true) ≡ zero_if (some n)
    unread_flag none b n e = cc
    unread_flag (some m) true n e = ap (λ o. zero_if o) e
    unread_flag (some m) false n e = ap (λ o. zero_if o) e

    unread_hash :
        (h : Option Hash) (n : Notification)
        → parsed h ≡ some n
        → one_if (is_unread h) ≡ zero_if (some n)
    unread_hash none n e = cc
    unread_hash (some h) n e = unread_flag h.stored h.is_read n e

    unread_of_cached :
        (ns : Docs) (db : Db)
        → All (IsCached redis db) ns
        → unread_of redis (ids_of ns) db ≡ unread_count ns
    unread_of_cached [] db h = refl
    unread_of_cached (n ∷ ns) db h =
        omega (arith, unread_hash (hash db n.id) n h.0, unread_of_cached ns db h.1)

    unread_take : (k : ℕ) (ns : Docs) → unread_count (take k ns) ≤ unread_count ns
    unread_take zero ns = omega arith
    unread_take (suc k) [] = omega arith
    unread_take (suc k) (n ∷ ns) = omega (arith, unread_take k ns)

    -- The unread count, in a state whose cache says what its documents say, is that of the notifications
    -- in the cached list, and so never more than there are in the collection.
    pub get_unread_count_lem :
        (s : State redis valid_id cast)
        → (v : Coherent s)
        → (get_unread_count redis valid_id cast s ≡ unread_count (take v.count s.docs))
          × (get_unread_count redis valid_id cast s ≤ unread_count s.docs)
    unfolding get_unread_count get_unread_notification_count
    get_unread_count_lem s v =
        let e =
          ap (λ is. unread_of redis is s.cache) v.window
          ∙ unread_of_cached (take v.count s.docs) s.cache v.cached in
        (e, omega (arith, e, unread_take v.count s.docs))
