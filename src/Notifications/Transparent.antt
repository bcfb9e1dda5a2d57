-- ===== src/Notifications/Transparent.antt =====
-- The cache shows nothing that the collection does not show.
use image_app.Common.{
  ℕ, zero, suc, min, ◌≤◌, ◌≡◌, refl, sym, ap, ◌∙◌, String, false, [], ◌∷◌, take, All, All-take,
  take-take, map-take, arith, str_eq, eq_iff, eq_refl, Bool-cases, inl, inr,
}
use mathlib.Core.Path.{subst}
use image_app.Notifications.{Notification, Docs, read}
use image_app.Notifications.Cache.{
  NotificationRedis, push_notification, backfill_notifications, parsed,
}
use image_app.Notifications.Service.{mark_doc}
use image_app.Notifications.Laws.{
  Distinct, ids_of, Distinct-take, IsCached, ids-push, hash-push, ids-backfill, IsCached-backfill,
  IsCached-h_set_read, marked,
}

module _ (redis : NotificationRedis) where
  open redis use {Db, ids, hash, h_set_read}

  -- The list of the cache has the newest notifications, 200 at most and in order, and the hash of each
  -- says what the document says.
  pub record IsCoherent (docs : Docs) (cache : Db) : Type 0 where
    pub count : ℕ
    pub bounded : count ≤ 200
    pub window : ids cache ≡ ids_of (take count docs)
    pub cached : All (IsCached redis cache) (take count docs)
    pub distinct : Distinct docs

  module _ (docs : Docs) (cache : Db) (v : IsCoherent docs cache) where
    pushed-IsCached :
        (n : Notification) (ms : Docs)
        → All (λ (m : Notification). str_eq n.id m.id ≡ false) ms
        → All (IsCached redis cache) ms
        → All (IsCached redis (push_notification redis n 199 cache)) ms
    pushed-IsCached n [] d h = tt
    pushed-IsCached n (m ∷ ms) d h =
        (ap parsed (hash-push redis n 199 cache m.id) ∙ rw d.0 h.0, pushed-IsCached n ms d.1 h.1)

    pub push-IsCoherent :
        (n : Notification)
        → All (λ (m : Notification). str_eq n.id m.id ≡ false) docs
        → IsCoherent (n ∷ docs) (push_notification redis n 199 cache)
    push-IsCoherent n fresh =
        let fewer = take-take 199 v.count docs in
        record {
          count = suc (min 199 v.count);
          bounded = omega arith;
          window =
              ids-push redis n 199 cache
              ∙ ap (λ is. n.id ∷ is)
                  (ap (take 199) v.window
                    ∙ (sym (map-take (λ (m : Notification). m.id) 199 (take v.count docs))
                        ∙ ap ids_of fewer));
          cached = (
            ap parsed (hash-push redis n 199 cache n.id) ∙ rw (eq_refl n.id) refl,
            pushed-IsCached n (take (min 199 v.count) docs)
                (All-take (λ (m : Notification). str_eq n.id m.id ≡ false) (min 199 v.count) docs
                  fresh)
                (subst (All (IsCached redis cache)) fewer
                  (All-take (IsCached redis cache) 199 (take v.count docs) v.cached)),
          );
          distinct = (fresh, v.distinct);
        }

    pub backfill-IsCoherent :
        IsCoherent docs (backfill_notifications redis (take 200 docs) 199 cache)
    backfill-IsCoherent = record {
      count = 200;
      bounded = omega arith;
      window =
          ids-backfill redis (take 200 docs) 199 cache
          ∙ (sym (map-take (λ (m : Notification). m.id) 200 (take 200 docs))
              ∙ ap ids_of (take-take 200 200 docs));
      cached =
          IsCached-backfill redis (take 200 docs) 199 cache (Distinct-take 200 docs v.distinct);
      distinct = v.distinct;
    }

  -- The update of one document.
  mark_doc-ids :
      (i : String) (k : ℕ) (ns : Docs) → ids_of (take k (mark_doc i ns)) ≡ ids_of (take k ns)
  mark_doc-ids i zero ns = refl
  mark_doc-ids i (suc k) [] = refl
  mark_doc-ids i (suc k) (n ∷ ns) = elim (Bool-cases (str_eq n.id i)) [
    | inl this ↦ rw this refl
    | inr other ↦ rw other (ap (λ is. n.id ∷ is) (mark_doc-ids i k ns))
  ]

  apart-mark_doc :
      (n : Notification) (i : String) (ns : Docs)
      → All (λ (m : Notification). str_eq n.id m.id ≡ false) ns
      → All (λ (m : Notification). str_eq n.id m.id ≡ false) (mark_doc i ns)
  apart-mark_doc n i [] h = tt
  apart-mark_doc n i (m ∷ ms) h = elim (Bool-cases (str_eq m.id i)) [
    | inl this ↦ rw this (h.0, h.1)
    | inr other ↦ rw other (h.0, apart-mark_doc n i ms h.1)
  ]

  Distinct-mark_doc : (i : String) (ns : Docs) → Distinct ns → Distinct (mark_doc i ns)
  Distinct-mark_doc i [] h = tt
  Distinct-mark_doc i (n ∷ ns) h = elim (Bool-cases (str_eq n.id i)) [
    | inl this ↦ rw this (h.0, h.1)
    | inr other ↦ rw other (apart-mark_doc n i ns h.0, Distinct-mark_doc i ns h.1)
  ]

  IsCached-others :
      (i : String) (db : Db) (ns : Docs)
      → All (λ (m : Notification). str_eq i m.id ≡ false) ns
      → All (IsCached redis db) ns
      → All (IsCached redis (h_set_read i db)) ns
  IsCached-others i db [] d h = tt
  IsCached-others i db (n ∷ ns) d h =
      (IsCached-h_set_read redis i n db h.0 d.0, IsCached-others i db ns d.1 h.1)

  IsCached-mark_doc :
      (i : String) (db : Db) (k : ℕ) (ns : Docs)
      → Distinct ns
      → All (IsCached redis db) (take k ns)
      → All (IsCached redis (h_set_read i db)) (take k (mark_doc i ns))
  IsCached-mark_doc i db zero ns d h = tt
  IsCached-mark_doc i db (suc k) [] d h = tt
  IsCached-mark_doc i db (suc k) (n ∷ ns) d h = elim (Bool-cases (str_eq n.id i)) [
    | inl this ↦
        let e = (eq_iff n.id i).0 this in
        rw this (
          subst (λ j. All (IsCached redis (h_set_read j db)) (read n ∷ take k ns)) e
            (
              marked redis n db h.0,
              IsCached-others n.id db (take k ns)
                  (All-take (λ (m : Notification). str_eq n.id m.id ≡ false) k ns d.0) h.1,
            ))
    | inr other ↦ rw other (
      IsCached-h_set_read redis i n db h.0 (ground (arith, other, eq_iff n.id i, eq_iff i n.id)),
      IsCached-mark_doc i db k ns d.1 h.1,
    )
  ]

  pub mark_doc-IsCoherent :
      (i : String) (docs : Docs) (cache : Db)
      → IsCoherent docs cache
      → IsCoherent (mark_doc i docs) (h_set_read i cache)
  mark_doc-IsCoherent i docs cache v = record {
    count = v.count;
    bounded = v.bounded;
    window = redis.ids-h_set_read i cache ∙ (v.window ∙ sym (mark_doc-ids i v.count docs));
    cached = IsCached-mark_doc i cache v.count docs v.distinct v.cached;
    distinct = Distinct-mark_doc i docs v.distinct;
  }
