-- ===== src/TrendingTags/Laws.antt =====
-- What a query returns and writes.
use image_app.Common.{
  ◌⊎◌, ℕ, ◌≤◌, ◌≡◌, refl, sym, ap, ◌∙◌, Bool, true, false, Option, none, some, List, [], ◌∷◌, All,
  arith, Bool-cases, inl, inr, if◌then◌else◌,
}
use image_app.Errors.{Result, ok, err, Result-cases}
use image_app.TrendingTags.{
  TrendingTag, wrapped, query_key, historical_key, Write, Answers, calculate_dynamic_ttl, is_empty,
  extended, extended_windows, or_else, find_tags, query, execute, limit_of, hours_of, store_result,
  usable, after_historical, fall_back, from_database, from_cache,
}
use image_app.TrendingTags.Ttl.{calculate_dynamic_ttl_lem}

-- What a write of a query with the result `tags` may be: the result itself, for 5 minutes to 45 days;
-- and as historical tags only if `answer`, what the repository gave for the window that was asked for, is it, and is not empty.
pub record IsGoodWrite (answer : Result (List TrendingTag)) (tags : List TrendingTag) (w : Write)
    : Type 0 where
  pub same : w.tags ≡ tags
  pub at_least : 300 ≤ w.ttl
  pub at_most : w.ttl ≤ 3888000
  pub fresh : w.key ≡ historical_key → (answer ≡ ok tags) × (is_empty tags ≡ false)

tags_or : List TrendingTag → Result (List TrendingTag) → List TrendingTag
tags_or d (ok tags) = tags
tags_or d (err e) = d

module _ (limit hours : ℕ) (a : Answers) (now : ℕ) where
  -- The writes of a run that succeeds are good.
  abbrev IsGood : Result (List TrendingTag) × List Write → Type 0
  IsGood r =
      (tags : List TrendingTag) → r.0 ≡ ok tags → All (IsGoodWrite (a.trending hours) tags) r.1

  IsGood-if :
      (b : Bool) (m n : List Write → Result (List TrendingTag) × List Write)
      → IsGood (m [])
      → IsGood (n [])
      → IsGood ((if b then m else n) [])
  IsGood-if true m n hm hn = hm
  IsGood-if false m n hm hn = hn

  wrapped-IsGood : (r : Result (List TrendingTag) × List Write) → IsGood r → IsGood (wrapped r)
  wrapped-IsGood (ok tags, ws) h rtags x = h rtags x
  wrapped-IsGood (err e, ws) h rtags x = cc x

  good_query :
      (tags : List TrendingTag) (t : ℕ)
      → 300 ≤ t
      → t ≤ 3888000
      → IsGoodWrite
          (a.trending hours)
          tags
          (record { key = query_key limit hours; tags = tags; ttl = t })
  good_query tags t low high = record {
    same = refl;
    at_least = low;
    at_most = high;
    fresh = λ k. cc k;
  }

  good_ttl :
      (used : Bool)
      → (300 ≤ calculate_dynamic_ttl used a.metrics now)
        × (calculate_dynamic_ttl used a.metrics now ≤ 3888000)
  good_ttl used =
      let r = calculate_dynamic_ttl_lem used a.metrics 0 0 0 0 now (omega arith) in
      (r.0, omega (arith, r.1))

  store_result-IsGood :
      (tags : List TrendingTag) (used : Bool)
      → (used ≡ false → is_empty tags ≡ false → a.trending hours ≡ ok tags)
      → IsGood (store_result (query_key limit hours) a now tags used [])
  unfolding tags_or store_result
  store_result-IsGood tags used origin rtags h = elim (Result-cases a.writes) [
    | inr (e, w) ↦ cc (rw w at h)
    | inl (u, w) ↦ elim (Bool-cases (is_empty tags)) [
      | inl empty ↦
          rw (w, empty, sym (ap (λ r. tags_or tags r) (rw (w, empty) at h)))
            (good_query tags _ (good_ttl used).0 (good_ttl used).1, tt)
      | inr full ↦ elim (Bool-cases used) [
        | inl wide ↦
            rw (w, full, wide, sym (ap (λ r. tags_or tags r) (rw (w, full, wide) at h)))
              (good_query tags _ (good_ttl true).0 (good_ttl true).1, tt)
        | inr fresh ↦
            rw (w, full, fresh, sym (ap (λ r. tags_or tags r) (rw (w, full, fresh) at h)))
              (
                good_query tags _ (good_ttl false).0 (good_ttl false).1,
                (
                  record {
                    same = refl;
                    at_least = omega arith;
                    at_most = omega arith;
                    fresh = λ k. (origin fresh full, full);
                  },
                  tt,
                ),
              )
      ]
    ]
  ]

  fall_back-IsGood :
      (found : Option (List TrendingTag))
      → IsGood (fall_back (query_key limit hours) a now found [])
  unfolding fall_back tags_or
  fall_back-IsGood none rtags h = store_result-IsGood [] false (λ u e. cc e) rtags h
  fall_back-IsGood (some tags) rtags h = elim (Result-cases a.writes) [
    | inr (e, w) ↦ cc (rw w at h)
    | inl (u, w) ↦
        rw (w, sym (ap (λ r. tags_or tags r) (rw w at h)))
          (good_query tags _ (omega arith) (omega arith), tt)
  ]

  after_historical-IsGood :
      (old : Result (Option (List TrendingTag)))
      → IsGood (after_historical (query_key limit hours) a now old [])
  unfolding after_historical
  after_historical-IsGood (err e) rtags h = cc
  after_historical-IsGood (ok old) rtags h = fall_back-IsGood (usable old) rtags h

  from_database-IsGood :
      (found : List TrendingTag × Bool)
      → (found.1 ≡ false → is_empty found.0 ≡ false → a.trending hours ≡ ok found.0)
      → IsGood (from_database (query_key limit hours) a now found [])
  unfolding from_database
  from_database-IsGood (tags, used) origin =
      IsGood-if (is_empty tags) (after_historical (query_key limit hours) a now a.historical)
        (store_result (query_key limit hours) a now tags used)
        (after_historical-IsGood a.historical) (store_result-IsGood tags used origin)

  or_else-origin :
      (used u : Bool) (answer : Result (List TrendingTag)) (rest : Result (List TrendingTag × Bool))
      (tags : List TrendingTag)
      → or_else used answer rest ≡ ok (tags, u)
      → ((answer ≡ ok tags) × (u ≡ used)) ⊎ (rest ≡ ok (tags, u))
  unfolding or_else
  or_else-origin used u (err e) rest tags h = cc h
  or_else-origin used u (ok ts) rest tags h = elim (Bool-cases (is_empty ts)) [
    | inl empty ↦ inr (rw empty at h)
    | inr full ↦ inl (ground (arith, rw full at h), ground (arith, rw full at h))
  ]

  extended-origin :
      (windows : List ℕ) (tags : List TrendingTag)
      → extended windows a ≡ ok (tags, false)
      → is_empty tags ≡ true
  unfolding extended
  extended-origin [] tags h = ground arith
  extended-origin (w ∷ ws) tags h =
      elim (or_else-origin true false (a.trending w) (extended ws a) tags h) [
        | inl (t, wide) ↦ cc wide
        | inr later ↦ extended-origin ws tags later
      ]

  find_tags-origin :
      (tags : List TrendingTag)
      → find_tags hours a ≡ ok (tags, false)
      → is_empty tags ≡ false
      → a.trending hours ≡ ok tags
  unfolding find_tags
  find_tags-origin tags h full =
      elim (or_else-origin false false (a.trending hours) (extended extended_windows a) tags h) [
        | inl (t, narrow) ↦ t
        | inr later ↦ cc (sym full ∙ extended-origin extended_windows tags later)
      ]

  from_cache-IsGood :
      (cached : Result (Option (List TrendingTag)))
      → IsGood (from_cache limit hours a now cached [])
  unfolding from_cache
  from_cache-IsGood (err e) rtags h = cc
  from_cache-IsGood (ok (some tags)) rtags h = tt
  from_cache-IsGood (ok none) rtags h = elim (Result-cases (find_tags hours a)) [
    | inr (e, f) ↦ cc (rw f at h)
    | inl ((tags, used), f) ↦ rw f (
        from_database-IsGood (tags, used)
          (λ fresh. find_tags-origin tags (f ∙ ap (λ u. ok (tags, u)) fresh)) rtags (rw f at h))
  ]

-- Every write of a query that succeeds stores the tags that the query returns, for 5 minutes to 45
-- days; and it stores them as historical tags only if they are not empty, and the repository gave
-- them for the window that was asked for. When the cache has an answer, that is returned, and
-- nothing is written.
execute_writes :
    (limit hours : Option ℕ) (a : Answers) (now : ℕ) (tags : List TrendingTag)
    → (execute limit hours a now).0 ≡ ok tags
    → All (IsGoodWrite (a.trending (hours_of hours)) tags) (execute limit hours a now).1
      × ((cached : List TrendingTag)
          → a.cached ≡ ok (some cached)
          → (tags ≡ cached) × ((execute limit hours a now).1 ≡ []))
unfolding execute query tags_or from_cache
execute_writes limit hours a now tags h = (
  wrapped-IsGood (limit_of limit) (hours_of hours) a now _
      (from_cache-IsGood (limit_of limit) (hours_of hours) a now a.cached) tags h,
  λ cached c.
      let answer = ap (λ x. wrapped (from_cache (limit_of limit) (hours_of hours) a now x [])) c in
      (sym (ap (λ r. tags_or cached r) (sym (ap (λ r. r.0) answer) ∙ h)), ap (λ r. r.1) answer),
)
