-- ===== src/TrendingTags.antt =====
-- Trending tags: `GetTrendingTagsQueryHandler` of
-- backend/src/application/queries/tags/getTrendingTags/getTrendingTags.handler.ts, with the settings
-- of backend/src/config/cacheConfig.ts. What Redis and the repository answer are arguments; the
-- handler is modelled as its result and its writes to the cache. Rates are compared exactly.
pub mod Ttl
pub mod Laws
mod Tests
use mathlib.Core.Option
use image_app.Common.{
  ℕ, ◌+◌, ◌-◌, ◌*◌, min, max, String, Bool, true, false, not, ◌&&◌, Option, none, some, List, [],
  ◌∷◌, ◌++◌, ltb, leb, if◌then◌else◌,
}
use image_app.Errors.{Thrown, app, wrap_error, internal_server_error, no_options, Result, ok, err}
use image_app.Exec.{Exec, pure, throw, lift, modify, ◌>>=◌, ◌>>◌}

pub record TrendingTag : Type 0 where
  pub tag : String
  pub count : ℕ

-- `TagActivityMetrics`: two times in milliseconds, and the uses since the first.
pub record Metrics : Type 0 where
  pub recent_window_start : ℕ
  pub recent_usage_count : ℕ
  pub last_updated : ℕ

pub data Key : Type 0 where
  query_key : ℕ → ℕ → Key
  historical_key : Key

-- A write to the cache: the key, the tags, and the time to live in seconds.
pub record Write : Type 0 where
  pub key : Key
  pub tags : List TrendingTag
  pub ttl : ℕ

-- What the reads of one query answer: the cache, the repository for a window in hours, and whether
-- a write succeeds.
pub record Answers : Type 0 where
  pub cached : Result (Option (List TrendingTag))
  pub trending : ℕ → Result (List TrendingTag)
  pub historical : Result (Option (List TrendingTag))
  pub metrics : Result (Option Metrics)
  pub writes : Result (Unit {0})

-- `AdaptiveTTL.TRENDING_TAGS`
abbrev pub high_activity_ttl : ℕ
high_activity_ttl = 300

abbrev pub medium_activity_ttl : ℕ
medium_activity_ttl = 1800

abbrev pub low_activity_ttl : ℕ
low_activity_ttl = 86400

abbrev pub very_low_activity_ttl : ℕ
very_low_activity_ttl = 604800

abbrev pub dormant_ttl : ℕ
dormant_ttl = 2592000

abbrev pub historical_ttl : ℕ
historical_ttl = 3888000

-- Whether the uses per hour reach `tenths` / 10, over at least a tenth of an hour.
abbrev pub reaches : ℕ → Metrics → ℕ → Bool
reaches tenths m now =
    leb (tenths * max 360000 (now - m.recent_window_start)) (m.recent_usage_count * 36000000)

-- The time to live by `ActivityThresholds.TAGS`, once the metrics are read.
unfoldable pub ttl_of_metrics : Metrics → ℕ → ℕ
ttl_of_metrics m now =
    if ltb (24 * 3600000) (now - m.last_updated)
    then dormant_ttl
    else if reaches 100 m now
    then high_activity_ttl
    else if reaches 20 m now
    then medium_activity_ttl
    else if reaches 5 m now
    then low_activity_ttl
    else if reaches 1 m now
    then very_low_activity_ttl
    else dormant_ttl

unfoldable pub calculate_dynamic_ttl : Bool → Result (Option Metrics) → ℕ → ℕ
unfolding ttl_of_metrics
calculate_dynamic_ttl true metrics now = low_activity_ttl
calculate_dynamic_ttl false (ok (some m)) now = ttl_of_metrics m now
calculate_dynamic_ttl false _ now = medium_activity_ttl

abbrev pub is_empty : List TrendingTag → Bool
is_empty [] = true
is_empty (t ∷ ts) = false

-- The tags of one window, with what is said of it, or, if there are none, what comes after it.
or_else :
    Bool
    → Result (List TrendingTag)
    → Result (List TrendingTag × Bool)
    → Result (List TrendingTag × Bool)
or_else used (err e) rest = err e
or_else used (ok tags) rest = if is_empty tags then rest else ok (tags, used)

-- The wider windows, one after the other, until there are tags; and whether there are.
unfoldable pub extended : List ℕ → Answers → Result (List TrendingTag × Bool)
unfolding or_else
extended [] a = ok ([], false)
extended (window ∷ windows) a = or_else true (a.trending window) (extended windows a)

abbrev pub extended_windows : List ℕ
extended_windows = 336 ∷ 720 ∷ 2160 ∷ 4320 ∷ []

-- The tags, and whether a wider window was used.
unfoldable pub find_tags : ℕ → Answers → Result (List TrendingTag × Bool)
unfolding extended or_else
find_tags hours a = or_else false (a.trending hours) (extended extended_windows a)

abbrev pub write : Answers → Write → Exec (List Write) (Unit {0})
write a w = do lift a.writes; modify (λ ws. ws ++ w ∷ [])

-- Tags that were found, fresh or from a wider window, and an empty result.
store_result : Key → Answers → ℕ → List TrendingTag → Bool → Exec (List Write) (List TrendingTag)
unfolding calculate_dynamic_ttl
store_result key a now tags used_extended = do
  write a
      (record { key = key; tags = tags; ttl = calculate_dynamic_ttl used_extended a.metrics now })
  (if not (is_empty tags) && not used_extended
      then write a (record { key = historical_key; tags = tags; ttl = historical_ttl })
      else pure tt)
  pure tags

abbrev usable : Option (List TrendingTag) → Option (List TrendingTag)
usable (some (t ∷ ts)) = some (t ∷ ts)
usable _ = none

-- Without tags, historical ones are returned, if there are any.
fall_back : Key → Answers → ℕ → Option (List TrendingTag) → Exec (List Write) (List TrendingTag)
unfolding calculate_dynamic_ttl store_result
fall_back key a now (some tags) = do
  write a (record { key = key; tags = tags; ttl = dormant_ttl })
  pure tags
fall_back key a now none = store_result key a now [] false

after_historical :
    Key → Answers → ℕ → Result (Option (List TrendingTag)) → Exec (List Write) (List TrendingTag)
unfolding fall_back
after_historical key a now (err e) = throw e
after_historical key a now (ok historical) = fall_back key a now (usable historical)

from_database : Key → Answers → ℕ → List TrendingTag × Bool → Exec (List Write) (List TrendingTag)
unfolding after_historical calculate_dynamic_ttl store_result
from_database key a now (tags, used_extended) =
    if is_empty tags
    then after_historical key a now a.historical
    else store_result key a now tags used_extended

from_cache :
    ℕ → ℕ → Answers → ℕ → Result (Option (List TrendingTag)) → Exec (List Write) (List TrendingTag)
unfolding find_tags from_database
from_cache limit hours a now (err e) = throw e
from_cache limit hours a now (ok (some tags)) = pure tags
from_cache limit hours a now (ok none) = do
  found ← lift (find_tags hours a)
  from_database (query_key limit hours) a now found

abbrev pub limit_of : Option ℕ → ℕ
limit_of limit = min (max (Option.get_or limit 5) 1) 20

abbrev pub hours_of : Option ℕ → ℕ
hours_of hours = max 1 (Option.get_or hours 168)

-- The body of `execute`, up to its `catch`.
unfoldable pub query : Option ℕ → Option ℕ → Answers → ℕ → Exec (List Write) (List TrendingTag)
unfolding from_cache
query limit hours a now = from_cache (limit_of limit) (hours_of hours) a now a.cached

abbrev wrapped : Result (List TrendingTag) × List Write → Result (List TrendingTag) × List Write
wrapped (ok tags, ws) = (ok tags, ws)
wrapped (err e, ws) = (err (app (wrap_error e internal_server_error no_options)), ws)

unfoldable pub execute : Option ℕ → Option ℕ → Answers → ℕ → Result (List TrendingTag) × List Write
unfolding query
execute limit hours a now = wrapped (query limit hours a now [])
