-- ===== src/TrendingTags/Tests.antt =====
-- A query that finds tags in a wider window only.
use image_app.Common.{◌≡◌, refl, none, some, List, [], ◌∷◌, ◌==◌, if◌then◌else◌}
use image_app.Errors.{ok}
use image_app.TrendingTags.{TrendingTag, query_key, Write, Answers, execute}

abbrev sea : List TrendingTag
sea = record { tag = "sea"; count = 3 } ∷ []

abbrev answers : Answers
answers = record {
  cached = ok none;
  trending = λ w. ok (if w == 720 then sea else []);
  historical = ok none;
  metrics =
      ok (some (record { recent_window_start = 0; recent_usage_count = 3; last_updated = 0 }));
  writes = ok tt;
}

abbrev stored : List Write
stored = record { key = query_key 5 168; tags = sea; ttl = 86400 } ∷ []

found : execute none none answers 1000 ≡ (ok sea, stored)
unfolding execute
found = refl
