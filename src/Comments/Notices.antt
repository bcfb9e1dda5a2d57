-- ===== src/Comments/Notices.antt =====
-- Who is notified of a comment.
use image_app.Common.{ℕ, ◌+◌, String, List, [], ◌∷◌, str_eq}
use image_app.Common.Pairs.{one_if}
use image_app.Comments.{User, Event, notification, interacted}

-- How many notifications somebody gets.
abbrev pub received : String → List Event → ℕ
received r [] = 0
received r (notification p kind actor target preview ∷ es) = one_if (str_eq p r) + received r es
received r (interacted actor kind post tags owner ∷ es) = received r es

-- How many users of a list have a public id.
abbrev pub times_in : String → List User → ℕ
times_in r [] = 0
times_in r (u ∷ us) = one_if (str_eq u.public_id r) + times_in r us
