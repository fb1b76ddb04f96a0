-- ===== src/Quotas/Day.antt =====
-- The jobs of a user and day under the reservations of src/dubbing_pipeline/security/quotas.py: a
-- reservation is taken before jobs are made, and released after that, or unused where they are not made.
use dubbing_pipeline.Base.{ℕ, ◌+◌, ◌-◌, ◌≤◌, ◌≡◌, List, [], ◌∷◌, Text, ltb, leb, if◌then◌else◌}
use dubbing_pipeline.Quotas.Local.{Reserved, amount_at, reserve_daily, release_daily}

-- The reservations; how many jobs were made for the user on the day; how many of those the store does not
-- count any more, since they were deleted or are not among the 2000 newest jobs that it lists; and, of what
-- is reserved, how many jobs are still to be made, and how many are made and not released yet.
pub record Books : Type 0 where
  pub reserved : Reserved
  pub made : ℕ
  pub lost : ℕ
  pub to_make : ℕ
  pub to_release : ℕ

pub data Event : Type 0 where
  reserve : ℕ → Event
  make : Event
  lose : Event
  release : ℕ → Event
  abandon : ℕ → Event

-- What each event makes of the books, under a cap for one key; an event that cannot be is left out.
unfoldable pub enter : ℕ → Text → Books → Event → Books
enter cap key b (reserve n) =
    let r = reserve_daily b.reserved key (b.made - b.lost) n cap in
    if r.0.0 then record b { reserved = r.1; to_make = b.to_make + n } else b
enter cap key b make =
    if ltb 0 b.to_make
    then record b { made = b.made + 1; to_make = b.to_make - 1; to_release = b.to_release + 1 }
    else b
enter cap key b lose = if ltb b.lost b.made then record b { lost = b.lost + 1 } else b
enter cap key b (release n) =
    if leb n b.to_release
    then record b { reserved = release_daily b.reserved key n; to_release = b.to_release - n }
    else b
enter cap key b (abandon n) =
    if leb n b.to_make
    then record b { reserved = release_daily b.reserved key n; to_make = b.to_make - n }
    else b

unfoldable pub enter_all : ℕ → Text → Books → List Event → Books
enter_all cap key b [] = b
enter_all cap key b (e ∷ es) = enter_all cap key (enter cap key b e) es

pub record IsSound (cap : ℕ) (key : Text) (b : Books) : Type 0 where
  pub within : b.made + b.to_make ≤ cap + b.lost
  pub balanced : amount_at b.reserved.daily key ≡ b.to_make + b.to_release
