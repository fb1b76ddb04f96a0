-- ===== src/Quotas/Local.antt =====
-- The reservations that src/dubbing_pipeline/security/quotas.py keeps in the process.
use dubbing_pipeline.Base.{
  ℕ, ◌+◌, ◌-◌, ◌≡◌, refl, arith, Bool, true, false, ◌&&◌, Option, none, some, Text, Dict, get, put,
  pop, get-put, get-pop, ltb, ◌==◌, if◌then◌else◌, text_eq, text_eq_iff, count_if, ◌++◌, Bool-cases,
  inl, inr,
}
use dubbing_pipeline.Jobs.Store.{JobStore, list_jobs}

-- `_LOCAL_DAILY_RESERVATIONS` and `_LOCAL_PENDING_STORAGE`. The key of the former, a day of eight digits
-- and a user, is the text of both.
pub record Reserved : Type 0 where
  pub daily : Dict ℕ
  pub pending : Dict ℕ

abbrev pub amount : Option ℕ → ℕ
amount none = 0
amount (some n) = n

-- d.get(key, 0)
unfoldable pub amount_at : Dict ℕ → Text → ℕ
amount_at d key = amount (get d key)

-- The release of `n` from an entry, which goes when it comes to 0.
unfoldable pub lessened : Dict ℕ → Text → ℕ → Option ℕ → Dict ℕ
lessened d key n none = d
lessened d key n (some cur) = if cur - n == 0 then pop d key else put d key (cur - n)

unfoldable pub lessen : Dict ℕ → Text → ℕ → Dict ℕ
unfolding lessened
lessen d key n = lessened d key n (get d key)

abbrev pub day_key : Text → Text → Text
day_key day user = day ++ user

unfoldable pub jobs_of_day : (Text → Bool) → JobStore → Text → ℕ
jobs_of_day is_today store user =
    count_if (λ j. text_eq j.owner_id user && is_today j.created_at) (list_jobs store 2000)

-- `_reserve_daily_local`, given the number of the user's jobs of the day
unfoldable pub reserve_daily : Reserved → Text → ℕ → ℕ → ℕ → (Bool × ℕ) × Reserved
unfolding amount_at
reserve_daily q key today count limit =
    let reserved = amount_at q.daily key in
    if limit == 0
    then ((true, 0), q)
    else if ltb limit (today + reserved + count)
    then ((false, today + reserved), q)
    else ((true, today + reserved + count), record q { daily = put q.daily key (reserved + count) })

-- `_release_daily_local`
unfoldable pub release_daily : Reserved → Text → ℕ → Reserved
unfolding lessen
release_daily q key count = record q { daily = lessen q.daily key count }

-- `check_storage_bytes` and `reserve_storage_bytes`, for the bytes that the store counts as used
unfoldable pub reserve_storage : Reserved → Text → ℕ → ℕ → ℕ → Bool × Reserved
unfolding amount_at
reserve_storage q user used bytes_count max_storage =
    let pending = amount_at q.pending user in
    if bytes_count == 0
    then (true, q)
    else if ltb 0 max_storage && ltb max_storage (used + pending + bytes_count)
    then (false, q)
    else (true, record q { pending = put q.pending user (pending + bytes_count) })

-- `_release_storage_bytes`
unfoldable pub release_storage : Reserved → Text → ℕ → Reserved
unfolding lessen
release_storage q user bytes_count =
    if bytes_count == 0 then q else record q { pending = lessen q.pending user bytes_count }

-- What is reserved after a release.
pub amount_at-lessen :
    (d : Dict ℕ) (key k : Text) (n : ℕ)
    → amount_at (lessen d key n) k ≡ (if text_eq key k then amount_at d k - n else amount_at d k)
unfolding lessen amount_at
amount_at-lessen d key k n = by_entry (get d key) refl
  where
    by_entry :
        (o : Option ℕ)
        → get d key ≡ o
        → amount (get (lessened d key n o) k)
          ≡ (if text_eq key k then amount (get d k) - n else amount (get d k))
    by_entry none e = ground (arith, text_eq_iff key k)
    by_entry (some cur) e =
        ground (arith, text_eq_iff key k, get-put d key k (cur - n), get-pop d key k)

pub amount_at-put :
    (d : Dict ℕ) (key k : Text) (n : ℕ)
    → amount_at (put d key n) k ≡ (if text_eq key k then n else amount_at d k)
unfolding amount_at
amount_at-put d key k n =
    rw (get-put d key k n)
      (elim (Bool-cases (text_eq key k)) [ inl e ↦ rw e refl | inr e ↦ rw e refl ])
