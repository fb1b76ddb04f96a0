-- ===== src/RateLimit.antt =====
-- The token bucket of src/dubbing_pipeline/utils/ratelimit.py, as `RateLimiter.allow` keeps it in the
-- process. Times are in milliseconds, and a token is divided into as many parts as the period has
-- milliseconds, so that a millisecond refills `limit` parts: the sums are then exact. A key always
-- comes with the same limit and period, which are the parameters of the section; the
-- period is not 0, by which the source divides.
pub mod Bounds
mod Examples
use dubbing_pipeline.Base.{
  ℕ, ℤ, pos, negsuc, suc, ◌+◌, ◌-◌, ◌*◌, min, Bool, true, false, List, [], ◌∷◌, Option, none, some,
  Text, Dict, get, put, leb, ltb, if◌then◌else◌,
}

pub record Bucket : Type 0 where
  pub tokens : ℤ
  pub updated_at : ℕ

-- `a - b`
abbrev pub difference : ℕ → ℕ → ℤ
difference a b = if leb b a then pos (a - b) else negsuc (b - a - 1)

-- `t + up - down`, which is negative where the clock was put back
abbrev pub moved : ℤ → ℕ → ℕ → ℤ
moved (pos n) up down = difference (n + up) down
moved (negsuc k) up down = difference up (down + (k + 1))

abbrev pub at_most : ℕ → ℤ → ℤ
at_most cap (pos n) = pos (min cap n)
at_most cap (negsuc k) = negsuc k

module _ (limit per_seconds : ℕ) where
  -- The parts of one token.
  abbrev pub token : ℕ
  token = per_seconds * 1000

  abbrev pub full : ℕ → Bucket
  full now = record { tokens = pos (limit * token); updated_at = now }

  abbrev pub refilled : ℕ → Bucket → Bucket
  refilled now b = record {
    tokens = at_most (limit * token) (moved b.tokens (now * limit) (b.updated_at * limit));
    updated_at = now;
  }

  abbrev pub take_token : Bucket → ℤ → Bool × Bucket
  take_token b (negsuc k) = (false, b)
  take_token b (pos n) =
      if ltb n token then (false, b) else (true, record b { tokens = pos (n - token) })

  -- A request at a bucket.
  unfoldable pub ask_bucket : ℕ → Bucket → Bool × Bucket
  ask_bucket now b = let r = refilled now b in take_token r r.tokens

  abbrev pub bucket_of : ℕ → Option Bucket → Bucket
  bucket_of now none = full now
  bucket_of now (some b) = b

  -- `allow` without Redis
  unfoldable pub allow : Dict Bucket → Text → ℕ → Bool × Dict Bucket
  allow mem key now = let r = ask_bucket now (bucket_of now (get mem key)) in (r.0, put mem key r.1)

  -- How many of the requests of one key at the given times are let through.
  unfoldable pub allowed : Dict Bucket → Text → List ℕ → ℕ
  allowed mem key [] = 0
  allowed mem key (now ∷ later) =
      let rest = allowed (allow mem key now).1 key later in
      if (allow mem key now).0 then suc rest else rest
