-- ===== src/RateLimit/Bounds.antt =====
-- How many requests the limiter of src/dubbing_pipeline/utils/ratelimit.py lets through.
use native.Mathlib.Nat.{mul-le-mul_right, suc-mul}
use dubbing_pipeline.Base.{
  ℕ, ℤ, pos, negsuc, suc, ◌+◌, ◌-◌, ◌*◌, ◌≤◌, ◌≡◌, refl, arith, min, true, List, [], ◌∷◌, none,
  some, Text, Dict, get, put, get-put_self, ltb, le→leb, not_ltb, Bool-cases, inl, inr,
  if◌then◌else◌, length,
}
use dubbing_pipeline.RateLimit.{Bucket, token, full, take_token, ask_bucket, allow, allowed}

-- The times do not go back, from `start` on.
abbrev pub Rising : ℕ → List ℕ → Type 0
Rising start [] = Unit
Rising start (t ∷ times) = (start ≤ t) × Rising t times

abbrev pub last : ℕ → List ℕ → ℕ
last start [] = start
last start (t ∷ times) = last t times

-- One bucket, without the dictionary.
module _ (limit per_seconds : ℕ) where
  granted : Bucket → List ℕ → ℕ
  granted b [] = 0
  granted b (now ∷ later) =
      let rest = granted (ask_bucket limit per_seconds now b).1 later in
      if (ask_bucket limit per_seconds now b).0 then suc rest else rest

  allowed-granted :
      (mem : Dict Bucket) (key : Text) (b : Bucket) (times : List ℕ)
      → get mem key ≡ some b
      → allowed limit per_seconds mem key times ≡ granted b times
  unfolding allowed allow granted
  allowed-granted mem key b [] h = refl
  allowed-granted mem key b (now ∷ later) h =
      let b' = (ask_bucket limit per_seconds now b).1 in
      rw (h, allowed-granted (put mem key b') key b' later (get-put_self mem key b')) refl

  -- The parts in a bucket.
  held : ℤ → ℕ
  held (pos n) = n
  held (negsuc k) = 0

  -- What a request does to a bucket that is not overdrawn.
  one_request :
      (b : Bucket) (n now : ℕ)
      → b.tokens ≡ pos n
      → b.updated_at * limit ≤ now * limit
      → let r = ask_bucket limit per_seconds now b in
        (m : ℕ) × (r.1.tokens ≡ pos m)
        × (r.1.updated_at ≡ now)
        × ((if r.0 then token limit per_seconds else 0) + m + b.updated_at * limit
            ≤ n + now * limit)
  unfolding ask_bucket
  one_request b n now h l =
      rw (h, le→leb (b.updated_at * limit) (n + now * limit) (omega (arith, l)))
        (taken (min (limit * token limit per_seconds) (n + now * limit - b.updated_at * limit))
          (omega (arith, l)))
    where
      taken :
          (k : ℕ)
          → k + b.updated_at * limit ≤ n + now * limit
          → let r =
              take_token limit per_seconds (record { tokens = pos k; updated_at = now }) (pos k) in
            (m : ℕ) × (r.1.tokens ≡ pos m)
            × (r.1.updated_at ≡ now)
            × ((if r.0 then token limit per_seconds else 0) + m + b.updated_at * limit
                ≤ n + now * limit)
      taken k l = elim (Bool-cases (ltb k (token limit per_seconds))) [
        | inl c ↦ rw c (k, refl, refl, omega (arith, l))
        | inr c ↦ rw c (k - token limit per_seconds, refl, refl, ground (arith, c, l))
      ]

  granted_bound :
      (b : Bucket) (n : ℕ) (times : List ℕ)
      → b.tokens ≡ pos n
      → Rising b.updated_at times
      → granted b times * token limit per_seconds + b.updated_at * limit
        ≤ n + last b.updated_at times * limit
  unfolding granted
  granted_bound b n [] h r = omega arith
  granted_bound b n (now ∷ later) h r =
      let (m, e, u, l) = one_request b n now h (mul-le-mul_right limit r.0) in
      let b' = (ask_bucket limit per_seconds now b).1 in
      let rest = granted_bound b' m later e (rw u r.1) in
      let rest' = (rw u at rest) in
      elim (Bool-cases (ask_bucket limit per_seconds now b).0) [
        | inl c ↦
            let l' = (rw c at l) in
            rw (c, suc-mul (granted b' later) (token limit per_seconds)) (omega (arith, l', rest'))
        | inr c ↦ let l' = (rw c at l) in rw c (omega (arith, l', rest'))
      ]

  allowed-granted_new :
      (mem : Dict Bucket) (key : Text) (start : ℕ) (times : List ℕ)
      → get mem key ≡ none
      → allowed limit per_seconds mem key (start ∷ times)
        ≡ granted (full limit per_seconds start) (start ∷ times)
  unfolding allowed allow granted
  allowed-granted_new mem key start times h =
      let b' = (ask_bucket limit per_seconds start (full limit per_seconds start)).1 in
      rw (h, allowed-granted (put mem key b') key b' times (get-put_self mem key b')) refl

  -- Requests of one key, which was not seen before, at times that do not go back: the tokens that they
  -- take are at most those of a full bucket and those refilled from the first request to the last.
  pub allowed_bound :
      (mem : Dict Bucket) (key : Text) (start : ℕ) (times : List ℕ)
      → get mem key ≡ none
      → Rising start times
      → allowed limit per_seconds mem key (start ∷ times) * token limit per_seconds + start * limit
        ≤ limit * token limit per_seconds + last start times * limit
  allowed_bound mem key start times h r = rw (allowed-granted_new mem key start times h) (
      granted_bound (full limit per_seconds start) (limit * token limit per_seconds) (start ∷ times)
        refl (omega arith, r))

  let_through :
      (b : Bucket) (n now j : ℕ)
      → b.tokens ≡ pos n
      → n ≤ limit * token limit per_seconds
      → j * token limit per_seconds + token limit per_seconds ≤ n
      → b.updated_at * limit ≤ now * limit
      → let r = ask_bucket limit per_seconds now b in
        (m : ℕ) × (r.1.tokens ≡ pos m)
        × (r.1.updated_at ≡ now)
        × (r.0 ≡ true)
        × (m ≤ limit * token limit per_seconds)
        × (j * token limit per_seconds ≤ m)
  unfolding ask_bucket
  let_through b n now j h c l u =
      let k = min (limit * token limit per_seconds) (n + now * limit - b.updated_at * limit) in
      rw
        (
          h,
          le→leb (b.updated_at * limit) (n + now * limit) (omega (arith, u)),
          not_ltb k (token limit per_seconds) (omega (arith, c, l, u)),
        )
        (k - token limit per_seconds, refl, refl, refl, omega arith, omega (arith, c, l, u))

  granted_all :
      (b : Bucket) (n : ℕ) (times : List ℕ)
      → b.tokens ≡ pos n
      → n ≤ limit * token limit per_seconds
      → length times * token limit per_seconds ≤ n
      → Rising b.updated_at times
      → granted b times ≡ length times
  unfolding granted
  granted_all b n [] h c l r = refl
  granted_all b n (now ∷ later) h c l r =
      let (m, e, u, g, k, d) =
        let_through b n now (length later) h c
          (rw (suc-mul (length later) (token limit per_seconds)) at l)
          (mul-le-mul_right limit r.0) in
      rw (g, granted_all (ask_bucket limit per_seconds now b).1 m later e k d (rw u r.1)) refl

  -- A key that was not seen before has its burst: its first requests, as many as the limit, are all let
  -- through, at whatever times they come that do not go back.
  pub allowed_burst :
      (mem : Dict Bucket) (key : Text) (start : ℕ) (times : List ℕ)
      → get mem key ≡ none
      → length (start ∷ times) ≤ limit
      → Rising start times
      → allowed limit per_seconds mem key (start ∷ times) ≡ length (start ∷ times)
  allowed_burst mem key start times h l r = rw (allowed-granted_new mem key start times h) (
      granted_all (full limit per_seconds start) (limit * token limit per_seconds) (start ∷ times)
        refl (omega arith) (mul-le-mul_right (token limit per_seconds) l) (omega arith, r))
