-- ===== src/RateLimit/Examples.antt =====
-- Two requests in ten seconds.
use dubbing_pipeline.Base.{
  ℕ, ◌+◌, ◌*◌, ◌≤◌, ◌≡◌, refl, arith, List, [], ◌∷◌, none, Text, codes, text_eq, get, put,
}
use dubbing_pipeline.RateLimit.{Bucket, token, allow, allowed, ask_bucket}
use dubbing_pipeline.RateLimit.Bounds.{Rising, last, allowed_bound}

abbrev client : Text
client = codes "auth:ip:10.0.0.1"

-- The third request comes too soon, and the fourth when a token is there again.
two_in_ten : allowed 2 10 [] client (1000 ∷ 2000 ∷ 3000 ∷ 6000 ∷ []) ≡ 3
unfolding allowed allow ask_bucket get put text_eq
two_in_ten = refl

abbrev times : List ℕ
times = 2000 ∷ 3000 ∷ 6000 ∷ []

times-Rising : Rising 1000 times
times-Rising = (omega arith, (omega arith, (omega arith, tt)))

unseen : get {V = Bucket} [] client ≡ none
unfolding get
unseen = refl

allowed_bound_example :
    allowed 2 10 [] client (1000 ∷ times) * token 2 10 + 1000 * 2
    ≤ 2 * token 2 10 + last 1000 times * 2
allowed_bound_example = allowed_bound 2 10 [] client 1000 times unseen times-Rising

abbrev burst : List ℕ
burst = 1000 ∷ 1001 ∷ []
