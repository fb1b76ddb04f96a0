-- ===== src/Uploads/Plan.antt =====
-- How src/dubbing_pipeline/web/routes/uploads.py divides an upload into chunks.
use native.Mathlib.Nat.{div-mul-le_self, lt-div-mul-add, mul-le-mul_right, suc-mul}
use native.Mathlib.Decide.{dec_lt}
use dubbing_pipeline.Base.{
  ℕ, zero, suc, ◌+◌, ◌-◌, ◌*◌, ◌/◌, ◌≤◌, ◌<◌, ◌≡◌, refl, inl, inr, arith, true, false, List, [],
  ◌∷◌, Option, none, some, is_some, ltb, leb, ◌==◌, if◌then◌else◌, Text, Bool-cases, Option-cases,
  ==_iff,
}

-- An entry of `received`; its key, the decimal text of the index, is taken for the index.
pub record Chunk : Type 0 where
  pub offset : ℕ
  pub size : ℕ
  pub sha256 : Text

abbrev pub Received : Type 0
Received = List (ℕ × Chunk)

-- received.get(str(i))
unfoldable pub lookup : ℕ → Received → Option Chunk
lookup i [] = none
lookup i ((j, c) ∷ r) = if j == i then some c else lookup i r

-- received[str(i)] = c
unfoldable pub set : ℕ → Chunk → Received → Received
set i c [] = (i, c) ∷ []
set i c ((j, d) ∷ r) = if j == i then (j, c) ∷ r else (j, d) ∷ set i c r

-- sum(v["size"] for v in received.values())
unfoldable pub sum_sizes : Received → ℕ
sum_sizes [] = 0
sum_sizes ((i, c) ∷ r) = c.size + sum_sizes r

unfoldable pub total_chunks : ℕ → ℕ → ℕ
total_chunks total chunk = if chunk == 0 then 0 else (total + chunk - 1) / chunk

-- The indices from `i` on that are not received, of the `left` next ones.
unfoldable pub missing_from : ℕ → ℕ → Received → List ℕ
missing_from i zero received = []
missing_from i (suc left) received =
    let rest = missing_from (suc i) left received in
    if is_some (lookup i received) then rest else i ∷ rest

unfoldable pub missing_chunks : ℕ → ℕ → Received → List ℕ
unfolding missing_from
missing_chunks total chunk received = missing_from 0 (total_chunks total chunk) received

unfoldable pub expected_chunk_size : ℕ → ℕ → ℕ → ℕ
expected_chunk_size idx total chunk =
    let n = total_chunks total chunk in
    if n == 0
    then 0
    else if leb n idx
    then 0
    else if ltb idx (n - 1)
    then chunk
    else total - idx * chunk

-- The first index that is not received, or else the number of chunks.
unfoldable pub next_from : ℕ → ℕ → Received → ℕ
next_from i zero received = i
next_from i (suc left) received =
    let rest = next_from (suc i) left received in if is_some (lookup i received) then rest else i

unfoldable pub next_expected : ℕ → ℕ → Received → ℕ
unfolding next_from
next_expected total chunk received = next_from 0 (total_chunks total chunk) received

pub lookup-set :
    (i j : ℕ) (c : Chunk) (r : Received)
    → lookup j (set i c r) ≡ (if i == j then some c else lookup j r)
unfolding lookup set
lookup-set i j c [] = refl
lookup-set i j c ((k, d) ∷ r) = ground (arith, lookup-set i j c r)

-- What `missing_chunks` leaves out has been received.
missing_from-eq-nil :
    (i left k : ℕ) (received : Received)
    → missing_from i left received ≡ []
    → i ≤ k
    → k < i + left
    → (c : Chunk) × (lookup k received ≡ some c)
unfolding missing_from
missing_from-eq-nil i zero k received h l u = absurd (omega arith)
missing_from-eq-nil i (suc left) k received h l u =
    elim (Bool-cases (is_some (lookup i received))) [
      | inl e ↦ elim (Bool-cases (i == k)) [
        | inl same ↦ received_at received (rw ((==_iff i k).0 same) at e)
        | inr other ↦
            missing_from-eq-nil (suc i) left k received (rw e at h) (ground arith) (omega arith)
      ]
      | inr e ↦ absurd (let h' = rw e at h in cc)
    ]
  where
    received_at :
        (received : Received)
        → is_some (lookup k received) ≡ true
        → (c : Chunk) × (lookup k received ≡ some c)
    received_at received e = elim (Option-cases (lookup k received)) [
      | inl n ↦ absurd (let e' = rw n at e in cc)
      | inr found ↦ found
    ]

pub missing_chunks-eq-nil :
    (total chunk k : ℕ) (received : Received)
    → missing_chunks total chunk received ≡ []
    → k < total_chunks total chunk
    → (c : Chunk) × (lookup k received ≡ some c)
unfolding missing_chunks
missing_chunks-eq-nil total chunk k received h below =
    missing_from-eq-nil 0 (total_chunks total chunk) k received h (omega arith) (omega arith)

-- The number of chunks is the upload's length in chunks, rounded up.
pub total_chunks_lem :
    (total chunk : ℕ)
    → 0 < chunk
    → let n = total_chunks total chunk in (total ≤ n * chunk) × (n * chunk < total + chunk)
unfolding total_chunks
total_chunks_lem total chunk h = rw (not_zero chunk h) (
    omega (
      arith,
      div-mul-le_self (total + chunk - 1) chunk,
      lt-div-mul-add {a = total + chunk - 1} {b = chunk} h,
    ))
  where
    not_zero : (chunk : ℕ) → 0 < chunk → (chunk == 0) ≡ false
    not_zero chunk h = ground arith

-- The chunks lie side by side: every chunk but the last is full, none is empty, and the last ends with
-- the upload.
pub chunk_bounds :
    (idx total chunk : ℕ)
    → 0 < chunk
    → idx < total_chunks total chunk
    → let size = expected_chunk_size idx total chunk in
      (0 < size)
      × (size ≤ chunk)
      × (idx * chunk + size ≤ total)
      × (suc idx < total_chunks total chunk → size ≡ chunk)
      × (suc idx ≡ total_chunks total chunk → idx * chunk + size ≡ total)
unfolding expected_chunk_size
chunk_bounds idx total chunk h k =
    let n = total_chunks total chunk in
    let bounds = total_chunks_lem total chunk h in
    elim (dec_lt (suc idx) n) [
      | yes more ↦
          let before : suc (suc idx) * chunk ≤ n * chunk = mul-le-mul_right chunk more in
          ground (arith, bounds, before, suc-mul idx chunk, suc-mul (suc idx) chunk)
      | no last ↦
          let same : n ≡ suc idx = omega arith in
          ground (arith, rw same at bounds, suc-mul idx chunk)
    ]
