-- ===== src/Scheduler/Heap.antt =====
-- The heap of src/dubbing_pipeline/runtime/scheduler.py. Python's `heapq` gives the least element
-- first and keeps the others; the list here is kept in order, so that its head is `heap[0]`.
use dubbing_pipeline.Base.{ℕ, ℤ, Bool, true, false, List, [], ◌∷◌, Text, ltb, ltb_ℤ, if◌then◌else◌}

pub record JobRecord : Type 0 where
  pub job_id : Text
  pub mode : Text
  pub device_pref : Text
  pub created_at : ℕ
  pub priority : ℤ

-- `(available_at, priority, created_at, seq, rec)`, times in milliseconds
pub record Entry : Type 0 where
  pub available_at : ℕ
  pub priority : ℤ
  pub created_at : ℕ
  pub seq : ℕ
  pub rec : JobRecord

abbrev pub lex : ℕ → ℕ → Bool → Bool
lex a b rest = if ltb a b then true else if ltb b a then false else rest

abbrev pub lex_ℤ : ℤ → ℤ → Bool → Bool
lex_ℤ a b rest = if ltb_ℤ a b then true else if ltb_ℤ b a then false else rest

-- `<` on the tuples. No two entries have the same `seq`, so that the records are never compared.
unfoldable pub before : Entry → Entry → Bool
before a b =
    lex a.available_at b.available_at
      (lex_ℤ a.priority b.priority (lex a.created_at b.created_at (ltb a.seq b.seq)))

unfoldable pub heappush : Entry → List Entry → List Entry
heappush e [] = e ∷ []
heappush e (x ∷ h) = if before e x then e ∷ x ∷ h else x ∷ heappush e h

unfoldable pub heapify : List Entry → List Entry
heapify [] = []
heapify (x ∷ h) = heappush x (heapify h)
