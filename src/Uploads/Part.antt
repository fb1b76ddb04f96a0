-- ===== src/Uploads/Part.antt =====
-- The part file of src/dubbing_pipeline/web/routes/uploads.py: random-access writes and what is read
-- back afterwards.
use dubbing_pipeline.Base.{
  ℕ, zero, suc, ◌+◌, ◌≤◌, ◌≡◌, refl, ap, ◌∙◌, arith, [], ◌∷◌, ◌++◌, Text, length, take, drop, max,
  take-append, length-append, length-drop,
}

abbrev pub Bytes : Type 0
Bytes = Text

-- f.seek(offset); f.write(body): what lies before the offset and is not there yet is filled with zeros
unfoldable pub write_at : ℕ → Bytes → Bytes → Bytes
write_at zero body file = body ++ drop (length body) file
write_at (suc offset) body [] = 0 ∷ write_at offset body []
write_at (suc offset) body (b ∷ file) = b ∷ write_at offset body file

-- `size` bytes from `offset` on
abbrev pub slice : ℕ → ℕ → Bytes → Bytes
slice offset size file = take size (drop offset file)

pub length-write_at :
    (offset : ℕ) (body file : Bytes)
    → length (write_at offset body file) ≡ max (length file) (offset + length body)
unfolding write_at
length-write_at zero body file =
    omega (arith, length-append body (drop (length body) file), length-drop (length body) file)
length-write_at (suc offset) body [] = omega (arith, length-write_at offset body [])
length-write_at (suc offset) body (b ∷ file) = omega (arith, length-write_at offset body file)

drop-nil : (n : ℕ) → drop {A = ℕ} n [] ≡ []
drop-nil zero = refl
drop-nil (suc n) = refl

-- What was written is read back.
pub slice-write_at_self :
    (offset : ℕ) (body file : Bytes) → slice offset (length body) (write_at offset body file) ≡ body
unfolding write_at
slice-write_at_self zero body file = take-append body (drop (length body) file)
slice-write_at_self (suc offset) body [] = slice-write_at_self offset body []
slice-write_at_self (suc offset) body (b ∷ file) = slice-write_at_self offset body file

take-write_at :
    (n offset : ℕ) (body file : Bytes)
    → n ≤ offset
    → n ≤ length file
    → take n (write_at offset body file) ≡ take n file
unfolding write_at
take-write_at zero offset body file h k = refl
take-write_at (suc n) zero body file h k = absurd (omega arith)
take-write_at (suc n) (suc offset) body [] h k = absurd (omega arith)
take-write_at (suc n) (suc offset) body (b ∷ file) h k =
    ap (◌∷◌ b) (take-write_at n offset body file (omega arith) (omega arith))

-- What lies wholly before the write stays as it was.
pub slice-write_at_before :
    (o n offset : ℕ) (body file : Bytes)
    → o + n ≤ offset
    → o + n ≤ length file
    → slice o n (write_at offset body file) ≡ slice o n file
unfolding write_at
slice-write_at_before zero n offset body file h k =
    take-write_at n offset body file (omega arith) (omega arith)
slice-write_at_before (suc o) n zero body file h k = absurd (omega arith)
slice-write_at_before (suc o) n (suc offset) body [] h k = absurd (omega arith)
slice-write_at_before (suc o) n (suc offset) body (b ∷ file) h k =
    slice-write_at_before o n offset body file (omega arith) (omega arith)

drop-over :
    (o : ℕ) (body file : Bytes)
    → length body ≤ o
    → drop o (body ++ drop (length body) file) ≡ drop o file
drop-over o [] file h = refl
drop-over zero (c ∷ body) file h = absurd (omega arith)
drop-over (suc o) (c ∷ body) [] h =
    rw (drop-nil (length body), drop-nil o) at (drop-over o body [] (omega arith))
drop-over (suc o) (c ∷ body) (b ∷ file) h = drop-over o body file (omega arith)

-- What lies wholly behind the write stays as it was.
pub drop-write_at :
    (o offset : ℕ) (body file : Bytes)
    → offset + length body ≤ o
    → drop o (write_at offset body file) ≡ drop o file
unfolding write_at
drop-write_at o zero body file h = drop-over o body file (omega arith)
drop-write_at zero (suc offset) body file h = absurd (omega arith)
drop-write_at (suc o) (suc offset) body [] h =
    drop-write_at o offset body [] (omega arith) ∙ drop-nil o
drop-write_at (suc o) (suc offset) body (b ∷ file) h =
    drop-write_at o offset body file (omega arith)
