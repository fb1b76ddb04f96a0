-- ===== src/Scheduler/Order.antt =====
-- The order on the entries of the scheduler's heap, and what a push keeps.
use mathlib.Core.List.{Perm}
use mathlib.Core.List.Perm
use dubbing_pipeline.Base.{
  ℕ, ℤ, suc, ◌≤◌, ◌≡◌, refl, sym, ◌≢◌, inl, inr, Bool, true, false, List, [], ◌∷◌, arith, ltb, All,
  Bool-cases, length,
}
use dubbing_pipeline.Scheduler.Heap.{Entry, lex, lex_ℤ, before, heappush, heapify}

lex_trans :
    (a b c : ℕ) (r s t : Bool)
    → (r ≡ true → s ≡ true → t ≡ true)
    → lex a b r ≡ true
    → lex b c s ≡ true
    → lex a c t ≡ true
lex_trans a b c r s t f p q = ground arith

lex_ℤ_trans :
    (a b c : ℤ) (r s t : Bool)
    → (r ≡ true → s ≡ true → t ≡ true)
    → lex_ℤ a b r ≡ true
    → lex_ℤ b c s ≡ true
    → lex_ℤ a c t ≡ true
lex_ℤ_trans a b c r s t f p q = ground arith

ltb_trans : (a b c : ℕ) → ltb a b ≡ true → ltb b c ≡ true → ltb a c ≡ true
ltb_trans a b c p q = ground arith

pub before_trans : (a b c : Entry) → before a b ≡ true → before b c ≡ true → before a c ≡ true
unfolding before
before_trans a b c = lex_trans a.available_at b.available_at c.available_at _ _ _ (
    lex_ℤ_trans a.priority b.priority c.priority _ _ _
      (lex_trans a.created_at b.created_at c.created_at _ _ _ (ltb_trans a.seq b.seq c.seq)))

lex_total : (a b : ℕ) (r s : Bool) → (r ≡ false → s ≡ true) → lex a b r ≡ false → lex b a s ≡ true
lex_total a b r s f p = ground arith

lex_ℤ_total :
    (a b : ℤ) (r s : Bool) → (r ≡ false → s ≡ true) → lex_ℤ a b r ≡ false → lex_ℤ b a s ≡ true
lex_ℤ_total a b r s f p = ground arith

ltb_total : (a b : ℕ) → a ≢ b → ltb a b ≡ false → ltb b a ≡ true
ltb_total a b d p = ground arith

-- The numbers tell any two entries apart, so a comparison never reaches the records.
pub before_total : (a b : Entry) → a.seq ≢ b.seq → before a b ≡ false → before b a ≡ true
unfolding before
before_total a b d = lex_total a.available_at b.available_at _ _ (
    lex_ℤ_total a.priority b.priority _ _
      (lex_total a.created_at b.created_at _ _ (ltb_total a.seq b.seq d)))

pub before-available_at : (a b : Entry) → before a b ≡ true → a.available_at ≤ b.available_at
unfolding before
before-available_at a b h = ground arith

-- `e` comes before all of `h`.
abbrev pub Heads : Entry → List Entry → Type 0
Heads e h = All (λ x. before e x ≡ true) h

abbrev pub IsHeap : List Entry → Type 0
IsHeap [] = Unit {0}
IsHeap (e ∷ h) = Heads e h × IsHeap h

-- The number `n` is in no entry of `h`.
abbrev pub IsFresh : ℕ → List Entry → Type 0
IsFresh n h = All (λ x. n ≢ x.seq) h

Heads-trans : (a b : Entry) (h : List Entry) → before a b ≡ true → Heads b h → Heads a h
Heads-trans a b [] p q = tt
Heads-trans a b (x ∷ h) p q = (before_trans a b x p q.0, Heads-trans a b h p q.1)

Heads-heappush :
    (x e : Entry) (h : List Entry) → before x e ≡ true → Heads x h → Heads x (heappush e h)
unfolding heappush
Heads-heappush x e [] p q = (p, tt)
Heads-heappush x e (y ∷ h) p q = elim (Bool-cases (before e y)) [
  | inl b ↦ rw b (p, q)
  | inr b ↦ rw b (q.0, Heads-heappush x e h p q.1)
]

-- A push under a fresh number keeps the heap in order.
pub heappush-IsHeap :
    (e : Entry) (h : List Entry) → IsFresh e.seq h → IsHeap h → IsHeap (heappush e h)
unfolding heappush
heappush-IsHeap e [] f s = (tt, tt)
heappush-IsHeap e (x ∷ h) f s = elim (Bool-cases (before e x)) [
  | inl b ↦ rw b ((b, Heads-trans e x h b s.0), (s.0, s.1))
  | inr b ↦ rw b (Heads-heappush x e h (before_total e x f.0 b) s.0, heappush-IsHeap e h f.1 s.1)
]

pub heappush-perm : (e : Entry) (h : List Entry) → Perm (heappush e h) (e ∷ h)
unfolding heappush
heappush-perm e [] = Perm.rfl
heappush-perm e (x ∷ h) = elim (Bool-cases (before e x)) [
  | inl b ↦ rw b Perm.rfl
  | inr b ↦ rw b (Perm.trans (Perm.cons x (heappush-perm e h)) (Perm.swap e x h))
]

pub heapify-perm : (h : List Entry) → Perm (heapify h) h
unfolding heapify
heapify-perm [] = Perm.rfl
heapify-perm (x ∷ h) = Perm.trans (heappush-perm x (heapify h)) (Perm.cons x (heapify-perm h))

pub length-heappush : (e : Entry) (h : List Entry) → length (heappush e h) ≡ suc (length h)
unfolding heappush
length-heappush e [] = refl
length-heappush e (x ∷ h) = ground (arith, length-heappush e h)

pub length-heapify : (h : List Entry) → length (heapify h) ≡ length h
unfolding heapify
length-heapify [] = refl
length-heapify (x ∷ h) = omega (arith, length-heappush x (heapify h), length-heapify h)

-- A predicate on the entries that holds of all, under a push and a heapify.
All-heappush :
    (P : Entry → Type 0) (e : Entry) (h : List Entry) → P e → All P h → All P (heappush e h)
unfolding heappush
All-heappush P e [] p q = (p, tt)
All-heappush P e (x ∷ h) p q = elim (Bool-cases (before e x)) [
  | inl b ↦ rw b (p, q)
  | inr b ↦ rw b (q.0, All-heappush P e h p q.1)
]

pub All-heapify : (P : Entry → Type 0) (h : List Entry) → All P h → All P (heapify h)
unfolding heapify
All-heapify P [] q = tt
All-heapify P (x ∷ h) q = All-heappush P x (heapify h) q.0 (All-heapify P h q.1)

-- The numbers of the heap are distinct and at most `n`.
abbrev pub Numbered : ℕ → List Entry → Type 0
Numbered n [] = Unit {0}
Numbered n (e ∷ h) = (e.seq ≤ n) × IsFresh e.seq h × Numbered n h

pub Numbered-suc : (n : ℕ) (h : List Entry) → Numbered n h → Numbered (suc n) h
Numbered-suc n [] q = tt
Numbered-suc n (x ∷ h) q = (omega arith, q.1, Numbered-suc n h q.2)

pub Numbered-IsFresh : (n : ℕ) (h : List Entry) → Numbered n h → IsFresh (suc n) h
Numbered-IsFresh n [] q = tt
Numbered-IsFresh n (x ∷ h) q = (omega arith, Numbered-IsFresh n h q.2)

pub heappush-Numbered :
    (n : ℕ) (e : Entry) (h : List Entry)
    → e.seq ≤ n
    → IsFresh e.seq h
    → Numbered n h
    → Numbered n (heappush e h)
unfolding heappush
heappush-Numbered n e [] l f q = (l, tt, tt)
heappush-Numbered n e (x ∷ h) l f q = elim (Bool-cases (before e x)) [
  | inl b ↦ rw b (l, (f.0, f.1), (q.0, q.1, q.2))
  | inr b ↦ rw b (
    q.0,
    All-heappush (λ y. x.seq ≢ y.seq) e h (λ p. f.0 (sym p)) q.1,
    heappush-Numbered n e h l f.1 q.2,
  )
]

pub heapify-ordered :
    (n : ℕ) (h : List Entry) → Numbered n h → IsHeap (heapify h) × Numbered n (heapify h)
unfolding heapify
heapify-ordered n [] q = (tt, tt)
heapify-ordered n (x ∷ h) q =
    let f = All-heapify (λ y. x.seq ≢ y.seq) h q.1 in
    let (s, m) = heapify-ordered n h q.2 in
    (heappush-IsHeap x (heapify h) f s, heappush-Numbered n x (heapify h) q.0 f m)
