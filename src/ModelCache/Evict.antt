-- ===== src/ModelCache/Evict.antt =====
-- What the eviction of src/dubbing_pipeline/runtime/model_manager.py takes out of the cache: only idle
-- entries, the least recently used first, and no more than needed.
pub mod Order
use mathlib.Core.Bool.{true≢false}
use mathlib.Core.Option.{none-ne-some, some-injective}
use dubbing_pipeline.Base.{
  ℕ, zero, suc, ◌+◌, ◌≤◌, ◌<◌, ◌≡◌, refl, ◌≢◌, ◌⊎◌, inl, inr, sym, ap, ◌∙◌, arith, Bool, true,
  false, ◌||◌, List, [], ◌∷◌, ◌++◌, Option, none, some, Bool-cases, if◌then◌else◌, All, keep,
  length, leb, ltb, ◌==◌,
}
use dubbing_pipeline.ModelCache.{
  Key, key_eq, Entry, find, remove, insert_by_use, sort_by_use, is_idle, evict, evict_if_needed,
}
use dubbing_pipeline.ModelCache.Lookup.{
  key_eq_iff, key_eq_sound, key_eq_refl, IsKeyed, find-remove, remove-IsKeyed, find_self-key,
}

module _ {M : Type 0} where
  pub any_key : Key → List (Entry M) → Bool
  any_key k [] = false
  any_key k (v ∷ vs) = key_eq v.key k || any_key k vs

  -- Least recently used first.
  abbrev pub IsByUse : List (Entry M) → Type 0
  IsByUse [] = Unit {0}
  IsByUse (v ∷ vs) = All (λ x. v.last_used ≤ x.last_used) vs × IsByUse vs

  -- What a victim says of the cache: its entry is there as it was, or gone.
  abbrev pub IsVictim : List (Entry M) → Entry M → Type 0
  IsVictim c v = ((find c v.key ≡ none) ⊎ (find c v.key ≡ some v)) × (v.refcount ≡ 0)

  -- Every idle entry of the cache is among the victims.
  abbrev pub Covers : List (Entry M) → List (Entry M) → Type 0
  Covers c vs = (k : Key) (e : Entry M) → find c k ≡ some e → e.refcount ≡ 0 → any_key k vs ≡ true

  pub IsVictim-remove :
      (c : List (Entry M)) (k : Key) (vs : List (Entry M))
      → IsKeyed c
      → All (IsVictim c) vs
      → All (IsVictim (remove c k)) vs
  IsVictim-remove c k [] u a = tt
  IsVictim-remove c k (v ∷ vs) u a =
      (ground (arith, a.0, find-remove c k v.key u), IsVictim-remove c k vs u a.1)

  pub Covers-remove :
      (c : List (Entry M)) (v : Entry M) (vs : List (Entry M))
      → IsKeyed c
      → Covers c (v ∷ vs)
      → Covers (remove c v.key) vs
  unfolding any_key
  Covers-remove c v vs u cov k e h i = ground (arith, find-remove c v.key k u, cov k e)

  -- The entries that the loop leaves are those of before, or gone.
  pub evict-find :
      (n : ℕ) (vs c : List (Entry M)) (k : Key)
      → IsKeyed c
      → (find (evict n vs c) k ≡ none) ⊎ (find (evict n vs c) k ≡ find c k)
  unfolding evict
  evict-find n [] c k u = inr refl
  evict-find n (v ∷ vs) c k u = ground (
    arith,
    find-remove c v.key k u,
    evict-find n vs (remove c v.key) k (remove-IsKeyed c v.key u),
  )

  length-remove : (c : List (Entry M)) (k : Key) → length c ≤ length (remove c k) + 1
  unfolding remove
  length-remove [] k = omega arith
  length-remove (e ∷ c) k = ground (arith, length-remove c k)

  -- Entries in use stay.
  pub evict-used :
      (n : ℕ) (vs c : List (Entry M)) (k : Key) (e : Entry M)
      → IsKeyed c
      → All (IsVictim c) vs
      → find c k ≡ some e
      → 0 < e.refcount
      → find (evict n vs c) k ≡ some e
  unfolding evict
  evict-used n [] c k e u a h r = h
  evict-used n (v ∷ vs) c k e u a h r = elim (Bool-cases (ltb n (length c))) [
    | inr b ↦ rw b h
    | inl b ↦ rw b (
        evict-used n vs (remove c v.key) k e (remove-IsKeyed c v.key u)
          (IsVictim-remove c v.key vs u a.1) (kept_used a.0 (Bool-cases (key_eq v.key k))) r)
  ]
    where
      kept_used :
          IsVictim c v
          → (key_eq v.key k ≡ true) ⊎ (key_eq v.key k ≡ false)
          → find (remove c v.key) k ≡ some e
      kept_used i (inr b) = find-remove c v.key k u ∙ ground (arith, b, h)
      kept_used i (inl b) =
          let same : find c v.key ≡ some e = ap (find c) (key_eq_sound v.key k b) ∙ h in
          absurd (ground arith)

  -- Either the cache is small enough, or all that is left is in use.
  pub evict_bounded :
      (n : ℕ) (vs c : List (Entry M))
      → IsKeyed c
      → Covers c vs
      → (length (evict n vs c) ≤ n)
        ⊎ ((k : Key) (e : Entry M) → find (evict n vs c) k ≡ some e → 0 < e.refcount)
  unfolding evict any_key
  evict_bounded n [] c u cov =
      inr (λ k e h. positive e.refcount (λ z. true≢false (sym (cov k e h z))))
    where
      positive : (r : ℕ) → (r ≡ 0 → ⊥) → 0 < r
      positive zero f = absurd (f refl)
      positive (suc r) f = omega arith
  evict_bounded n (v ∷ vs) c u cov = elim (Bool-cases (ltb n (length c))) [
    | inl b ↦ rw b (
        evict_bounded n vs (remove c v.key) (remove-IsKeyed c v.key u) (Covers-remove c v vs u cov))
    | inr b ↦ rw b (inl (ground arith))
  ]

  pub evict_needed : (n : ℕ) (vs c : List (Entry M)) → n ≤ length c → n ≤ length (evict n vs c)
  unfolding evict
  evict_needed n [] c h = h
  evict_needed n (v ∷ vs) c h =
      ground (arith, length-remove c v.key, evict_needed n vs (remove c v.key))
