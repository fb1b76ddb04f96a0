-- ===== src/ModelCache/Evict/Order.antt =====
-- The victims of src/dubbing_pipeline/runtime/model_manager.py are the idle entries, least recently
-- used first, and are taken in that order.
use mathlib.Core.Bool.{true≢false}
use mathlib.Core.Option.{none-ne-some, some-injective}
use mathlib.Core.Path.{subst}
use native.Mathlib.Nat.{le_trans}
use dubbing_pipeline.Base.{
  ℕ, ◌≤◌, ◌<◌, ◌≡◌, refl, ◌⊎◌, inl, inr, sym, ap, ◌∙◌, arith, true, false, ◌||◌, List, [], ◌∷◌,
  none, some, Bool-cases, if◌then◌else◌, All, keep, length, leb, ltb,
}
use dubbing_pipeline.ModelCache.{
  Key, key_eq, Entry, find, remove, insert_by_use, sort_by_use, is_idle, evict, evict_if_needed,
}
use dubbing_pipeline.ModelCache.Lookup.{
  key_eq_sound, key_eq_refl, IsKeyed, find-remove, remove-IsKeyed,
}
use dubbing_pipeline.ModelCache.Evict.{
  any_key, IsByUse, IsVictim, Covers, IsVictim-remove, Covers-remove, evict-find, evict-used,
  evict_bounded, evict_needed,
}

module _ {M : Type 0} where
  All-map :
      {P Q : Entry M → Type 0} (c : List (Entry M))
      → ((e : Entry M) → P e → Q e)
      → All P c
      → All Q c
  All-map [] f a = tt
  All-map (e ∷ c) f a = (f e a.0, All-map c f a.1)

  All-insert :
      (P : Entry M → Type 0) (e : Entry M) (xs : List (Entry M))
      → P e
      → All P xs
      → All P (insert_by_use e xs)
  unfolding insert_by_use
  All-insert P e [] p a = (p, tt)
  All-insert P e (x ∷ xs) p a = elim (Bool-cases (leb e.last_used x.last_used)) [
    | inl b ↦ rw b (p, a)
    | inr b ↦ rw b (a.0, All-insert P e xs p a.1)
  ]

  All-sort : (P : Entry M → Type 0) (xs : List (Entry M)) → All P xs → All P (sort_by_use xs)
  unfolding sort_by_use
  All-sort P [] a = tt
  All-sort P (e ∷ xs) a = All-insert P e (sort_by_use xs) a.0 (All-sort P xs a.1)

  insert-IsByUse : (e : Entry M) (xs : List (Entry M)) → IsByUse xs → IsByUse (insert_by_use e xs)
  unfolding insert_by_use
  insert-IsByUse e [] s = (tt, tt)
  insert-IsByUse e (x ∷ xs) s = elim (Bool-cases (leb e.last_used x.last_used)) [
    | inl b ↦
        let l : e.last_used ≤ x.last_used = ground arith in
        rw b ((l, All-map xs (λ y h. le_trans l h) s.0), s)
    | inr b ↦ rw b (
      All-insert (λ y. x.last_used ≤ y.last_used) e xs (ground arith) s.0,
      insert-IsByUse e xs s.1,
    )
  ]

  sort-IsByUse : (xs : List (Entry M)) → IsByUse (sort_by_use xs)
  unfolding sort_by_use
  sort-IsByUse [] = tt
  sort-IsByUse (e ∷ xs) = insert-IsByUse e (sort_by_use xs) (sort-IsByUse xs)

  any_key-insert :
      (k : Key) (e : Entry M) (xs : List (Entry M))
      → any_key k (insert_by_use e xs) ≡ (key_eq e.key k || any_key k xs)
  unfolding insert_by_use any_key
  any_key-insert k e [] = refl
  any_key-insert k e (x ∷ xs) = ground (arith, any_key-insert k e xs)

  any_key-sort : (k : Key) (xs : List (Entry M)) → any_key k (sort_by_use xs) ≡ any_key k xs
  unfolding sort_by_use any_key
  any_key-sort k [] = refl
  any_key-sort k (e ∷ xs) = ground (arith, any_key-insert k e (sort_by_use xs), any_key-sort k xs)

  -- In a cache each entry is found under its key.
  find-All : (c : List (Entry M)) → IsKeyed c → All (λ e. find c e.key ≡ some e) c
  unfolding find
  find-All [] u = tt
  find-All (x ∷ c) u = (
    rw (key_eq_refl x.key) refl,
    All-map c (λ e h. shadowed e h (Bool-cases (key_eq x.key e.key))) (find-All c u.1),
  )
    where
      shadowed :
          (e : Entry M)
          → find c e.key ≡ some e
          → (key_eq x.key e.key ≡ true) ⊎ (key_eq x.key e.key ≡ false)
          → (if key_eq x.key e.key then some x else find c e.key) ≡ some e
      shadowed e h (inr b) = rw b h
      shadowed e h (inl b) =
          absurd (none-ne-some e (sym u.0 ∙ (ap (find c) (key_eq_sound x.key e.key b) ∙ h)))

  keep_victims :
      (c d : List (Entry M))
      → All (λ e. find c e.key ≡ some e) d
      → All (IsVictim c) (keep is_idle d)
  keep_victims c [] a = tt
  keep_victims c (e ∷ d) a = elim (Bool-cases (is_idle e)) [
    | inl b ↦ rw b ((inr a.0, ground arith), keep_victims c d a.1)
    | inr b ↦ rw b (keep_victims c d a.1)
  ]

  keep-Covers : (c : List (Entry M)) → Covers c (keep is_idle c)
  unfolding find any_key
  keep-Covers [] k e h i = absurd (none-ne-some _ h)
  keep-Covers (x ∷ c) k e h i = ground (arith, keep-Covers c k e)

  victim_is : (c : List (Entry M)) (v e : Entry M) → find c v.key ≡ some e → IsVictim c v → v ≡ e
  victim_is c v e q (inl m, y) = absurd (none-ne-some e (sym m ∙ q))
  victim_is c v e q (inr m, y) = some-injective _ _ (sym m ∙ q)

  -- Of a victim's key the cache has the victim's entry.
  at_key :
      (c : List (Entry M)) (P : Entry M → Type 0) (vs : List (Entry M)) (j : Key) (d : Entry M)
      → All (IsVictim c) vs
      → All P vs
      → any_key j vs ≡ true
      → find c j ≡ some d
      → P d
  unfolding any_key
  at_key c P [] j d a p h f = absurd (true≢false (sym h))
  at_key c P (v ∷ vs) j d a p h f = elim (Bool-cases (key_eq v.key j)) [
    | inl b ↦
        let g : find c v.key ≡ some d = ap (find c) (key_eq_sound v.key j b) ∙ f in
        subst P (victim_is c v d g a.0) p.0
    | inr b ↦ at_key c P vs j d a.1 p.1 (ground arith) f
  ]

  -- What the loop takes out was used no later than any idle entry that it leaves.
  evict_lru :
      (n : ℕ) (vs c : List (Entry M)) (j k : Key) (d e : Entry M)
      → IsKeyed c
      → All (IsVictim c) vs
      → IsByUse vs
      → Covers c vs
      → find c k ≡ some e
      → find (evict n vs c) k ≡ none
      → find (evict n vs c) j ≡ some d
      → d.refcount ≡ 0
      → e.last_used ≤ d.last_used
  unfolding evict
  evict_lru n [] c j k d e u a s cov f g h z = absurd (none-ne-some e (sym g ∙ f))
  evict_lru n (v ∷ vs) c j k d e u a s cov f g h z = elim (Bool-cases (ltb n (length c))) [
    | inr b ↦ absurd (none-ne-some e (sym (rw b at g) ∙ f))
    | inl b ↦
        taken
          (λ f' g' h'.
            evict_lru n vs (remove c v.key) j k d e (remove-IsKeyed c v.key u)
              (IsVictim-remove c v.key vs u a.1) s.1 (Covers-remove c v vs u cov) f' g' h' z)
          (rw b at g) (rw b at h) (Bool-cases (key_eq v.key k))
  ]
    where
      c' : List (Entry M)
      c' = remove c v.key

      u' : IsKeyed c'
      u' = remove-IsKeyed c v.key u

      left_of : find (evict n vs c') j ≡ some d → find c' j ≡ some d
      left_of h' = elim (evict-find n vs c' j u') [
        | inl none_ ↦ absurd (none-ne-some d (sym none_ ∙ h'))
        | inr same ↦ sym same ∙ h'
      ]

      taken :
          (find c' k ≡ some e
            → find (evict n vs c') k ≡ none
            → find (evict n vs c') j ≡ some d
            → e.last_used ≤ d.last_used)
          → find (evict n vs c') k ≡ none
          → find (evict n vs c') j ≡ some d
          → (key_eq v.key k ≡ true) ⊎ (key_eq v.key k ≡ false)
          → e.last_used ≤ d.last_used
      taken again g' h' (inr b) = again (find-remove c v.key k u ∙ ground (arith, b, f)) g' h'
      taken again g' h' (inl b) =
          let at : find c v.key ≡ some e = ap (find c) (key_eq_sound v.key k b) ∙ f in
          let here : find c' j ≡ some d = left_of h' in
          let cov' = Covers-remove c v vs u cov in
          at_key c' (λ x. e.last_used ≤ x.last_used) vs j d (IsVictim-remove c v.key vs u a.1)
            (subst (λ y. All (λ x. y.last_used ≤ x.last_used) vs) (victim_is c v e at a.0) s.0)
            (cov' j d here z) here

-- An eviction under a bound on the number of entries.
pub record Evicted {M : Type 0} (n : ℕ) (c d : List (Entry M)) : Type 0 where
  pub not_needed : length c ≤ n → d ≡ c
  pub not_more : n ≤ length c → n ≤ length d
  pub enough : (length d ≤ n) ⊎ ((k : Key) (e : Entry M) → find d k ≡ some e → 0 < e.refcount)
  pub used_stay : (k : Key) (e : Entry M) → find c k ≡ some e → 0 < e.refcount → find d k ≡ some e
  pub unchanged : (k : Key) → (find d k ≡ none) ⊎ (find d k ≡ find c k)
  pub oldest_go :
      (j k : Key) (x e : Entry M)
      → find c k ≡ some e
      → find d k ≡ none
      → find d j ≡ some x
      → x.refcount ≡ 0
      → e.last_used ≤ x.last_used

module _ {M : Type 0} (n : ℕ) (c : List (Entry M)) (u : IsKeyed c) where
  abbrev victims : List (Entry M)
  victims = sort_by_use (keep is_idle c)

  victims-All : All (IsVictim c) victims
  victims-All = All-sort (IsVictim c) (keep is_idle c) (keep_victims c c (find-All c u))

  victims_cover : Covers c victims
  victims_cover k e h z = any_key-sort k (keep is_idle c) ∙ keep-Covers c k e h z

  -- In a cache that holds no key twice, eviction takes idle entries alone, the least recently used
  -- before the others, none while the cache is within its bound and no more than bring it there;
  -- it leaves the cache within its bound or with no idle entry, and leaves the other entries as
  -- they are.
  pub evict_if_needed-Evicted : Evicted n c (evict_if_needed n c)
  unfolding evict_if_needed
  evict_if_needed-Evicted = elim (Bool-cases (leb (length c) n)) [
    | inl b ↦ rw b (record {
      not_needed = λ l. refl;
      not_more = λ l. l;
      enough = inl (ground arith);
      used_stay = λ k e h r. h;
      unchanged = λ k. inr refl;
      oldest_go = λ j k x e f g h z. absurd (none-ne-some e (sym g ∙ f));
    })
    | inr b ↦ rw b (record {
      not_needed = λ l. absurd (ground arith);
      not_more = evict_needed n victims c;
      enough = evict_bounded n victims c u victims_cover;
      used_stay = λ k e. evict-used n victims c k e u victims-All;
      unchanged = λ k. evict-find n victims c k u;
      oldest_go = λ j k x e f g h z.
          evict_lru n victims c j k x e u victims-All (sort-IsByUse (keep is_idle c)) victims_cover
            f g h z;
    })
  ]
