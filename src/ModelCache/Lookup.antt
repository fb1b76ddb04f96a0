-- ===== src/ModelCache/Lookup.antt =====
-- Lookups in the cache of src/dubbing_pipeline/runtime/model_manager.py after each change.
use mathlib.Core.Option.{none-ne-some}
use dubbing_pipeline.Base.{
  ◌≡◌, refl, ◌↔◌, arith, Bool, true, List, [], ◌∷◌, ◌++◌, Option, none, some, text_eq_iff,
  text_eq_refl, Bool-cases, inl, inr, if◌then◌else◌, ap, ◌∙◌,
}
use dubbing_pipeline.ModelCache.{Key, key_eq, Entry, find, update, remove}

pub key_eq_sound : (a b : Key) → key_eq a b ≡ true → a ≡ b
unfolding key_eq
key_eq_sound a b h = ground (
  arith,
  text_eq_iff a.kind b.kind,
  text_eq_iff a.model_name b.model_name,
  text_eq_iff a.device b.device,
)

pub key_eq_refl : (a : Key) → key_eq a a ≡ true
unfolding key_eq
key_eq_refl a = simp text_eq_refl

pub key_eq_iff : (a b : Key) → (key_eq a b ≡ true) ↔ (a ≡ b)
key_eq_iff a b = (key_eq_sound a b, λ e. rw e (key_eq_refl b))

abbrev pub mapped : {M : Type 0} → (Entry M → Entry M) → Option (Entry M) → Option (Entry M)
mapped f none = none
mapped f (some e) = some (f e)

-- Each key is once in the cache.
abbrev pub IsKeyed : {M : Type 0} → List (Entry M) → Type 0
IsKeyed [] = Unit
IsKeyed (e ∷ c) = (find c e.key ≡ none) × IsKeyed c

module _ {M : Type 0} where
  pub find-update :
      (c : List (Entry M)) (k j : Key) (f : Entry M → Entry M)
      → ((e : Entry M) → (f e).key ≡ e.key)
      → find (update c k f) j ≡ (if key_eq k j then mapped f (find c j) else find c j)
  unfolding find update
  find-update [] k j f same = ground arith
  find-update (e ∷ c) k j f same = ground (
    arith,
    same e,
    key_eq_iff e.key k,
    key_eq_iff e.key j,
    key_eq_iff k j,
    find-update c k j f same,
  )

  -- What a key says of another key of the same cache.
  find_key : (c : List (Entry M)) (k j : Key) → key_eq k j ≡ true → find c k ≡ find c j
  find_key c k j h = ap (find c) (key_eq_sound k j h)

  pub find-remove :
      (c : List (Entry M)) (k j : Key)
      → IsKeyed c
      → find (remove c k) j ≡ (if key_eq k j then none else find c j)
  unfolding find remove
  find-remove [] k j u = ground arith
  find-remove (e ∷ c) k j u = ground (
    arith,
    u.0,
    key_eq_iff e.key k,
    key_eq_iff e.key j,
    key_eq_iff k j,
    find-remove c k j u.1,
    find_key c e.key j,
  )

  pub find-append :
      (c : List (Entry M)) (e : Entry M) (j : Key)
      → find c e.key ≡ none
      → find (c ++ e ∷ []) j ≡ (if key_eq e.key j then some e else find c j)
  unfolding find
  find-append [] e j h = refl
  find-append (x ∷ c) e j h =
      ground
        (arith, key_eq_iff x.key e.key, key_eq_iff x.key j, key_eq_iff e.key j, find-append c e j)

  pub update-IsKeyed :
      (c : List (Entry M)) (k : Key) (f : Entry M → Entry M)
      → ((e : Entry M) → (f e).key ≡ e.key)
      → IsKeyed c
      → IsKeyed (update c k f)
  unfolding update
  update-IsKeyed [] k f same u = tt
  update-IsKeyed (e ∷ c) k f same u = elim (Bool-cases (key_eq e.key k)) [
    | inl b ↦ rw b (rw (same e) u.0, u.1)
    | inr b ↦
        rw b (find-update c k e.key f same ∙ ground (arith, u.0), update-IsKeyed c k f same u.1)
  ]

  pub remove-IsKeyed : (c : List (Entry M)) (k : Key) → IsKeyed c → IsKeyed (remove c k)
  unfolding remove
  remove-IsKeyed [] k u = tt
  remove-IsKeyed (e ∷ c) k u = elim (Bool-cases (key_eq e.key k)) [
    | inl b ↦ rw b u.1
    | inr b ↦ rw b (find-remove c k e.key u.1 ∙ ground (arith, u.0), remove-IsKeyed c k u.1)
  ]

  pub append-IsKeyed :
      (c : List (Entry M)) (e : Entry M) → find c e.key ≡ none → IsKeyed c → IsKeyed (c ++ e ∷ [])
  unfolding find
  append-IsKeyed [] e h u = (refl, tt)
  append-IsKeyed (x ∷ c) e h u = (
    find-append c e x.key (absent_tail (key_eq x.key e.key) refl h)
        ∙ ground (arith, u.0, h, key_eq_iff e.key x.key, key_eq_iff x.key e.key),
    append-IsKeyed c e (absent_tail (key_eq x.key e.key) refl h) u.1,
  )
    where
      absent_tail :
          (b : Bool)
          → key_eq x.key e.key ≡ b
          → (if key_eq x.key e.key then some x else find c e.key) ≡ none
          → find c e.key ≡ none
      absent_tail b q h = ground arith

  pub find_self-key : (c : List (Entry M)) (k : Key) (e : Entry M) → find c k ≡ some e → e.key ≡ k
  unfolding find
  find_self-key [] k e h = absurd (none-ne-some _ h)
  find_self-key (x ∷ c) k e h = ground (arith, key_eq_iff x.key k, find_self-key c k e)
