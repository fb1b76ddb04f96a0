-- ===== src/Base/Dicts.antt =====
-- Python's `dict` with text keys, as an association list. The laws stand in `if` form.
use Prim.Native.Nat.{suc}
use mathlib.Core.Path.{◌≡◌, refl, ◌∙◌}
use mathlib.Core.Logic.{inl, inr}
use mathlib.Core.Option.{Option, none, some}
use mathlib.Core.List.{List, [], ◌∷◌}
use native.Mathlib.Omega.{arith}
use dubbing_pipeline.Base.Tests.{if◌then◌else◌, is_some, Bool-cases}
use dubbing_pipeline.Base.Lists.{length}
use dubbing_pipeline.Base.Texts.{Text, text_eq, text_eq_iff, text_eq_refl}

abbrev pub Dict {ℓ} : Type ℓ → Type ℓ
Dict V = List (Text × V)

module _ {ℓ} {V : Type ℓ} where
  -- d.get(k)
  unfoldable pub get : Dict V → Text → Option V
  get [] k = none
  get ((j, v) ∷ d) k = if text_eq j k then some v else get d k

  -- d[k] = v, which keeps the place of a key that is there
  unfoldable pub put : Dict V → Text → V → Dict V
  put [] k v = (k, v) ∷ []
  put ((j, w) ∷ d) k v = if text_eq j k then (j, v) ∷ d else (j, w) ∷ put d k v

  -- d.pop(k, None)
  unfoldable pub pop : Dict V → Text → Dict V
  pop [] k = []
  pop ((j, v) ∷ d) k = let rest = pop d k in if text_eq j k then rest else (j, v) ∷ rest

  pub get-put :
      (d : Dict V) (k j : Text) (v : V)
      → get (put d k v) j ≡ (if text_eq k j then some v else get d j)
  unfolding get put
  get-put [] k j v = refl
  get-put ((i, w) ∷ d) k j v =
      ground (arith, text_eq_iff i k, text_eq_iff i j, text_eq_iff k j, get-put d k j v)

  pub get-pop :
      (d : Dict V) (k j : Text) → get (pop d k) j ≡ (if text_eq k j then none else get d j)
  unfolding get pop
  get-pop [] k j = ground arith
  get-pop ((i, v) ∷ d) k j =
      ground (arith, text_eq_iff i k, text_eq_iff i j, text_eq_iff k j, get-pop d k j)

  pub get-put_self : (d : Dict V) (k : Text) (v : V) → get (put d k v) k ≡ some v
  get-put_self d k v = simp (get-put, text_eq_refl)

  pub get-pop_self : (d : Dict V) (k : Text) → get (pop d k) k ≡ none
  get-pop_self d k = simp (get-pop, text_eq_refl)

  pub length-put :
      (d : Dict V) (k : Text) (v : V)
      → length (put d k v) ≡ (if is_some (get d k) then length d else suc (length d))
  unfolding get put
  length-put [] k v = refl
  length-put ((j, w) ∷ d) k v = ground (arith, length-put d k v)

  -- Each key stands once, as in any `dict`.
  abbrev pub IsDict : Dict V → Type ℓ
  IsDict [] = Unit
  IsDict ((k, v) ∷ d) = (get d k ≡ none) × IsDict d

  pub put-IsDict : (d : Dict V) (k : Text) (v : V) → IsDict d → IsDict (put d k v)
  unfolding put get
  put-IsDict [] k v h = (refl, tt)
  put-IsDict ((j, w) ∷ d) k v h = elim (Bool-cases (text_eq j k)) [
    | inl e ↦ rw e (h.0, h.1)
    | inr e ↦ rw e (
      get-put d k j v ∙ ground (arith, h.0, text_eq_iff k j, text_eq_iff j k),
      put-IsDict d k v h.1,
    )
  ]

  pub pop-IsDict : (d : Dict V) (k : Text) → IsDict d → IsDict (pop d k)
  unfolding pop
  pop-IsDict [] k h = tt
  pop-IsDict ((j, w) ∷ d) k h = elim (Bool-cases (text_eq j k)) [
    | inl e ↦ rw e (pop-IsDict d k h.1)
    | inr e ↦ rw e (get-pop d k j ∙ ground (arith, h.0), pop-IsDict d k h.1)
  ]

  pub pop_absent : (d : Dict V) (k : Text) → get d k ≡ none → pop d k ≡ d
  unfolding pop get
  pop_absent [] k h = refl
  pop_absent ((j, w) ∷ d) k h = ground (arith, pop_absent d k)

pub ruleset dict_laws = (get-put, get-pop)
