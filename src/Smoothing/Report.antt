-- ===== src/Smoothing/Report.antt =====
-- What the speaker smoothing of src/dubbing_pipeline/diarization/smoothing.py changes and reports.
use mathlib.Core.List.{Perm}
use mathlib.Core.List.Perm
use dubbing_pipeline.Base.{
  ℕ, ◌≡◌, ◌⊎◌, inl, inr, refl, ap, arith, Bool, true, false, ◌||◌, List, [], ◌∷◌, some, Text,
  text_eq, text_eq_refl, All, Bool-cases, if◌then◌else◌,
}
use dubbing_pipeline.Smoothing.{
  Utterance, Scene, SmoothingChange, earlier, insert_by_time, sort_by_time, merges, given_to,
  change_of, smooth_from, smooth_sorted, smooth_speakers_in_scenes,
}

insert_by_time-perm : (u : Utterance) (us : List Utterance) → Perm (insert_by_time u us) (u ∷ us)
unfolding insert_by_time
insert_by_time-perm u [] = Perm.rfl
insert_by_time-perm u (x ∷ us) = elim (Bool-cases (earlier x u)) [
  | inl b ↦ rw b (Perm.trans (Perm.cons x (insert_by_time-perm u us)) (Perm.swap u x us))
  | inr b ↦ rw b Perm.rfl
]

sort_by_time-perm : (us : List Utterance) → Perm (sort_by_time us) us
unfolding sort_by_time
sort_by_time-perm [] = Perm.rfl
sort_by_time-perm (u ∷ us) =
    Perm.trans (insert_by_time-perm u (sort_by_time us)) (Perm.cons u (sort_by_time-perm us))

-- In order of time.
abbrev pub InOrder : List Utterance → Type 0
InOrder [] = Unit
InOrder (u ∷ us) = All (λ x. earlier x u ≡ false) us × InOrder us

All-insert_by_time :
    (v u : Utterance) (us : List Utterance)
    → earlier u v ≡ false
    → All (λ x. earlier x v ≡ false) us
    → All (λ x. earlier x v ≡ false) (insert_by_time u us)
unfolding insert_by_time
All-insert_by_time v u [] e a = (e, tt)
All-insert_by_time v u (x ∷ us) e a = elim (Bool-cases (earlier x u)) [
  | inl b ↦ rw b (a.0, All-insert_by_time v u us e a.1)
  | inr b ↦ rw b (e, a)
]

All-earlier :
    (u x : Utterance) (us : List Utterance)
    → earlier x u ≡ false
    → All (λ y. earlier y x ≡ false) us
    → All (λ y. earlier y u ≡ false) us
All-earlier u x [] e a = tt
All-earlier u x (y ∷ us) e a = (ground (arith, e, a.0), All-earlier u x us e a.1)

insert_by_time-InOrder :
    (u : Utterance) (us : List Utterance) → InOrder us → InOrder (insert_by_time u us)
unfolding insert_by_time
insert_by_time-InOrder u [] o = (tt, tt)
insert_by_time-InOrder u (x ∷ us) o = elim (Bool-cases (earlier x u)) [
  | inl b ↦
      rw b (All-insert_by_time x u us (ground (arith, b)) o.0, insert_by_time-InOrder u us o.1)
  | inr b ↦ rw b ((b, All-earlier u x us b o.0), o)
]

sort_by_time-InOrder : (us : List Utterance) → InOrder (sort_by_time us)
unfolding sort_by_time
sort_by_time-InOrder [] = tt
sort_by_time-InOrder (u ∷ us) = insert_by_time-InOrder u (sort_by_time us) (sort_by_time-InOrder us)

-- One utterance as another one, but for the speaker, and then with the speaker it had.
abbrev pub SameTurn : Utterance → Utterance → Type 0
SameTurn a b =
    (b.start ≡ a.start)
    × (b.end_ ≡ a.end_)
    × (b.conf ≡ a.conf)
    × ((b ≡ a) ⊎ (b.speaker_original ≡ some a.speaker))

abbrev pub SameTurns : List Utterance → List Utterance → Type 0
SameTurns [] [] = Unit
SameTurns (a ∷ us) (b ∷ bs) = SameTurn a b × SameTurns us bs
SameTurns _ _ = ⊥

-- The utterances whose speakers differ, in order.
abbrev pub changes_between : List Utterance → List Utterance → List SmoothingChange
changes_between (a ∷ us) (b ∷ bs) =
    let rest = changes_between us bs in
    if text_eq a.speaker b.speaker then rest else change_of b.speaker a ∷ rest
changes_between _ _ = []

-- Somebody of this name speaks.
abbrev pub speaks : Text → List Utterance → Bool
speaks name [] = false
speaks name (u ∷ us) = text_eq u.speaker name || speaks name us

module _ (scenes : List Scene) (min_turn surround_gap : ℕ) where
  merges-differ :
      (prev u nxt : Utterance)
      → merges scenes min_turn surround_gap prev u nxt ≡ true
      → text_eq u.speaker prev.speaker ≡ false
  unfolding merges
  merges-differ prev u nxt h = ground (arith, h)

  smooth_from-SameTurns :
      (prev : Utterance) (us : List Utterance)
      → SameTurns us (smooth_from scenes min_turn surround_gap prev us).0
  unfolding smooth_from
  smooth_from-SameTurns prev [] = tt
  smooth_from-SameTurns prev (u ∷ []) = ((refl, refl, refl, inl refl), tt)
  smooth_from-SameTurns prev (u ∷ nxt ∷ rest) =
      elim (Bool-cases (merges scenes min_turn surround_gap prev u nxt)) [
        | inl b ↦ rw b (
          (refl, refl, refl, inr refl),
          smooth_from-SameTurns (given_to prev.speaker u) (nxt ∷ rest),
        )
        | inr b ↦ rw b ((refl, refl, refl, inl refl), smooth_from-SameTurns u (nxt ∷ rest))
      ]

  smooth_from-changes :
      (prev : Utterance) (us : List Utterance)
      → let r = smooth_from scenes min_turn surround_gap prev us in r.1 ≡ changes_between us r.0
  unfolding smooth_from
  smooth_from-changes prev [] = refl
  smooth_from-changes prev (u ∷ []) = rw (text_eq_refl u.speaker) refl
  smooth_from-changes prev (u ∷ nxt ∷ rest) =
      elim (Bool-cases (merges scenes min_turn surround_gap prev u nxt)) [
        | inl b ↦
            rw (b, merges-differ prev u nxt b)
              (ap (λ cs. change_of prev.speaker u ∷ cs)
                (smooth_from-changes (given_to prev.speaker u) (nxt ∷ rest)))
        | inr b ↦ rw (b, text_eq_refl u.speaker) (smooth_from-changes u (nxt ∷ rest))
      ]

  speaks_more :
      (v : Utterance) (us bs : List Utterance)
      → All (λ b. speaks b.speaker us ≡ true) bs
      → All (λ b. speaks b.speaker (v ∷ us) ≡ true) bs
  speaks_more v us [] h = tt
  speaks_more v us (b ∷ bs) h = (ground (arith, h.0), speaks_more v us bs h.1)

  speaks_given :
      (prev u : Utterance) (us bs : List Utterance)
      → All (λ b. speaks b.speaker (given_to prev.speaker u ∷ us) ≡ true) bs
      → All (λ b. speaks b.speaker (prev ∷ u ∷ us) ≡ true) bs
  speaks_given prev u us [] h = tt
  speaks_given prev u us (b ∷ bs) h = (ground (arith, h.0), speaks_given prev u us bs h.1)

  smooth_from-speaks :
      (prev : Utterance) (us : List Utterance)
      → All
          (λ b. speaks b.speaker (prev ∷ us) ≡ true)
          (smooth_from scenes min_turn surround_gap prev us).0
  unfolding smooth_from
  smooth_from-speaks prev [] = tt
  smooth_from-speaks prev (u ∷ []) = (ground (arith, text_eq_refl u.speaker), tt)
  smooth_from-speaks prev (u ∷ nxt ∷ rest) =
      elim (Bool-cases (merges scenes min_turn surround_gap prev u nxt)) [
        | inl b ↦ rw b (
          ground (arith, text_eq_refl prev.speaker),
          speaks_given prev u (nxt ∷ rest) _
              (smooth_from-speaks (given_to prev.speaker u) (nxt ∷ rest)),
        )
        | inr b ↦ rw b (
          ground (arith, text_eq_refl u.speaker),
          speaks_more prev (u ∷ nxt ∷ rest) _ (smooth_from-speaks u (nxt ∷ rest)),
        )
      ]

  of_sorted :
      (us : List Utterance)
      → let r = smooth_sorted scenes min_turn surround_gap us in
        SameTurns us r.0
        × All (λ b. speaks b.speaker us ≡ true) r.0
        × (r.1 ≡ changes_between us r.0)
  unfolding smooth_sorted
  of_sorted [] = (tt, tt, refl)
  of_sorted (u ∷ us) = (
    ((refl, refl, refl, inl refl), smooth_from-SameTurns u us),
    (ground (arith, text_eq_refl u.speaker), smooth_from-speaks u us),
    rw (text_eq_refl u.speaker) (smooth_from-changes u us),
  )

  -- The smoothed list has the utterances in order of time, each as it was but perhaps for its speaker,
  -- and then with the speaker it had; nobody speaks in it who did not speak before; and the report
  -- lists exactly the utterances whose speaker differs.
  pub smooth_lem :
      (utts : List Utterance)
      → let sorted = sort_by_time utts in
        let r = smooth_speakers_in_scenes scenes min_turn surround_gap utts in
        Perm sorted utts
        × InOrder sorted
        × SameTurns sorted r.0
        × All (λ b. speaks b.speaker sorted ≡ true) r.0
        × (r.1 ≡ changes_between sorted r.0)
  unfolding smooth_speakers_in_scenes
  smooth_lem utts =
      let (same, spoken, changes) = of_sorted (sort_by_time utts) in
      (sort_by_time-perm utts, sort_by_time-InOrder utts, same, spoken, changes)
