-- ===== src/ModelCache/Holders.antt =====
-- Reference counts of src/dubbing_pipeline/runtime/model_manager.py against the users of the models,
-- over any interleaving of loads, hits and releases.
use mathlib.Core.Path.{subst}
use mathlib.Core.Option.{none-ne-some}
use dubbing_pipeline.Base.{
  ℕ, zero, suc, ◌+◌, ◌<◌, ◌≡◌, refl, ◌≢◌, ◌⊎◌, inl, inr, sym, ap, ◌∙◌, arith, true, false, List, [],
  ◌∷◌, ◌++◌, Option, none, some, Bool-cases, if◌then◌else◌, length, leb, ltb,
}
use dubbing_pipeline.ModelCache.{
  Key, key_eq, Entry, find, update, remove, evict, evict_if_needed, take_up, let_go, use_found,
  load_found, release_found, get_cached, finish_load, release,
}
use dubbing_pipeline.ModelCache.Lookup.{
  key_eq_iff, key_eq_sound, IsKeyed, mapped, find-update, find-append, update-IsKeyed,
  remove-IsKeyed, append-IsKeyed,
}
use dubbing_pipeline.ModelCache.Evict.Order.{Evicted, evict_if_needed-Evicted}

-- How many of the users hold the model of a key.
abbrev pub holders : Key → List Key → ℕ
holders k [] = 0
holders k (h ∷ held) = let rest = holders k held in if key_eq h k then suc rest else rest

-- A user gives back what it holds.
unfoldable pub drop_holder : Key → List Key → List Key
drop_holder k [] = []
drop_holder k (h ∷ held) = if key_eq h k then held else h ∷ drop_holder k held

abbrev pub refs : {M : Type 0} → Option (Entry M) → ℕ
refs none = 0
refs (some e) = e.refcount

holders-drop_holder :
    (j k : Key) (held : List Key)
    → 0 < holders j held
    → holders k (drop_holder j held) + (if key_eq j k then 1 else 0) ≡ holders k held
unfolding drop_holder
holders-drop_holder j k [] h = absurd (omega arith)
holders-drop_holder j k (x ∷ held) h =
    ground (arith, key_eq_iff x j, key_eq_iff x k, key_eq_iff j k, holders-drop_holder j k held)

module _ {M : Type 0} where
  evict-IsKeyed : (n : ℕ) (vs c : List (Entry M)) → IsKeyed c → IsKeyed (evict n vs c)
  unfolding evict
  evict-IsKeyed n [] c u = u
  evict-IsKeyed n (v ∷ vs) c u = elim (Bool-cases (ltb n (length c))) [
    | inl b ↦ rw b (evict-IsKeyed n vs (remove c v.key) (remove-IsKeyed c v.key u))
    | inr b ↦ rw b u
  ]

  evict_if_needed-IsKeyed : (n : ℕ) (c : List (Entry M)) → IsKeyed c → IsKeyed (evict_if_needed n c)
  unfolding evict_if_needed
  evict_if_needed-IsKeyed n c u = elim (Bool-cases (leb (length c) n)) [
    | inl b ↦ rw b u
    | inr b ↦ rw b (evict-IsKeyed n _ c u)
  ]

  -- Eviction changes no reference count: what it takes out counts 0.
  refs-evict :
      (n : ℕ) (c : List (Entry M)) (k : Key)
      → IsKeyed c
      → refs (find (evict_if_needed n c) k) ≡ refs (find c k)
  refs-evict n c k u = by_entry (find c k) refl
    where
      v : Evicted n c (evict_if_needed n c)
      v = evict_if_needed-Evicted n c u

      idle : (r : ℕ) → (0 < r → ⊥) → 0 ≡ r
      idle zero f = refl
      idle (suc r) f = absurd (f (omega arith))

      by_entry :
          (o : Option (Entry M))
          → find c k ≡ o
          → refs (find (evict_if_needed n c) k) ≡ refs (find c k)
      by_entry none e = elim (v.unchanged k) [ inl gone ↦ rw (gone, e) | inr same ↦ rw same ]
      by_entry (some x) e = elim (v.unchanged k) [
        | inr same ↦ rw same
        | inl gone ↦
            rw (gone, e) (idle x.refcount (λ r. none-ne-some x (sym gone ∙ v.used_stay k x e r)))
      ]

  -- The cache and those who hold its models.
  pub record IsCounted (c : List (Entry M)) (held : List Key) : Type 0 where
    pub keyed : IsKeyed c
    pub count : (k : Key) → refs (find c k) ≡ holders k held

  refs-take_up :
      (o : Option (Entry M)) (now : ℕ)
      → 0 < refs o ⊎ (o ≢ none)
      → refs (mapped (take_up now) o) ≡ refs o + 1
  refs-take_up none now (inl l) = absurd (omega arith)
  refs-take_up none now (inr d) = absurd (d refl)
  refs-take_up (some e) now h = refl

  -- One more user of an entry that is there.
  take_up-IsCounted :
      (c : List (Entry M)) (held : List Key) (k : Key) (now : ℕ) (e : Entry M)
      → find c k ≡ some e
      → IsCounted c held
      → IsCounted (update c k (take_up now)) (k ∷ held)
  take_up-IsCounted c held k now e f v = record {
    keyed = update-IsKeyed c k (take_up now) (λ x. refl) v.keyed;
    count = λ j.
        rw (find-update c k j (take_up now) (λ x. refl)) (counted_at j (Bool-cases (key_eq k j)));
  }
    where
      counted_at :
          (j : Key)
          → (key_eq k j ≡ true) ⊎ (key_eq k j ≡ false)
          → refs (if key_eq k j then mapped (take_up now) (find c j) else find c j)
            ≡ holders j (k ∷ held)
      counted_at j (inr b) = rw b (v.count j)
      counted_at j (inl b) =
          let g : find c j ≡ some e = ap (find c) (sym (key_eq_sound k j b)) ∙ f in
          let n = v.count j in rw (b, g) (ground (arith, n, g))

  -- A hit counts its user.
  pub get_cached-IsCounted :
      (c : List (Entry M)) (held : List Key) (k : Key) (now : ℕ) {m : M} {d : List (Entry M)}
      → get_cached now k c ≡ (some m, d)
      → IsCounted c held
      → IsCounted d (k ∷ held)
  unfolding get_cached
  get_cached-IsCounted c held k now {m} {d} h v = by_entry (find c k) refl h
    where
      by_entry :
          (o : Option (Entry M))
          → find c k ≡ o
          → use_found now k c o ≡ (some m, d)
          → IsCounted d (k ∷ held)
      by_entry none e h' = absurd (none-ne-some m (ap (λ p. p.0) h'))
      by_entry (some x) e h' =
          subst (λ d'. IsCounted d' (k ∷ held)) (ap (λ p. p.1) h')
            (take_up-IsCounted c held k now x e v)

  -- So does a load, whether or not another user loaded the model in between.
  pub finish_load-IsCounted :
      (n : ℕ) (c : List (Entry M)) (held : List Key) (k : Key) (now : ℕ) (m : M)
      → IsCounted c held
      → IsCounted (finish_load n now k m c).1 (k ∷ held)
  unfolding finish_load
  finish_load-IsCounted n c held k now m v = by_entry (find c k) refl
    where
      added : Entry M
      added = record { key = k; model = m; refcount = 1; last_used = now }

      counted_at :
          find c k ≡ none
          → (j : Key) → (key_eq k j ≡ true) ⊎ (key_eq k j ≡ false)
          → refs (if key_eq k j then some added else find c j) ≡ holders j (k ∷ held)
      counted_at e j (inr b) = rw b (v.count j)
      counted_at e j (inl b) =
          let g : find c j ≡ none = ap (find c) (sym (key_eq_sound k j b)) ∙ e in
          let w = v.count j in rw b (ground (arith, w, g))

      by_entry :
          (o : Option (Entry M)) → find c k ≡ o → IsCounted (load_found n now k m c o).1 (k ∷ held)
      by_entry (some x) e = take_up-IsCounted c held k now x e v
      by_entry none e =
          let u = append-IsKeyed c added e v.keyed in
          record {
            keyed = evict_if_needed-IsKeyed n (c ++ added ∷ []) u;
            count = λ j.
                refs-evict n (c ++ added ∷ []) j u
                ∙ (ap refs (find-append c added j e) ∙ counted_at e j (Bool-cases (key_eq k j)));
          }

  -- A release by a user that holds the model counts it off.
  pub release-IsCounted :
      (n : ℕ) (c : List (Entry M)) (held : List Key) (k : Key) (now : ℕ)
      → 0 < holders k held
      → IsCounted c held
      → IsCounted (release n now k c) (drop_holder k held)
  unfolding release
  release-IsCounted n c held k now h v = by_entry (find c k) refl
    where
      counted_at :
          (x : Entry M)
          → find c k ≡ some x
          → (j : Key) → (key_eq k j ≡ true) ⊎ (key_eq k j ≡ false)
          → refs (if key_eq k j then mapped (let_go now) (find c j) else find c j)
            ≡ holders j (drop_holder k held)
      counted_at x e j (inr b) =
          let w = v.count j in let d = holders-drop_holder k j held h in rw b (ground (arith, w, d))
      counted_at x e j (inl b) =
          let g : find c j ≡ some x = ap (find c) (sym (key_eq_sound k j b)) ∙ e in
          let w = v.count j in
          let d = holders-drop_holder k j held h in rw (b, g) (ground (arith, w, d, g))

      by_entry :
          (o : Option (Entry M))
          → find c k ≡ o
          → IsCounted (release_found n now k c o) (drop_holder k held)
      by_entry none e = absurd (omega (arith, v.count k, ap refs e))
      by_entry (some x) e =
          let u = update-IsKeyed c k (let_go now) (λ y. refl) v.keyed in
          record {
            keyed = evict_if_needed-IsKeyed n (update c k (let_go now)) u;
            count = λ j.
                refs-evict n (update c k (let_go now)) j u
                ∙ (ap refs (find-update c k j (let_go now) (λ y. refl))
                    ∙ counted_at x e j (Bool-cases (key_eq k j)));
          }

-- The cache, and the keys of the models that users hold.
pub record Users (M : Type 0) : Type 0 where
  pub cache : List (Entry M)
  pub held : List Key

module _ {M : Type 0} (max_n : ℕ) where
  pub data Step (w : Users M) : Users M → Type 0 where
    hits :
        (k : Key) (now : ℕ) {m : M} {c : List (Entry M)}
        → get_cached now k w.cache ≡ (some m, c)
        → Step w (record { cache = c; held = k ∷ w.held })
    loads :
        (k : Key) (now : ℕ) (m : M)
        → Step w (record { cache = (finish_load max_n now k m w.cache).1; held = k ∷ w.held })
    releases :
        (k : Key) (now : ℕ)
        → 0 < holders k w.held
        → Step w (record { cache = release max_n now k w.cache; held = drop_holder k w.held })

  pub data Reach (w : Users M) : Users M → Type 0 where
    here : Reach w w
    then_ : {u v : Users M} → Reach w u → Step u v → Reach w v

  Step-IsCounted : {w u : Users M} → Step w u → IsCounted w.cache w.held → IsCounted u.cache u.held
  Step-IsCounted {w} (hits k now e) v = get_cached-IsCounted w.cache w.held k now e v
  Step-IsCounted {w} (loads k now m) v = finish_load-IsCounted max_n w.cache w.held k now m v
  Step-IsCounted {w} (releases k now h) v = release-IsCounted max_n w.cache w.held k now h v

  Reach-from : {w u : Users M} → Reach w u → IsCounted w.cache w.held → IsCounted u.cache u.held
  Reach-from here v = v
  Reach-from (then_ r st) v = Step-IsCounted st (Reach-from r v)

  abbrev pub no_users : Users M
  no_users = record { cache = []; held = [] }

  held_found :
      (o : Option (Entry M)) (n : ℕ)
      → refs o ≡ n
      → 0 < n
      → (e : Entry M) × (o ≡ some e) × (e.refcount ≡ n)
  held_found none n r h = absurd (omega (arith, r))
  held_found (some e) n r h = (e, refl, r)

  -- From an empty cache on, in any interleaving of hits, loads and releases by users that release only
  -- what they hold: a model that somebody holds is in the cache, and its reference count is the number
  -- of those who hold it.
  pub held_is_cached :
      {u : Users M} (k : Key)
      → Reach no_users u
      → 0 < holders k u.held
      → (e : Entry M) × (find u.cache k ≡ some e) × (e.refcount ≡ holders k u.held)
  held_is_cached {u} k r h =
      let v = Reach-from r (record { keyed = tt; count = λ j. unfold find in refl }) in
      held_found (find u.cache k) (holders k u.held) (v.count k) h
