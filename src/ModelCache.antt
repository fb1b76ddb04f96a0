-- ===== src/ModelCache.antt =====
-- The model cache of src/dubbing_pipeline/runtime/model_manager.py: `ModelManager` with its entries in
-- the order of insertion. A loaded model is a value of any type; the clock is an argument. Loading
-- runs outside the lock, so that a call of `get_whisper` or `get_tts` is two steps, `get_cached` and,
-- where that finds nothing, `finish_load`, between which other calls may come.
pub mod Lookup
pub mod Evict
pub mod Holders
mod Examples
use dubbing_pipeline.Base.{
  ℕ, ◌+◌, ◌-◌, ◌≤◌, Bool, true, false, ◌&&◌, List, [], ◌∷◌, ◌++◌, Option, none, some, Text, text_eq,
  length, keep, not, leb, ltb, ◌==◌, if◌then◌else◌,
}

-- The key `(kind, model_name, device)`.
pub record Key : Type 0 where
  pub kind : Text
  pub model_name : Text
  pub device : Text

unfoldable pub key_eq : Key → Key → Bool
key_eq a b =
    text_eq a.kind b.kind && (text_eq a.model_name b.model_name && text_eq a.device b.device)

pub record Entry (M : Type 0) : Type 0 where
  pub key : Key
  pub model : M
  pub refcount : ℕ
  pub last_used : ℕ

module _ {M : Type 0} where
  -- `self._cache.get(key)`
  unfoldable pub find : List (Entry M) → Key → Option (Entry M)
  find [] k = none
  find (e ∷ c) k = if key_eq e.key k then some e else find c k

  -- An entry is changed in place.
  unfoldable pub update : List (Entry M) → Key → (Entry M → Entry M) → List (Entry M)
  update [] k f = []
  update (e ∷ c) k f = if key_eq e.key k then f e ∷ c else e ∷ update c k f

  -- `self._cache.pop(key, None)`
  unfoldable pub remove : List (Entry M) → Key → List (Entry M)
  remove [] k = []
  remove (e ∷ c) k = if key_eq e.key k then c else e ∷ remove c k

  -- `sorted(..., key=last_used)`, which is stable
  unfoldable pub insert_by_use : Entry M → List (Entry M) → List (Entry M)
  insert_by_use e [] = e ∷ []
  insert_by_use e (x ∷ xs) =
      if leb e.last_used x.last_used then e ∷ x ∷ xs else x ∷ insert_by_use e xs

  unfoldable pub sort_by_use : List (Entry M) → List (Entry M)
  sort_by_use [] = []
  sort_by_use (e ∷ xs) = insert_by_use e (sort_by_use xs)

  abbrev pub is_idle : Entry M → Bool
  is_idle e = e.refcount == 0

  -- The loop over the victims.
  unfoldable pub evict : ℕ → List (Entry M) → List (Entry M) → List (Entry M)
  evict max_n [] c = c
  evict max_n (v ∷ victims) c =
      let rest = evict max_n victims (remove c v.key) in if ltb max_n (length c) then rest else c

  -- `_evict_if_needed`
  unfoldable pub evict_if_needed : ℕ → List (Entry M) → List (Entry M)
  evict_if_needed max_n c =
      if leb (length c) max_n then c else evict max_n (sort_by_use (keep is_idle c)) c

  -- One more user, now.
  abbrev pub take_up : ℕ → Entry M → Entry M
  take_up now e = record e { refcount = e.refcount + 1; last_used = now }

  abbrev pub use_found : ℕ → Key → List (Entry M) → Option (Entry M) → Option M × List (Entry M)
  use_found now k c none = (none, c)
  use_found now k c (some e) = (some e.model, update c k (take_up now))

  -- The first half of `get_whisper` and `get_tts`: a hit.
  unfoldable pub get_cached : ℕ → Key → List (Entry M) → Option M × List (Entry M)
  get_cached now k c = use_found now k c (find c k)

  abbrev pub load_found : ℕ → ℕ → Key → M → List (Entry M) → Option (Entry M) → M × List (Entry M)
  load_found max_n now k m c (some e) = (e.model, update c k (take_up now))
  load_found max_n now k m c none = (
    m,
    evict_if_needed max_n (c ++ record { key = k; model = m; refcount = 1; last_used = now } ∷ []),
  )

  -- The second half, with the model that was loaded.
  unfoldable pub finish_load : ℕ → ℕ → Key → M → List (Entry M) → M × List (Entry M)
  finish_load max_n now k m c = load_found max_n now k m c (find c k)

  abbrev pub let_go : ℕ → Entry M → Entry M
  let_go now e = record e { refcount = e.refcount - 1; last_used = now }

  abbrev pub release_found : ℕ → ℕ → Key → List (Entry M) → Option (Entry M) → List (Entry M)
  release_found max_n now k c none = c
  release_found max_n now k c (some e) = evict_if_needed max_n (update c k (let_go now))

  -- `release`
  unfoldable pub release : ℕ → ℕ → Key → List (Entry M) → List (Entry M)
  release max_n now k c = release_found max_n now k c (find c k)
