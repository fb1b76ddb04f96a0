-- ===== src/ModelCache/Examples.antt =====
-- A cache of one model: a second load evicts the first, once it is idle.
use dubbing_pipeline.Base.{ℕ, ◌<◌, ◌≡◌, refl, arith, List, [], ◌∷◌, some, codes, text_eq}
use dubbing_pipeline.ModelCache.{
  Key, key_eq, Entry, find, update, remove, insert_by_use, sort_by_use, evict, evict_if_needed,
  finish_load, release,
}
use dubbing_pipeline.ModelCache.Lookup.{IsKeyed}
use dubbing_pipeline.ModelCache.Evict.Order.{Evicted, evict_if_needed-Evicted}
use dubbing_pipeline.ModelCache.Holders.{
  Users, drop_holder, loads, releases, Reach, here, then_, no_users, holders, held_is_cached,
}

abbrev large_v3 : Key
large_v3 = record { kind = codes "whisper"; model_name = codes "large-v3"; device = codes "cuda" }

abbrev xtts : Key
xtts = record { kind = codes "tts"; model_name = codes "xtts"; device = codes "cuda" }

abbrev entry_of : Key → ℕ → ℕ → Entry ℕ
entry_of k refs now = record { key = k; model = 7; refcount = refs; last_used = now }

abbrev both : List (Entry ℕ)
both = entry_of large_v3 0 20 ∷ entry_of xtts 0 10 ∷ []

-- The one used less recently goes.
oldest_goes : evict_if_needed 1 both ≡ entry_of large_v3 0 20 ∷ []
unfolding evict_if_needed evict sort_by_use insert_by_use remove key_eq text_eq
oldest_goes = refl

-- One that is used stays, even over the bound.
used_stays :
    evict_if_needed 0 (entry_of large_v3 1 20 ∷ entry_of xtts 0 10 ∷ [])
    ≡ entry_of large_v3 1 20 ∷ []
unfolding evict_if_needed evict sort_by_use insert_by_use remove key_eq text_eq
used_stays = refl

loaded_once : (finish_load 1 5 xtts 8 (finish_load 1 4 xtts 7 []).1).1 ≡ entry_of xtts 2 5 ∷ []
unfolding finish_load find update key_eq text_eq evict_if_needed
loaded_once = refl

released_last : release 0 9 xtts (entry_of xtts 1 5 ∷ []) ≡ []
unfolding release find update key_eq text_eq evict_if_needed evict sort_by_use insert_by_use remove
released_last = refl

both-IsKeyed : IsKeyed both
unfolding find key_eq text_eq
both-IsKeyed = (refl, (refl, tt))

evict_if_needed-Evicted_example : Evicted 1 both (evict_if_needed 1 both)
evict_if_needed-Evicted_example = evict_if_needed-Evicted 1 both both-IsKeyed

-- Two users load the same model, one of them gives it back, and a third loads another one.
abbrev loaded : Users ℕ
loaded = record { cache = (finish_load 1 4 xtts 7 []).1; held = xtts ∷ [] }

abbrev shared_by_two : Users ℕ
shared_by_two = record { cache = (finish_load 1 5 xtts 8 loaded.cache).1; held = xtts ∷ xtts ∷ [] }

abbrev one_left : Users ℕ
one_left = record { cache = release 1 6 xtts shared_by_two.cache; held = xtts ∷ [] }

one_left-Reach : Reach {M = ℕ} 1 (no_users 1) one_left
unfolding drop_holder key_eq text_eq
one_left-Reach =
    then_ (then_ (then_ here (loads xtts 4 7)) (loads xtts 5 8)) (releases xtts 6 (omega arith))

one_held : 0 < holders xtts one_left.held
unfolding key_eq text_eq
one_held = omega arith

held_is_cached_example :
    (e : Entry ℕ) × (find one_left.cache xtts ≡ some e) × (e.refcount ≡ holders xtts one_left.held)
held_is_cached_example = held_is_cached 1 xtts one_left-Reach one_held
