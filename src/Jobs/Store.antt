-- ===== src/Jobs/Store.antt =====
-- `get`, `update` and `list` of src/dubbing_pipeline/jobs/store_impl.py. The table of jobs is a dictionary;
-- the `updated_at` stamp, the library index and faults of the data base are not modelled.
use dubbing_pipeline.Base.{
  Option, none, some, ℕ, List, [], ◌∷◌, map, take, text_ltb, ◌≡◌, refl, arith, Text, Dict, get, put,
  get-put, text_eq, text_eq_iff, if◌then◌else◌,
}
use dubbing_pipeline.Jobs.Models.{Job}

abbrev pub JobStore : Type 0
JobStore = Dict Job

-- `JobStore.get`
unfoldable pub find_job : JobStore → Text → Option Job
find_job = get

write_back : JobStore → Text → (Job → Job) → Option Job → Option Job × JobStore
write_back s id fields none = (none, s)
write_back s id fields (some job) = (some (fields job), put s id (fields job))

-- `JobStore.update(id, **fields)`: `fields` says which fields the call overwrites.
unfoldable pub update_job : JobStore → Text → (Job → Job) → Option Job × JobStore
unfolding write_back find_job
update_job s id fields = write_back s id fields (find_job s id)

abbrev pub changed : (Job → Job) → Option Job → Option Job
changed fields none = none
changed fields (some job) = some (fields job)

-- An update touches the named job alone, and creates none.
pub find_job-update_job :
    (s : JobStore) (id k : Text) (fields : Job → Job)
    → find_job (update_job s id fields).1 k
      ≡ (if text_eq id k then changed fields (find_job s id) else find_job s k)
unfolding find_job update_job
find_job-update_job s id k fields = by_lookup (get s id) refl
  where
    by_lookup :
        (o : Option Job)
        → get s id ≡ o
        → get (write_back s id fields o).1 k ≡ (if text_eq id k then changed fields o else get s k)
    by_lookup none e = ground (arith, text_eq_iff id k)
    by_lookup (some job) e = get-put s id k (fields job)

-- `jobs.sort(key=created_at, reverse=True)`, which is stable
unfoldable pub insert_by_date : Job → List Job → List Job
insert_by_date j [] = j ∷ []
insert_by_date j (x ∷ xs) =
    let later = insert_by_date j xs in
    if text_ltb j.created_at x.created_at then x ∷ later else j ∷ x ∷ xs

unfoldable pub latest_first : List Job → List Job
latest_first [] = []
latest_first (j ∷ js) = insert_by_date j (latest_first js)

-- `JobStore.list(limit)`, without its filter by state
unfoldable pub list_jobs : JobStore → ℕ → List Job
list_jobs s limit = take limit (latest_first (map (λ e. e.1) s))
