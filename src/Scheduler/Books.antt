-- ===== src/Scheduler/Books.antt =====
-- The counts of running jobs of src/dubbing_pipeline/runtime/scheduler.py agree with its table of
-- running jobs, as long as each job is taken up once and done once.
use mathlib.Core.Path.{subst}
use mathlib.Core.Option.{none-ne-some, some-injective}
use dubbing_pipeline.Base.{
  ℕ, suc, ◌+◌, ◌-◌, ◌≡◌, refl, sym, ap, [], ◌∷◌, arith, Dict, Bool-cases, Option, none, some,
  if◌then◌else◌, inl, inr, put, get, pop, Text, length, text_eq, IsDict, put-IsDict, pop-IsDict,
  pop_absent, text_eq_sound,
}
use dubbing_pipeline.Scheduler.Modes.{
  ModeKey, Counts, count_at, mode_key, set_count, key_eq, high, medium, low,
}
use dubbing_pipeline.Scheduler.Heap.{JobRecord}
use dubbing_pipeline.Scheduler.State.{Scheduler, Settings, init}
use dubbing_pipeline.Scheduler.Ops.{on_job_done, release_mode}
use dubbing_pipeline.Scheduler.Dispatch.{dispatched, dispatch}
use dubbing_pipeline.Scheduler.Invariant.{Inv}
use dubbing_pipeline.Scheduler.Takes.{dispatch_takes}

-- How many jobs of the table run in a mode.
abbrev pub in_mode : ModeKey → Dict ModeKey → ℕ
in_mode m [] = 0
in_mode m ((k, n) ∷ d) = let rest = in_mode m d in if key_eq n m then suc rest else rest

pub record Books (s : Scheduler) : Type 0 where
  pub unique : IsDict s.active_job_mode
  pub global_count : s.active_global ≡ length s.active_job_mode
  pub high_count : s.active_by_mode.at_high ≡ in_mode high s.active_job_mode
  pub medium_count : s.active_by_mode.at_medium ≡ in_mode medium s.active_job_mode
  pub low_count : s.active_by_mode.at_low ≡ in_mode low s.active_job_mode

length-put_absent :
    (d : Dict ModeKey) (k : Text) (m : ModeKey)
    → get d k ≡ none
    → length (put d k m) ≡ suc (length d)
unfolding get put
length-put_absent [] k m h = refl
length-put_absent ((j, n) ∷ d) k m h = ground (arith, length-put_absent d k m)

in_mode-put :
    (x : ModeKey) (d : Dict ModeKey) (k : Text) (m : ModeKey)
    → get d k ≡ none
    → in_mode x (put d k m) ≡ in_mode x d + (if key_eq m x then 1 else 0)
unfolding get put
in_mode-put x [] k m h = ground arith
in_mode-put x ((j, n) ∷ d) k m h = ground (arith, in_mode-put x d k m)

pub length-pop_present :
    (d : Dict ModeKey) (k : Text) (m : ModeKey)
    → IsDict d
    → get d k ≡ some m
    → suc (length (pop d k)) ≡ length d
unfolding get pop
length-pop_present [] k m u h = absurd (none-ne-some _ h)
length-pop_present ((j, n) ∷ d) k m u h = elim (Bool-cases (text_eq j k)) [
  | inl e ↦ rw (e, pop_absent d k (subst (λ t. get d t ≡ none) (text_eq_sound j k e) u.0))
  | inr e ↦ rw e (ap suc (length-pop_present d k m u.1 (rw e at h)))
]

pub in_mode-pop :
    (x : ModeKey) (d : Dict ModeKey) (k : Text) (m : ModeKey)
    → IsDict d
    → get d k ≡ some m
    → in_mode x (pop d k) + (if key_eq m x then 1 else 0) ≡ in_mode x d
unfolding get pop
in_mode-pop x [] k m u h = absurd (none-ne-some _ h)
in_mode-pop x ((j, n) ∷ d) k m u h = elim (Bool-cases (text_eq j k)) [
  | inl e ↦
      let same : n ≡ m = some-injective _ _ (rw e at h) in
      rw (e, pop_absent d k (subst (λ t. get d t ≡ none) (text_eq_sound j k e) u.0))
        (ground (arith, same))
  | inr e ↦ ground (arith, in_mode-pop x d k m u.1, e)
]

pub init-Books : (c : Settings) → Books (init c)
unfolding init
init-Books c = record {
  unique = tt;
  global_count = refl;
  high_count = refl;
  medium_count = refl;
  low_count = refl;
}

release-Books :
    (o : Option ModeKey) (s : Scheduler) (id : Text) (m : ModeKey)
    → o ≡ some m
    → get s.active_job_mode id ≡ some m
    → Books s
    → Books (
        release_mode o (record s {
          active_global = s.active_global - 1;
          active_job_mode = pop s.active_job_mode id;
        }))
release-Books none s id m e h v = absurd (none-ne-some _ e)
release-Books (some k) s id m e h v = record {
  unique = pop-IsDict s.active_job_mode id v.unique;
  global_count =
      omega (arith, length-pop_present s.active_job_mode id m v.unique h, v.global_count);
  high_count = ground (arith, e, in_mode-pop high s.active_job_mode id m v.unique h);
  medium_count = ground (arith, e, in_mode-pop medium s.active_job_mode id m v.unique h);
  low_count = ground (arith, e, in_mode-pop low s.active_job_mode id m v.unique h);
}

-- Done for a job in the table: the table and the counts lose exactly that job.
pub on_job_done-Books :
    (s : Scheduler) (id : Text) {m : ModeKey}
    → get s.active_job_mode id ≡ some m
    → Books s
    → Books (on_job_done s id)
unfolding on_job_done
on_job_done-Books s id {m} h v = release-Books (get s.active_job_mode id) s id m h h v

count_one :
    (c : Counts) (m x : ModeKey) {n : ℕ}
    → count_at c x ≡ n
    → count_at (set_count c m (count_at c m + 1)) x ≡ n + (if key_eq m x then 1 else 0)
count_one c m x e = ground arith

-- A round that takes a job which is not in the table.
pub dispatch-Books :
    (now : ℕ) (s : Scheduler) {rec : JobRecord} {t : Scheduler}
    → Inv s
    → dispatch now s ≡ (dispatched rec, t)
    → get s.active_job_mode rec.job_id ≡ none
    → Books s
    → Books t
dispatch-Books now s {rec} {t} i e h v =
    let m = mode_key rec.mode in
    let w = dispatch_takes now s i e in
    let d = s.active_job_mode in
    record {
      unique = subst IsDict (sym w.noted) (put-IsDict d rec.job_id m v.unique);
      global_count =
          rw (w.noted, length-put_absent d rec.job_id m h, w.counted) (ap suc v.global_count);
      high_count =
          rw (w.noted, in_mode-put high d rec.job_id m h, w.counted_mode)
            (count_one s.active_by_mode m high v.high_count);
      medium_count =
          rw (w.noted, in_mode-put medium d rec.job_id m h, w.counted_mode)
            (count_one s.active_by_mode m medium v.medium_count);
      low_count =
          rw (w.noted, in_mode-put low d rec.job_id m h, w.counted_mode)
            (count_one s.active_by_mode m low v.low_count);
    }
