-- ===== src/Access/Views.antt =====
-- Who passes the guards of src/dubbing_pipeline/api/access.py.
use mathlib.Core.Path.{subst}
use mathlib.Core.Bool.{true≢false}
use mathlib.Core.Option.{none-ne-some, some-injective}
use dubbing_pipeline.Base.{
  ℕ, ◌≡◌, ◌≢◌, ◌⊎◌, ◌↔◌, inl, inr, refl, sym, ap, ◌∙◌, arith, ◌||◌, Bool, true, false, List, [],
  ◌∷◌, Option, none, some, Text, text_eq, text_eq_iff, Dict, get, keep, Bool-cases, lower, strip,
  starts_with, after_dot,
}
use dubbing_pipeline.Jobs.Models.{Job, Visibility, private_, shared, normalize_visibility}
use dubbing_pipeline.Jobs.Store.{JobStore, find_job}
use dubbing_pipeline.Jobs.Policy.{admin, is_admin}
use dubbing_pipeline.Access.{
  User, HttpError, not_found, forbidden, Result, ok, err, guard, or_404, look_up, first_of_two,
  by_series, by_job, visibility_text, is_shared, can_view_by_visibility, can_view_job, LibraryItem,
  can_view_library_item, require_can_view_job, require_can_view_library_item, require_job_access,
  Upload, require_upload_access, require_library_access, filter_visible_jobs, ◌>>=◌, ◌>>◌,
}

-- The text of a visibility is read as that visibility.
pub normalize_visibility-visibility_text :
    (v : Visibility) → normalize_visibility (visibility_text v) ≡ v
unfolding normalize_visibility lower strip starts_with after_dot text_eq
normalize_visibility-visibility_text private_ = refl
normalize_visibility-visibility_text shared = refl

-- A job is seen by admins, by its owner, and where shared reading is allowed by all if it is shared.
abbrev pub MayView : User → Text → Bool → Bool → Type 0
MayView user owner_id allow_shared_read is_shared_ =
    (user.role ≡ admin) ⊎ (owner_id ≡ user.id) ⊎ (allow_shared_read ≡ true) × (is_shared_ ≡ true)

can_view_by_visibility_iff :
    (user : User) (owner_id visibility : Text) (allow : Bool)
    → (can_view_by_visibility user owner_id visibility allow ≡ true)
      ↔ MayView user owner_id allow (is_shared (normalize_visibility visibility))
unfolding can_view_by_visibility
can_view_by_visibility_iff user owner_id visibility allow =
    ground (arith, text_eq_iff owner_id user.id)

can_view_job_iff :
    (user : User) (job : Job) (allow : Bool)
    → (can_view_job user job allow ≡ true)
      ↔ MayView user job.owner_id allow (is_shared job.visibility)
unfolding can_view_job
can_view_job_iff user job allow =
    let base =
      can_view_by_visibility_iff user job.owner_id (visibility_text job.visibility) allow in
    rw (normalize_visibility-visibility_text job.visibility) at base

-- How a guard answers: 404 where there is nothing, the thing itself where the user may see it, and 403
-- otherwise.
abbrev pub Guarded : {A : Type 0} → (A → Type 0) → Option A → Result A → Type 0
Guarded {A} May found r =
    ((r ≡ err not_found) ↔ (found ≡ none))
    × ((a : A) → (r ≡ ok a) ↔ ((found ≡ some a) × May a))
    × ((r ≡ err forbidden) ↔ ((a : A) × (found ≡ some a) × (¬ May a)))

ok-ne-err : {A : Type 0} (a : A) (x : HttpError) → ok a ≢ err x
ok-ne-err a x e = cc

not_found-ne-forbidden : (A : Type 0) → ◌≢◌ {A = Result A} (err not_found) (err forbidden)
not_found-ne-forbidden A e = cc

ok-injective : {A : Type 0} (a b : A) → ok a ≡ ok b → a ≡ b
ok-injective a b e = cc

passed : {A : Type 0} (May : A → Type 0) (x : A) → May x → Guarded May (some x) (ok x)
passed {A} May x m = (
  ((λ e. absurd (ok-ne-err x not_found e)), (λ e. absurd (none-ne-some x (sym e)))),
  (λ a. (
    (λ e. let p = ok-injective x a e in (ap some p, subst May p m)),
    (λ p. ap ok (some-injective x a p.0)),
  )),
  (
    (λ e. absurd (ok-ne-err x forbidden e)),
    (λ p. absurd (p.2 (subst May (some-injective x p.0 p.1) m))),
  ),
)

held_back :
    {A : Type 0} (May : A → Type 0) (x : A) → (¬ May x) → Guarded May (some x) (err forbidden)
held_back {A} May x m = (
  ((λ e. absurd (not_found-ne-forbidden A (sym e))), (λ e. absurd (none-ne-some x (sym e)))),
  (λ a. (
    (λ e. absurd (ok-ne-err a forbidden (sym e))),
    (λ p. absurd (m (subst May (sym (some-injective x a p.0)) p.1))),
  )),
  ((λ _. (x, refl, m)), (λ _. refl)),
)

guarded :
    {A : Type 0} (May : A → Type 0) (test : A → Bool) (o : Option A)
    → ((a : A) → (test a ≡ true) ↔ May a)
    → Guarded May o (or_404 o >>= λ a. guard (test a) forbidden >> ok a)
guarded {A} May test none iff = (
  ((λ _. refl), (λ _. refl)),
  (λ a. ((λ e. absurd (ok-ne-err a not_found (sym e))), (λ p. absurd (none-ne-some a p.0)))),
  ((λ e. absurd (not_found-ne-forbidden A e)), (λ p. absurd (none-ne-some p.0 p.1))),
)
guarded May test (some x) iff = elim (Bool-cases (test x)) [
  | inl b ↦ rw b (passed May x ((iff x).0 b))
  | inr b ↦ rw b (held_back May x (λ m. true≢false (sym ((iff x).1 m) ∙ b)))
]

-- Access to a job: 404 exactly if the job is neither given nor stored, the job exactly if the user is an
-- admin or its owner, or it is shared where shared reading is allowed, and 403 exactly otherwise.
pub require_job_access_lem :
    (store : JobStore) (user : User) (job_id : Option Text) (job : Option Job) (allow : Bool)
    → Guarded
        (λ j. MayView user j.owner_id allow (is_shared j.visibility))
        (first_of_two job (look_up (find_job store) job_id))
        (require_job_access store user job_id job allow)
unfolding require_job_access require_can_view_job
require_job_access_lem store user job_id job allow =
    guarded _ (λ j. can_view_job user j allow) (first_of_two job (look_up (find_job store) job_id))
      (λ j. can_view_job_iff user j allow)

-- Access to an upload: 404 exactly if it is neither given nor stored, the upload exactly if the user is
-- an admin or its owner, and 403 exactly otherwise.
pub require_upload_access_lem :
    (uploads : Dict Upload) (user : User) (upload_id : Option Text) (upload : Option Upload)
    → Guarded
        (λ u. (user.role ≡ admin) ⊎ (u.owner_id ≡ user.id))
        (first_of_two upload (look_up (get uploads) upload_id))
        (require_upload_access uploads user upload_id upload)
unfolding require_upload_access
require_upload_access_lem uploads user upload_id upload =
    guarded _ (λ u. is_admin user.role || text_eq u.owner_id user.id)
      (first_of_two upload (look_up (get uploads) upload_id)) (λ u. owner_iff u)
  where
    owner_iff :
        (u : Upload)
        → ((is_admin user.role || text_eq u.owner_id user.id) ≡ true)
          ↔ ((user.role ≡ admin) ⊎ (u.owner_id ≡ user.id))
    owner_iff u = ground (arith, text_eq_iff u.owner_id user.id)

-- Access to a library item, which is given, or found by its job, or by series, season and episode: 404
-- exactly if there is none, the item exactly if the user is an admin or its owner, or it is shared
-- where shared reading is allowed, and 403 exactly otherwise.
pub require_library_access_lem :
    (rows : List LibraryItem) (user : User) (slug : Text) (season episode : Option ℕ)
    → (job_id : Option Text) (item : Option LibraryItem) (allow : Bool)
    → Guarded
        (λ i. MayView user i.owner_user_id allow (is_shared (normalize_visibility i.visibility)))
        (first_of_two item (by_job rows job_id (by_series rows slug season episode)))
        (require_library_access rows user slug season episode job_id item allow)
unfolding require_library_access require_can_view_library_item can_view_library_item
require_library_access_lem rows user slug season episode job_id item allow =
    guarded _ (λ i. can_view_by_visibility user i.owner_user_id i.visibility allow)
      (first_of_two item (by_job rows job_id (by_series rows slug season episode)))
      (λ i. can_view_by_visibility_iff user i.owner_user_id i.visibility allow)

abbrev pub is_ok : {A : Type 0} → Result A → Bool
is_ok (ok a) = true
is_ok (err e) = false

-- A list that is filtered for a user holds exactly the jobs for which the user passes the guard, in
-- their order.
pub filter_visible_jobs_lem :
    (store : JobStore) (user : User) (jobs : List Job) (allow : Bool)
    → filter_visible_jobs user jobs allow
      ≡ keep (λ j. is_ok (require_job_access store user none (some j) allow)) jobs
unfolding filter_visible_jobs require_job_access require_can_view_job
filter_visible_jobs_lem store user [] allow = refl
filter_visible_jobs_lem store user (j ∷ jobs) allow =
    ground (arith, filter_visible_jobs_lem store user jobs allow)
