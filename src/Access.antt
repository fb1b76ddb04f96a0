-- ===== src/Access.antt =====
-- Who may see what: src/dubbing_pipeline/security/visibility.py, the guards of
-- src/dubbing_pipeline/api/access.py and the sharing rules of src/dubbing_pipeline/security/policy.py.
-- An `HTTPException` is an error value.
pub mod Views
mod Examples
use dubbing_pipeline.Base.{
  ℕ, Bool, true, false, not, ◌&&◌, ◌||◌, List, [], ◌∷◌, Option, none, some, Text, codes, text_eq,
  strip, lower, is_empty, Dict, get, keep, if◌then◌else◌, ◌==◌,
}
use dubbing_pipeline.Jobs.Models.{Job, Visibility, private_, shared, normalize_visibility}
use dubbing_pipeline.Jobs.Store.{JobStore, find_job}
use dubbing_pipeline.Jobs.Policy.{Role, is_admin}

pub record User : Type 0 where
  pub id : Text
  pub role : Role

pub data HttpError : Type 0 where
  not_found forbidden : HttpError

pub data Result (A : Type 0) : Type 0 where
  ok : A → Result A
  err : HttpError → Result A

infixl 5 ◌>>=◌ ◌>>◌
abbrev pub ◌>>=◌ : {A B : Type 0} → Result A → (A → Result B) → Result B
ok a >>= f = f a
err e >>= f = err e

abbrev pub ◌>>◌ : {B : Type 0} → Result (Unit {0}) → Result B → Result B
m >> k = m >>= λ _. k

abbrev pub guard : Bool → HttpError → Result (Unit {0})
guard true e = ok tt
guard false e = err e

-- `str(visibility)` of the enumeration
abbrev pub visibility_text : Visibility → Text
visibility_text private_ = codes "Visibility.private"
visibility_text shared = codes "Visibility.shared"

abbrev pub is_shared : Visibility → Bool
is_shared shared = true
is_shared private_ = false

-- `_can_view_by_visibility`; `_normalize_vis` is `normalize_visibility`, which fails on no text
unfoldable pub can_view_by_visibility : User → Text → Text → Bool → Bool
can_view_by_visibility user owner_id visibility allow_shared_read =
    if is_admin user.role || text_eq owner_id user.id
    then true
    else if allow_shared_read
    then is_shared (normalize_visibility visibility)
    else false

unfoldable pub can_view_job : User → Job → Bool → Bool
can_view_job user job allow_shared_read =
    can_view_by_visibility user job.owner_id (visibility_text job.visibility) allow_shared_read

-- An artifact is seen as its job is.
unfoldable pub can_view_artifact : {A : Type 0} → User → A → Job → Bool → Bool
can_view_artifact user artifact job allow_shared_read = can_view_job user job allow_shared_read

-- A row of the table `job_library`.
pub record LibraryItem : Type 0 where
  pub job_id : Text
  pub series_slug : Text
  pub season_number : ℕ
  pub episode_number : ℕ
  pub owner_user_id : Text
  pub visibility : Text

unfoldable pub can_view_library_item : User → LibraryItem → Bool → Bool
can_view_library_item user item allow_shared_read =
    can_view_by_visibility user item.owner_user_id item.visibility allow_shared_read

unfoldable pub require_can_view_job : User → Job → Bool → Result (Unit {0})
require_can_view_job user job allow_shared_read =
    guard (can_view_job user job allow_shared_read) forbidden

unfoldable pub require_can_view_artifact : {A : Type 0} → User → A → Job → Bool → Result (Unit {0})
require_can_view_artifact user artifact job allow_shared_read =
    guard (can_view_artifact user artifact job allow_shared_read) forbidden

unfoldable pub require_can_view_library_item : User → LibraryItem → Bool → Result (Unit {0})
require_can_view_library_item user item allow_shared_read =
    guard (can_view_library_item user item allow_shared_read) forbidden

abbrev pub or_404 : {A : Type 0} → Option A → Result A
or_404 none = err not_found
or_404 (some a) = ok a

-- `not job_id`, and the lookup
abbrev pub look_up : {A : Type 0} → (Text → Option A) → Option Text → Option A
look_up find none = none
look_up find (some id) = if is_empty id then none else find id

abbrev pub first_of_two : {A : Type 0} → Option A → Option A → Option A
first_of_two (some a) o = some a
first_of_two none o = o

-- `require_job_access`: a job that is given is not looked up
unfoldable pub require_job_access : JobStore → User → Option Text → Option Job → Bool → Result Job
require_job_access store user job_id job allow_shared_read = do
  found ← or_404 (first_of_two job (look_up (find_job store) job_id))
  require_can_view_job user found allow_shared_read
  ok found

pub record Upload : Type 0 where
  pub owner_id : Text

unfoldable pub require_upload_access :
    Dict Upload → User → Option Text → Option Upload → Result Upload
require_upload_access uploads user upload_id upload = do
  found ← or_404 (first_of_two upload (look_up (get uploads) upload_id))
  guard (is_admin user.role || text_eq found.owner_id user.id) forbidden
  ok found

-- `SELECT * FROM job_library WHERE … LIMIT 1`
pub select : (LibraryItem → Bool) → List LibraryItem → Option LibraryItem
select p [] = none
select p (r ∷ rows) = if p r then some r else select p rows

abbrev pub matches : Text → Option ℕ → Option ℕ → LibraryItem → Bool
matches slug (some season) (some episode) r =
    text_eq r.series_slug slug && (r.season_number == season && r.episode_number == episode)
matches slug (some season) none r = text_eq r.series_slug slug && r.season_number == season
matches slug none episode r = text_eq r.series_slug slug

abbrev pub by_series : List LibraryItem → Text → Option ℕ → Option ℕ → Option LibraryItem
by_series rows raw season episode =
    let slug = strip raw in
    if is_empty slug then none else select (matches slug season episode) rows

abbrev pub by_job : List LibraryItem → Option Text → Option LibraryItem → Option LibraryItem
by_job rows none o = o
by_job rows (some id) o = if is_empty id then o else select (λ r. text_eq r.job_id id) rows

-- `require_library_access`; `series_slug` is empty where it is not given
unfoldable pub require_library_access :
    List LibraryItem
    → User
    → Text
    → Option ℕ
    → Option ℕ
    → Option Text
    → Option LibraryItem
    → Bool
    → Result LibraryItem
unfolding select
require_library_access rows user slug season episode job_id item allow_shared_read = do
  found ← or_404 (first_of_two item (by_job rows job_id (by_series rows slug season episode)))
  require_can_view_library_item user found allow_shared_read
  ok found

-- `filter_visible_jobs`
unfoldable pub filter_visible_jobs : User → List Job → Bool → List Job
filter_visible_jobs user jobs allow_shared_read =
    keep (λ job. can_view_job user job allow_shared_read) jobs

-- `require_share_allowed`, with `_share_allowed`
unfoldable pub require_share_allowed : Bool → User → Text → Result (Unit {0})
require_share_allowed allow_shared_library user visibility_value =
    let vis = lower (strip visibility_value) in
    if (text_eq vis (codes "shared") || text_eq vis (codes "public"))
      && not (is_admin user.role || allow_shared_library)
    then err forbidden
    else ok tt
