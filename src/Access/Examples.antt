-- ===== src/Access/Examples.antt =====
-- Ann's private job, and Bob who asks for it.
use dubbing_pipeline.Base.{
  ◌≡◌, refl, true, false, List, [], ◌∷◌, none, some, codes, text_eq, Dict, get, lower, strip,
  starts_with, after_dot,
}
use dubbing_pipeline.Jobs.Models.{Job, Visibility, private_, absent, done, normalize_visibility}
use dubbing_pipeline.Jobs.Store.{JobStore, find_job}
use dubbing_pipeline.Jobs.Policy.{viewer}
use dubbing_pipeline.Access.{
  User, forbidden, err, look_up, first_of_two, is_shared, LibraryItem, Upload, require_job_access,
  require_can_view_job, can_view_job, can_view_by_visibility, require_share_allowed,
}
use dubbing_pipeline.Access.Views.{MayView, Guarded, require_job_access_lem}

abbrev bob : User
bob = record { id = codes "bob"; role = viewer }

abbrev job_of : Visibility → Job
job_of v = record {
  id = codes "j1";
  owner_id = codes "ann";
  duration_s = 0;
  mode = codes "low";
  device = codes "cpu";
  created_at = [];
  state = done;
  message = [];
  error = none;
  metadata = absent;
  visibility = v;
}

abbrev store : JobStore
store = (codes "j1", job_of private_) ∷ []

abbrev shelf : List LibraryItem
shelf =
    record {
      job_id = codes "j1";
      series_slug = codes "frieren";
      season_number = 1;
      episode_number = 3;
      owner_user_id = codes "ann";
      visibility = codes "Public";
    }
    ∷ []

abbrev uploads : Dict Upload
uploads = (codes "u1", record { owner_id = codes "bob" }) ∷ []

kept_private : require_job_access store bob (some (codes "j1")) none true ≡ err forbidden
unfolding require_job_access require_can_view_job can_view_job can_view_by_visibility find_job get
    text_eq normalize_visibility lower strip starts_with after_dot
kept_private = refl

share_refused : require_share_allowed false bob (codes " Public ") ≡ err forbidden
unfolding require_share_allowed text_eq lower strip
share_refused = refl

require_job_access_example :
    Guarded
      (λ j. MayView bob j.owner_id true (is_shared j.visibility))
      (first_of_two none (look_up (find_job store) (some (codes "j1"))))
      (require_job_access store bob (some (codes "j1")) none true)
require_job_access_example = require_job_access_lem store bob (some (codes "j1")) none true
