-- ===== src/Quotas/Kept.antt =====
-- What a submission leaves reserved in src/dubbing_pipeline/security/quotas.py, and how it is refused.
use dubbing_pipeline.Base.{
  ℕ, ◌+◌, ◌≤◌, ◌≡◌, refl, ap, ◌∙◌, arith, true, false, not, ◌&&◌, ◌||◌, none, Text, ◌==◌,
  if◌then◌else◌, Outcome, ok, err, text_eq, Bool-cases, text_eq_sound, codes, text_eq_refl, Dict,
  inl, inr, ltb,
}
use dubbing_pipeline.Jobs.Policy.{is_admin, is_high, requested, PolicyResult, evaluate_submission}
use dubbing_pipeline.Quotas.Local.{
  Reserved, amount_at, jobs_of_day, reserve_daily, release_daily, amount_at-lessen, amount_at-put,
}
use dubbing_pipeline.Quotas.Submission.{
  Request, Refusal, JobReservation, key_of, release, admin_bypass, daily_cap_of, answered_daily,
  reserve_daily_jobs, policy_of, judge, reserve_submit_jobs, name_error,
}

unfoldable Grants : Request → Reserved → Reserved × Outcome Refusal JobReservation → Type 0
Grants r q (after, err e) = after ≡ q
Grants r q (after, ok res) =
    (res.released ≡ false)
    × ((k : Text)
        → amount_at after.daily k
          ≡ (if text_eq (key_of r) k then amount_at q.daily k + res.count else amount_at q.daily k))
    × (res.has_release ≡ false → res.count ≡ 0)
    × (res.has_release ≡ true
        → jobs_of_day r.is_today r.store r.user_id + amount_at q.daily (key_of r) + res.count
          ≤ daily_cap_of r)

raised_at :
    (d : Dict ℕ) (key k : Text) (n : ℕ)
    → (if text_eq key k then amount_at d key + n else amount_at d k)
      ≡ (if text_eq key k then amount_at d k + n else amount_at d k)
raised_at d key k n = elim (Bool-cases (text_eq key k)) [
  | inl e ↦ rw e (ap (λ x. amount_at d x + n) (text_eq_sound key k e))
  | inr e ↦ rw e refl
]

given_back :
    (q after : Reserved) (key k : Text) (res : JobReservation)
    → res.released ≡ false
    → amount_at after.daily k
      ≡ (if text_eq key k then amount_at q.daily k + res.count else amount_at q.daily k)
    → (res.has_release ≡ false → res.count ≡ 0)
    → amount_at (release after key res none).0.daily k ≡ amount_at q.daily k
unfolding release release_daily
given_back q after key k res unreleased amounts unowned =
    ground (arith, unreleased, amounts, unowned, amount_at-lessen after.daily key k res.count)

answered_daily-Grants :
    (r : Request) (q : Reserved)
    → (daily_cap_of r == 0) ≡ false
    → let answer =
        reserve_daily q
          (key_of r)
          (jobs_of_day r.is_today r.store r.user_id)
          r.count
          (daily_cap_of r) in
      Grants r q (answered_daily r.count (daily_cap_of r) answer)
unfolding answered_daily reserve_daily Grants
answered_daily-Grants r q capped =
    let today = jobs_of_day r.is_today r.store r.user_id in
    let reserved = amount_at q.daily (key_of r) in
    elim (Bool-cases (ltb (daily_cap_of r) (today + reserved + r.count))) [
      | inl e ↦ rw (capped, e) refl
      | inr e ↦
          rw (capped, e)
            (
              refl,
              (λ k.
                  amount_at-put q.daily (key_of r) k (reserved + r.count)
                  ∙ raised_at q.daily (key_of r) k r.count),
              (λ no. absurd cc),
              (λ yes. ground (arith, e)),
            )
    ]

reserve_daily_jobs-Grants : (r : Request) (q : Reserved) → Grants r q (reserve_daily_jobs r q)
unfolding reserve_daily_jobs Grants
reserve_daily_jobs-Grants r q =
    elim (Bool-cases (admin_bypass r.role r.overrides || daily_cap_of r == 0)) [
      | inl e ↦ rw e (refl, (λ k. ground arith), (λ no. refl), (λ yes. absurd cc))
      | inr e ↦ rw e (answered_daily-Grants r q (ground (arith, e)))
    ]

judge-Grants :
    (r : Request) (q : Reserved) (p : PolicyResult)
    (answer : Reserved × Outcome Refusal JobReservation)
    → Grants r q answer
    → let (after, judged) = judge r p answer in
      ((e : Refusal) (k : Text) → judged ≡ err e → amount_at after.daily k ≡ amount_at q.daily k)
      × ((res : JobReservation)
          → judged ≡ ok res
          → (amount_at after.daily (key_of r) ≡ amount_at q.daily (key_of r) + res.count)
            × (res.has_release ≡ true
                → jobs_of_day r.is_today r.store r.user_id + amount_at after.daily (key_of r)
                  ≤ daily_cap_of r))
unfolding judge Grants release release_daily
judge-Grants r q p (after, err e) g =
    ((λ e2 k same. ap (λ x. amount_at x.daily k) g), (λ res same. absurd cc))
judge-Grants r q p (after, ok res) (unreleased, amounts, unowned, within) = elim (Bool-cases p.ok) [
  | inl e ↦ rw e (
    (λ e2 k same. absurd cc),
    (λ res2 same.
        let counts : res.count ≡ res2.count = cc in
        let flags : res.has_release ≡ res2.has_release = cc in
        let grown : amount_at after.daily (key_of r) ≡ amount_at q.daily (key_of r) + res.count =
          rw (amounts (key_of r), text_eq_refl (key_of r)) refl in
        (
          grown ∙ ap (λ n. amount_at q.daily (key_of r) + n) counts,
          λ yes. omega (arith, within (flags ∙ yes), grown),
        )),
  )
  | inr e ↦ rw e (
    (λ e2 k same. given_back q after (key_of r) k res unreleased (amounts k) unowned),
    (λ res2 same. absurd cc),
  )
]

-- Where the submission is refused, by the daily cap, by the policy or by the failing raise, what is
-- reserved is as before, for every user and day. Where it is accepted, what is reserved for the user
-- and the day has grown by the count of the reservation, and, if that has something to release, the
-- jobs of the day that the store counts and all that is reserved stay within the cap of the user.
pub reserve_submit_jobs_lem :
    (r : Request) (q : Reserved)
    → let (after, answer) = reserve_submit_jobs r q in
      ((e : Refusal) (k : Text) → answer ≡ err e → amount_at after.daily k ≡ amount_at q.daily k)
      × ((res : JobReservation)
          → answer ≡ ok res
          → (amount_at after.daily (key_of r) ≡ amount_at q.daily (key_of r) + res.count)
            × (res.has_release ≡ true
                → jobs_of_day r.is_today r.store r.user_id + amount_at after.daily (key_of r)
                  ≤ daily_cap_of r))
unfolding reserve_submit_jobs
reserve_submit_jobs_lem r q =
    judge-Grants r q (policy_of r) (reserve_daily_jobs r q) (reserve_daily_jobs-Grants r q)

policy_forbids :
    (r : Request)
    → is_high (requested (codes "medium") r.mode) ≡ true
    → r.settings.high_mode_admin_only ≡ true
    → is_admin r.role ≡ false
    → ((policy_of r).ok ≡ false) × ((policy_of r).status_code ≡ 403)
unfolding policy_of evaluate_submission
policy_forbids r high admins_only no_admin =
    let test : is_high (requested (codes "medium") r.mode)
          && (r.settings.high_mode_admin_only && not (is_admin r.role))
        ≡ true =
      ground (arith, high, admins_only, no_admin) in
    rw test (refl, refl)

judge_forbidden :
    (r : Request) (p : PolicyResult) (answer : Reserved × Outcome Refusal JobReservation)
    (res : JobReservation)
    → p.ok ≡ false
    → p.status_code ≡ 403
    → answer.1 ≡ ok res
    → (judge r p answer).1 ≡ err name_error
unfolding judge
judge_forbidden r p (after, ok res2) res refused forbidden e = rw (refused, forbidden) refl
judge_forbidden r p (after, err x) res refused forbidden e = absurd cc

-- A request for high mode by a user who is no admin, where that mode is kept for admins, ends with a
-- NameError in place of the status 403 of the policy, once the daily cap has let it pass.
pub high_refused_fails :
    (r : Request) (q : Reserved) (res : JobReservation)
    → is_high (requested (codes "medium") r.mode) ≡ true
    → r.settings.high_mode_admin_only ≡ true
    → is_admin r.role ≡ false
    → (reserve_daily_jobs r q).1 ≡ ok res
    → ((policy_of r).status_code ≡ 403) × ((reserve_submit_jobs r q).1 ≡ err name_error)
unfolding reserve_submit_jobs
high_refused_fails r q res high admins_only no_admin granted =
    let (refused, forbidden) = policy_forbids r high admins_only no_admin in
    (
      forbidden,
      judge_forbidden r (policy_of r) (reserve_daily_jobs r q) res refused forbidden granted,
    )
