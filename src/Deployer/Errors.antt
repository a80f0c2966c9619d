-- ===== src/Deployer/Errors.antt =====
-- The errors of `ConditionalDeploy` (internal/dataplane/deployment.go), and what it leaves behind
-- with them.
use openstack_operator.Prelude.{
  true, false, ℕ, String, Option, none, some, ◌≡◌, inl, inr, refl, subst, arith, eq_refl,
  Bool-cases, ltb, Fetch, found, not_found, failed, Error,
}
use openstack_operator.Prelude.Control.{return, panicked}
use openstack_operator.Conditions.{
  job_reason, requested_reason, false_condition, is_false, ConditionLib, has_true, has_false,
  has_unknown, severity_info, severity_error,
}
use openstack_operator.Deployer.{
  DataPlaneService, Job, Api, Progress, get_ansible_execution, failed_reason, fail_job,
  judge_failures, judge_job, check_job, follow, after_start, conditional_deploy,
}

module _ (lib : ConditionLib) {Mounts Summary : Type 0} (api : Api Mounts Summary) (ready : String)
    (found_service : DataPlaneService) where
  open lib use {
    Conditions, set, status, reason, severity, status-set, reason-set_self, severity-set_self,
  }

  abbrev State : Type 0
  State = Progress Conditions Mounts Summary

  -- A job that ran out of its retries, without a success, and what its failure leaves behind.
  pub record IsExhausted (job : Job) (q : State) (e : Error) : Type 0 where
    pub no_success : ltb 0 job.succeeded ≡ false
    pub limit : ℕ
    pub limit_set : job.backoff_limit ≡ some limit
    pub over_limit : ltb limit job.failures ≡ true
    pub error : e ≡ api.job_error job (job_reason (failed_reason "" job.conditions))
    pub is_down : status ready q.conditions ≡ some is_false
    pub its_reason : reason ready q.conditions ≡ some (job_reason (failed_reason "" job.conditions))
    pub its_severity : severity ready q.conditions ≡ some severity_error

  -- Why `ConditionalDeploy` returns an error: the job could not be started, or it ran out of retries.
  pub data Cause (p q : State) (e : Error) : Type 0 where
    not_started :
        api.deploy_service found_service p.runner_image p.extra_mounts ≡ some e
        → q ≡ p
        → Cause p q e
    exhausted :
        (job : Job)
        → get_ansible_execution (api.jobs found_service) ≡ found job
        → IsExhausted job q e
        → Cause p q e

  judge_failures-return :
      (cs : Conditions) (job : Job) (p : State) (limit : Option ℕ) {q : State} {e : Error}
      → ltb 0 job.succeeded ≡ false
      → job.backoff_limit ≡ limit
      → judge_failures lib api ready cs job p limit ≡ return q (some e)
      → IsExhausted job q e
  unfolding judge_failures fail_job
  judge_failures-return cs job p none n l h = absurd (cc h)
  judge_failures-return cs job p (some limit) {q} {e} n l h =
      elim (Bool-cases (ltb limit job.failures)) [
        | inl over ↦
            let c =
              false_condition ready (job_reason (failed_reason "" job.conditions)) severity_error in
            let shape : set c cs ≡ q.conditions = ground arith in
            record {
              no_success = n;
              limit = limit;
              limit_set = l;
              over_limit = over;
              error = ground arith;
              is_down =
                  subst (λ x. status ready x ≡ some is_false) shape
                    (ground (arith, status-set c ready cs, eq_refl ready));
              its_reason =
                  subst (λ x. reason ready x ≡ some (job_reason (failed_reason "" job.conditions)))
                    shape (reason-set_self c cs);
              its_severity =
                  subst (λ x. severity ready x ≡ some severity_error) shape
                    (severity-set_self c cs);
            }
        | inr under ↦ absurd (ground arith)
      ]

  judge_job-return :
      (cs : Conditions) (job : Job) (p : State) {q : State} {e : Error}
      → judge_job lib api ready cs job p ≡ return q (some e)
      → IsExhausted job q e
  unfolding judge_job
  judge_job-return cs job p {q} {e} h = elim (Bool-cases (ltb 0 job.succeeded)) [
    | inl up ↦ absurd (ground arith)
    | inr down ↦
        judge_failures-return cs job p job.backoff_limit down refl (rw (down, judge_job) at h)
  ]

  check_job-return :
      (cs : Conditions) (p : State) (fetched : Fetch Job) {q : State} {e : Error}
      → check_job lib api ready cs p fetched ≡ return q (some e)
      → (job : Job) × (fetched ≡ found job) × IsExhausted job q e
  unfolding check_job
  check_job-return cs p (found job) h = (job, refl, judge_job-return cs job p h)
  check_job-return cs p not_found h = absurd (cc h)
  check_job-return cs p (failed error) h = absurd (cc h)

  follow-return :
      (cs : Conditions) (p : State) {q : State} {e : Error}
      → follow lib api ready found_service cs p ≡ return q (some e)
      → (job : Job) × (get_ansible_execution (api.jobs found_service) ≡ found job)
        × IsExhausted job q e
  unfolding follow
  follow-return cs p h = elim (Bool-cases (has_false (status ready cs))) [
    | inl down ↦ check_job-return cs p _ (rw (down, follow) at h)
    | inr other ↦ absurd (ground arith)
  ]

  after_start-return :
      (p : State) (result : Option Error) {q : State} {e : Error}
      → api.deploy_service found_service p.runner_image p.extra_mounts ≡ result
      → after_start lib api ready found_service p result ≡ return q (some e)
      → Cause p q e
  unfolding after_start
  after_start-return p (some failure) started h = not_started (cc) (cc)
  after_start-return p none started h =
      let (job, its, exhaustion) = follow-return _ p h in exhausted job its exhaustion

  -- If `ConditionalDeploy` returns an error, then either `DeployService` gave that error and nothing
  -- has changed, or the service's only job has no success and more failures than its limit allows, and
  -- the ready condition is now False, of the severity Error and with the reason of the job's failure.
  pub conditional_deploy-Cause :
      (p : State) {q : State} {e : Error}
      → conditional_deploy lib api ready found_service p ≡ return q (some e)
      → Cause p q e
  unfolding conditional_deploy
  conditional_deploy-Cause p h = elim (Bool-cases (has_unknown (status ready p.conditions))) [
    | inl unknown ↦ after_start-return p _ refl (rw (unknown, conditional_deploy) at h)
    | inr known ↦
        let (job, its, exhaustion) =
          follow-return p.conditions p (rw (known, conditional_deploy) at h) in
        exhausted job its exhaustion
  ]

  follow-lost :
      (cs : Conditions) (p : State) {failure : Error}
      → get_ansible_execution (api.jobs found_service) ≡ failed failure
      → status ready cs ≡ some is_false
      → follow lib api ready found_service cs p ≡ panicked
  unfolding follow check_job
  follow-lost cs p lost down = rw (down) (rw (lost) refl)

  requested-is_false :
      (cs : Conditions)
      → status ready (set (false_condition ready requested_reason severity_info) cs) ≡ some is_false
  requested-is_false cs = ground (
    arith,
    status-set (false_condition ready requested_reason severity_info) ready cs,
    eq_refl ready,
  )

  -- Where the jobs of a service cannot be listed, or more than one is found, `ConditionalDeploy`
  -- dereferences nil, unless the ready condition is True or the service cannot be started.
  pub conditional_deploy-lost :
      (p : State) {failure : Error}
      → get_ansible_execution (api.jobs found_service) ≡ failed failure
      → api.deploy_service found_service p.runner_image p.extra_mounts ≡ none
      → has_true (status ready p.conditions) ≡ false
      → conditional_deploy lib api ready found_service p ≡ panicked
  unfolding conditional_deploy after_start
  conditional_deploy-lost p lost started down =
      elim (Bool-cases (has_unknown (status ready p.conditions))) [
        | inl unknown ↦
            rw (unknown) (rw (started) (follow-lost _ p lost (requested-is_false p.conditions)))
        | inr known ↦ rw (known) (follow-lost p.conditions p lost (ground arith))
      ]
