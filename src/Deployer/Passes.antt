-- ===== src/Deployer/Passes.antt =====
-- When `Deploy` and `ConditionalDeploy` (internal/dataplane/deployment.go) let a service pass.
use openstack_operator.Prelude.{
  true, String, Option, none, some, List, [], ◌∷◌, ◌≡◌, refl, sym, subst, arith, eq_refl, All, ltb,
  ok, found, not_found, failed, Fetch, Outcome, err, panic,
}
use openstack_operator.Prelude.Control.{Flow, next, ◌>>=◌, >>=-eq-next}
use openstack_operator.Conditions.{
  Status, requested_reason, true_condition, false_condition, is_true, is_false, is_unknown,
  ConditionLib, severity_info,
}
use openstack_operator.Deployer.{
  DataPlaneService, Job, Api, Progress, get_ansible_execution, store_execution_summary, judge_job,
  check_job, follow, after_start, with_conditions, conditional_deploy, record_images, proceed,
  run_service, give_up, runner_image_for,
}
use openstack_operator.Deployer.Rounds.{add_certs, deploy_round, deploy_loop, deploy}

module _ (lib : ConditionLib) {Mounts Summary : Type 0} (api : Api Mounts Summary) where
  open lib use {Conditions, set, status, status-set}

  abbrev State : Type 0
  State = Progress Conditions Mounts Summary

  -- A service that can be started and whose job has succeeded.
  pub record IsDone (services : List String) (base : Mounts) (name : String) : Type 0 where
    pub service : DataPlaneService
    pub is_found : api.service name ≡ found service
    pub mounts : Mounts
    pub mounted :
        add_certs lib api services service (api.add_service_extra_mounts service base) ≡ ok mounts
    pub starts : (image : String) → api.deploy_service service image mounts ≡ none
    pub job : Job
    pub its_job : get_ansible_execution (api.jobs service) ≡ found job
    pub succeeded : ltb 0 job.succeeded ≡ true

  module _ (ready : String) (found_service : DataPlaneService) where
    conditional_deploy-up :
        (p : State)
        → status ready p.conditions ≡ some is_true
        → conditional_deploy lib api ready found_service p ≡ next p
    unfolding conditional_deploy follow
    conditional_deploy-up p up = rw (up) refl

    conditional_deploy-down :
        (p : State)
        → status ready p.conditions ≡ some is_false
        → conditional_deploy lib api ready found_service p
          ≡ follow lib api ready found_service p.conditions p
    unfolding conditional_deploy follow
    conditional_deploy-down p down = rw (down) refl

    -- A handler that goes on, with the ready condition True.
    abbrev Passes : Flow State → Type 0
    Passes m = (q : State) × (m ≡ next q) × (status ready q.conditions ≡ some is_true)

    module _ (job : Job) (its_job : get_ansible_execution (api.jobs found_service) ≡ found job)
        (succeeded : ltb 0 job.succeeded ≡ true) where
      follow-Passes_down :
          (cs : Conditions) (p : State)
          → status ready cs ≡ some is_false
          → Passes (follow lib api ready found_service cs p)
      unfolding follow check_job judge_job
      follow-Passes_down cs p down = (
        with_conditions lib (store_execution_summary lib (api.summary job) job p)
            (set (true_condition ready) cs),
        rw (down) (rw (its_job) (rw (succeeded) refl)),
        ground (arith, status-set (true_condition ready) ready cs, eq_refl ready),
      )

      -- A service whose job has succeeded passes, whatever its ready condition was.
      pub conditional_deploy-Passes :
          (p : State)
          → api.deploy_service found_service p.runner_image p.extra_mounts ≡ none
          → Passes (conditional_deploy lib api ready found_service p)
      unfolding conditional_deploy after_start
      conditional_deploy-Passes p starts = go (status ready p.conditions) refl
        where
          requested : Conditions
          requested = set (false_condition ready requested_reason severity_info) p.conditions

          requested-down : status ready requested ≡ some is_false
          requested-down = ground (
            arith,
            status-set (false_condition ready requested_reason severity_info) ready p.conditions,
            eq_refl ready,
          )

          go :
              (s : Option Status)
              → status ready p.conditions ≡ s
              → Passes (conditional_deploy lib api ready found_service p)
          go none e = rw (e) (rw (starts) (follow-Passes_down requested p requested-down))
          go (some is_unknown) e =
              rw (e) (rw (starts) (follow-Passes_down requested p requested-down))
          go (some is_false) e =
              subst Passes (sym (conditional_deploy-down p e)) (follow-Passes_down p.conditions p e)
          go (some is_true) e = (p, conditional_deploy-up p e, e)

    proceed-pass :
        (p : State)
        → status ready p.conditions ≡ some is_true
        → (q : State) × (proceed lib api ready found_service p ≡ next q)
    unfolding proceed
    proceed-pass p up = (
      record p {
        container_images =
            record_images api.image_field found_service.container_image_fields p.container_images;
      },
      rw (up) refl,
    )

  >>=-pass :
      (m : Flow State) (f : State → Flow State) {s : State}
      → m ≡ next s
      → (q : State) × (f s ≡ next q)
      → (q : State) × ((m >>= f) ≡ next q)
  >>=-pass m f e (q, h) = (q, rw (e) h)

  module _ (services : List String) (base : Mounts) where
    deploy_round-pass :
        (name : String) (p : State)
        → IsDone services base name
        → (q : State) × (deploy_round lib api services base name p (api.service name) ≡ next q)
    unfolding deploy_round run_service
    deploy_round-pass name p d =
        let at_work : State = record p {
          runner_image = runner_image_for api.ansibleee_image d.service p.runner_image;
        } in
        let (s, first, up) =
          conditional_deploy-Passes (api.ready_type name) d.service d.job d.its_job d.succeeded
            (record at_work { extra_mounts = d.mounts }) (d.starts _) in
        let (q, rest) =
          >>=-pass _ (proceed lib api (api.ready_type name) d.service) first
            (proceed-pass (api.ready_type name) d.service s up) in
        (q, rw d.is_found (rw d.mounted rest))

    deploy_loop-pass :
        (names : List String) (p : State)
        → All (IsDone services base) names
        → (q : State) × (deploy_loop lib api services base names p ≡ next q)
    unfolding deploy_loop
    deploy_loop-pass [] p d = (p, refl)
    deploy_loop-pass (name ∷ names) p d =
        let (s, first) = deploy_round-pass name p d.0 in
        >>=-pass _ (deploy_loop lib api services base names) first (deploy_loop-pass names s d.1)

  -- Once every service can be started and has a job that succeeded, `Deploy` reports that the nodeset
  -- is done, whatever its conditions were.
  pub deploy-pass :
      (services : List String) (p : State)
      → All (IsDone services p.extra_mounts) services
      → (q : State) × (deploy lib api services p ≡ next q)
  unfolding deploy
  deploy-pass services p d = deploy_loop-pass services p.extra_mounts services p d

  deploy_round-skips :
      (services : List String) (base : Mounts) (name : String) (p : State)
      (service : DataPlaneService) (mounts : Mounts)
      → add_certs lib api services service (api.add_service_extra_mounts service base) ≡ ok mounts
      → status (api.ready_type name) p.conditions ≡ some is_true
      → deploy_round lib api services base name p (found service)
        ≡ next (record p {
          runner_image = runner_image_for api.ansibleee_image service p.runner_image;
          extra_mounts = mounts;
          container_images =
              record_images api.image_field service.container_image_fields p.container_images;
        })
  unfolding deploy_round run_service proceed
  deploy_round-skips services base name p service mounts mounted up =
      let at_work : State = record p {
        runner_image = runner_image_for api.ansibleee_image service p.runner_image;
        extra_mounts = mounts;
      } in
      rw (mounted)
        (rw (conditional_deploy-up (api.ready_type name) service at_work up) (rw (up) refl))

  proceed-up :
      (ready : String) (found_service : DataPlaneService) (p q : State)
      → proceed lib api ready found_service p ≡ next q
      → status ready q.conditions ≡ some is_true
  unfolding proceed
  proceed-up ready found_service p q h = ground arith

  run_service-up :
      (ready : String) (found_service : DataPlaneService) (p q : State) (mounts : Outcome Mounts)
      → run_service lib api ready found_service p mounts ≡ next q
      → status ready q.conditions ≡ some is_true
  unfolding run_service give_up
  run_service-up ready found_service p q (ok mounts) h =
      let (p', _, rest) =
        >>=-eq-next
          (conditional_deploy lib api ready found_service (record p { extra_mounts = mounts }))
          (proceed lib api ready found_service) h in
      proceed-up ready found_service p' q rest
  run_service-up ready found_service p q (err e) h = absurd (cc h)
  run_service-up ready found_service p q panic h = absurd (cc h)

  -- A round that goes on leaves the ready condition of its service True.
  deploy_round-up :
      (services : List String) (base : Mounts) (name : String) (p q : State)
      (fetched : Fetch DataPlaneService)
      → deploy_round lib api services base name p fetched ≡ next q
      → status (api.ready_type name) q.conditions ≡ some is_true
  unfolding deploy_round give_up
  deploy_round-up services base name p q (found service) h =
      run_service-up (api.ready_type name) service _ q _ h
  deploy_round-up services base name p q not_found h = absurd (cc h)
  deploy_round-up services base name p q (failed e) h = absurd (cc h)

  -- Of two services that have the same condition type, the second is passed over right after the
  -- round of the first has gone on: where its mounts can be made, then whatever its jobs are and
  -- whether or not it can be started, only the images that it uses are recorded.
  pub deploy_round-passed_over :
      (services : List String) (base : Mounts) (name other : String) (p q : State)
      (service : DataPlaneService) (mounts : Mounts)
      → api.ready_type name ≡ api.ready_type other
      → deploy_round lib api services base name p (api.service name) ≡ next q
      → add_certs lib api services service (api.add_service_extra_mounts service base) ≡ ok mounts
      → deploy_round lib api services base other q (found service)
        ≡ next (record q {
          runner_image = runner_image_for api.ansibleee_image service q.runner_image;
          extra_mounts = mounts;
          container_images =
              record_images api.image_field service.container_image_fields q.container_images;
        })
  deploy_round-passed_over services base name other p q service mounts same went_on mounted =
      deploy_round-skips services base other q service mounts mounted (
        subst (λ t. status t q.conditions ≡ some is_true) same
          (deploy_round-up services base name p q (api.service name) went_on))
