-- ===== src/Deployer/Backed.antt =====
-- A ready condition of a nodeset is True only on account of a job that succeeded (`Deploy` and
-- `ConditionalDeploy` of internal/dataplane/deployment.go).
use openstack_operator.Prelude.{
  ℕ, true, false, String, Option, none, some, List, [], ◌∷◌, ◌≡◌, inl, inr, refl, subst, arith,
  ◌==◌, eq_iff, Bool-cases, ltb, Outcome, ok, err, panic, Fetch, found, not_found, failed, Error,
}
use openstack_operator.Prelude.Control.{Everywhere, Everywhere->>=}
use openstack_operator.Conditions.{
  Condition, true_condition, false_condition, type_of, status_of, is_true, ConditionLib, has_true,
  has_false, has_unknown, requested_reason, error_reason, severity_info, severity_error,
}
use openstack_operator.Deployer.{
  DataPlaneService, Job, Api, Progress, get_ansible_execution, store_execution_summary, fail_job,
  judge_failures, judge_job, check_job, follow, after_start, conditional_deploy, give_up, proceed,
  run_service,
}
use openstack_operator.Deployer.Rounds.{deploy_round, deploy_loop, deploy}

-- A service with the ready condition `t` that has a job that succeeded.
pub record IsVouched {Mounts Summary : Type 0} (api : Api Mounts Summary) (t : String)
    : Type 0 where
  pub name : String
  pub service : DataPlaneService
  pub job : Job
  pub its_condition : api.ready_type name ≡ t
  pub is_found : api.service name ≡ found service
  pub its_job : get_ansible_execution (api.jobs service) ≡ found job
  pub succeeded : ltb 0 job.succeeded ≡ true

module _ (lib : ConditionLib) {Mounts Summary : Type 0} (api : Api Mounts Summary)
    (from : lib.Conditions) where
  open lib use {Conditions, set, status, kept, status-set, status-kept}

  -- Why a condition may be True: it was at the start, or a service with that ready condition has a
  -- job that succeeded.
  pub data IsBacked (t : String) : Type 0 where
    already : status t from ≡ some is_true → IsBacked t
    by_job : IsVouched api t → IsBacked t

  abbrev pub HasBacking : Conditions → Type 0
  HasBacking cs = (t : String) → status t cs ≡ some is_true → IsBacked t

  abbrev pub Sound : Progress Conditions Mounts Summary → Type 0
  Sound p = HasBacking p.conditions

  status-set_hit :
      (c : Condition) (t : String) (cs : Conditions)
      → type_of c == t ≡ true
      → status t (set c cs) ≡ some is_true
      → status_of c ≡ is_true
  status-set_hit c t cs e up = ground (arith, status-set c t cs)

  status-set_miss :
      (c : Condition) (t : String) (cs : Conditions)
      → type_of c == t ≡ false
      → status t (set c cs) ≡ some is_true
      → status t cs ≡ some is_true
  status-set_miss c t cs e up = ground (arith, status-set c t cs)

  set-HasBacking :
      (c : Condition) (cs : Conditions)
      → (status_of c ≡ is_true → IsBacked (type_of c))
      → HasBacking cs
      → HasBacking (set c cs)
  set-HasBacking c cs new old t up = elim (Bool-cases (type_of c == t)) [
    | inl e ↦ subst IsBacked ((eq_iff (type_of c) t).0 e) (new (status-set_hit c t cs e up))
    | inr e ↦ old t (status-set_miss c t cs e up)
  ]

  kept-HasBacking :
      (old new : Conditions) → HasBacking old → HasBacking new → HasBacking (kept old new)
  kept-HasBacking old new a b t up = elim (status-kept t old new up) [
    | inl h ↦ a t h
    | inr h ↦ b t h
  ]

  -- Setting a condition to False takes nothing away.
  set_false-HasBacking :
      (t : String) (r : _) (s : _) (cs : Conditions)
      → HasBacking cs
      → HasBacking (set (false_condition t r s) cs)
  set_false-HasBacking t r s cs h = set-HasBacking (false_condition t r s) cs (λ e. absurd (cc e)) h

  module _ (ready : String) (found_service : DataPlaneService) where
    summary-Sound :
        (fetched : Fetch Summary) (job : Job) (p : Progress Conditions Mounts Summary)
        → (store_execution_summary lib fetched job p).conditions ≡ p.conditions
    unfolding store_execution_summary
    summary-Sound (found s) job p = refl
    summary-Sound not_found job p = refl
    summary-Sound (failed e) job p = refl

    judge_failures-Sound :
        (cs : Conditions) (job : Job) (p : Progress Conditions Mounts Summary) (limit : Option ℕ)
        → HasBacking cs
        → Everywhere Sound (judge_failures lib api ready cs job p limit)
    unfolding judge_failures fail_job
    judge_failures-Sound cs job p none h = tt
    judge_failures-Sound cs job p (some limit) h = elim (Bool-cases (ltb limit job.failures)) [
      | inl e ↦ rw (e) (set_false-HasBacking ready _ severity_error cs h)
      | inr e ↦ rw (e) (set_false-HasBacking ready requested_reason severity_info cs h)
    ]

    -- What the job of the service has to do with its ready condition.
    abbrev Vouches : Type 0
    Vouches =
        (job : Job)
        → get_ansible_execution (api.jobs found_service) ≡ found job
        → ltb 0 job.succeeded ≡ true
        → IsBacked ready

    judge_job-Sound :
        (cs : Conditions) (job : Job) (p : Progress Conditions Mounts Summary)
        → (ltb 0 job.succeeded ≡ true → IsBacked ready)
        → HasBacking cs
        → Everywhere Sound (judge_job lib api ready cs job p)
    unfolding judge_job
    judge_job-Sound cs job p v h = elim (Bool-cases (ltb 0 job.succeeded)) [
      | inl e ↦ rw (e) (set-HasBacking (true_condition ready) cs (λ u. v e) h)
      | inr e ↦ rw (e) (judge_failures-Sound cs job p job.backoff_limit h)
    ]

    check_job-Sound :
        (cs : Conditions) (p : Progress Conditions Mounts Summary) (fetched : Fetch Job)
        → ((job : Job) → fetched ≡ found job → ltb 0 job.succeeded ≡ true → IsBacked ready)
        → Sound p
        → HasBacking cs
        → Everywhere Sound (check_job lib api ready cs p fetched)
    unfolding check_job
    check_job-Sound cs p (found job) v hp h = judge_job-Sound cs job p (v job refl) h
    check_job-Sound cs p not_found v hp h = kept-HasBacking p.conditions cs hp h
    check_job-Sound cs p (failed e) v hp h = tt

    follow-Sound :
        (cs : Conditions) (p : Progress Conditions Mounts Summary)
        → Vouches
        → Sound p
        → HasBacking cs
        → Everywhere Sound (follow lib api ready found_service cs p)
    unfolding follow
    follow-Sound cs p v hp h = elim (Bool-cases (has_false (status ready cs))) [
      | inl e ↦
          rw (e) (check_job-Sound cs p (get_ansible_execution (api.jobs found_service)) v hp h)
      | inr e ↦ rw (e) h
    ]

    after_start-Sound :
        (p : Progress Conditions Mounts Summary) (result : Option Error)
        → Vouches
        → Sound p
        → Everywhere Sound (after_start lib api ready found_service p result)
    unfolding after_start
    after_start-Sound p (some e) v hp = hp
    after_start-Sound p none v hp =
        follow-Sound _ p v hp
          (set_false-HasBacking ready requested_reason severity_info p.conditions hp)

    conditional_deploy-Sound :
        (p : Progress Conditions Mounts Summary)
        → Vouches
        → Sound p
        → Everywhere Sound (conditional_deploy lib api ready found_service p)
    unfolding conditional_deploy
    conditional_deploy-Sound p v hp = elim (Bool-cases (has_unknown (status ready p.conditions))) [
      | inl e ↦ rw (e) (after_start-Sound p _ v hp)
      | inr e ↦ rw (e) (follow-Sound p.conditions p v hp hp)
    ]

    proceed-Sound :
        (p : Progress Conditions Mounts Summary)
        → Sound p
        → Everywhere Sound (proceed lib api ready found_service p)
    unfolding proceed
    proceed-Sound p hp = elim (Bool-cases (has_true (status ready p.conditions))) [
      | inl e ↦ rw (e) hp
      | inr e ↦ rw (e) hp
    ]

    run_service-Sound :
        (p : Progress Conditions Mounts Summary) (mounts : Outcome Mounts)
        → Vouches
        → Sound p
        → Everywhere Sound (run_service lib api ready found_service p mounts)
    unfolding run_service give_up
    run_service-Sound p (ok mounts) v hp =
        Everywhere->>= Sound _ (proceed lib api ready found_service)
          (conditional_deploy-Sound (record p { extra_mounts = mounts }) v hp) proceed-Sound
    run_service-Sound p (err e) v hp =
        set_false-HasBacking ready error_reason severity_error p.conditions hp
    run_service-Sound p panic v hp = tt

  module _ (services : List String) (base : Mounts) where
    pub deploy_round-Sound :
        (name : String) (p : Progress Conditions Mounts Summary) (fetched : Fetch DataPlaneService)
        → api.service name ≡ fetched
        → Sound p
        → Everywhere Sound (deploy_round lib api services base name p fetched)
    unfolding deploy_round give_up
    deploy_round-Sound name p (found service) e hp =
        run_service-Sound (api.ready_type name) service _ _
          (λ job f s. by_job (record {
            name = name;
            service = service;
            job = job;
            its_condition = refl;
            is_found = e;
            its_job = f;
            succeeded = s;
          }))
          hp
    deploy_round-Sound name p not_found e hp =
        set_false-HasBacking _ error_reason severity_error p.conditions hp
    deploy_round-Sound name p (failed error) e hp =
        set_false-HasBacking _ error_reason severity_error p.conditions hp

    deploy_loop-Sound :
        (names : List String) (p : Progress Conditions Mounts Summary)
        → Sound p
        → Everywhere Sound (deploy_loop lib api services base names p)
    unfolding deploy_loop
    deploy_loop-Sound [] p hp = hp
    deploy_loop-Sound (name ∷ names) p hp =
        Everywhere->>= Sound _ (deploy_loop lib api services base names)
          (deploy_round-Sound name p (api.service name) refl hp) (deploy_loop-Sound names)

  -- Every condition that is True after `Deploy`, however it ended, was True before or stands for a
  -- service whose job succeeded.
  pub deploy-HasBacking :
      (services : List String) (p : Progress Conditions Mounts Summary)
      → p.conditions ≡ from
      → Everywhere (λ q. HasBacking q.conditions) (deploy lib api services p)
  unfolding deploy
  deploy-HasBacking services p e =
      deploy_loop-Sound services p.extra_mounts services p
        (λ t up. already (subst (λ cs. status t cs ≡ some is_true) e up))
