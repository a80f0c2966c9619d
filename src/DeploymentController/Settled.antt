-- ===== src/DeploymentController/Settled.antt =====
-- When `Reconcile` of internal/controller/dataplane/openstackdataplanedeployment_controller.go stops
-- for good, and when it does not.
use openstack_operator.Prelude.{
  true, false, String, Option, none, some, List, [], ◌∷◌, ◌++◌, ◌≡◌, ◌⊎◌, inl, inr, refl, ◌∙◌,
  subst, ◌==◌, is_empty, arith, Bool-cases, eq_refl, found, Error,
}
use openstack_operator.Prelude.Control.{next, return}
use openstack_operator.Conditions.{
  Reason, true_condition, false_condition, severity_error, severity_warning, error_reason,
  backoff_limit_exceeded, reason_eq, ConditionLib, has_unknown, ready_condition,
}
use openstack_operator.Version.{OpenStackVersion}
use openstack_operator.Deployer.{Progress}
use openstack_operator.Deployer.Rounds.{deploy}
use openstack_operator.DeploymentController.{DataPlaneDeployment}
use openstack_operator.DeploymentController.Reconciling.{
  is_settled, report_errors, conclude, deferred, reconcile,
}
use openstack_operator.DeploymentController.Inputs.{
  Target, DeploymentStatus, Cluster, deployment_ready, node_set_deployment_ready,
}
use openstack_operator.DeploymentController.Rounds.{
  Round, services_for, mark_running, deployer_of, collect, mirrored, add_error, after_deploy,
  deploy_node_set,
}

module _ (lib : ConditionLib) where
  open lib use {
    Conditions, set, set_mirror, all_sub_condition_is_true, status, reason, severity,
    reason-set_self, reason-set_ne, severity-set_self, severity-set_ne, reason-set_mirror_ne,
    severity-set_mirror_ne,
  }

  abbrev EndedForGood : Conditions → Type 0
  EndedForGood cs =
      (reason deployment_ready cs ≡ some backoff_limit_exceeded)
      × (severity deployment_ready cs ≡ some severity_error)

  pub deferred-deployed :
      {Summary : Type 0} (s : DeploymentStatus Conditions Summary)
      → (deferred lib s).deployed ≡ s.deployed
  unfolding deferred
  deferred-deployed s = ground arith

  ready-ne : ready_condition == deployment_ready ≡ false
  ready-ne = ground arith

  -- The deferred function leaves the condition of the deployment as it is.
  deferred-EndedForGood :
      {Summary : Type 0} (s : DeploymentStatus Conditions Summary)
      → EndedForGood s.conditions
      → EndedForGood (deferred lib s).conditions
  unfolding deferred
  deferred-EndedForGood s (its_reason, its_severity) =
      elim (Bool-cases (all_sub_condition_is_true s.conditions)) [
        | inl all ↦ rw (all) (
          reason-set_ne (true_condition ready_condition) deployment_ready s.conditions ready-ne
              ∙ its_reason,
          severity-set_ne (true_condition ready_condition) deployment_ready s.conditions ready-ne
              ∙ its_severity,
        )
        | inr some_left ↦ elim (Bool-cases (has_unknown (status ready_condition s.conditions))) [
          | inl unknown ↦ rw (some_left) (
              rw (unknown) (
                reason-set_mirror_ne ready_condition deployment_ready s.conditions ready-ne
                    ∙ its_reason,
                severity-set_mirror_ne ready_condition deployment_ready s.conditions ready-ne
                    ∙ its_severity,
              ))
          | inr known ↦ rw (some_left) (rw (known) (its_reason, its_severity))
        ]
      ]

  is_settled-Deployed :
      {Summary : Type 0} (s : DeploymentStatus Conditions Summary)
      → s.deployed ≡ true
      → is_settled lib s ≡ true
  unfolding is_settled
  is_settled-Deployed s up = rw (up) refl

  is_settled-ended :
      {Summary : Type 0} (s : DeploymentStatus Conditions Summary)
      → EndedForGood s.conditions
      → is_settled lib s ≡ true
  unfolding is_settled
  is_settled-ended s (its_reason, its_severity) = elim (Bool-cases s.deployed) [
    | inl up ↦ rw (up) refl
    | inr down ↦ rw (down) (rw (its_reason) (rw (its_severity) refl))
  ]

  reason_eq_refl : reason_eq backoff_limit_exceeded backoff_limit_exceeded ≡ true
  reason_eq_refl = eq_refl "BackoffLimitExceeded"

  module _ {Mounts Summary : Type 0} (cluster : Cluster Conditions Mounts Summary)
      (deployment : DataPlaneDeployment Conditions Summary) where
    conclude-ended :
        (version : Option (OpenStackVersion Conditions)) (targets : List (Target Mounts))
        (r : Round Conditions Summary) {s : DeploymentStatus Conditions Summary} {e : Option Error}
        → is_empty r.errors ≡ false
        → r.backoff_limit_reached ≡ true
        → conclude lib cluster deployment version targets r ≡ return s e
        → EndedForGood s.conditions
    unfolding conclude report_errors
    conclude-ended version targets r {s} errors limit h =
        let c = false_condition deployment_ready backoff_limit_exceeded severity_error in
        let same : set c r.status.conditions ≡ s.conditions = ground arith in
        (
          subst (λ cs. reason deployment_ready cs ≡ some backoff_limit_exceeded) same
              (reason-set_self c r.status.conditions),
          subst (λ cs. severity deployment_ready cs ≡ some severity_error) same
              (severity-set_self c r.status.conditions),
        )

    -- Where a reconcile ends with `Deployed` set, or with errors of which the last is a job that ran
    -- out of retries, the next reconcile of what was stored does nothing, whatever has changed in the
    -- meantime.
    pub conclude-settled :
        (version : Option (OpenStackVersion Conditions)) (targets : List (Target Mounts))
        (r : Round Conditions Summary) {s : DeploymentStatus Conditions Summary} {e : Option Error}
        (later : Cluster Conditions Mounts Summary)
        (patch : DeploymentStatus Conditions Summary → Option Error)
        (changed : DataPlaneDeployment Conditions Summary)
        → conclude lib cluster deployment version targets r ≡ return s e
        → changed.status ≡ deferred lib s
        → (s.deployed ≡ true) ⊎ ((is_empty r.errors ≡ false) × (r.backoff_limit_reached ≡ true))
        → reconcile lib later patch (found changed) ≡ (none, none)
    unfolding reconcile
    conclude-settled version targets r {s} later patch changed h stored (inl up) =
        rw (stored) (rw (is_settled-Deployed (deferred lib s) (deferred-deployed s ∙ up)) refl)
    conclude-settled version targets r {s} later patch changed h stored (inr (errors, limit)) =
        rw (stored) (
          rw
            (is_settled-ended (deferred lib s)
              (deferred-EndedForGood s (conclude-ended version targets r errors limit h)))
            refl)

    is_empty-append :
        (errors : List (String × Error)) (last : String × Error)
        → is_empty (errors ++ last ∷ []) ≡ false
    is_empty-append [] last = refl
    is_empty-append (first ∷ errors) last = refl

    conclude-retries :
        (version : Option (OpenStackVersion Conditions)) (targets : List (Target Mounts))
        (r : Round Conditions Summary)
        → is_empty r.errors ≡ false
        → r.backoff_limit_reached ≡ false
        → (s : DeploymentStatus Conditions Summary) × (conclude lib cluster deployment version
              targets r
            ≡ return s (some (cluster.deployment_error r.errors)))
    unfolding conclude report_errors
    conclude-retries version targets r errors other = (
      record r.status {
        conditions =
            set (false_condition deployment_ready error_reason severity_warning)
              r.status.conditions;
      },
      rw (errors) (rw (other) refl),
    )

    -- A nodeset whose error is not an exhausted job takes back what an earlier nodeset has found: if it
    -- is the last to be deployed, the reconcile returns an error and is tried again, even where an
    -- earlier nodeset has reached its backoff limit.
    pub deploy_node_set-overrides :
        (version : Option (OpenStackVersion Conditions)) (targets : List (Target Mounts))
        (service_map : List (String × List String)) (target : Target Mounts)
        (r : Round Conditions Summary) {p : Progress Conditions Mounts Summary} {e : Error}
        {its_reason : Reason}
        → deploy lib
            (cluster.api version target)
            (services_for service_map target.node_set.name)
            (deployer_of lib target (mark_running lib r.status))
          ≡ return p (some e)
        → reason node_set_deployment_ready (mirrored lib p.conditions) ≡ some its_reason
        → reason_eq its_reason backoff_limit_exceeded ≡ false
        → (after : Round Conditions Summary) × (deploy_node_set lib cluster version service_map
              target r
            ≡ next after)
          × (s : DeploymentStatus Conditions Summary) × (conclude lib cluster deployment version
                targets after
              ≡ return s (some (cluster.deployment_error after.errors)))
    unfolding deploy_node_set after_deploy add_error
    deploy_node_set-overrides version targets service_map target r {p} {e} {its_reason} ended at
          other =
        let after : Round Conditions Summary = record {
          status = collect lib target p (mirrored lib p.conditions) (mark_running lib r.status);
          should_requeue = true;
          errors = r.errors ++ (target.node_set.name, e) ∷ [];
          backoff_limit_reached = reason_eq its_reason backoff_limit_exceeded;
        } in
        let (s, ends) =
          conclude-retries version targets after
            (is_empty-append r.errors (target.node_set.name, e)) other in
        (after, rw (ended) (rw (at) refl), s, ends)
