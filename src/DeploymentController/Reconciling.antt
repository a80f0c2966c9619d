-- ===== src/DeploymentController/Reconciling.antt =====
-- The rounds' results and `Reconcile` as a whole, from the inputs to the patch of the status
-- (internal/controller/dataplane/openstackdataplanedeployment_controller.go).
use openstack_operator.Prelude.{
  Bool, true, not, String, Option, none, some, List, [], ◌∷◌, if◌then◌else◌, is_empty, insert,
  Fetch, found, not_found, failed, Error,
}
use openstack_operator.Prelude.Control.{Flow, next, return, panicked, ◌>>=◌}
use openstack_operator.Conditions.{
  true_condition, false_condition, error_reason, severity_error, severity_warning,
  backoff_limit_exceeded, ConditionLib, has_unknown, ready_condition,
}
use openstack_operator.Version.{OpenStackVersion}
use openstack_operator.Nodesets.{NodeSet}
use openstack_operator.Services.{dedupe_services}
use openstack_operator.DeploymentController.Inputs.{
  Target, Hashes, DeploymentStatus, Cluster, deployment_ready, input_ready, init_conditions,
  list_node_sets, check_inputs,
}
use openstack_operator.DeploymentController.Rounds.{Round, first_round, deploy_node_sets}
use openstack_operator.DeploymentController.{
  DataPlaneDeployment, get_version, service_only, map_or_nil, is_terminal, all_services,
}

abbrev pub node_sets_of : {Mounts : Type 0} → List (Target Mounts) → List NodeSet
node_sets_of [] = []
node_sets_of (target ∷ targets) = target.node_set ∷ node_sets_of targets

module _ (lib : ConditionLib) {Summary : Type 0} where
  open lib use {Conditions, set, set_mirror, all_sub_condition_is_true, status, reason, severity}

  abbrev with_conditions :
      DeploymentStatus Conditions Summary → Conditions → DeploymentStatus Conditions Summary
  with_conditions s cs = record s { conditions = cs }

  -- `Reconcile` does nothing for a deployment that is done or has failed for good.
  unfoldable pub is_settled : DeploymentStatus Conditions Summary → Bool
  is_settled s =
      if s.deployed
      then true
      else is_terminal (reason deployment_ready s.conditions)
          (severity deployment_ready s.conditions)

  module _ {Mounts : Type 0} (cluster : Cluster Conditions Mounts Summary)
      (deployment : DataPlaneDeployment Conditions Summary) where
    -- The loop over services of setHashes, which stops at the first error.
    unfoldable pub hash_services : List String → Hashes → Hashes × Option Error
    hash_services [] hashes = (hashes, none)
    hash_services (name ∷ names) hashes =
        let (hashes, error) = cluster.deployment_hashes name hashes in
        let rest = hash_services names hashes in
        elim error [ none ↦ rest | some e ↦ (hashes, some e) ]

    -- The loop over the nodesets of setHashes.
    unfoldable pub hash_node_sets :
        List (Target Mounts)
        → DeploymentStatus Conditions Summary
        → DeploymentStatus Conditions Summary
    unfolding insert
    hash_node_sets [] s = s
    hash_node_sets (target ∷ targets) s =
        let (hashes, error) = cluster.ansible_vars_hashes target s.hashes in
        let t = record s {
          node_set_hashes = insert target.node_set.name target.config_hash s.node_set_hashes;
          hashes = hashes;
        } in
        let rest = hash_node_sets targets t in elim error [ none ↦ rest | some e ↦ t ]

    -- setHashes; its error is only logged.
    unfoldable pub set_hashes :
        List (Target Mounts)
        → DeploymentStatus Conditions Summary
        → DeploymentStatus Conditions Summary
    unfolding hash_services hash_node_sets all_services
    set_hashes targets s =
        let (hashes, error) =
          hash_services
            (if not (is_empty deployment.services_override)
              then deployment.services_override
              else all_services targets [])
            s.hashes in
        let t = record s { hashes = hashes } in
        elim error [ none ↦ hash_node_sets targets t | some e ↦ t ]

    -- `if haveError`
    unfoldable pub report_errors :
        Round Conditions Summary → Flow (DeploymentStatus Conditions Summary)
    report_errors r =
        let s = r.status in
        if r.backoff_limit_reached
        then return
            (with_conditions s (
              set (false_condition deployment_ready backoff_limit_exceeded severity_error)
                s.conditions))
            none
        else return
            (with_conditions s
              (set (false_condition deployment_ready error_reason severity_warning) s.conditions))
            (some (cluster.deployment_error r.errors))

    -- `instance.Status.Deployed = true`, and the version, if there is one
    unfoldable pub mark_deployed :
        Option (OpenStackVersion Conditions)
        → DeploymentStatus Conditions Summary
        → DeploymentStatus Conditions Summary
    mark_deployed version s = record s {
      conditions = set (true_condition deployment_ready) s.conditions;
      deployed = true;
      deployed_version = elim version [ none ↦ s.deployed_version | some v ↦ v.target_version ];
    }

    -- After the loop over the nodesets.
    unfoldable pub conclude :
        Option (OpenStackVersion Conditions)
        → List (Target Mounts)
        → Round Conditions Summary
        → Flow (DeploymentStatus Conditions Summary)
    unfolding report_errors set_hashes mark_deployed
    conclude version targets r =
        if not (is_empty r.errors)
        then report_errors r
        else if r.should_requeue
        then return r.status none
        else return (set_hashes targets (mark_deployed version r.status)) none

    abbrev pub finish :
        Option (OpenStackVersion Conditions)
        → List (Target Mounts)
        → Flow (Round Conditions Summary)
        → Flow (DeploymentStatus Conditions Summary)
    finish version targets (next r) = conclude version targets r
    finish version targets (return r e) = return r.status e
    finish version targets panicked = panicked

    -- With the services of each nodeset and the version.
    unfoldable pub run :
        List (Target Mounts)
        → List (String × List String)
        → Option (OpenStackVersion Conditions)
        → DeploymentStatus Conditions Summary
        → Flow (DeploymentStatus Conditions Summary)
    unfolding deploy_node_sets conclude
    run targets service_map version s =
        finish version targets
          (deploy_node_sets lib cluster version service_map targets (first_round s))

    unfoldable pub with_version :
        List (Target Mounts)
        → List (String × List String)
        → Fetch (OpenStackVersion Conditions)
        → DeploymentStatus Conditions Summary
        → Flow (DeploymentStatus Conditions Summary)
    unfolding run
    with_version targets service_map (found version) s = run targets service_map (some version) s
    with_version targets service_map not_found s = run targets service_map none s
    with_version targets service_map (failed e) s = return s (some e)

    -- With what DedupeServices returns.
    unfoldable pub with_services :
        List (Target Mounts)
        → Option (List (String × List String)) × Option Error
        → DeploymentStatus Conditions Summary
        → Flow (DeploymentStatus Conditions Summary)
    unfolding with_version get_version
    with_services targets (service_map, some e) s =
        return
          (with_conditions s
            (set (false_condition deployment_ready error_reason severity_error) s.conditions))
          (some e)
    with_services targets (service_map, none) s =
        with_version targets (map_or_nil service_map) (get_version cluster.versions) s

    -- The inputs are complete.
    unfoldable pub start :
        List (Target Mounts)
        → DeploymentStatus Conditions Summary
        → Flow (DeploymentStatus Conditions Summary)
    unfolding with_services dedupe_services
    start targets s =
        with_services targets
          (dedupe_services (λ name. service_only (cluster.service name)) (node_sets_of targets)
            deployment.services_override)
          (with_conditions s (set (true_condition input_ready) s.conditions))

    -- With what listNodeSets returns.
    unfoldable pub with_targets :
        DeploymentStatus Conditions Summary × Fetch (List (Target Mounts))
        → Flow (DeploymentStatus Conditions Summary)
    unfolding check_inputs start
    with_targets (s, not_found) = return s none
    with_targets (s, failed e) = return s (some e)
    with_targets (s, found targets) =
        check_inputs lib cluster deployment.services_override targets s >>= start targets

    -- The status that the rest starts from, once it is initialized.
    abbrev pub initial : DeploymentStatus Conditions Summary
    initial = record (init_conditions lib deployment.node_sets deployment.status) {
      observed_generation = deployment.generation;
    }

    -- `Reconcile` of a deployment that is not settled, up to the deferred function.
    unfoldable pub reconcile_found : Flow (DeploymentStatus Conditions Summary)
    unfolding init_conditions list_node_sets with_targets
    reconcile_found = with_targets (list_node_sets lib cluster deployment.node_sets initial)

  -- The deferred function: the condition `Ready` is computed from the others.
  unfoldable pub deferred :
      DeploymentStatus Conditions Summary → DeploymentStatus Conditions Summary
  deferred s =
      if all_sub_condition_is_true s.conditions
      then with_conditions s (set (true_condition ready_condition) s.conditions)
      else if has_unknown (status ready_condition s.conditions)
      then with_conditions s (set_mirror ready_condition s.conditions)
      else s

  -- The status as it is patched, and the error that is returned: an error of the patch takes the
  -- place of the other.
  unfoldable pub patched :
      (DeploymentStatus Conditions Summary → Option Error)
      → Flow (DeploymentStatus Conditions Summary)
      → Flow (DeploymentStatus Conditions Summary)
  unfolding deferred
  patched patch (next s) = return (deferred s) (patch (deferred s))
  patched patch (return s e) =
      return (deferred s) (elim (patch (deferred s)) [ none ↦ e | some failure ↦ some failure ])
  patched patch panicked = panicked

  -- `Reconcile` of a name that is valid; the first case of the result is that nothing is patched.
  unfoldable pub reconcile :
      {Mounts : Type 0}
      → Cluster Conditions Mounts Summary
      → (DeploymentStatus Conditions Summary → Option Error)
      → Fetch (DataPlaneDeployment Conditions Summary)
      → Option Error × Option (Flow (DeploymentStatus Conditions Summary))
  unfolding is_settled reconcile_found patched
  reconcile cluster patch not_found = (none, none)
  reconcile cluster patch (failed e) = (some e, none)
  reconcile cluster patch (found deployment) =
      if is_settled deployment.status
      then (none, none)
      else (none, some (patched patch (reconcile_found cluster deployment)))
