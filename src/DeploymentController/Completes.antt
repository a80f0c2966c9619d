-- ===== src/DeploymentController/Completes.antt =====
-- A deployment whose jobs have all succeeded is done within one reconcile
-- (internal/controller/dataplane/openstackdataplanedeployment_controller.go).
use openstack_operator.Prelude.{
  true, false, String, Option, none, some, List, [], ◌∷◌, ◌≡◌, refl, is_empty, All, Fetch, found,
  Error,
}
use openstack_operator.Prelude.Control.{Flow, next, return, panicked}
use openstack_operator.Conditions.{true_condition, ConditionLib}
use openstack_operator.Version.{OpenStackVersion}
use openstack_operator.Services.{dedupe_services}
use openstack_operator.Deployer.{Progress}
use openstack_operator.Deployer.Passes.{IsDone, deploy-pass}
use openstack_operator.DeploymentController.{
  DataPlaneDeployment, get_version, service_only, map_or_nil,
}
use openstack_operator.DeploymentController.Reconciling.{
  node_sets_of, hash_node_sets, set_hashes, mark_deployed, conclude, run, with_version,
  with_services, start, with_targets, initial, reconcile_found,
}
use openstack_operator.DeploymentController.Inputs.{
  Target, DeploymentStatus, Cluster, input_ready, list_node_sets, check_inputs,
}
use openstack_operator.DeploymentController.Rounds.{
  Round, first_round, services_for, mark_running, deployer_of, after_deploy, deploy_node_set,
  deploy_node_sets,
}
use openstack_operator.DeploymentController.Complete.{IsVersion, the_version, no_version}

module _ (lib : ConditionLib) {Mounts Summary : Type 0}
    (cluster : Cluster lib.Conditions Mounts Summary) where
  open lib use {Conditions, set}

  module _ (version : Option (OpenStackVersion Conditions))
      (service_map : List (String × List String)) where
    -- Each service of a nodeset can be started and has a job that succeeded.
    abbrev pub AllDone : Target Mounts → Type 0
    AllDone target =
        All
          (IsDone lib (cluster.api version target) (services_for service_map target.node_set.name)
            target.extra_mounts)
          (services_for service_map target.node_set.name)

    -- No nodeset has asked for a requeue or reported an error.
    abbrev pub IsQuiet : Round Conditions Summary → Type 0
    IsQuiet r = (r.should_requeue ≡ false) × (is_empty r.errors ≡ true)

    after_deploy-pass :
        (target : Target Mounts) (r : Round Conditions Summary)
        (m : Flow (Progress Conditions Mounts Summary))
        → (p : Progress Conditions Mounts Summary) × (m ≡ next p)
        → IsQuiet r
        → (after : Round Conditions Summary) × (after_deploy lib target r m ≡ next after)
          × IsQuiet after
    unfolding after_deploy
    after_deploy-pass target r (next q) passed quiet = (_, refl, quiet)
    after_deploy-pass target r (return q e) passed quiet = absurd (cc passed.1)
    after_deploy-pass target r panicked passed quiet = absurd (cc passed.1)

    deploy_node_set-pass :
        (target : Target Mounts) (r : Round Conditions Summary)
        → AllDone target
        → IsQuiet r
        → (after : Round Conditions Summary) × (deploy_node_set lib cluster version service_map
              target r
            ≡ next after)
          × IsQuiet after
    unfolding deploy_node_set deployer_of
    deploy_node_set-pass target r done quiet =
        after_deploy-pass target (record r { status = mark_running lib r.status }) _
          (deploy-pass lib (cluster.api version target)
            (services_for service_map target.node_set.name)
            (deployer_of lib target (mark_running lib r.status)) done)
          quiet

    deploy_node_sets-pass :
        (targets : List (Target Mounts)) (r : Round Conditions Summary)
        → All AllDone targets
        → IsQuiet r
        → (after : Round Conditions Summary) × (deploy_node_sets lib cluster version service_map
              targets r
            ≡ next after)
          × IsQuiet after
    unfolding deploy_node_sets
    deploy_node_sets-pass [] r done quiet = (r, refl, quiet)
    deploy_node_sets-pass (target ∷ targets) r done quiet =
        let (middle, first, still) = deploy_node_set-pass target r done.0 quiet in
        let (after, rest, quiet_after) = deploy_node_sets-pass targets middle done.1 still in
        (after, rw (first) rest, quiet_after)

  module _ (deployment : DataPlaneDeployment Conditions Summary) where
    abbrev State : Type 0
    State = DeploymentStatus Conditions Summary

    -- A flow that ends well, with `Deployed` set.
    abbrev IsDeploying : Flow State → Type 0
    IsDeploying m = (s : State) × (m ≡ return s none) × (s.deployed ≡ true)

    both-deployed :
        (error : Option Error) (a b : State)
        → a.deployed ≡ true
        → b.deployed ≡ true
        → (elim error as (λ x. State) [ none ↦ a | some e ↦ b ]).deployed ≡ true
    both-deployed none a b h k = h
    both-deployed (some e) a b h k = k

    hash_node_sets-deployed :
        (targets : List (Target Mounts)) (s : State)
        → s.deployed ≡ true
        → (hash_node_sets lib cluster deployment targets s).deployed ≡ true
    unfolding hash_node_sets
    hash_node_sets-deployed [] s up = up
    hash_node_sets-deployed (target ∷ targets) s up =
        both-deployed (cluster.ansible_vars_hashes target s.hashes).1 _ _
          (hash_node_sets-deployed targets _ up) up

    set_hashes-deployed :
        (targets : List (Target Mounts)) (s : State)
        → s.deployed ≡ true
        → (set_hashes lib cluster deployment targets s).deployed ≡ true
    unfolding set_hashes
    set_hashes-deployed targets s up = both-deployed _ _ _ (hash_node_sets-deployed targets _ up) up

    conclude-pass :
        (version : Option (OpenStackVersion Conditions)) (targets : List (Target Mounts))
        (r : Round Conditions Summary)
        → (r.should_requeue ≡ false) × (is_empty r.errors ≡ true)
        → IsDeploying (conclude lib cluster deployment version targets r)
    unfolding conclude mark_deployed
    conclude-pass version targets r (quiet, fine) = (
      set_hashes lib cluster deployment targets
          (mark_deployed lib cluster deployment version r.status),
      rw (fine) (rw (quiet) refl),
      set_hashes-deployed targets _ refl,
    )

    run-pass :
        (targets : List (Target Mounts)) (service_map : List (String × List String))
        (version : Option (OpenStackVersion Conditions)) (before : State)
        → All (AllDone version service_map) targets
        → IsDeploying (run lib cluster deployment targets service_map version before)
    unfolding run
    run-pass targets service_map version before done =
        let (after, passed, quiet) =
          deploy_node_sets-pass version service_map targets (first_round before) done
            (refl, refl) in
        rw (passed) (conclude-pass version targets after quiet)

    with_version-pass :
        (targets : List (Target Mounts)) (service_map : List (String × List String))
        (version : Option (OpenStackVersion Conditions))
        (fetched : Fetch (OpenStackVersion Conditions)) (before : State)
        → IsVersion fetched version
        → All (AllDone version service_map) targets
        → IsDeploying (with_version lib cluster deployment targets service_map fetched before)
    unfolding with_version
    with_version-pass targets service_map _ _ before (the_version v) done =
        run-pass targets service_map (some v) before done
    with_version-pass targets service_map _ _ before no_version done =
        run-pass targets service_map none before done

    with_services-pass :
        (targets : List (Target Mounts)) (service_map : Option (List (String × List String)))
        (version : Option (OpenStackVersion Conditions)) (before : State)
        → dedupe_services
            (λ name. service_only (cluster.service name))
            (node_sets_of targets)
            deployment.services_override
          ≡ (service_map, none)
        → IsVersion (get_version cluster.versions) version
        → All (AllDone version (map_or_nil service_map)) targets
        → IsDeploying (start lib cluster deployment targets before)
    unfolding start with_services
    with_services-pass targets service_map version before deduped its_version done = rw (deduped) (
        with_version-pass targets (map_or_nil service_map) version (get_version cluster.versions)
          (record before { conditions = set (true_condition input_ready) before.conditions })
          its_version done)

    -- If the nodesets of a deployment are fetched, their inputs complete and their services listed, the
    -- version is known, and each service can be started and has a job that succeeded, then the
    -- reconcile ends without an error and with `Deployed` set, whatever was stored before.
    pub reconcile_found-deploys :
        (targets : List (Target Mounts)) (listed_status checked_status : State)
        (service_map : Option (List (String × List String)))
        (version : Option (OpenStackVersion Conditions))
        → list_node_sets lib cluster deployment.node_sets (initial lib cluster deployment)
          ≡ (listed_status, found targets)
        → check_inputs lib cluster deployment.services_override targets listed_status
          ≡ next checked_status
        → dedupe_services
            (λ name. service_only (cluster.service name))
            (node_sets_of targets)
            deployment.services_override
          ≡ (service_map, none)
        → IsVersion (get_version cluster.versions) version
        → All (AllDone version (map_or_nil service_map)) targets
        → (s : State) × (reconcile_found lib cluster deployment ≡ return s none)
          × (s.deployed ≡ true)
    unfolding reconcile_found with_targets
    reconcile_found-deploys targets before checked service_map version listed inputs deduped
          its_version done =
        rw (listed) (
          rw (inputs)
            (with_services-pass targets service_map version checked deduped its_version done))
