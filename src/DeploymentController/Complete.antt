-- ===== src/DeploymentController/Complete.antt =====
-- When `Reconcile` of internal/controller/dataplane/openstackdataplanedeployment_controller.go sets
-- `Deployed`.
use openstack_operator.Prelude.{
  true, false, String, Option, none, some, List, ◌≡◌, refl, sym, ap, subst, ◌==◌, All, Fetch, found,
  not_found, failed, Error,
}
use openstack_operator.Prelude.Control.{Flow, next, return, panicked, ◌>>=◌}
use openstack_operator.Conditions.{true_condition, ConditionLib}
use openstack_operator.Version.{OpenStackVersion}
use openstack_operator.Services.{dedupe_services}
use openstack_operator.DeploymentController.{
  DataPlaneDeployment, get_version, service_only, map_or_nil,
}
use openstack_operator.DeploymentController.Reconciling.{
  node_sets_of, with_version, with_services, start, with_targets, initial, reconcile_found,
}
use openstack_operator.DeploymentController.Inputs.{
  Target, DeploymentStatus, Cluster, input_ready, node_set_deployment_ready, node_set_entry,
  init_conditions, list_node_sets, check_inputs,
}
use openstack_operator.DeploymentController.Vouched.{init_conditions-AreFounded}
use openstack_operator.DeploymentController.Served.{AllServed}
use openstack_operator.DeploymentController.Unchanged.{
  Stays, Listed, check_inputs-Stays, list_node_sets-Listed,
}
use openstack_operator.DeploymentController.Finished.{IsRecorded, IsFresh, run-Deployed}

-- What a version that was looked up stands for.
pub data IsVersion {A : Type 0} : Fetch A → Option A → Type 0 where
  the_version : (v : A) → IsVersion (found v) (some v)
  no_version : IsVersion not_found none

module _ (lib : ConditionLib) {Mounts Summary : Type 0}
    (cluster : Cluster lib.Conditions Mounts Summary)
    (deployment : DataPlaneDeployment lib.Conditions Summary)
    (distinct : (version : Option (OpenStackVersion lib.Conditions)) (target : Target Mounts)
        (name : String)
      → node_set_deployment_ready == (cluster.api version target).ready_type name ≡ false) where
  open lib use {Conditions, set}

  abbrev State : Type 0
  State = DeploymentStatus Conditions Summary

  -- What it takes for a deployment to be done: its nodesets are fetched, their services listed and the
  -- version known, and each service of each nodeset has the job of a service with its ready condition
  -- that succeeded.
  pub record IsComplete (s : State) : Type 0 where
    pub targets : List (Target Mounts)
    pub listed :
        (list_node_sets lib cluster deployment.node_sets (initial lib cluster deployment)).1
        ≡ found targets
    pub service_map : Option (List (String × List String))
    pub deduped :
        dedupe_services
          (λ name. service_only (cluster.service name))
          (node_sets_of targets)
          deployment.services_override
        ≡ (service_map, none)
    pub version : Option (OpenStackVersion Conditions)
    pub its_version : IsVersion (get_version cluster.versions) version
    pub served :
        All (AllServed lib cluster version (map_or_nil service_map) (distinct version)) targets
    pub recorded : IsRecorded lib cluster deployment distinct version s

  with_version-Complete :
      (targets : List (Target Mounts)) (service_map : Option (List (String × List String)))
      (fetched : Fetch (OpenStackVersion Conditions)) (before : State) {s : State}
      {e : Option Error}
      → (list_node_sets lib cluster deployment.node_sets (initial lib cluster deployment)).1
        ≡ found targets
      → dedupe_services
          (λ name. service_only (cluster.service name))
          (node_sets_of targets)
          deployment.services_override
        ≡ (service_map, none)
      → get_version cluster.versions ≡ fetched
      → IsFresh lib cluster deployment distinct before
      → with_version lib cluster deployment targets (map_or_nil service_map) fetched before
        ≡ return s e
      → s.deployed ≡ true
      → (e ≡ none) × IsComplete s
  unfolding with_version
  with_version-Complete targets service_map (found v) before listed deduped is_v fresh h up =
      let (fine, served, recorded) =
        run-Deployed lib cluster deployment distinct targets (map_or_nil service_map) (some v)
          before fresh h up in
      (
        fine,
        record {
          targets = targets;
          listed = listed;
          service_map = service_map;
          deduped = deduped;
          version = some v;
          its_version = subst (λ f. IsVersion f (some v)) (sym is_v) (the_version v);
          served = served;
          recorded = recorded;
        },
      )
  with_version-Complete targets service_map not_found before listed deduped is_v fresh h up =
      let (fine, served, recorded) =
        run-Deployed lib cluster deployment distinct targets (map_or_nil service_map) none before
          fresh h up in
      (
        fine,
        record {
          targets = targets;
          listed = listed;
          service_map = service_map;
          deduped = deduped;
          version = none;
          its_version = subst (λ f. IsVersion f none) (sym is_v) no_version;
          served = served;
          recorded = recorded;
        },
      )
  with_version-Complete targets service_map (failed e) before listed deduped is_v fresh h up =
      absurd (cc (fresh.1, h, up))

  with_services-Complete :
      (targets : List (Target Mounts))
      (result : Option (List (String × List String)) × Option Error) (before : State) {s : State}
      {e : Option Error}
      → (list_node_sets lib cluster deployment.node_sets (initial lib cluster deployment)).1
        ≡ found targets
      → dedupe_services
          (λ name. service_only (cluster.service name))
          (node_sets_of targets)
          deployment.services_override
        ≡ result
      → IsFresh lib cluster deployment distinct before
      → with_services lib cluster deployment targets result before ≡ return s e
      → s.deployed ≡ true
      → (e ≡ none) × IsComplete s
  unfolding with_services
  with_services-Complete targets (service_map, some e) before listed deduped fresh h up =
      absurd (cc (fresh.1, h, up))
  with_services-Complete targets (service_map, none) before listed deduped fresh h up =
      with_version-Complete targets service_map (get_version cluster.versions) before listed deduped
        refl fresh h up

  start-Complete :
      (targets : List (Target Mounts)) (before : State) {s : State} {e : Option Error}
      → (list_node_sets lib cluster deployment.node_sets (initial lib cluster deployment)).1
        ≡ found targets
      → IsFresh lib cluster deployment distinct before
      → start lib cluster deployment targets before ≡ return s e
      → s.deployed ≡ true
      → (e ≡ none) × IsComplete s
  unfolding start node_set_entry
  start-Complete targets before listed fresh h up =
      with_services-Complete targets _
        (record before { conditions = set (true_condition input_ready) before.conditions }) listed
        refl fresh h up

  check-Complete :
      (targets : List (Target Mounts)) (m : Flow State) {s : State} {e : Option Error}
      → (list_node_sets lib cluster deployment.node_sets (initial lib cluster deployment)).1
        ≡ found targets
      → IsFresh lib cluster deployment distinct (initial lib cluster deployment)
      → Stays lib cluster (initial lib cluster deployment) m
      → (m >>= start lib cluster deployment targets) ≡ return s e
      → s.deployed ≡ true
      → (e ≡ none) × IsComplete s
  check-Complete targets (next before) listed fresh same h up =
      start-Complete targets before listed
        (subst (IsFresh lib cluster deployment distinct) (sym same) fresh) h up
  check-Complete targets (return t e) listed fresh same h up = absurd (cc (fresh.1, same, h, up))
  check-Complete targets panicked listed fresh same h up = absurd (cc h)

  initial-IsFresh : IsFresh lib cluster deployment distinct (initial lib cluster deployment)
  unfolding init_conditions node_set_entry
  initial-IsFresh = (
    λ version.
        init_conditions-AreFounded lib cluster version deployment.node_sets deployment.status,
    refl,
  )

  with_targets-Complete :
      (listing : State × Fetch (List (Target Mounts))) {s : State} {e : Option Error}
      → list_node_sets lib cluster deployment.node_sets (initial lib cluster deployment) ≡ listing
      → Listed lib cluster (initial lib cluster deployment) listing
      → with_targets lib cluster deployment listing ≡ return s e
      → s.deployed ≡ true
      → (e ≡ none) × IsComplete s
  unfolding with_targets
  with_targets-Complete (t, found targets) {s} {e} listing same h up =
      check-Complete targets
        (check_inputs lib cluster deployment.services_override targets
          (initial lib cluster deployment))
        (ap (λ l. l.1) listing) initial-IsFresh
        (check_inputs-Stays lib cluster deployment.services_override targets
          (initial lib cluster deployment))
        (subst
          (λ x.
            (check_inputs lib cluster deployment.services_override targets x
              >>= start lib cluster deployment targets)
            ≡ return s e)
          same h)
        up
  with_targets-Complete (t, not_found) listing same h up =
      absurd (cc (same, initial-IsFresh.1, h, up))
  with_targets-Complete (t, failed e) listing same h up =
      absurd (cc (same, initial-IsFresh.1, h, up))

  -- If a reconcile leaves a deployment with `Deployed` set, then it ended without an error; all of its
  -- nodesets were fetched; for each service that DedupeServices gives to a nodeset, a service with the
  -- same ready condition has, for a nodeset of that name, a job that succeeded; and the deployed
  -- version is the target of the version, where there is one. No ready condition of a service may be
  -- called NodeSetDeploymentReady.
  pub reconcile_found-IsComplete :
      {s : State} {e : Option Error}
      → reconcile_found lib cluster deployment ≡ return s e
      → s.deployed ≡ true
      → (e ≡ none) × IsComplete s
  unfolding reconcile_found
  reconcile_found-IsComplete h up =
      with_targets-Complete
        (list_node_sets lib cluster deployment.node_sets (initial lib cluster deployment)) refl
        (list_node_sets-Listed lib cluster deployment.node_sets (initial lib cluster deployment)) h
        up
