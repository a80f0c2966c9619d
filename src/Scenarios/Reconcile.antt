-- ===== src/Scenarios/Reconcile.antt =====
-- The controller of the deployment of bootstrap on the nodeset compute.
use openstack_operator.Prelude.{
  true, false, String, Option, none, some, [], ◌∷◌, ◌≡◌, ◌==◌, refl, inr, All, Fetch, found,
  not_found, listed, Error,
}
use openstack_operator.Prelude.Control.{Flow, next, return}
use openstack_operator.Conditions.{init_reason}
use openstack_operator.Services.{dedupe_services, not_found_error}
use openstack_operator.Deployer.{DataPlaneService, Progress, get_ansible_execution}
use openstack_operator.Deployer.Rounds.{add_certs, deploy}
use openstack_operator.DeploymentController.{DataPlaneDeployment, get_version, service_only}
use openstack_operator.DeploymentController.Reconciling.{
  node_sets_of, conclude, deferred, initial, reconcile_found, reconcile,
}
use openstack_operator.DeploymentController.Inputs.{
  Target, DeploymentStatus, Cluster, tls_valid, ensured, node_set_deployment_ready, list_node_sets,
  check_inputs,
}
use openstack_operator.DeploymentController.Rounds.{
  Round, services_for, mark_running, deployer_of, deploy_node_set,
}
use openstack_operator.DeploymentController.Complete.{
  IsVersion, the_version, IsComplete, reconcile_found-IsComplete,
}
use openstack_operator.DeploymentController.Completes.{AllDone, reconcile_found-deploys}
use openstack_operator.DeploymentController.History.{
  History, created, reconciled, WasCompleted, History-WasCompleted,
}
use openstack_operator.DeploymentController.Settled.{conclude-settled, deploy_node_set-overrides}
use openstack_operator.Scenarios.Library.{Table, table_lib}
use openstack_operator.Scenarios.Values.{update_to_v2}
use openstack_operator.Scenarios.Deployment.{
  bootstrap, bootstrap_ready, good_job, api_with, state_of,
}

abbrev compute : Target String
compute = record {
  node_set = record {
    name = "compute";
    generation = 1;
    observed_generation = 1;
    nodes = "edpm-0" ∷ [];
    services = "bootstrap" ∷ [];
    ready = false;
    deployed_version = "";
    container_images = [];
  };
  is_set_up = true;
  tls_enabled = true;
  config_hash = "c1";
  bmh_ref_hash = "b1";
  runner_image = "";
  extra_mounts = "";
}

abbrev cluster_with : Fetch DataPlaneService → Cluster Table String String
cluster_with service = record {
  node_set = λ name. found compute;
  validate_tls = λ target. tls_valid;
  service = λ name. found bootstrap;
  ensure_tls_certs = λ target service key. ensured;
  versions = listed (update_to_v2 ∷ []);
  api = λ version target. api_with service (good_job ∷ []);
  deployment_error = λ errors. "nodeSet: compute";
  deployment_hashes = λ name hashes. (hashes, none);
  ansible_vars_hashes = λ target hashes. (hashes, none);
}

abbrev cluster : Cluster Table String String
cluster = cluster_with (found bootstrap)

abbrev empty_status : DeploymentStatus Table String
empty_status = record {
  conditions = λ t. none;
  node_set_conditions = [];
  execution_summaries = [];
  container_images = [];
  node_set_hashes = [];
  bmh_ref_hashes = [];
  hashes = record { config_maps = []; secrets = [] };
  observed_generation = 0;
  deployed = false;
  deployed_version = "";
}

abbrev deployment : DataPlaneDeployment Table String
deployment = record {
  generation = 1;
  node_sets = "compute" ∷ [];
  services_override = [];
  status = empty_status;
}

abbrev no_error : Option Error
no_error = none

abbrev finished : DeploymentStatus Table String
finished = state_of (reconcile_found table_lib cluster deployment) empty_status

bootstrap_ready-distinct : node_set_deployment_ready == bootstrap_ready ≡ false
bootstrap_ready-distinct = refl

finished-returned : reconcile_found table_lib cluster deployment ≡ return finished none
unfolding reconcile_found
finished-returned = refl

finished-deployed : finished.deployed ≡ true
unfolding reconcile_found
finished-deployed = refl

reconcile_found-IsComplete_example :
    (no_error ≡ none)
    × IsComplete table_lib cluster deployment
        (λ version target name. bootstrap_ready-distinct)
        finished
reconcile_found-IsComplete_example =
    reconcile_found-IsComplete table_lib cluster deployment
      (λ version target name. bootstrap_ready-distinct) finished-returned finished-deployed

compute-listed :
    list_node_sets table_lib cluster deployment.node_sets (initial table_lib cluster deployment)
    ≡ (initial table_lib cluster deployment, found (compute ∷ []))
unfolding list_node_sets
compute-listed = refl

compute-checked :
    check_inputs table_lib cluster [] (compute ∷ []) (initial table_lib cluster deployment)
    ≡ next (initial table_lib cluster deployment)
unfolding check_inputs
compute-checked = refl

services-deduped :
    dedupe_services (λ name. service_only (cluster.service name)) (node_sets_of (compute ∷ [])) []
    ≡ (some (("compute", "bootstrap" ∷ []) ∷ []), none)
unfolding dedupe_services
services-deduped = refl

its-IsVersion : IsVersion (get_version cluster.versions) (some update_to_v2)
unfolding get_version
its-IsVersion = the_version update_to_v2

compute-AllDone :
    All
      (AllDone table_lib cluster (some update_to_v2) (("compute", "bootstrap" ∷ []) ∷ []))
      (compute ∷ [])
unfolding services_for add_certs get_ansible_execution
compute-AllDone = (
  (
    record {
      service = bootstrap;
      is_found = refl;
      mounts = "";
      mounted = refl;
      starts = λ image. refl;
      job = good_job;
      its_job = refl;
      succeeded = refl;
    },
    tt,
  ),
  tt,
)

reconcile_found-deploys_example :
    (s : DeploymentStatus Table String) × (reconcile_found table_lib cluster deployment
      ≡ return s none)
    × (s.deployed ≡ true)
reconcile_found-deploys_example =
    reconcile_found-deploys table_lib cluster deployment (compute ∷ [])
      (initial table_lib cluster deployment) (initial table_lib cluster deployment)
      (some (("compute", "bootstrap" ∷ []) ∷ [])) (some update_to_v2) compute-listed compute-checked
      services-deduped its-IsVersion compute-AllDone

-- A job of an earlier nodeset has run out of retries.
abbrev exhausted_round : Round Table String
exhausted_round = record {
  status = empty_status;
  should_requeue = true;
  errors = ("edpm", "execution failed") ∷ [];
  backoff_limit_reached = true;
}

abbrev ended : DeploymentStatus Table String
ended = state_of (conclude table_lib cluster deployment none [] exhausted_round) empty_status

exhausted_round-concluded :
    conclude table_lib cluster deployment none [] exhausted_round ≡ return ended none
unfolding conclude
exhausted_round-concluded = refl

-- Later the nodeset has another service, and the spec has changed.
abbrev changed : DataPlaneDeployment Table String
changed = record {
  generation = 2;
  node_sets = "compute" ∷ "storage" ∷ [];
  services_override = [];
  status = deferred table_lib ended;
}

conclude-settled_example :
    reconcile table_lib (cluster_with not_found) (λ s. none) (found changed) ≡ (none, none)
conclude-settled_example =
    conclude-settled table_lib cluster deployment none [] exhausted_round (cluster_with not_found)
      (λ s. none) changed exhausted_round-concluded refl (inr (refl, refl))

abbrev lost_cluster : Cluster Table String String
lost_cluster = cluster_with not_found

abbrev lost_outcome : Flow (Progress Table String String)
lost_outcome =
    deploy table_lib (lost_cluster.api none compute)
      (services_for (("compute", "bootstrap" ∷ []) ∷ []) "compute")
      (deployer_of table_lib compute (mark_running table_lib empty_status))

abbrev lost : Progress Table String String
lost = state_of lost_outcome (deployer_of table_lib compute empty_status)

lost-returned : lost_outcome ≡ return lost (some not_found_error)
unfolding deploy services_for deployer_of mark_running
lost-returned = refl

deploy_node_set-overrides_example :
    (after : Round Table String) × (deploy_node_set table_lib lost_cluster none
        (("compute", "bootstrap" ∷ []) ∷ [])
        compute
        exhausted_round
      ≡ next after)
    × (s : DeploymentStatus Table String) × (conclude table_lib lost_cluster deployment none
          (compute ∷ [])
          after
        ≡ return s (some (lost_cluster.deployment_error after.errors)))
deploy_node_set-overrides_example =
    deploy_node_set-overrides table_lib lost_cluster deployment none (compute ∷ [])
      (("compute", "bootstrap" ∷ []) ∷ []) compute exhausted_round {its_reason = init_reason}
      lost-returned refl refl

abbrev stored : DeploymentStatus Table String
stored = deferred table_lib finished

finished-stored :
    reconcile table_lib cluster (λ s. none) (found deployment) ≡ (none, some (return stored none))
unfolding reconcile
finished-stored = refl

stored-History :
    History table_lib
      (λ time. cluster)
      (λ time version target name. bootstrap_ready-distinct)
      stored
stored-History =
    reconciled empty_status stored (created empty_status refl) 0 deployment (λ s. none) none refl
      finished-stored refl

stored-deployed : stored.deployed ≡ true
unfolding reconcile_found deferred
stored-deployed = refl

History-WasCompleted_example :
    WasCompleted table_lib
      (λ time. cluster)
      (λ time version target name. bootstrap_ready-distinct)
      stored-History
History-WasCompleted_example =
    History-WasCompleted table_lib (λ time. cluster)
      (λ time version target name. bootstrap_ready-distinct) stored stored-History stored-deployed
