-- ===== src/Scenarios/Takeover.antt =====
-- The nodeset compute after a deployment that has updated it to v2.
use openstack_operator.Prelude.{
  true, false, String, none, some, [], ◌∷◌, ◌≡◌, ◌⊎◌, ◌==◌, if◌then◌else◌, refl, found, listed,
}
use openstack_operator.Conditions.{true_condition}
use openstack_operator.DeploymentController.Inputs.{node_set_deployment_ready}
use openstack_operator.NodeSetController.{
  TargetDeployment, Spec, NodeSetStatus, no_flags, NodeSetCluster, Check, relevant,
}
use openstack_operator.NodeSetController.Deployments.{check_deployment}
use openstack_operator.NodeSetController.Verdicts.{Verdict, check_deployment-Verdict}
use openstack_operator.NodeSetController.Versions.{IsUpdate}
use openstack_operator.NodeSetController.Sources.{IsOf, check_deployment-DeployedVersion}
use openstack_operator.Scenarios.Library.{Table, table_lib}

abbrev complete : Table
complete t = if node_set_deployment_ready == t then some (true_condition t) else none

abbrev update_v2 : TargetDeployment Table String
update_v2 = record {
  name = "update-v2";
  deleting = false;
  node_sets = "compute" ∷ [];
  services_override = "update" ∷ [];
  ansible_limit = "";
  node_set_conditions = ("compute", complete) ∷ [];
  execution_summaries = [];
  node_set_hashes = ("compute", "c1") ∷ [];
  bmh_ref_hashes = [];
  config_map_hashes = ("vars", "h1") ∷ [];
  secret_hashes = ("cert", "h2") ∷ [];
  container_images = ("OvnControllerImage", "v2") ∷ [];
  deployed_version = "v2";
}

abbrev spec : Spec
spec = record {
  name = "compute";
  services = "bootstrap" ∷ [];
  pre_provisioned = true;
  config_hash = "c1";
  bmh_ref_hash = "";
}

abbrev before_update : NodeSetStatus Table String
before_update = record {
  deployment_statuses = [];
  execution_summaries = [];
  config_map_hashes = [];
  secret_hashes = [];
  container_images = [];
  deployed_config_hash = "";
  deployed_version = "v1";
}

abbrev cluster : NodeSetCluster Table String
cluster = record {
  deployments = listed (update_v2 ∷ []);
  sort = λ ds. ds;
  is_error = λ cs. false;
  error_message = λ cs. "failed";
  ansible_vars = listed (("vars", "h1") ∷ [], []);
  cert_hashes = listed (("cert", "h2") ∷ []);
  service = λ name.
      found (record { name = name; edpm_service_type = name; deploy_on_all_node_sets = false });
}

abbrev after_update : Check Table String
after_update = (check_deployment table_lib cluster spec before_update).0

after_update-returned : check_deployment table_lib cluster spec before_update ≡ (after_update, none)
unfolding check_deployment
after_update-returned = refl

-- The nodeset is ready, and its version is the one that was deployed.
after_update-ready : after_update.flags.ready ≡ true
unfolding check_deployment
after_update-ready = refl

after_update-version : after_update.status.deployed_version ≡ "v2"
unfolding check_deployment
after_update-version = refl

check_deployment-Verdict_example :
    Verdict table_lib cluster spec no_flags
      (cluster.sort (relevant "compute" (update_v2 ∷ [])))
      after_update.flags
check_deployment-Verdict_example =
    check_deployment-Verdict table_lib cluster spec before_update (update_v2 ∷ []) refl
      after_update-returned

check_deployment-DeployedVersion_example :
    ((check_deployment table_lib cluster spec before_update).0.status.deployed_version ≡ "v1")
    ⊎ ((d : TargetDeployment Table String) × IsOf table_lib cluster spec d (update_v2 ∷ [])
        × IsUpdate table_lib cluster spec d
        × ((check_deployment table_lib cluster spec before_update).0.status.deployed_version
            ≡ d.deployed_version))
check_deployment-DeployedVersion_example =
    check_deployment-DeployedVersion table_lib cluster spec before_update (update_v2 ∷ []) refl
      (λ ds d m. m)

-- The same deployment while another nodeset is not done: its version is not recorded yet, and the
-- nodeset loses its own.
abbrev unfinished : NodeSetCluster Table String
unfinished = record cluster {
  deployments = listed (record update_v2 { deployed_version = "" } ∷ []);
}

unfinished-version :
    (check_deployment table_lib unfinished spec before_update).0.status.deployed_version ≡ ""
unfolding check_deployment
unfinished-version = refl
