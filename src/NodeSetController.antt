-- ===== src/NodeSetController.antt =====
-- The parts of `checkDeployment` of
-- internal/controller/dataplane/openstackdataplanenodeset_controller.go, by which the controller of a
-- nodeset takes over what its deployments have reached, with `checkAnsibleVarsFromChanged` and
-- `checkCertSecretsChanged`. Logging is left out.
pub mod Deployments
pub mod Verdicts
pub mod Versions
pub mod Sources
use openstack_operator.Prelude.{
  Bool, true, false, not, ◌&&◌, ◌||◌, String, Option, none, some, List, [], ◌∷◌, ◌==◌,
  if◌then◌else◌, contains, lookup, insert, copy_into, is_empty, Fetch, found, not_found, failed,
  Listing, listed, list_failed, Error,
}
use openstack_operator.Nodesets.{Service, text_at}
use openstack_operator.Services.{not_found_error}

abbrev pub Texts : Type 0
Texts = List (String × String)

-- OpenStackDataPlaneDeployment, as far as the controller of a nodeset reads it
pub record TargetDeployment (Conditions Summary : Type 0) : Type 0 where
  pub name : String
  pub deleting : Bool
  pub node_sets : List String
  pub services_override : List String
  pub ansible_limit : String
  pub node_set_conditions : List (String × Conditions)
  pub execution_summaries : List (String × Summary)
  pub node_set_hashes : Texts
  pub bmh_ref_hashes : Texts
  pub config_map_hashes : Texts
  pub secret_hashes : Texts
  pub container_images : Texts
  pub deployed_version : String

-- OpenStackDataPlaneNodeSet: what is read of it
pub record Spec : Type 0 where
  pub name : String
  pub services : List String
  pub pre_provisioned : Bool
  pub config_hash : String
  pub bmh_ref_hash : String

-- and the part of its status that is written. Its maps are made before they are written to.
pub record NodeSetStatus (Conditions Summary : Type 0) : Type 0 where
  pub deployment_statuses : List (String × Conditions)
  pub execution_summaries : List (String × List (String × Summary))
  pub config_map_hashes : Texts
  pub secret_hashes : Texts
  pub container_images : Texts
  pub deployed_config_hash : String
  pub deployed_version : String

-- The three results that are flags
pub record Flags : Type 0 where
  pub ready : Bool
  pub running : Bool
  pub failing : Bool

abbrev pub no_flags : Flags
no_flags = record { ready = false; running = false; failing = false }

-- What is called: the API server and the functions that hash what it answers, `slices.SortFunc`, and
-- `condition.IsError` of the nodeset's condition, with its message.
pub record NodeSetCluster (Conditions Summary : Type 0) : Type 0 where
  pub deployments : Listing (List (TargetDeployment Conditions Summary))
  pub sort : List (TargetDeployment Conditions Summary) → List (TargetDeployment Conditions Summary)
  pub is_error : Conditions → Bool
  pub error_message : Conditions → Error
  -- ProcessAnsibleVarsFrom of the template and of each node: the hashes of config maps and of secrets
  pub ansible_vars : Listing (Texts × Texts)
  pub cert_hashes : Listing Texts  -- GetCertSecretHashes
  pub service : String → Fetch Service

-- A loop of checkAnsibleVarsFromChanged: a hash is missing, or another.
unfoldable pub any_changed : Texts → Texts → Bool
unfolding lookup
any_changed [] deployed = false
any_changed ((name, current) ∷ hashes) deployed = elim (lookup name deployed) [
  | none ↦ true
  | some hash ↦ if not (hash == current) then true else any_changed hashes deployed
]

-- The loop of checkCertSecretsChanged: a hash that is there is another.
unfoldable pub any_content_changed : Texts → Texts → Bool
unfolding lookup
any_content_changed [] deployed = false
any_content_changed ((name, current) ∷ hashes) deployed =
    let rest = any_content_changed hashes deployed in
    elim (lookup name deployed) [
      | none ↦ rest
      | some hash ↦ if not (hash == current) then true else rest
    ]

-- `bool, error`
pub data Checked : Type 0 where
  checked : Bool → Checked
  check_failed : Error → Checked

unfoldable pub check_ansible_vars_from_changed : Listing (Texts × Texts) → Texts → Texts → Checked
unfolding any_changed
check_ansible_vars_from_changed (list_failed e) config_maps secrets = check_failed e
check_ansible_vars_from_changed (listed (current_maps, current_secrets)) config_maps secrets =
    checked (any_changed current_maps config_maps || any_changed current_secrets secrets)

unfoldable pub check_cert_secrets_changed : Listing Texts → Texts → Checked
unfolding any_content_changed
check_cert_secrets_changed (list_failed e) secrets = check_failed e
check_cert_secrets_changed (listed current) secrets = checked (any_content_changed current secrets)

-- The variables of the loop: the nodeset's status, and the results so far.
pub record Check (Conditions Summary : Type 0) : Type 0 where
  pub status : NodeSetStatus Conditions Summary
  pub flags : Flags
  pub failed_deployment : String

-- What a round comes to: the next, or the results, with an error.
pub data Step (Conditions Summary : Type 0) : Type 0 where
  go_on : Check Conditions Summary → Step Conditions Summary
  stop : Check Conditions Summary → Error → Step Conditions Summary

-- The deployments of the nodeset that are not being deleted.
unfoldable pub relevant :
    {Conditions Summary : Type 0}
    → String
    → List (TargetDeployment Conditions Summary)
    → List (TargetDeployment Conditions Summary)
unfolding contains
relevant name [] = []
relevant name (d ∷ ds) =
    let rest = relevant name ds in
    if d.deleting then rest else if contains d.node_sets name then d ∷ rest else rest

-- Whether a name is that of the last deployment of the list.
unfoldable pub is_latest :
    {Conditions Summary : Type 0} → List (TargetDeployment Conditions Summary) → String → Bool
is_latest [] name = false
is_latest (d ∷ []) name = name == d.name
is_latest (d ∷ other ∷ ds) name = is_latest (other ∷ ds) name

-- `deployment.Status.NodeSetConditions[instance.Name]`, and the summaries, if any
unfoldable pub record_statuses :
    {Conditions Summary : Type 0}
    → Conditions
    → TargetDeployment Conditions Summary
    → NodeSetStatus Conditions Summary
    → NodeSetStatus Conditions Summary
unfolding insert
record_statuses cs d s = record s {
  deployment_statuses = insert d.name cs s.deployment_statuses;
  execution_summaries =
      if is_empty d.execution_summaries
      then s.execution_summaries
      else insert d.name d.execution_summaries s.execution_summaries;
}

-- The hashes and the images that a deployment has brought to the nodes. Secrets that only some nodes
-- have received are not taken over.
unfoldable pub take_over :
    {Conditions Summary : Type 0}
    → String
    → TargetDeployment Conditions Summary
    → NodeSetStatus Conditions Summary
    → NodeSetStatus Conditions Summary
unfolding copy_into text_at
take_over name d s = record s {
  config_map_hashes = copy_into d.config_map_hashes s.config_map_hashes;
  secret_hashes =
      if not (d.ansible_limit == "") && not (d.ansible_limit == "*")
      then s.secret_hashes
      else copy_into d.secret_hashes (if is_empty d.services_override then [] else s.secret_hashes);
  container_images = copy_into d.container_images s.container_images;
  deployed_config_hash = text_at d.node_set_hashes name;
}

abbrev pub is_update : Service → Bool
is_update service =
    service.edpm_service_type == "update" || service.edpm_service_type == "update-services"

-- The services that a deployment runs on the nodeset.
abbrev pub services_run :
    {Conditions Summary : Type 0} → Spec → TargetDeployment Conditions Summary → List String
services_run spec d =
    if not (is_empty d.services_override) then d.services_override else spec.services

-- A service of a deployment that is complete; `rest` is the loop over the others.
unfoldable pub update_version :
    {Conditions Summary : Type 0}
    → Fetch Service
    → String
    → (NodeSetStatus Conditions Summary → NodeSetStatus Conditions Summary × Option Error)
    → NodeSetStatus Conditions Summary
    → NodeSetStatus Conditions Summary × Option Error
update_version (found service) version rest s =
    rest (if is_update service then record s { deployed_version = version } else s)
update_version not_found version rest s = (s, some not_found_error)
update_version (failed e) version rest s = (s, some e)

unfoldable pub update_versions :
    {Conditions Summary : Type 0}
    → (String → Fetch Service)
    → String
    → List String
    → NodeSetStatus Conditions Summary
    → NodeSetStatus Conditions Summary × Option Error
unfolding update_version
update_versions get version [] s = (s, none)
update_versions get version (name ∷ names) s =
    update_version (get name) version (update_versions get version names) s
