-- ===== src/DeploymentController/Inputs.antt =====
-- The state of an OpenStackDataPlaneDeployment (api/dataplane/v1beta1/
-- openstackdataplanedeployment_types.go) and the first part of `Reconcile` of
-- internal/controller/dataplane/openstackdataplanedeployment_controller.go: the nodesets are listed
-- and their certificates made.
use openstack_operator.Prelude.{
  Bool, true, false, not, ◌&&◌, ℕ, String, Option, none, some, List, [], ◌∷◌, ◌==◌, if◌then◌else◌,
  lookup, insert, Fetch, found, not_found, failed, Listing, Error,
}
use openstack_operator.Prelude.Control.{Flow, next, return, ◌>>=◌}
use openstack_operator.Conditions.{
  Condition, false_condition, unknown_condition, error_reason, init_reason, severity_error,
  ConditionLib,
}
use openstack_operator.Version.{OpenStackVersion}
use openstack_operator.Nodesets.{NodeSet}
use openstack_operator.Services.{not_found_error, requested}
use openstack_operator.Deployer.{DataPlaneService, Api}

abbrev pub deployment_ready : String
deployment_ready = "DeploymentReady"

abbrev pub input_ready : String
input_ready = "InputReady"

abbrev pub setup_ready : String
setup_ready = "SetupReady"

abbrev pub node_set_deployment_ready : String
node_set_deployment_ready = "NodeSetDeploymentReady"

-- OpenStackDataPlaneNodeSet, as far as a deployment reads it
pub record Target (Mounts : Type 0) : Type 0 where
  pub node_set : NodeSet
  pub is_set_up : Bool  -- Status.Conditions.IsTrue(SetupReadyCondition)
  pub tls_enabled : Bool
  pub config_hash : String
  pub bmh_ref_hash : String
  pub runner_image : String  -- of GetAnsibleEESpec, and its mounts
  pub extra_mounts : Mounts

pub record Hashes : Type 0 where
  pub config_maps : List (String × String)
  pub secrets : List (String × String)

-- OpenStackDataPlaneDeploymentStatus
pub record DeploymentStatus (Conditions Summary : Type 0) : Type 0 where
  pub conditions : Conditions
  pub node_set_conditions : List (String × Conditions)
  pub execution_summaries : List (String × Summary)
  pub container_images : List (String × String)
  pub node_set_hashes : List (String × String)
  pub bmh_ref_hashes : List (String × String)
  pub hashes : Hashes
  pub observed_generation : ℕ
  pub deployed : Bool
  pub deployed_version : String

-- What EnsureTLSCerts comes to: a result that is empty, one that is not, or an error.
pub data Certificates : Type 0 where
  ensured : Certificates
  pending : Certificates
  refused : Error → Certificates

-- What ValidateTLS comes to.
pub data TlsCheck : Type 0 where
  tls_valid : TlsCheck
  tls_missing : TlsCheck  -- an error for which IsNotFound holds
  tls_invalid : Error → TlsCheck

-- What is called: the API server, and the functions of internal/dataplane that write to it.
pub record Cluster (Conditions Mounts Summary : Type 0) : Type 0 where
  pub node_set : String → Fetch (Target Mounts)
  pub validate_tls : Target Mounts → TlsCheck
  pub service : String → Fetch DataPlaneService  -- GetService, before the deployment starts
  pub ensure_tls_certs : Target Mounts → DataPlaneService → String → Certificates
  pub versions : Listing (List (OpenStackVersion Conditions))
  pub api : Option (OpenStackVersion Conditions) → Target Mounts → Api Mounts Summary
  pub deployment_error : List (String × Error) → Error  -- deploymentErrMsg, of nodesets and errors
  pub deployment_hashes : String → Hashes → Hashes × Option Error  -- of one service
  pub ansible_vars_hashes : Target Mounts → Hashes → Hashes × Option Error

abbrev pub deployment_condition_list : List Condition
deployment_condition_list =
    unknown_condition deployment_ready init_reason ∷ unknown_condition input_ready init_reason ∷ []

abbrev pub has_no_certs : DataPlaneService → Bool
has_no_certs service = elim service.tls_certs [ none ↦ true | some keys ↦ false ]

module _ (lib : ConditionLib) where
  open lib use {Conditions, init, set, kept, empty}

  -- The loop of InitConditions over the nodesets of the spec.
  unfoldable pub fresh_entries :
      List String → List (String × Conditions) → List (String × Conditions)
  unfolding insert
  fresh_entries [] entries = entries
  fresh_entries (name ∷ names) entries =
      fresh_entries names
        (insert name (set (unknown_condition node_set_deployment_ready init_reason) empty) entries)

  module _ {Summary : Type 0} where
    -- d.Status.NodeSetConditions[name]
    unfoldable pub node_set_entry : String → DeploymentStatus Conditions Summary → Conditions
    unfolding lookup
    node_set_entry name s = elim (lookup name s.node_set_conditions) [ none ↦ empty | some cs ↦ cs ]

    unfoldable pub set_entry :
        String
        → Conditions
        → DeploymentStatus Conditions Summary
        → DeploymentStatus Conditions Summary
    unfolding insert
    set_entry name cs s = record s { node_set_conditions = insert name cs s.node_set_conditions }

    -- InitConditions; what is stored of the nodesets' conditions does not survive it.
    unfoldable pub init_conditions :
        List String → DeploymentStatus Conditions Summary → DeploymentStatus Conditions Summary
    unfolding fresh_entries
    init_conditions node_sets s = record s {
      conditions = init deployment_condition_list;
      node_set_conditions = fresh_entries node_sets [];
      deployed = false;
    }

    -- ValidateTLS of a nodeset has failed.
    unfoldable pub refuse_set_up :
        DeploymentStatus Conditions Summary → DeploymentStatus Conditions Summary
    refuse_set_up s = record s {
      conditions = set (false_condition setup_ready error_reason severity_error) s.conditions;
    }

    module _ {Mounts : Type 0} where
      -- A nodeset that was fetched is appended where its TLS settings are valid; `rest` is the loop over
      -- the others.
      unfoldable pub add_target :
          Target Mounts
          → TlsCheck
          → DeploymentStatus Conditions Summary × Fetch (List (Target Mounts))
          → DeploymentStatus Conditions Summary
          → DeploymentStatus Conditions Summary × Fetch (List (Target Mounts))
      unfolding refuse_set_up
      add_target target tls_missing rest s = (refuse_set_up s, not_found)
      add_target target (tls_invalid e) rest s = (refuse_set_up s, failed e)
      add_target target tls_valid (t, found targets) s = (t, found (target ∷ targets))
      add_target target tls_valid (t, not_found) s = (t, not_found)
      add_target target tls_valid (t, failed e) s = (t, failed e)

      module _ (cluster : Cluster Conditions Mounts Summary) where
        unfoldable pub fetch_target :
            Fetch (Target Mounts)
            → DeploymentStatus Conditions Summary × Fetch (List (Target Mounts))
            → DeploymentStatus Conditions Summary
            → DeploymentStatus Conditions Summary × Fetch (List (Target Mounts))
        unfolding add_target
        fetch_target (found target) rest s = add_target target (cluster.validate_tls target) rest s
        fetch_target not_found rest s = (s, not_found)
        fetch_target (failed e) rest s = (s, failed e)

        -- listNodeSets
        unfoldable pub list_node_sets :
            List String
            → DeploymentStatus Conditions Summary
            → DeploymentStatus Conditions Summary × Fetch (List (Target Mounts))
        unfolding fetch_target
        list_node_sets [] s = (s, found [])
        list_node_sets (name ∷ names) s =
            let rest = list_node_sets names s in fetch_target (cluster.node_set name) rest s

        -- The two conditions that an error of GetService or EnsureTLSCerts sets; the nodeset's are set on
        -- a copy.
        unfoldable pub refuse_inputs :
            String
            → Error
            → DeploymentStatus Conditions Summary
            → Flow (DeploymentStatus Conditions Summary)
        unfolding node_set_entry set_entry
        refuse_inputs name e s =
            let old = node_set_entry name s in
            return
              (set_entry name
                (kept old
                  (set (false_condition node_set_deployment_ready error_reason severity_error) old))
                (record s {
                  conditions =
                      set (false_condition input_ready error_reason severity_error) s.conditions;
                }))
              (some e)

        -- The loop over the keys of TLSCerts; `return *result, nil` where a certificate is pending.
        unfoldable pub ensure_certs :
            Target Mounts
            → DataPlaneService
            → List String
            → DeploymentStatus Conditions Summary
            → Flow (DeploymentStatus Conditions Summary)
        unfolding refuse_inputs
        ensure_certs target service [] s = next s
        ensure_certs target service (key ∷ keys) s =
            let rest = ensure_certs target service keys s in
            elim (cluster.ensure_tls_certs target service key) [
              | ensured ↦ rest
              | pending ↦ return s none
              | refused e ↦ refuse_inputs target.node_set.name e s
            ]

        unfoldable pub certify :
            Target Mounts
            → Fetch DataPlaneService
            → DeploymentStatus Conditions Summary
            → Flow (DeploymentStatus Conditions Summary)
        unfolding ensure_certs refuse_inputs
        certify target (found service) s = elim service.tls_certs [
          | none ↦ next s
          | some keys ↦ ensure_certs target service keys s
        ]
        certify target not_found s = refuse_inputs target.node_set.name not_found_error s
        certify target (failed e) s = refuse_inputs target.node_set.name e s

        -- Of a service with another EDPMServiceType and no certificates of its own, the service of that
        -- name is taken.
        unfoldable pub certify_service :
            Target Mounts
            → String
            → Fetch DataPlaneService
            → DeploymentStatus Conditions Summary
            → Flow (DeploymentStatus Conditions Summary)
        unfolding certify
        certify_service target name (found service) s =
            if not (name == service.service.edpm_service_type) && has_no_certs service
            then certify target (cluster.service service.service.edpm_service_type) s
            else certify target (found service) s
        certify_service target name not_found s = certify target not_found s
        certify_service target name (failed e) s = certify target (failed e) s

        unfoldable pub certify_services :
            Target Mounts
            → List String
            → DeploymentStatus Conditions Summary
            → Flow (DeploymentStatus Conditions Summary)
        unfolding certify_service
        certify_services target [] s = next s
        certify_services target (name ∷ names) s =
            certify_service target name (cluster.service name) s >>= certify_services target names

        -- The loop over the nodesets before any of them is deployed.
        unfoldable pub check_inputs :
            List String
            → List (Target Mounts)
            → DeploymentStatus Conditions Summary
            → Flow (DeploymentStatus Conditions Summary)
        unfolding certify_services
        check_inputs service_override [] s = next s
        check_inputs service_override (target ∷ targets) s =
            if not target.is_set_up
            then return s none
            else (if target.tls_enabled
                then certify_services target (requested service_override target.node_set) s
                else next s)
              >>= check_inputs service_override targets
