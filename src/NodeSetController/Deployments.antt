-- ===== src/NodeSetController/Deployments.antt =====
-- The loop of `checkDeployment` over the deployments of a nodeset
-- (internal/controller/dataplane/openstackdataplanenodeset_controller.go).
use openstack_operator.Prelude.{
  Bool, true, false, not, ◌&&◌, ◌||◌, String, Option, none, some, List, [], ◌∷◌, ◌==◌,
  if◌then◌else◌, lookup, Listing, listed, list_failed, Error,
}
use openstack_operator.Conditions.{ConditionLib, has_true, has_false}
use openstack_operator.Nodesets.{text_at}
use openstack_operator.DeploymentController.Inputs.{node_set_deployment_ready}
use openstack_operator.NodeSetController.{
  TargetDeployment, Spec, NodeSetStatus, no_flags, NodeSetCluster, Checked, checked, check_failed,
  check_ansible_vars_from_changed, check_cert_secrets_changed, Check, Step, go_on, stop, relevant,
  is_latest, record_statuses, take_over, services_run, update_versions,
}

module _ (lib : ConditionLib) {Summary : Type 0} where
  open lib use {Conditions, status, empty}

  -- The nodeset's conditions in a deployment
  unfoldable pub conditions_of : String → TargetDeployment Conditions Summary → Conditions
  unfolding lookup
  conditions_of name d = elim (lookup name d.node_set_conditions) [ none ↦ empty | some cs ↦ cs ]

  module _ (cluster : NodeSetCluster Conditions Summary) (spec : Spec) where
    abbrev pub with_result :
        Check Conditions Summary
        → NodeSetStatus Conditions Summary × Option Error
        → Step Conditions Summary
    with_result c (s, none) = go_on (record c { status = s })
    with_result c (s, some e) = stop (record c { status = s }) e

    -- A deployment that is complete and up to date. The check that is given has the flags reset.
    unfoldable pub adopt :
        TargetDeployment Conditions Summary → Check Conditions Summary → Step Conditions Summary
    unfolding take_over update_versions
    adopt d c =
        with_result (record c { flags = record c.flags { ready = true } })
          (update_versions cluster.service d.deployed_version (services_run spec d)
            (take_over spec.name d c.status))

    unfoldable pub after_certs :
        TargetDeployment Conditions Summary
        → Check Conditions Summary
        → Checked
        → Step Conditions Summary
    unfolding adopt
    after_certs d c (check_failed e) = stop c e
    after_certs d c (checked true) = go_on c
    after_certs d c (checked false) = adopt d c

    unfoldable pub after_vars :
        TargetDeployment Conditions Summary
        → Check Conditions Summary
        → Checked
        → Step Conditions Summary
    unfolding after_certs check_cert_secrets_changed
    after_vars d c (check_failed e) = stop c e
    after_vars d c (checked true) = go_on c
    after_vars d c (checked false) =
        after_certs d c (check_cert_secrets_changed cluster.cert_hashes d.secret_hashes)

    -- Whether a deployment was made from another configuration than the nodeset's.
    unfoldable pub is_outdated : TargetDeployment Conditions Summary → Bool
    unfolding text_at
    is_outdated d =
        not (text_at d.node_set_hashes spec.name == spec.config_hash)
        || not spec.pre_provisioned && not (text_at d.bmh_ref_hashes spec.name == spec.bmh_ref_hash)

    -- A deployment that is complete.
    unfoldable pub check_ready :
        TargetDeployment Conditions Summary → Check Conditions Summary → Step Conditions Summary
    unfolding is_outdated after_vars check_ansible_vars_from_changed
    check_ready d c =
        if is_outdated d
        then go_on c
        else after_vars d c (
            check_ansible_vars_from_changed cluster.ansible_vars d.config_map_hashes
              d.secret_hashes)

    -- A deployment that has not failed: the flags are reset.
    unfoldable pub check_other :
        Conditions
        → TargetDeployment Conditions Summary
        → Check Conditions Summary
        → Step Conditions Summary
    unfolding check_ready
    check_other cs d c =
        let base = record c {
          flags = record {
            ready = false;
            running = has_false (status node_set_deployment_ready cs);
            failing = false;
          };
        } in
        if has_true (status node_set_deployment_ready cs) then check_ready d base else go_on base

    -- A round of the loop; a deployment that has failed counts only where it is the latest.
    unfoldable pub check_round :
        Bool
        → TargetDeployment Conditions Summary
        → Check Conditions Summary
        → Step Conditions Summary
    unfolding conditions_of record_statuses check_other
    check_round latest d c =
        let cs = conditions_of spec.name d in
        let recorded = record c { status = record_statuses cs d c.status } in
        if cluster.is_error cs
        then if latest
          then stop
              (record recorded {
                flags = record no_flags { failing = true };
                failed_deployment = d.name;
              })
              (cluster.error_message cs)
          else go_on recorded
        else check_other cs d recorded

    -- The results: the status, the flags, the failed deployment, and an error or nil.
    abbrev pub resume :
        Step Conditions Summary
        → (Check Conditions Summary → Check Conditions Summary × Option Error)
        → Check Conditions Summary × Option Error
    resume (go_on c) loop = loop c
    resume (stop c e) loop = (c, some e)

    -- The loop over the deployments that are left.
    unfoldable pub check_loop :
        (String → Bool)
        → List (TargetDeployment Conditions Summary)
        → Check Conditions Summary
        → Check Conditions Summary × Option Error
    unfolding check_round
    check_loop latest [] c = (c, none)
    check_loop latest (d ∷ ds) c = resume (check_round (latest d.name) d c) (check_loop latest ds)

    abbrev pub first_check : NodeSetStatus Conditions Summary → Check Conditions Summary
    first_check s = record { status = s; flags = no_flags; failed_deployment = "" }

    -- With the answer of List
    unfoldable pub with_deployments :
        NodeSetStatus Conditions Summary
        → Listing (List (TargetDeployment Conditions Summary))
        → Check Conditions Summary × Option Error
    unfolding check_loop relevant is_latest
    with_deployments s (list_failed e) = (first_check s, some e)
    with_deployments s (listed deployments) =
        let sorted = cluster.sort (relevant spec.name deployments) in
        check_loop (is_latest sorted) sorted (first_check s)

    unfoldable pub check_deployment :
        NodeSetStatus Conditions Summary → Check Conditions Summary × Option Error
    unfolding with_deployments
    check_deployment s = with_deployments s cluster.deployments
