-- ===== src/DeploymentController/Rounds.antt =====
-- The loop of `Reconcile` over the nodesets that it deploys
-- (internal/controller/dataplane/openstackdataplanedeployment_controller.go).
use openstack_operator.Prelude.{
  Bool, true, false, String, Option, none, some, List, [], ◌∷◌, ◌++◌, lookup, insert, Error,
}
use openstack_operator.Prelude.Control.{Flow, next, return, panicked, ◌>>=◌}
use openstack_operator.Conditions.{
  true_condition, false_condition, Reason, requested_reason, severity_info, backoff_limit_exceeded,
  reason_eq, ConditionLib,
}
use openstack_operator.Version.{OpenStackVersion}
use openstack_operator.Deployer.{Progress}
use openstack_operator.Deployer.Rounds.{deploy}
use openstack_operator.DeploymentController.Inputs.{
  Target, DeploymentStatus, Cluster, deployment_ready, node_set_deployment_ready, node_set_entry,
  set_entry,
}

-- The variables of the loop.
pub record Round (Conditions Summary : Type 0) : Type 0 where
  pub status : DeploymentStatus Conditions Summary
  pub should_requeue : Bool
  pub errors : List (String × Error)  -- what deploymentErrMsg is made of; haveError: not empty
  pub backoff_limit_reached : Bool

abbrev pub first_round :
    {Conditions Summary : Type 0} → DeploymentStatus Conditions Summary → Round Conditions Summary
first_round s = record {
  status = s;
  should_requeue = false;
  errors = [];
  backoff_limit_reached = false;
}

-- nodesetServiceMap[name]
unfoldable pub services_for : List (String × List String) → String → List String
unfolding lookup
services_for service_map name = elim (lookup name service_map) [ none ↦ [] | some names ↦ names ]

-- `if err != nil`, where the result is never nil; the reason of a condition that is not there is a
-- nil dereference.
unfoldable pub add_error :
    {Conditions Summary : Type 0}
    → String
    → Error
    → Option Reason
    → Round Conditions Summary
    → DeploymentStatus Conditions Summary
    → Flow (Round Conditions Summary)
add_error name e none r s = panicked
add_error name e (some nodeset_reason) r s = next (record r {
  status = s;
  should_requeue = true;
  errors = r.errors ++ (name, e) ∷ [];
  backoff_limit_reached = reason_eq nodeset_reason backoff_limit_exceeded;
})

module _ (lib : ConditionLib) where
  open lib use {Conditions, set, set_mirror, reason, kept}

  -- `nsConditions.Set(nsConditions.Mirror(NodeSetDeploymentReadyCondition))`
  abbrev pub mirrored : Conditions → Conditions
  mirrored cs = set_mirror node_set_deployment_ready cs

  module _ {Summary : Type 0} where
    unfoldable pub mark_running :
        DeploymentStatus Conditions Summary → DeploymentStatus Conditions Summary
    mark_running s = record s {
      deployed = false;
      conditions =
          set (false_condition deployment_ready requested_reason severity_info) s.conditions;
    }

    module _ {Mounts : Type 0} where
      -- The deployer of a nodeset shares the status with the controller: what it starts from, and what is
      -- left when it returns.
      unfoldable pub deployer_of :
          Target Mounts → DeploymentStatus Conditions Summary → Progress Conditions Mounts Summary
      unfolding node_set_entry
      deployer_of target s = record {
        conditions = node_set_entry lib target.node_set.name s;
        execution_summaries = s.execution_summaries;
        container_images = s.container_images;
        runner_image = target.runner_image;
        extra_mounts = target.extra_mounts;
      }

      -- With the nodeset's entry as a change of a copy of it leaves it.
      unfoldable pub collect :
          Target Mounts
          → Progress Conditions Mounts Summary
          → Conditions
          → DeploymentStatus Conditions Summary
          → DeploymentStatus Conditions Summary
      unfolding set_entry
      collect target p cs s = set_entry lib target.node_set.name (kept p.conditions cs) (record s {
        execution_summaries = p.execution_summaries;
        container_images = p.container_images;
      })

      -- What follows a call of Deploy.
      unfoldable pub after_deploy :
          Target Mounts
          → Round Conditions Summary
          → Flow (Progress Conditions Mounts Summary)
          → Flow (Round Conditions Summary)
      unfolding collect add_error insert
      after_deploy target r (next p) =
          let name = target.node_set.name in
          let s =
            collect target p
              (set (true_condition node_set_deployment_ready) (mirrored p.conditions)) r.status in
          next (record r {
            status = record s {
              node_set_hashes = insert name target.config_hash s.node_set_hashes;
              bmh_ref_hashes = insert name target.bmh_ref_hash s.bmh_ref_hashes;
            };
          })
      after_deploy target r (return p none) = next (record r {
        status = collect target p (mirrored p.conditions) r.status;
        should_requeue = true;
      })
      after_deploy target r (return p (some e)) =
          add_error target.node_set.name e
            (reason node_set_deployment_ready (mirrored p.conditions)) r
            (collect target p (mirrored p.conditions) r.status)
      after_deploy target r panicked = panicked

      module _ (cluster : Cluster Conditions Mounts Summary)
          (version : Option (OpenStackVersion Conditions))
          (service_map : List (String × List String)) where
        unfoldable pub deploy_node_set :
            Target Mounts → Round Conditions Summary → Flow (Round Conditions Summary)
        unfolding mark_running deployer_of after_deploy services_for deploy
        deploy_node_set target r =
            let s = mark_running r.status in
            after_deploy target (record r { status = s })
              (deploy lib (cluster.api version target)
                (services_for service_map target.node_set.name) (deployer_of target s))

        -- The loop over the nodesets that are left.
        unfoldable pub deploy_node_sets :
            List (Target Mounts) → Round Conditions Summary → Flow (Round Conditions Summary)
        unfolding deploy_node_set
        deploy_node_sets [] r = next r
        deploy_node_sets (target ∷ targets) r =
            deploy_node_set target r >>= deploy_node_sets targets
