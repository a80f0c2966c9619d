-- ===== src/VersionController/Stages.antt =====
-- The stages of a minor update, in internal/controller/core/openstackversion_controller.go. A stage
-- changes nothing of the resource but its conditions.
use openstack_operator.Prelude.{
  Bool, true, false, not, ◌||◌, String, Option, none, some, List, ◌==◌, if◌then◌else◌, lookup,
  Outcome, ok, err, panic,
}
use openstack_operator.Images.{ovn_controller_image}
use openstack_operator.Version.{OpenStackVersion}
use openstack_operator.ImageMatch.{ControlPlane, ovn, keystone_image_match}
use openstack_operator.ImageMatch.Infrastructure.{
  ovn_controller_image_match, rabbitmq_image_match, galera_image_match, memcached_image_match,
}
use openstack_operator.ImageMatch.Failed.{controlplane_container_image_match}
use openstack_operator.Conditions.{
  true_condition, false_condition, Reason, init_reason, requested_reason, error_reason,
  severity_info, severity_warning, ConditionLib, has_true, ready_condition,
}
use openstack_operator.Nodesets.{
  NodeSet, dataplane_nodesets_ovn_controller_images_match, dataplane_nodesets_deployed,
}
use openstack_operator.Prelude.Control.{Flow, next, return, panicked, ◌>>=◌}

-- The types of the conditions, from api/core/v1beta1/conditions.go.
abbrev pub minor_update_ovn_controlplane : String
minor_update_ovn_controlplane = "MinorUpdateOVNControlplane"

abbrev pub minor_update_ovn_dataplane : String
minor_update_ovn_dataplane = "MinorUpdateOVNDataplane"

abbrev pub minor_update_rabbitmq : String
minor_update_rabbitmq = "MinorUpdateRabbitMQ"

abbrev pub minor_update_mariadb : String
minor_update_mariadb = "MinorUpdateMariaDB"

abbrev pub minor_update_memcached : String
minor_update_memcached = "MinorUpdateMemcached"

abbrev pub minor_update_keystone : String
minor_update_keystone = "MinorUpdateKeystone"

abbrev pub minor_update_controlplane : String
minor_update_controlplane = "MinorUpdateControlplane"

abbrev pub minor_update_dataplane : String
minor_update_dataplane = "MinorUpdateDataplane"

-- Two image pointers that are both set and point to the same text.
unfoldable pub same_image : Option String → Option String → Bool
same_image (some a) (some b) = a == b
same_image _ _ = false

-- `prev == nil || prev.Reason != condition.RequestedReason`, negated
unfoldable pub is_requested : Option Reason → Bool
is_requested (some requested_reason) = true
is_requested _ = false

module _ (lib : ConditionLib) where
  open lib use {Conditions, set, status, reason}

  unfoldable pub mark_true : String → Conditions → Conditions
  mark_true t cs = set (true_condition t) cs

  -- Set the condition to False with the reason `Requested`, and return.
  unfoldable pub wait_on : String → Conditions → Flow Conditions
  wait_on t cs = return (set (false_condition t requested_reason severity_info) cs) none

  -- `controlPlane.IsReady()`
  unfoldable pub is_ready : ControlPlane Conditions → Bool
  is_ready cp = has_true (status ready_condition cp.conditions)

  -- A stage that waits for a workload's images and for its condition of the control plane.
  unfoldable pub workload_stage :
      String → String → Bool → ControlPlane Conditions → Conditions → Flow Conditions
  unfolding wait_on mark_true
  workload_stage t ready_type images_match cp cs =
      if not images_match || not (has_true (status ready_type cp.conditions))
      then wait_on t cs
      else next (mark_true t cs)

  unfoldable pub ovn_controlplane_stage :
      ControlPlane Conditions → OpenStackVersion Conditions → Conditions → Flow Conditions
  unfolding workload_stage mark_true
  ovn_controlplane_stage cp version cs =
      if cp.enabled ovn
      then workload_stage minor_update_ovn_controlplane "OpenStackControlPlaneOVNReady"
          (ovn_controller_image_match cp version) cp cs
      else next (mark_true minor_update_ovn_controlplane cs)

  -- Whether the image that the deployed version has by default is that of the target version; the
  -- field is read from a pointer, which panics where it is nil.
  unfoldable pub ovn_image_unchanged : String → OpenStackVersion Conditions → Outcome Bool
  unfolding same_image lookup
  ovn_image_unchanged deployed_version version =
      elim (lookup deployed_version version.container_image_version_defaults) [
        | none ↦ ok false
        | some defaults ↦ elim defaults [
          | none ↦ panic
          | some d ↦ ok (
              same_image (d.template ovn_controller_image)
                (version.container_images.template ovn_controller_image))
        ]
      ]

  -- The image tells nothing: go by the deployments that run, now and at the previous reconcile.
  unfoldable pub observe_ovn_deployment :
      Outcome Bool → Option Reason → Conditions → Flow Conditions
  unfolding wait_on is_requested
  observe_ovn_deployment (err e) previous cs = return cs (some e)
  observe_ovn_deployment panic previous cs = panicked
  observe_ovn_deployment (ok true) previous cs = wait_on minor_update_ovn_dataplane cs
  observe_ovn_deployment (ok false) previous cs =
      if is_requested previous
      then next cs
      else return (set (false_condition minor_update_ovn_dataplane init_reason severity_info) cs)
          none

  -- The two checks of the stage; `previous` is the reason of its condition in `savedConditions`.
  unfoldable pub ovn_dataplane_checks :
      Outcome Bool → Outcome Bool → Outcome Bool → Option Reason → Conditions → Flow Conditions
  unfolding wait_on observe_ovn_deployment
  ovn_dataplane_checks (err e) unchanged running previous cs = return cs (some e)
  ovn_dataplane_checks panic unchanged running previous cs = panicked
  ovn_dataplane_checks (ok false) unchanged running previous cs =
      wait_on minor_update_ovn_dataplane cs
  ovn_dataplane_checks (ok true) (err e) running previous cs = return cs (some e)
  ovn_dataplane_checks (ok true) panic running previous cs = panicked
  ovn_dataplane_checks (ok true) (ok unchanged) running previous cs =
      if unchanged then observe_ovn_deployment running previous cs else next cs

  unfoldable pub ovn_dataplane_stage :
      ControlPlane Conditions
      → OpenStackVersion Conditions
      → String
      → List NodeSet
      → Outcome Bool
      → Option Reason
      → Conditions
      → Flow Conditions
  unfolding ovn_dataplane_checks ovn_image_unchanged mark_true
  ovn_dataplane_stage cp version deployed_version nodesets running previous cs =
      (if cp.enabled ovn
        then ovn_dataplane_checks
            (dataplane_nodesets_ovn_controller_images_match
              (version.container_images.template ovn_controller_image) nodesets)
            (ovn_image_unchanged deployed_version version) running previous cs
        else next cs)
      >>= λ cs. next (mark_true minor_update_ovn_dataplane cs)

  unfoldable pub controlplane_stage :
      ControlPlane Conditions → OpenStackVersion Conditions → Conditions → Flow Conditions
  unfolding wait_on mark_true is_ready
  controlplane_stage cp version cs =
      if not (is_ready cp)
      then wait_on minor_update_controlplane cs
      else if not (controlplane_container_image_match cp version).0
      then return (set (false_condition minor_update_controlplane error_reason severity_warning) cs)
          none
      else next (mark_true minor_update_controlplane cs)

  unfoldable pub dataplane_stage :
      OpenStackVersion Conditions → List NodeSet → Conditions → Flow Conditions
  unfolding wait_on mark_true
  dataplane_stage version nodesets cs =
      if not (dataplane_nodesets_deployed version.target_version nodesets)
      then wait_on minor_update_dataplane cs
      else next (mark_true minor_update_dataplane cs)

  -- The body of `if … TargetVersion != *DeployedVersion`.
  unfoldable pub minor_update :
      ControlPlane Conditions
      → OpenStackVersion Conditions
      → String
      → List NodeSet
      → Outcome Bool
      → Option Reason
      → Conditions
      → Flow Conditions
  minor_update cp version deployed_version nodesets running previous cs = do
    cs ← ovn_controlplane_stage cp version cs
    cs ← ovn_dataplane_stage cp version deployed_version nodesets running previous cs
    cs ←
        workload_stage minor_update_rabbitmq "OpenStackControlPlaneRabbitMQReady"
          (rabbitmq_image_match cp version) cp cs
    cs ←
        workload_stage minor_update_mariadb "OpenStackControlPlaneMariaDBReady"
          (galera_image_match cp version) cp cs
    cs ←
        workload_stage minor_update_memcached "OpenStackControlPlaneMemcachedReady"
          (memcached_image_match cp version) cp cs
    cs ←
        workload_stage minor_update_keystone "OpenStackControlPlaneKeystoneAPIReady"
          (keystone_image_match cp version) cp cs
    cs ← controlplane_stage cp version cs
    dataplane_stage version nodesets cs
