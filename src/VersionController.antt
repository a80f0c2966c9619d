-- ===== src/VersionController.antt =====
-- `Reconcile` of internal/controller/core/openstackversion_controller.go: its parts in the order in
-- which it runs them. Logging and the times of the conditions are left out.
pub mod Stages
pub mod Initialize
pub mod Passed
pub mod Deployed
pub mod MinorUpdate
pub mod Run
pub mod Order
pub mod Handshake
pub mod Safety
pub mod Totality
use openstack_operator.Prelude.{
  Bool, true, false, not, ◌&&◌, String, Option, none, some, List, ◌==◌, if◌then◌else◌, lookup,
  delete, Fetch, found, not_found, failed, Listing, listed, list_failed, Error,
}
use openstack_operator.Images.{ContainerDefaults}
use openstack_operator.Version.{OpenStackVersion}
use openstack_operator.ImageMatch.{ControlPlane}
use openstack_operator.Conditions.{
  true_condition, false_condition, unknown_condition, Reason, init_reason, requested_reason,
  severity_info, ConditionLib, ready_condition,
}
use openstack_operator.Nodesets.{
  NodeSet, dataplane_nodesets_deployed_version_is_set,
  is_dataplane_deployment_running_for_service_type,
}
use openstack_operator.Prelude.Control.{Flow, next, return, panicked, ◌>>=◌}
use openstack_operator.VersionController.Initialize.{
  Env, Cluster, initialized, updating_from, condition_list, set_images, set_service_defaults,
  set_available,
}
use openstack_operator.VersionController.Stages.{
  minor_update_ovn_dataplane, mark_true, is_ready, minor_update,
}

abbrev pub minor_update_available : String
minor_update_available = "MinorUpdateAvailable"

abbrev pub skip_custom_images_validation : String
skip_custom_images_validation = "core.openstack.org/skip-custom-images-validation"

abbrev pub is_nil : {A : Type 0} → Option A → Bool
is_nil none = true
is_nil (some a) = false

module _ (lib : ConditionLib) where
  open lib use {Conditions, init, set, remove, set_mirror, all_sub_condition_is_true, reason}

  -- The version with the conditions that a stage left.
  abbrev pub with_conditions :
      OpenStackVersion Conditions → Conditions → OpenStackVersion Conditions
  with_conditions version cs = record version { conditions = some cs }

  -- `if controlPlane.IsReady()`
  unfoldable pub set_deployed :
      ControlPlane Conditions → OpenStackVersion Conditions → OpenStackVersion Conditions
  unfolding is_ready delete
  set_deployed cp version =
      if is_ready lib cp
      then record version {
        deployed_version = some version.target_version;
        annotations = delete skip_custom_images_validation version.annotations;
      }
      else version

  -- `*AvailableVersion != *DeployedVersion`, of the deployed and the available version; the latter is
  -- dereferenced whether it is nil or not.
  unfoldable pub compare_available : Option String → Option String → Conditions → Flow Conditions
  compare_available none available cs = next (remove minor_update_available cs)
  compare_available (some v) none cs = panicked
  compare_available (some v) (some available) cs = next (
      if available == v
      then remove minor_update_available cs
      else set (true_condition minor_update_available) cs)

  -- `return ctrl.Result{}, nil` at the end
  abbrev pub ended :
      OpenStackVersion Conditions → Flow Conditions → Flow (OpenStackVersion Conditions)
  ended version (next cs) = return (with_conditions version cs) none
  ended version (return cs e) = return (with_conditions version cs) e
  ended version panicked = panicked

  -- From `if controlPlane.IsReady()` to the end.
  unfoldable pub conclude :
      ControlPlane Conditions
      → OpenStackVersion Conditions
      → Conditions
      → Flow (OpenStackVersion Conditions)
  unfolding set_deployed compare_available
  conclude cp version cs =
      ended (set_deployed cp version)
        (compare_available (set_deployed cp version).deployed_version version.available_version cs)

  -- `savedConditions.Get(t)`, then its reason; nil conditions hold nothing
  unfoldable pub saved_reason : Option Conditions → String → Option Reason
  saved_reason none t = none
  saved_reason (some cs) t = reason t cs

  -- What is left after a minor update
  abbrev pub settle :
      ControlPlane Conditions
      → OpenStackVersion Conditions
      → Flow Conditions
      → Flow (OpenStackVersion Conditions)
  settle cp version (next cs) = conclude cp version cs
  settle cp version (return cs e) = return (with_conditions version cs) e
  settle cp version panicked = panicked

  -- The minor update, if there is one to make from a deployed version, and the rest of `Reconcile`.
  unfoldable pub update_from :
      Cluster Conditions
      → ControlPlane Conditions
      → List NodeSet
      → Option Conditions
      → OpenStackVersion Conditions
      → Conditions
      → Option String
      → Flow (OpenStackVersion Conditions)
  unfolding conclude saved_reason
  update_from cluster cp nodesets saved version cs none = conclude cp version cs
  update_from cluster cp nodesets saved version cs (some deployed) = settle cp version (
      minor_update lib cp version deployed nodesets
        (is_dataplane_deployment_running_for_service_type cluster.service cluster.deployments
          nodesets "ovn")
        (saved_reason saved minor_update_ovn_dataplane) cs)

  -- With the control plane and the nodesets at hand.
  unfoldable pub update :
      Cluster Conditions
      → ControlPlane Conditions
      → List NodeSet
      → Option Conditions
      → OpenStackVersion Conditions
      → Conditions
      → Flow (OpenStackVersion Conditions)
  unfolding update_from updating_from
  update cluster cp nodesets saved version cs =
      update_from cluster cp nodesets saved version cs (updating_from version)

  -- A greenfield deployment waits for the control plane or all nodesets to be deployed.
  unfoldable pub is_waiting : ControlPlane Conditions → List NodeSet → Bool
  is_waiting cp nodesets = elim cp.deployed_version [
    | none ↦ not (dataplane_nodesets_deployed_version_is_set nodesets)
    | some v ↦ false
  ]

  unfoldable pub with_nodesets :
      Cluster Conditions
      → ControlPlane Conditions
      → Listing (List NodeSet)
      → Option Conditions
      → OpenStackVersion Conditions
      → Conditions
      → Flow (OpenStackVersion Conditions)
  unfolding is_waiting update
  with_nodesets cluster cp (list_failed e) saved version cs =
      return (with_conditions version cs) (some e)
  with_nodesets cluster cp (listed nodesets) saved version cs =
      if is_waiting cp nodesets
      then return (with_conditions version cs) none
      else update cluster cp nodesets saved version cs

  -- The version is initialized: look up the control plane.
  unfoldable pub with_control_plane :
      Cluster Conditions
      → Fetch (ControlPlane Conditions)
      → Option Conditions
      → OpenStackVersion Conditions
      → Conditions
      → Flow (OpenStackVersion Conditions)
  unfolding with_nodesets
  with_control_plane cluster not_found saved version cs = return (with_conditions version cs) none
  with_control_plane cluster (failed e) saved version cs =
      return (with_conditions version cs) (some e)
  with_control_plane cluster (found cp) saved version cs =
      with_nodesets cluster cp cluster.nodesets saved version cs

  -- The defaults of the target version, if they are known, fill the status in.
  unfoldable pub initialize_from :
      Env
      → Cluster Conditions
      → Option Conditions
      → OpenStackVersion Conditions
      → Conditions
      → Option (Option ContainerDefaults)
      → Flow (OpenStackVersion Conditions)
  unfolding set_images set_service_defaults mark_true with_control_plane
  initialize_from env cluster saved version cs none = return (with_conditions version cs) none
  initialize_from env cluster saved version cs (some none) = panicked  -- GetContainerImages(nil, …)
  initialize_from env cluster saved version cs (some (some defaults)) =
      set_service_defaults env (set_images defaults version) >>= λ version.
      with_control_plane cluster cluster.control_plane saved version (mark_true lib initialized cs)

  unfoldable pub initialize :
      Env
      → Cluster Conditions
      → Option Conditions
      → OpenStackVersion Conditions
      → Conditions
      → Flow (OpenStackVersion Conditions)
  unfolding set_available initialize_from lookup
  initialize env cluster saved version cs =
      let version = set_available env version in
      initialize_from env cluster saved version cs
        (lookup version.target_version version.container_image_version_defaults)

  -- `Reconcile` of a version that was fetched, up to the deferred function.
  unfoldable pub reconcile_found :
      Env → Cluster Conditions → OpenStackVersion Conditions → Flow (OpenStackVersion Conditions)
  unfolding condition_list initialize
  reconcile_found env cluster version =
      let cs = init (condition_list version) in
      let observed = record version {
        conditions = some cs;
        observed_generation = version.generation;
      } in
      if not version.deleting && is_nil version.conditions
      then return (record observed { finalizer = true }) none
      else initialize env cluster version.conditions observed
          (set (false_condition initialized requested_reason severity_info) cs)

  -- The deferred function: the condition `Ready` is computed from the others.
  unfoldable pub update_ready : Conditions → Conditions
  update_ready cs =
      if all_sub_condition_is_true cs
      then set (true_condition ready_condition) cs
      else set_mirror ready_condition (set (unknown_condition ready_condition init_reason) cs)

  unfoldable pub deferred : OpenStackVersion Conditions → OpenStackVersion Conditions
  unfolding update_ready
  deferred version = elim version.conditions [
    | none ↦ version
    | some cs ↦ record version { conditions = some (update_ready cs) }
  ]

  -- What is left of a reconcile: the version as it is patched, and the error that is returned. An
  -- error of the patch takes the place of the other.
  unfoldable pub patched :
      (OpenStackVersion Conditions → Option Error)
      → Flow (OpenStackVersion Conditions)
      → Flow (OpenStackVersion Conditions)
  unfolding deferred
  patched patch (next version) = return (deferred version) (patch (deferred version))
  patched patch (return version e) =
      return (deferred version)
        (elim (patch (deferred version)) [ none ↦ e | some failure ↦ some failure ])
  patched patch panicked = panicked

  -- `Reconcile`; the first case of the result is that there was nothing to patch.
  unfoldable pub reconcile :
      Env
      → Cluster Conditions
      → (OpenStackVersion Conditions → Option Error)
      → Fetch (OpenStackVersion Conditions)
      → Option Error × Option (Flow (OpenStackVersion Conditions))
  unfolding patched reconcile_found
  reconcile env cluster patch not_found = (none, none)
  reconcile env cluster patch (failed e) = (some e, none)
  reconcile env cluster patch (found version) =
      (none, some (patched patch (reconcile_found env cluster version)))
