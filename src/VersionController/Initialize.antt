-- ===== src/VersionController/Initialize.antt =====
-- What `Reconcile` of internal/controller/core/openstackversion_controller.go reads, and how it fills
-- the status of a version before it looks at the control plane.
use openstack_operator.Prelude.{
  String, Option, none, some, List, [], ◌∷◌, ◌==◌, if◌then◌else◌, lookup, insert, Fetch, Listing,
}
use openstack_operator.Images.{ContainerDefaults, get_container_images}
use openstack_operator.Version.{OpenStackVersion, ServiceDefaults}
use openstack_operator.ImageMatch.{ControlPlane}
use openstack_operator.Conditions.{Condition, unknown_condition, init_reason}
use openstack_operator.Nodesets.{NodeSet, Deployment, Service}
use openstack_operator.Prelude.Control.{Flow, next, panicked}
use openstack_operator.VersionController.Stages.{
  minor_update_ovn_controlplane, minor_update_ovn_dataplane, minor_update_rabbitmq,
  minor_update_mariadb, minor_update_memcached, minor_update_keystone, minor_update_controlplane,
  minor_update_dataplane,
}

abbrev pub initialized : String
initialized = "Initialized"

-- What the operator was built with: `envAvailableVersion`, and the results of
-- `InitializeOpenStackVersionImageDefaults` and `InitializeOpenStackVersionServiceDefaults`.
pub record Env : Type 0 where
  pub available_version : String
  pub image_defaults : ContainerDefaults
  pub service_defaults : ServiceDefaults

-- The answers of the API server during one reconcile.
pub record Cluster (Conditions : Type 0) : Type 0 where
  pub control_plane : Fetch (ControlPlane Conditions)
  pub nodesets : Listing (List NodeSet)
  pub deployments : Listing (List Deployment)
  pub service : String → Fetch Service

-- The conditions of a minor update, in the order of its stages.
abbrev pub minor_update_conditions : List Condition
minor_update_conditions =
    unknown_condition minor_update_ovn_controlplane init_reason
    ∷ unknown_condition minor_update_ovn_dataplane init_reason
    ∷ unknown_condition minor_update_rabbitmq init_reason
    ∷ unknown_condition minor_update_mariadb init_reason
    ∷ unknown_condition minor_update_memcached init_reason
    ∷ unknown_condition minor_update_keystone init_reason
    ∷ unknown_condition minor_update_controlplane init_reason
    ∷ unknown_condition minor_update_dataplane init_reason
    ∷ []

-- A minor update is in progress: the version that is deployed, if it is not the target.
unfoldable pub updating_from : {C : Type 0} → OpenStackVersion C → Option String
updating_from version = elim version.deployed_version [
  | none ↦ none
  | some deployed ↦ if deployed == version.target_version then none else some deployed
]

unfoldable pub condition_list : {C : Type 0} → OpenStackVersion C → List Condition
unfolding updating_from
condition_list version =
    unknown_condition initialized init_reason
    ∷ elim (updating_from version) [ none ↦ [] | some deployed ↦ minor_update_conditions ]

-- `Spec.CustomContainerImages` is written to as `GetContainerImages` shares its maps.
unfoldable pub set_images :
    {C : Type 0} → ContainerDefaults → OpenStackVersion C → OpenStackVersion C
unfolding get_container_images insert
set_images defaults version =
    let (images, custom) = get_container_images defaults version.custom_container_images in
    record version {
      container_images = images;
      custom_container_images = custom;
      tracked_custom_images = insert version.target_version custom version.tracked_custom_images;
    }

abbrev pub no_service_defaults : ServiceDefaults
no_service_defaults = record {
  glance_wsgi = none;
  glance_location_api = none;
  manila_sharev1 = none;
  rabbitmq_version = none;
}

-- The defaults of the available version are stored before those of the target are looked up.
unfoldable pub stored_service_defaults :
    {C : Type 0} → Env → OpenStackVersion C → List (String × Option ServiceDefaults)
unfolding insert
stored_service_defaults env version =
    insert env.available_version (some env.service_defaults) version.available_service_defaults

-- With what the lookup finds; `*serviceDefVal` of a pointer that is nil panics.
unfoldable pub set_service_defaults_from :
    {C : Type 0}
    → List (String × Option ServiceDefaults)
    → Option (Option ServiceDefaults)
    → OpenStackVersion C
    → Flow (OpenStackVersion C)
set_service_defaults_from available none version = next (record version {
  available_service_defaults = available;
  service_defaults = no_service_defaults;
})
set_service_defaults_from available (some none) version = panicked
set_service_defaults_from available (some (some defaults)) version =
    next (record version { available_service_defaults = available; service_defaults = defaults })

unfoldable pub set_service_defaults :
    {C : Type 0} → Env → OpenStackVersion C → Flow (OpenStackVersion C)
unfolding stored_service_defaults set_service_defaults_from lookup
set_service_defaults env version =
    set_service_defaults_from (stored_service_defaults env version)
      (lookup version.target_version (stored_service_defaults env version)) version

-- The defaults of the available version are stored before those of the target are looked up.
unfoldable pub set_available : {C : Type 0} → Env → OpenStackVersion C → OpenStackVersion C
unfolding insert
set_available env version = record version {
  available_version = some env.available_version;
  container_image_version_defaults =
      insert env.available_version (some env.image_defaults)
        version.container_image_version_defaults;
}
