-- ===== src/Scenarios/Values.antt =====
-- The values that the scenarios share: a minor update from version v1 to version v2.
use openstack_operator.Prelude.{true, false, String, none, some, [], ◌∷◌, found, not_found, listed}
use openstack_operator.Images.{
  CustomContainerImages, ContainerDefaults, ContainerImages, get_container_images,
}
use openstack_operator.Version.{OpenStackVersion}
use openstack_operator.ImageMatch.{ControlPlane}
use openstack_operator.Conditions.{true_condition, false_condition, requested_reason, severity_info}
use openstack_operator.Nodesets.{NodeSet}
use openstack_operator.Scenarios.Library.{Table}
use openstack_operator.VersionController.Initialize.{Env, Cluster, no_service_defaults}

abbrev pub defaults_of : String → ContainerDefaults
defaults_of tag = record {
  template = λ f. some tag;
  cinder_volume_image = some tag;
  manila_share_image = some tag;
}

abbrev pub no_custom : CustomContainerImages
no_custom = record { template = λ f. none; cinder_volume_images = none; manila_share_images = none }

abbrev pub images_v1 : ContainerImages
images_v1 = (get_container_images (defaults_of "v1") no_custom).0

abbrev pub images_v2 : ContainerImages
images_v2 = (get_container_images (defaults_of "v2") no_custom).0

abbrev pub saved : Table
saved t = some (false_condition t requested_reason severity_info)

-- Version v2 is asked for where v1 is deployed.
abbrev pub update_to_v2 : OpenStackVersion Table
update_to_v2 = record {
  name = "openstack";
  generation = 2;
  deleting = false;
  finalizer = true;
  annotations = ("core.openstack.org/skip-custom-images-validation", "true") ∷ [];
  target_version = "v2";
  custom_container_images = no_custom;
  conditions = some saved;
  observed_generation = 1;
  deployed_version = some "v1";
  available_version = some "v2";
  container_images = images_v1;
  container_image_version_defaults = ("v1", some (defaults_of "v1")) ∷ [];
  available_service_defaults = [];
  service_defaults = no_service_defaults;
  tracked_custom_images = ("v1", no_custom) ∷ [];
}

abbrev pub env_v2 : Env
env_v2 = record {
  available_version = "v2";
  image_defaults = defaults_of "v2";
  service_defaults = no_service_defaults;
}

abbrev pub all_true : Table
all_true t = some (true_condition t)

-- Every workload is enabled, runs v2 and is ready.
abbrev pub plane_v2 : ControlPlane Table
plane_v2 = record {
  enabled = λ s. true;
  container_images = images_v2;
  deployed_version = some "v2";
  conditions = all_true;
}

abbrev pub nodeset_v2 : NodeSet
nodeset_v2 = record {
  name = "edpm";
  generation = 3;
  observed_generation = 3;
  nodes = "compute-0" ∷ [];
  services = "ovn" ∷ [];
  ready = true;
  deployed_version = "v2";
  container_images = ("OvnControllerImage", "v2") ∷ [];
}

abbrev pub cluster_v2 : Cluster Table
cluster_v2 = record {
  control_plane = found plane_v2;
  nodesets = listed (nodeset_v2 ∷ []);
  deployments = listed [];
  service = λ name. not_found;
}
