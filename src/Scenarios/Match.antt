-- ===== src/Scenarios/Match.antt =====
-- A customised version, and a control plane that runs it or not.
use openstack_operator.Prelude.{
  Bool, true, false, String, Option, none, some, [], ◌∷◌, ◌≡◌, ◌↔◌, ◌⊎◌, is_empty,
}
use openstack_operator.Images.{
  ImageField, CustomContainerImages, get_container_images, keystone_api_image, image_at,
}
use openstack_operator.Images.Fallback.{
  Chosen, get_container_images-Chosen, get_container_images-volumes,
}
use openstack_operator.ImageMatch.Failed.{controlplane_container_image_match}
use openstack_operator.ImageMatch.Workloads.{Workload, runs, IsCurrent}
use openstack_operator.ImageMatch.Report.{
  workloads, stale_names, controlplane_container_image_match_lem,
  controlplane_container_image_match_iff,
}
use openstack_operator.Version.{container_template_equal}
use openstack_operator.Version.Equality.{container_template_equal_iff}
use openstack_operator.Scenarios.Values.{update_to_v2, plane_v2, defaults_of, no_custom}

abbrev only_keystone : ImageField → Option String
only_keystone keystone_api_image = some "keystone:1"
only_keystone f = none

-- A custom image of Keystone, and of one backend of Cinder.
abbrev custom : CustomContainerImages
custom = record {
  template = only_keystone;
  cinder_volume_images = some (("netapp", some "netapp:1") ∷ []);
  manila_share_images = none;
}

get_container_images-Chosen_example :
    Chosen
      (some "keystone:1")
      (some "v2")
      ((get_container_images (defaults_of "v2") custom).0.template keystone_api_image)
get_container_images-Chosen_example =
    get_container_images-Chosen (defaults_of "v2") custom keystone_api_image (λ e. cc e) (λ e. cc e)

get_container_images-volumes_example :
    image_at (get_container_images (defaults_of "v2") custom).0.cinder_volume_images "netapp"
    ≡ some "netapp:1"
unfolding image_at
get_container_images-volumes_example =
    get_container_images-volumes (defaults_of "v2") custom "netapp"

controlplane_container_image_match_lem_example :
    (stale : Workload → Bool) × ((w : Workload)
      → (stale w ≡ true) ↔ ((runs plane_v2 w ≡ true) × ¬ (IsCurrent plane_v2 update_to_v2 w)))
    × (controlplane_container_image_match plane_v2 update_to_v2
        ≡ (is_empty (stale_names stale workloads), stale_names stale workloads))
controlplane_container_image_match_lem_example =
    controlplane_container_image_match_lem plane_v2 update_to_v2

controlplane_container_image_match_iff_example :
    ((controlplane_container_image_match plane_v2 update_to_v2).0 ≡ true)
    ↔ ((w : Workload) → (runs plane_v2 w ≡ false) ⊎ IsCurrent plane_v2 update_to_v2 w)
controlplane_container_image_match_iff_example =
    controlplane_container_image_match_iff plane_v2 update_to_v2

container_template_equal_iff_example :
    (container_template_equal custom.template no_custom.template ≡ true)
    ↔ ((f : ImageField) → custom.template f ≡ no_custom.template f)
container_template_equal_iff_example =
    container_template_equal_iff custom.template no_custom.template
