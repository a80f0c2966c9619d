-- ===== src/VersionWebhook/Validation.antt =====
-- What the admission of OpenStackVersion resources lets through.
use openstack_operator.Prelude.{
  true, false, String, Option, none, some, List, [], eq_iff, ◌≡◌, ◌≢◌, ◌⊎◌, ◌↔◌, arith, lookup,
  lookup-insert_self, length-insert, listed,
}
use openstack_operator.Images.{
  ImageField, ContainerDefaults, CustomContainerImages, get_container_images, with_default,
}
use openstack_operator.Version.{OpenStackVersion, entries, custom_container_images_all_modified}
use openstack_operator.Version.Equality.{
  container_template_equal_iff, string_map_equal_refl, string_map_equal-length, IsMap,
}
use openstack_operator.VersionController.Initialize.{set_images}
use openstack_operator.VersionWebhook.{
  skip_custom_images_validation, allowed, refused, custom_images_unchanged, is_set,
  has_any_custom_image, set_default, validate_create, validate_update,
}

-- The same images in every field, and the same maps.
pub record AreSame (a b : CustomContainerImages) : Type 0 where
  pub fields : (f : ImageField) → a.template f ≡ b.template f
  pub cinder : a.cinder_volume_images ≡ b.cinder_volume_images
  pub manila : a.manila_share_images ≡ b.manila_share_images

all_modified_of_same :
    (a b : CustomContainerImages)
    → AreSame a b
    → IsMap (entries a.cinder_volume_images)
    → IsMap (entries a.manila_share_images)
    → custom_container_images_all_modified a b ≡ false
unfolding custom_container_images_all_modified
all_modified_of_same a b same c m =
    rw ((container_template_equal_iff a.template b.template).1 same.fields) (
      rw (← same.cinder, ← same.manila)
        (rw (string_map_equal_refl a.cinder_volume_images c)
          (rw (string_map_equal_refl a.manila_share_images m))))

module _ {C : Type 0} (available_version : String) (old r : OpenStackVersion C) where
  -- A change of the target version of a deployed version, to a version that is known, is refused if
  -- custom images are asked for that are those tracked for the version before, unless the
  -- annotation switches this check off.
  pub validate_update-unchanged :
      (tracked : CustomContainerImages)
      → (r.target_version ≡ available_version)
        ⊎ (is_set (lookup r.target_version r.container_image_version_defaults) ≡ true)
      → old.target_version ≢ r.target_version
      → is_set old.deployed_version ≡ true
      → lookup skip_custom_images_validation r.annotations ≡ none
      → has_any_custom_image r.custom_container_images ≡ true
      → lookup old.target_version r.tracked_custom_images ≡ some tracked
      → AreSame r.custom_container_images tracked
      → IsMap (entries r.custom_container_images.cinder_volume_images)
      → IsMap (entries r.custom_container_images.manila_share_images)
      → validate_update available_version r (some old)
        ≡ refused (custom_images_unchanged old.target_version)
  unfolding validate_update
  validate_update-unchanged tracked known other deployed checked custom found same c m = ground (
    arith,
    eq_iff r.target_version available_version,
    eq_iff old.target_version r.target_version,
    all_modified_of_same r.custom_container_images tracked same c m,
  )

cinder_of_set_images :
    (defaults : ContainerDefaults) (custom : CustomContainerImages)
    (m : List (String × Option String))
    → custom.cinder_volume_images ≡ some m
    → lookup "default" m ≡ none
    → custom_container_images_all_modified custom (get_container_images defaults custom).1 ≡ true
unfolding custom_container_images_all_modified get_container_images with_default
cinder_of_set_images defaults custom m h none_there = ground (
  arith,
  string_map_equal-length custom.cinder_volume_images
      (some (with_default (some m) defaults.cinder_volume_image)),
  length-insert "default" defaults.cinder_volume_image m none_there,
)

tracked-set_images :
    {C : Type 0} (defaults : ContainerDefaults) (old : OpenStackVersion C)
    → lookup old.target_version (set_images defaults old).tracked_custom_images
      ≡ some (get_container_images defaults old.custom_container_images).1
unfolding set_images
tracked-set_images defaults old =
    lookup-insert_self old.target_version
      (get_container_images defaults old.custom_container_images).1 old.tracked_custom_images

-- The check lets images through that did not change. `Reconcile` writes the entry `default` into the
-- map of the spec, which it shares, before it tracks the spec: where the spec names a volume image
-- of a Cinder backend, and not `default`, the same spec sent again with another target version is
-- allowed, though its images are those of the version before.
pub validate_update-set_images :
    {C : Type 0} (available_version : String) (defaults : ContainerDefaults)
    (old r : OpenStackVersion C) (m : List (String × Option String))
    → old.custom_container_images.cinder_volume_images ≡ some m
    → lookup "default" m ≡ none
    → r.custom_container_images ≡ old.custom_container_images
    → r.tracked_custom_images ≡ (set_images defaults old).tracked_custom_images
    → (r.target_version ≡ available_version)
      ⊎ (is_set (lookup r.target_version r.container_image_version_defaults) ≡ true)
    → validate_update available_version r (some old) ≡ allowed
unfolding validate_update
validate_update-set_images available_version defaults old r m h none_there same tracked known =
    ground (
      arith,
      cinder_of_set_images defaults old.custom_container_images m h none_there,
      tracked-set_images defaults old,
      eq_iff r.target_version available_version,
    )

-- A version that is created with no target version, or with the available one, is allowed where
-- there is none yet in the namespace; with any other target version it is refused.
pub validate_create-set_default :
    {C : Type 0} (available_version : String) (r : OpenStackVersion C)
    → (validate_create available_version (set_default available_version r) (listed []) ≡ allowed)
      ↔ ((r.target_version ≡ "") ⊎ (r.target_version ≡ available_version))
unfolding validate_create set_default
validate_create-set_default available_version r = ground (
  arith,
  eq_iff r.target_version "",
  eq_iff r.target_version available_version,
  eq_iff available_version available_version,
)
