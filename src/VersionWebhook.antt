-- ===== src/VersionWebhook.antt =====
-- The admission of OpenStackVersion resources (api/core/v1beta1/openstackversion_webhook.go). The
-- webhooks of internal/webhook/core/v1beta1 only convert their arguments and call these.
pub mod Validation
use openstack_operator.Prelude.{
  Bool, true, false, not, ◌&&◌, ◌||◌, String, Option, none, some, List, [], ◌∷◌, ◌==◌,
  if◌then◌else◌, lookup, is_empty, Listing, listed, list_failed, Error,
}
use openstack_operator.Images.{
  ImageField, image_fields, ImageMap, ContainerTemplate, CustomContainerImages,
}
use openstack_operator.Version.{OpenStackVersion, entries, custom_container_images_all_modified}

abbrev pub skip_custom_images_validation : String
skip_custom_images_validation = "core.openstack.org/skip-custom-images-validation"

-- Why a request is refused.
pub data Refusal : Type 0 where
  not_available : String → Refusal  -- the target version is not the available one
  list_error : Error → Refusal
  only_one_instance : Refusal
  unknown_version : String → Refusal  -- neither available nor with defaults from before
  not_a_version : Refusal  -- `old` is no OpenStackVersion
  custom_images_unchanged : String → Refusal

-- What a validator returns: a nil error, or one.
pub data Admission : Type 0 where
  allowed : Admission
  refused : Refusal → Admission

-- a value that is set
abbrev pub is_set : {A : Type 0} → Option A → Bool
is_set none = false
is_set (some a) = true

-- The fields of the struct that are left.
unfoldable pub has_custom_field : ContainerTemplate → List ImageField → Bool
has_custom_field template [] = false
has_custom_field template (f ∷ fs) =
    if is_set (template f) then true else has_custom_field template fs

-- The entries of a map that are left.
unfoldable pub has_custom_entry : List (String × Option String) → Bool
has_custom_entry [] = false
has_custom_entry ((name, img) ∷ rest) = if is_set img then true else has_custom_entry rest

unfoldable pub has_any_custom_image : CustomContainerImages → Bool
unfolding has_custom_field has_custom_entry
has_any_custom_image images =
    has_custom_entry (entries images.cinder_volume_images)
    || has_custom_entry (entries images.manila_share_images)
    || has_custom_field images.template image_fields

module _ {C : Type 0} where
  -- `Default`, with the available version that the operator was built with
  unfoldable pub set_default : String → OpenStackVersion C → OpenStackVersion C
  set_default available_version r =
      if r.target_version == "" then record r { target_version = available_version } else r

  unfoldable pub validate_create :
      String → OpenStackVersion C → Listing (List (OpenStackVersion C)) → Admission
  validate_create available_version r versions =
      if not (r.target_version == available_version)
      then refused (not_available r.target_version)
      else elim versions [
        | list_failed e ↦ refused (list_error e)
        | listed items ↦ if is_empty items then allowed else refused only_one_instance
      ]

  -- `targetVersion` changes where a version is deployed.
  unfoldable pub is_minor_update : OpenStackVersion C → OpenStackVersion C → Bool
  is_minor_update old r =
      not (old.target_version == r.target_version) && is_set old.deployed_version

  -- The custom images that are tracked for the version before, compared with those asked for.
  unfoldable pub validate_custom_images : OpenStackVersion C → OpenStackVersion C → Admission
  unfolding has_any_custom_image lookup
  validate_custom_images old r =
      if not (is_set (lookup skip_custom_images_validation r.annotations))
        && has_any_custom_image r.custom_container_images
      then elim (lookup old.target_version r.tracked_custom_images) [
        | none ↦ allowed
        | some tracked ↦
            if custom_container_images_all_modified r.custom_container_images tracked
            then allowed
            else refused (custom_images_unchanged old.target_version)
      ]
      else allowed

  -- `old` is nil here where the object is no OpenStackVersion.
  unfoldable pub validate_update :
      String → OpenStackVersion C → Option (OpenStackVersion C) → Admission
  unfolding is_minor_update validate_custom_images lookup
  validate_update available_version r old_object =
      if not (r.target_version == available_version)
        && not (is_set (lookup r.target_version r.container_image_version_defaults))
      then refused (unknown_version r.target_version)
      else elim old_object [
        | none ↦ refused not_a_version
        | some old ↦ if is_minor_update old r then validate_custom_images old r else allowed
      ]
