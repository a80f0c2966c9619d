-- ===== src/Version.antt =====
-- The OpenStackVersion resource (api/core/v1beta1/openstackversion_types.go).
use openstack_operator.Prelude.{
  Bool, true, false, ℕ, String, Option, none, some, List, [], ◌∷◌, ◌==◌, if◌then◌else◌, length,
  lookup, nat_eq,
}
use openstack_operator.Images.{
  ImageField, image_fields, ImageMap, ContainerTemplate, CustomContainerImages, ContainerDefaults,
  ContainerImages,
}
pub mod Equality

pub record ServiceDefaults : Type 0 where
  pub glance_wsgi : Option String
  pub glance_location_api : Option String
  pub manila_sharev1 : Option String
  pub rabbitmq_version : Option String

-- The resource, over the type of `condition.Conditions`. Where a map is nil it is the empty list
-- here, since the code makes a map before it writes; `conditions` tells nil apart, as the code does.
-- The defaults of a version are a pointer, which can be nil.
pub record OpenStackVersion (Conditions : Type 0) : Type 0 where
  pub name : String
  pub generation : ℕ
  pub deleting : Bool  -- DeletionTimestamp is set
  pub finalizer : Bool
  pub annotations : List (String × String)
  pub target_version : String
  pub custom_container_images : CustomContainerImages
  pub conditions : Option Conditions
  pub observed_generation : ℕ
  pub deployed_version : Option String
  pub available_version : Option String
  pub container_images : ContainerImages
  pub container_image_version_defaults : List (String × Option ContainerDefaults)
  pub available_service_defaults : List (String × Option ServiceDefaults)
  pub service_defaults : ServiceDefaults
  pub tracked_custom_images : List (String × CustomContainerImages)

-- stringPtrEqual, and stringPointersEqual of internal/openstack/version.go
unfoldable pub string_ptr_equal : Option String → Option String → Bool
string_ptr_equal none none = true
string_ptr_equal (some a) (some b) = a == b
string_ptr_equal _ _ = false

-- the loop of containerTemplateEqual over the fields that are left
unfoldable pub fields_equal : ContainerTemplate → ContainerTemplate → List ImageField → Bool
unfolding string_ptr_equal
fields_equal a b [] = true
fields_equal a b (f ∷ fs) = if string_ptr_equal (a f) (b f) then fields_equal a b fs else false

unfoldable pub container_template_equal : ContainerTemplate → ContainerTemplate → Bool
unfolding fields_equal
container_template_equal a b = fields_equal a b image_fields

-- a nil map has no entry
abbrev pub entries : ImageMap → List (String × Option String)
entries none = []
entries (some m) = m

-- `exists && stringPtrEqual(valueA, valueB)`
unfoldable pub entry_equal : Option String → Option (Option String) → Bool
unfolding string_ptr_equal
entry_equal value_a none = false
entry_equal value_a (some value_b) = string_ptr_equal value_a value_b

-- the loop of stringMapEqual over the entries of `a` that are left
unfoldable pub entries_equal : List (String × Option String) → List (String × Option String) → Bool
unfolding entry_equal lookup
entries_equal [] b = true
entries_equal ((key, value_a) ∷ a) b =
    if entry_equal value_a (lookup key b) then entries_equal a b else false

unfoldable pub string_map_equal : ImageMap → ImageMap → Bool
unfolding entries_equal
string_map_equal a b =
    if nat_eq (length (entries a)) (length (entries b))
    then entries_equal (entries a) (entries b)
    else false

unfoldable pub custom_container_images_all_modified :
    CustomContainerImages → CustomContainerImages → Bool
unfolding container_template_equal string_map_equal
custom_container_images_all_modified a b =
    if container_template_equal a.template b.template
    then if string_map_equal a.cinder_volume_images b.cinder_volume_images
      then if string_map_equal a.manila_share_images b.manila_share_images then false else true
      else true
    else true
