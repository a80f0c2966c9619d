-- ===== src/Images/Fallback.antt =====
-- Where the images of a version come from (internal/openstack/version.go).
use openstack_operator.Prelude.{
  String, Option, [], none, some, ◌≡◌, ◌≢◌, refl, arith, if◌then◌else◌, ◌==◌, lookup-insert,
}
use openstack_operator.Images.{
  ImageField, ImageMap, CustomContainerImages, ContainerDefaults, image_at, get_img, with_default,
  get_container_images, openstack_network_exporter_image, edpm_openstack_network_exporter_image,
}

-- What an administrator asked for wins, and the default of the version stands in for it.
pub data Chosen (custom default : Option String) : Option String → Type 0 where
  customized : (image : String) → custom ≡ some image → Chosen custom default (some image)
  defaulted : custom ≡ none → Chosen custom default default

get_img-Chosen : (custom default : Option String) → Chosen custom default (get_img custom default)
unfolding get_img
get_img-Chosen (some image) default = customized image refl
get_img-Chosen none default = defaulted refl

-- Each field but the two of the network exporter is the custom image where one is given, and the
-- default of the version where none is.
pub get_container_images-Chosen :
    (defaults : ContainerDefaults) (custom : CustomContainerImages) (f : ImageField)
    → f ≢ openstack_network_exporter_image
    → f ≢ edpm_openstack_network_exporter_image
    → Chosen
        (custom.template f)
        (defaults.template f)
        ((get_container_images defaults custom).0.template f)
unfolding get_container_images
get_container_images-Chosen defaults custom openstack_network_exporter_image h k = absurd (h refl)
get_container_images-Chosen defaults custom edpm_openstack_network_exporter_image h k =
    absurd (k refl)
get_container_images-Chosen defaults custom f h k =
    get_img-Chosen (custom.template f) (defaults.template f)

image_at-insert :
    (m : ImageMap) (image : Option String) (name : String)
    → image_at (some (with_default m image)) name
      ≡ (if "default" == name then image else image_at m name)
unfolding image_at with_default
image_at-insert none image name = ground (arith, lookup-insert "default" name image [])
image_at-insert (some m) image name = ground (arith, lookup-insert "default" name image m)

-- Every backend keeps its custom volume image, but the key `default` holds the version's default.
pub get_container_images-volumes :
    (defaults : ContainerDefaults) (custom : CustomContainerImages) (name : String)
    → image_at (get_container_images defaults custom).0.cinder_volume_images name ≡ (
        if "default" == name
        then defaults.cinder_volume_image
        else image_at custom.cinder_volume_images name)
unfolding get_container_images
get_container_images-volumes defaults custom name =
    image_at-insert custom.cinder_volume_images defaults.cinder_volume_image name
