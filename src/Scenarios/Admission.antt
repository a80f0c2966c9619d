-- ===== src/Scenarios/Admission.antt =====
-- Requests that the webhook refuses and allows, and the overrides of an operator.
use openstack_operator.Prelude.{
  eq_iff, arith, Bool, true, false, String, Option, none, some, [], ◌∷◌, ◌≡◌, ◌≢◌, ◌↔◌, ◌⊎◌, inl,
  refl, ℕ, listed, lookup, zero, suc,
}
use openstack_operator.Images.{CustomContainerImages}
use openstack_operator.Version.{OpenStackVersion}
use openstack_operator.Version.Equality.{IsMap}
use openstack_operator.VersionController.Initialize.{set_images}
use openstack_operator.VersionWebhook.{
  allowed, refused, custom_images_unchanged, set_default, validate_create, validate_update,
  has_any_custom_image,
}
use openstack_operator.VersionWebhook.Validation.{
  validate_update-unchanged, validate_update-set_images, validate_create-set_default,
}
use openstack_operator.Overrides.{
  Toleration, Operator, no_operator, merge_tolerations, OperatorSpec, set_overrides,
}
use openstack_operator.Overrides.Tolerations.{find_first, find_last, merge_tolerations_lem}
use openstack_operator.Overrides.Defaults.{HasOverrides, set_overrides-HasOverrides}
use openstack_operator.Scenarios.Library.{Table}
use openstack_operator.Scenarios.Values.{update_to_v2, defaults_of}

-- Every image is a custom one.
abbrev custom : CustomContainerImages
custom = record {
  template = λ f. some "mine";
  cinder_volume_images = some (("netapp", some "netapp:1") ∷ []);
  manila_share_images = none;
}

abbrev before : OpenStackVersion Table
before = record update_to_v2 {
  target_version = "v1";
  custom_container_images = custom;
  tracked_custom_images = ("v1", custom) ∷ [];
  annotations = [];
}

abbrev asked : OpenStackVersion Table
asked = record before { target_version = "v2" }

v1_ne_v2 : ◌≢◌ {A = String} "v1" "v2"
v1_ne_v2 e = ground (arith, (eq_iff "v1" "v2").1 e)

validate_update-unchanged_example :
    validate_update "v2" asked (some before) ≡ refused (custom_images_unchanged "v1")
validate_update-unchanged_example =
    validate_update-unchanged "v2" before asked custom (inl refl) v1_ne_v2 refl
      (unfold lookup in refl) (unfold has_any_custom_image in refl) (unfold lookup in refl)
      (record { fields = λ f. refl; cinder = refl; manila = refl })
      (unfold IsMap lookup in (refl, tt)) (unfold IsMap in tt)

-- The same request, where the tracked images are those that `Reconcile` has stored.
abbrev reconciled : OpenStackVersion Table
reconciled = record asked {
  tracked_custom_images = (set_images (defaults_of "v1") before).tracked_custom_images;
}

validate_update-set_images_example : validate_update "v2" reconciled (some before) ≡ allowed
validate_update-set_images_example =
    validate_update-set_images "v2" (defaults_of "v1") before reconciled
      (("netapp", some "netapp:1") ∷ []) refl (unfold lookup in refl) refl refl (inl refl)

validate_create-set_default_example :
    (validate_create "v2" (set_default "v2" asked) (listed []) ≡ allowed)
    ↔ ((asked.target_version ≡ "") ⊎ (asked.target_version ≡ "v2"))
validate_create-set_default_example = validate_create-set_default "v2" asked

abbrev for_seconds : String → Option ℕ → Toleration
for_seconds key seconds = record {
  key = key;
  operator = "Exists";
  value = "";
  effect = "NoExecute";
  toleration_seconds = seconds;
}

merge_tolerations_lem_example :
    find_first "not-ready" (
      merge_tolerations
        (for_seconds "not-ready" (some 300) ∷ [])
        (for_seconds "not-ready" (some 60) ∷ []))
    ≡ some (for_seconds "not-ready" (some 60))
unfolding find_last
merge_tolerations_lem_example =
    merge_tolerations_lem "not-ready" (for_seconds "not-ready" (some 300) ∷ [])
      (for_seconds "not-ready" (some 60) ∷ [])

abbrev nova : Operator
nova = record no_operator { name = "nova" }

-- A quantity that is a number.
abbrev is_positive : ℕ → Bool
is_positive zero = false
is_positive (suc n) = true

abbrev to_string : ℕ → String
to_string zero = "0"
to_string (suc n) = "some"

abbrev override_nova : OperatorSpec ℕ
override_nova = record {
  name = "nova";
  replicas = some 0;
  limits = some (record { cpu = some 2; memory = some 0 });
  requests = none;
  tolerations = for_seconds "not-ready" (some 60) ∷ [];
}

set_overrides-HasOverrides_example :
    HasOverrides is_positive to_string override_nova nova
      (set_overrides is_positive to_string override_nova nova)
set_overrides-HasOverrides_example =
    set_overrides-HasOverrides is_positive to_string override_nova nova
