-- ===== src/Scenarios/Control.antt =====
-- A control plane whose services have what they need.
use openstack_operator.Prelude.{true, none, some, [], ◌≡◌, ◌↔◌, refl, ok}
use mathlib.Core.List.Memᴰ.{head, tail}
use openstack_operator.ImageMatch.{Section, octavia, nova, placement}
use openstack_operator.Dependencies.{ControlPlaneSpec, validate_service_dependencies}
use openstack_operator.Dependencies.Blocks.{IsMet}
use openstack_operator.Dependencies.Closure.{
  Needs, directly, through, validate_service_dependencies_iff, validate_service_dependencies-Needs,
}

abbrev everything : ControlPlaneSpec
everything = record {
  enabled = λ s. true;
  telemetry_template =
      some (record { ceilometer = some true; autoscaling = none; metric_storage = some true });
}

validate_service_dependencies_iff_example :
    (validate_service_dependencies everything ≡ ok [])
    ↔ ((s : Section) → everything.enabled s ≡ true → IsMet everything s)
validate_service_dependencies_iff_example = validate_service_dependencies_iff everything

octavia-Needs_placement : Needs octavia placement
octavia-Needs_placement =
    through
      (directly {s = octavia} {t = nova} (tail (tail (tail (tail (tail (tail (head refl))))))))
      (directly (tail (tail (tail (tail (tail (tail (head refl))))))))

everything-valid : validate_service_dependencies everything ≡ ok []
unfolding validate_service_dependencies
everything-valid = refl

validate_service_dependencies-Needs_example : everything.enabled placement ≡ true
validate_service_dependencies-Needs_example =
    validate_service_dependencies-Needs everything everything-valid octavia-Needs_placement refl
