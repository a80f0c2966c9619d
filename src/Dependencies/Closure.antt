-- ===== src/Dependencies/Closure.antt =====
-- What a control plane whose dependencies are accepted has enabled
-- (api/core/v1beta1/openstackcontrolplane_webhook.go).
use openstack_operator.Prelude.{true, List, [], ◌∷◌, ◌≡◌, ◌↔◌, All, ok, Memᴰ, subst, sym}
use mathlib.Core.List.Memᴰ.{head, tail, not-nil}
use openstack_operator.ImageMatch.{Section}
use openstack_operator.Dependencies.{ControlPlaneSpec, validate_service_dependencies}
use openstack_operator.Dependencies.Blocks.{
  needed_by, On, IsMet, AreMet-IsSatisfied, AreSatisfied-IsMet,
  validate_service_dependencies-IsSatisfied,
}

-- `ValidateServiceDependencies` finds no error, and dereferences no pointer that is nil, exactly when
-- each enabled section has all that it needs enabled: the services that the message of its block
-- names, with Memcached for Neutron; for Watcher also Ceilometer and the metric storage; and for
-- telemetry, whose template is not nil, what those of Ceilometer and autoscaling need that are
-- enabled.
pub validate_service_dependencies_iff :
    (spec : ControlPlaneSpec)
    → (validate_service_dependencies spec ≡ ok [])
      ↔ ((s : Section) → spec.enabled s ≡ true → IsMet spec s)
validate_service_dependencies_iff spec = (
  λ valid. AreMet-IsSatisfied spec ((validate_service_dependencies-IsSatisfied spec).0 valid),
  λ met. (validate_service_dependencies-IsSatisfied spec).1 (AreSatisfied-IsMet spec met),
)

-- A section needs another: its block names it, or one that needs it.
pub data Needs : Section → Section → Type 0 where
  directly : {s t : Section} → Memᴰ t (needed_by s) → Needs s t
  through : {s t u : Section} → Needs s t → Needs t u → Needs s u

All-Memᴰ :
    (P : Section → Type 0) (sections : List Section) {s : Section}
    → All P sections
    → Memᴰ s sections
    → P s
All-Memᴰ P [] all at = absurd (not-nil at)
All-Memᴰ P (t ∷ sections) (p, _) (head e) = subst P (sym e) p
All-Memᴰ P (t ∷ sections) (_, all) (tail at) = All-Memᴰ P sections all at

-- Where `ValidateServiceDependencies` finds no error, all that an enabled section needs, directly or
-- through others, is enabled too.
pub validate_service_dependencies-Needs :
    (spec : ControlPlaneSpec) {s t : Section}
    → validate_service_dependencies spec ≡ ok []
    → Needs s t
    → spec.enabled s ≡ true
    → spec.enabled t ≡ true
validate_service_dependencies-Needs spec {s} valid (directly at) on =
    All-Memᴰ (On spec) (needed_by s) ((validate_service_dependencies_iff spec).0 valid s on).0 at
validate_service_dependencies-Needs spec valid (through p q) on =
    validate_service_dependencies-Needs spec valid q
      (validate_service_dependencies-Needs spec valid p on)
