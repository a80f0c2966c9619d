-- ===== src/Dependencies.antt =====
-- Which services of a control plane need which others: `checkDepsEnabled` and
-- `ValidateServiceDependencies` of api/core/v1beta1/openstackcontrolplane_webhook.go.
pub mod Blocks
pub mod Closure
use openstack_operator.Prelude.{
  Bool, true, false, not, String, Option, none, some, List, [], ◌∷◌, if◌then◌else◌, Outcome, ok,
  err, panic,
}
use openstack_operator.ImageMatch.{
  Section, barbican, cinder, galera, glance, heat, horizon, keystone, memcached, neutron, nova,
  octavia, placement, rabbitmq, swift, telemetry, watcher,
}

-- The services that `checkDepsEnabled` knows.
pub data Dependent : Type 0 where
  needs_keystone needs_glance needs_cinder needs_placement needs_neutron needs_nova : Dependent
  needs_heat needs_swift needs_horizon needs_octavia needs_barbican : Dependent
  needs_ceilometer needs_autoscaling needs_cloudkitty needs_watcher : Dependent

-- The flags `Enabled` of the template of telemetry, which are pointers.
pub record TelemetryFlags : Type 0 where
  pub ceilometer : Option Bool
  pub autoscaling : Option Bool
  pub metric_storage : Option Bool

-- The spec, as far as it is read here; the template of telemetry is a pointer too.
pub record ControlPlaneSpec : Type 0 where
  pub enabled : Section → Bool
  pub telemetry_template : Option TelemetryFlags

-- The sections of the condition of a case, in its order.
unfoldable pub requirements : Dependent → List Section
requirements needs_keystone = galera ∷ memcached ∷ rabbitmq ∷ []
requirements needs_glance = galera ∷ memcached ∷ keystone ∷ []
requirements needs_cinder = galera ∷ memcached ∷ rabbitmq ∷ keystone ∷ []
requirements needs_placement = galera ∷ memcached ∷ keystone ∷ []
requirements needs_neutron = galera ∷ memcached ∷ rabbitmq ∷ keystone ∷ []
requirements needs_nova =
    galera ∷ memcached ∷ rabbitmq ∷ keystone ∷ placement ∷ neutron ∷ glance ∷ []
requirements needs_heat = galera ∷ memcached ∷ rabbitmq ∷ keystone ∷ []
requirements needs_swift = memcached ∷ keystone ∷ []
requirements needs_horizon = galera ∷ memcached ∷ keystone ∷ []
requirements needs_barbican = galera ∷ keystone ∷ []
requirements needs_octavia = galera ∷ memcached ∷ rabbitmq ∷ keystone ∷ neutron ∷ glance ∷ nova ∷ []
requirements needs_autoscaling = galera ∷ heat ∷ rabbitmq ∷ keystone ∷ []
requirements needs_ceilometer = rabbitmq ∷ keystone ∷ []
requirements needs_cloudkitty = rabbitmq ∷ keystone ∷ []
requirements needs_watcher = galera ∷ memcached ∷ rabbitmq ∷ keystone ∷ telemetry ∷ []

-- `a.Enabled && b.Enabled && …`
unfoldable pub all_enabled : (Section → Bool) → List Section → Bool
all_enabled enabled [] = true
all_enabled enabled (s ∷ sections) = if enabled s then all_enabled enabled sections else false

-- `*a && *b` of two pointers
unfoldable pub both_set : Option Bool → Option Bool → Outcome Bool
both_set none b = panic
both_set (some false) b = ok false
both_set (some true) none = panic
both_set (some true) (some b) = ok b

-- The flags of the template that Watcher needs.
unfoldable pub watcher_flags : Option TelemetryFlags → Outcome Bool
unfolding both_set
watcher_flags none = panic
watcher_flags (some flags) = both_set flags.ceilometer flags.metric_storage

-- Whether the condition of a case holds; those of telemetry that only Watcher has come last.
unfoldable pub more_enabled : ControlPlaneSpec → Dependent → Outcome Bool
unfolding watcher_flags
more_enabled spec needs_watcher = watcher_flags spec.telemetry_template
more_enabled spec d = ok true

unfoldable pub deps_enabled : ControlPlaneSpec → Dependent → Outcome Bool
unfolding all_enabled requirements more_enabled
deps_enabled spec d =
    if all_enabled spec.enabled (requirements d) then more_enabled spec d else ok false

-- `flag != nil && *flag` of the template of telemetry
unfoldable pub flag_set : (TelemetryFlags → Option Bool) → Option TelemetryFlags → Outcome Bool
flag_set flag none = panic
flag_set flag (some flags) = elim (flag flags) [ none ↦ ok false | some b ↦ ok b ]

-- The test before the call of `checkDepsEnabled`. No call is about CloudKitty.
unfoldable pub is_asked_for : ControlPlaneSpec → Dependent → Outcome Bool
unfolding flag_set
is_asked_for spec needs_keystone = ok (spec.enabled keystone)
is_asked_for spec needs_glance = ok (spec.enabled glance)
is_asked_for spec needs_cinder = ok (spec.enabled cinder)
is_asked_for spec needs_placement = ok (spec.enabled placement)
is_asked_for spec needs_neutron = ok (spec.enabled neutron)
is_asked_for spec needs_nova = ok (spec.enabled nova)
is_asked_for spec needs_heat = ok (spec.enabled heat)
is_asked_for spec needs_swift = ok (spec.enabled swift)
is_asked_for spec needs_horizon = ok (spec.enabled horizon)
is_asked_for spec needs_octavia = ok (spec.enabled octavia)
is_asked_for spec needs_barbican = ok (spec.enabled barbican)
is_asked_for spec needs_ceilometer =
    if spec.enabled telemetry
    then flag_set (λ flags. flags.ceilometer) spec.telemetry_template
    else ok false
is_asked_for spec needs_autoscaling =
    if spec.enabled telemetry
    then flag_set (λ flags. flags.autoscaling) spec.telemetry_template
    else ok false
is_asked_for spec needs_cloudkitty = ok false
is_asked_for spec needs_watcher = ok (spec.enabled watcher)

-- The services in the order of the blocks of `ValidateServiceDependencies`.
abbrev pub dependents : List Dependent
dependents =
    needs_keystone ∷ needs_glance ∷ needs_cinder ∷ needs_placement ∷ needs_neutron ∷ needs_nova
    ∷ needs_heat ∷ needs_swift ∷ needs_horizon ∷ needs_octavia ∷ needs_barbican ∷ needs_ceilometer
    ∷ needs_autoscaling ∷ needs_watcher ∷ []

-- One block of `ValidateServiceDependencies`: whether it appends an error.
unfoldable pub is_missing : Outcome Bool → Outcome Bool → Outcome Bool
is_missing panic deps = panic
is_missing (err e) deps = err e
is_missing (ok false) deps = ok false
is_missing (ok true) (ok b) = ok (not b)
is_missing (ok true) deps = deps

-- `allErrs = append(allErrs, err)`; an error is kept by the service that it is about.
unfoldable pub append_error :
    Dependent → Outcome Bool → Outcome (List Dependent) → Outcome (List Dependent)
append_error d (ok true) (ok errors) = ok (d ∷ errors)
append_error d (ok false) rest = rest
append_error d (ok true) rest = rest
append_error d (err e) rest = err e
append_error d panic rest = panic

-- The blocks that are left.
unfoldable pub validate_blocks : ControlPlaneSpec → List Dependent → Outcome (List Dependent)
unfolding is_missing append_error is_asked_for deps_enabled
validate_blocks spec [] = ok []
validate_blocks spec (d ∷ rest) =
    append_error d (is_missing (is_asked_for spec d) (deps_enabled spec d))
      (validate_blocks spec rest)

unfoldable pub validate_service_dependencies : ControlPlaneSpec → Outcome (List Dependent)
unfolding validate_blocks
validate_service_dependencies spec = validate_blocks spec dependents
