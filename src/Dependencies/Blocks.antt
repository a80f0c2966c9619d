-- ===== src/Dependencies/Blocks.antt =====
-- What each block of `ValidateServiceDependencies` asks for, beside what its service needs
-- (api/core/v1beta1/openstackcontrolplane_webhook.go).
use openstack_operator.Prelude.{
  true, false, some, List, [], ◌∷◌, ◌≡◌, ◌↔◌, ◌⊎◌, refl, arith, All, Outcome, ok, Bool, get_elem?,
  All-get_elem?,
}
use openstack_operator.ImageMatch.{
  Section, galera, memcached, rabbitmq, telemetry, cinder, heat, swift, horizon, barbican, watcher,
  keystone, nova, glance, neutron, placement, octavia,
}
use openstack_operator.Dependencies.{
  TelemetryFlags, needs_ceilometer, needs_autoscaling, needs_watcher, needs_keystone, needs_glance,
  needs_cinder, needs_placement, needs_neutron, needs_nova, needs_heat, needs_swift, needs_horizon,
  needs_octavia, needs_barbican, Dependent, ControlPlaneSpec, requirements, all_enabled,
  more_enabled, deps_enabled, is_asked_for, dependents, is_missing, append_error, validate_blocks,
  validate_service_dependencies,
}

all_enabled_iff :
    (enabled : Section → Bool) (sections : List Section)
    → (all_enabled enabled sections ≡ true) ↔ All (λ s. enabled s ≡ true) sections
unfolding all_enabled
all_enabled_iff enabled [] = (λ _. tt, λ _. refl)
all_enabled_iff enabled (s ∷ sections) = ground (arith, all_enabled_iff enabled sections)

-- The service is not asked for, or all sections that it requires are enabled, and for Watcher also
-- the two parts of telemetry.
abbrev IsSatisfied : ControlPlaneSpec → Dependent → Type 0
IsSatisfied spec d =
    (is_asked_for spec d ≡ ok false)
    ⊎ ((is_asked_for spec d ≡ ok true)
        × All (λ s. spec.enabled s ≡ true) (requirements d)
        × (more_enabled spec d ≡ ok true))

deps_enabled_iff :
    (spec : ControlPlaneSpec) (d : Dependent)
    → (deps_enabled spec d ≡ ok true)
      ↔ (All (λ s. spec.enabled s ≡ true) (requirements d) × (more_enabled spec d ≡ ok true))
unfolding deps_enabled
deps_enabled_iff spec d = ground (arith, all_enabled_iff spec.enabled (requirements d))

is_missing_iff :
    (asked deps : Outcome Bool)
    → (is_missing asked deps ≡ ok false)
      ↔ ((asked ≡ ok false) ⊎ ((asked ≡ ok true) × (deps ≡ ok true)))
unfolding is_missing
is_missing_iff asked deps = ground arith

append_error_iff :
    (d : Dependent) (missing : Outcome Bool) (rest : Outcome (List Dependent))
    → (append_error d missing rest ≡ ok []) ↔ ((missing ≡ ok false) × (rest ≡ ok []))
unfolding append_error
append_error_iff d missing rest = ground arith

validate_blocks_iff :
    (spec : ControlPlaneSpec) (ds : List Dependent)
    → (validate_blocks spec ds ≡ ok []) ↔ All (IsSatisfied spec) ds
unfolding validate_blocks
validate_blocks_iff spec [] = (λ _. tt, λ _. refl)
validate_blocks_iff spec (d ∷ ds) = ground (
  arith,
  append_error_iff d (is_missing (is_asked_for spec d) (deps_enabled spec d))
      (validate_blocks spec ds),
  is_missing_iff (is_asked_for spec d) (deps_enabled spec d),
  deps_enabled_iff spec d,
  validate_blocks_iff spec ds,
)

pub validate_service_dependencies-IsSatisfied :
    (spec : ControlPlaneSpec)
    → (validate_service_dependencies spec ≡ ok []) ↔ All (IsSatisfied spec) dependents
unfolding validate_service_dependencies
validate_service_dependencies-IsSatisfied spec = validate_blocks_iff spec dependents

-- The services that a section needs: those that the message of its block names, and for Neutron also
-- Memcached, which its message leaves out.
abbrev pub needed_by : Section → List Section
needed_by keystone = galera ∷ memcached ∷ rabbitmq ∷ []
needed_by glance = galera ∷ memcached ∷ keystone ∷ []
needed_by cinder = galera ∷ memcached ∷ rabbitmq ∷ keystone ∷ []
needed_by placement = galera ∷ memcached ∷ keystone ∷ []
needed_by neutron = memcached ∷ galera ∷ rabbitmq ∷ keystone ∷ []
needed_by nova = galera ∷ memcached ∷ rabbitmq ∷ keystone ∷ glance ∷ neutron ∷ placement ∷ []
needed_by heat = galera ∷ memcached ∷ rabbitmq ∷ keystone ∷ []
needed_by swift = memcached ∷ keystone ∷ []
needed_by horizon = galera ∷ memcached ∷ keystone ∷ []
needed_by barbican = galera ∷ keystone ∷ []
needed_by octavia = galera ∷ memcached ∷ rabbitmq ∷ keystone ∷ glance ∷ neutron ∷ nova ∷ []
needed_by watcher = galera ∷ memcached ∷ rabbitmq ∷ keystone ∷ telemetry ∷ []
needed_by _ = []

abbrev pub On : ControlPlaneSpec → Section → Type 0
On spec s = spec.enabled s ≡ true

-- What Watcher needs of the parts of telemetry, and the enabled parts of telemetry of others.
abbrev pub PartsMet : ControlPlaneSpec → Section → Type 0
PartsMet spec watcher =
    (flags : TelemetryFlags) × (spec.telemetry_template ≡ some flags)
    × (flags.ceilometer ≡ some true)
    × (flags.metric_storage ≡ some true)
PartsMet spec telemetry =
    (flags : TelemetryFlags) × (spec.telemetry_template ≡ some flags)
    × (flags.ceilometer ≡ some true → All (On spec) (rabbitmq ∷ keystone ∷ []))
    × (flags.autoscaling ≡ some true → All (On spec) (galera ∷ heat ∷ rabbitmq ∷ keystone ∷ []))
PartsMet spec _ = Unit

abbrev pub IsMet : ControlPlaneSpec → Section → Type 0
IsMet spec s = All (On spec) (needed_by s) × PartsMet spec s

module _ (spec : ControlPlaneSpec) where
  keystone_iff : IsSatisfied spec needs_keystone ↔ (On spec keystone → IsMet spec keystone)
  unfolding is_asked_for requirements more_enabled
  keystone_iff = ground arith

  glance_iff : IsSatisfied spec needs_glance ↔ (On spec glance → IsMet spec glance)
  unfolding is_asked_for requirements more_enabled
  glance_iff = ground arith

  cinder_iff : IsSatisfied spec needs_cinder ↔ (On spec cinder → IsMet spec cinder)
  unfolding is_asked_for requirements more_enabled
  cinder_iff = ground arith

  placement_iff : IsSatisfied spec needs_placement ↔ (On spec placement → IsMet spec placement)
  unfolding is_asked_for requirements more_enabled
  placement_iff = ground arith

  neutron_iff : IsSatisfied spec needs_neutron ↔ (On spec neutron → IsMet spec neutron)
  unfolding is_asked_for requirements more_enabled
  neutron_iff = ground arith

  nova_iff : IsSatisfied spec needs_nova ↔ (On spec nova → IsMet spec nova)
  unfolding is_asked_for requirements more_enabled
  nova_iff = ground arith

  heat_iff : IsSatisfied spec needs_heat ↔ (On spec heat → IsMet spec heat)
  unfolding is_asked_for requirements more_enabled
  heat_iff = ground arith

  swift_iff : IsSatisfied spec needs_swift ↔ (On spec swift → IsMet spec swift)
  unfolding is_asked_for requirements more_enabled
  swift_iff = ground arith

  horizon_iff : IsSatisfied spec needs_horizon ↔ (On spec horizon → IsMet spec horizon)
  unfolding is_asked_for requirements more_enabled
  horizon_iff = ground arith

  octavia_iff : IsSatisfied spec needs_octavia ↔ (On spec octavia → IsMet spec octavia)
  unfolding is_asked_for requirements more_enabled
  octavia_iff = ground arith

  barbican_iff : IsSatisfied spec needs_barbican ↔ (On spec barbican → IsMet spec barbican)
  unfolding is_asked_for requirements more_enabled
  barbican_iff = ground arith

  watcher_iff : IsSatisfied spec needs_watcher ↔ (On spec watcher → IsMet spec watcher)
  unfolding is_asked_for requirements more_enabled
  watcher_iff = ground arith

  telemetry_iff :
      (IsSatisfied spec needs_ceilometer × IsSatisfied spec needs_autoscaling)
      ↔ (On spec telemetry → IsMet spec telemetry)
  unfolding is_asked_for requirements more_enabled
  telemetry_iff = ground arith

  pub AreMet-IsSatisfied :
      All (IsSatisfied spec) dependents → (s : Section) → On spec s → IsMet spec s
  unfolding get_elem?
  AreMet-IsSatisfied h keystone =
      keystone_iff.0 (All-get_elem? (IsSatisfied spec) dependents 0 h refl)
  AreMet-IsSatisfied h glance = glance_iff.0 (All-get_elem? (IsSatisfied spec) dependents 1 h refl)
  AreMet-IsSatisfied h cinder = cinder_iff.0 (All-get_elem? (IsSatisfied spec) dependents 2 h refl)
  AreMet-IsSatisfied h placement =
      placement_iff.0 (All-get_elem? (IsSatisfied spec) dependents 3 h refl)
  AreMet-IsSatisfied h neutron =
      neutron_iff.0 (All-get_elem? (IsSatisfied spec) dependents 4 h refl)
  AreMet-IsSatisfied h nova = nova_iff.0 (All-get_elem? (IsSatisfied spec) dependents 5 h refl)
  AreMet-IsSatisfied h heat = heat_iff.0 (All-get_elem? (IsSatisfied spec) dependents 6 h refl)
  AreMet-IsSatisfied h swift = swift_iff.0 (All-get_elem? (IsSatisfied spec) dependents 7 h refl)
  AreMet-IsSatisfied h horizon =
      horizon_iff.0 (All-get_elem? (IsSatisfied spec) dependents 8 h refl)
  AreMet-IsSatisfied h octavia =
      octavia_iff.0 (All-get_elem? (IsSatisfied spec) dependents 9 h refl)
  AreMet-IsSatisfied h barbican =
      barbican_iff.0 (All-get_elem? (IsSatisfied spec) dependents 10 h refl)
  AreMet-IsSatisfied h watcher =
      watcher_iff.0 (All-get_elem? (IsSatisfied spec) dependents 13 h refl)
  AreMet-IsSatisfied h telemetry = telemetry_iff.0 (
    All-get_elem? (IsSatisfied spec) dependents 11 h refl,
    All-get_elem? (IsSatisfied spec) dependents 12 h refl,
  )
  AreMet-IsSatisfied h _ = λ on. (tt, tt)

  pub AreSatisfied-IsMet :
      ((s : Section) → On spec s → IsMet spec s) → All (IsSatisfied spec) dependents
  AreSatisfied-IsMet h =
      let (ceilometer, autoscaling) = telemetry_iff.1 (h telemetry) in
      (
        keystone_iff.1 (h keystone),
        (
          glance_iff.1 (h glance),
          (
            cinder_iff.1 (h cinder),
            (
              placement_iff.1 (h placement),
              (
                neutron_iff.1 (h neutron),
                (
                  nova_iff.1 (h nova),
                  (
                    heat_iff.1 (h heat),
                    (
                      swift_iff.1 (h swift),
                      (
                        horizon_iff.1 (h horizon),
                        (
                          octavia_iff.1 (h octavia),
                          (
                            barbican_iff.1 (h barbican),
                            (ceilometer, (autoscaling, (watcher_iff.1 (h watcher), tt))),
                          ),
                        ),
                      ),
                    ),
                  ),
                ),
              ),
            ),
          ),
        ),
      )
