-- ===== src/ImageMatch/Report.antt =====
-- What `ControlplaneContainerImageMatch` (internal/openstack/version.go) reports.
use openstack_operator.Prelude.{
  ◌⊎◌, off_or, under, ℕ, Bool, true, false, not, ap, inl, inr, Bool-cases, String, some, List, [],
  ◌∷◌, ◌++◌, ◌≡◌, ◌↔◌, refl, sym, ◌∙◌, arith, All, All-of_each, if◌then◌else◌, get_elem?,
  All-get_elem?, is_empty,
}
use mathlib.Core.List.{append-nil, append_assoc}
use openstack_operator.Version.{OpenStackVersion}
use openstack_operator.ImageMatch.{ControlPlane, note_failed}
use openstack_operator.ImageMatch.Failed.{failed_matches, controlplane_container_image_match}
use openstack_operator.ImageMatch.Workloads.{
  Workload, runs, IsCurrent, image_match, image_match_iff, barbican_workload, cinder_workload,
  designate_workload, dnsmasq_workload, galera_workload, glance_workload, heat_workload,
  horizon_workload, ironic_workload, keystone_workload, manila_workload, memcached_workload,
  redis_workload, neutron_workload, nova_workload, octavia_workload, client_workload,
  ovn_controller_workload, ovn_north_workload, ovn_db_cluster_workload, placement_workload,
  rabbitmq_workload, swift_workload, telemetry_workload, watcher_workload,
}

-- The workloads in the order in which the code looks at them, and the names that it reports.
pub workloads : List Workload
workloads =
    barbican_workload ∷ cinder_workload ∷ designate_workload ∷ dnsmasq_workload ∷ galera_workload
    ∷ glance_workload ∷ heat_workload ∷ horizon_workload ∷ ironic_workload ∷ keystone_workload
    ∷ manila_workload ∷ memcached_workload ∷ redis_workload ∷ neutron_workload ∷ nova_workload
    ∷ octavia_workload ∷ client_workload ∷ ovn_controller_workload ∷ ovn_north_workload
    ∷ ovn_db_cluster_workload ∷ placement_workload ∷ rabbitmq_workload ∷ swift_workload
    ∷ telemetry_workload ∷ watcher_workload ∷ []

pub label : Workload → String
label barbican_workload = "Barbican"
label cinder_workload = "Cinder"
label designate_workload = "Designate"
label dnsmasq_workload = "Dnsmasq"
label galera_workload = "Galera"
label glance_workload = "Glance"
label heat_workload = "Heat"
label horizon_workload = "Horizon"
label ironic_workload = "Ironic"
label keystone_workload = "Keystone"
label manila_workload = "Manila"
label memcached_workload = "Memcached"
label redis_workload = "Redis"
label neutron_workload = "Neutron"
label nova_workload = "Nova"
label octavia_workload = "Octavia"
label client_workload = "OpenstackClient"
label ovn_controller_workload = "OVNController"
label ovn_north_workload = "OVNNorth"
label ovn_db_cluster_workload = "OVNDbCluster"
label placement_workload = "Placement"
label rabbitmq_workload = "Rabbitmq"
label swift_workload = "Swift"
label telemetry_workload = "Telemetry"
label watcher_workload = "Watcher"

position : Workload → ℕ
position barbican_workload = 0
position cinder_workload = 1
position designate_workload = 2
position dnsmasq_workload = 3
position galera_workload = 4
position glance_workload = 5
position heat_workload = 6
position horizon_workload = 7
position ironic_workload = 8
position keystone_workload = 9
position manila_workload = 10
position memcached_workload = 11
position redis_workload = 12
position neutron_workload = 13
position nova_workload = 14
position octavia_workload = 15
position client_workload = 16
position ovn_controller_workload = 17
position ovn_north_workload = 18
position ovn_db_cluster_workload = 19
position placement_workload = 20
position rabbitmq_workload = 21
position swift_workload = 22
position telemetry_workload = 23
position watcher_workload = 24

get_elem?-position : (w : Workload) → get_elem? workloads (position w) ≡ some w
unfolding get_elem? workloads position
get_elem?-position barbican_workload = refl
get_elem?-position _ = refl

pub All-workloads : (P : Workload → Type 0) → All P workloads → (w : Workload) → P w
All-workloads P h w = All-get_elem? P workloads (position w) h (get_elem?-position w)

nil_of_empty : (xs : List String) → is_empty xs ≡ true → xs ≡ []
nil_of_empty [] h = refl
nil_of_empty (x ∷ xs) h = absurd (cc h)

append-note_failed :
    (matched : Bool) (name : String) (failed rest : List String)
    → note_failed matched name failed ++ rest ≡ failed ++ (if matched then rest else name ∷ rest)
unfolding note_failed
append-note_failed true name failed rest = refl
append-note_failed false name failed rest = append_assoc failed (name ∷ []) rest

-- The names of the workloads that a test picks, in order.
pub stale_names : (Workload → Bool) → List Workload → List String
stale_names stale [] = []
stale_names stale (w ∷ ws) =
    if stale w then label w ∷ stale_names stale ws else stale_names stale ws

stale_iff :
    (matched enabled : Bool) {P : Type 0}
    → (matched ≡ true) ↔ (enabled ≡ true → P)
    → (not matched ≡ true) ↔ ((enabled ≡ true) × ¬ P)
stale_iff true enabled h = (λ e. absurd (cc e), λ on_not. absurd (on_not.1 (h.0 refl on_not.0)))
stale_iff false true h = (λ _. (refl, λ p. absurd (cc (h.1 (λ _. p)))), λ _. refl)
stale_iff false false h = (λ _. absurd (cc (h.1 (λ on. absurd (cc on)))), λ _. refl)

module _ {C : Type 0} (cp : ControlPlane C) (version : OpenStackVersion C) where
  -- The names of those workloads that do not match, in order.
  pub mismatches : List Workload → List String
  mismatches [] = []
  mismatches (w ∷ ws) = if image_match cp version w then mismatches ws else label w ∷ mismatches ws

  collect : List String → List Workload → List String
  collect failed [] = failed
  collect failed (w ∷ ws) = collect (note_failed (image_match cp version w) (label w) failed) ws

  collect_lem :
      (failed : List String) (ws : List Workload) → collect failed ws ≡ failed ++ mismatches ws
  unfolding collect mismatches note_failed
  collect_lem failed [] = sym (append-nil failed)
  collect_lem failed (w ∷ ws) =
      collect_lem (note_failed (image_match cp version w) (label w) failed) ws
      ∙ append-note_failed (image_match cp version w) (label w) failed (mismatches ws)

  failed_matches-mismatches : failed_matches cp version ≡ mismatches workloads
  failed_matches-mismatches = collect-workloads ∙ collect_lem [] workloads
    where
      collect-workloads : failed_matches cp version ≡ collect [] workloads
      collect-workloads = unfold failed_matches collect workloads image_match label in refl

  mismatches_iff :
      (ws : List Workload) → (mismatches ws ≡ []) ↔ All (λ w. image_match cp version w ≡ true) ws
  unfolding mismatches
  mismatches_iff [] = (λ _. tt, λ _. refl)
  mismatches_iff (w ∷ ws) = ground (arith, mismatches_iff ws)

  match-mismatches :
      controlplane_container_image_match cp version
      ≡ (is_empty (mismatches workloads), mismatches workloads)
  unfolding controlplane_container_image_match
  match-mismatches = rw failed_matches-mismatches (report (mismatches workloads))
    where
      report :
          (failed : List String)
          → ◌≡◌ {A = Bool × List String}
              (if is_empty failed then (true, []) else (false, failed))
              (is_empty failed, failed)
      report [] = refl
      report (x ∷ failed) = refl

  stale_names-mismatches :
      (ws : List Workload) → stale_names (λ w. not (image_match cp version w)) ws ≡ mismatches ws
  unfolding stale_names mismatches
  stale_names-mismatches [] = refl
  stale_names-mismatches (w ∷ ws) = elim (Bool-cases (image_match cp version w)) [
    | inl current ↦ rw (current) (stale_names-mismatches ws)
    | inr stale ↦ rw (stale) (ap (λ names. label w ∷ names) (stale_names-mismatches ws))
  ]

  -- The result names, in the order of the code, exactly the workloads that are enabled and do not
  -- run the compared images that the version has for them, and is `true` where there are none.
  pub controlplane_container_image_match_lem :
      (stale : Workload → Bool) × ((w : Workload)
        → (stale w ≡ true) ↔ ((runs cp w ≡ true) × ¬ (IsCurrent cp version w)))
      × (controlplane_container_image_match cp version
          ≡ (is_empty (stale_names stale workloads), stale_names stale workloads))
  controlplane_container_image_match_lem = (
    λ w. not (image_match cp version w),
    λ w. stale_iff (image_match cp version w) (runs cp w) (image_match_iff cp version w),
    rw (stale_names-mismatches workloads) match-mismatches,
  )

  -- The control plane passes exactly when each workload is switched off or runs the images that the
  -- version has for it, those of its backends and the shared proxies included, and without the
  -- images of the KSM exporter, the network utilities and the network exporter: these three are run
  -- by workloads, but their images are not compared.
  pub controlplane_container_image_match_iff :
      ((controlplane_container_image_match cp version).0 ≡ true)
      ↔ ((w : Workload) → (runs cp w ≡ false) ⊎ IsCurrent cp version w)
  controlplane_container_image_match_iff = (
    λ h w. off_or (runs cp w) (
        (image_match_iff cp version w).0 (
          All-workloads (λ w. image_match cp version w ≡ true)
            ((mismatches_iff workloads).0
              (nil_of_empty (mismatches workloads) (rw match-mismatches at h)))
            w)),
    λ h. rw match-mismatches (
        rw (
          (mismatches_iff workloads).1 (
            All-of_each (λ w. image_match cp version w ≡ true)
              (λ w. (image_match_iff cp version w).1 (under (runs cp w) (h w))) workloads))),
  )
