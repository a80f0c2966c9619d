-- ===== src/ImageMatch/Workloads.antt =====
-- Which images each workload of the control plane runs, and that `ControlplaneContainerImageMatch`
-- (internal/openstack/version.go) compares all of them but three.
use openstack_operator.Prelude.{
  Bool, true, false, not, ◌||◌, String, Option, List, [], ◌∷◌, ◌≡◌, ◌↔◌, refl, arith, All,
  if◌then◌else◌,
}
use openstack_operator.Images.{
  ImageField, ImageMap, ContainerImages, image_at, aodh_api_image, aodh_evaluator_image,
  aodh_listener_image, aodh_notifier_image, apache_image, barbican_api_image,
  barbican_keystone_listener_image, barbican_worker_image, ceilometer_central_image,
  ceilometer_compute_image, ceilometer_ipmi_image, ceilometer_mysqld_exporter_image,
  ceilometer_notification_image, ceilometer_sgcore_image, cinder_api_image, cinder_backup_image,
  cinder_scheduler_image, cloud_kitty_api_image, cloud_kitty_proc_image, designate_api_image,
  designate_backendbind9_image, designate_central_image, designate_mdns_image,
  designate_producer_image, designate_unbound_image, designate_worker_image, glance_api_image,
  heat_api_image, heat_cfnapi_image, heat_engine_image, horizon_image, infra_dnsmasq_image,
  infra_memcached_image, infra_redis_image, ironic_api_image, ironic_conductor_image,
  ironic_inspector_image, ironic_neutron_agent_image, ironic_pxe_image, ironic_python_agent_image,
  keystone_api_image, ksm_image, net_utils_image, openstack_network_exporter_image,
  manila_api_image, manila_scheduler_image, mariadb_image, neutron_api_image, nova_api_image,
  nova_compute_image, nova_conductor_image, nova_novnc_image, nova_scheduler_image,
  octavia_api_image, octavia_healthmanager_image, octavia_housekeeping_image, octavia_rsyslog_image,
  octavia_worker_image, openstack_client_image, ovn_controller_image, ovn_controller_ovs_image,
  ovn_nb_dbcluster_image, ovn_northd_image, ovn_sb_dbcluster_image, placement_api_image,
  rabbitmq_image, swift_account_image, swift_container_image, swift_object_image, swift_proxy_image,
  watcher_api_image, watcher_applier_image, watcher_decision_engine_image,
}
use openstack_operator.Version.{OpenStackVersion, entries}
use openstack_operator.Version.Equality.{string_ptr_equal_iff}
use openstack_operator.ImageMatch.{
  ControlPlane, images_differ, volumes_match, barbican_image_match, cinder_image_match,
  designate_image_match, glance_image_match, heat_image_match, horizon_image_match,
  ironic_image_match, keystone_image_match, manila_image_match, neutron_image_match,
  nova_image_match, octavia_image_match, placement_image_match, swift_image_match,
  telemetry_image_match, watcher_image_match, barbican, cinder, designate, dns, galera, glance,
  heat, horizon, ironic, keystone, manila, memcached, redis, neutron, nova, octavia, ovn, placement,
  rabbitmq, swift, telemetry, watcher,
}
use openstack_operator.ImageMatch.Infrastructure.{
  dnsmasq_image_match, galera_image_match, memcached_image_match, redis_image_match,
  client_image_match, ovn_controller_image_match, ovn_north_image_match, ovn_db_cluster_image_match,
  rabbitmq_image_match,
}

pub data Workload : Type 0 where
  barbican_workload cinder_workload designate_workload dnsmasq_workload : Workload
  galera_workload glance_workload heat_workload horizon_workload ironic_workload : Workload
  keystone_workload manila_workload memcached_workload redis_workload : Workload
  neutron_workload nova_workload octavia_workload client_workload : Workload
  ovn_controller_workload ovn_north_workload ovn_db_cluster_workload : Workload
  placement_workload rabbitmq_workload swift_workload telemetry_workload : Workload
  watcher_workload : Workload

-- The images that a workload runs, of those that have a field of their own: those that its reconciler
-- in internal/openstack takes over from the version, in the order of the comparison.
abbrev pub images_of : Workload → List ImageField
images_of barbican_workload =
    barbican_api_image ∷ barbican_worker_image ∷ barbican_keystone_listener_image ∷ []
images_of cinder_workload = cinder_api_image ∷ cinder_scheduler_image ∷ cinder_backup_image ∷ []
images_of designate_workload =
    designate_api_image ∷ designate_central_image ∷ designate_mdns_image ∷ designate_producer_image
    ∷ designate_worker_image ∷ designate_backendbind9_image ∷ designate_unbound_image
    ∷ net_utils_image ∷ []
images_of dnsmasq_workload = infra_dnsmasq_image ∷ []
images_of galera_workload = mariadb_image ∷ []
images_of glance_workload = glance_api_image ∷ []
images_of heat_workload = heat_api_image ∷ heat_cfnapi_image ∷ heat_engine_image ∷ []
images_of horizon_workload = horizon_image ∷ []
images_of ironic_workload =
    ironic_api_image ∷ ironic_conductor_image ∷ ironic_inspector_image ∷ ironic_neutron_agent_image
    ∷ ironic_pxe_image ∷ ironic_python_agent_image ∷ []
images_of keystone_workload = keystone_api_image ∷ []
images_of manila_workload = manila_api_image ∷ manila_scheduler_image ∷ []
images_of memcached_workload = infra_memcached_image ∷ []
images_of redis_workload = infra_redis_image ∷ []
images_of neutron_workload = neutron_api_image ∷ []
images_of nova_workload =
    nova_api_image ∷ nova_compute_image ∷ nova_conductor_image ∷ nova_novnc_image
    ∷ nova_scheduler_image ∷ []
images_of octavia_workload =
    octavia_api_image ∷ octavia_worker_image ∷ octavia_healthmanager_image
    ∷ octavia_housekeeping_image ∷ octavia_rsyslog_image ∷ []
images_of client_workload = openstack_client_image ∷ []
images_of ovn_controller_workload =
    ovn_controller_image ∷ ovn_controller_ovs_image ∷ openstack_network_exporter_image ∷ []
images_of ovn_north_workload = ovn_northd_image ∷ openstack_network_exporter_image ∷ []
images_of ovn_db_cluster_workload =
    ovn_nb_dbcluster_image ∷ ovn_sb_dbcluster_image ∷ openstack_network_exporter_image ∷ []
images_of placement_workload = placement_api_image ∷ []
images_of rabbitmq_workload = rabbitmq_image ∷ []
images_of swift_workload =
    swift_account_image ∷ swift_container_image ∷ swift_object_image ∷ swift_proxy_image ∷ []
images_of telemetry_workload =
    ceilometer_central_image ∷ ceilometer_compute_image ∷ ceilometer_ipmi_image
    ∷ ceilometer_notification_image ∷ ceilometer_sgcore_image ∷ ceilometer_mysqld_exporter_image
    ∷ aodh_api_image ∷ aodh_evaluator_image ∷ aodh_notifier_image ∷ aodh_listener_image
    ∷ cloud_kitty_api_image ∷ cloud_kitty_proc_image ∷ ksm_image ∷ []
images_of watcher_workload =
    watcher_api_image ∷ watcher_applier_image ∷ watcher_decision_engine_image ∷ []

-- Three of them are run, but never compared.
abbrev pub is_compared : ImageField → Bool
is_compared ksm_image = false
is_compared net_utils_image = false
is_compared openstack_network_exporter_image = false
is_compared _ = true

abbrev compared_of : List ImageField → List ImageField
compared_of [] = []
compared_of (f ∷ fs) = if is_compared f then f ∷ compared_of fs else compared_of fs

-- The images of a workload without those three.
abbrev pub compared_images_of : Workload → List ImageField
compared_images_of w = compared_of (images_of w)

-- Whether the control plane runs the workload.
abbrev pub runs : {C : Type 0} → ControlPlane C → Workload → Bool
runs cp barbican_workload = cp.enabled barbican
runs cp cinder_workload = cp.enabled cinder
runs cp designate_workload = cp.enabled designate
runs cp dnsmasq_workload = cp.enabled dns
runs cp galera_workload = cp.enabled galera
runs cp glance_workload = cp.enabled glance
runs cp heat_workload = cp.enabled heat
runs cp horizon_workload = cp.enabled horizon
runs cp ironic_workload = cp.enabled ironic
runs cp keystone_workload = cp.enabled keystone
runs cp manila_workload = cp.enabled manila
runs cp memcached_workload = cp.enabled memcached
runs cp redis_workload = cp.enabled redis
runs cp neutron_workload = cp.enabled neutron
runs cp nova_workload = cp.enabled nova
runs cp octavia_workload = cp.enabled octavia
runs cp client_workload = true
runs cp ovn_controller_workload = cp.enabled ovn
runs cp ovn_north_workload = cp.enabled ovn
runs cp ovn_db_cluster_workload = cp.enabled ovn
runs cp placement_workload = cp.enabled placement
runs cp rabbitmq_workload = cp.enabled rabbitmq
runs cp swift_workload = cp.enabled swift
runs cp telemetry_workload = cp.enabled telemetry
runs cp watcher_workload = cp.enabled watcher

-- The images of a workload that are no plain field: the backends' volumes and the shared proxy.
abbrev pub BackendsCurrent : ContainerImages → ContainerImages → Workload → Type 0
BackendsCurrent deployed target cinder_workload =
    All (λ backend. image_at deployed.cinder_volume_images backend.0 ≡ backend.1)
      (entries target.cinder_volume_images)
BackendsCurrent deployed target manila_workload =
    All (λ backend. image_at deployed.manila_share_images backend.0 ≡ backend.1)
      (entries target.manila_share_images)
BackendsCurrent deployed target octavia_workload =
    deployed.octavia_apache_image ≡ target.template apache_image
BackendsCurrent deployed target telemetry_workload =
    deployed.ceilometer_proxy_image ≡ target.ceilometer_proxy_image
BackendsCurrent deployed target _ = Unit

-- The workload runs the images of the version, but for the three that are never compared.
abbrev pub IsCurrent : {C : Type 0} → ControlPlane C → OpenStackVersion C → Workload → Type 0
IsCurrent cp version w =
    All (λ f. cp.container_images.template f ≡ version.container_images.template f)
      (compared_images_of w)
    × BackendsCurrent cp.container_images version.container_images w

images_differ_iff :
    (deployed target : ContainerImages) (fs : List ImageField)
    → (images_differ deployed target fs ≡ false)
      ↔ All (λ f. deployed.template f ≡ target.template f) fs
unfolding images_differ
images_differ_iff deployed target [] = (λ _. tt, λ _. refl)
images_differ_iff deployed target (f ∷ fs) = ground (
  arith,
  string_ptr_equal_iff (deployed.template f) (target.template f),
  images_differ_iff deployed target fs,
)

volumes_match_iff :
    (rest : List (String × Option String)) (deployed : ImageMap)
    → (volumes_match rest deployed ≡ true)
      ↔ All (λ backend. image_at deployed backend.0 ≡ backend.1) rest
unfolding volumes_match
volumes_match_iff [] deployed = (λ _. tt, λ _. refl)
volumes_match_iff ((name, img) ∷ rest) deployed =
    ground
      (arith, string_ptr_equal_iff (image_at deployed name) img, volumes_match_iff rest deployed)

-- The shape of the functions: the flag, the chain of `||`, and the loop over the backends.
gated_iff :
    (enabled differ rest : Bool) {P Q : Type 0}
    → (differ ≡ false) ↔ P
    → (rest ≡ true) ↔ Q
    → ((if enabled then (if differ then false else rest) else true) ≡ true)
      ↔ (enabled ≡ true → P × Q)
gated_iff false differ rest p q = (λ h e. absurd (cc e), λ h. refl)
gated_iff true true rest p q = (λ h. cc, λ h. absurd (cc (p.1 (h refl).0)))
gated_iff true false rest p q = (λ h e. (p.0 refl, q.0 h), λ h. q.1 (h refl).1)

or_not_iff : (a b : Bool) → ((if a || not b then false else true) ≡ (if a then false else b))
or_not_iff a b = ground arith

module _ {C : Type 0} (cp : ControlPlane C) (version : OpenStackVersion C) where
  differ_iff :
      (w : Workload)
      → (images_differ cp.container_images version.container_images (compared_images_of w) ≡ false)
        ↔ All
            (λ f. cp.container_images.template f ≡ version.container_images.template f)
            (compared_images_of w)
  differ_iff w =
      images_differ_iff cp.container_images version.container_images (compared_images_of w)

  unfoldable pub image_match : Workload → Bool
  image_match barbican_workload = barbican_image_match cp version
  image_match cinder_workload = cinder_image_match cp version
  image_match designate_workload = designate_image_match cp version
  image_match dnsmasq_workload = dnsmasq_image_match cp version
  image_match galera_workload = galera_image_match cp version
  image_match glance_workload = glance_image_match cp version
  image_match heat_workload = heat_image_match cp version
  image_match horizon_workload = horizon_image_match cp version
  image_match ironic_workload = ironic_image_match cp version
  image_match keystone_workload = keystone_image_match cp version
  image_match manila_workload = manila_image_match cp version
  image_match memcached_workload = memcached_image_match cp version
  image_match redis_workload = redis_image_match cp version
  image_match neutron_workload = neutron_image_match cp version
  image_match nova_workload = nova_image_match cp version
  image_match octavia_workload = octavia_image_match cp version
  image_match client_workload = client_image_match cp version
  image_match ovn_controller_workload = ovn_controller_image_match cp version
  image_match ovn_north_workload = ovn_north_image_match cp version
  image_match ovn_db_cluster_workload = ovn_db_cluster_image_match cp version
  image_match placement_workload = placement_image_match cp version
  image_match rabbitmq_workload = rabbitmq_image_match cp version
  image_match swift_workload = swift_image_match cp version
  image_match telemetry_workload = telemetry_image_match cp version
  image_match watcher_workload = watcher_image_match cp version

  -- Each function tells exactly whether its workload, if it is enabled, runs those images of the
  -- version that are compared.
  pub image_match_iff :
      (w : Workload) → (image_match w ≡ true) ↔ (runs cp w ≡ true → IsCurrent cp version w)
  unfolding image_match barbican_image_match cinder_image_match designate_image_match
      dnsmasq_image_match galera_image_match glance_image_match heat_image_match horizon_image_match
      ironic_image_match keystone_image_match manila_image_match memcached_image_match
      redis_image_match neutron_image_match nova_image_match octavia_image_match client_image_match
      ovn_controller_image_match ovn_north_image_match ovn_db_cluster_image_match
      placement_image_match rabbitmq_image_match swift_image_match telemetry_image_match
      watcher_image_match
  image_match_iff cinder_workload = gated_iff (cp.enabled cinder) _ _ (differ_iff cinder_workload) (
      volumes_match_iff (entries version.container_images.cinder_volume_images)
        cp.container_images.cinder_volume_images)
  image_match_iff manila_workload = gated_iff (cp.enabled manila) _ _ (differ_iff manila_workload) (
      volumes_match_iff (entries version.container_images.manila_share_images)
        cp.container_images.manila_share_images)
  image_match_iff octavia_workload = rw or_not_iff (
      gated_iff (cp.enabled octavia) _ _ (differ_iff octavia_workload) (
        string_ptr_equal_iff cp.container_images.octavia_apache_image
          (version.container_images.template apache_image)))
  image_match_iff telemetry_workload = rw or_not_iff (
      gated_iff (cp.enabled telemetry) _ _ (differ_iff telemetry_workload) (
        string_ptr_equal_iff cp.container_images.ceilometer_proxy_image
          version.container_images.ceilometer_proxy_image))
  image_match_iff w = gated_iff (runs cp w) _ true (differ_iff w) (λ _. tt, λ _. refl)
