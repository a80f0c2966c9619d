-- ===== src/Images.antt =====
-- The container images of a version: the structs of api/core/v1beta1/openstackversion_types.go
-- and `GetContainerImages` of internal/openstack/version.go.
pub mod Fallback
pub mod Fields
use openstack_operator.Prelude.{String, Option, none, some, List, [], ◌∷◌, insert, lookup}

-- The fields of `ContainerTemplate`, in its order. All of them are `*string`.
pub data ImageField : Type 0 where
  agent_image ansibleee_image aodh_api_image aodh_evaluator_image : ImageField
  aodh_listener_image aodh_notifier_image apache_image barbican_api_image : ImageField
  barbican_keystone_listener_image barbican_worker_image ceilometer_central_image : ImageField
  ceilometer_compute_image ceilometer_ipmi_image ceilometer_notification_image : ImageField
  ceilometer_sgcore_image ceilometer_mysqld_exporter_image cinder_api_image : ImageField
  cinder_backup_image cinder_scheduler_image cloud_kitty_api_image : ImageField
  cloud_kitty_proc_image designate_api_image designate_backendbind9_image : ImageField
  designate_central_image designate_mdns_image designate_producer_image : ImageField
  designate_unbound_image designate_worker_image edpm_frr_image edpm_iscsid_image : ImageField
  edpm_logrotate_crond_image edpm_multipathd_image edpm_neutron_dhcp_agent_image : ImageField
  edpm_neutron_metadata_agent_image edpm_neutron_ovn_agent_image : ImageField
  edpm_neutron_sriov_agent_image edpm_ovn_bgp_agent_image edpm_node_exporter_image : ImageField
  edpm_kepler_image edpm_podman_exporter_image edpm_openstack_network_exporter_image : ImageField
  openstack_network_exporter_image glance_api_image heat_api_image heat_cfnapi_image : ImageField
  heat_engine_image horizon_image infra_dnsmasq_image infra_memcached_image : ImageField
  infra_redis_image ironic_api_image ironic_conductor_image ironic_inspector_image : ImageField
  ironic_neutron_agent_image ironic_pxe_image ironic_python_agent_image : ImageField
  keystone_api_image ksm_image manila_api_image manila_scheduler_image mariadb_image : ImageField
  net_utils_image neutron_api_image nova_api_image nova_compute_image : ImageField
  nova_conductor_image nova_novnc_image nova_scheduler_image octavia_api_image : ImageField
  octavia_healthmanager_image octavia_housekeeping_image octavia_worker_image : ImageField
  octavia_rsyslog_image openstack_client_image os_container_image : ImageField
  ovn_controller_image ovn_controller_ovs_image ovn_nb_dbcluster_image : ImageField
  ovn_northd_image ovn_sb_dbcluster_image placement_api_image rabbitmq_image : ImageField
  swift_account_image swift_container_image swift_object_image swift_proxy_image : ImageField
  telemetry_node_exporter_image test_tempest_image test_tobiko_image : ImageField
  test_horizontest_image test_ansibletest_image watcher_api_image : ImageField
  watcher_applier_image watcher_decision_engine_image : ImageField

-- The fields in the order in which `reflect` walks through them.
unfoldable pub image_fields : List ImageField
image_fields =
    agent_image ∷ ansibleee_image ∷ aodh_api_image ∷ aodh_evaluator_image ∷ aodh_listener_image
    ∷ aodh_notifier_image ∷ apache_image ∷ barbican_api_image ∷ barbican_keystone_listener_image
    ∷ barbican_worker_image ∷ ceilometer_central_image ∷ ceilometer_compute_image
    ∷ ceilometer_ipmi_image ∷ ceilometer_notification_image ∷ ceilometer_sgcore_image
    ∷ ceilometer_mysqld_exporter_image ∷ cinder_api_image ∷ cinder_backup_image
    ∷ cinder_scheduler_image ∷ cloud_kitty_api_image ∷ cloud_kitty_proc_image ∷ designate_api_image
    ∷ designate_backendbind9_image ∷ designate_central_image ∷ designate_mdns_image
    ∷ designate_producer_image ∷ designate_unbound_image ∷ designate_worker_image ∷ edpm_frr_image
    ∷ edpm_iscsid_image ∷ edpm_logrotate_crond_image ∷ edpm_multipathd_image
    ∷ edpm_neutron_dhcp_agent_image ∷ edpm_neutron_metadata_agent_image
    ∷ edpm_neutron_ovn_agent_image ∷ edpm_neutron_sriov_agent_image ∷ edpm_ovn_bgp_agent_image
    ∷ edpm_node_exporter_image ∷ edpm_kepler_image ∷ edpm_podman_exporter_image
    ∷ edpm_openstack_network_exporter_image ∷ openstack_network_exporter_image ∷ glance_api_image
    ∷ heat_api_image ∷ heat_cfnapi_image ∷ heat_engine_image ∷ horizon_image ∷ infra_dnsmasq_image
    ∷ infra_memcached_image ∷ infra_redis_image ∷ ironic_api_image ∷ ironic_conductor_image
    ∷ ironic_inspector_image ∷ ironic_neutron_agent_image ∷ ironic_pxe_image
    ∷ ironic_python_agent_image ∷ keystone_api_image ∷ ksm_image ∷ manila_api_image
    ∷ manila_scheduler_image ∷ mariadb_image ∷ net_utils_image ∷ neutron_api_image ∷ nova_api_image
    ∷ nova_compute_image ∷ nova_conductor_image ∷ nova_novnc_image ∷ nova_scheduler_image
    ∷ octavia_api_image ∷ octavia_healthmanager_image ∷ octavia_housekeeping_image
    ∷ octavia_worker_image ∷ octavia_rsyslog_image ∷ openstack_client_image ∷ os_container_image
    ∷ ovn_controller_image ∷ ovn_controller_ovs_image ∷ ovn_nb_dbcluster_image ∷ ovn_northd_image
    ∷ ovn_sb_dbcluster_image ∷ placement_api_image ∷ rabbitmq_image ∷ swift_account_image
    ∷ swift_container_image ∷ swift_object_image ∷ swift_proxy_image ∷ telemetry_node_exporter_image
    ∷ test_tempest_image ∷ test_tobiko_image ∷ test_horizontest_image ∷ test_ansibletest_image
    ∷ watcher_api_image ∷ watcher_applier_image ∷ watcher_decision_engine_image ∷ []

-- A `ContainerTemplate` gives each of its fields a pointer that may be nil.
abbrev pub ContainerTemplate : Type 0
ContainerTemplate = ImageField → Option String

-- `map[string]*string`, which may be nil itself
abbrev pub ImageMap : Type 0
ImageMap = Option (List (String × Option String))

pub record CustomContainerImages : Type 0 where
  pub template : ContainerTemplate
  pub cinder_volume_images : ImageMap
  pub manila_share_images : ImageMap

pub record ContainerDefaults : Type 0 where
  pub template : ContainerTemplate
  pub cinder_volume_image : Option String
  pub manila_share_image : Option String

pub record ContainerImages : Type 0 where
  pub template : ContainerTemplate
  pub octavia_apache_image : Option String
  pub ceilometer_proxy_image : Option String
  pub cinder_volume_images : ImageMap
  pub manila_share_images : ImageMap

-- `m[name]` of a `map[string]*string`: nil also where the map is nil or the key is missing
unfoldable pub image_at : ImageMap → String → Option String
unfolding lookup
image_at none name = none
image_at (some m) name = elim (lookup name m) [ none ↦ none | some img ↦ img ]

unfoldable pub get_img : Option String → Option String → Option String
get_img (some val1) val2 = some val1
get_img none val2 = val2

unfoldable pub get_openstack_network_exporter_img :
    CustomContainerImages → ContainerDefaults → Option String
unfolding get_img
get_openstack_network_exporter_img custom_images defaults =
    get_img (custom_images.template openstack_network_exporter_image) (
      get_img (custom_images.template edpm_openstack_network_exporter_image)
        (defaults.template openstack_network_exporter_image))

-- The literal of `ContainerTemplate` in `GetContainerImages`: one field has a function of its own,
-- one is not set, and each of the other 92 is `getImg(custom.F, defaults.F)`.
unfoldable pub target_template : CustomContainerImages → ContainerDefaults → ContainerTemplate
unfolding get_openstack_network_exporter_img
target_template custom defaults openstack_network_exporter_image =
    get_openstack_network_exporter_img custom defaults
target_template custom defaults edpm_openstack_network_exporter_image = none
target_template custom defaults field = get_img (custom.template field) (defaults.template field)

-- `if m == nil { m = make(…) }; m["default"] = image`
unfoldable pub with_default : ImageMap → Option String → List (String × Option String)
unfolding insert
with_default none image = insert "default" image []
with_default (some m) image = insert "default" image m

-- The map that the caller still holds after the write: a map that was not nil is shared with the
-- result, so the write is seen through it.
unfoldable pub shared_write : ImageMap → Option String → ImageMap
unfolding with_default
shared_write none image = none
shared_write (some m) image = some (with_default (some m) image)

-- `GetContainerImages` takes the maps of `instance.Spec.CustomContainerImages` over without a copy.
-- The second part of the result is that spec as the caller finds it afterwards.
unfoldable pub get_container_images :
    ContainerDefaults → CustomContainerImages → ContainerImages × CustomContainerImages
unfolding get_img target_template with_default shared_write
get_container_images defaults custom = (
  record {
    template = target_template custom defaults;
    octavia_apache_image = get_img (custom.template apache_image) (defaults.template apache_image);
    ceilometer_proxy_image =
        get_img (custom.template apache_image) (defaults.template apache_image);
    cinder_volume_images =
        some (with_default custom.cinder_volume_images defaults.cinder_volume_image);
    manila_share_images =
        some (with_default custom.manila_share_images defaults.manila_share_image);
  },
  record custom {
    cinder_volume_images = shared_write custom.cinder_volume_images defaults.cinder_volume_image;
    manila_share_images = shared_write custom.manila_share_images defaults.manila_share_image;
  },
)
