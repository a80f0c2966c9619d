-- ===== src/Images/Fields.antt =====
-- Every field of `ContainerTemplate` stands in `image_fields`, so a loop over that list reaches all.
use openstack_operator.Prelude.{ℕ, some, ◌≡◌, refl, All, get_elem?, All-get_elem?}
use openstack_operator.Images.{
  ImageField, image_fields, agent_image, ansibleee_image, aodh_api_image, aodh_evaluator_image,
  aodh_listener_image, aodh_notifier_image, apache_image, barbican_api_image,
  barbican_keystone_listener_image, barbican_worker_image, ceilometer_central_image,
  ceilometer_compute_image, ceilometer_ipmi_image, ceilometer_notification_image,
  ceilometer_sgcore_image, ceilometer_mysqld_exporter_image, cinder_api_image, cinder_backup_image,
  cinder_scheduler_image, cloud_kitty_api_image, cloud_kitty_proc_image, designate_api_image,
  designate_backendbind9_image, designate_central_image, designate_mdns_image,
  designate_producer_image, designate_unbound_image, designate_worker_image, edpm_frr_image,
  edpm_iscsid_image, edpm_logrotate_crond_image, edpm_multipathd_image,
  edpm_neutron_dhcp_agent_image, edpm_neutron_metadata_agent_image, edpm_neutron_ovn_agent_image,
  edpm_neutron_sriov_agent_image, edpm_ovn_bgp_agent_image, edpm_node_exporter_image,
  edpm_kepler_image, edpm_podman_exporter_image, edpm_openstack_network_exporter_image,
  openstack_network_exporter_image, glance_api_image, heat_api_image, heat_cfnapi_image,
  heat_engine_image, horizon_image, infra_dnsmasq_image, infra_memcached_image, infra_redis_image,
  ironic_api_image, ironic_conductor_image, ironic_inspector_image, ironic_neutron_agent_image,
  ironic_pxe_image, ironic_python_agent_image, keystone_api_image, ksm_image, manila_api_image,
  manila_scheduler_image, mariadb_image, net_utils_image, neutron_api_image, nova_api_image,
  nova_compute_image, nova_conductor_image, nova_novnc_image, nova_scheduler_image,
  octavia_api_image, octavia_healthmanager_image, octavia_housekeeping_image, octavia_worker_image,
  octavia_rsyslog_image, openstack_client_image, os_container_image, ovn_controller_image,
  ovn_controller_ovs_image, ovn_nb_dbcluster_image, ovn_northd_image, ovn_sb_dbcluster_image,
  placement_api_image, rabbitmq_image, swift_account_image, swift_container_image,
  swift_object_image, swift_proxy_image, telemetry_node_exporter_image, test_tempest_image,
  test_tobiko_image, test_horizontest_image, test_ansibletest_image, watcher_api_image,
  watcher_applier_image, watcher_decision_engine_image,
}

-- where a field stands in the struct
position : ImageField → ℕ
position agent_image = 0
position ansibleee_image = 1
position aodh_api_image = 2
position aodh_evaluator_image = 3
position aodh_listener_image = 4
position aodh_notifier_image = 5
position apache_image = 6
position barbican_api_image = 7
position barbican_keystone_listener_image = 8
position barbican_worker_image = 9
position ceilometer_central_image = 10
position ceilometer_compute_image = 11
position ceilometer_ipmi_image = 12
position ceilometer_notification_image = 13
position ceilometer_sgcore_image = 14
position ceilometer_mysqld_exporter_image = 15
position cinder_api_image = 16
position cinder_backup_image = 17
position cinder_scheduler_image = 18
position cloud_kitty_api_image = 19
position cloud_kitty_proc_image = 20
position designate_api_image = 21
position designate_backendbind9_image = 22
position designate_central_image = 23
position designate_mdns_image = 24
position designate_producer_image = 25
position designate_unbound_image = 26
position designate_worker_image = 27
position edpm_frr_image = 28
position edpm_iscsid_image = 29
position edpm_logrotate_crond_image = 30
position edpm_multipathd_image = 31
position edpm_neutron_dhcp_agent_image = 32
position edpm_neutron_metadata_agent_image = 33
position edpm_neutron_ovn_agent_image = 34
position edpm_neutron_sriov_agent_image = 35
position edpm_ovn_bgp_agent_image = 36
position edpm_node_exporter_image = 37
position edpm_kepler_image = 38
position edpm_podman_exporter_image = 39
position edpm_openstack_network_exporter_image = 40
position openstack_network_exporter_image = 41
position glance_api_image = 42
position heat_api_image = 43
position heat_cfnapi_image = 44
position heat_engine_image = 45
position horizon_image = 46
position infra_dnsmasq_image = 47
position infra_memcached_image = 48
position infra_redis_image = 49
position ironic_api_image = 50
position ironic_conductor_image = 51
position ironic_inspector_image = 52
position ironic_neutron_agent_image = 53
position ironic_pxe_image = 54
position ironic_python_agent_image = 55
position keystone_api_image = 56
position ksm_image = 57
position manila_api_image = 58
position manila_scheduler_image = 59
position mariadb_image = 60
position net_utils_image = 61
position neutron_api_image = 62
position nova_api_image = 63
position nova_compute_image = 64
position nova_conductor_image = 65
position nova_novnc_image = 66
position nova_scheduler_image = 67
position octavia_api_image = 68
position octavia_healthmanager_image = 69
position octavia_housekeeping_image = 70
position octavia_worker_image = 71
position octavia_rsyslog_image = 72
position openstack_client_image = 73
position os_container_image = 74
position ovn_controller_image = 75
position ovn_controller_ovs_image = 76
position ovn_nb_dbcluster_image = 77
position ovn_northd_image = 78
position ovn_sb_dbcluster_image = 79
position placement_api_image = 80
position rabbitmq_image = 81
position swift_account_image = 82
position swift_container_image = 83
position swift_object_image = 84
position swift_proxy_image = 85
position telemetry_node_exporter_image = 86
position test_tempest_image = 87
position test_tobiko_image = 88
position test_horizontest_image = 89
position test_ansibletest_image = 90
position watcher_api_image = 91
position watcher_applier_image = 92
position watcher_decision_engine_image = 93

get_elem?-position : (f : ImageField) → get_elem? image_fields (position f) ≡ some f
unfolding get_elem? image_fields position
get_elem?-position agent_image = refl
get_elem?-position _ = refl

pub All-image_fields {ℓ} : (P : ImageField → Type ℓ) → All P image_fields → (f : ImageField) → P f
All-image_fields P h f = All-get_elem? P image_fields (position f) h (get_elem?-position f)
