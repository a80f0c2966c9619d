-- ===== src/ImageMatch/Failed.antt =====
-- The services whose images differ: `ControlplaneContainerImageMatch` of
-- internal/openstack/version.go.
use openstack_operator.Prelude.{Bool, true, false, String, List, [], if◌then◌else◌, is_empty}
use openstack_operator.Version.{OpenStackVersion}
use openstack_operator.ImageMatch.{
  ControlPlane, note_failed, barbican_image_match, cinder_image_match, designate_image_match,
  glance_image_match, heat_image_match, horizon_image_match, ironic_image_match,
  keystone_image_match, manila_image_match, neutron_image_match, nova_image_match,
  octavia_image_match, placement_image_match, swift_image_match, telemetry_image_match,
  watcher_image_match,
}
use openstack_operator.ImageMatch.Infrastructure.{
  dnsmasq_image_match, galera_image_match, memcached_image_match, redis_image_match,
  client_image_match, ovn_controller_image_match, ovn_north_image_match, ovn_db_cluster_image_match,
  rabbitmq_image_match,
}

module _ {C : Type 0} where
  unfoldable pub failed_matches : ControlPlane C → OpenStackVersion C → List String
  unfolding note_failed
  failed_matches cp version =
      let failed = note_failed (barbican_image_match cp version) "Barbican" [] in
      let failed = note_failed (cinder_image_match cp version) "Cinder" failed in
      let failed = note_failed (designate_image_match cp version) "Designate" failed in
      let failed = note_failed (dnsmasq_image_match cp version) "Dnsmasq" failed in
      let failed = note_failed (galera_image_match cp version) "Galera" failed in
      let failed = note_failed (glance_image_match cp version) "Glance" failed in
      let failed = note_failed (heat_image_match cp version) "Heat" failed in
      let failed = note_failed (horizon_image_match cp version) "Horizon" failed in
      let failed = note_failed (ironic_image_match cp version) "Ironic" failed in
      let failed = note_failed (keystone_image_match cp version) "Keystone" failed in
      let failed = note_failed (manila_image_match cp version) "Manila" failed in
      let failed = note_failed (memcached_image_match cp version) "Memcached" failed in
      let failed = note_failed (redis_image_match cp version) "Redis" failed in
      let failed = note_failed (neutron_image_match cp version) "Neutron" failed in
      let failed = note_failed (nova_image_match cp version) "Nova" failed in
      let failed = note_failed (octavia_image_match cp version) "Octavia" failed in
      let failed = note_failed (client_image_match cp version) "OpenstackClient" failed in
      let failed = note_failed (ovn_controller_image_match cp version) "OVNController" failed in
      let failed = note_failed (ovn_north_image_match cp version) "OVNNorth" failed in
      let failed = note_failed (ovn_db_cluster_image_match cp version) "OVNDbCluster" failed in
      let failed = note_failed (placement_image_match cp version) "Placement" failed in
      let failed = note_failed (rabbitmq_image_match cp version) "Rabbitmq" failed in
      let failed = note_failed (swift_image_match cp version) "Swift" failed in
      let failed = note_failed (telemetry_image_match cp version) "Telemetry" failed in
      let failed = note_failed (watcher_image_match cp version) "Watcher" failed in failed

  unfoldable pub controlplane_container_image_match :
      ControlPlane C → OpenStackVersion C → Bool × List String
  controlplane_container_image_match cp version =
      let failed = failed_matches cp version in
      if is_empty failed then (true, []) else (false, failed)
