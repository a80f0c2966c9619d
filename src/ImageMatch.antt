-- ===== src/ImageMatch.antt =====
-- The comparison of the images that the control plane runs with those of the version: the
-- `…ImageMatch` functions of internal/openstack/*.go for the services. Logging is left out.
pub mod Infrastructure
pub mod Failed
pub mod Workloads
pub mod Report
use openstack_operator.Prelude.{
  Bool, true, false, not, ◌||◌, String, Option, List, [], ◌∷◌, ◌++◌, if◌then◌else◌,
}
use openstack_operator.Images.{
  ImageField, ImageMap, ContainerImages, image_at, aodh_api_image, aodh_evaluator_image,
  aodh_listener_image, aodh_notifier_image, apache_image, barbican_api_image,
  barbican_keystone_listener_image, barbican_worker_image, ceilometer_central_image,
  ceilometer_compute_image, ceilometer_ipmi_image, ceilometer_mysqld_exporter_image,
  ceilometer_notification_image, ceilometer_sgcore_image, cinder_api_image, cinder_backup_image,
  cinder_scheduler_image, cloud_kitty_api_image, cloud_kitty_proc_image, designate_api_image,
  designate_backendbind9_image, designate_central_image, designate_mdns_image,
  designate_producer_image, designate_unbound_image, designate_worker_image, glance_api_image,
  heat_api_image, heat_cfnapi_image, heat_engine_image, horizon_image, ironic_api_image,
  ironic_conductor_image, ironic_inspector_image, ironic_neutron_agent_image, ironic_pxe_image,
  ironic_python_agent_image, keystone_api_image, manila_api_image, manila_scheduler_image,
  neutron_api_image, nova_api_image, nova_compute_image, nova_conductor_image, nova_novnc_image,
  nova_scheduler_image, octavia_api_image, octavia_healthmanager_image, octavia_housekeeping_image,
  octavia_rsyslog_image, octavia_worker_image, placement_api_image, swift_account_image,
  swift_container_image, swift_object_image, swift_proxy_image, watcher_api_image,
  watcher_applier_image, watcher_decision_engine_image,
}
use openstack_operator.Version.{OpenStackVersion, string_ptr_equal, entries}

-- The parts of the control plane's spec that have a flag `Enabled`.
pub data Section : Type 0 where
  barbican cinder designate dns galera glance heat horizon ironic keystone manila : Section
  memcached redis neutron nova octavia ovn placement rabbitmq swift telemetry : Section
  watcher : Section

-- The OpenStackControlPlane resource, as far as the version's controller reads it.
pub record ControlPlane (Conditions : Type 0) : Type 0 where
  pub enabled : Section → Bool  -- Spec.<section>.Enabled
  pub container_images : ContainerImages  -- Status.ContainerImages
  pub deployed_version : Option String  -- Status.DeployedVersion
  pub conditions : Conditions  -- Status.Conditions

-- `!stringPointersEqual(deployed.F, target.F) || …` over the fields that a function names
unfoldable pub images_differ : ContainerImages → ContainerImages → List ImageField → Bool
unfolding string_ptr_equal
images_differ deployed target [] = false
images_differ deployed target (f ∷ fs) =
    not (string_ptr_equal (deployed.template f) (target.template f))
    || images_differ deployed target fs

-- the loop over the images of the version's backends that are left
unfoldable pub volumes_match : List (String × Option String) → ImageMap → Bool
unfolding string_ptr_equal image_at
volumes_match [] deployed = true
volumes_match ((name, img) ∷ rest) deployed =
    if string_ptr_equal (image_at deployed name) img then volumes_match rest deployed else false

-- `if !match { failedMatches = append(failedMatches, name) }`
unfoldable pub note_failed : Bool → String → List String → List String
note_failed matched name failed = if matched then failed else failed ++ name ∷ []

module _ {C : Type 0} where
  unfoldable pub barbican_image_match : ControlPlane C → OpenStackVersion C → Bool
  unfolding images_differ volumes_match string_ptr_equal
  barbican_image_match cp version =
      if cp.enabled barbican
      then (if images_differ cp.container_images version.container_images
            (barbican_api_image ∷ barbican_worker_image ∷ barbican_keystone_listener_image ∷ [])
          then false
          else true)
      else true

  unfoldable pub cinder_image_match : ControlPlane C → OpenStackVersion C → Bool
  unfolding images_differ volumes_match string_ptr_equal
  cinder_image_match cp version =
      if cp.enabled cinder
      then (if images_differ cp.container_images version.container_images
            (cinder_api_image ∷ cinder_scheduler_image ∷ cinder_backup_image ∷ [])
          then false
          else volumes_match (entries version.container_images.cinder_volume_images)
              cp.container_images.cinder_volume_images)
      else true

  unfoldable pub designate_image_match : ControlPlane C → OpenStackVersion C → Bool
  unfolding images_differ volumes_match string_ptr_equal
  designate_image_match cp version =
      if cp.enabled designate
      then (if images_differ cp.container_images version.container_images (
            designate_api_image ∷ designate_central_image ∷ designate_mdns_image
            ∷ designate_producer_image ∷ designate_worker_image ∷ designate_backendbind9_image
            ∷ designate_unbound_image ∷ [])
          then false
          else true)
      else true

  unfoldable pub glance_image_match : ControlPlane C → OpenStackVersion C → Bool
  unfolding images_differ volumes_match string_ptr_equal
  glance_image_match cp version =
      if cp.enabled glance
      then (if images_differ cp.container_images version.container_images (glance_api_image ∷ [])
          then false
          else true)
      else true

  unfoldable pub heat_image_match : ControlPlane C → OpenStackVersion C → Bool
  unfolding images_differ volumes_match string_ptr_equal
  heat_image_match cp version =
      if cp.enabled heat
      then (if images_differ cp.container_images version.container_images
            (heat_api_image ∷ heat_cfnapi_image ∷ heat_engine_image ∷ [])
          then false
          else true)
      else true

  unfoldable pub horizon_image_match : ControlPlane C → OpenStackVersion C → Bool
  unfolding images_differ volumes_match string_ptr_equal
  horizon_image_match cp version =
      if cp.enabled horizon
      then (if images_differ cp.container_images version.container_images (horizon_image ∷ [])
          then false
          else true)
      else true

  unfoldable pub ironic_image_match : ControlPlane C → OpenStackVersion C → Bool
  unfolding images_differ volumes_match string_ptr_equal
  ironic_image_match cp version =
      if cp.enabled ironic
      then (if images_differ cp.container_images version.container_images (
            ironic_api_image ∷ ironic_conductor_image ∷ ironic_inspector_image
            ∷ ironic_neutron_agent_image ∷ ironic_pxe_image ∷ ironic_python_agent_image ∷ [])
          then false
          else true)
      else true

  unfoldable pub keystone_image_match : ControlPlane C → OpenStackVersion C → Bool
  unfolding images_differ volumes_match string_ptr_equal
  keystone_image_match cp version =
      if cp.enabled keystone
      then (if images_differ cp.container_images version.container_images (keystone_api_image ∷ [])
          then false
          else true)
      else true

  unfoldable pub manila_image_match : ControlPlane C → OpenStackVersion C → Bool
  unfolding images_differ volumes_match string_ptr_equal
  manila_image_match cp version =
      if cp.enabled manila
      then (if images_differ cp.container_images version.container_images
            (manila_api_image ∷ manila_scheduler_image ∷ [])
          then false
          else volumes_match (entries version.container_images.manila_share_images)
              cp.container_images.manila_share_images)
      else true

  unfoldable pub neutron_image_match : ControlPlane C → OpenStackVersion C → Bool
  unfolding images_differ volumes_match string_ptr_equal
  neutron_image_match cp version =
      if cp.enabled neutron
      then (if images_differ cp.container_images version.container_images (neutron_api_image ∷ [])
          then false
          else true)
      else true

  unfoldable pub nova_image_match : ControlPlane C → OpenStackVersion C → Bool
  unfolding images_differ volumes_match string_ptr_equal
  nova_image_match cp version =
      if cp.enabled nova
      then (if images_differ cp.container_images version.container_images (
            nova_api_image ∷ nova_compute_image ∷ nova_conductor_image ∷ nova_novnc_image
            ∷ nova_scheduler_image ∷ [])
          then false
          else true)
      else true

  unfoldable pub octavia_image_match : ControlPlane C → OpenStackVersion C → Bool
  unfolding images_differ volumes_match string_ptr_equal
  octavia_image_match cp version =
      if cp.enabled octavia
      then (if images_differ cp.container_images version.container_images (
              octavia_api_image ∷ octavia_worker_image ∷ octavia_healthmanager_image
              ∷ octavia_housekeeping_image ∷ octavia_rsyslog_image ∷ [])
            || not (
                string_ptr_equal cp.container_images.octavia_apache_image
                  (version.container_images.template apache_image))
          then false
          else true)
      else true

  unfoldable pub placement_image_match : ControlPlane C → OpenStackVersion C → Bool
  unfolding images_differ volumes_match string_ptr_equal
  placement_image_match cp version =
      if cp.enabled placement
      then (if images_differ cp.container_images version.container_images (placement_api_image ∷ [])
          then false
          else true)
      else true

  unfoldable pub swift_image_match : ControlPlane C → OpenStackVersion C → Bool
  unfolding images_differ volumes_match string_ptr_equal
  swift_image_match cp version =
      if cp.enabled swift
      then (if images_differ cp.container_images version.container_images (
            swift_account_image ∷ swift_container_image ∷ swift_object_image ∷ swift_proxy_image
            ∷ [])
          then false
          else true)
      else true

  unfoldable pub telemetry_image_match : ControlPlane C → OpenStackVersion C → Bool
  unfolding images_differ volumes_match string_ptr_equal
  telemetry_image_match cp version =
      if cp.enabled telemetry
      then (if images_differ cp.container_images version.container_images (
              ceilometer_central_image ∷ ceilometer_compute_image ∷ ceilometer_ipmi_image
              ∷ ceilometer_notification_image ∷ ceilometer_sgcore_image
              ∷ ceilometer_mysqld_exporter_image ∷ aodh_api_image ∷ aodh_evaluator_image
              ∷ aodh_notifier_image ∷ aodh_listener_image ∷ cloud_kitty_api_image
              ∷ cloud_kitty_proc_image ∷ [])
            || not (
                string_ptr_equal cp.container_images.ceilometer_proxy_image
                  version.container_images.ceilometer_proxy_image)
          then false
          else true)
      else true

  unfoldable pub watcher_image_match : ControlPlane C → OpenStackVersion C → Bool
  unfolding images_differ volumes_match string_ptr_equal
  watcher_image_match cp version =
      if cp.enabled watcher
      then (if images_differ cp.container_images version.container_images
            (watcher_api_image ∷ watcher_applier_image ∷ watcher_decision_engine_image ∷ [])
          then false
          else true)
      else true
