-- ===== src/Scenarios/Update.antt =====
-- A minor update that one reconcile completes, and one that waits for RabbitMQ.
use openstack_operator.VersionController.Safety.{HasNoNil}
use openstack_operator.VersionController.Totality.{Returns, reconcile_found-Returns}
use openstack_operator.Prelude.{
  sym, ap, eq_iff, ◌==◌, if◌then◌else◌, true, false, String, Option, none, some, [], ◌∷◌, ◌≡◌, ◌≢◌,
  refl, arith, lookup, insert, inl, inr, ok,
}
use openstack_operator.Images.{ContainerDefaults, ovn_controller_image, get_container_images}
use openstack_operator.Version.{OpenStackVersion}
use openstack_operator.Scenarios.Library.{Table, table_lib}
use openstack_operator.Scenarios.Values.{
  update_to_v2, env_v2, cluster_v2, plane_v2, nodeset_v2, defaults_of, images_v2, saved,
}
use openstack_operator.ImageMatch.{
  ControlPlane, barbican_image_match, cinder_image_match, designate_image_match, glance_image_match,
  heat_image_match, horizon_image_match, ironic_image_match, keystone_image_match,
  manila_image_match, neutron_image_match, nova_image_match, octavia_image_match,
  placement_image_match, swift_image_match, telemetry_image_match, watcher_image_match,
}
use openstack_operator.ImageMatch.Infrastructure.{
  dnsmasq_image_match, galera_image_match, memcached_image_match, redis_image_match,
  client_image_match, ovn_controller_image_match, ovn_north_image_match, ovn_db_cluster_image_match,
  rabbitmq_image_match,
}
use openstack_operator.ImageMatch.Failed.{controlplane_container_image_match, failed_matches}
use openstack_operator.Conditions.{true_condition, false_condition, requested_reason, severity_info}
use openstack_operator.Nodesets.{
  NodeSet, dataplane_nodesets_ovn_controller_images_match, dataplane_nodesets_deployed,
}
use openstack_operator.VersionController.{
  reconcile_found, is_waiting, skip_custom_images_validation, conclude, set_deployed,
  minor_update_available, saved_reason, update_ready,
}
use openstack_operator.Prelude.Control.{return, next}
use openstack_operator.VersionController.Initialize.{
  updating_from, set_images, set_service_defaults, no_service_defaults, stored_service_defaults,
  set_available, initialized, condition_list,
}
use openstack_operator.VersionController.Stages.{
  ovn_image_unchanged, controlplane_stage, dataplane_stage, minor_update, ovn_controlplane_stage,
  ovn_dataplane_stage, workload_stage, mark_true, minor_update_ovn_controlplane,
  minor_update_ovn_dataplane, minor_update_rabbitmq,
}
use openstack_operator.VersionController.Passed.{all_marked}
use openstack_operator.VersionController.Deployed.{ReadyFrom, filled}
use openstack_operator.VersionController.Order.{stage_types, minor_update-StoppedAt}
use openstack_operator.VersionController.Run.{StoppedAt}
use openstack_operator.VersionController.Handshake.{
  requested, ovn_dataplane_stage-waits, ovn_dataplane_stage-unobserved,
}
use openstack_operator.VersionController.MinorUpdate.{
  Completed, target, reconcile_found-Completed, reconcile_found-completes,
}

abbrev target_v2 : OpenStackVersion Table
target_v2 = target table_lib env_v2 cluster_v2 update_to_v2 (defaults_of "v2") no_service_defaults

-- What the stages see is version v2 with its images.
target_v2-images : target_v2.container_images ≡ images_v2
unfolding filled set_service_defaults set_images set_available
target_v2-images = refl

plane_v2-match : (controlplane_container_image_match plane_v2 target_v2).0 ≡ true
unfolding controlplane_container_image_match failed_matches filled set_service_defaults set_images
    set_available barbican_image_match cinder_image_match designate_image_match dnsmasq_image_match
    galera_image_match glance_image_match heat_image_match horizon_image_match ironic_image_match
    keystone_image_match manila_image_match memcached_image_match redis_image_match
    neutron_image_match nova_image_match octavia_image_match client_image_match
    ovn_controller_image_match ovn_north_image_match ovn_db_cluster_image_match
    placement_image_match rabbitmq_image_match swift_image_match telemetry_image_match
    watcher_image_match
plane_v2-match = refl

ready_v2 :
    ReadyFrom table_lib cluster_v2 plane_v2 (nodeset_v2 ∷ []) update_to_v2.conditions target_v2 "v1"
unfolding filled set_service_defaults set_images set_available ovn_controller_image_match
    rabbitmq_image_match galera_image_match memcached_image_match keystone_image_match
    dataplane_nodesets_ovn_controller_images_match ovn_image_unchanged dataplane_nodesets_deployed
ready_v2 = record {
  ovn_controlplane = λ on. (refl, refl);
  ovn_dataplane = λ on. refl;
  ovn_observed = λ on. inl refl;
  rabbitmq = (refl, refl);
  mariadb = (refl, refl);
  memcached = (refl, refl);
  keystone = (refl, refl);
  controlplane = refl;
  images = plane_v2-match;
  dataplane = refl;
}

reconcile_found-completes_example :
    (result : OpenStackVersion Table) × (reconcile_found table_lib env_v2 cluster_v2 update_to_v2
      ≡ return result none)
    × (result.deployed_version ≡ some "v2")
    × (lookup skip_custom_images_validation result.annotations ≡ none)
reconcile_found-completes_example =
    reconcile_found-completes table_lib env_v2 cluster_v2 update_to_v2 (defaults_of "v2")
      no_service_defaults plane_v2 (nodeset_v2 ∷ []) "v1" refl (unfold lookup insert in refl)
      (inr (unfold lookup insert stored_service_defaults in refl)) refl refl
      (unfold is_waiting in refl) (unfold updating_from in refl) ready_v2

-- The version that the reconcile of `update_to_v2` leaves.
abbrev updated_v2 : OpenStackVersion Table
updated_v2 = record (set_deployed table_lib plane_v2 target_v2) {
  conditions = some (
      table_lib.remove minor_update_available (
        all_marked table_lib plane_v2 target_v2 (
          mark_true table_lib initialized (
            table_lib.set (false_condition initialized requested_reason severity_info)
              (table_lib.init (condition_list update_to_v2))))));
}

updated_v2-reconcile_found :
    reconcile_found table_lib env_v2 cluster_v2 update_to_v2 ≡ return updated_v2 none
unfolding reconcile_found filled set_service_defaults set_images set_available minor_update
    ovn_controlplane_stage ovn_dataplane_stage workload_stage controlplane_stage dataplane_stage
    dataplane_nodesets_ovn_controller_images_match ovn_image_unchanged dataplane_nodesets_deployed
    controlplane_container_image_match failed_matches barbican_image_match cinder_image_match
    designate_image_match dnsmasq_image_match galera_image_match glance_image_match heat_image_match
    horizon_image_match ironic_image_match keystone_image_match manila_image_match
    memcached_image_match redis_image_match neutron_image_match nova_image_match octavia_image_match
    client_image_match ovn_controller_image_match ovn_north_image_match ovn_db_cluster_image_match
    placement_image_match rabbitmq_image_match swift_image_match telemetry_image_match
    watcher_image_match
updated_v2-reconcile_found = refl

versions_differ : ◌≢◌ {A = Option String} (some "v2") (some "v1")
versions_differ h =
    ground
      (arith, (eq_iff "v2" "v1").1 (ap (λ o. elim o as (λ x. String) [ none ↦ "" | some v ↦ v ]) h))

updated_v2-changed : updated_v2.deployed_version ≢ update_to_v2.deployed_version
unfolding conclude filled set_service_defaults set_images set_available
updated_v2-changed h = absurd (versions_differ h)

reconcile_found-Completed_example : Completed table_lib env_v2 cluster_v2 update_to_v2 updated_v2
reconcile_found-Completed_example =
    reconcile_found-Completed table_lib env_v2 cluster_v2 update_to_v2 updated_v2-reconcile_found
      updated_v2-changed

-- RabbitMQ is not ready yet.
abbrev plane_waiting : ControlPlane Table
plane_waiting = record plane_v2 {
  conditions =
      λ t. if t == "OpenStackControlPlaneRabbitMQReady" then none else some (true_condition t);
}

abbrev waiting_for_rabbitmq : Table
waiting_for_rabbitmq =
    table_lib.set (false_condition minor_update_rabbitmq requested_reason severity_info) (
      mark_true table_lib minor_update_ovn_dataplane
        (mark_true table_lib minor_update_ovn_controlplane saved))

plane_waiting-stops :
    minor_update table_lib plane_waiting target_v2 "v1" (nodeset_v2 ∷ []) (ok false) none saved
    ≡ return waiting_for_rabbitmq none
unfolding filled set_service_defaults set_images set_available minor_update ovn_controlplane_stage
    ovn_dataplane_stage ovn_controller_image_match rabbitmq_image_match
    dataplane_nodesets_ovn_controller_images_match ovn_image_unchanged workload_stage
plane_waiting-stops = refl

minor_update-StoppedAt_example : StoppedAt table_lib saved waiting_for_rabbitmq stage_types
minor_update-StoppedAt_example =
    minor_update-StoppedAt table_lib plane_waiting target_v2 "v1" (nodeset_v2 ∷ []) (ok false) none
      saved waiting_for_rabbitmq plane_waiting-stops

ovn_dataplane_stage-waits_example :
    ovn_dataplane_stage table_lib plane_v2 update_to_v2 "v1"
      (nodeset_v2 ∷ [])
      (ok true)
      (saved_reason table_lib none minor_update_ovn_dataplane)
      saved
    ≢ next saved
ovn_dataplane_stage-waits_example =
    ovn_dataplane_stage-waits table_lib plane_v2 update_to_v2 "v1" (nodeset_v2 ∷ []) true none saved
      saved refl (unfold ovn_image_unchanged get_container_images in refl) (inl refl)

-- The nodeset before its controller has seen its last change.
abbrev nodeset_changed : NodeSet
nodeset_changed = record nodeset_v2 { observed_generation = 2 }

ovn_dataplane_stage-unobserved_example :
    (ovn_dataplane_stage table_lib plane_v2 target_v2 "v1"
        (nodeset_changed ∷ [])
        (ok false)
        (saved_reason table_lib none minor_update_ovn_dataplane)
        saved
      ≡ return (requested table_lib plane_v2 target_v2 "v1" saved) none)
    × (ovn_dataplane_stage table_lib plane_v2 target_v2 "v1"
          (nodeset_v2 ∷ [])
          (ok false)
          (saved_reason table_lib
            (some (update_ready table_lib (requested table_lib plane_v2 target_v2 "v1" saved)))
            minor_update_ovn_dataplane)
          saved
        ≡ next (mark_true table_lib minor_update_ovn_dataplane saved))
ovn_dataplane_stage-unobserved_example =
    ovn_dataplane_stage-unobserved table_lib plane_v2 target_v2 "v1" (nodeset_changed ∷ [])
      (nodeset_v2 ∷ []) none saved saved false refl
      (unfold ovn_image_unchanged filled set_service_defaults set_images set_available in refl)
      (unfold dataplane_nodesets_ovn_controller_images_match in refl)
      (unfold dataplane_nodesets_ovn_controller_images_match filled set_service_defaults set_images
          set_available in
        refl)

abbrev ovn_image_of : Option (Option ContainerDefaults) → Option String
ovn_image_of none = none
ovn_image_of (some none) = none
ovn_image_of (some (some defaults)) = defaults.template ovn_controller_image

-- Only the defaults of v1 are stored, and they are there.
images_known : HasNoNil update_to_v2.container_image_version_defaults
unfolding lookup
images_known name nil = ground arith

reconcile_found-Returns_example : Returns (reconcile_found table_lib env_v2 cluster_v2 update_to_v2)
unfolding lookup insert get_container_images
reconcile_found-Returns_example =
    reconcile_found-Returns table_lib env_v2 cluster_v2 update_to_v2 "v2" images_known
      (λ name nil. absurd (cc nil)) (λ d known. sym (ap ovn_image_of known))
