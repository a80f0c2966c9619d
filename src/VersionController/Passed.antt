-- ===== src/VersionController/Passed.antt =====
-- What it takes to pass every stage of a minor update.
use openstack_operator.Prelude.{
  Bool, true, false, String, Option, some, List, ◌≡◌, ◌⊎◌, arith, Outcome, ok,
}
use openstack_operator.Images.{ovn_controller_image}
use openstack_operator.Version.{OpenStackVersion}
use openstack_operator.ImageMatch.{ControlPlane, ovn, keystone_image_match}
use openstack_operator.ImageMatch.Infrastructure.{
  ovn_controller_image_match, rabbitmq_image_match, galera_image_match, memcached_image_match,
}
use openstack_operator.ImageMatch.Failed.{controlplane_container_image_match}
use openstack_operator.Conditions.{
  Reason, requested_reason, ConditionLib, has_true, ready_condition,
}
use openstack_operator.Nodesets.{
  NodeSet, dataplane_nodesets_ovn_controller_images_match, dataplane_nodesets_deployed,
}
use openstack_operator.Prelude.Control.{next, >>=-eq-next}
use openstack_operator.VersionController.Stages.{
  minor_update_ovn_controlplane, minor_update_ovn_dataplane, minor_update_rabbitmq,
  minor_update_mariadb, minor_update_memcached, minor_update_keystone, minor_update_controlplane,
  minor_update_dataplane, mark_true, ovn_image_unchanged, minor_update, workload_stage,
  ovn_controlplane_stage, ovn_dataplane_stage, controlplane_stage, dataplane_stage,
}

module _ (lib : ConditionLib) (cp : ControlPlane lib.Conditions)
    (version : OpenStackVersion lib.Conditions) where
  open lib use {Conditions, status}

  -- A condition of the control plane is True.
  abbrev IsUp : String → Type 0
  IsUp t = has_true (status t cp.conditions) ≡ true

  -- What the stages wait for, in the terms of the tests that they make.
  pub record Ready (deployed : String) (nodesets : List NodeSet) (running : Outcome Bool)
      (previous : Option Reason) : Type 0 where
    pub ovn_controlplane :
        cp.enabled ovn ≡ true
        → (ovn_controller_image_match cp version ≡ true) × IsUp "OpenStackControlPlaneOVNReady"
    pub ovn_dataplane :
        cp.enabled ovn ≡ true
        → dataplane_nodesets_ovn_controller_images_match
            (version.container_images.template ovn_controller_image)
            nodesets
          ≡ ok true
    pub ovn_observed :
        cp.enabled ovn ≡ true
        → (ovn_image_unchanged lib deployed version ≡ ok false)
          ⊎ ((ovn_image_unchanged lib deployed version ≡ ok true)
              × (running ≡ ok false)
              × (previous ≡ some requested_reason))
    pub rabbitmq :
        (rabbitmq_image_match cp version ≡ true) × IsUp "OpenStackControlPlaneRabbitMQReady"
    pub mariadb : (galera_image_match cp version ≡ true) × IsUp "OpenStackControlPlaneMariaDBReady"
    pub memcached :
        (memcached_image_match cp version ≡ true) × IsUp "OpenStackControlPlaneMemcachedReady"
    pub keystone :
        (keystone_image_match cp version ≡ true) × IsUp "OpenStackControlPlaneKeystoneAPIReady"
    pub controlplane : IsUp ready_condition
    pub images : (controlplane_container_image_match cp version).0 ≡ true
    pub dataplane : dataplane_nodesets_deployed version.target_version nodesets ≡ true

  -- The conditions after the last stage.
  abbrev pub all_marked : Conditions → Conditions
  all_marked cs = mark_true lib minor_update_dataplane (
      mark_true lib minor_update_controlplane (
        mark_true lib minor_update_keystone (
          mark_true lib minor_update_memcached (
            mark_true lib minor_update_mariadb (
              mark_true lib minor_update_rabbitmq (
                mark_true lib minor_update_ovn_dataplane
                  (mark_true lib minor_update_ovn_controlplane cs)))))))

  workload_stage-next :
      (t ready_type : String) (images_match : Bool) (cs : Conditions) {cs' : Conditions}
      → workload_stage lib t ready_type images_match cp cs ≡ next cs'
      → (images_match ≡ true) × IsUp ready_type × (cs' ≡ mark_true lib t cs)
  unfolding workload_stage
  workload_stage-next t ready_type images_match cs h = ground arith

  ovn_controlplane_stage-next :
      (cs : Conditions) {cs' : Conditions}
      → ovn_controlplane_stage lib cp version cs ≡ next cs'
      → (cp.enabled ovn ≡ true
          → (ovn_controller_image_match cp version ≡ true) × IsUp "OpenStackControlPlaneOVNReady")
        × (cs' ≡ mark_true lib minor_update_ovn_controlplane cs)
  unfolding ovn_controlplane_stage
  ovn_controlplane_stage-next cs h = ground arith

  ovn_dataplane_stage-next :
      (deployed : String) (nodesets : List NodeSet) (running : Outcome Bool)
      (previous : Option Reason) (cs : Conditions) {cs' : Conditions}
      → ovn_dataplane_stage lib cp version deployed nodesets running previous cs ≡ next cs'
      → (cp.enabled ovn ≡ true
          → dataplane_nodesets_ovn_controller_images_match
              (version.container_images.template ovn_controller_image)
              nodesets
            ≡ ok true)
        × (cp.enabled ovn ≡ true
            → (ovn_image_unchanged lib deployed version ≡ ok false)
              ⊎ ((ovn_image_unchanged lib deployed version ≡ ok true)
                  × (running ≡ ok false)
                  × (previous ≡ some requested_reason)))
        × (cs' ≡ mark_true lib minor_update_ovn_dataplane cs)
  unfolding ovn_dataplane_stage
  ovn_dataplane_stage-next deployed nodesets running previous cs h = ground arith

  controlplane_stage-next :
      (cs : Conditions) {cs' : Conditions}
      → controlplane_stage lib cp version cs ≡ next cs'
      → IsUp ready_condition
        × ((controlplane_container_image_match cp version).0 ≡ true)
        × (cs' ≡ mark_true lib minor_update_controlplane cs)
  unfolding controlplane_stage
  controlplane_stage-next cs h = ground arith

  dataplane_stage-next :
      (nodesets : List NodeSet) (cs : Conditions) {cs' : Conditions}
      → dataplane_stage lib version nodesets cs ≡ next cs'
      → (dataplane_nodesets_deployed version.target_version nodesets ≡ true)
        × (cs' ≡ mark_true lib minor_update_dataplane cs)
  unfolding dataplane_stage
  dataplane_stage-next nodesets cs h = ground arith

  workload_stage-pass :
      (t ready_type : String) (images_match : Bool) (cs : Conditions)
      → (images_match ≡ true) × IsUp ready_type
      → workload_stage lib t ready_type images_match cp cs ≡ next (mark_true lib t cs)
  unfolding workload_stage
  workload_stage-pass t ready_type images_match cs h = ground arith

  module _ (deployed : String) (nodesets : List NodeSet) (running : Outcome Bool)
      (previous : Option Reason) (cs : Conditions) where
    -- A minor update that runs through all of its stages found everything ready, and has marked the
    -- condition of each stage, in their order, and nothing else.
    pub minor_update-next :
        {cs' : Conditions}
        → minor_update lib cp version deployed nodesets running previous cs ≡ next cs'
        → Ready deployed nodesets running previous × (cs' ≡ all_marked cs)
    unfolding minor_update
    minor_update-next {cs'} h =
        let (c1, e1, h1) = >>=-eq-next _ _ h in
        let (c2, e2, h2) = >>=-eq-next _ _ h1 in
        let (c3, e3, h3) = >>=-eq-next _ _ h2 in
        let (c4, e4, h4) = >>=-eq-next _ _ h3 in
        let (c5, e5, h5) = >>=-eq-next _ _ h4 in
        let (c6, e6, h6) = >>=-eq-next _ _ h5 in
        let (c7, e7, h7) = >>=-eq-next _ _ h6 in
        let s1 = ovn_controlplane_stage-next cs e1 in
        let s2 = ovn_dataplane_stage-next deployed nodesets running previous c1 e2 in
        let s3 =
          workload_stage-next minor_update_rabbitmq "OpenStackControlPlaneRabbitMQReady"
            (rabbitmq_image_match cp version) c2 e3 in
        let s4 =
          workload_stage-next minor_update_mariadb "OpenStackControlPlaneMariaDBReady"
            (galera_image_match cp version) c3 e4 in
        let s5 =
          workload_stage-next minor_update_memcached "OpenStackControlPlaneMemcachedReady"
            (memcached_image_match cp version) c4 e5 in
        let s6 =
          workload_stage-next minor_update_keystone "OpenStackControlPlaneKeystoneAPIReady"
            (keystone_image_match cp version) c5 e6 in
        let s7 = controlplane_stage-next c6 e7 in
        let s8 = dataplane_stage-next nodesets c7 h7 in
        (
          record {
            ovn_controlplane = s1.0;
            ovn_dataplane = s2.0;
            ovn_observed = s2.1;
            rabbitmq = (s3.0, s3.1);
            mariadb = (s4.0, s4.1);
            memcached = (s5.0, s5.1);
            keystone = (s6.0, s6.1);
            controlplane = s7.0;
            images = s7.1;
            dataplane = s8.0;
          },
          cc (s1.1, s2.2, s3.2, s4.2, s5.2, s6.2, s7.2, s8.1),
        )

    ovn_controlplane_stage-pass :
        (cs : Conditions)
        → Ready deployed nodesets running previous
        → ovn_controlplane_stage lib cp version cs
          ≡ next (mark_true lib minor_update_ovn_controlplane cs)
    unfolding ovn_controlplane_stage
    ovn_controlplane_stage-pass cs r = ground (arith, r.ovn_controlplane)

    ovn_dataplane_stage-pass :
        (cs : Conditions)
        → Ready deployed nodesets running previous
        → ovn_dataplane_stage lib cp version deployed nodesets running previous cs
          ≡ next (mark_true lib minor_update_ovn_dataplane cs)
    unfolding ovn_dataplane_stage
    ovn_dataplane_stage-pass cs r = ground (arith, r.ovn_dataplane, r.ovn_observed)

    controlplane_stage-pass :
        (cs : Conditions)
        → Ready deployed nodesets running previous
        → controlplane_stage lib cp version cs ≡ next (mark_true lib minor_update_controlplane cs)
    unfolding controlplane_stage
    controlplane_stage-pass cs r = ground (arith, r.controlplane, r.images)

    dataplane_stage-pass :
        (cs : Conditions)
        → Ready deployed nodesets running previous
        → dataplane_stage lib version nodesets cs ≡ next (mark_true lib minor_update_dataplane cs)
    unfolding dataplane_stage
    dataplane_stage-pass cs r = ground (arith, r.dataplane)

    -- Where everything is ready, a minor update runs through all of its stages at once.
    pub minor_update-pass :
        Ready deployed nodesets running previous
        → minor_update lib cp version deployed nodesets running previous cs ≡ next (all_marked cs)
    unfolding minor_update
    minor_update-pass r = rw (ovn_controlplane_stage-pass cs r) (
        rw (ovn_dataplane_stage-pass _ r) (
          rw
            (workload_stage-pass minor_update_rabbitmq "OpenStackControlPlaneRabbitMQReady" _ _
              r.rabbitmq)
            (rw
              (workload_stage-pass minor_update_mariadb "OpenStackControlPlaneMariaDBReady" _ _
                r.mariadb)
              (rw
                (workload_stage-pass minor_update_memcached "OpenStackControlPlaneMemcachedReady" _
                  _ r.memcached)
                (rw
                  (workload_stage-pass minor_update_keystone "OpenStackControlPlaneKeystoneAPIReady"
                    _ _ r.keystone)
                  (rw (controlplane_stage-pass _ r) (dataplane_stage-pass _ r)))))))
