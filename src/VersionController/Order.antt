-- ===== src/VersionController/Order.antt =====
-- The order of the stages of a minor update: where one waits, those before it are done and those
-- after it have not begun.
use openstack_operator.Prelude.{
  Bool, true, false, not, String, Option, none, List, [], ◌∷◌, ◌≡◌, refl, arith, All, Outcome, ok,
  err, panic, if◌then◌else◌,
}
use openstack_operator.Images.{ovn_controller_image}
use openstack_operator.Version.{OpenStackVersion}
use openstack_operator.ImageMatch.{ControlPlane, ovn, keystone_image_match}
use openstack_operator.ImageMatch.Infrastructure.{
  rabbitmq_image_match, galera_image_match, memcached_image_match,
}
use openstack_operator.Conditions.{
  ConditionLib, Reason, Severity, requested_reason, severity_info, error_reason, severity_warning,
  init_reason, false_condition,
}
use openstack_operator.Nodesets.{NodeSet, dataplane_nodesets_ovn_controller_images_match}
use openstack_operator.Prelude.Control.{Flow, next, return, ◌>>=◌, >>=-next}
use openstack_operator.VersionController.Stages.{
  minor_update_ovn_controlplane, minor_update_ovn_dataplane, minor_update_rabbitmq,
  minor_update_mariadb, minor_update_memcached, minor_update_keystone, minor_update_controlplane,
  minor_update_dataplane, mark_true, is_ready, is_requested, observe_ovn_deployment,
  ovn_dataplane_checks, ovn_image_unchanged, minor_update, workload_stage, ovn_controlplane_stage,
  ovn_dataplane_stage, controlplane_stage, dataplane_stage,
}
use openstack_operator.VersionController.Run.{
  Stage, StageResult, passes, waits, fails, crashes, IsStage, run, StoppedAt, StoppedAt-run,
}

-- The stages by the types of their conditions, in their order.
abbrev pub stage_types : List String
stage_types =
    minor_update_ovn_controlplane ∷ minor_update_ovn_dataplane ∷ minor_update_rabbitmq
    ∷ minor_update_mariadb ∷ minor_update_memcached ∷ minor_update_keystone
    ∷ minor_update_controlplane ∷ minor_update_dataplane ∷ []

module _ (lib : ConditionLib) where
  open lib use {Conditions, set, status, status-set}

  -- `if b { set False, return }; set True`
  StageResult-if :
      (b : Bool) (t : String) (reason : Reason) (severity : Severity) (cs : Conditions)
      → StageResult lib t cs (
          if b
          then return (set (false_condition t reason severity) cs) none
          else next (mark_true lib t cs))
  StageResult-if true t reason severity cs = waits reason severity refl
  StageResult-if false t reason severity cs = passes refl

  StageResult-either :
      (b : Bool) {t : String} {cs : Conditions} {m n : Flow Conditions}
      → StageResult lib t cs m
      → StageResult lib t cs n
      → StageResult lib t cs (if b then m else n)
  StageResult-either true p q = p
  StageResult-either false p q = q

  IsStage-workload :
      (t ready_type : String) (images_match : Bool) (cp : ControlPlane Conditions)
      → IsStage lib (t, workload_stage lib t ready_type images_match cp)
  unfolding workload_stage
  IsStage-workload t ready_type images_match cp cs =
      StageResult-if _ t requested_reason severity_info cs

  IsStage-ovn_controlplane :
      (cp : ControlPlane Conditions) (version : OpenStackVersion Conditions)
      → IsStage lib (minor_update_ovn_controlplane, ovn_controlplane_stage lib cp version)
  unfolding ovn_controlplane_stage
  IsStage-ovn_controlplane cp version cs =
      StageResult-either (cp.enabled ovn)
        (StageResult-if _ minor_update_ovn_controlplane requested_reason severity_info cs)
        (passes refl)

  IsStage-controlplane :
      (cp : ControlPlane Conditions) (version : OpenStackVersion Conditions)
      → IsStage lib (minor_update_controlplane, controlplane_stage lib cp version)
  unfolding controlplane_stage
  IsStage-controlplane cp version cs =
      StageResult-either (not (is_ready lib cp)) (waits requested_reason severity_info refl)
        (StageResult-if _ minor_update_controlplane error_reason severity_warning cs)

  IsStage-dataplane :
      (version : OpenStackVersion Conditions) (nodesets : List NodeSet)
      → IsStage lib (minor_update_dataplane, dataplane_stage lib version nodesets)
  unfolding dataplane_stage
  IsStage-dataplane version nodesets cs =
      StageResult-if _ minor_update_dataplane requested_reason severity_info cs

  -- The stage of the OVN data plane, from the outcome of its checks on.
  marked : Flow Conditions → Flow Conditions
  marked m = m >>= λ cs. next (mark_true lib minor_update_ovn_dataplane cs)

  StageResult-observed :
      (requested : Bool) (cs : Conditions)
      → StageResult lib minor_update_ovn_dataplane cs (
          marked (
            if requested
            then next cs
            else return
                (set (false_condition minor_update_ovn_dataplane init_reason severity_info) cs)
                none))
  unfolding marked
  StageResult-observed true cs = passes refl
  StageResult-observed false cs = waits init_reason severity_info refl

  StageResult-observe :
      (running : Outcome Bool) (previous : Option Reason) (cs : Conditions)
      → StageResult lib minor_update_ovn_dataplane cs
          (marked (observe_ovn_deployment lib running previous cs))
  unfolding observe_ovn_deployment marked
  StageResult-observe (err e) previous cs = fails e refl
  StageResult-observe panic previous cs = crashes refl
  StageResult-observe (ok true) previous cs = waits requested_reason severity_info refl
  StageResult-observe (ok false) previous cs = StageResult-observed (is_requested previous) cs

  StageResult-checks :
      (images_match unchanged running : Outcome Bool) (previous : Option Reason) (cs : Conditions)
      → StageResult lib minor_update_ovn_dataplane cs
          (marked (ovn_dataplane_checks lib images_match unchanged running previous cs))
  unfolding ovn_dataplane_checks marked
  StageResult-checks (err e) unchanged running previous cs = fails e refl
  StageResult-checks panic unchanged running previous cs = crashes refl
  StageResult-checks (ok false) unchanged running previous cs =
      waits requested_reason severity_info refl
  StageResult-checks (ok true) (err e) running previous cs = fails e refl
  StageResult-checks (ok true) panic running previous cs = crashes refl
  StageResult-checks (ok true) (ok true) running previous cs =
      StageResult-observe running previous cs
  StageResult-checks (ok true) (ok false) running previous cs = passes refl

  StageResult-enabled :
      (enabled : Bool) (cs : Conditions) (m : Flow Conditions)
      → StageResult lib minor_update_ovn_dataplane cs (marked m)
      → StageResult lib minor_update_ovn_dataplane cs (marked (if enabled then m else next cs))
  unfolding marked
  StageResult-enabled true cs m p = p
  StageResult-enabled false cs m p = passes refl

  IsStage-ovn_dataplane :
      (cp : ControlPlane Conditions) (version : OpenStackVersion Conditions) (deployed : String)
      (nodesets : List NodeSet) (running : Outcome Bool) (previous : Option Reason)
      → IsStage lib (
        minor_update_ovn_dataplane,
        ovn_dataplane_stage lib cp version deployed nodesets running previous,
      )
  unfolding ovn_dataplane_stage marked
  IsStage-ovn_dataplane cp version deployed nodesets running previous cs =
      StageResult-enabled (cp.enabled ovn) cs _ (
        StageResult-checks
          (dataplane_nodesets_ovn_controller_images_match
            (version.container_images.template ovn_controller_image) nodesets)
          (ovn_image_unchanged lib deployed version) running previous cs)

  module _ (cp : ControlPlane Conditions) (version : OpenStackVersion Conditions)
      (deployed : String) (nodesets : List NodeSet) (running : Outcome Bool)
      (previous : Option Reason) where
    abbrev stages : List (Stage lib)
    stages =
        (minor_update_ovn_controlplane, ovn_controlplane_stage lib cp version)
        ∷ (
          minor_update_ovn_dataplane,
          ovn_dataplane_stage lib cp version deployed nodesets running previous,
        )
        ∷ (
          minor_update_rabbitmq,
          workload_stage lib minor_update_rabbitmq "OpenStackControlPlaneRabbitMQReady"
              (rabbitmq_image_match cp version) cp,
        )
        ∷ (
          minor_update_mariadb,
          workload_stage lib minor_update_mariadb "OpenStackControlPlaneMariaDBReady"
              (galera_image_match cp version) cp,
        )
        ∷ (
          minor_update_memcached,
          workload_stage lib minor_update_memcached "OpenStackControlPlaneMemcachedReady"
              (memcached_image_match cp version) cp,
        )
        ∷ (
          minor_update_keystone,
          workload_stage lib minor_update_keystone "OpenStackControlPlaneKeystoneAPIReady"
              (keystone_image_match cp version) cp,
        )
        ∷ (minor_update_controlplane, controlplane_stage lib cp version)
        ∷ (minor_update_dataplane, dataplane_stage lib version nodesets)
        ∷ []

    minor_update-run :
        (cs : Conditions)
        → minor_update lib cp version deployed nodesets running previous cs ≡ run lib stages cs
    unfolding minor_update run
    minor_update-run cs = simp >>=-next

    last_stages : All (IsStage lib) (
        (minor_update_controlplane, controlplane_stage lib cp version)
        ∷ (minor_update_dataplane, dataplane_stage lib version nodesets)
        ∷ [])
    last_stages = (IsStage-controlplane cp version, (IsStage-dataplane version nodesets, tt))

    All-stages : All (IsStage lib) stages
    All-stages = (
      IsStage-ovn_controlplane cp version,
      (
        IsStage-ovn_dataplane cp version deployed nodesets running previous,
        (
          IsStage-workload _ _ _ cp,
          (
            IsStage-workload _ _ _ cp,
            (IsStage-workload _ _ _ cp, (IsStage-workload _ _ _ cp, last_stages)),
          ),
        ),
      ),
    )

    -- Where a minor update returns without an error before its end, it waits at one stage: the
    -- conditions of the stages before it are True, its own is False, and those of the stages after
    -- it are as they were.
    pub minor_update-StoppedAt :
        (cs after : Conditions)
        → minor_update lib cp version deployed nodesets running previous cs ≡ return after none
        → StoppedAt lib cs after stage_types
    minor_update-StoppedAt cs after h =
        StoppedAt-run lib stages cs after All-stages (ground arith) (rw (minor_update-run cs) at h)
