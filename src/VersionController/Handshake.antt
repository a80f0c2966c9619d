-- ===== src/VersionController/Handshake.antt =====
-- The stage that waits for the OVN deployment of the data plane, over two reconciles: the second
-- goes by the reason that the first left in the condition of the stage.
use openstack_operator.Prelude.{
  Bool, true, false, String, Option, none, some, List, ◌≡◌, ◌≢◌, refl, arith, ok, ◌∙◌, ◌⊎◌, inl,
  inr, Bool-cases,
}
use openstack_operator.Images.{ovn_controller_image}
use openstack_operator.Version.{OpenStackVersion}
use openstack_operator.ImageMatch.{ControlPlane, ovn}
use openstack_operator.Conditions.{
  ConditionLib, requested_reason, severity_info, false_condition, true_condition, unknown_condition,
  init_reason, ready_condition,
}
use openstack_operator.Nodesets.{NodeSet, dataplane_nodesets_ovn_controller_images_match}
use openstack_operator.VersionController.{update_ready, saved_reason}
use openstack_operator.Prelude.Control.{next, return}
use openstack_operator.VersionController.Stages.{
  minor_update_ovn_dataplane, mark_true, ovn_image_unchanged, ovn_dataplane_stage,
}

module _ (lib : ConditionLib) (cp : ControlPlane lib.Conditions)
    (version : OpenStackVersion lib.Conditions) (deployed : String) where
  open lib use {Conditions, set, reason}

  -- The deferred function leaves the reason of the stage's condition as it is.
  reason-update_ready :
      (cs : Conditions)
      → reason minor_update_ovn_dataplane (update_ready lib cs)
        ≡ reason minor_update_ovn_dataplane cs
  unfolding update_ready
  reason-update_ready cs = elim (Bool-cases (lib.all_sub_condition_is_true cs)) [
    | inl up ↦
        rw up
          (lib.reason-set_ne (true_condition ready_condition) minor_update_ovn_dataplane cs refl)
    | inr down ↦ rw down (
        lib.reason-set_mirror_ne ready_condition minor_update_ovn_dataplane _ refl
        ∙ lib.reason-set_ne (unknown_condition ready_condition init_reason)
            minor_update_ovn_dataplane cs refl)
  ]

  -- The conditions that a reconcile leaves which waits for the nodesets or saw a deployment run.
  abbrev pub requested : Conditions → Conditions
  requested cs = set (false_condition minor_update_ovn_dataplane requested_reason severity_info) cs

  -- Where the image of OVN tells nothing, the stage is not passed before its condition was left
  -- with the reason `Requested`, nor while a deployment of OVN runs.
  pub ovn_dataplane_stage-waits :
      (nodesets : List NodeSet) (running : Bool) (saved : Option Conditions) (cs cs' : Conditions)
      → cp.enabled ovn ≡ true
      → ovn_image_unchanged lib deployed version ≡ ok true
      → (running ≡ true)
        ⊎ (saved_reason lib saved minor_update_ovn_dataplane ≢ some requested_reason)
      → ovn_dataplane_stage lib cp version deployed nodesets
          (ok running)
          (saved_reason lib saved minor_update_ovn_dataplane)
          cs
        ≢ next cs'
  unfolding ovn_dataplane_stage
  ovn_dataplane_stage-waits nodesets running saved cs cs' on unchanged waits h = ground arith

  -- The reason `Requested` does not say that a deployment of OVN was seen. A reconcile that finds a
  -- nodeset with another generation than the observed one leaves it too; the next, once the nodeset
  -- is observed, passes the stage, though no deployment of OVN ran at either. What is stored for the
  -- deployed version, if anything is, is not nil.
  pub ovn_dataplane_stage-unobserved :
      (before after : List NodeSet) (saved : Option Conditions) (cs cs2 : Conditions)
      (unchanged : Bool)
      → cp.enabled ovn ≡ true
      → ovn_image_unchanged lib deployed version ≡ ok unchanged
      → dataplane_nodesets_ovn_controller_images_match
          (version.container_images.template ovn_controller_image)
          before
        ≡ ok false
      → dataplane_nodesets_ovn_controller_images_match
          (version.container_images.template ovn_controller_image)
          after
        ≡ ok true
      → (ovn_dataplane_stage lib cp version deployed before
            (ok false)
            (saved_reason lib saved minor_update_ovn_dataplane)
            cs
          ≡ return (requested cs) none)
        × (ovn_dataplane_stage lib cp version deployed after
              (ok false)
              (saved_reason lib (some (update_ready lib (requested cs))) minor_update_ovn_dataplane)
              cs2
            ≡ next (mark_true lib minor_update_ovn_dataplane cs2))
  unfolding ovn_dataplane_stage saved_reason
  ovn_dataplane_stage-unobserved before after saved cs cs2 unchanged on known mismatch match = (
    ground arith,
    ground (
      arith,
      reason-update_ready (requested cs),
      lib.reason-set_self
          (false_condition minor_update_ovn_dataplane requested_reason severity_info) cs,
    ),
  )
