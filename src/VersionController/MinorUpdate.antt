-- ===== src/VersionController/MinorUpdate.antt =====
-- What the deployed version of an OpenStackVersion stands for, and that a reconcile reaches it.
use openstack_operator.Prelude.{
  ◌⊎◌, off_or, true, false, not, ◌&&◌, String, Option, none, some, List, ◌≡◌, ◌≢◌, ◌∙◌, refl, sym,
  ap, subst, inl, inr, Bool-cases, arith, All, lookup, lookup-delete, insert, found, listed, Error,
}
use openstack_operator.Images.{ovn_controller_image, ContainerDefaults}
use openstack_operator.Version.{OpenStackVersion, ServiceDefaults}
use openstack_operator.ImageMatch.{ControlPlane, ovn}
use openstack_operator.ImageMatch.Workloads.{Workload, runs, IsCurrent}
use openstack_operator.ImageMatch.Report.{controlplane_container_image_match_iff}
use openstack_operator.Conditions.{
  ConditionLib, false_condition, requested_reason, severity_info, has_true, ready_condition,
}
use openstack_operator.Nodesets.{NodeSet}
use openstack_operator.Nodesets.Checks.{
  IsDeployed, RunsOvnImage, dataplane_nodesets_deployed_iff,
  dataplane_nodesets_ovn_controller_images_match_iff,
}
use openstack_operator.VersionController.{
  conclude, is_nil, is_waiting, with_nodesets, with_control_plane, initialize_from, initialize,
  reconcile_found, update, update_from, skip_custom_images_validation,
}
use openstack_operator.Prelude.Control.{return, next}
use openstack_operator.VersionController.Initialize.{
  Env, Cluster, initialized, updating_from, condition_list, stored_service_defaults,
  no_service_defaults, set_available, set_images, set_service_defaults,
}
use openstack_operator.VersionController.Stages.{is_ready, mark_true}
use openstack_operator.VersionController.Passed.{minor_update-pass, all_marked}
use openstack_operator.VersionController.Deployed.{
  Deploys, ReadyFrom, filled, initialize_from-Deploys,
}

module _ (lib : ConditionLib) (env : Env) (cluster : Cluster lib.Conditions) where
  open lib use {Conditions, init, set}

  -- The control plane and the data plane run those images of the version that are compared.
  pub record IsUpdated (cp : ControlPlane Conditions) (nodesets : List NodeSet)
      (version : OpenStackVersion Conditions) : Type 0 where
    pub workloads : (w : Workload) → (runs cp w ≡ false) ⊎ IsCurrent cp version w
    pub nodesets_deployed : All (IsDeployed version.target_version) nodesets
    pub ovn_deployed :
        (cp.enabled ovn ≡ false)
        ⊎ All (RunsOvnImage (version.container_images.template ovn_controller_image)) nodesets

  Ready-IsUpdated :
      (cp : ControlPlane Conditions) (nodesets : List NodeSet) (saved : Option Conditions)
      (version : OpenStackVersion Conditions) (from : String)
      → ReadyFrom lib cluster cp nodesets saved version from
      → IsUpdated cp nodesets version
  Ready-IsUpdated cp nodesets saved version from r = record {
    workloads = (controlplane_container_image_match_iff cp version).0 r.images;
    nodesets_deployed =
        (dataplane_nodesets_deployed_iff version.target_version nodesets).0 r.dataplane;
    ovn_deployed = off_or (cp.enabled ovn) (λ on.
        (dataplane_nodesets_ovn_controller_images_match_iff
            (version.container_images.template ovn_controller_image) nodesets).0
          (r.ovn_dataplane on));
  }

  -- Whether a version is updated turns on its target and its images alone.
  IsUpdated-same :
      (cp : ControlPlane Conditions) (nodesets : List NodeSet)
      (version result : OpenStackVersion Conditions)
      → result.container_images ≡ version.container_images
      → result.target_version ≡ version.target_version
      → IsUpdated cp nodesets version
      → IsUpdated cp nodesets result
  IsUpdated-same cp nodesets version result images target u = record {
    workloads = λ w.
        subst (λ x. (runs cp w ≡ false) ⊎ IsCurrent cp (record version { container_images = x }) w)
          (sym images) (u.workloads w);
    nodesets_deployed = subst (λ x. All (IsDeployed x) nodesets) (sym target) u.nodesets_deployed;
    ovn_deployed =
        subst
          (λ x.
            (cp.enabled ovn ≡ false)
            ⊎ All (RunsOvnImage (x.template ovn_controller_image)) nodesets)
          (sym images) u.ovn_deployed;
  }

  -- What a reconcile that changed the deployed version found.
  pub record Completed (version result : OpenStackVersion Conditions) : Type 0 where
    pub cp : ControlPlane Conditions
    pub nodesets : List NodeSet
    pub found_cp : cluster.control_plane ≡ found cp
    pub listed_nodesets : cluster.nodesets ≡ listed nodesets
    pub up : is_ready lib cp ≡ true
    pub deployed : result.deployed_version ≡ some version.target_version
    pub updated : (updating_from version ≡ none) ⊎ IsUpdated cp nodesets result

  if_updating :
      (o : Option String) {P : Type 0} → ((from : String) → o ≡ some from → P) → (o ≡ none) ⊎ P
  if_updating none h = inl refl
  if_updating (some from) h = inr (h from refl)

  Deploys-Completed :
      (version : OpenStackVersion Conditions) (saved : Option Conditions)
      (defaults : ContainerDefaults) (services : ServiceDefaults)
      {result : OpenStackVersion Conditions}
      → Deploys lib cluster saved (filled lib cluster env version defaults services) result
      → Completed version result
  unfolding filled set_service_defaults set_images set_available updating_from
  Deploys-Completed version saved defaults services {result} d = record {
    cp = d.cp;
    nodesets = d.nodesets;
    found_cp = d.found_cp;
    listed_nodesets = d.listed_nodesets;
    up = d.up;
    deployed = d.deployed;
    updated = if_updating (updating_from version) (λ from q.
        IsUpdated-same d.cp d.nodesets (filled lib cluster env version defaults services) result
          d.images d.target
          (Ready-IsUpdated d.cp d.nodesets saved (filled lib cluster env version defaults services)
            from (d.passed from q)));
  }

  Completed-observed :
      (version : OpenStackVersion Conditions) (cs : Conditions)
      {result : OpenStackVersion Conditions}
      → Completed
          (record version { conditions = some cs; observed_generation = version.generation })
          result
      → Completed version result
  unfolding updating_from
  Completed-observed version cs c = record {
    cp = c.cp;
    nodesets = c.nodesets;
    found_cp = c.found_cp;
    listed_nodesets = c.listed_nodesets;
    up = c.up;
    deployed = c.deployed;
    updated = c.updated;
  }

  -- A reconcile that changes the deployed version sets it to the target version, having found the
  -- control plane ready; and if a minor update was in progress, each workload is switched off or
  -- runs the images of the target version, those of the KSM exporter, the network utilities and the
  -- network exporter aside, which are not compared; each nodeset was reconciled since its last
  -- change, and if it has nodes is ready and deployed at that version; and, unless OVN is switched
  -- off, each nodeset with nodes on which OVN was deployed runs its image.
  pub reconcile_found-Completed :
      (version : OpenStackVersion Conditions) {result : OpenStackVersion Conditions}
      {e : Option Error}
      → reconcile_found lib env cluster version ≡ return result e
      → result.deployed_version ≢ version.deployed_version
      → Completed version result
  unfolding reconcile_found
  reconcile_found-Completed version h changed =
      elim (Bool-cases (not version.deleting && is_nil version.conditions)) [
        | inl new ↦ absurd (ground (arith, new))
        | inr old ↦
            let (defaults, services, d) =
              initialize_from-Deploys lib cluster env version.conditions _ _ _
                (rw (old, initialize) at h) changed in
            Completed-observed version _
              (Deploys-Completed _ version.conditions defaults services d)
      ]

  update_from-completes :
      (cp : ControlPlane Conditions) (nodesets : List NodeSet) (saved : Option Conditions)
      (version : OpenStackVersion Conditions) (cs : Conditions) (from : String)
      → ReadyFrom lib cluster cp nodesets saved version from
      → update_from lib cluster cp nodesets saved version cs (some from)
        ≡ conclude lib cp version (all_marked lib cp version cs)
  unfolding update_from
  update_from-completes cp nodesets saved version cs from ready =
      rw (minor_update-pass lib cp version from nodesets _ _ cs ready)

  with_nodesets-completes :
      (cp : ControlPlane Conditions) (nodesets : List NodeSet) (saved : Option Conditions)
      (version : OpenStackVersion Conditions) (cs : Conditions) (from : String)
      → is_waiting lib cp nodesets ≡ false
      → updating_from version ≡ some from
      → ReadyFrom lib cluster cp nodesets saved version from
      → with_nodesets lib cluster cp (listed nodesets) saved version cs
        ≡ conclude lib cp version (all_marked lib cp version cs)
  unfolding with_nodesets
  with_nodesets-completes cp nodesets saved version cs from waits updating ready =
      rw (waits, update)
        (rw updating (update_from-completes cp nodesets saved version cs from ready))

  conclude-up :
      (cp : ControlPlane Conditions) (version : OpenStackVersion Conditions) (cs : Conditions)
      (available : String)
      → has_true (lib.status ready_condition cp.conditions) ≡ true
      → version.available_version ≡ some available
      → (result : OpenStackVersion Conditions) × (conclude lib cp version cs ≡ return result none)
        × (result.deployed_version ≡ some version.target_version)
        × (lookup skip_custom_images_validation result.annotations ≡ none)
  unfolding conclude
  conclude-up cp version cs available up known = rw (up) (
      rw (known) (
        _,
        refl,
        refl,
        lookup-delete skip_custom_images_validation skip_custom_images_validation
            version.annotations,
      ))

  abbrev observed : OpenStackVersion Conditions → OpenStackVersion Conditions
  observed version = record version {
    conditions = some (init (condition_list version));
    observed_generation = version.generation;
  }

  -- The version with its defaults known and the status filled in, as the stages see it.
  abbrev pub target :
      OpenStackVersion Conditions
      → ContainerDefaults
      → ServiceDefaults
      → OpenStackVersion Conditions
  target version defaults services = filled lib cluster env (observed version) defaults services

  updating_from-target :
      (version : OpenStackVersion Conditions) (defaults : ContainerDefaults)
      (services : ServiceDefaults)
      → updating_from (target version defaults services) ≡ updating_from version
  unfolding filled set_service_defaults set_images set_available updating_from
  updating_from-target version defaults services = refl

  -- What `Reconcile` takes the service defaults of the target version from: they are not known, or
  -- they are, and are not nil.
  abbrev pub AreServices : OpenStackVersion Conditions → ServiceDefaults → Type 0
  AreServices version services =
      ((lookup version.target_version (stored_service_defaults env version) ≡ none)
        × (services ≡ no_service_defaults))
      ⊎ (lookup version.target_version (stored_service_defaults env version) ≡ some (some services))

  set_service_defaults-next :
      (version : OpenStackVersion Conditions) (services : ServiceDefaults)
      → AreServices version services
      → set_service_defaults env version
        ≡ next (record version {
          available_service_defaults = stored_service_defaults env version;
          service_defaults = services;
        })
  unfolding set_service_defaults
  set_service_defaults-next version services (inl (unknown, e)) = rw (unknown) (
      ap
        (λ s. next (record version {
          available_service_defaults = stored_service_defaults env version;
          service_defaults = s;
        }))
        (sym e))
  set_service_defaults-next version services (inr known) = rw (known) refl

  initialize_from-completes :
      (version : OpenStackVersion Conditions) (defaults : ContainerDefaults)
      (services : ServiceDefaults) (cp : ControlPlane Conditions) (nodesets : List NodeSet)
      (saved : Option Conditions) (cs : Conditions) (from : String)
      → AreServices version services
      → cluster.control_plane ≡ found cp
      → cluster.nodesets ≡ listed nodesets
      → is_waiting lib cp nodesets ≡ false
      → updating_from version ≡ some from
      → ReadyFrom lib cluster cp nodesets saved
          (filled lib cluster env version defaults services)
          from
      → initialize_from lib env cluster saved (set_available env version) cs (some (some defaults))
        ≡ conclude lib cp (filled lib cluster env version defaults services) (
            all_marked lib cp
              (filled lib cluster env version defaults services)
              (mark_true lib initialized cs))
  unfolding initialize_from filled set_available set_images stored_service_defaults updating_from
  initialize_from-completes version defaults services cp nodesets saved cs from sv f l waits
        updating ready =
      rw (set_service_defaults-next (set_images defaults (set_available env version)) services sv) (
        rw (f, with_control_plane)
          (rw l (
            with_nodesets-completes cp nodesets saved
              (filled lib cluster env version defaults services) _ from waits updating ready)))

  -- One reconcile completes a minor update where everything is ready for it and the defaults of the
  -- target version are stored and not nil, those of its services if they are stored: it returns no
  -- error, the deployed version is the target version, and the annotation that switched the
  -- validation of the custom images off is gone.
  pub reconcile_found-completes :
      (version : OpenStackVersion Conditions) (defaults : ContainerDefaults)
      (services : ServiceDefaults) (cp : ControlPlane Conditions) (nodesets : List NodeSet)
      (from : String)
      → (not version.deleting && is_nil version.conditions) ≡ false
      → lookup version.target_version (
          insert env.available_version
            (some env.image_defaults)
            version.container_image_version_defaults)
        ≡ some (some defaults)
      → AreServices version services
      → cluster.control_plane ≡ found cp
      → cluster.nodesets ≡ listed nodesets
      → is_waiting lib cp nodesets ≡ false
      → updating_from version ≡ some from
      → ReadyFrom lib cluster cp nodesets version.conditions (target version defaults services) from
      → (result : OpenStackVersion Conditions) × (reconcile_found lib env cluster version
          ≡ return result none)
        × (result.deployed_version ≡ some version.target_version)
        × (lookup skip_custom_images_validation result.annotations ≡ none)
  unfolding reconcile_found filled
  reconcile_found-completes version defaults services cp nodesets from old known sv f l waits
        updating ready =
      let filled_in = target version defaults services in
      let cs =
        set (false_condition initialized requested_reason severity_info)
          (init (condition_list version)) in
      let (result, ends, deployed, gone) =
        conclude-up cp filled_in (all_marked lib cp filled_in (mark_true lib initialized cs))
          env.available_version ready.controlplane refl in
      (
        result,
        rw (old, initialize)
            (rw (known) (
              initialize_from-completes (observed version) defaults services cp nodesets
                version.conditions cs from sv f l waits updating ready
              ∙ ends)),
        deployed,
        gone,
      )
