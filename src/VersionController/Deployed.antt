-- ===== src/VersionController/Deployed.antt =====
-- When a reconcile sets `Status.DeployedVersion`.
use openstack_operator.Prelude.{
  true, String, Option, none, some, List, ◌≡◌, ◌≢◌, ◌∙◌, refl, sym, subst, inl, inr, arith,
  Bool-cases, Fetch, found, not_found, failed, Listing, listed, list_failed, Error,
}
use mathlib.Core.Option.{some-injective}
use openstack_operator.Images.{ContainerDefaults}
use openstack_operator.Version.{OpenStackVersion, ServiceDefaults}
use openstack_operator.ImageMatch.{ControlPlane}
use openstack_operator.Conditions.{ConditionLib}
use openstack_operator.Nodesets.{NodeSet, is_dataplane_deployment_running_for_service_type}
use openstack_operator.VersionController.{
  conclude, settle, update_from, update, with_nodesets, is_waiting, initialize_from,
  with_control_plane, saved_reason,
}
use openstack_operator.Prelude.Control.{Flow, next, return, panicked, ◌>>=◌, panicked-ne-return}
use openstack_operator.VersionController.Initialize.{
  Env, Cluster, updating_from, set_available, set_images, set_service_defaults,
  stored_service_defaults, set_service_defaults_from, no_service_defaults,
}
use openstack_operator.VersionController.Stages.{minor_update_ovn_dataplane, is_ready}
use openstack_operator.VersionController.Passed.{Ready, minor_update-next}

none_ne_some : {A : Type 0} {a : A} → none ≢ some a
none_ne_some h = cc

module _ (lib : ConditionLib) (cluster : Cluster lib.Conditions) where
  open lib use {Conditions}

  -- Everything is ready for the end of a minor update from a version.
  abbrev pub ReadyFrom :
      ControlPlane Conditions
      → List NodeSet
      → Option Conditions
      → OpenStackVersion Conditions
      → String
      → Type 0
  ReadyFrom cp nodesets saved version deployed =
      Ready lib cp version deployed nodesets
        (is_dataplane_deployment_running_for_service_type cluster.service cluster.deployments
          nodesets "ovn")
        (saved_reason lib saved minor_update_ovn_dataplane)

  module _ (cp : ControlPlane Conditions) (version : OpenStackVersion Conditions) where
    conclude-deploys :
        (cs : Conditions) {result : OpenStackVersion Conditions} {e : Option Error}
        → conclude lib cp version cs ≡ return result e
        → result.deployed_version ≢ version.deployed_version
        → (is_ready lib cp ≡ true)
          × (result.deployed_version ≡ some version.target_version)
          × (result.container_images ≡ version.container_images)
          × (result.target_version ≡ version.target_version)
    unfolding conclude
    conclude-deploys cs h changed = ground arith

    settle-deploys :
        (m : Flow Conditions) {result : OpenStackVersion Conditions} {e : Option Error}
        → settle lib cp version m ≡ return result e
        → result.deployed_version ≢ version.deployed_version
        → (cs : Conditions) × (m ≡ next cs) × (conclude lib cp version cs ≡ return result e)
    settle-deploys (next cs) h changed = (cs, refl, h)
    settle-deploys (return cs e) h changed = ground arith
    settle-deploys panicked h changed = ground arith

  -- What is known where the deployed version of `result` is not that of `version`.
  pub record Deploys (saved : Option Conditions) (version result : OpenStackVersion Conditions)
      : Type 0 where
    pub cp : ControlPlane Conditions
    pub nodesets : List NodeSet
    pub found_cp : cluster.control_plane ≡ found cp
    pub listed_nodesets : cluster.nodesets ≡ listed nodesets
    pub up : is_ready lib cp ≡ true
    pub deployed : result.deployed_version ≡ some version.target_version
    pub images : result.container_images ≡ version.container_images
    pub target : result.target_version ≡ version.target_version
    pub passed :
        (from : String)
        → updating_from version ≡ some from
        → ReadyFrom cp nodesets saved version from

  module _ (cp : ControlPlane Conditions) (nodesets : List NodeSet) (saved : Option Conditions)
      (version : OpenStackVersion Conditions) (cs : Conditions)
      {result : OpenStackVersion Conditions} {e : Option Error} where
    update_from-Deploys :
        (from : Option String)
        → updating_from version ≡ from
        → cluster.control_plane ≡ found cp
        → cluster.nodesets ≡ listed nodesets
        → update_from lib cluster cp nodesets saved version cs from ≡ return result e
        → result.deployed_version ≢ version.deployed_version
        → Deploys saved version result
    unfolding update_from
    update_from-Deploys none p f l h changed =
        let c = conclude-deploys cp version cs {result = result} h changed in
        record {
          cp = cp;
          nodesets = nodesets;
          found_cp = f;
          listed_nodesets = l;
          up = c.0;
          deployed = c.1;
          images = c.2;
          target = c.3;
          passed = λ d q. absurd (none_ne_some (sym p ∙ q));
        }
    update_from-Deploys (some d) p f l h changed =
        let (cs', passed, ends) = settle-deploys cp version _ h changed in
        let c = conclude-deploys cp version cs' {result = result} ends changed in
        record {
          cp = cp;
          nodesets = nodesets;
          found_cp = f;
          listed_nodesets = l;
          up = c.0;
          deployed = c.1;
          images = c.2;
          target = c.3;
          passed = λ from q.
              subst (ReadyFrom cp nodesets saved version) (some-injective d from (sym p ∙ q))
                (minor_update-next lib cp version d nodesets _ _ cs passed).0;
        }

  module _ (cp : ControlPlane Conditions) (saved : Option Conditions)
      (version : OpenStackVersion Conditions) (cs : Conditions)
      {result : OpenStackVersion Conditions} {e : Option Error} where
    with_nodesets-Deploys :
        (listing : Listing (List NodeSet))
        → cluster.nodesets ≡ listing
        → cluster.control_plane ≡ found cp
        → with_nodesets lib cluster cp listing saved version cs ≡ return result e
        → result.deployed_version ≢ version.deployed_version
        → Deploys saved version result
    unfolding with_nodesets
    with_nodesets-Deploys (list_failed x) l f h changed = absurd (ground arith)
    with_nodesets-Deploys (listed nodesets) l f h changed =
        elim (Bool-cases (is_waiting lib cp nodesets)) [
          | inl waits ↦ absurd (ground (arith, waits))
          | inr ready ↦
              update_from-Deploys cp nodesets saved version cs (updating_from version) refl f l
                (rw (ready, update) at h) changed
        ]

  module _ (saved : Option Conditions) (version : OpenStackVersion Conditions) (cs : Conditions)
      {result : OpenStackVersion Conditions} {e : Option Error} where
    with_control_plane-Deploys :
        (fetch : Fetch (ControlPlane Conditions))
        → cluster.control_plane ≡ fetch
        → with_control_plane lib cluster fetch saved version cs ≡ return result e
        → result.deployed_version ≢ version.deployed_version
        → Deploys saved version result
    unfolding with_control_plane
    with_control_plane-Deploys (found cp) f h changed =
        with_nodesets-Deploys cp saved version cs cluster.nodesets refl f h changed
    with_control_plane-Deploys (failed x) f h changed = absurd (ground arith)
    with_control_plane-Deploys not_found f h changed = absurd (ground arith)

  module _ (saved : Option Conditions) (available : List (String × Option ServiceDefaults))
      (version : OpenStackVersion Conditions) (cs : Conditions)
      {result : OpenStackVersion Conditions} {e : Option Error} where
    services-Deploys :
        (found_services : Option (Option ServiceDefaults))
        → (set_service_defaults_from available found_services version >>= λ v.
            with_control_plane lib cluster cluster.control_plane saved v cs)
          ≡ return result e
        → result.deployed_version ≢ version.deployed_version
        → (services : ServiceDefaults) × Deploys saved
            (record version { available_service_defaults = available; service_defaults = services })
            result
    unfolding set_service_defaults_from
    services-Deploys none h changed = (
      no_service_defaults,
      with_control_plane-Deploys saved _ cs cluster.control_plane refl h changed,
    )
    services-Deploys (some none) h changed = absurd (panicked-ne-return h)
    services-Deploys (some (some services)) h changed =
        (services, with_control_plane-Deploys saved _ cs cluster.control_plane refl h changed)

  -- The version as `Reconcile` has filled it in before it looks at the control plane.
  unfoldable pub filled :
      Env
      → OpenStackVersion Conditions
      → ContainerDefaults
      → ServiceDefaults
      → OpenStackVersion Conditions
  filled env version defaults services = record (set_images defaults (set_available env version)) {
    available_service_defaults = stored_service_defaults env version;
    service_defaults = services;
  }

  module _ (env : Env) (saved : Option Conditions) (version : OpenStackVersion Conditions)
      (cs : Conditions) {result : OpenStackVersion Conditions} {e : Option Error} where
    pub initialize_from-Deploys :
        (found_defaults : Option (Option ContainerDefaults))
        → initialize_from lib env cluster saved (set_available env version) cs found_defaults
          ≡ return result e
        → result.deployed_version ≢ version.deployed_version
        → (defaults : ContainerDefaults) × (services : ServiceDefaults) × Deploys saved
            (filled env version defaults services)
            result
    unfolding initialize_from filled set_service_defaults set_images set_available
        stored_service_defaults
    initialize_from-Deploys none h changed = absurd (ground arith)
    initialize_from-Deploys (some none) h changed = absurd (panicked-ne-return h)
    initialize_from-Deploys (some (some defaults)) h changed =
        let (services, d) =
          services-Deploys saved (stored_service_defaults env version)
            (set_images defaults (set_available env version)) _ _ h changed in
        (defaults, services, d)
