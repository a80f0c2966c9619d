-- ===== src/VersionController/Totality.antt =====
-- That a reconcile of a version returns: no pointer that is nil is dereferenced on the way.
use openstack_operator.Prelude.{
  Bool, true, false, not, ◌&&◌, String, Option, none, some, List, ◌≡◌, ◌≢◌, refl, if◌then◌else◌,
  lookup, insert, Error, Fetch, found, not_found, failed, Listing, listed, list_failed,
}
use openstack_operator.Images.{ContainerDefaults, get_container_images, ovn_controller_image}
use openstack_operator.Version.{OpenStackVersion, ServiceDefaults}
use openstack_operator.ImageMatch.{ControlPlane}
use openstack_operator.Conditions.{ConditionLib}
use openstack_operator.Nodesets.{NodeSet}
use openstack_operator.VersionController.{
  is_nil, settle, conclude, set_deployed, compare_available, ended, update, update_from, is_waiting,
  with_nodesets, with_control_plane, initialize_from, reconcile_found,
}
use openstack_operator.Prelude.Control.{Flow, next, return, panicked, ◌>>=◌}
use openstack_operator.VersionController.Initialize.{
  Env, Cluster, updating_from, set_images, set_service_defaults, set_available, condition_list,
  stored_service_defaults, set_service_defaults_from,
}
use openstack_operator.VersionController.Safety.{
  HasNoNil, HasNoNil-insert, IsSafe, goes_on, stops, minor_update-IsSafe, running-IsDefined,
}

-- The control flow returns.
pub data Returns {S : Type 0} : Flow S → Type 0 where
  returned : (s : S) (e : Option Error) → Returns (return s e)

Returns-if :
    {S : Type 0} (b : Bool) {m n : Flow S} → Returns m → Returns n → Returns (if b then m else n)
Returns-if true p q = p
Returns-if false p q = q

module _ (lib : ConditionLib) where
  open lib use {Conditions, init, set}

  module _ (cp : ControlPlane Conditions) (version : OpenStackVersion Conditions) where
    conclude-Returns :
        (cs : Conditions) (available : String)
        → version.available_version ≡ some available
        → Returns (conclude lib cp version cs)
    unfolding conclude compare_available
    conclude-Returns cs available known =
        compare (set_deployed lib cp version) (set_deployed lib cp version).deployed_version
          version.available_version known
      where
        compare :
            (v : OpenStackVersion Conditions) (deployed o : Option String)
            → o ≡ some available
            → Returns (ended lib v (compare_available lib deployed o cs))
        compare v none o h = returned _ _
        compare v (some d) none h = absurd (cc h)
        compare v (some d) (some a) h = returned _ _

    settle-Returns :
        (m : Flow Conditions) (available : String)
        → version.available_version ≡ some available
        → IsSafe m
        → Returns (settle lib cp version m)
    settle-Returns (next cs) available known goes_on = conclude-Returns cs available known
    settle-Returns (return cs e) available known stops = returned _ _
    settle-Returns panicked available known h = elim h [ ]

  module _ (cluster : Cluster Conditions) (saved : Option Conditions)
      (version : OpenStackVersion Conditions) (cs : Conditions) (image available : String)
      (has_image : version.container_images.template ovn_controller_image ≡ some image)
      (is_available : version.available_version ≡ some available)
      (known : HasNoNil version.container_image_version_defaults) where
    update_from-Returns :
        (cp : ControlPlane Conditions) (nodesets : List NodeSet) (from : Option String)
        → Returns (update_from lib cluster cp nodesets saved version cs from)
    unfolding update_from
    update_from-Returns cp nodesets none = conclude-Returns cp version cs available is_available
    update_from-Returns cp nodesets (some deployed) =
        settle-Returns cp version _ available is_available (
          minor_update-IsSafe lib cp version image deployed nodesets _ _ cs has_image known
            (running-IsDefined cluster.service cluster.deployments nodesets "ovn"))

    with_nodesets-Returns :
        (cp : ControlPlane Conditions) (nodesets : Listing (List NodeSet))
        → Returns (with_nodesets lib cluster cp nodesets saved version cs)
    unfolding with_nodesets update
    with_nodesets-Returns cp (list_failed e) = returned _ _
    with_nodesets-Returns cp (listed nodesets) =
        Returns-if (is_waiting lib cp nodesets) (returned _ _)
          (update_from-Returns cp nodesets (updating_from version))

    with_control_plane-Returns :
        (plane : Fetch (ControlPlane Conditions))
        → Returns (with_control_plane lib cluster plane saved version cs)
    unfolding with_control_plane
    with_control_plane-Returns not_found = returned _ _
    with_control_plane-Returns (failed e) = returned _ _
    with_control_plane-Returns (found cp) = with_nodesets-Returns cp cluster.nodesets

  module _ (cluster : Cluster Conditions) (saved : Option Conditions)
      (available : List (String × Option ServiceDefaults)) (version : OpenStackVersion Conditions)
      (cs : Conditions) (image : String) (current : String)
      (has_image : version.container_images.template ovn_controller_image ≡ some image)
      (is_available : version.available_version ≡ some current)
      (known : HasNoNil version.container_image_version_defaults) where
    services-Returns :
        (services : Option (Option ServiceDefaults))
        → services ≢ some none
        → Returns (
            set_service_defaults_from available services version >>= λ v.
            with_control_plane lib cluster cluster.control_plane saved v cs)
    unfolding set_service_defaults_from
    services-Returns none h =
        with_control_plane-Returns cluster saved _ cs image current has_image is_available known
          cluster.control_plane
    services-Returns (some none) h = absurd (h refl)
    services-Returns (some (some services)) h =
        with_control_plane-Returns cluster saved _ cs image current has_image is_available known
          cluster.control_plane

  module _ (env : Env) (cluster : Cluster Conditions) (version : OpenStackVersion Conditions)
      (images : HasNoNil version.container_image_version_defaults)
      (services : HasNoNil version.available_service_defaults) where
    initialize_from-Returns :
        (saved : Option Conditions) (cs : Conditions) (image : String)
        (defaults : Option (Option ContainerDefaults))
        → defaults ≢ some none
        → ((d : ContainerDefaults)
            → defaults ≡ some (some d)
            → (get_container_images d version.custom_container_images).0.template
                ovn_controller_image
              ≡ some image)
        → Returns (initialize_from lib env cluster saved (set_available env version) cs defaults)
    unfolding initialize_from set_images set_service_defaults stored_service_defaults set_available
    initialize_from-Returns saved cs image none no_nil h = returned _ _
    initialize_from-Returns saved cs image (some none) no_nil h = absurd (no_nil refl)
    initialize_from-Returns saved cs image (some (some defaults)) no_nil h =
        services-Returns cluster saved
          (insert env.available_version (some env.service_defaults)
            version.available_service_defaults)
          (set_images defaults (set_available env version)) _ image env.available_version
          (h defaults refl) refl
          (HasNoNil-insert env.available_version env.image_defaults
            version.container_image_version_defaults images)
          _
          (HasNoNil-insert env.available_version env.service_defaults
            version.available_service_defaults services version.target_version)

  -- A reconcile of a version that was fetched always returns, with an error or without one, where
  -- none of the defaults that are stored in its status is nil, and its target version, if its
  -- defaults are known, has an image of the OVN controller: no pointer that is nil is dereferenced,
  -- whatever the API server answers.
  pub reconcile_found-Returns :
      (env : Env) (cluster : Cluster Conditions) (version : OpenStackVersion Conditions)
      (image : String)
      → HasNoNil version.container_image_version_defaults
      → HasNoNil version.available_service_defaults
      → ((d : ContainerDefaults)
          → lookup version.target_version (
              insert env.available_version
                (some env.image_defaults)
                version.container_image_version_defaults)
            ≡ some (some d)
          → (get_container_images d version.custom_container_images).0.template ovn_controller_image
            ≡ some image)
      → Returns (reconcile_found lib env cluster version)
  unfolding reconcile_found set_available
  reconcile_found-Returns env cluster version image images services h =
      Returns-if (not version.deleting && is_nil version.conditions) (returned _ _) (
        initialize_from-Returns env cluster
          (record version {
            conditions = some (init (condition_list version));
            observed_generation = version.generation;
          })
          images services version.conditions _ image _
          (HasNoNil-insert env.available_version env.image_defaults
            version.container_image_version_defaults images version.target_version)
          h)
