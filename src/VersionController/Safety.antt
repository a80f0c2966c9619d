-- ===== src/VersionController/Safety.antt =====
-- That the stages of a minor update dereference no pointer that is nil
-- (internal/controller/core/openstackversion_controller.go).
use openstack_operator.Prelude.{
  Bool, true, false, not, ◌&&◌, String, Option, none, some, List, [], ◌∷◌, ◌≡◌, ◌≢◌, inl, inr,
  Bool-cases, lookup-insert, ◌==◌, refl, subst, sym, if◌then◌else◌, lookup, insert, Outcome, ok,
  err, panic, Error, is_empty, nat_eq, Fetch, Listing, listed, list_failed,
}
use openstack_operator.Images.{ContainerDefaults, ovn_controller_image}
use openstack_operator.Version.{OpenStackVersion}
use openstack_operator.ImageMatch.{ControlPlane, ovn}
use openstack_operator.ImageMatch.Failed.{controlplane_container_image_match}
use openstack_operator.Conditions.{ConditionLib, Reason}
use openstack_operator.Nodesets.{
  NodeSet, Service, Deployment, text_at, Scan, hit, broke, go, outcome_of,
  dataplane_nodesets_deployed, dataplane_nodesets_ovn_controller_images_match,
  is_dataplane_deployment_running_for_service_type,
}
use openstack_operator.Prelude.Control.{Flow, next, return, ◌>>=◌}
use openstack_operator.VersionController.Stages.{
  is_ready, same_image, ovn_image_unchanged, workload_stage, ovn_controlplane_stage,
  observe_ovn_deployment, ovn_dataplane_checks, ovn_dataplane_stage, controlplane_stage,
  dataplane_stage, minor_update,
}

-- No name has a nil pointer.
abbrev pub HasNoNil : {A : Type 0} → List (String × Option A) → Type 0
HasNoNil {A} m = (name : String) → ◌≢◌ {A = Option (Option A)} (lookup name m) (some none)

pub HasNoNil-insert :
    {A : Type 0} (key : String) (a : A) (m : List (String × Option A))
    → HasNoNil m
    → HasNoNil (insert key (some a) m)
HasNoNil-insert key a m h name nil = elim (Bool-cases (key == name)) [
  | inl same ↦ absurd (cc (rw (lookup-insert key name (some a) m, same) at nil))
  | inr other ↦ h name (rw (lookup-insert key name (some a) m, other) at nil)
]

-- The result is a value or an error.
pub data IsDefined : Outcome Bool → Type 0 where
  valued : {b : Bool} → IsDefined (ok b)
  erred : {e : Error} → IsDefined (err e)

-- The control flow goes on, or returns.
pub data IsSafe {S : Type 0} : Flow S → Type 0 where
  goes_on : {s : S} → IsSafe (next s)
  stops : {s : S} {e : Option Error} → IsSafe (return s e)

IsSafe->>= :
    {S : Type 0} {m : Flow S} {f : S → Flow S}
    → IsSafe m
    → ((s : S) → IsSafe (f s))
    → IsSafe (m >>= f)
IsSafe->>= (goes_on {s = s}) k = k s
IsSafe->>= stops k = stops

IsSafe-if :
    {S : Type 0} (b : Bool) {m n : Flow S} → IsSafe m → IsSafe n → IsSafe (if b then m else n)
IsSafe-if true p q = p
IsSafe-if false p q = q

IsDefined-if :
    (b : Bool) {r s : Outcome Bool} → IsDefined r → IsDefined s → IsDefined (if b then r else s)
IsDefined-if true p q = p
IsDefined-if false p q = q

images_match-IsDefined :
    (image : String) (nodesets : List NodeSet)
    → IsDefined (dataplane_nodesets_ovn_controller_images_match (some image) nodesets)
unfolding dataplane_nodesets_ovn_controller_images_match
images_match-IsDefined image [] = valued
images_match-IsDefined image (nodeset ∷ items) =
    let rest = images_match-IsDefined image items in
    IsDefined-if (not (nat_eq nodeset.generation nodeset.observed_generation)) valued (
      IsDefined-if
        (not (is_empty nodeset.nodes)
          && not (text_at nodeset.container_images "OvnControllerImage" == ""))
        (IsDefined-if (text_at nodeset.container_images "OvnControllerImage" == image) rest valued)
        rest)

outcome_of-IsDefined : (s : Scan) → IsDefined (outcome_of s)
outcome_of-IsDefined hit = valued
outcome_of-IsDefined (broke e) = erred
outcome_of-IsDefined (go cache) = valued

pub running-IsDefined :
    (get : String → Fetch Service) (deployments : Listing (List Deployment))
    (nodesets : List NodeSet) (service_type : String)
    → IsDefined
        (is_dataplane_deployment_running_for_service_type get deployments nodesets service_type)
unfolding is_dataplane_deployment_running_for_service_type
running-IsDefined get (list_failed e) nodesets service_type = erred
running-IsDefined get (listed deployments) nodesets service_type = outcome_of-IsDefined _

module _ (lib : ConditionLib) where
  open lib use {Conditions, init, set}

  observe-IsSafe :
      (running : Outcome Bool) (previous : Option Reason) (cs : Conditions)
      → IsDefined running
      → IsSafe (observe_ovn_deployment lib running previous cs)
  unfolding observe_ovn_deployment
  observe-IsSafe (ok true) previous cs valued = stops
  observe-IsSafe (ok false) previous cs valued = IsSafe-if _ goes_on stops
  observe-IsSafe (err e) previous cs erred = stops
  observe-IsSafe panic previous cs h = elim h [ ]

  checks-IsSafe :
      (images_match unchanged running : Outcome Bool) (previous : Option Reason) (cs : Conditions)
      → IsDefined images_match
      → IsDefined unchanged
      → IsDefined running
      → IsSafe (ovn_dataplane_checks lib images_match unchanged running previous cs)
  unfolding ovn_dataplane_checks
  checks-IsSafe (ok true) (ok unchanged) running previous cs valued valued k =
      IsSafe-if unchanged (observe-IsSafe running previous cs k) goes_on
  checks-IsSafe (ok true) (err e) running previous cs valued erred k = stops
  checks-IsSafe (ok true) panic running previous cs valued u k = elim u [ ]
  checks-IsSafe (ok false) unchanged running previous cs valued u k = stops
  checks-IsSafe (err e) unchanged running previous cs erred u k = stops
  checks-IsSafe panic unchanged running previous cs h u k = elim h [ ]

  unchanged-IsDefined :
      (deployed : String) (version : OpenStackVersion Conditions)
      → HasNoNil version.container_image_version_defaults
      → IsDefined (ovn_image_unchanged lib deployed version)
  unfolding ovn_image_unchanged
  unchanged-IsDefined deployed version known =
      look (lookup deployed version.container_image_version_defaults) (known deployed)
    where
      look :
          (o : Option (Option ContainerDefaults))
          → o ≢ some none
          → IsDefined (elim o [
            | none ↦ ok false
            | some defaults ↦ elim defaults [
              | none ↦ panic
              | some d ↦ ok (
                  same_image
                    (d.template ovn_controller_image)
                    (version.container_images.template ovn_controller_image))
            ]
          ])
      look none h = valued
      look (some none) h = absurd (h refl)
      look (some (some d)) h = valued

  module _ (cp : ControlPlane Conditions) (version : OpenStackVersion Conditions) where
    workload_stage-IsSafe :
        (t ready_type : String) (images_match : Bool) (cs : Conditions)
        → IsSafe (workload_stage lib t ready_type images_match cp cs)
    unfolding workload_stage
    workload_stage-IsSafe t ready_type images_match cs = IsSafe-if _ stops goes_on

    ovn_controlplane_stage-IsSafe :
        (cs : Conditions) → IsSafe (ovn_controlplane_stage lib cp version cs)
    unfolding ovn_controlplane_stage
    ovn_controlplane_stage-IsSafe cs =
        IsSafe-if (cp.enabled ovn) (IsSafe-if _ stops goes_on) goes_on

    controlplane_stage-IsSafe : (cs : Conditions) → IsSafe (controlplane_stage lib cp version cs)
    unfolding controlplane_stage
    controlplane_stage-IsSafe cs =
        IsSafe-if (not (is_ready lib cp)) stops
          (IsSafe-if (not (controlplane_container_image_match cp version).0) stops goes_on)

    dataplane_stage-IsSafe :
        (nodesets : List NodeSet) (cs : Conditions)
        → IsSafe (dataplane_stage lib version nodesets cs)
    unfolding dataplane_stage
    dataplane_stage-IsSafe nodesets cs =
        IsSafe-if (not (dataplane_nodesets_deployed version.target_version nodesets)) stops goes_on

    ovn_dataplane_stage-IsSafe :
        (image deployed : String) (nodesets : List NodeSet) (running : Outcome Bool)
        (previous : Option Reason) (cs : Conditions)
        → version.container_images.template ovn_controller_image ≡ some image
        → HasNoNil version.container_image_version_defaults
        → IsDefined running
        → IsSafe (ovn_dataplane_stage lib cp version deployed nodesets running previous cs)
    unfolding ovn_dataplane_stage
    ovn_dataplane_stage-IsSafe image deployed nodesets running previous cs has_image known h =
        let images =
          subst (λ x. IsDefined (dataplane_nodesets_ovn_controller_images_match x nodesets))
            (sym has_image) (images_match-IsDefined image nodesets) in
        IsSafe->>=
          (IsSafe-if (cp.enabled ovn)
            (checks-IsSafe _ _ running previous cs images
              (unchanged-IsDefined deployed version known) h)
            goes_on)
          (λ s. goes_on)

    pub minor_update-IsSafe :
        (image deployed : String) (nodesets : List NodeSet) (running : Outcome Bool)
        (previous : Option Reason) (cs : Conditions)
        → version.container_images.template ovn_controller_image ≡ some image
        → HasNoNil version.container_image_version_defaults
        → IsDefined running
        → IsSafe (minor_update lib cp version deployed nodesets running previous cs)
    unfolding minor_update
    minor_update-IsSafe image deployed nodesets running previous cs has_image known h =
        IsSafe->>= (ovn_controlplane_stage-IsSafe cs) (λ cs.
          IsSafe->>=
            (ovn_dataplane_stage-IsSafe image deployed nodesets running previous cs has_image known
              h)
            (λ cs. IsSafe->>= (workload_stage-IsSafe _ _ _ cs) (λ cs.
              IsSafe->>= (workload_stage-IsSafe _ _ _ cs) (λ cs.
                IsSafe->>= (workload_stage-IsSafe _ _ _ cs) (λ cs.
                  IsSafe->>= (workload_stage-IsSafe _ _ _ cs) (λ cs.
                    IsSafe->>= (controlplane_stage-IsSafe cs)
                      (dataplane_stage-IsSafe nodesets)))))))
