-- ===== src/DeploymentController/Finished.antt =====
-- The end of `Reconcile` of internal/controller/dataplane/openstackdataplanedeployment_controller.go,
-- from the loop over the nodesets on, where it sets `Deployed`.
use openstack_operator.Prelude.{
  true, false, String, Option, none, some, List, [], ◌∷◌, ◌≡◌, inl, inr, refl, sym, ◌∙◌, ap, ◌==◌,
  is_empty, arith, All, Bool-cases, Error,
}
use openstack_operator.Prelude.Control.{Flow, next, return, panicked, Everywhere}
use openstack_operator.Conditions.{ConditionLib}
use openstack_operator.Version.{OpenStackVersion}
use openstack_operator.DeploymentController.{DataPlaneDeployment}
use openstack_operator.DeploymentController.Reconciling.{
  hash_node_sets, set_hashes, report_errors, mark_deployed, conclude, finish, run,
}
use openstack_operator.DeploymentController.Inputs.{
  Target, DeploymentStatus, Cluster, node_set_deployment_ready,
}
use openstack_operator.DeploymentController.Rounds.{Round, first_round}
use openstack_operator.DeploymentController.Vouched.{AreFounded, IsGood, deploy_node_sets-IsGood}
use openstack_operator.DeploymentController.Served.{AllServed, deploy_node_sets-quiet}

module _ (lib : ConditionLib) {Mounts Summary : Type 0}
    (cluster : Cluster lib.Conditions Mounts Summary)
    (deployment : DataPlaneDeployment lib.Conditions Summary)
    (distinct : (version : Option (OpenStackVersion lib.Conditions)) (target : Target Mounts)
        (name : String)
      → node_set_deployment_ready == (cluster.api version target).ready_type name ≡ false) where
  open lib use {Conditions, set}

  abbrev State : Type 0
  State = DeploymentStatus Conditions Summary

  -- The deployed version is the target of the version, where there is one.
  abbrev pub IsRecorded : Option (OpenStackVersion Conditions) → State → Type 0
  IsRecorded none s = Unit
  IsRecorded (some v) s = s.deployed_version ≡ v.target_version

  -- Whether or not there was an error
  both-version :
      (error : Option Error) (a b : State) {v : String}
      → a.deployed_version ≡ v
      → b.deployed_version ≡ v
      → (elim error as (λ x. State) [ none ↦ a | some e ↦ b ]).deployed_version ≡ v
  both-version none a b h k = h
  both-version (some e) a b h k = k

  hash_node_sets-version :
      (targets : List (Target Mounts)) (s : State)
      → (hash_node_sets lib cluster deployment targets s).deployed_version ≡ s.deployed_version
  unfolding hash_node_sets
  hash_node_sets-version [] s = refl
  hash_node_sets-version (target ∷ targets) s =
      both-version (cluster.ansible_vars_hashes target s.hashes).1 _ _
        (hash_node_sets-version targets _) refl

  set_hashes-version :
      (targets : List (Target Mounts)) (s : State)
      → (set_hashes lib cluster deployment targets s).deployed_version ≡ s.deployed_version
  unfolding set_hashes
  set_hashes-version targets s = both-version _ _ _ (hash_node_sets-version targets _) refl

  conclude-Deployed :
      (version : Option (OpenStackVersion Conditions)) (targets : List (Target Mounts))
      (r : Round Conditions Summary) {s : State} {e : Option Error}
      → r.status.deployed ≡ false
      → conclude lib cluster deployment version targets r ≡ return s e
      → s.deployed ≡ true
      → (e ≡ none)
        × (r.should_requeue ≡ false)
        × (set_hashes lib cluster deployment targets
              (mark_deployed lib cluster deployment version r.status)
            ≡ s)
  unfolding conclude report_errors
  conclude-Deployed version targets r down h up = elim (Bool-cases (is_empty r.errors)) [
    | inl fine ↦ elim (Bool-cases r.should_requeue) [
      | inl again ↦ absurd (ground arith)
      | inr quiet ↦ (ground arith, quiet, ground arith)
    ]
    | inr errors ↦ elim (Bool-cases r.backoff_limit_reached) [
      | inl limit ↦ absurd (ground arith)
      | inr other ↦ absurd (ground arith)
    ]
  ]

  -- A status from which the loop over the nodesets may start.
  abbrev pub IsFresh : State → Type 0
  IsFresh s =
      ((version : Option (OpenStackVersion Conditions)) → AreFounded lib cluster version s)
      × (s.deployed ≡ false)

  IsRecorded-mark :
      (version : Option (OpenStackVersion Conditions)) (targets : List (Target Mounts))
      (before : State) {s : State}
      → set_hashes lib cluster deployment targets
          (mark_deployed lib cluster deployment version before)
        ≡ s
      → IsRecorded version s
  unfolding mark_deployed
  IsRecorded-mark none targets before h = tt
  IsRecorded-mark (some v) targets before h =
      sym (ap (λ s. s.deployed_version) h) ∙ set_hashes-version targets _

  finish-Deployed :
      (version : Option (OpenStackVersion Conditions)) (targets : List (Target Mounts))
      (m : Flow (Round Conditions Summary)) {s : State} {e : Option Error}
      → Everywhere (IsGood lib cluster version) m
      → finish lib cluster deployment version targets m ≡ return s e
      → s.deployed ≡ true
      → (r : Round Conditions Summary) × (m ≡ next r)
        × (e ≡ none)
        × (r.should_requeue ≡ false)
        × IsRecorded version s
  finish-Deployed version targets (next r) good h up =
      let (fine, quiet, marked) = conclude-Deployed version targets r good.1 h up in
      (r, refl, fine, quiet, IsRecorded-mark version targets r.status marked)
  finish-Deployed version targets (return r e) good h up = absurd (cc (good.1, h, up))
  finish-Deployed version targets panicked good h up = absurd (cc h)

  pub run-Deployed :
      (targets : List (Target Mounts)) (service_map : List (String × List String))
      (version : Option (OpenStackVersion Conditions)) (before : State) {s : State}
      {e : Option Error}
      → IsFresh before
      → run lib cluster deployment targets service_map version before ≡ return s e
      → s.deployed ≡ true
      → (e ≡ none)
        × All (AllServed lib cluster version service_map (distinct version)) targets
        × IsRecorded version s
  unfolding run
  run-Deployed targets service_map version before fresh h up =
      let good : IsGood lib cluster version (first_round before) = (fresh.0 version, fresh.1) in
      let (r, passed, fine, quiet, recorded) =
        finish-Deployed version targets _
          (deploy_node_sets-IsGood lib cluster version service_map (distinct version) targets
            (first_round before) good)
          h up in
      (
        fine,
        (deploy_node_sets-quiet lib cluster version service_map (distinct version) targets
            (first_round before) good passed quiet).0,
        recorded,
      )
