-- ===== src/DeploymentController/Served.antt =====
-- A pass of the loop over the nodesets that asks for no requeue
-- (internal/controller/dataplane/openstackdataplanedeployment_controller.go).
use openstack_operator.Prelude.{
  false, String, Option, none, some, List, [], ◌∷◌, ◌≡◌, refl, subst, ◌==◌, All, All-weaken, Error,
}
use openstack_operator.Prelude.Control.{Flow, next, return, panicked, Everywhere, >>=-eq-next}
use openstack_operator.Conditions.{Reason, ConditionLib}
use openstack_operator.Version.{OpenStackVersion}
use openstack_operator.Deployer.{Progress}
use openstack_operator.Deployer.Done.{deploy-next}
use openstack_operator.DeploymentController.Inputs.{
  Target, DeploymentStatus, Cluster, node_set_deployment_ready, node_set_entry,
}
use openstack_operator.DeploymentController.Rounds.{
  Round, services_for, mark_running, deployer_of, add_error, after_deploy, deploy_node_set,
  deploy_node_sets,
}
use openstack_operator.DeploymentController.Vouched.{
  IsServed, AreFounded, IsGood, outcome, IsBacked-IsServed, mark_running-AreFounded,
  deploy_node_set-IsGood,
}

module _ (lib : ConditionLib) {Mounts Summary : Type 0}
    (cluster : Cluster lib.Conditions Mounts Summary)
    (version : Option (OpenStackVersion lib.Conditions)) (service_map : List (String × List String))
    (distinct : (target : Target Mounts) (name : String)
      → node_set_deployment_ready == (cluster.api version target).ready_type name ≡ false) where
  open lib use {Conditions}

  -- Each service of a nodeset is served.
  abbrev pub AllServed : Target Mounts → Type 0
  AllServed target =
      All
        (λ name.
          IsServed lib cluster version target.node_set.name
            ((cluster.api version target).ready_type name))
        (services_for service_map target.node_set.name)

  add_error-quiet :
      (name : String) (e : Error) (reason : Option Reason) (r : Round Conditions Summary)
      (s : DeploymentStatus Conditions Summary) {A : Type 0} {r' : Round Conditions Summary}
      → add_error name e reason r s ≡ next r'
      → r'.should_requeue ≡ false
      → A
  unfolding add_error
  add_error-quiet name e none r s h quiet = absurd (cc h)
  add_error-quiet name e (some reason) r s h quiet = absurd (cc (h, quiet))

  after_deploy-quiet :
      (target : Target Mounts) (r : Round Conditions Summary)
      (m : Flow (Progress Conditions Mounts Summary)) {r' : Round Conditions Summary}
      → after_deploy lib target r m ≡ next r'
      → r'.should_requeue ≡ false
      → (p : Progress Conditions Mounts Summary) × (m ≡ next p) × (r.should_requeue ≡ false)
  unfolding after_deploy
  after_deploy-quiet target r (next p) h quiet = (p, refl, cc (h, quiet))
  after_deploy-quiet target r (return p none) h quiet = absurd (cc (h, quiet))
  after_deploy-quiet target r (return p (some e)) h quiet = add_error-quiet _ e _ r _ h quiet
  after_deploy-quiet target r panicked h quiet = absurd (cc h)

  deploy_node_set-quiet :
      (target : Target Mounts) (r : Round Conditions Summary) {r' : Round Conditions Summary}
      → AreFounded lib cluster version r.status
      → deploy_node_set lib cluster version service_map target r ≡ next r'
      → r'.should_requeue ≡ false
      → AllServed target × (r.should_requeue ≡ false)
  unfolding deploy_node_set deployer_of
  deploy_node_set-quiet target r founded h quiet =
      let s : DeploymentStatus Conditions Summary = mark_running lib r.status in
      let (p, passed, before) =
        after_deploy-quiet target (record r { status = s })
          (outcome lib cluster version service_map distinct target s) h quiet in
      (
        All-weaken _ _
            (λ name backed.
              IsBacked-IsServed lib cluster version target s
                ((cluster.api version target).ready_type name)
                (mark_running-AreFounded lib cluster version service_map distinct r.status founded)
                (distinct target name) backed)
            _
            (deploy-next lib (cluster.api version target)
              (node_set_entry lib target.node_set.name s)
              (services_for service_map target.node_set.name) (deployer_of lib target s) refl
              passed),
        before,
      )

  -- If no nodeset asks for a requeue, each service of each of them is served.
  pub deploy_node_sets-quiet :
      (targets : List (Target Mounts)) (r : Round Conditions Summary)
      {r' : Round Conditions Summary}
      → IsGood lib cluster version r
      → deploy_node_sets lib cluster version service_map targets r ≡ next r'
      → r'.should_requeue ≡ false
      → All AllServed targets × (r.should_requeue ≡ false)
  unfolding deploy_node_sets
  deploy_node_sets-quiet [] r good h quiet = (tt, cc (h, quiet))
  deploy_node_sets-quiet (target ∷ targets) r good h quiet =
      let (s, first, rest) = >>=-eq-next _ _ h in
      let good_after : IsGood lib cluster version s =
        subst (Everywhere (IsGood lib cluster version)) first
          (deploy_node_set-IsGood lib cluster version service_map distinct target r good) in
      let (others, middle) = deploy_node_sets-quiet targets s good_after rest quiet in
      let (here, before) = deploy_node_set-quiet target r good.0 first middle in
      ((here, others), before)
