-- ===== src/NodeSetController/Sources.antt =====
-- Which deployment the deployed version of a nodeset comes from: `checkDeployment` of
-- internal/controller/dataplane/openstackdataplanenodeset_controller.go.
use openstack_operator.Prelude.{
  Bool, true, false, if◌then◌else◌, String, Option, List, [], ◌∷◌, ◌≡◌, ◌⊎◌, inl, inr, refl, sym,
  ◌∙◌, ap, subst, Memᴰ, contains, Bool-cases, listed, Error,
}
use mathlib.Core.List.Memᴰ.{head, tail, cases_cons}
use openstack_operator.Conditions.{ConditionLib, has_true}
use openstack_operator.DeploymentController.Inputs.{node_set_deployment_ready}
use openstack_operator.NodeSetController.{
  TargetDeployment, Spec, NodeSetStatus, NodeSetCluster, Check, Step, go_on, stop, relevant,
  is_latest, record_statuses,
}
use openstack_operator.NodeSetController.Deployments.{
  conditions_of, check_other, check_round, resume, check_loop, first_check, with_deployments,
  check_deployment,
}
use openstack_operator.NodeSetController.Versions.{
  IsUpdate, version_after, Updates, check_ready-Updates,
}

module _ (lib : ConditionLib) {Summary : Type 0} (cluster : NodeSetCluster lib.Conditions Summary)
    (spec : Spec) where
  open lib use {Conditions, status}

  abbrev Updated : TargetDeployment Conditions Summary → String → String → Type 0
  Updated = Updates lib cluster spec

  -- Where a version comes from: it is the one before, or that of such a deployment.
  pub data Source (ds : List (TargetDeployment Conditions Summary)) (from v : String) : Type 0 where
    as_before : v ≡ from → Source ds from v
    taken :
        (d : TargetDeployment Conditions Summary)
        → Memᴰ d ds
        → IsUpdate lib cluster spec d
        → v ≡ d.deployed_version
        → Source ds from v

  check_other-Updated :
      (d : TargetDeployment Conditions Summary) (c : Check Conditions Summary)
      → Updated d c.status.deployed_version (
          version_after lib cluster spec
            (check_other lib cluster spec (conditions_of lib spec.name d) d c))
  unfolding check_other
  check_other-Updated d c =
      elim (Bool-cases
        (has_true (status node_set_deployment_ready (conditions_of lib spec.name d)))) [
          | inl up ↦ rw (up) (check_ready-Updates lib cluster spec d up _)
          | inr down ↦ rw (down) (inl refl)
        ]

  check_round-Updated :
      (latest : Bool) (d : TargetDeployment Conditions Summary) (c : Check Conditions Summary)
      → Updated d c.status.deployed_version
          (version_after lib cluster spec (check_round lib cluster spec latest d c))
  unfolding check_round record_statuses
  check_round-Updated latest d c =
      elim (Bool-cases (cluster.is_error (conditions_of lib spec.name d))) [
        | inl wrong ↦ elim (Bool-cases latest) [
          | inl last ↦ rw (wrong) (rw (last) (inl refl))
          | inr older ↦ rw (wrong) (rw (older) (inl refl))
        ]
        | inr fine ↦ rw (fine) (
            check_other-Updated d
              (record c { status = record_statuses (conditions_of lib spec.name d) d c.status }))
      ]

  -- A round, and what the deployments that are left make of it
  Source-cons :
      (d : TargetDeployment Conditions Summary) (ds : List (TargetDeployment Conditions Summary))
      {from middle v : String}
      → Updated d from middle
      → Source ds middle v
      → Source (d ∷ ds) from v
  Source-cons d ds first (taken x at update e) = taken x (tail at) update e
  Source-cons d ds (inl same) (as_before e) = as_before (e ∙ same)
  Source-cons d ds (inr (update, same)) (as_before e) = taken d (head refl) update (e ∙ same)

  resume-Source :
      (d : TargetDeployment Conditions Summary) (ds : List (TargetDeployment Conditions Summary))
      (step : Step Conditions Summary)
      (loop : Check Conditions Summary → Check Conditions Summary × Option Error) {from : String}
      → Updated d from (version_after lib cluster spec step)
      → ((c : Check Conditions Summary)
          → Source ds c.status.deployed_version (loop c).0.status.deployed_version)
      → Source (d ∷ ds) from (resume lib cluster spec step loop).0.status.deployed_version
  resume-Source d ds (go_on c) loop first others = Source-cons d ds first (others c)
  resume-Source d ds (stop c e) loop first others = Source-cons d ds first (as_before refl)

  check_loop-Source :
      (latest : String → Bool) (ds : List (TargetDeployment Conditions Summary))
      (c : Check Conditions Summary)
      → Source ds c.status.deployed_version
          (check_loop lib cluster spec latest ds c).0.status.deployed_version
  unfolding check_loop
  check_loop-Source latest [] c = as_before refl
  check_loop-Source latest (d ∷ ds) c =
      resume-Source d ds (check_round lib cluster spec (latest d.name) d c)
        (check_loop lib cluster spec latest ds) (check_round-Updated (latest d.name) d c)
        (check_loop-Source latest ds)

  -- A deployment of the nodeset
  pub record IsOf (d : TargetDeployment Conditions Summary)
      (ds : List (TargetDeployment Conditions Summary)) : Type 0 where
    pub listed_in : Memᴰ d ds
    pub kept : d.deleting ≡ false
    pub targets : contains d.node_sets spec.name ≡ true

  IsOf-cons :
      (x d : TargetDeployment Conditions Summary) (ds : List (TargetDeployment Conditions Summary))
      → IsOf d ds
      → IsOf d (x ∷ ds)
  IsOf-cons x d ds i = record { listed_in = tail i.listed_in; kept = i.kept; targets = i.targets }

  -- The two tests of a round of the filter.
  filtered-cases :
      (deleting targets : Bool) (x d : TargetDeployment Conditions Summary)
      (rest : List (TargetDeployment Conditions Summary))
      → Memᴰ d (if deleting then rest else if targets then x ∷ rest else rest)
      → Memᴰ d rest ⊎ ((d ≡ x) × (deleting ≡ false) × (targets ≡ true))
  filtered-cases true targets x d rest h = inl h
  filtered-cases false true x d rest h = elim (cases_cons h) [
    | inl same ↦ inr (same, refl, refl)
    | inr later ↦ inl later
  ]
  filtered-cases false false x d rest h = inl h

  IsOf-first :
      (x d : TargetDeployment Conditions Summary) (ds : List (TargetDeployment Conditions Summary))
      → (d ≡ x) × (x.deleting ≡ false) × (contains x.node_sets spec.name ≡ true)
      → IsOf d (x ∷ ds)
  IsOf-first x d ds (same, there, targeted) = record {
    listed_in = head same;
    kept = ap (λ y. y.deleting) same ∙ there;
    targets = ap (λ y. contains y.node_sets spec.name) same ∙ targeted;
  }

  relevant-IsOf :
      (ds : List (TargetDeployment Conditions Summary)) (d : TargetDeployment Conditions Summary)
      → Memᴰ d (relevant spec.name ds)
      → IsOf d ds
  unfolding relevant
  relevant-IsOf [] d h = elim h [ ]
  relevant-IsOf (x ∷ xs) d h =
      elim (filtered-cases x.deleting (contains x.node_sets spec.name) x d (relevant spec.name xs)
        h) [
          | inl later ↦ IsOf-cons x d xs (relevant-IsOf xs d later)
          | inr here ↦ IsOf-first x d xs here
        ]

  -- The sort returns no deployment that it was not given.
  abbrev Sorts : Type 0
  Sorts =
      (ds : List (TargetDeployment Conditions Summary)) (d : TargetDeployment Conditions Summary)
      → Memᴰ d (cluster.sort ds)
      → Memᴰ d ds

  -- What the version of a nodeset is after a check.
  abbrev Explained :
      NodeSetStatus Conditions Summary
      → List (TargetDeployment Conditions Summary)
      → String
      → Type 0
  Explained s deployments v =
      (v ≡ s.deployed_version)
      ⊎ ((d : TargetDeployment Conditions Summary) × IsOf d deployments
          × IsUpdate lib cluster spec d
          × (v ≡ d.deployed_version))

  explain :
      (s : NodeSetStatus Conditions Summary)
      (deployments : List (TargetDeployment Conditions Summary)) {v : String}
      → Sorts
      → Source (cluster.sort (relevant spec.name deployments)) s.deployed_version v
      → Explained s deployments v
  explain s deployments sorts (as_before e) = inl e
  explain s deployments sorts (taken d at update e) =
      inr (d, relevant-IsOf deployments d (sorts _ d at), update, e)

  -- Whether or not checkDeployment returns an error, the deployed version of the nodeset is as before,
  -- or it is that of a deployment that was listed, is not being deleted and targets the nodeset, is
  -- complete and up to date, and has run a service of the type update or update-services. The sort
  -- must return nothing but what it is given.
  pub check_deployment-DeployedVersion :
      (s : NodeSetStatus Conditions Summary)
      (deployments : List (TargetDeployment Conditions Summary))
      → cluster.deployments ≡ listed deployments
      → Sorts
      → ((check_deployment lib cluster spec s).0.status.deployed_version ≡ s.deployed_version)
        ⊎ ((d : TargetDeployment Conditions Summary) × IsOf d deployments
            × IsUpdate lib cluster spec d
            × ((check_deployment lib cluster spec s).0.status.deployed_version
                ≡ d.deployed_version))
  unfolding check_deployment with_deployments
  check_deployment-DeployedVersion s deployments answer sorts =
      let sorted = cluster.sort (relevant spec.name deployments) in
      subst
        (λ l.
          Explained s deployments (with_deployments lib cluster spec s l).0.status.deployed_version)
        (sym answer)
        (explain s deployments sorts
          (check_loop-Source (is_latest sorted) sorted (first_check lib cluster spec s)))
