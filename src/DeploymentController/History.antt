-- ===== src/DeploymentController/History.antt =====
-- A deployment over any number of reconciles
-- (internal/controller/dataplane/openstackdataplanedeployment_controller.go).
use openstack_operator.Prelude.{
  true, false, ℕ, String, Option, none, some, List, ◌≡◌, refl, sym, ◌∙◌, ap, ◌==◌, is_empty,
  Bool-cases, inl, inr, Fetch, found, not_found, failed, Error,
}
use openstack_operator.Prelude.Control.{Flow, next, return, panicked, ◌>>=◌}
use openstack_operator.Conditions.{true_condition, ConditionLib}
use openstack_operator.Version.{OpenStackVersion}
use openstack_operator.Services.{dedupe_services}
use openstack_operator.DeploymentController.{
  DataPlaneDeployment, get_version, map_or_nil, service_only,
}
use openstack_operator.DeploymentController.Reconciling.{
  is_settled, report_errors, conclude, finish, run, with_version, with_services, start,
  with_targets, initial, reconcile_found, deferred, patched, reconcile, node_sets_of,
}
use openstack_operator.DeploymentController.Inputs.{
  Target, DeploymentStatus, Cluster, input_ready, node_set_deployment_ready, list_node_sets,
  check_inputs,
}
use openstack_operator.DeploymentController.Rounds.{Round}
use openstack_operator.DeploymentController.Complete.{IsComplete, reconcile_found-IsComplete}
use openstack_operator.DeploymentController.Settled.{deferred-deployed}

-- A handler that does not fall off its end.
abbrev Ends : {S : Type 0} → Flow S → Type 0
Ends (next s) = ⊥
Ends (return s e) = Unit
Ends panicked = Unit

Ends->>= : {S : Type 0} (m : Flow S) (f : S → Flow S) → ((s : S) → Ends (f s)) → Ends (m >>= f)
Ends->>= (next s) f h = h s
Ends->>= (return s e) f h = tt
Ends->>= panicked f h = tt

module _ (lib : ConditionLib) {Mounts Summary : Type 0} where
  open lib use {Conditions}

  module _ (cluster : Cluster Conditions Mounts Summary)
      (deployment : DataPlaneDeployment Conditions Summary) where
    report_errors-Ends :
        (r : Round Conditions Summary) → Ends (report_errors lib cluster deployment r)
    unfolding report_errors
    report_errors-Ends r = elim (Bool-cases r.backoff_limit_reached) [
      | inl limit ↦ rw (limit) tt
      | inr other ↦ rw (other) tt
    ]

    conclude-Ends :
        (version : Option (OpenStackVersion Conditions)) (targets : List (Target Mounts))
        (r : Round Conditions Summary)
        → Ends (conclude lib cluster deployment version targets r)
    unfolding conclude
    conclude-Ends version targets r = elim (Bool-cases (is_empty r.errors)) [
      | inl fine ↦ elim (Bool-cases r.should_requeue) [
        | inl again ↦ rw (fine) (rw (again) tt)
        | inr quiet ↦ rw (fine) (rw (quiet) tt)
      ]
      | inr errors ↦ rw (errors) (report_errors-Ends r)
    ]

    finish-Ends :
        (version : Option (OpenStackVersion Conditions)) (targets : List (Target Mounts))
        (m : Flow (Round Conditions Summary))
        → Ends (finish lib cluster deployment version targets m)
    finish-Ends version targets (next r) = conclude-Ends version targets r
    finish-Ends version targets (return r e) = tt
    finish-Ends version targets panicked = tt

    with_version-Ends :
        (targets : List (Target Mounts)) (service_map : List (String × List String))
        (fetched : Fetch (OpenStackVersion Conditions)) (s : DeploymentStatus Conditions Summary)
        → Ends (with_version lib cluster deployment targets service_map fetched s)
    unfolding with_version run
    with_version-Ends targets service_map (found v) s = finish-Ends (some v) targets _
    with_version-Ends targets service_map not_found s = finish-Ends none targets _
    with_version-Ends targets service_map (failed e) s = tt

    with_services-Ends :
        (targets : List (Target Mounts))
        (result : Option (List (String × List String)) × Option Error)
        (s : DeploymentStatus Conditions Summary)
        → Ends (with_services lib cluster deployment targets result s)
    unfolding with_services
    with_services-Ends targets (service_map, some e) s = tt
    with_services-Ends targets (service_map, none) s =
        with_version-Ends targets (map_or_nil service_map) (get_version cluster.versions) s

    start-Ends :
        (targets : List (Target Mounts)) (s : DeploymentStatus Conditions Summary)
        → Ends (start lib cluster deployment targets s)
    unfolding start
    start-Ends targets s =
        with_services-Ends targets
          (dedupe_services (λ name. service_only (cluster.service name)) (node_sets_of targets)
            deployment.services_override)
          (record s { conditions = lib.set (true_condition input_ready) s.conditions })

    with_targets-Ends :
        (listing : DeploymentStatus Conditions Summary × Fetch (List (Target Mounts)))
        → Ends (with_targets lib cluster deployment listing)
    unfolding with_targets
    with_targets-Ends (s, found targets) =
        Ends->>= (check_inputs lib cluster deployment.services_override targets s)
          (start lib cluster deployment targets) (start-Ends targets)
    with_targets-Ends (s, not_found) = tt
    with_targets-Ends (s, failed e) = tt

    pub reconcile_found-Ends : Ends (reconcile_found lib cluster deployment)
    unfolding reconcile_found
    reconcile_found-Ends =
        with_targets-Ends
          (list_node_sets lib cluster deployment.node_sets (initial lib cluster deployment))

  -- The answers of the API server change from one reconcile to the next.
  module _ (cluster : ℕ → Cluster Conditions Mounts Summary)
      (distinct : (time : ℕ) (version : Option (OpenStackVersion Conditions))
          (target : Target Mounts) (name : String)
        → node_set_deployment_ready == ((cluster time).api version target).ready_type name
          ≡ false) where
    -- What can be stored of a deployment: what it is created with, and what a reconcile of it leaves,
    -- where the patch succeeds. The specification may change in between.
    pub data History : DeploymentStatus Conditions Summary → Type 0 where
      created : (s : DeploymentStatus Conditions Summary) → s.deployed ≡ false → History s
      reconciled :
          (s s' : DeploymentStatus Conditions Summary)
          → History s
          → (time : ℕ) (deployment : DataPlaneDeployment Conditions Summary)
            (patch : DeploymentStatus Conditions Summary → Option Error) (e : Option Error)
          → deployment.status ≡ s
          → reconcile lib (cluster time) patch (found deployment) ≡ (none, some (return s' e))
          → patch s' ≡ none
          → History s'

    -- A reconcile has found its deployment complete, and this is what it has stored.
    pub record Completes (time : ℕ) (deployment : DataPlaneDeployment Conditions Summary)
        (s : DeploymentStatus Conditions Summary) : Type 0 where
      pub ended : DeploymentStatus Conditions Summary
      pub its_result : reconcile_found lib (cluster time) deployment ≡ return ended none
      pub complete : IsComplete lib (cluster time) deployment (distinct time) ended
      pub stored : s ≡ deferred lib ended

    patched-Completes :
        (time : ℕ) (deployment : DataPlaneDeployment Conditions Summary)
        (patch : DeploymentStatus Conditions Summary → Option Error)
        (m : Flow (DeploymentStatus Conditions Summary)) {s : DeploymentStatus Conditions Summary}
        {e : Option Error}
        → reconcile_found lib (cluster time) deployment ≡ m
        → Ends m
        → patched lib patch m ≡ return s e
        → s.deployed ≡ true
        → Completes time deployment s
    unfolding patched
    patched-Completes time deployment patch (next t) at ends h up = elim ends [ ]
    patched-Completes time deployment patch (return t error) {s} at ends h up =
        let same : deferred lib t ≡ s = cc (h) in
        let deployed : t.deployed ≡ true =
          sym (deferred-deployed lib t) ∙ ap (λ x. x.deployed) same ∙ up in
        let (fine, complete) =
          reconcile_found-IsComplete lib (cluster time) deployment (distinct time) at deployed in
        record {
          ended = t;
          its_result = at ∙ ap (return t) fine;
          complete = complete;
          stored = sym same;
        }
    patched-Completes time deployment patch panicked at ends h up = absurd (cc h)

    -- What was stored at each step of a history had `Deployed` unset.
    abbrev pub AllUndeployed : {s : DeploymentStatus Conditions Summary} → History s → Type 0
    AllUndeployed (created s fresh) = s.deployed ≡ false
    AllUndeployed (reconciled s s' before time deployment patch e same h stored) =
        (s'.deployed ≡ false) × AllUndeployed before

    -- The last reconcile of a history is the one that has completed the deployment.
    abbrev pub WasCompleted : {s : DeploymentStatus Conditions Summary} → History s → Type 0
    WasCompleted (created s fresh) = ⊥
    WasCompleted (reconciled s s' before time deployment patch e same h stored) =
        Completes time deployment s' × AllUndeployed before

    -- What a reconcile has written to was not deployed yet.
    reconcile-undeployed :
        (time : ℕ) (deployment : DataPlaneDeployment Conditions Summary)
        (patch : DeploymentStatus Conditions Summary → Option Error)
        (m : Flow (DeploymentStatus Conditions Summary))
        → reconcile lib (cluster time) patch (found deployment) ≡ (none, some m)
        → deployment.status.deployed ≡ false
    unfolding reconcile is_settled
    reconcile-undeployed time deployment patch m h = elim (Bool-cases deployment.status.deployed) [
      | inl up ↦ absurd (cc (rw (up) at h))
      | inr down ↦ down
    ]

    undeployed :
        (s : DeploymentStatus Conditions Summary)
        → s.deployed ≡ false
        → (h : History s) → AllUndeployed h
    undeployed s down (created _ fresh) = fresh
    undeployed s' down (reconciled s _ before time deployment patch e same h stored) = (
      down,
      undeployed s
          (sym (ap (λ x. x.deployed) same) ∙ reconcile-undeployed time deployment patch _ h) before,
    )

    -- However often a deployment is reconciled and whatever the API server answers in between, if
    -- `Deployed` is set in what is stored, then the last of its reconciles has ended without an
    -- error, has found the deployment complete, and has stored just that; and before it, `Deployed`
    -- was never set. No ready condition of a service may be called NodeSetDeploymentReady.
    pub History-WasCompleted :
        (s : DeploymentStatus Conditions Summary) (history : History s)
        → s.deployed ≡ true
        → WasCompleted history
    unfolding reconcile
    History-WasCompleted s (created _ fresh) up = absurd (cc (fresh, up))
    History-WasCompleted s' (reconciled s _ before time deployment patch e same h stored) up =
        elim (Bool-cases (is_settled lib deployment.status)) [
          | inl settled ↦ absurd (cc (rw (settled, reconcile) at h))
          | inr unsettled ↦ (
            patched-Completes time deployment patch (reconcile_found lib (cluster time) deployment)
                {e = e} refl (reconcile_found-Ends (cluster time) deployment)
                (cc (rw (unsettled, reconcile) at h)) up,
            undeployed s
                (sym (ap (λ x. x.deployed) same) ∙ reconcile-undeployed time deployment patch _ h)
                before,
          )
        ]
