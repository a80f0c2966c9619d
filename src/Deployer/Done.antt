-- ===== src/Deployer/Done.antt =====
-- When `Deploy` of internal/dataplane/deployment.go reports that a nodeset is done.
use openstack_operator.Prelude.{
  String, some, List, [], ◌∷◌, ◌≡◌, inl, inr, refl, subst, arith, All, Bool-cases, Outcome, ok, err,
  panic, Fetch, found, not_found, failed,
}
use openstack_operator.Prelude.Control.{Flow, next, Everywhere, >>=-eq-next}
use openstack_operator.Conditions.{is_true, ConditionLib, has_true}
use openstack_operator.Deployer.{
  DataPlaneService, Api, Progress, conditional_deploy, give_up, proceed, run_service,
}
use openstack_operator.Deployer.Rounds.{deploy_round, deploy_loop, deploy}
use openstack_operator.Deployer.Backed.{IsBacked, already, Sound, deploy_round-Sound}

module _ (lib : ConditionLib) {Mounts Summary : Type 0} (api : Api Mounts Summary)
    (from : lib.Conditions) where
  open lib use {Conditions, status}

  module _ (ready : String) (found_service : DataPlaneService) where
    proceed-next :
        (p : Progress Conditions Mounts Summary) {q : Progress Conditions Mounts Summary}
        → proceed lib api ready found_service p ≡ next q
        → status ready q.conditions ≡ some is_true
    unfolding proceed
    proceed-next p {q} h = elim (Bool-cases (has_true (status ready p.conditions))) [
      | inl e ↦ ground arith
      | inr e ↦ ground arith
    ]

    run_service-next :
        (p : Progress Conditions Mounts Summary) (mounts : Outcome Mounts)
        {q : Progress Conditions Mounts Summary}
        → run_service lib api ready found_service p mounts ≡ next q
        → status ready q.conditions ≡ some is_true
    unfolding run_service give_up
    run_service-next p (ok mounts) h =
        let (s, first, rest) =
          >>=-eq-next
            (conditional_deploy lib api ready found_service (record p { extra_mounts = mounts }))
            (proceed lib api ready found_service) h in
        proceed-next s rest
    run_service-next p (err e) h = absurd (cc h)
    run_service-next p panic h = absurd (cc h)

  Everywhere-next :
      (m : Flow (Progress Conditions Mounts Summary)) {q : Progress Conditions Mounts Summary}
      → m ≡ next q
      → Everywhere (Sound lib api from) m
      → Sound lib api from q
  Everywhere-next m e h = subst (Everywhere (Sound lib api from)) e h

  module _ (services : List String) (base : Mounts) where
    deploy_round-next :
        (name : String) (p : Progress Conditions Mounts Summary) (fetched : Fetch DataPlaneService)
        {q : Progress Conditions Mounts Summary}
        → deploy_round lib api services base name p fetched ≡ next q
        → status (api.ready_type name) q.conditions ≡ some is_true
    unfolding deploy_round give_up
    deploy_round-next name p (found service) h = run_service-next _ service _ _ h
    deploy_round-next name p not_found h = absurd (cc h)
    deploy_round-next name p (failed e) h = absurd (cc h)

    deploy_loop-next :
        (names : List String) (p : Progress Conditions Mounts Summary)
        {q : Progress Conditions Mounts Summary}
        → Sound lib api from p
        → deploy_loop lib api services base names p ≡ next q
        → All (λ name. IsBacked lib api from (api.ready_type name)) names
    unfolding deploy_loop
    deploy_loop-next [] p hp h = tt
    deploy_loop-next (name ∷ names) p hp h =
        let (s, first, rest) = >>=-eq-next _ _ h in
        let sound =
          Everywhere-next _ first
            (deploy_round-Sound lib api from services base name p _ refl hp) in
        (
          sound (api.ready_type name) (deploy_round-next name p _ first),
          deploy_loop-next names s sound rest,
        )

  -- `Deploy` reports that the nodeset is done only if, for each of its services, the ready condition
  -- was True before or a service with that ready condition has a job that succeeded.
  pub deploy-next :
      (services : List String) (p : Progress Conditions Mounts Summary)
      {q : Progress Conditions Mounts Summary}
      → p.conditions ≡ from
      → deploy lib api services p ≡ next q
      → All (λ name. IsBacked lib api from (api.ready_type name)) services
  unfolding deploy
  deploy-next services p e h =
      deploy_loop-next services p.extra_mounts services p
        (λ t up. already (subst (λ cs. status t cs ≡ some is_true) e up)) h
