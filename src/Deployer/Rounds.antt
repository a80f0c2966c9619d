-- ===== src/Deployer/Rounds.antt =====
-- The loop of `Deploy` over the services of a nodeset (internal/dataplane/deployment.go).
use openstack_operator.Prelude.{
  not, String, List, [], ◌∷◌, ◌==◌, if◌then◌else◌, Outcome, ok, err, panic, Fetch, found, not_found,
  failed,
}
use openstack_operator.Prelude.Control.{Flow, next, ◌>>=◌}
use openstack_operator.Services.{not_found_error}
use openstack_operator.Conditions.{ConditionLib}
use openstack_operator.Deployer.{
  DataPlaneService, Api, Progress, runner_image_for, give_up, run_service,
}

module _ (lib : ConditionLib) {Mounts Summary : Type 0} where
  open lib use {Conditions}

  -- addCertMounts, or addCACertMount, after addServiceExtraMounts
  unfoldable pub add_certs :
      Api Mounts Summary → List String → DataPlaneService → Outcome Mounts → Outcome Mounts
  add_certs api services found_service (ok mounts) =
      if found_service.add_cert_mounts
      then api.add_cert_mounts services mounts
      else if not (found_service.ca_certs == "")
      then api.add_ca_cert_mount found_service mounts
      else ok mounts
  add_certs api services found_service (err e) = err e
  add_certs api services found_service panic = panic

  -- A round of the loop: `base` is the copy of the original mounts.
  unfoldable pub deploy_round :
      Api Mounts Summary
      → List String
      → Mounts
      → String
      → Progress Conditions Mounts Summary
      → Fetch DataPlaneService
      → Flow (Progress Conditions Mounts Summary)
  unfolding run_service add_certs runner_image_for give_up
  deploy_round api services base name p (found found_service) =
      run_service lib api (api.ready_type name) found_service
        (record p {
          runner_image = runner_image_for api.ansibleee_image found_service p.runner_image;
        })
        (add_certs api services found_service (api.add_service_extra_mounts found_service base))
  deploy_round api services base name p not_found =
      give_up lib api (api.ready_type name) not_found_error p
  deploy_round api services base name p (failed e) = give_up lib api (api.ready_type name) e p

  -- The loop over the services that are left.
  unfoldable pub deploy_loop :
      Api Mounts Summary
      → List String
      → Mounts
      → List String
      → Progress Conditions Mounts Summary
      → Flow (Progress Conditions Mounts Summary)
  unfolding deploy_round
  deploy_loop api services base [] p = next p
  deploy_loop api services base (name ∷ names) p =
      deploy_round api services base name p (api.service name)
      >>= deploy_loop api services base names

  -- `return nil, nil` of the code is `next` here.
  unfoldable pub deploy :
      Api Mounts Summary
      → List String
      → Progress Conditions Mounts Summary
      → Flow (Progress Conditions Mounts Summary)
  unfolding deploy_loop
  deploy api services p = deploy_loop api services p.extra_mounts services p
