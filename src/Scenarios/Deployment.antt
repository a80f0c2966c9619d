-- ===== src/Scenarios/Deployment.antt =====
-- A deployment of one service, bootstrap, on one nodeset, compute.
use openstack_operator.Prelude.{
  false, String, none, some, List, [], ◌∷◌, ◌≡◌, refl, ok, Fetch, found, failed, listed,
}
use openstack_operator.Prelude.Control.{Flow, next, return, panicked, Everywhere}
use openstack_operator.Conditions.{true_condition}
use openstack_operator.Deployer.{
  DataPlaneService, Job, Api, Progress, get_ansible_execution, conditional_deploy, record_images,
  runner_image_for,
}
use openstack_operator.Deployer.Rounds.{add_certs, deploy_round, deploy}
use openstack_operator.Deployer.Backed.{HasBacking, deploy-HasBacking}
use openstack_operator.Deployer.Errors.{Cause, conditional_deploy-Cause, conditional_deploy-lost}
use openstack_operator.Deployer.Passes.{deploy_round-passed_over}
use openstack_operator.Scenarios.Library.{Table, table_lib}

abbrev pub bootstrap_ready : String
bootstrap_ready = "ServiceBootstrapDeploymentReady"

abbrev pub bootstrap : DataPlaneService
bootstrap = record {
  service = record {
    name = "bootstrap";
    edpm_service_type = "bootstrap";
    deploy_on_all_node_sets = false;
  };
  runner_image = "";
  add_cert_mounts = false;
  ca_certs = "";
  container_image_fields = "EdpmFrrImage" ∷ [];
  tls_certs = none;
}

abbrev pub good_job : Job
good_job = record {
  name = "bootstrap-job";
  succeeded = 1;
  failures = 0;
  backoff_limit = some 6;
  conditions = ("Complete", "") ∷ [];
}

abbrev bad_job : Job
bad_job = record {
  name = "bootstrap-job";
  succeeded = 0;
  failures = 7;
  backoff_limit = some 6;
  conditions = ("Failed", "BackoffLimitExceeded") ∷ [];
}

abbrev pub api_with : Fetch DataPlaneService → List Job → Api String String
api_with service jobs = record {
  service = λ name. service;
  jobs = λ s. listed jobs;
  summary = λ job. found "all hosts ok";
  add_service_extra_mounts = λ s mounts. ok mounts;
  add_cert_mounts = λ names mounts. ok mounts;
  add_ca_cert_mount = λ s mounts. ok mounts;
  deploy_service = λ s image mounts. none;
  ansibleee_image = some "runner";
  image_field = none;
  ready_type = λ name. bootstrap_ready;
  job_error = λ job reason. "execution failed";
}

abbrev none_set : Table
none_set t = none

abbrev up_already : Table
up_already t = some (true_condition bootstrap_ready)

abbrev progress_with : Table → Progress Table String String
progress_with cs = record {
  conditions = cs;
  execution_summaries = [];
  container_images = [];
  runner_image = "";
  extra_mounts = "";
}

-- The state that a handler ends with.
abbrev pub state_of : {S : Type 0} → Flow S → S → S
state_of (next s) d = s
state_of (return s e) d = s
state_of panicked d = d

deploy-HasBacking_example :
    Everywhere
      (λ q. HasBacking table_lib (api_with (found bootstrap) (good_job ∷ [])) none_set q.conditions)
      (deploy table_lib
        (api_with (found bootstrap) (good_job ∷ []))
        ("bootstrap" ∷ [])
        (progress_with none_set))
deploy-HasBacking_example =
    deploy-HasBacking table_lib (api_with (found bootstrap) (good_job ∷ [])) none_set
      ("bootstrap" ∷ []) (progress_with none_set) refl

abbrev exhausted_api : Api String String
exhausted_api = api_with (found bootstrap) (bad_job ∷ [])

abbrev failed_progress : Progress Table String String
failed_progress =
    state_of
      (conditional_deploy table_lib exhausted_api bootstrap_ready bootstrap
        (progress_with none_set))
      (progress_with none_set)

exhausted-returns :
    conditional_deploy table_lib exhausted_api bootstrap_ready bootstrap (progress_with none_set)
    ≡ return failed_progress (some "execution failed")
unfolding conditional_deploy get_ansible_execution
exhausted-returns = refl

conditional_deploy-Cause_example :
    Cause table_lib exhausted_api bootstrap_ready bootstrap
      (progress_with none_set)
      failed_progress
      "execution failed"
conditional_deploy-Cause_example =
    conditional_deploy-Cause table_lib exhausted_api bootstrap_ready bootstrap
      (progress_with none_set) exhausted-returns

abbrev two_jobs_api : Api String String
two_jobs_api = api_with (found bootstrap) (bad_job ∷ good_job ∷ [])

two_jobs-lost :
    get_ansible_execution (two_jobs_api.jobs bootstrap)
    ≡ failed "multiple OpenStackAnsibleEE's found"
unfolding get_ansible_execution
two_jobs-lost = refl

conditional_deploy-lost_example :
    conditional_deploy table_lib two_jobs_api bootstrap_ready bootstrap (progress_with none_set)
    ≡ panicked
conditional_deploy-lost_example =
    conditional_deploy-lost table_lib two_jobs_api bootstrap_ready bootstrap
      (progress_with none_set) two_jobs-lost refl refl

abbrev good_api : Api String String
good_api = api_with (found bootstrap) (good_job ∷ [])

-- After the round of bootstrap.
abbrev bootstrapped : Progress Table String String
bootstrapped =
    state_of
      (deploy_round table_lib good_api ("bootstrap" ∷ []) "" "bootstrap" (progress_with none_set)
        (found bootstrap))
      (progress_with none_set)

bootstrap-round :
    deploy_round table_lib good_api
      ("bootstrap" ∷ [])
      ""
      "bootstrap"
      (progress_with none_set)
      (good_api.service "bootstrap")
    ≡ next bootstrapped
unfolding deploy_round
bootstrap-round = refl

-- A service called boot-strap has the same condition type.
deploy_round-passed_over_example :
    deploy_round table_lib good_api
      ("bootstrap" ∷ [])
      ""
      "boot-strap"
      bootstrapped
      (found bootstrap)
    ≡ next (record bootstrapped {
      runner_image = runner_image_for good_api.ansibleee_image bootstrap bootstrapped.runner_image;
      extra_mounts = "";
      container_images =
          record_images good_api.image_field bootstrap.container_image_fields
            bootstrapped.container_images;
    })
deploy_round-passed_over_example =
    deploy_round-passed_over table_lib good_api ("bootstrap" ∷ []) "" "bootstrap" "boot-strap"
      (progress_with none_set) bootstrapped bootstrap "" refl bootstrap-round
      (unfold add_certs in refl)
