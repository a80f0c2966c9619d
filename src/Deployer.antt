-- ===== src/Deployer.antt =====
-- internal/dataplane/deployment.go: what `Deploy` does for one service of a nodeset, by an Ansible job
-- that `ConditionalDeploy` starts and follows; the job is found by
-- `GetAnsibleExecution` of internal/dataplane/util/ansible_execution.go. Messages are left out, but
-- for the texts of errors.
pub mod Rounds
pub mod Backed
pub mod Done
pub mod Errors
pub mod Passes
use openstack_operator.Prelude.{
  Bool, not, ℕ, String, Option, none, some, List, [], ◌∷◌, ◌==◌, if◌then◌else◌, ltb, insert,
  Outcome, ok, err, panic, Fetch, found, not_found, failed, Listing, listed, list_failed, Error,
}
use openstack_operator.Prelude.Control.{Flow, next, return, panicked, ◌>>=◌}
use openstack_operator.Conditions.{
  true_condition, false_condition, Reason, job_reason, requested_reason, error_reason,
  severity_info, severity_error, ConditionLib, has_true, has_false, has_unknown,
}
use openstack_operator.Nodesets.{Service}

-- OpenStackDataPlaneService, as far as a deployment reads it
pub record DataPlaneService : Type 0 where
  pub service : Service
  pub runner_image : String  -- OpenStackAnsibleEERunnerImage
  pub add_cert_mounts : Bool
  pub ca_certs : String
  pub container_image_fields : List String
  pub tls_certs : Option (List String)  -- the keys of the map, in one order

-- batchv1.Job, as far as it is read here; the API server lets no count be negative. A condition is
-- its type and its reason.
pub record Job : Type 0 where
  pub name : String
  pub succeeded : ℕ
  pub failures : ℕ  -- Status.Failed
  pub backoff_limit : Option ℕ
  pub conditions : List (String × String)

-- What is called for one nodeset: the API server, the functions of internal/dataplane that make
-- resources from what it answers, and the libraries that build texts.
pub record Api (Mounts Summary : Type 0) : Type 0 where
  pub service : String → Fetch DataPlaneService  -- GetService
  pub jobs : DataPlaneService → Listing (List Job)  -- List, by the labels of the execution
  pub summary : Job → Fetch Summary  -- GetAnsibleExecutionSummary: a nil summary is not_found
  pub add_service_extra_mounts : DataPlaneService → Mounts → Outcome Mounts
  pub add_cert_mounts : List String → Mounts → Outcome Mounts
  pub add_ca_cert_mount : DataPlaneService → Mounts → Outcome Mounts
  pub deploy_service : DataPlaneService → String → Mounts → Option Error  -- runner image, mounts
  pub ansibleee_image : Option String  -- GetContainerImages(version).AnsibleeeImage
  pub image_field : Option (String → String)  -- a field of the version's images; none: no version
  pub ready_type : String → String  -- "Service%sDeploymentReady", with strcase.ToCamel
  pub job_error : Job → Reason → Error  -- errorMsg

abbrev multiple_executions : Error
multiple_executions = "multiple OpenStackAnsibleEE's found"

-- From the answer of List on. No call of List answers that its kind of object does not exist.
unfoldable pub get_ansible_execution : Listing (List Job) → Fetch Job
get_ansible_execution (list_failed e) = failed e
get_ansible_execution (listed []) = not_found
get_ansible_execution (listed (job ∷ [])) = found job
get_ansible_execution (listed (job ∷ other ∷ jobs)) = failed multiple_executions

-- The reason of the last condition of the type `batchv1.JobFailed`, if any.
unfoldable pub failed_reason : String → List (String × String) → String
failed_reason reason [] = reason
failed_reason reason ((type, its_reason) ∷ conditions) =
    failed_reason (if type == "Failed" then its_reason else reason) conditions

-- What `Deploy` changes: the nodeset's entry of Status.NodeSetConditions, two maps of the status,
-- and the fields of AeeSpec that go from service to service.
pub record Progress (Conditions Mounts Summary : Type 0) : Type 0 where
  pub conditions : Conditions
  pub execution_summaries : List (String × Summary)
  pub container_images : List (String × String)
  pub runner_image : String
  pub extra_mounts : Mounts

-- OpenStackAnsibleEERunnerImage: the service's, or the version's, or the one that is there
unfoldable pub runner_image_for : Option String → DataPlaneService → String → String
runner_image_for image found_service current =
    if not (found_service.runner_image == "")
    then found_service.runner_image
    else elim image [ none ↦ current | some i ↦ i ]

-- The images of the version that the service uses are recorded.
unfoldable pub record_images :
    Option (String → String) → List String → List (String × String) → List (String × String)
unfolding insert
record_images none fields images = images
record_images (some image_of) [] images = images
record_images (some image_of) (field ∷ fields) images =
    record_images (some image_of) fields (insert field (image_of field) images)

module _ (lib : ConditionLib) {Mounts Summary : Type 0} where
  open lib use {Conditions, set, status, kept}

  abbrev pub with_conditions :
      Progress Conditions Mounts Summary → Conditions → Progress Conditions Mounts Summary
  with_conditions p cs = record p { conditions = cs }

  -- An error of the fetch is only logged.
  unfoldable pub store_execution_summary :
      Fetch Summary → Job → Progress Conditions Mounts Summary → Progress Conditions Mounts Summary
  unfolding insert
  store_execution_summary (found summary) job p = record p {
    execution_summaries = insert job.name summary p.execution_summaries;
  }
  store_execution_summary not_found job p = p
  store_execution_summary (failed e) job p = p

  module _ (api : Api Mounts Summary) (ready : String) where
    -- The job ran out of retries: `return err`, with the condition stored.
    unfoldable pub fail_job :
        Conditions
        → Job
        → Progress Conditions Mounts Summary
        → Flow (Progress Conditions Mounts Summary)
    unfolding store_execution_summary failed_reason
    fail_job cs job p =
        let reason = job_reason (failed_reason "" job.conditions) in
        return
          (with_conditions (store_execution_summary (api.summary job) job p)
            (set (false_condition ready reason severity_error) cs))
          (some (api.job_error job reason))

    -- `if ansibleJob.Status.Failed > *ansibleJob.Spec.BackoffLimit`
    unfoldable pub judge_failures :
        Conditions
        → Job
        → Progress Conditions Mounts Summary
        → Option ℕ
        → Flow (Progress Conditions Mounts Summary)
    unfolding fail_job
    judge_failures cs job p none = panicked
    judge_failures cs job p (some limit) =
        if ltb limit job.failures
        then fail_job cs job p
        else next
            (with_conditions p (set (false_condition ready requested_reason severity_info) cs))

    unfoldable pub judge_job :
        Conditions
        → Job
        → Progress Conditions Mounts Summary
        → Flow (Progress Conditions Mounts Summary)
    unfolding judge_failures store_execution_summary
    judge_job cs job p =
        if ltb 0 job.succeeded
        then next (
            with_conditions (store_execution_summary (api.summary job) job p)
              (set (true_condition ready) cs))
        else judge_failures cs job p job.backoff_limit

    -- Where there is no job yet, the conditions are not stored; after another error, the code reads
    -- the status of a nil job.
    unfoldable pub check_job :
        Conditions
        → Progress Conditions Mounts Summary
        → Fetch Job
        → Flow (Progress Conditions Mounts Summary)
    unfolding judge_job
    check_job cs p (found job) = judge_job cs job p
    check_job cs p not_found = next (with_conditions p (kept p.conditions cs))
    check_job cs p (failed e) = panicked

    unfoldable pub follow :
        DataPlaneService
        → Conditions
        → Progress Conditions Mounts Summary
        → Flow (Progress Conditions Mounts Summary)
    unfolding check_job get_ansible_execution
    follow found_service cs p =
        if has_false (status ready cs)
        then check_job cs p (get_ansible_execution (api.jobs found_service))
        else next (with_conditions p cs)

    -- `DeployService` was called: its error is returned as it is.
    unfoldable pub after_start :
        DataPlaneService
        → Progress Conditions Mounts Summary
        → Option Error
        → Flow (Progress Conditions Mounts Summary)
    unfolding follow
    after_start found_service p (some e) = return p (some e)
    after_start found_service p none =
        follow found_service
          (set (false_condition ready requested_reason severity_info) p.conditions) p

    -- `return nil` of the code is `next` here.
    unfoldable pub conditional_deploy :
        DataPlaneService
        → Progress Conditions Mounts Summary
        → Flow (Progress Conditions Mounts Summary)
    unfolding after_start follow
    conditional_deploy found_service p =
        if has_unknown (status ready p.conditions)
        then after_start found_service p
            (api.deploy_service found_service p.runner_image p.extra_mounts)
        else follow found_service p.conditions p

    -- `return &ctrl.Result{}, err`, with the condition set to the error
    unfoldable pub give_up :
        Error → Progress Conditions Mounts Summary → Flow (Progress Conditions Mounts Summary)
    give_up e p =
        return
          (with_conditions p (set (false_condition ready error_reason severity_error) p.conditions))
          (some e)

    -- After `ConditionalDeploy`: go on to the next service only where the condition is True.
    unfoldable pub proceed :
        DataPlaneService
        → Progress Conditions Mounts Summary
        → Flow (Progress Conditions Mounts Summary)
    unfolding record_images
    proceed found_service p =
        if has_true (status ready p.conditions)
        then next (record p {
          container_images =
              record_images api.image_field found_service.container_image_fields p.container_images;
        })
        else return p none

    -- With the mounts of the service in place.
    unfoldable pub run_service :
        DataPlaneService
        → Progress Conditions Mounts Summary
        → Outcome Mounts
        → Flow (Progress Conditions Mounts Summary)
    unfolding conditional_deploy proceed give_up
    run_service found_service p (ok mounts) =
        conditional_deploy found_service (record p { extra_mounts = mounts })
        >>= proceed found_service
    run_service found_service p (err e) = give_up e p
    run_service found_service p panic = panicked
