-- ===== src/DeploymentController.antt =====
-- The resource that internal/controller/dataplane/openstackdataplanedeployment_controller.go
-- reconciles, and what `Reconcile` asks of its inputs. Logging, the times of conditions and when the
-- next reconcile is due are left out, and so are messages, but for the texts of errors.
pub mod Inputs
pub mod Rounds
pub mod Reconciling
pub mod Vouched
pub mod Served
pub mod Unchanged
pub mod Settled
pub mod History
pub mod Finished
pub mod Complete
pub mod Completes
use openstack_operator.Prelude.{
  Bool, false, ℕ, String, Option, none, some, List, [], ◌∷◌, ◌++◌, if◌then◌else◌, contains, Fetch,
  found, not_found, failed, Listing, listed, list_failed, Error,
}
use openstack_operator.Conditions.{
  Reason, Severity, severity_error, backoff_limit_exceeded, reason_eq,
}
use openstack_operator.Nodesets.{Service}
use openstack_operator.Deployer.{DataPlaneService}
use openstack_operator.DeploymentController.Inputs.{Target, DeploymentStatus}

-- OpenStackDataPlaneDeployment; its maps are made before they are written to, so nil is empty here,
-- and nil conditions hold no condition.
pub record DataPlaneDeployment (Conditions Summary : Type 0) : Type 0 where
  pub generation : ℕ
  pub node_sets : List String
  pub services_override : List String
  pub status : DeploymentStatus Conditions Summary

abbrev pub multiple_versions : Error
multiple_versions = "found multiple OpenStackVersions when at most 1 should exist"

-- GetVersion of internal/dataplane/util/version.go, from the answer of List on
unfoldable pub get_version : {A : Type 0} → Listing (List A) → Fetch A
get_version (list_failed e) = failed e
get_version (listed []) = not_found  -- nil, and no error
get_version (listed (version ∷ [])) = found version
get_version (listed (version ∷ other ∷ versions)) = failed multiple_versions

-- The result of GetVersion as the rest of `Reconcile` sees it, nil where there is none.
abbrev pub service_only : Fetch DataPlaneService → Fetch Service
service_only (found s) = found s.service
service_only not_found = not_found
service_only (failed e) = failed e

abbrev pub map_or_nil : Option (List (String × List String)) → List (String × List String)
map_or_nil none = []
map_or_nil (some service_map) = service_map

-- The names that are not in a list yet.
unfoldable pub add_new : List String → List String → List String
unfolding contains
add_new [] names = []
add_new (name ∷ others) names =
    if contains names name then add_new others names else name ∷ add_new others (names ++ name ∷ [])

-- `deploymentCondition.Reason == condition.JobReasonBackoffLimitExceeded`, and so on
abbrev pub is_terminal : Option Reason → Option Severity → Bool
is_terminal (some r) (some severity_error) = reason_eq r backoff_limit_exceeded
is_terminal _ _ = false

-- The services of the nodesets, each of them once; the code goes over them in any order.
unfoldable pub all_services : {Mounts : Type 0} → List (Target Mounts) → List String → List String
unfolding add_new
all_services [] names = names
all_services (target ∷ targets) names =
    all_services targets (names ++ add_new target.node_set.services names)
