-- ===== src/Nodesets.antt =====
-- internal/openstack/dataplane.go: what the version's controller asks of the data plane. The lists
-- that come from the API server are arguments.
pub mod Checks
pub mod Running
use openstack_operator.Prelude.{
  Bool, true, false, ℕ, not, ◌&&◌, String, Option, none, some, List, [], ◌∷◌, ◌==◌, if◌then◌else◌,
  lookup, insert, contains, is_empty, nat_eq, Outcome, ok, err, panic, Fetch, found, not_found,
  failed, Listing, listed, list_failed, Error,
}

-- OpenStackDataPlaneNodeSet, as far as it is read here
pub record NodeSet : Type 0 where
  pub name : String
  pub generation : ℕ
  pub observed_generation : ℕ
  pub nodes : List String  -- the keys of Spec.Nodes
  pub services : List String
  pub ready : Bool  -- IsReady()
  pub deployed_version : String
  pub container_images : List (String × String)

-- OpenStackDataPlaneDeployment, as far as it is read here
pub record Deployment : Type 0 where
  pub node_sets : List String
  pub services_override : List String
  pub deployed : Bool

-- OpenStackDataPlaneService, as far as it is read here
pub record Service : Type 0 where
  pub name : String
  pub edpm_service_type : String
  pub deploy_on_all_node_sets : Bool

unfoldable pub dataplane_nodesets_deployed_version_is_set : List NodeSet → Bool
dataplane_nodesets_deployed_version_is_set [] = true
dataplane_nodesets_deployed_version_is_set (nodeset ∷ items) =
    if nodeset.deployed_version == ""
    then false
    else dataplane_nodesets_deployed_version_is_set items

-- `m[key]` of a `map[string]string`
unfoldable pub text_at : List (String × String) → String → String
unfolding lookup
text_at m key = elim (lookup key m) [ none ↦ "" | some v ↦ v ]

-- The version's image is dereferenced only where a nodeset gets that far.
unfoldable pub dataplane_nodesets_ovn_controller_images_match :
    Option String → List NodeSet → Outcome Bool
unfolding text_at
dataplane_nodesets_ovn_controller_images_match image [] = ok true
dataplane_nodesets_ovn_controller_images_match image (nodeset ∷ items) =
    let rest = dataplane_nodesets_ovn_controller_images_match image items in
    let deployed = text_at nodeset.container_images "OvnControllerImage" in
    if not (nat_eq nodeset.generation nodeset.observed_generation)
    then ok false
    else if not (is_empty nodeset.nodes) && not (deployed == "")
    then elim image [ none ↦ panic | some target ↦ if deployed == target then rest else ok false ]
    else rest

unfoldable pub dataplane_nodesets_deployed : String → List NodeSet → Bool
dataplane_nodesets_deployed target_version [] = true
dataplane_nodesets_deployed target_version (nodeset ∷ items) =
    let rest = dataplane_nodesets_deployed target_version items in
    if not (nat_eq nodeset.generation nodeset.observed_generation)
    then false
    else if is_empty nodeset.nodes
    then rest
    else if not nodeset.ready
    then false
    else if not (nodeset.deployed_version == target_version)
    then false
    else rest

-- What a loop over services leaves behind: `return true`, `return err`, or the cache so far.
pub data Scan : Type 0 where
  hit : Scan
  broke : Error → Scan
  go : List (String × Service) → Scan

-- After a scan that neither returned nor failed, go on with the cache that it left.
abbrev pub and_then : Scan → (List (String × Service) → Scan) → Scan
and_then hit next = hit
and_then (broke e) next = broke e
and_then (go cache) next = next cache

-- `if svc.Spec.EDPMServiceType == serviceType { return true }`
unfoldable pub check_service : String → Service → List (String × Service) → Scan
check_service service_type svc cache =
    if svc.edpm_service_type == service_type then hit else go cache

-- A service that is not cached is fetched, and cached; one that does not exist is skipped.
unfoldable pub scan_fetched : String → String → List (String × Service) → Fetch Service → Scan
unfolding check_service insert
scan_fetched service_type service_name cache not_found = go cache
scan_fetched service_type service_name cache (failed e) = broke e
scan_fetched service_type service_name cache (found svc) =
    check_service service_type svc (insert service_name svc cache)

unfoldable pub scan_cached :
    (String → Fetch Service) → String → String → List (String × Service) → Option Service → Scan
unfolding scan_fetched check_service
scan_cached get service_type service_name cache (some svc) = check_service service_type svc cache
scan_cached get service_type service_name cache none =
    scan_fetched service_type service_name cache (get service_name)

-- `svc, cached := serviceCache[serviceName]`, and what follows
unfoldable pub scan_service :
    (String → Fetch Service) → String → String → List (String × Service) → Scan
unfolding scan_cached lookup
scan_service get service_type service_name cache =
    scan_cached get service_type service_name cache (lookup service_name cache)

unfoldable pub scan_services :
    (String → Fetch Service) → String → List String → List (String × Service) → Scan
unfolding scan_service
scan_services get service_type [] cache = go cache
scan_services get service_type (service_name ∷ services) cache =
    and_then (scan_service get service_type service_name cache)
      (scan_services get service_type services)

-- `ServicesOverride`, where it is given, stands in for the nodeset's list.
unfoldable pub services_of : Deployment → NodeSet → List String
services_of deployment nodeset =
    if not (is_empty deployment.services_override)
    then deployment.services_override
    else nodeset.services

-- A nodeset that does not exist, or has no nodes, is skipped.
unfoldable pub scan_nodeset :
    (String → Fetch Service) → String → Deployment → Option NodeSet → List (String × Service) → Scan
unfolding scan_services services_of
scan_nodeset get service_type deployment none cache = go cache
scan_nodeset get service_type deployment (some nodeset) cache =
    if is_empty nodeset.nodes
    then go cache
    else scan_services get service_type (services_of deployment nodeset) cache

unfoldable pub scan_nodesets :
    (String → Fetch Service)
    → String
    → List (String × NodeSet)
    → Deployment
    → List String
    → List (String × Service)
    → Scan
unfolding scan_nodeset lookup
scan_nodesets get service_type nodeset_map deployment [] cache = go cache
scan_nodesets get service_type nodeset_map deployment (nodeset_name ∷ names) cache =
    and_then (scan_nodeset get service_type deployment (lookup nodeset_name nodeset_map) cache)
      (scan_nodesets get service_type nodeset_map deployment names)

unfoldable pub scan_deployments :
    (String → Fetch Service)
    → String
    → List (String × NodeSet)
    → List Deployment
    → List (String × Service)
    → Scan
unfolding scan_nodesets
scan_deployments get service_type nodeset_map [] cache = go cache
scan_deployments get service_type nodeset_map (deployment ∷ deployments) cache =
    and_then
      (if deployment.deployed
        then go cache
        else scan_nodesets get service_type nodeset_map deployment deployment.node_sets cache)
      (scan_deployments get service_type nodeset_map deployments)

-- the map from a nodeset's name to the nodeset
unfoldable pub map_of_nodesets : List NodeSet → List (String × NodeSet) → List (String × NodeSet)
unfolding insert
map_of_nodesets [] nodeset_map = nodeset_map
map_of_nodesets (nodeset ∷ items) nodeset_map =
    map_of_nodesets items (insert nodeset.name nodeset nodeset_map)

abbrev pub outcome_of : Scan → Outcome Bool
outcome_of hit = ok true
outcome_of (broke e) = err e
outcome_of (go cache) = ok false

unfoldable pub is_dataplane_deployment_running_for_service_type :
    (String → Fetch Service) → Listing (List Deployment) → List NodeSet → String → Outcome Bool
unfolding scan_deployments map_of_nodesets
is_dataplane_deployment_running_for_service_type get (list_failed e) nodesets service_type = err e
is_dataplane_deployment_running_for_service_type get (listed deployments) nodesets service_type =
    outcome_of (scan_deployments get service_type (map_of_nodesets nodesets []) deployments [])
