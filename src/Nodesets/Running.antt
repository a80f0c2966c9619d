-- ===== src/Nodesets/Running.antt =====
-- `IsDataplaneDeploymentRunningForServiceType` of internal/openstack/dataplane.go against a search
-- without a cache through the services of the deployments that run.
use openstack_operator.Prelude.{
  Bool, true, false, String, Option, none, some, List, [], ◌∷◌, ◌++◌, ◌≡◌, refl, sym, arith,
  if◌then◌else◌, lookup, insert, lookup-insert, is_empty, Outcome, ok, err, Fetch, found, not_found,
  failed, listed, ◌==◌, eq_iff,
}
use openstack_operator.Nodesets.{
  NodeSet, Deployment, Service, Scan, hit, broke, go, and_then, scan_service, scan_services,
  check_service, scan_fetched, scan_cached, scan_nodeset, services_of, scan_nodesets,
  scan_deployments, map_of_nodesets, outcome_of, is_dataplane_deployment_running_for_service_type,
}

-- The services that a deployment runs on a nodeset: none where it does not exist or has no nodes.
abbrev pub services_at : Deployment → Option NodeSet → List String
services_at deployment none = []
services_at deployment (some nodeset) =
    if is_empty nodeset.nodes then [] else services_of deployment nodeset

unfoldable pub services_on : List (String × NodeSet) → Deployment → List String → List String
unfolding lookup services_of
services_on nodeset_map deployment [] = []
services_on nodeset_map deployment (name ∷ names) =
    services_at deployment (lookup name nodeset_map) ++ services_on nodeset_map deployment names

-- The services that the deployments which are not done deploy.
unfoldable pub running_services : List (String × NodeSet) → List Deployment → List String
unfolding services_on
running_services nodeset_map [] = []
running_services nodeset_map (deployment ∷ deployments) =
    (if deployment.deployed then [] else services_on nodeset_map deployment deployment.node_sets)
    ++ running_services nodeset_map deployments

module _ (get : String → Fetch Service) (service_type : String) where
  -- Whether a service is of the type; one that does not exist is not.
  abbrev has_type : Fetch Service → Outcome Bool
  has_type not_found = ok false
  has_type (failed e) = err e
  has_type (found svc) = ok (svc.edpm_service_type == service_type)

  abbrev or_later : Outcome Bool → Outcome Bool → Outcome Bool
  or_later (ok false) later = later
  or_later result later = result

  -- The first service of the type, or the first error.
  unfoldable pub any_of_type : List String → Outcome Bool
  any_of_type [] = ok false
  any_of_type (name ∷ names) = or_later (has_type (get name)) (any_of_type names)

  or_later_assoc : (a b c : Outcome Bool) → or_later (or_later a b) c ≡ or_later a (or_later b c)
  or_later_assoc (ok true) b c = refl
  or_later_assoc (ok false) b c = refl
  or_later_assoc (err e) b c = refl
  or_later_assoc Outcome.panic b c = refl

  any_of_type-append :
      (xs ys : List String) → any_of_type (xs ++ ys) ≡ or_later (any_of_type xs) (any_of_type ys)
  unfolding any_of_type
  any_of_type-append [] ys = refl
  any_of_type-append (x ∷ xs) ys =
      rw (any_of_type-append xs ys)
        (sym (or_later_assoc (has_type (get x)) (any_of_type xs) (any_of_type ys)))

  -- What the cache holds is what the API server answers.
  abbrev IsCoherent : List (String × Service) → Type 0
  IsCoherent cache =
      (name : String) (svc : Service) → lookup name cache ≡ some svc → get name ≡ found svc

  abbrev Agrees : Scan → Outcome Bool → Type 0
  Agrees hit r = r ≡ ok true
  Agrees (broke e) r = r ≡ err e
  Agrees (go cache) r = (r ≡ ok false) × IsCoherent cache

  Agrees-and_then :
      (s : Scan) (next : List (String × Service) → Scan) (r later : Outcome Bool)
      → Agrees s r
      → ((cache : List (String × Service)) → IsCoherent cache → Agrees (next cache) later)
      → Agrees (and_then s next) (or_later r later)
  Agrees-and_then hit next r later a h = rw a
  Agrees-and_then (broke e) next r later a h = rw a
  Agrees-and_then (go cache) next r later a h = rw (a.0) (h cache a.1)

  IsCoherent-insert :
      (name : String) (svc : Service) (cache : List (String × Service))
      → get name ≡ found svc
      → IsCoherent cache
      → IsCoherent (insert name svc cache)
  IsCoherent-insert name svc cache fetched coherent key value h =
      ground (arith, lookup-insert name key svc cache, eq_iff name key, coherent key value)

  Agrees-check :
      (b : Bool) (cache : List (String × Service))
      → IsCoherent cache
      → Agrees (if b then hit else go cache) (ok b)
  Agrees-check true cache coherent = refl
  Agrees-check false cache coherent = (refl, coherent)

  Agrees-fetched :
      (name : String) (cache : List (String × Service)) (o : Fetch Service)
      → get name ≡ o
      → IsCoherent cache
      → Agrees (scan_fetched service_type name cache o) (has_type o)
  unfolding scan_fetched check_service
  Agrees-fetched name cache not_found fetched coherent = (refl, coherent)
  Agrees-fetched name cache (failed e) fetched coherent = refl
  Agrees-fetched name cache (found svc) fetched coherent =
      Agrees-check (svc.edpm_service_type == service_type) (insert name svc cache)
        (IsCoherent-insert name svc cache fetched coherent)

  Agrees-cached :
      (name : String) (cache : List (String × Service)) (cached : Option Service)
      → lookup name cache ≡ cached
      → IsCoherent cache
      → Agrees (scan_cached get service_type name cache cached) (has_type (get name))
  unfolding scan_cached check_service
  Agrees-cached name cache (some svc) looked coherent =
      rw (coherent name svc looked)
        (Agrees-check (svc.edpm_service_type == service_type) cache coherent)
  Agrees-cached name cache none looked coherent = Agrees-fetched name cache (get name) refl coherent

  Agrees-services :
      (names : List String) (cache : List (String × Service))
      → IsCoherent cache
      → Agrees (scan_services get service_type names cache) (any_of_type names)
  unfolding scan_services scan_service any_of_type
  Agrees-services [] cache coherent = (refl, coherent)
  Agrees-services (name ∷ names) cache coherent =
      Agrees-and_then (scan_service get service_type name cache)
        (scan_services get service_type names) (has_type (get name)) (any_of_type names)
        (Agrees-cached name cache (lookup name cache) refl coherent) (Agrees-services names)

  Agrees-nodeset :
      (deployment : Deployment) (nodeset : Option NodeSet) (cache : List (String × Service))
      → IsCoherent cache
      → Agrees
          (scan_nodeset get service_type deployment nodeset cache)
          (any_of_type (services_at deployment nodeset))
  unfolding scan_nodeset
  Agrees-nodeset deployment none cache coherent = unfold any_of_type in (refl, coherent)
  Agrees-nodeset deployment (some nodeset) cache coherent =
      Agrees-unless (is_empty nodeset.nodes) (services_of deployment nodeset) cache coherent
    where
      Agrees-unless :
          (b : Bool) (names : List String) (cache : List (String × Service))
          → IsCoherent cache
          → Agrees
              (if b then go cache else scan_services get service_type names cache)
              (any_of_type (if b then [] else names))
      Agrees-unless true names cache coherent = unfold any_of_type in (refl, coherent)
      Agrees-unless false names cache coherent = Agrees-services names cache coherent

  Agrees-nodesets :
      (nodeset_map : List (String × NodeSet)) (deployment : Deployment) (names : List String)
      (cache : List (String × Service))
      → IsCoherent cache
      → Agrees
          (scan_nodesets get service_type nodeset_map deployment names cache)
          (any_of_type (services_on nodeset_map deployment names))
  unfolding scan_nodesets services_on
  Agrees-nodesets nodeset_map deployment [] cache coherent = unfold any_of_type in (refl, coherent)
  Agrees-nodesets nodeset_map deployment (name ∷ names) cache coherent =
      rw
        (any_of_type-append (services_at deployment (lookup name nodeset_map))
          (services_on nodeset_map deployment names))
        (Agrees-and_then (scan_nodeset get service_type deployment (lookup name nodeset_map) cache)
          (scan_nodesets get service_type nodeset_map deployment names)
          (any_of_type (services_at deployment (lookup name nodeset_map)))
          (any_of_type (services_on nodeset_map deployment names))
          (Agrees-nodeset deployment (lookup name nodeset_map) cache coherent)
          (Agrees-nodesets nodeset_map deployment names))

  Agrees-deployment :
      (nodeset_map : List (String × NodeSet)) (deployment : Deployment) (b : Bool)
      (cache : List (String × Service))
      → IsCoherent cache
      → Agrees
          (if b
            then go cache
            else scan_nodesets get service_type nodeset_map deployment deployment.node_sets cache)
          (any_of_type (if b then [] else services_on nodeset_map deployment deployment.node_sets))
  Agrees-deployment nodeset_map deployment true cache coherent =
      unfold any_of_type in (refl, coherent)
  Agrees-deployment nodeset_map deployment false cache coherent =
      Agrees-nodesets nodeset_map deployment deployment.node_sets cache coherent

  Agrees-deployments :
      (nodeset_map : List (String × NodeSet)) (deployments : List Deployment)
      (cache : List (String × Service))
      → IsCoherent cache
      → Agrees
          (scan_deployments get service_type nodeset_map deployments cache)
          (any_of_type (running_services nodeset_map deployments))
  unfolding scan_deployments running_services
  Agrees-deployments nodeset_map [] cache coherent = unfold any_of_type in (refl, coherent)
  Agrees-deployments nodeset_map (deployment ∷ deployments) cache coherent =
      let run =
        if deployment.deployed
        then []
        else services_on nodeset_map deployment deployment.node_sets in
      rw (any_of_type-append run (running_services nodeset_map deployments)) (
        Agrees-and_then
          (if deployment.deployed
            then go cache
            else scan_nodesets get service_type nodeset_map deployment deployment.node_sets cache)
          (scan_deployments get service_type nodeset_map deployments) (any_of_type run)
          (any_of_type (running_services nodeset_map deployments))
          (Agrees-deployment nodeset_map deployment deployment.deployed cache coherent)
          (Agrees-deployments nodeset_map deployments))

  outcome_of-Agrees : (s : Scan) (r : Outcome Bool) → Agrees s r → outcome_of s ≡ r
  outcome_of-Agrees hit r a = sym a
  outcome_of-Agrees (broke e) r a = sym a
  outcome_of-Agrees (go cache) r a = sym a.0

  -- The search with a cache comes to what a search without one through the services of the
  -- deployments that are not done comes to: true at the first service of the type, or the first
  -- error before it, and false where neither is met.
  pub is_dataplane_deployment_running_for_service_type_lem :
      (deployments : List Deployment) (nodesets : List NodeSet)
      → is_dataplane_deployment_running_for_service_type get
          (listed deployments)
          nodesets
          service_type
        ≡ any_of_type (running_services (map_of_nodesets nodesets []) deployments)
  unfolding is_dataplane_deployment_running_for_service_type
  is_dataplane_deployment_running_for_service_type_lem deployments nodesets =
      outcome_of-Agrees
        (scan_deployments get service_type (map_of_nodesets nodesets []) deployments []) _
        (Agrees-deployments (map_of_nodesets nodesets []) deployments [] nothing_cached)
    where
      nothing_cached : IsCoherent []
      nothing_cached name svc h = absurd (unfold lookup in cc h)
