-- ===== src/Services.antt =====
-- The services of a data plane deployment: `DedupeServices` and `dedupe` of
-- internal/dataplane/service.go. `GetService` is an argument.
pub mod Dedupe
pub mod Coverage
pub mod Entries
use openstack_operator.Prelude.{
  Bool, true, false, not, ◌&&◌, String, Option, none, some, List, [], ◌∷◌, ◌++◌, ◌==◌,
  if◌then◌else◌, contains, insert, is_empty, Fetch, found, not_found, failed, Error,
}
use openstack_operator.Nodesets.{NodeSet, Service}

-- The variables of the loop of `dedupe`.
pub record Seen : Type 0 where
  pub services : List String  -- dedupedServices
  pub types : List String  -- nodeSetServiceTypes
  pub globals : List String  -- updatedglobalServices

-- What `dedupe` returns: its lists, and an error or nil.
pub record Deduped : Type 0 where
  pub services : List String
  pub globals : List String
  pub error : Option Error

-- `service.Spec.EDPMServiceType`, or the name where that is empty
unfoldable pub service_type : Service → String
service_type service =
    if service.edpm_service_type == "" then service.name else service.edpm_service_type

-- A round of the loop for a service that was found. `append(globalServices, svc)` goes by the list
-- that `dedupe` was given.
unfoldable pub add_service : List String → String → Service → Seen → Seen
unfolding contains service_type
add_service global_services svc service seen =
    let added = record seen {
      services = seen.services ++ svc ∷ [];
      types = seen.types ++ service_type service ∷ [];
    } in
    if not (contains seen.types (service_type service)) && not (contains seen.services svc)
    then if service.deploy_on_all_node_sets
      then if not (contains global_services svc)
        then record added { globals = global_services ++ svc ∷ [] }
        else seen
      else added
    else seen

-- the error of `GetService` for a service that does not exist
abbrev pub not_found_error : Error
not_found_error = "not found"

-- What a round of the loop comes to: the next round, or a return.
pub data Round : Type 0 where
  go_on : Seen → Round
  stop : Deduped → Round

abbrev pub resume : Round → (Seen → Deduped) → Deduped
resume (go_on seen) loop = loop seen
resume (stop result) loop = result

-- A service that does not exist is kept, once; the second time it is an error.
unfoldable pub dedupe_round : List String → String → Fetch Service → Seen → Round
unfolding add_service contains
dedupe_round global_services svc (found service) seen =
    go_on (add_service global_services svc service seen)
dedupe_round global_services svc not_found seen =
    if not (contains seen.services svc)
    then go_on (record seen { services = seen.services ++ svc ∷ [] })
    else stop
        (record { services = seen.services; globals = seen.globals; error = some not_found_error })
dedupe_round global_services svc (failed e) seen =
    stop (record { services = seen.services; globals = seen.globals; error = some e })

-- The loop over the services that are left.
unfoldable pub dedupe_loop : (String → Fetch Service) → List String → List String → Seen → Deduped
unfolding dedupe_round
dedupe_loop get global_services [] seen = record {
  services = seen.services;
  globals = seen.globals;
  error = none;
}
dedupe_loop get global_services (svc ∷ services) seen =
    resume (dedupe_round global_services svc (get svc) seen)
      (dedupe_loop get global_services services)

unfoldable pub dedupe : (String → Fetch Service) → List String → List String → Deduped
unfolding dedupe_loop
dedupe get services global_services =
    dedupe_loop get global_services services
      (record { services = []; types = []; globals = global_services })

-- `serviceOverride`, where it is given, stands in for the nodeset's list.
abbrev pub requested : List String → NodeSet → List String
requested service_override nodeset =
    if not (is_empty service_override) then service_override else nodeset.services

-- The loop over the nodesets that are left.
unfoldable pub dedupe_nodesets :
    (String → Fetch Service)
    → List String
    → List NodeSet
    → List (String × List String)
    → List String
    → Option (List (String × List String)) × Option Error
unfolding dedupe insert
dedupe_nodesets get service_override [] service_map global_services = (some service_map, none)
dedupe_nodesets get service_override (nodeset ∷ nodesets) service_map global_services =
    let result = dedupe get (requested service_override nodeset) global_services in
    elim result.error [
      | some e ↦ (none, some e)
      | none ↦
          dedupe_nodesets get service_override nodesets
            (insert nodeset.name result.services service_map) result.globals
    ]

unfoldable pub dedupe_services :
    (String → Fetch Service)
    → List NodeSet
    → List String
    → Option (List (String × List String)) × Option Error
unfolding dedupe_nodesets
dedupe_services get nodesets service_override = dedupe_nodesets get service_override nodesets [] []
