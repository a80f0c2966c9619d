-- ===== src/Scenarios/DataPlane.antt =====
-- Nodesets, their services, and a deployment of OVN that runs.
use openstack_operator.Prelude.{
  none, some, true, false, String, some, List, [], ◌∷◌, ◌≡◌, ◌↔◌, refl, ok, All, contains, Fetch,
  found, not_found, listed, ◌==◌, if◌then◌else◌,
}
use openstack_operator.Nodesets.{
  Deployment, Service, dataplane_nodesets_deployed, map_of_nodesets,
  dataplane_nodesets_ovn_controller_images_match, is_dataplane_deployment_running_for_service_type,
}
use openstack_operator.Nodesets.Checks.{
  IsDeployed, RunsOvnImage, dataplane_nodesets_deployed_iff,
  dataplane_nodesets_ovn_controller_images_match_iff,
}
use openstack_operator.Nodesets.Running.{
  any_of_type, running_services, is_dataplane_deployment_running_for_service_type_lem,
}
use openstack_operator.Services.{dedupe, service_type, dedupe_services}
use openstack_operator.Services.Entries.{HasServices, dedupe_services-HasServices}
use openstack_operator.Services.Dedupe.{
  HasNoDuplicate, dedupe-HasNoDuplicate, dedupe-recorded, dedupe-forgets,
}
use openstack_operator.Services.Coverage.{IsHandled, dedupe-IsHandled}
use openstack_operator.Scenarios.Values.{nodeset_v2}

abbrev ovn_service : Service
ovn_service = record { name = "ovn"; edpm_service_type = "ovn"; deploy_on_all_node_sets = false }

abbrev ssh_known_hosts : Service
ssh_known_hosts = record {
  name = "ssh-known-hosts";
  edpm_service_type = "ssh-known-hosts";
  deploy_on_all_node_sets = true;
}

abbrev reboot_os : Service
reboot_os = record {
  name = "reboot-os";
  edpm_service_type = "reboot-os";
  deploy_on_all_node_sets = true;
}

abbrev get : String → Fetch Service
get name =
    if name == "ovn"
    then found ovn_service
    else if name == "ssh-known-hosts"
    then found ssh_known_hosts
    else if name == "reboot-os"
    then found reboot_os
    else not_found

dataplane_nodesets_deployed_iff_example :
    (dataplane_nodesets_deployed "v2" (nodeset_v2 ∷ []) ≡ true)
    ↔ All (IsDeployed "v2") (nodeset_v2 ∷ [])
dataplane_nodesets_deployed_iff_example = dataplane_nodesets_deployed_iff "v2" (nodeset_v2 ∷ [])

dataplane_nodesets_ovn_controller_images_match_iff_example :
    (dataplane_nodesets_ovn_controller_images_match (some "v2") (nodeset_v2 ∷ []) ≡ ok true)
    ↔ All (RunsOvnImage (some "v2")) (nodeset_v2 ∷ [])
dataplane_nodesets_ovn_controller_images_match_iff_example =
    dataplane_nodesets_ovn_controller_images_match_iff (some "v2") (nodeset_v2 ∷ [])

abbrev running : Deployment
running = record { node_sets = "edpm" ∷ []; services_override = []; deployed = false }

is_dataplane_deployment_running_for_service_type_lem_example :
    is_dataplane_deployment_running_for_service_type get
      (listed (running ∷ []))
      (nodeset_v2 ∷ [])
      "ovn"
    ≡ any_of_type get "ovn" (running_services (map_of_nodesets (nodeset_v2 ∷ []) []) (running ∷ []))
is_dataplane_deployment_running_for_service_type_lem_example =
    is_dataplane_deployment_running_for_service_type_lem get "ovn" (running ∷ []) (nodeset_v2 ∷ [])

abbrev asked : List String
asked = "ovn" ∷ "ssh-known-hosts" ∷ "ovn" ∷ []

dedupe-HasNoDuplicate_example : HasNoDuplicate (dedupe get asked []).services
dedupe-HasNoDuplicate_example = dedupe-HasNoDuplicate get asked []

dedupe-recorded_example :
    contains (dedupe get asked ("ssh-known-hosts" ∷ [])).services "ssh-known-hosts" ≡ false
dedupe-recorded_example =
    dedupe-recorded get asked ("ssh-known-hosts" ∷ []) "ssh-known-hosts" ssh_known_hosts refl refl
      (unfold contains in refl)

dedupe-forgets_example :
    ((dedupe get ("ssh-known-hosts" ∷ "reboot-os" ∷ []) []).globals ≡ "reboot-os" ∷ [])
    × ((dedupe get
          ("ssh-known-hosts" ∷ [])
          (dedupe get ("ssh-known-hosts" ∷ "reboot-os" ∷ []) []).globals).services
        ≡ "ssh-known-hosts" ∷ [])
dedupe-forgets_example =
    dedupe-forgets get "ssh-known-hosts" "reboot-os" ssh_known_hosts reboot_os refl refl refl refl
      refl refl (unfold service_type in refl)

dedupe-IsHandled_example : IsHandled get [] "ovn" ovn_service (dedupe get asked []).services
dedupe-IsHandled_example =
    dedupe-IsHandled get [] asked "ovn" ovn_service refl (unfold contains in refl)
      (unfold dedupe in refl)

deployed_on : dedupe_services get (nodeset_v2 ∷ []) [] ≡ (some (("edpm", "ovn" ∷ []) ∷ []), none)
unfolding dedupe_services
deployed_on = refl

dedupe_services-HasServices_example :
    All (λ nodeset. HasServices nodeset.name (("edpm", "ovn" ∷ []) ∷ [])) (nodeset_v2 ∷ [])
dedupe_services-HasServices_example =
    dedupe_services-HasServices get [] (nodeset_v2 ∷ []) (("edpm", "ovn" ∷ []) ∷ []) deployed_on
