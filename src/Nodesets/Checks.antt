-- ===== src/Nodesets/Checks.antt =====
-- What the checks of internal/openstack/dataplane.go establish about every nodeset.
use openstack_operator.Prelude.{
  true, String, Option, none, some, List, [], ◌∷◌, ◌≡◌, ◌↔◌, ◌⊎◌, refl, arith, All, is_empty, ok,
  eq_iff,
}
use openstack_operator.Nodesets.{
  NodeSet, text_at, dataplane_nodesets_deployed, dataplane_nodesets_ovn_controller_images_match,
}

-- The nodeset was reconciled since its spec last changed, and, if it has nodes, it is ready and
-- runs the target version.
abbrev pub IsDeployed : String → NodeSet → Type 0
IsDeployed target_version nodeset =
    (nodeset.generation ≡ nodeset.observed_generation)
    × ((nodeset.nodes ≡ [])
        ⊎ ((nodeset.ready ≡ true) × (nodeset.deployed_version ≡ target_version)))

-- The nodeset was reconciled since its spec last changed, and, if it has nodes and OVN was deployed
-- on them, it runs the given image.
abbrev pub RunsOvnImage : Option String → NodeSet → Type 0
RunsOvnImage image nodeset =
    (nodeset.generation ≡ nodeset.observed_generation)
    × ((nodeset.nodes ≡ [])
        ⊎ ((text_at nodeset.container_images "OvnControllerImage" ≡ "")
            ⊎ (some (text_at nodeset.container_images "OvnControllerImage") ≡ image)))

is_empty_iff : (xs : List String) → (is_empty xs ≡ true) ↔ (xs ≡ [])
is_empty_iff [] = (λ _. refl, λ _. refl)
is_empty_iff (x ∷ xs) = (λ h. cc, λ h. cc)

-- `DataplaneNodesetsDeployed` holds exactly when each nodeset was reconciled since its spec last
-- changed, and each one that has nodes is ready and deployed at the target version.
pub dataplane_nodesets_deployed_iff :
    (target_version : String) (nodesets : List NodeSet)
    → (dataplane_nodesets_deployed target_version nodesets ≡ true)
      ↔ All (IsDeployed target_version) nodesets
unfolding dataplane_nodesets_deployed
dataplane_nodesets_deployed_iff target_version [] = (λ _. tt, λ _. refl)
dataplane_nodesets_deployed_iff target_version (nodeset ∷ items) = ground (
  arith,
  is_empty_iff nodeset.nodes,
  eq_iff nodeset.deployed_version target_version,
  dataplane_nodesets_deployed_iff target_version items,
)

-- `DataplaneNodesetsOVNControllerImagesMatch` returns true exactly when each nodeset was reconciled
-- since its spec last changed, and each one that has nodes, and an image of OVN deployed on them,
-- runs the version's image.
pub dataplane_nodesets_ovn_controller_images_match_iff :
    (image : Option String) (nodesets : List NodeSet)
    → (dataplane_nodesets_ovn_controller_images_match image nodesets ≡ ok true)
      ↔ All (RunsOvnImage image) nodesets
unfolding dataplane_nodesets_ovn_controller_images_match
dataplane_nodesets_ovn_controller_images_match_iff image [] = (λ _. tt, λ _. refl)
dataplane_nodesets_ovn_controller_images_match_iff none (nodeset ∷ items) = ground (
  arith,
  is_empty_iff nodeset.nodes,
  eq_iff (text_at nodeset.container_images "OvnControllerImage") "",
  dataplane_nodesets_ovn_controller_images_match_iff none items,
)
dataplane_nodesets_ovn_controller_images_match_iff (some target) (nodeset ∷ items) = ground (
  arith,
  is_empty_iff nodeset.nodes,
  eq_iff (text_at nodeset.container_images "OvnControllerImage") "",
  eq_iff (text_at nodeset.container_images "OvnControllerImage") target,
  dataplane_nodesets_ovn_controller_images_match_iff (some target) items,
)
