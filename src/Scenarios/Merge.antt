-- ===== src/Scenarios/Merge.antt =====
-- The manifest of a deployment, and what the cluster has of it.
use openstack_operator.Prelude.{String, none, some, List, [], ◌∷◌, ◌≡◌, refl, lookup, Outcome, ok}
use openstack_operator.Manifests.{
  absent, Object, deployment_revision_annotation, merge_object_for_update,
}
use openstack_operator.Manifests.Metadata.{HasMetadata, merge_object_for_update-HasMetadata}

abbrev object_with : List (String × String) → List (String × String) → String → Object String
object_with annotations labels version = record {
  name = "nova-operator";
  group = "apps";
  kind = "Deployment";
  read_only = record {
    creation_timestamp = "";
    self_link = "";
    generation = 1;
    uid = "";
    resource_version = version;
  };
  annotations = annotations;
  labels = labels;
  webhooks = none;
  spec_error = none;
  cluster_ip = absent;
  ip_family = absent;
  secrets = absent;
  image_pull_secrets = absent;
  rest = "";
}

abbrev in_cluster : Object String
in_cluster =
    object_with ((deployment_revision_annotation, "3") ∷ []) (("olm.managed", "true") ∷ []) "7"

abbrev manifest : Object String
manifest = object_with ((deployment_revision_annotation, "1") ∷ []) (("app", "nova") ∷ []) ""

abbrev object_of : Outcome (Object String) → Object String
object_of (ok o) = o
object_of _ = manifest

abbrev merged : Object String
merged = object_of (merge_object_for_update in_cluster manifest)

manifest-merged : merge_object_for_update in_cluster manifest ≡ ok merged
unfolding merge_object_for_update
manifest-merged = refl

merged-again : merge_object_for_update merged manifest ≡ ok merged
unfolding merge_object_for_update
merged-again = refl

-- The revision is the cluster's.
merged-revision : lookup deployment_revision_annotation merged.annotations ≡ some "3"
unfolding merge_object_for_update lookup
merged-revision = refl

merge_object_for_update-HasMetadata_example : HasMetadata in_cluster manifest merged "olm.managed"
merge_object_for_update-HasMetadata_example =
    merge_object_for_update-HasMetadata in_cluster manifest "olm.managed" manifest-merged
