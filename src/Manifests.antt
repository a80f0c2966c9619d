-- ===== src/Manifests.antt =====
-- internal/operator/bindata/merge.go: how a rendered manifest is merged with the object that the
-- cluster has, before ApplyObject writes it.
pub mod Alike
pub mod Metadata
use openstack_operator.Prelude.{
  Bool, true, false, not, ◌&&◌, ◌||◌, ℕ, String, Option, none, some, List, [], ◌∷◌, ◌==◌,
  if◌then◌else◌, lookup, insert, delete, copy_into, is_empty, Outcome, ok, err, panic, Fetch, found,
  not_found, failed, Error,
}

-- A field that NestedString or NestedSlice looks up: an error where something else stands there.
pub data Field (A : Type 0) : Type 0 where
  absent : Field A
  present : A → Field A
  malformed : Error → Field A

-- A webhook of a configuration, where it is a map. A name that is missing is empty.
pub record Webhook : Type 0 where
  pub name : String
  pub client_config : Option (Option String × String)  -- if it is a map: caBundle, and the rest of it
  pub rest : String

pub data WebhookEntry : Type 0 where
  webhook : Webhook → WebhookEntry
  other_entry : WebhookEntry

-- The fields that MergeMetadataForUpdate copies.
pub record ReadOnly : Type 0 where
  pub creation_timestamp : String
  pub self_link : String
  pub generation : ℕ
  pub uid : String
  pub resource_version : String

-- unstructured.Unstructured, as far as it is read or written here; a nil map is empty.
pub record Object (Rest : Type 0) : Type 0 where
  pub name : String
  pub group : String
  pub kind : String
  pub read_only : ReadOnly
  pub annotations : List (String × String)
  pub labels : List (String × String)
  pub webhooks : Option (List WebhookEntry)  -- none where it is no list
  pub spec_error : Option Error  -- of SetNestedField, where the specification is no map
  pub cluster_ip : Field String
  pub ip_family : Field String
  pub secrets : Field (List String)
  pub image_pull_secrets : Field (List String)
  pub rest : Rest

abbrev pub deployment_revision_annotation : String
deployment_revision_annotation = "deployment.kubernetes.io/revision"

abbrev pub crd_label : String
crd_label = "openstack.openstack.org/crd"

abbrev pub managed_label : String
managed_label = "openstack.openstack.org/managed"

-- A loop round of the lookup of caBundle values, by the name of the webhook
unfoldable pub add_bundle : WebhookEntry → List (String × String) → List (String × String)
unfolding insert
add_bundle other_entry bundles = bundles
add_bundle (webhook w) bundles = if w.name == "" then bundles else elim w.client_config [
  | none ↦ bundles
  | some config ↦ elim config.0 [ none ↦ bundles | some bundle ↦ insert w.name bundle bundles ]
]

unfoldable pub bundles_of : List WebhookEntry → List (String × String) → List (String × String)
unfolding add_bundle
bundles_of [] bundles = bundles
bundles_of (entry ∷ entries) bundles = bundles_of entries (add_bundle entry bundles)

-- A round of the loop that writes them
unfoldable pub set_bundle : List (String × String) → WebhookEntry → WebhookEntry
unfolding lookup
set_bundle bundles other_entry = other_entry
set_bundle bundles (webhook w) = if w.name == "" then webhook w else elim (lookup w.name bundles) [
  | none ↦ webhook w
  | some bundle ↦ elim w.client_config [
    | none ↦ webhook w
    | some config ↦ webhook (record w { client_config = some (some bundle, config.1) })
  ]
]

unfoldable pub set_bundles : List (String × String) → List WebhookEntry → List WebhookEntry
unfolding set_bundle
set_bundles bundles [] = []
set_bundles bundles (entry ∷ entries) = set_bundle bundles entry ∷ set_bundles bundles entries

-- With the webhooks of the two objects, if they are lists
unfoldable pub merge_webhooks :
    Option (List WebhookEntry) → Option (List WebhookEntry) → Option (List WebhookEntry)
unfolding bundles_of set_bundles
merge_webhooks none updated = updated
merge_webhooks (some current) none = none
merge_webhooks (some current) (some updated) = some (set_bundles (bundles_of current []) updated)

-- The revision annotation of the current object, if any, over that of the updated one
unfoldable pub keep_revision : Option String → List (String × String) → List (String × String)
unfolding insert
keep_revision none annotations = annotations
keep_revision (some revision) annotations =
    insert deployment_revision_annotation revision annotations

abbrev mark : Bool → String → String → List (String × String) → List (String × String)
mark on key value labels = if on then insert key value labels else labels

module _ {Rest : Type 0} where
  abbrev pub is_webhook_configuration : Object Rest → Bool
  is_webhook_configuration o =
      o.group == "admissionregistration.k8s.io"
      && (o.kind == "MutatingWebhookConfiguration" || o.kind == "ValidatingWebhookConfiguration")

  abbrev pub is_deployment : Object Rest → Bool
  is_deployment o = o.group == "apps" && o.kind == "Deployment"

  abbrev pub is_crd : Object Rest → Bool
  is_crd o = o.group == "apiextensions.k8s.io" && o.kind == "CustomResourceDefinition"

  abbrev pub is_core : String → Object Rest → Bool
  is_core kind o = o.group == "" && o.kind == kind

  unfoldable pub merge_webhook_configuration_for_update : Object Rest → Object Rest → Object Rest
  unfolding merge_webhooks
  merge_webhook_configuration_for_update current updated =
      if is_webhook_configuration updated
      then record updated { webhooks = merge_webhooks current.webhooks updated.webhooks }
      else updated

  unfoldable pub merge_deployment_for_update : Object Rest → Object Rest → Object Rest
  unfolding keep_revision lookup
  merge_deployment_for_update current updated =
      if is_deployment updated
      then record updated {
        annotations =
            keep_revision (lookup deployment_revision_annotation current.annotations)
              updated.annotations;
      }
      else updated

  unfoldable pub set_cluster_ip : Field String → Object Rest → Outcome (Object Rest)
  set_cluster_ip absent o = ok o
  set_cluster_ip (malformed e) o = err e
  set_cluster_ip (present ip) o = elim o.spec_error [
    | none ↦ ok (record o { cluster_ip = present ip })
    | some e ↦ err e
  ]

  unfoldable pub set_ip_family : Field String → Object Rest → Outcome (Object Rest)
  set_ip_family absent o = ok o
  set_ip_family (malformed e) o = err e
  set_ip_family (present family) o = elim o.spec_error [
    | none ↦ ok (record o { ip_family = present family })
    | some e ↦ err e
  ]

  unfoldable pub set_secrets : Field (List String) → Object Rest → Outcome (Object Rest)
  set_secrets absent o = ok o
  set_secrets (malformed e) o = err e
  set_secrets (present secrets) o = ok (record o { secrets = present secrets })

  unfoldable pub set_image_pull_secrets : Field (List String) → Object Rest → Outcome (Object Rest)
  set_image_pull_secrets absent o = ok o
  set_image_pull_secrets (malformed e) o = err e
  set_image_pull_secrets (present secrets) o =
      ok (record o { image_pull_secrets = present secrets })

  -- `if err != nil { return err }`
  abbrev pub and_then :
      Outcome (Object Rest) → (Object Rest → Outcome (Object Rest)) → Outcome (Object Rest)
  and_then (ok o) rest = rest o
  and_then (err e) rest = err e
  and_then panic rest = panic

  unfoldable pub merge_service_for_update : Object Rest → Object Rest → Outcome (Object Rest)
  unfolding set_cluster_ip set_ip_family
  merge_service_for_update current updated =
      if is_core "Service" updated
      then and_then (set_cluster_ip current.cluster_ip updated) (set_ip_family current.ip_family)
      else ok updated

  unfoldable pub merge_service_account_for_update :
      Object Rest → Object Rest → Outcome (Object Rest)
  unfolding set_secrets set_image_pull_secrets
  merge_service_account_for_update current updated =
      if is_core "ServiceAccount" updated
      then and_then (set_secrets current.secrets updated)
          (set_image_pull_secrets current.image_pull_secrets)
      else ok updated

  unfoldable pub merge_annotations : Object Rest → Object Rest → Object Rest
  unfolding copy_into
  merge_annotations current updated = record updated {
    annotations = copy_into updated.annotations current.annotations;
  }

  unfoldable pub merge_labels : Object Rest → Object Rest → Object Rest
  unfolding copy_into delete insert
  merge_labels current updated = record updated {
    labels = delete "olm.managed" (
        mark (is_webhook_configuration updated) managed_label "true"
          (mark (is_crd updated) crd_label "" (copy_into updated.labels current.labels)));
  }

  unfoldable pub merge_metadata_for_update : Object Rest → Object Rest → Object Rest
  unfolding merge_annotations merge_labels
  merge_metadata_for_update current updated =
      merge_labels current
        (merge_annotations current (record updated { read_only = current.read_only }))

  unfoldable pub merge_object_for_update : Object Rest → Object Rest → Outcome (Object Rest)
  unfolding merge_webhook_configuration_for_update merge_deployment_for_update
      merge_service_for_update merge_service_account_for_update merge_metadata_for_update
  merge_object_for_update current updated =
      let prepared =
        merge_deployment_for_update current
          (merge_webhook_configuration_for_update current updated) in
      and_then
        (and_then (merge_service_for_update current prepared)
          (merge_service_account_for_update current))
        (λ o. ok (merge_metadata_for_update current o))

  -- IsObjectSupported: nil, or the error
  unfoldable pub is_object_supported : Object Rest → Option Error
  is_object_supported o =
      if is_core "ServiceAccount" o
      then elim o.secrets [
        | absent ↦ none
        | malformed e ↦ some e
        | present secrets ↦
            if is_empty secrets then none else some "cannot create ServiceAccount with secrets"
      ]
      else none
