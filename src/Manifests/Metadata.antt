-- ===== src/Manifests/Metadata.antt =====
-- The annotations and labels of a merged object (internal/operator/bindata/merge.go).
use openstack_operator.Prelude.{
  Bool, true, false, ◌&&◌, String, Option, none, some, List, ◌≡◌, refl, ◌∙◌, ap, subst, arith, ◌==◌,
  eq_iff, if◌then◌else◌, lookup, copy_into, or_else, lookup-insert, lookup-delete, lookup-copy_into,
  Bool-cases, inl, inr, ok,
}
use openstack_operator.Manifests.{
  Object, deployment_revision_annotation, crd_label, managed_label, is_webhook_configuration,
  is_deployment, is_crd, keep_revision, mark, merge_webhook_configuration_for_update,
  merge_deployment_for_update, and_then, merge_service_for_update, merge_service_account_for_update,
  merge_annotations, merge_labels, merge_metadata_for_update, merge_object_for_update,
}
use openstack_operator.Manifests.Alike.{
  IsAlike, and_then-ok, merge_service-IsAlike, merge_service_account-IsAlike, IsAlike-trans,
}

-- Which annotation is meant to stand under a key: that of the manifest, or else that of the cluster;
-- but the revision of a deployment is the cluster's, if it has one.
abbrev pub wanted_annotation : Bool → String → Option String → Option String → Option String
wanted_annotation deployment key current updated =
    if deployment && key == deployment_revision_annotation
    then or_else current updated
    else or_else updated current

-- Which label is meant to stand under a key.
abbrev pub wanted_label : Bool → Bool → String → Option String → Option String → Option String
wanted_label configuration crd key current updated =
    if key == "olm.managed"
    then none
    else if configuration && key == managed_label
    then some "true"
    else if crd && key == crd_label
    then some ""
    else or_else updated current

keep_revision-wanted :
    (key : String) (revision : Option String) (annotations current : List (String × String))
    → revision ≡ lookup deployment_revision_annotation current
    → or_else (lookup key (keep_revision revision annotations)) (lookup key current)
      ≡ wanted_annotation true key (lookup key current) (lookup key annotations)
unfolding keep_revision
keep_revision-wanted key none annotations current h =
    ground (arith, eq_iff key deployment_revision_annotation)
keep_revision-wanted key (some revision) annotations current h = ground (
  arith,
  eq_iff key deployment_revision_annotation,
  eq_iff deployment_revision_annotation key,
  lookup-insert deployment_revision_annotation key revision annotations,
)

mark-lookup :
    (on : Bool) (key wanted value : String) (labels : List (String × String))
    → lookup wanted (mark on key value labels)
      ≡ (if on && wanted == key then some value else lookup wanted labels)
mark-lookup true key wanted value labels =
    ground (arith, lookup-insert key wanted value labels, eq_iff key wanted, eq_iff wanted key)
mark-lookup false key wanted value labels = refl

module _ {Rest : Type 0} where
  merge_labels-wanted :
      (key : String) (current updated : Object Rest)
      → lookup key (merge_labels current updated).labels
        ≡ wanted_label
            (is_webhook_configuration updated)
            (is_crd updated)
            key
            (lookup key current.labels)
            (lookup key updated.labels)
  unfolding merge_labels
  merge_labels-wanted key current updated =
      let base = copy_into updated.labels current.labels in
      let marked = mark (is_crd updated) crd_label "" base in
      lookup-delete "olm.managed" key
        (mark (is_webhook_configuration updated) managed_label "true" marked)
      ∙ ground (
        arith,
        eq_iff "olm.managed" key,
        eq_iff key "olm.managed",
        mark-lookup (is_webhook_configuration updated) managed_label key "true" marked,
        mark-lookup (is_crd updated) crd_label key "" base,
        lookup-copy_into key updated.labels current.labels,
      )

  merge_webhook_configuration-IsAlike :
      (current updated : Object Rest)
      → IsAlike updated (merge_webhook_configuration_for_update current updated)
  unfolding merge_webhook_configuration_for_update
  merge_webhook_configuration-IsAlike current updated =
      elim (Bool-cases (is_webhook_configuration updated)) [
        | inl on ↦ rw (on) (record { annotations = refl; labels = refl; group = refl; kind = refl })
        | inr off ↦
            rw (off) (record { annotations = refl; labels = refl; group = refl; kind = refl })
      ]

  merge_deployment-labels :
      (current updated : Object Rest)
      → ((merge_deployment_for_update current updated).labels ≡ updated.labels)
        × ((merge_deployment_for_update current updated).group ≡ updated.group)
        × ((merge_deployment_for_update current updated).kind ≡ updated.kind)
  unfolding merge_deployment_for_update
  merge_deployment-labels current updated = elim (Bool-cases (is_deployment updated)) [
    | inl on ↦ (rw (on) refl, rw (on) refl, rw (on) refl)
    | inr off ↦ (rw (off) refl, rw (off) refl, rw (off) refl)
  ]

  merge_deployment-wanted :
      (key : String) (current updated : Object Rest)
      → or_else
          (lookup key (merge_deployment_for_update current updated).annotations)
          (lookup key current.annotations)
        ≡ wanted_annotation
            (is_deployment updated)
            key
            (lookup key current.annotations)
            (lookup key updated.annotations)
  unfolding merge_deployment_for_update
  merge_deployment-wanted key current updated = elim (Bool-cases (is_deployment updated)) [
    | inl on ↦ rw (on) (
        keep_revision-wanted key (lookup deployment_revision_annotation current.annotations)
          updated.annotations current.annotations refl)
    | inr off ↦ rw (off) refl
  ]

  -- The kind of an object goes by its group and kind.
  is_deployment-alike :
      (a b : Object Rest) → b.group ≡ a.group → b.kind ≡ a.kind → is_deployment b ≡ is_deployment a
  is_deployment-alike a b g k = rw (g) (rw (k) refl)

  is_webhook_configuration-alike :
      (a b : Object Rest)
      → b.group ≡ a.group
      → b.kind ≡ a.kind
      → is_webhook_configuration b ≡ is_webhook_configuration a
  is_webhook_configuration-alike a b g k = rw (g) (rw (k) refl)

  is_crd-alike : (a b : Object Rest) → b.group ≡ a.group → b.kind ≡ a.kind → is_crd b ≡ is_crd a
  is_crd-alike a b g k = rw (g) (rw (k) refl)

  -- What stands under a key of a merged object.
  pub record HasMetadata (current updated r : Object Rest) (key : String) : Type 0 where
    pub annotation :
        lookup key r.annotations
        ≡ wanted_annotation
            (is_deployment updated)
            key
            (lookup key current.annotations)
            (lookup key updated.annotations)
    pub label :
        lookup key r.labels
        ≡ wanted_label
            (is_webhook_configuration updated)
            (is_crd updated)
            key
            (lookup key current.labels)
            (lookup key updated.labels)

  merge_metadata-HasMetadata :
      (current updated o : Object Rest) (key : String)
      → IsAlike
          (merge_deployment_for_update current
            (merge_webhook_configuration_for_update current updated))
          o
      → HasMetadata current updated (merge_metadata_for_update current o) key
  unfolding merge_metadata_for_update merge_annotations
  merge_metadata-HasMetadata current updated o key alike =
      let webhooks = merge_webhook_configuration_for_update current updated in
      let first = merge_webhook_configuration-IsAlike current updated in
      let (labels, group, kind) = merge_deployment-labels current webhooks in
      let g : o.group ≡ updated.group = alike.group ∙ group ∙ first.group in
      let k : o.kind ≡ updated.kind = alike.kind ∙ kind ∙ first.kind in
      let l : o.labels ≡ updated.labels = alike.labels ∙ labels ∙ first.labels in
      let annotated : Object Rest = record o {
        read_only = current.read_only;
        annotations = copy_into o.annotations current.annotations;
      } in
      record {
        annotation =
            lookup-copy_into key o.annotations current.annotations
            ∙ ap (λ a. or_else (lookup key a) (lookup key current.annotations)) alike.annotations
            ∙ merge_deployment-wanted key current webhooks
            ∙ ap
                (λ a.
                  wanted_annotation (is_deployment webhooks) key (lookup key current.annotations)
                    (lookup key a))
                first.annotations
            ∙ ap
                (λ b.
                  wanted_annotation b key (lookup key current.annotations)
                    (lookup key updated.annotations))
                (is_deployment-alike updated webhooks first.group first.kind);
        label =
            merge_labels-wanted key current annotated
            ∙ ap
                (λ x.
                  wanted_label (is_webhook_configuration annotated) (is_crd annotated) key
                    (lookup key current.labels) (lookup key x))
                l
            ∙ ap
                (λ b.
                  wanted_label b (is_crd annotated) key (lookup key current.labels)
                    (lookup key updated.labels))
                (is_webhook_configuration-alike updated annotated g k)
            ∙ ap
                (λ b.
                  wanted_label (is_webhook_configuration updated) b key (lookup key current.labels)
                    (lookup key updated.labels))
                (is_crd-alike updated annotated g k);
      }

  -- If a manifest is merged with an object, each annotation of the result is the manifest's or else the
  -- object's, but the revision of a deployment is the object's, if it has one; and each label is the
  -- manifest's or else the object's, but a resource definition and a webhook configuration carry the
  -- label that identifies them, and olm.managed is removed.
  pub merge_object_for_update-HasMetadata :
      (current updated : Object Rest) {r : Object Rest} (key : String)
      → merge_object_for_update current updated ≡ ok r
      → HasMetadata current updated r key
  unfolding merge_object_for_update
  merge_object_for_update-HasMetadata current updated key h =
      let prepared =
        merge_deployment_for_update current
          (merge_webhook_configuration_for_update current updated) in
      let (o, first, last) =
        and_then-ok
          (and_then (merge_service_for_update current prepared)
            (merge_service_account_for_update current))
          (λ o. ok (merge_metadata_for_update current o)) h in
      let (m, service, account) =
        and_then-ok (merge_service_for_update current prepared)
          (merge_service_account_for_update current) first in
      let done : merge_metadata_for_update current o ≡ _ = cc (last) in
      subst (λ x. HasMetadata current updated x key) done
        (merge_metadata-HasMetadata current updated o key (
          IsAlike-trans (merge_service-IsAlike current prepared service)
            (merge_service_account-IsAlike current m account)))
