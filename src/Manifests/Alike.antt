-- ===== src/Manifests/Alike.antt =====
-- What the merges of services and service accounts leave alone (internal/operator/bindata/merge.go).
use openstack_operator.Prelude.{
  String, List, ◌≡◌, refl, sym, ◌∙◌, ap, arith, Bool-cases, inl, inr, Outcome, ok, err, panic,
}
use openstack_operator.Manifests.{
  Field, absent, present, malformed, Object, is_core, set_cluster_ip, set_ip_family, set_secrets,
  set_image_pull_secrets, and_then, merge_service_for_update, merge_service_account_for_update,
}

module _ {Rest : Type 0} where
  pub and_then-ok :
      (m : Outcome (Object Rest)) (f : Object Rest → Outcome (Object Rest)) {r : Object Rest}
      → and_then m f ≡ ok r
      → (o : Object Rest) × (m ≡ ok o) × (f o ≡ ok r)
  and_then-ok (ok o) f h = (o, refl, h)
  and_then-ok (err e) f h = absurd (cc h)
  and_then-ok panic f h = absurd (cc h)

  -- Two objects with the same annotations, labels, group and kind.
  pub record IsAlike (a b : Object Rest) : Type 0 where
    pub annotations : b.annotations ≡ a.annotations
    pub labels : b.labels ≡ a.labels
    pub group : b.group ≡ a.group
    pub kind : b.kind ≡ a.kind

  pub IsAlike-refl : (a b : Object Rest) → a ≡ b → IsAlike a b
  IsAlike-refl a b e = record {
    annotations = ap (λ o. o.annotations) (sym e);
    labels = ap (λ o. o.labels) (sym e);
    group = ap (λ o. o.group) (sym e);
    kind = ap (λ o. o.kind) (sym e);
  }

  pub IsAlike-trans : {a b c : Object Rest} → IsAlike a b → IsAlike b c → IsAlike a c
  IsAlike-trans p q = record {
    annotations = q.annotations ∙ p.annotations;
    labels = q.labels ∙ p.labels;
    group = q.group ∙ p.group;
    kind = q.kind ∙ p.kind;
  }

  set_cluster_ip-IsAlike :
      (f : Field String) (o : Object Rest) {r : Object Rest}
      → set_cluster_ip f o ≡ ok r
      → IsAlike o r
  unfolding set_cluster_ip
  set_cluster_ip-IsAlike absent o h = IsAlike-refl o _ (cc h)
  set_cluster_ip-IsAlike (malformed e) o h = absurd (cc h)
  set_cluster_ip-IsAlike (present ip) o h = record {
    annotations = ground arith;
    labels = ground arith;
    group = ground arith;
    kind = ground arith;
  }

  set_ip_family-IsAlike :
      (f : Field String) (o : Object Rest) {r : Object Rest}
      → set_ip_family f o ≡ ok r
      → IsAlike o r
  unfolding set_ip_family
  set_ip_family-IsAlike absent o h = IsAlike-refl o _ (cc h)
  set_ip_family-IsAlike (malformed e) o h = absurd (cc h)
  set_ip_family-IsAlike (present ip) o h = record {
    annotations = ground arith;
    labels = ground arith;
    group = ground arith;
    kind = ground arith;
  }

  set_secrets-IsAlike :
      (f : Field (List String)) (o : Object Rest) {r : Object Rest}
      → set_secrets f o ≡ ok r
      → IsAlike o r
  unfolding set_secrets
  set_secrets-IsAlike absent o h = IsAlike-refl o _ (cc h)
  set_secrets-IsAlike (malformed e) o h = absurd (cc h)
  set_secrets-IsAlike (present s) o h = record {
    annotations = ground arith;
    labels = ground arith;
    group = ground arith;
    kind = ground arith;
  }

  set_image_pull_secrets-IsAlike :
      (f : Field (List String)) (o : Object Rest) {r : Object Rest}
      → set_image_pull_secrets f o ≡ ok r
      → IsAlike o r
  unfolding set_image_pull_secrets
  set_image_pull_secrets-IsAlike absent o h = IsAlike-refl o _ (cc h)
  set_image_pull_secrets-IsAlike (malformed e) o h = absurd (cc h)
  set_image_pull_secrets-IsAlike (present s) o h = record {
    annotations = ground arith;
    labels = ground arith;
    group = ground arith;
    kind = ground arith;
  }

  pub merge_service-IsAlike :
      (current updated : Object Rest) {r : Object Rest}
      → merge_service_for_update current updated ≡ ok r
      → IsAlike updated r
  unfolding merge_service_for_update
  merge_service-IsAlike current updated h = elim (Bool-cases (is_core "Service" updated)) [
    | inl core ↦
        let (o, first, second) =
          and_then-ok (set_cluster_ip current.cluster_ip updated) (set_ip_family current.ip_family)
            (rw (core, merge_service_for_update) at h) in
        IsAlike-trans (set_cluster_ip-IsAlike current.cluster_ip updated first)
          (set_ip_family-IsAlike current.ip_family o second)
    | inr other ↦ IsAlike-refl updated _ (cc (rw (other, merge_service_for_update) at h))
  ]

  pub merge_service_account-IsAlike :
      (current updated : Object Rest) {r : Object Rest}
      → merge_service_account_for_update current updated ≡ ok r
      → IsAlike updated r
  unfolding merge_service_account_for_update
  merge_service_account-IsAlike current updated h =
      elim (Bool-cases (is_core "ServiceAccount" updated)) [
        | inl core ↦
            let (o, first, second) =
              and_then-ok (set_secrets current.secrets updated)
                (set_image_pull_secrets current.image_pull_secrets)
                (rw (core, merge_service_account_for_update) at h) in
            IsAlike-trans (set_secrets-IsAlike current.secrets updated first)
              (set_image_pull_secrets-IsAlike current.image_pull_secrets o second)
        | inr other ↦
            IsAlike-refl updated _ (cc (rw (other, merge_service_account_for_update) at h))
      ]
