-- ===== src/Services/Entries.antt =====
-- What `DedupeServices` of internal/dataplane/service.go gives each nodeset.
use openstack_operator.Prelude.{
  String, Option, none, some, List, [], ◌∷◌, ◌==◌, ◌≡◌, ◌⊎◌, inl, inr, refl, ◌∙◌, subst, All,
  lookup, insert, lookup-insert, lookup-insert_self, Fetch, Error, Bool-cases,
}
use openstack_operator.Nodesets.{NodeSet, Service}
use openstack_operator.Services.{dedupe, requested, dedupe_nodesets, dedupe_services}
use openstack_operator.Services.Dedupe.{HasNoDuplicate, dedupe-HasNoDuplicate}

-- The map has a list of services for a nodeset, in which none stands twice.
pub record HasServices (name : String) (service_map : List (String × List String)) : Type 0 where
  pub services : List String
  pub at_name : lookup name service_map ≡ some services
  pub distinct : HasNoDuplicate services

HasServices-insert :
    (name k : String) (services : List String) (service_map : List (String × List String))
    → HasNoDuplicate services
    → HasServices k service_map
    → HasServices k (insert name services service_map)
HasServices-insert name k services service_map d h = elim (Bool-cases (name == k)) [
  | inl same ↦ record {
    services = services;
    at_name = lookup-insert name k services service_map ∙ rw same;
    distinct = d;
  }
  | inr other ↦ record {
    services = h.services;
    at_name = lookup-insert name k services service_map ∙ rw other h.at_name;
    distinct = h.distinct;
  }
]

Option-cases : (o : Option Error) → (o ≡ none) ⊎ ((e : Error) × (o ≡ some e))
Option-cases none = inl refl
Option-cases (some e) = inr (e, refl)

module _ (get : String → Fetch Service) (service_override : List String) where
  dedupe_nodesets-HasServices :
      (nodesets : List NodeSet) (before after : List (String × List String)) (globals : List String)
      → dedupe_nodesets get service_override nodesets before globals ≡ (some after, none)
      → ((k : String) → HasServices k before → HasServices k after)
        × All (λ nodeset. HasServices nodeset.name after) nodesets
  unfolding dedupe_nodesets
  dedupe_nodesets-HasServices [] before after globals h =
      (λ k s. subst (HasServices k) (same_map h) s, tt)
    where
      same_map :
          {a b : List (String × List String)}
          → ◌≡◌ {A = Option (List (String × List String)) × Option Error}
              (some a, none)
              (some b, none)
          → a ≡ b
      same_map e = cc e
  dedupe_nodesets-HasServices (nodeset ∷ nodesets) before after globals h =
      let result = dedupe get (requested service_override nodeset) globals in
      let distinct = dedupe-HasNoDuplicate get (requested service_override nodeset) globals in
      elim (Option-cases result.error) [
        | inr (e, stopped) ↦ absurd (cc (rw (stopped, dedupe_nodesets) at h))
        | inl fine ↦
            let rest =
              dedupe_nodesets-HasServices nodesets (insert nodeset.name result.services before)
                after result.globals (rw (fine, dedupe_nodesets) at h) in
            (
              λ k s. rest.0 k (HasServices-insert nodeset.name k result.services before distinct s),
              (
                rest.0 nodeset.name (record {
                  services = result.services;
                  at_name = lookup-insert_self nodeset.name result.services before;
                  distinct = distinct;
                }),
                rest.1,
              ),
            )
      ]

  -- Where `DedupeServices` returns no error, its map has an entry for each nodeset that it was
  -- given, in which no service stands twice.
  pub dedupe_services-HasServices :
      (nodesets : List NodeSet) (service_map : List (String × List String))
      → dedupe_services get nodesets service_override ≡ (some service_map, none)
      → All (λ nodeset. HasServices nodeset.name service_map) nodesets
  unfolding dedupe_services
  dedupe_services-HasServices nodesets service_map h =
      (dedupe_nodesets-HasServices nodesets [] service_map [] h).1
