-- ===== src/NodeSetController/Versions.antt =====
-- Where the deployed version of a nodeset comes from: `checkDeployment` of
-- internal/controller/dataplane/openstackdataplanenodeset_controller.go.
use openstack_operator.Prelude.{
  Bool, true, false, String, Option, none, some, List, [], ◌∷◌, ◌≡◌, ◌⊎◌, inl, inr, refl, ◌∙◌,
  subst, arith, Memᴰ, if◌then◌else◌, Bool-cases, Fetch, found, not_found, failed, Error,
}
use mathlib.Core.List.Memᴰ.{head, tail}
use openstack_operator.Conditions.{ConditionLib, has_true}
use openstack_operator.Nodesets.{Service}
use openstack_operator.DeploymentController.Inputs.{node_set_deployment_ready}
use openstack_operator.NodeSetController.{
  TargetDeployment, Spec, NodeSetStatus, NodeSetCluster, Checked, checked, check_failed,
  check_cert_secrets_changed, Check, Step, go_on, stop, take_over, services_run, is_update,
  update_version, update_versions,
}
use openstack_operator.NodeSetController.Deployments.{
  conditions_of, with_result, adopt, after_certs, after_vars, is_outdated, check_ready,
}
use openstack_operator.NodeSetController.Verdicts.{is_up_to_date}

-- What a loop over services does to the version `from`: nothing, or it has met an update.
pub data UpdateOf (get : String → Fetch Service) (version : String) (names : List String)
    (from v : String) : Type 0 where
  unchanged : v ≡ from → UpdateOf get version names from v
  met :
      (name : String) (service : Service)
      → Memᴰ name names
      → get name ≡ found service
      → is_update service ≡ true
      → v ≡ version
      → UpdateOf get version names from v

UpdateOf-tail :
    (get : String → Fetch Service) (version : String) (name : String) (names : List String)
    {from v : String}
    → UpdateOf get version names from v
    → UpdateOf get version (name ∷ names) from v
UpdateOf-tail get version name names (unchanged e) = unchanged e
UpdateOf-tail get version name names (met n service at its_service update e) =
    met n service (tail at) its_service update e

-- After a round that has set the version, where there was an update.
UpdateOf-round :
    (get : String → Fetch Service) (version : String) (name : String) (names : List String)
    (service : Service) {from v : String}
    → get name ≡ found service
    → UpdateOf get version names (if is_update service then version else from) v
    → UpdateOf get version (name ∷ names) from v
UpdateOf-round get version name names service {from} its_service (unchanged e) =
    elim (Bool-cases (is_update service)) [
      | inl update ↦ met name service (head refl) its_service update (ground arith)
      | inr other ↦ unchanged (ground arith)
    ]
UpdateOf-round get version name names service its_service (met n other at its update e) =
    met n other (tail at) its update e

module _ {Conditions Summary : Type 0} (get : String → Fetch Service) (version : String) where
  abbrev UpdatesBy :
      List String
      → NodeSetStatus Conditions Summary
      → NodeSetStatus Conditions Summary × Option Error
      → Type 0
  UpdatesBy names s (t, e) = UpdateOf get version names s.deployed_version t.deployed_version

  if-version :
      (b : Bool) (s : NodeSetStatus Conditions Summary)
      → (if b then record s { deployed_version = version } else s).deployed_version
        ≡ (if b then version else s.deployed_version)
  if-version true s = refl
  if-version false s = refl

  update_version-UpdatesBy :
      (name : String) (names : List String) (fetched : Fetch Service)
      (rest : NodeSetStatus Conditions Summary → NodeSetStatus Conditions Summary × Option Error)
      (s : NodeSetStatus Conditions Summary)
      → get name ≡ fetched
      → ((t : NodeSetStatus Conditions Summary) → UpdatesBy names t (rest t))
      → UpdatesBy (name ∷ names) s (update_version fetched version rest s)
  unfolding update_version
  update_version-UpdatesBy name names (found service) rest s its_service others =
      let t : NodeSetStatus Conditions Summary =
        if is_update service then record s { deployed_version = version } else s in
      UpdateOf-round get version name names service its_service (
        subst (λ from. UpdateOf get version names from (rest t).0.deployed_version)
          (if-version (is_update service) s) (others t))
  update_version-UpdatesBy name names not_found rest s its_service others = unchanged refl
  update_version-UpdatesBy name names (failed e) rest s its_service others = unchanged refl

  update_versions-UpdatesBy :
      (names : List String) (s : NodeSetStatus Conditions Summary)
      → UpdatesBy names s (update_versions get version names s)
  unfolding update_versions
  update_versions-UpdatesBy [] s = unchanged refl
  update_versions-UpdatesBy (name ∷ names) s =
      update_version-UpdatesBy name names (get name) (update_versions get version names) s refl
        (update_versions-UpdatesBy names)

module _ (lib : ConditionLib) {Summary : Type 0} (cluster : NodeSetCluster lib.Conditions Summary)
    (spec : Spec) where
  open lib use {Conditions, status}

  -- A deployment that is complete and up to date, and runs an update service.
  pub record IsUpdate (d : TargetDeployment Conditions Summary) : Type 0 where
    pub complete :
        has_true (status node_set_deployment_ready (conditions_of lib spec.name d)) ≡ true
    pub current : is_up_to_date lib cluster spec d ≡ true
    pub name : String
    pub service : Service
    pub listed_in : Memᴰ name (services_run spec d)
    pub is_found : cluster.service name ≡ found service
    pub update : is_update service ≡ true

  -- The version that a round leaves, whether the loop goes on or stops.
  abbrev pub version_after : Step Conditions Summary → String
  version_after (go_on c) = c.status.deployed_version
  version_after (stop c e) = c.status.deployed_version

  -- What a round for `d` makes of a version.
  abbrev pub Updates : TargetDeployment Conditions Summary → String → String → Type 0
  Updates d from v = (v ≡ from) ⊎ (IsUpdate d × (v ≡ d.deployed_version))

  with_result-version :
      (c : Check Conditions Summary) (result : NodeSetStatus Conditions Summary × Option Error)
      → version_after (with_result lib cluster spec c result) ≡ result.0.deployed_version
  with_result-version c (s, none) = refl
  with_result-version c (s, some e) = refl

  module _ (d : TargetDeployment Conditions Summary)
      (complete : has_true (status node_set_deployment_ready (conditions_of lib spec.name d))
        ≡ true) where
    adopt-Updates :
        (c : Check Conditions Summary)
        → is_up_to_date lib cluster spec d ≡ true
        → Updates d c.status.deployed_version (version_after (adopt lib cluster spec d c))
    unfolding adopt take_over
    adopt-Updates c current =
        let taken : NodeSetStatus Conditions Summary = take_over spec.name d c.status in
        let result =
          update_versions cluster.service d.deployed_version (services_run spec d) taken in
        let ready : Check Conditions Summary = record c {
          flags = record c.flags { ready = true };
        } in
        let after = with_result-version ready result in
        elim (update_versions-UpdatesBy cluster.service d.deployed_version (services_run spec d)
          taken) [
            | unchanged e ↦ inl (after ∙ e)
            | met name service at its_service update e ↦ inr (
              record {
                complete = complete;
                current = current;
                name = name;
                service = service;
                listed_in = at;
                is_found = its_service;
                update = update;
              },
              after ∙ e,
            )
          ]

    after_certs-Updates :
        (c : Check Conditions Summary) (certs : Checked)
        → (certs ≡ checked false → is_up_to_date lib cluster spec d ≡ true)
        → Updates d c.status.deployed_version
            (version_after (after_certs lib cluster spec d c certs))
    unfolding after_certs
    after_certs-Updates c (check_failed e) current = inl refl
    after_certs-Updates c (checked true) current = inl refl
    after_certs-Updates c (checked false) current = adopt-Updates c (current refl)

    after_vars-Updates :
        (c : Check Conditions Summary) (vars : Checked)
        → (vars ≡ checked false
            → check_cert_secrets_changed cluster.cert_hashes d.secret_hashes ≡ checked false
            → is_up_to_date lib cluster spec d ≡ true)
        → Updates d c.status.deployed_version (version_after (after_vars lib cluster spec d c vars))
    unfolding after_vars
    after_vars-Updates c (check_failed e) current = inl refl
    after_vars-Updates c (checked true) current = inl refl
    after_vars-Updates c (checked false) current = after_certs-Updates c _ (current refl)

    pub check_ready-Updates :
        (c : Check Conditions Summary)
        → Updates d c.status.deployed_version (version_after (check_ready lib cluster spec d c))
    unfolding check_ready
    check_ready-Updates c = elim (Bool-cases (is_outdated lib cluster spec d)) [
      | inl old ↦ rw (old) (inl refl)
      | inr new ↦
          rw (new) (after_vars-Updates c _ (λ vars certs. rw (new) (rw (vars) (rw (certs) refl))))
    ]
