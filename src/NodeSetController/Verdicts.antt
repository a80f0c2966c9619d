-- ===== src/NodeSetController/Verdicts.antt =====
-- The flags that `checkDeployment` returns
-- (internal/controller/dataplane/openstackdataplanenodeset_controller.go).
use openstack_operator.Prelude.{
  Bool, true, false, not, ◌&&◌, String, Option, none, some, List, [], ◌∷◌, ◌++◌, ◌≡◌, ◌⊎◌, inl, inr,
  refl, sym, ◌∙◌, ap, subst, All, Bool-cases, listed, Error,
}
use openstack_operator.Conditions.{ConditionLib, has_true, has_false}
use openstack_operator.DeploymentController.Inputs.{node_set_deployment_ready}
use openstack_operator.NodeSetController.{
  TargetDeployment, Spec, NodeSetStatus, Flags, no_flags, NodeSetCluster, Checked, checked,
  check_failed, check_ansible_vars_from_changed, check_cert_secrets_changed, Check, Step, go_on,
  stop, relevant, is_latest, record_statuses,
}
use openstack_operator.NodeSetController.Deployments.{
  conditions_of, with_result, adopt, after_certs, after_vars, is_outdated, check_ready, check_other,
  check_round, resume, check_loop, first_check, with_deployments, check_deployment,
}

module _ (lib : ConditionLib) {Summary : Type 0} (cluster : NodeSetCluster lib.Conditions Summary)
    (spec : Spec) where
  open lib use {Conditions, status}

  abbrev is_unchanged : Checked → Bool
  is_unchanged (checked b) = not b
  is_unchanged (check_failed e) = false

  -- A deployment was made from the nodeset's configuration, and none of the secrets and config maps
  -- that it used has changed since.
  abbrev pub is_up_to_date : TargetDeployment Conditions Summary → Bool
  is_up_to_date d =
      not (is_outdated lib cluster spec d)
      && is_unchanged
          (check_ansible_vars_from_changed cluster.ansible_vars d.config_map_hashes d.secret_hashes)
      && is_unchanged (check_cert_secrets_changed cluster.cert_hashes d.secret_hashes)

  abbrev pub HasFailed : TargetDeployment Conditions Summary → Type 0
  HasFailed d = cluster.is_error (conditions_of lib spec.name d) ≡ true

  -- The flags that one deployment stands for.
  pub record HasFlags (d : TargetDeployment Conditions Summary) (f : Flags) : Type 0 where
    pub counted : cluster.is_error (conditions_of lib spec.name d) ≡ false
    pub ready : f.ready ≡ (
        has_true (status node_set_deployment_ready (conditions_of lib spec.name d))
        && is_up_to_date d)
    pub running :
        f.running ≡ has_false (status node_set_deployment_ready (conditions_of lib spec.name d))
    pub failing : f.failing ≡ false

  -- What a list of deployments makes of the flags `before`: the last that has not failed decides.
  pub data Verdict (before : Flags) (ds : List (TargetDeployment Conditions Summary)) (f : Flags)
      : Type 0 where
    undecided : All HasFailed ds → f ≡ before → Verdict before ds f
    decided :
        (earlier : List (TargetDeployment Conditions Summary))
        (d : TargetDeployment Conditions Summary)
        (later : List (TargetDeployment Conditions Summary))
        → ds ≡ earlier ++ d ∷ later
        → HasFlags d f
        → All HasFailed later
        → Verdict before ds f

  with_result-flags :
      (c : Check Conditions Summary) (result : NodeSetStatus Conditions Summary × Option Error)
      {c' : Check Conditions Summary}
      → with_result lib cluster spec c result ≡ go_on c'
      → c'.flags ≡ c.flags
  with_result-flags c (s, none) h = cc h
  with_result-flags c (s, some e) h = absurd (cc h)

  -- The flags after a deployment that is complete.
  abbrev FlagsAfter : Check Conditions Summary → Check Conditions Summary → Bool → Type 0
  FlagsAfter c c' ready = c'.flags ≡ record c.flags { ready = ready }

  adopt-flags :
      (d : TargetDeployment Conditions Summary) (c : Check Conditions Summary)
      {c' : Check Conditions Summary}
      → adopt lib cluster spec d c ≡ go_on c'
      → FlagsAfter c c' true
  unfolding adopt
  adopt-flags d c h = with_result-flags (record c { flags = record c.flags { ready = true } }) _ h

  after_certs-flags :
      (d : TargetDeployment Conditions Summary) (c : Check Conditions Summary) (certs : Checked)
      {c' : Check Conditions Summary}
      → c.flags.ready ≡ false
      → after_certs lib cluster spec d c certs ≡ go_on c'
      → FlagsAfter c c' (is_unchanged certs)
  unfolding after_certs
  after_certs-flags d c (check_failed e) off h = absurd (cc h)
  after_certs-flags d c (checked true) off h = cc (off, h)
  after_certs-flags d c (checked false) off h = adopt-flags d c h

  after_vars-flags :
      (d : TargetDeployment Conditions Summary) (c : Check Conditions Summary) (vars : Checked)
      {c' : Check Conditions Summary}
      → c.flags.ready ≡ false
      → after_vars lib cluster spec d c vars ≡ go_on c'
      → FlagsAfter c c' (
          is_unchanged vars
          && is_unchanged (check_cert_secrets_changed cluster.cert_hashes d.secret_hashes))
  unfolding after_vars
  after_vars-flags d c (check_failed e) off h = absurd (cc h)
  after_vars-flags d c (checked true) off h = cc (off, h)
  after_vars-flags d c (checked false) off h = after_certs-flags d c _ off h

  check_ready-flags :
      (d : TargetDeployment Conditions Summary) (c : Check Conditions Summary)
      {c' : Check Conditions Summary}
      → c.flags.ready ≡ false
      → check_ready lib cluster spec d c ≡ go_on c'
      → FlagsAfter c c' (is_up_to_date d)
  unfolding check_ready
  check_ready-flags d c {c'} off h = elim (Bool-cases (is_outdated lib cluster spec d)) [
    | inl old ↦ rw (old) (cc (off, rw (old, check_ready) at h))
    | inr new ↦ rw (new) (after_vars-flags d c _ off (rw (new, check_ready) at h))
  ]

  check_other-flags :
      (d : TargetDeployment Conditions Summary) (c : Check Conditions Summary)
      {c' : Check Conditions Summary}
      → cluster.is_error (conditions_of lib spec.name d) ≡ false
      → check_other lib cluster spec (conditions_of lib spec.name d) d c ≡ go_on c'
      → HasFlags d c'.flags
  unfolding check_other
  check_other-flags d c {c'} counted h =
      let cs = conditions_of lib spec.name d in
      let base : Check Conditions Summary = record c {
        flags = record {
          ready = false;
          running = has_false (status node_set_deployment_ready cs);
          failing = false;
        };
      } in
      elim (Bool-cases (has_true (status node_set_deployment_ready cs))) [
        | inl up ↦
            let same = check_ready-flags d base refl (rw (up, check_other) at h) in
            record {
              counted = counted;
              ready = rw (up) (ap (λ f. f.ready) same);
              running = ap (λ f. f.running) same;
              failing = ap (λ f. f.failing) same;
            }
        | inr down ↦
            let same : base ≡ c' = cc (rw (down, check_other) at h) in
            record {
              counted = counted;
              ready = rw (down) (ap (λ x. x.flags.ready) (sym same));
              running = ap (λ x. x.flags.running) (sym same);
              failing = ap (λ x. x.flags.failing) (sym same);
            }
      ]

  -- A round that goes on: the deployment has failed and counts for nothing, or it decides.
  check_round-flags :
      (latest : Bool) (d : TargetDeployment Conditions Summary) (c : Check Conditions Summary)
      {c' : Check Conditions Summary}
      → check_round lib cluster spec latest d c ≡ go_on c'
      → (HasFailed d × (c'.flags ≡ c.flags)) ⊎ HasFlags d c'.flags
  unfolding check_round
  check_round-flags latest d c {c'} h =
      let cs = conditions_of lib spec.name d in
      let recorded : Check Conditions Summary = record c {
        status = record_statuses cs d c.status;
      } in
      elim (Bool-cases (cluster.is_error cs)) [
        | inl wrong ↦ elim (Bool-cases latest) [
          | inl last ↦ absurd (cc (rw (wrong, last, check_round) at h))
          | inr older ↦
              let same : recorded ≡ c' = cc (rw (wrong, older, check_round) at h) in
              inl (wrong, ap (λ x. x.flags) (sym same))
        ]
        | inr fine ↦ inr (check_other-flags d recorded fine (rw (fine, check_round) at h))
      ]

  -- A round before the deployments that are left
  extend-Verdict :
      (d : TargetDeployment Conditions Summary) (ds : List (TargetDeployment Conditions Summary))
      {before middle after : Flags}
      → (HasFailed d × (middle ≡ before)) ⊎ HasFlags d middle
      → Verdict middle ds after
      → Verdict before (d ∷ ds) after
  extend-Verdict d ds (inl (wrong, same)) (undecided all e) = undecided (wrong, all) (e ∙ same)
  extend-Verdict d ds {after = after} (inr own) (undecided all e) =
      decided [] d ds refl (subst (HasFlags d) (sym e) own) all
  extend-Verdict d ds first (decided earlier x later split own all) =
      decided (d ∷ earlier) x later (ap (λ l. d ∷ l) split) own all

  check_loop-Verdict :
      (latest : String → Bool) (ds : List (TargetDeployment Conditions Summary))
      (c : Check Conditions Summary) {c' : Check Conditions Summary}
      → check_loop lib cluster spec latest ds c ≡ (c', none)
      → Verdict c.flags ds c'.flags
  unfolding check_loop
  check_loop-Verdict latest [] c h = undecided tt (ap (λ x. x.0.flags) (sym h))
  check_loop-Verdict latest (d ∷ ds) c {c'} h =
      go (check_round lib cluster spec (latest d.name) d c) refl h
        (λ middle rest. check_loop-Verdict latest ds middle rest)
    where
      go :
          (step : Step Conditions Summary)
          → check_round lib cluster spec (latest d.name) d c ≡ step
          → resume lib cluster spec step (check_loop lib cluster spec latest ds) ≡ (c', none)
          → ((middle : Check Conditions Summary)
              → check_loop lib cluster spec latest ds middle ≡ (c', none)
              → Verdict middle.flags ds c'.flags)
          → Verdict c.flags (d ∷ ds) c'.flags
      go (go_on middle) e rest others =
          extend-Verdict d ds (check_round-flags (latest d.name) d c e) (others middle rest)
      go (stop middle error) e rest others = absurd (cc rest)

  -- If checkDeployment returns no error, its flags are those of the last deployment of the nodeset, in
  -- the order of the sort, that has not failed: ready where that one is complete and up to date,
  -- running where its condition is False. If all have failed, no flag is set.
  pub check_deployment-Verdict :
      (s : NodeSetStatus Conditions Summary)
      (deployments : List (TargetDeployment Conditions Summary)) {c : Check Conditions Summary}
      → cluster.deployments ≡ listed deployments
      → check_deployment lib cluster spec s ≡ (c, none)
      → Verdict no_flags (cluster.sort (relevant spec.name deployments)) c.flags
  unfolding check_deployment with_deployments
  check_deployment-Verdict s deployments answer h =
      let sorted = cluster.sort (relevant spec.name deployments) in
      check_loop-Verdict (is_latest sorted) sorted (first_check lib cluster spec s)
        (rw (answer, check_deployment) at h)
