-- ===== src/DeploymentController/Vouched.antt =====
-- What the conditions of the nodesets in a deployment's status rest on
-- (internal/controller/dataplane/openstackdataplanedeployment_controller.go).
use openstack_operator.Prelude.{
  true, false, String, Option, none, some, List, [], ◌∷◌, ◌≡◌, inl, inr, refl, sym, ◌∙◌, subst,
  arith, ◌==◌, eq_iff, lookup, lookup-insert, Bool-cases, Error,
}
use openstack_operator.Prelude.Control.{Flow, next, return, panicked, Everywhere, Everywhere->>=}
use openstack_operator.Conditions.{
  unknown_condition, true_condition, Reason, init_reason, is_true, ConditionLib,
}
use openstack_operator.Version.{OpenStackVersion}
use openstack_operator.Deployer.{Progress}
use openstack_operator.Deployer.Rounds.{deploy}
use openstack_operator.Deployer.Backed.{IsVouched, IsBacked, already, by_job, deploy-HasBacking}
use openstack_operator.DeploymentController.Inputs.{
  Target, DeploymentStatus, Cluster, node_set_deployment_ready, node_set_entry, set_entry,
  fresh_entries, init_conditions,
}
use openstack_operator.DeploymentController.Rounds.{
  Round, services_for, mark_running, deployer_of, collect, mirrored, add_error, after_deploy,
  deploy_node_set, deploy_node_sets,
}

module _ (lib : ConditionLib) {Mounts Summary : Type 0}
    (cluster : Cluster lib.Conditions Mounts Summary)
    (version : Option (OpenStackVersion lib.Conditions)) where
  open lib use {
    Conditions, set, set_mirror, status, kept, empty, status-set, status-kept, status-empty,
    status-set_mirror_ne,
  }

  -- Of the nodesets with a name, one has a service with the ready condition `t` and a job of it that
  -- succeeded.
  pub record IsServed (name t : String) : Type 0 where
    pub target : Target Mounts
    pub its_name : target.node_set.name ≡ name
    pub voucher : IsVouched (cluster.api version target) t

  -- Every condition of a nodeset that is True, beside the summary of them all, stands for a job.
  abbrev IsFounded : String → Conditions → Type 0
  IsFounded name cs =
      (t : String)
      → node_set_deployment_ready == t ≡ false
      → status t cs ≡ some is_true
      → IsServed name t

  abbrev pub AreFounded : DeploymentStatus Conditions Summary → Type 0
  AreFounded s = (name : String) → IsFounded name (node_set_entry lib name s)

  entry-set_hit :
      (name wanted : String) (cs : Conditions) (s : DeploymentStatus Conditions Summary)
      → name == wanted ≡ true
      → node_set_entry lib wanted (set_entry lib name cs s) ≡ cs
  unfolding node_set_entry set_entry
  entry-set_hit name wanted cs s e =
      ground (arith, lookup-insert name wanted cs s.node_set_conditions)

  entry-set_miss :
      (name wanted : String) (cs : Conditions) (s : DeploymentStatus Conditions Summary)
      → name == wanted ≡ false
      → node_set_entry lib wanted (set_entry lib name cs s) ≡ node_set_entry lib wanted s
  unfolding node_set_entry set_entry
  entry-set_miss name wanted cs s e =
      ground (arith, lookup-insert name wanted cs s.node_set_conditions)

  set_entry-AreFounded :
      (name : String) (cs : Conditions) (s : DeploymentStatus Conditions Summary)
      → IsFounded name cs
      → AreFounded s
      → AreFounded (set_entry lib name cs s)
  set_entry-AreFounded name cs s new old wanted t ne up = elim (Bool-cases (name == wanted)) [
    | inl e ↦
        subst (λ n. IsServed n t) ((eq_iff name wanted).0 e)
          (new t ne (subst (λ x. status t x ≡ some is_true) (entry-set_hit name wanted cs s e) up))
    | inr e ↦
        old wanted t ne
          (subst (λ x. status t x ≡ some is_true) (entry-set_miss name wanted cs s e) up)
  ]

  mirrored-IsFounded :
      (name : String) (cs : Conditions) → IsFounded name cs → IsFounded name (mirrored lib cs)
  mirrored-IsFounded name cs h t ne up =
      h t ne (sym (status-set_mirror_ne node_set_deployment_ready t cs ne) ∙ up)

  set-IsFounded :
      (name : String) (cs : Conditions)
      → IsFounded name cs
      → IsFounded name (set (true_condition node_set_deployment_ready) cs)
  set-IsFounded name cs h t ne up =
      h t ne (ground (arith, status-set (true_condition node_set_deployment_ready) t cs))

  kept-IsFounded :
      (name : String) (old new : Conditions)
      → IsFounded name old
      → IsFounded name new
      → IsFounded name (kept old new)
  kept-IsFounded name old new a b t ne up = elim (status-kept t old new up) [
    | inl h ↦ a t ne h
    | inr h ↦ b t ne h
  ]

  collect-AreFounded :
      (target : Target Mounts) (p : Progress Conditions Mounts Summary) (cs : Conditions)
      (s : DeploymentStatus Conditions Summary)
      → IsFounded target.node_set.name p.conditions
      → IsFounded target.node_set.name cs
      → AreFounded s
      → AreFounded (collect lib target p cs s)
  unfolding collect node_set_entry
  collect-AreFounded target p cs s a b old =
      set_entry-AreFounded target.node_set.name (kept p.conditions cs)
        (record s {
          execution_summaries = p.execution_summaries;
          container_images = p.container_images;
        })
        (kept-IsFounded target.node_set.name p.conditions cs a b) old

  -- What is backed by the entry that a deployer starts from is founded.
  pub IsBacked-IsServed :
      (target : Target Mounts) (s : DeploymentStatus Conditions Summary) (t : String)
      → AreFounded s
      → node_set_deployment_ready == t ≡ false
      → IsBacked lib (cluster.api version target) (node_set_entry lib target.node_set.name s) t
      → IsServed target.node_set.name t
  IsBacked-IsServed target s t old ne (already up) = old target.node_set.name t ne up
  IsBacked-IsServed target s t old ne (by_job v) = record {
    target = target;
    its_name = refl;
    voucher = v;
  }

  -- Of the entries that InitConditions makes, none is True.
  fresh_entries-None :
      (names : List String) (entries : List (String × Conditions))
      → ((name t : String) (cs : Conditions)
          → lookup name entries ≡ some cs
          → status t cs ≡ some is_true
          → IsServed name t)
      → (name t : String) (cs : Conditions)
      → lookup name (fresh_entries lib names entries) ≡ some cs
      → status t cs ≡ some is_true
      → IsServed name t
  unfolding fresh_entries
  fresh_entries-None [] entries h = h
  fresh_entries-None (first ∷ names) entries h = fresh_entries-None names _ (λ name t cs at up.
      let fresh = unknown_condition node_set_deployment_ready init_reason in
      elim (Bool-cases (first == name)) [
        | inl e ↦ absurd (
            ground (
              arith,
              lookup-insert first name (set fresh empty) entries,
              status-set fresh t empty,
              status-empty t,
            ))
        | inr e ↦
            h name t cs (ground (arith, lookup-insert first name (set fresh empty) entries)) up
      ])

  pub init_conditions-AreFounded :
      (names : List String) (s : DeploymentStatus Conditions Summary)
      → AreFounded (init_conditions lib names s)
  unfolding init_conditions node_set_entry
  init_conditions-AreFounded names s name t ne up =
      let entries = fresh_entries lib names [] in go (lookup name entries) refl up
    where
      go :
          (found : Option Conditions)
          → lookup name (fresh_entries lib names []) ≡ found
          → status t (elim found [ none ↦ empty | some cs ↦ cs ]) ≡ some is_true
          → IsServed name t
      go none at up = absurd (ground (arith, status-empty t))
      go (some cs) at up =
          fresh_entries-None names [] (λ name t cs at up. absurd (cc at)) name t cs at up

  -- A round keeps the conditions founded, and `Deployed` false.
  abbrev pub IsGood : Round Conditions Summary → Type 0
  IsGood r = AreFounded r.status × (r.status.deployed ≡ false)

  abbrev HasFounded : String → Progress Conditions Mounts Summary → Type 0
  HasFounded name p = IsFounded name p.conditions

  Everywhere-map :
      {P Q : Progress Conditions Mounts Summary → Type 0}
      (m : Flow (Progress Conditions Mounts Summary))
      → ((p : Progress Conditions Mounts Summary) → P p → Q p)
      → Everywhere P m
      → Everywhere Q m
  Everywhere-map (next p) f h = f p h
  Everywhere-map (return p e) f h = f p h
  Everywhere-map panicked f h = tt

  add_error-IsGood :
      (name : String) (e : Error) (reason : Option Reason) (r : Round Conditions Summary)
      (s : DeploymentStatus Conditions Summary)
      → AreFounded s × (s.deployed ≡ false)
      → Everywhere IsGood (add_error name e reason r s)
  unfolding add_error
  add_error-IsGood name e none r s h = tt
  add_error-IsGood name e (some reason) r s h = h

  collect-deployed :
      (target : Target Mounts) (p : Progress Conditions Mounts Summary) (cs : Conditions)
      (s : DeploymentStatus Conditions Summary)
      → (collect lib target p cs s).deployed ≡ s.deployed
  unfolding collect set_entry
  collect-deployed target p cs s = refl

  after_deploy-IsGood :
      (target : Target Mounts) (r : Round Conditions Summary)
      (m : Flow (Progress Conditions Mounts Summary))
      → Everywhere (HasFounded target.node_set.name) m
      → IsGood r
      → Everywhere IsGood (after_deploy lib target r m)
  unfolding after_deploy node_set_entry
  after_deploy-IsGood target r (next p) h (founded, down) =
      let cs = set (true_condition node_set_deployment_ready) (mirrored lib p.conditions) in
      (
        collect-AreFounded target p cs r.status h
            (set-IsFounded target.node_set.name _ (mirrored-IsFounded target.node_set.name _ h))
            founded,
        collect-deployed target p cs r.status ∙ down,
      )
  after_deploy-IsGood target r (return p none) h (founded, down) = (
    collect-AreFounded target p (mirrored lib p.conditions) r.status h
        (mirrored-IsFounded target.node_set.name _ h) founded,
    collect-deployed target p (mirrored lib p.conditions) r.status ∙ down,
  )
  after_deploy-IsGood target r (return p (some e)) h (founded, down) =
      add_error-IsGood target.node_set.name e _ r _ (
        collect-AreFounded target p (mirrored lib p.conditions) r.status h
            (mirrored-IsFounded target.node_set.name _ h) founded,
        collect-deployed target p (mirrored lib p.conditions) r.status ∙ down,
      )
  after_deploy-IsGood target r panicked h g = tt

  module _ (service_map : List (String × List String))
      (distinct : (target : Target Mounts) (name : String)
        → node_set_deployment_ready == (cluster.api version target).ready_type name ≡ false) where
    -- What Deploy is asked for a nodeset.
    abbrev pub outcome :
        Target Mounts
        → DeploymentStatus Conditions Summary
        → Flow (Progress Conditions Mounts Summary)
    outcome target s =
        deploy lib (cluster.api version target) (services_for service_map target.node_set.name)
          (deployer_of lib target s)

    outcome-HasFounded :
        (target : Target Mounts) (s : DeploymentStatus Conditions Summary)
        → AreFounded s
        → Everywhere (HasFounded target.node_set.name) (outcome target s)
    unfolding deployer_of
    outcome-HasFounded target s old =
        Everywhere-map (outcome target s)
          (λ p backed t ne up. IsBacked-IsServed target s t old ne (backed t up))
          (deploy-HasBacking lib (cluster.api version target)
            (node_set_entry lib target.node_set.name s)
            (services_for service_map target.node_set.name) (deployer_of lib target s) refl)

    pub mark_running-AreFounded :
        (s : DeploymentStatus Conditions Summary) → AreFounded s → AreFounded (mark_running lib s)
    unfolding mark_running node_set_entry
    mark_running-AreFounded s h = h

    mark_running-deployed :
        (s : DeploymentStatus Conditions Summary) → (mark_running lib s).deployed ≡ false
    unfolding mark_running
    mark_running-deployed s = refl

    pub deploy_node_set-IsGood :
        (target : Target Mounts) (r : Round Conditions Summary)
        → IsGood r
        → Everywhere IsGood (deploy_node_set lib cluster version service_map target r)
    unfolding deploy_node_set
    deploy_node_set-IsGood target r (founded, down) =
        let running = mark_running-AreFounded r.status founded in
        after_deploy-IsGood target (record r { status = mark_running lib r.status })
          (outcome target (mark_running lib r.status))
          (outcome-HasFounded target (mark_running lib r.status) running)
          (running, mark_running-deployed r.status)

    pub deploy_node_sets-IsGood :
        (targets : List (Target Mounts)) (r : Round Conditions Summary)
        → IsGood r
        → Everywhere IsGood (deploy_node_sets lib cluster version service_map targets r)
    unfolding deploy_node_sets
    deploy_node_sets-IsGood [] r g = g
    deploy_node_sets-IsGood (target ∷ targets) r g =
        Everywhere->>= IsGood _ (deploy_node_sets lib cluster version service_map targets)
          (deploy_node_set-IsGood target r g) (deploy_node_sets-IsGood targets)
