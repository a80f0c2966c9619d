-- ===== src/DeploymentController/Unchanged.antt =====
-- The checks of the inputs leave the status as it is, unless they stop
-- (internal/controller/dataplane/openstackdataplanedeployment_controller.go).
use openstack_operator.Prelude.{
  Bool, true, false, not, ◌&&◌, String, Option, none, some, List, [], ◌∷◌, ◌≡◌, refl, ◌==◌,
  if◌then◌else◌, Bool-cases, inl, inr, Fetch, found, not_found, failed, Error,
}
use openstack_operator.Prelude.Control.{Flow, next, return, panicked, ◌>>=◌}
use openstack_operator.Conditions.{ConditionLib}
use openstack_operator.Services.{not_found_error, requested}
use openstack_operator.Deployer.{DataPlaneService}
use openstack_operator.DeploymentController.Inputs.{
  Target, DeploymentStatus, Cluster, TlsCheck, tls_valid, tls_missing, tls_invalid, Certificates,
  ensured, pending, refused, set_entry, refuse_set_up, add_target, fetch_target, list_node_sets,
  refuse_inputs, ensure_certs, certify, has_no_certs, certify_service, certify_services,
  check_inputs,
}

module _ (lib : ConditionLib) {Mounts Summary : Type 0}
    (cluster : Cluster lib.Conditions Mounts Summary) where
  open lib use {Conditions}

  -- What goes on goes on from `s`; what returns has not touched `Deployed`.
  abbrev pub Stays :
      DeploymentStatus Conditions Summary → Flow (DeploymentStatus Conditions Summary) → Type 0
  Stays s (next t) = t ≡ s
  Stays s (return t e) = t.deployed ≡ s.deployed
  Stays s panicked = Unit

  Stays->>= :
      (s : DeploymentStatus Conditions Summary) (m : Flow (DeploymentStatus Conditions Summary))
      (f : DeploymentStatus Conditions Summary → Flow (DeploymentStatus Conditions Summary))
      → Stays s m
      → Stays s (f s)
      → Stays s (m >>= f)
  Stays->>= s (next t) f m h = rw (m) h
  Stays->>= s (return t e) f m h = m
  Stays->>= s panicked f m h = tt

  refuse_inputs-Stays :
      (name : String) (e : Error) (s : DeploymentStatus Conditions Summary)
      → Stays s (refuse_inputs lib cluster name e s)
  unfolding refuse_inputs set_entry
  refuse_inputs-Stays name e s = refl

  ensure_certs-Stays :
      (target : Target Mounts) (service : DataPlaneService) (keys : List String)
      (s : DeploymentStatus Conditions Summary)
      → Stays s (ensure_certs lib cluster target service keys s)
  unfolding ensure_certs
  ensure_certs-Stays target service [] s = refl
  ensure_certs-Stays target service (key ∷ keys) s =
      go (cluster.ensure_tls_certs target service key) (ensure_certs-Stays target service keys s)
    where
      go :
          (c : Certificates)
          → Stays s (ensure_certs lib cluster target service keys s)
          → Stays s (elim c [
            | ensured ↦ ensure_certs lib cluster target service keys s
            | pending ↦ return s none
            | refused e ↦ refuse_inputs lib cluster target.node_set.name e s
          ])
      go ensured rest = rest
      go pending rest = refl
      go (refused e) rest = refuse_inputs-Stays target.node_set.name e s

  certify-Stays :
      (target : Target Mounts) (fetched : Fetch DataPlaneService)
      (s : DeploymentStatus Conditions Summary)
      → Stays s (certify lib cluster target fetched s)
  unfolding certify
  certify-Stays target (found service) s = go service.tls_certs
    where
      go :
          (keys : Option (List String))
          → Stays s (elim keys [
            | none ↦ next s
            | some keys ↦ ensure_certs lib cluster target service keys s
          ])
      go none = refl
      go (some keys) = ensure_certs-Stays target service keys s
  certify-Stays target not_found s = refuse_inputs-Stays target.node_set.name not_found_error s
  certify-Stays target (failed e) s = refuse_inputs-Stays target.node_set.name e s

  certify_service-Stays :
      (target : Target Mounts) (name : String) (fetched : Fetch DataPlaneService)
      (s : DeploymentStatus Conditions Summary)
      → Stays s (certify_service lib cluster target name fetched s)
  unfolding certify_service
  certify_service-Stays target name (found service) s =
      elim (Bool-cases (not (name == service.service.edpm_service_type) && has_no_certs service)) [
        | inl e ↦ rw (e) (certify-Stays target _ s)
        | inr e ↦ rw (e) (certify-Stays target (found service) s)
      ]
  certify_service-Stays target name not_found s = certify-Stays target not_found s
  certify_service-Stays target name (failed e) s = certify-Stays target (failed e) s

  certify_services-Stays :
      (target : Target Mounts) (names : List String) (s : DeploymentStatus Conditions Summary)
      → Stays s (certify_services lib cluster target names s)
  unfolding certify_services
  certify_services-Stays target [] s = refl
  certify_services-Stays target (name ∷ names) s =
      Stays->>= s _ (certify_services lib cluster target names)
        (certify_service-Stays target name (cluster.service name) s)
        (certify_services-Stays target names s)

  -- The two tests of a round of check_inputs.
  gated-Stays :
      (up tls : Bool) (s : DeploymentStatus Conditions Summary)
      (m : Flow (DeploymentStatus Conditions Summary))
      (f : DeploymentStatus Conditions Summary → Flow (DeploymentStatus Conditions Summary))
      → Stays s m
      → Stays s (f s)
      → Stays s (if not up then return s none else (if tls then m else next s) >>= f)
  gated-Stays false tls s m f a b = refl
  gated-Stays true true s m f a b = Stays->>= s m f a b
  gated-Stays true false s m f a b = b

  pub check_inputs-Stays :
      (service_override : List String) (targets : List (Target Mounts))
      (s : DeploymentStatus Conditions Summary)
      → Stays s (check_inputs lib cluster service_override targets s)
  unfolding check_inputs
  check_inputs-Stays service_override [] s = refl
  check_inputs-Stays service_override (target ∷ targets) s =
      gated-Stays target.is_set_up target.tls_enabled s _
        (check_inputs lib cluster service_override targets)
        (certify_services-Stays target (requested service_override target.node_set) s)
        (check_inputs-Stays service_override targets s)

  -- What listing the nodesets leaves: the status as it was, or `Deployed` as it was.
  abbrev pub Listed :
      DeploymentStatus Conditions Summary
      → DeploymentStatus Conditions Summary × Fetch (List (Target Mounts))
      → Type 0
  Listed s (t, found targets) = t ≡ s
  Listed s (t, not_found) = t.deployed ≡ s.deployed
  Listed s (t, failed e) = t.deployed ≡ s.deployed

  add_target-Listed :
      (target : Target Mounts) (check : TlsCheck)
      (rest : DeploymentStatus Conditions Summary × Fetch (List (Target Mounts)))
      (s : DeploymentStatus Conditions Summary)
      → Listed s rest
      → Listed s (add_target lib target check rest s)
  unfolding add_target refuse_set_up
  add_target-Listed target tls_missing rest s h = refl
  add_target-Listed target (tls_invalid e) rest s h = refl
  add_target-Listed target tls_valid (t, found targets) s h = h
  add_target-Listed target tls_valid (t, not_found) s h = h
  add_target-Listed target tls_valid (t, failed e) s h = h

  fetch_target-Listed :
      (fetched : Fetch (Target Mounts))
      (rest : DeploymentStatus Conditions Summary × Fetch (List (Target Mounts)))
      (s : DeploymentStatus Conditions Summary)
      → Listed s rest
      → Listed s (fetch_target lib cluster fetched rest s)
  unfolding fetch_target
  fetch_target-Listed (found target) rest s h =
      add_target-Listed target (cluster.validate_tls target) rest s h
  fetch_target-Listed not_found rest s h = refl
  fetch_target-Listed (failed e) rest s h = refl

  pub list_node_sets-Listed :
      (names : List String) (s : DeploymentStatus Conditions Summary)
      → Listed s (list_node_sets lib cluster names s)
  unfolding list_node_sets
  list_node_sets-Listed [] s = refl
  list_node_sets-Listed (name ∷ names) s =
      fetch_target-Listed (cluster.node_set name) (list_node_sets lib cluster names s) s
        (list_node_sets-Listed names s)
