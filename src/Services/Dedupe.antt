-- ===== src/Services/Dedupe.antt =====
-- What `dedupe` keeps of the services of a nodeset, and of the services that are deployed on all of
-- them (internal/dataplane/service.go).
use openstack_operator.Prelude.{
  true, false, ◌||◌, String, List, [], ◌∷◌, ◌++◌, ◌==◌, ◌≡◌, refl, arith, contains, eq_iff, Fetch,
  found, not_found, failed,
}
use openstack_operator.Nodesets.{Service}
use openstack_operator.Services.{
  Seen, Deduped, Round, go_on, stop, resume, dedupe_round, service_type, add_service, dedupe_loop,
  dedupe,
}

-- No text stands twice in the list.
abbrev pub HasNoDuplicate : List String → Type 0
HasNoDuplicate [] = Unit
HasNoDuplicate (x ∷ xs) = (contains xs x ≡ false) × HasNoDuplicate xs

pub contains-append :
    (xs : List String) (x v : String) → contains (xs ++ x ∷ []) v ≡ (contains xs v || x == v)
unfolding contains
contains-append [] x v = ground arith
contains-append (y ∷ xs) x v = ground (arith, contains-append xs x v)

HasNoDuplicate-append :
    (xs : List String) (x : String)
    → HasNoDuplicate xs
    → contains xs x ≡ false
    → HasNoDuplicate (xs ++ x ∷ [])
unfolding contains
HasNoDuplicate-append [] x h f = (refl, tt)
HasNoDuplicate-append (y ∷ xs) x h f =
    ground (arith, contains-append xs x y, HasNoDuplicate-append xs x, eq_iff x y, eq_iff y x)

add_service-HasNoDuplicate :
    (globals : List String) (svc : String) (service : Service) (seen : Seen)
    → HasNoDuplicate seen.services
    → HasNoDuplicate (add_service globals svc service seen).services
unfolding add_service
add_service-HasNoDuplicate globals svc service seen h =
    ground (arith, HasNoDuplicate-append seen.services svc)

module _ (P : List String → Type 0) where
  -- The services after a round, whether it returns or not.
  abbrev pub Keeps : Round → Type 0
  Keeps (go_on seen) = P seen.services
  Keeps (stop result) = P result.services

  Keeps-resume :
      (r : Round) (loop : Seen → Deduped)
      → Keeps r
      → ((seen : Seen) → P seen.services → P (loop seen).services)
      → P (resume r loop).services
  Keeps-resume (go_on seen) loop h k = k seen h
  Keeps-resume (stop result) loop h k = h

  pub dedupe_loop_induction :
      (get : String → Fetch Service) (globals : List String)
      → ((svc : String) (seen : Seen)
          → P seen.services
          → Keeps (dedupe_round globals svc (get svc) seen))
      → (services : List String) (seen : Seen) → P seen.services
      → P (dedupe_loop get globals services seen).services
  unfolding dedupe_loop
  dedupe_loop_induction get globals keep [] seen h = h
  dedupe_loop_induction get globals keep (svc ∷ services) seen h =
      Keeps-resume (dedupe_round globals svc (get svc) seen) (dedupe_loop get globals services)
        (keep svc seen h) (dedupe_loop_induction get globals keep services)

dedupe_round-HasNoDuplicate :
    (globals : List String) (svc : String) (o : Fetch Service) (seen : Seen)
    → HasNoDuplicate seen.services
    → Keeps HasNoDuplicate (dedupe_round globals svc o seen)
unfolding dedupe_round
dedupe_round-HasNoDuplicate globals svc (found service) seen h =
    add_service-HasNoDuplicate globals svc service seen h
dedupe_round-HasNoDuplicate globals svc not_found seen h =
    ground (arith, HasNoDuplicate-append seen.services svc)
dedupe_round-HasNoDuplicate globals svc (failed e) seen h = h

-- The services that are deployed on a nodeset are listed once each, whatever the API server
-- answers.
pub dedupe-HasNoDuplicate :
    (get : String → Fetch Service) (services globals : List String)
    → HasNoDuplicate (dedupe get services globals).services
unfolding dedupe
dedupe-HasNoDuplicate get services globals =
    dedupe_loop_induction HasNoDuplicate get globals
      (λ svc seen. dedupe_round-HasNoDuplicate globals svc (get svc) seen) services _ tt

-- A service other than `g` is added, or none.
dedupe_round-recorded :
    (globals : List String) (g svc : String) (service : Service) (o : Fetch Service) (seen : Seen)
    → (g == svc ≡ true → o ≡ found service)
    → service.deploy_on_all_node_sets ≡ true
    → contains globals g ≡ true
    → contains seen.services g ≡ false
    → Keeps (λ services. contains services g ≡ false) (dedupe_round globals svc o seen)
unfolding dedupe_round
dedupe_round-recorded globals g svc service (found other) seen same global recorded h =
    ground (arith, contains-append seen.services svc g, eq_iff svc g, eq_iff g svc)
dedupe_round-recorded globals g svc service not_found seen same global recorded h =
    ground (arith, contains-append seen.services svc g, eq_iff svc g, eq_iff g svc)
dedupe_round-recorded globals g svc service (failed e) seen same global recorded h = h

-- A service that is deployed on all nodesets, and is recorded as such by the nodesets before, is
-- not deployed on this one again.
pub dedupe-recorded :
    (get : String → Fetch Service) (services globals : List String) (g : String) (service : Service)
    → get g ≡ found service
    → service.deploy_on_all_node_sets ≡ true
    → contains globals g ≡ true
    → contains (dedupe get services globals).services g ≡ false
unfolding dedupe
dedupe-recorded get services globals g service fetched global recorded =
    dedupe_loop_induction (λ services. contains services g ≡ false) get globals
      (λ svc seen.
        dedupe_round-recorded globals g svc service (get svc) seen
          (λ e. rw (← (eq_iff g svc).0 e) fetched) global recorded)
      services _ (unfold contains in refl)

-- Of two services of a nodeset that are deployed on all nodesets only the second is recorded, and
-- a later nodeset that lists the first is given it again.
pub dedupe-forgets :
    (get : String → Fetch Service) (g h : String) (service other : Service)
    → get g ≡ found service
    → get h ≡ found other
    → service.deploy_on_all_node_sets ≡ true
    → other.deploy_on_all_node_sets ≡ true
    → g == h ≡ false
    → h == g ≡ false
    → service_type service == service_type other ≡ false
    → ((dedupe get (g ∷ h ∷ []) []).globals ≡ h ∷ [])
      × ((dedupe get (g ∷ []) (dedupe get (g ∷ h ∷ []) []).globals).services ≡ g ∷ [])
unfolding dedupe dedupe_loop dedupe_round add_service contains
dedupe-forgets get g h service other fg fh a b d d' t = rw fg (rw fh (ground arith))
