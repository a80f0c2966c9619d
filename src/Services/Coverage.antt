-- ===== src/Services/Coverage.antt =====
-- That `dedupe` of internal/dataplane/service.go drops no service without a stand-in.
use openstack_operator.Prelude.{
  true, String, none, List, [], ◌∷◌, ◌++◌, ◌==◌, ◌≡◌, ◌⊎◌, inl, inr, refl, sym, subst, ◌≢◌, ◌∙◌,
  arith, contains, eq_iff, eq_refl, Fetch, found, not_found, failed, Bool-cases,
}
use openstack_operator.Nodesets.{Service}
use openstack_operator.Services.{
  Seen, Round, go_on, stop, resume, dedupe_round, service_type, add_service, dedupe_loop, dedupe,
}
use openstack_operator.Services.Dedupe.{contains-append, Keeps, dedupe_loop_induction}

module _ (get : String → Fetch Service) (globals : List String) where
  -- One of the services listed exists and is of the type.
  pub record Covered (t : String) (services : List String) : Type 0 where
    pub name : String
    pub service : Service
    pub listed_there : contains services name ≡ true
    pub fetched : get name ≡ found service
    pub of_type : service_type service ≡ t

  Covered-append :
      {t : String} (services : List String) (x : String)
      → Covered t services
      → Covered t (services ++ x ∷ [])
  Covered-append services x c = record {
    name = c.name;
    service = c.service;
    listed_there = contains-append services x c.name ∙ ground (arith, c.listed_there);
    fetched = c.fetched;
    of_type = c.of_type;
  }

  -- Each type that was met is covered.
  abbrev AllCovered : Seen → Type 0
  AllCovered seen = (t : String) → contains seen.types t ≡ true → Covered t seen.services

  contains-append_self :
      (services : List String) (x : String) → contains (services ++ x ∷ []) x ≡ true
  contains-append_self services x = contains-append services x x ∙ ground (arith, eq_refl x)

  Covered-added :
      (services : List String) (svc : String) (service : Service)
      → get svc ≡ found service
      → Covered (service_type service) (services ++ svc ∷ [])
  Covered-added services svc service fetched = record {
    name = svc;
    service = service;
    listed_there = contains-append_self services svc;
    fetched = fetched;
    of_type = refl;
  }

  -- A service is covered by one of its type, or was recorded for all nodesets before.
  abbrev pub IsHandled : String → Service → List String → Type 0
  IsHandled svc service services =
      Covered (service_type service) services
      ⊎ ((service.deploy_on_all_node_sets ≡ true) × (contains globals svc ≡ true))

  AllCovered-append :
      (seen : Seen) (svc : String) (service : Service) (t : String)
      → get svc ≡ found service
      → AllCovered seen
      → contains (seen.types ++ service_type service ∷ []) t ≡ true
      → Covered t (seen.services ++ svc ∷ [])
  AllCovered-append seen svc service t fetched covered h =
      elim (Bool-cases (contains seen.types t)) [
        | inl before ↦ Covered-append seen.services svc (covered t before)
        | inr new ↦ record {
          name = svc;
          service = service;
          listed_there = contains-append_self seen.services svc;
          fetched = fetched;
          of_type = ground (
            arith,
            contains-append seen.types (service_type service) t,
            eq_iff (service_type service) t,
          );
        }
      ]

  add_service-AllCovered :
      (seen : Seen) (svc : String) (service : Service)
      → get svc ≡ found service
      → AllCovered seen
      → AllCovered (add_service globals svc service seen)
        × IsHandled svc service (add_service globals svc service seen).services
  unfolding add_service
  add_service-AllCovered seen svc service fetched covered =
      elim (Bool-cases (contains seen.types (service_type service))) [
        | inl met ↦ rw met (covered, inl (covered (service_type service) met))
        | inr new ↦ elim (Bool-cases (contains seen.services svc)) [
          | inl there ↦
              rw (new, there)
                (
                  covered,
                  inl (record {
                    name = svc;
                    service = service;
                    listed_there = there;
                    fetched = fetched;
                    of_type = refl;
                  }),
                )
          | inr fresh ↦ elim (Bool-cases service.deploy_on_all_node_sets) [
            | inr local ↦
                rw (new, fresh, local)
                  (
                    λ t. AllCovered-append seen svc service t fetched covered,
                    inl (Covered-added seen.services svc service fetched),
                  )
            | inl all ↦ elim (Bool-cases (contains globals svc)) [
              | inl recorded ↦ rw (new, fresh, all, recorded) (covered, inr (refl, refl))
              | inr first ↦
                  rw (new, fresh, all, first)
                    (
                      λ t. AllCovered-append seen svc service t fetched covered,
                      inl (Covered-added seen.services svc service fetched),
                    )
            ]
          ]
        ]
      ]

  Covered-round :
      {t : String} (svc : String) (o : Fetch Service) (seen : Seen)
      → Covered t seen.services
      → Keeps (Covered t) (dedupe_round globals svc o seen)
  unfolding dedupe_round add_service
  Covered-round svc (found service) seen c = ground (arith, Covered-append seen.services svc c)
  Covered-round svc not_found seen c = ground (arith, Covered-append seen.services svc c)
  Covered-round svc (failed e) seen c = c

  -- A service that is handled stays so.
  IsHandled-loop :
      (services : List String) (svc : String) (service : Service) (seen : Seen)
      → IsHandled svc service seen.services
      → IsHandled svc service (dedupe_loop get globals services seen).services
  IsHandled-loop services svc service seen (inl c) = inl (
      dedupe_loop_induction (Covered (service_type service)) get globals
        (λ x s. Covered-round x (get x) s) services seen c)
  IsHandled-loop services svc service seen (inr recorded) = inr recorded

  -- A round that goes on keeps the types covered, and handles its service; one that stops has an
  -- error.
  abbrev RoundIsGood : String → Round → Type 0
  RoundIsGood svc (go_on seen) =
      AllCovered seen
      × ((service : Service) → get svc ≡ found service → IsHandled svc service seen.services)
  RoundIsGood svc (stop result) = result.error ≢ none

  same_service : {a b : Service} → found a ≡ found b → a ≡ b
  same_service h = cc h

  dedupe_round-RoundIsGood :
      (svc : String) (o : Fetch Service) (seen : Seen)
      → get svc ≡ o
      → AllCovered seen
      → RoundIsGood svc (dedupe_round globals svc o seen)
  unfolding dedupe_round
  dedupe_round-RoundIsGood svc (found service) seen fetched covered =
      let added = add_service-AllCovered seen svc service fetched covered in
      (
        added.0,
        λ other h.
            subst (λ s. IsHandled svc s (add_service globals svc service seen).services)
              (same_service (sym fetched ∙ h)) added.1,
      )
  dedupe_round-RoundIsGood svc not_found seen fetched covered =
      elim (Bool-cases (contains seen.services svc)) [
        | inl twice ↦ rw twice (λ e. cc e)
        | inr fresh ↦ rw fresh (
          λ t h. Covered-append seen.services svc (covered t h),
          λ service h. absurd (cc (fetched, h)),
        )
      ]
  dedupe_round-RoundIsGood svc (failed e) seen fetched covered = λ h. cc h

  IsHandled-resume :
      (x : String) (xs : List String) (r : Round) (svc : String) (service : Service)
      → RoundIsGood x r
      → get svc ≡ found service
      → (resume r (dedupe_loop get globals xs)).error ≡ none
      → (x == svc ≡ true)
        ⊎ ((seen : Seen)
            → AllCovered seen
            → (dedupe_loop get globals xs seen).error ≡ none
            → IsHandled svc service (dedupe_loop get globals xs seen).services)
      → IsHandled svc service (resume r (dedupe_loop get globals xs)).services
  IsHandled-resume x xs (go_on seen) svc service good fetched fine (inl here) =
      IsHandled-loop xs svc service seen (
        subst (λ y. IsHandled y service seen.services) ((eq_iff x svc).0 here)
          (good.1 service (rw ((eq_iff x svc).0 here) fetched)))
  IsHandled-resume x xs (go_on seen) svc service good fetched fine (inr later) =
      later seen good.0 fine
  IsHandled-resume x xs (stop result) svc service good fetched fine w = absurd (good fine)

  dedupe_loop-IsHandled :
      (services : List String) (svc : String) (service : Service) (seen : Seen)
      → AllCovered seen
      → get svc ≡ found service
      → contains services svc ≡ true
      → (dedupe_loop get globals services seen).error ≡ none
      → IsHandled svc service (dedupe_loop get globals services seen).services
  unfolding dedupe_loop
  dedupe_loop-IsHandled [] svc service seen covered fetched listed fine =
      absurd (unfold contains in cc listed)
  dedupe_loop-IsHandled (x ∷ xs) svc service seen covered fetched listed fine =
      IsHandled-resume x xs (dedupe_round globals x (get x) seen) svc service
        (dedupe_round-RoundIsGood x (get x) seen refl covered) fetched fine
        (elim (Bool-cases (x == svc)) [
          | inl here ↦ inl here
          | inr elsewhere ↦ inr (λ next c f.
              dedupe_loop-IsHandled xs svc service next c fetched
                (unfold contains in ground (arith, listed, elsewhere)) f)
        ])

  -- Where `dedupe` returns no error, each service that was asked for and exists is deployed, or one
  -- of its service type is, or it is one for all nodesets that was recorded before.
  pub dedupe-IsHandled :
      (services : List String) (svc : String) (service : Service)
      → get svc ≡ found service
      → contains services svc ≡ true
      → (dedupe get services globals).error ≡ none
      → IsHandled svc service (dedupe get services globals).services
  unfolding dedupe
  dedupe-IsHandled services svc service =
      dedupe_loop-IsHandled services svc service _ (λ t h. absurd (unfold contains in cc h))
