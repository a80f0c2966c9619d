-- ===== src/VersionController/Run.antt =====
-- Stages that run one after the other, each with a condition of its own: where one waits, those
-- before it are done and those after it have not begun.
use openstack_operator.Prelude.{
  false, String, none, some, List, [], ◌∷◌, ◌≡◌, ◌⊎◌, inl, inr, ◌∙◌, subst, arith, All, Error, ◌==◌,
  eq_refl,
}
use openstack_operator.Conditions.{
  ConditionLib, Reason, Severity, false_condition, true_condition, is_true, is_false,
}
use openstack_operator.Prelude.Control.{
  Flow, next, return, panicked, ◌>>=◌, return-injective, return-ne-none, panicked-ne-return,
}
use openstack_operator.VersionController.Stages.{mark_true}

-- No text of the list is `t`.
abbrev pub IsFresh : String → List String → Type 0
IsFresh t names = All (λ u. (t == u) ≡ false) names

abbrev pub AreDistinct : List String → Type 0
AreDistinct [] = Unit
AreDistinct (t ∷ names) = IsFresh t names × All (λ u. (u == t) ≡ false) names × AreDistinct names

module _ (lib : ConditionLib) where
  open lib use {Conditions, set, status, status-set}

  abbrev pub Stage : Type 0
  Stage = String × (Conditions → Flow Conditions)

  -- What a stage can do with its own condition, and to no other.
  pub data StageResult (t : String) (cs : Conditions) (m : Flow Conditions) : Type 0 where
    passes : m ≡ next (mark_true lib t cs) → StageResult t cs m
    waits :
        (reason : Reason) (severity : Severity)
        → m ≡ return (set (false_condition t reason severity) cs) none
        → StageResult t cs m
    fails : (e : Error) → m ≡ return cs (some e) → StageResult t cs m
    crashes : m ≡ panicked → StageResult t cs m

  abbrev pub IsStage : Stage → Type 0
  IsStage (t, m) = (cs : Conditions) → StageResult t cs (m cs)

  abbrev pub names_of : List Stage → List String
  names_of [] = []
  names_of ((t, m) ∷ stages) = t ∷ names_of stages

  unfoldable pub run : List Stage → Conditions → Flow Conditions
  run [] cs = next cs
  run ((t, m) ∷ stages) cs = m cs >>= run stages

  -- The first condition that is False has only True ones before it, and those after it are as they
  -- were.
  abbrev pub StoppedAt : Conditions → Conditions → List String → Type 0
  StoppedAt before after [] = ⊥
  StoppedAt before after (t ∷ names) =
      ((status t after ≡ some is_false) × All (λ u. status u after ≡ status u before) names)
      ⊎ ((status t after ≡ some is_true) × StoppedAt before after names)

  status-mark_true :
      (t u : String) (cs : Conditions)
      → (t == u) ≡ false
      → status u (mark_true lib t cs) ≡ status u cs
  unfolding mark_true
  status-mark_true t u cs h = status-set (true_condition t) u cs ∙ rw h

  status-mark_true_self :
      (t : String) (cs : Conditions) → status t (mark_true lib t cs) ≡ some is_true
  unfolding mark_true
  status-mark_true_self t cs = status-set (true_condition t) t cs ∙ simp eq_refl

  status-wait :
      (t u : String) (reason : Reason) (severity : Severity) (cs : Conditions)
      → (t == u) ≡ false
      → status u (set (false_condition t reason severity) cs) ≡ status u cs
  status-wait t u reason severity cs h = status-set (false_condition t reason severity) u cs ∙ rw h

  status-wait_self :
      (t : String) (reason : Reason) (severity : Severity) (cs : Conditions)
      → status t (set (false_condition t reason severity) cs) ≡ some is_false
  status-wait_self t reason severity cs =
      status-set (false_condition t reason severity) t cs ∙ simp eq_refl

  -- A run changes the conditions of its stages alone.
  status-run :
      (stages : List Stage) (u : String) (cs : Conditions) {after : Conditions}
      → All IsStage stages
      → All (λ t. (t == u) ≡ false) (names_of stages)
      → run stages cs ≡ return after none
      → status u after ≡ status u cs
  unfolding run
  status-run [] u cs is fresh h = ground arith
  status-run ((t, m) ∷ stages) u cs {after} is fresh h = elim (is.0 cs) [
    | passes p ↦
        status-run stages u (mark_true lib t cs) is.1 fresh.1 (rw p at h)
        ∙ status-mark_true t u cs fresh.0
    | waits reason severity p ↦
        subst (λ x. status u x ≡ status u cs) (return-injective (rw p at h))
          (status-wait t u reason severity cs fresh.0)
    | fails e p ↦ return-ne-none (rw p at h)
    | crashes p ↦ panicked-ne-return (rw p at h)
  ]

  StoppedAt-mark_true :
      (t : String) (cs after : Conditions) (names : List String)
      → IsFresh t names
      → StoppedAt (mark_true lib t cs) after names
      → StoppedAt cs after names
  StoppedAt-mark_true t cs after [] fresh s = s
  StoppedAt-mark_true t cs after (u ∷ names) fresh (inl (waiting, others)) =
      inl (waiting, later names fresh.1 others)
    where
      later :
          (rest : List String)
          → IsFresh t rest
          → All (λ u. status u after ≡ status u (mark_true lib t cs)) rest
          → All (λ u. status u after ≡ status u cs) rest
      later [] f o = tt
      later (u ∷ rest) f o = (o.0 ∙ status-mark_true t u cs f.0, later rest f.1 o.1)
  StoppedAt-mark_true t cs after (u ∷ names) fresh (inr (up, rest)) =
      inr (up, StoppedAt-mark_true t cs after names fresh.1 rest)

  All-wait :
      (names : List String) (t : String) (reason : Reason) (severity : Severity) (cs : Conditions)
      → IsFresh t names
      → All (λ u. status u (set (false_condition t reason severity) cs) ≡ status u cs) names
  All-wait [] t reason severity cs fresh = tt
  All-wait (u ∷ names) t reason severity cs fresh =
      (status-wait t u reason severity cs fresh.0, All-wait names t reason severity cs fresh.1)

  pub StoppedAt-run :
      (stages : List Stage) (cs after : Conditions)
      → All IsStage stages
      → AreDistinct (names_of stages)
      → run stages cs ≡ return after none
      → StoppedAt cs after (names_of stages)
  unfolding run
  StoppedAt-run [] cs after is distinct h = absurd (cc h)
  StoppedAt-run ((t, m) ∷ stages) cs after is distinct h = elim (is.0 cs) [
    | passes p ↦
        let rest = rw p at h in
        inr (
          status-run stages t (mark_true lib t cs) is.1 distinct.1 rest
              ∙ status-mark_true_self t cs,
          StoppedAt-mark_true t cs after (names_of stages) distinct.0
              (StoppedAt-run stages (mark_true lib t cs) after is.1 distinct.2 rest),
        )
    | waits reason severity p ↦
        let ends = return-injective (rw p at h) in
        inl (
          subst (λ x. status t x ≡ some is_false) ends (status-wait_self t reason severity cs),
          subst (λ x. All (λ u. status u x ≡ status u cs) (names_of stages)) ends
              (All-wait (names_of stages) t reason severity cs distinct.0),
        )
    | fails e p ↦ return-ne-none (rw p at h)
    | crashes p ↦ panicked-ne-return (rw p at h)
  ]
