-- ===== src/Conditions.antt =====
-- The conditions of a resource. `condition.Conditions` belongs to lib-common, which is not in this
-- repository: it is a parameter, with the laws of that package on which the controllers rely.
use openstack_operator.Prelude.{
  Bool, true, false, String, Option, none, some, List, [], ◌∷◌, ◌≡◌, ◌⊎◌, refl, ◌==◌, if◌then◌else◌,
}

-- `corev1.ConditionStatus`
pub data Status : Type 0 where
  is_true is_false is_unknown : Status

-- condition.Reason, as far as the code chooses or tests one
pub data Reason : Type 0 where
  init_reason requested_reason error_reason : Reason
  job_reason : String → Reason  -- taken over from a Job's condition

pub data Severity : Type 0 where
  severity_info severity_warning severity_error : Severity

-- The calls of `condition.TrueCondition`, `FalseCondition` and `UnknownCondition`, with the type of
-- the condition first. The text of a message is left out, but for what the code puts into it.
pub data Condition : Type 0 where
  true_condition : String → Condition
  false_condition : String → Reason → Severity → Condition
  unknown_condition : String → Reason → Condition

abbrev pub type_of : Condition → String
type_of (true_condition t) = t
type_of (false_condition t _ _) = t
type_of (unknown_condition t _) = t

abbrev pub status_of : Condition → Status
status_of (true_condition _) = is_true
status_of (false_condition _ _ _) = is_false
status_of (unknown_condition _ _) = is_unknown

-- Which reason `TrueCondition` gives is the library's choice; no code here asks for it.
abbrev pub HasReason : Condition → Option Reason → Type 0
HasReason (true_condition _) r = Unit
HasReason (false_condition _ reason _) r = r ≡ some reason
HasReason (unknown_condition _ reason) r = r ≡ some reason

-- `Get(t).Severity`, as the code sets it; the empty severity is left out.
abbrev pub HasSeverity : Condition → Option Severity → Type 0
HasSeverity (true_condition _) s = Unit
HasSeverity (false_condition _ _ severity) s = s ≡ some severity
HasSeverity (unknown_condition _ _) s = Unit

-- The status of the last condition of a type in a list that `Init` is given.
abbrev pub status_in : String → List Condition → Option Status
status_in t [] = none
status_in t (c ∷ cs) = if type_of c == t then some (status_of c) else status_in t cs

abbrev pub ready_condition : String
ready_condition = "Ready"

pub record ConditionLib : Type 1 where
  pub Conditions : Type 0
  -- `Conditions{}` after `Init(&list)`, then `Set`, `Remove`, `AllSubConditionIsTrue`
  pub init : List Condition → Conditions
  pub set : Condition → Conditions → Conditions
  pub remove : String → Conditions → Conditions
  -- `Set(Mirror(t))`
  pub set_mirror : String → Conditions → Conditions
  pub all_sub_condition_is_true : Conditions → Bool
  -- `Get(t)`: nil, or the status and the reason of what it points to
  pub status : String → Conditions → Option Status
  pub reason : String → Conditions → Option Reason
  pub severity : String → Conditions → Option Severity
  -- `Conditions{}`, and nil
  pub empty : Conditions
  -- The list is a slice: after `Set` on a copy of the slice `old`, which is `new` then, the variable
  -- that was copied shows `kept old new`.
  pub kept : Conditions → Conditions → Conditions
  -- `Set` replaces the condition of its type and leaves the others as they are.
  pub status-set :
      (c : Condition) (t : String) (cs : Conditions)
      → status t (set c cs) ≡ (if type_of c == t then some (status_of c) else status t cs)
  pub reason-set_self :
      (c : Condition) (cs : Conditions) → HasReason c (reason (type_of c) (set c cs))
  pub reason-set_ne :
      (c : Condition) (t : String) (cs : Conditions)
      → (type_of c == t) ≡ false
      → reason t (set c cs) ≡ reason t cs
  pub status-remove :
      (s t : String) (cs : Conditions)
      → status t (remove s cs) ≡ (if s == t then none else status t cs)
  pub reason-remove_ne :
      (s t : String) (cs : Conditions) → (s == t) ≡ false → reason t (remove s cs) ≡ reason t cs
  -- `Init` starts over: beside `Ready` there is what the list holds. No type stands there twice.
  pub status-init :
      (t : String) (cs : List Condition)
      → (ready_condition == t) ≡ false
      → status t (init cs) ≡ status_in t cs
  -- What `Mirror(t)` returns is a condition of the type `t`.
  pub status-set_mirror_ne :
      (s t : String) (cs : Conditions) → (s == t) ≡ false → status t (set_mirror s cs) ≡ status t cs
  pub reason-set_mirror_ne :
      (s t : String) (cs : Conditions) → (s == t) ≡ false → reason t (set_mirror s cs) ≡ reason t cs
  pub severity-set_self :
      (c : Condition) (cs : Conditions) → HasSeverity c (severity (type_of c) (set c cs))
  pub severity-set_ne :
      (c : Condition) (t : String) (cs : Conditions)
      → (type_of c == t) ≡ false
      → severity t (set c cs) ≡ severity t cs
  pub severity-set_mirror_ne :
      (s t : String) (cs : Conditions)
      → (s == t) ≡ false
      → severity t (set_mirror s cs) ≡ severity t cs
  pub status-empty : (t : String) → status t empty ≡ none
  -- A slice that nothing was set on is as it was. Else it shows old entries or new ones.
  pub kept-self : (cs : Conditions) → kept cs cs ≡ cs
  pub status-kept :
      (t : String) (old new : Conditions)
      → status t (kept old new) ≡ some is_true
      → (status t old ≡ some is_true) ⊎ (status t new ≡ some is_true)

-- `Conditions.IsTrue(t)`
abbrev pub has_true : Option Status → Bool
has_true (some is_true) = true
has_true _ = false

-- `Conditions.IsFalse(t)`
abbrev pub has_false : Option Status → Bool
has_false (some is_false) = true
has_false _ = false

-- `Conditions.IsUnknown(t)`
abbrev pub has_unknown : Option Status → Bool
has_unknown none = true
has_unknown (some is_unknown) = true
has_unknown _ = false

pub has_true-some : (s : Option Status) → has_true s ≡ true → s ≡ some is_true
has_true-some none h = absurd (cc h)
has_true-some (some is_true) h = refl
has_true-some (some is_false) h = absurd (cc h)
has_true-some (some is_unknown) h = absurd (cc h)

-- The reason of a failed job that `condition.JobReasonBackoffLimitExceeded` names.
abbrev pub backoff_limit_exceeded : Reason
backoff_limit_exceeded = job_reason "BackoffLimitExceeded"

abbrev pub reason_eq : Reason → Reason → Bool
reason_eq init_reason init_reason = true
reason_eq requested_reason requested_reason = true
reason_eq error_reason error_reason = true
reason_eq (job_reason a) (job_reason b) = a == b
reason_eq _ _ = false
