-- ===== src/Scenarios/Library.antt =====
-- A condition library: a table from a type to its condition.
use openstack_operator.Prelude.{
  false, String, Option, none, some, List, [], ◌∷◌, ◌==◌, ◌≡◌, refl, inr, arith, if◌then◌else◌,
  eq_refl,
}
use openstack_operator.Conditions.{
  Condition, true_condition, false_condition, unknown_condition, Status, Reason, type_of, status_of,
  HasReason, Severity, HasSeverity, status_in, init_reason, ConditionLib,
}

abbrev pub Table : Type 0
Table = String → Option Condition

abbrev reason_of : Condition → Option Reason
reason_of (true_condition _) = none
reason_of (false_condition _ reason _) = some reason
reason_of (unknown_condition _ reason) = some reason

abbrev pub listed_condition : List Condition → Table
listed_condition [] t = none
listed_condition (c ∷ cs) t = if type_of c == t then some c else listed_condition cs t

abbrev status_at : Option Condition → Option Status
status_at none = none
status_at (some c) = some (status_of c)

abbrev reason_at : Option Condition → Option Reason
reason_at none = none
reason_at (some c) = reason_of c

pub status_at-listed :
    (t : String) (cs : List Condition) → status_at (listed_condition cs t) ≡ status_in t cs
status_at-listed t [] = refl
status_at-listed t (c ∷ cs) = ground (arith, status_at-listed t cs)

abbrev put : String → Option Condition → Table → Table
put s c table t = if s == t then c else table t

pub HasReason-reason_of : (c : Condition) → HasReason c (reason_of c)
HasReason-reason_of (true_condition _) = tt
HasReason-reason_of (false_condition _ _ _) = refl
HasReason-reason_of (unknown_condition _ _) = refl

pub at-put :
    {B : Type 0} (f : Option Condition → B) (s t : String) (c : Option Condition) (table : Table)
    → f (put s c table t) ≡ (if s == t then f c else f (table t))
at-put f s t c table = ground arith

pub at-put_ne :
    {B : Type 0} (f : Option Condition → B) (s t : String) (c : Option Condition) (table : Table)
    → s == t ≡ false
    → f (put s c table t) ≡ f (table t)
at-put_ne f s t c table h = ground arith

abbrev severity_of : Condition → Option Severity
severity_of (false_condition _ _ severity) = some severity
severity_of _ = none

abbrev severity_at : Option Condition → Option Severity
severity_at none = none
severity_at (some c) = severity_of c

pub HasSeverity-severity_of : (c : Condition) → HasSeverity c (severity_of c)
HasSeverity-severity_of (true_condition _) = tt
HasSeverity-severity_of (false_condition _ _ _) = refl
HasSeverity-severity_of (unknown_condition _ _) = tt

abbrev pub table_lib : ConditionLib
table_lib = record {
  Conditions = Table;
  init = listed_condition;
  set = λ c. put (type_of c) (some c);
  remove = λ s. put s none;
  set_mirror = λ s. put s (some (unknown_condition s init_reason));
  all_sub_condition_is_true = λ table. false;
  status = λ t table. status_at (table t);
  reason = λ t table. reason_at (table t);
  severity = λ t table. severity_at (table t);
  empty = λ t. none;
  kept = λ old new. new;
  status-set = λ c t cs. at-put status_at (type_of c) t (some c) cs;
  reason-set_self = λ c cs. rw (eq_refl (type_of c)) (HasReason-reason_of c);
  reason-set_ne = λ c t cs h. at-put_ne reason_at (type_of c) t (some c) cs h;
  status-remove = λ s t cs. at-put status_at s t none cs;
  reason-remove_ne = λ s t cs h. at-put_ne reason_at s t none cs h;
  status-init = λ t cs h. status_at-listed t cs;
  status-set_mirror_ne =
      λ s t cs h. at-put_ne status_at s t (some (unknown_condition s init_reason)) cs h;
  reason-set_mirror_ne =
      λ s t cs h. at-put_ne reason_at s t (some (unknown_condition s init_reason)) cs h;
  severity-set_self = λ c cs. rw (eq_refl (type_of c)) (HasSeverity-severity_of c);
  severity-set_ne = λ c t cs h. at-put_ne severity_at (type_of c) t (some c) cs h;
  severity-set_mirror_ne =
      λ s t cs h. at-put_ne severity_at s t (some (unknown_condition s init_reason)) cs h;
  status-empty = λ t. refl;
  kept-self = λ cs. refl;
  status-kept = λ t old new h. inr h;
}
