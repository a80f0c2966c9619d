-- ===== src/Overrides.antt =====
-- The overrides of an operator's deployment: internal/operator/override.go. A quantity of
-- Kubernetes is an argument, with `Value() > 0` and `String()` of it.
pub mod Tolerations
pub mod Defaults
use openstack_operator.Prelude.{
  ℕ, zero, suc, Bool, true, false, not, String, Option, none, some, List, [], ◌∷◌, ◌++◌, ◌==◌,
  if◌then◌else◌, is_empty, get_elem?,
}

pub record Toleration : Type 0 where
  pub key : String
  pub operator : String
  pub value : String
  pub effect : String
  pub toleration_seconds : Option ℕ

pub record ResourceList : Type 0 where
  pub cpu : String
  pub memory : String

pub record Resource : Type 0 where
  pub requests : Option ResourceList
  pub limits : Option ResourceList

pub record Container : Type 0 where
  pub image : String
  pub env : List (String × String)
  pub resources : Resource

pub record Deployment : Type 0 where
  pub replicas : Option ℕ
  pub manager : Container
  pub tolerations : List Toleration

pub record Operator : Type 0 where
  pub name : String
  pub namespace : String
  pub deployment : Deployment

-- `Operator{}`
abbrev pub no_operator : Operator
no_operator = record {
  name = "";
  namespace = "";
  deployment = record {
    replicas = none;
    manager = record {
      image = "";
      env = [];
      resources = record { requests = none; limits = none };
    };
    tolerations = [];
  };
}

module _ {ℓ} {A : Type ℓ} where
  -- slices.IndexFunc, with none for -1
  unfoldable pub index_func : List A → (A → Bool) → Option ℕ
  index_func [] f = none
  index_func (x ∷ xs) f =
      let rest = index_func xs f in
      if f x then some 0 else elim rest [ some i ↦ some (suc i) | none ↦ none ]

  -- s[i] = x
  unfoldable pub set_elem : List A → ℕ → A → List A
  set_elem [] i x = []
  set_elem (y ∷ ys) zero x = x ∷ ys
  set_elem (y ∷ ys) (suc i) x = y ∷ set_elem ys i x

-- A round of the loop of `mergeTolerations`.
unfoldable pub merge_toleration : List Toleration → Toleration → List Toleration
unfolding index_func set_elem
merge_toleration merged custom = elim (index_func merged (λ c. c.key == custom.key)) [
  | some idx ↦ set_elem merged idx custom
  | none ↦ merged ++ custom ∷ []
]

unfoldable pub merge_loop : List Toleration → List Toleration → List Toleration
unfolding merge_toleration
merge_loop merged [] = merged
merge_loop merged (custom ∷ customs) = merge_loop (merge_toleration merged custom) customs

unfoldable pub merge_tolerations : List Toleration → List Toleration → List Toleration
unfolding merge_loop
merge_tolerations defaults custom = if is_empty custom then defaults else merge_loop defaults custom

-- The index, with none for -1, and the operator; both branches of the test of the index.
unfoldable pub get_operator : List Operator → String → Option ℕ × Operator
unfolding index_func get_elem?
get_operator operators name = elim (index_func operators (λ c. c.name == name)) [
  | some idx ↦ elim (get_elem? operators idx) [
    | some operator ↦ (some idx, operator)
    | none ↦ (some idx, no_operator)
  ]
  | none ↦ (none, no_operator)
]

-- What `Cpu()` and `Memory()` of a list of resources point at.
pub record Amounts (Quantity : Type 0) : Type 0 where
  pub cpu : Option Quantity
  pub memory : Option Quantity

pub record OperatorSpec (Quantity : Type 0) : Type 0 where
  pub name : String
  pub replicas : Option ℕ
  pub limits : Option (Amounts Quantity)
  pub requests : Option (Amounts Quantity)
  pub tolerations : List Toleration

unfoldable pub has_overrides :
    {Quantity : Type 0} → List (OperatorSpec Quantity) → String → Option (OperatorSpec Quantity)
unfolding index_func get_elem?
has_overrides operator_overrides operator_name =
    elim (index_func operator_overrides (λ c. c.name == operator_name)) [
      | some idx ↦ get_elem? operator_overrides idx
      | none ↦ none
    ]

module _ {Quantity : Type 0} (is_positive : Quantity → Bool) (to_string : Quantity → String) where
  -- `if q != nil && q.Value() > 0 { text = q.String() }`
  unfoldable pub override_amount : Option Quantity → String → String
  override_amount none text = text
  override_amount (some q) text = if is_positive q then to_string q else text

  -- A nil list of resources is made an empty one before its two fields are set.
  unfoldable pub override_resources :
      Option (Amounts Quantity) → Option ResourceList → Option ResourceList
  unfolding override_amount
  override_resources none resources = resources
  override_resources (some amounts) none =
      some (record {
        cpu = override_amount amounts.cpu "";
        memory = override_amount amounts.memory "";
      })
  override_resources (some amounts) (some resources) = some (record {
    cpu = override_amount amounts.cpu resources.cpu;
    memory = override_amount amounts.memory resources.memory;
  })

  unfoldable pub set_overrides : OperatorSpec Quantity → Operator → Operator
  unfolding override_resources merge_tolerations
  set_overrides ovr op =
      let d = op.deployment in
      record op {
        deployment = record {
          replicas = elim ovr.replicas [ some n ↦ some n | none ↦ d.replicas ];
          manager = record d.manager {
            resources = record {
              requests = override_resources ovr.requests d.manager.resources.requests;
              limits = override_resources ovr.limits d.manager.resources.limits;
            };
          };
          tolerations =
              if not (is_empty ovr.tolerations)
              then merge_tolerations d.tolerations ovr.tolerations
              else d.tolerations;
        };
      }
