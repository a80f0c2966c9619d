-- ===== src/Overrides/Defaults.antt =====
-- What `SetOverrides` and `GetOperator` of internal/operator/override.go change and find.
use openstack_operator.Prelude.{
  ℕ, suc, Bool, true, false, String, Option, none, some, List, [], ◌∷◌, ◌==◌, ◌≡◌, refl, subst, sym,
  ◌⊎◌, inl, inr, ap, ◌∙◌, Bool-cases, arith, if◌then◌else◌, get_elem?,
}
use mathlib.Core.Option.{some-injective}
use openstack_operator.Overrides.{
  Operator, no_operator, index_func, get_operator, Amounts, OperatorSpec, override_amount,
  override_resources, set_overrides, ResourceList,
}
use openstack_operator.Overrides.Tolerations.{find_first, find_last, or_else, merge_tolerations_lem}

-- What a search for a name comes to: the first operator of that name and its place, or, where none
-- has it, -1 and an empty operator.
pub data Search (name : String) : List Operator → Option ℕ × Operator → Type 0 where
  missing : Search name [] (none, no_operator)
  here :
      {x : Operator} {xs : List Operator} → x.name == name ≡ true → Search name (x ∷ xs) (some 0, x)
  there :
      {x y : Operator} {xs : List Operator} {i : ℕ}
      → x.name == name ≡ false
      → Search name xs (some i, y)
      → Search name (x ∷ xs) (some (suc i), y)
  nowhere :
      {x : Operator} {xs : List Operator}
      → x.name == name ≡ false
      → Search name xs (none, no_operator)
      → Search name (x ∷ xs) (none, no_operator)

-- The result for a list with one more operator in front.
unfoldable moved : Option ℕ × Operator → Option ℕ × Operator
moved (some i, y) = (some (suc i), y)
moved (none, y) = (none, y)

get_operator-step :
    (x : Operator) (xs : List Operator) (name : String)
    → get_operator (x ∷ xs) name
      ≡ (if x.name == name then (some 0, x) else moved (get_operator xs name))
unfolding get_operator index_func get_elem? moved
get_operator-step x xs name = ground arith

Search-moved :
    {name : String} {x : Operator} {xs : List Operator} {r : Option ℕ × Operator}
    → x.name == name ≡ false
    → Search name xs r
    → Search name (x ∷ xs) (moved r)
unfolding moved
Search-moved h missing = nowhere h missing
Search-moved h (here e) = there h (here e)
Search-moved h (there e s) = there h (there e s)
Search-moved h (nowhere e s) = nowhere h (nowhere e s)

Search-step :
    {name : String} {x : Operator} {xs : List Operator} {r : Option ℕ × Operator} (b : Bool)
    → x.name == name ≡ b
    → Search name xs r
    → Search name (x ∷ xs) (if b then (some 0, x) else moved r)
Search-step true h s = here h
Search-step false h s = Search-moved h s

-- `GetOperator` finds the first operator of the name, with its place in the list, and where no
-- operator has the name it returns -1 and an empty operator.
pub get_operator-Search :
    (operators : List Operator) (name : String)
    → Search name operators (get_operator operators name)
unfolding get_operator
get_operator-Search [] name = missing
get_operator-Search (x ∷ xs) name =
    subst (Search name (x ∷ xs)) (sym (get_operator-step x xs name))
      (Search-step (x.name == name) refl (get_operator-Search xs name))

module _ {Quantity : Type 0} (is_positive : Quantity → Bool) (to_string : Quantity → String) where
  -- An amount that is set and positive, as text, and the text before it otherwise.
  -- A text after an override: that of an amount which is set and positive, or the text before it.
  abbrev pub IsOverridden : Option Quantity → String → String → Type 0
  IsOverridden q before after =
      ((amount : Quantity) × (q ≡ some amount)
        × (is_positive amount ≡ true)
        × (after ≡ to_string amount))
      ⊎ (((amount : Quantity) → q ≡ some amount → is_positive amount ≡ false) × (after ≡ before))

  -- No text, where there is no list of resources.
  abbrev pub text_of : (ResourceList → String) → Option ResourceList → String
  text_of field none = ""
  text_of field (some resources) = field resources

  -- A list of resources after an override, amount by amount.
  abbrev pub AreOverridden :
      Option (Amounts Quantity) → Option ResourceList → Option ResourceList → Type 0
  AreOverridden none before after = after ≡ before
  AreOverridden (some amounts) before after =
      (resources : ResourceList) × (after ≡ some resources)
      × IsOverridden amounts.cpu (text_of (λ r. r.cpu) before) resources.cpu
      × IsOverridden amounts.memory (text_of (λ r. r.memory) before) resources.memory

  -- An operator after overrides.
  pub record HasOverrides (ovr : OperatorSpec Quantity) (before after : Operator) : Type 0 where
    pub same_name : after.name ≡ before.name
    pub same_namespace : after.namespace ≡ before.namespace
    pub same_image : after.deployment.manager.image ≡ before.deployment.manager.image
    pub same_env : after.deployment.manager.env ≡ before.deployment.manager.env
    pub replicas :
        ((n : ℕ) × (ovr.replicas ≡ some n) × (after.deployment.replicas ≡ some n))
        ⊎ ((ovr.replicas ≡ none) × (after.deployment.replicas ≡ before.deployment.replicas))
    pub requests :
        AreOverridden ovr.requests before.deployment.manager.resources.requests
          after.deployment.manager.resources.requests
    pub limits :
        AreOverridden ovr.limits before.deployment.manager.resources.limits
          after.deployment.manager.resources.limits
    pub tolerations :
        (k : String)
        → find_first k after.deployment.tolerations
          ≡ or_else (find_last k ovr.tolerations) (find_first k before.deployment.tolerations)

  override_amount-IsOverridden :
      (q : Option Quantity) (text : String)
      → IsOverridden q text (override_amount is_positive to_string q text)
  unfolding override_amount
  override_amount-IsOverridden none text = inr (λ amount h. absurd (cc h), refl)
  override_amount-IsOverridden (some q) text = elim (Bool-cases (is_positive q)) [
    | inl up ↦ inl (q, refl, up, rw (up) refl)
    | inr down ↦
        inr (λ amount h. ap is_positive (sym (some-injective q amount h)) ∙ down, rw (down) refl)
  ]

  override_resources-AreOverridden :
      (amounts : Option (Amounts Quantity)) (resources : Option ResourceList)
      → AreOverridden amounts resources (override_resources is_positive to_string amounts resources)
  unfolding override_resources
  override_resources-AreOverridden none resources = refl
  override_resources-AreOverridden (some a) none =
      (_, refl, override_amount-IsOverridden a.cpu "", override_amount-IsOverridden a.memory "")
  override_resources-AreOverridden (some a) (some r) = (
    _,
    refl,
    override_amount-IsOverridden a.cpu r.cpu,
    override_amount-IsOverridden a.memory r.memory,
  )

  -- The tolerations after the overrides: for every key the last custom one, or the first before.
  tolerations-set_overrides :
      (ovr : OperatorSpec Quantity) (op : Operator) (k : String)
      → find_first k (set_overrides is_positive to_string ovr op).deployment.tolerations
        ≡ or_else (find_last k ovr.tolerations) (find_first k op.deployment.tolerations)
  unfolding set_overrides
  tolerations-set_overrides ovr op k =
      ground (arith, merge_tolerations_lem k op.deployment.tolerations ovr.tolerations)

  -- After `SetOverrides` the replicas are those of the overrides, if they set any; an amount of
  -- requests or limits is the text of the override's, if that is set and positive, and as before
  -- otherwise, no text where the operator had no list of that kind; each key has its last toleration
  -- of the overrides, or else its first of the operator; and the name, the namespace, the image and
  -- the environment are as before.
  pub set_overrides-HasOverrides :
      (ovr : OperatorSpec Quantity) (op : Operator)
      → HasOverrides ovr op (set_overrides is_positive to_string ovr op)
  unfolding set_overrides
  set_overrides-HasOverrides ovr op = record {
    same_name = refl;
    same_namespace = refl;
    same_image = refl;
    same_env = refl;
    replicas = set_replicas ovr.replicas op.deployment.replicas;
    requests =
        override_resources-AreOverridden ovr.requests op.deployment.manager.resources.requests;
    limits = override_resources-AreOverridden ovr.limits op.deployment.manager.resources.limits;
    tolerations = tolerations-set_overrides ovr op;
  }
    where
      set_replicas :
          (o before : Option ℕ)
          → ((n : ℕ) × (o ≡ some n) × (elim o [ some m ↦ some m | none ↦ before ] ≡ some n))
            ⊎ ((o ≡ none) × (elim o [ some m ↦ some m | none ↦ before ] ≡ before))
      set_replicas none before = inr (refl, refl)
      set_replicas (some n) before = inl (n, refl, refl)
