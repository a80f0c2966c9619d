-- ===== src/Prelude/Maps.antt =====
-- Tests, Go's `*string`, `[]string` and `map[string]V`. A map is an association list, to which
-- `insert` adds no key twice; Go's random order of iteration is one order of that list.
use Prim.Native.Nat.{ℕ, zero, suc, compare, Ordering}
use Prim.Native.String.{String}
use mathlib.Core.Path.{◌∙◌, ◌≡◌, refl, subst}
use mathlib.Core.Logic.{◌⊎◌, inl, inr}
use mathlib.Core.Bool.{Bool, true, false, ◌||◌}
use mathlib.Core.Option.{Option, none, some}
use mathlib.Core.List.{List, [], ◌∷◌}
use native.Mathlib.Omega.{arith}
use text.Mathlib.Text.{◌==◌}
use text.Mathlib.TextEquality.{eq_iff}
use text.Mathlib.TextPositions.{eq_refl}

infix 1 if◌then◌else◌
abbrev pub if◌then◌else◌ {ℓ} : {A : Type ℓ} → Bool → A → A → A
if true then x else y = x
if false then x else y = y

abbrev pub nat_eq : ℕ → ℕ → Bool
nat_eq a b = elim (compare a b) [ Ordering.eq ↦ true | _ ↦ false ]

abbrev pub ltb : ℕ → ℕ → Bool
ltb a b = elim (compare a b) [ Ordering.lt ↦ true | _ ↦ false ]

-- To split on a computed test and keep the equation.
pub Bool-cases : (b : Bool) → (b ≡ true) ⊎ (b ≡ false)
Bool-cases true = inl refl
Bool-cases false = inr refl

-- What holds under a test, as the test being false or not.
pub off_or {ℓ} : (b : Bool) {P : Type ℓ} → (b ≡ true → P) → (b ≡ false) ⊎ P
off_or true h = inr (h refl)
off_or false h = inl refl

pub under {ℓ} : (b : Bool) {P : Type ℓ} → (b ≡ false) ⊎ P → b ≡ true → P
under b (inl off) on = absurd (ground arith)
under b (inr p) on = p

-- A predicate that holds of every item.
abbrev pub All {ℓ κ} : {A : Type ℓ} → (A → Type κ) → List A → Type κ
All P [] = Unit
All P (x ∷ xs) = P x × All P xs

pub All-of_each {ℓ κ} : {A : Type ℓ} (P : A → Type κ) → ((x : A) → P x) → (xs : List A) → All P xs
All-of_each P h [] = tt
All-of_each P h (x ∷ xs) = (h x, All-of_each P h xs)

pub All-weaken {ℓ κ} :
    {A : Type ℓ} (P Q : A → Type κ) → ((x : A) → P x → Q x) → (xs : List A) → All P xs → All Q xs
All-weaken P Q h [] p = tt
All-weaken P Q h (x ∷ xs) p = (h x p.0, All-weaken P Q h xs p.1)

module _ {ℓ} {A : Type ℓ} where
  abbrev pub length : List A → ℕ
  length [] = 0
  length (x ∷ xs) = suc (length xs)

  abbrev pub is_empty : List A → Bool
  is_empty [] = true
  is_empty (x ∷ xs) = false

  unfoldable pub get_elem? : List A → ℕ → Option A
  get_elem? [] i = none
  get_elem? (x ∷ xs) zero = some x
  get_elem? (x ∷ xs) (suc i) = get_elem? xs i

pub All-get_elem? {ℓ κ} :
    {A : Type ℓ} (P : A → Type κ) (xs : List A) (n : ℕ) {x : A}
    → All P xs
    → get_elem? xs n ≡ some x
    → P x
unfolding get_elem?
All-get_elem? P [] n h e = absurd (cc e)
All-get_elem? P (x ∷ xs) zero h e = subst P (cc e) h.0
All-get_elem? P (x ∷ xs) (suc n) h e = All-get_elem? P xs n h.1 e

-- slices.Contains
unfoldable pub contains : List String → String → Bool
contains [] v = false
contains (x ∷ xs) v = x == v || contains xs v

module _ {ℓ} {V : Type ℓ} where
  -- delete(m, key)
  unfoldable pub delete : String → List (String × V) → List (String × V)
  delete key [] = []
  delete key ((name, kept) ∷ others) =
      let rest = delete key others in if name == key then rest else (name, kept) ∷ rest

  -- m[key], with none where the key is missing
  unfoldable pub lookup : String → List (String × V) → Option V
  lookup key [] = none
  lookup key ((name, value) ∷ others) = if name == key then some value else lookup key others

  -- m[key] = value
  unfoldable pub insert : String → V → List (String × V) → List (String × V)
  insert key value [] = (key, value) ∷ []
  insert key value ((name, kept) ∷ others) =
      if name == key then (name, value) ∷ others else (name, kept) ∷ insert key value others

  pub lookup-insert :
      (key wanted : String) (value : V) (entries : List (String × V))
      → lookup wanted (insert key value entries)
        ≡ (if key == wanted then some value else lookup wanted entries)
  unfolding lookup insert
  lookup-insert key wanted value [] = refl
  lookup-insert key wanted value ((name, kept) ∷ others) = ground (
    arith,
    lookup-insert key wanted value others,
    eq_iff name wanted,
    eq_iff name key,
    eq_iff key wanted,
  )

  pub lookup-insert_self :
      (key : String) (value : V) (entries : List (String × V))
      → lookup key (insert key value entries) ≡ some value
  lookup-insert_self key value entries =
      lookup-insert key key value entries ∙ ground (arith, eq_refl key)

  pub lookup-delete :
      (k j : String) (m : List (String × V))
      → lookup j (delete k m) ≡ (if k == j then none else lookup j m)
  unfolding lookup delete
  lookup-delete k j [] = ground arith
  lookup-delete k j ((i, w) ∷ m) =
      ground (arith, lookup-delete k j m, eq_iff i k, eq_iff i j, eq_iff k j)

  pub length-insert :
      (k : String) (v : V) (m : List (String × V))
      → lookup k m ≡ none
      → length (insert k v m) ≡ suc (length m)
  unfolding lookup insert
  length-insert k v [] h = refl
  length-insert k v ((j, w) ∷ m) h = ground (arith, length-insert k v m)

  -- `for k, v := range from { into[k] = v }`, where no key of `from` stands there twice
  unfoldable pub copy_into : List (String × V) → List (String × V) → List (String × V)
  unfolding insert
  copy_into [] into = into
  copy_into ((key, value) ∷ from) into = insert key value (copy_into from into)

  abbrev pub or_else : Option V → Option V → Option V
  or_else none other = other
  or_else (some v) other = some v

  pub lookup-copy_into :
      (wanted : String) (from into : List (String × V))
      → lookup wanted (copy_into from into) ≡ or_else (lookup wanted from) (lookup wanted into)
  unfolding lookup copy_into
  lookup-copy_into wanted [] into = refl
  lookup-copy_into wanted ((key, value) ∷ from) into = ground (
    arith,
    lookup-copy_into wanted from into,
    lookup-insert key wanted value (copy_into from into),
  )
