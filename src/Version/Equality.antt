-- ===== src/Version/Equality.antt =====
-- What the comparisons of the version's webhook decide.
use openstack_operator.Prelude.{
  true, false, String, Option, none, some, List, [], ◌∷◌, ◌≡◌, ◌↔◌, refl, ap, sym, arith, All,
  All-of_each, ◌≢◌, eq_iff, eq_refl, length, lookup,
}
use openstack_operator.Images.{ImageField, image_fields, ImageMap, ContainerTemplate}
use openstack_operator.Images.Fields.{All-image_fields}
use openstack_operator.Version.{
  string_ptr_equal, fields_equal, container_template_equal, entries, entry_equal, entries_equal,
  string_map_equal,
}

pub string_ptr_equal_iff : (a b : Option String) → (string_ptr_equal a b ≡ true) ↔ (a ≡ b)
unfolding string_ptr_equal
string_ptr_equal_iff none none = (λ _. refl, λ _. refl)
string_ptr_equal_iff none (some b) = (λ h. cc, λ h. cc)
string_ptr_equal_iff (some a) none = (λ h. cc, λ h. cc)
string_ptr_equal_iff (some a) (some b) =
    (λ h. ap some ((eq_iff a b).0 h), λ h. ground (arith, eq_iff a b))

fields_equal_iff :
    (a b : ContainerTemplate) (fs : List ImageField)
    → (fields_equal a b fs ≡ true) ↔ All (λ f. a f ≡ b f) fs
unfolding fields_equal
fields_equal_iff a b [] = (λ _. tt, λ _. refl)
fields_equal_iff a b (f ∷ fs) =
    ground (arith, string_ptr_equal_iff (a f) (b f), fields_equal_iff a b fs)

-- The comparison by reflection decides equality in every field of the struct.
pub container_template_equal_iff :
    (a b : ContainerTemplate)
    → (container_template_equal a b ≡ true) ↔ ((f : ImageField) → a f ≡ b f)
unfolding container_template_equal
container_template_equal_iff a b = (
  λ h. All-image_fields (λ f. a f ≡ b f) ((fields_equal_iff a b image_fields).0 h),
  λ h. (fields_equal_iff a b image_fields).1 (All-of_each (λ f. a f ≡ b f) h image_fields),
)

entry_equal_iff :
    (a : Option String) (b : Option (Option String)) → (entry_equal a b ≡ true) ↔ (b ≡ some a)
unfolding entry_equal
entry_equal_iff a none = (λ h. cc, λ h. cc)
entry_equal_iff a (some b) =
    (λ h. ap some (sym ((string_ptr_equal_iff a b).0 h)), λ h. (string_ptr_equal_iff a b).1 (cc))

entries_equal_iff :
    (a b : List (String × Option String))
    → (entries_equal a b ≡ true) ↔ All (λ entry. lookup entry.0 b ≡ some entry.1) a
unfolding entries_equal
entries_equal_iff [] b = (λ _. tt, λ _. refl)
entries_equal_iff ((key, value) ∷ a) b =
    ground (arith, entry_equal_iff value (lookup key b), entries_equal_iff a b)

-- A map with an entry more than another is told apart from it.
pub string_map_equal-length :
    (a b : ImageMap) → length (entries a) ≢ length (entries b) → string_map_equal a b ≡ false
unfolding string_map_equal
string_map_equal-length a b h = ground arith

-- The keys of a map: none stands there twice.
unfoldable pub IsMap : List (String × Option String) → Type 0
IsMap [] = Unit
IsMap ((key, value) ∷ m) = (lookup key m ≡ none) × IsMap m

lookup_later :
    (key : String) (value : Option String) (m rest : List (String × Option String))
    → lookup key rest ≡ none
    → All (λ entry. lookup entry.0 m ≡ some entry.1) rest
    → All (λ entry. lookup entry.0 ((key, value) ∷ m) ≡ some entry.1) rest
unfolding lookup
lookup_later key value m [] h p = tt
lookup_later key value m ((k, v) ∷ rest) h p =
    ground (arith, eq_iff k key, eq_iff key k, lookup_later key value m rest)

lookup_each :
    (m : List (String × Option String)) → IsMap m → All (λ entry. lookup entry.0 m ≡ some entry.1) m
unfolding IsMap
lookup_each [] h = tt
lookup_each ((key, value) ∷ m) h =
    (unfold lookup in simp eq_refl, lookup_later key value m m h.0 (lookup_each m h.1))

pub string_map_equal_refl : (m : ImageMap) → IsMap (entries m) → string_map_equal m m ≡ true
unfolding string_map_equal
string_map_equal_refl m h =
    ground (arith, (entries_equal_iff (entries m) (entries m)).1 (lookup_each (entries m) h))
