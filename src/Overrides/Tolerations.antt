-- ===== src/Overrides/Tolerations.antt =====
-- What `mergeTolerations` of internal/operator/override.go makes of two lists.
use openstack_operator.Prelude.{
  String, Option, none, some, List, [], ◌∷◌, ◌==◌, ◌≡◌, refl, arith, eq_iff, if◌then◌else◌,
}
use openstack_operator.Overrides.{
  Toleration, index_func, set_elem, merge_toleration, merge_loop, merge_tolerations,
}

-- The first toleration of a key.
unfoldable pub find_first : String → List Toleration → Option Toleration
find_first k [] = none
find_first k (t ∷ ts) = if t.key == k then some t else find_first k ts

-- The last toleration of a key.
unfoldable pub find_last : String → List Toleration → Option Toleration
find_last k [] = none
find_last k (t ∷ ts) = elim (find_last k ts) [
  | some u ↦ some u
  | none ↦ if t.key == k then some t else none
]

-- The toleration replaces the first of its key, or stands last.
unfoldable replaced : List Toleration → Toleration → List Toleration
replaced [] c = c ∷ []
replaced (t ∷ ts) c = if t.key == c.key then c ∷ ts else t ∷ replaced ts c

merge_toleration-replaced :
    (merged : List Toleration) (c : Toleration) → merge_toleration merged c ≡ replaced merged c
unfolding merge_toleration replaced index_func set_elem
merge_toleration-replaced [] c = refl
merge_toleration-replaced (t ∷ ts) c = ground (arith, merge_toleration-replaced ts c)

find_first-replaced :
    (k : String) (merged : List Toleration) (c : Toleration)
    → find_first k (replaced merged c) ≡ (if c.key == k then some c else find_first k merged)
unfolding find_first replaced
find_first-replaced k [] c = refl
find_first-replaced k (t ∷ ts) c =
    ground (arith, find_first-replaced k ts c, eq_iff t.key c.key, eq_iff t.key k, eq_iff c.key k)

-- The value, or the one that stands in where there is none.
abbrev pub or_else : {A : Type 0} → Option A → Option A → Option A
or_else (some a) other = some a
or_else none other = other

merge_loop_lem :
    (k : String) (custom merged : List Toleration)
    → find_first k (merge_loop merged custom) ≡ or_else (find_last k custom) (find_first k merged)
unfolding merge_loop find_last
merge_loop_lem k [] merged = refl
merge_loop_lem k (c ∷ cs) merged = ground (
  arith,
  merge_loop_lem k cs (merge_toleration merged c),
  merge_toleration-replaced merged c,
  find_first-replaced k merged c,
)

-- For every key, the toleration of the merged list is the last custom one of that key, or the
-- first default one where no custom one has it.
pub merge_tolerations_lem :
    (k : String) (defaults custom : List Toleration)
    → find_first k (merge_tolerations defaults custom)
      ≡ or_else (find_last k custom) (find_first k defaults)
unfolding merge_tolerations find_last
merge_tolerations_lem k defaults [] = refl
merge_tolerations_lem k defaults (c ∷ cs) = merge_loop_lem k (c ∷ cs) defaults
