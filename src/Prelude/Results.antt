-- ===== src/Prelude/Results.antt =====
-- What a call can come to: a value, an error, a nil dereference; and what a fetch of a Kubernetes
-- object can come to.
use Prim.Native.String.{String}
use mathlib.Core.Option.{Option, none, some}

-- An `error` value is kept by its text.
abbrev pub Error : Type 0
Error = String

pub data Outcome {ℓ} (A : Type ℓ) : Type ℓ where
  ok : A → Outcome A
  err : Error → Outcome A
  panic : Outcome A

-- client.Get: the object, `IsNotFound(err)`, or another error.
pub data Fetch {ℓ} (A : Type ℓ) : Type ℓ where
  found : A → Fetch A
  not_found : Fetch A
  failed : Error → Fetch A

-- client.List
pub data Listing {ℓ} (A : Type ℓ) : Type ℓ where
  listed : A → Listing A
  list_failed : Error → Listing A

-- `*p` of a pointer that may be nil
unfoldable pub deref {ℓ} : {A : Type ℓ} → Option A → Outcome A
deref none = panic
deref (some a) = ok a
