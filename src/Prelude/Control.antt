-- ===== src/Prelude/Control.antt =====
-- The control flow of a handler with early returns: a part of it runs on to the next statement, or
-- returns.
use mathlib.Core.Path.{◌≡◌, refl}
use mathlib.Core.Option.{Option, none, some}
use openstack_operator.Prelude.Results.{Error}

pub data Flow (S : Type 0) : Type 0 where
  next : S → Flow S
  return : S → Option Error → Flow S  -- `return ctrl.Result{}, err`, with the state so far
  panicked : Flow S

infixl 5 ◌>>=◌
abbrev pub ◌>>=◌ : {S : Type 0} → Flow S → (S → Flow S) → Flow S
next s >>= f = f s
return s e >>= f = return s e
panicked >>= f = panicked

-- Inversion: what ran to its end ran its first part to its end.
pub >>=-eq-next :
    {S : Type 0} (m : Flow S) (f : S → Flow S) {t : S}
    → (m >>= f) ≡ next t
    → (s : S) × (m ≡ next s) × (f s ≡ next t)
>>=-eq-next (next s) f h = (s, refl, h)
>>=-eq-next (return s e) f h = absurd (cc)
>>=-eq-next panicked f h = absurd (cc)

pub return-injective : {S : Type 0} {a b : S} {d e : Option Error} → return a d ≡ return b e → a ≡ b
return-injective h = cc

-- What went wrong did not end well.
pub return-ne-none :
    {S : Type 0} {A : Type 0} {a b : S} {e : Error} → return a (some e) ≡ return b none → A
return-ne-none h = absurd (cc h)

pub panicked-ne-return :
    {S : Type 0} {A : Type 0} {b : S} {e : Option Error} → panicked ≡ return b e → A
panicked-ne-return h = absurd (cc h)

pub >>=-next : {S : Type 0} (m : Flow S) → (m >>= next) ≡ m
>>=-next (next s) = refl
>>=-next (return s e) = refl
>>=-next panicked = refl

-- A property of the state, wherever a handler goes on or returns.
abbrev pub Everywhere {ℓ} : {S : Type 0} → (S → Type ℓ) → Flow S → Type ℓ
Everywhere P (next s) = P s
Everywhere P (return s e) = P s
Everywhere P panicked = Unit

pub Everywhere->>= {ℓ} :
    {S : Type 0} (P : S → Type ℓ) (m : Flow S) (f : S → Flow S)
    → Everywhere P m
    → ((s : S) → P s → Everywhere P (f s))
    → Everywhere P (m >>= f)
Everywhere->>= P (next s) f p h = h s p
Everywhere->>= P (return s e) f p h = p
Everywhere->>= P panicked f p h = tt
