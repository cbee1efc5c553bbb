-- ===== src/Common/Results.antt =====
-- A call that may raise: its value, or the exception. Each component has its own type of exceptions.
use mathlib.Core.Path.{◌≡◌, refl}
use mathlib.Core.Logic.{◌⊎◌, inl, inr}
use mathlib.Core.Bool.{Bool, true, false}

pub data Result {ℓ} (E : Type 0) (A : Type ℓ) : Type ℓ where
  ok : A → Result E A
  err : E → Result E A

-- `if bad: raise e`
abbrev pub raise_if : {E : Type 0} → Bool → E → Result E (Unit {0})
raise_if true e = err e
raise_if false e = ok tt

-- `try: ... except X as x: raise f(x)`
abbrev pub rethrow {ℓ} : {D E : Type 0} {A : Type ℓ} → (D → E) → Result D A → Result E A
rethrow f (ok a) = ok a
rethrow f (err d) = err (f d)

-- Sequencing: what raises first ends the call.
infixl 5 ◌>>=◌
abbrev pub ◌>>=◌ {ℓ κ} :
    {E : Type 0} {A : Type ℓ} {B : Type κ} → Result E A → (A → Result E B) → Result E B
call >>= next = elim call [ ok v ↦ next v | err e ↦ err e ]

-- The same under a name, for modules with a `>>=` of their own.
abbrev pub bind {ℓ κ} :
    {E : Type 0} {A : Type ℓ} {B : Type κ} → Result E A → (A → Result E B) → Result E B
bind call next = call >>= next

infixl 5 ◌>>◌
abbrev pub ◌>>◌ {κ} : {E : Type 0} {B : Type κ} → Result E (Unit {0}) → Result E B → Result E B
guard >> next = guard >>= λ _. next

pub Result-cases {ℓ} :
    {E : Type 0} {A : Type ℓ} (r : Result E A) → ((a : A) × (r ≡ ok a)) ⊎ ((e : E) × (r ≡ err e))
Result-cases (ok a) = inl (a, refl)
Result-cases (err e) = inr (e, refl)

-- Inversion of a successful bind, for proofs where the parts stay shut.
pub >>=-eq-ok {ℓ κ} :
    {E : Type 0} {A : Type ℓ} {B : Type κ} (call : Result E A) (next : A → Result E B) {out : B}
    → (call >>= next) ≡ ok out
    → (v : A) × (call ≡ ok v) × (next v ≡ ok out)
>>=-eq-ok (err e) next eq = cc
>>=-eq-ok (ok v) next eq = (v, refl, eq)
