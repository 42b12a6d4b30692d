-- ===== src/Base/Fallible.antt =====
-- Go's `(value, error)`: one of the two. A `do` block runs on until the first error.
use mathlib.Core.Path.{◌≡◌, refl}
use mathlib.Core.Bool.{Bool, true, false}
use mathlib.Core.Logic.{◌⊎◌, inl, inr}

pub data Result {ℓ κ} (E : Type ℓ) (A : Type κ) : Type (ℓ ⊔ κ) where
  ok : A → Result E A
  err : E → Result E A

infixl 5 ◌>>=◌ ◌>>◌
abbrev pub ◌>>=◌ {ℓ κ ρ} :
    {E : Type ℓ} {A : Type κ} {B : Type ρ} → Result E A → (A → Result E B) → Result E B
ok a >>= f = f a
err e >>= f = err e

abbrev pub ◌>>◌ {ℓ κ ρ} :
    {E : Type ℓ} {A : Type κ} {B : Type ρ} → Result E A → Result E B → Result E B
m >> k = m >>= λ _. k

-- `if test { return err }`.
abbrev pub fail_if {ℓ} : {E : Type ℓ} → Bool → E → Result E (Unit {0})
fail_if true e = err e
fail_if false e = ok tt

-- `fmt.Errorf("...: %w", err)`.
abbrev pub wrap {ℓ κ ρ} : {E : Type ℓ} {D : Type κ} {A : Type ρ} → (E → D) → Result E A → Result D A
wrap f (ok a) = ok a
wrap f (err e) = err (f e)

-- Accepted, as a proposition about a validation.
abbrev pub Accepts {ℓ κ} : {E : Type ℓ} {A : Type κ} → Result E A → Type 0
Accepts (ok a) = Unit
Accepts (err e) = ⊥

pub Result-cases {ℓ κ} :
    {E : Type ℓ} {A : Type κ} (r : Result E A) → ((a : A) × (r ≡ ok a)) ⊎ ((e : E) × (r ≡ err e))
Result-cases (ok a) = inl (a, refl)
Result-cases (err e) = inr (e, refl)

pub fail_if-ok {ℓ κ} :
    {E : Type ℓ} {A : Type κ} (test : Bool) (e : E) (k : Result E A) {a : A}
    → (fail_if test e >> k) ≡ ok a
    → (test ≡ false) × (k ≡ ok a)
fail_if-ok true e k h = cc
fail_if-ok false e k h = (refl, h)

pub >>=-ok {ℓ κ ρ} :
    {E : Type ℓ} {A : Type κ} {B : Type ρ} (m : Result E A) (f : A → Result E B) {b : B}
    → (m >>= f) ≡ ok b
    → (a : A) × (m ≡ ok a) × (f a ≡ ok b)
>>=-ok (ok a) f h = (a, refl, h)
>>=-ok (err e) f h = cc

pub wrap-ok {ℓ κ ρ} :
    {E : Type ℓ} {D : Type κ} {A : Type ρ} (f : E → D) (m : Result E A) {a : A}
    → wrap f m ≡ ok a
    → m ≡ ok a
wrap-ok f (ok a) h = cc
wrap-ok f (err e) h = cc

pub ok_injective {ℓ κ} :
    {E : Type ℓ} {A : Type κ} {a b : A} → ◌≡◌ {A = Result E A} (ok a) (ok b) → a ≡ b
ok_injective h = cc
