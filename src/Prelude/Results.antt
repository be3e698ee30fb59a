-- ===== src/Prelude/Results.antt =====
-- What a piece of C++ code can do besides returning: undefined behaviour through an invalid
-- pointer or iterator, a failed `assert`, and the exceptions that the code lets through.
use mathlib.Core.Path.{◌≡◌, refl}
use mathlib.Core.Logic.{◌⊎◌, inl, inr}

pub data Fault : Type 0 where
  dangling assertion out_of_range library_error division_by_zero out_of_fuel : Fault
  bad_optional_access : Fault

pub data Outcome {ℓ} (A : Type ℓ) : Type ℓ where
  ok : A → Outcome A
  fault : Fault → Outcome A

infixl 5 ◌>>=◌ ◌>>◌
abbrev pub ◌>>=◌ {ℓ κ} : {A : Type ℓ} {B : Type κ} → Outcome A → (A → Outcome B) → Outcome B
fault thrown >>= after = fault thrown
ok value >>= after = after value

abbrev pub ◌>>◌ {ℓ} : {B : Type ℓ} → Outcome (Unit {0}) → Outcome B → Outcome B
m >> k = m >>= λ _. k

-- Inversion of a successful bind, for proofs where the parts stay shut.
pub >>=-eq-ok {ℓ κ} :
    {A : Type ℓ} {B : Type κ} (before : Outcome A) (after : A → Outcome B) {result : B}
    → (before >>= after) ≡ ok result
    → (value : A) × (before ≡ ok value) × (after value ≡ ok result)
>>=-eq-ok (fault thrown) after run = cc
>>=-eq-ok (ok value) after run = (value, refl, run)

pub ok-injective {ℓ} : {A : Type ℓ} {a b : A} → ok a ≡ ok b → a ≡ b
ok-injective e = cc

pub fault-ne-ok {ℓ} : {A : Type ℓ} {f : Fault} {a : A} → fault f ≡ ok a → ⊥
fault-ne-ok e = cc

pub Outcome-cases {ℓ} :
    {A : Type ℓ} (o : Outcome A) → ((a : A) × (o ≡ ok a)) ⊎ ((f : Fault) × (o ≡ fault f))
Outcome-cases (ok a) = inl (a, refl)
Outcome-cases (fault f) = inr (f, refl)

-- Two changes of a result are one.
pub >>=-ok-ok {ℓ κ μ} :
    {A : Type ℓ} {B : Type κ} {C : Type μ} (o : Outcome A) (f : A → B) (g : B → C)
    → ((o >>= λ a. ok (f a)) >>= λ b. ok (g b)) ≡ (o >>= λ a. ok (g (f a)))
>>=-ok-ok (ok a) f g = refl
>>=-ok-ok (fault x) f g = refl
