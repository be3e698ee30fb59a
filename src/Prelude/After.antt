-- ===== src/Prelude/After.antt =====
-- What holds of the result where C++ code returns, for any claim `F` about code that does not:
-- with `Unit` for `F` the result is right if there is one, with `⊥` there is one.
use mathlib.Core.Path.{◌≡◌, refl, subst}
use mathlib.Core.Option.{Option, none, some}
use mathlib.Core.Bool.{Bool, true, false}
use stream_fdl.Prelude.Tests.{if◌then◌else◌}
use stream_fdl.Prelude.Results.{Outcome, ok, fault, ◌>>=◌}

abbrev pub After : {A : Type 0} → Type 0 → (A → Type 0) → Outcome A → Type 0
After F P (ok a) = P a
After F P (fault f) = F

-- No claim.
abbrev pub Any : Type 0
Any = Unit {0}

pub Outcome-After : {A : Type 0} (o : Outcome A) → After Any (λ a. Any) o
Outcome-After (ok a) = tt
Outcome-After (fault f) = tt

-- A claim about a value, where there is one.
abbrev pub IfSome : {A : Type 0} → (A → Type 0) → Option A → Type 0
IfSome P none = Any
IfSome P (some a) = P a

-- What is known of each result is known after the code.
pub After-of :
    {A : Type 0} (P : A → Type 0) (o : Outcome A) → ((a : A) → o ≡ ok a → P a) → After Any P o
After-of P (ok a) result = result a refl
After-of P (fault f) result = tt

module _ {A : Type 0} (F : Type 0) where
  pub >>=-After :
      {B : Type 0} {P : A → Type 0} (Q : B → Type 0) (before : Outcome A) (after : A → Outcome B)
      → After F P before
      → ((a : A) → P a → After F Q (after a))
      → After F Q (before >>= after)
  >>=-After Q (ok a) after holds next = next a holds
  >>=-After Q (fault f) after holds next = holds

  pub After-map :
      (P Q : A → Type 0) (o : Outcome A) → After F P o → ((a : A) → P a → Q a) → After F Q o
  After-map P Q (ok a) holds weaker = weaker a holds
  After-map P Q (fault f) holds weaker = holds

  -- A claim on the result, where there is one, joins what is known of the code.
  pub After-and :
      (P Q : A → Type 0) (o : Outcome A) → After Any P o → After F Q o → After F (λ a. P a × Q a) o
  After-and P Q (ok a) holds holds' = (holds, holds')
  After-and P Q (fault f) holds holds' = holds'

  pub After-ok : (P : A → Type 0) (o : Outcome A) (a : A) → After F P o → o ≡ ok a → P a
  After-ok P o a holds h = subst (After F P) h holds

  pub if-After :
      (P : A → Type 0) (b : Bool) (o o' : Outcome A)
      → After F P o
      → After F P o'
      → After F P (if b then o else o')
  if-After P true o o' holds holds' = holds
  if-After P false o o' holds holds' = holds'

-- Code that cannot fail returns.
pub After-returns :
    {A : Type 0} (P : A → Type 0) (o : Outcome A) → After ⊥ P o → (a : A) × (o ≡ ok a) × P a
After-returns P (ok a) holds = (a, refl, holds)
After-returns P (fault f) holds = absurd holds
