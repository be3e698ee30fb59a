-- ===== src/Prelude/All.antt =====
-- What holds of every element of a list.
use mathlib.Core.List.{List, [], ◌∷◌, ◌++◌}

-- Each of the elements is as `P` says.
abbrev pub All : {A : Type 0} → (A → Type 0) → List A → Type 0
All P [] = Unit {0}
All P (x ∷ xs) = P x × All P xs

pub All-map :
    {A : Type 0} (P Q : A → Type 0) (xs : List A) → ((x : A) → P x → Q x) → All P xs → All Q xs
All-map P Q [] weaker all = tt
All-map P Q (x ∷ xs) weaker (p, all) = (weaker x p, All-map P Q xs weaker all)

pub All-append :
    {A : Type 0} (P : A → Type 0) (xs ys : List A) → All P xs → All P ys → All P (xs ++ ys)
All-append P [] ys all all' = all'
All-append P (x ∷ xs) ys (p, all) all' = (p, All-append P xs ys all all')
