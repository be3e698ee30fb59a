-- ===== src/GraphView/Full/Reassembly.antt =====
-- The `do … while` loop of `getFullGraphView` over the numbered lines of a reply.
use stream_fdl.Prelude.{ℕ, suc, ◌+◌, ◌≡◌, subst, true, List, [], ◌∷◌, ◌++◌, arith, ltb, length, ok}
use mathlib.Core.List.{append-nil, append_assoc}
use stream_fdl.GraphView.Full.{Package, reassemble}

abbrev pub texts : List (List ℕ) → List ℕ
texts [] = []
texts (l ∷ ls) = l ++ texts ls

-- The lines as the sender numbers them, from `first` on, out of `total`.
unfoldable pub packages_from : (first total : ℕ) → List (List ℕ) → List Package
packages_from first total [] = []
packages_from first total (l ∷ ls) =
    record { textual = true; number = first; total = total; line = l }
    ∷ packages_from (suc first) total ls

reassemble-from :
    (previous : ℕ) (text l : List ℕ) (ls : List (List ℕ)) (later : List Package)
    → reassemble previous text
        (packages_from (suc previous) (suc previous + length ls) (l ∷ ls) ++ later)
      ≡ ok (text ++ texts (l ∷ ls))
unfolding reassemble packages_from
reassemble-from previous text l [] later = ground (arith, append-nil l)
reassemble-from previous text l (m ∷ ls) later =
    let total : suc previous + length (m ∷ ls) ≡ suc (suc previous) + length ls = omega arith in
    rw (total, test, more, reassemble-from (suc previous) (text ++ l) m ls later, append_assoc)
  where
    test : ltb previous (suc previous) ≡ true
    test = ground arith

    more : ltb (suc previous) (suc (suc previous) + length ls) ≡ true
    more = ground arith

-- A reply whose lines are numbered from one up to their count is put together line by line, and
-- packages behind it are not read.
pub reassemble-texts :
    (l : List ℕ) (ls : List (List ℕ)) (later : List Package)
    → reassemble 0 [] (packages_from 1 (suc (length ls)) (l ∷ ls) ++ later) ≡ ok (texts (l ∷ ls))
reassemble-texts l ls later =
    subst (λ n. reassemble 0 [] (packages_from 1 n (l ∷ ls) ++ later) ≡ ok (texts (l ∷ ls)))
      (omega arith) (reassemble-from 0 [] l ls later)
