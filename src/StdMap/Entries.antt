-- ===== src/StdMap/Entries.antt =====
-- What holds of every entry of a `std::map`.
use stream_fdl.Prelude.{
  ◌≡◌, subst, inl, inr, Bool, some, List, [], ◌∷◌, arith, Bool-cases, Option-cases,
}
use stream_fdl.Prelude.All.{All}
use stream_fdl.StdMap.{equivalent, find, insert_sorted, emplace, modify}

module _ {K V : Type 0} (less : K → K → Bool) (P : K × V → Type 0) where
  pub find-All :
      (Q : V → Type 0) (k : K) (m : List (K × V)) (v : V)
      → ((e : K × V) → P e → Q e.1)
      → All P m
      → find less k m ≡ some v
      → Q v
  unfolding find
  find-All Q k [] v has all h = absurd cc
  find-All Q k ((j, w) ∷ m) v has (p, all) h = elim (Bool-cases (equivalent less j k)) [
    | inl same ↦ subst Q (ground arith) (has (j, w) p)
    | inr other ↦ find-All Q k m v has all (ground arith)
  ]

  insert_sorted-All :
      (k : K) (v : V) (m : List (K × V)) → P (k, v) → All P m → All P (insert_sorted less k v m)
  unfolding insert_sorted
  insert_sorted-All k v [] p all = (p, tt)
  insert_sorted-All k v ((j, w) ∷ m) p (q, all) = elim (Bool-cases (less k j)) [
    | inl before ↦ rw before (p, (q, all))
    | inr after ↦ rw after (q, insert_sorted-All k v m p all)
  ]

  pub emplace-All :
      (k : K) (v : V) (m : List (K × V)) → P (k, v) → All P m → All P (emplace less k v m).0
  unfolding emplace
  emplace-All k v m p all = elim (Option-cases (find less k m)) [
    | inl new ↦ rw (emplace, new) (insert_sorted-All k v m p all)
    | inr (w, old) ↦ rw (emplace, old) all
  ]

  pub modify-All :
      (k : K) (f : V → V) (m : List (K × V))
      → ((e : K × V) → P e → P (e.0, f e.1))
      → All P m
      → All P (modify less k f m)
  unfolding modify
  modify-All k f [] keeps all = tt
  modify-All k f ((j, w) ∷ m) keeps (p, all) = elim (Bool-cases (equivalent less j k)) [
    | inl same ↦ rw same (keeps (j, w) p, all)
    | inr other ↦ rw other (p, modify-All k f m keeps all)
  ]
