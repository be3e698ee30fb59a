-- ===== src/Examples/Lists.antt =====
-- Lists of three elements.
use stream_fdl.Prelude.{
  ℕ, ◌+◌, ◌≡◌, refl, Bool, none, some, [], ◌∷◌, arith, ◌==◌, if◌then◌else◌, dangling, ok, fault,
}
use stream_fdl.AtomicCounter.{counter}
use stream_fdl.DoubleLinkedList.{
  Ptr, Entry, element, Heap, DoubleLinkedList, erase, find_from, destroy,
}
use stream_fdl.DoubleLinkedList.Segment.{Cells, IsList}
use stream_fdl.DoubleLinkedList.Append.{Appended, emplace_back-append}
use stream_fdl.DoubleLinkedList.Erase.{Erased, erase-interior, erase-first}
use stream_fdl.DoubleLinkedList.Destroy.{destroy-frees}

abbrev entry_of : ℕ → ℕ → Entry ℕ
entry_of v uses = record { instance_value = v; request_id = v + 100; use_counter = counter uses }

abbrev three_heap : Heap ℕ
three_heap p =
    if p == 1
    then some (element 0 2 (entry_of 10 1))
    else (if p == 2
        then some (element 1 3 (entry_of 20 0))
        else (if p == 3 then some (element 2 0 (entry_of 30 2)) else none))

abbrev three : DoubleLinkedList ℕ
three = record { heap = three_heap; first = 1; last = 3 }

abbrev three_cells : Cells ℕ
three_cells = (1, entry_of 10 1) ∷ (2, entry_of 20 0) ∷ (3, entry_of 30 2) ∷ []

three-IsList : IsList three three_cells
three-IsList = record {
  chain = (
    refl,
    (λ e. omega arith),
    refl,
    (
      2,
      refl,
      (
        refl,
        (λ e. omega arith),
        refl,
        (3, refl, (refl, (λ e. omega arith), refl, (0, refl, (refl, refl)))),
      ),
    ),
  );
  closed = λ a o. ground arith;
}

emplace_back-append_example : Appended three three_cells 4 40 7
emplace_back-append_example =
    emplace_back-append three three_cells 4 40 7 three-IsList (λ e. omega arith) refl

erase-interior_example : Erased three 2 ((1, entry_of 10 1) ∷ []) 3 ((3, entry_of 30 2) ∷ [])
erase-interior_example =
    erase-interior three 1 (entry_of 10 1) [] 2 (entry_of 20 0) 3 (entry_of 30 2) [] three-IsList

abbrev is_thirty : ℕ → Bool
is_thirty v = v == 30

erase-first_example :
    (l' : DoubleLinkedList ℕ) × (q : Ptr) × (erase three 1 ≡ ok (l', q))
    × (find_from is_thirty 5 l'.heap l'.first ≡ fault dangling)
erase-first_example =
    erase-first three 1 (entry_of 10 1) ((2, entry_of 20 0) ∷ (3, entry_of 30 2) ∷ []) is_thirty 4
      three-IsList

destroy-frees_example : (g : Heap ℕ) × (destroy 5 three ≡ ok g) × ((a : Ptr) → g a ≡ none)
destroy-frees_example = destroy-frees 5 three three_cells three-IsList (omega arith)
