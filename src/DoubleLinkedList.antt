-- ===== src/DoubleLinkedList.antt =====
-- src/dynamic-subgraph/double-linked-list.{hpp,cpp}: the list that owns the nodes and topics, over
-- an explicit heap. `_Element<T>` is `Element`, an iterator is the address of an element, `nullptr`
-- is 0. Reading or writing through an address that holds no element is the fault `dangling`.
pub mod Segment
pub mod Append
pub mod Erase
pub mod Every
pub mod Search
pub mod Destroy
use stream_fdl.AtomicCounter.{AtomicCounter, counter}
use stream_fdl.Prelude.{
  ◌>>◌, ℕ, zero, suc, Bool, Option, none, some, Outcome, ok, fault, dangling, assertion,
  out_of_fuel, ◌>>=◌, ◌==◌, if◌then◌else◌,
}

abbrev pub Ptr : Type 0
Ptr = ℕ

abbrev pub null : Ptr
null = 0

-- `_Element<T>::Data`.
pub record Entry {ℓ} (T : Type ℓ) : Type ℓ where
  pub instance_value : T
  pub request_id : ℕ
  pub use_counter : AtomicCounter

pub record Element {ℓ} (T : Type ℓ) : Type ℓ where
  pub prev : Ptr
  pub next : Ptr
  pub entry : Entry T

abbrev pub element {ℓ} : {T : Type ℓ} → Ptr → Ptr → Entry T → Element T
element p q e = record { prev = p; next = q; entry = e }

abbrev pub Heap {ℓ} : Type ℓ → Type ℓ
Heap T = Ptr → Option (Element T)

pub record DoubleLinkedList {ℓ} (T : Type ℓ) : Type ℓ where
  pub heap : Heap T
  pub first : Ptr
  pub last : Ptr

module _ {ℓ} {T : Type ℓ} where
  unfoldable pub write : Heap T → Ptr → Option (Element T) → Heap T
  write h p c a = if a == p then c else h a

  -- `*p`.
  unfoldable pub load : Heap T → Ptr → Outcome (Element T)
  load h p =
      if p == null then fault dangling else elim (h p) [ none ↦ fault dangling | some e ↦ ok e ]

  -- `p->mNext = q`.
  unfoldable pub set_next : Heap T → Ptr → Ptr → Outcome (Heap T)
  set_next h p q = do e ← load h p; ok (write h p (some (record e { next = q })))

  -- `p->mPrev = q`.
  unfoldable pub set_prev : Heap T → Ptr → Ptr → Outcome (Heap T)
  set_prev h p q = do e ← load h p; ok (write h p (some (record e { prev = q })))

  -- `delete p`.
  unfoldable pub delete : Heap T → Ptr → Outcome (Heap T)
  delete h p = do e ← load h p; ok (write h p none)

  -- The constructor.
  unfoldable pub empty_list : DoubleLinkedList T
  empty_list = record { heap = λ p. none; first = null; last = null }

  -- `emplace_back`: `new` returns the address `fresh`. The use counter starts at one.
  unfoldable pub emplace_back :
      DoubleLinkedList T → (fresh : Ptr) → T → ℕ → Outcome (DoubleLinkedList T × Ptr)
  emplace_back l fresh instance_value request_id = do
    let data' : Entry T = record {
      instance_value = instance_value;
      request_id = request_id;
      use_counter = counter 1;
    }
    let h = write l.heap fresh (some (element l.last null data'))
    if l.last == null then ok (record { heap = h; first = fresh; last = fresh }, fresh) else (do
      h' ← set_next h l.last fresh
      ok (record { heap = h'; first = l.first; last = fresh }, fresh))

  -- `erase`: unlinks and frees the element, and returns the next one. `mBegin` and `mEnd` stay.
  unfoldable pub erase : DoubleLinkedList T → Ptr → Outcome (DoubleLinkedList T × Ptr)
  erase l it = do
    curr ← load l.heap it
    h ← if curr.prev == null then ok l.heap else set_next l.heap curr.prev curr.next
    h' ← if curr.next == null then ok h else set_prev h curr.next curr.prev
    h'' ← delete h' it
    ok (record l { heap = h'' }, curr.next)

  -- The iterator's `operator++` and `operator--`, by their effect on the iterator.
  unfoldable pub advance : Heap T → Ptr → Outcome Ptr
  advance h it = if it == null then fault assertion else (do e ← load h it; ok e.next)

  unfoldable pub retreat : Heap T → Ptr → Outcome Ptr
  retreat h it = if it == null then fault assertion else (do e ← load h it; ok e.prev)

  -- The loop of `find` and `findName`, from an iterator, with the test as an argument.
  unfoldable pub find_from : (T → Bool) → ℕ → Heap T → Ptr → Outcome Ptr
  find_from test zero h it = fault out_of_fuel
  find_from test (suc fuel) h it = if it == null then ok null else do
    e ← load h it
    if test e.entry.instance_value
        then ok it
        else (do it' ← advance h it; find_from test fuel h it')

  -- The loop of the destructor.
  unfoldable pub destroy_from : ℕ → DoubleLinkedList T → Heap T → Ptr → Outcome (Heap T)
  destroy_from zero l h current = fault out_of_fuel
  destroy_from (suc fuel) l h current = if current == null then ok h else do
    e ← load h current
    (if e.next == null
        then (if current == l.last then ok tt else fault assertion)
        else (do n ← load h e.next; if n.prev == current then ok tt else fault assertion))
    h' ← delete h current
    destroy_from fuel l h' e.next

  unfoldable pub destroy : ℕ → DoubleLinkedList T → Outcome (Heap T)
  destroy fuel l =
      if l.first == null
      then (if l.last == null then ok l.heap else fault assertion)
      else destroy_from fuel l l.heap l.first
