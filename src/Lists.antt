-- ===== src/Lists.antt =====
-- lib/list.h and lib/list.cc: lists of elements that point to each other, on a store of elements.
pub mod Chains
pub mod Reps
pub mod Front
pub mod Removal
pub mod Erase
pub mod Implements
use nachos_project_2_os_subj.Base.{
  ℕ, zero, suc, ◌+◌, ◌-◌, ◌==◌, Bool, true, false, not, Option, none, some, Result, ok, err,
  out_of_fuel, assert_failed, ◌>>=◌, ◌>>◌, assert, deref, if◌then◌else◌,
}

-- An element is named by its address.
pub record ListElement : Type 0 where
  pub item : ℕ
  pub next : Option ℕ

-- `elements` is the memory that the elements lie in.
pub record LinkedList : Type 0 where
  pub elements : ℕ → Option ListElement
  pub first : Option ℕ
  pub last : Option ℕ
  pub num_in_list : ℕ

abbrev pub store_element :
    (ℕ → Option ListElement) → ℕ → Option ListElement → ℕ → Option ListElement
store_element elements a e b = if a == b then e else elements b

abbrev pub is_empty : LinkedList → Bool
is_empty l = l.num_in_list == 0

-- The loop of IsInList, with `fuel` elements to go.
unfoldable pub is_in_chain : ℕ → (ℕ → Option ListElement) → Option ℕ → ℕ → Result Bool
is_in_chain fuel elements none item = ok false
is_in_chain zero elements (some a) item = err out_of_fuel
is_in_chain (suc fuel) elements (some a) item = deref (elements a) >>= λ e. elim (item == e.item) [
  | true ↦ ok true
  | false ↦ is_in_chain fuel elements e.next item
]

-- List<T>::IsInList; a list is no longer than it counts.
unfoldable pub is_in_list : LinkedList → ℕ → Result Bool
unfolding is_in_chain
is_in_list l item = is_in_chain l.num_in_list l.elements l.first item

-- The element at the address `new` put after the last one, or alone.
unfoldable pub link_last : LinkedList → (new item : ℕ) → Result LinkedList
link_last l new item =
    let elements = store_element l.elements new (some (record { item = item; next = none })) in
    if is_empty l
    then ok (record l { elements = elements; first = some new; last = some new })
    else (deref l.last >>= λ z. deref (elements z) >>= λ e. ok (record l {
      elements = store_element elements z (some (record e { next = some new }));
      last = some new;
    }))

-- List<T>::Append, with the address that `new` gives the element.
unfoldable pub append : LinkedList → (new item : ℕ) → Result LinkedList
unfolding is_in_list link_last
append l new item = do
  already ← is_in_list l item
  assert (not already)
  l₁ ← link_last l new item
  let l₂ : LinkedList = record l₁ { num_in_list = l₁.num_in_list + 1 }
  now ← is_in_list l₂ item
  assert now
  ok l₂

-- The element at the address `new` put before the first one, or alone.
unfoldable pub link_first : LinkedList → (new item : ℕ) → LinkedList
link_first l new item =
    if is_empty l
    then record l {
      elements = store_element l.elements new (some (record { item = item; next = none }));
      first = some new;
      last = some new;
    }
    else record l {
      elements = store_element l.elements new (some (record { item = item; next = l.first }));
      first = some new;
    }

-- List<T>::Prepend, with the address that `new` gives the element.
unfoldable pub prepend : LinkedList → (new item : ℕ) → Result LinkedList
unfolding is_in_list link_first
prepend l new item = do
  already ← is_in_list l item
  assert (not already)
  let l₁ = link_first l new item
  let l₂ : LinkedList = record l₁ { num_in_list = l₁.num_in_list + 1 }
  now ← is_in_list l₂ item
  assert now
  ok l₂

-- The front of the list taken off, of which nothing is left where it was alone.
unfoldable pub unlink_first : LinkedList → ListElement → (alone : Bool) → LinkedList
unlink_first l e alone =
    if alone then record l { first = none; last = none } else record l { first = e.next }

-- == on pointers
abbrev pub same_address : Option ℕ → Option ℕ → Bool
same_address none none = true
same_address none (some b) = false
same_address (some a) none = false
same_address (some a) (some b) = a == b

-- List<T>::RemoveFront
unfoldable pub remove_front : LinkedList → Result (LinkedList × ℕ)
unfolding unlink_first
remove_front l = do
  assert (not (is_empty l))
  a ← deref l.first
  e ← deref (l.elements a)
  let l₁ = unlink_first l e (same_address l.first l.last)
  ok (
    record l₁ { num_in_list = l₁.num_in_list - 1; elements = store_element l₁.elements a none },
    e.item,
  )

-- The element at `a`, behind the one at `prev`, taken out of the list and deleted.
unfoldable pub unlink : LinkedList → (prev a : ℕ) → (next : Option ℕ) → Result LinkedList
unlink l prev a next = do
  z ← deref (l.elements prev)
  let elements = store_element l.elements prev (some (record z { next = next }))
  let last : Option ℕ = elim next [ none ↦ some prev | some b ↦ l.last ]
  ok (record l {
    elements = store_element elements a none;
    last = last;
    num_in_list = l.num_in_list - 1;
  })

-- The loop of Remove from the element `ptr`, behind `prev`, with `fuel` elements to go.
unfoldable pub remove_behind :
    ℕ → LinkedList → (prev : ℕ) → Option ℕ → (item : ℕ) → Result LinkedList
unfolding unlink
remove_behind fuel l prev none item = err assert_failed
remove_behind zero l prev (some a) item = err out_of_fuel
remove_behind (suc fuel) l prev (some a) item = deref (l.elements a) >>= λ e.
    elim (item == e.item) [
      | true ↦ unlink l prev a e.next
      | false ↦ remove_behind fuel l a e.next item
    ]

-- The element that holds the item taken out: the first one, `e` at `a`, or one behind it.
unfoldable pub take_out : LinkedList → (a : ℕ) → ListElement → (item : ℕ) → Result LinkedList
unfolding remove_front remove_behind
take_out l a e item = elim (item == e.item) [
  | true ↦ remove_front l >>= λ r. assert (item == r.1) >> ok r.0
  | false ↦ remove_behind l.num_in_list l a e.next item
]

-- List<T>::Remove
unfoldable pub remove : LinkedList → (item : ℕ) → Result LinkedList
unfolding is_in_list take_out
remove l item = do
  there ← is_in_list l item
  assert there
  a ← deref l.first
  e ← deref (l.elements a)
  l₁ ← take_out l a e item
  still ← is_in_list l₁ item
  assert (not still)
  ok l₁
