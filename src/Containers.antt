-- ===== src/Containers.antt =====
-- src/container.cpp and src/container.h: containers with what lies in them. An item is a value, and
-- the parent pointer of an item leads to the container that it lies in: an operation on a nested
-- container is done along the way to it. Weights and their differences are words of 32 bits.
pub mod Operations
pub mod Queries
pub mod Destination
pub mod Iterator
pub mod Weighing
pub mod Loads
pub mod Sums
pub mod Depot
mod Examples
use otxlinux.Prelude.{
  ℕ, zero, suc, ◌+◌, Bool, true, false, Option, none, some, leb, ◌==◌, if◌then◌else◌, add_u32,
}
use otxlinux.Items.Object.{ItemType, Object, get_weight}

-- An index as the callers pass it: INDEX_WHEREEVER, which is -1, or a position.
pub data Index : Type 0 where
  wherever : Index
  at : ℕ → Index

-- The members of a Container besides its list.
pub record Shell : Type 0 where
  pub capacity : ℕ
  pub total_weight : ℕ
  pub unlocked : Bool

mutual
  pub data Item : Type 0 where
    plain : Object → Item
    container : Object → Shell → ItemDeque → Item

  -- From the front.
  pub data ItemDeque : Type 0 where
    nothing : ItemDeque
    item_then : Item → ItemDeque → ItemDeque

pub record Container : Type 0 where
  pub self : Object
  pub shell : Shell
  pub itemlist : ItemDeque

unfoldable pub object : Item → Object
object (plain x) = x
object (container x s xs) = x

unfoldable pub get_container : Item → Option Container
get_container (plain x) = none
get_container (container x s xs) = some (record { self = x; shell = s; itemlist = xs })

unfoldable pub as_item : Container → Item
as_item c = container c.self c.shell c.itemlist

unfoldable pub with_object : (Object → Object) → Item → Item
with_object f (plain x) = plain (f x)
with_object f (container x s xs) = container (f x) s xs

unfoldable pub size : ItemDeque → ℕ
size nothing = 0
size (item_then i xs) = suc (size xs)

unfoldable pub is_empty_deque : ItemDeque → Bool
is_empty_deque nothing = true
is_empty_deque (item_then i xs) = false

unfoldable pub push_back : Item → ItemDeque → ItemDeque
push_back i nothing = item_then i nothing
push_back i (item_then j xs) = item_then j (push_back i xs)

unfoldable pub get_item_by_index : ItemDeque → ℕ → Option Item
get_item_by_index nothing n = none
get_item_by_index (item_then i xs) zero = some i
get_item_by_index (item_then i xs) (suc n) = get_item_by_index xs n

-- `itemlist[index] = item`.
unfoldable pub set_at : ItemDeque → ℕ → Item → ItemDeque
set_at nothing n j = nothing
set_at (item_then i xs) zero j = item_then j xs
set_at (item_then i xs) (suc n) j = item_then i (set_at xs n j)

unfoldable pub erase_index : ItemDeque → ℕ → ItemDeque
erase_index nothing n = nothing
erase_index (item_then i xs) zero = xs
erase_index (item_then i xs) (suc n) = item_then i (erase_index xs n)

-- `none` is -1.
unfoldable pub get_thing_index : ItemDeque → ℕ → Option ℕ
get_thing_index nothing ref = none
get_thing_index (item_then i xs) ref =
    let rest = get_thing_index xs ref in
    if (object i).ref == ref then some 0 else elim rest [ none ↦ none | some n ↦ some (suc n) ]

-- `index >= capacity()`.
unfoldable pub is_beyond : Index → Container → Bool
is_beyond wherever c = false
is_beyond (at n) c = leb c.shell.capacity n

module _ (items : ℕ → ItemType) where
  -- Item::getWeight and Container::getWeight.
  unfoldable pub weight : Item → ℕ
  weight (plain x) = get_weight items x
  weight (container x s xs) = add_u32 (get_weight items x) s.total_weight
