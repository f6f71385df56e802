-- ===== src/Containers/Destination.antt =====
-- src/container.cpp, queryDestination: the container or the item that a thing goes to.
pub mod Points
pub mod Choice
use otxlinux.Prelude.{
  ℕ, ◌+◌, Bool, true, false, not, ◌&&◌, ◌||◌, Option, none, some, ◌==◌, if◌then◌else◌,
}
use otxlinux.Items.Object.{ItemType, Object}
use otxlinux.Containers.{
  Index, wherever, at, is_beyond, Item, ItemDeque, nothing, item_then, Container, object,
  get_container, get_item_by_index,
}
use otxlinux.Containers.Queries.{
  flag_ignore_auto_stack, has_bit_set, Thing, creature, an_item, is_stack_for, thing_of,
}

-- Where a thing goes: this container, its parent container or an item that is a cylinder.
pub data DestinationPlace : Type 0 where
  this_container parent_container : DestinationPlace
  inside_item : Item → DestinationPlace

pub record Destination : Type 0 where
  pub place : DestinationPlace
  pub index : Index
  pub dest_item : Option Item

unfoldable pub is_item : Option Item → Bool
is_item none = false
is_item (some i) = true

-- With the item at the index: an item that is a container is entered.
unfoldable pub enter_item : ℕ → Item → Option Container → Destination
enter_item n j none = record { place = this_container; index = at n; dest_item = some j }
enter_item n j (some c) = record { place = inside_item j; index = wherever; dest_item = none }

unfoldable pub enter : ℕ → Option Item → Destination
enter n none = record { place = this_container; index = at n; dest_item = none }
enter n (some j) = enter_item n j (get_container j)

unfoldable pub settle_index : Index → Container → Destination
settle_index wherever c = record { place = this_container; index = wherever; dest_item = none }
settle_index (at n) c = enter n (get_item_by_index c.itemlist n)

-- The search for an item to stack with, from `n` on.
unfoldable pub stack_target : Item → ItemDeque → ℕ → Option (ℕ × Item)
stack_target i nothing n = none
stack_target i (item_then j xs) n =
    let rest = stack_target i xs (n + 1) in if is_stack_for i j then some (n, j) else rest

unfoldable pub stacked_or : Destination → Option (ℕ × Item) → Destination
stacked_or d none = d
stacked_or d (some x) = record { place = this_container; index = at x.0; dest_item = some x.1 }

-- The index 255 and those behind the capacity.
unfoldable pub free_index : Index → Container → Index
free_index wherever c = wherever
free_index (at n) c = if (n == 255) || is_beyond (at n) c then wherever else at n

unfoldable pub is_move_up : Index → Bool
is_move_up wherever = false
is_move_up (at n) = n == 254

unfoldable pub is_stacked : (ℕ → ItemType) → (auto_stack : Bool) → Item → ℕ → Container → Bool
is_stacked items auto_stack i flags c =
    auto_stack
    && (not (has_bit_set flag_ignore_auto_stack flags)
        && ((items (object i).id).stackable && not (is_item (thing_of (object i).ref c.itemlist))))

-- Behind the tests of the index.
unfoldable pub destination_of :
    (ℕ → ItemType) → (auto_stack : Bool) → Index → Thing → ℕ → Container → Destination
destination_of items auto_stack index creature flags c = record {
  place = this_container;
  index = index;
  dest_item = none;
}
destination_of items auto_stack index (an_item i) flags c =
    if is_stacked items auto_stack i flags c
    then stacked_or (settle_index index c) (stack_target i c.itemlist 0)
    else settle_index index c

-- `auto_stack` is the configuration's AUTO_STACK_ITEMS. The callers' `destItem` is null at first.
unfoldable pub query_destination :
    (ℕ → ItemType)
    → (auto_stack parent_is_container : Bool) → Index
    → Thing
    → ℕ
    → Container
    → Destination
query_destination items auto_stack parent_is_container index thing flags c =
    if not c.shell.unlocked
    then record { place = this_container; index = index; dest_item = none }
    else if is_move_up index
    then record {
      place = if parent_is_container then parent_container else this_container;
      index = wherever;
      dest_item = none;
    }
    else destination_of items auto_stack (free_index index c) thing flags c
