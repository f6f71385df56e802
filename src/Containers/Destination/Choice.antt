-- ===== src/Containers/Destination/Choice.antt =====
-- src/container.cpp, queryDestination: each destination with what leads to it.
use otxlinux.Prelude.{ℕ, ◌≤◌, ◌<◌, ◌≡◌, ◌≢◌, Bool, true, false, none, some, ◌⊎◌, if◌then◌else◌}
use otxlinux.Items.Object.{ItemType}
use otxlinux.Containers.{Index, wherever, at, Item, Container, get_container, get_item_by_index}
use otxlinux.Containers.Queries.{is_stack_for}
use otxlinux.Containers.Destination.{
  Destination, this_container, parent_container, inside_item, is_stacked,
}

-- What the requested index alone says: a free slot below the capacity is kept, an item there is
-- stacked with, or entered if it is a container; all else goes anywhere.
pub data Settles (index : Index) (c : Container) : Destination → Type 0 where
  free_slot :
      (n : ℕ)
      → index ≡ at n
      → n ≢ 255
      → n < c.shell.capacity
      → get_item_by_index c.itemlist n ≡ none
      → Settles index c (record { place = this_container; index = at n; dest_item = none })
  onto :
      (n : ℕ) (j : Item)
      → index ≡ at n
      → n ≢ 255
      → n < c.shell.capacity
      → get_item_by_index c.itemlist n ≡ some j
      → get_container j ≡ none
      → Settles index c (record { place = this_container; index = at n; dest_item = some j })
  inside :
      (n : ℕ) (j : Item) (d : Container)
      → index ≡ at n
      → n ≢ 255
      → n < c.shell.capacity
      → get_item_by_index c.itemlist n ≡ some j
      → get_container j ≡ some d
      → Settles index c (record { place = inside_item j; index = wherever; dest_item = none })
  anywhere :
      ((n : ℕ) → index ≡ at n → n ≢ 255 → c.shell.capacity ≤ n)
      → Settles index c (record { place = this_container; index = wherever; dest_item = none })

-- Where an item goes: up, out of the container; onto the first item that it stacks with; or, if it
-- stacks with none, as the requested index says.
pub data Goes (items : ℕ → ItemType) (auto_stack parent_is_container : Bool) (index : Index)
    (i : Item) (flags : ℕ) (c : Container) : Destination → Type 0 where
  up :
      index ≡ at 254
      → Goes items auto_stack parent_is_container index i flags c (record {
        place = if parent_is_container then parent_container else this_container;
        index = wherever;
        dest_item = none;
      })
  stacked :
      (n : ℕ) (j : Item)
      → index ≢ at 254
      → is_stacked items auto_stack i flags c ≡ true
      → get_item_by_index c.itemlist n ≡ some j
      → is_stack_for i j ≡ true
      → ((l : ℕ) (k : Item)
          → l < n
          → get_item_by_index c.itemlist l ≡ some k
          → is_stack_for i k ≡ false)
      → Goes items auto_stack parent_is_container index i flags c
          (record { place = this_container; index = at n; dest_item = some j })
  settled :
      {d : Destination}
      → index ≢ at 254
      → (is_stacked items auto_stack i flags c ≡ false)
        ⊎ ((l : ℕ) (k : Item) → get_item_by_index c.itemlist l ≡ some k → is_stack_for i k ≡ false)
      → Settles index c d
      → Goes items auto_stack parent_is_container index i flags c d
