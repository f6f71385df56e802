-- ===== src/Containers/Iterator.antt =====
-- src/container.cpp, class ContainerIterator and the loops that use it. The list `over` has for each
-- container in it the items that are still to come: those from `cur` on for the front, all items for
-- the others.
pub mod Walk
use otxlinux.Prelude.{
  ℕ, zero, suc, ◌+◌, Bool, true, false, List, [], ◌∷◌, ◌++◌, Option, none, some, ◌==◌,
  if◌then◌else◌, add_u32,
}
use otxlinux.Containers.{
  Item, plain, container, ItemDeque, nothing, item_then, Container, object, is_empty_deque,
}

abbrev pub ContainerIterator : Type 0
ContainerIterator = List ItemDeque

unfoldable pub iterator : Container → ContainerIterator
iterator c = if is_empty_deque c.itemlist then [] else c.itemlist ∷ []

-- The step of `advance` that looks at `*cur`.
unfoldable pub push_contents : Item → ContainerIterator → ContainerIterator
push_contents (plain x) over = over
push_contents (container x s xs) over = if is_empty_deque xs then over else over ++ xs ∷ []

-- `advance` at an item with the items behind it and the containers behind the front.
unfoldable pub advance : Item → ItemDeque → ContainerIterator → ContainerIterator
advance i xs over =
    let behind = push_contents i over in if is_empty_deque xs then behind else xs ∷ behind

-- The loop of `getItemHoldingCount`. `none` means that the fuel ran out or that `cur` was read at the
-- end of a list.
unfoldable pub count_loop : ℕ → ℕ → ContainerIterator → Option ℕ
count_loop fuel counter [] = some counter
count_loop zero counter (xs ∷ over) = none
count_loop (suc fuel) counter (nothing ∷ over) = none
count_loop (suc fuel) counter (item_then i xs ∷ over) =
    count_loop fuel (add_u32 counter 1) (advance i xs over)

unfoldable pub get_item_holding_count : ℕ → Container → Option ℕ
get_item_holding_count fuel c = count_loop fuel 0 (iterator c)

-- The loop of `isHoldingItem`.
unfoldable pub hold_loop : ℕ → ℕ → ContainerIterator → Option Bool
hold_loop fuel ref [] = some false
hold_loop zero ref (xs ∷ over) = none
hold_loop (suc fuel) ref (nothing ∷ over) = none
hold_loop (suc fuel) ref (item_then i xs ∷ over) =
    let rest = hold_loop fuel ref (advance i xs over) in
    if (object i).ref == ref then some true else rest

unfoldable pub is_holding_item : ℕ → ℕ → Container → Option Bool
is_holding_item fuel ref c = hold_loop fuel ref (iterator c)
