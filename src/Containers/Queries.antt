-- ===== src/Containers/Queries.antt =====
-- src/container.cpp and src/container.h: what a container answers before something is moved. A
-- cylinder around a container is known by the number of its object. The query of the top parent, a
-- player or a tile, is the argument `top_query`; the actor is passed to it unchanged and left out.
pub mod Room
pub mod Removal
use otxlinux.Prelude.{
  ℕ, zero, suc, ◌+◌, ◌-◌, ◌*◌, Bool, true, false, not, ◌&&◌, ◌||◌, List, [], ◌∷◌, Option, none,
  some, max, bit_and, bit_or, leb, ltb, ◌==◌, if◌then◌else◌, u32, add_u32,
}
use otxlinux.Items.Object.{ItemType, Object, equals, count_by_type}
use otxlinux.Containers.{
  Index, wherever, at, is_beyond, Item, plain, container, ItemDeque, nothing, item_then, Container,
  object, get_container, size, get_item_by_index, get_thing_index,
}

pub data ReturnValue : Type 0 where
  no_error not_possible cannot_pickup this_is_impossible : ReturnValue
  container_not_enough_room not_moveable : ReturnValue

unfoldable pub is_no_error : ReturnValue → Bool
is_no_error no_error = true
is_no_error _ = false

abbrev pub flag_no_limit : ℕ
flag_no_limit = 1

abbrev pub flag_child_is_owner : ℕ
flag_child_is_owner = 8

abbrev pub flag_ignore_not_moveable : ℕ
flag_ignore_not_moveable = 64

abbrev pub flag_ignore_auto_stack : ℕ
flag_ignore_auto_stack = 128

unfoldable pub has_bit_set : ℕ → ℕ → Bool
has_bit_set flag flags = not (bit_and flags flag == 0)

pub record Cylinder : Type 0 where
  pub ref : ℕ
  pub is_inbox : Bool

-- What is asked about: a creature or an item.
pub data Thing : Type 0 where
  creature : Thing
  an_item : Item → Thing

-- The loops of `queryAdd` over the parents.
unfoldable pub search_limited : ℕ → List Cylinder → Option ReturnValue
search_limited ref [] = none
search_limited ref (p ∷ parents) =
    if p.ref == ref
    then some this_is_impossible
    else if p.is_inbox
    then some container_not_enough_room
    else search_limited ref parents

unfoldable pub search_unlimited : ℕ → List Cylinder → Option ReturnValue
search_unlimited ref [] = none
search_unlimited ref (p ∷ parents) =
    if p.ref == ref then some this_is_impossible else search_unlimited ref parents

-- `getTopParent() != this`: the last parent is not a top parent if there is another one below it.
unfoldable pub has_top_parent : List Cylinder → Bool
has_top_parent [] = false
has_top_parent (p ∷ []) = false
has_top_parent (p ∷ q ∷ parents) = true

-- An early return, or what comes behind it.
unfoldable pub or_return : ReturnValue → Option ReturnValue → ReturnValue
or_return next none = next
or_return next (some r) = r

unfoldable pub is_full_for : Index → Container → Bool
is_full_for wherever c = leb c.shell.capacity (size c.itemlist)
is_full_for (at n) c = false

-- An item of the list that takes more of the same kind.
unfoldable pub is_stack_for : Item → Item → Bool
is_stack_for i j =
    not ((object j).ref == (object i).ref)
    && (equals (object j) (object i) && ltb (object j).count 100)

-- A container with the cylinders around it, the innermost first.
module _ (items : ℕ → ItemType) (parents : List Cylinder) (top_query : ℕ → ℕ → ReturnValue) where
  unfoldable pub query_top : ℕ → ℕ → ReturnValue
  query_top count flags =
      if has_top_parent parents
      then top_query count (bit_or flags flag_child_is_owner)
      else no_error

  unfoldable pub query_room : Index → ℕ → ℕ → ℕ → Container → ReturnValue
  query_room index ref count flags c =
      if not (has_bit_set flag_no_limit flags)
      then or_return
          (if is_full_for index c then container_not_enough_room else query_top count flags)
          (search_limited ref parents)
      else or_return (query_top count flags) (search_unlimited ref parents)

  unfoldable pub query_add_item : Index → Item → ℕ → ℕ → Container → ReturnValue
  query_add_item index i count flags c =
      if not (items (object i).id).pickupable
      then cannot_pickup
      else if (object i).ref == c.self.ref
      then this_is_impossible
      else query_room index (object i).ref count flags c

  unfoldable pub query_add : Index → Thing → ℕ → ℕ → Container → ReturnValue
  query_add index creature count flags c =
      if has_bit_set flag_child_is_owner flags then no_error else not_possible
  query_add index (an_item i) count flags c =
      if has_bit_set flag_child_is_owner flags
      then no_error
      else if not c.shell.unlocked
      then not_possible
      else query_add_item index i count flags c

  unfoldable pub stack_room : Item → ℕ → Container → ItemDeque → ℕ → ℕ → ℕ
  stack_room i flags c nothing slot_index n = n
  stack_room i flags c (item_then j xs) slot_index n =
      let remainder = 100 - (object j).count in
      if is_stack_for i j
      then stack_room i flags c xs (slot_index + 1) (
          if is_no_error (query_add (at slot_index) (an_item i) remainder flags c)
          then add_u32 n remainder
          else n)
      else stack_room i flags c xs slot_index n

  unfoldable pub room_at : ℕ → Item → ℕ → Container → Option Item → ℕ
  room_at index i flags c none = 0
  room_at index i flags c (some j) =
      let remainder = 100 - (object j).count in
      if equals (object i) (object j)
        && (ltb (object j).count 100
            && is_no_error (query_add (at index) (an_item i) remainder flags c))
      then remainder
      else 0

  unfoldable pub room_for : Index → Item → ℕ → Container → ℕ
  room_for wherever i flags c = stack_room i flags c c.itemlist 0 0
  room_for (at index) i flags c = room_at index i flags c (get_item_by_index c.itemlist index)

  -- With `maxQueryCount`.
  unfoldable pub query_max_count : Index → Thing → ℕ → ℕ → Container → ReturnValue × ℕ
  query_max_count index creature count flags c = (not_possible, 0)
  query_max_count index (an_item i) count flags c =
      let free_slots = c.shell.capacity - size c.itemlist in
      let stack_max = u32 (free_slots * 100 + room_for index i flags c) in
      if has_bit_set flag_no_limit flags
      then (no_error, max 1 count)
      else if (items (object i).id).stackable
      then (if ltb stack_max count then container_not_enough_room else no_error, stack_max)
      else (if free_slots == 0 then container_not_enough_room else no_error, free_slots)

-- The thing with the number, if it has an index in the list.
unfoldable pub item_at : ItemDeque → Option ℕ → Option Item
item_at xs none = none
item_at xs (some n) = get_item_by_index xs n

unfoldable pub thing_of : ℕ → ItemDeque → Option Item
thing_of ref xs = item_at xs (get_thing_index xs ref)

module _ (items : ℕ → ItemType) where
  unfoldable pub query_remove_item : Item → ℕ → ℕ → ReturnValue
  query_remove_item i count flags =
      let it = items (object i).id in
      if (count == 0) || (it.stackable && ltb (object i).count count)
      then not_possible
      else if not it.moveable && not (has_bit_set flag_ignore_not_moveable flags)
      then not_moveable
      else no_error

  unfoldable pub query_remove_found : Option Item → ℕ → ℕ → ReturnValue
  query_remove_found none count flags = not_possible
  query_remove_found (some i) count flags = query_remove_item i count flags

  unfoldable pub query_remove : ℕ → ℕ → ℕ → Container → ReturnValue
  query_remove ref count flags c = query_remove_found (thing_of ref c.itemlist) count flags

  unfoldable pub type_count : ℕ → Option ℕ → ItemDeque → ℕ → ℕ
  type_count id sub nothing count = count
  type_count id sub (item_then i xs) count =
      type_count id sub xs
        (if (object i).id == id then add_u32 count (count_by_type items (object i) sub) else count)

  unfoldable pub get_item_type_count : ℕ → Option ℕ → Container → ℕ
  get_item_type_count id sub c = type_count id sub c.itemlist 0

-- A `std::map` from ids to counts, 0 where there is no entry.
unfoldable pub all_type_counts : ItemDeque → (ℕ → ℕ) → ℕ → ℕ
all_type_counts nothing counts = counts
all_type_counts (item_then i xs) counts =
    all_type_counts xs
      (λ id. if (object i).id == id then add_u32 (counts id) (object i).count else counts id)

unfoldable pub get_all_item_type_count : Container → (ℕ → ℕ) → ℕ → ℕ
get_all_item_type_count c counts = all_type_counts c.itemlist counts
