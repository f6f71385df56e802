-- ===== src/Containers/Queries/Room.antt =====
-- src/container.cpp, queryAdd and queryMaxCount: what may be put into a container.
use otxlinux.Prelude.{
  ℕ, ◌+◌, ◌-◌, ◌*◌, ◌%◌, ◌^◌, ◌≤◌, ◌≡◌, refl, inl, inr, Bool, Bool-cases, true, false, not, ◌&&◌,
  ◌||◌, List, [], ◌∷◌, Option, none, some, bit_or, ◌==◌, if◌then◌else◌, arith, add_u32,
}
use otxlinux.Items.Object.{ItemType}
use otxlinux.Containers.{
  Index, wherever, at, Item, ItemDeque, nothing, item_then, Container, object, size,
  get_item_by_index,
}
use otxlinux.Containers.Queries.{
  ReturnValue, no_error, container_not_enough_room, is_no_error, flag_no_limit, flag_child_is_owner,
  has_bit_set, Cylinder, an_item, search_limited, search_unlimited, has_top_parent, or_return,
  is_full_for, query_top, query_room, query_add_item, query_add, is_stack_for, stack_room, room_at,
  room_for, query_max_count,
}

-- Nothing around the container is the thing itself or, under a limit, an inbox.
unfoldable pub is_free_of : ℕ → Bool → List Cylinder → Bool
is_free_of ref limited [] = true
is_free_of ref limited (p ∷ parents) =
    not (p.ref == ref) && (not (limited && p.is_inbox) && is_free_of ref limited parents)

or_return-search_limited :
    (next : ReturnValue) (ref : ℕ) (parents : List Cylinder)
    → is_no_error (or_return next (search_limited ref parents))
      ≡ (is_free_of ref true parents && is_no_error next)
unfolding or_return search_limited is_free_of is_no_error
or_return-search_limited next ref [] = refl
or_return-search_limited next ref (p ∷ parents) =
    ground (arith, or_return-search_limited next ref parents)

or_return-search_unlimited :
    (next : ReturnValue) (ref : ℕ) (parents : List Cylinder)
    → is_no_error (or_return next (search_unlimited ref parents))
      ≡ (is_free_of ref false parents && is_no_error next)
unfolding or_return search_unlimited is_free_of is_no_error
or_return-search_unlimited next ref [] = refl
or_return-search_unlimited next ref (p ∷ parents) =
    ground (arith, or_return-search_unlimited next ref parents)

module _ (items : ℕ → ItemType) (parents : List Cylinder) (top_query : ℕ → ℕ → ReturnValue) where
  -- What `queryAdd` wants of an item.
  unfoldable pub accepts : Index → Item → ℕ → ℕ → Container → Bool
  accepts index i count flags c =
      let limited = not (has_bit_set flag_no_limit flags) in
      c.shell.unlocked
      && ((items (object i).id).pickupable
          && (not ((object i).ref == c.self.ref)
              && (is_free_of (object i).ref limited parents
                  && (not (limited && is_full_for index c)
                      && (not (has_top_parent parents)
                          || is_no_error (top_query count (bit_or flags flag_child_is_owner)))))))

-- An item may be added, by a query that does not come from a child, exactly if the container is
-- unlocked, the item can be picked up, it is neither the container itself nor one of those around it,
-- and the top parent agrees if there is one; and, if no flag lifts the limits, if no inbox is around
-- the container and, where no position is given, a slot is free.
pub query_add_iff :
    (items : ℕ → ItemType) (parents : List Cylinder) (top_query : ℕ → ℕ → ReturnValue)
    (index : Index) (i : Item) (count flags : ℕ) (c : Container)
    → has_bit_set flag_child_is_owner flags ≡ false
    → is_no_error (query_add items parents top_query index (an_item i) count flags c)
      ≡ accepts items parents top_query index i count flags c
unfolding query_add query_add_item query_room query_top accepts is_no_error
query_add_iff items parents top_query index i count flags c h =
    let limited =
      or_return-search_limited
        (if is_full_for index c
          then container_not_enough_room
          else query_top items parents top_query count flags)
        (object i).ref parents in
    let unlimited =
      or_return-search_unlimited (query_top items parents top_query count flags) (object i).ref
        parents in
    elim (Bool-cases (has_bit_set flag_no_limit flags)) [
      | inl free ↦ rw (h, free) (ground (arith, unlimited))
      | inr bound ↦ rw (h, bound) (ground (arith, limited))
    ]

module _ (items : ℕ → ItemType) (parents : List Cylinder) (top_query : ℕ → ℕ → ReturnValue) where
  stack_room-le :
      (i : Item) (flags : ℕ) (c : Container) (xs : ItemDeque) (slot n : ℕ)
      → stack_room items parents top_query i flags c xs slot n ≤ n + 100 * size xs
  unfolding stack_room size add_u32
  stack_room-le i flags c nothing slot n = omega arith
  stack_room-le i flags c (item_then j xs) slot n =
      let remainder = 100 - (object j).count in
      let taken =
        is_no_error (query_add items parents top_query (at slot) (an_item i) remainder flags c) in
      elim (Bool-cases (is_stack_for i j)) [
        | inr other ↦ rw other (omega (arith, stack_room-le i flags c xs slot n))
        | inl stack ↦ elim (Bool-cases taken) [
          | inl agreed ↦
              rw (stack, agreed)
                (omega (arith, stack_room-le i flags c xs (slot + 1) ((n + remainder) % 2 ^ 32)))
          | inr refused ↦
              rw (stack, refused) (omega (arith, stack_room-le i flags c xs (slot + 1) n))
        ]
      ]

  room_at-le :
      (index : ℕ) (i : Item) (flags : ℕ) (c : Container) (o : Option Item)
      → room_at items parents top_query index i flags c o ≤ 100
  unfolding room_at
  room_at-le index i flags c none = omega arith
  room_at-le index i flags c (some j) = ground arith

  room_at-empty :
      (index : ℕ) (i : Item) (flags : ℕ) (c : Container) (xs : ItemDeque)
      → room_at items parents top_query index i flags c (get_item_by_index xs index) ≤ 100 * size xs
  unfolding get_item_by_index size room_at
  room_at-empty index i flags c nothing = omega arith
  room_at-empty index i flags c (item_then j xs) =
      omega (arith, room_at-le index i flags c (get_item_by_index (item_then j xs) index))

  room_for-le :
      (index : Index) (i : Item) (flags : ℕ) (c : Container)
      → room_for items parents top_query index i flags c ≤ 100 * size c.itemlist
  unfolding room_for
  room_for-le wherever i flags c = omega (arith, stack_room-le i flags c c.itemlist 0 0)
  room_for-le (at n) i flags c = room_at-empty n i flags c c.itemlist

-- With no flag that lifts the limits, and in a container that is not over its capacity, the count that
-- may be added at most is never above a hundred for each slot of the container, and a stack is
-- accepted only if its count is not above that.
pub query_max_count-le :
    (items : ℕ → ItemType) (parents : List Cylinder) (top_query : ℕ → ℕ → ReturnValue)
    (index : Index) (i : Item) (count flags : ℕ) (c : Container)
    → has_bit_set flag_no_limit flags ≡ false
    → size c.itemlist ≤ c.shell.capacity
    → ((query_max_count items parents top_query index (an_item i) count flags c).1
        ≤ 100 * c.shell.capacity)
      × ((items (object i).id).stackable ≡ true
          → (query_max_count items parents top_query index (an_item i) count flags c).0 ≡ no_error
          → count ≤ (query_max_count items parents top_query index (an_item i) count flags c).1)
unfolding query_max_count
query_max_count-le items parents top_query index i count flags c h k =
    let room = room_for-le items parents top_query index i flags c in ground (arith, room)
