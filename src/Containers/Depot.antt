-- ===== src/Containers/Depot.antt =====
-- src/depotchest.cpp and src/inbox.cpp, queryAdd: the containers with rules of their own.
use mathlib.Core.Option.{some-injective}
use otxlinux.Prelude.{
  ltb_false→le, ℕ, ◌+◌, ◌≤◌, ◌<◌, ◌^◌, ◌≡◌, refl, ap, sym, ◌∙◌, inl, inr, Bool, Bool-cases, true,
  false, not, ◌&&◌, List, Option, none, some, ltb, ◌==◌, if◌then◌else◌, arith, u32, add_u32,
}
use otxlinux.Items.Object.{ItemType}
use otxlinux.Containers.{Index, is_beyond, Item, plain, container, Container, object, get_container}
use otxlinux.Containers.Operations.{
  update_item_weight, add_weight, with_items, add_thing, unchanged,
}
use otxlinux.Containers.Iterator.{get_item_holding_count}
use otxlinux.Containers.Iterator.Walk.{tally, tally_all, each, iterator-total}
use otxlinux.Containers.Queries.{
  ReturnValue, no_error, not_possible, this_is_impossible, cannot_pickup, container_not_enough_room,
  flag_no_limit, has_bit_set, Cylinder, Thing, creature, an_item, query_add,
}

-- An answer of a depot: its own RETURNVALUE_DEPOTISFULL or that of a container. `none` is a loop that
-- has run out of fuel.
pub data DepotAnswer : Type 0 where
  depot_is_full : DepotAnswer
  answered : ReturnValue → DepotAnswer

-- Player::getMaxDepotItems, by the limit of the player's group, where 0 means none: what
-- Player::getDepotChest gives a new depot for its member `maxDepotItems`.
unfoldable pub get_max_depot_items : (group_limit : ℕ) (premium : Bool) → ℕ
get_max_depot_items group_limit premium =
    if not (group_limit == 0) then group_limit else if premium then 5000 else 2000

unfoldable pub count_box : ℕ → Option Container → Option ℕ
count_box fuel none = some 0
count_box fuel (some c) = get_item_holding_count fuel c

unfoldable pub plus_one : Option ℕ → Option ℕ
plus_one none = none
plus_one (some n) = some (add_u32 n 1)

-- `addCount`. `inside` tells whether the depot is the top parent of the item.
unfoldable pub add_count : (ℕ → ItemType) → ℕ → Bool → Item → ℕ → Option ℕ
add_count items fuel inside i count =
    if not inside
    then plus_one (count_box fuel (get_container i))
    else some (if (items (object i).id).stackable && not ((object i).count == count) then 1 else 0)

unfoldable pub check_limit : ℕ → ReturnValue → Option ℕ → Option ℕ → Option DepotAnswer
check_limit max_depot_items r none added = none
check_limit max_depot_items r (some held) none = none
check_limit max_depot_items r (some held) (some added) =
    if ltb max_depot_items (add_u32 held added) then some depot_is_full else some (answered r)

-- DepotChest::queryAdd of a depot with the member `max_depot_items`.
unfoldable pub depot_query_add :
    (max_depot_items : ℕ)
    → (ℕ → ItemType)
    → List Cylinder
    → (ℕ → ℕ → ReturnValue)
    → (fuel : ℕ) (inside : Bool) → Index
    → Thing
    → ℕ
    → ℕ
    → Container
    → Option DepotAnswer
depot_query_add max_depot_items items parents top_query fuel inside index creature count flags c =
    some (answered not_possible)
depot_query_add max_depot_items items parents top_query fuel inside index (an_item i) count flags
      c =
    let r = query_add items parents top_query index (an_item i) count flags c in
    if has_bit_set flag_no_limit flags
    then some (answered r)
    else check_limit max_depot_items r (get_item_holding_count fuel c)
        (add_count items fuel inside i count)

-- Inbox::queryAdd.
unfoldable pub inbox_query_add : (ℕ → ItemType) → Thing → ℕ → Container → ReturnValue
inbox_query_add items creature flags c =
    if has_bit_set flag_no_limit flags then not_possible else container_not_enough_room
inbox_query_add items (an_item i) flags c =
    if not (has_bit_set flag_no_limit flags)
    then container_not_enough_room
    else if (object i).ref == c.self.ref
    then this_is_impossible
    else if not (items (object i).id).pickupable
    then cannot_pickup
    else no_error

-- All that an item is and holds is counted.
add_count-tally :
    (items : ℕ → ItemType) (fuel : ℕ) (i : Item) (count : ℕ)
    → tally each i ≤ fuel
    → add_count items fuel false i count ≡ some (u32 (tally each i))
unfolding add_count count_box plus_one get_container tally add_u32
add_count-tally items fuel (plain x) count h = ap some (omega arith)
add_count-tally items fuel (container x s xs) count h =
    let c : Container = record { self = x; shell = s; itemlist = xs } in
    ap plus_one (iterator-total c fuel (omega arith)).0 ∙ ap some (omega arith)

not_full :
    (r : ReturnValue) (b : Bool) (m n : ℕ)
    → ltb m n ≡ b
    → (if b then some depot_is_full else some (answered r)) ≡ some (answered no_error)
    → n ≤ m
not_full r true m n h e = ground arith
not_full r false m n h e = ltb_false→le m n h

checked :
    (max_depot_items : ℕ) (r : ReturnValue) (o p : Option ℕ) (held added : ℕ)
    → o ≡ some held
    → p ≡ some added
    → check_limit max_depot_items r o p ≡ some (answered no_error)
    → add_u32 held added ≤ max_depot_items
unfolding check_limit
checked max_depot_items r none p held added h k e = ground arith
checked max_depot_items r (some x) none held added h k e = ground arith
checked max_depot_items r (some x) (some y) held added h k e =
    let first : x ≡ held = some-injective x held h in
    let second : y ≡ added = some-injective y added k in
    rw⁻¹ (first, second) (not_full r (ltb max_depot_items (add_u32 x y)) _ _ refl e)

tally-add_thing :
    (items : ℕ → ItemType) (index : Index) (i : Item) (c : Container)
    → tally_all each (add_thing items index i c).result.itemlist
      ≤ tally_all each c.itemlist + tally each i
unfolding add_thing update_item_weight add_weight with_items unchanged tally
tally-add_thing items index i c = elim (Bool-cases (is_beyond index c)) [
  | inl beyond ↦ rw beyond (omega arith)
  | inr within ↦ rw within (omega arith)
]

sum_small : (a b : ℕ) → a + b < 2 ^ 32 → add_u32 (u32 a) (u32 b) ≡ a + b
unfolding add_u32
sum_small a b h = omega arith

-- If a depot allows that an item from outside is added, with no flag that lifts the limits, then it
-- holds at most as many items at every depth as its member maxDepotItems allows after the addition, those in the new item included; the
-- loops have enough fuel, and the numbers of the items together fit 32 bits.
pub depot_query_add-le :
    (max_depot_items : ℕ) (items : ℕ → ItemType) (parents : List Cylinder)
    (top_query : ℕ → ℕ → ReturnValue) (fuel : ℕ) (index place : Index) (i : Item) (count flags : ℕ)
    (c : Container)
    → has_bit_set flag_no_limit flags ≡ false
    → tally_all each c.itemlist ≤ fuel
    → tally each i ≤ fuel
    → tally_all each c.itemlist + tally each i < 2 ^ 32
    → depot_query_add max_depot_items items parents top_query fuel false index
        (an_item i)
        count
        flags
        c
      ≡ some (answered no_error)
    → tally_all each (add_thing items place i c).result.itemlist ≤ max_depot_items
unfolding depot_query_add
depot_query_add-le max_depot_items items parents top_query fuel index place i count flags c h k l
      small e =
    let limited =
      checked max_depot_items (query_add items parents top_query index (an_item i) count flags c)
        (get_item_holding_count fuel c) (add_count items fuel false i count)
        (u32 (tally_all each c.itemlist)) (u32 (tally each i)) (iterator-total c fuel k).0
        (add_count-tally items fuel i count l) (sym (rw h refl) ∙ e) in
    omega (arith, limited, tally-add_thing items place i c, sum_small _ _ small)
