-- ===== src/Containers/Examples.antt =====
-- src/container.cpp: a backpack with coins and a bag in it.
use otxlinux.Prelude.{
  ℕ, zero, suc, ◌+◌, ◌*◌, ◌≤◌, ◌^◌, ◌<◌, ◌≡◌, refl, Bool, true, false, ltb, List, [], ◌∷◌, Option,
  none, some, arith, u32,
}
use otxlinux.Items.Object.{
  ItemType, Object, get_weight, get_base_weight, has_attribute, set_item_count,
}
use otxlinux.Containers.{
  Index, wherever, at, is_beyond, Shell, Item, plain, container, ItemDeque, nothing, item_then,
  Container, object, as_item, weight, size, get_item_by_index, get_thing_index, set_at,
}
use otxlinux.Containers.Operations.{
  Call, adding, removing, add_thing, remove_thing, perform_all, perform_at,
}
use otxlinux.Containers.Weighing.{IsWeighed, total}
use otxlinux.Containers.Loads.{Brings}
use otxlinux.Containers.Sums.{sum_of, weight-exact, AllBring, perform_all-IsWeighed}
use otxlinux.Containers.Iterator.{get_item_holding_count, is_holding_item}
use otxlinux.Containers.Iterator.Walk.{tally, tally_all, each, only, iterator-total}
use otxlinux.Containers.Queries.{
  ReturnValue, no_error, is_no_error, has_bit_set, flag_child_is_owner, flag_no_limit, an_item,
  thing_of, item_at, query_add, query_max_count, query_remove, query_remove_found,
  query_remove_item,
}
use otxlinux.Containers.Depot.{answered, get_max_depot_items, depot_query_add, depot_query_add-le}
use otxlinux.Containers.Queries.Room.{accepts, query_add_iff, query_max_count-le}
use otxlinux.Containers.Queries.Removal.{held, query_remove-remove_thing}

abbrev coin_type : ItemType
coin_type = record {
  weight = 10;
  charges = 0;
  decay_time = 0;
  decay_forever = true;
  stackable = true;
  pickupable = true;
  moveable = true;
  stop_time = false;
  is_fluid_container = false;
  is_splash = false;
}

abbrev bag_type : ItemType
bag_type = record coin_type { weight = 800; stackable = false }

-- Coins have the id 0, bags any other.
abbrev types : ℕ → ItemType
types zero = coin_type
types (suc n) = bag_type

abbrev coins : ℕ → ℕ → Item
coins ref n = plain (record { ref = ref; id = 0; count = n; attributes = none })

abbrev bag : Object
bag = record { ref = 2; id = 1; count = 1; attributes = none }

abbrev backpack : Container
backpack = record {
  self = record { ref = 1; id = 2; count = 1; attributes = none };
  shell = record { capacity = 20; total_weight = 1100; unlocked = true };
  itemlist =
      item_then (container bag (record { capacity = 8; total_weight = 0; unlocked = true }) nothing)
        (item_then (coins 3 30) nothing);
}

backpack-IsWeighed : IsWeighed types (as_item backpack)
unfolding IsWeighed total weight as_item get_weight get_base_weight has_attribute
    otxlinux.Prelude.add_u32
backpack-IsWeighed = (refl, ((refl, tt), (tt, tt)))

-- Coins are put into the bag, and then some of the others are taken away.
abbrev calls : List (List ℕ × Call)
calls = (0 ∷ [], adding (at 0) (coins 4 5)) ∷ ([], removing 3 10) ∷ []

abbrev after : Container
after = record {
  self = record { ref = 1; id = 2; count = 1; attributes = none };
  shell = record { capacity = 20; total_weight = 1050; unlocked = true };
  itemlist =
      item_then
        (container bag (record { capacity = 8; total_weight = 50; unlocked = true })
          (item_then (coins 4 5) nothing))
        (item_then (coins 3 20) nothing);
}

run_calls : perform_all types calls backpack ≡ some after
unfolding perform_all perform_at get_weight weight get_base_weight has_attribute remove_thing
    add_thing is_beyond get_thing_index get_item_by_index set_at object as_item set_item_count
    otxlinux.Containers.with_object otxlinux.Prelude.add_u32 otxlinux.Prelude.sub_u32
    otxlinux.Containers.Operations.then_perform otxlinux.Containers.Operations.inside
    otxlinux.Containers.Operations.around otxlinux.Containers.Operations.perform
    otxlinux.Containers.Operations.remove_found otxlinux.Containers.Operations.remove_item
    otxlinux.Containers.Operations.remove_at otxlinux.Containers.Operations.change_at
    otxlinux.Containers.Operations.change_item otxlinux.Containers.Operations.exchange
    otxlinux.Containers.Operations.new_count otxlinux.Containers.Operations.update_item_weight
    otxlinux.Containers.Operations.add_weight otxlinux.Containers.Operations.with_items
run_calls = refl

calls-AllBring : AllBring types calls
unfolding AllBring Brings IsWeighed
calls-AllBring = (tt, (tt, tt))

perform_all-IsWeighed_example : IsWeighed types (as_item after)
perform_all-IsWeighed_example =
    perform_all-IsWeighed types calls backpack after backpack-IsWeighed calls-AllBring run_calls

backpack_light : sum_of types (as_item backpack) < 2 ^ 32
unfolding sum_of as_item get_weight get_base_weight has_attribute
backpack_light = omega arith

weight-exact_example : weight types (as_item backpack) ≡ sum_of types (as_item backpack)
weight-exact_example = weight-exact types backpack backpack-IsWeighed backpack_light

backpack_counted : tally_all each backpack.itemlist ≤ 2
unfolding tally_all
backpack_counted = omega arith

iterator-total_example :
    (get_item_holding_count 2 backpack ≡ some (u32 (tally_all each backpack.itemlist)))
    × ((ref : ℕ)
        → is_holding_item 2 ref backpack ≡ some (ltb 0 (tally_all (only ref) backpack.itemlist)))
iterator-total_example = iterator-total backpack 2 backpack_counted

new_coins_light : tally each (coins 5 7) ≤ 2
unfolding tally
new_coins_light = omega arith

all_light : tally_all each backpack.itemlist + tally each (coins 5 7) < 2 ^ 32
unfolding tally
all_light = omega arith

no_owner : has_bit_set flag_child_is_owner 0 ≡ false
unfolding has_bit_set
no_owner = refl

no_flags : has_bit_set flag_no_limit 0 ≡ false
unfolding has_bit_set
no_flags = refl

abbrev agree : ℕ → ℕ → ReturnValue
agree count flags = no_error

query_add_iff_example :
    is_no_error (query_add types [] agree wherever (an_item (coins 5 7)) 7 0 backpack)
    ≡ accepts types [] agree wherever (coins 5 7) 7 0 backpack
query_add_iff_example = query_add_iff types [] agree wherever (coins 5 7) 7 0 backpack no_owner

backpack_room : size backpack.itemlist ≤ backpack.shell.capacity
unfolding size
backpack_room = omega arith

query_max_count-le_example :
    ((query_max_count types [] agree wherever (an_item (coins 5 7)) 7 0 backpack).1 ≤ 100 * 20)
    × ((types 0).stackable ≡ true
        → (query_max_count types [] agree wherever (an_item (coins 5 7)) 7 0 backpack).0 ≡ no_error
        → 7 ≤ (query_max_count types [] agree wherever (an_item (coins 5 7)) 7 0 backpack).1)
unfolding object
query_max_count-le_example =
    query_max_count-le types [] agree wherever (coins 5 7) 7 0 backpack no_flags backpack_room

coins_found : thing_of 3 backpack.itemlist ≡ some (coins 3 30)
unfolding thing_of item_at get_thing_index get_item_by_index object
coins_found = refl

coins_allowed : query_remove types 3 10 0 backpack ≡ no_error
unfolding query_remove query_remove_found query_remove_item thing_of item_at get_thing_index
    get_item_by_index object
coins_allowed = refl

coins_small : (object (coins 3 30)).count < 256
unfolding object
coins_small = omega arith

coins_stack : (types (object (coins 3 30)).id).stackable ≡ true
unfolding object
coins_stack = refl

query_remove-remove_thing_example :
    held (object (coins 3 30)).id (remove_thing types 3 10 backpack).result.itemlist + 10
    ≡ held (object (coins 3 30)).id backpack.itemlist
query_remove-remove_thing_example =
    query_remove-remove_thing types 3 10 0 (coins 3 30) backpack coins_found coins_stack coins_small
      coins_allowed

depot_allows :
    depot_query_add
      (get_max_depot_items 0 false)
      types
      []
      agree
      2
      false
      wherever
      (an_item (coins 5 7))
      7
      0
      backpack
    ≡ some (answered no_error)
unfolding depot_query_add get_max_depot_items has_bit_set get_item_holding_count query_add object
    size otxlinux.Containers.is_empty_deque otxlinux.Containers.get_container
    otxlinux.Prelude.add_u32 otxlinux.Containers.Depot.check_limit
    otxlinux.Containers.Depot.add_count otxlinux.Containers.Depot.plus_one
    otxlinux.Containers.Depot.count_box otxlinux.Containers.Iterator.count_loop
    otxlinux.Containers.Iterator.iterator otxlinux.Containers.Iterator.advance
    otxlinux.Containers.Iterator.push_contents otxlinux.Containers.Queries.query_add_item
    otxlinux.Containers.Queries.query_room otxlinux.Containers.Queries.has_top_parent
    otxlinux.Containers.Queries.is_full_for otxlinux.Containers.Queries.or_return
    otxlinux.Containers.Queries.query_top otxlinux.Containers.Queries.search_limited
    otxlinux.Containers.Queries.search_unlimited otxlinux.Containers.Queries.is_no_error
depot_allows = refl

depot_query_add-le_example :
    tally_all each (add_thing types wherever (coins 5 7) backpack).result.itemlist
    ≤ get_max_depot_items 0 false
depot_query_add-le_example =
    depot_query_add-le (get_max_depot_items 0 false) types [] agree 2 wherever wherever (coins 5 7)
      7 0 backpack no_flags backpack_counted new_coins_light all_light depot_allows
