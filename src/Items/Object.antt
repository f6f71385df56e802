-- ===== src/Items/Object.antt =====
-- src/item.cpp and src/item.h: an item with its id, its count and its attributes, and what ids mean
-- by the item database. `ref` is the number of the object, which is compared where the source
-- compares pointers.
use otxlinux.Prelude.{
  ℕ, ◌+◌, ◌*◌, Bool, false, not, ◌&&◌, ◌||◌, Option, none, some, max, leb, ◌==◌, if◌then◌else◌, u8,
  u16, u32,
}
use otxlinux.Items.{
  ItemAttributes, no_attributes, get_int_attr, set_int_attr, remove_attribute, equal_attributes,
}

-- The fields of an ItemType that the functions below read. `decay_forever` is `decayTo < 0`.
pub record ItemType : Type 0 where
  pub weight : ℕ
  pub charges : ℕ
  pub decay_time : ℕ
  pub decay_forever : Bool
  pub stackable : Bool
  pub pickupable : Bool
  pub moveable : Bool
  pub stop_time : Bool
  pub is_fluid_container : Bool
  pub is_splash : Bool

pub record Object : Type 0 where
  pub ref : ℕ
  pub id : ℕ
  pub count : ℕ
  pub attributes : Option ItemAttributes

abbrev pub weight_attribute : ℕ
weight_attribute = 9

abbrev pub duration_attribute : ℕ
duration_attribute = 17

abbrev pub decay_state_attribute : ℕ
decay_state_attribute = 18

abbrev pub corpse_owner_attribute : ℕ
corpse_owner_attribute = 19

abbrev pub charges_attribute : ℕ
charges_attribute = 20

abbrev pub fluid_type_attribute : ℕ
fluid_type_attribute = 21

unfoldable pub has_attribute : ℕ → Object → Bool
has_attribute t x = elim x.attributes [ none ↦ false | some a ↦ a.bits t ]

-- Item::getIntAttr and Item::setIntAttr go through an `int32_t`: its 32 bits are read, and its sign
-- is kept in the 64 bits that are written.
unfoldable pub get_int : ℕ → Object → ℕ
get_int t x = elim x.attributes [ none ↦ 0 | some a ↦ u32 (get_int_attr t a) ]

unfoldable pub sign_extend : ℕ → ℕ
sign_extend n = if leb 0x80000000 n then n + 0xFFFFFFFF00000000 else n

-- `getAttributes` makes the attributes when there are none.
unfoldable pub get_attributes : Object → ItemAttributes
get_attributes x = elim x.attributes [ none ↦ no_attributes | some a ↦ a ]

unfoldable pub set_int : ℕ → ℕ → Object → Object
set_int t n x = record x { attributes = some (set_int_attr t (sign_extend n) (get_attributes x)) }

unfoldable pub remove_item_attribute : ℕ → Object → Object
remove_item_attribute t x = elim x.attributes [
  | none ↦ x
  | some a ↦ record x { attributes = some (remove_attribute t a) }
]

unfoldable pub set_item_count : ℕ → Object → Object
set_item_count n x = record x { count = u8 n }

unfoldable pub equals : Object → Object → Bool
equals x y = (x.id == y.id) && equal_attributes x.attributes y.attributes

unfoldable pub set_duration : ℕ → Object → Object
set_duration n x = set_int duration_attribute n x

-- `items`, the database.
module _ (items : ℕ → ItemType) where
  unfoldable pub get_base_weight : Object → ℕ
  get_base_weight x =
      if has_attribute weight_attribute x
      then u32 (get_int weight_attribute x)
      else (items x.id).weight

  unfoldable pub get_weight : Object → ℕ
  get_weight x =
      if (items x.id).stackable then u32 (get_base_weight x * max 1 x.count) else get_base_weight x

  unfoldable pub get_sub_type : Object → ℕ
  get_sub_type x =
      let it = items x.id in
      if it.is_fluid_container || it.is_splash
      then u16 (get_int fluid_type_attribute x)
      else if it.stackable
      then x.count
      else if it.charges == 0
      then x.count
      else u16 (get_int charges_attribute x)

  unfoldable pub set_sub_type : ℕ → Object → Object
  set_sub_type n x =
      let it = items x.id in
      if it.is_fluid_container || it.is_splash
      then set_int fluid_type_attribute n x
      else if it.stackable
      then set_item_count n x
      else if it.charges == 0
      then set_item_count n x
      else set_int charges_attribute n x

  unfoldable pub is_reward_corpse : Object → Bool
  is_reward_corpse x = u32 (get_int corpse_owner_attribute x) == 0x7FFFFFFF

  unfoldable pub forget_decay : ItemType → Object → Object
  forget_decay it x =
      if (u32 (it.decay_time * 1000) == 0) && (not it.stop_time && it.decay_forever)
      then remove_item_attribute duration_attribute (remove_item_attribute decay_state_attribute x)
      else x

  unfoldable pub forget_owner : Object → Object
  forget_owner x =
      if not (is_reward_corpse x) then remove_item_attribute corpse_owner_attribute x else x

  unfoldable pub renew_decay : ItemType → ItemType → Object → Object
  renew_decay prev it x =
      if leb 1 (u32 (it.decay_time * 1000))
        && (not prev.stop_time || not (has_attribute duration_attribute x))
      then set_duration (u32 (it.decay_time * 1000)) (set_int decay_state_attribute 0 x)
      else x

  unfoldable pub set_id : ℕ → Object → Object
  set_id new x =
      let it = items new in
      renew_decay (items x.id) it (forget_owner (forget_decay it (record x { id = new })))

  unfoldable pub set_default_subtype : Object → Object
  set_default_subtype x =
      let it = items x.id in
      let one = set_item_count 1 x in
      if it.charges == 0
      then one
      else if it.stackable
      then set_item_count it.charges one
      else set_int charges_attribute (u16 it.charges) one

  -- `none` is the sub type -1.
  unfoldable pub count_by_type : Object → Option ℕ → ℕ
  count_by_type x none = x.count
  count_by_type x (some n) = if n == get_sub_type x then x.count else 0
