-- ===== src/Containers/Operations.antt =====
-- src/container.cpp: the operations of a container that write, and what they do to the containers
-- around it.
use otxlinux.Prelude.{
  ℕ, not, ◌&&◌, List, [], ◌∷◌, Option, none, some, leb, ◌==◌, if◌then◌else◌, u8, u16, add_u32,
  sub_u32,
}
use otxlinux.Items.Object.{ItemType, set_id, set_sub_type, set_item_count}
use otxlinux.Containers.{
  Index, is_beyond, Item, plain, container, ItemDeque, item_then, Container, object, as_item,
  with_object, push_back, get_item_by_index, set_at, erase_index, get_thing_index, weight,
}

-- What a container is after a call, and the difference that `updateItemWeight` passes on.
pub record Updated : Type 0 where
  pub result : Container
  pub diff : ℕ

-- A call that returns early.
unfoldable pub unchanged : Container → Updated
unchanged c = record { result = c; diff = 0 }

-- `updateItemWeight` on one container.
unfoldable pub add_weight : ℕ → Container → Container
add_weight d c = record c {
  shell = record (c.shell) { total_weight = add_u32 c.shell.total_weight d };
}

unfoldable pub update_item_weight : ℕ → Container → Updated
update_item_weight d c = record { result = add_weight d c; diff = d }

unfoldable pub with_items : ItemDeque → Container → Container
with_items xs c = record c { itemlist = xs }

unfoldable pub new_count : ℕ → ℕ → ℕ
new_count held count = let left = sub_u32 held count in if leb 0x80000000 left then 0 else u8 left

module _ (items : ℕ → ItemType) where
  unfoldable pub internal_add_thing : Item → Container → Updated
  internal_add_thing i c =
      update_item_weight (weight items i) (with_items (item_then i c.itemlist) c)

  unfoldable pub add_thing : Index → Item → Container → Updated
  add_thing index i c =
      if is_beyond index c
      then unchanged c
      else update_item_weight (weight items i) (with_items (item_then i c.itemlist) c)

  unfoldable pub add_item_back : Item → Container → Updated
  add_item_back i c = update_item_weight (weight items i) (with_items (push_back i c.itemlist) c)

  -- An item of the list gets another state or another item its place.
  unfoldable pub exchange : ℕ → Item → Item → Container → Updated
  exchange index old new c =
      update_item_weight (add_u32 (sub_u32 0 (weight items old)) (weight items new))
        (with_items (set_at c.itemlist index new) c)

  unfoldable pub change_item : ℕ → (Item → Item) → Container → Option Item → Updated
  change_item index f c none = unchanged c
  change_item index f c (some old) = exchange index old (f old) c

  unfoldable pub change_at : Option ℕ → (Item → Item) → Container → Updated
  change_at none f c = unchanged c
  change_at (some index) f c = change_item index f c (get_item_by_index c.itemlist index)

  unfoldable pub update_thing : ℕ → ℕ → ℕ → Container → Updated
  update_thing ref id count c =
      change_at (get_thing_index c.itemlist ref)
        (with_object (λ x. set_sub_type items (u16 count) (set_id items id x))) c

  unfoldable pub replace_thing : ℕ → Item → Container → Updated
  replace_thing index new c = change_at (some index) (λ old. new) c

  unfoldable pub remove_at : ℕ → ℕ → Item → Container → Updated
  remove_at index count i c =
      if (items (object i).id).stackable && not (count == (object i).count)
      then change_at (some index) (with_object (λ x. set_item_count (new_count x.count count) x)) c
      else update_item_weight (sub_u32 0 (weight items i))
          (with_items (erase_index c.itemlist index) c)

  unfoldable pub remove_item : ℕ → ℕ → Container → Option Item → Updated
  remove_item index count c none = unchanged c
  remove_item index count c (some i) = remove_at index count i c

  unfoldable pub remove_found : Option ℕ → ℕ → Container → Updated
  remove_found none count c = unchanged c
  remove_found (some index) count c = remove_item index count c (get_item_by_index c.itemlist index)

  unfoldable pub remove_thing : ℕ → ℕ → Container → Updated
  remove_thing ref count c = remove_found (get_thing_index c.itemlist ref) count c

-- The container around the one that has changed: its list holds the changed container at `index`.
unfoldable pub around : ℕ → Container → Option Updated → Option Updated
around index c none = none
around index c (some u) =
    some (update_item_weight u.diff (with_items (set_at c.itemlist index (as_item u.result)) c))

-- `f` on the container that lies at the index of another one.
unfoldable pub inside : (Container → Option Updated) → ℕ → Container → Option Item → Option Updated
inside f index c none = none
inside f index c (some (plain x)) = none
inside f index c (some (container x s xs)) =
    around index c (f (record { self = x; shell = s; itemlist = xs }))

-- One call on a container.
pub data Call : Type 0 where
  adding : (index : Index) (i : Item) → Call
  adding_back : (i : Item) → Call
  adding_inside : (i : Item) → Call
  updating : (ref id count : ℕ) → Call
  replacing : (index : ℕ) (i : Item) → Call
  removing : (ref count : ℕ) → Call

module _ (items : ℕ → ItemType) where
  unfoldable pub perform : Call → Container → Updated
  perform (adding index i) c = add_thing items index i c
  perform (adding_back i) c = add_item_back items i c
  perform (adding_inside i) c = internal_add_thing items i c
  perform (updating ref id count) c = update_thing items ref id count c
  perform (replacing index i) c = replace_thing items index i c
  perform (removing ref count) c = remove_thing items ref count c

  -- A call on the container that lies at the end of the path. `none` is a path that leads nowhere.
  unfoldable pub perform_at : List ℕ → Call → Container → Option Updated
  perform_at [] call c = some (perform call c)
  perform_at (index ∷ path) call c =
      inside (perform_at path call) index c (get_item_by_index c.itemlist index)

  unfoldable pub then_perform : (Container → Option Container) → Option Updated → Option Container
  then_perform f none = none
  then_perform f (some u) = f u.result

  unfoldable pub perform_all : List (List ℕ × Call) → Container → Option Container
  perform_all [] c = some c
  perform_all (x ∷ xs) c = then_perform (perform_all xs) (perform_at x.0 x.1 c)
