-- ===== src/Containers/Sums.antt =====
-- src/container.cpp, getWeight: the weight of a container is that of all that lies in it.
use otxlinux.Prelude.{
  ℕ, ◌+◌, ◌^◌, ◌<◌, ◌≡◌, refl, ap, true, false, ◌&&◌, ◌==◌, List, [], ◌∷◌, Option, none, some,
  arith, add_u32, sub_u32, u32,
}
use mathlib.Core.Path.{subst}
use mathlib.Core.Option.{some-injective}
use otxlinux.Items.Object.{ItemType, get_weight}
use otxlinux.Containers.{
  Index, is_beyond, Item, plain, container, ItemDeque, nothing, item_then, Container, object,
  as_item, get_item_by_index, erase_index, get_thing_index, weight,
}
use otxlinux.Containers.Operations.{
  Updated, add_weight, update_item_weight, with_items, add_thing, remove_at, remove_item,
  remove_found, remove_thing, Call, perform_at, then_perform, perform_all,
}
use otxlinux.Containers.Weighing.{total, IsWeighed, AreWeighed, Fits}
use otxlinux.Containers.Loads.{Brings, MayFit, perform_at-Fits}

module _ (items : ℕ → ItemType) where
  -- The sum of the weights of the single items, at every depth, with no wrap-around.
  unfoldable mutual
    pub sum_of : Item → ℕ
    sum_of (plain x) = get_weight items x
    sum_of (container x s xs) = get_weight items x + sum_of_all xs

    pub sum_of_all : ItemDeque → ℕ
    sum_of_all nothing = 0
    sum_of_all (item_then i xs) = sum_of i + sum_of_all xs

  mutual
    unfolding sum_of weight IsWeighed total add_u32

    weight-sum_of : (i : Item) → IsWeighed items i → u32 (weight items i) ≡ u32 (sum_of i)
    weight-sum_of (plain x) h = refl
    weight-sum_of (container x s xs) h = omega (arith, h.0, total-sum_of xs h.1)

    total-sum_of : (xs : ItemDeque) → AreWeighed items xs → total items xs ≡ u32 (sum_of_all xs)
    total-sum_of nothing h = omega arith
    total-sum_of (item_then i xs) h = omega (arith, weight-sum_of i h.0, total-sum_of xs h.1)

weight-lt : (items : ℕ → ItemType) (c : Container) → weight items (as_item c) < 2 ^ 32
unfolding weight as_item add_u32
weight-lt items c = omega arith

-- If the total weights of a container and of those in it are right, then its weight is the sum of the
-- weights of all single items in it, at every depth, and its own, as long as that sum fits 32 bits.
pub weight-exact :
    (items : ℕ → ItemType) (c : Container)
    → IsWeighed items (as_item c)
    → sum_of items (as_item c) < 2 ^ 32
    → weight items (as_item c) ≡ sum_of items (as_item c)
unfolding as_item
weight-exact items c h small = omega (arith, weight-sum_of items (as_item c) h, weight-lt items c)

unfoldable pub AllBring : (ℕ → ItemType) → List (List ℕ × Call) → Type 0
AllBring items [] = Unit
AllBring items (x ∷ xs) = Brings items x.1 × AllBring items xs

then_perform-IsWeighed :
    (items : ℕ → ItemType) (f : Container → Option Container) (c c' : Container)
    (o : Option Updated)
    → ((d : Container) → IsWeighed items (as_item d) → f d ≡ some c' → IsWeighed items (as_item c'))
    → MayFit items c o
    → then_perform items f o ≡ some c'
    → IsWeighed items (as_item c')
unfolding then_perform MayFit Fits
then_perform-IsWeighed items f c c' none g h e = ground arith
then_perform-IsWeighed items f c c' (some u) g h e = g u.result h.0 e

-- Whatever is added, put back, updated, replaced or removed in a container and in the containers in
-- it, the total weights of all of them stay right, if they were and if those of the items that are
-- put in are: each container, at every depth, remembers the sum of the weights of its items.
pub perform_all-IsWeighed :
    (items : ℕ → ItemType) (xs : List (List ℕ × Call)) (c c' : Container)
    → IsWeighed items (as_item c)
    → AllBring items xs
    → perform_all items xs c ≡ some c'
    → IsWeighed items (as_item c')
unfolding perform_all AllBring
perform_all-IsWeighed items [] c c' h k e =
    subst (λ d. IsWeighed items (as_item d)) (some-injective c c' e) h
perform_all-IsWeighed items (x ∷ xs) c c' h k e =
    then_perform-IsWeighed items (perform_all items xs) c c' (perform_at items x.0 x.1 c)
      (λ d w. perform_all-IsWeighed items xs d c' w k.1) (perform_at-Fits items x.0 x.1 c h k.0) e

cancelled : (t w : ℕ) → t < 2 ^ 32 → add_u32 (add_u32 t w) (sub_u32 0 w) ≡ t
unfolding add_u32 sub_u32
cancelled t w h = omega arith

-- An item that is put into a container at an index below its capacity and then removed as a whole
-- leaves the container as it was, with its total weight.
pub remove_thing-add_thing :
    (items : ℕ → ItemType) (index : Index) (i : Item) (c : Container)
    → is_beyond index c ≡ false
    → c.shell.total_weight < 2 ^ 32
    → (remove_thing items (object i).ref (object i).count (add_thing items index i c).result).result
      ≡ c
unfolding remove_thing add_thing remove_found remove_item remove_at get_thing_index
    get_item_by_index erase_index update_item_weight add_weight with_items
remove_thing-add_thing items index i c within small =
    let here : ((object i).ref == (object i).ref) ≡ true = ground arith in
    let whole : ((object i).count == (object i).count) ≡ true = ground arith in
    let single : ((items (object i).id).stackable && false) ≡ false = ground arith in
    rw within (
      rw here (
        rw whole (
          rw single (
            ap (λ t. record c { shell = record (c.shell) { total_weight = t } })
              (cancelled c.shell.total_weight (weight items i) small)))))
