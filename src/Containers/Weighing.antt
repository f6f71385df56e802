-- ===== src/Containers/Weighing.antt =====
-- src/container.cpp, updateItemWeight and getWeight: the total weight of every container.
use otxlinux.Prelude.{ℕ, zero, suc, ◌^◌, ◌<◌, ◌≡◌, sym, some, arith, add_u32, sub_u32}
use mathlib.Core.Path.{subst}
use otxlinux.Items.Object.{ItemType, Object}
use otxlinux.Containers.{
  Item, plain, container, ItemDeque, nothing, item_then, Container, as_item, with_object, push_back,
  get_item_by_index, set_at, erase_index, weight,
}
use otxlinux.Containers.Operations.{Updated, unchanged, add_weight, update_item_weight, with_items}

module _ (items : ℕ → ItemType) where
  unfoldable pub total : ItemDeque → ℕ
  total nothing = 0
  total (item_then i xs) = add_u32 (weight items i) (total xs)

  -- The total weight that a container remembers is that of the items in it, at every depth.
  unfoldable mutual
    pub IsWeighed : Item → Type 0
    IsWeighed (plain x) = Unit
    IsWeighed (container x s xs) = (s.total_weight ≡ total xs) × AreWeighed xs

    pub AreWeighed : ItemDeque → Type 0
    AreWeighed nothing = Unit
    AreWeighed (item_then i xs) = IsWeighed i × AreWeighed xs

  pub total-lt : (xs : ItemDeque) → total xs < 2 ^ 32
  unfolding total add_u32
  total-lt nothing = omega arith
  total-lt (item_then i xs) = omega arith

  pub total-push_back :
      (i : Item) (xs : ItemDeque) → total (push_back i xs) ≡ add_u32 (total xs) (weight items i)
  unfolding total push_back add_u32
  total-push_back i nothing = omega arith
  total-push_back i (item_then j xs) = omega (arith, total-push_back i xs)

  pub total-set_at :
      (xs : ItemDeque) (n : ℕ) (old new : Item)
      → get_item_by_index xs n ≡ some old
      → total (set_at xs n new)
        ≡ add_u32 (total xs) (add_u32 (sub_u32 0 (weight items old)) (weight items new))
  unfolding total set_at get_item_by_index add_u32 sub_u32
  total-set_at nothing n old new h = ground arith
  total-set_at (item_then i xs) zero old new h =
      let same : i ≡ old = ground arith in rw (sym same) (omega arith)
  total-set_at (item_then i xs) (suc n) old new h = omega (arith, total-set_at xs n old new h)

  pub total-erase_index :
      (xs : ItemDeque) (n : ℕ) (old : Item)
      → get_item_by_index xs n ≡ some old
      → total (erase_index xs n) ≡ add_u32 (total xs) (sub_u32 0 (weight items old))
  unfolding total erase_index get_item_by_index add_u32 sub_u32
  total-erase_index nothing n old h = ground arith
  total-erase_index (item_then i xs) zero old h =
      let same : i ≡ old = ground arith in rw (sym same) (omega (arith, total-lt xs))
  total-erase_index (item_then i xs) (suc n) old h = omega (arith, total-erase_index xs n old h)

  pub push_back-AreWeighed :
      (i : Item) (xs : ItemDeque) → IsWeighed i → AreWeighed xs → AreWeighed (push_back i xs)
  unfolding push_back IsWeighed
  push_back-AreWeighed i nothing h k = (h, tt)
  push_back-AreWeighed i (item_then j xs) h k = (k.0, push_back-AreWeighed i xs h k.1)

  pub set_at-AreWeighed :
      (xs : ItemDeque) (n : ℕ) (i : Item) → IsWeighed i → AreWeighed xs → AreWeighed (set_at xs n i)
  unfolding set_at IsWeighed
  set_at-AreWeighed nothing n i h k = tt
  set_at-AreWeighed (item_then j xs) zero i h k = (h, k.1)
  set_at-AreWeighed (item_then j xs) (suc n) i h k = (k.0, set_at-AreWeighed xs n i h k.1)

  pub erase_index-AreWeighed :
      (xs : ItemDeque) (n : ℕ) → AreWeighed xs → AreWeighed (erase_index xs n)
  unfolding erase_index IsWeighed
  erase_index-AreWeighed nothing n k = tt
  erase_index-AreWeighed (item_then j xs) zero k = k.1
  erase_index-AreWeighed (item_then j xs) (suc n) k = (k.0, erase_index-AreWeighed xs n k.1)

  pub get-IsWeighed :
      (xs : ItemDeque) (n : ℕ) (i : Item)
      → get_item_by_index xs n ≡ some i
      → AreWeighed xs
      → IsWeighed i
  unfolding get_item_by_index IsWeighed
  get-IsWeighed nothing n i h k = ground arith
  get-IsWeighed (item_then j xs) zero i h k =
      let same : j ≡ i = ground arith in subst IsWeighed same k.0
  get-IsWeighed (item_then j xs) (suc n) i h k = get-IsWeighed xs n i h k.1

  pub with_object-IsWeighed :
      (f : Object → Object) (i : Item) → IsWeighed i → IsWeighed (with_object f i)
  unfolding with_object IsWeighed
  with_object-IsWeighed f (plain x) h = tt
  with_object-IsWeighed f (container x s xs) h = h

  -- The new container is weighed, and `diff` is what its own weight has changed by.
  unfoldable pub Fits : Container → Updated → Type 0
  Fits c u =
      IsWeighed (as_item u.result)
      × (weight items (as_item u.result) ≡ add_u32 (weight items (as_item c)) u.diff)

  pub unchanged-Fits : (c : Container) → IsWeighed (as_item c) → Fits c (unchanged c)
  unfolding Fits unchanged weight as_item add_u32
  unchanged-Fits c h = (h, omega arith)

  pub update_item_weight-Fits :
      (c : Container) (xs : ItemDeque) (d : ℕ)
      → IsWeighed (as_item c)
      → AreWeighed xs
      → total xs ≡ add_u32 (total c.itemlist) d
      → Fits c (update_item_weight d (with_items xs c))
  unfolding Fits update_item_weight add_weight with_items as_item IsWeighed weight add_u32
  update_item_weight-Fits c xs d h k e = ((omega (arith, h.0, e), k), omega arith)
