-- ===== src/Containers/Loads.antt =====
-- src/container.cpp: what any calls on containers and on containers in them do to their weights.
use otxlinux.Prelude.{
  ℕ, ◌≡◌, refl, ◌∙◌, inl, inr, Bool-cases, not, ◌&&◌, ◌==◌, List, [], ◌∷◌, Option, none, some,
  arith, add_u32, sub_u32,
}
use otxlinux.Items.Object.{ItemType}
use otxlinux.Containers.{
  is_beyond, Item, plain, container, item_then, Container, object, as_item, push_back,
  get_item_by_index, set_at, erase_index, get_thing_index, weight,
}
use otxlinux.Containers.Operations.{
  Updated, update_item_weight, with_items, internal_add_thing, add_thing, add_item_back, exchange,
  change_item, change_at, update_thing, replace_thing, remove_at, remove_item, remove_found,
  remove_thing, Call, adding, adding_back, adding_inside, updating, replacing, removing, perform,
  around, inside, perform_at,
}
use otxlinux.Containers.Weighing.{
  total, IsWeighed, AreWeighed, Fits, total-push_back, total-set_at, total-erase_index,
  push_back-AreWeighed, set_at-AreWeighed, erase_index-AreWeighed, get-IsWeighed,
  with_object-IsWeighed, unchanged-Fits, update_item_weight-Fits,
}

-- What a call puts into a container is weighed.
unfoldable pub Brings : (ℕ → ItemType) → Call → Type 0
Brings items (adding index i) = IsWeighed items i
Brings items (adding_back i) = IsWeighed items i
Brings items (adding_inside i) = IsWeighed items i
Brings items (updating ref id count) = Unit
Brings items (replacing index i) = IsWeighed items i
Brings items (removing ref count) = Unit

module _ (items : ℕ → ItemType) where
  contents : (c : Container) → IsWeighed items (as_item c) → AreWeighed items c.itemlist
  unfolding as_item IsWeighed
  contents c h = h.1

  pushed-Fits :
      (c : Container) (i : Item)
      → IsWeighed items (as_item c)
      → IsWeighed items i
      → Fits items c (update_item_weight (weight items i) (with_items (item_then i c.itemlist) c))
  unfolding total IsWeighed add_u32
  pushed-Fits c i h k =
      update_item_weight-Fits items c (item_then i c.itemlist) (weight items i) h (k, contents c h)
        (omega arith)

  exchange-Fits :
      (c : Container) (n : ℕ) (old new : Item)
      → IsWeighed items (as_item c)
      → get_item_by_index c.itemlist n ≡ some old
      → IsWeighed items new
      → Fits items c (exchange items n old new c)
  unfolding exchange
  exchange-Fits c n old new h e k =
      update_item_weight-Fits items c (set_at c.itemlist n new) _ h
        (set_at-AreWeighed items c.itemlist n new k (contents c h))
        (total-set_at items c.itemlist n old new e)

  change_item-Fits :
      (c : Container) (n : ℕ) (f : Item → Item) (o : Option Item)
      → IsWeighed items (as_item c)
      → get_item_by_index c.itemlist n ≡ o
      → ((i : Item) → IsWeighed items i → IsWeighed items (f i))
      → Fits items c (change_item items n f c o)
  unfolding change_item
  change_item-Fits c n f none h e k = unchanged-Fits items c h
  change_item-Fits c n f (some old) h e k =
      exchange-Fits c n old (f old) h e
        (k old (get-IsWeighed items c.itemlist n old e (contents c h)))

  change_at-Fits :
      (c : Container) (o : Option ℕ) (f : Item → Item)
      → IsWeighed items (as_item c)
      → ((i : Item) → IsWeighed items i → IsWeighed items (f i))
      → Fits items c (change_at items o f c)
  unfolding change_at
  change_at-Fits c none f h k = unchanged-Fits items c h
  change_at-Fits c (some n) f h k = change_item-Fits c n f (get_item_by_index c.itemlist n) h refl k

  remove_at-Fits :
      (c : Container) (n count : ℕ) (i : Item)
      → IsWeighed items (as_item c)
      → get_item_by_index c.itemlist n ≡ some i
      → Fits items c (remove_at items n count i c)
  unfolding remove_at
  remove_at-Fits c n count i h e =
      elim (Bool-cases ((items (object i).id).stackable && not (count == (object i).count))) [
        | inl part ↦ rw part (change_at-Fits c (some n) _ h (with_object-IsWeighed items _))
        | inr whole ↦ rw whole (
            update_item_weight-Fits items c (erase_index c.itemlist n) _ h
              (erase_index-AreWeighed items c.itemlist n (contents c h))
              (total-erase_index items c.itemlist n i e))
      ]

  remove_item-Fits :
      (c : Container) (n count : ℕ) (o : Option Item)
      → IsWeighed items (as_item c)
      → get_item_by_index c.itemlist n ≡ o
      → Fits items c (remove_item items n count c o)
  unfolding remove_item
  remove_item-Fits c n count none h e = unchanged-Fits items c h
  remove_item-Fits c n count (some i) h e = remove_at-Fits c n count i h e

  remove_found-Fits :
      (c : Container) (o : Option ℕ) (count : ℕ)
      → IsWeighed items (as_item c)
      → Fits items c (remove_found items o count c)
  unfolding remove_found
  remove_found-Fits c none count h = unchanged-Fits items c h
  remove_found-Fits c (some n) count h =
      remove_item-Fits c n count (get_item_by_index c.itemlist n) h refl

  perform-Fits :
      (call : Call) (c : Container)
      → IsWeighed items (as_item c)
      → Brings items call
      → Fits items c (perform items call c)
  unfolding perform Brings add_thing add_item_back internal_add_thing update_thing replace_thing
      remove_thing
  perform-Fits (adding index i) c h k = elim (Bool-cases (is_beyond index c)) [
    | inl beyond ↦ rw beyond (unchanged-Fits items c h)
    | inr within ↦ rw within (pushed-Fits c i h k)
  ]
  perform-Fits (adding_back i) c h k =
      update_item_weight-Fits items c (push_back i c.itemlist) (weight items i) h
        (push_back-AreWeighed items i c.itemlist k (contents c h))
        (total-push_back items i c.itemlist)
  perform-Fits (adding_inside i) c h k = pushed-Fits c i h k
  perform-Fits (updating ref id count) c h k =
      change_at-Fits c (get_thing_index c.itemlist ref) _ h (with_object-IsWeighed items _)
  perform-Fits (replacing index i) c h k = change_at-Fits c (some index) _ h (λ old w. k)
  perform-Fits (removing ref count) c h k =
      remove_found-Fits c (get_thing_index c.itemlist ref) count h

  -- The call has fitted if there was one.
  unfoldable pub MayFit : Container → Option Updated → Type 0
  MayFit c none = Unit
  MayFit c (some u) = Fits items c u

  shifted :
      (w t new d : ℕ) → new ≡ add_u32 w d → add_u32 t (add_u32 (sub_u32 0 w) new) ≡ add_u32 t d
  unfolding add_u32 sub_u32
  shifted w t new d e = rw e (omega arith)

  around-Fits :
      (c : Container) (n : ℕ) (inner : Container) (o : Option Updated)
      → IsWeighed items (as_item c)
      → get_item_by_index c.itemlist n ≡ some (as_item inner)
      → MayFit inner o
      → MayFit c (around n c o)
  unfolding around MayFit Fits
  around-Fits c n inner none h e f = tt
  around-Fits c n inner (some u) h e f =
      update_item_weight-Fits items c (set_at c.itemlist n (as_item u.result)) u.diff h
        (set_at-AreWeighed items c.itemlist n (as_item u.result) f.0 (contents c h))
        (total-set_at items c.itemlist n (as_item inner) (as_item u.result) e
          ∙ shifted (weight items (as_item inner)) (total items c.itemlist) _ u.diff f.1)

  inside-Fits :
      (f : Container → Option Updated) (c : Container) (n : ℕ) (o : Option Item)
      → ((inner : Container) → IsWeighed items (as_item inner) → MayFit inner (f inner))
      → IsWeighed items (as_item c)
      → get_item_by_index c.itemlist n ≡ o
      → MayFit c (inside f n c o)
  unfolding inside MayFit as_item
  inside-Fits f c n none g h e = tt
  inside-Fits f c n (some (plain x)) g h e = tt
  inside-Fits f c n (some (container x s xs)) g h e =
      let inner : Container = record { self = x; shell = s; itemlist = xs } in
      around-Fits c n inner (f inner) h e
        (g inner (get-IsWeighed items c.itemlist n (container x s xs) e (contents c h)))

  pub perform_at-Fits :
      (path : List ℕ) (call : Call) (c : Container)
      → IsWeighed items (as_item c)
      → Brings items call
      → MayFit c (perform_at items path call c)
  unfolding perform_at MayFit
  perform_at-Fits [] call c h k = perform-Fits call c h k
  perform_at-Fits (n ∷ path) call c h k =
      inside-Fits (perform_at items path call) c n (get_item_by_index c.itemlist n)
        (λ inner w. perform_at-Fits path call inner w k) h refl
