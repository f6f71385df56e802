-- ===== src/Containers/Destination/Points.antt =====
-- src/container.cpp, queryDestination: where a thing is put.
use mathlib.Core.Option.{some-injective}
use otxlinux.Prelude.{
  ℕ, zero, suc, ◌+◌, ◌≤◌, ◌<◌, ◌≡◌, refl, ap, sym, ◌∙◌, inl, inr, Bool, Bool-cases, true, false,
  not, ◌||◌, Option, none, some, leb, ◌==◌, if◌then◌else◌, arith,
}
use otxlinux.Items.Object.{ItemType}
use otxlinux.Containers.{
  Index, wherever, at, is_beyond, Item, ItemDeque, nothing, item_then, Container, size,
  get_container, get_item_by_index,
}
use otxlinux.Containers.Queries.{an_item, is_stack_for}
use otxlinux.Containers.Destination.{
  Destination, enter, settle_index, stack_target, stacked_or, enter_item, free_index, is_move_up,
  is_stacked, destination_of, query_destination,
}

-- An index of the destination is one of the container, and the item is the one that lies there.
unfoldable pub Points : Container → Destination → Type 0
Points c d =
    (n : ℕ)
    → d.index ≡ at n
    → (d.dest_item ≡ get_item_by_index c.itemlist n) × (n < c.shell.capacity)

pub at-eq : (n m : ℕ) → at n ≡ at m → n ≡ m
at-eq n m h = ground arith

pub wherever-ne : {A : Type 0} (n : ℕ) → wherever ≡ at n → A
wherever-ne n h = ground arith

enter_item-Points :
    (c : Container) (n : ℕ) (j : Item) (o : Option Container)
    → get_item_by_index c.itemlist n ≡ some j
    → n < c.shell.capacity
    → Points c (enter_item n j o)
unfolding Points enter_item
enter_item-Points c n j none e h m k =
    let same : n ≡ m = at-eq n m k in (sym e ∙ ap (get_item_by_index c.itemlist) same, omega arith)
enter_item-Points c n j (some d) e h m k = wherever-ne m k

enter-Points :
    (c : Container) (n : ℕ) (o : Option Item)
    → get_item_by_index c.itemlist n ≡ o
    → n < c.shell.capacity
    → Points c (enter n o)
unfolding Points enter
enter-Points c n none e h m k =
    let same : n ≡ m = at-eq n m k in (sym e ∙ ap (get_item_by_index c.itemlist) same, omega arith)
enter-Points c n (some j) e h m k = enter_item-Points c n j (get_container j) e h m k

get_item_by_index-lt :
    (xs : ItemDeque) (n : ℕ) (i : Item) → get_item_by_index xs n ≡ some i → n < size xs
unfolding get_item_by_index size
get_item_by_index-lt nothing n i h = ground arith
get_item_by_index-lt (item_then j xs) zero i h = omega arith
get_item_by_index-lt (item_then j xs) (suc n) i h = omega (arith, get_item_by_index-lt xs n i h)

-- The search finds the first item to stack with, at its index, counted from `n`.
unfoldable pub IsFirst : Item → ItemDeque → ℕ → Option (ℕ × Item) → Type 0
IsFirst i xs n none =
    (k : ℕ) (j : Item) → get_item_by_index xs k ≡ some j → is_stack_for i j ≡ false
IsFirst i xs n (some x) =
    (k : ℕ) × (x.0 ≡ n + k)
    × (get_item_by_index xs k ≡ some x.1)
    × (is_stack_for i x.1 ≡ true)
    × ((l : ℕ) (j : Item) → l < k → get_item_by_index xs l ≡ some j → is_stack_for i j ≡ false)

IsFirst-later :
    (i j : Item) (xs : ItemDeque) (n : ℕ) (o : Option (ℕ × Item))
    → is_stack_for i j ≡ false
    → IsFirst i xs (n + 1) o
    → IsFirst i (item_then j xs) n o
unfolding IsFirst get_item_by_index
IsFirst-later i j xs n none other h = all
  where
    all :
        (k : ℕ) (j' : Item)
        → get_item_by_index (item_then j xs) k ≡ some j'
        → is_stack_for i j' ≡ false
    all zero j' e = ap (is_stack_for i) (sym (some-injective j j' e)) ∙ other
    all (suc k) j' e = h k j' e
IsFirst-later i j xs n (some x) other (k, count, there, fits, before) =
    (suc k, omega arith, there, fits, earlier)
  where
    earlier :
        (l : ℕ) (j' : Item)
        → l < suc k
        → get_item_by_index (item_then j xs) l ≡ some j'
        → is_stack_for i j' ≡ false
    earlier zero j' less e = ap (is_stack_for i) (sym (some-injective j j' e)) ∙ other
    earlier (suc l) j' less e = before l j' (omega arith) e

pub stack_target-IsFirst :
    (i : Item) (xs : ItemDeque) (n : ℕ) → IsFirst i xs n (stack_target i xs n)
unfolding stack_target IsFirst get_item_by_index
stack_target-IsFirst i nothing n = λ k j e. ground arith
stack_target-IsFirst i (item_then j xs) n = elim (Bool-cases (is_stack_for i j)) [
  | inl found ↦ rw found (zero, omega arith, refl, found, λ l j' less e. absurd (omega arith))
  | inr other ↦
      rw other (
        IsFirst-later i j xs n (stack_target i xs (n + 1)) other
          (stack_target-IsFirst i xs (n + 1)))
]

stacked_or-Points :
    (i : Item) (c : Container) (d : Destination) (o : Option (ℕ × Item))
    → size c.itemlist ≤ c.shell.capacity
    → Points c d
    → IsFirst i c.itemlist 0 o
    → Points c (stacked_or d o)
unfolding stacked_or Points IsFirst
stacked_or-Points i c d none s h k m e = h m e
stacked_or-Points i c d (some x) s h k m e =
    let index : m ≡ k.0 = sym (at-eq x.0 m e) ∙ k.1 ∙ omega arith in
    (
      sym k.2 ∙ ap (get_item_by_index c.itemlist) (sym index),
      omega (arith, get_item_by_index-lt c.itemlist k.0 x.1 k.2),
    )

settle_index-Points :
    (c : Container) (index : Index)
    → ((n : ℕ) → index ≡ at n → n < c.shell.capacity)
    → Points c (settle_index index c)
unfolding settle_index Points
settle_index-Points c wherever h m k = wherever-ne m k
settle_index-Points c (at n) h m k =
    enter-Points c n (get_item_by_index c.itemlist n) refl (h n refl) m k

if_at : (b : Bool) (m n : ℕ) → (if b then wherever else at m) ≡ at n → (b ≡ false) × (m ≡ n)
if_at true m n h = wherever-ne n h
if_at false m n h = (refl, at-eq m n h)

free_index-lt :
    (c : Container) (index : Index) (n : ℕ) → free_index index c ≡ at n → n < c.shell.capacity
unfolding free_index is_beyond
free_index-lt c wherever n h = wherever-ne n h
free_index-lt c (at m) n h =
    let kept = if_at ((m == 255) || leb c.shell.capacity m) m n h in
    let within : leb c.shell.capacity m ≡ false = ground (arith, kept.0) in
    ground (arith, kept.1, within)

destination_of-Points :
    (items : ℕ → ItemType) (auto_stack : Bool) (index : Index) (i : Item) (flags : ℕ)
    (c : Container)
    → size c.itemlist ≤ c.shell.capacity
    → ((n : ℕ) → index ≡ at n → n < c.shell.capacity)
    → Points c (destination_of items auto_stack index (an_item i) flags c)
unfolding destination_of
destination_of-Points items auto_stack index i flags c s h =
    elim (Bool-cases (is_stacked items auto_stack i flags c)) [
      | inl stack ↦ rw stack (
          stacked_or-Points i c (settle_index index c) (stack_target i c.itemlist 0) s
            (settle_index-Points c index h) (stack_target-IsFirst i c.itemlist 0))
      | inr no_stack ↦ rw no_stack (settle_index-Points c index h)
    ]

moved_up-Points : (c : Container) (d : Destination) → d.index ≡ wherever → Points c d
unfolding Points
moved_up-Points c d h n k = wherever-ne n (sym h ∙ k)

unlocked-Points :
    (c : Container) (b : Bool) (d e : Destination)
    → b ≡ true
    → Points c e
    → Points c (if not b then d else e)
unlocked-Points c true d e h k = k
unlocked-Points c false d e h k = ground arith

-- If the destination of an item in an unlocked container that is not over its capacity has an index,
-- then it is one of a slot below the capacity, and the item to put it on is the one that lies there,
-- or none where the slot is free.
pub query_destination-Points :
    (items : ℕ → ItemType) (auto_stack parent_is_container : Bool) (index : Index) (i : Item)
    (flags : ℕ) (c : Container)
    → c.shell.unlocked ≡ true
    → size c.itemlist ≤ c.shell.capacity
    → Points c (query_destination items auto_stack parent_is_container index (an_item i) flags c)
unfolding query_destination
query_destination-Points items auto_stack parent_is_container index i flags c open_now s =
    unlocked-Points c c.shell.unlocked _ _ open_now (elim (Bool-cases (is_move_up index)) [
      | inl up ↦ rw up (moved_up-Points c _ refl)
      | inr here ↦ rw here (
          destination_of-Points items auto_stack (free_index index c) i flags c s
            (λ n. free_index-lt c index n))
    ])
