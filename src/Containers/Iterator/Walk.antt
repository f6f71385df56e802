-- ===== src/Containers/Iterator/Walk.antt =====
-- src/container.cpp, class ContainerIterator: an iterator passes each item at every depth once.
use otxlinux.Prelude.{
  ℕ, zero, suc, ◌+◌, ◌≤◌, ◌≡◌, refl, ap, sym, ◌∙◌, Bool-cases, inl, inr, true, false, [], ◌∷◌, ◌++◌,
  some, ◌==◌, ltb, if◌then◌else◌, arith, add_u32, u32,
}
use otxlinux.Items.Object.{Object}
use otxlinux.Containers.{
  Item, plain, container, ItemDeque, nothing, item_then, Container, object, is_empty_deque,
}
use otxlinux.Containers.Iterator.{
  ContainerIterator, iterator, push_contents, advance, count_loop, get_item_holding_count,
  hold_loop, is_holding_item,
}

module _ (f : Object → ℕ) where
  -- The sum of `f` over an item and all that lies in it.
  unfoldable mutual
    pub tally : Item → ℕ
    tally (plain x) = f x
    tally (container x s xs) = f x + tally_all xs

    pub tally_all : ItemDeque → ℕ
    tally_all nothing = 0
    tally_all (item_then i xs) = tally i + tally_all xs

  unfoldable pub tally_over : ContainerIterator → ℕ
  tally_over [] = 0
  tally_over (xs ∷ over) = tally_all xs + tally_over over

  tally_over-append :
      (over : ContainerIterator) (xs : ItemDeque)
      → tally_over (over ++ xs ∷ []) ≡ tally_over over + tally_all xs
  unfolding tally_over
  tally_over-append [] xs = omega arith
  tally_over-append (ys ∷ over) xs = omega (arith, tally_over-append over xs)

  tally_over-add :
      (xs : ItemDeque) (over : ContainerIterator)
      → tally_over (if is_empty_deque xs then over else over ++ xs ∷ [])
        ≡ tally_over over + tally_all xs
  unfolding is_empty_deque tally
  tally_over-add nothing over = omega arith
  tally_over-add (item_then i xs) over = tally_over-append over (item_then i xs)

  tally_over-push_contents :
      (i : Item) (over : ContainerIterator)
      → tally i + tally_over over ≡ f (object i) + tally_over (push_contents i over)
  unfolding tally push_contents object
  tally_over-push_contents (plain x) over = refl
  tally_over-push_contents (container x s xs) over = omega (arith, tally_over-add xs over)

  pub tally_over-advance :
      (i : Item) (xs : ItemDeque) (over : ContainerIterator)
      → tally_over (item_then i xs ∷ over) ≡ f (object i) + tally_over (advance i xs over)
  unfolding tally tally_over advance is_empty_deque
  tally_over-advance i nothing over = omega (arith, tally_over-push_contents i over)
  tally_over-advance i (item_then j xs) over = omega (arith, tally_over-push_contents i over)

-- No list of an iterator is at its end.
unfoldable pub AreStarted : ContainerIterator → Type 0
AreStarted [] = Unit
AreStarted (xs ∷ over) = (is_empty_deque xs ≡ false) × AreStarted over

append-AreStarted :
    (over : ContainerIterator) (xs : ItemDeque)
    → AreStarted over
    → is_empty_deque xs ≡ false
    → AreStarted (over ++ xs ∷ [])
unfolding AreStarted
append-AreStarted [] xs h k = (k, tt)
append-AreStarted (ys ∷ over) xs h k = (h.0, append-AreStarted over xs h.1 k)

push_contents-AreStarted :
    (i : Item) (over : ContainerIterator) → AreStarted over → AreStarted (push_contents i over)
unfolding push_contents is_empty_deque
push_contents-AreStarted (plain x) over h = h
push_contents-AreStarted (container x s nothing) over h = h
push_contents-AreStarted (container x s (item_then j xs)) over h =
    append-AreStarted over (item_then j xs) h refl

advance-AreStarted :
    (i : Item) (xs : ItemDeque) (over : ContainerIterator)
    → AreStarted over
    → AreStarted (advance i xs over)
unfolding advance is_empty_deque AreStarted
advance-AreStarted i nothing over h = push_contents-AreStarted i over h
advance-AreStarted i (item_then j xs) over h = (refl, push_contents-AreStarted i over h)

iterator-AreStarted : (xs : ItemDeque) → AreStarted (if is_empty_deque xs then [] else xs ∷ [])
unfolding is_empty_deque AreStarted
iterator-AreStarted nothing = tt
iterator-AreStarted (item_then i xs) = (refl, tt)

tally_over-iterator :
    (f : Object → ℕ) (xs : ItemDeque)
    → tally_over f (if is_empty_deque xs then [] else xs ∷ []) ≡ tally_all f xs
unfolding is_empty_deque tally tally_over
tally_over-iterator f nothing = refl
tally_over-iterator f (item_then i xs) = omega arith

-- How many items lie in a container, and how often one object does.
abbrev pub each : Object → ℕ
each x = 1

abbrev pub only : ℕ → Object → ℕ
only ref x = if x.ref == ref then 1 else 0

count_loop-total :
    (fuel counter : ℕ) (over : ContainerIterator)
    → AreStarted over
    → tally_over each over ≤ fuel
    → count_loop fuel (u32 counter) over ≡ some (u32 (counter + tally_over each over))
unfolding count_loop tally_over AreStarted is_empty_deque add_u32
count_loop-total fuel counter [] h k = ap some (omega arith)
count_loop-total zero counter (nothing ∷ over) h k = ground arith
count_loop-total zero counter (item_then i xs ∷ over) h k =
    absurd (omega (arith, tally_over-advance each i xs over))
count_loop-total (suc fuel) counter (nothing ∷ over) h k = ground arith
count_loop-total (suc fuel) counter (item_then i xs ∷ over) h k =
    let counted : add_u32 (u32 counter) 1 ≡ u32 (counter + 1) = omega arith in
    ap (λ n. count_loop fuel n (advance i xs over)) counted
    ∙ count_loop-total fuel (counter + 1) (advance i xs over) (advance-AreStarted i xs over h.1)
        (omega (arith, tally_over-advance each i xs over))
    ∙ ap some (omega (arith, tally_over-advance each i xs over))

found : (a b : ℕ) → a ≡ suc b → true ≡ ltb 0 a
found a b h = ground arith

hold_loop-total :
    (fuel ref : ℕ) (over : ContainerIterator)
    → AreStarted over
    → tally_over each over ≤ fuel
    → hold_loop fuel ref over ≡ some (ltb 0 (tally_over (only ref) over))
unfolding hold_loop tally_over AreStarted is_empty_deque
hold_loop-total fuel ref [] h k = refl
hold_loop-total zero ref (nothing ∷ over) h k = ground arith
hold_loop-total zero ref (item_then i xs ∷ over) h k =
    absurd (omega (arith, tally_over-advance each i xs over))
hold_loop-total (suc fuel) ref (nothing ∷ over) h k = ground arith
hold_loop-total (suc fuel) ref (item_then i xs ∷ over) h k =
    let rest : hold_loop fuel ref (advance i xs over)
        ≡ some (ltb 0 (tally_over (only ref) (advance i xs over))) =
      hold_loop-total fuel ref (advance i xs over) (advance-AreStarted i xs over h.1)
        (omega (arith, tally_over-advance each i xs over)) in
    let step : tally_all (only ref) (item_then i xs) + tally_over (only ref) over
        ≡ only ref (object i) + tally_over (only ref) (advance i xs over) =
      tally_over-advance (only ref) i xs over in
    elim (Bool-cases ((object i).ref == ref)) [
      | inl here ↦ rw here (
          ap some
            (found _ (tally_over (only ref) (advance i xs over)) (step ∙ rw here (omega arith))))
      | inr there ↦ rw there (rest ∙ ap some (ap (ltb 0) (sym (step ∙ rw there (omega arith)))))
    ]

holding_count-total :
    (c : Container) (fuel : ℕ)
    → tally_all each c.itemlist ≤ fuel
    → get_item_holding_count fuel c ≡ some (u32 (tally_all each c.itemlist))
unfolding get_item_holding_count iterator
holding_count-total c fuel h =
    count_loop-total fuel 0 (iterator c) (iterator-AreStarted c.itemlist)
      (omega (arith, tally_over-iterator each c.itemlist))
    ∙ ap some (omega (arith, tally_over-iterator each c.itemlist))

holding_item-total :
    (c : Container) (fuel ref : ℕ)
    → tally_all each c.itemlist ≤ fuel
    → is_holding_item fuel ref c ≡ some (ltb 0 (tally_all (only ref) c.itemlist))
unfolding is_holding_item iterator
holding_item-total c fuel ref h =
    hold_loop-total fuel ref (iterator c) (iterator-AreStarted c.itemlist)
      (omega (arith, tally_over-iterator each c.itemlist))
    ∙ ap (λ n. some (ltb 0 n)) (tally_over-iterator (only ref) c.itemlist)

-- The two loops over the iterator of a container end, on any fuel that is not below the number of
-- items at every depth, and never read past the end of a list. The first counts those items, each
-- once, in 32 bits; the second finds an object exactly if it lies in the container at some depth.
pub iterator-total :
    (c : Container) (fuel : ℕ)
    → tally_all each c.itemlist ≤ fuel
    → (get_item_holding_count fuel c ≡ some (u32 (tally_all each c.itemlist)))
      × ((ref : ℕ) → is_holding_item fuel ref c ≡ some (ltb 0 (tally_all (only ref) c.itemlist)))
iterator-total c fuel h = (holding_count-total c fuel h, λ ref. holding_item-total c fuel ref h)
