-- ===== src/Containers/Queries/Removal.antt =====
-- src/container.cpp, queryRemove, removeThing and getItemTypeCount: what a removal takes away.
use otxlinux.Prelude.{
  ℕ, zero, suc, ◌+◌, ◌-◌, ◌≤◌, ◌<◌, ◌%◌, ◌^◌, ◌≡◌, refl, ap, sym, ◌∙◌, inl, inr, Bool-cases, true,
  false, Option, none, some, leb, ◌==◌, if◌then◌else◌, arith, u32, u8, add_u32, sub_u32,
}
use mathlib.Core.Option.{some-injective}
use otxlinux.Items.Object.{ItemType, count_by_type, set_item_count}
use otxlinux.Containers.{
  Item, plain, container, ItemDeque, nothing, item_then, Container, object, with_object,
  get_item_by_index, get_thing_index, set_at, erase_index,
}
use otxlinux.Containers.Operations.{
  new_count, update_item_weight, add_weight, with_items, exchange, change_item, change_at,
  remove_at, remove_item, remove_found, remove_thing,
}
use otxlinux.Containers.Queries.{
  no_error, item_at, thing_of, query_remove_item, query_remove_found, query_remove, type_count,
  get_item_type_count, all_type_counts, get_all_item_type_count,
}

-- How many of a kind a list holds, with no wrap-around.
unfoldable pub held : ℕ → ItemDeque → ℕ
held id nothing = 0
held id (item_then i xs) = (if (object i).id == id then (object i).count else 0) + held id xs

type_count-held :
    (items : ℕ → ItemType) (id : ℕ) (xs : ItemDeque) (n : ℕ)
    → type_count items id none xs (u32 n) ≡ u32 (n + held id xs)
unfolding type_count held count_by_type add_u32
type_count-held items id nothing n = omega arith
type_count-held items id (item_then i xs) n =
    let more : (u32 n + (object i).count) % 2 ^ 32 ≡ u32 (n + (object i).count) = omega arith in
    elim (Bool-cases ((object i).id == id)) [
      | inl same ↦
          rw (same, more) (type_count-held items id xs (n + (object i).count) ∙ omega arith)
      | inr other ↦ rw other (type_count-held items id xs n ∙ omega arith)
    ]

all_type_counts-type_count :
    (items : ℕ → ItemType) (id : ℕ) (xs : ItemDeque) (counts : ℕ → ℕ)
    → all_type_counts xs counts id ≡ type_count items id none xs (counts id)
unfolding all_type_counts type_count count_by_type
all_type_counts-type_count items id nothing counts = refl
all_type_counts-type_count items id (item_then i xs) counts =
    all_type_counts-type_count items id xs
      (λ k. if (object i).id == k then add_u32 (counts k) (object i).count else counts k)

-- The map of all counts has under each id what the count of that id alone is, when it starts empty,
-- and both are the sum of the counts of the items with that id, kept in 32 bits.
pub get_all_item_type_count-get_item_type_count :
    (items : ℕ → ItemType) (id : ℕ) (c : Container)
    → (get_all_item_type_count c (λ k. 0) id ≡ get_item_type_count items id none c)
      × (get_item_type_count items id none c ≡ u32 (held id c.itemlist))
unfolding get_all_item_type_count get_item_type_count
get_all_item_type_count-get_item_type_count items id c = (
  all_type_counts-type_count items id c.itemlist (λ k. 0),
  ap (type_count items id none c.itemlist) zero_word
      ∙ type_count-held items id c.itemlist 0
      ∙ ap u32 (omega arith),
)
  where
    zero_word : 0 ≡ u32 0
    zero_word = omega arith

held-set_at :
    (id : ℕ) (xs : ItemDeque) (n : ℕ) (old new : Item)
    → get_item_by_index xs n ≡ some old
    → held id (set_at xs n new) + held id (item_then old nothing)
      ≡ held id xs + held id (item_then new nothing)
unfolding held set_at get_item_by_index
held-set_at id nothing n old new h = ground arith
held-set_at id (item_then i xs) zero old new h =
    let same : i ≡ old = ground arith in rw same (omega arith)
held-set_at id (item_then i xs) (suc n) old new h = omega (arith, held-set_at id xs n old new h)

held-erase_index :
    (id : ℕ) (xs : ItemDeque) (n : ℕ) (old : Item)
    → get_item_by_index xs n ≡ some old
    → held id (erase_index xs n) + held id (item_then old nothing) ≡ held id xs
unfolding held erase_index get_item_by_index
held-erase_index id nothing n old h = ground arith
held-erase_index id (item_then i xs) zero old h =
    let same : i ≡ old = ground arith in rw same (omega arith)
held-erase_index id (item_then i xs) (suc n) old h = omega (arith, held-erase_index id xs n old h)

new_count-sub :
    (total count : ℕ) → count ≤ total → total < 256 → u8 (new_count total count) ≡ total - count
unfolding new_count sub_u32
new_count-sub total count h k =
    let left : (total + (2 ^ 32 - count % 2 ^ 32)) % 2 ^ 32 ≡ total - count = omega arith in
    let low : leb 0x80000000 (total - count) ≡ false = ground arith in
    rw left (rw low (omega arith))

-- The count of one item of the kind.
held-single :
    (id : ℕ) (i : Item) → (object i).id ≡ id → held id (item_then i nothing) ≡ (object i).count
unfolding held
held-single id i e = let same : ((object i).id == id) ≡ true = ground arith in rw same (omega arith)

-- The item of which some pieces are taken.
abbrev taken_from : ℕ → Item → Item
taken_from count i = with_object (λ x. set_item_count (new_count x.count count) x) i

taken_from-id : (count : ℕ) (i : Item) → (object (taken_from count i)).id ≡ (object i).id
unfolding with_object object set_item_count
taken_from-id count (plain x) = refl
taken_from-id count (container x s xs) = refl

taken_from-count :
    (count : ℕ) (i : Item)
    → (object (taken_from count i)).count ≡ u8 (new_count (object i).count count)
unfolding with_object object set_item_count
taken_from-count count (plain x) = refl
taken_from-count count (container x s xs) = refl

change_item-taken_from :
    (items : ℕ → ItemType) (n count : ℕ) (i : Item) (c : Container) (o : Option Item)
    → get_item_by_index c.itemlist n ≡ some i
    → o ≡ some i
    → (change_item items n (λ j. taken_from count j) c o).result.itemlist
      ≡ set_at c.itemlist n (taken_from count i)
unfolding change_item exchange update_item_weight add_weight with_items
change_item-taken_from items n count i c none e k = ground arith
change_item-taken_from items n count i c (some j) e k =
    ap (λ l. set_at c.itemlist n (taken_from count l)) (some-injective j i k)

held-remove_at :
    (items : ℕ → ItemType) (n count : ℕ) (i : Item) (c : Container)
    → get_item_by_index c.itemlist n ≡ some i
    → (items (object i).id).stackable ≡ true
    → count ≤ (object i).count
    → (object i).count < 256
    → held (object i).id (remove_at items n count i c).result.itemlist + count
      ≡ held (object i).id c.itemlist
unfolding remove_at change_at update_item_weight add_weight with_items
held-remove_at items n count i c e stack h k = elim (Bool-cases (count == (object i).count)) [
  | inl all ↦
      let amount : count ≡ (object i).count = ground arith in
      rw (stack, all)
        (omega (
          arith,
          held-erase_index (object i).id c.itemlist n i e,
          held-single (object i).id i refl,
        ))
  | inr part ↦
      let id = (object i).id in
      let list = change_item-taken_from items n count i c (get_item_by_index c.itemlist n) e e in
      rw (stack, part)
        (rw list (
          omega (
            arith,
            held-set_at id c.itemlist n i (taken_from count i) e,
            held-single id i refl,
            held-single id (taken_from count i) (taken_from-id count i),
            taken_from-count count i,
            new_count-sub (object i).count count h k,
          )))
]

held-remove_found :
    (items : ℕ → ItemType) (o : Option ℕ) (count : ℕ) (i : Item) (c : Container)
    → item_at c.itemlist o ≡ some i
    → (items (object i).id).stackable ≡ true
    → count ≤ (object i).count
    → (object i).count < 256
    → held (object i).id (remove_found items o count c).result.itemlist + count
      ≡ held (object i).id c.itemlist
unfolding remove_found item_at remove_item
held-remove_found items none count i c e stack h k = ground arith
held-remove_found items (some n) count i c e stack h k =
    ap (λ o. held (object i).id (remove_item items n count c o).result.itemlist + count) e
    ∙ held-remove_at items n count i c e stack h k

may_take :
    (items : ℕ → ItemType) (i : Item) (count flags : ℕ)
    → query_remove_item items i count flags ≡ no_error
    → (items (object i).id).stackable ≡ true
    → count ≤ (object i).count
unfolding query_remove_item
may_take items i count flags e stack = ground arith

-- If a container lets `count` pieces of a stack be removed, then the removal takes exactly so many of
-- that kind of item out of it, where the stack is the thing with the number in the container and its
-- count fits a byte: part of the stack, or all of it with its item.
pub query_remove-remove_thing :
    (items : ℕ → ItemType) (ref count flags : ℕ) (i : Item) (c : Container)
    → thing_of ref c.itemlist ≡ some i
    → (items (object i).id).stackable ≡ true
    → (object i).count < 256
    → query_remove items ref count flags c ≡ no_error
    → held (object i).id (remove_thing items ref count c).result.itemlist + count
      ≡ held (object i).id c.itemlist
unfolding query_remove query_remove_found thing_of remove_thing
query_remove-remove_thing items ref count flags i c e stack k allowed =
    let asked : query_remove_item items i count flags ≡ no_error =
      ap (λ o. query_remove_found items o count flags) (sym e) ∙ allowed in
    held-remove_found items (get_thing_index c.itemlist ref) count i c e stack
      (may_take items i count flags asked stack) k
