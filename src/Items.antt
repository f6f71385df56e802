-- ===== src/Items.antt =====
-- src/item.cpp and src/item.h: the attributes of an item (class ItemAttributes). A type of attribute
-- is the number of its bit; `bits` has the bits of `attributeBits`. An integer is kept as the 64 bits
-- of an `int64_t`. Which of the two kinds a value has is decided by the type, as for the union.
pub mod Values
pub mod Equality
pub mod Object
pub mod SubType
mod Examples
use otxlinux.Prelude.{
  ℕ, zero, suc, ◌+◌, Bool, true, false, not, ◌&&◌, ◌||◌, List, [], ◌∷◌, Option, none, some, leb,
  ◌==◌, if◌then◌else◌, is_empty, u64,
}

pub data Value : Type 0 where
  integer : ℕ → Value
  text : List ℕ → Value

pub record Attribute : Type 0 where
  pub kind : ℕ
  pub value : Value

pub record ItemAttributes : Type 0 where
  pub bits : ℕ → Bool
  pub list : List Attribute

-- The bits of 0x7FFE13 and of 0x1EC.
unfoldable pub is_int_attr_type : ℕ → Bool
is_int_attr_type t = leb t 1 || (t == 4) || (leb 9 t && leb t 22)

unfoldable pub is_str_attr_type : ℕ → Bool
is_str_attr_type t = (t == 2) || (t == 3) || (leb 5 t && leb t 8)

unfoldable pub no_attributes : ItemAttributes
no_attributes = record { bits = λ t. false; list = [] }

unfoldable pub find_value : ℕ → List Attribute → Option Value
find_value t [] = none
find_value t (x ∷ xs) = if x.kind == t then some x.value else find_value t xs

unfoldable pub get_existing_attr : ℕ → ItemAttributes → Option Value
get_existing_attr t a = if a.bits t then find_value t a.list else none

unfoldable pub is_some : Option Value → Bool
is_some none = false
is_some (some v) = true

unfoldable pub assign_value : ℕ → Value → List Attribute → List Attribute
assign_value t v [] = []
assign_value t v (x ∷ xs) =
    let rest = assign_value t v xs in if x.kind == t then record x { value = v } ∷ xs else x ∷ rest

-- A write through the reference that `getAttr` returns.
unfoldable pub write_attr : ℕ → Value → ItemAttributes → ItemAttributes
write_attr t v a =
    if a.bits t && is_some (find_value t a.list)
    then record a { list = assign_value t v a.list }
    else record {
      bits = λ u. if u == t then true else a.bits u;
      list = record { kind = t; value = v } ∷ a.list;
    }

unfoldable pub as_integer : Option Value → ℕ
as_integer none = 0
as_integer (some (integer n)) = n
as_integer (some (text s)) = 0

unfoldable pub as_text : Option Value → List ℕ
as_text none = []
as_text (some (integer n)) = []
as_text (some (text s)) = s

unfoldable pub get_int_attr : ℕ → ItemAttributes → ℕ
get_int_attr t a = if is_int_attr_type t then as_integer (get_existing_attr t a) else 0

unfoldable pub set_int_attr : ℕ → ℕ → ItemAttributes → ItemAttributes
set_int_attr t n a = if is_int_attr_type t then write_attr t (integer n) a else a

-- A new attribute is 0 before the addition.
unfoldable pub increase_int_attr : ℕ → ℕ → ItemAttributes → ItemAttributes
increase_int_attr t n a =
    if is_int_attr_type t
    then write_attr t (integer (u64 (as_integer (get_existing_attr t a) + n))) a
    else a

unfoldable pub get_str_attr : ℕ → ItemAttributes → List ℕ
get_str_attr t a = if is_str_attr_type t then as_text (get_existing_attr t a) else []

unfoldable pub set_str_attr : ℕ → List ℕ → ItemAttributes → ItemAttributes
set_str_attr t s a =
    if not (is_str_attr_type t) then a else if is_empty s then a else write_attr t (text s) a

-- The list with its first attribute of the type unlinked.
unfoldable pub unlink : ℕ → List Attribute → List Attribute
unlink t [] = []
unlink t (x ∷ xs) = let rest = unlink t xs in if x.kind == t then xs else x ∷ rest

unfoldable pub remove_attribute : ℕ → ItemAttributes → ItemAttributes
remove_attribute t a =
    if not (a.bits t)
    then a
    else record { bits = λ u. if u == t then false else a.bits u; list = unlink t a.list }

unfoldable pub same_text : List ℕ → List ℕ → Bool
same_text [] [] = true
same_text [] (y ∷ ys) = false
same_text (x ∷ xs) [] = false
same_text (x ∷ xs) (y ∷ ys) = (x == y) && same_text xs ys

unfoldable pub same_value : Value → Value → Bool
same_value (integer n) (integer m) = n == m
same_value (integer n) (text s) = false
same_value (text s) (integer n) = false
same_value (text s) (text r) = same_text s r

-- The two loops of Item::equals over the attributes.
unfoldable pub agrees_with : Attribute → List Attribute → Bool
agrees_with x [] = true
agrees_with x (y ∷ ys) =
    if (x.kind == y.kind) && not (same_value x.value y.value) then false else agrees_with x ys

unfoldable pub agree_on : List Attribute → List Attribute → Bool
agree_on [] ys = true
agree_on (x ∷ xs) ys = agrees_with x ys && agree_on xs ys

-- The comparison of the first `n` bits.
unfoldable pub same_bits : ℕ → (ℕ → Bool) → (ℕ → Bool) → Bool
same_bits zero f g = true
same_bits (suc n) f g = (if f n then g n else not (g n)) && same_bits n f g

-- What Item::equals compares behind the test of the ids.
unfoldable pub equal_attributes : Option ItemAttributes → Option ItemAttributes → Bool
equal_attributes none none = true
equal_attributes none (some b) = false
equal_attributes (some a) none = false
equal_attributes (some a) (some b) = same_bits 32 a.bits b.bits && agree_on a.list b.list
