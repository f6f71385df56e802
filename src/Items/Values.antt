-- ===== src/Items/Values.antt =====
-- src/item.cpp, ItemAttributes: the list with its bits is a map from types to values.
use otxlinux.Prelude.{
  ℕ, ◌+◌, ◌<◌, ◌≡◌, refl, ap, ◌∙◌, inl, inr, Bool-cases, true, false, not, ◌&&◌, List, [], ◌∷◌,
  Option, none, some, ◌==◌, if◌then◌else◌, arith, is_empty, u64, Option-cases,
}
use otxlinux.Items.{
  Value, integer, text, Attribute, ItemAttributes, is_int_attr_type, is_str_attr_type,
  no_attributes, find_value, get_existing_attr, is_some, assign_value, write_attr, as_integer,
  get_int_attr, set_int_attr, increase_int_attr, set_str_attr, unlink, remove_attribute,
}

-- Each type stands once at most in the list.
unfoldable pub AreDistinct : List Attribute → Type 0
AreDistinct [] = Unit
AreDistinct (x ∷ xs) = (find_value x.kind xs ≡ none) × AreDistinct xs

-- The bits tell which types are in the list, and they are bits of a 32-bit word.
unfoldable pub IsConsistent : ItemAttributes → Type 0
IsConsistent a =
    ((t : ℕ) → a.bits t ≡ is_some (find_value t a.list))
    × ((t : ℕ) → 31 < t → find_value t a.list ≡ none)
    × AreDistinct a.list

find_value-assign :
    (t u : ℕ) (v : Value) (xs : List Attribute)
    → find_value u (assign_value t v xs)
      ≡ (if (u == t) && is_some (find_value t xs) then some v else find_value u xs)
unfolding find_value assign_value is_some
find_value-assign t u v [] = ground arith
find_value-assign t u v (x ∷ xs) = ground (arith, find_value-assign t u v xs)

find_value-unlink :
    (t u : ℕ) (xs : List Attribute)
    → AreDistinct xs
    → find_value u (unlink t xs) ≡ (if u == t then none else find_value u xs)
unfolding find_value unlink AreDistinct
find_value-unlink t u [] h = ground arith
find_value-unlink t u (x ∷ xs) h = ground (arith, find_value-unlink t u xs h.1)

assign_value-AreDistinct :
    (t : ℕ) (v : Value) (xs : List Attribute) → AreDistinct xs → AreDistinct (assign_value t v xs)
unfolding AreDistinct assign_value
assign_value-AreDistinct t v [] h = tt
assign_value-AreDistinct t v (x ∷ xs) h = elim (Bool-cases (x.kind == t)) [
  | inl here ↦ rw here h
  | inr there ↦
      rw there
        ((find_value-assign t x.kind v xs ∙ rw there h.0, assign_value-AreDistinct t v xs h.1))
]

unlink-AreDistinct : (t : ℕ) (xs : List Attribute) → AreDistinct xs → AreDistinct (unlink t xs)
unfolding AreDistinct unlink
unlink-AreDistinct t [] h = tt
unlink-AreDistinct t (x ∷ xs) h = elim (Bool-cases (x.kind == t)) [
  | inl here ↦ rw here h.1
  | inr there ↦
      rw there ((find_value-unlink t x.kind xs h.1 ∙ rw there h.0, unlink-AreDistinct t xs h.1))
]

-- What the attributes hold under each type.
abbrev pub view : ItemAttributes → ℕ → Option Value
view a t = get_existing_attr t a

pub view-find_value :
    (a : ItemAttributes) → IsConsistent a → (t : ℕ) → view a t ≡ find_value t a.list
unfolding get_existing_attr IsConsistent is_some
view-find_value a h t = ground (arith, h.0 t, Option-cases (find_value t a.list))

view-write_attr :
    (a : ItemAttributes) (t : ℕ) (v : Value)
    → IsConsistent a
    → (u : ℕ) → view (write_attr t v a) u ≡ (if u == t then some v else view a u)
unfolding get_existing_attr write_attr IsConsistent find_value is_some
view-write_attr a t v h u = elim (Option-cases (find_value t a.list)) [
  | inl new ↦ let bit : a.bits t ≡ false = h.0 t ∙ ap is_some new in rw bit (ground arith)
  | inr old ↦
      let bit : a.bits t ≡ true = h.0 t ∙ ap is_some old.1 in
      rw bit (rw (old.1) (ground (arith, find_value-assign t u v a.list, h.0 u)))
]

write_attr-IsConsistent :
    (a : ItemAttributes) (t : ℕ) (v : Value)
    → t < 32
    → IsConsistent a
    → IsConsistent (write_attr t v a)
unfolding write_attr IsConsistent find_value AreDistinct is_some
write_attr-IsConsistent a t v small h = elim (Option-cases (find_value t a.list)) [
  | inl new ↦
      let bit : a.bits t ≡ false = h.0 t ∙ ap is_some new in
      rw bit ((λ u. ground (arith, h.0 u), λ u big. ground (arith, h.1 u big), (new, h.2)))
  | inr old ↦
      let bit : a.bits t ≡ true = h.0 t ∙ ap is_some old.1 in
      rw bit (
        rw (old.1) (
          (
            λ u. ground (arith, find_value-assign t u v a.list, h.0 u),
            λ u big. ground (arith, find_value-assign t u v a.list, h.1 u big),
            assign_value-AreDistinct t v a.list h.2,
          )))
]

view-remove_attribute :
    (a : ItemAttributes) (t : ℕ)
    → IsConsistent a
    → (u : ℕ) → view (remove_attribute t a) u ≡ (if u == t then none else view a u)
unfolding get_existing_attr remove_attribute IsConsistent
view-remove_attribute a t h u = elim (Bool-cases (a.bits t)) [
  | inl there ↦ rw there (ground (arith, find_value-unlink t u a.list h.2, h.0 u))
  | inr gone ↦ rw gone (ground arith)
]

remove_attribute-IsConsistent :
    (a : ItemAttributes) (t : ℕ) → IsConsistent a → IsConsistent (remove_attribute t a)
unfolding remove_attribute IsConsistent is_some
remove_attribute-IsConsistent a t h = elim (Bool-cases (a.bits t)) [
  | inl there ↦ rw there (
      (
        λ u. ground (arith, find_value-unlink t u a.list h.2, h.0 u),
        λ u big. ground (arith, find_value-unlink t u a.list h.2, h.1 u),
        unlink-AreDistinct t a.list h.2,
      ))
  | inr gone ↦ rw gone h
]

int_type-lt : (t : ℕ) → is_int_attr_type t ≡ true → t < 32
unfolding is_int_attr_type
int_type-lt t h = ground arith

str_type-lt : (t : ℕ) → is_str_attr_type t ≡ true → t < 32
unfolding is_str_attr_type
str_type-lt t h = ground arith

pub no_attributes-IsConsistent : IsConsistent no_attributes
unfolding no_attributes IsConsistent find_value is_some AreDistinct
no_attributes-IsConsistent = (λ t. refl, λ t big. refl, tt)

-- A call of a member function of ItemAttributes that writes.
pub data Call : Type 0 where
  writes_int : (t n : ℕ) → Call
  increases_int : (t n : ℕ) → Call
  writes_str : (t : ℕ) (s : List ℕ) → Call
  removes : (t : ℕ) → Call

unfoldable pub perform : Call → ItemAttributes → ItemAttributes
perform (writes_int t n) a = set_int_attr t n a
perform (increases_int t n) a = increase_int_attr t n a
perform (writes_str t s) a = set_str_attr t s a
perform (removes t) a = remove_attribute t a

unfoldable pub perform_all : List Call → ItemAttributes → ItemAttributes
perform_all [] a = a
perform_all (w ∷ ws) a = perform_all ws (perform w a)

-- The same calls on a map from types to values.
unfoldable pub put_in_map : ℕ → Option Value → (ℕ → Option Value) → ℕ → Option Value
put_in_map t o f u = if u == t then o else f u

unfoldable pub perform_map : Call → (ℕ → Option Value) → ℕ → Option Value
perform_map (writes_int t n) f = if is_int_attr_type t then put_in_map t (some (integer n)) f else f
perform_map (increases_int t n) f =
    if is_int_attr_type t then put_in_map t (some (integer (u64 (as_integer (f t) + n)))) f else f
perform_map (writes_str t s) f =
    if is_str_attr_type t && not (is_empty s) then put_in_map t (some (text s)) f else f
perform_map (removes t) f = put_in_map t none f

unfoldable pub perform_all_map : List Call → (ℕ → Option Value) → ℕ → Option Value
perform_all_map [] f = f
perform_all_map (w ∷ ws) f = perform_all_map ws (perform_map w f)

pub perform-IsConsistent :
    (w : Call) (a : ItemAttributes) → IsConsistent a → IsConsistent (perform w a)
unfolding perform set_int_attr increase_int_attr set_str_attr
perform-IsConsistent (writes_int t n) a h =
    ground (arith, write_attr-IsConsistent a t (integer n), int_type-lt t)
perform-IsConsistent (increases_int t n) a h =
    ground (
      arith,
      write_attr-IsConsistent a t (integer (u64 (as_integer (view a t) + n))),
      int_type-lt t,
    )
perform-IsConsistent (writes_str t s) a h =
    ground (arith, write_attr-IsConsistent a t (text s), str_type-lt t)
perform-IsConsistent (removes t) a h = remove_attribute-IsConsistent a t h

view-perform :
    (w : Call) (a : ItemAttributes)
    → IsConsistent a
    → (u : ℕ) → view (perform w a) u ≡ perform_map w (view a) u
unfolding perform perform_map put_in_map set_int_attr increase_int_attr set_str_attr
view-perform (writes_int t n) a h u = ground (arith, view-write_attr a t (integer n) h u)
view-perform (increases_int t n) a h u =
    ground (arith, view-write_attr a t (integer (u64 (as_integer (view a t) + n))) h u)
view-perform (writes_str t s) a h u = ground (arith, view-write_attr a t (text s) h u)
view-perform (removes t) a h u = view-remove_attribute a t h u

pub get_int_attr-set_int_attr :
    (t n : ℕ) (a : ItemAttributes)
    → IsConsistent a
    → is_int_attr_type t ≡ true
    → get_int_attr t (set_int_attr t n a) ≡ n
unfolding get_int_attr set_int_attr as_integer
get_int_attr-set_int_attr t n a h k =
    let same : (t == t) ≡ true = ground arith in
    rw k (rw (view-write_attr a t (integer n) h t) (rw same refl))

pub perform_all-IsConsistent :
    (ws : List Call) (a : ItemAttributes) → IsConsistent a → IsConsistent (perform_all ws a)
unfolding perform_all
perform_all-IsConsistent [] a h = h
perform_all-IsConsistent (w ∷ ws) a h =
    perform_all-IsConsistent ws (perform w a) (perform-IsConsistent w a h)

view-perform_all :
    (ws : List Call) (a : ItemAttributes)
    → IsConsistent a
    → view (perform_all ws a) ≡ perform_all_map ws (view a)
unfolding perform_all perform_all_map
view-perform_all [] a h = refl
view-perform_all (w ∷ ws) a h =
    view-perform_all ws (perform w a) (perform-IsConsistent w a h)
    ∙ ap (perform_all_map ws) (λ i u. view-perform w a h u i)

-- Whatever is written to the attributes of an item, they hold what the same calls make of a map from
-- types to values: the last value under each type, in any order of the types, with no value lost to
-- another type. So the list with its bits, which finds, replaces and unlinks, implements that map,
-- and the calls with a type of the wrong kind do nothing in both.
pub view-perform_all_new :
    (ws : List Call) → view (perform_all ws no_attributes) ≡ perform_all_map ws (λ t. none)
unfolding no_attributes get_existing_attr
view-perform_all_new ws = view-perform_all ws no_attributes no_attributes-IsConsistent
