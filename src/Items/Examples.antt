-- ===== src/Items/Examples.antt =====
-- src/item.cpp: items and attributes on concrete values.
use otxlinux.Prelude.{ℕ, ◌≡◌, refl, ◌↔◌, true, List, [], ◌∷◌, none, some}
use otxlinux.Items.{
  Value, integer, text, ItemAttributes, no_attributes, find_value, get_existing_attr,
  is_int_attr_type, is_str_attr_type, write_attr, set_int_attr, set_str_attr, equal_attributes,
  is_some,
}
use otxlinux.Items.Values.{
  view, Call, writes_int, writes_str, removes, perform, perform_all, perform_all_map,
  no_attributes-IsConsistent, perform_all-IsConsistent, view-perform_all_new,
}
use otxlinux.Items.Equality.{equal_attributes_iff}

-- The attribute types 4, 2 and 20: a date, a description and charges.
abbrev calls : List Call
calls = writes_int 4 7 ∷ writes_str 2 (104 ∷ 105 ∷ []) ∷ writes_int 4 8 ∷ removes 2 ∷ []

abbrev other_calls : List Call
other_calls = writes_int 20 5 ∷ writes_int 4 8 ∷ removes 20 ∷ []

view-perform_all_new_example :
    view (perform_all calls no_attributes) ≡ perform_all_map calls (λ t. none)
view-perform_all_new_example = view-perform_all_new calls

equal_attributes_iff_example :
    (equal_attributes
        (some (perform_all calls no_attributes))
        (some (perform_all other_calls no_attributes))
      ≡ true)
    ↔ ((t : ℕ)
        → view (perform_all calls no_attributes) t ≡ view (perform_all other_calls no_attributes) t)
equal_attributes_iff_example =
    equal_attributes_iff (perform_all calls no_attributes) (perform_all other_calls no_attributes)
      (perform_all-IsConsistent calls no_attributes no_attributes-IsConsistent)
      (perform_all-IsConsistent other_calls no_attributes no_attributes-IsConsistent)

are_equal :
    equal_attributes
      (some (perform_all calls no_attributes))
      (some (perform_all other_calls no_attributes))
    ≡ true
unfolding equal_attributes perform_all perform no_attributes otxlinux.Items.same_bits
    otxlinux.Items.remove_attribute set_int_attr is_int_attr_type write_attr set_str_attr
    is_str_attr_type is_some find_value otxlinux.Items.agree_on otxlinux.Items.unlink
    otxlinux.Items.assign_value otxlinux.Items.agrees_with otxlinux.Items.same_value
are_equal = refl
