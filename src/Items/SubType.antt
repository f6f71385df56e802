-- ===== src/Items/SubType.antt =====
-- src/item.cpp, Item::getSubType and Item::setSubType.
use otxlinux.Prelude.{
  ℕ, ◌≡◌, refl, ap, ◌∙◌, inl, inr, Bool, Bool-cases, not, Option-cases, true, ◌||◌, some, ◌==◌,
  if◌then◌else◌, u8, u16, u32, arith,
}
use otxlinux.Items.{ItemAttributes, is_int_attr_type}
use otxlinux.Items.Values.{IsConsistent, get_int_attr-set_int_attr, no_attributes-IsConsistent}
use otxlinux.Items.Object.{
  ItemType, Object, get_int, set_int, sign_extend, get_attributes, set_item_count,
  fluid_type_attribute, charges_attribute, get_sub_type, set_sub_type,
}

-- The attributes, if there are any, are consistent.
unfoldable pub HasConsistentAttributes : Object → Type 0
HasConsistentAttributes x = (a : ItemAttributes) → x.attributes ≡ some a → IsConsistent a

-- Items of these types keep the sub type in 16 bits of an attribute, the others in the count.
unfoldable pub in_attribute : ItemType → Bool
in_attribute it = it.is_fluid_container || it.is_splash || not (it.stackable || (it.charges == 0))

get_attributes-IsConsistent :
    (x : Object) → HasConsistentAttributes x → IsConsistent (get_attributes x)
unfolding get_attributes HasConsistentAttributes
get_attributes-IsConsistent x h = elim (Option-cases x.attributes) [
  | inl without ↦ rw without no_attributes-IsConsistent
  | inr has ↦ rw (has.1) (h has.0 has.1)
]

u32-sign_extend : (n : ℕ) → u32 (sign_extend n) ≡ u32 n
unfolding sign_extend
u32-sign_extend n = ground arith

get_int-set_int :
    (t n : ℕ) (x : Object)
    → is_int_attr_type t ≡ true
    → HasConsistentAttributes x
    → get_int t (set_int t n x) ≡ u32 n
unfolding get_int set_int
get_int-set_int t n x k h =
    ap u32 (
      get_int_attr-set_int_attr t (sign_extend n) (get_attributes x)
        (get_attributes-IsConsistent x h) k)
    ∙ u32-sign_extend n

u16-u32 : (n : ℕ) → u16 (u32 n) ≡ u16 n
u16-u32 n = omega arith

fluid_kind : is_int_attr_type fluid_type_attribute ≡ true
unfolding is_int_attr_type
fluid_kind = refl

charges_kind : is_int_attr_type charges_attribute ≡ true
unfolding is_int_attr_type
charges_kind = refl

id-set_sub_type : (items : ℕ → ItemType) (n : ℕ) (x : Object) → (set_sub_type items n x).id ≡ x.id
unfolding set_sub_type set_int set_item_count
id-set_sub_type items n x = ground arith

-- The sub type that is set is the one that is read: 16 bits of it for fluids, splashes and items
-- with charges, 8 bits for all others, if the attributes of the item are consistent.
pub get_sub_type-set_sub_type :
    (items : ℕ → ItemType) (n : ℕ) (x : Object)
    → HasConsistentAttributes x
    → get_sub_type items (set_sub_type items n x)
      ≡ (if in_attribute (items x.id) then u16 n else u8 n)
unfolding get_sub_type set_sub_type in_attribute set_item_count
get_sub_type-set_sub_type items n x h =
    rw (id-set_sub_type items n x)
      (elim (Bool-cases ((items x.id).is_fluid_container || (items x.id).is_splash)) [
        | inl fluid ↦
            rw fluid (ap u16 (get_int-set_int fluid_type_attribute n x fluid_kind h) ∙ u16-u32 n)
        | inr no_fluid ↦ elim (Bool-cases (items x.id).stackable) [
          | inl stack ↦ rw (no_fluid, stack) refl
          | inr single ↦ elim (Bool-cases ((items x.id).charges == 0)) [
            | inl plain ↦ rw (no_fluid, single, plain) refl
            | inr charged ↦
                rw (no_fluid, single, charged)
                  (ap u16 (get_int-set_int charges_attribute n x charges_kind h) ∙ u16-u32 n)
          ]
        ]
      ])
