-- ===== src/Items/Equality.antt =====
-- src/item.cpp, Item::equals: the comparison of two lists of attributes.
use otxlinux.Prelude.{
  ℕ, zero, suc, ◌<◌, ◌≡◌, refl, ap, sym, ◌∙◌, ◌↔◌, inl, inr, Bool, Bool-cases, true, false, List,
  [], ◌∷◌, Option, none, some, ◌==◌, ltb, arith,
}
use otxlinux.Items.{
  Value, integer, text, Attribute, ItemAttributes, find_value, is_some, same_text, same_value,
  agrees_with, agree_on, same_bits, equal_attributes,
}
use otxlinux.Items.Values.{AreDistinct, IsConsistent, view, view-find_value}

pub same_text_refl : (s : List ℕ) → same_text s s ≡ true
unfolding same_text
same_text_refl [] = refl
same_text_refl (x ∷ xs) = ground (arith, same_text_refl xs)

same_text-eq : (s r : List ℕ) → same_text s r ≡ true → s ≡ r
unfolding same_text
same_text-eq [] [] h = refl
same_text-eq [] (y ∷ ys) h = ground arith
same_text-eq (x ∷ xs) [] h = ground arith
same_text-eq (x ∷ xs) (y ∷ ys) h = ground (arith, same_text-eq xs ys)

same_value_refl : (v : Value) → same_value v v ≡ true
unfolding same_value
same_value_refl (integer n) = ground arith
same_value_refl (text s) = same_text_refl s

same_value-eq : (v w : Value) → same_value v w ≡ true → v ≡ w
unfolding same_value
same_value-eq (integer n) (integer m) h = ground arith
same_value-eq (integer n) (text r) h = ground arith
same_value-eq (text s) (integer m) h = ground arith
same_value-eq (text s) (text r) h = ap text (same_text-eq s r h)

agrees_with-find_value :
    (x : Attribute) (ys : List Attribute) (w : Value)
    → agrees_with x ys ≡ true
    → find_value x.kind ys ≡ some w
    → same_value x.value w ≡ true
unfolding agrees_with find_value
agrees_with-find_value x [] w h k = ground arith
agrees_with-find_value x (y ∷ ys) w h k = ground (arith, agrees_with-find_value x ys w)

first :
    (x : Attribute) (xs : List Attribute) (u : ℕ) (v : Value)
    → (x.kind == u) ≡ true
    → find_value u (x ∷ xs) ≡ some v
    → x.value ≡ v
unfolding find_value
first x xs u v here k = ground arith

find_tail :
    (x : Attribute) (xs : List Attribute) (u : ℕ)
    → (x.kind == u) ≡ false
    → find_value u xs ≡ find_value u (x ∷ xs)
unfolding find_value
find_tail x xs u there = ground arith

agree_on-find_value :
    (xs ys : List Attribute) (u : ℕ) (v w : Value)
    → agree_on xs ys ≡ true
    → find_value u xs ≡ some v
    → find_value u ys ≡ some w
    → v ≡ w
unfolding agree_on find_value
agree_on-find_value [] ys u v w h k l = ground arith
agree_on-find_value (x ∷ xs) ys u v w h k l = elim (Bool-cases (x.kind == u)) [
  | inl here ↦
      let same : x.kind ≡ u = ground arith in
      let value : x.value ≡ v = first x xs u v here k in
      sym value
      ∙ same_value-eq x.value w
          (agrees_with-find_value x ys w (ground arith) (ap (λ t. find_value t ys) same ∙ l))
  | inr there ↦ agree_on-find_value xs ys u v w (ground arith) (find_tail x xs u there ∙ k) l
]

absent-agrees_with :
    (x : Attribute) (ys : List Attribute) → find_value x.kind ys ≡ none → agrees_with x ys ≡ true
unfolding agrees_with find_value
absent-agrees_with x [] k = refl
absent-agrees_with x (y ∷ ys) k = ground (arith, absent-agrees_with x ys)

find_value-agrees_with :
    (x : Attribute) (ys : List Attribute)
    → AreDistinct ys
    → find_value x.kind ys ≡ some x.value
    → agrees_with x ys ≡ true
unfolding agrees_with find_value AreDistinct
find_value-agrees_with x [] h k = refl
find_value-agrees_with x (y ∷ ys) h k = elim (Bool-cases (y.kind == x.kind)) [
  | inl here ↦
      let kinds : y.kind ≡ x.kind = ground arith in
      let values : y.value ≡ x.value = first y ys x.kind x.value here k in
      let same : same_value x.value y.value ≡ true =
        ap (λ v. same_value x.value v) values ∙ same_value_refl x.value in
      rw same
        (ground (arith, absent-agrees_with x ys (ap (λ t. find_value t ys) (sym kinds) ∙ h.0)))
  | inr there ↦ ground (arith, find_value-agrees_with x ys h.1 (find_tail y ys x.kind there ∙ k))
]

same_bits-at : (n u : ℕ) (f g : ℕ → Bool) → same_bits n f g ≡ true → u < n → f u ≡ g u
unfolding same_bits
same_bits-at zero u f g h k = absurd (omega arith)
same_bits-at (suc n) u f g h k = elim (Bool-cases (u == n)) [
  | inl here ↦
      let last : u ≡ n = ground arith in
      ap f last ∙ ground (arith, Bool-cases (f n), Bool-cases (g n)) ∙ sym (ap g last)
  | inr there ↦ same_bits-at n u f g (ground arith) (ground arith)
]

same_bits-all : (n : ℕ) (f g : ℕ → Bool) → ((u : ℕ) → f u ≡ g u) → same_bits n f g ≡ true
unfolding same_bits
same_bits-all zero f g h = refl
same_bits-all (suc n) f g h = rw (h n, same_bits-all n f g h) (ground arith)

find_head : (x : Attribute) (xs : List Attribute) → find_value x.kind (x ∷ xs) ≡ some x.value
unfolding find_value
find_head x xs = ground arith

within :
    (x : Attribute) (xs ys : List Attribute)
    → find_value x.kind xs ≡ none
    → ((u : ℕ) (v : Value) → find_value u (x ∷ xs) ≡ some v → find_value u ys ≡ some v)
    → (u : ℕ) (v : Value) → find_value u xs ≡ some v
    → find_value u ys ≡ some v
within x xs ys new sub u v k = elim (Bool-cases (x.kind == u)) [
  | inl here ↦
      let same : x.kind ≡ u = ground arith in
      let bad : none ≡ some v = sym new ∙ ap (λ t. find_value t xs) same ∙ k in ground arith
  | inr there ↦ sub u v (sym (find_tail x xs u there) ∙ k)
]

agree_on-all :
    (xs ys : List Attribute)
    → AreDistinct xs
    → AreDistinct ys
    → ((u : ℕ) (v : Value) → find_value u xs ≡ some v → find_value u ys ≡ some v)
    → agree_on xs ys ≡ true
unfolding agree_on AreDistinct
agree_on-all [] ys h k sub = refl
agree_on-all (x ∷ xs) ys h k sub = ground (
  arith,
  find_value-agrees_with x ys k (sub x.kind x.value (find_head x xs)),
  agree_on-all xs ys h.1 k (within x xs ys h.0 sub),
)

agree_options :
    (o p : Option Value)
    → is_some o ≡ is_some p
    → ((v w : Value) → o ≡ some v → p ≡ some w → v ≡ w)
    → o ≡ p
unfolding is_some
agree_options none none e f = refl
agree_options none (some w) e f = ground arith
agree_options (some v) none e f = ground arith
agree_options (some v) (some w) e f = ap some (f v w refl refl)

equal→view :
    (a b : ItemAttributes)
    → IsConsistent a
    → IsConsistent b
    → equal_attributes (some a) (some b) ≡ true
    → (t : ℕ) → find_value t a.list ≡ find_value t b.list
unfolding equal_attributes IsConsistent is_some
equal→view a b h k e t =
    let bits : t < 32 → a.bits t ≡ b.bits t = same_bits-at 32 t a.bits b.bits (ground arith) in
    let values : (v w : Value)
        → find_value t a.list ≡ some v
        → find_value t b.list ≡ some w
        → v ≡ w =
      λ v w. agree_on-find_value a.list b.list t v w (ground arith) in
    agree_options (find_value t a.list) (find_value t b.list)
      (elim (Bool-cases (ltb t 32)) [
        | inl small ↦ sym (h.0 t) ∙ bits (ground arith) ∙ k.0 t
        | inr big ↦ ap is_some (h.1 t (ground arith) ∙ sym (k.1 t (ground arith)))
      ])
      values

view→equal :
    (a b : ItemAttributes)
    → IsConsistent a
    → IsConsistent b
    → ((t : ℕ) → find_value t a.list ≡ find_value t b.list)
    → equal_attributes (some a) (some b) ≡ true
unfolding equal_attributes IsConsistent is_some
view→equal a b h k e =
    let bits : same_bits 32 a.bits b.bits ≡ true =
      same_bits-all 32 a.bits b.bits (λ t. h.0 t ∙ ap is_some (e t) ∙ sym (k.0 t)) in
    let values : agree_on a.list b.list ≡ true =
      agree_on-all a.list b.list h.2 k.2 (λ u v l. sym (e u) ∙ l) in
    ground arith

-- Two sets of attributes that are consistent count as equal exactly if they hold the same under
-- every type: neither the order of the lists nor the way they came about matters.
pub equal_attributes_iff :
    (a b : ItemAttributes)
    → IsConsistent a
    → IsConsistent b
    → (equal_attributes (some a) (some b) ≡ true) ↔ ((t : ℕ) → view a t ≡ view b t)
equal_attributes_iff a b h k = (
  λ e t. view-find_value a h t ∙ equal→view a b h k e t ∙ sym (view-find_value b k t),
  λ e. view→equal a b h k (λ t. sym (view-find_value a h t) ∙ e t ∙ view-find_value b k t),
)
