-- ===== src/WildcardTree/Structure.antt =====
-- src/wildcardtree.cpp, insert: the shape of the tree.
use mathlib.Core.Path.{subst}
use mathlib.Core.Option.{some-injective, none-ne-some}
use otxlinux.Prelude.{
  ◌≢◌, ℕ, ◌≡◌, refl, sym, ◌∙◌, inl, inr, Bool, true, false, Bool-cases, ==_false, List, [], ◌∷◌,
  Option, none, some, ◌==◌, arith,
}
use otxlinux.WildcardTree.{
  Node, node, Children, childless, child, find_child, mark, emplace, add_child, insert, is_bare,
}
use otxlinux.WildcardTree.Names.{
  contains, insert-contains, insert_keeps, child_or_new, find_child-emplace_other,
}

-- The children of a node have different characters, and no node but the root is bare, without
-- children and without a breakpoint.
unfoldable mutual
  pub IsTree : Node → Type 0
  IsTree (node b cs) = IsForest cs

  pub IsForest : Children → Type 0
  IsForest childless = Unit
  IsForest (child c n cs) =
      (find_child c cs ≡ none) × (is_bare n ≡ false) × (IsTree n × IsForest cs)

pub find_child-first :
    (ch c : ℕ) (n : Node) (cs : Children) → (c == ch) ≡ true → find_child ch (child c n cs) ≡ some n
unfolding find_child
find_child-first ch c n cs same = rw same

pub find_child-later :
    (ch c : ℕ) (n : Node) (cs : Children)
    → (c == ch) ≡ false
    → find_child ch (child c n cs) ≡ find_child ch cs
unfolding find_child
find_child-later ch c n cs differs = rw differs

-- A child of a tree is a tree that is not bare.
pub find_child-IsTree :
    (ch : ℕ) (cs : Children) (n : Node)
    → IsForest cs
    → find_child ch cs ≡ some n
    → IsTree n × (is_bare n ≡ false)
unfolding find_child IsForest
find_child-IsTree ch childless n h e = absurd (none-ne-some n e)
find_child-IsTree ch (child c m cs) n h e = elim (Bool-cases (c == ch)) [
  | inl same ↦
      subst (λ k. IsTree k × (is_bare k ≡ false))
        (some-injective m n (sym (find_child-first ch c m cs same) ∙ e)) (h.2.0, h.1)
  | inr differs ↦ find_child-IsTree ch cs n h.2.1 (sym (find_child-later ch c m cs differs) ∙ e)
]

child_or_new-IsTree :
    (ch : ℕ) (b : Bool) (cs : Children) → IsForest cs → IsTree (child_or_new b (find_child ch cs))
unfolding find_child child_or_new mark IsTree IsForest
child_or_new-IsTree ch b childless h = tt
child_or_new-IsTree ch b (child c (node e ds) cs) h = elim (Bool-cases (c == ch)) [
  | inl same ↦ rw same h.2.0
  | inr differs ↦ rw differs (child_or_new-IsTree ch b cs h.2.1)
]

emplace-IsForest :
    (ch : ℕ) (b : Bool) (f : Node → Node) (cs : Children)
    → IsForest cs
    → is_bare (f (child_or_new b (find_child ch cs))) ≡ false
    → IsTree (f (child_or_new b (find_child ch cs)))
    → IsForest (emplace ch b f cs)
unfolding find_child emplace child_or_new IsForest
emplace-IsForest ch b f childless h bare tree = (refl, bare, (tree, tt))
emplace-IsForest ch b f (child c n cs) h bare tree = elim (Bool-cases (c == ch)) [
  | inl same ↦
      let found = find_child-first ch c n cs same in
      rw same (
        h.0,
        subst (λ o. is_bare (f (child_or_new b o)) ≡ false) found bare,
        (subst (λ o. IsTree (f (child_or_new b o))) found tree, h.2.1),
      )
  | inr differs ↦
      let found = find_child-later ch c n cs differs in
      rw differs (
        find_child-emplace_other ch c b f cs (λ e. ==_false c ch differs (sym e)) ∙ h.0,
        h.1,
        (
          h.2.0,
          emplace-IsForest ch b f cs h.2.1
              (subst (λ o. is_bare (f (child_or_new b o)) ≡ false) found bare)
              (subst (λ o. IsTree (f (child_or_new b o))) found tree),
        ),
      )
]

emplace_is_not_bare :
    (ch : ℕ) (b e : Bool) (f : Node → Node) (cs : Children)
    → is_bare (node b (emplace ch e f cs)) ≡ false
unfolding emplace is_bare
emplace_is_not_bare ch b e f childless = refl
emplace_is_not_bare ch b e f (child c n cs) = ground arith

insert_is_not_bare : (ch : ℕ) (str : List ℕ) (n : Node) → is_bare (insert (ch ∷ str) n) ≡ false
unfolding insert add_child
insert_is_not_bare ch [] (node b cs) = emplace_is_not_bare ch b true (λ m. m) cs
insert_is_not_bare ch (d ∷ str) (node b cs) =
    emplace_is_not_bare ch b false (λ m. insert (d ∷ str) m) cs

breakpoint_is_not_bare : (o : Option Node) → is_bare (child_or_new true o) ≡ false
unfolding child_or_new mark is_bare
breakpoint_is_not_bare none = refl
breakpoint_is_not_bare (some (node b childless)) = ground arith
breakpoint_is_not_bare (some (node b (child c n cs))) = refl

-- A tree keeps its shape when a name is inserted.
pub insert-IsTree : (str : List ℕ) (n : Node) → IsTree n → IsTree (insert str n)
unfolding insert add_child IsTree
insert-IsTree [] n h = h
insert-IsTree (ch ∷ []) (node b cs) h =
    emplace-IsForest ch true (λ m. m) cs h (breakpoint_is_not_bare (find_child ch cs))
      (child_or_new-IsTree ch true cs h)
insert-IsTree (ch ∷ d ∷ str) (node b cs) h =
    emplace-IsForest ch false (λ m. insert (d ∷ str) m) cs h
      (insert_is_not_bare d str (child_or_new false (find_child ch cs)))
      (insert-IsTree (d ∷ str) (child_or_new false (find_child ch cs))
        (child_or_new-IsTree ch false cs h))

-- After `insert` of a name that is not empty into a tree the tree keeps its shape and holds that name,
-- and it holds any other name just if it held that before.
pub contains-insert :
    (str other : List ℕ) (n : Node)
    → IsTree n
    → str ≢ []
    → other ≢ str
    → IsTree (insert str n)
      × (contains str (insert str n) ≡ true)
      × (contains other (insert str n) ≡ contains other n)
contains-insert [] other n h full differs = absurd (full refl)
contains-insert (ch ∷ str) other n h full differs =
    (insert-IsTree (ch ∷ str) n h, insert-contains ch str n, insert_keeps ch str other n differs)
