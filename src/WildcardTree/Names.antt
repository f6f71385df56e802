-- ===== src/WildcardTree/Names.antt =====
-- src/wildcardtree.cpp, insert and remove: which names a tree holds after them.
use mathlib.Core.Path.{subst}
use otxlinux.Prelude.{
  ℕ, ◌≡◌, ◌≢◌, refl, ap, sym, ◌∙◌, ◌⊎◌, inl, inr, Bool, true, false, Bool-cases, ==_iff, ==_false,
  List, [], ◌∷◌, Option, none, some, ◌==◌, arith,
}
use otxlinux.WildcardTree.{
  Node, node, Children, childless, child, children_of, breakpoint_of, find_child, get_child, mark,
  emplace, add_child, insert,
}

unfoldable pub on_child : (Node → Bool) → Option Node → Bool
on_child test none = false
on_child test (some n) = test n

-- The path of the name is in the tree and ends at a breakpoint.
unfoldable pub contains : List ℕ → Node → Bool
contains [] n = breakpoint_of n
contains (ch ∷ str) n = on_child (contains str) (get_child ch n)

-- The child that `addChild` returns.
unfoldable pub child_or_new : Bool → Option Node → Node
child_or_new breakpoint none = node breakpoint childless
child_or_new breakpoint (some n) = mark breakpoint n

pub find_child-emplace :
    (ch : ℕ) (b : Bool) (f : Node → Node) (cs : Children)
    → find_child ch (emplace ch b f cs) ≡ some (f (child_or_new b (find_child ch cs)))
unfolding find_child emplace child_or_new
find_child-emplace ch b f childless = ground arith
find_child-emplace ch b f (child c n cs) = ground (arith, find_child-emplace ch b f cs)

pub find_child-emplace_other :
    (ch d : ℕ) (b : Bool) (f : Node → Node) (cs : Children)
    → ch ≢ d
    → find_child d (emplace ch b f cs) ≡ find_child d cs
unfolding find_child emplace
find_child-emplace_other ch d b f childless h = ground arith
find_child-emplace_other ch d b f (child c n cs) h =
    ground (arith, find_child-emplace_other ch d b f cs h)

-- What `addChild` makes of a child is the same but for the breakpoint.
contains-child_or_new :
    (b : Bool) (str : List ℕ) (o : Option Node)
    → (b ≡ false) ⊎ (str ≢ [])
    → contains str (child_or_new b o) ≡ on_child (contains str) o
unfolding contains on_child child_or_new mark breakpoint_of get_child find_child children_of
contains-child_or_new b [] none (inl e) = e
contains-child_or_new b [] none (inr h) = absurd (h refl)
contains-child_or_new b [] (some (node c cs)) (inl e) = ground arith
contains-child_or_new b [] (some n) (inr h) = absurd (h refl)
contains-child_or_new b (ch ∷ str) none h = refl
contains-child_or_new b (ch ∷ str) (some (node c cs)) h = refl

-- The breakpoint of a new or an old child that ends a name.
breakpoint-child_or_new : (o : Option Node) → breakpoint_of (child_or_new true o) ≡ true
unfolding child_or_new mark breakpoint_of
breakpoint-child_or_new none = refl
breakpoint-child_or_new (some (node c cs)) = ground arith

contains-add_child :
    (ch : ℕ) (str : List ℕ) (b : Bool) (f : Node → Node) (n : Node)
    → contains (ch ∷ str) (add_child ch b f n) ≡ contains str (f (child_or_new b (get_child ch n)))
unfolding contains on_child add_child get_child children_of
contains-add_child ch str b f (node c cs) = rw (find_child-emplace ch b f cs)

contains-add_child_other :
    (ch d : ℕ) (str : List ℕ) (b : Bool) (f : Node → Node) (n : Node)
    → ch ≢ d
    → contains (d ∷ str) (add_child ch b f n) ≡ contains (d ∷ str) n
unfolding contains add_child get_child children_of
contains-add_child_other ch d str b f (node c cs) h = rw (find_child-emplace_other ch d b f cs h)

pub insert-contains :
    (ch : ℕ) (str : List ℕ) (n : Node) → contains (ch ∷ str) (insert (ch ∷ str) n) ≡ true
unfolding insert
insert-contains ch [] n =
    contains-add_child ch [] true (λ m. m) n
    ∙ (unfold contains in breakpoint-child_or_new (get_child ch n))
insert-contains ch (d ∷ str) n =
    contains-add_child ch (d ∷ str) false (λ m. insert (d ∷ str) m) n
    ∙ insert-contains d str (child_or_new false (get_child ch n))

insert_root :
    (ch : ℕ) (str : List ℕ) (n : Node) → breakpoint_of (insert (ch ∷ str) n) ≡ breakpoint_of n
unfolding insert add_child breakpoint_of
insert_root ch [] (node b cs) = refl
insert_root ch (d ∷ str) (node b cs) = refl

pub insert_keeps :
    (ch : ℕ) (str other : List ℕ) (n : Node)
    → other ≢ ch ∷ str
    → contains other (insert (ch ∷ str) n) ≡ contains other n
unfolding insert
insert_keeps ch str [] n h = unfold contains in insert_root ch str n
insert_keeps ch [] (c ∷ other) n h = elim (Bool-cases (ch == c)) [
  | inl e ↦
      subst (λ k. contains (k ∷ other) (add_child ch true (λ m. m) n) ≡ contains (k ∷ other) n)
        ((==_iff ch c).0 e)
        (contains-add_child ch other true (λ m. m) n
          ∙ contains-child_or_new true other (get_child ch n) (
              inr
                (λ none. h (ap (λ k. k ∷ other) (sym ((==_iff ch c).0 e)) ∙ ap (λ l. ch ∷ l) none)))
          ∙ (unfold contains in refl))
  | inr ne ↦ contains-add_child_other ch c other true (λ m. m) n (==_false ch c ne)
]
insert_keeps ch (d ∷ str) (c ∷ other) n h = elim (Bool-cases (ch == c)) [
  | inl e ↦
      subst
        (λ k.
          contains (k ∷ other) (add_child ch false (λ m. insert (d ∷ str) m) n)
          ≡ contains (k ∷ other) n)
        ((==_iff ch c).0 e)
        (contains-add_child ch other false (λ m. insert (d ∷ str) m) n
          ∙ insert_keeps d str other (child_or_new false (get_child ch n))
              (λ same. h (ap (λ k. k ∷ other) (sym ((==_iff ch c).0 e)) ∙ ap (λ l. ch ∷ l) same))
          ∙ contains-child_or_new false other (get_child ch n) (inl refl)
          ∙ (unfold contains in refl))
  | inr ne ↦
      contains-add_child_other ch c other false (λ m. insert (d ∷ str) m) n (==_false ch c ne)
]
