-- ===== src/WildcardTree/Removal.antt =====
-- src/wildcardtree.cpp, remove: which names are left, and the shape of the tree.
use mathlib.Core.Path.{subst}
use mathlib.Core.Bool.{false≢true}
use mathlib.Core.Option.{none-ne-some}
use otxlinux.Prelude.{
  ℕ, ◌≡◌, ◌≢◌, refl, ap, sym, ◌∙◌, inl, inr, Bool, true, false, Bool-cases, ==_iff, ==_false, List,
  [], ◌∷◌, Option, none, some, ◌==◌, arith,
}
use otxlinux.WildcardTree.{
  Node, node, Children, childless, child, children_of, breakpoint_of, find_child, get_child,
  is_bare, put_back, replace_child, remove_path, remove,
}
use otxlinux.WildcardTree.Names.{on_child, contains}
use otxlinux.WildcardTree.Structure.{IsTree, IsForest, find_child-later, find_child-IsTree}

-- A bare node holds no name.
bare_is_empty : (str : List ℕ) (n : Node) → is_bare n ≡ true → contains str n ≡ false
unfolding is_bare contains on_child breakpoint_of get_child children_of find_child
bare_is_empty [] (node b childless) h = ground arith
bare_is_empty (c ∷ str) (node b childless) h = refl
bare_is_empty str (node b (child c n cs)) h = absurd (false≢true h)

replace_child-other :
    (ch d : ℕ) (m : Node) (cs : Children)
    → ch ≢ d
    → find_child d (replace_child ch m cs) ≡ find_child d cs
unfolding find_child replace_child put_back
replace_child-other ch d m childless h = refl
replace_child-other ch d m (child c n cs) h = ground (arith, replace_child-other ch d m cs h)

-- What the parent holds under the character of the child that was replaced.
replace_child-contains :
    (ch : ℕ) (str : List ℕ) (m n : Node) (cs : Children)
    → IsForest cs
    → find_child ch cs ≡ some n
    → on_child (contains str) (find_child ch (replace_child ch m cs)) ≡ contains str m
unfolding find_child replace_child put_back on_child IsForest
replace_child-contains ch str m n childless h e = absurd (none-ne-some n e)
replace_child-contains ch str m n (child c k cs) h e = elim (Bool-cases (c == ch)) [
  | inl same ↦ elim (Bool-cases (is_bare m)) [
    | inl bare ↦
        rw (same, bare)
          (ap (on_child (contains str))
              (subst (λ k. find_child k cs ≡ none) ((==_iff c ch).0 same) h.0)
            ∙ sym (bare_is_empty str m bare))
    | inr live ↦ rw (same, live, same)
  ]
  | inr differs ↦
      rw (differs, differs)
        (replace_child-contains ch str m n cs h.2.1 (sym (find_child-later ch c k cs differs) ∙ e))
]

replace_child-IsForest :
    (ch : ℕ) (m : Node) (cs : Children) → IsForest cs → IsTree m → IsForest (replace_child ch m cs)
unfolding replace_child put_back IsForest
replace_child-IsForest ch m childless h tree = tt
replace_child-IsForest ch m (child c n cs) h tree = elim (Bool-cases (c == ch)) [
  | inl same ↦ elim (Bool-cases (is_bare m)) [
    | inl bare ↦ rw (same, bare) h.2.1
    | inr live ↦ rw (same, live) (h.0, live, (tree, h.2.1))
  ]
  | inr differs ↦ rw differs (
    replace_child-other ch c m cs (λ e. ==_false c ch differs (sym e)) ∙ h.0,
    h.1,
    (h.2.0, replace_child-IsForest ch m cs h.2.1 tree),
  )
]

-- What is left when the path of a name was followed.
abbrev IsRemoved : List ℕ → Node → Option Node → Type 0
IsRemoved str n none = contains str n ≡ false
IsRemoved str n (some m) =
    IsTree m
    × (contains str m ≡ false)
    × ((other : List ℕ) → other ≢ str → contains other m ≡ contains other n)

child-IsRemoved :
    (ch : ℕ) (str : List ℕ) (b : Bool) (cs : Children) (n : Node) (r : Option Node)
    → IsForest cs
    → find_child ch cs ≡ some n
    → IsRemoved str n r
    → IsRemoved
        (ch ∷ str)
        (node b cs)
        (elim r [ none ↦ none | some m ↦ some (node b (replace_child ch m cs)) ])
unfolding contains IsTree breakpoint_of get_child children_of
child-IsRemoved ch str b cs n none h e r = ap (on_child (contains str)) e ∙ (unfold on_child in r)
child-IsRemoved ch str b cs n (some m) h e (tree, gone, kept) =
    (replace_child-IsForest ch m cs h tree, replace_child-contains ch str m n cs h e ∙ gone, others)
  where
    others :
        (other : List ℕ)
        → other ≢ ch ∷ str
        → contains other (node b (replace_child ch m cs)) ≡ contains other (node b cs)
    others [] ne = refl
    others (c ∷ other) ne = elim (Bool-cases (ch == c)) [
      | inr differs ↦
          ap (on_child (contains other)) (replace_child-other ch c m cs (==_false ch c differs))
      | inl same ↦
          subst
            (λ k.
              on_child (contains other) (find_child k (replace_child ch m cs))
              ≡ on_child (contains other) (find_child k cs))
            ((==_iff ch c).0 same)
            (replace_child-contains ch other m n cs h e
              ∙ kept other (λ eq.
                ne (ap (λ k. k ∷ other) (sym ((==_iff ch c).0 same)) ∙ ap (λ l. ch ∷ l) eq))
              ∙ sym (ap (on_child (contains other)) e ∙ (unfold on_child in refl)))
    ]

path-IsRemoved :
    (ch : ℕ) (str : List ℕ) (b : Bool) (cs : Children) (o : Option Node)
    → IsForest cs
    → find_child ch cs ≡ o
    → ((n : Node) → IsTree n → IsRemoved str n (remove_path str n))
    → IsRemoved (ch ∷ str) (node b cs) (elim o [
      | none ↦ none
      | some n ↦ elim (remove_path str n) [
        | none ↦ none
        | some m ↦ some (node b (replace_child ch m cs))
      ]
    ])
unfolding contains get_child children_of
path-IsRemoved ch str b cs none h e below =
    ap (on_child (contains str)) e ∙ (unfold on_child in refl)
path-IsRemoved ch str b cs (some n) h e below =
    child-IsRemoved ch str b cs n (remove_path str n) h e
      (below n (find_child-IsTree ch cs n h e).0)

remove_path-IsRemoved : (str : List ℕ) (n : Node) → IsTree n → IsRemoved str n (remove_path str n)
unfolding remove_path contains IsTree breakpoint_of get_child children_of on_child
remove_path-IsRemoved [] (node b cs) h = (h, refl, removed_root)
  where
    removed_root :
        (other : List ℕ) → other ≢ [] → contains other (node false cs) ≡ contains other (node b cs)
    removed_root [] ne = absurd (ne refl)
    removed_root (c ∷ other) ne = refl
remove_path-IsRemoved (ch ∷ str) (node b cs) h =
    path-IsRemoved ch str b cs (find_child ch cs) h refl (remove_path-IsRemoved str)

-- After `remove` of a name from a tree the tree keeps its shape and does not hold that name, and it
-- holds any other name just if it held that before.
pub contains-remove :
    (str other : List ℕ) (n : Node)
    → IsTree n
    → other ≢ str
    → IsTree (remove str n)
      × (contains str (remove str n) ≡ false)
      × (contains other (remove str n) ≡ contains other n)
unfolding remove
contains-remove str other n h differs = of_path (remove_path str n) (remove_path-IsRemoved str n h)
  where
    of_path :
        (r : Option Node)
        → IsRemoved str n r
        → let m : Node = elim r [ none ↦ n | some m ↦ m ] in
          IsTree m × (contains str m ≡ false) × (contains other m ≡ contains other n)
    of_path none gone = (h, gone, refl)
    of_path (some m) (tree, gone, kept) = (tree, gone, kept other differs)
