-- ===== src/WildcardTree/Search.antt =====
-- src/wildcardtree.cpp, findOne: what the answer says of the names in the tree.
use mathlib.Core.Path.{subst, fun_ext}
use mathlib.Core.Bool.{false≢true}
use mathlib.Core.Option.{none-ne-some}
use otxlinux.Prelude.{
  ℕ, ◌≡◌, ◌≢◌, refl, ap, sym, ◌∙◌, inl, inr, Bool, true, false, not, Bool-cases, ==_iff, ==_false,
  List, [], ◌∷◌, ◌++◌, Option, none, some, ◌==◌, arith,
}
use mathlib.Core.List.{append_assoc, append-nil, head-eq_of_cons-eq, tail-eq_of_cons-eq, nil≢cons}
use otxlinux.WildcardTree.{
  Node, node, Children, childless, child, children_of, breakpoint_of, find_child, get_child,
  is_bare, ReturnValue, no_error, player_not_online, name_too_ambiguous, descend, complete,
  find_one,
}
use otxlinux.WildcardTree.Names.{on_child, contains}
use otxlinux.WildcardTree.Structure.{
  IsTree, IsForest, find_child-first, find_child-later, find_child-IsTree,
}

-- What an answer and the string with it say of the names that begin with the query: there is none;
-- the string is the only one; there are two that differ.
abbrev pub Answers : (List ℕ → Bool) → List ℕ → ReturnValue × List ℕ → Type 0
Answers held query (player_not_online, s) = (t : List ℕ) → held t ≡ false
Answers held query (no_error, s) =
    (t : List ℕ) × (s ≡ query ++ t) × (held t ≡ true) × ((u : List ℕ) → held u ≡ true → u ≡ t)
Answers held query (name_too_ambiguous, s) =
    (t : List ℕ) × (u : List ℕ) × (t ≢ u) × (held t ≡ true) × (held u ≡ true)

-- The rest of a name is looked up where the query leads.
contains-append :
    (query t : List ℕ) (n : Node)
    → contains (query ++ t) n ≡ on_child (contains t) (descend query n)
unfolding contains descend on_child
contains-append [] t n = refl
contains-append (ch ∷ query) t n = at_child (contains-append query t) (get_child ch n)
  where
    at_child :
        ((m : Node) → contains (query ++ t) m ≡ on_child (contains t) (descend query m))
        → (o : Option Node)
        → on_child (contains (query ++ t)) o
          ≡ on_child (contains t) (elim o [ none ↦ none | some m ↦ descend query m ])
    at_child below none = refl
    at_child below (some m) = below m

child_contains :
    (c : ℕ) (t : List ℕ) (b : Bool) (n : Node) (cs : Children)
    → contains (c ∷ t) (node b (child c n cs)) ≡ contains t n
unfolding contains on_child get_child children_of
child_contains c t b n cs =
    ap (on_child (contains t)) (find_child-first c c n cs ((==_iff c c).1 refl))

later_child :
    (c d : ℕ) (t : List ℕ) (b : Bool) (n : Node) (cs : Children)
    → (c == d) ≡ false
    → contains (d ∷ t) (node b (child c n cs)) ≡ contains (d ∷ t) (node b cs)
unfolding contains get_child children_of
later_child c d t b n cs differs = ap (on_child (contains t)) (find_child-later d c n cs differs)

-- A node that is not bare holds a name.
holds_a_name : (n : Node) → IsTree n → is_bare n ≡ false → (t : List ℕ) × (contains t n ≡ true)
unfolding IsTree IsForest is_bare
holds_a_name (node b childless) h live = ([], (unfold contains breakpoint_of in ground arith))
holds_a_name (node b (child c n cs)) h live =
    let (t, held) = holds_a_name n h.2.0 h.1 in (c ∷ t, child_contains c t b n cs ∙ held)

-- A child under one character says nothing of the names of another.
only_child :
    (c d : ℕ) (t : List ℕ) (b : Bool) (n : Node)
    → contains (d ∷ t) (node b (child c n childless)) ≡ true
    → (c ≡ d) × (contains t n ≡ true)
unfolding contains on_child get_child children_of find_child
only_child c d t b n held = ground arith

no_other_child :
    (c : ℕ) (n : Node) (t : List ℕ)
    → ((u : List ℕ) → contains u n ≡ false)
    → contains t (node false (child c n childless)) ≡ false
unfolding contains on_child get_child children_of find_child breakpoint_of
no_other_child c n [] h = refl
no_other_child c n (d ∷ t) h = ground (arith, h t)

-- The names through the only child, when the node ends no name.
through_only_child :
    (c : ℕ) (n : Node) (t u : List ℕ)
    → ((v : List ℕ) → contains v n ≡ true → v ≡ t)
    → contains u (node false (child c n childless)) ≡ true
    → u ≡ c ∷ t
through_only_child c n t [] only held = absurd (false≢true (unfold contains breakpoint_of in held))
through_only_child c n t (d ∷ u) only held =
    let (same, below) = only_child c d u false n held in
    ap (λ k. k ∷ u) (sym same) ∙ ap (λ l. c ∷ l) (only u below)

-- One step of the loop, on a node that has one child and ends no name.
through_child :
    (base : List ℕ) (c : ℕ) (n : Node) (r : ReturnValue × List ℕ)
    → Answers (λ t. contains t n) (base ++ c ∷ []) r
    → Answers (λ t. contains t (node false (child c n childless))) base r
through_child base c n (player_not_online, s) h = λ t. no_other_child c n t h
through_child base c n (no_error, s) (t, e, held, only) = (
  c ∷ t,
  e ∙ append_assoc base (c ∷ []) t,
  child_contains c t false n childless ∙ held,
  λ u. through_only_child c n t u only,
)
through_child base c n (name_too_ambiguous, s) (t, u, ne, held, held') = (
  c ∷ t,
  c ∷ u,
  λ e. ne (tail-eq_of_cons-eq e),
  child_contains c t false n childless ∙ held,
  child_contains c u false n childless ∙ held',
)

-- A node without children that is not bare ends the only name.
ends_here :
    (base : List ℕ) (b : Bool)
    → not b ≡ false
    → Answers (λ t. contains t (node b childless)) base (no_error, base)
unfolding contains on_child breakpoint_of get_child children_of find_child
ends_here base b live = ([], sym (append-nil base), ground arith, only)
  where
    only : (u : List ℕ) → contains u (node b childless) ≡ true → u ≡ []
    only [] held = refl
    only (c ∷ u) held = absurd (false≢true held)

other_character :
    (c d : ℕ) (m : Node) (cs : Children) → find_child c (child d m cs) ≡ none → (c == d) ≡ false
other_character c d m cs h = elim (Bool-cases (c == d)) [
  | inr differs ↦ differs
  | inl same ↦ absurd (
      none-ne-some m
        (sym h ∙ find_child-first c d m cs ((==_iff d c).1 (sym ((==_iff c d).0 same)))))
]

-- Two children lead to two names.
two_children :
    (base : List ℕ) (b : Bool) (c d : ℕ) (n m : Node) (cs : Children)
    → IsForest (child c n (child d m cs))
    → Answers (λ t. contains t (node b (child c n (child d m cs)))) base (name_too_ambiguous, base)
unfolding IsForest
two_children base b c d n m cs h =
    let (t, held) = holds_a_name n h.2.0 h.1 in
    let (u, held') = holds_a_name m h.2.1.2.0 h.2.1.1 in
    let differs = other_character c d m cs h.0 in
    (
      c ∷ t,
      d ∷ u,
      λ e. ==_false c d differs (head-eq_of_cons-eq e),
      child_contains c t b n (child d m cs) ∙ held,
      later_child c d u b n (child d m cs) differs ∙ child_contains d u b m cs ∙ held',
    )

complete-Answers :
    (base : List ℕ) (n : Node)
    → IsTree n
    → is_bare n ≡ false
    → Answers (λ t. contains t n) base (complete base n)
unfolding complete is_bare IsTree IsForest
complete-Answers base (node b childless) h live = ends_here base b live
complete-Answers base (node true (child c n childless)) h live =
    let (t, held) = holds_a_name n h.2.0 h.1 in
    (
      [],
      c ∷ t,
      nil≢cons,
      (unfold contains breakpoint_of in refl),
      child_contains c t true n childless ∙ held,
    )
complete-Answers base (node false (child c n childless)) h live =
    through_child base c n (complete (base ++ c ∷ []) n)
      (complete-Answers (base ++ c ∷ []) n h.2.0 h.1)
complete-Answers base (node b (child c n (child d m cs))) h live = two_children base b c d n m cs h

forest : (n : Node) → IsTree n → IsForest (children_of n)
unfolding IsTree children_of
forest (node b cs) h = h

-- A query that is not empty leads to a tree that is not bare.
descend-IsTree :
    (ch : ℕ) (query : List ℕ) (n m : Node)
    → IsTree n
    → descend (ch ∷ query) n ≡ some m
    → IsTree m × (is_bare m ≡ false)
unfolding descend get_child
descend-IsTree ch [] n m h = below (find_child ch (children_of n)) refl
  where
    below :
        (o : Option Node)
        → find_child ch (children_of n) ≡ o
        → elim o [ none ↦ none | some k ↦ some k ] ≡ some m
        → IsTree m × (is_bare m ≡ false)
    below none e found = absurd (none-ne-some m found)
    below (some k) e found = find_child-IsTree ch (children_of n) m (forest n h) (e ∙ found)
descend-IsTree ch (d ∷ query) n m h =
    below (find_child ch (children_of n)) refl (λ k. descend-IsTree d query k m)
  where
    below :
        (o : Option Node)
        → find_child ch (children_of n) ≡ o
        → ((k : Node) → IsTree k → descend (d ∷ query) k ≡ some m → IsTree m × (is_bare m ≡ false))
        → elim o [ none ↦ none | some k ↦ descend (d ∷ query) k ] ≡ some m
        → IsTree m × (is_bare m ≡ false)
    below none e deeper found = absurd (none-ne-some m found)
    below (some k) e deeper found =
        deeper k (find_child-IsTree ch (children_of n) k (forest n h) e).0 found

Answers-there :
    (query : List ℕ) (n : Node) (o : Option Node) (result : List ℕ)
    → descend query n ≡ o
    → ((m : Node) → o ≡ some m → IsTree m × (is_bare m ≡ false))
    → Answers
        (λ t. contains (query ++ t) n)
        query
        (elim o [ none ↦ (player_not_online, result) | some m ↦ complete query m ])
unfolding on_child
Answers-there query n none result e shape =
    λ t. contains-append query t n ∙ ap (on_child (contains t)) e
Answers-there query n (some m) result e shape =
    let there : (λ t. contains t m) ≡ (λ t. contains (query ++ t) n) =
      fun_ext (λ t. sym (contains-append query t n ∙ ap (on_child (contains t)) e)) in
    subst (λ held. Answers held query (complete query m)) there
      (complete-Answers query m (shape m refl).0 (shape m refl).1)

-- For a query that is not empty and a tree, the answer of `findOne` is right: a player who is not
-- online is one with no name in the tree that begins with the query; without an error the result is
-- the only name that does; and a query that is too ambiguous has two names that begin with it.
pub find_one-Answers :
    (query result : List ℕ) (n : Node)
    → query ≢ []
    → IsTree n
    → Answers (λ t. contains (query ++ t) n) query (find_one query result n)
unfolding find_one
find_one-Answers [] result n ne h = absurd (ne refl)
find_one-Answers (ch ∷ query) result n ne h =
    Answers-there (ch ∷ query) n (descend (ch ∷ query) n) result refl
      (λ m. descend-IsTree ch query n m h)
