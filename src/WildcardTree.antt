-- ===== src/WildcardTree.antt =====
-- src/wildcardtree.cpp: the tree of the names of the players who are online. The children of a node,
-- a `std::map` by character, are a list in any order: the code looks at the first child only where
-- there is no other.
pub mod Names
pub mod Structure
pub mod Removal
pub mod Search
mod Examples
use otxlinux.Prelude.{
  ℕ, zero, suc, Bool, true, false, not, ◌&&◌, ◌||◌, List, [], ◌∷◌, ◌++◌, Option, none, some, ◌==◌,
  if◌then◌else◌,
}

mutual
  pub data Node : Type 0 where
    node : (breakpoint : Bool) (children : Children) → Node

  pub data Children : Type 0 where
    childless : Children
    child : (ch : ℕ) (n : Node) (rest : Children) → Children

unfoldable pub children_of : Node → Children
children_of (node b cs) = cs

unfoldable pub breakpoint_of : Node → Bool
breakpoint_of (node b cs) = b

unfoldable pub find_child : ℕ → Children → Option Node
find_child ch childless = none
find_child ch (child c n cs) = if c == ch then some n else find_child ch cs

unfoldable pub get_child : ℕ → Node → Option Node
get_child ch n = find_child ch (children_of n)

-- `addChild` on a node that is there.
unfoldable pub mark : Bool → Node → Node
mark breakpoint (node b cs) = node (b || breakpoint) cs

-- `addChild` and what is done at the child that it returns.
unfoldable pub emplace : ℕ → Bool → (Node → Node) → Children → Children
emplace ch breakpoint f childless = child ch (f (node breakpoint childless)) childless
emplace ch breakpoint f (child c n cs) =
    let rest = emplace ch breakpoint f cs in
    if c == ch then child c (f (mark breakpoint n)) cs else child c n rest

unfoldable pub add_child : ℕ → Bool → (Node → Node) → Node → Node
add_child ch breakpoint f (node b cs) = node b (emplace ch breakpoint f cs)

-- A name is not empty: on an empty one the loop of the source leaves the string.
unfoldable pub insert : List ℕ → Node → Node
insert [] n = n
insert (ch ∷ []) n = add_child ch true (λ m. m) n
insert (ch ∷ d ∷ str) n = add_child ch false (λ m. insert (d ∷ str) m) n

-- The test that goes on with the parent, on a node that is not the root.
unfoldable pub is_bare : Node → Bool
is_bare (node b childless) = not b
is_bare (node b (child c n cs)) = false

unfoldable pub put_back : ℕ → Node → Children → Children
put_back ch n cs = if is_bare n then cs else child ch n cs

-- The child is replaced, or erased when nothing is left of it.
unfoldable pub replace_child : ℕ → Node → Children → Children
replace_child ch m childless = childless
replace_child ch m (child c n cs) =
    let rest = replace_child ch m cs in if c == ch then put_back c m cs else child c n rest

-- `remove` along the path of the name. `none` is the early return.
unfoldable pub remove_path : List ℕ → Node → Option Node
remove_path [] (node b cs) = some (node false cs)
remove_path (ch ∷ str) (node b cs) = elim (find_child ch cs) [
  | none ↦ none
  | some n ↦ elim (remove_path str n) [
    | none ↦ none
    | some m ↦ some (node b (replace_child ch m cs))
  ]
]

unfoldable pub remove : List ℕ → Node → Node
remove str n = elim (remove_path str n) [ none ↦ n | some m ↦ m ]

-- Of the values of ReturnValue those of `findOne`.
pub data ReturnValue : Type 0 where
  no_error player_not_online name_too_ambiguous : ReturnValue

unfoldable pub descend : List ℕ → Node → Option Node
descend [] n = some n
descend (ch ∷ query) n = elim (get_child ch n) [ none ↦ none | some m ↦ descend query m ]

-- The loop behind the query, with the result so far.
unfoldable pub complete : List ℕ → Node → ReturnValue × List ℕ
complete result (node b childless) = (no_error, result)
complete result (node b (child c n childless)) =
    let rest = complete (result ++ c ∷ []) n in if b then (name_too_ambiguous, result) else rest
complete result (node b (child c n (child d m cs))) = (name_too_ambiguous, result)

-- The value and the string that `result` holds after the call.
unfoldable pub find_one : List ℕ → List ℕ → Node → ReturnValue × List ℕ
find_one query result n = elim (descend query n) [
  | none ↦ (player_not_online, result)
  | some m ↦ complete query m
]
