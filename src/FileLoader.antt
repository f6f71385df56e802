-- ===== src/FileLoader.antt =====
-- src/fileloader.cpp and src/fileloader.h: the tree of nodes of an OTB file. The contents of the file
-- are a list of bytes; the range of a node's properties is the list of the bytes in it.
pub mod PropStream
pub mod Escapes
pub mod Trees
mod Examples
use otxlinux.Prelude.{
  ℕ, zero, suc, ◌+◌, Bool, true, false, not, ◌&&◌, ◌||◌, List, [], ◌∷◌, ◌++◌, Option, none, some,
  ltb, leb, ◌==◌, if◌then◌else◌, is_empty, length, take, drop, replicate,
}

mutual
  pub data Node : Type 0 where
    node : (kind : ℕ) (props : List ℕ) (children : Nodes) → Node

  pub data Nodes : Type 0 where
    childless : Nodes
    then_child : Nodes → Node → Nodes

-- Node::NodeChar.
abbrev pub escape_char : ℕ
escape_char = 0xFD

abbrev pub start_char : ℕ
start_char = 0xFE

abbrev pub end_char : ℕ
end_char = 0xFF

unfoldable pub no_children : Nodes → Bool
no_children childless = true
no_children (then_child ns n) = false

-- The bytes that the loop passes belong to the properties until the first child.
unfoldable pub pass : List ℕ → Node → Node
pass bytes (node kind props ns) =
    if no_children ns then node kind (props ++ bytes) ns else node kind props ns

unfoldable pub emplace_back : Node → Node → Node
emplace_back child (node kind props ns) = node kind props (then_child ns child)

unfoldable pub pass_top : List ℕ → List Node → List Node
pass_top bytes [] = []
pass_top bytes (n ∷ stack) = pass bytes n ∷ stack

-- Where the loop is in its `switch`: at the top, or behind a `++it` that takes the next byte as the
-- type of a child or as an escaped byte.
pub data Mode : Type 0 where
  plain starting escaping : Mode

-- The nodes that are open, the innermost first, and the root when it has ended. A node is put into
-- its parent when it ends.
pub record Parser : Type 0 where
  pub mode : Mode
  pub parse_stack : List Node
  pub root : Option Node

-- `none` is the InvalidOTBFormat of `getCurrentNode`.
unfoldable pub end_node : Parser → List Node → Option Parser
end_node s [] = none
end_node s (n ∷ []) = some (record s { parse_stack = []; root = some n })
end_node s (n ∷ parent ∷ stack) = some (record s { parse_stack = emplace_back n parent ∷ stack })

unfoldable pub switch : ℕ → Parser → Option Parser
switch byte s =
    if byte == start_char
    then if is_empty s.parse_stack then none else some (record s { mode = starting })
    else if byte == end_char
    then end_node s s.parse_stack
    else some (record s {
      mode = if byte == escape_char then escaping else plain;
      parse_stack = pass_top (byte ∷ []) s.parse_stack;
    })

unfoldable pub step_byte : Mode → ℕ → Parser → Option Parser
step_byte plain byte s = switch byte s
step_byte starting byte s =
    some (record s { mode = plain; parse_stack = node byte [] childless ∷ s.parse_stack })
step_byte escaping byte s =
    some (record s { mode = plain; parse_stack = pass_top (byte ∷ []) s.parse_stack })

-- The end of the file is an error behind `++it` and while nodes are open.
unfoldable pub finish : Mode → List Node → Option Node → Option Node
finish plain [] root = root
finish plain (n ∷ stack) root = none
finish starting stack root = none
finish escaping stack root = none

unfoldable pub parse_loop : List ℕ → Parser → Option Node
parse_loop [] s = finish s.mode s.parse_stack s.root
parse_loop (byte ∷ bytes) s = elim (step_byte s.mode byte s) [
  | none ↦ none
  | some s' ↦ parse_loop bytes s'
]

-- `parseTree` on what follows the identifier.
unfoldable pub parse_tree : List ℕ → Option Node
parse_tree [] = none
parse_tree (byte ∷ []) = none
parse_tree (byte ∷ kind ∷ bytes) =
    let tree =
      parse_loop bytes
        (record { mode = plain; parse_stack = node kind [] childless ∷ []; root = none }) in
    if byte == start_char then tree else none

unfoldable pub same_bytes : List ℕ → List ℕ → Bool
same_bytes [] [] = true
same_bytes [] (y ∷ ys) = false
same_bytes (x ∷ xs) [] = false
same_bytes (x ∷ xs) (y ∷ ys) = (x == y) && same_bytes xs ys

-- The constructor of `Loader` and `parseTree` after it: `none` is an exception.
unfoldable pub load : List ℕ → List ℕ → Option Node
load accepted contents =
    let identifier = take 4 contents in
    if leb (length contents) 7
    then none
    else if not (same_bytes identifier accepted) && not (same_bytes identifier (replicate 4 0))
    then none
    else parse_tree (drop 4 contents)

-- The filter of `getProps`, with `lastEscaped`.
unfoldable pub unescape : Bool → List ℕ → List ℕ
unescape last_escaped [] = []
unescape last_escaped (byte ∷ bytes) =
    let escaped = (byte == escape_char) && not last_escaped in
    let rest = unescape escaped bytes in if escaped then rest else byte ∷ rest

unfoldable pub get_props : Node → Option (List ℕ)
get_props (node kind props ns) = if is_empty props then none else some (unescape false props)
