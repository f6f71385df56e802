-- ===== src/FileLoader/Examples.antt =====
-- The theorems on OTB files and property streams at concrete inputs.
use otxlinux.Prelude.{◌≡◌, refl, [], ◌∷◌, ◌++◌, none, some, arith, map}
use otxlinux.FileLoader.{
  Node, node, childless, then_child, parse_tree, parse_loop, step_byte, switch, end_node, finish,
  pass_top, pass, no_children, emplace_back,
}
use otxlinux.FileLoader.Escapes.{escape}
use otxlinux.FileLoader.Trees.{write_node, IsEscaped, AreEscaped, parse_tree-write_node}
use otxlinux.FileLoader.PropStream.RoundTrip.{
  number, text, shape, read_properties, write_properties, read_properties-write_properties,
}

-- A root with a child whose only property is the escaped byte 0xFE.
abbrev leaf : Node
leaf = node 2 (0xFD ∷ 0xFE ∷ []) childless

abbrev house : Node
house = node 1 (7 ∷ []) (then_child childless leaf)

house-IsEscaped : IsEscaped house
unfolding IsEscaped AreEscaped escape
house-IsEscaped = ((7 ∷ [], refl), (tt, ((0xFE ∷ [], refl), tt)))

parse_tree-write_node_example : parse_tree (write_node house) ≡ some house
parse_tree-write_node_example = parse_tree-write_node house house-IsEscaped

-- A file that ends inside a node is refused.
truncated : parse_tree (0xFE ∷ 1 ∷ 7 ∷ 0xFE ∷ 2 ∷ 0xFF ∷ []) ≡ none
unfolding parse_tree parse_loop step_byte switch end_node finish pass_top pass no_children
    emplace_back
truncated = refl

read_properties-write_properties_example :
    read_properties
      (map shape (number 4 1000 ∷ text (72 ∷ 105 ∷ []) ∷ number 1 255 ∷ []))
      (write_properties (number 4 1000 ∷ text (72 ∷ 105 ∷ []) ∷ number 1 255 ∷ []) [] ++ 9 ∷ [])
    ≡ (some (number 4 1000 ∷ text (72 ∷ 105 ∷ []) ∷ number 1 255 ∷ []), 9 ∷ [])
read_properties-write_properties_example =
    read_properties-write_properties (number 4 1000 ∷ text (72 ∷ 105 ∷ []) ∷ number 1 255 ∷ [])
      (9 ∷ []) (omega arith, (omega arith, (omega arith, tt)))
