-- ===== src/FileLoader/Trees.antt =====
-- src/fileloader.cpp, parseTree: the tree of a file that was written in the format.
use mathlib.Core.List.{append_assoc, append-nil}
use otxlinux.Prelude.{
  ℕ, ◌≡◌, refl, ap, sym, ◌∙◌, inl, inr, false, Bool-cases, List, [], ◌∷◌, ◌++◌, Option, none, some,
  leb, ◌==◌, arith, is_empty,
}
use otxlinux.FileLoader.{
  Node, node, Nodes, childless, then_child, escape_char, start_char, end_char, no_children, pass,
  pass_top, emplace_back, plain, Parser, end_node, switch, step_byte, finish, parse_loop,
  parse_tree, get_props,
}
use otxlinux.FileLoader.Escapes.{escape, unescape-escape}

-- The format: a start, the type, the properties, the children and an end.
unfoldable mutual
  pub write_node : Node → List ℕ
  write_node (node kind props ns) = start_char ∷ kind ∷ props ++ (write_nodes ns ++ end_char ∷ [])

  pub write_nodes : Nodes → List ℕ
  write_nodes childless = []
  write_nodes (then_child ns n) = write_nodes ns ++ write_node n

-- The properties of every node are escaped.
unfoldable mutual
  pub IsEscaped : Node → Type 0
  IsEscaped (node kind props ns) = ((bytes : List ℕ) × (props ≡ escape bytes)) × AreEscaped ns

  pub AreEscaped : Nodes → Type 0
  AreEscaped childless = Unit
  AreEscaped (then_child ns n) = AreEscaped ns × IsEscaped n

-- The parser at the top of the loop.
abbrev at_top : List Node → Option Node → Parser
at_top stack root = record { mode = plain; parse_stack = stack; root = root }

switch-normal :
    (byte : ℕ) (s : Parser)
    → leb escape_char byte ≡ false
    → switch byte s
      ≡ some (record s { mode = plain; parse_stack = pass_top (byte ∷ []) s.parse_stack })
unfolding switch
switch-normal byte s normal =
    let not_start : (byte == start_char) ≡ false = ground arith in
    let not_end : (byte == end_char) ≡ false = ground arith in
    let not_escape : (byte == escape_char) ≡ false = ground arith in
    rw (not_start, not_end, not_escape)

module _ (kind : ℕ) (stack : List Node) (root : Option Node) where
  loop-escaped :
      (byte : ℕ) (rest props : List ℕ)
      → parse_loop (escape_char ∷ byte ∷ rest) (at_top (node kind props childless ∷ stack) root)
        ≡ parse_loop rest
            (at_top (node kind (props ++ escape_char ∷ byte ∷ []) childless ∷ stack) root)
  unfolding parse_loop step_byte switch pass_top pass no_children
  loop-escaped byte rest props =
      ap (λ l. parse_loop rest (at_top (node kind l childless ∷ stack) root))
        (append_assoc props (escape_char ∷ []) (byte ∷ []))

  loop-normal :
      (byte : ℕ) (rest props : List ℕ)
      → leb escape_char byte ≡ false
      → parse_loop (byte ∷ rest) (at_top (node kind props childless ∷ stack) root)
        ≡ parse_loop rest (at_top (node kind (props ++ byte ∷ []) childless ∷ stack) root)
  unfolding parse_loop step_byte pass_top pass no_children
  loop-normal byte rest props normal =
      ap {A = Option Parser} {B = Option Node}
        (λ o. elim o [ none ↦ none | some s ↦ parse_loop rest s ])
        (switch-normal byte (at_top (node kind props childless ∷ stack) root) normal)

  loop-escape :
      (bytes rest props : List ℕ)
      → parse_loop (escape bytes ++ rest) (at_top (node kind props childless ∷ stack) root)
        ≡ parse_loop rest (at_top (node kind (props ++ escape bytes) childless ∷ stack) root)
  unfolding escape
  loop-escape [] rest props =
      ap (λ l. parse_loop rest (at_top (node kind l childless ∷ stack) root))
        (sym (append-nil props))
  loop-escape (byte ∷ bytes) rest props = elim (Bool-cases (leb escape_char byte)) [
    | inl special ↦ rw special (
        loop-escaped byte (escape bytes ++ rest) props
        ∙ loop-escape bytes rest (props ++ escape_char ∷ byte ∷ [])
        ∙ ap (λ l. parse_loop rest (at_top (node kind l childless ∷ stack) root))
            (append_assoc props (escape_char ∷ byte ∷ []) (escape bytes)))
    | inr normal ↦ rw normal (
        loop-normal byte (escape bytes ++ rest) props normal
        ∙ loop-escape bytes rest (props ++ byte ∷ [])
        ∙ ap (λ l. parse_loop rest (at_top (node kind l childless ∷ stack) root))
            (append_assoc props (byte ∷ []) (escape bytes)))
  ]

-- The inside of a node, when its children are read as they were written.
loop-body :
    (kind : ℕ) (props rest : List ℕ) (ns : Nodes) (stack : List Node) (root : Option Node)
    → (bytes : List ℕ) × (props ≡ escape bytes)
    → ((after : List ℕ)
        → parse_loop (write_nodes ns ++ after) (at_top (node kind props childless ∷ stack) root)
          ≡ parse_loop after (at_top (node kind props ns ∷ stack) root))
    → parse_loop
        ((props ++ (write_nodes ns ++ end_char ∷ [])) ++ rest)
        (at_top (node kind [] childless ∷ stack) root)
      ≡ parse_loop (end_char ∷ rest) (at_top (node kind props ns ∷ stack) root)
loop-body kind props rest ns stack root (bytes, e) children =
    ap (λ l. parse_loop l (at_top (node kind [] childless ∷ stack) root))
      (append_assoc props (write_nodes ns ++ end_char ∷ []) rest
        ∙ ap (λ l. props ++ l) (append_assoc (write_nodes ns) (end_char ∷ []) rest)
        ∙ ap (λ l. l ++ (write_nodes ns ++ end_char ∷ rest)) e)
    ∙ loop-escape kind stack root bytes (write_nodes ns ++ end_char ∷ rest) []
    ∙ ap
        (λ l.
          parse_loop (write_nodes ns ++ end_char ∷ rest)
            (at_top (node kind l childless ∷ stack) root))
        (sym e)
    ∙ children (end_char ∷ rest)

loop-start :
    (kind : ℕ) (rest : List ℕ) (p : Node) (stack : List Node) (root : Option Node)
    → parse_loop (start_char ∷ kind ∷ rest) (at_top (p ∷ stack) root)
      ≡ parse_loop rest (at_top (node kind [] childless ∷ p ∷ stack) root)
unfolding parse_loop step_byte switch
loop-start kind rest p stack root = refl

loop-end :
    (n p : Node) (rest : List ℕ) (stack : List Node) (root : Option Node)
    → parse_loop (end_char ∷ rest) (at_top (n ∷ p ∷ stack) root)
      ≡ parse_loop rest (at_top (emplace_back n p ∷ stack) root)
unfolding parse_loop step_byte switch end_node
loop-end n p rest stack root = refl

mutual
  unfolding write_node write_nodes IsEscaped AreEscaped emplace_back

  loop-write_node :
      (t : Node) (rest : List ℕ) (p : Node) (stack : List Node) (root : Option Node)
      → IsEscaped t
      → parse_loop (write_node t ++ rest) (at_top (p ∷ stack) root)
        ≡ parse_loop rest (at_top (emplace_back t p ∷ stack) root)
  loop-write_node (node kind props ns) rest p stack root h =
      loop-start kind ((props ++ (write_nodes ns ++ end_char ∷ [])) ++ rest) p stack root
      ∙ loop-body kind props rest ns (p ∷ stack) root h.0
          (λ after. loop-write_nodes ns after kind props (p ∷ stack) root h.1)
      ∙ loop-end (node kind props ns) p rest stack root

  loop-write_nodes :
      (ns : Nodes) (rest : List ℕ) (kind : ℕ) (props : List ℕ) (stack : List Node)
      (root : Option Node)
      → AreEscaped ns
      → parse_loop (write_nodes ns ++ rest) (at_top (node kind props childless ∷ stack) root)
        ≡ parse_loop rest (at_top (node kind props ns ∷ stack) root)
  loop-write_nodes childless rest kind props stack root h = refl
  loop-write_nodes (then_child ns n) rest kind props stack root h =
      ap (λ l. parse_loop l (at_top (node kind props childless ∷ stack) root))
        (append_assoc (write_nodes ns) (write_node n) rest)
      ∙ loop-write_nodes ns (write_node n ++ rest) kind props stack root h.0
      ∙ loop-write_node n rest (node kind props ns) stack root h.1

parse_tree-start :
    (kind : ℕ) (bytes : List ℕ)
    → parse_tree (start_char ∷ kind ∷ bytes)
      ≡ parse_loop bytes (at_top (node kind [] childless ∷ []) none)
unfolding parse_tree
parse_tree-start kind bytes = refl

loop-last : (n : Node) → parse_loop (end_char ∷ []) (at_top (n ∷ []) none) ≡ some n
unfolding parse_loop step_byte switch end_node finish
loop-last n = refl

-- A tree whose properties are escaped and that was written in the format is read as it was.
pub parse_tree-write_node : (t : Node) → IsEscaped t → parse_tree (write_node t) ≡ some t
unfolding write_node IsEscaped
parse_tree-write_node (node kind props ns) h =
    parse_tree-start kind (props ++ (write_nodes ns ++ end_char ∷ []))
    ∙ ap (λ l. parse_loop l (at_top (node kind [] childless ∷ []) none))
        (sym (append-nil (props ++ (write_nodes ns ++ end_char ∷ []))))
    ∙ loop-body kind props [] ns [] none h.0
        (λ after. loop-write_nodes ns after kind props [] none h.1)
    ∙ loop-last (node kind props ns)

escape_is_not_empty : (byte : ℕ) (bytes : List ℕ) → is_empty (escape (byte ∷ bytes)) ≡ false
unfolding escape
escape_is_not_empty byte bytes = ground arith

-- The properties of a node are the bytes that a writer has escaped, when there are any.
pub get_props-escape :
    (kind byte : ℕ) (bytes : List ℕ) (ns : Nodes)
    → get_props (node kind (escape (byte ∷ bytes)) ns) ≡ some (byte ∷ bytes)
unfolding get_props
get_props-escape kind byte bytes ns =
    rw (escape_is_not_empty byte bytes, unescape-escape (byte ∷ bytes))
