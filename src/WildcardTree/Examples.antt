-- ===== src/WildcardTree/Examples.antt =====
-- The theorems on the tree of names at concrete inputs.
use otxlinux.Prelude.{ℕ, ◌≡◌, ◌≢◌, sym, true, false, List, [], ◌∷◌, ◌++◌}
use mathlib.Core.List.{nil≢cons, tail-eq_of_cons-eq}
use otxlinux.WildcardTree.{Node, node, childless, insert, remove, find_one}
use otxlinux.WildcardTree.Names.{contains}
use otxlinux.WildcardTree.Structure.{IsTree, insert-IsTree, contains-insert, IsForest}
use otxlinux.WildcardTree.Removal.{contains-remove}
use otxlinux.WildcardTree.Search.{Answers, find_one-Answers}

-- The names Bo, Bob and Max.
abbrev bo : List ℕ
bo = 66 ∷ 111 ∷ []

abbrev bob : List ℕ
bob = 66 ∷ 111 ∷ 98 ∷ []

abbrev max_name : List ℕ
max_name = 77 ∷ 97 ∷ 120 ∷ []

abbrev empty : Node
empty = node false childless

abbrev online : Node
online = insert max_name (insert bob (insert bo empty))

empty-IsTree : IsTree empty
unfolding IsTree IsForest
empty-IsTree = tt

online-IsTree : IsTree online
online-IsTree =
    insert-IsTree max_name _
      (insert-IsTree bob _ (insert-IsTree bo empty (unfold IsTree IsForest in tt)))

bo_is_not_bob : bo ≢ bob
bo_is_not_bob e = nil≢cons (tail-eq_of_cons-eq (tail-eq_of_cons-eq e))

contains-insert_example :
    IsTree (insert bob (insert bo empty))
    × (contains bob (insert bob (insert bo empty)) ≡ true)
    × (contains bo (insert bob (insert bo empty)) ≡ contains bo (insert bo empty))
contains-insert_example =
    contains-insert bob bo (insert bo empty) (insert-IsTree bo empty empty-IsTree)
      (λ e. nil≢cons (sym e)) bo_is_not_bob

contains-remove_example :
    IsTree (remove bob online)
    × (contains bob (remove bob online) ≡ false)
    × (contains bo (remove bob online) ≡ contains bo online)
contains-remove_example = contains-remove bob bo online online-IsTree bo_is_not_bob

find_one-Answers_example : Answers (λ t. contains (bo ++ t) online) bo (find_one bo [] online)
find_one-Answers_example = find_one-Answers bo [] online (λ e. nil≢cons (sym e)) online-IsTree
