-- ===== src/Tree/Tests.antt =====
-- A small tree, and the theorems there.
use vivi.Base.{refl, ◌==◌, count, ◌≤◌, ◌≡◌, none, some, List, [], ◌∷◌, codes, length}
use vivi.Base.Strings.{Text}
use vivi.Tree.{
  FsNodes, nil, cons, node, file, directory, count_tree_nodes, visible_tree_rows,
  flatten_visible_tree_rows, tree_keyboard_action, VisibleTreeRow, row_path, acts, focus,
}
use vivi.Tree.Rows.{visible_tree_rows-flatten}
use vivi.Tree.Keys.{arrow_left, tree_keyboard_action-expected}

abbrev small : FsNodes
small =
    cons (node (codes "docs") directory none (cons (node (codes "docs/a.md") file none nil) nil))
      (cons (node (codes "b.md") file none nil) nil)

abbrev opened : List Text
opened = codes "docs" ∷ []

visible_tree_rows-flatten_example :
    (length (flatten_visible_tree_rows small opened 0) ≡ visible_tree_rows small opened)
    × (visible_tree_rows small opened ≤ count_tree_nodes small)
visible_tree_rows-flatten_example = visible_tree_rows-flatten small opened 0

abbrev docs : VisibleTreeRow
docs = record {
  row_node = node (codes "docs") directory none (cons (node (codes "docs/a.md") file none nil) nil);
  depth = 0;
}

abbrev a_file : VisibleTreeRow
a_file = record { row_node = node (codes "docs/a.md") file none nil; depth = 1 }

abbrev b_file : VisibleTreeRow
b_file = record { row_node = node (codes "b.md") file none nil; depth = 0 }

shown : flatten_visible_tree_rows small opened 0 ≡ docs ∷ a_file ∷ b_file ∷ []
unfolding flatten_visible_tree_rows ◌==◌
shown = refl

only_docs : count (λ r. row_path r == codes "docs/a.md") (docs ∷ []) ≡ 0
unfolding ◌==◌
only_docs = refl

-- From a file the arrow to the left goes to its directory.
tree_keyboard_action-expected_example :
    tree_keyboard_action
      (docs ∷ a_file ∷ b_file ∷ [])
      opened
      (some (codes "docs/a.md"))
      (codes "ArrowLeft")
    ≡ acts (some (focus (codes "docs")))
tree_keyboard_action-expected_example =
    tree_keyboard_action-expected opened (docs ∷ []) (b_file ∷ []) a_file arrow_left refl only_docs
