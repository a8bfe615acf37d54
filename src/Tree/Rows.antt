-- ===== src/Tree/Rows.antt =====
-- The rows that are counted are the rows that are shown, and none that was asked for is left out.
use vivi.Base.{
  ℕ, ◌+◌, ◌≤◌, ◌≡◌, refl, inl, inr, Bool, true, ◌&&◌, ◌||◌, Option, List, [], ◌∷◌, Text, contains,
  length, ltb, leb, count, or_else, arith, Bool-cases, if◌then◌else◌,
}
use vivi.Base.Laws.{length-append}
use vivi.Tree.{
  FsNodes, nil, cons, node, VisibleTreeRow, is_directory, count_tree_nodes, visible_tree_rows,
  flatten_visible_tree_rows, bounded_visible_tree_rows, filter_rows, is_forced,
  ancestor_directory_paths,
}

-- The number of visible rows is the length of the list of rows, at any depth, and at most the
-- number of nodes.
pub visible_tree_rows-flatten :
    (nodes : FsNodes) (expanded : List Text) (depth : ℕ)
    → (length (flatten_visible_tree_rows nodes expanded depth) ≡ visible_tree_rows nodes expanded)
      × (visible_tree_rows nodes expanded ≤ count_tree_nodes nodes)
unfolding flatten_visible_tree_rows visible_tree_rows count_tree_nodes
visible_tree_rows-flatten nil expanded depth = (refl, omega arith)
visible_tree_rows-flatten (cons (node path kind loaded children) rest) expanded depth =
    let inner = visible_tree_rows-flatten children expanded (depth + 1) in
    let others = visible_tree_rows-flatten rest expanded depth in
    let shown = is_directory kind && contains expanded path in
    let joined =
      length-append (if shown then flatten_visible_tree_rows children expanded (depth + 1) else [])
        (flatten_visible_tree_rows rest expanded depth) in
    elim (Bool-cases (is_directory kind)) [
      | inl d ↦ elim (Bool-cases (contains expanded path)) [
        | inl e ↦ ground (arith, inner, others, joined)
        | inr e ↦ ground (arith, inner, others, joined)
      ]
      | inr d ↦ ground (arith, inner, others, joined)
    ]

filter_rows-length :
    (p : ℕ → VisibleTreeRow → Bool) (i : ℕ) (rs : List VisibleTreeRow)
    → length (filter_rows p i rs) ≤ length rs
filter_rows-length p i [] = omega arith
filter_rows-length p i (r ∷ rs) = ground (arith, filter_rows-length p (i + 1) rs)

filter_rows-count :
    (p : ℕ → VisibleTreeRow → Bool) (q : VisibleTreeRow → Bool) (i : ℕ) (rs : List VisibleTreeRow)
    → ((j : ℕ) (r : VisibleTreeRow) → q r ≡ true → p j r ≡ true)
    → count q (filter_rows p i rs) ≡ count q rs
filter_rows-count p q i [] h = refl
filter_rows-count p q i (r ∷ rs) h = ground (arith, filter_rows-count p q (i + 1) rs h, h i r)

-- The rows that are shown and those left out are all rows, and every row of a path that has to be
-- visible, or of a directory above one, is shown.
pub bounded_visible_tree_rows-keeps :
    (nodes : FsNodes) (expanded : List Text) (max_rows : Option ℕ) (forced : List Text)
    → (length (bounded_visible_tree_rows nodes expanded max_rows forced).rows
          + (bounded_visible_tree_rows nodes expanded max_rows forced).omitted_rows
        ≡ visible_tree_rows nodes expanded)
      × (count
            (is_forced forced (ancestor_directory_paths forced))
            (bounded_visible_tree_rows nodes expanded max_rows forced).rows
          ≡ count
              (is_forced forced (ancestor_directory_paths forced))
              (flatten_visible_tree_rows nodes expanded 0))
unfolding bounded_visible_tree_rows
bounded_visible_tree_rows-keeps nodes expanded max_rows forced =
    let limit : ℕ = or_else max_rows 800 in
    let all_rows = flatten_visible_tree_rows nodes expanded 0 in
    let needed : VisibleTreeRow → Bool = is_forced forced (ancestor_directory_paths forced) in
    let p : ℕ → VisibleTreeRow → Bool = λ i r. ltb i limit || needed r in
    let same = visible_tree_rows-flatten nodes expanded 0 in
    elim (Bool-cases (leb (length all_rows) limit)) [
      | inl few ↦ rw few (omega (arith, same.0), refl)
      | inr many ↦ rw many (
        omega (arith, same.0, filter_rows-length p 0 all_rows),
        filter_rows-count p needed 0 all_rows (λ j r h. ground arith),
      )
    ]
