-- ===== src/Layout/Panes.antt =====
-- The panes of a layout tree in reading order, under each operation of editor-layout.ts.
use mathlib.Core.List.{append-nil, map-append}
use vivi.Base.{
  ◌+◌, ◌≡◌, refl, sym, ap, Bool, not, Option, none, some, List, [], ◌∷◌, ◌++◌, map, Text, ◌==◌,
  arith, count, filter, find?, if◌then◌else◌,
}
use vivi.Base.Laws.{filter-append, find?-append}
use vivi.Layout.{
  EditorPane, EditorLayoutNode, pane, split, flatten_pane_nodes, find_pane, map_pane, replace_pane,
  remove_pane, split_node, SplitDirection, join,
}

abbrev pub has_id : Text → EditorPane → Bool
has_id i p = p.id == i

-- The panes of a node that may be gone.
abbrev pub panes_of : Option EditorLayoutNode → List EditorPane
panes_of none = []
panes_of (some n) = flatten_pane_nodes n

-- A pane as the splitting of pane `pid` leaves it.
abbrev pub expand : Text → Bool → EditorPane → List EditorPane → List EditorPane
expand pid first new [] = []
expand pid first new (p ∷ ps) =
    if p.id == pid
    then (if first then new ∷ p ∷ expand pid first new ps else p ∷ new ∷ expand pid first new ps)
    else p ∷ expand pid first new ps

expand-append :
    (pid : Text) (first : Bool) (new : EditorPane) (xs ys : List EditorPane)
    → expand pid first new (xs ++ ys) ≡ expand pid first new xs ++ expand pid first new ys
expand-append pid first new [] ys = refl
expand-append pid first new (p ∷ xs) ys = ground (arith, expand-append pid first new xs ys)

pub flatten-map_pane :
    (n : EditorLayoutNode) (pid : Text) (f : EditorPane → EditorPane)
    → flatten_pane_nodes (map_pane n pid f)
      ≡ map (λ p. if p.id == pid then f p else p) (flatten_pane_nodes n)
unfolding flatten_pane_nodes map_pane
flatten-map_pane (pane p) pid f = ground arith
flatten-map_pane (split i d a b) pid f =
    rw (flatten-map_pane a pid f, flatten-map_pane b pid f, map-append)

-- Splitting puts the new pane beside each pane with the name, on the side that the edge says.
pub flatten-replace_pane :
    (n : EditorLayoutNode) (pid : Text) (d : SplitDirection) (first : Bool) (new : EditorPane)
    → flatten_pane_nodes (replace_pane n pid (split_node d first new))
      ≡ expand pid first new (flatten_pane_nodes n)
unfolding flatten_pane_nodes replace_pane
flatten-replace_pane (pane p) pid d first new = ground arith
flatten-replace_pane (split i e a b) pid d first new =
    rw (
      flatten-replace_pane a pid d first new,
      flatten-replace_pane b pid d first new,
      expand-append,
    )

-- Removing drops exactly the panes with the name.
pub panes_of-remove_pane :
    (n : EditorLayoutNode) (pid : Text)
    → panes_of (remove_pane n pid) ≡ filter (λ p. not (p.id == pid)) (flatten_pane_nodes n)
unfolding flatten_pane_nodes remove_pane
panes_of-remove_pane (pane p) pid = ground arith
panes_of-remove_pane (split i d a b) pid = rw filter-append (
    rw (← panes_of-remove_pane a pid, ← panes_of-remove_pane b pid)
      (joined (remove_pane a pid) (remove_pane b pid)))
  where
    joined : (x y : Option EditorLayoutNode) → panes_of (join i d x y) ≡ panes_of x ++ panes_of y
    joined none y = refl
    joined (some x) none = sym (append-nil _)
    joined (some x) (some y) = refl

pub find_pane-eq-find? :
    (n : EditorLayoutNode) (pid : Text)
    → find_pane n pid ≡ find? (has_id pid) (flatten_pane_nodes n)
unfolding flatten_pane_nodes find_pane
find_pane-eq-find? (pane p) pid = refl
find_pane-eq-find? (split i d a b) pid =
    rw (find_pane-eq-find? a pid, find_pane-eq-find? b pid, find?-append)

pub count-expand :
    (pid : Text) (first : Bool) (new : EditorPane) (i : Text) (xs : List EditorPane)
    → count (has_id i) (expand pid first new xs)
      ≡ count (has_id i) xs + (if new.id == i then count (has_id pid) xs else 0)
count-expand pid first new i [] = ground arith
count-expand pid first new i (p ∷ xs) = ground (arith, count-expand pid first new i xs)

-- A tree has at least one pane.
pub flatten-cons :
    (n : EditorLayoutNode)
    → (p : EditorPane) × (ps : List EditorPane) × (flatten_pane_nodes n ≡ p ∷ ps)
unfolding flatten_pane_nodes
flatten-cons (pane p) = (p, [], refl)
flatten-cons (split i d a b) =
    let (p, ps, e) = flatten-cons a in
    (p, ps ++ flatten_pane_nodes b, ap (λ x. x ++ flatten_pane_nodes b) e)
