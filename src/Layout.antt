-- ===== src/Layout.antt =====
-- ui/src/state/editor-layout.ts: the tree of editor panes, its splits and its closings.
pub mod Panes
pub mod Invariant
pub mod Operations
pub mod Reachable
mod Tests
use vivi.Base.{
  ℕ, ◌+◌, ◌≤◌, ◌≡◌, Bool, true, false, ◌||◌, Option, none, some, List, [], ◌∷◌, ◌++◌, Text, codes,
  ◌==◌, show, length, leb, or_option, if◌then◌else◌,
}

pub data SplitDirection : Type 0 where
  horizontal vertical : SplitDirection

pub data SplitEdge : Type 0 where
  left right top bottom : SplitEdge

pub record EditorPane : Type 0 where
  pub id : Text
  pub active_path : Option Text

pub data EditorLayoutNode : Type 0 where
  pane : EditorPane → EditorLayoutNode
  split : Text → SplitDirection → EditorLayoutNode → EditorLayoutNode → EditorLayoutNode

pub record EditorLayout : Type 0 where
  pub root : EditorLayoutNode
  pub active_pane_id : Text
  pub next_pane_number : ℕ

abbrev pub main_id : Text
main_id = codes "main"

abbrev pub initial_editor_layout : EditorLayout
initial_editor_layout = record {
  root = pane (record { id = main_id; active_path = none });
  active_pane_id = main_id;
  next_pane_number = 1;
}

-- The name `pane-<n>` of the n-th pane.
abbrev pub pane_id : ℕ → Text
pane_id n = codes "pane-" ++ show n

abbrev pub split_id : Text → Text → Text
split_id target new = codes "split-" ++ (target ++ (codes "-" ++ new))

unfoldable pub flatten_pane_nodes : EditorLayoutNode → List EditorPane
flatten_pane_nodes (pane p) = p ∷ []
flatten_pane_nodes (split i d a b) = flatten_pane_nodes a ++ flatten_pane_nodes b

abbrev pub flatten_panes : EditorLayout → List EditorPane
flatten_panes layout = flatten_pane_nodes layout.root

unfoldable pub find_pane : EditorLayoutNode → Text → Option EditorPane
find_pane (pane p) pid = if p.id == pid then some p else none
find_pane (split i d a b) pid = or_option (find_pane a pid) (find_pane b pid)

unfoldable pub map_pane : EditorLayoutNode → Text → (EditorPane → EditorPane) → EditorLayoutNode
map_pane (pane p) pid f = if p.id == pid then pane (f p) else pane p
map_pane (split i d a b) pid f = split i d (map_pane a pid f) (map_pane b pid f)

unfoldable pub replace_pane :
    EditorLayoutNode → Text → (EditorPane → EditorLayoutNode) → EditorLayoutNode
replace_pane (pane p) pid f = if p.id == pid then f p else pane p
replace_pane (split i d a b) pid f = split i d (replace_pane a pid f) (replace_pane b pid f)

-- What is left of a split when a side may be gone.
abbrev join :
    Text
    → SplitDirection
    → Option EditorLayoutNode
    → Option EditorLayoutNode
    → Option EditorLayoutNode
join i d none second = second
join i d (some a) none = some a
join i d (some a) (some b) = some (split i d a b)

unfoldable pub remove_pane : EditorLayoutNode → Text → Option EditorLayoutNode
remove_pane (pane p) pid = if p.id == pid then none else some (pane p)
remove_pane (split i d a b) pid = join i d (remove_pane a pid) (remove_pane b pid)

unfoldable pub set_pane_active_path : EditorLayout → Text → Option Text → EditorLayout
unfolding map_pane
set_pane_active_path layout pid path = record layout {
  active_pane_id = pid;
  root = map_pane layout.root pid (λ p. record p { active_path = path });
}

-- `edge ?? (direction === "vertical" ? "right" : "bottom")`
abbrev pub placement : SplitDirection → Option SplitEdge → SplitEdge
placement d (some edge) = edge
placement vertical none = right
placement horizontal none = bottom

-- `placement === "left" || placement === "top"`
abbrev pub goes_first : SplitEdge → Bool
goes_first left = true
goes_first top = true
goes_first right = false
goes_first bottom = false

abbrev pub new_pane : EditorLayout → EditorPane → EditorPane
new_pane layout p = record { id = pane_id layout.next_pane_number; active_path = p.active_path }

-- The node that takes the place of the pane that is split.
abbrev pub split_node : SplitDirection → Bool → EditorPane → EditorPane → EditorLayoutNode
split_node d first new target =
    split (split_id target.id new.id) d (if first then pane new else pane target)
      (if first then pane target else pane new)

-- `splitEditorPane` once the pane is found.
abbrev pub split_found :
    EditorLayout → Text → SplitDirection → Option SplitEdge → EditorPane → EditorLayout
split_found layout pid d edge p = record {
  root =
      replace_pane layout.root pid
        (split_node d (goes_first (placement d edge)) (new_pane layout p));
  active_pane_id = pane_id layout.next_pane_number;
  next_pane_number = layout.next_pane_number + 1;
}

unfoldable pub split_editor_pane :
    EditorLayout → Text → SplitDirection → Option SplitEdge → EditorLayout
unfolding find_pane replace_pane
split_editor_pane layout pid d edge = elim (find_pane layout.root pid) [
  | none ↦ layout
  | some p ↦ split_found layout pid d edge p
]

-- `nextPanes[0]?.id ?? "main"`
abbrev pub first_id : List EditorPane → Text
first_id [] = main_id
first_id (p ∷ ps) = p.id

abbrev pub with_root : EditorLayout → Option EditorLayoutNode → EditorLayout
with_root layout none = layout
with_root layout (some root) = record layout {
  root = root;
  active_pane_id = first_id (flatten_pane_nodes root);
}

unfoldable pub close_pane_if_empty : EditorLayout → Text → Bool → EditorLayout
unfolding flatten_pane_nodes remove_pane
close_pane_if_empty layout pid has_tabs =
    if has_tabs
    then layout
    else if leb (length (flatten_panes layout)) 1
    then layout
    else with_root layout (remove_pane layout.root pid)
