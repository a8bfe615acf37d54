-- ===== src/Tree.antt =====
-- ui/src/state/tree-expansion.ts and tree-navigation.ts: the rows of the file tree that are shown,
-- and what a key does there.
pub mod Rows
pub mod Keys
mod Tests
use vivi.Base.{
  ℕ, zero, suc, ◌+◌, ◌-◌, min, Bool, true, false, not, ◌&&◌, ◌||◌, Option, none, some, List, [],
  ◌∷◌, ◌++◌, codes, ◌==◌, is_empty, contains, add, filter, find_index?, get_elem?, take, length,
  ltb, leb, eqb, or_else, if◌then◌else◌,
}
use vivi.Base.Strings.{Text}
use vivi.PathPolicy.{split_path, join_path}

pub data NodeKind : Type 0 where
  file directory : NodeKind

-- A node with its path, its kind, `childrenLoaded` and its children; a missing list of children is
-- an empty one.
mutual
  pub data FsNode : Type 0 where
    node : Text → NodeKind → Option Bool → FsNodes → FsNode

  pub data FsNodes : Type 0 where
    nil : FsNodes
    cons : FsNode → FsNodes → FsNodes

abbrev pub path_of : FsNode → Text
path_of (node path kind loaded children) = path

abbrev pub is_directory : NodeKind → Bool
is_directory file = false
is_directory directory = true

abbrev pub is_directory_node : FsNode → Bool
is_directory_node (node path kind loaded children) = is_directory kind

unfoldable pub count_tree_nodes : FsNodes → ℕ
count_tree_nodes nil = 0
count_tree_nodes (cons (node path kind loaded children) rest) =
    let inner = count_tree_nodes children in
    let others = count_tree_nodes rest in 1 + (if is_directory kind then inner else 0) + others

unfoldable pub visible_tree_rows : FsNodes → List Text → ℕ
visible_tree_rows nil expanded = 0
visible_tree_rows (cons (node path kind loaded children) rest) expanded =
    let inner = visible_tree_rows children expanded in
    let others = visible_tree_rows rest expanded in
    1 + (if is_directory kind && contains expanded path then inner else 0) + others

pub record VisibleTreeRow : Type 0 where
  pub row_node : FsNode
  pub depth : ℕ

unfoldable pub flatten_visible_tree_rows : FsNodes → List Text → ℕ → List VisibleTreeRow
flatten_visible_tree_rows nil expanded depth = []
flatten_visible_tree_rows (cons (node path kind loaded children) rest) expanded depth =
    let inner = flatten_visible_tree_rows children expanded (depth + 1) in
    let others = flatten_visible_tree_rows rest expanded depth in
    record { row_node = node path kind loaded children; depth = depth }
    ∷ ((if is_directory kind && contains expanded path then inner else []) ++ others)

abbrev pub not_empty : Text → Bool
not_empty s = not (is_empty s)

-- The prefixes of `done ++ segments` that end in `segments`, without the whole.
abbrev pub proper_prefixes : List Text → List Text → List Text
proper_prefixes done [] = []
proper_prefixes done (s ∷ []) = []
proper_prefixes done (s ∷ t ∷ ts) =
    join_path (done ++ s ∷ []) ∷ proper_prefixes (done ++ s ∷ []) (t ∷ ts)

abbrev pub add_all : List Text → List Text → List Text
add_all set [] = set
add_all set (p ∷ ps) = add_all (add set p) ps

unfoldable pub ancestors_into : List Text → List Text → List Text
unfolding split_path join_path
ancestors_into found [] = found
ancestors_into found (path ∷ paths) =
    ancestors_into (add_all found (proper_prefixes [] (filter not_empty (split_path path)))) paths

unfoldable pub ancestor_directory_paths : List Text → List Text
unfolding ancestors_into
ancestor_directory_paths paths = ancestors_into [] paths

unfoldable pub ensure_visible_ancestors : List Text → List Text → List Text
unfolding ancestor_directory_paths
ensure_visible_ancestors expanded paths = add_all expanded (ancestor_directory_paths paths)

-- What `visit` updates.
pub record Expansion : Type 0 where
  pub visible_rows : ℕ
  pub expanded : List Text

-- `childrenLoaded === false`
abbrev pub is_unloaded : Option Bool → Bool
is_unloaded (some false) = true
is_unloaded _ = false

unfoldable pub visit : ℕ → List Text → FsNodes → Expansion → Expansion
unfolding count_tree_nodes
visit max_rows forced nil e = e
visit max_rows forced (cons (node path kind loaded children) rest) e =
    let rows = e.visible_rows + 1 in
    let opened =
      visit max_rows forced children
        (record { visible_rows = rows; expanded = add e.expanded path }) in
    let closed : Expansion = record { visible_rows = rows; expanded = e.expanded } in
    visit max_rows forced rest (
      if is_directory kind
        && not (is_unloaded loaded)
        && (contains forced path || leb (rows + count_tree_nodes children) max_rows)
      then opened
      else closed)

unfoldable pub initial_expanded_paths : FsNodes → Option ℕ → List Text → List Text
unfolding visit ancestor_directory_paths
initial_expanded_paths nodes max_auto_expanded_rows force_visible_paths =
    let forced = ancestor_directory_paths force_visible_paths in
    add_all
      (visit (or_else max_auto_expanded_rows 280) forced nodes
        (record { visible_rows = 0; expanded = [] })).expanded
      forced

pub record BoundedVisibleTreeRows : Type 0 where
  pub rows : List VisibleTreeRow
  pub total_visible_rows : ℕ
  pub omitted_rows : ℕ

-- `filter` with the index of a row.
abbrev pub filter_rows : (ℕ → VisibleTreeRow → Bool) → ℕ → List VisibleTreeRow → List VisibleTreeRow
filter_rows p i [] = []
filter_rows p i (r ∷ rs) = if p i r then r ∷ filter_rows p (i + 1) rs else filter_rows p (i + 1) rs

abbrev pub is_forced : List Text → List Text → VisibleTreeRow → Bool
is_forced forced ancestors r =
    contains forced (path_of r.row_node) || contains ancestors (path_of r.row_node)

unfoldable pub bounded_visible_tree_rows :
    FsNodes → List Text → Option ℕ → List Text → BoundedVisibleTreeRows
unfolding flatten_visible_tree_rows ancestor_directory_paths
bounded_visible_tree_rows nodes expanded max_rows force_visible_paths =
    let limit = or_else max_rows 800 in
    let all_rows = flatten_visible_tree_rows nodes expanded 0 in
    let ancestors = ancestor_directory_paths force_visible_paths in
    let kept =
      filter_rows (λ i r. ltb i limit || is_forced force_visible_paths ancestors r) 0 all_rows in
    if leb (length all_rows) limit
    then record { rows = all_rows; total_visible_rows = length all_rows; omitted_rows = 0 }
    else record {
      rows = kept;
      total_visible_rows = length all_rows;
      omitted_rows = length all_rows - length kept;
    }

pub data TreeKeyboardAction : Type 0 where
  focus toggle activate : Text → TreeKeyboardAction

abbrev pub row_path : VisibleTreeRow → Text
row_path r = path_of r.row_node

-- What the code returns, `none` for null, or that it throws on a row that is not there.
pub data KeyOutcome : Type 0 where
  acts : Option TreeKeyboardAction → KeyOutcome
  throws : KeyOutcome

-- `{ kind: "focus", path: row!.node.path }`
abbrev pub focused : Option VisibleTreeRow → KeyOutcome
focused none = throws
focused (some r) = acts (some (focus (row_path r)))

abbrev pub focus_at : List VisibleTreeRow → ℕ → KeyOutcome
focus_at rows i = focused (get_elem? rows i)

abbrev pub parent_or : Option TreeKeyboardAction → ℕ → VisibleTreeRow → Option TreeKeyboardAction
parent_or (some found) depth r = some found
parent_or none depth r = if ltb r.depth depth then some (focus (row_path r)) else none

-- The loop upwards from `parentIndex`: the last of the rows above that is less deep.
abbrev pub parent_of : ℕ → List VisibleTreeRow → Option TreeKeyboardAction
parent_of depth [] = none
parent_of depth (r ∷ above) = parent_or (parent_of depth above) depth r

abbrev pub child_of : VisibleTreeRow → Option VisibleTreeRow → Option TreeKeyboardAction
child_of current none = none
child_of current (some child) =
    if ltb current.depth child.depth then some (focus (row_path child)) else none

-- The keys that read `current.node`.
abbrev pub key_on :
    List VisibleTreeRow → List Text → ℕ → VisibleTreeRow → Text → Option TreeKeyboardAction
key_on rows expanded index current key =
    let at_directory = is_directory_node current.row_node in
    let at_expanded = contains expanded (row_path current) in
    if (key == codes "Enter") || (key == codes " ")
    then some (activate (row_path current))
    else if (key == codes "ArrowRight") && at_directory
    then (if at_expanded
        then child_of current (get_elem? rows (index + 1))
        else some (toggle (row_path current)))
    else if key == codes "ArrowLeft"
    then (if at_directory && at_expanded
        then some (toggle (row_path current))
        else parent_of current.depth (take index rows))
    else none

abbrev pub reads_current : Text → Bool
reads_current key =
    (key == codes "Enter")
    || (key == codes " ")
    || (key == codes "ArrowRight")
    || (key == codes "ArrowLeft")

abbrev pub key_at : List VisibleTreeRow → List Text → ℕ → Option VisibleTreeRow → Text → KeyOutcome
key_at rows expanded index none key = if reads_current key then throws else acts none
key_at rows expanded index (some current) key = acts (key_on rows expanded index current key)

abbrev pub index_of : List VisibleTreeRow → Option Text → ℕ
index_of rows none = 0
index_of rows (some p) =
    if is_empty p then 0 else or_else (find_index? (λ r. row_path r == p) rows) 0

abbrev pub key_in : List VisibleTreeRow → List Text → ℕ → Text → KeyOutcome
key_in rows expanded index key =
    if key == codes "ArrowDown"
    then focus_at rows (min (index + 1) (length rows - 1))
    else if key == codes "ArrowUp"
    then focus_at rows (index - 1)
    else if key == codes "Home"
    then focus_at rows 0
    else if key == codes "End"
    then focus_at rows (length rows - 1)
    else key_at rows expanded index (get_elem? rows index) key

unfoldable pub tree_keyboard_action :
    List VisibleTreeRow → List Text → Option Text → Text → KeyOutcome
tree_keyboard_action [] expanded current key = acts none
tree_keyboard_action (r ∷ rows) expanded current key =
    key_in (r ∷ rows) expanded (index_of (r ∷ rows) current) key
