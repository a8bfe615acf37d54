-- ===== src/Layout/Reachable.antt =====
-- ui/src/state/editor-layout.ts: the layouts that the operations lead to.
use vivi.Base.{◌≡◌, refl, Bool, Option, arith, ◌==◌}
use vivi.Base.Strings.{Text}
use vivi.Layout.{
  EditorLayout, SplitDirection, SplitEdge, initial_editor_layout, split_editor_pane,
  close_pane_if_empty, set_pane_active_path, flatten_pane_nodes,
}
use vivi.Layout.Invariant.{
  panes_named, IsValid, split_editor_pane-IsValid, close_pane_if_empty-IsValid,
  set_pane_active_path-IsValid,
}

-- One operation; a pane that is activated is there.
pub data Step : EditorLayout → EditorLayout → Type 0 where
  split :
      (l : EditorLayout) (pid : Text) (d : SplitDirection) (edge : Option SplitEdge)
      → Step l (split_editor_pane l pid d edge)
  close :
      (l : EditorLayout) (pid : Text) (has_tabs : Bool)
      → Step l (close_pane_if_empty l pid has_tabs)
  activate :
      (l : EditorLayout) (pid : Text) (path : Option Text)
      → panes_named l pid ≡ 1
      → Step l (set_pane_active_path l pid path)

pub data Reachable : EditorLayout → Type 0 where
  here : Reachable initial_editor_layout
  next : {l m : EditorLayout} → Reachable l → Step l m → Reachable m

initial-IsValid : IsValid initial_editor_layout
unfolding flatten_pane_nodes ◌==◌
initial-IsValid = record { unique = λ i. ground arith; active = refl; fresh = λ k le. refl }

Step-IsValid : {l m : EditorLayout} → Step l m → IsValid l → IsValid m
Step-IsValid (split l pid d edge) v = split_editor_pane-IsValid l pid d edge v
Step-IsValid (close l pid has_tabs) v = close_pane_if_empty-IsValid l pid has_tabs v
Step-IsValid (activate l pid path h) v = set_pane_active_path-IsValid l pid path v h

-- In every layout that splitting panes, closing empty ones and activating a path in a pane that is there lead to from the
-- initial one, in any order, pane ids are unique, the active pane is there, and the ids of panes to come are unused.
pub Reachable-IsValid : {l : EditorLayout} → Reachable l → IsValid l
Reachable-IsValid here = initial-IsValid
Reachable-IsValid (next r step) = Step-IsValid step (Reachable-IsValid r)
