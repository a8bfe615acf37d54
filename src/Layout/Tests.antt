-- ===== src/Layout/Tests.antt =====
-- Runs of editor-layout.ts, and its theorems at concrete layouts.
use vivi.Base.{
  ℕ, ◌<◌, ◌≡◌, refl, false, none, some, [], ◌∷◌, ◌==◌, codes, show, arith, count, length,
}
use vivi.Layout.{
  EditorLayout, vertical, left, flatten_panes, find_pane, split_editor_pane, close_pane_if_empty,
  set_pane_active_path, initial_editor_layout, main_id, flatten_pane_nodes, pane_id,
}
use vivi.Layout.Panes.{has_id}
use vivi.Layout.Invariant.{IsValid}
use vivi.Layout.Reachable.{here, next, split, close, activate, Reachable-IsValid}

pane_id-ne-main : (k : ℕ) → (main_id == pane_id k) ≡ false
unfolding ◌==◌
pane_id-ne-main k = refl

initial-IsValid : IsValid initial_editor_layout
unfolding flatten_pane_nodes ◌==◌
initial-IsValid = record { unique = λ i. ground arith; active = refl; fresh = λ k le. refl }

abbrev two : EditorLayout
two = split_editor_pane initial_editor_layout main_id vertical (some left)

two_panes :
    flatten_panes two
    ≡ record { id = codes "pane-1"; active_path = none }
      ∷ record { id = main_id; active_path = none }
      ∷ []
unfolding split_editor_pane flatten_pane_nodes ◌==◌ show
two_panes = refl

two_closed :
    close_pane_if_empty two (codes "pane-1") false
    ≡ record { root = initial_editor_layout.root; active_pane_id = main_id; next_pane_number = 2 }
unfolding close_pane_if_empty split_editor_pane flatten_pane_nodes ◌==◌ show
two_closed = refl

one_main : count (has_id main_id) (flatten_panes initial_editor_layout) ≡ 1
unfolding flatten_pane_nodes ◌==◌
one_main = refl

main_found :
    find_pane initial_editor_layout.root main_id
    ≡ some (record { id = main_id; active_path = none })
unfolding find_pane ◌==◌
main_found = refl

two-length : 1 < length (flatten_panes two)
unfolding split_editor_pane flatten_pane_nodes ◌==◌ show
two-length = omega arith

-- The first pane is given a path and split, and the new one is closed.
abbrev named : EditorLayout
named = set_pane_active_path initial_editor_layout main_id (some (codes "a.md"))

abbrev worked : EditorLayout
worked =
    close_pane_if_empty (split_editor_pane named main_id vertical (some left)) (codes "pane-1")
      false

Reachable-IsValid_example : IsValid worked
Reachable-IsValid_example = Reachable-IsValid (
    next
      (next (next here (activate initial_editor_layout main_id (some (codes "a.md")) one_main))
        (split named main_id vertical (some left)))
      (close (split_editor_pane named main_id vertical (some left)) (codes "pane-1") false))
