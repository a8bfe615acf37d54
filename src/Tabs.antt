-- ===== src/Tabs.antt =====
-- ui/src/state/tabs.ts: the tabs that are open in the editor panes.
pub mod Unique
pub mod Previews
pub mod Opening
pub mod Closing
pub mod Moving
mod Tests
use mathlib.Core.Option
use vivi.Base.{
  ℕ, suc, ◌-◌, ◌+◌, Bool, true, false, not, ◌&&◌, ◌||◌, Option, none, some, List, [], ◌∷◌, ◌++◌,
  map, Text, ◌==◌, contains, truthy, same_option, flag, is_some, or_option, filter, find?,
  find_index?, any, take, drop, set, get_elem?, head?, if◌then◌else◌,
}
use vivi.FsNode.{FilePayload}

pub record OpenTab : Type 0 where
  pub path : Text
  pub viewer_kind : Text
  pub pane_id : Text
  pub changed : Option Bool
  pub removed : Option Bool
  pub is_preview : Option Bool

pub data OpenTabMode : Type 0 where
  normal preview preserve : OpenTabMode

-- `tab.path === path && tab.paneId === paneId`
abbrev pub is_tab : Text → Text → OpenTab → Bool
is_tab path pane tab = (tab.path == path) && (tab.pane_id == pane)

-- `tab.paneId === paneId && tab.isPreview`
abbrev pub is_preview_in : Text → OpenTab → Bool
is_preview_in pane tab = (tab.pane_id == pane) && flag tab.is_preview

abbrev pub in_pane : Text → OpenTab → Bool
in_pane pane tab = tab.pane_id == pane

-- `mode === "normal" ? false : tab.isPreview`
abbrev pub kept_preview : OpenTabMode → Option Bool → Option Bool
kept_preview normal p = some false
kept_preview preview p = p
kept_preview preserve p = p

abbrev pub refreshed : FilePayload → OpenTabMode → OpenTab → OpenTab
refreshed file mode tab = record tab {
  viewer_kind = file.viewer_kind;
  changed = some false;
  removed = some false;
  is_preview = kept_preview mode tab.is_preview;
}

abbrev pub preview_tab : FilePayload → Text → OpenTab
preview_tab file pane = record {
  path = file.path;
  viewer_kind = file.viewer_kind;
  pane_id = pane;
  changed = none;
  removed = some false;
  is_preview = some true;
}

abbrev pub normal_tab : FilePayload → Text → OpenTab
normal_tab file pane = record {
  path = file.path;
  viewer_kind = file.viewer_kind;
  pane_id = pane;
  changed = none;
  removed = none;
  is_preview = none;
}

-- The slot of the pane's preview tab is used again.
abbrev pub place_preview : List OpenTab → OpenTab → Option ℕ → List OpenTab
place_preview tabs new none = tabs ++ new ∷ []
place_preview tabs new (some i) = set tabs i new

abbrev pub open_new : List OpenTab → FilePayload → Text → OpenTabMode → List OpenTab
open_new tabs file pane preview =
    place_preview tabs (preview_tab file pane) (find_index? (is_preview_in pane) tabs)
open_new tabs file pane normal = tabs ++ normal_tab file pane ∷ []
open_new tabs file pane preserve = tabs ++ normal_tab file pane ∷ []

unfoldable pub upsert_open_tab : List OpenTab → FilePayload → Text → OpenTabMode → List OpenTab
upsert_open_tab tabs file pane mode =
    if is_some (find? (is_tab file.path pane) tabs)
    then map (λ tab. if is_tab file.path pane tab then refreshed file mode tab else tab) tabs
    else open_new tabs file pane mode

unfoldable pub promote_open_tab : List OpenTab → Text → Text → List OpenTab
promote_open_tab tabs path pane =
    map (λ tab. if is_tab path pane tab then record tab { is_preview = some false } else tab) tabs

unfoldable pub mark_tab_changed : List OpenTab → Text → List OpenTab
mark_tab_changed tabs path =
    map
      (λ tab.
        if tab.path == path then record tab { changed = some true; removed = some false } else tab)
      tabs

unfoldable pub mark_tab_removed : List OpenTab → Text → List OpenTab
mark_tab_removed tabs path =
    map
      (λ tab.
        if tab.path == path then record tab { changed = some false; removed = some true } else tab)
      tabs

unfoldable pub mark_tab_loaded : List OpenTab → FilePayload → List OpenTab
mark_tab_loaded tabs file =
    map
      (λ tab.
        if tab.path == file.path
        then record tab {
          viewer_kind = file.viewer_kind;
          changed = some false;
          removed = some false;
        }
        else tab)
      tabs

-- The tabs that are left, and the path that the pane shows next.
pub record Closed : Type 0 where
  pub tabs : List OpenTab
  pub next_active_path : Option Text

-- `Math.max(0, index - 1)`, where `none` is the index -1
abbrev pub previous_index : Option ℕ → ℕ
previous_index none = 0
previous_index (some i) = i - 1

abbrev pub path_of : Option OpenTab → Option Text
path_of none = none
path_of (some tab) = some tab.path

unfoldable pub close_open_tab : List OpenTab → Text → Option Text → Text → Closed
close_open_tab tabs path active pane =
    let pane_tabs = filter (in_pane pane) tabs in
    let index = find_index? (λ tab. tab.path == path) pane_tabs in
    let next_tabs = filter (λ tab. not (is_tab path pane tab)) tabs in
    let next_pane_tabs = filter (in_pane pane) next_tabs in
    if not (same_option (some path) active)
    then record { tabs = next_tabs; next_active_path = active }
    else record {
      tabs = next_tabs;
      next_active_path =
          or_option (path_of (get_elem? next_pane_tabs (previous_index index)))
            (path_of (head? next_pane_tabs));
    }

unfoldable pub close_other_open_tabs : List OpenTab → Option Text → Text → Closed
close_other_open_tabs tabs active pane =
    if not (truthy active) then record { tabs = tabs; next_active_path = active } else record {
      tabs = filter (λ tab. not (in_pane pane tab) || same_option (some tab.path) active) tabs;
      next_active_path = active;
    }

-- `closeTabsToRight` once the active tab is found.
abbrev pub close_after : List OpenTab → Option Text → Text → Option ℕ → Closed
close_after tabs active pane none = record { tabs = tabs; next_active_path = active }
close_after tabs active pane (some i) =
    let closing = map (λ (t : OpenTab). t.path) (drop (suc i) (filter (in_pane pane) tabs)) in
    record {
      tabs = filter (λ tab. not (in_pane pane tab) || not (contains closing tab.path)) tabs;
      next_active_path = active;
    }

unfoldable pub close_tabs_to_right : List OpenTab → Option Text → Text → Closed
close_tabs_to_right tabs active pane =
    if not (truthy active)
    then record { tabs = tabs; next_active_path = active }
    else close_after tabs active pane
        (find_index? (λ tab. same_option (some tab.path) active) (filter (in_pane pane) tabs))

unfoldable pub close_tabs_by_predicate :
    List OpenTab → Option Text → Text → (OpenTab → Bool) → Closed
close_tabs_by_predicate tabs active pane should_close =
    let next_tabs = filter (λ tab. not (in_pane pane tab) || not (should_close tab)) tabs in
    if not (truthy active)
      || any (λ tab. in_pane pane tab && same_option (some tab.path) active) next_tabs
    then record { tabs = next_tabs; next_active_path = active }
    else record {
      tabs = next_tabs;
      next_active_path = path_of (head? (filter (in_pane pane) next_tabs));
    }

unfoldable pub close_unchanged_tabs : List OpenTab → Option Text → Text → Closed
close_unchanged_tabs tabs active pane =
    close_tabs_by_predicate tabs active pane (λ tab. not (flag tab.changed))

unfoldable pub close_preview_tabs : List OpenTab → Option Text → Text → Closed
close_preview_tabs tabs active pane =
    close_tabs_by_predicate tabs active pane (λ tab. flag tab.is_preview)

abbrev pub insert_moved : List OpenTab → OpenTab → Option ℕ → List OpenTab
insert_moved without moved none = without ++ moved ∷ []
insert_moved without moved (some i) = take i without ++ (moved ∷ drop i without)

-- `moveOpenTab` once the tab is found.
abbrev pub move_found : List OpenTab → Text → Text → Text → Option Text → OpenTab → List OpenTab
move_found tabs path from to before tab =
    let without_moved = filter (λ item. not (is_tab path from item)) tabs in
    let moved : OpenTab = record tab { pane_id = to } in
    let without =
      if flag moved.is_preview
      then filter (λ item. not (in_pane to item) || not (flag item.is_preview)) without_moved
      else without_moved in
    insert_moved without moved (
      if truthy before
      then find_index? (λ item. same_option (some item.path) before && in_pane to item) without
      else none)

unfoldable pub move_open_tab : List OpenTab → Text → Text → Text → Option Text → List OpenTab
move_open_tab tabs path from to before = elim (find? (is_tab path from) tabs) [
  | none ↦ tabs
  | some tab ↦ move_found tabs path from to before tab
]
