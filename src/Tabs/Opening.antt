-- ===== src/Tabs/Opening.antt =====
-- ui/src/state/tabs.ts: opening a file.
use vivi.Base.{◌≡◌, List}
use vivi.Base.Strings.{Text}
use vivi.FsNode.{FilePayload}
use vivi.Tabs.{OpenTab, OpenTabMode, upsert_open_tab}
use vivi.Tabs.Unique.{IsUnique, times_open, upsert_open_tab-IsUnique, upsert_open_tab-opens}
use vivi.Tabs.Previews.{HasOnePreview, upsert_open_tab-HasOnePreview}

-- If every file is open at most once in a pane and every pane has at most one preview tab, then so it is after a file is
-- opened, in any mode, and the file is open exactly once in the pane.
pub upsert_open_tab-IsOpened :
    (tabs : List OpenTab) (file : FilePayload) (pane : Text) (mode : OpenTabMode)
    → IsUnique tabs
    → HasOnePreview tabs
    → IsUnique (upsert_open_tab tabs file pane mode)
      × HasOnePreview (upsert_open_tab tabs file pane mode)
      × (times_open (upsert_open_tab tabs file pane mode) file.path pane ≡ 1)
upsert_open_tab-IsOpened tabs file pane mode u p = (
  upsert_open_tab-IsUnique tabs file pane mode u,
  upsert_open_tab-HasOnePreview tabs file pane mode p,
  upsert_open_tab-opens tabs file pane mode u,
)
