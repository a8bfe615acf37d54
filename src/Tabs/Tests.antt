-- ===== src/Tabs/Tests.antt =====
-- Runs of tabs.ts, and its theorems at concrete tabs.
use vivi.Base.{◌+◌, ◌≡◌, refl, false, none, some, List, [], ◌∷◌, Text, codes, ◌==◌, arith, find?}
use vivi.FsNode.{FilePayload}
use vivi.Tabs.{
  OpenTab, is_tab, normal, preview, preview_tab, normal_tab, upsert_open_tab, close_open_tab,
  close_tabs_to_right, move_open_tab,
}
use vivi.Tabs.Unique.{times_open, IsUnique, upsert_open_tab-IsUnique, upsert_open_tab-opens}
use vivi.Tabs.Previews.{HasOnePreview, upsert_open_tab-HasOnePreview}
use vivi.Tabs.Closing.{ShowsOpen, ShowsSome, close_open_tab-Shows}
use vivi.Tabs.Opening.{upsert_open_tab-IsOpened}
use vivi.Tabs.Moving.{times_open-move_open_tab}

abbrev file_at : Text → FilePayload
file_at path = record {
  path = path;
  viewer_kind = codes "markdown";
  encoding = codes "utf8";
  content = codes "# A";
  etag = codes "e1";
  truncated = none;
}

abbrev a : FilePayload
a = file_at (codes "a.md")

abbrev b : FilePayload
b = file_at (codes "b.md")

abbrev main : Text
main = codes "main"

abbrev side : Text
side = codes "pane-1"

abbrev tabs : List OpenTab
tabs = normal_tab a main ∷ preview_tab b main ∷ normal_tab a side ∷ []

runs : Unit {0}
unfolding upsert_open_tab close_open_tab close_tabs_to_right move_open_tab ◌==◌
runs = tt

reuses_preview :
    upsert_open_tab (preview_tab a main ∷ normal_tab b side ∷ []) b main preview
    ≡ preview_tab b main ∷ normal_tab b side ∷ []
unfolding runs
reuses_preview = refl

closes_active :
    (close_open_tab tabs (codes "b.md") (some (codes "b.md")) main).next_active_path
    ≡ some (codes "a.md")
unfolding runs
closes_active = refl

-- The same tabs, opened one after the other.
abbrev one : List OpenTab
one = upsert_open_tab [] a main normal

abbrev two : List OpenTab
two = upsert_open_tab one b main preview

one-IsUnique : IsUnique one
one-IsUnique = upsert_open_tab-IsUnique [] a main normal (λ p q. omega arith)

one-HasOnePreview : HasOnePreview one
one-HasOnePreview = upsert_open_tab-HasOnePreview [] a main normal (λ p. omega arith)

upsert_open_tab-IsOpened_example :
    IsUnique two × HasOnePreview two × (times_open two (codes "b.md") main ≡ 1)
upsert_open_tab-IsOpened_example =
    upsert_open_tab-IsOpened one b main preview one-IsUnique one-HasOnePreview

shows_a : ShowsOpen tabs main (some (codes "a.md"))
unfolding ◌==◌
shows_a = omega arith

close_open_tab-Shows_example :
    ShowsOpen
      (close_open_tab tabs (codes "b.md") (some (codes "a.md")) main).tabs
      main
      (close_open_tab tabs (codes "b.md") (some (codes "a.md")) main).next_active_path
    × ShowsSome
        (close_open_tab tabs (codes "b.md") (some (codes "b.md")) main).tabs
        main
        (close_open_tab tabs (codes "b.md") (some (codes "b.md")) main).next_active_path
close_open_tab-Shows_example =
    close_open_tab-Shows tabs (codes "b.md") (some (codes "a.md")) main shows_a

two_shows_b : ShowsOpen two main (some (codes "b.md"))
two_shows_b = omega (arith, upsert_open_tab-opens one b main preview one-IsUnique)

found_a : find? (is_tab (codes "a.md") main) tabs ≡ some (normal_tab a main)
unfolding ◌==◌
found_a = refl

main-ne-side : (main == side) ≡ false
unfolding ◌==◌
main-ne-side = refl

-- The file is open in the side pane before and twice after.
times_open-move_open_tab_example :
    times_open (move_open_tab tabs (codes "a.md") main side none) (codes "a.md") side
    ≡ times_open tabs (codes "a.md") side + 1
times_open-move_open_tab_example =
    times_open-move_open_tab tabs (codes "a.md") main side none (normal_tab a main) found_a refl
      main-ne-side

moved_twice : times_open (move_open_tab tabs (codes "a.md") main side none) (codes "a.md") side ≡ 2
unfolding runs
moved_twice = refl
