-- ===== src/Tabs/Moving.antt =====
-- Moving a tab to another place.
use vivi.Base.{
  ℕ, ◌+◌, ◌≤◌, ◌≡◌, refl, Bool, true, false, not, ◌||◌, Option, none, some, inl, inr, List, [], ◌∷◌,
  Text, ◌==◌, eq_iff, eq_self, arith, count, filter, find?, take, drop, flag, if◌then◌else◌,
  Bool-cases,
}
use vivi.Base.Laws.{
  count-append, count-take-drop, count-filter_of_imp, count-filter-le, count-filter_of_not,
  find?-passes,
}
use vivi.Tabs.{OpenTab, is_tab, in_pane, is_preview_in, insert_moved, move_found, move_open_tab}
use vivi.Tabs.Unique.{times_open}
use vivi.Tabs.Previews.{previews, HasOnePreview}

-- Wherever a tab is put, it adds itself and nothing else.
count-insert_moved :
    (q : OpenTab → Bool) (without : List OpenTab) (moved : OpenTab) (o : Option ℕ)
    → count q (insert_moved without moved o) ≡ count q without + (if q moved then 1 else 0)
count-insert_moved q without moved none = omega (arith, count-append q without (moved ∷ []))
count-insert_moved q without moved (some i) =
    omega
      (arith, count-append q (take i without) (moved ∷ drop i without), count-take-drop q i without)

abbrev moved_to : Text → OpenTab → OpenTab
moved_to to tab = record tab { pane_id = to }

abbrev without_previews : Text → OpenTab → List OpenTab → List OpenTab
without_previews to tab items =
    if flag tab.is_preview
    then filter (λ item. not (in_pane to item) || not (flag item.is_preview)) items
    else items

count-move_found :
    (q : OpenTab → Bool) (tabs : List OpenTab) (path from to : Text) (before : Option Text)
    (tab : OpenTab)
    → count q (move_found tabs path from to before tab)
      ≡ count q (without_previews to tab (filter (λ item. not (is_tab path from item)) tabs))
        + (if q (moved_to to tab) then 1 else 0)
count-move_found q tabs path from to before tab = count-insert_moved q _ (moved_to to tab) _

without_previews-le :
    (q : OpenTab → Bool) (to : Text) (tab : OpenTab) (items : List OpenTab)
    → count q (without_previews to tab items) ≤ count q items
without_previews-le q to tab items = elim (Bool-cases (flag tab.is_preview)) [
  | inl e ↦ rw e (count-filter-le q _ items)
  | inr e ↦ rw e (omega arith)
]

move_found-previews :
    (tabs : List OpenTab) (path from to : Text) (before : Option Text) (tab : OpenTab) (pane : Text)
    → previews tabs pane ≤ 1
    → previews (move_found tabs path from to before tab) pane ≤ 1
move_found-previews tabs path from to before tab pane u =
    let items = filter (λ (item : OpenTab). not (is_tab path from item)) tabs in
    elim (Bool-cases (is_preview_in pane (moved_to to tab))) [
      | inl yes' ↦ ground (
        arith,
        count-move_found (is_preview_in pane) tabs path from to before tab,
        count-filter_of_not (is_preview_in pane)
            (λ item. not (in_pane to item) || not (flag item.is_preview)) items,
        λ (x : OpenTab) (h : is_preview_in pane x ≡ true). eq_iff to pane,
      )
      | inr no' ↦ omega (
        arith,
        rw no' at (count-move_found (is_preview_in pane) tabs path from to before tab),
        without_previews-le (is_preview_in pane) to tab items,
        count-filter-le (is_preview_in pane) (λ (item : OpenTab). not (is_tab path from item)) tabs,
        u,
      )
    ]

move_cases :
    (tabs : List OpenTab) (path from to : Text) (before : Option Text) (o : Option OpenTab)
    → find? (is_tab path from) tabs ≡ o
    → HasOnePreview tabs
    → HasOnePreview (move_open_tab tabs path from to before)
unfolding move_open_tab
move_cases tabs path from to before none e u = rw (e, move_open_tab) u
move_cases tabs path from to before (some tab) e u =
    rw (e, move_open_tab) (λ p. move_found-previews tabs path from to before tab p (u p))

-- If every pane has at most one preview tab, then so it is after a tab is moved.
pub move_open_tab-HasOnePreview :
    (tabs : List OpenTab) (path from to : Text) (before : Option Text)
    → HasOnePreview tabs
    → HasOnePreview (move_open_tab tabs path from to before)
move_open_tab-HasOnePreview tabs path from to before =
    move_cases tabs path from to before (find? (is_tab path from) tabs) refl

-- Moving a tab that is no preview into another pane adds one to how often its file is open there,
-- also when the file is open there already.
pub times_open-move_open_tab :
    (tabs : List OpenTab) (path from to : Text) (before : Option Text) (tab : OpenTab)
    → find? (is_tab path from) tabs ≡ some tab
    → flag tab.is_preview ≡ false
    → (from == to) ≡ false
    → times_open (move_open_tab tabs path from to before) path to ≡ times_open tabs path to + 1
unfolding move_open_tab
times_open-move_open_tab tabs path from to before tab e n ne =
    rw (e, move_open_tab)
      (ground (
        arith,
        count-move_found (is_tab path to) tabs path from to before tab,
        count-filter_of_imp (is_tab path to) (λ item. not (is_tab path from item)) tabs
            (λ t k. ground (arith, eq_iff t.pane_id to, eq_iff t.pane_id from, eq_iff from to)),
        find?-passes (is_tab path from) tabs e,
        eq_self to,
      ))
