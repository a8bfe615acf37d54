-- ===== src/Tabs/Previews.antt =====
-- A pane has at most one preview tab.
use vivi.Base.{
  ℕ, ◌≤◌, ◌≡◌, refl, Option, none, some, inl, inr, List, [], ◌∷◌, map, Text, ◌==◌, eq_iff, arith,
  count, find?, find_index?, is_some, if◌then◌else◌, Bool-cases,
}
use vivi.Base.Laws.{count-append, count-set-le, count-set_found, count-zero_of_find_index?}
use vivi.FsNode.{FilePayload}
use vivi.Tabs.{
  OpenTab, OpenTabMode, normal, preview, preserve, is_tab, is_preview_in, refreshed, preview_tab,
  normal_tab, place_preview, open_new, upsert_open_tab,
}

abbrev pub previews : List OpenTab → Text → ℕ
previews tabs pane = count (is_preview_in pane) tabs

abbrev pub HasOnePreview : List OpenTab → Type 0
HasOnePreview tabs = (pane : Text) → previews tabs pane ≤ 1

previews-refreshed :
    (tabs : List OpenTab) (file : FilePayload) (pane : Text) (mode : OpenTabMode) (p : Text)
    → previews
        (map (λ tab. if is_tab file.path pane tab then refreshed file mode tab else tab) tabs)
        p
      ≤ previews tabs p
previews-refreshed [] file pane mode p = omega arith
previews-refreshed (t ∷ tabs) file pane normal p =
    ground (arith, previews-refreshed tabs file pane normal p)
previews-refreshed (t ∷ tabs) file pane preview p =
    ground (arith, previews-refreshed tabs file pane preview p)
previews-refreshed (t ∷ tabs) file pane preserve p =
    ground (arith, previews-refreshed tabs file pane preserve p)

placed :
    (tabs : List OpenTab) (file : FilePayload) (pane p : Text) (o : Option ℕ)
    → find_index? (is_preview_in pane) tabs ≡ o
    → previews tabs p ≤ 1
    → previews (place_preview tabs (preview_tab file pane) o) p ≤ 1
placed tabs file pane p none e u = ground (
  arith,
  count-append (is_preview_in p) tabs (preview_tab file pane ∷ []),
  count-zero_of_find_index? (is_preview_in pane) tabs e,
  eq_iff pane p,
)
placed tabs file pane p (some i) e u = elim (Bool-cases (pane == p)) [
  | inl same ↦ rw (← (eq_iff pane p).0 same) (
      omega (
        arith,
        count-set_found (is_preview_in pane) (is_preview_in pane) tabs i (preview_tab file pane) e
            (λ x h. h),
        rw (← (eq_iff pane p).0 same) at u,
        preview_one,
      ))
  | inr other ↦ ground (arith, count-set-le (is_preview_in p) tabs i (preview_tab file pane))
]
  where
    preview_one : (if is_preview_in pane (preview_tab file pane) then 1 else 0) ≤ 1
    preview_one = ground arith

open_new-previews :
    (tabs : List OpenTab) (file : FilePayload) (pane : Text) (mode : OpenTabMode) (p : Text)
    → previews tabs p ≤ 1
    → previews (open_new tabs file pane mode) p ≤ 1
open_new-previews tabs file pane preview p u =
    placed tabs file pane p (find_index? (is_preview_in pane) tabs) refl u
open_new-previews tabs file pane normal p u =
    ground (arith, count-append (is_preview_in p) tabs (normal_tab file pane ∷ []))
open_new-previews tabs file pane preserve p u =
    ground (arith, count-append (is_preview_in p) tabs (normal_tab file pane ∷ []))

-- If every pane has at most one preview tab, then so it is after a file is opened, in any mode.
pub upsert_open_tab-HasOnePreview :
    (tabs : List OpenTab) (file : FilePayload) (pane : Text) (mode : OpenTabMode)
    → HasOnePreview tabs
    → HasOnePreview (upsert_open_tab tabs file pane mode)
unfolding upsert_open_tab
upsert_open_tab-HasOnePreview tabs file pane mode u p =
    elim (Bool-cases (is_some (find? (is_tab file.path pane) tabs))) [
      | inl e ↦ rw e (omega (arith, previews-refreshed tabs file pane mode p, u p))
      | inr e ↦ rw e (open_new-previews tabs file pane mode p (u p))
    ]
