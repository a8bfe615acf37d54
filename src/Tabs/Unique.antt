-- ===== src/Tabs/Unique.antt =====
-- A file is open at most once in a pane.
use vivi.Base.{
  ℕ, ◌+◌, ◌≤◌, ◌≡◌, refl, Bool, Option, none, some, List, [], ◌∷◌, map, Text, eq_iff, eq_self,
  arith, count, find?, find_index?, if◌then◌else◌,
}
use vivi.Base.Laws.{
  count-append, count-set-le, count-set_absent, count-zero_of_find?, count-pos_of_find?,
  find?-passes,
}
use vivi.FsNode.{FilePayload}
use vivi.Tabs.{
  OpenTab, OpenTabMode, normal, preview, preserve, is_tab, is_preview_in, refreshed, preview_tab,
  normal_tab, place_preview, open_new, upsert_open_tab,
}

-- How often a file is open in a pane.
abbrev pub times_open : List OpenTab → Text → Text → ℕ
times_open tabs path pane = count (is_tab path pane) tabs

abbrev pub IsUnique : List OpenTab → Type 0
IsUnique tabs = (path pane : Text) → times_open tabs path pane ≤ 1

times_open-refreshed :
    (tabs : List OpenTab) (file : FilePayload) (pane : Text) (mode : OpenTabMode) (path p : Text)
    → times_open
        (map (λ tab. if is_tab file.path pane tab then refreshed file mode tab else tab) tabs)
        path
        p
      ≡ times_open tabs path p
times_open-refreshed [] file pane mode path p = refl
times_open-refreshed (t ∷ tabs) file pane mode path p =
    ground (arith, times_open-refreshed tabs file pane mode path p)

new_tab :
    (q : OpenTab → Bool) (file : FilePayload) (pane : Text) (mode : OpenTabMode)
    → q (preview_tab file pane) ≡ q (normal_tab file pane)
    → (tabs : List OpenTab)
    → count q (open_new tabs file pane mode)
      ≤ count q tabs + (if q (normal_tab file pane) then 1 else 0)
new_tab q file pane normal e tabs = omega (arith, count-append q tabs (normal_tab file pane ∷ []))
new_tab q file pane preserve e tabs = omega (arith, count-append q tabs (normal_tab file pane ∷ []))
new_tab q file pane preview e tabs = placed (find_index? (is_preview_in pane) tabs)
  where
    placed :
        (o : Option ℕ)
        → count q (place_preview tabs (preview_tab file pane) o)
          ≤ count q tabs + (if q (normal_tab file pane) then 1 else 0)
    placed none = rw (← e) (omega (arith, count-append q tabs (preview_tab file pane ∷ [])))
    placed (some i) = rw (← e) (count-set-le q tabs i (preview_tab file pane))

upsert_cases :
    (tabs : List OpenTab) (file : FilePayload) (pane : Text) (mode : OpenTabMode) (path p : Text)
    (o : Option OpenTab)
    → find? (is_tab file.path pane) tabs ≡ o
    → times_open tabs path p ≤ 1
    → times_open (upsert_open_tab tabs file pane mode) path p ≤ 1
unfolding upsert_open_tab
upsert_cases tabs file pane mode path p (some t) e u =
    rw (e, upsert_open_tab) (rw (times_open-refreshed tabs file pane mode path p) u)
upsert_cases tabs file pane mode path p none e u =
    rw (e, upsert_open_tab)
      (ground (
        arith,
        new_tab (is_tab path p) file pane mode refl tabs,
        eq_iff file.path path,
        eq_iff pane p,
        count-zero_of_find? (is_tab file.path pane) tabs e,
      ))

-- Opening a file, in any mode, keeps every file open at most once in a pane.
pub upsert_open_tab-IsUnique :
    (tabs : List OpenTab) (file : FilePayload) (pane : Text) (mode : OpenTabMode)
    → IsUnique tabs
    → IsUnique (upsert_open_tab tabs file pane mode)
upsert_open_tab-IsUnique tabs file pane mode u path p =
    upsert_cases tabs file pane mode path p (find? (is_tab file.path pane) tabs) refl (u path p)

opened :
    (tabs : List OpenTab) (file : FilePayload) (pane : Text) (mode : OpenTabMode)
    → times_open tabs file.path pane ≡ 0
    → times_open (open_new tabs file pane mode) file.path pane ≡ 1
opened tabs file pane normal h = ground (
  arith,
  count-append (is_tab file.path pane) tabs (normal_tab file pane ∷ []),
  eq_self file.path,
  eq_self pane,
)
opened tabs file pane preserve h = ground (
  arith,
  count-append (is_tab file.path pane) tabs (normal_tab file pane ∷ []),
  eq_self file.path,
  eq_self pane,
)
opened tabs file pane preview h = placed (find_index? (is_preview_in pane) tabs) refl
  where
    placed :
        (o : Option ℕ)
        → find_index? (is_preview_in pane) tabs ≡ o
        → times_open (place_preview tabs (preview_tab file pane) o) file.path pane ≡ 1
    placed none e = ground (
      arith,
      count-append (is_tab file.path pane) tabs (preview_tab file pane ∷ []),
      eq_self file.path,
      eq_self pane,
    )
    placed (some i) e =
        count-set_absent (is_tab file.path pane) (is_preview_in pane) tabs i (preview_tab file pane)
          e h (ground (arith, eq_self file.path, eq_self pane))

opens_cases :
    (tabs : List OpenTab) (file : FilePayload) (pane : Text) (mode : OpenTabMode)
    (o : Option OpenTab)
    → find? (is_tab file.path pane) tabs ≡ o
    → IsUnique tabs
    → times_open (upsert_open_tab tabs file pane mode) file.path pane ≡ 1
unfolding upsert_open_tab
opens_cases tabs file pane mode (some t) e u =
    rw (e, upsert_open_tab)
      (rw (times_open-refreshed tabs file pane mode file.path pane) (
        omega (
          arith,
          u file.path pane,
          count-pos_of_find? (is_tab file.path pane) (is_tab file.path pane) tabs e
              (find?-passes (is_tab file.path pane) tabs e),
        )))
opens_cases tabs file pane mode none e u =
    rw (e, upsert_open_tab)
      (opened tabs file pane mode (count-zero_of_find? (is_tab file.path pane) tabs e))

-- After a file is opened in a pane, in any mode, it is open there exactly once, if every file was
-- open at most once in a pane before.
pub upsert_open_tab-opens :
    (tabs : List OpenTab) (file : FilePayload) (pane : Text) (mode : OpenTabMode)
    → IsUnique tabs
    → times_open (upsert_open_tab tabs file pane mode) file.path pane ≡ 1
upsert_open_tab-opens tabs file pane mode =
    opens_cases tabs file pane mode (find? (is_tab file.path pane) tabs) refl
