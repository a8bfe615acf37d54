-- ===== src/Tabs/Closing.antt =====
-- Closing tabs never leaves a pane showing a file that is not open in it.
use vivi.Base.{
  ℕ, zero, suc, ◌≤◌, ◌≡◌, refl, Bool, true, false, not, ◌&&◌, ◌||◌, Option, none, some, inl, inr,
  List, [], ◌∷◌, map, Text, ◌==◌, eq_iff, eq_self, contains, truthy, or_option, arith, count,
  filter, find_index?, drop, get_elem?, head?, any, Bool-cases,
}
use vivi.Base.Laws.{count-filter_of_imp, count-take-drop, count-take_found}
use vivi.Tabs.{
  OpenTab, is_tab, in_pane, path_of, close_open_tab, close_other_open_tabs, close_tabs_to_right,
  close_after, close_tabs_by_predicate,
}
use vivi.Tabs.Unique.{times_open, IsUnique}

-- The path that a pane shows is open in it; a pane that shows nothing is no claim.
abbrev pub ShowsOpen : List OpenTab → Text → Option Text → Type 0
ShowsOpen tabs pane none = Unit {0}
ShowsOpen tabs pane (some path) = 1 ≤ times_open tabs path pane

-- The path that a pane shows is open in it, and it shows nothing only if it has no tab.
abbrev pub ShowsSome : List OpenTab → Text → Option Text → Type 0
ShowsSome tabs pane none = count (in_pane pane) tabs ≡ 0
ShowsSome tabs pane (some path) = 1 ≤ times_open tabs path pane

-- A tab of the list of the pane's tabs is open in the pane.
get_elem?-open :
    (tabs : List OpenTab) (pane : Text) (i : ℕ) (tab : OpenTab)
    → get_elem? (filter (in_pane pane) tabs) i ≡ some tab
    → 1 ≤ times_open tabs tab.path pane
get_elem?-open [] pane i tab e = cc
get_elem?-open (t ∷ tabs) pane zero tab e =
    ground (arith, get_elem?-open tabs pane zero tab, eq_self tab.path)
get_elem?-open (t ∷ tabs) pane (suc i) tab e =
    ground (arith, get_elem?-open tabs pane i tab, get_elem?-open tabs pane (suc i) tab)

head?-open :
    (tabs : List OpenTab) (pane : Text) (tab : OpenTab)
    → head? (filter (in_pane pane) tabs) ≡ some tab
    → 1 ≤ times_open tabs tab.path pane
head?-open [] pane tab e = cc
head?-open (t ∷ tabs) pane tab e = ground (arith, head?-open tabs pane tab, eq_self tab.path)

head?-none :
    (tabs : List OpenTab) (pane : Text)
    → head? (filter (in_pane pane) tabs) ≡ none
    → count (in_pane pane) tabs ≡ 0
head?-none [] pane e = refl
head?-none (t ∷ tabs) pane e = ground (arith, head?-none tabs pane)

head?-ShowsSome :
    (tabs : List OpenTab) (pane : Text) (o : Option OpenTab)
    → head? (filter (in_pane pane) tabs) ≡ o
    → ShowsSome tabs pane (path_of o)
head?-ShowsSome tabs pane none e = head?-none tabs pane e
head?-ShowsSome tabs pane (some tab) e = head?-open tabs pane tab e

next-ShowsSome :
    (tabs : List OpenTab) (pane : Text) (i : ℕ) (o : Option OpenTab)
    → get_elem? (filter (in_pane pane) tabs) i ≡ o
    → ShowsSome tabs pane (or_option (path_of o) (path_of (head? (filter (in_pane pane) tabs))))
next-ShowsSome tabs pane i (some tab) e = get_elem?-open tabs pane i tab e
next-ShowsSome tabs pane i none e =
    head?-ShowsSome tabs pane (head? (filter (in_pane pane) tabs)) refl

-- When the tab that a pane shows is closed, the pane shows another of its tabs, or nothing if none
-- is left.
pub close_open_tab-ShowsSome :
    (tabs : List OpenTab) (path pane : Text)
    → ShowsSome
        (close_open_tab tabs path (some path) pane).tabs
        pane
        (close_open_tab tabs path (some path) pane).next_active_path
unfolding close_open_tab
close_open_tab-ShowsSome tabs path pane =
    rw (eq_self path)
      (next-ShowsSome (filter (λ tab. not (is_tab path pane tab)) tabs) pane _ _ refl)

ShowsSome-ShowsOpen :
    (tabs : List OpenTab) (pane : Text) (o : Option Text)
    → ShowsSome tabs pane o
    → ShowsOpen tabs pane o
ShowsSome-ShowsOpen tabs pane none h = tt
ShowsSome-ShowsOpen tabs pane (some path) h = h

times_open-without :
    (tabs : List OpenTab) (path shown pane : Text)
    → (path == shown) ≡ false
    → times_open (filter (λ tab. not (is_tab path pane tab)) tabs) shown pane
      ≡ times_open tabs shown pane
times_open-without tabs path shown pane h =
    count-filter_of_imp (is_tab shown pane) (λ tab. not (is_tab path pane tab)) tabs
      (λ t k. ground (arith, eq_iff t.path shown, eq_iff t.path path, eq_iff path shown))

close_other :
    (tabs : List OpenTab) (path shown pane : Text)
    → (path == shown) ≡ false
    → 1 ≤ times_open tabs shown pane
    → ShowsOpen
        (close_open_tab tabs path (some shown) pane).tabs
        pane
        (close_open_tab tabs path (some shown) pane).next_active_path
unfolding close_open_tab
close_other tabs path shown pane e h = rw e (rw (times_open-without tabs path shown pane e) h)

-- Closing a tab of a pane keeps what the pane shows open in it.
pub close_open_tab-ShowsOpen :
    (tabs : List OpenTab) (path : Text) (active : Option Text) (pane : Text)
    → ShowsOpen tabs pane active
    → ShowsOpen
        (close_open_tab tabs path active pane).tabs
        pane
        (close_open_tab tabs path active pane).next_active_path
close_open_tab-ShowsOpen tabs path none pane h = unfold close_open_tab in tt
close_open_tab-ShowsOpen tabs path (some shown) pane h = elim (Bool-cases (path == shown)) [
  | inl same ↦
      rw (← (eq_iff path shown).0 same)
        (ShowsSome-ShowsOpen _ pane _ (close_open_tab-ShowsSome tabs path pane))
  | inr other ↦ close_other tabs path shown pane other h
]

-- Closing a tab of a pane keeps what the pane shows open in it; when the shown tab itself is closed, the pane shows another
-- of its tabs, or nothing if none is left.
pub close_open_tab-Shows :
    (tabs : List OpenTab) (path : Text) (active : Option Text) (pane : Text)
    → ShowsOpen tabs pane active
    → ShowsOpen
        (close_open_tab tabs path active pane).tabs
        pane
        (close_open_tab tabs path active pane).next_active_path
      × ShowsSome
          (close_open_tab tabs path (some path) pane).tabs
          pane
          (close_open_tab tabs path (some path) pane).next_active_path
close_open_tab-Shows tabs path active pane h =
    (close_open_tab-ShowsOpen tabs path active pane h, close_open_tab-ShowsSome tabs path pane)

times_open-others :
    (tabs : List OpenTab) (shown pane : Text)
    → times_open (filter (λ tab. not (in_pane pane tab) || (tab.path == shown)) tabs) shown pane
      ≡ times_open tabs shown pane
times_open-others tabs shown pane =
    count-filter_of_imp (is_tab shown pane) (λ tab. not (in_pane pane tab) || (tab.path == shown))
      tabs (λ t k. ground arith)

-- Closing the other tabs of a pane keeps what the pane shows open in it.
pub close_other_open_tabs-ShowsOpen :
    (tabs : List OpenTab) (active : Option Text) (pane : Text)
    → ShowsOpen tabs pane active
    → ShowsOpen
        (close_other_open_tabs tabs active pane).tabs
        pane
        (close_other_open_tabs tabs active pane).next_active_path
unfolding close_other_open_tabs
close_other_open_tabs-ShowsOpen tabs none pane h = tt
close_other_open_tabs-ShowsOpen tabs (some []) pane h = h
close_other_open_tabs-ShowsOpen tabs (some (c ∷ s)) pane h =
    rw (times_open-others tabs (c ∷ s) pane) h

times_open-in_pane :
    (tabs : List OpenTab) (shown pane : Text)
    → count (λ t. t.path == shown) (filter (in_pane pane) tabs) ≡ times_open tabs shown pane
times_open-in_pane [] shown pane = refl
times_open-in_pane (t ∷ tabs) shown pane = ground (arith, times_open-in_pane tabs shown pane)

contains-paths :
    (tabs : List OpenTab) (shown : Text)
    → count (λ t. t.path == shown) tabs ≡ 0
    → contains (map (λ (t : OpenTab). t.path) tabs) shown ≡ false
contains-paths [] shown h = refl
contains-paths (t ∷ tabs) shown h = ground (arith, contains-paths tabs shown)

-- The tab that a pane shows is not to the right of itself.
close_after-ShowsOpen :
    (tabs : List OpenTab) (shown pane : Text) (o : Option ℕ)
    → find_index? (λ t. t.path == shown) (filter (in_pane pane) tabs) ≡ o
    → IsUnique tabs
    → 1 ≤ times_open tabs shown pane
    → 1 ≤ times_open (close_after tabs (some shown) pane o).tabs shown pane
close_after-ShowsOpen tabs shown pane none e u h = h
close_after-ShowsOpen tabs shown pane (some i) e u h =
    let right : count (λ (t : OpenTab). t.path == shown) (drop (suc i) (filter (in_pane pane) tabs))
        ≡ 0 =
      omega (
        arith,
        count-take-drop (λ (t : OpenTab). t.path == shown) (suc i) (filter (in_pane pane) tabs),
        count-take_found (λ (t : OpenTab). t.path == shown) (filter (in_pane pane) tabs) i e,
        times_open-in_pane tabs shown pane,
        u shown pane,
      ) in
    rw
      (count-filter_of_imp (is_tab shown pane)
        (λ tab.
          not (in_pane pane tab)
          || not (
              contains (map (λ (t : OpenTab). t.path) (drop (suc i) (filter (in_pane pane) tabs)))
                tab.path))
        tabs
        (λ t k. ground (
          arith,
          contains-paths (drop (suc i) (filter (in_pane pane) tabs)) shown right,
          eq_iff t.path shown,
        )))
      h

-- Closing the tabs to the right of the one that a pane shows keeps that one open, if every file is
-- open at most once in a pane.
pub close_tabs_to_right-ShowsOpen :
    (tabs : List OpenTab) (active : Option Text) (pane : Text)
    → IsUnique tabs
    → ShowsOpen tabs pane active
    → ShowsOpen
        (close_tabs_to_right tabs active pane).tabs
        pane
        (close_tabs_to_right tabs active pane).next_active_path
unfolding close_tabs_to_right
close_tabs_to_right-ShowsOpen tabs none pane u h = tt
close_tabs_to_right-ShowsOpen tabs (some []) pane u h = h
close_tabs_to_right-ShowsOpen tabs (some (c ∷ s)) pane u h = after _ refl
  where
    after :
        (o : Option ℕ)
        → find_index? (λ t. t.path == (c ∷ s)) (filter (in_pane pane) tabs) ≡ o
        → ShowsOpen
            (close_after tabs (some (c ∷ s)) pane o).tabs
            pane
            (close_after tabs (some (c ∷ s)) pane o).next_active_path
    after none e = h
    after (some i) e = close_after-ShowsOpen tabs (c ∷ s) pane (some i) e u h

any-open :
    (tabs : List OpenTab) (shown pane : Text)
    → any (λ tab. in_pane pane tab && (tab.path == shown)) tabs ≡ true
    → 1 ≤ times_open tabs shown pane
any-open [] shown pane h = cc
any-open (t ∷ tabs) shown pane h = ground (arith, any-open tabs shown pane)

-- Closing the tabs that a test picks, as the unchanged or the preview tabs, makes the pane show one
-- of its tabs, or nothing if none is left, if it showed a file before.
pub close_tabs_by_predicate-ShowsSome :
    (tabs : List OpenTab) (shown pane : Text) (should_close : OpenTab → Bool)
    → truthy (some shown) ≡ true
    → ShowsSome
        (close_tabs_by_predicate tabs (some shown) pane should_close).tabs
        pane
        (close_tabs_by_predicate tabs (some shown) pane should_close).next_active_path
unfolding close_tabs_by_predicate
close_tabs_by_predicate-ShowsSome tabs [] pane f h = cc
close_tabs_by_predicate-ShowsSome tabs (c ∷ s) pane f h =
    let next = filter (λ (tab : OpenTab). not (in_pane pane tab) || not (f tab)) tabs in
    elim (Bool-cases (any (λ (tab : OpenTab). in_pane pane tab && (tab.path == (c ∷ s))) next)) [
      | inl kept ↦ rw kept (any-open next (c ∷ s) pane kept)
      | inr gone ↦ rw gone (head?-ShowsSome next pane (head? (filter (in_pane pane) next)) refl)
    ]
