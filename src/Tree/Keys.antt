-- ===== src/Tree/Keys.antt =====
-- ui/src/state/tree-navigation.ts: where each key of the tree leads from a row.
use vivi.Base.{
  ℕ, suc, ◌+◌, ◌-◌, ◌≡◌, refl, ap, ◌∙◌, Bool, true, false, ◌&&◌, Option, none, some, List, [], ◌∷◌,
  ◌++◌, Text, ◌==◌, eq_self, codes, contains, is_empty, find?, get_elem?, length, last, ltb, min,
  count, or_option, arith, if◌then◌else◌,
}
use mathlib.Core.Option
use mathlib.Core.Path.{subst}
use mathlib.Core.List.{append-nil, reverse, reverse-cons}
use vivi.Base.Laws.{
  find?-append, length-append, get_elem-append, get_elem-last, take-append, find_index?-after,
}
use vivi.Tree.{
  VisibleTreeRow, TreeKeyboardAction, focus, toggle, activate, acts, row_path, parent_or, parent_of,
  child_of, index_of, key_in, tree_keyboard_action, is_directory_node,
}

pub data Key : Type 0 where
  arrow_down arrow_up home end_key enter space arrow_right arrow_left : Key

abbrev pub name_of : Key → Text
name_of arrow_down = codes "ArrowDown"
name_of arrow_up = codes "ArrowUp"
name_of home = codes "Home"
name_of end_key = codes "End"
name_of enter = codes "Enter"
name_of space = codes " "
name_of arrow_right = codes "ArrowRight"
name_of arrow_left = codes "ArrowLeft"

abbrev pub first_or : List VisibleTreeRow → VisibleTreeRow → VisibleTreeRow
first_or [] r = r
first_or (x ∷ xs) r = x

abbrev pub deeper : VisibleTreeRow → List VisibleTreeRow → Option TreeKeyboardAction
deeper here [] = none
deeper here (r ∷ below) = if ltb here.depth r.depth then some (focus (row_path r)) else none

-- Where a key leads from a row, given the rows above and below it, from top to bottom.
module _ (expanded : List Text) (above below : List VisibleTreeRow) (here : VisibleTreeRow) where
  abbrev pub expected : Key → Option TreeKeyboardAction
  expected arrow_down = some (focus (row_path (first_or below here)))
  expected arrow_up = some (focus (row_path (last here above)))
  expected home = some (focus (row_path (first_or above here)))
  expected end_key = some (focus (row_path (last here below)))
  expected enter = some (activate (row_path here))
  expected space = some (activate (row_path here))
  expected arrow_right =
      if is_directory_node here.row_node
      then (if contains expanded (row_path here)
          then deeper here below
          else some (toggle (row_path here)))
      else none
  expected arrow_left =
      if is_directory_node here.row_node && contains expanded (row_path here)
      then some (toggle (row_path here))
      else Option.map (λ r. focus (row_path r))
          (find? (λ r. ltb r.depth here.depth) (reverse above))

-- The rows at the indices that the keys go to.
module _ (above below : List VisibleTreeRow) (here : VisibleTreeRow) where
  abbrev all_rows : List VisibleTreeRow
  all_rows = above ++ here ∷ below

  row-here : get_elem? all_rows (length above) ≡ some here
  row-here =
      ap (get_elem? all_rows) {x = length above} {y = length above + 0} (omega arith)
      ∙ get_elem-append above (here ∷ below) 0

  row-end : get_elem? all_rows (length all_rows - 1) ≡ some (last here below)
  row-end =
      ap (get_elem? all_rows) {x = length all_rows - 1} {y = length above + length below}
        (omega (arith, length-append above (here ∷ below)))
      ∙ get_elem-append above (here ∷ below) (length below)
      ∙ subst (λ rs. get_elem? (here ∷ rs) (length below) ≡ some (last here below))
          (append-nil below) (get_elem-last here below [])

row-first :
    (above below : List VisibleTreeRow) (here : VisibleTreeRow)
    → get_elem? (above ++ here ∷ below) 0 ≡ some (first_or above here)
row-first [] below here = refl
row-first (a ∷ above) below here = refl

row-before :
    (above below : List VisibleTreeRow) (here : VisibleTreeRow)
    → get_elem? (above ++ here ∷ below) (length above - 1) ≡ some (last here above)
row-before [] below here = refl
row-before (a ∷ above) below here =
    ap (get_elem? (a ∷ (above ++ here ∷ below))) {x = suc (length above) - 1} {y = length above}
      (omega arith)
    ∙ get_elem-last a above (here ∷ below)

row-after :
    (above below : List VisibleTreeRow) (here : VisibleTreeRow)
    → get_elem?
        (above ++ here ∷ below)
        (min (length above + 1) (length (above ++ here ∷ below) - 1))
      ≡ some (first_or below here)
row-after above [] here =
    ap (get_elem? (above ++ here ∷ []))
      {x = min (length above + 1) (length (above ++ here ∷ []) - 1)} {y = length above}
      (omega (arith, length-append above (here ∷ [])))
    ∙ row-here above [] here
row-after above (b ∷ below) here =
    ap (get_elem? (above ++ here ∷ b ∷ below))
      {x = min (length above + 1) (length (above ++ here ∷ b ∷ below) - 1)} {y = length above + 1}
      (omega (arith, length-append above (here ∷ b ∷ below)))
    ∙ get_elem-append above (here ∷ b ∷ below) 1

child_of-deeper :
    (here : VisibleTreeRow) (below : List VisibleTreeRow)
    → child_of here (get_elem? below 0) ≡ deeper here below
child_of-deeper here [] = refl
child_of-deeper here (r ∷ below) = refl

parent_of-find :
    (depth : ℕ) (above : List VisibleTreeRow)
    → parent_of depth above
      ≡ Option.map (λ r. focus (row_path r)) (find? (λ r. ltb r.depth depth) (reverse above))
parent_of-find depth [] = refl
parent_of-find depth (r ∷ above) =
    rw
      (
        parent_of-find depth above,
        reverse-cons r above,
        find?-append (λ r. ltb r.depth depth) (reverse above) (r ∷ []),
      )
      (joined (find? (λ r. ltb r.depth depth) (reverse above)) (ltb r.depth depth) refl)
  where
    joined :
        (o : Option VisibleTreeRow) (b : Bool)
        → ltb r.depth depth ≡ b
        → parent_or (Option.map (λ r. focus (row_path r)) o) depth r
          ≡ Option.map (λ r. focus (row_path r)) (or_option o (if b then some r else none))
    joined (some x) b e = refl
    joined none true e = rw e refl
    joined none false e = rw e refl

tree_keyboard_action-key_in :
    (expanded : List Text) (above below : List VisibleTreeRow) (here : VisibleTreeRow)
    (current : Option Text) (key : Text)
    → tree_keyboard_action (above ++ here ∷ below) expanded current key
      ≡ key_in (above ++ here ∷ below) expanded (index_of (above ++ here ∷ below) current) key
unfolding tree_keyboard_action
tree_keyboard_action-key_in expanded [] below here current key = refl
tree_keyboard_action-key_in expanded (a ∷ above) below here current key = refl

module _ (expanded : List Text) (above below : List VisibleTreeRow) (here : VisibleTreeRow) where
  key_in-expected :
      (k : Key)
      → key_in (above ++ here ∷ below) expanded (length above) (name_of k)
        ≡ acts (expected expanded above below here k)
  unfolding ◌==◌
  key_in-expected arrow_down = rw (row-after above below here) refl
  key_in-expected arrow_up = rw (row-before above below here) refl
  key_in-expected home = rw (row-first above below here) refl
  key_in-expected end_key = rw (row-end above below here) refl
  key_in-expected enter = rw (row-here above below here) refl
  key_in-expected space = rw (row-here above below here) refl
  key_in-expected arrow_right =
      rw (row-here above below here, get_elem-append above (here ∷ below) 1)
        (ap acts (
          ap
            (λ a.
              if is_directory_node here.row_node
              then (if contains expanded (row_path here) then a else some (toggle (row_path here)))
              else none)
            (child_of-deeper here below)))
  key_in-expected arrow_left =
      rw (row-here above below here, take-append above (here ∷ below))
        (rw (parent_of-find here.depth above) refl)

-- From a row whose path is not empty and that of no row above, every key leads where it should, and none of them throws:
-- the arrows down and up to the next and the previous row, if there is one, Home and End to the first and the last one,
-- Enter and the space bar activate the row, the arrow to the right opens a closed directory or enters an open one, and the
-- arrow to the left closes an open one or else goes to the nearest row above that is less deep.
pub tree_keyboard_action-expected :
    (expanded : List Text) (above below : List VisibleTreeRow) (here : VisibleTreeRow) (k : Key)
    → is_empty (row_path here) ≡ false
    → count (λ r. row_path r == row_path here) above ≡ 0
    → tree_keyboard_action (above ++ here ∷ below) expanded (some (row_path here)) (name_of k)
      ≡ acts (expected expanded above below here k)
tree_keyboard_action-expected expanded above below here k named fresh =
    tree_keyboard_action-key_in expanded above below here (some (row_path here)) (name_of k)
    ∙ ap (λ i. key_in (above ++ here ∷ below) expanded i (name_of k)) index
    ∙ key_in-expected expanded above below here k
  where
    index : index_of (above ++ here ∷ below) (some (row_path here)) ≡ length above
    index =
        rw
          (
            named,
            find_index?-after (λ r. row_path r == row_path here) above below here fresh
                (eq_self (row_path here)),
          )
          refl
