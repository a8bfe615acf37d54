-- ===== src/Layout/Operations.antt =====
-- What a split and a closing do to the panes in reading order.
use vivi.Base.{
  ◌≤◌, ◌<◌, ◌≡◌, refl, sym, ap, ◌∙◌, inl, inr, Bool, false, not, Option, none, some, List, [], ◌∷◌,
  ◌++◌, Text, ◌==◌, arith, count, filter, find?, length, leb, if◌then◌else◌, Bool-cases,
}
use vivi.Base.Laws.{count-add-filter-not}
use vivi.Layout.{
  EditorPane, EditorLayout, EditorLayoutNode, SplitDirection, SplitEdge, flatten_pane_nodes,
  flatten_panes, find_pane, new_pane, placement, goes_first, split_editor_pane, close_pane_if_empty,
  with_root, remove_pane, first_id,
}
use vivi.Layout.Panes.{
  has_id, expand, flatten-replace_pane, panes_of, panes_of-remove_pane, find_pane-eq-find?,
}
use vivi.Layout.Invariant.{IsValid}

-- The pane that is split with the new one beside it.
abbrev pub beside : Bool → EditorPane → EditorPane → List EditorPane
beside first new p = if first then new ∷ p ∷ [] else p ∷ new ∷ []

expand_absent :
    (pid : Text) (first : Bool) (new : EditorPane) (xs : List EditorPane)
    → count (has_id pid) xs ≡ 0
    → expand pid first new xs ≡ xs
expand_absent pid first new [] h = refl
expand_absent pid first new (p ∷ xs) h = ground (arith, expand_absent pid first new xs)

record Inserted (pid : Text) (first : Bool) (new p : EditorPane) (xs : List EditorPane)
    : Type 0 where
  before : List EditorPane
  after : List EditorPane
  was : xs ≡ before ++ p ∷ after
  now : expand pid first new xs ≡ before ++ (beside first new p ++ after)

expand_present :
    (pid : Text) (first : Bool) (new : EditorPane) (xs : List EditorPane) {p : EditorPane}
    → count (has_id pid) xs ≤ 1
    → find? (has_id pid) xs ≡ some p
    → Inserted pid first new p xs
expand_present pid first new [] h e = cc
expand_present pid first new (q ∷ xs) {p} h e = elim (Bool-cases (q.id == pid)) [
  | inl here ↦ record {
    before = [];
    after = xs;
    was = ground arith;
    now = ground (arith, expand_absent pid first new xs);
  }
  | inr other ↦
      let rest = expand_present pid first new xs {p = p} (ground arith) (ground arith) in
      record {
        before = q ∷ rest.before;
        after = rest.after;
        was = ap (q ∷◌) rest.was;
        now = ground (arith, rest.now);
      }
]

-- In a valid layout a split inserts one pane, at the side of the split pane that the edge names,
-- and keeps all others in their order; the new pane shows the path of the old one.
pub split_editor_pane_inserts :
    (l : EditorLayout) (pid : Text) (d : SplitDirection) (edge : Option SplitEdge) (p : EditorPane)
    → IsValid l
    → find_pane l.root pid ≡ some p
    → (before : List EditorPane) × (after : List EditorPane) × (flatten_panes l
        ≡ before ++ p ∷ after)
      × (flatten_panes (split_editor_pane l pid d edge)
          ≡ before ++ (beside (goes_first (placement d edge)) (new_pane l p) p ++ after))
unfolding split_editor_pane
split_editor_pane_inserts l pid d edge p v e =
    let i =
      expand_present pid (goes_first (placement d edge)) (new_pane l p) (flatten_panes l) {p = p}
        (v.unique pid) (sym (find_pane-eq-find? l.root pid) ∙ e) in
    (
      i.before,
      i.after,
      i.was,
      rw (e, split_editor_pane) (flatten-replace_pane l.root pid d _ (new_pane l p) ∙ i.now),
    )

with_root_panes :
    (l : EditorLayout) (pid : Text) (o : Option EditorLayoutNode)
    → remove_pane l.root pid ≡ o
    → IsValid l
    → 1 < length (flatten_panes l)
    → (flatten_panes (with_root l o) ≡ filter (λ p. not (p.id == pid)) (flatten_panes l))
      × ((with_root l o).active_pane_id
          ≡ first_id (filter (λ p. not (p.id == pid)) (flatten_panes l)))
with_root_panes l pid none e v h =
    let empty : [] ≡ filter (λ p. not (p.id == pid)) (flatten_panes l) =
      ap panes_of (sym e) ∙ panes_of-remove_pane l.root pid in
    absurd (
      omega
        (arith, v.unique pid, ap length empty, count-add-filter-not (has_id pid) (flatten_panes l)))
with_root_panes l pid (some root) e v h =
    let kept : flatten_pane_nodes root ≡ filter (λ p. not (p.id == pid)) (flatten_panes l) =
      ap panes_of (sym e) ∙ panes_of-remove_pane l.root pid in
    (kept, ap first_id kept)

-- Closing an empty pane of a valid layout with two panes or more leaves the other panes in their
-- order and makes the first of them active.
pub close_pane_if_empty_panes :
    (l : EditorLayout) (pid : Text)
    → IsValid l
    → 1 < length (flatten_panes l)
    → (flatten_panes (close_pane_if_empty l pid false)
        ≡ filter (λ p. not (p.id == pid)) (flatten_panes l))
      × ((close_pane_if_empty l pid false).active_pane_id
          ≡ first_id (filter (λ p. not (p.id == pid)) (flatten_panes l)))
unfolding close_pane_if_empty
close_pane_if_empty_panes l pid v h =
    let many : leb (length (flatten_panes l)) 1 ≡ false = ground arith in
    rw many (with_root_panes l pid (remove_pane l.root pid) refl v h)
