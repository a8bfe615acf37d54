-- ===== src/Layout/Invariant.antt =====
-- The invariant of an editor layout, and that the operations keep it.
use mathlib.Core.List.{append_cancel_left}
use vivi.Base.{
  ℕ, ◌+◌, ◌≤◌, ◌≡◌, refl, sym, ap, ◌∙◌, inl, inr, Bool, true, false, Option, none, some, Text,
  codes, ◌==◌, eq_iff, eq_self, arith, count, find?, if◌then◌else◌, show-injective, Bool-cases, leb,
  length,
}
use vivi.Base.Laws.{count-map, count-pos_of_find?, find?-passes, count-filter-le, count-ext}
use vivi.Layout.{
  EditorPane, EditorLayout, EditorLayoutNode, SplitDirection, SplitEdge, flatten_pane_nodes,
  flatten_panes, find_pane, pane_id, new_pane, placement, goes_first, split_found,
  split_editor_pane, set_pane_active_path, close_pane_if_empty, with_root, remove_pane,
}
use vivi.Layout.Panes.{
  has_id, flatten-map_pane, flatten-replace_pane, panes_of-remove_pane, find_pane-eq-find?,
  count-expand, panes_of, flatten-cons,
}

-- How many panes of a layout have a name.
abbrev pub panes_named : EditorLayout → Text → ℕ
panes_named layout i = count (has_id i) (flatten_panes layout)

-- Names are unique, the active pane is in the tree, and no pane has a name that a later split
-- will give out.
pub record IsValid (layout : EditorLayout) : Type 0 where
  pub unique : (i : Text) → panes_named layout i ≤ 1
  pub active : panes_named layout layout.active_pane_id ≡ 1
  pub fresh : (k : ℕ) → layout.next_pane_number ≤ k → panes_named layout (pane_id k) ≡ 0

pane_id-eq : (m n : ℕ) → (pane_id m == pane_id n) ≡ true → m ≡ n
pane_id-eq m n h = show-injective m n (append_cancel_left (codes "pane-") _ _ ((eq_iff _ _).0 h))

-- A name counts once in the split tree if it is new, and as often as before otherwise.
count-split_found :
    (l : EditorLayout) (pid : Text) (d : SplitDirection) (edge : Option SplitEdge) (p : EditorPane)
    (i : Text)
    → panes_named (split_found l pid d edge p) i
      ≡ panes_named l i + (if pane_id l.next_pane_number == i then panes_named l pid else 0)
count-split_found l pid d edge p i =
    ap (count (has_id i)) (flatten-replace_pane l.root pid d _ (new_pane l p))
    ∙ count-expand pid (goes_first (placement d edge)) (new_pane l p) i (flatten_panes l)

split_found-IsValid :
    (l : EditorLayout) (pid : Text) (d : SplitDirection) (edge : Option SplitEdge) (p : EditorPane)
    → IsValid l
    → panes_named l pid ≡ 1
    → IsValid (split_found l pid d edge p)
split_found-IsValid l pid d edge p v h = record {
  unique = λ i. ground (
    arith,
    count-split_found l pid d edge p i,
    v.unique i,
    v.fresh l.next_pane_number,
    eq_iff (pane_id l.next_pane_number) i,
  );
  active = ground (
    arith,
    count-split_found l pid d edge p (pane_id l.next_pane_number),
    v.fresh l.next_pane_number,
    eq_self (pane_id l.next_pane_number),
  );
  fresh = λ k le. ground (
    arith,
    count-split_found l pid d edge p (pane_id k),
    v.fresh k,
    pane_id-eq l.next_pane_number k,
  );
}

find_pane-count :
    (l : EditorLayout) (pid : Text) (p : EditorPane)
    → IsValid l
    → find_pane l.root pid ≡ some p
    → panes_named l pid ≡ 1
find_pane-count l pid p v h =
    let found : find? (has_id pid) (flatten_panes l) ≡ some p =
      sym (find_pane-eq-find? l.root pid) ∙ h in
    omega (
      arith,
      v.unique pid,
      count-pos_of_find? (has_id pid) (has_id pid) (flatten_panes l) found
          (find?-passes (has_id pid) (flatten_panes l) found),
    )

split_cases :
    (l : EditorLayout) (pid : Text) (d : SplitDirection) (edge : Option SplitEdge)
    (o : Option EditorPane)
    → find_pane l.root pid ≡ o
    → IsValid l
    → IsValid (split_editor_pane l pid d edge)
unfolding split_editor_pane
split_cases l pid d edge none e v = rw (e, split_editor_pane) v
split_cases l pid d edge (some p) e v =
    rw (e, split_editor_pane) (split_found-IsValid l pid d edge p v (find_pane-count l pid p v e))

-- Splitting a pane, or naming one that is not there, keeps a layout valid.
pub split_editor_pane-IsValid :
    (l : EditorLayout) (pid : Text) (d : SplitDirection) (edge : Option SplitEdge)
    → IsValid l
    → IsValid (split_editor_pane l pid d edge)
split_editor_pane-IsValid l pid d edge = split_cases l pid d edge (find_pane l.root pid) refl

count-set_pane_active_path :
    (l : EditorLayout) (pid : Text) (path : Option Text) (i : Text)
    → panes_named (set_pane_active_path l pid path) i ≡ panes_named l i
unfolding set_pane_active_path
count-set_pane_active_path l pid path i =
    ap (count (has_id i)) (flatten-map_pane l.root pid (λ p. record p { active_path = path }))
    ∙ count-map (has_id i) _ (flatten_panes l)
    ∙ count-ext _ (has_id i) (flatten_panes l) (λ p. ground arith)

-- Activating a path in a pane that is there keeps a layout valid.
pub set_pane_active_path-IsValid :
    (l : EditorLayout) (pid : Text) (path : Option Text)
    → IsValid l
    → panes_named l pid ≡ 1
    → IsValid (set_pane_active_path l pid path)
unfolding set_pane_active_path
set_pane_active_path-IsValid l pid path v h = record {
  unique = λ i. omega (arith, count-set_pane_active_path l pid path i, v.unique i);
  active = count-set_pane_active_path l pid path pid ∙ h;
  fresh = λ k le. count-set_pane_active_path l pid path (pane_id k) ∙ v.fresh k le;
}

count-remove_pane :
    (l : EditorLayout) (pid : Text) (root : EditorLayoutNode) (i : Text)
    → remove_pane l.root pid ≡ some root
    → count (has_id i) (flatten_pane_nodes root) ≤ panes_named l i
count-remove_pane l pid root i e =
    rw (ap panes_of (sym e) ∙ panes_of-remove_pane l.root pid)
      (count-filter-le (has_id i) _ (flatten_panes l))

with_root-IsValid :
    (l : EditorLayout) (pid : Text) (o : Option EditorLayoutNode)
    → remove_pane l.root pid ≡ o
    → IsValid l
    → IsValid (with_root l o)
with_root-IsValid l pid none e v = v
with_root-IsValid l pid (some root) e v = record {
  unique = λ i. omega (arith, count-remove_pane l pid root i e, v.unique i);
  active =
      let (p, ps, c) = flatten-cons root in
      ground (arith, c, eq_self p.id, count-remove_pane l pid root p.id, v.unique p.id);
  fresh = λ k le. omega (arith, count-remove_pane l pid root (pane_id k) e, v.fresh k le);
}

-- Closing a pane, if it is empty, keeps a layout valid.
pub close_pane_if_empty-IsValid :
    (l : EditorLayout) (pid : Text) (has_tabs : Bool)
    → IsValid l
    → IsValid (close_pane_if_empty l pid has_tabs)
unfolding close_pane_if_empty
close_pane_if_empty-IsValid l pid true v = v
close_pane_if_empty-IsValid l pid false v = elim (Bool-cases (leb (length (flatten_panes l)) 1)) [
  | inl one ↦ rw one v
  | inr more ↦ rw more (with_root-IsValid l pid (remove_pane l.root pid) refl v)
]
