-- ===== src/LineDiff/Longest.antt =====
-- A line diff keeps as many lines as can be kept.
use vivi.Base.{
  ℕ, zero, suc, ◌+◌, ◌*◌, ◌≤◌, ◌<◌, ◌≡◌, refl, sym, ap, ◌∙◌, false, List, [], ◌∷◌, ◌++◌, Text, ltb,
  length, drop, arith,
}
use vivi.LineDiff.{
  DiffOp, context, remove, add, removes_from, adds_from, walk, cell, removed_run, after_removed,
  added_run, after_added, alternate, replacement, interleave, build_interleaved_line_diff,
  max_cells, lcs_table,
}
use mathlib.Core.Path.{ap₂}
use native.Mathlib.Numerals.{add-one}
use vivi.LineDiff.Common.{Common, lcs, Common-length-le-lcs}
use vivi.LineDiff.Table.{Fits-of_cells, cell-lcs_table}
use vivi.LineDiff.Sides.{length-after}

-- How many lines a diff keeps.
abbrev pub contexts : List DiffOp → ℕ
contexts [] = 0
contexts (context l m n ∷ ops) = suc (contexts ops)
contexts (remove l m ∷ ops) = contexts ops
contexts (add l n ∷ ops) = contexts ops

contexts-append : (xs ys : List DiffOp) → contexts (xs ++ ys) ≡ contexts xs + contexts ys
contexts-append [] ys = omega arith
contexts-append (context l m n ∷ xs) ys = omega (arith, contexts-append xs ys)
contexts-append (remove l m ∷ xs) ys = contexts-append xs ys
contexts-append (add l n ∷ xs) ys = contexts-append xs ys

contexts-removes_from : (i : ℕ) (olds : List Text) → contexts (removes_from i olds) ≡ 0
unfolding removes_from
contexts-removes_from i [] = refl
contexts-removes_from i (o ∷ olds) = contexts-removes_from (i + 1) olds

contexts-adds_from : (j : ℕ) (news : List Text) → contexts (adds_from j news) ≡ 0
unfolding adds_from
contexts-adds_from j [] = refl
contexts-adds_from j (n ∷ news) = contexts-adds_from (j + 1) news

drop-suc :
    (i : ℕ) (l : List Text) {x : Text} {xs : List Text} → x ∷ xs ≡ drop i l → xs ≡ drop (suc i) l
drop-suc zero [] h = cc
drop-suc zero (y ∷ l) h = cc
drop-suc (suc i) [] h = cc
drop-suc (suc i) (y ∷ l) {x} h = drop-suc i l {x = x} h

-- Along the table the walk keeps as many lines as the table promises.
contexts-walk :
    (olds news : List Text) (table : List (List ℕ))
    → ((i j : ℕ) → cell table i j ≡ lcs (drop i olds) (drop j news))
    → (i j : ℕ) (os ns : List Text) → os ≡ drop i olds
    → ns ≡ drop j news
    → contexts (walk table i j os ns) ≡ lcs os ns
unfolding walk lcs
contexts-walk olds news table t i j [] ns p q = contexts-adds_from j ns
contexts-walk olds news table t i j (o ∷ os) [] p q = contexts-removes_from i (o ∷ os)
contexts-walk olds news table t i j (o ∷ os) (n ∷ ns) p q =
    let p' : os ≡ drop (i + 1) olds = rw add-one (drop-suc i olds p) in
    let q' : ns ≡ drop (j + 1) news = rw add-one (drop-suc j news q) in
    let below : cell table (i + 1) j ≡ lcs os (n ∷ ns) = t (i + 1) j ∙ ap₂ lcs (sym p') (sym q) in
    let right : cell table i (j + 1) ≡ lcs (o ∷ os) ns = t i (j + 1) ∙ ap₂ lcs (sym p) (sym q') in
    ground (
      arith,
      below,
      right,
      contexts-walk olds news table t (i + 1) (j + 1) os ns p' q',
      contexts-walk olds news table t (i + 1) j os (n ∷ ns) p' q,
      contexts-walk olds news table t i (j + 1) (o ∷ os) ns p q',
    )

contexts-alternate : (xs ys : List DiffOp) → contexts (alternate xs ys) ≡ contexts xs + contexts ys
contexts-alternate [] ys = omega arith
contexts-alternate (x ∷ xs) [] = omega arith
contexts-alternate (x ∷ xs) (y ∷ ys) = cons-cons x y (contexts-alternate xs ys)
  where
    cons-cons :
        (x y : DiffOp)
        → contexts (alternate xs ys) ≡ contexts xs + contexts ys
        → contexts (x ∷ y ∷ alternate xs ys) ≡ contexts (x ∷ xs) + contexts (y ∷ ys)
    cons-cons (context l m n) (context l' m' n') h = omega arith
    cons-cons (context l m n) (remove l' m') h = omega arith
    cons-cons (context l m n) (add l' m') h = omega arith
    cons-cons (remove l m) (context l' m' n') h = omega arith
    cons-cons (remove l m) (remove l' m') h = omega arith
    cons-cons (remove l m) (add l' m') h = omega arith
    cons-cons (add l m) (context l' m' n') h = omega arith
    cons-cons (add l m) (remove l' m') h = omega arith
    cons-cons (add l m) (add l' m') h = omega arith

contexts-replacement :
    (xs ys : List DiffOp) → contexts (replacement xs ys) ≡ contexts xs + contexts ys
contexts-replacement xs [] = omega arith
contexts-replacement xs (y ∷ ys) = contexts-alternate xs (y ∷ ys)

contexts-runs :
    (ops : List DiffOp)
    → (contexts (removed_run ops) + contexts (after_removed ops) ≡ contexts ops)
      × (contexts (added_run ops) + contexts (after_added ops) ≡ contexts ops)
contexts-runs [] = (refl, refl)
contexts-runs (context l m n ∷ ops) = (omega arith, omega arith)
contexts-runs (remove l m ∷ ops) = ((contexts-runs ops).0, omega arith)
contexts-runs (add l m ∷ ops) = (omega arith, (contexts-runs ops).1)

contexts-interleave :
    (fuel : ℕ) (ops : List DiffOp)
    → length ops < fuel
    → contexts (interleave fuel ops) ≡ contexts ops
unfolding interleave
contexts-interleave zero ops h = elim h [ ]
contexts-interleave (suc fuel) [] h = refl
contexts-interleave (suc fuel) (context l m n ∷ ops) h =
    ap suc (contexts-interleave fuel ops (omega arith))
contexts-interleave (suc fuel) (add l n ∷ ops) h = contexts-interleave fuel ops (omega arith)
contexts-interleave (suc fuel) (remove l m ∷ ops) h =
    let later = after_removed ops in
    let turns = replacement (removed_run (remove l m ∷ ops)) (added_run later) in
    omega (
      arith,
      contexts-append turns (interleave fuel (after_added later)),
      contexts-replacement (removed_run (remove l m ∷ ops)) (added_run later),
      contexts-interleave fuel (after_added later)
          (omega (arith, (length-after ops).0, (length-after later).1)),
      (contexts-runs ops).0,
      (contexts-runs later).1,
    )

-- Up to the limit on the number of cells, no common subsequence of the two files is longer than
-- the lines that the diff keeps.
pub build_interleaved_line_diff_longest :
    (olds news zs : List Text)
    → length olds * length news ≤ max_cells
    → Common zs olds news
    → length zs ≤ contexts (build_interleaved_line_diff olds news)
unfolding build_interleaved_line_diff
build_interleaved_line_diff_longest olds news zs h c =
    let small : ltb max_cells (length olds * length news) ≡ false = ground arith in
    let table = lcs_table olds news in
    let ops = walk table 0 0 olds news in
    rw small (
      omega (
        arith,
        Common-length-le-lcs c,
        contexts-interleave (suc (length ops)) ops (omega arith),
        contexts-walk olds news table
            (cell-lcs_table olds news (Fits-of_cells (length olds) (length news) h)) 0 0 olds news
            refl refl,
      ))
