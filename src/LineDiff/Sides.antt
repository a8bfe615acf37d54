-- ===== src/LineDiff/Sides.antt =====
-- The two files that a line diff shows.
use mathlib.Core.List.{append-nil}
use mathlib.Core.Path.{ap₂}
use vivi.Base.{
  ℕ, zero, ◌+◌, ◌*◌, ◌≤◌, ◌<◌, ◌≡◌, refl, ap, ◌∙◌, All, suc, inl, inr, List, [], ◌∷◌, ◌++◌, Text,
  eq_iff, ltb, length, arith, Bool-cases,
}
use vivi.LineDiff.{
  DiffOp, context, remove, add, removes_from, adds_from, walk, removed_run, after_removed,
  added_run, after_added, alternate, replacement, interleave, build_interleaved_line_diff,
  max_cells, lcs_table,
}

-- The lines of the old file with the numbers that the diff gives them.
abbrev pub old_side : List DiffOp → List (Text × ℕ)
old_side [] = []
old_side (context l m n ∷ ops) = (l, m) ∷ old_side ops
old_side (remove l m ∷ ops) = (l, m) ∷ old_side ops
old_side (add l n ∷ ops) = old_side ops

abbrev pub new_side : List DiffOp → List (Text × ℕ)
new_side [] = []
new_side (context l m n ∷ ops) = (l, n) ∷ new_side ops
new_side (remove l m ∷ ops) = new_side ops
new_side (add l n ∷ ops) = (l, n) ∷ new_side ops

-- Lines numbered from the one after `i`.
abbrev pub numbered : ℕ → List Text → List (Text × ℕ)
numbered i [] = []
numbered i (l ∷ ls) = (l, i + 1) ∷ numbered (i + 1) ls

old_side-append : (xs ys : List DiffOp) → old_side (xs ++ ys) ≡ old_side xs ++ old_side ys
old_side-append [] ys = refl
old_side-append (context l m n ∷ xs) ys = ap ((l, m) ∷◌) (old_side-append xs ys)
old_side-append (remove l m ∷ xs) ys = ap ((l, m) ∷◌) (old_side-append xs ys)
old_side-append (add l n ∷ xs) ys = old_side-append xs ys

new_side-append : (xs ys : List DiffOp) → new_side (xs ++ ys) ≡ new_side xs ++ new_side ys
new_side-append [] ys = refl
new_side-append (context l m n ∷ xs) ys = ap ((l, n) ∷◌) (new_side-append xs ys)
new_side-append (remove l m ∷ xs) ys = new_side-append xs ys
new_side-append (add l n ∷ xs) ys = ap ((l, n) ∷◌) (new_side-append xs ys)

sides-removes_from :
    (i : ℕ) (olds : List Text)
    → (old_side (removes_from i olds) ≡ numbered i olds) × (new_side (removes_from i olds) ≡ [])
unfolding removes_from
sides-removes_from i [] = (refl, refl)
sides-removes_from i (o ∷ olds) = ground (arith, sides-removes_from (i + 1) olds)

sides-adds_from :
    (j : ℕ) (news : List Text)
    → (old_side (adds_from j news) ≡ []) × (new_side (adds_from j news) ≡ numbered j news)
unfolding adds_from
sides-adds_from j [] = (refl, refl)
sides-adds_from j (n ∷ news) = ground (arith, sides-adds_from (j + 1) news)

sides-walk :
    (table : List (List ℕ)) (i j : ℕ) (olds news : List Text)
    → (old_side (walk table i j olds news) ≡ numbered i olds)
      × (new_side (walk table i j olds news) ≡ numbered j news)
unfolding walk
sides-walk table i j [] news = sides-adds_from j news
sides-walk table i j (o ∷ olds) [] = sides-removes_from i (o ∷ olds)
sides-walk table i j (o ∷ olds) (n ∷ news) = ground (
  arith,
  sides-walk table (i + 1) (j + 1) olds news,
  sides-walk table (i + 1) j olds (n ∷ news),
  sides-walk table i (j + 1) (o ∷ olds) news,
  eq_iff o n,
)

-- A run of removals shows nothing on the new side, one of additions nothing on the old side.
old_side-removed_run :
    (ops : List DiffOp) → old_side (removed_run ops) ++ old_side (after_removed ops) ≡ old_side ops
old_side-removed_run [] = refl
old_side-removed_run (remove l m ∷ ops) = ap ((l, m) ∷◌) (old_side-removed_run ops)
old_side-removed_run (context l m n ∷ ops) = refl
old_side-removed_run (add l n ∷ ops) = refl

new_side-removed_run :
    (ops : List DiffOp)
    → (new_side (removed_run ops) ≡ []) × (new_side (after_removed ops) ≡ new_side ops)
new_side-removed_run [] = (refl, refl)
new_side-removed_run (remove l m ∷ ops) = new_side-removed_run ops
new_side-removed_run (context l m n ∷ ops) = (refl, refl)
new_side-removed_run (add l n ∷ ops) = (refl, refl)

old_side-added_run :
    (ops : List DiffOp)
    → (old_side (added_run ops) ≡ []) × (old_side (after_added ops) ≡ old_side ops)
old_side-added_run [] = (refl, refl)
old_side-added_run (add l m ∷ ops) = old_side-added_run ops
old_side-added_run (context l m n ∷ ops) = (refl, refl)
old_side-added_run (remove l n ∷ ops) = (refl, refl)

new_side-added_run :
    (ops : List DiffOp) → new_side (added_run ops) ++ new_side (after_added ops) ≡ new_side ops
new_side-added_run [] = refl
new_side-added_run (add l m ∷ ops) = ap ((l, m) ∷◌) (new_side-added_run ops)
new_side-added_run (context l m n ∷ ops) = refl
new_side-added_run (remove l n ∷ ops) = refl

abbrev IsRemove : DiffOp → Type 0
IsRemove (remove l m) = Unit
IsRemove (context l m n) = ⊥
IsRemove (add l n) = ⊥

abbrev IsAdd : DiffOp → Type 0
IsAdd (add l m) = Unit
IsAdd (context l m n) = ⊥
IsAdd (remove l n) = ⊥

removed_run-IsRemove : (ops : List DiffOp) → All IsRemove (removed_run ops)
removed_run-IsRemove [] = tt
removed_run-IsRemove (remove l m ∷ ops) = (tt, removed_run-IsRemove ops)
removed_run-IsRemove (context l m n ∷ ops) = tt
removed_run-IsRemove (add l n ∷ ops) = tt

added_run-IsAdd : (ops : List DiffOp) → All IsAdd (added_run ops)
added_run-IsAdd [] = tt
added_run-IsAdd (add l m ∷ ops) = (tt, added_run-IsAdd ops)
added_run-IsAdd (context l m n ∷ ops) = tt
added_run-IsAdd (remove l n ∷ ops) = tt

new_side-removes : (xs : List DiffOp) → All IsRemove xs → new_side xs ≡ []
new_side-removes [] h = refl
new_side-removes (remove l m ∷ xs) h = new_side-removes xs h.1
new_side-removes (context l m n ∷ xs) h = absurd h.0
new_side-removes (add l n ∷ xs) h = absurd h.0

old_side-adds : (xs : List DiffOp) → All IsAdd xs → old_side xs ≡ []
old_side-adds [] h = refl
old_side-adds (add l m ∷ xs) h = old_side-adds xs h.1
old_side-adds (context l m n ∷ xs) h = absurd h.0
old_side-adds (remove l n ∷ xs) h = absurd h.0

-- Putting removals and additions by turns keeps both sides.
sides-alternate :
    (xs ys : List DiffOp)
    → All IsRemove xs
    → All IsAdd ys
    → (old_side (alternate xs ys) ≡ old_side xs) × (new_side (alternate xs ys) ≡ new_side ys)
sides-alternate [] [] h k = (refl, refl)
sides-alternate [] (add l n ∷ ys) h k = (old_side-adds ys k.1, refl)
sides-alternate [] (context l m n ∷ ys) h k = absurd k.0
sides-alternate [] (remove l n ∷ ys) h k = absurd k.0
sides-alternate (remove l m ∷ xs) [] h k = (refl, new_side-removes xs h.1)
sides-alternate (remove l m ∷ xs) (add l' n ∷ ys) h k =
    let ih = sides-alternate xs ys h.1 k.1 in (ap ((l, m) ∷◌) ih.0, ap ((l', n) ∷◌) ih.1)
sides-alternate (remove l m ∷ xs) (context l' n o ∷ ys) h k = absurd k.0
sides-alternate (remove l m ∷ xs) (remove l' n ∷ ys) h k = absurd k.0
sides-alternate (context l m n ∷ xs) ys h k = absurd h.0
sides-alternate (add l n ∷ xs) ys h k = absurd h.0

sides-replacement :
    (xs ys : List DiffOp)
    → All IsRemove xs
    → All IsAdd ys
    → (old_side (replacement xs ys) ≡ old_side xs) × (new_side (replacement xs ys) ≡ new_side ys)
sides-replacement xs [] h k = (refl, new_side-removes xs h)
sides-replacement xs (y ∷ ys) h k = sides-alternate xs (y ∷ ys) h k

pub length-after :
    (ops : List DiffOp)
    → (length (after_removed ops) ≤ length ops) × (length (after_added ops) ≤ length ops)
length-after [] = (omega arith, omega arith)
length-after (remove l m ∷ ops) = (omega (arith, (length-after ops).0), omega arith)
length-after (add l m ∷ ops) = (omega arith, omega (arith, (length-after ops).1))
length-after (context l m n ∷ ops) = (omega arith, omega arith)

-- With fuel above the number of operations, interleaving keeps both sides.
sides-interleave :
    (fuel : ℕ) (ops : List DiffOp)
    → length ops < fuel
    → (old_side (interleave fuel ops) ≡ old_side ops)
      × (new_side (interleave fuel ops) ≡ new_side ops)
unfolding interleave
sides-interleave zero ops h = elim h [ ]
sides-interleave (suc fuel) [] h = (refl, refl)
sides-interleave (suc fuel) (context l m n ∷ ops) h =
    let ih = sides-interleave fuel ops (omega arith) in (ap ((l, m) ∷◌) ih.0, ap ((l, n) ∷◌) ih.1)
sides-interleave (suc fuel) (add l n ∷ ops) h =
    let ih = sides-interleave fuel ops (omega arith) in (ih.0, ap ((l, n) ∷◌) ih.1)
sides-interleave (suc fuel) (remove l m ∷ ops) h =
    let later = after_removed ops in
    let ih =
      sides-interleave fuel (after_added later)
        (omega (arith, (length-after ops).0, (length-after later).1)) in
    let turns = replacement (removed_run (remove l m ∷ ops)) (added_run later) in
    let turn =
      sides-replacement (removed_run (remove l m ∷ ops)) (added_run later)
        (removed_run-IsRemove (remove l m ∷ ops)) (added_run-IsAdd later) in
    (
      old_side-append turns (interleave fuel (after_added later))
          ∙ ap₂ ◌++◌ turn.0 (ih.0 ∙ (old_side-added_run later).1)
          ∙ old_side-removed_run (remove l m ∷ ops),
      new_side-append turns (interleave fuel (after_added later))
          ∙ ap₂ ◌++◌ turn.1 ih.1
          ∙ new_side-added_run later
          ∙ (new_side-removed_run ops).1,
    )

-- The removals and contexts of a diff are the old file and its additions and contexts the new one,
-- line by line, each with its number counted from 1; for files of any size.
pub build_interleaved_line_diff_sides :
    (olds news : List Text)
    → (old_side (build_interleaved_line_diff olds news) ≡ numbered 0 olds)
      × (new_side (build_interleaved_line_diff olds news) ≡ numbered 0 news)
unfolding build_interleaved_line_diff
build_interleaved_line_diff_sides olds news =
    elim (Bool-cases (ltb max_cells (length olds * length news))) [
      | inl large ↦ rw large (
        old_side-append (removes_from 0 olds) (adds_from 0 news)
            ∙ ap₂ ◌++◌ (sides-removes_from 0 olds).0 (sides-adds_from 0 news).0
            ∙ append-nil _,
        new_side-append (removes_from 0 olds) (adds_from 0 news)
            ∙ ap₂ ◌++◌ (sides-removes_from 0 olds).1 (sides-adds_from 0 news).1,
      )
      | inr small ↦
          let ops = walk (lcs_table olds news) 0 0 olds news in
          let kept = sides-interleave (suc (length ops)) ops (omega arith) in
          let walked = sides-walk (lcs_table olds news) 0 0 olds news in
          rw small (kept.0 ∙ walked.0, kept.1 ∙ walked.1)
    ]
