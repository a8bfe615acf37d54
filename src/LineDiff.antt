-- ===== src/LineDiff.antt =====
-- The line diff of server/typescript/domain/change-review.ts. The table of common lengths, one
-- Uint16Array there, is a list of its rows; a stored value wraps at 2^16. A position that is out
-- of the table, which the walk never reads, gives 0.
pub mod Common
pub mod Sides
pub mod Table
pub mod Longest
mod Tests
use vivi.Base.{
  ℕ, zero, suc, ◌+◌, ◌*◌, ◌%◌, Bool, true, false, Option, none, some, List, [], ◌∷◌, ◌++◌, map, max,
  Text, ◌==◌, ltb, leb, length, get_elem?, if◌then◌else◌,
}

pub data DiffOp : Type 0 where
  context : Text → ℕ → ℕ → DiffOp
  remove : Text → ℕ → DiffOp
  add : Text → ℕ → DiffOp

abbrev pub uint16_mod : ℕ
uint16_mod = 65536

abbrev pub max_cells : ℕ
max_cells = 2_000_000

abbrev pub head_or_zero : List ℕ → ℕ
head_or_zero [] = 0
head_or_zero (n ∷ ns) = n

abbrev pub rest : List ℕ → List ℕ
rest [] = []
rest (n ∷ ns) = ns

-- A row of the table, from the row below it.
unfoldable pub table_row : Text → List Text → List ℕ → List ℕ
table_row o [] below = 0 ∷ []
table_row o (n ∷ ns) below =
    let right = table_row o ns (rest below) in
    (if o == n
      then (head_or_zero (rest below) + 1) % uint16_mod
      else max (head_or_zero below) (head_or_zero right))
    ∷ right

-- The lowest row holds zeros only.
abbrev pub zero_row : List Text → List ℕ
zero_row [] = 0 ∷ []
zero_row (n ∷ ns) = 0 ∷ zero_row ns

abbrev pub first_row : List Text → List (List ℕ) → List ℕ
first_row news [] = zero_row news
first_row news (r ∷ rs) = r

unfoldable pub lcs_table : List Text → List Text → List (List ℕ)
unfolding table_row
lcs_table [] news = zero_row news ∷ []
lcs_table (o ∷ olds) news =
    let below = lcs_table olds news in table_row o news (first_row news below) ∷ below

abbrev pub or_zero : Option ℕ → ℕ
or_zero none = 0
or_zero (some n) = n

abbrev pub in_row : Option (List ℕ) → ℕ → ℕ
in_row none j = 0
in_row (some r) j = or_zero (get_elem? r j)

-- `table[i * columns + j]`
abbrev pub cell : List (List ℕ) → ℕ → ℕ → ℕ
cell table i j = in_row (get_elem? table i) j

pub removes_from : ℕ → List Text → List DiffOp
removes_from i [] = []
removes_from i (o ∷ olds) = remove o (i + 1) ∷ removes_from (i + 1) olds

pub adds_from : ℕ → List Text → List DiffOp
adds_from j [] = []
adds_from j (n ∷ news) = add n (j + 1) ∷ adds_from (j + 1) news

-- The three loops of the walk, from position `i` of the old lines and `j` of the new ones.
unfoldable pub walk : List (List ℕ) → ℕ → ℕ → List Text → List Text → List DiffOp
unfolding adds_from removes_from
walk table i j [] news = adds_from j news
walk table i j (o ∷ olds) [] = removes_from i (o ∷ olds)
walk table i j (o ∷ olds) (n ∷ news) = elim (o == n) [
  | true ↦ context o (i + 1) (j + 1) ∷ walk table (i + 1) (j + 1) olds news
  | false ↦ elim (leb (cell table i (j + 1)) (cell table (i + 1) j)) [
    | true ↦ remove o (i + 1) ∷ walk table (i + 1) j olds (n ∷ news)
    | false ↦ add n (j + 1) ∷ walk table i (j + 1) (o ∷ olds) news
  ]
]

-- The run of removals, or of additions, at the head, and what follows it.
abbrev pub removed_run : List DiffOp → List DiffOp
removed_run [] = []
removed_run (remove l n ∷ ops) = remove l n ∷ removed_run ops
removed_run (context l m n ∷ ops) = []
removed_run (add l n ∷ ops) = []

abbrev pub after_removed : List DiffOp → List DiffOp
after_removed [] = []
after_removed (remove l n ∷ ops) = after_removed ops
after_removed (context l m n ∷ ops) = context l m n ∷ ops
after_removed (add l n ∷ ops) = add l n ∷ ops

abbrev pub added_run : List DiffOp → List DiffOp
added_run [] = []
added_run (add l n ∷ ops) = add l n ∷ added_run ops
added_run (context l m n ∷ ops) = []
added_run (remove l n ∷ ops) = []

abbrev pub after_added : List DiffOp → List DiffOp
after_added [] = []
after_added (add l n ∷ ops) = after_added ops
after_added (context l m n ∷ ops) = context l m n ∷ ops
after_added (remove l n ∷ ops) = remove l n ∷ ops

-- The loop over `pairIndex`: by turns one of each, then what is left over.
abbrev pub alternate : List DiffOp → List DiffOp → List DiffOp
alternate [] ys = ys
alternate (x ∷ xs) [] = x ∷ xs
alternate (x ∷ xs) (y ∷ ys) = x ∷ y ∷ alternate xs ys

-- With no addition behind the removals they stand as they are, which `alternate` gives too.
abbrev pub replacement : List DiffOp → List DiffOp → List DiffOp
replacement removed [] = removed
replacement removed (y ∷ ys) = alternate removed (y ∷ ys)

-- The loop over `index`, on fuel.
unfoldable pub interleave : ℕ → List DiffOp → List DiffOp
interleave zero ops = []
interleave (suc fuel) [] = []
interleave (suc fuel) (context l m n ∷ ops) = context l m n ∷ interleave fuel ops
interleave (suc fuel) (add l n ∷ ops) = add l n ∷ interleave fuel ops
interleave (suc fuel) (remove l n ∷ ops) =
    replacement (removed_run (remove l n ∷ ops)) (added_run (after_removed ops))
    ++ interleave fuel (after_added (after_removed ops))

unfoldable pub interleave_replacement_runs : List DiffOp → List DiffOp
unfolding interleave
interleave_replacement_runs ops = interleave (suc (length ops)) ops

unfoldable pub build_interleaved_line_diff : List Text → List Text → List DiffOp
unfolding walk lcs_table interleave_replacement_runs removes_from adds_from
build_interleaved_line_diff olds news =
    if ltb max_cells (length olds * length news)
    then removes_from 0 olds ++ adds_from 0 news
    else interleave_replacement_runs (walk (lcs_table olds news) 0 0 olds news)
