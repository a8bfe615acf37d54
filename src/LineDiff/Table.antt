-- ===== src/LineDiff/Table.antt =====
-- The table of the line diff holds the lengths of the longest common subsequences.
use vivi.Base.{
  ℕ, zero, suc, ◌+◌, ◌*◌, ◌%◌, ◌≤◌, ◌<◌, ◌≡◌, refl, ◌∙◌, ◌⊎◌, inl, inr, List, [], ◌∷◌, Text, length,
  drop, get_elem?, arith,
}
use vivi.LineDiff.{
  uint16_mod, max_cells, head_or_zero, rest, table_row, zero_row, first_row, lcs_table, or_zero,
  cell,
}
use native.Mathlib.Decide.{dec_lt}
use native.Mathlib.Nat.{mul-le-mul}
use vivi.LineDiff.Common.{lcs, lcs-le-length}

-- One file is short enough for its lengths to fit in 16 bits.
abbrev Fits : ℕ → ℕ → Type 0
Fits m n = (m < uint16_mod) ⊎ (n < uint16_mod)

-- The guard on the number of cells leaves a file that is short enough.
pub Fits-of_cells : (m n : ℕ) → m * n ≤ max_cells → Fits m n
Fits-of_cells m n h = elim (dec_lt m uint16_mod) [
  | yes p ↦ inl p
  | no p ↦ elim (dec_lt n uint16_mod) [
    | yes q ↦ inr q
    | no q ↦
        let long : uint16_mod ≤ m = omega arith in
        let wide : uint16_mod ≤ n = omega arith in absurd (omega (arith, mul-le-mul long wide))
  ]
]

rest_get : (r : List ℕ) (j : ℕ) → get_elem? (rest r) j ≡ get_elem? r (suc j)
rest_get [] j = refl
rest_get (n ∷ r) j = refl

head_get : (r : List ℕ) → head_or_zero r ≡ or_zero (get_elem? r 0)
head_get [] = refl
head_get (n ∷ r) = refl

Fits-suc :
    (o : Text) (olds ns : List Text) (n : Text)
    → Fits (length (o ∷ olds)) (length (n ∷ ns))
    → (lcs olds ns + 1) % uint16_mod ≡ suc (lcs olds ns)
Fits-suc o olds ns n h = ground (arith, lcs-le-length olds ns)

table_row-lcs :
    (o : Text) (olds news : List Text) (below : List ℕ)
    → Fits (length (o ∷ olds)) (length news)
    → ((j : ℕ) → or_zero (get_elem? below j) ≡ lcs olds (drop j news))
    → (j : ℕ) → or_zero (get_elem? (table_row o news below) j) ≡ lcs (o ∷ olds) (drop j news)
unfolding table_row lcs
table_row-lcs o olds [] below f h zero = refl
table_row-lcs o olds [] below f h (suc j) = refl
table_row-lcs o olds (n ∷ ns) below f h zero = ground (
  arith,
  Fits-suc o olds ns n f,
  head_get (rest below),
  head_get below,
  rest_get below 0,
  h 0,
  h 1,
  head_get (table_row o ns (rest below)),
  table_row-lcs o olds ns (rest below) (ground arith) (λ j. rw rest_get (h (suc j))) 0,
)
table_row-lcs o olds (n ∷ ns) below f h (suc j) =
    table_row-lcs o olds ns (rest below) (ground arith) (λ k. rw rest_get (h (suc k))) j

zero_row-get : (news : List Text) (j : ℕ) → or_zero (get_elem? (zero_row news) j) ≡ 0
zero_row-get [] zero = refl
zero_row-get [] (suc j) = refl
zero_row-get (n ∷ news) zero = refl
zero_row-get (n ∷ news) (suc j) = zero_row-get news j

first_row-get :
    (olds news : List Text) (j : ℕ)
    → or_zero (get_elem? (first_row news (lcs_table olds news)) j) ≡ cell (lcs_table olds news) 0 j
unfolding lcs_table
first_row-get [] news j = refl
first_row-get (o ∷ olds) news j = refl

-- Every cell holds the length for the lines from its position on, and no value wrapped.
pub cell-lcs_table :
    (olds news : List Text)
    → Fits (length olds) (length news)
    → (i j : ℕ) → cell (lcs_table olds news) i j ≡ lcs (drop i olds) (drop j news)
unfolding lcs_table lcs
cell-lcs_table [] news f zero j = zero_row-get news j
cell-lcs_table [] news f (suc zero) j = refl
cell-lcs_table [] news f (suc (suc i)) j = refl
cell-lcs_table (o ∷ olds) news f zero j =
    table_row-lcs o olds news (first_row news (lcs_table olds news)) f
      (λ k. first_row-get olds news k ∙ cell-lcs_table olds news (ground arith) 0 k) j
cell-lcs_table (o ∷ olds) news f (suc i) j = cell-lcs_table olds news (ground arith) i j
