-- ===== src/LineDiff/Common.antt =====
-- Common subsequences of two files, and the length of the longest by its recursion.
use vivi.Base.{
  ℕ, suc, ◌≤◌, ◌≡◌, refl, true, false, List, [], ◌∷◌, Text, ◌==◌, eq_iff, max, length, arith,
}

-- `zs` is found in `xs` and in `ys`, in its order.
pub data Common : List Text → List Text → List Text → Type 0 where
  done : {xs ys : List Text} → Common [] xs ys
  both :
      {z x y : Text} {zs xs ys : List Text}
      → z ≡ x
      → z ≡ y
      → Common zs xs ys
      → Common (z ∷ zs) (x ∷ xs) (y ∷ ys)
  skip_old : {x : Text} {zs xs ys : List Text} → Common zs xs ys → Common zs (x ∷ xs) ys
  skip_new : {y : Text} {zs xs ys : List Text} → Common zs xs ys → Common zs xs (y ∷ ys)

unfoldable pub lcs : List Text → List Text → ℕ
lcs [] ys = 0
lcs (x ∷ xs) [] = 0
lcs (x ∷ xs) (y ∷ ys) = elim (x == y) [
  | true ↦ suc (lcs xs ys)
  | false ↦ max (lcs xs (y ∷ ys)) (lcs (x ∷ xs) ys)
]

pub lcs-nil : (xs : List Text) → lcs xs [] ≡ 0
unfolding lcs
lcs-nil [] = refl
lcs-nil (x ∷ xs) = refl

-- One more line on a side adds at most one.
lcs_bounds :
    (xs ys : List Text)
    → ((x : Text) → (lcs xs ys ≤ lcs (x ∷ xs) ys) × (lcs (x ∷ xs) ys ≤ suc (lcs xs ys)))
      × ((y : Text) → (lcs xs ys ≤ lcs xs (y ∷ ys)) × (lcs xs (y ∷ ys) ≤ suc (lcs xs ys)))
unfolding lcs
lcs_bounds [] [] = (λ x. ground arith, λ y. ground arith)
lcs_bounds [] (y ∷ ys) = (λ x. ground (arith, (lcs_bounds [] ys).0 x), λ y'. ground arith)
lcs_bounds (x ∷ xs) [] =
    (λ x'. ground arith, λ y. ground (arith, (lcs_bounds xs []).1 y, lcs-nil xs))
lcs_bounds (x ∷ xs) (y ∷ ys) = (
  λ x'. ground (arith, (lcs_bounds (x ∷ xs) ys).1 y, (lcs_bounds (x ∷ xs) ys).0 x'),
  λ y'. ground (arith, (lcs_bounds xs (y ∷ ys)).0 x, (lcs_bounds xs (y ∷ ys)).1 y'),
)

-- No common subsequence is longer.
pub Common-length-le-lcs : {zs xs ys : List Text} → Common zs xs ys → length zs ≤ lcs xs ys
unfolding lcs
Common-length-le-lcs done = omega arith
Common-length-le-lcs (both {z} {x} {y} {xs} {ys} p q c) =
    ground (arith, Common-length-le-lcs c, p, q, eq_iff x y)
Common-length-le-lcs (skip_old {x} {xs} {ys} c) =
    omega (arith, Common-length-le-lcs c, ((lcs_bounds xs ys).0 x).0)
Common-length-le-lcs (skip_new {y} {xs} {ys} c) =
    omega (arith, Common-length-le-lcs c, ((lcs_bounds xs ys).1 y).0)

pub lcs-le-length : (xs ys : List Text) → (lcs xs ys ≤ length xs) × (lcs xs ys ≤ length ys)
unfolding lcs
lcs-le-length [] ys = (omega arith, omega arith)
lcs-le-length (x ∷ xs) [] = (omega arith, omega arith)
lcs-le-length (x ∷ xs) (y ∷ ys) =
    ground (arith, lcs-le-length xs ys, lcs-le-length xs (y ∷ ys), lcs-le-length (x ∷ xs) ys)
