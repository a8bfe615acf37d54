-- ===== src/Base/Lines.antt =====
-- Lines of a text: `split(/\r?\n/)` and `join("\n")`.
use Prim.Native.Nat.{ℕ}
use mathlib.Core.Path.{◌≡◌, refl, ap, ◌∙◌}
use mathlib.Core.Bool.{Bool, false, ◌&&◌}
use mathlib.Core.Logic.{◌≢◌}
use mathlib.Core.List.{List, [], ◌∷◌, ◌++◌}
use native.Mathlib.Omega.{arith}
use vivi.Base.Tests.{eqb, if◌then◌else◌}
use vivi.Base.Lists.{All}
use vivi.Base.Strings.{Text}

abbrev pub lf : ℕ
lf = 10

abbrev pub cr : ℕ
cr = 13

abbrev starts_lf : Text → Bool
starts_lf [] = false
starts_lf (c ∷ s) = eqb c lf

-- One more code unit at the head of the first line.
abbrev pub push : ℕ → List Text → List Text
push c [] = (c ∷ []) ∷ []
push c (l ∷ ls) = (c ∷ l) ∷ ls

-- A CR before an LF belongs to the line break; the LF then ends the line.
unfoldable pub split_lines : Text → List Text
split_lines [] = [] ∷ []
split_lines (c ∷ s) =
    let rest = split_lines s in
    if eqb c lf then [] ∷ rest else if eqb c cr && starts_lf s then rest else push c rest

unfoldable pub join_lines : List Text → Text
join_lines [] = []
join_lines (l ∷ []) = l
join_lines (l ∷ m ∷ ls) = l ++ (lf ∷ join_lines (m ∷ ls))

-- A line has no LF, and no CR at its end.
abbrev pub IsLine : Text → Type 0
IsLine [] = Unit {0}
IsLine (c ∷ []) = (c ≢ lf) × (c ≢ cr)
IsLine (c ∷ d ∷ s) = (c ≢ lf) × IsLine (d ∷ s)

split-line : (l : Text) → IsLine l → split_lines l ≡ l ∷ []
unfolding split_lines
split-line [] h = refl
split-line (c ∷ []) h = ground arith
split-line (c ∷ d ∷ s) h = ground (arith, split-line (d ∷ s) h.1, lf_free d s h.1)
  where
    lf_free : (d : ℕ) (s : Text) → IsLine (d ∷ s) → d ≢ lf
    lf_free d [] h = h.0
    lf_free d (e ∷ s) h = h.0

split-line-append : (l s : Text) → IsLine l → split_lines (l ++ (lf ∷ s)) ≡ l ∷ split_lines s
unfolding split_lines
split-line-append [] s h = ground arith
split-line-append (c ∷ []) s h = ground arith
split-line-append (c ∷ d ∷ l) s h = ground (arith, split-line-append (d ∷ l) s h.1, lf_free d l h.1)
  where
    lf_free : (d : ℕ) (s : Text) → IsLine (d ∷ s) → d ≢ lf
    lf_free d [] h = h.0
    lf_free d (e ∷ s) h = h.0

-- Lines that are joined and split again are the same lines.
pub split-join :
    (l : Text) (ls : List Text) → All IsLine (l ∷ ls) → split_lines (join_lines (l ∷ ls)) ≡ l ∷ ls
unfolding join_lines
split-join l [] h = split-line l h.0
split-join l (m ∷ ls) h =
    split-line-append l (join_lines (m ∷ ls)) h.0 ∙ ap (l ∷◌) (split-join m ls h.1)
