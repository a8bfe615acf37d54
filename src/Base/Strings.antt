-- ===== src/Base/Strings.antt =====
-- JavaScript strings: sequences of UTF-16 code units, with `===`, `<`, `split` and `join`.
use Prim.Native.Nat.{ℕ}
use Prim.Native.Char.{code}
use Prim.Native.String.{String}
use mathlib.Core.Path.{◌≡◌, refl}
use mathlib.Core.Logic.{◌↔◌}
use mathlib.Core.Bool.{Bool, true, false, ◌&&◌, ◌||◌, not}
use mathlib.Core.Option.{Option, none, some}
use mathlib.Core.List.{List, [], ◌∷◌, ◌++◌}
use native.Mathlib.Omega.{arith}
use vivi.Base.Tests.{eqb, leb, ltb, if◌then◌else◌}

abbrev pub Text : Type 0
Text = List ℕ

-- A literal: its code points are its code units, for texts of the basic plane.
abbrev pub codes : String → Text
codes String.[] = []
codes (String.◌∷◌ c s) = code c ∷ codes s

-- `===` on strings.
infix 50 ◌==◌
unfoldable pub ◌==◌ : Text → Text → Bool
[] == [] = true
[] == (b ∷ t) = false
(a ∷ s) == [] = false
(a ∷ s) == (b ∷ t) = eqb a b && (s == t)

pub eq_iff : (s t : Text) → ((s == t) ≡ true) ↔ (s ≡ t)
unfolding ◌==◌
eq_iff [] [] = ground arith
eq_iff [] (b ∷ t) = ground arith
eq_iff (a ∷ s) [] = ground arith
eq_iff (a ∷ s) (b ∷ t) = ground (arith, eq_iff s t)

pub eq_self : (s : Text) → (s == s) ≡ true
eq_self s = (eq_iff s s).1 refl

-- `!s` is true of the empty string alone.
abbrev pub is_empty : Text → Bool
is_empty [] = true
is_empty (c ∷ s) = false

-- The truth value of an optional string.
abbrev pub truthy : Option Text → Bool
truthy none = false
truthy (some s) = not (is_empty s)

-- `a === b` where either may be null.
abbrev pub same_option : Option Text → Option Text → Bool
same_option none none = true
same_option none (some t) = false
same_option (some s) none = false
same_option (some s) (some t) = s == t

-- `paths.includes(p)` and `set.has(p)`.
abbrev pub contains : List Text → Text → Bool
contains [] p = false
contains (q ∷ qs) p = (q == p) || contains qs p

-- `set.add(p)`: a set keeps the order of first insertion.
abbrev pub add : List Text → Text → List Text
add qs p = if contains qs p then qs else qs ++ p ∷ []

-- `a < b` on strings compares code units.
unfoldable pub text_lt : Text → Text → Bool
text_lt [] [] = false
text_lt [] (b ∷ t) = true
text_lt (a ∷ s) [] = false
text_lt (a ∷ s) (b ∷ t) = ltb a b || (eqb a b && text_lt s t)

-- The code units that `trim` and `\s` take for white space.
unfoldable pub is_space : ℕ → Bool
is_space c =
    (leb 9 c && leb c 13)
    || eqb c 32
    || eqb c 160
    || eqb c 0x1680
    || (leb 0x2000 c && leb c 0x200a)
    || eqb c 0x2028
    || eqb c 0x2029
    || eqb c 0x202f
    || eqb c 0x205f
    || eqb c 0x3000
    || eqb c 0xfeff

abbrev pub trim_start : Text → Text
trim_start [] = []
trim_start (c ∷ s) = if is_space c then trim_start s else c ∷ s

-- A text without the white space at its end: a space is kept only before what is kept.
abbrev pub trim_end : Text → Text
trim_end [] = []
trim_end (c ∷ s) = let rest = trim_end s in if is_space c && is_empty rest then [] else c ∷ rest

unfoldable pub trim : Text → Text
unfolding is_space
trim s = trim_end (trim_start s)

-- `s.startsWith(p)`
abbrev pub starts_with : Text → Text → Bool
starts_with s [] = true
starts_with [] (b ∷ p) = false
starts_with (a ∷ s) (b ∷ p) = eqb a b && starts_with s p
