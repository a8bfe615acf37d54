-- ===== src/Base/Decimal.antt =====
-- `String(n)` of a natural number, and why it names numbers apart.
use Prim.Native.Nat.{ℕ, zero, suc, ◌+◌, ◌-◌, ◌*◌, ◌/◌, ◌%◌, ◌<◌}
use mathlib.Core.Path.{◌≡◌, ap, sym, ◌∙◌}
use mathlib.Core.Logic.{◌≢◌}
use mathlib.Core.List.{[], ◌∷◌, ◌++◌, reverse, reverse-reverse, reverse-cons}
use Prim.Native.Nat.{◌≤◌}
use mathlib.Core.Path.{subst}
use native.Mathlib.Omega.{arith}
use vivi.Base.Lists.{All}
use vivi.Base.Tests.{ltb, if◌then◌else◌}
use vivi.Base.Strings.{Text}

-- The digits, the last one first, for a number below the fuel.
digits : ℕ → ℕ → Text
digits zero n = []
digits (suc fuel) n =
    let rest = digits fuel (n / 10) in (48 + n % 10) ∷ (if ltb n 10 then [] else rest)

unfoldable pub show : ℕ → Text
unfolding digits
show n = reverse (digits (suc n) n)

value : Text → ℕ
value [] = 0
value (c ∷ cs) = (c - 48) + 10 * value cs

value-digits : (fuel n : ℕ) → n < fuel → value (digits fuel n) ≡ n
unfolding value digits
value-digits zero n h = elim h [ ]
value-digits (suc fuel) n h = ground (arith, value-digits fuel (n / 10))

pub show-injective : (m n : ℕ) → show m ≡ show n → m ≡ n
unfolding show
show-injective m n h =
    let same : digits (suc m) m ≡ digits (suc n) n =
      sym (reverse-reverse _) ∙ ap reverse h ∙ reverse-reverse _ in
    sym (value-digits (suc m) m (omega arith))
    ∙ ap value same
    ∙ value-digits (suc n) n (omega arith)

abbrev pub IsDigit : ℕ → Type 0
IsDigit c = (48 ≤ c) × (c ≤ 57)

All-snoc : (s : Text) (c : ℕ) → All IsDigit s → IsDigit c → All IsDigit (s ++ c ∷ [])
All-snoc [] c h p = (p, tt)
All-snoc (d ∷ s) c h p = (h.0, All-snoc s c h.1 p)

All-reverse : (s : Text) → All IsDigit s → All IsDigit (reverse s)
All-reverse [] h = h
All-reverse (c ∷ s) h =
    subst (All IsDigit) (sym (reverse-cons c s)) (All-snoc (reverse s) c (All-reverse s h.1) h.0)

digits-IsDigit : (fuel n : ℕ) → All IsDigit (digits fuel n)
unfolding digits
digits-IsDigit zero n = tt
digits-IsDigit (suc fuel) n = ground (arith, digits-IsDigit fuel (n / 10))

-- Every unit of a printed number is a digit, and there is one.
pub show-IsDigit : (n : ℕ) → All IsDigit (show n)
unfolding show
show-IsDigit n = All-reverse (digits (suc n) n) (digits-IsDigit (suc n) n)

pub show-ne-nil : (n : ℕ) → show n ≢ []
unfolding show digits
show-ne-nil n h =
    let same : digits (suc n) n ≡ [] = sym (reverse-reverse _) ∙ ap reverse h in ground arith
