-- ===== src/Base/Order.antt =====
-- `<` on strings is a total order.
use mathlib.Core.Path.{◌≡◌, refl}
use mathlib.Core.Bool.{true, false}
use mathlib.Core.List.{[], ◌∷◌}
use native.Mathlib.Omega.{arith}
use vivi.Base.Strings.{Text, text_lt}

pub text_lt_asym : (a b : Text) → text_lt a b ≡ true → text_lt b a ≡ false
unfolding text_lt
text_lt_asym [] [] h = refl
text_lt_asym [] (y ∷ b) h = refl
text_lt_asym (x ∷ a) [] h = cc
text_lt_asym (x ∷ a) (y ∷ b) h = ground (arith, text_lt_asym a b)

pub text_lt_self : (a : Text) → text_lt a a ≡ false
unfolding text_lt
text_lt_self [] = refl
text_lt_self (x ∷ a) = ground (arith, text_lt_self a)

-- If `b` is not after `a` and `c` is not after `b`, then `c` is not after `a`.
pub not_lt_trans : (a b c : Text) → text_lt a b ≡ false → text_lt b c ≡ false → text_lt a c ≡ false
unfolding text_lt
not_lt_trans [] [] c h k = k
not_lt_trans [] (y ∷ b) c h k = cc
not_lt_trans (x ∷ a) [] [] h k = refl
not_lt_trans (x ∷ a) [] (z ∷ c) h k = cc
not_lt_trans (x ∷ a) (y ∷ b) [] h k = refl
not_lt_trans (x ∷ a) (y ∷ b) (z ∷ c) h k = ground (arith, not_lt_trans a b c)
