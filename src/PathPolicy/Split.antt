-- ===== src/PathPolicy/Split.antt =====
-- Splitting at slashes and joining.
use vivi.Base.{
  ℕ, ◌≡◌, ◌≢◌, refl, ap, ◌∙◌, false, List, [], ◌∷◌, ◌++◌, All, arith, inl, inr, Bool-cases, eqb,
}
use vivi.Base.Strings.{Text}
use vivi.PathPolicy.{split_path, join_path, push_unit}

module _ (P : ℕ → Type 0) where
  abbrev pub IsPart : Text → Type 0
  IsPart s = All (λ c. P c × (c ≢ 47)) s

  push_unit-parts :
      (c : ℕ) (ls : List Text) → P c → c ≢ 47 → All IsPart ls → All IsPart (push_unit c ls)
  push_unit-parts c [] p q h = (((p, q), tt), tt)
  push_unit-parts c (l ∷ ls) p q h = (((p, q), h.0), h.1)

  -- What holds of each unit of a text holds in the parts, and no slash is left there.
  pub split_path-parts : (s : Text) → All P s → All IsPart (split_path s)
  unfolding split_path
  split_path-parts [] h = (tt, tt)
  split_path-parts (c ∷ s) h = elim (Bool-cases (eqb c 47)) [
    | inl slash ↦ rw slash (tt, split_path-parts s h.1)
    | inr other ↦
        rw other (push_unit-parts c (split_path s) h.0 (ground arith) (split_path-parts s h.1))
  ]

  split_path-one : (s : Text) → IsPart s → split_path s ≡ s ∷ []
  unfolding split_path
  split_path-one [] h = refl
  split_path-one (c ∷ s) h =
      let other : eqb c 47 ≡ false = ground arith in rw (other, split_path-one s h.1) refl

  split_path-append : (s t : Text) → IsPart s → split_path (s ++ 47 ∷ t) ≡ s ∷ split_path t
  unfolding split_path
  split_path-append [] t h = refl
  split_path-append (c ∷ s) t h =
      let other : eqb c 47 ≡ false = ground arith in rw (other, split_path-append s t h.1) refl

  pub split_path-join_path :
      (s : Text) (ss : List Text) → All IsPart (s ∷ ss) → split_path (join_path (s ∷ ss)) ≡ s ∷ ss
  unfolding join_path
  split_path-join_path s [] h = split_path-one s h.0
  split_path-join_path s (t ∷ ts) h =
      split_path-append s (join_path (t ∷ ts)) h.0 ∙ ap (λ l. s ∷ l) (split_path-join_path t ts h.1)
