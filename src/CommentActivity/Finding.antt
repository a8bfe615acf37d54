-- ===== src/CommentActivity/Finding.antt =====
-- ui/src/state/comment-activity.ts: the first entry of a sorted list that passes a test.
use vivi.Base.{
  ℕ, zero, suc, ◌≡◌, refl, sym, inl, inr, Bool, true, false, Option, none, some, List, [], ◌∷◌,
  find?, take, All, arith, Bool-cases, if◌then◌else◌,
}
use mathlib.Core.Path.{subst}
use vivi.Base.Sorting.{IsOrder, IsSorted, insert_by}

-- The first of the entries that pass a test, when one more is added to a sorted list.
abbrev pub earliest {ℓ} : {A : Type ℓ} → (A → A → Bool) → A → Option A → Option A
earliest before e none = some e
earliest before e (some r) = if before e r then some e else some r

module _ {ℓ} {A : Type ℓ} (P : A → Bool) where
  -- What is true of every entry is true of the one that is found.
  pub All-find {κ} : (Q : A → Type κ) (xs : List A) (l : A) → All Q xs → find? P xs ≡ some l → Q l
  All-find Q [] l h e = cc
  All-find Q (x ∷ xs) l h e = elim (Bool-cases (P x)) [
    | inl p ↦ let same : x ≡ l = ground (arith, e, p) in subst Q same h.0
    | inr p ↦ All-find Q xs l h.1 (ground (arith, e, p))
  ]

  pub find-take-none : (n : ℕ) (xs : List A) → find? P xs ≡ none → find? P (take n xs) ≡ none
  find-take-none zero xs e = refl
  find-take-none (suc n) [] e = refl
  find-take-none (suc n) (x ∷ xs) e = elim (Bool-cases (P x)) [
    | inl p ↦ ground (arith, e, p)
    | inr p ↦ rw p (find-take-none n xs (ground (arith, e, p)))
  ]

  module _ (before : A → A → Bool) (o : IsOrder before) where
    earliest-front :
        (e : A) (xs : List A)
        → All (λ x. before e x ≡ true) xs
        → earliest before e (find? P xs) ≡ some e
    earliest-front e [] h = refl
    earliest-front e (x ∷ xs) h = elim (Bool-cases (P x)) [
      | inl p ↦ rw (p, h.0) refl
      | inr p ↦ rw p (earliest-front e xs h.1)
    ]

    before-all :
        (e y : A) (ys : List A)
        → before e y ≡ true
        → All (λ z. before z y ≡ false) ys
        → All (λ z. before e z ≡ true) ys
    before-all e y [] h k = tt
    before-all e y (z ∷ ys) h k = (
      elim (Bool-cases (before e z)) [
        | inl p ↦ p
        | inr p ↦ let later = o.not_before_trans y z e k.0 p in cc
      ],
      before-all e y ys h k.1,
    )

    pub find-insert_by :
        (e : A) (xs : List A)
        → IsSorted before xs
        → find? P (insert_by before e xs)
          ≡ (if P e then earliest before e (find? P xs) else find? P xs)
    unfolding insert_by
    find-insert_by e [] h = refl
    find-insert_by e (y ∷ ys) h = elim (Bool-cases (before e y)) [
      | inl b ↦ elim (Bool-cases (P e)) [
        | inl p ↦ rw (b, p) (sym (earliest-front e (y ∷ ys) (b, before-all e y ys b h.0)))
        | inr p ↦ rw (b, p) refl
      ]
      | inr b ↦ elim (Bool-cases (P y)) [
        | inl p ↦ ground (arith, b, p)
        | inr p ↦ rw (b, p) (find-insert_by e ys h.1)
      ]
    ]
