-- ===== src/Base/Sorting.antt =====
-- `sort` by a comparison: stable, so that an entry stands after those that it is not before.
use Prim.Native.Nat.{ℕ, zero, suc}
use mathlib.Core.Path.{◌≡◌, refl, sym, ap, ◌∙◌}
use mathlib.Core.Bool.{Bool, true, false}
use mathlib.Core.Logic.{inl, inr}
use mathlib.Core.List.{List, [], ◌∷◌, ◌++◌}
use vivi.Base.Tests.{if◌then◌else◌, Bool-cases}
use vivi.Base.Laws.{All-take}
use vivi.Base.Lists.{All, take}

-- That a comparison is negative is a strict weak order.
pub record IsOrder {ℓ} {A : Type ℓ} (before : A → A → Bool) : Type ℓ where
  pub asym : (x y : A) → before x y ≡ true → before y x ≡ false
  pub not_before_trans : (x y z : A) → before y x ≡ false → before z y ≡ false → before z x ≡ false

module _ {ℓ} {A : Type ℓ} (before : A → A → Bool) where
  unfoldable pub insert_by : A → List A → List A
  insert_by x [] = x ∷ []
  insert_by x (y ∷ ys) = if before x y then x ∷ y ∷ ys else y ∷ insert_by x ys

  -- The entries are inserted one after the other.
  abbrev pub insert_all : List A → List A → List A
  insert_all ys [] = ys
  insert_all ys (x ∷ xs) = insert_all (insert_by x ys) xs

  unfoldable pub sort_by : List A → List A
  unfolding insert_by
  sort_by xs = insert_all [] xs

  -- No entry is before one that stands in front of it.
  abbrev pub IsSorted : List A → Type 0
  IsSorted [] = Unit
  IsSorted (x ∷ xs) = All (λ y. before y x ≡ false) xs × IsSorted xs

  abbrev NotBefore : A → List A → Type 0
  NotBefore x ys = All (λ y. before y x ≡ false) ys

  NotBefore-insert_by :
      (a x : A) (ys : List A) → before x a ≡ false → NotBefore a ys → NotBefore a (insert_by x ys)
  unfolding insert_by
  NotBefore-insert_by a x [] h k = (h, tt)
  NotBefore-insert_by a x (y ∷ ys) h k = elim (Bool-cases (before x y)) [
    | inl e ↦ rw e (h, k)
    | inr e ↦ rw e (k.0, NotBefore-insert_by a x ys h k.1)
  ]

  module _ (o : IsOrder before) where
    NotBefore-weaken :
        (x y : A) (ys : List A) → before y x ≡ false → NotBefore y ys → NotBefore x ys
    NotBefore-weaken x y [] h k = tt
    NotBefore-weaken x y (z ∷ ys) h k =
        (o.not_before_trans x y z h k.0, NotBefore-weaken x y ys h k.1)

    pub insert_by-IsSorted : (x : A) (ys : List A) → IsSorted ys → IsSorted (insert_by x ys)
    unfolding insert_by
    insert_by-IsSorted x [] h = (tt, tt)
    insert_by-IsSorted x (y ∷ ys) h = elim (Bool-cases (before x y)) [
      | inl e ↦ rw e ((o.asym x y e, NotBefore-weaken x y ys (o.asym x y e) h.0), h)
      | inr e ↦ rw e (NotBefore-insert_by y x ys e h.0, insert_by-IsSorted x ys h.1)
    ]

    insert_all-IsSorted : (ys xs : List A) → IsSorted ys → IsSorted (insert_all ys xs)
    insert_all-IsSorted ys [] h = h
    insert_all-IsSorted ys (x ∷ xs) h =
        insert_all-IsSorted (insert_by x ys) xs (insert_by-IsSorted x ys h)

    pub sort_by-IsSorted : (xs : List A) → IsSorted (sort_by xs)
    unfolding sort_by
    sort_by-IsSorted xs = insert_all-IsSorted [] xs tt

  insert_all-append :
      (ys xs zs : List A) → insert_all ys (xs ++ zs) ≡ insert_all (insert_all ys xs) zs
  insert_all-append ys [] zs = refl
  insert_all-append ys (x ∷ xs) zs = insert_all-append (insert_by x ys) xs zs

  pub sort_by-append : (xs : List A) (x : A) → sort_by (xs ++ x ∷ []) ≡ insert_by x (sort_by xs)
  unfolding sort_by
  sort_by-append xs x = insert_all-append [] xs (x ∷ [])

  -- An entry goes to the end of what it is not before.
  insert_by-end :
      (x : A) (ys : List A) → All (λ y. before x y ≡ false) ys → insert_by x ys ≡ ys ++ x ∷ []
  unfolding insert_by
  insert_by-end x [] h = refl
  insert_by-end x (y ∷ ys) h = rw h.0 (ap (y ∷◌) (insert_by-end x ys h.1))

  -- What is inserted first stays in front when nothing later is before it.
  insert_all-front :
      (x : A) (ys xs : List A) → NotBefore x xs → insert_all (x ∷ ys) xs ≡ x ∷ insert_all ys xs
  unfolding insert_by
  insert_all-front x ys [] h = refl
  insert_all-front x ys (z ∷ xs) h = rw h.0 (insert_all-front x (insert_by z ys) xs h.1)

  -- A sorted list is its own sorting.
  pub sort_by-sorted : (xs : List A) → IsSorted xs → sort_by xs ≡ xs
  unfolding sort_by insert_by
  sort_by-sorted [] h = refl
  sort_by-sorted (x ∷ xs) h = insert_all-front x [] xs h.0 ∙ ap (x ∷◌) (sort_by-sorted xs h.1)

  take-insert_by :
      (n : ℕ) (x : A) (ys : List A) → take n (insert_by x (take n ys)) ≡ take n (insert_by x ys)
  unfolding insert_by
  take-insert_by zero x ys = refl
  take-insert_by (suc n) x [] = refl
  take-insert_by (suc n) x (y ∷ ys) = elim (Bool-cases (before x y)) [
    | inl e ↦ rw e (ap (x ∷◌) (take-shift n y ys))
    | inr e ↦ rw e (ap (y ∷◌) (take-insert_by n x ys))
  ]
    where
      take-shift : (n : ℕ) (y : A) (ys : List A) → take n (y ∷ take n ys) ≡ take n (y ∷ ys)
      take-shift zero y ys = refl
      take-shift (suc n) y [] = refl
      take-shift (suc n) y (z ∷ zs) = ap (y ∷◌) (take-shift n z zs)

  pub IsSorted-take : (n : ℕ) (xs : List A) → IsSorted xs → IsSorted (take n xs)
  IsSorted-take zero xs h = tt
  IsSorted-take (suc n) [] h = tt
  IsSorted-take (suc n) (x ∷ xs) h =
      (All-take (λ y. before y x ≡ false) n xs h.0, IsSorted-take n xs h.1)

  -- One more entry among the first `n` of a sorting: push, sort, truncate.
  pub take-sort_by :
      IsOrder before
      → (n : ℕ) (xs : List A) (x : A)
      → take n (sort_by (take n (sort_by xs) ++ x ∷ [])) ≡ take n (sort_by (xs ++ x ∷ []))
  take-sort_by o n xs x =
      ap (take n) (
        sort_by-append (take n (sort_by xs)) x
        ∙ ap (insert_by x) (
            sort_by-sorted (take n (sort_by xs))
              (IsSorted-take n (sort_by xs) (sort_by-IsSorted o xs))))
      ∙ take-insert_by n x (sort_by xs)
      ∙ ap (take n) (sym (sort_by-append xs x))
