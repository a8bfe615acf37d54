-- ===== src/Base/Laws.antt =====
-- Laws of the list operations.
use vivi.Base.Tests.{if◌then◌else◌, or_option, Bool-cases}
use vivi.Base.Lists.{
  All, length, filter, find?, count, find_index?, get_elem?, last, set, take, drop,
}
use Prim.Native.Nat.{ℕ, zero, suc, ◌+◌, ◌≤◌}
use mathlib.Core.Path.{◌≡◌, refl, ap, ◌∙◌}
use mathlib.Core.Bool.{Bool, true, false, not}
use mathlib.Core.Logic.{inl, inr}
use mathlib.Core.Option
use mathlib.Core.Option.{Option, none, some}
use mathlib.Core.List.{List, [], ◌∷◌, ◌++◌, map}
use native.Mathlib.Omega.{arith}

module _ {ℓ} {A : Type ℓ} where
  pub All-take {κ} : (P : A → Type κ) (n : ℕ) (xs : List A) → All P xs → All P (take n xs)
  All-take P zero xs h = tt
  All-take P (suc n) [] h = tt
  All-take P (suc n) (x ∷ xs) h = (h.0, All-take P n xs h.1)

  pub count-append : (p : A → Bool) (xs ys : List A) → count p (xs ++ ys) ≡ count p xs + count p ys
  count-append p [] ys = omega arith
  count-append p (x ∷ xs) ys = omega (arith, count-append p xs ys)

  pub length-append : (xs ys : List A) → length (xs ++ ys) ≡ length xs + length ys
  length-append [] ys = omega arith
  length-append (x ∷ xs) ys = omega (arith, length-append xs ys)

  pub filter-append :
      (p : A → Bool) (xs ys : List A) → filter p (xs ++ ys) ≡ filter p xs ++ filter p ys
  filter-append p [] ys = refl
  filter-append p (x ∷ xs) ys = ground (arith, filter-append p xs ys)

  -- Filtering never adds an entry that passes a test.
  pub count-filter-le : (p q : A → Bool) (xs : List A) → count p (filter q xs) ≤ count p xs
  count-filter-le p q [] = omega arith
  count-filter-le p q (x ∷ xs) = ground (arith, count-filter-le p q xs)

  pub count-filter_of_imp :
      (p q : A → Bool) (xs : List A)
      → ((x : A) → p x ≡ true → q x ≡ true)
      → count p (filter q xs) ≡ count p xs
  count-filter_of_imp p q [] h = refl
  count-filter_of_imp p q (x ∷ xs) h = ground (arith, count-filter_of_imp p q xs h, h x)

  pub count-filter_of_not :
      (p q : A → Bool) (xs : List A)
      → ((x : A) → p x ≡ true → q x ≡ false)
      → count p (filter q xs) ≡ 0
  count-filter_of_not p q [] h = refl
  count-filter_of_not p q (x ∷ xs) h = ground (arith, count-filter_of_not p q xs h, h x)

  pub count-add-filter-not :
      (p : A → Bool) (xs : List A) → count p xs + length (filter (λ x. not (p x)) xs) ≡ length xs
  count-add-filter-not p [] = omega arith
  count-add-filter-not p (x ∷ xs) = ground (arith, count-add-filter-not p xs)

  pub length-filter-le : (p : A → Bool) (xs : List A) → length (filter p xs) ≤ length xs
  length-filter-le p [] = omega arith
  length-filter-le p (x ∷ xs) = ground (arith, length-filter-le p xs)

  pub count-take-drop :
      (p : A → Bool) (n : ℕ) (xs : List A) → count p (take n xs) + count p (drop n xs) ≡ count p xs
  count-take-drop p zero xs = omega arith
  count-take-drop p (suc n) [] = omega arith
  count-take-drop p (suc n) (x ∷ xs) = omega (arith, count-take-drop p n xs)

  pub count-ext : (p q : A → Bool) (xs : List A) → ((x : A) → p x ≡ q x) → count p xs ≡ count q xs
  count-ext p q [] h = refl
  count-ext p q (x ∷ xs) h = ground (arith, count-ext p q xs h, h x)

  pub count-le-length : (p : A → Bool) (xs : List A) → count p xs ≤ length xs
  count-le-length p [] = omega arith
  count-le-length p (x ∷ xs) = ground (arith, count-le-length p xs)

  pub find?-passes : (p : A → Bool) (xs : List A) {x : A} → find? p xs ≡ some x → p x ≡ true
  find?-passes p [] h = cc
  find?-passes p (y ∷ xs) {x} h = ground (arith, find?-passes p xs {x = x})

  pub count-pos_of_find? :
      (p q : A → Bool) (xs : List A) {x : A} → find? p xs ≡ some x → q x ≡ true → 1 ≤ count q xs
  count-pos_of_find? p q [] h k = cc
  count-pos_of_find? p q (y ∷ xs) {x} h k = ground (arith, count-pos_of_find? p q xs {x = x})

  pub find?-append :
      (p : A → Bool) (xs ys : List A) → find? p (xs ++ ys) ≡ or_option (find? p xs) (find? p ys)
  find?-append p [] ys = refl
  find?-append p (x ∷ xs) ys = ground (arith, find?-append p xs ys)

  pub count-zero_of_find? : (p : A → Bool) (xs : List A) → find? p xs ≡ none → count p xs ≡ 0
  count-zero_of_find? p [] h = refl
  count-zero_of_find? p (y ∷ xs) h = ground (arith, count-zero_of_find? p xs)

module _ {ℓ} {A : Type ℓ} where
  pub count-set-le :
      (p : A → Bool) (xs : List A) (i : ℕ) (v : A)
      → count p (set xs i v) ≤ count p xs + (if p v then 1 else 0)
  count-set-le p [] i v = omega arith
  count-set-le p (x ∷ xs) zero v = ground arith
  count-set-le p (x ∷ xs) (suc i) v = omega (arith, count-set-le p xs i v)

  -- Writing over an entry that passes the test.
  pub count-set_found :
      (p q : A → Bool) (xs : List A) (i : ℕ) (v : A)
      → find_index? q xs ≡ some i
      → ((x : A) → q x ≡ true → p x ≡ true)
      → count p (set xs i v) + 1 ≡ count p xs + (if p v then 1 else 0)
  count-set_found p q [] i v h k = cc
  count-set_found p q (x ∷ xs) zero v h k = elim (Bool-cases (q x)) [
    | inl e ↦ ground (arith, k x)
    | inr e ↦ absurd (index_zero (find_index? q xs) (rw e at h))
  ]
    where
      index_zero : (o : Option ℕ) → Option.map suc o ≡ some zero → ⊥
      index_zero none e = cc
      index_zero (some j) e = ground arith
  count-set_found p q (x ∷ xs) (suc i) v h k = ground (arith, count-set_found p q xs i v)

  pub count-zero_of_find_index? :
      (p : A → Bool) (xs : List A) → find_index? p xs ≡ none → count p xs ≡ 0
  count-zero_of_find_index? p [] h = refl
  count-zero_of_find_index? p (x ∷ xs) h = ground (arith, count-zero_of_find_index? p xs)

  pub count-take_found :
      (p : A → Bool) (xs : List A) (i : ℕ)
      → find_index? p xs ≡ some i
      → 1 ≤ count p (take (suc i) xs)
  count-take_found p [] i h = cc
  count-take_found p (x ∷ xs) zero h = index_zero (p x) (find_index? p xs) refl h
    where
      index_zero :
          (b : Bool) (o : Option ℕ)
          → p x ≡ b
          → (if b then some 0 else Option.map suc o) ≡ some zero
          → 1 ≤ count p (take 1 (x ∷ xs))
      index_zero true o e k = ground arith
      index_zero false none e k = cc
      index_zero false (some j) e k = ground arith
  count-take_found p (x ∷ xs) (suc i) h = ground (arith, count-take_found p xs i)

  pub count-set_absent :
      (p q : A → Bool) (xs : List A) (i : ℕ) (v : A)
      → find_index? q xs ≡ some i
      → count p xs ≡ 0
      → p v ≡ true
      → count p (set xs i v) ≡ 1
  count-set_absent p q [] i v h c t = cc
  count-set_absent p q (x ∷ xs) zero v h c t = ground arith
  count-set_absent p q (x ∷ xs) (suc i) v h c t = ground (arith, count-set_absent p q xs i v)

module _ {ℓ κ} {A : Type ℓ} {B : Type κ} where
  pub count-map :
      (p : B → Bool) (f : A → B) (xs : List A) → count p (map f xs) ≡ count (λ x. p (f x)) xs
  count-map p f [] = refl
  count-map p f (x ∷ xs) = ground (arith, count-map p f xs)

  pub length-map : (f : A → B) (xs : List A) → length (map f xs) ≡ length xs
  length-map f [] = refl
  length-map f (x ∷ xs) = ap suc (length-map f xs)

-- Entries and indices of two lists joined.
module _ {ℓ} {A : Type ℓ} where
  pub get_elem-append :
      (xs ys : List A) (i : ℕ) → get_elem? (xs ++ ys) (length xs + i) ≡ get_elem? ys i
  get_elem-append [] ys i = ap (get_elem? ys) {x = 0 + i} {y = i} (omega arith)
  get_elem-append (x ∷ xs) ys i =
      ap (get_elem? (x ∷ (xs ++ ys))) {x = suc (length xs) + i} {y = suc (length xs + i)}
        (omega arith)
      ∙ get_elem-append xs ys i

  pub get_elem-last :
      (x : A) (xs ys : List A) → get_elem? (x ∷ (xs ++ ys)) (length xs) ≡ some (last x xs)
  get_elem-last x [] ys = refl
  get_elem-last x (y ∷ xs) ys = get_elem-last y xs ys

  pub take-append : (xs ys : List A) → take (length xs) (xs ++ ys) ≡ xs
  take-append [] ys = refl
  take-append (x ∷ xs) ys = ap (x ∷◌) (take-append xs ys)

  pub find_index?-after :
      (q : A → Bool) (before after : List A) (c : A)
      → count q before ≡ 0
      → q c ≡ true
      → find_index? q (before ++ c ∷ after) ≡ some (length before)
  find_index?-after q [] after c h k = rw k refl
  find_index?-after q (x ∷ before) after c h k = elim (Bool-cases (q x)) [
    | inl same ↦ absurd (omega (arith, rw same at h))
    | inr other ↦
        rw other (
          ap (Option.map suc) (find_index?-after q before after c (omega (arith, rw other at h)) k))
  ]
