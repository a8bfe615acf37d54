-- ===== src/Base/Dict.antt =====
-- A Map with strings for keys, in the order of first insertion.
use Prim.Native.Nat.{◌+◌, ◌≤◌}
use mathlib.Core.Path.{◌≡◌, refl}
use mathlib.Core.Bool.{Bool}
use mathlib.Core.Option.{Option, none, some}
use mathlib.Core.List.{List, [], ◌∷◌}
use native.Mathlib.Omega.{arith}
use vivi.Base.Tests.{if◌then◌else◌, is_some}
use vivi.Base.Lists.{length}
use vivi.Base.Strings.{Text, ◌==◌, eq_iff}

abbrev pub Dict {ℓ} : Type ℓ → Type ℓ
Dict A = List (Text × A)

module _ {ℓ} {A : Type ℓ} where
  -- `map.get(k)`
  unfoldable pub lookup : Text → Dict A → Option A
  lookup k [] = none
  lookup k ((j, v) ∷ d) = if j == k then some v else lookup k d

  -- `map.set(k, v)`: a key that is there keeps its place.
  unfoldable pub put : Text → A → Dict A → Dict A
  put k v [] = (k, v) ∷ []
  put k v ((j, w) ∷ d) = if j == k then (k, v) ∷ d else (j, w) ∷ put k v d

  -- `map.delete(k)`
  unfoldable pub erase : Text → Dict A → Dict A
  erase k [] = []
  erase k ((j, v) ∷ d) = if j == k then erase k d else (j, v) ∷ erase k d

  -- `map.has(k)`
  abbrev pub has_key : Text → Dict A → Bool
  has_key k d = is_some (lookup k d)

  -- `[...map.values()]`
  abbrev pub values : Dict A → List A
  values [] = []
  values ((k, v) ∷ d) = v ∷ values d

  pub lookup-put :
      (j k : Text) (v : A) (d : Dict A)
      → lookup j (put k v d) ≡ (if k == j then some v else lookup j d)
  unfolding lookup put
  lookup-put j k v [] = refl
  lookup-put j k v ((i, w) ∷ d) =
      ground (arith, eq_iff k j, eq_iff i k, eq_iff i j, lookup-put j k v d)

  pub lookup-erase :
      (j k : Text) (d : Dict A) → lookup j (erase k d) ≡ (if k == j then none else lookup j d)
  unfolding lookup erase
  lookup-erase j k [] = ground arith
  lookup-erase j k ((i, w) ∷ d) =
      ground (arith, eq_iff k j, eq_iff i k, eq_iff i j, lookup-erase j k d)

  pub length-erase-le : (k : Text) (d : Dict A) → length (erase k d) ≤ length d
  unfolding erase
  length-erase-le k [] = omega arith
  length-erase-le k ((i, w) ∷ d) = ground (arith, length-erase-le k d)

  -- A key that is there adds no entry, and another adds one.
  pub length-put :
      (k : Text) (v : A) (d : Dict A)
      → length (put k v d) ≡ length d + (if has_key k d then 0 else 1)
  unfolding put lookup
  length-put k v [] = omega arith
  length-put k v ((i, w) ∷ d) = ground (arith, length-put k v d)
