-- ===== src/PathPolicy/Inside.antt =====
-- An accepted path stays below the root.
use vivi.Base.{
  ℕ, ◌≡◌, ◌≢◌, refl, sym, ap, ◌∙◌, ◌⊎◌, inl, inr, Bool, true, false, ◌||◌, Option, none, some, List,
  [], ◌∷◌, ◌++◌, map, codes, ◌==◌, eq_iff, trim, starts_with, is_empty, eqb, All, arith, Bool-cases,
  if◌then◌else◌,
}
use mathlib.Core.Path.{subst, ap₂}
use vivi.Base.{eqb_iff}
use mathlib.Core.List.{append-nil, append_assoc}
use vivi.PathPolicy.{push_unit}
use vivi.Base.Strings.{Text}
use vivi.PathPolicy.{
  ok, refused, normalize_relative_path, resolve, resolved, split_path, join_path, without_last,
  has_nul, to_slash,
}
use vivi.PathPolicy.Split.{IsPart, split_path-parts, split_path-join_path}

-- No unit of the path is a backslash or NUL.
abbrev pub IsPlain : ℕ → Type 0
IsPlain c = (c ≢ 92) × (c ≢ 0)

-- The name of a file or directory: no "." or "..", and no separator in it.
abbrev pub IsSegment : Text → Type 0
IsSegment s =
    (is_empty s ≡ false)
    × ((s == codes ".") ≡ false)
    × ((s == codes "..") ≡ false)
    × IsPart IsPlain s

-- The root itself, or names that lead down from it.
abbrev pub IsInside : Text → Type 0
IsInside p = (p ≡ []) ⊎ All IsSegment (split_path p)

raw-IsPlain : (s : Text) → has_nul (map to_slash s) ≡ false → All IsPlain (map to_slash s)
raw-IsPlain [] h = tt
raw-IsPlain (c ∷ s) h = ground (arith, raw-IsPlain s)

All-snoc :
    (ss : List Text) (s : Text) → All IsSegment ss → IsSegment s → All IsSegment (ss ++ s ∷ [])
All-snoc [] s h p = (p, tt)
All-snoc (t ∷ ss) s h p = (h.0, All-snoc ss s h.1 p)

without_last-All : (ss : List Text) → All IsSegment ss → All IsSegment (without_last ss)
without_last-All [] h = tt
without_last-All (s ∷ []) h = tt
without_last-All (s ∷ t ∷ ts) h = (h.0, without_last-All (t ∷ ts) h.1)

-- What the loop keeps are names.
resolve-All :
    (kept ss found : List Text)
    → All IsSegment kept
    → All (IsPart IsPlain) ss
    → resolve kept ss ≡ some found
    → All IsSegment found
unfolding resolve
resolve-All kept [] found h p e = let same : kept ≡ found = cc in subst (All IsSegment) same h
resolve-All [] (s ∷ ss) found h p e = elim (Bool-cases (is_empty s || (s == codes "."))) [
  | inl skipped ↦ resolve-All [] ss found h p.1 (ground arith)
  | inr named ↦ elim (Bool-cases (s == codes "..")) [
    | inl up ↦ ground arith
    | inr down ↦
        resolve-All (s ∷ []) ss found (All-snoc [] s h (ground arith, ground arith, down, p.0)) p.1
          (ground arith)
  ]
]
resolve-All (k ∷ ks) (s ∷ ss) found h p e = elim (Bool-cases (is_empty s || (s == codes "."))) [
  | inl skipped ↦ resolve-All (k ∷ ks) ss found h p.1 (ground arith)
  | inr named ↦ elim (Bool-cases (s == codes "..")) [
    | inl up ↦
        resolve-All (without_last (k ∷ ks)) ss found (without_last-All (k ∷ ks) h) p.1
          (ground arith)
    | inr down ↦
        resolve-All ((k ∷ ks) ++ s ∷ []) ss found
          (All-snoc (k ∷ ks) s h (ground arith, ground arith, down, p.0)) p.1 (ground arith)
  ]
]

parts : (ss : List Text) → All IsSegment ss → All (IsPart IsPlain) ss
parts [] h = tt
parts (s ∷ ss) h = (h.0.3, parts ss h.1)

join_path-IsInside : (ss : List Text) → All IsSegment ss → IsInside (join_path ss)
unfolding join_path
join_path-IsInside [] h = inl refl
join_path-IsInside (s ∷ ss) h =
    inr (subst (All IsSegment) (sym (split_path-join_path IsPlain s ss (parts (s ∷ ss) h))) h)

normalized-IsInside :
    (found : Option (List Text)) (p : Text)
    → ((ss : List Text) → found ≡ some ss → All IsSegment ss)
    → resolved found ≡ ok p
    → IsInside p
normalized-IsInside none p h e = cc
normalized-IsInside (some ss) p h e =
    let same : join_path ss ≡ p = cc in subst IsInside same (join_path-IsInside ss (h ss refl))

guarded-IsInside :
    (nul root absolute : Bool) (r₁ r₂ p : Text) (found : Option (List Text))
    → (nul ≡ false → (ss : List Text) → found ≡ some ss → All IsSegment ss)
    → (if nul
        then refused r₁
        else if root
        then ok []
        else if absolute
        then refused r₂
        else resolved found)
      ≡ ok p
    → IsInside p
guarded-IsInside true root absolute r₁ r₂ p found h e = cc
guarded-IsInside false true absolute r₁ r₂ p found h e = inl (cc)
guarded-IsInside false false true r₁ r₂ p found h e = cc
guarded-IsInside false false false r₁ r₂ p found h e = normalized-IsInside found p (h refl) e

-- An accepted path is the root or leads down from it by names alone: no part is empty, ".", ".." or
-- holds a backslash or NUL.
pub normalize_relative_path-IsInside :
    (input p : Text) → normalize_relative_path input ≡ ok p → IsInside p
unfolding normalize_relative_path
normalize_relative_path-IsInside input p e =
    let raw = map to_slash (trim input) in
    guarded-IsInside (has_nul raw) (is_empty raw || (raw == codes "."))
      (starts_with raw (codes "/")) (codes "path contains invalid characters")
      (codes "absolute paths are not allowed") p (resolve [] (split_path raw))
      (λ plain ss found.
        resolve-All [] (split_path raw) ss tt
          (split_path-parts IsPlain raw (raw-IsPlain (trim input) plain)) found)
      e

-- A path that is accepted as it stands.
push_unit-IsPlain :
    (c : ℕ) (ls : List Text)
    → All (IsPart IsPlain) (push_unit c ls)
    → IsPlain c × All (IsPart IsPlain) ls
push_unit-IsPlain c [] h = (h.0.0.0, tt)
push_unit-IsPlain c (l ∷ ls) h = (h.0.0.0, (h.0.1, h.1))

split-slash : (c : ℕ) (s : Text) → eqb c 47 ≡ true → split_path (c ∷ s) ≡ [] ∷ split_path s
unfolding split_path
split-slash c s h = rw h refl

split-unit : (c : ℕ) (s : Text) → eqb c 47 ≡ false → split_path (c ∷ s) ≡ push_unit c (split_path s)
unfolding split_path
split-unit c s h = rw h refl

split_path-cons : (s : Text) → (t : Text) × (ts : List Text) × (split_path s ≡ t ∷ ts)
unfolding split_path
split_path-cons [] = ([], [], refl)
split_path-cons (c ∷ s) = elim (Bool-cases (eqb c 47)) [
  | inl slash ↦ ([], split_path s, split-slash c s slash)
  | inr other ↦
      let more = split_path-cons s in
      (c ∷ more.0, more.1, split-unit c s other ∙ ap (push_unit c) more.2)
]

join-push :
    (c : ℕ) (t : Text) (ts : List Text) → join_path (push_unit c (t ∷ ts)) ≡ c ∷ join_path (t ∷ ts)
unfolding join_path
join-push c t [] = refl
join-push c t (u ∷ ts) = refl

join-empty : (t : Text) (ts : List Text) → join_path ([] ∷ t ∷ ts) ≡ 47 ∷ join_path (t ∷ ts)
unfolding join_path
join-empty t ts = refl

-- Splitting a path and joining its parts gives the path.
join_path-split_path : (s : Text) → join_path (split_path s) ≡ s
join_path-split_path [] = unfold join_path split_path in refl
join_path-split_path (c ∷ s) =
    let more = split_path-cons s in
    let ih : join_path (more.0 ∷ more.1) ≡ s = sym (ap join_path more.2) ∙ join_path-split_path s in
    elim (Bool-cases (eqb c 47)) [
      | inl slash ↦
          ap join_path (split-slash c s slash ∙ ap (λ l. [] ∷ l) more.2)
          ∙ join-empty more.0 more.1
          ∙ ap₂ ◌∷◌ (sym ((eqb_iff c 47).0 slash)) ih
      | inr other ↦
          ap join_path (split-unit c s other ∙ ap (push_unit c) more.2)
          ∙ join-push c more.0 more.1
          ∙ ap (λ l. c ∷ l) ih
    ]

dot-free : (p : Text) → All IsSegment (split_path p) → (p == codes ".") ≡ false
dot-free p h = elim (Bool-cases (p == codes ".")) [
  | inl dot ↦
      let same = subst (λ q. All IsSegment (split_path q)) ((eq_iff p (codes ".")).0 dot) h in
      unfold split_path ◌==◌ in ground arith
  | inr other ↦ other
]

relative-path :
    (c : ℕ) (s : Text)
    → All IsSegment (split_path (c ∷ s))
    → starts_with (c ∷ s) (codes "/") ≡ false
relative-path c s h = elim (Bool-cases (eqb c 47)) [
  | inl slash ↦ let first = (subst (All IsSegment) (split-slash c s slash) h).0.0 in ground arith
  | inr other ↦ rw other refl
]

plain-units :
    (s : Text) → All (IsPart IsPlain) (split_path s) → (has_nul s ≡ false) × (map to_slash s ≡ s)
unfolding split_path
plain-units [] h = (refl, refl)
plain-units (c ∷ s) h = elim (Bool-cases (eqb c 47)) [
  | inl slash ↦
      ground (arith, plain-units s (subst (All (IsPart IsPlain)) (split-slash c s slash) h).1)
  | inr other ↦
      let parts =
        push_unit-IsPlain c (split_path s)
          (subst (All (IsPart IsPlain)) (split-unit c s other) h) in
      ground (arith, parts.0, plain-units s parts.1)
]

resolve-names : (kept ss : List Text) → All IsSegment ss → resolve kept ss ≡ some (kept ++ ss)
unfolding resolve
resolve-names kept [] h = ap some (sym (append-nil kept))
resolve-names kept (s ∷ ss) h =
    rw (h.0.0, h.0.1, h.0.2)
      (resolve-names (kept ++ s ∷ []) ss h.1 ∙ ap some (append_assoc kept (s ∷ []) ss))

guarded-ok :
    {nul root absolute : Bool} (r₁ r₂ : Text) {p : Text} {found : Option (List Text)}
    {ss : List Text}
    → nul ≡ false
    → root ≡ false
    → absolute ≡ false
    → found ≡ some ss
    → join_path ss ≡ p
    → (if nul
        then refused r₁
        else if root
        then ok []
        else if absolute
        then refused r₂
        else resolved found)
      ≡ ok p
guarded-ok r₁ r₂ a b c d e = rw (a, b, c, d, e) refl

-- A path that leads down by names alone is accepted as it stands, when it has no white space at
-- its ends.
pub IsInside-normalize_relative_path :
    (p : Text) → IsInside p → trim p ≡ p → normalize_relative_path p ≡ ok p
unfolding normalize_relative_path
IsInside-normalize_relative_path p (inl root) e = rw (e, root) refl
IsInside-normalize_relative_path [] (inr h) e = rw e refl
IsInside-normalize_relative_path (c ∷ s) (inr h) e =
    let p = c ∷ s in
    let units = plain-units p (parts (split_path p) h) in
    let raw = ap (map to_slash) e ∙ units.1 in
    guarded-ok _ _ (ap has_nul raw ∙ units.0)
      (ap (λ r. is_empty r || (r == codes ".")) raw ∙ dot-free p h)
      (ap (λ r. starts_with r (codes "/")) raw ∙ relative-path c s h)
      (ap (λ r. resolve [] (split_path r)) raw ∙ resolve-names [] (split_path p) h)
      (join_path-split_path p)
