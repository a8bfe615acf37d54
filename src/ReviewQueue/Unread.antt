-- ===== src/ReviewQueue/Unread.antt =====
-- What syncUnreadReviewPaths returns and remembers, as sets.
use vivi.Base.{
  ◌≡◌, refl, ap, ◌∙◌, inl, inr, Bool, true, not, ◌&&◌, ◌||◌, List, [], ◌∷◌, ◌++◌, Text, ◌==◌,
  eq_iff, contains, add, filter, arith, Bool-cases,
}
use mathlib.Core.List.{reverse, reverse-cons}
use mathlib.Core.Path.{subst}
use vivi.ReviewQueue.{sync_unread_review_paths, add_all}

contains-append :
    (xs ys : List Text) (p : Text) → contains (xs ++ ys) p ≡ (contains xs p || contains ys p)
contains-append [] ys p = refl
contains-append (x ∷ xs) ys p = ground (arith, contains-append xs ys p)

contains-reverse : (xs : List Text) (p : Text) → contains (reverse xs) p ≡ contains xs p
contains-reverse [] p = refl
contains-reverse (x ∷ xs) p =
    ap (λ l. contains l p) (reverse-cons x xs)
    ∙ contains-append (reverse xs) (x ∷ []) p
    ∙ ground (arith, contains-reverse xs p)

contains-filter :
    (q : Text → Bool) (xs : List Text) (p : Text)
    → contains (filter q xs) p ≡ (q p && contains xs p)
contains-filter q [] p = ground arith
contains-filter q (x ∷ xs) p = elim (Bool-cases (x == p)) [
  | inl same ↦
      let alike = ap q ((eq_iff x p).0 same) in ground (arith, alike, contains-filter q xs p)
  | inr other ↦ ground (arith, contains-filter q xs p)
]

contains-add : (xs : List Text) (x p : Text) → contains (add xs x) p ≡ (contains xs p || (x == p))
contains-add xs x p = elim (Bool-cases (contains xs x)) [
  | inl present ↦ elim (Bool-cases (x == p)) [
    | inl same ↦
        let here = subst (λ r. contains xs r ≡ true) ((eq_iff x p).0 same) present in ground arith
    | inr other ↦ ground arith
  ]
  | inr absent ↦ ground (arith, contains-append xs (x ∷ []) p)
]

contains-add_all :
    (xs ys : List Text) (p : Text) → contains (add_all xs ys) p ≡ (contains xs p || contains ys p)
contains-add_all xs [] p = ground arith
contains-add_all xs (y ∷ ys) p =
    ground (arith, contains-add_all (add xs y) ys p, contains-add xs y p)

-- After a sync the known paths are those of the items, and the unread paths those items that were
-- not known or were unread before.
pub sync_unread_review_paths-contains :
    (paths items known : List Text) (p : Text)
    → (contains (sync_unread_review_paths paths items known).known p ≡ contains items p)
      × (contains (sync_unread_review_paths paths items known).paths p
          ≡ (contains items p && (not (contains known p) || contains paths p)))
unfolding sync_unread_review_paths
sync_unread_review_paths-contains paths items known p =
    let new_paths : List Text = filter (λ r. not (contains known r)) items in
    let old : Text → Bool = λ r. contains items r && not (contains new_paths r) in
    let fresh = contains-filter (λ r. not (contains known r)) items p in
    (
      ground (
        arith,
        contains-add_all (filter (contains items) known) new_paths p,
        contains-filter (contains items) known p,
        fresh,
      ),
      ground (
        arith,
        contains-append (reverse new_paths) (filter old paths) p,
        contains-reverse new_paths p,
        contains-filter old paths p,
        fresh,
      ),
    )
