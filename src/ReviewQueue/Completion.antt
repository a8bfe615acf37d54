-- ===== src/ReviewQueue/Completion.antt =====
-- ui/src/state/review-queue.ts: the way through the queue, and pinning.
use vivi.Base.{
  ℕ, zero, suc, ◌+◌, ◌≤◌, ◌≡◌, refl, ap, inl, inr, Bool, true, false, not, Option, none, some, List,
  [], ◌∷◌, Text, ◌==◌, filter, find_index?, get_elem?, take, drop, length, last, count, arith,
  Bool-cases, Option-cases, is_empty, if◌then◌else◌,
}
use mathlib.Core.Option
use mathlib.Core.Path.{subst}
use vivi.Base.{eq_self}
use vivi.Base.Laws.{count-filter_of_not, count-filter-le, count-append, count-take-drop}
use vivi.ReviewQueue.{
  ReviewQueueItem, Direction, next, previous, has_path, path_of, entry_end, target_or, target_index,
  step_after, is_review_queue_item_openable, next_review_queue_item_path_after_completion,
  pinned_at, pin_active_review_queue_item,
}

module _ (q : ReviewQueueItem → Bool) where
  get_elem-count :
      (xs : List ReviewQueueItem) (i : ℕ) (x : ReviewQueueItem)
      → get_elem? xs i ≡ some x
      → q x ≡ true
      → 1 ≤ count q xs
  get_elem-count [] i x h t = cc
  get_elem-count (y ∷ xs) zero x h t = let same : q y ≡ true = ground arith in rw same (omega arith)
  get_elem-count (y ∷ xs) (suc i) x h t = omega (arith, get_elem-count xs i x h t)

  last-count :
      (y : ReviewQueueItem) (xs : List ReviewQueueItem)
      → q (last y xs) ≡ true
      → 1 ≤ count q (y ∷ xs)
  last-count y [] h = rw h (omega arith)
  last-count y (x ∷ xs) h = omega (arith, last-count x xs h)

  pub entry_end-count :
      (d : Direction) (xs : List ReviewQueueItem) (x : ReviewQueueItem)
      → entry_end d xs ≡ some x
      → q x ≡ true
      → 1 ≤ count q xs
  entry_end-count next [] x h t = cc
  entry_end-count next (y ∷ xs) x h t =
      let same : q y ≡ true = ground arith in rw same (omega arith)
  entry_end-count previous [] x h t = cc
  entry_end-count previous (y ∷ xs) x h t = last-count y xs (ground arith)

  -- Moving one entry to the front keeps every entry.
  pinned-drop :
      (xs : List ReviewQueueItem) (i : ℕ) (x : ReviewQueueItem)
      → get_elem? xs i ≡ some x
      → count q (drop i xs) ≡ (if q x then 1 else 0) + count q (drop (suc i) xs)
  pinned-drop [] i x h = cc
  pinned-drop (y ∷ xs) zero x h = ground arith
  pinned-drop (y ∷ xs) (suc i) x h = pinned-drop xs i x h

  pinned_at-count :
      (xs : List ReviewQueueItem) (o : Option ℕ) → count q (pinned_at xs o) ≡ count q xs
  pinned_at-count xs none = refl
  pinned_at-count xs (some zero) = refl
  pinned_at-count xs (some (suc i)) = elim (Option-cases (get_elem? xs (suc i))) [
    | inl absent ↦ rw absent refl
    | inr found ↦ rw found.1 (
        omega (
          arith,
          pinned-drop xs (suc i) found.0 found.1,
          count-append q (take (suc i) xs) (drop (suc (suc i)) xs),
          count-take-drop q (suc i) xs,
        ))
  ]

-- Pinning the active file keeps every item as many times as it stands in the queue.
pub pin_active_review_queue_item-count :
    (q : ReviewQueueItem → Bool) (items : List ReviewQueueItem) (current : Option Text)
    → count q (pin_active_review_queue_item items current) ≡ count q items
unfolding pin_active_review_queue_item
pin_active_review_queue_item-count q items none = refl
pin_active_review_queue_item-count q items (some p) = elim (Bool-cases (is_empty p)) [
  | inl empty ↦ rw empty refl
  | inr path ↦ rw path (pinned_at-count q items _)
]

-- The items that stay when one is completed.
abbrev pub remaining_of : Text → List ReviewQueueItem → List ReviewQueueItem
remaining_of completed = filter (λ item. not (item.path == completed))

entry_end-remaining :
    (d : Direction) (completed : Text) (xs : List ReviewQueueItem) (x : ReviewQueueItem)
    → entry_end d (remaining_of completed xs) ≡ some x
    → (x.path == completed) ≡ false
entry_end-remaining d completed xs x h = elim (Bool-cases (x.path == completed)) [
  | inl same ↦ absurd (
      omega (
        arith,
        entry_end-count (has_path completed) d (remaining_of completed xs) x h same,
        count-filter_of_not (has_path completed) (λ item. not (item.path == completed)) xs
            (λ y e. ap not e),
      ))
  | inr other ↦ other
]

-- What the completed file is replaced with: another file, that stands in the list.
abbrev IsOther : Text → List ReviewQueueItem → Text → Type 0
IsOther completed xs p = ((p == completed) ≡ false) × (1 ≤ count (has_path p) xs)

entry_end-IsOther :
    (d : Direction) (completed : Text) (xs : List ReviewQueueItem) (x : ReviewQueueItem)
    → entry_end d (remaining_of completed xs) ≡ some x
    → IsOther completed xs x.path
entry_end-IsOther d completed xs x h = (
  entry_end-remaining d completed xs x h,
  omega (
    arith,
    entry_end-count (has_path x.path) d (remaining_of completed xs) x h (eq_self x.path),
    count-filter-le (has_path x.path) (λ item. not (item.path == completed)) xs,
  ),
)

target-IsOther :
    (completed : Text) (xs : List ReviewQueueItem) (i : ℕ) (target other : Option ReviewQueueItem)
    (x : ReviewQueueItem)
    → get_elem? xs i ≡ target
    → (other ≡ some x → IsOther completed xs x.path)
    → target_or completed target other ≡ some x
    → IsOther completed xs x.path
target-IsOther completed xs i none other x e k h = k h
target-IsOther completed xs i (some t) other x e k h = elim (Bool-cases (t.path == completed)) [
  | inl same ↦ k (ground arith)
  | inr found ↦
      let alike : t ≡ x = ground arith in
      subst (λ y. IsOther completed xs y.path) alike
        (found, get_elem-count (has_path t.path) xs i t e (eq_self t.path))
]

step_after-IsOther :
    (xs : List ReviewQueueItem) (completed : Text) (d : Direction) (o : Option ℕ)
    (x : ReviewQueueItem)
    → step_after xs (remaining_of completed xs) completed d o ≡ some x
    → IsOther completed xs x.path
step_after-IsOther xs completed d none x h = entry_end-IsOther d completed xs x h
step_after-IsOther xs completed d (some i) x h =
    target-IsOther completed xs (target_index d i (length xs)) _ _ x refl
      (entry_end-IsOther d completed xs x) h

map-IsOther :
    (completed : Text) (xs : List ReviewQueueItem) (o : Option ReviewQueueItem) (p : Text)
    → ((x : ReviewQueueItem) → o ≡ some x → IsOther completed xs x.path)
    → Option.map path_of o ≡ some p
    → IsOther completed xs p
map-IsOther completed xs none p k h = cc
map-IsOther completed xs (some x) p k h =
    let same : x.path ≡ p = cc in subst (IsOther completed xs) same (k x refl)

-- The file that is shown after one is completed is another file, which can be opened.
pub next_review_queue_item_path_after_completion-other :
    (items : List ReviewQueueItem) (completed : Text) (d : Direction) (p : Text)
    → next_review_queue_item_path_after_completion items completed d ≡ some p
    → ((p == completed) ≡ false)
      × (1 ≤ count (has_path p) (filter is_review_queue_item_openable items))
unfolding next_review_queue_item_path_after_completion
next_review_queue_item_path_after_completion-other items completed d p h =
    let reviewable = filter is_review_queue_item_openable items in
    map-IsOther completed reviewable
      (step_after reviewable (remaining_of completed reviewable) completed d
        (find_index? (has_path completed) reviewable))
      p (step_after-IsOther reviewable completed d _) (ground arith)
