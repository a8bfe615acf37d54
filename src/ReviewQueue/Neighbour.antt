-- ===== src/ReviewQueue/Neighbour.antt =====
-- ui/src/state/review-queue.ts: the file that is shown after one is completed is the one beside it.
use vivi.Base.{
  ℕ, suc, ◌+◌, ◌-◌, ◌%◌, ◌++◌, ◌∙◌, sym, head?, ◌≤◌, ◌≡◌, refl, ap, inl, inr, Bool, true, false,
  Option, none, some, List, [], ◌∷◌, Text, ◌==◌, filter, find_index?, get_elem?, length, last,
  count, arith, Bool-cases, leb, is_some,
}
use mathlib.Core.Option
use mathlib.Core.Path.{subst}
use mathlib.Core.List.{append-nil}
use native.Mathlib.Nat.{mod_self, mod-eq_of_lt, add-mod_right}
use vivi.Base.Laws.{get_elem-append, get_elem-last, find_index?-after, length-append, count-append}
use vivi.ReviewQueue.{
  ReviewQueueItem, Direction, next, previous, has_path, path_of, entry_end, target_or, target_index,
  step_after, last?, is_review_queue_item_openable, next_review_queue_item_path_after_completion,
}
use vivi.ReviewQueue.Completion.{entry_end-count}

-- The file after (`next`) or before (`previous`) one that stands between two lists, around the end.
abbrev pub neighbour :
    Direction → List ReviewQueueItem → List ReviewQueueItem → Option ReviewQueueItem
neighbour next before after = head? (after ++ before)
neighbour previous before after = last? (after ++ before)

last-append :
    (x y : ReviewQueueItem) (xs ys : List ReviewQueueItem) → last x (xs ++ y ∷ ys) ≡ last y ys
last-append x y [] ys = refl
last-append x y (z ∷ xs) ys = last-append z y xs ys

last?-append :
    (y : ReviewQueueItem) (xs ys : List ReviewQueueItem) → last? (xs ++ y ∷ ys) ≡ some (last y ys)
last?-append y [] ys = refl
last?-append y (x ∷ xs) ys = ap some (last-append x y xs ys)

-- The entry that the code steps to, when another file stands in the list.
target-neighbour :
    (d : Direction) (before after : List ReviewQueueItem) (c : ReviewQueueItem)
    → 1 ≤ length before + length after
    → get_elem?
        (before ++ c ∷ after)
        (target_index d (length before) (length before + suc (length after)))
      ≡ neighbour d before after
target-neighbour next [] [] c h = absurd (omega (arith, h))
target-neighbour next (x ∷ before) [] c h =
    ap (get_elem? (x ∷ (before ++ c ∷ []))) (mod_self (length (x ∷ before) + 1))
target-neighbour next before (y ∷ after) c h =
    ap (get_elem? (before ++ c ∷ y ∷ after)) (mod-eq_of_lt (omega arith))
    ∙ get_elem-append before (c ∷ y ∷ after) 1
target-neighbour previous [] [] c h = absurd (omega (arith, h))
target-neighbour previous [] (y ∷ after) c h =
    ap (get_elem? (c ∷ y ∷ after)) (
      ap (λ i. i % (0 + suc (suc (length after)))) {x = 0 + (0 + suc (suc (length after))) - 1}
        {y = suc (length after)} (omega arith)
      ∙ mod-eq_of_lt (omega arith))
    ∙ (subst (λ zs. get_elem? (y ∷ zs) (length after) ≡ some (last y after)) (append-nil after)
        (get_elem-last y after []))
    ∙ ap (λ zs. last? (y ∷ zs)) (sym (append-nil after))
target-neighbour previous (x ∷ before) after c h =
    ap (get_elem? (x ∷ (before ++ c ∷ after))) (
      ap (λ i. i % whole) {x = suc (length before) + whole - 1} {y = length before + whole}
        (omega arith)
      ∙ add-mod_right (length before) whole
      ∙ mod-eq_of_lt (omega arith))
    ∙ get_elem-last x before (c ∷ after)
    ∙ sym (last?-append x after before)
  where
    whole : ℕ
    whole = suc (length before) + suc (length after)

neighbour-other :
    (d : Direction) (completed : Text) (before after : List ReviewQueueItem) (x : ReviewQueueItem)
    → count (has_path completed) (after ++ before) ≡ 0
    → neighbour d before after ≡ some x
    → (x.path == completed) ≡ false
neighbour-other d completed before after x h k = elim (Bool-cases (x.path == completed)) [
  | inl same ↦ absurd (omega (arith, h, found d k same))
  | inr other ↦ other
]
  where
    found :
        (d : Direction)
        → neighbour d before after ≡ some x
        → (x.path == completed) ≡ true
        → 1 ≤ count (has_path completed) (after ++ before)
    found next k e = entry_end-count (has_path completed) next (after ++ before) x k e
    found previous k e = entry_end-count (has_path completed) previous (after ++ before) x k e

neighbour-none :
    (d : Direction) (before after : List ReviewQueueItem)
    → length before + length after ≡ 0
    → neighbour d before after ≡ none
neighbour-none d (x ∷ before) after h = absurd (omega (arith, h))
neighbour-none d [] (y ∷ after) h = absurd (omega (arith, h))
neighbour-none next [] [] h = refl
neighbour-none previous [] [] h = refl

neighbour-some :
    (d : Direction) (before after : List ReviewQueueItem)
    → 1 ≤ length before + length after
    → is_some (neighbour d before after) ≡ true
neighbour-some next [] [] h = absurd (omega (arith, h))
neighbour-some next (x ∷ before) [] h = refl
neighbour-some next before (y ∷ after) h = refl
neighbour-some previous [] [] h = absurd (omega (arith, h))
neighbour-some previous (x ∷ before) [] h = refl
neighbour-some previous before (y ∷ after) h = refl

target_or-neighbour :
    (completed : Text) (target other : Option ReviewQueueItem)
    → is_some target ≡ true
    → ((x : ReviewQueueItem) → target ≡ some x → (x.path == completed) ≡ false)
    → target_or completed target other ≡ target
target_or-neighbour completed none other h k = cc
target_or-neighbour completed (some x) other h k = rw (k x refl) refl

step_after-neighbour :
    (d : Direction) (before after : List ReviewQueueItem) (c : ReviewQueueItem) (completed : Text)
    (other : List ReviewQueueItem)
    → 1 ≤ length before + length after
    → (c.path == completed) ≡ true
    → count (has_path completed) before ≡ 0
    → count (has_path completed) after ≡ 0
    → step_after
        (before ++ c ∷ after)
        other
        completed
        d
        (find_index? (has_path completed) (before ++ c ∷ after))
      ≡ neighbour d before after
step_after-neighbour d before after c completed other h own fresh free =
    rw
      (
        find_index?-after (has_path completed) before after c fresh own,
        length-append before (c ∷ after),
        target-neighbour d before after c h,
      )
      (target_or-neighbour completed (neighbour d before after) (entry_end d other)
        (neighbour-some d before after h)
        (λ x.
          neighbour-other d completed before after x
            (count-append (has_path completed) after before ∙ omega (arith, fresh, free))))

-- Of the files of the queue that can be opened, when the completed one stands once among them, the next one, or the
-- previous one, is shown after it, around the end of the list; none if it is the only one.
pub next_review_queue_item_path_after_completion-neighbour :
    (items before after : List ReviewQueueItem) (c : ReviewQueueItem) (completed : Text)
    (d : Direction)
    → filter is_review_queue_item_openable items ≡ before ++ c ∷ after
    → (c.path == completed) ≡ true
    → count (has_path completed) before ≡ 0
    → count (has_path completed) after ≡ 0
    → next_review_queue_item_path_after_completion items completed d
      ≡ Option.map path_of (neighbour d before after)
unfolding next_review_queue_item_path_after_completion
next_review_queue_item_path_after_completion-neighbour items before after c completed d parts own
      fresh free =
    by_number (leb (length before + length after) 0) refl
  where
    reviewable : List ReviewQueueItem
    reviewable = before ++ c ∷ after

    size : length reviewable ≡ length before + suc (length after)
    size = length-append before (c ∷ after)

    by_number :
        (b : Bool)
        → leb (length before + length after) 0 ≡ b
        → next_review_queue_item_path_after_completion items completed d
          ≡ Option.map path_of (neighbour d before after)
    by_number true alone =
        let only : leb (length before + suc (length after)) 1 ≡ true = ground arith in
        rw (next_review_queue_item_path_after_completion, parts, size, only)
          (sym (ap (Option.map path_of) (neighbour-none d before after (ground arith))))
    by_number false more =
        let many : leb (length before + suc (length after)) 1 ≡ false = ground arith in
        rw (next_review_queue_item_path_after_completion, parts, size, many)
          (ap (Option.map path_of)
            (step_after-neighbour d before after c completed _ (ground arith) own fresh free))
