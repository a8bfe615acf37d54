-- ===== src/ReviewQueue/Tests.antt =====
-- A queue of three files, and the theorems there.
use vivi.Base.{
  eq_self, count, ◌≡◌, refl, true, false, none, some, List, [], ◌∷◌, codes, ◌==◌, filter,
}
use vivi.Base.Strings.{Text}
use vivi.ChangeReview.{deleted}
use vivi.ReviewQueue.{
  ReviewQueueItem, has_path, next, is_review_queue_item_openable,
  next_review_queue_item_path_after_completion,
}
use vivi.ReviewQueue.Neighbour.{next_review_queue_item_path_after_completion-neighbour}

abbrev item : Text → ReviewQueueItem
item p = record {
  path = p;
  change = none;
  comment_count = 1;
  pending_draft_count = none;
  unread = true;
}

abbrev gone : ReviewQueueItem
gone = record {
  path = codes "gone.md";
  change = some (record { path = codes "gone.md"; status = deleted; kind = none });
  comment_count = 0;
  pending_draft_count = none;
  unread = false;
}

abbrev queue : List ReviewQueueItem
queue = item (codes "a.md") ∷ gone ∷ item (codes "b.md") ∷ []

shows_b :
    next_review_queue_item_path_after_completion queue (codes "a.md") next ≡ some (codes "b.md")
unfolding next_review_queue_item_path_after_completion ◌==◌
shows_b = refl

openable :
    filter is_review_queue_item_openable queue ≡ item (codes "a.md") ∷ item (codes "b.md") ∷ []
unfolding is_review_queue_item_openable
openable = refl

own : (codes "b.md" == codes "b.md") ≡ true
own = eq_self (codes "b.md")

fresh : count (has_path (codes "b.md")) (item (codes "a.md") ∷ []) ≡ 0
unfolding ◌==◌
fresh = refl

-- After the last file comes the first one.
next_review_queue_item_path_after_completion-neighbour_example :
    next_review_queue_item_path_after_completion queue (codes "b.md") next ≡ some (codes "a.md")
next_review_queue_item_path_after_completion-neighbour_example =
    next_review_queue_item_path_after_completion-neighbour queue (item (codes "a.md") ∷ []) []
      (item (codes "b.md")) (codes "b.md") next openable own fresh refl

abbrev paths_before : List Text
paths_before = codes "a.md" ∷ codes "z.md" ∷ []

abbrev items_now : List Text
items_now = codes "a.md" ∷ codes "b.md" ∷ []
