-- ===== src/ReviewQueue.antt =====
-- ui/src/state/review-queue.ts: the queue of files to review, and the way through it. Of an item's
-- change the status and the kind count.
pub mod Completion
pub mod Neighbour
pub mod Unread
mod Tests
use vivi.Base.{
  ℕ, zero, suc, ◌+◌, ◌-◌, ◌%◌, Bool, true, false, not, ◌&&◌, ◌||◌, Option, none, some, List, [],
  ◌∷◌, ◌++◌, map, codes, ◌==◌, is_empty, contains, add, filter, find?, find_index?, get_elem?, take,
  drop, length, last, head?, ltb, leb, count, or_else, is_some, if◌then◌else◌,
}
use mathlib.Core.Option
use mathlib.Core.List.{reverse}
use vivi.Base.Strings.{Text}
use vivi.ChangeReview.{GitChangeStatus, deleted}

pub data ReviewChangeKind : Type 0 where
  file directory embedded_repo : ReviewChangeKind

pub record ReviewChangeItem : Type 0 where
  pub path : Text
  pub status : GitChangeStatus
  pub kind : Option ReviewChangeKind

pub record ReviewQueueItem : Type 0 where
  pub path : Text
  pub change : Option ReviewChangeItem
  pub comment_count : ℕ
  pub pending_draft_count : Option ℕ
  pub unread : Bool

pub data Direction : Type 0 where
  next previous : Direction

abbrev pub is_deleted : GitChangeStatus → Bool
is_deleted deleted = true
is_deleted _ = false

abbrev pub is_file : ReviewChangeKind → Bool
is_file file = true
is_file _ = false

-- isReviewChangeOpenable of ui/src/state/git-review.ts
unfoldable pub is_review_change_openable : ReviewChangeItem → Bool
is_review_change_openable c = not (is_deleted c.status) && is_file (or_else c.kind file)

unfoldable pub is_review_queue_item_openable : ReviewQueueItem → Bool
unfolding is_review_change_openable
is_review_queue_item_openable item = elim item.change [
  | none ↦ true
  | some c ↦ is_review_change_openable c
]

abbrev pub has_path : Text → ReviewQueueItem → Bool
has_path p item = item.path == p

abbrev pub path_of : ReviewQueueItem → Text
path_of item = item.path

abbrev pub last? : List ReviewQueueItem → Option ReviewQueueItem
last? [] = none
last? (x ∷ xs) = some (last x xs)

-- The entry at the end that the direction comes from.
abbrev pub entry_end : Direction → List ReviewQueueItem → Option ReviewQueueItem
entry_end next items = head? items
entry_end previous items = last? items

-- `(index + offset + length) % length`, for an index below the length.
abbrev pub turned : Direction → ℕ → ℕ → ℕ
turned next i n = (i + 1 + n) % n
turned previous i n = (i + n - 1) % n

-- `currentPath ? reviewable.indexOf(currentPath) : -1`
abbrev pub current_index : List ReviewQueueItem → Option Text → Option ℕ
current_index items none = none
current_index items (some p) = if is_empty p then none else find_index? (has_path p) items

abbrev pub step_from : List ReviewQueueItem → Direction → Option ℕ → Option ReviewQueueItem
step_from items d none = entry_end d items
step_from items d (some i) = get_elem? items (turned d i (length items))

-- Also nextReviewQueuePath of git-review.ts, which walks the changes in the same way.
unfoldable pub next_review_queue_item_path :
    List ReviewQueueItem → Option Text → Direction → Option Text
unfolding is_review_queue_item_openable
next_review_queue_item_path items current d =
    let reviewable = filter is_review_queue_item_openable items in
    Option.map path_of (step_from reviewable d (current_index reviewable current))

-- `(i - 1 + n) % n` or `(i + 1) % n`
abbrev pub target_index : Direction → ℕ → ℕ → ℕ
target_index next i n = (i + 1) % n
target_index previous i n = (i + n - 1) % n

-- The target, unless it is the completed file itself.
abbrev pub target_or :
    Text → Option ReviewQueueItem → Option ReviewQueueItem → Option ReviewQueueItem
target_or completed none other = other
target_or completed (some item) other = if item.path == completed then other else some item

abbrev pub step_after :
    List ReviewQueueItem
    → List ReviewQueueItem
    → Text
    → Direction
    → Option ℕ
    → Option ReviewQueueItem
step_after reviewable remaining completed d none = entry_end d remaining
step_after reviewable remaining completed d (some i) =
    target_or completed (get_elem? reviewable (target_index d i (length reviewable)))
      (entry_end d remaining)

unfoldable pub next_review_queue_item_path_after_completion :
    List ReviewQueueItem → Text → Direction → Option Text
unfolding is_review_queue_item_openable
next_review_queue_item_path_after_completion items completed d =
    let reviewable = filter is_review_queue_item_openable items in
    let remaining = filter (λ item. not (item.path == completed)) reviewable in
    if leb (length reviewable) 1
    then none
    else Option.map path_of
        (step_after reviewable remaining completed d (find_index? (has_path completed) reviewable))

unfoldable pub latest_unread_review_item_path : List ReviewQueueItem → Option Text
unfolding is_review_queue_item_openable
latest_unread_review_item_path items =
    Option.map path_of (find? (λ item. item.unread && is_review_queue_item_openable item) items)

pub record ReviewQueuePosition : Type 0 where
  pub active_path : Option Text
  pub active_index : Option ℕ
  pub reviewable_total : ℕ
  pub active_item : Option ReviewQueueItem

abbrev pub item_at : List ReviewQueueItem → Option ℕ → Option ReviewQueueItem
item_at items none = none
item_at items (some i) = get_elem? items i

unfoldable pub review_queue_position : List ReviewQueueItem → Option Text → ReviewQueuePosition
unfolding is_review_queue_item_openable
review_queue_position items current =
    let reviewable = filter is_review_queue_item_openable items in
    let index = current_index reviewable current in
    record {
      active_path = Option.map path_of (item_at reviewable index);
      active_index = index;
      reviewable_total = length reviewable;
      active_item = item_at reviewable index;
    }

pub record ReviewQueueProgress : Type 0 where
  pub total : ℕ
  pub seen : ℕ
  pub unread_count : ℕ

unfoldable pub summarize_review_queue : List ReviewQueueItem → ReviewQueueProgress
summarize_review_queue items =
    let unread_items = length (filter (λ item. item.unread) items) in
    record { total = length items; seen = length items - unread_items; unread_count = unread_items }

pub record ReviewQueueSignalCounts : Type 0 where
  pub all_items : ℕ
  pub unread_items : ℕ
  pub drafts : ℕ
  pub changed : ℕ

unfoldable pub review_queue_signal_counts : List ReviewQueueItem → ReviewQueueSignalCounts
review_queue_signal_counts items = record {
  all_items = length items;
  unread_items = length (filter (λ item. item.unread) items);
  drafts = length (filter (λ item. ltb 0 (or_else item.pending_draft_count 0)) items);
  changed = length (filter (λ item. is_some item.change) items);
}

-- What the function returns, and what it leaves in the set of known paths.
pub record SyncedPaths : Type 0 where
  pub paths : List Text
  pub known : List Text

abbrev pub add_all : List Text → List Text → List Text
add_all known [] = known
add_all known (p ∷ ps) = add_all (add known p) ps

-- The result equals `paths` where the code returns that array itself.
unfoldable pub sync_unread_review_paths : List Text → List Text → List Text → SyncedPaths
sync_unread_review_paths paths items known =
    let new_paths = filter (λ p. not (contains known p)) items in
    record {
      paths =
          reverse new_paths ++ filter (λ p. contains items p && not (contains new_paths p)) paths;
      known = add_all (filter (contains items) known) new_paths;
    }

abbrev pub to_front : List ReviewQueueItem → ℕ → Option ReviewQueueItem → List ReviewQueueItem
to_front items i none = items
to_front items i (some active) = active ∷ (take i items ++ drop (suc i) items)

abbrev pub pinned_at : List ReviewQueueItem → Option ℕ → List ReviewQueueItem
pinned_at items none = items
pinned_at items (some zero) = items
pinned_at items (some (suc i)) = to_front items (suc i) (get_elem? items (suc i))

unfoldable pub pin_active_review_queue_item :
    List ReviewQueueItem → Option Text → List ReviewQueueItem
unfolding is_review_queue_item_openable
pin_active_review_queue_item items none = items
pin_active_review_queue_item items (some p) =
    if is_empty p
    then items
    else pinned_at items
        (find_index? (λ item. (item.path == p) && is_review_queue_item_openable item) items)
