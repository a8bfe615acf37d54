-- ===== src/CommentStore.antt =====
-- server/typescript/infrastructure/node-comment-store.ts and the records of domain/comments.ts that it stores: what the
-- jobs of the write queue do to the lists of comments, drafts and thread events.
pub mod Jsonl
pub mod Jobs
pub mod Refinement
mod Formats
pub mod Threads
pub mod Activities
pub mod Paging
pub mod Receipts
mod Tests
use vivi.Base.{
  ℕ, zero, suc, Bool, Option, none, some, List, [], ◌∷◌, ◌++◌, codes, ◌==◌, find_index?, set, take,
  drop, get_elem?, or_else,
}
use vivi.Base.Strings.{Text}
use vivi.Comments.{
  ViviComment, CommentThread, CommentAnchor, CommentActor, CommentStatus, CommentSource,
  unknown_source, CommentViewerKind,
}
use vivi.CommentFields.{Result, ok, err}

pub record DraftReviewComment : Type 0 where
  pub id : Text
  pub thread_id : Option Text
  pub path : Text
  pub viewer_kind : CommentViewerKind
  pub anchor : CommentAnchor
  pub body : Text
  pub created_by : Option CommentActor
  pub author : Option Text
  pub comment_source : Option CommentSource
  pub created_at : Text
  pub updated_at : Text

pub data ThreadEventType : Type 0 where
  thread_created thread_status_changed thread_claimed thread_claim_released thread_read
        comment_added comment_updated :
      ThreadEventType

pub record ThreadEvent : Type 0 where
  pub kind : ThreadEventType
  pub at : Option Text
  pub thread : Option CommentThread
  pub thread_id : Option Text
  pub status : Option CommentStatus
  pub previous_status : Option CommentStatus
  pub comment_id : Option Text
  pub client_event_id : Option Text
  pub lease_expires_at : Option Text
  pub actor : Option CommentActor
  pub id : Option Text

-- `source: comment.source ?? "unknown"`
abbrev pub sourced_comment : ViviComment → ViviComment
sourced_comment c = record c { comment_source = some (or_else c.comment_source unknown_source) }

abbrev pub sourced_draft : DraftReviewComment → DraftReviewComment
sourced_draft d = record d { comment_source = some (or_else d.comment_source unknown_source) }

abbrev pub has_comment_id : Text → ViviComment → Bool
has_comment_id i c = c.id == i

abbrev pub has_draft_id : Text → DraftReviewComment → Bool
has_draft_id i d = d.id == i

-- The index that `findIndex` found, or the error that is thrown without one.
abbrev pub found_or : Option ℕ → Text → Result ℕ
found_or none message = err message
found_or (some i) message = ok i

-- `xs[index] = f(xs[index])`
abbrev pub edit_at {ℓ} : {A : Type ℓ} → (A → A) → List A → ℕ → List A
edit_at f [] i = []
edit_at f (x ∷ xs) zero = f x ∷ xs
edit_at f (x ∷ xs) (suc i) = x ∷ edit_at f xs i

-- The job of `createComment`, `createDraftReviewComment` and `appendThreadEvent`.
abbrev pub pushed {ℓ} : {A : Type ℓ} → A → List A → Result (List A)
pushed x xs = ok (xs ++ x ∷ [])

-- The job of `updateComment`.
unfoldable pub update_comment : ViviComment → List ViviComment → Result (List ViviComment)
update_comment c comments =
    elim (found_or (find_index? (has_comment_id c.id) comments) (codes "comment not found")) [
      | ok i ↦ ok (set comments i c)
      | err e ↦ err e
    ]

abbrev pub edited : Text → Text → DraftReviewComment → DraftReviewComment
edited body at d = record d { body = body; updated_at = at }

abbrev pub draft_index : Text → List DraftReviewComment → Result ℕ
draft_index id drafts =
    found_or (find_index? (has_draft_id id) drafts) (codes "draft review comment not found")

-- The job of `updateDraftReviewComment`.
unfoldable pub update_draft_review_comment :
    Text → Text → Text → List DraftReviewComment → Result (List DraftReviewComment)
update_draft_review_comment id body at drafts = elim (draft_index id drafts) [
  | ok i ↦ ok (edit_at (edited body at) drafts i)
  | err e ↦ err e
]

-- The job of `deleteDraftReviewComment`: `drafts.splice(index, 1)`.
unfoldable pub delete_draft_review_comment :
    Text → List DraftReviewComment → Result (List DraftReviewComment)
delete_draft_review_comment id drafts = elim (draft_index id drafts) [
  | ok i ↦ ok (take i drafts ++ drop (suc i) drafts)
  | err e ↦ err e
]
