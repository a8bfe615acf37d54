-- ===== src/CommentStore/Jobs.antt =====
-- server/typescript/infrastructure/node-comment-store.ts: the write queue, whose jobs run one after the other on the three
-- files, and the lists that the files hold.
use vivi.Base.{◌≡◌, Option, none, some, List, [], ◌∷◌, ◌++◌}
use vivi.Base.Strings.{Text}
use vivi.Comments.{ViviComment}
use vivi.CommentFields.{Result, ok, err}
use vivi.CommentStore.{
  DraftReviewComment, ThreadEvent, sourced_comment, sourced_draft, pushed, update_comment,
  update_draft_review_comment, delete_draft_review_comment,
}
use vivi.CommentStore.Jsonl.{Codec, rewrite}

-- The texts of comments.jsonl, draft-review-comments.jsonl and comment-threads.jsonl, where they exist.
pub record Files : Type 0 where
  pub comments : Option Text
  pub drafts : Option Text
  pub events : Option Text

-- What is stored, as lists.
pub record Store : Type 0 where
  pub comments : List ViviComment
  pub drafts : List DraftReviewComment
  pub events : List ThreadEvent

pub data Job : Type 0 where
  create_comment : ViviComment → Job
  change_comment : ViviComment → Job
  append_event : ThreadEvent → Job
  create_draft : DraftReviewComment → Job
  change_draft : Text → Text → Text → Job
  delete_draft : Text → Job

pub record Codecs : Type 0 where
  pub comment : Codec ViviComment
  pub draft : Codec DraftReviewComment
  pub event : Codec ThreadEvent

abbrev pub same_event : ThreadEvent → ThreadEvent
same_event e = e

abbrev pub in_comments : Files → Result (Option Text) → Result Files
in_comments files (ok file) = ok (record files { comments = file })
in_comments files (err e) = err e

abbrev pub in_drafts : Files → Result (Option Text) → Result Files
in_drafts files (ok file) = ok (record files { drafts = file })
in_drafts files (err e) = err e

abbrev pub in_events : Files → Result (Option Text) → Result Files
in_events files (ok file) = ok (record files { events = file })
in_events files (err e) = err e

abbrev pub Change : Type 0 → Type 0
Change A = List A → Result (List A)

module _ (c : Codecs) (files : Files) where
  unfoldable pub on_comments : Change ViviComment → Result Files
  unfolding rewrite
  on_comments f = in_comments files (rewrite c.comment sourced_comment f files.comments)

  unfoldable pub on_drafts : Change DraftReviewComment → Result Files
  unfolding rewrite
  on_drafts f = in_drafts files (rewrite c.draft sourced_draft f files.drafts)

  -- A job on the files.
  unfoldable pub run_job : Job → Result Files
  run_job (create_comment comment) = on_comments (pushed comment)
  run_job (change_comment comment) = on_comments (update_comment comment)
  run_job (append_event e) = in_events files (rewrite c.event same_event (pushed e) files.events)
  run_job (create_draft d) = on_drafts (pushed d)
  run_job (change_draft id body at) = on_drafts (update_draft_review_comment id body at)
  run_job (delete_draft id) = on_drafts (delete_draft_review_comment id)

-- `enqueueWrite`: a job that throws rejects its caller's promise with its message, leaves the files and does not stop the
-- queue. The outcomes of the jobs, and the files after them.
unfoldable pub run_queue : Codecs → Files → List Job → List (Option Text) × Files
run_queue c files [] = ([], files)
run_queue c files (job ∷ jobs) = elim (run_job c files job) [
  | ok next ↦ (none ∷ (run_queue c next jobs).0, (run_queue c next jobs).1)
  | err e ↦ (some e ∷ (run_queue c files jobs).0, (run_queue c files jobs).1)
]

abbrev pub with_comments : Store → Result (List ViviComment) → Result Store
with_comments s (ok comments) = ok (record s { comments = comments })
with_comments s (err e) = err e

abbrev pub with_drafts : Store → Result (List DraftReviewComment) → Result Store
with_drafts s (ok drafts) = ok (record s { drafts = drafts })
with_drafts s (err e) = err e

-- What a job means for the lists.
unfoldable pub apply_job : Store → Job → Result Store
apply_job s (create_comment comment) = with_comments s (pushed comment s.comments)
apply_job s (change_comment comment) = with_comments s (update_comment comment s.comments)
apply_job s (append_event e) = ok (record s { events = s.events ++ e ∷ [] })
apply_job s (create_draft d) = with_drafts s (pushed d s.drafts)
apply_job s (change_draft id body at) =
    with_drafts s (update_draft_review_comment id body at s.drafts)
apply_job s (delete_draft id) = with_drafts s (delete_draft_review_comment id s.drafts)

unfoldable pub apply_queue : Store → List Job → List (Option Text) × Store
apply_queue s [] = ([], s)
apply_queue s (job ∷ jobs) = elim (apply_job s job) [
  | ok next ↦ (none ∷ (apply_queue next jobs).0, (apply_queue next jobs).1)
  | err e ↦ (some e ∷ (apply_queue s jobs).0, (apply_queue s jobs).1)
]

-- The comment or draft that a job stores names its source, as those that the service makes do.
abbrev pub IsSourced : Job → Type 0
IsSourced (create_comment c) = sourced_comment c ≡ c
IsSourced (change_comment c) = sourced_comment c ≡ c
IsSourced (create_draft d) = sourced_draft d ≡ d
IsSourced _ = Unit
