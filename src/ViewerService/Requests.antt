-- ===== src/ViewerService/Requests.antt =====
-- server/typescript/application/viewer-service.ts: the requests on comments and drafts, with their checks. Reading a file
-- of the workspace is a parameter, whose error is the message that it throws. The requests come one at a time. The
-- store answers with its lists; of its errors there are those of a record that is missing.
use vivi.Base.{
  ◌+◌, Option, none, some, List, [], ◌∷◌, ◌++◌, codes, is_empty, trim, find?, or_else,
  if◌then◌else◌,
}
use vivi.Base.Strings.{Text}
use vivi.Base.Json.{Json, get}
use vivi.FsNode.{FilePayload}
use vivi.Comments.{ViviComment, CommentThread, CommentActor, apply_comment_update}
use vivi.CommentFields.{Result, ok, err, ◌>>=◌, is_record, string_field}
use vivi.CommentInput.{
  CreateCommentInput, normalize_comment_create_input, normalize_comment_update_input,
  CommentListFilters,
}
use vivi.CommentStore.{
  DraftReviewComment, ThreadEvent, comment_updated, has_comment_id, has_draft_id, edited,
}
use vivi.CommentStore.Jobs.{change_comment, change_draft, delete_draft}
use vivi.CommentStore.Threads.{list_comment_threads, no_filters}
use vivi.CommentStore.Activities.{CommentThreadActivityEvent, append_thread_read_activity}
use vivi.ViewerService.{
  Environment, World, called, do_job, comment_event, publish_latest_activity,
  create_normalized_comment, fresh_comment, new_draft, publish_draft_review_comments, batch_id,
}

unfoldable pub path_from_comment_input : Option Json → Result Text
unfolding ◌>>=◌
path_from_comment_input input = do
  fs ← is_record input (codes "invalid comment payload")
  string_field (get fs (codes "path")) (codes "path")

module _ (read_file : Text → Result FilePayload) where
  -- The checked input of a new comment or draft.
  unfoldable pub checked_input : Option Json → Result CreateCommentInput
  unfolding ◌>>=◌ path_from_comment_input
  checked_input input = do
    path ← path_from_comment_input input
    file ← read_file path
    normalize_comment_create_input input (record {
      resolved_path = file.path;
      file_hash = some file.etag;
      viewer_kind = file.viewer_kind;
    })

  unfoldable pub create_comment : Environment → Option Json → World → World × Result ViviComment
  unfolding checked_input create_normalized_comment
  create_comment env input w = elim (checked_input input) [
    | err e ↦ (w, err e)
    | ok i ↦ (create_normalized_comment env i w, ok (fresh_comment env i w))
  ]

  unfoldable pub create_draft_review_comment :
      Environment → Option Json → World → World × Result DraftReviewComment
  unfolding checked_input new_draft
  create_draft_review_comment env input w = elim (checked_input input) [
    | err e ↦ (w, err e)
    | ok i ↦ (
      record w {
        calls = w.calls + 2;
        store = record w.store { drafts = w.store.drafts ++ new_draft env i w.calls ∷ [] };
      },
      ok (new_draft env i w.calls),
    )
  ]

-- The trimmed body of an update of a draft.
unfoldable pub draft_update_body : Option Json → Result Text
unfolding ◌>>=◌
draft_update_body input = do
  fs ← is_record input (codes "invalid draft review comment update payload")
  string_field (get fs (codes "body")) (codes "draft review comment body")

-- What a request answers after a job of the store: the error of the job, if there is one.
abbrev pub answer {ℓ} : {A : Type ℓ} → A → World × Option Text → World × Result A
answer a (w, none) = (w, ok a)
answer a (w, some e) = (w, err e)

-- The draft of an id after its edit at the time of the call, or the error of the store.
unfoldable pub edit_draft :
    Text → Text → Text → Option DraftReviewComment → World → World × Result DraftReviewComment
unfolding do_job
edit_draft id body now none w = (w, err (codes "draft review comment not found"))
edit_draft id body now (some d) w = answer (edited body now d) (do_job (change_draft id body now) w)

unfoldable pub update_draft_review_comment :
    Environment → Text → Option Json → World → World × Result DraftReviewComment
unfolding draft_update_body edit_draft
update_draft_review_comment env id input w =
    if is_empty (trim id)
    then (w, err (codes "draft review comment id is required"))
    else elim (draft_update_body input) [
      | err e ↦ (w, err e)
      | ok body ↦
          edit_draft (trim id) body (env.iso_now w.calls)
            (find? (has_draft_id (trim id)) w.store.drafts) (called w)
    ]

unfoldable pub drop_draft :
    Text → Option DraftReviewComment → World → World × Result DraftReviewComment
unfolding do_job
drop_draft id none w = (w, err (codes "draft review comment not found"))
drop_draft id (some d) w = answer d (do_job (delete_draft id) w)

unfoldable pub delete_draft_review_comment : Text → World → World × Result DraftReviewComment
unfolding drop_draft
delete_draft_review_comment id w =
    if is_empty (trim id)
    then (w, err (codes "draft review comment id is required"))
    else drop_draft (trim id) (find? (has_draft_id (trim id)) w.store.drafts) w

-- The event of a comment that the store has changed, and what the subscribers are told.
unfoldable pub note_changed : Environment → ViviComment → World → World
unfolding publish_latest_activity
note_changed env c w =
    publish_latest_activity (or_else c.thread_id c.id) comment_updated (record (called w) {
      store = record w.store {
        events =
            w.store.events
            ++ comment_event comment_updated (or_else c.thread_id c.id) c c.updated_at
                (env.random_uuid w.calls)
              ∷ [];
      };
    })

-- The event follows the store's `updateComment`, unless that one fails.
abbrev pub after_change :
    Environment → ViviComment → World × Option Text → World × Result ViviComment
after_change env c (w, none) = (note_changed env c w, ok c)
after_change env c (w, some e) = (w, err e)

unfoldable pub changed_comment : Environment → ViviComment → World → World × Result ViviComment
unfolding do_job note_changed
changed_comment env c w = after_change env c (do_job (change_comment c) w)

-- The change of a comment that is there, by the check of its input.
unfoldable pub update_found :
    Environment → ViviComment → Result Text → World → World × Result ViviComment
unfolding changed_comment apply_comment_update
update_found env current (err e) w = (w, err e)
update_found env current (ok body) w =
    let c = apply_comment_update current (some body) (env.iso_now w.calls) in
    changed_comment env c (called w)

unfoldable pub update_comment :
    Environment → Text → Option Json → World → World × Result ViviComment
unfolding update_found
update_comment env id input w =
    if is_empty (trim id)
    then (w, err (codes "comment id is required"))
    else elim (find? (has_comment_id (trim id)) w.store.comments) [
      | none ↦ (w, err (codes "comment not found"))
      | some current ↦ update_found env current (normalize_comment_update_input input) w
    ]

-- What `appendThreadReadActivity` answers, stored and told to the subscribers. A new event takes a fresh id and the time.
abbrev pub observed :
    Result (CommentThreadActivityEvent × Option ThreadEvent)
    → World
    → World × Result CommentThreadActivityEvent
observed (err e) w = (w, err e)
observed (ok (a, none)) w = (record w { sent = w.sent ++ a ∷ [] }, ok a)
observed (ok (a, some e)) w = (
  record w {
    calls = w.calls + 2;
    sent = w.sent ++ a ∷ [];
    store = record w.store { events = w.store.events ++ e ∷ [] };
  },
  ok a,
)

unfoldable pub observe_comment_thread_read :
    Environment
    → Text
    → CommentActor
    → Option Text
    → World
    → World × Result CommentThreadActivityEvent
unfolding list_comment_threads append_thread_read_activity
observe_comment_thread_read env thread_id actor client w =
    observed
      (append_thread_read_activity (list_comment_threads no_filters w.store.comments w.store.events)
        w.store.events thread_id actor client (env.random_uuid w.calls) (env.iso_now (w.calls + 1)))
      w

pub record PublishedReview : Type 0 where
  pub review_batch_id : Text
  pub published_at : Text
  pub threads : List CommentThread

abbrev pub of_batch : Text → CommentListFilters
of_batch batch = record { path = none; status = none; review_batch_id = some batch }

-- `publishDraftReviewComments` with what it returns: the threads of the batch.
unfoldable pub publish_review :
    Environment → List Text → Option CommentActor → World → World × Result PublishedReview
unfolding publish_draft_review_comments list_comment_threads
publish_review env ids actor w =
    let published = publish_draft_review_comments env ids actor w in
    (
      published.0,
      elim published.1 [
        | some e ↦ err e
        | none ↦ ok (record {
          review_batch_id = batch_id env w;
          published_at = env.iso_now w.calls;
          threads =
              list_comment_threads (of_batch (batch_id env w)) published.0.store.comments
                published.0.store.events;
        })
      ],
    )
