-- ===== src/ViewerService/Tests.antt =====
-- The service at work, and the theorems there.
use vivi.Base.{
  ◌≡◌, refl, ◌==◌, not, Option, none, some, List, [], ◌∷◌, ◌++◌, codes, find?, filter, map, show,
  any, false,
}
use vivi.Base.Dict.{lookup, put}
use mathlib.Core.Option
use vivi.Base.Strings.{Text}
use vivi.Comments.{
  text, open_status, is_thread, unknown_source, build_comment_threads, add_comment, merge_comment,
  comment_status_rank,
}
use vivi.Comments.Samples.{place, comment}
use vivi.Comments.Grouping.{belongs}
use vivi.CommentInput.{CreateCommentInput, normalize_comment_update_input}
use vivi.CommentStore
use vivi.CommentStore.{DraftReviewComment, delete_draft_review_comment}
use vivi.CommentStore.Jobs.{apply_job}
use vivi.CommentStore.Threads.{list_comment_threads, no_filters}
use vivi.CommentStore.Activities.{list_comment_thread_activities, public_activity_event}
use vivi.ViewerService.{
  Environment, World, publish_draft_review_comments, batch_id, is_selected,
  create_normalized_comment, new_comment, legacy_actor, publish_latest_activity, publish_each,
  publish_one, draft_only_publish_thread_id, draft_only_thread_target_draft_id, do_job,
}
use vivi.Base.Json.{Json, object, field, string, end, get}
use vivi.Comments.{ViviComment}
use vivi.CommentFields.{ok, ◌>>=◌, is_record, string_field}
use vivi.Base.{trim, is_space}
use vivi.ViewerService.Requests.{update_comment}
use vivi.ViewerService.Updating.{IsUpdate, update_comment-IsUpdate}
use vivi.ViewerService.Publishing.{IsPublished, publish_draft_review_comments-IsPublished}
use vivi.ViewerService.Creating.{
  mentions, first, after_create, status_and_comments, create_normalized_comment-opens,
}

runs : Unit {0}
unfolding publish_draft_review_comments create_normalized_comment new_comment legacy_actor
    publish_latest_activity publish_each publish_one draft_only_publish_thread_id
    draft_only_thread_target_draft_id do_job apply_job delete_draft_review_comment lookup put ◌==◌
    build_comment_threads add_comment merge_comment comment_status_rank
    list_comment_thread_activities public_activity_event show
runs = tt

abbrev env : Environment
env = record { random_uuid = λ n. codes "u" ++ show n; iso_now = λ n. codes "2024-01-01" }

abbrev draft : Text → Option Text → DraftReviewComment
draft id thread = record {
  id = id;
  thread_id = thread;
  path = codes "a.md";
  viewer_kind = text;
  anchor = place;
  body = codes "?";
  created_by = none;
  author = none;
  comment_source = none;
  created_at = codes "2024-01-01";
  updated_at = codes "2024-01-01";
}

abbrev drafted : World
drafted = record {
  store = record {
    comments = comment (codes "c1") none open_status (codes "2024-01-01") ∷ [];
    drafts =
        draft (codes "d1") none
        ∷ draft (codes "d2") (some (codes "draft-thread:d1:x"))
        ∷ draft (codes "d3") none
        ∷ [];
    events = [];
  };
  calls = 0;
  sent = [];
}

abbrev chosen_ids : List Text
chosen_ids = codes "d1" ∷ codes "d2" ∷ []

-- A draft that answers another draft is published into the thread of that one.
together :
    map
      (λ c. c.thread_id)
      (publish_draft_review_comments env chosen_ids none drafted).0.store.comments
    ≡ none ∷ some (codes "u2") ∷ some (codes "u2") ∷ []
unfolding runs
together = refl

publish_draft_review_comments-IsPublished_example :
    IsPublished
      (batch_id env drafted)
      (filter (is_selected chosen_ids) drafted.store.drafts)
      (filter (λ d. not (is_selected chosen_ids d)) drafted.store.drafts)
      drafted
      (publish_draft_review_comments env chosen_ids none drafted)
publish_draft_review_comments-IsPublished_example =
    publish_draft_review_comments-IsPublished env chosen_ids none drafted

abbrev said_input : CreateCommentInput
said_input = record {
  thread_id = none;
  path = codes "a.md";
  viewer_kind = text;
  review_batch_id = none;
  anchor = place;
  body = codes "Why?";
  actor = none;
  author = some (codes "Ann");
  comment_source = unknown_source;
  status = open_status;
}

no_comments : any (belongs (first env said_input drafted).id) drafted.store.comments ≡ false
unfolding runs first
no_comments = refl

no_events : any (mentions (first env said_input drafted).id) drafted.store.events ≡ false
no_events = refl

create_normalized_comment-opens_example :
    Option.map status_and_comments (
      find? (is_thread (first env said_input drafted).id) (
        list_comment_threads no_filters
          (after_create env said_input drafted).store.comments
          (after_create env said_input drafted).store.events))
    ≡ some (open_status, first env said_input drafted ∷ [])
create_normalized_comment-opens_example =
    create_normalized_comment-opens env said_input drafted no_comments no_events

abbrev new_body : Option Json
new_body = some (object (field (codes "body") (string (codes " Because. ")) end))

abbrev rewritten : ViviComment
rewritten = record (comment (codes "c1") none open_status (codes "2024-01-01")) {
  body = codes "Because.";
}

accepted : (update_comment env (codes " c1 ") new_body drafted).1 ≡ ok rewritten
unfolding runs update_comment trim is_space normalize_comment_update_input ◌>>=◌ is_record get
    string_field CommentStore.update_comment
accepted = refl

update_comment-IsUpdate_example :
    (current : ViviComment) × IsUpdate env
      (codes " c1 ")
      new_body
      drafted
      rewritten
      current
      (update_comment env (codes " c1 ") new_body drafted).0
update_comment-IsUpdate_example =
    update_comment-IsUpdate env (codes " c1 ") new_body drafted rewritten accepted
