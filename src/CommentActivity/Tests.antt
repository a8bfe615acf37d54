-- ===== src/CommentActivity/Tests.antt =====
-- Examples for the activities of threads.
use vivi.Base.{
  ◌≡◌, refl, none, some, List, [], ◌∷◌, codes, ◌==◌, text_lt, trim, is_space, show, filter,
}
use vivi.Base.Strings.{Text}
use vivi.Base.Dict.{lookup}
use vivi.Base.Order.{text_lt_asym, not_lt_trans}
use vivi.Base.Sorting.{IsOrder}
use vivi.Comments.{CommentActor, codex, open_status, CommentThread, new_thread}
use vivi.Comments.Samples.{comment}
use vivi.CommentStore.{ThreadEventType, thread_read, comment_added}
use vivi.CommentStore.Activities.{CommentThreadActivityEvent, is_of_thread}
use vivi.CommentActivity.{
  comment_thread_review_receipt, add_comment_activities, empty_comment_activity_state,
}
use vivi.CommentActivity.Labels.{actor_label, relative_time}
use vivi.CommentActivity.Retaining.{IsDistinct}
use vivi.CommentActivity.Receipts.{comment_thread_review_receipt-add_comment_activities}

abbrev agent : CommentActor
agent = record { id = codes "a"; kind = codex; display_name = none }

abbrev event_at : Text → Text → ThreadEventType → Text → CommentThreadActivityEvent
event_at id thread kind at = record {
  id = id;
  thread_id = thread;
  kind = kind;
  actor = agent;
  comment_id = none;
  previous_status = none;
  status = none;
  client_event_id = none;
  lease_expires_at = none;
  created_at = at;
}

-- What the examples compute.
runs : Unit {0}
unfolding ◌==◌ trim is_space actor_label relative_time show
runs = tt

labelled : actor_label agent ≡ codes "Codex"
unfolding runs
labelled = refl

-- Two days are told in hours until 48 have passed.
two_days : relative_time (λ s. some 0) [] 172800000 ≡ codes "2d ago"
unfolding runs
two_days = refl

abbrev thread : CommentThread
thread = new_thread (comment (codes "t") none open_status (codes "1"))

abbrev events : List CommentThreadActivityEvent
events =
    event_at (codes "e1") (codes "t") thread_read (codes "2")
    ∷ event_at (codes "e2") (codes "t") comment_added (codes "3")
    ∷ []

distinct : IsDistinct events
unfolding runs
distinct = ((refl, tt), (tt, tt))

later-IsOrder : IsOrder text_lt
later-IsOrder = record {
  asym = text_lt_asym;
  not_before_trans = λ x y z h k. not_lt_trans z y x k h;
}

comment_thread_review_receipt-add_comment_activities_example :
    comment_thread_review_receipt text_lt thread (
      lookup thread.id
        (add_comment_activities text_lt empty_comment_activity_state events).by_thread_id)
    ≡ comment_thread_review_receipt text_lt thread (some (filter (is_of_thread thread.id) events))
comment_thread_review_receipt-add_comment_activities_example =
    comment_thread_review_receipt-add_comment_activities text_lt later-IsOrder events thread
      distinct
