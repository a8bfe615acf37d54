-- ===== src/CommentStore/Activities.antt =====
-- server/typescript/infrastructure/node-comment-store.ts: the activities of a thread, which are its stored events, and the
-- event that tells that somebody has read it.
use vivi.Base.{
  ℕ, suc, min, max, Bool, true, false, ◌&&◌, Option, none, some, List, [], ◌∷◌, ◌++◌, codes, show,
  ◌==◌, same_option, or_else, or_option, filter, find?, find_index?, drop, take, any, if◌then◌else◌,
  is_empty,
}
use mathlib.Core.Option
use vivi.Base.Strings.{Text}
use vivi.Comments.{CommentActor, CommentStatus, CommentThread, unknown_source, is_thread}
use vivi.CommentFields.{Result, ok, err}
use vivi.CommentStore.{ThreadEvent, ThreadEventType, thread_read}

-- The types of activities are those of the events, with "_" for ".".
pub record CommentThreadActivityEvent : Type 0 where
  pub id : Text
  pub thread_id : Text
  pub kind : ThreadEventType
  pub actor : CommentActor
  pub comment_id : Option Text
  pub previous_status : Option CommentStatus
  pub status : Option CommentStatus
  pub client_event_id : Option Text
  pub lease_expires_at : Option Text
  pub created_at : Text

abbrev pub unknown_actor : CommentActor
unknown_actor = record { id = codes "unknown"; kind = unknown_source; display_name = none }

unfoldable pub public_activity_event : ThreadEvent → ℕ → CommentThreadActivityEvent
unfolding show
public_activity_event e index = record {
  id = or_else e.id (codes "legacy-activity-" ++ show index);
  thread_id = or_else (or_option e.thread_id (Option.map (λ t. t.id) e.thread)) [];
  kind = e.kind;
  actor = or_else e.actor unknown_actor;
  comment_id = e.comment_id;
  previous_status = e.previous_status;
  status = e.status;
  client_event_id = e.client_event_id;
  lease_expires_at = e.lease_expires_at;
  created_at = or_else (or_option e.at (Option.map (λ t. t.created_at) e.thread)) [];
}

-- `events.map(publicActivityEvent)`, from an index on.
abbrev pub public_from : ℕ → List ThreadEvent → List CommentThreadActivityEvent
unfolding public_activity_event
public_from index [] = []
public_from index (e ∷ es) = public_activity_event e index ∷ public_from (suc index) es

abbrev pub has_activity_id : Text → CommentThreadActivityEvent → Bool
has_activity_id id a = a.id == id

abbrev pub is_of_thread : Text → CommentThreadActivityEvent → Bool
is_of_thread id a = a.thread_id == id

-- `findIndex(…) + 1`: 0 without a cursor, or if nothing has its id.
abbrev pub start_after : Option Text → List CommentThreadActivityEvent → ℕ
start_after none events = 0
start_after (some id) events =
    if is_empty id
    then 0
    else elim (find_index? (has_activity_id id) events) [ none ↦ 0 | some i ↦ suc i ]

-- `slice(0, Math.min(Math.max(first, 1), 500))`
abbrev pub page_size : ℕ → ℕ
page_size first = min (max first 1) 500

unfoldable pub list_comment_thread_activities :
    Text → Option Text → ℕ → List ThreadEvent → List CommentThreadActivityEvent
list_comment_thread_activities thread_id after first events =
    let activities = public_from 0 events in
    take (page_size first)
      (filter (is_of_thread thread_id) (drop (start_after after activities) activities))

abbrev pub is_read : ThreadEventType → Bool
is_read thread_read = true
is_read _ = false

abbrev pub is_receipt : CommentActor → Text → CommentThreadActivityEvent → Bool
is_receipt actor client_event_id a =
    is_read a.kind
    && (a.actor.id == actor.id)
    && same_option a.client_event_id (some client_event_id)

-- The receipt that is there already, if the client names its event.
unfoldable pub existing_receipt :
    Text → CommentActor → Option Text → List ThreadEvent → Option CommentThreadActivityEvent
unfolding list_comment_thread_activities
existing_receipt thread_id actor none events = none
existing_receipt thread_id actor (some client) events =
    if is_empty client
    then none
    else find? (is_receipt actor client) (list_comment_thread_activities thread_id none 500 events)

abbrev pub read_event : Text → CommentActor → Option Text → Text → Text → ThreadEvent
read_event thread_id actor client id now = record {
  kind = thread_read;
  at = some now;
  thread = none;
  thread_id = some thread_id;
  status = none;
  previous_status = none;
  comment_id = none;
  client_event_id = client;
  lease_expires_at = none;
  actor = some actor;
  id = some id;
}

-- The receipt that is there, or a new event and what it is as an activity.
unfoldable pub answered :
    Option CommentThreadActivityEvent
    → ThreadEvent
    → CommentThreadActivityEvent × Option ThreadEvent
unfolding public_activity_event
answered (some receipt) event = (receipt, none)
answered none event = (public_activity_event event 0, some event)

-- `appendThreadReadActivity` over the listed threads and the events: what it returns, and the event that it appends if
-- any. The fresh id and the time are arguments.
unfoldable pub append_thread_read_activity :
    List CommentThread
    → List ThreadEvent
    → Text
    → CommentActor
    → Option Text
    → Text
    → Text
    → Result (CommentThreadActivityEvent × Option ThreadEvent)
unfolding existing_receipt answered
append_thread_read_activity threads events thread_id actor client id now =
    if any (is_thread thread_id) threads
    then ok (
        answered (existing_receipt thread_id actor client events)
          (read_event thread_id actor client id now))
    else err (codes "comment thread not found")
