-- ===== src/CommentActivity.antt =====
-- ui/src/state/comment-activity.ts: the activities of threads as the workbench keeps them, and whether an agent has seen what
-- a human wrote. `localeCompare` of times and their parsing are parameters.
pub mod Labels
pub mod Finding
pub mod Retaining
pub mod Receipts
mod Tests
use vivi.Base.{
  ℕ, ◌-◌, Bool, true, false, not, ◌&&◌, Option, none, some, List, [], ◌∷◌, ◌++◌, map, codes, ◌==◌,
  text_lt, is_empty, or_else, filter, find?, any, take, contains, if◌then◌else◌,
}
use mathlib.Core.Option
use vivi.Base.Strings.{Text}
use vivi.Base.Dict.{Dict, lookup, put}
use vivi.Base.Sorting.{sort_by}
use vivi.Comments.{
  ViviComment, CommentSource, CommentThread, open_status, resolved, archived, human,
  build_comment_threads, is_thread,
}
use vivi.CommentStore.Activities.{CommentThreadActivityEvent, is_read}
use vivi.CommentActivity.Labels.{actor_label, activity_label}

pub record CommentActivityState : Type 0 where
  pub by_thread_id : Dict (List CommentThreadActivityEvent)
  pub seen_event_ids : List Text

abbrev pub empty_comment_activity_state : CommentActivityState
empty_comment_activity_state = record { by_thread_id = []; seen_event_ids = [] }

abbrev pub max_events_per_thread : ℕ
max_events_per_thread = 24

abbrev pub max_seen_event_ids : ℕ
max_seen_event_ids = 600

abbrev pub is_human : CommentSource → Bool
is_human human = true
is_human _ = false

unfoldable pub is_agent_thread_read : CommentThreadActivityEvent → Bool
is_agent_thread_read e = is_read e.kind && not (is_human e.actor.kind)

unfoldable pub is_human_feedback : ViviComment → Bool
is_human_feedback c = elim c.created_by [
  | some actor ↦ is_human actor.kind
  | none ↦ elim c.comment_source [ some source ↦ is_human source | none ↦ true ]
]

abbrev pub has_same_id : CommentThreadActivityEvent → CommentThreadActivityEvent → Bool
has_same_id latest e = e.id == latest.id

abbrev pub events_or_none :
    Option (List CommentThreadActivityEvent) → List CommentThreadActivityEvent
events_or_none events = or_else events []

module _ (locale_before : Text → Text → Bool) where
  -- `b.createdAt.localeCompare(a.createdAt)` is negative.
  abbrev pub is_newer : CommentThreadActivityEvent → CommentThreadActivityEvent → Bool
  is_newer a b = locale_before b.created_at a.created_at

  -- The recent events, and the latest read of an agent, if there is one.
  unfoldable pub with_latest :
      List CommentThreadActivityEvent
      → Option CommentThreadActivityEvent
      → List CommentThreadActivityEvent
  unfolding sort_by
  with_latest recent none = recent
  with_latest recent (some latest) =
      if any (has_same_id latest) recent
      then recent
      else sort_by is_newer (take 23 recent ++ latest ∷ [])

  unfoldable pub retain_thread_activities :
      List CommentThreadActivityEvent → List CommentThreadActivityEvent
  unfolding with_latest sort_by
  retain_thread_activities events =
      let sorted = sort_by is_newer events in
      with_latest (take max_events_per_thread sorted) (find? is_agent_thread_read sorted)

  unfoldable pub add_comment_activity :
      CommentActivityState → CommentThreadActivityEvent → CommentActivityState
  unfolding retain_thread_activities lookup put
  add_comment_activity state event =
      if contains state.seen_event_ids event.id then state else record {
        by_thread_id =
            put event.thread_id
              (retain_thread_activities
                (events_or_none (lookup event.thread_id state.by_thread_id) ++ event ∷ []))
              state.by_thread_id;
        seen_event_ids = take max_seen_event_ids (event.id ∷ state.seen_event_ids);
      }

  unfoldable pub add_comment_activities :
      CommentActivityState → List CommentThreadActivityEvent → CommentActivityState
  unfolding add_comment_activity
  add_comment_activities state [] = state
  add_comment_activities state (event ∷ events) =
      add_comment_activities (add_comment_activity state event) events

-- `thread.comments.filter(isHumanFeedback).reduce(…, thread.createdAt)`
abbrev pub latest_feedback : Text → List ViviComment → Text
latest_feedback latest [] = latest
latest_feedback latest (c ∷ cs) =
    latest_feedback (if text_lt latest c.updated_at then c.updated_at else latest) cs

unfoldable pub latest_human_feedback_at : CommentThread → Text
unfolding is_human_feedback
latest_human_feedback_at thread =
    latest_feedback thread.created_at (filter is_human_feedback thread.comments)

pub data ReceiptState : Type 0 where
  not_read agent_read : ReceiptState

pub record CommentThreadReviewReceipt : Type 0 where
  pub state : ReceiptState
  pub label : Text
  pub meta : Text
  pub aria_label : Text

abbrev pub unseen : CommentThreadReviewReceipt
unseen = record {
  state = not_read;
  label = codes "Unseen";
  meta = codes "Not yet seen by an agent";
  aria_label = codes "not read by agent";
}

-- The receipt for the latest read of an agent.
unfoldable pub receipt_for :
    CommentThread → Option CommentThreadActivityEvent → CommentThreadReviewReceipt
unfolding actor_label latest_human_feedback_at
receipt_for thread none = unseen
receipt_for thread (some latest) =
    if text_lt latest.created_at (latest_human_feedback_at thread) then unseen else record {
      state = agent_read;
      label = codes "Seen";
      meta = codes "Seen by " ++ actor_label latest.actor;
      aria_label = codes "read by agent";
    }

abbrev pub is_not_read : CommentThreadReviewReceipt → Bool
is_not_read r = elim r.state [ not_read ↦ true | agent_read ↦ false ]

abbrev pub is_open : CommentThread → Bool
is_open thread = elim thread.status [ open_status ↦ true | resolved ↦ false | archived ↦ false ]

-- `thread?.path ?? null`
unfoldable pub comment_activity_thread_path :
    CommentThreadActivityEvent → List ViviComment → Option Text
unfolding build_comment_threads
comment_activity_thread_path event comments =
    Option.map (λ thread. thread.path)
      (find? (is_thread event.thread_id) (build_comment_threads comments))

abbrev pub needs_authoritative_refresh : CommentThreadActivityEvent → Bool
needs_authoritative_refresh event = not (is_read event.kind)

-- Whether to refresh, and the path.
unfoldable pub comment_activity_refresh_target :
    CommentThreadActivityEvent → List ViviComment → Bool × Option Text
unfolding comment_activity_thread_path
comment_activity_refresh_target event comments =
    (needs_authoritative_refresh event, comment_activity_thread_path event comments)

-- The path, unless it is empty, with the time.
abbrev pub observation : Option Text → Option ℕ → Option (Text × ℕ)
observation (some path) (some at) = if is_empty path then none else some (path, at)
observation _ _ = none

unfoldable pub agent_read_review_observation :
    (Text → Option ℕ) → CommentThreadActivityEvent → List ViviComment → Option (Text × ℕ)
unfolding comment_activity_thread_path is_agent_thread_read
agent_read_review_observation parse event comments =
    if is_agent_thread_read event
    then observation (comment_activity_thread_path event comments) (parse event.created_at)
    else none

module _ (locale_before : Text → Text → Bool) where
  unfoldable pub comment_thread_review_receipt :
      CommentThread → Option (List CommentThreadActivityEvent) → CommentThreadReviewReceipt
  unfolding receipt_for is_agent_thread_read sort_by
  comment_thread_review_receipt thread events =
      receipt_for thread
        (find? is_agent_thread_read (sort_by (is_newer locale_before) (events_or_none events)))

  -- The timeline, and the label of its first event.
  unfoldable pub summarize_thread_activity :
      (Text → Option ℕ)
      → Option (List CommentThreadActivityEvent)
      → ℕ
      → List Text × List CommentThreadActivityEvent
  unfolding activity_label is_agent_thread_read sort_by
  summarize_thread_activity parse events now =
      let timeline =
        sort_by (is_newer locale_before) (filter is_agent_thread_read (events_or_none events)) in
      (map (λ event. activity_label parse event now) (take 1 timeline), timeline)

  abbrev pub is_unseen_thread : Dict (List CommentThreadActivityEvent) → CommentThread → Bool
  unfolding comment_thread_review_receipt is_human_feedback lookup
  is_unseen_thread activities thread =
      is_open thread
      && any is_human_feedback thread.comments
      && is_not_read (comment_thread_review_receipt thread (lookup thread.id activities))

  -- The paths, which the code puts into a set.
  unfoldable pub unseen_feedback_paths :
      List ViviComment → Dict (List CommentThreadActivityEvent) → List Text
  unfolding is_unseen_thread build_comment_threads
  unseen_feedback_paths comments activities =
      map (λ thread. thread.path)
        (filter (is_unseen_thread activities) (build_comment_threads comments))
