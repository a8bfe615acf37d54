-- ===== src/CommentStore/Tests.antt =====
-- The comment store at work, and the theorems there.
use vivi.Base.{
  ℕ, ◌+◌, ◌≤◌, ◌<◌, ◌≡◌, refl, none, some, List, [], ◌∷◌, ◌++◌, codes, ◌==◌, find?, filter, count,
  take, length, arith, is_empty, false, text_lt, show,
}
use mathlib.Core.Option
use vivi.Base.Strings.{Text}
use vivi.Comments.{
  ViviComment, CommentActor, human, open_status, resolved, is_thread, build_comment_threads,
  add_comment, merge_comment, comment_status_rank,
}
use vivi.Comments.Samples.{comment}
use vivi.Comments.Grouping.{belongs, fold_thread}
use vivi.CommentFields.{ok}
use vivi.CommentStore.{
  ThreadEvent, ThreadEventType, thread_status_changed, comment_added, sourced_comment,
}
use vivi.CommentStore.Jsonl.{read}
use vivi.CommentStore.Jobs.{
  Files, Store, create_comment, change_comment, delete_draft, run_queue, apply_queue,
}
use vivi.CommentStore.Refinement.{Holds, run_queue-Holds}
use vivi.CommentStore.Formats.{codec_of-IsJson}
use vivi.CommentStore.Formats.Records.{codecs, comments, drafts, events}
use vivi.CommentStore.Threads.{
  list_comment_threads, no_filters, own_events, labelled, find-list_comment_threads, set_status,
  put_thread, project, project_event, project_kind,
}
use vivi.CommentStore.Activities.{
  CommentThreadActivityEvent, public_activity_event, public_from, list_comment_thread_activities,
  has_activity_id, is_of_thread, page_size, existing_receipt, append_thread_read_activity, answered,
  read_event,
}
use vivi.CommentStore.Paging.{list_comment_thread_activities-pages}
use vivi.CommentStore.Receipts.{append_thread_read_activity-once}

runs : Unit {0}
unfolding list_comment_threads build_comment_threads add_comment merge_comment comment_status_rank
    text_lt project project_event project_kind set_status put_thread list_comment_thread_activities
    public_activity_event existing_receipt append_thread_read_activity answered show ◌==◌
runs = tt

abbrev asked : ViviComment
asked = sourced_comment (comment (codes "c1") none open_status (codes "2024-01-02"))

abbrev event : ThreadEventType → Text → ThreadEvent
event kind id = record {
  kind = kind;
  at = some (codes "2024-01-03");
  thread = none;
  thread_id = some (codes "c1");
  status = some resolved;
  previous_status = none;
  comment_id = none;
  client_event_id = none;
  lease_expires_at = none;
  actor = none;
  id = some id;
}

abbrev no_files : Files
no_files = record { comments = none; drafts = none; events = none }

abbrev nothing : Store
nothing = record { comments = []; drafts = []; events = [] }

abbrev moved : ViviComment
moved = record asked { body = codes "!" }

abbrev lost : ViviComment
lost = record asked { id = codes "c9" }

nothing-Holds : Holds codecs no_files nothing
unfolding read
nothing-Holds = (refl, refl, refl, tt, tt)

-- The second job is refused, and the third one runs.
run_queue-Holds_example :
    ((run_queue codecs no_files (
        create_comment asked
        ∷ change_comment lost
        ∷ change_comment moved
        ∷ delete_draft (codes "d")
        ∷ [])).0
      ≡ (apply_queue nothing (
          create_comment asked
          ∷ change_comment lost
          ∷ change_comment moved
          ∷ delete_draft (codes "d")
          ∷ [])).0)
    × Holds codecs
        (run_queue codecs no_files (
          create_comment asked
          ∷ change_comment lost
          ∷ change_comment moved
          ∷ delete_draft (codes "d")
          ∷ [])).1
        (apply_queue nothing (
          create_comment asked
          ∷ change_comment lost
          ∷ change_comment moved
          ∷ delete_draft (codes "d")
          ∷ [])).1
run_queue-Holds_example =
    run_queue-Holds codecs (codec_of-IsJson comments) (codec_of-IsJson drafts)
      (codec_of-IsJson events)
      (create_comment asked
        ∷ change_comment lost
        ∷ change_comment moved
        ∷ delete_draft (codes "d")
        ∷ [])
      no_files nothing (refl, (refl, (refl, (tt, tt)))) nothing-Holds

abbrev two_events : List ThreadEvent
two_events = event thread_status_changed (codes "e1") ∷ event comment_added (codes "e2") ∷ []

find-list_comment_threads_example :
    find? (is_thread (codes "c1")) (list_comment_threads no_filters (asked ∷ []) two_events)
    ≡ Option.map labelled (
        own_events
          (codes "c1")
          (fold_thread none (filter (belongs (codes "c1")) (asked ∷ [])))
          two_events)
find-list_comment_threads_example = find-list_comment_threads (asked ∷ []) two_events (codes "c1")

abbrev activity : ℕ → CommentThreadActivityEvent
activity n = public_activity_event (event thread_status_changed (codes "e1")) n

first_page : list_comment_thread_activities (codes "c1") none 1 two_events ≡ [] ++ activity 0 ∷ []
unfolding runs
first_page = refl

full_id : is_empty (activity 0).id ≡ false
unfolding runs
full_id = refl

own_id : count (has_activity_id (activity 0).id) (public_from 0 two_events) ≤ 1
unfolding runs
own_id = omega arith

list_comment_thread_activities-pages_example :
    ([] ++ activity 0 ∷ [])
      ++ list_comment_thread_activities (codes "c1") (some (activity 0).id) 5 two_events
    ≡ take
        (page_size 1 + page_size 5)
        (filter (is_of_thread (codes "c1")) (public_from 0 two_events))
list_comment_thread_activities-pages_example =
    list_comment_thread_activities-pages (codes "c1") 1 5 two_events [] (activity 0) first_page
      full_id own_id

abbrev reader : CommentActor
reader = record { id = codes "ann"; kind = human; display_name = none }

abbrev receipt : ThreadEvent
receipt = read_event (codes "c1") reader (some (codes "k1")) (codes "e3") (codes "2024-02-01")

told :
    append_thread_read_activity
      (list_comment_threads no_filters (asked ∷ []) two_events)
      two_events
      (codes "c1")
      reader
      (some (codes "k1"))
      (codes "e3")
      (codes "2024-02-01")
    ≡ ok (public_activity_event receipt 0, some receipt)
unfolding runs
told = refl

few : length (filter (is_of_thread (codes "c1")) (public_from 0 two_events)) < 500
unfolding runs
few = omega arith

append_thread_read_activity-once_example :
    append_thread_read_activity
      (list_comment_threads no_filters (asked ∷ []) (two_events ++ receipt ∷ []))
      (two_events ++ receipt ∷ [])
      (codes "c1")
      reader
      (some (codes "k1"))
      (codes "e4")
      (codes "2024-02-02")
    ≡ ok (public_activity_event receipt 0, none)
append_thread_read_activity-once_example =
    append_thread_read_activity-once (asked ∷ []) two_events (codes "c1") reader (codes "k1")
      (codes "e3") (codes "2024-02-01") (codes "e4") (codes "2024-02-02")
      (public_activity_event receipt 0) receipt refl few told
