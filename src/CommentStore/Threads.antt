-- ===== src/CommentStore/Threads.antt =====
-- server/typescript/infrastructure/node-comment-store.ts: the threads that `listCommentThreads` and `listComments` make of
-- the stored comments and thread events.
use vivi.Base.{
  ◌+◌, ◌≤◌, ◌≡◌, refl, ◌∙◌, Bool, true, false, not, ◌&&◌, ◌||◌, Option, none, some, List, [], ◌∷◌,
  arith, map, ap, is_some, ◌==◌, eq_iff, truthy, is_empty, same_option, or_else, filter, find?,
  count, Option-cases, Bool-cases, inl, inr, if◌then◌else◌,
}
use mathlib.Core.Option
use vivi.Base.Strings.{Text}
use vivi.Base.Laws.{count-zero_of_find?, count-map, count-filter-le}
use vivi.Comments.{
  ViviComment, CommentThread, CommentStatus, open_status, resolved, archived, is_thread, thread_of,
  build_comment_threads,
}
use vivi.Comments.Grouping.{
  belongs, fold_thread, find-build_comment_threads, build_comment_threads_unique,
}
use vivi.CommentInput.{CommentListFilters}
use vivi.CommentStore.{
  ThreadEvent, ThreadEventType, thread_created, thread_status_changed, thread_claimed,
  thread_claim_released, thread_read, comment_added, comment_updated,
}

-- `event.at` where the new status is the one that the time stands for.
abbrev pub resolved_time : CommentStatus → Option Text → Option Text
resolved_time resolved at = at
resolved_time _ at = none

abbrev pub archived_time : CommentStatus → Option Text → Option Text
archived_time archived at = at
archived_time _ at = none

-- `projected.set(thread.id, …)`, where a thread that is there keeps its place and its comments.
unfoldable pub put_thread : CommentThread → List CommentThread → List CommentThread
put_thread t [] = t ∷ []
put_thread t (u ∷ ts) =
    if is_thread t.id u then record t { comments = u.comments } ∷ ts else u ∷ put_thread t ts

abbrev pub with_status : CommentStatus → Option Text → CommentThread → CommentThread
with_status status at t = record t {
  status = status;
  updated_at = or_else at t.updated_at;
  resolved_at = resolved_time status at;
  archived_at = archived_time status at;
}

unfoldable pub set_status :
    Text → CommentStatus → Option Text → List CommentThread → List CommentThread
set_status id status at [] = []
set_status id status at (t ∷ ts) =
    if is_thread id t then with_status status at t ∷ ts else t ∷ set_status id status at ts

abbrev pub changed_status :
    Option Text → Option CommentStatus → Option Text → List CommentThread → List CommentThread
unfolding set_status
changed_status (some id) (some status) at ts =
    if is_empty id then ts else set_status id status at ts
changed_status _ _ at ts = ts

abbrev pub created_thread : Option CommentThread → List CommentThread → List CommentThread
unfolding put_thread
created_thread none ts = ts
created_thread (some t) ts = put_thread t ts

unfoldable pub project_kind :
    ThreadEventType → ThreadEvent → List CommentThread → List CommentThread
unfolding created_thread changed_status
project_kind thread_created e ts = created_thread e.thread ts
project_kind thread_status_changed e ts = changed_status e.thread_id e.status e.at ts
project_kind _ e ts = ts

-- What one event does to the projected threads.
unfoldable pub project_event : List CommentThread → ThreadEvent → List CommentThread
unfolding project_kind
project_event ts e = project_kind e.kind e ts

unfoldable pub project : List CommentThread → List ThreadEvent → List CommentThread
project ts [] = ts
project ts (e ∷ es) = project (project_event ts e) es

-- A comment with the status of its thread.
abbrev pub labelled_comment : CommentThread → ViviComment → ViviComment
labelled_comment t c = record c {
  status = t.status;
  resolved_at = t.resolved_at;
  archived_at = t.archived_at;
}

abbrev pub labelled : CommentThread → CommentThread
labelled t = record t { comments = map (labelled_comment t) t.comments }

-- `!filter || value === filter`
abbrev pub passes : Option Text → Option Text → Bool
passes wanted value = not (truthy wanted) || same_option value wanted

abbrev pub same_status : CommentStatus → CommentStatus → Bool
same_status open_status open_status = true
same_status resolved resolved = true
same_status archived archived = true
same_status _ _ = false

abbrev pub has_status : Option CommentStatus → Option CommentStatus → Bool
has_status none value = true
has_status (some wanted) none = false
has_status (some wanted) (some value) = same_status value wanted

abbrev pub matches : CommentListFilters → CommentThread → Bool
matches filters t =
    passes filters.path (some t.path)
    && has_status filters.status (some t.status)
    && passes filters.review_batch_id t.review_batch_id

unfoldable pub list_comment_threads :
    CommentListFilters → List ViviComment → List ThreadEvent → List CommentThread
list_comment_threads filters comments events =
    filter (matches filters) (map labelled (project (build_comment_threads comments) events))

abbrev pub no_filters : CommentListFilters
no_filters = record { path = none; status = none; review_batch_id = none }

-- `threadById.get(comment.threadId ?? comment.id)`
abbrev pub thread_for : List CommentThread → ViviComment → Option CommentThread
thread_for ts c = find? (is_thread (thread_of c)) ts

abbrev pub status_of : Option CommentThread → Option CommentStatus
status_of t = Option.map (λ t. t.status) t

abbrev pub matches_comment : CommentListFilters → List CommentThread → ViviComment → Bool
matches_comment filters ts c =
    passes filters.path (some c.path)
    && has_status filters.status (status_of (thread_for ts c))
    && passes filters.review_batch_id c.review_batch_id

abbrev pub with_thread : Option CommentThread → ViviComment → ViviComment
with_thread none c = record c { resolved_at = none; archived_at = none }
with_thread (some t) c = labelled_comment t c

unfoldable pub list_comments :
    CommentListFilters → List ViviComment → List ThreadEvent → List ViviComment
unfolding list_comment_threads
list_comments filters comments events =
    let threads = list_comment_threads no_filters comments events in
    map (λ c. with_thread (thread_for threads c) c)
      (filter (matches_comment filters threads) comments)

-- What an event does to the thread of an id, if it is about it.
abbrev pub own_created : Text → Option CommentThread → Option CommentThread → Option CommentThread
own_created i none t = t
own_created i (some u) none = if is_thread i u then some u else none
own_created i (some u) (some t) =
    if is_thread i u then some (record u { comments = t.comments }) else some t

abbrev pub own_changed :
    Text
    → Option Text
    → Option CommentStatus
    → Option Text
    → Option CommentThread
    → Option CommentThread
own_changed i (some id) (some status) at t =
    if is_empty id then t else if id == i then Option.map (with_status status at) t else t
own_changed i _ _ at t = t

abbrev pub own_kind :
    Text → ThreadEventType → ThreadEvent → Option CommentThread → Option CommentThread
own_kind i thread_created e t = own_created i e.thread t
own_kind i thread_status_changed e t = own_changed i e.thread_id e.status e.at t
own_kind i _ e t = t

unfoldable pub own_event : Text → Option CommentThread → ThreadEvent → Option CommentThread
own_event i t e = own_kind i e.kind e t

unfoldable pub own_events : Text → Option CommentThread → List ThreadEvent → Option CommentThread
unfolding own_event
own_events i t [] = t
own_events i t (e ∷ es) = own_events i (own_event i t e) es

find-put_thread :
    (i : Text) (u : CommentThread) (ts : List CommentThread)
    → find? (is_thread i) (put_thread u ts) ≡ own_created i (some u) (find? (is_thread i) ts)
unfolding put_thread
find-put_thread i u [] = ground arith
find-put_thread i u (t ∷ ts) =
    ground (arith, find-put_thread i u ts, eq_iff u.id i, eq_iff t.id u.id, eq_iff t.id i)

find-set_status :
    (i id : Text) (status : CommentStatus) (at : Option Text) (ts : List CommentThread)
    → find? (is_thread i) (set_status id status at ts) ≡ (
        if id == i
        then Option.map (with_status status at) (find? (is_thread i) ts)
        else find? (is_thread i) ts)
unfolding set_status
find-set_status i id status at [] = ground arith
find-set_status i id status at (t ∷ ts) =
    ground (arith, find-set_status i id status at ts, eq_iff id i, eq_iff t.id id, eq_iff t.id i)

find-project_event :
    (i : Text) (ts : List CommentThread) (e : ThreadEvent)
    → find? (is_thread i) (project_event ts e) ≡ own_event i (find? (is_thread i) ts) e
unfolding project_event own_event project_kind created_thread changed_status
find-project_event i ts e = by_kind e.kind
  where
    created :
        (u : Option CommentThread)
        → find? (is_thread i) (created_thread u ts) ≡ own_created i u (find? (is_thread i) ts)
    created none = refl
    created (some u) = find-put_thread i u ts

    changed :
        (id : Option Text) (status : Option CommentStatus)
        → find? (is_thread i) (changed_status id status e.at ts)
          ≡ own_changed i id status e.at (find? (is_thread i) ts)
    changed none status = refl
    changed (some id) none = refl
    changed (some id) (some status) = ground (arith, find-set_status i id status e.at ts)

    by_kind :
        (k : ThreadEventType)
        → find? (is_thread i) (project_kind k e ts) ≡ own_kind i k e (find? (is_thread i) ts)
    by_kind thread_created = created e.thread
    by_kind thread_status_changed = changed e.thread_id e.status
    by_kind thread_claimed = refl
    by_kind thread_claim_released = refl
    by_kind thread_read = refl
    by_kind comment_added = refl
    by_kind comment_updated = refl

find-project :
    (i : Text) (ts : List CommentThread) (es : List ThreadEvent)
    → find? (is_thread i) (project ts es) ≡ own_events i (find? (is_thread i) ts) es
unfolding project own_events
find-project i ts [] = refl
find-project i ts (e ∷ es) =
    find-project i (project_event ts e) es ∙ ap (λ t. own_events i t es) (find-project_event i ts e)

count-put_thread :
    (i : Text) (u : CommentThread) (ts : List CommentThread)
    → count (is_thread i) (put_thread u ts)
      ≡ count (is_thread i) ts
        + (if is_some (find? (is_thread u.id) ts) then 0 else if is_thread i u then 1 else 0)
unfolding put_thread
count-put_thread i u [] = ground arith
count-put_thread i u (t ∷ ts) =
    ground (arith, count-put_thread i u ts, eq_iff u.id i, eq_iff t.id u.id, eq_iff t.id i)

put_thread_unique :
    (i : Text) (u : CommentThread) (ts : List CommentThread)
    → count (is_thread i) ts ≤ 1
    → count (is_thread i) (put_thread u ts) ≤ 1
put_thread_unique i u ts h = elim (Bool-cases (is_thread i u)) [
  | inl e ↦ ground (
    arith,
    count-put_thread i u ts,
    count-zero_of_find? (is_thread i) ts,
    (eq_iff u.id i).0 e,
    Option-cases (find? (is_thread i) ts),
  )
  | inr e ↦ ground (arith, count-put_thread i u ts)
]

count-set_status :
    (i id : Text) (status : CommentStatus) (at : Option Text) (ts : List CommentThread)
    → count (is_thread i) (set_status id status at ts) ≡ count (is_thread i) ts
unfolding set_status
count-set_status i id status at [] = refl
count-set_status i id status at (t ∷ ts) = ground (arith, count-set_status i id status at ts)

project_event_unique :
    (i : Text) (ts : List CommentThread) (e : ThreadEvent)
    → count (is_thread i) ts ≤ 1
    → count (is_thread i) (project_event ts e) ≤ 1
unfolding project_event project_kind created_thread changed_status
project_event_unique i ts e h = by_kind e.kind
  where
    created : (u : Option CommentThread) → count (is_thread i) (created_thread u ts) ≤ 1
    created none = h
    created (some u) = put_thread_unique i u ts h

    changed :
        (id : Option Text) (status : Option CommentStatus)
        → count (is_thread i) (changed_status id status e.at ts) ≤ 1
    changed none status = h
    changed (some id) none = h
    changed (some id) (some status) = ground (arith, count-set_status i id status e.at ts)

    by_kind : (k : ThreadEventType) → count (is_thread i) (project_kind k e ts) ≤ 1
    by_kind thread_created = created e.thread
    by_kind thread_status_changed = changed e.thread_id e.status
    by_kind thread_claimed = h
    by_kind thread_claim_released = h
    by_kind thread_read = h
    by_kind comment_added = h
    by_kind comment_updated = h

project_unique :
    (i : Text) (ts : List CommentThread) (es : List ThreadEvent)
    → count (is_thread i) ts ≤ 1
    → count (is_thread i) (project ts es) ≤ 1
unfolding project
project_unique i ts [] h = h
project_unique i ts (e ∷ es) h =
    project_unique i (project_event ts e) es (project_event_unique i ts e h)

-- Whatever the filters, the comments and the events are, no two listed threads have one id.
pub list_comment_threads_unique :
    (filters : CommentListFilters) (comments : List ViviComment) (events : List ThreadEvent)
    (i : Text)
    → count (is_thread i) (list_comment_threads filters comments events) ≤ 1
unfolding list_comment_threads
list_comment_threads_unique filters comments events i = omega (
  arith,
  count-filter-le (is_thread i) (matches filters)
      (map labelled (project (build_comment_threads comments) events)),
  count-map (is_thread i) labelled (project (build_comment_threads comments) events),
  project_unique i (build_comment_threads comments) events
      (build_comment_threads_unique comments i),
)

-- The listed thread of an id, without filters, is what the events about it alone make of its own comments' thread, with
-- its comments labelled by its status: events about other threads, wherever they stand, do not matter.
pub find-list_comment_threads :
    (comments : List ViviComment) (events : List ThreadEvent) (i : Text)
    → find? (is_thread i) (list_comment_threads no_filters comments events)
      ≡ Option.map labelled (own_events i (fold_thread none (filter (belongs i) comments)) events)
unfolding list_comment_threads
find-list_comment_threads comments events i =
    unfiltered (map labelled projected)
    ∙ find-labelled projected
    ∙ ap (Option.map labelled) (
        find-project i (build_comment_threads comments) events
        ∙ ap (λ t. own_events i t events) (find-build_comment_threads comments i))
  where
    projected : List CommentThread
    projected = project (build_comment_threads comments) events

    unfiltered :
        (ts : List CommentThread)
        → find? (is_thread i) (filter (matches no_filters) ts) ≡ find? (is_thread i) ts
    unfiltered [] = refl
    unfiltered (t ∷ ts) = ground (arith, unfiltered ts)

    find-labelled :
        (ts : List CommentThread)
        → find? (is_thread i) (map labelled ts) ≡ Option.map labelled (find? (is_thread i) ts)
    find-labelled [] = refl
    find-labelled (t ∷ ts) = ground (arith, find-labelled ts)
