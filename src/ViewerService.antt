-- ===== src/ViewerService.antt =====
-- server/typescript/application/viewer-service.ts: creating, changing and publishing comments over the comment store. The
-- store is the lists that its files hold; the fresh ids and the times are what the environment answers.
pub mod Publishing
pub mod Creating
pub mod Requests
pub mod Updating
mod Tests
use vivi.Base.{
  ℕ, zero, suc, ◌+◌, ◌≡◌, Bool, true, false, not, ◌&&◌, ◌||◌, Option, none, some, List, [], ◌∷◌,
  ◌++◌, codes, ◌==◌, is_empty, truthy, contains, starts_with, drop, filter, find?, head?, map, trim,
  length, or_else, or_option, eqb, if◌then◌else◌,
}
use vivi.Base.Strings.{Text}
use vivi.Base.Dict.{Dict, lookup, put}
use vivi.Comments.{
  ViviComment, CommentThread, CommentActor, CommentSource, human, claude_code, codex,
  unknown_source, CommentStatus, open_status, resolved, archived, build_comment_threads,
  apply_comment_update,
}
use vivi.CommentFields.{Result, ok, err}
use vivi.CommentInput.{CreateCommentInput}
use vivi.CommentStore.{
  DraftReviewComment, ThreadEvent, ThreadEventType, thread_created, comment_added, comment_updated,
  has_comment_id,
}
use vivi.CommentStore.Jobs.{
  Store, Job, create_comment, change_comment, append_event, create_draft, delete_draft, apply_job,
}
use vivi.CommentStore.Activities.{CommentThreadActivityEvent, list_comment_thread_activities}

-- `randomUUID()` and `isoNow()` at each call.
pub record Environment : Type 0 where
  pub random_uuid : ℕ → Text
  pub iso_now : ℕ → Text

-- The store, the number of calls so far, and the activities sent to the subscribers.
pub record World : Type 0 where
  pub store : Store
  pub calls : ℕ
  pub sent : List CommentThreadActivityEvent

abbrev pub source_text : CommentSource → Text
source_text human = codes "human"
source_text claude_code = codes "claude-code"
source_text codex = codes "codex"
source_text unknown_source = codes "unknown"

-- `author ? kind + ":" + author : kind`
abbrev pub legacy_id : Text → Option Text → Text
legacy_id kind none = kind
legacy_id kind (some author) = if is_empty author then kind else kind ++ codes ":" ++ author

unfoldable pub legacy_actor : CommentSource → Option Text → CommentActor
legacy_actor kind author = record {
  id = legacy_id (source_text kind) author;
  kind = kind;
  display_name = author;
}

abbrev pub time_if : Bool → Text → Option Text
time_if true now = some now
time_if false now = none

abbrev pub is_resolved : CommentStatus → Bool
is_resolved resolved = true
is_resolved _ = false

abbrev pub is_archived : CommentStatus → Bool
is_archived archived = true
is_archived _ = false

-- The comment that `createNormalizedComment` makes of an input, a fresh id and the time.
unfoldable pub new_comment : CreateCommentInput → Text → Text → ViviComment
unfolding legacy_actor
new_comment input id now = record {
  id = id;
  thread_id = some (or_else input.thread_id id);
  path = input.path;
  viewer_kind = input.viewer_kind;
  review_batch_id = input.review_batch_id;
  anchor = input.anchor;
  body = input.body;
  created_by = some (or_else input.actor (legacy_actor input.comment_source input.author));
  author = input.author;
  comment_source = some input.comment_source;
  status = input.status;
  created_at = now;
  updated_at = now;
  resolved_at = time_if (is_resolved input.status) now;
  archived_at = time_if (is_archived input.status) now;
}

abbrev pub comment_event : ThreadEventType → Text → ViviComment → Text → Text → ThreadEvent
comment_event kind thread_id c at id = record {
  kind = kind;
  at = some at;
  thread = none;
  thread_id = some thread_id;
  status = none;
  previous_status = none;
  comment_id = some c.id;
  client_event_id = none;
  lease_expires_at = none;
  actor = c.created_by;
  id = some id;
}

abbrev pub actor_of_first : List ViviComment → Option CommentActor
actor_of_first [] = none
actor_of_first (c ∷ cs) = c.created_by

-- The event of `createCommentThread`: the thread is stored without its comments.
abbrev pub thread_event : CommentThread → Text → ThreadEvent
thread_event t id = record {
  kind = thread_created;
  at = some t.created_at;
  thread = some (record t { comments = [] });
  thread_id = some t.id;
  status = none;
  previous_status = none;
  comment_id = none;
  client_event_id = none;
  lease_expires_at = none;
  actor = actor_of_first t.comments;
  id = some id;
}

-- A job of the store; a rejected one leaves it, and its message is the error of the caller.
unfoldable pub do_job : Job → World → World × Option Text
unfolding apply_job
do_job job w = elim (apply_job w.store job) [
  | ok store ↦ (record w { store = store }, none)
  | err e ↦ (w, some e)
]

abbrev pub called : World → World
called w = record w { calls = w.calls + 1 }

-- The event of `createComment` of a comment in the thread of another one, with a fresh id.
abbrev pub note_added : Environment → ViviComment → World → World
note_added env c w = elim c.thread_id [
  | none ↦ w
  | some t ↦
      (if is_empty t || (t == c.id) then w else record (called w) {
        store = record w.store {
          events =
              w.store.events
              ++ comment_event comment_added t c c.created_at (env.random_uuid w.calls) ∷ [];
        };
      })
]

-- `createCommentThread`, for the first of the threads that the new comment forms.
abbrev pub note_thread : Environment → List CommentThread → World → World
note_thread env [] w = w
note_thread env (t ∷ ts) w = record (called w) {
  store = record w.store {
    events = w.store.events ++ thread_event t (env.random_uuid w.calls) ∷ [];
  };
}

abbrev pub same_type : ThreadEventType → ThreadEventType → Bool
same_type thread_created thread_created = true
same_type comment_added comment_added = true
same_type comment_updated comment_updated = true
same_type _ _ = false

-- The last activity of a type.
abbrev pub last_of :
    ThreadEventType → List CommentThreadActivityEvent → Option CommentThreadActivityEvent
last_of kind [] = none
last_of kind (a ∷ as_later) =
    or_option (last_of kind as_later) (if same_type a.kind kind then some a else none)

abbrev pub sent_after :
    List CommentThreadActivityEvent
    → Option CommentThreadActivityEvent
    → List CommentThreadActivityEvent
sent_after sent none = sent
sent_after sent (some a) = sent ++ a ∷ []

-- The latest activity of a type among the first 500 of the thread goes to the subscribers.
unfoldable pub publish_latest_activity : Text → ThreadEventType → World → World
unfolding list_comment_thread_activities
publish_latest_activity thread_id kind w = record w {
  sent =
      sent_after w.sent
        (last_of kind (list_comment_thread_activities thread_id none 500 w.store.events));
}

-- The job of `createComment`, after `isoNow()` and `randomUUID()`.
abbrev pub stored_comment : ViviComment → World → World
stored_comment c w = record w {
  calls = w.calls + 2;
  store = record w.store { comments = w.store.comments ++ c ∷ [] };
}

abbrev pub fresh_comment : Environment → CreateCommentInput → World → ViviComment
unfolding new_comment
fresh_comment env input w = new_comment input (env.random_uuid (w.calls + 1)) (env.iso_now w.calls)

-- The events of a new comment: it is added to a thread, or its thread is created.
abbrev pub noted : Environment → CreateCommentInput → ViviComment → World → World
unfolding build_comment_threads
noted env input c w =
    if truthy input.thread_id
    then note_added env c w
    else note_thread env (build_comment_threads (c ∷ [])) (note_added env c w)

unfoldable pub create_normalized_comment : Environment → CreateCommentInput → World → World
unfolding fresh_comment noted publish_latest_activity
create_normalized_comment env input w =
    let c = fresh_comment env input w in
    publish_latest_activity (or_else c.thread_id c.id)
      (if truthy input.thread_id then comment_added else thread_created)
      (noted env input c (stored_comment c w))

-- The draft that `createDraftReviewComment` makes of a checked input, after `isoNow()` and `randomUUID()`.
unfoldable pub new_draft : Environment → CreateCommentInput → ℕ → DraftReviewComment
unfolding legacy_actor
new_draft env input calls = record {
  id = env.random_uuid (calls + 1);
  thread_id = input.thread_id;
  path = input.path;
  viewer_kind = input.viewer_kind;
  anchor = input.anchor;
  body = input.body;
  created_by = some (or_else input.actor (legacy_actor input.comment_source input.author));
  author = input.author;
  comment_source = some input.comment_source;
  created_at = env.iso_now calls;
  updated_at = env.iso_now calls;
}

-- `withoutPrefix.indexOf(":")` and what stands before it; `none` where there is no colon, or nothing before it.
abbrev pub before_colon : Text → Option Text
before_colon [] = none
before_colon (c ∷ s) =
    let rest = before_colon s in
    if eqb c 58 then some [] else elim rest [ none ↦ none | some t ↦ some (c ∷ t) ]

abbrev pub named : Option Text → Option Text
named none = none
named (some t) = if is_empty t then none else some t

unfoldable pub draft_only_thread_target_draft_id : Text → Option Text
draft_only_thread_target_draft_id thread_id =
    if starts_with thread_id (codes "draft-thread:")
    then named (before_colon (drop (length (codes "draft-thread:")) thread_id))
    else none

-- The draft whose group a draft is published with: its own, or the one that its thread names.
abbrev pub target_draft_id : DraftReviewComment → Option Text
unfolding draft_only_thread_target_draft_id
target_draft_id d =
    if truthy d.thread_id
    then draft_only_thread_target_draft_id (or_else d.thread_id [])
    else some d.id

-- The thread of a group, which is made when its first draft is published; the groups after it, and the calls.
abbrev pub group_thread : Environment → Text → Dict Text → ℕ → Option Text × Dict Text × ℕ
unfolding lookup put
group_thread env target groups calls = elim (lookup target groups) [
  | some t ↦ (some t, groups, calls)
  | none ↦ (some (env.random_uuid calls), put target (env.random_uuid calls) groups, calls + 1)
]

unfoldable pub draft_only_publish_thread_id :
    Environment → DraftReviewComment → List Text → Dict Text → ℕ → Option Text × Dict Text × ℕ
unfolding group_thread target_draft_id
draft_only_publish_thread_id env d draft_ids groups calls = elim (target_draft_id d) [
  | none ↦ (none, groups, calls)
  | some target ↦
      (if not (is_empty target) && contains draft_ids target
        then group_thread env target groups calls
        else (none, groups, calls))
]

-- The input of the comment that a draft is published as.
abbrev pub published_input :
    Text → Option CommentActor → Option Text → DraftReviewComment → CreateCommentInput
published_input batch actor thread_id d = record {
  thread_id = or_option thread_id d.thread_id;
  path = d.path;
  viewer_kind = d.viewer_kind;
  review_batch_id = some batch;
  anchor = d.anchor;
  body = d.body;
  actor = or_option actor d.created_by;
  author = d.author;
  comment_source = or_else d.comment_source unknown_source;
  status = open_status;
}

abbrev pub DraftIds : Type 0
DraftIds = List Text

-- One draft is published: its thread, its comment, and its deletion; the groups after it.
unfoldable pub publish_one :
    Environment
    → Text
    → Option CommentActor
    → DraftIds
    → DraftReviewComment
    → Dict Text
    → World
    → (World × Option Text) × Dict Text
unfolding draft_only_publish_thread_id create_normalized_comment do_job
publish_one env batch actor draft_ids d groups w =
    let chosen = draft_only_publish_thread_id env d draft_ids groups w.calls in
    (
      do_job (delete_draft d.id) (
          create_normalized_comment env (published_input batch actor chosen.0 d)
            (record w { calls = chosen.2 })),
      chosen.1,
    )

-- The loop over the drafts, which ends at the first error.
unfoldable pub publish_each :
    Environment
    → Text
    → Option CommentActor
    → DraftIds
    → List DraftReviewComment
    → Dict Text
    → World
    → World × Option Text
unfolding publish_one
publish_each env batch actor draft_ids [] groups w = (w, none)
publish_each env batch actor draft_ids (d ∷ ds) groups w =
    let one = publish_one env batch actor draft_ids d groups w in
    let rest = publish_each env batch actor draft_ids ds one.1 one.0.0 in
    elim one.0.1 [ none ↦ rest | some e ↦ (one.0.0, some e) ]

abbrev pub is_nil : List Text → Bool
is_nil [] = true
is_nil (id ∷ ids) = false

-- `selected.size === 0 || selected.has(draft.id)`, for the ids that are not empty.
abbrev pub is_selected : List Text → DraftReviewComment → Bool
is_selected ids d =
    let selected = filter (λ id. not (is_empty id)) ids in is_nil selected || contains selected d.id

abbrev pub batch_id : Environment → World → Text
batch_id env w = codes "review-" ++ env.random_uuid (w.calls + 1)

-- `publishDraftReviewComments`: the ids of the chosen drafts, where none choose all, and who publishes.
unfoldable pub publish_draft_review_comments :
    Environment → List Text → Option CommentActor → World → World × Option Text
unfolding publish_each
publish_draft_review_comments env ids actor w =
    let drafts = filter (is_selected ids) w.store.drafts in
    publish_each env (batch_id env w) actor (map (λ d. d.id) drafts) drafts []
      (record w { calls = w.calls + 2 })
