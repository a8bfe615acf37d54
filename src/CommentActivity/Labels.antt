-- ===== src/CommentActivity/Labels.antt =====
-- ui/src/state/comment-activity.ts: how an activity is told to the user.
use vivi.Base.{
  ℕ, ◌-◌, ◌/◌, not, ◌&&◌, Option, none, some, [], ◌∷◌, ◌++◌, codes, ◌==◌, show, trim, is_empty,
  or_else, ltb, if◌then◌else◌,
}
use vivi.Base.Strings.{Text}
use vivi.Comments.{
  CommentActor, CommentSource, CommentStatus, open_status, resolved, archived, human, claude_code,
  codex, unknown_source,
}
use vivi.CommentStore.{
  ThreadEventType, thread_read, thread_claimed, thread_claim_released, comment_added,
  thread_status_changed, thread_created,
}
use vivi.CommentStore.Activities.{CommentThreadActivityEvent}

abbrev pub actor_by_id : Text → Text
actor_by_id id =
    if not (is_empty id) && not (id == codes "unknown") then id else codes "Unknown agent"

abbrev pub actor_by_kind : CommentSource → Text → Text
actor_by_kind claude_code id = codes "Claude Code"
actor_by_kind codex id = codes "Codex"
actor_by_kind human id =
    if not (is_empty id) && not (id == codes "human") then id else codes "Human"
actor_by_kind unknown_source id = actor_by_id id

abbrev pub actor_by_name : Text → CommentActor → Text
actor_by_name name actor = if is_empty name then actor_by_kind actor.kind (trim actor.id) else name

unfoldable pub actor_label : CommentActor → Text
unfolding trim
actor_label actor = actor_by_name (trim (or_else actor.display_name [])) actor

abbrev pub status_text : CommentStatus → Text
status_text open_status = codes "open"
status_text resolved = codes "resolved"
status_text archived = codes "archived"

abbrev pub verb_for : ThreadEventType → Option CommentStatus → Text
verb_for thread_read status = codes "read"
verb_for thread_claimed status = codes "claimed"
verb_for thread_claim_released status = codes "released"
verb_for comment_added status = codes "replied"
verb_for thread_status_changed (some status) = codes "marked " ++ status_text status
verb_for thread_status_changed none = codes "changed status"
verb_for thread_created status = codes "started"
verb_for _ status = codes "updated"

-- The time that has passed, in seconds.
abbrev pub elapsed : ℕ → Text
elapsed seconds =
    let minutes = seconds / 60 in
    let hours = minutes / 60 in
    if ltb seconds 60
    then show seconds ++ codes "s ago"
    else if ltb minutes 60
    then show minutes ++ codes "m ago"
    else if ltb hours 48
    then show hours ++ codes "h ago"
    else show (hours / 24) ++ codes "d ago"

-- `none` for a time that is not one.
unfoldable pub relative_time : (Text → Option ℕ) → Text → ℕ → Text
relative_time parse value now = elim (parse value) [
  | none ↦ value
  | some then_ms ↦ elapsed ((now - then_ms) / 1000)
]

unfoldable pub activity_label : (Text → Option ℕ) → CommentThreadActivityEvent → ℕ → Text
unfolding actor_label relative_time
activity_label parse event now =
    actor_label event.actor
    ++ (32 ∷ (verb_for event.kind event.status ++ (32 ∷ relative_time parse event.created_at now)))
