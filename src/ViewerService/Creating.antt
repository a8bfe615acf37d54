-- ===== src/ViewerService/Creating.antt =====
-- server/typescript/application/viewer-service.ts and the comment store: a comment that starts a thread is listed in it.
use vivi.Base.{
  ◌+◌, ◌≡◌, refl, ◌∙◌, ap, Bool, true, false, ◌||◌, Option, none, some, List, [], ◌∷◌, ◌++◌, arith,
  filter, find?, any, eq_self, same_option, is_empty,
}
use mathlib.Core.Option
use vivi.Base.Strings.{Text}
use vivi.Base.Laws.{filter-append}
use vivi.Comments.{
  ViviComment, CommentThread, CommentStatus, open_status, is_thread, new_thread, merge_comment,
  add_comment, build_comment_threads,
}
use vivi.Comments.Grouping.{belongs, fold_thread}
use vivi.CommentInput.{CreateCommentInput}
use vivi.CommentStore.{
  ThreadEvent, ThreadEventType, thread_created, thread_status_changed, thread_claimed,
  thread_claim_released, thread_read, comment_added, comment_updated,
}
use vivi.CommentStore.Threads.{
  list_comment_threads, no_filters, own_event, own_events, own_kind, own_created, own_changed,
  find-list_comment_threads,
}
use vivi.ViewerService.{
  Environment, World, create_normalized_comment, fresh_comment, new_comment, noted,
  publish_latest_activity, thread_event,
}

-- Whether an event is about a thread.
abbrev pub is_about : Text → Option CommentThread → Bool
is_about i none = false
is_about i (some t) = is_thread i t

abbrev pub mentions : Text → ThreadEvent → Bool
mentions i e = same_option e.thread_id (some i) || is_about i e.thread

own_event_other :
    (i : Text) (t : Option CommentThread) (e : ThreadEvent)
    → mentions i e ≡ false
    → own_event i t e ≡ t
unfolding own_event
own_event_other i t e h = by_kind e.kind
  where
    created :
        (o : Option CommentThread) (s : Option CommentThread)
        → is_about i o ≡ false
        → own_created i o s ≡ s
    created none s k = refl
    created (some u) none k = rw k refl
    created (some u) (some s) k = rw k refl

    changed :
        (id : Option Text) (status : Option CommentStatus)
        → same_option id (some i) ≡ false
        → own_changed i id status e.at t ≡ t
    changed none status k = refl
    changed (some id) none k = refl
    changed (some id) (some status) k = ground arith

    by_kind : (k : ThreadEventType) → own_kind i k e t ≡ t
    by_kind thread_created = created e.thread t (ground arith)
    by_kind thread_status_changed = changed e.thread_id e.status (ground arith)
    by_kind thread_claimed = refl
    by_kind thread_claim_released = refl
    by_kind thread_read = refl
    by_kind comment_added = refl
    by_kind comment_updated = refl

own_events_other :
    (i : Text) (t : Option CommentThread) (es : List ThreadEvent)
    → any (mentions i) es ≡ false
    → own_events i t es ≡ t
unfolding own_events
own_events_other i t [] h = refl
own_events_other i t (e ∷ es) h =
    ap (λ s. own_events i s es) (own_event_other i t e (ground arith))
    ∙ own_events_other i t es (ground arith)

own_events-append :
    (i : Text) (t : Option CommentThread) (es : List ThreadEvent) (e : ThreadEvent)
    → own_events i t (es ++ e ∷ []) ≡ own_event i (own_events i t es) e
unfolding own_events
own_events-append i t [] e = refl
own_events-append i t (d ∷ es) e = own_events-append i (own_event i t d) es e

filter_none {ℓ} : {A : Type ℓ} (p : A → Bool) (xs : List A) → any p xs ≡ false → filter p xs ≡ []
filter_none p [] h = refl
filter_none p (x ∷ xs) h = ground (arith, filter_none p xs)

or_true : (b : Bool) → (b || true) ≡ true
or_true true = refl
or_true false = refl

abbrev pub status_and_comments : CommentThread → CommentStatus × List ViviComment
status_and_comments t = (t.status, t.comments)

-- An input that starts a thread.
abbrev pub starting : CreateCommentInput → CreateCommentInput
starting input = record input { thread_id = none; status = open_status }

module _ (env : Environment) (input : CreateCommentInput) (w : World) where
  unfoldable pub first : ViviComment
  unfolding fresh_comment
  first = fresh_comment env (starting input) w

  unfoldable pub after_create : World
  unfolding create_normalized_comment
  after_create = create_normalized_comment env (starting input) w

  first_thread : CommentThread
  first_thread = merge_comment (new_thread first) first

  after_create-lists :
      (after_create.store.comments ≡ w.store.comments ++ first ∷ [])
      × (after_create.store.events
          ≡ w.store.events ++ thread_event first_thread (env.random_uuid (w.calls + 2)) ∷ [])
  unfolding after_create create_normalized_comment first fresh_comment new_comment noted
      publish_latest_activity build_comment_threads add_comment first_thread
  after_create-lists =
      rw
        (
          eq_self (env.random_uuid (w.calls + 1)),
          or_true (is_empty (env.random_uuid (w.calls + 1))),
        )
        (refl, refl)

  -- A comment that is made without a thread is listed as the one comment of an open thread with its id, if no stored
  -- comment belongs to a thread of that fresh id and no stored event is about it.
  pub create_normalized_comment-opens :
      any (belongs first.id) w.store.comments ≡ false
      → any (mentions first.id) w.store.events ≡ false
      → Option.map status_and_comments (
          find?
            (is_thread first.id)
            (list_comment_threads no_filters after_create.store.comments after_create.store.events))
        ≡ some (open_status, first ∷ [])
  unfolding first fresh_comment new_comment first_thread own_event merge_comment
  create_normalized_comment-opens no_comments no_events =
      rw (after_create-lists.0, after_create-lists.1)
        (ap (Option.map status_and_comments) (
            find-list_comment_threads (w.store.comments ++ first ∷ [])
              (w.store.events ++ event ∷ []) first.id)
          ∙ rw (of_comments) (
              rw (own_events-append first.id (some first_thread) w.store.events event) (
                rw (own_events_other first.id (some first_thread) w.store.events no_events)
                  (rw (eq_self first.id) refl))))
    where
      event : ThreadEvent
      event = thread_event first_thread (env.random_uuid (w.calls + 2))

      of_comments :
          fold_thread none (filter (belongs first.id) (w.store.comments ++ first ∷ []))
          ≡ some first_thread
      of_comments = rw (filter-append (belongs first.id) w.store.comments (first ∷ [])) (
          rw (filter_none (belongs first.id) w.store.comments no_comments)
            (rw (eq_self first.id) refl))
