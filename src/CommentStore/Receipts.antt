-- ===== src/CommentStore/Receipts.antt =====
-- server/typescript/infrastructure/node-comment-store.ts: a client that tells twice of one read leaves one event.
use vivi.Base.{
  ℕ, zero, suc, ◌≤◌, ◌<◌, ◌≡◌, refl, ◌∙◌, ap, Bool, true, false, Option, none, some, List, [], ◌∷◌,
  ◌++◌, arith, map, codes, filter, find?, take, any, length, if◌then◌else◌, is_empty,
}
use vivi.Base.Strings.{Text, eq_self}
use vivi.Base.Laws.{filter-append, length-append, find?-append}
use vivi.Comments.{ViviComment, CommentThread, CommentActor, is_thread, build_comment_threads}
use vivi.CommentFields.{ok, err}
use vivi.CommentStore.{ThreadEvent}
use vivi.CommentStore.Threads.{
  list_comment_threads, no_filters, project, project_event, project_kind, matches, labelled,
}
use vivi.CommentStore.Activities.{
  CommentThreadActivityEvent, public_from, public_activity_event, is_of_thread, is_receipt,
  read_event, existing_receipt, answered, list_comment_thread_activities,
  append_thread_read_activity,
}

take_all {ℓ} : {A : Type ℓ} (n : ℕ) (xs : List A) → length xs ≤ n → take n xs ≡ xs
take_all zero [] h = refl
take_all (suc n) [] h = refl
take_all zero (x ∷ xs) h = absurd (omega (arith, h))
take_all (suc n) (x ∷ xs) h = ap (x ∷◌) (take_all n xs (omega arith))

project-append :
    (ts : List CommentThread) (es : List ThreadEvent) (e : ThreadEvent)
    → project ts (es ++ e ∷ []) ≡ project_event (project ts es) e
unfolding project
project-append ts [] e = refl
project-append ts (d ∷ es) e = project-append (project_event ts d) es e

public_from-append :
    (k : ℕ) (es : List ThreadEvent) (thread_id : Text) (actor : CommentActor) (client : Option Text)
    (id now : Text)
    → public_from k (es ++ read_event thread_id actor client id now ∷ [])
      ≡ public_from k es ++ public_activity_event (read_event thread_id actor client id now) 0 ∷ []
unfolding public_activity_event
public_from-append k [] thread_id actor client id now = refl
public_from-append k (e ∷ es) thread_id actor client id now =
    ap (public_activity_event e k ∷◌) (public_from-append (suc k) es thread_id actor client id now)

-- When a new event is told, there is a thread, and no receipt was there.
told_new :
    (there : Bool) (o : Option CommentThreadActivityEvent) (e : ThreadEvent) (message : Text)
    (receipt : CommentThreadActivityEvent) (event : ThreadEvent)
    → (if there then ok (answered o e) else err message) ≡ ok (receipt, some event)
    → (there ≡ true) × (o ≡ none) × (receipt ≡ public_activity_event e 0) × (event ≡ e)
unfolding answered
told_new false o e message receipt event h = cc
told_new true (some r) e message receipt event h = cc
told_new true none e message receipt event h = (refl, refl, cc, cc)

module _ (comments : List ViviComment) (events : List ThreadEvent) (thread_id : Text)
    (actor : CommentActor) (client : Text) where
  abbrev pub read_as : Text → Text → ThreadEvent
  read_as id now = read_event thread_id actor (some client) id now

  listed-read_as :
      (id now : Text)
      → list_comment_threads no_filters comments (events ++ read_as id now ∷ [])
        ≡ list_comment_threads no_filters comments events
  unfolding list_comment_threads project_event project_kind
  listed-read_as id now =
      ap (λ ts. filter (matches no_filters) (map labelled ts))
        (project-append (build_comment_threads comments) events (read_as id now))

  existing_receipt-read_as :
      (id now : Text)
      → is_empty client ≡ false
      → length (filter (is_of_thread thread_id) (public_from 0 events)) < 500
      → existing_receipt thread_id actor (some client) events ≡ none
      → existing_receipt thread_id actor (some client) (events ++ read_as id now ∷ [])
        ≡ some (public_activity_event (read_as id now) 0)
  unfolding existing_receipt list_comment_thread_activities public_activity_event
  existing_receipt-read_as id now full few fresh =
      rw (public_from-append 0 events thread_id actor (some client) id now) (
        rw (filter-append (is_of_thread thread_id) (public_from 0 events) (receipt ∷ [])) (
          rw (eq_self thread_id) (
            rw (take_all 500 (own ++ receipt ∷ []) fits, full)
              (find?-append (is_receipt actor client) own (receipt ∷ [])
                ∙ rw (none_before, eq_self actor.id, eq_self client) refl))))
    where
      receipt : CommentThreadActivityEvent
      receipt = public_activity_event (read_as id now) 0

      own : List CommentThreadActivityEvent
      own = filter (is_of_thread thread_id) (public_from 0 events)

      fits : length (own ++ receipt ∷ []) ≤ 500
      fits = omega (arith, few, length-append own (receipt ∷ []))

      none_before : find? (is_receipt actor client) own ≡ none
      none_before = rw (take_all 500 own (omega (arith, few)), full) at fresh

  -- Telling once more of a read appends nothing and returns the receipt of the first time, if the client names its event
  -- and the thread had fewer than 500 activities.
  pub append_thread_read_activity-once :
      (id now id_later later : Text) (receipt : CommentThreadActivityEvent) (event : ThreadEvent)
      → is_empty client ≡ false
      → length (filter (is_of_thread thread_id) (public_from 0 events)) < 500
      → append_thread_read_activity
          (list_comment_threads no_filters comments events)
          events
          thread_id
          actor
          (some client)
          id
          now
        ≡ ok (receipt, some event)
      → append_thread_read_activity
          (list_comment_threads no_filters comments (events ++ event ∷ []))
          (events ++ event ∷ [])
          thread_id
          actor
          (some client)
          id_later
          later
        ≡ ok (receipt, none)
  unfolding append_thread_read_activity
  append_thread_read_activity-once id now id_later later receipt event full few told =
      rw (new.3, new.2)
        (rw (listed-read_as id now, new.0, existing_receipt-read_as id now full few new.1) refl)
    where
      new :
          (any (is_thread thread_id) (list_comment_threads no_filters comments events) ≡ true)
          × (existing_receipt thread_id actor (some client) events ≡ none)
          × (receipt ≡ public_activity_event (read_as id now) 0)
          × (event ≡ read_as id now)
      new =
          told_new (any (is_thread thread_id) (list_comment_threads no_filters comments events))
            (existing_receipt thread_id actor (some client) events) (read_as id now)
            (codes "comment thread not found") receipt event told
