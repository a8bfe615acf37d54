-- ===== src/CommentActivity/Receipts.antt =====
-- ui/src/state/comment-activity.ts: whether an agent has seen a thread, as the events that are kept tell it.
use vivi.Base.{
  ℕ, zero, suc, ◌≡◌, refl, sym, ap, ◌∙◌, inl, inr, Bool, false, some, List, [], ◌∷◌, ◌++◌, ◌==◌,
  eq_iff, filter, find?, take, contains, All, arith, Bool-cases, if◌then◌else◌,
}
use mathlib.Core.Path.{subst}
use mathlib.Core.List.{append_assoc, append-nil}
use vivi.Base.Strings.{Text}
use vivi.Base.Laws.{filter-append}
use vivi.Base.Dict.{lookup, lookup-put}
use vivi.Base.Sorting.{
  IsOrder, IsSorted, insert_by, sort_by, sort_by-IsSorted, sort_by-append, sort_by-sorted,
}
use vivi.Comments.{CommentThread}
use vivi.CommentStore.Activities.{CommentThreadActivityEvent, is_of_thread}
use vivi.CommentActivity.{
  CommentActivityState, empty_comment_activity_state, is_agent_thread_read, is_newer,
  retain_thread_activities, events_or_none, add_comment_activity, add_comment_activities,
  comment_thread_review_receipt, receipt_for,
}
use vivi.CommentActivity.Finding.{earliest, find-insert_by}
use vivi.CommentActivity.Retaining.{
  Fresh, IsDistinct, not_same, retain-IsKept, is_newer-IsOrder, All-insert_by,
}

All-end {ℓ κ} :
    {A : Type ℓ} (Q : A → Type κ) (xs : List A) (x : A) → All Q (xs ++ x ∷ []) → All Q xs × Q x
All-end Q [] x h = (tt, h.0)
All-end Q (y ∷ xs) x h = ((h.0, (All-end Q xs x h.1).0), (All-end Q xs x h.1).1)

contains-take :
    (n : ℕ) (ids : List Text) (id : Text)
    → contains ids id ≡ false
    → contains (take n ids) id ≡ false
contains-take zero ids id h = refl
contains-take (suc n) [] id h = refl
contains-take (suc n) (i ∷ ids) id h = ground (arith, h, contains-take n ids id)

IsDistinct-Fresh :
    (done : List CommentThreadActivityEvent) (e : CommentThreadActivityEvent)
    (es : List CommentThreadActivityEvent)
    → IsDistinct (done ++ e ∷ es)
    → Fresh e done
IsDistinct-Fresh [] e es h = tt
IsDistinct-Fresh (d ∷ done) e es h =
    (not_same e.id d.id (middle done h.0), IsDistinct-Fresh done e es h.1)
  where
    middle :
        (ys : List CommentThreadActivityEvent)
        → All (λ y. (y.id == d.id) ≡ false) (ys ++ e ∷ es)
        → (e.id == d.id) ≡ false
    middle [] k = k.0
    middle (y ∷ ys) k = middle ys k.1

module _ (locale_before : Text → Text → Bool) (o : IsOrder locale_before) where
  abbrev thread_events : Text → List CommentThreadActivityEvent → List CommentThreadActivityEvent
  thread_events t events = sort_by (is_newer locale_before) (filter (is_of_thread t) events)

  -- What is kept of a thread, against all events so far.
  record Follows (done : List CommentThreadActivityEvent) (t : Text)
      (kept : List CommentThreadActivityEvent) : Type 0 where
    in_order : IsSorted (is_newer locale_before) kept
    distinct : IsDistinct kept
    latest : find? is_agent_thread_read kept ≡ find? is_agent_thread_read (thread_events t done)
    fresh : (e : CommentThreadActivityEvent) → Fresh e done → Fresh e kept

  Follows-same :
      (done : List CommentThreadActivityEvent) (e : CommentThreadActivityEvent)
      (kept : List CommentThreadActivityEvent)
      → Fresh e done
      → Follows done e.thread_id kept
      → Follows
          (done ++ e ∷ [])
          e.thread_id
          (retain_thread_activities locale_before (kept ++ e ∷ []))
  Follows-same done e kept f h =
      let k = retain-IsKept locale_before o kept e h.in_order h.distinct (h.fresh e f) in
      record {
        in_order = k.in_order;
        distinct = k.distinct;
        latest = k.latest ∙ added;
        fresh = λ x g. k.fresh x (
            All-insert_by (is_newer locale_before) (λ y. (y.id == x.id) ≡ false) e kept
              (All-end (λ y. (y.id == x.id) ≡ false) done e g).1
              (h.fresh x (All-end (λ y. (y.id == x.id) ≡ false) done e g).0));
      }
    where
      all : List CommentThreadActivityEvent
      all = filter (is_of_thread e.thread_id) done

      same_thread : filter (is_of_thread e.thread_id) (done ++ e ∷ []) ≡ all ++ e ∷ []
      same_thread =
          filter-append (is_of_thread e.thread_id) done (e ∷ [])
          ∙ rw ((eq_iff e.thread_id e.thread_id).1 refl) refl

      added :
          find? is_agent_thread_read (insert_by (is_newer locale_before) e kept)
          ≡ find? is_agent_thread_read (thread_events e.thread_id (done ++ e ∷ []))
      added =
          find-insert_by is_agent_thread_read (is_newer locale_before)
            (is_newer-IsOrder locale_before o) e kept h.in_order
          ∙ ap (λ r. if is_agent_thread_read e then earliest (is_newer locale_before) e r else r)
              h.latest
          ∙ sym (
              find-insert_by is_agent_thread_read (is_newer locale_before)
                (is_newer-IsOrder locale_before o) e (thread_events e.thread_id done)
                (sort_by-IsSorted (is_newer locale_before) (is_newer-IsOrder locale_before o) all))
          ∙ ap (find? is_agent_thread_read) (
              sym (sort_by-append (is_newer locale_before) all e)
              ∙ ap (sort_by (is_newer locale_before)) (sym same_thread))

  Follows-other :
      (done : List CommentThreadActivityEvent) (e : CommentThreadActivityEvent) (t : Text)
      (kept : List CommentThreadActivityEvent)
      → (e.thread_id == t) ≡ false
      → Follows done t kept
      → Follows (done ++ e ∷ []) t kept
  Follows-other done e t kept n h = record {
    in_order = h.in_order;
    distinct = h.distinct;
    latest =
        h.latest
        ∙ ap (λ es. find? is_agent_thread_read (sort_by (is_newer locale_before) es))
            (sym (
              filter-append (is_of_thread t) done (e ∷ [])
              ∙ rw n (append-nil (filter (is_of_thread t) done))));
    fresh = λ x g. h.fresh x (All-end (λ y. (y.id == x.id) ≡ false) done e g).0;
  }

  -- The state after the events `done`.
  record IsFollowed (done : List CommentThreadActivityEvent) (state : CommentActivityState)
      : Type 0 where
    threads : (t : Text) → Follows done t (events_or_none (lookup t state.by_thread_id))
    unseen_ids :
        (e : CommentThreadActivityEvent) → Fresh e done → contains state.seen_event_ids e.id ≡ false

  add_comment_activity-IsFollowed :
      (done : List CommentThreadActivityEvent) (state : CommentActivityState)
      (e : CommentThreadActivityEvent)
      → Fresh e done
      → IsFollowed done state
      → IsFollowed (done ++ e ∷ []) (add_comment_activity locale_before state e)
  unfolding add_comment_activity
  add_comment_activity-IsFollowed done state e f h = rw (h.unseen_ids e f) record {
    threads = λ t.
        rw
          (lookup-put t e.thread_id
            (retain_thread_activities locale_before
              (events_or_none (lookup e.thread_id state.by_thread_id) ++ e ∷ []))
            state.by_thread_id)
          (elim (Bool-cases (e.thread_id == t)) [
            | inl s ↦ rw s (
                subst
                  (λ u. Follows (done ++ e ∷ []) u (
                    retain_thread_activities locale_before
                      (events_or_none (lookup e.thread_id state.by_thread_id) ++ e ∷ [])))
                  ((eq_iff e.thread_id t).0 s)
                  (Follows-same done e (events_or_none (lookup e.thread_id state.by_thread_id)) f
                    (h.threads e.thread_id)))
            | inr n ↦ rw n (
                Follows-other done e t (events_or_none (lookup t state.by_thread_id)) n
                  (h.threads t))
          ]);
    unseen_ids = λ x g.
        let ends = All-end (λ y. (y.id == x.id) ≡ false) done e g in
        ground (arith, ends.1, contains-take 599 state.seen_event_ids x.id (h.unseen_ids x ends.0));
  }

  add_comment_activities-IsFollowed :
      (done es : List CommentThreadActivityEvent) (state : CommentActivityState)
      → IsDistinct (done ++ es)
      → IsFollowed done state
      → IsFollowed (done ++ es) (add_comment_activities locale_before state es)
  unfolding add_comment_activities
  add_comment_activities-IsFollowed done [] state d h =
      subst (λ all. IsFollowed all state) (sym (append-nil done)) h
  add_comment_activities-IsFollowed done (e ∷ es) state d h =
      subst
        (λ all.
          IsFollowed all
            (add_comment_activities locale_before (add_comment_activity locale_before state e) es))
        (append_assoc done (e ∷ []) es)
        (add_comment_activities-IsFollowed (done ++ e ∷ []) es
          (add_comment_activity locale_before state e)
          (subst IsDistinct (sym (append_assoc done (e ∷ []) es)) d)
          (add_comment_activity-IsFollowed done state e (IsDistinct-Fresh done e es d) h))

  empty-IsFollowed : IsFollowed [] empty_comment_activity_state
  unfolding lookup sort_by
  empty-IsFollowed = record {
    threads = λ t. record { in_order = tt; distinct = tt; latest = refl; fresh = λ e f. tt };
    unseen_ids = λ e f. refl;
  }

  -- After any events with ids of their own, if times are compared by an order, the receipt of a thread is the one that all
  -- its events give: that only 24 events of a thread and 600 ids are kept never hides or ends what an agent has read.
  pub comment_thread_review_receipt-add_comment_activities :
      (events : List CommentThreadActivityEvent) (thread : CommentThread)
      → IsDistinct events
      → comment_thread_review_receipt locale_before thread (
          lookup thread.id
            (add_comment_activities locale_before empty_comment_activity_state events).by_thread_id)
        ≡ comment_thread_review_receipt locale_before thread
            (some (filter (is_of_thread thread.id) events))
  unfolding comment_thread_review_receipt
  comment_thread_review_receipt-add_comment_activities events thread d =
      let kept =
        (add_comment_activities-IsFollowed [] events empty_comment_activity_state d
            empty-IsFollowed).threads
          thread.id in
      ap (λ es. receipt_for thread (find? is_agent_thread_read es))
        (sort_by-sorted (is_newer locale_before)
          (events_or_none (
            lookup thread.id
              (add_comment_activities locale_before empty_comment_activity_state
                events).by_thread_id))
          kept.in_order)
      ∙ ap (receipt_for thread) kept.latest
