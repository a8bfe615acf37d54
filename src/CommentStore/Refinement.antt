-- ===== src/CommentStore/Refinement.antt =====
-- server/typescript/infrastructure/node-comment-store.ts: the files hold the lists that the jobs mean, in whatever order the
-- jobs of different calls come to the queue.
use vivi.Base.{
  ◌≡◌, refl, ap, ℕ, zero, suc, Option, none, some, List, [], ◌∷◌, ◌++◌, take, drop, set,
  find_index?,
}
use vivi.Base.Lists.{All}
use vivi.Comments.{ViviComment}
use vivi.CommentFields.{Result, ok, err}
use vivi.CommentStore.{
  DraftReviewComment, sourced_comment, sourced_draft, pushed, update_comment,
  update_draft_review_comment, delete_draft_review_comment, edit_at, edited, draft_index,
  has_comment_id,
}
use vivi.CommentStore.Jsonl.{IsJson, read, rewrite, rewrite-ok, rewrite-err, read-write_fixed}
use vivi.CommentStore.Jobs.{
  Files, Store, Job, create_comment, change_comment, append_event, create_draft, change_draft,
  delete_draft, Codecs, same_event, on_comments, on_drafts, in_comments, in_drafts, run_job,
  run_queue, apply_job, apply_queue, with_comments, with_drafts, IsSourced, Change,
}

module _ {ℓ κ} {A : Type ℓ} (P : A → Type κ) where
  All-pushed : (xs : List A) (x : A) → All P xs → P x → All P (xs ++ x ∷ [])
  All-pushed [] x h p = (p, tt)
  All-pushed (y ∷ xs) x h p = (h.0, All-pushed xs x h.1 p)

  All-set : (xs : List A) (i : ℕ) (x : A) → All P xs → P x → All P (set xs i x)
  All-set [] i x h p = tt
  All-set (y ∷ xs) zero x h p = (p, h.1)
  All-set (y ∷ xs) (suc i) x h p = (h.0, All-set xs i x h.1 p)

  All-edit_at :
      (f : A → A) (xs : List A) (i : ℕ)
      → ((x : A) → P x → P (f x))
      → All P xs
      → All P (edit_at f xs i)
  All-edit_at f [] i p h = tt
  All-edit_at f (y ∷ xs) zero p h = (p y h.0, h.1)
  All-edit_at f (y ∷ xs) (suc i) p h = (h.0, All-edit_at f xs i p h.1)

  All-spliced : (xs : List A) (i : ℕ) → All P xs → All P (take i xs ++ drop (suc i) xs)
  All-spliced [] zero h = tt
  All-spliced [] (suc i) h = tt
  All-spliced (x ∷ xs) zero h = h.1
  All-spliced (x ∷ xs) (suc i) h = (h.0, All-spliced xs i h.1)

  all_trivial : (xs : List A) → ((x : A) → P x) → All P xs
  all_trivial [] h = tt
  all_trivial (x ∷ xs) h = (h x, all_trivial xs h)

-- The files are read as the lists, whose comments and drafts name their source.
abbrev pub Holds : Codecs → Files → Store → Type 0
Holds c files s =
    (read c.comment sourced_comment files.comments ≡ ok s.comments)
    × (read c.draft sourced_draft files.drafts ≡ ok s.drafts)
    × (read c.event same_event files.events ≡ ok s.events)
    × All (λ x. sourced_comment x ≡ x) s.comments
    × All (λ d. sourced_draft d ≡ d) s.drafts

-- Both succeed, with files that hold the lists, or both throw the same message.
abbrev pub Agrees : Codecs → Result Files → Result Store → Type 0
Agrees c (ok files) (ok s) = Holds c files s
Agrees c (err e) (err d) = e ≡ d
Agrees c _ _ = ⊥

abbrev Keeps {ℓ} : {A : Type ℓ} → (A → A) → Result (List A) → Type ℓ
Keeps fix (ok ys) = All (λ y. fix y ≡ y) ys
Keeps fix (err e) = Unit

module _ (c : Codecs) (json_comment : IsJson c.comment) (json_draft : IsJson c.draft)
    (json_event : IsJson c.event) where
  on_comments-Agrees :
      (f : Change ViviComment) (files : Files) (s : Store)
      → Holds c files s
      → Keeps sourced_comment (f s.comments)
      → Agrees c (on_comments c files f) (with_comments s (f s.comments))
  unfolding on_comments
  on_comments-Agrees f files s h keeps = by_result (f s.comments) refl keeps
    where
      by_result :
          (ys : Result (List ViviComment))
          → f s.comments ≡ ys
          → Keeps sourced_comment ys
          → Agrees c
              (in_comments files (rewrite c.comment sourced_comment f files.comments))
              (with_comments s ys)
      by_result (ok ys) e k =
          rw
            (rewrite-ok c.comment sourced_comment json_comment f files.comments s.comments ys h.0 e)
            (read-write_fixed c.comment sourced_comment json_comment ys k, h.1, h.2, k, h.4)
      by_result (err message) e k =
          rw
            (rewrite-err c.comment sourced_comment json_comment f files.comments s.comments [] h.0
              e)
            refl

  on_drafts-Agrees :
      (f : Change DraftReviewComment) (files : Files) (s : Store)
      → Holds c files s
      → Keeps sourced_draft (f s.drafts)
      → Agrees c (on_drafts c files f) (with_drafts s (f s.drafts))
  unfolding on_drafts
  on_drafts-Agrees f files s h keeps = by_result (f s.drafts) refl keeps
    where
      by_result :
          (ys : Result (List DraftReviewComment))
          → f s.drafts ≡ ys
          → Keeps sourced_draft ys
          → Agrees c
              (in_drafts files (rewrite c.draft sourced_draft f files.drafts))
              (with_drafts s ys)
      by_result (ok ys) e k =
          rw (rewrite-ok c.draft sourced_draft json_draft f files.drafts s.drafts ys h.1 e)
            (h.0, read-write_fixed c.draft sourced_draft json_draft ys k, h.2, h.3, k)
      by_result (err message) e k =
          rw (rewrite-err c.draft sourced_draft json_draft f files.drafts s.drafts [] h.1 e) refl

  -- A job on files that hold the lists does what it means for the lists.
  run_job-Agrees :
      (job : Job) (files : Files) (s : Store)
      → IsSourced job
      → Holds c files s
      → Agrees c (run_job c files job) (apply_job s job)
  unfolding run_job apply_job update_comment update_draft_review_comment delete_draft_review_comment
  run_job-Agrees (create_comment x) files s p h =
      on_comments-Agrees (pushed x) files s h (All-pushed _ s.comments x h.3 p)
  run_job-Agrees (change_comment x) files s p h =
      on_comments-Agrees (update_comment x) files s h
        (changed (find_index? (has_comment_id x.id) s.comments) refl)
    where
      changed :
          (i : Option ℕ)
          → find_index? (has_comment_id x.id) s.comments ≡ i
          → Keeps sourced_comment (update_comment x s.comments)
      changed none e = rw (Keeps, e) tt
      changed (some i) e = rw (Keeps, e) (All-set _ s.comments i x h.3 p)
  run_job-Agrees (append_event x) files s p h =
      rw
        (rewrite-ok c.event same_event json_event (pushed x) files.events s.events
          (s.events ++ x ∷ []) h.2 refl)
        (
          h.0,
          h.1,
          read-write_fixed c.event same_event json_event (s.events ++ x ∷ [])
              (all_trivial _ (s.events ++ x ∷ []) (λ x. refl)),
          h.3,
          h.4,
        )
  run_job-Agrees (create_draft d) files s p h =
      on_drafts-Agrees (pushed d) files s h (All-pushed _ s.drafts d h.4 p)
  run_job-Agrees (change_draft id body at) files s p h =
      on_drafts-Agrees (update_draft_review_comment id body at) files s h
        (changed (draft_index id s.drafts) refl)
    where
      changed :
          (i : Result ℕ)
          → draft_index id s.drafts ≡ i
          → Keeps sourced_draft (update_draft_review_comment id body at s.drafts)
      changed (err m) e = rw (Keeps, e) tt
      changed (ok i) e =
          rw (Keeps, e)
            (All-edit_at _ (edited body at) s.drafts i (λ d k. ap (edited body at) k) h.4)
  run_job-Agrees (delete_draft id) files s p h =
      on_drafts-Agrees (delete_draft_review_comment id) files s h
        (changed (draft_index id s.drafts) refl)
    where
      changed :
          (i : Result ℕ)
          → draft_index id s.drafts ≡ i
          → Keeps sourced_draft (delete_draft_review_comment id s.drafts)
      changed (err m) e = rw (Keeps, e) tt
      changed (ok i) e = rw (Keeps, e) (All-spliced _ s.drafts i h.4)

  -- Whatever jobs come to the queue, in whatever order: on files that hold the lists every caller gets the outcome that the
  -- lists say, and afterwards the files hold the changed lists, if JSON keeps its promises and what is stored names its
  -- source.
  pub run_queue-Holds :
      (jobs : List Job) (files : Files) (s : Store)
      → All IsSourced jobs
      → Holds c files s
      → ((run_queue c files jobs).0 ≡ (apply_queue s jobs).0)
        × Holds c (run_queue c files jobs).1 (apply_queue s jobs).1
  unfolding run_queue apply_queue
  run_queue-Holds [] files s p h = (refl, h)
  run_queue-Holds (job ∷ jobs) files s p h =
      after (run_job c files job) (apply_job s job) refl refl (run_job-Agrees job files s p.0 h)
        (λ f t. run_queue-Holds jobs f t p.1)
    where
      after :
          (r : Result Files) (t : Result Store)
          → run_job c files job ≡ r
          → apply_job s job ≡ t
          → Agrees c r t
          → ((f : Files) (t : Store)
              → Holds c f t
              → ((run_queue c f jobs).0 ≡ (apply_queue t jobs).0)
                × Holds c (run_queue c f jobs).1 (apply_queue t jobs).1)
          → ((run_queue c files (job ∷ jobs)).0 ≡ (apply_queue s (job ∷ jobs)).0)
            × Holds c (run_queue c files (job ∷ jobs)).1 (apply_queue s (job ∷ jobs)).1
      after (ok next) (ok t) e d k ih =
          let rest = ih next t k in rw (run_queue, apply_queue, e, d) (ap (none ∷◌) rest.0, rest.1)
      after (err m) (err n) e d k ih =
          let rest = ih files s h in
          rw (run_queue, apply_queue, e, d, k) (ap (some n ∷◌) rest.0, rest.1)
      after (ok next) (err n) e d k ih = absurd k
      after (err m) (ok t) e d k ih = absurd k
