-- ===== src/ViewerService/Publishing.antt =====
-- server/typescript/application/viewer-service.ts: what publishing drafts does to the store.
use vivi.Base.{
  ℕ, suc, ◌+◌, ◌≡◌, refl, sym, ◌∙◌, ap, Bool, true, false, not, Option, none, some, List, [], ◌∷◌,
  ◌++◌, arith, map, filter, take, drop, find_index?, eq_iff, eq_self, ◌==◌, truthy, Bool-cases, inl,
  inr,
}
use mathlib.Core.Option
use mathlib.Core.List.{append_assoc, append-nil}
use vivi.Base.Strings.{Text}
use vivi.Base.Lists.{All}
use vivi.Base.Dict.{Dict}
use vivi.Comments.{
  ViviComment, CommentAnchor, CommentViewerKind, CommentActor, CommentStatus, CommentThread,
  build_comment_threads, open_status,
}
use vivi.CommentFields.{ok}
use vivi.CommentStore.{DraftReviewComment, delete_draft_review_comment, has_draft_id}
use vivi.CommentStore.Jobs.{delete_draft, apply_job}
use vivi.CommentInput.{CreateCommentInput}
use vivi.ViewerService.{
  Environment, World, new_comment, create_normalized_comment, publish_each,
  publish_draft_review_comments, draft_only_publish_thread_id, is_selected, batch_id,
  published_input, stored_comment, note_added, note_thread, publish_latest_activity, fresh_comment,
  noted, do_job, publish_one,
}

-- What readers see of a comment, apart from its thread, its writer and its time.
pub record Said : Type 0 where
  pub path : Text
  pub viewer_kind : CommentViewerKind
  pub anchor : CommentAnchor
  pub body : Text
  pub review_batch_id : Option Text
  pub status : CommentStatus

abbrev pub said : ViviComment → Said
said c = record {
  path = c.path;
  viewer_kind = c.viewer_kind;
  anchor = c.anchor;
  body = c.body;
  review_batch_id = c.review_batch_id;
  status = c.status;
}

abbrev pub said_by : Text → DraftReviewComment → Said
said_by batch d = record {
  path = d.path;
  viewer_kind = d.viewer_kind;
  anchor = d.anchor;
  body = d.body;
  review_batch_id = some batch;
  status = open_status;
}

-- The comments and the drafts of two states are the same.
abbrev KeepsLists : World → World → Type 0
KeepsLists w v = (v.store.comments ≡ w.store.comments) × (v.store.drafts ≡ w.store.drafts)

note_added-KeepsLists :
    (env : Environment) (c : ViviComment) (w : World) → KeepsLists w (note_added env c w)
note_added-KeepsLists env c w = by_thread c.thread_id refl
  where
    by_thread : (t : Option Text) → c.thread_id ≡ t → KeepsLists w (note_added env c w)
    by_thread none e = rw e (refl, refl)
    by_thread (some t) e = rw e (ground arith, ground arith)

note_thread-KeepsLists :
    (env : Environment) (ts : List CommentThread) (w : World) → KeepsLists w (note_thread env ts w)
note_thread-KeepsLists env [] w = (refl, refl)
note_thread-KeepsLists env (t ∷ ts) w = (refl, refl)

noted-KeepsLists :
    (env : Environment) (input : CreateCommentInput) (c : ViviComment) (w : World)
    → KeepsLists w (noted env input c w)
unfolding noted
noted-KeepsLists env input c w = by_thread (truthy input.thread_id) refl
  where
    added : KeepsLists w (note_added env c w)
    added = note_added-KeepsLists env c w

    threaded :
        KeepsLists
          (note_added env c w)
          (note_thread env (build_comment_threads (c ∷ [])) (note_added env c w))
    threaded = note_thread-KeepsLists env (build_comment_threads (c ∷ [])) (note_added env c w)

    by_thread : (b : Bool) → truthy input.thread_id ≡ b → KeepsLists w (noted env input c w)
    by_thread true e = rw e added
    by_thread false e = rw e (threaded.0 ∙ added.0, threaded.1 ∙ added.1)

-- Creating a comment adds it to the comments, and leaves the drafts.
create_normalized_comment-lists :
    (env : Environment) (input : CreateCommentInput) (w : World)
    → ((create_normalized_comment env input w).store.comments
        ≡ w.store.comments ++ fresh_comment env input w ∷ [])
      × ((create_normalized_comment env input w).store.drafts ≡ w.store.drafts)
unfolding create_normalized_comment publish_latest_activity
create_normalized_comment-lists env input w =
    noted-KeepsLists env input (fresh_comment env input w)
      (stored_comment (fresh_comment env input w) w)

-- The first draft with the id of one that stands after drafts with other ids is that one.
draft_index-after :
    (us vs : List DraftReviewComment) (d : DraftReviewComment)
    → All (λ u. (u.id == d.id) ≡ false) us
    → (n : ℕ) × (find_index? (has_draft_id d.id) (us ++ d ∷ vs) ≡ some n)
      × (take n (us ++ d ∷ vs) ++ drop (suc n) (us ++ d ∷ vs) ≡ us ++ vs)
draft_index-after [] vs d h = (0, rw (eq_self d.id) refl, refl)
draft_index-after (u ∷ us) vs d h =
    let rest = draft_index-after us vs d h.1 in
    (suc rest.0, rw h.0 (ap (Option.map suc) rest.1), ap (u ∷◌) rest.2)

delete_draft-after :
    (us vs : List DraftReviewComment) (d : DraftReviewComment)
    → All (λ u. (u.id == d.id) ≡ false) us
    → delete_draft_review_comment d.id (us ++ d ∷ vs) ≡ ok (us ++ vs)
unfolding delete_draft_review_comment
delete_draft-after us vs d h =
    let found = draft_index-after us vs d h in
    rw (delete_draft_review_comment, found.1) (ap ok found.2)

-- Whether a draft is chosen depends on its id alone.
other_id :
    (ids : List Text) (u d : DraftReviewComment)
    → is_selected ids u ≡ false
    → is_selected ids d ≡ true
    → (u.id == d.id) ≡ false
other_id ids u d h k = elim (Bool-cases (u.id == d.id)) [
  | inl e ↦ absurd (clash (sym (rw ((eq_iff u.id d.id).0 e) at h) ∙ k))
  | inr e ↦ e
]
  where
    clash : false ≡ true → ⊥
    clash e = cc

map-append {ℓ κ} :
    {A : Type ℓ} {B : Type κ} (f : A → B) (xs ys : List A) → map f (xs ++ ys) ≡ map f xs ++ map f ys
map-append f [] ys = refl
map-append f (x ∷ xs) ys = ap (f x ∷◌) (map-append f xs ys)

-- The lists after the drafts `chosen` are published under a batch, where `left` are the drafts that stay.
abbrev pub IsPublished :
    Text → List DraftReviewComment → List DraftReviewComment → World → World × Option Text → Type 0
IsPublished batch chosen left w r =
    (r.1 ≡ none)
    × (r.0.store.drafts ≡ left)
    × (map said r.0.store.comments ≡ map said w.store.comments ++ map (said_by batch) chosen)

do_job-delete_draft :
    (us vs : List DraftReviewComment) (d : DraftReviewComment) (w : World)
    → w.store.drafts ≡ us ++ d ∷ vs
    → All (λ u. (u.id == d.id) ≡ false) us
    → do_job (delete_draft d.id) w
      ≡ (record w { store = record w.store { drafts = us ++ vs } }, none)
unfolding do_job apply_job
do_job-delete_draft us vs d w held others =
    rw (do_job, ap (delete_draft_review_comment d.id) held ∙ delete_draft-after us vs d others) refl

module _ (env : Environment) (batch : Text) (actor : Option CommentActor)
    (ids draft_ids : List Text) where
  publish_one-lists :
      (us vs : List DraftReviewComment) (d : DraftReviewComment) (groups : Dict Text) (w : World)
      → w.store.drafts ≡ us ++ d ∷ vs
      → All (λ u. (u.id == d.id) ≡ false) us
      → IsPublished batch (d ∷ []) (us ++ vs) w (publish_one env batch actor draft_ids d groups w).0
  unfolding publish_one fresh_comment new_comment
  publish_one-lists us vs d groups w held others =
      rw (do_job-delete_draft us vs d created (lists.1 ∙ held) others) (
        refl,
        refl,
        ap (map said) lists.0
            ∙ map-append said w.store.comments (fresh_comment env input start ∷ []),
      )
    where
      thread : Option Text × Dict Text × ℕ
      thread = draft_only_publish_thread_id env d draft_ids groups w.calls

      input : CreateCommentInput
      input = published_input batch actor thread.0 d

      start : World
      start = record w { calls = thread.2 }

      created : World
      created = create_normalized_comment env input start

      lists :
          (created.store.comments ≡ w.store.comments ++ fresh_comment env input start ∷ [])
          × (created.store.drafts ≡ w.store.drafts)
      lists = create_normalized_comment-lists env input start

  publish_each-lists :
      (rest us : List DraftReviewComment) (groups : Dict Text) (w : World)
      → w.store.drafts ≡ us ++ rest
      → All (λ u. is_selected ids u ≡ false) us
      → IsPublished batch
          (filter (is_selected ids) rest)
          (us ++ filter (λ d. not (is_selected ids d)) rest)
          w
          (publish_each env batch actor draft_ids (filter (is_selected ids) rest) groups w)
  unfolding publish_each
  publish_each-lists [] us groups w held others =
      (refl, held, sym (append-nil (map said w.store.comments)))
  publish_each-lists (d ∷ rest) us groups w held others = elim (Bool-cases (is_selected ids d)) [
    | inl e ↦ rw e (chosen e (publish_each-lists rest us))
    | inr e ↦
        (rw (e, sym (append_assoc us (d ∷ []) (filter (λ d. not (is_selected ids d)) rest)))
          (publish_each-lists rest (us ++ d ∷ []) groups w
            (held ∙ sym (append_assoc us (d ∷ []) rest)) (with_last us d others e)))
  ]
    where
      with_last :
          (us : List DraftReviewComment) (d : DraftReviewComment)
          → All (λ u. is_selected ids u ≡ false) us
          → is_selected ids d ≡ false
          → All (λ u. is_selected ids u ≡ false) (us ++ d ∷ [])
      with_last [] d h e = (e, tt)
      with_last (u ∷ us) d h e = (h.0, with_last us d h.1 e)

      differ :
          (us : List DraftReviewComment)
          → is_selected ids d ≡ true
          → All (λ u. is_selected ids u ≡ false) us
          → All (λ u. (u.id == d.id) ≡ false) us
      differ [] e h = tt
      differ (u ∷ us) e h = (other_id ids u d h.0 e, differ us e h.1)

      left : List DraftReviewComment
      left = filter (λ d. not (is_selected ids d)) rest

      chosen :
          is_selected ids d ≡ true
          → ((groups : Dict Text) (w : World)
              → w.store.drafts ≡ us ++ rest
              → All (λ u. is_selected ids u ≡ false) us
              → IsPublished batch
                  (filter (is_selected ids) rest)
                  (us ++ left)
                  w
                  (publish_each env batch actor draft_ids (filter (is_selected ids) rest) groups w))
          → IsPublished batch
              (d ∷ filter (is_selected ids) rest)
              (us ++ left)
              w
              (publish_each env batch actor draft_ids (d ∷ filter (is_selected ids) rest) groups w)
      chosen e ih =
          let first = publish_one-lists us rest d groups w held (differ us e others) in
          let one = publish_one env batch actor draft_ids d groups w in
          let later = ih one.1 one.0.0 first.1 others in
          rw (publish_each, first.0)
            (
              later.0,
              later.1,
              later.2
                  ∙ ap (◌++ map (said_by batch) (filter (is_selected ids) rest)) first.2
                  ∙ append_assoc (map said w.store.comments) (said_by batch d ∷ [])
                      (map (said_by batch) (filter (is_selected ids) rest)),
            )

-- Publishing succeeds; the chosen drafts, all of them if none is named, are gone, and the comments have grown by one open
-- comment of the batch for each of them, in order, with its text, its place and its file.
pub publish_draft_review_comments-IsPublished :
    (env : Environment) (ids : List Text) (actor : Option CommentActor) (w : World)
    → IsPublished
        (batch_id env w)
        (filter (is_selected ids) w.store.drafts)
        (filter (λ d. not (is_selected ids d)) w.store.drafts)
        w
        (publish_draft_review_comments env ids actor w)
unfolding publish_draft_review_comments
publish_draft_review_comments-IsPublished env ids actor w =
    publish_each-lists env (batch_id env w) actor ids
      (map (λ d. d.id) (filter (is_selected ids) w.store.drafts)) w.store.drafts [] []
      (record w { calls = w.calls + 2 }) refl tt
