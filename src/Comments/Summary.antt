-- ===== src/Comments/Summary.antt =====
-- The summary fields of a thread are those of its comments.
use vivi.Base.{
  ◌≤◌, ◌≡◌, refl, ap, sym, ◌∙◌, false, none, some, List, [], ◌∷◌, ◌++◌, Text, text_lt, eqb, find?,
  filter, eq_self, ◌==◌, Bool, true, if◌then◌else◌, count, All, arith,
}
use mathlib.Core.Path.{subst}
use mathlib.Core.List.{append-nil, append_assoc}
use vivi.Base.Laws.{count-append}
use vivi.Base.Order.{text_lt_asym, text_lt_self, not_lt_trans}
use vivi.Comments.{
  ViviComment, CommentThread, comment_status_rank, is_thread, new_thread, merge_comment,
  build_comment_threads,
}
use vivi.Comments.Grouping.{belongs, fold_thread, find-build_comment_threads}

-- What holds of a thread and the comments that it has taken in.
pub record Summarises (t : CommentThread) (cs : List ViviComment) : Type 0 where
  pub members : t.comments ≡ cs
  pub highest : All (λ c. comment_status_rank c.status ≤ comment_status_rank t.status) cs
  pub attained :
      1 ≤ count (λ c. eqb (comment_status_rank c.status) (comment_status_rank t.status)) cs
  pub latest : All (λ c. text_lt t.updated_at c.updated_at ≡ false) cs
  pub earliest : All (λ c. text_lt c.created_at t.created_at ≡ false) cs
  pub updated_once : 1 ≤ count (λ c. c.updated_at == t.updated_at) cs
  pub created_once : 1 ≤ count (λ c. c.created_at == t.created_at) cs

All-step {ℓ κ} :
    {A : Type ℓ} {P Q : A → Type κ} (xs : List A) (x : A)
    → ((y : A) → P y → Q y)
    → All P xs
    → Q x
    → All Q (xs ++ x ∷ [])
All-step [] x f h q = (q, tt)
All-step (y ∷ xs) x f h q = (f y h.0, All-step xs x f h.1 q)

merge-members :
    (t : CommentThread) (c : ViviComment) → (merge_comment t c).comments ≡ t.comments ++ c ∷ []
unfolding merge_comment
merge-members t c = refl

attained-step :
    (t : CommentThread) (c : ViviComment) (cs : List ViviComment)
    → 1 ≤ count (λ c. eqb (comment_status_rank c.status) (comment_status_rank t.status)) cs
    → 1
      ≤ count
          (λ d. eqb (comment_status_rank d.status) (comment_status_rank (merge_comment t c).status))
          (cs ++ c ∷ [])
unfolding merge_comment
attained-step t c cs h = ground (
  arith,
  count-append (λ d. eqb (comment_status_rank d.status) (comment_status_rank t.status)) cs (c ∷ []),
  count-append (λ d. eqb (comment_status_rank d.status) (comment_status_rank c.status)) cs (c ∷ []),
)

merge-rank :
    (t : CommentThread) (c : ViviComment)
    → (comment_status_rank t.status ≤ comment_status_rank (merge_comment t c).status)
      × (comment_status_rank c.status ≤ comment_status_rank (merge_comment t c).status)
unfolding merge_comment
merge-rank t c = ground arith

merge-times :
    (t : CommentThread) (c : ViviComment)
    → (text_lt (merge_comment t c).updated_at t.updated_at ≡ false)
      × (text_lt (merge_comment t c).updated_at c.updated_at ≡ false)
      × (text_lt t.created_at (merge_comment t c).created_at ≡ false)
      × (text_lt c.created_at (merge_comment t c).created_at ≡ false)
unfolding merge_comment
merge-times t c = ground (
  arith,
  text_lt_asym t.updated_at c.updated_at,
  text_lt_asym c.created_at t.created_at,
  text_lt_self t.updated_at,
  text_lt_self c.updated_at,
  text_lt_self t.created_at,
  text_lt_self c.created_at,
)

-- A time that a comment has, after a comment that may replace it.
time-step :
    (f : ViviComment → Text) (b : Bool) (time : Text) (c : ViviComment) (cs : List ViviComment)
    → 1 ≤ count (λ d. f d == time) cs
    → 1 ≤ count (λ d. f d == (if b then f c else time)) (cs ++ c ∷ [])
time-step f false time c cs h = omega (arith, count-append (λ d. f d == time) cs (c ∷ []))
time-step f true time c cs h = last cs
  where
    last : (ds : List ViviComment) → 1 ≤ count (λ d. f d == f c) (ds ++ c ∷ [])
    last [] = rw (eq_self (f c)) (omega arith)
    last (d ∷ ds) = omega (arith, last ds)

Summarises-step :
    (t : CommentThread) (c : ViviComment) (cs : List ViviComment)
    → Summarises t cs
    → Summarises (merge_comment t c) (cs ++ c ∷ [])
unfolding merge_comment
Summarises-step t c cs s = record {
  members = merge-members t c ∙ ap (λ l. l ++ c ∷ []) s.members;
  highest =
      All-step cs c (λ d h. omega (arith, (merge-rank t c).0, h)) s.highest (merge-rank t c).1;
  attained = attained-step t c cs s.attained;
  latest =
      All-step cs c
        (λ d h.
          not_lt_trans (merge_comment t c).updated_at t.updated_at d.updated_at (merge-times t c).0
            h)
        s.latest (merge-times t c).1;
  earliest =
      All-step cs c
        (λ d h.
          not_lt_trans d.created_at t.created_at (merge_comment t c).created_at h
            (merge-times t c).2)
        s.earliest (merge-times t c).3;
  updated_once =
      time-step (λ d. d.updated_at) (text_lt t.updated_at c.updated_at) t.updated_at c cs
        s.updated_once;
  created_once =
      time-step (λ d. d.created_at) (text_lt c.created_at t.created_at) t.created_at c cs
        s.created_once;
}

Summarises-new : (c : ViviComment) → Summarises (merge_comment (new_thread c) c) (c ∷ [])
unfolding merge_comment
Summarises-new c = record {
  members = refl;
  highest = ground arith;
  attained = ground arith;
  latest = ground (arith, text_lt_self c.updated_at);
  earliest = ground (arith, text_lt_self c.created_at);
  updated_once = ground (arith, text_lt_self c.updated_at, eq_self c.updated_at);
  created_once = ground (arith, text_lt_self c.created_at, eq_self c.created_at);
}

fold-Summarises :
    (t : CommentThread) (done cs : List ViviComment) (u : CommentThread)
    → Summarises t done
    → fold_thread (some t) cs ≡ some u
    → Summarises u (done ++ cs)
fold-Summarises t done [] u s e =
    let same : t ≡ u = cc in rw (append-nil done) (subst (λ x. Summarises x done) same s)
fold-Summarises t done (c ∷ cs) u s e =
    subst (Summarises u) (append_assoc done (c ∷ []) cs)
      (fold-Summarises (merge_comment t c) (done ++ c ∷ []) cs u (Summarises-step t c done s) e)

first-Summarises :
    (cs : List ViviComment) (u : CommentThread) → fold_thread none cs ≡ some u → Summarises u cs
first-Summarises [] u e = cc
first-Summarises (c ∷ cs) u e =
    fold-Summarises (merge_comment (new_thread c) c) (c ∷ []) cs u (Summarises-new c) e

-- A thread holds exactly its comments in their order; its status is the highest among theirs in the
-- order open, resolved, archived; its times are the latest update and the earliest creation of one of
-- them.
pub build_comment_threads-Summarises :
    (cs : List ViviComment) (i : Text) (t : CommentThread)
    → find? (is_thread i) (build_comment_threads cs) ≡ some t
    → Summarises t (filter (belongs i) cs)
build_comment_threads-Summarises cs i t e =
    first-Summarises (filter (belongs i) cs) t (sym (find-build_comment_threads cs i) ∙ e)
